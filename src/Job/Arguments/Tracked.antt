-- ===== src/Job/Arguments/Tracked.antt =====
-- The track ids that `parse_track_ids` of engine/src/hopeit/server/job.py gives.
use Prim.Native.String
use text.Mathlib.TextLemmas.{cons-append}
use hopeit_engine.Common.{
  ◌≡◌, refl, ◌⊎◌, inl, inr, Bool-cases, true, false, Option, none, some, [], ◌∷◌, String, Result,
  ok, err, ◌>>=◌, Any, All, arith, eq_iff, Bool,
}
use hopeit_engine.Common.Dict.{Dict, lookup, insert, insert-lookup, insert-none}
use hopeit_engine.Job.Arguments.{
  Loaded, ArgumentError, starts_with, normalize_key, normalize, parse_json_kv_payload,
  parse_track_ids,
}

starts_with-append : (prefix s : String) → starts_with prefix (String.◌++◌ prefix s) ≡ true
unfolding starts_with
starts_with-append String.[] s = refl
starts_with-append (String.◌∷◌ c prefix) s =
    rw (cons-append) (ground (arith, starts_with-append prefix s))

normalize_key-starts : (key : String) → starts_with "track." (normalize_key key) ≡ true
unfolding normalize_key
normalize_key-starts key = elim (Bool-cases (starts_with "track." key)) [
  | inl has ↦ rw has has
  | inr lacks ↦ rw lacks (starts_with-append "track." key)
]

-- The key of an item gives the key of a track id: as it is if it has the prefix, and else behind it.
pub Gives : String → String → Type 0
Gives k key =
    ((starts_with "track." k ≡ true) × (k ≡ key))
    ⊎ ((starts_with "track." k ≡ false) × (String.◌++◌ "track." k ≡ key))

normalize_key-Gives : (k : String) → Gives k (normalize_key k)
unfolding normalize_key Gives
normalize_key-Gives k = elim (Bool-cases (starts_with "track." k)) [
  | inl has ↦ inl (has, rw has refl)
  | inr lacks ↦ inr (lacks, rw lacks refl)
]

Gives-normalize_key : (k key : String) → Gives k key → normalize_key k ≡ key
unfolding normalize_key Gives
Gives-normalize_key k key (inl (has, e)) = rw has e
Gives-normalize_key k key (inr (lacks, e)) = rw lacks e

-- A track id comes from one of the given items, and no item is lost.
abbrev pub Tracks : Dict String → String → Option String → Type 0
Tracks items key (some v) =
    (starts_with "track." key ≡ true) × Any (λ i. Gives i.0 key × (i.1 ≡ v)) items
Tracks items key none = All (λ i. ¬ Gives i.0 key) items

clash : {b : Bool} → b ≡ false → b ≡ true → ⊥
clash n y = cc

normalize-some :
    (items normalized : Dict String) (key v : String)
    → lookup key (normalize normalized items) ≡ some v
    → Tracks items key (some v) ⊎ (lookup key normalized ≡ some v)
unfolding normalize
normalize-some [] normalized key v e = inr e
normalize-some ((k, x) ∷ items) normalized key v e =
    elim (normalize-some items (insert (normalize_key k) x normalized) key v e) [
      | inl (prefixed, found) ↦ inl (prefixed, inr found)
      | inr here ↦ elim (insert-lookup (normalize_key k) key x v normalized here) [
        | inl (same, value) ↦
            inl (
              rw (← same) (normalize_key-starts k),
              inl (rw (← same) (normalize_key-Gives k), value),
            )
        | inr before ↦ inr before
      ]
    ]

normalize-none :
    (items normalized : Dict String) (key : String)
    → lookup key (normalize normalized items) ≡ none
    → Tracks items key none × (lookup key normalized ≡ none)
unfolding normalize
normalize-none [] normalized key e = (tt, e)
normalize-none ((k, x) ∷ items) normalized key e =
    let (others, here) = normalize-none items (insert (normalize_key k) x normalized) key e in
    let (other, before) = insert-none (normalize_key k) key x normalized here in
    (
      (λ g. clash other ((eq_iff (normalize_key k) key).1 (Gives-normalize_key k key g)), others),
      before,
    )

-- What `parse_track_ids` gives for parsed items, at one key.
abbrev pub Tracked :
    String → Result ArgumentError (Dict String) → Result ArgumentError (Dict String) → Type 0
Tracked key (ok items) (ok ids) = Tracks items key (lookup key ids)
Tracked key (ok items) (err e) = ⊥
Tracked key (err e) (ok ids) = ⊥
Tracked key (err e) (err e') = e ≡ e'

ids-Tracked :
    (key : String) (r : Result ArgumentError (Dict String))
    → Tracked key r (r >>= λ items. ok (normalize [] items))
unfolding lookup
ids-Tracked key (err e) = refl
ids-Tracked key (ok items) = from_items (lookup key (normalize [] items)) refl
  where
    from_items : (o : Option String) → lookup key (normalize [] items) ≡ o → Tracks items key o
    from_items (some v) e = elim (normalize-some items [] key v e) [
      | inl found ↦ found
      | inr before ↦ cc
    ]
    from_items none e = (normalize-none items [] key e).0

-- `parse_track_ids` fails exactly as the JSON object's parsing does. Otherwise every key of the track
-- ids starts with "track.", and its value is that of an item whose key is the same, or the same
-- without the prefix if it does not start with that; and a key that is not there comes from no item.
pub parse_track_ids-Tracked :
    (loads : String → Option Loaded) (payload : Option String) (key : String)
    → Tracked key (parse_json_kv_payload loads payload "track") (parse_track_ids loads payload)
unfolding parse_track_ids
parse_track_ids-Tracked loads payload key =
    ids-Tracked key (parse_json_kv_payload loads payload "track")
