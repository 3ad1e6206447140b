-- ===== src/Common/Dict/Updates.antt =====
-- What a Python dict has after it was updated with the items of another one.
use Prim.Native.String.{String}
use mathlib.Core.Path.{◌≡◌, refl, ap, ◌∙◌, subst}
use mathlib.Core.Logic.{inl, inr}
use mathlib.Core.Bool.{false}
use mathlib.Core.Option.{Option, none, some}
use mathlib.Core.List.{List, [], ◌∷◌}
use native.Mathlib.Omega.{arith}
use text.Mathlib.TextEquality.{eq_iff}
use text.Mathlib.Text.{◌==◌ as str_eq}
use hopeit_engine.Common.Preds.{All}
use hopeit_engine.Common.Tests.{Bool-cases}
use hopeit_engine.Common.Dict.{
  Dict, lookup, insert, update, keys, Fresh, lookup-insert_at, Items, Items-insert,
}

-- No key comes twice.
abbrev pub IsDict : List String → Type 0
IsDict [] = Unit
IsDict (k ∷ ks) = Fresh k ks × IsDict ks

module _ {ℓ} {V : Type ℓ} where
  -- Items with other keys do not change what a key has.
  pub lookup-update_other :
      (k : String) (d e : Dict V) → Fresh k (keys e) → lookup k (update d e) ≡ lookup k d
  unfolding update
  lookup-update_other k d [] h = refl
  lookup-update_other k d ((j, v) ∷ e) (n, h) =
      lookup-update_other k (insert j v d) e h ∙ lookup-insert_at j k v d ∙ rw n refl

  abbrev pub or_else : Option V → Option V → Option V
  or_else none o = o
  or_else (some v) o = some v

  pub or_else-none : (o : Option V) → or_else o none ≡ o
  or_else-none none = refl
  or_else-none (some v) = refl

  Fresh-none : (k : String) (e : Dict V) → Fresh k (keys e) → lookup k e ≡ none
  unfolding lookup
  Fresh-none k [] h = refl
  Fresh-none k ((j, v) ∷ e) (n, h) = rw n (Fresh-none k e h)

  pub lookup-update :
      (k : String) (d e : Dict V)
      → IsDict (keys e)
      → lookup k (update d e) ≡ or_else (lookup k e) (lookup k d)
  unfolding update lookup
  lookup-update k d [] h = refl
  lookup-update k d ((j, v) ∷ e) (f, h) = elim (Bool-cases (str_eq j k)) [
    | inl same ↦
        let g : Fresh k (keys e) = subst (λ i. Fresh i (keys e)) ((eq_iff j k).0 same) f in
        rw same (lookup-update_other k (insert j v d) e g ∙ lookup-insert_at j k v d ∙ rw same refl)
    | inr other ↦ rw other (
        lookup-update k (insert j v d) e h
        ∙ ap (or_else (lookup k e)) (lookup-insert_at j k v d ∙ rw other refl))
  ]

  -- What a dict has is kept or replaced.
  pub update-some :
      (k : String) (d e : Dict V) {v : V}
      → lookup k d ≡ some v
      → (w : V) × (lookup k (update d e) ≡ some w)
  unfolding update
  update-some k d [] {v} h = (v, h)
  update-some k d ((j, w) ∷ e) {v} h = elim (Bool-cases (str_eq j k)) [
    | inl same ↦ update-some k (insert j w d) e {v = w} (lookup-insert_at j k w d ∙ rw same refl)
    | inr other ↦ update-some k (insert j w d) e {v = v} (lookup-insert_at j k w d ∙ rw other h)
  ]

  pub update-Items :
      (P : String → V → Type 0) (d e : Dict V) → Items P d → Items P e → Items P (update d e)
  unfolding update
  update-Items P d [] h k = h
  update-Items P d ((j, v) ∷ e) h (p, k) =
      update-Items P (insert j v d) e (Items-insert P j v d h p) k

  -- A dict of values that the keys determine.
  abbrev pub tagged : (String → V) → List String → Dict V
  tagged g [] = []
  tagged g (k ∷ ks) = (k, g k) ∷ tagged g ks

  lookup-tagged_kept :
      (g : String → V) (k : String) (ks : List String) (d : Dict V)
      → lookup k d ≡ some (g k)
      → lookup k (update d (tagged g ks)) ≡ some (g k)
  unfolding update
  lookup-tagged_kept g k [] d h = h
  lookup-tagged_kept g k (j ∷ ks) d h =
      lookup-tagged_kept g k ks (insert j (g j) d)
        (lookup-insert_at j k (g j) d ∙ ground (arith, eq_iff j k))

  pub lookup-tagged :
      (g : String → V) (ks : List String) (d : Dict V)
      → All (λ k. lookup k (update d (tagged g ks)) ≡ some (g k)) ks
  unfolding update
  lookup-tagged g [] d = tt
  lookup-tagged g (k ∷ ks) d = (
    lookup-tagged_kept g k ks (insert k (g k) d)
        (lookup-insert_at k k (g k) d ∙ ground (arith, eq_iff k k)),
    lookup-tagged g ks (insert k (g k) d),
  )

  -- Another key does not change what these have.
  pub insert_other :
      (g : String → V) (j : String) (v : V) (d : Dict V) (ks : List String)
      → All (λ k. lookup k d ≡ some (g k)) ks
      → All (λ k. str_eq j k ≡ false) ks
      → All (λ k. lookup k (insert j v d) ≡ some (g k)) ks
  insert_other g j v d [] h n = tt
  insert_other g j v d (k ∷ ks) (h, hs) (n, ns) =
      (lookup-insert_at j k v d ∙ rw n h, insert_other g j v d ks hs ns)
