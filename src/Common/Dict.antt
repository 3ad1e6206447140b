-- ===== src/Common/Dict.antt =====
-- A Python dict with string keys, in insertion order.
pub mod Updates
use Prim.Native.String.{String}
use mathlib.Core.Path.{◌≡◌, refl, ap, ◌∙◌, sym, subst}
use mathlib.Core.Logic.{◌⊎◌, inl, inr}
use mathlib.Core.Bool.{false}
use mathlib.Core.Option.{Option, none, some}
use mathlib.Core.List.{List, [], ◌∷◌, ◌++◌, append-nil, append_assoc}
use native.Mathlib.Omega.{arith}
use text.Mathlib.TextEquality.{eq_iff}
use text.Mathlib.Text.{◌==◌}
use hopeit_engine.Common.Preds.{All}
use hopeit_engine.Common.Tests.{if◌then◌else◌, Bool-cases}

abbrev pub Dict {ℓ} : Type ℓ → Type ℓ
Dict V = List (String × V)

module _ {ℓ} {V : Type ℓ} where
  unfoldable pub lookup : String → Dict V → Option V
  lookup k [] = none
  lookup k ((j, v) ∷ m) = if j == k then some v else lookup k m

  -- `d[k] = v`
  unfoldable pub insert : String → V → Dict V → Dict V
  insert k v [] = (k, v) ∷ []
  insert k v ((j, w) ∷ m) = if j == k then (j, v) ∷ m else (j, w) ∷ insert k v m

  -- `d.update(e)`, and a dict of the items `e` where `d` is empty.
  unfoldable pub update : Dict V → Dict V → Dict V
  update d [] = d
  update d ((k, v) ∷ e) = update (insert k v d) e

  -- What a changed dict has, it got by the change or had before.
  pub insert-lookup :
      (k j : String) (v w : V) (m : Dict V)
      → lookup j (insert k v m) ≡ some w
      → ((k ≡ j) × (v ≡ w)) ⊎ (lookup j m ≡ some w)
  unfolding lookup insert
  insert-lookup k j v w [] e = ground (arith, eq_iff k j)
  insert-lookup k j v w ((i, x) ∷ m) e =
      ground (arith, eq_iff k j, eq_iff i k, eq_iff i j, insert-lookup k j v w m)

  -- What a changed dict lacks, it lacked before, and it is not what was changed.
  pub insert-none :
      (k j : String) (v : V) (m : Dict V)
      → lookup j (insert k v m) ≡ none
      → ((k == j) ≡ false) × (lookup j m ≡ none)
  unfolding lookup insert
  insert-none k j v [] e = ground (arith, eq_iff k j)
  insert-none k j v ((i, x) ∷ m) e =
      ground (arith, eq_iff k j, eq_iff i k, eq_iff i j, insert-none k j v m)

  abbrev pub keys : Dict V → List String
  keys [] = []
  keys ((k, v) ∷ m) = k ∷ keys m

-- The key is none of these.
abbrev pub Fresh : String → List String → Type 0
Fresh k [] = Unit
Fresh k (j ∷ js) = ((j == k) ≡ false) × Fresh k js

-- None of the second list's keys is in the first list or comes before in its own.
abbrev pub IsDistinct : List String → List String → Type 0
IsDistinct js [] = Unit
IsDistinct js (k ∷ ks) = Fresh k js × IsDistinct (js ++ k ∷ []) ks

module _ {ℓ} {V : Type ℓ} where
  keys-append : (d e : Dict V) → keys (d ++ e) ≡ keys d ++ keys e
  keys-append [] e = refl
  keys-append ((k, v) ∷ d) e = ap (◌∷◌ k) (keys-append d e)

  insert-Fresh :
      (k : String) (v : V) (m : Dict V) → Fresh k (keys m) → insert k v m ≡ m ++ (k, v) ∷ []
  unfolding insert
  insert-Fresh k v [] f = refl
  insert-Fresh k v ((j, w) ∷ m) (new, f) = rw new (ap (◌∷◌ (j, w)) (insert-Fresh k v m f))

  -- Items whose keys are all new are added at the end, in order.
  pub update-distinct : (d e : Dict V) → IsDistinct (keys d) (keys e) → update d e ≡ d ++ e
  unfolding update
  update-distinct d [] h = sym (append-nil d)
  update-distinct d ((k, v) ∷ e) (f, h) = rw (insert-Fresh k v d f) (
      update-distinct (d ++ (k, v) ∷ []) e (rw (keys-append d ((k, v) ∷ [])) h)
      ∙ append_assoc d ((k, v) ∷ []) e)

  -- The keys are looked up in a changed dict as if it were a function.
  pub lookup-insert_at :
      (k j : String) (v : V) (m : Dict V)
      → lookup j (insert k v m) ≡ (if k == j then some v else lookup j m)
  unfolding lookup insert
  lookup-insert_at k j v [] = refl
  lookup-insert_at k j v ((i, x) ∷ m) =
      ground (arith, lookup-insert_at k j v m, eq_iff i k, eq_iff i j, eq_iff k j)

module _ {ℓ κ} {V : Type ℓ} where
  -- What holds of each item of a dict.
  abbrev pub Items : (String → V → Type κ) → Dict V → Type κ
  Items P = All (λ kv. P kv.0 kv.1)

  pub Items-lookup :
      (P : String → V → Type κ) (k : String) {v : V} (m : Dict V)
      → Items P m
      → lookup k m ≡ some v
      → P k v
  unfolding lookup
  Items-lookup P k {v} [] h e = cc
  Items-lookup P k {v} ((j, w) ∷ m) (p, h) e = elim (Bool-cases (j == k)) [
    | inl same ↦
        let at : some w ≡ some v = rw same at e in
        subst (λ i. P i v) ((eq_iff j k).0 same) (subst (P j) (cc) p)
    | inr other ↦ Items-lookup P k m h (rw other at e)
  ]

  pub Items-insert :
      (P : String → V → Type κ) (k : String) (v : V) (m : Dict V)
      → Items P m
      → P k v
      → Items P (insert k v m)
  unfolding insert
  Items-insert P k v [] h new = (new, tt)
  Items-insert P k v ((j, w) ∷ m) (p, h) new = elim (Bool-cases (j == k)) [
    | inl same ↦ rw same (subst (λ i. P i v) (sym ((eq_iff j k).0 same)) new, h)
    | inr other ↦ rw other (p, Items-insert P k v m h new)
  ]
