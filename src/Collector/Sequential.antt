-- ===== src/Collector/Sequential.antt =====
-- engine/src/hopeit/server/collector.py: what the steps of a collector compute when each await runs
-- the awaited step on the spot, and that a concurrent run computes the same in every order.
use hopeit_engine.Common.{
  ℕ, zero, suc, ◌<◌, true, false, Option, none, some, String, Result, ok, err, ◌≡◌, ◌⊎◌, inl, inr,
  str_eq, arith, refl, ap, if◌then◌else◌, Bool-cases, Option-cases,
}
use hopeit_engine.Common.Dict.{lookup, Items-lookup}
use hopeit_engine.Collector.{
  Fault, key_error, Step, returns, raises, awaits, CollectorItem, AsyncCollector,
}
use hopeit_engine.Collector.Moves.{Below, IsAcyclic}

pub below_lt :
    (rank : String → ℕ) (r : ℕ) (name : String)
    → (str_eq name "payload" ≡ true) ⊎ (rank name < r)
    → str_eq name "payload" ≡ false
    → rank name < r
below_lt rank r name (inl e) p = cc
below_lt rank r name (inr h) p = h

module _ {V E : Type 0} where
  -- A step, given what each await results in.
  unfoldable pub eval : (String → Result Fault (Option V)) → Step V E → Result E (Option V)
  eval look (returns v) = ok v
  eval look (raises e) = err e
  eval look (awaits name k) = eval look (k (look name))

  -- The result that a step leaves in its item, `v` being there before.
  abbrev pub left : Option V → Result E (Option V) → Option V
  left v (ok w) = w
  left v (err e) = v

  -- The await of `collector[name]`, given the result of each item.
  unfoldable pub ask :
      AsyncCollector V E → (CollectorItem V E → Option V) → String → Result Fault (Option V)
  unfolding lookup
  ask c f name =
      if str_eq name "payload"
      then ok c.payload
      else elim (lookup name c.items) [ none ↦ err (key_error name) | some item ↦ ok (f item) ]

  -- The result of an item, its awaits being nested at most `n` deep.
  unfoldable pub sequential : ℕ → AsyncCollector V E → CollectorItem V E → Option V
  unfolding eval ask
  sequential zero c item = item.value
  sequential (suc n) c item = left item.value (eval (ask c (sequential n c)) item.func)

  abbrev pub look : AsyncCollector V E → ℕ → String → Result Fault (Option V)
  look c n = ask c (sequential n c)

  pub ask_agree :
      (c : AsyncCollector V E) (f g : CollectorItem V E → Option V) (name : String)
      → ((str_eq name "payload" ≡ false)
          → (item : CollectorItem V E) → lookup name c.items ≡ some item
          → f item ≡ g item)
      → ask c f name ≡ ask c g name
  unfolding ask
  ask_agree c f g name h = elim (Bool-cases (str_eq name "payload")) [
    | inl p ↦ rw p refl
    | inr p ↦ elim (Option-cases (lookup name c.items)) [
      | inl l ↦ rw (p, l) refl
      | inr (item, l) ↦ rw (p, l) (ap ok (h p item l))
    ]
  ]

module _ {V E : Type 0} (rank : String → ℕ) where
  pub eval_agree :
      (f g : String → Result Fault (Option V)) (r : ℕ) (p : Step V E)
      → Below rank r p
      → ((name : String) → (str_eq name "payload" ≡ true) ⊎ (rank name < r) → f name ≡ g name)
      → eval f p ≡ eval g p
  unfolding eval
  eval_agree f g r (returns v) b h = refl
  eval_agree f g r (raises e) b h = refl
  eval_agree f g r (awaits name k) b h =
      rw (h name b.0) (eval_agree f g r (k (g name)) (b.1 (g name)) h)

  module _ (c : AsyncCollector V E) (acyclic : IsAcyclic rank c.items) where
    -- More nesting than the rank of an item changes nothing.
    pub sequential-stable :
        (m n : ℕ) (name : String) (item : CollectorItem V E)
        → lookup name c.items ≡ some item
        → rank name < m
        → rank name < n
        → sequential m c item ≡ sequential n c item
    unfolding sequential
    sequential-stable zero n name item l h k = elim h [ ]
    sequential-stable (suc m) zero name item l h k = elim k [ ]
    sequential-stable (suc m) (suc n) name item l h k = ap (left item.value) (
        eval_agree (look c m) (look c n) (rank name) item.func
          (Items-lookup (λ j i. Below rank (rank j) i.func) name c.items acyclic l)
          (λ other q. ask_agree c (sequential m c) (sequential n c) other (λ p i at.
            let lt : rank other < rank name = below_lt rank (rank name) other q p in
            sequential-stable m n other i at (omega arith) (omega arith))))
