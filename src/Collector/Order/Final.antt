-- ===== src/Collector/Order/Final.antt =====
-- engine/src/hopeit/server/collector.py: what the items of a collector hold when their tasks have
-- ended, from the call of `run` on.
use hopeit_engine.Common.{
  ℕ, Option, none, some, String, List, [], ◌∷◌, Result, ◌≡◌, ◌⊎◌, inl, inr, str_eq, refl, sym,
  subst, Bool-cases,
}
use hopeit_engine.Common.Dict.{Dict, lookup}
use hopeit_engine.Collector.{
  Fault, Status, created, running, returned, failed, CollectorItem, AsyncCollector, start, run,
  lock_all,
}
use hopeit_engine.Collector.Moves.{IsSound, IsAcyclic}
use hopeit_engine.Collector.Ends.{HasEnded}
use hopeit_engine.Collector.Started.{locked_item, lock_all-cons, start-some, start-IsSound}
use hopeit_engine.Collector.Sequential.{eval, look}
use hopeit_engine.Collector.Order.{EndsAs, TaskTracks, ItemTracks, Tracks, run-Tracks}

module _ {V E : Type 0} where
  -- Locking the items keeps their names, and changes each of them by itself.
  pub lock_all-lookup :
      (name : String) (items : Dict (CollectorItem V E)) {l : Dict (CollectorItem V E)}
      → lock_all items ≡ some l
      → ((lookup name items ≡ none) × (lookup name l ≡ none))
        ⊎ ((i : CollectorItem V E) × (lookup name items ≡ some i)
            × (lookup name l ≡ some (locked_item i)))
  unfolding lookup lock_all
  lock_all-lookup name [] {l} e =
      inl (refl, subst (λ m. lookup name m ≡ none) {x = []} {y = l} (cc) refl)
  lock_all-lookup name ((j, i) ∷ items) e =
      let (m, q, f, u) = lock_all-cons j i items e in
      rw f (elim (Bool-cases (str_eq j name)) [
        | inl same ↦ inr (i, rw same refl, rw same refl)
        | inr other ↦ rw other (lock_all-lookup name items q)
      ])

  ended-EndsAs :
      (f : String → Result Fault (Option V)) (item i : CollectorItem V E) (t : Status V E)
      → TaskTracks f i item t
      → HasEnded t
      → EndsAs item i.value (eval f i.func)
  ended-EndsAs f item i created k h = absurd h
  ended-EndsAs f item i (running p) k h = absurd h
  ended-EndsAs f item i returned k h = k
  ended-EndsAs f item i (failed e) k h = k

module _ {V E : Type 0} (rank : String → ℕ) (c : AsyncCollector V E) where
  start-Tracks :
      {d : AsyncCollector V E} → IsAcyclic rank c.items → start c ≡ some d → Tracks rank c d
  start-Tracks {d} a e =
      let (l, q, f) = start-some c e in
      subst (Tracks rank c) (sym f) (
        subst (IsSound rank) f (start-IsSound rank c a e),
        refl,
        λ name n. elim (lock_all-lookup name c.items q) [ inl h ↦ h.0 | inr h ↦ cc ],
        λ name item at. elim (lock_all-lookup name c.items q) [
          | inl h ↦ cc
          | inr (i, g, h) ↦
              subst (ItemTracks rank c name) {x = locked_item i} {y = item} (cc) (i, g, refl, refl)
        ],
      )

  -- However the tasks are run, a task that has ended has done what its step does on its own, with
  -- each awaited step run on the spot.
  pub run-EndsAs :
      (names : List String) (d : AsyncCollector V E) (name : String) (item : CollectorItem V E)
      → IsAcyclic rank c.items
      → start c ≡ some d
      → lookup name (run names d).items ≡ some item
      → HasEnded item.task
      → (i : CollectorItem V E) × (lookup name c.items ≡ some i)
        × EndsAs item i.value (eval (look c (rank name)) i.func)
  run-EndsAs names d name item a e l h =
      let (i, at, f, k) = (run-Tracks rank c a names d (start-Tracks a e)).3 name item l in
      (i, at, ended-EndsAs (look c (rank name)) item i item.task k h)
