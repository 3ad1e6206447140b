-- ===== src/Collector/Progress/Always.antt =====
-- engine/src/hopeit/server/collector.py and `_run_collector` of engine/src/hopeit/server/steps.py:
-- that a collector step starts and ends.
use hopeit_engine.Common.{
  ℕ, Bool, true, false, Option, none, some, String, List, [], ◌∷◌, ◌≡◌, refl, All,
}
use hopeit_engine.Common.Dict.{Dict, insert, Items, Items-insert}
use hopeit_engine.Collector.{
  Step, CollectorItem, AsyncCollector, new, new_item, created, input, add_steps, steps, lock_all,
  start, run_collector,
}
use hopeit_engine.Collector.Moves.{Below, IsAcyclic}
use hopeit_engine.Collector.Ends.{Finishes}
use hopeit_engine.Collector.Progress.{start-Finishes}

module _ {V E : Type 0} where
  -- Free locks can be taken.
  lock_all-free :
      (items : Dict (CollectorItem V E))
      → Items (λ name item. item.locked ≡ false) items
      → (l : Dict (CollectorItem V E)) × (lock_all items ≡ some l)
  unfolding lock_all
  lock_all-free [] h = ([], refl)
  lock_all-free ((name, item) ∷ items) (f, h) =
      let (l, q) = lock_all-free items h in
      ((name, record item { locked = true; task = created }) ∷ l, rw (f, q) refl)

module _ {V E : Type 0} where
  All-refl : (funcs : List (String × Step V E)) → All (λ nf. ◌≡◌ {A = Bool} false false) funcs
  All-refl [] = tt
  All-refl (f ∷ funcs) = (refl, All-refl funcs)

module _ {V E : Type 0} (P : String → CollectorItem V E → Type 0) where
  add_steps-Items :
      (funcs : List (String × Step V E)) (items : Dict (CollectorItem V E))
      → Items P items
      → All (λ nf. P nf.0 (new_item nf.1)) funcs
      → Items P (add_steps funcs items)
  unfolding add_steps
  add_steps-Items [] items i h = i
  add_steps-Items ((name, f) ∷ funcs) items i (p, h) =
      add_steps-Items funcs (insert name (new_item f) items)
        (Items-insert P name (new_item f) items i p) h

module _ {V E : Type 0} (rank : String → ℕ) where
  -- Where no step waits for itself, not even through other steps, a collector step starts and ends,
  -- in whatever order the event loop runs its tasks.
  pub run_collector-Finishes :
      (funcs : List (String × Step V E)) (payload : Option V)
      → All (λ nf. Below rank (rank nf.0) nf.1) funcs
      → (d : AsyncCollector V E) × (run_collector funcs payload ≡ some d) × Finishes d
  unfolding run_collector
  run_collector-Finishes funcs payload h =
      let c : AsyncCollector V E = steps funcs (input payload new) in
      let (l, q) =
        lock_all-free c.items
          (add_steps-Items (λ name item. item.locked ≡ false) funcs [] tt (All-refl funcs)) in
      let acyclic : IsAcyclic rank c.items =
        add_steps-Items (λ name item. Below rank (rank name) item.func) funcs [] tt h in
      let d : AsyncCollector V E = record {
        items = l;
        executed = true;
        payload = c.payload;
        error = none;
      } in
      let started : start c ≡ some d = rw (start, q) refl in
      (d, started, start-Finishes rank c acyclic started)
