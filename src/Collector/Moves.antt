-- ===== src/Collector/Moves.antt =====
-- engine/src/hopeit/server/collector.py: what every move of a running collector keeps, where each
-- step only waits for items of a lower rank: an item is locked as long as its task has not ended.
use hopeit_engine.Common.{
  ℕ, ◌<◌, true, false, Option, some, String, Result, ok, err, ◌≡◌, ◌⊎◌, inl, inr, str_eq, refl,
  subst, Option-cases,
}
use hopeit_engine.Common.Dict.{Dict, lookup, Items, Items-lookup, Items-insert}
use hopeit_engine.Collector.{
  Fault, Step, returns, raises, awaits, Status, created, running, returned, failed, CollectorItem,
  AsyncCollector, Got, got, raised, blocked, get_, resume, move_step, run_item, move, finish, write,
  fail,
}

module _ {V E : Type 0} where
  -- What a move did: it ran the task of an item.
  pub move-some :
      (name : String) (c : AsyncCollector V E) {d : AsyncCollector V E}
      → move name c ≡ some d
      → (item : CollectorItem V E) × (lookup name c.items ≡ some item)
        × (run_item name item c item.task ≡ some d)
  unfolding move
  move-some name c {d} e = elim (Option-cases (lookup name c.items)) [
    | inl l ↦ cc (rw (l, move) at e)
    | inr (item, l) ↦ (item, l, rw (l, move) at e)
  ]

module _ {V E : Type 0} (rank : String → ℕ) where
  -- Every await of the step, on every path, is of the payload or of an item of a lower rank.
  abbrev pub Below : ℕ → Step V E → Type 0
  Below r (returns v) = Unit
  Below r (raises e) = Unit
  Below r (awaits name k) =
      ((str_eq name "payload" ≡ true) ⊎ (rank name < r))
      × ((x : Result Fault (Option V)) → Below r (k x))

  -- No step waits for itself, not even through other steps.
  abbrev pub IsAcyclic : Dict (CollectorItem V E) → Type 0
  IsAcyclic = Items (λ name item. Below (rank name) item.func)

  abbrev pub TaskIsSound : ℕ → CollectorItem V E → Status V E → Type 0
  TaskIsSound r item created = (item.locked ≡ true) × Below r item.func
  TaskIsSound r item (running p) = (item.locked ≡ true) × Below r p
  TaskIsSound r item returned = item.locked ≡ false
  TaskIsSound r item (failed e) = item.locked ≡ false

  abbrev pub ItemIsSound : String → CollectorItem V E → Type 0
  ItemIsSound name item = TaskIsSound (rank name) item item.task

  abbrev pub IsSound : AsyncCollector V E → Type 0
  IsSound c = (c.executed ≡ true) × Items ItemIsSound c.items

  write-IsSound :
      (name : String) (item : CollectorItem V E) (c : AsyncCollector V E)
      → IsSound c
      → ItemIsSound name item
      → IsSound (write name item c)
  write-IsSound name item c (x, s) h = (x, Items-insert ItemIsSound name item c.items s h)

  some-IsSound : {c d : AsyncCollector V E} → IsSound c → some c ≡ some d → IsSound d
  some-IsSound {c} {d} s e = subst IsSound {x = c} {y = d} (cc) s

  resume-IsSound :
      (name : String) (item : CollectorItem V E) (c : AsyncCollector V E)
      (k : Result Fault (Option V) → Step V E) (g : Got V)
      → IsSound c
      → item.locked ≡ true
      → ((x : Result Fault (Option V)) → Below (rank name) (k x))
      → {d : AsyncCollector V E} → resume name item c k g ≡ some d
      → IsSound d
  unfolding resume
  resume-IsSound name item c k (got v) s l b e =
      some-IsSound
        (write-IsSound name (record item { task = running (k (ok v)) }) c s (l, b (ok v))) e
  resume-IsSound name item c k (raised f) s l b e =
      some-IsSound
        (write-IsSound name (record item { task = running (k (err f)) }) c s (l, b (err f))) e
  resume-IsSound name item c k blocked s l b e = cc

  run_item-IsSound :
      (name : String) (item : CollectorItem V E) (c : AsyncCollector V E) (t : Status V E)
      → IsSound c
      → TaskIsSound (rank name) item t
      → {d : AsyncCollector V E} → run_item name item c t ≡ some d
      → IsSound d
  unfolding run_item move_step get_
  run_item-IsSound name item c created s (l, b) e =
      some-IsSound
        (write-IsSound name (record item { locked = true; task = running item.func }) c s (refl, b))
        (rw l at e)
  run_item-IsSound name item c (running (returns v)) s h e =
      some-IsSound (write-IsSound name (finish item v returned) c s refl) e
  run_item-IsSound name item c (running (raises f)) s h e =
      let (x, i) = write-IsSound name (finish item item.value (failed (inl f))) c s refl in
      some-IsSound {c = fail (inl f) (write name (finish item item.value (failed (inl f))) c)}
        (x, i) e
  run_item-IsSound name item c (running (awaits other k)) s (l, b) e =
      resume-IsSound name item c k (get_ other c) s l b.1 e
  run_item-IsSound name item c returned s h e = cc
  run_item-IsSound name item c (failed f) s h e = cc

  pub move-IsSound :
      (name : String) (c : AsyncCollector V E) {d : AsyncCollector V E}
      → IsSound c
      → move name c ≡ some d
      → IsSound d
  move-IsSound name c {d} s e =
      let (item, l, r) = move-some name c e in
      run_item-IsSound name item c item.task s (Items-lookup ItemIsSound name c.items s.1 l) r
