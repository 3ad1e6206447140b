-- ===== src/Collector/Order.antt =====
-- engine/src/hopeit/server/collector.py: that the order in which the event loop runs the tasks makes
-- no difference to what the items of a collector hold in the end.
pub mod Errors
pub mod Final
use hopeit_engine.Common.{
  ℕ, zero, suc, ◌+◌, ◌<◌, Bool, true, false, Option, none, some, String, List, [], ◌∷◌, Result, ok,
  err, ◌≡◌, ◌⊎◌, inl, inr, str_eq, eq_iff, arith, refl, sym, ap, subst, if◌then◌else◌, Bool-cases,
  Option-cases, ◌∙◌,
}
use hopeit_engine.Common.Dict.{
  Dict, lookup, insert, Items, Items-lookup, Items-insert, insert-none, lookup-insert_at,
}
use hopeit_engine.Collector.{
  Fault, key_error, already_released, Step, returns, raises, awaits, Status, created, running,
  returned, failed, CollectorItem, AsyncCollector, Got, got, raised, blocked, get_, resume,
  move_step, run_item, move, start, finish, write, run, fail, lock_all,
}
use hopeit_engine.Collector.Moves.{
  Below, TaskIsSound, ItemIsSound, IsSound, IsAcyclic, move-some, move-IsSound,
}
use hopeit_engine.Collector.Started.{locked_item, lock_all-cons, start-some, start-IsSound}
use hopeit_engine.Collector.Sequential.{
  eval, ask, sequential, look, left, eval_agree, sequential-stable, below_lt, ask_agree,
}

-- What an awaiting step is given.
abbrev Answers : {V : Type 0} → Got V → Result Fault (Option V) → Type 0
Answers (got v) x = x ≡ ok v
Answers (raised f) x = x ≡ err f
Answers blocked x = Unit

module _ {V E : Type 0} where
  -- A task that has ended has done so as the step does on its own: it returned that value, or it
  -- raised that exception and left its item as it was.
  abbrev pub EndsAs : CollectorItem V E → Option V → Result E (Option V) → Type 0
  EndsAs item v (ok w) = (item.task ≡ returned) × (item.value ≡ w)
  EndsAs item v (err e) = (item.task ≡ failed (inl e)) × (item.value ≡ v)

  -- Where a task stands, as against what its step does on its own.
  abbrev pub TaskTracks :
      (String → Result Fault (Option V))
      → CollectorItem V E
      → CollectorItem V E
      → Status V E
      → Type 0
  TaskTracks f i item created = item.value ≡ i.value
  TaskTracks f i item (running p) = (item.value ≡ i.value) × (eval f p ≡ eval f i.func)
  TaskTracks f i item returned = EndsAs item i.value (eval f i.func)
  TaskTracks f i item (failed e) = EndsAs item i.value (eval f i.func)

  Ends-left :
      (item : CollectorItem V E) (v : Option V) (r : Result E (Option V))
      → EndsAs item v r
      → item.value ≡ left v r
  Ends-left item v (ok w) h = h.1
  Ends-left item v (err e) h = h.1

  unlocked-value :
      (rank : String → ℕ) (f : String → Result Fault (Option V)) (r : ℕ)
      (i item : CollectorItem V E) (t : Status V E)
      → TaskIsSound rank r item t
      → TaskTracks f i item t
      → item.locked ≡ false
      → item.value ≡ left i.value (eval f i.func)
  unlocked-value rank f r i item created s h u = cc
  unlocked-value rank f r i item (running p) s h u = cc
  unlocked-value rank f r i item returned s h u = Ends-left item i.value (eval f i.func) h
  unlocked-value rank f r i item (failed e) s h u = Ends-left item i.value (eval f i.func) h

module _ {V E : Type 0} (rank : String → ℕ) (c : AsyncCollector V E) where
  abbrev pub ItemTracks : String → CollectorItem V E → Type 0
  ItemTracks name item =
      (i : CollectorItem V E) × (lookup name c.items ≡ some i)
      × (item.func ≡ i.func)
      × TaskTracks (look c (rank name)) i item item.task

  abbrev pub Tracks : AsyncCollector V E → Type 0
  Tracks d =
      IsSound rank d
      × (d.payload ≡ c.payload)
      × ((name : String) → lookup name d.items ≡ none → lookup name c.items ≡ none)
      × ((name : String) (item : CollectorItem V E)
          → lookup name d.items ≡ some item
          → ItemTracks name item)

  write-Tracks :
      (name : String) (item : CollectorItem V E) (d : AsyncCollector V E)
      → Tracks d
      → ItemIsSound rank name item
      → ItemTracks name item
      → Tracks (write name item d)
  write-Tracks name item d (s, p, l, t) h k = (
    (s.0, Items-insert (ItemIsSound rank) name item d.items s.1 h),
    p,
    λ other e. l other (insert-none name other item d.items e).1,
    λ other i e. elim (Bool-cases (str_eq name other)) [
      | inl same ↦
          let q : some item ≡ some i = rw (lookup-insert_at name other item d.items, same) at e in
          subst (λ n. ItemTracks n i) ((eq_iff name other).0 same)
            (subst (ItemTracks name) {x = item} {y = i} (cc) k)
      | inr n ↦ t other i (rw (lookup-insert_at name other item d.items, n) at e)
    ],
  )

  some-Tracks : {d e : AsyncCollector V E} → Tracks d → some d ≡ some e → Tracks e
  some-Tracks {d} {e} t q = subst Tracks {x = d} {y = e} (cc) t

  module _ (acyclic : IsAcyclic rank c.items) where
    -- What an await gives is what it gives on its own.
    get_-Answers :
        (r : ℕ) (other : String) (d : AsyncCollector V E)
        → Tracks d
        → (str_eq other "payload" ≡ true) ⊎ (rank other < r)
        → Answers (get_ other d) (look c r other)
    unfolding get_ ask sequential eval
    get_-Answers r other d (s, p, l, t) q = elim (Bool-cases (str_eq other "payload")) [
      | inl y ↦ rw y (ap ok (sym p))
      | inr n ↦ elim (Option-cases (lookup other d.items)) [
        | inl e ↦ rw (n, s.0, e, l other e) refl
        | inr (item, e) ↦ elim (Bool-cases item.locked) [
          | inl y ↦ rw (n, s.0, e, y) tt
          | inr u ↦
              let (i, at, f, k) = t other item e in
              let value : item.value ≡ sequential (suc (rank other)) c i =
                unlocked-value rank (look c (rank other)) (rank other) i item item.task
                  (Items-lookup (ItemIsSound rank) other d.items s.1 e) k u in
              rw (n, s.0, e, u, at)
                (ap ok (
                  sequential-stable rank c acyclic r (suc (rank other)) other i at
                    (below_lt rank r other q n) (omega arith)
                  ∙ sym value))
        ]
      ]
    ]

    resume-Tracks :
        (name : String) (item i : CollectorItem V E) (d : AsyncCollector V E)
        (k : Result Fault (Option V) → Step V E) (g : Got V) (x : Result Fault (Option V))
        → Tracks d
        → item.locked ≡ true
        → ((y : Result Fault (Option V)) → Below rank (rank name) (k y))
        → lookup name c.items ≡ some i
        → item.func ≡ i.func
        → item.value ≡ i.value
        → Answers g x
        → eval (look c (rank name)) (k x) ≡ eval (look c (rank name)) i.func
        → {e : AsyncCollector V E} → resume name item d k g ≡ some e
        → Tracks e
    unfolding resume
    resume-Tracks name item i d k (got v) x t h b at f w a r e =
        some-Tracks
          (write-Tracks name (record item { task = running (k (ok v)) }) d t (h, b (ok v))
            (i, at, f, (w, rw a at r)))
          e
    resume-Tracks name item i d k (raised v) x t h b at f w a r e =
        some-Tracks
          (write-Tracks name (record item { task = running (k (err v)) }) d t (h, b (err v))
            (i, at, f, (w, rw a at r)))
          e
    resume-Tracks name item i d k blocked x t h b at f w a r e = cc

    run_item-Tracks :
        (name : String) (item i : CollectorItem V E) (d : AsyncCollector V E) (t : Status V E)
        → Tracks d
        → lookup name c.items ≡ some i
        → item.func ≡ i.func
        → TaskIsSound rank (rank name) item t
        → TaskTracks (look c (rank name)) i item t
        → {e : AsyncCollector V E} → run_item name item d t ≡ some e
        → Tracks e
    unfolding run_item move_step eval
    run_item-Tracks name item i d created t at f (l, b) v e =
        some-Tracks
          (write-Tracks name (record item { locked = true; task = running item.func }) d t (refl, b)
            (i, at, f, (v, ap (eval (look c (rank name))) f)))
          (rw l at e)
    run_item-Tracks name item i d (running (returns w)) t at f b (v, q) e =
        some-Tracks
          (write-Tracks name (finish item w returned) d t refl (i, at, f, rw (← q) (refl, refl))) e
    run_item-Tracks name item i d (running (raises x)) t at f b (v, q) e =
        some-Tracks {d = fail (inl x) (write name (finish item item.value (failed (inl x))) d)}
          (write-Tracks name (finish item item.value (failed (inl x))) d t refl
            (i, at, f, rw (← q) (refl, v)))
          e
    run_item-Tracks name item i d (running (awaits other k)) t at f (l, b) (v, q) e =
        resume-Tracks name item i d k (get_ other d) (look c (rank name) other) t l b.1 at f v
          (get_-Answers (rank name) other d t b.0) q e
    run_item-Tracks name item i d returned t at f b h e = cc
    run_item-Tracks name item i d (failed x) t at f b h e = cc

    move-Tracks :
        (name : String) (d : AsyncCollector V E) {e : AsyncCollector V E}
        → Tracks d
        → move name d ≡ some e
        → Tracks e
    move-Tracks name d t q =
        let (item, l, r) = move-some name d q in
        let (i, at, f, k) = t.3 name item l in
        run_item-Tracks name item i d item.task t at f
          (Items-lookup (ItemIsSound rank) name d.items t.0.1 l) k r

    pub run-Tracks :
        (names : List String) (d : AsyncCollector V E) → Tracks d → Tracks (run names d)
    unfolding run
    run-Tracks [] d t = t
    run-Tracks (name ∷ names) d t = elim (Option-cases (move name d)) [
      | inl n ↦ rw (n, run) (run-Tracks names d t)
      | inr (e, q) ↦ rw (q, run) (run-Tracks names e (move-Tracks name d t q))
    ]
