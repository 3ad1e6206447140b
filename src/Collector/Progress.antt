-- ===== src/Collector/Progress.antt =====
-- engine/src/hopeit/server/collector.py: some task of a running collector can move until all have
-- ended, so that a run of steps that do not wait for one another in a circle always ends.
use mathlib.Core.WellFounded.{Acc}
pub mod Always
use hopeit_engine.Common.{
  ℕ, zero, suc, ◌+◌, ◌<◌, Bool, true, false, Option, none, some, String, List, [], ◌∷◌, Result, ok,
  err, ◌≡◌, ◌⊎◌, inl, inr, str_eq, eq_iff, arith, refl, sym, ap, subst, if◌then◌else◌, Bool-cases,
  Option-cases, All,
}
use hopeit_engine.Common.Dict.{Dict, lookup, insert, Items, Items-lookup, Items-insert, keys}
use hopeit_engine.Collector.{
  Fault, Step, returns, raises, awaits, Status, created, running, returned, failed, CollectorItem,
  AsyncCollector, Got, got, raised, blocked, get_, resume, move_step, run_item, move, lock_all,
  start, finish, write, run, key_error, not_executed, locked_get, fail,
}
use hopeit_engine.Collector.Moves.{
  Below, TaskIsSound, ItemIsSound, IsSound, IsAcyclic, move-some, move-IsSound,
}
use hopeit_engine.Collector.Started.{start-IsSound}
use hopeit_engine.Collector.Ends.{
  HasEnded, AllEnded, Finishes, ended, moves, Fewer, Acc-items, move-Fewer,
}

module _ {V E : Type 0} where
  HasEnded-cases : (t : Status V E) → HasEnded t ⊎ (HasEnded t → ⊥)
  HasEnded-cases created = inr (λ h. h)
  HasEnded-cases (running p) = inr (λ h. h)
  HasEnded-cases returned = inl tt
  HasEnded-cases (failed e) = inl tt

  -- An item of the dict whose task has not ended.
  abbrev Unfinished : Dict (CollectorItem V E) → Type 0
  Unfinished items =
      (name : String) × (item : CollectorItem V E) × (lookup name items ≡ some item)
      × (HasEnded item.task → ⊥)

  abbrev EndedAt : Dict (CollectorItem V E) → String → Type 0
  EndedAt items name =
      (item : CollectorItem V E) → lookup name items ≡ some item → HasEnded item.task

  EndedAt-cases :
      (items : Dict (CollectorItem V E)) (name : String) → EndedAt items name ⊎ Unfinished items
  EndedAt-cases items name = elim (Option-cases (lookup name items)) [
    | inl l ↦ inl (λ item e. cc)
    | inr (i, l) ↦ elim (HasEnded-cases i.task) [
      | inl h ↦
          inl
            (λ item e. subst (λ (x : CollectorItem V E). HasEnded x.task) {x = i} {y = item} (cc) h)
      | inr h ↦ inr (name, i, l, h)
    ]
  ]

  All-cases :
      (items : Dict (CollectorItem V E)) (names : List String)
      → All (EndedAt items) names ⊎ Unfinished items
  All-cases items [] = inl tt
  All-cases items (name ∷ names) = both (EndedAt-cases items name) (All-cases items names)
    where
      both :
          EndedAt items name ⊎ Unfinished items
          → All (EndedAt items) names ⊎ Unfinished items
          → All (EndedAt items) (name ∷ names) ⊎ Unfinished items
      both (inl h) (inl hs) = inl (h, hs)
      both (inr u) hs = inr u
      both (inl h) (inr u) = inr u

  All-lookup :
      (P : String → Type 0) (name : String) {item : CollectorItem V E}
      (m : Dict (CollectorItem V E))
      → All P (keys m)
      → lookup name m ≡ some item
      → P name
  unfolding lookup
  All-lookup P name [] h e = cc
  All-lookup P name ((j, i) ∷ m) (p, h) e = elim (Bool-cases (str_eq j name)) [
    | inl same ↦ subst P ((eq_iff j name).0 same) p
    | inr other ↦ All-lookup P name m h (rw other at e)
  ]

  AllEnded-cases : (c : AsyncCollector V E) → AllEnded c ⊎ Unfinished c.items
  AllEnded-cases c = elim (All-cases c.items (keys c.items)) [
    | inl h ↦ inl (λ name item e. All-lookup (EndedAt c.items) name c.items h e item e)
    | inr u ↦ inr u
  ]

  -- Some task can move.
  abbrev CanMove : AsyncCollector V E → Type 0
  CanMove c = (name : String) × (d : AsyncCollector V E) × (move name c ≡ some d)

  move-at :
      (name : String) (item : CollectorItem V E) (c : AsyncCollector V E) (t : Status V E)
      → lookup name c.items ≡ some item
      → item.task ≡ t
      → {d : AsyncCollector V E} → run_item name item c t ≡ some d
      → CanMove c
  unfolding move
  move-at name item c t l e {d} r =
      (name, d, rw (move, l) (subst (λ s. run_item name item c s ≡ some d) (sym e) r))

  move-got :
      (name : String) (item : CollectorItem V E) (c : AsyncCollector V E) (other : String)
      (k : Result Fault (Option V) → Step V E) (g : Got V)
      → lookup name c.items ≡ some item
      → item.task ≡ running (awaits other k)
      → get_ other c ≡ g
      → CanMove c ⊎ (g ≡ blocked)
  unfolding run_item move_step resume
  move-got name item c other k (got v) l e h = inl (
      move-at name item c _ l e {d = write name (record item { task = running (k (ok v)) }) c}
        (rw h))
  move-got name item c other k (raised f) l e h = inl (
      move-at name item c _ l e {d = write name (record item { task = running (k (err f)) }) c}
        (rw h))
  move-got name item c other k blocked l e h = inr refl

  ended_or_locked :
      (name : String) (item : CollectorItem V E) (c : AsyncCollector V E) (t : Status V E)
      → lookup name c.items ≡ some item
      → item.task ≡ t
      → item.locked ≡ true
      → CanMove c
        ⊎ HasEnded t
        ⊎ ((other : String) × (k : Result Fault (Option V) → Step V E) × (t
              ≡ running (awaits other k))
            × (get_ other c ≡ blocked))
  unfolding run_item move_step
  ended_or_locked name item c created l e h = inl (
      move-at name item c _ l e {d = write name (record item { task = running item.func }) c}
        (rw h))
  ended_or_locked name item c (running (returns v)) l e h =
      inl (move-at name item c _ l e {d = write name (finish item v returned) c} refl)
  ended_or_locked name item c (running (raises f)) l e h = inl (
      move-at name item c _ l e
        {d = fail (inl f) (write name (finish item item.value (failed (inl f))) c)} refl)
  ended_or_locked name item c (running (awaits other k)) l e h =
      elim (move-got name item c other k (get_ other c) l e refl) [
        | inl m ↦ inl m
        | inr w ↦ inr (inr (other, k, refl, w))
      ]
  ended_or_locked name item c returned l e h = inr (inl tt)
  ended_or_locked name item c (failed f) l e h = inr (inl tt)

  -- What a blocked await waits for.
  get_-blocked :
      (name : String) (c : AsyncCollector V E)
      → get_ name c ≡ blocked
      → (str_eq name "payload" ≡ false)
        × (item : CollectorItem V E) × (lookup name c.items ≡ some item)
        × (item.locked ≡ true)
  unfolding get_
  get_-blocked name c e = elim (Option-cases (lookup name c.items)) [
    | inl l ↦ ground arith
    | inr (item, l) ↦ (ground arith, item, l, ground arith)
  ]

  locked-Unfinished :
      (r : ℕ) (rank : String → ℕ) (item : CollectorItem V E) (t : Status V E)
      → TaskIsSound rank r item t
      → item.locked ≡ true
      → HasEnded t
      → ⊥
  locked-Unfinished r rank item created s l h = h
  locked-Unfinished r rank item (running p) s l h = absurd h
  locked-Unfinished r rank item returned s l h = cc
  locked-Unfinished r rank item (failed e) s l h = cc

  Unfinished-locked :
      (r : ℕ) (rank : String → ℕ) (item : CollectorItem V E) (t : Status V E)
      → TaskIsSound rank r item t
      → (HasEnded t → ⊥)
      → item.locked ≡ true
  Unfinished-locked r rank item created s u = s.0
  Unfinished-locked r rank item (running p) s u = s.0
  Unfinished-locked r rank item returned s u = absurd (u tt)
  Unfinished-locked r rank item (failed e) s u = absurd (u tt)

module _ {V E : Type 0} (rank : String → ℕ) where
  -- A task that has not ended can move, or waits for one of a lower rank, and so on.
  IsSound-CanMove :
      (n : ℕ) (c : AsyncCollector V E)
      → IsSound rank c
      → (name : String) (item : CollectorItem V E) → lookup name c.items ≡ some item
      → (HasEnded item.task → ⊥)
      → rank name < n
      → CanMove c
  IsSound-CanMove zero c s name item l u h = elim h [ ]
  IsSound-CanMove (suc n) c s name item l u h =
      let sound = Items-lookup (ItemIsSound rank) name c.items s.1 l in
      elim (ended_or_locked name item c item.task l refl
        (Unfinished-locked (rank name) rank item item.task sound u)) [
          | inl m ↦ m
          | inr (inl e) ↦ absurd (u e)
          | inr (inr (other, k, e, w)) ↦
              let (p, i, l', locked) = get_-blocked other c w in
              let below : TaskIsSound rank (rank name) item (running (awaits other k)) =
                subst (TaskIsSound rank (rank name) item) e sound in
              IsSound-CanMove n c s other i l'
                (locked-Unfinished (rank other) rank i i.task
                  (Items-lookup (ItemIsSound rank) other c.items s.1 l') locked)
                (elim below.1.0 [ inl q ↦ cc | inr q ↦ omega arith ])
        ]

  Acc-Finishes :
      (c : AsyncCollector V E) (l : Dict (CollectorItem V E))
      → Acc Fewer l
      → c.items ≡ l
      → IsSound rank c
      → Finishes c
  Acc-Finishes c l (Acc.intro _ f) e s = elim (AllEnded-cases c) [
    | inl h ↦ ended h
    | inr (name, item, at, u) ↦
        let (m, d, can) = IsSound-CanMove (suc (rank name)) c s name item at u (omega arith) in
        moves m can (λ m' d' q.
          Acc-Finishes d' d'.items (f d'.items (subst (Fewer d'.items) e (move-Fewer m' c q))) refl
            (move-IsSound rank m' c s q))
  ]

  -- Where no step waits for itself, not even through other steps, and all locks are free, `run`
  -- starts and ends, in whatever order the event loop runs the tasks.
  pub start-Finishes :
      (c : AsyncCollector V E) {d : AsyncCollector V E}
      → IsAcyclic rank c.items
      → start c ≡ some d
      → Finishes d
  start-Finishes c {d} h e =
      Acc-Finishes d d.items (Acc-items d.items) refl (start-IsSound rank c h e)
