-- ===== src/Collector/Ends.antt =====
-- engine/src/hopeit/server/collector.py: that a run comes to its end, in whatever order the event
-- loop runs the tasks: there is always a task that can move, and no task moves forever.
use mathlib.Core.WellFounded.{Acc}
use hopeit_engine.Common.{
  true, false, Option, some, String, [], ◌∷◌, Result, ok, err, ◌≡◌, ◌⊎◌, inl, inr, str_eq, refl,
  sym, subst, Bool-cases,
}
use hopeit_engine.Common.Dict.{Dict, lookup, insert}
use hopeit_engine.Collector.{
  Fault, already_released, Step, returns, raises, awaits, Status, created, running, returned,
  failed, CollectorItem, AsyncCollector, Got, got, raised, blocked, get_, resume, move_step,
  run_item, move, finish,
}
use hopeit_engine.Collector.Moves.{move-some}

module _ {V E : Type 0} where
  abbrev pub HasEnded : Status V E → Type 0
  HasEnded created = ⊥
  HasEnded (running p) = ⊥
  HasEnded returned = Unit
  HasEnded (failed e) = Unit

  -- The task of each item has ended.
  abbrev pub AllEnded : AsyncCollector V E → Type 0
  AllEnded c =
      (name : String) (item : CollectorItem V E)
      → lookup name c.items ≡ some item
      → HasEnded item.task

  -- All tasks end, whatever the event loop does: it cannot stop before, since some task can move
  -- until all have ended, and it cannot go on forever, since this is an inductive type.
  pub data Finishes : AsyncCollector V E → Type 0 where
    ended : {c : AsyncCollector V E} → AllEnded c → Finishes c
    moves :
        {c d : AsyncCollector V E} (name : String)
        → move name c ≡ some d
        → ((m : String) (e : AsyncCollector V E) → move m c ≡ some e → Finishes e)
        → Finishes c

  -- What a move makes of where a task stands.
  abbrev pub Moved : CollectorItem V E → Status V E → Status V E → Type 0
  Moved item created t = (t ≡ running item.func) ⊎ HasEnded t
  Moved item (running (returns v)) t = HasEnded t
  Moved item (running (raises e)) t = HasEnded t
  Moved item (running (awaits n k)) t = (x : Result Fault (Option V)) × (t ≡ running (k x))
  Moved item returned t = ⊥
  Moved item (failed e) t = ⊥

  abbrev pub Less : CollectorItem V E → CollectorItem V E → Type 0
  Less i' i = (i'.func ≡ i.func) × Moved i i.task i'.task

  -- One item of the dict has moved.
  abbrev pub Fewer : Dict (CollectorItem V E) → Dict (CollectorItem V E) → Type 0
  Fewer [] l = ⊥
  Fewer (x ∷ l) [] = ⊥
  Fewer ((j, i') ∷ l') ((k, i) ∷ l) = (Less i' i × (l' ≡ l)) ⊎ ((i' ≡ i) × Fewer l' l)

  insert-Fewer :
      (name : String) {i : CollectorItem V E} (i' : CollectorItem V E)
      (l : Dict (CollectorItem V E))
      → lookup name l ≡ some i
      → Less i' i
      → Fewer (insert name i' l) l
  unfolding lookup insert
  insert-Fewer name i' [] e h = cc
  insert-Fewer name {i} i' ((k, j) ∷ l) e h = elim (Bool-cases (str_eq k name)) [
    | inl same ↦
        let at : some j ≡ some i = rw same at e in
        rw same (inl (subst (Less i') {x = i} {y = j} (cc) h, refl))
    | inr other ↦ rw other (inr (refl, insert-Fewer name i' l (rw other at e) h))
  ]

  Acc-ended : (i : CollectorItem V E) → HasEnded i.task → Acc Less i
  Acc-ended i h = Acc.intro i (λ y m. absurd (ended-Moved i.task y.task h m.1))
    where
      ended-Moved : (t t' : Status V E) → HasEnded t → Moved i t t' → ⊥
      ended-Moved created t' h m = h
      ended-Moved (running p) t' h m = absurd h
      ended-Moved returned t' h m = m
      ended-Moved (failed e) t' h m = m

  Acc-running : (p : Step V E) (i : CollectorItem V E) → i.task ≡ running p → Acc Less i
  Acc-running (returns v) i e = Acc.intro i (λ y m. Acc-ended y (rw e at m.1))
  Acc-running (raises f) i e = Acc.intro i (λ y m. Acc-ended y (rw e at m.1))
  Acc-running (awaits n k) i e =
      Acc.intro i (λ y m. let (x, q) = rw e at m.1 in Acc-running (k x) y q)

  Acc-created : (i : CollectorItem V E) → i.task ≡ created → Acc Less i
  Acc-created i e =
      Acc.intro i
        (λ y m. elim (rw e at m.1) [ inl q ↦ Acc-running i.func y q | inr h ↦ Acc-ended y h ])

  Acc-item : (i : CollectorItem V E) → Acc Less i
  Acc-item i = by_task i.task refl
    where
      by_task : (t : Status V E) → i.task ≡ t → Acc Less i
      by_task created e = Acc-created i e
      by_task (running p) e = Acc-running p i e
      by_task returned e = Acc-ended i (rw e tt)
      by_task (failed f) e = Acc-ended i (rw e tt)

  Acc-moved :
      (k : String) (i : CollectorItem V E) (l : Dict (CollectorItem V E))
      → ((j : String) (i' : CollectorItem V E) → Less i' i → Acc Fewer ((j, i') ∷ l))
      → ((j : String) (l' : Dict (CollectorItem V E)) → Fewer l' l → Acc Fewer ((j, i) ∷ l'))
      → (y : Dict (CollectorItem V E)) → Fewer y ((k, i) ∷ l)
      → Acc Fewer y
  Acc-moved k i l f g [] h = elim h [ ]
  Acc-moved k i l f g ((j, i') ∷ l') (inl (m, e)) =
      subst (λ t. Acc Fewer ((j, i') ∷ t)) (sym e) (f j i' m)
  Acc-moved k i l f g ((j, i') ∷ l') (inr (e, m)) =
      subst (λ t. Acc Fewer ((j, t) ∷ l')) (sym e) (g j l' m)

  Acc-cons :
      (k : String) (i : CollectorItem V E)
      → Acc Less i
      → (l : Dict (CollectorItem V E)) → Acc Fewer l
      → Acc Fewer ((k, i) ∷ l)
  Acc-cons k i (Acc.intro _ f) l (Acc.intro _ g) = Acc.intro _ (
      Acc-moved k i l (λ j i' m. Acc-cons j i' (f i' m) l (Acc.intro l g))
        (λ j l' m. Acc-cons j i (Acc.intro i f) l' (g l' m)))

  pub Acc-items : (l : Dict (CollectorItem V E)) → Acc Fewer l
  Acc-items [] = Acc.intro [] none_fewer
    where
      none_fewer : (l : Dict (CollectorItem V E)) → Fewer l [] → Acc Fewer l
      none_fewer [] h = elim h [ ]
      none_fewer (x ∷ l) h = elim h [ ]
  Acc-items ((k, i) ∷ l) = Acc-cons k i (Acc-item i) l (Acc-items l)

  -- A move makes the dict of the items smaller.
  resume-Moved :
      (name : String) (item : CollectorItem V E) (c : AsyncCollector V E)
      (k : Result Fault (Option V) → Step V E) (g : Got V) {d : AsyncCollector V E}
      → resume name item c k g ≡ some d
      → (x : Result Fault (Option V)) × (d.items
          ≡ insert name (record item { task = running (k x) }) c.items)
  unfolding resume
  resume-Moved name item c k (got v) e = (ok v, cc)
  resume-Moved name item c k (raised f) e = (err f, cc)
  resume-Moved name item c k blocked e = cc

  run_item-Moved :
      (name : String) (item : CollectorItem V E) (c : AsyncCollector V E) (t : Status V E)
      {d : AsyncCollector V E}
      → run_item name item c t ≡ some d
      → (i' : CollectorItem V E) × (d.items ≡ insert name i' c.items)
        × (i'.func ≡ item.func)
        × Moved item t i'.task
  unfolding run_item move_step
  run_item-Moved name item c created {d} e = elim (Bool-cases item.locked) [
    | inl l ↦
        let q = rw l at e in
        (record item { locked = true; task = running item.func }, cc, refl, inl refl)
    | inr l ↦
        let q = rw l at e in
        (record item { locked = false; task = failed (inr already_released) }, cc, refl, inr tt)
  ]
  run_item-Moved name item c (running (returns v)) e = (finish item v returned, cc, refl, tt)
  run_item-Moved name item c (running (raises f)) e =
      (finish item item.value (failed (inl f)), cc, refl, tt)
  run_item-Moved name item c (running (awaits other k)) e =
      let (x, q) = resume-Moved name item c k (get_ other c) e in
      (record item { task = running (k x) }, q, refl, (x, refl))
  run_item-Moved name item c returned e = cc
  run_item-Moved name item c (failed f) e = cc

  pub move-Fewer :
      (name : String) (c : AsyncCollector V E) {d : AsyncCollector V E}
      → move name c ≡ some d
      → Fewer d.items c.items
  move-Fewer name c {d} e =
      let (item, l, r) = move-some name c e in
      let (i', q, f, m) = run_item-Moved name item c item.task r in
      subst (λ t. Fewer t c.items) (sym q) (insert-Fewer name i' c.items l (f, m))
