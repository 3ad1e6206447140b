-- ===== src/Collector/Order/Errors.antt =====
-- engine/src/hopeit/server/collector.py: the exception that `gather` raises in `run`.
use hopeit_engine.Common.{
  ℕ, true, false, Option, none, some, String, List, [], ◌∷◌, Result, ok, err, ◌≡◌, ◌≢◌, ◌⊎◌, inl,
  inr, str_eq, eq_iff, arith, refl, sym, ap, subst, Bool-cases, Option-cases, ◌∙◌,
}
use hopeit_engine.Common.Dict.{lookup, insert, lookup-insert_at}
use hopeit_engine.Collector.{
  Fault, already_released, Step, returns, raises, awaits, Status, created, running, returned,
  failed, CollectorItem, AsyncCollector, Got, got, raised, blocked, get_, resume, move_step,
  run_item, move, start, finish, run, first,
}
use hopeit_engine.Collector.Moves.{IsAcyclic, move-some}
use hopeit_engine.Collector.Ends.{HasEnded}
use hopeit_engine.Collector.Started.{locked_item, start-some}
use hopeit_engine.Collector.Sequential.{eval, look}
use hopeit_engine.Collector.Order.{EndsAs}
use hopeit_engine.Collector.Order.Final.{run-EndsAs, lock_all-lookup}

first-ne-none : {A : Type 0} (o : Option A) (a : A) → first o a ≢ none
first-ne-none none a e = cc
first-ne-none (some b) a e = cc

first-some : {A : Type 0} (o : Option A) (a e : A) → first o a ≡ some e → (a ≡ e) ⊎ (o ≡ some e)
first-some none a e h = inl (cc)
first-some (some b) a e h = inr h

module _ {V E : Type 0} where
  abbrev IsFailed : Status V E → E ⊎ Fault → Type 0
  IsFailed t e = t ≡ failed e

  -- The exception is one of a task that has failed, and there is one if any task has failed.
  abbrev Blames : AsyncCollector V E → Type 0
  Blames c =
      ((name : String) (item : CollectorItem V E) (e : E ⊎ Fault)
        → lookup name c.items ≡ some item
        → item.task ≡ failed e
        → c.error ≢ none)
      × ((e : E ⊎ Fault)
          → c.error ≡ some e
          → (name : String) × (item : CollectorItem V E) × (lookup name c.items ≡ some item)
            × (item.task ≡ failed e))

  module _ (name : String) (old item : CollectorItem V E) (c d : AsyncCollector V E) (b : Blames c)
      (l : lookup name c.items ≡ some old) (alive : (e : E ⊎ Fault) → old.task ≡ failed e → ⊥)
      (q : d.items ≡ insert name item c.items) where
    written-at :
        (n : String) {i : CollectorItem V E}
        → lookup n d.items ≡ some i
        → ((n ≡ name) × (item ≡ i)) ⊎ (lookup n c.items ≡ some i)
    written-at n {i} at =
        ground (arith, eq_iff name n, lookup-insert_at name n item c.items, ap (lookup n) q)

    written_self : lookup name d.items ≡ some item
    written_self =
        ground
          (arith, eq_iff name name, lookup-insert_at name name item c.items, ap (lookup name) q)

    -- What had failed is as it was.
    written-failed :
        (e : E ⊎ Fault)
        → (n : String) × (i : CollectorItem V E) × (lookup n c.items ≡ some i) × (i.task ≡ failed e)
        → (m : String) × (j : CollectorItem V E) × (lookup m d.items ≡ some j) × (j.task ≡ failed e)
    written-failed e (n, i, at, f) = (
      n,
      i,
      elim (Bool-cases (str_eq name n)) [
        | inl same ↦
            let t : lookup n c.items ≡ some old =
              subst (λ m. lookup m c.items ≡ some old) ((eq_iff name n).0 same) l in
            absurd (alive e (ap CollectorItem.task {x = old} {y = i} (cc) ∙ f))
        | inr n' ↦ ap (lookup n) q ∙ lookup-insert_at name n item c.items ∙ rw n' at
      ],
      f,
    )

    -- A task that had not failed goes on or ends well.
    kept-Blames : ((e : E ⊎ Fault) → item.task ≡ failed e → ⊥) → d.error ≡ c.error → Blames d
    kept-Blames u k = (
      λ n i e at f z. elim (written-at n at) [
        | inl (m, j) ↦ u e (ap CollectorItem.task {x = item} {y = i} j ∙ f)
        | inr at' ↦ b.0 n i e at' f (sym k ∙ z)
      ],
      λ e z. written-failed e (b.1 e (sym k ∙ z)),
    )

    -- A task fails.
    failed-Blames : (x : E ⊎ Fault) → item.task ≡ failed x → d.error ≡ first c.error x → Blames d
    failed-Blames x f k = (
      λ n i e at g z. first-ne-none c.error x (sym k ∙ z),
      λ e z. elim (first-some c.error x e (sym k ∙ z)) [
        | inl same ↦ (name, item, written_self, f ∙ ap failed same)
        | inr was ↦ written-failed e (b.1 e was)
      ],
    )

  resume-Blames :
      (name : String) (item : CollectorItem V E) (c : AsyncCollector V E)
      (k : Result Fault (Option V) → Step V E) (g : Got V) {d : AsyncCollector V E}
      → Blames c
      → lookup name c.items ≡ some item
      → ((e : E ⊎ Fault) → item.task ≡ failed e → ⊥)
      → resume name item c k g ≡ some d
      → Blames d
  unfolding resume
  resume-Blames name item c k (got v) {d} b l a q =
      kept-Blames name item (record item { task = running (k (ok v)) }) c d b l a (cc) (λ e h. cc)
        (cc)
  resume-Blames name item c k (raised f) {d} b l a q =
      kept-Blames name item (record item { task = running (k (err f)) }) c d b l a (cc) (λ e h. cc)
        (cc)
  resume-Blames name item c k blocked b l a q = cc

  run_item-Blames :
      (name : String) (item : CollectorItem V E) (c : AsyncCollector V E) (t : Status V E)
      {d : AsyncCollector V E}
      → Blames c
      → lookup name c.items ≡ some item
      → item.task ≡ t
      → run_item name item c t ≡ some d
      → Blames d
  unfolding run_item move_step
  run_item-Blames name item c created {d} b l t q = elim (Bool-cases item.locked) [
    | inl y ↦
        let r = rw y at q in
        kept-Blames name item (record item { locked = true; task = running item.func }) c d b l
          (λ e h. cc) (cc) (λ e h. cc) (cc)
    | inr n ↦
        let r = rw n at q in
        failed-Blames name item
          (record item { locked = false; task = failed (inr already_released) }) c d b l (λ e h. cc)
          (cc) (inr already_released) refl (cc)
  ]
  run_item-Blames name item c (running (returns v)) {d} b l t q =
      kept-Blames name item (finish item v returned) c d b l (λ e h. cc) (cc) (λ e h. cc) (cc)
  run_item-Blames name item c (running (raises x)) {d} b l t q =
      failed-Blames name item (finish item item.value (failed (inl x))) c d b l (λ e h. cc) (cc)
        (inl x) refl (cc)
  run_item-Blames name item c (running (awaits other k)) b l t q =
      resume-Blames name item c k (get_ other c) b l (λ e h. cc) q
  run_item-Blames name item c returned b l t q = cc
  run_item-Blames name item c (failed x) b l t q = cc

  run-Blames : (names : List String) (c : AsyncCollector V E) → Blames c → Blames (run names c)
  unfolding run
  run-Blames [] c b = b
  run-Blames (name ∷ names) c b = elim (Option-cases (move name c)) [
    | inl n ↦ rw (n, run) (run-Blames names c b)
    | inr (d, q) ↦
        let (item, l, r) = move-some name c q in
        rw (q, run) (run-Blames names d (run_item-Blames name item c item.task b l refl r))
  ]

  start-Blames : (c : AsyncCollector V E) {d : AsyncCollector V E} → start c ≡ some d → Blames d
  start-Blames c {d} q =
      let (l, g, f) = start-some c q in
      subst Blames (sym f) (
        λ name item e at h z. elim (lock_all-lookup name c.items g) [
          | inl (_, n) ↦ cc
          | inr (i, _, n) ↦ cc (ap CollectorItem.task {x = locked_item i} {y = item} (cc))
        ],
        λ e z. cc,
      )

  ends_well :
      (item : CollectorItem V E) (v : Option V) (r : Result E (Option V))
      → EndsAs item v r
      → ((e : E ⊎ Fault) → item.task ≡ failed e → ⊥)
      → r ≡ ok item.value
  ends_well item v (ok w) h u = ap ok (sym h.1)
  ends_well item v (err e) h u = absurd (u (inl e) h.0)

  ends_badly :
      (item : CollectorItem V E) (v : Option V) (r : Result E (Option V)) (x : E ⊎ Fault)
      → EndsAs item v r
      → item.task ≡ failed x
      → (e : E) × (r ≡ err e) × (x ≡ inl e)
  ends_badly item v (ok w) x h f = cc
  ends_badly item v (err e) x h f = (e, refl, cc)

module _ {V E : Type 0} (rank : String → ℕ) (c : AsyncCollector V E) where
  -- `run` raises exactly when the step of some item raises on its own, and then it raises what one
  -- of these steps raises.
  pub run-error :
      (names : List String) (d : AsyncCollector V E)
      → IsAcyclic rank c.items
      → start c ≡ some d
      → ((name : String) (item : CollectorItem V E)
          → lookup name (run names d).items ≡ some item
          → HasEnded item.task)
      → (((run names d).error ≡ none)
          → (name : String) (item : CollectorItem V E) → lookup name (run names d).items ≡ some item
          → (i : CollectorItem V E) × (lookup name c.items ≡ some i)
            × (eval (look c (rank name)) i.func ≡ ok item.value))
        × ((x : E ⊎ Fault)
            → (run names d).error ≡ some x
            → (name : String) × (i : CollectorItem V E) × (e : E) × (lookup name c.items ≡ some i)
              × (eval (look c (rank name)) i.func ≡ err e)
              × (x ≡ inl e))
  run-error names d a q all =
      let blame = run-Blames names d (start-Blames c q) in
      (
        λ z name item l.
            let (i, at, h) = run-EndsAs rank c names d name item a q l (all name item l) in
            (
              i,
              at,
              ends_well item i.value (eval (look c (rank name)) i.func) h
                  (λ e f. blame.0 name item e l f z),
            ),
        λ x z.
            let (name, item, l, f) = blame.1 x z in
            let (i, at, h) = run-EndsAs rank c names d name item a q l (all name item l) in
            let (e, r, s) = ends_badly item i.value (eval (look c (rank name)) i.func) x h f in
            (name, i, e, at, r, s),
      )
