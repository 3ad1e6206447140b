-- ===== src/Events/Initialized.antt =====
-- engine/src/hopeit/server/events.py: that a module is initialized once, whatever calls are made of
-- the handler one after the other.
use hopeit_engine.Common.{
  ℕ, Bool, true, false, Option, none, some, List, [], ◌∷◌, String, Result, ok, err, if◌then◌else◌,
  length, ◌≡◌, inl, inr, refl, str_eq, eq_iff, Bool-cases, subst, sym, ap, ◌∙◌,
}
use hopeit_engine.Common.Dict.{Dict, lookup, insert, Fresh, lookup-insert_at}
use hopeit_engine.Steps.Defs.{StepInfo}
use hopeit_engine.Events.Modules.{EventsError, Loaded, EventHandler}
use hopeit_engine.Events.{
  Outcome, called, init_module, init_if_needed, ensure_base, ensure_initialized, after,
  handle_async_event, preprocess_with, preprocess, postprocess,
}

-- The base events whose `__init_event__` completed.
abbrev pub completed : List (String × Bool) → List String
completed [] = []
completed ((base, done) ∷ log) = if done then base ∷ completed log else completed log

-- No call is made for a base event for which one has completed before.
abbrev pub Once : List (String × Bool) → Type 0
Once [] = Unit
Once ((base, done) ∷ log) = Fresh base (completed log) × Once log

-- A call of the handler: `handle_async_event`, `preprocess` or `postprocess` with their arguments.
pub data Call (V Args : Type 0) : Type 0 where
  handle before_steps after_steps : String → Option V → Args → Call V Args

module _ {V Ty Args E : Type 0} where
  abbrev Marked : Dict (Loaded V Ty Args E) → String → Type 0
  Marked modules base =
      (m : Loaded V Ty Args E) × (lookup base modules ≡ some m) × (m.initialized ≡ true)

  abbrev pub AllMarked : Dict (Loaded V Ty Args E) → List String → Type 0
  AllMarked modules [] = Unit
  AllMarked modules (base ∷ log) = Marked modules base × AllMarked modules log

  -- Each module is initialized once, and those that are initialized are marked.
  abbrev pub IsOnce : EventHandler V Ty Args E → Type 0
  IsOnce h = Once h.inits × AllMarked h.modules (completed h.inits)

  -- An entry that is not marked has not been initialized.
  unmarked-Fresh :
      (base : String) (m : Loaded V Ty Args E) (modules : Dict (Loaded V Ty Args E))
      (log : List String)
      → lookup base modules ≡ some m
      → m.initialized ≡ false
      → AllMarked modules log
      → Fresh base log
  unmarked-Fresh base m modules [] l u h = tt
  unmarked-Fresh base m modules (b ∷ log) l u ((n, at, y), h) = (
    elim (Bool-cases (str_eq b base)) [
      | inl same ↦
          let at' : lookup base modules ≡ some n =
            subst (λ k. lookup k modules ≡ some n) ((eq_iff b base).0 same) at in
          let e : n.initialized ≡ m.initialized = ap Loaded.initialized {x = n} {y = m} (cc) in
          absurd (cc)
      | inr other ↦ other
    ],
    unmarked-Fresh base m modules log l u h,
  )

  -- Marking an entry keeps the marks.
  mark-AllMarked :
      (base : String) (m : Loaded V Ty Args E) (modules : Dict (Loaded V Ty Args E))
      (log : List String)
      → AllMarked modules log
      → AllMarked (insert base (record m { initialized = true }) modules) log
  mark-AllMarked base m modules [] h = tt
  mark-AllMarked base m modules (b ∷ log) ((n, at, y), h) = (
    elim (Bool-cases (str_eq base b)) [
      | inl same ↦
          (record m { initialized = true }, lookup-insert_at base b _ modules ∙ rw same refl, refl)
      | inr other ↦ (n, lookup-insert_at base b _ modules ∙ rw other at, y)
    ],
    mark-AllMarked base m modules log h,
  )

  -- The call of `__init_event__` for an entry that is not marked.
  called-IsOnce :
      (base : String) (m : Loaded V Ty Args E) (h : EventHandler V Ty Args E)
      (r : Result E (Unit {0}))
      → Fresh base (completed h.inits)
      → IsOnce h
      → IsOnce (called base m h r).0
  called-IsOnce base m h (ok u) n (o, a) = (
    (n, o),
    (
      (
        record m { initialized = true },
        lookup-insert_at base base _ h.modules ∙ rw ((eq_iff base base).1 refl) refl,
        refl,
      ),
      mark-AllMarked base m h.modules (completed h.inits) a,
    ),
  )
  called-IsOnce base m h (err e) n (o, a) = ((n, o), a)

  init_module-IsOnce :
      (base : String) (m : Loaded V Ty Args E) (init : Option (ℕ → Result E (Unit {0})))
      (h : EventHandler V Ty Args E)
      → Fresh base (completed h.inits)
      → IsOnce h
      → IsOnce (init_module base m init h).0
  init_module-IsOnce base m none h n (o, a) =
      (o, mark-AllMarked base m h.modules (completed h.inits) a)
  init_module-IsOnce base m (some init) h n i = called-IsOnce base m h (init (length h.inits)) n i

  init_if_needed-IsOnce :
      (base : String) (o : Option (Loaded V Ty Args E)) (h : EventHandler V Ty Args E)
      → lookup base h.modules ≡ o
      → IsOnce h
      → IsOnce (init_if_needed base o h).0
  init_if_needed-IsOnce base none h l i = i
  init_if_needed-IsOnce base (some m) h l i = elim (Bool-cases m.initialized) [
    | inl y ↦ simp y i
    | inr u ↦ simp u (
        init_module-IsOnce base m m.impl.init_event h
          (unmarked-Fresh base m h.modules (completed h.inits) l u i.1) i)
  ]

  ensure_base-IsOnce :
      (r : Result (EventsError E) (String × Option String)) (h : EventHandler V Ty Args E)
      → IsOnce h
      → IsOnce (ensure_base r h).0
  ensure_base-IsOnce (err e) h i = i
  ensure_base-IsOnce (ok (base, step)) h i =
      init_if_needed-IsOnce base (lookup base h.modules) h refl i

  ensure_initialized-IsOnce :
      (event_name : String) (h : EventHandler V Ty Args E)
      → IsOnce h
      → IsOnce (ensure_initialized event_name h).0
  unfolding ensure_initialized
  ensure_initialized-IsOnce event_name h i = ensure_base-IsOnce _ h i

  after-state :
      {A B : Type 0} (o : Outcome V Ty Args E A)
      (f : EventHandler V Ty Args E → Result (EventsError E) B)
      → (after o f).0 ≡ o.0
  after-state (h, ok a) f = refl
  after-state (h, err e) f = refl

  preprocess_with-IsOnce :
      (event_name : String) (payload : Option V) (args : Args) (h : EventHandler V Ty Args E)
      (f : Option (Option (StepInfo V Ty Args E)))
      → IsOnce h
      → IsOnce (preprocess_with event_name payload args h f).0
  preprocess_with-IsOnce event_name payload args h none i = i
  preprocess_with-IsOnce event_name payload args h (some none) i = i
  preprocess_with-IsOnce event_name payload args h (some (some f)) i =
      subst IsOnce (sym (after-state (ensure_initialized event_name h) _))
        (ensure_initialized-IsOnce event_name h i)

  module _ (is_instance : Option V → Ty → Option Bool) (no_args : Args) where
    -- What a call leaves, whatever it gives.
    unfoldable pub call : Call V Args → EventHandler V Ty Args E → EventHandler V Ty Args E
    unfolding handle_async_event preprocess postprocess
    call (handle event_name payload args) h =
        (handle_async_event is_instance no_args event_name payload args h).0
    call (before_steps event_name payload args) h = (preprocess event_name payload args h).0
    call (after_steps event_name payload args) h = (postprocess event_name payload args h).0

    unfoldable pub calls : List (Call V Args) → EventHandler V Ty Args E → EventHandler V Ty Args E
    unfolding call
    calls [] h = h
    calls (c ∷ cs) h = calls cs (call c h)

    call-IsOnce : (c : Call V Args) (h : EventHandler V Ty Args E) → IsOnce h → IsOnce (call c h)
    unfolding call
    call-IsOnce (handle event_name payload args) h i =
        subst IsOnce (sym (after-state (ensure_initialized event_name h) _))
          (ensure_initialized-IsOnce event_name h i)
    call-IsOnce (before_steps event_name payload args) h i =
        preprocess_with-IsOnce event_name payload args h (lookup event_name h.preprocess_handlers) i
    call-IsOnce (after_steps event_name payload args) h i = i

    calls-IsOnce :
        (cs : List (Call V Args)) (h : EventHandler V Ty Args E) → IsOnce h → IsOnce (calls cs h)
    unfolding calls
    calls-IsOnce [] h i = i
    calls-IsOnce (c ∷ cs) h i = calls-IsOnce cs (call c h) (call-IsOnce c h i)

    -- From a handler that has made no call of `__init_event__` yet, whatever calls follow one
    -- another, `__init_event__` is not called for a base event for which it has completed before,
    -- and those base events are marked as initialized.
    pub calls-Once :
        (cs : List (Call V Args)) (h : EventHandler V Ty Args E)
        → h.inits ≡ []
        → IsOnce (calls cs h)
    calls-Once cs h e = calls-IsOnce cs h (rw e (tt, tt))
