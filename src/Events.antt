-- ===== src/Events.antt =====
-- engine/src/hopeit/server/events.py: the handler of the events of an app. A call gives the handler
-- that it leaves and a result; the handlers of web requests and jobs make such calls.
pub mod Modules
pub mod Initialized
pub mod Stages
mod Tests
use hopeit_engine.Common.{
  ℕ, length, Bool, true, false, Option, none, some, List, [], ◌∷◌, ◌++◌, String, Result, ok, err,
  ◌>>=◌, if◌then◌else◌,
}
use hopeit_engine.Common.Dict.{Dict, lookup, insert, update}
use hopeit_engine.Steps.Defs.{StepName, StepInfo, Step, StepsError, Trace, done, yields}
use hopeit_engine.Steps.Defs.{raised as trace_raised}
use hopeit_engine.Steps.Names.{event_and_step}
use hopeit_engine.Steps.Execute.{Failure, execute_steps}
use Modules.{
  EventsError, key_error, steps_error, not_initialized, raised, Module, Loaded, EventHandler,
  steps_result,
}

-- What a call leaves and gives.
abbrev pub Outcome : (V Ty Args E A : Type 0) → Type 0
Outcome V Ty Args E A = EventHandler V Ty Args E × Result (EventsError E) A

-- `d[k]`
abbrev pub look_up : {A E : Type 0} → String → Dict A → Result (EventsError E) A
look_up k d = elim (lookup k d) [ none ↦ err (key_error k) | some a ↦ ok a ]

module _ {V Ty Args E : Type 0} where
  -- The entry that is written when `_init_module` is done.
  abbrev pub mark :
      String → Loaded V Ty Args E → EventHandler V Ty Args E → EventHandler V Ty Args E
  mark base m h = record h { modules = insert base (record m { initialized = true }) h.modules }

  -- A call of `__init_event__` that ended.
  abbrev pub called :
      String
      → Loaded V Ty Args E
      → EventHandler V Ty Args E
      → Result E (Unit {0})
      → Outcome V Ty Args E (Unit {0})
  called base m h (ok u) = (record (mark base m h) { inits = (base, true) ∷ h.inits }, ok tt)
  called base m h (err e) = (record h { inits = (base, false) ∷ h.inits }, err (raised e))

  -- `_init_module`, with the entry that is written after it.
  abbrev pub init_module :
      String
      → Loaded V Ty Args E
      → Option (ℕ → Result E (Unit {0}))
      → EventHandler V Ty Args E
      → Outcome V Ty Args E (Unit {0})
  init_module base m none h = (mark base m h, ok tt)
  init_module base m (some init) h = called base m h (init (length h.inits))

  abbrev pub init_if_needed :
      String
      → Option (Loaded V Ty Args E)
      → EventHandler V Ty Args E
      → Outcome V Ty Args E (Unit {0})
  init_if_needed base none h = (h, err (key_error base))
  init_if_needed base (some m) h =
      if m.initialized then (h, ok tt) else init_module base m m.impl.init_event h

  abbrev pub ensure_base :
      Result (EventsError E) (String × Option String)
      → EventHandler V Ty Args E
      → Outcome V Ty Args E (Unit {0})
  ensure_base (err e) h = (h, err e)
  ensure_base (ok (base, step)) h = init_if_needed base (lookup base h.modules) h

  unfoldable pub ensure_initialized :
      String → EventHandler V Ty Args E → Outcome V Ty Args E (Unit {0})
  unfolding event_and_step lookup insert
  ensure_initialized event_name h = ensure_base (steps_result (event_and_step event_name)) h

  -- What comes after a call, unless it raised.
  abbrev pub after :
      {A B : Type 0}
      → Outcome V Ty Args E A
      → (EventHandler V Ty Args E → Result (EventsError E) B)
      → Outcome V Ty Args E B
  after (h, ok a) f = (h, f h)
  after (h, err e) f = (h, err e)

  module _ (is_instance : Option V → Ty → Option Bool) (no_args : Args) where
    -- The results of `handle_async_event`; the handler's own exceptions come before any of them.
    unfoldable pub handle_async_event :
        String
        → Option V
        → Args
        → EventHandler V Ty Args E
        → Outcome V Ty Args E (Trace (Failure E) (Option V))
    unfolding ensure_initialized execute_steps
    handle_async_event event_name payload args h = after (ensure_initialized event_name h) (λ g.
        look_up event_name g.steps >>= λ s. ok (execute_steps is_instance no_args s payload args))

  -- `invoke_single_step`
  abbrev pub invoke_single_step :
      StepInfo V Ty Args E → Option V → Args → Result (EventsError E) (Option V)
  invoke_single_step f payload args = elim (f.invoke payload args) [
    | ok v ↦ ok v
    | err e ↦ err (raised e)
  ]

  abbrev pub preprocess_with :
      String
      → Option V
      → Args
      → EventHandler V Ty Args E
      → Option (Option (StepInfo V Ty Args E))
      → Outcome V Ty Args E (Option V)
  preprocess_with event_name payload args h none = (h, err (key_error event_name))
  preprocess_with event_name payload args h (some none) = (h, ok payload)
  preprocess_with event_name payload args h (some (some f)) =
      after (ensure_initialized event_name h) (λ g. invoke_single_step f payload args)

  unfoldable pub preprocess :
      String → Option V → Args → EventHandler V Ty Args E → Outcome V Ty Args E (Option V)
  unfolding ensure_initialized
  preprocess event_name payload args h =
      preprocess_with event_name payload args h (lookup event_name h.preprocess_handlers)

  abbrev pub assert_initialized : Loaded V Ty Args E → Result (EventsError E) (Unit {0})
  assert_initialized m = if m.initialized then ok tt else err not_initialized

  abbrev pub postprocess_with :
      String
      → Option V
      → Args
      → EventHandler V Ty Args E
      → Option (Option (StepInfo V Ty Args E))
      → Result (EventsError E) (Option V)
  postprocess_with event_name payload response h none = err (key_error event_name)
  postprocess_with event_name payload response h (some none) = ok payload
  postprocess_with event_name payload response h (some (some f)) =
      look_up event_name h.modules >>= λ m.
      assert_initialized m >>= λ u. invoke_single_step f payload response

  unfoldable pub postprocess :
      String → Option V → Args → EventHandler V Ty Args E → Outcome V Ty Args E (Option V)
  unfolding lookup
  postprocess event_name payload response h =
      (h, postprocess_with event_name payload response h (lookup event_name h.postprocess_handlers))
