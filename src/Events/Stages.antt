-- ===== src/Events/Stages.antt =====
-- engine/src/hopeit/server/events.py: the calls of the handler for the events that are stages of
-- another event.
pub mod Hooks
use hopeit_engine.Common.{
  ℕ, Bool, true, false, Option, none, some, List, [], ◌∷◌, String, Result, ok, err, ◌>>=◌, bind-ok,
  if◌then◌else◌, ◌≡◌, ◌≢◌, ◌⊎◌, inl, inr, refl, str_eq, eq_iff, arith, Bool-cases, Option-cases,
  subst, sym, ap, ◌∙◌,
}
use hopeit_engine.Common.Dict.{Dict, lookup, insert, insert-lookup, insert-none, lookup-insert_at}
use hopeit_engine.Config.Defs.{EventDescriptor}
use hopeit_engine.Steps.Defs.{StepName, StepInfo, Step, StepsError, Trace}
use hopeit_engine.Steps.Names.{event_and_step}
use hopeit_engine.Steps.Names.Base.{event_and_step-base}
use hopeit_engine.Steps.Effective.{effective_steps}
use hopeit_engine.Steps.Execute.{Failure, execute_steps}
use hopeit_engine.Events.Modules.{
  EventsError, key_error, Module, Loaded, EventHandler, steps_result, load_module, load_modules,
  empty_handler, add_event, find_event_handler, get_event_settings,
}
use hopeit_engine.Events.{
  Outcome, ensure_initialized, handle_async_event, preprocess, postprocess, look_up,
}

-- A name of an event without a stage.
abbrev pub IsBase : String → Type 0
IsBase name = event_and_step name ≡ ok (name, none)

insert_present :
    {A : Type 0} (k j : String) (v : A) (d : Dict A)
    → lookup j (insert k v d) ≢ none
    → (k ≡ j) ⊎ (lookup j d ≢ none)
insert_present k j v d h = elim (Bool-cases (str_eq k j)) [
  | inl same ↦ inl ((eq_iff k j).0 same)
  | inr other ↦ inr (λ e. h (lookup-insert_at k j v d ∙ rw other e))
]

insert_keeps :
    {A : Type 0} (k j : String) (v : A) (d : Dict A)
    → (k ≡ j) ⊎ (lookup j d ≢ none)
    → lookup j (insert k v d) ≢ none
insert_keeps k j v d (inl e) h = ground (arith, lookup-insert_at k j v d, eq_iff k j)
insert_keeps k j v d (inr p) h = p (insert-none k j v d h).1

steps_result-ok :
    {A E : Type 0} (r : Result StepsError A) {a : A} → steps_result {E = E} r ≡ ok a → r ≡ ok a
steps_result-ok (ok b) e = cc
steps_result-ok (err x) e = cc

module _ {V Ty Args E : Type 0} where
  -- The hooks are kept under base events, and each event with steps has its base event's module.
  abbrev pub IsLoaded : EventHandler V Ty Args E → Type 0
  IsLoaded h =
      ((k : String) → lookup k h.preprocess_handlers ≢ none → IsBase k)
      × ((k : String) → lookup k h.postprocess_handlers ≢ none → IsBase k)
      × ((k : String)
          → lookup k h.steps ≢ none
          → (b : String) × (t : Option String) × (event_and_step k ≡ ok (b, t))
            × (lookup b h.modules ≢ none))

  add_event-IsLoaded :
      (event_name base : String) (t : Option String) (m : Module V Ty Args E)
      (raw : List (StepName × Option (StepInfo V Ty Args E))) (effective : List (Step V Ty Args E))
      (h : EventHandler V Ty Args E)
      → event_and_step event_name ≡ ok (base, t)
      → IsLoaded h
      → IsLoaded (add_event event_name base m raw effective h)
  add_event-IsLoaded event_name base t m raw effective h e (p, q, r) = (
    λ k n. elim (insert_present base k m.preprocess_step h.preprocess_handlers n) [
      | inl w ↦ subst IsBase w (event_and_step-base event_name base t e)
      | inr o ↦ p k o
    ],
    λ k n. elim (insert_present base k m.postprocess_step h.postprocess_handlers n) [
      | inl w ↦ subst IsBase w (event_and_step-base event_name base t e)
      | inr o ↦ q k o
    ],
    λ k n. elim (insert_present event_name k effective h.steps n) [
      | inl w ↦ (
        base,
        t,
        subst (λ i. event_and_step i ≡ ok (base, t)) w e,
        insert_keeps base base _ h.modules (inl refl),
      )
      | inr o ↦ let (b, u, f, g) = r k o in (b, u, f, insert_keeps base b _ h.modules (inr g))
    ],
  )

  -- A round of the loop adds an event whose base event is known.
  load_module-IsLoaded :
      {S : Type 0} (import_module : String → Option (Module V Ty Args E)) (app_name : String)
      (imps : Option (List String)) (is_settings : S → Bool) (settings : Dict S)
      (event_name : String) (info : EventDescriptor) (h : EventHandler V Ty Args E)
      {g : EventHandler V Ty Args E}
      → load_module import_module app_name imps is_settings settings event_name info h ≡ ok g
      → IsLoaded h
      → IsLoaded g
  unfolding load_module
  load_module-IsLoaded import_module app_name imps is_settings settings event_name info h {g} e i =
      let (base, q, e1) = bind-ok (steps_result (event_and_step event_name)) _ e in
      let (m, _, e2) = bind-ok (find_event_handler import_module app_name imps base.0 info) _ e1 in
      let (raw, _, e3) = bind-ok (steps_result m.module_steps) _ e2 in
      let (s, _, e4) = bind-ok (get_event_settings is_settings settings event_name) _ e3 in
      let (effective, _, e5) = bind-ok (steps_result (effective_steps event_name raw)) _ e4 in
      subst IsLoaded {x = add_event event_name base.0 m raw effective h} {y = g} (cc) (
        add_event-IsLoaded event_name base.0 base.1 m raw effective h
          (steps_result-ok (event_and_step event_name) q) i)

  pub load_modules-IsLoaded :
      {S : Type 0} (import_module : String → Option (Module V Ty Args E)) (app_name : String)
      (imps : Option (List String)) (is_settings : S → Bool) (settings : Dict S)
      (events : Dict EventDescriptor) (h : EventHandler V Ty Args E) {g : EventHandler V Ty Args E}
      → load_modules import_module app_name imps is_settings settings events h ≡ ok g
      → IsLoaded h
      → IsLoaded g
  unfolding load_modules
  load_modules-IsLoaded import_module app_name imps is_settings settings [] h {g} e i =
      subst IsLoaded {x = h} {y = g} (cc) i
  load_modules-IsLoaded import_module app_name imps is_settings settings ((name, info) ∷ events) h e
        i =
      let (k, q, e1) =
        bind-ok (load_module import_module app_name imps is_settings settings name info h) _ e in
      load_modules-IsLoaded import_module app_name imps is_settings settings events k e1
        (load_module-IsLoaded import_module app_name imps is_settings settings name info h q i)
