-- ===== src/Events/Modules.antt =====
-- engine/src/hopeit/server/imports.py and `load_modules` of engine/src/hopeit/server/events.py: the
-- implementation modules of the events of an app. Importing a module is a parameter.
use hopeit_engine.Common.{
  ℕ, Bool, false, Option, none, some, List, [], ◌∷◌, String, Result, ok, err, ◌>>=◌, if◌then◌else◌,
  split,
}
use hopeit_engine.Common.Dict.{Dict, lookup, insert}
use hopeit_engine.Names.{module_name}
use hopeit_engine.Config.Defs.{EventDescriptor}
use hopeit_engine.Steps.Defs.{StepName, StepInfo, Step, StepsError}
use hopeit_engine.Steps.Names.{event_and_step}
use hopeit_engine.Steps.Effective.{effective_steps}

pub data EventsError (E : Type 0) : Type 0 where
  key_error : String → EventsError E
  import_error : String → EventsError E
  steps_error : StepsError → EventsError E
  invalid_settings not_initialized : EventsError E
  raised : E → EventsError E

-- What the engine uses of an implementation module: what `extract_module_steps` gives for it, its
-- `__preprocess__`, `__postprocess__` and `__init_event__`, whose outcome may differ from call to call:
-- it is given by the number of such calls before.
pub record Module (V Ty Args E : Type 0) : Type 0 where
  pub module_steps : Result StepsError (List (StepName × Option (StepInfo V Ty Args E)))
  pub preprocess_step : Option (StepInfo V Ty Args E)
  pub postprocess_step : Option (StepInfo V Ty Args E)
  pub init_event : Option (ℕ → Result E (Unit {0}))

-- An entry of `modules`: the module, whether it is initialized, and its steps.
pub record Loaded (V Ty Args E : Type 0) : Type 0 where
  pub impl : Module V Ty Args E
  pub initialized : Bool
  pub raw_steps : List (StepName × Option (StepInfo V Ty Args E))

-- EventHandler. `inits` is no field of it: it lists the calls of `__init_event__`, the last one
-- first, by the base event and whether the call completed.
pub record EventHandler (V Ty Args E : Type 0) : Type 0 where
  pub modules : Dict (Loaded V Ty Args E)
  pub steps : Dict (List (Step V Ty Args E))
  pub preprocess_handlers : Dict (Option (StepInfo V Ty Args E))
  pub postprocess_handlers : Dict (Option (StepInfo V Ty Args E))
  pub inits : List (String × Bool)

abbrev pub steps_result {ℓ} :
    {E : Type 0} {A : Type ℓ} → Result StepsError A → Result (EventsError E) A
steps_result (ok a) = ok a
steps_result (err e) = err (steps_error e)

-- `get_event_settings`: the settings of the base event are there, and are EventSettings.
abbrev pub first_part : List String → String
first_part [] = ""
first_part (p ∷ ps) = p

unfoldable pub get_event_settings :
    {S E : Type 0} (is_settings : S → Bool) → Dict S → String → Result (EventsError E) S
unfolding split lookup
get_event_settings is_settings settings event_name =
    elim (lookup (first_part (split b'$' event_name)) settings) [
      | none ↦ err (key_error (first_part (split b'$' event_name)))
      | some s ↦ if is_settings s then ok s else err invalid_settings
    ]

module _ {V Ty Args E : Type 0} where
  abbrev pub empty_handler : EventHandler V Ty Args E
  empty_handler = record {
    modules = [];
    steps = [];
    preprocess_handlers = [];
    postprocess_handlers = [];
    inits = [];
  }

  module _ (import_module : String → Option (Module V Ty Args E)) where
    abbrev pub imported :
        String → Option (Module V Ty Args E) → Result (EventsError E) (Module V Ty Args E)
    imported name none = err (import_error name)
    imported name (some m) = ok m

    -- The first of the places from which the event can be imported.
    unfoldable pub import_first : String → List String → Result (EventsError E) (Module V Ty Args E)
    unfolding module_name
    import_first event_name [] = err (import_error event_name)
    import_first event_name (imp ∷ imps) =
        let rest = import_first event_name imps in
        elim (import_module (module_name (imp ∷ event_name ∷ []))) [ some m ↦ ok m | none ↦ rest ]

    -- `app_config.engine.import_modules`, or the name of the app where there are none.
    abbrev pub import_places : String → Option (List String) → List String
    import_places app_name none = app_name ∷ []
    import_places app_name (some []) = app_name ∷ []
    import_places app_name (some (imp ∷ imps)) = imp ∷ imps

    abbrev pub find_for :
        String
        → Option (List String)
        → String
        → Option String
        → Result (EventsError E) (Module V Ty Args E)
    find_for app_name imps event_name none = import_first event_name (import_places app_name imps)
    find_for app_name imps event_name (some String.[]) =
        import_first event_name (import_places app_name imps)
    find_for app_name imps event_name (some (String.◌∷◌ c s)) =
        imported (String.◌∷◌ c s) (import_module (String.◌∷◌ c s))

    unfoldable pub find_event_handler :
        String
        → Option (List String)
        → String
        → EventDescriptor
        → Result (EventsError E) (Module V Ty Args E)
    unfolding import_first
    find_event_handler app_name imps event_name info = find_for app_name imps event_name info.impl

  -- The fields of the handler for one event, once its module and its steps are known.
  abbrev pub add_event :
      String
      → String
      → Module V Ty Args E
      → List (StepName × Option (StepInfo V Ty Args E))
      → List (Step V Ty Args E)
      → EventHandler V Ty Args E
      → EventHandler V Ty Args E
  add_event event_name base_event m raw effective h = record {
    modules =
        insert base_event (record { impl = m; initialized = false; raw_steps = raw }) h.modules;
    steps = insert event_name effective h.steps;
    preprocess_handlers = insert base_event m.preprocess_step h.preprocess_handlers;
    postprocess_handlers = insert base_event m.postprocess_step h.postprocess_handlers;
    inits = h.inits;
  }

  module _ {S : Type 0} (import_module : String → Option (Module V Ty Args E)) (app_name : String)
      (imps : Option (List String)) (is_settings : S → Bool) (settings : Dict S) where
    -- One round of the loop.
    unfoldable pub load_module :
        String
        → EventDescriptor
        → EventHandler V Ty Args E
        → Result (EventsError E) (EventHandler V Ty Args E)
    unfolding find_event_handler event_and_step get_event_settings effective_steps insert
    load_module event_name info h =
        steps_result (event_and_step event_name) >>= λ (base : String × Option String).
        find_event_handler import_module app_name imps base.0 info >>= λ m.
        steps_result m.module_steps >>= λ raw.
        get_event_settings is_settings settings event_name >>= λ s.
        steps_result (effective_steps event_name raw) >>= λ effective.
        ok (add_event event_name base.0 m raw effective h)

    unfoldable pub load_modules :
        Dict EventDescriptor
        → EventHandler V Ty Args E
        → Result (EventsError E) (EventHandler V Ty Args E)
    unfolding load_module
    load_modules [] h = ok h
    load_modules ((event_name, info) ∷ events) h =
        load_module event_name info h >>= λ g. load_modules events g
