-- ===== src/Job/Run/Planned.antt =====
-- `run_job` of engine/src/hopeit/server/job.py: what the parts of its plan are.
use hopeit_engine.Common.{
  Bool, true, false, Option, none, some, List, [], ◌∷◌, String, Result, ok, err, ◌≡◌, refl, ◌⊎◌,
  inl, inr, All, All-append, All-map, Any, ◌&&◌, Bool-cases,
}
use hopeit_engine.Common.Dict.{Dict, lookup}
use hopeit_engine.Config.Defs.{
  AppDescriptor, EventType, get, post, stream, service, multipart, setup, EventPlugMode, on_app,
  EventDescriptor,
}
use hopeit_engine.Job.Select.{AppConfig, JobError, app_key, plugins_for_app, configs_by_key}
use hopeit_engine.Job.Select.Plugins.{Unlisted, configs_by_key-none}
use hopeit_engine.Job.Run.{
  too_few_config_files, select_error, key_error, not_implemented, action_error, or_key_error,
  start_one, Action, start_server, stop_server, start_app, run_setup, execute_event, read_stream,
  RunError, Plan, is_setup, preparation, mode_passes, run_setup_events, run_event, run_found,
  start_apps, setup_plugins,
}

unfoldable pub sets_up : Action → Bool
sets_up start_server = false
sets_up stop_server = false
sets_up (start_app key) = true
sets_up (run_setup app plugin event_name) = true
sets_up (execute_event event_name) = false
sets_up (read_stream event_name) = false

module _ (event_name : String) (payload : Option String) (start_streams : Bool) where
  -- The actions that end a run for an event of a type, as far as it can be run.
  pub data Runs (type : EventType) : Action → Type 0 where
    executes :
        (type ≡ get) ⊎ (type ≡ post) ⊎ ((type ≡ stream) × (p : String) × (payload ≡ some p))
        → Runs type (execute_event event_name)
    reads :
        type ≡ stream → payload ≡ none → start_streams ≡ true → Runs type (read_stream event_name)

  -- Events of a type that cannot be run.
  abbrev pub Unsupported : EventType → Type 0
  Unsupported type =
      (type ≡ service)
      ⊎ (type ≡ multipart)
      ⊎ (type ≡ setup)
      ⊎ ((type ≡ stream) × (payload ≡ none) × (start_streams ≡ false))

  -- The last part of a run, by what the engine has under the name of the event.
  abbrev pub Ends : {X : Type 0} → Option EventDescriptor → Result (RunError X) Action → Type 0
  Ends info (ok a) = (i : EventDescriptor) × (info ≡ some i) × Runs i.event_type a
  Ends info (err e) =
      ((info ≡ none) × (e ≡ key_error event_name))
      ⊎ ((i : EventDescriptor) × (info ≡ some i)
          × Unsupported i.event_type
          × (e ≡ not_implemented event_name))

-- A part of a run that prepares the event: an action, or an error, which is that a plugin of one of
-- the apps is missing, or that no app has a key that is needed.
abbrev pub Prepares :
    {X : Type 0} → (all configs : List AppConfig) → Result (RunError X) Action → Type 0
Prepares all configs (ok a) = sets_up a ≡ true
Prepares all configs (err (select_error e)) = Any (λ c. plugins_for_app c all ≡ err e) configs
Prepares all configs (err (key_error key)) = Unlisted all key
Prepares all configs (err too_few_config_files) = ⊥
Prepares all configs (err (not_implemented n)) = ⊥
Prepares all configs (err (action_error x)) = ⊥

module _ (X : Type 0) (all : List AppConfig) where
  Prepares-more :
      (config : AppConfig) (configs : List AppConfig) (entry : Result (RunError X) Action)
      → Prepares all configs entry
      → Prepares all (config ∷ configs) entry
  Prepares-more config configs (ok a) h = h
  Prepares-more config configs (err (select_error e)) h = inr h
  Prepares-more config configs (err (key_error key)) h = h
  Prepares-more config configs (err too_few_config_files) h = h
  Prepares-more config configs (err (not_implemented n)) h = h
  Prepares-more config configs (err (action_error x)) h = h

  run_setup_events-Prepares :
      (configs : List AppConfig) (app : String) (plugin : Option String)
      (mode : Option EventPlugMode) (events : Dict EventDescriptor)
      → All (Prepares {X = X} all configs) (run_setup_events app plugin mode events)
  unfolding run_setup_events sets_up
  run_setup_events-Prepares configs app plugin mode [] = tt
  run_setup_events-Prepares configs app plugin mode ((name, info) ∷ events) =
      let rest = run_setup_events-Prepares configs app plugin mode events in
      elim (Bool-cases (is_setup info.event_type && mode_passes mode info.plug_mode)) [
        | inl y ↦ rw y (refl, rest)
        | inr n ↦ rw n rest
      ]

  -- What is found under a key, or the error that no app has it.
  or_key_error-Prepares :
      (configs : List AppConfig) (key : String) (o : Option AppConfig) (f : AppConfig → Plan X)
      → lookup key (configs_by_key [] all) ≡ o
      → ((a : AppConfig) → All (Prepares {X = X} all configs) (f a))
      → All (Prepares {X = X} all configs) (or_key_error key o f)
  or_key_error-Prepares configs key none f q h = ((configs_by_key-none all [] key q).0, tt)
  or_key_error-Prepares configs key (some a) f q h = h a

  module _ (effective_events : AppConfig → Dict EventDescriptor) where
    start_one-Prepares :
        (config : AppConfig) (configs : List AppConfig) (plugins : Result JobError (List AppConfig))
        → plugins_for_app config all ≡ plugins
        → All (Prepares {X = X} all (config ∷ configs)) (start_one effective_events config plugins)
    unfolding sets_up
    start_one-Prepares config configs (err e) q = (inl q, tt)
    start_one-Prepares config configs (ok plugins) q = (
      refl,
      run_setup_events-Prepares (config ∷ configs) (app_key config.app) none none
          (effective_events config),
    )

    start_apps-Prepares :
        (configs : List AppConfig)
        → All (Prepares {X = X} all configs) (start_apps effective_events all configs)
    unfolding start_apps
    start_apps-Prepares [] = tt
    start_apps-Prepares (config ∷ configs) =
        All-append (Prepares all (config ∷ configs))
          (start_one effective_events config (plugins_for_app config all))
          (start_apps effective_events all configs)
          (start_one-Prepares config configs (plugins_for_app config all) refl)
          (All-map (Prepares all configs) (Prepares all (config ∷ configs))
            (start_apps effective_events all configs) (Prepares-more config configs)
            (start_apps-Prepares configs))

    setup_plugins-Prepares :
        (configs : List AppConfig) (owner : String) (plugins : List AppDescriptor)
        → All
            (Prepares {X = X} all configs)
            (setup_plugins effective_events owner (configs_by_key [] all) plugins)
    unfolding setup_plugins
    setup_plugins-Prepares configs owner [] = tt
    setup_plugins-Prepares configs owner (plugin ∷ plugins) =
        All-append (Prepares all configs) _
          (setup_plugins effective_events owner (configs_by_key [] all) plugins)
          (or_key_error-Prepares configs (app_key plugin)
            (lookup (app_key plugin) (configs_by_key [] all))
            (λ config.
              run_setup_events owner (some (app_key plugin)) (some on_app)
                (effective_events config))
            refl
            (λ config.
              run_setup_events-Prepares configs owner (some (app_key plugin)) (some on_app)
                (effective_events config)))
          (setup_plugins-Prepares configs owner plugins)

    -- All of the plan but the last part.
    pub preparation-Prepares :
        (owner : AppConfig) (engine : Option AppConfig)
        → lookup (app_key owner.app) (configs_by_key [] all) ≡ engine
        → All (Prepares {X = X} all all) (preparation effective_events all owner engine)
    unfolding preparation
    preparation-Prepares owner engine q =
        All-append (Prepares all all) (start_apps effective_events all all) _
          (start_apps-Prepares all)
          (or_key_error-Prepares all (app_key owner.app) engine
            (λ config.
              setup_plugins effective_events (app_key config.app) (configs_by_key [] all)
                owner.plugins)
            q (λ config. setup_plugins-Prepares all (app_key config.app) owner.plugins))

module _ (X : Type 0) (event_name : String) where
  run_event-Ends :
      (payload : Option String) (start_streams : Bool) (type : EventType) (i : EventDescriptor)
      → i.event_type ≡ type
      → Ends event_name payload start_streams {X = X}
          (some i)
          (run_event event_name payload start_streams type)
  unfolding run_event
  run_event-Ends payload start_streams get i q = (i, refl, executes (inl q))
  run_event-Ends payload start_streams post i q = (i, refl, executes (inr (inl q)))
  run_event-Ends (some p) start_streams stream i q = (i, refl, executes (inr (inr (q, p, refl))))
  run_event-Ends none true stream i q = (i, refl, reads q refl refl)
  run_event-Ends none false stream i q = inr (i, refl, inr (inr (inr (q, refl, refl))), refl)
  run_event-Ends payload start_streams service i q = inr (i, refl, inl q, refl)
  run_event-Ends payload start_streams multipart i q = inr (i, refl, inr (inl q), refl)
  run_event-Ends payload start_streams setup i q = inr (i, refl, inr (inr (inl q)), refl)

  pub run_found-Ends :
      (payload : Option String) (start_streams : Bool) (info : Option EventDescriptor)
      → Ends event_name payload start_streams {X = X} info
          (run_found event_name payload start_streams info)
  unfolding run_found
  run_found-Ends payload start_streams none = inl (refl, refl)
  run_found-Ends payload start_streams (some i) =
      run_event-Ends payload start_streams i.event_type i refl
