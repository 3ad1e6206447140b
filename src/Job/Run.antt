-- ===== src/Job/Run.antt =====
-- `run_job` of engine/src/hopeit/server/job.py: the server, the apps and their setup events are
-- started in order, the event is executed or its stream is read, and the server is stopped. What
-- each of these calls does is a parameter, by its outcome; the actions that were begun are logged.
pub mod Planned
pub mod Stops
use hopeit_engine.Common.{
  Bool, true, false, ◌&&◌, Option, none, some, List, [], ◌∷◌, ◌++◌, String, Result, ok, err,
  if◌then◌else◌, ◌>>=◌,
}
use hopeit_engine.Common.Dict.{Dict, lookup}
use hopeit_engine.Config.Defs.{
  AppDescriptor, EventType, get, post, stream, service, multipart, setup, EventPlugMode, same_mode,
  standalone, on_app, EventDescriptor,
}
use hopeit_engine.Job.Select.{
  AppConfig, JobError, app_key, select_app_config, plugins_for_app, configs_by_key,
}

-- What the job awaits: a setup event runs for an app, by the engine of the app or of a plugin.
pub data Action : Type 0 where
  start_server stop_server : Action
  start_app : String → Action
  run_setup : String → Option String → String → Action
  execute_event read_stream : String → Action

-- The exceptions; an action raises those of its own.
pub data RunError (X : Type 0) : Type 0 where
  too_few_config_files : RunError X
  select_error : JobError → RunError X
  key_error not_implemented : String → RunError X
  action_error : X → RunError X

-- A part of the run: an action, or an exception at that point.
abbrev pub Plan : Type 0 → Type 0
Plan X = List (Result (RunError X) Action)

abbrev pub is_setup : EventType → Bool
is_setup setup = true
is_setup get = false
is_setup post = false
is_setup stream = false
is_setup service = false
is_setup multipart = false

-- `not (plug_mode and event_info.plug_mode != plug_mode)`
abbrev pub mode_passes : Option EventPlugMode → EventPlugMode → Bool
mode_passes none m = true
mode_passes (some p) m = same_mode m p

-- The events of the engine of the app that owns the event.
abbrev pub owner_events :
    (AppConfig → Dict EventDescriptor) → Option AppConfig → Dict EventDescriptor
owner_events effective_events none = []
owner_events effective_events (some config) = effective_events config

module _ {X : Type 0} where
  -- `_run_setup_events`, for the events of an engine.
  unfoldable pub run_setup_events :
      String → Option String → Option EventPlugMode → Dict EventDescriptor → Plan X
  run_setup_events app plugin mode [] = []
  run_setup_events app plugin mode ((name, info) ∷ events) =
      let rest = run_setup_events app plugin mode events in
      if is_setup info.event_type && mode_passes mode info.plug_mode
      then ok (run_setup app plugin name) ∷ rest
      else rest

  abbrev pub select_result {ℓ} : {A : Type ℓ} → Result JobError A → Result (RunError X) A
  select_result (ok a) = ok a
  select_result (err e) = err (select_error e)

  -- What may be an exception, as a part of the run.
  abbrev pub or_key_error {ℓ} : {A : Type ℓ} → String → Option A → (A → Plan X) → Plan X
  or_key_error key none f = err (key_error key) ∷ []
  or_key_error key (some a) f = f a

  -- The end of the run, for an event of a type: GET and POST events are executed, and so are STREAM
  -- events that are given a payload; the stream is read otherwise.
  unfoldable pub run_event :
      (event_name : String) (payload : Option String) (start_streams : Bool)
      → EventType
      → Result (RunError X) Action
  run_event event_name payload start_streams get = ok (execute_event event_name)
  run_event event_name payload start_streams post = ok (execute_event event_name)
  run_event event_name (some p) start_streams stream = ok (execute_event event_name)
  run_event event_name none start_streams stream =
      if start_streams then ok (read_stream event_name) else err (not_implemented event_name)
  run_event event_name payload start_streams service = err (not_implemented event_name)
  run_event event_name payload start_streams multipart = err (not_implemented event_name)
  run_event event_name payload start_streams setup = err (not_implemented event_name)

  -- `event_info = app_engine.effective_events[event_name]` and the end of the run.
  unfoldable pub run_found :
      (event_name : String) (payload : Option String) (start_streams : Bool)
      → Option EventDescriptor
      → Result (RunError X) Action
  unfolding run_event
  run_found event_name payload start_streams none = err (key_error event_name)
  run_found event_name payload start_streams (some info) =
      run_event event_name payload start_streams info.event_type

  module _ (effective_events : AppConfig → Dict EventDescriptor) where
    -- The engine of an app is made with its plugins, is started, and its setup events run.
    abbrev pub start_one : AppConfig → Result JobError (List AppConfig) → Plan X
    start_one config (err e) = err (select_error e) ∷ []
    start_one config (ok plugins) =
        ok (start_app (app_key config.app))
        ∷ run_setup_events (app_key config.app) none none (effective_events config)

    unfoldable pub start_apps : (all configs : List AppConfig) → Plan X
    unfolding run_setup_events
    start_apps all [] = []
    start_apps all (config ∷ configs) =
        start_one config (plugins_for_app config all) ++ start_apps all configs

    -- The setup events of the plugins of the app that owns the event.
    unfoldable pub setup_plugins : String → Dict AppConfig → List AppDescriptor → Plan X
    unfolding run_setup_events
    setup_plugins owner engines [] = []
    setup_plugins owner engines (plugin ∷ plugins) =
        or_key_error (app_key plugin) (lookup (app_key plugin) engines) (λ config.
          run_setup_events owner (some (app_key plugin)) (some on_app) (effective_events config))
        ++ setup_plugins owner engines plugins

    -- The engines of the apps are found by their keys, where the last of two configurations with one
    -- key counts.
    unfoldable pub preparation : List AppConfig → AppConfig → Option AppConfig → Plan X
    unfolding start_apps setup_plugins
    preparation all owner engine =
        start_apps all all
        ++ or_key_error (app_key owner.app) engine
            (λ config. setup_plugins (app_key config.app) (configs_by_key [] all) owner.plugins)

    -- What runs between the start of the server and its stop.
    unfoldable pub job_plan :
        (event_name : String) (payload : Option String) (start_streams : Bool)
        (all : List AppConfig) (owner : AppConfig)
        → Plan X
    unfolding preparation run_found
    job_plan event_name payload start_streams all owner =
        let engine = lookup (app_key owner.app) (configs_by_key [] all) in
        preparation all owner engine
        ++ (run_found event_name payload start_streams
              (lookup event_name (owner_events effective_events engine))
            ∷ [])

-- What an action returns to the caller of the job: only an executed event returns a payload.
abbrev pub returned {ℓ} : {P : Type ℓ} → Action → Option P → Option P
returned start_server v = none
returned stop_server v = none
returned (start_app key) v = none
returned (run_setup app plugin event_name) v = none
returned (execute_event event_name) v = v
returned (read_stream event_name) v = none

-- The actions that were begun, the last one first, and the outcome.
abbrev pub Ran : Type 0 → Type 0 → Type 0
Ran X P = List Action × Result (RunError X) (Option P)

unfoldable pub load_app_configs :
    {X : Type 0} → (String → Result X AppConfig) → List String → Result X (List AppConfig)
load_app_configs load_app_config [] = ok []
load_app_configs load_app_config (path ∷ paths) =
    let rest = load_app_configs load_app_config paths in
    load_app_config path >>= λ config. rest >>= λ configs. ok (config ∷ configs)

module _ {X P : Type 0} (perform : List Action → Action → Result X (Option P)) where
  unfoldable pub run_plan : Plan X → (log : List Action) → Option P → Ran X P
  run_plan [] log v = (log, ok v)
  run_plan (err e ∷ plan) log v = (log, err e)
  run_plan (ok a ∷ plan) log v = elim (perform log a) [
    | err x ↦ (a ∷ log, err (action_error x))
    | ok w ↦ run_plan plan (a ∷ log) (returned a w)
  ]

  -- `finally`: an exception of the stop takes the place of the outcome.
  unfoldable pub stop_after : Ran X P → Ran X P
  stop_after (log, r) = elim (perform log stop_server) [
    | err x ↦ (stop_server ∷ log, err (action_error x))
    | ok w ↦ (stop_server ∷ log, r)
  ]

  -- The server is started outside of the `try`: when that fails it is not stopped.
  unfoldable pub with_server : Plan X → Ran X P
  unfolding run_plan stop_after
  with_server plan = elim (perform [] start_server) [
    | err x ↦ (start_server ∷ [], err (action_error x))
    | ok w ↦ stop_after (run_plan plan (start_server ∷ []) none)
  ]

  module _ (effective_events : AppConfig → Dict EventDescriptor) where
    unfoldable pub run_selected :
        (event_name : String) (payload : Option String) (start_streams : Bool)
        → List AppConfig
        → Result JobError AppConfig
        → Ran X P
    unfolding job_plan with_server
    run_selected event_name payload start_streams all (err e) = ([], err (select_error e))
    run_selected event_name payload start_streams all (ok owner) =
        with_server (job_plan effective_events event_name payload start_streams all owner)

    unfoldable pub run_loaded :
        (event_name : String) (payload : Option String) (start_streams : Bool)
        → Result X (List AppConfig)
        → Ran X P
    unfolding run_selected
    run_loaded event_name payload start_streams (err x) = ([], err (action_error x))
    run_loaded event_name payload start_streams (ok all) =
        run_selected event_name payload start_streams all (select_app_config all event_name)

  module _ {S : Type 0} (load_engine_config : String → Result X S)
      (load_app_config : String → Result X AppConfig)
      (effective_events : AppConfig → Dict EventDescriptor) where
    -- The configurations are read, but for the track headers that the track ids of the job add to
    -- them.
    unfoldable pub run_job :
        (config_files : List String) (event_name : String) (payload : Option String)
        (start_streams : Bool)
        → Ran X P
    unfolding load_app_configs run_loaded
    run_job [] event_name payload start_streams = ([], err too_few_config_files)
    run_job (server ∷ []) event_name payload start_streams = ([], err too_few_config_files)
    run_job (server ∷ path ∷ paths) event_name payload start_streams =
        run_loaded effective_events event_name payload start_streams
          (load_engine_config server >>= λ s. load_app_configs load_app_config (path ∷ paths))
