-- ===== src/Job/Run/Stops.antt =====
-- `run_job` of engine/src/hopeit/server/job.py: when the server is stopped, and what is done before.
use hopeit_engine.Common.{Bool, true, Option, List, [], ◌∷◌, String, Result, ok, err, ◌≡◌, ◌⊎◌, Any}
use hopeit_engine.Common.Dict.{Dict, lookup}
use hopeit_engine.Config.Defs.{EventDescriptor}
use hopeit_engine.Job.Select.{AppConfig, JobError, app_key, select_app_config, configs_by_key}
use hopeit_engine.Job.Run.Planned.{sets_up, Prepares, Ends}
use hopeit_engine.Job.Run.{
  Action, start_server, stop_server, RunError, too_few_config_files, select_error, action_error,
  Plan, owner_events, job_plan, returned, Ran, load_app_configs,
}

-- The run of a plan that prepares an event and ends with what the engine has for it, `info`.
module _ {X P : Type 0} (perform : List Action → Action → Result X (Option P))
    (all : List AppConfig) (event_name : String) (payload : Option String) (start_streams : Bool)
    (info : Option EventDescriptor) (plan : Plan X) where
  -- The server was started, and then all of the plan but the given rest was done without an error.
  pub data Begun : Plan X → List Action → Type 0 where
    started : (v : Option P) → perform [] start_server ≡ ok v → Begun plan (start_server ∷ [])
    prepared :
        (rest : Plan X) (log : List Action) (a : Action) (v : Option P)
        → Begun (ok a ∷ rest) log
        → sets_up a ≡ true
        → perform log a ≡ ok v
        → Begun rest (a ∷ log)

  -- A part of the plan, which is the last one if nothing is left.
  abbrev pub Part : Plan X → Result (RunError X) Action → Type 0
  Part rest entry =
      Prepares all all entry
      ⊎ ((rest ≡ []) × Ends event_name payload start_streams {X = X} info entry)

  -- What was done when the server is to be stopped, and the outcome until then: an error of the plan,
  -- the error of an action, or the result of the last one.
  pub data Inside : List Action → Result (RunError X) (Option P) → Type 0 where
    raised :
        (rest : Plan X) (log : List Action) (e : RunError X)
        → Begun (err e ∷ rest) log
        → Part rest (err e)
        → Inside log (err e)
    failed :
        (rest : Plan X) (log : List Action) (a : Action) (x : X)
        → Begun (ok a ∷ rest) log
        → Part rest (ok a)
        → perform log a ≡ err x
        → Inside (a ∷ log) (err (action_error x))
    completed :
        (log : List Action) (a : Action) (v : Option P)
        → Begun (ok a ∷ []) log
        → Ends event_name payload start_streams {X = X} info (ok a)
        → perform log a ≡ ok v
        → Inside (a ∷ log) (ok (returned a v))

  pub data WithServer : Ran X P → Type 0 where
    start_failed :
        (x : X)
        → perform [] start_server ≡ err x
        → WithServer (start_server ∷ [], err (action_error x))
    stop_failed :
        (log : List Action) (r : Result (RunError X) (Option P)) (x : X)
        → Inside log r
        → perform log stop_server ≡ err x
        → WithServer (stop_server ∷ log, err (action_error x))
    stopped :
        (log : List Action) (r : Result (RunError X) (Option P)) (v : Option P)
        → Inside log r
        → perform log stop_server ≡ ok v
        → WithServer (stop_server ∷ log, r)

module _ {X P S : Type 0} (perform : List Action → Action → Result X (Option P))
    (load_engine_config : String → Result X S) (load_app_config : String → Result X AppConfig)
    (effective_events : AppConfig → Dict EventDescriptor) (config_files : List String)
    (event_name : String) (payload : Option String) (start_streams : Bool) where
  -- Why no app is selected: there are too few files, one cannot be read, or no single app has the
  -- event.
  pub data Unselected : RunError X → Type 0 where
    too_few :
        (config_files ≡ []) ⊎ ((server : String) × (config_files ≡ server ∷ []))
        → Unselected too_few_config_files
    unreadable :
        (server : String) (paths : List String) (x : X)
        → config_files ≡ server ∷ paths
        → (load_engine_config server ≡ err x) ⊎ Any (λ path. load_app_config path ≡ err x) paths
        → Unselected (action_error x)
    unselected :
        (server : String) (paths : List String) (all : List AppConfig) (e : JobError)
        → config_files ≡ server ∷ paths
        → load_app_configs load_app_config paths ≡ ok all
        → select_app_config all event_name ≡ err e
        → Unselected (select_error e)

  -- What the engine of the app that owns the event has under its name.
  abbrev pub info_of : List AppConfig → AppConfig → Option EventDescriptor
  info_of all owner =
      lookup event_name
        (owner_events effective_events (lookup (app_key owner.app) (configs_by_key [] all)))

  pub data Stops : Ran X P → Type 0 where
    not_started : (e : RunError X) → Unselected e → Stops ([], err e)
    selected :
        (server : String) (paths : List String) (all : List AppConfig) (owner : AppConfig)
        (r : Ran X P)
        → config_files ≡ server ∷ paths
        → load_app_configs load_app_config paths ≡ ok all
        → select_app_config all event_name ≡ ok owner
        → WithServer perform all event_name payload start_streams
            (info_of all owner)
            (job_plan effective_events event_name payload start_streams all owner)
            r
        → Stops r
