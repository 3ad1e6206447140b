-- ===== src/Job/Tests.antt =====
-- Runs of the arguments of a job, of the selection of an app and of a job in engine/src/hopeit/server/job.py.
use hopeit_engine.Common.{
  Bool, false, Option, some, String, ◌≡◌, refl, none, List, [], ◌∷◌, ok, err, Result,
}
use hopeit_engine.Common.Dict.{lookup, insert}
use hopeit_engine.Names.{auto_path}
use hopeit_engine.Config.Defs.{AppDescriptor, event_descriptor, setup, get, stream, on_app}
use hopeit_engine.Steps.Names.{event_and_step}
use hopeit_engine.Job.Arguments.{
  Loaded, object, scalar, null, parse_json_kv_payload, parse_track_ids,
}
use hopeit_engine.Job.Arguments.Tracked.{Tracked, parse_track_ids-Tracked}
use hopeit_engine.Job.Run.{
  Action, start_server, stop_server, start_app, run_setup, execute_event, read_stream, run_job,
  run_plan, stop_after, with_server, run_selected, run_loaded, load_app_configs, job_plan,
  preparation, start_apps, setup_plugins, run_setup_events, run_found, run_event, Ran,
}
use hopeit_engine.Job.Run.Stops.{Stops}
use hopeit_engine.Job.Select.{
  app_key, select_for, matches, owns, single, configs_by_key, resolve, with_plugin, AppConfig,
  select_app_config, plugins_for_app,
}
use hopeit_engine.Job.Select.Chosen.{Selects, select_app_config-Selects}
use hopeit_engine.Job.Select.Plugins.{Resolves, plugins_for_app-Resolves}

abbrev auth_app : AppDescriptor
auth_app = record { name = "basic-auth"; version = "0.1" }

abbrev auth_config : AppConfig
auth_config = record {
  app = auth_app;
  plugins = [];
  events = ("login", event_descriptor setup) ∷ [];
}

abbrev main_config : AppConfig
main_config = record {
  app = record { name = "simple-example"; version = "1.0" };
  plugins = auth_app ∷ [];
  events = ("start", event_descriptor setup) ∷ [];
}

abbrev all_configs : List AppConfig
all_configs = main_config ∷ auth_config ∷ []

start_event_name : event_and_step "start" ≡ ok ("start", none)
unfolding event_and_step
start_event_name = refl

select_app_config-Selects_example :
    Selects "start" "start" all_configs (select_app_config all_configs "start")
select_app_config-Selects_example =
    select_app_config-Selects all_configs "start" "start" none start_event_name

plugins_for_app-Resolves_example :
    Resolves all_configs main_config.plugins (plugins_for_app main_config all_configs)
plugins_for_app-Resolves_example = plugins_for_app-Resolves main_config all_configs

-- The one object that is read, whatever the text.
abbrev loads : String → Option Loaded
loads payload = some (object (("request_id", scalar "7") ∷ ("track.session", null) ∷ []))

parse_track_ids-Tracked_example :
    Tracked "track.request_id"
      (parse_json_kv_payload loads (some "{}") "track")
      (parse_track_ids loads (some "{}"))
parse_track_ids-Tracked_example = parse_track_ids-Tracked loads (some "{}") "track.request_id"

-- A plugin with a setup event that is meant for the apps that use the plugin.
abbrev plugin_config : AppConfig
plugin_config = record {
  app = auth_app;
  plugins = [];
  events = ("init", record (event_descriptor setup) { plug_mode = on_app }) ∷ [];
}

abbrev user_config : AppConfig
user_config = record {
  app = record { name = "shop"; version = "1" };
  plugins = auth_app ∷ [];
  events = ("list", event_descriptor get) ∷ ("watch", event_descriptor stream) ∷ [];
}

abbrev loaded : String → Result String AppConfig
loaded path = elim (lookup path (("auth.json", plugin_config) ∷ ("shop.json", user_config) ∷ [])) [
  | none ↦ err path
  | some config ↦ ok config
]

-- Every action succeeds, and an executed event returns its name.
abbrev succeeds : List Action → Action → Result String (Option String)
succeeds log (execute_event event_name) = ok (some event_name)
succeeds log start_server = ok none
succeeds log stop_server = ok none
succeeds log (start_app key) = ok none
succeeds log (run_setup app plugin event_name) = ok none
succeeds log (read_stream event_name) = ok none

abbrev job_files : List String
job_files = "server.json" ∷ "auth.json" ∷ "shop.json" ∷ []

abbrev job : String → Option String → Bool → Ran String String
unfolding run_job
job event_name payload start_streams =
    run_job succeeds (λ path. ok path) loaded (λ config. config.events) job_files event_name payload
      start_streams

-- The setup event of the plugin runs twice: by the plugin alone, and for the app.
job_list : job "list" none false ≡ (
  stop_server
      ∷ execute_event "list"
      ∷ run_setup "shop.1" (some "basic_auth.0x1") "init"
      ∷ start_app "shop.1"
      ∷ run_setup "basic_auth.0x1" none "init"
      ∷ start_app "basic_auth.0x1"
      ∷ start_server
      ∷ [],
  ok (some "list"),
)
unfolding run_job run_loaded run_selected with_server stop_after run_plan job_plan preparation
    start_apps setup_plugins run_setup_events run_found run_event load_app_configs select_app_config
    select_for matches single event_and_step configs_by_key plugins_for_app resolve app_key
    with_plugin auto_path lookup owns insert
job_list = refl
