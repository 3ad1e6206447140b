-- ===== src/Job/Select.antt =====
-- `_select_app_config` and `_plugins_for_app` of engine/src/hopeit/server/job.py, on the parts of
-- AppConfig that they read.
pub mod Chosen
pub mod Plugins
use hopeit_engine.Common.{
  Bool, true, false, Option, none, some, List, [], ◌∷◌, String, Result, ok, err, ◌>>=◌,
  if◌then◌else◌,
}
use hopeit_engine.Common.Dict.{Dict, lookup, insert}
use hopeit_engine.Names.{auto_path}
use hopeit_engine.Config.Defs.{AppDescriptor, EventDescriptor}
use hopeit_engine.Steps.Defs.{StepsError}
use hopeit_engine.Steps.Names.{event_and_step}

pub record AppConfig : Type 0 where
  pub app : AppDescriptor
  pub plugins : List AppDescriptor
  pub events : Dict EventDescriptor

-- The exceptions: a ValueError of one of three kinds, or the one of `event_and_step`.
pub data JobError : Type 0 where
  event_not_found found_in_multiple_apps missing_plugin_config : String → JobError
  steps_error : StepsError → JobError

-- `AppDescriptor.app_key()`
unfoldable pub app_key : AppDescriptor → String
app_key a = auto_path (a.name ∷ a.version ∷ [])

-- `base_event in config.events`
unfoldable pub owns : String → AppConfig → Bool
owns base_event config = elim (lookup base_event config.events) [ none ↦ false | some e ↦ true ]

unfoldable pub matches : String → List AppConfig → List AppConfig
matches base_event [] = []
matches base_event (c ∷ configs) =
    let rest = matches base_event configs in if owns base_event c then c ∷ rest else rest

unfoldable pub single : String → List AppConfig → Result JobError AppConfig
single event_name [] = err (event_not_found event_name)
single event_name (c ∷ []) = ok c
single event_name (c ∷ d ∷ configs) = err (found_in_multiple_apps event_name)

unfoldable pub select_for :
    List AppConfig → String → Result StepsError (String × Option String) → Result JobError AppConfig
unfolding single matches
select_for configs event_name (err e) = err (steps_error e)
select_for configs event_name (ok (base_event, step)) =
    single event_name (matches base_event configs)

unfoldable pub select_app_config : List AppConfig → String → Result JobError AppConfig
unfolding select_for
select_app_config configs event_name = select_for configs event_name (event_and_step event_name)

-- `{config.app_key(): config for config in app_configs}`, after the items so far.
unfoldable pub configs_by_key : Dict AppConfig → List AppConfig → Dict AppConfig
configs_by_key d [] = d
configs_by_key d (c ∷ configs) = configs_by_key (insert (app_key c.app) c d) configs

unfoldable pub with_plugin :
    String → Option AppConfig → Result JobError (List AppConfig) → Result JobError (List AppConfig)
with_plugin key none rest = err (missing_plugin_config key)
with_plugin key (some c) rest = rest >>= λ cs. ok (c ∷ cs)

unfoldable pub resolve : Dict AppConfig → List AppDescriptor → Result JobError (List AppConfig)
unfolding with_plugin
resolve by_key [] = ok []
resolve by_key (p ∷ plugins) =
    with_plugin (app_key p) (lookup (app_key p) by_key) (resolve by_key plugins)

unfoldable pub plugins_for_app : AppConfig → List AppConfig → Result JobError (List AppConfig)
unfolding resolve configs_by_key
plugins_for_app config configs = resolve (configs_by_key [] configs) config.plugins
