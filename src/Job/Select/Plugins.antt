-- ===== src/Job/Select/Plugins.antt =====
-- Which plugins `_plugins_for_app` of engine/src/hopeit/server/job.py finds.
use hopeit_engine.Common.{
  ◌≡◌, refl, sym, ap, subst, ◌∙◌, ◌⊎◌, inl, inr, Option, none, some, List, [], ◌∷◌, String, str_eq,
  Result, ok, err, ◌>>=◌, All, Any, map, false,
}
use hopeit_engine.Common.Dict.{Dict, lookup, insert, insert-lookup, insert-none}
use hopeit_engine.Config.Defs.{AppDescriptor}
use hopeit_engine.Job.Select.{
  AppConfig, JobError, event_not_found, found_in_multiple_apps, missing_plugin_config, steps_error,
  app_key, configs_by_key, with_plugin, resolve, plugins_for_app,
}

-- A config of the list with this key.
abbrev pub Listed : List AppConfig → String → AppConfig → Type 0
Listed configs key c = (app_key c.app ≡ key) × Any (λ d. c ≡ d) configs

-- No config of the list has this key.
abbrev pub Unlisted : List AppConfig → String → Type 0
Unlisted configs key = All (λ c. str_eq (app_key c.app) key ≡ false) configs

-- What a lookup by key finds, beside what was there before.
configs_by_key-found :
    (configs : List AppConfig) (d : Dict AppConfig) (key : String) (c : AppConfig)
    → lookup key (configs_by_key d configs) ≡ some c
    → Listed configs key c ⊎ (lookup key d ≡ some c)
unfolding configs_by_key
configs_by_key-found [] d key c e = inr e
configs_by_key-found (x ∷ configs) d key c e =
    elim (configs_by_key-found configs (insert (app_key x.app) x d) key c e) [
      | inl (same, found) ↦ inl (same, inr found)
      | inr here ↦ elim (insert-lookup (app_key x.app) key x c d here) [
        | inl (same, value) ↦
            inl (subst (λ (y : AppConfig). app_key y.app ≡ key) value same, inl (sym value))
        | inr before ↦ inr before
      ]
    ]

pub configs_by_key-none :
    (configs : List AppConfig) (d : Dict AppConfig) (key : String)
    → lookup key (configs_by_key d configs) ≡ none
    → Unlisted configs key × (lookup key d ≡ none)
unfolding configs_by_key
configs_by_key-none [] d key e = (tt, e)
configs_by_key-none (x ∷ configs) d key e =
    let (others, here) = configs_by_key-none configs (insert (app_key x.app) x d) key e in
    let (other, before) = insert-none (app_key x.app) key x d here in ((other, others), before)

-- The plugins of an app, found by their keys, or one that is missing.
abbrev pub Resolves :
    List AppConfig → List AppDescriptor → Result JobError (List AppConfig) → Type 0
Resolves configs plugins (ok found) =
    (map (λ c. app_key c.app) found ≡ map app_key plugins)
    × All (λ c. Any (λ d. c ≡ d) configs) found
Resolves configs plugins (err (missing_plugin_config key)) =
    Any (λ p. app_key p ≡ key) plugins × Unlisted configs key
Resolves configs plugins (err (event_not_found n)) = ⊥
Resolves configs plugins (err (found_in_multiple_apps n)) = ⊥
Resolves configs plugins (err (steps_error e)) = ⊥

found-Resolves :
    (configs : List AppConfig) (p : AppDescriptor) (plugins : List AppDescriptor) (c : AppConfig)
    (rest : Result JobError (List AppConfig))
    → Listed configs (app_key p) c
    → Resolves configs plugins rest
    → Resolves configs (p ∷ plugins) (rest >>= λ cs. ok (c ∷ cs))
found-Resolves configs p plugins c (ok found) (same, listed) (keys, all) = (
  ap (λ (ks : List String). app_key c.app ∷ ks) keys
      ∙ ap (λ (k : String). k ∷ map app_key plugins) same,
  (listed, all),
)
found-Resolves configs p plugins c (err (missing_plugin_config key)) h (missing, unlisted) =
    (inr missing, unlisted)
found-Resolves configs p plugins c (err (event_not_found n)) h r = absurd r
found-Resolves configs p plugins c (err (found_in_multiple_apps n)) h r = absurd r
found-Resolves configs p plugins c (err (steps_error e)) h r = absurd r

resolve-Resolves :
    (configs : List AppConfig) (plugins : List AppDescriptor)
    → Resolves configs plugins (resolve (configs_by_key [] configs) plugins)
unfolding resolve with_plugin lookup
resolve-Resolves configs [] = (refl, tt)
resolve-Resolves configs (p ∷ plugins) =
    by_key (lookup (app_key p) (configs_by_key [] configs)) refl (resolve-Resolves configs plugins)
  where
    by_key :
        (o : Option AppConfig)
        → lookup (app_key p) (configs_by_key [] configs) ≡ o
        → Resolves configs plugins (resolve (configs_by_key [] configs) plugins)
        → Resolves configs
            (p ∷ plugins)
            (with_plugin (app_key p) o (resolve (configs_by_key [] configs) plugins))
    by_key none e rest = (inl refl, (configs_by_key-none configs [] (app_key p) e).0)
    by_key (some c) e rest = elim (configs_by_key-found configs [] (app_key p) c e) [
      | inl listed ↦ found-Resolves configs p plugins c _ listed rest
      | inr before ↦ cc
    ]

-- The plugins of an app are found if each has a config with its key in the list: one config of the
-- list for each plugin, in the order of the plugins. Otherwise the error names the key of a plugin
-- that no config of the list has.
pub plugins_for_app-Resolves :
    (config : AppConfig) (configs : List AppConfig)
    → Resolves configs config.plugins (plugins_for_app config configs)
unfolding plugins_for_app
plugins_for_app-Resolves config configs = resolve-Resolves configs config.plugins
