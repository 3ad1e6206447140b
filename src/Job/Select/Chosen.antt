-- ===== src/Job/Select/Chosen.antt =====
-- Which configs `_select_app_config` and `_plugins_for_app` of engine/src/hopeit/server/job.py choose.
use hopeit_engine.Common.{
  ◌≡◌, refl, ap, subst, ◌∙◌, inl, inr, Bool-cases, true, false, Option, List, [], ◌∷◌, ◌++◌, String,
  Result, ok, err, All,
}
use hopeit_engine.Steps.Names.{event_and_step}
use hopeit_engine.Job.Select.{
  AppConfig, JobError, event_not_found, found_in_multiple_apps, missing_plugin_config, steps_error,
  owns, matches, single, select_for, select_app_config,
}

-- The first of the matches, with the configs before it, which do not match.
FirstOwner : String → List AppConfig → List AppConfig → Type 0
FirstOwner base configs [] = All (λ d. owns base d ≡ false) configs
FirstOwner base configs (c ∷ cs) =
    (before : List AppConfig) × (rest : List AppConfig) × (configs ≡ before ++ c ∷ rest)
    × (owns base c ≡ true)
    × All (λ d. owns base d ≡ false) before
    × (matches base rest ≡ cs)

FirstOwner-next :
    (base : String) (c : AppConfig) (configs ms : List AppConfig)
    → owns base c ≡ false
    → FirstOwner base configs ms
    → FirstOwner base (c ∷ configs) ms
unfolding FirstOwner
FirstOwner-next base c configs [] other all = (other, all)
FirstOwner-next base c configs (m ∷ ms) other (before, rest, cut, own, none_before, later) =
    (c ∷ before, rest, ap (◌∷◌ c) cut, own, (other, none_before), later)

matches-FirstOwner :
    (base : String) (configs : List AppConfig) → FirstOwner base configs (matches base configs)
unfolding FirstOwner matches
matches-FirstOwner base [] = tt
matches-FirstOwner base (c ∷ configs) = elim (Bool-cases (owns base c)) [
  | inl own ↦ rw own ([], configs, refl, own, tt, refl)
  | inr other ↦ rw other (
      FirstOwner-next base c configs (matches base configs) other (matches-FirstOwner base configs))
]

-- The one config that owns the event; none that does; or two that do.
abbrev pub Selects : String → String → List AppConfig → Result JobError AppConfig → Type 0
Selects event_name base configs (ok c) =
    (before : List AppConfig) × (after : List AppConfig) × (configs ≡ before ++ c ∷ after)
    × (owns base c ≡ true)
    × All (λ d. owns base d ≡ false) before
    × All (λ d. owns base d ≡ false) after
Selects event_name base configs (err (event_not_found n)) =
    (n ≡ event_name) × All (λ d. owns base d ≡ false) configs
Selects event_name base configs (err (found_in_multiple_apps n)) =
    (n ≡ event_name)
    × ((before : List AppConfig) × (c : AppConfig) × (between : List AppConfig) × (d : AppConfig)
        × (after : List AppConfig) × (configs ≡ before ++ c ∷ (between ++ d ∷ after))
        × (owns base c ≡ true)
        × (owns base d ≡ true))
Selects event_name base configs (err (missing_plugin_config n)) = ⊥
Selects event_name base configs (err (steps_error e)) = ⊥

single-Selects :
    (event_name base : String) (configs ms : List AppConfig)
    → FirstOwner base configs ms
    → Selects event_name base configs (single event_name ms)
unfolding FirstOwner single
single-Selects event_name base configs [] all = (refl, all)
single-Selects event_name base configs (c ∷ []) (before, rest, cut, own, none_before, later) =
    (before, rest, cut, own, none_before, behind)
  where
    behind : All (λ d. owns base d ≡ false) rest
    behind = subst (FirstOwner base rest) later (matches-FirstOwner base rest)
single-Selects event_name base configs (c ∷ d ∷ ms) (before, rest, cut, own, none_before, later) =
    two (subst (FirstOwner base rest) later (matches-FirstOwner base rest))
  where
    two :
        FirstOwner base rest (d ∷ ms)
        → Selects event_name base configs (err (found_in_multiple_apps event_name))
    two (between, after, cut', own', x, y) = (
      refl,
      (
        before,
        c,
        between,
        d,
        after,
        cut ∙ ap (λ (t : List AppConfig). before ++ c ∷ t) cut',
        own,
        own',
      ),
    )

-- For an event name of a base event, a config is selected exactly if it is the only one with that
-- event; the errors say that none has it, or that two have it.
pub select_app_config-Selects :
    (configs : List AppConfig) (event_name base : String) (step : Option String)
    → event_and_step event_name ≡ ok (base, step)
    → Selects event_name base configs (select_app_config configs event_name)
unfolding select_app_config select_for
select_app_config-Selects configs event_name base step e = rw e (
    single-Selects event_name base configs (matches base configs) (matches-FirstOwner base configs))
