-- ===== src/Steps/Effective.antt =====
-- `effective_steps` of engine/src/hopeit/server/steps.py: the steps of one stage of an event.
use hopeit_engine.Common.{
  ℕ, suc, ◌≡◌, refl, ap, Bool, false, Bool-cases, inl, inr, Option, none, some, List, [], ◌∷◌, map,
  String, str_eq, Result, ok, err, ◌>>=◌, if◌then◌else◌,
}
use hopeit_engine.Steps.Defs.{
  StepName, named, collector, StepInfo, Step, StepsError, assertion_error,
}
use hopeit_engine.Steps.Names.{shuffle, event_and_step}

-- `step_name == s` for a string `s`; a collector is equal to none.
abbrev pub name_is : String → StepName → Bool
name_is s (named n) = str_eq n s
name_is s (collector n) = false

abbrev pub is_shuffle : StepName → Bool
is_shuffle = name_is shuffle

module _ {V Ty Args E : Type 0} where
  -- An entry of the result, once `assert step_info` has passed.
  numbered :
      ℕ
      → StepName
      → Option (StepInfo V Ty Args E)
      → Result StepsError (List (Step V Ty Args E))
      → Result StepsError (List (Step V Ty Args E))
  numbered i name none rest = err assertion_error
  numbered i name (some info) rest = rest >>= λ steps. ok ((i, name, info) ∷ steps)

  -- The loop once the first step is found: up to the next SHUFFLE.
  collect :
      ℕ
      → List (StepName × Option (StepInfo V Ty Args E))
      → Result StepsError (List (Step V Ty Args E))
  collect i [] = ok []
  collect i ((name, info) ∷ steps) =
      let rest = numbered i name info (collect (suc i) steps) in
      if is_shuffle name then ok [] else rest

  -- The loop before that.
  seek :
      String
      → List (StepName × Option (StepInfo V Ty Args E))
      → Result StepsError (List (Step V Ty Args E))
  unfolding numbered collect
  seek from_step [] = ok []
  seek from_step ((name, info) ∷ steps) =
      let later = seek from_step steps in
      if name_is from_step name then numbered 0 name info (collect 1 steps) else later

  from_stage :
      Option String
      → List (StepName × Option (StepInfo V Ty Args E))
      → Result StepsError (List (Step V Ty Args E))
  unfolding collect seek
  from_stage none steps = collect 0 steps
  from_stage (some from_step) steps = seek from_step steps

  unfoldable pub effective_steps :
      String
      → List (StepName × Option (StepInfo V Ty Args E))
      → Result StepsError (List (Step V Ty Args E))
  unfolding from_stage event_and_step
  effective_steps event_name module_steps =
      event_and_step event_name >>= λ e. from_stage e.1 module_steps

  -- The steps are numbered one by one from `i`.
  abbrev pub IsNumbered : ℕ → List (Step V Ty Args E) → Type 0
  IsNumbered i [] = Unit
  IsNumbered i ((j, name, info) ∷ steps) = (j ≡ i) × IsNumbered (suc i) steps

  -- The entries up to the next SHUFFLE.
  abbrev pub until_shuffle :
      List (StepName × Option (StepInfo V Ty Args E))
      → List (StepName × Option (StepInfo V Ty Args E))
  until_shuffle [] = []
  until_shuffle ((name, info) ∷ steps) =
      if is_shuffle name then [] else (name, info) ∷ until_shuffle steps

  -- The entries of a stage: from the first one with its name, or from the start.
  abbrev pub stage :
      Option String
      → List (StepName × Option (StepInfo V Ty Args E))
      → List (StepName × Option (StepInfo V Ty Args E))
  stage none steps = until_shuffle steps
  stage (some s) [] = []
  stage (some s) ((name, info) ∷ steps) =
      if name_is s name then (name, info) ∷ until_shuffle steps else stage (some s) steps

  abbrev pub entry : Step V Ty Args E → StepName × Option (StepInfo V Ty Args E)
  entry (i, name, info) = (name, some info)

  -- An entry has no step info.
  abbrev pub Missing : List (StepName × Option (StepInfo V Ty Args E)) → Type 0
  Missing [] = ⊥
  Missing ((name, none) ∷ entries) = Unit
  Missing ((name, some info) ∷ entries) = Missing entries

  -- Steps numbered from `i` with the given entries, or an assertion that such an entry failed.
  abbrev pub Lists :
      ℕ
      → List (StepName × Option (StepInfo V Ty Args E))
      → Result StepsError (List (Step V Ty Args E))
      → Type 0
  Lists i entries (ok steps) = IsNumbered i steps × (map entry steps ≡ entries)
  Lists i entries (err e) = (e ≡ assertion_error) × Missing entries

  numbered-Lists :
      (i : ℕ) (name : StepName) (info : Option (StepInfo V Ty Args E))
      (entries : List (StepName × Option (StepInfo V Ty Args E)))
      (rest : Result StepsError (List (Step V Ty Args E)))
      → Lists (suc i) entries rest
      → Lists i ((name, info) ∷ entries) (numbered i name info rest)
  unfolding numbered
  numbered-Lists i name none entries rest h = (refl, tt)
  numbered-Lists i name (some info) entries (err e) h = h
  numbered-Lists i name (some info) entries (ok steps) (n, e) =
      ((refl, n), ap (◌∷◌ (name, some info)) e)

  collect-Lists :
      (i : ℕ) (steps : List (StepName × Option (StepInfo V Ty Args E)))
      → Lists i (until_shuffle steps) (collect i steps)
  unfolding collect
  collect-Lists i [] = (tt, refl)
  collect-Lists i ((name, info) ∷ steps) = elim (Bool-cases (is_shuffle name)) [
    | inl end ↦ rw end (tt, refl)
    | inr go ↦
        rw go (numbered-Lists i name info (until_shuffle steps) _ (collect-Lists (suc i) steps))
  ]

  from_stage-Lists :
      (s : Option String) (steps : List (StepName × Option (StepInfo V Ty Args E)))
      → Lists 0 (stage s steps) (from_stage s steps)
  unfolding from_stage seek
  from_stage-Lists none steps = collect-Lists 0 steps
  from_stage-Lists (some s) [] = (tt, refl)
  from_stage-Lists (some s) ((name, info) ∷ steps) = elim (Bool-cases (name_is s name)) [
    | inl here ↦
        rw here (numbered-Lists 0 name info (until_shuffle steps) _ (collect-Lists 1 steps))
    | inr later ↦ rw later (from_stage-Lists (some s) steps)
  ]

  -- For an event name that names the stage `s`, or no stage, the effective steps are the entries
  -- of the module's steps from the first one called `s`, or from the start, up to the next SHUFFLE;
  -- they are numbered one by one from 0. The one error is the failed assertion, and only if one of
  -- these entries has no step info.
  pub effective_steps-Lists :
      (event_name base : String) (s : Option String)
      (steps : List (StepName × Option (StepInfo V Ty Args E)))
      → event_and_step event_name ≡ ok (base, s)
      → Lists 0 (stage s steps) (effective_steps event_name steps)
  unfolding effective_steps
  effective_steps-Lists event_name base s steps e = rw (e, ◌>>=◌) (from_stage-Lists s steps)

module _ {V Ty Args E : Type 0}
    (signature : StepName → Result StepsError (StepInfo V Ty Args E)) where
  step_entry : StepName → Result StepsError (StepName × Option (StepInfo V Ty Args E))
  step_entry name =
      if is_shuffle name then ok (name, none) else signature name >>= λ info. ok (name, some info)

  -- `extract_module_steps(impl)` for a module with the given `__steps__`; `signature` is
  -- `_signature(impl, step_name)`.
  unfoldable pub extract_module_steps :
      List StepName → Result StepsError (List (StepName × Option (StepInfo V Ty Args E)))
  unfolding step_entry
  extract_module_steps [] = ok []
  extract_module_steps (name ∷ names) =
      let rest = extract_module_steps names in step_entry name >>= λ e. rest >>= λ es. ok (e ∷ es)
