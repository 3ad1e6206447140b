-- ===== src/Steps/Names.antt =====
-- `event_and_step` of engine/src/hopeit/server/steps.py: `event$stage` names.
pub mod Base
use Prim.Native.Char.{code}
use hopeit_engine.Common.{
  Option, none, some, List, [], ◌∷◌, String, Result, ok, err, ◌==◌, if◌then◌else◌, split,
}
use hopeit_engine.Steps.Defs.{StepsError, index_error}

abbrev pub shuffle : String
shuffle = "__shuffle__"

-- `comps[1] if comps[1][0] != "_" else None`
stage_part : String → Result StepsError (Option String)
stage_part String.[] = err index_error
stage_part (String.◌∷◌ c s) = ok (if code c == b'_' then none else some (String.◌∷◌ c s))

event_and_step_of : String → List String → Result StepsError (String × Option String)
event_and_step_of event_name [] = ok (event_name, none)
event_and_step_of event_name (base ∷ []) = ok (event_name, none)
event_and_step_of event_name (base ∷ stage ∷ more) = elim (stage_part stage) [
  | ok s ↦ ok (base, s)
  | err e ↦ err e
]

unfoldable pub event_and_step : String → Result StepsError (String × Option String)
unfolding event_and_step_of stage_part split
event_and_step event_name = event_and_step_of event_name (split b'$' event_name)
