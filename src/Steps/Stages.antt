-- ===== src/Steps/Stages.antt =====
-- `extract_event_stages` and `split_event_stages` of engine/src/hopeit/server/steps.py: an event
-- whose steps contain SHUFFLE becomes several events, joined by streams.
pub mod Chain
pub mod Origin
mod Tests
use Prim.Native.String
use hopeit_engine.Common.{
  Bool, true, false, Option, none, some, List, [], ◌∷◌, ◌++◌, String, Result, ok, err, ◌>>=◌,
  if◌then◌else◌, split,
}
use hopeit_engine.Common.Dict.{Dict, update}
use hopeit_engine.Names.{auto_path}
use hopeit_engine.Config.Defs.{
  AppDescriptor, EventType, stream, ReadStreamDescriptor, WriteStreamDescriptor, propagate,
  EventDescriptor, event_descriptor, default_queues,
}
use hopeit_engine.Steps.Defs.{
  StepName, named, collector, StepsError, assertion_error, index_error, type_error,
}
use hopeit_engine.Steps.Effective.{is_shuffle}

-- A stage name that is set and not empty.
abbrev pub is_truthy : Option StepName → Bool
is_truthy none = false
is_truthy (some (named String.[])) = false
is_truthy (some (named (String.◌∷◌ c s))) = true
is_truthy (some (collector n)) = true

-- `stages.append(stage)`
abbrev pub with_stage : List StepName → Option StepName → List StepName
with_stage stages none = stages
with_stage stages (some s) = stages ++ s ∷ []

-- `steps[0] if isinstance(steps[0], str) else steps[0].__name__`
abbrev pub name_of : StepName → StepName
name_of (named n) = named n
name_of (collector n) = named n

-- The loop over `steps[1:]`, and the last `append`.
stages_from : Option StepName → List StepName → List StepName → Result StepsError (List StepName)
stages_from stage stages [] = ok (if is_truthy stage then with_stage stages stage else stages)
stages_from stage stages (step ∷ steps) =
    let rest : Option StepName = elim stage [ none ↦ some step | some s ↦ some s ] in
    if is_shuffle step
    then (if is_truthy stage
        then stages_from none (with_stage stages stage) steps
        else err assertion_error)
    else stages_from rest stages steps

unfoldable pub extract_event_stages : List StepName → Result StepsError (List StepName)
unfolding stages_from
extract_event_stages [] = err index_error
extract_event_stages (step ∷ []) = ok (step ∷ [])
extract_event_stages (step ∷ steps) = stages_from (some (name_of step)) [] steps

-- `auto_path(app.name, app.version, *event_name.split("."), stage)`
pub stage_path : AppDescriptor → String → String → String
stage_path app event_name stage =
    auto_path (app.name ∷ app.version ∷ (split b'.' event_name ++ stage ∷ []))

-- `f"{event_name}${stage}"`
pub stage_event : String → String → String
stage_event event_name stage = String.◌++◌ event_name (String.◌++◌ "$" stage)

module _ (event_info : EventDescriptor) where
  abbrev pub queues : List String
  queues = elim event_info.read_stream [ none ↦ default_queues | some r ↦ r.queues ]

  -- The write stream of a stage: that of the event for the last one, and else the intermediate one.
  abbrev pub write_to : List StepName → String → Option WriteStreamDescriptor
  write_to [] path = event_info.write_stream
  write_to (s ∷ stages) path =
      some (record { name = path; queues = default_queues; queue_strategy = propagate })

  -- `read_stream` at the start of a round: none is made for the first stage.
  abbrev pub read_from : Option String → String → Option ReadStreamDescriptor
  read_from none path = event_info.read_stream
  read_from (some intermediate) path =
      some (record { name = intermediate; consumer_group = path; queues = queues })

  abbrev pub sub_event :
      EventType → Option ReadStreamDescriptor → Option WriteStreamDescriptor → EventDescriptor
  sub_event event_type read write = record (event_descriptor event_type) {
    impl = event_info.impl;
    connections = event_info.connections;
    read_stream = read;
    write_stream = write;
  }

module _ (app : AppDescriptor) (event_name : String) (event_info : EventDescriptor) where
  -- The loop over the stages behind the first, with the last intermediate stream. A stage that is
  -- no string fails in `re.sub`, under `auto_path`.
  next_events : String → List StepName → Result StepsError (Dict EventDescriptor)
  next_events intermediate [] = ok []
  next_events intermediate (collector n ∷ stages) = err type_error
  next_events intermediate (named s ∷ stages) =
      next_events (stage_path app event_name s) stages >>= λ events. ok (
        (
          stage_event event_name s,
          sub_event event_info stream
              (read_from event_info (some intermediate) (stage_path app event_name s))
              (write_to event_info stages (stage_path app event_name s)),
        )
        ∷ events)

  -- The events of all stages, in order.
  pub sub_events : List StepName → Result StepsError (Dict EventDescriptor)
  unfolding next_events
  sub_events [] = ok []
  sub_events (collector n ∷ stages) = err type_error
  sub_events (named s ∷ stages) = next_events (stage_path app event_name s) stages >>= λ events.
      ok (
        (
          event_name,
          sub_event event_info event_info.event_type
              (read_from event_info none (stage_path app event_name s))
              (write_to event_info stages (stage_path app event_name s)),
        )
        ∷ events)

  split_stages : List StepName → Result StepsError (Dict EventDescriptor)
  unfolding sub_events
  split_stages (s ∷ []) = ok ((event_name, event_info) ∷ [])
  split_stages stages = sub_events stages >>= λ events. ok (update [] events)

  -- `split_event_stages(app, event_name, event_info, impl)` for a module with these `__steps__`.
  unfoldable pub split_event_stages : List StepName → Result StepsError (Dict EventDescriptor)
  unfolding split_stages update
  split_event_stages steps = extract_event_stages steps >>= split_stages
