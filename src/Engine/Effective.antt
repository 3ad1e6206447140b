-- ===== src/Engine/Effective.antt =====
-- `_config_effective_events` of engine/src/hopeit/server/engine.py. What `find_event_handler` gives
-- for an event is a parameter: the steps of its module and whether that has `__service__`.
pub mod Enabled
mod Tests
use Prim.Native.String
use hopeit_engine.Common.{
  Bool, true, false, ◌&&◌, ◌||◌, List, [], ◌∷◌, String, Result, ok, err, ◌>>=◌, str_eq,
  if◌then◌else◌,
}
use hopeit_engine.Common.Dict.{Dict, insert, update}
use hopeit_engine.Config.Defs.{
  AppDescriptor, EventType, get, post, stream, service, multipart, setup, EventDescriptor,
  event_descriptor, default_group,
}
use hopeit_engine.Steps.Defs.{StepName, StepsError}
use hopeit_engine.Steps.Stages.{split_event_stages}

pub record Impl : Type 0 where
  pub steps : List StepName
  pub has_service : Bool

-- The exceptions: of an import, and of the steps.
pub data EffectiveError (X : Type 0) : Type 0 where
  import_error : X → EffectiveError X
  steps_error : StepsError → EffectiveError X

abbrev pub is_empty : List String → Bool
is_empty [] = true
is_empty (g ∷ groups) = false

unfoldable pub is_in : String → List String → Bool
is_in group [] = false
is_in group (g ∷ groups) = str_eq g group || is_in group groups

unfoldable pub is_enabled : List String → EventDescriptor → Bool
unfolding is_in
is_enabled enabled_groups info =
    is_empty enabled_groups || str_eq info.group default_group || is_in info.group enabled_groups

abbrev pub is_stream : EventType → Bool
is_stream stream = true
is_stream get = false
is_stream post = false
is_stream service = false
is_stream multipart = false
is_stream setup = false

-- `f"{event_name}$__service__"`
pub service_name : String → String
service_name event_name = String.◌++◌ event_name "$__service__"

pub service_event : EventDescriptor → EventDescriptor
service_event info = record (event_descriptor service) {
  connections = info.connections;
  impl = info.impl;
}

unfoldable pub with_service :
    String → EventDescriptor → Bool → Dict EventDescriptor → Dict EventDescriptor
unfolding insert
with_service event_name info has_service effective =
    if is_stream info.event_type && has_service
    then insert (service_name event_name) (service_event info) effective
    else effective

abbrev pub import_result : {X : Type 0} → Result X Impl → Result (EffectiveError X) Impl
import_result (ok impl) = ok impl
import_result (err x) = err (import_error x)

abbrev pub splits_result :
    {X : Type 0}
    → Result StepsError (Dict EventDescriptor)
    → Result (EffectiveError X) (Dict EventDescriptor)
splits_result (ok events) = ok events
splits_result (err e) = err (steps_error e)

module _ {X : Type 0} (find_event_handler : String → EventDescriptor → Result X Impl)
    (app : AppDescriptor) where
  -- The events of an enabled event are added.
  unfoldable pub add_event :
      String
      → EventDescriptor
      → Dict EventDescriptor
      → Result (EffectiveError X) (Dict EventDescriptor)
  unfolding with_service update split_event_stages
  add_event event_name info effective =
      import_result (find_event_handler event_name info) >>= λ impl.
      splits_result (split_event_stages app event_name info impl.steps) >>= λ splits.
      ok (with_service event_name info impl.has_service (update effective splits))

  module _ (enabled_groups : List String) where
    -- A round of the loop.
    abbrev pub round :
        String
        → EventDescriptor
        → Dict EventDescriptor
        → Result (EffectiveError X) (Dict EventDescriptor)
    round event_name info effective =
        if is_enabled enabled_groups info then add_event event_name info effective else ok effective

    unfoldable pub add_events :
        Dict EventDescriptor
        → Dict EventDescriptor
        → Result (EffectiveError X) (Dict EventDescriptor)
    unfolding add_event is_enabled
    add_events effective [] = ok effective
    add_events effective ((event_name, info) ∷ events) =
        round event_name info effective >>= λ added. add_events added events

    -- For the events of the app's config.
    unfoldable pub config_effective_events :
        Dict EventDescriptor → Result (EffectiveError X) (Dict EventDescriptor)
    unfolding add_events
    config_effective_events events = add_events [] events
