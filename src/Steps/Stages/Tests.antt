-- ===== src/Steps/Stages/Tests.antt =====
-- Runs of the splitting of an event in engine/src/hopeit/server/steps.py.
use hopeit_engine.Common.{split, ◌≡◌, refl, some, List, [], ◌∷◌, ok, err}
use hopeit_engine.Common.Dict.{IsDistinct, Dict}
use hopeit_engine.Names.{auto_path}
use hopeit_engine.Config.Defs.{AppDescriptor, post, event_descriptor, drop, EventDescriptor}
use hopeit_engine.Steps.Defs.{StepName, named, assertion_error}
use hopeit_engine.Steps.Stages.{
  extract_event_stages, stages_from, stage_path, stage_event, split_event_stages,
}
use hopeit_engine.Steps.Stages.Chain.{Chain, split_event_stages-Chain}

abbrev app : AppDescriptor
app = record { name = "simple-example"; version = "1.0" }

abbrev shuffled : EventDescriptor
shuffled = record (event_descriptor post) {
  setting_keys = "custom" ∷ [];
  write_stream = some (record { name = "out"; queues = "high" ∷ []; queue_strategy = drop });
}

abbrev shuffle_steps : List StepName
shuffle_steps = named "produce" ∷ named "check" ∷ named "__shuffle__" ∷ named "consume" ∷ []

extract_event_stages_test :
    extract_event_stages shuffle_steps ≡ ok (named "produce" ∷ named "consume" ∷ [])
unfolding extract_event_stages stages_from
extract_event_stages_test = refl

-- Two SHUFFLE entries side by side fail the code's assertion.
empty_stage_test :
    extract_event_stages (named "produce" ∷ named "__shuffle__" ∷ named "__shuffle__" ∷ [])
    ≡ err assertion_error
unfolding extract_event_stages stages_from
empty_stage_test = refl

stage_path_test :
    stage_path app "shuffle.example" "produce" ≡ "simple_example.1x0.shuffle.example.produce"
unfolding stage_path auto_path split
stage_path_test = refl

names-IsDistinct : IsDistinct [] ("shuffled" ∷ stage_event "shuffled" "consume" ∷ [])
unfolding stage_event
names-IsDistinct = (tt, ((refl, tt), tt))

split_event_stages-Chain_example :
    (events : Dict EventDescriptor) × (split_event_stages app "shuffled" shuffled shuffle_steps
      ≡ ok events)
    × Chain app "shuffled" shuffled ("consume" ∷ []) events
split_event_stages-Chain_example =
    split_event_stages-Chain app "shuffled" shuffled shuffle_steps "produce" "consume" []
      extract_event_stages_test names-IsDistinct
