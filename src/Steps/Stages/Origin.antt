-- ===== src/Steps/Stages/Origin.antt =====
-- What each event is that `split_event_stages` of engine/src/hopeit/server/steps.py makes.
use mathlib.Core.List.{append_assoc}
use hopeit_engine.Common.{
  ◌++◌, ◌∙◌, sym, refl, ◌≡◌, subst, some, List, [], ◌∷◌, String, Result, ok, bind-ok,
}
use hopeit_engine.Common.Dict.{Dict, Items, update}
use hopeit_engine.Common.Dict.Updates.{update-Items}
use hopeit_engine.Config.Defs.{AppDescriptor, stream, EventDescriptor}
use hopeit_engine.Steps.Defs.{StepName, named, collector, StepsError}
use hopeit_engine.Steps.Stages.{
  extract_event_stages, stage_path, stage_event, queues, write_to, sub_event, next_events,
  sub_events, split_stages, split_event_stages,
}

module _ (app : AppDescriptor) (event_name : String) (event_info : EventDescriptor)
    (stages : List StepName) where
  -- An event whose steps have these stages: the event itself if there is one stage; or else the event
  -- of the first stage, which reads what the event reads; or that of the stage `t` behind the stage
  -- `s`, which reads what the event of `s` writes.
  pub data FromEvent : String → EventDescriptor → Type 0 where
    whole : (s : StepName) → stages ≡ s ∷ [] → FromEvent event_name event_info
    first :
        (s : String) (t : StepName) (more : List StepName)
        → stages ≡ named s ∷ t ∷ more
        → FromEvent event_name (
            sub_event event_info event_info.event_type event_info.read_stream
              (write_to event_info (t ∷ more) (stage_path app event_name s)))
    behind :
        (before : List StepName) (s t : String) (more : List StepName)
        → stages ≡ before ++ named s ∷ named t ∷ more
        → FromEvent (stage_event event_name t) (
            sub_event event_info stream
              (some (record {
                name = stage_path app event_name s;
                consumer_group = stage_path app event_name t;
                queues = queues event_info;
              }))
              (write_to event_info more (stage_path app event_name t)))

  abbrev AreFrom : Dict EventDescriptor → Type 0
  AreFrom events = Items FromEvent events

  -- A result is what its equation says.
  ok-AreFrom :
      (made events : Dict EventDescriptor)
      → AreFrom made
      → ◌≡◌ {A = Result StepsError (Dict EventDescriptor)} (ok made) (ok events)
      → AreFrom events
  ok-AreFrom made events h q = subst AreFrom {x = made} {y = events} (cc) h

  next_events-AreFrom :
      (before : List StepName) (s : String) (more : List StepName) (events : Dict EventDescriptor)
      → stages ≡ before ++ named s ∷ more
      → next_events app event_name event_info (stage_path app event_name s) more ≡ ok events
      → AreFrom events
  unfolding next_events
  next_events-AreFrom before s [] events at q = ok-AreFrom [] events tt q
  next_events-AreFrom before s (collector n ∷ more) events at q = cc
  next_events-AreFrom before s (named t ∷ more) events at q =
      let path = stage_path app event_name t in
      let (rest, made, q1) = bind-ok (next_events app event_name event_info path more) _ q in
      ok-AreFrom _ events
        (
          behind before s t more at,
          next_events-AreFrom (before ++ named s ∷ []) t more rest
              (at ∙ sym (append_assoc before (named s ∷ []) (named t ∷ more))) made,
        )
        q1

  sub_events-AreFrom :
      (s t : StepName) (more : List StepName) (events : Dict EventDescriptor)
      → stages ≡ s ∷ t ∷ more
      → sub_events app event_name event_info (s ∷ t ∷ more) ≡ ok events
      → AreFrom events
  unfolding sub_events
  sub_events-AreFrom (collector n) t more events at q = cc
  sub_events-AreFrom (named s) t more events at q =
      let path = stage_path app event_name s in
      let (rest, made, q1) = bind-ok (next_events app event_name event_info path (t ∷ more)) _ q in
      ok-AreFrom _ events (first s t more at, next_events-AreFrom [] s (t ∷ more) rest at made) q1

  split_stages-AreFrom :
      (parts : List StepName) (events : Dict EventDescriptor)
      → stages ≡ parts
      → split_stages app event_name event_info parts ≡ ok events
      → AreFrom events
  unfolding split_stages sub_events update
  split_stages-AreFrom (s ∷ []) events at q = ok-AreFrom _ events (whole s at, tt) q
  split_stages-AreFrom [] events at q = ok-AreFrom [] events tt q
  split_stages-AreFrom (s ∷ t ∷ more) events at q =
      let (made, m, q1) =
        bind-ok (sub_events app event_name event_info (s ∷ t ∷ more)) (λ x. ok (update [] x)) q in
      ok-AreFrom (update [] made) events
        (update-Items FromEvent [] made tt (sub_events-AreFrom s t more made at m)) q1

module _ (app : AppDescriptor) (event_name : String) (event_info : EventDescriptor) where
  pub split_event_stages-AreFrom :
      (steps : List StepName) (events : Dict EventDescriptor)
      → split_event_stages app event_name event_info steps ≡ ok events
      → (stages : List StepName) × (extract_event_stages steps ≡ ok stages)
        × Items (FromEvent app event_name event_info stages) events
  unfolding split_event_stages
  split_event_stages-AreFrom steps events q =
      let (stages, e, q1) = bind-ok (extract_event_stages steps) _ q in
      (stages, e, split_stages-AreFrom app event_name event_info stages stages events refl q1)
