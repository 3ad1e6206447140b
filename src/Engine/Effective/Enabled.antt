-- ===== src/Engine/Effective/Enabled.antt =====
-- `_config_effective_events` of engine/src/hopeit/server/engine.py: where its events come from.
use hopeit_engine.Common.{
  Bool, true, false, ◌&&◌, ◌≡◌, refl, subst, List, [], ◌∷◌, String, Result, ok, err, bind-ok, All,
  All-map, Any, Bool-cases, inl, inr, if◌then◌else◌,
}
use hopeit_engine.Common.Dict.{Dict, Items, update, Items-insert}
use hopeit_engine.Common.Dict.Updates.{update-Items}
use hopeit_engine.Config.Defs.{
  AppDescriptor, EventType, get, post, stream, service, multipart, setup, EventDescriptor,
}
use hopeit_engine.Steps.Defs.{StepName, StepsError}
use hopeit_engine.Steps.Stages.{split_event_stages, extract_event_stages}
use hopeit_engine.Steps.Stages.Origin.{FromEvent, split_event_stages-AreFrom}
use hopeit_engine.Engine.Effective.{
  Impl, is_enabled, is_stream, service_name, service_event, with_service, import_result,
  splits_result, add_event, round, add_events, config_effective_events,
}

is_stream-≡ : (type : EventType) → is_stream type ≡ true → type ≡ stream
is_stream-≡ stream h = refl
is_stream-≡ get h = cc
is_stream-≡ post h = cc
is_stream-≡ service h = cc
is_stream-≡ multipart h = cc
is_stream-≡ setup h = cc

both : (a b : Bool) → (a && b) ≡ true → a ≡ true
both true b h = refl
both false b h = cc

both_right : (a b : Bool) → (a && b) ≡ true → b ≡ true
both_right true b h = h
both_right false b h = cc

import_result-ok :
    {X : Type 0} (r : Result X Impl) (impl : Impl) → import_result r ≡ ok impl → r ≡ ok impl
import_result-ok (ok i) impl h = cc
import_result-ok (err e) impl h = cc

splits_result-ok :
    {X : Type 0} (r : Result StepsError (Dict EventDescriptor)) (events : Dict EventDescriptor)
    → splits_result {X = X} r ≡ ok events
    → r ≡ ok events
splits_result-ok (ok e) events h = cc
splits_result-ok (err e) events h = cc

module _ {X : Type 0} (find_event_handler : String → EventDescriptor → Result X Impl)
    (app : AppDescriptor) where
  -- An effective event of an event: one that it is split into by the stages of the steps of its module,
  -- or its service, if it is a STREAM event and the module has `__service__`.
  pub data Origin (event_name : String) (info : EventDescriptor)
      : String → EventDescriptor → Type 0 where
    split :
        (impl : Impl) (stages : List StepName) (key : String) (effective : EventDescriptor)
        → find_event_handler event_name info ≡ ok impl
        → extract_event_stages impl.steps ≡ ok stages
        → FromEvent app event_name info stages key effective
        → Origin event_name info key effective
    serves :
        (impl : Impl)
        → find_event_handler event_name info ≡ ok impl
        → impl.has_service ≡ true
        → info.event_type ≡ stream
        → Origin event_name info (service_name event_name) (service_event info)

module _ {X : Type 0} (find_event_handler : String → EventDescriptor → Result X Impl)
    (app : AppDescriptor) (enabled_groups : List String)
    (P : String → EventDescriptor → Type 0) where
  with_service-Items :
      (event_name : String) (info : EventDescriptor) (impl : Impl)
      (effective : Dict EventDescriptor)
      → find_event_handler event_name info ≡ ok impl
      → ((key : String) (e : EventDescriptor)
          → Origin find_event_handler app event_name info key e
          → P key e)
      → Items P effective
      → Items P (with_service event_name info impl.has_service effective)
  unfolding with_service
  with_service-Items event_name info impl effective found f h =
      elim (Bool-cases (is_stream info.event_type && impl.has_service)) [
        | inl y ↦ rw y (
            Items-insert P (service_name event_name) (service_event info) effective h (
              f (service_name event_name) (service_event info) (
                serves impl found (both_right (is_stream info.event_type) impl.has_service y) (
                  is_stream-≡ info.event_type
                    (both (is_stream info.event_type) impl.has_service y)))))
        | inr n ↦ rw n h
      ]

  add_event-Items :
      (event_name : String) (info : EventDescriptor) (effective added : Dict EventDescriptor)
      → ((key : String) (e : EventDescriptor)
          → Origin find_event_handler app event_name info key e
          → P key e)
      → Items P effective
      → add_event find_event_handler app event_name info effective ≡ ok added
      → Items P added
  unfolding add_event
  add_event-Items event_name info effective added f h q =
      let (impl, found, q1) = bind-ok (import_result (find_event_handler event_name info)) _ q in
      let steps = impl.steps in
      let (splits, made, q2) =
        bind-ok (splits_result {X = X} (split_event_stages app event_name info impl.steps))
          (λ splits. ok (with_service event_name info impl.has_service (update effective splits)))
          q1 in
      let handler = import_result-ok (find_event_handler event_name info) impl found in
      let (stages, cut, from) = split_event_stages-AreFrom app event_name info impl.steps splits (
        splits_result-ok {X = X} (split_event_stages app event_name info impl.steps) splits made) in
      subst (Items P) {x = with_service event_name info impl.has_service (update effective splits)}
        {y = added} (cc)
        (with_service-Items event_name info impl (update effective splits) handler f (
          update-Items P effective splits h (
            All-map _ _ splits (λ kv o. f kv.0 kv.1 (split impl stages kv.0 kv.1 handler cut o))
              from)))

  round-Items :
      (enabled : Bool) (event_name : String) (info : EventDescriptor)
      (effective added : Dict EventDescriptor)
      → (enabled ≡ true
          → (key : String) (e : EventDescriptor)
          → Origin find_event_handler app event_name info key e
          → P key e)
      → Items P effective
      → (if enabled
          then add_event find_event_handler app event_name info effective
          else ok effective)
        ≡ ok added
      → Items P added
  round-Items true event_name info effective added f h q =
      add_event-Items event_name info effective added (f refl) h q
  round-Items false event_name info effective added f h q =
      subst (Items P) {x = effective} {y = added} (cc) h

  add_events-Items :
      (events effective result : Dict EventDescriptor)
      → All
          (λ kv.
            is_enabled enabled_groups kv.1 ≡ true
            → (key : String) (e : EventDescriptor) → Origin find_event_handler app kv.0 kv.1 key e
            → P key e)
          events
      → Items P effective
      → add_events find_event_handler app enabled_groups effective events ≡ ok result
      → Items P result
  unfolding add_events
  add_events-Items [] effective result f h q = subst (Items P) {x = effective} {y = result} (cc) h
  add_events-Items ((event_name, info) ∷ events) effective result (f, fs) h q =
      let (added, a, q1) =
        bind-ok (round find_event_handler app enabled_groups event_name info effective)
          (λ added. add_events find_event_handler app enabled_groups added events) q in
      add_events-Items events added result fs
        (round-Items (is_enabled enabled_groups info) event_name info effective added f h a) q1

module _ {X : Type 0} (find_event_handler : String → EventDescriptor → Result X Impl)
    (app : AppDescriptor) (enabled_groups : List String) where
  -- `key` and `effective` are an effective event of one of the events, which is enabled.
  pub Comes : Dict EventDescriptor → String → EventDescriptor → Type 0
  Comes events key effective =
      Any
        (λ kv.
          (is_enabled enabled_groups kv.1 ≡ true)
          × Origin find_event_handler app kv.0 kv.1 key effective)
        events

  each-Comes :
      (events : Dict EventDescriptor)
      → All
          (λ kv.
            is_enabled enabled_groups kv.1 ≡ true
            → (key : String) (e : EventDescriptor) → Origin find_event_handler app kv.0 kv.1 key e
            → Comes events key e)
          events
  unfolding Comes
  each-Comes [] = tt
  each-Comes (kv ∷ events) = (
    λ y key e o. inl (y, o),
    All-map _ _ events (λ other h. λ y key e o. inr (h y key e o)) (each-Comes events),
  )

module _ {X : Type 0} (find_event_handler : String → EventDescriptor → Result X Impl)
    (app : AppDescriptor) (enabled_groups : List String) where
  -- Every effective event of an app comes from an event of its config whose group is enabled, with the
  -- stages that the steps of its module have: it is that event if there is one stage; or else it is
  -- that of the first stage, which keeps the name, the type and the source of the event, or that of a
  -- further stage, a STREAM event under the name of the stage that reads the stream which the event of
  -- the stage before writes; each of these writes the stream of its stage, or that of the event if it
  -- is the last. Or, if the event is a STREAM event whose module has `__service__`, it is the SERVICE
  -- event that is added for it, which keeps its connections and implementation only.
  pub config_effective_events-Comes :
      (events effective : Dict EventDescriptor)
      → config_effective_events find_event_handler app enabled_groups events ≡ ok effective
      → Items (Comes find_event_handler app enabled_groups events) effective
  unfolding config_effective_events
  config_effective_events-Comes events effective q =
      add_events-Items find_event_handler app enabled_groups
        (Comes find_event_handler app enabled_groups events) events [] effective
        (each-Comes find_event_handler app enabled_groups events) tt q
