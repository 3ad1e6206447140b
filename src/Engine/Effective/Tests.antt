-- ===== src/Engine/Effective/Tests.antt =====
-- The effective events of an app with a stream event that has a service, and with a disabled group.
use hopeit_engine.Common.{true, [], ◌∷◌, String, Result, ok, ◌≡◌, refl}
use hopeit_engine.Common.Dict.{Dict, Items, insert, update}
use hopeit_engine.Config.Defs.{
  AppDescriptor, get, post, stream, service, EventDescriptor, event_descriptor,
}
use hopeit_engine.Steps.Defs.{named}
use hopeit_engine.Steps.Stages.{extract_event_stages}
use hopeit_engine.Engine.Effective.{
  Impl, config_effective_events, add_events, add_event, is_enabled, is_in, with_service,
  service_name, service_event,
}
use hopeit_engine.Engine.Effective.Enabled.{Comes, config_effective_events-Comes}

abbrev shop : AppDescriptor
shop = record { name = "shop"; version = "1.0" }

abbrev with_group : String → EventDescriptor → EventDescriptor
with_group group info = record info { group = group }

abbrev configured : Dict EventDescriptor
configured =
    ("list", event_descriptor get)
    ∷ ("report", with_group "admin" (event_descriptor post))
    ∷ ("watch", with_group "jobs" (event_descriptor stream))
    ∷ []

-- Every module has one step and `__service__`.
abbrev find_handler : String → EventDescriptor → Result String Impl
find_handler event_name info = ok (record { steps = named "run" ∷ []; has_service = true })

abbrev enabled : Dict EventDescriptor
enabled =
    ("list", event_descriptor get)
    ∷ ("watch", with_group "jobs" (event_descriptor stream))
    ∷ ("watch$__service__", event_descriptor service)
    ∷ []

configured_events : config_effective_events find_handler shop ("jobs" ∷ []) configured ≡ ok enabled
unfolding config_effective_events add_events add_event is_enabled is_in with_service insert update
    extract_event_stages service_name service_event
configured_events = refl

config_effective_events-Comes_example :
    Items (Comes find_handler shop ("jobs" ∷ []) configured) enabled
config_effective_events-Comes_example =
    config_effective_events-Comes find_handler shop ("jobs" ∷ []) configured enabled
      configured_events
