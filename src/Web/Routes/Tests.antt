-- ===== src/Web/Routes/Tests.antt =====
-- Routes of a small app, and of a plugin for it.
use hopeit_engine.Common.{none, some, [], ◌∷◌, String, Result, ok, err, ◌≡◌, refl, All, Any}
use hopeit_engine.Common.Dict.{lookup}
use hopeit_engine.Config.Defs.{
  get, post, stream, service, setup, unsecured, basic, bearer, on_app, EventDescriptor,
  event_descriptor,
}
use hopeit_engine.Web.Routes.{
  Engine, invalid_event_type, route, executed, post_invocation, get_invocation, stream_start,
  event_stop, get_method, post_method, app_route_name, event_items, setup_events, with_mode,
  setup_app_event_routes, effective_events,
}
use hopeit_engine.Web.Routes.Items.{ItemFor}
use hopeit_engine.Web.Routes.Serves.{Outcome, setup_app_event_routes-Serves}

abbrev login : EventDescriptor
login = record (event_descriptor get) { plug_mode = on_app; auth = basic ∷ [] }

abbrev shop : Engine
shop = record {
  app = record { name = "shop"; version = "1.0" };
  events =
      ("list", event_descriptor get)
      ∷ ("buy.now", record (event_descriptor post) { route = some "/buy" })
      ∷ ("init", event_descriptor setup)
      ∷ ("watch", event_descriptor stream)
      ∷ [];
  default_auth_methods = bearer ∷ [];
  effective_events =
      ("list", event_descriptor get)
      ∷ ("buy.now", record (event_descriptor post) { route = some "/buy" })
      ∷ ("init", event_descriptor setup)
      ∷ ("watch", event_descriptor stream)
      ∷ [];
}

abbrev auth_plugin : Engine
auth_plugin = record {
  app = record { name = "auth"; version = "1" };
  events =
      ("login", login) ∷ ("tidy", record (event_descriptor service) { plug_mode = on_app }) ∷ [];
  default_auth_methods = unsecured ∷ [];
  effective_events =
      ("login", login) ∷ ("tidy", record (event_descriptor service) { plug_mode = on_app }) ∷ [];
}

abbrev datatype : String → EventDescriptor → Result String String
datatype event_name info = ok "Order"

abbrev execute : String → Result {0, 0} String Unit
execute event_name = ok tt

shop_routes : setup_app_event_routes datatype execute shop none ≡ (
  route get_method "/api/shop/1x0/list" (get_invocation "list" (bearer ∷ []))
      ∷ route post_method "/buy" (post_invocation "buy.now" "Order" (bearer ∷ []))
      ∷ executed "init"
      ∷ route get_method "/mgmt/shop/1x0/watch/start" (stream_start "watch")
      ∷ route get_method "/mgmt/shop/1x0/watch/stop" (event_stop "watch")
      ∷ [],
  ok tt,
)
unfolding setup_app_event_routes setup_events event_items app_route_name with_mode lookup
shop_routes = refl

-- A plugin's SERVICE event cannot be set up for an app.
plugin_routes : setup_app_event_routes datatype execute shop (some auth_plugin) ≡ (
  route get_method "/api/shop/1x0/auth/1/login" (get_invocation "login" (basic ∷ [])) ∷ [],
  err (invalid_event_type "tidy"),
)
unfolding setup_app_event_routes setup_events event_items app_route_name with_mode lookup
plugin_routes = refl

setup_app_event_routes-Serves_example :
    All
      (λ item.
        Any
          (λ kv.
            (kv.1.plug_mode ≡ on_app)
            × ItemFor datatype execute shop (some auth_plugin) kv.0 kv.1 item)
          auth_plugin.effective_events)
      (setup_app_event_routes datatype execute shop (some auth_plugin)).0
    × Outcome datatype execute shop
        (some auth_plugin)
        (effective_events shop (some auth_plugin))
        (setup_app_event_routes datatype execute shop (some auth_plugin)).0
        (setup_app_event_routes datatype execute shop (some auth_plugin)).1
setup_app_event_routes-Serves_example =
    setup_app_event_routes-Serves datatype execute shop (some auth_plugin)
