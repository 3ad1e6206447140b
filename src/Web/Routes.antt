-- ===== src/Web/Routes.antt =====
-- `_setup_app_event_routes` of engine/src/hopeit/server/web.py and `app_route_name` of
-- engine/src/hopeit/server/api.py: the routes of the events of an app, and of a plugin for the app. The
-- data type that a handler reads, which is found in the app's module, and the run of a SETUP event are
-- parameters. What is set up is listed: a later error does not undo it. Routes differ
-- in method or path, as `add_routes` of aiohttp requires.
pub mod Items
pub mod Serves
mod Tests
use Prim.Native.Char.{code}
use Prim.Native.String
use hopeit_engine.Common.{
  Bool, true, false, Option, none, some, List, [], ◌∷◌, ◌++◌, String, Result, ok, err, ◌>>=◌, ◌==◌,
  if◌then◌else◌, split,
}
use hopeit_engine.Common.Dict.{Dict, lookup}
use hopeit_engine.Names.{route_name, replace}
use hopeit_engine.Config.Defs.{
  AppDescriptor, AuthType, EventType, get, post, stream, service, multipart, setup, EventPlugMode,
  standalone, on_app, EventDescriptor, same_mode,
}

-- What is read of an AppEngine: its config's `app` and `events`, the default methods of its server
-- config, and its effective events.
pub record Engine : Type 0 where
  pub app : AppDescriptor
  pub events : Dict EventDescriptor
  pub default_auth_methods : List AuthType
  pub effective_events : Dict EventDescriptor

pub data RoutesError (X : Type 0) : Type 0 where
  index_error : RoutesError X
  key_error invalid_event_type : String → RoutesError X
  app_error : X → RoutesError X

pub data Handler (D : Type 0) : Type 0 where
  post_invocation multipart_invocation : String → D → List AuthType → Handler D
  get_invocation : String → List AuthType → Handler D
  stream_start service_start event_stop : String → Handler D

pub data Method : Type 0 where
  get_method post_method : Method

-- What a setup does: it adds a route, or executes a SETUP event.
pub data Item (D : Type 0) : Type 0 where
  route : Method → String → Handler D → Item D
  executed : String → Item D

-- `[plugin.name, plugin.version] if plugin else []`
abbrev pub plugin_parts : Option AppDescriptor → List String
plugin_parts none = []
plugin_parts (some plugin) = plugin.name ∷ plugin.version ∷ []

unfoldable pub app_route_name :
    {E : Type 0} (index_error : E) (app : AppDescriptor) (event_name : String)
    (plugin : Option AppDescriptor) (prefix : String) (override_route_name : Option String)
    → Result E String
unfolding route_name split
app_route_name e app event_name plugin prefix none =
    ok (
      route_name (prefix ∷ app.name ∷ app.version ∷ (plugin_parts plugin ++ split b'.' event_name)))
app_route_name e app event_name plugin prefix (some String.[]) = err e
app_route_name e app event_name plugin prefix (some (String.◌∷◌ c s)) =
    ok (route_name (if code c == b'/' then s ∷ [] else prefix ∷ String.◌∷◌ c s ∷ []))

-- `event_info.auth` if it is not empty, and else the default methods.
abbrev pub auth_or_default : List AuthType → List AuthType → List AuthType
auth_or_default [] defaults = defaults
auth_or_default (a ∷ auth) defaults = a ∷ auth

abbrev pub raised {ℓ} : {X : Type 0} {A : Type ℓ} → Result X A → Result (RoutesError X) A
raised (ok a) = ok a
raised (err x) = err (app_error x)

-- `None if plugin is None else plugin.app_config.app`
abbrev pub plugin_app : Option Engine → Option AppDescriptor
plugin_app none = none
plugin_app (some plugin) = some plugin.app

-- `impl = plugin if plugin else app_engine`
abbrev pub impl_of : Engine → Option Engine → Engine
impl_of app_engine none = app_engine
impl_of app_engine (some plugin) = plugin

-- `_auth_types`
abbrev pub auth_types_of :
    {X : Type 0}
    → String
    → List AuthType
    → Option EventDescriptor
    → Result (RoutesError X) (List AuthType)
auth_types_of event_name defaults none = err (key_error event_name)
auth_types_of event_name defaults (some info) = ok (auth_or_default info.auth defaults)

abbrev pub auth_types : {X : Type 0} → Engine → String → Result (RoutesError X) (List AuthType)
auth_types engine event_name =
    auth_types_of event_name engine.default_auth_methods (lookup event_name engine.events)

-- `_create_event_management_routes`
abbrev pub management_routes :
    {X D : Type 0}
    → Engine
    → String
    → EventDescriptor
    → Handler D
    → Result (RoutesError X) (List (Item D))
management_routes app_engine event_name info handler =
    app_route_name index_error app_engine.app (replace b'$' "/" (replace b'.' "/" event_name)) none
      "mgmt" info.route
    >>= λ base_route. ok (
        route get_method (String.◌++◌ base_route "/start") handler
        ∷ route get_method (String.◌++◌ base_route "/stop") (event_stop event_name)
        ∷ [])

-- The plug mode of the events that are set up, and `_effective_events`.
abbrev pub mode_of : Option Engine → EventPlugMode
mode_of none = standalone
mode_of (some p) = on_app

unfoldable pub with_mode : EventPlugMode → Dict EventDescriptor → Dict EventDescriptor
with_mode mode [] = []
with_mode mode ((event_name, info) ∷ events) =
    let rest = with_mode mode events in
    if same_mode info.plug_mode mode then (event_name, info) ∷ rest else rest

abbrev pub effective_events : Engine → Option Engine → Dict EventDescriptor
effective_events app_engine plugin =
    with_mode (mode_of plugin) (impl_of app_engine plugin).effective_events

abbrev pub api_route :
    {X : Type 0} → Engine → Option Engine → String → EventDescriptor → Result (RoutesError X) String
api_route app_engine plugin event_name info =
    app_route_name index_error app_engine.app event_name (plugin_app plugin) "api" info.route

-- `_create_get_event_route`
abbrev pub get_route :
    {X D : Type 0}
    → Engine
    → Option Engine
    → String
    → EventDescriptor
    → Result (RoutesError X) (List (Item D))
get_route app_engine plugin event_name info =
    api_route app_engine plugin event_name info >>= λ path.
    auth_types (impl_of app_engine plugin) event_name >>= λ auth.
    ok (route get_method path (get_invocation event_name auth) ∷ [])

-- `_create_post_event_route`, `_create_multipart_event_route`, with what finds the data type.
abbrev pub post_route :
    {X D : Type 0}
    → Engine
    → Option Engine
    → (String → D → List AuthType → Handler D)
    → String
    → EventDescriptor
    → Result X D
    → Result (RoutesError X) (List (Item D))
post_route app_engine plugin handler event_name info found = raised found >>= λ datatype.
    api_route app_engine plugin event_name info >>= λ path.
    auth_types (impl_of app_engine plugin) event_name >>= λ auth.
    ok (route post_method path (handler event_name datatype auth) ∷ [])

-- Only the app itself has routes to start and stop its events.
abbrev pub managed :
    {X D : Type 0}
    → Engine
    → Option Engine
    → String
    → EventDescriptor
    → Handler D
    → Result (RoutesError X) (List (Item D))
managed app_engine none event_name info handler =
    management_routes app_engine event_name info handler
managed app_engine (some p) event_name info handler = err (invalid_event_type event_name)

-- The items of an event, and then what is set up for the next ones, unless there is an error.
abbrev pub after_items :
    {X D : Type 0}
    → Result (RoutesError X) (List (Item D))
    → List (Item D) × Result {0, 0} (RoutesError X) Unit
    → List (Item D) × Result {0, 0} (RoutesError X) Unit
after_items (err e) rest = ([], err e)
after_items (ok items) rest = (items ++ rest.0, rest.1)

module _ {X D : Type 0} (find_datatype_handler : String → EventDescriptor → Result X D)
    (execute : String → Result {0, 0} X Unit) (app_engine : Engine) (plugin : Option Engine) where
  -- A round of the loop of `_setup_app_event_routes`.
  unfoldable pub event_items :
      String → EventDescriptor → EventType → Result (RoutesError X) (List (Item D))
  unfolding app_route_name
  event_items event_name info post =
      post_route app_engine plugin post_invocation event_name info
        (find_datatype_handler event_name info)
  event_items event_name info get = get_route app_engine plugin event_name info
  event_items event_name info multipart =
      post_route app_engine plugin multipart_invocation event_name info
        (find_datatype_handler event_name info)
  event_items event_name info stream =
      managed app_engine plugin event_name info (stream_start event_name)
  event_items event_name info service =
      managed app_engine plugin event_name info (service_start event_name)
  event_items event_name info setup =
      raised (execute event_name) >>= λ u. ok (executed event_name ∷ [])

  unfoldable pub setup_events :
      Dict EventDescriptor → List (Item D) × Result {0, 0} (RoutesError X) Unit
  unfolding event_items
  setup_events [] = ([], ok tt)
  setup_events ((event_name, info) ∷ events) =
      after_items (event_items event_name info info.event_type) (setup_events events)

  unfoldable pub setup_app_event_routes : List (Item D) × Result {0, 0} (RoutesError X) Unit
  unfolding setup_events with_mode
  setup_app_event_routes = setup_events (effective_events app_engine plugin)
