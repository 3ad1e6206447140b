-- ===== src/Web/Routes/Items.antt =====
-- `_setup_app_event_routes` of engine/src/hopeit/server/web.py: the items of one event.
use Prim.Native.String
use hopeit_engine.Common.{
  Option, none, some, List, [], ◌∷◌, String, Result, ok, err, ◌≡◌, refl, subst, ◌⊎◌, inl, inr, All,
  Any, bind-ok,
}
use hopeit_engine.Common.Dict.{lookup}
use hopeit_engine.Config.Defs.{
  AuthType, EventType, get, post, stream, service, multipart, setup, EventDescriptor,
}
use hopeit_engine.Names.{replace}
use hopeit_engine.Web.Routes.{
  Engine, RoutesError, index_error, Handler, post_invocation, multipart_invocation, get_invocation,
  stream_start, service_start, event_stop, get_method, post_method, Item, route, executed,
  app_route_name, auth_or_default, raised, impl_of, auth_types_of, auth_types, api_route, get_route,
  post_route, managed, event_items,
}

raised-ok {ℓ} : {X : Type 0} {A : Type ℓ} (r : Result X A) (a : A) → raised r ≡ ok a → r ≡ ok a
raised-ok (ok b) a h = cc
raised-ok (err x) a h = cc

-- The methods of an event are its own, or the defaults if it has none.
auth_types-configured :
    {X : Type 0} (name : String) (defaults auth : List AuthType) (o : Option EventDescriptor)
    → auth_types_of {X = X} name defaults o ≡ ok auth
    → (config : EventDescriptor) × (o ≡ some config) × (auth ≡ auth_or_default config.auth defaults)
auth_types-configured name defaults auth none h = cc
auth_types-configured name defaults auth (some config) h = (config, refl, cc)

module _ {X D : Type 0} (find_datatype_handler : String → EventDescriptor → Result X D)
    (execute : String → Result {0, 0} X Unit) (app_engine : Engine) (plugin : Option Engine) where
  -- `auth` are the methods that the config of the engine that has the event gives for it.
  unfoldable pub Configured : String → List AuthType → Type 0
  Configured name auth =
      (config : EventDescriptor) × (lookup name (impl_of app_engine plugin).events ≡ some config)
      × (auth ≡ auth_or_default config.auth (impl_of app_engine plugin).default_auth_methods)

  -- The items that an event may have.
  pub data ItemFor (name : String) (info : EventDescriptor) : Item D → Type 0 where
    posted :
        (path : String) (datatype : D) (auth : List AuthType)
        → info.event_type ≡ post
        → find_datatype_handler name info ≡ ok datatype
        → api_route {X = X} app_engine plugin name info ≡ ok path
        → Configured name auth
        → ItemFor name info (route post_method path (post_invocation name datatype auth))
    uploaded :
        (path : String) (datatype : D) (auth : List AuthType)
        → info.event_type ≡ multipart
        → find_datatype_handler name info ≡ ok datatype
        → api_route {X = X} app_engine plugin name info ≡ ok path
        → Configured name auth
        → ItemFor name info (route post_method path (multipart_invocation name datatype auth))
    got :
        (path : String) (auth : List AuthType)
        → info.event_type ≡ get
        → api_route {X = X} app_engine plugin name info ≡ ok path
        → Configured name auth
        → ItemFor name info (route get_method path (get_invocation name auth))
    started :
        (path : String)
        → info.event_type ≡ stream
        → plugin ≡ none
        → ItemFor name info (route get_method path (stream_start name))
    service_started :
        (path : String)
        → info.event_type ≡ service
        → plugin ≡ none
        → ItemFor name info (route get_method path (service_start name))
    stopped :
        (path : String)
        → (info.event_type ≡ stream) ⊎ (info.event_type ≡ service)
        → plugin ≡ none
        → ItemFor name info (route get_method path (event_stop name))
    set_up : info.event_type ≡ setup → ItemFor name info (executed name)

  -- Items of one event, at least one.
  unfoldable pub AllFor : String → EventDescriptor → List (Item D) → Type 0
  AllFor name info items = All (ItemFor name info) items × Any (ItemFor name info) items

  one_item :
      (name : String) (info : EventDescriptor) (item : Item D) (items : List (Item D))
      → ItemFor name info item
      → ◌≡◌ {A = Result (RoutesError X) (List (Item D))} (ok (item ∷ [])) (ok items)
      → AllFor name info items
  unfolding AllFor
  one_item name info item items i h =
      subst (λ xs. All (ItemFor name info) xs × Any (ItemFor name info) xs) {x = item ∷ []}
        {y = items} (cc) ((i, tt), inl i)

  posts-AllFor :
      (handler : String → D → List AuthType → Handler D) (name : String) (info : EventDescriptor)
      (items : List (Item D))
      → ((path : String) (datatype : D) (auth : List AuthType)
          → find_datatype_handler name info ≡ ok datatype
          → api_route {X = X} app_engine plugin name info ≡ ok path
          → Configured name auth
          → ItemFor name info (route post_method path (handler name datatype auth)))
      → post_route app_engine plugin handler name info (find_datatype_handler name info) ≡ ok items
      → AllFor name info items
  unfolding Configured
  posts-AllFor handler name info items f h =
      let impl = impl_of app_engine plugin in
      let (d, qd, h1) = bind-ok (raised (find_datatype_handler name info)) _ h in
      let (path, qp, h2) = bind-ok (api_route app_engine plugin name info) _ h1 in
      let (auth, qa, h3) = bind-ok (auth_types impl name) _ h2 in
      one_item name info _ items
        (f path d auth (raised-ok (find_datatype_handler name info) d qd) qp (
          auth_types-configured {X = X} name impl.default_auth_methods auth
            (lookup name impl.events) qa))
        h3

  get-AllFor :
      (name : String) (info : EventDescriptor) (items : List (Item D))
      → info.event_type ≡ get
      → get_route {X = X} app_engine plugin name info ≡ ok items
      → AllFor name info items
  unfolding Configured
  get-AllFor name info items t h =
      let impl = impl_of app_engine plugin in
      let (path, qp, h1) = bind-ok (api_route {X = X} app_engine plugin name info) _ h in
      let (auth, qa, h2) = bind-ok (auth_types impl name) _ h1 in
      one_item name info _ items
        (got path auth t qp (
          auth_types-configured {X = X} name impl.default_auth_methods auth
            (lookup name impl.events) qa))
        h2

  managed-AllFor :
      (p : Option Engine) (name : String) (info : EventDescriptor) (handler : Handler D)
      (items : List (Item D))
      → plugin ≡ p
      → (info.event_type ≡ stream) ⊎ (info.event_type ≡ service)
      → ((path : String) → plugin ≡ none → ItemFor name info (route get_method path handler))
      → managed {X = X} app_engine p name info handler ≡ ok items
      → AllFor name info items
  unfolding AllFor
  managed-AllFor (some e) name info handler items q t f h = cc
  managed-AllFor none name info handler items q t f h =
      let (base, qb, h1) =
        bind-ok
          (app_route_name {E = RoutesError X} index_error app_engine.app
            (replace b'$' "/" (replace b'.' "/" name)) none "mgmt" info.route)
          _ h in
      let start = f (String.◌++◌ base "/start") q in
      subst (λ xs. All (ItemFor name info) xs × Any (ItemFor name info) xs)
        {x = route get_method (String.◌++◌ base "/start") handler
          ∷ route get_method (String.◌++◌ base "/stop") (event_stop name)
          ∷ []}
        {y = items} (cc) ((start, (stopped (String.◌++◌ base "/stop") t q, tt)), inl start)

  pub event_items-AllFor :
      (name : String) (info : EventDescriptor) (type : EventType) (items : List (Item D))
      → info.event_type ≡ type
      → event_items find_datatype_handler execute app_engine plugin name info type ≡ ok items
      → AllFor name info items
  unfolding event_items
  event_items-AllFor name info post items t h =
      posts-AllFor post_invocation name info items
        (λ path d auth. λ qd qp qa. posted path d auth t qd qp qa) h
  event_items-AllFor name info get items t h = get-AllFor name info items t h
  event_items-AllFor name info multipart items t h =
      posts-AllFor multipart_invocation name info items
        (λ path d auth. λ qd qp qa. uploaded path d auth t qd qp qa) h
  event_items-AllFor name info stream items t h =
      managed-AllFor plugin name info (stream_start name) items refl (inl t)
        (λ path q. started path t q) h
  event_items-AllFor name info service items t h =
      managed-AllFor plugin name info (service_start name) items refl (inr t)
        (λ path q. service_started path t q) h
  event_items-AllFor name info setup items t h =
      let (u, qu, h1) = bind-ok {A = Unit} (raised (execute name)) _ h in
      one_item name info (executed name) items (set_up t) h1
