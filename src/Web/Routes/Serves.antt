-- ===== src/Web/Routes/Serves.antt =====
-- `_setup_app_event_routes` of engine/src/hopeit/server/web.py: the items of each event.
use hopeit_engine.Common.{
  true, Option, List, [], ◌∷◌, String, Result, ok, err, if◌then◌else◌, ◌≡◌, refl, subst, ◌⊎◌, inl,
  inr, All, All-append, All-map, Any-append, Any, Bool-cases,
}
use hopeit_engine.Common.Dict.{Dict}
use hopeit_engine.Config.Defs.{EventPlugMode, standalone, on_app, EventDescriptor, same_mode}
use hopeit_engine.Web.Routes.Items.{ItemFor, AllFor, event_items-AllFor}
use hopeit_engine.Web.Routes.{
  Engine, RoutesError, Item, impl_of, mode_of, with_mode, effective_events, event_items,
  after_items, setup_events, setup_app_event_routes,
}

same_mode-≡ : (a b : EventPlugMode) → same_mode a b ≡ true → a ≡ b
same_mode-≡ standalone standalone h = refl
same_mode-≡ standalone on_app h = cc
same_mode-≡ on_app standalone h = cc
same_mode-≡ on_app on_app h = refl

-- What is found among the events of a mode has that mode.
Any-with_mode :
    (P : String × EventDescriptor → Type 0) (mode : EventPlugMode) (events : Dict EventDescriptor)
    → Any P (with_mode mode events)
    → Any (λ kv. (kv.1.plug_mode ≡ mode) × P kv) events
unfolding with_mode
Any-with_mode P mode [] h = h
Any-with_mode P mode ((name, info) ∷ events) h = elim (Bool-cases (same_mode info.plug_mode mode)) [
  | inl y ↦
      elim (subst
        (λ b. Any P (if b then (name, info) ∷ with_mode mode events else with_mode mode events)) y
        h) [
          | inl p ↦ inl (same_mode-≡ info.plug_mode mode y, p)
          | inr p ↦ inr (Any-with_mode P mode events p)
        ]
  | inr n ↦ inr (
      Any-with_mode P mode events (
        subst
          (λ b. Any P (if b then (name, info) ∷ with_mode mode events else with_mode mode events)) n
          h))
]

module _ {X D : Type 0} (find_datatype_handler : String → EventDescriptor → Result X D)
    (execute : String → Result {0, 0} X Unit) (app_engine : Engine) (plugin : Option Engine) where
  -- The events have their items, and if all of them are set up then each has one; otherwise the error
  -- is that of one of them.
  pub Outcome : Dict EventDescriptor → List (Item D) → Result {0, 0} (RoutesError X) Unit → Type 0
  Outcome events items r =
      ((r ≡ ok tt)
        × All (λ kv. Any (ItemFor find_datatype_handler execute app_engine plugin kv.0 kv.1) items)
            events)
      ⊎ ((e : RoutesError X) × (r ≡ err e)
          × Any
              (λ kv.
                event_items find_datatype_handler execute app_engine plugin kv.0 kv.1
                  kv.1.event_type
                ≡ err e)
              events)

  -- What is set up, and the outcome, for some events.
  SetUp : Dict EventDescriptor → List (Item D) × Result {0, 0} (RoutesError X) Unit → Type 0
  unfolding Outcome
  SetUp events done =
      All
        (λ item.
          Any (λ kv. ItemFor find_datatype_handler execute app_engine plugin kv.0 kv.1 item) events)
        done.0
      × Outcome events done.0 done.1

  after_items-SetUp :
      (name : String) (info : EventDescriptor) (events : Dict EventDescriptor)
      (r : Result (RoutesError X) (List (Item D)))
      (rest : List (Item D) × Result {0, 0} (RoutesError X) Unit)
      → event_items find_datatype_handler execute app_engine plugin name info info.event_type ≡ r
      → SetUp events rest
      → SetUp ((name, info) ∷ events) (after_items r rest)
  unfolding SetUp AllFor
  after_items-SetUp name info events (err e) rest q done = (tt, inr (e, refl, inl q))
  after_items-SetUp name info events (ok items) (others, r) q (sound, outcome) =
      let (own, some_own) =
        event_items-AllFor find_datatype_handler execute app_engine plugin name info info.event_type
          items refl q in
      (
        All-append _ items others
            (All-map (ItemFor find_datatype_handler execute app_engine plugin name info) _ items
              (λ i h. inl h) own)
            (All-map _ _ others (λ i h. inr h) sound),
        elim outcome [
          | inl (y, each) ↦ inl (
            y,
            (
              Any-append (ItemFor find_datatype_handler execute app_engine plugin name info) items
                  others (inl some_own),
              All-map _ _ events
                  (λ kv h.
                    Any-append (ItemFor find_datatype_handler execute app_engine plugin kv.0 kv.1)
                      items others (inr h))
                  each,
            ),
          )
          | inr (e, n, a) ↦ inr (e, n, inr a)
        ],
      )

  setup_events-SetUp :
      (events : Dict EventDescriptor)
      → SetUp events (setup_events find_datatype_handler execute app_engine plugin events)
  unfolding setup_events SetUp
  setup_events-SetUp [] = (tt, inl (refl, tt))
  setup_events-SetUp ((name, info) ∷ events) =
      after_items-SetUp name info events
        (event_items find_datatype_handler execute app_engine plugin name info info.event_type)
        (setup_events find_datatype_handler execute app_engine plugin events) refl
        (setup_events-SetUp events)

  -- Every route and every executed event belongs to an effective event of the engine that implements
  -- it, the plugin if one is given, with the plug mode STANDALONE for the app itself and ON_APP for a
  -- plugin: GET, POST and MULTIPART events have a route under the name that is theirs, whose handler
  -- checks the methods that the config of that engine gives for the event, or its defaults where it
  -- gives none, and only without a plugin are there routes that start and stop STREAM and SERVICE
  -- events. Either each effective event of the mode has one of these, or the setup ends with the error
  -- of one of them.
  pub setup_app_event_routes-Serves :
      let (items, r) = setup_app_event_routes find_datatype_handler execute app_engine plugin in
      All
        (λ item.
          Any
            (λ kv.
              (kv.1.plug_mode ≡ mode_of plugin)
              × ItemFor find_datatype_handler execute app_engine plugin kv.0 kv.1 item)
            (impl_of app_engine plugin).effective_events)
        items
      × Outcome (effective_events app_engine plugin) items r
  unfolding setup_app_event_routes SetUp
  setup_app_event_routes-Serves =
      let impl = impl_of app_engine plugin in
      let events = effective_events app_engine plugin in
      let (sound, outcome) = setup_events-SetUp events in
      (
        All-map _ _ (setup_events find_datatype_handler execute app_engine plugin events).0
            (λ i h.
              Any-with_mode
                (λ kv. ItemFor find_datatype_handler execute app_engine plugin kv.0 kv.1 i)
                (mode_of plugin) impl.effective_events h)
            sound,
        outcome,
      )
