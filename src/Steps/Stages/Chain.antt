-- ===== src/Steps/Stages/Chain.antt =====
-- How the events that `split_event_stages` of engine/src/hopeit/server/steps.py makes are joined.
use hopeit_engine.Common.{◌≡◌, refl, ap, none, some, List, [], ◌∷◌, String, ok, ◌>>=◌, map, All}
use hopeit_engine.Common.Dict.{Dict, keys, IsDistinct, update-distinct}
use hopeit_engine.Config.Defs.{
  AppDescriptor, stream, ReadStreamDescriptor, WriteStreamDescriptor, propagate, EventDescriptor,
  event_descriptor, default_queues,
}
use hopeit_engine.Steps.Defs.{StepName, named}
use hopeit_engine.Steps.Stages.{
  extract_event_stages, stage_path, stage_event, queues, write_to, read_from, sub_event,
  next_events, sub_events, split_stages, split_event_stages,
}

module _ (app : AppDescriptor) (event_name : String) (event_info : EventDescriptor) where
  -- The event `f` of stage `t` reads, as a STREAM event in a group of its own and from the queues of
  -- the whole event, what the event `e` writes, and `e` writes with the queue that it read from.
  pub record Joined (t : String) (e f : EventDescriptor) : Type 0 where
    pub intermediate : WriteStreamDescriptor
    pub source : ReadStreamDescriptor
    pub writes : e.write_stream ≡ some intermediate
    pub reads : f.read_stream ≡ some source
    pub same_name : intermediate.name ≡ source.name
    pub own_group : source.consumer_group ≡ stage_path app event_name t
    pub all_queues : source.queues ≡ queues event_info
    pub one_queue : intermediate.queues ≡ default_queues
    pub propagates : intermediate.queue_strategy ≡ propagate
    pub is_stream : f.event_type ≡ stream

  -- The events of the stages behind that of `e`, with their names, each joined with the one before;
  -- the last one, or `e` if there are none, writes where the whole event writes.
  abbrev pub Continues : EventDescriptor → List String → Dict EventDescriptor → Type 0
  Continues e [] [] = e.write_stream ≡ event_info.write_stream
  Continues e (t ∷ names) ((k, f) ∷ events) =
      (k ≡ stage_event event_name t) × Joined t e f × Continues f names events
  Continues e [] (f ∷ events) = ⊥
  Continues e (t ∷ names) [] = ⊥

  -- Besides its type and its streams, an event has the implementation and the connections of the
  -- whole event, and every other field at its default.
  abbrev pub Reduced : String × EventDescriptor → Type 0
  Reduced (k, e) = e ≡ record (event_descriptor e.event_type) {
    impl = event_info.impl;
    connections = event_info.connections;
    read_stream = e.read_stream;
    write_stream = e.write_stream;
  }

  -- The events of an event that is split: the first has the whole event's name, type and source.
  abbrev pub Chain : List String → Dict EventDescriptor → Type 0
  Chain names [] = ⊥
  Chain names ((k, e) ∷ events) =
      (k ≡ event_name)
      × (e.event_type ≡ event_info.event_type)
      × (e.read_stream ≡ event_info.read_stream)
      × Continues e names events
      × All Reduced ((k, e) ∷ events)

  -- The events made for the stages behind `s`.
  abbrev Follow : String → EventDescriptor → List String → Type 0
  Follow s e names =
      (events : Dict EventDescriptor) × (next_events app event_name event_info
          (stage_path app event_name s) (map named names)
        ≡ ok events)
      × Continues e names events
      × All Reduced events
      × (keys events ≡ map (stage_event event_name) names)

  next_events-Follow :
      (s : String) (names : List String) (e : EventDescriptor)
      → e.write_stream ≡ write_to event_info (map named names) (stage_path app event_name s)
      → Follow s e names
  unfolding next_events
  next_events-Follow s [] e w = ([], refl, w, tt, refl)
  next_events-Follow s (t ∷ names) e w =
      let path : String = stage_path app event_name t in
      let f : EventDescriptor =
        sub_event event_info stream (read_from event_info (some (stage_path app event_name s)) path)
          (write_to event_info (map named names) path) in
      let (events, made, chain, reduced, named_so) = next_events-Follow t names f refl in
      (
        (stage_event event_name t, f) ∷ events,
        rw (made, ◌>>=◌) refl,
        (
          refl,
          record {
            intermediate = record {
              name = stage_path app event_name s;
              queues = default_queues;
              queue_strategy = propagate;
            };
            source = record {
              name = stage_path app event_name s;
              consumer_group = path;
              queues = queues event_info;
            };
            writes = w;
            reads = refl;
            same_name = refl;
            own_group = refl;
            all_queues = refl;
            one_queue = refl;
            propagates = refl;
            is_stream = refl;
          },
          chain,
        ),
        (refl, reduced),
        ap (◌∷◌ (stage_event event_name t)) named_so,
      )

  -- An event whose steps have two stages or more, with names that give different events, is split
  -- into one event for each stage, in order. The first keeps the event's name, type and source; each
  -- further one is a STREAM event in its own consumer group that reads, from the queues of the
  -- original event, the stream that the one before writes, on the queue it read from; the last one
  -- writes where the original event writes. Of the other settings, all events keep the implementation
  -- and the connections only: plug mode, route, auth, setting keys, dataobjects and group are at
  -- their defaults.
  pub split_event_stages-Chain :
      (steps : List StepName) (s t : String) (names : List String)
      → extract_event_stages steps ≡ ok (map named (s ∷ t ∷ names))
      → IsDistinct [] (event_name ∷ map (stage_event event_name) (t ∷ names))
      → (events : Dict EventDescriptor) × (split_event_stages app event_name event_info steps
          ≡ ok events)
        × Chain (t ∷ names) events
  unfolding split_event_stages split_stages sub_events
  split_event_stages-Chain steps s t names found distinct =
      let path : String = stage_path app event_name s in
      let e : EventDescriptor =
        sub_event event_info event_info.event_type (read_from event_info none path)
          (write_to event_info (map named (t ∷ names)) path) in
      let (events, made, chain, reduced, named_so) = next_events-Follow s (t ∷ names) e refl in
      (
        (event_name, e) ∷ events,
        rw (found, ◌>>=◌, made)
            (ap ok (update-distinct [] ((event_name, e) ∷ events) (rw named_so distinct))),
        (refl, refl, refl, chain, (refl, reduced)),
      )
