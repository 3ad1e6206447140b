-- ===== src/Engine/Publish/Routing.antt =====
-- How a queue passes through the streams between the stages of an event, in
-- engine/src/hopeit/server/engine.py.
use hopeit_engine.Common.{◌≡◌, refl, Bool-cases, inl, inr, [], ◌∷◌, String, some, ap, ◌∙◌}
use hopeit_engine.Config.Defs.{
  AppDescriptor, EventDescriptor, WriteStreamDescriptor, ReadStreamDescriptor, propagate,
  default_queues,
}
use hopeit_engine.Steps.Stages.Chain.{Joined}
use hopeit_engine.Engine.Publish.{Message, messages, messages_to, stream_name, queue_name, is_auto}
use hopeit_engine.Engine.Reading.{read_name}

described :
    (w : WriteStreamDescriptor) (name : String)
    → w.name ≡ name
    → w.queues ≡ default_queues
    → w.queue_strategy ≡ propagate
    → w ≡ record { name = name; queues = default_queues; queue_strategy = propagate }
described w name n q s = cc

module _ {V : Type 0} where
  -- The one message of a payload between stages, for a queue.
  abbrev pub routed : String → String → V → Message V
  routed name queue payload = record {
    stream_name = read_name name queue;
    queue = queue;
    payload = payload;
  }

  propagated :
      (name queue : String) (payload : V)
      → messages
          (record { name = name; queues = default_queues; queue_strategy = propagate })
          queue
          payload
        ≡ routed name queue payload ∷ []
  unfolding messages messages_to stream_name queue_name read_name
  propagated name queue payload = elim (Bool-cases (is_auto queue)) [
    | inl auto_queue ↦ rw auto_queue refl
    | inr own_queue ↦ rw own_queue refl
  ]

  -- Between two events that are joined, a payload that came from a queue is written once, with that
  -- queue, to the stream that the second event reads for that queue.
  pub Joined-messages :
      (app : AppDescriptor) (event_name : String) (event_info : EventDescriptor) (t : String)
      (e f : EventDescriptor) (queue : String) (payload : V)
      → Joined app event_name event_info t e f
      → (w : WriteStreamDescriptor) × (r : ReadStreamDescriptor) × (e.write_stream ≡ some w)
        × (f.read_stream ≡ some r)
        × (messages w queue payload ≡ routed r.name queue payload ∷ [])
  Joined-messages app event_name event_info t e f queue payload j = (
    j.intermediate,
    j.source,
    j.writes,
    j.reads,
    ap (λ (w : WriteStreamDescriptor). messages w queue payload)
          (described j.intermediate j.source.name j.same_name j.one_queue j.propagates)
        ∙ propagated j.source.name queue payload,
  )
