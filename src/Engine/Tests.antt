-- ===== src/Engine/Tests.antt =====
-- Runs of engine/src/hopeit/server/engine.py.
use hopeit_engine.Common.{◌+◌, ℕ, ◌≡◌, refl, Option, none, some, [], ◌∷◌, String}
use hopeit_engine.Engine.Reading.{StreamEvent, no_stats}
use hopeit_engine.Engine.Processing.{process_stream_event}
use hopeit_engine.Engine.Processing.Acknowledged.{
  sent, keep_ack, Processed, process_stream_event-Processed,
}
use hopeit_engine.Config.Defs.{
  AppDescriptor, EventDescriptor, event_descriptor, WriteStreamDescriptor, ReadStreamDescriptor,
  propagate, drop, default_queues, post, stream,
}
use hopeit_engine.Steps.Defs.{Trace, done, raised, yields}
use hopeit_engine.Steps.Stages.{stage_path}
use hopeit_engine.Steps.Stages.Chain.{Joined}
use hopeit_engine.Engine.Publish.{messages, execute_event}
use hopeit_engine.Engine.Publish.Batches.{
  keep_message, outputs, ending, last_of, Published, execute_event-Published,
}
use hopeit_engine.Engine.Publish.Routing.{routed, Joined-messages}

abbrev two_queues : WriteStreamDescriptor
two_queues = record { name = "out"; queues = "AUTO" ∷ "high" ∷ []; queue_strategy = drop }

-- Two results, with None between them, and then an exception.
abbrev results : Trace String (Option ℕ)
results = yields (some 1) (yields none (yields (some 2) (raised "broken")))

execute_event-Published_example :
    Published
      (λ m. m)
      2
      two_queues
      "AUTO"
      []
      (outputs results)
      (ending results)
      (last_of none results)
      (execute_event (keep_message (λ m. m)) 2 (some two_queues) "AUTO" [] results)
execute_event-Published_example = execute_event-Published (λ m. m) 2 two_queues "AUTO" [] results

abbrev item : ℕ
item = 7

abbrev app : AppDescriptor
app = record { name = "simple-example"; version = "1.0" }

abbrev whole : EventDescriptor
whole = event_descriptor post

abbrev between : WriteStreamDescriptor
between = record { name = "link"; queues = default_queues; queue_strategy = propagate }

abbrev link : ReadStreamDescriptor
link = record {
  name = "link";
  consumer_group = stage_path app "shuffled" "consume";
  queues = default_queues;
}

abbrev produce : EventDescriptor
produce = record (event_descriptor post) { write_stream = some between }

abbrev consume : EventDescriptor
consume = record (event_descriptor stream) { read_stream = some link }

produce-Joined : Joined app "shuffled" whole "consume" produce consume
produce-Joined = record {
  intermediate = between;
  source = link;
  writes = refl;
  reads = refl;
  same_name = refl;
  own_group = refl;
  all_queues = refl;
  one_queue = refl;
  propagates = refl;
  is_stream = refl;
}

Joined-messages_example :
    (w : WriteStreamDescriptor) × (r : ReadStreamDescriptor) × (produce.write_stream ≡ some w)
    × (consume.read_stream ≡ some r)
    × (messages w "high" item ≡ routed r.name "high" item ∷ [])
Joined-messages_example =
    Joined-messages app "shuffled" whole "consume" produce consume "high" item produce-Joined

-- Steps that double their payload, and refuse an event without one.
abbrev double : Option ℕ → Trace String (Option ℕ)
double none = raised "no payload"
double (some n) = yields (some (n + n)) done

abbrev received : StreamEvent ℕ
received = record { queue = "high"; payload = 4 }

process_stream_event-Processed_example :
    Processed {E = String} 3 (some two_queues) no_stats "in" received [] (8 ∷ []) none (some 8) (
      process_stream_event double
        (keep_message sent)
        keep_ack
        3
        (some two_queues)
        no_stats
        []
        "in"
        received)
process_stream_event-Processed_example =
    process_stream_event-Processed 3 (some two_queues) no_stats "in" received double []
