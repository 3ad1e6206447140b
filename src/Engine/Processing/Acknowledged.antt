-- ===== src/Engine/Processing/Acknowledged.antt =====
-- Which events `_process_stream_event` of engine/src/hopeit/server/engine.py acknowledges.
use mathlib.Core.List.{append-nil, append_assoc}
use hopeit_engine.Common.{
  ℕ, ◌<◌, ◌≡◌, ◌∙◌, refl, sym, ap, max, arith, true, false, Option, none, some, List, [], ◌∷◌, ◌++◌,
  String, Result, ok, err, length,
}
use hopeit_engine.Config.Defs.{WriteStreamDescriptor}
use hopeit_engine.Steps.Defs.{Trace, done, raised, yields}
use hopeit_engine.Engine.Publish.{Message, collect_results, flush, round, execute_event}
use hopeit_engine.Engine.Publish.Batches.{
  keep_message, outputs, ending, last_of, all_messages, Published, execute_event-Published,
}
use hopeit_engine.Engine.Reading.{StreamStats, inc, StreamEvent}
use hopeit_engine.Engine.Processing.{process_stream_event, after_execution, after_ack}

-- What a manager was asked for.
pub data Entry (V : Type 0) : Type 0 where
  sent : Message V → Entry V
  acknowledged : String → StreamEvent V → Entry V

-- A manager that keeps every acknowledgement, and never raises.
abbrev pub keep_ack :
    {V E : Type 0} → List (Entry V) → String → StreamEvent V → Result E (Unit {0}) × List (Entry V)
keep_ack log name e = (ok tt, log ++ acknowledged name e ∷ [])

-- What is published of some results: nothing, unless the event writes a stream.
abbrev pub published_to :
    {V : Type 0} → Option WriteStreamDescriptor → String → List V → List (Entry V)
published_to none queue items = []
published_to (some w) queue items = all_messages sent w queue items

module _ {V E : Type 0} (batch_size : ℕ) (w : Option WriteStreamDescriptor) (stats : StreamStats)
    (name : String) (e : StreamEvent V) where
  -- The outcome for an event with these results to publish, the exception at their end, and the last
  -- result.
  abbrev pub Processed :
      List (Entry V)
      → List V
      → Option E
      → Option V
      → Result E (Option V) × StreamStats × List (Entry V)
      → Type 0
  Processed log0 items none last (r, stats', log) =
      (r ≡ ok last)
      × (stats' ≡ inc false stats)
      × (log ≡ log0 ++ (published_to w e.queue items ++ acknowledged name e ∷ []))
  Processed log0 items (some x) last (r, stats', log) =
      (r ≡ err x)
      × (stats' ≡ inc true stats)
      × ((kept : List V) × (lost : List V) × (items ≡ kept ++ lost)
          × (log ≡ log0 ++ published_to w e.queue kept)
          × (length lost < max 1 batch_size))

  -- The outcome of the execution itself.
  abbrev pub Executed :
      List (Entry V) → List V → Option E → Option V → Result E (Option V) × List (Entry V) → Type 0
  Executed log0 items none last (r, log) =
      (r ≡ ok last) × (log ≡ log0 ++ published_to w e.queue items)
  Executed log0 items (some x) last (r, log) =
      (r ≡ err x)
      × ((kept : List V) × (lost : List V) × (items ≡ kept ++ lost)
          × (log ≡ log0 ++ published_to w e.queue kept)
          × (length lost < max 1 batch_size))

  executed-Processed :
      (handle : Option V → Trace E (Option V)) (log0 : List (Entry V)) (items : List V)
      (ended : Option E) (last : Option V) (o : Result E (Option V) × List (Entry V))
      → Executed log0 items ended last o
      → Processed log0 items ended last
          (after_execution handle (keep_message sent) keep_ack stats name e o)
  unfolding after_execution after_ack
  executed-Processed handle log0 items none last (ok r, log) (same, at) = (
    same,
    refl,
    ap (λ (l : List (Entry V)). l ++ acknowledged name e ∷ []) at
        ∙ append_assoc log0 (published_to w e.queue items) (acknowledged name e ∷ []),
  )
  executed-Processed handle log0 items none last (err x, log) (same, at) = cc
  executed-Processed handle log0 items (some x) last (err y, log) (same, published) =
      (same, refl, published)
  executed-Processed handle log0 items (some x) last (ok r, log) (same, published) = cc

module _ {V E : Type 0} (batch_size : ℕ) (stats : StreamStats) (name : String) (e : StreamEvent V)
    (log0 : List (Entry V)) where
  -- An event that writes no stream publishes nothing.
  collect_results-Executed :
      (batch : List V) (result : Option V) (t : Trace E (Option V))
      → Executed batch_size none stats name e log0
          (outputs t)
          (ending t)
          (last_of result t)
          (collect_results (keep_message sent) batch_size none e.queue log0 batch result t)
  unfolding collect_results flush round
  collect_results-Executed batch result done = (refl, sym (append-nil log0))
  collect_results-Executed batch result (raised x) =
      (refl, ([], [], refl, sym (append-nil log0), omega arith))
  collect_results-Executed batch result (yields none t) = collect_results-Executed batch none t
  collect_results-Executed batch result (yields (some v) t) =
      with_output v (ending t) (last_of (some v) t) _
        (collect_results-Executed (batch ++ v ∷ []) (some v) t)
    where
      with_output :
          (v : V) (ended : Option E) (last : Option V) (o : Result E (Option V) × List (Entry V))
          → Executed batch_size none stats name e log0 (outputs t) ended last o
          → Executed batch_size none stats name e log0 (v ∷ outputs t) ended last o
      with_output v none last o h = h
      with_output v (some x) last o (same, (kept, lost, cut, at, few)) =
          (same, (v ∷ kept, lost, ap (◌∷◌ v) cut, at, few))

  executed :
      (w : Option WriteStreamDescriptor) (t : Trace E (Option V))
      → Executed batch_size w stats name e log0
          (outputs t)
          (ending t)
          (last_of none t)
          (execute_event (keep_message sent) batch_size w e.queue log0 t)
  unfolding execute_event
  executed none t = collect_results-Executed [] none t
  executed (some w) t =
      from_published (ending t) _ (execute_event-Published sent batch_size w e.queue log0 t)
    where
      from_published :
          (ended : Option E) (o : Result E (Option V) × List (Entry V))
          → Published sent batch_size w e.queue log0 (outputs t) ended (last_of none t) o
          → Executed batch_size (some w) stats name e log0 (outputs t) ended (last_of none t) o
      from_published none o h = h
      from_published (some x) o h = h

module _ {V E : Type 0} (batch_size : ℕ) (w : Option WriteStreamDescriptor) (stats : StreamStats)
    (name : String) (e : StreamEvent V) where
  -- With a manager that never raises, an event is acknowledged exactly if its steps end without an
  -- exception, and only after the messages of all its results are published, which are none for an event
  -- that writes no stream. If they raise, it is not
  -- acknowledged, though results before may be published; and either way it is counted once, as an
  -- error exactly if they raise.
  pub process_stream_event-Processed :
      (handle : Option V → Trace E (Option V)) (log0 : List (Entry V))
      → Processed batch_size w stats name e log0
          (outputs (handle (some e.payload)))
          (ending (handle (some e.payload)))
          (last_of none (handle (some e.payload)))
          (process_stream_event handle (keep_message sent) keep_ack batch_size w stats log0 name e)
  unfolding process_stream_event
  process_stream_event-Processed handle log0 =
      executed-Processed batch_size w stats name e handle log0 (outputs (handle (some e.payload)))
        (ending (handle (some e.payload))) (last_of none (handle (some e.payload))) _
        (executed batch_size stats name e log0 w (handle (some e.payload)))
