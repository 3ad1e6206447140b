-- ===== src/Engine/Processing.antt =====
-- `_process_stream_event` of engine/src/hopeit/server/engine.py: an event that was read is executed,
-- and acknowledged if that did not fail. The event's steps are the parameter `handle`, and the
-- manager's `write_stream` and `ack_read_stream` are `put` and `ack`. Cancellation, by the timeout
-- around the call, is left out.
pub mod Acknowledged
use hopeit_engine.Common.{ℕ, true, false, Option, some, String, Result, ok, err}
use hopeit_engine.Config.Defs.{WriteStreamDescriptor}
use hopeit_engine.Steps.Defs.{Trace}
use hopeit_engine.Engine.Publish.{Message, execute_event}
use hopeit_engine.Engine.Reading.{StreamStats, inc, StreamEvent}

module _ {V E S : Type 0} (handle : Option V → Trace E (Option V))
    (put : S → Message V → Result E (Unit {0}) × S)
    (ack : S → String → StreamEvent V → Result E (Unit {0}) × S) where
  -- `stats.inc(); return result`, or what the `except` clause does.
  after_ack :
      StreamStats → Option V → Result E (Unit {0}) × S → Result E (Option V) × StreamStats × S
  after_ack stats result (ok u, s) = (ok result, inc false stats, s)
  after_ack stats result (err e, s) = (err e, inc true stats, s)

  after_execution :
      StreamStats
      → String
      → StreamEvent V
      → Result E (Option V) × S
      → Result E (Option V) × StreamStats × S
  after_execution stats name e (ok result, s) = after_ack stats result (ack s name e)
  after_execution stats name e (err x, s) = (err x, inc true stats, s)

  pub process_stream_event :
      ℕ
      → Option WriteStreamDescriptor
      → StreamStats
      → S
      → String
      → StreamEvent V
      → Result E (Option V) × StreamStats × S
  unfolding after_execution after_ack
  process_stream_event batch_size w stats s name e =
      after_execution stats name e
        (execute_event put batch_size w e.queue s (handle (some e.payload)))
