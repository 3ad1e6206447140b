-- ===== src/Engine/Publish.antt =====
-- `_execute_event`, `_write_stream_batch` and `_write_stream` of
-- engine/src/hopeit/server/engine.py. The results of the event's steps are a Trace. The parameter
-- `put`, on a state of its own, is the awaited call of the stream manager with its arguments: it raises
-- what `as_data_event` raises for a payload that is no data object, and otherwise what `write_stream`
-- raises. The writes of a batch are made in the order in which `asyncio.gather` starts them; all of
-- them are made, and the first exception is raised. Compression, serialization, track ids and auth_info
-- are passed on unchanged by the code, and are left out of a message. The settings are complete, as
-- the assertions on them require.
pub mod Batches
pub mod Routing
use Prim.Native.String
use hopeit_engine.Common.{
  ℕ, Bool, true, false, not, ◌&&◌, Option, none, some, List, [], ◌∷◌, ◌++◌, String, Result, ok, err,
  leb, str_eq, if◌then◌else◌, length,
}
use hopeit_engine.Config.Defs.{auto, StreamQueueStrategy, propagate, drop, WriteStreamDescriptor}
use hopeit_engine.Steps.Defs.{Trace, done, raised, yields}

-- The arguments of the manager's `write_stream` that depend on the queues.
pub record Message (V : Type 0) : Type 0 where
  pub stream_name : String
  pub queue : String
  pub payload : V

abbrev pub is_auto : String → Bool
is_auto queue = str_eq queue auto

abbrev pub is_propagate : StreamQueueStrategy → Bool
is_propagate propagate = true
is_propagate drop = false

-- `f"{name}.{queue}"`
abbrev pub with_suffix : String → String → String
with_suffix name queue = String.◌++◌ name (String.◌++◌ "." queue)

-- `stream_name` for one configured queue.
pub stream_name : WriteStreamDescriptor → String → String → String
stream_name w upstream_queue configured_queue =
    if not (is_auto upstream_queue) && is_auto configured_queue && is_propagate w.queue_strategy
    then with_suffix w.name upstream_queue
    else if is_auto configured_queue
    then w.name
    else with_suffix w.name configured_queue

-- `queue_name` for one configured queue.
pub queue_name : WriteStreamDescriptor → String → String → String
queue_name w upstream_queue configured_queue =
    if is_propagate w.queue_strategy then upstream_queue else configured_queue

module _ {V : Type 0} where
  -- The messages of a payload, one for each configured queue.
  messages_to : WriteStreamDescriptor → String → List String → V → List (Message V)
  messages_to w upstream_queue [] payload = []
  messages_to w upstream_queue (q ∷ queues) payload =
      record {
        stream_name = stream_name w upstream_queue q;
        queue = queue_name w upstream_queue q;
        payload = payload;
      }
      ∷ messages_to w upstream_queue queues payload

  pub messages : WriteStreamDescriptor → String → V → List (Message V)
  unfolding messages_to
  messages w upstream_queue payload = messages_to w upstream_queue w.queues payload

  -- `if result is not None: batch.append(result)`
  abbrev pub collected : List V → Option V → List V
  collected batch none = batch
  collected batch (some v) = batch ++ v ∷ []

module _ {V E S : Type 0} (put : S → Message V → Result E (Unit {0}) × S) where
  -- `await` of a write that may raise, and what follows it.
  abbrev written {ℓ} :
      {A : Type ℓ} → Result E (Unit {0}) × S → (S → Result E A × S) → Result E A × S
  written (ok u, s) rest = rest s
  written (err e, s) rest = (err e, s)

  -- The loop of `_write_stream`, which ends at the first exception.
  put_all : S → List (Message V) → Result E (Unit {0}) × S
  put_all s [] = (ok tt, s)
  put_all s (m ∷ ms) = written (put s m) (λ s'. put_all s' ms)

  pub write_stream : WriteStreamDescriptor → String → S → V → Result E (Unit {0}) × S
  unfolding put_all messages
  write_stream w upstream_queue s payload = put_all s (messages w upstream_queue payload)

  abbrev first_error : Result E (Unit {0}) → Result E (Unit {0}) → Result E (Unit {0})
  first_error (ok u) r = r
  first_error (err e) r = err e

  pub write_stream_batch : WriteStreamDescriptor → String → S → List V → Result E (Unit {0}) × S
  unfolding write_stream
  write_stream_batch w upstream_queue s [] = (ok tt, s)
  write_stream_batch w upstream_queue s (item ∷ batch) =
      let (r, s1) = write_stream w upstream_queue s item in
      let (later, s2) = write_stream_batch w upstream_queue s1 batch in (first_error r later, s2)

  -- The writing behind the loop.
  abbrev ended : Result E (Unit {0}) × S → Option V → Result E (Option V) × S
  ended (ok u, s) result = (ok result, s)
  ended (err e, s) result = (err e, s)

  unfoldable pub flush :
      Option WriteStreamDescriptor → String → S → List V → Option V → Result E (Option V) × S
  unfolding write_stream_batch
  flush none upstream_queue s batch result = (ok result, s)
  flush (some w) upstream_queue s [] result = (ok result, s)
  flush (some w) upstream_queue s (v ∷ batch) result =
      ended (write_stream_batch w upstream_queue s (v ∷ batch)) result

  -- One round of the loop, with the results so far in `batch`; `rest` is the loop from then on.
  unfoldable pub round :
      ℕ
      → Option WriteStreamDescriptor
      → String
      → S
      → List V
      → (S → List V → Result E (Option V) × S)
      → Result E (Option V) × S
  unfolding write_stream_batch
  round batch_size none upstream_queue s batch rest = rest s batch
  round batch_size (some w) upstream_queue s batch rest =
      let later = rest s batch in
      if leb batch_size (length batch)
      then written (write_stream_batch w upstream_queue s batch) (λ s'. rest s' [])
      else later

  -- The loop, with the last result so far.
  unfoldable pub collect_results :
      ℕ
      → Option WriteStreamDescriptor
      → String
      → S
      → List V
      → Option V
      → Trace E (Option V)
      → Result E (Option V) × S
  unfolding flush round
  collect_results batch_size w upstream_queue s batch result done =
      flush w upstream_queue s batch result
  collect_results batch_size w upstream_queue s batch result (raised e) = (err e, s)
  collect_results batch_size w upstream_queue s batch result (yields r t) =
      round batch_size w upstream_queue s (collected batch r)
        (λ s' batch'. collect_results batch_size w upstream_queue s' batch' r t)

  unfoldable pub execute_event :
      ℕ → Option WriteStreamDescriptor → String → S → Trace E (Option V) → Result E (Option V) × S
  unfolding collect_results
  execute_event batch_size w upstream_queue s results =
      collect_results batch_size w upstream_queue s [] none results
