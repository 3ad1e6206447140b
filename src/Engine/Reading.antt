-- ===== src/Engine/Reading.antt =====
-- `_read_stream_cycle` and the loop of `read_stream` of engine/src/hopeit/server/engine.py, with the
-- counts of StreamStats of engine/src/hopeit/server/metrics.py. The stream manager's `read_stream`,
-- which gives events and exceptions, and `_process_stream_event_with_timeout`, which gives a result or
-- an exception, are parameters, on a state that has the lock `_running[event_name]`. Events of a
-- cycle are processed in the order in which `asyncio.gather` starts them.
pub mod Limit
mod Tests
use hopeit_engine.Common.{
  ℕ, zero, suc, ◌+◌, ◌-◌, min, Bool, true, false, not, ◌&&◌, ◌||◌, Option, none, some, List, [],
  ◌∷◌, ◌++◌, String, Result, ok, err, leb, ◌==◌, if◌then◌else◌,
}
use hopeit_engine.Engine.Publish.{is_auto, with_suffix}

-- The counts of StreamStats.
pub record StreamStats : Type 0 where
  pub event_count : ℕ
  pub error_count : ℕ
  pub total_event_count : ℕ
  pub total_error_count : ℕ

abbrev pub no_stats : StreamStats
no_stats = record { event_count = 0; error_count = 0; total_event_count = 0; total_error_count = 0 }

pub inc : Bool → StreamStats → StreamStats
inc error s = record {
  event_count = s.event_count + 1;
  error_count = if error then s.error_count + 1 else s.error_count;
  total_event_count = s.total_event_count + 1;
  total_error_count = if error then s.total_error_count + 1 else s.total_error_count;
}

pub record StreamEvent (V : Type 0) : Type 0 where
  pub queue : String
  pub payload : V

-- An entry of the list that the manager gives.
pub data Read (V : Type 0) : Type 0 where
  read_error : Read V
  event : StreamEvent V → Read V

-- The stream that is read for a queue.
unfoldable pub read_name : String → String → String
read_name name queue = if is_auto queue then name else with_suffix name queue

-- The arguments of `read_stream`; `max_events` is 0 for none.
pub record ReadSettings : Type 0 where
  pub max_events : ℕ
  pub stop_when_empty : Bool
  pub test_mode : Bool
  pub batch_size : ℕ

module _ {V E : Type 0} where
  abbrev pub is_error : Result E (Option V) → Bool
  is_error (ok r) = false
  is_error (err e) = true

module _ {V : Type 0} where
  abbrev pub is_empty : List (String × StreamEvent V) → Bool
  is_empty [] = true
  is_empty (e ∷ batch) = false

  -- The entries of one read: the errors are counted, the events wait with their stream.
  take_events :
      StreamStats
      → List (String × StreamEvent V)
      → String
      → List (Read V)
      → StreamStats × List (String × StreamEvent V)
  take_events stats batch name [] = (stats, batch)
  take_events stats batch name (read_error ∷ reads) = take_events (inc true stats) batch name reads
  take_events stats batch name (event e ∷ reads) =
      take_events stats (batch ++ (name, e) ∷ []) name reads

-- `min(remaining, batch_size) if max_events else batch_size`
abbrev pub cycle_size : ReadSettings → StreamStats → ℕ
cycle_size c stats =
    if c.max_events == 0
    then c.batch_size
    else min (c.max_events - stats.total_event_count) c.batch_size

-- `max_events and remaining <= 0`
abbrev pub is_exhausted : ReadSettings → StreamStats → Bool
is_exhausted c stats = not (c.max_events == 0) && leb c.max_events stats.total_event_count

module _ {V E S : Type 0} (read : S → String → ℕ → List (Read V) × S)
    (process : S → String → StreamEvent V → Result E (Option V) × S) where
  read_queues :
      S
      → StreamStats
      → List (String × StreamEvent V)
      → String
      → List String
      → ℕ
      → S × StreamStats × List (String × StreamEvent V)
  read_queues s stats batch name [] batch_size = (s, stats, batch)
  read_queues s stats batch name (queue ∷ queues) batch_size =
      let (reads, s1) = read s (read_name name queue) batch_size in
      let (stats1, batch1) = take_events stats batch (read_name name queue) reads in
      read_queues s1 stats1 batch1 name queues batch_size

  process_all :
      S
      → StreamStats
      → Option (Result E (Option V))
      → List (String × StreamEvent V)
      → S × StreamStats × Option (Result E (Option V))
  process_all s stats last_res [] = (s, stats, last_res)
  process_all s stats last_res ((name, e) ∷ batch) =
      let (r, s1) = process s name e in process_all s1 (inc (is_error r) stats) (some r) batch

  -- The state, the counts, the last result, and whether there was no event, `last_context is None`.
  pub read_stream_cycle :
      S
      → StreamStats
      → String
      → List String
      → ℕ
      → (S × StreamStats × Option (Result E (Option V))) × Bool
  unfolding read_queues process_all
  read_stream_cycle s stats name queues batch_size =
      let (s1, stats1, batch) = read_queues s stats [] name queues batch_size in
      (process_all s1 stats1 none batch, is_empty batch)

  module _ (locked : S → Bool) (c : ReadSettings) (name : String) (queues : List String) where
    -- `rest` is the loop after a cycle, unless the cycle has released the lock, in test mode, or was
    -- empty.
    after_cycle :
        Bool
        → S × StreamStats × Option (Result E (Option V))
        → Option (S × StreamStats × Option (Result E (Option V)))
        → Option (S × StreamStats × Option (Result E (Option V)))
    after_cycle ends found rest = if ends then some found else rest

    -- The loop, with fuel; `none` is that it ran out.
    pub read_loop :
        ℕ
        → S × StreamStats × Option (Result E (Option V))
        → Option (S × StreamStats × Option (Result E (Option V)))
    unfolding read_stream_cycle after_cycle
    read_loop zero found = none
    read_loop (suc n) (s, stats, last_res) =
        let next = read_stream_cycle s stats name queues (cycle_size c stats) in
        let rest = read_loop n next.0 in
        let ends : Bool = c.test_mode || (c.stop_when_empty && next.1) in
        let found = after_cycle ends next.0 rest in
        if locked s && not (is_exhausted c stats) then found else some (s, stats, last_res)
