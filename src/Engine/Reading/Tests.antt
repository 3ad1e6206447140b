-- ===== src/Engine/Reading/Tests.antt =====
-- Runs of the loop of `read_stream` in engine/src/hopeit/server/engine.py.
use hopeit_engine.Common.{
  ℕ, ◌+◌, ◌≤◌, ◌≡◌, refl, Bool, true, false, Option, none, some, List, [], ◌∷◌, String, Result, ok,
  length, arith, replicate, length-replicate,
}
use hopeit_engine.Engine.Reading.{
  StreamEvent, Read, event, ReadSettings, StreamStats, no_stats, inc, take_events, read_queues,
  process_all, read_stream_cycle, after_cycle, read_loop, read_name,
}
use hopeit_engine.Engine.Reading.Limit.{Ends, read_loop_limit}

-- A manager that gives as many events as it is asked for, and events that are processed.
abbrev read : ℕ → String → ℕ → List (Read ℕ) × ℕ
read s name size = (replicate size (event (record { queue = "AUTO"; payload = s })), s + 1)

abbrev process : ℕ → String → StreamEvent ℕ → Result String (Option ℕ) × ℕ
process s name e = (ok (some e.payload), s)

read_limited : (s : ℕ) (name : String) (size : ℕ) → length (read s name size).0 ≤ size
read_limited s name size =
    omega (arith, length-replicate size (event (record { queue = "AUTO"; payload = s })))

abbrev five_events : ReadSettings
five_events = record { max_events = 5; stop_when_empty = true; test_mode = false; batch_size = 3 }

abbrev is_locked : ℕ → Bool
is_locked s = true

read_loop_limit_example :
    Ends read process read_limited is_locked five_events "in" "AUTO"
      ("high" ∷ [])
      refl
      (omega arith)
      6
      (0, no_stats, none)
read_loop_limit_example =
    read_loop_limit read process read_limited is_locked five_events "in" "AUTO" ("high" ∷ []) refl
      (omega arith) 0

-- Two queues take a limit of five events to six.
abbrev events_of : Option (ℕ × StreamStats × Option (Result String (Option ℕ))) → Option ℕ
events_of none = none
events_of (some (s, stats, r)) = some stats.total_event_count

read_loop_test :
    events_of (
      read_loop read process is_locked five_events "in"
        ("AUTO" ∷ "high" ∷ [])
        6
        (0, no_stats, none))
    ≡ some 6
unfolding read_loop after_cycle read_stream_cycle process_all read_queues take_events inc read_name
read_loop_test = refl
