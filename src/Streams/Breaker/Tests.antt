-- ===== src/Streams/Breaker/Tests.antt =====
-- Runs of the breaker in engine/src/hopeit/streams/__init__.py.
use hopeit_engine.Common.{◌≡◌, refl, List, [], ◌∷◌, true, arith}
use hopeit_engine.Streams.Breaker.{
  Settings, Breaker, Session, Event, closed, handle_failure, recover, started, run, may_proceed,
  write_stream, breaker_open, Outcome, returned, os_error, succeed, fail, writes, reads, acks,
  sleeps, wakes, step, write_begins, other_begins, call_ends, begin_call, end_call, read_stream,
  ack_read_stream, start_backoff_wait, end_backoff_wait,
}
use hopeit_engine.Streams.Breaker.Invariant.{IsValid, run-IsValid}
use hopeit_engine.Streams.Breaker.Failures.{failures, after_failures, failures-closed}

abbrev settings : Settings
settings = record {
  initial_backoff_seconds = 1;
  num_failures_open_circuit_breaker = 3;
  max_backoff_seconds = 60;
}

abbrev events : List Event
events =
    reads os_error
    ∷ sleeps
    ∷ writes (returned tt)
    ∷ wakes
    ∷ writes os_error
    ∷ write_begins
    ∷ other_begins
    ∷ call_ends (returned tt)
    ∷ call_ends os_error
    ∷ acks (returned tt)
    ∷ []

abbrev open_now : Breaker
open_now = record { state = 2; num_failures = 3; backoff = 4 }

open_now-IsValid : IsValid settings open_now
open_now-IsValid = ground arith

run_test : (run settings started events).breaker ≡ closed
unfolding run step read_stream write_stream ack_read_stream start_backoff_wait end_backoff_wait
    begin_call end_call may_proceed succeed fail handle_failure recover
run_test = refl

failures_test : failures settings 5 closed ≡ record { state = 2; num_failures = 3; backoff = 4 }
unfolding failures handle_failure
failures_test = refl

abbrev backing_off : Session
backing_off = record { breaker = open_now; locked = true; waiting = 0; calls = 0 }

abbrev success : Outcome (Unit {0})
success = returned tt

write_stream_test : write_stream settings backing_off success ≡ (breaker_open, backing_off)
unfolding write_stream
write_stream_test = refl

run-IsValid_example : IsValid settings (run settings started events).breaker
run-IsValid_example = run-IsValid settings events

failures-closed_example : failures settings 5 closed ≡ after_failures settings 5
failures-closed_example = failures-closed settings 4 (omega arith)
