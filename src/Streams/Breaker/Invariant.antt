-- ===== src/Streams/Breaker/Invariant.antt =====
-- What every breaker satisfies that the stream operations can reach, in
-- engine/src/hopeit/streams/__init__.py.
use hopeit_engine.Common.{◌-◌, ◌≤◌, ◌≡◌, max, List, [], ◌∷◌, arith}
use hopeit_engine.Streams.Breaker.{
  Settings, Breaker, Session, Event, Outcome, returned, os_error, other_error, handle_failure,
  recover, succeed, fail, write_stream, read_stream, ensure_consumer_group, ack_read_stream,
  start_backoff_wait, end_backoff_wait, step, run, writes, reads, ensures, acks, sleeps, wakes,
  started, write_begins, other_begins, call_ends, begin_call, end_call,
}

-- The three states, the failures counted in each, and the backoff that goes with them.
pub record IsValid (s : Settings) (b : Breaker) : Type 0 where
  pub known : b.state ≤ 2
  pub counted : b.state ≤ b.num_failures
  pub closed_clean : b.state ≡ 0 → b.num_failures ≡ 0
  pub closed_ready : b.state ≡ 0 → b.backoff ≡ 0
  pub semi_open : b.state ≡ 1 → b.backoff ≡ s.initial_backoff_seconds
  pub bounded : b.backoff ≤ max s.initial_backoff_seconds s.max_backoff_seconds

module _ (s : Settings) where
  pub handle_failure-IsValid : (b : Breaker) → IsValid s b → IsValid s (handle_failure s b)
  unfolding handle_failure
  handle_failure-IsValid b v = ground arith

  pub recover-IsValid : (b : Breaker) → IsValid s b → IsValid s (recover s b)
  unfolding recover
  recover-IsValid b v = ground arith

  succeed-IsValid : (w : Session) → IsValid s w.breaker → IsValid s (succeed s w).breaker
  unfolding succeed
  succeed-IsValid w v = recover-IsValid w.breaker v

  fail-IsValid : (w : Session) → IsValid s w.breaker → IsValid s (fail s w).breaker
  unfolding fail
  fail-IsValid w v = handle_failure-IsValid w.breaker v

  start_backoff_wait-IsValid :
      (w : Session) → IsValid s w.breaker → IsValid s (start_backoff_wait w).breaker
  unfolding start_backoff_wait
  start_backoff_wait-IsValid w v = ground arith

  end_backoff_wait-IsValid :
      (w : Session) → IsValid s w.breaker → IsValid s (end_backoff_wait w).breaker
  unfolding end_backoff_wait
  end_backoff_wait-IsValid w v = v

  write_stream-IsValid :
      (w : Session) (o : Outcome (Unit {0}))
      → IsValid s w.breaker
      → IsValid s (write_stream s w o).1.breaker
  unfolding write_stream
  write_stream-IsValid w (returned a) v = ground (arith, succeed-IsValid w v)
  write_stream-IsValid w os_error v = ground (arith, fail-IsValid w v)
  write_stream-IsValid w other_error v = ground arith

  end_call-IsValid :
      (w : Session) (o : Outcome (Unit {0}))
      → IsValid s w.breaker
      → IsValid s (end_call s w o).breaker
  unfolding end_call
  end_call-IsValid w (returned a) v = succeed-IsValid w v
  end_call-IsValid w os_error v = fail-IsValid w v
  end_call-IsValid w other_error v = v

  pub step-IsValid :
      (w : Session) (e : Event) → IsValid s w.breaker → IsValid s (step s w e).breaker
  unfolding step begin_call read_stream ensure_consumer_group ack_read_stream
  step-IsValid w (writes o) v = write_stream-IsValid w o v
  step-IsValid w (reads (returned a)) v = ground (arith, succeed-IsValid w v)
  step-IsValid w (reads os_error) v = ground (arith, fail-IsValid w v)
  step-IsValid w (reads other_error) v = ground arith
  step-IsValid w (ensures (returned a)) v = ground (arith, succeed-IsValid w v)
  step-IsValid w (ensures os_error) v = ground (arith, fail-IsValid w v)
  step-IsValid w (ensures other_error) v = ground arith
  step-IsValid w (acks (returned a)) v = ground (arith, succeed-IsValid w v)
  step-IsValid w (acks os_error) v = ground (arith, fail-IsValid w v)
  step-IsValid w (acks other_error) v = ground arith
  step-IsValid w write_begins v = ground arith
  step-IsValid w other_begins v = ground arith
  step-IsValid w (call_ends o) v =
      ground (arith, end_call-IsValid (record w { calls = w.calls - 1 }) o v)
  step-IsValid w sleeps v = start_backoff_wait-IsValid w v
  step-IsValid w wakes v = end_backoff_wait-IsValid w v

  run_keeps : (w : Session) (es : List Event) → IsValid s w.breaker → IsValid s (run s w es).breaker
  unfolding run
  run_keeps w [] v = v
  run_keeps w (e ∷ es) v = run_keeps (step s w e) es (step-IsValid w e v)

-- Whatever operations and backoff tasks run from the start, also while calls of other operations are
-- on their way, the breaker stays in one of its three
-- states, the failure count covers the state (so that no recovery makes it negative), a closed
-- breaker has no failures and no backoff, a semi-open one has the initial backoff, and the backoff
-- never exceeds the larger of the two configured values.
pub run-IsValid : (s : Settings) (es : List Event) → IsValid s (run s started es).breaker
run-IsValid s es = run_keeps s started es (ground arith)
