-- ===== src/Streams/Breaker.antt =====
-- class StreamCircuitBreaker of engine/src/hopeit/streams/__init__.py. Seconds are counted in a
-- fixed unit that divides the configured backoffs; a state is the code's 0, 1 or 2.
-- An operation is one step if nothing else runs during its call; otherwise it is two, its gate and
-- its end, with any steps of other tasks in between.
pub mod Invariant
pub mod Failures
mod Tests
use hopeit_engine.Common.{
  ℕ, suc, ◌+◌, ◌-◌, ◌*◌, min, Bool, true, false, leb, ◌==◌, if◌then◌else◌, List, [], ◌∷◌,
}

-- The constructor's arguments.
pub record Settings : Type 0 where
  pub initial_backoff_seconds : ℕ
  pub num_failures_open_circuit_breaker : ℕ
  pub max_backoff_seconds : ℕ

pub record Breaker : Type 0 where
  pub state : ℕ
  pub num_failures : ℕ
  pub backoff : ℕ

abbrev pub closed : Breaker
closed = record { state = 0; num_failures = 0; backoff = 0 }

module _ (s : Settings) where
  pub handle_failure : Breaker → Breaker
  handle_failure b =
      if b.state == 0
      then record {
        state = b.state + 1;
        num_failures = b.num_failures + 1;
        backoff = s.initial_backoff_seconds;
      }
      else if b.state == 1
      then (if leb s.num_failures_open_circuit_breaker (b.num_failures + 1)
          then record b { state = b.state + 1; num_failures = b.num_failures + 1 }
          else record b { num_failures = b.num_failures + 1 })
      else record b { backoff = min s.max_backoff_seconds (2 * b.backoff) }

  -- `num_failures - 1` on an integer; `Invariant.recover-IsValid` keeps it at 1 or more.
  pub recover : Breaker → Breaker
  recover b =
      let state : ℕ = b.state - 1 in
      record {
        state = state;
        num_failures = if state == 0 then 0 else b.num_failures - 1;
        backoff = if state == 0 then 0 else s.initial_backoff_seconds;
      }

-- How a call of the wrapped stream manager ended: it returned, it raised `StreamOSError`, or it
-- raised something else, which no operation catches.
pub data Outcome {ℓ} (A : Type ℓ) : Type ℓ where
  returned : A → Outcome A
  os_error other_error : Outcome A

-- What the caller of an operation gets. `read_stream` hands a `StreamOSError` over as a list with
-- that one error, and `ack_read_stream` swallows it.
pub data Reply {ℓ} (A : Type ℓ) : Type ℓ where
  value : A → Reply A
  breaker_open raised other_raised read_error swallowed : Reply A

-- The breaker, the lock that a running `_start_backoff_wait` holds, the number of those tasks
-- that were created and wait for the lock, and the number of calls of the wrapped stream manager that
-- passed the gate of their operation and have not ended.
pub record Session : Type 0 where
  pub breaker : Breaker
  pub locked : Bool
  pub waiting : ℕ
  pub calls : ℕ

abbrev pub started : Session
started = record { breaker = closed; locked = false; waiting = 0; calls = 0 }

module _ (s : Settings) where
  -- `self._recover()` after a call that returned.
  succeed : Session → Session
  succeed w = record w { breaker = recover s w.breaker }

  -- `self._handle_failure(e)` and `asyncio.create_task(self._start_backoff_wait())`.
  fail : Session → Session
  fail w = record w { breaker = handle_failure s w.breaker; waiting = suc w.waiting }

  module _ {ℓ} {A : Type ℓ} where
    pub write_stream : Session → Outcome A → Reply A × Session
    write_stream w (returned a) = if w.locked then (breaker_open, w) else (value a, succeed w)
    write_stream w os_error = if w.locked then (breaker_open, w) else (raised, fail w)
    write_stream w other_error = if w.locked then (breaker_open, w) else (other_raised, w)

    pub read_stream : Session → Outcome A → Reply A × Session
    read_stream w (returned a) = (value a, succeed w)
    read_stream w os_error = (read_error, fail w)
    read_stream w other_error = (other_raised, w)

    pub ensure_consumer_group : Session → Outcome A → Reply A × Session
    ensure_consumer_group w (returned a) = (value a, succeed w)
    ensure_consumer_group w os_error = (raised, fail w)
    ensure_consumer_group w other_error = (other_raised, w)

    pub ack_read_stream : Session → Outcome A → Reply A × Session
    ack_read_stream w (returned a) = (value a, succeed w)
    ack_read_stream w os_error = (swallowed, fail w)
    ack_read_stream w other_error = (other_raised, w)

  -- A call that ends, which does the same to the session in each of the operations.
  pub end_call : Session → Outcome (Unit {0}) → Session
  end_call w (returned a) = succeed w
  end_call w os_error = fail w
  end_call w other_error = w

-- `_wait_backoff` lets a read, an acknowledgement or a group call through.
pub may_proceed : Session → Bool
may_proceed w = if w.breaker.backoff == 0 then true else if w.locked then false else true

-- A waiting `_start_backoff_wait` gets the free lock; it sleeps if the backoff is above 0.
pub start_backoff_wait : Session → Session
start_backoff_wait w =
    if w.locked
    then w
    else if w.waiting == 0
    then w
    else record w { locked = true; waiting = w.waiting - 1 }

-- Its sleep ends, and it releases the lock.
pub end_backoff_wait : Session → Session
end_backoff_wait w = record w { locked = false }

-- A call that passed its gate.
pub begin_call : Session → Session
begin_call w = record w { calls = suc w.calls }

-- What happens to a session: an operation from its gate to its end, the gate of an operation, which
-- is that of `write_stream` or that of the others, the end of a call that passed a gate earlier, or a
-- move of a backoff task.
pub data Event : Type 0 where
  writes reads ensures acks : Outcome (Unit {0}) → Event
  write_begins other_begins : Event
  call_ends : Outcome (Unit {0}) → Event
  sleeps wakes : Event

module _ (s : Settings) where
  -- A read, an acknowledgement or a group call that must wait happens later, as another event.
  pub step : Session → Event → Session
  step w (writes o) = (write_stream s w o).1
  step w (reads o) = if may_proceed w then (read_stream s w o).1 else w
  step w (ensures o) = if may_proceed w then (ensure_consumer_group s w o).1 else w
  step w (acks o) = if may_proceed w then (ack_read_stream s w o).1 else w
  step w write_begins = if w.locked then w else begin_call w
  step w other_begins = if may_proceed w then begin_call w else w
  step w (call_ends o) = if w.calls == 0 then w else end_call s (record w { calls = w.calls - 1 }) o
  step w sleeps = start_backoff_wait w
  step w wakes = end_backoff_wait w

  pub run : Session → List Event → Session
  run w [] = w
  run w (e ∷ es) = run (step w e) es
