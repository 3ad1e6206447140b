-- ===== src/Engine/Lifecycle/Restart.antt =====
-- What holds of the running state of an event in engine/src/hopeit/server/engine.py.
use hopeit_engine.Common.{◌≡◌, true, false, some, ◌⊎◌, List, [], ◌∷◌, ok, err, arith}
use hopeit_engine.Config.Defs.{EventType}
use hopeit_engine.Engine.Lifecycle.{
  acquired, cancelled, Slot, stopped, already_running, is_running, is_background, start_event,
  stop_event, acquire, task_done, Move, starts, stops, acquires, ends, step, run,
}

-- The lock is only held by a task that has taken it.
abbrev pub IsValid : Slot → Type 0
IsValid s = s.locked ≡ true → s.task ≡ some acquired

step-IsValid : (m : Move) (s : Slot) → IsValid s → IsValid (step m s)
unfolding step start_event stop_event acquire task_done is_running
step-IsValid (starts stopping event_type) s v = ground arith
step-IsValid stops s v = ground arith
step-IsValid acquires s v = ground arith
step-IsValid ends s v = ground arith

run_from-IsValid : (moves : List Move) (s : Slot) → IsValid s → IsValid (run moves s)
unfolding run
run_from-IsValid [] s v = v
run_from-IsValid (m ∷ moves) s v = run_from-IsValid moves (step m s) (step-IsValid m s v)

-- Whatever calls and moves of tasks happen to an event that is not running at first, the lock is only
-- ever held by its one task, once that has taken it.
pub run-stopped-IsValid : (moves : List Move) → IsValid (run moves stopped)
run-stopped-IsValid moves = run_from-IsValid moves stopped (λ e. cc)

restarts :
    (event_type : EventType) (s : Slot)
    → is_background event_type ≡ true
    → IsValid s
    → is_running s ≡ true
    → let s1 = (stop_event s).1 in
      ((stop_event s).0 ≡ ok tt)
      × (s1.locked ≡ false)
      × ((s1.task ≡ some cancelled) ⊎ ((s.locked ≡ true) × (s1.task ≡ s.task)))
      × (is_running s1 ≡ true)
      × (start_event false event_type s1 ≡ (err already_running, s1))
      × (is_running (task_done s1) ≡ false)
      × ((start_event false event_type (task_done s1)).0 ≡ ok tt)
      × (acquire (start_event false event_type (task_done s1)).1
          ≡ record { locked = true; task = some acquired })
unfolding start_event stop_event acquire task_done is_running
restarts event_type s b v r = ground arith

-- An event that is running, however it came to that, can be stopped: its lock, which the loop of its
-- task looks at, is released if it was held, and else its task is cancelled. It then still counts as
-- running, and starting it is refused, until its task is done; then it is not running, and a STREAM
-- or SERVICE event can be started again and takes the lock, unless the engine is stopping.
pub stop_and_restart :
    (moves : List Move) (event_type : EventType)
    → is_background event_type ≡ true
    → is_running (run moves stopped) ≡ true
    → let s1 = (stop_event (run moves stopped)).1 in
      ((stop_event (run moves stopped)).0 ≡ ok tt)
      × (s1.locked ≡ false)
      × ((s1.task ≡ some cancelled)
          ⊎ (((run moves stopped).locked ≡ true) × (s1.task ≡ (run moves stopped).task)))
      × (is_running s1 ≡ true)
      × (start_event false event_type s1 ≡ (err already_running, s1))
      × (is_running (task_done s1) ≡ false)
      × ((start_event false event_type (task_done s1)).0 ≡ ok tt)
      × (acquire (start_event false event_type (task_done s1)).1
          ≡ record { locked = true; task = some acquired })
stop_and_restart moves event_type b r =
    restarts event_type (run moves stopped) b (run-stopped-IsValid moves) r
