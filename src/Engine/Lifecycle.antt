-- ===== src/Engine/Lifecycle.antt =====
-- The running state of one event: `start_event`, `stop_event`, `is_running` and `_event_task_done` of
-- engine/src/hopeit/server/engine.py, with what its task does to the lock `_running[event_name]` in
-- `read_stream` and `service_loop`.
pub mod Restart
mod Tests
use hopeit_engine.Common.{
  Bool, true, false, ◌||◌, Option, none, some, List, [], ◌∷◌, Result, ok, err, if◌then◌else◌,
}
use hopeit_engine.Config.Defs.{EventType, get, post, stream, service, multipart, setup}

-- A task that is not done: created, and waiting to start; holding the lock, or asked to stop since
-- it held it; or cancelled.
pub data Phase : Type 0 where
  created acquired cancelled : Phase

-- The lock, and the task in `_event_tasks` unless it is done.
pub record Slot : Type 0 where
  pub locked : Bool
  pub task : Option Phase

abbrev pub stopped : Slot
stopped = record { locked = false; task = none }

pub data LifecycleError : Type 0 where
  engine_stopping already_running key_error cannot_stop : LifecycleError

abbrev pub has_task : Option Phase → Bool
has_task none = false
has_task (some p) = true

pub is_running : Slot → Bool
is_running s = s.locked || has_task s.task

abbrev pub is_background : EventType → Bool
is_background stream = true
is_background service = true
is_background get = false
is_background post = false
is_background multipart = false
is_background setup = false

-- `stopping` is `_stopping` of the engine. Only STREAM and SERVICE events have a lock: `is_running`
-- raises KeyError for the others.
pub start_event : Bool → EventType → Slot → Result LifecycleError (Unit {0}) × Slot
unfolding is_running
start_event stopping event_type s =
    if stopping
    then (err engine_stopping, s)
    else if is_background event_type
    then (if is_running s
        then (err already_running, s)
        else (ok tt, record s { task = some created }))
    else (err key_error, s)

pub stop_event : Slot → Result LifecycleError (Unit {0}) × Slot
stop_event s =
    if s.locked
    then (ok tt, record s { locked = false })
    else if has_task s.task
    then (ok tt, record s { task = some cancelled })
    else (err cannot_stop, s)

-- A task takes the lock; if it is taken, the assertion before fails, and the task is done.
pub acquire : Slot → Slot
acquire s = elim s.task [
  | none ↦ s
  | some created ↦
      if s.locked
      then record s { task = none }
      else record s { locked = true; task = some acquired }
  | some acquired ↦ s
  | some cancelled ↦ s
]

-- A task is done: it releases the lock, if it has taken it and it is still locked, and is removed.
pub task_done : Slot → Slot
task_done s = elim s.task [
  | none ↦ s
  | some created ↦ record s { task = none }
  | some acquired ↦ record { locked = false; task = none }
  | some cancelled ↦ record s { task = none }
]

-- What happens to an event: a call, or a move of its task.
pub data Move : Type 0 where
  starts : Bool → EventType → Move
  stops acquires ends : Move

pub step : Move → Slot → Slot
unfolding start_event stop_event acquire task_done
step (starts stopping event_type) s = (start_event stopping event_type s).1
step stops s = (stop_event s).1
step acquires s = acquire s
step ends s = task_done s

pub run : List Move → Slot → Slot
unfolding step
run [] s = s
run (m ∷ moves) s = run moves (step m s)
