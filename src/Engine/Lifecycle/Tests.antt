-- ===== src/Engine/Lifecycle/Tests.antt =====
-- Runs of the running state of an event in engine/src/hopeit/server/engine.py.
use hopeit_engine.Common.{◌≡◌, ◌⊎◌, refl, true, false, some, List, [], ◌∷◌, ok, err}
use hopeit_engine.Config.Defs.{stream}
use hopeit_engine.Engine.Lifecycle.{
  stopped, is_running, start_event, stop_event, acquire, task_done, Move, starts, acquires, step,
  run, acquired, cancelled, already_running,
}
use hopeit_engine.Engine.Lifecycle.Restart.{IsValid, run-stopped-IsValid, stop_and_restart}

abbrev moves : List Move
moves = starts false stream ∷ acquires ∷ []

started-running : is_running (run moves stopped) ≡ true
unfolding is_running run step start_event acquire
started-running = refl

run-stopped-IsValid_example : IsValid (run moves stopped)
run-stopped-IsValid_example = run-stopped-IsValid moves

stop_and_restart_example :
    ((stop_event (run moves stopped)).0 ≡ ok tt)
    × ((stop_event (run moves stopped)).1.locked ≡ false)
    × (((stop_event (run moves stopped)).1.task ≡ some cancelled)
        ⊎ (((run moves stopped).locked ≡ true)
            × ((stop_event (run moves stopped)).1.task ≡ (run moves stopped).task)))
    × (is_running (stop_event (run moves stopped)).1 ≡ true)
    × (start_event false stream (stop_event (run moves stopped)).1
        ≡ (err already_running, (stop_event (run moves stopped)).1))
    × (is_running (task_done (stop_event (run moves stopped)).1) ≡ false)
    × ((start_event false stream (task_done (stop_event (run moves stopped)).1)).0 ≡ ok tt)
    × (acquire (start_event false stream (task_done (stop_event (run moves stopped)).1)).1
        ≡ record { locked = true; task = some acquired })
stop_and_restart_example = stop_and_restart moves stream refl started-running
