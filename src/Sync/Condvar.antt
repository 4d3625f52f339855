-- ===== src/Sync/Condvar.antt =====
-- kernel/src/sync/condvar.rs. The mutex is a blocking one; `wait` is cut in two where the task blocks.
use oskernel2023_main_os.Common.{◌++◌, ◌∷◌}
use oskernel2023_main_os.Common.{List, Option, [], none, some, ℕ}
use oskernel2023_main_os.Sync.Mutex.{MutexBlocking, unlock}
use oskernel2023_main_os.Task.Manager.{Tasks, block_current, wakeup_task}

-- `Condvar`: its queue of waiting tasks
abbrev pub Condvar : Type 0
Condvar = List ℕ

unfoldable pub signal : Condvar → Tasks → Condvar × Tasks
unfolding wakeup_task
signal [] w = ([], w)
signal (task ∷ rest) w = (rest, wakeup_task task w)

abbrev pub wake_next : Option ℕ → Tasks → Tasks
wake_next none w = w
wake_next (some t) w = wakeup_task t w

-- `wait`, up to the point at which the current task blocks; `lock` follows when it goes on. `none` is
-- the failing assertion of `unlock`.
unfoldable pub wait : ℕ → MutexBlocking → Condvar → Tasks → Option (MutexBlocking × Condvar × Tasks)
unfolding unlock block_current
wait current m queue w = elim (unlock m) [
  | none ↦ none
  | some (woken, m') ↦ some (m', queue ++ (current ∷ []), block_current current (wake_next woken w))
]
