-- ===== src/Sync/Mutex.antt =====
-- kernel/src/sync/mutex.rs: `MutexBlocking`. Tasks are numbers; a task that a call blocks stays so until
-- a call of `wakeup_task` names it.
pub mod Exclusion
mod Tests
use oskernel2023_main_os.Common.{false, if◌then◌else◌, true, ◌++◌, ◌∷◌}
use oskernel2023_main_os.Common.{Bool, List, Option, [], none, some, ℕ}

pub record MutexBlocking : Type 0 where
  pub locked : Bool
  pub wait_queue : List ℕ

unfoldable pub new : MutexBlocking
new = record { locked = false; wait_queue = [] }

-- `lock` by a task: whether it blocks.
unfoldable pub lock : ℕ → MutexBlocking → Bool × MutexBlocking
lock current_task m =
    if m.locked
    then (true, record m { wait_queue = m.wait_queue ++ (current_task ∷ []) })
    else (false, record m { locked = true })

-- `unlock`: the task that it wakes up; `none` is the failing assertion.
abbrev pub wake_first : MutexBlocking → List ℕ → Option ℕ × MutexBlocking
wake_first m [] = (none, record m { locked = false })
wake_first m (waking ∷ rest) = (some waking, record m { wait_queue = rest })

unfoldable pub unlock : MutexBlocking → Option (Option ℕ × MutexBlocking)
unlock m = if m.locked then some (wake_first m m.wait_queue) else none

-- `MutexSpin`: one round of the loop of `lock` takes the mutex, or yields and begins again; whether it
-- took it, and the flag.
unfoldable pub spin_lock : Bool → Bool × Bool
spin_lock locked = if locked then (false, locked) else (true, true)

unfoldable pub spin_unlock : Bool → Bool
spin_unlock locked = false
