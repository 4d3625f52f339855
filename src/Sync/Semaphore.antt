-- ===== src/Sync/Semaphore.antt =====
-- kernel/src/sync/semaphore.rs. The count is an `isize`, in two's complement; a task that a call blocks
-- stays so until a call of `wakeup_task` names it.
pub mod Counting
mod Tests
use oskernel2023_main_os.Common.{
  add64, false, if◌then◌else◌, leb, sub64, true, ◌++◌, ◌==◌, ◌^◌, ◌||◌, ◌∷◌,
}
use oskernel2023_main_os.Common.{Bool, List, Option, [], none, some, ℕ}

pub record Semaphore : Type 0 where
  pub count : ℕ
  pub wait_queue : List ℕ

unfoldable pub new : ℕ → Semaphore
new res_count = record { count = res_count; wait_queue = [] }

-- `count < 0` and `count <= 0`
abbrev pub negative : ℕ → Bool
negative count = leb (2 ^ 63) count

abbrev pub not_positive : ℕ → Bool
not_positive count = count == 0 || negative count

abbrev pub wake_first : Semaphore → List ℕ → Option ℕ × Semaphore
wake_first s [] = (none, s)
wake_first s (task ∷ rest) = (some task, record s { wait_queue = rest })

-- `up`: the task that it wakes up, if any
unfoldable pub up : Semaphore → Option ℕ × Semaphore
up s =
    let s' : Semaphore = record s { count = add64 s.count 1 } in
    if not_positive s'.count then wake_first s' s'.wait_queue else (none, s')

-- `down` by a task: whether it blocks.
unfoldable pub down : ℕ → Semaphore → Bool × Semaphore
down current_task s =
    let count = sub64 s.count 1 in
    if negative count
    then (true, record { count = count; wait_queue = s.wait_queue ++ (current_task ∷ []) })
    else (false, record { count = count; wait_queue = s.wait_queue })
