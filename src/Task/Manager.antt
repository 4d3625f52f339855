-- ===== src/Task/Manager.antt =====
-- kernel/src/task/manager.rs, and the calls of task/mod.rs that suspend or block the current task: the
-- ready queue and the queue of blocked tasks. Tasks are numbers.
use oskernel2023_main_os.Common.{if◌then◌else◌, ◌++◌, ◌==◌, ◌∷◌}
use oskernel2023_main_os.Common.{List, Option, [], contains, erase, none, some, ℕ}

pub data TaskStatus : Type 0 where
  ready running blocked : TaskStatus

pub record TaskManager : Type 0 where
  pub ready_queue : List ℕ
  pub block_queue : List ℕ

-- The manager, and the status in each task's control block
pub record Tasks : Type 0 where
  pub manager : TaskManager
  pub status : ℕ → TaskStatus

abbrev pub set_status : ℕ → TaskStatus → Tasks → Tasks
set_status t s w = record w { status = λ u. if t == u then s else w.status u }

unfoldable pub add_task : ℕ → Tasks → Tasks
add_task t w = record w {
  manager = record w.manager { ready_queue = w.manager.ready_queue ++ (t ∷ []) };
}

-- `fetch`
abbrev pub pop_ready : TaskManager → List ℕ → Option ℕ × TaskManager
pop_ready m [] = (none, m)
pop_ready m (t ∷ ts) = (some t, record m { ready_queue = ts })

unfoldable pub fetch_task : Tasks → Option ℕ × Tasks
fetch_task w =
    let (t, m) = pop_ready w.manager w.manager.ready_queue in (t, record w { manager = m })

-- `remove`: the first entry that is the task
unfoldable pub remove_task : ℕ → Tasks → Tasks
remove_task t w = record w {
  manager = record w.manager { ready_queue = erase t w.manager.ready_queue };
}

unfoldable pub block_task : ℕ → Tasks → Tasks
block_task t w = record w {
  manager = record w.manager { block_queue = w.manager.block_queue ++ (t ∷ []) };
}

unfoldable pub wakeup_task : ℕ → Tasks → Tasks
unfolding add_task
wakeup_task t w = add_task t (set_status t ready w)

unfoldable pub unblock_task : ℕ → Tasks → Tasks
unblock_task t w =
    let w' = set_status t ready w in
    if contains w.manager.block_queue t
    then record w' {
      manager = record {
        ready_queue = t ∷ w.manager.ready_queue;
        block_queue = erase t w.manager.block_queue;
      };
    }
    else w'

-- `suspend_current_and_run_next` and `block_current_and_run_next`, up to the switch
unfoldable pub suspend_current : ℕ → Tasks → Tasks
unfolding add_task
suspend_current current w = add_task current (set_status current ready w)

unfoldable pub block_current : ℕ → Tasks → Tasks
unfolding block_task
block_current current w = block_task current (set_status current blocked w)

-- `PID2PCB`: processes, which are numbers here, by their identifiers
abbrev pub ProcessMap : Type 0
ProcessMap = ℕ → Option ℕ

abbrev pub pid2process : ProcessMap → ℕ → Option ℕ
pid2process m pid = m pid

unfoldable pub insert_into_pid2process : ℕ → ℕ → ProcessMap → ProcessMap
insert_into_pid2process pid process m = λ p. if pid == p then some process else m p

-- `none` is the panic.
unfoldable pub remove_from_pid2process : ℕ → ProcessMap → Option ProcessMap
remove_from_pid2process pid m = elim (m pid) [
  | none ↦ none
  | some process ↦ some (λ p. if pid == p then none else m p)
]
