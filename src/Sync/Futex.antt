-- ===== src/Sync/Futex.antt =====
-- kernel/src/sync/futex.rs: `futex_wait`, up to the point at which the task blocks, and `futex_signal`.
-- The word at the address is what the user's memory holds there.
pub mod Waiters
mod Tests
use oskernel2023_main_os.Common.{eagain, einval, if◌then◌else◌, suc, zero, ◌+◌, ◌==◌, ◌∷◌}
use oskernel2023_main_os.Common.{List, Option, Result, [], err, none, ok, some, ℕ}
use oskernel2023_main_os.Task.Manager.{Tasks, block_current, unblock_task}

-- `Futex`: the queues of waiting tasks by address
abbrev pub Futex : Type 0
Futex = ℕ → Option (List ℕ)

abbrev pub set_queue : ℕ → List ℕ → Futex → Futex
set_queue uaddr q f = λ a. if uaddr == a then some q else f a

abbrev pub queue_or_new : Option (List ℕ) → List ℕ
queue_or_new none = []
queue_or_new (some q) = q

-- The timeout is computed and not used.
unfoldable pub futex_wait : ℕ → ℕ → ℕ → ℕ → Futex → Tasks → Result ℕ × Futex × Tasks
unfolding block_current
futex_wait uaddr futex_word val thread f w =
    if futex_word == val
    then (ok 0, set_queue uaddr (thread ∷ queue_or_new (f uaddr)) f, block_current thread w)
    else (err eagain, f, w)

-- The loop, with `left` rounds to go after `cnt`
unfoldable pub signal_from : ℕ → ℕ → ℕ → Futex → Tasks → Result ℕ × Futex × Tasks
unfolding unblock_task
signal_from zero cnt uaddr f w = (ok cnt, f, w)
signal_from (suc left) cnt uaddr f w = elim (f uaddr) [
  | none ↦ (err einval, f, w)
  | some q ↦ elim q [
    | [] ↦ (ok (cnt + 1), f, w)
    | thread ∷ rest ↦
        signal_from left (cnt + 1) uaddr (set_queue uaddr rest f) (unblock_task thread w)
  ]
]

unfoldable pub futex_signal : ℕ → ℕ → Futex → Tasks → Result ℕ × Futex × Tasks
unfolding signal_from
futex_signal uaddr val f w = signal_from val 0 uaddr f w
