-- ===== src/Sync/Futex/Tests.antt =====
-- Tasks 7 and 8 waiting at address 64, and the theorems there.
use oskernel2023_main_os.Common.{eagain, if◌then◌else◌, leb, ◌+◌, ◌∷◌, ◌≡◌, ◌≢◌}
use oskernel2023_main_os.Common.{[], drop, err, none, ok, refl, some, take, ℕ}
use oskernel2023_main_os.Task.Manager.{Tasks, running}
use oskernel2023_main_os.Sync.Futex.{Futex, futex_signal, futex_wait, set_queue}
use oskernel2023_main_os.Sync.Futex.Waiters.{
  futex_signal-futex_wait, futex_signal-wakes, unblock_all,
}

abbrev waiting : Futex
waiting = set_queue 64 (8 ∷ 7 ∷ []) (λ a. none)

abbrev tasks : Tasks
tasks = record {
  manager = record { ready_queue = 3 ∷ []; block_queue = 7 ∷ 8 ∷ [] };
  status = λ t. running;
}

-- One task is woken up, and two are counted.
counts_one_more : (futex_signal 64 2 (set_queue 64 (8 ∷ []) (λ a. none)) tasks).0 ≡ ok 2
unfolding futex_signal
counts_one_more = refl

mismatch : (futex_wait 64 1 2 9 waiting tasks).0 ≡ err eagain
unfolding futex_wait
mismatch = refl

futex_signal-wakes_example :
    (f' : Futex) × (futex_signal 64 3 waiting tasks
      ≡ (ok (if leb 3 2 then 3 else 2 + 1), f', unblock_all (take 3 (8 ∷ 7 ∷ [])) tasks))
    × (f' 64 ≡ some (drop 3 (8 ∷ 7 ∷ [])))
    × ((a : ℕ) → 64 ≢ a → f' a ≡ waiting a)
futex_signal-wakes_example = futex_signal-wakes 64 3 (8 ∷ 7 ∷ []) waiting tasks refl

futex_signal-futex_wait_example :
    (f' : Futex) × (w' : Tasks) × (futex_signal 64 1
        (futex_wait 64 5 5 9 waiting tasks).1
        (futex_wait 64 5 5 9 waiting tasks).2
      ≡ (ok 1, f', w'))
    × (f' 64 ≡ some (8 ∷ 7 ∷ []))
    × (w'.manager.ready_queue ≡ 9 ∷ 3 ∷ [])
    × (w'.manager.block_queue ≡ 7 ∷ 8 ∷ [])
futex_signal-futex_wait_example =
    futex_signal-futex_wait 64 5 9 (8 ∷ 7 ∷ []) waiting tasks refl refl
