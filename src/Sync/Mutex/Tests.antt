-- ===== src/Sync/Mutex/Tests.antt =====
-- Two tasks at a mutex, and the theorem there.
use oskernel2023_main_os.Common.{true, ◌∷◌}
use oskernel2023_main_os.Common.{[], refl}
use oskernel2023_main_os.Sync.Mutex.{lock, new}
use oskernel2023_main_os.Sync.Mutex.Exclusion.{
  Exclusive, Reaches, Reaches-Exclusive, World, after, after, here, here, locks, start,
}

-- Task 1 holds the mutex and task 2 waits for it.
abbrev contended : World
contended = record {
  mutex = record { locked = true; wait_queue = 2 ∷ [] };
  holders = 1 ∷ [];
  blocked = 2 ∷ [];
}

contended-Reaches : Reaches start contended
unfolding new lock
contended-Reaches = after (after (here start) (locks 1 start refl refl)) (
    locks 2
      (record { mutex = record { locked = true; wait_queue = [] }; holders = 1 ∷ []; blocked = [] })
      refl refl)

Reaches-Exclusive_example : Exclusive contended
Reaches-Exclusive_example = Reaches-Exclusive contended contended-Reaches
