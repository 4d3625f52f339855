-- ===== src/Sync/Semaphore/Tests.antt =====
-- A semaphore with tasks 7 and 8 waiting, and the theorems there.
use oskernel2023_main_os.Common.{true, ◌-◌, ◌^◌, ◌∷◌, ◌≡◌}
use oskernel2023_main_os.Common.{[], arith, refl, some}
use oskernel2023_main_os.Sync.Semaphore.{Semaphore, down, up}
use oskernel2023_main_os.Sync.Semaphore.Counting.{Represents, down-take_permit, up-give_permit}
use oskernel2023_main_os.Sync.Semaphore.Counting.{queue}

abbrev waited_for : Semaphore
waited_for = record { count = 2 ^ 64 - 2; wait_queue = 7 ∷ 8 ∷ [] }

wakes_first : (up waited_for).0 ≡ some 7
unfolding up
wakes_first = refl

waited_for-Represents : Represents waited_for (queue (7 ∷ 8 ∷ []))
waited_for-Represents = (refl, refl, omega arith)

down-take_permit_example :
    ((down 9 waited_for).0 ≡ true) × Represents (down 9 waited_for).1 (queue (7 ∷ 8 ∷ 9 ∷ []))
down-take_permit_example =
    down-take_permit 9 waited_for (queue (7 ∷ 8 ∷ [])) waited_for-Represents (omega arith)

up-give_permit_example :
    ((up waited_for).0 ≡ some 7) × Represents (up waited_for).1 (queue (8 ∷ []))
up-give_permit_example =
    up-give_permit waited_for (queue (7 ∷ 8 ∷ [])) waited_for-Represents (omega arith)
