-- ===== src/Sync/Semaphore/Counting.antt =====
-- A semaphore as a number of permits, or a queue of tasks that wait for one.
use oskernel2023_main_os.Common.{
  false, length, length-append, refl, suc, true, zero, ◌%◌, ◌++◌, ◌+◌, ◌-◌, ◌<◌, ◌^◌, ◌∷◌, ◌≡◌,
}
use oskernel2023_main_os.Common.{Bool, List, Option, [], arith, none, some, ℕ}
use oskernel2023_main_os.Sync.Semaphore.{Semaphore, down, new, up}

pub data Permits : Type 0 where
  permits : ℕ → Permits
  queue : List ℕ → Permits

-- `Represents s p`, with fewer than 2 ^ 62 permits or waiting tasks
abbrev pub Represents : Semaphore → Permits → Type 0
Represents s (permits n) = (s.count ≡ n) × (s.wait_queue ≡ []) × (n < 2 ^ 62)
Represents s (queue q) =
    (s.count ≡ (2 ^ 64 - length q) % 2 ^ 64) × (s.wait_queue ≡ q) × (length q < 2 ^ 62)

-- What `down` and `up` promise: `down` takes a permit, or waits behind all others; `up` lets the first
-- task that waits go on, or adds a permit.
abbrev pub take_permit : ℕ → Permits → Bool × Permits
take_permit t (permits zero) = (true, queue (t ∷ []))
take_permit t (permits (suc n)) = (false, permits n)
take_permit t (queue q) = (true, queue (q ++ (t ∷ [])))

abbrev pub give_permit : Permits → Option ℕ × Permits
give_permit (permits n) = (none, permits (n + 1))
give_permit (queue []) = (none, permits 1)
give_permit (queue (t ∷ ts)) = (some t, queue ts)

-- With no permit left and no task waiting, the two forms represent the same.
pub new-Represents : (n : ℕ) → n < 2 ^ 62 → Represents (new n) (permits n)
unfolding new
new-Represents n h = (refl, refl, h)

abbrev pub size : Permits → ℕ
size (permits n) = n
size (queue q) = length q

-- On a semaphore with permits, or with tasks that wait, fewer than 2 ^ 62 - 1 of them, `down`
-- takes a permit if there is one, and otherwise blocks the task behind all that wait.
pub down-take_permit :
    (t : ℕ) (s : Semaphore) (p : Permits)
    → Represents s p
    → size p + 1 < 2 ^ 62
    → ((down t s).0 ≡ (take_permit t p).0) × Represents (down t s).1 (take_permit t p).1
unfolding down
down-take_permit t s (permits zero) r h = ground arith
down-take_permit t s (permits (suc n)) r h = ground arith
down-take_permit t s (queue q) r h = ground (arith, length-append q (t ∷ []))

-- On a semaphore with permits, or with tasks that wait, fewer than 2 ^ 62 - 1 of them, `up` wakes
-- up the task that has waited longest, if any waits, and otherwise adds a permit.
pub up-give_permit :
    (s : Semaphore) (p : Permits)
    → Represents s p
    → size p + 1 < 2 ^ 62
    → ((up s).0 ≡ (give_permit p).0) × Represents (up s).1 (give_permit p).1
unfolding up
up-give_permit s (permits n) r h = ground arith
up-give_permit s (queue []) r h = ground arith
up-give_permit s (queue (t ∷ ts)) r h = ground arith
