-- ===== src/Sync/Mutex/Exclusion.antt =====
-- Tasks that lock and unlock one mutex.
use oskernel2023_main_os.Common.{
  Distinct, Distinct-snoc, arith, contains, contains-snoc, erase, false, refl, subst, sym, true,
  ◌++◌, ◌∷◌, ◌≡◌,
}
use oskernel2023_main_os.Common.{Bool, List, Option, [], none, some, ℕ}
use oskernel2023_main_os.Sync.Mutex.{MutexBlocking, lock, new, unlock}

-- The mutex, the tasks that hold it, and the tasks that it has blocked, in the order in which they came.
-- A task holds it from the return of its `lock` on until it calls `unlock`.
pub record World : Type 0 where
  pub mutex : MutexBlocking
  pub holders : List ℕ
  pub blocked : List ℕ

abbrev pub locked_by : ℕ → World → Bool × MutexBlocking → World
locked_by t w (true, m) = record { mutex = m; holders = w.holders; blocked = w.blocked ++ (t ∷ []) }
locked_by t w (false, m) = record { mutex = m; holders = t ∷ w.holders; blocked = w.blocked }

abbrev pub unlocked_by : ℕ → World → Option ℕ × MutexBlocking → World
unlocked_by t w (none, m) = record { mutex = m; holders = erase t w.holders; blocked = w.blocked }
unlocked_by t w (some woken, m) = record {
  mutex = m;
  holders = woken ∷ erase t w.holders;
  blocked = erase woken w.blocked;
}

-- A task that neither holds the mutex nor is blocked locks it, and a holder unlocks it.
pub data Step : World → World → Type 0 where
  locks :
      (t : ℕ) (w : World)
      → contains w.holders t ≡ false
      → contains w.blocked t ≡ false
      → Step w (locked_by t w (lock t w.mutex))
  unlocks :
      (t : ℕ) (w : World) (r : Option ℕ × MutexBlocking)
      → contains w.holders t ≡ true
      → unlock w.mutex ≡ some r
      → Step w (unlocked_by t w r)

pub data Reaches : World → World → Type 0 where
  here : (w : World) → Reaches w w
  after : {u v w : World} → Reaches u v → Step v w → Reaches u w

abbrev pub start : World
start = record { mutex = new; holders = []; blocked = [] }

abbrev Held : Bool → List ℕ → Type 0
Held true hs = (t : ℕ) × (hs ≡ t ∷ [])
Held false hs = hs ≡ []

-- One holder at most, exactly if the mutex is locked; the queue names the blocked tasks in their order,
-- each once; and no task waits for a mutex that is not locked.
pub record Exclusive (w : World) : Type 0 where
  pub held : Held w.mutex.locked w.holders
  pub queue : w.mutex.wait_queue ≡ w.blocked
  pub once : Distinct w.blocked
  pub waits : w.mutex.locked ≡ false → w.blocked ≡ []
  pub apart : (t : ℕ) → contains w.holders t ≡ true → contains w.blocked t ≡ false

lock-Exclusive :
    (t : ℕ) (locked : Bool) (q holders blocked : List ℕ)
    → let w : World = record {
      mutex = record { locked = locked; wait_queue = q };
      holders = holders;
      blocked = blocked;
    } in
      Exclusive w
      → contains holders t ≡ false
      → contains blocked t ≡ false
      → Exclusive (locked_by t w (lock t w.mutex))
unfolding lock
lock-Exclusive t true q holders blocked v out free = record {
  held = v.held;
  queue = rw v.queue refl;
  once = Distinct-snoc blocked t v.once free;
  waits = λ e. absurd (ground arith);
  apart = λ u h. ground (arith, v.apart u h, contains-snoc blocked t u);
}
lock-Exclusive t false q holders blocked v out free =
    let none_waits = v.waits refl in
    record {
      held = (t, rw v.held refl);
      queue = v.queue;
      once = v.once;
      waits = λ e. absurd (ground arith);
      apart = λ u h. rw none_waits refl;
    }

unlock-Exclusive :
    (t : ℕ) (locked : Bool) (q holders blocked : List ℕ) (r : Option ℕ × MutexBlocking)
    → let w : World = record {
      mutex = record { locked = locked; wait_queue = q };
      holders = holders;
      blocked = blocked;
    } in
      Exclusive w
      → contains holders t ≡ true
      → unlock w.mutex ≡ some r
      → Exclusive (unlocked_by t w r)
unfolding unlock
unlock-Exclusive t false q holders blocked r v in_it e = absurd (ground arith)
unlock-Exclusive t true [] holders blocked r v in_it e =
    let (h, one) = v.held in
    let same : erase t holders ≡ [] = ground arith in
    let result : (none, record { locked = false; wait_queue = [] }) ≡ r = ground arith in
    subst
      (λ r. Exclusive (
        unlocked_by t
          (record {
            mutex = record { locked = true; wait_queue = [] };
            holders = holders;
            blocked = blocked;
          })
          r))
      result
      (record {
        held = same;
        queue = v.queue;
        once = v.once;
        waits = λ z. sym v.queue;
        apart = λ u k. rw (sym v.queue) refl;
      })
unlock-Exclusive t true (x ∷ xs) holders blocked r v in_it e =
    let (h, one) = v.held in
    let same : erase t holders ≡ [] = ground arith in
    let rest : erase x blocked ≡ xs = rw (sym v.queue) (ground arith) in
    let once : Distinct (x ∷ xs) = subst Distinct (sym v.queue) v.once in
    let result : (some x, record { locked = true; wait_queue = xs }) ≡ r = ground arith in
    subst
      (λ r. Exclusive (
        unlocked_by t
          (record {
            mutex = record { locked = true; wait_queue = x ∷ xs };
            holders = holders;
            blocked = blocked;
          })
          r))
      result
      (record {
        held = (x, rw same refl);
        queue = sym rest;
        once = rw rest once.1;
        waits = λ z. absurd (ground arith);
        apart = λ u k. rw rest (ground (arith, once.0));
      })

Step-Exclusive : {v w : World} → Step v w → Exclusive v → Exclusive w
Step-Exclusive (locks t w out free) v =
    lock-Exclusive t w.mutex.locked w.mutex.wait_queue w.holders w.blocked v out free
Step-Exclusive (unlocks t w r in_it e) v =
    unlock-Exclusive t w.mutex.locked w.mutex.wait_queue w.holders w.blocked r v in_it e

start-Exclusive : Exclusive start
unfolding new
start-Exclusive = record {
  held = refl;
  queue = refl;
  once = tt;
  waits = λ e. refl;
  apart = λ t h. refl;
}

-- In every state that tasks reach with a new mutex at most one of them holds it; it is locked exactly
-- if one does; and the tasks it has blocked stand in its queue in the order in which they came.
pub Reaches-Exclusive : (w : World) → Reaches start w → Exclusive w
Reaches-Exclusive w (here _) = start-Exclusive
Reaches-Exclusive w (after r s) = Step-Exclusive s (Reaches-Exclusive _ r)
