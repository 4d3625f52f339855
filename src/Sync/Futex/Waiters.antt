-- ===== src/Sync/Futex/Waiters.antt =====
-- Which tasks `futex_signal` wakes up, and what it returns.
use oskernel2023_main_os.Common.{
  ap, contains-snoc, erase, false, if◌then◌else◌, leb, refl, suc, true, zero, ◌++◌, ◌+◌, ◌==◌, ◌∙◌,
  ◌∷◌, ◌≡◌, ◌≢◌,
}
use oskernel2023_main_os.Common.{List, Result, [], arith, contains, drop, length, ok, some, take, ℕ}
use oskernel2023_main_os.Task.Manager.{Tasks, block_current, block_task, unblock_task}
use oskernel2023_main_os.Sync.Futex.{
  Futex, futex_signal, futex_wait, queue_or_new, set_queue, signal_from,
}

abbrev pub unblock_all : List ℕ → Tasks → Tasks
unblock_all [] w = w
unblock_all (t ∷ ts) w = unblock_all ts (unblock_task t w)

abbrev Signals : ℕ → ℕ → ℕ → List ℕ → Futex → Tasks → Result ℕ × Futex × Tasks → Type 0
Signals n cnt uaddr q f w (r, f', w') =
    (r ≡ ok (if leb n (length q) then cnt + n else cnt + length q + 1))
    × (f' uaddr ≡ some (drop n q))
    × ((a : ℕ) → uaddr ≢ a → f' a ≡ f a)
    × (w' ≡ unblock_all (take n q) w)

signals :
    (n cnt uaddr : ℕ) (q : List ℕ) (f : Futex) (w : Tasks)
    → f uaddr ≡ some q
    → Signals n cnt uaddr q f w (signal_from n cnt uaddr f w)
unfolding signal_from
signals zero cnt uaddr q f w e = (ground arith, e, (λ a h. refl), refl)
signals (suc n) cnt uaddr [] f w e = rw (e, signal_from) (ground arith, e, (λ a h. refl), refl)
signals (suc n) cnt uaddr (t ∷ ts) f w e =
    let (r, here, others, woken) =
      signals n (cnt + 1) uaddr ts (set_queue uaddr ts f) (unblock_task t w) (ground arith) in
    rw (e, signal_from) (r ∙ ground arith, here, (λ a h. others a h ∙ ground arith), woken)

tuple_eq :
    {r : Result ℕ} {w : Tasks} (x : Result ℕ × Futex × Tasks) → x.0 ≡ r → x.2 ≡ w → x ≡ (r, x.1, w)
tuple_eq (a, b, c) e f = rw (e, f) refl

erase_last : (xs : List ℕ) (t : ℕ) → contains xs t ≡ false → erase t (xs ++ (t ∷ [])) ≡ xs
erase_last [] t h = ground arith
erase_last (x ∷ xs) t h = ground (arith, erase_last xs t)

-- A task that was blocked last and is unblocked
block-unblock :
    (t : ℕ) (w : Tasks)
    → contains w.manager.block_queue t ≡ false
    → ((unblock_task t (block_current t w)).manager.ready_queue ≡ t ∷ w.manager.ready_queue)
      × ((unblock_task t (block_current t w)).manager.block_queue ≡ w.manager.block_queue)
unfolding unblock_task block_current block_task
block-unblock t w out =
    let blocked_now : contains (w.manager.block_queue ++ (t ∷ [])) t ≡ true =
      ground (arith, contains-snoc w.manager.block_queue t t) in
    rw blocked_now (refl, erase_last w.manager.block_queue t out)

-- With a queue at the address `futex_signal` wakes up the first `val` tasks of the queue in its order,
-- or all, takes them from it, and changes no other queue. It returns `val` if there are as many, and
-- otherwise one more than it woke up.
pub futex_signal-wakes :
    (uaddr val : ℕ) (q : List ℕ) (f : Futex) (w : Tasks)
    → f uaddr ≡ some q
    → (f' : Futex) × (futex_signal uaddr val f w
        ≡ (ok (if leb val (length q) then val else length q + 1), f', unblock_all (take val q) w))
      × (f' uaddr ≡ some (drop val q))
      × ((a : ℕ) → uaddr ≢ a → f' a ≡ f a)
unfolding futex_signal
futex_signal-wakes uaddr val q f w e =
    let (r, here, others, woken) = signals val 0 uaddr q f w e in
    let result = signal_from val 0 uaddr f w in
    let returned : result.0 ≡ ok (if leb val (length q) then val else length q + 1) =
      r ∙ ap (λ (n : ℕ). ok n) (ground arith) in
    (result.1, tuple_eq result returned woken, here, others)

-- With a queue at the address, for a task that is not blocked and a word that matches: after it
-- has waited, one signal counts 1, puts this task at the front of the ready queue, and restores
-- the queue at the address and that of blocked tasks, so it goes before those that have waited
-- longer.
pub futex_signal-futex_wait :
    (uaddr val thread : ℕ) (q : List ℕ) (f : Futex) (w : Tasks)
    → f uaddr ≡ some q
    → contains w.manager.block_queue thread ≡ false
    → (f' : Futex) × (w' : Tasks) × (futex_signal uaddr 1
          (futex_wait uaddr val val thread f w).1
          (futex_wait uaddr val val thread f w).2
        ≡ (ok 1, f', w'))
      × (f' uaddr ≡ some q)
      × (w'.manager.ready_queue ≡ thread ∷ w.manager.ready_queue)
      × (w'.manager.block_queue ≡ w.manager.block_queue)
unfolding futex_wait
futex_signal-futex_wait uaddr val thread q f w e out =
    let matches : (val == val) ≡ true = ground arith in
    let waiting : set_queue uaddr (thread ∷ queue_or_new (f uaddr)) f uaddr ≡ some (thread ∷ q) =
      rw e (ground arith) in
    let (f', run, here, _) =
      futex_signal-wakes uaddr 1 (thread ∷ q) (set_queue uaddr (thread ∷ queue_or_new (f uaddr)) f)
        (block_current thread w) waiting in
    let (ready_first, blocked_before) = block-unblock thread w out in
    let one : leb 1 (length (thread ∷ q)) ≡ true = ground arith in
    rw (matches, futex_wait)
      (
        f',
        unblock_task thread (block_current thread w),
        rw one at run,
        here,
        ready_first,
        blocked_before,
      )
