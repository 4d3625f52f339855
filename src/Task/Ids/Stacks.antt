-- ===== src/Task/Ids/Stacks.antt =====
-- Where the stacks of different identifiers lie: apart, with a page between them.
use native.Mathlib.Decide.{dec_lt}
use oskernel2023_main_os.Common.{arith, inl, inr, ℕ, ◌*◌, ◌+◌, ◌<◌, ◌^◌, ◌≡◌, ◌≢◌, ◌≤◌, ◌⊎◌}
use oskernel2023_main_os.Task.Ids.{
  kernel_stack_position, kernel_stack_size, page_size, signal_trampoline, trampoline,
  trap_cx_position, user_stack_size, ustack_position,
}

-- One range lies below the other, with at least `gap` bytes between them.
abbrev pub Apart : ℕ → ℕ × ℕ → ℕ × ℕ → Type 0
Apart gap p q = (p.1 + gap ≤ q.0) ⊎ (q.1 + gap ≤ p.0)

kernel_top : (i : ℕ) → i ≤ 2 ^ 48 → (kernel_stack_position i).1 + i * 12288 ≡ trampoline
unfolding kernel_stack_position
kernel_top i h = omega arith

kernel_size :
    (i : ℕ)
    → i ≤ 2 ^ 48
    → (kernel_stack_position i).0 + kernel_stack_size ≡ (kernel_stack_position i).1
unfolding kernel_stack_position
kernel_size i h = omega arith

-- The kernel stacks of two different identifiers up to 2 ^ 48 have their full size, end at or
-- below the trampoline, and lie apart by at least a guard page.
pub kernel_stack_position-Apart :
    (i j : ℕ)
    → i ≤ 2 ^ 48
    → j ≤ 2 ^ 48
    → i ≢ j
    → Apart page_size (kernel_stack_position i) (kernel_stack_position j)
      × ((kernel_stack_position i).0 + kernel_stack_size ≡ (kernel_stack_position i).1)
      × ((kernel_stack_position i).1 ≤ trampoline)
kernel_stack_position-Apart i j hi hj ne =
    let ti = kernel_top i hi in
    let tj = kernel_top j hj in
    let si = kernel_size i hi in let sj = kernel_size j hj in (apart, si, omega arith)
  where
    apart : Apart page_size (kernel_stack_position i) (kernel_stack_position j)
    apart = elim (dec_lt i j) [
      | yes p ↦ inr (omega (arith, kernel_top i hi, kernel_top j hj, kernel_size i hi))
      | no p ↦ inl (omega (arith, kernel_top i hi, kernel_top j hj, kernel_size j hj))
    ]

module _ (base : ℕ) (low : base < 2 ^ 64) where
  -- There is room for the stack of the thread, and those before it.
  abbrev pub Fits : ℕ → Type 0
  Fits tid = (tid + 1) * (page_size + user_stack_size) ≤ base

  ustack_bounds :
      (tid : ℕ)
      → Fits tid
      → ((ustack_position base tid).1 + tid * 86016 ≡ base)
        × ((ustack_position base tid).0 + user_stack_size ≡ (ustack_position base tid).1)
  unfolding ustack_position
  ustack_bounds tid h = (omega arith, omega arith)

  -- The user stacks of two different threads of one process have their full size, end at or below
  -- the process's stack top, and lie apart by at least a guard page, where the top leaves room.
  pub ustack_position-Apart :
      (i j : ℕ)
      → Fits i
      → Fits j
      → i ≢ j
      → Apart page_size (ustack_position base i) (ustack_position base j)
        × ((ustack_position base i).0 + user_stack_size ≡ (ustack_position base i).1)
        × ((ustack_position base i).1 ≤ base)
  ustack_position-Apart i j hi hj ne =
      let (ti, si) = ustack_bounds i hi in
      let (tj, sj) = ustack_bounds j hj in
      let apart : Apart page_size (ustack_position base i) (ustack_position base j) =
        elim (dec_lt i j) [ yes p ↦ inr (omega arith) | no p ↦ inl (omega arith) ] in
      (apart, si, omega arith)

-- The trap context pages of two different threads below 2 ^ 48 are different pages, and each lies
-- below the signal trampoline.
pub trap_cx_position-Apart :
    (i j : ℕ)
    → i < 2 ^ 48
    → j < 2 ^ 48
    → i ≢ j
    → Apart 0 (trap_cx_position i) (trap_cx_position j)
      × ((trap_cx_position i).1 ≤ signal_trampoline)
unfolding trap_cx_position
trap_cx_position-Apart i j hi hj ne =
    (elim (dec_lt i j) [ yes p ↦ inr (omega arith) | no p ↦ inl (omega arith) ], omega arith)
