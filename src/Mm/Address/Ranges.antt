-- ===== src/Mm/Address/Ranges.antt =====
-- Iteration over a range of page numbers.

use mathlib.Core.Option
use oskernel2023_main_os.Common.{
  List, [], add64, ap, arith, none, some, suc, zero, ℕ, ◌+◌, ◌-◌, ◌<◌, ◌^◌, ◌∷◌, ◌≡◌, ◌≤◌,
}
use oskernel2023_main_os.Mm.Address.{SimpleRange, collect, new_range, next}

-- The numbers from `l` on, `n` of them.
abbrev pub interval : ℕ → ℕ → List ℕ
interval l zero = []
interval l (suc n) = l ∷ interval (l + 1) n

next-some :
    (l r : ℕ)
    → l < r
    → r < 2 ^ 64
    → next (record { l = l; r = r }) ≡ (some l, record { l = l + 1; r = r })
unfolding next
next-some l r h k = let step_up : add64 l 1 ≡ l + 1 = omega arith in rw step_up (ground arith)

next-none : (l : ℕ) → next (record { l = l; r = l }) ≡ (none, record { l = l; r = l })
unfolding next
next-none l = ground arith

collect_from :
    (n l r : ℕ)
    → l + n ≡ r
    → r < 2 ^ 64
    → collect (suc n) (record { l = l; r = r }) ≡ some (interval l n)
unfolding collect
collect_from zero l r e h = let same : r ≡ l = omega arith in rw same (rw (next-none l, collect))
collect_from (suc n) l r e h =
    rw (next-some l r (omega arith) h, collect)
      (ap (Option.map (◌∷◌ l)) (collect_from n (l + 1) r (omega arith) h))

-- A `for` loop over `new(l, r)` with `l ≤ r` gets each number from `l` below `r` once, in order, and
-- ends after one more call of `next`.
pub collect-new_range :
    (l r : ℕ)
    → l ≤ r
    → r < 2 ^ 64
    → (it : SimpleRange) × (new_range l r ≡ some it)
      × (collect (suc (r - l)) it ≡ some (interval l (r - l)))
unfolding new_range
collect-new_range l r h k =
    (record { l = l; r = r }, ground arith, collect_from (r - l) l r (omega arith) k)
