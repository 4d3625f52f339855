-- ===== src/Common/Handout.antt =====
-- Numbers handed out one by one from `base`, and taken back to a stack: what the frame allocator
-- and the identifier allocators share. `live` are those now handed out, `free` those on the stack.
use Prim.Native.Nat.{ℕ, ◌+◌, ◌≤◌, ◌<◌}
use mathlib.Core.Path.{◌≡◌, refl}
use mathlib.Core.Bool.{true, false, ◌||◌, ◌&&◌}
use mathlib.Core.List.{List, [], ◌∷◌}
use native.Mathlib.Omega.{arith}
use oskernel2023_main_os.Common.Tests.{leb, ltb}
use oskernel2023_main_os.Common.Lists.{length}
use oskernel2023_main_os.Common.Members.{
  contains, Distinct, erase, contains-erase_ne, contains-erase_self, erase-Distinct, length-erase,
}
use native.Mathlib.Decide.{ℕ_discrete}

pub record Pool (base current : ℕ) (free live : List ℕ) : Type 0 where
  pub live_distinct : Distinct live
  pub free_distinct : Distinct free
  -- The numbers from `base` below `current` are the live and the free ones,
  pub exactly : (v : ℕ) → (contains live v || contains free v) ≡ (leb base v && ltb v current)
  -- and none is both.
  pub apart : (v : ℕ) → (contains live v && contains free v) ≡ false
  pub count : length live + length free + base ≡ current

module _ {base current : ℕ} {free live : List ℕ} (p : Pool base current free live) where
  pub Pool-live_range : (v : ℕ) → contains live v ≡ true → (base ≤ v) × (v < current)
  Pool-live_range v h = ground (arith, p.exactly v)

  pub Pool-base-le : base ≤ current
  Pool-base-le = omega (arith, p.count)

  pub Pool-bump : Pool base (current + 1) free (current ∷ live)
  Pool-bump = record {
    live_distinct = ground (arith, p.exactly current, p.live_distinct);
    free_distinct = p.free_distinct;
    exactly = λ v. ground (arith, p.exactly v, Pool-base-le);
    apart = λ v. ground (arith, p.apart v, p.exactly current);
    count = omega (arith, p.count);
  }

  pub Pool-release : (v : ℕ) → contains live v ≡ true → Pool base current (v ∷ free) (erase v live)
  Pool-release v h = record {
    live_distinct = erase-Distinct v live p.live_distinct;
    free_distinct = ground (arith, p.apart v, p.free_distinct);
    exactly = λ w. elim (ℕ_discrete v w) [
      | yes e ↦ ground (arith, p.exactly w)
      | no ne ↦ ground (arith, p.exactly w, contains-erase_ne v w live ne)
    ];
    apart = λ w. elim (ℕ_discrete v w) [
      | yes e ↦ ground (arith, e, contains-erase_self v live p.live_distinct)
      | no ne ↦ ground (arith, p.apart w, contains-erase_ne v w live ne)
    ];
    count = omega (arith, p.count, length-erase v live h);
  }

pub Pool-reuse :
    {base current v : ℕ} {free live : List ℕ}
    → Pool base current (v ∷ free) live
    → Pool base current free (v ∷ live)
Pool-reuse {base} {current} {v} {free} {live} p = record {
  live_distinct = ground (arith, p.apart v, p.live_distinct);
  free_distinct = p.free_distinct.1;
  exactly = λ w. ground (arith, p.exactly w);
  apart = λ w. ground (arith, p.apart w, p.free_distinct);
  count = omega (arith, p.count);
}

pub Pool-empty : (base : ℕ) → Pool base base [] []
Pool-empty base = record {
  live_distinct = tt;
  free_distinct = tt;
  exactly = λ v. ground arith;
  apart = λ v. refl;
  count = omega arith;
}
