-- ===== src/Mm/FrameAllocator/Frames.antt =====
-- What `alloc` and `dealloc` do to the set of frames that are handed out.
use oskernel2023_main_os.Mm.Address.{phys_page_num}
use oskernel2023_main_os.Common.{
  Bool-cases, List, Option, Pool, Pool-base-le, Pool-bump, Pool-empty, Pool-live_range,
  Pool-release, Pool-reuse, [], add64, arith, contains, erase, false, inl, inr, length, none, refl,
  some, sub64, true, ℕ, ◌+◌, ◌<◌, ◌==◌, ◌^◌, ◌∷◌, ◌≡◌, ◌≤◌, ◌⊎◌,
}
use oskernel2023_main_os.Mm.FrameAllocator.{
  StackFrameAllocator, alloc, dealloc, init, new, unallocated_frames,
}

-- The frames from `base` below `current` are free or live, none is both, and 44 bits are enough.
pub record Inv (base : ℕ) (a : StackFrameAllocator) (live : List ℕ) : Type 0 where
  pub pool : Pool base a.current a.recycled live
  pub within : a.current ≤ a.end
  pub narrow : a.end ≤ 2 ^ 44

pub init-Inv : (l r : ℕ) → l ≤ r → r ≤ 2 ^ 44 → Inv l (init new l r) []
unfolding init new
init-Inv l r h k = record { pool = Pool-empty l; within = h; narrow = k }

-- What a call of `alloc` may do: hand out a frame that is not live, or, if every frame is live,
-- hand out none.
abbrev pub Allocs : ℕ → StackFrameAllocator → List ℕ → Option ℕ × StackFrameAllocator → Type 0
Allocs base a live (some v, a') =
    (contains live v ≡ false) × (base ≤ v) × (v < a.end) × (a'.end ≡ a.end) × Inv base a' (v ∷ live)
Allocs base a live (none, a') = (a' ≡ a) × (length live + base ≡ a.end)

bump_value : (c : ℕ) → c < 2 ^ 44 → (phys_page_num (sub64 (add64 c 1) 1) ≡ c) × (add64 c 1 ≡ c + 1)
unfolding phys_page_num
bump_value c h = omega arith

reuse_value : (c : ℕ) → c < 2 ^ 44 → phys_page_num c ≡ c
unfolding phys_page_num
reuse_value c h = omega arith

alloc_parts :
    (base current end : ℕ) (recycled live : List ℕ)
    → let a : StackFrameAllocator = record { current = current; end = end; recycled = recycled } in
      Inv base a live → Allocs base a live (alloc a)
unfolding alloc
alloc_parts base current end [] live v = elim (Bool-cases (current == end)) [
  | inl e ↦ rw e (refl, ground (arith, v.pool.count))
  | inr ne ↦
      let below : current < end = ground (arith, v.within) in
      let (bv, bs) = bump_value current (omega (arith, v.narrow)) in
      rw (ne, bv, bs)
        (
          ground (arith, v.pool.exactly current),
          Pool-base-le v.pool,
          below,
          refl,
          record { pool = Pool-bump v.pool; within = omega arith; narrow = v.narrow },
        )
]
alloc_parts base current end (ppn ∷ rest) live v =
    let (low, high) : (base ≤ ppn) × (ppn < current) = ground (arith, v.pool.exactly ppn) in
    rw (reuse_value ppn (omega (arith, v.within, v.narrow))) (
      ground (arith, v.pool.apart ppn),
      low,
      omega (arith, v.within),
      refl,
      record { pool = Pool-reuse v.pool; within = v.within; narrow = v.narrow },
    )

-- Under the invariant `alloc` hands out a frame of the range that is not in use, and keeps the
-- invariant; it fails only when every frame of the range is in use, and then changes nothing.
pub alloc-Allocs :
    {base : ℕ} {a : StackFrameAllocator} {live : List ℕ}
    → Inv base a live
    → Allocs base a live (alloc a)
alloc-Allocs {base} {a} {live} v = alloc_parts base a.current a.end a.recycled live v

-- `dealloc` of a frame at or above `base` goes through exactly if the frame is live, and panics
-- exactly if it is not; where it goes through, the frame alone stops being live.
pub dealloc_lem :
    {base : ℕ} {a : StackFrameAllocator} {live : List ℕ} (ppn : ℕ)
    → Inv base a live
    → base ≤ ppn
    → ((contains live ppn ≡ true)
        × ((a' : StackFrameAllocator) × (dealloc a ppn ≡ some a')
            × (a'.end ≡ a.end)
            × Inv base a' (erase ppn live)))
      ⊎ ((contains live ppn ≡ false) × (dealloc a ppn ≡ none))
unfolding dealloc
dealloc_lem {base} {a} {live} ppn v h = elim (Bool-cases (contains live ppn)) [
  | inl held ↦
      let range = Pool-live_range v.pool ppn held in
      inl (
        held,
        (
          record a { recycled = ppn ∷ a.recycled },
          ground (arith, range, v.pool.apart ppn),
          refl,
          record { pool = Pool-release v.pool ppn held; within = v.within; narrow = v.narrow },
        ),
      )
  | inr out ↦ inr (out, ground (arith, v.pool.exactly ppn))
]

-- `unallocated_frames` and the live frames make up the range.
pub unallocated_frames_lem :
    {base : ℕ} {a : StackFrameAllocator} {live : List ℕ}
    → Inv base a live
    → unallocated_frames a + length live + base ≡ a.end
unfolding unallocated_frames
unallocated_frames_lem v = omega (arith, v.pool.count, v.within, v.narrow)
