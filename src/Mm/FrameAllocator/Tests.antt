-- ===== src/Mm/FrameAllocator/Tests.antt =====
-- Runs of the frame allocator, and its theorems at small inputs.
use oskernel2023_main_os.Common.{
  Distinct, List, Pool-bump, Pool-empty, Pool-release, [], arith, contains, length, none, refl,
  some, true, ℕ, ◌+◌, ◌<◌, ◌∷◌, ◌≡◌, ◌≤◌,
}
use oskernel2023_main_os.Mm.FrameAllocator.{
  StackFrameAllocator, alloc, dealloc, init, new, unallocated_frames,
}
use oskernel2023_main_os.Mm.FrameAllocator.Frames.{Inv}
use oskernel2023_main_os.Mm.FrameAllocator.Trackers.{
  Op, Trackers, allocs, covers, drops, held, run, run-init,
}

abbrev fresh : StackFrameAllocator
fresh = record { current = 5; end = 8; recycled = [] }

-- Frames 5 and 6 were handed out, and 5 was given back.
abbrev used_once : StackFrameAllocator
used_once = record { current = 7; end = 8; recycled = 5 ∷ [] }

abbrev history : List Op
history = allocs ∷ allocs ∷ covers 6 ∷ drops 2 ∷ drops 0 ∷ allocs ∷ []

alloc_order : (alloc fresh).0 ≡ some 5
unfolding alloc
alloc_order = refl

alloc_recycles : alloc used_once ≡ (some 5, record used_once { recycled = [] })
unfolding alloc
alloc_recycles = refl

dealloc_twice : dealloc used_once 5 ≡ none
unfolding dealloc
dealloc_twice = refl

fresh-Inv : Inv 5 fresh []
fresh-Inv = record { pool = Pool-empty 5; within = omega arith; narrow = omega arith }

used_once-Inv : Inv 5 used_once (6 ∷ [])
used_once-Inv = record {
  pool = Pool-release (Pool-bump (Pool-bump (Pool-empty 5))) 5 refl;
  within = omega arith;
  narrow = omega arith;
}

run-init_example :
    (a : StackFrameAllocator) × (ts : Trackers) × (run (init new 5 8) [] history ≡ some (a, ts))
    × Distinct (held ts)
    × ((v : ℕ) → contains (held ts) v ≡ true → (5 ≤ v) × (v < 8))
    × (unallocated_frames a + length (held ts) + 5 ≡ 8)
run-init_example = run-init 5 8 history (omega arith) (omega arith)
