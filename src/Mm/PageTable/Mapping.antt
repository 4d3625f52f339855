-- ===== src/Mm/PageTable/Mapping.antt =====
-- One round of `find_pte_create`: what it finds or makes, and that no valid entry of the last level
-- appears or goes.
use mathlib.Core.Option
use oskernel2023_main_os.Common.{
  Bool-cases, List, Option, ap, arith, contains, false, inl, inr, length, none, refl, some, true, ℕ,
  ◌+◌, ◌<◌, ◌^◌, ◌∷◌, ◌≡◌, ◌⊎◌,
}
use oskernel2023_main_os.Mm.FrameAllocator.{
  FrameTracker, StackFrameAllocator, alloc, frame_alloc, owner,
}
use oskernel2023_main_os.Mm.FrameAllocator.Frames
use oskernel2023_main_os.Mm.FrameAllocator.Trackers.{held}
use oskernel2023_main_os.Mm.PageTable.{
  Machine, Memory, PageTable, clear_page, descend, entry, entry_ppn, flag_v, is_valid, link,
  take_frame, write,
}
use oskernel2023_main_os.Mm.PageTable.Entries.{entry_lem}
use oskernel2023_main_os.Mm.PageTable.Tree.{WellFormed, child, linked}

-- The frames of the table are its own: the tree stands in them, and the allocator counts them among
-- those handed out.
pub record Inv (base : ℕ) (m : Machine) (pt : PageTable) (live : List ℕ) : Type 0 where
  pub frames_inv : Frames.Inv base m.frames live
  pub tree : WellFormed m.memory pt.root_ppn (held pt.frames)
  pub owned : (p : ℕ) → contains (held pt.frames) p ≡ true → contains live p ≡ true

-- A new frame: not handed out before, cleared, all else in memory as it was.
abbrev pub TakesFrame : ℕ → Machine → List ℕ → Option (FrameTracker × Machine) → Type 0
TakesFrame base m live none = length live + base ≡ m.frames.end
TakesFrame base m live (some (t, m')) =
    (t.hold ≡ true)
    × (contains live t.ppn ≡ false)
    × (t.ppn < 2 ^ 44)
    × (m'.memory ≡ clear_page m.memory t.ppn)
    × (m'.frames.end ≡ m.frames.end)
    × Frames.Inv base m'.frames (t.ppn ∷ live)

abbrev cleared :
    Machine → Option FrameTracker × StackFrameAllocator → Option (FrameTracker × Machine)
cleared m (got, frames) = elim got [
  | none ↦ none
  | some t ↦ some (t, record { frames = frames; memory = clear_page m.memory t.ppn })
]

from_alloc :
    (base : ℕ) (m : Machine) (live : List ℕ) (r : Option ℕ × StackFrameAllocator)
    → Frames.Inv base m.frames live
    → Frames.Allocs base m.frames live r
    → TakesFrame base m live (cleared m (Option.map owner r.0, r.1))
unfolding owner
from_alloc base m live (none, frames) v (_, full) = full
from_alloc base m live (some ppn, frames) v (out, low, high, same, v') =
    (refl, out, omega (arith, v.narrow), refl, same, v')

pub take_frame-TakesFrame :
    (base : ℕ) (m : Machine) (live : List ℕ)
    → Frames.Inv base m.frames live
    → TakesFrame base m live (take_frame m)
unfolding take_frame frame_alloc
take_frame-TakesFrame base m live v =
    from_alloc base m live (alloc m.frames) v (Frames.alloc-Allocs v)

-- What one round at an entry does.
abbrev pub FindsPage :
    ℕ → List ℕ → PageTable → Machine → ℕ → ℕ → Option (ℕ × PageTable × Machine) → Type 0
FindsPage base live pt m page idx r =
    ((p : ℕ) × (child m.memory page idx ≡ some p) × (r ≡ some (p, pt, m)))
    ⊎ ((child m.memory page idx ≡ none) × (r ≡ none) × (length live + base ≡ m.frames.end))
    ⊎ ((t : FrameTracker) × (m' : Machine) × (child m.memory page idx ≡ none)
        × (t.hold ≡ true)
        × (contains live t.ppn ≡ false)
        × (t.ppn < 2 ^ 44)
        × (m'.frames.end ≡ m.frames.end)
        × Frames.Inv base m'.frames (t.ppn ∷ live)
        × (m'.memory ≡ linked m.memory t.ppn page idx)
        × (r ≡ some (t.ppn, record pt { frames = t ∷ pt.frames }, m')))

from_take :
    (base : ℕ) (live : List ℕ) (pt : PageTable) (m : Machine) (page idx : ℕ)
    (got : Option (FrameTracker × Machine))
    → TakesFrame base m live got
    → child m.memory page idx ≡ none
    → FindsPage base live pt m page idx (elim got [
      | none ↦ none
      | some (t, m') ↦
          let (pt'', m'') = link t page idx pt m' in
          some (entry_ppn (m''.memory page idx), pt'', m'')
    ])
from_take base live pt m page idx none full absent = inr (inl (absent, refl, full))
from_take base live pt m page idx (some (t, m')) (hold, out, small, mem, same, v) absent = inr (
    inr (
      t,
      record m' { memory = write m'.memory page idx (entry t.ppn flag_v) },
      absent,
      hold,
      out,
      small,
      same,
      v,
      rw mem,
      let (ppn, _, _) = entry_lem t.ppn flag_v small (omega arith) in
          ap
            (λ (n : ℕ). some (
              n,
              record pt { frames = t ∷ pt.frames },
              record m' { memory = write m'.memory page idx (entry t.ppn flag_v) },
            ))
            (ground (arith, ppn)),
    ))

child_valid :
    (mem : Memory) (page idx : ℕ)
    → is_valid (mem page idx) ≡ true
    → child mem page idx ≡ some (entry_ppn (mem page idx))
unfolding child
child_valid mem page idx h = rw h

child_invalid :
    (mem : Memory) (page idx : ℕ) → is_valid (mem page idx) ≡ false → child mem page idx ≡ none
unfolding child
child_invalid mem page idx h = rw h

pub descend-FindsPage :
    (base : ℕ) (live : List ℕ) (pt : PageTable) (m : Machine) (page idx : ℕ)
    → Frames.Inv base m.frames live
    → FindsPage base live pt m page idx (descend page idx pt m)
unfolding descend
descend-FindsPage base live pt m page idx v = elim (Bool-cases (is_valid (m.memory page idx))) [
  | inl valid ↦
      inl (entry_ppn (m.memory page idx), child_valid m.memory page idx valid, rw (valid, descend))
  | inr absent ↦
      rw (absent, descend)
        (from_take base live pt m page idx (take_frame m) (take_frame-TakesFrame base m live v)
          (child_invalid m.memory page idx absent))
]
