-- ===== src/Mm/FrameAllocator.antt =====
-- kernel/src/mm/frame_allocator.rs: the stack of recycled physical frames, and the trackers that
-- give a frame back when they are dropped.
pub mod Frames
pub mod Trackers
mod Tests
use mathlib.Core.Option
use oskernel2023_main_os.Mm.Address.{phys_page_num}
use oskernel2023_main_os.Common.{
  Bool, List, Option, [], add64, contains, false, if◌then◌else◌, leb, length, ltb, none, not, some,
  sub64, true, ℕ, ◌==◌, ◌||◌, ◌∷◌,
}

-- The head of `recycled` is the back of the `Vec`.
pub record StackFrameAllocator : Type 0 where
  pub current : ℕ
  pub end : ℕ
  pub recycled : List ℕ

-- `StackFrameAllocator::new`
unfoldable pub new : StackFrameAllocator
new = record { current = 0; end = 0; recycled = [] }

-- `init(l, r)`, without the line that it prints
unfoldable pub init : StackFrameAllocator → ℕ → ℕ → StackFrameAllocator
init a l r = record a { current = l; end = r }

-- `self.recycled.len() + self.end - self.current`
unfoldable pub unallocated_frames : StackFrameAllocator → ℕ
unallocated_frames a = sub64 (add64 (length a.recycled) a.end) a.current

unfoldable pub alloc : StackFrameAllocator → Option ℕ × StackFrameAllocator
unfolding phys_page_num
alloc a = elim a.recycled [
  | [] ↦ if a.current == a.end then (none, a) else (
    some (phys_page_num (sub64 (add64 a.current 1) 1)),
    record a { current = add64 a.current 1 },
  )
  | ppn ∷ rest ↦ (some (phys_page_num ppn), record a { recycled = rest })
]

-- `none` is the panic about a frame that has not been allocated.
unfoldable pub dealloc : StackFrameAllocator → ℕ → Option StackFrameAllocator
dealloc a ppn =
    if leb a.current ppn || contains a.recycled ppn
    then none
    else some (record a { recycled = ppn ∷ a.recycled })

-- `frame_reserve`: `false` is its panic.
unfoldable pub frame_reserve : StackFrameAllocator → ℕ → Bool
frame_reserve a num = not (ltb (unallocated_frames a) num)

-- `FrameTracker`
pub record FrameTracker : Type 0 where
  pub ppn : ℕ
  pub hold : Bool

-- `FrameTracker::new` and `cover`. Clearing the page is a step on memory, in `PageTable`.
unfoldable pub owner : ℕ → FrameTracker
owner ppn = record { ppn = ppn; hold = true }

unfoldable pub cover : ℕ → FrameTracker
cover ppn = record { ppn = ppn; hold = false }

-- `frame_alloc` on the board_qemu build: `alloc().map(FrameTracker::new)`
unfoldable pub frame_alloc : StackFrameAllocator → Option FrameTracker × StackFrameAllocator
unfolding alloc owner
frame_alloc a = let (got, a') = alloc a in (Option.map owner got, a')

-- `FrameTracker::drop`
unfoldable pub drop_tracker : StackFrameAllocator → FrameTracker → Option StackFrameAllocator
unfolding dealloc
drop_tracker a t = if t.hold then dealloc a t.ppn else some a
