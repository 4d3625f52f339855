-- ===== src/Mm/PageTable.antt =====
-- kernel/src/mm/page_table.rs: page table entries, and the three-level tables of Sv39 in physical
-- memory. The kernel maps physical memory onto itself, so memory is read and written by page number
-- and index. Frames of a table are trackers that hold their frame.
mod Entries
pub mod Tree
pub mod Walk
pub mod Mapping
pub mod Grow
pub mod Spec
pub mod Create
pub mod Update
pub mod Remove
mod Tests
use mathlib.Core.Option
use oskernel2023_main_os.Common.{
  Bool, List, Option, [], add64, bit_and, bit_or, false, if◌then◌else◌, low_bits, mul64, none, not,
  shr, some, true, ℕ, ◌&&◌, ◌*◌, ◌-◌, ◌==◌, ◌^◌, ◌∷◌,
}
use oskernel2023_main_os.Mm.Address.{
  addr_of_page, floor, indexes, next, page_offset, phys_addr, phys_page_num,
}
use oskernel2023_main_os.Mm.FrameAllocator.{FrameTracker, StackFrameAllocator, frame_alloc}

-- `PTEFlags`
abbrev pub flag_v : ℕ
flag_v = 1

abbrev pub flag_u : ℕ
flag_u = 16

-- `PageTableEntry::new` and `empty`; the flags are a byte.
unfoldable pub entry : ℕ → ℕ → ℕ
entry ppn flags = bit_or (mul64 ppn (2 ^ 10)) flags

abbrev pub empty_entry : ℕ
empty_entry = 0

-- `PageTableEntry::ppn`
unfoldable pub entry_ppn : ℕ → ℕ
unfolding phys_page_num
entry_ppn bits = phys_page_num (low_bits (shr bits 10) 44)

-- `PageTableEntry::flags`: all eight bits are flags, so `from_bits` never fails.
unfoldable pub entry_flags : ℕ → ℕ
entry_flags bits = low_bits bits 8

-- `PageTableEntry::is_valid`: the flag V is bit 0.
unfoldable pub is_valid : ℕ → Bool
unfolding entry_flags
is_valid bits = not (bit_and (entry_flags bits) flag_v == 0)

-- Entries of physical memory by page number and index.
abbrev pub Memory : Type 0
Memory = ℕ → ℕ → ℕ

abbrev pub write : Memory → ℕ → ℕ → ℕ → Memory
write mem page idx bits = λ p i. if page == p && idx == i then bits else mem p i

-- The loop of `FrameTracker::new`
abbrev pub clear_page : Memory → ℕ → Memory
clear_page mem page = λ p i. if page == p then 0 else mem p i

-- The frames and the memory of the machine
pub record Machine : Type 0 where
  pub frames : StackFrameAllocator
  pub memory : Memory

-- `frame_alloc().unwrap()`, which clears the frame; `none` is the panic.
unfoldable pub take_frame : Machine → Option (FrameTracker × Machine)
take_frame m =
    let (got, frames) = frame_alloc m.frames in
    elim got [
      | none ↦ none
      | some t ↦ some (t, record { frames = frames; memory = clear_page m.memory t.ppn })
    ]

pub record PageTable : Type 0 where
  pub root_ppn : ℕ
  pub frames : List FrameTracker

-- `PageTable::new`
unfoldable pub new : Machine → Option (PageTable × Machine)
new m = elim (take_frame m) [
  | none ↦ none
  | some (t, m') ↦ some (record { root_ppn = t.ppn; frames = t ∷ [] }, m')
]

-- `from_token`, of a `satp` value
unfoldable pub from_token : ℕ → PageTable
unfolding phys_page_num
from_token satp = record { root_ppn = phys_page_num (low_bits satp 44); frames = [] }

-- `token`: mode 8 is Sv39.
unfoldable pub token : PageTable → ℕ
token pt = bit_or (8 * 2 ^ 60) pt.root_ppn

-- The place of an entry: its page and index.
abbrev pub Place : Type 0
Place = ℕ × ℕ

-- `find_pte`: down the indexes from a page on
unfoldable pub find_from : Memory → List ℕ → ℕ → Option Place
find_from mem [] ppn = none
find_from mem (idx ∷ []) ppn = some (ppn, idx)
find_from mem (idx ∷ (next ∷ rest)) ppn =
    let deeper = find_from mem (next ∷ rest) (entry_ppn (mem ppn idx)) in
    if not (is_valid (mem ppn idx)) then none else deeper

unfoldable pub find_pte : Memory → PageTable → ℕ → Option Place
unfolding find_from indexes
find_pte mem pt vpn = find_from mem (indexes vpn) pt.root_ppn

-- `find_pte_create`: at an entry that is not valid, a new page is linked in. `none` is the panic of
-- `frame_alloc().unwrap()`.
abbrev pub Found : Type 0
Found = Place × PageTable × Machine

abbrev pub link : FrameTracker → ℕ → ℕ → PageTable → Machine → PageTable × Machine
link t ppn idx pt m = (
  record pt { frames = t ∷ pt.frames },
  record m { memory = write m.memory ppn idx (entry t.ppn flag_v) },
)

-- One round of the loop above the last level: the entry's page, made if it is missing.
unfoldable pub descend : ℕ → ℕ → PageTable → Machine → Option (ℕ × PageTable × Machine)
unfolding take_frame
descend ppn idx pt m =
    if is_valid (m.memory ppn idx)
    then some (entry_ppn (m.memory ppn idx), pt, m)
    else elim (take_frame m) [
      | none ↦ none
      | some (t, m') ↦
          let (pt'', m'') = link t ppn idx pt m' in some (entry_ppn (m''.memory ppn idx), pt'', m'')
    ]

abbrev pub then_descend :
    Option (ℕ × PageTable × Machine) → (ℕ → PageTable → Machine → Option Found) → Option Found
then_descend none more = none
then_descend (some (ppn, pt, m)) more = more ppn pt m

unfoldable pub create_from : List ℕ → ℕ → PageTable → Machine → Option Found
create_from [] ppn pt m = none
create_from (idx ∷ []) ppn pt m = some ((ppn, idx), pt, m)
create_from (idx ∷ (next ∷ rest)) ppn pt m =
    then_descend (descend ppn idx pt m) (create_from (next ∷ rest))

unfoldable pub find_pte_create : PageTable → ℕ → Machine → Option Found
unfolding create_from indexes
find_pte_create pt vpn m = create_from (indexes vpn) pt.root_ppn pt m

-- `map`: `none` is a panic, of the allocation or of the assertion that the page is not mapped.
abbrev pub write_new : ℕ → ℕ → Option Found → Option (PageTable × Machine)
write_new ppn flags none = none
write_new ppn flags (some ((page, idx), pt, m)) =
    if is_valid (m.memory page idx)
    then none
    else some (pt, record m { memory = write m.memory page idx (entry ppn (bit_or flags flag_v)) })

unfoldable pub map_page : PageTable → ℕ → ℕ → ℕ → Machine → Option (PageTable × Machine)
map_page pt vpn ppn flags m = write_new ppn flags (find_pte_create pt vpn m)

-- `unmap`: `none` is a panic.
unfoldable pub unmap : PageTable → ℕ → Memory → Option Memory
unmap pt vpn mem = elim (find_pte mem pt vpn) [
  | none ↦ none
  | some (page, idx) ↦
      if is_valid (mem page idx) then some (write mem page idx empty_entry) else none
]

unfoldable pub translate : PageTable → Memory → ℕ → Option ℕ
translate pt mem vpn = Option.map (λ place. mem place.0 place.1) (find_pte mem pt vpn)

unfoldable pub translate_va : PageTable → Memory → ℕ → Option ℕ
unfolding floor page_offset addr_of_page phys_addr
translate_va pt mem va =
    Option.map
      (λ place. phys_addr (add64 (addr_of_page (entry_ppn (mem place.0 place.1))) (page_offset va)))
      (find_pte mem pt (floor va))

-- `set_pte_flags` and `delete_pte_flags`: whether there was a valid entry, and the memory after.
-- `!flags & bits` takes from the bits those that they share with the flags.
abbrev pub update_valid : PageTable → ℕ → (ℕ → ℕ) → Memory → Bool × Memory
update_valid pt vpn change mem = elim (find_pte mem pt vpn) [
  | none ↦ (false, mem)
  | some (page, idx) ↦
      if not (is_valid (mem page idx))
      then (false, mem)
      else (true, write mem page idx (change (mem page idx)))
]

unfoldable pub set_pte_flags : PageTable → ℕ → ℕ → Memory → Bool × Memory
set_pte_flags pt vpn flags =
    update_valid pt vpn
      (λ bits. bit_or (mul64 (entry_ppn bits) (2 ^ 10)) (bit_or (bit_or flags flag_u) flag_v))

unfoldable pub delete_pte_flags : PageTable → ℕ → ℕ → Memory → Bool × Memory
delete_pte_flags pt vpn flags = update_valid pt vpn (λ bits. bits - bit_and bits flags)

-- `is_dirty`, `readable`, `writable` and `executable`: the flags D, R, W and X
abbrev pub has_flag : ℕ → ℕ → Bool
has_flag flag bits = not (bit_and (entry_flags bits) flag == 0)

unfoldable pub is_dirty : ℕ → Bool
is_dirty bits = has_flag 128 bits

unfoldable pub readable : ℕ → Bool
readable bits = has_flag 2 bits

unfoldable pub writable : ℕ → Bool
writable bits = has_flag 4 bits

unfoldable pub executable : ℕ → Bool
executable bits = has_flag 8 bits
