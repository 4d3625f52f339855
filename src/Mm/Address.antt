-- ===== src/Mm/Address.antt =====
-- kernel/src/mm/address.rs: physical and virtual addresses of Sv39 and their page numbers. Each
-- of the four types is the number in it.
pub mod Rounding
pub mod Indexes
pub mod Ranges
use mathlib.Core.Option
use oskernel2023_main_os.Common.{
  Bool, List, Option, [], add64, bit_or, if◌then◌else◌, leb, low_bits, mul64, none, set, shr, some,
  sub64, suc, zero, ℕ, ◌-◌, ◌/◌, ◌==◌, ◌^◌, ◌∷◌,
}

abbrev pub page_size : ℕ
page_size = 0x1000

-- `From<usize>`: the number is cut to the width of the type; `v & ((1 << w) - 1)`.
unfoldable pub phys_addr : ℕ → ℕ
phys_addr v = low_bits v 56

unfoldable pub phys_page_num : ℕ → ℕ
phys_page_num v = low_bits v 44

unfoldable pub virt_addr : ℕ → ℕ
virt_addr v = low_bits v 39

unfoldable pub virt_page_num : ℕ → ℕ
virt_page_num v = low_bits v 27

-- `usize::from(VirtAddr)`: the bits above the sign bit repeat it.
-- `!((1 << 39) - 1)` is `2 ^ 64 - 2 ^ 39`.
unfoldable pub usize_of_virt_addr : ℕ → ℕ
usize_of_virt_addr va = if leb (2 ^ 38) va then bit_or va (2 ^ 64 - 2 ^ 39) else va

-- `VirtAddr::floor`, `ceil`, `page_offset` and `aligned`, which `PhysAddr` has too
unfoldable pub floor : ℕ → ℕ
floor va = va / page_size

unfoldable pub ceil : ℕ → ℕ
ceil va = add64 (sub64 va 1) page_size / page_size

unfoldable pub page_offset : ℕ → ℕ
page_offset va = low_bits va 12

unfoldable pub aligned : ℕ → Bool
unfolding page_offset
aligned va = page_offset va == 0

-- `VirtPageNum::from(VirtAddr)` and `PhysPageNum::from(PhysAddr)`; `none` is the failing assertion.
unfoldable pub page_of_addr : ℕ → Option ℕ
unfolding page_offset floor
page_of_addr va = if page_offset va == 0 then some (floor va) else none

-- `VirtAddr::from(VirtPageNum)` and `PhysAddr::from(PhysPageNum)`
unfoldable pub addr_of_page : ℕ → ℕ
addr_of_page vpn = mul64 vpn (2 ^ 12)

-- `VirtPageNum::indexes`: the loop fills the array from its last place.
abbrev fill_indexes : ℕ → ℕ → List ℕ → List ℕ
fill_indexes zero vpn idx = idx
fill_indexes (suc i) vpn idx = fill_indexes i (shr vpn 9) (set idx i (low_bits vpn 9))

unfoldable pub indexes : ℕ → List ℕ
indexes vpn = fill_indexes 3 vpn (0 ∷ 0 ∷ 0 ∷ [])

-- `StepByOne::step`
abbrev pub step : ℕ → ℕ
step vpn = add64 vpn 1

-- `SimpleRange`
pub record SimpleRange : Type 0 where
  pub l : ℕ
  pub r : ℕ

-- `SimpleRange::new`; `none` is the failing assertion.
unfoldable pub new_range : ℕ → ℕ → Option SimpleRange
new_range start end = if leb start end then some (record { l = start; r = end }) else none

-- `SimpleRangeIterator`: `next` on the state `(current, end)`
unfoldable pub next : SimpleRange → Option ℕ × SimpleRange
next it = if it.l == it.r then (none, it) else (some it.l, record it { l = step it.l })

-- A `for` loop over a range: what `next` gives until it is `None`, within a number of calls
-- (`none`, if those are too few).
abbrev pub after_next : Option ℕ × SimpleRange → (SimpleRange → Option (List ℕ)) → Option (List ℕ)
after_next (none, it) more = some []
after_next (some vpn, it) more = Option.map (◌∷◌ vpn) (more it)

unfoldable pub collect : ℕ → SimpleRange → Option (List ℕ)
collect zero it = none
collect (suc calls) it = after_next (next it) (collect calls)
