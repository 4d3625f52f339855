-- ===== src/Mm/Address/Rounding.antt =====
-- Addresses and the pages that they lie in.
use oskernel2023_main_os.Common.{
  Bool-cases, arith, bit_or, bit_or-shifted, bit_or_comm, false, if◌then◌else◌, inl, inr, leb, ltb,
  refl, some, true, ℕ, ◌+◌, ◌-◌, ◌<◌, ◌^◌, ◌∙◌, ◌≡◌, ◌≤◌,
}
use oskernel2023_main_os.Mm.Address.{
  addr_of_page, ceil, floor, page_of_addr, page_offset, page_size, usize_of_virt_addr, virt_addr,
}

-- An address lies in the page that `floor` names, at `page_offset`.
pub floor_lem :
    (va : ℕ)
    → va < 2 ^ 39
    → (addr_of_page (floor va) + page_offset va ≡ va) × (page_offset va < page_size)
unfolding floor page_offset addr_of_page
floor_lem va h = omega arith

-- `ceil` names the first page that does not begin below the address. At address 0, where the
-- subtraction wraps, the addition wraps back.
pub ceil_lem :
    (va : ℕ)
    → va < 2 ^ 56
    → (va ≤ addr_of_page (ceil va)) × (addr_of_page (ceil va) < va + page_size)
unfolding ceil addr_of_page
ceil_lem va h = omega arith

-- A page number goes to its address and back.
pub page_of_addr-addr_of_page :
    (vpn : ℕ) → vpn < 2 ^ 52 → page_of_addr (addr_of_page vpn) ≡ some vpn
unfolding page_of_addr addr_of_page
page_of_addr-addr_of_page vpn h = ground arith

-- For an address of 39 bits `usize::from` extends the sign: the result is the address if it is
-- below 2 ^ 38, and otherwise the address with all the bits from 39 on set. `VirtAddr::from` takes
-- the result back to the address.
pub virt_addr-usize_of_virt_addr :
    (va : ℕ)
    → va < 2 ^ 39
    → (virt_addr (usize_of_virt_addr va) ≡ va)
      × (usize_of_virt_addr va ≡ (if ltb va (2 ^ 38) then va else va + (2 ^ 64 - 2 ^ 39)))
unfolding virt_addr usize_of_virt_addr
virt_addr-usize_of_virt_addr va h =
    let high : bit_or va (2 ^ 64 - 2 ^ 39) ≡ va + (2 ^ 64 - 2 ^ 39) =
      bit_or_comm va (2 ^ 64 - 2 ^ 39) ∙ bit_or-shifted 39 (2 ^ 25 - 1) va h ∙ omega arith in
    elim (Bool-cases (leb (2 ^ 38) va)) [
      | inl top ↦
          let low : ltb va (2 ^ 38) ≡ false = ground arith in
          rw (top, low, high) (omega arith, refl)
      | inr bottom ↦
          let low : ltb va (2 ^ 38) ≡ true = ground arith in rw (bottom, low) (omega arith, refl)
    ]
