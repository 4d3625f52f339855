-- ===== src/Mm/PageTable/Entries.antt =====
-- Page table entries: what the accessors read of an entry that `entry` made.
use oskernel2023_main_os.Common.{
  arith, bit_and-one, bit_or-shifted, mul64, ℕ, ◌%◌, ◌*◌, ◌+◌, ◌<◌, ◌==◌, ◌^◌, ◌≡◌,
}
use oskernel2023_main_os.Mm.PageTable.{entry, entry_flags, entry_ppn, is_valid}

pub entry_sum :
    (ppn flags : ℕ) → ppn < 2 ^ 44 → flags < 2 ^ 8 → entry ppn flags ≡ ppn * 2 ^ 10 + flags
unfolding entry
entry_sum ppn flags h k =
    let fits : mul64 ppn (2 ^ 10) ≡ ppn * 2 ^ 10 = omega arith in
    rw fits (bit_or-shifted 10 ppn flags (omega arith))

pub is_valid_lem : (bits : ℕ) → is_valid bits ≡ (bits % 2 == 1)
unfolding is_valid
is_valid_lem bits = ground (arith, bit_and-one (bits % 2 ^ 8))

-- An entry of a page number of 44 bits and a byte of flags gives both back, and is valid exactly
-- if the flag V is set.
pub entry_lem :
    (ppn flags : ℕ)
    → ppn < 2 ^ 44
    → flags < 2 ^ 8
    → (entry_ppn (entry ppn flags) ≡ ppn)
      × (entry_flags (entry ppn flags) ≡ flags)
      × (is_valid (entry ppn flags) ≡ (flags % 2 == 1))
unfolding entry_ppn entry_flags
entry_lem ppn flags h k =
    rw (entry_sum ppn flags h k)
      (omega arith, omega arith, rw (is_valid_lem (ppn * 2 ^ 10 + flags)) (ground arith))
