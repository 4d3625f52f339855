-- ===== src/Mm/Address/Indexes.antt =====
-- The three indexes of a virtual page number.
use oskernel2023_main_os.Common.{[], arith, refl, ℕ, ◌%◌, ◌*◌, ◌+◌, ◌/◌, ◌<◌, ◌^◌, ◌∷◌, ◌≡◌}
use oskernel2023_main_os.Mm.Address.{indexes}

pub indexes_digits :
    (vpn : ℕ)
    → indexes vpn ≡ (vpn / 2 ^ 9 / 2 ^ 9 % 2 ^ 9) ∷ (vpn / 2 ^ 9 % 2 ^ 9) ∷ (vpn % 2 ^ 9) ∷ []
unfolding indexes
indexes_digits vpn = refl

-- The indexes of a page number of 27 bits are three numbers below 512, its digits to base 512.
pub indexes_lem :
    (vpn : ℕ)
    → vpn < 2 ^ 27
    → (i : ℕ) × (j : ℕ) × (k : ℕ) × (indexes vpn ≡ i ∷ j ∷ k ∷ [])
      × (i < 512)
      × (j < 512)
      × (k < 512)
      × ((i * 512 + j) * 512 + k ≡ vpn)
indexes_lem vpn h = (
  vpn / 2 ^ 9 / 2 ^ 9 % 2 ^ 9,
  vpn / 2 ^ 9 % 2 ^ 9,
  vpn % 2 ^ 9,
  indexes_digits vpn,
  omega arith,
  omega arith,
  omega arith,
  omega arith,
)
