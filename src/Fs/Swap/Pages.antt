-- ===== src/Fs/Swap/Pages.antt =====
-- The page that `alloc_page` finds.
use oskernel2023_main_os.Common.{
  All, Bool-cases, List, Option, [], bit, get_or, inl, inr, length, none, some, suc, zero, ◌%◌, ◌*◌,
  ◌+◌, ◌-◌, ◌/◌, ◌<◌, ◌==◌, ◌^◌, ◌∷◌, ◌≡◌,
}
use oskernel2023_main_os.Common.{arith, ℕ}
use oskernel2023_main_os.Fs.Swap.{Swap, alloc_from, alloc_page, lowest_zero}
use native.Mathlib.Nat.{pow-suc}

lowest_zero_lem :
    (n bits : ℕ) → bits + 1 < 2 ^ n → (lowest_zero n bits < n) × (bit (lowest_zero n bits) bits ≡ 0)
unfolding lowest_zero
lowest_zero_lem zero bits h = absurd (omega arith)
lowest_zero_lem (suc n) bits h = elim (Bool-cases (bits % 2 == 0)) [
  | inl even ↦ rw even (omega arith, ground arith)
  | inr odd ↦
      let p = pow-suc 2 n in
      let (low, z) = lowest_zero_lem n (bits / 2) (ground arith) in
      let next : lowest_zero n (bits / 2) + 1 ≡ suc (lowest_zero n (bits / 2)) = omega arith in
      rw (odd, next) (omega arith, z)
]

-- What a search from word `i` on finds.
abbrev FoundFrom : ℕ → List ℕ → Option ℕ → Type 0
FoundFrom i words none = All (λ w. w ≡ 2 ^ 64 - 1) words
FoundFrom i words (some page) =
    (j : ℕ) × (k : ℕ) × (page ≡ (i + j) * 64 + k)
    × (k < 64)
    × (j < length words)
    × (bit k (get_or words j 0) ≡ 0)

further_on :
    (i w : ℕ) (rest : List ℕ) (r : Option ℕ)
    → w ≡ 2 ^ 64 - 1
    → FoundFrom (i + 1) rest r
    → FoundFrom i (w ∷ rest) r
further_on i w rest none e all = (e, all)
further_on i w rest (some page) e (j, k, at, low, here, z) =
    (suc j, k, omega arith, low, omega arith, z)

alloc_from_lem :
    (i : ℕ) (words : List ℕ) → All (λ w. w < 2 ^ 64) words → FoundFrom i words (alloc_from i words)
unfolding alloc_from
alloc_from_lem i [] h = tt
alloc_from_lem i (w ∷ rest) h = elim (Bool-cases (w == 2 ^ 64 - 1)) [
  | inl full_up ↦ rw full_up (
      further_on i w rest (alloc_from (i + 1) rest) (ground arith)
        (alloc_from_lem (i + 1) rest h.1))
  | inr room ↦
      let (low, z) = lowest_zero_lem 64 w (ground (arith, h.0)) in
      rw room (0, lowest_zero 64 w, omega arith, low, omega arith, z)
]

-- What `alloc_page` finds: a page of the bitmap whose bit is 0, or none, with every bit 1.
abbrev pub FoundPage : Swap → Option ℕ → Type 0
FoundPage s none = All (λ w. w ≡ 2 ^ 64 - 1) s.bitmap
FoundPage s (some page) =
    (page / 64 < length s.bitmap) × (bit (page % 64) (get_or s.bitmap (page / 64) 0) ≡ 0)

as_page : (s : Swap) (r : Option ℕ) → FoundFrom 0 s.bitmap r → FoundPage s r
as_page s none all = all
as_page s (some page) (j, k, at, low, here, z) =
    let row : page / 64 ≡ j = omega arith in
    let column : page % 64 ≡ k = omega arith in rw (row, column) (here, z)

-- On a bitmap of 64-bit words `alloc_page` finds a page whose bit is 0, and fails only if every bit of
-- the bitmap is 1.
pub alloc_page-FoundPage : (s : Swap) → All (λ w. w < 2 ^ 64) s.bitmap → FoundPage s (alloc_page s)
unfolding alloc_page
alloc_page-FoundPage s h = as_page s (alloc_from 0 s.bitmap) (alloc_from_lem 0 s.bitmap h)
