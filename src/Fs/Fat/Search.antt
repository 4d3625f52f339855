-- ===== src/Fs/Fat/Search.antt =====
-- The search for a free cluster.
use native.Mathlib.Decide.{ℕ_discrete}
use oskernel2023_main_os.Common.{
  Bool-cases, ap, false, inl, inr, leb, suc, sym, true, zero, ◌+◌, ◌-◌, ◌<◌, ◌∙◌, ◌≡◌, ◌≤◌, ◌⊎◌,
}
use oskernel2023_main_os.Common.{Option, arith, none, some, ℕ}
use oskernel2023_main_os.Fs.Fat.{Disk, Layout, first_free, get_next_free_clus, is_free, or_else}

abbrev FirstFree : Layout → Disk → ℕ → ℕ → Option ℕ → Type 0
FirstFree l disk clus n none = (d : ℕ) → clus ≤ d → d < clus + n → is_free l disk d ≡ false
FirstFree l disk clus n (some c) =
    (is_free l disk c ≡ true)
    × (clus ≤ c)
    × (c < clus + n)
    × ((d : ℕ) → clus ≤ d → d < c → is_free l disk d ≡ false)

first_free_lem :
    (l : Layout) (disk : Disk) (clus n : ℕ) → FirstFree l disk clus n (first_free l disk clus n)
unfolding first_free
first_free_lem l disk clus zero = λ d h k. absurd (omega arith)
first_free_lem l disk clus (suc n) = elim (Bool-cases (is_free l disk clus)) [
  | inl yes_free ↦ rw yes_free (yes_free, omega arith, omega arith, λ d h k. absurd (omega arith))
  | inr taken ↦ rw taken (
      further l disk clus n (first_free l disk (clus + 1) n) taken
        (first_free_lem l disk (clus + 1) n))
]
  where
    not_first :
        (l : Layout) (disk : Disk) (clus c : ℕ)
        → is_free l disk clus ≡ false
        → ((d : ℕ) → clus + 1 ≤ d → d < c → is_free l disk d ≡ false)
        → (d : ℕ) → clus ≤ d
        → d < c
        → is_free l disk d ≡ false
    not_first l disk clus c taken f d h k = elim (ℕ_discrete clus d) [
      | yes e ↦ ap (is_free l disk) (sym e) ∙ taken
      | no ne ↦ f d (omega arith) k
    ]

    further :
        (l : Layout) (disk : Disk) (clus n : ℕ) (r : Option ℕ)
        → is_free l disk clus ≡ false
        → FirstFree l disk (clus + 1) n r
        → FirstFree l disk clus (suc n) r
    further l disk clus n none taken f =
        not_first l disk clus (clus + suc n) taken (λ d h k. f d h (omega arith))
    further l disk clus n (some c) taken (e, h, k, f) =
        (e, omega arith, omega arith, not_first l disk clus c taken f)

-- What the search from `start` on, and round from the end of the table to its beginning, finds.
abbrev pub NextFree : Layout → Disk → ℕ → Option ℕ → Type 0
NextFree l disk start none = (d : ℕ) → d < l.tot_ent → is_free l disk d ≡ false
NextFree l disk start (some c) =
    (c < l.tot_ent)
    × (is_free l disk c ≡ true)
    × ((d : ℕ)
        → d < l.tot_ent
        → ((start ≤ d) × (d < c)) ⊎ ((c < start) × ((start ≤ d) ⊎ (d < c)))
        → is_free l disk d ≡ false)

from_parts :
    (l : Layout) (disk : Disk) (start : ℕ) (a b : Option ℕ)
    → start ≤ l.tot_ent
    → FirstFree l disk start (l.tot_ent - start) a
    → FirstFree l disk 0 start b
    → NextFree l disk start (or_else a b)
from_parts l disk start none none h f g = λ d k. elim (Bool-cases (leb start d)) [
  | inl above ↦ f d (ground arith) (ground arith)
  | inr below ↦ g d (omega arith) (ground arith)
]
from_parts l disk start (some c) b h (e, low, high, f) g =
    (ground arith, e, λ d k w. f d (ground arith) (ground arith))
from_parts l disk start none (some c) h f (e, low, high, g) = (
  omega arith,
  e,
  λ d k w. elim (Bool-cases (leb start d)) [
    | inl above ↦ f d (ground arith) (ground arith)
    | inr below ↦ g d (omega arith) (ground arith)
  ],
)

-- For a start of at most the number of entries `get_next_free_clus` finds the first free cluster
-- from the start on, or else the first one below it; it finds none only if no cluster of the table
-- is free.
pub get_next_free_clus-NextFree :
    (l : Layout) (disk : Disk) (start : ℕ)
    → start ≤ l.tot_ent
    → NextFree l disk start (get_next_free_clus l disk start)
unfolding get_next_free_clus
get_next_free_clus-NextFree l disk start h =
    from_parts l disk start (first_free l disk start (l.tot_ent - start))
      (first_free l disk 0 start) h (first_free_lem l disk start (l.tot_ent - start))
      (first_free_lem l disk 0 start)
