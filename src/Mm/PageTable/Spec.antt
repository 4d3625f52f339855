-- ===== src/Mm/PageTable/Spec.antt =====
-- The page table as a map from page numbers to entries: `find_pte` and `translate` against it.
use mathlib.Core.Option
use oskernel2023_main_os.Common.{
  Option, Option-cases, arith, if◌then◌else◌, inl, inr, none, some, ℕ, ◌%◌, ◌&&◌, ◌/◌, ◌<◌, ◌==◌,
  ◌^◌, ◌≡◌,
}
use oskernel2023_main_os.Mm.PageTable.{Memory, PageTable, find_pte, is_valid, translate}
use oskernel2023_main_os.Mm.PageTable.Tree.{child, leaf, third}

abbrev pub top : ℕ → ℕ
top vpn = vpn / 2 ^ 9 / 2 ^ 9 % 2 ^ 9

abbrev pub mid : ℕ → ℕ
mid vpn = vpn / 2 ^ 9 % 2 ^ 9

abbrev pub low : ℕ → ℕ
low vpn = vpn % 2 ^ 9

-- What the table maps a page number to: its valid entry, if there is one.
unfoldable pub mapping : PageTable → Memory → ℕ → Option ℕ
mapping pt mem vpn = leaf mem pt.root_ppn (top vpn) (mid vpn) (low vpn)

pub same_indexes :
    (v w : ℕ)
    → v < 2 ^ 27
    → w < 2 ^ 27
    → (top v == top w && (mid v == mid w && low v == low w)) ≡ (v == w)
same_indexes v w hv hw = ground arith

pub find_pte-third :
    (pt : PageTable) (mem : Memory) (vpn : ℕ)
    → find_pte mem pt vpn
      ≡ Option.map (λ page. (page, low vpn)) (third mem pt.root_ppn (top vpn) (mid vpn))
unfolding find_pte third child
find_pte-third pt mem vpn = ground arith

-- `translate` finds the valid entry of a mapped page, and for any other page finds none or one that
-- is not valid.
pub translate-mapping :
    (pt : PageTable) (mem : Memory) (vpn : ℕ)
    → mapping pt mem vpn ≡ (elim (translate pt mem vpn) [
      | none ↦ none
      | some bits ↦ if is_valid bits then some bits else none
    ])
unfolding mapping translate leaf
translate-mapping pt mem vpn =
    rw (find_pte-third pt mem vpn)
      (elim (Option-cases (third mem pt.root_ppn (top vpn) (mid vpn))) [
        | inl e ↦ rw e
        | inr (p, e) ↦ rw e
      ])
