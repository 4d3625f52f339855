-- ===== src/Mm/PageTable/Tree.antt =====
-- The tree of a page table in memory: the pages of its levels, and what a write to an entry of the
-- tree, or a new page in it, does to it.
use oskernel2023_main_os.Common.{
  List, Option, arith, bit_and-one, contains, if◌then◌else◌, none, some, true, ℕ, ◌&&◌, ◌==◌, ◌≡◌,
  ◌≢◌,
}
use oskernel2023_main_os.Mm.PageTable.{
  Memory, clear_page, entry, entry_flags, entry_ppn, flag_v, is_valid, write,
}

-- The page that a valid entry leads to.
unfoldable pub child : Memory → ℕ → ℕ → Option ℕ
child mem page i = if is_valid (mem page i) then some (entry_ppn (mem page i)) else none

pub child-write :
    (mem : Memory) (page idx bits p i : ℕ)
    → child (write mem page idx bits) p i ≡ (
        if page == p && idx == i
        then if is_valid bits then some (entry_ppn bits) else none
        else child mem p i)
unfolding child
child-write mem page idx bits p i = ground arith

pub child-clear_page :
    (mem : Memory) (page p i : ℕ)
    → child (clear_page mem page) p i ≡ (if page == p then none else child mem p i)
unfolding child is_valid entry_flags
child-clear_page mem page p i = ground (arith, bit_and-one 0)

-- The pages of the second and the third level, by the indexes that lead to them.
abbrev pub second : Memory → ℕ → ℕ → Option ℕ
second mem root i = child mem root i

abbrev pub under : Option ℕ → Memory → ℕ → Option ℕ
under none mem j = none
under (some page) mem j = child mem page j

unfoldable pub third : Memory → ℕ → ℕ → ℕ → Option ℕ
third mem root i j = under (child mem root i) mem j

-- No page of the tree stands in two places, and all of them are pages of `pages`.
pub record WellFormed (mem : Memory) (root : ℕ) (pages : List ℕ) : Type 0 where
  pub root_in : contains pages root ≡ true
  pub second_in : (i p : ℕ) → second mem root i ≡ some p → (contains pages p ≡ true) × (p ≢ root)
  pub second_once : (i i' p : ℕ) → second mem root i ≡ some p → second mem root i' ≡ some p → i ≡ i'
  pub third_in : (i j p : ℕ) → third mem root i j ≡ some p → (contains pages p ≡ true) × (p ≢ root)
  pub third_once :
      (i j i' j' p : ℕ)
      → third mem root i j ≡ some p
      → third mem root i' j' ≡ some p
      → (i ≡ i') × (j ≡ j')
  pub levels_apart : (i j i' p : ℕ) → third mem root i j ≡ some p → second mem root i' ≡ some p → ⊥

-- The valid entry for three indexes: what the table maps them to.
abbrev pub valid_entry : Memory → ℕ → ℕ → Option ℕ
valid_entry mem page k = if is_valid (mem page k) then some (mem page k) else none

abbrev pub entry_under : Option ℕ → Memory → ℕ → Option ℕ
entry_under none mem k = none
entry_under (some page) mem k = valid_entry mem page k

unfoldable pub leaf : Memory → ℕ → ℕ → ℕ → ℕ → Option ℕ
leaf mem root i j k = entry_under (third mem root i j) mem k

-- Memory with a fresh, cleared page linked in at an entry.
abbrev pub linked : Memory → ℕ → ℕ → ℕ → Memory
linked mem fresh page idx = write (clear_page mem fresh) page idx (entry fresh flag_v)
