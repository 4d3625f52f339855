-- ===== src/Mm/PageTable/Tests.antt =====
-- A machine with frames 5 to 19, a page table in it, and the theorems at that machine.
use oskernel2023_main_os.Common.{
  List, Pool-bump, Pool-empty, [], arith, contains, false, if◌then◌else◌, none, refl, some, subst,
  true, ℕ, ◌*◌, ◌+◌, ◌∷◌, ◌≡◌, ◌≢◌, ◌⊎◌,
}
use oskernel2023_main_os.Mm.FrameAllocator.{FrameTracker, frame_alloc}
use oskernel2023_main_os.Mm.FrameAllocator.Frames
use oskernel2023_main_os.Mm.FrameAllocator.Trackers.{held}
use oskernel2023_main_os.Mm.PageTable.{
  Machine, Memory, PageTable, clear_page, delete_pte_flags, descend, entry, entry_flags, entry_ppn,
  executable, find_pte, find_pte_create, is_dirty, is_valid, map_page, new, readable, set_pte_flags,
  take_frame, translate, translate_va, unmap, writable, write,
}
use oskernel2023_main_os.Mm.PageTable.Tree.{child-clear_page, second}
use oskernel2023_main_os.Mm.PageTable.Mapping.{Inv}
use oskernel2023_main_os.Mm.PageTable.Spec.{mapping, translate-mapping}
use oskernel2023_main_os.Mm.PageTable.Update.{Maps, Updates, map_page-Maps}
use oskernel2023_main_os.Mm.PageTable.Remove.{MakesTable, empty_tree, new-MakesTable, unmap_lem}

abbrev zeros : Memory
zeros = λ p i. 0

abbrev frame : ℕ → FrameTracker
frame ppn = record { ppn = ppn; hold = true }

abbrev booted : Machine
booted = record { frames = record { current = 5; end = 20; recycled = [] }; memory = zeros }

-- After `PageTable::new`
abbrev table : PageTable
table = record { root_ppn = 5; frames = frame 5 ∷ [] }

abbrev with_table : Machine
with_table = record {
  frames = record { current = 6; end = 20; recycled = [] };
  memory = clear_page zeros 5;
}

-- After the mapping of page 3 to frame 9, readable and writable
abbrev mapped_table : PageTable
mapped_table = record { root_ppn = 5; frames = frame 7 ∷ frame 6 ∷ frame 5 ∷ [] }

abbrev with_page : Machine
with_page = record {
  frames = record { current = 8; end = 20; recycled = [] };
  memory =
      write
        (write (clear_page (write (clear_page (clear_page zeros 5) 6) 5 0 (entry 6 1)) 7) 6 0
          (entry 7 1))
        7 3 (entry 9 7);
}

runs_new : new booted ≡ some (table, with_table)
unfolding new take_frame frame_alloc
runs_new = refl

runs_map : map_page table 3 9 6 with_table ≡ some (mapped_table, with_page)
unfolding map_page find_pte_create descend is_valid frame_alloc entry_ppn entry
runs_map = refl

map_twice : map_page mapped_table 3 10 6 with_page ≡ none
unfolding map_page find_pte_create descend is_valid entry_ppn entry
map_twice = refl

finds_entry : translate mapped_table with_page.memory 3 ≡ some (9 * 1024 + 7)
unfolding translate find_pte is_valid entry_ppn entry
finds_entry = refl

finds_address : translate_va mapped_table with_page.memory (3 * 4096 + 5) ≡ some (9 * 4096 + 5)
unfolding translate_va find_pte is_valid entry_ppn entry
finds_address = refl

sets_flags :
    translate mapped_table (set_pte_flags mapped_table 3 8 with_page.memory).1 3
    ≡ some (9 * 1024 + 25)
unfolding translate find_pte is_valid entry_ppn entry set_pte_flags
sets_flags = refl

deletes_flags :
    translate mapped_table (delete_pte_flags mapped_table 3 4 with_page.memory).1 3
    ≡ some (9 * 1024 + 3)
unfolding translate find_pte is_valid entry_ppn entry delete_pte_flags
deletes_flags = refl

booted-Inv : Frames.Inv 5 booted.frames []
booted-Inv = record { pool = Pool-empty 5; within = omega arith; narrow = omega arith }

no_child : (i : ℕ) → second (clear_page zeros 5) 5 i ≡ none
no_child i = ground (arith, child-clear_page zeros 5 5 i)

with_table-Inv : Inv 5 with_table table (5 ∷ [])
with_table-Inv = record {
  frames_inv = record {
    pool = Pool-bump (Pool-empty 5);
    within = omega arith;
    narrow = omega arith;
  };
  tree = empty_tree (clear_page zeros 5) 5 (5 ∷ []) refl no_child;
  owned = λ p h. ground arith;
}

with_page-Inv : (live : List ℕ) × Inv 5 with_page mapped_table live
with_page-Inv =
    let (live, _, _, inv, _) = subst (Maps 5 (5 ∷ []) table with_table 3 9 6) runs_map (
      map_page-Maps 5 (5 ∷ []) table with_table 3 9 6 (omega arith) (omega arith) (omega arith)
        with_table-Inv) in
    (live, inv)

new-MakesTable_example : MakesTable 5 [] booted (new booted)
new-MakesTable_example = new-MakesTable 5 [] booted booted-Inv

map_page-Maps_example : Maps 5 (5 ∷ []) table with_table 3 9 6 (map_page table 3 9 6 with_table)
map_page-Maps_example =
    map_page-Maps 5 (5 ∷ []) table with_table 3 9 6 (omega arith) (omega arith) (omega arith)
      with_table-Inv

unmap_lem_example :
    ((mem' : Memory) × (mapping mapped_table with_page.memory 3 ≢ none)
      × (unmap mapped_table 3 with_page.memory ≡ some mem')
      × Updates mapped_table with_page.memory 3 none mapped_table mem'
      × Inv 5 (record with_page { memory = mem' }) mapped_table with_page-Inv.0
      × ((p : ℕ)
          → contains (held mapped_table.frames) p ≡ false
          → (i : ℕ) → mem' p i ≡ with_page.memory p i))
    ⊎ ((mapping mapped_table with_page.memory 3 ≡ none)
        × (unmap mapped_table 3 with_page.memory ≡ none))
unmap_lem_example =
    unmap_lem 5 with_page mapped_table with_page-Inv.0 3 with_page-Inv.1 (omega arith)

translate-mapping_example :
    mapping mapped_table with_page.memory 3 ≡ (elim (translate mapped_table with_page.memory 3) [
      | none ↦ none
      | some bits ↦ if is_valid bits then some bits else none
    ])
translate-mapping_example = translate-mapping mapped_table with_page.memory 3

flags_of_seven :
    (readable (entry 9 7) ≡ true)
    × (writable (entry 9 7) ≡ true)
    × (executable (entry 9 7) ≡ false)
    × (is_dirty (entry 9 7) ≡ false)
unfolding readable writable executable is_dirty entry entry_flags
flags_of_seven = (refl, refl, refl, refl)
