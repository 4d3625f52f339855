-- ===== src/Mm/PageTable/Remove.antt =====
-- A new page table, and the operations that change or remove an entry without growing the table.
use oskernel2023_main_os.Common.{
  Bool-cases, List, Option, Option-cases, [], arith, contains, false, inl, inr, length, none, some,
  true, ℕ, ◌+◌, ◌∙◌, ◌∷◌, ◌≡◌, ◌≢◌, ◌⊎◌,
}
use oskernel2023_main_os.Mm.FrameAllocator.Frames
use oskernel2023_main_os.Mm.FrameAllocator.{FrameTracker}
use oskernel2023_main_os.Mm.FrameAllocator.Trackers.{held}
use oskernel2023_main_os.Mm.PageTable.{
  Machine, Memory, PageTable, empty_entry, find_pte, is_valid, new, take_frame, unmap, write,
}
use oskernel2023_main_os.Mm.PageTable.Spec.{find_pte-third, low, mapping, mid, top}
use oskernel2023_main_os.Mm.PageTable.Update.{
  IsVpn, Updates, mapping_at, write-Inv, write-Updates, write_others,
}
use oskernel2023_main_os.Mm.PageTable.Tree.{WellFormed, child-clear_page, leaf, second, third}
use oskernel2023_main_os.Mm.PageTable.Entries.{is_valid_lem}
use oskernel2023_main_os.Mm.PageTable.Mapping.{Inv, TakesFrame, take_frame-TakesFrame}

-- A tree whose root has no valid entry.
pub empty_tree :
    (mem : Memory) (root : ℕ) (pages : List ℕ)
    → contains pages root ≡ true
    → ((i : ℕ) → second mem root i ≡ none)
    → WellFormed mem root pages
unfolding third
empty_tree mem root pages root_in none_second = record {
  root_in = root_in;
  second_in = λ i p e. absurd (ground (arith, none_second i));
  second_once = λ i i' p e f. absurd (ground (arith, none_second i));
  third_in = λ i j p e. absurd (ground (arith, none_second i));
  third_once = λ i j i' j' p e f. absurd (ground (arith, none_second i));
  levels_apart = λ i j i' p e f. ground (arith, none_second i');
}

-- What `new` does: it panics for want of a frame, or makes a table that maps nothing.
abbrev pub MakesTable : ℕ → List ℕ → Machine → Option (PageTable × Machine) → Type 0
MakesTable base live m none = length live + base ≡ m.frames.end
MakesTable base live m (some (pt, m')) =
    (live' : List ℕ) × Inv base m' pt live'
    × ((vpn : ℕ) → mapping pt m'.memory vpn ≡ none)
    × ((p : ℕ) → contains live p ≡ true → (i : ℕ) → m'.memory p i ≡ m.memory p i)

abbrev as_table : Option (FrameTracker × Machine) → Option (PageTable × Machine)
as_table none = none
as_table (some (t, m')) = some (record { root_ppn = t.ppn; frames = t ∷ [] }, m')

from_take :
    (base : ℕ) (live : List ℕ) (m : Machine) (r : Option (FrameTracker × Machine))
    → TakesFrame base m live r
    → MakesTable base live m (as_table r)
unfolding mapping leaf third
from_take base live m none full = full
from_take base live m (some (t, m')) (hold, out, small, mem, end, pool) =
    let no_second : (i : ℕ) → second m'.memory t.ppn i ≡ none =
      λ i. rw mem (ground (arith, child-clear_page m.memory t.ppn t.ppn i)) in
    (
      t.ppn ∷ live,
      record {
        frames_inv = pool;
        tree = rw hold (empty_tree m'.memory t.ppn (t.ppn ∷ []) (ground arith) no_second);
        owned = λ p h. ground arith;
      },
      (λ vpn. ground (arith, no_second (top vpn))),
      λ p old i. rw mem (ground arith),
    )

-- Under the allocator's invariant `new` panics only if every frame is handed out. Otherwise it
-- makes a table in a frame of its own that satisfies the table's invariant and maps no page, and
-- writes no frame that was handed out before.
pub new-MakesTable :
    (base : ℕ) (live : List ℕ) (m : Machine)
    → Frames.Inv base m.frames live
    → MakesTable base live m (new m)
unfolding new
new-MakesTable base live m v =
    from_take base live m (take_frame m) (take_frame-TakesFrame base m live v)

no_page :
    (pt : PageTable) (mem : Memory) (vpn : ℕ)
    → third mem pt.root_ppn (top vpn) (mid vpn) ≡ none
    → (mapping pt mem vpn ≡ none) × (find_pte mem pt vpn ≡ none)
unfolding mapping leaf
no_page pt mem vpn missing = (rw missing, find_pte-third pt mem vpn ∙ (rw missing))

at_page :
    (pt : PageTable) (mem : Memory) (vpn page : ℕ)
    → third mem pt.root_ppn (top vpn) (mid vpn) ≡ some page
    → find_pte mem pt vpn ≡ some (page, low vpn)
at_page pt mem vpn page here = find_pte-third pt mem vpn ∙ (rw here)

-- Under the invariant, `unmap` of a mapped page of 27 bits removes its mapping and no other,
-- writes to no frame but the table's own and keeps the invariant; of a page that is not mapped it
-- panics.
pub unmap_lem :
    (base : ℕ) (m : Machine) (pt : PageTable) (live : List ℕ) (vpn : ℕ)
    → Inv base m pt live
    → IsVpn vpn
    → ((mem' : Memory) × (mapping pt m.memory vpn ≢ none)
        × (unmap pt vpn m.memory ≡ some mem')
        × Updates pt m.memory vpn none pt mem'
        × Inv base (record m { memory = mem' }) pt live
        × ((p : ℕ) → contains (held pt.frames) p ≡ false → (i : ℕ) → mem' p i ≡ m.memory p i))
      ⊎ ((mapping pt m.memory vpn ≡ none) × (unmap pt vpn m.memory ≡ none))
unfolding unmap
unmap_lem base m pt live vpn v is_vpn =
    elim (Option-cases (third m.memory pt.root_ppn (top vpn) (mid vpn))) [
      | inl missing ↦
          let (unmapped, nowhere) = no_page pt m.memory vpn missing in
          inr (unmapped, rw (nowhere, unmap))
      | inr (page, here) ↦
          let place = at_page pt m.memory vpn page here in
          let at = mapping_at pt m.memory vpn page here in
          elim (Bool-cases (is_valid (m.memory page (low vpn)))) [
            | inr absent ↦ inr (ground arith, rw (place, absent, unmap))
            | inl valid ↦ inl (
              write m.memory page (low vpn) empty_entry,
              (λ f. ground arith),
              rw (place, valid, unmap),
              (λ w is_w.
                  write-Updates base m pt live v vpn page empty_entry is_vpn here w is_w
                  ∙ ground (arith, is_valid_lem 0)),
              write-Inv base m pt live v vpn page empty_entry is_vpn here,
              write_others base m pt live v vpn page empty_entry is_vpn here,
            )
          ]
    ]
