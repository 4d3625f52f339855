-- ===== src/Mm/PageTable/Update.antt =====
-- `map`, `unmap`, `set_pte_flags` and `delete_pte_flags` as updates of the map from page numbers to
-- entries.
use oskernel2023_main_os.Common.{
  Bool, Bool-cases, List, Option, ap, arith, bit_or, bit_or-one, contains, false, if◌then◌else◌,
  inl, inr, length, none, some, true, ℕ, ◌%◌, ◌+◌, ◌<◌, ◌==◌, ◌^◌, ◌∙◌, ◌≡◌, ◌≢◌, ◌≤◌, ◌⊎◌,
}
use oskernel2023_main_os.Mm.FrameAllocator.Trackers.{held}
use oskernel2023_main_os.Mm.PageTable.{
  Found, Machine, Memory, PageTable, entry, find_pte_create, flag_v, is_valid, map_page, write,
  write_new,
}
use oskernel2023_main_os.Mm.PageTable.Tree.{leaf, third, valid_entry}
use oskernel2023_main_os.Mm.PageTable.Walk.{WellFormed-written, leaf-written}
use oskernel2023_main_os.Mm.PageTable.Mapping.{Inv}
use oskernel2023_main_os.Mm.PageTable.Spec.{low, mapping, mid, same_indexes, top}
use oskernel2023_main_os.Mm.PageTable.Create.{CreatesEntry, Grown, find_pte_create-CreatesEntry}
use oskernel2023_main_os.Mm.PageTable.Entries.{entry_lem}

-- Page numbers have 27 bits.
abbrev pub IsVpn : ℕ → Type 0
IsVpn vpn = vpn < 2 ^ 27

-- The map is as before, but for `vpn`.
abbrev pub Updates : PageTable → Memory → ℕ → Option ℕ → PageTable → Memory → Type 0
Updates pt mem vpn bits pt' mem' =
    (w : ℕ) → IsVpn w → mapping pt' mem' w ≡ (if vpn == w then bits else mapping pt mem w)

-- A write to the place of `vpn` updates the map there.
module _ (base : ℕ) (m : Machine) (pt : PageTable) (live : List ℕ) (v : Inv base m pt live)
    (vpn page bits : ℕ) (is_vpn : IsVpn vpn)
    (here : third m.memory pt.root_ppn (top vpn) (mid vpn) ≡ some page) where
  abbrev after_write : Machine
  after_write = record m { memory = write m.memory page (low vpn) bits }

  pub write-Updates :
      Updates pt m.memory vpn (if is_valid bits then some bits else none) pt after_write.memory
  unfolding mapping
  write-Updates w is_w =
      leaf-written m.memory pt.root_ppn (held pt.frames) v.tree (top vpn) (mid vpn) (low vpn) page
        bits here (top w) (mid w) (low w)
      ∙ ap
          (λ (b : Bool).
            if b
            then if is_valid bits then some bits else none
            else leaf m.memory pt.root_ppn (top w) (mid w) (low w))
          (same_indexes vpn w is_vpn is_w)

  pub write-Inv : Inv base after_write pt live
  write-Inv = record {
    frames_inv = v.frames_inv;
    tree =
        WellFormed-written m.memory pt.root_ppn (held pt.frames) v.tree (top vpn) (mid vpn)
          (low vpn) page bits here;
    owned = v.owned;
  }

  pub write_others :
      (p : ℕ)
      → contains (held pt.frames) p ≡ false
      → (i : ℕ) → after_write.memory p i ≡ m.memory p i
  write_others p out i = let own = (v.tree.third_in (top vpn) (mid vpn) page here).0 in ground arith

pub mapping_at :
    (pt : PageTable) (mem : Memory) (vpn page : ℕ)
    → third mem pt.root_ppn (top vpn) (mid vpn) ≡ some page
    → mapping pt mem vpn ≡ valid_entry mem page (low vpn)
unfolding mapping leaf
mapping_at pt mem vpn page here = rw here

-- What `map` does. `none` is a panic: of the assertion, if the page is mapped, or for want of
-- frames. Otherwise the page was not mapped, and the map is updated there; the frames of the table,
-- old and new, are its own, and no other frame that was handed out is written.
abbrev pub Maps :
    ℕ → List ℕ → PageTable → Machine → ℕ → ℕ → ℕ → Option (PageTable × Machine) → Type 0
Maps base live pt m vpn ppn flags none =
    (mapping pt m.memory vpn ≢ none) ⊎ (m.frames.end ≤ length live + base + 1)
Maps base live pt m vpn ppn flags (some (pt', m')) =
    (live' : List ℕ) × (mapping pt m.memory vpn ≡ none)
    × Updates pt m.memory vpn (some (entry ppn (bit_or flags flag_v))) pt' m'.memory
    × Inv base m' pt' live'
    × ((p : ℕ)
        → contains live p ≡ true
        → contains (held pt.frames) p ≡ false
        → (i : ℕ) → m'.memory p i ≡ m.memory p i)

flags_with_v :
    (flags : ℕ) → flags < 2 ^ 8 → (bit_or flags flag_v < 2 ^ 8) × (bit_or flags flag_v % 2 ≡ 1)
flags_with_v flags h = let e = bit_or-one flags in (omega arith, omega arith)

module _ (base : ℕ) (live : List ℕ) (pt : PageTable) (m : Machine) (vpn ppn flags : ℕ)
    (is_vpn : IsVpn vpn) (is_ppn : ppn < 2 ^ 44) (is_flags : flags < 2 ^ 8) where
  abbrev bits : ℕ
  bits = entry ppn (bit_or flags flag_v)

  bits_valid : is_valid bits ≡ true
  bits_valid =
      let (small, odd) = flags_with_v flags is_flags in
      let (_, _, e) = entry_lem ppn (bit_or flags flag_v) is_ppn small in ground arith

  mapping-Grown :
      {m' : Machine} {pt' : PageTable} {live' : List ℕ} (g : Grown base m pt live m' pt' live')
      (w : ℕ)
      → mapping pt' m'.memory w ≡ mapping pt m.memory w
  unfolding mapping
  mapping-Grown g w = rw g.root (g.entries (top w) (mid w) (low w))

  write_new-Maps :
      (r : Option Found)
      → CreatesEntry base live pt m vpn r
      → Maps base live pt m vpn ppn flags (write_new ppn flags r)
  write_new-Maps none few = inr few
  write_new-Maps (some ((page, idx), pt', m')) (live', g, at, here) =
      let here' : third m'.memory pt'.root_ppn (top vpn) (mid vpn) ≡ some page = rw g.root here in
      let found = mapping_at pt' m'.memory vpn page here' in
      let before = mapping-Grown g vpn in
      rw at (elim (Bool-cases (is_valid (m'.memory page (low vpn)))) [
        | inl valid ↦ rw valid (inl (λ e. ground arith))
        | inr free ↦ rw free (
          live',
          ground arith,
          (λ w is_w.
              write-Updates base m' pt' live' g.inv vpn page bits is_vpn here' w is_w
              ∙ ground (arith, bits_valid, mapping-Grown g w)),
          write-Inv base m' pt' live' g.inv vpn page bits is_vpn here',
          λ p old out i.
              let (_, same, keep) = g.others p old in
              write_others base m' pt' live' g.inv vpn page bits is_vpn here' p (same ∙ out) i
              ∙ keep out i,
        )
      ])

  -- Under the invariant `map` of a page of 27 bits to a frame of 44 bits, with a byte of flags,
  -- panics only if the page is mapped or at most one frame is left. Otherwise the page, which was
  -- not mapped, is mapped to the frame with the flags and V, no other page's mapping changes, the
  -- invariant holds again, and no frame that was handed out before is written but the table's own.
  pub map_page-Maps :
      Inv base m pt live → Maps base live pt m vpn ppn flags (map_page pt vpn ppn flags m)
  unfolding map_page
  map_page-Maps v =
      write_new-Maps (find_pte_create pt vpn m) (find_pte_create-CreatesEntry base live pt m vpn v)
