-- ===== src/Mm/MemorySet.antt =====
-- kernel/src/mm/memory_set.rs: areas (`MapArea`) and address spaces (`MemorySet`). A `BTreeMap` is a list by
-- ascending keys; a tracker that is replaced or removed is dropped, which gives its frame back. Pages
-- are copied by their entries. `none` is a panic.
pub mod Space
pub mod Unmapping
mod Tests
use oskernel2023_main_os.Common.{
  Bool, List, Option, [], false, if◌then◌else◌, length, ltb, none, some, suc, true, zero, ℕ, ◌+◌,
  ◌-◌, ◌==◌, ◌∷◌,
}
use oskernel2023_main_os.Mm.Address.{SimpleRange, ceil, floor, new_range}
use oskernel2023_main_os.Mm.FrameAllocator.{FrameTracker, cover, drop_tracker}
use oskernel2023_main_os.Mm.PageTable.{Machine, PageTable, map_page, take_frame, unmap}

abbrev pub FrameMap : Type 0
FrameMap = List (ℕ × FrameTracker)

abbrev pub lookup : ℕ → FrameMap → Option FrameTracker
lookup vpn [] = none
lookup vpn (f ∷ fs) = let rest = lookup vpn fs in if f.0 == vpn then some f.1 else rest

abbrev pub insert : ℕ → FrameTracker → FrameMap → FrameMap
insert vpn t [] = (vpn, t) ∷ []
insert vpn t (f ∷ fs) =
    let rest = insert vpn t fs in
    if ltb vpn f.0 then (vpn, t) ∷ f ∷ fs else if f.0 == vpn then (vpn, t) ∷ fs else f ∷ rest

abbrev pub remove : ℕ → FrameMap → FrameMap
remove vpn [] = []
remove vpn (f ∷ fs) = let rest = remove vpn fs in if f.0 == vpn then fs else f ∷ rest

unfoldable pub drop_frame : Option FrameTracker → Machine → Option Machine
drop_frame none m = some m
drop_frame (some t) m = elim (drop_tracker m.frames t) [
  | none ↦ none
  | some frames ↦ some (record m { frames = frames })
]

-- `BTreeMap::insert` and `remove`, with the end of the tracker that was there
unfoldable pub insert_frame : ℕ → FrameTracker → FrameMap → Machine → Option (FrameMap × Machine)
unfolding drop_frame
insert_frame vpn t fs m = elim (drop_frame (lookup vpn fs) m) [
  | none ↦ none
  | some m' ↦ some (insert vpn t fs, m')
]

unfoldable pub remove_frame : ℕ → FrameMap → Machine → Option (FrameMap × Machine)
unfolding drop_frame
remove_frame vpn fs m = elim (drop_frame (lookup vpn fs) m) [
  | none ↦ none
  | some m' ↦ some (remove vpn fs, m')
]

-- `for vpn in vpn_range`
abbrev pub count_up : ℕ → ℕ → List ℕ
count_up l zero = []
count_up l (suc n) = l ∷ count_up (l + 1) n

abbrev pub vpns : SimpleRange → List ℕ
vpns range = count_up range.l (range.r - range.l)

pub data MapType : Type 0 where
  identical framed marked : MapType

pub record MapArea : Type 0 where
  pub vpn_range : SimpleRange
  pub data_frames : FrameMap
  pub map_type : MapType
  pub map_perm : ℕ

unfoldable pub new_area : ℕ → ℕ → MapType → ℕ → Option MapArea
unfolding floor ceil new_range
new_area start_va end_va map_type map_perm = elim (new_range (floor start_va) (ceil end_va)) [
  | none ↦ none
  | some range ↦
      some
        (record { vpn_range = range; data_frames = []; map_type = map_type; map_perm = map_perm })
]

unfoldable pub from_another : MapArea → MapArea
from_another another = record another { data_frames = [] }

-- `from_existed`: covers of the frames, from a page on
unfoldable pub covers_from : ℕ → List ℕ → FrameMap
unfolding cover
covers_from vpn [] = []
covers_from vpn (ppn ∷ ppns) = (vpn, cover ppn) ∷ covers_from (vpn + 1) ppns

unfoldable pub from_existed : ℕ → MapType → ℕ → List ℕ → MapArea
unfolding floor covers_from
from_existed start_va map_type map_perm ppns = record {
  vpn_range = record { l = floor start_va; r = floor start_va + length ppns };
  data_frames = covers_from (floor start_va) ppns;
  map_type = map_type;
  map_perm = map_perm;
}

abbrev pub with_table :
    MapArea → Option (PageTable × Machine) → Option (MapArea × PageTable × Machine)
with_table area none = none
with_table area (some (pt, m)) = some (area, pt, m)

unfoldable pub map_one : MapArea → PageTable → ℕ → Machine → Option (MapArea × PageTable × Machine)
unfolding insert_frame
map_one area pt vpn m = elim area.map_type [
  | identical ↦ with_table area (map_page pt vpn vpn area.map_perm m)
  | framed ↦ elim (take_frame m) [
    | none ↦ none
    | some (t, m') ↦ elim (insert_frame vpn t area.data_frames m') [
      | none ↦ none
      | some (fs, m'') ↦
          with_table (record area { data_frames = fs }) (map_page pt vpn t.ppn area.map_perm m'')
    ]
  ]
  | marked ↦ none
]

unfoldable pub map_pages :
    List ℕ → MapArea → PageTable → Machine → Option (MapArea × PageTable × Machine)
unfolding map_one
map_pages [] area pt m = some (area, pt, m)
map_pages (vpn ∷ more) area pt m = elim (map_one area pt vpn m) [
  | none ↦ none
  | some (area', pt', m') ↦ map_pages more area' pt' m'
]

-- `map_one_unalloc` of each frame
unfoldable pub map_marked : ℕ → FrameMap → PageTable → Machine → Option (PageTable × Machine)
map_marked map_perm [] pt m = some (pt, m)
map_marked map_perm (f ∷ fs) pt m = elim (map_page pt f.0 f.1.ppn map_perm m) [
  | none ↦ none
  | some (pt', m') ↦ map_marked map_perm fs pt' m'
]

unfoldable pub map_area : MapArea → PageTable → Machine → Option (MapArea × PageTable × Machine)
unfolding map_pages map_marked
map_area area pt m = elim area.map_type [
  | identical ↦ map_pages (vpns area.vpn_range) area pt m
  | framed ↦ map_pages (vpns area.vpn_range) area pt m
  | marked ↦ with_table area (map_marked area.map_perm area.data_frames pt m)
]

abbrev pub is_framed : MapType → Bool
is_framed framed = true
is_framed t = false

unfoldable pub unmap_one : MapArea → PageTable → ℕ → Machine → Option (MapArea × Machine)
unfolding remove_frame
unmap_one area pt vpn m =
    elim (if is_framed area.map_type
        then remove_frame vpn area.data_frames m
        else some (area.data_frames, m))
      as (λ x. Option (MapArea × Machine)) [
        | none ↦ none
        | some (fs, m') ↦ elim (unmap pt vpn m'.memory) [
          | none ↦ none
          | some mem ↦ some (record area { data_frames = fs }, record m' { memory = mem })
        ]
      ]

unfoldable pub unmap_pages : List ℕ → MapArea → PageTable → Machine → Option (MapArea × Machine)
unfolding unmap_one
unmap_pages [] area pt m = some (area, m)
unmap_pages (vpn ∷ more) area pt m = elim (unmap_one area pt vpn m) [
  | none ↦ none
  | some (area', m') ↦ unmap_pages more area' pt m'
]

-- `MapArea::unmap`
unfoldable pub unmap_area : MapArea → PageTable → Machine → Option (MapArea × Machine)
unfolding unmap_pages
unmap_area area pt m = unmap_pages (vpns area.vpn_range) area pt m
