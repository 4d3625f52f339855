-- ===== src/Mm/MemorySet/Space.antt =====
-- `MemorySet`, with the heap and the pages of `mmap`, and `MPROCTECTPROT`. The addresses of the
-- trampolines in the kernel's image are arguments. What `mmap` copies from a file is not part of it.
use oskernel2023_main_os.Common.{
  Bool, List, Option, Result, [], add64, bit_and, bit_or, eperm, err, false, if◌then◌else◌, leb,
  none, not, ok, some, sub64, suc, true, zero, ℕ, ◌%◌, ◌&&◌, ◌++◌, ◌-◌, ◌==◌, ◌^◌, ◌∷◌,
}
use oskernel2023_main_os.Mm.Address.{
  ceil, floor, new_range, page_of_addr, page_size, phys_addr, virt_addr,
}
use oskernel2023_main_os.Mm.FrameAllocator.{FrameTracker}
use oskernel2023_main_os.Mm.PageTable.{
  Machine, Memory, PageTable, entry_ppn, map_page, new, set_pte_flags, take_frame, translate,
}
use oskernel2023_main_os.Mm.MemorySet.{
  FrameMap, MapArea, drop_frame, framed, from_another, from_existed, insert_frame, lookup, map_area,
  marked, new_area, remove_frame, unmap_area, vpns,
}

abbrev pub mmap_base_addr : ℕ
mmap_base_addr = 0x20000000

abbrev pub trampoline : ℕ
trampoline = 2 ^ 64 - 4096

abbrev pub signal_trampoline : ℕ
signal_trampoline = trampoline - 4096

abbrev pub flag_r : ℕ
flag_r = 2

abbrev pub flag_w : ℕ
flag_w = 4

abbrev pub flag_x : ℕ
flag_x = 8

abbrev pub flag_user : ℕ
flag_user = 16

pub record MemorySet : Type 0 where
  pub page_table : PageTable
  pub areas : List MapArea
  pub heap_area : FrameMap
  pub mmap_area : FrameMap
  pub mmap_base : ℕ
  pub mmap_end : ℕ

-- `new_bare`
unfoldable pub new_bare : Machine → Option (MemorySet × Machine)
new_bare m = elim (new m) [
  | none ↦ none
  | some (pt, m') ↦ some (
    record {
      page_table = pt;
      areas = [];
      heap_area = [];
      mmap_area = [];
      mmap_base = mmap_base_addr;
      mmap_end = mmap_base_addr;
    },
    m',
  )
]

-- `push` without data
unfoldable pub push_area : MapArea → MemorySet → Machine → Option (MemorySet × Machine)
unfolding map_area
push_area area s m = elim (map_area area s.page_table m) [
  | none ↦ none
  | some (area', pt, m') ↦ some (record s { page_table = pt; areas = s.areas ++ (area' ∷ []) }, m')
]

unfoldable pub insert_framed_area : ℕ → ℕ → ℕ → MemorySet → Machine → Option (MemorySet × Machine)
unfolding new_area push_area
insert_framed_area start_va end_va permission s m =
    elim (new_area start_va end_va framed permission) [
      | none ↦ none
      | some area ↦ push_area area s m
    ]

-- `map_app_data`
unfoldable pub map_app_data : ℕ → ℕ → List ℕ → MemorySet → Machine → Option (MemorySet × Machine)
unfolding from_existed push_area
map_app_data start_va map_perm ppns s m = push_area (from_existed start_va marked map_perm ppns) s m

unfoldable pub drop_map : FrameMap → Machine → Option Machine
unfolding drop_frame
drop_map [] m = some m
drop_map (f ∷ fs) m = elim (drop_frame (some f.1) m) [ none ↦ none | some m' ↦ drop_map fs m' ]

-- The search of `remove_area_with_start_vpn`: the area that is found, unmapped, and the others
unfoldable pub remove_area :
    ℕ → List MapArea → PageTable → Machine → Option (List MapArea × Machine)
unfolding unmap_area drop_map
remove_area start_vpn [] pt m = none
remove_area start_vpn (area ∷ areas) pt m =
    let rest = remove_area start_vpn areas pt m in
    if area.vpn_range.l == start_vpn
    then elim (unmap_area area pt m) [
      | none ↦ none
      | some (area', m') ↦ elim (drop_map area'.data_frames m') [
        | none ↦ none
        | some m'' ↦ some (areas, m'')
      ]
    ]
    else elim rest [ none ↦ none | some (areas', m') ↦ some (area ∷ areas', m') ]

unfoldable pub remove_area_with_start_vpn : ℕ → MemorySet → Machine → Option (MemorySet × Machine)
unfolding remove_area
remove_area_with_start_vpn start_vpn s m = elim (remove_area start_vpn s.areas s.page_table m) [
  | none ↦ none
  | some (areas, m') ↦ some (record s { areas = areas }, m')
]

unfoldable pub map_at : ℕ → ℕ → ℕ → MemorySet → Machine → Option (MemorySet × Machine)
map_at vpn ppn flags s m = elim (map_page s.page_table vpn ppn flags m) [
  | none ↦ none
  | some (pt, m') ↦ some (record s { page_table = pt }, m')
]

-- `map_trampoline` and `map_signaltrampoline`; `none` is also the assertion that an address is aligned.
unfoldable pub map_image_page : ℕ → ℕ → ℕ → MemorySet → Machine → Option (MemorySet × Machine)
unfolding map_at page_of_addr virt_addr phys_addr
map_image_page va pa flags s m = elim (page_of_addr (virt_addr va)) [
  | none ↦ none
  | some vpn ↦ elim (page_of_addr (phys_addr pa)) [
    | none ↦ none
    | some ppn ↦ map_at vpn ppn flags s m
  ]
]

unfoldable pub map_trampoline : ℕ → MemorySet → Machine → Option (MemorySet × Machine)
unfolding map_image_page
map_trampoline strampoline = map_image_page trampoline strampoline (bit_or flag_r flag_x)

unfoldable pub map_signaltrampoline : ℕ → MemorySet → Machine → Option (MemorySet × Machine)
unfolding map_image_page
map_signaltrampoline ssignaltrampoline =
    map_image_page signal_trampoline ssignaltrampoline (bit_or (bit_or flag_r flag_x) flag_user)

-- `recycle_data_pages`: the areas go, with their frames; what the page table maps stays.
unfoldable pub drop_areas : List MapArea → Machine → Option Machine
unfolding drop_map
drop_areas [] m = some m
drop_areas (area ∷ areas) m = elim (drop_map area.data_frames m) [
  | none ↦ none
  | some m' ↦ drop_areas areas m'
]

unfoldable pub recycle_data_pages : MemorySet → Machine → Option (MemorySet × Machine)
unfolding drop_areas
recycle_data_pages s m = elim (drop_areas s.areas m) [
  | none ↦ none
  | some m' ↦ some (record s { areas = [] }, m')
]

-- The loop of `map_heap`, in a number of rounds
unfoldable pub map_heap : ℕ → ℕ → ℕ → MemorySet → Machine → Option (MemorySet × Machine)
unfolding insert_frame virt_addr floor
map_heap zero current_addr aim_addr s m = none
map_heap (suc rounds) current_addr aim_addr s m =
    if leb aim_addr current_addr
    then some (s, m)
    else elim (take_frame m) as (λ x. Option (MemorySet × Machine)) [
      | none ↦ none
      | some (t, m1) ↦
          elim (map_page s.page_table (floor current_addr) t.ppn
            (bit_or (bit_or flag_user flag_r) flag_w) m1) [
              | none ↦ none
              | some (pt, m2) ↦ elim (insert_frame (floor current_addr) t s.heap_area m2) [
                | none ↦ none
                | some (heap, m3) ↦
                    map_heap rounds (virt_addr (add64 current_addr page_size)) aim_addr
                      (record s { page_table = pt; heap_area = heap }) m3
              ]
            ]
    ]

-- `(addr + PAGE_SIZE - 1) & !(PAGE_SIZE - 1)`
unfoldable pub align_up : ℕ → ℕ
align_up addr = let a = sub64 (add64 addr page_size) 1 in a - a % page_size

-- The loops of `mmap`: with `fixed`, a page that has a frame keeps it.
unfoldable pub mmap_pages : Bool → List ℕ → MemorySet → Machine → Option (MemorySet × Machine)
unfolding insert_frame
mmap_pages fixed [] s m = some (s, m)
mmap_pages fixed (vpn ∷ more) s m =
    let kept = mmap_pages fixed more s m in
    if fixed && is_some (lookup vpn s.mmap_area)
    then kept
    else elim (take_frame m) as (λ x. Option (MemorySet × Machine)) [
      | none ↦ none
      | some (t, m1) ↦ elim (insert_frame vpn t s.mmap_area m1) [
        | none ↦ none
        | some (frames, m2) ↦
            elim (map_page s.page_table vpn t.ppn
              (bit_or (bit_or (bit_or flag_r flag_w) flag_user) flag_x) m2) [
                | none ↦ none
                | some (pt, m3) ↦
                    mmap_pages fixed more (record s { page_table = pt; mmap_area = frames }) m3
              ]
      ]
    ]
  where
    is_some : Option FrameTracker → Bool
    is_some none = false
    is_some (some t) = true

-- `mmap` with `MAP_ANONYMOUS`: the address, and the new state. `fixed` is `MAP_FIXED`.
unfoldable pub mmap : ℕ → ℕ → Bool → MemorySet → Machine → Option (ℕ × MemorySet × Machine)
unfolding align_up virt_addr floor new_range mmap_pages
mmap start_addr len fixed s m =
    let at_start = fixed && not (start_addr == 0) in
    let from = if at_start then start_addr else s.mmap_end in
    let start_addr_align = align_up from in
    let end_addr_align = align_up (add64 from len) in
    elim (new_range (floor (virt_addr start_addr_align)) (floor (virt_addr end_addr_align))) [
      | none ↦ none
      | some range ↦
          elim (mmap_pages at_start (vpns range)
            (record s { mmap_end = virt_addr (add64 end_addr_align page_size) }) m) [
              | none ↦ none
              | some (s', m') ↦ some (start_addr_align, s', m')
            ]
    ]

-- The loop of `munmap`
unfoldable pub forget_pages : List ℕ → FrameMap → Machine → Option (FrameMap × Machine)
unfolding remove_frame
forget_pages [] fs m = some (fs, m)
forget_pages (vpn ∷ more) fs m = elim (remove_frame vpn fs m) [
  | none ↦ none
  | some (fs', m') ↦ forget_pages more fs' m'
]

unfoldable pub munmap : ℕ → ℕ → MemorySet → Machine → Option (MemorySet × Machine)
unfolding align_up virt_addr floor new_range forget_pages
munmap start_addr len s m =
    elim (new_range (floor (virt_addr (align_up start_addr)))
      (floor (virt_addr (align_up (add64 start_addr len))))) [
        | none ↦ none
        | some range ↦ elim (forget_pages (vpns range) s.mmap_area m) [
          | none ↦ none
          | some (fs, m') ↦ some (record s { mmap_area = fs }, m')
        ]
      ]

-- The loop of `mprotect`
unfoldable pub protect_pages : List ℕ → ℕ → PageTable → Memory → Result ℕ × Memory
protect_pages [] flags pt mem = (ok 0, mem)
protect_pages (vpn ∷ more) flags pt mem =
    let (found, mem') = set_pte_flags pt vpn flags mem in
    let rest = protect_pages more flags pt mem' in if not found then (err eperm, mem') else rest

unfoldable pub mprotect : ℕ → ℕ → ℕ → MemorySet → Memory → Option (Result ℕ × Memory)
unfolding floor ceil new_range protect_pages
mprotect start end new_flags s mem = elim (new_range (floor start) (ceil end)) [
  | none ↦ none
  | some range ↦ some (protect_pages (vpns range) new_flags s.page_table mem)
]

-- `MPROCTECTPROT` as `PTEFlags`
unfoldable pub pte_flags : ℕ → ℕ
pte_flags prot =
    let r = if bit_and prot 1 == 1 then bit_or flag_user flag_r else flag_user in
    let w = if bit_and prot 2 == 2 then bit_or r flag_w else r in
    if bit_and prot 4 == 4 then bit_or w flag_x else w

-- `dst_ppn.get_bytes_array().copy_from_slice(..)`
abbrev pub copy_page : ℕ → ℕ → Memory → Memory
copy_page src dst mem p i = if dst == p then mem src i else mem p i

-- The pages of an area in `from_existed_user`
unfoldable pub copy_pages : List ℕ → PageTable → PageTable → Memory → Option Memory
copy_pages [] from to mem = some mem
copy_pages (vpn ∷ more) from to mem = elim (translate from mem vpn) [
  | none ↦ none
  | some src ↦ elim (translate to mem vpn) [
    | none ↦ none
    | some dst ↦ copy_pages more from to (copy_page (entry_ppn src) (entry_ppn dst) mem)
  ]
]

unfoldable pub copy_areas :
    List MapArea → PageTable → MemorySet → Machine → Option (MemorySet × Machine)
unfolding from_another push_area copy_pages
copy_areas [] from s m = some (s, m)
copy_areas (area ∷ areas) from s m = elim (push_area (from_another area) s m) [
  | none ↦ none
  | some (s', m') ↦ elim (copy_pages (vpns area.vpn_range) from s'.page_table m'.memory) [
    | none ↦ none
    | some mem ↦ copy_areas areas from s' (record m' { memory = mem })
  ]
]

-- The frames of the heap, or of `mmap`: the new page table and frames
unfoldable pub copy_frames :
    FrameMap → PageTable → FrameMap → Machine → Option (PageTable × FrameMap × Machine)
unfolding insert_frame
copy_frames [] pt frames m = some (pt, frames, m)
copy_frames (f ∷ fs) pt frames m = elim (take_frame m) [
  | none ↦ none
  | some (t, m1) ↦ elim (map_page pt f.0 t.ppn (bit_or (bit_or flag_user flag_r) flag_w) m1) [
    | none ↦ none
    | some (pt', m2) ↦ elim (insert_frame f.0 t frames m2) [
      | none ↦ none
      | some (frames', m3) ↦
          copy_frames fs pt' frames' (record m3 { memory = copy_page f.1.ppn t.ppn m3.memory })
    ]
  ]
]

-- `from_existed_user` in its parts: the new space with its trampolines and the end of the mapped
-- pages, then the areas, the heap and the pages of `mmap`
abbrev pub and_then :
    Option (MemorySet × Machine)
    → (MemorySet → Machine → Option (MemorySet × Machine))
    → Option (MemorySet × Machine)
and_then none f = none
and_then (some (s, m)) f = f s m

unfoldable pub copy_heap : FrameMap → MemorySet → Machine → Option (MemorySet × Machine)
unfolding copy_frames
copy_heap fs s m = elim (copy_frames fs s.page_table s.heap_area m) [
  | none ↦ none
  | some (pt, frames, m') ↦ some (record s { page_table = pt; heap_area = frames }, m')
]

unfoldable pub copy_mmap : FrameMap → MemorySet → Machine → Option (MemorySet × Machine)
unfolding copy_frames
copy_mmap fs s m = elim (copy_frames fs s.page_table s.mmap_area m) [
  | none ↦ none
  | some (pt, frames, m') ↦ some (record s { page_table = pt; mmap_area = frames }, m')
]

unfoldable pub from_existed_user : ℕ → ℕ → MemorySet → Machine → Option (MemorySet × Machine)
unfolding new_bare map_trampoline map_signaltrampoline copy_areas copy_heap copy_mmap
from_existed_user strampoline ssignaltrampoline user_space m = and_then (new_bare m) (λ s0 m0.
    and_then (map_trampoline strampoline s0 m0) (λ s1 m1.
      and_then (map_signaltrampoline ssignaltrampoline s1 m1) (λ s2 m2.
        and_then
          (copy_areas user_space.areas user_space.page_table
            (record s2 { mmap_end = user_space.mmap_end }) m2)
          (λ s3 m3.
            and_then (copy_heap user_space.heap_area s3 m3) (copy_mmap user_space.mmap_area)))))
