-- ===== src/Mm/MemorySet/Tests.antt =====
-- A machine with frames 5 to 39, an address space in it, and the theorem there.
use oskernel2023_main_os.Mm.FrameAllocator.{frame_alloc}
use oskernel2023_main_os.Common.{
  List, Option, Pool-bump, Pool-empty, [], arith, bit_or, false, none, refl, some, true, ℕ, ◌*◌,
  ◌+◌, ◌∷◌, ◌≡◌,
}
use oskernel2023_main_os.Mm.FrameAllocator.Frames
use oskernel2023_main_os.Mm.Address.{floor, virt_addr}
use oskernel2023_main_os.Mm.PageTable.{
  Machine, descend, entry, entry_ppn, find_pte, find_pte_create, is_valid, map_page, new,
  take_frame, translate,
}
use oskernel2023_main_os.Mm.MemorySet.Space.{
  MemorySet, align_up, and_then, copy_mmap, flag_r, flag_user, insert_framed_area, map_heap, mmap,
  mmap_base_addr, munmap, new_bare, pte_flags,
}
use oskernel2023_main_os.Mm.MemorySet.Unmapping.Munmap.{Unmaps, munmap-Unmaps}

abbrev booted : Machine
booted = record { frames = record { current = 5; end = 40; recycled = [] }; memory = λ p i. 0 }

-- The pages from one on, as the page table has them
abbrev entries_of : ℕ → Option (MemorySet × Machine) → List (Option ℕ)
entries_of vpn none = []
entries_of vpn (some (s, m)) =
    translate s.page_table m.memory vpn ∷ translate s.page_table m.memory (vpn + 1) ∷ []

abbrev framed_space : Option (MemorySet × Machine)
framed_space =
    and_then (new_bare booted)
      (insert_framed_area (16 * 4096 + 5) (17 * 4096 + 1) (bit_or flag_user flag_r))

-- Two pages, readable for the user: frames 6 and 9
maps_area : entries_of 16 framed_space ≡ some (6 * 1024 + 19) ∷ some (9 * 1024 + 19) ∷ []
unfolding new_bare insert_framed_area new take_frame frame_alloc map_page find_pte_create descend
    is_valid entry_ppn entry translate find_pte
maps_area = refl

maps_heap :
    entries_of 48 (and_then framed_space (map_heap 3 (48 * 4096) (49 * 4096 + 1)))
    ≡ some (10 * 1024 + 23) ∷ some (11 * 1024 + 23) ∷ []
unfolding new_bare insert_framed_area map_heap new take_frame frame_alloc map_page find_pte_create
    descend is_valid entry_ppn entry translate find_pte
maps_heap = refl

-- A page of `mmap` is executable, and in the space that is copied from it not.
abbrev with_mmap : Option (ℕ × MemorySet × Machine)
with_mmap = elim (new_bare booted) [ none ↦ none | some (s, m) ↦ mmap 0 4096 false s m ]

abbrev copied : Option (MemorySet × Machine)
copied = elim with_mmap [
  | none ↦ none
  | some (addr, s, m) ↦ and_then (new_bare m) (copy_mmap s.mmap_area)
]

mmap_flags :
    (entries_of 131072 (elim with_mmap [ none ↦ none | some r ↦ some (r.1, r.2) ])
      ≡ some (6 * 1024 + 31) ∷ some 0 ∷ [])
    × (entries_of 131072 copied ≡ some (10 * 1024 + 23) ∷ some 0 ∷ [])
unfolding new_bare mmap copy_mmap new take_frame frame_alloc map_page find_pte_create descend
    is_valid entry_ppn entry translate find_pte
mmap_flags = (refl, refl)

-- A fixed page moves the end of the mapped pages down.
moves_down :
    elim (and_then (new_bare booted) (λ s m. some (s, m))) [
      | none ↦ none
      | some (s, m) ↦ elim (mmap 4096 4096 true s m) [ none ↦ none | some r ↦ some r.1.mmap_end ]
    ]
    ≡ some (3 * 4096)
unfolding new_bare mmap new take_frame frame_alloc map_page find_pte_create descend is_valid
    entry_ppn entry translate find_pte
moves_down = refl

protects : (pte_flags 5 ≡ 26) × (pte_flags 0 ≡ 16)
unfolding pte_flags
protects = (refl, refl)

abbrev used_frames : Machine
used_frames = record { frames = record { current = 7; end = 40; recycled = [] }; memory = λ p i. 0 }

used_frames-Inv : Frames.Inv 5 used_frames.frames (6 ∷ 5 ∷ [])
used_frames-Inv = record {
  pool = Pool-bump (Pool-bump (Pool-empty 5));
  within = omega arith;
  narrow = omega arith;
}

abbrev space : MemorySet
space = record {
  page_table = record { root_ppn = 5; frames = record { ppn = 5; hold = true } ∷ [] };
  areas = [];
  heap_area = [];
  mmap_area = (131072, record { ppn = 6; hold = true }) ∷ [];
  mmap_base = mmap_base_addr;
  mmap_end = mmap_base_addr;
}

munmap-Unmaps_example :
    Unmaps 5 0x20000000 4096 space used_frames
      (6 ∷ 5 ∷ [])
      (munmap 0x20000000 4096 space used_frames)
unfolding virt_addr floor align_up
munmap-Unmaps_example =
    munmap-Unmaps 5 0x20000000 4096 space used_frames (6 ∷ 5 ∷ []) used_frames-Inv
      ((refl, tt), (refl, tt), ((refl, refl), tt)) (omega arith)
