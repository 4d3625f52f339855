-- ===== src/Fs/Fat/Tests.antt =====
-- A table of eight entries, and the theorems at it.
use oskernel2023_main_os.Fs.Fat.Free.{free_lem}
use oskernel2023_main_os.Fs.Fat.Twice.{alloc_twice}
use oskernel2023_main_os.Common.{
  contains, get_or, if◌then◌else◌, inr, length, refl, suc, zero, ◌*◌, ◌+◌, ◌-◌, ◌/◌, ◌<◌, ◌==◌, ◌∷◌,
  ◌≡◌, ◌≤◌,
}
use oskernel2023_main_os.Common.{List, [], arith, some, ℕ}
use oskernel2023_main_os.Fs.Fat.{
  Disk, Fat, Layout, alloc, eoc, free, get_all_clus_num, get_next_clus_num, get_next_free_clus,
  is_free, set_next_clus,
}
use oskernel2023_main_os.Fs.Fat.Places.{IsLayout}
use oskernel2023_main_os.Fs.Fat.Chains.{Chain}
use oskernel2023_main_os.Fs.Fat.Search.{NextFree, get_next_free_clus-NextFree}
use oskernel2023_main_os.Fs.Fat.Grow.{AllocsOne, Inv, alloc-AllocsOne}
use oskernel2023_main_os.Fs.Fat.Walk.{Linked, Walks, get_all_clus_num-Walks}

-- Sectors of 16 bytes, from sector 32 on
abbrev layout : Layout
layout = record { start_block_id = 32; byts_per_sec = 16; tot_ent = 8 }

layout-IsLayout : IsLayout layout
layout-IsLayout = record {
  sector = 4;
  whole = refl;
  some_entries = omega arith;
  few = omega arith;
  narrow = omega arith;
}

-- The chain 2, 3, 5; cluster 4 is free, all others are in use.
abbrev entries : List ℕ
entries = 0x0FFFFFF8 ∷ eoc ∷ 3 ∷ 5 ∷ 0 ∷ eoc ∷ eoc ∷ eoc ∷ []

abbrev disk : Disk
disk = λ sec off. get_or entries ((sec - 32) * 4 + off / 4) 0

abbrev fat : Fat
fat = record { disk = disk; vacant_clus = 4 ∷ []; hint = 0 }

walk : get_all_clus_num layout disk 8 2 ≡ some (2 ∷ 3 ∷ 5 ∷ [])
unfolding get_all_clus_num
walk = refl

frees : get_all_clus_num layout (free layout (3 ∷ 5 ∷ []) (some 2) fat).disk 8 2 ≡ some (2 ∷ [])
unfolding get_all_clus_num free set_next_clus
frees = refl

chain : Chain layout disk 2 (3 ∷ 5 ∷ [])
unfolding get_next_clus_num
chain = (refl, refl, (refl, refl, refl))

only_four : (d : ℕ) → d < 8 → is_free layout disk d ≡ (4 == d)
unfolding get_next_clus_num
only_four zero h = refl
only_four (suc zero) h = refl
only_four (suc (suc zero)) h = refl
only_four (suc (suc (suc zero))) h = refl
only_four (suc (suc (suc (suc zero)))) h = refl
only_four (suc (suc (suc (suc (suc zero))))) h = refl
only_four (suc (suc (suc (suc (suc (suc zero)))))) h = refl
only_four (suc (suc (suc (suc (suc (suc (suc zero))))))) h = refl
only_four (suc (suc (suc (suc (suc (suc (suc (suc d)))))))) h = absurd (omega arith)

fat-Inv : Inv layout fat
fat-Inv = record {
  vacant_in = λ c h. ground arith;
  vacant_free = λ c h. ground (arith, only_four c);
  vacant_once = (refl, tt);
  reserved = only_four 0 (omega arith);
  hint_in = omega arith;
}

-- Its entries link it.
linked : Linked layout disk 2 (3 ∷ 5 ∷ [])
linked = (refl, omega arith, omega arith, (refl, omega arith, omega arith, inr (omega arith)))

get_all_clus_num-Walks_example : Walks layout disk 8 2 (get_all_clus_num layout disk 8 2)
get_all_clus_num-Walks_example =
    get_all_clus_num-Walks layout layout-IsLayout disk 8 2 (omega arith)

get_next_free_clus-NextFree_example : NextFree layout disk 5 (get_next_free_clus layout disk 5)
get_next_free_clus-NextFree_example = get_next_free_clus-NextFree layout disk 5 (omega arith)

alloc-AllocsOne_example : AllocsOne layout fat 2 (3 ∷ 5 ∷ []) (alloc layout 1 (some 5) fat)
alloc-AllocsOne_example =
    alloc-AllocsOne layout layout-IsLayout fat fat-Inv 2 (3 ∷ 5 ∷ []) chain (λ d h. ground arith)
      (only_four 5 (omega arith))

alloc_twice_example : (alloc layout 2 (some 5) fat).0 ≡ 4 ∷ 4 ∷ []
alloc_twice_example =
    alloc_twice layout layout-IsLayout disk 0 5 4 (omega arith) (omega arith) (omega arith)
      (λ e. omega arith) (λ e. omega arith) only_four

free_lem_example :
    Inv layout (free layout (3 ∷ 5 ∷ []) (some 2) fat)
    × (length (free layout (3 ∷ 5 ∷ []) (some 2) fat).vacant_clus ≤ 64)
    × ((d : ℕ)
        → d < 8
        → get_next_clus_num layout (free layout (3 ∷ 5 ∷ []) (some 2) fat).disk d ≡ (
            if 2 == d
            then eoc
            else if contains (3 ∷ 5 ∷ []) d
            then 0
            else get_next_clus_num layout disk d))
free_lem_example =
    free_lem layout layout-IsLayout (3 ∷ 5 ∷ []) 2 fat fat-Inv (omega arith)
      (
        ((refl, (refl, tt))),
        λ c h. (ground arith, (λ z. ground arith), ground (arith, only_four c)),
      )
      (omega arith) refl (only_four 2 (omega arith))
