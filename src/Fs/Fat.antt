-- ===== src/Fs/Fat.antt =====
-- kernel/src/fs/fat32/bitmap.rs: the file allocation table. The block cache shows the disk as words at
-- a sector and an offset.
pub mod Places
pub mod Chains
pub mod Walk
pub mod Search
pub mod Grow
pub mod Free
pub mod Twice
mod Tests
use mathlib.Core.Option
use oskernel2023_main_os.Common.{
  add32, if◌then◌else◌, leb, length, low_bits, ltb, mul32, suc, zero, ◌%◌, ◌&&◌, ◌++◌, ◌+◌, ◌-◌,
  ◌/◌, ◌==◌, ◌^◌, ◌||◌, ◌∷◌,
}
use oskernel2023_main_os.Common.{Bool, List, Option, [], none, some, ℕ}

abbrev pub fat_entry_free : ℕ
fat_entry_free = 0

-- `BAD_BLOCK` of layout.rs
abbrev pub bad_block : ℕ
bad_block = 0x0FFFFFF7

abbrev pub fat_entry_reserved_to_end : ℕ
fat_entry_reserved_to_end = 0x0FFFFFF8

abbrev pub eoc : ℕ
eoc = 0x0FFFFFFF

abbrev pub vacant_clus_cache_size : ℕ
vacant_clus_cache_size = 64

-- Words by sector and offset
abbrev pub Disk : Type 0
Disk = ℕ → ℕ → ℕ

-- `Fat`, its fields that do not change, and those that do with the disk
pub record Layout : Type 0 where
  pub start_block_id : ℕ
  pub byts_per_sec : ℕ
  pub tot_ent : ℕ

pub record Fat : Type 0 where
  pub disk : Disk
  pub vacant_clus : List ℕ
  pub hint : ℕ

unfoldable pub this_fat_sec_num : Layout → ℕ → ℕ
this_fat_sec_num l clus = add32 l.start_block_id (mul32 clus 4 / l.byts_per_sec)

unfoldable pub this_fat_ent_offset : Layout → ℕ → ℕ
this_fat_ent_offset l clus = mul32 clus 4 % l.byts_per_sec

-- `& EOC` keeps 28 bits.
unfoldable pub get_next_clus_num : Layout → Disk → ℕ → ℕ
unfolding this_fat_sec_num this_fat_ent_offset
get_next_clus_num l disk clus =
    low_bits (disk (this_fat_sec_num l clus) (this_fat_ent_offset l clus)) 28

unfoldable pub set_next_clus : Layout → Option ℕ → ℕ → Disk → Disk
unfolding this_fat_sec_num this_fat_ent_offset
set_next_clus l none next disk = disk
set_next_clus l (some current) next disk = λ sec off.
    if this_fat_sec_num l current == sec && this_fat_ent_offset l current == off
    then next
    else disk sec off

-- The test at the end of the loop of `get_all_clus_num`
abbrev pub ends_chain : ℕ → Bool
ends_chain clus =
    (bad_block == clus || fat_entry_free == clus) || leb fat_entry_reserved_to_end clus

-- `get_all_clus_num`: the loop goes on for as long as the chain; `none` if the rounds do not suffice.
unfoldable pub get_all_clus_num : Layout → Disk → ℕ → ℕ → Option (List ℕ)
unfolding get_next_clus_num
get_all_clus_num l disk zero current = none
get_all_clus_num l disk (suc rounds) current =
    let next = get_next_clus_num l disk current in
    let rest = get_all_clus_num l disk rounds next in
    if ends_chain next then some (current ∷ []) else Option.map (◌∷◌ current) rest

-- `get_next_free_clus`: `n` clusters from `clus` on
abbrev pub is_free : Layout → Disk → ℕ → Bool
is_free l disk clus = fat_entry_free == get_next_clus_num l disk clus

unfoldable pub first_free : Layout → Disk → ℕ → ℕ → Option ℕ
first_free l disk clus zero = none
first_free l disk clus (suc n) =
    let rest = first_free l disk (clus + 1) n in if is_free l disk clus then some clus else rest

abbrev pub or_else : Option ℕ → Option ℕ → Option ℕ
or_else none other = other
or_else (some clus) other = some clus

unfoldable pub get_next_free_clus : Layout → Disk → ℕ → Option ℕ
unfolding first_free
get_next_free_clus l disk start =
    or_else (first_free l disk start (l.tot_ent - start)) (first_free l disk 0 start)

-- `pop_back`
abbrev pub pop_back : List ℕ → Option (ℕ × List ℕ)
pop_back [] = none
pop_back (x ∷ []) = some (x, [])
pop_back (x ∷ (y ∷ ys)) = Option.map (λ p. (p.0, x ∷ p.1)) (pop_back (y ∷ ys))

-- `alloc_one`; its assertion is not in a release build.
abbrev pub take_found : Layout → Option ℕ → Fat → Option ℕ → Option (ℕ × Fat)
take_found l last f none = none
take_found l last f (some clus) =
    some
      (clus, record f { disk = set_next_clus l last clus f.disk; hint = add32 clus 1 % l.tot_ent })

abbrev pub take_vacant : Layout → Option ℕ → Fat → Option (ℕ × List ℕ) → Option (ℕ × Fat)
take_vacant l last f none = take_found l last f (get_next_free_clus l f.disk (f.hint % 2 ^ 32))
take_vacant l last f (some (clus, vacant)) =
    some (clus, record f { disk = set_next_clus l last clus f.disk; vacant_clus = vacant })

unfoldable pub alloc_one : Layout → Option ℕ → Fat → Option (ℕ × Fat)
alloc_one l last f = take_vacant l last f (pop_back f.vacant_clus)

-- `alloc`: the loop, with the last cluster that it ends with, which is `None` after a failure
unfoldable pub alloc_loop : Layout → ℕ → Option ℕ → Fat → List ℕ × Option ℕ × Fat
unfolding alloc_one
alloc_loop l zero last f = ([], last, f)
alloc_loop l (suc n) last f = elim (alloc_one l last f) [
  | none ↦ ([], none, f)
  | some (clus, f') ↦
      let (clusters, last', f'') = alloc_loop l n (some clus) f' in (clus ∷ clusters, last', f'')
]

unfoldable pub alloc : Layout → ℕ → Option ℕ → Fat → List ℕ × Fat
unfolding alloc_loop
alloc l alloc_num last f =
    let (clusters, last', f') = alloc_loop l alloc_num last f in
    (clusters, record f' { disk = set_next_clus l last' eoc f'.disk })

-- `free`
unfoldable pub free_loop : Layout → List ℕ → Fat → Fat
free_loop l [] f = f
free_loop l (clus ∷ rest) f = free_loop l rest (record f {
  disk = set_next_clus l (some clus) fat_entry_free f.disk;
  vacant_clus =
      if ltb (length f.vacant_clus) vacant_clus_cache_size
      then f.vacant_clus ++ (clus ∷ [])
      else f.vacant_clus;
})

unfoldable pub free : Layout → List ℕ → Option ℕ → Fat → Fat
unfolding free_loop
free l clusters last f =
    let f' = free_loop l clusters f in record f' { disk = set_next_clus l last eoc f'.disk }
