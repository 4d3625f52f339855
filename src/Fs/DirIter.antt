-- ===== src/Fs/DirIter.antt =====
-- kernel/src/fs/fat32/dir_iter.rs, and the listing of a directory in kernel/src/fs/fat32/vfs.rs. A
-- directory file is the list of its entries; the entry at an offset, a multiple of 32, is read as the
-- page caches give it. A panic is `none`.
pub mod Positions
pub mod Listing
mod Tests
use oskernel2023_main_os.Common.{
  Bool, List, Option, [], add32, false, get_elem?, if◌then◌else◌, leb, length, ltb, none, not, some,
  sub32, sub64, suc, true, usize_max, zero, ℕ, ◌&&◌, ◌*◌, ◌++◌, ◌+◌, ◌/◌, ◌==◌, ◌∷◌,
}
use oskernel2023_main_os.Fs.DirEntry.{
  Decoding, DirEnt, ShortEnt, empty_short, get_name, is_last_long_dir_ent, is_long, last_and_unused,
  long_entry, ord, short_entry, unused, unused_not_last,
}

pub data DirIterMode : Type 0 where
  mode_long mode_short mode_used mode_unused mode_enum : DirIterMode

abbrev pub step_size : ℕ
step_size = 32

abbrev pub Dir : Type 0
Dir = List DirEnt

-- `get_file_size_wlock`
abbrev pub dir_size : Dir → ℕ
dir_size dir = length dir * 32

pub record DirIter : Type 0 where
  pub offset : Option ℕ
  pub mode : DirIterMode
  pub direction : Bool

unfoldable pub set_iter_offset : ℕ → DirIter → DirIter
set_iter_offset offset it =
    if it.direction
    then (if offset == 0
        then record it { offset = none }
        else record it { offset = some (sub32 offset step_size) })
    else record it { offset = some (add32 offset step_size) }

-- `read_at_block_cache_wlock` of one entry
unfoldable pub entry_at : Dir → ℕ → Option DirEnt
entry_at dir offset = get_elem? dir (offset / 32)

unfoldable pub current_clone : Dir → DirIter → Option DirEnt
unfolding entry_at
current_clone dir it = elim it.offset [
  | none ↦ none
  | some offset ↦ if ltb offset (dir_size dir) then entry_at dir offset else none
]

abbrev pub is_enum : DirIterMode → Bool
is_enum mode_enum = true
is_enum m = false

-- A read past the end leaves the entry that `step` starts with.
unfoldable pub read_entry : Dir → ℕ → DirEnt
unfolding entry_at empty_short
read_entry dir offset = elim (entry_at dir offset) [ none ↦ short_entry empty_short | some e ↦ e ]

unfoldable pub step_forward : Dir → DirIter → Option DirEnt × DirIter
unfolding read_entry
step_forward dir it =
    let offset : ℕ = elim it.offset [ none ↦ 0 | some o ↦ add32 o step_size ] in
    if leb (dir_size dir) offset
    then (none, it)
    else if not (is_enum it.mode) && last_and_unused (read_entry dir offset)
    then (none, it)
    else (some (read_entry dir offset), record it { offset = some offset })

unfoldable pub step_backward : Dir → DirIter → Option DirEnt × DirIter
unfolding read_entry
step_backward dir it = elim it.offset [
  | none ↦ (none, it)
  | some offset ↦ if offset == 0 then (none, record it { offset = none }) else (
    some (read_entry dir (sub32 offset step_size)),
    record it { offset = some (sub32 offset step_size) },
  )
]

unfoldable pub dir_step : Dir → DirIter → Option DirEnt × DirIter
unfolding step_forward step_backward
dir_step dir it = if it.direction then step_forward dir it else step_backward dir it

unfoldable pub check_dir_ent_legality : DirIterMode → DirEnt → Bool
unfolding unused unused_not_last
check_dir_ent_legality mode_unused e = unused_not_last e
check_dir_ent_legality mode_used e = not (unused e)
check_dir_ent_legality mode_long e = not (unused e) && is_long e
check_dir_ent_legality mode_short e = not (unused e) && not (is_long e)
check_dir_ent_legality mode_enum e = true

-- `DirIter::next`, in a number of steps
unfoldable pub next_entry : ℕ → Dir → DirIter → Option DirEnt × DirIter
unfolding dir_step check_dir_ent_legality
next_entry zero dir it = (none, it)
next_entry (suc steps) dir it =
    let (found, it') = dir_step dir it in
    let rest = next_entry steps dir it' in
    elim found [
      | none ↦ (none, it')
      | some e ↦ if check_dir_ent_legality it.mode e then (some e, it') else rest
    ]

-- What `DirWalker::next` does with an entry: it goes on with a name and an order, returns, or panics.
pub data Walked : Type 0 where
  goes_on : List ℕ → ℕ → Walked
  returns : List ℕ → ShortEnt → Walked
  panics : Walked

unfoldable pub walk_entry : Decoding → List ℕ → ℕ → DirEnt → Walked
unfolding is_last_long_dir_ent ord get_name
walk_entry d name should_be_ord (long_entry e) =
    if is_last_long_dir_ent (long_entry e)
    then goes_on (get_name d (long_entry e) ++ name) (sub64 (ord (long_entry e)) 1)
    else if ord (long_entry e) == should_be_ord
    then goes_on (get_name d (long_entry e) ++ name) (sub64 should_be_ord 1)
    else panics
walk_entry d [] should_be_ord (short_entry e) = returns (get_name d (short_entry e)) e
walk_entry d (u ∷ us) should_be_ord (short_entry e) = returns (u ∷ us) e

-- `DirWalker::next`, in a number of entries, each found with enough steps for the directory
unfoldable pub next_walked :
    ℕ → Decoding → Dir → List ℕ → ℕ → DirIter → Option (Option (List ℕ × ShortEnt) × DirIter)
unfolding next_entry walk_entry
next_walked zero d dir name should_be_ord it = none
next_walked (suc rounds) d dir name should_be_ord it =
    let (found, it') = next_entry (suc (length dir)) dir it in
    elim found [
      | none ↦ some (none, it')
      | some e ↦ elim (walk_entry d name should_be_ord e) [
        | goes_on name' ord' ↦ next_walked rounds d dir name' ord' it'
        | returns name' ent ↦ some (some (name', ent), it')
        | panics ↦ none
      ]
    ]

-- `walk().collect()`, in a number of files
unfoldable pub collect_walked : ℕ → Decoding → Dir → DirIter → Option (List (List ℕ × ShortEnt))
unfolding next_walked
collect_walked zero d dir it = none
collect_walked (suc rounds) d dir it = elim (next_walked (suc (length dir)) d dir [] usize_max it) [
  | none ↦ none
  | some (none, it') ↦ some []
  | some (some file, it') ↦ elim (collect_walked rounds d dir it') [
    | none ↦ none
    | some files ↦ some (file ∷ files)
  ]
]

-- `ls_lock`
unfoldable pub ls : Decoding → Dir → Option (List (List ℕ × ShortEnt))
unfolding collect_walked
ls d dir =
    collect_walked (suc (length dir)) d dir
      (record { offset = none; mode = mode_used; direction = true })

-- `eq_ignore_ascii_case` with the test of lengths, on units
abbrev pub ascii_lower : ℕ → ℕ
ascii_lower u = if leb 65 u && leb u 90 then u + 32 else u

unfoldable pub same_name : List ℕ → List ℕ → Bool
same_name [] [] = true
same_name (x ∷ xs) (y ∷ ys) = ascii_lower x == ascii_lower y && same_name xs ys
same_name xs ys = false

-- `find_local_lock`: the file and the offset of its short entry
unfoldable pub find_walked :
    ℕ → Decoding → Dir → List ℕ → DirIter → Option (Option (List ℕ × ShortEnt × Option ℕ))
unfolding next_walked same_name
find_walked zero d dir req_name it = none
find_walked (suc rounds) d dir req_name it =
    elim (next_walked (suc (length dir)) d dir [] usize_max it) [
      | none ↦ none
      | some (none, it') ↦ some none
      | some (some file, it') ↦
          let rest = find_walked rounds d dir req_name it' in
          if same_name file.0 req_name then some (some (file.0, file.1, it'.offset)) else rest
    ]

unfoldable pub find_local : Decoding → Dir → List ℕ → Option (Option (List ℕ × ShortEnt × Option ℕ))
unfolding find_walked
find_local d dir req_name =
    find_walked (suc (length dir)) d dir req_name
      (record { offset = none; mode = mode_used; direction = true })

-- `[".", ".."].contains(&name)`
abbrev pub is_dot_name : List ℕ → Bool
is_dot_name [] = false
is_dot_name (x ∷ []) = x == 46
is_dot_name (x ∷ y ∷ []) = x == 46 && y == 46
is_dot_name (x ∷ y ∷ z ∷ name) = false

-- `is_empty_dir_lock` of a directory
unfoldable pub empty_walked : ℕ → Decoding → Dir → DirIter → Option Bool
unfolding next_walked
empty_walked zero d dir it = none
empty_walked (suc rounds) d dir it = elim (next_walked (suc (length dir)) d dir [] usize_max it) [
  | none ↦ none
  | some (none, it') ↦ some true
  | some (some file, it') ↦
      let rest = empty_walked rounds d dir it' in
      if not (is_dot_name file.0) then some false else rest
]

unfoldable pub is_empty_dir : Decoding → Dir → Option Bool
unfolding empty_walked
is_empty_dir d dir =
    empty_walked (suc (length dir)) d dir
      (record { offset = none; mode = mode_used; direction = true })
