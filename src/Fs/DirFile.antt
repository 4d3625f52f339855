-- ===== src/Fs/DirFile.antt =====
-- kernel/src/fs/fat32/vfs.rs: allocation and deletion of the entries of a directory. A directory file is the list
-- of its entries with the offset `hint`, behind which all entries are unused. What the clusters hold that
-- the file gets when it grows is an argument, by the place of an entry; the allocation table always has
-- clusters left. A panic is `none`, also where the rounds of a loop run out.
pub mod Steps
pub mod Allocation
pub mod Creation
pub mod Files
mod Tests
use oskernel2023_main_os.Common.{
  Bool, List, Option, [], add32, add64, false, if◌then◌else◌, leb, length, ltb, mul32, none, not,
  set, some, suc, take, true, zero, ℕ, ◌%◌, ◌++◌, ◌+◌, ◌-◌, ◌/◌, ◌==◌, ◌∷◌,
}
use oskernel2023_main_os.Fs.DirEntry.{
  DirEnt, LongEnt, ShortEnt, is_last_long_dir_ent, is_long, last_and_unused, long_entry,
  short_entry, unused, unused_and_last_entry, unused_not_last_entry,
}
use oskernel2023_main_os.Fs.DirIter.{
  Dir, DirIter, current_clone, dir_size, mode_enum, mode_used, next_entry, set_iter_offset,
  step_size,
}

pub record DirFile : Type 0 where
  pub entries : Dir
  pub hint : ℕ

-- The file grows by a number of entries.
unfoldable pub extend : (ℕ → DirEnt) → ℕ → Dir → Dir
extend fresh zero dir = dir
extend fresh (suc n) dir = extend fresh n (dir ++ fresh (length dir) ∷ [])

-- `modify_size_lock` without clearing, with the new size
unfoldable pub resize : (ℕ → DirEnt) → ℕ → DirFile → DirFile
unfolding extend
resize fresh new_size f =
    let n = new_size / step_size in
    if leb n (length f.entries)
    then record f { entries = take n f.entries }
    else record f { entries = extend fresh (n - length f.entries) f.entries }

unfoldable pub expand_dir_size : (ℕ → DirEnt) → ℕ → DirFile → DirFile
unfolding resize
expand_dir_size fresh clus_size f = resize fresh (add32 (dir_size f.entries) clus_size) f

unfoldable pub shrink_dir_size : (ℕ → DirEnt) → ℕ → DirFile → DirFile
unfolding resize
shrink_dir_size fresh clus_size f =
    let clusters = f.hint / clus_size + (if f.hint % clus_size == 0 then 0 else 1) in
    let fitting = mul32 clusters clus_size in
    resize fresh (if ltb fitting clus_size then clus_size else fitting) f

-- `next` of an iterator over the file
abbrev pub next_of : DirFile → DirIter → Option DirEnt × DirIter
next_of f it = next_entry (suc (length f.entries)) f.entries it

-- A write behind the end extends the file.
unfoldable pub write_to_current_ent : (ℕ → DirEnt) → DirEnt → DirIter → DirFile → Option DirFile
unfolding extend
write_to_current_ent fresh e it f = elim it.offset [
  | none ↦ none
  | some offset ↦
      let n = offset / step_size in
      some (record f { entries = set (extend fresh (suc n - length f.entries) f.entries) n e })
]

unfoldable pub set_hint_from : ℕ → DirIter → DirFile → Option DirFile
unfolding next_entry last_and_unused
set_hint_from zero it f = none
set_hint_from (suc rounds) it f =
    let (found, it') = next_of f it in
    let rest = set_hint_from rounds it' f in
    elim found [
      | none ↦ some (record f { hint = dir_size f.entries })
      | some e ↦
          if last_and_unused e
          then elim it'.offset [ none ↦ none | some o ↦ some (record f { hint = o }) ]
          else rest
    ]

unfoldable pub set_hint : DirFile → Option DirFile
unfolding set_hint_from
set_hint f =
    set_hint_from (suc (length f.entries))
      (record { offset = none; mode = mode_enum; direction = true }) f

-- `alloc_dir_ent` once enough entries are found: it marks the next one as the last.
unfoldable pub end_after : (ℕ → DirEnt) → DirIter → DirFile → Option (ℕ × DirFile)
unfolding next_entry write_to_current_ent unused_and_last_entry
end_after fresh it f = elim it.offset [
  | none ↦ none
  | some offset ↦
      let (next, it') = next_of f it in
      elim next [
        | none ↦ some (offset, record f { hint = dir_size f.entries })
        | some e ↦ elim (write_to_current_ent fresh unused_and_last_entry it' f) [
          | none ↦ none
          | some f' ↦ elim it'.offset [
            | none ↦ none
            | some o ↦ some (offset, record f' { hint = o })
          ]
        ]
      ]
]

unfoldable pub alloc_from : ℕ → (ℕ → DirEnt) → ℕ → ℕ → ℕ → DirIter → DirFile → Option (ℕ × DirFile)
unfolding next_entry expand_dir_size end_after
alloc_from zero fresh clus_size alloc_num found_free it f = none
alloc_from (suc rounds) fresh clus_size alloc_num found_free it f =
    let (found, it') = next_of f it in
    elim found [
      | none ↦
          alloc_from rounds fresh clus_size alloc_num found_free it'
            (expand_dir_size fresh clus_size f)
      | some e ↦
          let found' = add64 found_free 1 in
          let rest = alloc_from rounds fresh clus_size alloc_num found' it' f in
          if leb alloc_num found' then end_after fresh it' f else rest
    ]

-- The offset of the last entry, with a round for each entry and one for each cluster it may take
unfoldable pub alloc_dir_ent : (ℕ → DirEnt) → ℕ → ℕ → DirFile → Option (ℕ × DirFile)
unfolding alloc_from set_iter_offset
alloc_dir_ent fresh clus_size alloc_num f =
    alloc_from (suc (alloc_num + alloc_num)) fresh clus_size alloc_num 0
      (set_iter_offset f.hint (record { offset = none; mode = mode_enum; direction = true })) f

-- The long entries, backwards from the short one
unfoldable pub write_longs : (ℕ → DirEnt) → List LongEnt → DirIter → DirFile → Option DirFile
unfolding next_entry write_to_current_ent
write_longs fresh [] it f = some f
write_longs fresh (long ∷ longs) it f =
    let it' = (next_of f it).1 in
    elim (write_to_current_ent fresh (long_entry long) it' f) [
      | none ↦ none
      | some f' ↦ write_longs fresh longs it' f'
    ]

unfoldable pub create_dir_ent :
    (ℕ → DirEnt) → ℕ → ShortEnt → List LongEnt → DirFile → Option (ℕ × DirFile)
unfolding alloc_dir_ent write_to_current_ent write_longs
create_dir_ent fresh clus_size short longs f =
    elim (alloc_dir_ent fresh clus_size (1 + length longs) f) [
      | none ↦ none
      | some (offset, f') ↦
          let it : DirIter = record { offset = some offset; mode = mode_enum; direction = false } in
          elim (write_to_current_ent fresh (short_entry short) it f') [
            | none ↦ none
            | some f'' ↦ elim (write_longs fresh longs it f'') [
              | none ↦ none
              | some g ↦ some (offset, g)
            ]
          ]
    ]

-- The loop of `delete_dir_ent` on long entries: whether it reached the last of them
unfoldable pub delete_longs : ℕ → (ℕ → DirEnt) → DirIter → DirFile → Option (Bool × DirFile)
unfolding current_clone write_to_current_ent unused_not_last_entry next_entry is_last_long_dir_ent
delete_longs zero fresh it f = none
delete_longs (suc rounds) fresh it f = elim (current_clone f.entries it) [
  | none ↦ some (false, f)
  | some e ↦
      if not (is_long e)
      then some (false, f)
      else elim (write_to_current_ent fresh unused_not_last_entry it f) [
        | none ↦ none
        | some f' ↦
            let rest = delete_longs rounds fresh (next_of f' it).1 f' in
            if is_last_long_dir_ent e then some (true, f') else rest
      ]
]

-- Its loop that moves `hint` back over unused entries
unfoldable pub retreat_hint : ℕ → (ℕ → DirEnt) → DirIter → DirFile → Option DirFile
unfolding next_entry write_to_current_ent unused_and_last_entry unused
retreat_hint zero fresh it f = none
retreat_hint (suc rounds) fresh it f =
    let (found, it') = next_of f it in
    elim found [
      | none ↦ some (record f { hint = 0 })
      | some e ↦ if not (unused e) then some f else elim it'.offset [
        | none ↦ none
        | some o ↦
            elim (write_to_current_ent fresh unused_and_last_entry it' (record f { hint = o })) [
              | none ↦ none
              | some f' ↦ retreat_hint rounds fresh it' f'
            ]
      ]
    ]

-- Behind the entries it deletes: `hint` and the size
unfoldable pub trim_dir : (ℕ → DirEnt) → ℕ → DirFile → Option (Bool × DirFile)
unfolding retreat_hint shrink_dir_size
trim_dir fresh clus_size f =
    elim (retreat_hint (suc (suc (f.hint / step_size))) fresh
      (record { offset = some f.hint; mode = mode_enum; direction = false }) f) [
        | none ↦ none
        | some f' ↦ some (true, shrink_dir_size fresh clus_size f')
      ]

-- Whether it succeeds, and the file. A file without long entries leaves `hint` and the size.
unfoldable pub delete_dir_ent : (ℕ → DirEnt) → ℕ → ℕ → DirFile → Option (Bool × DirFile)
unfolding next_entry write_to_current_ent unused_not_last_entry delete_longs trim_dir
delete_dir_ent fresh clus_size offset f =
    let it : DirIter = record { offset = some offset; mode = mode_used; direction = false } in
    elim (write_to_current_ent fresh unused_not_last_entry it f) [
      | none ↦ none
      | some f' ↦
          let (found, it') = next_of f' it in
          elim found [
            | none ↦ some (true, f')
            | some e ↦
                if not (is_long e)
                then some (true, f')
                else elim (delete_longs (suc (length f'.entries)) fresh it' f') [
                  | none ↦ none
                  | some (false, f'') ↦ some (false, f'')
                  | some (true, f'') ↦ trim_dir fresh clus_size f''
                ]
          ]
    ]
