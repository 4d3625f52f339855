-- ===== src/Fs/DirIter/Tests.antt =====
-- A directory of two files, a deleted one between them, and the end.
use oskernel2023_main_os.Common.{
  List, [], ap, arith, false, if◌then◌else◌, leb, map, refl, replicate, some, usize_max, ℕ, ◌&&◌,
  ◌∷◌, ◌≡◌,
}
use oskernel2023_main_os.Fs.DirEntry.{
  Decoding, LongEnt, ShortEnt, file_inode, gen_dir_ent, short_entry, unused_and_last_entry,
  unused_not_last_entry,
}
use oskernel2023_main_os.Fs.DirEntry.Names.{Decodes}
use oskernel2023_main_os.Fs.DirIter.{
  Dir, current_clone, find_local, is_empty_dir, ls, mode_enum, mode_used, next_entry,
}
use oskernel2023_main_os.Fs.DirIter.Listing.{listing}
use oskernel2023_main_os.Fs.DirIter.Listing.Files.{front_file, listing-gen_dir_ent, placed}

abbrev decoding : Decoding
decoding = record {
  utf16 = map (λ u. if leb 0xd800 u && leb u 0xdfff then 0xfffd else u);
  utf8 = λ bytes. bytes;
}

decoding-Decodes : Decodes decoding
decoding-Decodes [] h = refl
decoding-Decodes (u ∷ us) h =
    let plain : (leb 0xd800 u && leb u 0xdfff) ≡ false = ground (arith, h.0) in
    rw plain (ap (◌∷◌ u) (decoding-Decodes us h.1))

abbrev long_name : List ℕ
long_name = 97 ∷ 98 ∷ 99 ∷ 100 ∷ 101 ∷ 102 ∷ 103 ∷ 104 ∷ 105 ∷ 106 ∷ 107 ∷ 108 ∷ 109 ∷ 110 ∷ []

abbrev made : ShortEnt × List LongEnt
made = gen_dir_ent (replicate 11 65) long_name 14 7 file_inode

abbrev dir : Dir
dir = placed made.1 (short_entry made.0 ∷ unused_not_last_entry ∷ unused_and_last_entry ∷ [])

lists : ls decoding dir ≡ some ((long_name, made.0) ∷ [])
unfolding ls gen_dir_ent unused_not_last_entry unused_and_last_entry
lists = refl

-- The names are compared without regard to case.
finds :
    find_local decoding dir
      (65 ∷ 98 ∷ 99 ∷ 100 ∷ 101 ∷ 102 ∷ 103 ∷ 104 ∷ 105 ∷ 106 ∷ 107 ∷ 108 ∷ 109 ∷ 110 ∷ [])
    ≡ some (some (long_name, made.0, some 64))
unfolding find_local gen_dir_ent
finds = refl

-- Backwards from the short entry
backwards :
    (current_clone dir (record { offset = some 64; mode = mode_enum; direction = false })
      ≡ some (short_entry made.0))
    × ((next_entry 3 dir
          (record { offset = some 64; mode = mode_used; direction = false })).1.offset
        ≡ some 32)
    × (is_empty_dir decoding dir ≡ some false)
unfolding current_clone is_empty_dir next_entry gen_dir_ent
backwards = (refl, refl, refl)

listing-gen_dir_ent_example :
    listing decoding [] usize_max (placed made.1 (short_entry made.0 ∷ unused_and_last_entry ∷ []))
    ≡ front_file (long_name, made.0) (listing decoding [] usize_max (unused_and_last_entry ∷ []))
listing-gen_dir_ent_example =
    listing-gen_dir_ent decoding (replicate 11 65) long_name 14 7 file_inode
      (unused_and_last_entry ∷ []) decoding-Decodes (ground arith) (ground arith)
      (ground arith, ground arith) (omega arith) (omega arith) (omega arith)
