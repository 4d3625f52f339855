-- ===== src/Fs/DirFile/Tests.antt =====
-- A file is created in an empty directory of one cluster of four entries, and deleted.
use oskernel2023_main_os.Common.{
  List, Option, [], ap, arith, false, if◌then◌else◌, leb, length, map, none, refl, replicate, some,
  suc, true, usize_max, ℕ, ◌&&◌, ◌*◌, ◌+◌, ◌∷◌, ◌≡◌,
}
use oskernel2023_main_os.Fs.DirEntry.{
  Decoding, DirEnt, LongEnt, ShortEnt, file_inode, gen_dir_ent, short_entry, unused_and_last_entry,
  unused_not_last_entry,
}
use oskernel2023_main_os.Fs.DirIter.Listing.Files.{placed}
use oskernel2023_main_os.Fs.DirEntry.Names.{Decodes}
use oskernel2023_main_os.Fs.DirIter.Listing.{listing}
use oskernel2023_main_os.Fs.DirIter.{ls}
use oskernel2023_main_os.Fs.DirFile.Files.{Holds, create_dir_ent-Holds, onto_nothing}
use oskernel2023_main_os.Fs.DirFile.{DirFile, create_dir_ent, delete_dir_ent, set_hint}

abbrev decoding : Decoding
decoding = record {
  utf16 = map (λ u. if leb 0xd800 u && leb u 0xdfff then 0xfffd else u);
  utf8 = λ bytes. bytes;
}

abbrev long_name : List ℕ
long_name = 97 ∷ 98 ∷ 99 ∷ 100 ∷ 101 ∷ 102 ∷ 103 ∷ 104 ∷ 105 ∷ 106 ∷ 107 ∷ 108 ∷ 109 ∷ 110 ∷ []

abbrev made : ShortEnt × List LongEnt
made = gen_dir_ent (replicate 11 65) long_name 14 7 file_inode

-- What new clusters hold
abbrev old_data : ℕ → DirEnt
old_data i = short_entry made.0

abbrev blank : DirFile
blank = record { entries = replicate 4 unused_and_last_entry; hint = 0 }

abbrev with_file : DirFile
with_file = record {
  entries = placed made.1 (short_entry made.0 ∷ unused_and_last_entry ∷ []);
  hint = 96;
}

creates : create_dir_ent old_data 128 made.0 made.1 blank ≡ some (64, with_file)
unfolding create_dir_ent gen_dir_ent unused_and_last_entry
creates = refl

deletes : delete_dir_ent old_data 128 64 with_file ≡ some (true, blank)
unfolding delete_dir_ent gen_dir_ent unused_and_last_entry unused_not_last_entry
deletes = refl

hints : set_hint (record with_file { hint = 0 }) ≡ some with_file
unfolding set_hint gen_dir_ent unused_and_last_entry
hints = refl

-- The offset, the hint and the number of entries
abbrev measures : Option (ℕ × DirFile) → Option (ℕ × ℕ × ℕ)
measures none = none
measures (some (offset, f)) = some (offset, f.hint, length f.entries)

-- The second file needs another cluster, and ends where the first stale entry of it begins.
grows : measures (create_dir_ent old_data 128 made.0 made.1 with_file) ≡ some (160, 192, 8)
unfolding create_dir_ent gen_dir_ent unused_and_last_entry
grows = refl

decoding-Decodes : Decodes decoding
decoding-Decodes [] h = refl
decoding-Decodes (u ∷ us) h =
    let plain : (leb 0xd800 u && leb u 0xdfff) ≡ false = ground (arith, h.0) in
    rw plain (ap (◌∷◌ u) (decoding-Decodes us h.1))

create_dir_ent-Holds_example :
    (f' : DirFile) × (create_dir_ent old_data 128 made.0 made.1 blank
      ≡ some ((0 + length made.1) * 32, f'))
    × (ls decoding blank.entries ≡ some [])
    × (ls decoding f'.entries ≡ some ((long_name, made.0) ∷ []))
    × Holds decoding (suc (0 + length made.1)) f' ((long_name, made.0) ∷ [])
unfolding gen_dir_ent
create_dir_ent-Holds_example =
    create_dir_ent-Holds decoding (replicate 11 65) long_name 14 7 file_inode decoding-Decodes
      (ground arith) (ground arith) (ground arith, ground arith) (omega arith) (omega arith)
      (omega arith) old_data 128 0 blank []
      (
        refl,
        omega arith,
        omega arith,
        λ rest. onto_nothing (listing decoding [] usize_max rest),
        refl,
      )
      (omega arith)
