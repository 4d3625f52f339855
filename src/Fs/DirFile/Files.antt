-- ===== src/Fs/DirFile/Files.antt =====
-- The files of a directory in which files are created.
use oskernel2023_main_os.Common.{
  All, List, Option, [], ap, append-nil, append_assoc, arith, drop, length, length-append,
  length-drop, length-take, none, refl, some, suc, sym, take, take-append-drop, usize_max, zero, ℕ,
  ◌*◌, ◌++◌, ◌+◌, ◌<◌, ◌∙◌, ◌∷◌, ◌≡◌, ◌≤◌,
}
use oskernel2023_main_os.Fs.DirEntry.{
  Decoding, DirEnt, DiskInodeType, LongEnt, ShortEnt, gen_dir_ent, last_and_unused, long_entry,
  short_entry, unused_and_last_entry,
}
use oskernel2023_main_os.Fs.DirEntry.Names.{Decodes, IsPlain, NonZero}
use oskernel2023_main_os.Fs.DirIter.{Dir, ls}
use oskernel2023_main_os.Fs.DirIter.Positions.{IsSmall}
use oskernel2023_main_os.Fs.DirIter.Listing.{listing}
use oskernel2023_main_os.Fs.DirIter.Listing.Collect.{ls-listing}
use oskernel2023_main_os.Fs.DirIter.Listing.Files.{
  IsUsedName, front_file, listing-gen_dir_ent, placed,
}
use oskernel2023_main_os.Fs.DirFile.{DirFile, create_dir_ent}
use oskernel2023_main_os.Fs.DirFile.Steps.{ended}
use oskernel2023_main_os.Fs.DirFile.Creation.{create_dir_ent_lem}

module _ {ℓ} {A : Type ℓ} where
  take_front : (n : ℕ) (xs ys : List A) → length xs ≡ n → take n (xs ++ ys) ≡ xs
  take_front zero [] ys h = refl
  take_front zero (x ∷ xs) ys h = absurd (omega (arith, h))
  take_front (suc n) [] ys h = absurd (omega (arith, h))
  take_front (suc n) (x ∷ xs) ys h = ap (◌∷◌ x) (take_front n xs ys (omega (arith, h)))

  drop_front : (n : ℕ) (xs ys : List A) → length xs ≡ n → drop n (xs ++ ys) ≡ ys
  drop_front zero [] ys h = refl
  drop_front zero (x ∷ xs) ys h = absurd (omega (arith, h))
  drop_front (suc n) [] ys h = absurd (omega (arith, h))
  drop_front (suc n) (x ∷ xs) ys h = drop_front n xs ys (omega (arith, h))

placed-append : (ls : List LongEnt) (xs ys : Dir) → placed ls xs ++ ys ≡ placed ls (xs ++ ys)
placed-append [] xs ys = refl
placed-append (l ∷ ls) xs ys = placed-append ls (long_entry l ∷ xs) ys

length-placed : (ls : List LongEnt) (xs : Dir) → length (placed ls xs) ≡ length ls + length xs
length-placed [] xs = omega arith
length-placed (l ∷ ls) xs = omega (arith, length-placed ls (long_entry l ∷ xs))

length-ended : (es : Dir) → length (ended es) ≡ length es
length-ended [] = refl
length-ended (e ∷ es) = refl

ended_twice : (es : Dir) → ended es ≡ ended (ended es)
ended_twice [] = refl
ended_twice (e ∷ es) = refl

abbrev pub onto :
    List (List ℕ × ShortEnt) → Option (List (List ℕ × ShortEnt)) → Option (List (List ℕ × ShortEnt))
onto files none = none
onto files (some more) = some (files ++ more)

pub onto_nothing : (r : Option (List (List ℕ × ShortEnt))) → r ≡ onto [] r
onto_nothing none = refl
onto_nothing (some files) = refl

-- Entries that hold whole files: a listing reads these, and goes on behind them.
abbrev pub Reads : Decoding → Dir → List (List ℕ × ShortEnt) → Type 0
Reads d es files =
    (rest : Dir) → listing d [] usize_max (es ++ rest) ≡ onto files (listing d [] usize_max rest)

-- A directory with its files before the hint, which stands after a number of entries and before the last
-- entry, if any
abbrev pub Holds : Decoding → ℕ → DirFile → List (List ℕ × ShortEnt) → Type 0
Holds d p f files =
    (f.hint ≡ p * 32)
    × IsSmall f.entries
    × (p ≤ length f.entries)
    × Reads d (take p f.entries) files
    × (drop p f.entries ≡ ended (drop p f.entries))

listing-ended : (d : Decoding) (es : Dir) → listing d [] usize_max (ended es) ≡ some []
unfolding unused_and_last_entry last_and_unused
listing-ended d [] = refl
listing-ended d (e ∷ es) = refl

pub ls-Holds :
    (d : Decoding) (p : ℕ) (f : DirFile) (files : List (List ℕ × ShortEnt))
    → Holds d p f files
    → ls d f.entries ≡ some files
ls-Holds d p f files (at, small, within, reads, last) =
    ls-listing d f.entries small
    ∙ ap (listing d [] usize_max) (sym (take-append-drop p f.entries))
    ∙ reads (drop p f.entries)
    ∙ ap (λ es. onto files (listing d [] usize_max es)) last
    ∙ ap (onto files) (listing-ended d (drop p f.entries))
    ∙ ap some (append-nil files)

onto-front_file :
    (files : List (List ℕ × ShortEnt)) (file : List ℕ × ShortEnt)
    (r : Option (List (List ℕ × ShortEnt)))
    → onto files (front_file file r) ≡ onto (files ++ file ∷ []) r
onto-front_file files file none = refl
onto-front_file files file (some more) = ap some (sym (append_assoc files (file ∷ []) more))

module _ (d : Decoding) (short name : List ℕ) (len clus : ℕ) (type : DiskInodeType) (k : Decodes d)
    (plain : All IsPlain name) (no_zero : NonZero name) (used : IsUsedName short)
    (some_name : 0 < length name) (units : length name ≤ len) (small_name : len ≤ 819) where
  abbrev file : ShortEnt × List LongEnt
  file = gen_dir_ent short name len clus type

  Reads-more :
      (es : Dir) (files : List (List ℕ × ShortEnt))
      → Reads d es files
      → Reads d (es ++ placed file.1 (short_entry file.0 ∷ [])) (files ++ (name, file.0) ∷ [])
  Reads-more es files reads rest =
      ap (listing d [] usize_max) (
        append_assoc es (placed file.1 (short_entry file.0 ∷ [])) rest
        ∙ ap (◌++◌ es) (placed-append file.1 (short_entry file.0 ∷ []) rest))
      ∙ reads (placed file.1 (short_entry file.0 ∷ rest))
      ∙ ap (onto files) (
          listing-gen_dir_ent d short name len clus type rest k plain no_zero used some_name units
            small_name)
      ∙ onto-front_file files (name, file.0) (listing d [] usize_max rest)

  created-Holds :
      (p : ℕ) (f : DirFile) (files : List (List ℕ × ShortEnt))
      → Holds d p f files
      → p + suc (length file.1) ≤ length f.entries
      → Holds d
          (suc (p + length file.1))
          (record {
            entries =
                take p f.entries
                ++ placed file.1
                    (short_entry file.0 ∷ ended (drop (suc (p + length file.1)) f.entries));
            hint = suc (p + length file.1) * 32;
          })
          (files ++ (name, file.0) ∷ [])
  created-Holds p f files (at, small, within, reads, last) room =
      let q = suc (p + length file.1) in
      let tail : Dir = ended (drop q f.entries) in
      let new : Dir = take p f.entries ++ placed file.1 (short_entry file.0 ∷ []) in
      let parts : take p f.entries ++ placed file.1 (short_entry file.0 ∷ tail) ≡ new ++ tail =
        sym (
          append_assoc (take p f.entries) (placed file.1 (short_entry file.0 ∷ [])) tail
          ∙ ap (◌++◌ (take p f.entries)) (placed-append file.1 (short_entry file.0 ∷ []) tail)) in
      let len_tail = length-ended (drop q f.entries) ∙ length-drop q f.entries in
      let len_placed = length-placed file.1 (short_entry file.0 ∷ []) in
      let len_new : length new ≡ q = omega (
        arith,
        length-append (take p f.entries) (placed file.1 (short_entry file.0 ∷ [])),
        length-take p f.entries,
        len_placed,
      ) in
      let size : length (new ++ tail) ≡ length f.entries =
        omega (arith, length-append new tail, len_new, len_tail) in
      let front : take q (new ++ tail) ≡ new = take_front q new tail len_new in
      let back : drop q (new ++ tail) ≡ tail = drop_front q new tail len_new in
      rw parts (
        refl,
        rw size small,
        omega (arith, size, room),
        rw front (Reads-more (take p f.entries) files reads),
        rw back (ended_twice (drop q f.entries)),
      )

  -- In a directory that holds whole files before its hint, its end there and room for the entries of a
  -- new file, `create_dir_ent` succeeds with the entries of `gen_dir_ent`, for a name of 1 to 819 bytes
  -- without surrogates and zeros and a short name that marks no unused entry. `ls` then lists the new file
  -- behind those it listed before, and the directory again holds whole files before its hint.
  pub create_dir_ent-Holds :
      (fresh : ℕ → DirEnt) (clus_size p : ℕ) (f : DirFile) (files : List (List ℕ × ShortEnt))
      → Holds d p f files
      → p + suc (length file.1) ≤ length f.entries
      → (f' : DirFile) × (create_dir_ent fresh clus_size file.0 file.1 f
          ≡ some ((p + length file.1) * 32, f'))
        × (ls d f.entries ≡ some files)
        × (ls d f'.entries ≡ some (files ++ (name, file.0) ∷ []))
        × Holds d (suc (p + length file.1)) f' (files ++ (name, file.0) ∷ [])
  create_dir_ent-Holds fresh clus_size p f files holds room =
      let again = created-Holds p f files holds room in
      (
        _,
        create_dir_ent_lem fresh clus_size file.0 file.1 f p holds.0 holds.1 room,
        ls-Holds d p f files holds,
        ls-Holds d (suc (p + length file.1)) _ (files ++ (name, file.0) ∷ []) again,
        again,
      )
