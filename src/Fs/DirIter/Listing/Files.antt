-- ===== src/Fs/DirIter/Listing/Files.antt =====
-- The entries that `gen_dir_ent` makes, as the listing reads them.
use oskernel2023_main_os.Common.{
  All, Bool, List, Option, [], ap, arith, false, get_or, inl, inr, length, none, refl, some, sub64,
  suc, true, usize_max, zero, ℕ, ◌%◌, ◌++◌, ◌+◌, ◌/◌, ◌<◌, ◌==◌, ◌^◌, ◌∙◌, ◌∷◌, ◌≡◌, ◌≢◌, ◌≤◌, ◌⊎◌,
}
use oskernel2023_main_os.Fs.DirEntry.{
  Decoding, DirEnt, DiskInodeType, LongEnt, ShortEnt, from_name, from_name_slice, gen_dir_ent,
  gen_long_ents, gen_long_name_slice, gen_slices, get_name, is_last_long_dir_ent, last_and_unused,
  long_ent_name, long_entry, ord, short_entry, unused, unused_not_last,
}
use oskernel2023_main_os.Fs.DirEntry.Names.{
  Decodes, IsPlain, NonZero, bit_or-64, joined, joined-gen_dir_ent, ord-from_name_slice,
}
use oskernel2023_main_os.Fs.DirIter.{goes_on, ls, walk_entry}
use oskernel2023_main_os.Fs.DirIter.Listing.{listing}

-- The entries of a file as `create_dir_ent` writes them: the long ones backwards before the short one
abbrev pub placed : List LongEnt → List DirEnt → List DirEnt
placed [] tail = tail
placed (l ∷ ls) tail = placed ls (long_entry l ∷ tail)

long-used :
    (last : Bool) (order : ℕ) (slice : List ℕ)
    → 0 < order
    → order < 64
    → (last_and_unused (long_entry (from_name_slice last order slice)) ≡ false)
      × (unused (long_entry (from_name_slice last order slice)) ≡ false)
unfolding last_and_unused unused unused_not_last from_name_slice
long-used true order slice h k =
    let small : order % 2 ^ 8 ≡ order = omega arith in
    let o = bit_or-64 order k in rw (small, o) (ground arith, ground arith)
long-used false order slice h k =
    let small : order % 2 ^ 8 ≡ order = omega arith in rw small (ground arith, ground arith)

walk_entry-long :
    (d : Decoding) (name : List ℕ) (o : ℕ) (last : Bool) (i : ℕ) (l : LongEnt)
    → i < 63
    → ord (long_entry l) ≡ i + 1
    → is_last_long_dir_ent (long_entry l) ≡ last
    → (last ≡ true) ⊎ (o ≡ i + 1)
    → walk_entry d name o (long_entry l) ≡ goes_on (long_ent_name d l ++ name) i
unfolding walk_entry get_name
walk_entry-long d name o true i l h at flag way =
    let before : sub64 (i + 1) 1 ≡ i = omega arith in rw (walk_entry, flag, at, before) refl
walk_entry-long d name o false i l h at flag (inl e) = absurd (ground (arith, e))
walk_entry-long d name o false i l h at flag (inr e) =
    let before : sub64 (i + 1) 1 ≡ i = omega arith in
    let same : (i + 1 == i + 1) ≡ true = ground arith in
    rw (walk_entry, flag, at, e, same, before) refl

-- One long entry that is last, or follows in order
listing-long :
    (d : Decoding) (name : List ℕ) (o : ℕ) (last : Bool) (i : ℕ) (slice : List ℕ)
    (tail : List DirEnt)
    → i < 63
    → (last ≡ true) ⊎ (o ≡ i + 1)
    → listing d name o (long_entry (from_name_slice last (i + 1) slice) ∷ tail)
      ≡ listing d (long_ent_name d (from_name_slice last (i + 1) slice) ++ name) i tail
listing-long d name o last i slice tail h way =
    let (here, used) = long-used last (i + 1) slice (omega arith) (omega arith) in
    let (at, flag) = ord-from_name_slice last (i + 1) slice (omega arith) in
    let goes = walk_entry-long d name o last i (from_name_slice last (i + 1) slice) h at flag way in
    rw (here, used, goes) refl

listing-placed :
    (d : Decoding) (total i : ℕ) (slice : List ℕ) (slices : List (List ℕ)) (tail : List DirEnt)
    → total < 64
    → i + 1 + length slices ≡ total
    → listing d [] usize_max (placed (gen_long_ents total i (slice ∷ slices)) tail)
      ≡ listing d (joined d (gen_long_ents total i (slice ∷ slices))) i tail
unfolding gen_long_ents
listing-placed d total i slice [] tail h k =
    let last : (i + 1 == total) ≡ true = ground arith in
    listing-long d [] usize_max (i + 1 == total) i slice tail (omega arith) (inl last)
listing-placed d total i slice (next ∷ slices) tail h k =
    let l = from_name_slice (i + 1 == total) (i + 1) slice in
    listing-placed d total (i + 1) next slices (long_entry l ∷ tail) h (omega arith)
    ∙ listing-long d (joined d (gen_long_ents total (i + 1) (next ∷ slices))) (i + 1)
        (i + 1 == total) i slice tail (omega arith) (inr refl)

-- A short name that marks no unused entry
abbrev pub IsUsedName : List ℕ → Type 0
IsUsedName short = (get_or short 0 0 ≢ 0) × (get_or short 0 0 ≢ 0xe5)

length-gen_slices : (name : List ℕ) (i n : ℕ) → length (gen_slices name i n) ≡ n
unfolding gen_slices
length-gen_slices name i zero = refl
length-gen_slices name i (suc n) = ap suc (length-gen_slices name (i + 1) n)

abbrev pub front_file :
    List ℕ × ShortEnt → Option (List (List ℕ × ShortEnt)) → Option (List (List ℕ × ShortEnt))
front_file file none = none
front_file file (some files) = some (file ∷ files)

listing-short :
    (d : Decoding) (u : ℕ) (us : List ℕ) (o : ℕ) (e : ShortEnt) (rest : List DirEnt)
    → IsUsedName e.short_name
    → listing d (u ∷ us) o (short_entry e ∷ rest)
      ≡ front_file (u ∷ us, e) (listing d [] usize_max rest)
unfolding last_and_unused unused unused_not_last walk_entry
listing-short d u us o e rest (h, k) =
    let live : (get_or e.short_name 0 0 == 0) ≡ false = ground (arith, h) in
    let used : (get_or e.short_name 0 0 == 0xe5) ≡ false = ground (arith, k) in
    rw (live, used) (by_rest (listing d [] usize_max rest))
  where
    by_rest :
        (r : Option (List (List ℕ × ShortEnt)))
        → elim r [ none ↦ none | some files ↦ some ((u ∷ us, e) ∷ files) ]
          ≡ front_file (u ∷ us, e) r
    by_rest none = refl
    by_rest (some files) = refl

placed_slices :
    (d : Decoding) (name : List ℕ) (n : ℕ) (tail : List DirEnt)
    → 0 < n
    → n < 64
    → listing d [] usize_max (placed (gen_long_ents n 0 (gen_slices name 0 n)) tail)
      ≡ listing d (joined d (gen_long_ents n 0 (gen_slices name 0 n))) 0 tail
unfolding gen_slices
placed_slices d name zero tail h k = absurd (omega arith)
placed_slices d name (suc n) tail h k =
    listing-placed d (suc n) 0 (gen_long_name_slice name 0) (gen_slices name (0 + 1) n) tail k
      (omega (arith, length-gen_slices name (0 + 1) n))

-- The entries that are made for a file of a name of 1 to 819 bytes, without surrogates and zeros, and
-- with a short name that marks no unused entry, are listed in front of what follows them as one file
-- with exactly this name and this short entry.
pub listing-gen_dir_ent :
    (d : Decoding) (short name : List ℕ) (len clus : ℕ) (type : DiskInodeType) (rest : List DirEnt)
    → Decodes d
    → All IsPlain name
    → NonZero name
    → IsUsedName short
    → 0 < length name
    → length name ≤ len
    → len ≤ 819
    → listing d [] usize_max (
        placed
          (gen_dir_ent short name len clus type).1
          (short_entry (gen_dir_ent short name len clus type).0 ∷ rest))
      ≡ front_file (name, (gen_dir_ent short name len clus type).0) (listing d [] usize_max rest)
unfolding gen_dir_ent from_name
listing-gen_dir_ent d short [] len clus type rest k p n h few l m = absurd (omega arith)
listing-gen_dir_ent d short (u ∷ us) len clus type rest k p n h few l m =
    let file = gen_dir_ent short (u ∷ us) len clus type in
    placed_slices d (u ∷ us) ((len + 12) / 13) (short_entry file.0 ∷ rest) (omega arith)
      (omega arith)
    ∙ ap (λ (us' : List ℕ). listing d us' 0 (short_entry file.0 ∷ rest))
        (joined-gen_dir_ent d short (u ∷ us) len clus type k p n l)
    ∙ listing-short d u us 0 file.0 rest h
