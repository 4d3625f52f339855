-- ===== src/Fs/DirEntry/Names.antt =====
-- Long names through the entries that hold them, and the first cluster through its halves.
use oskernel2023_main_os.Common.{
  All, Bool, List, [], ap, arith, bit_and, bit_and-mask, bit_and-one, bit_and_digit, bit_or,
  bit_or-shifted, bit_or_comm, drop, drop-All, drop-drop, drop-nil, false, length, refl, replicate,
  shr, suc, sym, take, take-All, take-append-drop, take-split, take_long, true, zero, ℕ, ◌%◌, ◌*◌,
  ◌++◌, ◌+◌, ◌-◌, ◌/◌, ◌<◌, ◌==◌, ◌^◌, ◌∙◌, ◌∷◌, ◌≡◌, ◌≢◌, ◌≤◌, ◌⊎◌,
}
use oskernel2023_main_os.Fs.DirEntry.{
  Decoding, DiskInodeType, LongEnt, ShortEnt, find_or_length, from_name_slice, gen_dir_ent,
  gen_long_ents, gen_long_name_slice, gen_slices, get_first_clus, is_last_long_dir_ent,
  long_ent_name, long_entry, ord, set_fst_clus,
}

-- The first cluster of an entry, a number of 32 bits, is the one that was set last.
pub get_first_clus-set_fst_clus :
    (clus : ℕ) (e : ShortEnt) → clus < 2 ^ 32 → get_first_clus (set_fst_clus clus e) ≡ clus
unfolding get_first_clus set_fst_clus
get_first_clus-set_fst_clus clus e h =
    let low : bit_and clus 0xffff % 2 ^ 16 ≡ clus % 2 ^ 16 = omega (arith, bit_and-mask 16 clus) in
    let high : shr clus 16 % 2 ^ 16 * 2 ^ 16 % 2 ^ 32 ≡ clus / 2 ^ 16 * 2 ^ 16 = omega arith in
    rw (low, high)
      (omega (
        arith,
        bit_or_comm (clus % 2 ^ 16) (clus / 2 ^ 16 * 2 ^ 16),
        bit_or-shifted 16 (clus / 2 ^ 16) (clus % 2 ^ 16) (omega arith),
      ))

bit_and-64 : (a : ℕ) → bit_and a 64 ≡ a / 64 % 2 * 64
bit_and-64 a = omega (
  arith,
  bit_and_digit a 64,
  bit_and_digit (a / 2) 32,
  bit_and_digit (a / 2 / 2) 16,
  bit_and_digit (a / 2 / 2 / 2) 8,
  bit_and_digit (a / 2 / 2 / 2 / 2) 4,
  bit_and_digit (a / 2 / 2 / 2 / 2 / 2) 2,
  bit_and-one (a / 2 / 2 / 2 / 2 / 2 / 2),
)

pub bit_or-64 : (a : ℕ) → a < 64 → bit_or a 64 ≡ 64 + a
bit_or-64 a h = omega (arith, bit_or_comm a 64, bit_or-shifted 6 1 a h)

-- The order of an entry below 64, and whether it is the last one
pub ord-from_name_slice :
    (last : Bool) (order : ℕ) (slice : List ℕ)
    → order < 64
    → (ord (long_entry (from_name_slice last order slice)) ≡ order)
      × (is_last_long_dir_ent (long_entry (from_name_slice last order slice)) ≡ last)
unfolding ord is_last_long_dir_ent from_name_slice
ord-from_name_slice true order slice h =
    let small : order % 2 ^ 8 ≡ order = omega arith in
    let m = bit_and-mask 6 (64 + order) in
    let f = bit_and-64 (64 + order) in
    rw (small, bit_or-64 order h) (omega (arith, m), ground (arith, f))
ord-from_name_slice false order slice h =
    let small : order % 2 ^ 8 ≡ order = omega arith in
    let m = bit_and-mask 6 order in
    let f = bit_and-64 order in rw small (omega (arith, m), ground (arith, f))

-- The units before the first zero
abbrev pub before_zero : List ℕ → List ℕ
before_zero us = take (find_or_length 0 us) us

fields_of : (slice : List ℕ) → take 5 slice ++ (take 6 (drop 5 slice) ++ drop 11 slice) ≡ slice
fields_of [] = refl
fields_of (a ∷ []) = refl
fields_of (a ∷ b ∷ []) = refl
fields_of (a ∷ b ∷ c ∷ []) = refl
fields_of (a ∷ b ∷ c ∷ d ∷ []) = refl
fields_of (a ∷ b ∷ c ∷ d ∷ e ∷ []) = refl
fields_of (a ∷ b ∷ c ∷ d ∷ e ∷ rest) =
    ap (λ (r : List ℕ). a ∷ b ∷ c ∷ d ∷ e ∷ r) (take-append-drop 6 rest)

pub long_ent_name-from_name_slice :
    (d : Decoding) (last : Bool) (order : ℕ) (slice : List ℕ)
    → long_ent_name d (from_name_slice last order slice) ≡ d.utf16 (before_zero slice)
unfolding long_ent_name from_name_slice
long_ent_name-from_name_slice d last order slice =
    ap (λ (us : List ℕ). d.utf16 (before_zero us)) (fields_of slice)

-- The name that the long entries hold together, in the order of `gen_long_ents`
abbrev pub joined : Decoding → List LongEnt → List ℕ
joined d [] = []
joined d (e ∷ es) = long_ent_name d e ++ joined d es

-- No unit is zero.
abbrev pub NonZero : List ℕ → Type 0
NonZero us = All (λ u. u ≢ 0) us

before_zero-take :
    (n k : ℕ) (us : List ℕ) → NonZero us → before_zero (take n (us ++ replicate k 0)) ≡ take n us
unfolding find_or_length
before_zero-take zero k us h = refl
before_zero-take (suc n) zero [] h = refl
before_zero-take (suc n) (suc k) [] h = refl
before_zero-take (suc n) k (u ∷ us) h =
    let other : (u == 0) ≡ false = ground (arith, h.0) in
    rw other (ap (◌∷◌ u) (before_zero-take n k us h.1))

drop-padded :
    (m k : ℕ) (us : List ℕ)
    → (k' : ℕ) × (drop m (us ++ replicate k 0) ≡ drop m us ++ replicate k' 0)
drop-padded zero k us = (k, refl)
drop-padded (suc m) zero [] = (0, refl)
drop-padded (suc m) (suc k) [] =
    let (k', e) = drop-padded m k [] in (k', e ∙ rw (drop-nil {A = ℕ} m) refl)
drop-padded (suc m) k (u ∷ us) = drop-padded m k us

slice_units :
    (name : List ℕ) (i : ℕ)
    → NonZero name
    → before_zero (gen_long_name_slice name i) ≡ take 13 (drop (i * 13) name)
unfolding gen_long_name_slice
slice_units name i h =
    let (k, e) = drop-padded (i * 13) ((i + 1) * 13 - length name) name in
    ap (λ (us : List ℕ). before_zero (take 13 us)) e
    ∙ before_zero-take 13 k (drop (i * 13) name) (drop-All (λ u. u ≢ 0) (i * 13) name h)

-- A unit that stands for a character by itself
abbrev pub IsPlain : ℕ → Type 0
IsPlain u = (u < 0xd800) ⊎ (0xdfff < u)

-- Units without surrogates are decoded to themselves.
abbrev pub Decodes : Decoding → Type 0
Decodes d = (us : List ℕ) → All IsPlain us → d.utf16 us ≡ us

joined-slices :
    (d : Decoding) (total i n : ℕ) (name : List ℕ)
    → Decodes d
    → All IsPlain name
    → NonZero name
    → joined d (gen_long_ents total i (gen_slices name i n)) ≡ take (n * 13) (drop (i * 13) name)
unfolding gen_long_ents gen_slices
joined-slices d total i zero name k p h = refl
joined-slices d total i (suc n) name k p h =
    let own =
      long_ent_name-from_name_slice d (i + 1 == total) (i + 1) (gen_long_name_slice name i)
      ∙ ap d.utf16 (slice_units name i h)
      ∙ k (take 13 (drop (i * 13) name))
          (take-All IsPlain 13 (drop (i * 13) name) (drop-All IsPlain (i * 13) name p)) in
    let rest = joined-slices d total (i + 1) n name k p h in
    let next : i * 13 + 13 ≡ (i + 1) * 13 = omega arith in
    let more : suc n * 13 ≡ 13 + n * 13 = omega arith in
    ap (λ (us : List ℕ). us ++ joined d (gen_long_ents total (i + 1) (gen_slices name (i + 1) n)))
      own
    ∙ ap (λ (us : List ℕ). take 13 (drop (i * 13) name) ++ us) rest
    ∙ ap (λ (m : ℕ). take 13 (drop (i * 13) name) ++ take (n * 13) (drop m name)) (sym next)
    ∙ ap (λ (us : List ℕ). take 13 (drop (i * 13) name) ++ take (n * 13) us)
        (sym (drop-drop (i * 13) 13 name))
    ∙ sym (take-split 13 (n * 13) (drop (i * 13) name))
    ∙ ap (λ (m : ℕ). take m (drop (i * 13) name)) (sym more)

-- The long entries of a name hold it: without surrogates and zeros in the name, of which the length in
-- bytes is at least that in units, the names of the entries joined in their order are the name.
pub joined-gen_dir_ent :
    (d : Decoding) (short name : List ℕ) (len clus : ℕ) (type : DiskInodeType)
    → Decodes d
    → All IsPlain name
    → NonZero name
    → length name ≤ len
    → joined d (gen_dir_ent short name len clus type).1 ≡ name
unfolding gen_dir_ent
joined-gen_dir_ent d short name len clus type k p h l =
    joined-slices d ((len + 12) / 13) 0 ((len + 12) / 13) name k p h
    ∙ take_long ((len + 12) / 13 * 13) name (omega arith)
