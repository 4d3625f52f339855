-- ===== src/Fs/DirFile/Allocation.antt =====
-- `alloc_dir_ent` where the file has room.
use oskernel2023_main_os.Common.{
  Bool-cases, Option, add64, ap, arith, false, if◌then◌else◌, inl, inr, leb, length, ltb, none,
  refl, set, some, sub32, suc, true, zero, ℕ, ◌*◌, ◌+◌, ◌<◌, ◌==◌, ◌^◌, ◌∙◌, ◌≡◌, ◌≤◌,
}
use oskernel2023_main_os.Fs.DirEntry.{DirEnt, unused_and_last_entry}
use oskernel2023_main_os.Fs.DirIter.{DirIter, dir_size, mode_enum, set_iter_offset, step_size}
use oskernel2023_main_os.Fs.DirIter.Positions.{IsSmall}
use oskernel2023_main_os.Fs.DirFile.{
  DirFile, alloc_dir_ent, alloc_from, end_after, expand_dir_size, write_to_current_ent,
}
use oskernel2023_main_os.Fs.DirFile.Steps.{
  forwards, next_end, next_forwards, set_past, write_inside,
}

-- What a round of the allocation, and its end, do with what `next` gives
abbrev pub after_round :
    ℕ → (ℕ → DirEnt) → ℕ → ℕ → ℕ → DirFile → Option DirEnt × DirIter → Option (ℕ × DirFile)
after_round rounds fresh clus_size alloc_num found_free f r = elim r.0 [
  | none ↦
      alloc_from rounds fresh clus_size alloc_num found_free r.1 (expand_dir_size fresh clus_size f)
  | some e ↦
      let found' = add64 found_free 1 in
      let rest = alloc_from rounds fresh clus_size alloc_num found' r.1 f in
      if leb alloc_num found' then end_after fresh r.1 f else rest
]

abbrev pub after_end : (ℕ → DirEnt) → ℕ → DirFile → Option DirEnt × DirIter → Option (ℕ × DirFile)
after_end fresh offset f r = elim r.0 [
  | none ↦ some (offset, record f { hint = dir_size f.entries })
  | some e ↦ elim (write_to_current_ent fresh unused_and_last_entry r.1 f) [
    | none ↦ none
    | some f' ↦ elim r.1.offset [ none ↦ none | some o ↦ some (offset, record f' { hint = o }) ]
  ]
]

abbrev pub hinted : ℕ → ℕ → Option DirFile → Option (ℕ × DirFile)
hinted offset o none = none
hinted offset o (some f) = some (offset, record f { hint = o })

-- Enough entries from a place on: the allocation ends behind them.
pub alloc_room :
    (rounds : ℕ) (fresh : ℕ → DirEnt) (clus_size found more p : ℕ) (f : DirFile)
    → IsSmall f.entries
    → p + suc more ≤ length f.entries
    → found + suc more < 2 ^ 64
    → more < rounds
    → alloc_from rounds fresh clus_size (found + suc more) found (forwards p) f
      ≡ end_after fresh (forwards (p + suc more)) f
unfolding alloc_from
alloc_room zero fresh clus_size found more p f s h w k = absurd (omega arith)
alloc_room (suc rounds) fresh clus_size found zero p f s h w k =
    let (e, next) = next_forwards f p s (omega arith) in
    let here : p + 1 ≡ suc p = omega arith in
    let enough : leb (found + 1) (add64 found 1) ≡ true = ground arith in
    ap (after_round rounds fresh clus_size (found + 1) found f) next ∙ rw (enough, here) refl
alloc_room (suc rounds) fresh clus_size found (suc more) p f s h w k =
    let (e, next) = next_forwards f p s (omega arith) in
    let one : add64 found 1 ≡ suc found = omega arith in
    let short : leb (found + suc (suc more)) (suc found) ≡ false = ground arith in
    let shift : found + suc (suc more) ≡ suc found + suc more = omega arith in
    let place : p + suc (suc more) ≡ suc p + suc more = omega arith in
    let rest =
      alloc_room rounds fresh clus_size (suc found) more (suc p) f s (omega arith) (omega arith)
        (omega arith) in
    ap (after_round rounds fresh clus_size (found + suc (suc more)) found f) next
    ∙ rw (one, short, shift, place) rest

-- The entry behind the new ones is marked, where there is one.
pub end_room :
    (fresh : ℕ → DirEnt) (q : ℕ) (f : DirFile)
    → IsSmall f.entries
    → q < length f.entries
    → end_after fresh (forwards (suc q)) f
      ≡ some (
        q * 32,
        record { entries = set f.entries (suc q) unused_and_last_entry; hint = suc q * 32 },
      )
unfolding end_after
end_room fresh q f s h = elim (Bool-cases (ltb (suc q) (length f.entries))) [
  | inl less ↦
      let inside : suc q < length f.entries = ground arith in
      let (e, next) = next_forwards f (suc q) s inside in
      let written =
        write_inside fresh unused_and_last_entry (suc q) f (forwards (suc (suc q))) refl inside in
      ap (after_end fresh (q * 32) f) next ∙ ap (hinted (q * 32) (suc q * 32)) written
  | inr past ↦
      let all : length f.entries ≡ suc q = ground arith in
      let same = set_past f.entries (suc q) unused_and_last_entry (omega arith) in
      ap (after_end fresh (q * 32) f) (next_end f q s all) ∙ rw (same, all) refl
]

pub set_iter_offset-forwards :
    (p : ℕ)
    → p * 32 < 2 ^ 32
    → set_iter_offset (p * 32) (record { offset = none; mode = mode_enum; direction = true })
      ≡ forwards p
unfolding set_iter_offset
set_iter_offset-forwards zero h = refl
set_iter_offset-forwards (suc p) h =
    let away : (suc p * 32 == 0) ≡ false = ground arith in
    let at : sub32 (suc p * 32) step_size ≡ p * 32 = omega arith in rw (away, at) refl

pub alloc_dir_ent_lem :
    (fresh : ℕ → DirEnt) (clus_size n p : ℕ) (f : DirFile)
    → f.hint ≡ p * 32
    → IsSmall f.entries
    → p + suc n ≤ length f.entries
    → alloc_dir_ent fresh clus_size (1 + n) f
      ≡ some (
        (p + n) * 32,
        record {
          entries = set f.entries (suc (p + n)) unused_and_last_entry;
          hint = suc (p + n) * 32;
        },
      )
unfolding alloc_dir_ent
alloc_dir_ent_lem fresh clus_size n p f at s h =
    let num : 1 + n ≡ 0 + suc n = omega arith in
    let place : p + suc n ≡ suc (p + n) = omega arith in
    let start : set_iter_offset f.hint
          (record { offset = none; mode = mode_enum; direction = true })
        ≡ forwards p =
      rw at (set_iter_offset-forwards p (omega arith)) in
    rw num (
      ap (λ it. alloc_from (suc ((0 + suc n) + (0 + suc n))) fresh clus_size (0 + suc n) 0 it f)
        start
      ∙ alloc_room (suc ((0 + suc n) + (0 + suc n))) fresh clus_size 0 n p f s h (omega arith)
          (omega arith)
      ∙ rw place (end_room fresh (p + n) f s (omega arith)))
