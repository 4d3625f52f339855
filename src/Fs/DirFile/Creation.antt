-- ===== src/Fs/DirFile/Creation.antt =====
-- The entries that `create_dir_ent` writes where the file has room for them.
use oskernel2023_main_os.Common.{
  List, Option, [], ap, arith, drop, false, length, length-set, none, refl, set, some, suc, take,
  take-append-drop, ℕ, ◌*◌, ◌++◌, ◌+◌, ◌<◌, ◌∙◌, ◌∷◌, ◌≡◌, ◌≤◌,
}
use oskernel2023_main_os.Fs.DirEntry.{
  DirEnt, LongEnt, ShortEnt, long_entry, short_entry, unused_and_last_entry,
}
use oskernel2023_main_os.Fs.DirIter.{Dir, DirIter, ls, mode_enum}
use oskernel2023_main_os.Fs.DirIter.Positions.{IsSmall}
use oskernel2023_main_os.Fs.DirIter.Listing.Files.{placed}
use oskernel2023_main_os.Fs.DirFile.{
  DirFile, alloc_dir_ent, create_dir_ent, next_of, write_longs, write_to_current_ent,
}
use oskernel2023_main_os.Fs.DirFile.Steps.{
  backwards, drop-set, drop-set_last, ended, next_backwards, take-set, write_inside,
}
use oskernel2023_main_os.Fs.DirFile.Allocation.{alloc_dir_ent_lem}

abbrev then_longs : (ℕ → DirEnt) → List LongEnt → DirIter → Option DirFile → Option DirFile
then_longs fresh longs it none = none
then_longs fresh longs it (some f) = write_longs fresh longs it f

write_longs-cons :
    (fresh : ℕ → DirEnt) (l : LongEnt) (ls : List LongEnt) (it : DirIter) (f : DirFile)
    → write_longs fresh (l ∷ ls) it f
      ≡ then_longs fresh ls
          (next_of f it).1
          (write_to_current_ent fresh (long_entry l) (next_of f it).1 f)
unfolding write_longs
write_longs-cons fresh l ls it f =
    by_write (write_to_current_ent fresh (long_entry l) (next_of f it).1 f)
  where
    by_write :
        (w : Option DirFile)
        → elim w [ none ↦ none | some f' ↦ write_longs fresh ls (next_of f it).1 f' ]
          ≡ then_longs fresh ls (next_of f it).1 w
    by_write none = refl
    by_write (some f') = refl

-- The long entries before a place are written backwards from it.
write_longs-placed :
    (fresh : ℕ → DirEnt) (longs : List LongEnt) (a : ℕ) (f : DirFile)
    → IsSmall f.entries
    → a + length longs < length f.entries
    → write_longs fresh longs (backwards (a + length longs)) f
      ≡ some (record f {
        entries = take a f.entries ++ placed longs (drop (a + length longs) f.entries);
      })
unfolding write_longs
write_longs-placed fresh [] a f s h =
    let e : a + 0 ≡ a = omega arith in rw (e, take-append-drop a f.entries) refl
write_longs-placed fresh (l ∷ ls) a f s h =
    let q = a + length ls in
    let shift : a + suc (length ls) ≡ suc q = omega arith in
    let inside : q < length f.entries = omega arith in
    let f' : DirFile = record f { entries = set f.entries q (long_entry l) } in
    let size = length-set f.entries q (long_entry l) in
    let rest = write_longs-placed fresh ls a f' (omega arith) (omega arith) in
    let kept = take-set f.entries a q (long_entry l) (omega arith) in
    let written = drop-set f.entries q (long_entry l) inside in
    rw shift (
      write_longs-cons fresh l ls (backwards (suc q)) f
      ∙ ap (λ it. then_longs fresh ls it (write_to_current_ent fresh (long_entry l) it f))
          (next_backwards f q s (omega arith))
      ∙ ap (then_longs fresh ls (backwards q))
          (write_inside fresh (long_entry l) q f (backwards q) refl inside)
      ∙ rest
      ∙ rw (kept, written) refl)

abbrev with_offset : ℕ → Option DirFile → Option (ℕ × DirFile)
with_offset offset none = none
with_offset offset (some f) = some (offset, f)

abbrev then_short :
    (ℕ → DirEnt) → ShortEnt → List LongEnt → Option (ℕ × DirFile) → Option (ℕ × DirFile)
then_short fresh short longs none = none
then_short fresh short longs (some (offset, f)) =
    let it : DirIter = record { offset = some offset; mode = mode_enum; direction = false } in
    with_offset offset
      (then_longs fresh longs it (write_to_current_ent fresh (short_entry short) it f))

create-then_short :
    (fresh : ℕ → DirEnt) (clus_size : ℕ) (short : ShortEnt) (longs : List LongEnt) (f : DirFile)
    → create_dir_ent fresh clus_size short longs f
      ≡ then_short fresh short longs (alloc_dir_ent fresh clus_size (1 + length longs) f)
unfolding create_dir_ent
create-then_short fresh clus_size short longs f =
    by_alloc (alloc_dir_ent fresh clus_size (1 + length longs) f)
  where
    by_longs :
        (offset : ℕ) (r : Option DirFile)
        → elim r [ none ↦ none | some f' ↦ some (offset, f') ] ≡ with_offset offset r
    by_longs offset none = refl
    by_longs offset (some f') = refl

    by_write :
        (offset : ℕ) (it : DirIter) (w : Option DirFile)
        → elim w [
          | none ↦ none
          | some f' ↦ elim (write_longs fresh longs it f') [
            | none ↦ none
            | some f'' ↦ some (offset, f'')
          ]
        ]
          ≡ with_offset offset (then_longs fresh longs it w)
    by_write offset it none = refl
    by_write offset it (some f') = by_longs offset (write_longs fresh longs it f')

    by_alloc :
        (r : Option (ℕ × DirFile))
        → elim r [
          | none ↦ none
          | some (offset, f') ↦
              let it : DirIter = record {
                offset = some offset;
                mode = mode_enum;
                direction = false;
              } in
              elim (write_to_current_ent fresh (short_entry short) it f') [
                | none ↦ none
                | some f'' ↦ elim (write_longs fresh longs it f'') [
                  | none ↦ none
                  | some g ↦ some (offset, g)
                ]
              ]
        ]
          ≡ then_short fresh short longs r
    by_alloc none = refl
    by_alloc (some (offset, f')) =
        let it : DirIter = record { offset = some offset; mode = mode_enum; direction = false } in
        by_write offset it (write_to_current_ent fresh (short_entry short) it f')

-- Where the directory has an entry for the short and for each long entry from the hint on, and its offsets
-- fit in 32 bits, `create_dir_ent` succeeds with the offset of the short entry: it keeps the entries
-- before the hint, writes the long ones backwards before the short one, marks the entry behind them as
-- the last if there is one, keeps those behind it, and moves the hint behind the new ones.
pub create_dir_ent_lem :
    (fresh : ℕ → DirEnt) (clus_size : ℕ) (short : ShortEnt) (longs : List LongEnt) (f : DirFile)
    (p : ℕ)
    → f.hint ≡ p * 32
    → IsSmall f.entries
    → p + suc (length longs) ≤ length f.entries
    → create_dir_ent fresh clus_size short longs f
      ≡ some (
        (p + length longs) * 32,
        record {
          entries =
              take p f.entries
              ++ placed longs (short_entry short ∷ ended (drop (suc (p + length longs)) f.entries));
          hint = suc (p + length longs) * 32;
        },
      )
create_dir_ent_lem fresh clus_size short longs f p at s h =
    let q = p + length longs in
    let marked : Dir = set f.entries (suc q) unused_and_last_entry in
    let f₁ : DirFile = record { entries = marked; hint = suc q * 32 } in
    let f₂ : DirFile = record f₁ { entries = set marked q (short_entry short) } in
    let size = length-set f.entries (suc q) unused_and_last_entry in
    let size' = length-set marked q (short_entry short) in
    let inside : q < length marked = omega arith in
    let kept =
      take-set marked p q (short_entry short) (omega arith)
      ∙ take-set f.entries p (suc q) unused_and_last_entry (omega arith) in
    let new =
      drop-set marked q (short_entry short) inside
      ∙ ap (◌∷◌ (short_entry short)) (drop-set_last f.entries (suc q)) in
    create-then_short fresh clus_size short longs f
    ∙ ap (then_short fresh short longs)
        (alloc_dir_ent_lem fresh clus_size (length longs) p f at s h)
    ∙ ap (λ w. with_offset (q * 32) (then_longs fresh longs (backwards q) w))
        (write_inside fresh (short_entry short) q f₁ (backwards q) refl inside)
    ∙ ap (with_offset (q * 32)) (write_longs-placed fresh longs p f₂ (omega arith) (omega arith))
    ∙ rw (kept, new) refl
