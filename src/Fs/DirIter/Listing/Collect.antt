-- ===== src/Fs/DirIter/Listing/Collect.antt =====
-- What `collect` gathers, file by file.
use oskernel2023_main_os.Common.{
  Bool-cases, List, Option, [], ap, arith, drop, drop-cons, inl, inr, length, none, refl, some, suc,
  sym, usize_max, zero, ℕ, ◌+◌, ◌<◌, ◌∙◌, ◌∷◌, ◌≡◌,
}
use oskernel2023_main_os.Fs.DirEntry.{Decoding, DirEnt, ShortEnt, last_and_unused, unused}
use oskernel2023_main_os.Fs.DirIter.{
  Dir, DirIter, Walked, collect_walked, goes_on, ls, next_walked, panics, returns, walk_entry,
}
use oskernel2023_main_os.Fs.DirIter.Positions.{IsSmall, after}
use oskernel2023_main_os.Fs.DirIter.Listing.{listing, next_file, next_walked-next_file, place}

abbrev with_file :
    List ℕ × ShortEnt → Option (List (List ℕ × ShortEnt)) → Option (List (List ℕ × ShortEnt))
with_file file none = none
with_file file (some files) = some (file ∷ files)

-- How the listing of some entries goes on after the next file
abbrev Continues :
    Decoding
    → Dir
    → ℕ
    → Option (List (List ℕ × ShortEnt))
    → Option (Option (List ℕ × ShortEnt) × ℕ)
    → Type 0
Continues d dir p whole none = whole ≡ none
Continues d dir p whole (some (none, p')) = whole ≡ some []
Continues d dir p whole (some (some file, p')) =
    (es : List DirEnt) × (drop p' dir ≡ es)
    × (p' + length es ≡ length dir)
    × (p < p')
    × (whole ≡ with_file file (listing d [] usize_max es))

weaken :
    (d : Decoding) (dir : Dir) (p : ℕ) (whole : Option (List (List ℕ × ShortEnt)))
    → (r : Option (Option (List ℕ × ShortEnt) × ℕ)) → Continues d dir (p + 1) whole r
    → Continues d dir p whole r
weaken d dir p whole none c = c
weaken d dir p whole (some (none, p')) c = c
weaken d dir p whole (some (some file, p')) (es, at, l, past, e) = (es, at, l, omega arith, e)

next_file-Continues :
    (d : Decoding) (dir : Dir) (name : List ℕ) (o p : ℕ) (es : List DirEnt)
    → drop p dir ≡ es
    → p + length es ≡ length dir
    → Continues d dir p (listing d name o es) (next_file d name o p es)
next_file-Continues d dir name o p [] h l = refl
next_file-Continues d dir name o p (e ∷ es) h l =
    let next : suc p ≡ p + 1 = omega arith in
    let later : drop (p + 1) dir ≡ es = rw (sym next) (drop-cons p dir h).1 in
    elim (Bool-cases (last_and_unused e)) [
      | inl last ↦ rw last refl
      | inr more ↦ elim (Bool-cases (unused e)) [
        | inl gap ↦
            rw (more, gap)
              (weaken d dir p (listing d name o es) (next_file d name o (p + 1) es)
                (next_file-Continues d dir name o (p + 1) es later (omega arith)))
        | inr used ↦
            rw (more, used)
              (walked later (walk_entry d name o e) (λ name' o'.
                weaken d dir p (listing d name' o' es) (next_file d name' o' (p + 1) es)
                  (next_file-Continues d dir name' o' (p + 1) es later (omega arith))))
      ]
    ]
  where
    walked :
        drop (p + 1) dir ≡ es
        → (w : Walked)
        → ((name' : List ℕ) (o' : ℕ)
            → Continues d dir p (listing d name' o' es) (next_file d name' o' (p + 1) es))
        → Continues d dir p
            (elim w [
              | goes_on name' ord' ↦ listing d name' ord' es
              | returns name' ent ↦ elim (listing d [] usize_max es) [
                | none ↦ none
                | some files ↦ some ((name', ent) ∷ files)
              ]
              | panics ↦ none
            ])
            (elim w [
              | goes_on name' ord' ↦ next_file d name' ord' (p + 1) es
              | returns name' ent ↦ some (some (name', ent), p + 1)
              | panics ↦ none
            ])
    walked later (goes_on name' o') k = k name' o'
    walked later (returns name' ent) k =
        (es, later, omega arith, omega arith, joined name' ent (listing d [] usize_max es))
      where
        joined :
            (name' : List ℕ) (ent : ShortEnt) (r : Option (List (List ℕ × ShortEnt)))
            → elim r [ none ↦ none | some files ↦ some ((name', ent) ∷ files) ]
              ≡ with_file (name', ent) r
        joined name' ent none = refl
        joined name' ent (some files) = refl
    walked later panics k = refl

-- What `collect` does with the next file
abbrev after_file :
    ℕ
    → Decoding
    → Dir
    → Option (Option (List ℕ × ShortEnt) × DirIter)
    → Option (List (List ℕ × ShortEnt))
after_file rounds d dir none = none
after_file rounds d dir (some (none, it)) = some []
after_file rounds d dir (some (some file, it)) = with_file file (collect_walked rounds d dir it)

collect-after_file :
    (rounds : ℕ) (d : Decoding) (dir : Dir) (it : DirIter)
    → collect_walked (suc rounds) d dir it
      ≡ after_file rounds d dir (next_walked (suc (length dir)) d dir [] usize_max it)
unfolding collect_walked
collect-after_file rounds d dir it = by_file (next_walked (suc (length dir)) d dir [] usize_max it)
  where
    by_file :
        (r : Option (Option (List ℕ × ShortEnt) × DirIter))
        → elim r [
          | none ↦ none
          | some (none, it') ↦ some []
          | some (some file, it') ↦ elim (collect_walked rounds d dir it') [
            | none ↦ none
            | some files ↦ some (file ∷ files)
          ]
        ]
          ≡ after_file rounds d dir r
    by_file none = refl
    by_file (some (none, it')) = refl
    by_file (some (some file, it')) = by_rest (collect_walked rounds d dir it')
      where
        by_rest :
            (r : Option (List (List ℕ × ShortEnt)))
            → elim r [ none ↦ none | some files ↦ some (file ∷ files) ] ≡ with_file file r
        by_rest none = refl
        by_rest (some files) = refl

collect-listing :
    (rounds : ℕ) (d : Decoding) (dir : Dir) (p : ℕ) (es : List DirEnt)
    → IsSmall dir
    → drop p dir ≡ es
    → p + length es ≡ length dir
    → length es < rounds
    → collect_walked rounds d dir (after p) ≡ listing d [] usize_max es
collect-listing zero d dir p es s h l k = absurd (omega arith)
collect-listing (suc rounds) d dir p es s h l k =
    collect-after_file rounds d dir (after p)
    ∙ ap (after_file rounds d dir)
        (next_walked-next_file (suc (length dir)) d dir [] usize_max p es s h l (omega arith))
    ∙ by_next (next_file d [] usize_max p es) (next_file-Continues d dir [] usize_max p es h l)
        (λ p' es' past at l'. collect-listing rounds d dir p' es' s at l' (omega arith))
  where
    by_next :
        (r : Option (Option (List ℕ × ShortEnt) × ℕ))
        → Continues d dir p (listing d [] usize_max es) r
        → ((p' : ℕ) (es' : List DirEnt)
            → p < p'
            → drop p' dir ≡ es'
            → p' + length es' ≡ length dir
            → collect_walked rounds d dir (after p') ≡ listing d [] usize_max es')
        → after_file rounds d dir (place r) ≡ listing d [] usize_max es
    by_next none c rest = sym c
    by_next (some (none, p')) c rest = sym c
    by_next (some (some file, p')) (es', at, l', past, e) rest =
        ap (with_file file) (rest p' es' past at l') ∙ sym e

pub ls-listing : (d : Decoding) (dir : Dir) → IsSmall dir → ls d dir ≡ listing d [] usize_max dir
unfolding ls
ls-listing d dir s =
    collect-listing (suc (length dir)) d dir 0 dir s refl (omega arith) (omega arith)
