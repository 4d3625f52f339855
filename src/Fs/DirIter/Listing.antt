-- ===== src/Fs/DirIter/Listing.antt =====
-- The listing of a directory, entry by entry.
pub mod Collect
pub mod Files
use oskernel2023_main_os.Common.{
  Bool-cases, List, Option, [], ap, arith, drop, drop-cons, if◌then◌else◌, inl, inr, length, none,
  refl, some, suc, sym, usize_max, zero, ℕ, ◌+◌, ◌<◌, ◌∙◌, ◌∷◌, ◌≡◌,
}
use oskernel2023_main_os.Fs.DirEntry.{Decoding, DirEnt, ShortEnt, last_and_unused, unused}
use oskernel2023_main_os.Fs.DirIter.{
  Dir, DirIter, Walked, goes_on, next_walked, panics, returns, walk_entry,
}
use oskernel2023_main_os.Fs.DirIter.Positions.{IsSmall, after, next_entry-next_used, next_used}

-- The files of the entries up to the first that is last and unused, with the name and the order of the
-- long entries read so far; `none` where a long entry is out of order
abbrev pub listing : Decoding → List ℕ → ℕ → List DirEnt → Option (List (List ℕ × ShortEnt))
listing d name should_be_ord [] = some []
listing d name should_be_ord (e ∷ es) =
    if last_and_unused e
    then some []
    else if unused e
    then listing d name should_be_ord es
    else elim (walk_entry d name should_be_ord e) [
      | goes_on name' ord' ↦ listing d name' ord' es
      | returns name' ent ↦ elim (listing d [] usize_max es) [
        | none ↦ none
        | some files ↦ some ((name', ent) ∷ files)
      ]
      | panics ↦ none
    ]

-- The next file from a place on, and the place after it
abbrev pub next_file :
    Decoding → List ℕ → ℕ → ℕ → List DirEnt → Option (Option (List ℕ × ShortEnt) × ℕ)
next_file d name should_be_ord p [] = some (none, p)
next_file d name should_be_ord p (e ∷ es) =
    if last_and_unused e
    then some (none, p)
    else if unused e
    then next_file d name should_be_ord (p + 1) es
    else elim (walk_entry d name should_be_ord e) [
      | goes_on name' ord' ↦ next_file d name' ord' (p + 1) es
      | returns name' ent ↦ some (some (name', ent), p + 1)
      | panics ↦ none
    ]

abbrev pub place :
    Option (Option (List ℕ × ShortEnt) × ℕ) → Option (Option (List ℕ × ShortEnt) × DirIter)
place none = none
place (some (file, p)) = some (file, after p)

-- What the walker does with what the iterator finds
abbrev after_next :
    ℕ
    → Decoding
    → Dir
    → List ℕ
    → ℕ
    → Option DirEnt × DirIter
    → Option (Option (List ℕ × ShortEnt) × DirIter)
after_next rounds d dir name should_be_ord r = elim r.0 [
  | none ↦ some (none, r.1)
  | some e ↦ elim (walk_entry d name should_be_ord e) [
    | goes_on name' ord' ↦ next_walked rounds d dir name' ord' r.1
    | returns name' ent ↦ some (some (name', ent), r.1)
    | panics ↦ none
  ]
]

next_walked-after_next :
    (rounds : ℕ) (d : Decoding) (dir : Dir) (name : List ℕ) (should_be_ord p : ℕ) (es : List DirEnt)
    → IsSmall dir
    → drop p dir ≡ es
    → p + length es ≡ length dir
    → next_walked (suc rounds) d dir name should_be_ord (after p)
      ≡ after_next rounds d dir name should_be_ord ((next_used p es).0, after (next_used p es).1)
unfolding next_walked
next_walked-after_next rounds d dir name should_be_ord p es s h l =
    ap (after_next rounds d dir name should_be_ord)
      (next_entry-next_used dir (suc (length dir)) p es s h l (omega arith))

pub next_walked-next_file :
    (rounds : ℕ) (d : Decoding) (dir : Dir) (name : List ℕ) (should_be_ord p : ℕ) (es : List DirEnt)
    → IsSmall dir
    → drop p dir ≡ es
    → p + length es ≡ length dir
    → length es < rounds
    → next_walked rounds d dir name should_be_ord (after p)
      ≡ place (next_file d name should_be_ord p es)
next_walked-next_file zero d dir name o p es s h l k = absurd (omega arith)
next_walked-next_file (suc rounds) d dir name o p [] s h l k =
    next_walked-after_next rounds d dir name o p [] s h l
next_walked-next_file (suc rounds) d dir name o p (e ∷ es) s h l k =
    let later = (drop-cons p dir h).1 in
    let next : suc p ≡ p + 1 = omega arith in
    let later' : drop (p + 1) dir ≡ es = rw (sym next) later in
    next_walked-after_next rounds d dir name o p (e ∷ es) s h l
    ∙ elim (Bool-cases (last_and_unused e)) [
      | inl last ↦ rw last refl
      | inr more ↦ elim (Bool-cases (unused e)) [
        | inl gap ↦
            rw (more, gap)
              (sym (next_walked-after_next rounds d dir name o (p + 1) es s later' (omega arith))
                ∙ next_walked-next_file (suc rounds) d dir name o (p + 1) es s later' (omega arith)
                    (omega arith))
        | inr used ↦
            rw (more, used)
              (walked (walk_entry d name o e) (λ name' o'.
                next_walked-next_file rounds d dir name' o' (p + 1) es s later' (omega arith)
                  (omega arith)))
      ]
    ]
  where
    walked :
        (w : Walked)
        → ((name' : List ℕ) (o' : ℕ)
            → next_walked rounds d dir name' o' (after (p + 1))
              ≡ place (next_file d name' o' (p + 1) es))
        → elim w [
          | goes_on name' ord' ↦ next_walked rounds d dir name' ord' (after (p + 1))
          | returns name' ent ↦ some (some (name', ent), after (p + 1))
          | panics ↦ none
        ]
          ≡ place (elim w [
            | goes_on name' ord' ↦ next_file d name' ord' (p + 1) es
            | returns name' ent ↦ some (some (name', ent), p + 1)
            | panics ↦ none
          ])
    walked (goes_on name' o') k = k name' o'
    walked (returns name' ent) k = refl
    walked panics k = refl
