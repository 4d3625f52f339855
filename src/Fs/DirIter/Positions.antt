-- ===== src/Fs/DirIter/Positions.antt =====
-- The iterator forwards from a place between entries.
use oskernel2023_main_os.Common.{
  Bool, Bool-cases, List, Option, [], add32, ap, arith, drop, drop-cons, false, get_elem?,
  if◌then◌else◌, inl, inr, leb, length, none, not, refl, some, suc, true, zero, ℕ, ◌*◌, ◌+◌, ◌/◌,
  ◌<◌, ◌^◌, ◌∙◌, ◌∷◌, ◌≡◌, ◌≤◌,
}
use oskernel2023_main_os.Fs.DirEntry.{DirEnt, last_and_unused, unused}
use oskernel2023_main_os.Fs.DirIter.{
  Dir, DirIter, DirIterMode, check_dir_ent_legality, dir_size, dir_step, entry_at, mode_used,
  next_entry, read_entry, step_forward, step_size,
}

-- The offset after some entries
abbrev pub offset_after : ℕ → Option ℕ
offset_after zero = none
offset_after (suc p) = some (p * 32)

abbrev pub after : ℕ → DirIter
after p = record { offset = offset_after p; mode = mode_used; direction = true }

-- What is found from a place on, and the place after it
abbrev pub next_used : ℕ → List DirEnt → Option DirEnt × ℕ
next_used p [] = (none, p)
next_used p (e ∷ es) =
    let rest = next_used (p + 1) es in
    if last_and_unused e then (none, p) else if not (unused e) then (some e, p + 1) else rest

-- An offset is one of 32 bits.
abbrev pub IsSmall : Dir → Type 0
IsSmall dir = dir_size dir < 2 ^ 32

step_end :
    (dir : Dir) (p : ℕ)
    → IsSmall dir
    → length dir ≤ p
    → p ≤ length dir
    → step_forward dir (after p) ≡ (none, after p)
unfolding step_forward
step_end dir zero s h k = ground arith
step_end dir (suc p) s h k = ground arith

read_after :
    (dir : Dir) (p : ℕ) (e : DirEnt) → get_elem? dir p ≡ some e → read_entry dir (p * 32) ≡ e
unfolding read_entry entry_at
read_after dir p e h = let at : p * 32 / 32 ≡ p = omega arith in ground (arith, at, h)

step_here :
    (dir : Dir) (p : ℕ) (e : DirEnt)
    → IsSmall dir
    → p < length dir
    → get_elem? dir p ≡ some e
    → step_forward dir (after p)
      ≡ (if last_and_unused e then (none, after p) else (some e, after (suc p)))
unfolding step_forward
step_here dir zero e s l h = let r = read_after dir 0 e h in ground (arith, r)
step_here dir (suc p) e s l h =
    let r = read_after dir (suc p) e h in
    let at : add32 (p * 32) step_size ≡ suc p * 32 = omega arith in
    let inside : leb (dir_size dir) (suc p * 32) ≡ false = ground arith in rw (at, inside, r) refl

-- What `next` does with a step
abbrev after_step : ℕ → Dir → DirIterMode → Option DirEnt × DirIter → Option DirEnt × DirIter
after_step steps dir mode r = elim r.0 [
  | none ↦ (none, r.1)
  | some e ↦ if check_dir_ent_legality mode e then (some e, r.1) else next_entry steps dir r.1
]

pub next-step_none :
    (steps : ℕ) (dir : Dir) (it it' : DirIter)
    → dir_step dir it ≡ (none, it')
    → next_entry (suc steps) dir it ≡ (none, it')
unfolding next_entry
next-step_none steps dir it it' h = ap (after_step steps dir it.mode) h

pub next-step_some :
    (steps : ℕ) (dir : Dir) (it it' : DirIter) (e : DirEnt)
    → dir_step dir it ≡ (some e, it')
    → next_entry (suc steps) dir it
      ≡ (if check_dir_ent_legality it.mode e then (some e, it') else next_entry steps dir it')
unfolding next_entry
next-step_some steps dir it it' e h = ap (after_step steps dir it.mode) h

-- With a step for every entry to come, and one more, the iterator finds what `next_used` finds.
pub next_entry-next_used :
    (dir : Dir) (steps p : ℕ) (es : List DirEnt)
    → IsSmall dir
    → drop p dir ≡ es
    → p + length es ≡ length dir
    → length es < steps
    → next_entry steps dir (after p) ≡ ((next_used p es).0, after (next_used p es).1)
unfolding dir_step check_dir_ent_legality
next_entry-next_used dir zero p es s h l k = absurd (omega arith)
next_entry-next_used dir (suc steps) p [] s h l k =
    next-step_none steps dir (after p) (after p) (step_end dir p s (omega arith) (omega arith))
next_entry-next_used dir (suc steps) p (e ∷ es) s h l k =
    let (here, later) = drop-cons p dir h in
    let at = step_here dir p e s (omega arith) here in
    let rest = next_entry-next_used dir steps (suc p) es s later (omega arith) (omega arith) in
    let next : p + 1 ≡ suc p = omega arith in
    elim (Bool-cases (last_and_unused e)) [
      | inl last ↦
          let stop : dir_step dir (after p) ≡ (none, after p) = at ∙ rw last refl in
          next-step_none steps dir (after p) (after p) stop ∙ rw last refl
      | inr more ↦
          let go : dir_step dir (after p) ≡ (some e, after (suc p)) = at ∙ rw more refl in
          next-step_some steps dir (after p) (after (suc p)) e go ∙ taken (unused e) more next rest
    ]
  where
    taken :
        (b : Bool)
        → last_and_unused e ≡ false
        → p + 1 ≡ suc p
        → next_entry steps dir (after (suc p))
          ≡ ((next_used (suc p) es).0, after (next_used (suc p) es).1)
        → (if not b then (some e, after (suc p)) else next_entry steps dir (after (suc p))) ≡ (
          (if last_and_unused e
              then (none, p)
              else if not b
              then (some e, p + 1)
              else next_used (p + 1) es).0,
          after
              (if last_and_unused e
                then (none, p)
                else if not b
                then (some e, p + 1)
                else next_used (p + 1) es).1,
        )
    taken true more next rest = rw (more, next) rest
    taken false more next rest = rw (more, next) refl
