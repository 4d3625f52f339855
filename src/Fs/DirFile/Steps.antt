-- ===== src/Fs/DirFile/Steps.antt =====
-- Single steps of iterators over a directory, and single writes.
use oskernel2023_main_os.Common.{
  List, Option, [], add32, ap, arith, drop, false, leb, length, none, refl, set, some, sub32, suc,
  take, true, zero, ℕ, ◌*◌, ◌-◌, ◌/◌, ◌<◌, ◌==◌, ◌∷◌, ◌≡◌, ◌≤◌,
}
use oskernel2023_main_os.Fs.DirEntry.{DirEnt, unused_and_last_entry}
use oskernel2023_main_os.Fs.DirIter.{
  Dir, DirIter, check_dir_ent_legality, dir_size, dir_step, mode_enum, read_entry, step_backward,
  step_forward, step_size,
}
use oskernel2023_main_os.Fs.DirIter.Positions.{
  IsSmall, next-step_none, next-step_some, offset_after,
}
use oskernel2023_main_os.Fs.DirFile.{DirFile, extend, next_of, write_to_current_ent}

module _ {ℓ} {A : Type ℓ} where
  pub take-set : (xs : List A) (i j : ℕ) (v : A) → i ≤ j → take i (set xs j v) ≡ take i xs
  take-set [] i j v h = refl
  take-set (x ∷ xs) zero zero v h = refl
  take-set (x ∷ xs) zero (suc j) v h = refl
  take-set (x ∷ xs) (suc i) zero v h = absurd (omega arith)
  take-set (x ∷ xs) (suc i) (suc j) v h = ap (◌∷◌ x) (take-set xs i j v (omega arith))

  pub drop-set :
      (xs : List A) (j : ℕ) (v : A) → j < length xs → drop j (set xs j v) ≡ v ∷ drop (suc j) xs
  drop-set [] j v h = absurd (omega arith)
  drop-set (x ∷ xs) zero v h = refl
  drop-set (x ∷ xs) (suc j) v h = drop-set xs j v (omega arith)

-- The entry behind the new ones becomes the last.
abbrev pub ended : Dir → Dir
ended [] = []
ended (e ∷ es) = unused_and_last_entry ∷ es

pub drop-set_last : (es : Dir) (j : ℕ) → drop j (set es j unused_and_last_entry) ≡ ended (drop j es)
drop-set_last [] zero = refl
drop-set_last [] (suc j) = refl
drop-set_last (e ∷ es) zero = refl
drop-set_last (e ∷ es) (suc j) = drop-set_last es j

pub set_past : (es : Dir) (j : ℕ) (e : DirEnt) → length es ≤ j → set es j e ≡ es
set_past [] j e h = refl
set_past (x ∷ es) zero e h = absurd (omega arith)
set_past (x ∷ es) (suc j) e h = ap (◌∷◌ x) (set_past es j e (omega arith))

-- The iterators of the allocation, after some entries and at one
abbrev pub forwards : ℕ → DirIter
forwards p = record { offset = offset_after p; mode = mode_enum; direction = true }

abbrev pub backwards : ℕ → DirIter
backwards q = record { offset = some (q * 32); mode = mode_enum; direction = false }

pub step_forwards :
    (dir : Dir) (p : ℕ)
    → IsSmall dir
    → p < length dir
    → (e : DirEnt) × (dir_step dir (forwards p) ≡ (some e, forwards (suc p)))
unfolding dir_step step_forward
step_forwards dir zero s h =
    let inside : leb (dir_size dir) 0 ≡ false = ground arith in (read_entry dir 0, rw inside refl)
step_forwards dir (suc p) s h =
    let at : add32 (p * 32) step_size ≡ suc p * 32 = omega arith in
    let inside : leb (dir_size dir) (suc p * 32) ≡ false = ground arith in
    (read_entry dir (suc p * 32), rw (at, inside) refl)

pub next_forwards :
    (f : DirFile) (p : ℕ)
    → IsSmall f.entries
    → p < length f.entries
    → (e : DirEnt) × (next_of f (forwards p) ≡ (some e, forwards (suc p)))
unfolding check_dir_ent_legality
next_forwards f p s h =
    let (e, go) = step_forwards f.entries p s h in
    (e, next-step_some (length f.entries) f.entries (forwards p) (forwards (suc p)) e go)

pub next_end :
    (f : DirFile) (p : ℕ)
    → IsSmall f.entries
    → length f.entries ≡ suc p
    → next_of f (forwards (suc p)) ≡ (none, forwards (suc p))
unfolding dir_step step_forward
next_end f p s h =
    let at : add32 (p * 32) step_size ≡ suc p * 32 = omega arith in
    let past : leb (dir_size f.entries) (suc p * 32) ≡ true = ground arith in
    next-step_none (length f.entries) f.entries (forwards (suc p)) (forwards (suc p))
      (rw (at, past) refl)

pub next_backwards :
    (f : DirFile) (q : ℕ)
    → IsSmall f.entries
    → suc q < length f.entries
    → (next_of f (backwards (suc q))).1 ≡ backwards q
unfolding dir_step step_backward check_dir_ent_legality
next_backwards f q s h =
    let away : (suc q * 32 == 0) ≡ false = ground arith in
    let at : sub32 (suc q * 32) step_size ≡ q * 32 = omega arith in
    ap (λ (r : Option DirEnt × DirIter). r.1)
      (next-step_some (length f.entries) f.entries (backwards (suc q)) (backwards q)
        (read_entry f.entries (q * 32)) (rw (away, at) refl))

pub write_inside :
    (fresh : ℕ → DirEnt) (e : DirEnt) (q : ℕ) (f : DirFile) (it : DirIter)
    → it.offset ≡ some (q * 32)
    → q < length f.entries
    → write_to_current_ent fresh e it f ≡ some (record f { entries = set f.entries q e })
unfolding write_to_current_ent extend
write_inside fresh e q f it o h =
    let at : q * 32 / step_size ≡ q = omega arith in
    let room : suc q - length f.entries ≡ 0 = omega arith in rw (o, at, room) refl
