-- ===== src/Fs/PageCache/Runs.antt =====
-- `read_in` and `write_back` against transfers block by block.
use oskernel2023_main_os.Common.{
  All, Bool-cases, List, [], add64, ap, append-nil, append_assoc, arith, get_or, inl, inr, length,
  refl, set, suc, sym, true, zero, ℕ, ◌++◌, ◌+◌, ◌<◌, ◌==◌, ◌∙◌, ◌∷◌, ◌≡◌, ◌≤◌,
}
use oskernel2023_main_os.Fs.Cache.{Block, Disk, no_block, write_block}
use oskernel2023_main_os.Fs.PageCache.{read_loop, read_run, write_loop, write_run}

abbrev range : ℕ → ℕ → List ℕ
range start zero = []
range start (suc n) = start ∷ range (start + 1) n

length-range : (start n : ℕ) → length (range start n) ≡ n
length-range start zero = refl
length-range start (suc n) = ap suc (length-range (start + 1) n)

range-snoc : (start n : ℕ) → range start (n + 1) ≡ range start n ++ ((start + n) ∷ [])
range-snoc start zero = let e : start + 0 ≡ start = omega arith in rw e refl
range-snoc start (suc n) =
    let e : start + suc n ≡ start + 1 + n = omega arith in
    let s : suc n + 1 ≡ suc (n + 1) = omega arith in
    rw (e, s) (ap (◌∷◌ start) (range-snoc (start + 1) n))

-- Each block by itself
abbrev pub read_each : Disk → ℕ → List ℕ → List Block → List Block
read_each disk at [] page = page
read_each disk at (id ∷ ids) page = read_each disk (at + 1) ids (set page at (disk id))

abbrev pub write_each : List Block → ℕ → List ℕ → Disk → Disk
write_each page at [] disk = disk
write_each page at (id ∷ ids) disk =
    write_each page (at + 1) ids (write_block disk id (get_or page at []))

read_run-each :
    (disk : Disk) (start at n : ℕ) (page : List Block)
    → read_run disk start at n page ≡ read_each disk at (range start n) page
unfolding read_run
read_run-each disk start at zero page = refl
read_run-each disk start at (suc n) page =
    read_run-each disk (start + 1) (at + 1) n (set page at (disk start))

write_run-each :
    (page : List Block) (start at n : ℕ) (disk : Disk)
    → write_run page start at n disk ≡ write_each page at (range start n) disk
unfolding write_run
write_run-each page start at zero disk = refl
write_run-each page start at (suc n) disk =
    write_run-each page (start + 1) (at + 1) n (write_block disk start (get_or page at []))

read_each-append :
    (disk : Disk) (at : ℕ) (xs ys : List ℕ) (page : List Block)
    → read_each disk at (xs ++ ys) page
      ≡ read_each disk (at + length xs) ys (read_each disk at xs page)
read_each-append disk at [] ys page = let e : at + 0 ≡ at = omega arith in rw e refl
read_each-append disk at (x ∷ xs) ys page =
    let e : at + suc (length xs) ≡ at + 1 + length xs = omega arith in
    rw e (read_each-append disk (at + 1) xs ys (set page at (disk x)))

write_each-append :
    (page : List Block) (at : ℕ) (xs ys : List ℕ) (disk : Disk)
    → write_each page at (xs ++ ys) disk
      ≡ write_each page (at + length xs) ys (write_each page at xs disk)
write_each-append page at [] ys disk = let e : at + 0 ≡ at = omega arith in rw e refl
write_each-append page at (x ∷ xs) ys disk =
    let e : at + suc (length xs) ≡ at + 1 + length xs = omega arith in
    rw e (write_each-append page (at + 1) xs ys (write_block disk x (get_or page at [])))

-- A run that goes on, or ends before the next block
run_on :
    (start con id : ℕ) (ids : List ℕ)
    → id ≡ start + con
    → range start (con + 1) ++ ids ≡ range start con ++ (id ∷ ids)
run_on start con id ids e =
    rw (range-snoc start con, sym e) (append_assoc (range start con) (id ∷ []) ids)

run_at :
    (start con id : ℕ)
    → start + con ≤ no_block
    → id < no_block
    → (id == add64 start con) ≡ true
    → id ≡ start + con
run_at start con id h k e = ground arith

read_gap :
    (disk : Disk) (start at con : ℕ) (ids : List ℕ) (page : List Block)
    → read_each disk (at + con) ids (read_run disk start at con page)
      ≡ read_each disk at (range start con ++ ids) page
read_gap disk start at con ids page =
    ap (λ p. read_each disk (at + con) ids p) (read_run-each disk start at con page)
    ∙ ap (λ n. read_each disk (at + n) ids (read_each disk at (range start con) page))
        (sym (length-range start con))
    ∙ sym (read_each-append disk at (range start con) ids page)

write_gap :
    (page : List Block) (start at con : ℕ) (ids : List ℕ) (disk : Disk)
    → write_each page (at + con) ids (write_run page start at con disk)
      ≡ write_each page at (range start con ++ ids) disk
write_gap page start at con ids disk =
    ap (λ d. write_each page (at + con) ids d) (write_run-each page start at con disk)
    ∙ ap (λ n. write_each page (at + n) ids (write_each page at (range start con) disk))
        (sym (length-range start con))
    ∙ sym (write_each-append page at (range start con) ids disk)

pub read_loop_lem :
    (disk : Disk) (start at con : ℕ) (ids : List ℕ) (page : List Block)
    → start + con ≤ no_block
    → All (λ id. id < no_block) ids
    → read_loop disk start at con ids page ≡ read_each disk at (range start con ++ ids) page
unfolding read_loop
read_loop_lem disk start at con [] page h k =
    rw (append-nil (range start con)) (read_run-each disk start at con page)
read_loop_lem disk start at con (id ∷ ids) page h k = elim (Bool-cases (con == 0)) [
  | inl first ↦
      let z : con ≡ 0 = ground arith in
      rw (first, z) (read_loop_lem disk id at 1 ids page (ground (arith, k.0)) k.1)
  | inr later ↦ elim (Bool-cases (id == add64 start con)) [
    | inl on ↦
        let e : id ≡ start + con = run_at start con id h k.0 on in
        rw (later, on)
          (read_loop_lem disk start at (con + 1) ids page (ground (arith, k.0, e)) k.1
            ∙ ap (λ r. read_each disk at r page) (run_on start con id ids e))
    | inr gap ↦
        rw (later, gap)
          (read_loop_lem disk id (at + con) 1 ids (read_run disk start at con page)
              (ground (arith, k.0)) k.1
            ∙ read_gap disk start at con (id ∷ ids) page)
  ]
]

pub write_loop_lem :
    (page : List Block) (start at con : ℕ) (ids : List ℕ) (disk : Disk)
    → start + con ≤ no_block
    → All (λ id. id < no_block) ids
    → write_loop page start at con ids disk ≡ write_each page at (range start con ++ ids) disk
unfolding write_loop
write_loop_lem page start at con [] disk h k =
    rw (append-nil (range start con)) (write_run-each page start at con disk)
write_loop_lem page start at con (id ∷ ids) disk h k = elim (Bool-cases (con == 0)) [
  | inl first ↦
      let z : con ≡ 0 = ground arith in
      rw (first, z) (write_loop_lem page id at 1 ids disk (ground (arith, k.0)) k.1)
  | inr later ↦ elim (Bool-cases (id == add64 start con)) [
    | inl on ↦
        let e : id ≡ start + con = run_at start con id h k.0 on in
        rw (later, on)
          (write_loop_lem page start at (con + 1) ids disk (ground (arith, k.0, e)) k.1
            ∙ ap (λ r. write_each page at r disk) (run_on start con id ids e))
    | inr gap ↦
        rw (later, gap)
          (write_loop_lem page id (at + con) 1 ids (write_run page start at con disk)
              (ground (arith, k.0)) k.1
            ∙ write_gap page start at con (id ∷ ids) disk)
  ]
]
