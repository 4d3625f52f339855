-- ===== src/Fs/FdTable/Slots.antt =====
-- The slots of a descriptor table: which are open, and which are holes that may be used again.
use oskernel2023_main_os.Common.{
  Bool, Distinct, List, Option, [], arith, contains, false, get_elem?, if◌then◌else◌, leb, length,
  length-append, length-replicate, ltb, none, refl, replicate, set, some, suc, take, true, zero, ℕ,
  ◌%◌, ◌&&◌, ◌++◌, ◌+◌, ◌<◌, ◌==◌, ◌^◌, ◌||◌, ◌∷◌, ◌≡◌, ◌≢◌, ◌≤◌,
}
use oskernel2023_main_os.Fs.FdTable.{extend, push_range, push_rev_range, retain_below, retain_ne}

module _ {F : Type 0} where
  -- The file at a descriptor, if it is open.
  abbrev pub slot : List (Option F) → ℕ → Option F
  slot [] i = none
  slot (x ∷ xs) zero = x
  slot (x ∷ xs) (suc i) = slot xs i

  -- The descriptor lies in the table and is closed.
  abbrev pub is_hole : List (Option F) → ℕ → Bool
  is_hole [] i = false
  is_hole (none ∷ xs) zero = true
  is_hole (some f ∷ xs) zero = false
  is_hole (x ∷ xs) (suc i) = is_hole xs i

  pub get_elem?-slot :
      (xs : List (Option F)) (i : ℕ) → i < length xs → get_elem? xs i ≡ some (slot xs i)
  get_elem?-slot [] i h = absurd (omega arith)
  get_elem?-slot (x ∷ xs) zero h = refl
  get_elem?-slot (x ∷ xs) (suc i) h = get_elem?-slot xs i (omega arith)

  pub slot_outside : (xs : List (Option F)) (i : ℕ) → length xs ≤ i → slot xs i ≡ none
  slot_outside [] i h = refl
  slot_outside (x ∷ xs) zero h = absurd (omega arith)
  slot_outside (x ∷ xs) (suc i) h = slot_outside xs i (omega arith)

  pub hole_range : (xs : List (Option F)) (i : ℕ) → is_hole xs i ≡ true → i < length xs
  hole_range [] i h = absurd (ground arith)
  hole_range (x ∷ xs) zero h = omega arith
  hole_range (none ∷ xs) (suc i) h = omega (arith, hole_range xs i h)
  hole_range (some f ∷ xs) (suc i) h = omega (arith, hole_range xs i h)

  pub hole_closed : (xs : List (Option F)) (i : ℕ) → is_hole xs i ≡ true → slot xs i ≡ none
  hole_closed [] i h = refl
  hole_closed (none ∷ xs) zero h = refl
  hole_closed (some f ∷ xs) zero h = absurd (ground arith)
  hole_closed (none ∷ xs) (suc i) h = hole_closed xs i h
  hole_closed (some f ∷ xs) (suc i) h = hole_closed xs i h

  pub no_hole_open :
      (xs : List (Option F)) (i : ℕ) → i < length xs → is_hole xs i ≡ false → slot xs i ≢ none
  no_hole_open [] i h k e = omega arith
  no_hole_open (none ∷ xs) zero h k e = cc
  no_hole_open (some f ∷ xs) zero h k e = cc
  no_hole_open (none ∷ xs) (suc i) h k e = no_hole_open xs i (omega arith) k e
  no_hole_open (some f ∷ xs) (suc i) h k e = no_hole_open xs i (omega arith) k e

  pub open_no_hole :
      (xs : List (Option F)) (i : ℕ) (f : F) → slot xs i ≡ some f → is_hole xs i ≡ false
  open_no_hole [] i f e = refl
  open_no_hole (none ∷ xs) zero f e = absurd (ground arith)
  open_no_hole (some g ∷ xs) zero f e = refl
  open_no_hole (none ∷ xs) (suc i) f e = open_no_hole xs i f e
  open_no_hole (some g ∷ xs) (suc i) f e = open_no_hole xs i f e

  pub slot-set :
      (xs : List (Option F)) (i j : ℕ) (x : Option F)
      → i < length xs
      → slot (set xs i x) j ≡ (if i == j then x else slot xs j)
  slot-set [] i j x h = absurd (omega arith)
  slot-set (y ∷ xs) zero zero x h = refl
  slot-set (y ∷ xs) zero (suc j) x h = ground arith
  slot-set (y ∷ xs) (suc i) zero x h = ground arith
  slot-set (y ∷ xs) (suc i) (suc j) x h = ground (arith, slot-set xs i j x)

  pub is_hole-set-some :
      (xs : List (Option F)) (i j : ℕ) (f : F)
      → is_hole (set xs i (some f)) j ≡ (if i == j then false else is_hole xs j)
  is_hole-set-some [] i j f = ground arith
  is_hole-set-some (none ∷ xs) zero zero f = refl
  is_hole-set-some (some g ∷ xs) zero zero f = refl
  is_hole-set-some (none ∷ xs) zero (suc j) f = ground arith
  is_hole-set-some (some g ∷ xs) zero (suc j) f = ground arith
  is_hole-set-some (none ∷ xs) (suc i) zero f = ground arith
  is_hole-set-some (some g ∷ xs) (suc i) zero f = ground arith
  is_hole-set-some (none ∷ xs) (suc i) (suc j) f = ground (arith, is_hole-set-some xs i j f)
  is_hole-set-some (some g ∷ xs) (suc i) (suc j) f = ground (arith, is_hole-set-some xs i j f)

  pub is_hole-set-none :
      (xs : List (Option F)) (i j : ℕ)
      → i < length xs
      → is_hole (set xs i none) j ≡ (if i == j then true else is_hole xs j)
  is_hole-set-none [] i j h = absurd (omega arith)
  is_hole-set-none (none ∷ xs) zero zero h = refl
  is_hole-set-none (some g ∷ xs) zero zero h = refl
  is_hole-set-none (none ∷ xs) zero (suc j) h = ground arith
  is_hole-set-none (some g ∷ xs) zero (suc j) h = ground arith
  is_hole-set-none (none ∷ xs) (suc i) zero h = ground arith
  is_hole-set-none (some g ∷ xs) (suc i) zero h = ground arith
  is_hole-set-none (none ∷ xs) (suc i) (suc j) h = ground (arith, is_hole-set-none xs i j)
  is_hole-set-none (some g ∷ xs) (suc i) (suc j) h = ground (arith, is_hole-set-none xs i j)

  slot-holes :
      (n j : ℕ) (f : F)
      → slot (replicate n none ++ some f ∷ []) j ≡ (if n == j then some f else none)
  slot-holes zero zero f = refl
  slot-holes zero (suc j) f = ground arith
  slot-holes (suc n) zero f = ground arith
  slot-holes (suc n) (suc j) f = ground (arith, slot-holes n j f)

  is_hole-holes : (n j : ℕ) (f : F) → is_hole (replicate n none ++ some f ∷ []) j ≡ ltb j n
  is_hole-holes zero zero f = ground arith
  is_hole-holes zero (suc j) f = ground arith
  is_hole-holes (suc n) zero f = ground arith
  is_hole-holes (suc n) (suc j) f = ground (arith, is_hole-holes n j f)

  pub slot-extend :
      (xs : List (Option F)) (n j : ℕ) (f : F)
      → slot (extend xs n f) j ≡ (if length xs + n == j then some f else slot xs j)
  slot-extend [] n j f = ground (arith, slot-holes n j f)
  slot-extend (x ∷ xs) n zero f = ground arith
  slot-extend (x ∷ xs) n (suc j) f = ground (arith, slot-extend xs n j f)

  pub is_hole-extend :
      (xs : List (Option F)) (n j : ℕ) (f : F)
      → is_hole (extend xs n f) j ≡ (is_hole xs j || (leb (length xs) j && ltb j (length xs + n)))
  is_hole-extend [] n j f = ground (arith, is_hole-holes n j f)
  is_hole-extend (none ∷ xs) n zero f = ground arith
  is_hole-extend (some g ∷ xs) n zero f = ground arith
  is_hole-extend (none ∷ xs) n (suc j) f = ground (arith, is_hole-extend xs n j f)
  is_hole-extend (some g ∷ xs) n (suc j) f = ground (arith, is_hole-extend xs n j f)

  pub length-extend :
      (xs : List (Option F)) (n : ℕ) (f : F) → length (extend xs n f) ≡ length xs + n + 1
  length-extend xs n f = omega (
    arith,
    length-append xs (replicate n none ++ some f ∷ []),
    length-append (replicate {A = Option F} n none) (some f ∷ []),
    length-replicate {A = Option F} n none,
  )

  pub slot-take :
      (n j : ℕ) (xs : List (Option F)) → slot (take n xs) j ≡ (if ltb j n then slot xs j else none)
  slot-take zero j xs = ground arith
  slot-take (suc n) j [] = ground arith
  slot-take (suc n) zero (x ∷ xs) = ground arith
  slot-take (suc n) (suc j) (x ∷ xs) = ground (arith, slot-take n j xs)

  pub is_hole-take :
      (n j : ℕ) (xs : List (Option F)) → is_hole (take n xs) j ≡ (ltb j n && is_hole xs j)
  is_hole-take zero j xs = ground arith
  is_hole-take (suc n) j [] = ground arith
  is_hole-take (suc n) zero (none ∷ xs) = ground arith
  is_hole-take (suc n) zero (some g ∷ xs) = ground arith
  is_hole-take (suc n) (suc j) (none ∷ xs) = ground (arith, is_hole-take n j xs)
  is_hole-take (suc n) (suc j) (some g ∷ xs) = ground (arith, is_hole-take n j xs)

-- The lists of recycled descriptors.
pub contains-retain_ne :
    (pos v : ℕ) (fds : List ℕ)
    → contains (retain_ne pos fds) v ≡ (if pos == v then false else contains fds v)
contains-retain_ne pos v [] = ground arith
contains-retain_ne pos v (fd ∷ fds) = ground (arith, contains-retain_ne pos v fds)

pub retain_ne-Distinct : (pos : ℕ) (fds : List ℕ) → Distinct fds → Distinct (retain_ne pos fds)
retain_ne-Distinct pos [] d = tt
retain_ne-Distinct pos (fd ∷ fds) d =
    ground (arith, retain_ne-Distinct pos fds d.1, contains-retain_ne pos fd fds)

pub contains-retain_below :
    (n v : ℕ) (fds : List ℕ) → contains (retain_below n fds) v ≡ (ltb v n && contains fds v)
contains-retain_below n v [] = ground arith
contains-retain_below n v (fd ∷ fds) = ground (arith, contains-retain_below n v fds)

pub retain_below-Distinct : (n : ℕ) (fds : List ℕ) → Distinct fds → Distinct (retain_below n fds)
retain_below-Distinct n [] d = tt
retain_below-Distinct n (fd ∷ fds) d =
    ground (arith, retain_below-Distinct n fds d.1, contains-retain_below n fd fds)

abbrev in_range : ℕ → ℕ → ℕ → Bool
in_range current n v = leb current v && ltb v (current + n)

pub contains-push_rev_range :
    (n current v : ℕ) (fds : List ℕ)
    → current + n ≤ 256
    → contains (push_rev_range n current fds) v ≡ (contains fds v || in_range current n v)
contains-push_rev_range zero current v fds h = ground arith
contains-push_rev_range (suc n) current v fds h =
    ground (arith, contains-push_rev_range n (current + 1) v fds)

pub push_rev_range-Distinct :
    (n current : ℕ) (fds : List ℕ)
    → current + n ≤ 256
    → Distinct fds
    → ((v : ℕ) → current ≤ v → contains fds v ≡ false)
    → Distinct (push_rev_range n current fds)
push_rev_range-Distinct zero current fds h d out = d
push_rev_range-Distinct (suc n) current fds h d out =
    let rest =
      push_rev_range-Distinct n (current + 1) fds (omega arith) d (λ v k. out v (omega arith)) in
    let same : current % 2 ^ 8 ≡ current = omega arith in
    rw same (
      ground
          (arith, contains-push_rev_range n (current + 1) current fds, out current (omega arith)),
      rest,
    )

pub contains-push_range :
    (n current v : ℕ) (fds : List ℕ)
    → current + n ≤ 256
    → contains (push_range n current fds) v ≡ (contains fds v || in_range current n v)
contains-push_range zero current v fds h = ground arith
contains-push_range (suc n) current v fds h =
    ground (arith, contains-push_range n (current + 1) v ((current % 2 ^ 8) ∷ fds))

pub push_range-Distinct :
    (n current : ℕ) (fds : List ℕ)
    → current + n ≤ 256
    → Distinct fds
    → ((v : ℕ) → current ≤ v → contains fds v ≡ false)
    → Distinct (push_range n current fds)
push_range-Distinct zero current fds h d out = d
push_range-Distinct (suc n) current fds h d out =
    push_range-Distinct n (current + 1) ((current % 2 ^ 8) ∷ fds) (omega arith)
      (ground (arith, out (current % 2 ^ 8)), d) (λ v k. ground (arith, out v))
