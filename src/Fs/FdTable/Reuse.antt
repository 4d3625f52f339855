-- ===== src/Fs/FdTable/Reuse.antt =====
-- `try_insert_at` (fcntl's F_DUPFD): which descriptor it takes, and what it leaves behind.
use mathlib.Core.List.{reverse, reverse-cons}
use oskernel2023_main_os.Common.{
  Bool-cases, List, Option, Option-cases, Result, [], arith, contains, emfile, err, false, inl, inr,
  leb, length, length-set, ltb, none, ok, refl, set, some, sym, true, ℕ, ◌++◌, ◌-◌, ◌<◌, ◌==◌, ◌||◌,
  ◌∙◌, ◌∷◌, ◌≡◌, ◌≢◌, ◌≤◌,
}
use oskernel2023_main_os.Fs.FdTable.{FdTable, find_above, insert, insert_above, try_insert_at}
use oskernel2023_main_os.Fs.FdTable.Slots.{
  get_elem?-slot, hole_closed, hole_range, is_hole, no_hole_open, slot, slot-extend, slot-set,
  slot_outside,
}
use oskernel2023_main_os.Fs.FdTable.Laws.{Inv, Opens, opened}

contains-append :
    (xs ys : List ℕ) (v : ℕ) → contains (xs ++ ys) v ≡ (contains xs v || contains ys v)
contains-append [] ys v = refl
contains-append (x ∷ xs) ys v = ground (arith, contains-append xs ys v)

contains-reverse : (xs : List ℕ) (v : ℕ) → contains (reverse xs) v ≡ contains xs v
contains-reverse [] v = refl
contains-reverse (x ∷ xs) v =
    rw (reverse-cons x xs, contains-append (reverse xs) (x ∷ []) v, contains-reverse xs v)
      (ground arith)

find_above-some :
    (hint fd : ℕ) (fds : List ℕ)
    → find_above hint fds ≡ some fd
    → (hint < fd) × (contains fds fd ≡ true)
find_above-some hint fd [] e = absurd (ground arith)
find_above-some hint fd (x ∷ fds) e = elim (Bool-cases (ltb hint x)) [
  | inl hit ↦ ground arith
  | inr miss ↦
      let rest : find_above hint fds ≡ some fd = ground arith in
      let (h, m) = find_above-some hint fd fds rest in (h, ground arith)
]

find_above-none :
    (hint v : ℕ) (fds : List ℕ) → find_above hint fds ≡ none → hint < v → contains fds v ≡ false
find_above-none hint v [] e h = refl
find_above-none hint v (x ∷ fds) e h = ground (arith, find_above-none hint v fds)

module _ {F : Type 0} where
  -- What `try_insert_at` may do at `hint`: open the file at a closed descriptor from `hint` on, or,
  -- with none of those below the soft limit closed, answer EMFILE.
  abbrev pub TryInserted : FdTable F → F → ℕ → Option (Result ℕ × FdTable F) → Type 0
  TryInserted t f hint none = ⊥
  TryInserted t f hint (some (ok fd, t')) =
      (opened t fd ≡ none) × (hint ≤ fd) × (fd < t.soft_limit) × Opens t fd f t'
  TryInserted t f hint (some (err e, t')) =
      (e ≡ emfile) × (t' ≡ t) × ((j : ℕ) → hint ≤ j → j < t.soft_limit → opened t j ≢ none)

  above_some :
      (t : FdTable F) (f : F) (hint fd : ℕ)
      → Inv t
      → find_above hint (reverse t.recycled) ≡ some fd
      → (fd < length t.inner)
        × (is_hole t.inner fd ≡ true)
        × (hint < fd)
        × (insert_above t f hint ≡ some (ok fd, record t { inner = set t.inner fd (some f) }))
  unfolding insert_above
  above_some t f hint fd v e =
      let (h, m) = find_above-some hint fd (reverse t.recycled) e in
      let hole : is_hole t.inner fd ≡ true =
        sym (v.exact fd) ∙ sym (contains-reverse t.recycled fd) ∙ m in
      let here = hole_range t.inner fd hole in
      let test : ltb fd (length t.inner) ≡ true = ground arith in
      (here, hole, h, rw (e, insert_above) (rw (test, insert_above)))

  insert_above-TryInserted :
      (t : FdTable F) (f g : F) (hint : ℕ)
      → Inv t
      → opened t hint ≡ some g
      → TryInserted t f hint (insert_above t f hint)
  unfolding insert_above
  insert_above-TryInserted t f g hint v busy =
      elim (Option-cases (find_above hint (reverse t.recycled))) [
        | inr (fd, e) ↦
            let (here, hole, h, out) = above_some t f hint fd v e in
            rw out (
              hole_closed t.inner fd hole,
              omega arith,
              omega (arith, v.within),
              λ j. slot-set t.inner fd j (some f) here,
            )
        | inl e ↦
            let none_above : (j : ℕ) → hint < j → is_hole t.inner j ≡ false = λ j h.
              sym (v.exact j)
              ∙ sym (contains-reverse t.recycled j)
              ∙ find_above-none hint j (reverse t.recycled) e h in
            elim (Bool-cases (length t.inner == t.soft_limit)) [
              | inl full ↦
                  rw (e, full, insert_above, TryInserted)
                    (
                      refl,
                      refl,
                      λ j h k. elim (Bool-cases (hint == j)) [
                        | inl same ↦ ground arith
                        | inr other ↦
                            no_hole_open t.inner j (ground arith) (none_above j (ground arith))
                      ],
                    )
              | inr room ↦
                  rw (e, room, insert_above, TryInserted)
                    (
                      slot_outside t.inner (length t.inner) (omega arith),
                      ground (arith, slot_outside t.inner hint),
                      ground (arith, v.within),
                      λ j. ground (arith, slot-extend t.inner 0 j f),
                    )
            ]
      ]

  -- Under the invariant `try_insert_at` does not panic. It opens the file at a descriptor from the
  -- hint on, below the soft limit, that was closed, and changes no other descriptor; or, if every
  -- such descriptor is open, it answers EMFILE and changes nothing.
  pub try_insert_at-TryInserted :
      (t : FdTable F) (f : F) (hint : ℕ) → Inv t → TryInserted t f hint (try_insert_at t f hint)
  unfolding try_insert_at
  try_insert_at-TryInserted t f hint v = elim (Bool-cases (leb t.soft_limit hint)) [
    | inl out ↦ rw (out, TryInserted) (refl, refl, λ j h k. absurd (ground arith))
    | inr low ↦ elim (Bool-cases (ltb hint (length t.inner))) [
      | inl here ↦
          let index = get_elem?-slot t.inner hint (ground arith) in
          elim (Option-cases (slot t.inner hint)) [
            | inl closed ↦
                rw (low, here, index, closed, TryInserted)
                  (
                    closed,
                    omega arith,
                    ground arith,
                    λ j. slot-set t.inner hint j (some f) (ground arith),
                  )
            | inr (g, busy) ↦
                rw (low, here, index, busy) (insert_above-TryInserted t f g hint v busy)
          ]
      | inr beyond ↦
          rw (low, beyond, TryInserted)
            (
              slot_outside t.inner hint (ground arith),
              omega arith,
              ground arith,
              λ j. ground (arith, slot-extend t.inner (hint - length t.inner) j f),
            )
    ]
  ]

  -- Under the invariant, if the hint is an open descriptor below the soft limit and the descriptor
  -- found above it is the one that was recycled last, `try_insert_at` opens the file there, and the
  -- next `insert` opens its file at the same descriptor, in place of the first.
  pub try_insert_at_reused :
      (t : FdTable F) (f g old : F) (hint fd : ℕ) (rest : List ℕ)
      → Inv t
      → opened t hint ≡ some old
      → hint < t.soft_limit
      → t.recycled ≡ fd ∷ rest
      → find_above hint (reverse t.recycled) ≡ some fd
      → (t' : FdTable F) × (t'' : FdTable F) × (try_insert_at t f hint ≡ some (ok fd, t'))
        × (opened t' fd ≡ some f)
        × (insert t' g ≡ some (ok fd, t''))
        × (opened t'' fd ≡ some g)
  unfolding try_insert_at insert
  try_insert_at_reused t f g old hint fd rest v busy low top found =
      let (here, hole, h, out) = above_some t f hint fd v found in
      let inside : hint < length t.inner = ground (arith, slot_outside t.inner hint) in
      let t' : FdTable F = record t { inner = set t.inner fd (some f) } in
      let len = length-set t.inner fd (some f) in
      let there : ltb fd (length (set t.inner fd (some f))) ≡ true = ground arith in
      let not_out : leb t.soft_limit hint ≡ false = ground arith in
      let is_in : ltb hint (length t.inner) ≡ true = ground arith in
      (
        t',
        record t' { inner = set t'.inner fd (some g); recycled = rest },
        rw (not_out, is_in, get_elem?-slot t.inner hint inside, busy) out,
        ground (arith, slot-set t.inner fd fd (some f) here),
        rw (top, there),
        ground (arith, slot-set t'.inner fd fd (some g)),
      )
