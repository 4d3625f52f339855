-- ===== src/Fs/FdTable/Laws.antt =====
-- The invariant of the descriptor table, and what each operation does to the open descriptors.
use oskernel2023_main_os.Common.{
  Bool-cases, Distinct, List, Option, Option-cases, Result, [], arith, contains, ebadf, emfile, err,
  false, if◌then◌else◌, inl, inr, leb, length, length-append, length-set, length-take, ltb, none,
  ok, refl, set, some, sym, true, ℕ, ◌%◌, ◌&&◌, ◌++◌, ◌+◌, ◌-◌, ◌<◌, ◌==◌, ◌^◌, ◌||◌, ◌∙◌, ◌∷◌, ◌≡◌,
  ◌≢◌, ◌≤◌, ◌⊎◌,
}
use oskernel2023_main_os.Fs.FdTable.{
  FdTable, extend, get_ref, insert, insert_at, push_rev_range, remove, set_soft_limit,
}
use oskernel2023_main_os.Fs.FdTable.Slots.{
  contains-push_rev_range, contains-retain_below, contains-retain_ne, get_elem?-slot, hole_closed,
  hole_range, is_hole, is_hole-extend, is_hole-set-none, is_hole-set-some, is_hole-take,
  length-extend, no_hole_open, open_no_hole, push_rev_range-Distinct, retain_below-Distinct,
  retain_ne-Distinct, slot, slot-extend, slot-set, slot-take, slot_outside,
}

module _ {F : Type 0} where
  -- The file that is open at a descriptor.
  abbrev pub opened : FdTable F → ℕ → Option F
  opened t fd = slot t.inner fd

  -- The recycled descriptors are the closed ones of the table, each once; a descriptor is a byte.
  pub record Inv (t : FdTable F) : Type 0 where
    pub exact : (fd : ℕ) → contains t.recycled fd ≡ is_hole t.inner fd
    pub distinct : Distinct t.recycled
    pub within : length t.inner ≤ t.soft_limit
    pub small : t.soft_limit ≤ 2 ^ 8

  -- The table differs from `t` at most in `fd`, where `f` is open.
  abbrev pub Opens : FdTable F → ℕ → F → FdTable F → Type 0
  Opens t fd f t' = (j : ℕ) → opened t' j ≡ (if fd == j then some f else opened t j)

  -- `get_ref` finds the file that is open at a descriptor, and answers EBADF for any other.
  pub get_ref-opened :
      (t : FdTable F) (fd : ℕ)
      → get_ref t fd ≡ (elim (opened t fd) [ none ↦ err ebadf | some f ↦ ok f ])
  unfolding get_ref
  get_ref-opened t fd = elim (Bool-cases (leb (length t.inner) fd)) [
    | inl out ↦ rw (out, slot_outside t.inner fd (ground arith))
    | inr here ↦ rw (here, get_elem?-slot t.inner fd (ground arith)) (ground arith)
  ]

  remove_open :
      (t : FdTable F) (fd : ℕ) (f : F)
      → opened t fd ≡ some f
      → (fd < length t.inner)
        × (remove t fd ≡ (
          ok f,
          record t { inner = set t.inner fd none; recycled = (fd % 2 ^ 8) ∷ t.recycled },
        ))
  unfolding remove
  remove_open t fd f e =
      let here : fd < length t.inner = ground (arith, slot_outside t.inner fd) in
      (here, ground (arith, get_elem?-slot t.inner fd here))

  remove_closed : (t : FdTable F) (fd : ℕ) → opened t fd ≡ none → remove t fd ≡ (err ebadf, t)
  unfolding remove
  remove_closed t fd e = ground (arith, get_elem?-slot t.inner fd)

  -- Under the invariant `remove` of an open descriptor returns its file and closes that descriptor
  -- alone; of any other it answers EBADF and changes nothing. It keeps the invariant.
  pub remove_lem :
      (t : FdTable F) (fd : ℕ)
      → Inv t
      → ((f : F) × (t' : FdTable F) × (opened t fd ≡ some f)
          × (remove t fd ≡ (ok f, t'))
          × ((j : ℕ) → opened t' j ≡ (if fd == j then none else opened t j))
          × Inv t')
        ⊎ ((opened t fd ≡ none) × (remove t fd ≡ (err ebadf, t)))
  remove_lem t fd v = elim (Option-cases (opened t fd)) [
    | inl e ↦ inr (e, remove_closed t fd e)
    | inr (f, e) ↦
        let (here, out) = remove_open t fd f e in
        let byte : fd % 2 ^ 8 ≡ fd = omega (arith, v.within, v.small) in
        inl (
          f,
          record t { inner = set t.inner fd none; recycled = (fd % 2 ^ 8) ∷ t.recycled },
          e,
          out,
          (λ j. slot-set t.inner fd j none here),
          rw byte (record {
            exact = λ j. ground (arith, v.exact j, is_hole-set-none t.inner fd j here);
            distinct = (v.exact fd ∙ open_no_hole t.inner fd f e, v.distinct);
            within = omega (arith, v.within, length-set {A = Option F} t.inner fd none);
            small = v.small;
          }),
        )
  ]

  -- What a call that opens `f` at a descriptor of its choice may do: open it at a descriptor that
  -- was closed, or, with every descriptor below the limit open, answer EMFILE.
  abbrev pub Inserted : FdTable F → F → Option (Result ℕ × FdTable F) → Type 0
  Inserted t f none = ⊥
  Inserted t f (some (ok fd, t')) =
      (opened t fd ≡ none) × (fd < t.soft_limit) × Opens t fd f t' × Inv t'
  Inserted t f (some (err e, t')) =
      (e ≡ emfile) × (t' ≡ t) × ((j : ℕ) → j < t.soft_limit → opened t j ≢ none)

  insert_parts :
      (inner : List (Option F)) (fds : List ℕ) (soft hard : ℕ) (f : F)
      → let t : FdTable F = record {
        inner = inner;
        recycled = fds;
        soft_limit = soft;
        hard_limit = hard;
      } in
        Inv t → Inserted t f (insert t f)
  unfolding insert
  insert_parts inner [] soft hard f v = elim (Bool-cases (length inner == soft)) [
    | inl full ↦ rw full (refl, refl, λ j h. no_hole_open inner j (ground arith) (sym (v.exact j)))
    | inr room ↦
        let length_next : length (inner ++ some f ∷ []) ≡ length inner + 1 =
          length-append inner (some f ∷ []) in
        rw room (
          slot_outside inner (length inner) (omega arith),
          ground (arith, v.within),
          (λ j. ground (arith, slot-extend inner 0 j f)),
          record {
            exact = λ j. ground (arith, v.exact j, is_hole-extend inner 0 j f);
            distinct = tt;
            within = ground (arith, v.within, length_next);
            small = v.small;
          },
        )
  ]
  insert_parts inner (fd ∷ fds) soft hard f v =
      let hole : is_hole inner fd ≡ true = ground (arith, v.exact fd) in
      let here = hole_range inner fd hole in
      let test : ltb fd (length inner) ≡ true = ground arith in
      rw (test, Inserted)
        (
          hole_closed inner fd hole,
          omega (arith, here, v.within),
          (λ j. slot-set inner fd j (some f) here),
          record {
            exact = λ j. ground (arith, v.exact j, v.distinct, is_hole-set-some inner fd j f);
            distinct = v.distinct.1;
            within = omega (arith, v.within, length-set inner fd (some f));
            small = v.small;
          },
        )

  -- Under the invariant `insert` does not panic; it opens the file at a descriptor below the soft
  -- limit that was closed, changes no other descriptor and keeps the invariant, or, if every
  -- descriptor below the limit is open, answers EMFILE and changes nothing.
  pub insert-Inserted : (t : FdTable F) (f : F) → Inv t → Inserted t f (insert t f)
  insert-Inserted t f v = insert_parts t.inner t.recycled t.soft_limit t.hard_limit f v

  -- What `insert_at` may do at `pos`: open the file there, or refuse a descriptor that lies beyond
  -- the table and the soft limit.
  abbrev pub InsertedAt : FdTable F → F → ℕ → Result ℕ × FdTable F → Type 0
  InsertedAt t f pos (ok fd, t') = (fd ≡ pos) × Opens t pos f t' × Inv t'
  InsertedAt t f pos (err e, t') = (e ≡ emfile) × (t' ≡ t) × (t.soft_limit ≤ pos)

  insert_inside :
      (t : FdTable F) (f : F) (pos : ℕ)
      → Inv t
      → pos < length t.inner
      → InsertedAt t f pos (insert_at t f pos)
  unfolding insert_at
  insert_inside t f pos v here =
      let test : ltb pos (length t.inner) ≡ true = ground arith in
      let len = length-set t.inner pos (some f) in
      rw (test, get_elem?-slot t.inner pos here)
        (elim (Option-cases (slot t.inner pos)) [
          | inl closed ↦ rw closed (
            refl,
            (λ j. slot-set t.inner pos j (some f) here),
            record {
              exact = λ j. ground (
                arith,
                v.exact j,
                contains-retain_ne pos j t.recycled,
                is_hole-set-some t.inner pos j f,
              );
              distinct = retain_ne-Distinct pos t.recycled v.distinct;
              within = omega (arith, v.within, len);
              small = v.small;
            },
          )
          | inr (g, busy) ↦
              let solid = open_no_hole t.inner pos g busy in
              rw busy (
                refl,
                (λ j. slot-set t.inner pos j (some f) here),
                record {
                  exact = λ j. ground (arith, v.exact j, solid, is_hole-set-some t.inner pos j f);
                  distinct = v.distinct;
                  within = omega (arith, v.within, len);
                  small = v.small;
                },
              )
        ])

  recycled_below :
      (t : FdTable F) → Inv t → (v : ℕ) → length t.inner ≤ v → contains t.recycled v ≡ false
  recycled_below t v w h = ground (arith, v.exact w, hole_range t.inner w)

  grown-Inv :
      (t : FdTable F) (f : F) (pos : ℕ) (fds : List ℕ)
      → Inv t
      → length t.inner ≤ pos
      → pos < t.soft_limit
      → Distinct fds
      → ((v : ℕ)
          → contains fds v ≡ (
              contains t.recycled v
              || (leb (length t.inner) v && ltb v (length t.inner + (pos - length t.inner)))))
      → Opens t pos f (record t { inner = extend t.inner (pos - length t.inner) f; recycled = fds })
        × Inv (record t { inner = extend t.inner (pos - length t.inner) f; recycled = fds })
  grown-Inv t f pos fds v h k d same = (
    (λ j. ground (arith, slot-extend t.inner (pos - length t.inner) j f)),
    record {
      exact =
          λ j. ground (arith, v.exact j, same j, is_hole-extend t.inner (pos - length t.inner) j f);
      distinct = d;
      within = omega (arith, length-extend t.inner (pos - length t.inner) f);
      small = v.small;
    },
  )

  insert_outside :
      (t : FdTable F) (f : F) (pos : ℕ)
      → Inv t
      → length t.inner ≤ pos
      → InsertedAt t f pos (insert_at t f pos)
  unfolding insert_at
  insert_outside t f pos v out =
      let test : ltb pos (length t.inner) ≡ false = ground arith in
      let n = pos - length t.inner in
      rw test (elim (Bool-cases (leb t.soft_limit pos)) [
        | inl refused ↦ rw refused (refl, refl, ground arith)
        | inr room ↦
            let bytes : length t.inner + n ≤ 256 = ground (arith, v.small) in
            let (opens, v') =
              grown-Inv t f pos (push_rev_range n (length t.inner) t.recycled) v out (ground arith)
                (push_rev_range-Distinct n (length t.inner) t.recycled bytes v.distinct
                  (recycled_below t v))
                (λ w. contains-push_rev_range n (length t.inner) w t.recycled bytes) in
            rw room (refl, opens, v')
      ])

  -- Under the invariant `insert_at` opens the file at `pos`, in place of what may be open there,
  -- changes no other descriptor and keeps the invariant, or, if `pos` is at or beyond the soft
  -- limit, answers EMFILE and changes nothing.
  pub insert_at-InsertedAt :
      (t : FdTable F) (f : F) (pos : ℕ) → Inv t → InsertedAt t f pos (insert_at t f pos)
  insert_at-InsertedAt t f pos v = elim (Bool-cases (ltb pos (length t.inner))) [
    | inl here ↦ insert_inside t f pos v (ground arith)
    | inr out ↦ insert_outside t f pos v (ground arith)
  ]

  -- Under the invariant a new soft limit of at most 256 closes the descriptors at or beyond it,
  -- changes no other, and keeps the invariant.
  pub set_soft_limit_lem :
      (t : FdTable F) (limit : ℕ)
      → Inv t
      → limit ≤ 2 ^ 8
      → Inv (set_soft_limit t limit)
        × ((j : ℕ) → opened (set_soft_limit t limit) j ≡ (if ltb j limit then opened t j else none))
  unfolding set_soft_limit
  set_soft_limit_lem t limit v h = elim (Bool-cases (ltb limit (length t.inner))) [
    | inl cut ↦ rw cut (
      record {
        exact = λ j. ground (
          arith,
          v.exact j,
          contains-retain_below limit j t.recycled,
          is_hole-take limit j t.inner,
        );
        distinct = retain_below-Distinct limit t.recycled v.distinct;
        within = omega (arith, length-take limit t.inner);
        small = h;
      },
      λ j. slot-take limit j t.inner,
    )
    | inr keep ↦ rw keep (
      record { exact = v.exact; distinct = v.distinct; within = ground arith; small = h },
      λ j. ground (arith, slot_outside t.inner j),
    )
  ]
