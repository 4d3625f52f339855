-- ===== src/Mm/PageTable/Grow.antt =====
-- What linking a fresh page into the tree does: at an entry of the root, or of a page of the second
-- level. Either way no valid entry of the last level appears or goes.
use oskernel2023_main_os.Common.{
  Bool-cases, List, Option-cases, ap, arith, contains, false, if◌then◌else◌, inl, inr, none, some,
  sym, true, ℕ, ◌&&◌, ◌<◌, ◌==◌, ◌^◌, ◌∙◌, ◌∷◌, ◌≡◌, ◌≢◌, ◌⊎◌,
}
use oskernel2023_main_os.Mm.PageTable.{Memory, clear_page, entry, flag_v}
use oskernel2023_main_os.Mm.PageTable.Entries.{entry_lem, is_valid_lem}
use oskernel2023_main_os.Mm.PageTable.Tree.{
  WellFormed, child, child-clear_page, child-write, leaf, linked, second, third, valid_entry,
}

child-linked :
    (mem : Memory) (fresh page idx p i : ℕ)
    → fresh < 2 ^ 44
    → child (linked mem fresh page idx) p i
      ≡ (if page == p && idx == i then some fresh else if fresh == p then none else child mem p i)
child-linked mem fresh page idx p i small =
    let (e, _, v) = entry_lem fresh flag_v small (omega arith) in
    ground (
      arith,
      child-write (clear_page mem fresh) page idx (entry fresh flag_v) p i,
      child-clear_page mem fresh p i,
      e,
      v,
    )

entry-linked_other :
    (mem : Memory) (fresh page idx p k : ℕ)
    → page ≢ p
    → fresh ≢ p
    → valid_entry (linked mem fresh page idx) p k ≡ valid_entry mem p k
entry-linked_other mem fresh page idx p k h h' = ground arith

entry-linked_fresh :
    (mem : Memory) (fresh page idx k : ℕ)
    → page ≢ fresh
    → valid_entry (linked mem fresh page idx) fresh k ≡ none
entry-linked_fresh mem fresh page idx k h = ground (arith, is_valid_lem 0)

module _ (mem : Memory) (root : ℕ) (pages : List ℕ) (wf : WellFormed mem root pages) (fresh : ℕ)
    (small : fresh < 2 ^ 44) (unused : contains pages fresh ≡ false) where
  not_fresh : (p : ℕ) → contains pages p ≡ true → fresh ≢ p
  not_fresh p h = ground arith

  in_pages : (p : ℕ) → contains pages p ≡ true → contains (fresh ∷ pages) p ≡ true
  in_pages p h = ground arith

  -- At the entry `i` of the root, which is not valid.
  module _ (i : ℕ) (missing : second mem root i ≡ none) where
    abbrev mem_root : Memory
    mem_root = linked mem fresh root i

    pub second-root :
        (a : ℕ) → second mem_root root a ≡ (if i == a then some fresh else second mem root a)
    second-root a =
        ground (arith, child-linked mem fresh root i root a small, not_fresh root wf.root_in)

    pub third-root : (a b : ℕ) → third mem_root root a b ≡ third mem root a b
    unfolding third
    third-root a b = elim (Bool-cases (i == a)) [
      | inl same ↦
          let absent : second mem root a ≡ none = ground (arith, missing) in
          let found : second mem_root root a ≡ some fresh = ground (arith, second-root a) in
          rw (found, absent)
            (ground (arith, child-linked mem fresh root i fresh b small, not_fresh root wf.root_in))
      | inr other ↦
          let kept : second mem_root root a ≡ second mem root a = ground (arith, second-root a) in
          elim (Option-cases (second mem root a)) [
            | inl e ↦ rw (kept, e)
            | inr (p, e) ↦
                let (in_p, ne) = wf.second_in a p e in
                rw (kept, e)
                  (ground (arith, child-linked mem fresh root i p b small, not_fresh p in_p, ne))
          ]
    ]

    pub leaf-root : (a b c : ℕ) → leaf mem_root root a b c ≡ leaf mem root a b c
    unfolding leaf
    leaf-root a b c = elim (Option-cases (third mem root a b)) [
      | inl e ↦ rw (third-root a b, e)
      | inr (p, e) ↦
          let (in_p, ne) = wf.third_in a b p e in
          rw (third-root a b, e)
            (entry-linked_other mem fresh root i p c (λ q. ne (sym q)) (not_fresh p in_p))
    ]

    second_source :
        (a p : ℕ)
        → second mem_root root a ≡ some p
        → ((i ≡ a) × (p ≡ fresh)) ⊎ (second mem root a ≡ some p)
    second_source a p e = elim (Bool-cases (i == a)) [
      | inl same ↦ inl (ground (arith, second-root a))
      | inr other ↦ inr (ground (arith, second-root a))
    ]

    pub WellFormed-root : WellFormed mem_root root (fresh ∷ pages)
    WellFormed-root = record {
      root_in = in_pages root wf.root_in;
      second_in = λ a p e. elim (second_source a p e) [
        | inl (_, q) ↦ ground (arith, not_fresh root wf.root_in)
        | inr old ↦ let (u, v) = wf.second_in a p old in (in_pages p u, v)
      ];
      second_once = λ a b p e f. elim (second_source a p e) [
        | inl (x, q) ↦ elim (second_source b p f) [
          | inl (y, _) ↦ sym x ∙ y
          | inr old ↦ let (u, _) = wf.second_in b p old in absurd (not_fresh p u (sym q))
        ]
        | inr old ↦ elim (second_source b p f) [
          | inl (_, q) ↦ let (u, _) = wf.second_in a p old in absurd (not_fresh p u (sym q))
          | inr old' ↦ wf.second_once a b p old old'
        ]
      ];
      third_in =
          λ a b p e. let (u, v) = wf.third_in a b p (sym (third-root a b) ∙ e) in (in_pages p u, v);
      third_once = λ a b c d p e f.
          wf.third_once a b c d p (sym (third-root a b) ∙ e) (sym (third-root c d) ∙ f);
      levels_apart = λ a b c p e f.
          let e' = sym (third-root a b) ∙ e in
          elim (second_source c p f) [
            | inl (_, q) ↦ not_fresh p (wf.third_in a b p e').0 (sym q)
            | inr old ↦ wf.levels_apart a b c p e' old
          ];
    }

  -- At the entry `j` of a page of the second level, which is not valid.
  module _ (i j page : ℕ) (above : second mem root i ≡ some page)
      (missing : third mem root i j ≡ none) where
    abbrev mem_page : Memory
    mem_page = linked mem fresh page j

    page_not_root : page ≢ root
    page_not_root = (wf.second_in i page above).1

    page_not_fresh : fresh ≢ page
    page_not_fresh = not_fresh page (wf.second_in i page above).0

    pub second-page : (a : ℕ) → second mem_page root a ≡ second mem root a
    second-page a = ground (
      arith,
      child-linked mem fresh page j root a small,
      not_fresh root wf.root_in,
      page_not_root,
    )

    pub third-page :
        (a b : ℕ)
        → third mem_page root a b ≡ (if i == a && j == b then some fresh else third mem root a b)
    unfolding third
    third-page a b = elim (Option-cases (second mem root a)) [
      | inl e ↦ rw (second-page a, e) (ground (arith, above, e))
      | inr (p, e) ↦
          let in_p = (wf.second_in a p e).0 in
          rw (second-page a, e)
            (elim (Bool-cases (page == p)) [
              | inl same ↦
                  let at : second mem root a ≡ some page = e ∙ ap some (ground arith) in
                  let once = wf.second_once i a page above at in
                  ground (arith, child-linked mem fresh page j p b small, not_fresh p in_p, once)
              | inr other ↦
                  let differs : (i == a) ≡ false = ground (arith, above, e) in
                  rw differs
                    (ground (arith, child-linked mem fresh page j p b small, not_fresh p in_p))
            ])
    ]

    pub leaf-page : (a b c : ℕ) → leaf mem_page root a b c ≡ leaf mem root a b c
    unfolding leaf
    leaf-page a b c = elim (Bool-cases (i == a && j == b)) [
      | inl same ↦
          let found : third mem_page root a b ≡ some fresh = ground (arith, third-page a b) in
          let absent : third mem root a b ≡ none = ground (arith, missing) in
          rw (found, absent) (entry-linked_fresh mem fresh page j c (λ e. page_not_fresh (sym e)))
      | inr other ↦
          let kept : third mem_page root a b ≡ third mem root a b =
            ground (arith, third-page a b) in
          elim (Option-cases (third mem root a b)) [
            | inl e ↦ rw (kept, e)
            | inr (p, e) ↦
                rw (kept, e)
                  (entry-linked_other mem fresh page j p c
                    (λ q. wf.levels_apart a b i page (e ∙ ap some (sym q)) above)
                    (not_fresh p (wf.third_in a b p e).0))
          ]
    ]

    third_source :
        (a b p : ℕ)
        → third mem_page root a b ≡ some p
        → ((i ≡ a) × (j ≡ b) × (p ≡ fresh)) ⊎ (third mem root a b ≡ some p)
    third_source a b p e = elim (Bool-cases (i == a && j == b)) [
      | inl same ↦ inl (ground (arith, third-page a b))
      | inr other ↦ inr (ground (arith, third-page a b))
    ]

    pub WellFormed-page : WellFormed mem_page root (fresh ∷ pages)
    WellFormed-page = record {
      root_in = in_pages root wf.root_in;
      second_in =
          λ a p e. let (u, v) = wf.second_in a p (sym (second-page a) ∙ e) in (in_pages p u, v);
      second_once =
          λ a b p e f. wf.second_once a b p (sym (second-page a) ∙ e) (sym (second-page b) ∙ f);
      third_in = λ a b p e. elim (third_source a b p e) [
        | inl (_, _, q) ↦ ground (arith, not_fresh root wf.root_in)
        | inr old ↦ let (u, v) = wf.third_in a b p old in (in_pages p u, v)
      ];
      third_once = λ a b c d p e f. elim (third_source a b p e) [
        | inl (x, y, q) ↦ elim (third_source c d p f) [
          | inl (z, w, _) ↦ (sym x ∙ z, sym y ∙ w)
          | inr old ↦ absurd (not_fresh p (wf.third_in c d p old).0 (sym q))
        ]
        | inr old ↦ elim (third_source c d p f) [
          | inl (_, _, q) ↦ absurd (not_fresh p (wf.third_in a b p old).0 (sym q))
          | inr old' ↦ wf.third_once a b c d p old old'
        ]
      ];
      levels_apart = λ a b c p e f.
          let f' = sym (second-page c) ∙ f in
          elim (third_source a b p e) [
            | inl (_, _, q) ↦ not_fresh p (wf.second_in c p f').0 (sym q)
            | inr old ↦ wf.levels_apart a b c p old f'
          ];
    }
