-- ===== src/Mm/PageTable/Create.antt =====
-- `find_pte_create` grows the tree until the entry has a place, and keeps every valid entry, the
-- allocator's invariant, and all memory that is not the table's own.
use oskernel2023_main_os.Common.{
  List, Option, [], ap, arith, contains, false, inl, inr, length, none, refl, some, subst, true, ℕ,
  ◌+◌, ◌∙◌, ◌∷◌, ◌≡◌, ◌≢◌, ◌≤◌,
}
use oskernel2023_main_os.Mm.FrameAllocator.{FrameTracker}
use oskernel2023_main_os.Mm.FrameAllocator.Frames
use oskernel2023_main_os.Mm.PageTable.Spec.{low, mid, top}
use oskernel2023_main_os.Mm.PageTable.Walk.{third_under}
use oskernel2023_main_os.Mm.FrameAllocator.Trackers.{held}
use oskernel2023_main_os.Mm.PageTable.{
  Found, Machine, PageTable, create_from, descend, find_pte_create, then_descend,
}
use oskernel2023_main_os.Mm.PageTable.Tree.{WellFormed, leaf, linked, second, third}
use oskernel2023_main_os.Mm.PageTable.Mapping.{Inv, descend-FindsPage}
use oskernel2023_main_os.Mm.PageTable.Grow.{
  WellFormed-page, WellFormed-root, leaf-page, leaf-root, second-root, third-page,
}

-- What growing the tree keeps: the valid entries, and all memory that is not the table's own.
pub record Grown (base : ℕ) (m : Machine) (pt : PageTable) (live : List ℕ) (m' : Machine)
    (pt' : PageTable) (live' : List ℕ) : Type 0 where
  pub inv : Inv base m' pt' live'
  pub root : pt'.root_ppn ≡ pt.root_ppn
  pub entries : (i j k : ℕ) → leaf m'.memory pt.root_ppn i j k ≡ leaf m.memory pt.root_ppn i j k
  pub others :
      (p : ℕ)
      → contains live p ≡ true
      → (contains live' p ≡ true)
        × (contains (held pt'.frames) p ≡ contains (held pt.frames) p)
        × (contains (held pt.frames) p ≡ false → (i : ℕ) → m'.memory p i ≡ m.memory p i)
  pub end : m'.frames.end ≡ m.frames.end
  pub count : length live ≤ length live'

Grown-refl :
    (base : ℕ) (m : Machine) (pt : PageTable) (live : List ℕ)
    → Inv base m pt live
    → Grown base m pt live m pt live
Grown-refl base m pt live v = record {
  inv = v;
  root = refl;
  entries = λ i j k. refl;
  others = λ p h. (h, refl, λ out i. refl);
  end = refl;
  count = omega arith;
}

Grown-trans :
    (base : ℕ) {m m' m'' : Machine} {pt pt' pt'' : PageTable} {live live' live'' : List ℕ}
    → Grown base m pt live m' pt' live'
    → Grown base m' pt' live' m'' pt'' live''
    → Grown base m pt live m'' pt'' live''
Grown-trans base {m} {m'} {m''} {pt} {pt'} {pt''} g h = record {
  inv = h.inv;
  root = h.root ∙ g.root;
  entries = λ i j k.
      subst (λ (r : ℕ). leaf m''.memory r i j k ≡ leaf m'.memory r i j k) g.root (h.entries i j k)
      ∙ g.entries i j k;
  others = λ p live_p.
      let (live_p', same, keep) = g.others p live_p in
      let (live_p'', same', keep') = h.others p live_p' in
      (live_p'', same' ∙ same, λ out i. keep' (same ∙ out) i ∙ keep out i);
  end = h.end ∙ g.end;
  count = omega (arith, g.count, h.count);
}

-- The table and the machine after a fresh frame was linked in at an entry of one of its pages.
module _ (base : ℕ) (m m' : Machine) (pt : PageTable) (live : List ℕ) (v : Inv base m pt live)
    (t : FrameTracker) (page idx : ℕ) (holds : t.hold ≡ true) (out : contains live t.ppn ≡ false)
    (end : m'.frames.end ≡ m.frames.end) (pool : Frames.Inv base m'.frames (t.ppn ∷ live))
    (mem : m'.memory ≡ linked m.memory t.ppn page idx)
    (own : contains (held pt.frames) page ≡ true) where
  abbrev table : PageTable
  table = record pt { frames = t ∷ pt.frames }

  fresh_out : contains (held pt.frames) t.ppn ≡ false
  fresh_out = ground (arith, v.owned t.ppn)

  held_more : held table.frames ≡ t.ppn ∷ held pt.frames
  held_more = rw holds

  linked_others : (p i : ℕ) → page ≢ p → t.ppn ≢ p → m'.memory p i ≡ m.memory p i
  linked_others p i h h' = rw mem (ground arith)

  Grown-link :
      WellFormed (linked m.memory t.ppn page idx) pt.root_ppn (t.ppn ∷ held pt.frames)
      → ((i j k : ℕ)
          → leaf (linked m.memory t.ppn page idx) pt.root_ppn i j k
            ≡ leaf m.memory pt.root_ppn i j k)
      → Grown base m pt live m' table (t.ppn ∷ live)
  Grown-link wf entries = record {
    inv = record {
      frames_inv = pool;
      tree = rw (mem, held_more) wf;
      owned = λ p h. ground (arith, v.owned p, ap (λ xs. contains xs p) held_more);
    };
    root = refl;
    entries = λ i j k. rw mem (entries i j k);
    others = λ p live_p. (
      ground arith,
      ground (arith, ap (λ xs. contains xs p) held_more),
      λ away i. linked_others p i (λ e. ground arith) (λ e. ground arith),
    );
    end = end;
    count = omega arith;
  }

-- The first round, at an entry of the root, and the second, at an entry of a page of the second
-- level: the table grows, and the page below the entry is what the round returns.
module _ (base : ℕ) (live : List ℕ) (pt : PageTable) (m : Machine) where
  abbrev RoundOne : ℕ → Option (ℕ × PageTable × Machine) → Type 0
  RoundOne i none = length live + base ≡ m.frames.end
  RoundOne i (some (p, pt', m')) =
      (live' : List ℕ) × Grown base m pt live m' pt' live'
      × (second m'.memory pt.root_ppn i ≡ some p)
      × (length live' ≤ length live + 1)

  abbrev RoundTwo : ℕ → ℕ → Option (ℕ × PageTable × Machine) → Type 0
  RoundTwo i j none = length live + base ≡ m.frames.end
  RoundTwo i j (some (q, pt', m')) =
      (live' : List ℕ) × Grown base m pt live m' pt' live'
      × (third m'.memory pt.root_ppn i j ≡ some q)

  round_one : (i : ℕ) → Inv base m pt live → RoundOne i (descend pt.root_ppn i pt m)
  round_one i v = elim (descend-FindsPage base live pt m pt.root_ppn i v.frames_inv) [
    | inl (p, here, r) ↦ rw r (live, Grown-refl base m pt live v, here, omega arith)
    | inr (inl (_, r, full)) ↦ rw r full
    | inr (inr (t, m', absent, holds, out, small, end, pool, mem, r)) ↦
        let unused =
          fresh_out base m m' pt live v t pt.root_ppn i holds out end pool mem v.tree.root_in in
        rw r (
          t.ppn ∷ live,
          Grown-link base m m' pt live v t pt.root_ppn i holds out end pool mem v.tree.root_in
              (WellFormed-root m.memory pt.root_ppn (held pt.frames) v.tree t.ppn small unused i
                absent)
              (leaf-root m.memory pt.root_ppn (held pt.frames) v.tree t.ppn small unused i absent),
          rw mem (
              ground (
                arith,
                second-root m.memory pt.root_ppn (held pt.frames) v.tree t.ppn small unused i absent
                    i,
              )),
          omega arith,
        )
  ]

  round_two :
      (i j p : ℕ)
      → Inv base m pt live
      → second m.memory pt.root_ppn i ≡ some p
      → RoundTwo i j (descend p j pt m)
  round_two i j p v above =
      let own = (v.tree.second_in i p above).0 in
      let under_p = third_under m.memory pt.root_ppn (held pt.frames) v.tree i j p above in
      elim (descend-FindsPage base live pt m p j v.frames_inv) [
        | inl (q, here, r) ↦ rw r (live, Grown-refl base m pt live v, under_p ∙ here)
        | inr (inl (_, r, full)) ↦ rw r full
        | inr (inr (t, m', absent, holds, out, small, end, pool, mem, r)) ↦
            let unused = fresh_out base m m' pt live v t p j holds out end pool mem own in
            let missing : third m.memory pt.root_ppn i j ≡ none = under_p ∙ absent in
            rw r (
              t.ppn ∷ live,
              Grown-link base m m' pt live v t p j holds out end pool mem own
                  (WellFormed-page m.memory pt.root_ppn (held pt.frames) v.tree t.ppn small unused i
                    j p above missing)
                  (leaf-page m.memory pt.root_ppn (held pt.frames) v.tree t.ppn small unused i j p
                    above missing),
              rw mem (
                  ground (
                    arith,
                    third-page m.memory pt.root_ppn (held pt.frames) v.tree t.ppn small unused i j p
                        above missing i j,
                  )),
            )
      ]

-- What `find_pte_create` does: it finds the place of the entry in a grown table, or runs out of
-- frames when at most one was left.
abbrev pub CreatesEntry : ℕ → List ℕ → PageTable → Machine → ℕ → Option Found → Type 0
CreatesEntry base live pt m vpn none = m.frames.end ≤ length live + base + 1
CreatesEntry base live pt m vpn (some ((page, idx), pt', m')) =
    (live' : List ℕ) × Grown base m pt live m' pt' live'
    × (idx ≡ low vpn)
    × (third m'.memory pt.root_ppn (top vpn) (mid vpn) ≡ some page)

module _ (base : ℕ) (live : List ℕ) (pt : PageTable) (m : Machine) (vpn : ℕ) where
  after_two :
      {live' : List ℕ} {pt' : PageTable} {m' : Machine} (r : Option (ℕ × PageTable × Machine))
      → Grown base m pt live m' pt' live'
      → length live' ≤ length live + 1
      → RoundTwo base live' pt' m' (top vpn) (mid vpn) r
      → CreatesEntry base live pt m vpn (then_descend r (create_from (low vpn ∷ [])))
  unfolding create_from
  after_two none g few full = omega (arith, g.end)
  after_two (some (q, pt'', m'')) g few (live'', h, here) =
      (live'', Grown-trans base g h, refl, rw g.root at here)

  after_one :
      (r : Option (ℕ × PageTable × Machine))
      → RoundOne base live pt m (top vpn) r
      → CreatesEntry base live pt m vpn (then_descend r (create_from (mid vpn ∷ low vpn ∷ [])))
  unfolding create_from
  after_one none full = omega arith
  after_one (some (p, pt', m')) (live', g, here, few) =
      after_two (descend p (mid vpn) pt' m') g few
        (round_two base live' pt' m' (top vpn) (mid vpn) p g.inv (rw (← g.root) at here))

  pub find_pte_create-CreatesEntry :
      Inv base m pt live → CreatesEntry base live pt m vpn (find_pte_create pt vpn m)
  unfolding find_pte_create
  find_pte_create-CreatesEntry v =
      after_one (descend pt.root_ppn (top vpn) pt m) (round_one base live pt m (top vpn) v)
