-- ===== src/Mm/PageTable/Walk.antt =====
-- What a new page in the tree, or a write to an entry of its last level, does to the pages of the
-- tree and to the valid entries.
use oskernel2023_main_os.Common.{
  Bool-cases, List, Option-cases, ap, arith, if◌then◌else◌, inl, inr, none, some, sym, ℕ, ◌&&◌,
  ◌==◌, ◌∙◌, ◌≡◌, ◌≢◌,
}
use oskernel2023_main_os.Mm.PageTable.{Memory, is_valid, write}
use oskernel2023_main_os.Mm.PageTable.Tree.{WellFormed, child, child-write, leaf, second, third}

child_other :
    (mem : Memory) (page idx bits p i : ℕ)
    → page ≢ p
    → child (write mem page idx bits) p i ≡ child mem p i
child_other mem page idx bits p i ne = ground (arith, child-write mem page idx bits p i)

module _ (mem : Memory) (root : ℕ) (pages : List ℕ) (wf : WellFormed mem root pages) where
  second_not_root : (i p : ℕ) → second mem root i ≡ some p → root ≢ p
  second_not_root i p e same = (wf.second_in i p e).1 (sym same)

  third_not_root : (i j p : ℕ) → third mem root i j ≡ some p → root ≢ p
  third_not_root i j p e same = (wf.third_in i j p e).1 (sym same)

  pub third_under : (i j p : ℕ) → second mem root i ≡ some p → third mem root i j ≡ child mem p j
  unfolding third
  third_under i j p e = rw e

  third_missing : (i j : ℕ) → second mem root i ≡ none → third mem root i j ≡ none
  unfolding third
  third_missing i j e = rw e

  -- A write to an entry of the last level.
  module _ (i j k page bits : ℕ) (here : third mem root i j ≡ some page) where
    abbrev written : Memory
    written = write mem page k bits

    pub second-written : (i' : ℕ) → second written root i' ≡ second mem root i'
    second-written i' =
        child_other mem page k bits root i' (λ e. third_not_root i j page here (sym e))

    pub third-written : (i' j' : ℕ) → third written root i' j' ≡ third mem root i' j'
    unfolding third
    third-written i' j' = elim (Option-cases (second mem root i')) [
      | inl e ↦ rw (second-written i', e)
      | inr (p, e) ↦
          rw (second-written i', e)
            (child_other mem page k bits p j'
              (λ same. wf.levels_apart i j i' p (here ∙ ap some same) e))
    ]

    pub leaf-written :
        (i' j' k' : ℕ)
        → leaf written root i' j' k' ≡ (
            if i == i' && (j == j' && k == k')
            then if is_valid bits then some bits else none
            else leaf mem root i' j' k')
    unfolding leaf
    leaf-written i' j' k' = elim (Option-cases (third mem root i' j')) [
      | inl e ↦ rw (third-written i' j', e) (ground (arith, here, e))
      | inr (p, e) ↦
          rw (third-written i' j', e)
            (elim (Bool-cases (page == p)) [
              | inl same ↦
                  let at : third mem root i' j' ≡ some page = e ∙ ap some (ground arith) in
                  let once = wf.third_once i j i' j' page here at in ground (arith, once)
              | inr other ↦ ground (arith, here, e)
            ])
    ]

    pub WellFormed-written : WellFormed written root pages
    WellFormed-written = record {
      root_in = wf.root_in;
      second_in = λ a p e. wf.second_in a p (sym (second-written a) ∙ e);
      second_once = λ a b p e f.
          wf.second_once a b p (sym (second-written a) ∙ e) (sym (second-written b) ∙ f);
      third_in = λ a b p e. wf.third_in a b p (sym (third-written a b) ∙ e);
      third_once = λ a b c d p e f.
          wf.third_once a b c d p (sym (third-written a b) ∙ e) (sym (third-written c d) ∙ f);
      levels_apart = λ a b c p e f.
          wf.levels_apart a b c p (sym (third-written a b) ∙ e) (sym (second-written c) ∙ f);
    }
