-- ===== src/Fs/Fat/Grow.antt =====
-- A chain grows by a cluster.
use mathlib.Core.Option
use native.Mathlib.Nat.{mod-lt}
use oskernel2023_main_os.Common.{
  Distinct, add32, ap, contains, false, if◌then◌else◌, low_bits, refl, true, ◌%◌, ◌++◌, ◌<◌, ◌==◌,
  ◌^◌, ◌||◌, ◌∙◌, ◌∷◌, ◌≡◌, ◌≢◌,
}
use oskernel2023_main_os.Common.{List, Option, [], arith, none, some, ℕ}
use oskernel2023_main_os.Fs.Fat.{
  Disk, Fat, Layout, alloc, alloc_loop, alloc_one, ends_chain, eoc, get_next_clus_num,
  get_next_free_clus, is_free, pop_back, set_next_clus, take_found, take_vacant,
}
use oskernel2023_main_os.Fs.Fat.Chains.{Chain}
use oskernel2023_main_os.Fs.Fat.Places.{IsLayout, get_next_clus_num-set_next_clus}
use oskernel2023_main_os.Fs.Fat.Search.{NextFree, get_next_free_clus-NextFree}

-- The queue of vacant clusters holds free clusters of the table, each once; and the entry of
-- cluster 0, which is no cluster, is not free.
pub record Inv (l : Layout) (f : Fat) : Type 0 where
  pub vacant_in : (c : ℕ) → contains f.vacant_clus c ≡ true → c < l.tot_ent
  pub vacant_free : (c : ℕ) → contains f.vacant_clus c ≡ true → is_free l f.disk c ≡ true
  pub vacant_once : Distinct f.vacant_clus
  pub reserved : is_free l f.disk 0 ≡ false
  pub hint_in : f.hint < l.tot_ent

abbrev pub last_of : ℕ → List ℕ → ℕ
last_of c [] = c
last_of c (d ∷ ds) = last_of d ds

abbrev PopsBack : List ℕ → Option (ℕ × List ℕ) → Type 0
PopsBack xs none = xs ≡ []
PopsBack xs (some (c, ys)) =
    (contains ys c ≡ false) × Distinct ys × ((d : ℕ) → contains xs d ≡ (c == d || contains ys d))

pop_more :
    (x : ℕ) (xs : List ℕ) (r : Option (ℕ × List ℕ))
    → xs ≢ []
    → contains xs x ≡ false
    → PopsBack xs r
    → PopsBack (x ∷ xs) (Option.map (λ p. (p.0, x ∷ p.1)) r)
pop_more x xs none h out e = absurd (h e)
pop_more x xs (some (c, ys)) h out (e, f, g) =
    (ground (arith, g x), (ground (arith, g x), f), λ d. ground (arith, g d))

pop_back_lem : (xs : List ℕ) → Distinct xs → PopsBack xs (pop_back xs)
pop_back_lem [] h = refl
pop_back_lem (x ∷ []) h = (refl, tt, λ d. ground arith)
pop_back_lem (x ∷ (y ∷ ys)) h =
    pop_more x (y ∷ ys) (pop_back (y ∷ ys)) (λ e. ground arith) h.0 (pop_back_lem (y ∷ ys) h.1)

-- The entries `e` and `x` are written, with `x` and with the end of a chain.
abbrev Extends : Layout → Disk → ℕ → ℕ → Disk → Type 0
Extends l disk e x disk' =
    (d : ℕ)
    → d < l.tot_ent
    → get_next_clus_num l disk' d
      ≡ (if x == d then eoc else if e == d then x else get_next_clus_num l disk d)

module _ (l : Layout) (disk disk' : Disk) (e x : ℕ) (ext : Extends l disk e x disk')
    (x_in : x < l.tot_ent) (x_free : is_free l disk x ≡ true) (x_links : ends_chain x ≡ false)
    (e_last : ends_chain (get_next_clus_num l disk e) ≡ true) (apart : e ≢ x) where
  Chain-grows :
      (c : ℕ) (cs : List ℕ)
      → Chain l disk c cs
      → ((d : ℕ) → contains (c ∷ cs) d ≡ true → d < l.tot_ent)
      → last_of c cs ≡ e
      → Chain l disk' c (cs ++ (x ∷ []))
  Chain-grows c [] ch low at =
      let next : get_next_clus_num l disk' c ≡ x = ground (arith, ext c, low c) in
      let end : get_next_clus_num l disk' x ≡ eoc = ground (arith, ext x) in
      rw (next, end) (x_links, refl, refl)
  Chain-grows c (d ∷ ds) (more, next, ch) low at =
      let not_x : x ≢ c = λ z. ground (arith, ap (get_next_clus_num l disk) z) in
      let not_e : e ≢ c = λ z. ground (arith, ap (get_next_clus_num l disk) z) in
      let same : get_next_clus_num l disk' c ≡ get_next_clus_num l disk c =
        ground (arith, ext c, low c) in
      rw same (more, next, Chain-grows d ds ch (λ i h. low i (ground arith)) at)

two_writes :
    (l : Layout) (v : IsLayout l) (disk : Disk) (e x : ℕ)
    → e < l.tot_ent
    → x < l.tot_ent
    → Extends l disk e x (set_next_clus l (some x) eoc (set_next_clus l (some e) x disk))
two_writes l v disk e x e_in x_in d d_in =
    let small : low_bits x 28 ≡ x = omega (arith, v.few) in
    get_next_clus_num-set_next_clus l v x eoc d (set_next_clus l (some e) x disk) x_in d_in
    ∙ ground (arith, get_next_clus_num-set_next_clus l v e x d disk e_in d_in)

-- What `alloc` of one cluster does to the chain of `s` and `cs`.
abbrev pub AllocsOne : Layout → Fat → ℕ → List ℕ → List ℕ × Fat → Type 0
AllocsOne l f s cs ([], f') = (f' ≡ f) × ((d : ℕ) → d < l.tot_ent → is_free l f.disk d ≡ false)
AllocsOne l f s cs (x ∷ [], f') =
    (x < l.tot_ent)
    × (is_free l f.disk x ≡ true)
    × Chain l f'.disk s (cs ++ (x ∷ []))
    × ((d : ℕ)
        → d < l.tot_ent
        → last_of s cs ≢ d
        → x ≢ d
        → get_next_clus_num l f'.disk d ≡ get_next_clus_num l f.disk d)
    × Inv l f'
AllocsOne l f s cs (x ∷ (y ∷ ys), f') = ⊥

-- `alloc` of one cluster, on what `alloc_one` returns
abbrev closed : Layout → Fat → Option (ℕ × Fat) → List ℕ × Fat
closed l f none = ([], f)
closed l f (some (x, f')) = (x ∷ [], record f' { disk = set_next_clus l (some x) eoc f'.disk })

alloc-closed :
    (l : Layout) (last : Option ℕ) (f : Fat) (r : Option (ℕ × Fat))
    → alloc_one l last f ≡ r
    → alloc l 1 last f ≡ closed l f r
unfolding alloc alloc_loop set_next_clus
alloc-closed l last f none e = rw (e, alloc, alloc_loop) refl
alloc-closed l last f (some (x, f')) e = rw (e, alloc, alloc_loop) refl

module _ (l : Layout) (v : IsLayout l) (f : Fat) (inv : Inv l f) (s : ℕ) (cs : List ℕ)
    (chain : Chain l f.disk s cs) (low : (d : ℕ) → contains (s ∷ cs) d ≡ true → d < l.tot_ent)
    (kept : is_free l f.disk (last_of s cs) ≡ false) where
  abbrev e : ℕ
  e = last_of s cs

  last_in : (c : ℕ) (ds : List ℕ) → contains (c ∷ ds) (last_of c ds) ≡ true
  last_in c [] = ground arith
  last_in c (d ∷ ds) = ground (arith, last_in d ds)

  last_ends :
      (c : ℕ) (ds : List ℕ)
      → Chain l f.disk c ds
      → ends_chain (get_next_clus_num l f.disk (last_of c ds)) ≡ true
  last_ends c [] ch = ch
  last_ends c (d ∷ ds) (_, _, ch) = last_ends d ds ch

  -- A free cluster `x` put behind the last one
  put_behind :
      (x hint : ℕ) (vacant : List ℕ)
      → x < l.tot_ent
      → is_free l f.disk x ≡ true
      → contains vacant x ≡ false
      → Distinct vacant
      → ((d : ℕ) → contains vacant d ≡ true → contains f.vacant_clus d ≡ true)
      → hint < l.tot_ent
      → AllocsOne l f s cs (
          closed l f (
            some (
              x,
              record {
                disk = set_next_clus l (some e) x f.disk;
                vacant_clus = vacant;
                hint = hint;
              },
            )))
  put_behind x hint vacant x_in x_free out once fewer hint_in =
      let e_in : e < l.tot_ent = low e (last_in s cs) in
      let apart : e ≢ x = λ z. ground (arith, ap (is_free l f.disk) z) in
      let not_zero : 0 ≢ x = λ z. ground (arith, ap (is_free l f.disk) z, inv.reserved) in
      let links : ends_chain x ≡ false = ground (arith, v.few) in
      let ext = two_writes l v f.disk e x e_in x_in in
      let disk' = set_next_clus l (some x) eoc (set_next_clus l (some e) x f.disk) in
      let same : (d : ℕ)
          → d < l.tot_ent
          → e ≢ d
          → x ≢ d
          → get_next_clus_num l disk' d ≡ get_next_clus_num l f.disk d =
        λ d d_in h k. ground (arith, ext d d_in) in
      (
        x_in,
        x_free,
        Chain-grows l f.disk disk' e x ext x_in x_free links (last_ends s cs chain) apart s cs chain
            low refl,
        same,
        record {
          vacant_in = λ c h. inv.vacant_in c (fewer c h);
          vacant_free = λ c h.
              let was = inv.vacant_free c (fewer c h) in
              let not_e : e ≢ c = λ z. ground (arith, ap (is_free l f.disk) z) in
              let not_x : x ≢ c = λ z. ground (arith, ap (contains vacant) z) in
              ap (◌==◌ 0) (same c (inv.vacant_in c (fewer c h)) not_e not_x) ∙ was;
          vacant_once = once;
          reserved = ground (arith, ext 0, inv.reserved, v.few);
          hint_in = hint_in;
        },
      )

  from_found :
      (start : ℕ) (r : Option ℕ)
      → f.vacant_clus ≡ []
      → NextFree l f.disk start r
      → AllocsOne l f s cs (closed l f (take_found l (some e) f r))
  from_found start none no_vacant all = (refl, all)
  from_found start (some x) no_vacant (x_in, x_free, _) =
      let no_member : (d : ℕ) → contains f.vacant_clus d ≡ false = λ d. rw no_vacant refl in
      put_behind x (add32 x 1 % l.tot_ent) f.vacant_clus x_in x_free (no_member x) inv.vacant_once
        (λ d h. h) (mod-lt (add32 x 1) {m = l.tot_ent} (omega arith))

  from_vacant :
      (r : Option (ℕ × List ℕ))
      → PopsBack f.vacant_clus r
      → AllocsOne l f s cs (closed l f (take_vacant l (some e) f r))
  from_vacant (some (x, vacant)) (out, once, g) =
      let there : contains f.vacant_clus x ≡ true = ground (arith, g x) in
      put_behind x f.hint vacant (inv.vacant_in x there) (inv.vacant_free x there) out once
        (λ d h. ground (arith, g d)) inv.hint_in
  from_vacant none no_vacant =
      let hint_small : f.hint % 2 ^ 32 ≡ f.hint = omega (arith, v.few, inv.hint_in) in
      from_found (f.hint % 2 ^ 32) (get_next_free_clus l f.disk (f.hint % 2 ^ 32)) no_vacant
        (get_next_free_clus-NextFree l f.disk (f.hint % 2 ^ 32) (omega (arith, inv.hint_in)))

  -- In a sound layout and under the invariant, `alloc` of one cluster behind a chain of clusters
  -- of the table, whose last entry is not free, finds none only if no cluster of the table is
  -- free, and then changes nothing. Otherwise it returns a cluster that was free, the chain has
  -- this cluster behind the last one, no entry but these two has changed, and the invariant holds
  -- again.
  pub alloc-AllocsOne : AllocsOne l f s cs (alloc l 1 (some (last_of s cs)) f)
  unfolding alloc_one
  alloc-AllocsOne =
      rw (alloc-closed l (some e) f (alloc_one l (some e) f) refl)
        (from_vacant (pop_back f.vacant_clus) (pop_back_lem f.vacant_clus inv.vacant_once))
