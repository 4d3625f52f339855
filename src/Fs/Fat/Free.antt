-- ===== src/Fs/Fat/Free.antt =====
-- What `free` does to the table and to the queue of vacant clusters.
use oskernel2023_main_os.Common.{
  Bool-cases, Distinct, Distinct-snoc, contains, contains-snoc, false, if◌then◌else◌, inl, inr,
  length, length-append, ltb, refl, true, ◌++◌, ◌<◌, ◌==◌, ◌∙◌, ◌∷◌, ◌≡◌, ◌≢◌, ◌≤◌, ◌⊎◌,
}
use oskernel2023_main_os.Common.{List, [], arith, some, ℕ}
use oskernel2023_main_os.Fs.Fat.{
  Fat, Layout, eoc, fat_entry_free, free, free_loop, get_next_clus_num, is_free, set_next_clus,
  vacant_clus_cache_size,
}
use oskernel2023_main_os.Fs.Fat.Places.{IsLayout, get_next_clus_num-set_next_clus}
use oskernel2023_main_os.Fs.Fat.Grow.{Inv}

-- What the clusters `xs` must be: of the table, none free, none twice.
abbrev pub Frees : Layout → Fat → List ℕ → Type 0
Frees l f xs =
    Distinct xs
    × ((c : ℕ) → contains xs c ≡ true → (c < l.tot_ent) × (0 ≢ c) × (is_free l f.disk c ≡ false))

abbrev queued : List ℕ → ℕ → List ℕ
queued vacant c = if ltb (length vacant) vacant_clus_cache_size then vacant ++ (c ∷ []) else vacant

abbrev freed : Layout → ℕ → Fat → Fat
freed l c f = record f {
  disk = set_next_clus l (some c) fat_entry_free f.disk;
  vacant_clus = queued f.vacant_clus c;
}

queued_lem :
    (vacant : List ℕ) (c : ℕ)
    → Distinct vacant
    → contains vacant c ≡ false
    → length vacant ≤ 64
    → Distinct (queued vacant c)
      × (length (queued vacant c) ≤ 64)
      × ((d : ℕ) → contains (queued vacant c) d ≡ true → (contains vacant d ≡ true) ⊎ (c ≡ d))
queued_lem vacant c once out few = elim (Bool-cases (ltb (length vacant) 64)) [
  | inl room ↦ rw room (
    Distinct-snoc vacant c once out,
    ground (arith, length-append vacant (c ∷ [])),
    λ d h. ground (arith, contains-snoc vacant c d),
  )
  | inr full_up ↦ rw full_up (once, few, λ d h. inl h)
]

module _ (l : Layout) (v : IsLayout l) where
  freed_next :
      (c : ℕ) (f : Fat)
      → c < l.tot_ent
      → (d : ℕ) → d < l.tot_ent
      → get_next_clus_num l (freed l c f).disk d
        ≡ (if c == d then 0 else get_next_clus_num l f.disk d)
  freed_next c f c_in d d_in = get_next_clus_num-set_next_clus l v c 0 d f.disk c_in d_in

  freed-Inv :
      (c : ℕ) (f : Fat)
      → Inv l f
      → length f.vacant_clus ≤ 64
      → c < l.tot_ent
      → 0 ≢ c
      → is_free l f.disk c ≡ false
      → Inv l (freed l c f)
  freed-Inv c f inv few c_in not_zero taken =
      let out : contains f.vacant_clus c ≡ false = ground (arith, inv.vacant_free c) in
      let (once, _, from) = queued_lem f.vacant_clus c inv.vacant_once out few in
      let members : (d : ℕ) → contains (queued f.vacant_clus c) d ≡ true → d < l.tot_ent =
        λ d h. ground (arith, from d h, inv.vacant_in d) in
      record {
        vacant_in = members;
        vacant_free =
            λ d h. ground (arith, freed_next c f c_in d (members d h), from d h, inv.vacant_free d);
        vacant_once = once;
        reserved = ground (arith, freed_next c f c_in 0, inv.reserved);
        hint_in = inv.hint_in;
      }

  loop_lem :
      (xs : List ℕ) (f : Fat)
      → Inv l f
      → length f.vacant_clus ≤ 64
      → Frees l f xs
      → Inv l (free_loop l xs f)
        × (length (free_loop l xs f).vacant_clus ≤ 64)
        × ((d : ℕ)
            → d < l.tot_ent
            → get_next_clus_num l (free_loop l xs f).disk d
              ≡ (if contains xs d then 0 else get_next_clus_num l f.disk d))
  unfolding free_loop
  loop_lem [] f inv few h = (inv, few, λ d d_in. refl)
  loop_lem (c ∷ xs) f inv few (once, h) =
      let (c_in, not_zero, taken) = h c (ground arith) in
      let out : contains f.vacant_clus c ≡ false = ground (arith, inv.vacant_free c) in
      let (_, fewer, _) = queued_lem f.vacant_clus c inv.vacant_once out few in
      let (inv', few', next) =
        loop_lem xs (freed l c f) (freed-Inv c f inv few c_in not_zero taken) fewer (
          once.1,
          λ d k.
              let (d_in, d_not_zero, d_taken) = h d (ground arith) in
              (d_in, d_not_zero, ground (arith, freed_next c f c_in d d_in, once.0)),
        ) in
      (inv', few', λ d d_in. next d d_in ∙ ground (arith, freed_next c f c_in d d_in))

  ended-Inv :
      (e : ℕ) (f : Fat)
      → Inv l f
      → e < l.tot_ent
      → is_free l f.disk e ≡ false
      → Inv l (record f { disk = set_next_clus l (some e) eoc f.disk })
  ended-Inv e f inv e_in taken =
      let out : contains f.vacant_clus e ≡ false = ground (arith, inv.vacant_free e) in
      let next = λ (d : ℕ) (d_in : d < l.tot_ent).
        get_next_clus_num-set_next_clus l v e eoc d f.disk e_in d_in in
      record {
        vacant_in = inv.vacant_in;
        vacant_free = λ d h. ground (arith, next d (inv.vacant_in d h), inv.vacant_free d);
        vacant_once = inv.vacant_once;
        reserved = ground (arith, next 0, inv.reserved);
        hint_in = inv.hint_in;
      }

  -- In a sound layout and under the invariant, with at most 64 vacant clusters queued, for `free`
  -- of clusters of the table that are in use, none 0 or named twice, with another cluster `e` in
  -- use that is to be the last: their entries become free, that of `e` ends its chain, no other
  -- entry changes, the invariant holds again, and the queue is no longer than 64.
  pub free_lem :
      (xs : List ℕ) (e : ℕ) (f : Fat)
      → Inv l f
      → length f.vacant_clus ≤ 64
      → Frees l f xs
      → e < l.tot_ent
      → contains xs e ≡ false
      → is_free l f.disk e ≡ false
      → Inv l (free l xs (some e) f)
        × (length (free l xs (some e) f).vacant_clus ≤ 64)
        × ((d : ℕ)
            → d < l.tot_ent
            → get_next_clus_num l (free l xs (some e) f).disk d
              ≡ (if e == d then eoc else if contains xs d then 0 else get_next_clus_num l f.disk d))
  unfolding free
  free_lem xs e f inv few h e_in out taken =
      let (inv', few', next) = loop_lem xs f inv few h in
      (
        ended-Inv e (free_loop l xs f) inv' e_in (ground (arith, next e e_in)),
        few',
        λ d d_in.
            get_next_clus_num-set_next_clus l v e eoc d (free_loop l xs f).disk e_in d_in
            ∙ ground (arith, next d d_in),
      )
