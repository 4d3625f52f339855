-- ===== src/Fs/PageCache/Allocated/Sweeps.antt =====
-- `oom`, page by page, and `notify_new_size`.
use oskernel2023_main_os.Common.{
  Bool-cases, Distinct, List, Option, [], ap, append-nil, append_assoc, arith, contains, false,
  get_or, inl, inr, length, length-append, ltb, none, refl, set, some, subst, sym, true, ℕ, ◌++◌,
  ◌+◌, ◌-◌, ◌||◌, ◌∙◌, ◌∷◌, ◌≡◌,
}
use oskernel2023_main_os.Fs.Cache.{Disk}
use oskernel2023_main_os.Fs.PageCache.{
  PageCache, Pages, Sweep, oom_pages, sweep, sweep_page, sync_page,
}
use oskernel2023_main_os.Fs.PageCache.Allocated.{
  IsTracked, Lists, cached, cached-get, cached-set-none, get-cached, replace-Lists,
}

contains-append :
    (xs ys : List ℕ) (i : ℕ) → contains (xs ++ ys) i ≡ (contains xs i || contains ys i)
contains-append [] ys i = refl
contains-append (x ∷ xs) ys i = let rest = contains-append xs ys i in ground (arith, rest)

middle-Distinct :
    (xs ys : List ℕ) (x : ℕ)
    → Distinct (xs ++ (x ∷ ys))
    → (contains (xs ++ ys) x ≡ false) × Distinct (xs ++ ys)
middle-Distinct [] ys x d = d
middle-Distinct (y ∷ xs) ys x d =
    let (out, rest) = middle-Distinct xs ys x d.1 in
    let e = contains-append xs (x ∷ ys) y in
    let f = contains-append xs ys y in
    let o = d.0 in (ground (arith, out, e, o), (ground (arith, e, f, o), rest))

remove-Lists :
    (pool : List (Option PageCache)) (xs ys : List ℕ) (id : ℕ)
    → Lists pool (xs ++ (id ∷ ys))
    → Lists (set pool id none) (xs ++ ys)
remove-Lists pool xs ys id (h, d) =
    let (out, rest) = middle-Distinct xs ys id d in
    (
      (λ i.
          let hi = h i in
          let e = cached-set-none pool id i in
          let a = contains-append xs (id ∷ ys) i in
          let b = contains-append xs ys i in
          let c = contains-append xs ys id in ground (arith, hi, e, a, b, out)),
      rest,
    )

-- What holds after a part of the sweep: the pages kept and those to come are those of the pool, and with
-- the dropped ones there are as many as before.
abbrev Swept : ℕ → List ℕ → Sweep → Type 0
Swept n ids w = Lists w.pool (w.kept ++ ids) × (w.dropped + length (w.kept ++ ids) ≡ n)

kept-Swept :
    (id : ℕ) (n : ℕ) (ids : List ℕ) (w w' : Sweep)
    → w'.kept ≡ w.kept ++ (id ∷ [])
    → w'.dropped ≡ w.dropped
    → Lists w'.pool (w.kept ++ (id ∷ ids))
    → w.dropped + length (w.kept ++ (id ∷ ids)) ≡ n
    → Swept n ids w'
kept-Swept id n ids w w' e d l count =
    let assoc : w'.kept ++ ids ≡ w.kept ++ (id ∷ ids) =
      ap (λ (k : List ℕ). k ++ ids) e ∙ append_assoc w.kept (id ∷ []) ids in
    rw (assoc, d) (l, count)

dropped-Swept :
    (id : ℕ) (n : ℕ) (ids : List ℕ) (w : Sweep) (disk : Disk)
    → Swept n (id ∷ ids) w
    → Swept n ids (record w { pool = set w.pool id none; dropped = w.dropped + 1; disk = disk })
dropped-Swept id n ids w disk (l, count) =
    let a = length-append w.kept (id ∷ ids) in
    let b = length-append w.kept ids in
    (remove-Lists w.pool w.kept ids id l, omega (arith, a, b, count))

sweep_page-Swept :
    (neighbor : ℕ → List ℕ) (id : ℕ) (c : PageCache) (n : ℕ) (ids : List ℕ) (w : Sweep)
    → get_or w.pool id none ≡ some c
    → Swept n (id ∷ ids) w
    → Swept n ids (sweep_page neighbor id c w)
unfolding sweep_page
sweep_page-Swept neighbor id c n ids w there (l, count) = elim (Bool-cases (ltb 1 (1 + c.clones))) [
  | inl held ↦
      rw held (kept-Swept id n ids w (record w { kept = w.kept ++ (id ∷ []) }) refl refl l count)
  | inr free ↦ elim (Bool-cases (ltb 1 (1 + c.frame_clones))) [
    | inl mapped ↦
        rw (free, mapped)
          (kept-Swept id n ids w (record w { kept = w.kept ++ (id ∷ []) }) refl refl l count)
    | inr only ↦ elim (Bool-cases (ltb 0 c.priority)) [
      | inl recent ↦
          let older : PageCache = record c { priority = c.priority - 1 } in
          rw (free, only, recent)
            (kept-Swept id n ids w
              (record w { pool = set w.pool id (some older); kept = w.kept ++ (id ∷ []) }) refl refl
              (replace-Lists w.pool (w.kept ++ (id ∷ ids)) id older (get-cached w.pool id c there)
                l)
              count)
      | inr old ↦
          rw (free, only, old)
            (dropped-Swept id n ids w (sync_page (neighbor id) w.disk c) (l, count))
    ]
  ]
]

-- The result of a sweep
abbrev Sweeps : ℕ → Option Sweep → Type 0
Sweeps n none = false ≡ true
Sweeps n (some w) = Swept n [] w

sweep-there :
    (neighbor : ℕ → List ℕ) (id : ℕ) (ids : List ℕ) (w : Sweep) (c : PageCache)
    → get_or w.pool id none ≡ some c
    → sweep neighbor (id ∷ ids) w ≡ sweep neighbor ids (sweep_page neighbor id c w)
unfolding sweep
sweep-there neighbor id ids w c e = rw (sweep, e) refl

sweep-Sweeps :
    (neighbor : ℕ → List ℕ) (n : ℕ) (ids : List ℕ) (w : Sweep)
    → Swept n ids w
    → Sweeps n (sweep neighbor ids w)
unfolding sweep
sweep-Sweeps neighbor n [] w h = h
sweep-Sweeps neighbor n (id ∷ ids) w ((l, d), count) =
    let there : cached w.pool id ≡ true =
      (let e = contains-append w.kept (id ∷ ids) id in let f = l id in ground (arith, e, f)) in
    let (c, at) = cached-get w.pool id there in
    let next = sweep_page-Swept neighbor id c n ids w at ((l, d), count) in
    subst (Sweeps n) (sym (sweep-there neighbor id ids w c at))
      (sweep-Sweeps neighbor n ids (sweep_page neighbor id c w) next)

-- Pages that `oom` leaves, and how many it says to have dropped
abbrev pub Drops : Pages → Option (ℕ × Pages × Disk) → Type 0
Drops s none = false ≡ true
Drops s (some (n, s', disk)) =
    IsTracked s' × (n + length s'.allocated_cache ≡ length s.allocated_cache)

-- If the list of allocated pages is that of the pages in the pool, each once, `oom` does not panic,
-- leaves such a list, and returns by how many pages it is shorter.
pub oom_pages-Drops :
    (neighbor : ℕ → List ℕ) (disk : Disk) (s : Pages)
    → IsTracked s
    → Drops s (oom_pages neighbor disk s)
unfolding oom_pages
oom_pages-Drops neighbor disk s h =
    let start : Sweep = record { pool = s.cache_pool; kept = []; dropped = 0; disk = disk } in
    let zero_dropped : 0 + length s.allocated_cache ≡ length s.allocated_cache = omega arith in
    as_pages (sweep neighbor s.allocated_cache start)
      (sweep-Sweeps neighbor (length s.allocated_cache) s.allocated_cache start (h, zero_dropped))
  where
    as_pages :
        (r : Option Sweep)
        → Sweeps (length s.allocated_cache) r
        → Drops s (elim r [
          | none ↦ none
          | some w ↦
              some (w.dropped, record { cache_pool = w.pool; allocated_cache = w.kept }, w.disk)
        ])
    as_pages none e = e
    as_pages (some w) (l, count) =
        let e = append-nil w.kept in
        (subst (Lists w.pool) e l, ap (λ (k : List ℕ). w.dropped + length k) (sym e) ∙ count)
