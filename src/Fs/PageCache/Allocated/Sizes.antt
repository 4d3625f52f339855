-- ===== src/Fs/PageCache/Allocated/Sizes.antt =====
-- `notify_new_size`.
use oskernel2023_main_os.Common.{
  Bool-cases, Distinct, List, Option, Option-cases, [], add64, ap, arith, contains, get_or, inl,
  inr, ltb, none, refl, some, sub64, subst, suc, sym, take, zero, ℕ, ◌&&◌, ◌+◌, ◌-◌, ◌/◌, ◌<◌, ◌^◌,
  ◌∙◌, ◌∷◌, ◌≡◌, ◌≤◌,
}
use oskernel2023_main_os.Fs.PageCache.{PageCache, Pages, below, notify_new_size, pop_pages}
use oskernel2023_main_os.Fs.PageCache.Allocated.{IsTracked, cached}

kept_first :
    (n : ℕ) (c : Option PageCache) (pool rest : List (Option PageCache)) (i : ℕ)
    → ((j : ℕ) → cached rest j ≡ (ltb j n && cached pool j))
    → cached (c ∷ rest) i ≡ (ltb i (suc n) && cached (c ∷ pool) i)
kept_first n none pool rest zero h = ground arith
kept_first n (some c) pool rest zero h = ground arith
kept_first n c pool rest (suc i) h = let e = h i in ground (arith, e)

pop_pages-cached :
    (n : ℕ) (pool pool' : List (Option PageCache)) (i : ℕ)
    → pop_pages n pool ≡ some pool'
    → cached pool' i ≡ (ltb i n && cached pool i)
unfolding pop_pages
pop_pages-cached zero [] pool' i h = ground arith
pop_pages-cached (suc n) [] pool' i h = ground arith
pop_pages-cached zero (none ∷ pool) pool' i h =
    let rest = pop_pages-cached zero pool pool' i h in ground (arith, rest)
pop_pages-cached zero (some c ∷ pool) pool' i h =
    let rest = pop_pages-cached zero pool pool' i in ground (arith, rest, h)
pop_pages-cached (suc n) (c ∷ pool) pool' i h = elim (Option-cases (pop_pages n pool)) [
  | inl e ↦ absurd (ground (arith, h, e))
  | inr (rest, e) ↦
      let same : c ∷ rest ≡ pool' = ground (arith, h, e) in
      subst (λ (p : List (Option PageCache)). cached p i ≡ (ltb i (suc n) && cached (c ∷ pool) i))
        same (kept_first n c pool rest i (λ j. pop_pages-cached n pool rest j e))
]

contains-below :
    (n : ℕ) (xs : List ℕ) (i : ℕ) → contains (below n xs) i ≡ (ltb i n && contains xs i)
contains-below n [] i = ground arith
contains-below n (x ∷ xs) i = let rest = contains-below n xs i in ground (arith, rest)

below-Distinct : (n : ℕ) (xs : List ℕ) → Distinct xs → Distinct (below n xs)
below-Distinct n [] d = tt
below-Distinct n (x ∷ xs) d =
    let rest = below-Distinct n xs d.1 in
    let e = contains-below n xs x in ground (arith, rest, e, d)

-- The loop takes out every page from a place on, and meets no held one.
pop_pages-take :
    (n : ℕ) (pool pool' : List (Option PageCache))
    → pop_pages n pool ≡ some pool'
    → pool' ≡ take n pool
unfolding pop_pages
pop_pages-take zero [] pool' h = ground arith
pop_pages-take (suc n) [] pool' h = ground arith
pop_pages-take zero (none ∷ pool) pool' h = pop_pages-take zero pool pool' h
pop_pages-take zero (some c ∷ pool) pool' h =
    let rest = pop_pages-take zero pool pool' in ground (arith, rest, h)
pop_pages-take (suc n) (c ∷ pool) pool' h = elim (Option-cases (pop_pages n pool)) [
  | inl e ↦ absurd (ground (arith, h, e))
  | inr (rest, e) ↦
      let same : c ∷ rest ≡ pool' = ground (arith, h, e) in
      sym same ∙ ap (◌∷◌ c) (pop_pages-take n pool rest e)
]

-- Some page from a place on has a clone.
abbrev pub HeldFrom : ℕ → List (Option PageCache) → Type 0
HeldFrom n pool =
    (i : ℕ) × (c : PageCache) × (n ≤ i) × (get_or pool i none ≡ some c) × (0 < c.clones)

abbrev pub FreeFrom : ℕ → List (Option PageCache) → Type 0
FreeFrom n pool = (i : ℕ) (c : PageCache) → n ≤ i → get_or pool i none ≡ some c → c.clones ≡ 0

HeldFrom-cons :
    (n : ℕ) (p : Option PageCache) (pool : List (Option PageCache))
    → HeldFrom n pool
    → HeldFrom (suc n) (p ∷ pool)
HeldFrom-cons n p pool (i, c, at, e, held) = (suc i, c, omega (arith, at), e, held)

HeldFrom-zero :
    (p : Option PageCache) (pool : List (Option PageCache))
    → HeldFrom 0 pool
    → HeldFrom 0 (p ∷ pool)
HeldFrom-zero p pool (i, c, at, e, held) = (suc i, c, omega arith, e, held)

pop_pages-HeldFrom :
    (n : ℕ) (pool : List (Option PageCache)) → pop_pages n pool ≡ none → HeldFrom n pool
unfolding pop_pages
pop_pages-HeldFrom zero [] h = absurd (ground arith)
pop_pages-HeldFrom (suc n) [] h = absurd (ground arith)
pop_pages-HeldFrom zero (none ∷ pool) h = HeldFrom-zero none pool (pop_pages-HeldFrom zero pool h)
pop_pages-HeldFrom zero (some c ∷ pool) h = elim (Bool-cases (ltb 1 (1 + c.clones))) [
  | inl held ↦ (0, c, omega arith, refl, ground arith)
  | inr free ↦ HeldFrom-zero (some c) pool (pop_pages-HeldFrom zero pool (ground (arith, h, free)))
]
pop_pages-HeldFrom (suc n) (c ∷ pool) h = elim (Option-cases (pop_pages n pool)) [
  | inl e ↦ HeldFrom-cons n c pool (pop_pages-HeldFrom n pool e)
  | inr (rest, e) ↦ absurd (ground (arith, h, e))
]

pop_pages-FreeFrom :
    (n : ℕ) (pool pool' : List (Option PageCache)) → pop_pages n pool ≡ some pool' → FreeFrom n pool
unfolding pop_pages
pop_pages-FreeFrom n [] pool' h i c at e = absurd (ground arith)
pop_pages-FreeFrom zero (none ∷ pool) pool' h zero c at e = absurd (ground arith)
pop_pages-FreeFrom zero (none ∷ pool) pool' h (suc i) c at e =
    pop_pages-FreeFrom zero pool pool' h i c (omega arith) e
pop_pages-FreeFrom zero (some p ∷ pool) pool' h zero c at e =
    elim (Bool-cases (ltb 1 (1 + p.clones))) [
      | inl held ↦ absurd (ground (arith, h, held))
      | inr free ↦ ground arith
    ]
pop_pages-FreeFrom zero (some p ∷ pool) pool' h (suc i) c at e =
    elim (Bool-cases (ltb 1 (1 + p.clones))) [
      | inl held ↦ absurd (ground (arith, h, held))
      | inr free ↦ pop_pages-FreeFrom zero pool pool' (ground (arith, h, free)) i c (omega arith) e
    ]
pop_pages-FreeFrom (suc n) (p ∷ pool) pool' h zero c at e = absurd (omega (arith, at))
pop_pages-FreeFrom (suc n) (p ∷ pool) pool' h (suc i) c at e =
    elim (Option-cases (pop_pages n pool)) [
      | inl lost ↦ absurd (ground (arith, h, lost))
      | inr (rest, f) ↦ pop_pages-FreeFrom n pool rest f i c (omega (arith, at)) e
    ]

-- What is left of a file of so many pages; it panics over a held page behind them.
abbrev pub CutsTo : ℕ → Pages → Option Pages → Type 0
CutsTo n s none = HeldFrom n s.cache_pool
CutsTo n s (some s') =
    FreeFrom n s.cache_pool
    × (s'.cache_pool ≡ take n s.cache_pool)
    × IsTracked s'
    × ((i : ℕ) → cached s'.cache_pool i ≡ (ltb i n && cached s.cache_pool i))

abbrev cut_to : ℕ → Pages → Option (List (Option PageCache)) → Option Pages
cut_to n s r = elim r [
  | none ↦ none
  | some pool ↦ some (record { cache_pool = pool; allocated_cache = below n s.allocated_cache })
]

-- If the list of allocated pages is that of the pages in the pool, each once, and the size is a size of a
-- file, `notify_new_size` panics exactly if somebody holds a page that begins at or behind the size.
-- Otherwise it takes out those pages and keeps the others as they are, and the list is again that
-- of the pages in the pool.
pub notify_new_size-CutsTo :
    (new_size : ℕ) (s : Pages)
    → new_size < 2 ^ 64 - 4096
    → IsTracked s
    → CutsTo ((new_size + 4095) / 4096) s (notify_new_size new_size s)
unfolding notify_new_size
notify_new_size-CutsTo new_size s small (h, d) =
    let up : sub64 (add64 new_size 4096) 1 / 4096 ≡ (new_size + 4095) / 4096 = omega arith in
    subst (λ n. CutsTo ((new_size + 4095) / 4096) s (cut_to n s (pop_pages n s.cache_pool)))
      (sym up) (cut ((new_size + 4095) / 4096))
  where
    left :
        (n : ℕ) (pool : List (Option PageCache))
        → pop_pages n s.cache_pool ≡ some pool
        → CutsTo n s
            (some (record { cache_pool = pool; allocated_cache = below n s.allocated_cache }))
    left n pool e = (
      pop_pages-FreeFrom n s.cache_pool pool e,
      pop_pages-take n s.cache_pool pool e,
      (
        (λ i.
            let k = pop_pages-cached n s.cache_pool pool i e in
            let b = contains-below n s.allocated_cache i in
            let hi = h i in ground (arith, k, b, hi)),
        below-Distinct n s.allocated_cache d,
      ),
      λ i. pop_pages-cached n s.cache_pool pool i e,
    )

    cut : (n : ℕ) → CutsTo n s (cut_to n s (pop_pages n s.cache_pool))
    cut n = elim (Option-cases (pop_pages n s.cache_pool)) [
      | inl e ↦ subst (λ r. CutsTo n s (cut_to n s r)) (sym e) (pop_pages-HeldFrom n s.cache_pool e)
      | inr (pool, e) ↦ subst (λ r. CutsTo n s (cut_to n s r)) (sym e) (left n pool e)
    ]
