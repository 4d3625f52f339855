-- ===== src/Fs/PageCache/Allocated.antt =====
-- The list of allocated pages against the pool, in `get_cache`, `oom` and `notify_new_size`.
pub mod Sweeps
pub mod Sizes
use oskernel2023_main_os.Common.{
  Bool, Distinct, Distinct-snoc, List, Option, Option-cases, [], arith, contains, contains-snoc,
  false, get_or, inl, inr, length, length-append, length-replicate, none, not, refl, replicate, set,
  some, subst, suc, sym, true, zero, ℕ, ◌&&◌, ◌++◌, ◌-◌, ◌<◌, ◌==◌, ◌||◌, ◌∙◌, ◌∷◌, ◌≡◌,
}
use oskernel2023_main_os.Fs.Cache.{Block, Disk}
use oskernel2023_main_os.Fs.PageCache.{PageCache, Pages, get_cache, grow_pool, raise_page, read_in}
use oskernel2023_main_os.Fs.Cache.{Block}

abbrev pub cached : List (Option PageCache) → ℕ → Bool
cached [] i = false
cached (none ∷ pool) zero = false
cached (some c ∷ pool) zero = true
cached (c ∷ pool) (suc i) = cached pool i

-- The list has each page of the pool once.
abbrev pub Lists : List (Option PageCache) → List ℕ → Type 0
Lists pool ids = ((i : ℕ) → contains ids i ≡ cached pool i) × Distinct ids

abbrev pub IsTracked : Pages → Type 0
IsTracked s = Lists s.cache_pool s.allocated_cache

pub cached-set-some :
    (pool : List (Option PageCache)) (i j : ℕ) (c : PageCache)
    → i < length pool
    → cached (set pool i (some c)) j ≡ (i == j || cached pool j)
cached-set-some [] i j c h = absurd (omega arith)
cached-set-some (none ∷ pool) zero zero c h = refl
cached-set-some (some p ∷ pool) zero zero c h = refl
cached-set-some (p ∷ pool) zero (suc j) c h = ground arith
cached-set-some (p ∷ pool) (suc i) zero c h = ground arith
cached-set-some (p ∷ pool) (suc i) (suc j) c h =
    let rest = cached-set-some pool i j c (omega arith) in ground (arith, rest)

pub cached-set-none :
    (pool : List (Option PageCache)) (i j : ℕ)
    → cached (set pool i none) j ≡ (not (i == j) && cached pool j)
cached-set-none [] i j = ground arith
cached-set-none (p ∷ pool) zero zero = refl
cached-set-none (p ∷ pool) zero (suc j) = ground arith
cached-set-none (p ∷ pool) (suc i) zero = ground arith
cached-set-none (p ∷ pool) (suc i) (suc j) =
    let rest = cached-set-none pool i j in ground (arith, rest)

pub cached-length :
    (pool : List (Option PageCache)) (i : ℕ) → cached pool i ≡ true → i < length pool
cached-length [] i h = absurd (ground arith)
cached-length (p ∷ pool) zero h = omega arith
cached-length (p ∷ pool) (suc i) h = let rest = cached-length pool i h in omega (arith, rest)

pub cached-get :
    (pool : List (Option PageCache)) (i : ℕ)
    → cached pool i ≡ true
    → (c : PageCache) × (get_or pool i none ≡ some c)
cached-get [] i h = absurd (ground arith)
cached-get (none ∷ pool) zero h = absurd (ground arith)
cached-get (some c ∷ pool) zero h = (c, refl)
cached-get (p ∷ pool) (suc i) h = cached-get pool i h

pub get-cached :
    (pool : List (Option PageCache)) (i : ℕ) (c : PageCache)
    → get_or pool i none ≡ some c
    → cached pool i ≡ true
get-cached [] i c h = absurd (ground arith)
get-cached (none ∷ pool) zero c h = absurd (ground arith)
get-cached (some p ∷ pool) zero c h = refl
get-cached (p ∷ pool) (suc i) c h = get-cached pool i c h

pub get-uncached :
    (pool : List (Option PageCache)) (i : ℕ) → get_or pool i none ≡ none → cached pool i ≡ false
get-uncached [] i h = refl
get-uncached (none ∷ pool) zero h = refl
get-uncached (some p ∷ pool) zero h = absurd (ground arith)
get-uncached (p ∷ pool) (suc i) h = get-uncached pool i h

cached-grown :
    (pool : List (Option PageCache)) (n i : ℕ) → cached (pool ++ replicate n none) i ≡ cached pool i
cached-grown [] zero i = refl
cached-grown [] (suc n) zero = refl
cached-grown [] (suc n) (suc i) = cached-grown [] n i
cached-grown (none ∷ pool) n zero = refl
cached-grown (some p ∷ pool) n zero = refl
cached-grown (p ∷ pool) n (suc i) = cached-grown pool n i

length-grow_pool : (id : ℕ) (pool : List (Option PageCache)) → id < length (grow_pool id pool)
unfolding grow_pool
length-grow_pool id pool =
    let e = length-append pool (replicate {A = Option PageCache} (suc id - length pool) none) in
    let n = length-replicate {A = Option PageCache} (suc id - length pool) none in
    omega (arith, e, n)

grow_pool-Lists :
    (id : ℕ) (pool : List (Option PageCache)) (ids : List ℕ)
    → Lists pool ids
    → Lists (grow_pool id pool) ids
unfolding grow_pool
grow_pool-Lists id pool ids (h, d) =
    ((λ i. h i ∙ sym (cached-grown pool (suc id - length pool) i)), d)

pub replace-Lists :
    (pool : List (Option PageCache)) (ids : List ℕ) (id : ℕ) (c : PageCache)
    → cached pool id ≡ true
    → Lists pool ids
    → Lists (set pool id (some c)) ids
replace-Lists pool ids id c k (h, d) = (
  (λ i.
      let e = cached-set-some pool id i c (cached-length pool id k) in
      let hi = h i in ground (arith, e, hi, k)),
  d,
)

add-Lists :
    (pool : List (Option PageCache)) (ids : List ℕ) (id : ℕ) (c : PageCache)
    → id < length pool
    → cached pool id ≡ false
    → Lists pool ids
    → Lists (set pool id (some c)) (ids ++ (id ∷ []))
add-Lists pool ids id c l k (h, d) = (
  (λ i.
      let e = cached-set-some pool id i c l in
      let s = contains-snoc ids id i in let hi = h i in ground (arith, e, s, hi)),
  Distinct-snoc ids id d (h id ∙ k),
)

-- A page is there, and the list is right.
abbrev pub Gets : ℕ → Option Pages → Type 0
Gets id none = Unit
Gets id (some s) = (cached s.cache_pool id ≡ true) × IsTracked s

set-cached :
    (pool : List (Option PageCache)) (id : ℕ) (c : PageCache)
    → id < length pool
    → cached (set pool id (some c)) id ≡ true
set-cached pool id c h = let e = cached-set-some pool id id c h in ground (arith, e)

get-there :
    (id : ℕ) (fresh : PageCache) (ids : List ℕ) (zeros : Block) (disk : Disk) (s : Pages)
    → (c : PageCache) → get_or (grow_pool id s.cache_pool) id none ≡ some c
    → get_cache id fresh ids zeros disk s
      ≡ some (record s { cache_pool = set (grow_pool id s.cache_pool) id (some (raise_page c)) })
unfolding get_cache
get-there id fresh ids zeros disk s c e = rw (get_cache, e) refl

-- `get_cache` keeps the list of allocated pages that of the pages in the pool, each once, and afterwards
-- the page is in the pool, unless the blocks do not fit into a page.
pub get_cache-Gets :
    (id : ℕ) (fresh : PageCache) (ids : List ℕ) (zeros : Block) (disk : Disk) (s : Pages)
    → IsTracked s
    → Gets id (get_cache id fresh ids zeros disk s)
unfolding get_cache
get_cache-Gets id fresh ids zeros disk s h =
    elim (Option-cases (get_or (grow_pool id s.cache_pool) id none)) [
      | inr (c, there) ↦ subst (Gets id) (sym (get-there id fresh ids zeros disk s c there)) (
        set-cached (grow_pool id s.cache_pool) id (raise_page c) (length-grow_pool id s.cache_pool),
        replace-Lists (grow_pool id s.cache_pool) s.allocated_cache id (raise_page c)
            (get-cached (grow_pool id s.cache_pool) id c there)
            (grow_pool-Lists id s.cache_pool s.allocated_cache h),
      )
      | inl out ↦
          rw (get_cache, out)
            (installed (get-uncached (grow_pool id s.cache_pool) id out)
              (read_in ids zeros disk fresh))
    ]
  where
    installed :
        cached (grow_pool id s.cache_pool) id ≡ false
        → (r : Option PageCache)
        → Gets id (elim r [
          | none ↦ none
          | some c ↦ some (record {
            cache_pool = set (grow_pool id s.cache_pool) id (some (raise_page c));
            allocated_cache = s.allocated_cache ++ (id ∷ []);
          })
        ])
    installed out none = tt
    installed out (some c) = (
      set-cached (grow_pool id s.cache_pool) id (raise_page c) (length-grow_pool id s.cache_pool),
      add-Lists (grow_pool id s.cache_pool) s.allocated_cache id (raise_page c)
          (length-grow_pool id s.cache_pool) out
          (grow_pool-Lists id s.cache_pool s.allocated_cache h),
    )
