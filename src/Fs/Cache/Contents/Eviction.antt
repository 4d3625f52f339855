-- ===== src/Fs/Cache/Contents/Eviction.antt =====
-- `oom`, and the search for an unused cache.
use oskernel2023_main_os.Common.{
  List, Option, Option-cases, [], arith, false, inl, inr, none, refl, some, suc, true, ℕ, ◌∙◌, ◌∷◌,
  ◌≡◌, ◌≢◌, ◌⊎◌,
}
use oskernel2023_main_os.Fs.Cache.{
  BufferCache, Disk, Manager, alloc_buffer_cache, no_block, oom, oom_cache, oom_pool, position,
  priority_upperbound, write_block,
}
use oskernel2023_main_os.Fs.Cache.Contents.{
  Idle, Single, caches, caches-position, contents, contents-disk, uncached,
}

oom_cache-contents :
    (c : BufferCache) (cs : List BufferCache) (disk : Disk) (b : ℕ)
    → b ≢ no_block
    → (c.block_id ≢ no_block → caches cs c.block_id ≡ false)
    → contents ((oom_cache c disk).0 ∷ cs) (oom_cache c disk).1 b ≡ contents (c ∷ cs) disk b
unfolding oom_cache
oom_cache-contents c cs disk b h s =
    let keep = contents-disk cs disk (write_block disk c.block_id c.buffer) b in
    let own = uncached b cs (write_block disk c.block_id c.buffer) in ground (arith, keep, own)

oom_cache-block_id :
    (c : BufferCache) (disk : Disk)
    → ((oom_cache c disk).0.block_id ≡ c.block_id) ⊎ ((oom_cache c disk).0.block_id ≡ no_block)
unfolding oom_cache
oom_cache-block_id c disk = ground arith

-- What `oom` keeps, and what it does for the search of an unused cache
abbrev pub Evicts : List BufferCache → Disk → List BufferCache × Disk → Type 0
Evicts cs disk (cs', disk') =
    ((b : ℕ) → b ≢ no_block → contents cs' disk' b ≡ contents cs disk b)
    × Single cs'
    × ((b : ℕ) → b ≢ no_block → caches cs b ≡ false → caches cs' b ≡ false)

oom_pool-Evicts :
    (cs : List BufferCache) (disk : Disk) → Single cs → Evicts cs disk (oom_pool cs disk)
unfolding oom_pool
oom_pool-Evicts [] disk s = ((λ b h. refl), tt, (λ b h k. refl))
oom_pool-Evicts (c ∷ cs) disk s =
    let d = (oom_cache c disk).1 in
    let (same, single, fewer) = oom_pool-Evicts cs d s.1 in
    let id = oom_cache-block_id c disk in
    (
      (λ b h.
          let rest = same b h in
          let one = oom_cache-contents c cs disk b h s.0 in ground (arith, rest, one)),
      (
        (λ h. elim id [
          | inl e ↦
              let k : c.block_id ≢ no_block = λ n. h (e ∙ n) in rw e (fewer c.block_id k (s.0 k))
          | inr e ↦ absurd (h e)
        ]),
        single,
      ),
      (λ b h k. let rest = fewer b h in ground (arith, rest, id)),
    )

oom_pool-Idle :
    (p : ℕ) (cs : List BufferCache) (disk : Disk) → Idle p cs → Idle p (oom_pool cs disk).0
unfolding oom_pool oom_cache
oom_pool-Idle p [] disk h = h
oom_pool-Idle p (c ∷ cs) disk (inl h) = inl (ground arith)
oom_pool-Idle p (c ∷ cs) disk (inr h) = inr (oom_pool-Idle p cs (oom_cache c disk).1 h)

-- A round of `oom` frees an idle cache, or lowers its priority.
oom_pool-lower :
    (p : ℕ) (cs : List BufferCache) (disk : Disk)
    → Idle (suc p) cs
    → Idle p (oom_pool cs disk).0 ⊎ (caches (oom_pool cs disk).0 no_block ≡ true)
unfolding oom_pool oom_cache
oom_pool-lower p [] disk h = inl h
oom_pool-lower p (c ∷ cs) disk (inl h) = ground arith
oom_pool-lower p (c ∷ cs) disk (inr h) = elim (oom_pool-lower p cs (oom_cache c disk).1 h) [
  | inl idle ↦ inl (inr idle)
  | inr free ↦ inr (rw free (ground arith))
]

oom_pool-frees :
    (cs : List BufferCache) (disk : Disk) → Idle 0 cs → caches (oom_pool cs disk).0 no_block ≡ true
unfolding oom_pool oom_cache
oom_pool-frees [] disk h = h
oom_pool-frees (c ∷ cs) disk (inl h) = ground arith
oom_pool-frees (c ∷ cs) disk (inr h) =
    let free = oom_pool-frees cs (oom_cache c disk).1 h in ground (arith, free)

-- What holds between two accesses: no block has two caches, and some cache is held by nobody.
abbrev pub PoolInv : Manager → Type 0
PoolInv m = Single m.cache_pool × Idle priority_upperbound m.cache_pool

abbrev pub block_view : Manager → Disk
block_view m = contents m.cache_pool m.disk

-- The place of an unused cache, and a pool of the same contents
abbrev pub Allocates : Manager → Option (ℕ × Manager) → Type 0
Allocates m none = false ≡ true
Allocates m (some (i, m')) =
    (position no_block m'.cache_pool ≡ some i)
    × ((b : ℕ) → b ≢ no_block → block_view m' b ≡ block_view m b)
    × ((b : ℕ) → b ≢ no_block → caches m.cache_pool b ≡ false → caches m'.cache_pool b ≡ false)
    × PoolInv m'

oom-Evicts :
    (m : Manager)
    → Single m.cache_pool
    → Evicts m.cache_pool m.disk ((oom m).cache_pool, (oom m).disk)
unfolding oom
oom-Evicts m s = oom_pool-Evicts m.cache_pool m.disk s

Allocates-trans :
    (m : Manager) (r : Option (ℕ × Manager))
    → Single m.cache_pool
    → Allocates (oom m) r
    → Allocates m r
Allocates-trans m none s h = h
Allocates-trans m (some (i, m')) s (at, same, fewer, inv) =
    let (same', single, fewer') = oom-Evicts m s in
    (at, (λ b k. same b k ∙ same' b k), (λ b k e. fewer b k (fewer' b k e)), inv)

found-Allocates :
    (m : Manager) (i : ℕ)
    → PoolInv m
    → position no_block m.cache_pool ≡ some i
    → Allocates m (some (i, m))
found-Allocates m i inv at = (at, (λ b k. refl), (λ b k e. e), inv)

round-found :
    (n i : ℕ) (m : Manager)
    → position no_block m.cache_pool ≡ some i
    → alloc_buffer_cache (suc n) m ≡ some (i, m)
unfolding alloc_buffer_cache
round-found n i m e = ground arith

round-oom :
    (n : ℕ) (m : Manager)
    → position no_block m.cache_pool ≡ none
    → alloc_buffer_cache (suc n) m ≡ alloc_buffer_cache n (oom m)
unfolding alloc_buffer_cache
round-oom n m e = ground arith

-- After a round of `oom` that leaves an unused cache one more round of the loop finds it.
freed-Allocates :
    (n : ℕ) (m : Manager)
    → PoolInv m
    → caches m.cache_pool no_block ≡ true
    → Allocates m (alloc_buffer_cache (suc n) m)
unfolding alloc_buffer_cache
freed-Allocates n m inv free = elim (Option-cases (position no_block m.cache_pool)) [
  | inl e ↦ absurd (caches-position no_block m.cache_pool free e)
  | inr (i, e) ↦ rw (round-found n i m e) (found-Allocates m i inv e)
]

oom-PoolInv : (m : Manager) → PoolInv m → PoolInv (oom m)
unfolding oom
oom-PoolInv m (s, idle) =
    ((oom-Evicts m s).1, oom_pool-Idle priority_upperbound m.cache_pool m.disk idle)

last-Allocates :
    (m : Manager) → PoolInv m → Idle 0 m.cache_pool → Allocates m (alloc_buffer_cache 2 m)
unfolding oom
last-Allocates m inv idle = elim (Option-cases (position no_block m.cache_pool)) [
  | inr (i, e) ↦ rw (round-found 1 i m e) (found-Allocates m i inv e)
  | inl e ↦ rw (round-oom 1 m e) (
      Allocates-trans m (alloc_buffer_cache 1 (oom m)) inv.0
        (freed-Allocates 0 (oom m) (oom-PoolInv m inv) (oom_pool-frees m.cache_pool m.disk idle)))
]

-- From a pool where no block has two caches and some cache is held by nobody, three rounds of the loop
-- of `alloc_buffer_cache` find an unused cache; no other block loses its contents or gains a cache.
pub alloc_buffer_cache-Allocates : (m : Manager) → PoolInv m → Allocates m (alloc_buffer_cache 3 m)
unfolding oom
alloc_buffer_cache-Allocates m inv = elim (Option-cases (position no_block m.cache_pool)) [
  | inr (i, e) ↦ rw (round-found 2 i m e) (found-Allocates m i inv e)
  | inl e ↦ rw (round-oom 2 m e) (
      Allocates-trans m (alloc_buffer_cache 2 (oom m)) inv.0
        (elim (oom_pool-lower 0 m.cache_pool m.disk inv.1) [
          | inl idle ↦ last-Allocates (oom m) (oom-PoolInv m inv) idle
          | inr free ↦ freed-Allocates 1 (oom m) (oom-PoolInv m inv) free
        ]))
]
