-- ===== src/Fs/Cache/Contents/Refinement.antt =====
-- One access through the pool.
use oskernel2023_main_os.Common.{
  List, Option, Option-cases, arith, false, if◌then◌else◌, inl, inr, none, refl, some, true, ℕ,
  ◌==◌, ◌∙◌, ◌≡◌, ◌≢◌,
}
use oskernel2023_main_os.Fs.Cache.{
  Block, BufferCache, Manager, access, alloc_buffer_cache, clone, drop_clone, get_block_cache,
  modify, no_block, position, priority_upperbound, raise_priority, read_block, try_get_block_cache,
  update,
}
use oskernel2023_main_os.Fs.Cache.Contents.{
  Idle, Single, caches, contents, contents-update, position-caches, uncached,
}
use oskernel2023_main_os.Fs.Cache.Contents.Eviction.{
  Allocates, PoolInv, alloc_buffer_cache-Allocates, block_view,
}
use oskernel2023_main_os.Fs.Cache.Contents.Updates.{
  contents-install, install-Single, position-install, position-update, update-Idle, update-Single,
  update-update,
}

-- What an access to a block does
abbrev pub Accesses : ℕ → (Block → Block) → Manager → Option Manager → Type 0
Accesses b f m none = false ≡ true
Accesses b f m (some m') =
    ((x : ℕ)
      → x ≢ no_block
      → block_view m' x ≡ (if b == x then f (block_view m b) else block_view m x))
    × PoolInv m'

modified-Accesses :
    (b i : ℕ) (f : Block → Block) (m : Manager) (pool : List BufferCache)
    → Single pool
    → Idle priority_upperbound (update i (λ c. drop_clone (modify f c)) pool)
    → ((x : ℕ) → x ≢ no_block → contents pool m.disk x ≡ block_view m x)
    → position b pool ≡ some i
    → b ≢ no_block
    → Accesses b f m (some (record m { cache_pool = update i (λ c. drop_clone (modify f c)) pool }))
unfolding modify
modified-Accesses b i f m pool s idle same at ne = (
  (λ x k.
      let here = same b ne in
      let there = same x k in
      let e =
        contents-update b i (λ c. drop_clone (modify f c)) f (λ c. (refl, refl)) pool m.disk at x in
      ground (arith, here, there, e)),
  (update-Single i (λ c. drop_clone (modify f c)) (λ c. refl) pool s, idle),
)

-- The cache of a block, found or installed with no lower use, is modified and let go.
let_go-Idle :
    (i : ℕ) (r : BufferCache → BufferCache) (f : Block → Block) (cs : List BufferCache)
    → ((c : BufferCache) → ((r c).clones ≡ c.clones) × ((r c).priority ≡ c.priority))
    → Idle priority_upperbound cs
    → Idle priority_upperbound
        (update i (λ c. drop_clone (modify f c)) (update i (λ c. clone (raise_priority (r c))) cs))
unfolding modify
let_go-Idle i r f cs k idle =
    rw (update-update i (λ c. clone (raise_priority (r c))) (λ c. drop_clone (modify f c)) cs) (
      update-Idle priority_upperbound i (λ c. drop_clone (modify f (clone (raise_priority (r c)))))
        (λ c h. let e = k c in ground (arith, e)) cs idle)

hit-Accesses :
    (b i : ℕ) (f : Block → Block) (m : Manager)
    → PoolInv m
    → b ≢ no_block
    → position b m.cache_pool ≡ some i
    → Accesses b f m (
        some (record m {
          cache_pool =
              update i
                (λ c. drop_clone (modify f c))
                (update i (λ c. clone (raise_priority c)) m.cache_pool);
        }))
hit-Accesses b i f m (s, idle) ne at =
    let touch : BufferCache → BufferCache = λ c. clone (raise_priority c) in
    modified-Accesses b i f m (update i touch m.cache_pool)
      (update-Single i touch (λ c. refl) m.cache_pool s)
      (let_go-Idle i (λ c. c) f m.cache_pool (λ c. (refl, refl)) idle)
      (λ x k.
        let e = contents-update b i touch (λ v. v) (λ c. (refl, refl)) m.cache_pool m.disk at x in
        ground (arith, e))
      (position-update b i touch (λ c. refl) m.cache_pool ∙ at) ne

miss-Accesses :
    (b i : ℕ) (f : Block → Block) (m : Manager)
    → PoolInv m
    → b ≢ no_block
    → caches m.cache_pool b ≡ false
    → position no_block m.cache_pool ≡ some i
    → Accesses b f m (
        some (record m {
          cache_pool =
              update i
                (λ c. drop_clone (modify f c))
                (update i (λ c. clone (raise_priority (read_block b m.disk c))) m.cache_pool);
        }))
unfolding read_block
miss-Accesses b i f m (s, idle) ne out at =
    let load : BufferCache → BufferCache = λ c. clone (raise_priority (read_block b m.disk c)) in
    modified-Accesses b i f m (update i load m.cache_pool)
      (install-Single b i load (λ c. refl) m.cache_pool out s)
      (let_go-Idle i (read_block b m.disk) f m.cache_pool (λ c. (refl, refl)) idle)
      (λ x k.
        let e =
          contents-install b i load (m.disk b) (λ c. (refl, refl)) m.cache_pool m.disk at out x k in
        let d = uncached b m.cache_pool m.disk out in ground (arith, e, d))
      (position-install b i load (λ c. refl) m.cache_pool at out) ne

Accesses-same :
    (b : ℕ) (f : Block → Block) (m m' : Manager) (r : Option Manager)
    → b ≢ no_block
    → ((x : ℕ) → x ≢ no_block → block_view m' x ≡ block_view m x)
    → Accesses b f m' r
    → Accesses b f m r
Accesses-same b f m m' none ne same h = h
Accesses-same b f m m' (some n) ne same (at, inv) = (
  (λ x k.
      let e = at x k in
      let here = same b ne in let there = same x k in ground (arith, e, here, there)),
  inv,
)

abbrev install : ℕ → Option (ℕ × Manager) → Option (ℕ × Manager)
install b none = none
install b (some (i, m)) = some (
  i,
  record m {
    cache_pool = update i (λ c. clone (raise_priority (read_block b m.disk c))) m.cache_pool;
  },
)

abbrev let_go : (Block → Block) → Option (ℕ × Manager) → Option Manager
let_go f none = none
let_go f (some (i, m)) =
    some (record m { cache_pool = update i (λ c. drop_clone (modify f c)) m.cache_pool })

allocated-Accesses :
    (b : ℕ) (f : Block → Block) (m : Manager) (r : Option (ℕ × Manager))
    → b ≢ no_block
    → caches m.cache_pool b ≡ false
    → Allocates m r
    → Accesses b f m (let_go f (install b r))
allocated-Accesses b f m none ne out h = h
allocated-Accesses b f m (some (i, n)) ne out (at, same, fewer, inv) =
    Accesses-same b f m n (let_go f (install b (some (i, n)))) ne same
      (miss-Accesses b i f n inv ne (fewer b ne out) at)

get-hit :
    (n b i : ℕ) (m : Manager)
    → position b m.cache_pool ≡ some i
    → get_block_cache n b m
      ≡ some (i, record m { cache_pool = update i (λ c. clone (raise_priority c)) m.cache_pool })
unfolding get_block_cache try_get_block_cache
get-hit n b i m at = ground (arith, at)

get-miss :
    (n b : ℕ) (m : Manager)
    → position b m.cache_pool ≡ none
    → get_block_cache n b m ≡ install b (alloc_buffer_cache n m)
unfolding get_block_cache try_get_block_cache
get-miss n b m out =
    rw (out, get_block_cache, try_get_block_cache) (installs b (alloc_buffer_cache n m))
  where
    installs :
        (b : ℕ) (r : Option (ℕ × Manager))
        → elim r [
          | none ↦ none
          | some (i, m') ↦ some (
            i,
            record m' {
              cache_pool =
                  update i (λ c. clone (raise_priority (read_block b m'.disk c))) m'.cache_pool;
            },
          )
        ]
          ≡ install b r
    installs b none = refl
    installs b (some (i, m')) = refl

access_lem :
    (n b : ℕ) (f : Block → Block) (m : Manager) → access n b f m ≡ let_go f (get_block_cache n b m)
unfolding access
access_lem n b f m = lets_go (get_block_cache n b m)
  where
    lets_go :
        (r : Option (ℕ × Manager))
        → elim r [
          | none ↦ none
          | some (i, m') ↦
              some
                (record m' { cache_pool = update i (λ c. drop_clone (modify f c)) m'.cache_pool })
        ]
          ≡ let_go f r
    lets_go none = refl
    lets_go (some (i, m')) = refl

-- From a pool where no block has two caches and some cache is held by nobody, an access to a block that is
-- not `usize::MAX` returns, changes the contents of its block by the given function, keeps those of
-- every other block, whether cached, evicted or on the device, and leaves such a pool.
pub access-Accesses :
    (b : ℕ) (f : Block → Block) (m : Manager)
    → b ≢ no_block
    → PoolInv m
    → Accesses b f m (access 3 b f m)
access-Accesses b f m ne inv = elim (Option-cases (position b m.cache_pool)) [
  | inr (i, at) ↦ rw (access_lem 3 b f m, get-hit 3 b i m at) (hit-Accesses b i f m inv ne at)
  | inl out ↦
      rw (access_lem 3 b f m, get-miss 3 b m out)
        (allocated-Accesses b f m (alloc_buffer_cache 3 m) ne (position-caches b m.cache_pool out)
          (alloc_buffer_cache-Allocates m inv))
]
