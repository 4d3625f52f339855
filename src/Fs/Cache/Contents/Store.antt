-- ===== src/Fs/Cache/Contents/Store.antt =====
-- The pool and the device as one store of blocks.
use oskernel2023_main_os.Common.{
  All, List, Option, [], arith, false, if◌then◌else◌, inl, none, refl, replicate, some, suc, true,
  zero, ℕ, ◌==◌, ◌∙◌, ◌∷◌, ◌≡◌, ◌≢◌,
}
use oskernel2023_main_os.Fs.Cache.{
  Block, Disk, Manager, access, accesses, new_cache, new_manager, no_block,
}
use oskernel2023_main_os.Fs.Cache.Contents.Eviction.{PoolInv, block_view}
use oskernel2023_main_os.Fs.Cache.Contents.Refinement.{Accesses, access-Accesses}
use oskernel2023_main_os.Fs.Cache.Contents.{Single, contents}

-- The store that the accesses are meant for
abbrev pub store : List (ℕ × (Block → Block)) → Disk → Disk
store [] d = d
store (a ∷ more) d = store more (λ x. if a.0 == x then a.1 (d a.0) else d x)

abbrev pub Implements : Disk → Option Manager → Type 0
Implements d none = false ≡ true
Implements d (some m) = (x : ℕ) → x ≢ no_block → block_view m x ≡ d x

store_same :
    (calls : List (ℕ × (Block → Block))) (d d' : Disk)
    → All (λ a. a.0 ≢ no_block) calls
    → ((x : ℕ) → x ≢ no_block → d x ≡ d' x)
    → (x : ℕ) → x ≢ no_block
    → store calls d x ≡ store calls d' x
store_same [] d d' h e x k = e x k
store_same (a ∷ more) d d' h e x k =
    store_same more (λ x. if a.0 == x then a.1 (d a.0) else d x)
      (λ x. if a.0 == x then a.1 (d' a.0) else d' x) h.1
      (λ x k. let here = e a.0 h.0 in let there = e x k in rw (here, there) refl) x k

store-Implements :
    (calls : List (ℕ × (Block → Block))) (d d' : Disk) (r : Option Manager)
    → All (λ a. a.0 ≢ no_block) calls
    → ((x : ℕ) → x ≢ no_block → d x ≡ d' x)
    → Implements (store calls d) r
    → Implements (store calls d') r
store-Implements calls d d' none h e k = k
store-Implements calls d d' (some m) h e k = λ x l. k x l ∙ store_same calls d d' h e x l

-- A sequence of accesses to blocks other than `usize::MAX`, from a pool where no block has two caches and
-- some cache is held by nobody, returns, and what pool and device then hold is what a plain store of
-- blocks holds after the same changes: no eviction or reuse of a cache loses a change.
pub accesses-store :
    (calls : List (ℕ × (Block → Block))) (m : Manager)
    → All (λ a. a.0 ≢ no_block) calls
    → PoolInv m
    → Implements (store calls (block_view m)) (accesses 3 calls m)
unfolding accesses
accesses-store [] m h inv = λ x k. refl
accesses-store (a ∷ more) m h inv =
    go (access 3 a.0 a.1 m) (access-Accesses a.0 a.1 m h.0 inv)
      (λ m' inv'. accesses-store more m' h.1 inv')
  where
    go :
        (r : Option Manager)
        → Accesses a.0 a.1 m r
        → ((n : Manager) → PoolInv n → Implements (store more (block_view n)) (accesses 3 more n))
        → Implements
            (store (a ∷ more) (block_view m))
            (elim r [ none ↦ none | some m' ↦ accesses 3 more m' ])
    go none e rest = e
    go (some m') (same, inv') rest =
        store-Implements more (block_view m')
          (λ x. if a.0 == x then a.1 (block_view m a.0) else block_view m x) (accesses 3 more m')
          h.1 same (rest m' inv')

unused-Single : (n : ℕ) (buffer : Block) → Single (replicate n (new_cache buffer))
unfolding new_cache
unused-Single zero buffer = tt
unused-Single (suc n) buffer = ((λ h. absurd (h refl)), unused-Single n buffer)

unused-contents :
    (n : ℕ) (buffer : Block) (disk : Disk) (x : ℕ)
    → x ≢ no_block
    → contents (replicate n (new_cache buffer)) disk x ≡ disk x
unfolding new_cache
unused-contents zero buffer disk x h = refl
unused-contents (suc n) buffer disk x h = ground (arith, unused-contents n buffer disk x h)

pub new_manager-PoolInv : (buffer : Block) (disk : Disk) → PoolInv (new_manager buffer disk)
unfolding new_manager new_cache
new_manager-PoolInv buffer disk = (unused-Single 16 buffer, inl (refl, omega arith))

-- A sequence of accesses through a new pool, to blocks other than `usize::MAX`, returns, and what pool
-- and device then hold is what the device would hold had each change been made on it at once: no
-- eviction or reuse of a cache loses a change.
pub accesses-new_manager :
    (calls : List (ℕ × (Block → Block))) (buffer : Block) (disk : Disk)
    → All (λ a. a.0 ≢ no_block) calls
    → Implements (store calls disk) (accesses 3 calls (new_manager buffer disk))
unfolding new_manager
accesses-new_manager calls buffer disk h =
    store-Implements calls (block_view (new_manager buffer disk)) disk
      (accesses 3 calls (new_manager buffer disk)) h (λ x k. unused-contents 16 buffer disk x k)
      (accesses-store calls (new_manager buffer disk) h (new_manager-PoolInv buffer disk))
