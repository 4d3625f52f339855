-- ===== src/Fs/Cache/Tests.antt =====
-- A pool of two caches, one of which a task holds.
use mathlib.Core.Option
use oskernel2023_main_os.Common.{List, [], arith, inl, inr, none, refl, some, ℕ, ◌∷◌, ◌≡◌}
use oskernel2023_main_os.Fs.Cache.{
  BufferCache, Disk, Manager, accesses, alloc_buffer_cache, get_block_cache, new_manager,
}
use oskernel2023_main_os.Fs.Cache.Contents.Eviction.{
  Allocates, PoolInv, alloc_buffer_cache-Allocates,
}
use oskernel2023_main_os.Fs.Cache.Contents.Store.{Implements, accesses-new_manager, store}

abbrev device : Disk
device b = b ∷ []

abbrev small : Manager
small = record {
  cache_pool =
      record { priority = 1; block_id = 7; buffer = 70 ∷ []; clones = 1 }
      ∷ record { priority = 1; block_id = 8; buffer = 80 ∷ []; clones = 0 }
      ∷ [];
  disk = device;
}

small-PoolInv : PoolInv small
small-PoolInv = (((λ h. refl), ((λ h. refl), tt)), inr (inl (refl, omega arith)))

-- The cache of block 8 is written back and reused.
evicts :
    Option.map {B = ℕ × List BufferCache}
      (λ (r : ℕ × Manager). (r.0, r.1.cache_pool))
      (get_block_cache 3 9 small)
    ≡ some (
      1,
      record { priority = 1; block_id = 7; buffer = 70 ∷ []; clones = 1 }
          ∷ record { priority = 1; block_id = 9; buffer = 9 ∷ []; clones = 1 }
          ∷ [],
    )
unfolding get_block_cache
evicts = refl

writes_back :
    Option.map (λ (r : ℕ × Manager). r.1.disk 8) (get_block_cache 3 9 small) ≡ some (80 ∷ [])
unfolding get_block_cache
writes_back = refl

-- Two rounds are too few.
two_rounds : get_block_cache 2 9 small ≡ none
unfolding get_block_cache
two_rounds = refl

alloc_buffer_cache-Allocates_example : Allocates small (alloc_buffer_cache 3 small)
alloc_buffer_cache-Allocates_example = alloc_buffer_cache-Allocates small small-PoolInv

accesses-new_manager_example :
    Implements
      (store ((9, λ v. 1 ∷ v) ∷ (8, λ v. 2 ∷ v) ∷ []) device)
      (accesses 3 ((9, λ v. 1 ∷ v) ∷ (8, λ v. 2 ∷ v) ∷ []) (new_manager [] device))
accesses-new_manager_example =
    accesses-new_manager ((9, λ v. 1 ∷ v) ∷ (8, λ v. 2 ∷ v) ∷ []) [] device
      ((λ e. absurd (omega (arith, e))), ((λ e. absurd (omega (arith, e))), tt))
