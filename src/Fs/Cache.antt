-- ===== src/Fs/Cache.antt =====
-- kernel/src/fs/cache.rs: the pool of block caches (`BufferCache`, `BlockCacheManager`). The device keeps
-- what is written to each of its blocks. Besides the pool's own reference, a cache has clones, which
-- tasks hold: `Arc::strong_count` is one more than their number.
pub mod Contents
mod Tests
use oskernel2023_main_os.Common.{
  List, Option, [], if◌then◌else◌, ltb, none, replicate, some, suc, zero, ℕ, ◌+◌, ◌-◌, ◌==◌, ◌^◌,
  ◌∷◌,
}

abbrev pub Block : Type 0
Block = List ℕ

abbrev pub Disk : Type 0
Disk = ℕ → Block

-- `block_device.write_block` of one block
abbrev pub write_block : Disk → ℕ → Block → Disk
write_block disk block_id buf b = if b == block_id then buf else disk b

-- `usize::MAX`, the block of an unused cache
abbrev pub no_block : ℕ
no_block = 2 ^ 64 - 1

abbrev pub priority_upperbound : ℕ
priority_upperbound = 1

pub record BufferCache : Type 0 where
  pub priority : ℕ
  pub block_id : ℕ
  pub buffer : Block
  pub clones : ℕ

pub record Manager : Type 0 where
  pub cache_pool : List BufferCache
  pub disk : Disk

unfoldable pub new_cache : Block → BufferCache
new_cache buffer = record { priority = 0; block_id = no_block; buffer = buffer; clones = 0 }

-- `BlockCacheManager::new`: two pages of eight buffers each, with what the frames hold
unfoldable pub new_manager : Block → Disk → Manager
unfolding new_cache
new_manager buffer disk = record { cache_pool = replicate 16 (new_cache buffer); disk = disk }

-- One cache in `oom`
unfoldable pub oom_cache : BufferCache → Disk → BufferCache × Disk
oom_cache c disk =
    if ltb 1 (1 + c.clones)
    then (c, disk)
    else if ltb 0 c.priority
    then (record c { priority = c.priority - 1 }, disk)
    else (record c { block_id = no_block }, write_block disk c.block_id c.buffer)

unfoldable pub oom_pool : List BufferCache → Disk → List BufferCache × Disk
unfolding oom_cache
oom_pool [] disk = ([], disk)
oom_pool (c ∷ cs) disk =
    let (c', disk') = oom_cache c disk in
    let (cs', disk'') = oom_pool cs disk' in (c' ∷ cs', disk'')

unfoldable pub oom : Manager → Manager
unfolding oom_pool
oom m = let (pool, disk) = oom_pool m.cache_pool m.disk in record { cache_pool = pool; disk = disk }

-- The first cache of a block, or with `no_block` the first unused one
unfoldable pub position : ℕ → List BufferCache → Option ℕ
position b [] = none
position b (c ∷ cs) =
    let rest = position b cs in
    if c.block_id == b then some 0 else elim rest [ none ↦ none | some i ↦ some (suc i) ]

-- `alloc_buffer_cache`, in a number of rounds: what it finds
unfoldable pub alloc_buffer_cache : ℕ → Manager → Option (ℕ × Manager)
unfolding position oom
alloc_buffer_cache zero m = none
alloc_buffer_cache (suc rounds) m = elim (position no_block m.cache_pool) [
  | some i ↦ some (i, m)
  | none ↦ alloc_buffer_cache rounds (oom m)
]

abbrev pub raise_priority : BufferCache → BufferCache
raise_priority c = record c {
  priority = if ltb c.priority priority_upperbound then c.priority + 1 else c.priority;
}

abbrev pub clone : BufferCache → BufferCache
clone c = record c { clones = c.clones + 1 }

-- A change of the cache at a place of the pool
abbrev pub update : ℕ → (BufferCache → BufferCache) → List BufferCache → List BufferCache
update i f [] = []
update zero f (c ∷ cs) = f c ∷ cs
update (suc i) f (c ∷ cs) = c ∷ update i f cs

unfoldable pub try_get_block_cache : ℕ → Manager → Option (ℕ × Manager)
unfolding position
try_get_block_cache b m = elim (position b m.cache_pool) [
  | none ↦ none
  | some i ↦
      some (i, record m { cache_pool = update i (λ c. clone (raise_priority c)) m.cache_pool })
]

-- `BufferCache::read_block`
unfoldable pub read_block : ℕ → Disk → BufferCache → BufferCache
read_block b disk c = record c { block_id = b; buffer = disk b }

-- `get_block_cache`: the place of the cache, of which the caller has one more clone
unfoldable pub get_block_cache : ℕ → ℕ → Manager → Option (ℕ × Manager)
unfolding try_get_block_cache alloc_buffer_cache read_block
get_block_cache rounds b m = elim (try_get_block_cache b m) [
  | some found ↦ some found
  | none ↦ elim (alloc_buffer_cache rounds m) [
    | none ↦ none
    | some (i, m') ↦ some (
      i,
      record m' {
        cache_pool = update i (λ c. clone (raise_priority (read_block b m'.disk c))) m'.cache_pool;
      },
    )
  ]
]

-- `BufferCache::modify`, and the end of the caller's clone
unfoldable pub modify : (Block → Block) → BufferCache → BufferCache
modify f c = record c { buffer = f c.buffer }

abbrev pub drop_clone : BufferCache → BufferCache
drop_clone c = record c { clones = c.clones - 1 }

-- A caller gets the cache of a block, changes the block and lets the cache go.
unfoldable pub access : ℕ → ℕ → (Block → Block) → Manager → Option Manager
unfolding get_block_cache modify
access rounds b f m = elim (get_block_cache rounds b m) [
  | none ↦ none
  | some (i, m') ↦
      some (record m' { cache_pool = update i (λ c. drop_clone (modify f c)) m'.cache_pool })
]

-- Callers one after another
unfoldable pub accesses : ℕ → List (ℕ × (Block → Block)) → Manager → Option Manager
unfolding access
accesses rounds [] m = some m
accesses rounds (a ∷ more) m = elim (access rounds a.0 a.1 m) [
  | none ↦ none
  | some m' ↦ accesses rounds more m'
]
