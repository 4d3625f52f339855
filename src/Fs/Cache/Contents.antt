-- ===== src/Fs/Cache/Contents.antt =====
-- What the pool and the device say together about each block, and that no block has two caches.
pub mod Eviction
pub mod Updates
pub mod Refinement
pub mod Store
use oskernel2023_main_os.Common.{
  Bool, List, [], arith, false, if◌then◌else◌, none, refl, some, suc, true, zero, ℕ, ◌==◌, ◌||◌,
  ◌∷◌, ◌≡◌, ◌≢◌, ◌≤◌, ◌⊎◌,
}
use oskernel2023_main_os.Fs.Cache.{Block, BufferCache, Disk, no_block, position, update}

-- The contents of a block: those of its cache, or those on the device
abbrev pub contents : List BufferCache → Disk → Disk
contents [] disk b = disk b
contents (c ∷ cs) disk b = if c.block_id == b then c.buffer else contents cs disk b

abbrev pub caches : List BufferCache → ℕ → Bool
caches [] b = false
caches (c ∷ cs) b = c.block_id == b || caches cs b

-- No block has two caches.
abbrev pub Single : List BufferCache → Type 0
Single [] = Unit {0}
Single (c ∷ cs) = (c.block_id ≢ no_block → caches cs c.block_id ≡ false) × Single cs

-- A cache that nobody holds
abbrev pub IsIdle : ℕ → BufferCache → Type 0
IsIdle p c = (c.clones ≡ 0) × (c.priority ≤ p)

abbrev pub Idle : ℕ → List BufferCache → Type 0
Idle p [] = false ≡ true
Idle p (c ∷ cs) = IsIdle p c ⊎ Idle p cs

pub uncached :
    (b : ℕ) (cs : List BufferCache) (disk : Disk)
    → caches cs b ≡ false
    → contents cs disk b ≡ disk b
uncached b [] disk h = refl
uncached b (c ∷ cs) disk h = ground (arith, uncached b cs disk)

pub contents-disk :
    (cs : List BufferCache) (disk disk' : Disk) (b : ℕ)
    → disk b ≡ disk' b
    → contents cs disk b ≡ contents cs disk' b
contents-disk [] disk disk' b e = e
contents-disk (c ∷ cs) disk disk' b e = rw (contents-disk cs disk disk' b e) refl

pub position-caches : (b : ℕ) (cs : List BufferCache) → position b cs ≡ none → caches cs b ≡ false
unfolding position
position-caches b [] h = refl
position-caches b (c ∷ cs) h = ground (arith, position-caches b cs)

pub caches-position : (b : ℕ) (cs : List BufferCache) → caches cs b ≡ true → position b cs ≢ none
unfolding position
caches-position b [] h e = absurd (ground arith)
caches-position b (c ∷ cs) h e = ground (arith, caches-position b cs)

pub position-suc :
    (b i : ℕ) (c : BufferCache) (cs : List BufferCache)
    → position b (c ∷ cs) ≡ some (suc i)
    → ((c.block_id == b) ≡ false) × (position b cs ≡ some i)
unfolding position
position-suc b i c cs h = ground arith

-- A change of the cache of a block that the block keeps
pub contents-update :
    (b i : ℕ) (f : BufferCache → BufferCache) (g : Block → Block)
    → ((c : BufferCache) → ((f c).block_id ≡ c.block_id) × ((f c).buffer ≡ g c.buffer))
    → (cs : List BufferCache) (disk : Disk) → position b cs ≡ some i
    → (x : ℕ)
    → contents (update i f cs) disk x
      ≡ (if b == x then g (contents cs disk b) else contents cs disk x)
unfolding position
contents-update b i f g k [] disk h x = absurd (ground arith)
contents-update b zero f g k (c ∷ cs) disk h x = ground (arith, k c)
contents-update b (suc i) f g k (c ∷ cs) disk h x =
    let (ne, at) = position-suc b i c cs h in
    let rest = contents-update b i f g k cs disk at x in ground (arith, ne, rest)
