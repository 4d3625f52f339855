-- ===== src/Fs/Cache/Contents/Updates.antt =====
-- What a change of one cache of the pool does to the contents and to the invariants.
use oskernel2023_main_os.Common.{
  List, [], ap, arith, false, if◌then◌else◌, inl, inr, refl, some, suc, zero, ℕ, ◌==◌, ◌∙◌, ◌∷◌,
  ◌≡◌, ◌≢◌,
}
use oskernel2023_main_os.Fs.Cache.{Block, BufferCache, Disk, no_block, position, update}
use oskernel2023_main_os.Fs.Cache.Contents.{Idle, IsIdle, Single, caches, contents, position-suc}

-- A block gets the unused cache that was found.
pub contents-install :
    (b i : ℕ) (f : BufferCache → BufferCache) (v : Block)
    → ((c : BufferCache) → ((f c).block_id ≡ b) × ((f c).buffer ≡ v))
    → (cs : List BufferCache) (disk : Disk) → position no_block cs ≡ some i
    → caches cs b ≡ false
    → (x : ℕ) → x ≢ no_block
    → contents (update i f cs) disk x ≡ (if b == x then v else contents cs disk x)
unfolding position
contents-install b i f v k [] disk h n x ne = absurd (ground arith)
contents-install b zero f v k (c ∷ cs) disk h n x ne = ground (arith, k c)
contents-install b (suc i) f v k (c ∷ cs) disk h n x ne =
    let (other, at) = position-suc no_block i c cs h in
    let rest = contents-install b i f v k cs disk at (ground arith) x ne in
    ground (arith, other, rest)

pub position-install :
    (b i : ℕ) (f : BufferCache → BufferCache)
    → ((c : BufferCache) → (f c).block_id ≡ b)
    → (cs : List BufferCache) → position no_block cs ≡ some i
    → caches cs b ≡ false
    → position b (update i f cs) ≡ some i
unfolding position
position-install b i f k [] h n = absurd (ground arith)
position-install b zero f k (c ∷ cs) h n = ground (arith, k c)
position-install b (suc i) f k (c ∷ cs) h n =
    let (other, at) = position-suc no_block i c cs h in
    let rest = position-install b i f k cs at (ground arith) in ground (arith, other, rest)

pub caches-install :
    (b i : ℕ) (f : BufferCache → BufferCache)
    → ((c : BufferCache) → (f c).block_id ≡ b)
    → (cs : List BufferCache) → (x : ℕ) → x ≢ b
    → caches cs x ≡ false
    → caches (update i f cs) x ≡ false
caches-install b i f k [] x ne n = refl
caches-install b zero f k (c ∷ cs) x ne n = ground (arith, k c)
caches-install b (suc i) f k (c ∷ cs) x ne n =
    let rest = caches-install b i f k cs x ne in ground (arith, rest)

pub install-Single :
    (b i : ℕ) (f : BufferCache → BufferCache)
    → ((c : BufferCache) → (f c).block_id ≡ b)
    → (cs : List BufferCache) → caches cs b ≡ false
    → Single cs
    → Single (update i f cs)
install-Single b i f k [] n s = tt
install-Single b zero f k (c ∷ cs) n s = ((λ h. rw (k c) (ground arith)), s.1)
install-Single b (suc i) f k (c ∷ cs) n s = (
  (λ h. caches-install b i f k cs c.block_id (ground arith) (s.0 h)),
  install-Single b i f k cs (ground arith) s.1,
)

-- A change that keeps the blocks
pub caches-update :
    (i : ℕ) (f : BufferCache → BufferCache)
    → ((c : BufferCache) → (f c).block_id ≡ c.block_id)
    → (cs : List BufferCache) (x : ℕ) → caches (update i f cs) x ≡ caches cs x
caches-update i f k [] x = refl
caches-update zero f k (c ∷ cs) x = rw (k c) refl
caches-update (suc i) f k (c ∷ cs) x = rw (caches-update i f k cs x) refl

pub update-Single :
    (i : ℕ) (f : BufferCache → BufferCache)
    → ((c : BufferCache) → (f c).block_id ≡ c.block_id)
    → (cs : List BufferCache) → Single cs
    → Single (update i f cs)
update-Single i f k [] s = s
update-Single zero f k (c ∷ cs) s = rw (k c) s
update-Single (suc i) f k (c ∷ cs) s =
    ((λ h. caches-update i f k cs c.block_id ∙ s.0 h), update-Single i f k cs s.1)

pub position-update :
    (b i : ℕ) (f : BufferCache → BufferCache)
    → ((c : BufferCache) → (f c).block_id ≡ c.block_id)
    → (cs : List BufferCache) → position b (update i f cs) ≡ position b cs
unfolding position
position-update b i f k [] = refl
position-update b zero f k (c ∷ cs) = rw (k c) refl
position-update b (suc i) f k (c ∷ cs) = rw (position-update b i f k cs) refl

-- A change that leaves an idle cache idle
pub update-Idle :
    (p i : ℕ) (f : BufferCache → BufferCache)
    → ((c : BufferCache) → IsIdle p c → IsIdle p (f c))
    → (cs : List BufferCache) → Idle p cs
    → Idle p (update i f cs)
update-Idle p i f k [] h = h
update-Idle p zero f k (c ∷ cs) (inl h) = inl (k c h)
update-Idle p zero f k (c ∷ cs) (inr h) = inr h
update-Idle p (suc i) f k (c ∷ cs) (inl h) = inl h
update-Idle p (suc i) f k (c ∷ cs) (inr h) = inr (update-Idle p i f k cs h)

pub update-update :
    (i : ℕ) (f g : BufferCache → BufferCache) (cs : List BufferCache)
    → update i g (update i f cs) ≡ update i (λ c. g (f c)) cs
update-update i f g [] = refl
update-update zero f g (c ∷ cs) = refl
update-update (suc i) f g (c ∷ cs) = ap (◌∷◌ c) (update-update i f g cs)
