-- ===== src/Mm/MemorySet/Unmapping.antt =====
-- The trackers of a map of pages, and what `munmap` does to them and leaves in the page table.
pub mod Munmap
use oskernel2023_main_os.Common.{
  All, Bool-cases, Distinct, List, Option, [], ap, arith, contains, contains-erase_ne, erase, false,
  if◌then◌else◌, inl, inr, none, refl, some, subst, sym, true, ℕ, ◌==◌, ◌∷◌, ◌≡◌,
}
use oskernel2023_main_os.Mm.FrameAllocator.{FrameTracker}
use oskernel2023_main_os.Mm.FrameAllocator.Frames
use oskernel2023_main_os.Mm.MemorySet.{FrameMap, lookup, remove}
use oskernel2023_main_os.Mm.PageTable.{Machine}

abbrev pub keys : FrameMap → List ℕ
keys [] = []
keys (f ∷ fs) = f.0 ∷ keys fs

abbrev pub ppns : FrameMap → List ℕ
ppns [] = []
ppns (f ∷ fs) = f.1.ppn ∷ ppns fs

-- The trackers hold frames that are handed out, no frame twice, and no page has two.
abbrev pub Holds : List ℕ → FrameMap → Type 0
Holds live fs =
    Distinct (keys fs)
    × Distinct (ppns fs)
    × All (λ f. (f.1.hold ≡ true) × (contains live f.1.ppn ≡ true)) fs

pub lookup-out : (v : ℕ) (fs : FrameMap) → contains (keys fs) v ≡ false → lookup v fs ≡ none
lookup-out v [] h = refl
lookup-out v (f ∷ fs) h = let rest = lookup-out v fs in ground (arith, rest)

pub lookup-remove :
    (v w : ℕ) (fs : FrameMap)
    → Distinct (keys fs)
    → lookup w (remove v fs) ≡ (if v == w then none else lookup w fs)
lookup-remove v w [] d = ground arith
lookup-remove v w (f ∷ fs) d =
    let rest = lookup-remove v w fs d.1 in
    let out = lookup-out f.0 fs d.0 in ground (arith, rest, out)

keys-remove :
    (v k : ℕ) (fs : FrameMap)
    → contains (keys fs) k ≡ false
    → contains (keys (remove v fs)) k ≡ false
keys-remove v k [] h = refl
keys-remove v k (f ∷ fs) h = let rest = keys-remove v k fs in ground (arith, rest)

ppns-remove :
    (v k : ℕ) (fs : FrameMap)
    → contains (ppns fs) k ≡ false
    → contains (ppns (remove v fs)) k ≡ false
ppns-remove v k [] h = refl
ppns-remove v k (f ∷ fs) h = let rest = ppns-remove v k fs in ground (arith, rest)

pub remove-keys : (v : ℕ) (fs : FrameMap) → Distinct (keys fs) → Distinct (keys (remove v fs))
remove-keys v [] d = tt
remove-keys v (f ∷ fs) d = elim (Bool-cases (f.0 == v)) [
  | inl here ↦ rw here d.1
  | inr other ↦ rw other (keys-remove v f.0 fs d.0, remove-keys v fs d.1)
]

pub remove-ppns : (v : ℕ) (fs : FrameMap) → Distinct (ppns fs) → Distinct (ppns (remove v fs))
remove-ppns v [] d = tt
remove-ppns v (f ∷ fs) d = elim (Bool-cases (f.0 == v)) [
  | inl here ↦ rw here d.1
  | inr other ↦ rw other (ppns-remove v f.1.ppn fs d.0, remove-ppns v fs d.1)
]

pub lookup-ppns :
    (v : ℕ) (fs : FrameMap) (t : FrameTracker)
    → lookup v fs ≡ some t
    → contains (ppns fs) t.ppn ≡ true
lookup-ppns v [] t h = absurd (ground arith)
lookup-ppns v (f ∷ fs) t h = elim (Bool-cases (f.0 == v)) [
  | inl here ↦
      let e : f.1 ≡ t = ground (arith, h, here) in
      let p : f.1.ppn ≡ t.ppn = ap (λ (u : FrameTracker). u.ppn) e in ground (arith, p)
  | inr other ↦ let rest = lookup-ppns v fs t (ground (arith, h, other)) in ground (arith, rest)
]

-- What `munmap` does to its pages, one after another: trackers of others stay, frames of its own are
-- handed out no more, and memory is as it was.
abbrev pub Forgets : ℕ → List ℕ → FrameMap → Machine → List ℕ → Option (FrameMap × Machine) → Type 0
Forgets base pages fs m live none = false ≡ true
Forgets base pages fs m live (some (fs', m')) =
    (live' : List ℕ) × Frames.Inv base m'.frames live'
    × Holds live' fs'
    × (m'.memory ≡ m.memory)
    × ((w : ℕ) → lookup w fs' ≡ (if contains pages w then none else lookup w fs))
    × ((p : ℕ) → contains live p ≡ false → contains live' p ≡ false)
    × ((w : ℕ) (t : FrameTracker)
        → contains pages w ≡ true
        → lookup w fs ≡ some t
        → contains live' t.ppn ≡ false)

pub out_of_ppns :
    (v : ℕ) (fs : FrameMap) (t : FrameTracker)
    → Distinct (ppns fs)
    → lookup v fs ≡ some t
    → contains (ppns (remove v fs)) t.ppn ≡ false
out_of_ppns v [] t d h = refl
out_of_ppns v (f ∷ fs) t d h = elim (Bool-cases (f.0 == v)) [
  | inl here ↦
      let e : f.1 ≡ t = ground (arith, h, here) in
      let p : f.1.ppn ≡ t.ppn = ap (λ (u : FrameTracker). u.ppn) e in
      let out = d.0 in rw (here, sym p) out
  | inr other ↦
      let at : lookup v fs ≡ some t = ground (arith, h, other) in
      let there = lookup-ppns v fs t at in
      let rest = out_of_ppns v fs t d.1 at in
      let out = d.0 in rw other (ground (arith, there, rest, out))
]

-- The trackers of other frames hold theirs when one frame goes.
pub erased-All :
    (p : ℕ) (live : List ℕ) (fs : FrameMap)
    → contains (ppns fs) p ≡ false
    → All (λ f. (f.1.hold ≡ true) × (contains live f.1.ppn ≡ true)) fs
    → All (λ f. (f.1.hold ≡ true) × (contains (erase p live) f.1.ppn ≡ true)) fs
erased-All p live [] h k = tt
erased-All p live (f ∷ fs) h k =
    let same = contains-erase_ne p f.1.ppn live in
    let own = k.0 in
    ((own.0, ground (arith, same, h, own)), erased-All p live fs (ground (arith, h)) k.1)

pub remove-All :
    (live : List ℕ) (v : ℕ) (fs : FrameMap)
    → All (λ f. (f.1.hold ≡ true) × (contains live f.1.ppn ≡ true)) fs
    → All (λ f. (f.1.hold ≡ true) × (contains live f.1.ppn ≡ true)) (remove v fs)
remove-All live v [] h = h
remove-All live v (f ∷ fs) h = elim (Bool-cases (f.0 == v)) [
  | inl here ↦ rw here h.1
  | inr other ↦ rw other (h.0, remove-All live v fs h.1)
]

pub held_at :
    (live : List ℕ) (v : ℕ) (fs : FrameMap) (t : FrameTracker)
    → All (λ f. (f.1.hold ≡ true) × (contains live f.1.ppn ≡ true)) fs
    → lookup v fs ≡ some t
    → (t.hold ≡ true) × (contains live t.ppn ≡ true)
held_at live v [] t h e = absurd (ground arith)
held_at live v (f ∷ fs) t h e = elim (Bool-cases (f.0 == v)) [
  | inl here ↦
      let same : f.1 ≡ t = ground (arith, e, here) in
      subst (λ (u : FrameTracker). (u.hold ≡ true) × (contains live u.ppn ≡ true)) same h.0
  | inr other ↦ held_at live v fs t h.1 (ground (arith, e, other))
]
