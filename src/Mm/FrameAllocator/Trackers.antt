-- ===== src/Mm/FrameAllocator/Trackers.antt =====
-- Frame trackers over a whole history: frames allocated, covered and dropped in any order.
use mathlib.Core.Option
use oskernel2023_main_os.Common.{
  Bool-cases, Distinct, List, Option, Option-cases, Pool-live_range, [], arith, contains, erase,
  get_elem?, if◌then◌else◌, inl, inr, length, none, refl, some, suc, true, zero, ℕ, ◌+◌, ◌<◌, ◌^◌,
  ◌∙◌, ◌∷◌, ◌≡◌, ◌≤◌,
}
use oskernel2023_main_os.Mm.FrameAllocator.{
  FrameTracker, StackFrameAllocator, alloc, cover, drop_tracker, frame_alloc, init, new, owner,
  unallocated_frames,
}
use oskernel2023_main_os.Mm.FrameAllocator.Frames.{
  Allocs, Inv, alloc-Allocs, dealloc_lem, init-Inv, unallocated_frames_lem,
}

-- What the kernel does with trackers; `drops i` drops the i-th of those that it keeps.
pub data Op : Type 0 where
  allocs : Op
  covers : ℕ → Op
  drops : ℕ → Op

abbrev pub Trackers : Type 0
Trackers = List FrameTracker

abbrev pub remove_at : ℕ → Trackers → Trackers
remove_at i [] = []
remove_at zero (t ∷ ts) = ts
remove_at (suc i) (t ∷ ts) = t ∷ remove_at i ts

-- The frames that the trackers give back when they are dropped.
abbrev pub held : Trackers → List ℕ
held [] = []
held (t ∷ ts) = if t.hold then t.ppn ∷ held ts else held ts

abbrev after_alloc :
    Trackers → Option FrameTracker × StackFrameAllocator → StackFrameAllocator × Trackers
after_alloc ts (none, a) = (a, ts)
after_alloc ts (some t, a) = (a, t ∷ ts)

-- `none` is a panic.
unfoldable pub step : StackFrameAllocator → Trackers → Op → Option (StackFrameAllocator × Trackers)
step a ts allocs = some (after_alloc ts (frame_alloc a))
step a ts (covers ppn) = some (a, cover ppn ∷ ts)
step a ts (drops i) = elim (get_elem? ts i) [
  | none ↦ some (a, ts)
  | some t ↦ elim (drop_tracker a t) [ none ↦ none | some a' ↦ some (a', remove_at i ts) ]
]

unfoldable pub run :
    StackFrameAllocator → Trackers → List Op → Option (StackFrameAllocator × Trackers)
run a ts [] = some (a, ts)
run a ts (op ∷ ops) = elim (step a ts op) [ none ↦ none | some (a', ts') ↦ run a' ts' ops ]

init-end : (l r : ℕ) → (init new l r).end ≡ r
unfolding init
init-end l r = refl

held_member :
    (ts : Trackers) (i : ℕ) (t : FrameTracker)
    → get_elem? ts i ≡ some t
    → t.hold ≡ true
    → contains (held ts) t.ppn ≡ true
held_member [] i t e h = absurd (ground arith)
held_member (u ∷ ts) zero t e h = ground arith
held_member (u ∷ ts) (suc i) t e h = ground (arith, held_member ts i t e h)

held-remove_at :
    (ts : Trackers) (i : ℕ) (t : FrameTracker)
    → get_elem? ts i ≡ some t
    → Distinct (held ts)
    → held (remove_at i ts) ≡ (if t.hold then erase t.ppn (held ts) else held ts)
held-remove_at [] i t e d = absurd (ground arith)
held-remove_at (u ∷ ts) zero t e d = ground arith
held-remove_at (u ∷ ts) (suc i) t e d =
    ground (arith, held-remove_at ts i t e, held_member ts i t e)

module _ (base : ℕ) where
  -- What a step or a history that did not panic ends in.
  abbrev pub Sound : Option (StackFrameAllocator × Trackers) → ℕ → Type 0
  Sound none end = ⊥
  Sound (some (a, ts)) end = (a.end ≡ end) × Inv base a (held ts)

  from_alloc :
      (a : StackFrameAllocator) (ts : Trackers) (r : Option ℕ × StackFrameAllocator)
      → Inv base a (held ts)
      → Allocs base a (held ts) r
      → Sound (some (after_alloc ts (Option.map owner r.0, r.1))) a.end
  unfolding owner
  from_alloc a ts (none, a') v (same, _) = rw same (refl, v)
  from_alloc a ts (some ppn, a') v (_, _, _, e, v') = (e, v')

  step-allocs :
      (a : StackFrameAllocator) (ts : Trackers)
      → Inv base a (held ts)
      → Sound (step a ts allocs) a.end
  unfolding step frame_alloc
  step-allocs a ts v = from_alloc a ts (alloc a) v (alloc-Allocs v)

  from_dealloc :
      (a : StackFrameAllocator) (ts : Trackers) (i : ℕ) (t : FrameTracker)
      → Inv base a (held ts)
      → get_elem? ts i ≡ some t
      → t.hold ≡ true
      → Sound (step a ts (drops i)) a.end
  unfolding step drop_tracker
  from_dealloc a ts i t v e h =
      let m = held_member ts i t e h in
      let low = (Pool-live_range v.pool t.ppn m).0 in
      elim (dealloc_lem t.ppn v low) [
        | inl (_, (a', passed, same, v')) ↦
            rw (e, h, passed, step)
              (
                same,
                let gone : held (remove_at i ts) ≡ erase t.ppn (held ts) =
                      held-remove_at ts i t e v.pool.live_distinct ∙ (rw h) in
                    rw gone v',
              )
        | inr (out, _) ↦ absurd (cc)
      ]

  step-drops :
      (a : StackFrameAllocator) (ts : Trackers) (i : ℕ)
      → Inv base a (held ts)
      → Sound (step a ts (drops i)) a.end
  unfolding step drop_tracker
  step-drops a ts i v = elim (Option-cases (get_elem? ts i)) [
    | inl e ↦ rw (e, step) (refl, v)
    | inr (t, e) ↦ elim (Bool-cases t.hold) [
      | inl h ↦ from_dealloc a ts i t v e h
      | inr h ↦
          let same : held (remove_at i ts) ≡ held ts =
            held-remove_at ts i t e v.pool.live_distinct ∙ (rw h) in
          rw (e, h, step) (refl, rw same v)
    ]
  ]

  pub step-Sound :
      (a : StackFrameAllocator) (ts : Trackers) (op : Op)
      → Inv base a (held ts)
      → Sound (step a ts op) a.end
  unfolding step cover
  step-Sound a ts allocs v = step-allocs a ts v
  step-Sound a ts (covers ppn) v = (refl, v)
  step-Sound a ts (drops i) v = step-drops a ts i v

  continue_run :
      (r : Option (StackFrameAllocator × Trackers)) (ops : List Op) (end : ℕ)
      → Sound r end
      → ((a : StackFrameAllocator) (ts : Trackers)
          → Inv base a (held ts)
          → Sound (run a ts ops) a.end)
      → Sound (elim r [ none ↦ none | some (a', ts') ↦ run a' ts' ops ]) end
  continue_run none ops end s next = s
  continue_run (some (a, ts)) ops end (e, v) next = rw (← e) (next a ts v)

  pub run-Sound :
      (ops : List Op) (a : StackFrameAllocator) (ts : Trackers)
      → Inv base a (held ts)
      → Sound (run a ts ops) a.end
  unfolding run
  run-Sound [] a ts v = (refl, v)
  run-Sound (op ∷ ops) a ts v =
      continue_run (step a ts op) ops a.end (step-Sound a ts op v) (run-Sound ops)

-- From `init(l, r)` on, no history of allocations, covers and drops panics; at its end no two
-- trackers hold one frame, every held frame lies in [l, r), and the frames that
-- `unallocated_frames` counts and the held ones add up to the range.
pub run-init :
    (l r : ℕ) (ops : List Op)
    → l ≤ r
    → r ≤ 2 ^ 44
    → (a : StackFrameAllocator) × (ts : Trackers) × (run (init new l r) [] ops ≡ some (a, ts))
      × Distinct (held ts)
      × ((v : ℕ) → contains (held ts) v ≡ true → (l ≤ v) × (v < r))
      × (unallocated_frames a + length (held ts) + l ≡ r)
run-init l r ops h k =
    finish (run (init new l r) [] ops) refl (run-Sound l ops _ [] (init-Inv l r h k))
  where
    finish :
        (out : Option (StackFrameAllocator × Trackers))
        → run (init new l r) [] ops ≡ out
        → Sound l out (init new l r).end
        → (a : StackFrameAllocator) × (ts : Trackers) × (run (init new l r) [] ops ≡ some (a, ts))
          × Distinct (held ts)
          × ((v : ℕ) → contains (held ts) v ≡ true → (l ≤ v) × (v < r))
          × (unallocated_frames a + length (held ts) + l ≡ r)
    finish none e s = absurd s
    finish (some (a, ts)) e (same, v) = (
      a,
      ts,
      e,
      v.pool.live_distinct,
      (λ w m.
          let range = Pool-live_range v.pool w m in
          (range.0, omega (arith, range.1, v.within, same, init-end l r))),
      unallocated_frames_lem v ∙ same ∙ init-end l r,
    )
