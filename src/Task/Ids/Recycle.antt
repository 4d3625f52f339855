-- ===== src/Task/Ids/Recycle.antt =====
-- The recycling allocator of identifiers over whole histories.
use oskernel2023_main_os.Common.{
  Bool-cases, Distinct, List, Option, Option-cases, Pool, Pool-bump, Pool-empty, Pool-live_range,
  Pool-release, Pool-reuse, [], add64, arith, contains, erase, false, get_elem?, inl, inr, length,
  none, refl, some, sub64, suc, true, zero, ℕ, ◌+◌, ◌<◌, ◌^◌, ◌∷◌, ◌≡◌, ◌⊎◌,
}
use oskernel2023_main_os.Task.Ids.{RecycleAllocator, alloc, dealloc, new}

-- Handles taken and dropped in any order; `drops i` drops the i-th handle that is kept.
pub data Op : Type 0 where
  takes : Op
  drops : ℕ → Op

unfoldable pub step : RecycleAllocator → List ℕ → Op → Option (RecycleAllocator × List ℕ)
step a live takes = let (id, a') = alloc a in some (a', id ∷ live)
step a live (drops i) = elim (get_elem? live i) [
  | none ↦ some (a, live)
  | some id ↦ elim (dealloc a id) [ none ↦ none | some a' ↦ some (a', erase id live) ]
]

unfoldable pub run : RecycleAllocator → List ℕ → List Op → Option (RecycleAllocator × List ℕ)
run a live [] = some (a, live)
run a live (op ∷ ops) = elim (step a live op) [ none ↦ none | some (a', live') ↦ run a' live' ops ]

-- `room` more calls of `alloc` cannot wrap the counter.
pub record Inv (room : ℕ) (a : RecycleAllocator) (live : List ℕ) : Type 0 where
  pub pool : Pool 0 a.current a.recycled live
  pub unwrapped : a.current + room < 2 ^ 64

alloc_parts :
    (room current : ℕ) (recycled live : List ℕ)
    → let a : RecycleAllocator = record { current = current; recycled = recycled } in
      Inv (suc room) a live
      → let (id, a') = alloc a in (contains live id ≡ false) × Inv room a' (id ∷ live)
unfolding alloc
alloc_parts room current [] live v =
    let same : sub64 (add64 current 1) 1 ≡ current = omega (arith, v.unwrapped) in
    let next : add64 current 1 ≡ current + 1 = omega (arith, v.unwrapped) in
    rw (same, next)
      (
        ground (arith, v.pool.exactly current),
        record { pool = Pool-bump v.pool; unwrapped = omega (arith, v.unwrapped) },
      )
alloc_parts room current (id ∷ rest) live v = (
  ground (arith, v.pool.apart id),
  record { pool = Pool-reuse v.pool; unwrapped = omega (arith, v.unwrapped) },
)

-- `alloc` gives an identifier that is not in use.
pub alloc-Inv :
    {room : ℕ} {a : RecycleAllocator} {live : List ℕ}
    → Inv (suc room) a live
    → let (id, a') = alloc a in (contains live id ≡ false) × Inv room a' (id ∷ live)
alloc-Inv {room} {a} {live} v = alloc_parts room a.current a.recycled live v

-- `dealloc` passes its assertions exactly for an identifier in use, which it takes back.
pub dealloc_handle_lem :
    {room : ℕ} {a : RecycleAllocator} {live : List ℕ} (id : ℕ)
    → Inv room a live
    → ((contains live id ≡ true)
        × ((a' : RecycleAllocator) × (dealloc a id ≡ some a') × Inv room a' (erase id live)))
      ⊎ ((contains live id ≡ false) × (dealloc a id ≡ none))
unfolding dealloc
dealloc_handle_lem {room} {a} {live} id v = elim (Bool-cases (contains live id)) [
  | inl held ↦ inl (
    held,
    (
      record a { recycled = id ∷ a.recycled },
      ground (arith, v.pool.apart id, v.pool.exactly id),
      record { pool = Pool-release v.pool id held; unwrapped = v.unwrapped },
    ),
  )
  | inr out ↦ inr (out, ground (arith, v.pool.exactly id))
]

abbrev pub Sound : ℕ → Option (RecycleAllocator × List ℕ) → Type 0
Sound room none = ⊥
Sound room (some (a, live)) = Inv room a live

get_elem?-contains : (xs : List ℕ) (i x : ℕ) → get_elem? xs i ≡ some x → contains xs x ≡ true
get_elem?-contains [] i x e = absurd (ground arith)
get_elem?-contains (y ∷ xs) zero x e = ground arith
get_elem?-contains (y ∷ xs) (suc i) x e = ground (arith, get_elem?-contains xs i x e)

weaken : {room : ℕ} {a : RecycleAllocator} {live : List ℕ} → Inv (suc room) a live → Inv room a live
weaken v = record { pool = v.pool; unwrapped = omega (arith, v.unwrapped) }

step-Sound :
    (room : ℕ) (a : RecycleAllocator) (live : List ℕ) (op : Op)
    → Inv (suc room) a live
    → Sound room (step a live op)
unfolding step
step-Sound room a live takes v = (alloc-Inv v).1
step-Sound room a live (drops i) v = elim (Option-cases (get_elem? live i)) [
  | inl e ↦ rw (e, step) (weaken v)
  | inr (id, e) ↦ elim (dealloc_handle_lem id v) [
    | inl (_, (a', passed, v')) ↦ rw (e, passed, step) (weaken v')
    | inr (out, _) ↦ let held = get_elem?-contains live i id e in absurd (cc)
  ]
]

continue_run :
    (room : ℕ) (r : Option (RecycleAllocator × List ℕ)) (ops : List Op)
    → Sound room r
    → ((a : RecycleAllocator) (live : List ℕ) → Inv room a live → Sound 0 (run a live ops))
    → Sound 0 (elim r [ none ↦ none | some (a', live') ↦ run a' live' ops ])
continue_run room none ops s next = s
continue_run room (some (a, live)) ops v next = next a live v

run-Sound :
    (ops : List Op) (a : RecycleAllocator) (live : List ℕ)
    → Inv (length ops) a live
    → Sound 0 (run a live ops)
unfolding run
run-Sound [] a live v = v
run-Sound (op ∷ ops) a live v =
    continue_run (length ops) (step a live op) ops (step-Sound (length ops) a live op v)
      (run-Sound ops)

pub new-Inv : (room : ℕ) → room < 2 ^ 64 → Inv room new []
unfolding new
new-Inv room h = record { pool = Pool-empty 0; unwrapped = omega arith }

-- A history of fewer than 2 ^ 64 takes and drops of handles, from a new allocator on, fails no
-- assertion; at its end the identifiers in use are distinct, each of them lies below the counter,
-- and the counter is the number of those in use and those on the stack.
pub run-new :
    (ops : List Op)
    → length ops < 2 ^ 64
    → (a : RecycleAllocator) × (live : List ℕ) × (run new [] ops ≡ some (a, live))
      × Distinct live
      × ((id : ℕ) → contains live id ≡ true → id < a.current)
      × (length live + length a.recycled ≡ a.current)
run-new ops h = finish (run new [] ops) refl (run-Sound ops new [] (new-Inv (length ops) h))
  where
    finish :
        (out : Option (RecycleAllocator × List ℕ))
        → run new [] ops ≡ out
        → Sound 0 out
        → (a : RecycleAllocator) × (live : List ℕ) × (run new [] ops ≡ some (a, live))
          × Distinct live
          × ((id : ℕ) → contains live id ≡ true → id < a.current)
          × (length live + length a.recycled ≡ a.current)
    finish none e s = absurd s
    finish (some (a, live)) e v = (
      a,
      live,
      e,
      v.pool.live_distinct,
      (λ id m. (Pool-live_range v.pool id m).1),
      omega (arith, v.pool.count),
    )
