-- ===== src/Fs/Volume/Sectors.antt =====
-- The blocks of the pages of a file.
use native.Mathlib.Nat.{suc-mul, mod-lt, mul-le-mul_right, mod-add-div'}
use oskernel2023_main_os.Common.{
  All, Bool-cases, Distinct, List, [], add64, ap, arith, contains, false, get_or, inl, inr, leb,
  length, ltb, mul64, refl, sub32, subst, suc, sym, true, zero, ℕ, ◌%◌, ◌*◌, ◌+◌, ◌-◌, ◌/◌, ◌<◌,
  ◌==◌, ◌^◌, ◌∙◌, ◌∷◌, ◌≡◌, ◌≤◌, ◌⊎◌,
}
use oskernel2023_main_os.Fs.Volume.{
  EasyFileSystem, first_sector_of_cluster, get_neighboring_sec, neighbors_from,
}

-- A cluster whose sectors have numbers of 32 bits
abbrev pub InArea : EasyFileSystem → ℕ → Type 0
InArea fs c =
    (2 ≤ c)
    × (c < 2 ^ 32)
    × (0 < fs.sec_per_clus)
    × (fs.data_area_start_block + (c - 2) * fs.sec_per_clus + fs.sec_per_clus ≤ 2 ^ 32)

sector_lem :
    (fs : EasyFileSystem) (c o : ℕ)
    → InArea fs c
    → o < fs.sec_per_clus
    → add64 (first_sector_of_cluster fs c) o
      ≡ fs.data_area_start_block + (c - 2) * fs.sec_per_clus + o
unfolding first_sector_of_cluster
sector_lem fs c o (low, high, pos, fit) h =
    let down : sub32 c 2 ≡ c - 2 = omega (arith, low, high) in
    let area = (c - 2) * fs.sec_per_clus in rw down (omega (arith, fit, h))

row_le : (a b r t s : ℕ) → r < s → a * s + r ≡ b * s + t → a < b → t < s → b ≡ a
row_le a b r t s hr e lt ht =
    let up = mul-le-mul_right {m = suc a} {n = b} s (omega (arith, lt)) in
    let step = suc-mul a s in absurd (omega (arith, up, step, hr, e))

-- The place of a sector among the clusters determines the cluster and the offset.
slot_unique : (a b r t s : ℕ) → r < s → t < s → a * s + r ≡ b * s + t → (a ≡ b) × (r ≡ t)
slot_unique a b r t s hr ht e =
    let same : a ≡ b = elim (Bool-cases (ltb a b)) [
      | inl lt ↦ sym (row_le a b r t s hr e (ground (arith, lt)) ht)
      | inr ge ↦ elim (Bool-cases (ltb b a)) [
        | inl gt ↦ row_le b a t r s ht (sym e) (ground (arith, gt)) hr
        | inr le ↦ ground (arith, ge, le)
      ]
    ] in
    let rows : a * s ≡ b * s = ap (λ n. n * s) same in (same, omega (arith, rows, e))

sector_unique :
    (fs : EasyFileSystem) (c d o p : ℕ)
    → InArea fs c
    → InArea fs d
    → o < fs.sec_per_clus
    → p < fs.sec_per_clus
    → add64 (first_sector_of_cluster fs c) o ≡ add64 (first_sector_of_cluster fs d) p
    → (c ≡ d) × (o ≡ p)
sector_unique fs c d o p hc hd ho hp e =
    let left = sector_lem fs c o hc ho in
    let right = sector_lem fs d p hd hp in
    let (rows, cols) =
      slot_unique (c - 2) (d - 2) o p fs.sec_per_clus ho hp (omega (arith, left, right, e)) in
    let lc = hc.0 in let ld = hd.0 in (omega (arith, rows, lc, ld), cols)

contains-get_or : (xs : List ℕ) (i : ℕ) → i < length xs → contains xs (get_or xs i 0) ≡ true
contains-get_or [] i h = absurd (omega arith)
contains-get_or (x ∷ xs) zero h = ground arith
contains-get_or (x ∷ xs) (suc i) h =
    let rest = contains-get_or xs i (omega arith) in ground (arith, rest)

All-get_or : (P : ℕ → Type 0) (xs : List ℕ) (i : ℕ) → All P xs → i < length xs → P (get_or xs i 0)
All-get_or P [] i h k = absurd (omega arith)
All-get_or P (x ∷ xs) zero h k = h.0
All-get_or P (x ∷ xs) (suc i) h k = All-get_or P xs i h.1 (omega arith)

get_or_unique :
    (xs : List ℕ) (i j : ℕ)
    → Distinct xs
    → i < length xs
    → j < length xs
    → get_or xs i 0 ≡ get_or xs j 0
    → i ≡ j
get_or_unique [] i j d hi hj e = absurd (omega arith)
get_or_unique (x ∷ xs) zero zero d hi hj e = refl
get_or_unique (x ∷ xs) zero (suc j) d hi hj e =
    let there = contains-get_or xs j (omega arith) in
    let out = d.0 in absurd (ground (arith, there, out, e))
get_or_unique (x ∷ xs) (suc i) zero d hi hj e =
    let there = contains-get_or xs i (omega arith) in
    let out = d.0 in absurd (ground (arith, there, out, e))
get_or_unique (x ∷ xs) (suc i) (suc j) d hi hj e =
    ap suc (get_or_unique xs i j d.1 (omega arith) (omega arith) e)

module _ (fs : EasyFileSystem) (clus_list : List ℕ) (d : Distinct clus_list)
    (fit : All (InArea fs) clus_list) where
  -- The block of a sector of the file
  abbrev block_of : ℕ → ℕ
  block_of m =
      add64 (first_sector_of_cluster fs (get_or clus_list (m / fs.sec_per_clus) 0))
        (m % fs.sec_per_clus)

  abbrev InFile : ℕ → Type 0
  InFile m = m / fs.sec_per_clus < length clus_list

  block_of_unique : (m n : ℕ) → InFile m → InFile n → block_of m ≡ block_of n → m ≡ n
  block_of_unique m n hm hn e =
      let s = fs.sec_per_clus in
      let cm = All-get_or (InArea fs) clus_list (m / s) fit hm in
      let cn = All-get_or (InArea fs) clus_list (n / s) fit hn in
      let (c, o) =
        sector_unique fs (get_or clus_list (m / s) 0) (get_or clus_list (n / s) 0) (m % s) (n % s)
          cm cn (mod-lt m cm.2) (mod-lt n cn.2) e in
      let rows = get_or_unique clus_list (m / s) (n / s) d hm hn c in
      let here = mod-add-div' m s in
      let there = mod-add-div' n s in
      let same : m / s * s ≡ n / s * s = ap (λ r. r * s) rows in omega (arith, here, there, same, o)

  past_end :
      (sec n : ℕ)
      → leb (length clus_list) (sec / fs.sec_per_clus) ≡ true
      → neighbors_from fs clus_list sec (suc n) ≡ []
  unfolding neighbors_from
  past_end sec n h = rw (neighbors_from, h) refl

  in_file :
      (sec n : ℕ)
      → sec + suc n < 2 ^ 64
      → leb (length clus_list) (sec / fs.sec_per_clus) ≡ false
      → neighbors_from fs clus_list sec (suc n)
        ≡ block_of sec ∷ neighbors_from fs clus_list (sec + 1) n
  unfolding neighbors_from
  in_file sec n small h =
      let next : add64 sec 1 ≡ sec + 1 = omega arith in rw (neighbors_from, h, next) refl

  neighbors_in :
      (sec n b : ℕ)
      → sec + n < 2 ^ 64
      → contains (neighbors_from fs clus_list sec n) b ≡ true
      → (m : ℕ) × (sec ≤ m) × (m < sec + n) × InFile m × (b ≡ block_of m)
  unfolding neighbors_from
  neighbors_in sec zero b h k = absurd (ground arith)
  neighbors_in sec (suc n) b h k =
      elim (Bool-cases (leb (length clus_list) (sec / fs.sec_per_clus))) [
        | inl out ↦
            let none_left = sym (ap (λ (xs : List ℕ). contains xs b) (past_end sec n out)) ∙ k in
            absurd (ground (arith, none_left))
        | inr inside ↦
            let split = sym (ap (λ (xs : List ℕ). contains xs b) (in_file sec n h inside)) ∙ k in
            elim (Bool-cases (block_of sec == b)) [
              | inl own ↦
                  (sec, omega arith, omega arith, ground (arith, inside), ground (arith, own))
              | inr other ↦
                  let (m, low, high, at, e) =
                    neighbors_in (sec + 1) n b (omega arith) (ground (arith, split, other)) in
                  (m, omega arith, omega arith, at, e)
            ]
      ]

  neighbors-Distinct : (sec n : ℕ) → sec + n < 2 ^ 64 → Distinct (neighbors_from fs clus_list sec n)
  unfolding neighbors_from
  neighbors-Distinct sec zero h = tt
  neighbors-Distinct sec (suc n) h =
      elim (Bool-cases (leb (length clus_list) (sec / fs.sec_per_clus))) [
        | inl out ↦ subst Distinct (sym (past_end sec n out)) tt
        | inr inside ↦ subst Distinct (sym (in_file sec n h inside)) (
          new_block sec n h (ground (arith, inside))
              (Bool-cases (contains (neighbors_from fs clus_list (sec + 1) n) (block_of sec))),
          neighbors-Distinct (sec + 1) n (omega arith),
        )
      ]
    where
      new_block :
          (sec n : ℕ)
          → sec + suc n < 2 ^ 64
          → InFile sec
          → (contains (neighbors_from fs clus_list (sec + 1) n) (block_of sec) ≡ true)
            ⊎ (contains (neighbors_from fs clus_list (sec + 1) n) (block_of sec) ≡ false)
          → contains (neighbors_from fs clus_list (sec + 1) n) (block_of sec) ≡ false
      new_block sec n h at (inr out) = out
      new_block sec n h at (inl again) =
          let (m, low, high, there, e) =
            neighbors_in (sec + 1) n (block_of sec) (omega (arith, h)) again in
          let same = block_of_unique sec m at there e in absurd (omega (arith, same, low))

-- A page whose sectors have numbers of 64 bits
abbrev pub IsPage : EasyFileSystem → ℕ → Type 0
IsPage fs i = suc i * (4096 / fs.byts_per_sec) < 2 ^ 64

page_start :
    (fs : EasyFileSystem) (i : ℕ)
    → IsPage fs i
    → (mul64 i (4096 / fs.byts_per_sec) ≡ i * (4096 / fs.byts_per_sec))
      × (i * (4096 / fs.byts_per_sec) + 4096 / fs.byts_per_sec < 2 ^ 64)
page_start fs i h =
    let e = suc-mul i (4096 / fs.byts_per_sec) in (omega (arith, h, e), omega (arith, h, e))

-- For a file of distinct clusters that lie in the data area: a page of the file has no block twice, and
-- two different pages have no block in common.
pub get_neighboring_sec-Distinct :
    (fs : EasyFileSystem) (clus_list : List ℕ) (i j : ℕ)
    → Distinct clus_list
    → All (InArea fs) clus_list
    → IsPage fs i
    → IsPage fs j
    → Distinct (get_neighboring_sec fs clus_list i)
      × ((b : ℕ)
          → contains (get_neighboring_sec fs clus_list i) b ≡ true
          → contains (get_neighboring_sec fs clus_list j) b ≡ true
          → i ≡ j)
unfolding get_neighboring_sec
get_neighboring_sec-Distinct fs clus_list i j d fit hi hj =
    let per = 4096 / fs.byts_per_sec in
    let (start_i, end_i) = page_start fs i hi in
    let (start_j, end_j) = page_start fs j hj in
    rw (start_i, start_j)
      (
        neighbors-Distinct fs clus_list d fit (i * per) per end_i,
        (λ b in_i in_j.
            let (m, low_m, high_m, at_m, e_m) =
              neighbors_in fs clus_list d fit (i * per) per b end_i in_i in
            let (n, low_n, high_n, at_n, e_n) =
              neighbors_in fs clus_list d fit (j * per) per b end_j in_j in
            let same = block_of_unique fs clus_list d fit m n at_m at_n (sym e_m ∙ e_n) in
            (slot_unique i j (m - i * per) (n - j * per) per (omega (arith, low_m, high_m))
              (omega (arith, low_n, high_n)) (omega (arith, low_m, low_n, same))).0),
      )
