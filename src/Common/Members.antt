-- ===== src/Common/Members.antt =====
-- Membership of a number in a list: the test that the code runs, and its laws.
use Prim.Native.Nat.{ℕ, zero, suc, ◌+◌, ◌<◌, ◌≤◌}
use mathlib.Core.Path.{◌≡◌, refl, subst}
use mathlib.Core.Logic.{◌≢◌, inl, inr}
use mathlib.Core.Bool.{Bool, true, false, ◌||◌}
use mathlib.Core.List.{List, [], ◌∷◌, ◌++◌}
use native.Mathlib.Omega.{arith}
use oskernel2023_main_os.Common.Tests.{Bool-cases, ◌==◌, if◌then◌else◌}
use oskernel2023_main_os.Common.Lists.{drop, length, take}

-- `v.iter().any(|&i| i == id)`
abbrev pub contains : List ℕ → ℕ → Bool
contains [] a = false
contains (x ∷ xs) a = x == a || contains xs a

abbrev pub All {ℓ κ} : {A : Type ℓ} → (A → Type κ) → List A → Type κ
All P [] = Unit
All P (x ∷ xs) = P x × All P xs

-- No number stands twice in the list.
abbrev pub Distinct : List ℕ → Type 0
Distinct [] = Unit {0}
Distinct (x ∷ xs) = (contains xs x ≡ false) × Distinct xs

-- The list without the first occurrence of a number.
abbrev pub erase : ℕ → List ℕ → List ℕ
erase a [] = []
erase a (x ∷ xs) = if x == a then xs else x ∷ erase a xs

pub contains-erase_ne : (a b : ℕ) (xs : List ℕ) → a ≢ b → contains (erase a xs) b ≡ contains xs b
contains-erase_ne a b [] h = refl
contains-erase_ne a b (x ∷ xs) h = ground (arith, contains-erase_ne a b xs h)

pub contains-erase_self : (a : ℕ) (xs : List ℕ) → Distinct xs → contains (erase a xs) a ≡ false
contains-erase_self a [] d = refl
contains-erase_self a (x ∷ xs) d = ground (arith, contains-erase_self a xs d.1)

pub contains-erase_le :
    (a b : ℕ) (xs : List ℕ) → contains xs b ≡ false → contains (erase a xs) b ≡ false
contains-erase_le a b [] h = refl
contains-erase_le a b (x ∷ xs) h = ground (arith, contains-erase_le a b xs)

pub erase-Distinct : (a : ℕ) (xs : List ℕ) → Distinct xs → Distinct (erase a xs)
erase-Distinct a [] d = tt
erase-Distinct a (x ∷ xs) d = ground (arith, erase-Distinct a xs d.1, contains-erase_le a x xs)

pub length-erase :
    (a : ℕ) (xs : List ℕ) → contains xs a ≡ true → length (erase a xs) + 1 ≡ length xs
length-erase a [] h = absurd (ground arith)
length-erase a (x ∷ xs) h = ground (arith, length-erase a xs)

pub contains-snoc :
    (xs : List ℕ) (x d : ℕ) → contains (xs ++ (x ∷ [])) d ≡ (contains xs d || x == d)
contains-snoc [] x d = ground arith
contains-snoc (y ∷ ys) x d = ground (arith, contains-snoc ys x d)

pub Distinct-snoc :
    (xs : List ℕ) (x : ℕ) → Distinct xs → contains xs x ≡ false → Distinct (xs ++ (x ∷ []))
Distinct-snoc [] x h k = (refl, tt)
Distinct-snoc (y ∷ ys) x h k =
    (ground (arith, contains-snoc ys x y), Distinct-snoc ys x h.1 (ground arith))

pub take-All {ℓ κ} :
    {A : Type ℓ} (P : A → Type κ) (n : ℕ) (xs : List A) → All P xs → All P (take n xs)
take-All P zero xs h = tt
take-All P (suc n) [] h = h
take-All P (suc n) (x ∷ xs) h = (h.0, take-All P n xs h.1)

pub drop-All {ℓ κ} :
    {A : Type ℓ} (P : A → Type κ) (n : ℕ) (xs : List A) → All P xs → All P (drop n xs)
drop-All P zero xs h = h
drop-All P (suc n) [] h = h
drop-All P (suc n) (x ∷ xs) h = drop-All P n xs h.1

-- Different numbers below a bound are at most that many.
pub length-Distinct :
    (n : ℕ) (xs : List ℕ) → Distinct xs → ((x : ℕ) → contains xs x ≡ true → x < n) → length xs ≤ n
length-Distinct n [] d h = omega arith
length-Distinct zero (x ∷ xs) d h = absurd (omega (arith, h x (ground arith)))
length-Distinct (suc n) (x ∷ xs) d h = elim (Bool-cases (contains (x ∷ xs) n)) [
  | inl there ↦
      let rest =
        length-Distinct n (erase n (x ∷ xs)) (erase-Distinct n (x ∷ xs) d) (λ y k. kept y k) in
      omega (arith, rest, length-erase n (x ∷ xs) there)
  | inr away ↦
      let rest = length-Distinct n (x ∷ xs) d (λ y k. below_top y k away) in omega (arith, rest)
]
  where
    kept : (y : ℕ) → contains (erase n (x ∷ xs)) y ≡ true → y < n
    kept y k = elim (Bool-cases (contains (x ∷ xs) y)) [
      | inl there ↦
          let top = contains-erase_self n (x ∷ xs) d in
          let small = h y there in
          elim (Bool-cases (n == y)) [
            | inl e ↦
                let same : n ≡ y = ground arith in
                absurd
                  (ground (arith, subst (λ z. contains (erase n (x ∷ xs)) z ≡ false) same top, k))
            | inr ne ↦ ground (arith, small, ne)
          ]
      | inr away ↦ absurd (ground (arith, contains-erase_le n y (x ∷ xs) away, k))
    ]

    below_top : (y : ℕ) → contains (x ∷ xs) y ≡ true → contains (x ∷ xs) n ≡ false → y < n
    below_top y k away =
        let small = h y k in
        elim (Bool-cases (n == y)) [
          | inl e ↦
              let same : n ≡ y = ground arith in
              absurd (ground (arith, subst (λ z. contains (x ∷ xs) z ≡ false) same away, k))
          | inr ne ↦ ground (arith, small, ne)
        ]
