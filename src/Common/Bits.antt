-- ===== src/Common/Bits.antt =====
-- `|` and `&` of words: the law of the lowest binary digit, and what follows for shifted fields,
-- low masks and single flags.
use Prim.Native.Nat.{
  ℕ, zero, suc, ◌+◌, ◌-◌, ◌*◌, ◌/◌, ◌%◌, ◌^◌, ◌≤◌, ◌<◌, min, max, digits, bit_and, bit_or,
  bit_and-bitwise, bit_or-bitwise,
}
use mathlib.Core.Path.{◌≡◌, refl, ap, sym, ◌∙◌}
use mathlib.Core.Logic.{◌≢◌}
use native.Mathlib.Nat.{pow-suc, one-le-pow}
use native.Mathlib.Omega.{arith}

module _ (last : ℕ → ℕ) (digit : ℕ → ℕ → ℕ) where
  abbrev run_digits : ℕ → ℕ → ℕ → ℕ
  run_digits fuel a b = digits last digit fuel a b

  -- With enough fuel the recursion on digits does not depend on the fuel.
  same_digits : (a b n m : ℕ) → a ≤ n → a ≤ m → run_digits n a b ≡ run_digits m a b
  same_digits a b zero zero hn hm = refl
  same_digits zero b zero (suc m) hn hm = refl
  same_digits (suc a) b zero (suc m) hn hm = absurd (omega arith)
  same_digits zero b (suc n) zero hn hm = refl
  same_digits (suc a) b (suc n) zero hn hm = absurd (omega arith)
  same_digits zero b (suc n) (suc m) hn hm = refl
  same_digits (suc a) b (suc n) (suc m) hn hm =
      ap (λ (t : ℕ). t * 2 + digit (suc a % 2) (b % 2))
        (same_digits (suc a / 2) (b / 2) n m (omega arith) (omega arith))

-- The lowest digit, and the others.
pub bit_or_digit : (x y : ℕ) → bit_or x y ≡ max (x % 2) (y % 2) + 2 * bit_or (x / 2) (y / 2)
bit_or_digit zero y = simp bit_or-bitwise (omega arith)
bit_or_digit (suc x) y =
    let half = suc x / 2 in
    let enough = same_digits (λ d. d) max half (y / 2) x half (omega arith) (omega arith) in
    simp bit_or-bitwise (omega arith)

pub bit_and_digit : (x y : ℕ) → bit_and x y ≡ min (x % 2) (y % 2) + 2 * bit_and (x / 2) (y / 2)
bit_and_digit zero y = simp bit_and-bitwise (omega arith)
bit_and_digit (suc x) y =
    let half = suc x / 2 in
    let enough = same_digits (λ d. 0) min half (y / 2) x half (omega arith) (omega arith) in
    simp bit_and-bitwise (omega arith)

-- The other number below a bound that halves.
or_zero_below : (n a : ℕ) → a ≤ n → bit_or a 0 ≡ a
or_zero_below n zero h = refl
or_zero_below zero (suc a) h = absurd (omega arith)
or_zero_below (suc n) (suc a) h =
    omega (arith, bit_or_digit (suc a) 0, or_zero_below n (suc a / 2) (omega arith))

pub bit_or-zero : (a : ℕ) → bit_or a 0 ≡ a
bit_or-zero a = or_zero_below a a (omega arith)

and_zero_below : (n a : ℕ) → a ≤ n → bit_and a 0 ≡ 0
and_zero_below n zero h = refl
and_zero_below zero (suc a) h = absurd (omega arith)
and_zero_below (suc n) (suc a) h =
    omega (arith, bit_and_digit (suc a) 0, and_zero_below n (suc a / 2) (omega arith))

pub bit_and-zero : (a : ℕ) → bit_and a 0 ≡ 0
bit_and-zero a = and_zero_below a a (omega arith)

-- `(hi << k) | lo` is a sum where `lo` has at most k bits.
pub bit_or-shifted : (k hi lo : ℕ) → lo < 2 ^ k → bit_or (hi * 2 ^ k) lo ≡ hi * 2 ^ k + lo
bit_or-shifted zero hi lo h = ground (arith, bit_or-zero hi)
bit_or-shifted (suc k) hi lo h =
    let twice : hi * 2 ^ suc k ≡ 2 * (hi * 2 ^ k) =
      omega (arith, ap (λ (t : ℕ). hi * t) (pow-suc 2 k)) in
    ground (
      arith,
      bit_or_digit (hi * 2 ^ suc k) lo,
      twice,
      pow-suc 2 k,
      bit_or-shifted k hi (lo / 2) (omega (arith, pow-suc 2 k)),
    )

and_mask_sum : (k hi lo : ℕ) → lo < 2 ^ k → bit_and (hi * 2 ^ k + lo) (2 ^ k - 1) ≡ lo
and_mask_sum zero hi lo h = ground (arith, bit_and-zero (hi * 1 + lo))
and_mask_sum (suc k) hi lo h =
    let twice : hi * 2 ^ suc k ≡ 2 * (hi * 2 ^ k) =
      omega (arith, ap (λ (t : ℕ). hi * t) (pow-suc 2 k)) in
    ground (
      arith,
      bit_and_digit (hi * 2 ^ suc k + lo) (2 ^ suc k - 1),
      twice,
      pow-suc 2 k,
      and_mask_sum k hi (lo / 2) (omega (arith, pow-suc 2 k)),
    )

-- `a & ((1 << k) - 1)` is the remainder by 2 ^ k: what `low_bits` says.
pub bit_and-mask : (k a : ℕ) → bit_and a (2 ^ k - 1) ≡ a % 2 ^ k
bit_and-mask k a = ground (arith, one-le-pow k 2, and_mask_sum k (a / 2 ^ k) (a % 2 ^ k))

-- Flag 1 is the lowest digit.
pub bit_and-one : (a : ℕ) → bit_and a 1 ≡ a % 2
bit_and-one a = omega (arith, bit_and_digit a 1, bit_and-zero (a / 2))

pub bit_or-one : (a : ℕ) → bit_or a 1 ≡ a / 2 * 2 + 1
bit_or-one a = omega (arith, bit_or_digit a 1, bit_or-zero (a / 2))

-- `|` of two numbers of k bits has k bits.
pub bit_or-lt : (k a b : ℕ) → a < 2 ^ k → b < 2 ^ k → bit_or a b < 2 ^ k
bit_or-lt zero a b ha hb =
    let za : a ≡ 0 = omega arith in let zb : b ≡ 0 = omega arith in rw (za, zb) (omega arith)
bit_or-lt (suc k) a b ha hb = omega (
  arith,
  bit_or_digit a b,
  pow-suc 2 k,
  bit_or-lt k (a / 2) (b / 2) (omega (arith, pow-suc 2 k)) (omega (arith, pow-suc 2 k)),
)

zero-bit_or : (b : ℕ) → bit_or 0 b ≡ b
zero-bit_or b = bit_or-bitwise 0 b

or_comm_below : (n a b : ℕ) → a ≤ n → b ≤ n → bit_or a b ≡ bit_or b a
or_comm_below zero a b ha hb =
    let za : a ≡ 0 = omega arith in let zb : b ≡ 0 = omega arith in rw (za, zb)
or_comm_below (suc n) zero b ha hb = zero-bit_or b ∙ sym (bit_or-zero b)
or_comm_below (suc n) (suc a) zero ha hb = bit_or-zero (suc a) ∙ sym (zero-bit_or (suc a))
or_comm_below (suc n) (suc a) (suc b) ha hb = omega (
  arith,
  bit_or_digit (suc a) (suc b),
  bit_or_digit (suc b) (suc a),
  or_comm_below n (suc a / 2) (suc b / 2) (omega arith) (omega arith),
)

pub bit_or_comm : (a b : ℕ) → bit_or a b ≡ bit_or b a
bit_or_comm a b = or_comm_below (a + b) a b (omega arith) (omega arith)

-- Bit `k` of a word
abbrev pub bit : ℕ → ℕ → ℕ
bit zero bits = bits % 2
bit (suc k) bits = bit k (bits / 2)

pub bit-zero : (k : ℕ) → bit k 0 ≡ 0
bit-zero zero = refl
bit-zero (suc k) = bit-zero k

pub bit_lt : (k a : ℕ) → bit k a < 2
bit_lt zero a = omega arith
bit_lt (suc k) a = bit_lt k (a / 2)

pub bit-bit_or : (k a b : ℕ) → bit k (bit_or a b) ≡ max (bit k a) (bit k b)
bit-bit_or zero a b = omega (arith, bit_or_digit a b)
bit-bit_or (suc k) a b =
    let half : bit_or a b / 2 ≡ bit_or (a / 2) (b / 2) = omega (arith, bit_or_digit a b) in
    ap (bit k) half ∙ bit-bit_or k (a / 2) (b / 2)

pub bit-bit_and : (k a b : ℕ) → bit k (bit_and a b) ≡ min (bit k a) (bit k b)
bit-bit_and zero a b = omega (arith, bit_and_digit a b)
bit-bit_and (suc k) a b =
    let half : bit_and a b / 2 ≡ bit_and (a / 2) (b / 2) = omega (arith, bit_and_digit a b) in
    ap (bit k) half ∙ bit-bit_and k (a / 2) (b / 2)

and_le_below : (n a b : ℕ) → a ≤ n → bit_and a b ≤ a
and_le_below n zero b h = simp bit_and-bitwise (omega arith)
and_le_below zero (suc a) b h = absurd (omega arith)
and_le_below (suc n) (suc a) b h =
    omega (arith, bit_and_digit (suc a) b, and_le_below n (suc a / 2) (b / 2) (omega arith))

pub bit_and_le : (a b : ℕ) → bit_and a b ≤ a
bit_and_le a b = and_le_below a a b (omega arith)

-- `a & !b`
pub bit-without : (k a b : ℕ) → bit k (a - bit_and a b) ≡ bit k a - bit k b
bit-without zero a b = omega (arith, bit_and_digit a b, bit_and_le (a / 2) (b / 2))
bit-without (suc k) a b =
    let half : (a - bit_and a b) / 2 ≡ a / 2 - bit_and (a / 2) (b / 2) =
      omega (arith, bit_and_digit a b, bit_and_le (a / 2) (b / 2)) in
    ap (bit k) half ∙ bit-without k (a / 2) (b / 2)

pub bit-power : (k : ℕ) → bit k (2 ^ k) ≡ 1
bit-power zero = refl
bit-power (suc k) =
    let half : 2 ^ suc k / 2 ≡ 2 ^ k = omega (arith, pow-suc 2 k) in ap (bit k) half ∙ bit-power k

pub bit-power_ne : (j k : ℕ) → j ≢ k → bit j (2 ^ k) ≡ 0
bit-power_ne zero zero h = absurd (h refl)
bit-power_ne zero (suc k) h = omega (arith, pow-suc 2 k)
bit-power_ne (suc j) zero h = bit-zero j
bit-power_ne (suc j) (suc k) h =
    let half : 2 ^ suc k / 2 ≡ 2 ^ k = omega (arith, pow-suc 2 k) in
    ap (bit j) half ∙ bit-power_ne j k (λ e. h (ap suc e))
