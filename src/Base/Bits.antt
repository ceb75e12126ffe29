-- ===== src/Base/Bits.antt =====
-- `bit_and` at variables, as arithmetic: a low mask is a remainder, a high mask drops one.
use Prim.Native.Nat.{
  ℕ, zero, suc, ◌+◌, ◌-◌, ◌*◌, ◌/◌, ◌%◌, ◌^◌, ◌≤◌, ◌<◌, min, bit_and, digits, bit_and-bitwise,
}
use mathlib.Core.Path.{◌≡◌, refl, ◌∙◌}
use native.Mathlib.Nat.{pow-suc, one-le-pow, div-add-mod'}
use native.Mathlib.Omega.{arith}

-- What `bit_and` stands for: the digits of two numbers from the lowest on, in at most `n` rounds.
abbrev and_digits : ℕ → ℕ → ℕ → ℕ
and_digits n = digits (λ _. zero) min n

and_digits-zero : (n b : ℕ) → and_digits n 0 b ≡ 0
and_digits-zero zero b = refl
and_digits-zero (suc n) b = refl

and_digits-zero_right : (n a : ℕ) → and_digits n a 0 ≡ 0
and_digits-zero_right zero zero = refl
and_digits-zero_right zero (suc a) = refl
and_digits-zero_right (suc n) zero = refl
and_digits-zero_right (suc n) (suc a) = omega (arith, and_digits-zero_right n (suc a / 2))

-- Rounds beyond the value of the first number do nothing.
spare_rounds : (b n a m : ℕ) → a ≤ n → n ≤ m → and_digits m a b ≡ and_digits n a b
spare_rounds b zero a m enough more =
    let none_left : a ≡ 0 = omega arith in rw none_left (and_digits-zero m b)
spare_rounds b (suc n) zero m enough more = and_digits-zero m b
spare_rounds b (suc n) (suc a) zero enough more = absurd (omega arith)
spare_rounds b (suc n) (suc a) (suc m) enough more =
    omega (arith, spare_rounds (b / 2) n (suc a / 2) m (omega arith) (omega arith))

-- The equation for the lowest digit.
pub bit_and-digit : (m n : ℕ) → bit_and m n ≡ min (m % 2) (n % 2) + 2 * bit_and (m / 2) (n / 2)
bit_and-digit a b = by_cases a
  where
    by_cases : (c : ℕ) → bit_and c b ≡ min (c % 2) (b % 2) + 2 * bit_and (c / 2) (b / 2)
    by_cases zero = omega (arith, bit_and-bitwise 0 b, bit_and-bitwise 0 (b / 2))
    by_cases (suc c) =
        let halved = spare_rounds (b / 2) (suc c / 2) (suc c / 2) c (omega arith) (omega arith) in
        omega (arith, halved, bit_and-bitwise (suc c) b, bit_and-bitwise (suc c / 2) (b / 2))

bit_and-zero : (a : ℕ) → bit_and a 0 ≡ 0
bit_and-zero a = bit_and-bitwise a 0 ∙ and_digits-zero_right a a

-- One more zero below a number is a factor of two.
doubled_zeros : (k m : ℕ) → m * 2 ^ suc k ≡ m * 2 ^ k * 2
doubled_zeros k m = rw (pow-suc 2 k) (grind arith)

-- Digits under the low zeros of a mask are dropped.
bit_and-shifted :
    (k q m r : ℕ) → r < 2 ^ k → bit_and (q * 2 ^ k + r) (m * 2 ^ k) ≡ bit_and q m * 2 ^ k
bit_and-shifted zero q m r h = ground (arith)
bit_and-shifted (suc k) q m r h = ground (
  arith,
  pow-suc 2 k,
  doubled_zeros k q,
  doubled_zeros k m,
  doubled_zeros k (bit_and q m),
  bit_and-digit (q * 2 ^ suc k + r) (m * 2 ^ suc k),
  bit_and-shifted k q m (r / 2),
)

masked_parts : (k q r : ℕ) → r < 2 ^ k → bit_and (q * 2 ^ k + r) (2 ^ k - 1) ≡ r
masked_parts zero q r h = omega (arith, bit_and-zero (q * 1 + r))
masked_parts (suc k) q r h = ground (
  arith,
  pow-suc 2 k,
  one-le-pow k 2,
  doubled_zeros k q,
  bit_and-digit (q * 2 ^ suc k + r) (2 ^ suc k - 1),
  masked_parts k q (r / 2),
)

-- `a & (2 ^ k - 1)`.
pub bit_and-mask : (k a : ℕ) → bit_and a (2 ^ k - 1) ≡ a % 2 ^ k
bit_and-mask k a =
    ground (arith, one-le-pow k 2, div-add-mod' a (2 ^ k), masked_parts k (a / 2 ^ k) (a % 2 ^ k))

-- `a & m` for a mask `m` of `j` ones over `k` zeros.
pub bit_and-high_mask : (j k a : ℕ) → bit_and a ((2 ^ j - 1) * 2 ^ k) ≡ a / 2 ^ k % 2 ^ j * 2 ^ k
bit_and-high_mask j k a = ground (
  arith,
  one-le-pow k 2,
  div-add-mod' a (2 ^ k),
  bit_and-shifted k (a / 2 ^ k) (2 ^ j - 1) (a % 2 ^ k),
  bit_and-mask j (a / 2 ^ k),
)
