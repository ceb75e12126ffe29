-- ===== src/Base/Disjoint.antt =====
-- `bit_or` of numbers that have no digit in common is their sum.
use Prim.Native.Nat.{
  ℕ, zero, suc, ◌+◌, ◌*◌, ◌/◌, ◌%◌, ◌^◌, ◌≤◌, ◌<◌, max, bit_or, digits, bit_or-bitwise,
}
use mathlib.Core.Path.{◌≡◌, ◌∙◌}
use native.Mathlib.Nat.{pow-suc}
use native.Mathlib.Omega.{arith}

-- What `bit_or` stands for, in at most `n` rounds.
abbrev or_digits : ℕ → ℕ → ℕ → ℕ
or_digits n = digits (λ b. b) max n

or_digits-disjoint : (k n r q : ℕ) → r ≤ n → r < 2 ^ k → or_digits n r (q * 2 ^ k) ≡ r + q * 2 ^ k
or_digits-disjoint k zero zero q enough low = omega arith
or_digits-disjoint k zero (suc r) q enough low = absurd (omega arith)
or_digits-disjoint k (suc n) zero q enough low = omega arith
or_digits-disjoint zero (suc n) (suc r) q enough low = absurd (omega arith)
or_digits-disjoint (suc k) (suc n) (suc r) q enough low =
    let doubled : q * 2 ^ suc k ≡ q * 2 ^ k * 2 = rw (pow-suc 2 k) (grind arith) in
    let half : q * 2 ^ suc k / 2 ≡ q * 2 ^ k = omega arith in
    let even : q * 2 ^ suc k % 2 ≡ 0 = omega arith in
    let later = or_digits-disjoint k n (suc r / 2) q (omega arith) (omega (arith, pow-suc 2 k)) in
    rw (half, even, later) (ground arith)

pub bit_or-disjoint : (k r q : ℕ) → r < 2 ^ k → bit_or r (q * 2 ^ k) ≡ r + q * 2 ^ k
bit_or-disjoint k r q low =
    bit_or-bitwise r (q * 2 ^ k) ∙ or_digits-disjoint k r r q (omega arith) low
