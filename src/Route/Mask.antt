-- ===== src/Route/Mask.antt =====
-- The mask of `get_router` keeps the high bits of each word.
use omphalos.Base.{
  ℕ, zero, suc, ◌+◌, ◌-◌, ◌*◌, ◌/◌, ◌%◌, ◌^◌, ◌<◌, ◌≤◌, bit_and, u32, ◌≡◌, ap, ◌∙◌, arith, ltb, leb,
  inl, inr, Bool-cases, true, if◌then◌else◌,
}
use native.Mathlib.Nat.{
  mul-add-mod_self_left, mod-eq_of_lt, one-le-pow, mul-sub, le-mul_of_pos_right, two-pow-succ,
  div-lt_iff_lt-mul,
}
use omphalos.Base.Bits.{bit_and-high_mask}
use omphalos.Route.{mask_word}

-- The bits of a prefix that are in word `z`.
abbrev pub prefix_bits : ℕ → ℕ → ℕ
prefix_bits maskbits z = if leb (32 * (z + 1)) maskbits then 32 else maskbits - 32 * z

-- A word of ones, shifted, is `p - 1` ones over as many zeros as `q` has.
shifted_ones : (p q : ℕ) → 0 < p → 0 < q → (p * q - 1) * q % (p * q) ≡ (p - 1) * q
shifted_ones p q hp hq =
    ap (λ (t : ℕ). t % (p * q)) {x = (p * q - 1) * q} {y = p * q * (q - 1) + (p - 1) * q}
      (ground (
        arith,
        mul-sub q (p * q) 1,
        mul-sub (p * q) q 1,
        mul-sub q p 1,
        le-mul_of_pos_right (p * q) hq,
        le-mul_of_pos_right q hp,
      ))
    ∙ mul-add-mod_self_left (p * q) (q - 1) ((p - 1) * q)
    ∙ mod-eq_of_lt (ground (arith, mul-sub q p 1, le-mul_of_pos_right q hp))

pow-add : (k m : ℕ) → 2 ^ k * 2 ^ m ≡ 2 ^ (k + m)
pow-add zero m = ap (λ (n : ℕ). 1 * 2 ^ n) {x = m} {y = 0 + m} (omega arith) ∙ omega arith
pow-add (suc k) m =
    grind (arith, pow-add k m, two-pow-succ k, two-pow-succ (k + m))
    ∙ ap (λ (n : ℕ). 2 ^ n) {x = suc (k + m)} {y = suc k + m} (omega arith)

two_parts : (k : ℕ) → k ≤ 32 → 2 ^ k * 2 ^ (32 - k) ≡ 2 ^ 32
two_parts k h = pow-add k (32 - k) ∙ ap (λ (n : ℕ). 2 ^ n) {x = k + (32 - k)} {y = 32} (omega arith)

high_bits :
    (k word : ℕ)
    → k < 32
    → word < 2 ^ 32
    → bit_and word (u32 ((2 ^ 32 - 1) * 2 ^ (32 - k))) ≡ word / 2 ^ (32 - k) * 2 ^ (32 - k)
high_bits k word small h =
    let parts = two_parts k (omega arith) in
    let mask : u32 ((2 ^ 32 - 1) * 2 ^ (32 - k)) ≡ (2 ^ k - 1) * 2 ^ (32 - k) = rw parts at (
      shifted_ones (2 ^ k) (2 ^ (32 - k)) (one-le-pow k 2 (omega arith))
        (one-le-pow (32 - k) 2 (omega arith))) in
    let inside : word / 2 ^ (32 - k) < 2 ^ k =
      (div-lt_iff_lt-mul (one-le-pow (32 - k) 2 (omega arith))).1 (omega arith) in
    ap (bit_and word) mask
    ∙ bit_and-high_mask k (32 - k) word
    ∙ ap (λ (t : ℕ). t * 2 ^ (32 - k)) (mod-eq_of_lt inside)

-- A word of 32 bits under the mask of a prefix keeps the bits of the prefix that are in it, and has
-- zeros below them: it is the largest multiple of the power of two below them that is not greater.
pub mask_word-prefix :
    (maskbits z word : ℕ)
    → word < 2 ^ 32
    → mask_word maskbits z word
      ≡ word / 2 ^ (32 - prefix_bits maskbits z) * 2 ^ (32 - prefix_bits maskbits z)
unfolding mask_word
mask_word-prefix maskbits z word h = elim (Bool-cases (leb (32 * (z + 1)) maskbits)) [
  | inl whole ↦
      let some_bits : ltb (32 * z) maskbits ≡ true = ground arith in
      rw (some_bits, whole) (omega arith)
  | inr part ↦ elim (Bool-cases (ltb (32 * z) maskbits)) [
    | inl some_bits ↦
        let low : maskbits % 32 ≡ maskbits - 32 * z = ground arith in
        rw (some_bits, part, low) (high_bits (maskbits - 32 * z) word (ground arith) h)
    | inr no_bits ↦
        let no_prefix : maskbits - 32 * z ≡ 0 = ground arith in
        rw (no_bits, part, no_prefix) (omega arith)
  ]
]
