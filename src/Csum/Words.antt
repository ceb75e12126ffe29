-- ===== src/Csum/Words.antt =====
-- The 16-bit words that a checksum covers, and the one's complement sum of RFC 1071 as the
-- reference for csum.c.
use omphalos.Base.{
  sum, ℕ, zero, suc, ◌+◌, ◌-◌, ◌*◌, ◌/◌, ◌%◌, ◌^◌, ◌≤◌, ◌<◌, ◌≡◌, refl, List, [], ◌∷◌, arith, ltb,
  ◌==◌, if◌then◌else◌, length, Memory, IsBytes, byte_at, word_at, byte_at-lt, done, load8-done,
  load16-done, ◌∙◌, ap, u32, ◌++◌, Bool-cases, inl, inr,
}
use omphalos.Csum.{sum_words, sum_datagram}

abbrev pub words : Memory → ℕ → ℕ → List ℕ
words mem cur zero = []
words mem cur (suc n) = word_at mem cur ∷ words mem (cur + 2) n

-- Addition with the carry brought round to the low end.
abbrev pub ones_add : ℕ → ℕ → ℕ
ones_add a b = if ltb (a + b) 65536 then a + b else a + b - 65535

abbrev pub ones_sum : List ℕ → ℕ
ones_sum [] = 0
ones_sum (w ∷ ws) = ones_add w (ones_sum ws)

abbrev pub All16 : List ℕ → Type 0
All16 [] = Unit {0}
All16 (w ∷ ws) = (w < 65536) × All16 ws

-- The representative of `n` modulo 65535 in 1 .. 65535, and 0 for 0.
abbrev pub ones_rep : ℕ → ℕ
ones_rep n = if n == 0 then 0 else (n - 1) % 65535 + 1

pub ones_sum-eq-ones_rep : (ws : List ℕ) → All16 ws → ones_sum ws ≡ ones_rep (sum ws)
ones_sum-eq-ones_rep [] h = refl
ones_sum-eq-ones_rep (w ∷ ws) h = ground (arith, ones_sum-eq-ones_rep ws h.1)

pub word_at-lt : (mem : Memory) (p : ℕ) → IsBytes mem → word_at mem p < 65536
word_at-lt mem p h = omega (arith, byte_at-lt mem p h, byte_at-lt mem (p + 1) h)

pub words-All16 : (mem : Memory) (cur n : ℕ) → IsBytes mem → All16 (words mem cur n)
words-All16 mem cur zero h = tt
words-All16 mem cur (suc n) h = (word_at-lt mem cur h, words-All16 mem (cur + 2) n h)

pub sum-lt : (mem : Memory) (cur n : ℕ) → IsBytes mem → sum (words mem cur n) ≤ 65535 * n
sum-lt mem cur zero h = omega arith
sum-lt mem cur (suc n) h = omega (arith, sum-lt mem (cur + 2) n h, word_at-lt mem cur h)

-- The loop adds up the words, where the memory holds them and 32 bits hold the sum.
pub sum_words-sum :
    (mem : Memory) (cur n acc : ℕ)
    → cur + 2 * n ≤ length mem
    → acc + sum (words mem cur n) < 2 ^ 32
    → sum_words mem cur n acc ≡ done (acc + sum (words mem cur n))
unfolding sum_words
sum_words-sum mem cur zero acc fits small = ap done (omega arith)
sum_words-sum mem cur (suc n) acc fits small = rw (load16-done mem cur (omega arith)) (
    sum_words-sum mem (cur + 2) n (u32 (acc + word_at mem cur)) (omega arith) (omega arith)
    ∙ ap done (omega arith))

-- The words of `dlen` bytes, an odd last byte padded with a zero.
abbrev pub datagram : Memory → ℕ → ℕ → List ℕ
datagram mem cur dlen =
    if dlen % 2 == 0
    then words mem cur (dlen / 2)
    else byte_at mem (cur + dlen - 1) ∷ words mem cur (dlen / 2)

pub sum_datagram-sum :
    (mem : Memory) (cur dlen acc : ℕ)
    → cur + dlen ≤ length mem
    → acc + sum (datagram mem cur dlen) < 2 ^ 32
    → sum_datagram mem cur dlen acc ≡ done (acc + sum (datagram mem cur dlen))
unfolding sum_datagram
sum_datagram-sum mem cur dlen acc fits small = elim (Bool-cases (dlen % 2 == 0)) [
  | inl even ↦ rw (even, sum_words-sum mem cur (dlen / 2) acc (omega arith) (rw even at small)) refl
  | inr odd ↦
      let last : cur + dlen - 1 < length mem = ground arith in
      let bound : acc + (byte_at mem (cur + dlen - 1) + sum (words mem cur (dlen / 2))) < 2 ^ 32 =
        rw odd at small in
      rw
        (
          odd,
          sum_words-sum mem cur (dlen / 2) acc (omega arith) (omega arith),
          load8-done mem (cur + dlen - 1) last,
        )
        (ap done (omega arith))
]

pub datagram-All16 : (mem : Memory) (cur dlen : ℕ) → IsBytes mem → All16 (datagram mem cur dlen)
datagram-All16 mem cur dlen h = elim (Bool-cases (dlen % 2 == 0)) [
  | inl even ↦ rw even (words-All16 mem cur (dlen / 2) h)
  | inr odd ↦
      rw odd (omega (arith, byte_at-lt mem (cur + dlen - 1) h), words-All16 mem cur (dlen / 2) h)
]

-- A datagram of at most 65535 bytes adds less than 2 ^ 31 + 256.
pub sum-datagram-le :
    (mem : Memory) (cur dlen : ℕ)
    → IsBytes mem
    → sum (datagram mem cur dlen) ≤ 65535 * (dlen / 2) + 255
sum-datagram-le mem cur dlen h = elim (Bool-cases (dlen % 2 == 0)) [
  | inl even ↦ rw even (omega (arith, sum-lt mem cur (dlen / 2) h))
  | inr odd ↦ rw odd (omega (arith, sum-lt mem cur (dlen / 2) h, byte_at-lt mem (cur + dlen - 1) h))
]

pub All16-append : (xs ys : List ℕ) → All16 xs → All16 ys → All16 (xs ++ ys)
All16-append [] ys h k = k
All16-append (x ∷ xs) ys h k = (h.0, All16-append xs ys h.1 k)
