-- ===== src/Hwaddrs/Text.antt =====
-- The text of a hardware address: it is read back as the address, and fits its buffer.
use omphalos.Base.{
  ℕ, zero, suc, ◌+◌, ◌-◌, ◌*◌, ◌/◌, ◌%◌, ◌<◌, ◌≤◌, ◌≡◌, ◌≢◌, refl, ap, ◌∙◌, arith, List, [], ◌∷◌,
  ◌++◌, ltb, if◌then◌else◌, length, take, IsBytes,
}
use omphalos.Hwaddrs.{hwaddrstrlen, hex_digit, snprintf, hwntop_from, hwntop}

abbrev pub hex_value : ℕ → ℕ
hex_value c = if ltb c 0x3a then c - 0x30 else c - 0x57

-- Reading pairs of hexadecimal digits with one character between them.
abbrev pub parse_hex : List ℕ → List ℕ
parse_hex (x ∷ y ∷ []) = (16 * hex_value x + hex_value y) ∷ []
parse_hex (x ∷ y ∷ _ ∷ rest) = (16 * hex_value x + hex_value y) ∷ parse_hex rest
parse_hex _ = []

hex_value-hex_digit : (d : ℕ) → d < 16 → hex_value (hex_digit d) ≡ d
unfolding hex_digit
hex_value-hex_digit d h = ground arith

pair-hex :
    (b : ℕ) → b < 256 → 16 * hex_value (hex_digit (b / 16)) + hex_value (hex_digit (b % 16)) ≡ b
pair-hex b h =
    omega (
      arith,
      hex_value-hex_digit (b / 16) (omega arith),
      hex_value-hex_digit (b % 16) (omega arith),
    )

take-all : {A : Type 0} → (n : ℕ) (xs : List A) → length xs ≤ n → take n xs ≡ xs
take-all zero [] h = refl
take-all (suc n) [] h = refl
take-all zero (x ∷ xs) h = absurd (omega arith)
take-all (suc n) (x ∷ xs) h = ap (λ (t : List _). x ∷ t) (take-all n xs (omega arith))

-- The text with room for every call.
abbrev whole : List ℕ → List ℕ
whole [] = []
whole (b ∷ []) = hex_digit (b / 16) ∷ hex_digit (b % 16) ∷ []
whole (b ∷ c ∷ bytes) = hex_digit (b / 16) ∷ hex_digit (b % 16) ∷ 0x3a ∷ whole (c ∷ bytes)

hwntop_from-whole :
    (s idx : ℕ) (bytes : List ℕ)
    → (idx + length bytes) * 3 ≤ s
    → hwntop_from s idx bytes ≡ whole bytes
unfolding hwntop_from snprintf
hwntop_from-whole s idx [] h = refl
hwntop_from-whole s idx (b ∷ []) h = take-all (s - idx * 3 - 1) (whole (b ∷ [])) (omega arith)
hwntop_from-whole s idx (b ∷ c ∷ bytes) h =
    let text = hex_digit (b / 16) ∷ hex_digit (b % 16) ∷ 0x3a ∷ [] in
    rw (take-all (s - idx * 3 - 1) text (omega arith))
      (ap (λ (t : List ℕ). text ++ t) (hwntop_from-whole s (idx + 1) (c ∷ bytes) (omega arith)))

parse_hex-whole : (bytes : List ℕ) → IsBytes bytes → parse_hex (whole bytes) ≡ bytes
parse_hex-whole [] h = refl
parse_hex-whole (b ∷ []) h = ap (λ (x : ℕ). x ∷ []) (pair-hex b h.0)
parse_hex-whole (b ∷ c ∷ bytes) h = rw (pair-hex b h.0, parse_hex-whole (c ∷ bytes) h.1) refl

hwntop-whole : (bytes : List ℕ) → length bytes ≢ 1 → hwntop bytes ≡ whole bytes
unfolding hwntop hwaddrstrlen hwntop_from
hwntop-whole [] ne = refl
hwntop-whole (b ∷ []) ne = absurd (ne refl)
hwntop-whole (b ∷ c ∷ bytes) ne = hwntop_from-whole _ 0 (b ∷ c ∷ bytes) (ground arith)

-- The text that `hwntop` writes for an address, of any length but one, is read back as the address
-- by taking pairs of hexadecimal digits with one character between them.
pub parse_hex-hwntop :
    (bytes : List ℕ) → IsBytes bytes → length bytes ≢ 1 → parse_hex (hwntop bytes) ≡ bytes
parse_hex-hwntop bytes h ne = ap parse_hex (hwntop-whole bytes ne) ∙ parse_hex-whole bytes h

length-whole : (b : ℕ) (bytes : List ℕ) → length (whole (b ∷ bytes)) + 1 ≡ length (b ∷ bytes) * 3
length-whole b [] = refl
length-whole b (c ∷ bytes) = omega (arith, length-whole c bytes)

-- The text of every address, with a NUL behind it, takes no more than the `HWADDRSTRLEN` bytes that
-- are allocated for it, and takes all of them.
pub length-hwntop : (bytes : List ℕ) → length (hwntop bytes) + 1 ≡ hwaddrstrlen (length bytes)
unfolding hwaddrstrlen hwntop hwntop_from snprintf
length-hwntop [] = refl
length-hwntop (b ∷ []) = refl
length-hwntop (b ∷ c ∷ bytes) =
    ap (λ (t : List ℕ). length t + 1) (hwntop-whole (b ∷ c ∷ bytes) (omega arith))
    ∙ length-whole b (c ∷ bytes)
    ∙ ground arith
