-- ===== src/Dns/Reverse/Nibbles.antt =====
-- The loop of `process_reverse6_lookup` of src/omphalos/dns.c over the nibbles of an address.
use omphalos.Base.{
  ℕ, suc, ◌+◌, ◌*◌, ◌/◌, ◌%◌, ◌^◌, ◌<◌, ◌≡◌, refl, ◌∙◌, arith, bit_or, true, false, List, [], ◌∷◌,
  replicate, some, u32,
}
use omphalos.Base.Disjoint.{bit_or-disjoint}
use omphalos.Hwaddrs.{hex_digit}
use omphalos.Dns.Name.{dot}
use omphalos.Dns.Reverse

-- The name behind the numbers, as a string.
abbrev pub ip6_arpa : List ℕ
ip6_arpa = 105 ∷ 112 ∷ 54 ∷ 46 ∷ 97 ∷ 114 ∷ 112 ∷ 97 ∷ []

abbrev pub nibble_text : List ℕ → List ℕ
nibble_text [] = ip6_arpa
nibble_text (d ∷ ds) = hex_digit d ∷ dot ∷ nibble_text ds

abbrev pub AllNibbles : List ℕ → Type 0
AllNibbles [] = Unit {0}
AllNibbles (d ∷ ds) = (d < 16) × AllNibbles ds

abbrev pub span : List ℕ → ℕ
span [] = 0
span (d ∷ ds) = suc (suc (span ds))

-- What the loop does with nibbles.
abbrev pub place : List ℕ → List ℕ → List ℕ
place [] addr6 = addr6
place (d ∷ ds) addr6 = place ds (Reverse.put_nibble addr6 (suc (span ds)) d)

is_xdigit-hex : (d : ℕ) → d < 16 → Reverse.is_xdigit (hex_digit d) ≡ true
unfolding Reverse.is_xdigit Reverse.is_digit hex_digit
is_xdigit-hex d h = ground arith

xdigit_value-hex : (d : ℕ) → d < 16 → Reverse.xdigit_value (hex_digit d) ≡ d
unfolding Reverse.xdigit_value hex_digit
xdigit_value-hex d h = ground arith

hex_number-hex :
    (d : ℕ) (text : List ℕ) → d < 16 → Reverse.hex_number 0 (hex_digit d ∷ dot ∷ text) ≡ d
unfolding Reverse.hex_number Reverse.is_xdigit Reverse.is_digit
hex_number-hex d text h = rw (is_xdigit-hex d h) (omega (arith, xdigit_value-hex d h))

strtoul-hex :
    (d : ℕ) (text : List ℕ) → d < 16 → u32 (Reverse.strtoul (hex_digit d ∷ dot ∷ text)) ≡ d
unfolding Reverse.strtoul
strtoul-hex d [] h = omega (arith, hex_number-hex d [] h)
strtoul-hex d (c ∷ text) h = ground (arith, hex_number-hex d (c ∷ text) h)

-- A digit and the dot behind it.
module _ (d len : ℕ) (text addr6 : List ℕ) (h : d < 16) where
  reverse6_from-digit :
      Reverse.reverse6_from (hex_digit d ∷ dot ∷ text) (suc len) true addr6
      ≡ Reverse.reverse6_from (dot ∷ text) len false (Reverse.put_nibble addr6 (suc len) d)
  unfolding Reverse.reverse6_from
  reverse6_from-digit = rw (is_xdigit-hex d h, strtoul-hex d text h) refl

pub reverse6_from-place :
    (d : ℕ) (ds addr6 : List ℕ)
    → AllNibbles (d ∷ ds)
    → Reverse.reverse6_from (nibble_text (d ∷ ds)) (suc (span ds)) true addr6
      ≡ some (place (d ∷ ds) addr6)
unfolding Reverse.reverse6_from
reverse6_from-place d [] addr6 h = reverse6_from-digit d 0 ip6_arpa addr6 h.0
reverse6_from-place d (e ∷ ds) addr6 h =
    reverse6_from-digit d (span (e ∷ ds)) (nibble_text (e ∷ ds)) addr6 h.0
    ∙ reverse6_from-place e ds (Reverse.put_nibble addr6 (suc (span (e ∷ ds))) d) h.1

-- The nibbles of a word, the lowest first.
abbrev pub nibbles : ℕ → List ℕ → List ℕ
nibbles w more =
    w / 2 ^ 0 % 16
    ∷ w / 2 ^ 4 % 16
    ∷ w / 2 ^ 8 % 16
    ∷ w / 2 ^ 12 % 16
    ∷ w / 2 ^ 16 % 16
    ∷ w / 2 ^ 20 % 16
    ∷ w / 2 ^ 24 % 16
    ∷ w / 2 ^ 28 % 16
    ∷ more

abbrev pub words_nibbles : List ℕ → List ℕ
words_nibbles [] = []
words_nibbles (w ∷ words) = nibbles w (words_nibbles words)

pub AllNibbles-words : (words : List ℕ) → AllNibbles (words_nibbles words)
AllNibbles-words [] = tt
AllNibbles-words (w ∷ words) = (
  omega arith,
  (
    omega arith,
    (
      omega arith,
      (
        omega arith,
        (omega arith, (omega arith, (omega arith, (omega arith, AllNibbles-words words)))),
      ),
    ),
  ),
)

-- One more nibble of a word, put over those below it.
abbrev over : ℕ → ℕ → ℕ → ℕ
over k below w = bit_or below (u32 (w / 2 ^ k % 16 * 2 ^ k))

over-sum :
    (k below w : ℕ)
    → below < 2 ^ k
    → w / 2 ^ k % 16 * 2 ^ k < 2 ^ 32
    → over k below w ≡ below + w / 2 ^ k % 16 * 2 ^ k
over-sum k below w low fits =
    let same : u32 (w / 2 ^ k % 16 * 2 ^ k) ≡ w / 2 ^ k % 16 * 2 ^ k = omega arith in
    rw same (bit_or-disjoint k below (w / 2 ^ k % 16) low)

over_0 : (w : ℕ) → over 0 0 w ≡ w % 2 ^ 4
over_0 w = omega (arith, over-sum 0 0 w (omega arith) (omega arith))

over_4 : (w : ℕ) → over 4 (w % 2 ^ 4) w ≡ w % 2 ^ 8
over_4 w = omega (arith, over-sum 4 (w % 2 ^ 4) w (omega arith) (omega arith))

over_8 : (w : ℕ) → over 8 (w % 2 ^ 8) w ≡ w % 2 ^ 12
over_8 w = omega (arith, over-sum 8 (w % 2 ^ 8) w (omega arith) (omega arith))

over_12 : (w : ℕ) → over 12 (w % 2 ^ 12) w ≡ w % 2 ^ 16
over_12 w = omega (arith, over-sum 12 (w % 2 ^ 12) w (omega arith) (omega arith))

over_16 : (w : ℕ) → over 16 (w % 2 ^ 16) w ≡ w % 2 ^ 20
over_16 w = omega (arith, over-sum 16 (w % 2 ^ 16) w (omega arith) (omega arith))

over_20 : (w : ℕ) → over 20 (w % 2 ^ 20) w ≡ w % 2 ^ 24
over_20 w = omega (arith, over-sum 20 (w % 2 ^ 20) w (omega arith) (omega arith))

over_24 : (w : ℕ) → over 24 (w % 2 ^ 24) w ≡ w % 2 ^ 28
over_24 w = omega (arith, over-sum 24 (w % 2 ^ 24) w (omega arith) (omega arith))

over_28 : (w : ℕ) → over 28 (w % 2 ^ 28) w ≡ w % 2 ^ 32
over_28 w = omega (arith, over-sum 28 (w % 2 ^ 28) w (omega arith) (omega arith))

-- The word that its nibbles make, each put where `process_reverse6_lookup` puts it.
abbrev pub gathered : ℕ → ℕ
gathered w =
    over 28 (over 24 (over 20 (over 16 (over 12 (over 8 (over 4 (over 0 0 w) w) w) w) w) w) w) w

pub gathered-same : (w : ℕ) → w < 2 ^ 32 → gathered w ≡ w
gathered-same w h =
    rw (over_0 w, over_4 w, over_8 w, over_12 w, over_16 w, over_20 w, over_24 w, over_28 w)
      (omega arith)

pub place-nibbles :
    (w0 w1 w2 w3 : ℕ)
    → place (words_nibbles (w3 ∷ w2 ∷ w1 ∷ w0 ∷ [])) (replicate 4 0)
      ≡ gathered w0 ∷ gathered w1 ∷ gathered w2 ∷ gathered w3 ∷ []
unfolding Reverse.put_nibble
place-nibbles w0 w1 w2 w3 = refl
