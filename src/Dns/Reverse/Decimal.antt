-- ===== src/Dns/Reverse/Decimal.antt =====
-- The bytes of an IPv4 address in decimal: how `process_reverse4_lookup` and `inet_pton` of
-- src/omphalos/dns.c read them.
use omphalos.Base.{
  ℕ, suc, ◌+◌, ◌-◌, ◌*◌, ◌/◌, ◌%◌, ◌<◌, ◌≡◌, refl, ap, ◌∙◌, sym, arith, true, false, List, [], ◌∷◌,
  ◌++◌, length, some, ◌≢◌, none, append_assoc, ltb, if◌then◌else◌, ◌==◌, length-append, Bool-cases,
  inl, inr, leb,
}
use mathlib.Core.List.{append-nil}
use omphalos.Dns.Name.{dot}
use omphalos.Dns.Reverse
use omphalos.Dns.Reverse.{more, number}

abbrev pub AllDigits : List ℕ → Type 0
AllDigits [] = Unit {0}
AllDigits (c ∷ text) = (Reverse.is_digit c ≡ true) × AllDigits text

is_digit-digit : (d : ℕ) → d < 10 → Reverse.is_digit (0x30 + d) ≡ true
unfolding Reverse.is_digit
is_digit-digit d h = ground arith

module _ (bytes : List ℕ) where
  first_digit :
      (d : ℕ) (text : List ℕ)
      → d < 10
      → Reverse.inet_pton4_from bytes none ((0x30 + d) ∷ text)
        ≡ Reverse.inet_pton4_from bytes (some d) text
  unfolding Reverse.inet_pton4_from
  first_digit d text h =
      let value : 0x30 + d - 0x30 ≡ d = omega arith in rw (is_digit-digit d h, value) refl

  next_digit :
      (m n d : ℕ) (text : List ℕ)
      → 0 < n
      → n * 10 + d ≡ m
      → d < 10
      → m < 256
      → Reverse.inet_pton4_from bytes (some n) ((0x30 + d) ∷ text)
        ≡ Reverse.inet_pton4_from bytes (some m) text
  unfolding Reverse.inet_pton4_from
  next_digit m n d text positive e h byte =
      let value : n * 10 + (0x30 + d - 0x30) ≡ m = omega arith in
      let nonzero : (n == 0) ≡ false = ground arith in
      let fits : ltb 255 m ≡ false = ground arith in
      rw (is_digit-digit d h, value, nonzero, fits) refl

module _ (n : ℕ) (byte : n < 256) where
  pub decimal-AllDigits : AllDigits (Reverse.decimal n)
  unfolding Reverse.decimal
  decimal-AllDigits = elim (Bool-cases (ltb n 10)) [
    | inl low ↦ rw low (is_digit-digit n (ground arith), tt)
    | inr high ↦ elim (Bool-cases (ltb n 100)) [
      | inl low ↦
          rw (high, low)
            (is_digit-digit (n / 10) (ground arith), (is_digit-digit (n % 10) (ground arith), tt))
      | inr higher ↦
          rw (high, higher)
            (
              is_digit-digit (n / 100) (ground arith),
              (
                is_digit-digit (n / 10 % 10) (ground arith),
                (is_digit-digit (n % 10) (ground arith), tt),
              ),
            )
    ]
  ]

  pub length-decimal : length (Reverse.decimal n) < 4
  unfolding Reverse.decimal
  length-decimal = ground arith

  pub decimal-nonempty : 0 < length (Reverse.decimal n)
  unfolding Reverse.decimal
  decimal-nonempty = ground arith

  -- The number is read at its digits.
  inet_pton4_from-decimal :
      (bytes text : List ℕ)
      → Reverse.inet_pton4_from bytes none (Reverse.decimal n ++ text)
        ≡ Reverse.inet_pton4_from bytes (some n) text
  unfolding Reverse.decimal
  inet_pton4_from-decimal bytes text = elim (Bool-cases (ltb n 10)) [
    | inl low ↦ rw low (first_digit bytes n text (ground arith))
    | inr high ↦ elim (Bool-cases (ltb n 100)) [
      | inl low ↦
          rw (high, low)
            (first_digit bytes (n / 10) ((0x30 + n % 10) ∷ text) (ground arith)
              ∙ next_digit bytes n (n / 10) (n % 10) text (ground arith) (omega arith) (omega arith)
                  byte)
      | inr higher ↦
          rw (high, higher)
            (first_digit bytes (n / 100) ((0x30 + n / 10 % 10) ∷ (0x30 + n % 10) ∷ text)
                (ground arith)
              ∙ next_digit bytes (n / 10) (n / 100) (n / 10 % 10) ((0x30 + n % 10) ∷ text)
                  (ground arith) (omega arith) (omega arith) (omega arith)
              ∙ next_digit bytes n (n / 10) (n % 10) text (ground arith) (omega arith) (omega arith)
                  byte)
    ]
  ]

scan-digit :
    (quad c : ℕ) (chunk : List ℕ)
    → Reverse.is_digit c ≡ true
    → length chunk < 4
    → Reverse.scan quad false chunk c ≡ more false (chunk ++ c ∷ [])
unfolding Reverse.scan
scan-digit quad c chunk digit short =
    let room : leb 4 (length chunk) ≡ false = ground arith in rw (room, digit) refl

scan-dot :
    (quad : ℕ) (chunk : List ℕ)
    → length chunk < 4
    → Reverse.scan quad false chunk dot ≡ number (chunk ++ (if quad == 0 then [] else dot ∷ []))
unfolding Reverse.scan Reverse.is_digit
scan-dot quad chunk short = let room : leb 4 (length chunk) ≡ false = ground arith in rw room refl

scan_quad-digits :
    (quad : ℕ) (ds chunk buf : List ℕ)
    → AllDigits ds
    → length chunk + length ds < 4
    → Reverse.scan_quad quad false chunk (ds ++ dot ∷ buf)
      ≡ some ((chunk ++ ds) ++ (if quad == 0 then [] else dot ∷ []), buf)
unfolding Reverse.scan_quad
scan_quad-digits quad [] chunk buf h short =
    rw (Reverse.scan_quad, scan-dot quad chunk (omega arith), append-nil chunk) refl
scan_quad-digits quad (c ∷ ds) chunk buf h short =
    rw (Reverse.scan_quad, scan-digit quad c chunk h.0 (omega arith))
      (scan_quad-digits quad ds (chunk ++ c ∷ []) buf h.1
          (omega (arith, length-append chunk (c ∷ [])))
        ∙ ap (λ (t : List ℕ). some (t ++ (if quad == 0 then [] else dot ∷ []), buf))
            (append_assoc chunk (c ∷ []) ds))

scan_quad-decimal :
    (n : ℕ)
    → n < 256
    → (quad : ℕ) (buf : List ℕ)
    → Reverse.scan_quad quad false [] (Reverse.decimal n ++ dot ∷ buf)
      ≡ some (Reverse.decimal n ++ (if quad == 0 then [] else dot ∷ []), buf)
scan_quad-decimal n byte quad buf =
    scan_quad-digits quad (Reverse.decimal n) [] buf (decimal-AllDigits n byte)
      (omega (arith, length-decimal n byte))

pub scan_quads-decimal :
    (left quad n : ℕ)
    → n < 256
    → (obuf buf : List ℕ)
    → Reverse.scan_quads (suc left) quad obuf (Reverse.decimal n ++ dot ∷ buf)
      ≡ Reverse.scan_quads left
          (suc quad)
          ((Reverse.decimal n ++ (if quad == 0 then [] else dot ∷ [])) ++ obuf)
          buf
unfolding Reverse.scan_quads
scan_quads-decimal left quad n byte obuf buf =
    rw (Reverse.scan_quads, scan_quad-decimal n byte quad buf) refl

module _ (bytes : List ℕ) (n : ℕ) (byte : n < 256) where
  pub inet_pton4_from-dot :
      (text : List ℕ)
      → length bytes ≢ 3
      → Reverse.inet_pton4_from bytes none ((Reverse.decimal n ++ dot ∷ []) ++ text)
        ≡ Reverse.inet_pton4_from (bytes ++ n ∷ []) none text
  unfolding Reverse.inet_pton4_from Reverse.is_digit
  inet_pton4_from-dot text ne =
      let some_left : (length bytes == 3) ≡ false = ground arith in
      ap (Reverse.inet_pton4_from bytes none) (append_assoc (Reverse.decimal n) (dot ∷ []) text)
      ∙ inet_pton4_from-decimal n byte bytes (dot ∷ text)
      ∙ rw some_left refl

  pub inet_pton4_from-last :
      length bytes ≡ 3
      → Reverse.inet_pton4_from bytes none (Reverse.decimal n) ≡ some (bytes ++ n ∷ [])
  unfolding Reverse.inet_pton4_from
  inet_pton4_from-last e =
      let last : (length bytes == 3) ≡ true = ground arith in
      ap (Reverse.inet_pton4_from bytes none) (sym (append-nil (Reverse.decimal n)))
      ∙ inet_pton4_from-decimal n byte bytes []
      ∙ rw last refl

-- Texts that are no address.
pub inet_pton4-nil : Reverse.inet_pton4 [] ≡ none
unfolding Reverse.inet_pton4 Reverse.inet_pton4_from
inet_pton4-nil = refl

pub inet_pton4-bracket : (text : List ℕ) → Reverse.inet_pton4 (0x5b ∷ text) ≡ none
unfolding Reverse.inet_pton4 Reverse.inet_pton4_from Reverse.is_digit
inet_pton4-bracket text = refl

pub same_text_refl : (text : List ℕ) → Reverse.same_text text text ≡ true
unfolding Reverse.same_text
same_text_refl [] = refl
same_text_refl (c ∷ text) = ground (arith, same_text_refl text)
