-- ===== src/Dns/Reverse/Four.antt =====
-- The reverse lookup of an IPv4 address: its question, as a record of a packet has it, is read back as
-- the address.
use omphalos.Base.{
  ◌/◌, ◌%◌, zero, ℕ, suc, ◌+◌, ◌-◌, ◌*◌, ◌/◌, ◌%◌, ◌^◌, ◌<◌, ◌≤◌, ◌≡◌, refl, ap, ◌∙◌, arith, false,
  List, [], ◌∷◌, ◌++◌, length, drop, some, append_assoc, ltb, ◌==◌, length-append,
}
use mathlib.Core.List.{append-nil}
use omphalos.Packet.{af_inet}
use omphalos.Dns.Name.{dot}
use omphalos.Dns.Name.Plain.{dotted, after}
use omphalos.Dns.Name.Reading.{encode, AllLabels, NoNul, IsLabel}
use omphalos.Dns.Reverse
use omphalos.Dns.Reverse.{more, number}
use omphalos.Dns.Reverse.Decimal.{
  AllDigits, decimal-AllDigits, length-decimal, decimal-nonempty, scan_quads-decimal,
  inet_pton4_from-dot, inet_pton4_from-last,
}

-- Labels in a name, each behind a dot.
abbrev spoken : List (List ℕ) → List ℕ
spoken [] = []
spoken (l ∷ ls) = dot ∷ (l ++ spoken ls)

c_string-append :
    (l text : List ℕ) → NoNul l → Reverse.c_string (l ++ text) ≡ l ++ Reverse.c_string text
unfolding Reverse.c_string
c_string-append [] text h = refl
c_string-append (c ∷ l) text h =
    let more : (c == 0) ≡ false = ground arith in
    rw more (ap (λ (t : List ℕ). c ∷ t) (c_string-append l text h.1))

c_string-after : (ls : List (List ℕ)) → AllLabels ls → Reverse.c_string (after ls) ≡ spoken ls
unfolding Reverse.c_string
c_string-after [] h = refl
c_string-after (l ∷ ls) h =
    ap (λ (t : List ℕ). dot ∷ t)
      (c_string-append l (after ls) h.0.no_nul
        ∙ ap (λ (t : List ℕ). l ++ t) (c_string-after ls h.1))

drop-append : (p s : List ℕ) (k : ℕ) → drop (length p + k) (p ++ s) ≡ drop k s
drop-append [] s k = ap (λ (n : ℕ). drop n s) {x = 0 + k} {y = k} (omega arith)
drop-append (c ∷ p) s k =
    let next : suc (length p) + k ≡ suc (length p + k) = omega arith in rw next (drop-append p s k)

abbrev arpa4 : List (List ℕ)
arpa4 = (105 ∷ 110 ∷ 45 ∷ 97 ∷ 100 ∷ 100 ∷ 114 ∷ []) ∷ (97 ∷ 114 ∷ 112 ∷ 97 ∷ []) ∷ []

ends_with-append :
    (p s suffix : List ℕ) (k : ℕ)
    → length s ≡ k + length suffix
    → Reverse.ends_with (p ++ s) suffix ≡ Reverse.same_text (drop k s) suffix
unfolding Reverse.ends_with
ends_with-append p s suffix k e =
    let skip : length (p ++ s) - length suffix ≡ length p + k = omega (arith, length-append p s) in
    rw skip (ap (λ (t : List ℕ). Reverse.same_text t suffix) (drop-append p s k))

arpa4-AllLabels : AllLabels arpa4
arpa4-AllLabels = ground arith

NoNul-digits : (ds : List ℕ) → AllDigits ds → NoNul ds
unfolding Reverse.is_digit
NoNul-digits [] h = tt
NoNul-digits (c ∷ ds) h = (ground arith, NoNul-digits ds h.1)

decimal-IsLabel : (n : ℕ) → n < 256 → IsLabel (Reverse.decimal n)
decimal-IsLabel n h = record {
  nonempty = decimal-nonempty n h;
  short = omega (arith, length-decimal n h);
  no_nul = NoNul-digits (Reverse.decimal n) (decimal-AllDigits n h);
}

module _ (a b c d : ℕ) (ha : a < 256) (hb : b < 256) (hc : c < 256) (hd : d < 256) where
  abbrev pub labels4 : List (List ℕ)
  labels4 = Reverse.decimal d ∷ Reverse.decimal c ∷ Reverse.decimal b ∷ Reverse.decimal a ∷ arpa4

  pub rev_dns_a-encode : Reverse.rev_dns_a (a ∷ b ∷ c ∷ d ∷ []) ≡ encode labels4
  unfolding Reverse.rev_dns_a Reverse.rev_quads
  rev_dns_a-encode =
      let ip = a + 2 ^ 8 * b + 2 ^ 16 * c + 2 ^ 24 * d in
      let highest : ip / 2 ^ 24 % 256 ≡ d = omega arith in
      let high : ip / 2 ^ 16 % 256 ≡ c = omega arith in
      let low : ip / 2 ^ 8 % 256 ≡ b = omega arith in
      let lowest : ip / 2 ^ 0 % 256 ≡ a = omega arith in
      rw (highest, high, low, lowest) (simp append_assoc refl)

  abbrev text4 : List ℕ
  text4 =
      Reverse.decimal d
      ++ dot
        ∷ (Reverse.decimal c
            ++ dot ∷ (Reverse.decimal b ++ dot ∷ (Reverse.decimal a ++ Reverse.ip4_revstr_decoded)))

  scan_quads-text :
      Reverse.scan_quads 4 0 [] text4
      ≡ some (
          (Reverse.decimal a ++ dot ∷ [])
          ++ ((Reverse.decimal b ++ dot ∷ [])
              ++ ((Reverse.decimal c ++ dot ∷ []) ++ Reverse.decimal d)))
  unfolding Reverse.scan_quads
  scan_quads-text =
      scan_quads-decimal 3 0 d hd [] _
      ∙ scan_quads-decimal 2 1 c hc _ _
      ∙ scan_quads-decimal 1 2 b hb _ _
      ∙ scan_quads-decimal 0 3 a ha _ _
      ∙ rw (append-nil (Reverse.decimal d), append-nil (Reverse.decimal d)) refl

  pub inet_pton4-text :
      Reverse.inet_pton4 (
        (Reverse.decimal a ++ dot ∷ [])
        ++ ((Reverse.decimal b ++ dot ∷ [])
            ++ ((Reverse.decimal c ++ dot ∷ []) ++ Reverse.decimal d)))
      ≡ some (a ∷ b ∷ c ∷ d ∷ [])
  unfolding Reverse.inet_pton4
  inet_pton4-text =
      inet_pton4_from-dot [] a ha _ (λ e. absurd (omega arith))
      ∙ inet_pton4_from-dot (a ∷ []) b hb _ (λ e. absurd (omega arith))
      ∙ inet_pton4_from-dot (a ∷ b ∷ []) c hc _ (λ e. absurd (omega arith))
      ∙ inet_pton4_from-last (a ∷ b ∷ c ∷ []) d hd refl

  process_reverse4_lookup-text :
      Reverse.process_reverse4_lookup text4 ≡ some (af_inet, a ∷ b ∷ c ∷ d ∷ [])
  unfolding Reverse.process_reverse4_lookup
  process_reverse4_lookup-text =
      rw (Reverse.process_reverse4_lookup, scan_quads-text, inet_pton4-text) refl

  -- What is in front of the name of the zone.
  abbrev numbers4 : List ℕ
  numbers4 =
      Reverse.decimal d
      ++ dot ∷ (Reverse.decimal c ++ dot ∷ (Reverse.decimal b ++ dot ∷ Reverse.decimal a))

  text4-numbers4 : text4 ≡ numbers4 ++ Reverse.ip4_revstr_decoded
  text4-numbers4 = simp append_assoc refl

  ends_with-text4 :
      (suffix : List ℕ) (k : ℕ)
      → 13 ≡ k + length suffix
      → Reverse.ends_with text4 suffix
        ≡ Reverse.same_text (drop k Reverse.ip4_revstr_decoded) suffix
  ends_with-text4 suffix k e =
      ap (λ (t : List ℕ). Reverse.ends_with t suffix) text4-numbers4
      ∙ ends_with-append numbers4 Reverse.ip4_revstr_decoded suffix k e

  length-text4 : 13 ≤ length text4
  length-text4 =
      omega (arith, ap length text4-numbers4, length-append numbers4 Reverse.ip4_revstr_decoded)

  pub process_reverse_lookup-text4 :
      Reverse.process_reverse_lookup text4 ≡ some (af_inet, a ∷ b ∷ c ∷ d ∷ [])
  unfolding Reverse.process_reverse_lookup Reverse.same_text
  process_reverse_lookup-text4 =
      let room : (n : ℕ) → n ≤ 13 → ltb (length text4) n ≡ false =
        λ n h. ground (arith, length-text4) in
      rw
        (
          room 6 (omega arith),
          ends_with-text4 Reverse.mdns_revstr_decoded 7 refl,
          room 9 (omega arith),
          ends_with-text4 Reverse.ip6_revstr_decoded 4 refl,
          room 13 (omega arith),
          ends_with-text4 Reverse.ip4_revstr_decoded 0 refl,
        )
        process_reverse4_lookup-text

  pub AllLabels-labels4 : AllLabels labels4
  AllLabels-labels4 = (
    decimal-IsLabel d hd,
    (decimal-IsLabel c hc, (decimal-IsLabel b hb, (decimal-IsLabel a ha, arpa4-AllLabels))),
  )

  pub c_string-labels4 : Reverse.c_string (dotted labels4) ≡ text4
  c_string-labels4 =
      c_string-append (Reverse.decimal d) _ (decimal-IsLabel d hd).no_nul
      ∙ ap (λ (t : List ℕ). Reverse.decimal d ++ t)
          (c_string-after (drop 1 labels4) AllLabels-labels4.1)

-- Four numbers of bytes, each behind its length, take 16 bytes at most.
pub length-rev_quads : (n ip : ℕ) → length (Reverse.rev_quads n ip) ≤ 4 * n
unfolding Reverse.rev_quads
length-rev_quads zero ip = omega arith
length-rev_quads (suc n) ip =
    let text = Reverse.decimal (ip / 2 ^ (8 * n) % 256) in
    omega (
      arith,
      length-append text (Reverse.rev_quads n ip),
      length-decimal (ip / 2 ^ (8 * n) % 256) (omega arith),
      length-rev_quads n ip,
    )
