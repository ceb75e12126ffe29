-- ===== src/Dns/Reverse/Six.antt =====
-- The reverse lookup of an IPv6 address: its question, as a record of a packet has it, is read back as
-- the address.
use omphalos.Base.{
  ℕ, zero, suc, ◌+◌, ◌*◌, ◌/◌, ◌%◌, ◌^◌, ◌<◌, ◌≡◌, refl, ap, ◌∙◌, sym, arith, true, false, List, [],
  ◌∷◌, ◌++◌, length, replicate, some, byte_at, IsBytes, byte_at-lt, bytes_at, map, ◌==◌, drop,
}
use omphalos.Hwaddrs.{hex_digit}
use omphalos.Packet.{af_inet6}
use omphalos.Dns.Name.{dot}
use omphalos.Dns.Name.Plain.{dotted}
use omphalos.Dns.Name.Reading.{encode, AllLabels}
use omphalos.Dns.Reverse
use omphalos.Dns.Reverse.Nibbles.{
  ip6_arpa, AllNibbles, span, reverse6_from-place, AllNibbles-words, gathered, gathered-same,
  place-nibbles, nibble_text, words_nibbles,
}

bytes_at-cons : (n x p : ℕ) (xs : List ℕ) → bytes_at (x ∷ xs) (suc p) n ≡ bytes_at xs p n
bytes_at-cons zero x p xs = refl
bytes_at-cons (suc n) x p xs =
    let next : suc p + 1 ≡ suc (p + 1) = omega arith in
    rw next (ap (λ (l : List ℕ). byte_at xs p ∷ l) (bytes_at-cons n x (p + 1) xs))

-- All the bytes of an address.
pub bytes_at-all : (xs : List ℕ) → bytes_at xs 0 (length xs) ≡ xs
bytes_at-all [] = refl
bytes_at-all (x ∷ xs) =
    ap (λ (l : List ℕ). x ∷ l) (bytes_at-cons (length xs) x 0 xs ∙ bytes_at-all xs)

-- The question, its nibbles taken from the words of the address.
abbrev words_down : List ℕ → List ℕ
words_down i6 =
    Reverse.net_long i6 3
    ∷ Reverse.net_long i6 2
    ∷ Reverse.net_long i6 1
    ∷ Reverse.net_long i6 0
    ∷ []

abbrev address_nibbles : List ℕ → List ℕ
address_nibbles i6 = words_nibbles (words_down i6)

abbrev label_of : ℕ → List ℕ
label_of d = hex_digit d ∷ []

abbrev arpa6 : List (List ℕ)
arpa6 = (105 ∷ 112 ∷ 54 ∷ []) ∷ (97 ∷ 114 ∷ 112 ∷ 97 ∷ []) ∷ []

abbrev pub labels6 : List ℕ → List (List ℕ)
labels6 i6 = map label_of (address_nibbles i6) ++ arpa6

pub rev_dns_aaaa-encode : (i6 : List ℕ) → Reverse.rev_dns_aaaa i6 ≡ encode (labels6 i6)
unfolding Reverse.rev_dns_aaaa Reverse.rev_longs Reverse.rev_nibbles
rev_dns_aaaa-encode i6 = refl

hex_digit-positive : (d : ℕ) → 0 < hex_digit d
unfolding hex_digit
hex_digit-positive d = ground arith

hex_digit-nonzero : (d : ℕ) → (hex_digit d == 0) ≡ false
hex_digit-nonzero d = ground (arith, hex_digit-positive d)

c_string-dotted :
    (d : ℕ) (ds : List ℕ)
    → AllNibbles (d ∷ ds)
    → Reverse.c_string (dotted (map label_of (d ∷ ds) ++ arpa6)) ≡ nibble_text (d ∷ ds)
unfolding Reverse.c_string
c_string-dotted d [] h = rw (hex_digit-nonzero d) refl
c_string-dotted d (e ∷ ds) h =
    rw (hex_digit-nonzero d)
      (ap (λ (text : List ℕ). hex_digit d ∷ dot ∷ text) (c_string-dotted e ds h.1))

AllLabels-labels :
    (ds : List ℕ) (more : List (List ℕ))
    → AllNibbles ds
    → AllLabels more
    → AllLabels (map label_of ds ++ more)
AllLabels-labels [] more h rest = rest
AllLabels-labels (d ∷ ds) more h rest = (
  record {
    nonempty = omega arith;
    short = omega arith;
    no_nul = (omega (arith, hex_digit-positive d), tt);
  },
  AllLabels-labels ds more h.1 rest,
)

span-length : (ds : List ℕ) → length (nibble_text ds) ≡ span ds + 8
span-length [] = refl
span-length (d ∷ ds) = omega (arith, span-length ds)

drop-span : (ds : List ℕ) → drop (span ds) (nibble_text ds) ≡ ip6_arpa
drop-span [] = refl
drop-span (d ∷ ds) = drop-span ds

long_bytes-sum :
    (a b c d : ℕ)
    → a < 256
    → b < 256
    → c < 256
    → d < 256
    → Reverse.long_bytes (2 ^ 24 * a + 2 ^ 16 * b + 2 ^ 8 * c + d) ≡ a ∷ b ∷ c ∷ d ∷ []
unfolding Reverse.long_bytes
long_bytes-sum a b c d ha hb hc hd =
    let w = 2 ^ 24 * a + 2 ^ 16 * b + 2 ^ 8 * c + d in
    let first : w / 2 ^ 24 % 256 ≡ a = omega arith in
    let second : w / 2 ^ 16 % 256 ≡ b = omega arith in
    let third : w / 2 ^ 8 % 256 ≡ c = omega arith in
    let last : w % 256 ≡ d = omega arith in rw (first, second, third, last) refl

module _ (i6 : List ℕ) (h : IsBytes i6) where
  long_bytes-net_long :
      (k : ℕ)
      → Reverse.long_bytes (Reverse.net_long i6 k)
        ≡ byte_at i6 (4 * k)
          ∷ byte_at i6 (4 * k + 1)
          ∷ byte_at i6 (4 * k + 2)
          ∷ byte_at i6 (4 * k + 3)
          ∷ []
  unfolding Reverse.net_long
  long_bytes-net_long k =
      long_bytes-sum (byte_at i6 (4 * k)) (byte_at i6 (4 * k + 1)) (byte_at i6 (4 * k + 2))
        (byte_at i6 (4 * k + 3)) (byte_at-lt i6 (4 * k) h) (byte_at-lt i6 (4 * k + 1) h)
        (byte_at-lt i6 (4 * k + 2) h) (byte_at-lt i6 (4 * k + 3) h)

  net_long-lt : (k : ℕ) → Reverse.net_long i6 k < 2 ^ 32
  unfolding Reverse.net_long
  net_long-lt k = omega (
    arith,
    byte_at-lt i6 (4 * k) h,
    byte_at-lt i6 (4 * k + 1) h,
    byte_at-lt i6 (4 * k + 2) h,
    byte_at-lt i6 (4 * k + 3) h,
  )

  gathered-long : (k : ℕ) → gathered (Reverse.net_long i6 k) ≡ Reverse.net_long i6 k
  gathered-long k = gathered-same (Reverse.net_long i6 k) (net_long-lt k)

  words_bytes-gathered :
      Reverse.words_bytes (
        gathered (Reverse.net_long i6 0)
        ∷ gathered (Reverse.net_long i6 1)
        ∷ gathered (Reverse.net_long i6 2)
        ∷ gathered (Reverse.net_long i6 3)
        ∷ [])
      ≡ bytes_at i6 0 16
  unfolding Reverse.words_bytes
  words_bytes-gathered =
      rw
        (
          gathered-long 0,
          gathered-long 1,
          gathered-long 2,
          gathered-long 3,
          long_bytes-net_long 0,
          long_bytes-net_long 1,
          long_bytes-net_long 2,
          long_bytes-net_long 3,
        )
        refl

  reverse6_from-address :
      Reverse.reverse6_from (nibble_text (address_nibbles i6)) 63 true (replicate 4 0)
      ≡ some (
          gathered (Reverse.net_long i6 0)
          ∷ gathered (Reverse.net_long i6 1)
          ∷ gathered (Reverse.net_long i6 2)
          ∷ gathered (Reverse.net_long i6 3)
          ∷ [])
  reverse6_from-address =
      reverse6_from-place (Reverse.net_long i6 3 / 2 ^ 0 % 16) (drop 1 (address_nibbles i6))
        (replicate 4 0) (AllNibbles-words (words_down i6))
      ∙ ap some (
          place-nibbles (Reverse.net_long i6 0) (Reverse.net_long i6 1) (Reverse.net_long i6 2)
            (Reverse.net_long i6 3))

  process_reverse6_lookup-address :
      Reverse.process_reverse6_lookup (nibble_text (address_nibbles i6)) 63
      ≡ some (af_inet6, bytes_at i6 0 16)
  unfolding Reverse.process_reverse6_lookup
  process_reverse6_lookup-address = rw (reverse6_from-address, words_bytes-gathered) refl

  ends_with-ip6 :
      Reverse.ends_with (nibble_text (address_nibbles i6)) Reverse.ip6_revstr_decoded ≡ true
  unfolding Reverse.ends_with Reverse.same_text
  ends_with-ip6 = refl

  ends_with-mdns :
      Reverse.ends_with (nibble_text (address_nibbles i6)) Reverse.mdns_revstr_decoded ≡ false
  unfolding Reverse.ends_with Reverse.same_text
  ends_with-mdns = refl

  pub process_reverse_lookup-nibbles :
      length i6 ≡ 16
      → Reverse.process_reverse_lookup (nibble_text (address_nibbles i6)) ≡ some (af_inet6, i6)
  unfolding Reverse.process_reverse_lookup
  process_reverse_lookup-nibbles size =
      let all : bytes_at i6 0 16 ≡ i6 =
        ap (λ (n : ℕ). bytes_at i6 0 n) (sym size) ∙ bytes_at-all i6 in
      rw (ends_with-mdns, ends_with-ip6)
        (process_reverse6_lookup-address ∙ ap (λ (addr : List ℕ). some (af_inet6, addr)) all)

arpa6-AllLabels : AllLabels arpa6
arpa6-AllLabels = ground arith

pub AllLabels-labels6 : (i6 : List ℕ) → AllLabels (labels6 i6)
AllLabels-labels6 i6 =
    AllLabels-labels (address_nibbles i6) arpa6 (AllNibbles-words (words_down i6)) arpa6-AllLabels

pub c_string-labels6 :
    (i6 : List ℕ) → Reverse.c_string (dotted (labels6 i6)) ≡ nibble_text (address_nibbles i6)
c_string-labels6 i6 =
    c_string-dotted (Reverse.net_long i6 3 / 2 ^ 0 % 16) (drop 1 (address_nibbles i6))
      (AllNibbles-words (words_down i6))
