-- ===== src/Dns/Reverse.antt =====
-- `rev_dns_a`, `rev_dns_aaaa`, `process_reverse4_lookup`, `process_reverse6_lookup` and
-- `process_reverse_lookup` of src/omphalos/dns.c: the name that is asked for in a reverse lookup of
-- an address, and the address that such a name stands for. A string is the list of its bytes in front
-- of the NUL. What the C library does is written out for the "C" locale: `isdigit`, `isxdigit`,
-- `strtoul` with base 16, `sprintf` of a byte, and `inet_pton` for IPv4.
pub mod Decimal
pub mod Four
pub mod Nibbles
pub mod Six
pub mod Question
mod Examples
use omphalos.Base.{
  ℕ, zero, suc, ◌+◌, ◌-◌, ◌*◌, ◌/◌, ◌%◌, ◌^◌, bit_or, not, ◌&&◌, ◌||◌, Bool, true, false, ltb, leb,
  ◌==◌, if◌then◌else◌, List, [], ◌∷◌, ◌++◌, length, set, drop, get_or, replicate, Option, none,
  some, u32, byte_at,
}
use omphalos.Hwaddrs.{hex_digit}
use omphalos.Packet.{af_inet, af_inet6}
use omphalos.Dns.Name.{dot}

-- What a C string in a buffer holds.
pub c_string : List ℕ → List ℕ
c_string [] = []
c_string (c ∷ text) = if c == 0 then [] else c ∷ c_string text

-- `strcmp(a, b) == 0`
pub same_text : List ℕ → List ℕ → Bool
same_text [] [] = true
same_text [] (c ∷ b) = false
same_text (c ∷ a) [] = false
same_text (c ∷ a) (d ∷ b) = if c == d then same_text a b else false

pub is_digit : ℕ → Bool
is_digit c = leb 0x30 c && leb c 0x39

pub is_xdigit : ℕ → Bool
is_xdigit c = is_digit c || (leb 0x61 c && leb c 0x66) || (leb 0x41 c && leb c 0x46)

pub xdigit_value : ℕ → ℕ
xdigit_value c = if ltb c 0x3a then c - 0x30 else if ltb c 0x47 then c - 0x37 else c - 0x57

-- The number that the hexadecimal digits in front make, behind `n`.
pub hex_number : ℕ → List ℕ → ℕ
hex_number n [] = n
hex_number n (c ∷ text) =
    let more = hex_number (n * 16 + xdigit_value c) text in if is_xdigit c then more else n

-- `strtoul(text, NULL, 16)` of a text that starts with a digit: one "0x" in front is skipped, where a
-- digit is behind it, and a number that is too large becomes the largest one.
pub strtoul : List ℕ → ℕ
strtoul (c ∷ x ∷ d ∷ text) =
    let n =
      if c == 0x30 && (x == 0x78 || x == 0x58) && is_xdigit d
      then hex_number 0 (d ∷ text)
      else hex_number 0 (c ∷ x ∷ d ∷ text) in
    if ltb n (2 ^ 64) then n else 2 ^ 64 - 1
strtoul text = hex_number 0 text

-- `%u` of a byte.
unfoldable pub decimal : ℕ → List ℕ
decimal n =
    if ltb n 10
    then (0x30 + n) ∷ []
    else if ltb n 100
    then (0x30 + n / 10) ∷ (0x30 + n % 10) ∷ []
    else (0x30 + n / 100) ∷ (0x30 + n / 10 % 10) ∷ (0x30 + n % 10) ∷ []

-- `inet_pton` with `AF_INET`, behind whole bytes and the digits of the byte that is being read: four
-- numbers of at most 255, without leading zeros, with dots between them.
pub inet_pton4_from : List ℕ → Option ℕ → List ℕ → Option (List ℕ)
inet_pton4_from bytes none [] = none
inet_pton4_from bytes (some n) [] = if length bytes == 3 then some (bytes ++ n ∷ []) else none
inet_pton4_from bytes none (c ∷ text) =
    let more = inet_pton4_from bytes (some (c - 0x30)) text in if is_digit c then more else none
inet_pton4_from bytes (some n) (c ∷ text) =
    let digit = inet_pton4_from bytes (some (n * 10 + (c - 0x30))) text in
    let next = inet_pton4_from (bytes ++ n ∷ []) none text in
    if is_digit c
    then (if (n == 0) || ltb 255 (n * 10 + (c - 0x30)) then none else digit)
    else if (c == dot) && not (length bytes == 3)
    then next
    else none

pub inet_pton4 : List ℕ → Option (List ℕ)
inet_pton4 text = inet_pton4_from [] none text

-- IP4_REVSTR and IP6_REVSTR, with the lengths of the labels.
abbrev pub ip4_revstr : List ℕ
ip4_revstr = 7 ∷ 105 ∷ 110 ∷ 45 ∷ 97 ∷ 100 ∷ 100 ∷ 114 ∷ 4 ∷ 97 ∷ 114 ∷ 112 ∷ 97 ∷ []

abbrev pub ip6_revstr : List ℕ
ip6_revstr = 3 ∷ 105 ∷ 112 ∷ 54 ∷ 4 ∷ 97 ∷ 114 ∷ 112 ∷ 97 ∷ []

-- IP4_REVSTR_DECODED, IP6_REVSTR_DECODED and MDNS_REVSTR_DECODED.
abbrev pub ip4_revstr_decoded : List ℕ
ip4_revstr_decoded = 46 ∷ 105 ∷ 110 ∷ 45 ∷ 97 ∷ 100 ∷ 100 ∷ 114 ∷ 46 ∷ 97 ∷ 114 ∷ 112 ∷ 97 ∷ []

abbrev pub ip6_revstr_decoded : List ℕ
ip6_revstr_decoded = 46 ∷ 105 ∷ 112 ∷ 54 ∷ 46 ∷ 97 ∷ 114 ∷ 112 ∷ 97 ∷ []

abbrev pub mdns_revstr_decoded : List ℕ
mdns_revstr_decoded = 46 ∷ 108 ∷ 111 ∷ 99 ∷ 97 ∷ 108 ∷ []

-- The loop of `rev_dns_a` over the bytes of `ip` from the highest on: the dot that `sprintf` writes in
-- front of a number is replaced by the length of the number.
pub rev_quads : ℕ → ℕ → List ℕ
rev_quads zero ip = []
rev_quads (suc n) ip =
    let text = decimal (ip / 2 ^ (8 * n) % 256) in (length text ∷ text) ++ rev_quads n ip

-- The four bytes of the address are loaded in the order of a little-endian host.
pub rev_dns_a : List ℕ → List ℕ
rev_dns_a i4 =
    rev_quads 4
      (byte_at i4 0 + 2 ^ 8 * byte_at i4 1 + 2 ^ 16 * byte_at i4 2 + 2 ^ 24 * byte_at i4 3)
    ++ ip4_revstr

-- `ntohl` of the word with index `k`.
unfoldable pub net_long : List ℕ → ℕ → ℕ
net_long i6 k =
    2 ^ 24 * byte_at i6 (4 * k)
    + 2 ^ 16 * byte_at i6 (4 * k + 1)
    + 2 ^ 8 * byte_at i6 (4 * k + 2)
    + byte_at i6 (4 * k + 3)

-- The inner loop of `rev_dns_aaaa`, with `n` rounds left.
pub rev_nibbles : ℕ → ℕ → ℕ → List ℕ
rev_nibbles zero ip shr = []
rev_nibbles (suc n) ip shr = 1 ∷ hex_digit (ip / 2 ^ shr % 16) ∷ rev_nibbles n ip (shr + 4)

-- The outer loop, from word `z` down.
pub rev_longs : ℕ → List ℕ → List ℕ
rev_longs zero i6 = []
rev_longs (suc z) i6 = rev_nibbles 8 (net_long i6 z) 0 ++ rev_longs z i6

pub rev_dns_aaaa : List ℕ → List ℕ
rev_dns_aaaa i6 = rev_longs 4 i6 ++ ip6_revstr

-- `addr6[len / 16] |= val << (28 - len % 16 / 2 * 4)`, the words of `addr6` kept as numbers.
pub put_nibble : List ℕ → ℕ → ℕ → List ℕ
put_nibble addr6 len val =
    set addr6 (len / 16)
      (bit_or (get_or addr6 (len / 16) 0) (u32 (val * 2 ^ (28 - len % 16 / 2 * 4))))

-- The loop of `process_reverse6_lookup`.
pub reverse6_from : List ℕ → ℕ → Bool → List ℕ → Option (List ℕ)
reverse6_from buf zero wantdigit addr6 = some addr6
reverse6_from [] (suc len) wantdigit addr6 = none
reverse6_from (c ∷ buf) (suc len) true addr6 =
    let rest = reverse6_from buf len false (put_nibble addr6 (suc len) (u32 (strtoul (c ∷ buf)))) in
    if is_xdigit c then rest else none
reverse6_from (c ∷ buf) (suc len) false addr6 =
    let rest = reverse6_from buf len true addr6 in if c == dot then rest else none

-- The bytes of a word in network order.
pub long_bytes : ℕ → List ℕ
long_bytes w = w / 2 ^ 24 % 256 ∷ w / 2 ^ 16 % 256 ∷ w / 2 ^ 8 % 256 ∷ w % 256 ∷ []

pub words_bytes : List ℕ → List ℕ
words_bytes [] = []
words_bytes (w ∷ words) = long_bytes w ++ words_bytes words

-- The family and the address, or nothing for the return of -1.
pub process_reverse6_lookup : List ℕ → ℕ → Option (ℕ × List ℕ)
process_reverse6_lookup buf len =
    if len == 63
    then elim (reverse6_from buf len true (replicate 4 0)) [
      | none ↦ none
      | some addr6 ↦ some (af_inet6, words_bytes addr6)
    ]
    else none

-- A character of a number of `process_reverse4_lookup`: the loop goes on with this mode and these
-- characters since `chunk`, or it ends with the text of the number, or the name is refused.
pub data Scan : Type 0 where
  more : Bool → List ℕ → Scan
  number : List ℕ → Scan
  refuse : Scan

pub scan : ℕ → Bool → List ℕ → ℕ → Scan
scan quad classless chunk c =
    if leb 4 (length chunk)
    then refuse
    else if is_digit c
    then more classless (chunk ++ c ∷ [])
    else if c == dot
    then (if classless
        then more false []
        else number (chunk ++ (if quad == 0 then [] else dot ∷ [])))
    else if ((c == 0x2d) || (c == 0x2f)) && (quad == 1) && not classless
    then more true []
    else refuse

-- The loop over the characters of a number: `q[quad]` and the name behind the number.
pub scan_quad : ℕ → Bool → List ℕ → List ℕ → Option (List ℕ × List ℕ)
scan_quad quad classless chunk [] = none
scan_quad quad classless chunk (c ∷ buf) = elim (scan quad classless chunk c) [
  | more classless chunk ↦ scan_quad quad classless chunk buf
  | number q ↦ some (q, buf)
  | refuse ↦ none
]

-- The loop over the four numbers, with `left` of them to read: `obuf`, which is built from the last to
-- the first.
pub scan_quads : ℕ → ℕ → List ℕ → List ℕ → Option (List ℕ)
scan_quads zero quad obuf buf = some obuf
scan_quads (suc left) quad obuf buf = elim (scan_quad quad false [] buf) [
  | none ↦ none
  | some (q, rest) ↦ scan_quads left (suc quad) (q ++ obuf) rest
]

pub process_reverse4_lookup : List ℕ → Option (ℕ × List ℕ)
process_reverse4_lookup buf = elim (scan_quads 4 0 [] buf) [
  | none ↦ none
  | some obuf ↦ elim (inet_pton4 obuf) [ none ↦ none | some addr ↦ some (af_inet, addr) ]
]

-- Whether `buf`, which is at least as long, ends with `suffix`.
pub ends_with : List ℕ → List ℕ → Bool
ends_with buf suffix = same_text (drop (length buf - length suffix) buf) suffix

pub process_reverse_lookup : List ℕ → Option (ℕ × List ℕ)
process_reverse_lookup buf =
    if ltb (length buf) (length mdns_revstr_decoded)
    then none
    else if ends_with buf mdns_revstr_decoded
    then none
    else if ltb (length buf) (length ip6_revstr_decoded)
    then none
    else if ends_with buf ip6_revstr_decoded
    then process_reverse6_lookup buf (length buf - length ip6_revstr_decoded)
    else if ltb (length buf) (length ip4_revstr_decoded)
    then none
    else if ends_with buf ip4_revstr_decoded
    then process_reverse4_lookup buf
    else none
