-- ===== src/Csum/Transport.antt =====
-- The checksums of UDP and ICMP datagrams against the one's complement sum of RFC 768, RFC 792 and
-- RFC 8200. All four functions add the two halves of the sum and drop the carry of that addition.
use omphalos.Base.{
  sum, sum-append, ℕ, ◌+◌, ◌-◌, ◌*◌, ◌%◌, ◌^◌, ◌≤◌, ◌<◌, ◌≡◌, sym, arith, ltb, ◌==◌, ◌∙◌, ap,
  if◌then◌else◌, done, u16, u32, swap16, List, [], ◌∷◌, ◌++◌, length, Memory, IsBytes, byte_at,
  word_at, load8-done, load16-done, ◌>>=◌,
}
use omphalos.Csum.{
  header_length, sum_datagram, sum_pseudo6, fold_halves32, fold_halves16, icmp4_csum, udp4_csum,
  udp6_csum, icmp6_csum,
}
use omphalos.Csum.Words.{
  words, datagram, ones_sum, ones_sum-eq-ones_rep, All16, All16-append, words-All16, datagram-All16,
  word_at-lt, sum-lt, sum-datagram-le, sum_words-sum, sum_datagram-sum,
}
use omphalos.Csum.Fold.{halves, fold_halves32-eq, fold_halves16-eq}

-- What the two folds make of the words `ws`: the complement of their one's complement sum, one too
-- much where the halves of the plain sum carry.
abbrev pub lossy32 : List ℕ → ℕ
lossy32 ws = if ltb (halves (sum ws)) 65536 then 65535 - ones_sum ws else 65536 - ones_sum ws

-- With a 16-bit fold, 0 is sent as 65535.
abbrev pub lossy16 : List ℕ → ℕ
lossy16 ws = if lossy32 ws == 0 then 65535 else lossy32 ws

fold_halves32-lossy :
    (ws : List ℕ) → All16 ws → sum ws < 2 ^ 32 → fold_halves32 (sum ws) ≡ lossy32 ws
fold_halves32-lossy ws h small =
    ground (arith, fold_halves32-eq (sum ws), ones_sum-eq-ones_rep ws h)

fold_halves16-lossy :
    (ws : List ℕ) → All16 ws → sum ws < 2 ^ 32 → fold_halves16 (sum ws) ≡ lossy16 ws
fold_halves16-lossy ws h small =
    ground (arith, fold_halves16-eq (sum ws), ones_sum-eq-ones_rep ws h)

-- For up to 65535 bytes that lie in the memory, `icmp4_csum` returns the complement of the one's
-- complement sum of the words of the message, an odd last byte padded, where the halves of their
-- plain sum add up without carry, and one more than that where they carry.
pub icmp4_csum-lossy :
    (mem : Memory) (hdr dlen : ℕ)
    → IsBytes mem
    → hdr + dlen ≤ length mem
    → dlen < 65536
    → icmp4_csum mem hdr dlen ≡ done (lossy32 (datagram mem hdr dlen))
unfolding icmp4_csum
icmp4_csum-lossy mem hdr dlen bytes fits short =
    let small = sum-datagram-le mem hdr dlen bytes in
    let bound : 0 + sum (datagram mem hdr dlen) < 2 ^ 32 = omega arith in
    rw (sum_datagram-sum mem hdr dlen 0 fits bound) (
      ap done (
        ap fold_halves32 (omega arith)
        ∙ fold_halves32-lossy _ (datagram-All16 mem hdr dlen bytes) (omega arith)))

-- The UDP header behind the IPv4 header at `hdr`, and the length in it.
abbrev pub udp4_header : Memory → ℕ → ℕ
udp4_header mem hdr = hdr + byte_at mem hdr % 16 * 4

abbrev pub udp_length : Memory → ℕ → ℕ
udp_length mem uh = swap16 (word_at mem (uh + 4))

abbrev pub udp4_rest : Memory → ℕ → List ℕ
udp4_rest mem uh = swap16 (udp_length mem uh) ∷ datagram mem uh (udp_length mem uh)

-- Source and destination address, protocol and length, header and data.
abbrev pub udp4_words : Memory → ℕ → List ℕ
udp4_words mem hdr =
    words mem (hdr + 12) 2
    ++ (words mem (hdr + 16) 2
        ++ (swap16 (byte_at mem (hdr + 9)) ∷ udp4_rest mem (udp4_header mem hdr)))

-- The IPv4 header and the UDP datagram behind it lie in the memory.
abbrev pub HasUdp4 : Memory → ℕ → Type 0
HasUdp4 mem hdr =
    (hdr + 20 ≤ length mem)
    × (udp4_header mem hdr + 6 ≤ length mem)
    × (udp4_header mem hdr + udp_length mem (udp4_header mem hdr) ≤ length mem)

udp4_words-All16 : (mem : Memory) (hdr : ℕ) → IsBytes mem → All16 (udp4_words mem hdr)
udp4_words-All16 mem hdr bytes =
    let uh = udp4_header mem hdr in
    let rest = swap16 (byte_at mem (hdr + 9)) ∷ udp4_rest mem uh in
    All16-append (words mem (hdr + 12) 2) (words mem (hdr + 16) 2 ++ rest)
      (words-All16 mem (hdr + 12) 2 bytes)
      (All16-append (words mem (hdr + 16) 2) rest (words-All16 mem (hdr + 16) 2 bytes)
        (omega arith, (omega arith, datagram-All16 mem uh (udp_length mem uh) bytes)))

-- For a header and a datagram that lie in the memory, `udp4_csum` returns the complement of the
-- one's complement sum of addresses, protocol, length and datagram where the halves of their plain
-- sum add up without carry, and one more than that where they carry.
pub udp4_csum-lossy :
    (mem : Memory) (hdr : ℕ)
    → IsBytes mem
    → HasUdp4 mem hdr
    → udp4_csum mem hdr ≡ done (lossy32 (udp4_words mem hdr))
unfolding udp4_csum header_length
udp4_csum-lossy mem hdr bytes h =
    let uh = udp4_header mem hdr in
    let dlen = udp_length mem uh in
    let small = sum-datagram-le mem uh dlen bytes in
    let source = sum-lt mem (hdr + 12) 2 bytes in
    let dest = sum-lt mem (hdr + 16) 2 bytes in
    let addrs = 0 + sum (words mem (hdr + 12) 2) + sum (words mem (hdr + 16) 2) in
    let acc = u32 (u32 (addrs + swap16 (byte_at mem (hdr + 9))) + swap16 dlen) in
    rw
      (
        load8-done mem hdr (omega arith),
        load16-done mem (uh + 4) (omega arith),
        sum_words-sum mem (hdr + 12) 2 0 (omega arith) (omega arith),
        sum_words-sum mem (hdr + 16) 2 (0 + sum (words mem (hdr + 12) 2)) (omega arith)
            (omega arith),
        load8-done mem (hdr + 9) (omega arith),
        sum_datagram-sum mem uh dlen acc (omega arith) (omega arith),
      )
      (ap done (
        ap fold_halves32 (omega arith)
        ∙ fold_halves32-lossy (udp4_words mem hdr) (udp4_words-All16 mem hdr bytes) (omega arith)))

abbrev pub pseudo6_rest : Memory → ℕ → ℕ → List ℕ
pseudo6_rest mem hdr next = word_at mem (hdr + 4) ∷ swap16 next ∷ []

-- What `sum_pseudo6` adds up.
abbrev pub pseudo6_words : Memory → ℕ → ℕ → List ℕ
pseudo6_words mem hdr next =
    words mem (hdr + 8) 8 ++ (words mem (hdr + 24) 8 ++ pseudo6_rest mem hdr next)

pseudo6_words-All16 :
    (mem : Memory) (hdr next : ℕ) → IsBytes mem → All16 (pseudo6_words mem hdr next)
pseudo6_words-All16 mem hdr next bytes =
    All16-append (words mem (hdr + 8) 8) (words mem (hdr + 24) 8 ++ pseudo6_rest mem hdr next)
      (words-All16 mem (hdr + 8) 8 bytes)
      (All16-append (words mem (hdr + 24) 8) (pseudo6_rest mem hdr next)
        (words-All16 mem (hdr + 24) 8 bytes) (word_at-lt mem (hdr + 4) bytes, (omega arith, tt)))

sum_pseudo6-sum :
    (mem : Memory) (hdr next : ℕ)
    → IsBytes mem
    → hdr + 40 ≤ length mem
    → (sum_pseudo6 mem hdr next ≡ done (sum (pseudo6_words mem hdr next)))
      × (sum (pseudo6_words mem hdr next) ≤ 65535 * 18)
unfolding sum_pseudo6
sum_pseudo6-sum mem hdr next bytes fits =
    let source = sum-lt mem (hdr + 8) 8 bytes in
    let dest = sum-lt mem (hdr + 24) 8 bytes in
    let plen = word_at-lt mem (hdr + 4) bytes in
    let rest = pseudo6_rest mem hdr next in
    let split = sum-append (words mem (hdr + 8) 8) (words mem (hdr + 24) 8 ++ rest) in
    let split' = sum-append (words mem (hdr + 24) 8) rest in
    (
      rw
          (
            sum_words-sum mem (hdr + 8) 8 0 (omega arith) (omega arith),
            sum_words-sum mem (hdr + 24) 8 (0 + sum (words mem (hdr + 8) 8)) (omega arith)
                (omega arith),
            load16-done mem (hdr + 4) (omega arith),
          )
          (ap done (omega arith)),
      omega arith,
    )

-- `udp6_csum` and `icmp6_csum`, for the datagram of `dlen` bytes behind the IPv6 header.
abbrev pub datagram6_words : Memory → ℕ → ℕ → ℕ → List ℕ
datagram6_words mem hdr next dlen = pseudo6_words mem hdr next ++ datagram mem (hdr + 40) dlen

datagram6-lossy :
    (mem : Memory) (hdr next dlen : ℕ)
    → IsBytes mem
    → hdr + 40 + dlen ≤ length mem
    → dlen < 65536
    → (do
      sum ← sum_pseudo6 mem hdr next
      sum ← sum_datagram mem (hdr + 40) dlen sum
      done (fold_halves16 sum))
      ≡ done (lossy16 (datagram6_words mem hdr next dlen))
datagram6-lossy mem hdr next dlen bytes fits short =
    let pseudo = sum_pseudo6-sum mem hdr next bytes (omega arith) in
    let small = sum-datagram-le mem (hdr + 40) dlen bytes in
    let split = sum-append (pseudo6_words mem hdr next) (datagram mem (hdr + 40) dlen) in
    rw
      (
        pseudo.0,
        sum_datagram-sum mem (hdr + 40) dlen (sum (pseudo6_words mem hdr next)) fits (omega arith),
      )
      (ap done (
        ap fold_halves16 (sym split)
        ∙ fold_halves16-lossy (datagram6_words mem hdr next dlen)
            (All16-append (pseudo6_words mem hdr next) (datagram mem (hdr + 40) dlen)
              (pseudo6_words-All16 mem hdr next bytes) (datagram-All16 mem (hdr + 40) dlen bytes))
            (omega arith)))

-- For a header and a datagram that lie in the memory, `udp6_csum` returns the complement of the
-- one's complement sum of addresses, payload length, protocol 17 and datagram, with 65535 in place
-- of 0, where the halves of their plain sum add up without carry, and one more where they carry.
pub udp6_csum-lossy :
    (mem : Memory) (hdr : ℕ)
    → IsBytes mem
    → hdr + 46 ≤ length mem
    → hdr + 40 + udp_length mem (hdr + 40) ≤ length mem
    → udp6_csum mem hdr ≡ done (lossy16 (datagram6_words mem hdr 17 (udp_length mem (hdr + 40))))
unfolding udp6_csum
udp6_csum-lossy mem hdr bytes header fits =
    rw (load16-done mem (hdr + 40 + 4) (omega arith))
      (datagram6-lossy mem hdr 17 (udp_length mem (hdr + 40)) bytes fits (omega arith))

-- The length that `icmp6_csum` takes: the payload length less the size of the IPv6 header.
abbrev pub icmp6_length : Memory → ℕ → ℕ
icmp6_length mem hdr = u16 (swap16 (word_at mem (hdr + 4)) + 2 ^ 16 - 40)

-- `icmp6_csum` returns what `udp6_csum` does, with protocol 58, of as many bytes behind the header
-- as the payload length says less 40 modulo 65536, where the memory has that many.
pub icmp6_csum-lossy :
    (mem : Memory) (hdr : ℕ)
    → IsBytes mem
    → hdr + 40 ≤ length mem
    → hdr + 40 + icmp6_length mem hdr ≤ length mem
    → icmp6_csum mem hdr ≡ done (lossy16 (datagram6_words mem hdr 58 (icmp6_length mem hdr)))
unfolding icmp6_csum
icmp6_csum-lossy mem hdr bytes header fits =
    rw (load16-done mem (hdr + 4) (omega arith))
      (datagram6-lossy mem hdr 58 (icmp6_length mem hdr) bytes fits (omega arith))
