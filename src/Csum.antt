-- ===== src/Csum.antt =====
-- src/omphalos/csum.c: the internet checksums of IPv4, UDP and ICMP headers in memory.
-- A header is given by its address in the memory; 16-bit loads are those of a little-endian host.
pub mod Words
pub mod Fold
pub mod Header
pub mod Transport
mod Examples
use omphalos.Base.{
  ℕ, zero, suc, ◌+◌, ◌-◌, ◌*◌, ◌/◌, ◌%◌, ◌^◌, bit_and, u16, u32, not32, swap16, ◌==◌, if◌then◌else◌,
  Memory, Outcome, done, fault, out_of_fuel, ◌>>=◌, ◌>>◌, load8, load16,
}

-- `for(z = 0 ; z < rounds ; ++z){ sum += cur[z]; }` on a `uint32_t`.
unfoldable pub sum_words : Memory → ℕ → ℕ → ℕ → Outcome ℕ
sum_words mem cur zero sum = done sum
sum_words mem cur (suc rounds) sum = do
  w ← load16 mem cur
  sum_words mem (cur + 2) rounds (u32 (sum + w))

-- `while(sum >> 16){ sum = (sum & 0xffff) + (sum >> 16); }`
unfoldable pub fold_carries : ℕ → ℕ → Outcome ℕ
fold_carries zero sum = out_of_fuel
fold_carries (suc fuel) sum =
    let rest = fold_carries fuel (u32 (bit_and sum 0xffff + sum / 2 ^ 16)) in
    if sum / 2 ^ 16 == 0 then done sum else rest

-- The header length in bytes, `ihl << 2`: `ihl` is the low nibble of the first byte.
unfoldable pub header_length : Memory → ℕ → Outcome ℕ
header_length mem hdr = do b ← load8 mem hdr; done (b % 16 * 4)

unfoldable pub ipv4_csum : Memory → ℕ → Outcome ℕ
ipv4_csum mem hdr = do
  len ← header_length mem hdr
  sum ← sum_words mem hdr (len / 2) 0
  sum ← fold_carries 4 sum
  done (u16 (not32 sum))

-- The words and, where `dlen` is odd, the last byte of the `dlen` bytes at `cur`.
pub sum_datagram : Memory → ℕ → ℕ → ℕ → Outcome ℕ
sum_datagram mem cur dlen sum = do
  sum ← sum_words mem cur (dlen / 2) sum
  if dlen % 2 == 0 then done sum else do last ← load8 mem (cur + dlen - 1); done (u32 (sum + last))

-- The end of `icmp4_csum` and `udp4_csum`, where `fold` is a `uint32_t`.
pub fold_halves32 : ℕ → ℕ
fold_halves32 sum =
    let low = u32 (0 + bit_and sum 0xffff) in
    let both = u32 (low + bit_and (sum / 2 ^ 16) 0xffff) in
    let fold = not32 (bit_and both 0xffff) in if fold == 0 then 0xffff else u16 fold

-- The end of `udp6_csum` and `icmp6_csum`, where `fold` is a `uint16_t`.
pub fold_halves16 : ℕ → ℕ
fold_halves16 sum =
    let low = u16 (0 + bit_and sum 0xffff) in
    let both = u16 (low + bit_and (sum / 2 ^ 16) 0xffff) in
    let fold = u16 (not32 (bit_and both 0xffff)) in if fold == 0 then 0xffff else fold

pub icmp4_csum : Memory → ℕ → ℕ → Outcome ℕ
icmp4_csum mem hdr dlen = do sum ← sum_datagram mem hdr dlen 0; done (fold_halves32 sum)

pub udp4_csum : Memory → ℕ → Outcome ℕ
udp4_csum mem hdr = do
  ihl ← header_length mem hdr
  let uh = hdr + ihl
  len ← load16 mem (uh + 4)
  let dlen = swap16 len
  sum ← sum_words mem (hdr + 12) 2 0
  sum ← sum_words mem (hdr + 16) 2 sum
  protocol ← load8 mem (hdr + 9)
  let sum = u32 (sum + swap16 protocol)
  let sum = u32 (sum + swap16 dlen)
  sum ← sum_datagram mem uh dlen sum
  done (fold_halves32 sum)

-- Source and destination address, `ip6_un1_plen`, and the next header as a 16-bit word.
pub sum_pseudo6 : Memory → ℕ → ℕ → Outcome ℕ
sum_pseudo6 mem hdr next = do
  sum ← sum_words mem (hdr + 8) 8 0
  sum ← sum_words mem (hdr + 24) 8 sum
  plen ← load16 mem (hdr + 4)
  let sum = u32 (sum + plen)
  done (u32 (sum + swap16 next))

pub udp6_csum : Memory → ℕ → Outcome ℕ
udp6_csum mem hdr = do
  let uh = hdr + 40
  len ← load16 mem (uh + 4)
  let dlen = swap16 len
  sum ← sum_pseudo6 mem hdr 17
  sum ← sum_datagram mem uh dlen sum
  done (fold_halves16 sum)

-- `dlen` is a `uint16_t`: the length in the IPv6 header less the size of that header, with the
-- wrap.
pub icmp6_csum : Memory → ℕ → Outcome ℕ
icmp6_csum mem hdr = do
  let ch = hdr + 40
  plen ← load16 mem (hdr + 4)
  let dlen = u16 (swap16 plen + 2 ^ 16 - 40)
  sum ← sum_pseudo6 mem hdr 58
  sum ← sum_datagram mem ch dlen sum
  done (fold_halves16 sum)
