-- ===== src/Ip/Prep.antt =====
-- The headers of datagrams that are sent: prep_ipv4_header, prep_ipv4_bcast and prep_ipv6_header of
-- src/omphalos/ip.c, and prep_udp4 and prep_udp6 of src/omphalos/udp.c. A header is filled with `memset`
-- and its fields; here its bytes are stored at once.
pub mod Sent
use omphalos.Base.{
  ℕ, ◌+◌, ◌-◌, ◌*◌, ◌/◌, ◌%◌, ◌^◌, List, [], ◌∷◌, ◌++◌, Bool, true, false, ltb, ◌==◌, if◌then◌else◌,
  u8, u16, swap16, Memory, Outcome, done, ◌>>=◌, store_bytes, store16,
}
use omphalos.Csum.{ipv4_csum}

-- The memory and the result, an `int` of which -1 is `2 ^ 32 - 1`.
abbrev pub Prepared : Type 0
Prepared = Memory × ℕ

-- A 16-bit and a 32-bit word as they stand in memory.
abbrev pub bytes16 : ℕ → List ℕ
bytes16 w = w % 256 ∷ w / 256 % 256 ∷ []

abbrev pub bytes32 : ℕ → List ℕ
bytes32 w = w % 256 ∷ w / 256 % 256 ∷ w / 65536 % 256 ∷ w / 16777216 % 256 ∷ []

-- A header of `size` bytes, where the frame has room for `needed`.
pub prepared : ℕ → ℕ → ℕ → Memory → ℕ → List ℕ → Outcome Prepared
prepared needed size flen mem frame header =
    if ltb flen needed
    then done (mem, 2 ^ 32 - 1)
    else do mem ← store_bytes mem frame header; done (mem, size)

-- Addresses are in network order, and `id` is what `random` gives.
pub ipv4_header : ℕ → ℕ → ℕ → ℕ → ℕ → List ℕ
ipv4_header id ttl proto src dst =
    0x45 ∷ 0 ∷ 0 ∷ 0 ∷ id % 256 ∷ id / 256 % 256 ∷ 0 ∷ 0 ∷ ttl ∷ u8 proto ∷ 0 ∷ 0 ∷ bytes32 src
    ++ bytes32 dst

pub prep_ipv4_bcast : ℕ → Memory → ℕ → ℕ → ℕ → ℕ → Outcome Prepared
prep_ipv4_bcast id mem frame flen src proto =
    prepared 20 20 flen mem frame (ipv4_header id 1 proto src (2 ^ 32 - 1))

-- Multicast stays in the network: its time to live is 1.
pub prep_ipv4_header : ℕ → Memory → ℕ → ℕ → ℕ → ℕ → ℕ → Outcome Prepared
prep_ipv4_header id mem frame flen src dst proto =
    let ttl = if dst % 256 / 16 == 14 then 1 else 64 in
    prepared 20 20 flen mem frame (ipv4_header id ttl proto src dst)

-- IPv6 addresses are given by their bytes.
pub prep_ipv6_header : Memory → ℕ → ℕ → List ℕ → List ℕ → ℕ → Outcome Prepared
prep_ipv6_header mem frame flen src dst proto =
    prepared 40 40 flen mem frame (0x60 ∷ 0 ∷ 0 ∷ 0 ∷ 0 ∷ 0 ∷ u8 proto ∷ 64 ∷ src ++ dst)

-- Ports and length are in network order.
pub prep_udp4 : Memory → ℕ → ℕ → ℕ → ℕ → ℕ → Outcome Prepared
prep_udp4 mem frame flen src dst dlen =
    let ulen = 8 + swap16 (u16 dlen) in
    prepared ulen 8 flen mem frame
      (bytes16 src ++ bytes16 dst ++ bytes16 (swap16 (u16 ulen)) ++ 0 ∷ 0 ∷ [])

pub prep_udp6 : Memory → ℕ → ℕ → ℕ → ℕ → ℕ → Outcome Prepared
prep_udp6 mem frame flen src dst dlen =
    let ulen = 8 + swap16 (u16 dlen) in
    prepared ulen 8 flen mem frame
      (bytes16 src ++ bytes16 dst ++ bytes16 (swap16 (u16 ulen)) ++ 0 ∷ 0 ∷ [])

-- How dhcp4_probe of src/omphalos/dhcp.c and the other senders finish a header: the length, and the
-- checksum of the header with its own field blank.
pub finish_ipv4 : Memory → ℕ → ℕ → Outcome Memory
finish_ipv4 mem ip tot_len =
    let mem = store16 mem (ip + 2) (swap16 (u16 tot_len)) in
    do check ← ipv4_csum mem ip; done (store16 mem (ip + 10) check)
