-- ===== src/Ip/Prep/Sent.antt =====
-- An IPv4 header that prep_ipv4_header fills, with its length and checksum, is accepted by
-- handle_ipv4_packet.
use omphalos.Base.{
  ℕ, ◌+◌, ◌-◌, ◌/◌, ◌%◌, ◌^◌, ◌≤◌, ◌<◌, ◌≡◌, ◌≢◌, refl, ap, ◌∙◌, arith, List, some, true, false,
  ltb, ◌==◌, ◌||◌, if◌then◌else◌, length, get_or, byte_at-lt, bytes_at, u8, u16, u32, swap16,
  Memory, IsBytes, byte_at, word_at, net_word_at, done, load8-done, load16-done, load16_net-done,
  load_bytes-done, ◌>>=◌, store16,
}
use omphalos.Csum.{ipv4_csum}
use omphalos.Csum.Header.{
  length-store16, IsBytes-store16, ipv4_csum-store, byte_at-store16_ne, word_at-store16,
}
use omphalos.Base.Ends.{Ends}
use omphalos.Base.Stores.{
  put_bytes, length-put_bytes, store_bytes-put_bytes, IsBytes-put_bytes, byte_at-put_bytes,
}
use omphalos.Packet.{Packet, ask, l3host, af_inet, overwrite}
use omphalos.Udp.{Applications}
use omphalos.Ip.{l3_hosts, ipv4_upper, ipv4_payload, ipv4_checks, handle_ipv4_packet}
use omphalos.Ip.V4.{ipv4_csum-Ends}
use omphalos.Ip.Prep.{bytes32, prepared, ipv4_header, prep_ipv4_header, finish_ipv4}

-- The packet with the addresses of a datagram, for which hosts are asked.
pub received : List ℕ → List ℕ → Packet → Packet
received src dst op =
    let op : Packet = record op {
      l3saddr = overwrite src op.l3saddr;
      l3daddr = overwrite dst op.l3daddr;
      l3s = some src;
      l3d = some dst;
    } in
    ask (l3host af_inet op.l2d dst) (ask (l3host af_inet op.l2s src) op)

l3_hosts-received :
    (mem : Memory) (saddr daddr : ℕ) (op : Packet)
    → saddr + 4 ≤ length mem
    → daddr + 4 ≤ length mem
    → l3_hosts af_inet saddr daddr 4 mem op
      ≡ done (received (bytes_at mem saddr 4) (bytes_at mem daddr 4) op)
unfolding l3_hosts received
l3_hosts-received mem saddr daddr op s d =
    rw (load_bytes-done mem saddr 4 s, load_bytes-done mem daddr 4 d) refl

module _ (mem : Memory) (frame id ttl proto src dst tot : ℕ) (bytes : IsBytes mem)
    (room : frame + 20 ≤ length mem) (lives : ttl < 256) (small : tot < 65536) where
  header : List ℕ
  header = ipv4_header id ttl proto src dst

  -- The header without its checksum, and with the checksum `c`.
  blank_header : Memory
  blank_header = store16 (put_bytes mem frame header) (frame + 2) (swap16 (u16 tot))

  full_header : ℕ → Memory
  full_header c = store16 blank_header (frame + 10) c

  header-IsBytes : IsBytes header
  unfolding header ipv4_header
  header-IsBytes = ground arith

  length-blank_header : length blank_header ≡ length mem
  unfolding blank_header
  length-blank_header =
      length-store16 (put_bytes mem frame header) (frame + 2) _ ∙ length-put_bytes header mem frame

  blank_header-IsBytes : IsBytes blank_header
  unfolding blank_header
  blank_header-IsBytes =
      IsBytes-store16 _ (frame + 2) _ (IsBytes-put_bytes header mem frame bytes header-IsBytes)
        (omega arith)

  byte_at-blank_header :
      (i : ℕ) → i < 20 → i ≢ 2 → i ≢ 3 → byte_at blank_header (frame + i) ≡ get_or header i 0
  unfolding blank_header header ipv4_header
  byte_at-blank_header i lt n2 n3 =
      byte_at-store16_ne _ (frame + 2) _ (frame + i) (omega arith) (omega arith)
      ∙ byte_at-put_bytes header mem frame i lt room

  byte_at-full_header :
      (c i : ℕ)
      → i < 20
      → i ≢ 2
      → i ≢ 3
      → i ≢ 10
      → i ≢ 11
      → byte_at (full_header c) (frame + i) ≡ get_or header i 0
  unfolding full_header
  byte_at-full_header c i lt n2 n3 n10 n11 =
      byte_at-store16_ne _ (frame + 10) _ (frame + i) (omega arith) (omega arith)
      ∙ byte_at-blank_header i lt n2 n3

  next_byte : (i : ℕ) → frame + i + 1 ≡ frame + (i + 1)
  next_byte i = omega arith

  first_byte : (m : Memory) → byte_at m (frame + 0) ≡ 0x45 → byte_at m frame ≡ 0x45
  first_byte m e = ap (byte_at m) (omega arith) ∙ e

  -- The checksum of the header ends, and is zero once it is stored.
  checksum : Ends (λ (c : ℕ). c ≤ 65535) (ipv4_csum blank_header frame)
  unfolding header ipv4_header
  checksum =
      let first =
        first_byte blank_header
          (byte_at-blank_header 0 (omega arith) (omega arith) (omega arith)) in
      ipv4_csum-Ends blank_header frame blank_header-IsBytes (omega (arith, length-blank_header))
        (omega (arith, length-blank_header, first))

  checksum_zero : ipv4_csum (full_header checksum.result) frame ≡ done 0
  unfolding full_header header ipv4_header
  checksum_zero =
      let first =
        first_byte blank_header
          (byte_at-blank_header 0 (omega arith) (omega arith) (omega arith)) in
      let low = byte_at-blank_header 10 (omega arith) (omega arith) (omega arith) in
      let high = byte_at-blank_header 11 (omega arith) (omega arith) (omega arith) in
      ipv4_csum-store blank_header frame checksum.result blank_header-IsBytes
        (omega (arith, length-blank_header), omega (arith, length-blank_header, first))
        (omega (arith, first)) (omega (arith, low, ap (byte_at blank_header) (next_byte 10) ∙ high))
        checksum.runs

  total : net_word_at (full_header checksum.result) (frame + 2) ≡ tot
  unfolding full_header blank_header
  total =
      let word =
        word_at-store16 (put_bytes mem frame header) (frame + 2) (swap16 (u16 tot))
          (omega (arith, length-put_bytes header mem frame)) in
      let low =
        byte_at-store16_ne blank_header (frame + 10) checksum.result (frame + 2) (omega arith)
          (omega arith) in
      let high =
        byte_at-store16_ne blank_header (frame + 10) checksum.result (frame + 2 + 1) (omega arith)
          (omega arith) in
      omega (
        arith,
        word,
        low,
        high,
        byte_at-lt blank_header (frame + 2) blank_header-IsBytes,
        byte_at-lt blank_header (frame + 2 + 1) blank_header-IsBytes,
      )

  -- Byte `i` of the header in memory, if it is not of the length or the checksum, at any address equal
  -- to its own.
  full_byte :
      (q i : ℕ)
      → q ≡ frame + i
      → ltb i 20 ≡ true
      → ((i / 2 == 1) || (i / 2 == 5)) ≡ false
      → byte_at (full_header checksum.result) q ≡ get_or header i 0
  full_byte q i e lt other =
      ap (byte_at (full_header checksum.result)) e
      ∙ byte_at-full_header checksum.result i (ground arith) (ground arith) (ground arith)
          (ground arith) (ground arith)

  address-bytes32 :
      (i w : ℕ)
      → byte_at (full_header checksum.result) (frame + i) ≡ w % 256
      → byte_at (full_header checksum.result) (frame + i + 1) ≡ w / 256 % 256
      → byte_at (full_header checksum.result) (frame + i + 1 + 1) ≡ w / 65536 % 256
      → byte_at (full_header checksum.result) (frame + i + 1 + 1 + 1) ≡ w / 16777216 % 256
      → bytes_at (full_header checksum.result) (frame + i) 4 ≡ bytes32 w
  address-bytes32 i w a b c d = rw (a, b, c, d) refl

  source_address : bytes_at (full_header checksum.result) (frame + 12) 4 ≡ bytes32 src
  unfolding header ipv4_header
  source_address =
      address-bytes32 12 src (full_byte _ 12 refl refl refl)
        (full_byte _ 13 (omega arith) refl refl) (full_byte _ 14 (omega arith) refl refl)
        (full_byte _ 15 (omega arith) refl refl)

  dest_address : bytes_at (full_header checksum.result) (frame + 16) 4 ≡ bytes32 dst
  unfolding header ipv4_header
  dest_address =
      address-bytes32 16 dst (full_byte _ 16 refl refl refl)
        (full_byte _ 17 (omega arith) refl refl) (full_byte _ 18 (omega arith) refl refl)
        (full_byte _ 19 (omega arith) refl refl)

  no_fragment : word_at (full_header checksum.result) (frame + 6) ≡ 0
  unfolding header ipv4_header
  no_fragment = omega (
    arith,
    full_byte (frame + 6) 6 refl refl refl,
    full_byte (frame + 6 + 1) 7 (omega arith) refl refl,
  )

  finished : finish_ipv4 (put_bytes mem frame header) frame tot ≡ done (full_header checksum.result)
  unfolding finish_ipv4 full_header blank_header
  finished = rw checksum.runs refl

  put_header :
      (flen : ℕ)
      → 20 ≤ flen
      → prepared 20 20 flen mem frame (ipv4_header id ttl proto src dst)
        ≡ done (put_bytes mem frame header, 20)
  unfolding prepared header ipv4_header
  put_header flen enough =
      let fits : ltb flen 20 ≡ false = ground arith in
      rw (fits, store_bytes-put_bytes header mem frame room) refl

  module _ (apps : Applications) (len : ℕ) (op : Packet) (whole : 20 ≤ tot) (fits : tot ≤ len) where
    accepted :
        handle_ipv4_packet apps (full_header checksum.result) frame len op
        ≡ ipv4_upper apps
            (u8 proto)
            (full_header checksum.result)
            (frame + 20)
            (tot - 20)
            (received (bytes32 src) (bytes32 dst) op)
    unfolding handle_ipv4_packet ipv4_checks ipv4_payload header ipv4_header full_header
    accepted =
        let first =
          first_byte (full_header checksum.result) (full_byte (frame + 0) 0 refl refl refl) in
        let long : ltb len 20 ≡ false = ground arith in
        let total_fits : ltb len tot ≡ false = ground arith in
        let payload : u32 (tot + 2 ^ 32 - 20) ≡ tot - 20 = omega arith in
        let inside : frame + 20 ≤ length (full_header checksum.result) =
          omega (
            arith,
            length-store16 blank_header (frame + 10) checksum.result,
            length-blank_header,
          ) in
        let hosts =
          l3_hosts-received (full_header checksum.result) (frame + 12) (frame + 16) op (omega arith)
            (omega arith) in
        let addressed =
          hosts
          ∙ ap (λ r. done (received r (bytes_at (full_header checksum.result) (frame + 16) 4) op))
              source_address
          ∙ ap (λ r. done (received (bytes32 src) r op)) dest_address in
        rw
          (
            load8-done (full_header checksum.result) frame (omega arith),
            first,
            long,
            checksum_zero,
            load16_net-done (full_header checksum.result) (frame + 2) (omega arith),
            total,
            total_fits,
            addressed,
            load16-done (full_header checksum.result) (frame + 6) (omega arith),
            no_fragment,
            load8-done (full_header checksum.result) (frame + 9) (omega arith),
            full_byte (frame + 9) 9 refl refl refl,
            payload,
          )
          refl

    sent :
        (flen : ℕ)
        → 20 ≤ flen
        → Ends
            (λ (final : Memory).
              handle_ipv4_packet apps final frame len op
              ≡ ipv4_upper apps
                  (u8 proto)
                  final
                  (frame + 20)
                  (tot - 20)
                  (received (bytes32 src) (bytes32 dst) op))
            (prepared 20 20 flen mem frame (ipv4_header id ttl proto src dst) >>= λ r.
              finish_ipv4 r.0 frame tot)
    sent flen enough = record {
      result = full_header checksum.result;
      runs = rw (put_header flen enough) finished;
      holds = accepted;
    }

-- Where a frame of bytes in memory has room for the header, and the datagram of `tot` bytes, 20 at
-- least, fits in `len`: prep_ipv4_header fills a header that finish_ipv4 completes, with its length and
-- its checksum, and handle_ipv4_packet accepts what is then in memory. It notes the addresses that the
-- header was prepared with, and hands the `tot - 20` bytes behind the header to the protocol given.
pub prep_ipv4_header-accepted :
    (mem : Memory) (frame flen id src dst proto tot : ℕ) (apps : Applications) (len : ℕ)
    (op : Packet)
    → IsBytes mem
    → 20 ≤ flen
    → frame + flen ≤ length mem
    → 20 ≤ tot
    → tot ≤ len
    → tot < 65536
    → Ends
        (λ (final : Memory).
          handle_ipv4_packet apps final frame len op
          ≡ ipv4_upper apps
              (u8 proto)
              final
              (frame + 20)
              (tot - 20)
              (received (bytes32 src) (bytes32 dst) op))
        (prep_ipv4_header id mem frame flen src dst proto >>= λ r. finish_ipv4 r.0 frame tot)
unfolding prep_ipv4_header
prep_ipv4_header-accepted mem frame flen id src dst proto tot apps len op bytes room inside whole
      fits small =
    sent mem frame id (if dst % 256 / 16 == 14 then 1 else 64) proto src dst tot bytes (omega arith)
      (ground arith) small apps len op whole fits flen room
