-- ===== src/Ip/Underflow.antt =====
-- IPv4: a datagram that is shorter than its header.
use omphalos.Base.{
  ℕ, ◌+◌, ◌-◌, ◌*◌, ◌/◌, ◌%◌, ◌^◌, ◌≤◌, ◌<◌, ◌≡◌, arith, true, false, ltb, ◌==◌, bit_and, Memory,
  length, done, fault, byte_at, word_at, net_word_at, load8-done, load16-done, load16_net-done,
  load_bytes-done,
}
use omphalos.Csum.{ipv4_csum}
use omphalos.Packet.{Packet, switch}
use omphalos.Headers.Safety.{handle_tcp_packet_fault}
use omphalos.Udp.{Applications}
use omphalos.Ip.{l3_hosts, upper_level, ipv4_payload, ipv4_upper, ipv4_checks, handle_ipv4_packet}

-- A frame of TCP over IPv4 that is no fragment, has a correct checksum and a `tot_len` below the length
-- of its header makes handle_ipv4_packet read outside the memory, where the header ends the memory:
-- the length of the payload wraps around, and handle_tcp_packet takes it for long enough.
pub handle_ipv4_packet-underflow :
    (mem : Memory) (apps : Applications) (frame len : ℕ) (op : Packet)
    → 20 ≤ len
    → frame + len ≡ length mem
    → byte_at mem frame / 16 ≡ 4
    → byte_at mem frame % 16 * 4 ≡ len
    → net_word_at mem (frame + 2) < len
    → bit_and (word_at mem (frame + 6)) 0x1f00 ≡ 0
    → bit_and (word_at mem (frame + 6)) 0x2000 ≡ 0
    → byte_at mem (frame + 9) ≡ 6
    → ipv4_csum mem frame ≡ done 0
    → handle_ipv4_packet apps mem frame len op ≡ fault
unfolding handle_ipv4_packet ipv4_checks ipv4_payload ipv4_upper l3_hosts upper_level switch
handle_ipv4_packet-underflow mem apps frame len op long ended version header short offset more tcp
      csum =
    let wrapped : ℕ = (net_word_at mem (frame + 2) + 2 ^ 32 - len) % 2 ^ 32 in
    let enough : 20 ≤ wrapped = omega arith in
    let long_enough : ltb len 20 ≡ false = ground arith in
    let fits : ltb len len ≡ false = ground arith in
    let some_header : (len == 0) ≡ false = ground arith in
    let is_four : (byte_at mem frame / 16 == 4) ≡ true = ground arith in
    let total_fits : ltb len (net_word_at mem (frame + 2)) ≡ false = ground arith in
    rw
      (
        load8-done mem frame (omega arith),
        header,
        csum,
        long_enough,
        fits,
        some_header,
        is_four,
        load16_net-done mem (frame + 2) (omega arith),
        load_bytes-done mem (frame + 12) 4 (omega arith),
        load_bytes-done mem (frame + 16) 4 (omega arith),
        load16-done mem (frame + 6) (omega arith),
        offset,
        more,
        load8-done mem (frame + 9) (omega arith),
        tcp,
        total_fits,
      )
      (handle_tcp_packet_fault mem (frame + len) wrapped _ (omega arith) enough)
