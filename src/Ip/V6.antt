-- ===== src/Ip/V6.antt =====
-- IPv6: the chain of headers ends, and everything is handed on within the bounds of the frame.
use omphalos.Base.{
  ℕ, zero, suc, ◌+◌, ◌-◌, ◌*◌, ◌/◌, ◌≤◌, ◌<◌, arith, List, false, not, ltb, ◌==◌, Memory, length,
  IsBytes,
}
use omphalos.Base.Ends.{
  Ends, Ends-done, Ends-load_bytes, Stops, Stops-done, Stops-if, Stops-bind, Stops-load8,
  Stops-load16_net, ends,
}
use omphalos.Packet.{Packet, Analyzer, IsValid, has_noproto, af_inet6, check_header}
use omphalos.Headers.{handle_tcp_packet, handle_sctp_packet, handle_gre_packet, count_malformed}
use omphalos.Headers.Safety.{
  check_header-Ends, count_malformed-Ends, handle_tcp_packet-Ends, handle_sctp_packet-Ends,
  handle_gre_packet-Ends,
}
use omphalos.Icmp.{handle_icmp_packet, handle_icmp6_packet}
use omphalos.Icmp.Safety.{handle_icmp_packet-Ends, handle_icmp6_packet-Stops}
use omphalos.Udp.{Applications}
use omphalos.Packet.Within.{StopsWithin, EachWithin, switch-StopsWithin, StopsWithin-Ends}
use omphalos.Udp.Ports.{AllWithin, handle_udp_packet-StopsWithin}
use omphalos.Ip.{l3_hosts, upper_level, next_headers, handle_ipv6_packet}

pub l3_hosts-Ends :
    (fam saddr daddr size : ℕ) (mem : Memory) (op : Packet)
    → saddr + size ≤ length mem
    → daddr + size ≤ length mem
    → IsValid op
    → Ends IsValid (l3_hosts fam saddr daddr size mem op)
unfolding l3_hosts
l3_hosts-Ends fam saddr daddr size mem op s d valid = Ends-load_bytes mem saddr size s (λ src _.
    Ends-load_bytes mem daddr size d (λ dst _. Ends-done (valid.0, valid.1, (tt, (tt, valid.2)))))

module _ (mem : Memory) (lo hi : ℕ) (apps : Applications) (inside : hi ≤ length mem)
    (bytes : IsBytes mem) (within : AllWithin false mem lo hi apps) where
  pub checked : (size : ℕ) → StopsWithin false mem lo hi (check_header size)
  checked size =
      StopsWithin-Ends false mem lo hi (check_header size) inside bytes
        (λ f l o b i v. check_header-Ends mem f l o b i v size)

  pub counted : (size : ℕ) → StopsWithin false mem lo hi (count_malformed size)
  counted size =
      StopsWithin-Ends false mem lo hi (count_malformed size) inside bytes
        (λ f l o b i v. count_malformed-Ends mem f l o b i v size)

  pub upper_level-StopsWithin :
      (next : ℕ) (others : List (ℕ × Analyzer)) (unknown : Analyzer)
      → EachWithin false mem lo hi others
      → StopsWithin false mem lo hi unknown
      → StopsWithin false mem lo hi (upper_level apps next others unknown)
  unfolding upper_level
  upper_level-StopsWithin next others unknown each u =
      let tcp =
        StopsWithin-Ends false mem lo hi handle_tcp_packet inside bytes
          (handle_tcp_packet-Ends mem) in
      let udp = handle_udp_packet-StopsWithin false mem lo hi apps inside within in
      let icmp =
        StopsWithin-Ends false mem lo hi handle_icmp_packet inside bytes
          (handle_icmp_packet-Ends mem) in
      let sctp =
        StopsWithin-Ends false mem lo hi handle_sctp_packet inside bytes
          (handle_sctp_packet-Ends mem) in
      let gre =
        StopsWithin-Ends false mem lo hi handle_gre_packet inside bytes
          (handle_gre_packet-Ends mem) in
      switch-StopsWithin false mem lo hi next _ unknown
        (
          tcp,
          (
            udp,
            (
              icmp,
              (
                sctp,
                (
                  gre,
                  (
                    checked 8,
                    (
                      counted 4,
                      (checked 7, (counted 12, (checked 20, (checked 8, (checked 12, each))))),
                    ),
                  ),
                ),
              ),
            ),
          ),
        )
        u

  pub has_noproto-StopsWithin : StopsWithin false mem lo hi (λ mem frame len op. has_noproto op)
  has_noproto-StopsWithin frame len op above below valid = Stops-done valid

  icmp6-StopsWithin : StopsWithin false mem lo hi handle_icmp6_packet
  icmp6-StopsWithin frame len op above below valid =
      handle_icmp6_packet-Stops mem frame len op bytes (omega arith) valid

  next_headers-Stops :
      (fuel next frame len : ℕ) (op : Packet)
      → len < fuel
      → lo ≤ frame
      → frame + len ≤ hi
      → IsValid op
      → Stops false IsValid (next_headers apps fuel next mem frame len op)
  unfolding next_headers
  next_headers-Stops zero next frame len op enough above below valid = absurd (omega arith)
  next_headers-Stops (suc fuel) next frame len op enough above below valid =
      Stops-if (next == 0)
        (λ _.
          Stops-if (ltb len 2) (λ _. Stops-done valid)
            (λ two. Stops-load8 mem (frame + 1) (ground arith) (λ oplen _.
              Stops-if (ltb len ((oplen + 1) * 8)) (λ _. Stops-done valid)
                (λ fits. Stops-load8 mem frame (ground arith) (λ next _.
                  next_headers-Stops fuel next (frame + (oplen + 1) * 8) (len - (oplen + 1) * 8) op
                    (ground arith) (omega arith) (ground arith) valid)))))
        (λ _.
          Stops-if (next == 44)
            (λ _. Stops-if (ltb len 8) (λ _. Stops-done valid) (λ _. Stops-done valid))
            (λ _.
              upper_level-StopsWithin next _ _ (icmp6-StopsWithin, tt) has_noproto-StopsWithin frame
                len op above below valid))

-- The loop over the extension headers ends, and what it hands on lies within the slice.
pub handle_ipv6_packet-StopsWithin :
    (mem : Memory) (lo hi : ℕ) (apps : Applications)
    → hi ≤ length mem
    → IsBytes mem
    → AllWithin false mem lo hi apps
    → StopsWithin false mem lo hi (handle_ipv6_packet apps)
unfolding handle_ipv6_packet
handle_ipv6_packet-StopsWithin mem lo hi apps inside bytes within frame len op above below valid =
    Stops-if (ltb len 40) (λ _. Stops-done valid)
      (λ header. Stops-load8 mem frame (ground arith) (λ flow _.
        Stops-if (not (flow / 16 == 6)) (λ _. Stops-done valid)
          (λ _. Stops-load16_net mem (frame + 4) (ground arith) (λ plen _.
            Stops-if (ltb len (plen + 40)) (λ _. Stops-done valid)
              (λ fits.
                Stops-bind
                  (ends (
                    l3_hosts-Ends af_inet6 (frame + 8) (frame + 24) 16 mem op (ground arith)
                      (ground arith) valid))
                  (λ op' v. Stops-load8 mem (frame + 6) (ground arith) (λ next _.
                    next_headers-Stops mem lo hi apps inside bytes within (plen + 1) next
                      (frame + 40) plen op' (omega arith) (omega arith) (ground arith) v)))))))
