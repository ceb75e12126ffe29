-- ===== src/Ip.antt =====
-- src/omphalos/ip.c: the headers of IPv4 and IPv6, with the chain of extension headers, and the
-- protocols that their payloads are handed to; the applications above UDP are parameters.
pub mod V6
pub mod V4
pub mod Underflow
pub mod Prep
use omphalos.Base.{
  ℕ, zero, suc, ◌+◌, ◌-◌, ◌*◌, ◌/◌, ◌%◌, ◌^◌, bit_and, List, [], ◌∷◌, Option, none, some, Bool,
  true, false, not, ◌||◌, ltb, ◌==◌, if◌then◌else◌, u32, Memory, Outcome, done, out_of_fuel, ◌>>=◌,
  load8, load16, load16_net, load_bytes,
}
use omphalos.Csum.{ipv4_csum}
use omphalos.Packet.{
  Packet, Analyzer, is_malformed, has_noproto, Ask, ask, l3host, af_inet, af_inet6, switch,
  overwrite,
}
use omphalos.Headers.{
  handle_tcp_packet, handle_sctp_packet, handle_gre_packet, handle_pim_packet, handle_vrrp_packet,
  handle_ospf_packet, handle_esp_packet, handle_ah_packet, handle_dsr_packet, handle_l2tp_packet,
  handle_igmp_packet, handle_eigrp_packet,
}
use omphalos.Icmp.{handle_icmp_packet, handle_icmp6_packet}
use omphalos.Udp.{Applications, handle_udp_packet}

-- The source and destination of a header, `size` bytes each, with the hosts looked up for them.
pub l3_hosts : ℕ → ℕ → ℕ → ℕ → Memory → Packet → Outcome Packet
l3_hosts fam saddr daddr size mem op = do
  src ← load_bytes mem saddr size
  dst ← load_bytes mem daddr size
  let op = record op {
    l3saddr = overwrite src op.l3saddr;
    l3daddr = overwrite dst op.l3daddr;
    l3s = some src;
    l3d = some dst;
  }
  done (ask (l3host fam op.l2d dst) (ask (l3host fam op.l2s src) op))

module _ (apps : Applications) where
  -- Protocols of both versions, and `others` of one.
  pub upper_level : ℕ → List (ℕ × Analyzer) → Analyzer → Analyzer
  upper_level next others unknown mem nhdr plen op =
      switch next
        ((6, handle_tcp_packet)
          ∷ (17, handle_udp_packet apps)
          ∷ (1, handle_icmp_packet)
          ∷ (132, handle_sctp_packet)
          ∷ (47, handle_gre_packet)
          ∷ (2, handle_igmp_packet)
          ∷ (103, handle_pim_packet)
          ∷ (48, handle_dsr_packet)
          ∷ (112, handle_vrrp_packet)
          ∷ (88, handle_eigrp_packet)
          ∷ (50, handle_esp_packet)
          ∷ (51, handle_ah_packet)
          ∷ others)
        unknown mem nhdr plen op

  -- The loop over the headers behind that of IPv6. A fragment is left alone.
  pub next_headers : ℕ → ℕ → Analyzer
  next_headers zero next mem nhdr plen op = out_of_fuel
  next_headers (suc fuel) next mem nhdr plen op =
      let rest = λ (next oplen : ℕ). next_headers fuel next mem (nhdr + oplen) (plen - oplen) op in
      if next == 0
      then (if ltb plen 2 then is_malformed op else do
        ip6e_len ← load8 mem (nhdr + 1)
        if ltb plen ((ip6e_len + 1) * 8)
            then is_malformed op
            else (do next ← load8 mem nhdr; rest next ((ip6e_len + 1) * 8)))
      else if next == 44
      then (if ltb plen 8 then is_malformed op else done op)
      else upper_level next ((58, handle_icmp6_packet) ∷ []) (λ mem nhdr plen op. has_noproto op)
          mem nhdr plen op

  pub handle_ipv6_packet : Analyzer
  handle_ipv6_packet mem frame len op = if ltb len 40 then is_malformed op else do
    flow ← load8 mem frame
    if not (flow / 16 == 6) then has_noproto op else (do
      plen ← load16_net mem (frame + 4)
      if ltb len (plen + 40) then is_malformed op else (do
        op ← l3_hosts af_inet6 (frame + 8) (frame + 24) 16 mem op
        next ← load8 mem (frame + 6)
        next_headers (plen + 1) next mem (frame + 40) plen op))

  -- What IPv4 hands its payload to.
  pub ipv4_upper : ℕ → Analyzer
  ipv4_upper protocol =
      upper_level protocol
        ((115, handle_l2tp_packet) ∷ (89, handle_ospf_packet) ∷ (41, handle_ipv6_packet) ∷ [])
        (λ mem nhdr nlen op. has_noproto op)

  -- Behind the checks of an IPv4 header of `hlen` bytes in a datagram of `tot_len`: fragments are left
  -- alone, by a test of the word as it is in memory; the payload's length is an `unsigned`, which wraps.
  pub ipv4_payload : ℕ → ℕ → Analyzer
  ipv4_payload hlen tot_len mem frame len op = do
    op ← l3_hosts af_inet (frame + 12) (frame + 16) 4 mem op
    frag_off ← load16 mem (frame + 6)
    if not (bit_and frag_off 0x1f00 == 0) || not (bit_and frag_off 0x2000 == 0)
        then done op
        else (do
          protocol ← load8 mem (frame + 9)
          ipv4_upper protocol mem (frame + hlen) (u32 (tot_len + 2 ^ 32 - hlen)) op)

  -- Behind the checks of the length of the header: its checksum, version and length.
  pub ipv4_checks : ℕ → Analyzer
  ipv4_checks hlen mem frame len op = do
    check ← ipv4_csum mem frame
    if not (check == 0) then is_malformed op else (do
      version ← load8 mem frame
      if not (version / 16 == 4) then has_noproto op else (do
        tot_len ← load16_net mem (frame + 2)
        if ltb len tot_len then is_malformed op else ipv4_payload hlen tot_len mem frame len op))

  pub handle_ipv4_packet : Analyzer
  handle_ipv4_packet mem frame len op = if ltb len 20 then is_malformed op else do
    ihl ← load8 mem frame
    let hlen = ihl % 16 * 4
    if ltb len hlen
        then is_malformed op
        else if hlen == 0
        then is_malformed op
        else ipv4_checks hlen mem frame len op
