-- ===== src/Ethernet.antt =====
-- src/omphalos/ethernet.c: Ethernet II frames, 802.1q tags, and 802.2 frames with and without SNAP, up to
-- the protocols that the payload is handed to. The applications above UDP and handle_lltd_packet are
-- parameters, and so are the vendors of hardware addresses.
pub mod Safety
pub mod Prep
mod Examples
use omphalos.Base.{
  ℕ, zero, suc, ◌+◌, ◌-◌, ◌*◌, ◌/◌, ◌%◌, ◌^◌, List, [], ◌∷◌, ◌++◌, Option, none, some, Bool, true,
  false, not, ◌||◌, ltb, ◌==◌, if◌then◌else◌, Memory, Outcome, done, out_of_fuel, ◌>>=◌, load8,
  load16_net,
}
use omphalos.Packet.{Packet, Analyzer, is_malformed, has_noproto, switch}
use omphalos.Headers.{handle_mpls_packet, ignore_packet}
use omphalos.Link.{
  handle_eapol_packet, handle_ipx_packet, handle_pppoe_packet, handle_udld_packet,
  handle_stp_packet, l2host_at,
}
use omphalos.Arp.{handle_arp_packet}
use omphalos.Udp.{Applications}
use omphalos.Ip.{handle_ipv4_packet, handle_ipv6_packet}

-- `rounds` bounds the loop of handle_udld_packet.
module _ (apps : Applications) (lltd : Analyzer) (rounds : ℕ)
    (iana_lookup : List ℕ → Option (List ℕ)) where
  -- The protocols that all of Ethernet II, 802.1q and SNAP carry.
  pub ethertypes : List (ℕ × Analyzer)
  ethertypes =
      (0x0800, handle_ipv4_packet apps)
      ∷ (0x0806, handle_arp_packet)
      ∷ (0x86dd, handle_ipv6_packet apps)
      ∷ (0x888e, handle_eapol_packet)
      ∷ (0x8137, handle_ipx_packet)
      ∷ (0x9000, ignore_packet)
      ∷ (0x88cc, ignore_packet)
      ∷ (0x0111, handle_udld_packet rounds)
      ∷ (0x2004, ignore_packet)
      ∷ []

  abbrev pub unknown_ethertype : Analyzer
  unknown_ethertype mem dgram dlen op = has_noproto op

  -- What is behind a tag with no known type: 802.2, where it is allowed.
  pub untyped : Option Analyzer → ℕ → Analyzer
  untyped none proto = unknown_ethertype
  untyped (some llc) proto = if ltb proto 1536 then llc else unknown_ethertype

  -- handle_8021q on fuel: tags may be nested, and `llc` is handle_8022 where `allowllc` is set. The header
  -- is the last 6 bytes of those in front of the payload.
  pub tagged : ℕ → Option Analyzer → Analyzer
  tagged zero llc mem frame len op = out_of_fuel
  tagged (suc fuel) llc mem frame len op =
      let nested : Analyzer = λ mem dgram dlen op. tagged fuel none mem (dgram - 2) (dlen + 2) op in
      if ltb len 6 then is_malformed op else do
        proto ← load16_net mem (frame + 4)
        switch proto ((0x8100, nested) ∷ ethertypes) (untyped llc proto) mem (frame + 6) (len - 6)
            (record op { l3proto = proto })

  pub handle_8021q : Option Analyzer → Analyzer
  handle_8021q llc mem frame len op = tagged (len + 1) llc mem frame len op

  -- Behind the checks of a SNAP header; the tag of 802.1q begins inside it.
  pub snap_payload : Analyzer
  snap_payload mem frame len op =
      let within_header : Analyzer =
        λ mem dgram dlen op. handle_8021q none mem (dgram - 6) (dlen + 6) op in
      do
        proto ← load16_net mem (frame + 6)
        switch proto ((0x8100, within_header) ∷ (0x2000, ignore_packet) ∷ ethertypes)
            unknown_ethertype mem (frame + 8) (len - 8) (record op { l3proto = proto })

  pub handle_snap : Analyzer
  handle_snap mem frame len op = if ltb len 8 then is_malformed op else do
    ssap ← load8 mem (frame + 1)
    ctrl ← load8 mem (frame + 2)
    if not (ssap == 0xaa) || not (ctrl == 3) then is_malformed op else snap_payload mem frame len op

  -- The service access points of 802.2, and how the packet notes their protocols.
  pub access_point : ℕ → Analyzer
  access_point sap mem dgram dlen op =
      switch sap
        ((0x06, handle_ipv4_packet apps mem dgram dlen (record op { l3proto = 0x0800 }))
          ∷ (0x42, handle_stp_packet iana_lookup mem dgram dlen (record op { l3proto = 0x0802 }))
          ∷ (0xfe, done (record op { l3proto = 1 }))
          ∷ (0xe0, handle_ipx_packet mem dgram dlen (record op { l3proto = 0x8137 }))
          ∷ (0, done (record op { l3proto = 0 }))
          ∷ [])
        (has_noproto op)

  -- Where the low bits of the control field are 1 or 0 the field has a second byte.
  pub handle_8022 : Analyzer
  handle_8022 mem frame len op = if ltb len 3 then is_malformed op else do
    sap ← load8 mem frame
    if sap == 0xaa then handle_snap mem frame len op else (do
      ctrl ← load8 mem (frame + 2)
      if (ctrl % 4 == 1) || (ctrl % 4 == 0)
          then (if len - 3 == 0
              then is_malformed op
              else access_point sap mem (frame + 4) (len - 4) op)
          else access_point sap mem (frame + 3) (len - 3) op)

  -- Lengths of 802.2 are below 1536. `pcap_ethproto` is set behind the analysis.
  pub llc_or_unknown : ℕ → Analyzer
  llc_or_unknown proto mem dgram dlen op =
      if ltb proto 1536
      then (do op ← handle_8022 mem dgram dlen op; done (record op { pcap_ethproto = 4 }))
      else has_noproto op

  pub handle_ethernet_packet : Analyzer
  handle_ethernet_packet mem frame len op =
      let second_tag : Analyzer =
        λ mem dgram dlen op. handle_8021q (some handle_8022) mem (dgram - 2) (dlen + 2) op in
      if ltb len 14 then is_malformed op else do
        (l2s, op) ← l2host_at iana_lookup mem (frame + 6) op
        (l2d, op) ← l2host_at iana_lookup mem frame (record op { l2s = l2s })
        proto ← load16_net mem (frame + 12)
        switch proto
            ((0x8100, second_tag)
              ∷ (0x88d9, lltd)
              ∷ (0x8863, handle_pppoe_packet)
              ∷ (0x8864, handle_pppoe_packet)
              ∷ (0x8847, handle_mpls_packet)
              ∷ (0x8808, ignore_packet)
              ∷ (0x0842, ignore_packet)
              ∷ (0x6000, ignore_packet)
              ∷ (0x6001, ignore_packet)
              ∷ (0x6002, ignore_packet)
              ∷ (0x6003, ignore_packet)
              ∷ (0x6004, ignore_packet)
              ∷ (0x6005, ignore_packet)
              ∷ (0x6006, ignore_packet)
              ∷ (0x6007, ignore_packet)
              ∷ (0x893a, ignore_packet)
              ∷ ethertypes)
            (llc_or_unknown proto) mem (frame + 14) (len - 14)
            (record op { l2d = l2d; l3proto = proto; pcap_ethproto = proto })
