-- ===== src/Link.antt =====
-- Analyzers right above the link layer: src/omphalos/{eapol,ipx,stp,irda}.c, those of PPPoE in
-- ethernet.c and of UDLD in cisco.c.
pub mod Safety
pub mod Udld
use omphalos.Base.{
  ℕ, zero, suc, ◌+◌, ◌-◌, ◌*◌, ◌/◌, ◌%◌, List, [], ◌∷◌, Option, none, some, Bool, true, false, not,
  ◌||◌, ◌&&◌, ltb, leb, ◌==◌, if◌then◌else◌, swap16, Memory, Outcome, done, fault, out_of_fuel,
  take, ◌>>=◌, load8, load16, load16_net, load_bytes,
}
use omphalos.Hwaddrs.{lookup_l2host}
use omphalos.Packet.{
  Packet, Analyzer, is_malformed, has_noproto, Ask, ask, local_l3host, proto, af_inet, switch,
}

-- The length and the type of an EAPOL packet.
pub eapol_type : Analyzer
eapol_type mem frame len op = do
  elen ← load16_net mem (frame + 2)
  if ltb (len - 4) elen
      then is_malformed op
      else (do type ← load8 mem (frame + 1); if leb type 4 then done op else has_noproto op)

-- The type is looked at even where the version is unknown.
pub handle_eapol_packet : Analyzer
handle_eapol_packet mem frame len op = if ltb len 4 then is_malformed op else do
  version ← load8 mem frame
  let known = version == 1 || version == 2
  eapol_type mem frame len (if known then op else record op { noproto = true })

-- RIP, SAP, SPX, NCP, broadcasts, and the unknown type 0.
pub ipx_types : List (ℕ × Bool)
ipx_types = (0, true) ∷ (1, true) ∷ (4, true) ∷ (5, true) ∷ (0x11, true) ∷ (0x14, true) ∷ []

-- A packet of odd length is padded to an even one.
pub handle_ipx_packet : Analyzer
handle_ipx_packet mem frame len op = if ltb len 30 then is_malformed op else do
  pktsize ← load16_net mem (frame + 2)
  let ipxlen = if pktsize % 2 == 1 then pktsize + 1 else pktsize
  if ltb len ipxlen then is_malformed op else (do
    type ← load8 mem (frame + 5)
    if switch type ipx_types false then done op else has_noproto op)

-- The length of the PPPoE payload.
pub handle_pppoe_packet : Analyzer
handle_pppoe_packet mem frame len op = if ltb len 6 then is_malformed op else do
  plen ← load16_net mem (frame + 4)
  if ltb (len - 6) plen then is_malformed op else done op

-- The loop over the attributes of a UDLD packet, on fuel.
pub udld_attributes : ℕ → Analyzer
udld_attributes zero mem ua len op = out_of_fuel
udld_attributes (suc fuel) mem ua len op =
    if len == 0 then done op else if ltb len 4 then is_malformed op else do
      alen ← load16_net mem (ua + 2)
      let rest = udld_attributes fuel mem (ua + alen) (len - alen) op
      if ltb len alen then is_malformed op else rest

pub handle_udld_packet : ℕ → Analyzer
handle_udld_packet fuel mem frame len op =
    if ltb len 4 then is_malformed op else udld_attributes fuel mem (frame + 4) (len - 4) op

abbrev pub root_bridge : List ℕ
root_bridge = 0x52 ∷ 0x6f ∷ 0x6f ∷ 0x74 ∷ 0x20 ∷ 0x62 ∷ 0x72 ∷ 0x69 ∷ 0x64 ∷ 0x67 ∷ 0x65 ∷ []

abbrev pub bridge : List ℕ
bridge = 0x42 ∷ 0x72 ∷ 0x69 ∷ 0x64 ∷ 0x67 ∷ 0x65 ∷ []

module _ (iana_lookup : List ℕ → Option (List ℕ)) where
  -- The host with the hardware address at `p`, and the packet with its interface.
  pub l2host_at : Memory → ℕ → Packet → Outcome (ℕ × Packet)
  l2host_at mem p op = do
    hwaddr ← load_bytes mem p op.i.addrlen
    let (l2, i, _) = lookup_l2host iana_lookup op.i hwaddr
    done (l2.hwaddr, record op { i = i })

  -- The addresses of the root bridge and of the sender.
  pub stp_bridges : Analyzer
  stp_bridges mem frame len op = do
    (l2b, op) ← l2host_at mem (frame + 7) op
    let op = ask (proto l2b root_bridge) op
    (l2s, op) ← l2host_at mem (frame + 19) op
    done (ask (proto l2s bridge) op)

  pub handle_stp_packet : Analyzer
  handle_stp_packet mem frame len op = if ltb len 35 then is_malformed op else do
    protocol ← load16 mem frame
    if not (protocol == 0) then has_noproto op else (do
      version ← load8 mem (frame + 2)
      if version == 0
          then stp_bridges mem frame len op
          else if version == 2
          then done op
          else has_noproto op)

  -- lookup_l2host reads as many bytes as the interface's addresses have, here of a word of 4.
  pub irda_host : Memory → ℕ → Packet → Outcome (ℕ × Packet)
  irda_host mem p op = do
    addr ← load_bytes mem p 4
    if ltb 4 op.i.addrlen
        then fault
        else (let (l2, i, _) = lookup_l2host iana_lookup op.i (take op.i.addrlen addr) in
            done (l2.hwaddr, record op { i = i }))

  pub handle_irda_packet : Analyzer
  handle_irda_packet mem frame len op = if ltb len 14 then is_malformed op else do
    (l2s, op) ← irda_host mem (frame + 3) op
    (l2d, op) ← irda_host mem (frame + 7) (record op { l2s = l2s })
    done (record op { l2d = l2d })
