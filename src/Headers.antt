-- ===== src/Headers.antt =====
-- The analyzers that look at a header only, src/omphalos/{tcp,sctp,ospf,pim,vrrp,ipsec,gre,mpls,mld,
-- hdlc,ppp,firewire}.c and those of that kind in ip.c, cisco.c and ethernet.c. Sizes are those of the
-- structures, on a machine where an `unsigned` has 4 bytes.
pub mod Safety
use omphalos.Base.{
  ℕ, ◌+◌, ◌-◌, ◌*◌, ◌/◌, ◌%◌, ◌^◌, Bool, true, false, not, ◌||◌, ◌&&◌, ltb, ◌==◌, if◌then◌else◌,
  Memory, Outcome, done, ◌>>=◌, load8, load16,
}
use omphalos.Packet.{Packet, Analyzer, is_malformed, check_header, bit}

-- Options are skipped.
pub handle_tcp_packet : Analyzer
handle_tcp_packet mem frame len op = if ltb len 20 then is_malformed op else do
  src ← load16 mem frame
  dst ← load16 mem (frame + 2)
  let op = record op { l4src = src; l4dst = dst }
  offset ← load8 mem (frame + 12)
  if ltb len (offset / 16) then is_malformed op else done op

pub handle_sctp_packet : Analyzer
handle_sctp_packet mem frame len op = if ltb len 12 then is_malformed op else do
  src ← load16 mem frame
  dst ← load16 mem (frame + 2)
  done (record op { l4src = src; l4dst = dst })

-- The optional words that the flags of the first byte announce.
pub gre_options : ℕ → ℕ
gre_options flags =
    (if bit flags 7 || bit flags 6 then 4 else 0)
    + (if bit flags 5 then 4 else 0)
    + (if bit flags 4 then 4 else 0)

pub handle_gre_packet : Analyzer
handle_gre_packet mem frame len op = if ltb len 4 then is_malformed op else do
  flags ← load8 mem frame
  if ltb len (4 + gre_options flags) then is_malformed op else (do
    version ← load8 mem (frame + 1)
    if not (version % 8 == 0) && not (version % 8 == 1) then is_malformed op else done op)

-- PIM and VRRP count the packet at the interface.
pub count_malformed : ℕ → Analyzer
count_malformed size mem frame len op =
    if ltb len size then done (record op { iface_malformed = op.iface_malformed + 1 }) else done op

abbrev pub handle_pim_packet : Analyzer
handle_pim_packet = count_malformed 4

abbrev pub handle_vrrp_packet : Analyzer
handle_vrrp_packet = count_malformed 12

abbrev pub handle_ospf_packet : Analyzer
handle_ospf_packet = check_header 24

abbrev pub handle_esp_packet : Analyzer
handle_esp_packet = check_header 8

abbrev pub handle_ah_packet : Analyzer
handle_ah_packet = check_header 12

abbrev pub handle_dsr_packet : Analyzer
handle_dsr_packet = check_header 7

abbrev pub handle_l2tp_packet : Analyzer
handle_l2tp_packet = check_header 16

abbrev pub handle_igmp_packet : Analyzer
handle_igmp_packet = check_header 8

abbrev pub handle_eigrp_packet : Analyzer
handle_eigrp_packet = check_header 20

abbrev pub handle_mpls_packet : Analyzer
handle_mpls_packet = check_header 4

abbrev pub handle_mld_packet : Analyzer
handle_mld_packet = check_header 24

abbrev pub handle_hdlc_packet : Analyzer
handle_hdlc_packet = check_header 4

-- handle_ppp_packet, handle_firewire_packet, handle_cld_packet, handle_dtp_packet,
-- handle_l2tun_packet, and of ethernet.c those of Wake-on-LAN, pause, LLDP, ECTP and OSI frames.
abbrev pub ignore_packet : Analyzer
ignore_packet mem frame len op = done op
