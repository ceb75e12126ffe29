-- ===== src/Udp/Apps.antt =====
-- The applications above UDP: handle_natpmp_packet and handle_mdns_packet of src/omphalos/mdns.c,
-- handle_ssdp_packet of ssdp.c, and the handlers of dhcp.c, which do nothing; handle_dns_packet of
-- dns.c is a parameter.
pub mod Within
use omphalos.Base.{
  ℕ, ◌+◌, ◌-◌, ◌^◌, List, [], ◌∷◌, Bool, true, false, not, ◌&&◌, ltb, ◌==◌, if◌then◌else◌, Memory,
  Outcome, done, ◌>>=◌, load8, load_bytes,
}
use omphalos.Packet.{Packet, Analyzer, is_malformed, has_noproto, switch}
use omphalos.Netbios.{handle_netbios_ns_packet}
use omphalos.Udp.{Applications, Judge, serves, is_one}

pub exact_length : ℕ → ℕ → Packet → Outcome Packet
exact_length wanted plen op = if plen == wanted then done op else is_malformed op

-- The payload of a NAT-PMP message has one length for each operation.
pub natpmp_payload : ℕ → ℕ → Packet → Outcome Packet
natpmp_payload operation plen op =
    switch operation
      ((0, exact_length 0 plen op)
        ∷ (1, exact_length 10 plen op)
        ∷ (2, exact_length 10 plen op)
        ∷ (128, exact_length 10 plen op)
        ∷ (129, exact_length 14 plen op)
        ∷ (130, exact_length 14 plen op)
        ∷ [])
      (done op)

pub handle_natpmp_packet : Analyzer
handle_natpmp_packet mem frame len op = if ltb len 2 then is_malformed op else do
  ver ← load8 mem frame
  if not (ver == 0)
      then has_noproto op
      else (do operation ← load8 mem (frame + 1); natpmp_payload operation (len - 2) op)

abbrev pub same_bytes : List ℕ → List ℕ → Bool
same_bytes [] [] = true
same_bytes (x ∷ xs) (y ∷ ys) = (x == y) && same_bytes xs ys
same_bytes _ _ = false

abbrev pub notify : List ℕ
notify = 0x4e ∷ 0x4f ∷ 0x54 ∷ 0x49 ∷ 0x46 ∷ 0x59 ∷ 0x20 ∷ []

abbrev pub search_method : List ℕ
search_method = 0x53 ∷ 0x45 ∷ 0x41 ∷ 0x52 ∷ 0x43 ∷ 0x48 ∷ 0x20 ∷ []

-- -1 is `2 ^ 32 - 1`. Neither method has a NUL, so `strncmp` compares all 7 bytes.
pub handle_ssdp_packet : Judge
handle_ssdp_packet mem frame len op =
    if ltb len 7 then done (record op { malformed = true }, 0) else do
      method ← load_bytes mem frame 7
      if same_bytes method notify
          then done (op, 1)
          else if same_bytes method search_method
          then done (op, 2 ^ 32 - 1)
          else done (op, 0)

pub handle_dhcp_packet : Judge
handle_dhcp_packet mem frame fsize op = done (op, 1)

pub handle_dhcp6_packet : Judge
handle_dhcp6_packet mem frame fsize op = done (op, 1)

abbrev pub mdns_name : List ℕ
mdns_name = 0x6d ∷ 0x44 ∷ 0x4e ∷ 0x53 ∷ []

module _ (handle_dns_packet : Judge) where
  pub handle_mdns_packet : Analyzer
  handle_mdns_packet = serves is_one mdns_name handle_dns_packet

  abbrev pub applications : Applications
  applications = record {
    natpmp = handle_natpmp_packet;
    mdns = handle_mdns_packet;
    dns = handle_dns_packet;
    ssdp = handle_ssdp_packet;
    netbios_ns = handle_netbios_ns_packet;
    dhcp = handle_dhcp_packet;
    dhcp6 = handle_dhcp6_packet;
  }
