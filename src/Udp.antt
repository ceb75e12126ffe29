-- ===== src/Udp.antt =====
-- src/omphalos/udp.c: which application a UDP datagram is handed to, by its ports, and the headers of
-- datagrams that are sent. The applications are parameters: analyzers of src/omphalos/{mdns,dns,ssdp,
-- netbios,dhcp}.c, of which some return a verdict, an `int`.
pub mod Ports
pub mod Apps
use omphalos.Base.{
  ℕ, ◌+◌, ◌-◌, ◌*◌, ◌/◌, ◌%◌, ◌^◌, List, [], ◌∷◌, Option, none, some, Bool, true, false, not, ◌||◌,
  ◌&&◌, ltb, ◌==◌, if◌then◌else◌, u16, swap16, Memory, Outcome, done, ◌>>=◌, load16,
}
use omphalos.Packet.{Packet, Analyzer, is_malformed, Ask, ask, service, switch}

-- An analyzer that returns a verdict with the packet.
abbrev pub Judge : Type 0
Judge = Memory → ℕ → ℕ → Packet → Outcome (Packet × ℕ)

pub record Applications : Type 0 where
  pub natpmp : Analyzer
  pub mdns : Analyzer
  pub dns : Judge
  pub ssdp : Judge
  pub netbios_ns : Judge
  pub dhcp : Judge
  pub dhcp6 : Judge

-- The sender serves the port that it sent from.
abbrev pub observed : List ℕ → Packet → Packet
observed name op = ask (service op.l2s op.l3s op.l3proto op.l4src name) op

-- The verdict says that the datagram comes from a server.
pub serves : (ℕ → Bool) → List ℕ → Judge → Analyzer
serves is_server name judge mem body len op = do
  (op, verdict) ← judge mem body len op
  if is_server verdict then done (observed name op) else done op

abbrev pub is_one : ℕ → Bool
is_one v = v == 1

abbrev pub is_nonzero : ℕ → Bool
is_nonzero v = not (v == 0)

abbrev pub dns_name : List ℕ
dns_name = 0x44 ∷ 0x4e ∷ 0x53 ∷ []

abbrev pub upnp_name : List ℕ
upnp_name = 0x55 ∷ 0x50 ∷ 0x6e ∷ 0x50 ∷ []

abbrev pub dhcp_name : List ℕ
dhcp_name = 0x44 ∷ 0x48 ∷ 0x43 ∷ 0x50 ∷ []

abbrev pub dhcp6_name : List ℕ
dhcp6_name = 0x44 ∷ 0x48 ∷ 0x43 ∷ 0x50 ∷ 0x76 ∷ 0x36 ∷ []

module _ (apps : Applications) where
  -- The `switch` on the source port; ports are in network order.
  pub application : ℕ → ℕ → Analyzer
  application source dest mem body ulen op =
      switch source
        ((swap16 53, serves is_one dns_name apps.dns mem body ulen op)
          ∷ (swap16 1900, serves is_one upnp_name apps.ssdp mem body ulen op)
          ∷ (
            swap16 5353,
            (if (dest == swap16 5350) || (dest == swap16 5351)
                then apps.natpmp mem body ulen op
                else apps.mdns mem body ulen op),
          )
          ∷ (
            swap16 137,
            (if dest == swap16 137
                then (do (op, _) ← apps.netbios_ns mem body ulen op; done op)
                else done op),
          )
          ∷ (
            swap16 67,
            (if dest == swap16 68
                then serves is_nonzero dhcp_name apps.dhcp mem body ulen op
                else done op),
          )
          ∷ (
            swap16 547,
            (if dest == swap16 546
                then serves is_nonzero dhcp6_name apps.dhcp6 mem body ulen op
                else done op),
          )
          ∷ [])
        (done op)

  -- The length of the body is kept in 16 bits.
  pub handle_udp_packet : Analyzer
  handle_udp_packet mem frame len op = if ltb len 8 then is_malformed op else do
    source ← load16 mem frame
    dest ← load16 mem (frame + 2)
    let body = frame + 8
    let ulen = u16 (len - 8)
    let op = record op { l4src = source; l4dst = dest }
    if (source == swap16 5350) && (dest == swap16 5350)
        then apps.natpmp mem body ulen op
        else if (source == swap16 5351) && (dest == swap16 5351)
        then apps.natpmp mem body ulen op
        else application source dest mem body ulen op
