-- ===== src/Icmp.antt =====
-- src/omphalos/icmp.c: messages of ICMP, and those of ICMPv6, which are handed to neighbour discovery.
pub mod Safety
use omphalos.Base.{
  ℕ, ◌+◌, ◌-◌, List, [], ◌∷◌, Bool, true, false, ltb, ◌==◌, if◌then◌else◌, Memory, Outcome, done,
  ◌>>=◌, load8,
}
use omphalos.Packet.{Packet, Analyzer, is_malformed, has_noproto, switch}
use omphalos.Headers.{handle_mld_packet}
use omphalos.Nd.{
  handle_nd_routersol, handle_nd_routerad, handle_nd_neighsol, handle_nd_neighad,
  handle_nd_redirect,
}

pub icmp_types : List (ℕ × Bool)
icmp_types =
    (0, true)
    ∷ (3, true)
    ∷ (4, true)
    ∷ (5, true)
    ∷ (6, true)
    ∷ (8, true)
    ∷ (9, true)
    ∷ (10, true)
    ∷ (11, true)
    ∷ (12, true)
    ∷ (13, true)
    ∷ (14, true)
    ∷ (15, true)
    ∷ (16, true)
    ∷ (17, true)
    ∷ (18, true)
    ∷ []

pub handle_icmp_packet : Analyzer
handle_icmp_packet mem frame len op =
    if ltb len 8
    then is_malformed op
    else do type ← load8 mem frame; if switch type icmp_types false then done op else has_noproto op

-- The message behind the type, the code and the checksum.
pub icmp6_message : ℕ → Analyzer
icmp6_message type mem frame len op =
    switch type
      ((1, done op)
        ∷ (2, done op)
        ∷ (3, done op)
        ∷ (4, done op)
        ∷ (128, done op)
        ∷ (129, done op)
        ∷ (130, done op)
        ∷ (131, done op)
        ∷ (132, done op)
        ∷ (133, handle_nd_routersol mem frame len op)
        ∷ (134, handle_nd_routerad mem frame len op)
        ∷ (135, handle_nd_neighsol mem frame len op)
        ∷ (136, handle_nd_neighad mem frame len op)
        ∷ (137, handle_nd_redirect mem frame len op)
        ∷ (143, handle_mld_packet mem frame len op)
        ∷ [])
      (has_noproto op)

pub handle_icmp6_packet : Analyzer
handle_icmp6_packet mem frame len op =
    if ltb len 8
    then is_malformed op
    else do type ← load8 mem frame; icmp6_message type mem (frame + 4) (len - 4) op
