-- ===== src/Arp.antt =====
-- handle_arp_packet of src/omphalos/arp.c.
pub mod Hosts
use omphalos.Base.{
  ℕ, ◌+◌, ◌-◌, ◌*◌, ◌/◌, ◌%◌, List, [], ◌∷◌, some, Bool, true, false, not, ◌||◌, ltb, ◌==◌,
  if◌then◌else◌, swap16, Memory, Outcome, done, ◌>>=◌, load8, load16, load_bytes,
}
use omphalos.Hwaddrs.{Interface, Rtn, l2categorize}
use omphalos.Packet.{
  Packet, Analyzer, is_malformed, has_noproto, Ask, ask, local_l3host, af_inet, is_probe,
}

-- The sender, unless the packet is a probe.
pub arp_source : ℕ → Analyzer
arp_source hln mem frame len op = do
  saddr ← load_bytes mem (frame + 8 + hln) 4
  if is_probe saddr
      then done op
      else done (ask (local_l3host af_inet op.l2s saddr) (record op { l3s = some saddr }))

-- An address of one host, and not of many.
pub is_one_host : Rtn → Bool
is_one_host Rtn.unicast = true
is_one_host Rtn.local = true
is_one_host _ = false

-- The target of a reply, if the frame is sent to one host.
pub arp_target : ℕ → Analyzer
arp_target hln mem frame len op =
    if is_one_host (l2categorize op.i op.l2d)
    then (do
      daddr ← load_bytes mem (frame + 8 + hln * 2 + 4) 4
      if is_probe daddr
          then done op
          else done (ask (local_l3host af_inet op.l2d daddr) (record op { l3d = some daddr })))
    else done op

-- Behind the checks of the header: the sender, and the target of a reply.
pub arp_hosts : ℕ → Analyzer
arp_hosts hln mem frame len op = do
  op ← arp_source hln mem frame len op
  ar_op ← load16 mem (frame + 6)
  if ar_op == swap16 1
      then done op
      else if ar_op == swap16 2
      then arp_target hln mem frame len op
      else has_noproto op

pub handle_arp_packet : Analyzer
handle_arp_packet mem frame len op = if ltb len 8 then is_malformed op else do
  hln ← load8 mem (frame + 4)
  pln ← load8 mem (frame + 5)
  if ltb len (8 + hln * 2 + pln * 2)
      then is_malformed op
      else if not (op.i.addrlen == hln)
      then is_malformed op
      else (do
        pro ← load16 mem (frame + 2)
        if pro == swap16 0x0800
            then (if pln == 4 then arp_hosts hln mem frame len op else is_malformed op)
            else has_noproto op)
