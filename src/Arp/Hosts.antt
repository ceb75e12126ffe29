-- ===== src/Arp/Hosts.antt =====
-- handle_arp_packet ends, and what it asks for.
use omphalos.Base.{ℕ, ◌+◌, ◌*◌, ◌≤◌, arith, Memory, length, ltb, ◌==◌, not, swap16}
use omphalos.Base.Ends.{
  Ends, Ends-done, Ends-if, Ends-bind, Ends-load8, Ends-load16, Ends-load_bytes,
}
use omphalos.Hwaddrs.{l2categorize}
use omphalos.Packet.{Packet, IsValid, is_probe}
use omphalos.Arp.{is_one_host, arp_source, arp_target, arp_hosts, handle_arp_packet}

module _ (mem : Memory) (frame len hln : ℕ) (inside : frame + len ≤ length mem)
    (long : 8 + hln * 2 + 8 ≤ len) where
  arp_source-Ends : (op : Packet) → IsValid op → Ends IsValid (arp_source hln mem frame len op)
  unfolding arp_source
  arp_source-Ends op valid = Ends-load_bytes mem (frame + 8 + hln) 4 (omega arith) (λ saddr _.
      Ends-if (is_probe saddr) (λ _. Ends-done valid)
        (λ host. Ends-done (valid.0, valid.1, (host, valid.2))))

  arp_target-Ends : (op : Packet) → IsValid op → Ends IsValid (arp_target hln mem frame len op)
  unfolding arp_target
  arp_target-Ends op valid =
      Ends-if (is_one_host (l2categorize op.i op.l2d))
        (λ _. Ends-load_bytes mem (frame + 8 + hln * 2 + 4) 4 (omega arith) (λ daddr _.
          Ends-if (is_probe daddr) (λ _. Ends-done valid)
            (λ host. Ends-done (valid.0, valid.1, (host, valid.2)))))
        (λ _. Ends-done valid)

  arp_hosts-Ends : (op : Packet) → IsValid op → Ends IsValid (arp_hosts hln mem frame len op)
  unfolding arp_hosts
  arp_hosts-Ends op valid = Ends-bind (arp_source-Ends op valid) (λ op' valid'.
      Ends-load16 mem (frame + 6) (omega arith) (λ ar_op _.
        Ends-if (ar_op == swap16 1) (λ _. Ends-done valid')
          (λ _.
            Ends-if (ar_op == swap16 2) (λ _. arp_target-Ends op' valid') (λ _. Ends-done valid'))))

-- On any frame in memory handle_arp_packet ends, reads nothing outside the frame, and keeps the
-- packet valid: in particular no address of zero bytes, which probes have, is linked to a hardware
-- address.
pub handle_arp_packet-IsValid :
    (mem : Memory) (frame len : ℕ) (op : Packet)
    → frame + len ≤ length mem
    → IsValid op
    → Ends IsValid (handle_arp_packet mem frame len op)
unfolding handle_arp_packet
handle_arp_packet-IsValid mem frame len op inside valid =
    Ends-if (ltb len 8) (λ _. Ends-done valid)
      (λ header. Ends-load8 mem (frame + 4) (ground arith) (λ hln _.
        Ends-load8 mem (frame + 5) (ground arith) (λ pln _.
          Ends-if (ltb len (8 + hln * 2 + pln * 2)) (λ _. Ends-done valid)
            (λ long.
              Ends-if (not (op.i.addrlen == hln)) (λ _. Ends-done valid)
                (λ _. Ends-load16 mem (frame + 2) (ground arith) (λ pro _.
                  Ends-if (pro == swap16 0x0800)
                    (λ _.
                      Ends-if (pln == 4)
                        (λ four. arp_hosts-Ends mem frame len hln inside (ground arith) op valid)
                        (λ _. Ends-done valid))
                    (λ _. Ends-done valid)))))))
