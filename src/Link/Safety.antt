-- ===== src/Link/Safety.antt =====
-- The analyzers above the link layer end, read nothing outside the frame, and keep the packet valid.
use omphalos.Base.{
  ℕ, ◌+◌, ◌-◌, ◌%◌, ◌≤◌, ◌≡◌, arith, Memory, length, ltb, leb, ◌==◌, not, ◌||◌, false, true, Bool,
  List, Option, IsBytes, if◌then◌else◌,
}
use omphalos.Base.Ends.{
  Ends, Ends-done, Ends-if, Ends-bind, Ends-load8, Ends-load16, Ends-load16_net, Ends-load_bytes,
}
use omphalos.Hwaddrs.Hosts.{Distinct, lookup_l2host-Distinct, lookup_l2host-addrlen}
use omphalos.Packet.{Packet, IsValid, switch}
use omphalos.Link.{
  handle_eapol_packet, eapol_type, handle_ipx_packet, ipx_types, handle_pppoe_packet, l2host_at,
  stp_bridges, handle_stp_packet,
}

module _ (mem : Memory) (frame len : ℕ) (op : Packet) (bytes : IsBytes mem)
    (inside : frame + len ≤ length mem) (valid : IsValid op) where
  eapol_type-Ends :
      (ltb len 4 ≡ false)
      → (op' : Packet) → IsValid op'
      → Ends IsValid (eapol_type mem frame len op')
  unfolding eapol_type
  eapol_type-Ends long op' v = Ends-load16_net mem (frame + 2) (ground arith) (λ elen _.
      Ends-if (ltb (len - 4) elen) (λ _. Ends-done v)
        (λ _.
          Ends-load8 mem (frame + 1) (ground arith)
            (λ type _. Ends-if (leb type 4) (λ _. Ends-done v) (λ _. Ends-done v))))

  kept : (b : Bool) → IsValid (if b then op else record op { noproto = true })
  kept true = valid
  kept false = valid

  pub handle_eapol_packet-Ends : Ends IsValid (handle_eapol_packet mem frame len op)
  unfolding handle_eapol_packet
  handle_eapol_packet-Ends =
      Ends-if (ltb len 4) (λ _. Ends-done valid)
        (λ long.
          Ends-load8 mem frame (ground arith)
            (λ version _. eapol_type-Ends long _ (kept (version == 1 || version == 2))))

  pub handle_ipx_packet-Ends : Ends IsValid (handle_ipx_packet mem frame len op)
  unfolding handle_ipx_packet
  handle_ipx_packet-Ends =
      Ends-if (ltb len 30) (λ _. Ends-done valid)
        (λ long. Ends-load16_net mem (frame + 2) (ground arith) (λ pktsize _.
          Ends-if (ltb len (if pktsize % 2 == 1 then pktsize + 1 else pktsize))
            (λ _. Ends-done valid)
            (λ _. Ends-load8 mem (frame + 5) (ground arith) (λ type _.
              Ends-if (switch type ipx_types false) (λ _. Ends-done valid)
                (λ _. Ends-done valid)))))

  pub handle_pppoe_packet-Ends : Ends IsValid (handle_pppoe_packet mem frame len op)
  unfolding handle_pppoe_packet
  handle_pppoe_packet-Ends =
      Ends-if (ltb len 6) (λ _. Ends-done valid)
        (λ long.
          Ends-load16_net mem (frame + 4) (ground arith)
            (λ plen _. Ends-if (ltb (len - 6) plen) (λ _. Ends-done valid) (λ _. Ends-done valid)))

-- What the analyzers of radiotap.c keep of the interface: hardware addresses have 6 bytes at most, and no two
-- hosts have the same.
abbrev pub IsWireless : Packet → Type 0
IsWireless op = (op.i.addrlen ≤ 6) × Distinct op.i.l2hosts

module _ (iana_lookup : List ℕ → Option (List ℕ)) where
  pub l2host_at-Ends :
      (mem : Memory) (p : ℕ) (op : Packet)
      → IsValid op
      → p + op.i.addrlen ≤ length mem
      → Ends (λ (r : ℕ × Packet). IsValid r.1) (l2host_at iana_lookup mem p op)
  unfolding l2host_at
  l2host_at-Ends mem p op v inside = Ends-load_bytes mem p op.i.addrlen inside (λ hwaddr _.
      Ends-done (
        omega (arith, lookup_l2host-addrlen iana_lookup op.i hwaddr v.1),
        (lookup_l2host-Distinct iana_lookup op.i hwaddr v.1).0,
        v.2,
      ))

  pub l2host_at-IsWireless :
      (mem : Memory) (p : ℕ) (op : Packet)
      → IsWireless op
      → p + 6 ≤ length mem
      → Ends (λ (r : ℕ × Packet). IsWireless r.1) (l2host_at iana_lookup mem p op)
  unfolding l2host_at
  l2host_at-IsWireless mem p op v inside =
      Ends-load_bytes mem p op.i.addrlen (omega (arith, v.0)) (λ hwaddr _. Ends-done (
        omega (arith, lookup_l2host-addrlen iana_lookup op.i hwaddr v.1, v.0),
        (lookup_l2host-Distinct iana_lookup op.i hwaddr v.1).0,
      ))

  module _ (mem : Memory) (frame len : ℕ) (op : Packet) (bytes : IsBytes mem)
      (inside : frame + len ≤ length mem) (valid : IsValid op) where
    stp_bridges-Ends : 35 ≤ len → Ends IsValid (stp_bridges iana_lookup mem frame len op)
    unfolding stp_bridges
    stp_bridges-Ends long =
        Ends-bind (l2host_at-Ends mem (frame + 7) op valid (omega arith)) (λ root v.
          Ends-bind (l2host_at-Ends mem (frame + 19) _ (v.0, v.1, (tt, v.2)) (omega arith))
            (λ sender w. Ends-done (w.0, w.1, (tt, w.2))))

    pub handle_stp_packet-Ends : Ends IsValid (handle_stp_packet iana_lookup mem frame len op)
    unfolding handle_stp_packet
    handle_stp_packet-Ends =
        Ends-if (ltb len 35) (λ _. Ends-done valid)
          (λ long. Ends-load16 mem frame (ground arith) (λ protocol _.
            Ends-if (not (protocol == 0)) (λ _. Ends-done valid)
              (λ _. Ends-load8 mem (frame + 2) (ground arith) (λ version _.
                Ends-if (version == 0) (λ _. stp_bridges-Ends (ground arith))
                  (λ _. Ends-if (version == 2) (λ _. Ends-done valid) (λ _. Ends-done valid))))))
