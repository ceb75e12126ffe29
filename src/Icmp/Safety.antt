-- ===== src/Icmp/Safety.antt =====
-- Messages of ICMP are read within their bounds; those of ICMPv6 but for neighbour solicitations.
use omphalos.Base.{ℕ, ◌+◌, ◌-◌, ◌≤◌, arith, false, ltb, Memory, length, IsBytes}
use omphalos.Base.Ends.{
  Ends, Ends-done, Ends-if, Ends-load8, Stops, Stops-done, Stops-if, Stops-load8, ends,
}
use omphalos.Packet.{Packet, IsValid, switch, Stops-switch}
use omphalos.Headers.Safety.{check_header-Ends}
use omphalos.Nd.Options.{
  handle_nd_routersol-Ends, handle_nd_routerad-Ends, handle_nd_neighad-Ends,
  handle_nd_redirect-Ends, handle_nd_neighsol-Stops,
}
use omphalos.Icmp.{icmp_types, handle_icmp_packet, icmp6_message, handle_icmp6_packet}

module _ (mem : Memory) (frame len : ℕ) (op : Packet) (bytes : IsBytes mem)
    (inside : frame + len ≤ length mem) (valid : IsValid op) where
  pub handle_icmp_packet-Ends : Ends IsValid (handle_icmp_packet mem frame len op)
  unfolding handle_icmp_packet
  handle_icmp_packet-Ends =
      Ends-if (ltb len 8) (λ _. Ends-done valid)
        (λ long. Ends-load8 mem frame (ground arith) (λ type _.
          Ends-if (switch type icmp_types false) (λ _. Ends-done valid) (λ _. Ends-done valid)))

  icmp6_message-Stops : (type : ℕ) → Stops false IsValid (icmp6_message type mem frame len op)
  unfolding icmp6_message
  icmp6_message-Stops type =
      let ok = Stops-done valid in
      Stops-switch false IsValid type _
        (
          ok,
          (
            ok,
            (
              ok,
              (
                ok,
                (
                  ok,
                  (
                    ok,
                    (
                      ok,
                      (
                        ok,
                        (
                          ok,
                          (
                            ends (handle_nd_routersol-Ends mem frame len op inside valid),
                            (
                              ends (handle_nd_routerad-Ends mem frame len op inside valid),
                              (
                                handle_nd_neighsol-Stops mem frame len op inside valid,
                                (
                                  ends (handle_nd_neighad-Ends mem frame len op inside valid),
                                  (
                                    ends (handle_nd_redirect-Ends mem frame len op inside valid),
                                    (
                                      ends (
                                          check_header-Ends mem frame len op bytes inside valid 24),
                                      tt,
                                    ),
                                  ),
                                ),
                              ),
                            ),
                          ),
                        ),
                      ),
                    ),
                  ),
                ),
              ),
            ),
          ),
        )
        (Stops-done valid)

-- On any frame of bytes in memory handle_icmp6_packet, with the neighbour discovery that it hands the
-- message to, reads nothing outside the frame, and it ends with a valid packet, or it fails the
-- assertion of handle_nd_neighsol; its loops over options always end.
pub handle_icmp6_packet-Stops :
    (mem : Memory) (frame len : ℕ) (op : Packet)
    → IsBytes mem
    → frame + len ≤ length mem
    → IsValid op
    → Stops false IsValid (handle_icmp6_packet mem frame len op)
unfolding handle_icmp6_packet
handle_icmp6_packet-Stops mem frame len op bytes inside valid =
    Stops-if (ltb len 8) (λ _. Stops-done valid)
      (λ long. Stops-load8 mem frame (ground arith) (λ type _.
        icmp6_message-Stops mem (frame + 4) (len - 4) op bytes (ground arith) valid type))
