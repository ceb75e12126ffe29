-- ===== src/Headers/Safety.antt =====
-- The analyzers of headers end, read nothing outside the frame, and keep the packet valid.
use omphalos.Base.{
  ℕ, ◌+◌, ◌≤◌, ◌≡◌, arith, Memory, length, ltb, IsBytes, ◌/◌, ◌%◌, not, ◌&&◌, ◌==◌, fault, load16,
  load8, get_elem?-ge, refl,
}
use omphalos.Base.Ends.{Ends, Ends-done, Ends-if, Ends-load8, Ends-load16}
use omphalos.Packet.{Packet, IsValid, check_header}
use omphalos.Headers.{
  handle_tcp_packet, handle_sctp_packet, handle_gre_packet, gre_options, count_malformed,
  ignore_packet,
}

module _ (mem : Memory) (frame len : ℕ) (op : Packet) (bytes : IsBytes mem)
    (inside : frame + len ≤ length mem) (valid : IsValid op) where
  pub check_header-Ends : (size : ℕ) → Ends IsValid (check_header size mem frame len op)
  unfolding check_header
  check_header-Ends size = Ends-if (ltb len size) (λ _. Ends-done valid) (λ _. Ends-done valid)

  pub count_malformed-Ends : (size : ℕ) → Ends IsValid (count_malformed size mem frame len op)
  unfolding count_malformed
  count_malformed-Ends size = Ends-if (ltb len size) (λ _. Ends-done valid) (λ _. Ends-done valid)

  pub handle_tcp_packet-Ends : Ends IsValid (handle_tcp_packet mem frame len op)
  unfolding handle_tcp_packet
  handle_tcp_packet-Ends =
      Ends-if (ltb len 20) (λ _. Ends-done valid)
        (λ long. Ends-load16 mem frame (ground arith) (λ src _.
          Ends-load16 mem (frame + 2) (ground arith) (λ dst _.
            Ends-load8 mem (frame + 12) (ground arith) (λ offset _.
              Ends-if (ltb len (offset / 16)) (λ _. Ends-done valid) (λ _. Ends-done valid)))))

  pub handle_sctp_packet-Ends : Ends IsValid (handle_sctp_packet mem frame len op)
  unfolding handle_sctp_packet
  handle_sctp_packet-Ends =
      Ends-if (ltb len 12) (λ _. Ends-done valid)
        (λ long.
          Ends-load16 mem frame (ground arith)
            (λ src _. Ends-load16 mem (frame + 2) (ground arith) (λ dst _. Ends-done valid)))

  pub handle_gre_packet-Ends : Ends IsValid (handle_gre_packet mem frame len op)
  unfolding handle_gre_packet
  handle_gre_packet-Ends =
      Ends-if (ltb len 4) (λ _. Ends-done valid)
        (λ long. Ends-load8 mem frame (ground arith) (λ flags _.
          Ends-if (ltb len (4 + gre_options flags)) (λ _. Ends-done valid)
            (λ _. Ends-load8 mem (frame + 1) (ground arith) (λ version _.
              Ends-if (not (version % 8 == 0) && not (version % 8 == 1)) (λ _. Ends-done valid)
                (λ _. Ends-done valid)))))

  pub ignore_packet-Ends : Ends IsValid (ignore_packet mem frame len op)
  ignore_packet-Ends = Ends-done valid

-- A load behind the end of the memory.
load16_fault : (mem : Memory) (p : ℕ) → length mem ≤ p → load16 mem p ≡ fault
unfolding load16 load8
load16_fault mem p h = rw (get_elem?-ge mem p h) refl

-- What handle_tcp_packet makes of a length that wrapped, at the end of the memory.
pub handle_tcp_packet_fault :
    (mem : Memory) (frame len : ℕ) (op : Packet)
    → length mem ≤ frame
    → 20 ≤ len
    → handle_tcp_packet mem frame len op ≡ fault
unfolding handle_tcp_packet
handle_tcp_packet_fault mem frame len op out long = ground (arith, load16_fault mem frame out)
