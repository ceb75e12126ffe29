-- ===== src/Ip/V4.antt =====
-- IPv4: everything is handed on within the bounds of the frame, where the header is not longer than
-- the datagram.
use omphalos.Base.{
  Outcome, done, ap, ◌∙◌, ℕ, ◌+◌, ◌*◌, ◌/◌, ◌%◌, ◌≤◌, ◌<◌, ◌≡◌, arith, false, not, ltb, ◌==◌, ◌||◌,
  bit_and, Memory, length, IsBytes, byte_at, net_word_at, byte_at-lt,
}
use omphalos.Base.Ends.{
  Ends, Stops, Stops-done, Stops-if, Stops-bind, Stops-load8, Stops-load16, Stops-load16_net, ends,
}
use omphalos.Csum.{ipv4_csum}
use omphalos.Csum.Header.{ipv4_csum-ones_sum}
use omphalos.Packet.{Packet, IsValid, af_inet}
use omphalos.Udp.{Applications}
use omphalos.Packet.Within.{StopsWithin}
use omphalos.Udp.Ports.{AllWithin}
use omphalos.Ip.{ipv4_upper, ipv4_payload, ipv4_checks, handle_ipv4_packet}
use omphalos.Ip.V6.{
  l3_hosts-Ends, upper_level-StopsWithin, has_noproto-StopsWithin, checked,
  handle_ipv6_packet-StopsWithin,
}

-- Where the bytes are a header by their version, which is 4, and by their checksum, the datagram is at
-- least as long as the header says that the header is.
abbrev pub HoldsHeader : Memory → ℕ → Type 0
HoldsHeader mem frame =
    ipv4_csum mem frame ≡ done 0
    → byte_at mem frame / 16 ≡ 4
    → byte_at mem frame % 16 * 4 ≤ net_word_at mem (frame + 2)

pub ipv4_csum-Ends :
    (mem : Memory) (frame : ℕ)
    → IsBytes mem
    → frame < length mem
    → frame + byte_at mem frame % 16 * 4 ≤ length mem
    → Ends (λ (check : ℕ). check ≤ 65535) (ipv4_csum mem frame)
ipv4_csum-Ends mem frame bytes header inside = record {
  result = _;
  runs = ipv4_csum-ones_sum mem frame bytes (header, omega arith);
  holds = omega arith;
}

-- A run that ends is known by its result.
Ends-runs : {P : ℕ → Type 0} {run : Outcome ℕ} → Ends P run → Ends (λ a. run ≡ done a) run
Ends-runs e = record { result = e.result; runs = e.runs; holds = e.runs }

module _ (mem : Memory) (lo hi : ℕ) (apps : Applications) (end_inside : hi ≤ length mem)
    (bytes : IsBytes mem) (within : AllWithin false mem lo hi apps) (frame len : ℕ)
    (above : lo ≤ frame) (inside : frame + len ≤ hi) where
  ipv4_payload-Stops :
      (hlen tot_len : ℕ) (op : Packet)
      → 20 ≤ len
      → hlen ≤ tot_len
      → tot_len ≤ len
      → tot_len < 65536
      → IsValid op
      → Stops false IsValid (ipv4_payload apps hlen tot_len mem frame len op)
  unfolding ipv4_payload ipv4_upper
  ipv4_payload-Stops hlen tot_len op long holds fits small valid =
      Stops-bind
        (ends (
          l3_hosts-Ends af_inet (frame + 12) (frame + 16) 4 mem op (omega arith) (omega arith)
            valid))
        (λ op' v. Stops-load16 mem (frame + 6) (omega arith) (λ frag _.
          Stops-if (not (bit_and frag 0x1f00 == 0) || not (bit_and frag 0x2000 == 0))
            (λ _. Stops-done v)
            (λ _. Stops-load8 mem (frame + 9) (omega arith) (λ protocol _.
              upper_level-StopsWithin mem lo hi apps end_inside bytes within protocol _ _
                (
                  checked mem lo hi apps end_inside bytes within 16,
                  (
                    checked mem lo hi apps end_inside bytes within 24,
                    (handle_ipv6_packet-StopsWithin mem lo hi apps end_inside bytes within, tt),
                  ),
                )
                (has_noproto-StopsWithin mem lo hi apps end_inside bytes within) _ _ _ (omega arith)
                (omega arith) v))))

  checked_sum :
      (check : ℕ)
      → not (check == 0) ≡ false
      → ipv4_csum mem frame ≡ done check
      → ipv4_csum mem frame ≡ done 0
  checked_sum check sound run = let zeros : check ≡ 0 = ground arith in run ∙ ap done zeros

  ipv4_checks-Stops :
      (op : Packet)
      → 20 ≤ len
      → byte_at mem frame % 16 * 4 ≤ len
      → HoldsHeader mem frame
      → IsValid op
      → Stops false IsValid (ipv4_checks apps (byte_at mem frame % 16 * 4) mem frame len op)
  unfolding ipv4_checks
  ipv4_checks-Stops op long fits holds valid =
      Stops-bind (ends (Ends-runs (ipv4_csum-Ends mem frame bytes (omega arith) (omega arith))))
        (λ check run.
          Stops-if (not (check == 0)) (λ _. Stops-done valid)
            (λ sound. Stops-load8 mem frame (omega arith) (λ version first.
              Stops-if (not (version / 16 == 4)) (λ _. Stops-done valid)
                (λ four. Stops-load16_net mem (frame + 2) (omega arith) (λ tot_len at.
                  Stops-if (ltb len tot_len) (λ _. Stops-done valid)
                    (λ enough.
                      ipv4_payload-Stops _ tot_len op long
                        (omega (arith, holds (checked_sum check sound run) (ground arith)))
                        (ground arith)
                        (omega (
                          arith,
                          byte_at-lt mem (frame + 2) bytes,
                          byte_at-lt mem (frame + 2 + 1) bytes,
                        ))
                        valid))))))

  ipv4_packet-Stops :
      (op : Packet)
      → (20 ≤ len → HoldsHeader mem frame)
      → IsValid op
      → Stops false IsValid (handle_ipv4_packet apps mem frame len op)
  unfolding handle_ipv4_packet
  ipv4_packet-Stops op holds valid =
      Stops-if (ltb len 20) (λ _. Stops-done valid)
        (λ long. Stops-load8 mem frame (ground arith) (λ ihl at. rw at (
          Stops-if (ltb len (byte_at mem frame % 16 * 4)) (λ _. Stops-done valid)
            (λ fits.
              Stops-if (byte_at mem frame % 16 * 4 == 0) (λ _. Stops-done valid)
                (λ _.
                  ipv4_checks-Stops op (ground arith) (ground arith) (holds (ground arith))
                    valid)))))

pub handle_ipv4_packet-StopsWithin :
    (mem : Memory) (lo hi : ℕ) (apps : Applications)
    → hi ≤ length mem
    → IsBytes mem
    → AllWithin false mem lo hi apps
    → ((place : ℕ) → lo ≤ place → place < hi → HoldsHeader mem place)
    → StopsWithin false mem lo hi (handle_ipv4_packet apps)
handle_ipv4_packet-StopsWithin mem lo hi apps inside bytes within holds frame len op above below =
    ipv4_packet-Stops mem lo hi apps inside bytes within frame len above below op
      (λ long. holds frame above (omega arith))
