-- ===== src/Udp/Ports.antt =====
-- UDP datagrams are handed to applications within the bounds of the frame.
use omphalos.Base.{
  ℕ, ◌+◌, ◌-◌, ◌≤◌, arith, List, Bool, ltb, ◌==◌, ◌&&◌, ◌||◌, Memory, length, u16, swap16,
}
use omphalos.Base.Ends.{Stops, Stops-done, Stops-if, Stops-bind, Stops-load16}
use omphalos.Packet.{Packet, IsValid, Stops-switch}
use omphalos.Packet.Within.{StopsWithin}
use omphalos.Udp.{
  Applications, Judge, serves, application, handle_udp_packet, is_one, is_nonzero, dns_name,
  upnp_name, dhcp_name, dhcp6_name,
}

-- The packet that a verdict comes with is valid.
abbrev pub ValidJudged : Packet × ℕ → Type 0
ValidJudged r = IsValid r.0

abbrev pub JudgesWithin : Bool → Memory → ℕ → ℕ → Judge → Type 0
JudgesWithin endless mem lo hi judge =
    (frame len : ℕ) (op : Packet)
    → lo ≤ frame
    → frame + len ≤ hi
    → IsValid op
    → Stops endless ValidJudged (judge mem frame len op)

-- So do all applications.
abbrev pub AllWithin : Bool → Memory → ℕ → ℕ → Applications → Type 0
AllWithin endless mem lo hi apps =
    StopsWithin endless mem lo hi apps.natpmp
    × StopsWithin endless mem lo hi apps.mdns
    × JudgesWithin endless mem lo hi apps.dns
    × JudgesWithin endless mem lo hi apps.ssdp
    × JudgesWithin endless mem lo hi apps.netbios_ns
    × JudgesWithin endless mem lo hi apps.dhcp
    × JudgesWithin endless mem lo hi apps.dhcp6

module _ (endless : Bool) (mem : Memory) (lo hi : ℕ) where
  pub serves-Stops :
      (is_server : ℕ → Bool) (name : List ℕ) (judge : Judge)
      → JudgesWithin endless mem lo hi judge
      → StopsWithin endless mem lo hi (serves is_server name judge)
  unfolding serves
  serves-Stops is_server name judge within frame len op above below valid =
      Stops-bind (within frame len op above below valid) (λ r v.
        Stops-if (is_server r.1) (λ _. Stops-done (v.0, v.1, (tt, v.2))) (λ _. Stops-done v))

  module _ (apps : Applications) (within : AllWithin endless mem lo hi apps) where
    application-Stops :
        (source dest : ℕ) → StopsWithin endless mem lo hi (application apps source dest)
    unfolding application
    application-Stops source dest frame len op above below valid =
        Stops-switch endless IsValid source _
          (
            serves-Stops is_one dns_name apps.dns within.2 frame len op above below valid,
            (
              serves-Stops is_one upnp_name apps.ssdp within.3 frame len op above below valid,
              (
                Stops-if ((dest == swap16 5350) || (dest == swap16 5351))
                    (λ _. within.0 frame len op above below valid)
                    (λ _. within.1 frame len op above below valid),
                (
                  Stops-if (dest == swap16 137)
                      (λ _.
                        Stops-bind (within.4 frame len op above below valid) (λ r v. Stops-done v))
                      (λ _. Stops-done valid),
                  (
                    Stops-if (dest == swap16 68)
                        (λ _.
                          serves-Stops is_nonzero dhcp_name apps.dhcp within.5 frame len op above
                            below valid)
                        (λ _. Stops-done valid),
                    (
                      Stops-if (dest == swap16 546)
                          (λ _.
                            serves-Stops is_nonzero dhcp6_name apps.dhcp6 within.6 frame len op
                              above below valid)
                          (λ _. Stops-done valid),
                      tt,
                    ),
                  ),
                ),
              ),
            ),
          )
          (Stops-done valid)

-- Where the applications, on slices of the frame, read nothing outside them and keep the packet valid,
-- so does handle_udp_packet on a frame in memory: what it hands on lies within the frame.
pub handle_udp_packet-StopsWithin :
    (endless : Bool) (mem : Memory) (lo hi : ℕ) (apps : Applications)
    → hi ≤ length mem
    → AllWithin endless mem lo hi apps
    → StopsWithin endless mem lo hi (handle_udp_packet apps)
unfolding handle_udp_packet
handle_udp_packet-StopsWithin endless mem lo hi apps inside within frame len op above below valid =
    Stops-if (ltb len 8) (λ _. Stops-done valid)
      (λ long. Stops-load16 mem frame (ground arith) (λ source _.
        Stops-load16 mem (frame + 2) (ground arith) (λ dest _.
          let fits : frame + 8 + u16 (len - 8) ≤ hi = ground arith in
          Stops-if ((source == swap16 5350) && (dest == swap16 5350))
            (λ _. within.0 _ _ _ (omega arith) fits valid)
            (λ _.
              Stops-if ((source == swap16 5351) && (dest == swap16 5351))
                (λ _. within.0 _ _ _ (omega arith) fits valid)
                (λ _.
                  application-Stops endless mem lo hi apps within source dest _ _ _ (omega arith)
                    fits valid)))))
