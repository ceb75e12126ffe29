-- ===== src/Packet/Sample.antt =====
-- Frames, a packet and applications on which the theorems on analyzers apply.
use omphalos.Base.{
  ℕ, ◌/◌, ◌≡◌, ◌≢◌, arith, List, [], ◌∷◌, Option, none, some, Bool, true, false, not, ◌&&◌, ltb,
  ◌==◌, Memory, IsBytes, byte_at, zero, suc, done,
}
use omphalos.Hwaddrs.{Interface}
use omphalos.Base.{load8, length, ◌≤◌, if◌then◌else◌, ◌>>=◌}
use omphalos.Base.Ends.{Stops-done, Stops-if, Stops-load8}
use omphalos.Packet.{Packet, Analyzer, IsValid, is_malformed}
use omphalos.Packet.Within.{StopsWithin}
use omphalos.Udp.Ports.{JudgesWithin}
use omphalos.Udp.Apps.{applications}
use omphalos.Udp.{Applications, Judge}
use omphalos.Ip.V4.{HoldsHeader}

abbrev pub wire : Interface
wire = record {
  flags = 2;
  addr = 2 ∷ 0 ∷ 0 ∷ 0 ∷ 0 ∷ 2 ∷ [];
  addrlen = 6;
  bcast = some (255 ∷ 255 ∷ 255 ∷ 255 ∷ 255 ∷ 255 ∷ []);
  arptype = 1;
  l2hosts = [];
}

abbrev pub blank : Packet
blank = record {
  i = wire;
  iface_malformed = 0;
  l2s = 0x010000000002;
  l2d = 0x020000000002;
  pcap_ethproto = 0;
  l3proto = 0;
  l3s = none;
  l3d = none;
  l3saddr = [];
  l3daddr = [];
  l4src = 0;
  l4dst = 0;
  malformed = false;
  noproto = false;
  asked = [];
}

pub blank-IsValid : IsValid blank
blank-IsValid = (omega arith, tt, tt)

abbrev pub no_vendors : List ℕ → Option (List ℕ)
no_vendors hwaddr = none

abbrev pub accept : Judge
accept mem frame len op = done (op, 1)

-- A handler that looks at the first byte of a slice, and one that takes a slice with a first byte of 0
-- for its own.
abbrev pub first_byte : Analyzer
first_byte mem frame len op =
    if len == 0
    then is_malformed op
    else (do first ← load8 mem frame; if first == 0 then done op else is_malformed op)

abbrev pub judge_first : Judge
judge_first mem frame len op =
    if len == 0
    then done (op, 0)
    else (do first ← load8 mem frame; done (op, if first == 0 then 1 else 0))

pub first_byte-StopsWithin :
    (stuck : Bool) (mem : Memory) (hi : ℕ) → hi ≤ length mem → StopsWithin stuck mem 0 hi first_byte
first_byte-StopsWithin stuck mem hi inside frame len op above below valid =
    Stops-if (len == 0) (λ _. Stops-done valid)
      (λ some_bytes.
        Stops-load8 mem frame (ground arith)
          (λ first _. Stops-if (first == 0) (λ _. Stops-done valid) (λ _. Stops-done valid)))

pub judge_first-JudgesWithin :
    (stuck : Bool) (mem : Memory) (hi : ℕ)
    → hi ≤ length mem
    → JudgesWithin stuck mem 0 hi judge_first
judge_first-JudgesWithin stuck mem hi inside frame len op above below valid =
    Stops-if (len == 0) (λ _. Stops-done valid)
      (λ some_bytes. Stops-load8 mem frame (ground arith) (λ first _. Stops-done valid))

-- The applications, and a handler of DNS that looks at nothing.
abbrev pub sample_apps : Applications
sample_apps = applications accept

abbrev pub are_bytes : Memory → Bool
are_bytes [] = true
are_bytes (b ∷ bs) = ltb b 256 && are_bytes bs

pub are_bytes-IsBytes : (mem : Memory) → are_bytes mem ≡ true → IsBytes mem
are_bytes-IsBytes [] h = tt
are_bytes-IsBytes (b ∷ bs) h = (ground arith, are_bytes-IsBytes bs (ground arith))

-- No byte looks like the first of an IPv4 header.
abbrev pub has_no_header : Memory → Bool
has_no_header [] = true
has_no_header (b ∷ bs) = not (b / 16 == 4) && has_no_header bs

no_header : (mem : Memory) (place : ℕ) → has_no_header mem ≡ true → byte_at mem place / 16 ≢ 4
no_header [] place h = λ four. absurd (omega arith)
no_header (b ∷ bs) zero h = λ four. absurd (ground arith)
no_header (b ∷ bs) (suc place) h = no_header bs place (ground arith)

pub has_no_header-HoldsHeader :
    (mem : Memory) → has_no_header mem ≡ true → (place : ℕ) → HoldsHeader mem place
has_no_header-HoldsHeader mem h place = λ _ four. absurd (no_header mem place h four)

abbrev pub reply : Memory
reply =
    0x00 ∷ 0x01 ∷ 0x08 ∷ 0x00 ∷ 0x06 ∷ 0x04 ∷ 0x00 ∷ 0x02 ∷ 0x02 ∷ 0x00 ∷ 0x00 ∷ 0x00 ∷ 0x00 ∷ 0x01
    ∷ 0x0a ∷ 0x00 ∷ 0x00 ∷ 0x01 ∷ 0x02 ∷ 0x00 ∷ 0x00 ∷ 0x00 ∷ 0x00 ∷ 0x02 ∷ 0x0a ∷ 0x00 ∷ 0x00
    ∷ 0x02 ∷ []

abbrev pub tagged_reply : Memory
tagged_reply =
    0x02 ∷ 0x00 ∷ 0x00 ∷ 0x00 ∷ 0x00 ∷ 0x02 ∷ 0x02 ∷ 0x00 ∷ 0x00 ∷ 0x00 ∷ 0x00 ∷ 0x01 ∷ 0x81 ∷ 0x00
    ∷ 0x00 ∷ 0x05 ∷ 0x08 ∷ 0x06 ∷ 0x00 ∷ 0x01 ∷ 0x08 ∷ 0x00 ∷ 0x06 ∷ 0x04 ∷ 0x00 ∷ 0x02 ∷ 0x02
    ∷ 0x00 ∷ 0x00 ∷ 0x00 ∷ 0x00 ∷ 0x01 ∷ 0x0a ∷ 0x00 ∷ 0x00 ∷ 0x01 ∷ 0x02 ∷ 0x00 ∷ 0x00 ∷ 0x00
    ∷ 0x00 ∷ 0x02 ∷ 0x0a ∷ 0x00 ∷ 0x00 ∷ 0x02 ∷ []

abbrev pub short_datagram : Memory
short_datagram =
    0x45 ∷ 0x00 ∷ 0x00 ∷ 0x00 ∷ 0x00 ∷ 0x01 ∷ 0x00 ∷ 0x00 ∷ 0x40 ∷ 0x06 ∷ 0x66 ∷ 0xf5 ∷ 0x0a ∷ 0x00
    ∷ 0x00 ∷ 0x01 ∷ 0x0a ∷ 0x00 ∷ 0x00 ∷ 0x02 ∷ []

-- A UDP datagram of one byte to the port of DNS.
abbrev pub query_datagram : Memory
query_datagram =
    0x45 ∷ 0x00 ∷ 0x00 ∷ 0x1d ∷ 0x00 ∷ 0x01 ∷ 0x00 ∷ 0x00 ∷ 0x40 ∷ 0x11 ∷ 0x66 ∷ 0xcd ∷ 0x0a ∷ 0x00
    ∷ 0x00 ∷ 0x01 ∷ 0x0a ∷ 0x00 ∷ 0x00 ∷ 0x02 ∷ 0x80 ∷ 0x0a ∷ 0x00 ∷ 0x35 ∷ 0x00 ∷ 0x09 ∷ 0x00
    ∷ 0x00 ∷ 0x00 ∷ []

abbrev pub hop_by_hop : Memory
hop_by_hop =
    0x60 ∷ 0x00 ∷ 0x00 ∷ 0x00 ∷ 0x00 ∷ 0x10 ∷ 0x00 ∷ 0xff ∷ 0xfe ∷ 0x80 ∷ 0x00 ∷ 0x00 ∷ 0x00 ∷ 0x00
    ∷ 0x00 ∷ 0x00 ∷ 0x00 ∷ 0x00 ∷ 0x00 ∷ 0x00 ∷ 0x00 ∷ 0x00 ∷ 0x00 ∷ 0x01 ∷ 0xff ∷ 0x02 ∷ 0x00
    ∷ 0x00 ∷ 0x00 ∷ 0x00 ∷ 0x00 ∷ 0x00 ∷ 0x00 ∷ 0x00 ∷ 0x00 ∷ 0x00 ∷ 0x00 ∷ 0x00 ∷ 0x00 ∷ 0x01
    ∷ 0x3a ∷ 0x00 ∷ 0x05 ∷ 0x02 ∷ 0x00 ∷ 0x00 ∷ 0x01 ∷ 0x00 ∷ 0x85 ∷ 0x00 ∷ 0x00 ∷ 0x00 ∷ 0x00
    ∷ 0x00 ∷ 0x00 ∷ 0x00 ∷ []

abbrev pub solicitation : Memory
solicitation =
    0x85 ∷ 0x00 ∷ 0x00 ∷ 0x00 ∷ 0x00 ∷ 0x00 ∷ 0x00 ∷ 0x00 ∷ 0x01 ∷ 0x01 ∷ 0x02 ∷ 0x00 ∷ 0x00 ∷ 0x00
    ∷ 0x00 ∷ 0x01 ∷ []

abbrev pub empty_option : Memory
empty_option =
    0x00 ∷ 0x00 ∷ 0x00 ∷ 0x00 ∷ 0x00 ∷ 0x00 ∷ 0x00 ∷ 0x00 ∷ 0x00 ∷ 0x00 ∷ 0x00 ∷ 0x00 ∷ 0x00 ∷ 0x00
    ∷ 0x00 ∷ 0x00 ∷ 0x00 ∷ 0x00 ∷ 0x00 ∷ 0x00 ∷ 0x00 ∷ 0x00 ∷ []

abbrev pub empty_attribute : Memory
empty_attribute = 0x00 ∷ 0x00 ∷ 0x00 ∷ 0x00 ∷ 0x00 ∷ 0x00 ∷ 0x00 ∷ 0x00 ∷ []

abbrev pub attribute_of_8 : Memory
attribute_of_8 =
    0x01 ∷ 0x00 ∷ 0x00 ∷ 0x00 ∷ 0x00 ∷ 0x01 ∷ 0x00 ∷ 0x08 ∷ 0x01 ∷ 0x02 ∷ 0x03 ∷ 0x04 ∷ []

abbrev pub name_ab : Memory
name_ab = 0x04 ∷ 0x45 ∷ 0x42 ∷ 0x45 ∷ 0x43 ∷ 0x00 ∷ []

abbrev pub short_hello : Memory
short_hello = 1 ∷ 0 ∷ 0 ∷ 1 ∷ 0 ∷ 0 ∷ 0 ∷ 0 ∷ 0 ∷ 0 ∷ 0 ∷ 0 ∷ 0 ∷ 0 ∷ 0 ∷ 0 ∷ 0 ∷ 0 ∷ []
