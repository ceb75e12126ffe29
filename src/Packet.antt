-- ===== src/Packet.antt =====
-- omphalos_packet of src/omphalos/omphalos.h, the state that the analyzers of a frame pass on, and
-- what an analyzer is. A frame is given by its address in memory and its length. An analyzer asks
-- other parts of the program for network hosts and services: the packet keeps what it asked for, the
-- last first. Hosts stand for the pointers to them by their addresses.
mod Dispatch
pub mod Within
pub mod Sample
use omphalos.Base.{
  ℕ, ◌+◌, ◌-◌, ◌/◌, ◌%◌, ◌^◌, ◌<◌, ◌≤◌, ◌≡◌, List, [], ◌∷◌, ◌++◌, drop, Option, none, some, Bool,
  true, false, length, ltb, ◌==◌, if◌then◌else◌, Memory, Outcome, done, ◌>>=◌, load_bytes,
}
use omphalos.Hwaddrs.{Interface}
use omphalos.Hwaddrs.Hosts.{Distinct}
unfoldable pub use Dispatch.*

-- What is asked of src/omphalos/netaddrs.c and src/omphalos/service.c: a host by family, link
-- address and network address, also one that is known to be local; a service of a host, by protocol
-- and port; a protocol that a host speaks; a name for an address, also by family and with the naming
-- level, or for a host by its address, with the level; a name server for a family.
pub data Ask : Type 0 where
  l3host : ℕ → ℕ → List ℕ → Ask
  local_l3host : ℕ → ℕ → List ℕ → Ask
  service : ℕ → Option (List ℕ) → ℕ → ℕ → List ℕ → Ask
  proto : ℕ → List ℕ → Ask
  resolution : List ℕ → List ℕ → Ask
  offer : ℕ → List ℕ → List ℕ → ℕ → Ask
  named_l3host : List ℕ → List ℕ → ℕ → Ask
  nameserver : ℕ → List ℕ → Ask

-- `iface_malformed` counts up the malformed packets of the interface itself.
pub record Packet : Type 0 where
  pub i : Interface
  pub iface_malformed : ℕ
  pub l2s : ℕ
  pub l2d : ℕ
  pub pcap_ethproto : ℕ
  pub l3proto : ℕ
  pub l3s : Option (List ℕ)
  pub l3d : Option (List ℕ)
  pub l3saddr : List ℕ
  pub l3daddr : List ℕ
  pub l4src : ℕ
  pub l4dst : ℕ
  pub malformed : Bool
  pub noproto : Bool
  pub asked : List Ask

-- The memory, the address of the frame, its length, and the packet.
abbrev pub Analyzer : Type 0
Analyzer = Memory → ℕ → ℕ → Packet → Outcome Packet

abbrev pub is_malformed : Packet → Outcome Packet
is_malformed op = done (record op { malformed = true })

abbrev pub has_noproto : Packet → Outcome Packet
has_noproto op = done (record op { noproto = true })

abbrev pub ask : Ask → Packet → Packet
ask a op = record op { asked = a ∷ op.asked }

abbrev pub af_inet : ℕ
af_inet = 2

abbrev pub af_inet6 : ℕ
af_inet6 = 10

-- A network address of zero bytes: the sender of an ARP probe has it.
unfoldable pub is_probe : List ℕ → Bool
is_probe [] = true
is_probe (b ∷ addr) = if b == 0 then is_probe addr else false

-- No address of zero bytes is linked to a hardware address as local.
abbrev pub NoProbe : Ask → Type 0
NoProbe (local_l3host fam l2 addr) = is_probe addr ≡ false
NoProbe _ = Unit {0}

abbrev pub NoProbes : List Ask → Type 0
NoProbes [] = Unit {0}
NoProbes (a ∷ asked) = NoProbe a × NoProbes asked

-- What analyzers keep: hardware addresses have 8 bytes at most, since longer ones are not handled,
-- no two hosts of the interface have the same, and probes are not taken for hosts.
abbrev pub IsValid : Packet → Type 0
IsValid op = (op.i.addrlen ≤ 8) × Distinct op.i.l2hosts × NoProbes op.asked

-- An analyzer that looks at nothing but the length of the header, `size` bytes.
unfoldable pub check_header : ℕ → Analyzer
check_header size mem frame len op = if ltb len size then is_malformed op else done op

-- Bit `k` of a byte or word.
abbrev pub bit : ℕ → ℕ → Bool
bit b k = b / 2 ^ k % 2 == 1

-- `memcpy` over the start of a field.
abbrev pub overwrite : List ℕ → List ℕ → List ℕ
overwrite bytes old = bytes ++ drop (length bytes) old
