-- ===== src/Ethernet/Safety.antt =====
-- Everything of an Ethernet frame is handed on within its bounds.
use omphalos.Base.{ℕ, ◌≤◌, ◌<◌, List, Option, none, some, true, false, Memory, length, IsBytes}
use omphalos.Packet.{Packet, Analyzer}
use omphalos.Packet.Within.{StopsWithin}
use omphalos.Udp.{Applications}
use omphalos.Udp.Ports.{AllWithin}
use omphalos.Ip.V4.{HoldsHeader}

module _ (mem : Memory) (lo hi : ℕ) (apps : Applications) (lltd : Analyzer) (rounds : ℕ)
    (iana_lookup : List ℕ → Option (List ℕ)) (inside : hi ≤ length mem) (bytes : IsBytes mem)
    (within : AllWithin false mem lo hi apps) (lltd_within : StopsWithin true mem lo hi lltd)
    (holds : (place : ℕ) → lo ≤ place → place < hi → HoldsHeader mem place) where
  -- An 802.2 analyzer that may stand behind a tag.
  IsWithin : Option Analyzer → Type 0
  IsWithin none = Unit
  IsWithin (some llc) = StopsWithin true mem lo hi llc
