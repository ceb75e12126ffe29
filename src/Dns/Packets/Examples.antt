-- ===== src/Dns/Packets/Examples.antt =====
-- Packets on which the theorems about the handler of DNS apply.
use omphalos.Base.{
  ℕ, ◌≡◌, inl, refl, arith, List, [], ◌∷◌, ◌++◌, Option, some, Memory, done, ap, ◌∙◌,
}
use omphalos.Packet.{Packet, af_inet}
use omphalos.Packet.Sample.{blank}
use omphalos.Dns.Name.Reading.{AllLabels}
use omphalos.Dns.Reverse.{decimal, process_reverse_lookup}
use omphalos.Dns.Reverse.Four.{
  labels4, AllLabels-labels4, c_string-labels4, process_reverse_lookup-text4,
}
use omphalos.Dns.Packets.{handle_dns_packet}
use omphalos.Dns.Packets.Replies.{Ptr, IsPtr, ptr_bytes}
use omphalos.Dns.Packets.Header.{Header, header_bytes}
use omphalos.Dns.Packets.Handled.{Question, question_bytes, replied, handle_dns_packet-reply}
use omphalos.Dns.Packets.Short.{answer_bytes}

-- ASCII.
abbrev ascii : List ℕ → Option (ℕ × ℕ)
ascii [] = some (0, 0)
ascii (c ∷ text) = some (c, 1)

abbrev ip_packet : Packet
ip_packet = record blank { l3proto = 0x0800 }

-- 192.0.2.33
abbrev lookup : List (List ℕ)
lookup = labels4 192 0 2 33 (omega arith) (omega arith) (omega arith) (omega arith)

-- `ns.x`
abbrev ns_x : List (List ℕ)
ns_x = (110 ∷ 115 ∷ []) ∷ (120 ∷ []) ∷ []

ns_x-AllLabels : AllLabels ns_x
ns_x-AllLabels = ground arith

abbrev ns_ptr : Ptr
ns_ptr = record {
  lookup = lookup;
  fam = af_inet;
  addr = 192 ∷ 0 ∷ 2 ∷ 33 ∷ [];
  t0 = 0;
  t1 = 0;
  t2 = 14;
  t3 = 16;
  hi = 0;
  lo = 6;
  name = ns_x;
}

ns_ptr-IsPtr : IsPtr ns_ptr
ns_ptr-IsPtr = record {
  lookup_labels =
      AllLabels-labels4 192 0 2 33 (omega arith) (omega arith) (omega arith) (omega arith);
  name_labels = ns_x-AllLabels;
  stands_for =
      ap process_reverse_lookup
        (c_string-labels4 192 0 2 33 (omega arith) (omega arith) (omega arith) (omega arith))
      ∙ process_reverse_lookup-text4 192 0 2 33 (omega arith) (omega arith) (omega arith)
          (omega arith);
  size = refl;
}

abbrev asked : Question
asked = record { labels = lookup; t0 = 0; t1 = 12; c0 = 0; c1 = 1 }

abbrev header : ℕ → ℕ → Header
header questions answers = record {
  id0 = 7;
  id1 = 7;
  f0 = 0x85;
  f1 = 0x80;
  qh = 0;
  ql = questions;
  ah = 0;
  al = answers;
  n0 = 0;
  n1 = 0;
  n2 = 0;
  n3 = 0;
}

abbrev ptr_reply : Memory
ptr_reply =
    9 ∷ header_bytes (header 1 1) ++ question_bytes (asked ∷ []) (ptr_bytes (ns_ptr ∷ []) [])

handle_dns_packet-reply_example :
    handle_dns_packet 0 ascii ptr_reply 1 100 ip_packet ≡ done (replied (ns_ptr ∷ []) ip_packet, 1)
unfolding decimal
handle_dns_packet-reply_example =
    handle_dns_packet-reply 0 ascii ptr_reply 1 100 ip_packet (header 1 1) (asked ∷ []) ns_ptr [] []
      (inl refl)
      (AllLabels-labels4 192 0 2 33 (omega arith) (omega arith) (omega arith) (omega arith), tt)
      (ns_ptr-IsPtr, tt) refl (λ e. absurd (omega arith)) refl refl (omega arith)

abbrev short_address : Memory
short_address =
    header_bytes (header 0 1) ++ answer_bytes ns_x 1 (0 ∷ 0 ∷ 0 ∷ 9 ∷ []) (10 ∷ 1 ∷ []) []

-- Preference 5 and the root.
abbrev last_exchange : Memory
last_exchange =
    header_bytes (header 0 1) ++ answer_bytes ns_x 15 (0 ∷ 0 ∷ 0 ∷ 9 ∷ []) (0 ∷ 5 ∷ 0 ∷ []) []
