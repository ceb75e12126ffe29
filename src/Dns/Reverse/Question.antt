-- ===== src/Dns/Reverse/Question.antt =====
-- The question of a reverse lookup, as src/omphalos/dns.c sends it and reads it: out of the packet,
-- and back to the address.
use omphalos.Base.{
  ℕ, ◌+◌, ◌<◌, ◌≤◌, ◌≡◌, ap, ◌∙◌, arith, List, [], ◌∷◌, ◌++◌, length, drop, refl, byte_at,
  length-append, ◌*◌, ◌^◌, some, Option, Memory, Outcome, done, IsBytes,
}
use omphalos.Packet.{af_inet, af_inet6}
use omphalos.Dns.Name.{Record, extract_dns_record}
use omphalos.Dns.Name.Plain.{dotted}
use omphalos.Dns.Name.Reading.{AllLabels, encode}
use omphalos.Dns.Name.Round.{extract_dns_record-plain}
use omphalos.Dns.Name.Whole.{record_of}
use omphalos.Dns.Reverse
use omphalos.Dns.Reverse.Four.{
  length-rev_quads, labels4, rev_dns_a-encode, AllLabels-labels4, c_string-labels4,
  process_reverse_lookup-text4,
}
use omphalos.Dns.Reverse.Six.{
  labels6, rev_dns_aaaa-encode, AllLabels-labels6, c_string-labels6, process_reverse_lookup-nibbles,
}

-- A record is read, and its name is that of a reverse lookup of this address.
pub record NamesAddress (fam : ℕ) (addr : List ℕ) (run : Outcome (Option Record)) : Type 0 where
  pub out : Record
  pub result : run ≡ done (some out)
  pub reversed : Reverse.process_reverse_lookup (Reverse.c_string out.name) ≡ some (fam, addr)

module _ (fuel len sec : ℕ) (mem : Memory) (t0 t1 c0 c1 : ℕ) (rest : List ℕ) where
  question-NamesAddress :
      (question : List ℕ) (ls : List (List ℕ)) (fam : ℕ) (addr : List ℕ)
      → question ≡ encode ls
      → AllLabels ls
      → Reverse.process_reverse_lookup (Reverse.c_string (dotted ls)) ≡ some (fam, addr)
      → drop sec mem ≡ question ++ 0 ∷ t0 ∷ t1 ∷ c0 ∷ c1 ∷ rest
      → length question + 5 ≤ len
      → NamesAddress fam addr (extract_dns_record fuel len sec mem)
  question-NamesAddress question ls fam addr e h back at room = record {
    out = record_of (dotted ls) (length (encode ls) + 5) t0 t1 c0 c1;
    result =
        extract_dns_record-plain fuel len sec mem ls t0 t1 c0 c1 rest h
          (at ∙ ap (λ (q : List ℕ). q ++ 0 ∷ t0 ∷ t1 ∷ c0 ∷ c1 ∷ rest) e)
          (omega (arith, ap length e));
    reversed = back;
  }

  -- The question that `rev_dns_a` makes of an IPv4 address, in a packet with a zero byte, type and
  -- class behind it and within the bytes that may be consumed, is extracted as a record whose name
  -- `process_reverse_lookup` takes back to the address.
  pub rev_dns_a-NamesAddress :
      (a b c d : ℕ)
      → a < 256
      → b < 256
      → c < 256
      → d < 256
      → drop sec mem ≡ Reverse.rev_dns_a (a ∷ b ∷ c ∷ d ∷ []) ++ 0 ∷ t0 ∷ t1 ∷ c0 ∷ c1 ∷ rest
      → length (Reverse.rev_dns_a (a ∷ b ∷ c ∷ d ∷ [])) + 5 ≤ len
      → NamesAddress af_inet (a ∷ b ∷ c ∷ d ∷ []) (extract_dns_record fuel len sec mem)
  rev_dns_a-NamesAddress a b c d ha hb hc hd =
      question-NamesAddress (Reverse.rev_dns_a (a ∷ b ∷ c ∷ d ∷ [])) (labels4 a b c d ha hb hc hd)
        af_inet (a ∷ b ∷ c ∷ d ∷ []) (rev_dns_a-encode a b c d ha hb hc hd)
        (AllLabels-labels4 a b c d ha hb hc hd)
        (ap Reverse.process_reverse_lookup (c_string-labels4 a b c d ha hb hc hd)
          ∙ process_reverse_lookup-text4 a b c d ha hb hc hd)

  -- The question that `rev_dns_aaaa` makes of an IPv6 address, in a packet with a zero byte, type and
  -- class behind it and within the bytes that may be consumed, is extracted as a record whose name
  -- `process_reverse_lookup` takes back to the address: each nibble comes back to its place in its
  -- word.
  pub rev_dns_aaaa-NamesAddress :
      (i6 : List ℕ)
      → IsBytes i6
      → length i6 ≡ 16
      → drop sec mem ≡ Reverse.rev_dns_aaaa i6 ++ 0 ∷ t0 ∷ t1 ∷ c0 ∷ c1 ∷ rest
      → length (Reverse.rev_dns_aaaa i6) + 5 ≤ len
      → NamesAddress af_inet6 i6 (extract_dns_record fuel len sec mem)
  rev_dns_aaaa-NamesAddress i6 h size =
      question-NamesAddress (Reverse.rev_dns_aaaa i6) (labels6 i6) af_inet6 i6
        (rev_dns_aaaa-encode i6) (AllLabels-labels6 i6)
        (ap Reverse.process_reverse_lookup (c_string-labels6 i6)
          ∙ process_reverse_lookup-nibbles i6 h size)

-- The questions fit the buffers that are allocated for them, with the NUL: that of `rev_dns_a` in 16
-- bytes and the name of the zone with a NUL, that of `rev_dns_aaaa` exactly in two bytes for each of 32
-- nibbles and the name of the zone with a NUL.
pub rev_dns-fit :
    (i4 i6 : List ℕ)
    → (length (Reverse.rev_dns_a i4) + 1 ≤ 16 + length Reverse.ip4_revstr + 1)
      × (length (Reverse.rev_dns_aaaa i6) + 1 ≡ 32 + 32 + length Reverse.ip6_revstr + 1)
unfolding Reverse.rev_dns_a Reverse.rev_dns_aaaa Reverse.rev_longs Reverse.rev_nibbles
rev_dns-fit i4 i6 = (
  omega (
    arith,
    length-rev_quads 4
        (byte_at i4 0 + 2 ^ 8 * byte_at i4 1 + 2 ^ 16 * byte_at i4 2 + 2 ^ 24 * byte_at i4 3),
    length-append
        (Reverse.rev_quads 4
          (byte_at i4 0 + 2 ^ 8 * byte_at i4 1 + 2 ^ 16 * byte_at i4 2 + 2 ^ 24 * byte_at i4 3))
        Reverse.ip4_revstr,
  ),
  refl,
)
