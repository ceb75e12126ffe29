-- ===== src/Dns/Reverse/Examples.antt =====
-- Addresses whose reverse lookups are read back.
use omphalos.Base.{ℕ, ◌∷◌, [], ◌++◌, List, ◌≡◌, ◌≤◌, ◌+◌, refl, arith, length, Memory}
use omphalos.Packet.{af_inet, af_inet6}
use omphalos.Packet.Sample.{are_bytes-IsBytes}
use omphalos.Dns.Name.{extract_dns_record}
use omphalos.Dns.Reverse.{
  rev_dns_a, rev_quads, decimal, rev_dns_aaaa, rev_longs, rev_nibbles, ip4_revstr, ip6_revstr,
}
use omphalos.Dns.Reverse.Question.{
  NamesAddress, rev_dns_a-NamesAddress, rev_dns_aaaa-NamesAddress, rev_dns-fit,
}

-- Type PTR and class IN.
abbrev fields : List ℕ
fields = 0 ∷ 0 ∷ 12 ∷ 0 ∷ 1 ∷ []

abbrev question4 : Memory
question4 = rev_dns_a (192 ∷ 0 ∷ 2 ∷ 33 ∷ []) ++ fields

size4 : length (rev_dns_a (192 ∷ 0 ∷ 2 ∷ 33 ∷ [])) + 5 ≤ 40
unfolding rev_dns_a rev_quads decimal
size4 = omega arith

rev_dns_a-NamesAddress_example :
    NamesAddress af_inet (192 ∷ 0 ∷ 2 ∷ 33 ∷ []) (extract_dns_record 0 40 0 question4)
rev_dns_a-NamesAddress_example =
    rev_dns_a-NamesAddress 0 40 0 question4 0 12 0 1 [] 192 0 2 33 (omega arith) (omega arith)
      (omega arith) (omega arith) refl size4

-- 2001:db8::42
abbrev address6 : List ℕ
address6 = 0x20 ∷ 0x01 ∷ 0x0d ∷ 0xb8 ∷ 0 ∷ 0 ∷ 0 ∷ 0 ∷ 0 ∷ 0 ∷ 0 ∷ 0 ∷ 0 ∷ 0 ∷ 0 ∷ 0x42 ∷ []

abbrev question6 : Memory
question6 = rev_dns_aaaa address6 ++ fields

size6 : length (rev_dns_aaaa address6) + 5 ≤ 80
unfolding rev_dns_aaaa rev_longs rev_nibbles
size6 = omega arith

rev_dns_aaaa-NamesAddress_example :
    NamesAddress af_inet6 address6 (extract_dns_record 0 80 0 question6)
rev_dns_aaaa-NamesAddress_example =
    rev_dns_aaaa-NamesAddress 0 80 0 question6 0 12 0 1 [] address6
      (are_bytes-IsBytes address6 refl) refl refl size6

rev_dns-fit_example :
    (length (rev_dns_a address6) + 1 ≤ 16 + length ip4_revstr + 1)
    × (length (rev_dns_aaaa address6) + 1 ≡ 32 + 32 + length ip6_revstr + 1)
rev_dns-fit_example = rev_dns-fit address6 address6
