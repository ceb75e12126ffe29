-- ===== src/Dns/Name/Examples.antt =====
-- Packets on which the theorems about names apply.
use omphalos.Base.{◌≡◌, refl, arith, List, [], ◌∷◌, ◌++◌, ℕ, Memory, done, some, out_of_fuel}
use omphalos.Dns.Name.{strlen, string_length, extract_dns_record}
use omphalos.Dns.Name.Reading.{IsLabel, encode}
use omphalos.Dns.Name.Whole.{record_of}
use omphalos.Dns.Name.Round.{extract_dns_record-plain, extract_dns_record-compressed}
use omphalos.Dns.Name.Safe.{Returns, extract_dns_record-Returns}
use omphalos.Dns.Name.Pointer.{extract_dns_record-cycles}

abbrev ns : List ℕ
ns = 110 ∷ 115 ∷ []

abbrev x : List ℕ
x = 120 ∷ []

ns-IsLabel : IsLabel ns
ns-IsLabel = record {
  nonempty = omega arith;
  short = omega arith;
  no_nul = (omega arith, (omega arith, tt));
}

x-IsLabel : IsLabel x
x-IsLabel = record { nonempty = omega arith; short = omega arith; no_nul = (omega arith, tt) }

-- Type A and class IN.
abbrev fields : List ℕ
fields = 0 ∷ 1 ∷ 0 ∷ 1 ∷ []

-- `ns.x` behind one byte.
abbrev plain : Memory
plain = 7 ∷ encode (ns ∷ x ∷ []) ++ 0 ∷ fields

extract_dns_record-plain_example :
    extract_dns_record 0 10 1 plain
    ≡ done (some (record_of (110 ∷ 115 ∷ 46 ∷ 120 ∷ 0 ∷ []) 10 0 1 0 1))
extract_dns_record-plain_example =
    extract_dns_record-plain 0 10 1 plain (ns ∷ x ∷ []) 0 1 0 1 [] (ns-IsLabel, (x-IsLabel, tt))
      refl (omega arith)

-- `x`, and `ns` with a pointer to it.
abbrev compressed : Memory
compressed = encode (x ∷ []) ++ 0 ∷ encode (ns ∷ []) ++ 192 ∷ 0 ∷ fields

extract_dns_record-compressed_example :
    extract_dns_record 1 9 3 compressed
    ≡ done (some (record_of (110 ∷ 115 ∷ 46 ∷ 120 ∷ 0 ∷ []) 9 0 1 0 1))
extract_dns_record-compressed_example =
    extract_dns_record-compressed 0 9 3 0 compressed (ns ∷ []) x [] 0 1 0 1 []
      (encode (ns ∷ []) ++ 192 ∷ 0 ∷ fields) (ns-IsLabel, tt) (x-IsLabel, tt) refl refl
      (omega arith) (omega arith) (omega arith)

-- `x` with a pointer to itself, and a pointer to that.
abbrev cyclic : Memory
cyclic = encode (x ∷ []) ++ 192 ∷ 0 ∷ 192 ∷ 0 ∷ []

cyclic-text : strlen cyclic 0 ≡ done 3
unfolding strlen string_length
cyclic-text = refl

extract_dns_record-cycles_example : extract_dns_record 1000 2 4 cyclic ≡ out_of_fuel
extract_dns_record-cycles_example =
    extract_dns_record-cycles 1000 2 4 0 cyclic [] x [] (192 ∷ 0 ∷ []) 3 tt x-IsLabel (omega arith)
      (omega arith) refl refl cyclic-text (omega arith)

-- A pointer to the root name.
abbrev rooted : Memory
rooted = 0 ∷ 192 ∷ 0 ∷ []

-- A label that is cut off.
abbrev cut : Memory
cut = 2 ∷ 110 ∷ 0 ∷ []

extract_dns_record-Returns_example : Returns 3 (extract_dns_record 0 3 0 cut)
extract_dns_record-Returns_example =
    extract_dns_record-Returns 0 3 0 cut (refl, (refl, (refl, tt))) (omega arith)
