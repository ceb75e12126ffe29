-- ===== src/Dns/Packets/Short.antt =====
-- Answers that `handle_dns_packet` of src/omphalos/dns.c does not handle well: an address that is too
-- short, and a mail exchange at the end of the packet.
use omphalos.Base.{
  ℕ, suc, ◌+◌, ◌-◌, ◌^◌, ◌<◌, ◌≤◌, ◌≡◌, ◌⊎◌, refl, ◌∙◌, arith, true, false, List, [], ◌∷◌, ◌++◌,
  length, ◌==◌, drop, Option, some, Memory, done, fault, load8, load_bytes,
}
use omphalos.Packet.{Packet}
use omphalos.Dns.Name.{extract_dns_record}
use omphalos.Dns.Name.Plain.{dotted}
use omphalos.Dns.Name.Reading.{AllLabels, encode, drop-past}
use omphalos.Dns.Name.Round.{extract_dns_record-plain}
use omphalos.Dns.Name.Whole.{record_of}
use omphalos.Dns.Extra.Raw.{extract_dns_extra-address, extract_dns_extra-exchange}
use omphalos.Dns.Packets
use omphalos.Dns.Packets.Header.{
  Header, header_bytes, question_count, answer_count, start, handle_dns_packet_sections,
  after_header,
}

load_bytes-short : (bytes : List ℕ) → length bytes < 4 → load_bytes bytes 0 4 ≡ fault
unfolding load_bytes load8
load_bytes-short [] h = refl
load_bytes-short (a ∷ []) h = refl
load_bytes-short (a ∷ b ∷ []) h = refl
load_bytes-short (a ∷ b ∷ c ∷ []) h = refl
load_bytes-short (a ∷ b ∷ c ∷ d ∷ bytes) h = absurd (omega arith)

-- An answer behind its name: type and class, time to live, length and data.
abbrev pub answer_bytes : List (List ℕ) → ℕ → List ℕ → List ℕ → List ℕ → List ℕ
answer_bytes name type ttl rdata rest =
    encode name ++ 0 ∷ 0 ∷ type ∷ 0 ∷ 1 ∷ (ttl ++ 0 ∷ length rdata ∷ (rdata ++ rest))

module _ (fuel : ℕ) (mbtowc : List ℕ → Option (ℕ × ℕ)) (orig : Memory) (name : List (List ℕ))
    (t0 t1 t2 t3 : ℕ) (rdata rest : List ℕ) (labels : AllLabels name) (an : ℕ)
    (w : Packets.Walk) where
  abbrev pub one_answer : ℕ → List ℕ
  one_answer type = answer_bytes name type (t0 ∷ t1 ∷ t2 ∷ t3 ∷ []) rdata rest

  abbrev n : ℕ
  n = length (encode name) + 5

  module _ (type : ℕ) (e : drop w.sec orig ≡ one_answer type) where
    rdata-at : drop (w.sec + n) orig ≡ t0 ∷ t1 ∷ t2 ∷ t3 ∷ 0 ∷ length rdata ∷ (rdata ++ rest)
    rdata-at = drop-past orig w.sec (encode name) (0 ∷ 0 ∷ type ∷ 0 ∷ 1 ∷ []) _ e

    record-at :
        n ≤ w.len
        → extract_dns_record fuel w.len w.sec orig
          ≡ done (some (record_of (dotted name) n 0 type 0 1))
    record-at = extract_dns_record-plain fuel w.len w.sec orig name 0 type 0 1 _ labels e

  answers-short :
      drop w.sec orig ≡ one_answer 1
      → length rdata < 4
      → n + (length rdata + 6) ≤ w.len
      → Packets.answers fuel mbtowc orig (suc an) w ≡ fault
  unfolding Packets.answers Packets.answer Packets.answer_address
  answers-short e short room =
      let more : (w.len == 0) ≡ false = ground arith in
      rw
        (
          more,
          record-at 1 e (omega arith),
          extract_dns_extra-address fuel (w.len - n) (w.sec + n) orig t0 t1 t2 t3 rdata rest
              (rdata-at 1 e) (omega arith),
          load_bytes-short rdata short,
        )
        refl

  answers-exchange :
      drop w.sec orig ≡ one_answer 15
      → n + 6 ≤ w.len
      → w.len < n + (length rdata + 8)
      → Packets.answers fuel mbtowc orig (suc an) w ≡ done (Packets.malformed w.op)
  unfolding Packets.answers
  answers-exchange e room cut =
      let more : (w.len == 0) ≡ false = ground arith in
      rw
        (
          more,
          record-at 15 e (omega arith),
          extract_dns_extra-exchange fuel (w.len - n) (w.sec + n) orig t0 t1 t2 t3 rdata rest
              (rdata-at 15 e) (omega arith) (omega arith),
        )
        refl

module _ (fuel : ℕ) (mbtowc : List ℕ → Option (ℕ × ℕ)) (mem : Memory) (frame len : ℕ) (op : Packet)
    (h : Header) (name : List (List ℕ)) (t0 t1 t2 t3 : ℕ) (rdata rest : List ℕ) (an : ℕ) where
  -- A packet without questions whose first answer has the type A, class IN, a name without
  -- compression and fewer than four bytes of data makes the handler read an address out of the bounds
  -- of the copy of the data.
  pub handle_dns_packet-short_address :
      (op.l3proto ≡ 0x0800) ⊎ (op.l3proto ≡ 0x86dd)
      → AllLabels name
      → drop frame mem ≡ header_bytes h ++ answer_bytes name 1 (t0 ∷ t1 ∷ t2 ∷ t3 ∷ []) rdata rest
      → question_count h ≡ 0
      → answer_count h ≡ suc an
      → length rdata < 4
      → 12 + length (encode name) + length rdata + 11 ≤ len
      → Packets.handle_dns_packet fuel mbtowc mem frame len op ≡ fault
  unfolding Packets.handle_sections Packets.questions
  handle_dns_packet-short_address ip labels e qd count short room =
      let after = answer_bytes name 1 (t0 ∷ t1 ∷ t2 ∷ t3 ∷ []) rdata rest in
      handle_dns_packet_sections fuel mbtowc mem frame len h after op e ip (omega arith)
      ∙ rw
          (
            qd,
            count,
            answers-short fuel mbtowc (drop frame mem) name t0 t1 t2 t3 rdata rest labels an
                (start len op) (after_header fuel mbtowc mem frame len h after op e) short
                (omega arith),
          )
          refl

  -- A packet without questions whose first answer has the type MX, class IN and a name without
  -- compression, and ends with the data of that answer, is called malformed.
  pub handle_dns_packet-last_exchange :
      (op.l3proto ≡ 0x0800) ⊎ (op.l3proto ≡ 0x86dd)
      → AllLabels name
      → drop frame mem ≡ header_bytes h ++ answer_bytes name 15 (t0 ∷ t1 ∷ t2 ∷ t3 ∷ []) rdata rest
      → question_count h ≡ 0
      → answer_count h ≡ suc an
      → 12 + length (encode name) + length rdata + 11 ≡ len
      → Packets.handle_dns_packet fuel mbtowc mem frame len op
        ≡ done (record op { malformed = true }, 2 ^ 32 - 1)
  unfolding Packets.handle_sections Packets.questions Packets.rejects
  handle_dns_packet-last_exchange ip labels e qd count size =
      let after = answer_bytes name 15 (t0 ∷ t1 ∷ t2 ∷ t3 ∷ []) rdata rest in
      handle_dns_packet_sections fuel mbtowc mem frame len h after op e ip (omega arith)
      ∙ rw
          (
            qd,
            count,
            answers-exchange fuel mbtowc (drop frame mem) name t0 t1 t2 t3 rdata rest labels an
                (start len op) (after_header fuel mbtowc mem frame len h after op e) (omega arith)
                (omega arith),
          )
          refl
