-- ===== src/Dns/Packets/Replies.antt =====
-- Replies with answers of type PTR, without compression: every name is offered for its address.
use omphalos.Base.{
  ℕ, ◌+◌, ◌-◌, ◌*◌, ◌≤◌, ◌≡◌, refl, ap, ◌∙◌, arith, true, false, List, [], ◌∷◌, ◌++◌, length, ◌==◌,
  drop, Option, none, some, Memory, done,
}
use omphalos.Packet.{Ask, offer}
use omphalos.Dns.Name.{Record}
use omphalos.Dns.Name.Plain.{dotted}
use omphalos.Dns.Name.Reading.{AllLabels, encode, drop-skip, drop-past}
use omphalos.Dns.Name.Round.{extract_dns_record-plain}
use omphalos.Dns.Name.Whole.{record_of}
use omphalos.Dns.Extra.Plain.{extract_dns_extra-ptr}
use omphalos.Dns.Reverse.{c_string, process_reverse_lookup}
use omphalos.Dns.Packets

-- An answer of type PTR and class IN: the name of the lookup, the address that it stands for, the time
-- to live, the length of the data and the name that the address has.
pub record Ptr : Type 0 where
  pub lookup : List (List ℕ)
  pub fam : ℕ
  pub addr : List ℕ
  pub t0 : ℕ
  pub t1 : ℕ
  pub t2 : ℕ
  pub t3 : ℕ
  pub hi : ℕ
  pub lo : ℕ
  pub name : List (List ℕ)

pub record IsPtr (p : Ptr) : Type 0 where
  pub lookup_labels : AllLabels p.lookup
  pub name_labels : AllLabels p.name
  pub stands_for : process_reverse_lookup (c_string (dotted p.lookup)) ≡ some (p.fam, p.addr)
  pub size : 256 * p.hi + p.lo ≡ length (encode p.name) + 1

abbrev pub AllPtrs : List Ptr → Type 0
AllPtrs [] = Unit {0}
AllPtrs (p ∷ ps) = IsPtr p × AllPtrs ps

-- The bytes of answers.
abbrev pub ptr_data : Ptr → List ℕ → List ℕ
ptr_data p rest = p.t0 ∷ p.t1 ∷ p.t2 ∷ p.t3 ∷ p.hi ∷ p.lo ∷ (encode p.name ++ 0 ∷ rest)

abbrev pub ptr_bytes : List Ptr → List ℕ → List ℕ
ptr_bytes [] rest = rest
ptr_bytes (p ∷ ps) rest = encode p.lookup ++ 0 ∷ 0 ∷ 12 ∷ 0 ∷ 1 ∷ ptr_data p (ptr_bytes ps rest)

abbrev pub ptr_size : List Ptr → ℕ
ptr_size [] = 0
ptr_size (p ∷ ps) = length (encode p.lookup) + 5 + (length (encode p.name) + 7) + ptr_size ps

-- What is asked for: the name of each answer, for its address, the last answer first.
abbrev pub offers : List Ptr → List Ask → List Ask
offers [] asked = asked
offers (p ∷ ps) asked =
    offers ps (offer p.fam p.addr (c_string (dotted p.name)) Packets.naming_level_revdns ∷ asked)

-- The walk with the name of an answer offered, and the walk behind answers.
abbrev pub offered : Ptr → Packets.Walk → Packets.Walk
offered p w = record w {
  server = true;
  cname = none;
  op = record w.op {
    asked = offer p.fam p.addr (c_string (dotted p.name)) Packets.naming_level_revdns ∷ w.op.asked;
  };
}

abbrev pub past_ptr : Ptr → Packets.Walk → Packets.Walk
past_ptr p w =
    Packets.advance (6 + (length (encode p.name) + 1))
      (offered p (Packets.advance (length (encode p.lookup) + 5) w))

abbrev pub behind : List Ptr → Packets.Walk → Packets.Walk
behind [] w = w
behind (p ∷ ps) w = behind ps (past_ptr p w)

abbrev record_of_ptr : Ptr → Record
record_of_ptr p = record_of (dotted p.lookup) (length (encode p.lookup) + 5) 0 12 0 1

module _ (fuel : ℕ) (mbtowc : List ℕ → Option (ℕ × ℕ)) (orig : Memory) where
  answer-ptr :
      (p : Ptr) (w : Packets.Walk)
      → IsPtr p
      → w.cname ≡ none
      → Packets.answer fuel mbtowc (record_of_ptr p) (dotted p.name) w
        ≡ done (Packets.walked 0 (offered p w))
  unfolding Packets.answer Packets.answer_ptr Packets.matching
  answer-ptr p w h none_yet =
      rw (Packets.answer_ptr, Packets.matching, none_yet, h.stands_for)
        (ap
          (λ (c : Option Packets.Cname).
            done (Packets.walked 0 (record (offered p w) { cname = c })))
          none_yet)

  pub answers-ptrs :
      (ps : List Ptr) (w : Packets.Walk) (rest : List ℕ)
      → AllPtrs ps
      → w.cname ≡ none
      → drop w.sec orig ≡ ptr_bytes ps rest
      → ptr_size ps ≤ w.len
      → Packets.answers fuel mbtowc orig (length ps) w ≡ done (Packets.walked 0 (behind ps w))
  unfolding Packets.answers
  answers-ptrs [] w rest h none_yet e room = refl
  answers-ptrs (p ∷ ps) w rest h none_yet e room =
      let n = length (encode p.lookup) + 5 in
      let more : (w.len == 0) ≡ false = ground arith in
      let after = ptr_bytes ps rest in
      let at : drop (w.sec + n) orig ≡ ptr_data p after =
        drop-past orig w.sec (encode p.lookup) (0 ∷ 0 ∷ 12 ∷ 0 ∷ 1 ∷ []) (ptr_data p after) e in
      let next : drop (w.sec + n + (6 + (length (encode p.name) + 1))) orig ≡ after =
        ap (λ (q : ℕ). drop q orig) {x = w.sec + n + (6 + (length (encode p.name) + 1))}
          {y = w.sec + n + 6 + (length (encode p.name) + 1)} (omega arith)
        ∙ drop-past orig (w.sec + n + 6) (encode p.name) (0 ∷ []) after (
            drop-skip orig (w.sec + n) (p.t0 ∷ p.t1 ∷ p.t2 ∷ p.t3 ∷ p.hi ∷ p.lo ∷ [])
              (encode p.name ++ 0 ∷ after) at) in
      rw
        (
          more,
          extract_dns_record-plain fuel w.len w.sec orig p.lookup 0 12 0 1 (ptr_data p after)
              h.0.lookup_labels e (omega arith),
          extract_dns_extra-ptr fuel (w.len - n) (w.sec + n) orig p.t0 p.t1 p.t2 p.t3 p.hi p.lo
              p.name (0 ∷ after) h.0.name_labels at h.0.size (omega arith),
          answer-ptr p (Packets.advance n w) h.0 none_yet,
        )
        (answers-ptrs ps (past_ptr p w) rest h.1 refl next (omega arith))
