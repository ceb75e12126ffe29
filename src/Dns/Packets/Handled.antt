-- ===== src/Dns/Packets/Handled.antt =====
-- `handle_dns_packet` of src/omphalos/dns.c on a whole reply, with questions and with answers of type
-- PTR.
use omphalos.Base.{
  ℕ, ◌+◌, ◌≤◌, ◌≡◌, ◌≢◌, ◌⊎◌, refl, ap, ◌∙◌, arith, false, List, [], ◌∷◌, ◌++◌, length, ◌==◌, drop,
  Option, none, Memory, done,
}
use omphalos.Packet.{Packet}
use omphalos.Dns.Name.Reading.{AllLabels, encode, drop-past}
use omphalos.Dns.Name.Round.{extract_dns_record-plain}
use omphalos.Dns.Packets
use omphalos.Dns.Packets.Header.{
  Header, header_bytes, rcode_of, question_count, answer_count, start, handle_dns_packet_sections,
  after_header,
}
use omphalos.Dns.Packets.Replies.{
  Ptr, AllPtrs, ptr_bytes, ptr_size, offers, behind, answers-ptrs, past_ptr,
}

pub record Question : Type 0 where
  pub labels : List (List ℕ)
  pub t0 : ℕ
  pub t1 : ℕ
  pub c0 : ℕ
  pub c1 : ℕ

abbrev pub AllQuestions : List Question → Type 0
AllQuestions [] = Unit {0}
AllQuestions (q ∷ qs) = AllLabels q.labels × AllQuestions qs

abbrev pub question_bytes : List Question → List ℕ → List ℕ
question_bytes [] rest = rest
question_bytes (q ∷ qs) rest =
    encode q.labels ++ 0 ∷ q.t0 ∷ q.t1 ∷ q.c0 ∷ q.c1 ∷ question_bytes qs rest

abbrev pub question_size : List Question → ℕ
question_size [] = 0
question_size (q ∷ qs) = length (encode q.labels) + 5 + question_size qs

abbrev past_questions : List Question → Packets.Walk → Packets.Walk
past_questions [] w = w
past_questions (q ∷ qs) w = past_questions qs (Packets.advance (length (encode q.labels) + 5) w)

module _ (orig : Memory) (rest : List ℕ) where
  -- Where the walk is behind questions: in front of what follows them, with nothing asked.
  record Behind (n : ℕ) (w v : Packets.Walk) : Type 0 where
    at : drop v.sec orig ≡ rest
    room : n ≤ v.len
    same_cname : v.cname ≡ w.cname
    same_op : v.op ≡ w.op

  past_questions-Behind :
      (n : ℕ) (qs : List Question) (w : Packets.Walk)
      → drop w.sec orig ≡ question_bytes qs rest
      → question_size qs + n ≤ w.len
      → Behind n w (past_questions qs w)
  past_questions-Behind n [] w e room = record {
    at = e;
    room = omega arith;
    same_cname = refl;
    same_op = refl;
  }
  past_questions-Behind n (q ∷ qs) w e room =
      let next =
        past_questions-Behind n qs (Packets.advance (length (encode q.labels) + 5) w)
          (drop-past orig w.sec (encode q.labels) (0 ∷ q.t0 ∷ q.t1 ∷ q.c0 ∷ q.c1 ∷ [])
            (question_bytes qs rest) e)
          (omega arith) in
      record {
        at = next.at;
        room = next.room;
        same_cname = next.same_cname;
        same_op = next.same_op;
      }

-- The packet with the names of the answers offered.
abbrev pub replied : List Ptr → Packet → Packet
replied ps op = record op { asked = offers ps op.asked }

module _ (fuel : ℕ) (mbtowc : List ℕ → Option (ℕ × ℕ)) where
  question-ignored :
      (rcode : ℕ) (w : Packets.Walk) (r : Packets.Record)
      → rcode ≢ 3
      → Packets.question rcode r w ≡ w
  unfolding Packets.question
  question-ignored rcode w r ne = let other : (rcode == 3) ≡ false = ground arith in rw other refl

  questions-plain :
      (orig : Memory) (rcode : ℕ) (qs : List Question) (w : Packets.Walk) (rest : List ℕ)
      → rcode ≢ 3
      → AllQuestions qs
      → drop w.sec orig ≡ question_bytes qs rest
      → question_size qs ≤ w.len
      → Packets.questions fuel mbtowc orig rcode (length qs) w
        ≡ done (Packets.walked 0 (past_questions qs w))
  unfolding Packets.questions
  questions-plain orig rcode [] w rest ne h e room = refl
  questions-plain orig rcode (q ∷ qs) w rest ne h e room =
      let n = length (encode q.labels) + 5 in
      let more : (w.len == 0) ≡ false = ground arith in
      let after = question_bytes qs rest in
      rw
        (
          more,
          extract_dns_record-plain fuel w.len w.sec orig q.labels q.t0 q.t1 q.c0 q.c1 after h.0 e
              (omega arith),
          question-ignored rcode w _ ne,
        )
        (questions-plain orig rcode qs (Packets.advance n w) rest ne h.1
          (drop-past orig w.sec (encode q.labels) (0 ∷ q.t0 ∷ q.t1 ∷ q.c0 ∷ q.c1 ∷ []) after e)
          (omega arith))

  finish-behind :
      (ps : List Ptr) (p : Ptr) (w : Packets.Walk)
      → Packets.finish fuel mbtowc 0 0 (behind (p ∷ ps) w) ≡ done (replied (p ∷ ps) w.op, 1)
  unfolding Packets.finish
  finish-behind [] p w = refl
  finish-behind (q ∷ ps) p w = finish-behind ps q (past_ptr p w)

  handle_sections-reply :
      (orig : Memory) (rcode : ℕ) (qs : List Question) (p : Ptr) (ps : List Ptr) (w : Packets.Walk)
      (rest : List ℕ)
      → rcode ≢ 3
      → AllQuestions qs
      → AllPtrs (p ∷ ps)
      → w.cname ≡ none
      → drop w.sec orig ≡ question_bytes qs (ptr_bytes (p ∷ ps) rest)
      → question_size qs + ptr_size (p ∷ ps) ≤ w.len
      → Packets.handle_sections fuel mbtowc orig rcode (length qs) (length (p ∷ ps)) w
        ≡ done (replied (p ∷ ps) w.op, 1)
  unfolding Packets.handle_sections
  handle_sections-reply orig rcode qs p ps w rest ne hq hp none_yet e room =
      let after = ptr_bytes (p ∷ ps) rest in
      let v = past_questions qs w in
      let there = past_questions-Behind orig after (ptr_size (p ∷ ps)) qs w e room in
      rw
        (
          questions-plain orig rcode qs w after ne hq e (omega arith),
          answers-ptrs fuel mbtowc orig (p ∷ ps) v rest hp (there.same_cname ∙ none_yet) there.at
              there.room,
          finish-behind ps p v,
        )
        (ap (λ (op : Packet). done (replied (p ∷ ps) op, 1)) there.same_op)

  -- A reply with any response code but 3, of questions and of answers of type PTR and class IN without
  -- compression, each for a name that stands for an address, is taken as that of a name server, and has
  -- the name in each answer offered for its address as one from a reverse lookup, in the order of the
  -- answers. What follows the answers is ignored.
  pub handle_dns_packet-reply :
      (mem : Memory) (frame len : ℕ) (op : Packet) (h : Header) (qs : List Question) (p : Ptr)
      (ps : List Ptr) (rest : List ℕ)
      → (op.l3proto ≡ 0x0800) ⊎ (op.l3proto ≡ 0x86dd)
      → AllQuestions qs
      → AllPtrs (p ∷ ps)
      → drop frame mem ≡ header_bytes h ++ question_bytes qs (ptr_bytes (p ∷ ps) rest)
      → rcode_of h ≢ 3
      → question_count h ≡ length qs
      → answer_count h ≡ length (p ∷ ps)
      → 12 + question_size qs + ptr_size (p ∷ ps) ≤ len
      → Packets.handle_dns_packet fuel mbtowc mem frame len op ≡ done (replied (p ∷ ps) op, 1)
  handle_dns_packet-reply mem frame len op h qs p ps rest ip hq hp e ne qd an room =
      let after = question_bytes qs (ptr_bytes (p ∷ ps) rest) in
      handle_dns_packet_sections fuel mbtowc mem frame len h after op e ip (omega arith)
      ∙ rw (qd, an)
          (handle_sections-reply (drop frame mem) (rcode_of h) qs p ps (start len op) rest ne hq hp
            refl (after_header fuel mbtowc mem frame len h after op e) (omega arith))
