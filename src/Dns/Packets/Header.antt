-- ===== src/Dns/Packets/Header.antt =====
-- `handle_dns_packet` of src/omphalos/dns.c behind the header of a packet.
use omphalos.Base.{
  ℕ, ◌+◌, ◌-◌, ◌*◌, ◌%◌, ◌≤◌, ◌≡◌, ◌⊎◌, inl, inr, refl, arith, false, not, ◌&&◌, List, [], ◌∷◌,
  ◌++◌, ltb, ◌==◌, drop, Option, none, Memory,
}
use omphalos.Packet.{Packet}
use omphalos.Dns.Name.Reading.{drop-skip, load16_net-at}
use omphalos.Dns.Packets

-- The bytes of the header, the counts with the high byte first.
pub record Header : Type 0 where
  pub id0 : ℕ
  pub id1 : ℕ
  pub f0 : ℕ
  pub f1 : ℕ
  pub qh : ℕ
  pub ql : ℕ
  pub ah : ℕ
  pub al : ℕ
  pub n0 : ℕ
  pub n1 : ℕ
  pub n2 : ℕ
  pub n3 : ℕ

abbrev pub header_bytes : Header → List ℕ
header_bytes h =
    h.id0 ∷ h.id1 ∷ h.f0 ∷ h.f1 ∷ h.qh ∷ h.ql ∷ h.ah ∷ h.al ∷ h.n0 ∷ h.n1 ∷ h.n2 ∷ h.n3 ∷ []

abbrev pub rcode_of : Header → ℕ
rcode_of h = (256 * h.f0 + h.f1) % 8

abbrev pub question_count : Header → ℕ
question_count h = 256 * h.qh + h.ql

abbrev pub answer_count : Header → ℕ
answer_count h = 256 * h.ah + h.al

abbrev pub start : ℕ → Packet → Packets.Walk
start len op = record { sec = 12; len = len - 12; server = false; cname = none; op = op }

module _ (fuel : ℕ) (mbtowc : List ℕ → Option (ℕ × ℕ)) (mem : Memory) (frame len : ℕ) (h : Header)
    (after : List ℕ) (op : Packet) (e : drop frame mem ≡ header_bytes h ++ after) where
  pub after_header : drop 12 (drop frame mem) ≡ after
  after_header = drop-skip (drop frame mem) 0 (header_bytes h) after e

  pub handle_dns_packet_sections :
      (op.l3proto ≡ 0x0800) ⊎ (op.l3proto ≡ 0x86dd)
      → 12 ≤ len
      → Packets.handle_dns_packet fuel mbtowc mem frame len op
        ≡ Packets.handle_sections fuel mbtowc
            (drop frame mem)
            (rcode_of h)
            (question_count h)
            (answer_count h)
            (start len op)
  unfolding Packets.handle_dns_packet
  handle_dns_packet_sections ip room =
      let long : ltb len 12 ≡ false = ground arith in
      let known : (not (op.l3proto == 0x0800) && not (op.l3proto == 0x86dd)) ≡ false = elim ip [
        | inl v4 ↦ ground arith
        | inr v6 ↦ ground arith
      ] in
      let orig = drop frame mem in
      let counts = h.ah ∷ h.al ∷ h.n0 ∷ h.n1 ∷ h.n2 ∷ h.n3 ∷ after in
      rw
        (
          long,
          known,
          load16_net-at orig 2 h.f0 h.f1 (h.qh ∷ h.ql ∷ counts)
              (drop-skip orig 0 (h.id0 ∷ h.id1 ∷ []) (h.f0 ∷ h.f1 ∷ h.qh ∷ h.ql ∷ counts) e),
          load16_net-at orig 4 h.qh h.ql counts
              (drop-skip orig 0 (h.id0 ∷ h.id1 ∷ h.f0 ∷ h.f1 ∷ []) (h.qh ∷ h.ql ∷ counts) e),
          load16_net-at orig 6 h.ah h.al (h.n0 ∷ h.n1 ∷ h.n2 ∷ h.n3 ∷ after)
              (drop-skip orig 0 (h.id0 ∷ h.id1 ∷ h.f0 ∷ h.f1 ∷ h.qh ∷ h.ql ∷ []) counts e),
        )
        refl
