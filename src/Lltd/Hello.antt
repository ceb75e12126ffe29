-- ===== src/Lltd/Hello.antt =====
-- A Hello of LLTD that is too short for its header.
use omphalos.Base.{
  ℕ, zero, suc, ◌+◌, ◌-◌, ◌^◌, ◌≤◌, ◌<◌, ◌≡◌, refl, arith, List, Option, none, true, false, ◌||◌,
  ltb, ◌==◌, u64, Memory, length, byte_at, fault, load8-done, load8_fault,
}
use omphalos.Packet.{Packet}
use omphalos.Lltd.{
  Found, tlvs, handle_lltd_tlvs, discovery, handle_lltd_discovery, handle_lltd_packet,
}

module _ (iconv : List ℕ → Option (List ℕ)) where
  tlvs-outside :
      (fuel : ℕ) (mem : Memory) (tlv len : ℕ) (found : Found)
      → 0 < fuel
      → 2 ≤ len
      → length mem ≤ tlv + 1
      → tlvs iconv fuel mem tlv len found ≡ fault
  unfolding tlvs
  tlvs-outside zero mem tlv len found some_fuel more outside = absurd (omega arith)
  tlvs-outside (suc fuel) mem tlv len found some_fuel more outside =
      let goes_on : ltb len 2 ≡ false = ground arith in
      rw (goes_on, load8_fault mem (tlv + 1) outside) refl

-- Where the frame ends the memory, a Hello of topology or quick discovery that holds the base header,
-- but not the 14 bytes of its own header, makes handle_lltd_packet read outside the memory: the length
-- of what is behind that header wraps around.
pub handle_lltd_packet-short_hello :
    (iconv : List ℕ → Option (List ℕ)) (mem : Memory) (frame len tos : ℕ) (op : Packet)
    → frame + len ≡ length mem
    → 18 ≤ len
    → len < 32
    → byte_at mem frame ≡ 1
    → byte_at mem (frame + 1) ≡ tos
    → tos < 2
    → byte_at mem (frame + 3) ≡ 1
    → handle_lltd_packet iconv mem frame len op ≡ fault
unfolding handle_lltd_packet handle_lltd_discovery discovery handle_lltd_tlvs
handle_lltd_packet-short_hello iconv mem frame len tos op ended base short version type known
      hello =
    let left : ℕ = u64 (len - 4 - 14 + 2 ^ 64 - 14) in
    let outside =
      tlvs-outside iconv (left + 1) mem (frame + 4 + 14 + 14) left
        (record { ip = none; ip6 = none; name = none }) (omega arith) (omega arith) (omega arith) in
    let whole : ltb len 4 ≡ false = ground arith in
    let has_base : ltb (len - 4) 14 ≡ false = ground arith in
    let topology : ((tos == 0) || (tos == 1)) ≡ true = ground arith in
    rw
      (
        whole,
        load8-done mem frame (omega arith),
        version,
        load8-done mem (frame + 1) (omega arith),
        type,
        topology,
        load8-done mem (frame + 3) (omega arith),
        hello,
        has_base,
        outside,
      )
      refl
