-- ===== src/Netbios/Names.antt =====
-- Names in First-Level Encoding are read back, and the buffer for them is never overrun.
use omphalos.Base.{
  ℕ, zero, suc, ◌+◌, ◌-◌, ◌^◌, ◌≤◌, ◌≡◌, refl, arith, List, [], ◌∷◌, length, Option, none, some,
  not, ltb, ◌==◌, u64, bit_and, Memory, done, length-append,
}
use omphalos.Base.Ends.{Ends, Ends-done, Ends-if, Ends-bind, Ends-load8, Ends-load16_net}
use omphalos.Packet.{Packet, IsValid, ask, resolution}
use omphalos.Netbios.{
  Decoding, is_letter, grow, store_half, take_letter, letters, finish_name, signed_char,
  first_level_decode, register_name, handle_netbios_ns_packet,
}

-- Between rounds: the terminator fits behind what is decoded, or nothing is allocated yet.
abbrev pub HasRoom : Decoding → Type 0
HasRoom s = (length s.decoded ≤ s.blen) × (1 ≤ s.blen → length s.decoded + 1 ≤ s.blen)

pub grow-room :
    (decoded : List ℕ) (blen : ℕ) → length decoded ≤ blen → length decoded + 2 ≤ grow decoded blen
unfolding grow
grow-room decoded blen h = ground arith

pub store_half-HasRoom :
    (high : Option ℕ) (dec : ℕ) (s : Decoding)
    → length s.decoded + 2 ≤ s.blen
    → HasRoom (store_half high dec s)
unfolding store_half
store_half-HasRoom none dec s room = (omega arith, λ _. omega arith)
store_half-HasRoom (some high) dec s room =
    let longer = length-append s.decoded ((high + dec) ∷ []) in
    (omega (arith, longer), λ _. omega (arith, longer))

take_letter-Ends : (b : ℕ) (s : Decoding) → HasRoom s → Ends HasRoom (take_letter b s)
unfolding take_letter
take_letter-Ends b s h =
    let room = grow-room s.decoded s.blen h.0 in
    Ends-if (ltb (length s.decoded) (grow s.decoded s.blen))
      (λ _.
        Ends-done
          (store_half-HasRoom s.high (b - 0x41) (record s { blen = grow s.decoded s.blen }) room))
      (λ full. absurd (ground arith))

letters-Ends :
    (mem : Memory) (rounds enc : ℕ) (s : Decoding)
    → enc + rounds ≤ length mem
    → HasRoom s
    → Ends HasRoom (letters rounds mem enc s)
unfolding letters
letters-Ends mem zero enc s inside h = Ends-done h
letters-Ends mem (suc rounds) enc s inside h =
    Ends-if (s.slen == 0) (λ _. Ends-done h)
      (λ _. Ends-load8 mem enc (omega arith) (λ b _.
        Ends-if (is_letter b)
          (λ _.
            Ends-bind (take_letter-Ends b s h)
              (λ s' h'. letters-Ends mem rounds (enc + 1) s' (omega arith) h'))
          (λ _. Ends-done h)))

finish_name-Ends :
    (high : Option ℕ) (s : Decoding)
    → s.high ≡ high
    → HasRoom s
    → Ends (λ (name : Option (List ℕ)). Unit {0}) (finish_name s)
unfolding finish_name
finish_name-Ends (some high) s e h =
    Ends-if (s.len == 0) (λ _. Ends-done tt) (λ _. rw e (Ends-done tt))
finish_name-Ends none s e h =
    Ends-if (s.len == 0) (λ _. Ends-done tt)
      (λ _. rw e (
        Ends-if (not (s.slen == 0)) (λ _. Ends-done tt)
          (λ _.
            Ends-if (s.blen == 0) (λ _. Ends-done tt)
              (λ some_room.
                Ends-if (ltb (length s.decoded) s.blen) (λ _. Ends-done tt)
                  (λ full. absurd (ground arith))))))

first_level_decode-Ends :
    (mem : Memory) (enc len : ℕ)
    → enc + len ≤ length mem
    → Ends (λ (name : Option (List ℕ)). Unit {0}) (first_level_decode mem enc len)
unfolding first_level_decode
first_level_decode-Ends mem enc len inside =
    Ends-if (len == 0) (λ _. Ends-done tt)
      (λ more. Ends-load8 mem enc (ground arith) (λ b _.
        Ends-if (ltb len (u64 (signed_char b + 2))) (λ _. Ends-done tt)
          (λ _.
            Ends-bind
              (letters-Ends mem (len - 1) (enc + 1)
                (record {
                  decoded = [];
                  high = none;
                  blen = 0;
                  slen = signed_char b;
                  len = len - 1;
                })
                (ground arith) (omega arith, λ h. omega arith))
              (λ s h. finish_name-Ends s.high s refl h))))

register_name-Ends :
    (mem : Memory) (enc len : ℕ) (op : Packet)
    → enc + len ≤ length mem
    → IsValid op
    → Ends (λ (r : Packet × ℕ). IsValid r.0) (register_name mem enc len op)
unfolding register_name
register_name-Ends mem enc len op inside valid =
    Ends-bind (first_level_decode-Ends mem enc len inside) named
  where
    named :
        (name : Option (List ℕ))
        → Unit {0}
        → Ends
            (λ (r : Packet × ℕ). IsValid r.0)
            (elim name [
              | none ↦ done (op, 2 ^ 32 - 1)
              | some name ↦ done (ask (resolution op.l3saddr name) op, 0)
            ])
    named none _ = Ends-done valid
    named (some name) _ = Ends-done (valid.0, valid.1, (tt, valid.2))

-- On any frame in memory handle_netbios_ns_packet ends, reads nothing outside the frame, writes
-- nothing outside the buffer of the name that it decodes, and keeps the packet valid.
pub handle_netbios_ns_packet-IsValid :
    (mem : Memory) (frame len : ℕ) (op : Packet)
    → frame + len ≤ length mem
    → IsValid op
    → Ends (λ (r : Packet × ℕ). IsValid r.0) (handle_netbios_ns_packet mem frame len op)
unfolding handle_netbios_ns_packet
handle_netbios_ns_packet-IsValid mem frame len op inside valid =
    Ends-if (ltb len 12) (λ _. Ends-done valid)
      (λ long. Ends-load16_net mem (frame + 2) (ground arith) (λ flags _.
        Ends-if (bit_and flags 0x7800 == 0x2800)
          (λ _. register_name-Ends mem (frame + 12) (len - 12) op (ground arith) valid)
          (λ _. Ends-done valid)))
