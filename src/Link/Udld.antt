-- ===== src/Link/Udld.antt =====
-- handle_udld_packet of src/omphalos/cisco.c: which chains of attributes it gets through.
use omphalos.Base.{
  ℕ, zero, suc, ◌+◌, ◌-◌, ◌≤◌, ◌<◌, ◌≡◌, refl, arith, true, ltb, ◌==◌, Memory, length, net_word_at,
  load16_net-done, out_of_fuel,
}
use omphalos.Base.Ends.{
  Stops, Stops-done, Stops-if, Stops-load16_net, loops, Ends, Ends-done, Ends-if, Ends-load16_net,
}
use omphalos.Packet.{Packet, IsValid}
use omphalos.Link.{udld_attributes, handle_udld_packet}

-- From `ua` on, `len` bytes hold attributes of which none has length 0, as far as each has a header and
-- fits; the loop stops where one does not.
pub data Attributes (mem : Memory) : ℕ → ℕ → Type 0 where
  end_of_packet : {ua : ℕ} → Attributes mem ua 0
  short : {ua len : ℕ} → len < 4 → Attributes mem ua len
  too_long : {ua len : ℕ} → len < net_word_at mem (ua + 2) → Attributes mem ua len
  attribute :
      {ua len : ℕ}
      → 1 ≤ net_word_at mem (ua + 2)
      → Attributes mem (ua + net_word_at mem (ua + 2)) (len - net_word_at mem (ua + 2))
      → Attributes mem ua len

-- Whatever the fuel, the loop does not get past an attribute of length 0.
udld_attributes-zero_length :
    (fuel : ℕ) (mem : Memory) (ua len : ℕ) (op : Packet)
    → 4 ≤ len
    → ua + len ≤ length mem
    → net_word_at mem (ua + 2) ≡ 0
    → udld_attributes fuel mem ua len op ≡ out_of_fuel
unfolding udld_attributes
udld_attributes-zero_length zero mem ua len op long inside empty = refl
udld_attributes-zero_length (suc fuel) mem ua len op long inside empty =
    let again = udld_attributes-zero_length fuel mem ua len op long inside empty in
    ground (arith, load16_net-done mem (ua + 2) (omega arith), again)

-- A frame of UDLD in memory whose first attribute has a header, with length 0, keeps
-- handle_udld_packet in its loop for ever: it does not end after any number of rounds.
pub handle_udld_packet-zero_length :
    (fuel : ℕ) (mem : Memory) (frame len : ℕ) (op : Packet)
    → 8 ≤ len
    → frame + len ≤ length mem
    → net_word_at mem (frame + 6) ≡ 0
    → handle_udld_packet fuel mem frame len op ≡ out_of_fuel
unfolding handle_udld_packet
handle_udld_packet-zero_length fuel mem frame len op long inside empty =
    let stuck =
      udld_attributes-zero_length fuel mem (frame + 4) (len - 4) op (omega arith) (omega arith)
        (grind arith) in
    ground arith

-- A round of the loop ends where the rounds behind it do.
round-Ends :
    (mem : Memory) (ua len fuel : ℕ) (op : Packet)
    → ua + len ≤ length mem
    → IsValid op
    → (4 ≤ len
        → net_word_at mem (ua + 2) ≤ len
        → Ends IsValid (
            udld_attributes fuel mem
              (ua + net_word_at mem (ua + 2))
              (len - net_word_at mem (ua + 2))
              op))
    → Ends IsValid (udld_attributes (suc fuel) mem ua len op)
unfolding udld_attributes
round-Ends mem ua len fuel op inside valid behind =
    Ends-if (len == 0) (λ _. Ends-done valid)
      (λ more.
        Ends-if (ltb len 4) (λ _. Ends-done valid)
          (λ header. Ends-load16_net mem (ua + 2) (ground arith) (λ alen at. rw at (
            Ends-if (ltb len (net_word_at mem (ua + 2))) (λ _. Ends-done valid)
              (λ fits. behind (ground arith) (ground arith))))))

udld_attributes-Ends :
    (mem : Memory) (fuel ua len : ℕ) (op : Packet)
    → Attributes mem ua len
    → ua + len ≤ length mem
    → len < fuel
    → IsValid op
    → Ends IsValid (udld_attributes fuel mem ua len op)
unfolding udld_attributes
udld_attributes-Ends mem zero ua len op chain inside enough valid = absurd (omega arith)
udld_attributes-Ends mem (suc fuel) ua _ op end_of_packet inside enough valid = Ends-done valid
udld_attributes-Ends mem (suc fuel) ua len op (short h) inside enough valid =
    round-Ends mem ua len fuel op inside valid (λ long _. absurd (omega arith))
udld_attributes-Ends mem (suc fuel) ua len op (too_long h) inside enough valid =
    round-Ends mem ua len fuel op inside valid (λ _ fits. absurd (omega arith))
udld_attributes-Ends mem (suc fuel) ua len op (attribute h chain) inside enough valid =
    round-Ends mem ua len fuel op inside valid
      (λ _ fits. udld_attributes-Ends mem fuel _ _ op chain (omega arith) (omega arith) valid)

-- A frame of UDLD in memory whose attributes have no length 0, as far as the loop looks at them, is
-- gone through in as many rounds as it has bytes, and the packet stays valid.
pub handle_udld_packet-Attributes :
    (mem : Memory) (frame len : ℕ) (op : Packet)
    → frame + len ≤ length mem
    → Attributes mem (frame + 4) (len - 4)
    → IsValid op
    → Ends IsValid (handle_udld_packet (len + 1) mem frame len op)
unfolding handle_udld_packet
handle_udld_packet-Attributes mem frame len op inside chain valid =
    Ends-if (ltb len 4) (λ _. Ends-done valid)
      (λ header.
        udld_attributes-Ends mem (len + 1) (frame + 4) (len - 4) op chain (ground arith)
          (omega arith) valid)

-- Whatever the fuel and the attributes, nothing outside the frame is read.
udld_attributes-Stops :
    (fuel : ℕ) (mem : Memory) (ua len : ℕ) (op : Packet)
    → ua + len ≤ length mem
    → IsValid op
    → Stops true IsValid (udld_attributes fuel mem ua len op)
unfolding udld_attributes
udld_attributes-Stops zero mem ua len op inside valid = loops refl refl
udld_attributes-Stops (suc fuel) mem ua len op inside valid =
    Stops-if (len == 0) (λ _. Stops-done valid)
      (λ more.
        Stops-if (ltb len 4) (λ _. Stops-done valid)
          (λ header. Stops-load16_net mem (ua + 2) (ground arith) (λ alen _.
            Stops-if (ltb len alen) (λ _. Stops-done valid)
              (λ fits.
                udld_attributes-Stops fuel mem (ua + alen) (len - alen) op (ground arith) valid))))

pub handle_udld_packet-Stops :
    (fuel : ℕ) (mem : Memory) (frame len : ℕ) (op : Packet)
    → frame + len ≤ length mem
    → IsValid op
    → Stops true IsValid (handle_udld_packet fuel mem frame len op)
unfolding handle_udld_packet
handle_udld_packet-Stops fuel mem frame len op inside valid =
    Stops-if (ltb len 4) (λ _. Stops-done valid)
      (λ header. udld_attributes-Stops fuel mem (frame + 4) (len - 4) op (ground arith) valid)
