-- ===== src/Netbios.antt =====
-- src/omphalos/netbios.c: the First-Level Encoding of names, two letters for each byte, and the
-- registrations that the name service is told of. Memory can be allocated.
pub mod Names
pub mod Round
use omphalos.Base.{
  ℕ, zero, suc, ◌+◌, ◌-◌, ◌*◌, ◌/◌, ◌%◌, ◌^◌, bit_and, List, [], ◌∷◌, ◌++◌, length, Option, none,
  some, Bool, true, false, not, ◌||◌, ◌&&◌, ltb, leb, ◌==◌, if◌then◌else◌, u64, Memory, Outcome,
  done, fault, ◌>>=◌, load8, load16_net,
}
use omphalos.Packet.{Packet, Ask, ask, resolution}

-- The state of the loop of first_level_decode: the bytes decoded, as many as `off`; the high half of
-- the next one, where `odd` is set; the bytes allocated; and what is left of the name and the frame.
pub record Decoding : Type 0 where
  pub decoded : List ℕ
  pub high : Option ℕ
  pub blen : ℕ
  pub slen : ℕ
  pub len : ℕ

abbrev pub is_letter : ℕ → Bool
is_letter b = leb 0x41 b && leb b 0x50

-- The buffer grows by 16 bytes where the next byte and the terminator do not fit.
pub grow : List ℕ → ℕ → ℕ
grow decoded blen = if leb blen (length decoded + 1) then blen + 16 else blen

-- What `ret[off]` becomes: the high half of a byte, or the whole.
pub store_half : Option ℕ → ℕ → Decoding → Decoding
store_half none dec s = record s { high = some (dec * 16); slen = s.slen - 1; len = s.len - 1 }
store_half (some high) dec s = record s {
  decoded = s.decoded ++ ((high + dec) ∷ []);
  high = none;
  slen = s.slen - 1;
  len = s.len - 1;
}

-- One letter, stored in `ret[off]`.
pub take_letter : ℕ → Decoding → Outcome Decoding
take_letter b s =
    let blen = grow s.decoded s.blen in
    if ltb (length s.decoded) blen
    then done (store_half s.high (b - 0x41) (record s { blen = blen }))
    else fault

-- The loop, one round for each byte of the frame.
pub letters : ℕ → Memory → ℕ → Decoding → Outcome Decoding
letters zero mem enc s = done s
letters (suc rounds) mem enc s = if s.slen == 0 then done s else do
  b ← load8 mem enc
  if is_letter b then (do s ← take_letter b s; letters rounds mem (enc + 1) s) else done s

-- Behind the loop: the frame must go on, the name must be whole and not empty, and it gets its
-- terminator.
pub finish_name : Decoding → Outcome (Option (List ℕ))
finish_name s = if s.len == 0 then done none else elim s.high [
  | some _ ↦ done none
  | none ↦
      if not (s.slen == 0)
      then done none
      else if s.blen == 0
      then done none
      else if ltb (length s.decoded) s.blen
      then done (some s.decoded)
      else fault
]

-- A `char` as a `size_t`.
abbrev pub signed_char : ℕ → ℕ
signed_char b = if ltb b 128 then b else 2 ^ 64 - 256 + b

pub first_level_decode : Memory → ℕ → ℕ → Outcome (Option (List ℕ))
first_level_decode mem enc len = if len == 0 then done none else do
  b ← load8 mem enc
  let slen = signed_char b
  if ltb len (u64 (slen + 2)) then done none else (do
    s ←
        letters (len - 1) mem (enc + 1)
          (record { decoded = []; high = none; blen = 0; slen = slen; len = len - 1 })
    finish_name s)

-- The name that a registration gives to the sender's address; the result is an `int`, and -1 is
-- `2 ^ 32 - 1`.
pub register_name : Memory → ℕ → ℕ → Packet → Outcome (Packet × ℕ)
register_name mem enc len op = do
  name ← first_level_decode mem enc len
  elim name [
    | none ↦ done (op, 2 ^ 32 - 1)
    | some name ↦ done (ask (resolution op.l3saddr name) op, 0)
  ]

pub handle_netbios_ns_packet : Memory → ℕ → ℕ → Packet → Outcome (Packet × ℕ)
handle_netbios_ns_packet mem frame len op =
    if ltb len 12 then done (record op { malformed = true }, 2 ^ 32 - 1) else do
      flags ← load16_net mem (frame + 2)
      if bit_and flags 0x7800 == 0x2800
          then register_name mem (frame + 12) (len - 12) op
          else done (op, 0)
