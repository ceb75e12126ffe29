-- ===== src/Netbios/Round.antt =====
-- A name in First-Level Encoding is read back.
use omphalos.Base.{
  ℕ, zero, suc, ◌+◌, ◌-◌, ◌*◌, ◌/◌, ◌%◌, ◌≤◌, ◌<◌, ◌≡◌, refl, ap, sym, ◌∙◌, arith, List, [], ◌∷◌,
  ◌++◌, length, none, some, true, false, ltb, ◌==◌, u64, Memory, byte_at, done, load8-done,
  length-append, append_assoc,
}
use omphalos.Base.Ends.{Ends, Ends-done}
use omphalos.Netbios.{
  Decoding, is_letter, grow, store_half, take_letter, letters, finish_name, first_level_decode,
}
use omphalos.Netbios.Names.{grow-room, HasRoom}

-- From `enc` on, the letters of a name: for each byte its high and its low half, from `A` on.
abbrev pub Encoded : Memory → ℕ → List ℕ → Type 0
Encoded mem enc [] = Unit {0}
Encoded mem enc (b ∷ name) =
    (b < 256)
    × (byte_at mem enc ≡ 0x41 + b / 16)
    × (byte_at mem (enc + 1) ≡ 0x41 + b % 16)
    × Encoded mem (enc + 2) name

-- A round on a letter.
round-letter :
    (mem : Memory) (rounds enc : ℕ) (s : Decoding)
    → enc < length mem
    → 1 ≤ s.slen
    → is_letter (byte_at mem enc) ≡ true
    → length s.decoded ≤ s.blen
    → letters (suc rounds) mem enc s
      ≡ letters rounds mem
          (enc + 1)
          (store_half s.high (byte_at mem enc - 0x41) (record s { blen = grow s.decoded s.blen }))
unfolding letters take_letter
round-letter mem rounds enc s inside more letter room =
    let going : (s.slen == 0) ≡ false = ground arith in
    let fits : ltb (length s.decoded) (grow s.decoded s.blen) ≡ true =
      ground (arith, grow-room s.decoded s.blen room) in
    rw (going, load8-done mem enc inside, letter, fits) refl

append_nil : (xs : List ℕ) → xs ++ [] ≡ xs
append_nil [] = refl
append_nil (x ∷ xs) = ap (λ l. x ∷ l) (append_nil xs)

abbrev state : List ℕ → ℕ → ℕ → ℕ → Decoding
state decoded blen slen len = record {
  decoded = decoded;
  high = none;
  blen = blen;
  slen = slen;
  len = len;
}

-- The state behind the letters of a name.
abbrev HasRead : List ℕ → ℕ → Decoding → Type 0
HasRead decoded len s =
    (s.decoded ≡ decoded) × (s.high ≡ none) × (s.slen ≡ 0) × (s.len ≡ len) × HasRoom s

letters-stop :
    (mem : Memory) (rounds enc : ℕ) (s : Decoding) → s.slen ≡ 0 → letters rounds mem enc s ≡ done s
unfolding letters
letters-stop mem zero enc s h = refl
letters-stop mem (suc rounds) enc s h = rw h refl

-- The two letters of a byte.
letters-byte :
    (mem : Memory) (rounds enc : ℕ) (decoded : List ℕ) (blen slen len b : ℕ)
    → enc + 1 < length mem
    → 2 ≤ slen
    → b < 256
    → byte_at mem enc ≡ 0x41 + b / 16
    → byte_at mem (enc + 1) ≡ 0x41 + b % 16
    → length decoded ≤ blen
    → letters (suc (suc rounds)) mem enc (state decoded blen slen len)
      ≡ letters rounds mem (enc + 2) (
          state
            (decoded ++ (b ∷ []))
            (grow decoded (grow decoded blen))
            (slen - 1 - 1)
            (len - 1 - 1))
unfolding store_half
letters-byte mem rounds enc decoded blen slen len b inside more small high low room =
    let first =
      round-letter mem (suc rounds) enc (state decoded blen slen len) (omega arith) (omega arith)
        (ground arith) room in
    let grown = grow-room decoded blen room in
    let second =
      round-letter mem rounds (enc + 1)
        (record {
          decoded = decoded;
          high = some ((byte_at mem enc - 0x41) * 16);
          blen = grow decoded blen;
          slen = slen - 1;
          len = len - 1;
        })
        (omega arith) (omega arith) (ground arith) (omega arith) in
    let whole : (byte_at mem enc - 0x41) * 16 + (byte_at mem (enc + 1) - 0x41) ≡ b = omega arith in
    let two : enc + 1 + 1 ≡ enc + 2 = omega arith in first ∙ second ∙ rw (whole, two) refl

letters-name :
    (mem : Memory) (name : List ℕ) (rounds enc : ℕ) (decoded : List ℕ) (blen len : ℕ)
    → Encoded mem enc name
    → length name * 2 ≤ rounds
    → enc + length name * 2 ≤ length mem
    → HasRoom (state decoded blen (length name * 2) len)
    → Ends
        (HasRead (decoded ++ name) (len - length name * 2))
        (letters rounds mem enc (state decoded blen (length name * 2) len))
letters-name mem [] rounds enc decoded blen len e enough inside room =
    rw (letters-stop mem rounds enc (state decoded blen 0 len) refl)
      (Ends-done (sym (append_nil decoded), refl, refl, omega arith, room))
letters-name mem (b ∷ name) (suc (suc rounds)) enc decoded blen len e enough inside room =
    let left : suc (length name) * 2 - 1 - 1 ≡ length name * 2 = omega arith in
    let left_len : len - 1 - 1 - length name * 2 ≡ len - suc (length name) * 2 = omega arith in
    let longer = length-append decoded (b ∷ []) in
    let first_room = grow-room decoded blen room.0 in
    let second_room = grow-room decoded (grow decoded blen) (omega arith) in
    let behind =
      letters-name mem name rounds (enc + 2) (decoded ++ (b ∷ []))
        (grow decoded (grow decoded blen)) (len - 1 - 1) e.3 (omega arith) (omega arith)
        (omega arith, λ h. omega arith) in
    rw
      (
        letters-byte mem rounds enc decoded blen (suc (length name) * 2) len b (omega arith)
            (omega arith) e.0 e.1 e.2 room.0,
        left,
      )
      (rw (sym (append_assoc decoded (b ∷ []) name), sym left_len) behind)
letters-name mem (b ∷ name) (suc zero) enc decoded blen len e enough inside room =
    absurd (omega arith)
letters-name mem (b ∷ name) zero enc decoded blen len e enough inside room = absurd (omega arith)

-- A name of 1 to 63 bytes in First-Level Encoding, behind its length in letters and with at least one
-- byte of the frame behind it, is read back by first_level_decode, whatever else is in memory.
pub first_level_decode-Encoded :
    (mem : Memory) (enc len : ℕ) (name : List ℕ)
    → enc + len ≤ length mem
    → 1 ≤ length name
    → length name ≤ 63
    → length name * 2 + 2 ≤ len
    → byte_at mem enc ≡ length name * 2
    → Encoded mem (enc + 1) name
    → first_level_decode mem enc len ≡ done (some name)
unfolding first_level_decode finish_name
first_level_decode-Encoded mem enc len name inside one short fits size encoded =
    let read =
      letters-name mem name (len - 1) (enc + 1) [] 0 (len - 1) encoded (omega arith) (omega arith)
        (omega arith, λ h. omega arith) in
    let more : (len == 0) ≡ false = ground arith in
    let positive : ltb (length name * 2) 128 ≡ true = ground arith in
    let whole : ltb len (u64 (length name * 2 + 2)) ≡ false = ground arith in
    let goes_on : (read.result.len == 0) ≡ false = ground (arith, read.holds.3) in
    let decoded : read.result.decoded ≡ name = read.holds.0 in
    let room : length name + 1 ≤ read.result.blen =
      omega (arith, read.holds.4, ap length decoded) in
    let allocated : (read.result.blen == 0) ≡ false = ground arith in
    let stored : ltb (length name) read.result.blen ≡ true = ground arith in
    rw
      (
        more,
        load8-done mem enc (omega arith),
        size,
        positive,
        whole,
        read.runs,
        goes_on,
        read.holds.1,
        read.holds.2,
        allocated,
        decoded,
        stored,
      )
      refl
