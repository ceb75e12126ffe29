-- ===== src/Dns/Name/Whole.antt =====
-- `extract_dns_record` on a whole well-formed record: name, type and class.
use omphalos.Base.{
  ℕ, suc, ◌+◌, ◌*◌, ◌/◌, ◌^◌, ◌<◌, ◌≤◌, bit_and, ◌≡◌, refl, arith, List, [], ◌∷◌, ◌==◌, true, ◌>>=◌,
  ltb, leb, drop, some, none, Memory, done, false, load16,
}
use omphalos.Dns.Name.{Cursor, Record, dns_inflate, extract_labels, extract_type, finish_record}
use omphalos.Dns.Name.Reading.{
  load8-at, drop-next, drop-skip, pointer_high, pointer_low, pointer_bits, pointer-target,
}
use omphalos.Dns.Name.Steps.{past_label}
use omphalos.Dns.Name.Plain.{past_labels}

load16-at :
    (mem : Memory) (p lo hi : ℕ) (rest : List ℕ)
    → drop p mem ≡ lo ∷ hi ∷ rest
    → load16 mem p ≡ done (lo + 256 * hi)
unfolding load16
load16-at mem p lo hi rest e =
    rw
      (
        load8-at mem p lo (hi ∷ rest) e,
        load8-at mem (p + 1) hi rest (drop-next mem p lo (hi ∷ rest) e),
      )
      refl

-- The record that the four bytes behind a name make.
abbrev pub record_of : List ℕ → ℕ → ℕ → ℕ → ℕ → ℕ → Record
record_of name idx t0 t1 c0 c1 = record {
  name = name;
  class = bit_and (c0 + 256 * c1) 0xff7f;
  type = t0 + 256 * t1;
  idx = idx;
}

module _ (len : ℕ) (mem : Memory) (t0 t1 c0 c1 : ℕ) (rest : List ℕ) (c : Cursor) where
  pub extract_type-done :
      (name : List ℕ)
      → drop c.sec mem ≡ t0 ∷ t1 ∷ c0 ∷ c1 ∷ rest
      → c.idx + 4 ≤ len
      → extract_type len mem c name ≡ done (some (record_of name (c.idx + 4) t0 t1 c0 c1))
  unfolding extract_type
  extract_type-done name e inside =
      let room : ltb len (c.idx + 4) ≡ false = ground arith in
      let class_at = drop-skip mem c.sec (t0 ∷ t1 ∷ []) (c0 ∷ c1 ∷ rest) e in
      rw
        (
          room,
          load16-at mem (c.sec + 2) c0 c1 rest class_at,
          load16-at mem c.sec t0 t1 (c0 ∷ c1 ∷ rest) e,
        )
        refl

  -- With a buffer, its text is the name.
  pub finish_record-text :
      drop c.sec mem ≡ t0 ∷ t1 ∷ c0 ∷ c1 ∷ rest
      → c.idx + 4 ≤ len
      → 0 < c.buf.cap
      → finish_record len mem c ≡ done (some (record_of c.buf.text (c.idx + 4) t0 t1 c0 c1))
  unfolding finish_record
  finish_record-text e inside cap =
      let made : (c.buf.cap == 0) ≡ false = ground (arith, cap) in
      rw made (extract_type-done c.buf.text e inside)

pub cap-past_labels :
    (ls : List (List ℕ)) (c : Cursor) → 0 < c.buf.cap → 0 < (past_labels c ls).buf.cap
cap-past_labels [] c h = h
cap-past_labels (l ∷ ls) c h = cap-past_labels ls (past_label c l) (omega arith)

-- The cursor behind the byte that ends a name.
abbrev pub past_root : Cursor → Cursor
past_root c = record { idx = c.idx + 1; sec = c.sec + 1; buf = c.buf; rlen = 0 }

module _ (fuel len : ℕ) (mem : Memory) (c : Cursor) where
  pub extract_labels-root :
      (left : ℕ) (rest : List ℕ)
      → drop c.sec mem ≡ 0 ∷ rest
      → c.idx + 1 < len
      → extract_labels fuel (suc left) len mem c ≡ done (some (past_root c))
  unfolding extract_labels
  extract_labels-root left rest e inside =
      let more : ltb (c.idx + 1) len ≡ true = ground arith in
      rw (more, load8-at mem c.sec 0 rest e) refl

  -- Where no byte is left, the loop ends with `idx` behind the last.
  pub extract_labels-cut :
      (left : ℕ)
      → len ≤ c.idx + 1
      → extract_labels fuel (suc left) len mem c ≡ done (some (record c { idx = c.idx + 1 }))
  unfolding extract_labels
  extract_labels-cut left outside =
      let last : ltb (c.idx + 1) len ≡ false = ground arith in rw last refl

  -- A pointer back is inflated and ends the name.
  pub extract_labels-pointer :
      (left target : ℕ) (rest : List ℕ)
      → drop c.sec mem ≡ pointer_high target ∷ pointer_low target ∷ rest
      → c.idx + 1 < len
      → target < 2 ^ 14
      → target ≤ c.sec
      → extract_labels fuel (suc left) len mem c
        ≡ dns_inflate fuel mem target (c.sec + 1) c.buf >>= λ out. elim out [
          | none ↦ done none
          | some buf ↦ done (
              some (record {
                idx = c.idx + 1 + 1;
                sec = c.sec + 2;
                buf = buf;
                rlen = pointer_high target;
              }))
        ]
  unfolding extract_labels
  extract_labels-pointer left target rest e inside small back =
      let more : ltb (c.idx + 1) len ≡ true = ground arith in
      let nonzero : (pointer_high target == 0) ≡ false = ground arith in
      let behind : leb (c.sec + 1) target ≡ false = ground arith in
      let next = drop-next mem c.sec (pointer_high target) (pointer_low target ∷ rest) e in
      rw
        (
          more,
          load8-at mem c.sec (pointer_high target) (pointer_low target ∷ rest) e,
          nonzero,
          pointer_bits (target / 256) (omega arith),
          load8-at mem (c.sec + 1) (pointer_low target) rest next,
          pointer-target target small,
          behind,
        )
        refl
