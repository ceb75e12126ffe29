-- ===== src/Dns/Name/Safe.antt =====
-- `extract_dns_record` on any bytes without compression pointers: it returns, within the packet.
use omphalos.Base.{
  ℕ, zero, suc, ◌+◌, ◌<◌, ◌≤◌, bit_and, ◌≡◌, refl, ap, inl, inr, arith, List, [], ◌∷◌, ◌++◌, ◌==◌,
  ltb, false, Bool-cases, length, replicate, length-append, length-replicate, Option, some, none,
  Memory, Outcome, done, load8-done, load16-done, byte_at, word_at,
}
use omphalos.Dns.Name.{
  Buffer, Cursor, Record, null, load_string, extract_labels, extract_type, finish_record,
  extract_dns_record,
}
use omphalos.Dns.Name.Steps.{joined, join-joined, length-joined, put-done}

abbrev pub AllPlain : Memory → Type 0
AllPlain [] = Unit {0}
AllPlain (b ∷ bs) = ((bit_and b 0xc0 == 0xc0) ≡ false) × AllPlain bs

byte_at-plain :
    (mem : Memory) (p : ℕ) → AllPlain mem → (bit_and (byte_at mem p) 0xc0 == 0xc0) ≡ false
byte_at-plain [] p h = refl
byte_at-plain (b ∷ bs) zero h = h.0
byte_at-plain (b ∷ bs) (suc p) h = byte_at-plain bs p h.1

record Read (run : Outcome (List ℕ)) (n : ℕ) : Type 0 where
  bytes : List ℕ
  result : run ≡ done bytes
  size : length bytes ≡ n

load_string-Read : (mem : Memory) (p n : ℕ) → p + n ≤ length mem → Read (load_string mem p n) n
unfolding load_string
load_string-Read mem p zero h = record { bytes = []; result = refl; size = refl }
load_string-Read mem p (suc n) h =
    let first = load8-done mem p (omega arith) in
    elim (Bool-cases (byte_at mem p == 0)) [
      | inl nul ↦ record {
        bytes = replicate (suc n) 0;
        result = rw (first, nul) refl;
        size = length-replicate (suc n) 0;
      }
      | inr more ↦
          let rest = load_string-Read mem (p + 1) n (omega arith) in
          record {
            bytes = byte_at mem p ∷ rest.bytes;
            result = rw (first, more, rest.result) refl;
            size = ap suc rest.size;
          }
    ]

-- A cursor whose bytes left are in the packet.
Inside : ℕ → Memory → Option Cursor → Type 0
Inside len mem none = Unit {0}
Inside len mem (some c) = c.sec + len ≤ length mem + c.idx

record Runs (len : ℕ) (mem : Memory) (run : Outcome (Option Cursor)) : Type 0 where
  out : Option Cursor
  result : run ≡ done out
  inside : Inside len mem out

extract_labels-Runs :
    (fuel left len : ℕ) (mem : Memory) (c : Cursor)
    → AllPlain mem
    → c.sec + len ≤ length mem + c.idx
    → c.idx ≤ len
    → len < left + c.idx
    → Runs len mem (extract_labels fuel left len mem c)
unfolding extract_labels Inside
extract_labels-Runs fuel zero len mem c plain inside below rounds = absurd (omega arith)
extract_labels-Runs fuel (suc left) len mem c plain inside below rounds =
    elim (Bool-cases (ltb (c.idx + 1) len)) [
      | inr last ↦ record {
        out = some (record c { idx = c.idx + 1 });
        result = rw last refl;
        inside = omega arith;
      }
      | inl more ↦
          let here : c.sec < length mem = ground arith in
          let first = load8-done mem c.sec here in
          let rlen = byte_at mem c.sec in
          let no_pointer = byte_at-plain mem c.sec plain in
          elim (Bool-cases (rlen == 0)) [
            | inl root ↦ record {
              out = some (record { idx = c.idx + 1; sec = c.sec + 1; buf = c.buf; rlen = 0 });
              result = rw (more, first, root) refl;
              inside = omega arith;
            }
            | inr label ↦ elim (Bool-cases (bit_and rlen 0xc0 == 0)) [
              | inr odd ↦ record {
                out = none;
                result = rw (more, first, label, no_pointer, odd) refl;
                inside = tt;
              }
              | inl even ↦ elim (Bool-cases (ltb len (rlen + (c.idx + 1)))) [
                | inl long ↦ record {
                  out = none;
                  result = rw (more, first, label, no_pointer, even, long) refl;
                  inside = tt;
                }
                | inr fits ↦
                    let read = load_string-Read mem (c.sec + 1) rlen (ground arith) in
                    let grown : Buffer = record c.buf { cap = length c.buf.text + rlen + 1 } in
                    let full : Buffer = record grown { text = joined c.buf.text } in
                    let room : length full.text + length (read.bytes ++ 0 ∷ []) ≤ full.cap = omega (
                      arith,
                      length-append read.bytes (0 ∷ []),
                      read.size,
                      length-joined c.buf.text,
                    ) in
                    let rest =
                      extract_labels-Runs fuel left len mem
                        (record {
                          idx = c.idx + 1 + rlen;
                          sec = c.sec + 1 + rlen;
                          buf = record full { text = full.text ++ (read.bytes ++ 0 ∷ []) };
                          rlen = rlen;
                        })
                        plain (omega arith) (ground arith) (ground arith) in
                    record {
                      out = rest.out;
                      result =
                          rw
                            (
                              more,
                              first,
                              label,
                              no_pointer,
                              even,
                              fits,
                              join-joined grown,
                              read.result,
                              put-done full (read.bytes ++ 0 ∷ []) room,
                            )
                            rest.result;
                      inside = rest.inside;
                    }
              ]
            ]
          ]
    ]

abbrev pub Within : ℕ → Option Record → Type 0
Within len none = Unit {0}
Within len (some r) = r.idx ≤ len

-- A result, with no more bytes consumed than there are.
pub record Returns (len : ℕ) (run : Outcome (Option Record)) : Type 0 where
  pub out : Option Record
  pub result : run ≡ done out
  pub within : Within len out

module _ (len : ℕ) (mem : Memory) (c : Cursor) (inside : c.sec + len ≤ length mem + c.idx) where
  extract_type-Returns : (name : List ℕ) → Returns len (extract_type len mem c name)
  unfolding extract_type
  extract_type-Returns name = elim (Bool-cases (ltb len (c.idx + 4))) [
    | inl short ↦ record { out = none; result = rw short refl; within = tt }
    | inr long ↦
        let class = load16-done mem (c.sec + 2) (ground arith) in
        let type = load16-done mem c.sec (ground arith) in
        record {
          out = some (record {
            name = name;
            class = bit_and (word_at mem (c.sec + 2)) 0xff7f;
            type = word_at mem c.sec;
            idx = c.idx + 4;
          });
          result = rw (long, class, type) refl;
          within = ground arith;
        }
  ]

  finish_record-Returns : Returns len (finish_record len mem c)
  unfolding finish_record
  finish_record-Returns = elim (Bool-cases (c.buf.cap == 0)) [
    | inr made ↦ rw made (extract_type-Returns c.buf.text)
    | inl null ↦ elim (Bool-cases (c.rlen == 0)) [
      | inl root ↦ rw (null, root) (extract_type-Returns (0 ∷ []))
      | inr cut ↦ record { out = none; result = rw (null, cut) refl; within = tt }
    ]
  ]

finish-Returns :
    (len : ℕ) (mem : Memory) (o : Option Cursor)
    → Inside len mem o
    → Returns len (elim o [ none ↦ done none | some c ↦ finish_record len mem c ])
unfolding Inside
finish-Returns len mem none h = record { out = none; result = refl; within = tt }
finish-Returns len mem (some c) h = finish_record-Returns len mem c h

-- On any bytes among which none has the two high bits of a compression pointer, with the `len`
-- bytes at `sec` in memory, `extract_dns_record` returns: no access is out of bounds, of the packet
-- or of the buffer, and the loop ends. Where it returns a name, it says that `len` bytes at most are
-- consumed.
pub extract_dns_record-Returns :
    (fuel len sec : ℕ) (mem : Memory)
    → AllPlain mem
    → sec + len ≤ length mem
    → Returns len (extract_dns_record fuel len sec mem)
unfolding extract_dns_record
extract_dns_record-Returns fuel len sec mem plain inside =
    let start : Cursor = record { idx = 0; sec = sec; buf = null; rlen = 0 } in
    let loop =
      extract_labels-Runs fuel (len + 1) len mem start plain (omega arith) (omega arith)
        (omega arith) in
    rw loop.result (finish-Returns len mem loop.out loop.inside)
