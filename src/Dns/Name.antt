-- ===== src/Dns/Name.antt =====
-- `dns_inflate` and `extract_dns_record` of src/omphalos/dns.c: the name of a record, with its
-- compression, and the type and class behind it. The packet is the memory from address 0 on; what
-- is not in it cannot be read. Memory can always be allocated.
pub mod Reading
pub mod Steps
pub mod Plain
pub mod Whole
pub mod Round
pub mod Safe
pub mod Pointer
mod Examples
use omphalos.Base.{
  ℕ, zero, suc, ◌+◌, ◌-◌, ◌*◌, ◌/◌, ◌%◌, ◌^◌, bit_and, not, Bool, true, false, ltb, leb, ◌==◌,
  if◌then◌else◌, List, [], ◌∷◌, ◌++◌, length, set, drop, replicate, Option, none, some, Memory,
  Outcome, done, fault, out_of_fuel, ◌>>=◌, ◌>>◌, load8, load16, load_bytes,
}

-- An allocated buffer of `cap` bytes, of which the first `length text` are written. The null
-- pointer is the buffer with no bytes.
pub record Buffer : Type 0 where
  pub text : List ℕ
  pub cap : ℕ

abbrev pub null : Buffer
null = record { text = []; cap = 0 }

abbrev pub dot : ℕ
dot = 0x2e

-- Writing behind the bytes written so far.
pub put : Buffer → List ℕ → Outcome Buffer
put buf bytes =
    if ltb buf.cap (length buf.text + length bytes)
    then fault
    else done (record buf { text = buf.text ++ bytes })

-- `buf[bsize - 1] = c`, with `bsize` unsigned.
pub set_last : Buffer → ℕ → Outcome Buffer
set_last buf c =
    if length buf.text == 0
    then fault
    else done (record buf { text = set buf.text (length buf.text - 1) c })

-- `if(bsize){ buf[bsize - 1] = '.'; }`
pub join : Buffer → Outcome Buffer
join buf = if length buf.text == 0 then done buf else set_last buf dot

pub string_length : List ℕ → Outcome ℕ
string_length [] = fault
string_length (c ∷ s) =
    let rest = string_length s in if c == 0 then done 0 else do n ← rest; done (suc n)

pub strlen : Memory → ℕ → Outcome ℕ
strlen mem p = string_length (drop p mem)

-- `strncpy` out of the packet: behind a NUL nothing is read, and zeros are written.
pub load_string : Memory → ℕ → ℕ → Outcome (List ℕ)
load_string mem p zero = done []
load_string mem p (suc n) = do
  b ← load8 mem p
  let rest = load_string mem (p + 1) n
  if b == 0 then done (replicate (suc n) 0) else do bs ← rest; done (b ∷ bs)

-- The target of a compression pointer, from its two bytes.
pub pointer : ℕ → ℕ → ℕ
pointer hi lo = bit_and hi 0x3f * 256 + lo

-- The loop of `dns_inflate` over the labels behind `offset`, at `zz`, with the recursive call
-- as an argument. It runs on fuel: each label moves `zz`, which stays at or below `z`.
pub inflate_labels :
    (ℕ → ℕ → Buffer → Outcome (Option Buffer))
    → ℕ
    → Memory
    → ℕ
    → ℕ
    → ℕ
    → Buffer
    → Outcome (Option Buffer)
inflate_labels inflate zero orig offset z zz buf = out_of_fuel
inflate_labels inflate (suc left) orig offset z zz buf = do
  len ← load8 orig (offset + zz)
  if len == 0
      then (do buf ← set_last buf 0; done (some buf))
      else if bit_and len 0xc0 == 0xc0
      then (do lo ← load8 orig (offset + zz + 1); inflate (pointer len lo) (offset + zz) buf)
      else if not (bit_and len 0xc0 == 0)
      then done none
      else if leb z (zz + len)
      then done none
      else (do
        bytes ← load_bytes orig (offset + zz + 1) len
        buf ← put buf (bytes ++ dot ∷ [])
        inflate_labels inflate left orig offset z (zz + len + 1) buf)

-- The recursion is bounded by fuel, and `out_of_fuel` is a recursion that goes deeper.
pub dns_inflate : ℕ → Memory → ℕ → ℕ → Buffer → Outcome (Option Buffer)
dns_inflate zero orig offset curoffset buf = out_of_fuel
dns_inflate (suc fuel) orig offset curoffset buf =
    let labels = λ (z : ℕ). (do
      buf ← join (record buf { cap = length buf.text + z + 1 })
      inflate_labels (dns_inflate fuel orig) (z + 1) orig offset z 0 buf) in
    if leb curoffset offset then done none else do z ← strlen orig offset; labels z

-- The end of the name: bytes consumed, the pointer behind it, the buffer and the last length.
pub record Cursor : Type 0 where
  pub idx : ℕ
  pub sec : ℕ
  pub buf : Buffer
  pub rlen : ℕ

-- The loop of `extract_dns_record`, on fuel: each round but the last moves `idx`, which stays
-- below `len`. `none` is the return of NULL.
pub extract_labels : ℕ → ℕ → ℕ → Memory → Cursor → Outcome (Option Cursor)
extract_labels fuel zero len orig c = out_of_fuel
extract_labels fuel (suc left) len orig c =
    let idx = c.idx + 1 in
    let next = λ (rlen : ℕ). (do
      buf ← join (record c.buf { cap = length c.buf.text + rlen + 1 })
      bytes ← load_string orig (c.sec + 1) rlen
      buf ← put buf (bytes ++ 0 ∷ [])
      extract_labels fuel left len orig
          (record { idx = idx + rlen; sec = c.sec + 1 + rlen; buf = buf; rlen = rlen })) in
    if ltb idx len
    then (do
      rlen ← load8 orig c.sec
      if rlen == 0
          then done (some (record { idx = idx; sec = c.sec + 1; buf = c.buf; rlen = 0 }))
          else if bit_and rlen 0xc0 == 0xc0
          then (do
            lo ← load8 orig (c.sec + 1)
            if leb (c.sec + 1) (pointer rlen lo) then done none else (do
              out ← dns_inflate fuel orig (pointer rlen lo) (c.sec + 1) c.buf
              elim out [
                | none ↦ done none
                | some buf ↦
                    done (some (record { idx = idx + 1; sec = c.sec + 2; buf = buf; rlen = rlen }))
              ]))
          else if not (bit_and rlen 0xc0 == 0)
          then done none
          else if ltb len (rlen + idx)
          then done none
          else next rlen)
    else done (some (record c { idx = idx }))

pub record Record : Type 0 where
  pub name : List ℕ
  pub class : ℕ
  pub type : ℕ
  pub idx : ℕ

-- Type and class behind the name, the flush bit of the class cleared.
pub extract_type : ℕ → Memory → Cursor → List ℕ → Outcome (Option Record)
extract_type len orig c name = if ltb len (c.idx + 4) then done none else do
  class ← load16 orig (c.sec + 2)
  type ← load16 orig c.sec
  done (some (record { name = name; class = bit_and class 0xff7f; type = type; idx = c.idx + 4 }))

pub finish_record : ℕ → Memory → Cursor → Outcome (Option Record)
finish_record len orig c =
    if c.buf.cap == 0
    then (if c.rlen == 0 then extract_type len orig c (0 ∷ []) else done none)
    else extract_type len orig c c.buf.text

-- `extract_dns_record` of the `len` bytes at `sec`, with `class` and `type` wanted. The compression
-- check `*idx > len` of the source cannot hold where it stands, behind `len > ++*idx`.
pub extract_dns_record : ℕ → ℕ → ℕ → Memory → Outcome (Option Record)
extract_dns_record fuel len sec orig = do
  c ← extract_labels fuel (len + 1) len orig (record { idx = 0; sec = sec; buf = null; rlen = 0 })
  elim c [ none ↦ done none | some c ↦ finish_record len orig c ]
