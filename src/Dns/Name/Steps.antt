-- ===== src/Dns/Name/Steps.antt =====
-- One round of the loops of `dns_inflate` and `extract_dns_record` over a well-formed label, and
-- their last round.
use omphalos.Base.{
  append_assoc, ℕ, suc, ◌+◌, ◌-◌, ◌<◌, ◌≤◌, ◌≡◌, refl, ap, ◌∙◌, arith, List, [], ◌∷◌, ◌++◌, ◌==◌,
  true, ◌>>=◌, ltb, leb, if◌then◌else◌, Bool-cases, inl, inr, length, set, drop, some, Option,
  Memory, done, Outcome, load8, false, length-append, length-set,
}
use omphalos.Dns.Name.{Buffer, Cursor, dot, put, set_last, join, inflate_labels, extract_labels}
use omphalos.Dns.Name.Reading.{
  IsLabel, encode, drop-next, drop-skip, load8-at, load_bytes-at, load_string-done, label_bits,
}

-- What a label leaves to read.
pub record LabelAt (mem : Memory) (p : ℕ) (l tail : List ℕ) : Type 0 where
  pub length_byte : load8 mem p ≡ done (length l)
  pub body : drop (p + 1) mem ≡ l ++ tail
  pub next : drop (p + length l + 1) mem ≡ tail

pub label_at :
    (mem : Memory) (p : ℕ) (l : List ℕ) (ls : List (List ℕ)) (tail : List ℕ)
    → drop p mem ≡ encode (l ∷ ls) ++ tail
    → LabelAt mem p l (encode ls ++ tail)
label_at mem p l ls tail e =
    let body : drop (p + 1) mem ≡ l ++ (encode ls ++ tail) =
      drop-next mem p (length l) ((l ++ encode ls) ++ tail) e ∙ append_assoc l (encode ls) tail in
    record {
      length_byte = load8-at mem p (length l) ((l ++ encode ls) ++ tail) e;
      body = body;
      next =
          ap (λ (q : ℕ). drop q mem) {x = p + length l + 1} {y = p + 1 + length l} (omega arith)
          ∙ drop-skip mem (p + 1) l (encode ls ++ tail) body;
    }

pub put-done :
    (buf : Buffer) (bytes : List ℕ)
    → length buf.text + length bytes ≤ buf.cap
    → put buf bytes ≡ done (record buf { text = buf.text ++ bytes })
unfolding put
put-done buf bytes h =
    let fits : ltb buf.cap (length buf.text + length bytes) ≡ false = ground arith in rw fits refl

-- The text with its last byte made a dot.
abbrev pub joined : List ℕ → List ℕ
joined text = if length text == 0 then text else set text (length text - 1) dot

pub join-joined : (buf : Buffer) → join buf ≡ done (record buf { text = joined buf.text })
unfolding join set_last
join-joined buf = elim (Bool-cases (length buf.text == 0)) [
  | inl e ↦ rw (e, join) refl
  | inr e ↦ rw (e, join) refl
]

pub length-joined : (text : List ℕ) → length (joined text) ≡ length text
length-joined text = elim (Bool-cases (length text == 0)) [
  | inl e ↦ rw e refl
  | inr e ↦ rw e (length-set text (length text - 1) dot)
]

set-behind : (t : List ℕ) (x c : ℕ) → set (t ++ x ∷ []) (length t) c ≡ t ++ c ∷ []
set-behind [] x c = refl
set-behind (y ∷ t) x c = ap (λ (s : List ℕ). y ∷ s) (set-behind t x c)

set-end : (t : List ℕ) (x c : ℕ) → set (t ++ x ∷ []) (length (t ++ x ∷ []) - 1) c ≡ t ++ c ∷ []
set-end t x c =
    ap (λ (i : ℕ). set (t ++ x ∷ []) i c) {x = length (t ++ x ∷ []) - 1} {y = length t}
      (omega (arith, length-append t (x ∷ [])))
    ∙ set-behind t x c

end_nonempty : (t : List ℕ) (x : ℕ) → (length (t ++ x ∷ []) == 0) ≡ false
end_nonempty t x = ground (arith, length-append t (x ∷ []))

pub joined-end : (t : List ℕ) (x : ℕ) → joined (t ++ x ∷ []) ≡ t ++ dot ∷ []
joined-end t x = rw (end_nonempty t x) (set-end t x dot)

pub set_last-end :
    (t : List ℕ) (x c cap : ℕ)
    → set_last (record { text = t ++ x ∷ []; cap = cap }) c
      ≡ done (record { text = t ++ c ∷ []; cap = cap })
unfolding set_last
set_last-end t x c cap =
    rw (end_nonempty t x)
      (ap (λ (s : List ℕ). done (record { text = s; cap = cap })) (set-end t x c))

module _ (inflate : ℕ → ℕ → Buffer → Outcome (Option Buffer)) (left : ℕ) (mem : Memory)
    (offset z zz : ℕ) (buf : Buffer) where
  -- A label is copied behind the text, with a dot behind it.
  pub inflate_labels-label :
      (l : List ℕ) (ls : List (List ℕ)) (tail : List ℕ)
      → IsLabel l
      → drop (offset + zz) mem ≡ encode (l ∷ ls) ++ tail
      → zz + length l < z
      → length buf.text + length l + 1 ≤ buf.cap
      → inflate_labels inflate (suc left) mem offset z zz buf
        ≡ inflate_labels inflate left mem offset z
            (zz + length l + 1)
            (record buf { text = buf.text ++ (l ++ dot ∷ []) })
  unfolding inflate_labels
  inflate_labels-label l ls tail h e inside room =
      let at = label_at mem (offset + zz) l ls tail e in
      let nonzero : (length l == 0) ≡ false = ground (arith, h.nonempty) in
      let below : leb z (zz + length l) ≡ false = ground arith in
      rw
        (
          at.length_byte,
          nonzero,
          label_bits (length l) h.short,
          below,
          load_bytes-at mem (offset + zz + 1) l (encode ls ++ tail) at.body,
          put-done buf (l ++ dot ∷ []) (omega (arith, length-append l (dot ∷ []))),
        )
        refl

  -- The end of the name ends the text.
  pub inflate_labels-end :
      (rest : List ℕ)
      → drop (offset + zz) mem ≡ 0 ∷ rest
      → inflate_labels inflate (suc left) mem offset z zz buf
        ≡ set_last buf 0 >>= λ out. done (some out)
  unfolding inflate_labels
  inflate_labels-end rest e = rw (load8-at mem (offset + zz) 0 rest e) refl

-- The cursor behind a label.
abbrev pub past_label : Cursor → List ℕ → Cursor
past_label c l = record {
  idx = c.idx + 1 + length l;
  sec = c.sec + 1 + length l;
  buf = record {
    text = joined c.buf.text ++ (l ++ 0 ∷ []);
    cap = length c.buf.text + length l + 1;
  };
  rlen = length l;
}

module _ (fuel left len : ℕ) (mem : Memory) (c : Cursor) where
  -- A label is copied behind the text, which ends with NUL.
  pub extract_labels-label :
      (l : List ℕ) (ls : List (List ℕ)) (tail : List ℕ)
      → IsLabel l
      → drop c.sec mem ≡ encode (l ∷ ls) ++ tail
      → c.idx + 1 + length l ≤ len
      → extract_labels fuel (suc left) len mem c ≡ extract_labels fuel left len mem (past_label c l)
  unfolding extract_labels
  extract_labels-label l ls tail h e inside =
      let at = label_at mem c.sec l ls tail e in
      let more : ltb (c.idx + 1) len ≡ true = ground (arith, h.nonempty) in
      let nonzero : (length l == 0) ≡ false = ground (arith, h.nonempty) in
      let within : ltb len (length l + (c.idx + 1)) ≡ false = ground arith in
      let grown : Buffer = record c.buf { cap = length c.buf.text + length l + 1 } in
      let full : Buffer = record grown { text = joined c.buf.text } in
      let room : length full.text + length (l ++ 0 ∷ []) ≤ full.cap =
        omega (arith, length-append l (0 ∷ []), length-joined c.buf.text) in
      rw
        (
          more,
          at.length_byte,
          nonzero,
          label_bits (length l) h.short,
          within,
          join-joined grown,
          load_string-done mem (c.sec + 1) l (encode ls ++ tail) h.no_nul at.body,
          put-done full (l ++ 0 ∷ []) room,
        )
        refl
