-- ===== src/Dns/Name/Plain.antt =====
-- What `extract_dns_record` makes of a well-formed name: plain, and with a compression pointer.
use omphalos.Base.{
  append_assoc, ℕ, zero, suc, ◌+◌, ◌<◌, ◌≤◌, ◌≡◌, refl, ap, ◌∙◌, sym, arith, List, [], ◌∷◌, ◌++◌,
  ◌>>=◌, leb, length, drop, some, Option, Memory, done, Outcome, false, length-append,
}
use omphalos.Dns.Name.{Buffer, Cursor, null, dot, inflate_labels, dns_inflate, extract_labels}
use omphalos.Dns.Name.Reading.{AllLabels, encode, NoNul-encode, strlen-done}
use omphalos.Dns.Name.Steps.{
  label_at, joined, join-joined, length-joined, joined-end, set_last-end, inflate_labels-label,
  inflate_labels-end, extract_labels-label, past_label,
}

-- The text of labels behind others: a dot before each, NUL at the end.
abbrev pub after : List (List ℕ) → List ℕ
after [] = 0 ∷ []
after (l ∷ ls) = dot ∷ (l ++ after ls)

-- The text of a name: its labels with dots between them, NUL at the end.
abbrev pub dotted : List (List ℕ) → List ℕ
dotted [] = 0 ∷ []
dotted (l ∷ ls) = l ++ after ls

abbrev pub holding : List ℕ → ℕ → Buffer
holding t cap = record { text = t; cap = cap }

regroup : (t l : List ℕ) (x y : ℕ) → (t ++ x ∷ []) ++ (l ++ y ∷ []) ≡ (t ++ x ∷ l) ++ y ∷ []
regroup t l x y = append_assoc t (x ∷ []) (l ++ y ∷ []) ∙ sym (append_assoc t (x ∷ l) (y ∷ []))

done-after :
    (t l s : List ℕ) (cap : ℕ)
    → done (some (holding ((t ++ dot ∷ l) ++ s) cap))
      ≡ done (some (holding (t ++ (dot ∷ (l ++ s))) cap))
done-after t l s cap = ap (λ (u : List ℕ). done (some (holding u cap))) (append_assoc t (dot ∷ l) s)

module _ (inflate : ℕ → ℕ → Buffer → Outcome (Option Buffer)) (mem : Memory) (offset z cap : ℕ)
    (rest : List ℕ) where
  inflate_labels-after :
      (ls : List (List ℕ)) (left zz : ℕ) (t : List ℕ)
      → AllLabels ls
      → drop (offset + zz) mem ≡ encode ls ++ 0 ∷ rest
      → zz + length (encode ls) ≡ z
      → length (encode ls) < left
      → length t + 1 + length (encode ls) ≤ cap
      → inflate_labels inflate left mem offset z zz (holding (t ++ dot ∷ []) cap)
        ≡ done (some (holding (t ++ after ls) cap))
  inflate_labels-after ls zero zz t h e stop fuel room = absurd (omega arith)
  inflate_labels-after [] (suc left) zz t h e stop fuel room =
      inflate_labels-end inflate left mem offset z zz (holding (t ++ dot ∷ []) cap) rest e
      ∙ ap (λ (o : Outcome Buffer). o >>= λ out. done (some out)) (set_last-end t dot 0 cap)
  inflate_labels-after (l ∷ ls) (suc left) zz t h e stop fuel room =
      let at = label_at mem (offset + zz) l ls (0 ∷ rest) e in
      let shorter = length-append l (encode ls) in
      inflate_labels-label inflate left mem offset z zz (holding (t ++ dot ∷ []) cap) l ls
        (0 ∷ rest) h.0 e (omega (arith, shorter))
        (omega (arith, shorter, length-append t (dot ∷ [])))
      ∙ ap
          (λ (u : List ℕ).
            inflate_labels inflate left mem offset z (zz + length l + 1) (holding u cap))
          (regroup t l dot dot)
      ∙ inflate_labels-after ls left (zz + length l + 1) (t ++ dot ∷ l) h.1
          (ap (λ (q : ℕ). drop q mem) {x = offset + (zz + length l + 1)}
              {y = offset + zz + length l + 1} (omega arith)
            ∙ at.next)
          (omega (arith, shorter)) (omega (arith, shorter))
          (omega (arith, shorter, length-append t (dot ∷ l)))
      ∙ done-after t l (after ls) cap

-- The name at `offset`, inflated behind what the buffer holds.
pub dns_inflate-dotted :
    (fuel : ℕ) (mem : Memory) (offset curoffset : ℕ) (buf : Buffer) (l : List ℕ)
    (ls : List (List ℕ)) (rest : List ℕ)
    → AllLabels (l ∷ ls)
    → offset < curoffset
    → drop offset mem ≡ encode (l ∷ ls) ++ 0 ∷ rest
    → dns_inflate (suc fuel) mem offset curoffset buf
      ≡ done (
          some (
            holding
              (joined buf.text ++ dotted (l ∷ ls))
              (length buf.text + length (encode (l ∷ ls)) + 1)))
unfolding dns_inflate
dns_inflate-dotted fuel mem offset curoffset buf l ls rest h back e =
    let z = length (encode (l ∷ ls)) in
    let cap = length buf.text + z + 1 in
    let behind : leb curoffset offset ≡ false = ground arith in
    let start : drop (offset + 0) mem ≡ encode (l ∷ ls) ++ 0 ∷ rest =
      ap (λ (q : ℕ). drop q mem) {x = offset + 0} {y = offset} (omega arith) ∙ e in
    let at = label_at mem (offset + 0) l ls (0 ∷ rest) start in
    let shorter = length-append l (encode ls) in
    let same = length-joined buf.text in
    rw
      (
        behind,
        strlen-done mem offset (encode (l ∷ ls)) rest (NoNul-encode (l ∷ ls) h) e,
        join-joined (holding buf.text cap),
      )
      (ap
          (λ (n : ℕ).
            inflate_labels (dns_inflate fuel mem) n mem offset z 0 (holding (joined buf.text) cap))
          {x = z + 1} {y = suc z} (omega arith)
        ∙ inflate_labels-label (dns_inflate fuel mem) z mem offset z 0
            (holding (joined buf.text) cap) l ls (0 ∷ rest) h.0 start (omega (arith, shorter))
            (omega (arith, shorter, same))
        ∙ ap
            (λ (u : List ℕ).
              inflate_labels (dns_inflate fuel mem) z mem offset z (0 + length l + 1)
                (holding u cap))
            (sym (append_assoc (joined buf.text) l (dot ∷ [])))
        ∙ inflate_labels-after (dns_inflate fuel mem) mem offset z cap rest ls z (0 + length l + 1)
            (joined buf.text ++ l) h.1
            (ap (λ (q : ℕ). drop q mem) {x = offset + (0 + length l + 1)}
                {y = offset + 0 + length l + 1} (omega arith)
              ∙ at.next)
            (omega (arith, shorter)) (omega (arith, shorter))
            (omega (arith, shorter, same, length-append (joined buf.text) l))
        ∙ ap (λ (u : List ℕ). done (some (holding u cap)))
            (append_assoc (joined buf.text) l (after ls)))

-- The cursor behind some labels.
abbrev pub past_labels : Cursor → List (List ℕ) → Cursor
past_labels c [] = c
past_labels c (l ∷ ls) = past_labels (past_label c l) ls

module _ (fuel len : ℕ) (mem : Memory) (tail : List ℕ) where
  pub extract_labels-labels :
      (ls : List (List ℕ)) (left left' : ℕ) (c : Cursor)
      → AllLabels ls
      → drop c.sec mem ≡ encode ls ++ tail
      → c.idx + length (encode ls) ≤ len
      → left ≡ length ls + left'
      → extract_labels fuel left len mem c ≡ extract_labels fuel left' len mem (past_labels c ls)
  extract_labels-labels [] left left' c h e inside rounds =
      ap (λ (n : ℕ). extract_labels fuel n len mem c) {x = left} {y = left'} (omega arith)
  extract_labels-labels (l ∷ ls) zero left' c h e inside rounds = absurd (omega arith)
  extract_labels-labels (l ∷ ls) (suc left) left' c h e inside rounds =
      let at = label_at mem c.sec l ls tail e in
      let shorter = length-append l (encode ls) in
      extract_labels-label fuel left len mem c l ls tail h.0 e (omega (arith, shorter))
      ∙ extract_labels-labels ls left left' (past_label c l) h.1
          (ap (λ (q : ℕ). drop q mem) {x = c.sec + 1 + length l} {y = c.sec + length l + 1}
              (omega arith)
            ∙ at.next)
          (omega (arith, shorter)) (omega arith)

pub idx-past_labels :
    (ls : List (List ℕ)) (c : Cursor) → (past_labels c ls).idx ≡ c.idx + length (encode ls)
idx-past_labels [] c = omega arith
idx-past_labels (l ∷ ls) c =
    omega (arith, idx-past_labels ls (past_label c l), length-append l (encode ls))

pub sec-past_labels :
    (ls : List (List ℕ)) (c : Cursor) → (past_labels c ls).sec ≡ c.sec + length (encode ls)
sec-past_labels [] c = omega arith
sec-past_labels (l ∷ ls) c =
    omega (arith, sec-past_labels ls (past_label c l), length-append l (encode ls))

text-past_labels :
    (ls : List (List ℕ)) (c : Cursor) (t : List ℕ)
    → c.buf.text ≡ t ++ 0 ∷ []
    → (past_labels c ls).buf.text ≡ t ++ after ls
text-past_labels [] c t e = e
text-past_labels (l ∷ ls) c t e =
    text-past_labels ls (past_label c l) (t ++ dot ∷ l) (
      ap (λ (u : List ℕ). joined u ++ (l ++ 0 ∷ [])) e
      ∙ ap (λ (u : List ℕ). u ++ (l ++ 0 ∷ [])) (joined-end t 0)
      ∙ regroup t l dot 0)
    ∙ append_assoc t (dot ∷ l) (after ls)

-- Where the loops start.
abbrev pub start_at : ℕ → Cursor
start_at sec = record { idx = 0; sec = sec; buf = null; rlen = 0 }

pub text-past_first :
    (l : List ℕ) (ls : List (List ℕ)) (sec : ℕ)
    → (past_labels (start_at sec) (l ∷ ls)).buf.text ≡ dotted (l ∷ ls)
text-past_first l ls sec = text-past_labels ls (past_label (start_at sec) l) l refl
