-- ===== src/Dns/Name/Round.antt =====
-- Round trips of `extract_dns_record`: the labels of a name come back, and what follows it.
use omphalos.Base.{
  append_assoc, ℕ, suc, ◌+◌, ◌-◌, ◌^◌, ◌<◌, ◌≤◌, ◌≡◌, refl, ap, ◌∙◌, sym, arith, List, [], ◌∷◌,
  ◌++◌, length, drop, some, Memory, done, length-append,
}
use omphalos.Dns.Name.{dot, extract_labels, finish_record, extract_dns_record}
use omphalos.Dns.Name.Reading.{AllLabels, encode, drop-next, drop-skip, pointer_high, pointer_low}
use omphalos.Dns.Name.Steps.{joined, joined-end, past_label}
use omphalos.Dns.Name.Plain.{
  after, dotted, dns_inflate-dotted, past_labels, extract_labels-labels, idx-past_labels,
  sec-past_labels, text-past_first, start_at,
}
use omphalos.Dns.Name.Whole.{
  record_of, extract_type-done, finish_record-text, cap-past_labels, past_root, extract_labels-root,
  extract_labels-pointer,
}

length-encode-ge : (ls : List (List ℕ)) → length ls ≤ length (encode ls)
length-encode-ge [] = omega arith
length-encode-ge (l ∷ ls) = omega (arith, length-encode-ge ls, length-append l (encode ls))

module _ (fuel len sec : ℕ) (mem : Memory) (ls : List (List ℕ)) (tail : List ℕ) (h : AllLabels ls)
    (e : drop sec mem ≡ encode ls ++ tail) (inside : length (encode ls) ≤ len) where
  -- The rounds of the loop that its labels take.
  pub behind_labels :
      extract_labels fuel (len + 1) len mem (start_at sec)
      ≡ extract_labels fuel (suc (len - length ls)) len mem (past_labels (start_at sec) ls)
  behind_labels =
      extract_labels-labels fuel len mem tail ls (len + 1) (suc (len - length ls)) (start_at sec) h
        e (omega arith) (omega (arith, length-encode-ge ls))

  pub tail-behind_labels : drop (past_labels (start_at sec) ls).sec mem ≡ tail
  tail-behind_labels =
      ap (λ (q : ℕ). drop q mem) (sec-past_labels ls (start_at sec))
      ∙ drop-skip mem sec (encode ls) tail e

module _ (len sec : ℕ) (mem : Memory) (t0 t1 c0 c1 : ℕ) (rest : List ℕ) where
  finish_record-plain :
      (ls : List (List ℕ))
      → drop (past_root (past_labels (start_at sec) ls)).sec mem ≡ t0 ∷ t1 ∷ c0 ∷ c1 ∷ rest
      → length (encode ls) + 5 ≤ len
      → finish_record len mem (past_root (past_labels (start_at sec) ls))
        ≡ done (some (record_of (dotted ls) (length (encode ls) + 5) t0 t1 c0 c1))
  unfolding finish_record
  finish_record-plain [] e room =
      extract_type-done len mem t0 t1 c0 c1 rest _ (0 ∷ []) e (omega arith)
  finish_record-plain (l ∷ ls) e room =
      let c = past_labels (start_at sec) (l ∷ ls) in
      let same = idx-past_labels (l ∷ ls) (start_at sec) in
      finish_record-text len mem t0 t1 c0 c1 rest (past_root c) e (omega (arith, same))
        (cap-past_labels ls (past_label (start_at sec) l) (omega arith))
      ∙ ap (λ (i : ℕ). done (some (record_of c.buf.text i t0 t1 c0 c1))) {x = c.idx + 1 + 4}
          {y = length (encode (l ∷ ls)) + 5} (omega (arith, same))
      ∙ ap (λ (u : List ℕ). done (some (record_of u (length (encode (l ∷ ls)) + 5) t0 t1 c0 c1)))
          (text-past_first l ls sec)

-- A name of labels, each of 1 to 63 bytes without NUL, written behind their lengths and ended by
-- a zero byte, comes back as the labels with dots between them and NUL at the end, with the class,
-- its flush bit cleared, the type, and the number of bytes that name, type and class take, where
-- these are within the `len` bytes that may be consumed.
pub extract_dns_record-plain :
    (fuel len sec : ℕ) (mem : Memory) (ls : List (List ℕ)) (t0 t1 c0 c1 : ℕ) (rest : List ℕ)
    → AllLabels ls
    → drop sec mem ≡ encode ls ++ 0 ∷ t0 ∷ t1 ∷ c0 ∷ c1 ∷ rest
    → length (encode ls) + 5 ≤ len
    → extract_dns_record fuel len sec mem
      ≡ done (some (record_of (dotted ls) (length (encode ls) + 5) t0 t1 c0 c1))
unfolding extract_dns_record
extract_dns_record-plain fuel len sec mem ls t0 t1 c0 c1 rest h e room =
    let c = past_labels (start_at sec) ls in
    let tail = 0 ∷ t0 ∷ t1 ∷ c0 ∷ c1 ∷ rest in
    let within : length (encode ls) ≤ len = omega arith in
    let at = tail-behind_labels fuel len sec mem ls tail h e within in
    let same = idx-past_labels ls (start_at sec) in
    rw
      (
        behind_labels fuel len sec mem ls tail h e within,
        extract_labels-root fuel len mem c (len - length ls) (t0 ∷ t1 ∷ c0 ∷ c1 ∷ rest) at
            (omega (arith, same)),
      )
      (finish_record-plain len sec mem t0 t1 c0 c1 rest ls
        (drop-next mem c.sec 0 (t0 ∷ t1 ∷ c0 ∷ c1 ∷ rest) at) room)

dotted-append :
    (ls : List (List ℕ)) (t l : List ℕ) (ms : List (List ℕ))
    → joined (t ++ after ls) ++ dotted (l ∷ ms) ≡ t ++ after (ls ++ l ∷ ms)
dotted-append [] t l ms =
    ap (λ (u : List ℕ). u ++ dotted (l ∷ ms)) (joined-end t 0)
    ∙ append_assoc t (dot ∷ []) (dotted (l ∷ ms))
dotted-append (k ∷ ls) t l ms =
    ap (λ (u : List ℕ). joined u ++ dotted (l ∷ ms)) (sym (append_assoc t (dot ∷ k) (after ls)))
    ∙ dotted-append ls (t ++ dot ∷ k) l ms
    ∙ append_assoc t (dot ∷ k) (after (ls ++ l ∷ ms))

joined-past_labels :
    (ls : List (List ℕ)) (sec : ℕ) (l : List ℕ) (ms : List (List ℕ))
    → joined (past_labels (start_at sec) ls).buf.text ++ dotted (l ∷ ms) ≡ dotted (ls ++ l ∷ ms)
joined-past_labels [] sec l ms = refl
joined-past_labels (k ∷ ls) sec l ms =
    ap (λ (u : List ℕ). joined u ++ dotted (l ∷ ms)) (text-past_first k ls sec)
    ∙ dotted-append ls k l ms

-- A name of labels that ends with a compression pointer back to further labels, themselves written
-- out and ended by a zero byte, comes back as all the labels with dots between them and NUL at the
-- end, with the class, its flush bit cleared, the type, and the number of bytes that labels,
-- pointer, type and class take, where these are within the `len` bytes that may be consumed.
pub extract_dns_record-compressed :
    (fuel len sec target : ℕ) (mem : Memory) (ls : List (List ℕ)) (l : List ℕ) (ms : List (List ℕ))
    (t0 t1 c0 c1 : ℕ) (rest before : List ℕ)
    → AllLabels ls
    → AllLabels (l ∷ ms)
    → drop sec mem
      ≡ encode ls ++ pointer_high target ∷ pointer_low target ∷ t0 ∷ t1 ∷ c0 ∷ c1 ∷ rest
    → drop target mem ≡ encode (l ∷ ms) ++ 0 ∷ before
    → target < 2 ^ 14
    → target ≤ sec
    → length (encode ls) + 6 ≤ len
    → extract_dns_record (suc fuel) len sec mem
      ≡ done (some (record_of (dotted (ls ++ l ∷ ms)) (length (encode ls) + 6) t0 t1 c0 c1))
unfolding extract_dns_record
extract_dns_record-compressed fuel len sec target mem ls l ms t0 t1 c0 c1 rest before h k e
      at_target small back room =
    let c = past_labels (start_at sec) ls in
    let fields = t0 ∷ t1 ∷ c0 ∷ c1 ∷ rest in
    let tail = pointer_high target ∷ pointer_low target ∷ fields in
    let within : length (encode ls) ≤ len = omega arith in
    let at = tail-behind_labels (suc fuel) len sec mem ls tail h e within in
    let same = idx-past_labels ls (start_at sec) in
    let same_sec = sec-past_labels ls (start_at sec) in
    rw
      (
        behind_labels (suc fuel) len sec mem ls tail h e within,
        extract_labels-pointer (suc fuel) len mem c (len - length ls) target fields at
            (omega (arith, same)) small (omega (arith, same_sec)),
        dns_inflate-dotted fuel mem target (c.sec + 1) c.buf l ms before k (omega (arith, same_sec))
            at_target,
      )
      (finish_record-text len mem t0 t1 c0 c1 rest _
          (drop-skip mem c.sec (pointer_high target ∷ pointer_low target ∷ []) fields at)
          (omega (arith, same)) (omega arith)
        ∙ ap
            (λ (i : ℕ).
              done (some (record_of (joined c.buf.text ++ dotted (l ∷ ms)) i t0 t1 c0 c1)))
            {x = c.idx + 1 + 1 + 4} {y = length (encode ls) + 6} (omega (arith, same))
        ∙ ap (λ (u : List ℕ). done (some (record_of u (length (encode ls) + 6) t0 t1 c0 c1)))
            (joined-past_labels ls sec l ms))
