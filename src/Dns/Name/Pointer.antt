-- ===== src/Dns/Name/Pointer.antt =====
-- Two pointers that `dns_inflate` does not withstand: one into the labels that lead to it, and one
-- to the root name before anything is written.
use omphalos.Base.{
  append_assoc, ℕ, zero, suc, ◌+◌, ◌-◌, ◌/◌, ◌^◌, ◌<◌, ◌≤◌, ◌≡◌, refl, ap, ◌∙◌, sym, arith, List,
  [], ◌∷◌, ◌++◌, ◌==◌, ◌>>=◌, leb, false, length, drop, Option, Memory, done, fault, abort,
  out_of_fuel, Outcome, length-append,
}
use omphalos.Dns.Name.{
  Buffer, string_length, strlen, dns_inflate, inflate_labels, set_last, extract_dns_record,
}
use omphalos.Dns.Name.Reading.{
  NoNul, NoNul-append, NoNul-encode, IsLabel, AllLabels, encode, drop-next, load8-at, strlen-done,
  pointer_high, pointer_low, pointer_bits, pointer-target,
}
use omphalos.Dns.Name.Steps.{
  label_at, joined, join-joined, length-joined, inflate_labels-label, inflate_labels-end,
}
use omphalos.Dns.Name.Plain.{holding, past_labels, idx-past_labels, sec-past_labels, start_at}
use omphalos.Dns.Name.Whole.{extract_labels-pointer}
use omphalos.Dns.Name.Round.{behind_labels, tail-behind_labels}

suc-ge :
    (o : Outcome ℕ) (k z : ℕ)
    → ((n : ℕ) → o ≡ done n → k ≤ n)
    → (o >>= λ n. done (suc n)) ≡ done z
    → suc k ≤ z
suc-ge (done n) k z h e = grind (arith, h n refl)
suc-ge fault k z h e = absurd (grind arith)
suc-ge abort k z h e = absurd (grind arith)
suc-ge out_of_fuel k z h e = absurd (grind arith)

string_length-ge :
    (l rest : List ℕ) (z : ℕ) → NoNul l → string_length (l ++ rest) ≡ done z → length l ≤ z
unfolding string_length
string_length-ge [] rest z h e = omega arith
string_length-ge (b ∷ l) rest z h e =
    let nonzero : (b == 0) ≡ false = ground (arith, h.0) in
    suc-ge (string_length (l ++ rest)) (length l) z (λ n. string_length-ge l rest n h.1)
      (rw nonzero at e)

module _ (inflate : ℕ → ℕ → Buffer → Outcome (Option Buffer)) (left : ℕ) (mem : Memory)
    (offset z zz : ℕ) (buf : Buffer) where
  -- A pointer ends the loop, with the name at its target.
  inflate_labels-pointer :
      (target : ℕ) (rest : List ℕ)
      → drop (offset + zz) mem ≡ pointer_high target ∷ pointer_low target ∷ rest
      → target < 2 ^ 14
      → inflate_labels inflate (suc left) mem offset z zz buf ≡ inflate target (offset + zz) buf
  unfolding inflate_labels
  inflate_labels-pointer target rest e small =
      let nonzero : (pointer_high target == 0) ≡ false = ground arith in
      let next = drop-next mem (offset + zz) (pointer_high target) (pointer_low target ∷ rest) e in
      rw
        (
          load8-at mem (offset + zz) (pointer_high target) (pointer_low target ∷ rest) e,
          nonzero,
          pointer_bits (target / 256) (omega arith),
          load8-at mem (offset + zz + 1) (pointer_low target) rest next,
          pointer-target target small,
        )
        refl

module _ (mem : Memory) (target : ℕ) (l rest : List ℕ) (z : ℕ) (small : target < 2 ^ 14)
    (h : IsLabel l)
    (e : drop target mem ≡ encode (l ∷ []) ++ pointer_high target ∷ pointer_low target ∷ rest)
    (text : strlen mem target ≡ done z) where
  text-long : length l + 2 ≤ z
  unfolding strlen
  text-long =
      let tail = pointer_low target ∷ rest in
      let name = encode (l ∷ []) ++ pointer_high target ∷ [] in
      let split = append_assoc (encode (l ∷ [])) (pointer_high target ∷ []) tail in
      let nonzero : NoNul name =
        NoNul-append (encode (l ∷ [])) (pointer_high target ∷ []) (NoNul-encode (l ∷ []) (h, tt))
          (omega arith, tt) in
      let read : string_length (name ++ tail) ≡ done z =
        ap string_length split ∙ sym (ap string_length e) ∙ text in
      omega (
        arith,
        string_length-ge name tail z nonzero read,
        length-append (encode (l ∷ [])) (pointer_high target ∷ []),
        length-append l [],
      )

  dns_inflate-cycles :
      (fuel curoffset : ℕ) (buf : Buffer)
      → target < curoffset
      → dns_inflate fuel mem target curoffset buf ≡ out_of_fuel
  unfolding dns_inflate
  dns_inflate-cycles zero curoffset buf back = refl
  dns_inflate-cycles (suc fuel) curoffset buf back =
      let tail = pointer_high target ∷ pointer_low target ∷ rest in
      let cap = length buf.text + z + 1 in
      let long = text-long in
      let behind : leb curoffset target ≡ false = ground arith in
      let start : drop (target + 0) mem ≡ encode (l ∷ []) ++ tail =
        ap (λ (q : ℕ). drop q mem) {x = target + 0} {y = target} (omega arith) ∙ e in
      let at = label_at mem (target + 0) l [] tail start in
      let same = length-joined buf.text in
      let grown = joined buf.text ++ (l ++ 0x2e ∷ []) in
      let next = dns_inflate fuel mem in
      rw (behind, text, join-joined (holding buf.text cap))
        (ap (λ (n : ℕ). inflate_labels next n mem target z 0 (holding (joined buf.text) cap))
            {x = z + 1} {y = suc z} (omega arith)
          ∙ inflate_labels-label next z mem target z 0 (holding (joined buf.text) cap) l [] tail h
              start (omega arith) (omega (arith, same))
          ∙ ap
              (λ (n : ℕ). inflate_labels next n mem target z (0 + length l + 1) (holding grown cap))
              {x = z} {y = suc (z - 1)} (omega arith)
          ∙ inflate_labels-pointer next (z - 1) mem target z (0 + length l + 1) (holding grown cap)
              target rest
              (ap (λ (q : ℕ). drop q mem) {x = target + (0 + length l + 1)}
                  {y = target + 0 + length l + 1} (omega arith)
                ∙ at.next)
              small
          ∙ dns_inflate-cycles fuel (target + (0 + length l + 1)) (holding grown cap) (omega arith))

-- A name whose compression pointer leads back to a label that is followed by a pointer to that
-- label, with a zero byte somewhere behind it, is never read to its end: no amount of fuel is
-- enough, the recursion of `dns_inflate` comes back to the same offset each time.
pub extract_dns_record-cycles :
    (fuel len sec target : ℕ) (mem : Memory) (ls : List (List ℕ)) (l rest behind : List ℕ) (z : ℕ)
    → AllLabels ls
    → IsLabel l
    → target < 2 ^ 14
    → target ≤ sec
    → drop sec mem ≡ encode ls ++ pointer_high target ∷ pointer_low target ∷ rest
    → drop target mem ≡ encode (l ∷ []) ++ pointer_high target ∷ pointer_low target ∷ behind
    → strlen mem target ≡ done z
    → length (encode ls) + 2 ≤ len
    → extract_dns_record fuel len sec mem ≡ out_of_fuel
unfolding extract_dns_record
extract_dns_record-cycles fuel len sec target mem ls l rest behind z all h small back e cycle text
      room =
    let c = past_labels (start_at sec) ls in
    let tail = pointer_high target ∷ pointer_low target ∷ rest in
    let within : length (encode ls) ≤ len = omega arith in
    let at = tail-behind_labels fuel len sec mem ls tail all e within in
    let same = idx-past_labels ls (start_at sec) in
    let same_sec = sec-past_labels ls (start_at sec) in
    rw
      (
        behind_labels fuel len sec mem ls tail all e within,
        extract_labels-pointer fuel len mem c (len - length ls) target rest at (omega (arith, same))
            small (omega (arith, same_sec)),
        dns_inflate-cycles mem target l behind z small h cycle text fuel (c.sec + 1) c.buf
            (omega (arith, same_sec)),
      )
      refl

-- A name that consists of a compression pointer back to a zero byte, which is the root name, makes
-- `dns_inflate` write before the start of its buffer.
pub extract_dns_record-root :
    (fuel len sec target : ℕ) (mem : Memory) (rest behind : List ℕ)
    → target < 2 ^ 14
    → target ≤ sec
    → drop sec mem ≡ pointer_high target ∷ pointer_low target ∷ rest
    → drop target mem ≡ 0 ∷ behind
    → 2 ≤ len
    → extract_dns_record (suc fuel) len sec mem ≡ fault
unfolding extract_dns_record dns_inflate set_last
extract_dns_record-root fuel len sec target mem rest behind small back e root room =
    let tail = pointer_high target ∷ pointer_low target ∷ rest in
    let start : drop (target + 0) mem ≡ 0 ∷ behind =
      ap (λ (q : ℕ). drop q mem) {x = target + 0} {y = target} (omega arith) ∙ root in
    let before : leb (sec + 1) target ≡ false = ground arith in
    rw
      (
        behind_labels (suc fuel) len sec mem [] tail tt e (omega arith),
        extract_labels-pointer (suc fuel) len mem (start_at sec) (len - 0) target rest e
            (omega arith) small back,
        before,
        strlen-done mem target [] behind tt root,
        join-joined (holding [] 1),
        inflate_labels-end (dns_inflate fuel mem) 0 mem target 0 0 (holding [] 1) behind start,
      )
      refl
