-- ===== src/Dns/Extra/Plain.antt =====
-- The data of an answer that is a name without compression.
use omphalos.Base.{
  ℕ, ◌+◌, ◌-◌, ◌*◌, ◌≤◌, ◌≡◌, refl, ap, ◌∙◌, arith, false, List, [], ◌∷◌, ◌++◌, length, ltb, ◌==◌,
  drop, some, Memory, done,
}
use omphalos.Dns.Name.{extract_labels}
use omphalos.Dns.Name.Plain.{dotted, past_labels, start_at, idx-past_labels, text-past_first}
use omphalos.Dns.Name.Reading.{AllLabels, encode, drop-skip, load_bytes-at, load16_net-at}
use omphalos.Dns.Name.Round.{behind_labels}
use omphalos.Dns.Name.Steps.{past_label}
use omphalos.Dns.Name.Whole.{cap-past_labels, extract_labels-cut}
use omphalos.Dns.Extra

module _ (fuel sec : ℕ) (mem : Memory) where
  -- The name ends with the data: the loop is left in front of the byte that ends it.
  name_end :
      (ls : List (List ℕ)) (rest : List ℕ)
      → AllLabels ls
      → drop sec mem ≡ encode ls ++ rest
      → extract_labels fuel (length (encode ls) + 1 + 1) (length (encode ls) + 1) mem (start_at sec)
        ≡ done (
            some (record (past_labels (start_at sec) ls) {
              idx = (past_labels (start_at sec) ls).idx + 1;
            }))
  name_end ls rest h e =
      behind_labels fuel (length (encode ls) + 1) sec mem ls rest h e (omega arith)
      ∙ extract_labels-cut fuel (length (encode ls) + 1) mem (past_labels (start_at sec) ls)
          (length (encode ls) + 1 - length ls) (omega (arith, idx-past_labels ls (start_at sec)))

  pub extract_dns_name-plain :
      (ls : List (List ℕ)) (rest : List ℕ)
      → AllLabels ls
      → drop sec mem ≡ encode ls ++ rest
      → Extra.extract_dns_name fuel (length (encode ls) + 1) sec mem ≡ done (some (dotted ls))
  unfolding Extra.extract_dns_name
  extract_dns_name-plain [] rest h e = rw (name_end [] rest h e) refl
  extract_dns_name-plain (l ∷ ls) rest h e =
      let made = cap-past_labels ls (past_label (start_at sec) l) (omega arith) in
      let nonzero : ((past_labels (start_at sec) (l ∷ ls)).buf.cap == 0) ≡ false =
        ground (arith, made) in
      rw (name_end (l ∷ ls) rest h e, nonzero)
        (ap (λ (t : List ℕ). done (some t)) (text-past_first l ls sec))

module _ (fuel len sec : ℕ) (mem : Memory) (t0 t1 t2 t3 hi lo : ℕ) where
  pub extract_dns_extra-ptr :
      (ls : List (List ℕ)) (rest : List ℕ)
      → AllLabels ls
      → drop sec mem ≡ t0 ∷ t1 ∷ t2 ∷ t3 ∷ hi ∷ lo ∷ (encode ls ++ rest)
      → 256 * hi + lo ≡ length (encode ls) + 1
      → length (encode ls) + 7 ≤ len
      → Extra.extract_dns_extra fuel len sec mem Extra.dns_type_ptr
        ≡ done (some (dotted ls, 6 + (length (encode ls) + 1)))
  unfolding Extra.extract_dns_extra Extra.is_raw
  extract_dns_extra-ptr ls rest h e size room =
      let fixed : ltb len 6 ≡ false = ground arith in
      let long : ltb len (length (encode ls) + 1 + 6 + 0) ≡ false = ground arith in
      let at : drop (sec + 6 + 0) mem ≡ encode ls ++ rest =
        ap (λ (p : ℕ). drop p mem) {x = sec + 6 + 0} {y = sec + 6} (omega arith)
        ∙ drop-skip mem sec (t0 ∷ t1 ∷ t2 ∷ t3 ∷ hi ∷ lo ∷ []) (encode ls ++ rest) e in
      rw
        (
          fixed,
          load_bytes-at mem sec (t0 ∷ t1 ∷ t2 ∷ t3 ∷ []) (hi ∷ lo ∷ (encode ls ++ rest)) e,
          load16_net-at mem (sec + 4) hi lo (encode ls ++ rest)
              (drop-skip mem sec (t0 ∷ t1 ∷ t2 ∷ t3 ∷ []) (hi ∷ lo ∷ (encode ls ++ rest)) e),
          size,
          long,
          extract_dns_name-plain fuel (sec + 6 + 0) mem ls rest h at,
        )
        (ap (λ (n : ℕ). done (some (dotted ls, 6 + n))) size)
