-- ===== src/Dns/Name/Reading.antt =====
-- Reading the parts of an encoded name out of the packet: bytes, strings and labels.
use omphalos.Base.{
  load16_net, ◌*◌, ℕ, zero, suc, ◌+◌, ◌/◌, ◌%◌, ◌^◌, ◌<◌, bit_and, ◌≡◌, refl, ap, ◌∙◌, arith, List,
  [], ◌∷◌, ◌++◌, ◌==◌, length, drop, Memory, done, load8, load_bytes, false,
}
use omphalos.Base.Bits.{bit_and-high_mask, bit_and-mask}
use omphalos.Dns.Name.{string_length, strlen, load_string, pointer}

-- Two addresses that are equal.
move : (mem : Memory) (p q : ℕ) → p ≡ q → drop p mem ≡ drop q mem
move mem p q e = ap (λ (r : ℕ). drop r mem) e

abbrev pub NoNul : List ℕ → Type 0
NoNul [] = Unit {0}
NoNul (b ∷ bs) = (0 < b) × NoNul bs

-- A label: one to 63 bytes, none of them NUL.
pub record IsLabel (l : List ℕ) : Type 0 where
  pub nonempty : 0 < length l
  pub short : length l < 64
  pub no_nul : NoNul l

abbrev pub AllLabels : List (List ℕ) → Type 0
AllLabels [] = Unit {0}
AllLabels (l ∷ ls) = IsLabel l × AllLabels ls

-- Labels as the packet has them, each behind its length.
abbrev pub encode : List (List ℕ) → List ℕ
encode [] = []
encode (l ∷ ls) = (length l ∷ l) ++ encode ls

drop-suc : (mem : Memory) (p b : ℕ) (bs : List ℕ) → drop p mem ≡ b ∷ bs → drop (suc p) mem ≡ bs
drop-suc [] zero b bs e = grind arith
drop-suc [] (suc p) b bs e = grind arith
drop-suc (x ∷ mem) zero b bs e = grind arith
drop-suc (x ∷ mem) (suc p) b bs e = drop-suc mem p b bs e

pub drop-next : (mem : Memory) (p b : ℕ) (bs : List ℕ) → drop p mem ≡ b ∷ bs → drop (p + 1) mem ≡ bs
drop-next mem p b bs e = move mem (p + 1) (suc p) (omega arith) ∙ drop-suc mem p b bs e

pub drop-skip :
    (mem : Memory) (p : ℕ) (l bs : List ℕ) → drop p mem ≡ l ++ bs → drop (p + length l) mem ≡ bs
drop-skip mem p [] bs e = move mem (p + 0) p (omega arith) ∙ e
drop-skip mem p (b ∷ l) bs e =
    move mem (p + suc (length l)) (p + 1 + length l) (omega arith)
    ∙ drop-skip mem (p + 1) l bs (drop-next mem p b (l ++ bs) e)

pub load8-at : (mem : Memory) (p b : ℕ) (bs : List ℕ) → drop p mem ≡ b ∷ bs → load8 mem p ≡ done b
unfolding load8
load8-at [] zero b bs e = grind arith
load8-at [] (suc p) b bs e = grind arith
load8-at (x ∷ mem) zero b bs e = grind arith
load8-at (x ∷ mem) (suc p) b bs e = load8-at mem p b bs e

pub load16_net-at :
    (mem : Memory) (p hi lo : ℕ) (rest : List ℕ)
    → drop p mem ≡ hi ∷ lo ∷ rest
    → load16_net mem p ≡ done (256 * hi + lo)
unfolding load16_net
load16_net-at mem p hi lo rest e =
    rw
      (
        load8-at mem p hi (lo ∷ rest) e,
        load8-at mem (p + 1) lo rest (drop-next mem p hi (lo ∷ rest) e),
      )
      refl

-- Behind two parts.
pub drop-past :
    (mem : Memory) (p : ℕ) (a b rest : List ℕ)
    → drop p mem ≡ a ++ (b ++ rest)
    → drop (p + (length a + length b)) mem ≡ rest
drop-past mem p a b rest e =
    move mem (p + (length a + length b)) (p + length a + length b) (omega arith)
    ∙ drop-skip mem (p + length a) b rest (drop-skip mem p a (b ++ rest) e)

pub load_bytes-at :
    (mem : Memory) (p : ℕ) (l rest : List ℕ)
    → drop p mem ≡ l ++ rest
    → load_bytes mem p (length l) ≡ done l
unfolding load_bytes
load_bytes-at mem p [] rest e = refl
load_bytes-at mem p (b ∷ l) rest e =
    rw
      (
        load8-at mem p b (l ++ rest) e,
        load_bytes-at mem (p + 1) l rest (drop-next mem p b (l ++ rest) e),
      )
      refl

pub load_string-done :
    (mem : Memory) (p : ℕ) (l rest : List ℕ)
    → NoNul l
    → drop p mem ≡ l ++ rest
    → load_string mem p (length l) ≡ done l
unfolding load_string
load_string-done mem p [] rest h e = refl
load_string-done mem p (b ∷ l) rest h e =
    let nonzero : (b == 0) ≡ false = ground (arith, h.0) in
    rw
      (
        load8-at mem p b (l ++ rest) e,
        nonzero,
        load_string-done mem (p + 1) l rest h.1 (drop-next mem p b (l ++ rest) e),
      )
      refl

string_length-NoNul : (l rest : List ℕ) → NoNul l → string_length (l ++ 0 ∷ rest) ≡ done (length l)
unfolding string_length
string_length-NoNul [] rest h = refl
string_length-NoNul (b ∷ l) rest h =
    let nonzero : (b == 0) ≡ false = ground (arith, h.0) in
    rw (nonzero, string_length-NoNul l rest h.1) refl

pub strlen-done :
    (mem : Memory) (p : ℕ) (l rest : List ℕ)
    → NoNul l
    → drop p mem ≡ l ++ 0 ∷ rest
    → strlen mem p ≡ done (length l)
unfolding strlen
strlen-done mem p l rest h e = ap string_length e ∙ string_length-NoNul l rest h

pub NoNul-append : (xs ys : List ℕ) → NoNul xs → NoNul ys → NoNul (xs ++ ys)
NoNul-append [] ys g h = h
NoNul-append (x ∷ xs) ys g h = (g.0, NoNul-append xs ys g.1 h)

pub NoNul-encode : (ls : List (List ℕ)) → AllLabels ls → NoNul (encode ls)
NoNul-encode [] h = h
NoNul-encode (l ∷ ls) h =
    (h.0.nonempty, NoNul-append l (encode ls) h.0.no_nul (NoNul-encode ls h.1))

-- The two high bits of a length byte and of the first byte of a pointer.
pub label_bits : (n : ℕ) → n < 64 → bit_and n 0xc0 ≡ 0
label_bits n h = omega (arith, bit_and-high_mask 2 6 n)

pub pointer_bits : (h : ℕ) → h < 64 → bit_and (192 + h) 0xc0 ≡ 192
pointer_bits h small = omega (arith, bit_and-high_mask 2 6 (192 + h))

-- The two bytes of a pointer to `target`.
abbrev pub pointer_high : ℕ → ℕ
pointer_high target = 192 + target / 256

abbrev pub pointer_low : ℕ → ℕ
pointer_low target = target % 256

pub pointer-target :
    (target : ℕ) → target < 2 ^ 14 → pointer (pointer_high target) (pointer_low target) ≡ target
unfolding pointer
pointer-target target h = omega (arith, bit_and-mask 6 (192 + target / 256))
