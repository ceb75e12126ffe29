-- ===== src/Iana/Load.antt =====
-- What iana_lookup says once a file is loaded.
use omphalos.Base.{
  ℕ, ◌+◌, ◌*◌, ◌^◌, ◌<◌, ◌≡◌, refl, ap, ◌∙◌, sym, arith, Bool, true, false, ◌||◌, ◌==◌,
  if◌then◌else◌, Bool-cases, inl, inr, List, [], ◌∷◌, Option, none, some,
}
use omphalos.Iana
use omphalos.Iana.{Name, Table, Trie, loaded, key0, key1, key2}
use omphalos.Iana.Trie.{cell, at, listed, same_block, or_else, name_in, added, listed-insert_oui}

-- The prefixes and the names of a file, in its order.
abbrev cons_entry : (List ℕ → List ℕ) → Option (ℕ × List ℕ) → List (ℕ × Name) → List (ℕ × Name)
cons_entry mbstowcs none es = es
cons_entry mbstowcs (some (hex, name)) es = (hex, loaded (mbstowcs name)) ∷ es

pub entries : (List ℕ → List ℕ) → List (List ℕ) → List (ℕ × Name)
entries mbstowcs [] = []
entries mbstowcs (line ∷ lines) =
    cons_entry mbstowcs (Iana.parse_oui_line line) (entries mbstowcs lines)

-- The first name of a prefix, and whether some prefix shares its first two bytes.
pub first_named : ℕ → List (ℕ × Name) → Option Name
first_named q [] = none
first_named q ((hex, name) ∷ es) =
    let rest = first_named q es in if q == hex then some name else rest

pub any_block : ℕ → List (ℕ × Name) → Bool
any_block q [] = false
any_block q ((hex, name) ∷ es) = same_block q hex || any_block q es

-- What is known of a prefix behind entries: names that are there stay.
pub after : ℕ → Option (Option Name) → List (ℕ × Name) → Option (Option Name)
after q none es = if any_block q es then some (first_named q es) else none
after q (some was) es = some (or_else was (first_named q es))

or_else_assoc : (a b c : Option Name) → or_else (or_else a b) c ≡ or_else a (or_else b c)
unfolding or_else
or_else_assoc none b c = refl
or_else_assoc (some a) b c = refl

-- The last byte tells apart prefixes of a block.
same_prefix :
    (q hex : ℕ)
    → q < 2 ^ 24
    → hex < 2 ^ 24
    → same_block q hex ≡ true
    → (key0 q == key0 hex) ≡ (q == hex)
same_prefix q hex small less same =
    let e2 : key2 q ≡ key2 hex = ground arith in
    let e1 : key1 q ≡ key1 hex = ground arith in
    elim (Bool-cases (q == hex)) [
      | inl eq ↦ let e : q ≡ hex = ground arith in ground arith
      | inr ne ↦ ground arith
    ]

other_prefix : (q hex : ℕ) → same_block q hex ≡ false → (q == hex) ≡ false
other_prefix q hex other = elim (Bool-cases (q == hex)) [
  | inr ne ↦ ne
  | inl eq ↦ let e : q ≡ hex = ground arith in absurd (grind arith)
]

after-[] : (q : ℕ) (was : Option (Option Name)) → after q was [] ≡ was
unfolding after first_named any_block or_else
after-[] q none = refl
after-[] q (some none) = refl
after-[] q (some (some name)) = refl

after-added :
    (q hex : ℕ) (name : Name) (was : Option (Option Name)) (es : List (ℕ × Name))
    → q < 2 ^ 24
    → hex < 2 ^ 24
    → after q (added q hex name was) es ≡ after q was ((hex, name) ∷ es)
unfolding after first_named any_block name_in or_else
after-added q hex name none es small less = elim (Bool-cases (same_block q hex)) [
  | inr other ↦ rw (other, other_prefix q hex other) refl
  | inl same ↦ elim (Bool-cases (q == hex)) [
    | inl eq ↦ rw (same, same_prefix q hex small less same, eq) refl
    | inr ne ↦ rw (same, same_prefix q hex small less same, ne) refl
  ]
]
after-added q hex name (some was) es small less = elim (Bool-cases (same_block q hex)) [
  | inr other ↦ rw (other, other_prefix q hex other) refl
  | inl same ↦ elim (Bool-cases (q == hex)) [
    | inl eq ↦
        rw (same, same_prefix q hex small less same, eq)
          (ap some (or_else_assoc was (some name) (first_named q es)))
    | inr ne ↦
        rw (same, same_prefix q hex small less same, ne)
          (ap some (or_else_assoc was none (first_named q es)))
  ]
]

parse_oui_line-lt :
    (line : List ℕ) (hex : ℕ) (name : List ℕ)
    → Iana.parse_oui_line line ≡ some (hex, name)
    → hex < 2 ^ 24
unfolding Iana.parse_oui_line
parse_oui_line-lt line hex name e = ground arith

module _ (mbstowcs : List ℕ → List ℕ) where
  listed-note :
      (q : ℕ) (entry : Option (ℕ × List ℕ)) (trie : Trie) (es : List (ℕ × Name))
      → q < 2 ^ 24
      → ((hex : ℕ) (name : List ℕ) → entry ≡ some (hex, name) → hex < 2 ^ 24)
      → after q (listed (Iana.note mbstowcs entry trie) q) es
        ≡ after q (listed trie q) (cons_entry mbstowcs entry es)
  unfolding Iana.note
  listed-note q none trie es small less = refl
  listed-note q (some (hex, name)) trie es small less =
      ap (λ r. after q r es) (listed-insert_oui hex (loaded (mbstowcs name)) trie q)
      ∙ after-added q hex (loaded (mbstowcs name)) (listed trie q) es small (less hex name refl)

  listed-parse_oui_lines :
      (q : ℕ) (lines : List (List ℕ)) (trie : Trie)
      → q < 2 ^ 24
      → listed (Iana.parse_oui_lines mbstowcs lines trie) q
        ≡ after q (listed trie q) (entries mbstowcs lines)
  unfolding Iana.parse_oui_lines entries
  listed-parse_oui_lines q [] trie small = sym (after-[] q (listed trie q))
  listed-parse_oui_lines q (line ∷ lines) trie small =
      listed-parse_oui_lines q lines (Iana.note mbstowcs (Iana.parse_oui_line line) trie) small
      ∙ listed-note q (Iana.parse_oui_line line) trie (entries mbstowcs lines) small
          (parse_oui_line-lt line)

-- The name of an address, by what is known of its prefix.
pub named : List ℕ → Option (Option Name) → Option Name
named oui none = Iana.unlisted oui
named oui (some name) = name

lookup_at :
    (t : Option (Table Name)) (k : ℕ) (oui : List ℕ)
    → elim t [ none ↦ Iana.unlisted oui | some names ↦ names k ] ≡ named oui (at t k)
unfolding named at
lookup_at none k oui = refl
lookup_at (some t) k oui = refl

lookup_listed :
    (trie : Trie) (a b c d e f : ℕ)
    → a < 256
    → b < 256
    → c < 256
    → Iana.iana_lookup trie (a ∷ b ∷ c ∷ d ∷ e ∷ f ∷ [])
      ≡ named (a ∷ b ∷ c ∷ d ∷ e ∷ f ∷ []) (listed trie (a * 65536 + b * 256 + c))
unfolding Iana.iana_lookup cell
lookup_listed trie a b c d e f la lb lc =
    let e2 : key2 (a * 65536 + b * 256 + c) ≡ a = omega arith in
    let e1 : key1 (a * 65536 + b * 256 + c) ≡ b = omega arith in
    let e0 : key0 (a * 65536 + b * 256 + c) ≡ c = omega arith in
    rw (e2, e1, e0) (lookup_at (Iana.below (trie a) b) c (a ∷ b ∷ c ∷ d ∷ e ∷ f ∷ []))

-- Once the lines of a file are loaded into a trie, an address of six bytes has the name that the trie
-- had for its first three, or else the first name that the file has for them. Where there is none, it
-- has no name at all if the trie or the file has another prefix with the same first two bytes, and
-- otherwise the name of a multicast or of a locally assigned address, if it is one.
pub iana_lookup-parse_oui_lines :
    (mbstowcs : List ℕ → List ℕ) (lines : List (List ℕ)) (trie : Trie) (a b c d e f : ℕ)
    → a < 256
    → b < 256
    → c < 256
    → Iana.iana_lookup (Iana.parse_oui_lines mbstowcs lines trie) (a ∷ b ∷ c ∷ d ∷ e ∷ f ∷ [])
      ≡ named (a ∷ b ∷ c ∷ d ∷ e ∷ f ∷ []) (
          after
            (a * 65536 + b * 256 + c)
            (listed trie (a * 65536 + b * 256 + c))
            (entries mbstowcs lines))
iana_lookup-parse_oui_lines mbstowcs lines trie a b c d e f la lb lc =
    lookup_listed (Iana.parse_oui_lines mbstowcs lines trie) a b c d e f la lb lc
    ∙ ap (named (a ∷ b ∷ c ∷ d ∷ e ∷ f ∷ []))
        (listed-parse_oui_lines mbstowcs (a * 65536 + b * 256 + c) lines trie (omega arith))
