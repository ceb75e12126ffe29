-- ===== src/Iana/Trie.antt =====
-- What the trie of src/omphalos/iana.c says of a prefix, and what an entry changes.
use omphalos.Base.{
  ℕ, ◌≡◌, refl, ap, ◌∙◌, arith, Bool, true, false, ◌&&◌, ◌==◌, if◌then◌else◌, Bool-cases, inl, inr,
  sym, Option, none, some,
}
use omphalos.Iana
use omphalos.Iana.{Name, Table, Trie, key0, key1, key2}

-- The table of a prefix: that of its first two bytes.
unfoldable pub cell : Trie → ℕ → Option (Table Name)
cell trie hex = Iana.below (trie (key2 hex)) (key1 hex)

unfoldable pub at : Option (Table Name) → ℕ → Option (Option Name)
at none k = none
at (some c) k = some (c k)

-- Whether a prefix has a table, and its name in there.
abbrev pub listed : Trie → ℕ → Option (Option Name)
listed trie hex = at (cell trie hex) (key0 hex)

abbrev pub same_block : ℕ → ℕ → Bool
same_block q hex = (key2 q == key2 hex) && (key1 q == key1 hex)

-- A name that was there, or else another.
unfoldable pub or_else : Option Name → Option Name → Option Name
or_else none other = other
or_else (some name) other = some name

unfoldable pub name_in : Option (Option Name) → Option Name
name_in none = none
name_in (some name) = name

or_new-below {ℓ} : {A : Type ℓ} (t : Option (Table A)) (k : ℕ) → Iana.or_new t k ≡ Iana.below t k
unfolding Iana.or_new Iana.make_oui Iana.below
or_new-below none k = refl
or_new-below (some t) k = refl

or_else-none : (r : Option Name) → or_else r none ≡ r
unfolding or_else
or_else-none none = refl
or_else-none (some name) = refl

kept :
    (c : Table Name) (k : ℕ) (name : Name) (r : Option Name)
    → c k ≡ r
    → Iana.keep_entry c k name k ≡ or_else (c k) (some name)
unfolding Iana.keep_entry Iana.put_entry or_else
kept c k name none e =
    let same : (k == k) ≡ true = ground arith in rw (Iana.keep_entry, e, Iana.put_entry, same) refl
kept c k name (some x) e = rw (Iana.keep_entry, e, e) refl

passed_over :
    (c : Table Name) (k : ℕ) (name : Name) (j : ℕ) (r : Option Name)
    → c k ≡ r
    → (j == k) ≡ false
    → Iana.keep_entry c k name j ≡ or_else (c j) none
unfolding Iana.keep_entry Iana.put_entry
passed_over c k name j none e other =
    rw (Iana.keep_entry, e, Iana.put_entry, other) (sym (or_else-none (c j)))
passed_over c k name j (some x) e other = rw (Iana.keep_entry, e) (sym (or_else-none (c j)))

keep_entry-at :
    (c : Table Name) (k : ℕ) (name : Name) (j : ℕ)
    → Iana.keep_entry c k name j ≡ or_else (c j) (if j == k then some name else none)
unfolding Iana.keep_entry Iana.put_entry or_else
keep_entry-at c k name j = elim (Bool-cases (j == k)) [
  | inl same ↦ let e : j ≡ k = ground arith in rw (same, e) (kept c k name (c k) refl)
  | inr other ↦ rw other (passed_over c k name j (c k) refl other)
]

cell-insert_oui :
    (hex : ℕ) (name : Name) (trie : Trie) (q : ℕ)
    → cell (Iana.insert_oui hex name trie) q ≡ (
        if same_block q hex
        then some (Iana.keep_entry (Iana.or_new (cell trie hex)) (key0 hex) name)
        else cell trie q)
unfolding cell Iana.insert_oui Iana.put_entry Iana.below
cell-insert_oui hex name trie q = elim (Bool-cases (key2 q == key2 hex)) [
  | inr other ↦ rw other refl
  | inl same ↦
      let e : key2 q ≡ key2 hex = ground arith in
      elim (Bool-cases (key1 q == key1 hex)) [
        | inl too ↦ rw (same, too, or_new-below (trie (key2 hex)) (key1 hex)) refl
        | inr other ↦ rw (same, other, or_new-below (trie (key2 hex)) (key1 q), e) refl
      ]
]

name_in-at : (c : Option (Table Name)) (k : ℕ) → Iana.or_new c k ≡ name_in (at c k)
unfolding Iana.or_new Iana.make_oui name_in at
name_in-at none k = refl
name_in-at (some c) k = refl

-- What an entry adds to what is known of a prefix.
abbrev pub added : ℕ → ℕ → Name → Option (Option Name) → Option (Option Name)
added q hex name was =
    if same_block q hex
    then some (or_else (name_in was) (if key0 q == key0 hex then some name else none))
    else was

cells : (trie : Trie) (q hex : ℕ) → same_block q hex ≡ true → cell trie hex ≡ cell trie q
unfolding cell
cells trie q hex same =
    let e2 : key2 hex ≡ key2 q = ground arith in
    let e1 : key1 hex ≡ key1 q = ground arith in rw (e2, e1) refl

pub listed-insert_oui :
    (hex : ℕ) (name : Name) (trie : Trie) (q : ℕ)
    → listed (Iana.insert_oui hex name trie) q ≡ added q hex name (listed trie q)
unfolding at
listed-insert_oui hex name trie q = elim (Bool-cases (same_block q hex)) [
  | inr other ↦ rw (cell-insert_oui hex name trie q, other) refl
  | inl same ↦
      let same_cell : cell trie hex ≡ cell trie q = cells trie q hex same in
      rw (cell-insert_oui hex name trie q, same, same_cell)
        (ap some (
          keep_entry-at (Iana.or_new (cell trie q)) (key0 hex) name (key0 q)
          ∙ ap (λ r. or_else r (if key0 q == key0 hex then some name else none))
              (name_in-at (cell trie q) (key0 q))))
]
