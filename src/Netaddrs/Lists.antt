-- ===== src/Netaddrs/Lists.antt =====
-- The lists of hosts of src/omphalos/netaddrs.c: no address comes twice, a search finds the address,
-- and taking a host out keeps the others.
use omphalos.Base.{
  ℕ, ◌<◌, ◌≤◌, ◌≡◌, refl, ap, ◌∙◌, arith, List, [], ◌∷◌, Option, none, some, Bool, true, false,
  ◌==◌, if◌then◌else◌, inl, inr, Bool-cases,
}
use omphalos.Hwaddrs.{same_bytes}
use omphalos.L3Hosts

pub same_bytes-eq : (a b : List ℕ) → same_bytes a b ≡ true → a ≡ b
unfolding same_bytes
same_bytes-eq [] [] h = refl
same_bytes-eq [] (y ∷ b) h = absurd (grind arith)
same_bytes-eq (x ∷ a) [] h = absurd (grind arith)
same_bytes-eq (x ∷ a) (y ∷ b) h =
    let first : x ≡ y = ground arith in let rest = same_bytes-eq a b (ground arith) in grind arith

pub same_bytes_refl : (a : List ℕ) → same_bytes a a ≡ true
unfolding same_bytes
same_bytes_refl [] = refl
same_bytes_refl (x ∷ a) = ground (arith, same_bytes_refl a)

absent-cons :
    (hosts : ℕ → L3Hosts.L3Host) (a : List ℕ) (id : ℕ) (ids : List ℕ)
    → L3Hosts.search hosts a (id ∷ ids) ≡ none
    → (same_bytes (hosts id).addr a ≡ false) × (L3Hosts.search hosts a ids ≡ none)
unfolding L3Hosts.search
absent-cons hosts a id ids e = elim (Bool-cases (same_bytes (hosts id).addr a)) [
  | inl same ↦ absurd (grind arith)
  | inr apart ↦ (apart, rw apart at e)
]

cons-absent :
    (hosts : ℕ → L3Hosts.L3Host) (a : List ℕ) (id : ℕ) (ids : List ℕ)
    → same_bytes (hosts id).addr a ≡ false
    → L3Hosts.search hosts a ids ≡ none
    → L3Hosts.search hosts a (id ∷ ids) ≡ none
unfolding L3Hosts.search
cons-absent hosts a id ids apart rest = rw apart rest

-- A number in a list.
abbrev pub holds : ℕ → List ℕ → Bool
holds id [] = false
holds id (j ∷ ids) = if j == id then true else holds id ids

-- A number in the list of all hosts of a family, where there is one.
abbrev pub holds_in : ℕ → Option (List ℕ) → Bool
holds_in id none = true
holds_in id (some all) = holds id all

-- Hosts of one family, whose addresses are distinct and which are among all hosts of the family.
abbrev pub Listed : L3Hosts.Net → Option (List ℕ) → ℕ → List ℕ → Type 0
Listed net all fam [] = Unit {0}
Listed net all fam (id ∷ ids) =
    ((id < net.next)
      × ((net.hosts id).fam ≡ fam)
      × (holds_in id all ≡ true)
      × (L3Hosts.search net.hosts (net.hosts id).addr ids ≡ none))
    × Listed net all fam ids

-- Every host that there was has its address and family still.
abbrev pub Keeps : L3Hosts.Net → L3Hosts.Net → Type 0
Keeps net net' =
    (id : ℕ)
    → id < net.next
    → (net'.hosts id).fam ≡ (net.hosts id).fam × ((net'.hosts id).addr ≡ (net.hosts id).addr)

module _ (net : L3Hosts.Net) (all : Option (List ℕ)) (fam : ℕ) where
  module _ (net' : L3Hosts.Net) (keeps : Keeps net net') where
    pub search-Keeps :
        (cmp ids : List ℕ)
        → Listed net all fam ids
        → L3Hosts.search net'.hosts cmp ids ≡ L3Hosts.search net.hosts cmp ids
    unfolding L3Hosts.search
    search-Keeps cmp [] h = refl
    search-Keeps cmp (id ∷ ids) h = rw ((keeps id h.0.0).1, search-Keeps cmp ids h.1) refl

    -- More hosts of the family change nothing.
    pub Listed-Keeps :
        (all' : Option (List ℕ)) (ids : List ℕ)
        → net.next ≤ net'.next
        → ((id : ℕ) → holds_in id all ≡ true → holds_in id all' ≡ true)
        → Listed net all fam ids
        → Listed net' all' fam ids
    Listed-Keeps all' [] grows more h = tt
    Listed-Keeps all' (id ∷ ids) grows more h = (
      (
        omega arith,
        (keeps id h.0.0).0 ∙ h.0.1,
        more id h.0.2,
        ap (λ (a : List ℕ). L3Hosts.search net'.hosts a ids) (keeps id h.0.0).1
            ∙ search-Keeps (net.hosts id).addr ids h.1
            ∙ h.0.3,
      ),
      Listed-Keeps all' ids grows more h.1,
    )

  module _ (cmp : List ℕ) where
    -- What `splice` gives: the list without a host that has the address, or no host has it.
    abbrev pub Spliced : List ℕ → Option (ℕ × List ℕ) → Type 0
    Spliced ids none = L3Hosts.search net.hosts cmp ids ≡ none
    Spliced ids (some (id, rest)) =
        ((net.hosts id).addr ≡ cmp)
        × Listed net all fam (id ∷ rest)
        × ((a : List ℕ)
            → L3Hosts.search net.hosts a ids ≡ none
            → L3Hosts.search net.hosts a rest ≡ none)

    passed :
        (id : ℕ) (ids : List ℕ) (o : Option (ℕ × List ℕ))
        → Listed net all fam (id ∷ ids)
        → same_bytes (net.hosts id).addr cmp ≡ false
        → Spliced ids o
        → Spliced
            (id ∷ ids)
            (elim o [ none ↦ none | some (found, others) ↦ some (found, id ∷ others) ])
    unfolding L3Hosts.search
    passed id ids none h other s = rw other s
    passed id ids (some (found, rest)) h other s = (
      s.0,
      (
        (
          s.1.0.0,
          s.1.0.1,
          s.1.0.2,
          cons-absent net.hosts (net.hosts found).addr id rest
              (ap (λ (a : List ℕ). same_bytes (net.hosts id).addr a) s.0 ∙ other) s.1.0.3,
        ),
        ((h.0.0, h.0.1, h.0.2, s.2 (net.hosts id).addr h.0.3), s.1.1),
      ),
      λ a absent.
          let apart = absent-cons net.hosts a id ids absent in
          cons-absent net.hosts a id rest apart.0 (s.2 a apart.1),
    )

    pub splice-Spliced :
        (ids : List ℕ) → Listed net all fam ids → Spliced ids (L3Hosts.splice net.hosts cmp ids)
    unfolding L3Hosts.splice L3Hosts.search
    splice-Spliced [] h = refl
    splice-Spliced (id ∷ ids) h = elim (Bool-cases (same_bytes (net.hosts id).addr cmp)) [
      | inl here ↦ rw here (
        same_bytes-eq (net.hosts id).addr cmp here,
        h,
        λ a absent. (absent-cons net.hosts a id ids absent).1,
      )
      | inr there ↦
          rw there
            (passed id ids (L3Hosts.splice net.hosts cmp ids) h there (splice-Spliced ids h.1))
    ]

-- Every host of a list is among all hosts.
pub Listed-holds :
    (net : L3Hosts.Net) (all : Option (List ℕ)) (fam id : ℕ) (ids : List ℕ)
    → Listed net all fam ids
    → holds id ids ≡ true
    → holds_in id all ≡ true
Listed-holds net all fam id [] h e = absurd (grind arith)
Listed-holds net all fam id (j ∷ ids) h e = elim (Bool-cases (j == id)) [
  | inl here ↦ let same : j ≡ id = ground arith in rw same at h.0.2
  | inr there ↦ Listed-holds net all fam id ids h.1 (rw there at e)
]
