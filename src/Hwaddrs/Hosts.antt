-- ===== src/Hwaddrs/Hosts.antt =====
-- What a lookup does to the list of hosts.
use omphalos.Base.{
  ℕ, ◌≡◌, refl, ap, sym, ◌∙◌, inl, inr, arith, List, [], ◌∷◌, Option, none, some, Bool, true, false,
  Bool-cases, ◌==◌, if◌then◌else◌,
}
use omphalos.Hwaddrs.{L2Host, Interface, hwaddrint, create_l2host, splice, lookup_l2host}

-- The host with an address.
abbrev pub find : ℕ → List L2Host → Option L2Host
find a [] = none
find a (h ∷ hs) = if h.hwaddr == a then some h else find a hs

-- The hosts with other addresses, in their order.
abbrev pub others : ℕ → List L2Host → List L2Host
others a [] = []
others a (h ∷ hs) = if h.hwaddr == a then others a hs else h ∷ others a hs

-- No address comes twice.
abbrev pub Distinct : List L2Host → Type 0
Distinct [] = Unit {0}
Distinct (h ∷ hs) = (find h.hwaddr hs ≡ none) × Distinct hs

others-absent : (a : ℕ) (hs : List L2Host) → find a hs ≡ none → others a hs ≡ hs
others-absent a [] e = refl
others-absent a (h ∷ hs) e = elim (Bool-cases (h.hwaddr == a)) [
  | inl here ↦ absurd (grind arith)
  | inr there ↦ rw there (ap (λ (t : List L2Host). h ∷ t) (others-absent a hs (rw there at e)))
]

find-others : (a : ℕ) (hs : List L2Host) → find a (others a hs) ≡ none
find-others a [] = refl
find-others a (h ∷ hs) = elim (Bool-cases (h.hwaddr == a)) [
  | inl here ↦ rw here (find-others a hs)
  | inr there ↦ rw (there, there) (find-others a hs)
]

find-others_ne : (a b : ℕ) (hs : List L2Host) → (a == b) ≡ false → find b (others a hs) ≡ find b hs
find-others_ne a b [] ne = refl
find-others_ne a b (h ∷ hs) ne = elim (Bool-cases (h.hwaddr == a)) [
  | inl here ↦
      let other : (h.hwaddr == b) ≡ false = grind arith in
      rw (here, other) (find-others_ne a b hs ne)
  | inr there ↦
      rw there
        (ap (λ (t : Option L2Host). if h.hwaddr == b then some h else t) (find-others_ne a b hs ne))
]

Distinct-others : (a : ℕ) (hs : List L2Host) → Distinct hs → Distinct (others a hs)
Distinct-others a [] d = d
Distinct-others a (h ∷ hs) d = elim (Bool-cases (h.hwaddr == a)) [
  | inl here ↦ rw here (Distinct-others a hs d.1)
  | inr there ↦
      let ne : (a == h.hwaddr) ≡ false = grind arith in
      rw there (find-others_ne a h.hwaddr hs ne ∙ d.0, Distinct-others a hs d.1)
]

-- What the loop finds in a list.
abbrev spliced : ℕ → List L2Host → Option L2Host → Option (L2Host × List L2Host)
spliced a hs none = none
spliced a hs (some h) = some (h, others a hs)

find-hwaddr : (a : ℕ) (hs : List L2Host) (h : L2Host) → find a hs ≡ some h → h.hwaddr ≡ a
find-hwaddr a [] h e = absurd (grind arith)
find-hwaddr a (k ∷ hs) h e = elim (Bool-cases (k.hwaddr == a)) [
  | inl here ↦ grind arith
  | inr there ↦ find-hwaddr a hs h (rw there at e)
]

passing :
    (a : ℕ) (h : L2Host) (hs : List L2Host) (o : Option L2Host)
    → (h.hwaddr == a) ≡ false
    → elim (spliced a hs o) [ none ↦ none | some (found, rest) ↦ some (found, h ∷ rest) ]
      ≡ spliced a (h ∷ hs) o
passing a h hs none there = refl
passing a h hs (some found) there = rw there refl

splice-others : (a : ℕ) (hs : List L2Host) → Distinct hs → splice a hs ≡ spliced a hs (find a hs)
unfolding splice
splice-others a [] d = refl
splice-others a (h ∷ hs) d = elim (Bool-cases (h.hwaddr == a)) [
  | inl here ↦
      let same : h.hwaddr ≡ a = grind arith in
      let rest = others-absent a hs (rw same at d.0) in
      rw (here, here) (ap (λ (t : List L2Host). some (h, t)) (sym rest))
  | inr there ↦ rw (there, splice-others a hs d.1) (passing a h hs (find a hs) there)
]

module _ (iana_lookup : List ℕ → Option (List ℕ)) (i : Interface) (hwaddr : List ℕ) where
  -- The host that a lookup returns.
  abbrev pub met : Option L2Host → L2Host
  met none = create_l2host iana_lookup i hwaddr
  met (some h) = h

  abbrev pub unknown : Option L2Host → Bool
  unknown none = true
  unknown (some h) = false

  abbrev pub in_front : Option L2Host → L2Host × Interface × Bool
  in_front known = (
    met known,
    record i { l2hosts = met known ∷ others (hwaddrint hwaddr) i.l2hosts },
    unknown known,
  )

  met-hwaddr :
      (o : Option L2Host)
      → ((h : L2Host) → o ≡ some h → h.hwaddr ≡ hwaddrint hwaddr)
      → (met o).hwaddr ≡ hwaddrint hwaddr
  unfolding create_l2host
  met-hwaddr none e = refl
  met-hwaddr (some h) e = e h refl

  put_in_front :
      (o : Option L2Host)
      → find (hwaddrint hwaddr) i.l2hosts ≡ o
      → elim (spliced (hwaddrint hwaddr) i.l2hosts o) [
        | some (l2, rest) ↦ (l2, record i { l2hosts = l2 ∷ rest }, false)
        | none ↦
            let l2 = create_l2host iana_lookup i hwaddr in
            (l2, record i { l2hosts = l2 ∷ i.l2hosts }, true)
      ]
        ≡ in_front o
  put_in_front none e = rw (others-absent (hwaddrint hwaddr) i.l2hosts e) refl
  put_in_front (some h) e = refl

  -- For an interface on which no address comes twice: `lookup_l2host` returns the host with the
  -- address, with all that is stored with it, or where there is none a new host with that address,
  -- and says which. The host is then in front of the list, and behind it stand the hosts with other
  -- addresses, in the order in which they were.
  pub lookup_l2host-in_front :
      Distinct i.l2hosts
      → lookup_l2host iana_lookup i hwaddr ≡ in_front (find (hwaddrint hwaddr) i.l2hosts)
  unfolding lookup_l2host
  lookup_l2host-in_front d =
      rw (splice-others (hwaddrint hwaddr) i.l2hosts d, lookup_l2host)
        (put_in_front (find (hwaddrint hwaddr) i.l2hosts) refl)

  -- `lookup_l2host` keeps the addresses on an interface distinct, and the host in front of the list
  -- behind it has the address looked up.
  pub lookup_l2host-Distinct :
      Distinct i.l2hosts
      → Distinct (lookup_l2host iana_lookup i hwaddr).1.l2hosts
        × ((lookup_l2host iana_lookup i hwaddr).0.hwaddr ≡ hwaddrint hwaddr)
  lookup_l2host-Distinct d =
      let same =
        met-hwaddr (find (hwaddrint hwaddr) i.l2hosts) (find-hwaddr (hwaddrint hwaddr) i.l2hosts) in
      rw (lookup_l2host-in_front d) (
        (
          ap (λ (a : ℕ). find a (others (hwaddrint hwaddr) i.l2hosts)) same
              ∙ find-others (hwaddrint hwaddr) i.l2hosts,
          Distinct-others (hwaddrint hwaddr) i.l2hosts d,
        ),
        same,
      )

  pub lookup_l2host-addrlen :
      Distinct i.l2hosts → (lookup_l2host iana_lookup i hwaddr).1.addrlen ≡ i.addrlen
  lookup_l2host-addrlen d =
      ap (λ (r : L2Host × Interface × Bool). r.1.addrlen) (lookup_l2host-in_front d)
