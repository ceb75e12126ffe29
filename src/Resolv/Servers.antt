-- ===== src/Resolv/Servers.antt =====
-- The name servers that src/omphalos/resolv.c knows: which there are after offers, and what a query
-- says.
use omphalos.Base.{
  ℕ, ◌≡◌, ◌⊎◌, inl, inr, refl, arith, true, false, Bool-cases, ◌==◌, if◌then◌else◌, List, [], ◌∷◌,
}
use omphalos.Packet.{af_inet, af_inet6}
use omphalos.L3Hosts.{L3Host}
use omphalos.Netaddrs.Lists.{same_bytes_refl}
use omphalos.Resolv

-- No address comes twice.
abbrev pub Distinct : List (List ℕ) → Type 0
Distinct [] = Unit {0}
Distinct (r ∷ rs) = (Resolv.is_known r rs ≡ false) × Distinct rs

abbrev pub IsValid : Resolv.Resolvers → Type 0
IsValid rs = Distinct rs.resolvers × Distinct rs.resolvers6

offer_to-Distinct :
    (addr : List ℕ) (rs : List (List ℕ)) → Distinct rs → Distinct (Resolv.offer_to addr rs)
unfolding Resolv.offer_to
offer_to-Distinct addr rs h = elim (Bool-cases (Resolv.is_known addr rs)) [
  | inl known ↦ rw known h
  | inr fresh ↦ rw fresh (fresh, h)
]

is_known-offer_to :
    (addr : List ℕ) (rs : List (List ℕ)) → Resolv.is_known addr (Resolv.offer_to addr rs) ≡ true
unfolding Resolv.offer_to Resolv.is_known
is_known-offer_to addr rs = elim (Bool-cases (Resolv.is_known addr rs)) [
  | inl known ↦ rw (known, known) refl
  | inr fresh ↦ rw (fresh, same_bytes_refl addr) refl
]

is_known-kept :
    (a addr : List ℕ) (rs : List (List ℕ))
    → Resolv.is_known a rs ≡ true
    → Resolv.is_known a (Resolv.offer_to addr rs) ≡ true
unfolding Resolv.offer_to Resolv.is_known
is_known-kept a addr rs h = ground arith

-- The servers of a family.
abbrev pub servers_of : ℕ → Resolv.Resolvers → List (List ℕ)
servers_of fam rs = if fam == af_inet then rs.resolvers else rs.resolvers6

-- An offer of a name server, for IPv4 or IPv6, keeps the servers of each family distinct, forgets none
-- of the family, and the server offered is among them afterwards.
pub offer_nameserver-IsValid :
    (fam : ℕ) (addr : List ℕ) (rs : Resolv.Resolvers)
    → (fam ≡ af_inet) ⊎ (fam ≡ af_inet6)
    → IsValid rs
    → IsValid (Resolv.offer_nameserver fam addr rs)
      × (Resolv.is_known addr (servers_of fam (Resolv.offer_nameserver fam addr rs)) ≡ true)
      × ((a : List ℕ)
          → Resolv.is_known a (servers_of fam rs) ≡ true
          → Resolv.is_known a (servers_of fam (Resolv.offer_nameserver fam addr rs)) ≡ true)
unfolding Resolv.offer_nameserver
offer_nameserver-IsValid fam addr rs (inl v4) h = rw v4 (
  (offer_to-Distinct addr rs.resolvers h.0, h.1),
  is_known-offer_to addr rs.resolvers,
  λ a known. is_known-kept a addr rs.resolvers known,
)
offer_nameserver-IsValid fam addr rs (inr v6) h = rw v6 (
  (h.0, offer_to-Distinct addr rs.resolvers6 h.1),
  is_known-offer_to addr rs.resolvers6,
  λ a known. is_known-kept a addr rs.resolvers6 known,
)

abbrev pub both : List (List ℕ) → List (List ℕ) → Resolv.Resolvers
both v4 v6 = record { resolvers = v4; resolvers6 = v6 }

-- Where there are name servers of both families, what comes of the query to the one for IPv4 makes no
-- difference to the result: a failure goes unnoticed.
pub queue_for_naming-unnoticed :
    (send send' : ℕ → List ℕ → List ℕ → ℕ) (mdns : ℕ) (v4 v6 : List ℕ) (more4 more6 : List (List ℕ))
    (l3 : L3Host) (rev : List ℕ)
    → send af_inet6 v6 rev ≡ send' af_inet6 v6 rev
    → Resolv.queue_for_naming send mdns (both (v4 ∷ more4) (v6 ∷ more6)) l3 rev
      ≡ Resolv.queue_for_naming send' mdns (both (v4 ∷ more4) (v6 ∷ more6)) l3 rev
unfolding Resolv.queue_for_naming Resolv.query_first
queue_for_naming-unnoticed send send' mdns v4 v6 more4 more6 l3 rev same = rw same refl
