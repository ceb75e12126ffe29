-- ===== src/Netaddrs/Valid.antt =====
-- When the hosts of src/omphalos/netaddrs.c are in order, and what keeps them so: writing to a host, and
-- making one.
use omphalos.Base.{
  ℕ, suc, ◌≤◌, ◌≡◌, refl, ap, ◌∙◌, arith, List, ◌∷◌, Option, none, some, true, false, ◌==◌,
  if◌then◌else◌, inl, inr, Bool-cases,
}
use omphalos.Packet.{af_inet, af_inet6}
use omphalos.L3Hosts
use omphalos.L3Hosts.{node}
use omphalos.Netaddrs.Lists.{holds_in, Listed, Keeps, Listed-Keeps, search-Keeps}
use omphalos.Netaddrs.Keys.{SameKey}

-- The list of all hosts of a family, where there is one.
abbrev pub all_of : ℕ → L3Hosts.Net → Option (List ℕ)
all_of fam net =
    if fam == af_inet
    then some net.ipv4hosts
    else if fam == af_inet6
    then some net.ipv6hosts
    else none

abbrev pub Family : ℕ → L3Hosts.Net → List ℕ → Type 0
Family fam net ids = Listed net (all_of fam net) fam ids

-- On an interface no address comes twice in a family, and its IPv4 and IPv6 hosts are among all hosts.
abbrev pub IsValid : L3Hosts.Net → L3Hosts.Cells → Type 0
IsValid net i =
    Family af_inet net i.ip4hosts
    × Family af_inet6 net i.ip6hosts
    × Family L3Hosts.af_bssid net i.cells

-- The change that a lookup makes: hosts keep their addresses, and none is lost.
abbrev pub Grows : L3Hosts.Net → L3Hosts.Net → Type 0
Grows net net' =
    Keeps net net'
    × (net.next ≤ net'.next)
    × ((g id : ℕ) → holds_in id (all_of g net) ≡ true → holds_in id (all_of g net') ≡ true)

pub Family-Grows :
    (g : ℕ) (net net' : L3Hosts.Net) (ids : List ℕ)
    → Grows net net'
    → Family g net ids
    → Family g net' ids
Family-Grows g net net' ids grows h =
    Listed-Keeps net (all_of g net) g net' grows.0 (all_of g net') ids grows.1 (grows.2 g) h

-- The three families.
pub data IsFamily : ℕ → Type 0 where
  inet : IsFamily af_inet
  inet6 : IsFamily af_inet6
  bssid : IsFamily L3Hosts.af_bssid

module _ (net : L3Hosts.Net) (i : L3Hosts.Cells) (valid : IsValid net i) where
  pub Family-hosts_of : {fam : ℕ} → IsFamily fam → Family fam net (L3Hosts.hosts_of fam i)
  unfolding L3Hosts.hosts_of
  Family-hosts_of inet = valid.0
  Family-hosts_of inet6 = valid.1
  Family-hosts_of bssid = valid.2

  pub IsValid-with_hosts :
      {fam : ℕ}
      → IsFamily fam
      → (net' : L3Hosts.Net) (ids : List ℕ) → Grows net net'
      → Family fam net' ids
      → IsValid net' (L3Hosts.with_hosts fam ids i)
  unfolding L3Hosts.with_hosts
  IsValid-with_hosts inet net' ids grows h = (
    h,
    Family-Grows af_inet6 net net' i.ip6hosts grows valid.1,
    Family-Grows L3Hosts.af_bssid net net' i.cells grows valid.2,
  )
  IsValid-with_hosts inet6 net' ids grows h = (
    Family-Grows af_inet net net' i.ip4hosts grows valid.0,
    h,
    Family-Grows L3Hosts.af_bssid net net' i.cells grows valid.2,
  )
  IsValid-with_hosts bssid net' ids grows h = (
    Family-Grows af_inet net net' i.ip4hosts grows valid.0,
    Family-Grows af_inet6 net net' i.ip6hosts grows valid.1,
    h,
  )

pub hosts_of-with_hosts :
    (fam : ℕ) (ids : List ℕ) (i : L3Hosts.Cells)
    → L3Hosts.hosts_of fam (L3Hosts.with_hosts fam ids i) ≡ ids
unfolding L3Hosts.hosts_of L3Hosts.with_hosts
hosts_of-with_hosts fam ids i = ground arith

pub put_host-Grows :
    (id : ℕ) (l3 : L3Hosts.L3Host) (net : L3Hosts.Net)
    → SameKey (net.hosts id) l3
    → Grows net (L3Hosts.put_host id l3 net)
unfolding L3Hosts.put_host
put_host-Grows id l3 net same = (
  λ j below. elim (Bool-cases (j == id)) [
    | inl here ↦ let e : j ≡ id = ground arith in rw (here, e) same
    | inr other ↦ rw other (refl, refl)
  ],
  omega arith,
  λ g j h. h,
)

pub hosts-put_host :
    (id : ℕ) (l3 : L3Hosts.L3Host) (net : L3Hosts.Net) → (L3Hosts.put_host id l3 net).hosts id ≡ l3
unfolding L3Hosts.put_host
hosts-put_host id l3 net = let here : (id == id) ≡ true = ground arith in rw here refl

module _ (cmp : List ℕ) (net : L3Hosts.Net) where
  -- What a new host is behind, on the whole.
  hosts-create_l3host :
      {fam : ℕ}
      → IsFamily fam
      → (L3Hosts.create_l3host fam cmp net).hosts
        ≡ L3Hosts.update net.hosts net.next (L3Hosts.new_l3host fam cmp)
  unfolding L3Hosts.create_l3host L3Hosts.push_global
  hosts-create_l3host inet = refl
  hosts-create_l3host inet6 = refl
  hosts-create_l3host bssid = refl

  next-create_l3host :
      {fam : ℕ} → IsFamily fam → (L3Hosts.create_l3host fam cmp net).next ≡ suc net.next
  unfolding L3Hosts.create_l3host L3Hosts.push_global
  next-create_l3host inet = refl
  next-create_l3host inet6 = refl
  next-create_l3host bssid = refl

  holds_in-create_l3host :
      {fam : ℕ}
      → IsFamily fam
      → holds_in net.next (all_of fam (L3Hosts.create_l3host fam cmp net)) ≡ true
  unfolding L3Hosts.create_l3host L3Hosts.push_global
  holds_in-create_l3host inet = ground arith
  holds_in-create_l3host inet6 = ground arith
  holds_in-create_l3host bssid = refl

  holds_in-older :
      {fam : ℕ}
      → IsFamily fam
      → (g id : ℕ) → holds_in id (all_of g net) ≡ true
      → holds_in id (all_of g (L3Hosts.create_l3host fam cmp net)) ≡ true
  unfolding L3Hosts.create_l3host L3Hosts.push_global
  holds_in-older inet g id h = ground arith
  holds_in-older inet6 g id h = ground arith
  holds_in-older bssid g id h = h

  module _ {fam : ℕ} (known : IsFamily fam) (l3 : L3Hosts.L3Host)
      (same : SameKey (L3Hosts.new_l3host fam cmp) l3) where
    abbrev pub made : L3Hosts.Net
    made = L3Hosts.put_host net.next l3 (L3Hosts.create_l3host fam cmp net)

    hosts-made : (j : ℕ) → (j == net.next) ≡ false → made.hosts j ≡ net.hosts j
    unfolding L3Hosts.put_host
    hosts-made j other = rw (other, hosts-create_l3host known, other) refl

    pub made-Grows : Grows net made
    unfolding L3Hosts.put_host
    made-Grows = (
      λ j below.
          let kept = hosts-made j (ground arith) in
          (ap (λ (h : L3Hosts.L3Host). h.fam) kept, ap (λ (h : L3Hosts.L3Host). h.addr) kept),
      omega (arith, next-create_l3host known),
      holds_in-older known,
    )

    -- The new host in front of those that do not have its address.
    pub Family-made :
        (ids : List ℕ)
        → Family fam net ids
        → L3Hosts.search net.hosts cmp ids ≡ none
        → Family fam made (net.next ∷ ids)
    unfolding L3Hosts.put_host L3Hosts.new_l3host
    Family-made ids h absent = (
      (
        omega (arith, next-create_l3host known),
        ap (λ (h : L3Hosts.L3Host). h.fam)
              (hosts-put_host net.next l3 (L3Hosts.create_l3host fam cmp net))
            ∙ same.0,
        holds_in-create_l3host known,
        ap (λ (a : List ℕ). L3Hosts.search made.hosts a ids)
              (ap (λ (h : L3Hosts.L3Host). h.addr)
                  (hosts-put_host net.next l3 (L3Hosts.create_l3host fam cmp net))
                ∙ same.1)
            ∙ search-Keeps net (all_of fam net) fam made made-Grows.0 cmp ids h
            ∙ absent,
      ),
      Family-Grows fam net made ids made-Grows h,
    )
