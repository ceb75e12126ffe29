-- ===== src/Netaddrs/Kept.antt =====
-- `lookup_l3host_common` of src/omphalos/netaddrs.c loses no host: what it takes out of a list it puts in
-- front again, so that the hosts of an interface are found however many lookups there are.
use omphalos.Base.{
  ℕ, ◌<◌, ◌≤◌, ◌≡◌, refl, ap, ◌∙◌, sym, arith, List, [], ◌∷◌, Option, none, some, Bool, true, ◌==◌,
  inl, inr, Bool-cases, length, load_bytes-done, bytes_at, replicate,
}
use mathlib.Core.Path.{subst}
use omphalos.Base.Ends.{Ends, Ends-done, Ends-if}
use omphalos.Hwaddrs.{Interface, l2categorize, same_bytes}
use omphalos.L3Hosts
use omphalos.Netaddrs
use omphalos.L3Hosts.{node}
use omphalos.Netaddrs.Lists.{Listed, holds, same_bytes-eq}
use omphalos.Netaddrs.Keys.{update_l3name-SameKey, first_name-SameKey}
use omphalos.Netaddrs.Valid.{
  Grows, IsValid, IsFamily, inet, inet6, bssid, Family, Family-hosts_of, put_host-Grows, made-Grows,
}
use omphalos.Netaddrs.Lookup.{reply, InFront}
use omphalos.Netaddrs.Search.{search-Finds, matches}

module _ (hosts : ℕ → L3Hosts.L3Host) (cmp : List ℕ) (k : ℕ) where
  -- What `splice` leaves, with the host that it found in front again, holds what the list held.
  abbrev pub Holding : List ℕ → Option (ℕ × List ℕ) → Type 0
  Holding ids none = Unit {0}
  Holding ids (some (j, rest)) = holds k ids ≡ true → holds k (j ∷ rest) ≡ true

  Holding-passed :
      (id : ℕ) (ids : List ℕ) (o : Option (ℕ × List ℕ))
      → Holding ids o
      → Holding
          (id ∷ ids)
          (elim o [ none ↦ none | some (found, others) ↦ some (found, id ∷ others) ])
  Holding-passed id ids none h = tt
  Holding-passed id ids (some (j, rest)) h = λ held. elim (Bool-cases (id == k)) [
    | inl here ↦ ground arith
    | inr other ↦ let after = h (rw other at held) in ground arith
  ]

  pub splice-Holding : (ids : List ℕ) → Holding ids (L3Hosts.splice hosts cmp ids)
  unfolding L3Hosts.splice
  splice-Holding [] = tt
  splice-Holding (id ∷ ids) = elim (Bool-cases (same_bytes (hosts id).addr cmp)) [
    | inl here ↦ rw here (λ held. held)
    | inr other ↦
        rw other (Holding-passed id ids (L3Hosts.splice hosts cmp ids) (splice-Holding ids))
  ]

module _ (net : L3Hosts.Net) (all : Option (List ℕ)) (fam : ℕ) (cmp : List ℕ) (k : ℕ)
    (same : (net.hosts k).addr ≡ cmp) where
  -- The only host of a list that has the address is taken out.
  pub splice-held :
      (ids : List ℕ)
      → Listed net all fam ids
      → holds k ids ≡ true
      → (rest : List ℕ) × (L3Hosts.splice net.hosts cmp ids ≡ some (k, rest))
  unfolding L3Hosts.splice
  splice-held [] h held = absurd (grind arith)
  splice-held (id ∷ ids) h held = elim (Bool-cases (id == k)) [
    | inl here ↦ let e : id ≡ k = ground arith in (ids, rw (e, matches net.hosts cmp k same) refl)
    | inr other ↦
        let held' : holds k ids ≡ true = rw other at held in
        elim (Bool-cases (same_bytes (net.hosts id).addr cmp)) [
          | inl twice ↦
              let first = same_bytes-eq (net.hosts id).addr cmp twice in
              let found =
                search-Finds net.hosts (net.hosts id).addr k ids (same ∙ sym first) held' in
              absurd (some_none (sym found.result ∙ h.0.3))
          | inr apart ↦ let (rest, e) = splice-held ids h.1 held' in (id ∷ rest, rw (apart, e) refl)
        ]
  ]
    where
      some_none : {n : ℕ} → some n ≡ none → ⊥
      some_none e = absurd (grind arith)

-- A host of the interface, by its number, with its family and address.
abbrev pub Held : ℕ → List ℕ → ℕ → L3Hosts.Net → L3Hosts.Cells → Type 0
Held g cmp k net cells =
    (k < net.next) × ((net.hosts k).addr ≡ cmp) × (holds k (L3Hosts.hosts_of g cells) ≡ true)

hosts_of-other :
    {fam g : ℕ}
    → IsFamily fam
    → IsFamily g
    → (k : ℕ) (ids : List ℕ) (cells : L3Hosts.Cells)
    → (holds k (L3Hosts.hosts_of fam cells) ≡ true → holds k ids ≡ true)
    → holds k (L3Hosts.hosts_of g cells) ≡ true
    → holds k (L3Hosts.hosts_of g (L3Hosts.with_hosts fam ids cells)) ≡ true
unfolding L3Hosts.hosts_of L3Hosts.with_hosts
hosts_of-other inet inet k ids cells h held = h held
hosts_of-other inet inet6 k ids cells h held = held
hosts_of-other inet bssid k ids cells h held = held
hosts_of-other inet6 inet k ids cells h held = held
hosts_of-other inet6 inet6 k ids cells h held = h held
hosts_of-other inet6 bssid k ids cells h held = held
hosts_of-other bssid inet k ids cells h held = held
hosts_of-other bssid inet6 k ids cells h held = held
hosts_of-other bssid bssid k ids cells h held = h held

module _ {fam g : ℕ} (known : IsFamily fam) (mine : IsFamily g) (addr : List ℕ) (k : ℕ)
    (net : L3Hosts.Net) (cells : L3Hosts.Cells) (held : Held g addr k net cells) where
  -- A host stays where hosts keep their addresses and its list holds it still.
  Held-Grows :
      (net' : L3Hosts.Net) (ids : List ℕ)
      → Grows net net'
      → (holds k (L3Hosts.hosts_of fam cells) ≡ true → holds k ids ≡ true)
      → Held g addr k net' (L3Hosts.with_hosts fam ids cells)
  Held-Grows net' ids grows h = (
    omega (arith, held.0, grows.1),
    (grows.0 k held.0).1 ∙ held.1,
    hosts_of-other known mine k ids cells h held.2,
  )

  module _ (others : Netaddrs.Others) (now : ℕ) (i : Interface) (l2 : ℕ) (cmp : List ℕ)
      (knownlocal : Bool) where
    abbrev HeldAfter : Netaddrs.Looked others → Type 0
    HeldAfter r = Held g addr k r.0 r.1.0

    reply-Held :
        (valid : IsValid net cells) (o : Option (ℕ × List ℕ))
        → Holding net.hosts cmp k (L3Hosts.hosts_of fam cells) o
        → HeldAfter (reply others now i l2 cmp knownlocal net cells valid known o)
    unfolding L3Hosts.new_l3host
    reply-Held valid (some (id, rest)) h =
        let seen : L3Hosts.L3Host = record (net.hosts id) { l2 = l2 } in
        let l3 = Netaddrs.update_l3name others now (l2categorize i l2) seen in
        let same = update_l3name-SameKey others now (l2categorize i l2) seen in
        Held-Grows (L3Hosts.put_host id l3 net) (id ∷ rest) (put_host-Grows id l3 net same) h
    reply-Held valid none h =
        let cat = l2categorize i l2 in
        elim (Bool-cases (Netaddrs.is_external others i cat fam cmp knownlocal)) [
          | inl external ↦ rw external held
          | inr here ↦
              let seen : L3Hosts.L3Host = record (L3Hosts.new_l3host fam cmp) { l2 = l2 } in
              let l3 = Netaddrs.first_name others now cat seen in
              let same = first_name-SameKey others now cat seen in
              rw here (
                Held-Grows (L3Hosts.put_host net.next l3 (L3Hosts.create_l3host fam cmp net))
                  (net.next ∷ L3Hosts.hosts_of fam cells) (made-Grows cmp net known l3 same)
                  (λ there. ground arith))
        ]

    lookup_address-Held :
        IsValid net cells
        → HeldAfter (Netaddrs.lookup_address others now i l2 fam cmp knownlocal net cells)
    unfolding Netaddrs.lookup_address
    lookup_address-Held valid =
        reply-Held valid (L3Hosts.splice net.hosts cmp (L3Hosts.hosts_of fam cells))
          (splice-Holding net.hosts cmp k (L3Hosts.hosts_of fam cells))

module _ {g : ℕ} (mine : IsFamily g) (cmp : List ℕ) (k : ℕ) (net : L3Hosts.Net)
    (cells : L3Hosts.Cells) where
  -- The host in front of its list.
  pub InFront-Held :
      IsValid net cells → InFront g cmp (net, (cells, node k)) → Held g cmp k net cells
  InFront-Held valid (same, (rest, front)) =
      let listed = subst (λ ids. Family g net ids) front (Family-hosts_of net cells valid mine) in
      let here : holds k (k ∷ rest) ≡ true = ground arith in
      (listed.0.0, same, ap (λ ids. holds k ids) front ∙ here)

  module _ (held : Held g cmp k net cells) (others : Netaddrs.Others) (now : ℕ) (i : Interface)
      (l2 : ℕ) (addr : List ℕ) (knownlocal : Bool) where
    -- A lookup of any address keeps a host of the interface in its list, with its address.
    pub lookup_l3host_common-Held :
        {fam : ℕ}
        → IsFamily fam
        → IsValid net cells
        → Netaddrs.address_size fam ≤ length addr
        → Ends
            (λ r. Held g cmp k r.0 r.1.0)
            (Netaddrs.lookup_l3host_common others now i l2 fam addr knownlocal net cells)
    unfolding Netaddrs.lookup_l3host_common
    lookup_l3host_common-Held inet valid long =
        let at = bytes_at addr 0 4 in
        rw (load_bytes-done addr 0 4 (omega arith)) (
          Ends-if (same_bytes at (replicate 4 0)) (λ _. Ends-done held)
            (λ _. Ends-done (
              lookup_address-Held inet mine cmp k net cells held others now i l2 at knownlocal
                valid)))
    lookup_l3host_common-Held inet6 valid long =
        let at = bytes_at addr 0 16 in
        rw (load_bytes-done addr 0 16 (omega arith)) (
          Ends-if (same_bytes at (replicate 16 0)) (λ _. Ends-done held)
            (λ _. Ends-done (
              lookup_address-Held inet6 mine cmp k net cells held others now i l2 at knownlocal
                valid)))
    lookup_l3host_common-Held bssid valid long = rw (load_bytes-done addr 0 6 (omega arith)) (
        Ends-done (
          lookup_address-Held bssid mine cmp k net cells held others now i l2 (bytes_at addr 0 6)
            knownlocal valid))
