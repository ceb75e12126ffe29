-- ===== src/Netaddrs/Lookup.antt =====
-- `lookup_l3host_common` of src/omphalos/netaddrs.c: the host that it returns is in front of the list
-- of the interface and has the address, and no address comes twice.
use omphalos.Base.{
  ℕ, ◌≤◌, ◌≡◌, ap, ◌∙◌, arith, List, ◌∷◌, Option, none, some, Bool, if◌then◌else◌, inl, inr,
  Bool-cases, length, load_bytes-done, bytes_at, replicate,
}
use omphalos.Base.Ends.{Ends, Ends-done, Ends-if}
use omphalos.Hwaddrs.{Interface, l2categorize, same_bytes}
use omphalos.L3Hosts
use omphalos.Netaddrs
use omphalos.L3Hosts.{node}
use omphalos.Netaddrs.Lists.{Spliced, splice-Spliced}
use omphalos.Netaddrs.Keys.{update_l3name-SameKey, first_name-SameKey}
use omphalos.Netaddrs.Valid.{
  all_of, IsValid, IsFamily, inet, inet6, bssid, Family-hosts_of, IsValid-with_hosts,
  hosts_of-with_hosts, put_host-Grows, Family-Grows, made-Grows, Family-made, hosts-put_host,
}

-- A host that a lookup has returned: the first of its list, with the address.
abbrev pub InFront : ℕ → List ℕ → L3Hosts.Net × (L3Hosts.Cells × L3Hosts.Host) → Type 0
InFront fam cmp (net, (i, node id)) =
    ((net.hosts id).addr ≡ cmp) × ((rest : List ℕ) × (L3Hosts.hosts_of fam i ≡ id ∷ rest))
InFront fam cmp (net, (i, _)) = Unit {0}

-- The state is valid and the host in front.
abbrev pub Returned : ℕ → List ℕ → L3Hosts.Net × (L3Hosts.Cells × L3Hosts.Host) → Type 0
Returned fam cmp r = IsValid r.0 r.1.0 × InFront fam cmp r

module _ (others : Netaddrs.Others) (now : ℕ) (i : Interface) (l2 : ℕ) (cmp : List ℕ)
    (knownlocal : Bool) (net : L3Hosts.Net) (cells : L3Hosts.Cells) (valid : IsValid net cells)
    {fam : ℕ} (known : IsFamily fam) where
  -- What comes of a search of the list of the interface.
  abbrev pub reply : Option (ℕ × List ℕ) → Netaddrs.Looked others
  reply (some (id, rest)) = (
    L3Hosts.put_host id
        (Netaddrs.update_l3name others now (l2categorize i l2) (record (net.hosts id) { l2 = l2 }))
        net,
    (L3Hosts.with_hosts fam (id ∷ rest) cells, node id),
  )
  reply none =
      if Netaddrs.is_external others i (l2categorize i l2) fam cmp knownlocal
      then (net, (cells, L3Hosts.external_l3))
      else (
        L3Hosts.put_host net.next
            (Netaddrs.first_name others now (l2categorize i l2)
              (record (L3Hosts.new_l3host fam cmp) { l2 = l2 }))
            (L3Hosts.create_l3host fam cmp net),
        (L3Hosts.with_hosts fam (net.next ∷ L3Hosts.hosts_of fam cells) cells, node net.next),
      )

  reply-Returned :
      (o : Option (ℕ × List ℕ))
      → Spliced net (all_of fam net) fam cmp (L3Hosts.hosts_of fam cells) o
      → Returned fam cmp (reply o)
  unfolding L3Hosts.new_l3host
  reply-Returned (some (id, rest)) s =
      let cat = l2categorize i l2 in
      let seen : L3Hosts.L3Host = record (net.hosts id) { l2 = l2 } in
      let l3 = Netaddrs.update_l3name others now cat seen in
      let same = update_l3name-SameKey others now cat seen in
      let grows = put_host-Grows id l3 net same in
      let net' = L3Hosts.put_host id l3 net in
      (
        IsValid-with_hosts net cells valid known net' (id ∷ rest) grows
            (Family-Grows fam net net' (id ∷ rest) grows s.1),
        (
          ap (λ (h : L3Hosts.L3Host). h.addr) (hosts-put_host id l3 net) ∙ same.1 ∙ s.0,
          (rest, hosts_of-with_hosts fam (id ∷ rest) cells),
        ),
      )
  reply-Returned none absent =
      let cat = l2categorize i l2 in
      elim (Bool-cases (Netaddrs.is_external others i cat fam cmp knownlocal)) [
        | inl external ↦ rw external (valid, tt)
        | inr here ↦
            let seen : L3Hosts.L3Host = record (L3Hosts.new_l3host fam cmp) { l2 = l2 } in
            let l3 = Netaddrs.first_name others now cat seen in
            let same = first_name-SameKey others now cat seen in
            let net' = L3Hosts.put_host net.next l3 (L3Hosts.create_l3host fam cmp net) in
            let ids = L3Hosts.hosts_of fam cells in
            rw here (
              IsValid-with_hosts net cells valid known net' (net.next ∷ ids)
                  (made-Grows cmp net known l3 same)
                  (Family-made cmp net known l3 same ids (Family-hosts_of net cells valid known)
                    absent),
              (
                ap (λ (h : L3Hosts.L3Host). h.addr)
                      (hosts-put_host net.next l3 (L3Hosts.create_l3host fam cmp net))
                    ∙ same.1,
                (ids, hosts_of-with_hosts fam (net.next ∷ ids) cells),
              ),
            )
      ]

  lookup_address-Returned :
      Returned fam cmp (Netaddrs.lookup_address others now i l2 fam cmp knownlocal net cells)
  unfolding Netaddrs.lookup_address
  lookup_address-Returned =
      reply-Returned (L3Hosts.splice net.hosts cmp (L3Hosts.hosts_of fam cells)) (
        splice-Spliced net (all_of fam net) fam cmp (L3Hosts.hosts_of fam cells)
          (Family-hosts_of net cells valid known))

module _ (others : Netaddrs.Others) (now : ℕ) (i : Interface) (l2 : ℕ) (addr : List ℕ)
    (knownlocal : Bool) (net : L3Hosts.Net) (cells : L3Hosts.Cells) where
  -- From hosts among which no address comes twice, for each of the families IPv4, IPv6 and BSSID and an
  -- address of which all bytes can be read: the lookup ends, no address comes twice, IPv4 and IPv6
  -- hosts of the interface are among all hosts, and a host that it returns has the address and is in
  -- front of the list of the interface.
  pub lookup_l3host_common-Returned :
      {fam : ℕ}
      → IsFamily fam
      → IsValid net cells
      → Netaddrs.address_size fam ≤ length addr
      → Ends
          (Returned fam (bytes_at addr 0 (Netaddrs.address_size fam)))
          (Netaddrs.lookup_l3host_common others now i l2 fam addr knownlocal net cells)
  unfolding Netaddrs.lookup_l3host_common
  lookup_l3host_common-Returned inet valid long =
      let cmp = bytes_at addr 0 4 in
      rw (load_bytes-done addr 0 4 (omega arith)) (
        Ends-if (same_bytes cmp (replicate 4 0)) (λ _. Ends-done (valid, tt))
          (λ _.
            Ends-done
              (lookup_address-Returned others now i l2 cmp knownlocal net cells valid inet)))
  lookup_l3host_common-Returned inet6 valid long =
      let cmp = bytes_at addr 0 16 in
      rw (load_bytes-done addr 0 16 (omega arith)) (
        Ends-if (same_bytes cmp (replicate 16 0)) (λ _. Ends-done (valid, tt))
          (λ _.
            Ends-done
              (lookup_address-Returned others now i l2 cmp knownlocal net cells valid inet6)))
  lookup_l3host_common-Returned bssid valid long = rw (load_bytes-done addr 0 6 (omega arith)) (
      Ends-done (
        lookup_address-Returned others now i l2 (bytes_at addr 0 6) knownlocal net cells valid
          bssid))
