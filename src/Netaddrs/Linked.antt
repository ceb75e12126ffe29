-- ===== src/Netaddrs/Linked.antt =====
-- The functions of src/omphalos/resolv.c and ietf.c in the place of those that src/omphalos/netaddrs.c
-- calls. What sends a query, and the route to an address, stay parameters.
use omphalos.Base.{
  ℕ, ◌≤◌, ◌<◌, ◌≡◌, refl, arith, List, [], ◌∷◌, Option, none, Bool, true, false, not, ◌&&◌, ◌==◌,
  load_bytes-done,
}
use omphalos.Base.Ends.{Ends, Ends-done}
use omphalos.Hwaddrs.{Interface, multicast, l2categorize, same_bytes}
use omphalos.Packet.{af_inet}
use omphalos.L3Hosts
use omphalos.Netaddrs
use omphalos.Resolv.{Resolvers, queue_for_naming}
use omphalos.Ietf.{ietf_multicast_lookup, ietf_bcast_lookup, ietf_local_lookup}
use omphalos.Ietf.Multicast.{IsNamed, ietf_multicast_lookup-block}

-- A host with the name of ietf.c for an IPv4 address, at the level of global names.
abbrev pub NamedHost : List ℕ → L3Hosts.L3Host → Type 0
NamedHost addr l3 =
    IsNamed l3.name × (l3.name ≡ ietf_multicast_lookup af_inet addr) × (l3.nlevel ≡ 4)

never : (p q : Bool) → (p && false && q) ≡ false
never true q = refl
never false q = refl

module _ (tx_dns_ptr : ℕ → List ℕ → List ℕ → ℕ) (tx_mdns_ptr : List ℕ → ℕ → List ℕ → ℕ)
    (rs : Resolvers) (get_unicast_address : ℕ → List ℕ → Option (List ℕ)) where
  pub linked : Netaddrs.Others
  linked = record {
    queue_for_naming = λ l3 rev fam addr.
        not (queue_for_naming tx_dns_ptr (tx_mdns_ptr rev fam addr) rs l3 rev == 0);
    get_unicast_address = get_unicast_address;
    ietf_multicast_lookup = ietf_multicast_lookup;
    ietf_bcast_lookup = ietf_bcast_lookup;
    ietf_local_lookup = ietf_local_lookup;
  }

  new_host-NamedHost :
      (now l2 : ℕ) (addr : List ℕ)
      → IsNamed (ietf_multicast_lookup af_inet addr)
      → NamedHost addr (
          Netaddrs.first_name linked now multicast
            (record (L3Hosts.new_l3host af_inet addr) { l2 = l2 }))
  unfolding linked Netaddrs.first_name L3Hosts.new_l3host L3Hosts.wname_l3host_absolute
  new_host-NamedHost now l2 addr (name, e) = rw e ((name, refl), refl, refl)

  is_external-multicast :
      (i : Interface) (addr : List ℕ) (knownlocal : Bool)
      → Netaddrs.is_external linked i multicast af_inet addr knownlocal ≡ false
  unfolding Netaddrs.is_external
  is_external-multicast i addr knownlocal = never _ _

  lookup_address-NamedHost :
      (now : ℕ) (i : Interface) (l2 : ℕ) (addr : List ℕ) (knownlocal : Bool) (net : L3Hosts.Net)
      (cells : L3Hosts.Cells)
      → l2categorize i l2 ≡ multicast
      → L3Hosts.splice net.hosts addr cells.ip4hosts ≡ none
      → IsNamed (ietf_multicast_lookup af_inet addr)
      → let r = Netaddrs.lookup_address linked now i l2 af_inet addr knownlocal net cells in
        (r.1.1 ≡ L3Hosts.node net.next) × NamedHost addr (r.0.hosts net.next)
  unfolding Netaddrs.lookup_address L3Hosts.hosts_of L3Hosts.put_host
  lookup_address-NamedHost now i l2 addr knownlocal net cells cat new named =
      let here : (net.next == net.next) ≡ true = ground arith in
      rw (Netaddrs.lookup_address, new, cat, is_external-multicast i addr knownlocal)
        (refl, rw here (new_host-NamedHost now l2 addr named))

  -- A lookup, through a hardware address of multicast, of an IPv4 address from 224.0.0.0 on, those from
  -- 240.0.0.0 on included, that is not among the hosts of the interface makes a new host, which has the
  -- name that `ietf_multicast_lookup` gives to the address, at the level of global names. It gives a
  -- name to each of these addresses.
  pub lookup_l3host_common-NamedHost :
      (now : ℕ) (i : Interface) (l2 a b c d : ℕ) (knownlocal : Bool) (net : L3Hosts.Net)
      (cells : L3Hosts.Cells)
      → a < 256
      → b < 256
      → c < 256
      → d < 256
      → 224 ≤ a
      → l2categorize i l2 ≡ multicast
      → L3Hosts.splice net.hosts (a ∷ b ∷ c ∷ d ∷ []) cells.ip4hosts ≡ none
      → Ends
          (λ (r : L3Hosts.Net × (L3Hosts.Cells × L3Hosts.Host)).
            (r.1.1 ≡ L3Hosts.node net.next) × NamedHost (a ∷ b ∷ c ∷ d ∷ []) (r.0.hosts net.next))
          (Netaddrs.lookup_l3host_common linked now i l2 af_inet
            (a ∷ b ∷ c ∷ d ∷ [])
            knownlocal
            net
            cells)
  unfolding Netaddrs.lookup_l3host_common same_bytes
  lookup_l3host_common-NamedHost now i l2 a b c d knownlocal net cells la lb lc ld high cat new =
      let given : (a == 0) ≡ false = ground arith in
      rw (load_bytes-done (a ∷ b ∷ c ∷ d ∷ []) 0 4 (omega arith), given)
        (Ends-done (
          lookup_address-NamedHost now i l2 (a ∷ b ∷ c ∷ d ∷ []) knownlocal net cells cat new
            ((ietf_multicast_lookup-block a b c d la lb lc ld).1 high)))
