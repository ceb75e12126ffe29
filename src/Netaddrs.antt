-- ===== src/Netaddrs.antt =====
-- src/omphalos/netaddrs.c: how the network hosts of an interface are looked up and named, over the
-- state of L3Hosts. An address is given by the bytes that may be read at it. What the functions ask
-- of src/omphalos/resolv.c, route.c and ietf.c is the parameter `Others`.
pub mod Naming
pub mod Lists
pub mod Keys
pub mod Asking
pub mod Linked
pub mod Valid
pub mod Lookup
pub mod Search
pub mod Kept
pub mod Looking
pub mod Global
mod Examples
use omphalos.Base.{
  ℕ, zero, suc, ◌+◌, ◌-◌, ◌*◌, ◌^◌, bit_and, List, [], ◌∷◌, Option, none, some, Bool, true, false,
  not, ◌&&◌, ltb, leb, ◌==◌, if◌then◌else◌, Outcome, done, ◌>>=◌, load_bytes, replicate, take, u32,
  u64,
}
use omphalos.Hwaddrs.{
  Interface, Rtn, unicast, local, broadcast, multicast, l2categorize, same_bytes, hwntop,
}
use omphalos.Packet.{af_inet, af_inet6}
use omphalos.L3Hosts.{
  Cells, Host, L3Host, Net, af_bssid, create_l3host, external_l3, hosts_of, level_fail,
  level_global, level_nxdomain, level_resolving, new_l3host, node, null, push_global, put_host,
  resolution_failed, resolving, search, splice, unspecified_ipv4, unspecified_ipv6, update,
  with_hosts, wname_l3host_absolute,
}
use omphalos.Dns.Reverse.{rev_dns_a, rev_dns_aaaa}

-- `queue_for_naming` says whether it fails, from the host, the question, the family and the address.
pub record Others : Type 0 where
  pub queue_for_naming : L3Host → List ℕ → ℕ → List ℕ → Bool
  pub get_unicast_address : ℕ → List ℕ → Option (List ℕ)
  pub ietf_multicast_lookup : ℕ → List ℕ → Option (List ℕ)
  pub ietf_bcast_lookup : ℕ → List ℕ → Option (List ℕ)
  pub ietf_local_lookup : ℕ → List ℕ → Option (List ℕ)

abbrev pub max_backoff_exp : ℕ
max_backoff_exp = 9

abbrev pub address_size : ℕ → ℕ
address_size fam = if fam == af_inet then 4 else if fam == af_inet6 then 16 else 6

-- The question for a family that has one.
pub revstr : ℕ → List ℕ → Option (List ℕ)
revstr fam addr =
    if fam == af_inet
    then some (rev_dns_a addr)
    else if fam == af_inet6
    then some (rev_dns_aaaa addr)
    else none

abbrev pub is_asked : Rtn → Bool
is_asked unicast = true
is_asked local = true
is_asked _ = false

abbrev pub is_named : L3Host → Bool
is_named l3 = elim l3.name [ none ↦ false | some _ ↦ ltb level_nxdomain l3.nlevel ]

module _ (others : Others) where
  -- What comes of a query: a name that says that it cannot be sent.
  pub queried : List ℕ → L3Host → L3Host
  queried rev l3 =
      if others.queue_for_naming l3 rev l3.fam l3.addr
      then wname_l3host_absolute resolution_failed level_fail l3
      else l3

  -- The time of the next attempt grows with the number of attempts.
  pub backed_off : ℕ → L3Host → L3Host
  backed_off now l3 =
      let tries = u32 (l3.nametries + 1) in
      record l3 {
        nametries = tries;
        nextnametry = now + 2 ^ (if ltb max_backoff_exp tries then max_backoff_exp else tries);
      }

  -- `now` is `tv->tv_sec`.
  pub update_l3name : ℕ → Rtn → L3Host → L3Host
  update_l3name now cat l3 =
      if not (is_asked cat)
      then l3
      else if is_named l3
      then l3
      else if leb l3.nlevel level_nxdomain && leb now l3.nextnametry
      then l3
      else elim (revstr l3.fam l3.addr) [ none ↦ l3 | some rev ↦ queried rev (backed_off now l3) ]

  abbrev pub named_by : Option (List ℕ) → L3Host → L3Host
  named_by none l3 = l3
  named_by (some name) l3 = wname_l3host_absolute name level_global l3

  -- A new host whose name is looked up.
  pub resolved : ℕ → L3Host → L3Host
  resolved now l3 = elim (revstr l3.fam l3.addr) [
    | none ↦ l3
    | some rev ↦
        queried rev
          (record (wname_l3host_absolute resolving level_resolving l3) { nextnametry = now + 1 })
  ]

  -- The name of a new host. Routers are also observed as a service, which is left out here.
  pub first_name : ℕ → Rtn → L3Host → L3Host
  first_name now multicast l3 = named_by (others.ietf_multicast_lookup l3.fam l3.addr) l3
  first_name now broadcast l3 = named_by (others.ietf_bcast_lookup l3.fam l3.addr) l3
  first_name now local l3 = elim (others.ietf_local_lookup l3.fam l3.addr) [
    | some name ↦ wname_l3host_absolute name level_global l3
    | none ↦ resolved now l3
  ]
  first_name now unicast l3 = resolved now l3

  -- `!(i->flags & IFF_NOARP) && !knownlocal`, and the address is that of a link host but not routed
  -- to itself.
  pub is_external : Interface → Rtn → ℕ → List ℕ → Bool → Bool
  is_external i cat fam addr knownlocal =
      (bit_and i.flags 0x80 == 0)
      && not knownlocal
      && is_asked cat
      && elim (others.get_unicast_address fam addr) [
        | none ↦ true
        | some ss ↦ not (same_bytes ss addr)
      ]

  -- The hosts, the lists of the interface, and the host found.
  abbrev pub Looked : Type 0
  Looked = Net × (Cells × Host)

  -- Behind the checks of the family and of the address, which is `cmp`.
  pub lookup_address : ℕ → Interface → ℕ → ℕ → List ℕ → Bool → Net → Cells → Looked
  lookup_address now i l2 fam cmp knownlocal net cells =
      let cat = l2categorize i l2 in
      elim (splice net.hosts cmp (hosts_of fam cells)) [
        | some (id, rest) ↦ (
          put_host id (update_l3name now cat (record (net.hosts id) { l2 = l2 })) net,
          (with_hosts fam (id ∷ rest) cells, node id),
        )
        | none ↦ if is_external i cat fam cmp knownlocal then (net, (cells, external_l3)) else (
          put_host net.next (first_name now cat (record (new_l3host fam cmp) { l2 = l2 }))
              (create_l3host fam cmp net),
          (with_hosts fam (net.next ∷ hosts_of fam cells) cells, node net.next),
        )
      ]

  pub lookup_l3host_common : ℕ → Interface → ℕ → ℕ → List ℕ → Bool → Net → Cells → Outcome Looked
  lookup_l3host_common now i l2 fam addr knownlocal net cells =
      if fam == af_inet
      then (do
        cmp ← load_bytes addr 0 4
        if same_bytes cmp (replicate 4 0)
            then done (net, (cells, unspecified_ipv4))
            else done (lookup_address now i l2 fam cmp knownlocal net cells))
      else if fam == af_inet6
      then (do
        cmp ← load_bytes addr 0 16
        if same_bytes cmp (replicate 16 0)
            then done (net, (cells, unspecified_ipv6))
            else done (lookup_address now i l2 fam cmp knownlocal net cells))
      else if fam == af_bssid
      then (do
        cmp ← load_bytes addr 0 6
        done (lookup_address now i l2 fam cmp knownlocal net cells))
      else done (net, (cells, null))

  pub lookup_l3host : ℕ → Interface → ℕ → ℕ → List ℕ → Net → Cells → Outcome Looked
  lookup_l3host now i l2 fam addr = lookup_l3host_common now i l2 fam addr false

  pub lookup_local_l3host : ℕ → Interface → ℕ → ℕ → List ℕ → Net → Cells → Outcome Looked
  lookup_local_l3host now i l2 fam addr = lookup_l3host_common now i l2 fam addr true

abbrev pub found : Option ℕ → Host
found none = null
found (some id) = node id

-- `memcpy(&cmp, addr, sizeof(cmp))` copies 16 bytes, also where the address has 4.
pub find_l3host : Net → Cells → ℕ → List ℕ → Outcome Host
find_l3host net i fam addr =
    if fam == af_inet
    then (do cmp ← load_bytes addr 0 16; done (found (search net.hosts (take 4 cmp) i.ip4hosts)))
    else if fam == af_inet6
    then (do cmp ← load_bytes addr 0 16; done (found (search net.hosts cmp i.ip6hosts)))
    else done null

pub lookup_global_l3host : Net → ℕ → List ℕ → Outcome Host
lookup_global_l3host net fam addr =
    if fam == af_inet
    then (do cmp ← load_bytes addr 0 4; done (found (search net.hosts cmp net.ipv4hosts)))
    else if fam == af_inet6
    then (do cmp ← load_bytes addr 0 16; done (found (search net.hosts cmp net.ipv6hosts)))
    else done null

-- `offer_wresolution` of src/omphalos/resolv.c: a name for a host that is known.
pub offer_wresolution : ℕ → List ℕ → List ℕ → ℕ → Net → Outcome Net
offer_wresolution fam addr name nlevel net = do
  l3 ← lookup_global_l3host net fam addr
  elim l3 [
    | node id ↦ done (put_host id (wname_l3host_absolute name nlevel (net.hosts id)) net)
    | _ ↦ done net
  ]

pub l3_srcpkt : ℕ → Net → Net
l3_srcpkt id net =
    put_host id (record (net.hosts id) { srcpkts = u64 ((net.hosts id).srcpkts + 1) }) net

pub l3_dstpkt : ℕ → Net → Net
l3_dstpkt id net =
    put_host id (record (net.hosts id) { dstpkts = u64 ((net.hosts id).dstpkts + 1) }) net
