-- ===== src/Netaddrs/Global.antt =====
-- Lookups that follow a lookup in src/omphalos/netaddrs.c: on the interface, and among all hosts.
use omphalos.Netaddrs.Looking.{done-same, Looking, Looking-Held}
use omphalos.Netaddrs.Search.{search-Finds}
use omphalos.Netaddrs.Kept.{Held, splice-held, InFront-Held}
use omphalos.Base.{
  ℕ, ◌<◌, ◌≤◌, ◌≡◌, refl, ap, ◌∙◌, sym, arith, List, some, Bool, true, false, if◌then◌else◌, inl,
  inr, Bool-cases, length, done, fault, load_bytes-done, load_bytes_fault, bytes_at, replicate,
}
use mathlib.Core.Path.{subst}
use omphalos.Base.Ends.{Ends, Ends-done}
use omphalos.Hwaddrs.{Interface, same_bytes}
use omphalos.Packet.{af_inet}
use omphalos.L3Hosts
use omphalos.Netaddrs
use omphalos.L3Hosts.{node}
use omphalos.Netaddrs.Lists.{Listed-holds, holds}
use omphalos.Netaddrs.Valid.{
  hosts-put_host, IsValid, IsFamily, inet, inet6, bssid, all_of, Family-hosts_of,
}
use omphalos.Netaddrs.Keys.{wname-SameKey}
use omphalos.Netaddrs.Lookup.{Returned, lookup_l3host_common-Returned}

wname-level :
    (name : List ℕ) (level : ℕ) (l3 : L3Hosts.L3Host)
    → level ≤ (L3Hosts.wname_l3host_absolute name level l3).nlevel
unfolding L3Hosts.wname_l3host_absolute
wname-level name level l3 = ground arith

abbrev pub host_of : L3Hosts.Net × (L3Hosts.Cells × L3Hosts.Host) → L3Hosts.Host
host_of r = r.1.1

module _ (others : Netaddrs.Others) (i : Interface) (addr : List ℕ) where
  lookup_address-Held :
      (now l2 : ℕ) (cmp : List ℕ) (knownlocal : Bool) (net : L3Hosts.Net) (cells : L3Hosts.Cells)
      (id : ℕ) {fam : ℕ} (known : IsFamily fam)
      → IsValid net cells
      → Held fam cmp id net cells
      → host_of (Netaddrs.lookup_address others now i l2 fam cmp knownlocal net cells) ≡ node id
  unfolding Netaddrs.lookup_address
  lookup_address-Held now l2 cmp knownlocal net cells id {fam} known valid held =
      let there =
        splice-held net (all_of fam net) fam cmp id held.1 (L3Hosts.hosts_of fam cells)
          (Family-hosts_of net cells valid known) held.2 in
      rw (Netaddrs.lookup_address, there.1) refl

  -- Not the address of zeros, whose lookup returns a static host.
  specified :
      (cmp zeros : List ℕ) (net net' : L3Hosts.Net) (cells cells' : L3Hosts.Cells)
      (static : L3Hosts.Host) (looked : Netaddrs.Looked others) (id : ℕ)
      → ((static ≡ node id) → ⊥)
      → (if same_bytes cmp zeros then done (net, (cells, static)) else done looked)
        ≡ done (net', (cells', node id))
      → same_bytes cmp zeros ≡ false
  specified cmp zeros net net' cells cells' static looked id apart run =
      elim (Bool-cases (same_bytes cmp zeros)) [
        | inl none_left ↦ absurd (apart (ap host_of (done-same (rw none_left at run))))
        | inr nonzero ↦ nonzero
      ]

  module _ (now l2 : ℕ) (knownlocal : Bool) (net net' : L3Hosts.Net) (cells cells' : L3Hosts.Cells)
      (id : ℕ) {fam : ℕ} (known : IsFamily fam) where
    front_of :
        IsValid net cells
        → Netaddrs.address_size fam ≤ length addr
        → Netaddrs.lookup_l3host_common others now i l2 fam addr knownlocal net cells
          ≡ done (net', (cells', node id))
        → Returned fam (bytes_at addr 0 (Netaddrs.address_size fam)) (net', (cells', node id))
    front_of valid long run =
        let first =
          lookup_l3host_common-Returned others now i l2 addr knownlocal net cells known valid
            long in
        subst (λ r. Returned fam (bytes_at addr 0 (Netaddrs.address_size fam)) r)
          (done-same (sym first.runs ∙ run)) first.holds

  module _ (now l2 : ℕ) (knownlocal : Bool) (net net' net'' : L3Hosts.Net)
      (cells cells' cells'' : L3Hosts.Cells) (id : ℕ) {fam : ℕ} (known : IsFamily fam) where
    -- The host that a lookup returned, after more lookups.
    end_of :
        IsValid net cells
        → Netaddrs.address_size fam ≤ length addr
        → Netaddrs.lookup_l3host_common others now i l2 fam addr knownlocal net cells
          ≡ done (net', (cells', node id))
        → Looking others i net' cells' net'' cells''
        → IsValid net'' cells''
          × Held fam (bytes_at addr 0 (Netaddrs.address_size fam)) id net'' cells''
    end_of valid long run looking =
        let cmp = bytes_at addr 0 (Netaddrs.address_size fam) in
        let returned = front_of now l2 knownlocal net net' cells cells' id known valid long run in
        Looking-Held others i known cmp id net' net'' cells' cells'' looking returned.0
          (InFront-Held known cmp id net' cells' returned.0 returned.1)

  -- On hosts in order, for IPv4, IPv6 and BSSID: once a lookup has returned a host that is kept for the
  -- interface, and after any number of lookups for the interface of any addresses that can be read
  -- whole, a lookup of the address returns the same host, whenever it is, whatever link host it is for
  -- and whether or not the address is known to be local.
  pub lookup_l3host_common-again :
      (now later l2 l2' : ℕ) (knownlocal knownlocal' : Bool) (net net' net'' : L3Hosts.Net)
      (cells cells' cells'' : L3Hosts.Cells) (id : ℕ) {fam : ℕ}
      → IsFamily fam
      → IsValid net cells
      → Netaddrs.address_size fam ≤ length addr
      → Netaddrs.lookup_l3host_common others now i l2 fam addr knownlocal net cells
        ≡ done (net', (cells', node id))
      → Looking others i net' cells' net'' cells''
      → Ends
          (λ r. host_of r ≡ node id)
          (Netaddrs.lookup_l3host_common others later i l2' fam addr knownlocal' net'' cells'')
  unfolding Netaddrs.lookup_l3host_common
  lookup_l3host_common-again now later l2 l2' knownlocal knownlocal' net net' net'' cells cells'
        cells'' id inet valid long run looking =
      let cmp = bytes_at addr 0 4 in
      let end =
        end_of now l2 knownlocal net net' net'' cells cells' cells'' id inet valid long run
          looking in
      let loaded = load_bytes-done addr 0 4 (omega arith) in
      let nonzero =
        specified cmp (replicate 4 0) net net' cells cells' L3Hosts.unspecified_ipv4 _ id (λ e. cc)
          (rw loaded at run) in
      rw (loaded, nonzero)
        (Ends-done
          (lookup_address-Held later l2' cmp knownlocal' net'' cells'' id inet end.0 end.1))
  lookup_l3host_common-again now later l2 l2' knownlocal knownlocal' net net' net'' cells cells'
        cells'' id inet6 valid long run looking =
      let cmp = bytes_at addr 0 16 in
      let end =
        end_of now l2 knownlocal net net' net'' cells cells' cells'' id inet6 valid long run
          looking in
      let loaded = load_bytes-done addr 0 16 (omega arith) in
      let nonzero =
        specified cmp (replicate 16 0) net net' cells cells' L3Hosts.unspecified_ipv6 _ id (λ e. cc)
          (rw loaded at run) in
      rw (loaded, nonzero)
        (Ends-done
          (lookup_address-Held later l2' cmp knownlocal' net'' cells'' id inet6 end.0 end.1))
  lookup_l3host_common-again now later l2 l2' knownlocal knownlocal' net net' net'' cells cells'
        cells'' id bssid valid long run looking =
      let cmp = bytes_at addr 0 6 in
      let end =
        end_of now l2 knownlocal net net' net'' cells cells' cells'' id bssid valid long run
          looking in
      let loaded = load_bytes-done addr 0 6 (omega arith) in
      rw loaded (
        Ends-done
          (lookup_address-Held later l2' cmp knownlocal' net'' cells'' id bssid end.0 end.1))

module _ (net : L3Hosts.Net) (addr : List ℕ) where
  -- Where hosts are in order: an offer of a name for the address of an IPv4 host of the interface
  -- reaches a host with that address, whose level of naming is not below that of the offer afterwards.
  pub offer_wresolution-reaches :
      (cells : L3Hosts.Cells) (name : List ℕ) (nlevel id : ℕ)
      → IsValid net cells
      → holds id cells.ip4hosts ≡ true
      → (net.hosts id).addr ≡ bytes_at addr 0 4
      → 4 ≤ length addr
      → Ends
          (λ net'.
            (j : ℕ) × ((net'.hosts j).addr ≡ bytes_at addr 0 4) × (nlevel ≤ (net'.hosts j).nlevel))
          (Netaddrs.offer_wresolution af_inet addr name nlevel net)
  unfolding Netaddrs.offer_wresolution Netaddrs.lookup_global_l3host
  offer_wresolution-reaches cells name nlevel id valid listed same long =
      let cmp = bytes_at addr 0 4 in
      let known = Listed-holds net (some net.ipv4hosts) af_inet id cells.ip4hosts valid.0 listed in
      let there = search-Finds net.hosts cmp id net.ipv4hosts same known in
      let l3 = L3Hosts.wname_l3host_absolute name nlevel (net.hosts there.id) in
      let put = hosts-put_host there.id l3 net in
      rw (load_bytes-done addr 0 4 (omega arith), there.result)
        (Ends-done (
          there.id,
          ap (λ (h : L3Hosts.L3Host). h.addr) put
              ∙ (wname-SameKey name nlevel (net.hosts there.id)).1
              ∙ there.same,
          subst (λ (h : L3Hosts.L3Host). nlevel ≤ h.nlevel) (sym put)
              (wname-level name nlevel (net.hosts there.id)),
        ))

  -- For an IPv4 address, of which no more than its four bytes may be read, `find_l3host` reads out of
  -- bounds, whatever hosts there are.
  pub find_l3host-overreads :
      (cells : L3Hosts.Cells)
      → length addr < 16
      → Netaddrs.find_l3host net cells af_inet addr ≡ fault
  unfolding Netaddrs.find_l3host
  find_l3host-overreads cells short =
      rw (load_bytes_fault addr 0 16 (omega arith) (omega arith)) refl
