-- ===== src/L3Hosts.antt =====
-- src/omphalos/netaddrs.c: the state, which is the network hosts of an interface, lists with the host
-- used last in front, and all hosts of a family, and what changes it. A host is in a list of its
-- interface and in one of all hosts: both hold its number, and what is written to it shows in both. A
-- link host is given by its address. Locks, the user's data of a host and its services are left out.
-- Memory can always be allocated.
use omphalos.Base.{ℕ, suc, List, [], ◌∷◌, Option, none, some, ltb, ◌==◌, if◌then◌else◌}
use omphalos.Hwaddrs.{same_bytes}
use omphalos.Packet.{af_inet, af_inet6}

-- `AF_MAX + 1`, on Linux 6.
abbrev pub af_bssid : ℕ
af_bssid = 47

-- The levels of naming, and the names that are given here.
abbrev pub level_resolving : ℕ
level_resolving = 0

abbrev pub level_fail : ℕ
level_fail = 1

abbrev pub level_nxdomain : ℕ
level_nxdomain = 2

abbrev pub level_global : ℕ
level_global = 4

-- "Resolving..."
abbrev pub resolving : List ℕ
resolving = 82 ∷ 101 ∷ 115 ∷ 111 ∷ 108 ∷ 118 ∷ 105 ∷ 110 ∷ 103 ∷ 46 ∷ 46 ∷ 46 ∷ []

-- "Resolution failed"
abbrev pub resolution_failed : List ℕ
resolution_failed =
    82 ∷ 101 ∷ 115 ∷ 111 ∷ 108 ∷ 117 ∷ 116 ∷ 105 ∷ 111 ∷ 110 ∷ 32 ∷ 102 ∷ 97 ∷ 105 ∷ 108 ∷ 101 ∷ 100
    ∷ []

pub record L3Host : Type 0 where
  pub name : Option (List ℕ)
  pub fam : ℕ
  pub addr : List ℕ
  pub srcpkts : ℕ
  pub dstpkts : ℕ
  pub nlevel : ℕ
  pub nextnametry : ℕ
  pub nametries : ℕ
  pub l2 : ℕ

-- Every host that was made, by its number, how many there are, and the lists of all hosts by
-- family.
pub record Net : Type 0 where
  pub hosts : ℕ → L3Host
  pub next : ℕ
  pub ipv4hosts : List ℕ
  pub ipv6hosts : List ℕ

-- The hosts of an interface.
pub record Cells : Type 0 where
  pub ip4hosts : List ℕ
  pub ip6hosts : List ℕ
  pub cells : List ℕ

-- A pointer to a host: one of those made, a static one, or the null pointer.
pub data Host : Type 0 where
  node : ℕ → Host
  external_l3 unspecified_ipv4 unspecified_ipv6 null : Host

-- A write to a host.
abbrev pub update : (ℕ → L3Host) → ℕ → L3Host → ℕ → L3Host
update hosts id l3 j = if j == id then l3 else hosts j

unfoldable pub put_host : ℕ → L3Host → Net → Net
put_host id l3 net = record net { hosts = update net.hosts id l3 }

-- `r->gnext = gh->head; gh->head = r`, where the family has a list.
unfoldable pub push_global : ℕ → ℕ → Net → Net
push_global fam id net =
    if fam == af_inet
    then record net { ipv4hosts = id ∷ net.ipv4hosts }
    else if fam == af_inet6
    then record net { ipv6hosts = id ∷ net.ipv6hosts }
    else net

unfoldable pub new_l3host : ℕ → List ℕ → L3Host
new_l3host fam addr = record {
  name = none;
  fam = fam;
  addr = addr;
  srcpkts = 0;
  dstpkts = 0;
  nlevel = 0;
  nextnametry = 0;
  nametries = 0;
  l2 = 0;
}

-- The new host has the number `net.next`.
unfoldable pub create_l3host : ℕ → List ℕ → Net → Net
create_l3host fam addr net =
    push_global fam net.next
      (record net { hosts = update net.hosts net.next (new_l3host fam addr); next = suc net.next })

unfoldable pub wname_l3host_absolute : List ℕ → ℕ → L3Host → L3Host
wname_l3host_absolute name nlevel l3 =
    if ltb l3.nlevel nlevel then record l3 { name = some name; nlevel = nlevel } else l3

-- The list of a family on the interface, and the interface with another list in its place.
unfoldable pub hosts_of : ℕ → Cells → List ℕ
hosts_of fam i =
    if fam == af_inet then i.ip4hosts else if fam == af_inet6 then i.ip6hosts else i.cells

unfoldable pub with_hosts : ℕ → List ℕ → Cells → Cells
with_hosts fam ids i =
    if fam == af_inet
    then record i { ip4hosts = ids }
    else if fam == af_inet6
    then record i { ip6hosts = ids }
    else record i { cells = ids }

-- A loop over a list: the host that has the address.
unfoldable pub search : (ℕ → L3Host) → List ℕ → List ℕ → Option ℕ
search hosts cmp [] = none
search hosts cmp (id ∷ ids) =
    let rest = search hosts cmp ids in if same_bytes (hosts id).addr cmp then some id else rest

-- The loop that also takes the host out.
unfoldable pub splice : (ℕ → L3Host) → List ℕ → List ℕ → Option (ℕ × List ℕ)
splice hosts cmp [] = none
splice hosts cmp (id ∷ ids) =
    let rest = splice hosts cmp ids in
    if same_bytes (hosts id).addr cmp
    then some (id, ids)
    else elim rest [ none ↦ none | some (found, others) ↦ some (found, id ∷ others) ]
