-- ===== src/Netaddrs/Examples.antt =====
-- Hosts on which the theorems apply.
use omphalos.Base.{
  ◌≤◌, load_bytes, load8, ℕ, ◌≡◌, refl, arith, true, false, List, [], ◌∷◌, none, some, done,
}
use omphalos.Base.Ends.{Ends}
use omphalos.Hwaddrs.{
  same_bytes, unicast, multicast, Interface, l2categorize, categorize_l2addr, categorize_ethaddr,
  hwaddr_bytes, is_bcast,
}
use omphalos.Packet.{af_inet}
use omphalos.Packet.Sample.{wire}
use omphalos.Dns.Reverse.{rev_dns_a}
use omphalos.Netaddrs.{Others, lookup_l3host_common, revstr, lookup_address, Looked}
use omphalos.L3Hosts.{L3Host, Host, Net, Cells, node, hosts_of, splice, search}
use omphalos.Netaddrs.Naming.{name_all, keep_best, name_all-best}
use omphalos.Resolv.{Resolvers}
use omphalos.Netaddrs.Linked.{linked, NamedHost, lookup_l3host_common-NamedHost}
use omphalos.Netaddrs.Asking.{attempts, seen_at, update_l3name-asks_again}
use omphalos.Netaddrs.Valid.{IsValid, inet}
use omphalos.Netaddrs.Lookup.{Returned, lookup_l3host_common-Returned}
use omphalos.Netaddrs.Looking.{idle, then_lookup}
use omphalos.Netaddrs.Global.{host_of, lookup_l3host_common-again}

-- Every question can be sent, every address is on the link, and none has a known name.
abbrev on_link : Others
on_link = record {
  queue_for_naming = λ l3 rev fam addr. false;
  get_unicast_address = λ fam addr. some addr;
  ietf_multicast_lookup = λ fam addr. none;
  ietf_bcast_lookup = λ fam addr. none;
  ietf_local_lookup = λ fam addr. none;
}

abbrev seen : List ℕ
seen = 10 ∷ 0 ∷ 0 ∷ 7 ∷ []

abbrev host : L3Host
host = record {
  name = none;
  fam = af_inet;
  addr = seen;
  srcpkts = 0;
  dstpkts = 0;
  nlevel = 0;
  nextnametry = 0;
  nametries = 0;
  l2 = 0;
}

name_all-best_example :
    name_all
      (record { name = 65 ∷ []; level = 3 }
        ∷ record { name = 66 ∷ []; level = 5 }
        ∷ record { name = 67 ∷ []; level = 5 }
        ∷ [])
      host
    ≡ keep_best (some (record { name = 66 ∷ []; level = 5 })) host
name_all-best_example =
    name_all-best
      (record { name = 65 ∷ []; level = 3 }
        ∷ record { name = 66 ∷ []; level = 5 }
        ∷ record { name = 67 ∷ []; level = 5 }
        ∷ [])
      host

seen-question : revstr af_inet seen ≡ some (rev_dns_a seen)
unfolding revstr
seen-question = refl

update_l3name-asks_again_example :
    (seen_at on_link unicast (100 ∷ 1000 ∷ 2000 ∷ []) host
      ≡ attempts on_link (rev_dns_a seen) (100 ∷ 1000 ∷ 2000 ∷ []) host)
    × ((seen_at on_link unicast (100 ∷ 1000 ∷ 2000 ∷ []) host).nlevel ≤ 2)
update_l3name-asks_again_example =
    update_l3name-asks_again on_link unicast (rev_dns_a seen) (100 ∷ 1000 ∷ 2000 ∷ []) host refl
      (omega arith) (omega arith, (omega arith, (omega arith, tt))) seen-question

-- One host on the link.
abbrev one_host : Net
one_host = record { hosts = λ id. host; next = 1; ipv4hosts = 0 ∷ []; ipv6hosts = [] }

abbrev one_cell : Cells
one_cell = record { ip4hosts = 0 ∷ []; ip6hosts = []; cells = [] }

one_host-IsValid : IsValid one_host one_cell
unfolding search
one_host-IsValid = (((omega arith, refl, refl, refl), tt), tt, tt)

lookup_l3host_common-Returned_example :
    Ends
      (Returned af_inet seen)
      (lookup_l3host_common on_link 9 wire 4 af_inet seen false one_host one_cell)
lookup_l3host_common-Returned_example =
    lookup_l3host_common-Returned on_link 9 wire 4 seen false one_host one_cell inet
      one_host-IsValid (omega arith)

abbrev first : Looked on_link
first = lookup_address on_link 9 wire 4 af_inet seen false one_host one_cell

first-node :
    lookup_l3host_common on_link 9 wire 4 af_inet seen false one_host one_cell
    ≡ done (first.0, (first.1.0, node 0))
unfolding lookup_l3host_common lookup_address splice hosts_of load_bytes load8 same_bytes
first-node = refl

abbrev neighbour : List ℕ
neighbour = 10 ∷ 0 ∷ 0 ∷ 8 ∷ []

-- A second host is seen.
abbrev second : Looked on_link
second = lookup_address on_link 10 wire 4 af_inet neighbour false first.0 first.1.0

second-node :
    lookup_l3host_common on_link 10 wire 4 af_inet neighbour false first.0 first.1.0
    ≡ done (second.0, (second.1.0, second.1.1))
unfolding lookup_l3host_common load_bytes load8 same_bytes
second-node = refl

lookup_l3host_common-again_example :
    Ends
      (λ r. host_of r ≡ node 0)
      (lookup_l3host_common on_link 11 wire 5 af_inet seen true second.0 second.1.0)
lookup_l3host_common-again_example =
    lookup_l3host_common-again on_link wire seen 9 11 4 5 false true one_host first.0 second.0
      one_cell first.1.0 second.1.0 0 inet one_host-IsValid (omega arith) first-node
      (then_lookup 10 4 af_inet neighbour false first.0 second.0 second.0 first.1.0 second.1.0
        second.1.0 second.1.1 inet (omega arith) second-node (idle second.0 second.1.0))

-- An Ethernet interface, on which the address with the first byte 1 is one of multicast.
abbrev ether : Interface
ether = record {
  flags = 0;
  addr = 2 ∷ 0 ∷ 0 ∷ 0 ∷ 0 ∷ 1 ∷ [];
  addrlen = 6;
  bcast = none;
  arptype = 1;
  l2hosts = [];
}

group_kind : l2categorize ether 1 ≡ multicast
unfolding l2categorize categorize_l2addr categorize_ethaddr hwaddr_bytes is_bcast same_bytes
group_kind = refl

abbrev resolving_nothing : Resolvers
resolving_nothing = record { resolvers = []; resolvers6 = [] }

abbrev no_hosts : Net
no_hosts = record { hosts = λ id. host; next = 0; ipv4hosts = []; ipv6hosts = [] }

abbrev no_cells : Cells
no_cells = record { ip4hosts = []; ip6hosts = []; cells = [] }

lookup_l3host_common-NamedHost_example :
    Ends
      (λ (r : Net × (Cells × Host)).
        (r.1.1 ≡ node 0) × NamedHost (224 ∷ 0 ∷ 0 ∷ 251 ∷ []) (r.0.hosts 0))
      (lookup_l3host_common
        (linked (λ fam server rev. 0) (λ rev fam addr. 0) resolving_nothing (λ fam addr. none))
        100
        ether
        1
        af_inet
        (224 ∷ 0 ∷ 0 ∷ 251 ∷ [])
        false
        no_hosts
        no_cells)
unfolding splice
lookup_l3host_common-NamedHost_example =
    lookup_l3host_common-NamedHost (λ fam server rev. 0) (λ rev fam addr. 0) resolving_nothing
      (λ fam addr. none) 100 ether 1 224 0 0 251 false no_hosts no_cells (omega arith) (omega arith)
      (omega arith) (omega arith) (omega arith) group_kind refl
