-- ===== src/Hwaddrs/Examples.antt =====
-- An interface and an address on which the theorems apply.
use omphalos.Base.{◌≡◌, refl, List, [], ◌∷◌, Option, none, some, false, ℕ}
use omphalos.Hwaddrs.{L2Host, Interface, lookup_l2host, hwaddrint}
use omphalos.Hwaddrs.Hosts.{Distinct, lookup_l2host-in_front}

abbrev no_vendors : List ℕ → Option (List ℕ)
no_vendors hwaddr = none

abbrev host : ℕ → ℕ → L2Host
host hwaddr srcpkts = record { hwaddr = hwaddr; devname = none; srcpkts = srcpkts; dstpkts = 0 }

abbrev wire : Interface
wire = record {
  flags = 2;
  addr = 1 ∷ 2 ∷ [];
  addrlen = 2;
  bcast = some (255 ∷ 255 ∷ []);
  arptype = 1;
  l2hosts = host 0x0201 5 ∷ host 0x0403 7 ∷ host 0x0605 9 ∷ [];
}

wire-Distinct : Distinct wire.l2hosts
wire-Distinct = (refl, (refl, (refl, tt)))

lookup_l2host-in_front_example : lookup_l2host no_vendors wire (3 ∷ 4 ∷ []) ≡ (
  host 0x0403 7,
  record wire { l2hosts = host 0x0403 7 ∷ host 0x0201 5 ∷ host 0x0605 9 ∷ [] },
  false,
)
unfolding hwaddrint
lookup_l2host-in_front_example = lookup_l2host-in_front no_vendors wire (3 ∷ 4 ∷ []) wire-Distinct
