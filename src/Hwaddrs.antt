-- ===== src/Hwaddrs.antt =====
-- src/omphalos/hwaddrs.c: the hosts seen on an interface by their hardware addresses, a list with
-- the host used last in front, and the text of a hardware address. Memory can always be allocated;
-- the vendor names of src/omphalos/iana.c are an argument.
pub mod Hosts
mod Text
mod Examples
use omphalos.Base.{
  ℕ, zero, suc, ◌+◌, ◌-◌, ◌*◌, ◌/◌, ◌%◌, bit_and, List, [], ◌∷◌, ◌++◌, Option, none, some, Bool,
  true, false, ltb, ◌==◌, ◌&&◌, ◌||◌, if◌then◌else◌, length, take,
}

pub record L2Host : Type 0 where
  pub hwaddr : ℕ
  pub devname : Option (List ℕ)
  pub srcpkts : ℕ
  pub dstpkts : ℕ

-- What the functions read and write of an interface.
pub record Interface : Type 0 where
  pub flags : ℕ
  pub addr : List ℕ
  pub addrlen : ℕ
  pub bcast : Option (List ℕ)
  pub arptype : ℕ
  pub l2hosts : List L2Host

abbrev pub iff_broadcast : ℕ
iff_broadcast = 0x2

abbrev pub arphrd_ether : ℕ
arphrd_ether = 1

abbrev pub arphrd_ieee80211 : ℕ
arphrd_ieee80211 = 801

abbrev pub arphrd_ieee80211_prism : ℕ
arphrd_ieee80211_prism = 802

abbrev pub arphrd_ieee80211_radiotap : ℕ
arphrd_ieee80211_radiotap = 803

-- `memcpy` of an address to a `hwaddrint` that is zero, on a little-endian host.
pub hwaddrint : List ℕ → ℕ
hwaddrint [] = 0
hwaddrint (b ∷ bytes) = b + 256 * hwaddrint bytes

unfoldable pub same_bytes : List ℕ → List ℕ → Bool
same_bytes [] [] = true
same_bytes (x ∷ xs) (y ∷ ys) = (x == y) && same_bytes xs ys
same_bytes _ _ = false

-- "Link broadcast".
abbrev pub link_broadcast : List ℕ
link_broadcast =
    0x4c ∷ 0x69 ∷ 0x6e ∷ 0x6b ∷ 0x20 ∷ 0x62 ∷ 0x72 ∷ 0x6f ∷ 0x61 ∷ 0x64 ∷ 0x63 ∷ 0x61 ∷ 0x73 ∷ 0x74
    ∷ []

unfoldable pub is_bcast : Interface → List ℕ → Bool
is_bcast i hwaddr =
    if bit_and i.flags iff_broadcast == 0
    then false
    else elim i.bcast [ none ↦ false | some bcast ↦ same_bytes hwaddr bcast ]

-- The interfaces whose addresses have vendors.
pub has_vendors : Interface → Bool
has_vendors i =
    (i.arptype == arphrd_ether)
    || (i.arptype == arphrd_ieee80211_radiotap)
    || (i.arptype == arphrd_ieee80211)
    || (i.arptype == arphrd_ieee80211_prism)

-- The loop: the host found, and the list without it.
pub splice : ℕ → List L2Host → Option (L2Host × List L2Host)
splice hwcmp [] = none
splice hwcmp (l2 ∷ next) =
    let later = splice hwcmp next in
    if l2.hwaddr == hwcmp
    then some (l2, next)
    else elim later [ none ↦ none | some (found, rest) ↦ some (found, l2 ∷ rest) ]

module _ (iana_lookup : List ℕ → Option (List ℕ)) where
  pub create_l2host : Interface → List ℕ → L2Host
  create_l2host i hwaddr = record {
    hwaddr = hwaddrint hwaddr;
    devname =
        if is_bcast i hwaddr
        then some link_broadcast
        else if has_vendors i
        then iana_lookup hwaddr
        else none;
    srcpkts = 0;
    dstpkts = 0;
  }

  -- The host returned, the interface, and whether the host is new, for `neigh_event`.
  pub lookup_l2host : Interface → List ℕ → L2Host × Interface × Bool
  lookup_l2host i hwaddr = elim (splice (hwaddrint hwaddr) i.l2hosts) [
    | some (l2, rest) ↦ (l2, record i { l2hosts = l2 ∷ rest }, false)
    | none ↦ let l2 = create_l2host i hwaddr in (l2, record i { l2hosts = l2 ∷ i.l2hosts }, true)
  ]

-- The kinds of addresses: RTN_UNICAST, RTN_LOCAL, RTN_BROADCAST and RTN_MULTICAST.
pub data Rtn : Type 0 where
  unicast local broadcast multicast : Rtn

-- `categorize_ethaddr` of src/omphalos/ethernet.h, by the lowest bit of the first byte.
unfoldable pub categorize_ethaddr : List ℕ → Rtn
categorize_ethaddr [] = unicast
categorize_ethaddr (b ∷ mac) = if b % 2 == 1 then multicast else unicast

unfoldable pub categorize_l2addr : Interface → List ℕ → Rtn
categorize_l2addr i hwaddr =
    let bcast = is_bcast i hwaddr in
    if same_bytes i.addr hwaddr
    then local
    else if i.arptype == arphrd_ether
    then elim (categorize_ethaddr hwaddr) [
      | multicast ↦ if bcast then broadcast else multicast
      | _ ↦ unicast
    ]
    else if bcast
    then broadcast
    else unicast

-- The first bytes of a `hwaddrint` in memory.
unfoldable pub hwaddr_bytes : ℕ → ℕ → List ℕ
hwaddr_bytes zero hwaddr = []
hwaddr_bytes (suc len) hwaddr = (hwaddr % 256) ∷ hwaddr_bytes len (hwaddr / 256)

-- A host is categorized by its address.
unfoldable pub l2categorize : Interface → ℕ → Rtn
l2categorize i hwaddr = categorize_l2addr i (hwaddr_bytes i.addrlen hwaddr)

-- The sizes of the text: `HWADDRSTRLEN`.
pub hwaddrstrlen : ℕ → ℕ
hwaddrstrlen len = if len == 0 then 1 else if len == 1 then 2 else len * 3

unfoldable pub hex_digit : ℕ → ℕ
hex_digit d = if ltb d 10 then 0x30 + d else 0x57 + d

-- `snprintf` of a text into `size` bytes, without the NUL.
pub snprintf : ℕ → List ℕ → List ℕ
snprintf size text = take (size - 1) text

-- The loop and the last call of `hwntop` from `idx` on; each call writes over the NUL of the last.
pub hwntop_from : ℕ → ℕ → List ℕ → List ℕ
hwntop_from s idx [] = []
hwntop_from s idx (b ∷ []) = snprintf (s - idx * 3) (hex_digit (b / 16) ∷ hex_digit (b % 16) ∷ [])
hwntop_from s idx (b ∷ c ∷ bytes) =
    snprintf (s - idx * 3) (hex_digit (b / 16) ∷ hex_digit (b % 16) ∷ 0x3a ∷ [])
    ++ hwntop_from s (idx + 1) (c ∷ bytes)

pub hwntop : List ℕ → List ℕ
hwntop hwaddr = hwntop_from (hwaddrstrlen (length hwaddr)) 0 hwaddr
