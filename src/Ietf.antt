-- ===== src/Ietf.antt =====
-- src/omphalos/ietf.c, and what it uses of src/128.h: the names of addresses that the IETF has given a
-- meaning. An address is the list of its bytes. A word of an IPv4 address is compared in the order of
-- the network, as the constants of the source are, so that the word is the number `net_long` here.
pub mod Multicast
mod Examples
use Prim.Native.String.{String}
use omphalos.Base.{
  ℕ, zero, suc, ◌+◌, ◌-◌, ◌*◌, List, [], ◌∷◌, ◌++◌, Option, none, some, Bool, true, false, not,
  ◌==◌, if◌then◌else◌, bit_and, take, drop, replicate, get_or,
}
use omphalos.Base.Text.{wide}
use omphalos.Hwaddrs.{same_bytes}
use omphalos.Packet.{af_inet, af_inet6}
use omphalos.Dns.Reverse.{net_long}

-- `equal128masked`: copies of the first octets, over zeros, are compared.
pub equal128masked : List ℕ → List ℕ → ℕ → Bool
equal128masked v1 v2 octetsmasked =
    let zeros : List ℕ = replicate 16 0 in
    let i1 = take octetsmasked v1 ++ drop octetsmasked zeros in
    let i2 = take octetsmasked v2 ++ drop octetsmasked zeros in same_bytes i1 i2

abbrev pub in_block : ℕ → ℕ → ℕ → Bool
in_block ip mask base = bit_and ip mask == base

-- The first entry of a table with the number, or the name of the whole block.
pub name_of : List (ℕ × String) → String → ℕ → List ℕ
name_of [] block ip = wide block
name_of ((addr, name) ∷ names) block ip =
    let rest = name_of names block ip in if ip == addr then wide name else rest

-- The Local Network Control Block, 224.0.0.0/24.
pub rfc1112_local : List (ℕ × String)
rfc1112_local =
    (0xe0000001, "All segment hosts (RFC 1112)")
    ∷ (0xe0000002, "All segment routers (RFC 1112)")
    ∷ (0xe0000004, "DVMRP (RFC 1075)")
    ∷ (0xe0000005, "OSPFIGP all routers (RFC 1583)")
    ∷ (0xe0000006, "OSPFIGP designated routers (RFC 1583)")
    ∷ (0xe0000007, "ST2 routers (RFC 1190)")
    ∷ (0xe0000008, "ST2 hosts (RFC 1190)")
    ∷ (0xe000000a, "[E]IGRP routers (Cisco)")
    ∷ (0xe000000c, "DHCP relay (RFC 1884)")
    ∷ (0xe0000016, "IGMPv3 (RFC 1054)")
    ∷ (0xe00000fb, "mDNS (IANA)")
    ∷ (0xe00000fc, "LLMNR (RFC 4795)")
    ∷ []

-- The Internetwork Control Block, 224.0.1.0/24.
pub ipv4_internetwork : List (ℕ × String)
ipv4_internetwork =
    (0xe0000101, "SNTPv4 (RFC 4330)") ∷ (0xe0000144, "mdhcpdiscover (RFC 2730)") ∷ []

-- The Administratively Scoped Block, 239.255.255.0/24.
pub ipv4_adminscoped : List (ℕ × String)
ipv4_adminscoped =
    (0xeffffffa, "SSDP (UPnP 1.1)") ∷ (0xeffffffd, "Admin-scoped SLPv2 (RFC 2608)") ∷ []

pub ietf_multicast_ipv4 : List ℕ → Option (List ℕ)
ietf_multicast_ipv4 addr =
    let ip = net_long addr 0 in
    if not (in_block ip 0xe0000000 0xe0000000)
    then none
    else if in_block ip 0xffffff00 0xe0000000
    then some (name_of rfc1112_local "RFC 5771 local network multicast" ip)
    else if in_block ip 0xffffff00 0xe0000100
    then some (name_of ipv4_internetwork "RFC 5771 internetwork multicast" ip)
    else if in_block ip 0xffffff00 0xefffff00
    then some (name_of ipv4_adminscoped "RFC 5771 admin-scoped multicast" ip)
    else some (wide "RFC 5771 multicast")

-- Addresses, the octets of each that count, and their names, of which one is the null pointer.
pub ip6mcasts : List (List ℕ × (ℕ × Option String))
ip6mcasts =
    (
      0xff ∷ 0x02 ∷ 0x00 ∷ 0x00 ∷ 0x00 ∷ 0x00 ∷ 0x00 ∷ 0x00 ∷ 0x00 ∷ 0x00 ∷ 0x00 ∷ 0x00 ∷ 0x00
          ∷ 0x00 ∷ 0x00 ∷ 0x01 ∷ [],
      (16, some "All segment hosts (RFC 2375)"),
    )
    ∷ (
      0xff ∷ 0x02 ∷ 0x00 ∷ 0x00 ∷ 0x00 ∷ 0x00 ∷ 0x00 ∷ 0x00 ∷ 0x00 ∷ 0x00 ∷ 0x00 ∷ 0x01 ∷ 0xff
          ∷ 0x00 ∷ 0x00 ∷ 0x00 ∷ [],
      (13, some "LL neighbor solicitation (RFC 4861)"),
    )
    ∷ (
      0xff ∷ 0x02 ∷ 0x00 ∷ 0x00 ∷ 0x00 ∷ 0x00 ∷ 0x00 ∷ 0x00 ∷ 0x00 ∷ 0x00 ∷ 0x00 ∷ 0x00 ∷ 0x00
          ∷ 0x00 ∷ 0x00 ∷ 0x02 ∷ [],
      (16, some "All segment routers (RFC 2375)"),
    )
    ∷ (
      0xff ∷ 0x02 ∷ 0x00 ∷ 0x00 ∷ 0x00 ∷ 0x00 ∷ 0x00 ∷ 0x00 ∷ 0x00 ∷ 0x00 ∷ 0x00 ∷ 0x00 ∷ 0x00
          ∷ 0x00 ∷ 0x00 ∷ 0x0c ∷ [],
      (16, some "Link-local SSDP (UPnP 1.1)"),
    )
    ∷ (
      0xff ∷ 0x02 ∷ 0x00 ∷ 0x00 ∷ 0x00 ∷ 0x00 ∷ 0x00 ∷ 0x00 ∷ 0x00 ∷ 0x00 ∷ 0x00 ∷ 0x00 ∷ 0x00
          ∷ 0x00 ∷ 0x00 ∷ 0x16 ∷ [],
      (16, some "MLDv2 (RFC 4604)"),
    )
    ∷ (
      0xff ∷ 0x02 ∷ 0x00 ∷ 0x00 ∷ 0x00 ∷ 0x00 ∷ 0x00 ∷ 0x00 ∷ 0x00 ∷ 0x00 ∷ 0x00 ∷ 0x00 ∷ 0x00
          ∷ 0x00 ∷ 0x00 ∷ 0xfb ∷ [],
      (16, some "mDNS (IANA)"),
    )
    ∷ (
      0xff ∷ 0x02 ∷ 0x00 ∷ 0x00 ∷ 0x00 ∷ 0x00 ∷ 0x00 ∷ 0x00 ∷ 0x00 ∷ 0x00 ∷ 0x00 ∷ 0x00 ∷ 0x00
          ∷ 0x01 ∷ 0x00 ∷ 0x02 ∷ [],
      (16, none),
    )
    ∷ (
      0xff ∷ 0x02 ∷ 0x00 ∷ 0x00 ∷ 0x00 ∷ 0x00 ∷ 0x00 ∷ 0x00 ∷ 0x00 ∷ 0x00 ∷ 0x00 ∷ 0x00 ∷ 0x00
          ∷ 0x01 ∷ 0x00 ∷ 0x03 ∷ [],
      (16, some "LLMNR (RFC 4795)"),
    )
    ∷ (
      0xff ∷ 0x05 ∷ 0x00 ∷ 0x00 ∷ 0x00 ∷ 0x00 ∷ 0x00 ∷ 0x00 ∷ 0x00 ∷ 0x00 ∷ 0x00 ∷ 0x00 ∷ 0x00
          ∷ 0x01 ∷ 0x00 ∷ 0x03 ∷ [],
      (16, some "DHCPv6 servers (RFC 3315)"),
    )
    ∷ (
      0xff ∷ 0x05 ∷ 0x00 ∷ 0x00 ∷ 0x00 ∷ 0x00 ∷ 0x00 ∷ 0x00 ∷ 0x00 ∷ 0x00 ∷ 0x00 ∷ 0x00 ∷ 0x00
          ∷ 0x00 ∷ 0x00 ∷ 0x02 ∷ [],
      (16, some "All site routers (RFC 2375)"),
    )
    ∷ (
      0xff ∷ 0x05 ∷ 0x00 ∷ 0x00 ∷ 0x00 ∷ 0x00 ∷ 0x00 ∷ 0x00 ∷ 0x00 ∷ 0x00 ∷ 0x00 ∷ 0x00 ∷ 0x00
          ∷ 0x00 ∷ 0x00 ∷ 0x0c ∷ [],
      (16, some "Site-local SSDP (UPnP 1.1)"),
    )
    ∷ (
      0xff ∷ 0x08 ∷ 0x00 ∷ 0x00 ∷ 0x00 ∷ 0x00 ∷ 0x00 ∷ 0x00 ∷ 0x00 ∷ 0x00 ∷ 0x00 ∷ 0x00 ∷ 0x00
          ∷ 0x00 ∷ 0x00 ∷ 0x0c ∷ [],
      (16, some "Organization-local SSDP (UPnP 1.1)"),
    )
    ∷ (
      0xff ∷ 0x0e ∷ 0x00 ∷ 0x00 ∷ 0x00 ∷ 0x00 ∷ 0x00 ∷ 0x00 ∷ 0x00 ∷ 0x00 ∷ 0x00 ∷ 0x00 ∷ 0x00
          ∷ 0x00 ∷ 0x00 ∷ 0x0c ∷ [],
      (16, some "Global SSDP (UPnP 1.1)"),
    )
    ∷ []

-- The loop over the table, which ends at an entry without a name.
pub mcast_from : List (List ℕ × (ℕ × Option String)) → List ℕ → List ℕ
mcast_from [] ip = wide "RFC 4291 multicast"
mcast_from ((addr, (octets, none)) ∷ mcasts) ip = wide "RFC 4291 multicast"
mcast_from ((addr, (octets, some name)) ∷ mcasts) ip =
    let rest = mcast_from mcasts ip in if equal128masked ip addr octets then wide name else rest

pub ietf_multicast_ipv6 : List ℕ → Option (List ℕ)
ietf_multicast_ipv6 ip =
    if not (get_or ip 0 0 == 0xff) then none else some (mcast_from ip6mcasts ip)

pub ietf_multicast_lookup : ℕ → List ℕ → Option (List ℕ)
ietf_multicast_lookup fam addr =
    if fam == af_inet
    then ietf_multicast_ipv4 addr
    else if fam == af_inet6
    then ietf_multicast_ipv6 addr
    else none

pub ietf_unicast_ipv4 : List ℕ → Option (List ℕ)
ietf_unicast_ipv4 addr =
    if in_block (net_long addr 0) 0xffff0000 0xa9fe0000
    then some (wide "APIPA link-local hosts (RFC 3927)")
    else none

pub ietf_unicast_ipv6 : List ℕ → Option (List ℕ)
ietf_unicast_ipv6 ip =
    if same_bytes (replicate 16 0) ip
    then some (wide "Unspecified IPv6 address (RFC 2373)")
    else none

pub ietf_unicast_lookup : ℕ → List ℕ → Option (List ℕ)
ietf_unicast_lookup fam addr =
    if fam == af_inet
    then ietf_unicast_ipv4 addr
    else if fam == af_inet6
    then ietf_unicast_ipv6 addr
    else none

pub ietf_bcast_ipv4 : List ℕ → Option (List ℕ)
ietf_bcast_ipv4 ip =
    if same_bytes ip (replicate 4 0xff) then some (wide "Local IPv4 broadcast (RFC 919)") else none

pub ietf_bcast_lookup : ℕ → List ℕ → Option (List ℕ)
ietf_bcast_lookup fam addr = if fam == af_inet then ietf_bcast_ipv4 addr else none

-- `IN6_IS_ADDR_LOOPBACK` is true of the address ::1.
pub ietf_local_lookup : ℕ → List ℕ → Option (List ℕ)
ietf_local_lookup fam addr =
    if fam == af_inet
    then (if in_block (net_long addr 0) 0xff000000 0x7f000000
        then some (wide "Internal IPv4 loopback (RFC 5735)")
        else none)
    else if fam == af_inet6
    then (if same_bytes addr (replicate 15 0 ++ (1 ∷ []))
        then some (wide "Internal IPv6 loopback (RFC 4291)")
        else none)
    else none
