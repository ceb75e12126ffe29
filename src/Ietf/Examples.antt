-- ===== src/Ietf/Examples.antt =====
-- Addresses on which the theorems apply, and what they are called.
use omphalos.Base.{ℕ, ◌≡◌, refl, List, [], ◌∷◌, ◌++◌, some, none, replicate, ◌==◌, if◌then◌else◌}
use omphalos.Base.Text.{wide}
use omphalos.Packet.{af_inet, af_inet6}
use omphalos.Dns.Reverse.{net_long}
use omphalos.Ietf.{ietf_multicast_lookup, ietf_multicast_ipv4, name_of, rfc1112_local, ip6mcasts}
use omphalos.Ietf.Multicast.{prefix_name, before_unnamed, ietf_multicast_lookup-prefix_name}

abbrev mdns4 : List ℕ
mdns4 = 224 ∷ 0 ∷ 0 ∷ 251 ∷ []

mdns_name : ietf_multicast_lookup af_inet mdns4 ≡ some (wide "mDNS (IANA)")
unfolding ietf_multicast_lookup ietf_multicast_ipv4 net_long wide name_of rfc1112_local
mdns_name = refl

-- ff02::1:3, behind the entry without a name.
abbrev llmnr : List ℕ
llmnr = 2 ∷ replicate 11 0 ++ (1 ∷ 0 ∷ 3 ∷ [])

ietf_multicast_lookup-prefix_name_example :
    ietf_multicast_lookup af_inet6 (0xff ∷ llmnr)
    ≡ (if 0xff == 0xff then some (prefix_name (before_unnamed ip6mcasts) (0xff ∷ llmnr)) else none)
ietf_multicast_lookup-prefix_name_example = ietf_multicast_lookup-prefix_name 0xff llmnr refl
