-- ===== src/Udp/Apps/Within.antt =====
-- The applications above UDP stay within a slice of the memory where handle_dns_packet does.
use omphalos.Base.{ℕ, ◌+◌, ◌-◌, ◌≤◌, arith, Bool, not, ltb, ◌==◌, Memory, length}
use omphalos.Base.Ends.{Ends, Ends-done, Ends-if, Ends-load8, Ends-load_bytes, Stops-done, ends}
use omphalos.Packet.{Packet, IsValid, Ends-switch}
use omphalos.Netbios.Names.{handle_netbios_ns_packet-IsValid}
use omphalos.Udp.{Judge, is_one}
use omphalos.Udp.Ports.{AllWithin, JudgesWithin, ValidJudged, serves-Stops}
use omphalos.Udp.Apps.{
  exact_length, natpmp_payload, handle_natpmp_packet, same_bytes, notify, search_method,
  handle_ssdp_packet, handle_dhcp_packet, handle_dhcp6_packet, handle_mdns_packet, mdns_name,
  applications,
}

exact_length-Ends :
    (plen : ℕ) (op : Packet)
    → IsValid op
    → (wanted : ℕ) → Ends IsValid (exact_length wanted plen op)
unfolding exact_length
exact_length-Ends plen op valid wanted =
    Ends-if (plen == wanted) (λ _. Ends-done valid) (λ _. Ends-done valid)

natpmp_payload-Ends :
    (operation plen : ℕ) (op : Packet)
    → IsValid op
    → Ends IsValid (natpmp_payload operation plen op)
unfolding natpmp_payload
natpmp_payload-Ends operation plen op valid =
    let exact = exact_length-Ends plen op valid in
    Ends-switch IsValid operation _
      (exact 0, (exact 10, (exact 10, (exact 10, (exact 14, (exact 14, tt)))))) (Ends-done valid)

handle_natpmp_packet-Ends :
    (mem : Memory) (frame len : ℕ) (op : Packet)
    → frame + len ≤ length mem
    → IsValid op
    → Ends IsValid (handle_natpmp_packet mem frame len op)
unfolding handle_natpmp_packet
handle_natpmp_packet-Ends mem frame len op inside valid =
    Ends-if (ltb len 2) (λ _. Ends-done valid)
      (λ long. Ends-load8 mem frame (ground arith) (λ ver _.
        Ends-if (not (ver == 0)) (λ _. Ends-done valid)
          (λ _.
            Ends-load8 mem (frame + 1) (ground arith)
              (λ operation _. natpmp_payload-Ends operation (len - 2) op valid))))

handle_ssdp_packet-Ends :
    (mem : Memory) (frame len : ℕ) (op : Packet)
    → frame + len ≤ length mem
    → IsValid op
    → Ends ValidJudged (handle_ssdp_packet mem frame len op)
unfolding handle_ssdp_packet
handle_ssdp_packet-Ends mem frame len op inside valid =
    Ends-if (ltb len 7) (λ _. Ends-done valid)
      (λ long. Ends-load_bytes mem frame 7 (ground arith) (λ method _.
        Ends-if (same_bytes method notify) (λ _. Ends-done valid)
          (λ _.
            Ends-if (same_bytes method search_method) (λ _. Ends-done valid)
              (λ _. Ends-done valid))))

pub applications-AllWithin :
    (endless : Bool) (mem : Memory) (lo hi : ℕ) (handle_dns_packet : Judge)
    → hi ≤ length mem
    → JudgesWithin endless mem lo hi handle_dns_packet
    → AllWithin endless mem lo hi (applications handle_dns_packet)
unfolding handle_mdns_packet handle_dhcp_packet handle_dhcp6_packet
applications-AllWithin endless mem lo hi dns inside within = (
  λ f l o a b v. ends (handle_natpmp_packet-Ends mem f l o (omega arith) v),
  serves-Stops endless mem lo hi is_one mdns_name dns within,
  within,
  λ f l o a b v. ends (handle_ssdp_packet-Ends mem f l o (omega arith) v),
  λ f l o a b v. ends (handle_netbios_ns_packet-IsValid mem f l o (omega arith) v),
  λ f l o a b v. Stops-done v,
  λ f l o a b v. Stops-done v,
)
