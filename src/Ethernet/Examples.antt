-- ===== src/Ethernet/Examples.antt =====
-- Frames on which the theorems on the analyzers of ethernet.c, arp.c, ip.c, icmp.c, nd.c, cisco.c,
-- netbios.c and lltd.c apply.
use omphalos.Base.{◌>>=◌, Memory, ◌≡◌, refl, arith, [], ◌∷◌, some, done, fault, load8, load16}
use omphalos.Base.Ends.{Ends}
use omphalos.Csum.{ipv4_csum, sum_words, fold_carries, header_length}
use omphalos.Packet.{IsValid}
use omphalos.Packet.Sample.{
  short_hello, blank, blank-IsValid, no_vendors, sample_apps, are_bytes-IsBytes, reply,
  short_datagram, empty_option, attribute_of_8, name_ab,
}
use omphalos.Arp.{handle_arp_packet}
use omphalos.Arp.Hosts.{handle_arp_packet-IsValid}
use omphalos.Link.{handle_udld_packet}
use omphalos.Link.Udld.{attribute, end_of_packet, handle_udld_packet-Attributes}
use omphalos.Ip.{handle_ipv4_packet}
use omphalos.Ip.Underflow.{handle_ipv4_packet-underflow}
use omphalos.Ip.{ipv4_upper}
use omphalos.Ip.Prep.{prep_ipv4_header, finish_ipv4, bytes32}
use omphalos.Ip.Prep.Sent.{received, prep_ipv4_header-accepted}
use omphalos.Lltd.{handle_lltd_packet}
use omphalos.Lltd.Hello.{handle_lltd_packet-short_hello}
use omphalos.Netbios.{first_level_decode}
use omphalos.Netbios.Round.{first_level_decode-Encoded}

handle_arp_packet-IsValid_example : Ends IsValid (handle_arp_packet reply 0 28 blank)
handle_arp_packet-IsValid_example =
    handle_arp_packet-IsValid reply 0 28 blank (omega arith) blank-IsValid

-- A header whose `tot_len` is 0.
handle_ipv4_packet-underflow_example :
    handle_ipv4_packet sample_apps short_datagram 0 20 blank ≡ fault
unfolding ipv4_csum sum_words fold_carries header_length load8 load16
handle_ipv4_packet-underflow_example =
    handle_ipv4_packet-underflow short_datagram sample_apps 0 20 blank (omega arith) refl refl refl
      (omega arith) refl refl refl refl

handle_udld_packet-Attributes_example :
    Ends IsValid (handle_udld_packet 13 attribute_of_8 0 12 blank)
handle_udld_packet-Attributes_example =
    handle_udld_packet-Attributes attribute_of_8 0 12 blank (omega arith)
      (attribute (omega arith) end_of_packet) blank-IsValid

first_level_decode-Encoded_example : first_level_decode name_ab 0 6 ≡ done (some (0x41 ∷ 0x42 ∷ []))
first_level_decode-Encoded_example =
    first_level_decode-Encoded name_ab 0 6 (0x41 ∷ 0x42 ∷ []) (omega arith) (omega arith)
      (omega arith) (omega arith) refl (omega arith, refl, refl, (omega arith, refl, refl, tt))

-- A header of UDP from 10.0.0.1 to 10.0.0.2, for a datagram of 22 bytes.
prep_ipv4_header-accepted_example :
    Ends
      (λ (final : Memory).
        handle_ipv4_packet sample_apps final 0 22 blank
        ≡ ipv4_upper sample_apps 17 final 20 2
            (received (bytes32 0x0100000a) (bytes32 0x0200000a) blank))
      (prep_ipv4_header 7 empty_option 0 22 0x0100000a 0x0200000a 17 >>= λ r. finish_ipv4 r.0 0 22)
prep_ipv4_header-accepted_example =
    prep_ipv4_header-accepted empty_option 0 22 7 0x0100000a 0x0200000a 17 22 sample_apps 22 blank
      (are_bytes-IsBytes empty_option refl) (omega arith) (omega arith) (omega arith) (omega arith)
      (omega arith)

handle_lltd_packet-short_hello_example :
    handle_lltd_packet no_vendors short_hello 0 18 blank ≡ fault
handle_lltd_packet-short_hello_example =
    handle_lltd_packet-short_hello no_vendors short_hello 0 18 0 blank refl (omega arith)
      (omega arith) refl refl (omega arith) refl
