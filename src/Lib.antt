-- ===== src/Lib.antt =====
-- Verification of omphalos, a network monitor that captures and dissects packets and enumerates
-- the hosts, services and routes that it sees (src/omphalos).
--
-- The program. A thread for each interface takes frames from a packet socket (psocket.c, netlink.c)
-- and hands them to the analyzer of the link layer (ethernet.c, radiotap.c, ppp.c, hdlc.c, ...),
-- which dissects the headers down to IPv4 and IPv6 (ip.c), ARP (arp.c), ICMP (icmp.c), UDP (udp.c)
-- and the protocols on top (dns.c, mdns.c, dhcp.c, netbios.c, ssdp.c, ...). The analyzers find or make
-- the hosts behind the hardware addresses (hwaddrs.c) and network addresses (netaddrs.c), note the
-- services that answer (service.c) and name the hosts by DNS (resolv.c, queries.c). Counters over a
-- sliding window (timing.c) measure the traffic of an interface. Routes (route.c) tell where to send
-- probes (tx.c), whose headers get their checksums from csum.c. The user interfaces (src/ui) are told
-- of interfaces, hosts and services by callbacks.
--
-- The models, and the code that each is of:
--   Base      shared names, lists and bytes over native numbers, masks as arithmetic; no code.
--   Csum      src/omphalos/csum.c: ipv4_csum, udp4_csum, icmp4_csum, udp6_csum, icmp6_csum, each as a
--             function with its name on the bytes in memory and the address of a header. The loops are
--             sum_words and fold_carries, the ends of the functions fold_halves32 and fold_halves16,
--             for the two widths of the variable that they fold into.
--   Timing    src/omphalos/timing.c and timing.h: the record Timestat, timestat_prep, timestat_inc
--             with its branches as zero_expired, expire, advance and add_sample, ringinc, timestat_val.
--   Dns.Name  src/omphalos/dns.c: extract_dns_record and dns_inflate, with the buffer that they
--             reallocate as its text and its capacity.
--   Dns.Reverse  rev_dns_a and rev_dns_aaaa of dns.c, which write the name of a reverse lookup, and
--             process_reverse_lookup and its two halves, which read it. Strings are lists of bytes, and
--             of the C library inet_pton for IPv4, strtoul and the tests of digits are written out.
--   Dns.Services, Dns.Extra, Dns.Packets  the rest of what dns.c receives: match_srv_proto and
--             process_srv_lookup with mbtowc as an argument, extract_dns_extra, and handle_dns_packet
--             with its loops as questions and answers. What it asks of resolv.c, netaddrs.c and
--             service.c is kept in the packet.
--   Service   src/omphalos/service.c: the ordered list of services of a host, observe_service with its
--             loop as walk, and l3_getservices and l3_setservices of src/omphalos/netaddrs.c.
--   Hwaddrs   src/omphalos/hwaddrs.c: lookup_l2host with its loop as splice, create_l2host, hwntop,
--             HWADDRSTRLEN, l2categorize and categorize_l2addr, and categorize_ethaddr of ethernet.h. The
--             vendor names of src/omphalos/iana.c are an argument.
--   Route     src/omphalos/route.c: the two tables, in the order of handle_rtm_newroute as link and
--             add_route, and the loop of get_router as get_route.
--   L3Hosts, Netaddrs  src/omphalos/netaddrs.c: the hosts of an interface by network address and all of
--             them, as lists of numbers of hosts in a store, so that a host which is renamed is renamed
--             in both, are in L3Hosts. Netaddrs has lookup_l3host and its like over lookup_l3host_common,
--             whose test of addresses is is_external, find_l3host, and offer_wresolution of resolv.c.
--             What is asked of resolv.c, route.c and ietf.c is the record Others, an argument.
--   Resolv    src/omphalos/resolv.c: the servers that are known, queue_for_naming, offer_nameserver,
--             and parse_resolv_conf on the lines of the file.
--   Iana      src/omphalos/iana.c: the trie of vendors as tables of tables, parse_file with its loop as
--             parse_oui_lines, and iana_lookup, which is an argument of Hwaddrs.
--   Ietf      src/omphalos/ietf.c, with equal128masked of 128.h: ietf_multicast_lookup and its like, whose
--             texts are lists of characters. Netaddrs.Linked puts them, and queue_for_naming of Resolv,
--             in the place of the record Others.
--   Diag      src/omphalos/diag.c: add_log and get_logs on the ring of the last diagnostics, with the mutex
--             as a part of the state.
--   Packet    omphalos_packet of src/omphalos/omphalos.h, and what an analyzer is: a function of the
--             memory, the address and length of a frame, and the packet. What analyzers ask of
--             netaddrs.c, service.c and resolv.c is kept in the packet as a list.
--   Headers   the analyzers that look at a header only: src/omphalos/tcp.c, sctp.c, gre.c, pim.c,
--             vrrp.c, ospf.c, ipsec.c, mpls.c, mld.c, hdlc.c and some of ip.c and cisco.c.
--   Link      src/omphalos/eapol.c, ipx.c, stp.c, irda.c, handle_udld_packet of cisco.c and
--             handle_pppoe_packet of ethernet.c.
--   Arp       handle_arp_packet of src/omphalos/arp.c.
--   Nd, Icmp  src/omphalos/nd.c and the handlers of icmp.c. The loops over options are nd_options and, for
--             neighbour solicitations, neighsol_options.
--   Netbios   first_level_decode and handle_netbios_ns_packet of src/omphalos/netbios.c.
--   Lltd      handle_lltd_packet of src/omphalos/lltd.c, with the loop over properties as tlvs; the
--             conversion of names by iconv is an argument.
--   Udp       handle_udp_packet of src/omphalos/udp.c, over a record of the applications. Udp.Apps has
--             them: handle_natpmp_packet and handle_mdns_packet of mdns.c, handle_ssdp_packet of
--             ssdp.c and the handlers of dhcp.c, with handle_dns_packet of dns.c as an argument.
--   Radiotap  src/omphalos/radiotap.c: handle_radiotap_packet with its walk over the fields as header_fields, and
--             handle_ieee80211_packet down to the tags of management frames, whose loop is mgmt_tags. The
--             checksum that zlib computes is an argument.
--   Ip        handle_ipv4_packet and handle_ipv6_packet of src/omphalos/ip.c, which hand on to Udp, Icmp
--             and Headers; the loop over extension headers is next_headers. Ip.Prep has the headers
--             that are sent: prep_ipv4_header and its like, and prep_udp4 and prep_udp6 of udp.c.
--   Ethernet  src/omphalos/ethernet.c: handle_ethernet_packet with handle_8021q (on fuel as tagged),
--             handle_snap and handle_8022, which hand on to Ip, Arp, Link and Headers, and to an argument in the
--             place of handle_lltd_packet; Ethernet.Prep has prep_eth_header and prep_eth_bcast.
--
-- How the code is modelled. Memory is a list of bytes from address 0 on, and a load or a store outside
-- is a fault; a function that reads memory returns an Outcome, which is a result, a fault, an assertion
-- that failed, or a loop that ran out of fuel. Ends is the proposition that it is a result with some
-- property, and Stops that it is that or a failed assertion or, where this is allowed, an endless loop.
-- Integers are natural numbers with the wrap-around of their width written out, on a little-endian host. Linked lists that one pointer owns are lists, and a node that the source
-- splices out and links in is an element that is taken out and put in. Arguments say whether memory
-- can be allocated, or else it can.
--
-- Bounds and fuel. fold_carries of ipv4_csum has fuel 4: a sum of 32 bits is folded in two rounds. The
-- loop over labels of extract_dns_record has one round for each byte that may be consumed, since each
-- label consumes one at least, and that of dns_inflate one for each byte of the string that it copies
-- from. The recursion of dns_inflate is bounded by fuel that the caller gives, since the code has no
-- bound for it. The loops over options, tags and extension headers, and the recursion of handle_8021q, have a
-- round for each byte of the frame, since each takes some; that of handle_udld_packet has as many rounds
-- as the caller gives, since it need not end. Those of handle_dns_packet are over the counts of its
-- header. The loop over labels of process_srv_lookup has one round for each byte of the name and one for
-- its end, and a name is converted to 63 wide characters at most, as the source's array holds.
--
-- Not modelled: input and output (sockets, netlink, packet rings, files, terminals), the threads and
-- their locks but for the mutex of diag.c, signals and privileges, and zlib, libcap and the other
-- libraries that are called. Of the routes, the netlink attributes and the hosts behind a gateway are
-- not modelled, of dns.c the frames of queries (setup_dns_ptr, tx_dns_ptr), of netaddrs.c the text of an
-- address and the freeing of hosts, and of resolv.c the text of the servers and the watch on the file.
-- The frames that are sent, but for their headers, are not modelled either.
pub mod Arp
pub mod Base
pub mod Csum
pub mod Diag
pub mod Dns
pub mod Ethernet
pub mod Headers
pub mod Hwaddrs
pub mod Iana
pub mod Icmp
pub mod Ietf
pub mod Ip
pub mod L3Hosts
pub mod Link
pub mod Lltd
pub mod Nd
pub mod Netaddrs
pub mod Netbios
pub mod Packet
pub mod Radiotap
pub mod Resolv
pub mod Route
pub mod Service
pub mod Timing
pub mod Udp
