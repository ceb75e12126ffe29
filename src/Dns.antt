-- ===== src/Dns.antt =====
-- src/omphalos/dns.c: names and records of DNS packets, the names of reverse lookups and of
-- services, and the handler of DNS packets.
pub mod Name
pub mod Reverse
pub mod Services
pub mod Extra
pub mod Packets
