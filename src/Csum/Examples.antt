-- ===== src/Csum/Examples.antt =====
-- Headers and datagrams on which the functions of src/omphalos/csum.c are run, and the theorems
-- applied to them.
use omphalos.Base.{store16, ◌≡◌, ◌↔◌, ◌%◌, refl, arith, [], ◌∷◌, ◌++◌, Memory, done, load16}
use omphalos.Csum.{
  ipv4_csum, icmp4_csum, udp4_csum, header_length, sum_words, fold_carries, sum_datagram,
  fold_halves32,
}
use omphalos.Csum.Header.{ipv4_csum-ones_sum, ipv4_csum-store, ipv4_csum-detects}
use omphalos.Csum.Transport.{udp4_csum-lossy, lossy32, udp4_words}

-- An IPv4 header with no checksum yet.
abbrev blank_header : Memory
blank_header =
    0x45 ∷ 0 ∷ 0 ∷ 0x73 ∷ 0 ∷ 0 ∷ 0x40 ∷ 0 ∷ 0x40 ∷ 0x11 ∷ 0 ∷ 0 ∷ 0xc0 ∷ 0xa8 ∷ 0 ∷ 1 ∷ 0xc0 ∷ 0xa8
    ∷ 0 ∷ 0xc7 ∷ []

abbrev valid_header : Memory
valid_header =
    0x45 ∷ 0 ∷ 0 ∷ 0x73 ∷ 0 ∷ 0 ∷ 0x40 ∷ 0 ∷ 0x40 ∷ 0x11 ∷ 0xb8 ∷ 0x61 ∷ 0xc0 ∷ 0xa8 ∷ 0 ∷ 1 ∷ 0xc0
    ∷ 0xa8 ∷ 0 ∷ 0xc7 ∷ []

-- The bytes b8 61, in the order of the host.
blank_header_csum : ipv4_csum blank_header 0 ≡ done 0x61b8
unfolding ipv4_csum header_length sum_words fold_carries load16
blank_header_csum = refl

valid_header_csum : ipv4_csum valid_header 0 ≡ done 0
unfolding ipv4_csum header_length sum_words fold_carries load16
valid_header_csum = refl

ipv4_csum-ones_sum_example : ipv4_csum blank_header 0 ≡ done 0x61b8
ipv4_csum-ones_sum_example = ipv4_csum-ones_sum blank_header 0 (omega arith) (omega arith)

ipv4_csum-store_example : ipv4_csum (store16 blank_header 10 0x61b8) 0 ≡ done 0
ipv4_csum-store_example =
    ipv4_csum-store blank_header 0 0x61b8 (omega arith) (omega arith) (omega arith) refl
      blank_header_csum

ipv4_csum-detects_example :
    (ipv4_csum (store16 valid_header 8 0x1140) 0 ≡ done 0) ↔ (0x1140 % 65535 ≡ 0x1140 % 65535)
ipv4_csum-detects_example =
    ipv4_csum-detects valid_header 0 4 0x1140 (omega arith) (omega arith) (omega arith)
      (omega arith) (omega arith) valid_header_csum

-- An ICMP message of five bytes whose halves do not carry.
abbrev echo : Memory
echo = 8 ∷ 0 ∷ 0 ∷ 0 ∷ 7 ∷ []

echo_csum : icmp4_csum echo 0 5 ≡ done 0xfff0
unfolding icmp4_csum sum_datagram sum_words fold_halves32 load16
echo_csum = refl

-- The words ffff, ffff and 0001 carry: the one's complement sum is 1, and its complement fffe,
-- but the dropped carry makes the result ffff.
abbrev carrying : Memory
carrying = 0xff ∷ 0xff ∷ 0xff ∷ 0xff ∷ 1 ∷ 0 ∷ []

carrying_csum : icmp4_csum carrying 0 6 ≡ done 0xffff
unfolding icmp4_csum sum_datagram sum_words fold_halves32 load16
carrying_csum = refl

-- A UDP datagram of nine bytes behind an IPv4 header.
abbrev udp4_packet : Memory
udp4_packet = valid_header ++ (0 ∷ 53 ∷ 0x10 ∷ 1 ∷ 0 ∷ 9 ∷ 0 ∷ 0 ∷ 65 ∷ [])

udp4_csum-lossy_example : udp4_csum udp4_packet 0 ≡ done (lossy32 (udp4_words udp4_packet 0))
udp4_csum-lossy_example = udp4_csum-lossy udp4_packet 0 (omega arith) (omega arith)

udp4_packet_csum : udp4_csum udp4_packet 0 ≡ done 36140
unfolding udp4_csum header_length sum_datagram sum_words fold_halves32 load16
udp4_packet_csum = refl

-- An IPv6 header with payload length 49 and a UDP datagram of nine bytes behind it.
abbrev udp6_packet : Memory
udp6_packet =
    0x60 ∷ 0 ∷ 0 ∷ 0 ∷ 0 ∷ 49 ∷ 17 ∷ 64 ∷ 0xfe ∷ 0x80 ∷ 0 ∷ 0 ∷ 0 ∷ 0 ∷ 0 ∷ 0 ∷ 0 ∷ 0 ∷ 0 ∷ 0 ∷ 0
    ∷ 0 ∷ 0 ∷ 1 ∷ 0xff ∷ 2 ∷ 0 ∷ 0 ∷ 0 ∷ 0 ∷ 0 ∷ 0 ∷ 0 ∷ 0 ∷ 0 ∷ 0 ∷ 0 ∷ 0 ∷ 0 ∷ 0xfb ∷ 0x14 ∷ 0xe9
    ∷ 0x14 ∷ 0xe9 ∷ 0 ∷ 9 ∷ 0 ∷ 0 ∷ 65 ∷ []
