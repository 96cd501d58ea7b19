-- ===== src/Checksum/Examples.antt =====
-- Headers for src/checksum.c.
use reqrypt.Common.{
  all_bytes-IsBytes, ℕ, ◌+◌, ◌%◌, ◌^◌, ◌<◌, ◌≡◌, refl, ◌≢◌, ◌↔◌, some, List, [], ◌∷◌, arith,
}
use reqrypt.Checksum.{checksum, ip_checksum, tcp_checksum, udp_checksum, ipproto_tcp, ipproto_udp}
use reqrypt.Checksum.Rfc1071.{word_sum, byte_sum, checksum_complement}
use reqrypt.Checksum.Header.{IsHeader, with_check, ip_checksum-verifies}
use reqrypt.Checksum.Transport.{
  IsSegment, covered_sum, tcp_checksum_complement, udp_checksum_mismatch,
}

-- An IPv4 header with a payload of twenty bytes.
abbrev ip_packet : List ℕ
ip_packet =
    69 ∷ 0 ∷ 0 ∷ 40 ∷ 18 ∷ 52 ∷ 0 ∷ 0 ∷ 64 ∷ 6 ∷ 0 ∷ 0 ∷ 192 ∷ 168 ∷ 1 ∷ 2 ∷ 93 ∷ 184 ∷ 216 ∷ 34
    ∷ 156 ∷ 64 ∷ 0 ∷ 80 ∷ 1 ∷ 2 ∷ 3 ∷ 4 ∷ 5 ∷ 6 ∷ 7 ∷ 8 ∷ 80 ∷ 24 ∷ 16 ∷ 0 ∷ 0 ∷ 0 ∷ 0 ∷ 0 ∷ []

ip_packet-IsHeader : IsHeader 5 ip_packet
ip_packet-IsHeader = record {
  bytes = all_bytes-IsBytes ip_packet refl;
  first = (69, refl, refl);
  long = omega arith;
  fits = omega arith;
}

ip_packet-IsSegment : IsSegment 5 20 ip_packet
ip_packet-IsSegment = record {
  bytes = all_bytes-IsBytes ip_packet refl;
  first = (69, refl, refl);
  total = (10240, refl, refl);
  long = omega arith;
  fits = omega arith;
  short = omega arith;
}

checksum_complement_example :
    (r : ℕ) × (checksum [] 0 ip_packet 20 ≡ some r)
    × (r < 2 ^ 16)
    × ((word_sum 0 [] + byte_sum ip_packet 20 + r) % 65535 ≡ 0)
    × ((r ≡ 65535) ↔ (word_sum 0 [] + byte_sum ip_packet 20 ≡ 0))
checksum_complement_example =
    checksum_complement [] 0 ip_packet 20 tt (all_bytes-IsBytes ip_packet refl) (omega arith)
      (omega arith) (omega arith) (omega arith)

ip_checksum-verifies_example :
    (c : ℕ) × (ip_checksum (with_check ip_packet 0) ≡ some c)
    × (c < 2 ^ 16)
    × (ip_checksum (with_check ip_packet c) ≡ some 0)
ip_checksum-verifies_example = ip_checksum-verifies 5 ip_packet ip_packet-IsHeader (omega arith)

tcp_checksum_complement_example :
    (r : ℕ) × (tcp_checksum ip_packet ≡ some r)
    × (r < 2 ^ 16)
    × ((covered_sum ipproto_tcp ip_packet 5 20 + r) % 65535 ≡ 0)
tcp_checksum_complement_example = tcp_checksum_complement 5 20 ip_packet ip_packet-IsSegment

-- A UDP datagram of twelve bytes, with its checksum cleared.
abbrev udp_packet : List ℕ
udp_packet =
    69 ∷ 0 ∷ 0 ∷ 32 ∷ 18 ∷ 52 ∷ 0 ∷ 0 ∷ 64 ∷ 17 ∷ 0 ∷ 0 ∷ 192 ∷ 168 ∷ 1 ∷ 2 ∷ 93 ∷ 184 ∷ 216 ∷ 34
    ∷ 156 ∷ 64 ∷ 0 ∷ 53 ∷ 0 ∷ 12 ∷ 0 ∷ 0 ∷ 7 ∷ 8 ∷ 9 ∷ 10 ∷ []

udp_packet-IsSegment : IsSegment 5 12 udp_packet
udp_packet-IsSegment = record {
  bytes = all_bytes-IsBytes udp_packet refl;
  first = (69, refl, refl);
  total = (8192, refl, refl);
  long = omega arith;
  fits = omega arith;
  short = omega arith;
}

udp_checksum_mismatch_example :
    (r : ℕ) × (udp_checksum udp_packet ≡ some r)
    × ((covered_sum ipproto_udp udp_packet 5 12 + r) % 65535 ≢ 0)
udp_checksum_mismatch_example = udp_checksum_mismatch 5 12 udp_packet udp_packet-IsSegment
