-- ===== src/Checksum.antt =====
-- src/checksum.c: the Internet checksum of IPv4, TCP, UDP and ICMP headers. A pointer to a header
-- is the list of the bytes from there on.
pub mod Rfc1071
pub mod Header
pub mod Transport
pub mod Examples
use reqrypt.Common.{ℕ, zero, suc, ◌+◌, ◌-◌, ◌*◌, ◌/◌, ◌%◌, ◌^◌, List, [], ◌∷◌, ◌++◌, Option, none}
use reqrypt.Common.{some, ◌>>=◌, if◌then◌else◌, ◌==◌, get_elem?, u8, u16, u32, sub64, ntohs, htons}
use reqrypt.Common.{u8_at, u16_at, bytes_at, drop}

abbrev pub ipproto_tcp : ℕ
ipproto_tcp = 6

abbrev pub ipproto_udp : ℕ
ipproto_udp = 17

-- `for (i = 0; i < len16; i++) sum += (uint32_t)data16[i];`
pub sum_words : ℕ → ℕ → List ℕ → Option ℕ
sum_words zero sum bytes = some sum
sum_words (suc left) sum (lo ∷ hi ∷ bytes) = sum_words left (u32 (sum + (lo + 256 * hi))) bytes
sum_words (suc left) sum (lo ∷ []) = none
sum_words (suc left) sum [] = none

-- `if (size & 0x1) sum += (uint16_t)data8[size-1];`
pub add_odd_byte : ℕ → List ℕ → ℕ → Option ℕ
add_odd_byte sum bytes size =
    if size % 2 == 1
    then (do b ← get_elem? bytes (size - 1); some (u32 (sum + u16 b)))
    else some sum

-- The folding of the carries and the complement, each step in `uint32_t`.
pub fold_carries : ℕ → ℕ
fold_carries sum =
    let once = u32 (sum % 2 ^ 16 + sum / 2 ^ 16) in
    let twice = u32 (once + once / 2 ^ 16) in u16 (2 ^ 32 - 1 - twice)

pub checksum : List ℕ → ℕ → List ℕ → ℕ → Option ℕ
checksum pseudo pseudo_size bytes size = do
  header ← sum_words (pseudo_size / 2) 0 pseudo
  sum ← sum_words (size / 2) header bytes
  total ← add_odd_byte sum bytes size
  some (fold_carries total)

-- `ihl` is the low half of the first byte of the header.
pub ip_checksum : List ℕ → Option ℕ
ip_checksum ip = do first ← u8_at ip 0; checksum [] 0 ip (first % 16 * 4)

-- The packed pseudo header: both addresses, a zero, the protocol and the length.
pub pseudo_header : List ℕ → List ℕ → ℕ → ℕ → List ℕ
pseudo_header saddr daddr protocol size =
    saddr ++ (daddr ++ (0 ∷ protocol ∷ htons (u16 size) % 256 ∷ htons (u16 size) / 256 ∷ []))

pub tcp_udp_checksum : List ℕ → Option ℕ
tcp_udp_checksum ip = do
  first ← u8_at ip 0
  tot_len ← u16_at ip 2
  saddr ← bytes_at ip 12 4
  daddr ← bytes_at ip 16 4
  let header_size = first % 16 * 4
  let tcp_size = sub64 (ntohs tot_len) header_size
  checksum (pseudo_header saddr daddr ipproto_tcp tcp_size) 12 (drop header_size ip) tcp_size

pub tcp_checksum : List ℕ → Option ℕ
tcp_checksum ip = tcp_udp_checksum ip

pub udp_checksum : List ℕ → Option ℕ
udp_checksum ip = tcp_udp_checksum ip

pub icmp_checksum : List ℕ → ℕ → Option ℕ
icmp_checksum icmp size = checksum [] 0 icmp size
