-- ===== src/PacketFilter.antt =====
-- src/packet_filter.c: which packets are to be tunneled. `none` is a read outside the packet.
pub mod Safety
pub mod Admission
pub mod Handover
pub mod Examples
use reqrypt.Common.{
  ltb, leb, ◌==◌, if◌then◌else◌, ==_iff, Bool-cases, Option-cases, ◌>>=◌, length, get_elem?, get_or,
  set, take, drop, replicate, All, length-append, length-set, length-take, length-drop,
  length-replicate, get_elem?-set_self, get_elem?-set_ne, get_elem?-eq-get_or, take-append-drop,
  take-append, drop-append, drop-drop, u8, u16, u32, u64, sub64, IsByte, IsBytes, ntohs, htons,
  u8_at, u16_at, u32_at, bytes_at, put_u8, put_u16, ℕ, zero, suc, ◌+◌, ◌-◌, ◌*◌, ◌/◌, ◌%◌, ◌^◌, ◌≤◌,
  ◌<◌, min, bit_and, bit_or, bit_xor, ◌≡◌, refl, sym, ap, ◌∙◌, ◌≢◌, ◌↔◌, ◌⊎◌, inl, inr, Bool, true,
  false, not, ◌&&◌, ◌||◌, Option, none, some, List, [], ◌∷◌, ◌++◌, map, arith,
}
use reqrypt.Config.{Config, flag_set, flag_unset}
use reqrypt.Packet.{sizeof_ethhdr, sizeof_iphdr, sizeof_ip6_hdr, sizeof_tcphdr, sizeof_udphdr}

-- `(flag? setting == FLAG_SET: setting == FLAG_UNSET)`
wants : ℕ → ℕ → Bool
wants flag setting = if flag == 1 then setting == flag_set else setting == flag_unset

-- The flags are bits 0 to 4 of the byte at offset 13: fin, syn, rst, psh, ack.
wants_flags : Config → ℕ → Bool
unfolding wants
wants_flags config flags =
    wants (flags / 2 % 2) config.hide_tcp_syn
    || (wants (flags / 16 % 2) config.hide_tcp_ack
        || (wants (flags / 8 % 2) config.hide_tcp_psh
            || (wants (flags % 2) config.hide_tcp_fin
                || wants (flags / 4 % 2) config.hide_tcp_rst)))

-- `ip_end` is the end of the packet by its length.
filter_tcp : Config → List ℕ → ℕ → ℕ → Option Bool
filter_tcp config packet tcp ip_end = do
  dest ← u16_at packet (tcp + 2)
  flags ← u8_at packet (tcp + 13)
  off ← u8_at packet (tcp + 12)
  let should_tunnel = config.hide_tcp && wants_flags config flags
  some (
      if not (dest == htons 80)
      then false
      else if should_tunnel && config.hide_tcp_data
      then ltb (tcp + off / 16 * 4) ip_end
      else should_tunnel)

filter_udp : Config → List ℕ → ℕ → Option Bool
filter_udp config packet udp = do
  dest ← u16_at packet (udp + 2)
  some (if not (dest == htons 53) then false else config.hide_udp)

-- The transport layer, after an IP header of `ip_size` bytes. `packet_len` no longer counts the
-- Ethernet header.
filter_transport : Config → List ℕ → ℕ → ℕ → ℕ → Option Bool
filter_transport config packet packet_len ip_size protocol =
    if protocol == 6
    then if ltb packet_len (ip_size + sizeof_tcphdr)
      then some false
      else filter_tcp config packet (sizeof_ethhdr + ip_size) (sizeof_ethhdr + packet_len)
    else if protocol == 17
    then if ltb packet_len (ip_size + sizeof_udphdr)
      then some false
      else filter_udp config packet (sizeof_ethhdr + ip_size)
    else some false

-- The destinations that are never tunneled; `daddr` is in network order.
pub is_excluded : ℕ → Bool
is_excluded daddr =
    let a = u8 daddr in
    let b = u8 (daddr / 2 ^ 8) in
    a == 0
    || (a == 10 || (a == 127 || ((a == 172 && (leb 16 b && leb b 31)) || (a == 192 && b == 168))))

filter_ipv4 : Config → List ℕ → ℕ → ℕ → Option Bool
filter_ipv4 config packet packet_len first = do
  tot_len ← u16_at packet (sizeof_ethhdr + 2)
  daddr ← u32_at packet (sizeof_ethhdr + 16)
  protocol ← u8_at packet (sizeof_ethhdr + 9)
  if not (ntohs tot_len == packet_len)
      then some false
      else if is_excluded daddr
      then some false
      else if ltb (first % 16 * 4) sizeof_iphdr
      then some false
      else filter_transport config packet packet_len (first % 16 * 4) protocol

-- `IN6ADDR_LOOPBACK_INIT`
abbrev loopback : List ℕ
loopback = replicate 15 0 ++ (1 ∷ [])

-- `memcmp(a, b, n) == 0` for arrays of one length.
same_bytes : List ℕ → List ℕ → Bool
same_bytes [] [] = true
same_bytes (a ∷ xs) (b ∷ ys) = a == b && same_bytes xs ys
same_bytes [] (b ∷ ys) = false
same_bytes (a ∷ xs) [] = false

filter_ipv6 : Config → List ℕ → ℕ → Option Bool
filter_ipv6 config packet packet_len = do
  plen ← u16_at packet (sizeof_ethhdr + 4)
  if not (ntohs plen == packet_len) then some false else do
    dst ← bytes_at packet (sizeof_ethhdr + 24) 16
    a ← u8_at dst 0
    b ← u8_at dst 1
    next ← u8_at packet (sizeof_ethhdr + 6)
    if same_bytes dst loopback
        then some false
        else if a == 0xFC && (b == 0x00 || b == 0x01)
        then some false
        else filter_transport config packet packet_len sizeof_ip6_hdr next

pub packet_filter : Config → List ℕ → ℕ → Option Bool
packet_filter config packet packet_len =
    if not config.enabled
    then some false
    else if ltb packet_len sizeof_ethhdr
    then some false
    else (do
      h_proto ← u16_at packet 12
      if not (ntohs h_proto == 0x0800)
          then some false
          else if ltb (packet_len - sizeof_ethhdr) sizeof_iphdr
          then some false
          else (do
            first ← u8_at packet sizeof_ethhdr
            if first / 16 == 4
                then filter_ipv4 config packet (packet_len - sizeof_ethhdr) first
                else if first / 16 == 6
                then filter_ipv6 config packet (packet_len - sizeof_ethhdr)
                else some false))
