-- ===== src/PacketFilter/Handover.antt =====
-- From src/packet_filter.c to src/packet.c: what `packet_init` makes of a packet that the filter let
-- through. src/client.c calls the one after the other.
use reqrypt.Common.{
  ◌==◌, if◌then◌else◌, sub64, IsByte, IsBytes, ntohs, u8_at, u16_at, ℕ, ◌+◌, ◌-◌, ◌*◌, ◌/◌, ◌%◌,
  ◌^◌, ◌≤◌, ◌<◌, ◌≡◌, refl, ap, ◌∙◌, ◌↔◌, ◌⊎◌, inl, inr, Bool, true, false, Option, none, some,
  List, arith,
}
use reqrypt.Common.Outcome.{ok, fault, read-fault}
use reqrypt.Config.{Config}
use reqrypt.Packet.{Headers, packet_init}
use reqrypt.PacketFilter.{packet_filter, is_excluded}
use reqrypt.PacketFilter.Admission.{
  IsAdmitted, IsTunneledTcp, IsTunneledUdp, packet_filter-IsAdmitted,
}

-- An address in one of the ranges that RFC 1700, RFC 1918 and RFC 3330 keep off the Internet, by
-- its first two octets.
abbrev pub IsLocal : ℕ → ℕ → Type 0
IsLocal a b =
    (a ≡ 0) ⊎ (a ≡ 10) ⊎ (a ≡ 127) ⊎ ((a ≡ 172) × (16 ≤ b) × (b ≤ 31)) ⊎ ((a ≡ 192) × (b ≡ 168))

-- The filter excludes an address, given by its octets, exactly when it is in one of those ranges.
pub is_excluded_iff :
    (a b c d : ℕ)
    → IsByte a
    → IsByte b
    → IsByte c
    → IsByte d
    → (is_excluded (a + 256 * b + 2 ^ 16 * (c + 256 * d)) ≡ true) ↔ IsLocal a b
unfolding is_excluded
is_excluded_iff a b c d ha hb hc hd =
    let first_octet : (a + 256 * b + 2 ^ 16 * (c + 256 * d)) % 2 ^ 8 ≡ a = omega arith in
    let second_octet : (a + 256 * b + 2 ^ 16 * (c + 256 * d)) / 2 ^ 8 % 2 ^ 8 ≡ b = omega arith in
    rw (first_octet, second_octet) (ground arith, ground arith)

-- The layout that `packet_init` finds agrees with the length of the packet.
pub record IsLaidOut (packet_len ip : ℕ) (h : Headers) : Type 0 where
  pub ip_header : h.ip_header ≡ some ip
  pub ip6_header : h.ip6_header ≡ none
  pub total : h.header_size + h.data_size ≡ packet_len
  pub start : h.start ≡ (if h.data_size == 0 then none else some h.header_size)

abbrev layout : Option ℕ → Option ℕ → ℕ → ℕ → Headers
layout tcp udp header_size packet_len = record {
  eth_header = some 0;
  ip_header = some 14;
  ip6_header = none;
  tcp_header = tcp;
  udp_header = udp;
  start = if header_size == packet_len then none else some header_size;
  header_size = header_size;
  data_size = sub64 packet_len header_size;
}

layout-IsLaidOut :
    (tcp udp : Option ℕ) (header_size packet_len : ℕ)
    → header_size ≤ packet_len
    → packet_len < 2 ^ 17
    → IsLaidOut packet_len 14 (layout tcp udp header_size packet_len)
layout-IsLaidOut tcp udp header_size packet_len h small = record {
  ip_header = refl;
  ip6_header = refl;
  total = omega arith;
  start = ground arith;
}

module _ (packet : List ℕ) (first tot : ℕ) (read : u8_at packet 14 ≡ some first)
    (version : first / 16 ≡ 4) (read_tot : u16_at packet 16 ≡ some tot) where
  init_tcp :
      (off : ℕ)
      → u8_at packet 23 ≡ some 6
      → u8_at packet (14 + first % 16 * 4 + 12) ≡ some off
      → packet_init packet true
        ≡ ok (
            layout
              (some (14 + first % 16 * 4))
              none
              (14 + first % 16 * 4 + off / 16 * 4)
              (ntohs tot + 14))
  unfolding packet_init
  init_tcp off tcp read_off = rw (read, version, read_tot, tcp, read_off) refl

  init_udp :
      u8_at packet 23 ≡ some 17
      → packet_init packet true
        ≡ ok (layout none (some (14 + first % 16 * 4)) (14 + first % 16 * 4 + 8) (ntohs tot + 14))
  unfolding packet_init
  init_udp udp = rw (read, version, read_tot, udp) refl

not_both : (packet : List ℕ) → u8_at packet 23 ≡ some 6 → u8_at packet 23 ≡ some 17 → ⊥
not_both packet e f = ground arith

module _ (config : Config) (packet : List ℕ) (packet_len first : ℕ) (bytes : IsBytes packet)
    (read : u8_at packet 14 ≡ some first) (version : first / 16 ≡ 4)
    (accepted : packet_filter config packet packet_len ≡ some true) where
  admitted : IsAdmitted config packet packet_len first
  admitted = packet_filter-IsAdmitted config packet bytes packet_len first read version accepted

  len-lt : packet_len < 2 ^ 17
  len-lt = let (tot, read_tot, whole) = admitted.whole in omega arith

  tcp_of : u8_at packet 23 ≡ some 6 → IsTunneledTcp config packet (14 + first % 16 * 4) packet_len
  tcp_of tcp = elim admitted.transport [
    | inl (_, t) ↦ t
    | inr (udp, _) ↦ absurd (not_both packet tcp udp)
  ]

  udp_of : u8_at packet 23 ≡ some 17 → IsTunneledUdp config packet (14 + first % 16 * 4) packet_len
  udp_of udp = elim admitted.transport [
    | inl (tcp, _) ↦ absurd (not_both packet tcp udp)
    | inr (_, t) ↦ t
  ]

  -- An IPv4 TCP packet that the filter let through because it has data to hide: `packet_init`
  -- returns, the headers and the data fill the packet exactly, and the data is not empty.
  pub handover_tcp :
      (off : ℕ)
      → u8_at packet 23 ≡ some 6
      → config.hide_tcp_data ≡ true
      → u8_at packet (14 + first % 16 * 4 + 12) ≡ some off
      → (h : Headers) × (packet_init packet true ≡ ok h)
        × (h.tcp_header ≡ some (14 + first % 16 * 4))
        × (0 < h.data_size)
        × IsLaidOut packet_len 14 h
  handover_tcp off tcp data_only read_off =
      let (tot, read_tot, whole) = admitted.whole in
      let within = (tcp_of tcp).nonempty off read_off data_only in
      let small = len-lt in
      let header_size : ℕ = 14 + first % 16 * 4 + off / 16 * 4 in
      (
        layout (some (14 + first % 16 * 4)) none header_size packet_len,
        init_tcp packet first tot read version read_tot off tcp read_off
            ∙ ap (λ (n : ℕ). ok (layout (some (14 + first % 16 * 4)) none header_size n)) whole,
        refl,
        omega arith,
        layout-IsLaidOut (some (14 + first % 16 * 4)) none header_size packet_len (omega arith)
            small,
      )

  -- An IPv4 UDP packet that the filter let through: `packet_init` returns, and the headers and
  -- the data fill the packet exactly.
  pub handover_udp :
      u8_at packet 23 ≡ some 17
      → (h : Headers) × (packet_init packet true ≡ ok h)
        × (h.udp_header ≡ some (14 + first % 16 * 4))
        × IsLaidOut packet_len 14 h
  handover_udp udp =
      let (tot, read_tot, whole) = admitted.whole in
      let within = (udp_of udp).inside in
      let small = len-lt in
      let header_size : ℕ = 14 + first % 16 * 4 + 8 in
      (
        layout none (some (14 + first % 16 * 4)) header_size packet_len,
        init_udp packet first tot read version read_tot udp
            ∙ ap (λ (n : ℕ). ok (layout none (some (14 + first % 16 * 4)) header_size n)) whole,
        refl,
        layout-IsLaidOut none (some (14 + first % 16 * 4)) header_size packet_len (omega arith)
            small,
      )

  -- An IPv4 TCP packet that the filter let through although its TCP data offset points past the
  -- end of the packet (which it does not check when all segments are hidden): the size of the
  -- data wraps, to 2^64 less the bytes that are missing.
  pub handover_wraps :
      (off : ℕ)
      → u8_at packet 23 ≡ some 6
      → u8_at packet (14 + first % 16 * 4 + 12) ≡ some off
      → IsByte off
      → packet_len < 14 + first % 16 * 4 + off / 16 * 4
      → (h : Headers) × (packet_init packet true ≡ ok h)
        × (h.data_size + (h.header_size - packet_len) ≡ 2 ^ 64)
        × (packet_len < h.header_size)
  handover_wraps off tcp read_off byte beyond =
      let (tot, read_tot, whole) = admitted.whole in
      let small = len-lt in
      let header_size : ℕ = 14 + first % 16 * 4 + off / 16 * 4 in
      (
        layout (some (14 + first % 16 * 4)) none header_size packet_len,
        init_tcp packet first tot read version read_tot off tcp read_off
            ∙ ap (λ (n : ℕ). ok (layout (some (14 + first % 16 * 4)) none header_size n)) whole,
        omega arith,
        omega arith,
      )

-- Any packet whose IP version is 6: `packet_init` follows a NULL pointer, with an Ethernet header
-- before the IP header or without one.
pub packet_init_ipv6 :
    (packet : List ℕ) (has_eth_header : Bool) (first : ℕ)
    → u8_at packet (if has_eth_header then 14 else 0) ≡ some first
    → first / 16 ≡ 6
    → packet_init packet has_eth_header ≡ fault
unfolding packet_init
packet_init_ipv6 packet true first read version = rw (read, version) (read-fault (u16_at packet 18))
packet_init_ipv6 packet false first read version = rw (read, version) (read-fault (u16_at packet 4))
