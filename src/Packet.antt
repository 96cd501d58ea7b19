-- ===== src/Packet.antt =====
-- src/packet.c: where the headers and the data of a packet lie. A packet is the list of its bytes,
-- and a pointer into it is the offset from its start.
use reqrypt.Common.{
  ◌==◌, if◌then◌else◌, sub64, ntohs, u8_at, u16_at, ℕ, ◌+◌, ◌*◌, ◌/◌, ◌%◌, Bool, Option, none, some,
  List,
}
use reqrypt.Common.Outcome.{Outcome, ok, panicked, fault, read, ◌>>=◌}

abbrev pub sizeof_ethhdr : ℕ
sizeof_ethhdr = 14

abbrev pub sizeof_iphdr : ℕ
sizeof_iphdr = 20

abbrev pub sizeof_ip6_hdr : ℕ
sizeof_ip6_hdr = 40

abbrev pub sizeof_tcphdr : ℕ
sizeof_tcphdr = 20

abbrev pub sizeof_udphdr : ℕ
sizeof_udphdr = 8

-- What `packet_init` stores through its out parameters; `none` is NULL.
pub record Headers : Type 0 where
  pub eth_header : Option ℕ
  pub ip_header : Option ℕ
  pub ip6_header : Option ℕ
  pub tcp_header : Option ℕ
  pub udp_header : Option ℕ
  pub start : Option ℕ
  pub header_size : ℕ
  pub data_size : ℕ

-- The end of `packet_init`: `start` is the `data` pointer.
layout_of : Option ℕ → ℕ → Option ℕ → Option ℕ → ℕ → ℕ → Headers
layout_of eth ip tcp udp header_size packet_len = record {
  eth_header = eth;
  ip_header = some ip;
  ip6_header = none;
  tcp_header = tcp;
  udp_header = udp;
  start = if header_size == packet_len then none else some header_size;
  header_size = header_size;
  data_size = sub64 packet_len header_size;
}

-- The transport layer of an IPv4 packet whose IP header starts at `ip`.
init_transport : List ℕ → Option ℕ → ℕ → ℕ → ℕ → ℕ → Outcome Headers
init_transport packet eth ip header_size packet_len ip_proto =
    if ip_proto == 6
    then (do
      doff ← read (u8_at packet (header_size + 12))
      ok (layout_of eth ip (some header_size) none (header_size + doff / 16 * 4) packet_len))
    else if ip_proto == 17
    then ok (layout_of eth ip none (some header_size) (header_size + sizeof_udphdr) packet_len)
    else panicked

-- Both layers. In the IPv6 case the code sets `ip_header` to NULL and then reads
-- `ip_header->protocol`.
init_network : List ℕ → Option ℕ → ℕ → Outcome Headers
init_network packet eth ip = do
  first ← read (u8_at packet ip)
  if first / 16 == 4
      then (do
        tot_len ← read (u16_at packet (ip + 2))
        ip_proto ← read (u8_at packet (ip + 9))
        init_transport packet eth ip (ip + first % 16 * 4) (ntohs tot_len + ip) ip_proto)
      else if first / 16 == 6
      then (do plen ← read (u16_at packet (ip + 4)); fault)
      else panicked

unfoldable pub packet_init : List ℕ → Bool → Outcome Headers
unfolding init_network init_transport layout_of
packet_init packet has_eth_header =
    if has_eth_header
    then init_network packet (some 0) sizeof_ethhdr
    else init_network packet none 0
