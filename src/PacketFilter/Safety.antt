-- ===== src/PacketFilter/Safety.antt =====
-- src/packet_filter.c reads inside the packet: `packet_len` is the number of its bytes.
use reqrypt.Common.{
  ltb, ◌==◌, bind-ne-none, if-ne-none, length, get_elem?, drop, length-take, length-drop,
  get_elem?-ne-none, ntohs, u16_at, u32_at, bytes_at, ℕ, ◌+◌, ◌-◌, ◌*◌, ◌/◌, ◌%◌, ◌≤◌, ◌<◌, ◌≡◌, ap,
  ◌≢◌, Bool, false, not, ◌&&◌, ◌||◌, Option, none, some, List, [], arith,
}
use mathlib.Core.Option
use reqrypt.Config.{Config}
use reqrypt.PacketFilter.{
  filter_tcp, filter_udp, filter_transport, loopback, same_bytes, filter_ipv4, filter_ipv6,
  packet_filter,
}

u16_at-ne-none : (p : List ℕ) (i : ℕ) → i + 1 < length p → u16_at p i ≢ none
u16_at-ne-none p i h = ground (arith, get_elem?-ne-none p i, get_elem?-ne-none p (i + 1))

u32_at-ne-none : (p : List ℕ) (i : ℕ) → i + 3 < length p → u32_at p i ≢ none
u32_at-ne-none p i h = ground (
  arith,
  get_elem?-ne-none p i,
  get_elem?-ne-none p (i + 1),
  get_elem?-ne-none p (i + 2),
  get_elem?-ne-none p (i + 2 + 1),
)

answers : (b : Bool) → some b ≢ none
answers b e = cc

bytes_at-ne-none : (p : List ℕ) (off n : ℕ) → off + n ≤ length p → bytes_at p off n ≢ none
bytes_at-ne-none p off n h = ground arith

length-bytes_at :
    (p : List ℕ) (off n : ℕ) (bs : List ℕ) → bytes_at p off n ≡ some bs → length bs ≡ n
length-bytes_at p off n bs e = ground (
  arith,
  length-take n (drop off p),
  length-drop off p,
  ap (λ (t : Option (List ℕ)). Option.get_or t []) e,
)

module _ (config : Config) (packet : List ℕ) where
  filter_tcp-ne-none :
      (tcp ip_end : ℕ) → tcp + 20 ≤ length packet → filter_tcp config packet tcp ip_end ≢ none
  unfolding filter_tcp
  filter_tcp-ne-none tcp ip_end h = ground (
    arith,
    get_elem?-ne-none packet (tcp + 2),
    get_elem?-ne-none packet (tcp + 2 + 1),
    get_elem?-ne-none packet (tcp + 13),
    get_elem?-ne-none packet (tcp + 12),
  )

  filter_udp-ne-none : (udp : ℕ) → udp + 8 ≤ length packet → filter_udp config packet udp ≢ none
  unfolding filter_udp
  filter_udp-ne-none udp h =
      ground (arith, get_elem?-ne-none packet (udp + 2), get_elem?-ne-none packet (udp + 2 + 1))

  filter_transport-ne-none :
      (packet_len ip_size protocol : ℕ)
      → 14 + packet_len ≤ length packet
      → filter_transport config packet packet_len ip_size protocol ≢ none
  unfolding filter_transport
  filter_transport-ne-none packet_len ip_size protocol h = ground (
    arith,
    filter_tcp-ne-none (14 + ip_size) (14 + packet_len),
    filter_udp-ne-none (14 + ip_size),
  )

  filter_ipv4-ne-none :
      (packet_len first : ℕ)
      → 20 ≤ packet_len
      → 14 + packet_len ≤ length packet
      → filter_ipv4 config packet packet_len first ≢ none
  unfolding filter_ipv4
  filter_ipv4-ne-none packet_len first low h =
      bind-ne-none _ _ (u16_at-ne-none packet 16 (omega arith)) λ tot_len _.
        bind-ne-none _ _ (u32_at-ne-none packet 30 (omega arith)) λ daddr _.
          bind-ne-none _ _ (get_elem?-ne-none packet 23 (omega arith)) λ protocol _.
            ground (arith, filter_transport-ne-none packet_len (first % 16 * 4) protocol)

  filter_ipv6-ne-none :
      (packet_len : ℕ)
      → 40 ≤ packet_len
      → 14 + packet_len ≤ length packet
      → filter_ipv6 config packet packet_len ≢ none
  unfolding filter_ipv6
  filter_ipv6-ne-none packet_len low h =
      bind-ne-none _ _ (u16_at-ne-none packet 18 (omega arith)) λ plen _.
        if-ne-none (not (ntohs plen == packet_len)) (λ _. answers false)
          λ _. bind-ne-none _ _ (bytes_at-ne-none packet 38 16 (omega arith)) λ dst e.
            bind-ne-none _ _ (get_elem?-ne-none dst 0 (omega (arith, long dst e))) λ a _.
              bind-ne-none _ _ (get_elem?-ne-none dst 1 (long dst e)) λ b _.
                bind-ne-none _ _ (get_elem?-ne-none packet 20 (omega arith)) λ next _.
                  if-ne-none (same_bytes dst loopback) (λ _. answers false)
                    λ _.
                      if-ne-none (a == 0xFC && (b == 0x00 || b == 0x01)) (λ _. answers false)
                        λ _. filter_transport-ne-none packet_len 40 next h
    where
      long : (dst : List ℕ) → bytes_at packet 38 16 ≡ some dst → 1 < length dst
      long dst e = omega (arith, length-bytes_at packet 38 16 dst e)

  -- With the true length of a packet, `packet_filter` never reads outside it, unless the packet
  -- claims to be IPv6 and has fewer bytes than an IPv6 header after the Ethernet header.
  pub packet_filter-ne-none :
      ((first : ℕ) → get_elem? packet 14 ≡ some first → first / 16 ≡ 6 → 54 ≤ length packet)
      → packet_filter config packet (length packet) ≢ none
  unfolding packet_filter
  packet_filter-ne-none ipv6_long =
      if-ne-none (not config.enabled) (λ _. answers false)
        λ _.
          if-ne-none (ltb (length packet) 14) (λ _. answers false)
            λ long. bind-ne-none _ _ (u16_at-ne-none packet 12 (ground arith)) λ h_proto _.
              if-ne-none (not (ntohs h_proto == 0x0800)) (λ _. answers false)
                λ _.
                  if-ne-none (ltb (length packet - 14) 20) (λ _. answers false)
                    λ big. bind-ne-none _ _ (get_elem?-ne-none packet 14 (ground arith)) λ first e.
                      ground (
                        arith,
                        filter_ipv4-ne-none (length packet - 14) first,
                        filter_ipv6-ne-none (length packet - 14),
                        ipv6_long first e,
                      )
