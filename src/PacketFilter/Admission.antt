-- ===== src/PacketFilter/Admission.antt =====
-- What src/packet_filter.c promises of an IPv4 packet that it lets through to the tunnel.
use reqrypt.Common.{
  ltb, ◌==◌, if◌then◌else◌, Bool-cases, bind-eq-some, IsBytes, ntohs, htons, u8_at, u16_at, u32_at,
  u16_at-lt, ℕ, ◌+◌, ◌-◌, ◌*◌, ◌/◌, ◌%◌, ◌≤◌, ◌<◌, ◌≡◌, refl, ◌⊎◌, inl, inr, Bool, true, false, not,
  ◌||◌, Option, some, List, arith,
}
use mathlib.Core.Path.{subst}
use reqrypt.Config.{Config, flag_set, flag_unset}
use reqrypt.PacketFilter.{
  wants, wants_flags, filter_tcp, filter_udp, filter_transport, is_excluded, filter_ipv4,
  packet_filter,
}

-- A setting asks for a flag that is set, or for one that is not.
abbrev pub IsAskedFor : ℕ → ℕ → Type 0
IsAskedFor bit setting = ((bit ≡ 1) × (setting ≡ flag_set)) ⊎ ((bit ≡ 0) × (setting ≡ flag_unset))

-- A flag that a setting asks for, by the bits of RFC 793.
pub data IsWanted (config : Config) (flags : ℕ) : Type 0 where
  by_fin : IsAskedFor (flags % 2) config.hide_tcp_fin → IsWanted config flags
  by_syn : IsAskedFor (flags / 2 % 2) config.hide_tcp_syn → IsWanted config flags
  by_rst : IsAskedFor (flags / 4 % 2) config.hide_tcp_rst → IsWanted config flags
  by_psh : IsAskedFor (flags / 8 % 2) config.hide_tcp_psh → IsWanted config flags
  by_ack : IsAskedFor (flags / 16 % 2) config.hide_tcp_ack → IsWanted config flags

wants-IsAskedFor : (bit setting : ℕ) → bit < 2 → wants bit setting ≡ true → IsAskedFor bit setting
unfolding wants
wants-IsAskedFor bit setting small h = elim (Bool-cases (bit == 1)) [
  | inl e ↦ inl (ground arith, ground arith)
  | inr e ↦ inr (ground arith, ground arith)
]

or_cases : (b c : Bool) → (b || c) ≡ true → (b ≡ true) ⊎ (c ≡ true)
or_cases true c h = inl refl
or_cases false c h = inr h

wants_flags-IsWanted :
    (config : Config) (flags : ℕ) → wants_flags config flags ≡ true → IsWanted config flags
unfolding wants_flags
wants_flags-IsWanted config flags h = elim (or_cases _ _ h) [
  | inl syn ↦ by_syn (wants-IsAskedFor _ _ (omega arith) syn)
  | inr h1 ↦ elim (or_cases _ _ h1) [
    | inl ack ↦ by_ack (wants-IsAskedFor _ _ (omega arith) ack)
    | inr h2 ↦ elim (or_cases _ _ h2) [
      | inl psh ↦ by_psh (wants-IsAskedFor _ _ (omega arith) psh)
      | inr h3 ↦ elim (or_cases _ _ h3) [
        | inl fin ↦ by_fin (wants-IsAskedFor _ _ (omega arith) fin)
        | inr rst ↦ by_rst (wants-IsAskedFor _ _ (omega arith) rst)
      ]
    ]
  ]
]

-- A TCP header at `tcp`, in a packet that ends at `ip_end`.
pub record IsTunneledTcp (config : Config) (packet : List ℕ) (tcp ip_end : ℕ) : Type 0 where
  pub port : u16_at packet (tcp + 2) ≡ some (htons 80)
  pub hidden : config.hide_tcp ≡ true
  pub wanted : (flags : ℕ) × (u8_at packet (tcp + 13) ≡ some flags) × IsWanted config flags
  pub inside : tcp + 20 ≤ ip_end
  pub nonempty :
      (off : ℕ)
      → u8_at packet (tcp + 12) ≡ some off
      → config.hide_tcp_data ≡ true
      → tcp + off / 16 * 4 < ip_end

pub record IsTunneledUdp (config : Config) (packet : List ℕ) (udp ip_end : ℕ) : Type 0 where
  pub port : u16_at packet (udp + 2) ≡ some (htons 53)
  pub hidden : config.hide_udp ≡ true
  pub inside : udp + 8 ≤ ip_end

-- `first` is the first byte of the IPv4 header.
pub record IsAdmitted (config : Config) (packet : List ℕ) (packet_len first : ℕ) : Type 0 where
  pub enabled : config.enabled ≡ true
  pub ethertype : u16_at packet 12 ≡ some (htons 0x0800)
  pub whole : (t : ℕ) × (u16_at packet 16 ≡ some t) × (ntohs t + 14 ≡ packet_len)
  pub public_address : (d : ℕ) × (u32_at packet 30 ≡ some d) × (is_excluded d ≡ false)
  pub header : 20 ≤ first % 16 * 4
  pub transport :
      ((u8_at packet 23 ≡ some 6) × IsTunneledTcp config packet (14 + first % 16 * 4) packet_len)
      ⊎ ((u8_at packet 23 ≡ some 17) × IsTunneledUdp config packet (14 + first % 16 * 4) packet_len)

passes :
    (refused : Bool) (rest : Option Bool)
    → (if refused then some false else rest) ≡ some true
    → (refused ≡ false) × (rest ≡ some true)
passes true rest h = cc
passes false rest h = (refl, h)

module _ (config : Config) (packet : List ℕ) (bytes : IsBytes packet) where
  filter_tcp-true :
      (tcp ip_end : ℕ)
      → tcp + 20 ≤ ip_end
      → filter_tcp config packet tcp ip_end ≡ some true
      → IsTunneledTcp config packet tcp ip_end
  unfolding filter_tcp
  filter_tcp-true tcp ip_end room h =
      let (dest, read_dest, h1) = bind-eq-some (u16_at packet (tcp + 2)) _ h in
      let (flags, read_flags, h2) = bind-eq-some (u8_at packet (tcp + 13)) _ h1 in
      let (off, read_off, h3) = bind-eq-some (u8_at packet (tcp + 12)) _ h2 in
      record {
        port = ground arith;
        hidden = ground arith;
        wanted = (flags, read_flags, wants_flags-IsWanted config flags (ground arith));
        inside = room;
        nonempty = λ o e d. ground arith;
      }

  filter_udp-true :
      (udp ip_end : ℕ)
      → udp + 8 ≤ ip_end
      → filter_udp config packet udp ≡ some true
      → IsTunneledUdp config packet udp ip_end
  unfolding filter_udp
  filter_udp-true udp ip_end room h =
      let (dest, read_dest, h1) = bind-eq-some (u16_at packet (udp + 2)) _ h in
      record { port = ground arith; hidden = ground arith; inside = room }

  filter_transport-true :
      (packet_len first protocol : ℕ)
      → u8_at packet 23 ≡ some protocol
      → filter_transport config packet packet_len (first % 16 * 4) protocol ≡ some true
      → ((u8_at packet 23 ≡ some 6)
          × IsTunneledTcp config packet (14 + first % 16 * 4) (14 + packet_len))
        ⊎ ((u8_at packet 23 ≡ some 17)
            × IsTunneledUdp config packet (14 + first % 16 * 4) (14 + packet_len))
  unfolding filter_transport
  filter_transport-true packet_len first protocol read h = elim (Bool-cases (protocol == 6)) [
    | inl tcp ↦ elim (Bool-cases (ltb packet_len (first % 16 * 4 + 20))) [
      | inl short ↦ absurd (ground arith)
      | inr room ↦ inl (ground arith, filter_tcp-true _ _ (ground arith) (ground arith))
    ]
    | inr other ↦ elim (Bool-cases (ltb packet_len (first % 16 * 4 + 8))) [
      | inl short ↦ absurd (ground arith)
      | inr room ↦ inr (ground arith, filter_udp-true _ _ (ground arith) (ground arith))
    ]
  ]

  -- A packet with an IPv4 header that `packet_filter` lets through is enabled, is a whole IPv4
  -- packet in an Ethernet frame, does not go to an excluded address, has a full IP header, and
  -- carries a TCP segment to port 80 that is to be hidden (with a flag as one of the settings asks
  -- for it, and with data, if only data is hidden) or a UDP datagram to port 53 that is to be hidden, with a full TCP or UDP header.
  pub packet_filter-IsAdmitted :
      (packet_len first : ℕ)
      → u8_at packet 14 ≡ some first
      → first / 16 ≡ 4
      → packet_filter config packet packet_len ≡ some true
      → IsAdmitted config packet packet_len first
  unfolding packet_filter filter_ipv4
  packet_filter-IsAdmitted packet_len first read version h =
      let (enabled, h1) = passes (not config.enabled) _ h in
      let (long, h2) = passes (ltb packet_len 14) _ h1 in
      let (proto, read_proto, h3) = bind-eq-some (u16_at packet 12) _ h2 in
      let (ethertype, h4) = passes (not (ntohs proto == 0x0800)) _ h3 in
      let (room, h5) = passes (ltb (packet_len - 14) 20) _ h4 in
      let h6 : filter_ipv4 config packet (packet_len - 14) first ≡ some true = ground arith in
      let (tot, read_tot, h7) = bind-eq-some (u16_at packet 16) _ h6 in
      let (daddr, read_daddr, h8) = bind-eq-some (u32_at packet 30) _ h7 in
      let (protocol, read_protocol, h9) = bind-eq-some (u8_at packet 23) _ h8 in
      let (whole, h10) = passes (not (ntohs tot == packet_len - 14)) _ h9 in
      let (allowed, h11) = passes (is_excluded daddr) _ h10 in
      let (header, h12) = passes (ltb (first % 16 * 4) 20) _ h11 in
      let len : 14 + (packet_len - 14) ≡ packet_len = ground arith in
      record {
        enabled = ground arith;
        ethertype = ground (arith, u16_at-lt packet 12 proto bytes read_proto);
        whole = (tot, read_tot, ground arith);
        public_address = (daddr, read_daddr, allowed);
        header = ground arith;
        transport =
            subst
              (λ (n : ℕ).
                ((u8_at packet 23 ≡ some 6) × IsTunneledTcp config packet (14 + first % 16 * 4) n)
                ⊎ ((u8_at packet 23 ≡ some 17)
                    × IsTunneledUdp config packet (14 + first % 16 * 4) n))
              len (filter_transport-true (packet_len - 14) first protocol read_protocol h12);
      }
