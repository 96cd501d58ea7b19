-- ===== src/PacketFilter/Examples.antt =====
-- Frames for src/packet_filter.c and src/packet.c.
use mathlib.Core.Path.{refl}
use reqrypt.Common.{
  all_bytes-IsBytes, ℕ, ◌<◌, ◌≡◌, ◌≢◌, Bool, true, false, none, some, List, [], ◌∷◌, arith,
}
use reqrypt.Common.Outcome.{ok}
use reqrypt.Config.{Config, flag_dont_care, flag_set, split_full, ghost_none, frag_network}
use reqrypt.Packet.{Headers, packet_init}
use reqrypt.PacketFilter.{
  packet_filter, filter_tcp, filter_transport, is_excluded, filter_ipv4, wants, wants_flags,
}
use reqrypt.PacketFilter.Safety.{packet_filter-ne-none}
use reqrypt.PacketFilter.Admission.{IsAdmitted, packet_filter-IsAdmitted}
use reqrypt.PacketFilter.Handover.{IsLaidOut, handover_tcp}

-- All segments to port 80 and datagrams to port 53 are hidden, the segments only with data if
-- `data_only`.
abbrev settings : Bool → Config
settings data_only = record {
  enabled = true;
  hide_tcp = true;
  hide_tcp_data = data_only;
  hide_tcp_syn = flag_dont_care;
  hide_tcp_ack = flag_dont_care;
  hide_tcp_psh = flag_set;
  hide_tcp_fin = flag_dont_care;
  hide_tcp_rst = flag_dont_care;
  hide_udp = true;
  split = split_full;
  ghost = ghost_none;
  ghost_check = false;
  ghost_set_ttl = false;
  ghost_ttl = 0;
  fragment = frag_network;
  tcp_port = 80;
  tcp_proto = 0;
  udp_port = 53;
  udp_proto = 0;
  mtu = 1500;
  launch_ui = false;
}

-- An Ethernet header and an IPv4 header of 20 bytes to 93.184.216.34.
abbrev headers : ℕ → ℕ → List ℕ → List ℕ
headers tot_len protocol payload =
    1 ∷ 2 ∷ 3 ∷ 4 ∷ 5 ∷ 6 ∷ 7 ∷ 8 ∷ 9 ∷ 10 ∷ 11 ∷ 12 ∷ 8 ∷ 0 ∷ 69 ∷ 0 ∷ 0 ∷ tot_len ∷ 18 ∷ 52 ∷ 0
    ∷ 0 ∷ 64 ∷ protocol ∷ 0 ∷ 0 ∷ 192 ∷ 168 ∷ 1 ∷ 2 ∷ 93 ∷ 184 ∷ 216 ∷ 34 ∷ payload

-- A TCP segment to port 80 with eight bytes of data, and the byte that holds its data offset.
abbrev segment : ℕ → List ℕ
segment offset =
    156 ∷ 64 ∷ 0 ∷ 80 ∷ 1 ∷ 2 ∷ 3 ∷ 4 ∷ 5 ∷ 6 ∷ 7 ∷ 8 ∷ offset ∷ 24 ∷ 16 ∷ 0 ∷ 0 ∷ 0 ∷ 0 ∷ 0 ∷ 71
    ∷ 69 ∷ 84 ∷ 32 ∷ 47 ∷ 32 ∷ 72 ∷ 84 ∷ []

abbrev pub tcp_frame : List ℕ
tcp_frame = headers 48 6 (segment 80)

abbrev long_offset_frame : List ℕ
long_offset_frame = headers 48 6 (segment 240)

-- A UDP datagram to port 53 with three bytes of data.
abbrev pub udp_frame : List ℕ
udp_frame = headers 31 17 (156 ∷ 64 ∷ 0 ∷ 53 ∷ 0 ∷ 11 ∷ 0 ∷ 0 ∷ 7 ∷ 8 ∷ 9 ∷ [])

packet_filter-ne-none_example : packet_filter (settings true) tcp_frame 62 ≢ none
packet_filter-ne-none_example =
    packet_filter-ne-none (settings true) tcp_frame (λ first e v. omega arith)

packet_filter-IsAdmitted_example : IsAdmitted (settings true) tcp_frame 62 69
unfolding packet_filter filter_ipv4 filter_transport filter_tcp wants_flags wants is_excluded
packet_filter-IsAdmitted_example =
    packet_filter-IsAdmitted (settings true) tcp_frame (all_bytes-IsBytes tcp_frame refl) 62 69 refl
      refl refl

handover_tcp_example :
    (h : Headers) × (packet_init tcp_frame true ≡ ok h)
    × (h.tcp_header ≡ some 34)
    × (0 < h.data_size)
    × IsLaidOut 62 14 h
unfolding packet_filter filter_ipv4 filter_transport filter_tcp wants_flags wants is_excluded
handover_tcp_example =
    handover_tcp (settings true) tcp_frame 62 69 (all_bytes-IsBytes tcp_frame refl) refl refl refl
      80 refl refl refl
