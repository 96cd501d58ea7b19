-- ===== src/PacketDispatch/Examples.antt =====
-- A frame for `ip_fragment` of src/packet_dispatch.c, cut after the data byte 2 and not cut.
use reqrypt.Common.{
  length, drop, all_bytes-IsBytes, codes, ℕ, ◌+◌, ◌*◌, ◌/◌, ◌%◌, ◌^◌, ◌<◌, ◌≡◌, refl, ◌↔◌, ◌⊎◌,
  true, none, some, List, [], ◌∷◌, ◌++◌, arith,
}
use reqrypt.Common.Outcome.{ok}
use reqrypt.PacketFilter.Examples.{tcp_frame}
use reqrypt.PacketDispatch.{Fragments, ip_mf, ip_fragment, is_ipv4_local_address}
use reqrypt.PacketDispatch.Pieces.{IsTcpPacket, IsFragment}
use reqrypt.PacketFilter.{is_excluded}
use reqrypt.PacketDispatch.Address.{IsPrivate, is_ipv4_local_address_iff}
use reqrypt.PacketDispatch.Network.{ip_fragment_splits}
use reqrypt.Config.{split_partial}
use reqrypt.PacketProtocol.{url_of_data}
use reqrypt.PacketDispatch.Dispatch.{replace_mss, split_length}
use reqrypt.PacketDispatch.Cut.{IsCut, split_length-IsCut, replace_mss_endless}

tcp_frame-IsTcpPacket : IsTcpPacket 5 5 48 tcp_frame
tcp_frame-IsTcpPacket = record {
  bytes = all_bytes-IsBytes tcp_frame refl;
  first = (69, refl, refl);
  tot_len = (12288, refl, refl);
  protocol = refl;
  data_offset = (80, refl, refl);
  ihl_range = (omega arith, omega arith);
  doff_range = (omega arith, omega arith);
  frame = refl;
  small = omega arith;
  headers = omega arith;
}

ip_fragment_splits_example :
    (r : Fragments) × (second : List ℕ) × (ip_fragment tcp_frame 2 ≡ ok r)
    × (r.second ≡ some second)
    × IsFragment tcp_frame 5 ip_mf r.first
    × IsFragment tcp_frame 5 (length (drop 34 r.first) / 8) second
    × (drop 34 r.first ++ drop 34 second ≡ drop 34 tcp_frame)
    × (length (drop 34 r.first) % 8 ≡ 0)
    × (22 < length (drop 34 r.first))
    × (r.used ≡ length r.first + length second)
ip_fragment_splits_example =
    ip_fragment_splits 5 5 48 tcp_frame tcp_frame-IsTcpPacket 2 (omega arith)

abbrev octet : ℕ
octet = 127

-- The address 127.0.0.1 is not of a private network, and is excluded.
is_ipv4_local_address_iff_example :
    ((is_ipv4_local_address (octet + 256 * 0 + 2 ^ 16 * (0 + 256 * 1)) ≡ true) ↔ IsPrivate octet 0)
    × ((is_excluded (octet + 256 * 0 + 2 ^ 16 * (0 + 256 * 1)) ≡ true) ↔ (
        (is_ipv4_local_address (octet + 256 * 0 + 2 ^ 16 * (0 + 256 * 1)) ≡ true)
        ⊎ (octet ≡ 0)
        ⊎ (octet ≡ 127)))
is_ipv4_local_address_iff_example =
    is_ipv4_local_address_iff octet 0 0 1 (omega arith) (omega arith) (omega arith) (omega arith)

abbrev request : List ℕ
request = codes "GET / HTTP/1.1" ++ (13 ∷ 10 ∷ codes "Host: ab.com" ++ (13 ∷ 10 ∷ []))

found_request : url_of_data 0 request ≡ some (22, 27)
unfolding url_of_data
found_request = refl

split_length-IsCut_example : IsCut 0 request 22 (split_length split_partial 22 27 12345)
split_length-IsCut_example =
    split_length-IsCut 0 request 22 27 12345 (omega arith) found_request (omega arith)

replace_mss_endless_example : replace_mss 1000 (8 ∷ 0 ∷ []) 0 2 0 ≡ ok none
replace_mss_endless_example =
    replace_mss_endless 1000 (8 ∷ 0 ∷ []) 0 2 0 8 (omega arith) (omega arith) refl (omega arith)
      refl
