-- ===== src/CktpServer/Examples.antt =====
-- Packets for src/cktp_server.c.
use reqrypt.Common.{replicate, ℕ, ◌+◌, ◌*◌, ◌^◌, ◌≡◌, refl, ◌↔◌, false, List, [], ◌∷◌, arith}
use reqrypt.Common.Outcome.{ok}
use reqrypt.CktpServer.{
  ServerTunnel, forwarded, nothing, cktp_is_ipv4_addr_public, handle_packet, cktp_proto_ip,
}
use reqrypt.CktpServer.Forward.{
  IsRefused, IsForwardable, cktp_is_ipv4_addr_public_iff, handle_packet-IsForwardable,
}

abbrev tunnel : ServerTunnel
tunnel = record {
  transport = cktp_proto_ip;
  port = 80;
  cookie_gen = record { v = 1 ∷ 2 ∷ 3 ∷ 4 ∷ []; k = 5 ∷ 6 ∷ 7 ∷ 8 ∷ []; r = 9 ∷ 10 ∷ 11 ∷ 12 ∷ [] };
}

-- A TCP packet of 40 bytes from 9.8.7.6 to port 80 of 8.8.4.4.
abbrev web_packet : List ℕ
web_packet =
    69
    ∷ 0
    ∷ 0
    ∷ 40
    ∷ 0
    ∷ 1
    ∷ 0
    ∷ 0
    ∷ 64
    ∷ 6
    ∷ 0
    ∷ 0
    ∷ 9
    ∷ 8
    ∷ 7
    ∷ 6
    ∷ 8
    ∷ 8
    ∷ 4
    ∷ 4
    ∷ 4
    ∷ 210
    ∷ 0
    ∷ 80
    ∷ replicate 16 0

abbrev sender : ℕ
sender = 101124105

abbrev receiver : ℕ
receiver = 67373064

web_packet_sent : handle_packet tunnel 0 web_packet sender ≡ ok (forwarded receiver web_packet)
unfolding handle_packet
web_packet_sent = refl

-- From another address it is dropped.
web_packet_spoofed : handle_packet tunnel 0 web_packet 7 ≡ ok nothing
unfolding handle_packet
web_packet_spoofed = refl

handle_packet-IsForwardable_example :
    (web_packet ≡ web_packet) × IsForwardable web_packet sender receiver
handle_packet-IsForwardable_example =
    handle_packet-IsForwardable tunnel 0 web_packet sender receiver web_packet web_packet_sent

cktp_is_ipv4_addr_public_iff_example :
    (cktp_is_ipv4_addr_public (172 + 256 * 20 + 2 ^ 16 * (1 + 256 * 1)) ≡ false)
    ↔ IsRefused 172 20 1 1
cktp_is_ipv4_addr_public_iff_example =
    cktp_is_ipv4_addr_public_iff 172 20 1 1 (omega arith) (omega arith) (omega arith) (omega arith)
