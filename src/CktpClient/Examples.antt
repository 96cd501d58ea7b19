-- ===== src/CktpClient/Examples.antt =====
-- Tunnels and packets for src/cktp_client.c.
use reqrypt.Common.{
  length, take, replicate, all_bytes-IsBytes, ℕ, ◌+◌, ◌*◌, ◌%◌, ◌≡◌, refl, true, false, some, List,
  [], ◌∷◌, ◌++◌, arith,
}
use reqrypt.Common.Outcome.{ok}
use reqrypt.Cookie.{generate_cookie32}
use reqrypt.CktpServer.{
  ServerTunnel, cktp_proto_ping, cktp_strip_transport_header, cktp_add_transport_header,
  cktp_reflect,
}
use reqrypt.CktpClient.{ClientTunnel, cktp_connect, cktp_fragmentation_required}
use reqrypt.CktpClient.Transport.{client_add_transport_header, client_strip_transport_header}
use reqrypt.CktpClient.Handshake.{delivered, cktp_connect-cktp_request}
use reqrypt.CktpClient.Echo.{IsIpHeader}
use reqrypt.CktpClient.Ping.{ping_exchange}
use reqrypt.Checksum.{icmp_checksum}
use reqrypt.CktpClient.Reflect.{too_big, Quotes, cktp_reflect-cktp_fragmentation_required}

abbrev server : ServerTunnel
server = record {
  transport = cktp_proto_ping;
  port = 80;
  cookie_gen = record { v = 1 ∷ 2 ∷ 3 ∷ 4 ∷ []; k = 5 ∷ 6 ∷ 7 ∷ 8 ∷ []; r = 9 ∷ 10 ∷ 11 ∷ 12 ∷ [] };
}

abbrev client : ClientTunnel
client = record {
  transport = cktp_proto_ping;
  is_ipv4 = true;
  server_port = 80;
  seq = 65535;
  overhead = 0;
  error = false;
  auth_id = 0;
  flags = 0;
  filter = 0;
  client_addr = 50462976;
}

-- A server and a client over UDP.
abbrev udp_server : ServerTunnel
udp_server = record server { transport = 1 }

abbrev udp_client : ClientTunnel
udp_client = record client { transport = 1 }

cktp_connect-cktp_request_example :
    cktp_connect (delivered udp_server 101124105) udp_client 77 1000 2000
    ≡ some (record udp_client {
      auth_id = generate_cookie32 udp_server.cookie_gen (101124105 ∷ []) 1;
      flags = 5;
      filter = 256;
      client_addr = 101124105;
    })
cktp_connect-cktp_request_example =
    cktp_connect-cktp_request udp_server udp_client 101124105 77 1000 2000
      (record { not_ip = refl; not_ping = refl }) (omega arith) (omega arith) (omega arith)
      (omega arith) refl refl

abbrev ip_header : List ℕ
ip_header = 69 ∷ replicate 19 0

abbrev payload : List ℕ
payload = 1 ∷ 2 ∷ 3 ∷ []

ip_header-IsIpHeader : IsIpHeader ip_header
ip_header-IsIpHeader = record { first = (69, refl, omega arith, refl) }

ping_exchange_example :
    (client' : ClientTunnel) × (sent : List ℕ) × (info : ℕ) × (reply : List ℕ)
    × (client_add_transport_header client payload ≡ ok (client', sent))
    × (cktp_strip_transport_header server (ip_header ++ sent) ≡ ok (some (info, payload)))
    × (cktp_add_transport_header server payload info ≡ ok reply)
    × (client_strip_transport_header client' (ip_header ++ reply) ≡ ok (some payload))
ping_exchange_example =
    ping_exchange server client ip_header ip_header payload payload refl refl refl refl
      (omega arith) ip_header-IsIpHeader ip_header-IsIpHeader (all_bytes-IsBytes payload refl)
      (all_bytes-IsBytes payload refl) (omega arith) (omega arith) (omega arith)

abbrev packet : List ℕ
packet = ip_header ++ (1 ∷ 2 ∷ 3 ∷ 4 ∷ 5 ∷ 6 ∷ 7 ∷ 8 ∷ 9 ∷ [])

cktp_reflect-cktp_fragmentation_required_example :
    (sum : ℕ) × (body : List ℕ) × (cktp_fragmentation_required client 1280 packet
      ≡ some (52 ∷ 1 ∷ too_big sum 1280 ++ body))
    × (cktp_reflect (52 ∷ 1 ∷ too_big sum 1280 ++ body) ≡ ok (some (too_big sum 1280 ++ body)))
    × (icmp_checksum (too_big 0 1280 ++ body) (8 + length body) ≡ some sum)
    × Quotes client.client_addr (take 28 packet) body
    × (length body ≡ 69 % 16 * 4 + 8)
cktp_reflect-cktp_fragmentation_required_example =
    cktp_reflect-cktp_fragmentation_required client 1280 69 packet (all_bytes-IsBytes packet refl)
      refl (omega arith) (omega arith)
