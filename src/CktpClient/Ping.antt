-- ===== src/CktpClient/Ping.antt =====
-- Tunnels over ICMP echo: the transport headers of src/cktp_client.c and src/cktp_server.c.
use reqrypt.Common.{
  length, u16, IsByte, IsBytes, htons, append-IsBytes, bit_or_add_high, ℕ, ◌+◌, ◌*◌, ◌/◌, ◌^◌, ◌<◌,
  bit_or, ◌≡◌, refl, sym, ap, ◌∙◌, true, some, List, ◌++◌, arith,
}
use reqrypt.Common.Outcome.{ok}
use reqrypt.Checksum.Rfc1071.{icmp_checksum-some}
use reqrypt.CktpServer.{
  ServerTunnel, strip_ping, cktp_strip_transport_header, cktp_add_transport_header, cktp_proto_ping,
  echo_header,
}
use reqrypt.CktpClient.{ClientTunnel}
use reqrypt.CktpClient.Transport.{client_add_transport_header, client_strip_transport_header}
use reqrypt.CktpClient.Echo.{IsIpHeader, strip_echo, strip_reply}

-- Both ends write the header, of bytes, in front of the payload.
echo-IsBytes :
    (type check id seq : ℕ) (p : List ℕ)
    → IsByte type
    → IsBytes p
    → IsBytes (echo_header type check id seq ++ p)
echo-IsBytes type check id seq p ht hp =
    append-IsBytes (echo_header type check id seq) p
      (
        ht,
        (
          omega arith,
          (
            omega arith,
            (omega arith, (omega arith, (omega arith, (omega arith, (omega arith, tt))))),
          ),
        ),
      )
      hp

client_adds :
    (client : ClientTunnel) (p : List ℕ)
    → client.transport ≡ cktp_proto_ping
    → IsBytes p
    → length p < 2 ^ 15
    → (check : ℕ) × (client_add_transport_header client p
        ≡ ok (
          record client { seq = u16 (client.seq + 1) },
          echo_header 8 check client.server_port (htons (u16 (client.seq + 1))) ++ p,
        ))
unfolding client_add_transport_header
client_adds client p ping hp small =
    let zero_sum : List ℕ =
      echo_header 8 0 client.server_port (htons (u16 (client.seq + 1))) ++ p in
    let (check, sum) =
      icmp_checksum-some zero_sum (8 + length p)
        (echo-IsBytes 8 0 client.server_port (htons (u16 (client.seq + 1))) p (omega arith) hp)
        (omega arith) (omega arith) in
    (check, simp (ping, sum))

server_adds :
    (server : ServerTunnel) (q : List ℕ) (seq : ℕ)
    → server.transport ≡ cktp_proto_ping
    → server.port < 2 ^ 16
    → seq < 2 ^ 16
    → IsBytes q
    → length q < 2 ^ 15
    → (check : ℕ) × (cktp_add_transport_header server q (bit_or (seq * 2 ^ 16) server.port)
        ≡ ok (echo_header 0 check server.port seq ++ q))
unfolding cktp_add_transport_header
server_adds server q seq ping hport hseq hq small =
    let zero_sum : List ℕ = echo_header 0 0 server.port seq ++ q in
    let info : bit_or (seq * 2 ^ 16) server.port ≡ seq * 2 ^ 16 + server.port =
      bit_or_add_high 16 seq server.port hport in
    let low : u16 (seq * 2 ^ 16 + server.port) ≡ server.port = omega arith in
    let high : u16 ((seq * 2 ^ 16 + server.port) / 2 ^ 16) ≡ seq = omega arith in
    let (check, sum) =
      icmp_checksum-some zero_sum (8 + length q)
        (echo-IsBytes 0 0 server.port seq q (omega arith) hq) (omega arith) (omega arith) in
    (check, simp (ping, info, low, high, sum))

strip_lem :
    (server : ServerTunnel) (packet : List ℕ)
    → server.transport ≡ cktp_proto_ping
    → cktp_strip_transport_header server packet ≡ strip_ping server packet
unfolding cktp_strip_transport_header
strip_lem server packet ping = rw ping refl

-- A message in a tunnel over ICMP echo and its answer: behind any IP headers of the system, the
-- server strips from the client's packet what the client added, and the client strips from the
-- reply, for which the server keeps identifier and sequence number, what the server added.
pub ping_exchange :
    (server : ServerTunnel) (client : ClientTunnel) (h h' p q : List ℕ)
    → server.transport ≡ cktp_proto_ping
    → client.transport ≡ cktp_proto_ping
    → client.is_ipv4 ≡ true
    → client.server_port ≡ server.port
    → server.port < 2 ^ 16
    → IsIpHeader h
    → IsIpHeader h'
    → IsBytes p
    → IsBytes q
    → length p < 2 ^ 15
    → length q < 2 ^ 15
    → 0 < length q
    → (client' : ClientTunnel) × (sent : List ℕ) × (info : ℕ) × (reply : List ℕ)
      × (client_add_transport_header client p ≡ ok (client', sent))
      × (cktp_strip_transport_header server (h ++ sent) ≡ ok (some (info, p)))
      × (cktp_add_transport_header server q info ≡ ok reply)
      × (client_strip_transport_header client' (h' ++ reply) ≡ ok (some q))
ping_exchange server client h h' p q ping ping' ipv4 port hport is_h is_h' hp hq small_p small_q
      some_q =
    let seq : ℕ = htons (u16 (client.seq + 1)) in
    let hseq : seq < 2 ^ 16 = omega arith in
    let client' : ClientTunnel = record client { seq = u16 (client.seq + 1) } in
    let (check, added) = client_adds client p ping' hp small_p in
    let client_port : client.server_port < 2 ^ 16 = omega arith in
    let (check', added') = server_adds server q seq ping hport hseq hq small_q in
    (
      client',
      echo_header 8 check client.server_port seq ++ p,
      bit_or (seq * 2 ^ 16) server.port,
      echo_header 0 check' server.port seq ++ q,
      added,
      ap (λ (n : ℕ). cktp_strip_transport_header server (h ++ (echo_header 8 check n seq ++ p)))
            port
          ∙ (strip_lem server (h ++ (echo_header 8 check server.port seq ++ p)) ping
              ∙ strip_echo server h p check seq is_h hport hseq),
      added',
      sym (
            ap
              (λ (n : ℕ).
                client_strip_transport_header client' (h' ++ (echo_header 0 check' n seq ++ q)))
              port)
          ∙ (ap
                (λ (n : ℕ).
                  client_strip_transport_header client'
                    (h' ++ (echo_header 0 check' client.server_port (htons n) ++ q)))
                (let twice : u16 (client.seq + 1) ≡ u16 (u16 (client.seq + 1)) = omega arith in
                  twice)
              ∙ strip_reply client' h' q check' is_h' ping' ipv4 client_port some_q),
    )
