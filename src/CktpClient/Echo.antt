-- ===== src/CktpClient/Echo.antt =====
-- What is stripped of ICMP echo messages in src/cktp_client.c and src/cktp_server.c.
use reqrypt.Common.{
  ltb, ◌==◌, length, get_elem?, drop, length-append, get_elem?-append_left, get_elem?-inside,
  get_elem?-append_add, drop-append_add, u16, htons, value-bytes_16, ℕ, ◌+◌, ◌*◌, ◌%◌, ◌^◌, ◌≤◌,
  ◌<◌, bit_or, ◌≡◌, refl, sym, ap, ◌∙◌, true, false, some, List, ◌++◌, arith,
}
use reqrypt.Common.Outcome.{ok}
use reqrypt.CktpServer.{ServerTunnel, strip_ping, cktp_proto_ping, echo_header}
use reqrypt.CktpClient.{ClientTunnel}
use reqrypt.CktpClient.Transport.{client_strip_transport_header}

-- The IPv4 header that the system puts in front of a packet.
pub record IsIpHeader (h : List ℕ) : Type 0 where
  pub first : (b : ℕ) × (get_elem? h 0 ≡ some b) × (5 ≤ b % 16) × (b % 16 * 4 ≡ length h)

-- What stands behind the IP header.
module _ (h e : List ℕ) where
  first_behind : (b : ℕ) → get_elem? h 0 ≡ some b → get_elem? (h ++ e) 0 ≡ some b
  first_behind b at = get_elem?-append_left h e 0 (get_elem?-inside h 0 b at) ∙ at

  byte_behind :
      (i k c : ℕ) → length h + k ≡ i → get_elem? e k ≡ some c → get_elem? (h ++ e) i ≡ some c
  byte_behind i k c place at =
      ap (λ (n : ℕ). get_elem? (h ++ e) n) (sym place) ∙ get_elem?-append_add h e k ∙ at

pub strip_echo :
    (server : ServerTunnel) (h p : List ℕ) (check seq : ℕ)
    → IsIpHeader h
    → server.port < 2 ^ 16
    → seq < 2 ^ 16
    → strip_ping server (h ++ (echo_header 8 check server.port seq ++ p))
      ≡ ok (some (bit_or (seq * 2 ^ 16) server.port, p))
unfolding strip_ping
strip_echo server h p check seq is_h hport hseq =
    let (b, at, long, size) = is_h.first in
    let e : List ℕ = echo_header 8 check server.port seq ++ p in
    let total = length-append h e in
    let start = first_behind h e b at in
    let enough : ltb (length (h ++ e)) 28 ≡ false = ground arith in
    let five : ltb (b % 16) 5 ≡ false = ground arith in
    let whole : ltb (length (h ++ e)) (length h + 8) ≡ false = ground arith in
    let end_h : length h + 0 ≡ length h = omega arith in
    let type = byte_behind h e (length h) 0 8 end_h refl in
    let code = byte_behind h e (length h + 1) 1 0 refl refl in
    let id0 = byte_behind h e (length h + 4) 4 _ refl refl in
    let id1 = byte_behind h e (length h + 4 + 1) 5 _ (omega arith) refl in
    let seq0 = byte_behind h e (length h + 6) 6 _ refl refl in
    let seq1 = byte_behind h e (length h + 6 + 1) 7 _ (omega arith) refl in
    let rest : drop (length h + 8) (h ++ e) ≡ p = drop-append_add h e 8 in
    let same : (server.port == server.port) ≡ true = ground arith in
    rw
      (
        enough,
        start,
        size,
        five,
        whole,
        type,
        code,
        id0,
        id1,
        seq0,
        seq1,
        value-bytes_16 server.port hport,
        value-bytes_16 seq hseq,
        same,
        rest,
      )
      refl

-- The client strips the reply with its sequence number.
pub strip_reply :
    (client : ClientTunnel) (h p : List ℕ) (check : ℕ)
    → IsIpHeader h
    → client.transport ≡ cktp_proto_ping
    → client.is_ipv4 ≡ true
    → client.server_port < 2 ^ 16
    → 0 < length p
    → client_strip_transport_header client
        (h ++ (echo_header 0 check client.server_port (htons (u16 client.seq)) ++ p))
      ≡ ok (some p)
unfolding client_strip_transport_header
strip_reply client h p check is_h ping ipv4 hport some_p =
    let (b, at, long, size) = is_h.first in
    let seq : ℕ = htons (u16 client.seq) in
    let hseq : seq < 2 ^ 16 = omega arith in
    let e : List ℕ = echo_header 0 check client.server_port seq ++ p in
    let total = length-append h e in
    let start = first_behind h e b at in
    let enough : ltb (length (h ++ e)) 28 ≡ false = ground arith in
    let five : ltb (b % 16) 5 ≡ false = ground arith in
    let whole : ltb (length (h ++ e)) (length h + 8) ≡ false = ground arith in
    let end_h : length h + 0 ≡ length h = omega arith in
    let type = byte_behind h e (length h) 0 0 end_h refl in
    let code = byte_behind h e (length h + 1) 1 0 refl refl in
    let id0 = byte_behind h e (length h + 4) 4 _ refl refl in
    let id1 = byte_behind h e (length h + 4 + 1) 5 _ (omega arith) refl in
    let seq0 = byte_behind h e (length h + 6) 6 _ refl refl in
    let seq1 = byte_behind h e (length h + 6 + 1) 7 _ (omega arith) refl in
    let rest : drop (length h + 8) (h ++ e) ≡ p = drop-append_add h e 8 in
    let same : (client.server_port == client.server_port) ≡ true = ground arith in
    let same_seq : (seq == seq) ≡ true = ground arith in
    let more_bytes : ltb (length h + 8) (length (h ++ e)) ≡ true = ground arith in
    simp (
      ping,
      ipv4,
      enough,
      start,
      size,
      five,
      whole,
      type,
      code,
      id0,
      id1,
      seq0,
      seq1,
      value-bytes_16 client.server_port hport,
      value-bytes_16 seq hseq,
      same,
      same_seq,
      rest,
      more_bytes,
    )
