-- ===== src/CktpClient/Transport.antt =====
-- The transport headers of src/cktp_client.c, and the MTU that they leave.
use reqrypt.Common.{
  ltb, ◌==◌, if◌then◌else◌, length, drop, u16, htons, u8_at, u16_at, ℕ, ◌+◌, ◌-◌, ◌*◌, ◌%◌, ◌&&◌,
  ◌||◌, Option, none, some, List, ◌++◌,
}
use reqrypt.Common.Outcome.{Outcome, ok, panicked, read, ◌>>=◌}
use reqrypt.Checksum.{icmp_checksum}
use reqrypt.CktpServer.{cktp_proto_ip, cktp_proto_ping, echo_header}
use reqrypt.CktpClient.{ClientTunnel}

-- The effective MTU, 0 where there is none. The overhead is far below 2^31, so that a
-- difference below 0 is less than IP_MSS (576) as an `int` too.
unfoldable pub cktp_tunnel_get_mtu : ClientTunnel → ℕ → Outcome ℕ
cktp_tunnel_get_mtu tunnel mtu0 =
    let network = if tunnel.is_ipv4 then 60 else 40 in
    let transport =
      if tunnel.transport == cktp_proto_ip
      then some 0
      else if tunnel.transport == 1 || tunnel.transport == 2 || tunnel.transport == cktp_proto_ping
      then some 8
      else none in
    elim transport [
      | none ↦ panicked
      | some size ↦
          (let used = network + size + tunnel.overhead in
            if ltb mtu0 (used + 576) then ok 0 else ok (u16 (mtu0 - used)))
    ]

-- `cktp_add_transport_header` of the client: the sequence number is counted up first.
unfoldable pub client_add_transport_header : ClientTunnel → List ℕ → Outcome (ClientTunnel × List ℕ)
client_add_transport_header tunnel packet =
    if tunnel.transport == cktp_proto_ping
    then (do
      let seq : ℕ = u16 (tunnel.seq + 1)
      let header : ℕ → List ℕ = λ check. echo_header 8 check tunnel.server_port (htons seq)
      check ← read (icmp_checksum (header 0 ++ packet) (8 + length packet))
      ok (record tunnel { seq = seq }, header check ++ packet))
    else ok (tunnel, packet)

-- The bytes of the transport header of a packet; `none` for `false`.
unfoldable pub strip_size : ClientTunnel → List ℕ → Outcome (Option ℕ)
strip_size tunnel packet =
    if tunnel.transport == cktp_proto_ip
    then if tunnel.is_ipv4
      then if ltb (length packet) 20
        then ok none
        else (do first ← read (u8_at packet 0); ok (some (first % 16 * 4)))
      else ok (some 40)
    else if tunnel.transport == cktp_proto_ping
    then if tunnel.is_ipv4
      then if ltb (length packet) 28 then ok none else (do
        first ← read (u8_at packet 0)
        let size = first % 16 * 4
        if ltb (first % 16) 5 || ltb (length packet) (size + 8) then ok none else (do
          type ← read (u8_at packet size)
          code ← read (u8_at packet (size + 1))
          id ← read (u16_at packet (size + 4))
          seq ← read (u16_at packet (size + 6))
          if type == 0 && (code == 0 && (seq == htons (u16 tunnel.seq) && id == tunnel.server_port))
              then ok (some (size + 8))
              else ok none))
      else panicked
    else ok (some 0)

-- `cktp_strip_transport_header` of the client: nothing is left of a packet without a payload.
unfoldable pub client_strip_transport_header : ClientTunnel → List ℕ → Outcome (Option (List ℕ))
unfolding strip_size
client_strip_transport_header tunnel packet = do
  size ← strip_size tunnel packet
  elim size [
    | none ↦ ok none
    | some n ↦ (if ltb n (length packet) then ok (some (drop n packet)) else ok none)
  ]
