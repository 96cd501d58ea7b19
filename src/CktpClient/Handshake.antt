-- ===== src/CktpClient/Handshake.antt =====
-- The handshake of src/cktp_client.c with the server of src/cktp_server.c.
use reqrypt.Common.{
  ◌==◌, u32, bytes_16, bytes_32, bit_xor-lt, ℕ, ◌^◌, ◌<◌, ◌≡◌, refl, ap, ◌∙◌, true, false, Option,
  some, List, [], ◌∷◌, ◌++◌, arith,
}
use reqrypt.Common.Outcome.{Outcome, ok, panicked, fault}
use reqrypt.Cookie.{CookieGen, generate_cookie32}
use reqrypt.CktpServer.{
  ServerTunnel, Sent, nothing, forwarded, reflected, answered, cktp_proto_ip, cktp_proto_ping,
  cktp_request, cktp_strip_transport_header, cktp_add_transport_header, handle_packet, listen_step,
}
use reqrypt.CktpClient.{
  ClientTunnel, request_message, cktp_reply_get_auth_handler, cktp_reply_get_info_handler,
  first_accepted, is_compatible, cktp_connect,
}
use reqrypt.CktpClient.Messages.{reply_1, reply_2, auth_1, info_2, request_lem, reply_lem}

-- The packets that come back over a network that loses nothing, for a client at the address `addr`: the
-- server's loop takes the request and sends its answer.
abbrev packets_of : Outcome Sent → List (List ℕ)
packets_of (ok nothing) = []
packets_of (ok (forwarded daddr packet)) = []
packets_of (ok (reflected packet)) = []
packets_of (ok (answered packet)) = packet ∷ []
packets_of panicked = []
packets_of fault = []

abbrev pub delivered : ServerTunnel → ℕ → List ℕ → List (List ℕ)
delivered server addr request = packets_of (listen_step server request addr)

-- A transport whose socket gives and takes messages without a header: neither IP nor ping.
pub record IsPlain (server : ServerTunnel) : Type 0 where
  pub not_ip : (server.transport == cktp_proto_ip) ≡ false
  pub not_ping : (server.transport == cktp_proto_ping) ≡ false

no_header :
    (server : ServerTunnel) (reply : List ℕ)
    → IsPlain server
    → cktp_add_transport_header server reply 0 ≡ ok reply
unfolding cktp_add_transport_header
no_header server reply plain = rw plain.not_ping refl

-- The server's loop answers a message of type 5.
listen_step-answered :
    (server : ServerTunnel) (addr : ℕ) (request reply : List ℕ)
    → IsPlain server
    → cktp_request server (80 ∷ request) addr ≡ ok (some reply)
    → listen_step server (80 ∷ request) addr ≡ ok (answered reply)
unfolding listen_step cktp_strip_transport_header handle_packet
listen_step-answered server addr request reply plain is_reply =
    rw (plain.not_ip, plain.not_ping, is_reply, no_header server reply plain) refl

accept_one :
    (handler : List ℕ → Option ClientTunnel) (reply : List ℕ) (tunnel : ClientTunnel)
    → handler reply ≡ some tunnel
    → first_accepted handler (reply ∷ []) ≡ some tunnel
unfolding first_accepted
accept_one handler reply tunnel accepted = rw (first_accepted, accepted) refl

accept_only :
    (handler : List ℕ → Option ClientTunnel) (server : ServerTunnel) (addr : ℕ)
    (request reply : List ℕ) (tunnel : ClientTunnel)
    → IsPlain server
    → cktp_request server (80 ∷ request) addr ≡ ok (some reply)
    → handler reply ≡ some tunnel
    → first_accepted handler (delivered server addr (80 ∷ request)) ≡ some tunnel
accept_only handler server addr request reply tunnel plain is_reply accepted =
    ap (λ (o : Outcome Sent). first_accepted handler (packets_of o))
      (listen_step-answered server addr request reply plain is_reply)
    ∙ accept_one handler reply tunnel accepted

-- The steps of the handshake, one after the other.
connect_chain :
    (network : List ℕ → List (List ℕ)) (tunnel tunnel1 tunnel2 : ClientTunnel) (id seq1 seq2 : ℕ)
    (request_1 request_2 : List ℕ)
    → request_message id seq1 (1 ∷ []) ≡ some request_1
    → first_accepted (cktp_reply_get_auth_handler seq1 tunnel) (network request_1) ≡ some tunnel1
    → tunnel1.error ≡ false
    → tunnel1.is_ipv4 ≡ true
    → request_message tunnel1.auth_id seq2 (2 ∷ 3 ∷ 5 ∷ []) ≡ some request_2
    → first_accepted (cktp_reply_get_info_handler seq2 tunnel1) (network request_2) ≡ some tunnel2
    → tunnel2.error ≡ false
    → is_compatible tunnel2 ≡ true
    → cktp_connect network tunnel id seq1 seq2 ≡ some tunnel2
unfolding cktp_connect
connect_chain network tunnel tunnel1 tunnel2 id seq1 seq2 request_1 request_2 e1 first fine1 ipv4 e2
      second fine2 compatible =
    simp (e1, first, fine1, ipv4, e2, second, fine2, compatible)

compatible_lem :
    (tunnel : ClientTunnel) (addr : ℕ)
    → tunnel.is_ipv4 ≡ true
    → is_compatible (record tunnel { flags = 5; filter = 256; client_addr = addr }) ≡ true
unfolding is_compatible
compatible_lem tunnel addr ipv4 = rw ipv4 refl

generate_cookie32-lt :
    (gen : CookieGen) (input : List ℕ) (size : ℕ) → generate_cookie32 gen input size < 2 ^ 32
unfolding generate_cookie32
generate_cookie32-lt gen input size = bit_xor-lt 32 _ _ (word_lt _) (word_lt _)
  where
    word_lt : (n : ℕ) → u32 n < 2 ^ 32
    word_lt n = omega arith

connect_known :
    (server : ServerTunnel) (tunnel : ClientTunnel) (addr known id seq1 seq2 : ℕ)
    → IsPlain server
    → generate_cookie32 server.cookie_gen (addr ∷ []) 1 ≡ known
    → known < 2 ^ 32
    → addr < 2 ^ 32
    → id < 2 ^ 32
    → seq1 < 2 ^ 16
    → seq2 < 2 ^ 16
    → tunnel.is_ipv4 ≡ true
    → tunnel.error ≡ false
    → cktp_connect (delivered server addr) tunnel id seq1 seq2
      ≡ some (record tunnel { auth_id = known; flags = 5; filter = 256; client_addr = addr })
connect_known server tunnel addr known id seq1 seq2 plain is_known hk ha hid h1 h2 ipv4 fine =
    let (c1, is_request1, hc1, sum1) = request_lem 0 id seq1 (1 ∷ []) (omega arith) refl in
    let (r1, hr1, out1, back1) = reply_lem (bytes_16 seq1 ++ (0 ∷ bytes_32 known)) (omega arith) in
    let tunnel1 : ClientTunnel = record tunnel { auth_id = known } in
    let first =
      accept_only (cktp_reply_get_auth_handler seq1 tunnel) server addr _ _ tunnel1 plain
        (reply_1 server addr id seq1 c1 known r1 hid h1 hc1 is_known sum1 out1)
        (auth_1 tunnel seq1 known r1 hk h1 hr1 back1) in
    let (c2, is_request2, hc2, sum2) =
      request_lem 2 known seq2 (2 ∷ 3 ∷ 5 ∷ []) (omega arith) refl in
    let (r2, hr2, out2, back2) =
      reply_lem (bytes_16 seq2 ++ (0 ∷ bytes_32 5 ++ (0 ∷ bytes_32 addr ++ (0 ∷ bytes_16 256))))
        (omega arith) in
    let second =
      accept_only (cktp_reply_get_info_handler seq2 tunnel1) server addr _ _
        (record tunnel1 { flags = 5; filter = 256; client_addr = addr }) plain
        (reply_2 server addr seq2 c2 known r2 hk h2 hc2 is_known sum2 out2)
        (info_2 tunnel1 seq2 addr r2 ha h2 hr2 ipv4 back2) in
    connect_chain (delivered server addr) tunnel tunnel1 _ id seq1 seq2 _ _ is_request1 first fine
      ipv4 is_request2 second fine (compatible_lem tunnel1 addr ipv4)

-- Over a network that loses nothing and a transport without headers of its own, a client at any IPv4
-- address connects to any server, whatever numbers it draws: the server's loop takes both requests as
-- messages and answers them, and the client gets the identifier that the server makes of its address, and the server's
-- flags, filter and view of its address.
pub cktp_connect-cktp_request :
    (server : ServerTunnel) (tunnel : ClientTunnel) (addr id seq1 seq2 : ℕ)
    → IsPlain server
    → addr < 2 ^ 32
    → id < 2 ^ 32
    → seq1 < 2 ^ 16
    → seq2 < 2 ^ 16
    → tunnel.is_ipv4 ≡ true
    → tunnel.error ≡ false
    → cktp_connect (delivered server addr) tunnel id seq1 seq2
      ≡ some (record tunnel {
        auth_id = generate_cookie32 server.cookie_gen (addr ∷ []) 1;
        flags = 5;
        filter = 256;
        client_addr = addr;
      })
cktp_connect-cktp_request server tunnel addr id seq1 seq2 plain =
    connect_known server tunnel addr (generate_cookie32 server.cookie_gen (addr ∷ []) 1) id seq1
      seq2 plain refl (generate_cookie32-lt server.cookie_gen (addr ∷ []) 1)
