-- ===== src/CktpClient.antt =====
-- src/cktp_client.c: the messages between client and server. Sending and waiting enter by the
-- packets that come back; the encodings of a tunnel are left out.
pub mod Transport
pub mod Messages
pub mod Handshake
pub mod Echo
pub mod Ping
pub mod Reflect
pub mod Examples
use reqrypt.Common.{
  ltb, leb, ◌==◌, if◌then◌else◌, ==_iff, Bool-cases, Option-cases, ◌>>=◌, bind-ne-none,
  bind-eq-some, if-ne-none, if-eq, length, get_elem?, get_or, set, take, drop, replicate, All,
  length-append, length-set, length-take, length-drop, length-replicate, get_elem?-set_self,
  get_elem?-set_ne, get_elem?-eq-get_or, take-append-drop, take-append, drop-append, drop-drop,
  get_elem?-ne-none, drop-set_lt, drop-set_ge, get_elem?-drop, get_elem?-take,
  get_elem?-append_left, drop-take, take_all, drop-append_of_eq, get_elem?-some,
  get_elem?-append_right, append-assoc_cons, get_elem?-inside, get_elem?-replicate, replicate-same,
  get_elem?-All, take-All, drop-All, append-All, take_add, u8, u16, u32, u64, sub64, IsByte,
  IsBytes, ntohs, htons, u8_at, u16_at, u32_at, bytes_at, put_u8, put_u16, get_elem?-IsByte,
  u16_at-lt, drop-IsBytes, take-IsBytes, append-IsBytes, all_bytes, all_bytes-IsBytes, bytes_16,
  bytes_32, str_same, str_same_self, str_same-eq, codes, bit_or-digit, bit_and-digit, bit_or_add,
  bit_or_none, bit_or_add_high, bit_and_63, bit_and_one, bit_xor-digit, bit_xor_cancel, value,
  value-lt, value-append, value-zeros, pow-add, pow-mul, value_next_digit, value-split, same_high,
  value-injective, ℕ, zero, suc, ◌+◌, ◌-◌, ◌*◌, ◌/◌, ◌%◌, ◌^◌, ◌≤◌, ◌<◌, min, bit_and, bit_or,
  bit_xor, ◌≡◌, refl, sym, ap, ◌∙◌, ◌≢◌, ◌↔◌, ◌⊎◌, inl, inr, Bool, true, false, not, ◌&&◌, ◌||◌,
  Option, none, some, List, [], ◌∷◌, ◌++◌, map, arith,
}
use reqrypt.Checksum.{ip_checksum, icmp_checksum}
use reqrypt.CktpServer.{cktp_checksum}

-- The fields of `struct cktp_tunnel_s` of the client, `is_ipv4` for the address family AF_INET.
-- `client_addr` is the first word of the address.
pub record ClientTunnel : Type 0 where
  pub transport : ℕ
  pub is_ipv4 : Bool
  pub server_port : ℕ
  pub seq : ℕ
  pub overhead : ℕ
  pub error : Bool
  pub auth_id : ℕ
  pub flags : ℕ
  pub filter : ℕ
  pub client_addr : ℕ

-- A message with the sequence number `seq`.
unfoldable pub request_message : ℕ → ℕ → List ℕ → Option (List ℕ)
request_message id seq messages = do
  let fields : List ℕ = (length messages - 1) % 256 ∷ bytes_32 id ++ (bytes_16 seq ++ messages)
  checksum ← cktp_checksum 3 (80 ∷ 0 ∷ 0 ∷ fields)
  some (80 ∷ bytes_16 checksum ++ fields)

-- `cktp_reply_handler` for the request with the sequence number `seq`.
unfoldable pub cktp_reply_handler : ℕ → List ℕ → Option Bool
cktp_reply_handler seq reply = if ltb (length reply) 4 then some false else (do
  reply_seq ← u16_at reply 2
  checksum ← u16_at reply 0
  reply_checksum ← cktp_checksum 2 reply
  some (reply_seq == seq && checksum == reply_checksum))

-- `cktp_stream_get_val` for numbers of 8, 16 and 32 bits: the number and the next position.
unfoldable pub stream_8 : List ℕ → ℕ → Option (ℕ × ℕ)
stream_8 pkt pos = do x ← u8_at pkt pos; some (x, pos + 1)

unfoldable pub stream_16 : List ℕ → ℕ → Option (ℕ × ℕ)
stream_16 pkt pos = do x ← u16_at pkt pos; some (x, pos + 2)

unfoldable pub stream_32 : List ℕ → ℕ → Option (ℕ × ℕ)
stream_32 pkt pos = do x ← u32_at pkt pos; some (x, pos + 4)

-- A code that is not CKTP_OK ends the handler with the tunnel in the error state.
abbrev pub checked : ClientTunnel → ℕ → Option ClientTunnel → Option ClientTunnel
checked tunnel code rest = if code == 0 then rest else some (record tunnel { error = true })

-- The two handlers: `none` is `false`, for a reply that does not fit or is cut short.
unfoldable pub cktp_reply_get_auth_handler : ℕ → ClientTunnel → List ℕ → Option ClientTunnel
unfolding cktp_reply_handler stream_8 stream_32
cktp_reply_get_auth_handler seq tunnel reply = do
  fits ← cktp_reply_handler seq reply
  if fits
      then (do
        (code, pos) ← stream_8 reply 4
        checked tunnel code
            (do (id, pos') ← stream_32 reply pos; some (record tunnel { auth_id = id })))
      else none

-- The four words of an IPv6 address are read, the first one is kept.
unfoldable pub address_value : Bool → List ℕ → ℕ → Option (ℕ × ℕ)
unfolding stream_32
address_value is_ipv4 reply pos = do
  (addr, pos') ← stream_32 reply pos
  if is_ipv4
      then some (addr, pos')
      else (do (last, pos'') ← stream_32 reply (pos' + 8); some (addr, pos''))

unfoldable pub cktp_reply_get_info_handler : ℕ → ClientTunnel → List ℕ → Option ClientTunnel
unfolding cktp_reply_handler stream_8 stream_16 stream_32 address_value
cktp_reply_get_info_handler seq tunnel reply = do
  fits ← cktp_reply_handler seq reply
  if fits
      then (do
        (code, pos) ← stream_8 reply 4
        checked tunnel code (do
          (flags, pos1) ← stream_32 reply pos
          (code1, pos2) ← stream_8 reply pos1
          let with_flags = record tunnel { flags = flags }
          checked with_flags code1 (do
            (addr, pos3) ← address_value tunnel.is_ipv4 reply pos2
            (code2, pos4) ← stream_8 reply pos3
            let with_addr = record with_flags { client_addr = addr }
            checked with_addr code2 (do
              (filter, pos5) ← stream_16 reply pos4
              some (record with_addr { filter = filter })))))
      else none

-- `cktp_send_request`: the packets that are received before the retries are used up, in order. The
-- first one that the handler accepts ends the wait.
unfoldable pub first_accepted : (List ℕ → Option ClientTunnel) → List (List ℕ) → Option ClientTunnel
first_accepted handler [] = none
first_accepted handler (packet ∷ packets) =
    let rest = first_accepted handler packets in
    elim (handler packet) [ none ↦ rest | some tunnel ↦ some tunnel ]

-- The tests of what the server offers.
unfoldable pub is_compatible : ClientTunnel → Bool
is_compatible tunnel =
    let flag = if tunnel.is_ipv4 then 1 else 2 in
    not (bit_and tunnel.flags flag == 0)
    && (not (bit_and tunnel.flags 4 == 0) && (tunnel.filter == 0 || tunnel.filter == 256))

-- `cktp_connect`: `network` gives the packets that come back for a request. The identifier and the
-- sequence numbers are those that are drawn. `none` is `false`.
unfoldable pub cktp_connect :
    (List ℕ → List (List ℕ)) → ClientTunnel → ℕ → ℕ → ℕ → Option ClientTunnel
cktp_connect network tunnel id seq1 seq2 = do
  request_1 ← request_message id seq1 (1 ∷ [])
  tunnel1 ← first_accepted (cktp_reply_get_auth_handler seq1 tunnel) (network request_1)
  if tunnel1.error then none else (do
    request_2 ←
        request_message tunnel1.auth_id seq2 (2 ∷ (if tunnel1.is_ipv4 then 3 else 4) ∷ 5 ∷ [])
    tunnel2 ← first_accepted (cktp_reply_get_info_handler seq2 tunnel1) (network request_2)
    if tunnel2.error then none else if is_compatible tunnel2 then some tunnel2 else none)

-- `cktp_fragmentation_required` for an IPv4 packet behind its Ethernet header: the message that is
-- sent to the server. The source address is that of the tunnel.
unfoldable pub cktp_fragmentation_required : ClientTunnel → ℕ → List ℕ → Option (List ℕ)
cktp_fragmentation_required tunnel mtu ip = do
  first ← u8_at ip 0
  let body_len : ℕ = u8 (first % 16 * 4 + 8)
  let icmp_len : ℕ = u8 (8 + body_len)
  body ← bytes_at ip 0 body_len
  saddr ← u32_at body 12
  let moved : List ℕ = put_u16 (take 12 body ++ (bytes_32 tunnel.client_addr ++ drop 16 body)) 10 0
  check ← ip_checksum moved
  let body' : List ℕ = if saddr == tunnel.client_addr then body else put_u16 moved 10 check
  let header : ℕ → List ℕ = λ sum. 3 ∷ 4 ∷ bytes_16 sum ++ (0 ∷ 0 ∷ bytes_16 (htons mtu))
  sum ← icmp_checksum (header 0 ++ body') icmp_len
  some (52 ∷ 1 ∷ header sum ++ body')
