-- ===== src/CktpServer.antt =====
-- src/cktp_server.c: what the server does with a packet, with cktp.h and the macro of cktp_common.h.
-- A pointer and a size are the list of the bytes; a read of a field outside the packet is `fault`.
pub mod Forward
pub mod Examples
use reqrypt.Common.{
  ltb, leb, ◌==◌, if◌then◌else◌, ==_iff, Bool-cases, Option-cases, bind-ne-none, bind-eq-some,
  if-ne-none, length, get_elem?, get_or, set, take, drop, replicate, All, length-append, length-set,
  length-take, length-drop, length-replicate, get_elem?-set_self, get_elem?-set_ne,
  get_elem?-eq-get_or, take-append-drop, take-append, drop-append, drop-drop, get_elem?-ne-none,
  drop-set_lt, drop-set_ge, get_elem?-drop, get_elem?-take, get_elem?-append_left, drop-take,
  take_all, drop-append_of_eq, get_elem?-some, get_elem?-append_right, append-assoc_cons,
  get_elem?-inside, get_elem?-replicate, replicate-same, get_elem?-All, take-All, drop-All,
  append-All, take_add, u8, u16, u32, u64, sub64, IsByte, IsBytes, ntohs, htons, u8_at, u16_at,
  u32_at, bytes_at, put_u8, put_u16, get_elem?-IsByte, u16_at-lt, drop-IsBytes, take-IsBytes,
  append-IsBytes, all_bytes, all_bytes-IsBytes, bytes_16, bytes_32, str_same, str_same_self,
  str_same-eq, codes, bit_or-digit, bit_and-digit, bit_or_add, bit_or_none, bit_or_add_high,
  bit_and_63, bit_and_one, bit_xor-digit, bit_xor_cancel, value, value-lt, value-append,
  value-zeros, pow-add, pow-mul, value_next_digit, value-split, same_high, value-injective, ℕ, zero,
  suc, ◌+◌, ◌-◌, ◌*◌, ◌/◌, ◌%◌, ◌^◌, ◌≤◌, ◌<◌, min, bit_and, bit_or, bit_xor, ◌≡◌, refl, sym, ap,
  ◌∙◌, ◌≢◌, ◌↔◌, ◌⊎◌, inl, inr, Bool, true, false, not, ◌&&◌, ◌||◌, Option, none, some, List, [],
  ◌∷◌, ◌++◌, map, arith,
}
use reqrypt.Common.Outcome.{Outcome, ok, read, ◌>>=◌}
use reqrypt.Checksum.{icmp_checksum}
use reqrypt.Cookie.{CookieGen, generate_cookie32}
use reqrypt.CktpCommon.{cktp_calculate_checksum}

-- The fields of `struct cktp_tunnel_s` that the functions below read.
pub record ServerTunnel : Type 0 where
  pub transport : ℕ
  pub port : ℕ
  pub cookie_gen : CookieGen

abbrev pub cktp_proto_ip : ℕ
cktp_proto_ip = 0

abbrev pub cktp_proto_ping : ℕ
cktp_proto_ping = 3

abbrev pub cktp_max_requests : ℕ
cktp_max_requests = 32

abbrev pub cktp_max_packet_size : ℕ
cktp_max_packet_size = 8192

abbrev pub cktp_type_message : ℕ
cktp_type_message = 5

-- `cktp_checksum` of a message: the field of the checksum ends at the byte `behind`.
unfoldable pub cktp_checksum : ℕ → List ℕ → Option ℕ
cktp_checksum behind message =
    cktp_calculate_checksum (drop behind message) (u16 (sub64 (length message) behind))

-- `cktp_strip_transport_header`: the information on the sender and the payload, `none` for -1.
unfoldable pub strip_ip : List ℕ → Outcome (Option (ℕ × List ℕ))
strip_ip payload = if ltb (length payload) 20 then ok none else (do
  first ← read (u8_at payload 0)
  let size = first % 16 * 4
  if ltb (first % 16) 5
      then ok none
      else if ltb (length payload) size
      then ok none
      else ok (some (0, drop size payload)))

unfoldable pub strip_ping : ServerTunnel → List ℕ → Outcome (Option (ℕ × List ℕ))
strip_ping tunnel payload = if ltb (length payload) 28 then ok none else (do
  first ← read (u8_at payload 0)
  let size = first % 16 * 4
  if ltb (first % 16) 5 then ok none else if ltb (length payload) (size + 8) then ok none else (do
    type ← read (u8_at payload size)
    code ← read (u8_at payload (size + 1))
    id ← read (u16_at payload (size + 4))
    seq ← read (u16_at payload (size + 6))
    if not (type == 8) || (not (code == 0) || not (id == tunnel.port))
        then ok none
        else ok (some (bit_or (seq * 2 ^ 16) id, drop (size + 8) payload))))

unfoldable pub cktp_strip_transport_header : ServerTunnel → List ℕ → Outcome (Option (ℕ × List ℕ))
unfolding strip_ip strip_ping
cktp_strip_transport_header tunnel payload =
    if tunnel.transport == cktp_proto_ip
    then strip_ip payload
    else if tunnel.transport == cktp_proto_ping
    then strip_ping tunnel payload
    else ok (some (0, payload))

-- The ICMP header of an echo message, with the checksum `check`.
abbrev pub echo_header : ℕ → ℕ → ℕ → ℕ → List ℕ
echo_header type check id seq = type ∷ 0 ∷ bytes_16 check ++ (bytes_16 id ++ bytes_16 seq)

-- `cktp_add_transport_header`, of the server: `info` is the identifier and the sequence number.
unfoldable pub cktp_add_transport_header : ServerTunnel → List ℕ → ℕ → Outcome (List ℕ)
cktp_add_transport_header tunnel payload info =
    if tunnel.transport == cktp_proto_ping
    then (do
      let header : ℕ → List ℕ = λ check. echo_header 0 check (u16 info) (u16 (info / 2 ^ 16))
      check ← read (icmp_checksum (header 0 ++ payload) (8 + length payload))
      ok (header check ++ payload))
    else ok payload

unfoldable pub cktp_is_ipv4_addr_public : ℕ → Bool
cktp_is_ipv4_addr_public addr =
    let a = u8 addr in
    let b = u8 (addr / 2 ^ 8) in
    if a == 0 || (a == 10 || a == 127)
    then false
    else if a == 172
    then not (leb 16 b && leb b 31)
    else if a == 192
    then not (b == 168)
    else if a == 255
    then not (addr == 4294967295)
    else true

-- The checks of the transport header that starts at `next`: its size, and the destination port.
unfoldable pub is_valid_transport : List ℕ → ℕ → ℕ → Outcome Bool
is_valid_transport payload protocol next =
    if protocol == 6
    then if ltb (length payload) (next + 20)
      then ok false
      else (do dest ← read (u16_at payload (next + 2)); ok (dest == htons 80))
    else if protocol == 17
    then if ltb (length payload) (next + 8)
      then ok false
      else (do dest ← read (u16_at payload (next + 2)); ok (dest == htons 53))
    else ok false

unfoldable pub cktp_is_valid_packet : List ℕ → ℕ → Outcome Bool
unfolding is_valid_transport cktp_is_ipv4_addr_public
cktp_is_valid_packet payload source_addr = do
  tot_len ← read (u16_at payload 2)
  saddr ← read (u32_at payload 12)
  first ← read (u8_at payload 0)
  let ihl = first % 16
  if not (u16 (length payload) == ntohs tot_len) || (not (saddr == source_addr) || ltb ihl 5)
      then ok false
      else (do
        protocol ← read (u8_at payload 9)
        transport ← is_valid_transport payload protocol (ihl * 4)
        daddr ← read (u32_at payload 16)
        ok (if transport then cktp_is_ipv4_addr_public daddr else false))

-- The code and the value in the reply to a message; `known` is the sender's identifier.
unfoldable pub answer : ℕ → ℕ → ℕ → ℕ → List ℕ
answer known id source_addr message =
    if id == known
    then if message == 0
      then 0 ∷ []
      else if message == 1
      then 0 ∷ bytes_32 known
      else if message == 2
      then 0 ∷ bytes_32 (bit_or 1 4)
      else if message == 3
      then 0 ∷ bytes_32 source_addr
      else if message == 4
      then 2 ∷ []
      else if message == 5
      then 0 ∷ bytes_16 256
      else 2 ∷ []
    else if message == 1
    then 0 ∷ bytes_32 known
    else 1 ∷ []

-- The loop over `left` messages from the position `pos` of the request on, with what has been
-- written behind the checksum of the reply; `none` is the jump to `stream_error`.
unfoldable pub answers : (ℕ → List ℕ) → ℕ → List ℕ → ℕ → List ℕ → Option (List ℕ)
answers reply_to zero request pos out = some out
answers reply_to (suc left) request pos out = elim (get_elem? request pos) [
  | none ↦ none
  | some message ↦
      let out' : List ℕ = out ++ reply_to message in
      let rest = answers reply_to left request (pos + 1) out' in
      if ltb (cktp_max_packet_size - 2) (length out') then none else rest
]

-- The whole reply; `none` is `false`.
unfoldable pub cktp_request : ServerTunnel → List ℕ → ℕ → Outcome (Option (List ℕ))
unfolding answer answers
cktp_request tunnel request source_addr = do
  first ← read (u8_at request 0)
  checksum ← read (u16_at request 1)
  size ← read (u8_at request 3)
  sum ← read (cktp_checksum 3 request)
  if not (first % 16 == 0) || (ltb (cktp_max_requests - 1) size || not (checksum == sum))
      then ok none
      else if ltb (length request) 10
      then ok none
      else (do
        id ← read (u32_at request 4)
        seq ← read (u16_at request 8)
        elim (answers
            (answer (generate_cookie32 tunnel.cookie_gen (source_addr ∷ []) 1) id source_addr)
            (size + 1) request 10 (bytes_16 seq)) [
              | none ↦ ok none
              | some out ↦ (do
                check ← read (cktp_checksum 2 (0 ∷ 0 ∷ out))
                ok (some (bytes_16 check ++ out)))
            ])

-- The ICMP message that is sent back, if there is one.
unfoldable pub cktp_reflect : List ℕ → Outcome (Option (List ℕ))
cktp_reflect reflect = if ltb (length reflect) 38 then ok none else (do
  first ← read (u8_at reflect 0)
  protocol ← read (u8_at reflect 1)
  type ← read (u8_at reflect 2)
  code ← read (u8_at reflect 3)
  inner ← read (u8_at reflect 10)
  if not (first % 16 == 4) || not (protocol == 1)
      then ok none
      else if not (type == 3) || not (code == 4)
      then ok none
      else if not (length reflect - 2 == 8 + inner % 16 * 4 + 8)
      then ok none
      else ok (some (drop 2 reflect)))

-- What the server sends after a packet.
pub data Sent : Type 0 where
  nothing : Sent
  forwarded : ℕ → List ℕ → Sent
  reflected : List ℕ → Sent
  answered : List ℕ → Sent

-- A body of `cktp_listen_loop` without encodings, behind the transport header.
unfoldable pub handle_packet : ServerTunnel → ℕ → List ℕ → ℕ → Outcome Sent
unfolding cktp_is_valid_packet cktp_request cktp_reflect cktp_add_transport_header
handle_packet tunnel info payload source_addr = do
  first ← read (u8_at payload 0)
  if first / 16 == 3
      then (do
        reflect ← cktp_reflect payload
        elim reflect [ none ↦ ok nothing | some icmp ↦ ok (reflected icmp) ])
      else if first / 16 == 4
      then (do
        valid ← cktp_is_valid_packet payload source_addr
        if valid
            then (do daddr ← read (u32_at payload 16); ok (forwarded daddr payload))
            else ok nothing)
      else if first / 16 == cktp_type_message
      then (do
        reply ← cktp_request tunnel payload source_addr
        elim reply [
          | none ↦ ok nothing
          | some bytes ↦ (do
            packet ← cktp_add_transport_header tunnel bytes info
            ok (answered packet))
        ])
      else ok nothing

-- The whole body, from the packet that was received on.
unfoldable pub listen_step : ServerTunnel → List ℕ → ℕ → Outcome Sent
unfolding cktp_strip_transport_header handle_packet
listen_step tunnel packet source_addr = do
  stripped ← cktp_strip_transport_header tunnel packet
  elim stripped [
    | none ↦ ok nothing
    | some (info, payload) ↦ handle_packet tunnel info payload source_addr
  ]
