-- ===== src/CktpClient/Messages.antt =====
-- The messages of the handshake of src/cktp_client.c and the answers of src/cktp_server.c.
use reqrypt.Common.{
  ◌==◌, Bool-cases, length, u16, sub64, bytes_16, bytes_32, value-bytes_16, value-bytes_32, ℕ, ◌-◌,
  ◌/◌, ◌%◌, ◌^◌, ◌<◌, bit_or, ◌≡◌, refl, ap, ◌∙◌, inl, inr, true, some, List, [], ◌∷◌, ◌++◌, arith,
}
use reqrypt.Common.Outcome.{ok}
use reqrypt.Cookie.{generate_cookie32}
use reqrypt.CktpCommon.{cktp_calculate_checksum}
use reqrypt.CktpCommon.Crc.{cktp_calculate_checksum-some}
use reqrypt.CktpServer.{ServerTunnel, cktp_checksum, cktp_request}
use reqrypt.CktpClient.{
  ClientTunnel, request_message, cktp_reply_get_auth_handler, cktp_reply_get_info_handler,
}

-- The checksum covers the bytes behind its field.
sum_behind :
    (x y z : ℕ) (bytes : List ℕ)
    → length bytes < 2 ^ 16
    → cktp_checksum 3 (x ∷ y ∷ z ∷ bytes) ≡ cktp_calculate_checksum bytes (length bytes)
unfolding cktp_checksum
sum_behind x y z bytes small =
    ap (λ (k : ℕ). cktp_calculate_checksum bytes k)
      (let size : u16 (sub64 (length (x ∷ y ∷ z ∷ bytes)) 3) ≡ length bytes = omega arith in size)

sum_reply :
    (x y : ℕ) (bytes : List ℕ)
    → length bytes < 2 ^ 16
    → cktp_checksum 2 (x ∷ y ∷ bytes) ≡ cktp_calculate_checksum bytes (length bytes)
unfolding cktp_checksum
sum_reply x y bytes small =
    ap (λ (k : ℕ). cktp_calculate_checksum bytes k)
      (let size : u16 (sub64 (length (x ∷ y ∷ bytes)) 2) ≡ length bytes = omega arith in size)

==_self : (n : ℕ) → (n == n) ≡ true
==_self n = ground arith

-- The first message: the server returns its identifier for the client.
pub reply_1 :
    (server : ServerTunnel) (addr id seq c known r : ℕ)
    → id < 2 ^ 32
    → seq < 2 ^ 16
    → c < 2 ^ 16
    → generate_cookie32 server.cookie_gen (addr ∷ []) 1 ≡ known
    → cktp_checksum 3 (80 ∷ bytes_16 c ++ (0 ∷ bytes_32 id ++ (bytes_16 seq ++ (1 ∷ [])))) ≡ some c
    → cktp_checksum 2 (0 ∷ 0 ∷ bytes_16 seq ++ (0 ∷ bytes_32 known)) ≡ some r
    → cktp_request server (80 ∷ bytes_16 c ++ (0 ∷ bytes_32 id ++ (bytes_16 seq ++ (1 ∷ [])))) addr
      ≡ ok (some (bytes_16 r ++ (bytes_16 seq ++ (0 ∷ bytes_32 known))))
unfolding cktp_request
reply_1 server addr id seq c known r hid hseq hc is_known sum sum_r =
    rw
      (
        sum,
        value-bytes_16 c hc,
        value-bytes_16 seq hseq,
        value-bytes_32 id hid,
        ==_self c,
        is_known,
      )
      (elim (Bool-cases (id == known)) [
        | inl same ↦ rw (same, sum_r) refl
        | inr other ↦ rw (other, sum_r) refl
      ])

-- The second message, with the identifier: the server returns its flags, the address and its filter.
pub reply_2 :
    (server : ServerTunnel) (addr seq c known r : ℕ)
    → known < 2 ^ 32
    → seq < 2 ^ 16
    → c < 2 ^ 16
    → generate_cookie32 server.cookie_gen (addr ∷ []) 1 ≡ known
    → cktp_checksum 3
        (80 ∷ bytes_16 c ++ (2 ∷ bytes_32 known ++ (bytes_16 seq ++ (2 ∷ 3 ∷ 5 ∷ []))))
      ≡ some c
    → cktp_checksum 2
        (0 ∷ 0 ∷ bytes_16 seq ++ (0 ∷ bytes_32 5 ++ (0 ∷ bytes_32 addr ++ (0 ∷ bytes_16 256))))
      ≡ some r
    → cktp_request server
        (80 ∷ bytes_16 c ++ (2 ∷ bytes_32 known ++ (bytes_16 seq ++ (2 ∷ 3 ∷ 5 ∷ []))))
        addr
      ≡ ok (
          some (
            bytes_16 r
            ++ (bytes_16 seq ++ (0 ∷ bytes_32 5 ++ (0 ∷ bytes_32 addr ++ (0 ∷ bytes_16 256))))))
unfolding cktp_request
reply_2 server addr seq c known r hid hseq hc is_known sum sum_r =
    let flags : bit_or 1 4 ≡ 5 = refl in
    rw
      (
        sum,
        value-bytes_16 c hc,
        value-bytes_16 seq hseq,
        value-bytes_32 known hid,
        ==_self c,
        is_known,
        ==_self known,
      )
      (rw sum_r refl)

-- The client takes the identifier from the first reply.
pub auth_1 :
    (tunnel : ClientTunnel) (seq known r : ℕ)
    → known < 2 ^ 32
    → seq < 2 ^ 16
    → r < 2 ^ 16
    → cktp_checksum 2 (bytes_16 r ++ (bytes_16 seq ++ (0 ∷ bytes_32 known))) ≡ some r
    → cktp_reply_get_auth_handler seq tunnel (bytes_16 r ++ (bytes_16 seq ++ (0 ∷ bytes_32 known)))
      ≡ some (record tunnel { auth_id = known })
unfolding cktp_reply_get_auth_handler
auth_1 tunnel seq known r hk hseq hr sum =
    rw
      (
        sum,
        value-bytes_16 r hr,
        value-bytes_16 seq hseq,
        value-bytes_32 known hk,
        ==_self r,
        ==_self seq,
      )
      refl

-- And the parameters of the server from the second one.
pub info_2 :
    (tunnel : ClientTunnel) (seq addr r : ℕ)
    → addr < 2 ^ 32
    → seq < 2 ^ 16
    → r < 2 ^ 16
    → tunnel.is_ipv4 ≡ true
    → cktp_checksum 2 (
        bytes_16 r
        ++ (bytes_16 seq ++ (0 ∷ bytes_32 5 ++ (0 ∷ bytes_32 addr ++ (0 ∷ bytes_16 256)))))
      ≡ some r
    → cktp_reply_get_info_handler seq tunnel (
        bytes_16 r
        ++ (bytes_16 seq ++ (0 ∷ bytes_32 5 ++ (0 ∷ bytes_32 addr ++ (0 ∷ bytes_16 256)))))
      ≡ some (record tunnel { flags = 5; filter = 256; client_addr = addr })
unfolding cktp_reply_get_info_handler
info_2 tunnel seq addr r ha hseq hr is_ipv4 sum =
    rw
      (
        sum,
        value-bytes_16 r hr,
        value-bytes_16 seq hseq,
        value-bytes_32 addr ha,
        ==_self r,
        ==_self seq,
        is_ipv4,
      )
      refl

with_sum :
    (size id seq c : ℕ) (messages : List ℕ)
    → (length messages - 1) % 256 ≡ size
    → cktp_checksum 3 (80 ∷ 0 ∷ 0 ∷ size ∷ bytes_32 id ++ (bytes_16 seq ++ messages)) ≡ some c
    → request_message id seq messages
      ≡ some (80 ∷ bytes_16 c ++ (size ∷ bytes_32 id ++ (bytes_16 seq ++ messages)))
unfolding request_message
with_sum size id seq c messages is_size sum = rw (is_size, sum) refl

pub request_lem :
    (size id seq : ℕ) (messages : List ℕ)
    → length messages < 2 ^ 15
    → (length messages - 1) % 256 ≡ size
    → (c : ℕ) × (request_message id seq messages
        ≡ some (80 ∷ bytes_16 c ++ (size ∷ bytes_32 id ++ (bytes_16 seq ++ messages))))
      × (c < 2 ^ 16)
      × (cktp_checksum 3 (80 ∷ bytes_16 c ++ (size ∷ bytes_32 id ++ (bytes_16 seq ++ messages)))
          ≡ some c)
request_lem size id seq messages small is_size =
    let fields : List ℕ = size ∷ bytes_32 id ++ (bytes_16 seq ++ messages) in
    let (c, is_c, low) = cktp_calculate_checksum-some fields (length fields) (omega arith) in
    let sum : (x y z : ℕ) → cktp_checksum 3 (x ∷ y ∷ z ∷ fields) ≡ some c =
      λ x y z. sum_behind x y z fields (omega arith) ∙ is_c in
    (c, with_sum size id seq c messages is_size (sum 80 0 0), low, sum 80 (c % 256) (c / 256 % 256))

pub reply_lem :
    (out : List ℕ)
    → length out < 2 ^ 16
    → (r : ℕ) × (r < 2 ^ 16)
      × (cktp_checksum 2 (0 ∷ 0 ∷ out) ≡ some r)
      × (cktp_checksum 2 (bytes_16 r ++ out) ≡ some r)
reply_lem out small =
    let (r, is_r, low) = cktp_calculate_checksum-some out (length out) (omega arith) in
    (r, low, sum_reply 0 0 out small ∙ is_r, sum_reply (r % 256) (r / 256 % 256) out small ∙ is_r)
