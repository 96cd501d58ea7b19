-- ===== src/CktpServer/Forward.antt =====
-- What the server of src/cktp_server.c forwards.
use reqrypt.Common.{
  ltb, ◌==◌, if◌then◌else◌, if-eq, length, get_elem?, u16, IsByte, ntohs, htons, u8_at, u16_at,
  u32_at, ℕ, ◌+◌, ◌*◌, ◌/◌, ◌%◌, ◌^◌, ◌≤◌, ◌≡◌, refl, sym, ap, ◌∙◌, ◌≢◌, ◌↔◌, ◌⊎◌, inl, inr, Bool,
  true, false, not, ◌||◌, Option, none, some, List, arith,
}
use reqrypt.Common.Outcome.{ok, read, bind-eq-ok, read-eq-ok, ◌>>=◌}
use reqrypt.CktpServer.{
  ServerTunnel, nothing, forwarded, reflected, answered, is_valid_transport, cktp_is_valid_packet,
  cktp_is_ipv4_addr_public, cktp_reflect, cktp_request, cktp_add_transport_header, handle_packet,
}

-- A destination that the server refuses, by its first two octets.
abbrev pub IsRefused : ℕ → ℕ → ℕ → ℕ → Type 0
IsRefused a b c d =
    (a ≡ 0)
    ⊎ (a ≡ 10)
    ⊎ (a ≡ 127)
    ⊎ ((a ≡ 172) × (16 ≤ b) × (b ≤ 31))
    ⊎ ((a ≡ 192) × (b ≡ 168))
    ⊎ ((a ≡ 255) × (b ≡ 255) × (c ≡ 255) × (d ≡ 255))

-- The address with the octets `a`, `b`, `c` and `d` is public for the server exactly when it is not
-- in 0/8, 10/8, 127/8, 172.16/12 or 192.168/16 and is not 255.255.255.255.
pub cktp_is_ipv4_addr_public_iff :
    (a b c d : ℕ)
    → IsByte a
    → IsByte b
    → IsByte c
    → IsByte d
    → (cktp_is_ipv4_addr_public (a + 256 * b + 2 ^ 16 * (c + 256 * d)) ≡ false) ↔ IsRefused a b c d
unfolding cktp_is_ipv4_addr_public
cktp_is_ipv4_addr_public_iff a b c d ha hb hc hd =
    let first_octet : (a + 256 * b + 2 ^ 16 * (c + 256 * d)) % 2 ^ 8 ≡ a = omega arith in
    let second_octet : (a + 256 * b + 2 ^ 16 * (c + 256 * d)) / 2 ^ 8 % 2 ^ 8 ≡ b = omega arith in
    rw (first_octet, second_octet) (ground arith, ground arith)

-- A whole TCP header to port 80, or a whole UDP header to port 53.
abbrev pub IsWebOrDns : List ℕ → ℕ → ℕ → Type 0
IsWebOrDns payload protocol next =
    ((protocol ≡ 6) × (next + 20 ≤ length payload) × (u16_at payload (next + 2) ≡ some (htons 80)))
    ⊎ ((protocol ≡ 17)
        × (next + 8 ≤ length payload)
        × (u16_at payload (next + 2) ≡ some (htons 53)))

-- A packet that the server may send on: it has the sender's address, its length and at least the
-- 20 bytes of an IPv4 header, is TCP to port 80 or UDP to port 53, and its destination is public.
pub record IsForwardable (payload : List ℕ) (source_addr daddr : ℕ) : Type 0 where
  pub total : (t : ℕ) × (u16_at payload 2 ≡ some t) × (u16 (length payload) ≡ ntohs t)
  pub sender : u32_at payload 12 ≡ some source_addr
  pub transport :
      (b : ℕ) × (protocol : ℕ) × (get_elem? payload 0 ≡ some b)
      × (5 ≤ b % 16)
      × (get_elem? payload 9 ≡ some protocol)
      × IsWebOrDns payload protocol (b % 16 * 4)
  pub destination : u32_at payload 16 ≡ some daddr
  pub is_public : cktp_is_ipv4_addr_public daddr ≡ true

port_read :
    (payload : List ℕ) (off port : ℕ)
    → (do dest ← read (u16_at payload off); ok (dest == port)) ≡ ok true
    → u16_at payload off ≡ some port
port_read payload off port h =
    let (dest, is_read, same) = bind-eq-ok (read (u16_at payload off)) _ h in
    let found = read-eq-ok (u16_at payload off) is_read in
    let test : (dest == port) ≡ true = cc in
    let eq : dest ≡ port = ground arith in found ∙ ap (λ (n : ℕ). some n) eq

is_valid_transport-IsWebOrDns :
    (payload : List ℕ) (protocol next : ℕ)
    → is_valid_transport payload protocol next ≡ ok true
    → IsWebOrDns payload protocol next
unfolding is_valid_transport
is_valid_transport-IsWebOrDns payload protocol next h = elim (if-eq (protocol == 6) h) [
  | inl (tcp, k) ↦ elim (if-eq (ltb (length payload) (next + 20)) k) [
    | inl (short, e) ↦ absurd (cc)
    | inr (long, e) ↦ inl (ground arith, ground arith, port_read payload (next + 2) (htons 80) e)
  ]
  | inr (other, k) ↦ elim (if-eq (protocol == 17) k) [
    | inl (udp, k') ↦ elim (if-eq (ltb (length payload) (next + 8)) k') [
      | inl (short, e) ↦ absurd (cc)
      | inr (long, e) ↦ inr (ground arith, ground arith, port_read payload (next + 2) (htons 53) e)
    ]
    | inr (neither, e) ↦ absurd (cc)
  ]
]

ok_injective {ℓ} : {A : Type ℓ} {a b : A} → ok a ≡ ok b → a ≡ b
ok_injective h = cc

some_same {ℓ} : {A : Type ℓ} {a b : A} → some a ≡ some b → a ≡ b
some_same h = cc

false_ne_true : false ≢ true
false_ne_true h = cc

-- The first test of `cktp_is_valid_packet`.
first_test :
    (a b c : Bool) → (not a || (not b || c)) ≡ false → (a ≡ true) × (b ≡ true) × (c ≡ false)
first_test true true false h = (refl, refl, refl)
first_test true true true h = absurd (cc)
first_test true false c h = absurd (cc)
first_test false b c h = absurd (cc)

and_public : (t : Bool) {p : Bool} → (if t then p else false) ≡ true → (t ≡ true) × (p ≡ true)
and_public true h = (refl, h)
and_public false h = absurd (cc)

-- The packet behind the first test.
fields-IsForwardable :
    (payload : List ℕ) (source_addr daddr t saddr b : ℕ)
    → u32_at payload 16 ≡ some daddr
    → u16_at payload 2 ≡ some t
    → u32_at payload 12 ≡ some saddr
    → get_elem? payload 0 ≡ some b
    → (u16 (length payload) == ntohs t) ≡ true
    → (saddr == source_addr) ≡ true
    → ltb (b % 16) 5 ≡ false
    → (do
      protocol ← read (u8_at payload 9)
      transport ← is_valid_transport payload protocol (b % 16 * 4)
      daddr' ← read (u32_at payload 16)
      ok (if transport then cktp_is_ipv4_addr_public daddr' else false))
      ≡ ok true
    → IsForwardable payload source_addr daddr
fields-IsForwardable payload source_addr daddr t saddr b at_daddr at_t at_saddr at_b size same long
      h =
    let (protocol, is_protocol, h1) = bind-eq-ok (read (u8_at payload 9)) _ h in
    let (transport, is_valid, h2) =
      bind-eq-ok (is_valid_transport payload protocol (b % 16 * 4)) _ h1 in
    let (daddr', is_daddr, h3) = bind-eq-ok (read (u32_at payload 16)) _ h2 in
    let found = read-eq-ok (u32_at payload 16) is_daddr in
    let (allowed, is_public) = and_public transport (ok_injective h3) in
    let address : daddr' ≡ daddr = some_same (sym found ∙ at_daddr) in
    let sender : saddr ≡ source_addr = ground arith in
    record {
      total = (t, at_t, ground arith);
      sender = at_saddr ∙ ap (λ (n : ℕ). some n) sender;
      transport = (
        b,
        protocol,
        at_b,
        ground arith,
        read-eq-ok (u8_at payload 9) is_protocol,
        is_valid_transport-IsWebOrDns payload protocol (b % 16 * 4)
            (is_valid ∙ ap (λ (x : Bool). ok x) allowed),
      );
      destination = at_daddr;
      is_public = ap cktp_is_ipv4_addr_public (sym address) ∙ is_public;
    }

pub cktp_is_valid_packet-IsForwardable :
    (payload : List ℕ) (source_addr daddr : ℕ)
    → u32_at payload 16 ≡ some daddr
    → cktp_is_valid_packet payload source_addr ≡ ok true
    → IsForwardable payload source_addr daddr
unfolding cktp_is_valid_packet
cktp_is_valid_packet-IsForwardable payload source_addr daddr at_daddr h =
    let (t, is_t, h1) = bind-eq-ok (read (u16_at payload 2)) _ h in
    let (saddr, is_saddr, h2) = bind-eq-ok (read (u32_at payload 12)) _ h1 in
    let (b, is_b, h3) = bind-eq-ok (read (u8_at payload 0)) _ h2 in
    elim (if-eq
      (not (u16 (length payload) == ntohs t) || (not (saddr == source_addr) || ltb (b % 16) 5))
      h3) [
        | inl (refused, e) ↦ absurd (false_ne_true (ok_injective e))
        | inr (passed, e) ↦
            let (size, same, long) = first_test _ _ _ passed in
            fields-IsForwardable payload source_addr daddr t saddr b at_daddr
              (read-eq-ok (u16_at payload 2) is_t) (read-eq-ok (u32_at payload 12) is_saddr)
              (read-eq-ok (u8_at payload 0) is_b) size same long e
      ]

reflect_only :
    (r : Option (List ℕ)) (daddr : ℕ) (bytes : List ℕ)
    → elim r [ none ↦ ok nothing | some icmp ↦ ok (reflected icmp) ] ≢ ok (forwarded daddr bytes)
reflect_only none daddr bytes h = absurd (cc)
reflect_only (some icmp) daddr bytes h = absurd (cc)

answer_only :
    (tunnel : ServerTunnel) (info : ℕ) (r : Option (List ℕ)) (daddr : ℕ) (bytes : List ℕ)
    → elim r [
      | none ↦ ok nothing
      | some reply ↦ (do packet ← cktp_add_transport_header tunnel reply info; ok (answered packet))
    ]
      ≢ ok (forwarded daddr bytes)
answer_only tunnel info none daddr bytes h = absurd (cc)
answer_only tunnel info (some reply) daddr bytes h =
    let (packet, is_packet, e) = bind-eq-ok (cktp_add_transport_header tunnel reply info) _ h in
    absurd (cc)

valid_only :
    (payload : List ℕ) (valid : Bool) (source_addr daddr : ℕ) (bytes : List ℕ)
    → cktp_is_valid_packet payload source_addr ≡ ok valid
    → (if valid then (do d ← read (u32_at payload 16); ok (forwarded d payload)) else ok nothing)
      ≡ ok (forwarded daddr bytes)
    → (bytes ≡ payload) × IsForwardable payload source_addr daddr
valid_only payload false source_addr daddr bytes is_valid h = absurd (cc)
valid_only payload true source_addr daddr bytes is_valid h =
    let (d, is_d, e) = bind-eq-ok (read (u32_at payload 16)) _ h in
    let same_addr : d ≡ daddr = cc in
    let same_bytes : bytes ≡ payload = cc in
    (
      same_bytes,
      cktp_is_valid_packet-IsForwardable payload source_addr daddr
          (read-eq-ok (u32_at payload 16) is_d ∙ ap (λ (n : ℕ). some n) same_addr) is_valid,
    )

-- Whatever the packet, the server only sends on the payload as it is, and only one that has the
-- address of the sender and its length, is TCP to port 80 or UDP to port 53 with a whole header, and
-- goes to a public address, which is where it is sent.
pub handle_packet-IsForwardable :
    (tunnel : ServerTunnel) (info : ℕ) (payload : List ℕ) (source_addr daddr : ℕ) (bytes : List ℕ)
    → handle_packet tunnel info payload source_addr ≡ ok (forwarded daddr bytes)
    → (bytes ≡ payload) × IsForwardable payload source_addr daddr
unfolding handle_packet
handle_packet-IsForwardable tunnel info payload source_addr daddr bytes h =
    let (first, is_first, h1) = bind-eq-ok (read (u8_at payload 0)) _ h in
    elim (if-eq (first / 16 == 3) h1) [
      | inl (reflect, e) ↦
          let (r, is_r, e') = bind-eq-ok (cktp_reflect payload) _ e in
          absurd (reflect_only r daddr bytes e')
      | inr (other, h2) ↦ elim (if-eq (first / 16 == 4) h2) [
        | inl (ipv4, e) ↦
            let (valid, is_valid, e') = bind-eq-ok (cktp_is_valid_packet payload source_addr) _ e in
            valid_only payload valid source_addr daddr bytes is_valid e'
        | inr (no_ipv4, h3) ↦ elim (if-eq (first / 16 == 5) h3) [
          | inl (message, e) ↦
              let (r, is_r, e') = bind-eq-ok (cktp_request tunnel payload source_addr) _ e in
              absurd (answer_only tunnel info r daddr bytes e')
          | inr (no_message, e) ↦ absurd (cc)
        ]
      ]
    ]
