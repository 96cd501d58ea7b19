-- ===== src/PacketDispatch/Address.antt =====
-- The test of addresses in src/packet_dispatch.c and the one in src/packet_filter.c.
use reqrypt.Common.{IsByte, ℕ, ◌+◌, ◌*◌, ◌/◌, ◌%◌, ◌^◌, ◌≤◌, ◌≡◌, ◌↔◌, ◌⊎◌, true, arith}
use reqrypt.PacketFilter.{is_excluded}
use reqrypt.PacketFilter.Handover.{is_excluded_iff}
use reqrypt.PacketDispatch.{is_ipv4_local_address}

-- An address of a private network by its first two octets.
abbrev pub IsPrivate : ℕ → ℕ → Type 0
IsPrivate a b = (a ≡ 10) ⊎ ((a ≡ 172) × (16 ≤ b) × (b ≤ 31)) ⊎ ((a ≡ 192) × (b ≡ 168))

-- An address, given by its octets, is local for `packet_dispatch` exactly when it is of a private
-- network; and the filter excludes it exactly when it is local, or its first octet is 0 or 127.
pub is_ipv4_local_address_iff :
    (a b c d : ℕ)
    → IsByte a
    → IsByte b
    → IsByte c
    → IsByte d
    → ((is_ipv4_local_address (a + 256 * b + 2 ^ 16 * (c + 256 * d)) ≡ true) ↔ IsPrivate a b)
      × ((is_excluded (a + 256 * b + 2 ^ 16 * (c + 256 * d)) ≡ true) ↔ (
          (is_ipv4_local_address (a + 256 * b + 2 ^ 16 * (c + 256 * d)) ≡ true)
          ⊎ (a ≡ 0)
          ⊎ (a ≡ 127)))
unfolding is_ipv4_local_address
is_ipv4_local_address_iff a b c d ha hb hc hd =
    let first_octet : (a + 256 * b + 2 ^ 16 * (c + 256 * d)) % 2 ^ 8 ≡ a = omega arith in
    let second_octet : (a + 256 * b + 2 ^ 16 * (c + 256 * d)) / 2 ^ 8 % 2 ^ 8 ≡ b = omega arith in
    let (to, from) = is_excluded_iff a b c d ha hb hc hd in
    rw (first_octet, second_octet) ((ground arith, ground arith), (ground arith, ground arith))
