-- ===== src/Checksum/Transport.antt =====
-- The TCP and UDP checksums of src/checksum.c, over the pseudo header and the segment.
use reqrypt.Common.{
  length, get_elem?, take, drop, length-append, length-take, length-drop, drop-drop, u16, IsBytes,
  ntohs, htons, u16_at, drop-IsBytes, take-IsBytes, append-IsBytes, ℕ, ◌+◌, ◌*◌, ◌/◌, ◌%◌, ◌^◌, ◌≤◌,
  ◌<◌, ◌≡◌, ◌∙◌, ◌≢◌, some, List, [], ◌∷◌, ◌++◌, arith,
}
use reqrypt.Checksum.{
  checksum, pseudo_header, tcp_udp_checksum, tcp_checksum, udp_checksum, ipproto_tcp, ipproto_udp,
}
use reqrypt.Checksum.Rfc1071.{word_sum, byte_sum, checksum_complement}

-- A whole IPv4 packet with a header of `ihl` words and a segment of `size` bytes.
pub record IsSegment (ihl size : ℕ) (ip : List ℕ) : Type 0 where
  pub bytes : IsBytes ip
  pub first : (b : ℕ) × (get_elem? ip 0 ≡ some b) × (b % 16 ≡ ihl)
  pub total : (t : ℕ) × (u16_at ip 2 ≡ some t) × (ntohs t ≡ ihl * 4 + size)
  pub long : 5 ≤ ihl
  pub fits : ihl * 4 + size ≤ length ip
  pub short : ihl * 4 + size < 2 ^ 16

-- What the checksum of a segment covers, as RFC 793 and RFC 768 list it: both addresses, a zero with the
-- protocol, the length with its high byte first, and the segment.
abbrev pub covered_sum : ℕ → List ℕ → ℕ → ℕ → ℕ
covered_sum protocol ip ihl size =
    word_sum 4 (drop 12 ip)
    + 256 * protocol
    + (size / 256 + 256 * (size % 256))
    + byte_sum (drop (ihl * 4) ip) size

length_four : (n : ℕ) (xs : List ℕ) → n + 4 ≤ length xs → length (take 4 (drop n xs)) ≡ 4
length_four n xs h = omega (arith, length-take 4 (drop n xs), length-drop n xs)

-- The words of the pseudo header, from the addresses `xs` of a packet on.
pseudo_words :
    (xs : List ℕ) (protocol size : ℕ)
    → 8 ≤ length xs
    → size < 2 ^ 16
    → word_sum 6 (pseudo_header (take 4 xs) (take 4 (drop 4 xs)) protocol size)
      ≡ word_sum 4 xs + 256 * protocol + (size / 256 + 256 * (size % 256))
unfolding pseudo_header
pseudo_words (a ∷ b ∷ c ∷ d ∷ e ∷ f ∷ g ∷ k ∷ xs) protocol size long small = omega arith
pseudo_words (a ∷ b ∷ c ∷ d ∷ e ∷ f ∷ g ∷ []) protocol size long small = absurd (omega arith)
pseudo_words (a ∷ b ∷ c ∷ d ∷ e ∷ f ∷ []) protocol size long small = absurd (omega arith)
pseudo_words (a ∷ b ∷ c ∷ d ∷ e ∷ []) protocol size long small = absurd (omega arith)
pseudo_words (a ∷ b ∷ c ∷ d ∷ []) protocol size long small = absurd (omega arith)
pseudo_words (a ∷ b ∷ c ∷ []) protocol size long small = absurd (omega arith)
pseudo_words (a ∷ b ∷ []) protocol size long small = absurd (omega arith)
pseudo_words (a ∷ []) protocol size long small = absurd (omega arith)
pseudo_words [] protocol size long small = absurd (omega arith)

module _ (ihl size : ℕ) (ip : List ℕ) (h : IsSegment ihl size ip) where
  pseudo-IsBytes :
      (protocol : ℕ)
      → protocol < 256
      → IsBytes (pseudo_header (take 4 (drop 12 ip)) (take 4 (drop 16 ip)) protocol size)
  unfolding pseudo_header
  pseudo-IsBytes protocol hp =
      append-IsBytes _ _ (take-IsBytes 4 _ (drop-IsBytes 12 ip h.bytes))
        (append-IsBytes _ _ (take-IsBytes 4 _ (drop-IsBytes 16 ip h.bytes)) (omega arith))

  length-pseudo :
      (protocol : ℕ)
      → length (pseudo_header (take 4 (drop 12 ip)) (take 4 (drop 16 ip)) protocol size) ≡ 12
  unfolding pseudo_header
  length-pseudo protocol = omega (
    arith,
    length-append (take 4 (drop 12 ip)) (
        take 4 (drop 16 ip)
        ++ (0 ∷ protocol ∷ htons (u16 size) % 256 ∷ htons (u16 size) / 256 ∷ [])),
    length-append (take 4 (drop 16 ip))
        (0 ∷ protocol ∷ htons (u16 size) % 256 ∷ htons (u16 size) / 256 ∷ []),
    length_four 12 ip (omega (arith, h.long, h.fits)),
    length_four 16 ip (omega (arith, h.long, h.fits)),
  )

  tcp_udp_checksum-eq :
      tcp_udp_checksum ip
      ≡ checksum
          (pseudo_header (take 4 (drop 12 ip)) (take 4 (drop 16 ip)) ipproto_tcp size)
          12
          (drop (ihl * 4) ip)
          size
  unfolding tcp_udp_checksum
  tcp_udp_checksum-eq =
      let (b, read, low) = h.first in
      let (t, read_t, tot) = h.total in ground (arith, h.long, h.fits, h.short)

  pseudo_sum :
      word_sum 6 (pseudo_header (take 4 (drop 12 ip)) (take 4 (drop 16 ip)) ipproto_tcp size)
      ≡ word_sum 4 (drop 12 ip) + 256 * 6 + (size / 256 + 256 * (size % 256))
  pseudo_sum =
      let second : drop 4 (drop 12 ip) ≡ drop 16 ip = drop-drop 12 4 ip in
      rw second at (
        pseudo_words (drop 12 ip) ipproto_tcp size
          (omega (arith, h.long, h.fits, length-drop 12 ip)) (omega (arith, h.short)))

  -- The code's checksum completes the sum of the segment and of a pseudo header for TCP.
  completes :
      (r : ℕ) × (tcp_udp_checksum ip ≡ some r)
      × (r < 2 ^ 16)
      × ((covered_sum ipproto_tcp ip ihl size + r) % 65535 ≡ 0)
  completes =
      let (r, returns, below, multiple, _) =
        checksum_complement
          (pseudo_header (take 4 (drop 12 ip)) (take 4 (drop 16 ip)) ipproto_tcp size) 12
          (drop (ihl * 4) ip) size (pseudo-IsBytes ipproto_tcp (omega arith))
          (drop-IsBytes (ihl * 4) ip h.bytes) (rw (length-pseudo ipproto_tcp) (omega arith))
          (rw length-drop (omega (arith, h.fits))) (omega arith) (omega (arith, h.short)) in
      (r, tcp_udp_checksum-eq ∙ returns, below, rw pseudo_sum at multiple)

  -- On a whole IPv4 packet with a TCP segment `tcp_checksum` returns a 16-bit value that completes
  -- the sum over both addresses, protocol 6, the segment's length in network order and the segment
  -- to a multiple of 2^16 - 1, as RFC 793 asks.
  pub tcp_checksum_complement :
      (r : ℕ) × (tcp_checksum ip ≡ some r)
      × (r < 2 ^ 16)
      × ((covered_sum ipproto_tcp ip ihl size + r) % 65535 ≡ 0)
  unfolding tcp_checksum
  tcp_checksum_complement = completes

  -- On a whole IPv4 packet with a UDP datagram `udp_checksum` never returns the checksum that
  -- RFC 768 asks for: the sum over both addresses, protocol 17, the datagram's length in network order
  -- and the datagram is not completed to a multiple of 2^16 - 1.
  pub udp_checksum_mismatch :
      (r : ℕ) × (udp_checksum ip ≡ some r) × ((covered_sum ipproto_udp ip ihl size + r) % 65535 ≢ 0)
  unfolding udp_checksum
  udp_checksum_mismatch =
      let (r, returns, below, multiple) = completes in (r, returns, λ e. omega arith)
