-- ===== src/PacketDispatch.antt =====
-- src/packet_dispatch.c: how a packet is split into a fragment that is tunneled and one that takes
-- the normal route. A packet is the list of its bytes, from the Ethernet header on.
pub mod Pieces
pub mod Stamp
pub mod Network
pub mod Transport
pub mod Address
pub mod Dispatch
pub mod Cut
pub mod Examples
use reqrypt.Common.{
  ltb, leb, ◌==◌, if◌then◌else◌, ==_iff, Bool-cases, Option-cases, bind-ne-none, bind-eq-some,
  if-ne-none, length, get_elem?, get_or, set, take, drop, replicate, All, length-append, length-set,
  length-take, length-drop, length-replicate, get_elem?-set_self, get_elem?-set_ne,
  get_elem?-eq-get_or, take-append-drop, take-append, drop-append, drop-drop, get_elem?-ne-none,
  drop-set_lt, drop-set_ge, get_elem?-drop, get_elem?-take, get_elem?-append_left, drop-take,
  take_all, drop-append_of_eq, get_elem?-some, get_elem?-append_right, append-assoc_cons,
  get_elem?-inside, get_elem?-replicate, replicate-same, u8, u16, u32, u64, sub64, IsByte, IsBytes,
  ntohs, htons, u8_at, u16_at, u32_at, bytes_at, put_u8, put_u16, get_elem?-IsByte, u16_at-lt,
  drop-IsBytes, take-IsBytes, append-IsBytes, all_bytes, all_bytes-IsBytes, ℕ, zero, suc, ◌+◌, ◌-◌,
  ◌*◌, ◌/◌, ◌%◌, ◌^◌, ◌≤◌, ◌<◌, min, bit_and, bit_or, bit_xor, ◌≡◌, refl, sym, ap, ◌∙◌, ◌≢◌, ◌↔◌,
  ◌⊎◌, inl, inr, Bool, true, false, not, ◌&&◌, ◌||◌, Option, none, some, List, [], ◌∷◌, ◌++◌, map,
  arith,
}
use reqrypt.Common.Outcome.{Outcome, ok, fault, read, ◌>>=◌}
use reqrypt.Packet.{Headers, packet_init, sizeof_ethhdr}
use reqrypt.Checksum.{ip_checksum, tcp_checksum}

-- `IP_MF` of src/socket.h.
abbrev pub ip_mf : ℕ
ip_mf = 0x2000

-- `fragments[0]`, `fragments[1]` (`none` is NULL), and by how much `buff` has advanced.
pub record Fragments : Type 0 where
  pub first : List ℕ
  pub second : Option (List ℕ)
  pub used : ℕ

-- The packet as it is, where there is nothing to split off.
abbrev pub whole : List ℕ → Fragments
whole packet = record { first = packet; second = none; used = 0 }

-- Assignments to the fields of the IP header behind the Ethernet header.
abbrev pub set_tot_len : List ℕ → ℕ → List ℕ
set_tot_len p n = put_u16 p 16 (htons (u16 n))

abbrev pub set_frag_off : List ℕ → ℕ → List ℕ
set_frag_off p n = put_u16 p 20 (htons (u16 n))

-- `check = 0; check = ip_checksum(ip_header);`
pub write_check : List ℕ → Outcome (List ℕ)
write_check p = do c ← read (ip_checksum (drop sizeof_ethhdr (put_u16 p 24 0))); ok (put_u16 p 24 c)

-- `p->field` behind a pointer that may be NULL.
abbrev pub deref : Option ℕ → Outcome ℕ
deref none = fault
deref (some p) = ok p

-- Both fragments of `ip_fragment`: `split` counts from the IP header, `data_split` from its end.
pub ip_pieces : List ℕ → ℕ → ℕ → ℕ → ℕ → Outcome Fragments
ip_pieces packet ip_size tot_len split data_split = do
  copy_1 ← read (bytes_at packet 0 (split + sizeof_ethhdr))
  first ← write_check (set_frag_off (set_tot_len copy_1 split) ip_mf)
  let header_size_2 = sizeof_ethhdr + ip_size
  let data_size_2 = tot_len - split
  head_2 ← read (bytes_at packet 0 header_size_2)
  tail_2 ← read (bytes_at packet (split + sizeof_ethhdr) data_size_2)
  second ← write_check (
      set_frag_off (set_tot_len (head_2 ++ tail_2) (header_size_2 + data_size_2 - sizeof_ethhdr))
        (data_split / 8))
  ok (record {
    first = first;
    second = some second;
    used = (split + sizeof_ethhdr) + (header_size_2 + data_size_2);
  })

pub ip_fragment : List ℕ → ℕ → Outcome Fragments
ip_fragment packet split = do
  h ← packet_init packet true
  elim h.ip_header [
    | none ↦ ok (whole packet)
    | some i ↦ do
      t ← deref h.tcp_header
      off ← read (u8_at packet (t + 12))
      first ← read (u8_at packet i)
      tot_len ← read (u16_at packet (i + 2))
      let with_tcp = split + off / 16 * 4
      let data_split = with_tcp + (8 - with_tcp % 8)
      let end = data_split + first % 16 * 4
      if leb (ntohs tot_len) end
          then ok (whole packet)
          else ip_pieces packet (first % 16 * 4) (ntohs tot_len) end data_split
  ]

-- `check = 0; check = tcp_checksum(ip_header);` for the TCP header at `tcp`.
pub write_tcp_check : List ℕ → ℕ → Outcome (List ℕ)
write_tcp_check p tcp = do
  c ← read (tcp_checksum (drop sizeof_ethhdr (put_u16 p (tcp + 16) 0)))
  ok (put_u16 p (tcp + 16) c)

-- `ntohl` of the field at an offset, and an assignment of `htonl` of a value.
abbrev pub ntohl_at : List ℕ → ℕ → Outcome ℕ
ntohl_at p off = do
  high ← read (u16_at p off)
  low ← read (u16_at p (off + 2))
  ok (ntohs high * 2 ^ 16 + ntohs low)

abbrev pub set_htonl : List ℕ → ℕ → ℕ → List ℕ
set_htonl p off n = put_u16 (put_u16 p off (htons (u16 (n / 2 ^ 16)))) (off + 2) (htons (u16 n))

-- The flags without PSH (bit 3) and FIN (bit 0).
abbrev pub clear_psh_fin : ℕ → ℕ
clear_psh_fin flags = flags - flags % 2 - flags / 8 % 2 * 8

-- The first fragment of `tcp_fragment`, with the window closed.
pub tcp_first : List ℕ → ℕ → ℕ → Outcome (List ℕ)
unfolding write_check write_tcp_check
tcp_first packet header_size split = do
  copy ← read (bytes_at packet 0 (header_size + split))
  h ← packet_init copy true
  tcp ← deref h.tcp_header
  p ← write_check (set_tot_len copy (header_size + split - sizeof_ethhdr))
  flags ← read (u8_at p (tcp + 13))
  write_tcp_check (put_u16 (put_u8 p (tcp + 13) (clear_psh_fin flags)) (tcp + 14) 0) tcp

-- The second fragment; `seq` is the sequence number of the packet.
pub tcp_second : List ℕ → Headers → ℕ → ℕ → Outcome (List ℕ)
unfolding write_check write_tcp_check
tcp_second packet headers split seq = do
  head ← read (bytes_at packet 0 headers.header_size)
  start ← deref headers.start
  tail ← read (bytes_at packet (start + split) (headers.data_size - split))
  h ← packet_init (head ++ tail) true
  tcp ← deref h.tcp_header
  tot_len ← read (u16_at (head ++ tail) 16)
  p ← write_check (set_tot_len (head ++ tail) (sub64 (ntohs tot_len) split))
  write_tcp_check (set_htonl p (tcp + 4) (u32 (seq + split))) tcp

pub tcp_fragment : List ℕ → ℕ → Outcome Fragments
unfolding tcp_first tcp_second
tcp_fragment packet split = do
  h ← packet_init packet true
  if leb h.data_size split then ok (whole packet) else (do
    first ← tcp_first packet h.header_size split
    tcp ← deref h.tcp_header
    seq ← ntohl_at packet (tcp + 4)
    second ← tcp_second packet h split seq
    ok (record {
      first = first;
      second = some second;
      used = (split + h.header_size) + (h.header_size + h.data_size - split);
    }))

-- An address of a private network; it is in network order.
pub is_ipv4_local_address : ℕ → Bool
is_ipv4_local_address addr =
    let a = u8 addr in
    let b = u8 (addr / 2 ^ 8) in
    a == 10 || ((a == 172 && (leb 16 b && leb b 31)) || (a == 192 && b == 168))

-- The hash of a packet, folded to 8 bits.
pub split_hash : ℕ → ℕ
split_hash packet_hash =
    let h32 = bit_xor (u32 packet_hash) (u32 (packet_hash / 2 ^ 32)) in
    let h16 = bit_xor (u16 h32) (u16 (h32 / 2 ^ 16)) in bit_xor (u8 h16) (u8 (h16 / 2 ^ 8))
