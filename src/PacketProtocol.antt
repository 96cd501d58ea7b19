-- ===== src/PacketProtocol.antt =====
-- src/packet_protocol.c: the table of protocols and what they look for in a packet. `beyond` is the
-- byte that lies behind the packet in memory, which the search for a URL may read.
pub mod Writer
pub mod Generate
pub mod Loops
pub mod States
pub mod Search
pub mod Url
pub mod Length
pub mod Labels
pub mod Table
pub mod Names
pub mod Found
pub mod Examples
use reqrypt.Common.{
  ltb, leb, ◌==◌, if◌then◌else◌, ==_iff, Bool-cases, Option-cases, bind-ne-none, bind-eq-some,
  if-ne-none, length, get_elem?, get_or, set, take, drop, replicate, All, length-append, length-set,
  length-take, length-drop, length-replicate, get_elem?-set_self, get_elem?-set_ne,
  get_elem?-eq-get_or, take-append-drop, take-append, drop-append, drop-drop, get_elem?-ne-none,
  drop-set_lt, drop-set_ge, get_elem?-drop, get_elem?-take, get_elem?-append_left, drop-take,
  take_all, drop-append_of_eq, get_elem?-some, get_elem?-append_right, append-assoc_cons,
  get_elem?-inside, get_elem?-replicate, replicate-same, get_elem?-All, take-All, drop-All,
  append-All, take_add, u8, u16, u32, u64, sub64, IsByte, IsBytes, ntohs, htons, u8_at, u16_at,
  u32_at, bytes_at, put_u8, put_u16, get_elem?-IsByte, u16_at-lt, drop-IsBytes, take-IsBytes,
  append-IsBytes, all_bytes, all_bytes-IsBytes, codes, bit_or-digit, bit_and-digit, bit_or_add,
  bit_or_none, bit_or_add_high, bit_and_63, bit_and_one, bit_xor-digit, bit_xor_cancel, value,
  value-lt, value-append, value-zeros, pow-add, pow-mul, value_next_digit, value-split, same_high,
  value-injective, ℕ, zero, suc, ◌+◌, ◌-◌, ◌*◌, ◌/◌, ◌%◌, ◌^◌, ◌≤◌, ◌<◌, min, bit_and, bit_or,
  bit_xor, ◌≡◌, refl, sym, ap, ◌∙◌, ◌≢◌, ◌↔◌, ◌⊎◌, inl, inr, Bool, true, false, not, ◌&&◌, ◌||◌,
  Option, none, some, List, [], ◌∷◌, ◌++◌, map, arith,
}
use reqrypt.Common.Outcome.{Outcome, ok, fault, panicked, read, ◌>>=◌}
use reqrypt.Packet.{packet_init}

abbrev pub host_header : List ℕ
host_header = 13 ∷ 10 ∷ codes "host: "

-- `tolower` in the C locale.
abbrev pub tolower : ℕ → ℕ
tolower c = if leb 65 c && leb c 90 then c + 32 else c

-- The next state on the byte `c`: the number of bytes of the header that have been seen.
unfoldable pub next_state : ℕ → ℕ → ℕ
next_state state c =
    if tolower c == get_or host_header state 0 then state + 1 else if c == 13 then 1 else 0

-- The inner loop from the position `i` on, with the bytes from there: its last state, and the bytes
-- and the position where it stops. `host_header[8]` is the 0 at the end of the string.
unfoldable pub scan : List ℕ → ℕ → ℕ → ℕ × List ℕ × ℕ
unfolding next_state
scan [] i state = (state, [], i)
scan (c ∷ rest) i state =
    let next = scan rest (i + 1) (next_state state c) in
    if state == 8 then (state, c ∷ rest, i) else next

-- After the inner loop: is a header complete, and not followed by the end of the line?
unfoldable pub host_found : ℕ → ℕ → List ℕ → ℕ → Option ℕ → Option ℕ
host_found beyond state rest i found =
    if state == 8 && not (get_or rest 0 beyond == 13) then some i else found

-- The outer loop; each round reads a byte at least.
unfoldable pub scan_all : ℕ → ℕ → List ℕ → ℕ → Option ℕ → Option ℕ
unfolding scan host_found
scan_all beyond zero rest i found = found
scan_all beyond (suc fuel) [] i found = found
scan_all beyond (suc fuel) (c ∷ rest) i found =
    let (state, rest', i') = scan (c ∷ rest) i 0 in
    scan_all beyond fuel rest' i' (host_found beyond state rest' i' found)

-- The loop that looks for the end of the name.
unfoldable pub find_end : List ℕ → ℕ → ℕ
find_end [] i = i
find_end (c ∷ rest) i = let next = find_end rest (i + 1) in if c == 13 then i else next

-- The search of `http_url_match` in the data of a packet: start and end of the name.
unfoldable pub url_of_data : ℕ → List ℕ → Option (ℕ × ℕ)
unfolding scan_all find_end
url_of_data beyond bytes = elim (scan_all beyond (length bytes) bytes 0 none) [
  | none ↦ none
  | some start ↦
      let stop : ℕ = find_end (drop start bytes) start in
      some (start, if get_or bytes stop beyond == 13 then sub64 stop 1 else stop)
]

-- The data of a packet without Ethernet header; `none` is NULL.
unfoldable pub data_of : List ℕ → Outcome (Option (List ℕ))
unfolding packet_init
data_of packet = do
  h ← packet_init packet false
  elim h.start [
    | none ↦ ok none
    | some start ↦ (do bytes ← read (bytes_at packet start h.data_size); ok (some bytes))
  ]

unfoldable pub http_url_match : ℕ → List ℕ → Outcome (Option (ℕ × ℕ))
unfolding data_of url_of_data
http_url_match beyond packet = do
  bytes ← data_of packet
  elim bytes [ none ↦ ok none | some bytes ↦ ok (url_of_data beyond bytes) ]

-- `start` and `end` keep the value 0 that the caller gave them.
unfoldable pub dns_match : List ℕ → Outcome (Option (ℕ × ℕ))
unfolding data_of
dns_match packet = do
  bytes ← data_of packet
  elim bytes [
    | none ↦ ok none
    | some bytes ↦ (if ltb (length bytes) 17 then ok none else ok (some (0, 0)))
  ]
