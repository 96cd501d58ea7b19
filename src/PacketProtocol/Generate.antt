-- ===== src/PacketProtocol/Generate.antt =====
-- The generators of src/packet_protocol.c: the data that they write over that of the packet.
use reqrypt.Common.{
  ltb, leb, ◌==◌, if◌then◌else◌, length, get_or, drop, sub64, codes, ℕ, zero, suc, ◌+◌, ◌-◌, ◌/◌,
  ◌%◌, Bool, true, not, ◌&&◌, List, [], ◌∷◌, ◌++◌,
}
use reqrypt.Common.Outcome.{Outcome, ok, fault}
use reqrypt.Random.{RandState, rand_init, rand_uint32}
use reqrypt.PacketProtocol.Writer.{
  Writer, put_text, ◌then_write◌, with_rand, skip, if_room, random_text,
}

abbrev pub get_str : List ℕ
get_str = codes "GET /"

abbrev pub uri_str : List ℕ
uri_str = codes "abcdefghijklmnopqrstuvwxyzABCDEFGHIJKLMNOPQRSTUVWXYZ1234567890-_///"

abbrev pub end_uri_str : List ℕ
end_uri_str = codes " HTTP/1.1" ++ (13 ∷ 10 ∷ codes "Host: ")

abbrev pub host_str : List ℕ
host_str = codes "abcdefghijklmnopqrstuvwxyz1234567890-."

abbrev line_end : List ℕ
line_end = 13 ∷ 10 ∷ []

abbrev end_host_str : List ℕ
end_host_str = codes ".com" ++ line_end

abbrev pub header_str : List ℕ
header_str = codes "abcdefhijklmnopqrstuvwxyz-"

abbrev header_val_str : List ℕ
header_val_str =
    codes "abcdefhijklmnopqrstuvwxyzABCDEFHIJKLMNOPQRSTUVWXYZ1234567890"
    ++ (codes "!@#$%^&*()-_=+/?.>,<~;:'" ++ (34 ∷ 32 ∷ []))

abbrev toupper : ℕ → ℕ
toupper c = if leb 97 c && leb c 122 then c - 32 else c

-- The character of a header's name: the first one, and each one behind a dash, is a capital.
abbrev pub header_char : Bool → ℕ → ℕ
header_char upper c =
    let c' = if upper && c == 45 then 88 else c in if upper then toupper c' else c'

abbrev pub header_next : Bool → ℕ → Bool
header_next upper c = not upper && c == 45

-- The loop that writes the name, `n` characters of it.
unfoldable pub header_name : ℕ → Bool → Writer
unfolding skip if_room ◌then_write◌ with_rand put_text
header_name zero upper = skip
header_name (suc n) upper = if_room (
    with_rand (λ x.
      let c = get_or header_str (x % length header_str) 0 in
      put_text (header_char upper c ∷ []) then_write header_name n (header_next upper c)))

unfoldable pub one_header : Writer
unfolding header_name random_text put_text ◌then_write◌ with_rand
one_header =
    with_rand (λ x. header_name (4 + x % 16) true)
    then_write put_text (codes ": ")
    then_write with_rand (λ x. random_text header_val_str (8 + x % 56))
    then_write put_text line_end

unfoldable pub some_headers : ℕ → Writer
unfolding one_header if_room skip ◌then_write◌
some_headers zero = skip
some_headers (suc n) = if_room (one_header then_write some_headers n)

-- One round of the outer loop, behind "GET /".
unfoldable pub request_rest : Writer
unfolding some_headers random_text put_text ◌then_write◌ with_rand
request_rest =
    with_rand (λ x. random_text uri_str (x % 128))
    then_write put_text end_uri_str
    then_write with_rand (λ x. random_text host_str (3 + x % 37))
    then_write put_text end_host_str
    then_write with_rand (λ x. some_headers (x % 4))
    then_write put_text line_end

-- One round at the position `i`: the test `i < sizeof(get_str)-1` is true at the start only.
unfoldable pub one_request : ℕ → Writer
unfolding request_rest if_room put_text ◌then_write◌
one_request i = put_text (drop i get_str) then_write if_room request_rest

-- The outer loop; each round writes a byte at least.
unfoldable pub requests : ℕ → ℕ → Writer
unfolding one_request ◌then_write◌ skip
requests zero i room = skip room
requests (suc fuel) i zero = skip zero
requests (suc fuel) i (suc room) = λ rng.
    let (bytes, rng1) = one_request i (suc room) rng in
    let (more, rng2) = requests fuel (i + length bytes) (suc room - length bytes) rng1 in
    (bytes ++ more, rng2)

-- `hash` seeds the generator; `unset` is what the fresh memory of its block holds.
unfoldable pub http_url_generate : ℕ → ℕ → ℕ → List ℕ
unfolding requests rand_init
http_url_generate data_len hash unset = (requests data_len 0 data_len (rand_init hash unset)).0

abbrev pub label_str : List ℕ
label_str = codes "abcdefghijklmnopqrstuvwxyz-"

-- The length of the next label when `left` bytes are left.
unfoldable pub label_length : ℕ → ℕ → ℕ
label_length x left =
    let label_len = 1 + x % 31 in if leb (left + 1) (label_len + 1) then left - 1 else label_len

-- The inner loop: there is no test of the room in it.
unfoldable pub label_bytes : ℕ → RandState → List ℕ × RandState
unfolding rand_uint32
label_bytes zero rng = ([], rng)
label_bytes (suc n) rng =
    let (x, rng1) = rand_uint32 rng in
    let (bytes, rng2) = label_bytes n rng1 in
    (get_or label_str (x % length label_str) 0 ∷ bytes, rng2)

-- The outer loop with `left` bytes of `labels_size` to write; each round writes one at least.
unfoldable pub labels : ℕ → ℕ → RandState → List ℕ × RandState
unfolding label_length label_bytes
labels zero left rng = ([], rng)
labels (suc fuel) zero rng = ([], rng)
labels (suc fuel) (suc left) rng =
    let (x, rng1) = rand_uint32 rng in
    let label_len = label_length x (suc left) in
    let (bytes, rng2) = label_bytes label_len rng1 in
    let (more, rng3) = labels fuel (left - label_len) rng2 in (label_len ∷ bytes ++ more, rng3)

-- The 12 bytes of `struct dnshdr`: a number, the flags 0x0100 and one question.
unfoldable pub dns_header : ℕ → List ℕ
dns_header id = id % 256 ∷ id / 256 % 256 ∷ 1 ∷ 0 ∷ 0 ∷ 1 ∷ 0 ∷ 0 ∷ 0 ∷ 0 ∷ 0 ∷ 0 ∷ []

-- The end of the name, and the type and class of the question.
abbrev pub dns_tail : List ℕ
dns_tail = 0 ∷ 0 ∷ 1 ∷ 0 ∷ 1 ∷ []

-- `bytes` is the data before; a write behind the data is `fault`.
unfoldable pub dns_generate : List ℕ → ℕ → ℕ → Outcome (List ℕ)
unfolding dns_header labels rand_init
dns_generate bytes hash unset =
    if ltb (length bytes) 12
    then ok bytes
    else let labels_size = sub64 (sub64 (length bytes) 12) 5 in
      let (id, rng) = rand_uint32 (rand_init hash unset) in
      if ltb (length bytes) labels_size
      then fault
      else ok (dns_header id ++ (labels labels_size labels_size rng).0 ++ dns_tail)
