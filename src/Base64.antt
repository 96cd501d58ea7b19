-- ===== src/Base64.antt =====
-- src/base64.c: the digits and the encoder. A read past the input is `none`.
pub mod Digits
pub mod Overread
pub mod Examples
use reqrypt.Common.{
  ltb, leb, ◌==◌, if◌then◌else◌, ==_iff, Bool-cases, Option-cases, ◌>>=◌, bind-ne-none,
  bind-eq-some, if-ne-none, length, get_elem?, get_or, set, take, drop, replicate, All,
  length-append, length-set, length-take, length-drop, length-replicate, get_elem?-set_self,
  get_elem?-set_ne, get_elem?-eq-get_or, take-append-drop, take-append, drop-append, drop-drop,
  get_elem?-ne-none, drop-set_lt, drop-set_ge, get_elem?-drop, get_elem?-take,
  get_elem?-append_left, drop-take, take_all, drop-append_of_eq, get_elem?-some,
  get_elem?-append_right, append-assoc_cons, get_elem?-inside, get_elem?-replicate, replicate-same,
  u8, u16, u32, u64, sub64, IsByte, IsBytes, ntohs, htons, u8_at, u16_at, u32_at, bytes_at, put_u8,
  put_u16, get_elem?-IsByte, u16_at-lt, drop-IsBytes, take-IsBytes, append-IsBytes, all_bytes,
  all_bytes-IsBytes, ℕ, zero, suc, ◌+◌, ◌-◌, ◌*◌, ◌/◌, ◌%◌, ◌^◌, ◌≤◌, ◌<◌, min, bit_and, bit_or,
  bit_xor, ◌≡◌, refl, sym, ap, ◌∙◌, ◌≢◌, ◌↔◌, ◌⊎◌, inl, inr, Bool, true, false, not, ◌&&◌, ◌||◌,
  Option, none, some, List, [], ◌∷◌, ◌++◌, map, arith,
}

-- The six bits of the input from the bit `idx` on.
unfoldable pub read_bits : List ℕ → ℕ → Option ℕ
read_bits bytes idx = do
  low ← get_elem? bytes (idx / 8)
  high ← get_elem? bytes (idx / 8 + 1)
  some (bit_and 63 (bit_or (low / 2 ^ (idx % 8)) (high * 2 ^ (8 - idx % 8))))

-- The character codes of 0, a, A, - and =; `none` is the EOF that no number of six bits reaches.
unfoldable pub base64_todigit : ℕ → Option ℕ
base64_todigit val =
    let v = val % 64 in
    if ltb v 10
    then some (v + 48)
    else if ltb v 36
    then some (v - 10 + 97)
    else if ltb v 62
    then some (v - 36 + 65)
    else if v == 62
    then some 45
    else if v == 63
    then some 61
    else none

-- `none` is EOF, for a character that is not a digit.
unfoldable pub base64_fromdigit : ℕ → Option ℕ
base64_fromdigit dig =
    if leb 48 dig && leb dig 57
    then some (dig - 48)
    else if leb 97 dig && leb dig 122
    then some (dig - 97 + 10)
    else if leb 65 dig && leb dig 90
    then some (dig - 65 + 10 + 26)
    else if dig == 45
    then some 62
    else if dig == 61
    then some 63
    else none

-- The loop from the digit `i` on, with `left` digits to come.
unfoldable pub encode_loop : List ℕ → ℕ → ℕ → Option (List ℕ)
unfolding read_bits base64_todigit
encode_loop bytes zero i = some []
encode_loop bytes (suc left) i = do
  val ← read_bits bytes (6 * i)
  digit ← base64_todigit val
  rest ← encode_loop bytes left (i + 1)
  some (digit ∷ rest)

-- `insize` is the size of the input; the sizes wrap at 2^64.
unfoldable pub base64_encode : List ℕ → ℕ → Option (List ℕ)
unfolding encode_loop
base64_encode bytes insize = encode_loop bytes (sub64 (u64 (insize * 8)) 1 / 6 + 1) 0
