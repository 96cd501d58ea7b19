-- ===== src/Cookie.antt =====
-- src/cookie.h: the keyed hash, a reduced-round XXTEA. Words are of 32 bits.
use reqrypt.Common.{
  ◌==◌, if◌then◌else◌, get_or, u16, u32, ℕ, zero, suc, ◌+◌, ◌*◌, ◌/◌, ◌^◌, bit_and, bit_or, bit_xor,
  List,
}

-- `struct cookie_gen_s`: three arrays of four words.
pub record CookieGen : Type 0 where
  pub v : List ℕ
  pub k : List ℕ
  pub r : List ℕ

abbrev pub cookie_rounds : ℕ
cookie_rounds = 10

abbrev pub cookie_delta : ℕ
cookie_delta = 2654435769

-- Four words, or two of 64 bits.
pub record Block : Type 0 where
  pub v0 : ℕ
  pub v1 : ℕ
  pub v2 : ℕ
  pub v3 : ℕ

unfoldable pub cookie_mix : ℕ → ℕ → ℕ → ℕ → List ℕ → ℕ → ℕ
cookie_mix i y z sum k e =
    bit_xor (u32 (bit_xor (z / 32) (u32 (y * 4)) + bit_xor (y / 8) (u32 (z * 16))))
      (u32 (bit_xor sum y + bit_xor (get_or k (bit_xor (bit_and i 3) e) 0) z))

-- The switch with its fall through: a size that no case names mixes nothing in.
unfoldable pub mix_input : Block → List ℕ → ℕ → Block
mix_input b input size =
    if size == 4
    then record b {
      v3 = bit_xor (bit_xor b.v3 (get_or input 3 0)) (get_or input 1 0);
      v2 = bit_xor b.v2 (get_or input 2 0);
      v1 = bit_xor b.v1 (get_or input 0 0);
    }
    else if size == 3
    then record b {
      v3 = bit_xor b.v3 (get_or input 1 0);
      v2 = bit_xor b.v2 (get_or input 2 0);
      v1 = bit_xor b.v1 (get_or input 0 0);
    }
    else if size == 2
    then record b { v3 = bit_xor b.v3 (get_or input 1 0); v1 = bit_xor b.v1 (get_or input 0 0) }
    else if size == 1
    then record b { v1 = bit_xor b.v1 (get_or input 0 0) }
    else b

-- One round, after `sum` has been raised.
unfoldable pub cookie_round : List ℕ → ℕ → Block → Block
unfolding cookie_mix
cookie_round k sum b =
    let e = bit_and (sum / 4) 3 in
    let v0 = u32 (b.v0 + cookie_mix 0 b.v1 b.v3 sum k e) in
    let v1 = u32 (b.v1 + cookie_mix 1 b.v2 v0 sum k e) in
    let v2 = u32 (b.v2 + cookie_mix 2 b.v3 v1 sum k e) in
    let v3 = u32 (b.v3 + cookie_mix 3 v0 v2 sum k e) in
    record { v0 = v0; v1 = v1; v2 = v2; v3 = v3 }

-- `n` more rounds.
unfoldable pub cookie_loop : ℕ → List ℕ → ℕ → Block → Block
unfolding cookie_round
cookie_loop zero k sum b = b
cookie_loop (suc n) k sum b =
    cookie_loop n k (u32 (sum + cookie_delta)) (cookie_round k (u32 (sum + cookie_delta)) b)

unfoldable pub generate_cookie128 : CookieGen → List ℕ → ℕ → ℕ × ℕ
unfolding mix_input cookie_loop
generate_cookie128 gen input size =
    let start : Block = record {
      v0 = get_or gen.v 0 0;
      v1 = get_or gen.v 1 0;
      v2 = get_or gen.v 2 0;
      v3 = get_or gen.v 3 0;
    } in
    let b = cookie_loop cookie_rounds gen.k 0 (mix_input start input size) in
    (
      bit_or (bit_xor b.v0 (get_or gen.r 0 0) * 2 ^ 32) (bit_xor b.v1 (get_or gen.r 1 0)),
      bit_or (bit_xor b.v2 (get_or gen.r 2 0) * 2 ^ 32) (bit_xor b.v3 (get_or gen.r 3 0)),
    )

unfoldable pub generate_cookie64 : CookieGen → List ℕ → ℕ → ℕ
unfolding generate_cookie128
generate_cookie64 gen input size = let r = generate_cookie128 gen input size in bit_xor (r.0) (r.1)

unfoldable pub generate_cookie32 : CookieGen → List ℕ → ℕ → ℕ
unfolding generate_cookie64
generate_cookie32 gen input size =
    let r0 = generate_cookie64 gen input size in bit_xor (u32 (r0 / 2 ^ 32)) (u32 r0)

-- The 64-bit cookie is cut to 32 bits before its halves are combined.
unfoldable pub generate_cookie16 : CookieGen → List ℕ → ℕ → ℕ
unfolding generate_cookie64
generate_cookie16 gen input size =
    let r0 = u32 (generate_cookie64 gen input size) in u16 (bit_xor (u16 (r0 / 2 ^ 16)) (u16 r0))
