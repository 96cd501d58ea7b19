-- ===== src/Random.antt =====
-- src/random.c: the two generators. A state is passed on, and a draw returns the next one. The 48
-- bytes that `random_ext_init` reads from the system are a parameter of `random_init`.
pub mod Memory
pub mod Carry
pub mod Block
pub mod Examples
use reqrypt.Common.{
  ltb, leb, ◌==◌, if◌then◌else◌, ==_iff, Bool-cases, Option-cases, ◌>>=◌, bind-ne-none,
  bind-eq-some, if-ne-none, length, get_elem?, get_or, set, take, drop, replicate, All,
  length-append, length-set, length-take, length-drop, length-replicate, get_elem?-set_self,
  get_elem?-set_ne, get_elem?-eq-get_or, take-append-drop, take-append, drop-append, drop-drop,
  get_elem?-ne-none, drop-set_lt, drop-set_ge, get_elem?-drop, get_elem?-take,
  get_elem?-append_left, drop-take, take_all, drop-append_of_eq, get_elem?-some,
  get_elem?-append_right, append-assoc_cons, get_elem?-inside, get_elem?-replicate, replicate-same,
  get_elem?-All, take-All, drop-All, append-All, take_add, u8, u16, u32, u64, sub64, IsByte,
  IsBytes, ntohs, htons, u8_at, u16_at, u32_at, bytes_at, put_u8, put_u16, get_elem?-IsByte,
  u16_at-lt, drop-IsBytes, take-IsBytes, append-IsBytes, all_bytes, all_bytes-IsBytes, bit_or-digit,
  bit_and-digit, bit_or_add, bit_or_none, bit_or_add_high, bit_and_63, bit_and_one, value, value-lt,
  value-append, value-zeros, pow-add, pow-mul, value_next_digit, value-split, same_high,
  value-injective, ℕ, zero, suc, ◌+◌, ◌-◌, ◌*◌, ◌/◌, ◌%◌, ◌^◌, ◌≤◌, ◌<◌, min, bit_and, bit_or,
  bit_xor, ◌≡◌, refl, sym, ap, ◌∙◌, ◌≢◌, ◌↔◌, ◌⊎◌, inl, inr, Bool, true, false, not, ◌&&◌, ◌||◌,
  Option, none, some, List, [], ◌∷◌, ◌++◌, map, arith,
}

-- `uint32_t[4]`.
pub record Quad : Type 0 where
  pub w0 : ℕ
  pub w1 : ℕ
  pub w2 : ℕ
  pub w3 : ℕ

-- `v[i]`, of a list that is indexed by a computed number, and the bytes of the array in memory.
unfoldable pub quad_get : Quad → ℕ → ℕ
quad_get q zero = q.w0
quad_get q (suc zero) = q.w1
quad_get q (suc (suc zero)) = q.w2
quad_get q (suc (suc (suc i))) = q.w3

unfoldable pub word_bytes : ℕ → List ℕ
word_bytes w = w % 256 ∷ w / 256 % 256 ∷ w / 65536 % 256 ∷ w / 16777216 % 256 ∷ []

unfoldable pub quad_bytes : Quad → List ℕ
unfolding word_bytes
quad_bytes q = word_bytes q.w0 ++ (word_bytes q.w1 ++ (word_bytes q.w2 ++ word_bytes q.w3))

pub record RandomState : Type 0 where
  pub v : Quad
  pub k : Quad
  pub r : Quad
  pub e : Quad
  pub e_idx : ℕ

abbrev pub random_rounds : ℕ
random_rounds = 19

abbrev pub random_delta : ℕ
random_delta = 2654435769

unfoldable pub random_mix : ℕ → ℕ → ℕ → ℕ → Quad → ℕ → ℕ
unfolding quad_get
random_mix i y z sum k e =
    bit_xor (u32 (bit_xor (z / 2 ^ 5) (u32 (y * 2 ^ 2)) + bit_xor (y / 2 ^ 3) (u32 (z * 2 ^ 4))))
      (u32 (bit_xor sum y + bit_xor (quad_get k (bit_xor (bit_and i 3) e)) z))

-- The body of the loop over the rounds, and the loop with `left` rounds to come.
unfoldable pub random_round : Quad → Quad → ℕ → Quad
unfolding random_mix
random_round k v sum =
    let e = bit_and (sum / 2 ^ 2) 3 in
    let v0 = u32 (v.w0 + random_mix 0 v.w1 v.w3 sum k e) in
    let v1 = u32 (v.w1 + random_mix 1 v.w2 v0 sum k e) in
    let v2 = u32 (v.w2 + random_mix 2 v.w3 v1 sum k e) in
    let v3 = u32 (v.w3 + random_mix 3 v0 v2 sum k e) in
    record { w0 = v0; w1 = v1; w2 = v2; w3 = v3 }

unfoldable pub random_loop : ℕ → Quad → Quad → ℕ → Quad
unfolding random_round
random_loop zero k v sum = v
random_loop (suc left) k v sum =
    let next = u32 (sum + random_delta) in random_loop left k (random_round k v next) next

-- The next value of the counter.
unfoldable pub next_value : Quad → Quad
next_value v =
    let v0 = u32 (v.w0 + 1) in
    record { w0 = v0; w1 = if v0 == 0 then u32 (v.w1 + 2 ^ 32 - 1) else v.w1; w2 = v.w2; w3 = v.w3 }

unfoldable pub xor_quad : Quad → Quad → Quad
xor_quad a b = record {
  w0 = bit_xor a.w0 b.w0;
  w1 = bit_xor a.w1 b.w1;
  w2 = bit_xor a.w2 b.w2;
  w3 = bit_xor a.w3 b.w3;
}

unfoldable pub generate_random : RandomState → RandomState
unfolding next_value random_loop xor_quad
generate_random s =
    let v = next_value s.v in
    record s { v = v; e = xor_quad (random_loop random_rounds s.k v 0) s.r }

-- The loop of `random_memory` and of `rand_memory`: one byte at a time.
unfoldable pub draw_bytes {ℓ} : {S : Type ℓ} → (S → ℕ × S) → S → ℕ → List ℕ × S
draw_bytes draw s zero = ([], s)
draw_bytes draw s (suc size) =
    let (byte, s1) = draw s in let (bytes, s2) = draw_bytes draw s1 size in (byte ∷ bytes, s2)

-- Its body for `random_state_t`: the bytes of the block are used up first.
unfoldable pub random_byte : RandomState → ℕ × RandomState
unfolding generate_random quad_bytes
random_byte s =
    let t = if leb 16 s.e_idx then record (generate_random s) { e_idx = 0 } else s in
    (get_or (quad_bytes t.e) t.e_idx 0, record t { e_idx = t.e_idx + 1 })

unfoldable pub random_memory : RandomState → ℕ → List ℕ × RandomState
unfolding draw_bytes random_byte
random_memory = draw_bytes random_byte

-- A little-endian number of the bytes that were drawn.
unfoldable pub drawn {ℓ} : {S : Type ℓ} → List ℕ × S → ℕ × S
unfolding value
drawn (bytes, s) = (value 256 bytes, s)

unfoldable pub random_uint8 : RandomState → ℕ × RandomState
unfolding random_memory drawn
random_uint8 s = drawn (random_memory s 1)

unfoldable pub random_uint16 : RandomState → ℕ × RandomState
unfolding random_memory drawn
random_uint16 s = drawn (random_memory s 2)

unfoldable pub random_uint32 : RandomState → ℕ × RandomState
unfolding random_memory drawn
random_uint32 s = drawn (random_memory s 4)

unfoldable pub random_uint64 : RandomState → ℕ × RandomState
unfolding random_memory drawn
random_uint64 s = drawn (random_memory s 8)

-- `sizeof(state->v)` bytes from an offset, copied into an array.
unfoldable pub quad_at : List ℕ → ℕ → Option Quad
quad_at buff off = do
  a ← u32_at buff off
  b ← u32_at buff (off + 4)
  c ← u32_at buff (off + 8)
  d ← u32_at buff (off + 12)
  some (record { w0 = a; w1 = b; w2 = c; w3 = d })

-- `unset` is what the fresh memory of `e` holds.
unfoldable pub random_init : List ℕ → Quad → Option RandomState
unfolding quad_at
random_init buff unset = do
  v ← quad_at buff 0
  k ← quad_at buff 16
  r ← quad_at buff 32
  some (record { v = v; k = k; r = r; e = unset; e_idx = 16 })

pub record RandState : Type 0 where
  pub z : ℕ
  pub w : ℕ
  pub e : ℕ
  pub e_idx : ℕ

-- `x == 0? ~x: x`.
abbrev pub not_zero : ℕ → ℕ
not_zero x = if x == 0 then 2 ^ 32 - 1 - x else x

unfoldable pub rand_init : ℕ → ℕ → RandState
rand_init seed unset = record {
  z = not_zero (u32 seed);
  w = not_zero (u32 (seed / 2 ^ 32));
  e = unset;
  e_idx = 4;
}

unfoldable pub generate_rand : RandState → RandState
generate_rand s =
    let z = u32 (u32 (36969 * (s.z % 2 ^ 16)) + s.z / 2 ^ 16) in
    let w = u32 (u32 (18000 * (s.w % 2 ^ 16)) + s.w / 2 ^ 16) in
    record s { z = z; w = w; e = u32 (u32 (z * 2 ^ 16) + w) }

unfoldable pub rand_byte : RandState → ℕ × RandState
unfolding generate_rand word_bytes
rand_byte s =
    let t = if leb 4 s.e_idx then record (generate_rand s) { e_idx = 0 } else s in
    (get_or (word_bytes t.e) t.e_idx 0, record t { e_idx = t.e_idx + 1 })

unfoldable pub rand_memory : RandState → ℕ → List ℕ × RandState
unfolding draw_bytes rand_byte
rand_memory = draw_bytes rand_byte

unfoldable pub rand_uint8 : RandState → ℕ × RandState
unfolding rand_memory drawn
rand_uint8 s = drawn (rand_memory s 1)

unfoldable pub rand_uint16 : RandState → ℕ × RandState
unfolding rand_memory drawn
rand_uint16 s = drawn (rand_memory s 2)

unfoldable pub rand_uint32 : RandState → ℕ × RandState
unfolding rand_memory drawn
rand_uint32 s = drawn (rand_memory s 4)

unfoldable pub rand_uint64 : RandState → ℕ × RandState
unfolding rand_memory drawn
rand_uint64 s = drawn (rand_memory s 8)
