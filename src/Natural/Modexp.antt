-- ===== src/Natural/Modexp.antt =====
-- The shifts, the remainder and the power of src/encodings/natural.c. These arrays have twice as many
-- digits: `2 * n_size`.
pub mod Digit
pub mod Room
pub mod Right
pub mod Left
pub mod Step
pub mod Rounds
pub mod Remainder
pub mod Congruence
pub mod Multiply
pub mod Power
use reqrypt.Common.{
  ltb, leb, ◌==◌, if◌then◌else◌, ◌>>=◌, length, take, drop, replicate, u32, u64, ℕ, zero, suc, ◌+◌,
  ◌-◌, ◌*◌, ◌/◌, ◌%◌, ◌^◌, min, bit_and, bit_or, Bool, true, false, ◌||◌, Option, none, some, List,
  [], ◌∷◌, ◌++◌,
}
use reqrypt.Natural.{
  n_size, n_radix, n_radix_shift, n_bits, n_cmp, n_mul, n_sub, Sign, more, same, less,
}

-- `(bits - 1) / N_RADIX_SHIFT + 1`, unsigned.
abbrev pub digits_of : ℕ → ℕ
digits_of bits = (bits + 2 ^ 32 - 1) % 2 ^ 32 / n_radix_shift + 1

-- A digit of a right shift: the high bits of one digit under the low bits of the next.
abbrev pub lower_digit : ℕ → ℕ → ℕ → ℕ
lower_digit offset x above =
    bit_or (x / 2 ^ offset) (u64 (above * 2 ^ (n_radix_shift - offset)) % n_radix)

-- The loop of `n_shift_right` over the digits from `shift_index` on, and the digit behind it, for which
-- there may be none above.
unfoldable pub lower_digits : ℕ → ℕ → List ℕ → Option (List ℕ)
lower_digits n offset [] = none
lower_digits zero offset (x ∷ []) = some (x / 2 ^ offset ∷ [])
lower_digits zero offset (x ∷ above ∷ xs) = some (lower_digit offset x above ∷ [])
lower_digits (suc n) offset (x ∷ []) = none
lower_digits (suc n) offset (x ∷ above ∷ xs) = do
  rest ← lower_digits n offset (above ∷ xs)
  some (lower_digit offset x above ∷ rest)

-- The new number of bits, and the digits.
unfoldable pub n_shift_right : List ℕ → ℕ → ℕ → Option (ℕ × List ℕ)
unfolding lower_digits
n_shift_right a a_bits shift = if shift == 0 then some (a_bits, a) else (do
  let bits = (a_bits + 2 ^ 32 - shift) % 2 ^ 32
  let a_size_old = digits_of a_bits
  let a_size = digits_of bits
  low ← lower_digits (a_size - 1) (shift % n_radix_shift) (drop (shift / n_radix_shift) a)
  some (bits, low ++ replicate (a_size_old - a_size) 0 ++ drop a_size_old a))

-- The loop of `n_shift_left`, from the lowest digit but one up; `below` is the digit below.
unfoldable pub raise_digits : ℕ → ℕ → List ℕ → List ℕ
raise_digits offset below [] = []
raise_digits offset below (x ∷ xs) =
    bit_or (u64 (x * 2 ^ offset) % n_radix) (below / 2 ^ (n_radix_shift - offset))
    ∷ raise_digits offset x xs

-- The lowest digit takes no bits of another.
abbrev pub raise_first : ℕ → List ℕ → List ℕ
unfolding raise_digits
raise_first offset [] = []
raise_first offset (x ∷ xs) = u64 (x * 2 ^ offset) % n_radix ∷ raise_digits offset x xs

-- The number has at least one bit, so that its top digit lands at `shift_index` or above.
unfoldable pub n_shift_left : List ℕ → ℕ → ℕ → Option (ℕ × List ℕ)
unfolding raise_first
n_shift_left a a_bits shift =
    if shift == 0
    then some (a_bits, a)
    else (let bits = u32 (a_bits + shift) in
        let a_size = digits_of bits in
        let shift_index = shift / n_radix_shift in
        if ltb (length a) a_size || leb a_size shift_index
        then none
        else some (
          bits,
          replicate shift_index 0
              ++ raise_first (shift % n_radix_shift) (take (a_size - shift_index) a)
              ++ drop a_size a,
        ))

-- The variables of the loop of `n_mod`.
pub record Division : Type 0 where
  pub n : List ℕ
  pub d : List ℕ
  pub n_bits : ℕ
  pub d_bits : ℕ

abbrev pub shift_if : Bool → List ℕ → ℕ → ℕ → Option (ℕ × List ℕ)
unfolding n_shift_right
shift_if true d d_bits shift = n_shift_right d d_bits shift
shift_if false d d_bits shift = some (d_bits, d)

abbrev pub is_more : Sign → Bool
is_more more = true
is_more same = false
is_more less = false

-- The body of the loop: the divisor is shifted down to the size of `n`, once more if it is larger, and
-- subtracted.
unfoldable pub mod_step : Division → Option Division
unfolding shift_if n_cmp n_sub n_bits
mod_step s = do
  (bits, d) ← shift_if (ltb s.n_bits s.d_bits) s.d s.d_bits (s.d_bits - s.n_bits)
  order ← n_cmp d s.n bits s.n_bits
  (bits', d') ← shift_if (is_more order) d bits 1
  n' ← n_sub s.n s.n_bits d'
  left ← n_bits n' s.n_bits
  some (record { n = n'; d = d'; n_bits = left; d_bits = bits' })

-- The loop; `none` as well when the fuel runs out.
unfoldable pub mod_loop : ℕ → List ℕ → ℕ → Division → Option (List ℕ)
unfolding mod_step n_cmp
mod_loop zero b b_bits s = none
mod_loop (suc fuel) b b_bits s = do
  order ← n_cmp s.n b s.n_bits b_bits
  elim order [
    | more ↦ (mod_step s >>= λ s'. mod_loop fuel b b_bits s')
    | same ↦ some s.n
    | less ↦ some s.n
  ]

-- The `n_size` digits that `n_mod` copies into its result.
unfoldable pub n_mod : List ℕ → List ℕ → Option (List ℕ)
unfolding n_bits n_shift_left mod_loop
n_mod a b = do
  let n = take (2 * n_size) a
  let d = replicate n_size 0 ++ take n_size b
  n_len ← n_bits n (2 * n_size * n_radix_shift)
  d_len ← n_bits d (2 * n_size * n_radix_shift)
  b_len ← n_bits b (n_size * n_radix_shift)
  (d_len', d') ← (if ltb d_len n_len then n_shift_left d d_len (n_len - d_len) else some (d_len, d))
  r ←
      mod_loop (2 * n_size * n_radix_shift + 1) b b_len
        (record { n = n; d = d'; n_bits = n_len; d_bits = d_len' })
  some (take n_size r)

-- `N_mul` into `u` and `N_mod` of it into the lower half of `into`.
abbrev pub mul_mod : List ℕ → List ℕ → List ℕ → List ℕ → Option (List ℕ)
unfolding n_mul n_mod
mul_mod into x y m = do r ← n_mod (n_mul x y) m; some (r ++ drop n_size into)

-- `n` steps of the inner loop of `n_modexp`, on the bits of `w`; the results are `t` and `a`.
unfoldable pub modexp_digit : ℕ → ℕ → List ℕ → List ℕ → List ℕ → Option (List ℕ × List ℕ)
unfolding mul_mod
modexp_digit zero w m t a = some (t, a)
modexp_digit (suc n) w m t a = do
  t' ← (if bit_and w 1 == 1 then mul_mod t t a m else some t)
  a' ← mul_mod a a a m
  modexp_digit n (w / 2) m t' a'

-- The outer loop, for as many bits as are left.
unfoldable pub modexp_loop : ℕ → List ℕ → List ℕ → List ℕ → List ℕ → Option (List ℕ × List ℕ)
unfolding modexp_digit
modexp_loop zero e m t a = some (t, a)
modexp_loop (suc bits) [] m t a = none
modexp_loop (suc bits) (w ∷ e) m t a = do
  (t', a') ← modexp_digit (min (suc bits) n_radix_shift) w m t a
  modexp_loop (suc bits - n_radix_shift) e m t' a'

unfoldable pub n_modexp : List ℕ → List ℕ → List ℕ → Option (List ℕ)
unfolding n_bits modexp_loop
n_modexp b e m = do
  e_bits ← n_bits e (n_size * n_radix_shift)
  (t, a) ←
      modexp_loop e_bits e m (1 ∷ replicate (2 * n_size - 1) 0)
        (take n_size b ++ replicate n_size 0)
  some (take n_size t)
