-- ===== src/Natural/Examples.antt =====
-- Numbers for src/encodings/natural.c.
use reqrypt.Common.{
  ltb, leb, length, take, replicate, All, all_bytes-IsBytes, value, ℕ, ◌+◌, ◌-◌, ◌*◌, ◌%◌, ◌^◌, ◌≤◌,
  ◌<◌, ◌≡◌, refl, ◌&&◌, some, List, [], ◌∷◌, ◌++◌, arith,
}
use reqrypt.Natural.{
  n_size, n_radix, n_radix_shift, n_set, n_get, n_mul, n_sub, n_bits, n_cmp, n_lt2,
}
use reqrypt.Natural.Modexp.Step.{IsWide}
use reqrypt.Natural.Modexp.Remainder.{n_mod-value}
use reqrypt.Natural.Modexp.Power.{n_modexp-value}
use reqrypt.Natural.Modexp.{n_mod, n_modexp}
use reqrypt.Natural.Mul.{zeros_small, IsNumber, n_mul-value}
use reqrypt.Natural.Bits.{IsBitLength, n_bits-IsBitLength}
use reqrypt.Natural.Compare.{order, n_cmp-order}
use reqrypt.Natural.Range.{n_lt2-range}
use reqrypt.Natural.Sub.{n_sub-value}
use reqrypt.Natural.Get.{n_get-n_set}

-- A number of two digits.
abbrev number : ℕ → ℕ → List ℕ
number x y = x ∷ y ∷ replicate 17 0

number-IsNumber : (x y : ℕ) → x < n_radix → y < n_radix → IsNumber (number x y)
number-IsNumber x y hx hy = record { sized = refl; small = (hx, (hy, zeros_small 17)) }

test_modexp : n_modexp (number 3 0) (number 5 0) (number 7 0) ≡ some (number 5 0)
unfolding n_modexp
test_modexp = refl

-- A multiple of the modulus that is not a power of two of them is not taken to 0.
test_mod_multiple : n_mod (number 21 0 ++ replicate 19 0) (number 7 0) ≡ some (number 7 0)
unfolding n_mod
test_mod_multiple = refl

n_mul-value_example :
    (value n_radix (n_mul (number 5 (2 ^ 56 - 1)) (number 0 7))
      ≡ value n_radix (take n_size (number 5 (2 ^ 56 - 1)))
        * value n_radix (take n_size (number 0 7)))
    × (length (n_mul (number 5 (2 ^ 56 - 1)) (number 0 7)) ≡ 2 * n_size)
n_mul-value_example =
    n_mul-value (number 5 (2 ^ 56 - 1)) (number 0 7)
      (number-IsNumber 5 (2 ^ 56 - 1) (omega arith) (omega arith))
      (number-IsNumber 0 7 (omega arith) (omega arith))

n_bits-IsBitLength_example :
    (r : ℕ) × (n_bits (number 5 3) (n_size * n_radix_shift) ≡ some r)
    × IsBitLength (value n_radix (take 19 (number 5 3))) r
n_bits-IsBitLength_example =
    n_bits-IsBitLength (number 5 3) (n_size * n_radix_shift)
      (number-IsNumber 5 3 (omega arith) (omega arith)).small (omega arith) (omega arith)
      (omega arith)

number_bits : IsBitLength (value n_radix (number 5 3)) 58
unfolding value
number_bits = record { below = omega arith; above = λ h. omega arith }

more_bits : IsBitLength (value n_radix (number 7 3)) 58
unfolding value
more_bits = record { below = omega arith; above = λ h. omega arith }

n_cmp-order_example :
    n_cmp (number 5 3) (number 7 3) 58 58
    ≡ some (order (value n_radix (number 5 3)) (value n_radix (number 7 3)))
n_cmp-order_example =
    n_cmp-order (number 5 3) (number 7 3) 58 58
      (number-IsNumber 5 3 (omega arith) (omega arith)).small
      (number-IsNumber 7 3 (omega arith) (omega arith)).small number_bits more_bits (omega arith)
      (omega arith)

number_more : 1 < value n_radix (number 5 3)
unfolding value
number_more = omega arith

n_lt2-range_example :
    n_lt2 (number 2 0) (number 5 3)
    ≡ some (
        leb 3 (value n_radix (number 2 0))
        && ltb (value n_radix (number 2 0)) (value n_radix (number 5 3) - 1))
n_lt2-range_example =
    n_lt2-range (number 2 0) (number 5 3) (number-IsNumber 2 0 (omega arith) (omega arith))
      (number-IsNumber 5 3 (omega arith) (omega arith)) number_more

smaller : value n_radix (take 2 (number 7 2)) ≤ value n_radix (take 2 (number 5 3))
unfolding value
smaller = omega arith

n_sub-value_example :
    (r : List ℕ) × (n_sub (number 5 3) 58 (number 7 2) ≡ some r)
    × (value n_radix r + value n_radix (take 2 (number 7 2)) ≡ value n_radix (number 5 3))
    × (length r ≡ 19)
    × All (λ d. d < n_radix) r
n_sub-value_example =
    n_sub-value (number 5 3) (number 7 2) 58 (number-IsNumber 5 3 (omega arith) (omega arith)).small
      (number-IsNumber 7 2 (omega arith) (omega arith)).small (omega arith) (omega arith)
      (omega arith) (omega arith) smaller

-- Nine bytes, of which two do not fill a digit.
abbrev nine_bytes : List ℕ
nine_bytes = 1 ∷ 2 ∷ 3 ∷ 4 ∷ 5 ∷ 6 ∷ 255 ∷ 8 ∷ 9 ∷ []

set_nine : n_set nine_bytes 9 ≡ some (number 71782737673126401 2312)
unfolding n_set
set_nine = refl

n_get-n_set_example : n_get (number 71782737673126401 2312) 9 ≡ take 9 nine_bytes
n_get-n_set_example =
    n_get-n_set nine_bytes (number 71782737673126401 2312) 9 (all_bytes-IsBytes nine_bytes refl)
      (omega arith) (omega arith) (omega arith) set_nine

wide_example : IsWide (take 38 (number 21 0 ++ replicate 19 0))
wide_example = record { sized = refl; small = (omega arith, (omega arith, zeros_small 36)) }

seven_positive : 0 < value n_radix (number 7 0)
unfolding value
seven_positive = omega arith

n_mod-value_example :
    (r : List ℕ) × (c : ℕ) × (n_mod (number 21 0 ++ replicate 19 0) (number 7 0) ≡ some r)
    × IsNumber r
    × (value n_radix r ≤ value n_radix (number 7 0))
    × (value n_radix r + c * value n_radix (number 7 0)
        ≡ value n_radix (take 38 (number 21 0 ++ replicate 19 0)))
n_mod-value_example =
    n_mod-value (number 21 0 ++ replicate 19 0) (number 7 0) wide_example
      (number-IsNumber 7 0 (omega arith) (omega arith)) seven_positive

n_modexp-value_example :
    (r : List ℕ) × (n_modexp (number 3 0) (number 5 0) (number 7 0) ≡ some r)
    × IsNumber r
    × (value n_radix r % value n_radix (number 7 0)
        ≡ (value n_radix (number 3 0) ^ value n_radix (number 5 0)) % value n_radix (number 7 0))
n_modexp-value_example =
    n_modexp-value (number 3 0) (number 5 0) (number 7 0)
      (number-IsNumber 3 0 (omega arith) (omega arith))
      (number-IsNumber 5 0 (omega arith) (omega arith))
      (number-IsNumber 7 0 (omega arith) (omega arith)) seven_positive
