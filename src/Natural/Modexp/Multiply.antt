-- ===== src/Natural/Modexp/Multiply.antt =====
-- The digits of the exponent in `N_modexp` of src/encodings/natural.c: square and multiply.
use native.Mathlib.Nat.{add-mul-mod_self_right, pow-suc, pow-zero}
use reqrypt.Common.{
  ◌==◌, if◌then◌else◌, ==_iff, Bool-cases, ◌>>=◌, length, take, drop, length-append, length-drop,
  take-append, take_all, bit_and_one, value, ℕ, zero, suc, ◌+◌, ◌*◌, ◌/◌, ◌%◌, ◌^◌, ◌<◌, bit_and,
  ◌≡◌, refl, sym, ap, ◌∙◌, inl, inr, Option, some, List, ◌++◌, arith,
}
use reqrypt.Natural.{n_radix, n_mul}
use reqrypt.Natural.Mul.{IsNumber, n_mul-value, n_mul-small}
use reqrypt.Natural.Modexp.{n_mod, mul_mod, modexp_digit}
use reqrypt.Natural.Modexp.Step.{IsWide}
use reqrypt.Natural.Modexp.Remainder.{n_mod-value}
use reqrypt.Natural.Modexp.Congruence.{
  pow_congruent, square_power, to_none, to_one, square_multiply,
}

pub record IsOperand (x : List ℕ) : Type 0 where
  pub sized : length x ≡ 38
  pub lower : IsNumber (take 19 x)

abbrev pub low : List ℕ → ℕ
low x = value n_radix (take 19 x)

mul_mod_runs :
    (into x y m r : List ℕ)
    → n_mod (n_mul x y) m ≡ some r
    → mul_mod into x y m ≡ some (r ++ drop 19 into)
unfolding mul_mod
mul_mod_runs into x y m r e = rw e refl

-- A product that is reduced in place.
pub mul_mod-value :
    (into x y m : List ℕ)
    → IsOperand into
    → IsOperand x
    → IsOperand y
    → IsNumber m
    → 0 < value n_radix m
    → (r : List ℕ) × (mul_mod into x y m ≡ some r)
      × IsOperand r
      × (low r % value n_radix m ≡ (low x * low y) % value n_radix m)
mul_mod-value into x y m hi hx hy hm pos =
    let (product, size) = n_mul-value x y hx.lower hy.lower in
    let whole : take 38 (n_mul x y) ≡ n_mul x y = take_all 38 (n_mul x y) (omega arith) in
    let wide : IsWide (n_mul x y) = record {
      sized = size;
      small = n_mul-small x y hx.lower hy.lower;
    } in
    let (r, c, runs, number, fits, sum) = n_mod-value (n_mul x y) m (rw whole wide) hm pos in
    let kept : take 19 (r ++ drop 19 into) ≡ r =
      rw number.sized at (take-append r (drop 19 into)) in
    let rest = length-drop 19 into in
    let sized_into = hi.sized in
    let sized_r = number.sized in
    let total = length-append r (drop 19 into) in
    let equal : value n_radix r + c * value n_radix m ≡ low x * low y =
      sum ∙ ap (value n_radix) whole ∙ product in
    (
      r ++ drop 19 into,
      mul_mod_runs into x y m r runs,
      record { sized = omega arith; lower = rw kept number },
      rw kept (
          sym (add-mul-mod_self_right (value n_radix r) c (value n_radix m))
          ∙ ap (λ (k : ℕ). k % value n_radix m) equal),
    )

-- The multiplication where the bit is set.
bit-value :
    (w : ℕ) (m t a : List ℕ)
    → IsNumber m
    → 0 < value n_radix m
    → IsOperand t
    → IsOperand a
    → (r : List ℕ) × ((if bit_and w 1 == 1 then mul_mod t t a m else some t) ≡ some r)
      × IsOperand r
      × (low r % value n_radix m ≡ (low t * low a ^ (w % 2)) % value n_radix m)
bit-value w m t a hm pos ht ha = elim (Bool-cases (bit_and w 1 == 1)) [
  | inl e ↦
      let one : w % 2 ≡ 1 = sym (bit_and_one w) ∙ (==_iff (bit_and w 1) 1).0 e in
      let (r, runs, hr, sum) = mul_mod-value t t a m ht ht ha hm pos in
      (r, rw e runs, hr, rw (one, to_one (low a)) sum)
  | inr e ↦
      let lowest = bit_and_one w in
      let zero_bit : w % 2 ≡ 0 = ground arith in
      (t, rw e refl, ht, rw zero_bit (to_none (low t) (low a) (value n_radix m)))
]

two_reads {ℓ} :
    {B : Type ℓ} (m1 m2 : Option (List ℕ)) (f : List ℕ → List ℕ → Option B) (x y : List ℕ)
    → m1 ≡ some x
    → m2 ≡ some y
    → (do x' ← m1; y' ← m2; f x' y') ≡ f x y
two_reads m1 m2 f x y e1 e2 = rw (e1, e2) refl

digit_step :
    (n w : ℕ) (m t a t1 a1 : List ℕ)
    → (if bit_and w 1 == 1 then mul_mod t t a m else some t) ≡ some t1
    → mul_mod a a a m ≡ some a1
    → modexp_digit (suc n) w m t a ≡ modexp_digit n (w / 2) m t1 a1
unfolding modexp_digit
digit_step n w m t a t1 a1 e1 e2 =
    two_reads (if bit_and w 1 == 1 then mul_mod t t a m else some t) (mul_mod a a a m)
      (λ t' a'. modexp_digit n (w / 2) m t' a') t1 a1 e1 e2

digit_end : (w : ℕ) (m t a : List ℕ) → modexp_digit 0 w m t a ≡ some (t, a)
unfolding modexp_digit
digit_end w m t a = refl

-- The digits of the exponent, bit by bit.
pub modexp_digit-value :
    (n w : ℕ) (m t a : List ℕ)
    → w < 2 ^ n
    → IsNumber m
    → 0 < value n_radix m
    → IsOperand t
    → IsOperand a
    → (t' : List ℕ) × (a' : List ℕ) × (modexp_digit n w m t a ≡ some (t', a'))
      × IsOperand t'
      × IsOperand a'
      × (low t' % value n_radix m ≡ (low t * low a ^ w) % value n_radix m)
      × (low a' % value n_radix m ≡ (low a ^ (2 ^ n)) % value n_radix m)
modexp_digit-value zero w m t a room hm pos ht ha =
    let none : w ≡ 0 = omega (arith, pow-zero 2) in
    (
      t,
      a,
      digit_end w m t a,
      ht,
      ha,
      rw none (to_none (low t) (low a) (value n_radix m)),
      ap (λ (k : ℕ). k % value n_radix m) (sym (to_one (low a))),
    )
modexp_digit-value (suc n) w m t a room hm pos ht ha =
    let (t1, runs_t, ht1, sum_t) = bit-value w m t a hm pos ht ha in
    let (a1, runs_a, ha1, sum_a) = mul_mod-value a a a m ha ha ha hm pos in
    let (t', a', runs, ht', ha', power, square) =
      modexp_digit-value n (w / 2) m t1 a1 (omega (arith, pow-suc 2 n)) hm pos ht1 ha1 in
    let twice : 2 * 2 ^ n ≡ 2 ^ suc n = omega (arith, pow-suc 2 n) in
    (
      t',
      a',
      digit_step n w m t a t1 a1 runs_t runs_a ∙ runs,
      ht',
      ha',
      square_multiply (low t) (low t1) (low t') (low a) (low a1) w (value n_radix m) sum_t sum_a
          power,
      square
          ∙ pow_congruent (low a1) (low a * low a) (2 ^ n) (value n_radix m) sum_a
          ∙ ap (λ (k : ℕ). k % value n_radix m)
              (square_power (low a) (2 ^ n) ∙ ap (λ (k : ℕ). low a ^ k) twice),
    )
