-- ===== src/Natural/Modexp/Power.antt =====
-- `N_modexp` of src/encodings/natural.c computes a power, up to the modulus.
use native.Mathlib.Nat.{pow-zero, pow-le-pow_right}
use reqrypt.Common.{
  ltb, Bool-cases, ◌>>=◌, length, take, replicate, All, length-append, take-append, take_all, value,
  pow-add, ℕ, zero, suc, ◌+◌, ◌-◌, ◌*◌, ◌%◌, ◌^◌, ◌≤◌, ◌<◌, min, ◌≡◌, refl, sym, ap, ◌∙◌, ◌⊎◌, inl,
  inr, Option, some, List, [], ◌∷◌, ◌++◌, arith,
}
use reqrypt.Natural.{n_radix, n_size, n_bits}
use reqrypt.Natural.Mul.{zeros_small, IsNumber}
use reqrypt.Natural.Range.{number_bits}
use reqrypt.Natural.Modexp.{modexp_digit, modexp_loop, n_modexp}
use reqrypt.Natural.Modexp.Congruence.{to_none, exponent_parts}
use reqrypt.Natural.Modexp.Multiply.{IsOperand, low, modexp_digit-value}

loop_step :
    (bits w : ℕ) (e m t a t1 a1 : List ℕ)
    → modexp_digit (min (suc bits) 56) w m t a ≡ some (t1, a1)
    → modexp_loop (suc bits) (w ∷ e) m t a ≡ modexp_loop (suc bits - 56) e m t1 a1
unfolding modexp_loop
loop_step bits w e m t a t1 a1 e1 = rw e1 refl

loop_end : (e m t a : List ℕ) → modexp_loop 0 e m t a ≡ some (t, a)
unfolding modexp_loop
loop_end e m t a = refl

digit_first :
    (w : ℕ) (e : List ℕ) (bits : ℕ)
    → value n_radix (w ∷ e) < 2 ^ bits
    → w + n_radix * value n_radix e < 2 ^ bits
unfolding value
digit_first w e bits h = h

-- Either this digit has the last bits, or all its 56 are read.
exponent_room :
    (bits w v : ℕ)
    → w < n_radix
    → w + n_radix * v < 2 ^ bits
    → (w < 2 ^ min bits 56) × (v < 2 ^ (bits - 56)) × ((v ≡ 0) ⊎ (min bits 56 ≡ 56))
exponent_room bits w v hw room = elim (Bool-cases (ltb bits 56)) [
  | inl e ↦
      let least : min bits 56 ≡ bits = ground arith in
      let none_left : bits - 56 ≡ 0 = ground arith in
      let small : 2 ^ bits ≤ 2 ^ 55 =
        pow-le-pow_right {n = 2} (omega arith) {i = bits} {j = 55} (ground arith) in
      let none : v ≡ 0 = omega arith in
      (rw least (omega arith), rw (none_left, none, pow-zero) (omega arith), inl none)
  | inr e ↦
      let least : min bits 56 ≡ 56 = ground arith in
      let total : 56 + (bits - 56) ≡ bits = ground arith in
      let power : 2 ^ bits ≡ 2 ^ 56 * 2 ^ (bits - 56) =
        ap (λ (k : ℕ). 2 ^ k) (sym total) ∙ pow-add 2 56 (bits - 56) in
      (rw least hw, omega arith, inr least)
]

same_exponent : (n w v : ℕ) → (v ≡ 0) ⊎ (n ≡ 56) → w + 2 ^ n * v ≡ w + n_radix * v
same_exponent n w v (inl h) = rw h (omega arith)
same_exponent n w v (inr h) = rw h refl

digit_value : (w : ℕ) (e : List ℕ) → value n_radix (w ∷ e) ≡ w + n_radix * value n_radix e
unfolding value
digit_value w e = refl

-- The digits of the exponent, one by one.
modexp_loop-value :
    (bits : ℕ) (e m t a : List ℕ)
    → All (λ d. d < n_radix) e
    → value n_radix e < 2 ^ bits
    → bits ≤ 56 * length e
    → IsNumber m
    → 0 < value n_radix m
    → IsOperand t
    → IsOperand a
    → (t' : List ℕ) × (a' : List ℕ) × (modexp_loop bits e m t a ≡ some (t', a'))
      × IsOperand t'
      × (low t' % value n_radix m ≡ (low t * low a ^ value n_radix e) % value n_radix m)
modexp_loop-value zero e m t a he room len hm pos ht ha =
    let none : value n_radix e ≡ 0 = omega (arith, pow-zero 2) in
    (t, a, loop_end e m t a, ht, rw none (to_none (low t) (low a) (value n_radix m)))
modexp_loop-value (suc bits) [] m t a he room len hm pos ht ha = absurd (omega arith)
modexp_loop-value (suc bits) (w ∷ e) m t a (hw, he) room len hm pos ht ha =
    let (fits_w, fits_e, last) =
      exponent_room (suc bits) w (value n_radix e) hw (digit_first w e (suc bits) room) in
    let (t1, a1, runs, ht1, ha1, power, square) =
      modexp_digit-value (min (suc bits) 56) w m t a fits_w hm pos ht ha in
    let (t', a', runs', ht', power') =
      modexp_loop-value (suc bits - 56) e m t1 a1 he fits_e (omega arith) hm pos ht1 ha1 in
    (
      t',
      a',
      loop_step bits w e m t a t1 a1 runs ∙ runs',
      ht',
      exponent_parts (low t) (low t1) (low t') (low a) (low a1) w (value n_radix e)
            (2 ^ min (suc bits) 56) (value n_radix m) power square power'
          ∙ ap (λ (x : ℕ). (low t * low a ^ x) % value n_radix m)
              (same_exponent (min (suc bits) 56) w (value n_radix e) last ∙ sym (digit_value w e)),
    )

one-IsOperand : IsOperand (1 ∷ replicate 37 0)
one-IsOperand = record {
  sized = refl;
  lower = record { sized = refl; small = (omega arith, zeros_small 18) };
}

one_value : low (1 ∷ replicate 37 0) ≡ 1
unfolding value
one_value = refl

-- A number with 0s above it.
widened :
    (b : List ℕ)
    → IsNumber b
    → IsOperand (take 19 b ++ replicate 19 0)
      × (low (take 19 b ++ replicate 19 0) ≡ value n_radix b)
widened b nb =
    let sized_b = nb.sized in
    let whole : take 19 b ≡ b = take_all 19 b (omega arith) in
    let zeros : List ℕ = replicate 19 0 in
    let kept : take 19 (b ++ zeros) ≡ b = rw sized_b at (take-append b zeros) in
    let total = length-append b zeros in
    rw whole (record { sized = omega arith; lower = rw kept nb }, ap (value n_radix) kept)

modexp_runs :
    (b e m : List ℕ) (bits : ℕ) (t' a' : List ℕ)
    → n_bits e 1064 ≡ some bits
    → modexp_loop bits e m (1 ∷ replicate 37 0) (take 19 b ++ replicate 19 0) ≡ some (t', a')
    → n_modexp b e m ≡ some (take n_size t')
unfolding n_modexp
modexp_runs b e m bits t' a' e1 e2 =
    read_loop (n_bits e 1064)
      (λ n. modexp_loop n e m (1 ∷ replicate 37 0) (take 19 b ++ replicate 19 0)) bits t' a' e1 e2
  where
    read_loop :
        (m1 : Option ℕ) (f : ℕ → Option (List ℕ × List ℕ)) (n : ℕ) (x y : List ℕ)
        → m1 ≡ some n
        → f n ≡ some (x, y)
        → (do n' ← m1; (x', y') ← f n'; some (take n_size x')) ≡ some (take n_size x)
    read_loop m1 f n x y h h' = rw (h, h') refl

-- `N_modexp` of three numbers of 19 digits, of which the modulus is not 0, returns a number of 19 digits
-- that leaves the same remainder by the modulus as the power of the base.
pub n_modexp-value :
    (b e m : List ℕ)
    → IsNumber b
    → IsNumber e
    → IsNumber m
    → 0 < value n_radix m
    → (r : List ℕ) × (n_modexp b e m ≡ some r)
      × IsNumber r
      × (value n_radix r % value n_radix m ≡ (value n_radix b ^ value n_radix e) % value n_radix m)
n_modexp-value b e m nb ne nm pos =
    let (bits, counted, e_length, bound) = number_bits e ne in
    let sized_e = ne.sized in
    let (a_operand, a_value) = widened b nb in
    let (t', a', runs, ht, power) =
      modexp_loop-value bits e m (1 ∷ replicate 37 0) (take 19 b ++ replicate 19 0) ne.small
        e_length.below (omega arith) nm pos one-IsOperand a_operand in
    (
      take 19 t',
      modexp_runs b e m bits t' a' counted runs,
      ht.lower,
      power ∙ rw (one_value, a_value) (ap (λ (k : ℕ). k % value n_radix m) (omega arith)),
    )
