-- ===== src/Natural/Modexp/Right.antt =====
-- `N_shift_right` of src/encodings/natural.c, of a number that the shift divides.
use native.Mathlib.Nat.{
  mod-lt, mod-add-div, mod-eq_of_lt, div-le_self, mul-le-mul_left, pow-suc, pow-le-pow_right,
}
use reqrypt.Common.{
  ◌==◌, length, take, drop, replicate, All, length-append, length-take, length-drop,
  length-replicate, take-All, drop-All, append-All, value, value-lt, value-append, value-zeros,
  value-split, same_high, ℕ, zero, suc, ◌+◌, ◌-◌, ◌*◌, ◌/◌, ◌%◌, ◌^◌, ◌≤◌, ◌<◌, ◌≡◌, refl, sym, ap,
  ◌∙◌, false, some, List, [], ◌∷◌, ◌++◌, arith,
}
use reqrypt.Natural.Mul.{zeros_small}
use reqrypt.Natural.{n_radix}
use reqrypt.Natural.Modexp.{lower_digit, lower_digits, digits_of, n_shift_right}
use reqrypt.Natural.Bits.{IsBitLength}
use reqrypt.Natural.Compare.{digits_present}
use reqrypt.Natural.Modexp.Room.{power_parts, shifted-lt, rest-zero, bits_in_digits}
use reqrypt.Natural.Modexp.Digit.{lower_digit-value, two_pos, next_le}

-- What is left above the last digit is only the bits that the shift brings down.
above_bits : (p x V : ℕ) → x + n_radix * V < p * n_radix → V < p
above_bits p x V h = omega arith

part_small : (offset : ℕ) → offset < 56 → 2 ^ offset ≤ 2 ^ 55
part_small offset h = pow-le-pow_right {n = 2} (omega arith) {i = offset} {j = 55} (omega arith)

quotient-lt_radix : (p x : ℕ) → 1 ≤ p → x < n_radix → x / p < n_radix
quotient-lt_radix p x pos h = omega (arith, div-le_self x p)

-- The digits of a right shift, times the power of two, and the bits that it drops.
lower_digits-value :
    (n offset x : ℕ) (xs : List ℕ)
    → offset < 56
    → x < n_radix
    → All (λ d. d < n_radix) xs
    → n ≤ length xs
    → x + n_radix * value n_radix xs < 2 ^ offset * n_radix ^ suc n
    → (ds : List ℕ) × (lower_digits n offset (x ∷ xs) ≡ some ds)
      × (2 ^ offset * value n_radix ds + x % 2 ^ offset ≡ x + n_radix * value n_radix xs)
      × (length ds ≡ suc n)
      × All (λ d. d < n_radix) ds
unfolding lower_digits value
lower_digits-value zero offset x [] ho hx hs len fits =
    let parts = mod-add-div x (2 ^ offset) in
    (x / 2 ^ offset ∷ [], refl, omega arith, refl, (quotient-lt_radix _ x (two_pos offset) hx, tt))
lower_digits-value zero offset x (above ∷ xs) ho hx (ha, hs) len fits =
    let (digit, small) = lower_digit-value offset x above ho hx in
    let radix : n_radix ^ suc 0 ≡ n_radix = refl in
    let bits = above_bits (2 ^ offset) x (above + n_radix * value n_radix xs) (rw radix at fits) in
    let bound = part_small offset ho in
    let none : value n_radix xs ≡ 0 = omega arith in
    let kept : above % 2 ^ offset ≡ above = mod-eq_of_lt (omega arith) in
    let digit' : 2 ^ offset * lower_digit offset x above + x % 2 ^ offset ≡ x + n_radix * above =
      rw kept at digit in
    (lower_digit offset x above ∷ [], refl, rw none (omega arith), refl, (small, tt))
lower_digits-value (suc n) offset x [] ho hx hs len fits = absurd (omega arith)
lower_digits-value (suc n) offset x (above ∷ xs) ho hx (ha, hs) len fits =
    let (digit, small) = lower_digit-value offset x above ho hx in
    let scale : 2 ^ offset * n_radix ^ suc (suc n) ≡ n_radix * (2 ^ offset * n_radix ^ suc n) =
      rw (pow-suc n_radix (suc n)) (omega arith) in
    let (ds, runs, sum, size, smalls) =
      lower_digits-value n offset above xs ho ha hs (omega arith) (omega arith) in
    (lower_digit offset x above ∷ ds, rw runs refl, omega arith, ap suc size, (small, smalls))

-- The whole digits of the shift are 0.
dropped-value :
    (a : List ℕ) (shift w : ℕ)
    → All (λ d. d < n_radix) a
    → shift / 56 ≤ length a
    → value n_radix a ≡ 2 ^ shift * w
    → value n_radix (drop (shift / 56) a) ≡ 2 ^ (shift % 56) * w
dropped-value a shift w ha len same =
    let index = shift / 56 in
    let low = value-lt n_radix (take index a) (take-All _ index a ha) in
    let taken = length-take index a in
    let size : length (take index a) ≡ index = omega arith in
    let low' : value n_radix (take index a) < n_radix ^ index = rw size at low in
    let high : n_radix ^ index * 2 ^ (shift % 56) * w
        ≡ 0 + n_radix ^ index * (2 ^ (shift % 56) * w) =
      omega arith in
    let total : value n_radix (take index a) + n_radix ^ index * value n_radix (drop index a)
        ≡ 0 + n_radix ^ index * (2 ^ (shift % 56) * w) =
      sym (value-split n_radix index a len)
      ∙ same
      ∙ ap (λ (p : ℕ). p * w) (power_parts shift)
      ∙ high in
    same_high (n_radix ^ index) _ 0 _ _ low' (omega arith) total

digits_below :
    (offset new w : ℕ) (xs : List ℕ)
    → offset < 56
    → All (λ d. d < n_radix) xs
    → suc new ≤ length xs
    → w < n_radix ^ suc new
    → value n_radix xs ≡ 2 ^ offset * w
    → (ds : List ℕ) × (lower_digits new offset xs ≡ some ds)
      × (value n_radix ds ≡ w)
      × (length ds ≡ suc new)
      × All (λ d. d < n_radix) ds
unfolding value
digits_below offset new w [] ho hs long fits total = absurd (omega arith)
digits_below offset new w (x ∷ xs) ho (hx, hs) long fits total =
    let p = 2 ^ offset in
    let room : p * (w + 1) ≤ p * n_radix ^ suc new = mul-le-mul_left p (next_le fits) in
    let positive = two_pos offset in
    let (ds, runs, sum, size, small) =
      lower_digits-value new offset x xs ho hx hs (omega arith) (omega arith) in
    let low : x % p < p = mod-lt x positive in
    let same : x % p + p * value n_radix ds ≡ 0 + p * w = omega arith in
    (ds, runs, same_high p (x % p) 0 (value n_radix ds) w low (omega arith) same, size, small)

-- The lower digits of the shift.
low_digits :
    (a : List ℕ) (shift w new : ℕ)
    → All (λ d. d < n_radix) a
    → shift / 56 + suc new ≤ length a
    → value n_radix a ≡ 2 ^ shift * w
    → w < n_radix ^ suc new
    → (ds : List ℕ) × (lower_digits new (shift % 56) (drop (shift / 56) a) ≡ some ds)
      × (value n_radix ds ≡ w)
      × (length ds ≡ suc new)
      × All (λ d. d < n_radix) ds
low_digits a shift w new ha len same fits =
    let shorter = length-drop (shift / 56) a in
    digits_below (shift % 56) new w (drop (shift / 56) a) (omega arith)
      (drop-All (λ (d : ℕ). d < n_radix) (shift / 56) a ha) (omega arith) fits
      (dropped-value a shift w ha (omega arith) same)

-- `digits_of` without wrap-around.
pub digits_of_lem : (bits : ℕ) → 0 < bits → bits ≤ 2 ^ 32 → digits_of bits ≡ suc ((bits - 1) / 56)
digits_of_lem bits pos le = omega arith

-- The low digits, the 0s that clear the digits of the shifted number, and the digits above.
cleared-value :
    (ds a : List ℕ) (k old : ℕ)
    → length ds ≡ k
    → All (λ d. d < n_radix) ds
    → All (λ d. d < n_radix) a
    → k ≤ old
    → old ≤ length a
    → value n_radix a < n_radix ^ old
    → let r = ds ++ replicate (old - k) 0 ++ drop old a in
      (value n_radix r ≡ value n_radix ds) × (length r ≡ length a) × All (λ d. d < n_radix) r
cleared-value ds a k old size hds ha le len fits =
    let none : List ℕ = replicate (old - k) 0 in
    let top = drop old a in
    let zero_top = rest-zero a old len fits in
    let size_none = length-replicate {A = ℕ} (old - k) 0 in
    let size_top = length-drop old a in
    let size_low = length-append ds none in
    (
      value-append n_radix (ds ++ none) top
          ∙ rw zero_top (omega arith)
          ∙ value-append n_radix ds none
          ∙ rw (value-zeros n_radix (old - k)) (omega arith),
      length-append (ds ++ none) top ∙ rw (size_low, size_none, size_top, size) (omega arith),
      append-All _ (ds ++ none) top (append-All _ ds none hds (zeros_small (old - k)))
          (drop-All (λ (d : ℕ). d < n_radix) old a ha),
    )

shift_right_runs :
    (a : List ℕ) (a_bits shift new old : ℕ) (ds : List ℕ)
    → (shift == 0) ≡ false
    → (a_bits + 2 ^ 32 - shift) % 2 ^ 32 ≡ a_bits - shift
    → digits_of (a_bits - shift) ≡ suc new
    → digits_of a_bits ≡ suc old
    → lower_digits new (shift % 56) (drop (shift / 56) a) ≡ some ds
    → n_shift_right a a_bits shift
      ≡ some (a_bits - shift, ds ++ replicate (suc old - suc new) 0 ++ drop (suc old) a)
unfolding n_shift_right
shift_right_runs a a_bits shift new old ds nonzero kept new_digits old_digits runs =
    let one_less : suc new - 1 ≡ new = omega arith in
    rw (nonzero, kept, new_digits, old_digits, one_less, runs) refl

-- `N_shift_right` by less than the number of bits, where the power of two divides the number, is the
-- quotient.
pub n_shift_right-value :
    (a : List ℕ) (a_bits shift w : ℕ)
    → All (λ d. d < n_radix) a
    → length a ≡ 38
    → IsBitLength (value n_radix a) a_bits
    → shift < a_bits
    → value n_radix a ≡ 2 ^ shift * w
    → (r : List ℕ) × (n_shift_right a a_bits shift ≡ some (a_bits - shift, r))
      × (value n_radix r ≡ w)
      × (length r ≡ 38)
      × All (λ d. d < n_radix) r
unfolding n_shift_right
n_shift_right-value a a_bits zero w ha len bits lt same =
    (a, ap (λ (k : ℕ). some (k, a)) (omega arith), same ∙ omega arith, len, ha)
n_shift_right-value a a_bits (suc s) w ha len bits lt same =
    let shift = suc s in
    let below = bits.below in
    let present = digits_present a a_bits ha bits (omega arith) in
    let new = (a_bits - shift - 1) / 56 in
    let old = (a_bits - 1) / 56 in
    let kept : (a_bits + 2 ^ 32 - shift) % 2 ^ 32 ≡ a_bits - shift = omega arith in
    let old_digits = digits_of_lem a_bits (omega arith) (omega arith) in
    let new_digits = digits_of_lem (a_bits - shift) (omega arith) (omega arith) in
    let left = shifted-lt shift a_bits w (rw same at below) (omega arith) in
    let room = bits_in_digits (a_bits - shift) (suc new) (omega arith) in
    let room_old = bits_in_digits a_bits (suc old) (omega arith) in
    let (ds, runs, total, size, small) =
      low_digits a shift w new ha (omega arith) same (omega arith) in
    let (sum, sized, smalls) =
      cleared-value ds a (suc new) (suc old) size small ha (omega arith) (omega arith)
        (omega arith) in
    let nonzero : (suc s == 0) ≡ false = ground arith in
    (
      ds ++ replicate (suc old - suc new) 0 ++ drop (suc old) a,
      shift_right_runs a a_bits shift new old ds nonzero kept new_digits old_digits runs,
      sum ∙ total,
      sized ∙ len,
      smalls,
    )
