-- ===== src/Natural/Modexp/Left.antt =====
-- `N_shift_left` of src/encodings/natural.c is the product with a power of two.
use native.Mathlib.Nat.{
  mod-lt, mod-add-div, mul-le-mul_left, pow-suc, pow-zero, zero-div, pow-le-pow_right,
}
use reqrypt.Common.{
  ltb, leb, ◌==◌, length, take, drop, replicate, All, length-append, length-take, length-drop,
  length-replicate, take-All, drop-All, append-All, u32, u64, bit_or_none, bit_or_add_high, value,
  value-append, value-zeros, pow-add, value-split, ℕ, zero, suc, ◌+◌, ◌-◌, ◌*◌, ◌/◌, ◌%◌, ◌^◌, ◌≤◌,
  ◌<◌, bit_or, ◌≡◌, refl, sym, ap, ◌∙◌, false, ◌||◌, some, List, [], ◌∷◌, ◌++◌, arith,
}
use reqrypt.Natural.Mul.{zeros_small}
use reqrypt.Natural.{n_radix}
use reqrypt.Natural.Bits.{IsBitLength}
use reqrypt.Natural.Modexp.{raise_digits, raise_first, digits_of, n_shift_left}
use reqrypt.Natural.Modexp.Digit.{raised-eq, split_digit, two_pos, quotient-lt, next_le}
use reqrypt.Natural.Modexp.Room.{power_parts, rest-zero, bits_in_digits}
use reqrypt.Natural.Modexp.Right.{digits_of_lem}

swap : (p q : ℕ) → p * q ≡ q * p
swap p q = omega arith

rearrange : (r p v : ℕ) → r * (p * v) ≡ r * p * v
rearrange r p v = omega arith

-- A digit that moves up, and the bits that it takes from the digit below.
raised_digit :
    (offset x below : ℕ)
    → offset < 56
    → below < n_radix
    → (bit_or (u64 (x * 2 ^ offset) % n_radix) (below / 2 ^ (56 - offset))
          + n_radix * (x / 2 ^ (56 - offset))
        ≡ 2 ^ offset * x + below / 2 ^ (56 - offset))
      × (bit_or (u64 (x * 2 ^ offset) % n_radix) (below / 2 ^ (56 - offset)) < n_radix)
raised_digit offset x below h hb =
    let p = 2 ^ offset in
    let q = 2 ^ (56 - offset) in
    let whole : q * p ≡ n_radix = swap q p ∙ split_digit offset (omega arith) in
    let raised : u64 (x * p) % n_radix ≡ x % q * p =
      raised-eq q p x whole (two_pos (56 - offset)) (two_pos offset) in
    let low : below / q < p = quotient-lt q p below (two_pos (56 - offset)) (rw whole hb) in
    let digit : bit_or (u64 (x * p) % n_radix) (below / q) ≡ x % q * p + below / q =
      rw raised (bit_or_add_high offset (x % q) (below / q) low) in
    let part : x % q + 1 ≤ q = next_le (mod-lt x (two_pos (56 - offset))) in
    let fits : p * (x % q + 1) ≤ p * q = mul-le-mul_left p part in
    let scaled : p * x ≡ p * (x % q) + n_radix * (x / q) =
      ap (λ (k : ℕ). p * k) (sym (mod-add-div x q))
      ∙ spread p q (x % q) (x / q)
      ∙ ap (λ (r : ℕ). p * (x % q) + r * (x / q)) whole in
    rw digit (omega arith, omega arith)
  where
    spread : (p q r d : ℕ) → p * (r + q * d) ≡ p * r + q * p * d
    spread p q r d = omega arith

-- The digits that move up.
raise_digits-value :
    (offset below : ℕ) (xs : List ℕ)
    → offset < 56
    → below < n_radix
    → All (λ d. d < n_radix) xs
    → 2 ^ offset * value n_radix xs + below / 2 ^ (56 - offset) < n_radix ^ length xs
    → (value n_radix (raise_digits offset below xs)
        ≡ 2 ^ offset * value n_radix xs + below / 2 ^ (56 - offset))
      × (length (raise_digits offset below xs) ≡ length xs)
      × All (λ d. d < n_radix) (raise_digits offset below xs)
unfolding raise_digits value
raise_digits-value offset below [] ho hb hs fits =
    let one : n_radix ^ 0 ≡ 1 = pow-zero n_radix in (omega arith, refl, tt)
raise_digits-value offset below (x ∷ xs) ho hb (hx, hs) fits =
    let (digit, small) = raised_digit offset x below ho hb in
    let scale : n_radix ^ suc (length xs) ≡ n_radix * n_radix ^ length xs =
      rw pow-suc (omega arith) in
    let (sum, size, smalls) = raise_digits-value offset x xs ho hx hs (omega arith) in
    (rw sum (omega arith), ap suc size, (small, smalls))

-- The lowest digit takes nothing from below.
first_digit :
    (offset x : ℕ)
    → offset < 56
    → (u64 (x * 2 ^ offset) % n_radix + n_radix * (x / 2 ^ (56 - offset)) ≡ 2 ^ offset * x)
      × (u64 (x * 2 ^ offset) % n_radix < n_radix)
first_digit offset x h =
    let (digit, small) = raised_digit offset x 0 h (omega arith) in
    let nothing : 0 / 2 ^ (56 - offset) ≡ 0 = zero-div (2 ^ (56 - offset)) in
    let digit' : u64 (x * 2 ^ offset) % n_radix + n_radix * (x / 2 ^ (56 - offset))
        ≡ 2 ^ offset * x + 0 =
      rw (nothing, bit_or_none (u64 (x * 2 ^ offset) % n_radix)) at digit in
    (omega arith, omega arith)

raise_first-value :
    (offset : ℕ) (xs : List ℕ)
    → offset < 56
    → All (λ d. d < n_radix) xs
    → 2 ^ offset * value n_radix xs < n_radix ^ length xs
    → (value n_radix (raise_first offset xs) ≡ 2 ^ offset * value n_radix xs)
      × (length (raise_first offset xs) ≡ length xs)
      × All (λ d. d < n_radix) (raise_first offset xs)
unfolding value raise_first
raise_first-value offset [] ho hs fits = (omega arith, refl, tt)
raise_first-value offset (x ∷ xs) ho (hx, hs) fits =
    let (digit, small) = first_digit offset x ho in
    let scale : n_radix ^ suc (length xs) ≡ n_radix * n_radix ^ length xs =
      rw pow-suc (omega arith) in
    let (sum, size, smalls) = raise_digits-value offset x xs ho hx hs (omega arith) in
    (rw sum (omega arith), ap suc size, (small, smalls))

-- The 0s below, the digits that move up, and the digits above the number.
raised-value :
    (a : List ℕ) (index offset k : ℕ)
    → offset < 56
    → index + k ≤ length a
    → All (λ d. d < n_radix) a
    → value n_radix a < n_radix ^ k
    → 2 ^ offset * value n_radix a < n_radix ^ k
    → let r = replicate index 0 ++ raise_first offset (take k a) ++ drop (index + k) a in
      (value n_radix r ≡ n_radix ^ index * (2 ^ offset * value n_radix a))
      × (length r ≡ length a)
      × All (λ d. d < n_radix) r
raised-value a index offset k ho len ha fits room =
    let none : List ℕ = replicate index 0 in
    let moved = raise_first offset (take k a) in
    let top = drop (index + k) a in
    let taken = length-take k a in
    let size_k : length (take k a) ≡ k = omega arith in
    let split = value-split n_radix k a (omega arith) in
    let zero_above = rest-zero a k (omega arith) fits in
    let whole : value n_radix (take k a) ≡ value n_radix a =
      sym (split ∙ rw zero_above (omega arith)) in
    let (sum, size, small) =
      raise_first-value offset (take k a) ho (take-All _ k a ha) (rw (whole, size_k) room) in
    let wider : n_radix ^ k ≤ n_radix ^ (index + k) =
      pow-le-pow_right {n = n_radix} (omega arith) {i = k} {j = index + k} (omega arith) in
    let zero_top = rest-zero a (index + k) len (omega arith) in
    let size_none = length-replicate {A = ℕ} index 0 in
    let size_top = length-drop (index + k) a in
    let size_low = length-append none moved in
    (
      value-append n_radix (none ++ moved) top
          ∙ rw zero_top (omega arith)
          ∙ value-append n_radix none moved
          ∙ rw (value-zeros n_radix index, size_none, sum, whole) (omega arith),
      length-append (none ++ moved) top
          ∙ rw (size_low, size_none, size_top, size, size_k) (omega arith),
      append-All _ (none ++ moved) top (append-All _ none moved (zeros_small index) small)
          (drop-All (λ (d : ℕ). d < n_radix) (index + k) a ha),
    )

shift_left_runs :
    (a : List ℕ) (a_bits shift size k : ℕ)
    → (shift == 0) ≡ false
    → u32 (a_bits + shift) ≡ a_bits + shift
    → digits_of (a_bits + shift) ≡ size
    → size ≤ length a
    → shift / 56 + k ≡ size
    → 0 < k
    → n_shift_left a a_bits shift
      ≡ some (
        a_bits + shift,
        replicate (shift / 56) 0 ++ raise_first (shift % 56) (take k a) ++ drop (shift / 56 + k) a,
      )
unfolding n_shift_left
shift_left_runs a a_bits shift size k nonzero kept digits len total pos =
    let inside : (ltb (length a) size || leb size (shift / 56)) ≡ false = ground arith in
    let left : size - shift / 56 ≡ k = omega arith in
    rw (nonzero, kept, digits, inside, left, total) refl

-- `N_shift_left` of a number that has bits, where the result fits in the 38 digits, is the product with
-- the power of two.
pub n_shift_left-value :
    (a : List ℕ) (a_bits shift : ℕ)
    → All (λ d. d < n_radix) a
    → length a ≡ 38
    → IsBitLength (value n_radix a) a_bits
    → 0 < a_bits
    → a_bits + shift ≤ 2128
    → (r : List ℕ) × (n_shift_left a a_bits shift ≡ some (a_bits + shift, r))
      × (value n_radix r ≡ 2 ^ shift * value n_radix a)
      × (length r ≡ 38)
      × All (λ d. d < n_radix) r
unfolding n_shift_left
n_shift_left-value a a_bits zero ha len bits pos fits =
    (a, ap (λ (k : ℕ). some (k, a)) (omega arith), omega (arith, pow-zero 2), len, ha)
n_shift_left-value a a_bits (suc s) ha len bits pos fits =
    let shift = suc s in
    let index = shift / 56 in
    let offset = shift % 56 in
    let size = suc ((a_bits + shift - 1) / 56) in
    let k = size - index in
    let below = bits.below in
    let digits = digits_of_lem (a_bits + shift) (omega arith) (omega arith) in
    let nonzero : (suc s == 0) ≡ false = ground arith in
    let room = bits_in_digits a_bits k (omega arith) in
    let room' = bits_in_digits (offset + a_bits) k (omega arith) in
    let power = pow-add 2 offset a_bits in
    let product : 2 ^ offset * (value n_radix a + 1) ≤ 2 ^ offset * 2 ^ a_bits =
      mul-le-mul_left (2 ^ offset) (next_le below) in
    let positive = two_pos offset in
    let (sum, sized, small) =
      raised-value a index offset k (omega arith) (omega arith) ha (omega arith) (omega arith) in
    (
      replicate index 0 ++ raise_first offset (take k a) ++ drop (index + k) a,
      shift_left_runs a a_bits shift size k nonzero (omega arith) digits (omega arith) (omega arith)
          (omega arith),
      sum
          ∙ rearrange (n_radix ^ index) (2 ^ offset) (value n_radix a)
          ∙ ap (λ (p : ℕ). p * value n_radix a) (sym (power_parts shift)),
      sized ∙ len,
      small,
    )
