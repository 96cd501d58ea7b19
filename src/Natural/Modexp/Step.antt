-- ===== src/Natural/Modexp/Step.antt =====
-- A round of the loop of `N_mod` of src/encodings/natural.c.
use native.Mathlib.Nat.{mul-le-mul_left, pow-suc, pow-zero}
use reqrypt.Common.{
  ltb, Bool-cases, length, take, drop, All, value, pow-add, value-split, ℕ, zero, suc, ◌+◌, ◌-◌,
  ◌*◌, ◌^◌, ◌≤◌, ◌<◌, ◌≡◌, refl, sym, ap, ◌∙◌, inl, inr, true, false, some, List, arith,
}
use reqrypt.Natural.{n_radix}
use reqrypt.Natural.Bits.{IsBitLength}
use reqrypt.Natural.Compare.{order, digits_present}
use reqrypt.Natural.Modexp.{Division, shift_if, is_more, n_shift_right}
use reqrypt.Natural.Modexp.Digit.{two_pos, next_le}
use reqrypt.Natural.Modexp.Room.{rest-zero}
use reqrypt.Natural.Modexp.Right.{n_shift_right-value}

-- 38 digits below the radix.
pub record IsWide (a : List ℕ) : Type 0 where
  pub sized : length a ≡ 38
  pub small : All (λ d. d < n_radix) a

-- The variables of the loop: the divisor is `b` times a power of two, and has at least the bits of `n`.
pub record IsDivision (b b_bits : ℕ) (s : Division) : Type 0 where
  pub n_wide : IsWide s.n
  pub d_wide : IsWide s.d
  pub n_length : IsBitLength (value n_radix s.n) s.n_bits
  pub multiple : value n_radix s.d ≡ 2 ^ (s.d_bits - b_bits) * b
  pub enough : b_bits ≤ s.d_bits
  pub covers : s.n_bits ≤ s.d_bits

pub wide_bits : (a : List ℕ) (r : ℕ) → IsWide a → IsBitLength (value n_radix a) r → r ≤ 2128
wide_bits a zero wide bits = omega arith
wide_bits a (suc r) wide bits =
    let sized = wide.sized in
    let present = digits_present a (suc r) wide.small bits (omega arith) in omega arith

-- A number times a power of two has that many bits more.
pub scale-IsBitLength : (v r s : ℕ) → 0 < v → IsBitLength v r → IsBitLength (2 ^ s * v) (s + r)
scale-IsBitLength v zero s pos bits = let below = bits.below in absurd (omega (arith, pow-zero 2))
scale-IsBitLength v (suc r) s pos bits =
    let less_one : suc r - 1 ≡ r = omega arith in
    let lower : 2 ^ r ≤ v = rw less_one at bits.above (omega arith) in
    let sum : s + suc r - 1 ≡ s + r = omega arith in
    let b = bits.below in
    let positive = two_pos s in
    let product : 2 ^ s * (v + 1) ≤ 2 ^ s * 2 ^ suc r = mul-le-mul_left (2 ^ s) (next_le b) in
    let product' : 2 ^ s * 2 ^ r ≤ 2 ^ s * v = mul-le-mul_left (2 ^ s) lower in
    let upper : 2 ^ s * v < 2 ^ (s + suc r) = omega (arith, pow-add 2 s (suc r)) in
    let above : 2 ^ (s + r) ≤ 2 ^ s * v = omega (arith, pow-add 2 s r) in
    record { below = upper; above = λ h. rw sum above }

pub take-value_all :
    (a : List ℕ) (k : ℕ)
    → k ≤ length a
    → value n_radix a < n_radix ^ k
    → value n_radix (take k a) ≡ value n_radix a
take-value_all a k len fits =
    let split = value-split n_radix k a len in
    let none = rest-zero a k len fits in
    let nothing : n_radix ^ k * value n_radix (drop k a) ≡ 0 = rw none (omega arith) in omega arith

pub power_step : (s t b : ℕ) → t ≤ s → 2 ^ s * b ≡ 2 ^ (s - t) * (2 ^ t * b)
power_step s t b h =
    let total : s - t + t ≡ s = omega arith in
    ap (λ (k : ℕ). 2 ^ k * b) (sym total)
    ∙ ap (λ (p : ℕ). p * b) (pow-add 2 (s - t) t)
    ∙ omega arith

shift_true : (d : List ℕ) (bits s : ℕ) → shift_if true d bits s ≡ n_shift_right d bits s
unfolding shift_if
shift_true d bits s = refl

shift_false : (d : List ℕ) (bits s : ℕ) → shift_if false d bits s ≡ some (bits, d)
unfolding shift_if
shift_false d bits s = refl

-- The bits of a multiple by a power of two.
pub multiple-IsBitLength :
    (v b b_bits bits : ℕ)
    → 0 < b
    → IsBitLength b b_bits
    → v ≡ 2 ^ (bits - b_bits) * b
    → b_bits ≤ bits
    → IsBitLength v bits
multiple-IsBitLength v b b_bits bits pos b_length multiple enough =
    let scaled = scale-IsBitLength b b_bits (bits - b_bits) pos b_length in
    let total : bits - b_bits + b_bits ≡ bits = omega arith in rw (sym multiple, total) at scaled

-- The first shift: the divisor gets the bits of `n`.
pub first_shift :
    (d : List ℕ) (b b_bits len d_bits : ℕ)
    → IsWide d
    → 0 < b
    → IsBitLength b b_bits
    → value n_radix d ≡ 2 ^ (d_bits - b_bits) * b
    → 0 < len
    → b_bits ≤ len
    → len ≤ d_bits
    → (r : List ℕ) × (shift_if (ltb len d_bits) d d_bits (d_bits - len) ≡ some (len, r))
      × (value n_radix r ≡ 2 ^ (len - b_bits) * b)
      × IsWide r
first_shift d b b_bits len d_bits wide pos bits multiple some_bits enough covers =
    elim (Bool-cases (ltb len d_bits)) [
      | inl e ↦
          let scaled = scale-IsBitLength b b_bits (d_bits - b_bits) pos bits in
          let total : d_bits - b_bits + b_bits ≡ d_bits = omega arith in
          let d_length : IsBitLength (value n_radix d) d_bits =
            rw (sym multiple, total) at scaled in
          let step = power_step (d_bits - b_bits) (len - b_bits) b (omega arith) in
          let gap : d_bits - b_bits - (len - b_bits) ≡ d_bits - len = omega arith in
          let (r, runs, sum, size, small) =
            n_shift_right-value d d_bits (d_bits - len) (2 ^ (len - b_bits) * b) wide.small
              wide.sized d_length (omega arith) (multiple ∙ rw gap at step) in
          let left : d_bits - (d_bits - len) ≡ len = omega arith in
          (
            r,
            rw e (shift_true _ _ _ ∙ rw left at runs),
            sum,
            record { sized = size; small = small },
          )
      | inr e ↦
          let equal : d_bits ≡ len = ground arith in
          (
            d,
            rw e (shift_false _ _ _ ∙ ap (λ (k : ℕ). some (k, d)) equal),
            rw equal at multiple,
            wide,
          )
    ]

order_more_iff : (x y : ℕ) → is_more (order x y) ≡ ltb y x
order_more_iff x y = elim (Bool-cases (ltb y x)) [
  | inl e ↦ rw e refl
  | inr e ↦ elim (Bool-cases (ltb x y)) [ inl e' ↦ rw (e, e') refl | inr e' ↦ rw (e, e') refl ]
]

-- A multiple that is more than `b` has more bits.
pub strict :
    (b b_bits bits v : ℕ) → v ≡ 2 ^ (bits - b_bits) * b → b_bits ≤ bits → b < v → b_bits < bits
strict b b_bits bits v e h lt = elim (Bool-cases (ltb b_bits bits)) [
  | inl e' ↦ ground arith
  | inr e' ↦
      let none : bits - b_bits ≡ 0 = ground arith in
      let same : v ≡ 2 ^ 0 * b = e ∙ ap (λ (k : ℕ). 2 ^ k * b) none in
      absurd (omega (arith, pow-zero 2))
]

-- A multiple with a bit to spare is halved.
halve :
    (d : List ℕ) (b b_bits bits : ℕ)
    → IsWide d
    → 0 < b
    → IsBitLength b b_bits
    → value n_radix d ≡ 2 ^ (bits - b_bits) * b
    → IsBitLength (value n_radix d) bits
    → b_bits < bits
    → 0 < b_bits
    → (r : List ℕ) × (n_shift_right d bits 1 ≡ some (bits - 1, r))
      × (value n_radix r ≡ 2 ^ (bits - 1 - b_bits) * b)
      × IsWide r
      × (value n_radix d ≡ 2 * value n_radix r)
      × IsBitLength (value n_radix r) (bits - 1)
halve d b b_bits bits wide pos b_length multiple d_length room some_bits =
    let one : bits - b_bits - (bits - 1 - b_bits) ≡ 1 = omega arith in
    let step : 2 ^ (bits - b_bits) * b ≡ 2 ^ 1 * (2 ^ (bits - 1 - b_bits) * b) =
      power_step (bits - b_bits) (bits - 1 - b_bits) b (omega arith)
      ∙ ap (λ (k : ℕ). 2 ^ k * (2 ^ (bits - 1 - b_bits) * b)) one in
    let (r, runs, sum, size, small) =
      n_shift_right-value d bits 1 (2 ^ (bits - 1 - b_bits) * b) wide.small wide.sized d_length
        (omega arith) (multiple ∙ step) in
    let half : value n_radix d ≡ 2 * value n_radix r = multiple ∙ step ∙ rw sum refl in
    let scaled = scale-IsBitLength b b_bits (bits - 1 - b_bits) pos b_length in
    let total : bits - 1 - b_bits + b_bits ≡ bits - 1 = omega arith in
    (r, runs, sum, record { sized = size; small = small }, half, rw (sym sum, total) at scaled)

-- The highest bit.
top_bit : (v r : ℕ) → 0 < r → IsBitLength v r → (v < 2 * 2 ^ (r - 1)) × (2 ^ (r - 1) ≤ v)
top_bit v zero pos bits = absurd (omega arith)
top_bit v (suc r) pos bits =
    let same' : suc r - 1 ≡ r = omega arith in
    let below = bits.below in
    let power = pow-suc 2 r in
    let above = bits.above pos in rw same' (omega arith, rw same' at above)

-- The second shift: the divisor is at most `n`, and more than half of it.
pub second_shift :
    (d : List ℕ) (b b_bits bits n : ℕ)
    → IsWide d
    → 0 < b
    → IsBitLength b b_bits
    → value n_radix d ≡ 2 ^ (bits - b_bits) * b
    → b < n
    → b_bits ≤ bits
    → 0 < b_bits
    → IsBitLength n bits
    → (bits' : ℕ) × (r : List ℕ) × (shift_if (is_more (order (value n_radix d) n)) d bits 1
        ≡ some (bits', r))
      × (value n_radix r ≡ 2 ^ (bits' - b_bits) * b)
      × IsWide r
      × (b_bits ≤ bits')
      × (value n_radix r ≤ n)
      × (n < 2 * value n_radix r)
      × IsBitLength (value n_radix r) bits'
second_shift d b b_bits bits n wide pos b_length multiple less_n enough some_bits n_length =
    let scaled = scale-IsBitLength b b_bits (bits - b_bits) pos b_length in
    let total : bits - b_bits + b_bits ≡ bits = omega arith in
    let d_length : IsBitLength (value n_radix d) bits = rw (sym multiple, total) at scaled in
    let (n_below, n_above) = top_bit n bits (omega arith) n_length in
    let (d_below, d_above) = top_bit (value n_radix d) bits (omega arith) d_length in
    elim (Bool-cases (ltb n (value n_radix d))) [
      | inl e ↦
          let large : n < value n_radix d = ground arith in
          let room = strict b b_bits bits (value n_radix d) multiple enough (omega arith) in
          let (r, runs, sum, wide_r, half, r_length) =
            halve d b b_bits bits wide pos b_length multiple d_length room some_bits in
          let chosen : shift_if (is_more (order (value n_radix d) n)) d bits 1
              ≡ some (bits - 1, r) =
            rw (order_more_iff (value n_radix d) n, e) (shift_true d bits 1 ∙ runs) in
          (bits - 1, r, chosen, sum, wide_r, omega arith, omega arith, omega arith, r_length)
      | inr e ↦
          let fits : value n_radix d ≤ n = ground arith in
          let chosen : shift_if (is_more (order (value n_radix d) n)) d bits 1 ≡ some (bits, d) =
            rw (order_more_iff (value n_radix d) n, e) (shift_false d bits 1) in
          (bits, d, chosen, multiple, wide, enough, fits, omega arith, d_length)
    ]
