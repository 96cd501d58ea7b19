-- ===== src/Natural/Compare.antt =====
-- `N_cmp` of src/encodings/natural.c compares two numbers of which the bits are counted.
use native.Mathlib.Nat.{mul-le-mul_left, pow-le-pow_right}
use reqrypt.Common.{
  ltb, leb, ◌==◌, if◌then◌else◌, ==_iff, Bool-cases, length, take, drop, All, length-take,
  get_elem?-some, take-All, value, value-lt, pow-mul, value_next_digit, value-split, ℕ, zero, suc,
  ◌+◌, ◌-◌, ◌*◌, ◌/◌, ◌%◌, ◌^◌, ◌≤◌, ◌<◌, ◌≡◌, refl, inl, inr, Bool, true, false, some, List, arith,
}
use reqrypt.Natural.{n_radix, n_radix_shift, cmp_loop, n_cmp, Sign, more, same, less}
use reqrypt.Natural.Bits.{IsBitLength}

-- The order of two numbers.
abbrev pub order : ℕ → ℕ → Sign
order x y = if ltb y x then more else if ltb x y then less else same

order_more : (x y : ℕ) → y < x → order x y ≡ more
order_more x y h = ground arith

order_less : (x y : ℕ) → x < y → order x y ≡ less
order_less x y h = ground arith

order_shift : (x y k : ℕ) → order (x + k) (y + k) ≡ order x y
order_shift x y k = ground arith

-- A higher digit that is larger makes the number larger.
larger_digit : (x y scale hx hy : ℕ) → x < scale → hx < hy → x + scale * hx < y + scale * hy
larger_digit x y scale hx hy sx h =
    let product : scale * (hx + 1) ≤ scale * hy = mul-le-mul_left scale (omega arith) in omega arith

-- The higher digit decides, unless it is the same in both.
order_digits :
    (x y scale hx hy : ℕ)
    → x < scale
    → y < scale
    → order (x + scale * hx) (y + scale * hy)
      ≡ (if ltb hy hx then more else if ltb hx hy then less else order x y)
order_digits x y scale hx hy sx sy = elim (Bool-cases (ltb hy hx)) [
  | inl e ↦ rw e (order_more _ _ (larger_digit y x scale hy hx sy (ground arith)))
  | inr e ↦ elim (Bool-cases (ltb hx hy)) [
    | inl e' ↦ rw (e, e') (order_less _ _ (larger_digit x y scale hx hy sx (ground arith)))
    | inr e' ↦ let same : hx ≡ hy = ground arith in rw (e, e', same) (order_shift x y (scale * hy))
  ]
]

if-some :
    (b c : Bool) (x y z : Sign)
    → (if b then some x else if c then some y else some z)
      ≡ some (if b then x else if c then y else z)
if-some true c x y z = refl
if-some false true x y z = refl
if-some false false x y z = refl

-- The digits from the index below `i` down order the lowest `i` digits.
pub cmp_loop-order :
    (a b : List ℕ) (i : ℕ)
    → All (λ d. d < n_radix) a
    → All (λ d. d < n_radix) b
    → i ≤ length a
    → i ≤ length b
    → cmp_loop a b i ≡ some (order (value n_radix (take i a)) (value n_radix (take i b)))
unfolding cmp_loop value
cmp_loop-order a b zero ha hb la lb = refl
cmp_loop-order a b (suc i) ha hb la lb =
    let (ai, read_a) = get_elem?-some a i (omega arith) in
    let (bi, read_b) = get_elem?-some b i (omega arith) in
    let low_a = value-lt n_radix (take i a) (take-All (λ (d : ℕ). d < n_radix) i a ha) in
    let low_b = value-lt n_radix (take i b) (take-All (λ (d : ℕ). d < n_radix) i b hb) in
    let taken_a = length-take i a in
    let taken_b = length-take i b in
    let size_a : length (take i a) ≡ i = omega arith in
    let size_b : length (take i b) ≡ i = omega arith in
    let digits = order_digits _ _ (n_radix ^ i) ai bi (rw size_a at low_a) (rw size_b at low_b) in
    rw
      (
        read_a,
        read_b,
        cmp_loop-order a b i ha hb (omega arith) (omega arith),
        value_next_digit n_radix a i ai read_a,
        value_next_digit n_radix b i bi read_b,
        digits,
      )
      (if-some (ltb bi ai) (ltb ai bi) more less _)

-- More bits make a larger number.
pub IsBitLength-less : (x y r q : ℕ) → IsBitLength x r → IsBitLength y q → r < q → x < y
IsBitLength-less x y r q hx hy h =
    let below = hx.below in
    let above : 2 ^ (q - 1) ≤ y = hy.above (omega arith) in
    let between : 2 ^ r ≤ 2 ^ (q - 1) = pow-le-pow_right {n = 2} (omega arith) (omega arith) in
    omega arith

radix_power : (i : ℕ) → n_radix ^ i ≡ 2 ^ (n_radix_shift * i)
radix_power i = pow-mul 2 56 i

-- A number has the digits that its bits take up.
pub digits_present :
    (a : List ℕ) (r : ℕ)
    → All (λ d. d < n_radix) a
    → IsBitLength (value n_radix a) r
    → 0 < r
    → (r - 1) / n_radix_shift + 1 ≤ length a
digits_present a r ha bits pos = elim (Bool-cases (leb ((r - 1) / n_radix_shift + 1) (length a))) [
  | inl e ↦ ground arith
  | inr e ↦
      let short : length a ≤ (r - 1) / 56 = ground arith in
      let below : value n_radix a < n_radix ^ length a = value-lt n_radix a ha in
      let above : 2 ^ (r - 1) ≤ value n_radix a = bits.above pos in
      let between : 2 ^ (n_radix_shift * length a) ≤ 2 ^ (r - 1) =
        pow-le-pow_right {n = 2} (omega arith) (omega arith) in
      absurd (omega (arith, radix_power (length a)))
]

-- The digits above those that the bits take up are 0.
pub take-IsBitLength :
    (a : List ℕ) (r k : ℕ)
    → IsBitLength (value n_radix a) r
    → r ≤ n_radix_shift * k
    → k ≤ length a
    → value n_radix (take k a) ≡ value n_radix a
take-IsBitLength a r k bits fits len =
    let below = bits.below in
    let scale : 2 ^ r ≤ n_radix ^ k =
      rw (radix_power k) (pow-le-pow_right {n = 2} (omega arith) fits) in
    let high = value n_radix (drop k a) in
    let split : value n_radix a ≡ value n_radix (take k a) + n_radix ^ k * high =
      value-split n_radix k a len in
    elim (Bool-cases (high == 0)) [
      | inl e ↦
          let none : high ≡ 0 = (==_iff high 0).0 e in
          let gone : n_radix ^ k * high ≡ 0 = rw none (omega arith) in omega arith
      | inr e ↦
          let some_high : 1 ≤ high = ground arith in
          let product : n_radix ^ k * 1 ≤ n_radix ^ k * high =
            mul-le-mul_left (n_radix ^ k) some_high in
          absurd (omega arith)
    ]

same_bits :
    (a b : List ℕ) (bits : ℕ)
    → All (λ d. d < n_radix) a
    → All (λ d. d < n_radix) b
    → IsBitLength (value n_radix a) bits
    → IsBitLength (value n_radix b) bits
    → 0 < bits
    → bits < 2 ^ 32
    → cmp_loop a b ((bits + 2 ^ 32 - 1) % 2 ^ 32 / n_radix_shift + 1)
      ≡ some (order (value n_radix a) (value n_radix b))
same_bits a b bits ha hb bits_a bits_b pos fits =
    let k = (bits - 1) / 56 + 1 in
    let top : (bits + 2 ^ 32 - 1) % 2 ^ 32 / 56 + 1 ≡ k = omega arith in
    let in_a = digits_present a bits ha bits_a pos in
    let in_b = digits_present b bits hb bits_b pos in
    rw
      (
        top,
        cmp_loop-order a b k ha hb in_a in_b,
        take-IsBitLength a bits k bits_a (omega arith) in_a,
        take-IsBitLength b bits k bits_b (omega arith) in_b,
      )
      refl

-- `N_cmp` of two arrays of digits below 2^56, given the bits of both, of which one is not 0 and the first
-- fits in 32 bits, is the order of the two numbers.
pub n_cmp-order :
    (a b : List ℕ) (a_bits b_bits : ℕ)
    → All (λ d. d < n_radix) a
    → All (λ d. d < n_radix) b
    → IsBitLength (value n_radix a) a_bits
    → IsBitLength (value n_radix b) b_bits
    → 0 < a_bits + b_bits
    → a_bits < 2 ^ 32
    → n_cmp a b a_bits b_bits ≡ some (order (value n_radix a) (value n_radix b))
unfolding n_cmp
n_cmp-order a b a_bits b_bits ha hb bits_a bits_b pos fits = elim (Bool-cases (ltb b_bits a_bits)) [
  | inl e ↦
      let greater = IsBitLength-less _ _ b_bits a_bits bits_b bits_a (ground arith) in
      rw (e, order_more _ _ greater) refl
  | inr e ↦ elim (Bool-cases (ltb a_bits b_bits)) [
    | inl e' ↦
        let lesser = IsBitLength-less _ _ a_bits b_bits bits_a bits_b (ground arith) in
        rw (e, e', order_less _ _ lesser) refl
    | inr e' ↦
        let equal : b_bits ≡ a_bits = ground arith in
        rw (e, e') (same_bits a b a_bits ha hb bits_a (rw equal at bits_b) (omega arith) fits)
  ]
]
