-- ===== src/Natural/Bits.antt =====
-- `N_bits` of src/encodings/natural.c counts the bits of a number.
use native.Mathlib.Nat.{pow-zero, pow-suc, mul-le-mul_left}
use reqrypt.Common.{
  ◌==◌, if◌then◌else◌, ==_iff, Bool-cases, length, get_elem?, take, All, length-take,
  get_elem?-some, get_elem?-All, take-All, u32, value, value-lt, pow-add, pow-mul, value_next_digit,
  ℕ, zero, suc, ◌+◌, ◌-◌, ◌*◌, ◌/◌, ◌^◌, ◌≤◌, ◌<◌, ◌≡◌, refl, sym, ap, ◌∙◌, inl, inr, some, List,
  arith,
}
use reqrypt.Natural.{digits_of_bits, n_radix, n_radix_shift, word_bits, bits_loop, n_bits}

-- `r` is the number of bits of `v`.
pub record IsBitLength (v r : ℕ) : Type 0 where
  pub below : v < 2 ^ r
  pub above : 0 < r → 2 ^ (r - 1) ≤ v

zero-IsBitLength : IsBitLength 0 0
zero-IsBitLength = record { below = rw pow-zero (omega arith); above = λ h. omega arith }

half-IsBitLength : (v r : ℕ) → 0 < v → IsBitLength (v / 2) r → IsBitLength v (r + 1)
half-IsBitLength v zero pos h =
    let b = h.below in
    let one : v < 2 ^ (0 + 1) = omega (arith, pow-zero 2, pow-suc 2 0) in
    record { below = one; above = λ k. omega (arith, pow-zero 2) }
half-IsBitLength v (suc r) pos h =
    let more : suc r + 1 ≡ suc (suc r) = omega arith in
    let same : suc (suc r) - 1 ≡ suc r = omega arith in
    let same' : suc r - 1 ≡ r = omega arith in
    let above : 2 ^ r ≤ v / 2 = rw same' at h.above (omega arith) in
    let b = h.below in
    let below : v < 2 ^ suc (suc r) = omega (arith, pow-suc 2 (suc r)) in
    let upper : 2 ^ suc r ≤ v = omega (arith, pow-suc 2 r) in
    rw more (record { below = below; above = λ k. rw same upper })

word_bits-IsBitLength : (fuel ai : ℕ) → ai < 2 ^ fuel → IsBitLength ai (word_bits fuel ai)
unfolding word_bits
word_bits-IsBitLength zero ai h =
    let none : ai ≡ 0 = omega (arith, pow-zero 2) in rw none zero-IsBitLength
word_bits-IsBitLength (suc fuel) ai h = elim (Bool-cases (ai == 0)) [
  | inl e ↦ let none : ai ≡ 0 = (==_iff ai 0).0 e in rw none zero-IsBitLength
  | inr e ↦
      let ih = word_bits-IsBitLength fuel (ai / 2) (omega (arith, pow-suc 2 fuel)) in
      rw e (half-IsBitLength ai (word_bits fuel (ai / 2)) (ground arith) ih)
]

-- The highest digit that is not 0 gives the number of bits.
top-IsBitLength :
    (low high i r : ℕ)
    → low < n_radix ^ i
    → 0 < high
    → IsBitLength high r
    → IsBitLength (low + n_radix ^ i * high) (i * n_radix_shift + r)
top-IsBitLength low high i zero h pos len = let b = len.below in absurd (omega (arith, pow-zero 2))
top-IsBitLength low high i (suc r) h pos len =
    let swapped : 56 * i ≡ i * 56 = omega arith in
    let radix : n_radix ^ i ≡ 2 ^ (i * 56) = pow-mul 2 56 i ∙ ap (λ (k : ℕ). 2 ^ k) swapped in
    let same : suc r - 1 ≡ r = omega arith in
    let lower : 2 ^ r ≤ high = rw same at len.above (omega arith) in
    let total : i * 56 + suc r ≡ suc (i * 56 + r) = omega arith in
    let total' : suc (i * 56 + r) - 1 ≡ i * 56 + r = omega arith in
    let b = len.below in
    let product : n_radix ^ i * (high + 1) ≤ n_radix ^ i * 2 ^ suc r =
      mul-le-mul_left (n_radix ^ i) (omega arith) in
    let product' = mul-le-mul_left (n_radix ^ i) lower in
    let below : low + n_radix ^ i * high < 2 ^ (i * 56 + suc r) =
      rw (pow-add 2 (i * 56) (suc r), sym radix) (omega arith) in
    let above : 2 ^ (i * 56 + suc r - 1) ≤ low + n_radix ^ i * high =
      rw (total, total', pow-add 2 (i * 56) r, sym radix) (omega arith) in
    record { below = below; above = λ k. above }

bits_above : (i w : ℕ) → suc i * n_radix_shift + w - n_radix_shift ≡ i * n_radix_shift + w
bits_above i w = omega arith

bits_loop_step :
    (a : List ℕ) (i ai : ℕ)
    → get_elem? a i ≡ some ai
    → bits_loop a (suc i) (suc i * n_radix_shift) ≡ (
        if ai == 0
        then bits_loop a i (i * n_radix_shift)
        else some (i * n_radix_shift + word_bits 64 ai))
unfolding bits_loop
bits_loop_step a i ai read =
    let next : suc i * 56 - 56 ≡ i * 56 = omega arith in
    rw (read, next)
      (ap (λ (bits : ℕ). if ai == 0 then bits_loop a i (i * n_radix_shift) else some bits)
        (bits_above i (word_bits 64 ai)))

top_digit :
    (a : List ℕ) (i ai : ℕ)
    → All (λ d. d < n_radix) a
    → i ≤ length a
    → get_elem? a i ≡ some ai
    → 0 < ai
    → IsBitLength (value n_radix (take (suc i) a)) (i * n_radix_shift + word_bits 64 ai)
top_digit a i ai h len read pos =
    let small : ai < n_radix = get_elem?-All (λ (d : ℕ). d < n_radix) a i ai h read in
    let low = value-lt n_radix (take i a) (take-All (λ (d : ℕ). d < n_radix) i a h) in
    let taken = length-take i a in
    let size : length (take i a) ≡ i = omega arith in
    rw (value_next_digit n_radix a i ai read) (
      top-IsBitLength (value n_radix (take i a)) ai i (word_bits 64 ai) (rw size at low) pos
        (word_bits-IsBitLength 64 ai (omega arith)))

bits_loop_end : (a : List ℕ) (bits : ℕ) → bits_loop a 0 bits ≡ some 0
unfolding bits_loop
bits_loop_end a bits = refl

-- A number of which the lowest `i` digits are read.
pub bits_loop-IsBitLength :
    (a : List ℕ) (i : ℕ)
    → All (λ d. d < n_radix) a
    → i ≤ length a
    → (r : ℕ) × (bits_loop a i (i * n_radix_shift) ≡ some r)
      × IsBitLength (value n_radix (take i a)) r
unfolding value
bits_loop-IsBitLength a zero h len = (0, bits_loop_end a _, zero-IsBitLength)
bits_loop-IsBitLength a (suc i) h len =
    let (ai, read) = get_elem?-some a i (omega arith) in
    let (r, runs, rest) = bits_loop-IsBitLength a i h (omega arith) in
    let step = bits_loop_step a i ai read in
    elim (Bool-cases (ai == 0)) [
      | inl e ↦
          let none : ai ≡ 0 = (==_iff ai 0).0 e in
          let sum : value n_radix (take (suc i) a) ≡ value n_radix (take i a) =
            value_next_digit n_radix a i ai read ∙ rw none (omega arith) in
          (r, rw e at step ∙ runs, rw sum rest)
      | inr e ↦ (
        i * 56 + word_bits 64 ai,
        rw e at step,
        top_digit a i ai h (omega arith) read (ground arith),
      )
    ]

-- A bound of at least one bit does not wrap.
pub digits_of_bits-eq :
    (bits : ℕ) → 0 < bits → bits < 2 ^ 31 → digits_of_bits bits ≡ (bits - 1) / n_radix_shift + 1
digits_of_bits-eq bits pos small = omega arith

-- `N_bits` of digits below 2^56, where the bound `bits` is from 1 to 2^31 - 1 and the array has the digits
-- that it takes up, returns the number of bits of the value of these digits: its loops end, and 64
-- shifts are enough for a digit.
pub n_bits-IsBitLength :
    (a : List ℕ) (bits : ℕ)
    → All (λ d. d < n_radix) a
    → 0 < bits
    → bits < 2 ^ 31
    → (bits - 1) / n_radix_shift + 1 ≤ length a
    → (r : ℕ) × (n_bits a bits ≡ some r)
      × IsBitLength (value n_radix (take ((bits - 1) / n_radix_shift + 1) a)) r
unfolding n_bits
n_bits-IsBitLength a bits h pos small len =
    let k = (bits - 1) / n_radix_shift + 1 in
    let whole : u32 (k * n_radix_shift) ≡ k * n_radix_shift = omega arith in
    rw (digits_of_bits-eq bits pos small, whole) (bits_loop-IsBitLength a k h len)
