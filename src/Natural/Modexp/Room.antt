-- ===== src/Natural/Modexp/Room.antt =====
-- How many digits the bits of a number take, for the shifts of src/encodings/natural.c.
use native.Mathlib.Nat.{mul-le-mul_left, pow-le-pow_right}
use reqrypt.Common.{
  ltb, ◌==◌, ==_iff, Bool-cases, length, drop, value, pow-add, pow-mul, value-split, ℕ, ◌+◌, ◌-◌,
  ◌*◌, ◌/◌, ◌%◌, ◌^◌, ◌≤◌, ◌<◌, ◌≡◌, sym, ap, ◌∙◌, inl, inr, List, arith,
}
use reqrypt.Natural.{n_radix}

-- A shift in whole digits and in bits.
pub power_parts : (shift : ℕ) → 2 ^ shift ≡ n_radix ^ (shift / 56) * 2 ^ (shift % 56)
power_parts shift =
    let total : shift ≡ 56 * (shift / 56) + shift % 56 = omega arith in
    ap (λ (k : ℕ). 2 ^ k) total
    ∙ pow-add 2 (56 * (shift / 56)) (shift % 56)
    ∙ ap (λ (r : ℕ). r * 2 ^ (shift % 56)) (sym (pow-mul 2 56 (shift / 56)))

-- What the shift leaves has that many bits less.
pub shifted-lt :
    (shift bits w : ℕ) → 2 ^ shift * w < 2 ^ bits → shift ≤ bits → w < 2 ^ (bits - shift)
shifted-lt shift bits w h le =
    let total : shift + (bits - shift) ≡ bits = omega arith in
    let power : 2 ^ bits ≡ 2 ^ shift * 2 ^ (bits - shift) =
      ap (λ (k : ℕ). 2 ^ k) (sym total) ∙ pow-add 2 shift (bits - shift) in
    elim (Bool-cases (ltb w (2 ^ (bits - shift)))) [
      | inl e ↦ ground arith
      | inr e ↦
          let product : 2 ^ shift * 2 ^ (bits - shift) ≤ 2 ^ shift * w =
            mul-le-mul_left (2 ^ shift) (ground arith) in
          absurd (omega arith)
    ]

-- A number below a power of the radix has only 0s from there on.
pub rest-zero :
    (a : List ℕ) (k : ℕ)
    → k ≤ length a
    → value n_radix a < n_radix ^ k
    → value n_radix (drop k a) ≡ 0
rest-zero a k len fits =
    let split = value-split n_radix k a len in
    elim (Bool-cases (value n_radix (drop k a) == 0)) [
      | inl e ↦ (==_iff (value n_radix (drop k a)) 0).0 e
      | inr e ↦
          let product : n_radix ^ k * 1 ≤ n_radix ^ k * value n_radix (drop k a) =
            mul-le-mul_left (n_radix ^ k) (ground arith) in
          absurd (omega arith)
    ]

-- Bits that digits have room for.
pub bits_in_digits : (bits k : ℕ) → bits ≤ 56 * k → 2 ^ bits ≤ n_radix ^ k
bits_in_digits bits k h =
    rw (pow-mul 2 56 k) (pow-le-pow_right {n = 2} (omega arith) {i = bits} {j = 56 * k} h)
