-- ===== src/Natural/Modexp/Digit.antt =====
-- The digits that the shifts of src/encodings/natural.c put together.
use native.Mathlib.Nat.{mod-lt, mod-add-div, mul-le-mul_left, one-le-pow}
use reqrypt.Common.{
  ltb, Bool-cases, u64, bit_or_add, pow-add, ℕ, ◌+◌, ◌-◌, ◌*◌, ◌/◌, ◌%◌, ◌^◌, ◌≤◌, ◌<◌, ◌≡◌, refl,
  sym, ap, ◌∙◌, inl, inr, arith,
}
use reqrypt.Natural.{n_radix}
use reqrypt.Natural.Modexp.{lower_digit}

-- A digit in two parts, split at the offset of a shift.
pub split_digit : (offset : ℕ) → offset ≤ 56 → 2 ^ offset * 2 ^ (56 - offset) ≡ n_radix
split_digit offset h =
    let total : offset + (56 - offset) ≡ 56 = omega arith in
    sym (pow-add 2 offset (56 - offset)) ∙ ap (λ (k : ℕ). 2 ^ k) total

pub two_pos : (k : ℕ) → 1 ≤ 2 ^ k
two_pos k = one-le-pow k 2 (omega arith)

-- The quotient by one part is below the other.
pub quotient-lt : (p q x : ℕ) → 1 ≤ p → x < p * q → x / p < q
quotient-lt p q x pos h = elim (Bool-cases (ltb (x / p) q)) [
  | inl e ↦ ground arith
  | inr e ↦
      let product : p * q ≤ p * (x / p) = mul-le-mul_left p (ground arith) in
      absurd (omega (arith, mod-add-div x p))
]

scaled : (q p r d : ℕ) → (r + p * d) * q ≡ r * q + p * q * d
scaled q p r d = omega arith

joined : (q p r d s : ℕ) → p * (d + s * q) + r ≡ r + p * d + p * q * s
joined q p r d s = omega arith

pub next_le : {a b : ℕ} → a < b → a + 1 ≤ b
next_le h = omega arith

-- Shifting a word up and masking it keeps the bits that still fit.
pub raised-eq : (p q x : ℕ) → p * q ≡ n_radix → 1 ≤ p → 1 ≤ q → u64 (x * q) % n_radix ≡ x % p * q
raised-eq p q x whole pos_p pos_q =
    let parts = mod-add-div x p in
    let low : x % p + 1 ≤ p = next_le (mod-lt x pos_p) in
    let fits : q * (x % p + 1) ≤ q * p = mul-le-mul_left q low in
    let total : x * q ≡ x % p * q + n_radix * (x / p) =
      ap (λ (k : ℕ). k * q) (sym parts)
      ∙ scaled q p (x % p) (x / p)
      ∙ ap (λ (r : ℕ). x % p * q + r * (x / p)) whole in
    omega arith

-- `p` times the digit of a right shift.
pub lower_digit-value :
    (offset x above : ℕ)
    → offset < 56
    → x < n_radix
    → (2 ^ offset * lower_digit offset x above + x % 2 ^ offset
        ≡ x + n_radix * (above % 2 ^ offset))
      × (lower_digit offset x above < n_radix)
lower_digit-value offset x above h hx =
    let p = 2 ^ offset in
    let q = 2 ^ (56 - offset) in
    let whole = split_digit offset (omega arith) in
    let raised = raised-eq p q above whole (two_pos offset) (two_pos (56 - offset)) in
    let below : x / p < q = quotient-lt p q x (two_pos offset) (rw whole hx) in
    let digit : lower_digit offset x above ≡ x / p + above % p * q =
      rw raised (bit_or_add (56 - offset) (x / p) (above % p) below) in
    let low : above % p + 1 ≤ p = next_le (mod-lt above (two_pos offset)) in
    let fits : q * (above % p + 1) ≤ q * p = mul-le-mul_left q low in
    let total : p * (x / p + above % p * q) + x % p ≡ x + n_radix * (above % p) =
      joined q p (x % p) (x / p) (above % p) ∙ rw (mod-add-div x p, whole) refl in
    rw digit (total, omega arith)
