-- ===== src/Natural/Modexp/Congruence.antt =====
-- Remainders of products and powers, for the power of src/encodings/natural.c.
use native.Mathlib.Nat.{add-mul-mod_self_right, mod-add-div, pow-suc, pow-zero}
use reqrypt.Common.{
  pow-add, pow-mul, ℕ, zero, suc, ◌+◌, ◌*◌, ◌/◌, ◌%◌, ◌^◌, ◌≡◌, refl, sym, ap, ◌∙◌, arith,
}

-- A factor may be replaced by its remainder.
mul_remainder : (x y m : ℕ) → (x * y) % m ≡ (x % m * y) % m
mul_remainder x y m =
    let split : (x % m + m * (x / m)) * y ≡ x % m * y + x / m * y * m = omega arith in
    ap (λ (k : ℕ). (k * y) % m) (sym (mod-add-div x m))
    ∙ ap (λ (k : ℕ). k % m) split
    ∙ add-mul-mod_self_right (x % m * y) (x / m * y) m

pub mul_congruent :
    (x x' y y' m : ℕ) → x % m ≡ x' % m → y % m ≡ y' % m → (x * y) % m ≡ (x' * y') % m
mul_congruent x x' y y' m hx hy =
    mul_remainder x y m
    ∙ ap (λ (k : ℕ). (k * y) % m) hx
    ∙ sym (mul_remainder x' y m)
    ∙ ap (λ (k : ℕ). k % m) (swap x' y)
    ∙ mul_remainder y x' m
    ∙ ap (λ (k : ℕ). (k * x') % m) hy
    ∙ sym (mul_remainder y' x' m)
    ∙ ap (λ (k : ℕ). k % m) (swap y' x')
  where
    swap : (p q : ℕ) → p * q ≡ q * p
    swap p q = omega arith

pub pow_congruent : (x y k m : ℕ) → x % m ≡ y % m → (x ^ k) % m ≡ (y ^ k) % m
pow_congruent x y zero m h = rw (pow-zero, pow-zero) refl
pow_congruent x y (suc k) m h =
    rw (pow-suc, pow-suc) (mul_congruent _ _ _ _ m (pow_congruent x y k m h) h)

pub square_power : (x k : ℕ) → (x * x) ^ k ≡ x ^ (2 * k)
square_power x zero = rw (pow-zero, pow-zero) refl
square_power x (suc k) =
    let next : 2 * suc k ≡ suc (suc (2 * k)) = omega arith in
    rw (next, pow-suc, pow-suc x (suc (2 * k)), pow-suc x (2 * k), square_power x k) (omega arith)

-- An array of 38 digits of which the lower half is a number.
pub to_none : (x y m : ℕ) → x % m ≡ (x * y ^ 0) % m
to_none x y m = let one : x ≡ x * y ^ 0 = rw pow-zero (omega arith) in ap (λ (k : ℕ). k % m) one

pub to_one : (x : ℕ) → x ^ 1 ≡ x
to_one x = rw (pow-suc x 0, pow-zero) (omega arith)

-- The step of square and multiply.
pub square_multiply :
    (t t1 t' a a1 w m : ℕ)
    → t1 % m ≡ (t * a ^ (w % 2)) % m
    → a1 % m ≡ (a * a) % m
    → t' % m ≡ (t1 * a1 ^ (w / 2)) % m
    → t' % m ≡ (t * a ^ w) % m
square_multiply t t1 t' a a1 w m h1 h2 h3 =
    let parts : w % 2 + 2 * (w / 2) ≡ w = omega arith in
    let joined : t * a ^ (w % 2) * (a * a) ^ (w / 2) ≡ t * a ^ w = rw (square_power a (w / 2)) (
      assoc t (a ^ (w % 2)) (a ^ (2 * (w / 2)))
      ∙ ap (λ (k : ℕ). t * k) (sym (pow-add a (w % 2) (2 * (w / 2))))
      ∙ ap (λ (k : ℕ). t * a ^ k) parts) in
    h3
    ∙ mul_congruent t1 _ _ _ m h1 (pow_congruent a1 (a * a) (w / 2) m h2)
    ∙ ap (λ (k : ℕ). k % m) joined
  where
    assoc : (x y z : ℕ) → x * y * z ≡ x * (y * z)
    assoc x y z = omega arith

-- The exponent in two parts.
pub exponent_parts :
    (t t1 t' a a1 w v k m : ℕ)
    → t1 % m ≡ (t * a ^ w) % m
    → a1 % m ≡ (a ^ k) % m
    → t' % m ≡ (t1 * a1 ^ v) % m
    → t' % m ≡ (t * a ^ (w + k * v)) % m
exponent_parts t t1 t' a a1 w v k m h1 h2 h3 =
    let joined : t * a ^ w * (a ^ k) ^ v ≡ t * a ^ (w + k * v) =
      rw (pow-mul a k v, pow-add a w (k * v)) (omega arith) in
    h3
    ∙ mul_congruent t1 _ _ _ m h1 (pow_congruent a1 (a ^ k) v m h2)
    ∙ ap (λ (x : ℕ). x % m) joined
