-- ===== src/Common/Bits.antt =====
-- The bitwise operations at variables: the law of the lowest digit, masks, and disjoint halves.
use Prim.Native.Nat.{
  ℕ, zero, suc, ◌+◌, ◌*◌, ◌/◌, ◌%◌, ◌^◌, ◌≤◌, ◌<◌, min, max, bit_and, bit_or, digits, bitwise,
  bit_and-bitwise, bit_or-bitwise, bit_xor, bit_xor-bitwise, differ,
}
use mathlib.Core.Path.{◌≡◌, refl, ap, ◌∙◌}
use native.Mathlib.Nat.{pow-suc}
use native.Mathlib.Omega.{arith}

-- More fuel than the first number changes nothing.
module _ (rest : ℕ → ℕ) (op : ℕ → ℕ → ℕ) where
  enough : (n m a b : ℕ) → a ≤ n → a ≤ m → digits rest op n a b ≡ digits rest op m a b
  enough zero zero a b h k = refl
  enough zero (suc m) zero b h k = refl
  enough zero (suc m) (suc a) b h k = absurd (omega arith)
  enough (suc n) zero zero b h k = refl
  enough (suc n) zero (suc a) b h k = absurd (omega arith)
  enough (suc n) (suc m) zero b h k = refl
  enough (suc n) (suc m) (suc a) b h k =
      let same = enough n m (suc a / 2) (b / 2) (omega arith) (omega arith) in rw same

  lowest_digit :
      (a b : ℕ)
      → bitwise rest op (suc a) b ≡ bitwise rest op (suc a / 2) (b / 2) * 2 + op (suc a % 2) (b % 2)
  lowest_digit a b = rw (enough a (suc a / 2) (suc a / 2) (b / 2) (omega arith) (omega arith))

pub bit_or-digit : (a b : ℕ) → bit_or a b ≡ bit_or (a / 2) (b / 2) * 2 + max (a % 2) (b % 2)
bit_or-digit zero b = rw (bit_or-bitwise 0 b, bit_or-bitwise 0 (b / 2)) (omega arith)
bit_or-digit (suc a) b =
    rw (bit_or-bitwise (suc a) b, bit_or-bitwise (suc a / 2) (b / 2))
      (lowest_digit (λ y. y) max a b)

pub bit_and-digit : (a b : ℕ) → bit_and a b ≡ bit_and (a / 2) (b / 2) * 2 + min (a % 2) (b % 2)
bit_and-digit zero b = rw (bit_and-bitwise 0 b, bit_and-bitwise 0 (b / 2)) (omega arith)
bit_and-digit (suc a) b =
    rw (bit_and-bitwise (suc a) b, bit_and-bitwise (suc a / 2) (b / 2))
      (lowest_digit (λ y. 0) min a b)

-- The two halves of a word do not meet.
pub bit_or_add : (k x y : ℕ) → x < 2 ^ k → bit_or x (y * 2 ^ k) ≡ x + y * 2 ^ k
bit_or_add zero x y h =
    let none_left : x ≡ 0 = omega arith in
    let same : bit_or 0 (y * 1) ≡ y * 1 = bit_or-bitwise 0 (y * 1) in
    rw none_left (omega (arith, same))
bit_or_add (suc k) x y h =
    let half : x / 2 < 2 ^ k = omega (arith, pow-suc 2 k) in
    let double : y * 2 ^ suc k ≡ y * 2 ^ k * 2 = rw pow-suc (omega arith) in
    let upper : y * 2 ^ k * 2 / 2 ≡ y * 2 ^ k = omega arith in
    let even : y * 2 ^ k * 2 % 2 ≡ 0 = omega arith in
    rw (double, bit_or-digit x (y * 2 ^ k * 2), upper, even, bit_or_add k (x / 2) y half)
      (omega arith)

lt-power : (n : ℕ) → n < 2 ^ n
lt-power zero = omega arith
lt-power (suc n) = omega (arith, lt-power n, pow-suc 2 n)

pub bit_or_none : (x : ℕ) → bit_or x 0 ≡ x
bit_or_none x =
    let nothing : 0 * 2 ^ x ≡ 0 = omega arith in
    omega (arith, rw nothing at (bit_or_add x x 0 (lt-power x)))

pub bit_or_add_high : (k x y : ℕ) → y < 2 ^ k → bit_or (x * 2 ^ k) y ≡ x * 2 ^ k + y
bit_or_add_high zero x y h =
    let none_left : y ≡ 0 = omega arith in
    let same : bit_or (x * 1) 0 ≡ x * 1 = bit_or_none (x * 1) in rw none_left (omega (arith, same))
bit_or_add_high (suc k) x y h =
    let half : y / 2 < 2 ^ k = omega (arith, pow-suc 2 k) in
    let double : x * 2 ^ suc k ≡ x * 2 ^ k * 2 = rw pow-suc (omega arith) in
    let upper : x * 2 ^ k * 2 / 2 ≡ x * 2 ^ k = omega arith in
    let even : x * 2 ^ k * 2 % 2 ≡ 0 = omega arith in
    rw (double, bit_or-digit (x * 2 ^ k * 2) y, upper, even, bit_or_add_high k x (y / 2) half)
      (omega arith)

bit_and-zero_left : (a : ℕ) → bit_and 0 a ≡ 0
bit_and-zero_left a = bit_and-bitwise 0 a

-- A mask of six ones.
pub bit_and_63 : (a : ℕ) → bit_and 63 a ≡ a % 64
bit_and_63 a = omega (
  arith,
  bit_and-digit 63 a,
  bit_and-digit 31 (a / 2),
  bit_and-digit 15 (a / 2 / 2),
  bit_and-digit 7 (a / 2 / 2 / 2),
  bit_and-digit 3 (a / 2 / 2 / 2 / 2),
  bit_and-digit 1 (a / 2 / 2 / 2 / 2 / 2),
  bit_and-zero_left (a / 2 / 2 / 2 / 2 / 2 / 2),
)

bit_and_none : (k x : ℕ) → x < 2 ^ k → bit_and x 0 ≡ 0
bit_and_none zero x h = let none_left : x ≡ 0 = omega arith in rw none_left (bit_and-zero_left 0)
bit_and_none (suc k) x h =
    let smaller : x / 2 < 2 ^ k = omega (arith, pow-suc 2 k) in
    omega (arith, bit_and-digit x 0, bit_and_none k (x / 2) smaller)

-- The lowest bit.
pub bit_and_one : (x : ℕ) → bit_and x 1 ≡ x % 2
bit_and_one x = omega (arith, bit_and-digit x 1, bit_and_none x (x / 2) (omega (arith, lt-power x)))

differ_digits : (x y : ℕ) → x < 2 → y < 2 → differ x y ≡ (x + y) % 2
differ_digits zero y h k = omega arith
differ_digits (suc zero) zero h k = refl
differ_digits (suc zero) (suc zero) h k = refl
differ_digits (suc zero) (suc (suc y)) h k = absurd (omega arith)
differ_digits (suc (suc x)) y h k = absurd (omega arith)

pub bit_xor-digit : (a b : ℕ) → bit_xor a b ≡ bit_xor (a / 2) (b / 2) * 2 + (a % 2 + b % 2) % 2
bit_xor-digit zero b = rw (bit_xor-bitwise 0 b, bit_xor-bitwise 0 (b / 2)) (omega arith)
bit_xor-digit (suc a) b =
    rw (bit_xor-bitwise (suc a) b, bit_xor-bitwise (suc a / 2) (b / 2))
      (lowest_digit (λ y. y) differ a b
        ∙ ap (λ (d : ℕ). bitwise (λ y. y) differ (suc a / 2) (b / 2) * 2 + d)
            (differ_digits (suc a % 2) (b % 2) (omega arith) (omega arith)))

-- Exclusive or with the same number is injective: the lowest digits agree, then the others do.
bit_xor_bounded : (n a b r : ℕ) → a ≤ n → b ≤ n → bit_xor a r ≡ bit_xor b r → a ≡ b
bit_xor_bounded zero a b r ha hb e = omega arith
bit_xor_bounded (suc n) a b r ha hb e =
    let da = bit_xor-digit a r in
    let db = bit_xor-digit b r in
    let upper : bit_xor (a / 2) (r / 2) ≡ bit_xor (b / 2) (r / 2) = omega (arith, da, db, e) in
    let lower : a % 2 ≡ b % 2 = omega (arith, da, db, e) in
    let halves = bit_xor_bounded n (a / 2) (b / 2) (r / 2) (omega arith) (omega arith) upper in
    omega (arith, halves, lower)

pub bit_xor_cancel : (a b r : ℕ) → bit_xor a r ≡ bit_xor b r → a ≡ b
bit_xor_cancel a b r e = bit_xor_bounded (a + b) a b r (omega arith) (omega arith) e

pub bit_xor-lt : (k x y : ℕ) → x < 2 ^ k → y < 2 ^ k → bit_xor x y < 2 ^ k
bit_xor-lt zero x y h l =
    let none_x : x ≡ 0 = omega arith in
    let none_y : y ≡ 0 = omega arith in rw (none_x, none_y) (omega arith)
bit_xor-lt (suc k) x y h l =
    let digit = bit_xor-digit x y in
    let half_x : x / 2 < 2 ^ k = omega (arith, pow-suc 2 k) in
    let half_y : y / 2 < 2 ^ k = omega (arith, pow-suc 2 k) in
    let halves = bit_xor-lt k (x / 2) (y / 2) half_x half_y in
    let double = pow-suc 2 k in omega (arith, digit, halves, double)
