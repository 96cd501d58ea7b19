-- ===== src/Common/Xor.antt =====
-- Exclusive or: its laws, and numbers in two parts.
use Prim.Native.Nat.{ℕ, zero, suc, ◌+◌, ◌*◌, ◌/◌, ◌%◌, ◌^◌, ◌≤◌, ◌<◌, bit_xor}
use mathlib.Core.Path.{◌≡◌, refl, sym, ◌∙◌}
use native.Mathlib.Nat.{pow-suc, pow-zero}
use native.Mathlib.Omega.{arith}
use reqrypt.Common.Bits.{bit_xor-digit}

comm_bounded : (n a b : ℕ) → a ≤ n → b ≤ n → bit_xor a b ≡ bit_xor b a
comm_bounded zero a b h k =
    let none_a : a ≡ 0 = omega arith in let none_b : b ≡ 0 = omega arith in rw (none_a, none_b) refl
comm_bounded (suc n) a b h k = omega (
  arith,
  bit_xor-digit a b,
  bit_xor-digit b a,
  comm_bounded n (a / 2) (b / 2) (omega arith) (omega arith),
)

pub bit_xor_comm : (a b : ℕ) → bit_xor a b ≡ bit_xor b a
bit_xor_comm a b = comm_bounded (a + b) a b (omega arith) (omega arith)

half_xor : (a b : ℕ) → bit_xor a b / 2 ≡ bit_xor (a / 2) (b / 2)
half_xor a b = omega (arith, bit_xor-digit a b)

low_xor : (a b : ℕ) → bit_xor a b % 2 ≡ (a % 2 + b % 2) % 2
low_xor a b = omega (arith, bit_xor-digit a b)

assoc_bounded :
    (n a b c : ℕ) → a ≤ n → b ≤ n → c ≤ n → bit_xor (bit_xor a b) c ≡ bit_xor a (bit_xor b c)
assoc_bounded zero a b c h k l =
    let none_a : a ≡ 0 = omega arith in
    let none_b : b ≡ 0 = omega arith in
    let none_c : c ≡ 0 = omega arith in rw (none_a, none_b, none_c) refl
assoc_bounded (suc n) a b c h k l =
    let left = bit_xor-digit (bit_xor a b) c in
    let right = bit_xor-digit a (bit_xor b c) in
    omega (
      arith,
      rw half_xor at left,
      rw half_xor at right,
      low_xor a b,
      low_xor b c,
      assoc_bounded n (a / 2) (b / 2) (c / 2) (omega arith) (omega arith) (omega arith),
    )

pub bit_xor_assoc : (a b c : ℕ) → bit_xor (bit_xor a b) c ≡ bit_xor a (bit_xor b c)
bit_xor_assoc a b c = assoc_bounded (a + b + c) a b c (omega arith) (omega arith) (omega arith)

-- Numbers in a high and a low part of `k` bits.
pub bit_xor_parts :
    (k x y a b : ℕ)
    → a < 2 ^ k
    → b < 2 ^ k
    → bit_xor (2 ^ k * x + a) (2 ^ k * y + b) ≡ 2 ^ k * bit_xor x y + bit_xor a b
bit_xor_parts zero x y a b h l =
    let none_a : a ≡ 0 = omega (arith, pow-zero 2) in
    let none_b : b ≡ 0 = omega (arith, pow-zero 2) in
    let whole : (n : ℕ) → 1 * n + 0 ≡ n = λ n. omega arith in
    rw (none_a, none_b, pow-zero 2) (rw (whole x, whole y) (sym (whole (bit_xor x y))))
bit_xor_parts (suc k) x y a b h l =
    let p = pow-suc 2 k in
    let half_x : (2 ^ suc k * x + a) / 2 ≡ 2 ^ k * x + a / 2 = rw p (omega arith) in
    let half_y : (2 ^ suc k * y + b) / 2 ≡ 2 ^ k * y + b / 2 = rw p (omega arith) in
    let low_x : (2 ^ suc k * x + a) % 2 ≡ a % 2 = rw p (omega arith) in
    let low_y : (2 ^ suc k * y + b) % 2 ≡ b % 2 = rw p (omega arith) in
    let digit = bit_xor-digit (2 ^ suc k * x + a) (2 ^ suc k * y + b) in
    let halves = bit_xor_parts k x y (a / 2) (b / 2) (omega (arith, p)) (omega (arith, p)) in
    rw (half_x, half_y, low_x, low_y, halves) at digit ∙ rw p (omega (arith, bit_xor-digit a b))

zero_bounded : (n a : ℕ) → a ≤ n → bit_xor a 0 ≡ a
zero_bounded zero a h = let none : a ≡ 0 = omega arith in rw none refl
zero_bounded (suc n) a h =
    let rest : bit_xor (a / 2) (0 / 2) ≡ a / 2 = zero_bounded n (a / 2) (omega arith) in
    omega (arith, bit_xor-digit a 0, rest)

pub bit_xor_zero : (a : ℕ) → bit_xor a 0 ≡ a
bit_xor_zero a = zero_bounded a a (omega arith)

pub zero_bit_xor : (a : ℕ) → bit_xor 0 a ≡ a
zero_bit_xor a = bit_xor_comm 0 a ∙ bit_xor_zero a

pub bit_xor_double : (a b : ℕ) → bit_xor (a * 2) (b * 2) ≡ bit_xor a b * 2
bit_xor_double a b =
    let half : (n : ℕ) → n * 2 / 2 ≡ n = λ n. omega arith in
    let digit = bit_xor-digit (a * 2) (b * 2) in omega (arith, rw (half a, half b) at digit)

pub bit_xor_swap : (a b c : ℕ) → bit_xor (bit_xor a b) c ≡ bit_xor (bit_xor a c) b
bit_xor_swap a b c = bit_xor_assoc a b c ∙ (rw (bit_xor_comm b c) refl ∙ sym (bit_xor_assoc a c b))
