-- ===== src/Common/Digits.antt =====
-- Numbers as lists of digits, the lowest first.
use Prim.Native.Nat.{ℕ, zero, suc, ◌+◌, ◌*◌, ◌^◌, ◌≤◌, ◌<◌}
use mathlib.Core.Path.{◌≡◌, refl, ap}
use mathlib.Core.List.{List, [], ◌∷◌, ◌++◌}
use native.Mathlib.Nat.{pow-zero, pow-suc, mul-le-mul_left}
use mathlib.Core.Logic.{inl, inr}
use native.Mathlib.Omega.{arith}
use reqrypt.Common.Tests.{Bool-cases, ltb}
use mathlib.Core.Option.{some}
use reqrypt.Common.Lists.{length, get_elem?, take, drop, replicate, All}

unfoldable pub value : ℕ → List ℕ → ℕ
value base [] = 0
value base (d ∷ ds) = d + base * value base ds

-- Below the base, the number is below the power.
pub value-lt : (base : ℕ) (ds : List ℕ) → All (λ d. d < base) ds → value base ds < base ^ length ds
unfolding value
value-lt base [] h = rw pow-zero (omega arith)
value-lt base (d ∷ ds) (hd, h) =
    let ih : value base ds + 1 ≤ base ^ length ds = omega (arith, value-lt base ds h) in
    rw pow-suc (omega (arith, mul-le-mul_left base ih))

pub value-append :
    (base : ℕ) (xs ys : List ℕ)
    → value base (xs ++ ys) ≡ value base xs + base ^ length xs * value base ys
unfolding value
value-append base [] ys = rw pow-zero (omega arith)
value-append base (x ∷ xs) ys = rw (value-append base xs ys, pow-suc) (omega arith)

pub value-zeros : (base n : ℕ) → value base (replicate n 0) ≡ 0
unfolding value
value-zeros base zero = refl
value-zeros base (suc n) = rw (value-zeros base n) (omega arith)

pub pow-add : (base m n : ℕ) → base ^ (m + n) ≡ base ^ m * base ^ n
pow-add base m zero =
    let none_added : m + 0 ≡ m = omega arith in rw (none_added, pow-zero) (omega arith)
pow-add base m (suc n) =
    let one_more : m + suc n ≡ suc (m + n) = omega arith in
    rw (one_more, pow-suc, pow-suc, pow-add base m n) (omega arith)

pub pow-mul : (base m n : ℕ) → (base ^ m) ^ n ≡ base ^ (m * n)
pow-mul base m zero =
    let none_left : m * 0 ≡ 0 = omega arith in rw (none_left, pow-zero, pow-zero) refl
pow-mul base m (suc n) =
    let one_more : m * suc n ≡ m * n + m = omega arith in
    rw (one_more, pow-add base (m * n) m, pow-suc, pow-mul base m n) refl

-- One more digit.
pub value_next_digit :
    (base : ℕ) (ds : List ℕ) (i d : ℕ)
    → get_elem? ds i ≡ some d
    → value base (take (suc i) ds) ≡ value base (take i ds) + base ^ i * d
unfolding value
value_next_digit base [] i d e = absurd (cc)
value_next_digit base (x ∷ ds) zero d e = rw pow-zero (ground arith)
value_next_digit base (x ∷ ds) (suc i) d e =
    rw (value_next_digit base ds i d e, pow-suc) (omega arith)

pub value-split :
    (base n : ℕ) (ds : List ℕ)
    → n ≤ length ds
    → value base ds ≡ value base (take n ds) + base ^ n * value base (drop n ds)
unfolding value
value-split base zero ds h = rw pow-zero (omega arith)
value-split base (suc n) [] h = absurd (omega arith)
value-split base (suc n) (d ∷ ds) h =
    rw (value-split base n ds (omega arith), pow-suc) (omega arith)

digit_gap : (base x y X Y : ℕ) → x < base → X < Y → x + base * X < y + base * Y
digit_gap base x y X Y small h =
    let product : base * (X + 1) ≤ base * Y = mul-le-mul_left base (omega arith) in omega arith

-- The digits above the lowest one are the same in equal numbers.
pub same_high : (base x y X Y : ℕ) → x < base → y < base → x + base * X ≡ y + base * Y → X ≡ Y
same_high base x y X Y small_x small_y same = elim (Bool-cases (ltb X Y)) [
  | inl e ↦ absurd (omega (arith, digit_gap base x y X Y small_x (ground arith)))
  | inr e ↦ elim (Bool-cases (ltb Y X)) [
    | inl e' ↦ absurd (omega (arith, digit_gap base y x Y X small_y (ground arith)))
    | inr e' ↦ ground arith
  ]
]

-- Digits below the base are read off the number.
pub value-injective :
    (base : ℕ) (xs ys : List ℕ)
    → All (λ d. d < base) xs
    → All (λ d. d < base) ys
    → length xs ≡ length ys
    → value base xs ≡ value base ys
    → xs ≡ ys
unfolding value
value-injective base [] [] hx hy len same = refl
value-injective base [] (y ∷ ys) hx hy len same = absurd (omega arith)
value-injective base (x ∷ xs) [] hx hy len same = absurd (omega arith)
value-injective base (x ∷ xs) (y ∷ ys) (small_x, hx) (small_y, hy) len same =
    let rest = same_high base x y (value base xs) (value base ys) small_x small_y same in
    let scaled : base * value base xs ≡ base * value base ys = ap (λ (k : ℕ). base * k) rest in
    let first : x ≡ y = omega arith in
    rw (first, value-injective base xs ys hx hy (omega arith) rest) refl
