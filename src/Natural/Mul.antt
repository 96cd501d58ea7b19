-- ===== src/Natural/Mul.antt =====
-- `N_mul` of src/encodings/natural.c computes the product.
use native.Mathlib.Nat.{mul-le-mul, pow-suc}
use reqrypt.Common.{
  length, take, replicate, All, length-replicate, u64, bit_or_add, value, value-lt, value-zeros,
  pow-add, pow-mul, ℕ, zero, suc, ◌+◌, ◌*◌, ◌^◌, ◌≤◌, ◌<◌, bit_or, ◌≡◌, refl, sym, ap, ◌∙◌, List,
  [], ◌∷◌, arith,
}
use reqrypt.Natural.{n_size, n_radix, split_digits, mul_loop, join_digits, n_mul}
use reqrypt.Natural.Rows.{half, Carried, mul_loop-value}

abbrev double : ℕ → ℕ
double zero = 0
double (suc n) = suc (suc (double n))

split_digits-value :
    (a : List ℕ)
    → All (λ d. d < n_radix) a
    → (value half (split_digits a) ≡ value n_radix a)
      × All (λ d. d < half) (split_digits a)
      × (length (split_digits a) ≡ double (length a))
unfolding split_digits value
split_digits-value [] h = (refl, tt, refl)
split_digits-value (d ∷ a) (hd, h) =
    let (same, small, size) = split_digits-value a h in
    (rw same (omega arith), (omega arith, (omega arith, small)), ap (λ n. suc (suc n)) size)

join_digits-value :
    (n : ℕ) (cm : List ℕ)
    → All (λ d. d < half) cm
    → length cm ≡ double n
    → (value n_radix (join_digits cm) ≡ value half cm)
      × (length (join_digits cm) ≡ n)
      × All (λ d. d < n_radix) (join_digits cm)
unfolding join_digits value
join_digits-value zero [] h len = (refl, refl, tt)
join_digits-value (suc n) [] h len = absurd (omega arith)
join_digits-value zero (lo ∷ cm) h len = absurd (omega arith)
join_digits-value (suc n) (lo ∷ []) h len = absurd (omega arith)
join_digits-value (suc n) (lo ∷ hi ∷ cm) (hl, (hh, h)) len =
    let shifted : u64 (hi * 2 ^ 28) ≡ hi * 2 ^ 28 = omega arith in
    let joined : bit_or lo (u64 (hi * 2 ^ 28)) ≡ lo + hi * 2 ^ 28 =
      rw shifted (bit_or_add 28 lo hi hl) in
    let (equal, size, small) = join_digits-value n cm h (omega arith) in
    (rw (joined, equal) (omega arith), ap suc size, (rw joined (omega arith), small))

-- The carry above the digits is a digit too, when the number has room in them.
Carried-small :
    (n : ℕ) (ds : List ℕ)
    → Carried n ds
    → length ds ≡ suc n
    → value half ds < half ^ suc n
    → All (λ d. d < half) ds
unfolding value
Carried-small n [] h len room = absurd h
Carried-small zero (d ∷ []) h len room = (omega arith, tt)
Carried-small zero (d ∷ d' ∷ ds) h len room = absurd (omega arith)
Carried-small (suc n) (d ∷ ds) (hd, h) len room =
    (hd, Carried-small n ds h (omega arith) (omega (arith, pow-suc half (suc n))))

double-eq : (n : ℕ) → double n ≡ 2 * n
double-eq zero = refl
double-eq (suc n) = omega (arith, double-eq n)

half_power : (n : ℕ) → n_radix ^ n ≡ half ^ double n
half_power n =
    let twice = double-eq n in
    pow-mul 2 56 n ∙ ap (λ (k : ℕ). 2 ^ k) (omega arith) ∙ sym (pow-mul 2 28 (double n))

-- A list of digits in which each is below the radix.
pub record IsNumber (a : List ℕ) : Type 0 where
  pub sized : length a ≡ n_size
  pub small : All (λ d. d < n_radix) a

-- A list of 0s.
pub zeros_small : (n : ℕ) → All (λ (d : ℕ). d < n_radix) (replicate n 0)
zeros_small zero = tt
zeros_small (suc n) = (omega arith, zeros_small n)

zeros : (n : ℕ) → All (λ (d : ℕ). d ≡ 0) (replicate n 0)
zeros zero = tt
zeros (suc n) = (refl, zeros n)

zeros-Carried : (n m : ℕ) → n < m → Carried n (replicate m 0)
zeros-Carried n zero h = absurd (omega arith)
zeros-Carried zero (suc m) h = (omega arith, zeros m)
zeros-Carried (suc n) (suc m) h = (omega arith, zeros-Carried n m (omega arith))

product_room :
    (a b : List ℕ) (n : ℕ)
    → All (λ d. d < n_radix) a
    → All (λ d. d < n_radix) b
    → length a + length b ≡ n
    → value n_radix a * value n_radix b < n_radix ^ n
product_room a b n ha hb total =
    let below_a = value-lt n_radix a ha in
    let below_b = value-lt n_radix b hb in
    let power : n_radix ^ n ≡ n_radix ^ length a * n_radix ^ length b =
      ap (λ (k : ℕ). n_radix ^ k) (sym total) ∙ pow-add n_radix (length a) (length b) in
    let product : (value n_radix a + 1) * (value n_radix b + 1)
        ≤ n_radix ^ length a * n_radix ^ length b =
      mul-le-mul {n₁ = value n_radix a + 1} {m₁ = value n_radix b + 1} {n₂ = n_radix ^ length a}
        {m₂ = n_radix ^ length b} (omega arith) (omega arith) in
    omega arith

-- The whole product, from the loops' lemmas; `size` is 19 and `room` is 76.
product-value :
    (a b : List ℕ) (size room end : ℕ)
    → length a ≡ suc size
    → length b ≡ suc size
    → room ≡ double (suc end)
    → double (suc size) + double (suc size) ≡ room
    → All (λ d. d < n_radix) a
    → All (λ d. d < n_radix) b
    → let c = join_digits (mul_loop (split_digits a) (split_digits b) (replicate room 0)) in
      (value n_radix c ≡ value n_radix a * value n_radix b)
      × (length c ≡ suc end)
      × All (λ d. d < n_radix) c
product-value a b size room end len_a len_b ends twice small_a small_b =
    let (same_a, half_a, size_a) = split_digits-value a small_a in
    let (same_b, half_b, size_b) = split_digits-value b small_b in
    let twice_a : length (split_digits a) ≡ double (suc size) = size_a ∙ ap double len_a in
    let twice_b : length (split_digits b) ≡ double (suc size) = size_b ∙ ap double len_b in
    let cm : List ℕ = replicate room 0 in
    let full : length cm ≡ room = length-replicate room 0 in
    let (product, kept, carried) =
      mul_loop-value (split_digits a) (split_digits b) cm (suc (double size)) (suc (double end))
        twice_b (omega arith) half_a half_b (zeros-Carried (suc (double size)) room (omega arith))
        (omega arith) in
    let sums = double-eq (suc end) in
    let sums' = double-eq (suc size) in
    let room_end : length (mul_loop (split_digits a) (split_digits b) cm) ≡ suc (suc (double end)) =
      kept ∙ full ∙ ends in
    let total : value half (mul_loop (split_digits a) (split_digits b) cm)
        ≡ value n_radix a * value n_radix b =
      product ∙ rw (same_a, same_b, value-zeros half room) (omega arith) in
    let fits = product_room a b (suc end) small_a small_b (rw (len_a, len_b) (omega arith)) in
    let room_small : value half (mul_loop (split_digits a) (split_digits b) cm)
        < half ^ suc (suc (double end)) =
      rw total (rw half_power at fits) in
    let small = Carried-small (suc (double end)) _ carried room_end room_small in
    let (joined, size_c, small_c) = join_digits-value (suc end) _ small room_end in
    (joined ∙ total, size_c, small_c)

-- `N_mul` of two arrays whose lower 19 digits are below 2^56 writes 38 digits, whose value is the product
-- of the values of the lower 19 digits.
pub n_mul-value :
    (a b : List ℕ)
    → IsNumber (take n_size a)
    → IsNumber (take n_size b)
    → (value n_radix (n_mul a b) ≡ value n_radix (take n_size a) * value n_radix (take n_size b))
      × (length (n_mul a b) ≡ 2 * n_size)
unfolding n_mul
n_mul-value a b na nb =
    let (same, size, _) =
      product-value (take n_size a) (take n_size b) 18 76 37 na.sized nb.sized refl refl na.small
        nb.small in
    (same, size)

-- The digits of the product are below the radix.
pub n_mul-small :
    (a b : List ℕ)
    → IsNumber (take n_size a)
    → IsNumber (take n_size b)
    → All (λ d. d < n_radix) (n_mul a b)
unfolding n_mul
n_mul-small a b na nb =
    let (_, _, small) =
      product-value (take n_size a) (take n_size b) 18 76 37 na.sized nb.sized refl refl na.small
        nb.small in
    small
