-- ===== src/Natural/Rows.antt =====
-- The rows of `N_mul` of src/encodings/natural.c and their carries.
use native.Mathlib.Nat.{mul-le-mul}
use reqrypt.Common.{
  length, All, u64, value, ℕ, zero, suc, ◌+◌, ◌-◌, ◌*◌, ◌/◌, ◌%◌, ◌^◌, ◌≤◌, ◌<◌, ◌≡◌, refl, ap, ◌∙◌,
  List, [], ◌∷◌, arith,
}
use reqrypt.Natural.{add_row, normalise, mul_loop}

abbrev pub half : ℕ
half = 2 ^ 28

-- `n` digits below a bound, and 0s above them.
abbrev pub Below : ℕ → ℕ → List ℕ → Type 0
Below bound zero ds = All (λ d. d ≡ 0) ds
Below bound (suc n) [] = ⊥
Below bound (suc n) (d ∷ ds) = (d < bound) × Below bound n ds

-- `n` digits of 28 bits, a carry above them, and 0s above that.
abbrev pub Carried : ℕ → List ℕ → Type 0
Carried n [] = ⊥
Carried zero (d ∷ ds) = (d < 2 ^ 32) × All (λ d. d ≡ 0) ds
Carried (suc n) (d ∷ ds) = (d < half) × Carried n ds

value-zero : (base : ℕ) (ds : List ℕ) → All (λ d. d ≡ 0) ds → value base ds ≡ 0
unfolding value
value-zero base [] h = refl
value-zero base (d ∷ ds) (hd, h) = rw (value-zero base ds h) (omega arith)

product-lt : (a b : ℕ) → a < half → b < half → a * b < 2 ^ 56
product-lt a b ha hb = omega (
  arith,
  mul-le-mul {n₁ = a} {m₁ = b} {n₂ = 2 ^ 28 - 1} {m₂ = 2 ^ 28 - 1} (omega arith) (omega arith),
)

-- One row: the product of a digit and a number is added, without overflow.
add_row-value :
    (a : ℕ) (bm cm : List ℕ) (n : ℕ)
    → a < half
    → All (λ b. b < half) bm
    → Carried n cm
    → length bm ≡ suc n
    → Below (2 ^ 57) (suc n) (add_row a bm cm)
      × (value half (add_row a bm cm) ≡ value half cm + a * value half bm)
      × (length (add_row a bm cm) ≡ length cm)
unfolding add_row value
add_row-value a [] cm n ha hb h len = absurd (omega arith)
add_row-value a (b ∷ bm) [] n ha hb h len = absurd h
add_row-value a (b ∷ []) (c ∷ cm) zero ha (small, hb) (hc, h) len =
    let product = product-lt a b ha small in
    let fits : u64 (c + u64 (a * b)) ≡ c + a * b = omega arith in
    ((omega arith, h), rw fits (omega arith), refl)
add_row-value a (b ∷ b' ∷ bm) (c ∷ cm) zero ha hb h len = absurd (omega arith)
add_row-value a (b ∷ bm) (c ∷ cm) (suc n) ha (small, hb) (hc, h) len =
    let (bound, sum, same) = add_row-value a bm cm n ha hb h (omega arith) in
    let product = product-lt a b ha small in
    let fits : u64 (c + u64 (a * b)) ≡ c + a * b = omega arith in
    ((omega arith, bound), rw (fits, sum) (omega arith), ap suc same)

-- The normalisation keeps the number, and leaves digits below 2^28 but for one carry above them.
normalise-value :
    (n lo : ℕ) (cm : List ℕ)
    → lo < 2 ^ 58
    → Below (2 ^ 57) n cm
    → n < length cm
    → (r : ℕ) × (rs : List ℕ) × (normalise (suc n) (lo ∷ cm) ≡ r ∷ rs)
      × (r < half)
      × Carried n rs
      × (length rs ≡ length cm)
      × (r + half * value half rs ≡ lo + half * value half cm)
unfolding normalise value
normalise-value n lo [] hl h len = absurd (omega arith)
normalise-value zero lo (hi ∷ cm) hl (zero_hi, h) len =
    let fits : u64 (hi + lo / 2 ^ 28) ≡ lo / half = ground arith in
    (lo % half, lo / half ∷ cm, rw fits, omega arith, (omega arith, h), refl, omega arith)
normalise-value (suc n) lo (hi ∷ cm) hl (h_hi, h) len =
    let fits : u64 (hi + lo / 2 ^ 28) ≡ hi + lo / half = ground arith in
    let (r, rs, runs, small, below, same_length, total) =
      normalise-value n (hi + lo / half) cm (omega arith) h (omega arith) in
    (
      lo % half,
      r ∷ rs,
      ap (λ (l : ℕ). lo % half ∷ normalise (suc n) (l ∷ cm)) fits
          ∙ ap (λ (l : List ℕ). lo % half ∷ l) runs,
      omega arith,
      (omega arith, below),
      rw same_length,
      omega arith,
    )

normalise_row :
    (n : ℕ) (row : List ℕ)
    → Below (2 ^ 57) (suc n) row
    → suc n < length row
    → (r : ℕ) × (rs : List ℕ) × (normalise (suc n) row ≡ r ∷ rs)
      × (r < half)
      × Carried n rs
      × (suc (length rs) ≡ length row)
      × (r + half * value half rs ≡ value half row)
unfolding value
normalise_row n [] h len = absurd h
normalise_row n (lo ∷ cm) (hl, h) len =
    let (r, rs, runs, small, below, same, total) =
      normalise-value n lo cm (omega arith) h (omega arith) in
    (r, rs, runs, small, below, ap suc same, total)

mul_loop_step :
    (a : ℕ) (am bm cm : List ℕ) (r : ℕ) (rs : List ℕ)
    → normalise (length bm) (add_row a bm cm) ≡ r ∷ rs
    → mul_loop (a ∷ am) bm cm ≡ r ∷ mul_loop am bm rs
unfolding mul_loop
mul_loop_step a am bm cm r rs e =
    ap (λ (l : List ℕ). elim l [ [] ↦ [] | c ∷ rest ↦ c ∷ mul_loop am bm rest ]) e

-- The whole loop: the product is added.
pub mul_loop-value :
    (am bm cm : List ℕ) (n end : ℕ)
    → length bm ≡ suc n
    → length am + n ≡ end
    → All (λ a. a < half) am
    → All (λ b. b < half) bm
    → Carried n cm
    → length am + length bm ≤ length cm
    → (value half (mul_loop am bm cm) ≡ value half cm + value half am * value half bm)
      × (length (mul_loop am bm cm) ≡ length cm)
      × Carried end (mul_loop am bm cm)
unfolding mul_loop value
mul_loop-value [] bm cm n end size ends ha hb h len =
    let same : n ≡ end = omega arith in (omega arith, refl, rw same at h)
mul_loop-value (a ∷ am) bm cm n zero size ends ha hb h len = absurd (omega arith)
mul_loop-value (a ∷ am) bm cm n (suc end) size ends (small, ha) hb h len =
    let (bound, sum, row_length) = add_row-value a bm cm n small hb h size in
    let (r, rs, runs, small_r, carried, same, total) =
      normalise_row n (add_row a bm cm) bound (omega arith) in
    let (product, size_rest, end_rest) =
      mul_loop-value am bm rs n end size (omega arith) ha hb carried (omega arith) in
    let step =
      mul_loop_step a am bm cm r rs (ap (λ k. normalise k (add_row a bm cm)) size ∙ runs) in
    rw step (rw product (omega arith), omega arith, (small_r, end_rest))
