-- ===== src/Natural/Modexp/Remainder.antt =====
-- `N_mod` of src/encodings/natural.c ends, with a remainder.
use mathlib.Core.Path.{subst}
use native.Mathlib.Nat.{pow-le-pow_right}
use reqrypt.Common.{
  ltb, if◌then◌else◌, Bool-cases, ◌>>=◌, take, replicate, length-append, length-take,
  length-replicate, take_all, take-All, append-All, value, value-lt, value-append, value-zeros,
  pow-mul, ℕ, ◌+◌, ◌-◌, ◌*◌, ◌^◌, ◌≤◌, ◌<◌, ◌≡◌, refl, sym, ◌∙◌, inl, inr, Option, some, List, ◌++◌,
  arith,
}
use reqrypt.Natural.{n_radix, n_size, n_bits}
use reqrypt.Natural.Bits.{IsBitLength, n_bits-IsBitLength}
use reqrypt.Natural.Range.{pos-IsBitLength}
use reqrypt.Natural.Mul.{zeros_small, IsNumber}
use reqrypt.Natural.Modexp.{mod_loop, n_mod, n_shift_left}
use reqrypt.Natural.Modexp.Left.{n_shift_left-value}
use reqrypt.Natural.Modexp.Step.{
  IsWide, IsDivision, wide_bits, scale-IsBitLength, take-value_all, power_step,
}
use reqrypt.Natural.Modexp.Rounds.{mod_loop-Ends, bits_monotone}
use reqrypt.Natural.Range.{number_bits}

-- The divisor in the upper half of the digits.
start-value :
    (b : List ℕ) (k : ℕ) → value n_radix (replicate k 0 ++ b) ≡ 2 ^ (56 * k) * value n_radix b
start-value b k =
    let none = length-replicate {A = ℕ} k 0 in
    value-append n_radix (replicate k 0) b
    ∙ rw (none, value-zeros n_radix k, pow-mul 2 56 k) (omega arith)

-- The reads of `n_mod`, in their order.
chain :
    (m1 m2 m3 : Option ℕ) (shift : ℕ → ℕ → Option (ℕ × List ℕ))
    (loop : ℕ → ℕ → ℕ → List ℕ → Option (List ℕ)) (n_len d_len b_len d_len' : ℕ) (d r : List ℕ)
    → m1 ≡ some n_len
    → m2 ≡ some d_len
    → m3 ≡ some b_len
    → shift n_len d_len ≡ some (d_len', d)
    → loop n_len b_len d_len' d ≡ some r
    → (do x ← m1; y ← m2; z ← m3; (y', d') ← shift x y; r' ← loop x z y' d'; some (take n_size r'))
      ≡ some (take n_size r)
chain m1 m2 m3 shift loop n_len d_len b_len d_len' d r e1 e2 e3 e4 e5 = rw (e1, e2, e3, e4, e5) refl

-- The first shift of `n_mod`.
abbrev align : List ℕ → ℕ → ℕ → Option (ℕ × List ℕ)
align d n_len d_len =
    if ltb d_len n_len then n_shift_left d d_len (n_len - d_len) else some (d_len, d)

n_mod_runs :
    (a b d r : List ℕ) (n_len d_len b_len d_len' : ℕ)
    → n_bits (take 38 a) 2128 ≡ some n_len
    → n_bits (replicate 19 0 ++ take 19 b) 2128 ≡ some d_len
    → n_bits b 1064 ≡ some b_len
    → align (replicate 19 0 ++ take 19 b) n_len d_len ≡ some (d_len', d)
    → mod_loop 2129 b b_len (record { n = take 38 a; d = d; n_bits = n_len; d_bits = d_len' })
      ≡ some r
    → n_mod a b ≡ some (take n_size r)
unfolding n_mod
n_mod_runs a b d r n_len d_len b_len d_len' e1 e2 e3 e4 e5 =
    chain (n_bits (take 38 a) 2128) (n_bits (replicate 19 0 ++ take 19 b) 2128) (n_bits b 1064)
      (align (replicate 19 0 ++ take 19 b))
      (λ x z y' d'. mod_loop 2129 b z (record { n = take 38 a; d = d'; n_bits = x; d_bits = y' }))
      n_len d_len b_len d_len' d r e1 e2 e3 e4 e5

-- The shift puts the divisor at or above the number.
align-covers :
    (d : List ℕ) (b b_len n_len d_len : ℕ)
    → IsWide d
    → 0 < b
    → IsBitLength b b_len
    → IsBitLength (value n_radix d) d_len
    → value n_radix d ≡ 2 ^ (d_len - b_len) * b
    → b_len ≤ d_len
    → n_len ≤ 2128
    → (d_len' : ℕ) × (d' : List ℕ) × (align d n_len d_len ≡ some (d_len', d'))
      × IsWide d'
      × (value n_radix d' ≡ 2 ^ (d_len' - b_len) * b)
      × (b_len ≤ d_len')
      × (n_len ≤ d_len')
align-covers d b b_len n_len d_len wide pos b_length d_length multiple enough bound =
    elim (Bool-cases (ltb d_len n_len)) [
      | inl e ↦
          let shift = n_len - d_len in
          let some_b = pos-IsBitLength b b_len b_length pos in
          let (d', runs, sum, size, small) =
            n_shift_left-value d d_len shift wide.small wide.sized d_length (omega arith)
              (ground arith) in
          let total : d_len + shift ≡ n_len = ground arith in
          let power : 2 ^ (n_len - b_len) * b ≡ 2 ^ shift * (2 ^ (d_len - b_len) * b) =
            let gap : n_len - b_len - (d_len - b_len) ≡ shift = omega arith in
            rw gap at (power_step (n_len - b_len) (d_len - b_len) b (omega arith)) in
          (
            n_len,
            d',
            rw e (rw total at runs),
            record { sized = size; small = small },
            sum ∙ rw multiple (sym power),
            omega arith,
            omega arith,
          )
      | inr e ↦ (d_len, d, rw e refl, wide, multiple, enough, ground arith)
    ]

bits_unique : (x r q : ℕ) → IsBitLength x r → IsBitLength x q → r ≡ q
bits_unique x r q hr hq =
    let le = bits_monotone x x r q hr hq (omega arith) in
    let ge = bits_monotone x x q r hq hr (omega arith) in omega arith

wide_length :
    (a : List ℕ) → IsWide a → (r : ℕ) × (n_bits a 2128 ≡ some r) × IsBitLength (value n_radix a) r
wide_length a wide =
    let sized = wide.sized in
    let (r, runs, bits) =
      n_bits-IsBitLength a 2128 wide.small (omega arith) (omega arith) (omega arith) in
    let whole : take 38 a ≡ a = take_all 38 a (omega arith) in (r, runs, rw whole at bits)

below_power : (v r k : ℕ) → IsBitLength v r → r ≤ k → v < 2 ^ k
below_power v r k bits le =
    let below = bits.below in
    let wider : 2 ^ r ≤ 2 ^ k = pow-le-pow_right {n = 2} (omega arith) le in omega arith

-- The copied digits are the whole number.
lower_half :
    (r b : List ℕ)
    → IsWide r
    → IsNumber b
    → value n_radix r ≤ value n_radix b
    → (value n_radix (take 19 r) ≡ value n_radix r) × IsNumber (take 19 r)
lower_half r b wide nb fits =
    let sized_b = nb.sized in
    let sized_r = wide.sized in
    let small = value-lt n_radix b nb.small in
    let room : value n_radix b < n_radix ^ 19 = rw sized_b at small in
    let taken = length-take 19 r in
    (
      take-value_all r 19 (omega arith) (omega arith),
      record { sized = taken ∙ rw sized_r refl; small = take-All _ 19 r wide.small },
    )

-- The divisor in the upper half: its bits, and its digits.
start :
    (b : List ℕ) (b_len : ℕ)
    → IsNumber b
    → 0 < value n_radix b
    → IsBitLength (value n_radix b) b_len
    → let d = replicate 19 0 ++ b in
      (d_len : ℕ) × (n_bits d 2128 ≡ some d_len)
      × IsWide d
      × IsBitLength (value n_radix d) d_len
      × (value n_radix d ≡ 2 ^ (d_len - b_len) * value n_radix b)
      × (b_len ≤ d_len)
start b b_len nb pos b_length =
    let none : List ℕ = replicate 19 0 in
    let sized_b = nb.sized in
    let wide : IsWide (none ++ b) = record {
      sized = length-append none b ∙ rw sized_b refl;
      small = append-All _ none b (zeros_small 19) nb.small;
    } in
    let (d_len, runs, d_length) = wide_length (none ++ b) wide in
    let scaled = scale-IsBitLength (value n_radix b) b_len 1064 pos b_length in
    let total : value n_radix (none ++ b) ≡ 2 ^ 1064 * value n_radix b = start-value b 19 in
    let counted = bits_unique _ d_len (1064 + b_len) d_length (rw (sym total) at scaled) in
    let gap : d_len - b_len ≡ 1064 = omega arith in
    (d_len, runs, wide, d_length, rw gap total, omega arith)

-- `N_mod` of 38 digits by a number of 19 digits that is not 0 returns: its loop ends within the fuel, and
-- the result is the number less a multiple of the divisor, and at most the divisor.
pub n_mod-value :
    (a b : List ℕ)
    → IsWide (take 38 a)
    → IsNumber b
    → 0 < value n_radix b
    → (r : List ℕ) × (c : ℕ) × (n_mod a b ≡ some r)
      × IsNumber r
      × (value n_radix r ≤ value n_radix b)
      × (value n_radix r + c * value n_radix b ≡ value n_radix (take 38 a))
n_mod-value a b wide nb pos =
    let sized_b = nb.sized in
    let whole : take 19 b ≡ b = take_all 19 b (omega arith) in
    let (b_len, counted_b, b_length, _) = number_bits b nb in
    let (n_len, counted_n, n_length) = wide_length (take 38 a) wide in
    let (d_len, counted_d, wide_d, d_length, multiple, enough) = start b b_len nb pos b_length in
    let bound = wide_bits (take 38 a) n_len wide n_length in
    let (d_len', d, aligned, wide_d', multiple', enough', covers) =
      align-covers (replicate 19 0 ++ b) (value n_radix b) b_len n_len d_len wide_d pos b_length
        d_length multiple enough bound in
    let division : IsDivision (value n_radix b) b_len
        (record { n = take 38 a; d = d; n_bits = n_len; d_bits = d_len' }) =
      record {
        n_wide = wide;
        d_wide = wide_d';
        n_length = n_length;
        multiple = multiple';
        enough = enough';
        covers = covers;
      } in
    let (r, c, ends, wide_r, fits, sum) =
      mod_loop-Ends 2128 b b_len (record { n = take 38 a; d = d; n_bits = n_len; d_bits = d_len' })
        nb.small pos b_length division (below_power _ n_len 2128 n_length bound) in
    let runs =
      n_mod_runs a b d r n_len d_len b_len d_len' counted_n
        (subst (λ (l : List ℕ). n_bits (replicate 19 0 ++ l) 2128 ≡ some d_len) (sym whole)
          counted_d)
        counted_b
        (subst (λ (l : List ℕ). align (replicate 19 0 ++ l) n_len d_len ≡ some (d_len', d))
          (sym whole) aligned)
        ends in
    let (equal, number) = lower_half r b wide_r nb fits in
    (take 19 r, c, runs, number, rw equal fits, rw equal sum)
