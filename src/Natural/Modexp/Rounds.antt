-- ===== src/Natural/Modexp/Rounds.antt =====
-- The loop of `N_mod` of src/encodings/natural.c ends.
use native.Mathlib.Nat.{pow-suc}
use reqrypt.Common.{
  ltb, Bool-cases, All, value, ℕ, zero, suc, ◌+◌, ◌-◌, ◌*◌, ◌/◌, ◌^◌, ◌≤◌, ◌<◌, ◌≡◌, refl, sym, ap,
  ◌∙◌, inl, inr, false, some, List, arith,
}
use reqrypt.Natural.{n_radix, n_radix_shift, n_bits, n_cmp, n_sub, Sign, more, same, less}
use reqrypt.Natural.Bits.{IsBitLength, n_bits-IsBitLength}
use reqrypt.Natural.Compare.{order, n_cmp-order, IsBitLength-less}
use reqrypt.Natural.Sub.{n_sub-value}
use reqrypt.Natural.Range.{pos-IsBitLength}
use reqrypt.Natural.Modexp.{Division, shift_if, is_more, mod_step, mod_loop}
use reqrypt.Natural.Modexp.Room.{bits_in_digits}
use reqrypt.Natural.Modexp.Step.{
  IsWide, IsDivision, wide_bits, multiple-IsBitLength, take-value_all, first_shift, second_shift,
}

mod_step_runs :
    (s : Division) (d d' n' : List ℕ) (bits left : ℕ) (o : Sign)
    → shift_if (ltb s.n_bits s.d_bits) s.d s.d_bits (s.d_bits - s.n_bits) ≡ some (s.n_bits, d)
    → n_cmp d s.n s.n_bits s.n_bits ≡ some o
    → shift_if (is_more o) d s.n_bits 1 ≡ some (bits, d')
    → n_sub s.n s.n_bits d' ≡ some n'
    → n_bits n' s.n_bits ≡ some left
    → mod_step s ≡ some (record { n = n'; d = d'; n_bits = left; d_bits = bits })
unfolding mod_step
mod_step_runs s d d' n' bits left o e1 e2 e3 e4 e5 = rw (e1, e2, e3, e4, e5) refl

-- More bits of a larger number.
pub bits_monotone : (x y r q : ℕ) → IsBitLength x r → IsBitLength y q → x ≤ y → r ≤ q
bits_monotone x y r q hx hy le = elim (Bool-cases (ltb q r)) [
  | inl e ↦ absurd (omega (arith, IsBitLength-less y x q r hy hx (ground arith)))
  | inr e ↦ ground arith
]

-- What the subtraction of the divisor leaves, and its bits.
record IsLeft (n d : List ℕ) (bits : ℕ) (n' : List ℕ) (left : ℕ) : Type 0 where
  runs : n_sub n bits d ≡ some n'
  counted : n_bits n' bits ≡ some left
  counts : IsBitLength (value n_radix n') left
  sum : value n_radix n' + value n_radix d ≡ value n_radix n
  wide : IsWide n'

count-IsLeft :
    (n d n' : List ℕ) (bits : ℕ)
    → 0 < bits
    → bits ≤ 2128
    → value n_radix n < n_radix ^ ((bits - 1) / n_radix_shift + 1)
    → n_sub n bits d ≡ some n'
    → value n_radix n' + value n_radix d ≡ value n_radix n
    → IsWide n'
    → (left : ℕ) × IsLeft n d bits n' left
count-IsLeft n d n' bits pos bound room runs sum wide =
    let k = (bits - 1) / n_radix_shift + 1 in
    let size = wide.sized in
    let (left, counted, left_length) =
      n_bits-IsBitLength n' bits wide.small pos (omega arith) (omega arith) in
    let whole = take-value_all n' k (omega arith) (omega arith) in
    (
      left,
      record {
        runs = runs;
        counted = counted;
        counts = rw whole at left_length;
        sum = sum;
        wide = wide;
      },
    )

subtract :
    (n d : List ℕ) (bits : ℕ)
    → IsWide n
    → IsWide d
    → 0 < bits
    → IsBitLength (value n_radix n) bits
    → value n_radix d ≤ value n_radix n
    → (n' : List ℕ) × (left : ℕ) × IsLeft n d bits n' left
subtract n d bits wide_n wide_d pos n_length le =
    let bound = wide_bits n bits wide_n n_length in
    let k = (bits - 1) / n_radix_shift + 1 in
    let size_n = wide_n.sized in
    let size_d = wide_d.sized in
    let below = n_length.below in
    let room = bits_in_digits bits k (omega arith) in
    let whole_d = take-value_all d k (omega arith) (omega arith) in
    let whole_n = take-value_all n k (omega arith) (omega arith) in
    let (n', runs, sum, sized, small) =
      n_sub-value n d bits wide_n.small wide_d.small pos (omega arith) (omega arith) (omega arith)
        (omega arith) in
    let (left, is_left) =
      count-IsLeft n d n' bits pos bound (omega arith) runs
        (ap (λ (x : ℕ). value n_radix n' + x) (sym whole_d) ∙ sum)
        (record { sized = sized ∙ size_n; small = small }) in
    (n', left, is_left)

-- A round takes a multiple of `b` off, and more than half of the number.
round_keeps :
    (b b_bits : ℕ) (s : Division)
    → 0 < b
    → IsBitLength b b_bits
    → IsDivision b b_bits s
    → b < value n_radix s.n
    → (s' : Division) × (c : ℕ) × (mod_step s ≡ some s')
      × IsDivision b b_bits s'
      × (value n_radix s'.n + c * b ≡ value n_radix s.n)
      × (2 * value n_radix s'.n < value n_radix s.n)
round_keeps b b_bits s pos b_length division less_n =
    let n_length = division.n_length in
    let some_b = pos-IsBitLength b b_bits b_length pos in
    let enough =
      bits_monotone b (value n_radix s.n) b_bits s.n_bits b_length n_length (omega arith) in
    let bound = wide_bits s.n s.n_bits division.n_wide n_length in
    let (d, runs, multiple, wide) =
      first_shift s.d b b_bits s.n_bits s.d_bits division.d_wide pos b_length division.multiple
        (omega arith) enough division.covers in
    let d_length =
      multiple-IsBitLength (value n_radix d) b b_bits s.n_bits pos b_length multiple enough in
    let compared =
      n_cmp-order d s.n s.n_bits s.n_bits wide.small division.n_wide.small d_length n_length
        (omega arith) (omega arith) in
    let (bits, d', runs', multiple', wide', enough', fits, half, d'_length) =
      second_shift d b b_bits s.n_bits (value n_radix s.n) wide pos b_length multiple less_n enough
        some_b n_length in
    let (n', left, is_left) =
      subtract s.n d' s.n_bits division.n_wide wide' (omega arith) n_length fits in
    let left_length = is_left.counts in
    let sum = is_left.sum in
    let covers = bits_monotone _ (value n_radix d') left bits left_length d'_length (omega arith) in
    (
      record { n = n'; d = d'; n_bits = left; d_bits = bits },
      2 ^ (bits - b_bits),
      mod_step_runs s d d' n' bits left _ runs compared runs' is_left.runs is_left.counted,
      record {
        n_wide = is_left.wide;
        d_wide = wide';
        n_length = left_length;
        multiple = multiple';
        enough = enough';
        covers = covers;
      },
      omega arith,
      omega arith,
    )

loop_more :
    (fuel : ℕ) (b : List ℕ) (b_bits : ℕ) (s s' : Division)
    → n_cmp s.n b s.n_bits b_bits ≡ some more
    → mod_step s ≡ some s'
    → mod_loop (suc fuel) b b_bits s ≡ mod_loop fuel b b_bits s'
unfolding mod_loop
loop_more fuel b b_bits s s' e runs = rw (e, runs) refl

loop_done :
    (fuel : ℕ) (b : List ℕ) (b_bits : ℕ) (s : Division) (o : Sign)
    → n_cmp s.n b s.n_bits b_bits ≡ some o
    → is_more o ≡ false
    → mod_loop (suc fuel) b b_bits s ≡ some s.n
unfolding mod_loop
loop_done fuel b b_bits s more e h = absurd (cc)
loop_done fuel b b_bits s same e h = rw e refl
loop_done fuel b b_bits s less e h = rw e refl

not_more : (x y : ℕ) → x ≤ y → is_more (order x y) ≡ false
not_more x y h = ground arith

order_more : (x y : ℕ) → y < x → order x y ≡ more
order_more x y h = ground arith

-- The test of the loop compares the numbers.
loop_test :
    (b : List ℕ) (b_bits : ℕ) (s : Division)
    → All (λ d. d < n_radix) b
    → 0 < value n_radix b
    → IsBitLength (value n_radix b) b_bits
    → IsDivision (value n_radix b) b_bits s
    → n_cmp s.n b s.n_bits b_bits ≡ some (order (value n_radix s.n) (value n_radix b))
loop_test b b_bits s hb pos b_length division =
    let n_length = division.n_length in
    let bound = wide_bits s.n s.n_bits division.n_wide n_length in
    let some_b = pos-IsBitLength (value n_radix b) b_bits b_length pos in
    n_cmp-order s.n b s.n_bits b_bits division.n_wide.small hb n_length b_length (omega arith)
      (omega arith)

-- What the loop returns: `n` less a multiple of `b`, below `b` or `b` itself.
abbrev pub Ends : ℕ → List ℕ → ℕ → Division → Type 0
Ends fuel b b_bits s =
    (r : List ℕ) × (c : ℕ) × (mod_loop (suc fuel) b b_bits s ≡ some r)
    × IsWide r
    × (value n_radix r ≤ value n_radix b)
    × (value n_radix r + c * value n_radix b ≡ value n_radix s.n)

stops :
    (fuel : ℕ) (b : List ℕ) (b_bits : ℕ) (s : Division)
    → All (λ d. d < n_radix) b
    → 0 < value n_radix b
    → IsBitLength (value n_radix b) b_bits
    → IsDivision (value n_radix b) b_bits s
    → value n_radix s.n ≤ value n_radix b
    → Ends fuel b b_bits s
stops fuel b b_bits s hb pos b_length division fits =
    let compared = loop_test b b_bits s hb pos b_length division in
    let ends = loop_done fuel b b_bits s _ compared (not_more _ _ fits) in
    (s.n, 0, ends, division.n_wide, fits, omega arith)

pub mod_loop-Ends :
    (fuel : ℕ) (b : List ℕ) (b_bits : ℕ) (s : Division)
    → All (λ d. d < n_radix) b
    → 0 < value n_radix b
    → IsBitLength (value n_radix b) b_bits
    → IsDivision (value n_radix b) b_bits s
    → value n_radix s.n < 2 ^ fuel
    → Ends fuel b b_bits s
mod_loop-Ends zero b b_bits s hb pos b_length division room =
    let least : value n_radix s.n < 1 = room in
    stops zero b b_bits s hb pos b_length division (omega arith)
mod_loop-Ends (suc fuel) b b_bits s hb pos b_length division room =
    elim (Bool-cases (ltb (value n_radix b) (value n_radix s.n))) [
      | inl e ↦
          let larger : value n_radix b < value n_radix s.n = ground arith in
          let compared = loop_test b b_bits s hb pos b_length division in
          let compared_more = rw (order_more _ _ larger) at compared in
          let (s', c, runs, division', sum, half) =
            round_keeps (value n_radix b) b_bits s pos b_length division larger in
          let (r, c', ends, wide, fits, sum') =
            mod_loop-Ends fuel b b_bits s' hb pos b_length division'
              (omega (arith, pow-suc 2 fuel)) in
          (
            r,
            c + c',
            loop_more (suc fuel) b b_bits s s' compared_more runs ∙ ends,
            wide,
            fits,
            omega arith,
          )
      | inr e ↦ stops (suc fuel) b b_bits s hb pos b_length division (ground arith)
    ]
