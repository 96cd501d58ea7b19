-- ===== src/Natural/Range.antt =====
-- `N_lt2` and `N_neq1` of src/encodings/natural.c test a number of 19 digits.
use native.Mathlib.Nat.{pow-zero, pow-le-pow_right}
use reqrypt.Common.{
  ltb, leb, ◌==◌, if◌then◌else◌, ==_iff, Bool-cases, ◌>>=◌, length, take, All, take_all, value, ℕ,
  zero, suc, ◌+◌, ◌-◌, ◌*◌, ◌^◌, ◌≤◌, ◌<◌, ◌≡◌, refl, ap, ◌∙◌, inl, inr, Bool, true, false, not,
  ◌&&◌, Option, some, List, [], ◌∷◌, arith,
}
use reqrypt.Natural.{
  n_radix, n_radix_shift, n_size, decrement, lt2_answer, n_bits, n_cmp, n_lt2, n_neq1, Sign,
}
use reqrypt.Natural.Bits.{IsBitLength, n_bits-IsBitLength}
use reqrypt.Natural.Compare.{order, n_cmp-order, digits_present}
use reqrypt.Natural.Mul.{IsNumber}

decrement-false : (b : List ℕ) → decrement false b ≡ b
unfolding decrement
decrement-false [] = refl
decrement-false (x ∷ b) = rw (decrement-false b) refl

-- The borrow takes 1 from a number that is not 0.
decrement-value :
    (b : List ℕ)
    → All (λ d. d < n_radix) b
    → 0 < value n_radix b
    → (value n_radix (decrement true b) + 1 ≡ value n_radix b)
      × (length (decrement true b) ≡ length b)
      × All (λ d. d < n_radix) (decrement true b)
unfolding decrement value
decrement-value [] h pos = absurd (omega arith)
decrement-value (x ∷ b) (hx, h) pos = elim (Bool-cases (x == 0)) [
  | inl e ↦
      let zero_digit : x ≡ 0 = (==_iff x 0).0 e in
      let (rest, size, small) = decrement-value b h (omega arith) in
      rw e (omega arith, ap suc size, (omega arith, small))
  | inr e ↦ rw (e, decrement-false b) (ground arith, refl, (omega arith, h))
]

bits_bounded : (a : List ℕ) (r : ℕ) → IsNumber a → IsBitLength (value n_radix a) r → r ≤ 1064
bits_bounded a zero na bits = omega arith
bits_bounded a (suc r) na bits =
    let sized = na.sized in
    let present = digits_present a (suc r) na.small bits (omega arith) in omega arith

pub pos-IsBitLength : (v r : ℕ) → IsBitLength v r → 0 < v → 0 < r
pos-IsBitLength v zero bits pos = let below = bits.below in absurd (omega (arith, pow-zero 2))
pos-IsBitLength v (suc r) bits pos = omega arith

-- `N_bits` of a whole number.
pub number_bits :
    (a : List ℕ)
    → IsNumber a
    → (r : ℕ) × (n_bits a (n_size * n_radix_shift) ≡ some r)
      × IsBitLength (value n_radix a) r
      × (r ≤ 1064)
number_bits a na =
    let sized = na.sized in
    let (r, runs, bits) =
      n_bits-IsBitLength a (n_size * n_radix_shift) na.small (omega arith) (omega arith)
        (omega arith) in
    let whole : take 19 a ≡ a = take_all 19 a (omega arith) in
    let bits' : IsBitLength (value n_radix a) r = rw whole at bits in
    (r, runs, bits', bits_bounded a r na bits')

two_power : (i j : ℕ) → i ≤ j → 2 ^ i ≤ 2 ^ j
two_power i j h = pow-le-pow_right {n = 2} (omega arith) h

-- The tests on the bits and the lowest digit.
answer-lt2 :
    (a0 : ℕ) (a : List ℕ) (r : ℕ)
    → IsBitLength (value n_radix (a0 ∷ a)) r
    → (if ltb 2 r then true else a0 == 3) ≡ leb 3 (value n_radix (a0 ∷ a))
unfolding value
answer-lt2 a0 a r bits = elim (Bool-cases (ltb 2 r)) [
  | inl e ↦
      let above : 2 ^ (r - 1) ≤ a0 + n_radix * value n_radix a = bits.above (ground arith) in
      let between = two_power 2 (r - 1) (ground arith) in
      let three : 3 ≤ a0 + n_radix * value n_radix a = omega arith in rw e (ground arith)
  | inr e ↦
      let below = bits.below in
      let between = two_power r 2 (ground arith) in
      let none : value n_radix a ≡ 0 = omega arith in rw (e, none) (ground arith)
]

answer_order :
    (a0 : ℕ) (a : List ℕ) (r y : ℕ)
    → IsBitLength (value n_radix (a0 ∷ a)) r
    → lt2_answer (order (value n_radix (a0 ∷ a)) y) r a0
      ≡ (leb 3 (value n_radix (a0 ∷ a)) && ltb (value n_radix (a0 ∷ a)) y)
answer_order a0 a r y bits =
    let v = value n_radix (a0 ∷ a) in
    elim (Bool-cases (ltb v y)) [
      | inl e ↦
          let h : ltb y v ≡ false = ground arith in
          rw (h, e) (answer-lt2 a0 a r bits ∙ ground arith)
      | inr e ↦ elim (Bool-cases (ltb y v)) [
        | inl e' ↦ rw (e', e) (ground arith)
        | inr e' ↦ rw (e', e) (ground arith)
      ]
    ]

chain :
    (ma mt : Option ℕ) (compare : ℕ → ℕ → Option Sign) (a0 r q : ℕ) (o : Sign)
    → ma ≡ some r
    → mt ≡ some q
    → compare r q ≡ some o
    → (do
      a_bits ← ma
      t_bits ← mt
      order ← compare a_bits t_bits
      some (lt2_answer order a_bits a0))
      ≡ some (lt2_answer o r a0)
chain ma mt compare a0 r q o e e' e'' = rw (e, e', e'') refl

-- `N_lt2` of two numbers of 19 digits, of which `b` is more than 1, is true exactly for `a` from 3 up to
-- `b - 2`.
pub n_lt2-range :
    (a b : List ℕ)
    → IsNumber a
    → IsNumber b
    → 1 < value n_radix b
    → n_lt2 a b ≡ some (leb 3 (value n_radix a) && ltb (value n_radix a) (value n_radix b - 1))
unfolding n_lt2
n_lt2-range [] b na nb h = let sized = na.sized in absurd (omega arith)
n_lt2-range (a0 ∷ a) b na nb h =
    let (one_less, size, small) = decrement-value b nb.small (omega arith) in
    let nt : IsNumber (decrement true b) = record { sized = size ∙ nb.sized; small = small } in
    let (r, runs, bits, bound) = number_bits (a0 ∷ a) na in
    let (q, runs_t, bits_t, bound_t) = number_bits (decrement true b) nt in
    let pos = pos-IsBitLength _ q bits_t (omega arith) in
    let compared =
      n_cmp-order (a0 ∷ a) (decrement true b) r q na.small small bits bits_t (omega arith)
        (omega arith) in
    let same : value n_radix (decrement true b) ≡ value n_radix b - 1 = omega arith in
    chain _ _ (n_cmp (a0 ∷ a) (decrement true b)) a0 r q _ runs runs_t compared
    ∙ rw same (ap some (answer_order a0 a r (value n_radix b - 1) bits))

one_bit : (v r : ℕ) → IsBitLength v r → (r == 1) ≡ (v == 1)
one_bit v zero bits =
    let below = bits.below in let none : v < 1 = omega (arith, pow-zero 2) in ground arith
one_bit v (suc zero) bits =
    let below : v < 2 = bits.below in let above : 1 ≤ v = bits.above (omega arith) in ground arith
one_bit v (suc (suc r)) bits =
    let same' : suc (suc r) - 1 ≡ suc r = omega arith in
    let above : 2 ^ suc r ≤ v = rw same' at bits.above (omega arith) in
    let between : 2 ^ 1 ≤ 2 ^ suc r = two_power 1 (suc r) (omega arith) in ground arith

-- `N_neq1` of a number is false exactly for 1.
pub n_neq1_lem : (a : List ℕ) → IsNumber a → n_neq1 a ≡ some (not (value n_radix a == 1))
unfolding n_neq1
n_neq1_lem a na =
    let (r, runs, bits, bound) = number_bits a na in
    rw runs (ap (λ (t : Bool). some (not t)) (one_bit (value n_radix a) r bits))
