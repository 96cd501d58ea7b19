-- ===== src/Natural/Sub.antt =====
-- `N_sub` of src/encodings/natural.c takes one number from another.
use reqrypt.Common.{
  ltb, Bool-cases, length, take, drop, All, length-append, length-take, length-drop, take-All,
  drop-All, append-All, u64, value, value-append, value-split, ℕ, suc, ◌+◌, ◌-◌, ◌*◌, ◌/◌, ◌%◌, ◌^◌,
  ◌≤◌, ◌<◌, ◌≡◌, refl, ap, ◌∙◌, inl, inr, false, some, List, [], ◌∷◌, ◌++◌, arith,
}
use reqrypt.Natural.Bits.{digits_of_bits-eq}
use reqrypt.Natural.{n_radix, n_radix_shift, sub_digits, signed_carry, carry_digits, n_sub}

-- A digit of the difference without a borrow out of it.
no_borrow : (n d c : ℕ) → d + c ≤ n → n < n_radix → u64 (n + 2 ^ 64 - d - c) ≡ n - d - c
no_borrow n d c h hn = omega arith

borrow :
    (n d c : ℕ) → n < d + c → d < n_radix → c ≤ 1 → u64 (n + 2 ^ 64 - d - c) ≡ n + 2 ^ 64 - d - c
borrow n d c h hd hc = omega arith

carry_without : (w : ℕ) → w < n_radix → signed_carry w ≡ 0
carry_without w h = ground arith

carry_with : (w : ℕ) → 2 ^ 64 - 2 ^ 56 ≤ w → w < 2 ^ 64 → signed_carry w ≡ 2 ^ 64 - 1
carry_with w h k = ground arith

no_carry_in : (n d : ℕ) → d < n_radix → u64 (u64 (n + 2 ^ 64 - d) + 0) ≡ u64 (n + 2 ^ 64 - d - 0)
no_carry_in n d h = omega arith

carry_in :
    (n d : ℕ) → d < n_radix → u64 (u64 (n + 2 ^ 64 - d) + (2 ^ 64 - 1)) ≡ u64 (n + 2 ^ 64 - d - 1)
carry_in n d h = omega arith

-- A word that holds a digit of the difference, less a borrow, and the words above it.
carry_digits-value :
    (n d c : ℕ) (ns ds : List ℕ)
    → n < n_radix
    → d < n_radix
    → c ≤ 1
    → All (λ d. d < n_radix) ns
    → All (λ d. d < n_radix) ds
    → length ns ≡ length ds
    → c + (d + n_radix * value n_radix ds) ≤ n + n_radix * value n_radix ns
    → (value n_radix (carry_digits (u64 (n + 2 ^ 64 - d - c) ∷ sub_digits ns ds))
          + (c + (d + n_radix * value n_radix ds))
        ≡ n + n_radix * value n_radix ns)
      × (length (carry_digits (u64 (n + 2 ^ 64 - d - c) ∷ sub_digits ns ds)) ≡ suc (length ns))
      × All (λ d. d < n_radix) (carry_digits (u64 (n + 2 ^ 64 - d - c) ∷ sub_digits ns ds))
unfolding carry_digits sub_digits value
carry_digits-value n d c [] [] hn hd hc hns hds len le =
    rw (no_borrow n d c (omega arith) hn) (omega arith, refl, (omega arith, tt))
carry_digits-value n d c [] (d' ∷ ds) hn hd hc hns hds len le = absurd (omega arith)
carry_digits-value n d c (n' ∷ ns) [] hn hd hc hns hds len le = absurd (omega arith)
carry_digits-value n d c (n' ∷ ns) (d' ∷ ds) hn hd hc (hn', hns) (hd', hds) len le =
    elim (Bool-cases (ltb n (d + c))) [
      | inl e ↦
          let less : n < d + c = ground arith in
          let w = n + 2 ^ 64 - d - c in
          let (rest, size, small) =
            carry_digits-value n' d' 1 ns ds hn' hd' (omega arith) hns hds (omega arith)
              (ground arith) in
          let rem : w % n_radix ≡ n + n_radix - d - c = ground arith in
          rw
            (
              borrow n d c (ground arith) hd hc,
              carry_with w (ground arith) (ground arith),
              carry_in n' d' hd',
              rem,
            )
            (omega arith, ap suc size, (ground arith, small))
      | inr e ↦
          let most : d + c ≤ n = ground arith in
          let (rest, size, small) =
            carry_digits-value n' d' 0 ns ds hn' hd' (omega arith) hns hds (omega arith)
              (ground arith) in
          let w = n - d - c in
          let rem : w % n_radix ≡ w = ground arith in
          rw
            (
              no_borrow n d c (ground arith) hn,
              carry_without w (ground arith),
              no_carry_in n' d' hd',
              rem,
            )
            (omega arith, ap suc size, (ground arith, small))
    ]

difference-value :
    (ns ds : List ℕ)
    → All (λ d. d < n_radix) ns
    → All (λ d. d < n_radix) ds
    → length ns ≡ length ds
    → value n_radix ds ≤ value n_radix ns
    → (value n_radix (carry_digits (sub_digits ns ds)) + value n_radix ds ≡ value n_radix ns)
      × (length (carry_digits (sub_digits ns ds)) ≡ length ns)
      × All (λ d. d < n_radix) (carry_digits (sub_digits ns ds))
unfolding carry_digits sub_digits value
difference-value [] [] hn hd len le = (refl, refl, tt)
difference-value [] (d ∷ ds) hn hd len le = absurd (omega arith)
difference-value (n ∷ ns) [] hn hd len le = absurd (omega arith)
difference-value (n ∷ ns) (d ∷ ds) (hn, hns) (hd, hds) len le =
    let first : n + 2 ^ 64 - d ≡ n + 2 ^ 64 - d - 0 = omega arith in
    let (sum, size, small) =
      carry_digits-value n d 0 ns ds hn hd (omega arith) hns hds (omega arith) (omega arith) in
    rw first (omega arith, size, small)

-- The digits above those that the subtraction takes stay.
n_sub_digits :
    (n d : List ℕ) (k : ℕ)
    → All (λ d. d < n_radix) n
    → All (λ d. d < n_radix) d
    → k ≤ length n
    → k ≤ length d
    → value n_radix (take k d) ≤ value n_radix (take k n)
    → let r = carry_digits (sub_digits (take k n) (take k d)) ++ drop k n in
      (value n_radix r + value n_radix (take k d) ≡ value n_radix n)
      × (length r ≡ length n)
      × All (λ d. d < n_radix) r
n_sub_digits n d k hn hd ln ld le =
    let lower = carry_digits (sub_digits (take k n) (take k d)) in
    let taken_n = length-take k n in
    let taken_d = length-take k d in
    let size_n : length (take k n) ≡ k = omega arith in
    let (sum, size, small) =
      difference-value (take k n) (take k d) (take-All (λ (x : ℕ). x < n_radix) k n hn)
        (take-All (λ (x : ℕ). x < n_radix) k d hd) (omega arith) le in
    let size_k : length lower ≡ k = size ∙ size_n in
    let joined = value-append n_radix lower (drop k n) in
    let split = value-split n_radix k n ln in
    (
      omega (arith, rw size_k at joined),
      length-append lower (drop k n) ∙ rw (size_k, length-drop k n) (omega arith),
      append-All _ lower (drop k n) small (drop-All (λ (x : ℕ). x < n_radix) k n hn),
    )

-- `N_sub` of digits below 2^56, where `n_bits` is from 1 to 2^31 - 1, both arrays have the digits that it
-- takes up and those of `d` are not the larger number, stays inside the arrays: the result and those
-- digits of `d` add up to `n`, the array keeps its length, and its digits stay below 2^56.
pub n_sub-value :
    (n d : List ℕ) (n_bits : ℕ)
    → let size = (n_bits - 1) / n_radix_shift + 1 in
      All (λ d. d < n_radix) n
      → All (λ d. d < n_radix) d
      → 0 < n_bits
      → n_bits < 2 ^ 31
      → size ≤ length n
      → size ≤ length d
      → value n_radix (take size d) ≤ value n_radix (take size n)
      → (r : List ℕ) × (n_sub n n_bits d ≡ some r)
        × (value n_radix r + value n_radix (take size d) ≡ value n_radix n)
        × (length r ≡ length n)
        × All (λ d. d < n_radix) r
unfolding n_sub
n_sub-value n d n_bits hn hd pos small ln ld le =
    let size = (n_bits - 1) / n_radix_shift + 1 in
    let has_n : ltb (length n) size ≡ false = ground arith in
    let has_d : ltb (length d) size ≡ false = ground arith in
    let (sum, sized, digits) = n_sub_digits n d size hn hd ln ld le in
    (
      carry_digits (sub_digits (take size n) (take size d)) ++ drop size n,
      rw (digits_of_bits-eq n_bits pos small, has_n, has_d) refl,
      sum,
      sized,
      digits,
    )
