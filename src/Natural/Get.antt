-- ===== src/Natural/Get.antt =====
-- `N_get` of src/encodings/natural.c makes bytes of digits, and undoes `N_set`.
use native.Mathlib.Nat.{pow-zero, pow-suc, pow-le-pow_right}
use reqrypt.Common.{
  leb, Bool-cases, length, take, All, length-append, IsBytes, take-IsBytes, append-IsBytes, value,
  value-append, pow-add, value-injective, ℕ, zero, suc, ◌+◌, ◌-◌, ◌*◌, ◌/◌, ◌^◌, ◌≤◌, ◌<◌, min, ◌≡◌,
  refl, sym, ap, ◌∙◌, inl, inr, some, List, [], ◌∷◌, ◌++◌, arith,
}
use reqrypt.Natural.{n_radix, n_set, get_digit, n_get}
use reqrypt.Natural.Mul.{IsNumber}
use reqrypt.Natural.Set.{length-take_le, take-lt, n_set-value}

below : {digit m n : ℕ} → m ≡ n → digit < 256 ^ m → digit < 256 ^ n
below e h = rw e at h

-- The bytes of one digit.
get_digit-value :
    (left size digit : ℕ)
    → (length (get_digit left size digit) ≡ min left size)
      × IsBytes (get_digit left size digit)
      × (digit < 256 ^ min left size → value 256 (get_digit left size digit) ≡ digit)
unfolding get_digit value
get_digit-value zero size digit =
    let none : min 0 size ≡ 0 = omega arith in
    (sym none, tt, λ h. omega (arith, pow-zero 256, below none h))
get_digit-value (suc left) zero digit =
    let none : min (suc left) 0 ≡ 0 = omega arith in
    (sym none, tt, λ h. omega (arith, pow-zero 256, below none h))
get_digit-value (suc left) (suc size) digit =
    let (sized, bytes, same) = get_digit-value left size (digit / 256) in
    let less : min (suc left) (suc size) ≡ suc (min left size) = omega arith in
    (
      rw (less, sized) refl,
      (omega arith, bytes),
      λ h.
          let smaller : digit < 256 ^ suc (min left size) = rw less at h in
          let rest : value 256 (get_digit left size (digit / 256)) ≡ digit / 256 =
            same (omega (arith, pow-suc 256 (min left size))) in
          rw rest (omega arith),
    )

-- A digit of which all seven bytes are written, and the digits above it.
whole_digit : (d V size : ℕ) → d + n_radix * V < 256 ^ size → 7 ≤ size → V < 256 ^ (size - 7)
whole_digit d V size fits le =
    let total : 7 + (size - 7) ≡ size = omega arith in
    let power : 256 ^ size ≡ 256 ^ 7 * 256 ^ (size - 7) =
      ap (λ (k : ℕ). 256 ^ k) (sym total) ∙ pow-add 256 7 (size - 7) in
    omega arith

-- The highest digit that is written.
part_digit : (d V size : ℕ) → d + n_radix * V < 256 ^ size → size < 7 → V ≡ 0
part_digit d V size fits le =
    let power : 256 ^ size ≤ 256 ^ 6 =
      pow-le-pow_right {n = 256} (omega arith) {i = size} {j = 6} (omega arith) in
    omega arith

-- `N_get` of a number that fits in the bytes.
pub n_get-value :
    (a : List ℕ) (size : ℕ)
    → All (λ d. d < n_radix) a
    → size ≤ 7 * length a
    → value n_radix a < 256 ^ size
    → (length (n_get a size) ≡ size)
      × IsBytes (n_get a size)
      × (value 256 (n_get a size) ≡ value n_radix a)
unfolding n_get value
n_get-value [] size h len fits = (omega arith, tt, refl)
n_get-value (d ∷ a) size (hd, h) len fits =
    let (sized, bytes, same) = get_digit-value 7 size d in
    let chunk = get_digit 7 size d in
    let rest = n_get a (size - 7) in
    let joined = value-append 256 chunk rest in
    let both = length-append chunk rest in
    elim (Bool-cases (leb 7 size)) [
      | inl e ↦
          let many : 7 ≤ size = ground arith in
          let (sized_rest, bytes_rest, same_rest) =
            n_get-value a (size - 7) h (omega arith)
              (whole_digit d (value n_radix a) size fits many) in
          let seven : min 7 size ≡ 7 = omega arith in
          let first : value 256 chunk ≡ d = same (below (sym seven) (omega arith)) in
          let sized_7 : length chunk ≡ 7 = sized ∙ seven in
          let joined_7 : value 256 (chunk ++ rest) ≡ value 256 chunk + 256 ^ 7 * value 256 rest =
            rw sized_7 at joined in
          (omega arith, append-IsBytes chunk rest bytes bytes_rest, omega arith)
      | inr e ↦
          let few : size < 7 = ground arith in
          let none = part_digit d (value n_radix a) size fits few in
          let empty : size - 7 ≡ 0 = omega arith in
          let (sized_rest, bytes_rest, same_rest) =
            n_get-value a (size - 7) h (omega arith) (rw (none, empty, pow-zero) (omega arith)) in
          let least : min 7 size ≡ size = omega arith in
          let first : value 256 chunk ≡ d = same (below (sym least) (omega arith)) in
          let nothing : 256 ^ length chunk * value 256 rest ≡ 0 =
            rw (same_rest, none) (omega arith) in
          (omega arith, append-IsBytes chunk rest bytes bytes_rest, omega arith)
    ]

-- `N_get` gives back the first `size` bytes that `N_set` was given, for at most 133 bytes of a buffer that
-- has them, and has a byte behind the whole digits.
pub n_get-n_set :
    (bytes a : List ℕ) (size : ℕ)
    → IsBytes bytes
    → size ≤ 133
    → size ≤ length bytes
    → size / 7 * 7 < length bytes
    → n_set bytes size ≡ some a
    → n_get a size ≡ take size bytes
n_get-n_set bytes a size h le len load runs =
    let (number, runs', isn, same) = n_set-value bytes size h le len load in
    let equal : number ≡ a = cc in
    let isa : IsNumber a = rw equal at isn in
    let same_a : value n_radix a ≡ value 256 (take size bytes) = rw equal at same in
    let sized = isa.sized in
    let (sized_get, bytes_get, same_get) =
      n_get-value a size isa.small (omega arith) (rw same_a (take-lt size bytes h len)) in
    value-injective 256 (n_get a size) (take size bytes) bytes_get (take-IsBytes size bytes h)
      (sized_get ∙ sym (length-take_le size bytes len)) (same_get ∙ same_a)
