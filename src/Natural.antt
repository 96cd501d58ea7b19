-- ===== src/Natural.antt =====
-- src/encodings/natural.c: natural numbers as arrays of `n_size` digits of 56 bits, the lowest first.
-- The variables are of 64 bits. A read past an array is `none`.
pub mod Rows
pub mod Mul
pub mod Set
pub mod Get
pub mod Bits
pub mod Compare
pub mod Range
pub mod Sub
pub mod Modexp
pub mod Examples
use reqrypt.Common.{
  ltb, leb, ◌==◌, if◌then◌else◌, ==_iff, Bool-cases, Option-cases, ◌>>=◌, bind-ne-none,
  bind-eq-some, if-ne-none, length, get_elem?, get_or, set, take, drop, replicate, All,
  length-append, length-set, length-take, length-drop, length-replicate, get_elem?-set_self,
  get_elem?-set_ne, get_elem?-eq-get_or, take-append-drop, take-append, drop-append, drop-drop,
  get_elem?-ne-none, drop-set_lt, drop-set_ge, get_elem?-drop, get_elem?-take,
  get_elem?-append_left, drop-take, take_all, drop-append_of_eq, get_elem?-some,
  get_elem?-append_right, append-assoc_cons, get_elem?-inside, get_elem?-replicate, replicate-same,
  get_elem?-All, take-All, drop-All, append-All, take_add, u8, u16, u32, u64, sub64, IsByte,
  IsBytes, ntohs, htons, u8_at, u16_at, u32_at, bytes_at, put_u8, put_u16, get_elem?-IsByte,
  u16_at-lt, drop-IsBytes, take-IsBytes, append-IsBytes, all_bytes, all_bytes-IsBytes, bit_or-digit,
  bit_and-digit, bit_or_add, bit_and_63, value, value-lt, value-append, value-zeros, pow-add,
  pow-mul, value_next_digit, value-split, value-injective, ℕ, zero, suc, ◌+◌, ◌-◌, ◌*◌, ◌/◌, ◌%◌,
  ◌^◌, ◌≤◌, ◌<◌, min, bit_and, bit_or, bit_xor, ◌≡◌, refl, sym, ap, ◌∙◌, ◌≢◌, ◌↔◌, ◌⊎◌, inl, inr,
  Bool, true, false, not, ◌&&◌, ◌||◌, Option, none, some, List, [], ◌∷◌, ◌++◌, map, arith,
}

abbrev pub n_size : ℕ
n_size = 19

abbrev pub n_radix_shift : ℕ
n_radix_shift = 56

abbrev pub n_radix : ℕ
n_radix = 2 ^ 56

-- The bytes of a digit.
abbrev pub n_radix_size : ℕ
n_radix_size = 7

-- The first loop of `n_set`: a load of eight bytes for each digit, masked to 56 bits.
unfoldable pub set_words : ℕ → List ℕ → Option (List ℕ)
unfolding value
set_words zero bytes = some []
set_words (suc n) bytes = do
  word ← bytes_at bytes 0 8
  rest ← set_words n (drop n_radix_size bytes)
  some (value 256 word % n_radix ∷ rest)

-- The digit of the bytes that are left over, which `memmove` puts over a 0, and the 0s above it. A
-- digit past the array is `none`.
abbrev pub set_rest : ℕ → ℕ → List ℕ → Option (List ℕ)
unfolding value
set_rest zero extra bytes = if extra == 0 then some [] else none
set_rest (suc room) extra bytes = do
  left_over ← bytes_at bytes 0 extra
  some (value 256 left_over ∷ replicate room 0)

unfoldable pub n_set : List ℕ → ℕ → Option (List ℕ)
unfolding set_words set_rest
n_set bytes size = if ltb n_size (size / n_radix_size) then none else (do
  words ← set_words (size / n_radix_size) bytes
  rest ←
      set_rest (n_size - size / n_radix_size) (size % n_radix_size)
        (drop (size / n_radix_size * n_radix_size) bytes)
  some (words ++ rest))

-- The inner loop of `n_get`: at most `left` bytes of the digit, and at most `size`.
unfoldable pub get_digit : ℕ → ℕ → ℕ → List ℕ
get_digit zero size digit = []
get_digit (suc left) zero digit = []
get_digit (suc left) (suc size) digit = digit % 256 ∷ get_digit left size (digit / 256)

unfoldable pub n_get : List ℕ → ℕ → List ℕ
unfolding get_digit
n_get [] size = []
n_get (digit ∷ digits) size =
    get_digit n_radix_size size digit ++ n_get digits (size - n_radix_size)

-- The digits of 28 bits that `n_mul` multiplies.
unfoldable pub split_digits : List ℕ → List ℕ
split_digits [] = []
split_digits (a ∷ digits) = a % 2 ^ 28 ∷ (a / 2 ^ 28 % 2 ^ 28 ∷ split_digits digits)

-- `for (j ...) cm[i+j] += am[i] * bm[j];`, with `cm` from its index `i` on.
unfoldable pub add_row : ℕ → List ℕ → List ℕ → List ℕ
add_row a [] cm = cm
add_row a (b ∷ bm) [] = []
add_row a (b ∷ bm) (c ∷ cm) = u64 (c + u64 (a * b)) ∷ add_row a bm cm

-- `n` steps of the normalisation: the carry goes to the next digit.
unfoldable pub normalise : ℕ → List ℕ → List ℕ
normalise zero cm = cm
normalise (suc n) (lo ∷ hi ∷ cm) = lo % 2 ^ 28 ∷ normalise n (u64 (hi + lo / 2 ^ 28) ∷ cm)
normalise (suc n) (lo ∷ []) = lo ∷ []
normalise (suc n) [] = []

-- The outer loop, on the digits of `am` and on `cm` from the same index on. The normalisation takes a
-- step for each digit of `bm`; the last one is written out behind the loop in the source.
unfoldable pub mul_loop : List ℕ → List ℕ → List ℕ → List ℕ
unfolding add_row normalise
mul_loop [] bm cm = cm
mul_loop (a ∷ am) bm cm = elim (normalise (length bm) (add_row a bm cm)) [
  | [] ↦ []
  | c ∷ rest ↦ c ∷ mul_loop am bm rest
]

-- `c[i] = cm[2*i] | (cm[2*i+1] << N_MUL_RADIX_SHIFT);`
unfoldable pub join_digits : List ℕ → List ℕ
join_digits [] = []
join_digits (lo ∷ []) = lo ∷ []
join_digits (lo ∷ hi ∷ cm) = bit_or lo (u64 (hi * 2 ^ 28)) ∷ join_digits cm

-- The product of the lower `n_size` digits has twice as many.
unfoldable pub n_mul : List ℕ → List ℕ → List ℕ
unfolding split_digits mul_loop join_digits
n_mul a b = join_digits (
    mul_loop (split_digits (take n_size a)) (split_digits (take n_size b))
      (replicate (4 * n_size) 0))

-- How many shifts take a word to 0; a word has 64 bits.
unfoldable pub word_bits : ℕ → ℕ → ℕ
word_bits zero ai = 0
word_bits (suc fuel) ai = let rest = word_bits fuel (ai / 2) in if ai == 0 then 0 else rest + 1

-- The loop of `n_bits` from the index below `i` down, where `bits` is `i` times 56.
unfoldable pub bits_loop : List ℕ → ℕ → ℕ → Option ℕ
unfolding word_bits
bits_loop a zero bits = some 0
bits_loop a (suc i) bits = do
  ai ← get_elem? a i
  let below = bits_loop a i (bits - n_radix_shift)
  if ai == 0 then below else some (bits + word_bits 64 ai - n_radix_shift)

-- `(bits - 1) / N_RADIX_SHIFT + 1`, the digits that `bits` bits take up; the subtraction of `unsigned`
-- wraps at 2^32, so that 0 bits take up more digits than any array has.
abbrev pub digits_of_bits : ℕ → ℕ
digits_of_bits bits = u32 (bits + 2 ^ 32 - 1) / n_radix_shift + 1

unfoldable pub n_bits : List ℕ → ℕ → Option ℕ
unfolding bits_loop
n_bits a bits = bits_loop a (digits_of_bits bits) (u32 (digits_of_bits bits * n_radix_shift))

-- The results 1, 0 and -1.
pub data Sign : Type 0 where
  more same less : Sign

-- The loop of `n_cmp` from the index below `i` down.
unfoldable pub cmp_loop : List ℕ → List ℕ → ℕ → Option Sign
cmp_loop a b zero = some same
cmp_loop a b (suc i) = do
  ai ← get_elem? a i
  bi ← get_elem? b i
  let rest = cmp_loop a b i
  if ltb bi ai then some more else if ltb ai bi then some less else rest

-- `a_bits - 1` is unsigned, of 32 bits.
unfoldable pub n_cmp : List ℕ → List ℕ → ℕ → ℕ → Option Sign
unfolding cmp_loop
n_cmp a b a_bits b_bits =
    if ltb b_bits a_bits
    then some more
    else if ltb a_bits b_bits
    then some less
    else cmp_loop a b ((a_bits + 2 ^ 32 - 1) % 2 ^ 32 / n_radix_shift + 1)

-- `for (i ...) n[i] -= d[i];`
unfoldable pub sub_digits : List ℕ → List ℕ → List ℕ
sub_digits [] ds = []
sub_digits (n ∷ ns) [] = n ∷ ns
sub_digits (n ∷ ns) (d ∷ ds) = u64 (n + 2 ^ 64 - d) ∷ sub_digits ns ds

-- `(int64_t)x >> N_RADIX_SHIFT`, as an unsigned word: the shift keeps the sign.
abbrev pub signed_carry : ℕ → ℕ
signed_carry x = if ltb x (2 ^ 63) then x / 2 ^ 56 else x / 2 ^ 56 + (2 ^ 64 - 2 ^ 8)

-- The second loop of `n_sub` and the mask of the last digit.
unfoldable pub carry_digits : List ℕ → List ℕ
carry_digits [] = []
carry_digits (n ∷ []) = n % n_radix ∷ []
carry_digits (n ∷ next ∷ ns) = n % n_radix ∷ carry_digits (u64 (next + signed_carry n) ∷ ns)

-- The digits above `size` stay; `none` is a digit outside of an array.
unfoldable pub n_sub : List ℕ → ℕ → List ℕ → Option (List ℕ)
unfolding sub_digits carry_digits
n_sub n n_bits d =
    let size = digits_of_bits n_bits in
    if ltb (length n) size || ltb (length d) size
    then none
    else some (carry_digits (sub_digits (take size n) (take size d)) ++ drop size n)

-- The loop of `n_lt2` that takes 1 from `b`.
unfoldable pub decrement : Bool → List ℕ → List ℕ
decrement carry [] = []
decrement true (b ∷ bs) =
    let borrowed = decrement true bs in
    let rest = decrement false bs in if b == 0 then (n_radix - 1) ∷ borrowed else (b - 1) ∷ rest
decrement false (b ∷ bs) = b ∷ decrement false bs

-- What `n_lt2` answers for the comparison of `a` with `b - 1`.
abbrev pub lt2_answer : Sign → ℕ → ℕ → Bool
lt2_answer more a_bits a0 = false
lt2_answer same a_bits a0 = false
lt2_answer less a_bits a0 = if ltb 2 a_bits then true else a0 == 3

unfoldable pub n_lt2 : List ℕ → List ℕ → Option Bool
unfolding decrement n_bits n_cmp
n_lt2 a b = do
  let t = decrement true b
  a_bits ← n_bits a (n_size * n_radix_shift)
  t_bits ← n_bits t (n_size * n_radix_shift)
  order ← n_cmp a t a_bits t_bits
  a0 ← get_elem? a 0
  some (lt2_answer order a_bits a0)

unfoldable pub n_neq1 : List ℕ → Option Bool
unfolding n_bits
n_neq1 a = do a_bits ← n_bits a (n_size * n_radix_shift); some (not (a_bits == 1))
