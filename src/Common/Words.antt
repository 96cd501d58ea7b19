-- ===== src/Common/Words.antt =====
-- Fixed-width integers, the byte order of the host (little-endian) and of the network, and reads
-- and writes of a byte buffer. A read that leaves the buffer is `none`: C leaves it undefined.
use Prim.Native.Nat.{ℕ, zero, suc, ◌+◌, ◌-◌, ◌*◌, ◌/◌, ◌%◌, ◌^◌, ◌<◌}
use Prim.Native.Char.{code}
use Prim.Native.String.{String}
use mathlib.Core.Path.{◌≡◌, refl}
use mathlib.Core.List.{List, [], ◌∷◌, ◌++◌}
use mathlib.Core.Option.{Option, none, some}
use mathlib.Core.Bool.{Bool, true, false, ◌&&◌}
use native.Mathlib.Omega.{arith}
use reqrypt.Common.Tests.{leb, ◌==◌, if◌then◌else◌, ◌>>=◌, bind-eq-some}
use reqrypt.Common.Lists.{length, get_elem?, set, take, drop, All}

abbrev pub u8 : ℕ → ℕ
u8 n = n % 2 ^ 8

abbrev pub u16 : ℕ → ℕ
u16 n = n % 2 ^ 16

abbrev pub u32 : ℕ → ℕ
u32 n = n % 2 ^ 32

abbrev pub u64 : ℕ → ℕ
u64 n = n % 2 ^ 64

-- Subtraction of two `size_t` values wraps.
abbrev pub sub64 : ℕ → ℕ → ℕ
sub64 a b = (a + 2 ^ 64 - b) % 2 ^ 64

abbrev pub IsByte : ℕ → Type 0
IsByte b = b < 256

abbrev pub IsBytes : List ℕ → Type 0
IsBytes bs = All IsByte bs

-- `ntohs` and `htons` swap the two bytes on a little-endian host.
abbrev pub ntohs : ℕ → ℕ
ntohs n = n % 256 * 256 + n / 256 % 256

abbrev pub htons : ℕ → ℕ
htons n = n % 256 * 256 + n / 256 % 256

-- Loads of 8, 16 and 32 bits at an offset.
abbrev pub u8_at : List ℕ → ℕ → Option ℕ
u8_at p off = get_elem? p off

abbrev pub u16_at : List ℕ → ℕ → Option ℕ
u16_at p off = do a ← get_elem? p off; b ← get_elem? p (off + 1); some (a + 256 * b)

abbrev pub u32_at : List ℕ → ℕ → Option ℕ
u32_at p off = do a ← u16_at p off; b ← u16_at p (off + 2); some (a + 2 ^ 16 * b)

-- `n` bytes from an offset, as `memmove` copies them.
abbrev pub bytes_at : List ℕ → ℕ → ℕ → Option (List ℕ)
bytes_at p off n = if leb (off + n) (length p) then some (take n (drop off p)) else none

-- Stores of 8 and 16 bits; the caller's buffer is large enough.
abbrev pub put_u8 : List ℕ → ℕ → ℕ → List ℕ
put_u8 p off v = set p off (v % 256)

abbrev pub put_u16 : List ℕ → ℕ → ℕ → List ℕ
put_u16 p off v = set (set p off (v % 256)) (off + 1) (v / 256 % 256)

pub get_elem?-IsByte : (p : List ℕ) (i v : ℕ) → IsBytes p → get_elem? p i ≡ some v → v < 256
get_elem?-IsByte [] i v h e = absurd (cc)
get_elem?-IsByte (x ∷ p) zero v (hx, h) e = ground arith
get_elem?-IsByte (x ∷ p) (suc i) v (hx, h) e = get_elem?-IsByte p i v h e

pub u16_at-lt : (p : List ℕ) (i v : ℕ) → IsBytes p → u16_at p i ≡ some v → v < 2 ^ 16
u16_at-lt p i v h e =
    let (a, read_a, e1) = bind-eq-some (get_elem? p i) _ e in
    let (b, read_b, e2) = bind-eq-some (get_elem? p (i + 1)) _ e1 in
    ground (arith, get_elem?-IsByte p i a h read_a, get_elem?-IsByte p (i + 1) b h read_b)

pub drop-IsBytes : (n : ℕ) (xs : List ℕ) → IsBytes xs → IsBytes (drop n xs)
drop-IsBytes zero xs h = h
drop-IsBytes (suc n) [] h = h
drop-IsBytes (suc n) (x ∷ xs) (hx, h) = drop-IsBytes n xs h

pub take-IsBytes : (n : ℕ) (xs : List ℕ) → IsBytes xs → IsBytes (take n xs)
take-IsBytes zero xs h = tt
take-IsBytes (suc n) [] h = h
take-IsBytes (suc n) (x ∷ xs) (hx, h) = (hx, take-IsBytes n xs h)

pub append-IsBytes : (xs ys : List ℕ) → IsBytes xs → IsBytes ys → IsBytes (xs ++ ys)
append-IsBytes [] ys h k = k
append-IsBytes (x ∷ xs) ys (hx, h) k = (hx, append-IsBytes xs ys h k)

-- A test for `IsBytes`.
abbrev pub all_bytes : List ℕ → Bool
all_bytes [] = true
all_bytes (x ∷ xs) = leb x 255 && all_bytes xs

pub all_bytes-IsBytes : (xs : List ℕ) → all_bytes xs ≡ true → IsBytes xs
all_bytes-IsBytes [] h = tt
all_bytes-IsBytes (x ∷ xs) h = (ground arith, all_bytes-IsBytes xs (ground arith))

-- The bytes of a number in memory.
abbrev pub bytes_16 : ℕ → List ℕ
bytes_16 n = n % 256 ∷ n / 256 % 256 ∷ []

abbrev pub bytes_32 : ℕ → List ℕ
bytes_32 n = n % 256 ∷ n / 256 % 256 ∷ n / 65536 % 256 ∷ n / 16777216 % 256 ∷ []

pub value-bytes_16 : (n : ℕ) → n < 2 ^ 16 → n % 256 + 256 * (n / 256 % 256) ≡ n
value-bytes_16 n h = omega arith

pub value-bytes_32 :
    (n : ℕ)
    → n < 2 ^ 32
    → n % 256 + 256 * (n / 256 % 256) + 2 ^ 16 * (n / 65536 % 256 + 256 * (n / 16777216 % 256)) ≡ n
value-bytes_32 n h = omega arith

-- `strcmp(a, b) == 0`
abbrev pub str_same : List ℕ → List ℕ → Bool
str_same [] [] = true
str_same (a ∷ xs) (b ∷ ys) = a == b && str_same xs ys
str_same [] (b ∷ ys) = false
str_same (a ∷ xs) [] = false

pub str_same_self : (a : List ℕ) → str_same a a ≡ true
str_same_self [] = refl
str_same_self (x ∷ xs) = let ih = str_same_self xs in ground arith

pub str_same-eq : (a b : List ℕ) → str_same a b ≡ true → a ≡ b
str_same-eq [] [] h = refl
str_same-eq [] (b ∷ ys) h = absurd (cc)
str_same-eq (a ∷ xs) [] h = absurd (cc)
str_same-eq (a ∷ xs) (b ∷ ys) h =
    let first : a ≡ b = ground arith in
    let rest : str_same xs ys ≡ true = ground arith in λ i. first i ∷ str_same-eq xs ys rest i

-- The bytes of a C string, without the 0 at its end.
abbrev pub codes : String → List ℕ
codes String.[] = []
codes (String.◌∷◌ c s) = code c ∷ codes s
