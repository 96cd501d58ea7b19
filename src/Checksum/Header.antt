-- ===== src/Checksum/Header.antt =====
-- The checksum of an IPv4 header, as src/packet_dispatch.c writes it: the field is cleared, the
-- checksum is computed and stored.
use reqrypt.Common.{
  ◌==◌, length, get_elem?, set, length-set, get_elem?-set_ne, IsBytes, put_u16, ℕ, zero, suc, ◌+◌,
  ◌*◌, ◌/◌, ◌%◌, ◌^◌, ◌≤◌, ◌<◌, ◌≡◌, ap, ◌∙◌, ◌≢◌, false, some, List, [], ◌∷◌, arith,
}
use reqrypt.Checksum.{fold_carries, ip_checksum}
use reqrypt.Checksum.Rfc1071.{word_sum, byte_sum, checksum-eq, fold_carries_lem, word_sum-le}

abbrev double : ℕ → ℕ
double zero = 0
double (suc k) = suc (suc (double k))

-- Writing the word at index `k` moves the sum by the difference of the two words.
word_sum-set :
    (n k : ℕ) (xs : List ℕ) (a b c d : ℕ)
    → k < n
    → suc (double k) < length xs
    → word_sum n (set (set xs (double k) a) (suc (double k)) b) + (c + 256 * d)
      ≡ word_sum n (set (set xs (double k) c) (suc (double k)) d) + (a + 256 * b)
word_sum-set zero k xs a b c d h l = absurd (omega arith)
word_sum-set (suc n) k [] a b c d h l = absurd (omega arith)
word_sum-set (suc n) zero (x ∷ []) a b c d h l = absurd (omega arith)
word_sum-set (suc n) (suc k) (x ∷ []) a b c d h l = absurd (omega arith)
word_sum-set (suc n) zero (x ∷ y ∷ xs) a b c d h l = omega arith
word_sum-set (suc n) (suc k) (x ∷ y ∷ xs) a b c d h l =
    omega (arith, word_sum-set n k xs a b c d (omega arith) (omega arith))

set-IsBytes : (xs : List ℕ) (i v : ℕ) → IsBytes xs → v < 256 → IsBytes (set xs i v)
set-IsBytes [] i v h hv = h
set-IsBytes (x ∷ xs) zero v (hx, h) hv = (hv, h)
set-IsBytes (x ∷ xs) (suc i) v (hx, h) hv = (hx, set-IsBytes xs i v h hv)

pub put_u16-IsBytes : (xs : List ℕ) (i v : ℕ) → IsBytes xs → IsBytes (put_u16 xs i v)
put_u16-IsBytes xs i v h =
    set-IsBytes _ (i + 1) _ (set-IsBytes xs i _ h (omega arith)) (omega arith)

pub length-put_u16 : (xs : List ℕ) (i v : ℕ) → length (put_u16 xs i v) ≡ length xs
length-put_u16 xs i v = length-set _ (i + 1) _ ∙ length-set xs i _

-- The header with `v` in its checksum field.
abbrev pub with_check : List ℕ → ℕ → List ℕ
with_check ip v = put_u16 ip 10 v

-- A header of `ihl` words, all inside the buffer.
pub record IsHeader (ihl : ℕ) (ip : List ℕ) : Type 0 where
  pub bytes : IsBytes ip
  pub first : (b : ℕ) × (get_elem? ip 0 ≡ some b) × (b % 16 ≡ ihl)
  pub long : 5 ≤ ihl
  pub fits : ihl * 4 ≤ length ip

pub first-with_check : (ip : List ℕ) (v : ℕ) → get_elem? (with_check ip v) 0 ≡ get_elem? ip 0
first-with_check ip v =
    get_elem?-set_ne (set ip 10 (v % 256)) 11 0 (v / 256 % 256) (omega arith)
    ∙ get_elem?-set_ne ip 10 0 (v % 256) (omega arith)

covered : (ihl : ℕ) (ip : List ℕ) → byte_sum ip (ihl * 4) ≡ word_sum (2 * ihl) ip
covered ihl ip = rw (half, even) (omega arith)
  where
    half : ihl * 4 / 2 ≡ 2 * ihl
    half = omega arith

    even : (ihl * 4 % 2 == 1) ≡ false
    even = ground arith

ip_checksum-eq :
    (ihl : ℕ) (ip : List ℕ) (v : ℕ)
    → IsHeader ihl ip
    → ihl < 16
    → ip_checksum (with_check ip v) ≡ some (fold_carries (word_sum (2 * ihl) (with_check ip v)))
unfolding ip_checksum
ip_checksum-eq ihl ip v h small =
    let (b, read, low) = h.first in
    rw
      (
        first-with_check ip v,
        read,
        low,
        checksum-eq [] 0 (with_check ip v) (ihl * 4) tt (put_u16-IsBytes ip 10 v h.bytes)
            (omega arith) (rw (length-put_u16 ip 10 v) h.fits) (omega arith) (omega arith),
        covered ihl (with_check ip v),
      )
      (ap (λ (sum : ℕ). some (fold_carries sum)) (omega arith))

word_sum-ge_first :
    (n : ℕ) (xs : List ℕ) (b : ℕ)
    → 0 < n
    → 2 ≤ length xs
    → get_elem? xs 0 ≡ some b
    → b ≤ word_sum n xs
word_sum-ge_first zero xs b hn hl e = absurd (omega arith)
word_sum-ge_first (suc n) [] b hn hl e = absurd (omega arith)
word_sum-ge_first (suc n) (x ∷ []) b hn hl e = absurd (omega arith)
word_sum-ge_first (suc n) (x ∷ y ∷ xs) b hn hl e = ground arith

word_sum-with_check :
    (ihl : ℕ) (ip : List ℕ) (v : ℕ)
    → IsHeader ihl ip
    → v < 2 ^ 16
    → word_sum (2 * ihl) (with_check ip v) ≡ word_sum (2 * ihl) (with_check ip 0) + v
word_sum-with_check ihl ip v h hv = omega (
  arith,
  word_sum-set (2 * ihl) 5 ip (v % 256) (v / 256 % 256) 0 0 (omega (arith, h.long))
      (omega (arith, h.long, h.fits)),
)

-- A sum that a checksum has completed to a multiple of 2^16 - 1, and is not 0, folds to 0.
fold_carries_complete : (sum : ℕ) → sum < 2 ^ 32 → sum % 65535 ≡ 0 → sum ≢ 0 → fold_carries sum ≡ 0
fold_carries_complete sum h m ne = grind (arith, fold_carries_lem sum h)

-- What the code stores into a header of `ihl` words is a 16-bit value that makes the header
-- verify: the checksum of the finished header, which the receiver computes, is 0.
pub ip_checksum-verifies :
    (ihl : ℕ) (ip : List ℕ)
    → IsHeader ihl ip
    → ihl < 16
    → (c : ℕ) × (ip_checksum (with_check ip 0) ≡ some c)
      × (c < 2 ^ 16)
      × (ip_checksum (with_check ip c) ≡ some 0)
ip_checksum-verifies ihl ip h small =
    let (b, read, low) = h.first in
    let sum = word_sum (2 * ihl) (with_check ip 0) in
    let below : sum < 2 ^ 31 = sum_fits in
    let (fits, multiple, wrong_zero) = fold_carries_lem sum (omega arith) in
    let positive : b ≤ sum =
      word_sum-ge_first (2 * ihl) (with_check ip 0) b (omega (arith, h.long))
        (rw (length-put_u16 ip 10 0) (omega (arith, h.long, h.fits)))
        (first-with_check ip 0 ∙ read) in
    (
      fold_carries sum,
      ip_checksum-eq ihl ip 0 h small,
      fits,
      ip_checksum-eq ihl ip (fold_carries sum) h small
          ∙ ap some (
              rw (word_sum-with_check ihl ip (fold_carries sum) h fits) (
                fold_carries_complete (sum + fold_carries sum) (omega arith) multiple
                  (λ e. absurd (omega (arith, h.long))))),
    )
  where
    sum_fits : word_sum (2 * ihl) (with_check ip 0) < 2 ^ 31
    sum_fits =
        omega (arith, word_sum-le (2 * ihl) (with_check ip 0) (put_u16-IsBytes ip 10 0 h.bytes))
