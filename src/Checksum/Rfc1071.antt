-- ===== src/Checksum/Rfc1071.antt =====
-- src/checksum.c against RFC 1071: the one's complement sum of the 16-bit words.
use reqrypt.Common.{
  ◌==◌, if◌then◌else◌, length, get_or, get_elem?-eq-get_or, u32, IsBytes, ℕ, zero, suc, ◌+◌, ◌-◌,
  ◌*◌, ◌/◌, ◌%◌, ◌^◌, ◌≤◌, ◌<◌, ◌≡◌, ◌↔◌, some, List, [], ◌∷◌, arith,
}
use reqrypt.Common.{
  ◌==◌, if◌then◌else◌, length, get_or, get_elem?-eq-get_or, u32, IsBytes, ℕ, zero, suc, ◌+◌, ◌-◌,
  ◌*◌, ◌/◌, ◌%◌, ◌^◌, ◌≤◌, ◌<◌, ◌≡◌, ◌↔◌, some, List, [], ◌∷◌, arith,
}
use reqrypt.Common.{
  ◌==◌, if◌then◌else◌, length, get_or, get_elem?-eq-get_or, u32, IsBytes, ℕ, zero, suc, ◌+◌, ◌-◌,
  ◌*◌, ◌/◌, ◌%◌, ◌^◌, ◌≤◌, ◌<◌, ◌≡◌, ◌↔◌, some, List, [], ◌∷◌, arith,
}
use reqrypt.Checksum.{sum_words, add_odd_byte, fold_carries, checksum, icmp_checksum}

-- The sum of the first `n` words, with no width.
abbrev pub word_sum : ℕ → List ℕ → ℕ
word_sum zero bytes = 0
word_sum (suc n) (lo ∷ hi ∷ bytes) = lo + 256 * hi + word_sum n bytes
word_sum (suc n) (lo ∷ []) = 0
word_sum (suc n) [] = 0

-- The sum of `size` bytes: a last odd byte counts as the low half of a word.
abbrev pub byte_sum : List ℕ → ℕ → ℕ
byte_sum bytes size =
    word_sum (size / 2) bytes + (if size % 2 == 1 then get_or bytes (size - 1) 0 else 0)

pub word_sum-le : (n : ℕ) (bytes : List ℕ) → IsBytes bytes → word_sum n bytes ≤ n * 65535
word_sum-le zero bytes h = omega arith
word_sum-le (suc n) (lo ∷ hi ∷ bytes) (hl, (hh, h)) = omega (arith, word_sum-le n bytes h)
word_sum-le (suc n) (lo ∷ []) h = omega arith
word_sum-le (suc n) [] h = omega arith

-- As long as the sum fits 32 bits, the loop adds up the words.
sum_words-eq :
    (n sum : ℕ) (bytes : List ℕ)
    → 2 * n ≤ length bytes
    → sum + word_sum n bytes < 2 ^ 32
    → sum_words n sum bytes ≡ some (sum + word_sum n bytes)
unfolding sum_words
sum_words-eq zero sum bytes h fits = ground arith
sum_words-eq (suc n) sum (lo ∷ hi ∷ bytes) h fits =
    ground (arith, sum_words-eq n (u32 (sum + (lo + 256 * hi))) bytes)
sum_words-eq (suc n) sum (lo ∷ []) h fits = absurd (omega arith)
sum_words-eq (suc n) sum [] h fits = absurd (omega arith)

-- The two folds leave the complement of the sum modulo 2^16 - 1, and never the wrong zero.
pub fold_carries_lem :
    (sum : ℕ)
    → sum < 2 ^ 32
    → (fold_carries sum < 2 ^ 16)
      × ((sum + fold_carries sum) % 65535 ≡ 0)
      × ((fold_carries sum ≡ 65535) ↔ (sum ≡ 0))
unfolding fold_carries
fold_carries_lem sum h = (omega arith, omega arith, ground arith)

get_or-lt : (bytes : List ℕ) (i : ℕ) → IsBytes bytes → get_or bytes i 0 < 256
get_or-lt [] i h = omega arith
get_or-lt (b ∷ bytes) zero (hb, h) = hb
get_or-lt (b ∷ bytes) (suc i) (hb, h) = get_or-lt bytes i h

add_odd_byte-eq :
    (sum : ℕ) (bytes : List ℕ) (size : ℕ)
    → size ≤ length bytes
    → IsBytes bytes
    → sum < 2 ^ 32 - 256
    → add_odd_byte sum bytes size
      ≡ some (sum + (if size % 2 == 1 then get_or bytes (size - 1) 0 else 0))
unfolding add_odd_byte
add_odd_byte-eq sum bytes size h bs fits =
    ground (arith, get_elem?-eq-get_or bytes (size - 1) 0, get_or-lt bytes (size - 1) bs)

-- At IPv4 sizes the sum of both buffers stays far below 2^32.
pub sums_fit :
    (pseudo : List ℕ) (pseudo_size : ℕ) (bytes : List ℕ) (size : ℕ)
    → IsBytes pseudo
    → IsBytes bytes
    → pseudo_size ≤ 40
    → size < 2 ^ 16
    → (word_sum (pseudo_size / 2) pseudo ≤ 20 * 65535) × (byte_sum bytes size ≤ 32768 * 65535 + 256)
sums_fit pseudo pseudo_size bytes size hp hb sp sb = (
  omega (arith, word_sum-le (pseudo_size / 2) pseudo hp),
  ground (arith, word_sum-le (size / 2) bytes hb, get_or-lt bytes (size - 1) hb),
)

-- Within the sizes of IPv4 the code computes the folded sum of the words of both buffers.
pub checksum-eq :
    (pseudo : List ℕ) (pseudo_size : ℕ) (bytes : List ℕ) (size : ℕ)
    → IsBytes pseudo
    → IsBytes bytes
    → pseudo_size ≤ length pseudo
    → size ≤ length bytes
    → pseudo_size ≤ 40
    → size < 2 ^ 16
    → checksum pseudo pseudo_size bytes size
      ≡ some (fold_carries (word_sum (pseudo_size / 2) pseudo + byte_sum bytes size))
unfolding checksum
checksum-eq pseudo pseudo_size bytes size hp hb lp lb sp sb =
    rw (sum_words-eq (pseudo_size / 2) 0 pseudo (omega arith) (omega (arith, bounds))) (
      rw
        (sum_words-eq (size / 2) (0 + word_sum (pseudo_size / 2) pseudo) bytes (omega arith)
          (omega (arith, bounds)))
        (rw
          (add_odd_byte-eq (0 + word_sum (pseudo_size / 2) pseudo + word_sum (size / 2) bytes) bytes
            size lb hb (omega (arith, bounds)))
          (ground arith)))
  where
    bounds :
        (word_sum (pseudo_size / 2) pseudo ≤ 20 * 65535)
        × (byte_sum bytes size ≤ 32768 * 65535 + 256)
    bounds = sums_fit pseudo pseudo_size bytes size hp hb sp sb

-- RFC 1071: at IPv4 sizes `checksum` reads inside its buffers and returns a 16-bit value that,
-- added to the words it covers, gives a multiple of 2^16 - 1; it is 0xFFFF only if all words are 0.
pub checksum_complement :
    (pseudo : List ℕ) (pseudo_size : ℕ) (bytes : List ℕ) (size : ℕ)
    → IsBytes pseudo
    → IsBytes bytes
    → pseudo_size ≤ length pseudo
    → size ≤ length bytes
    → pseudo_size ≤ 40
    → size < 2 ^ 16
    → (r : ℕ) × (checksum pseudo pseudo_size bytes size ≡ some r)
      × (r < 2 ^ 16)
      × ((word_sum (pseudo_size / 2) pseudo + byte_sum bytes size + r) % 65535 ≡ 0)
      × ((r ≡ 65535) ↔ (word_sum (pseudo_size / 2) pseudo + byte_sum bytes size ≡ 0))
checksum_complement pseudo pseudo_size bytes size hp hb lp lb sp sb =
    let total = word_sum (pseudo_size / 2) pseudo + byte_sum bytes size in
    let (below, multiple, wrong_zero) =
      fold_carries_lem total (omega (arith, sums_fit pseudo pseudo_size bytes size hp hb sp sb)) in
    (
      fold_carries total,
      checksum-eq pseudo pseudo_size bytes size hp hb lp lb sp sb,
      below,
      multiple,
      wrong_zero,
    )

-- An ICMP message of IPv4 size has a checksum.
pub icmp_checksum-some :
    (icmp : List ℕ) (size : ℕ)
    → IsBytes icmp
    → size ≤ length icmp
    → size < 2 ^ 16
    → (c : ℕ) × (icmp_checksum icmp size ≡ some c)
unfolding icmp_checksum
icmp_checksum-some icmp size bs fits small = (
  fold_carries (word_sum 0 [] + byte_sum icmp size),
  checksum-eq [] 0 icmp size tt bs (omega arith) fits (omega arith) small,
)
