-- ===== src/Natural/Set.antt =====
-- `N_set` of src/encodings/natural.c makes digits of bytes.
use native.Mathlib.Nat.{pow-le-pow_right}
use reqrypt.Common.{
  ltb, leb, length, take, drop, replicate, All, length-append, length-take, length-drop,
  length-replicate, append-All, take_add, IsBytes, drop-IsBytes, take-IsBytes, value, value-lt,
  value-append, value-zeros, pow-mul, ℕ, zero, suc, ◌+◌, ◌-◌, ◌*◌, ◌/◌, ◌%◌, ◌^◌, ◌≤◌, ◌<◌, ◌≡◌,
  refl, sym, ap, ◌∙◌, true, false, some, List, [], ◌∷◌, ◌++◌, arith,
}
use reqrypt.Natural.{n_radix, n_size, set_words, set_rest, n_set}
use reqrypt.Natural.Mul.{zeros_small, IsNumber}

-- Taken bytes are as many as asked for.
pub length-take_le : (k : ℕ) (bytes : List ℕ) → k ≤ length bytes → length (take k bytes) ≡ k
length-take_le k bytes h = let taken = length-take k bytes in omega arith

pub take-lt :
    (k : ℕ) (bytes : List ℕ) → IsBytes bytes → k ≤ length bytes → value 256 (take k bytes) < 256 ^ k
take-lt k bytes h len =
    rw (length-take_le k bytes len) at (value-lt 256 (take k bytes) (take-IsBytes k bytes h))

-- The number of the first bytes and of those behind them.
take-value :
    (k n : ℕ) (bytes : List ℕ)
    → k ≤ length bytes
    → value 256 (take (k + n) bytes)
      ≡ value 256 (take k bytes) + 256 ^ k * value 256 (take n (drop k bytes))
take-value k n bytes len =
    ap (value 256) (take_add k n bytes)
    ∙ value-append 256 (take k bytes) (take n (drop k bytes))
    ∙ rw (length-take_le k bytes len) refl

-- The lowest seven of the eight bytes of a load.
masked-value :
    (bytes : List ℕ)
    → IsBytes bytes
    → 7 ≤ length bytes
    → value 256 (take 8 bytes) % n_radix ≡ value 256 (take 7 bytes)
masked-value bytes h len =
    let split : value 256 (take 8 bytes)
        ≡ value 256 (take 7 bytes) + 256 ^ 7 * value 256 (take 1 (drop 7 bytes)) =
      take-value 7 1 bytes len in
    let below = take-lt 7 bytes h len in omega arith

set_words_step :
    (n : ℕ) (bytes words : List ℕ)
    → 8 ≤ length bytes
    → set_words n (drop 7 bytes) ≡ some words
    → set_words (suc n) bytes ≡ some (value 256 (take 8 bytes) % n_radix ∷ words)
unfolding set_words
set_words_step n bytes words len runs =
    let inside : leb (0 + 8) (length bytes) ≡ true = ground arith in rw (inside, runs) refl

set_words_end : (bytes : List ℕ) → set_words 0 bytes ≡ some []
unfolding set_words
set_words_end bytes = refl

-- The loads of the whole digits, where one byte more is readable.
set_words-value :
    (n : ℕ) (bytes : List ℕ)
    → IsBytes bytes
    → n * 7 < length bytes
    → (words : List ℕ) × (set_words n bytes ≡ some words)
      × (value n_radix words ≡ value 256 (take (n * 7) bytes))
      × (length words ≡ n)
      × All (λ d. d < n_radix) words
unfolding value
set_words-value zero bytes h len = ([], set_words_end bytes, refl, refl, tt)
set_words-value (suc n) bytes h len =
    let shorter = length-drop 7 bytes in
    let (words, runs, same, size, small) =
      set_words-value n (drop 7 bytes) (drop-IsBytes 7 bytes h) (omega arith) in
    let digit = masked-value bytes h (omega arith) in
    let next : suc n * 7 ≡ 7 + n * 7 = omega arith in
    let split = take-value 7 (n * 7) bytes (omega arith) in
    (
      value 256 (take 8 bytes) % n_radix ∷ words,
      set_words_step n bytes words (omega arith) runs,
      rw (next, split, digit, same) refl,
      ap suc size,
      (omega arith, small),
    )

-- What lies above the whole digits.
set_rest-value :
    (room extra : ℕ) (bytes : List ℕ)
    → IsBytes bytes
    → extra < 7
    → extra ≤ length bytes
    → extra < room * 7 + 1
    → (digits : List ℕ) × (set_rest room extra bytes ≡ some digits)
      × (value n_radix digits ≡ value 256 (take extra bytes))
      × (length digits ≡ room)
      × All (λ d. d < n_radix) digits
unfolding value
set_rest-value zero zero bytes h le len fits = ([], refl, refl, refl, tt)
set_rest-value zero (suc extra) bytes h le len fits = absurd (omega arith)
set_rest-value (suc room) extra bytes h le len fits =
    let inside : leb (0 + extra) (length bytes) ≡ true = ground arith in
    let below = take-lt extra bytes h len in
    let power : 256 ^ extra ≤ 256 ^ 6 =
      pow-le-pow_right {n = 256} (omega arith) {i = extra} {j = 6} (omega arith) in
    (
      value 256 (take extra bytes) ∷ replicate room 0,
      rw inside refl,
      rw (value-zeros n_radix room) (omega arith),
      ap suc (length-replicate room 0),
      (omega arith, zeros_small room),
    )

-- The digits of both parts are the number of all the bytes.
joined-value :
    (words rest bytes : List ℕ) (last extra : ℕ)
    → last * 7 + extra ≤ length bytes
    → length words ≡ last
    → value n_radix words ≡ value 256 (take (last * 7) bytes)
    → value n_radix rest ≡ value 256 (take extra (drop (last * 7) bytes))
    → value n_radix (words ++ rest) ≡ value 256 (take (last * 7 + extra) bytes)
joined-value words rest bytes last extra len sized same same_rest =
    let swapped : 7 * last ≡ last * 7 = omega arith in
    let radix : n_radix ^ last ≡ 256 ^ (last * 7) =
      pow-mul 256 7 last ∙ ap (λ (k : ℕ). 256 ^ k) swapped in
    value-append n_radix words rest
    ∙ rw (sized, same, same_rest, radix) (sym (take-value (last * 7) extra bytes (omega arith)))

-- `N_set` of at most 133 bytes, where the last load stays inside the buffer, is the number of the
-- bytes.
pub n_set-value :
    (bytes : List ℕ) (size : ℕ)
    → IsBytes bytes
    → size ≤ 133
    → size ≤ length bytes
    → size / 7 * 7 < length bytes
    → (a : List ℕ) × (n_set bytes size ≡ some a)
      × IsNumber a
      × (value n_radix a ≡ value 256 (take size bytes))
unfolding n_set
n_set-value bytes size h le len load =
    let (words, runs, same, sized, small) = set_words-value (size / 7) bytes h load in
    let shorter = length-drop (size / 7 * 7) bytes in
    let (rest, runs_rest, same_rest, sized_rest, small_rest) =
      set_rest-value (n_size - size / 7) (size % 7) (drop (size / 7 * 7) bytes)
        (drop-IsBytes _ bytes h) (omega arith) (omega arith) (omega arith) in
    let room : ltb n_size (size / 7) ≡ false = ground arith in
    let total : size / 7 * 7 + size % 7 ≡ size = omega arith in
    let joined = length-append words rest in
    (
      words ++ rest,
      rw (room, runs, runs_rest) refl,
      record { sized = omega arith; small = append-All _ words rest small small_rest },
      joined-value words rest bytes (size / 7) (size % 7) (omega arith) sized same same_rest
          ∙ ap (λ (k : ℕ). value 256 (take k bytes)) total,
    )
