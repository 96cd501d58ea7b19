-- ===== src/Base64/Overread.antt =====
-- The reads of `base64_encode` in src/base64.c.
use reqrypt.Common.{
  ◌>>=◌, length, get_elem?, u64, sub64, ℕ, zero, suc, ◌+◌, ◌*◌, ◌/◌, ◌^◌, ◌<◌, ◌≡◌, refl, ap, ◌∙◌,
  Option, none, some, List, [], ◌∷◌, arith,
}
use reqrypt.Base64.{read_bits, base64_todigit, encode_loop, base64_encode}

read_bits-none :
    (bytes : List ℕ) (idx : ℕ) → get_elem? bytes (idx / 8 + 1) ≡ none → read_bits bytes idx ≡ none
unfolding read_bits
read_bits-none bytes idx h = ground arith

bind-none {ℓ κ} :
    {A : Type ℓ} {B : Type κ} (m : Option A) (f : A → Option B)
    → ((a : A) → f a ≡ none)
    → (m >>= f) ≡ none
bind-none none f h = refl
bind-none (some a) f h = h a

get_elem?_end : (bytes : List ℕ) → get_elem? bytes (length bytes) ≡ none
get_elem?_end [] = refl
get_elem?_end (b ∷ bytes) = get_elem?_end bytes

-- The last read of the loop ends past the input.
encode_loop-none :
    (bytes : List ℕ) (left i : ℕ)
    → 6 * (i + left) / 8 + 1 ≡ length bytes
    → encode_loop bytes (suc left) i ≡ none
unfolding encode_loop
encode_loop-none bytes zero i h =
    let past : get_elem? bytes (6 * i / 8 + 1) ≡ none =
      ap (λ (n : ℕ). get_elem? bytes n) (omega arith) ∙ get_elem?_end bytes in
    rw (read_bits-none bytes (6 * i) past)
encode_loop-none bytes (suc left) i h = bind-none (read_bits bytes (6 * i)) _ (λ val.
    bind-none (base64_todigit val) _
      (λ digit. rw (encode_loop-none bytes left (i + 1) (omega arith))))

-- Every input that is not empty is read past its end: the last digit needs the byte after it.
pub base64_encode_overread :
    (bytes : List ℕ)
    → 0 < length bytes
    → length bytes < 2 ^ 60
    → base64_encode bytes (length bytes) ≡ none
unfolding base64_encode
base64_encode_overread bytes nonempty small =
    let last : ℕ = sub64 (u64 (length bytes * 8)) 1 / 6 in
    let count : last + 1 ≡ suc last = omega arith in
    ap (λ (n : ℕ). encode_loop bytes n 0) count ∙ encode_loop-none bytes last 0 (omega arith)
