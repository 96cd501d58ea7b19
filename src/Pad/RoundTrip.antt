-- ===== src/Pad/RoundTrip.antt =====
-- `pad_decode` after `pad_encode`, src/encodings/pad.c.
use mathlib.Core.Path.{subst}
use native.Mathlib.Nat.{mod-lt}
use reqrypt.Common.{
  ltb, leb, ◌==◌, if◌then◌else◌, length, get_elem?, All, length-append, drop-append_of_eq,
  get_elem?-some, get_elem?-append_right, append-assoc_cons, u8, ℕ, zero, suc, ◌+◌, ◌-◌, ◌%◌, ◌≤◌,
  ◌<◌, ◌≡◌, refl, sym, ap, true, false, Option, none, some, List, [], ◌∷◌, ◌++◌, arith,
}
use reqrypt.Common.Outcome.{Outcome, ok, panicked, fault, read, ◌>>=◌}
use reqrypt.Pad.{
  PadState, success, random_size, pad_fill, pad_encode, pad_decode, strip, fill_value, check_value,
  fill_loop, check_loop, char_eq, pad_check, pad_overhead,
}
use reqrypt.Pad.Init.{IsValid}

pub random_size-le : (s : PadState) (byte : ℕ) → IsValid s → random_size s byte ≤ s.max_size
random_size-le s byte v =
    let h : byte % (s.max_size - s.min_size + 1) < s.max_size - s.min_size + 1 =
      mod-lt byte (omega arith) in
    omega arith

Outcome-bind-ok {ℓ κ} :
    {A : Type ℓ} {B : Type κ} (m : Outcome A) (f : A → Outcome B) {b : B}
    → (m >>= f) ≡ ok b
    → (a : A) × (m ≡ ok a) × (f a ≡ ok b)
Outcome-bind-ok (ok a) f h = (a, refl, h)
Outcome-bind-ok panicked f h = cc
Outcome-bind-ok fault f h = cc

ok-length : {xs ys : List ℕ} (n : ℕ) → ok xs ≡ ok ys → length xs ≡ n → length ys ≡ n
ok-length {xs} {ys} n h k = subst (λ l. length l ≡ n) (cc) k

pub fill_loop-length :
    (v : List ℕ) (n i j : ℕ) (pad : List ℕ) → fill_loop v n i j ≡ ok pad → length pad ≡ n
unfolding fill_loop
fill_loop-length v zero i j pad h = ok-length 0 h refl
fill_loop-length v (suc n) i j pad h =
    let (c, _, h1) = Outcome-bind-ok (read (get_elem? v j)) _ h in
    let (next, _, h2) = Outcome-bind-ok (read (get_elem? v (i + 1))) _ h1 in
    let (rest, rec, h3) =
      Outcome-bind-ok (fill_loop v n (i + 1) (if next == 0 then 0 else j + 1)) _ h2 in
    ok-length (suc n) h3 (ap suc (fill_loop-length v n (i + 1) _ rest rec))

strip_append :
    (pad message : List ℕ) (n : ℕ)
    → length pad ≡ n
    → 0 < length message
    → strip n (pad ++ message) ≡ success message
unfolding strip
strip_append pad message n h k =
    let e : length (pad ++ message) ≡ n + length message = rw (length-append, h) in
    let b : leb (length (pad ++ message)) n ≡ false = ground arith in
    rw (b, drop-append_of_eq n pad message h)

-- The value is long enough for a padding of `n` characters, and it is ASCII.
abbrev pub CanFill : Option (List ℕ) → ℕ → Type 0
CanFill none n = Unit
CanFill (some v) n = (n ≤ length v) × All (λ c. c < 128) v

fill_loop-ok :
    (v : List ℕ) (n i j : ℕ)
    → i + n < length v
    → j ≤ i
    → (pad : List ℕ) × (fill_loop v n i j ≡ ok pad)
unfolding fill_loop
fill_loop-ok v zero i j h k = ([], refl)
fill_loop-ok v (suc n) i j h k =
    let (c, read_c) = get_elem?-some v j (omega arith) in
    let (next, read_next) = get_elem?-some v (i + 1) (omega arith) in
    let (rest, rec) =
      fill_loop-ok v n (i + 1) (if next == 0 then 0 else j + 1) (omega arith) (ground arith) in
    (c ∷ rest, rw (read_c, read_next, rec))

ascii_eq :
    (v : List ℕ) (j c : ℕ) → All (λ c. c < 128) v → read (get_elem? v j) ≡ ok c → char_eq c c ≡ true
ascii_eq [] j c a h = absurd (cc)
ascii_eq (x ∷ v) zero c (hx, a) h = let e : x ≡ c = cc in ground arith
ascii_eq (x ∷ v) (suc j) c (hx, a) h = ascii_eq v j c a h

append-All : (v : List ℕ) → All (λ c. c < 128) v → All (λ c. c < 128) (v ++ (0 ∷ []))
append-All [] h = (omega arith, tt)
append-All (x ∷ v) (hx, h) = (hx, append-All v h)

CanFill-le : (value : Option (List ℕ)) {m n : ℕ} → m ≤ n → CanFill value n → CanFill value m
CanFill-le none h k = tt
CanFill-le (some v) h (k, a) = (omega arith, a)

check_loop_step :
    (v : List ℕ) (n i j : ℕ) (front back : List ℕ) (c next : ℕ)
    → read (get_elem? v j) ≡ ok c
    → read (get_elem? v (i + 1)) ≡ ok next
    → get_elem? (front ++ (c ∷ back)) i ≡ some c
    → char_eq c c ≡ true
    → check_loop v (front ++ (c ∷ back)) n (i + 1) (if next == 0 then 0 else j + 1) ≡ ok true
    → check_loop v (front ++ (c ∷ back)) (suc n) i j ≡ ok true
unfolding check_loop
check_loop_step v n i j front back c next read_c read_next here ascii ih =
    rw (here, read_c, ascii, read_next, ih)

check_loop-fill_loop :
    (v : List ℕ) (n i j : ℕ) (front pad back : List ℕ)
    → All (λ c. c < 128) v
    → length front ≡ i
    → fill_loop v n i j ≡ ok pad
    → check_loop v (front ++ (pad ++ back)) n i j ≡ ok true
unfolding fill_loop check_loop
check_loop-fill_loop v zero i j front pad back a h k = refl
check_loop-fill_loop v (suc n) i j front pad back a h k =
    let (c, read_c, k1) = Outcome-bind-ok (read (get_elem? v j)) _ k in
    let (next, read_next, k2) = Outcome-bind-ok (read (get_elem? v (i + 1))) _ k1 in
    let (rest, rec, k3) =
      Outcome-bind-ok (fill_loop v n (i + 1) (if next == 0 then 0 else j + 1)) _ k2 in
    let ascii : char_eq c c ≡ true = ascii_eq v j c a read_c in
    let here : get_elem? (front ++ (c ∷ (rest ++ back))) i ≡ some c =
      get_elem?-append_right front (c ∷ (rest ++ back)) i h in
    let ih =
      check_loop-fill_loop v n (i + 1) _ (front ++ (c ∷ [])) rest back a (rw (length-append, h))
        rec in
    let same : c ∷ rest ≡ pad = cc in
    subst (λ p. check_loop v (front ++ (p ++ back)) (suc n) i j ≡ ok true) same
      (check_loop_step v n i j front (rest ++ back) c next read_c read_next here ascii (
        subst (λ l. check_loop v l n (i + 1) (if next == 0 then 0 else j + 1) ≡ ok true)
          (sym (append-assoc_cons front c (rest ++ back))) ih))

module _ {Rng : Type 0} (random : Rng → ℕ → Rng × List ℕ)
    (random-length : (rng : Rng) (n : ℕ) → length ((random rng n).1) ≡ n) where
  fill_value-ok :
      (value : Option (List ℕ)) (rng : Rng) (n : ℕ)
      → CanFill value n
      → (rng1 : Rng) × (pad : List ℕ) × (fill_value random value rng n ≡ ok (rng1, pad))
        × (length pad ≡ n)
  unfolding fill_value
  fill_value-ok none rng n h = ((random rng n).0, (random rng n).1, refl, random-length rng n)
  fill_value-ok (some v) rng n (h, _) =
      let longer : length (v ++ (0 ∷ [])) ≡ length v + 1 = length-append v _ in
      let (pad, e) = fill_loop-ok (v ++ (0 ∷ [])) n 0 0 (omega arith) (omega arith) in
      (rng, pad, rw e, fill_loop-length (v ++ (0 ∷ [])) n 0 0 pad e)

  -- The padding that `pad_fill` writes passes `pad_check`.
  check_value-fill_value :
      (value : Option (List ℕ)) (rng rng1 : Rng) (n : ℕ) (pad back : List ℕ)
      → CanFill value n
      → fill_value random value rng n ≡ ok (rng1, pad)
      → check_value value (pad ++ back) n ≡ ok true
  unfolding fill_value check_value
  check_value-fill_value none rng rng1 n pad back h k = refl
  check_value-fill_value (some v) rng rng1 n pad back (h, a) k =
      let (pad1, e, k1) = Outcome-bind-ok (fill_loop (v ++ (0 ∷ [])) n 0 0) _ k in
      let same : pad1 ≡ pad = cc in
      subst (λ p. check_loop (v ++ (0 ∷ [])) (p ++ back) n 0 0 ≡ ok true) same
        (check_loop-fill_loop (v ++ (0 ∷ [])) n 0 0 [] pad1 back (append-All v a) refl e)

  -- In the fixed mode, when the value is ASCII and not shorter than the padding, encoding a
  -- message that is not empty succeeds and decoding returns the
  -- message; the packet is at most `pad_overhead` bytes longer.
  pub decode_encode_fixed :
      (s : PadState) (rng : Rng) (message : List ℕ)
      → s.fixed ≡ true
      → CanFill s.value s.size
      → 0 < length message
      → (rng1 : Rng) × (packet : List ℕ) × (pad_encode random s rng message ≡ ok (rng1, packet))
        × (pad_decode s packet ≡ ok (success message))
        × (length packet ≤ length message + pad_overhead s)
  unfolding pad_encode pad_decode pad_overhead pad_fill pad_check
  decode_encode_fixed s rng message mode fits nonempty =
      let (rng1, pad, e, len) = fill_value-ok s.value rng s.size fits in
      let total : length (pad ++ message) ≡ length pad + length message =
        length-append pad message in
      let room : ltb s.size (length (pad ++ message)) ≡ true = ground arith in
      (
        rng1,
        pad ++ message,
        rw (mode, e),
        rw (
          mode,
          room,
          check_value-fill_value s.value rng rng1 s.size pad message fits e,
          strip_append pad message s.size len nonempty,
        ),
        rw mode (omega arith),
      )

  -- In the random mode, for a state that is valid with a maximum below 255, when the value is
  -- ASCII and not shorter than the maximum, encoding a message that is not empty succeeds and
  -- decoding returns the
  -- message; the packet is at most `pad_overhead` bytes longer.
  pub decode_encode_random :
      (s : PadState) (rng : Rng) (message : List ℕ)
      → s.fixed ≡ false
      → IsValid s
      → s.max_size < 255
      → CanFill s.value s.max_size
      → 0 < length message
      → (rng1 : Rng) × (packet : List ℕ) × (pad_encode random s rng message ≡ ok (rng1, packet))
        × (pad_decode s packet ≡ ok (success message))
        × (length packet ≤ length message + pad_overhead s)
  unfolding pad_encode pad_decode pad_overhead pad_fill
  decode_encode_random s rng message mode valid small fits nonempty =
      let (byte, drawn) = get_elem?-some ((random rng 1).1) 0 (rw random-length (omega arith)) in
      let bound = random_size-le s byte valid in
      let (rng1, pad, e, len) =
        fill_value-ok s.value ((random rng 1).0) (random_size s byte)
          (CanFill-le s.value bound fits) in
      let prefix : u8 (random_size s byte + 1) ≡ suc (random_size s byte) = ground arith in
      (
        rng1,
        byte ∷ (pad ++ message),
        rw (mode, drawn, e),
        rw (
          mode,
          prefix,
          strip_append (byte ∷ pad) message (suc (random_size s byte)) (ap suc len) nonempty,
        ),
        rw (mode, length-append) (omega arith),
      )
