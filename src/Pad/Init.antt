-- ===== src/Pad/Init.antt =====
-- The states that `pad_init` of src/encodings/pad.c makes.
use Prim.Native.String.{String}
use mathlib.Core.Path.{subst}
use reqrypt.Common.{
  ltb, ◌==◌, if◌then◌else◌, length, ℕ, ◌≤◌, ◌≡◌, refl, ◌≢◌, Bool, true, false, ◌&&◌, ◌||◌, Option,
  none, some, List, [], ◌∷◌, arith,
}
use reqrypt.Pad.{
  PadState, Param, Options, Result, success, failure, uint_val, str_val, no_options, store_once,
  store_value, add_option, chain, parse_one, parse_options, or_default, is_some, value_size,
  default_size, make_state, pad_init,
}

abbrev pub IfSome {ℓ κ} : {A : Type ℓ} → (A → Type κ) → Option A → Type κ
IfSome P none = Unit
IfSome P (some a) = P a

abbrev pub IsOne : List ℕ → Type 0
IsOne v = length v ≡ 1

abbrev pub IsByteSize : ℕ → Type 0
IsByteSize n = n ≤ 255

-- The sizes fit a byte, the range is not empty, and a value has exactly one character.
pub record IsValid (s : PadState) : Type 0 where
  pub ordered : s.min_size ≤ s.max_size
  pub max_fits : s.max_size ≤ 255
  pub size_fits : s.size ≤ 255
  pub one_char : IfSome IsOne s.value

record AreValid (o : Options) : Type 0 where
  min_fits : IfSome IsByteSize o.seen_min
  max_fits : IfSome IsByteSize o.seen_max
  size_fits : IfSome IsByteSize o.seen_size
  one_char : IfSome IsOne o.seen_value

chain-success {ℓ κ} :
    {A : Type ℓ} {B : Type κ} (r : Result A) (f : A → Result B) {b : B}
    → chain r f ≡ success b
    → (a : A) × (r ≡ success a) × (f a ≡ success b)
chain-success (success a) f h = (a, refl, h)
chain-success (failure e) f h = cc

success-AreValid : {o o' : Options} → AreValid o → success o ≡ success o' → AreValid o'
success-AreValid {o} {o'} v h = subst AreValid (cc) v

-- A string whose first two characters are not NUL, read as an integer, is above 255.
one_char_lem : (bs : List ℕ) → uint_val bs ≤ 255 → length (str_val bs) ≢ 0 → length (str_val bs) ≡ 1
one_char_lem [] h k = absurd (k refl)
one_char_lem (a ∷ []) h k = ground arith
one_char_lem (a ∷ b ∷ bs) h k = ground arith

if-cases {ℓ κ} :
    {A : Type ℓ} {P : Type κ} (b : Bool) {x y z : A}
    → (b ≡ true → x ≡ z → P)
    → (b ≡ false → y ≡ z → P)
    → (if b then x else y) ≡ z
    → P
if-cases true f g h = f refl h
if-cases false f g h = g refl h

store_once-AreValid :
    (m : Option ℕ) (n : ℕ) (o o' : Options)
    → AreValid o
    → store_once m n o ≡ success o'
    → AreValid o'
store_once-AreValid none n o o' v h = success-AreValid v h
store_once-AreValid (some m) n o o' v h = absurd (cc)

store_value-AreValid :
    (m : Option (List ℕ)) (bs : List ℕ) (o o' : Options)
    → uint_val bs ≤ 255
    → AreValid o
    → store_value m (str_val bs) o ≡ success o'
    → AreValid o'
store_value-AreValid (some _) bs o o' fits v h = absurd (cc)
store_value-AreValid none bs o o' fits v h =
    if-cases ((length (str_val bs) == 0) || ltb 255 (length (str_val bs))) (λ bad e. absurd (cc))
      (λ good e.
        success-AreValid
          (record {
            min_fits = v.min_fits;
            max_fits = v.max_fits;
            size_fits = v.size_fits;
            one_char = one_char_lem bs fits (ground arith);
          })
          e)
      h

add_option-AreValid :
    (o o' : Options) (p : Param) → AreValid o → add_option o p ≡ success o' → AreValid o'
unfolding add_option
add_option-AreValid o o' p v h =
    if-cases (ltb 255 (uint_val p.bytes)) (λ big e. absurd (cc))
      (λ fits e0.
        let fits : uint_val p.bytes ≤ 255 = ground arith in
        if-cases (p.id == 0)
          (λ _ e.
            store_once-AreValid o.seen_min (uint_val p.bytes) _ o'
              (record {
                min_fits = fits;
                max_fits = v.max_fits;
                size_fits = v.size_fits;
                one_char = v.one_char;
              })
              e)
          (λ _.
            if-cases (p.id == 1)
              (λ _ e.
                store_once-AreValid o.seen_max (uint_val p.bytes) _ o'
                  (record {
                    min_fits = v.min_fits;
                    max_fits = fits;
                    size_fits = v.size_fits;
                    one_char = v.one_char;
                  })
                  e)
              (λ _.
                if-cases (p.id == 2)
                  (λ _ e.
                    store_once-AreValid o.seen_size (uint_val p.bytes) _ o'
                      (record {
                        min_fits = v.min_fits;
                        max_fits = v.max_fits;
                        size_fits = fits;
                        one_char = v.one_char;
                      })
                      e)
                  (λ _.
                    if-cases (p.id == 3)
                      (λ _ e. store_value-AreValid o.seen_value p.bytes o o' fits v e)
                      (λ _ e. absurd (cc)))))
          e0)
      h

parse_options-AreValid :
    (parse_param : String → Option Param) (o o' : Options) (ss : List String)
    → AreValid o
    → parse_options parse_param o ss ≡ success o'
    → AreValid o'
unfolding parse_options
parse_options-AreValid parse_param o o' [] v h = success-AreValid v h
parse_options-AreValid parse_param o o' (s ∷ ss) v h =
    let (p, _, h1) = chain-success (parse_one parse_param s) _ h in
    let (o1, added, h2) = chain-success (add_option o p) _ h1 in
    parse_options-AreValid parse_param o1 o' ss (add_option-AreValid o o1 p v added) h2

or_default-le : (m : Option ℕ) (d : ℕ) → IfSome IsByteSize m → d ≤ 255 → or_default m d ≤ 255
or_default-le none d h k = k
or_default-le (some n) d h k = h

if-IfSome :
    (b : Bool) (x y : Option ℕ)
    → IfSome IsByteSize x
    → IfSome IsByteSize y
    → IfSome IsByteSize (if b then x else y)
if-IfSome true x y h k = h
if-IfSome false x y h k = k

value_size-IsByteSize :
    (m : Option ℕ) (v : Option (List ℕ)) → IfSome IsByteSize m → IfSome IsByteSize (value_size m v)
value_size-IsByteSize (some n) v h = h
value_size-IsByteSize none none h = tt
value_size-IsByteSize none (some v) h = ground arith

default_size-IsByteSize : (o : Options) → AreValid o → IfSome IsByteSize (default_size o)
default_size-IsByteSize o v =
    if-IfSome (is_some o.seen_min || is_some o.seen_max) _ _ v.size_fits
      (value_size-IsByteSize o.seen_size o.seen_value v.size_fits)

success-IsValid : {s s' : PadState} → IsValid s → success s ≡ success s' → IsValid s'
success-IsValid {s} {s'} v h = subst IsValid (cc) v

make_state-IsValid :
    (o : Options) (s : PadState) → AreValid o → make_state o ≡ success s → IsValid s
unfolding make_state
make_state-IsValid o s v h =
    if-cases (is_some (default_size o) && (is_some o.seen_min || is_some o.seen_max))
      (λ _ e. absurd (cc))
      (λ _.
        if-cases (ltb (or_default o.seen_max 16) (or_default o.seen_min 0)) (λ _ e. absurd (cc))
          (λ ordered e.
            success-IsValid
              (record {
                ordered = ground arith;
                max_fits = or_default-le o.seen_max 16 v.max_fits (ground arith);
                size_fits =
                    or_default-le (default_size o) 0 (default_size-IsByteSize o v) (ground arith);
                one_char = v.one_char;
              })
              e))
      h

-- Whatever the parameter parser answers, a state that `pad_init` makes has sizes of one byte, its
-- minimum is at most its maximum, and its value, when it has one, is a single character: every
-- longer value is refused, since the range check of the integers reads the string's bytes.
pub pad_init-IsValid :
    (parse_param : String → Option Param) (is_pad : Bool) (options : List String) (s : PadState)
    → pad_init parse_param is_pad options ≡ success s
    → IsValid s
unfolding pad_init
pad_init-IsValid parse_param false options s h = absurd (cc)
pad_init-IsValid parse_param true options s h =
    let (o, parsed, made) = chain-success (parse_options parse_param no_options options) _ h in
    make_state-IsValid o s
      (parse_options-AreValid parse_param no_options o options
        (record { min_fits = tt; max_fits = tt; size_fits = tt; one_char = tt }) parsed)
      made
