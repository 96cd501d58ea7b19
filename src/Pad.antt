-- ===== src/Pad.antt =====
-- src/encodings/pad.c: the padding encoding. A message is the list of its bytes; the encoder's
-- caller leaves room in front of it. The library functions that the encoding gets through its
-- `lib` pointer are parameters: `random rng n` is the next state of the generator and the `n`
-- bytes it wrote, and `parse_param` the parser of one URL parameter.
pub mod Init
pub mod RoundTrip
pub mod Fill
pub mod Messages
pub mod Examples
use Prim.Native.String.{String}
use reqrypt.Common.{
  ltb, leb, ◌==◌, if◌then◌else◌, ==_iff, Bool-cases, Option-cases, bind-ne-none, bind-eq-some,
  if-ne-none, length, get_elem?, get_or, set, take, drop, replicate, All, length-append, length-set,
  length-take, length-drop, length-replicate, get_elem?-set_self, get_elem?-set_ne,
  get_elem?-eq-get_or, take-append-drop, take-append, drop-append, drop-drop, get_elem?-ne-none,
  drop-set_lt, drop-set_ge, get_elem?-drop, get_elem?-take, get_elem?-append_left, drop-take,
  take_all, drop-append_of_eq, get_elem?-some, get_elem?-append_right, append-assoc_cons, u8, u16,
  u32, u64, sub64, IsByte, IsBytes, ntohs, htons, u8_at, u16_at, u32_at, bytes_at, put_u8, put_u16,
  get_elem?-IsByte, u16_at-lt, drop-IsBytes, take-IsBytes, append-IsBytes, ℕ, zero, suc, ◌+◌, ◌-◌,
  ◌*◌, ◌/◌, ◌%◌, ◌^◌, ◌≤◌, ◌<◌, min, bit_and, bit_or, bit_xor, ◌≡◌, refl, sym, ap, ◌∙◌, ◌≢◌, ◌↔◌,
  ◌⊎◌, inl, inr, Bool, true, false, not, ◌&&◌, ◌||◌, Option, none, some, List, [], ◌∷◌, ◌++◌, map,
  arith,
}
use reqrypt.Common.Outcome.{Outcome, ok, panicked, fault, read, ◌>>=◌}

pub data PadError : Type 0 where
  bad_name : PadError
  bad_url_parameter : PadError
  repeated_url_parameter : PadError
  incompatible_url_parameters : PadError
  out_of_memory : PadError
  bad_length : PadError
  bad_pad : PadError

-- A result code: 0, or one of the errors.
pub data Result {ℓ} (A : Type ℓ) : Type ℓ where
  success : A → Result A
  failure : PadError → Result A

-- `struct pad_state_s` without its two library pointers; `value` is a string without its NUL.
pub record PadState : Type 0 where
  pub fixed : Bool
  pub min_size : ℕ
  pub max_size : ℕ
  pub size : ℕ
  pub value : Option (List ℕ)

-- `struct cktp_enc_val_s`: the parameter's number, and the bytes of the union of the integer and
-- the string.
pub record Param : Type 0 where
  pub id : ℕ
  pub bytes : List ℕ

-- The integer of the union: its first eight bytes.
abbrev pub uint_val : List ℕ → ℕ
uint_val bs =
    get_or bs 0 0
    + 2 ^ 8 * get_or bs 1 0
    + 2 ^ 16 * get_or bs 2 0
    + 2 ^ 24 * get_or bs 3 0
    + 2 ^ 32 * get_or bs 4 0
    + 2 ^ 40 * get_or bs 5 0
    + 2 ^ 48 * get_or bs 6 0
    + 2 ^ 56 * get_or bs 7 0

-- The string of the union: the bytes before the first NUL.
abbrev pub str_val : List ℕ → List ℕ
str_val [] = []
str_val (b ∷ bs) = let rest = str_val bs in if b == 0 then [] else b ∷ rest

-- The variables of the loop of `pad_init`; `none` is a parameter that was not seen.
pub record Options : Type 0 where
  pub seen_min : Option ℕ
  pub seen_max : Option ℕ
  pub seen_size : Option ℕ
  pub seen_value : Option (List ℕ)

abbrev pub no_options : Options
no_options = record { seen_min = none; seen_max = none; seen_size = none; seen_value = none }

-- A number is stored unless one was stored before.
abbrev pub store_once : Option ℕ → ℕ → Options → Result Options
store_once none n opts = success opts
store_once (some m) n opts = failure repeated_url_parameter

abbrev pub store_value : Option (List ℕ) → List ℕ → Options → Result Options
store_value (some v) value opts = failure repeated_url_parameter
store_value none value opts =
    if (length value == 0) || ltb 255 (length value)
    then failure bad_url_parameter
    else success (record opts { seen_value = some value })

-- The body of the loop after the parameter is parsed.
unfoldable pub add_option : Options → Param → Result Options
add_option opts p =
    if ltb 255 (uint_val p.bytes)
    then failure bad_url_parameter
    else if p.id == 0
    then store_once opts.seen_min (uint_val p.bytes)
        (record opts { seen_min = some (uint_val p.bytes) })
    else if p.id == 1
    then store_once opts.seen_max (uint_val p.bytes)
        (record opts { seen_max = some (uint_val p.bytes) })
    else if p.id == 2
    then store_once opts.seen_size (uint_val p.bytes)
        (record opts { seen_size = some (uint_val p.bytes) })
    else if p.id == 3
    then store_value opts.seen_value (str_val p.bytes) opts
    else failure bad_url_parameter

abbrev pub chain {ℓ κ} : {A : Type ℓ} {B : Type κ} → Result A → (A → Result B) → Result B
chain (success a) f = f a
chain (failure e) f = failure e

module _ (parse_param : String → Option Param) where
  abbrev pub parse_one : String → Result Param
  parse_one s = elim (parse_param s) [ none ↦ failure bad_url_parameter | some p ↦ success p ]

  -- The loop over the NUL-terminated options.
  unfoldable pub parse_options : Options → List String → Result Options
  unfolding add_option
  parse_options opts [] = success opts
  parse_options opts (s ∷ rest) =
      chain (parse_one s) (λ p. chain (add_option opts p) (λ o. parse_options o rest))

abbrev pub or_default : Option ℕ → ℕ → ℕ
or_default none d = d
or_default (some n) d = n

abbrev pub is_some {ℓ} : {A : Type ℓ} → Option A → Bool
is_some none = false
is_some (some a) = true

-- A value alone also sets the size.
abbrev pub value_size : Option ℕ → Option (List ℕ) → Option ℕ
value_size (some n) v = some n
value_size none none = none
value_size none (some v) = some (u8 (length v))

abbrev pub default_size : Options → Option ℕ
default_size opts =
    if is_some opts.seen_min || is_some opts.seen_max
    then opts.seen_size
    else value_size opts.seen_size opts.seen_value

-- The end of `pad_init`, when the allocation succeeds.
unfoldable pub make_state : Options → Result PadState
make_state opts =
    if is_some (default_size opts) && (is_some opts.seen_min || is_some opts.seen_max)
    then failure incompatible_url_parameters
    else if ltb (or_default opts.seen_max 16) (or_default opts.seen_min 0)
    then failure incompatible_url_parameters
    else success (record {
      fixed = is_some (default_size opts);
      min_size = or_default opts.seen_min 0;
      max_size = or_default opts.seen_max 16;
      size = or_default (default_size opts) 0;
      value = opts.seen_value;
    })

-- `pad_init` with the answer of `strcmp(protocol, "pad")`.
unfoldable pub pad_init : (String → Option Param) → Bool → List String → Result PadState
pad_init parse_param is_pad options =
    if is_pad
    then chain (parse_options parse_param no_options options) make_state
    else failure bad_name

unfoldable pub pad_overhead : PadState → ℕ
pad_overhead s = if s.fixed then s.size else s.max_size + 1

-- The loops of `pad_fill` and `pad_check` from the position `i`; `v` ends with its NUL.
unfoldable pub fill_loop : List ℕ → ℕ → ℕ → ℕ → Outcome (List ℕ)
fill_loop v zero i j = ok []
fill_loop v (suc n) i j = do
  c ← read (get_elem? v j)
  next ← read (get_elem? v (i + 1))
  rest ← fill_loop v n (i + 1) (if next == 0 then 0 else j + 1)
  ok (c ∷ rest)

-- A byte and a `char` are compared as integers, and a `char` from 128 on is negative.
abbrev pub char_eq : ℕ → ℕ → Bool
char_eq b c = ltb c 128 && (b == c)

unfoldable pub check_loop : List ℕ → List ℕ → ℕ → ℕ → ℕ → Outcome Bool
check_loop v pad zero i j = ok true
check_loop v pad (suc n) i j = do
  b ← read (get_elem? pad i)
  c ← read (get_elem? v j)
  if char_eq b c
      then (do
        next ← read (get_elem? v (i + 1))
        check_loop v pad n (i + 1) (if next == 0 then 0 else j + 1))
      else ok false

unfoldable pub check_value : Option (List ℕ) → List ℕ → ℕ → Outcome Bool
unfolding check_loop
check_value none pad pad_size = ok true
check_value (some v) pad pad_size = check_loop (v ++ (0 ∷ [])) pad pad_size 0 0

unfoldable pub pad_check : PadState → List ℕ → ℕ → Outcome Bool
unfolding check_value
pad_check s pad pad_size = check_value s.value pad pad_size

-- The length that the byte stands for. `min_size` is at most `max_size`.
abbrev pub random_size : PadState → ℕ → ℕ
random_size s byte = u8 (s.min_size + byte % (s.max_size - s.min_size + 1))

module _ {Rng : Type 0} (random : Rng → ℕ → Rng × List ℕ) where
  unfoldable pub fill_value : Option (List ℕ) → Rng → ℕ → Outcome (Rng × List ℕ)
  unfolding fill_loop
  fill_value none rng pad_size = ok (random rng pad_size)
  fill_value (some v) rng pad_size = do pad ← fill_loop (v ++ (0 ∷ [])) pad_size 0 0; ok (rng, pad)

  unfoldable pub pad_fill : PadState → Rng → ℕ → Outcome (Rng × List ℕ)
  unfolding fill_value
  pad_fill s rng pad_size = fill_value s.value rng pad_size

  unfoldable pub pad_encode : PadState → Rng → List ℕ → Outcome (Rng × List ℕ)
  unfolding pad_fill
  pad_encode s rng message =
      if s.fixed then (do (rng1, pad) ← pad_fill s rng s.size; ok (rng1, pad ++ message)) else (do
        byte ← read (get_elem? ((random rng 1).1) 0)
        (rng2, pad) ← pad_fill s ((random rng 1).0) (random_size s byte)
        ok (rng2, byte ∷ (pad ++ message)))

-- The end of `pad_decode`.
unfoldable pub strip : ℕ → List ℕ → Result (List ℕ)
strip pad_size message =
    if leb (length message) pad_size then failure bad_length else success (drop pad_size message)

unfoldable pub pad_decode : PadState → List ℕ → Outcome (Result (List ℕ))
unfolding pad_check check_loop strip
pad_decode s message =
    if s.fixed
    then (if ltb s.size (length message)
        then (do
          good ← pad_check s message s.size
          ok (if good then strip s.size message else failure bad_pad))
        else ok (strip s.size message))
    else (do byte ← read (get_elem? message 0); ok (strip (u8 (random_size s byte + 1)) message))

-- The server's decoder leaves the other arguments of its interface alone.
unfoldable pub pad_server_decode : PadState → List ℕ → Outcome (Result (List ℕ))
unfolding pad_decode
pad_server_decode s message = pad_decode s message

-- The message of a result code; `none` is a code that is not one of the errors.
unfoldable pub pad_error_string : Option PadError → String
pad_error_string (some bad_name) = "bad encoding name"
pad_error_string (some bad_url_parameter) = "bad URL parameter"
pad_error_string (some repeated_url_parameter) = "repeated URL parameter"
pad_error_string (some incompatible_url_parameters) = "incompatible URL parameters"
pad_error_string (some out_of_memory) = "out of memory"
pad_error_string (some bad_length) = "bad length"
pad_error_string (some bad_pad) = "bad pad"
pad_error_string none = "generic error"
