-- ===== src/Pad/Examples.antt =====
-- Messages for src/encodings/pad.c.
use Prim.Native.String.{String}
use reqrypt.Common.{
  length, replicate, length-replicate, ℕ, ◌+◌, ◌%◌, ◌≤◌, ◌≡◌, refl, true, false, Option, none, some,
  List, [], ◌∷◌, arith,
}
use reqrypt.Common.Outcome.{ok}
use reqrypt.Pad.{
  PadState, Param, success, pad_init, parse_options, add_option, make_state, pad_encode, pad_decode,
  pad_overhead,
}
use reqrypt.Pad.Init.{IsValid, pad_init-IsValid}
use reqrypt.Pad.RoundTrip.{decode_encode_fixed, decode_encode_random}

-- A generator that counts, and gives as many bytes as are asked for.
abbrev counter : ℕ → ℕ → ℕ × List ℕ
counter rng n = (rng + 1, replicate n (rng % 256))

counter-length : (rng n : ℕ) → length ((counter rng n).1) ≡ n
counter-length rng n = length-replicate n (rng % 256)

-- A parser that knows one parameter, a maximum of 40.
abbrev parse_max : String → Option Param
parse_max s = some (record { id = 1; bytes = 40 ∷ 0 ∷ 0 ∷ 0 ∷ 0 ∷ 0 ∷ 0 ∷ 0 ∷ [] })

abbrev random_state : PadState
random_state = record { fixed = false; min_size = 0; max_size = 40; size = 0; value = none }

-- The value is the letter x.
abbrev fixed_state : PadState
fixed_state = record {
  fixed = true;
  min_size = 0;
  max_size = 16;
  size = 1;
  value = some (120 ∷ []);
}

pad_init-IsValid_example : IsValid random_state
unfolding pad_init parse_options add_option make_state
pad_init-IsValid_example = pad_init-IsValid parse_max true ("max.40" ∷ []) random_state refl

decode_encode_fixed_example :
    (rng1 : ℕ) × (packet : List ℕ) × (pad_encode counter fixed_state 7 (1 ∷ 2 ∷ [])
      ≡ ok (rng1, packet))
    × (pad_decode fixed_state packet ≡ ok (success (1 ∷ 2 ∷ [])))
    × (length packet ≤ 2 + pad_overhead fixed_state)
decode_encode_fixed_example =
    decode_encode_fixed counter counter-length fixed_state 7 (1 ∷ 2 ∷ []) refl
      (omega arith, (omega arith, tt)) (omega arith)

random_state-IsValid : IsValid random_state
random_state-IsValid = record {
  ordered = omega arith;
  max_fits = omega arith;
  size_fits = omega arith;
  one_char = tt;
}

decode_encode_random_example :
    (rng1 : ℕ) × (packet : List ℕ) × (pad_encode counter random_state 7 (1 ∷ 2 ∷ [])
      ≡ ok (rng1, packet))
    × (pad_decode random_state packet ≡ ok (success (1 ∷ 2 ∷ [])))
    × (length packet ≤ 2 + pad_overhead random_state)
decode_encode_random_example =
    decode_encode_random counter counter-length random_state 7 (1 ∷ 2 ∷ []) refl
      random_state-IsValid (omega arith) tt (omega arith)
