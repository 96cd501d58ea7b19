-- ===== src/Pad/Messages.antt =====
-- The messages of src/encodings/pad.c.
use text.Mathlib.Text.{◌==◌ as str_eq}
use Prim.Native.String.{String}
use reqrypt.Common.{if◌then◌else◌, ◌≡◌, refl, sym, ap, ◌∙◌, Option, none, some}
use reqrypt.Pad.{
  PadError, bad_name, bad_url_parameter, repeated_url_parameter, incompatible_url_parameters,
  out_of_memory, bad_length, bad_pad, pad_error_string,
}

-- The code that a message stands for.
abbrev code_of : String → Option PadError
code_of s =
    if str_eq s "bad encoding name"
    then some bad_name
    else if str_eq s "bad URL parameter"
    then some bad_url_parameter
    else if str_eq s "repeated URL parameter"
    then some repeated_url_parameter
    else if str_eq s "incompatible URL parameters"
    then some incompatible_url_parameters
    else if str_eq s "out of memory"
    then some out_of_memory
    else if str_eq s "bad length"
    then some bad_length
    else if str_eq s "bad pad"
    then some bad_pad
    else none

code_of-pad_error_string : (e : Option PadError) → code_of (pad_error_string e) ≡ e
unfolding pad_error_string
code_of-pad_error_string none = refl
code_of-pad_error_string (some bad_name) = refl
code_of-pad_error_string (some bad_url_parameter) = refl
code_of-pad_error_string (some repeated_url_parameter) = refl
code_of-pad_error_string (some incompatible_url_parameters) = refl
code_of-pad_error_string (some out_of_memory) = refl
code_of-pad_error_string (some bad_length) = refl
code_of-pad_error_string (some bad_pad) = refl

-- Two codes with the same message are the same, and no error has the generic message.
pub pad_error_string_injective :
    (e e' : Option PadError) → pad_error_string e ≡ pad_error_string e' → e ≡ e'
pad_error_string_injective e e' h =
    sym (code_of-pad_error_string e) ∙ ap code_of h ∙ code_of-pad_error_string e'
