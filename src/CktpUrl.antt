-- ===== src/CktpUrl.antt =====
-- src/cktp_url.c: the parser of tunnel URLs, TRANSPORT://SERVER:PORT[?ENCODING[=OPTIONS]+...]. A string is
-- the list of its character codes without the 0 at its end, and a position in it the rest from there.
pub mod RoundTrip
pub mod Examples
use reqrypt.Common.{
  ltb, leb, ◌==◌, if◌then◌else◌, ==_iff, Bool-cases, Option-cases, ◌>>=◌, bind-ne-none,
  bind-eq-some, if-ne-none, length, get_elem?, get_or, set, take, drop, replicate, All,
  length-append, length-set, length-take, length-drop, length-replicate, get_elem?-set_self,
  get_elem?-set_ne, get_elem?-eq-get_or, take-append-drop, take-append, drop-append, drop-drop,
  get_elem?-ne-none, drop-set_lt, drop-set_ge, get_elem?-drop, get_elem?-take,
  get_elem?-append_left, drop-take, take_all, drop-append_of_eq, get_elem?-some,
  get_elem?-append_right, append-assoc_cons, get_elem?-inside, get_elem?-replicate, replicate-same,
  get_elem?-All, take-All, drop-All, append-All, take_add, u8, u16, u32, u64, sub64, IsByte,
  IsBytes, ntohs, htons, u8_at, u16_at, u32_at, bytes_at, put_u8, put_u16, get_elem?-IsByte,
  u16_at-lt, drop-IsBytes, take-IsBytes, append-IsBytes, all_bytes, all_bytes-IsBytes, bit_or-digit,
  bit_and-digit, bit_or_add, bit_or_none, bit_or_add_high, bit_and_63, bit_and_one, value, value-lt,
  value-append, value-zeros, pow-add, pow-mul, value_next_digit, value-split, same_high,
  value-injective, ℕ, zero, suc, ◌+◌, ◌-◌, ◌*◌, ◌/◌, ◌%◌, ◌^◌, ◌≤◌, ◌<◌, min, bit_and, bit_or,
  bit_xor, ◌≡◌, refl, sym, ap, ◌∙◌, ◌≢◌, ◌↔◌, ◌⊎◌, inl, inr, Bool, true, false, not, ◌&&◌, ◌||◌,
  Option, none, some, List, [], ◌∷◌, ◌++◌, map, arith,
}

abbrev pub max_transport_name : ℕ
max_transport_name = 16

abbrev pub max_port_digits : ℕ
max_port_digits = 20

abbrev pub cktp_max_url_length : ℕ
cktp_max_url_length = 1024

abbrev pub cktp_max_encodings : ℕ
cktp_max_encodings = 8

abbrev pub cktp_max_encoding_name : ℕ
cktp_max_encoding_name = 16

abbrev pub cktp_max_encoding_options : ℕ
cktp_max_encoding_options = 64

-- `isdigit` and `isalnum` of ASCII.
abbrev pub is_digit : ℕ → Bool
is_digit c = leb 48 c && leb c 57

abbrev pub is_alnum : ℕ → Bool
is_alnum c = is_digit c || ((leb 65 c && leb c 90) || (leb 97 c && leb c 122))

-- The characters of a server's name.
abbrev pub is_server_char : ℕ → Bool
is_server_char c = is_alnum c || (c == 46 || c == 45)

-- The loops over characters that pass a test, at most `limit` of them: those, and the rest.
unfoldable pub span : (ℕ → Bool) → ℕ → List ℕ → List ℕ × List ℕ
span test zero s = ([], s)
span test (suc limit) [] = ([], [])
span test (suc limit) (c ∷ s) =
    let (taken, rest) = span test limit s in if test c then (c ∷ taken, rest) else ([], c ∷ s)

-- `strcmp` of two names is 0.
unfoldable pub same_name : List ℕ → List ℕ → Bool
same_name [] [] = true
same_name [] (c ∷ t) = false
same_name (c ∷ s) [] = false
same_name (c ∷ s) (d ∷ t) = c == d && same_name s t

-- An entry of `trans_data`.
pub record Transport : Type 0 where
  pub name : List ℕ
  pub max_port : ℕ
  pub proto : ℕ

-- ip, ping, tcp, udp and udplite.
abbrev pub trans_data : List Transport
trans_data =
    record { name = 105 ∷ 112 ∷ []; max_port = 255; proto = 0 }
    ∷ record { name = 112 ∷ 105 ∷ 110 ∷ 103 ∷ []; max_port = 65535; proto = 3 }
    ∷ record { name = 116 ∷ 99 ∷ 112 ∷ []; max_port = 65535; proto = 4 }
    ∷ record { name = 117 ∷ 100 ∷ 112 ∷ []; max_port = 65535; proto = 1 }
    ∷ record { name = 117 ∷ 100 ∷ 112 ∷ 108 ∷ 105 ∷ 116 ∷ 101 ∷ []; max_port = 65535; proto = 2 }
    ∷ []

-- `bsearch` in the sorted table finds the entry of the name.
unfoldable pub find_transport : List ℕ → List Transport → Option Transport
unfolding same_name
find_transport key [] = none
find_transport key (t ∷ table) =
    let rest = find_transport key table in if same_name key t.name then some t else rest

-- `://`
unfoldable pub skip_separator : List ℕ → Option (List ℕ)
skip_separator (c ∷ d ∷ e ∷ s) = if c == 58 && (d == 47 && e == 47) then some s else none
skip_separator (c ∷ d ∷ []) = none
skip_separator (c ∷ []) = none
skip_separator [] = none

-- The entry of the transport, and the rest behind the separator.
unfoldable pub parse_transport : List ℕ → Option (Transport × List ℕ)
unfolding span skip_separator find_transport
parse_transport url = do
  let (key, rest) = span is_alnum max_transport_name url
  rest' ← skip_separator rest
  info ← find_transport key trans_data
  some (info, rest')

-- The value of decimal digits.
unfoldable pub decimal : ℕ → List ℕ → ℕ
decimal acc [] = acc
decimal acc (c ∷ ds) = decimal (acc * 10 + (c - 48)) ds

-- `strtoull` reads all the digits that follow, and stops at 2^64 - 1.
unfoldable pub strtoull : List ℕ → ℕ
unfolding span decimal
strtoull s = min (decimal 0 (span is_digit (length s) s).0) (2 ^ 64 - 1)

-- The port in network order, from an `unsigned`, and the rest.
unfoldable pub parse_port : ℕ → List ℕ → Option (ℕ × List ℕ)
unfolding span strtoull
parse_port max_port [] = none
parse_port max_port (c ∷ s) =
    let (digits, rest) = span is_digit max_port_digits s in
    let port0 = u32 (strtoull s) in
    if c == 58 && not (length digits == 0)
    then if ltb max_port port0 then none else some (htons (u16 port0), rest)
    else none

-- The parsed parts before the encodings; the port is in the byte order of the network.
pub record Target : Type 0 where
  pub transport : ℕ
  pub server : List ℕ
  pub port : ℕ

-- Everything up to the end of the port; a port is read when the transport has one.
unfoldable pub parse_target : List ℕ → Option (Target × List ℕ)
unfolding span parse_transport parse_port
parse_target url = do
  (info, rest) ← parse_transport url
  let (server, rest') = span is_server_char cktp_max_url_length rest
  (port, rest'') ← (if info.max_port == 0 then some (0, rest') else parse_port info.max_port rest')
  some (record { transport = info.proto; server = server; port = port }, rest'')

-- `enc_data`: crypt and pad.
abbrev pub enc_data : List (List ℕ)
enc_data = (99 ∷ 114 ∷ 121 ∷ 112 ∷ 116 ∷ []) ∷ (112 ∷ 97 ∷ 100 ∷ []) ∷ []

unfoldable pub find_encoding : List ℕ → List (List ℕ) → Option (List ℕ)
unfolding same_name
find_encoding key [] = none
find_encoding key (name ∷ table) =
    let rest = find_encoding key table in if same_name key name then some name else rest

-- The loop over the options: each comma is stored as a 0 and counted.
unfoldable pub split_options : ℕ → List ℕ → List ℕ × ℕ × List ℕ
split_options zero s = ([], 0, s)
split_options (suc limit) [] = ([], 0, [])
split_options (suc limit) (c ∷ s) =
    let (options, commas, rest) = split_options limit s in
    if c == 43
    then ([], 0, c ∷ s)
    else if c == 44
    then (0 ∷ options, commas + 1, rest)
    else (c ∷ options, commas, rest)

-- The options, their number, and the rest.
unfoldable pub parse_options : List ℕ → List ℕ × ℕ × List ℕ
unfolding split_options
parse_options [] = ([], 0, [])
parse_options (c ∷ s) =
    let (options, commas, rest) = split_options cktp_max_encoding_options s in
    if c == 61 then (options, commas + 1, rest) else ([], 0, c ∷ s)

-- The encodings, with the states that `init` makes of the name, the options and their number.
unfoldable pub parse_encodings :
    {S : Type 0} → (List ℕ → List ℕ → ℕ → Option S) → ℕ → List ℕ → Option (List (List ℕ × S))
unfolding span find_encoding parse_options
parse_encodings init zero [] = some []
parse_encodings init zero (c ∷ s) = none
parse_encodings init (suc left) s = do
  let (key, rest) = span is_alnum cktp_max_encoding_name s
  name ← (if length key == 0 then none else find_encoding key enc_data)
  let (options, count, rest') = parse_options rest
  state ← init name options count
  elim rest' [
    | [] ↦ some ((name, state) ∷ [])
    | c ∷ s' ↦
        (if c == 43
          then (parse_encodings init left s' >>= λ more. some ((name, state) ∷ more))
          else none)
  ]

-- The call with all results asked for.
unfoldable pub cktp_parse_url :
    {S : Type 0} → (List ℕ → List ℕ → ℕ → Option S) → List ℕ → Option (Target × List (List ℕ × S))
unfolding parse_target parse_encodings
cktp_parse_url init url = do
  (target, rest) ← parse_target url
  elim rest [
    | [] ↦ some (target, [])
    | c ∷ s ↦
        (if c == 63
          then (parse_encodings init cktp_max_encodings s >>= λ encodings. some (target, encodings))
          else none)
  ]
