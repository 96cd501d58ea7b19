-- ===== src/CktpUrl/RoundTrip.antt =====
-- `cktp_parse_url` of src/cktp_url.c reads back a URL that is put together from its parts.
use mathlib.Core.Path.{subst}
use reqrypt.Common.{
  ltb, ◌==◌, length, get_elem?, All, u16, u32, htons, ℕ, zero, suc, ◌+◌, ◌-◌, ◌*◌, ◌/◌, ◌%◌, ◌^◌,
  ◌≤◌, ◌<◌, min, ◌≡◌, refl, Bool, true, false, Option, some, List, [], ◌∷◌, ◌++◌, arith,
}
use reqrypt.CktpUrl.{
  is_digit, is_alnum, is_server_char, span, same_name, Transport, trans_data, find_transport,
  skip_separator, parse_transport, decimal, strtoull, parse_port, parse_target, cktp_parse_url,
  max_transport_name, cktp_max_url_length, max_port_digits,
}

-- A loop over characters takes those that pass, up to one that does not.
span-append :
    (test : ℕ → Bool) (limit : ℕ) (s rest : List ℕ) (c : ℕ)
    → All (λ d. test d ≡ true) s
    → length s ≤ limit
    → test c ≡ false
    → span test limit (s ++ (c ∷ rest)) ≡ (s, c ∷ rest)
unfolding span
span-append test zero [] rest c h len stop = refl
span-append test zero (d ∷ s) rest c h len stop = absurd (omega arith)
span-append test (suc limit) [] rest c h len stop = rw stop refl
span-append test (suc limit) (d ∷ s) rest c (hd, h) len stop =
    rw (hd, span-append test limit s rest c h (omega arith) stop) refl

span_whole :
    (test : ℕ → Bool) (limit : ℕ) (s : List ℕ)
    → All (λ d. test d ≡ true) s
    → length s ≤ limit
    → span test limit s ≡ (s, [])
unfolding span
span_whole test zero [] h len = refl
span_whole test zero (d ∷ s) h len = absurd (omega arith)
span_whole test (suc limit) [] h len = refl
span_whole test (suc limit) (d ∷ s) (hd, h) len =
    rw (hd, span_whole test limit s h (omega arith)) refl

-- What the parser needs of an entry of the table.
record IsSupported (info : Transport) : Type 0 where
  letters : All (λ d. is_alnum d ≡ true) info.name
  fits : length info.name ≤ max_transport_name
  found : find_transport info.name trans_data ≡ some info
  with_port : (info.max_port == 0) ≡ false
  bounded : info.max_port ≤ 65535

-- What is shown of an entry holds for the entry that is read.
read_entry : (a info : Transport) → IsSupported a → some a ≡ some info → IsSupported info
read_entry a info h e = let equal : a ≡ info = cc in subst IsSupported equal h

supported : (i : ℕ) (info : Transport) → get_elem? trans_data i ≡ some info → IsSupported info
unfolding find_transport same_name
supported zero info e =
    read_entry (record { name = 105 ∷ 112 ∷ []; max_port = 255; proto = 0 }) info
      (record {
        letters = (refl, (refl, tt));
        fits = omega arith;
        found = refl;
        with_port = refl;
        bounded = omega arith;
      })
      e
supported (suc zero) info e =
    read_entry (record { name = 112 ∷ 105 ∷ 110 ∷ 103 ∷ []; max_port = 65535; proto = 3 }) info
      (record {
        letters = (refl, (refl, (refl, (refl, tt))));
        fits = omega arith;
        found = refl;
        with_port = refl;
        bounded = omega arith;
      })
      e
supported (suc (suc zero)) info e =
    read_entry (record { name = 116 ∷ 99 ∷ 112 ∷ []; max_port = 65535; proto = 4 }) info
      (record {
        letters = (refl, (refl, (refl, tt)));
        fits = omega arith;
        found = refl;
        with_port = refl;
        bounded = omega arith;
      })
      e
supported (suc (suc (suc zero))) info e =
    read_entry (record { name = 117 ∷ 100 ∷ 112 ∷ []; max_port = 65535; proto = 1 }) info
      (record {
        letters = (refl, (refl, (refl, tt)));
        fits = omega arith;
        found = refl;
        with_port = refl;
        bounded = omega arith;
      })
      e
supported (suc (suc (suc (suc zero)))) info e =
    read_entry
      (record { name = 117 ∷ 100 ∷ 112 ∷ 108 ∷ 105 ∷ 116 ∷ 101 ∷ []; max_port = 65535; proto = 2 })
      info
      (record {
        letters = (refl, (refl, (refl, (refl, (refl, (refl, (refl, tt)))))));
        fits = omega arith;
        found = refl;
        with_port = refl;
        bounded = omega arith;
      })
      e
supported (suc (suc (suc (suc (suc i))))) info e = absurd (cc)

-- A number of 16 bits with its high byte first.
abbrev pub swapped : ℕ → ℕ
swapped n = n / 256 + 256 * (n % 256)

port_step :
    (max_port : ℕ) (ds : List ℕ)
    → All (λ d. is_digit d ≡ true) ds
    → 0 < length ds
    → length ds ≤ max_port_digits
    → decimal 0 ds ≤ max_port
    → max_port ≤ 65535
    → parse_port max_port (58 ∷ ds) ≡ some (swapped (decimal 0 ds), [])
unfolding parse_port strtoull
port_step max_port ds h pos len fits bound =
    let all = span_whole is_digit (length ds) ds h (omega arith) in
    let all' = span_whole is_digit max_port_digits ds h len in
    let nonempty : (length ds == 0) ≡ false = ground arith in
    let inside : ltb max_port (decimal 0 ds) ≡ false = ground arith in
    let kept : u32 (min (decimal 0 ds) (2 ^ 64 - 1)) ≡ decimal 0 ds = omega arith in
    let order : htons (u16 (decimal 0 ds)) ≡ swapped (decimal 0 ds) = omega arith in
    rw (all, all', nonempty, kept, inside, order) refl

transport_step :
    (info : Transport) (rest : List ℕ)
    → IsSupported info
    → parse_transport (info.name ++ (58 ∷ 47 ∷ 47 ∷ rest)) ≡ some (info, rest)
unfolding parse_transport skip_separator
transport_step info rest h =
    let spanned =
      span-append is_alnum max_transport_name info.name (47 ∷ 47 ∷ rest) 58 h.letters h.fits refl in
    rw (spanned, h.found) refl

-- A URL that is put together from a supported transport, a server's name of at most 1024 letters, digits,
-- dots and dashes, and a port of at most 20 digits within the transport's range is parsed to just these
-- parts, the port with its high byte first, whatever the encodings' initialisation does.
pub cktp_parse_url-target :
    {S : Type 0} (init : List ℕ → List ℕ → ℕ → Option S) (i : ℕ) (info : Transport)
    (server digits : List ℕ)
    → get_elem? trans_data i ≡ some info
    → All (λ d. is_server_char d ≡ true) server
    → length server ≤ cktp_max_url_length
    → All (λ d. is_digit d ≡ true) digits
    → 0 < length digits
    → length digits ≤ max_port_digits
    → decimal 0 digits ≤ info.max_port
    → cktp_parse_url init (info.name ++ (58 ∷ 47 ∷ 47 ∷ (server ++ (58 ∷ digits))))
      ≡ some (
        record { transport = info.proto; server = server; port = swapped (decimal 0 digits) },
        [],
      )
unfolding cktp_parse_url parse_target
cktp_parse_url-target init i info server digits e hs ls hd pos ld fits =
    let h = supported i info e in
    let first = transport_step info (server ++ (58 ∷ digits)) h in
    let spanned = span-append is_server_char cktp_max_url_length server digits 58 hs ls refl in
    let ported = port_step info.max_port digits hd pos ld fits h.bounded in
    rw (first, spanned, h.with_port, ported) refl
