-- ===== src/PacketProtocol/Length.antt =====
-- How much the generators of src/packet_protocol.c write.
use reqrypt.Common.{
  length, get_or, drop, length-append, ℕ, zero, suc, ◌+◌, ◌-◌, ◌%◌, ◌≤◌, ◌≡◌, refl, Bool, [], ◌∷◌,
  arith,
}
use reqrypt.Random.{RandState, rand_init}
use reqrypt.PacketProtocol.Writer.{
  Writer, ◌then_write◌, put_text, skip, IsWithin, IsBusy, put_text-IsWithin, then_write-IsWithin,
  with_rand-IsWithin, skip-IsWithin, if_room-IsWithin, random_text-IsWithin, put_text-IsBusy,
  then_write-IsBusy_left, then_write-IsBusy_right, if_room-IsBusy,
}
use reqrypt.PacketProtocol.Generate.{
  end_uri_str, header_str, header_char, header_next, header_name, one_header, some_headers,
  request_rest, one_request, requests, http_url_generate,
}

ruleset within_laws =
    (then_write-IsWithin, put_text-IsWithin, with_rand-IsWithin, random_text-IsWithin)

header_name-IsWithin : (n : ℕ) (upper : Bool) → IsWithin (header_name n upper)
unfolding header_name
header_name-IsWithin zero upper = skip-IsWithin
header_name-IsWithin (suc n) upper =
    let char : ℕ → ℕ = λ x. get_or header_str (x % length header_str) 0 in
    if_room-IsWithin _ (
      with_rand-IsWithin _ (λ x.
        then_write-IsWithin _ _ (put_text-IsWithin (header_char upper (char x) ∷ []))
          (header_name-IsWithin n (header_next upper (char x)))))

one_header-IsWithin : IsWithin one_header
unfolding one_header
one_header-IsWithin = search (within_laws, header_name-IsWithin)

some_headers-IsWithin : (n : ℕ) → IsWithin (some_headers n)
unfolding some_headers
some_headers-IsWithin zero = skip-IsWithin
some_headers-IsWithin (suc n) =
    if_room-IsWithin _ (then_write-IsWithin _ _ one_header-IsWithin (some_headers-IsWithin n))

request_rest-IsWithin : IsWithin request_rest
unfolding request_rest
request_rest-IsWithin = search (within_laws, some_headers-IsWithin) depth 9

-- Behind the text of any length stands the name of the protocol.
ends_name-IsBusy : (first : Writer) → IsBusy (first then_write put_text end_uri_str)
ends_name-IsBusy first =
    then_write-IsBusy_right first (put_text end_uri_str) (put_text-IsBusy 32 (drop 1 end_uri_str))

request_rest-IsBusy : IsBusy request_rest
unfolding request_rest
request_rest-IsBusy = search (then_write-IsBusy_left, ends_name-IsBusy) depth 9

one_request-IsWithin : (i : ℕ) → IsWithin (one_request i)
unfolding one_request
one_request-IsWithin i =
    then_write-IsWithin _ _ (put_text-IsWithin _) (if_room-IsWithin _ request_rest-IsWithin)

one_request-IsBusy : (i : ℕ) → IsBusy (one_request i)
unfolding one_request
one_request-IsBusy i = then_write-IsBusy_right _ _ (if_room-IsBusy _ request_rest-IsBusy)

requests_fill :
    (fuel i room : ℕ) (rng : RandState) → room ≤ fuel → length ((requests fuel i room rng).0) ≡ room
unfolding requests skip
requests_fill zero i room rng h = omega arith
requests_fill (suc fuel) i zero rng h = refl
requests_fill (suc fuel) i (suc room) rng h =
    let (bytes, rng1) = one_request i (suc room) rng in
    let some_bytes = (one_request-IsBusy i).busy room rng in
    let within = (one_request-IsWithin i).within (suc room) rng in
    let rest = requests_fill fuel (i + length bytes) (suc room - length bytes) rng1 (omega arith) in
    omega (
      arith,
      length-append bytes ((requests fuel (i + length bytes) (suc room - length bytes) rng1).0),
      rest,
    )

-- As much fuel as there is data is enough for the outer loop: it fills the data exactly, whatever
-- numbers are drawn, and writes nothing behind it.
pub length-http_url_generate :
    (data_len hash unset : ℕ) → length (http_url_generate data_len hash unset) ≡ data_len
unfolding http_url_generate
length-http_url_generate data_len hash unset =
    requests_fill data_len 0 data_len (rand_init hash unset) (omega arith)
