-- ===== src/PacketProtocol/Names.antt =====
-- The host names that the generators of src/packet_protocol.c write, by `http_url_generate`.
use reqrypt.Common.{
  ◌==◌, length, get_or, take, All, length-append, length-take, take_all, ℕ, zero, suc, ◌+◌, ◌-◌,
  ◌%◌, ◌≤◌, ◌<◌, ◌≡◌, refl, sym, ap, ◌∙◌, ◌≢◌, Bool, true, not, ◌&&◌, List, [], ◌∷◌, ◌++◌, arith,
}
use reqrypt.Random.{RandState, rand_init, rand_uint32}
use reqrypt.PacketProtocol.Writer.{Writer, put_text, ◌then_write◌, with_rand, random_text, if_room}
use reqrypt.PacketProtocol.Generate.{
  get_str, uri_str, end_uri_str, host_str, request_rest, one_request, requests, http_url_generate,
}

-- A whole header with at least one character of a name.
pub record HasName (bytes : List ℕ) : Type 0 where
  pub before : List ℕ
  pub first : ℕ
  pub behind : List ℕ
  pub parts : bytes ≡ before ++ (end_uri_str ++ (first ∷ behind))
  pub same_line : first ≢ 13

-- It stays one when something is written before or behind it.
append_assoc : (xs ys zs : List ℕ) → (xs ++ ys) ++ zs ≡ xs ++ (ys ++ zs)
append_assoc [] ys zs = refl
append_assoc (x ∷ xs) ys zs = ap (λ (l : List ℕ). x ∷ l) (append_assoc xs ys zs)

name_behind : (bytes more : List ℕ) → HasName bytes → HasName (bytes ++ more)
name_behind bytes more h = record {
  before = h.before;
  first = h.first;
  behind = h.behind ++ more;
  parts =
      ap (λ (l : List ℕ). l ++ more) h.parts
      ∙ append_assoc h.before (end_uri_str ++ (h.first ∷ h.behind)) more;
  same_line = h.same_line;
}

name_before : (more bytes : List ℕ) → HasName bytes → HasName (more ++ bytes)
name_before more bytes h = record {
  before = more ++ h.before;
  first = h.first;
  behind = h.behind;
  parts =
      ap (λ (l : List ℕ). more ++ l) h.parts
      ∙ sym (append_assoc more h.before (end_uri_str ++ (h.first ∷ h.behind)));
  same_line = h.same_line;
}

-- A writer that writes one when it has the room `need`.
record Names (need : ℕ) (writer : Writer) : Type 0 where
  names : (room : ℕ) (rng : RandState) → need ≤ room → HasName ((writer room rng).0)

then_write-Names :
    (need : ℕ) (first second : Writer) → Names need first → Names need (first then_write second)
unfolding ◌then_write◌
then_write-Names need first second h = record {
  names = λ room rng le. name_behind _ _ (h.names room rng le);
}

-- The elements of an alphabet, by a number taken modulo its size.
get_or-All {κ} :
    (P : ℕ → Type κ) (xs : List ℕ) (i d : ℕ) → All P xs → i < length xs → P (get_or xs i d)
get_or-All P [] i d h less = absurd (omega arith)
get_or-All P (x ∷ xs) zero d (hx, h) less = hx
get_or-All P (x ∷ xs) (suc i) d (hx, h) less = get_or-All P xs i d h (omega arith)

no_return : List ℕ → Bool
no_return [] = true
no_return (c ∷ cs) = not (c == 13) && no_return cs

no_return-All : (cs : List ℕ) → no_return cs ≡ true → All (λ (c : ℕ). c ≢ 13) cs
unfolding no_return
no_return-All [] h = tt
no_return-All (c ∷ cs) h = (ground arith, no_return-All cs (ground arith))

-- The first character of a name.
first_char :
    (n room : ℕ) (rng : RandState)
    → (c : ℕ) × (more : List ℕ) × ((random_text host_str (suc n) (suc room) rng).0 ≡ c ∷ more)
      × (c ≢ 13)
unfolding random_text no_return
first_char n room rng =
    let x : ℕ = (rand_uint32 rng).0 in
    let safe : All (λ (c : ℕ). c ≢ 13) host_str = no_return-All host_str refl in
    (_, _, refl, get_or-All (λ (c : ℕ). c ≢ 13) host_str (x % 38) 0 safe (omega arith))

-- The name's characters, behind the whole header.
name_of_parts :
    (u h : List ℕ) (room : ℕ)
    → 17 ≤ room
    → (c : ℕ) × (more : List ℕ) × (h ≡ c ∷ more) × (c ≢ 13)
    → HasName ((u ++ take room end_uri_str) ++ h)
name_of_parts u h room le (c, more, is_h, safe) = record {
  before = u;
  first = c;
  behind = more;
  parts = rw (is_h, take_all room end_uri_str le) (append_assoc u end_uri_str (c ∷ more));
  same_line = safe;
}

-- A writer of `n` bytes at most.
record AtMost (n : ℕ) (writer : Writer) : Type 0 where
  bound : (room : ℕ) (rng : RandState) → length ((writer room rng).0) ≤ n

char-AtMost : (x : ℕ → ℕ) → AtMost 1 (with_rand (λ r. put_text (x r ∷ [])))
unfolding with_rand put_text
char-AtMost x = record {
  bound = λ room rng. omega (arith, length-take room (x ((rand_uint32 rng).0) ∷ []));
}

then-AtMost :
    (n : ℕ) (first second : Writer)
    → AtMost 1 first
    → AtMost n second
    → AtMost (suc n) (first then_write second)
unfolding ◌then_write◌
then-AtMost n first second h k = record {
  bound = λ room rng.
      let (bytes, rng1) = first room rng in
      omega (
        arith,
        h.bound room rng,
        k.bound (room - length bytes) rng1,
        length-append bytes ((second (room - length bytes) rng1).0),
      );
}

within_bound :
    (n : ℕ) (writer : Writer)
    → AtMost n writer
    → (room : ℕ) (rng : RandState) → length ((if_room writer room rng).0) ≤ n
unfolding if_room
within_bound n writer h zero rng = omega arith
within_bound n writer h (suc room) rng = h.bound (suc room) rng

AtMost-room : (n : ℕ) (writer : Writer) → AtMost n writer → AtMost n (if_room writer)
unfolding if_room
AtMost-room n writer h = record { bound = within_bound n writer h }

random_text-AtMost : (alphabet : List ℕ) (n : ℕ) → AtMost n (random_text alphabet n)
unfolding random_text
random_text-AtMost alphabet zero = record { bound = λ room rng. omega arith }
random_text-AtMost alphabet (suc n) = AtMost-room (suc n) _ (
    then-AtMost n _ _ (char-AtMost (λ x. get_or alphabet (x % length alphabet) 0))
      (random_text-AtMost alphabet n))

name_at_room :
    (n room : ℕ) (rng : RandState)
    → 0 < n
    → 0 < room
    → (c : ℕ) × (more : List ℕ) × ((random_text host_str n room rng).0 ≡ c ∷ more) × (c ≢ 13)
name_at_room zero room rng h k = absurd (omega arith)
name_at_room (suc n) zero rng h k = absurd (omega arith)
name_at_room (suc n) (suc room) rng h k = first_char n room rng

name_core : Names 145 (
    with_rand (λ x. random_text uri_str (x % 128))
    then_write put_text end_uri_str
    then_write with_rand (λ x. random_text host_str (3 + x % 37)))
unfolding ◌then_write◌ with_rand put_text
name_core = record {
  names = λ room rng le.
      let (x, rng1) = rand_uint32 rng in
      let (u, rng2) = random_text uri_str (x % 128) room rng1 in
      let short = (random_text-AtMost uri_str (x % 128)).bound room rng1 in
      let p : List ℕ = take (room - length u) end_uri_str in
      let size = length-append u p in
      let size_p = length-take (room - length u) end_uri_str in
      let (y, rng3) = rand_uint32 rng2 in
      name_of_parts u _ (room - length u) (omega arith) (
        name_at_room (3 + y % 37) (room - length (u ++ p)) rng3 (omega arith)
          (omega (arith, size, size_p, short)));
}

request_rest-Names : Names 145 request_rest
unfolding request_rest
request_rest-Names = search (then_write-Names, name_core)

room_for_rest :
    (room : ℕ) (rng : RandState) → 145 ≤ room → HasName ((if_room request_rest room rng).0)
unfolding if_room
room_for_rest zero rng le = absurd (omega arith)
room_for_rest (suc room) rng le = request_rest-Names.names (suc room) rng le

one_request-Names : Names 150 (one_request 0)
unfolding one_request ◌then_write◌ put_text
one_request-Names = record {
  names = λ room rng le.
      let short = length-take room get_str in
      name_before (take room get_str) _
        (room_for_rest (room - length (take room get_str)) rng (omega arith));
}

first_request :
    (fuel room : ℕ) (rng : RandState) → 150 ≤ room → HasName ((requests (suc fuel) 0 room rng).0)
unfolding requests
first_request fuel zero rng le = absurd (omega arith)
first_request fuel (suc room) rng le = name_behind _ _ (one_request-Names.names (suc room) rng le)

-- The bytes that are generated name a host, when there is room for the first request.
pub generated_name :
    (data_len hash unset : ℕ) → 150 ≤ data_len → HasName (http_url_generate data_len hash unset)
unfolding http_url_generate
generated_name zero hash unset enough = absurd (omega arith)
generated_name (suc n) hash unset enough = first_request n (suc n) (rand_init hash unset) enough
