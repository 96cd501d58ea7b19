-- ===== src/PacketProtocol/Labels.antt =====
-- The DNS queries that `dns_generate` of src/packet_protocol.c makes.
use reqrypt.Common.{
  ltb, leb, ◌==◌, length, get_or, replicate, All, length-append, sub64, ℕ, zero, suc, ◌-◌, ◌/◌, ◌%◌,
  ◌^◌, ◌≤◌, ◌<◌, ◌≡◌, refl, ap, ◌⊎◌, Bool, true, false, ◌&&◌, ◌||◌, List, [], ◌∷◌, ◌++◌, arith,
}
use reqrypt.Common.Outcome.{ok, fault}
use reqrypt.Random.{RandState, rand_init, rand_uint32}
use reqrypt.PacketProtocol.Generate.{
  label_str, label_length, label_bytes, labels, dns_header, dns_generate,
}

-- A small letter or a dash.
abbrev pub IsLabelChar : ℕ → Type 0
IsLabelChar c = ((97 ≤ c) × (c ≤ 122)) ⊎ (c ≡ 45)

-- Labels as RFC 1035 writes them: a length, here from 1 to 31, and that many characters. The length of
-- the last one may be 0, with nothing behind it.
pub data AreLabels : List ℕ → Type 0 where
  no_label : AreLabels []
  empty_label : AreLabels (0 ∷ [])
  label :
      (n : ℕ) (name rest : List ℕ)
      → 1 ≤ n
      → n ≤ 31
      → length name ≡ n
      → All IsLabelChar name
      → AreLabels rest
      → AreLabels (n ∷ name ++ rest)

are_label_chars : List ℕ → Bool
are_label_chars [] = true
are_label_chars (c ∷ cs) = ((leb 97 c && leb c 122) || c == 45) && are_label_chars cs

label_chars : (cs : List ℕ) → are_label_chars cs ≡ true → All IsLabelChar cs
unfolding are_label_chars
label_chars [] h = tt
label_chars (c ∷ cs) h = (ground arith, label_chars cs (ground arith))

get_or-IsLabelChar :
    (cs : List ℕ) (i : ℕ) → All IsLabelChar cs → i < length cs → IsLabelChar (get_or cs i 0)
get_or-IsLabelChar [] i h less = absurd (omega arith)
get_or-IsLabelChar (c ∷ cs) zero (hc, h) less = hc
get_or-IsLabelChar (c ∷ cs) (suc i) (hc, h) less = get_or-IsLabelChar cs i h (omega arith)

label_bytes_lem :
    (n : ℕ) (rng : RandState)
    → (length ((label_bytes n rng).0) ≡ n) × All IsLabelChar ((label_bytes n rng).0)
unfolding label_bytes are_label_chars
label_bytes_lem zero rng = (refl, tt)
label_bytes_lem (suc n) rng =
    let (x, rng1) = rand_uint32 rng in
    let (size, chars) = label_bytes_lem n rng1 in
    let here = get_or-IsLabelChar label_str (x % 27) (label_chars label_str refl) (omega arith) in
    (ap suc size, (here, chars))

label_length-bound :
    (x left : ℕ)
    → (label_length x (suc left) ≤ left)
      × (label_length x (suc left) ≤ 31)
      × (0 < left → 1 ≤ label_length x (suc left))
unfolding label_length
label_length-bound x left = (ground arith, ground arith, λ some_left. ground arith)

-- A label in front of the `left - n` bytes of the rest.
label_before :
    (left n : ℕ) (name rest : List ℕ)
    → n ≤ left
    → (0 < left → 1 ≤ n)
    → n ≤ 31
    → length name ≡ n
    → All IsLabelChar name
    → length rest ≡ left - n
    → AreLabels rest
    → AreLabels (n ∷ name ++ rest)
label_before zero zero [] [] room long short size chars rest_size labels = empty_label
label_before zero zero [] (c ∷ rest) room long short size chars rest_size labels =
    absurd (omega arith)
label_before zero zero (c ∷ name) rest room long short size chars rest_size labels =
    absurd (omega arith)
label_before zero (suc n) name rest room long short size chars rest_size labels =
    absurd (omega arith)
label_before (suc left) n name rest room long short size chars rest_size labels =
    label n name rest (long (omega arith)) short size chars labels

labels-AreLabels :
    (fuel left : ℕ) (rng : RandState)
    → left ≤ fuel
    → (length ((labels fuel left rng).0) ≡ left) × AreLabels ((labels fuel left rng).0)
unfolding labels
labels-AreLabels zero left rng h = (omega arith, no_label)
labels-AreLabels (suc fuel) zero rng h = (refl, no_label)
labels-AreLabels (suc fuel) (suc left) rng h =
    let (x, rng1) = rand_uint32 rng in
    let n : ℕ = label_length x (suc left) in
    let (room, short, long) = label_length-bound x left in
    let (size, chars) = label_bytes_lem n rng1 in
    let (name, rng2) = label_bytes n rng1 in
    let (rest_size, rest) = labels-AreLabels fuel (left - n) rng2 (omega arith) in
    let total = length-append name ((labels fuel (left - n) rng2).0) in
    (
      omega (arith, total, size, rest_size, room),
      label_before left n name _ room long short size chars rest_size rest,
    )

-- The header of a standard query with one question, and its end: the root label, and type and class 1.
abbrev pub query_header : ℕ → List ℕ
query_header id = id % 256 ∷ id / 256 % 256 ∷ 1 ∷ 0 ∷ 0 ∷ 1 ∷ replicate 6 0

abbrev pub question_end : List ℕ
question_end = 0 ∷ (0 ∷ 1 ∷ []) ++ (0 ∷ 1 ∷ [])

-- On at least 17 bytes of data the query fills the data exactly: the header of a standard query with one
-- question, labels of 1 to 31 small letters or dashes, of which the last may be empty, that fill all
-- but 5 of the other bytes, the root label, and type and class 1. The loops end, and nothing is
-- written behind the data.
pub dns_generate-AreLabels :
    (bytes : List ℕ) (hash unset : ℕ)
    → 17 ≤ length bytes
    → length bytes < 2 ^ 64
    → (id : ℕ) × (names : List ℕ) × (dns_generate bytes hash unset
        ≡ ok (query_header id ++ names ++ question_end))
      × AreLabels names
      × (length (query_header id ++ names ++ question_end) ≡ length bytes)
unfolding dns_generate dns_header
dns_generate-AreLabels bytes hash unset enough small =
    let (id, rng) = rand_uint32 (rand_init hash unset) in
    let size : ℕ = sub64 (sub64 (length bytes) 12) 5 in
    let (names_size, names) = labels-AreLabels size size rng (omega arith) in
    let written : List ℕ = (labels size size rng).0 in
    let header : ltb (length bytes) 12 ≡ false = ground arith in
    let fits : ltb (length bytes) size ≡ false = ground arith in
    (
      id,
      written,
      rw (header, fits) refl,
      names,
      omega (
        arith,
        length-append (query_header id) written,
        length-append (query_header id ++ written) question_end,
        names_size,
      ),
    )

-- From 12 bytes on, but with less than 17, the size of the labels wraps, and the loop writes
-- behind the data.
pub dns_generate-fault :
    (bytes : List ℕ) (hash unset : ℕ)
    → 12 ≤ length bytes
    → length bytes < 17
    → dns_generate bytes hash unset ≡ fault
unfolding dns_generate
dns_generate-fault bytes hash unset low high =
    let header : ltb (length bytes) 12 ≡ false = ground arith in
    let wraps : ltb (length bytes) (sub64 (sub64 (length bytes) 12) 5) ≡ true = ground arith in
    rw (header, wraps) refl
