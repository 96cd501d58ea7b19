-- ===== src/PacketProtocol/Writer.antt =====
-- Writing into the data of a packet: the loops of src/packet_protocol.c that fill `data` from the
-- position `i` on while `i < data_len`. A writer gets the room that is left and the generator of
-- random numbers, and returns the bytes that it writes and the next state.
use reqrypt.Common.{
  length, get_or, take, length-append, length-take, ℕ, zero, suc, ◌-◌, ◌%◌, ◌≤◌, ◌<◌, ◌≡◌, List, [],
  ◌∷◌, ◌++◌, arith,
}
use reqrypt.Random.{RandState, rand_uint32}

abbrev pub Writer : Type 0
Writer = ℕ → RandState → List ℕ × RandState

-- `for (; i < data_len && i < i0 + n; i++) data[i] = text[i - i0];`
unfoldable pub put_text : List ℕ → Writer
put_text text room rng = (take room text, rng)

-- One writer after the other.
infixl 6 ◌then_write◌
unfoldable pub ◌then_write◌ : Writer → Writer → Writer
(first then_write second) room rng =
    let (bytes, rng1) = first room rng in
    let (more, rng2) = second (room - length bytes) rng1 in (bytes ++ more, rng2)

-- A number is drawn first.
unfoldable pub with_rand : (ℕ → Writer) → Writer
unfolding rand_uint32
with_rand writer room rng = let (x, rng1) = rand_uint32 rng in writer x room rng1

unfoldable pub skip : Writer
skip room rng = ([], rng)

-- Nothing is written, and nothing drawn, when there is no room.
unfoldable pub if_room : Writer → Writer
unfolding skip
if_room writer zero = skip zero
if_room writer (suc room) = writer (suc room)

-- `n` characters, each picked from `alphabet` by a number drawn for it.
unfoldable pub random_text : List ℕ → ℕ → Writer
unfolding if_room skip ◌then_write◌ with_rand put_text
random_text alphabet zero = skip
random_text alphabet (suc n) = if_room (
    with_rand (λ x. put_text (get_or alphabet (x % length alphabet) 0 ∷ []))
    then_write random_text alphabet n)

-- A writer that stays in its room.
pub record IsWithin (writer : Writer) : Type 0 where
  pub within : (room : ℕ) (rng : RandState) → length ((writer room rng).0) ≤ room

pub put_text-IsWithin : (text : List ℕ) → IsWithin (put_text text)
unfolding put_text
put_text-IsWithin text = record { within = λ room rng. omega (arith, length-take room text) }

pub then_write-IsWithin :
    (first second : Writer) → IsWithin first → IsWithin second → IsWithin (first then_write second)
unfolding ◌then_write◌
then_write-IsWithin first second h k = record {
  within = λ room rng.
      let (bytes, rng1) = first room rng in
      let left = k.within (room - length bytes) rng1 in
      let total = length-append bytes ((second (room - length bytes) rng1).0) in
      omega (arith, h.within room rng, left, total);
}

pub with_rand-IsWithin :
    (writer : ℕ → Writer) → ((x : ℕ) → IsWithin (writer x)) → IsWithin (with_rand writer)
unfolding with_rand
with_rand-IsWithin writer h = record {
  within = λ room rng. (h ((rand_uint32 rng).0)).within room ((rand_uint32 rng).1);
}

pub skip-IsWithin : IsWithin skip
unfolding skip
skip-IsWithin = record { within = λ room rng. omega arith }

within_room :
    (writer : Writer)
    → IsWithin writer
    → (room : ℕ) (rng : RandState) → length ((if_room writer room rng).0) ≤ room
unfolding if_room
within_room writer h zero rng = skip-IsWithin.within zero rng
within_room writer h (suc room) rng = h.within (suc room) rng

pub if_room-IsWithin : (writer : Writer) → IsWithin writer → IsWithin (if_room writer)
if_room-IsWithin writer h = record { within = within_room writer h }

pub random_text-IsWithin : (alphabet : List ℕ) (n : ℕ) → IsWithin (random_text alphabet n)
unfolding random_text
random_text-IsWithin alphabet zero = skip-IsWithin
random_text-IsWithin alphabet (suc n) = if_room-IsWithin _ (
    then_write-IsWithin _ _
      (with_rand-IsWithin _ (λ x. put_text-IsWithin (get_or alphabet (x % length alphabet) 0 ∷ [])))
      (random_text-IsWithin alphabet n))

-- A writer that writes a byte at least where there is room for one.
pub record IsBusy (writer : Writer) : Type 0 where
  pub busy : (room : ℕ) (rng : RandState) → 0 < length ((writer (suc room) rng).0)

pub put_text-IsBusy : (c : ℕ) (text : List ℕ) → IsBusy (put_text (c ∷ text))
unfolding put_text
put_text-IsBusy c text = record { busy = λ room rng. omega arith }

pub then_write-IsBusy_left :
    (first second : Writer) → IsBusy first → IsBusy (first then_write second)
unfolding ◌then_write◌
then_write-IsBusy_left first second h = record {
  busy = λ room rng.
      let (bytes, rng1) = first (suc room) rng in
      let total = length-append bytes ((second (suc room - length bytes) rng1).0) in
      omega (arith, h.busy room rng, total);
}

some_or_second :
    (second : Writer) (bytes : List ℕ) (room : ℕ) (rng : RandState)
    → IsBusy second
    → 0 < length (bytes ++ (second (suc room - length bytes) rng).0)
some_or_second second [] room rng h =
    let all : suc room - 0 ≡ suc room = omega arith in rw all (h.busy room rng)
some_or_second second (b ∷ bytes) room rng h = omega arith

pub then_write-IsBusy_right :
    (first second : Writer) → IsBusy second → IsBusy (first then_write second)
unfolding ◌then_write◌
then_write-IsBusy_right first second h = record {
  busy = λ room rng.
      let (bytes, rng1) = first (suc room) rng in some_or_second second bytes room rng1 h;
}

pub if_room-IsBusy : (writer : Writer) → IsBusy writer → IsBusy (if_room writer)
unfolding if_room
if_room-IsBusy writer h = record { busy = h.busy }
