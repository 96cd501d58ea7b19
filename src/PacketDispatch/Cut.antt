-- ===== src/PacketDispatch/Cut.antt =====
-- Where `packet_dispatch` of src/packet_dispatch.c cuts a name, and its walk over the TCP
-- options.
use reqrypt.Common.{
  ltb, leb, ◌==◌, Bool-cases, length, get_elem?, get_or, u64, sub64, ℕ, zero, suc, ◌+◌, ◌-◌, ◌%◌,
  ◌^◌, ◌≤◌, ◌<◌, ◌≡◌, refl, ◌≢◌, ◌⊎◌, inl, inr, false, Option, none, some, List, arith,
}
use mathlib.Core.Path.{subst}
use reqrypt.Common.Outcome.{ok}
use reqrypt.Config.{split_partial}
use reqrypt.PacketDispatch.{split_hash}
use reqrypt.PacketDispatch.Dispatch.{replace_mss, split_length}
use reqrypt.PacketProtocol.{url_of_data}
use reqrypt.PacketProtocol.Url.{IsName, IsUrl, url_of_data-IsUrl}

-- The cut is behind the first byte of the name and not behind its line.
abbrev pub IsCut : ℕ → List ℕ → ℕ → ℕ → Type 0
IsCut beyond bytes start cut =
    (start < cut)
    × (cut ≤ length bytes)
    × ((m : ℕ) → start ≤ m → m < cut → get_or bytes m beyond ≢ 13)

remainder_lt : (r n : ℕ) → r % (n + 1) < n + 1
remainder_lt r n = omega arith

-- At most the range, or 1 where it is small.
length_bound :
    (start stop hash : ℕ)
    → start ≤ stop
    → stop < 2 ^ 64
    → (start < split_length split_partial start stop hash)
      × ((split_length split_partial start stop hash ≤ stop)
          ⊎ (split_length split_partial start stop hash ≡ start + 1))
unfolding split_length
length_bound start stop hash le small =
    let range : sub64 stop start ≡ stop - start = omega arith in
    let r : ℕ = split_hash hash in
    elim (Bool-cases (ltb (stop - start) 4)) [
      | inl few ↦
          rw (range, few)
            (omega arith, inr (let one : r % (0 + 1) ≡ 0 = omega arith in omega (arith, one)))
      | inr many ↦
          let wide : 4 ≤ stop - start = ground arith in
          rw (range, many) (omega arith, inl (omega (arith, remainder_lt r (stop - start - 3))))
    ]

IsCut-before :
    (beyond : ℕ) (bytes : List ℕ) (start stop last cut : ℕ)
    → IsName beyond bytes start stop last
    → start < length bytes
    → start < cut
    → (cut ≤ stop) ⊎ (cut ≡ start + 1)
    → IsCut beyond bytes start cut
IsCut-before beyond bytes start stop last cut name inside behind near =
    let within = name.inside in
    let stop_le : (stop ≤ last) × (start < last) = elim name.ended [
      | inl (line, is_stop, le) ↦ (omega arith, omega arith)
      | inr (whole, is_stop) ↦ (omega arith, omega arith)
    ] in
    let (le, less) = stop_le in
    let le_last : cut ≤ last = elim near [ inl h ↦ omega arith | inr h ↦ omega arith ] in
    (behind, omega arith, λ m low high. name.one_line m low (omega arith))

IsCut-of :
    (beyond : ℕ) (bytes : List ℕ) (start stop hash : ℕ)
    → length bytes < 2 ^ 64
    → IsUrl beyond bytes (some (start, stop))
    → start < length bytes
    → IsCut beyond bytes start (split_length split_partial start stop hash)
IsCut-of beyond bytes start stop hash small ((within, host, others), last, name) inside =
    let bounds : (start ≤ stop) × (stop < 2 ^ 64) = elim name.ended [
      | inl (line, is_stop, le) ↦ (le, omega (arith, name.inside))
      | inr (whole, is_stop) ↦ (omega (arith, name.forward), omega arith)
    ] in
    let (le, fits) = bounds in
    let (behind, near) = length_bound start stop hash le fits in
    IsCut-before beyond bytes start stop last _ name inside behind near

-- Where a request is to be cut inside its name and the name found is not behind the end of the data,
-- the cut that `packet_dispatch` makes, whatever the hash of the packet, is behind the first byte of
-- the name, inside the data, and on the line of the name.
pub split_length-IsCut :
    (beyond : ℕ) (bytes : List ℕ) (start stop hash : ℕ)
    → length bytes < 2 ^ 64
    → url_of_data beyond bytes ≡ some (start, stop)
    → start < length bytes
    → IsCut beyond bytes start (split_length split_partial start stop hash)
split_length-IsCut beyond bytes start stop hash small found inside =
    IsCut-of beyond bytes start stop hash small
      (subst (λ (o : Option (ℕ × ℕ)). IsUrl beyond bytes o) found
        (url_of_data-IsUrl beyond bytes small))
      inside

-- At a TCP option of a kind that is not handled (3 or more) and of length 0, the walk over the
-- options stays where it is for ever: no number of steps is enough.
pub replace_mss_endless :
    (fuel : ℕ) (packet : List ℕ) (opts size i kind : ℕ)
    → i < size
    → size < 2 ^ 63
    → get_elem? packet (opts + i) ≡ some kind
    → 3 ≤ kind
    → get_elem? packet (opts + i + 1) ≡ some 0
    → replace_mss fuel packet opts size i ≡ ok none
unfolding replace_mss
replace_mss_endless zero packet opts size i kind less small at high none_long = refl
replace_mss_endless (suc fuel) packet opts size i kind less small at high none_long =
    let more_bytes : leb size i ≡ false = ground arith in
    let not_end : (kind == 0) ≡ false = ground arith in
    let not_nop : (kind == 1) ≡ false = ground arith in
    let not_mss : (kind == 2) ≡ false = ground arith in
    let stays : u64 (u64 (i + sub64 0 1) + 1) ≡ i = omega arith in
    rw (more_bytes, at, not_end, not_nop, not_mss, none_long, stays)
      (replace_mss_endless fuel packet opts size i kind less small at high none_long)
