-- ===== src/PacketDispatch/Stamp.antt =====
-- The three fields of the IP header that src/packet_dispatch.c writes into a fragment: the total
-- length, the fragment offset and the checksum.
use reqrypt.Common.{
  length, get_elem?, set, drop, length-set, get_elem?-set_self, get_elem?-set_ne, drop-set_lt,
  drop-set_ge, u16, htons, u16_at, put_u16, ℕ, ◌+◌, ◌/◌, ◌%◌, ◌^◌, ◌≤◌, ◌<◌, ◌≡◌, refl, ap, ◌∙◌,
  ◌≢◌, ◌⊎◌, some, List, arith,
}
use reqrypt.Common.Outcome.{ok}
use native.Mathlib.Nat.{add_assoc}
use reqrypt.Checksum.{ip_checksum}
use reqrypt.Checksum.Header.{IsHeader, ip_checksum-verifies, put_u16-IsBytes, length-put_u16}
use reqrypt.PacketDispatch.{set_tot_len, set_frag_off, write_check}

abbrev pub stamp : List ℕ → ℕ → ℕ → ℕ → List ℕ
stamp p len off check = put_u16 (set_frag_off (set_tot_len p len) off) 24 check

pub length-stamp : (p : List ℕ) (len off c : ℕ) → length (stamp p len off c) ≡ length p
length-stamp p len off c = length-put_u16 _ 24 c ∙ length-put_u16 _ 20 _ ∙ length-put_u16 p 16 _

drop-put_u16 : (n : ℕ) (p : List ℕ) (i v : ℕ) → i + 1 < n → drop n (put_u16 p i v) ≡ drop n p
drop-put_u16 n p i v h = drop-set_lt n _ (i + 1) _ h ∙ drop-set_lt n p i _ (omega arith)

-- What follows the checksum field is not touched.
pub drop-stamp :
    (n : ℕ) (p : List ℕ) (len off c : ℕ) → 26 ≤ n → drop n (stamp p len off c) ≡ drop n p
drop-stamp n p len off c h =
    drop-put_u16 n _ 24 c (omega arith)
    ∙ drop-put_u16 n _ 20 _ (omega arith)
    ∙ drop-put_u16 n p 16 _ (omega arith)

get_elem?-put_u16 :
    (p : List ℕ) (i v j : ℕ) → i ≢ j → i + 1 ≢ j → get_elem? (put_u16 p i v) j ≡ get_elem? p j
get_elem?-put_u16 p i v j h k = get_elem?-set_ne _ (i + 1) j _ k ∙ get_elem?-set_ne p i j _ h

-- The bytes of the fields that are written.
abbrev pub IsStamped : ℕ → Type 0
IsStamped j = (j ≡ 16) ⊎ (j ≡ 17) ⊎ (j ≡ 20) ⊎ (j ≡ 21) ⊎ (j ≡ 24) ⊎ (j ≡ 25)

pub get_elem?-stamp :
    (p : List ℕ) (len off c j : ℕ) → ¬ IsStamped j → get_elem? (stamp p len off c) j ≡ get_elem? p j
get_elem?-stamp p len off c j h =
    get_elem?-put_u16 _ 24 c j (λ e. h (ground arith)) (λ e. h (ground arith))
    ∙ get_elem?-put_u16 _ 20 _ j (λ e. h (ground arith)) (λ e. h (ground arith))
    ∙ get_elem?-put_u16 p 16 _ j (λ e. h (ground arith)) (λ e. h (ground arith))

u16_at-put_u16 :
    (p : List ℕ) (i v : ℕ) → i + 1 < length p → v < 2 ^ 16 → u16_at (put_u16 p i v) i ≡ some v
u16_at-put_u16 p i v h hv = ground (
  arith,
  get_elem?-set_ne (set p i (v % 256)) (i + 1) i (v / 256 % 256),
  get_elem?-set_self p i (v % 256),
  get_elem?-set_self (set p i (v % 256)) (i + 1) (v / 256 % 256),
  length-set p i (v % 256),
)

u16_at-put_u16_ne :
    (p : List ℕ) (i v j : ℕ)
    → i ≢ j
    → i + 1 ≢ j
    → i ≢ j + 1
    → i + 1 ≢ j + 1
    → u16_at (put_u16 p i v) j ≡ u16_at p j
u16_at-put_u16_ne p i v j a b c d =
    rw (get_elem?-put_u16 p i v j a b, get_elem?-put_u16 p i v (j + 1) c d) refl

-- The fields read back.
pub stamp_tot_len :
    (p : List ℕ) (len off c : ℕ)
    → 26 ≤ length p
    → u16_at (stamp p len off c) 16 ≡ some (htons (u16 len))
stamp_tot_len p len off c h =
    u16_at-put_u16_ne (set_frag_off (set_tot_len p len) off) 24 c 16 (omega arith) (omega arith)
      (omega arith) (omega arith)
    ∙ u16_at-put_u16_ne (set_tot_len p len) 20 (htons (u16 off)) 16 (omega arith) (omega arith)
        (omega arith) (omega arith)
    ∙ u16_at-put_u16 p 16 _ (omega arith) (omega arith)

pub stamp_frag_off :
    (p : List ℕ) (len off c : ℕ)
    → 26 ≤ length p
    → u16_at (stamp p len off c) 20 ≡ some (htons (u16 off))
stamp_frag_off p len off c h =
    u16_at-put_u16_ne (set_frag_off (set_tot_len p len) off) 24 c 20 (omega arith) (omega arith)
      (omega arith) (omega arith)
    ∙ u16_at-put_u16 (set_tot_len p len) 20 _ (rw length-put_u16 (omega arith)) (omega arith)

-- A field of the IP header, seen from the IP header.
drop-put_u16_at : (p : List ℕ) (i v : ℕ) → drop 14 (put_u16 p (14 + i) v) ≡ put_u16 (drop 14 p) i v
drop-put_u16_at p i v =
    rw (add_assoc 14 i 1) (drop-set_ge 14 (set p (14 + i) (v % 256)) (i + 1) (v / 256 % 256))
    ∙ ap (λ t. set t (i + 1) (v / 256 % 256)) (drop-set_ge 14 p i (v % 256))

-- `write_check` completes a header: what it stores makes the checksum of the header 0.
pub write_check_lem :
    (ihl : ℕ) (p : List ℕ)
    → IsHeader ihl (drop 14 p)
    → ihl < 16
    → (c : ℕ) × (write_check p ≡ ok (put_u16 p 24 c))
      × (ip_checksum (drop 14 (put_u16 p 24 c)) ≡ some 0)
unfolding write_check
write_check_lem ihl p h small =
    let (c, stored, below, zero_sum) = ip_checksum-verifies ihl (drop 14 p) h small in
    (c, rw (drop-put_u16_at p 10 0, stored) refl, rw (drop-put_u16_at p 10 c) zero_sum)

-- Fields behind the first byte leave a header a header.
IsHeader-put_u16 :
    (ihl : ℕ) (ip : List ℕ) (i v : ℕ) → i ≢ 0 → IsHeader ihl ip → IsHeader ihl (put_u16 ip i v)
IsHeader-put_u16 ihl ip i v ne h =
    let (b, read, low) = h.first in
    record {
      bytes = put_u16-IsBytes ip i v h.bytes;
      first = (b, get_elem?-put_u16 ip i v 0 ne (omega arith) ∙ read, low);
      long = h.long;
      fits = rw (length-put_u16 ip i v) h.fits;
    }

pub IsHeader-fields :
    (ihl : ℕ) (p : List ℕ) (len off : ℕ)
    → IsHeader ihl (drop 14 p)
    → IsHeader ihl (drop 14 (set_frag_off (set_tot_len p len) off))
IsHeader-fields ihl p len off h =
    rw
      (
        drop-put_u16_at (set_tot_len p len) 6 (htons (u16 off)),
        drop-put_u16_at p 2 (htons (u16 len)),
      )
      (IsHeader-put_u16 ihl _ 6 _ (omega arith) (IsHeader-put_u16 ihl _ 2 _ (omega arith) h))
