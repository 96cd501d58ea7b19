-- ===== src/CktpCommon/Crc.antt =====
-- The checksum of src/cktp_common.c against the division that defines the CRC.
use native.Mathlib.Nat.{mod-lt}
use reqrypt.Common.{
  ltb, if◌then◌else◌, Bool-cases, length, get_elem?, take, get_elem?-some, u8, u16, IsBytes,
  bit_xor-lt, ℕ, zero, suc, ◌+◌, ◌-◌, ◌*◌, ◌/◌, ◌%◌, ◌^◌, ◌≤◌, ◌<◌, bit_xor, ◌≡◌, refl, sym, ap,
  ◌∙◌, inl, inr, true, false, some, List, [], ◌∷◌, map, arith,
}
use reqrypt.Common.{
  bit_xor_comm, bit_xor_parts, bit_xor_zero, zero_bit_xor, bit_xor_double, bit_xor_swap,
}
use reqrypt.CktpCommon.{crc16_table, crc_loop, cktp_calculate_checksum}

-- A step of the division by x^16 + x^12 + x^5 + 1, and `n` steps.
abbrev pub crc_step : ℕ → ℕ
crc_step r = if ltb r 32768 then r * 2 else bit_xor (r * 2 - 65536) 0x1021

abbrev pub crc_bits : ℕ → ℕ → ℕ
crc_bits zero r = r
crc_bits (suc n) r = crc_bits n (crc_step r)

-- The division of a message, with the remainder `r` so far: each byte is added to the high half, and
-- taken through eight steps.
abbrev pub crc_divide : ℕ → List ℕ → ℕ
crc_divide r [] = r
crc_divide r (b ∷ bytes) = crc_divide (crc_bits 8 (bit_xor r (b * 256))) bytes

-- The numbers from `k` on, `n` of them.
abbrev count_up : ℕ → ℕ → List ℕ
count_up zero k = []
count_up (suc n) k = k ∷ count_up n (k + 1)

-- Eight steps of the division for a byte in the high half of the remainder.
abbrev crc_byte : ℕ → ℕ
crc_byte b = crc_bits 8 (b * 256)

crc16_table-eq : crc16_table ≡ map crc_byte (count_up 256 0)
crc16_table-eq = refl

get_elem?-count_up :
    (f : ℕ → ℕ) (n k i : ℕ) → i < n → get_elem? (map f (count_up n k)) i ≡ some (f (k + i))
get_elem?-count_up f zero k i h = absurd (omega arith)
get_elem?-count_up f (suc n) k zero h = let same : k + 0 ≡ k = omega arith in rw same refl
get_elem?-count_up f (suc n) k (suc i) h =
    let next : k + 1 + i ≡ k + suc i = omega arith in
    get_elem?-count_up f n (k + 1) i (omega arith) ∙ ap (λ (m : ℕ). some (f m)) next

-- Every entry of the table is what eight steps of the division leave of its index.
table_entry : (i : ℕ) → i < 256 → get_elem? crc16_table i ≡ some (crc_byte i)
table_entry i h =
    let same : 0 + i ≡ i = omega arith in
    ap (λ (t : List ℕ). get_elem? t i) crc16_table-eq
    ∙ (get_elem?-count_up crc_byte 256 0 i h ∙ ap (λ (n : ℕ). some (crc_byte n)) same)

crc_step-lt : (r : ℕ) → r < 65536 → crc_step r < 65536
crc_step-lt r h = elim (Bool-cases (ltb r 32768)) [
  | inl e ↦ rw e (ground arith)
  | inr e ↦ rw e (bit_xor-lt 16 (r * 2 - 65536) 0x1021 (omega arith) (omega arith))
]

crc_bits-lt : (n r : ℕ) → r < 65536 → crc_bits n r < 65536
crc_bits-lt zero r h = h
crc_bits-lt (suc n) r h = crc_bits-lt n (crc_step r) (crc_step-lt r h)

-- A step is linear where the second number has no highest bit.
high_part :
    (h m : ℕ) → 32768 ≤ h → h < 65536 → m < 32768 → bit_xor h m ≡ 32768 + bit_xor (h - 32768) m
high_part h m low high small =
    let split : 2 ^ 15 * 1 + (h - 32768) ≡ h = omega arith in
    let none : 2 ^ 15 * 0 + m ≡ m = omega arith in
    rw (split, none) at (bit_xor_parts 15 1 0 (h - 32768) m (omega arith) small)

crc_step-bit_xor :
    (h m : ℕ) → h < 65536 → m < 32768 → crc_step (bit_xor h m) ≡ bit_xor (crc_step h) (m * 2)
crc_step-bit_xor h m high small = elim (Bool-cases (ltb h 32768)) [
  | inl e ↦
      let below = bit_xor-lt 15 h m (ground arith) small in
      let e' : ltb (bit_xor h m) 32768 ≡ true = ground arith in
      rw (e, e') (sym (bit_xor_double h m))
  | inr e ↦
      let parts = high_part h m (ground arith) high small in
      let e' : ltb (bit_xor h m) 32768 ≡ false = ground arith in
      let rest : bit_xor h m * 2 - 65536 ≡ bit_xor (h - 32768) m * 2 = omega arith in
      let top : h * 2 - 65536 ≡ (h - 32768) * 2 = ground arith in
      rw (e, e', rest, top, sym (bit_xor_double (h - 32768) m))
        (bit_xor_swap ((h - 32768) * 2) (m * 2) 0x1021)
]

two_steps :
    (h m : ℕ) → h < 65536 → m < 16384 → crc_bits 2 (bit_xor h m) ≡ bit_xor (crc_bits 2 h) (m * 4)
two_steps h m high small =
    let four : m * 2 * 2 ≡ m * 4 = omega arith in
    ap crc_step (crc_step-bit_xor h m high (omega arith))
    ∙ (crc_step-bit_xor (crc_step h) (m * 2) (crc_step-lt h high) (omega arith)
        ∙ ap (bit_xor (crc_bits 2 h)) four)

eight_steps :
    (h m : ℕ) → h < 65536 → m < 256 → crc_bits 8 (bit_xor h m) ≡ bit_xor (crc_bits 8 h) (m * 256)
eight_steps h m high small =
    let s2 = two_steps h m high (omega arith) in
    let s4 = two_steps (crc_bits 2 h) (m * 4) (crc_bits-lt 2 h high) (omega arith) in
    let s6 = two_steps (crc_bits 4 h) (m * 4 * 4) (crc_bits-lt 4 h high) (omega arith) in
    let s8 = two_steps (crc_bits 6 h) (m * 4 * 4 * 4) (crc_bits-lt 6 h high) (omega arith) in
    let power : m * 4 * 4 * 4 * 4 ≡ m * 256 = omega arith in
    ap (crc_bits 6) s2
    ∙ (ap (crc_bits 4) s4 ∙ (ap (crc_bits 2) s6 ∙ (s8 ∙ ap (bit_xor (crc_bits 8 h)) power)))

-- A byte in front of the division: the table's entry replaces the eight steps.
byte_step :
    (r b : ℕ)
    → r < 65536
    → b < 256
    → u16 (bit_xor (crc_byte (bit_xor b (r / 2 ^ 8))) (r * 2 ^ 8))
      ≡ crc_bits 8 (bit_xor r (b * 256))
byte_step r b high byte =
    let i : ℕ = bit_xor b (r / 2 ^ 8) in
    let l : ℕ = r % 256 in
    let small = bit_xor-lt 8 b (r / 2 ^ 8) byte (omega arith) in
    let below = crc_bits-lt 8 (i * 256) (omega arith) in
    let added : bit_xor r (b * 256) ≡ bit_xor (i * 256) l = split_byte r b in
    let kept : u16 (bit_xor (crc_byte i) (r * 2 ^ 8)) ≡ bit_xor (crc_byte i) (l * 256) =
      low_half (crc_byte i) r below in
    kept ∙ (sym (eight_steps (i * 256) l (omega arith) (omega arith)) ∙ ap (crc_bits 8) (sym added))
  where
    split_byte : (r b : ℕ) → bit_xor r (b * 256) ≡ bit_xor (bit_xor b (r / 2 ^ 8) * 256) (r % 256)
    split_byte r b =
        let whole : 2 ^ 8 * (r / 2 ^ 8) + r % 256 ≡ r = omega arith in
        let shifted : 2 ^ 8 * b + 0 ≡ b * 256 = omega arith in
        let i : ℕ = bit_xor b (r / 2 ^ 8) in
        let here : 2 ^ 8 * i + 0 ≡ i * 256 = omega arith in
        let low : 2 ^ 8 * 0 + r % 256 ≡ r % 256 = omega arith in
        let one = bit_xor_parts 8 (r / 2 ^ 8) b (r % 256) 0 (omega arith) (omega arith) in
        let two = bit_xor_parts 8 i 0 0 (r % 256) (omega arith) (omega arith) in
        rw (whole, shifted, bit_xor_zero (r % 256), bit_xor_comm (r / 2 ^ 8) b) at one
        ∙ sym (rw (here, low, bit_xor_zero i, zero_bit_xor (r % 256)) at two)

    low_half : (e r : ℕ) → e < 65536 → u16 (bit_xor e (r * 2 ^ 8)) ≡ bit_xor e (r % 256 * 256)
    low_half e r h =
        let whole : 2 ^ 16 * (r / 256) + r % 256 * 256 ≡ r * 2 ^ 8 = omega arith in
        let alone : 2 ^ 16 * 0 + e ≡ e = omega arith in
        let parts = bit_xor_parts 16 0 (r / 256) e (r % 256 * 256) h (omega arith) in
        let sum = rw (whole, alone) at parts in
        let less = bit_xor-lt 16 e (r % 256 * 256) h (omega arith) in omega (arith, sum, less)

crc_loop-crc_divide :
    (n r : ℕ) (bytes : List ℕ)
    → IsBytes bytes
    → n ≤ length bytes
    → r < 65536
    → crc_loop n r bytes ≡ some (crc_divide r (take n bytes))
unfolding crc_loop
crc_loop-crc_divide zero r bytes h len high = refl
crc_loop-crc_divide (suc n) r [] h len high = absurd (omega arith)
crc_loop-crc_divide (suc n) r (b ∷ bytes) (hb, h) len high =
    let small = bit_xor-lt 8 b (r / 2 ^ 8) hb (omega arith) in
    let index : u8 (bit_xor b (r / 2 ^ 8)) ≡ bit_xor b (r / 2 ^ 8) = omega arith in
    let next = byte_step r b high hb in
    let low : u16 (bit_xor (crc_byte (bit_xor b (r / 2 ^ 8))) (r * 2 ^ 8)) < 65536 = omega arith in
    rw (index, table_entry (bit_xor b (r / 2 ^ 8)) small, next)
      (crc_loop-crc_divide n _ bytes h (omega arith) (rw next at low))

-- The checksum of at most as many bytes as there are is the remainder of their division by the CRC
-- polynomial 0x1021, bit by bit from the highest one on.
pub cktp_calculate_checksum-crc_divide :
    (bytes : List ℕ) (len : ℕ)
    → IsBytes bytes
    → len ≤ length bytes
    → cktp_calculate_checksum bytes len ≡ some (crc_divide 0 (take len bytes))
unfolding cktp_calculate_checksum
cktp_calculate_checksum-crc_divide bytes len h fits =
    crc_loop-crc_divide len 0 bytes h fits (omega arith)

crc_loop-some :
    (n r : ℕ) (bytes : List ℕ)
    → n ≤ length bytes
    → r < 2 ^ 16
    → (c : ℕ) × (crc_loop n r bytes ≡ some c) × (c < 2 ^ 16)
unfolding crc_loop
crc_loop-some zero r bytes h low = (r, refl, low)
crc_loop-some (suc n) r [] h low = absurd (omega arith)
crc_loop-some (suc n) r (b ∷ bytes) h low =
    let (entry, found) =
      get_elem?-some crc16_table (u8 (bit_xor b (r / 2 ^ 8)))
        (mod-lt (bit_xor b (r / 2 ^ 8)) (omega arith)) in
    let (c, e, small) =
      crc_loop-some n (u16 (bit_xor entry (r * 2 ^ 8))) bytes (omega arith)
        (mod-lt (bit_xor entry (r * 2 ^ 8)) (omega arith)) in
    (c, rw found e, small)

-- The checksum of at most as many bytes as there are reads neither past them nor past the table, and
-- is a number of 16 bits.
pub cktp_calculate_checksum-some :
    (bytes : List ℕ) (len : ℕ)
    → len ≤ length bytes
    → (c : ℕ) × (cktp_calculate_checksum bytes len ≡ some c) × (c < 2 ^ 16)
unfolding cktp_calculate_checksum
cktp_calculate_checksum-some bytes len h = crc_loop-some len 0 bytes h (omega arith)
