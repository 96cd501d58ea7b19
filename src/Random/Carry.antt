-- ===== src/Random/Carry.antt =====
-- The multiply-with-carry generator of src/random.c.
use reqrypt.Common.{u32, ℕ, ◌+◌, ◌-◌, ◌*◌, ◌/◌, ◌%◌, ◌^◌, ◌<◌, ◌≡◌, arith}
use reqrypt.Random.{RandState, rand_init, generate_rand}

-- No half of the state is zero, where the generator would stay.
pub record IsSeeded (s : RandState) : Type 0 where
  pub z_range : 0 < s.z × s.z < 2 ^ 32
  pub w_range : 0 < s.w × s.w < 2 ^ 32

pub rand_init-IsSeeded : (seed unset : ℕ) → IsSeeded (rand_init seed unset)
unfolding rand_init
rand_init-IsSeeded seed unset = record {
  z_range = (ground arith, ground arith);
  w_range = (ground arith, ground arith);
}

-- One step of a half without the remainder: `y` is the next value of `x`.
abbrev pub IsStep : ℕ → ℕ → ℕ → Type 0
IsStep a x y = (0 < y) × (y < 2 ^ 32) × (2 ^ 16 * y ≡ x + (a * 2 ^ 16 - 1) * (x % 2 ^ 16))

carry-IsStep_36969 :
    (x : ℕ) → 0 < x → x < 2 ^ 32 → IsStep 36969 x (u32 (u32 (36969 * (x % 2 ^ 16)) + x / 2 ^ 16))
carry-IsStep_36969 x px hx = (omega arith, omega arith, omega arith)

carry-IsStep_18000 :
    (x : ℕ) → 0 < x → x < 2 ^ 32 → IsStep 18000 x (u32 (u32 (18000 * (x % 2 ^ 16)) + x / 2 ^ 16))
carry-IsStep_18000 x px hx = (omega arith, omega arith, omega arith)

-- From a state with no half zero, neither half leaves its 32 bits, neither becomes zero, and each is
-- a step of a multiplicative generator: 2^16 times the new value is the old one modulo
-- 36969 * 2^16 - 1, or 18000 * 2^16 - 1.
pub generate_rand-IsStep :
    (s : RandState)
    → IsSeeded s
    → IsStep 36969 s.z ((generate_rand s).z) × IsStep 18000 s.w ((generate_rand s).w)
unfolding generate_rand
generate_rand-IsStep s h =
    let (zp, zr) = h.z_range in
    let (wp, wr) = h.w_range in (carry-IsStep_36969 s.z zp zr, carry-IsStep_18000 s.w wp wr)

-- The states that a generator passes through after `rand_init`.
pub data Reached (seed unset : ℕ) : RandState → Type 0 where
  start : Reached seed unset (rand_init seed unset)
  next : {s : RandState} → Reached seed unset s → Reached seed unset (generate_rand s)

reached-IsSeeded : (seed unset : ℕ) (s : RandState) → Reached seed unset s → IsSeeded s
reached-IsSeeded seed unset s start = rand_init-IsSeeded seed unset
reached-IsSeeded seed unset s (next r) =
    let ((zp, zr, ze), (wp, wr, we)) = generate_rand-IsStep _ (reached-IsSeeded seed unset _ r) in
    record { z_range = (zp, zr); w_range = (wp, wr) }

-- Whatever the seed, every state that the generator reaches has both halves between 1 and
-- 2^32 - 1, and the next state is a step of the two multiplicative generators: 2^16 times the new
-- half is the old one plus a multiple of 36969 * 2^16 - 1, or of 18000 * 2^16 - 1.
pub reached-IsStep :
    (seed unset : ℕ) (s : RandState)
    → Reached seed unset s
    → IsSeeded s × IsStep 36969 s.z ((generate_rand s).z) × IsStep 18000 s.w ((generate_rand s).w)
reached-IsStep seed unset s r =
    let seeded = reached-IsSeeded seed unset s r in
    let (z_step, w_step) = generate_rand-IsStep s seeded in (seeded, z_step, w_step)
