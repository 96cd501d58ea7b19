-- ===== src/Pad/Fill.antt =====
-- The reads that the loop of `pad_fill` in src/encodings/pad.c makes out of its value.
use reqrypt.Common.{
  ◌==◌, if◌then◌else◌, length, get_elem?, length-append, ℕ, zero, suc, ◌+◌, ◌≤◌, ◌<◌, ◌≡◌, refl,
  ◌≢◌, Option, none, some, List, [], ◌∷◌, ◌++◌, arith,
}
use reqrypt.Common.Outcome.{Outcome, ok, panicked, fault, read, ◌>>=◌}
use reqrypt.Pad.{PadState, pad_fill, fill_value, fill_loop}

bind-fault {ℓ κ} :
    {A : Type ℓ} {B : Type κ} (m : Outcome A) (f : A → Outcome B)
    → m ≢ panicked
    → ((a : A) → m ≡ ok a → f a ≡ fault)
    → (m >>= f) ≡ fault
bind-fault (ok a) f h k = k a refl
bind-fault panicked f h k = absurd (h refl)
bind-fault fault f h k = refl

read-ne-panicked {ℓ} : {A : Type ℓ} (o : Option A) → read o ≢ panicked
read-ne-panicked none h = cc
read-ne-panicked (some a) h = cc

inside : (v : List ℕ) (i c : ℕ) → read (get_elem? v i) ≡ ok c → i + 1 ≤ length v
inside [] i c h = absurd (cc)
inside (x ∷ v) zero c h = omega arith
inside (x ∷ v) (suc i) c h = let ih = inside v i c h in omega arith

-- The string, with its NUL, ends inside the loop: the loop reads past it.
fill_loop-fault :
    (v : List ℕ) (n i j : ℕ) → i + 1 ≤ length v → length v ≤ i + n → fill_loop v n i j ≡ fault
unfolding fill_loop
fill_loop-fault v zero i j h k = absurd (omega arith)
fill_loop-fault v (suc n) i j h k = bind-fault (read (get_elem? v j)) _ (read-ne-panicked _) (λ c _.
    bind-fault (read (get_elem? v (i + 1))) _ (read-ne-panicked _) (λ next e. rw (
      fill_loop-fault v n (i + 1) (if next == 0 then 0 else j + 1) (inside v (i + 1) next e)
        (omega arith))))

module _ {Rng : Type 0} (random : Rng → ℕ → Rng × List ℕ) where
  -- A padding that is longer than the configured value makes `pad_fill` read outside the value:
  -- the end of the value is looked up at the position in the padding, not in the value.
  pub pad_fill_overrun :
      (s : PadState) (rng : Rng) (v : List ℕ) (pad_size : ℕ)
      → s.value ≡ some v
      → length v < pad_size
      → pad_fill random s rng pad_size ≡ fault
  unfolding pad_fill fill_value
  pad_fill_overrun s rng v pad_size has long =
      let longer : length (v ++ (0 ∷ [])) ≡ length v + 1 = length-append v _ in
      rw (has, fill_loop-fault (v ++ (0 ∷ [])) pad_size 0 0 (omega arith) (omega arith))
