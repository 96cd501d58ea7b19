-- ===== src/Random/Memory.antt =====
-- Draws of several bytes from the generators of src/random.c.
use reqrypt.Common.{
  leb, get_or, value, ℕ, zero, suc, ◌+◌, ◌^◌, ◌<◌, ◌≡◌, refl, sym, ap, ◌∙◌, false, ◌++◌, arith,
}
use reqrypt.Random.{
  RandomState, RandState, word_bytes, draw_bytes, random_byte, random_memory, rand_byte, drawn,
  rand_uint32, generate_rand,
}

draw_bytes_add {ℓ} :
    {S : Type ℓ} (draw : S → ℕ × S) (s : S) (n m : ℕ)
    → draw_bytes draw s (n + m) ≡ (
      (draw_bytes draw s n).0 ++ (draw_bytes draw ((draw_bytes draw s n).1) m).0,
      (draw_bytes draw ((draw_bytes draw s n).1) m).1,
    )
unfolding draw_bytes
draw_bytes_add draw s zero m = let none_first : 0 + m ≡ m = omega arith in rw none_first
draw_bytes_add draw s (suc n) m =
    let next : suc n + m ≡ suc (n + m) = omega arith in
    rw (next, draw_bytes_add draw ((draw s).1) n m)

-- A draw of `n + m` bytes is a draw of `n` bytes followed by one of `m` bytes, from any state.
pub random_memory_add :
    (s : RandomState) (n m : ℕ)
    → random_memory s (n + m) ≡ (
      (random_memory s n).0 ++ (random_memory ((random_memory s n).1) m).0,
      (random_memory ((random_memory s n).1) m).1,
    )
unfolding random_memory
random_memory_add s n m = draw_bytes_add random_byte s n m

-- While bytes of the word are left, the next of them.
rand_byte_next :
    (s : RandState) (i : ℕ)
    → s.e_idx ≡ i
    → i < 4
    → rand_byte s ≡ (get_or (word_bytes s.e) i 0, record s { e_idx = i + 1 })
unfolding rand_byte
rand_byte_next s i h k = let unused : leb 4 i ≡ false = ground arith in rw (h, unused)

rand_byte_first :
    (s : RandState)
    → s.e_idx ≡ 4
    → rand_byte s
      ≡ (get_or (word_bytes ((generate_rand s).e)) 0 0, record (generate_rand s) { e_idx = 1 })
unfolding rand_byte
rand_byte_first s h = rw h refl

-- The four bytes of a word, from its first one on.
draw_word :
    (s t : RandState)
    → rand_byte s ≡ (get_or (word_bytes t.e) 0 0, record t { e_idx = 1 })
    → draw_bytes rand_byte s 4 ≡ (word_bytes t.e, record t { e_idx = 4 })
unfolding draw_bytes word_bytes
draw_word s t first =
    let second = rand_byte_next (record t { e_idx = 1 }) 1 refl (omega arith) in
    let third = rand_byte_next (record t { e_idx = 2 }) 2 refl (omega arith) in
    let fourth = rand_byte_next (record t { e_idx = 3 }) 3 refl (omega arith) in
    rw (first, second, third, fourth) refl

value-word_bytes : (x : ℕ) → x < 2 ^ 32 → value 256 (word_bytes x) ≡ x
unfolding value word_bytes
value-word_bytes x h = omega arith

drawn-generate_rand :
    (s : RandState)
    → s.e_idx ≡ 4
    → (generate_rand s).e < 2 ^ 32
    → drawn (draw_bytes rand_byte s 4)
      ≡ ((generate_rand s).e, record (generate_rand s) { e_idx = 4 })
unfolding drawn
drawn-generate_rand s h small =
    rw
      (
        draw_word s (generate_rand s) (rand_byte_first s h),
        value-word_bytes ((generate_rand s).e) small,
      )
      refl

same_word : (s t : RandState) → s.e_idx ≡ 4 → generate_rand s ≡ t → t.e_idx ≡ 4
unfolding generate_rand
same_word s t h e = sym (ap (λ (u : RandState). u.e_idx) e) ∙ h

word_range : (s : RandState) → (generate_rand s).e < 2 ^ 32
unfolding generate_rand
word_range s = omega arith

-- A state is made of its fields.
whole_state : (t : RandState) → t.e_idx ≡ 4 → record t { e_idx = 4 } ≡ t
whole_state t h = ap (λ (n : ℕ). record t { e_idx = n }) (sym h)

-- At the end of a word, `rand_uint32` makes the next one and returns it whole.
pub rand_uint32-generate_rand :
    (s : RandState) → s.e_idx ≡ 4 → rand_uint32 s ≡ ((generate_rand s).e, generate_rand s)
unfolding rand_uint32
rand_uint32-generate_rand s h =
    drawn-generate_rand s h (word_range s)
    ∙ ap (λ (t : RandState). ((generate_rand s).e, t))
        (whole_state (generate_rand s) (same_word s (generate_rand s) h refl))
