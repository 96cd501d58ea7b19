-- ===== src/Random/Block.antt =====
-- The blocks that `generate_random` of src/random.c makes.
use reqrypt.Common.{
  bit_xor_cancel, ◌==◌, if◌then◌else◌, u32, ℕ, zero, suc, ◌+◌, ◌-◌, ◌/◌, ◌^◌, ◌<◌, bit_and, ◌≡◌,
  refl, sym, ap, ◌∙◌, arith,
}
use mathlib.Core.Path.{subst}
use reqrypt.Random.{
  Quad, RandomState, random_mix, random_round, random_loop, random_delta, random_rounds, next_value,
  xor_quad, generate_random,
}

pub record IsWords (q : Quad) : Type 0 where
  pub small0 : q.w0 < 2 ^ 32
  pub small1 : q.w1 < 2 ^ 32
  pub small2 : q.w2 < 2 ^ 32
  pub small3 : q.w3 < 2 ^ 32

cancel : (x y c d : ℕ) → x < 2 ^ 32 → y < 2 ^ 32 → c ≡ d → u32 (x + c) ≡ u32 (y + d) → x ≡ y
cancel x y c d hx hy same e = omega arith

quad_ext : (p q : Quad) → p.w0 ≡ q.w0 → p.w1 ≡ q.w1 → p.w2 ≡ q.w2 → p.w3 ≡ q.w3 → p ≡ q
quad_ext p q e0 e1 e2 e3 = λ i. record { w0 = e0 i; w1 = e1 i; w2 = e2 i; w3 = e3 i }

-- A round of any mixing function: each word is added a function of its neighbours.
module _ (mix : ℕ → ℕ → ℕ → ℕ) where
  mix_round : Quad → Quad
  mix_round v =
      let v0 = u32 (v.w0 + mix 0 v.w1 v.w3) in
      let v1 = u32 (v.w1 + mix 1 v.w2 v0) in
      let v2 = u32 (v.w2 + mix 2 v.w3 v1) in
      let v3 = u32 (v.w3 + mix 3 v0 v2) in record { w0 = v0; w1 = v1; w2 = v2; w3 = v3 }

  mix_round-injective : (p q : Quad) → IsWords p → IsWords q → mix_round p ≡ mix_round q → p ≡ q
  unfolding mix_round
  mix_round-injective p q hp hq e =
      let e0 : (mix_round p).w0 ≡ (mix_round q).w0 = ap (λ (r : Quad). r.w0) e in
      let e1 : (mix_round p).w1 ≡ (mix_round q).w1 = ap (λ (r : Quad). r.w1) e in
      let e2 : (mix_round p).w2 ≡ (mix_round q).w2 = ap (λ (r : Quad). r.w2) e in
      let e3 : (mix_round p).w3 ≡ (mix_round q).w3 = ap (λ (r : Quad). r.w3) e in
      let s3 : p.w3 ≡ q.w3 =
        cancel p.w3 q.w3 _ _ hp.small3 hq.small3 (λ i. mix 3 (e0 i) (e2 i)) e3 in
      let s2 : p.w2 ≡ q.w2 =
        cancel p.w2 q.w2 _ _ hp.small2 hq.small2 (λ i. mix 2 (s3 i) (e1 i)) e2 in
      let s1 : p.w1 ≡ q.w1 =
        cancel p.w1 q.w1 _ _ hp.small1 hq.small1 (λ i. mix 1 (s2 i) (e0 i)) e1 in
      let s0 : p.w0 ≡ q.w0 =
        cancel p.w0 q.w0 _ _ hp.small0 hq.small0 (λ i. mix 0 (s1 i) (s3 i)) e0 in
      quad_ext p q s0 s1 s2 s3

  mix_round-IsWords : (p : Quad) → IsWords (mix_round p)
  unfolding mix_round
  mix_round-IsWords p = record {
    small0 = omega arith;
    small1 = omega arith;
    small2 = omega arith;
    small3 = omega arith;
  }

random_round-mix :
    (k v : Quad) (sum : ℕ)
    → random_round k v sum ≡ mix_round (λ i y z. random_mix i y z sum k (bit_and (sum / 2 ^ 2) 3)) v
unfolding random_round mix_round
random_round-mix k v sum = refl

random_round-IsWords : (k v : Quad) (sum : ℕ) → IsWords (random_round k v sum)
random_round-IsWords k v sum =
    subst IsWords (sym (random_round-mix k v sum)) (mix_round-IsWords _ v)

random_round-injective :
    (k p q : Quad) (sum : ℕ)
    → IsWords p
    → IsWords q
    → random_round k p sum ≡ random_round k q sum
    → p ≡ q
random_round-injective k p q sum hp hq e =
    mix_round-injective _ p q hp hq (sym (random_round-mix k p sum) ∙ e ∙ random_round-mix k q sum)

random_loop-injective :
    (left : ℕ) (k p q : Quad) (sum : ℕ)
    → IsWords p
    → IsWords q
    → random_loop left k p sum ≡ random_loop left k q sum
    → p ≡ q
unfolding random_loop
random_loop-injective zero k p q sum hp hq e = e
random_loop-injective (suc left) k p q sum hp hq e =
    let n : ℕ = u32 (sum + random_delta) in
    random_round-injective k p q n hp hq (
      random_loop-injective left k (random_round k p n) (random_round k q n) n
        (random_round-IsWords k p n) (random_round-IsWords k q n) e)

xor_quad-injective : (p q r : Quad) → xor_quad p r ≡ xor_quad q r → p ≡ q
unfolding xor_quad
xor_quad-injective p q r e =
    quad_ext p q (bit_xor_cancel p.w0 q.w0 r.w0 (ap (λ (x : Quad). x.w0) e))
      (bit_xor_cancel p.w1 q.w1 r.w1 (ap (λ (x : Quad). x.w1) e))
      (bit_xor_cancel p.w2 q.w2 r.w2 (ap (λ (x : Quad). x.w2) e))
      (bit_xor_cancel p.w3 q.w3 r.w3 (ap (λ (x : Quad). x.w3) e))

next_value-IsWords : (v : Quad) → IsWords v → IsWords (next_value v)
unfolding next_value
next_value-IsWords v h = record {
  small0 = omega arith;
  small1 = ground (arith, h.small1);
  small2 = h.small2;
  small3 = h.small3;
}

high_word :
    (a b c d : ℕ)
    → c < 2 ^ 32
    → d < 2 ^ 32
    → a ≡ b
    → (if a == 0 then u32 (c + 2 ^ 32 - 1) else c) ≡ (if b == 0 then u32 (d + 2 ^ 32 - 1) else d)
    → c ≡ d
high_word a b c d hc hd same e = ground arith

next_value-injective : (p q : Quad) → IsWords p → IsWords q → next_value p ≡ next_value q → p ≡ q
unfolding next_value
next_value-injective p q hp hq e =
    let e0 : u32 (p.w0 + 1) ≡ u32 (q.w0 + 1) = ap (λ (x : Quad). x.w0) e in
    let e1 = ap (λ (x : Quad). x.w1) e in
    quad_ext p q (cancel p.w0 q.w0 1 1 hp.small0 hq.small0 refl e0)
      (high_word (u32 (p.w0 + 1)) (u32 (q.w0 + 1)) p.w1 q.w1 hp.small1 hq.small1 e0 e1)
      (ap (λ (x : Quad). x.w2) e) (ap (λ (x : Quad). x.w3) e)

random_block :
    (s : RandomState)
    → (generate_random s).e ≡ xor_quad (random_loop random_rounds s.k (next_value s.v) 0) s.r
unfolding generate_random
random_block s = refl

-- With the same key and seed, two counters never give the same block: the rounds, the step of the
-- counter and the exclusive or lose nothing.
pub generate_random-injective :
    (s t : RandomState)
    → IsWords s.v
    → IsWords t.v
    → s.k ≡ t.k
    → s.r ≡ t.r
    → (generate_random s).e ≡ (generate_random t).e
    → s.v ≡ t.v
generate_random-injective s t hs ht same_key same_seed e =
    let p : Quad = next_value s.v in
    let q : Quad = next_value t.v in
    let blocks : xor_quad (random_loop random_rounds s.k p 0) s.r
        ≡ xor_quad (random_loop random_rounds s.k q 0) s.r =
      sym (random_block s)
      ∙ e
      ∙ random_block t
      ∙ (λ i. xor_quad (random_loop random_rounds (sym same_key i) q 0) (sym same_seed i)) in
    let rounds = xor_quad-injective _ _ s.r blocks in
    next_value-injective s.v t.v hs ht (
      random_loop-injective random_rounds s.k p q 0 (next_value-IsWords s.v hs)
        (next_value-IsWords t.v ht) rounds)
