-- ===== src/Random/Examples.antt =====
-- Runs of the generators of src/random.c.
use reqrypt.Common.{ℕ, ◌+◌, ◌≡◌, refl, arith}
use reqrypt.Random.{Quad, RandomState, rand_init, rand_uint32, generate_rand, generate_random}
use reqrypt.Random.Carry.{IsSeeded, IsStep, start, next, reached-IsStep}
use reqrypt.Random.Block.{IsWords, generate_random-injective}

abbrev quad : ℕ → Quad
quad n = record { w0 = n; w1 = n + 1; w2 = n + 2; w3 = n + 3 }

abbrev state : RandomState
state = record { v = quad 4294967292; k = quad 20; r = quad 30; e = quad 0; e_idx = 14 }

first_rand : (rand_uint32 (rand_init 0 0)).0 ≡ 3051796911
unfolding rand_uint32 rand_init
first_rand = refl

quad-IsWords : IsWords (quad 4294967292)
quad-IsWords = record {
  small0 = omega arith;
  small1 = omega arith;
  small2 = omega arith;
  small3 = omega arith;
}

reached-IsStep_example :
    IsSeeded (generate_rand (rand_init 7 0))
    × IsStep 36969
        (generate_rand (rand_init 7 0)).z
        (generate_rand (generate_rand (rand_init 7 0))).z
    × IsStep 18000
        (generate_rand (rand_init 7 0)).w
        (generate_rand (generate_rand (rand_init 7 0))).w
reached-IsStep_example = reached-IsStep 7 0 (generate_rand (rand_init 7 0)) (next start)

generate_random-injective_example : state.v ≡ (record state { e_idx = 16 }).v
unfolding generate_random
generate_random-injective_example =
    generate_random-injective state (record state { e_idx = 16 }) quad-IsWords quad-IsWords refl
      refl refl
