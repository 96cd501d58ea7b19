-- ===== src/Quota/Count.antt =====
-- One request inside a period, src/quota.c: what it changes and what it leaves.
use reqrypt.Common.{
  leb, ◌==◌, Bool-cases, length, get_elem?, set, length-set, get_elem?-set_self, get_elem?-inside,
  u16, ℕ, zero, suc, ◌+◌, ◌-◌, ◌%◌, ◌^◌, ◌≤◌, ◌<◌, ◌≡◌, refl, ◌∙◌, inl, inr, Bool, true, false,
  some, arith,
}
use reqrypt.Common.Outcome.{ok}
use native.Mathlib.Nat.{mod-lt}
use reqrypt.Quota.{Quota, count_request, quota_limit, remainder}

-- The configured numbers: there is a counter, and the times are a range of 32 bits.
pub record IsConfigured (q : Quota) : Type 0 where
  pub some_count : 0 < q.countssize
  pub ordered : q.timemin < q.timemax
  pub max_fits : q.timemax < 2 ^ 32

-- The counters are there.
abbrev pub IsReady : Quota → Type 0
IsReady q = length q.counts ≡ q.countssize

pub positive_range : (a b : ℕ) → a < b → b < 2 ^ 32 → 0 < (b + 2 ^ 32 - a) % 2 ^ 32
positive_range a b h k = omega arith

pub remainder-lt : (a m : ℕ) → 0 < m → (r : ℕ) × (remainder a m ≡ ok r) × (r < m)
remainder-lt a zero h = absurd (omega arith)
remainder-lt a (suc m) h = (a % suc m, refl, mod-lt a (omega arith))

-- What the requests of a period leave alone.
pub record SamePeriod (q q1 : Quota) : Type 0 where
  pub same_salt : q1.salt ≡ q.salt
  pub same_size : q1.countssize ≡ q.countssize
  pub same_reset : q1.resettime ≡ q.resettime
  pub same_limit : (now : ℕ) → quota_limit q1 now ≡ quota_limit q now
  pub same_config : IsConfigured q → IsConfigured q1
  pub same_length : length q1.counts ≡ length q.counts

bump_same : (q : Quota) (h n : ℕ) → SamePeriod q (record q { counts = set q.counts h n })
unfolding quota_limit
bump_same q h n = record {
  same_salt = refl;
  same_size = refl;
  same_reset = refl;
  same_limit = λ now. refl;
  same_config =
      λ c. record { some_count = c.some_count; ordered = c.ordered; max_fits = c.max_fits };
  same_length = length-set q.counts h n;
}

pub same_self : (q : Quota) → SamePeriod q q
same_self q = record {
  same_salt = refl;
  same_size = refl;
  same_reset = refl;
  same_limit = λ now. refl;
  same_config = λ c. c;
  same_length = refl;
}

-- The two answers: accepted, with the count raised, or refused.
abbrev pub Counted : ℕ → ℕ → ℕ → Quota → Bool × Quota → Type 0
Counted bound h count q (true, q1) =
    SamePeriod q q1 × (get_elem? q1.counts h ≡ some (count + 1)) × (count ≤ bound)
Counted bound h count q (false, q1) = q1 ≡ q

pub count_request-Counted :
    (q : Quota) (now h count bound : ℕ)
    → get_elem? q.counts h ≡ some count
    → quota_limit q now ≤ bound
    → bound < 2 ^ 16 - 1
    → Counted bound h count q (count_request q now h count)
unfolding count_request
count_request-Counted q now h count bound e limit fits =
    let here : h < length q.counts = get_elem?-inside q.counts h count e in
    elim (Bool-cases (count == 0)) [
      | inl z ↦
          let zero_count : count ≡ 0 = ground arith in
          rw z (bump_same q h 1, get_elem?-set_self q.counts h 1 here ∙ rw zero_count, omega arith)
      | inr nz ↦ elim (Bool-cases (leb count (quota_limit q now))) [
        | inl within ↦
            let fit : u16 (count + 1) ≡ count + 1 = ground arith in
            rw (nz, within)
              (
                bump_same q h (u16 (count + 1)),
                get_elem?-set_self q.counts h (u16 (count + 1)) here ∙ rw fit,
                ground arith,
              )
        | inr over ↦ rw (nz, over) refl
      ]
    ]
