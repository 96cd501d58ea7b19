-- ===== src/Quota/Period.antt =====
-- The requests of one period, src/quota.c.
use reqrypt.Common.{
  ltb, if◌then◌else◌, get_elem?, set, replicate, All, get_elem?-replicate, sub64, ℕ, ◌+◌, ◌-◌, ◌%◌,
  ◌^◌, ◌≤◌, ◌<◌, ◌≡◌, refl, ◌∙◌, Bool, true, false, some, List, [], ◌∷◌, arith,
}
use reqrypt.Common.Outcome.{Outcome, ok, ◌>>=◌}
use reqrypt.Cookie.{CookieGen, generate_cookie16}
use reqrypt.Quota.Sharing.{quota_hash_shared}
use mathlib.Core.Path.{subst}
use reqrypt.Quota.{
  Quota, reset_state, count_request, sizeof_pointer, quota_init, quota_check, quota_hash,
  quota_count, quota_reset, quota_limit,
}
use reqrypt.Quota.Count.{
  IsConfigured, positive_range, remainder-lt, SamePeriod, same_self, Counted, count_request-Counted,
}

-- A request: the time of the call and what `random` would write.
pub record Request : Type 0 where
  pub now : ℕ
  pub r64 : ℕ
  pub salt : CookieGen
  pub ip : List ℕ

-- The requests of the list, one after the other: how many are accepted, and the state after them.
unfoldable pub serve : Quota → List Request → Outcome (ℕ × Quota)
serve q [] = ok (0, q)
serve q (r ∷ rs) = do
  (answer, q1) ← quota_check q r.now r.r64 r.salt r.ip
  (n, q2) ← serve q1 rs
  ok (if answer then n + 1 else n, q2)

-- The requests fall in the period, and the bound is above the limit at each of them.
abbrev pub InPeriod : Quota → ℕ → List Request → Type 0
InPeriod q bound rs = All (λ r. r.now ≤ q.resettime × quota_limit q r.now ≤ bound) rs

-- The requests are served, and at most so many are accepted.
abbrev pub ServedAtMost : ℕ → Quota → List Request → Type 0
ServedAtMost most q rs = (n : ℕ) × (q1 : Quota) × (serve q rs ≡ ok (n, q1)) × (n ≤ most)

unfoldable after_answer : List Request → Bool × Quota → Outcome (ℕ × Quota)
unfolding serve
after_answer rs (answer, q1) = do (n, q2) ← serve q1 rs; ok (if answer then n + 1 else n, q2)

abbrev AtMost : ℕ → ℕ → Outcome (ℕ × Quota) → Type 0
AtMost bound count o = (n : ℕ) × (q1 : Quota) × (o ≡ ok (n, q1)) × (n + count ≤ bound + 1)

after_answer-AtMost :
    (q : Quota) (h count bound : ℕ) (rs : List Request) (a : Bool × Quota)
    → Counted bound h count q a
    → count ≤ bound + 1
    → ((q1 : Quota) (c : ℕ)
        → SamePeriod q q1
        → get_elem? q1.counts h ≡ some c
        → c ≤ bound + 1
        → AtMost bound c (serve q1 rs))
    → get_elem? q.counts h ≡ some count
    → AtMost bound count (after_answer rs a)
unfolding after_answer
after_answer-AtMost q h count bound rs (true, q1) (same, e1, le) low ih e =
    let (n, q2, served, total) = ih q1 (count + 1) same e1 (omega arith) in
    (n + 1, q2, rw served, omega arith)
after_answer-AtMost q h count bound rs (false, q1) same low ih e =
    let (n, q2, served, total) = ih q count (same_self q) e low in (n, q2, rw (same, served), total)

InPeriod-SamePeriod :
    (q q1 : Quota) (bound : ℕ) (rs : List Request)
    → SamePeriod q q1
    → InPeriod q bound rs
    → InPeriod q1 bound rs
InPeriod-SamePeriod q q1 bound [] s h = tt
InPeriod-SamePeriod q q1 bound (r ∷ rs) s ((early, limit), h) =
    ((rw s.same_reset early, rw (s.same_limit r.now) limit), InPeriod-SamePeriod q q1 bound rs s h)

quota_hash-SamePeriod : (q q1 : Quota) → SamePeriod q q1 → quota_hash q1 [] ≡ quota_hash q []
unfolding quota_hash
quota_hash-SamePeriod q q1 s = rw (s.same_salt, s.same_size)

served_bounded :
    (q : Quota) (h count bound : ℕ) (rs : List Request)
    → quota_hash q [] ≡ ok h
    → get_elem? q.counts h ≡ some count
    → count ≤ bound + 1
    → bound < 2 ^ 16 - 1
    → InPeriod q bound rs
    → AtMost bound count (serve q rs)
unfolding serve quota_check quota_count after_answer
served_bounded q h count bound [] hash e low fits all = (0, q, refl, omega arith)
served_bounded q h count bound (r ∷ rs) hash e low fits ((early, limit), all) =
    let on_time : ltb q.resettime r.now ≡ false = ground arith in
    rw (on_time, quota_hash_shared q r.ip [], hash, e)
      (after_answer-AtMost q h count bound rs (count_request q r.now h count)
        (count_request-Counted q r.now h count bound e limit fits) low
        (λ q1 c same e1 low1.
          served_bounded q1 h c bound rs (quota_hash-SamePeriod q q1 same ∙ hash) e1 low1 fits
            (InPeriod-SamePeriod q q1 bound rs same all))
        e)

-- A reset succeeds: the counters are there and are all 0, and the configuration stays.
record IsFresh (q : Quota) : Type 0 where
  configured : IsConfigured q
  zeros : q.counts ≡ replicate q.countssize 0

quota_reset-IsFresh :
    (q : Quota) (now r64 : ℕ) (salt : CookieGen)
    → IsConfigured q
    → (q1 : Quota) × (quota_reset q now r64 salt ≡ ok q1) × IsFresh q1
unfolding quota_reset reset_state
quota_reset-IsFresh q now r64 salt c =
    let range : 0 < (q.timemax + 2 ^ 32 - q.timemin) % 2 ^ 32 =
      positive_range q.timemin q.timemax c.ordered c.max_fits in
    let (wait, e, _) = remainder-lt r64 ((q.timemax + 2 ^ 32 - q.timemin) % 2 ^ 32) range in
    (
      reset_state q now wait salt,
      rw e,
      record {
        configured = record {
          some_count = c.some_count;
          ordered = c.ordered;
          max_fits = c.max_fits;
        };
        zeros = refl;
      },
    )

quota_hash-bucket :
    (q : Quota) (ip : List ℕ)
    → IsFresh q
    → (h : ℕ) × (quota_hash q ip ≡ ok h) × (get_elem? q.counts h ≡ some 0)
unfolding quota_hash
quota_hash-bucket q ip f =
    let (h, e, lt) =
      remainder-lt (generate_cookie16 q.salt ip sizeof_pointer) q.countssize
        f.configured.some_count in
    (h, e, rw (f.zeros, get_elem?-replicate {A = ℕ} q.countssize h 0 lt))

-- Of the requests that fall in the period after a reset of a configured quota, from whatever
-- clients, at most `bound + 1` are accepted, and none of them faults, where `bound` is above the
-- limit at each of them and the counters, which have 16 bits, do not overflow at it.
pub period_bounded :
    (q q1 : Quota) (now r64 : ℕ) (salt : CookieGen) (bound : ℕ) (rs : List Request)
    → IsConfigured q
    → quota_reset q now r64 salt ≡ ok q1
    → bound < 2 ^ 16 - 1
    → InPeriod q1 bound rs
    → ServedAtMost (bound + 1) q1 rs
period_bounded q q1 now r64 salt bound rs c made fits all =
    let (q2, e, fresh2) = quota_reset-IsFresh q now r64 salt c in
    let same : q2 ≡ q1 = cc in
    let fresh : IsFresh q1 = subst IsFresh same fresh2 in
    let (h, hash, zero_count) = quota_hash-bucket q1 [] fresh in
    let (n, q3, served, total) =
      served_bounded q1 h 0 bound rs hash zero_count (omega arith) fits all in
    (n, q3, served, omega arith)

-- After `quota_init` with at least one counter and a range of times, the first request is accepted
-- when the clock has not run back since and stands at 1 or more.
pub quota_init_accepts :
    (mem : Quota) (now now1 timemin timemax numcounts rps r64 : ℕ) (salt : CookieGen) (ip : List ℕ)
    → 0 < numcounts
    → timemin < timemax
    → timemax < 2 ^ 32
    → 0 < now
    → now ≤ now1
    → now1 < 2 ^ 64
    → (q1 : Quota) × (quota_check
          (quota_init mem now timemin timemax numcounts rps)
          now1
          r64
          salt
          ip
        ≡ ok (true, q1))
unfolding quota_check quota_init quota_count count_request
quota_init_accepts mem now now1 timemin timemax numcounts rps r64 salt ip some_count ordered fits
      late mono small =
    let c : IsConfigured (quota_init mem now timemin timemax numcounts rps) = record {
      some_count = some_count;
      ordered = ordered;
      max_fits = fits;
    } in
    let (q1, e, fresh) =
      quota_reset-IsFresh (quota_init mem now timemin timemax numcounts rps) now1 r64 salt c in
    let (h, hash, zero_count) = quota_hash-bucket q1 ip fresh in
    let due : ltb (sub64 now 1) now1 ≡ true = ground arith in
    (record q1 { counts = set q1.counts h 1 }, rw (due, e, hash, zero_count))
