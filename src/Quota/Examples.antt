-- ===== src/Quota/Examples.antt =====
-- Requests for src/quota.c.
use reqrypt.Common.{ℕ, refl, [], ◌∷◌, arith}
use reqrypt.Cookie.{CookieGen}
use reqrypt.Quota.{Quota, quota_reset, quota_limit, reset_state}
use reqrypt.Quota.Period.{Request, ServedAtMost, period_bounded}

abbrev words : CookieGen
words = record { v = 1 ∷ 2 ∷ 3 ∷ 4 ∷ []; k = 5 ∷ 6 ∷ 7 ∷ 8 ∷ []; r = 9 ∷ 10 ∷ 11 ∷ 12 ∷ [] }

abbrev garbage : Quota
garbage = record {
  salt = words;
  rps = 0;
  timemin = 0;
  timemax = 0;
  starttime = 0;
  resettime = 0;
  countssize = 0;
  counts = 7 ∷ 7 ∷ 7 ∷ [];
}

-- Three counters, two requests each second, and periods of 4096 to 8191 milliseconds.
abbrev quota : Quota
quota = record garbage { rps = 2; timemin = 4096; timemax = 8192; countssize = 3; resettime = 99 }

abbrev fresh_quota : Quota
fresh_quota = reset_state quota 100 5 words

abbrev request : ℕ → Request
request now = record { now = now; r64 = 5; salt = words; ip = now ∷ [] }

period_bounded_example :
    ServedAtMost 101 fresh_quota (request 150 ∷ request 300 ∷ request 4000 ∷ [])
unfolding quota_reset quota_limit reset_state
period_bounded_example =
    period_bounded quota fresh_quota 100 5 words 100 (request 150 ∷ request 300 ∷ request 4000 ∷ [])
      (record { some_count = omega arith; ordered = omega arith; max_fits = omega arith }) refl
      (omega arith)
      ((omega arith, omega arith), ((omega arith, omega arith), ((omega arith, omega arith), tt)))
