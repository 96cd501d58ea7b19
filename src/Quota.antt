-- ===== src/Quota.antt =====
-- src/quota.c: the request quota of the server. A call takes the time that `gettime` answers and
-- what `random` writes; the lock is not modelled, each call runs alone.
pub mod Count
pub mod Period
pub mod Examples
pub mod Sharing
use reqrypt.Common.{
  ltb, leb, ◌==◌, if◌then◌else◌, ==_iff, Bool-cases, Option-cases, bind-ne-none, bind-eq-some,
  if-ne-none, length, get_elem?, get_or, set, take, drop, replicate, All, length-append, length-set,
  length-take, length-drop, length-replicate, get_elem?-set_self, get_elem?-set_ne,
  get_elem?-eq-get_or, take-append-drop, take-append, drop-append, drop-drop, get_elem?-ne-none,
  drop-set_lt, drop-set_ge, get_elem?-drop, get_elem?-take, get_elem?-append_left, drop-take,
  take_all, drop-append_of_eq, get_elem?-some, get_elem?-append_right, append-assoc_cons, u8, u16,
  u32, u64, sub64, IsByte, IsBytes, ntohs, htons, u8_at, u16_at, u32_at, bytes_at, put_u8, put_u16,
  get_elem?-IsByte, u16_at-lt, drop-IsBytes, take-IsBytes, append-IsBytes, ℕ, zero, suc, ◌+◌, ◌-◌,
  ◌*◌, ◌/◌, ◌%◌, ◌^◌, ◌≤◌, ◌<◌, min, bit_and, bit_or, bit_xor, ◌≡◌, refl, sym, ap, ◌∙◌, ◌≢◌, ◌↔◌,
  ◌⊎◌, inl, inr, Bool, true, false, not, ◌&&◌, ◌||◌, Option, none, some, List, [], ◌∷◌, ◌++◌, map,
  arith,
}
use reqrypt.Common.Outcome.{Outcome, ok, panicked, fault, read, ◌>>=◌}
use reqrypt.Cookie.{CookieGen, generate_cookie16}

-- `struct quota_s`. Times are in milliseconds.
pub record Quota : Type 0 where
  pub salt : CookieGen
  pub rps : ℕ
  pub timemin : ℕ
  pub timemax : ℕ
  pub starttime : ℕ
  pub resettime : ℕ
  pub countssize : ℕ
  pub counts : List ℕ

-- `mem` is what the allocated memory held: `quota_init` leaves the salt, the start time and the
-- counts as they are.
unfoldable pub quota_init : Quota → ℕ → ℕ → ℕ → ℕ → ℕ → Quota
quota_init mem now timemin timemax numcounts rps = record mem {
  timemin = timemin;
  timemax = timemax;
  countssize = numcounts;
  resettime = sub64 now 1;
  rps = u32 (rps * 1024) / 1000;
}

-- `sizeof(ip)` is the size of a pointer, on a host with pointers of 64 bits.
abbrev pub sizeof_pointer : ℕ
sizeof_pointer = 8

-- A remainder by 0 is undefined.
abbrev pub remainder : ℕ → ℕ → Outcome ℕ
remainder a zero = fault
remainder a (suc m) = ok (a % suc m)

unfoldable pub quota_hash : Quota → List ℕ → Outcome ℕ
quota_hash q ip = remainder (generate_cookie16 q.salt ip sizeof_pointer) q.countssize

-- The reset at the end of a period: `r64` and `salt` are random, and `wait` is the remainder.
unfoldable pub reset_state : Quota → ℕ → ℕ → CookieGen → Quota
reset_state q now wait salt = record q {
  resettime = u64 (now + wait + q.timemin);
  starttime = now;
  salt = salt;
  counts = replicate q.countssize 0;
}

unfoldable pub quota_reset : Quota → ℕ → ℕ → CookieGen → Outcome Quota
unfolding reset_state
quota_reset q now r64 salt = do
  wait ← remainder r64 ((q.timemax + 2 ^ 32 - q.timemin) % 2 ^ 32)
  ok (reset_state q now wait salt)

-- The count that a bucket may reach for a request to be accepted.
unfoldable pub quota_limit : Quota → ℕ → ℕ
quota_limit q now = u64 (
    u64 ((q.rps + 2 ^ 32 - 1) % 2 ^ 32 * sub64 now q.starttime) / 1024
    + sub64 q.resettime q.starttime / 1024
    + 1)

-- The answer for a bucket with the given count, and its new count.
unfoldable pub count_request : Quota → ℕ → ℕ → ℕ → Bool × Quota
unfolding quota_limit
count_request q now h count =
    if count == 0
    then (true, record q { counts = set q.counts h 1 })
    else if leb count (quota_limit q now)
    then (true, record q { counts = set q.counts h (u16 (count + 1)) })
    else (false, q)

-- The part of `quota_check` after the reset.
unfoldable pub quota_count : Quota → ℕ → List ℕ → Outcome (Bool × Quota)
unfolding quota_hash count_request
quota_count q now ip = do
  h ← quota_hash q ip
  count ← read (get_elem? q.counts h)
  ok (count_request q now h count)

unfoldable pub quota_check : Quota → ℕ → ℕ → CookieGen → List ℕ → Outcome (Bool × Quota)
unfolding quota_reset quota_count
quota_check q now r64 salt ip =
    if ltb q.resettime now
    then (do q1 ← quota_reset q now r64 salt; quota_count q1 now ip)
    else quota_count q now ip
