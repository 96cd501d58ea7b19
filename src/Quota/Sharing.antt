-- ===== src/Quota/Sharing.antt =====
-- The hash of src/quota.c and the addresses of the clients.
use reqrypt.Common.{ℕ, ◌≡◌, refl, List}
use reqrypt.Cookie.{CookieGen, generate_cookie16, generate_cookie64, generate_cookie128, mix_input}
use reqrypt.Quota.{Quota, quota_check, quota_hash, quota_count}

pub quota_hash_shared : (q : Quota) (ip ip' : List ℕ) → quota_hash q ip ≡ quota_hash q ip'
unfolding quota_hash generate_cookie16 generate_cookie64 generate_cookie128 mix_input
quota_hash_shared q ip ip' = refl

-- The address of the client does not enter the quota: two clients with different addresses get the
-- same answer and leave the same counts, whatever the state, the time and the random numbers are.
pub quota_check_shared :
    (q : Quota) (now r64 : ℕ) (salt : CookieGen) (ip ip' : List ℕ)
    → quota_check q now r64 salt ip ≡ quota_check q now r64 salt ip'
unfolding quota_check quota_count quota_hash generate_cookie16 generate_cookie64 generate_cookie128
    mix_input
quota_check_shared q now r64 salt ip ip' = refl
