-- ===== src/Base64/Digits.antt =====
-- The digits of src/base64.c.
use reqrypt.Common.{◌>>=◌, ℕ, ◌<◌, ◌≡◌, some, arith}
use reqrypt.Base64.{base64_todigit, base64_fromdigit}

-- Every number of six bits has a digit, of which `base64_fromdigit` makes the number again.
pub fromdigit-todigit : (val : ℕ) → val < 64 → (base64_todigit val >>= base64_fromdigit) ≡ some val
unfolding base64_todigit base64_fromdigit
fromdigit-todigit val h = ground arith
