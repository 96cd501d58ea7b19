-- ===== src/CktpCommon/Examples.antt =====
-- Bytes for src/cktp_common.c.
use reqrypt.Common.{all_bytes-IsBytes, codes, ℕ, ◌≡◌, refl, some, List, take, arith}
use reqrypt.CktpCommon.{cktp_calculate_checksum}
use reqrypt.CktpCommon.Crc.{crc_divide, cktp_calculate_checksum-crc_divide}

abbrev digits : List ℕ
digits = codes "123456789"

cktp_calculate_checksum-crc_divide_example :
    cktp_calculate_checksum digits 9 ≡ some (crc_divide 0 (take 9 digits))
cktp_calculate_checksum-crc_divide_example =
    cktp_calculate_checksum-crc_divide digits 9 (all_bytes-IsBytes digits refl) (omega arith)

-- The check value of CRC-16/XMODEM.
test_check_value : cktp_calculate_checksum digits 9 ≡ some 0x31C3
unfolding cktp_calculate_checksum
test_check_value = refl
