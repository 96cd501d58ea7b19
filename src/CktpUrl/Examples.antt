-- ===== src/CktpUrl/Examples.antt =====
-- URLs for src/cktp_url.c.
use reqrypt.Common.{ℕ, ◌≡◌, refl, Option, some, List, [], ◌∷◌, ◌++◌, arith}
use reqrypt.CktpUrl.{parse_port, decimal, parse_target, cktp_parse_url}
use reqrypt.CktpUrl.RoundTrip.{swapped, cktp_parse_url-target}

-- An initialisation that takes every encoding, and gives the number of its options.
abbrev accept_all : List ℕ → List ℕ → ℕ → Option ℕ
accept_all name options count = some count

-- udp://a.b:80
abbrev udp_url : List ℕ
udp_url = 117 ∷ 100 ∷ 112 ∷ 58 ∷ 47 ∷ 47 ∷ 97 ∷ 46 ∷ 98 ∷ 58 ∷ 56 ∷ 48 ∷ []

cktp_parse_url-target_example :
    cktp_parse_url accept_all udp_url
    ≡ some (
      record {
        transport = 1;
        server = 97 ∷ 46 ∷ 98 ∷ [];
        port = swapped (decimal 0 (56 ∷ 48 ∷ []));
      },
      [],
    )
unfolding decimal
cktp_parse_url-target_example =
    cktp_parse_url-target accept_all 3
      (record { name = 117 ∷ 100 ∷ 112 ∷ []; max_port = 65535; proto = 1 }) (97 ∷ 46 ∷ 98 ∷ [])
      (56 ∷ 48 ∷ []) refl (refl, (refl, (refl, tt))) (omega arith) (refl, (refl, tt)) (omega arith)
      (omega arith) (omega arith)

udp_target :
    parse_target udp_url
    ≡ some (record { transport = 1; server = 97 ∷ 46 ∷ 98 ∷ []; port = 20480 }, [])
unfolding parse_target
udp_target = refl

-- The encodings of udp://a.b:80?pad=x,y+pad
test_encodings :
    cktp_parse_url accept_all
      (udp_url ++ (63 ∷ 112 ∷ 97 ∷ 100 ∷ 61 ∷ 120 ∷ 44 ∷ 121 ∷ 43 ∷ 112 ∷ 97 ∷ 100 ∷ []))
    ≡ some (
      record { transport = 1; server = 97 ∷ 46 ∷ 98 ∷ []; port = 20480 },
      (112 ∷ 97 ∷ 100 ∷ [], 2) ∷ (112 ∷ 97 ∷ 100 ∷ [], 0) ∷ [],
    )
unfolding cktp_parse_url
test_encodings = refl

-- The port 4294967376 is read as 80, which is 20480 in network order.
test_port_wraps :
    parse_port 65535 (58 ∷ 52 ∷ 50 ∷ 57 ∷ 52 ∷ 57 ∷ 54 ∷ 55 ∷ 51 ∷ 55 ∷ 54 ∷ []) ≡ some (20480, [])
unfolding parse_port
test_port_wraps = refl
