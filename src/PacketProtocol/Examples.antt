-- ===== src/PacketProtocol/Examples.antt =====
-- Requests and queries for src/packet_protocol.c.
use reqrypt.Common.{
  length, replicate, codes, ℕ, ◌≡◌, refl, ◌≢◌, none, some, List, [], ◌∷◌, ◌++◌, arith,
}
use reqrypt.Common.Outcome.{ok}
use reqrypt.PacketProtocol.{url_of_data}
use reqrypt.PacketProtocol.Generate.{http_url_generate, dns_generate}
use reqrypt.PacketProtocol.Length.{length-http_url_generate}
use reqrypt.PacketProtocol.Url.{IsUrl, url_of_data-IsUrl}
use reqrypt.PacketProtocol.Found.{url_of_data-http_url_generate}
use reqrypt.PacketProtocol.Labels.{AreLabels, query_header, question_end, dns_generate-AreLabels}

abbrev packet_data : List ℕ
packet_data = replicate 40 0

abbrev request : List ℕ
request = codes "GET / HTTP/1.1" ++ (13 ∷ 10 ∷ codes "hOST: a.com" ++ (13 ∷ 10 ∷ []))

request_url : url_of_data 0 request ≡ some (22, 26)
unfolding url_of_data
request_url = refl

url_of_data-IsUrl_example : IsUrl 0 request (url_of_data 0 request)
url_of_data-IsUrl_example = url_of_data-IsUrl 0 request (omega arith)

length-http_url_generate_example : length (http_url_generate 160 7 0) ≡ 160
length-http_url_generate_example = length-http_url_generate 160 7 0

url_of_data-http_url_generate_example : url_of_data 0 (http_url_generate 160 7 0) ≢ none
url_of_data-http_url_generate_example =
    url_of_data-http_url_generate 0 160 7 0 (omega arith) (omega arith)

dns_generate-AreLabels_example :
    (id : ℕ) × (names : List ℕ) × (dns_generate packet_data 7 0
      ≡ ok (query_header id ++ names ++ question_end))
    × AreLabels names
    × (length (query_header id ++ names ++ question_end) ≡ length packet_data)
dns_generate-AreLabels_example = dns_generate-AreLabels packet_data 7 0 (omega arith) (omega arith)
