-- ===== src/PacketProtocol/Found.antt =====
-- What `http_url_match` finds in the requests of `http_url_generate` of src/packet_protocol.c.
use reqrypt.Common.{
  length, get_elem?, get_or, length-append, get_elem?-eq-get_or, get_elem?-append_add, ℕ, zero, suc,
  ◌+◌, ◌-◌, ◌^◌, ◌≤◌, ◌<◌, ◌≡◌, refl, sym, ap, ◌∙◌, ◌≢◌, Option, none, some, List, ◌∷◌, ◌++◌, arith,
}
use mathlib.Core.Path.{subst}
use reqrypt.PacketProtocol.{host_header, tolower, url_of_data}
use reqrypt.PacketProtocol.Generate.{end_uri_str, http_url_generate}
use reqrypt.PacketProtocol.Length.{length-http_url_generate}
use reqrypt.PacketProtocol.Search.{IsHost}
use reqrypt.PacketProtocol.Url.{IsUrl, url_of_data-IsUrl}
use reqrypt.PacketProtocol.Names.{HasName, generated_name}

-- The header, byte by byte.
host_at :
    (first : ℕ) (behind : List ℕ) (k : ℕ)
    → k < 8
    → (c : ℕ) × (get_elem? (end_uri_str ++ (first ∷ behind)) (9 + k) ≡ some c)
      × (tolower c ≡ get_or host_header k 0)
host_at first behind zero h = (13, refl, refl)
host_at first behind (suc zero) h = (10, refl, refl)
host_at first behind (suc (suc zero)) h = (72, refl, refl)
host_at first behind (suc (suc (suc zero))) h = (111, refl, refl)
host_at first behind (suc (suc (suc (suc zero)))) h = (115, refl, refl)
host_at first behind (suc (suc (suc (suc (suc zero))))) h = (116, refl, refl)
host_at first behind (suc (suc (suc (suc (suc (suc zero)))))) h = (58, refl, refl)
host_at first behind (suc (suc (suc (suc (suc (suc (suc zero))))))) h = (32, refl, refl)
host_at first behind (suc (suc (suc (suc (suc (suc (suc (suc k)))))))) h = absurd (omega arith)

some_injective : {a b : ℕ} → some a ≡ some b → a ≡ b
some_injective h = cc

name_at :
    (beyond : ℕ) (before : List ℕ) (first : ℕ) (behind : List ℕ)
    → first ≢ 13
    → IsHost beyond (before ++ (end_uri_str ++ (first ∷ behind))) (length before + 17)
name_at beyond before first behind safe =
    let line : List ℕ = end_uri_str ++ (first ∷ behind) in
    let total = length-append before line in
    let here : get_elem? (before ++ line) (length before + 17) ≡ some first =
      get_elem?-append_add before line 17 in
    let value_here =
      get_elem?-eq-get_or (before ++ line) (length before + 17) beyond (omega (arith, total)) in
    record {
      header = record {
        fits = omega arith;
        same = λ k less.
            let (c, at, low) = host_at first behind k less in
            let place : length before + 17 - 8 + k ≡ length before + (9 + k) = omega arith in
            (
              c,
              ap (λ (n : ℕ). get_elem? (before ++ line) n) place
                  ∙ get_elem?-append_add before line (9 + k)
                  ∙ at,
              low,
            );
      };
      filled = λ e. safe (
          let same : some first ≡ some (get_or (before ++ line) (length before + 17) beyond) =
            sym here ∙ value_here in
          let inner : first ≡ get_or (before ++ line) (length before + 17) beyond =
            some_injective same in
          inner ∙ e);
    }

name-IsHost :
    (beyond : ℕ) (bytes : List ℕ)
    → HasName bytes
    → (m : ℕ) × (m ≤ length bytes) × IsHost beyond bytes m
name-IsHost beyond bytes h =
    let line : List ℕ = end_uri_str ++ (h.first ∷ h.behind) in
    let total = length-append h.before line in
    let size : length bytes ≡ length (h.before ++ line) = ap (λ (l : List ℕ). length l) h.parts in
    (
      length h.before + 17,
      omega (arith, total, size),
      subst (λ (l : List ℕ). IsHost beyond l (length h.before + 17)) (sym h.parts)
          (name_at beyond h.before h.first h.behind h.same_line),
    )

found_name :
    (beyond : ℕ) (bytes : List ℕ) (found : Option (ℕ × ℕ))
    → IsUrl beyond bytes found
    → HasName bytes
    → found ≢ none
found_name beyond bytes none url h =
    let (m, le, host) = name-IsHost beyond bytes h in absurd (url m le host)
found_name beyond bytes (some (start, stop)) url h = λ e. cc

-- In a packet with at least 150 bytes of data, a URL is found in every request that is generated:
-- the search of `http_url_match` does not fail.
pub url_of_data-http_url_generate :
    (beyond data_len hash unset : ℕ)
    → 150 ≤ data_len
    → data_len < 2 ^ 64
    → url_of_data beyond (http_url_generate data_len hash unset) ≢ none
url_of_data-http_url_generate beyond data_len hash unset enough small =
    let bytes : List ℕ = http_url_generate data_len hash unset in
    let size = length-http_url_generate data_len hash unset in
    found_name beyond bytes (url_of_data beyond bytes)
      (url_of_data-IsUrl beyond bytes (omega (arith, size)))
      (generated_name data_len hash unset enough)
