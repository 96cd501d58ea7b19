-- ===== src/PacketProtocol/Url.antt =====
-- What `http_url_match` in src/packet_protocol.c returns.
use reqrypt.Common.{
  ◌==◌, if◌then◌else◌, Bool-cases, length, get_or, drop, length-drop, sub64, ℕ, zero, suc, ◌+◌, ◌-◌,
  ◌^◌, ◌≤◌, ◌<◌, ◌≡◌, refl, sym, ap, ◌∙◌, ◌≢◌, ◌⊎◌, inl, inr, Option, none, some, List, [], ◌∷◌,
  arith,
}
use reqrypt.PacketProtocol.{scan_all, find_end, url_of_data}
use reqrypt.PacketProtocol.Search.{IsLast, scan_all-IsLast}

-- From `start` to `last` there is no end of the line; then there is one, and the name stops before
-- the byte that stands before it, or the data ends.
pub record IsName (beyond : ℕ) (bytes : List ℕ) (start stop last : ℕ) : Type 0 where
  pub forward : start ≤ last
  pub inside : last ≤ length bytes
  pub one_line : (m : ℕ) → start ≤ m → m < last → get_or bytes m beyond ≢ 13
  pub ended :
      ((get_or bytes last beyond ≡ 13) × (stop + 1 ≡ last) × (start ≤ stop))
      ⊎ ((last ≡ length bytes) × (stop ≡ last))

abbrev pub IsUrl : ℕ → List ℕ → Option (ℕ × ℕ) → Type 0
IsUrl beyond bytes none = IsLast beyond bytes (length bytes) none
IsUrl beyond bytes (some (start, stop)) =
    IsLast beyond bytes (length bytes) (some start)
    × (last : ℕ) × IsName beyond bytes start stop last

get_or-drop :
    (n : ℕ) (bytes : List ℕ) (k d : ℕ) → get_or (drop n bytes) k d ≡ get_or bytes (n + k) d
get_or-drop zero bytes k d = ap (λ (i : ℕ). get_or bytes i d) (omega arith)
get_or-drop (suc n) [] k d = refl
get_or-drop (suc n) (b ∷ bytes) k d =
    get_or-drop n bytes k d
    ∙ ap (λ (i : ℕ). get_or (b ∷ bytes) i d) (let e : suc (n + k) ≡ suc n + k = omega arith in e)

-- Where `find_end` stops: at the first end of the line, or at the end.
record IsEnd (beyond : ℕ) (rest : List ℕ) (off : ℕ) : Type 0 where
  inside : off ≤ length rest
  one_line : (m : ℕ) → m < off → get_or rest m beyond ≢ 13
  ended : (get_or rest off beyond ≡ 13) ⊎ (off ≡ length rest)

line_from :
    (beyond off c : ℕ) (rest : List ℕ) (m : ℕ)
    → c ≢ 13
    → ((n : ℕ) → n < off → get_or rest n beyond ≢ 13)
    → m < suc off
    → get_or (c ∷ rest) m beyond ≢ 13
line_from beyond off c rest zero first others h = first
line_from beyond off c rest (suc m) first others h = others m (omega arith)

find_end-IsEnd :
    (beyond : ℕ) (rest : List ℕ) (i : ℕ)
    → (off : ℕ) × (find_end rest i ≡ i + off) × IsEnd beyond rest off
unfolding find_end
find_end-IsEnd beyond [] i = (
  0,
  omega arith,
  record { inside = omega arith; one_line = λ m h. absurd (omega arith); ended = inr refl },
)
find_end-IsEnd beyond (c ∷ rest) i = elim (Bool-cases (c == 13)) [
  | inl line_end ↦ rw line_end (
    0,
    omega arith,
    record {
      inside = omega arith;
      one_line = λ m h. absurd (omega arith);
      ended = inl (ground arith);
    },
  )
  | inr more_bytes ↦
      let (off, is_off, h) = find_end-IsEnd beyond rest (i + 1) in
      rw more_bytes (
        suc off,
        omega (arith, is_off),
        record {
          inside = omega (arith, h.inside);
          one_line = λ m less.
              line_from beyond off c rest m (ground arith) (λ n l. h.one_line n (omega arith)) less;
          ended = elim h.ended [ inl e ↦ inl e | inr e ↦ inr (omega (arith, e)) ];
        },
      )
]

IsName-at :
    (beyond : ℕ) (bytes : List ℕ) (start off : ℕ)
    → length bytes < 2 ^ 64
    → start ≤ length bytes
    → get_or bytes start beyond ≢ 13
    → IsEnd beyond (drop start bytes) off
    → IsName beyond bytes start
        (if get_or bytes (start + off) beyond == 13 then sub64 (start + off) 1 else start + off)
        (start + off)
IsName-at beyond bytes start off small within filled h =
    let len = length-drop start bytes in
    let inside = h.inside in
    let here : get_or (drop start bytes) off beyond ≡ get_or bytes (start + off) beyond =
      get_or-drop start bytes off beyond in
    let here0 : get_or bytes (start + 0) beyond ≡ get_or bytes start beyond =
      ap (λ (i : ℕ). get_or bytes i beyond) (let e : start + 0 ≡ start = omega arith in e) in
    let not_first : off ≡ 0 → get_or bytes (start + off) beyond ≢ 13 = λ e line.
      filled (sym here0 ∙ ap (λ (i : ℕ). get_or bytes (start + i) beyond) (sym e) ∙ line) in
    record {
      forward = omega arith;
      inside = omega (arith, len, inside);
      one_line = λ m low high line.
          let place : start + (m - start) ≡ m = omega arith in
          h.one_line (m - start) (omega arith) (
            get_or-drop start bytes (m - start) beyond
            ∙ ap (λ (i : ℕ). get_or bytes i beyond) place
            ∙ line);
      ended = elim (Bool-cases (get_or bytes (start + off) beyond == 13)) [
        | inl line ↦
            let positive : off ≢ 0 = λ e. not_first e (ground arith) in
            rw line (inl (ground arith, omega arith, omega arith))
        | inr other ↦ rw other (elim h.ended [
          | inl line ↦
              absurd
                (let at : get_or bytes (start + off) beyond ≡ 13 = sym here ∙ line in ground arith)
          | inr last ↦ inr (omega arith, refl)
        ])
      ];
    }

IsUrl-from :
    (beyond : ℕ) (bytes : List ℕ)
    → length bytes < 2 ^ 64
    → (found : Option ℕ) → IsLast beyond bytes (length bytes) found
    → IsUrl beyond bytes (elim found [
      | none ↦ none
      | some start ↦
          let stop : ℕ = find_end (drop start bytes) start in
          some (start, if get_or bytes stop beyond == 13 then sub64 stop 1 else stop)
    ])
IsUrl-from beyond bytes small none last = last
IsUrl-from beyond bytes small (some start) (within, host, others) =
    let (off, is_off, h) = find_end-IsEnd beyond (drop start bytes) start in
    rw is_off (
      (within, host, others),
      start + off,
      IsName-at beyond bytes start off small within host.filled h,
    )

-- In data of less than 2^64 bytes, a search that finds nothing means that no position is right
-- behind the header "\r\nhost: ", in either case, with the line going on. A search that finds
-- something returns the last such position and the end of its line: one less than the position of
-- the "\r" that ends it, or the end of the data if there is no "\r" up to there and behind.
pub url_of_data-IsUrl :
    (beyond : ℕ) (bytes : List ℕ)
    → length bytes < 2 ^ 64
    → IsUrl beyond bytes (url_of_data beyond bytes)
unfolding url_of_data
url_of_data-IsUrl beyond bytes small =
    IsUrl-from beyond bytes small (scan_all beyond (length bytes) bytes 0 none)
      (scan_all-IsLast beyond bytes)
