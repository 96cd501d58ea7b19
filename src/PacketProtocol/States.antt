-- ===== src/PacketProtocol/States.antt =====
-- The states of the search in src/packet_protocol.c.
use reqrypt.Common.{
  ◌==◌, Bool-cases, get_elem?, get_or, ℕ, zero, suc, ◌+◌, ◌-◌, ◌≤◌, ◌<◌, ◌≡◌, refl, sym, ap, ◌∙◌,
  ◌≢◌, ◌⊎◌, inl, inr, some, List, arith,
}
use mathlib.Core.Path.{subst}
use reqrypt.PacketProtocol.{host_header, tolower, next_state}

-- The first `j` bytes of the header, in either case, stand right before the position `i`.
pub record IsAt (bytes : List ℕ) (i j : ℕ) : Type 0 where
  pub fits : j ≤ i
  pub same :
      (k : ℕ)
      → k < j
      → (c : ℕ) × (get_elem? bytes (i - j + k) ≡ some c) × (tolower c ≡ get_or host_header k 0)

-- What the state says of the bytes before the position: that much of the header, and no other part
-- of it that is not the whole.
pub record IsState (bytes : List ℕ) (i state : ℕ) : Type 0 where
  pub partial : state < 8
  pub seen : IsAt bytes i state
  pub only : (j : ℕ) → j < 8 → IsAt bytes i j → (j ≡ state) ⊎ (j ≡ 0)

pub IsAt-none : (bytes : List ℕ) (i : ℕ) → IsAt bytes i 0
IsAt-none bytes i = record { fits = omega arith; same = λ k h. absurd (omega arith) }

last_or_less : (k j : ℕ) → k < j + 1 → (k ≡ j) ⊎ (k < j)
last_or_less k j h = ground arith

-- One byte more of the header, on the byte `c` at `i`.
IsAt-more :
    (bytes : List ℕ) (i j c : ℕ)
    → get_elem? bytes i ≡ some c
    → tolower c ≡ get_or host_header j 0
    → IsAt bytes i j
    → IsAt bytes (i + 1) (j + 1)
IsAt-more bytes i j c here match h = record {
  fits = omega (arith, h.fits);
  same = λ k less. elim (last_or_less k j less) [
    | inl last ↦
        let place : i + 1 - (j + 1) + k ≡ i = omega (arith, h.fits, last) in
        (
          c,
          ap (λ (n : ℕ). get_elem? bytes n) place ∙ here,
          match ∙ ap (λ (n : ℕ). get_or host_header n 0) (sym last),
        )
    | inr before ↦
        let (d, at, low) = h.same k before in
        let place : i + 1 - (j + 1) + k ≡ i - j + k = omega arith in
        (d, ap (λ (n : ℕ). get_elem? bytes n) place ∙ at, low)
  ];
}

-- And back: the last byte of it is the one at `i`.
IsAt-back :
    (bytes : List ℕ) (i j c : ℕ)
    → get_elem? bytes i ≡ some c
    → IsAt bytes (i + 1) (j + 1)
    → (tolower c ≡ get_or host_header j 0) × IsAt bytes i j
IsAt-back bytes i j c here h =
    let (d, at, low) = h.same j (omega arith) in
    let fits = h.fits in
    let place : i + 1 - (j + 1) + j ≡ i = omega arith in
    let found : get_elem? bytes i ≡ some d = ap (λ (n : ℕ). get_elem? bytes n) (sym place) ∙ at in
    let same : d ≡ c = cc in
    (
      ap tolower (sym same) ∙ low,
      record {
        fits = omega arith;
        same = λ k less.
            let (e, at', low') = h.same k (omega arith) in
            let place' : i + 1 - (j + 1) + k ≡ i - j + k = omega arith in
            (e, ap (λ (n : ℕ). get_elem? bytes n) (sym place') ∙ at', low');
      },
    )

header_rest : (j : ℕ) → j < 7 → get_or host_header (suc j) 0 ≢ 13
header_rest zero h = λ e. absurd (omega (arith, e))
header_rest (suc zero) h = λ e. absurd (omega (arith, e))
header_rest (suc (suc zero)) h = λ e. absurd (omega (arith, e))
header_rest (suc (suc (suc zero))) h = λ e. absurd (omega (arith, e))
header_rest (suc (suc (suc (suc zero)))) h = λ e. absurd (omega (arith, e))
header_rest (suc (suc (suc (suc (suc zero))))) h = λ e. absurd (omega (arith, e))
header_rest (suc (suc (suc (suc (suc (suc zero)))))) h = λ e. absurd (omega (arith, e))
header_rest (suc (suc (suc (suc (suc (suc (suc j))))))) h = absurd (omega arith)

-- The first byte of the header is nowhere else in it.
header_first : (j : ℕ) → j < 8 → get_or host_header j 0 ≡ 13 → j ≡ 0
header_first zero h e = refl
header_first (suc j) h e = absurd (header_rest j (omega arith) e)

return : (c : ℕ) → tolower c ≡ 13 → c ≡ 13
return c h = ground arith

-- Which parts of the header end at the byte `c`.
parts_at :
    (bytes : List ℕ) (i state c : ℕ)
    → get_elem? bytes i ≡ some c
    → IsState bytes i state
    → (p : ℕ) → p ≤ 8
    → IsAt bytes (i + 1) p
    → (p ≡ 0) ⊎ ((p ≡ state + 1) × (tolower c ≡ get_or host_header state 0)) ⊎ ((p ≡ 1) × (c ≡ 13))
parts_at bytes i state c here h zero le is_at = inl refl
parts_at bytes i state c here h (suc j) le is_at =
    let next : suc j ≡ j + 1 = omega arith in
    let (low, before) =
      IsAt-back bytes i j c here (subst (λ (n : ℕ). IsAt bytes (i + 1) n) next is_at) in
    inr (elim (h.only j (omega arith) before) [
      | inl same ↦ inl (omega arith, low ∙ ap (λ (n : ℕ). get_or host_header n 0) same)
      | inr first ↦ inr (omega arith, return c (low ∙ ap (λ (n : ℕ). get_or host_header n 0) first))
    ])

next_state-cases :
    (state c : ℕ)
    → ((tolower c ≡ get_or host_header state 0) × (next_state state c ≡ state + 1))
      ⊎ ((tolower c ≢ get_or host_header state 0) × (c ≡ 13) × (next_state state c ≡ 1))
      ⊎ ((tolower c ≢ get_or host_header state 0) × (c ≢ 13) × (next_state state c ≡ 0))
unfolding next_state
next_state-cases state c = elim (Bool-cases (tolower c == get_or host_header state 0)) [
  | inl match ↦ inl (ground arith, rw match refl)
  | inr other ↦ elim (Bool-cases (c == 13)) [
    | inl first ↦ inr (inl (ground arith, ground arith, rw (other, first) refl))
    | inr neither ↦ inr (inr (ground arith, ground arith, rw (other, neither) refl))
  ]
]

-- The new state says of the bytes up to the new position what the old one said.
abbrev pub IsNext : List ℕ → ℕ → ℕ → Type 0
IsNext bytes i state =
    IsAt bytes i state × ((j : ℕ) → j ≤ 8 → IsAt bytes i j → (j ≡ state) ⊎ (j ≡ 0))

pub state-IsNext :
    (bytes : List ℕ) (i state c : ℕ)
    → get_elem? bytes i ≡ some c
    → IsState bytes i state
    → IsNext bytes (i + 1) (next_state state c)
state-IsNext bytes i state c here h =
    let parts = parts_at bytes i state c here h in
    elim (next_state-cases state c) [
      | inl (match, is_next) ↦ rw is_next (
        IsAt-more bytes i state c here match h.seen,
        λ j le is_at. elim (parts j le is_at) [
          | inl zero_bytes ↦ inr zero_bytes
          | inr (inl (longer, low)) ↦ inl longer
          | inr (inr (one, cr)) ↦
              let low : tolower c ≡ 13 = ground arith in
              let start = header_first state h.partial (sym match ∙ low) in inl (omega arith)
        ],
      )
      | inr (inl (other, cr, is_next)) ↦
          let low : tolower c ≡ 13 = ground arith in
          rw is_next (
            IsAt-more bytes i 0 c here low (IsAt-none bytes i),
            λ j le is_at. elim (parts j le is_at) [
              | inl zero_bytes ↦ inr zero_bytes
              | inr (inl (longer, match)) ↦ absurd (other match)
              | inr (inr (one, same)) ↦ inl one
            ],
          )
      | inr (inr (other, no_cr, is_next)) ↦ rw is_next (
        IsAt-none bytes (i + 1),
        λ j le is_at. elim (parts j le is_at) [
          | inl zero_bytes ↦ inl zero_bytes
          | inr (inl (longer, match)) ↦ absurd (other match)
          | inr (inr (one, cr)) ↦ absurd (no_cr cr)
        ],
      )
    ]
