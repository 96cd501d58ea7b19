-- ===== src/PacketProtocol/Search.antt =====
-- The search of `http_url_match` in src/packet_protocol.c.
use reqrypt.Common.{
  ◌==◌, Bool-cases, length, get_elem?, get_or, ℕ, zero, suc, ◌+◌, ◌≤◌, ◌<◌, ◌≡◌, refl, sym, ap, ◌∙◌,
  ◌≢◌, ◌⊎◌, inl, inr, Option, none, some, List, [], ◌∷◌, arith,
}
use mathlib.Core.Path.{subst}
use reqrypt.PacketProtocol.{next_state, host_found, scan_all}
use reqrypt.PacketProtocol.Loops.{flat, after-flat, restart-flat, next_state-bound}
use reqrypt.PacketProtocol.States.{IsAt, IsState, IsAt-none, state-IsNext}

-- A name starts at `i`: the whole header is before it, and the line does not end there.
pub record IsHost (beyond : ℕ) (bytes : List ℕ) (i : ℕ) : Type 0 where
  pub header : IsAt bytes i 8
  pub filled : get_or bytes i beyond ≢ 13

-- The last name that starts at or before `bound`.
abbrev pub IsLast : ℕ → List ℕ → ℕ → Option ℕ → Type 0
IsLast beyond bytes bound none = (m : ℕ) → m ≤ bound → ¬ (IsHost beyond bytes m)
IsLast beyond bytes bound (some b) =
    (b ≤ bound) × IsHost beyond bytes b × ((m : ℕ) → b < m → m ≤ bound → ¬ (IsHost beyond bytes m))

-- `rest` is what is left of the bytes from `i` on.
abbrev Rest : List ℕ → ℕ → List ℕ → Type 0
Rest bytes i rest = (k : ℕ) → get_elem? bytes (i + k) ≡ get_elem? rest k

Rest-next :
    (bytes : List ℕ) (i c : ℕ) (rest : List ℕ) → Rest bytes i (c ∷ rest) → Rest bytes (i + 1) rest
Rest-next bytes i c rest h k =
    ap (λ (n : ℕ). get_elem? bytes n) (let same : i + 1 + k ≡ i + suc k = omega arith in same)
    ∙ h (suc k)

get_or-elim :
    (beyond : ℕ) (xs : List ℕ) (i : ℕ)
    → get_or xs i beyond ≡ elim (get_elem? xs i) [ none ↦ beyond | some c ↦ c ]
get_or-elim beyond [] i = refl
get_or-elim beyond (x ∷ xs) zero = refl
get_or-elim beyond (x ∷ xs) (suc i) = get_or-elim beyond xs i

get_or-eq :
    (beyond : ℕ) (xs ys : List ℕ) (i j : ℕ)
    → get_elem? xs i ≡ get_elem? ys j
    → get_or xs i beyond ≡ get_or ys j beyond
get_or-eq beyond xs ys i j h =
    get_or-elim beyond xs i
    ∙ ap (λ (o : Option ℕ). elim o [ none ↦ beyond | some c ↦ c ]) h
    ∙ sym (get_or-elim beyond ys j)

at_most_next : (m i : ℕ) → m ≤ i + 1 → (m ≤ i) ⊎ (m ≡ i + 1)
at_most_next m i h = ground arith

IsLast-extend :
    (beyond : ℕ) (bytes : List ℕ) (i : ℕ) (found : Option ℕ)
    → IsLast beyond bytes i found
    → ¬ (IsHost beyond bytes (i + 1))
    → IsLast beyond bytes (i + 1) found
IsLast-extend beyond bytes i none last not_here = λ m le. elim (at_most_next m i le) [
  | inl before ↦ last m before
  | inr here ↦ λ host. not_here (subst (λ (n : ℕ). IsHost beyond bytes n) here host)
]
IsLast-extend beyond bytes i (some b) (le_b, host_b, after_b) not_here = (
  omega arith,
  host_b,
  λ m more le. elim (at_most_next m i le) [
    | inl before ↦ after_b m more before
    | inr here ↦ λ host. not_here (subst (λ (n : ℕ). IsHost beyond bytes n) here host)
  ],
)

IsLast-new :
    (beyond : ℕ) (bytes : List ℕ) (i : ℕ) → IsHost beyond bytes i → IsLast beyond bytes i (some i)
IsLast-new beyond bytes i host = (omega arith, host, λ m more le. absurd (omega arith))

-- Where the header is complete, the name is found or does not start.
host_found-IsLast :
    (beyond : ℕ) (bytes rest : List ℕ) (i : ℕ) (found : Option ℕ)
    → Rest bytes (i + 1) rest
    → IsAt bytes (i + 1) 8
    → IsLast beyond bytes i found
    → IsLast beyond bytes (i + 1) (host_found beyond 8 rest (i + 1) found)
unfolding host_found
host_found-IsLast beyond bytes rest i found r is_at last =
    let place : i + 1 ≡ i + 1 + 0 = omega arith in
    let next : get_or bytes (i + 1) beyond ≡ get_or rest 0 beyond =
      get_or-eq beyond bytes rest (i + 1) 0 (ap (λ (n : ℕ). get_elem? bytes n) place ∙ r 0) in
    elim (Bool-cases (get_or rest 0 beyond == 13)) [
      | inl line_end ↦
          rw line_end (IsLast-extend beyond bytes i found last (λ host. host.filled (ground arith)))
      | inr more ↦
          rw more
            (IsLast-new beyond bytes (i + 1) (record { header = is_at; filled = ground arith }))
    ]

-- What the one loop has found is the last name of all.
flat-IsLast :
    (beyond : ℕ) (bytes rest : List ℕ) (i state : ℕ) (found : Option ℕ)
    → Rest bytes i rest
    → IsState bytes i state
    → IsLast beyond bytes i found
    → IsLast beyond bytes (i + length rest) (flat beyond rest i state found)
unfolding flat
flat-IsLast beyond bytes [] i state found r h last =
    let same : i + 0 ≡ i = omega arith in rw same last
flat-IsLast beyond bytes (c ∷ rest) i state found r h last =
    let here : get_elem? bytes i ≡ some c =
      ap (λ (n : ℕ). get_elem? bytes n) (let p : i ≡ i + 0 = omega arith in p) ∙ r 0 in
    let r' : Rest bytes (i + 1) rest = Rest-next bytes i c rest r in
    let (seen, only) = state-IsNext bytes i state c here h in
    let small = next_state-bound state c h.partial in
    let total : i + suc (length rest) ≡ i + 1 + length rest = omega arith in
    elim (Bool-cases (next_state state c == 8)) [
      | inl full ↦
          let eight : next_state state c ≡ 8 = ground arith in
          let is_at : IsAt bytes (i + 1) 8 = subst (λ (n : ℕ). IsAt bytes (i + 1) n) eight seen in
          let fresh : IsState bytes (i + 1) 0 = record {
            partial = omega arith;
            seen = IsAt-none bytes (i + 1);
            only = λ j less at. elim (only j (omega arith) at) [
              | inl same ↦ absurd (omega arith)
              | inr zero_bytes ↦ inl zero_bytes
            ];
          } in
          rw (full, total)
            (flat-IsLast beyond bytes rest (i + 1) 0 _ r' fresh
              (host_found-IsLast beyond bytes rest i found r' is_at last))
      | inr unfinished ↦
          let less : next_state state c < 8 = ground arith in
          let next : IsState bytes (i + 1) (next_state state c) = record {
            partial = less;
            seen = seen;
            only = λ j l at. only j (omega arith) at;
          } in
          rw (unfinished, total)
            (flat-IsLast beyond bytes rest (i + 1) (next_state state c) found r' next (
              IsLast-extend beyond bytes i found last (λ host.
                elim (only 8 (omega arith) host.header) [
                  | inl same ↦ absurd (omega arith)
                  | inr zero_bytes ↦ absurd (omega arith)
                ])))
    ]

pub scan_all-IsLast :
    (beyond : ℕ) (bytes : List ℕ)
    → IsLast beyond bytes (length bytes) (scan_all beyond (length bytes) bytes 0 none)
scan_all-IsLast beyond bytes =
    let start : IsState bytes 0 0 = record {
      partial = omega arith;
      seen = IsAt-none bytes 0;
      only = λ j less at. let fits = at.fits in inr (omega arith);
    } in
    let all : Rest bytes 0 bytes =
      λ k. ap (λ (n : ℕ). get_elem? bytes n) (let p : 0 + k ≡ k = omega arith in p) in
    let no_host : IsLast beyond bytes 0 none =
      λ m le host. let fits = host.header.fits in absurd (omega arith) in
    let total : 0 + length bytes ≡ length bytes = omega arith in
    let found = flat-IsLast beyond bytes bytes 0 0 none all start no_host in
    rw
      (restart-flat beyond bytes (length bytes) 0 none (omega arith)
        (λ left h. after-flat beyond bytes left 0 0 none (omega arith) h))
      (subst (λ (n : ℕ). IsLast beyond bytes n (flat beyond bytes 0 0 none)) total found)
