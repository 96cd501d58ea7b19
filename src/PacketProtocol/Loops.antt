-- ===== src/PacketProtocol/Loops.antt =====
-- The two loops of `http_url_match` in src/packet_protocol.c as one.
use reqrypt.Common.{
  ◌==◌, if◌then◌else◌, Bool-cases, length, ℕ, zero, suc, ◌+◌, ◌≤◌, ◌<◌, ◌≡◌, refl, ◌∙◌, inl, inr,
  false, Option, List, [], ◌∷◌, arith,
}
use reqrypt.PacketProtocol.{next_state, scan, host_found, scan_all}

-- One loop in place of two: the state is set back where a header is complete.
unfoldable pub flat : ℕ → List ℕ → ℕ → ℕ → Option ℕ → Option ℕ
flat beyond [] i state found = found
flat beyond (c ∷ rest) i state found =
    let state' = next_state state c in
    let more = flat beyond rest (i + 1) 0 (host_found beyond 8 rest (i + 1) found) in
    let other = flat beyond rest (i + 1) state' found in if state' == 8 then more else other

-- The rest of the outer loop after the inner one.
abbrev pub after : ℕ → ℕ → (ℕ × List ℕ × ℕ) → Option ℕ → Option ℕ
after beyond fuel (state, rest, i) found =
    scan_all beyond fuel rest i (host_found beyond state rest i found)

scan_full : (rest : List ℕ) (i : ℕ) → scan rest i 8 ≡ (8, rest, i)
unfolding scan
scan_full [] i = refl
scan_full (c ∷ rest) i = refl

scan_nil : (i state : ℕ) → scan [] i state ≡ (state, [], i)
unfolding scan
scan_nil i state = refl

scan_next :
    (c : ℕ) (rest : List ℕ) (i state : ℕ)
    → state < 8
    → scan (c ∷ rest) i state ≡ scan rest (i + 1) (next_state state c)
unfolding scan
scan_next c rest i state h = let open_state : (state == 8) ≡ false = ground arith in rw open_state

pub next_state-bound : (state c : ℕ) → state < 8 → next_state state c ≤ 8
unfolding next_state
next_state-bound state c h = ground arith

scan_all_nil : (beyond fuel i : ℕ) (found : Option ℕ) → scan_all beyond fuel [] i found ≡ found
unfolding scan_all
scan_all_nil beyond zero i found = refl
scan_all_nil beyond (suc fuel) i found = refl

scan_all_step :
    (beyond fuel i c : ℕ) (rest : List ℕ) (found : Option ℕ)
    → scan_all beyond (suc fuel) (c ∷ rest) i found ≡ after beyond fuel (scan (c ∷ rest) i 0) found
unfolding scan_all
scan_all_step beyond fuel i c rest found = refl

not_found :
    (beyond state i : ℕ) (rest : List ℕ) (found : Option ℕ)
    → state < 8
    → host_found beyond state rest i found ≡ found
unfolding host_found
not_found beyond state i rest found h =
    let open_state : (state == 8) ≡ false = ground arith in rw open_state

-- The outer loop goes on as the one loop does, if its next round does.
pub restart-flat :
    (beyond : ℕ) (rest : List ℕ) (fuel i : ℕ) (found : Option ℕ)
    → length rest ≤ fuel
    → ((left : ℕ)
        → length rest ≤ suc left
        → after beyond left (scan rest i 0) found ≡ flat beyond rest i 0 found)
    → scan_all beyond fuel rest i found ≡ flat beyond rest i 0 found
unfolding flat
restart-flat beyond [] fuel i found enough round = scan_all_nil beyond fuel i found
restart-flat beyond (c ∷ rest) zero i found enough round = absurd (omega arith)
restart-flat beyond (c ∷ rest) (suc fuel) i found enough round =
    scan_all_step beyond fuel i c rest found ∙ round fuel (omega arith)

-- With one unit of fuel for each byte but the first, the two loops are the one loop.
pub after-flat :
    (beyond : ℕ) (rest : List ℕ) (fuel i state : ℕ) (found : Option ℕ)
    → state < 8
    → length rest ≤ suc fuel
    → after beyond fuel (scan rest i state) found ≡ flat beyond rest i state found
unfolding flat
after-flat beyond [] fuel i state found small enough =
    let at_end : scan [] i state ≡ (state, [], i) = scan_nil i state in
    rw (at_end, scan_all_nil beyond fuel i (host_found beyond state [] i found))
      (not_found beyond state i [] found small)
after-flat beyond (c ∷ rest) fuel i state found small enough =
    let state' : ℕ = next_state state c in
    rw (scan_next c rest i state small) (elim (Bool-cases (state' == 8)) [
      | inl full ↦
          let eight : state' ≡ 8 = ground arith in
          rw (full, eight, scan_full rest (i + 1))
            (restart-flat beyond rest fuel (i + 1) (host_found beyond 8 rest (i + 1) found)
              (omega arith) (λ left h. after-flat beyond rest left (i + 1) 0 _ (omega arith) h))
      | inr partial ↦
          let small' : state' < 8 = ground (arith, next_state-bound state c small) in
          rw partial (after-flat beyond rest fuel (i + 1) state' found small' (omega arith))
    ])
