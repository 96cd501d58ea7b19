-- ===== src/Tunnel/Sets.antt =====
-- The tunnel sets of src/tunnel.c: what `tunnel_set_delete` removes, and sets of distinct pointers.
use text.Mathlib.Text.{◌==◌ as str_eq}
use Prim.Native.String.{String}
use reqrypt.Common.{
  if◌then◌else◌, bind-eq-some, All, ℕ, ◌≡◌, refl, sym, ap, ◌≢◌, Bool, true, false, Option, none,
  some, List, [], ◌∷◌, ◌++◌,
}
use mathlib.Core.Path.{subst}
use mathlib.Core.Option.{some-injective}
use reqrypt.Tunnel.{Tunnel, Store, tunnel_set_delete}

-- `rest` is the list without the one occurrence of `p` that was removed.
pub data Removal : List ℕ → ℕ → List ℕ → Type 0 where
  here : {p : ℕ} {ps : List ℕ} → Removal (p ∷ ps) p ps
  there : {q p : ℕ} {ps rest : List ℕ} → Removal ps p rest → Removal (q ∷ ps) p (q ∷ rest)

-- The tunnel at `p` has the URL, or has another one.
pub record HasUrl (store : Store) (url : String) (answer : Bool) (p : ℕ) : Type 0 where
  pub tunnel : Tunnel
  pub stored : store p ≡ some tunnel
  pub same : str_eq tunnel.url url ≡ answer

-- The two results of `tunnel_set_delete`: the first tunnel with the URL and the set without it, or
-- NULL and the same set, in which no tunnel has the URL.
abbrev pub Deleted : Store → String → List ℕ → Option ℕ × List ℕ → Type 0
Deleted store url ps (none, rest) = (rest ≡ ps) × All (HasUrl store url false) ps
Deleted store url ps (some p, rest) = Removal ps p rest × HasUrl store url true p

Deleted-cons :
    (store : Store) (url : String) (p : ℕ) (ps : List ℕ) (t : Tunnel) (b : Bool)
    (r : Option ℕ × List ℕ)
    → store p ≡ some t
    → str_eq t.url url ≡ b
    → Deleted store url ps r
    → Deleted store url (p ∷ ps) (if b then (some p, ps) else (r.0, p ∷ r.1))
Deleted-cons store url p ps t true r read same d =
    (here, record { tunnel = t; stored = read; same = same })
Deleted-cons store url p ps t false (none, rest) read same (e, others) =
    (ap (λ l. p ∷ l) e, (record { tunnel = t; stored = read; same = same }, others))
Deleted-cons store url p ps t false (some q, rest) read same (removal, has) = (there removal, has)

-- When every pointer of the set is live, `tunnel_set_delete` returns one of the two results.
pub tunnel_set_delete-Deleted :
    (store : Store) (url : String) (ps : List ℕ) (r : Option ℕ × List ℕ)
    → tunnel_set_delete store ps url ≡ some r
    → Deleted store url ps r
unfolding tunnel_set_delete
tunnel_set_delete-Deleted store url [] r e =
    subst (Deleted store url []) (some-injective _ _ e) (refl, tt)
tunnel_set_delete-Deleted store url (p ∷ ps) r e =
    let (t, read, e1) = bind-eq-some (store p) _ e in
    let (r', rec, e2) = bind-eq-some (tunnel_set_delete store ps url) _ e1 in
    subst (Deleted store url (p ∷ ps)) (some-injective _ _ e2) (
      Deleted-cons store url p ps t (str_eq t.url url) r' read refl
        (tunnel_set_delete-Deleted store url ps r' rec))

module _ {κ} (P : ℕ → Type κ) where
  pub Removal-All : {p : ℕ} {ps rest : List ℕ} → Removal ps p rest → All P ps → P p × All P rest
  Removal-All here (h, hs) = (h, hs)
  Removal-All (there r) (h, hs) = let (hp, hr) = Removal-All r hs in (hp, (h, hr))

  pub All-append : (ps : List ℕ) (p : ℕ) → All P ps → P p → All P (ps ++ (p ∷ []))
  All-append [] p hs h = (h, tt)
  All-append (q ∷ ps) p (hq, hs) h = (hq, All-append ps p hs h)

-- No pointer twice.
abbrev pub Distinct : List ℕ → Type 0
Distinct [] = Unit {0}
Distinct (p ∷ ps) = All (λ q. q ≢ p) ps × Distinct ps

pub All-map {κ λ'} :
    {P : ℕ → Type κ} {Q : ℕ → Type λ'} (ps : List ℕ) → ((p : ℕ) → P p → Q p) → All P ps → All Q ps
All-map [] f hs = tt
All-map (p ∷ ps) f (h, hs) = (f p h, All-map ps f hs)

pub Removal-Distinct :
    {p : ℕ} {ps rest : List ℕ}
    → Removal ps p rest
    → Distinct ps
    → All (λ q. q ≢ p) rest × Distinct rest
Removal-Distinct here (h, hs) = (h, hs)
Removal-Distinct (there {q} {rest = rest} r) (h, hs) =
    let (others, ds) = Removal-Distinct r hs in
    let (ne, hr) = Removal-All _ r h in ((λ e. ne (sym e), others), (hr, ds))

pub Distinct-append :
    (ps : List ℕ) (p : ℕ) → Distinct ps → All (λ q. q ≢ p) ps → Distinct (ps ++ (p ∷ []))
Distinct-append [] p d n = (tt, tt)
Distinct-append (q ∷ ps) p (h, d) (n, ns) =
    (All-append (λ q'. q' ≢ q) ps p h (λ e. n (sym e)), Distinct-append ps p d ns)
