-- ===== src/Tunnel/Reconnect.antt =====
-- `tunnel_reconnect` of src/tunnel.c: a new tunnel is opened to the URL of an old one and takes its
-- place in both sets.
use text.Mathlib.Text.{◌==◌ as str_eq}
use Prim.Native.String.{String}
use mathlib.Core.Path.{subst}
use mathlib.Core.Option.{some-injective}
use reqrypt.Common.{
  if◌then◌else◌, ◌>>=◌, bind-eq-some, All, ℕ, ◌≡◌, refl, sym, ap, ◌∙◌, ◌≢◌, Bool, true, false,
  Option, none, some, List, [], ◌∷◌, arith,
}
use reqrypt.Tunnel.{
  State, opening, dead, Tunnel, Store, update, World, tunnel_create, set_state, end_link,
  free_by_state, tunnel_free, tunnel_set_replace, tunnel_init_age,
}
use reqrypt.Tunnel.Invariant.{IsOpen}

-- `tunnel_create(url, TUNNEL_INIT_AGE)` and `tunnel->state = TUNNEL_STATE_OPENING`.
unfoldable pub reconnect_begin : String → World → Option (ℕ × World)
reconnect_begin url w =
    let (n, w') = tunnel_create url tunnel_init_age w in
    do t ← w'.store n; some (n, set_state w' n t opening)

-- What follows the two calls of `tunnel_set_replace`, by what they replaced; `t` is the new tunnel
-- at `n`.
unfoldable pub reconnect_found : Option ℕ → Option ℕ → ℕ → Tunnel → World → Option World
reconnect_found (some old) in_cache n t w = tunnel_free old w
reconnect_found none (some old) n t w =
    tunnel_free old
      (end_link w n t (some (record t { link = none; state = dead; reconnect = false })))
reconnect_found none none n t w = tunnel_free n w

-- `tunnel_try_activate` has succeeded and left `link` in the new tunnel.
unfoldable pub reconnect_success : ℕ → Option ℕ → World → Option World
reconnect_success n link w = do
  t ← w.store n
  let t' = record t { link = link }
  let store = update w.store n (some t')
  (in_active, active') ← tunnel_set_replace store w.active t.url n
  (in_cache, cache') ← tunnel_set_replace store w.cache t.url n
  reconnect_found in_active in_cache n t'
      (record w { store = store; active = active'; cache = cache' })

-- `tunnel_try_activate` has failed. `url` was freed before, and `tunnel_set_delete` compares it with
-- the URL of each active tunnel, if there is one.
unfoldable pub reconnect_failure : ℕ → World → Option World
reconnect_failure n w = elim w.active [ [] ↦ tunnel_free n w | p ∷ ps ↦ none ]

-- `new` stands in `after` where `old` stood in `before`.
data Replacement (new : ℕ) : List ℕ → ℕ → List ℕ → Type 0 where
  here : {old : ℕ} {ps : List ℕ} → Replacement new (old ∷ ps) old (new ∷ ps)
  there :
      {q old : ℕ} {ps after : List ℕ}
      → Replacement new ps old after
      → Replacement new (q ∷ ps) old (q ∷ after)

abbrev Replaced : ℕ → List ℕ → Option ℕ × List ℕ → Type 0
Replaced new ps (none, after) = after ≡ ps
Replaced new ps (some old, after) = Replacement new ps old after

Replaced-cons :
    (new p : ℕ) (ps : List ℕ) (b : Bool) (r : Option ℕ × List ℕ)
    → Replaced new ps r
    → Replaced new (p ∷ ps) (if b then (some p, new ∷ ps) else (r.0, p ∷ r.1))
Replaced-cons new p ps true r d = here
Replaced-cons new p ps false (none, after) d = ap (λ l. p ∷ l) d
Replaced-cons new p ps false (some old, after) d = there d

tunnel_set_replace-Replaced :
    (store : Store) (url : String) (new : ℕ) (ps : List ℕ) (r : Option ℕ × List ℕ)
    → tunnel_set_replace store ps url new ≡ some r
    → Replaced new ps r
unfolding tunnel_set_replace
tunnel_set_replace-Replaced store url new [] r e =
    subst (Replaced new []) (some-injective _ _ e) refl
tunnel_set_replace-Replaced store url new (p ∷ ps) r e =
    let (t, read, e1) = bind-eq-some (store p) _ e in
    let (r', rec, e2) = bind-eq-some (tunnel_set_replace store ps url new) _ e1 in
    subst (Replaced new (p ∷ ps)) (some-injective _ _ e2) (
      Replaced-cons new p ps (str_eq t.url url) r'
        (tunnel_set_replace-Replaced store url new ps r' rec))

module _ {κ} (P : ℕ → Type κ) where
  Replacement-new :
      {new old : ℕ} {ps after : List ℕ} → Replacement new ps old after → All P after → P new
  Replacement-new here (h, hs) = h
  Replacement-new (there r) (h, hs) = Replacement-new r hs

  Replacement-old :
      {new old : ℕ} {ps after : List ℕ} → Replacement new ps old after → All P ps → P old
  Replacement-old here (h, hs) = h
  Replacement-old (there r) (h, hs) = Replacement-old r hs

free-active :
    (s : State) (w : World) (p : ℕ) (t : Tunnel) → (free_by_state s w p t).active ≡ w.active
unfolding free_by_state
free-active opening w p t = refl
free-active s w p t = refl

free-store :
    (s : State) (w : World) (p q : ℕ) (t : Tunnel)
    → p ≢ q
    → (free_by_state s w p t).store q ≡ w.store q
unfolding free_by_state
free-store opening w p q t ne = ground arith
free-store s w p q t ne = ground arith

tunnel_free_lem :
    (p : ℕ) (w w' : World)
    → tunnel_free p w ≡ some w'
    → (w'.active ≡ w.active) × ((q : ℕ) → p ≢ q → w'.store q ≡ w.store q)
unfolding tunnel_free
tunnel_free_lem p w w' e =
    let (t, read, e1) = bind-eq-some (w.store p) _ e in
    let same : free_by_state t.state w p t ≡ w' = some-injective _ _ e1 in
    (
      subst (λ (v : World). v.active ≡ w.active) same (free-active t.state w p t),
      λ q ne. subst (λ (v : World). v.store q ≡ w.store q) same (free-store t.state w p q t ne),
    )

found_cases :
    (in_active in_cache : Option ℕ) (n : ℕ) (t : Tunnel) (w w' : World) (before : List ℕ)
    → t.state ≡ opening
    → w.store n ≡ some t
    → Replaced n before (in_active, w.active)
    → All (λ q. q ≢ n) before
    → reconnect_found in_active in_cache n t w ≡ some w'
    → w'.active ≢ before
    → ¬ All (IsOpen w'.store) w'.active
unfolding reconnect_found
found_cases none none n t w w' before new read d others e changed h =
    changed ((tunnel_free_lem n w w' e).0 ∙ d)
found_cases none (some old) n t w w' before new read d others e changed h =
    changed ((tunnel_free_lem old _ w' e).0 ∙ d)
found_cases (some old) in_cache n t w w' before new read d others e changed h =
    let (active, elsewhere) = tunnel_free_lem old w w' e in
    let ne = Replacement-old (λ q. q ≢ n) d others in
    let (u, read_u, open_) = Replacement-new (IsOpen w'.store) d (rw active at h) in
    ground (arith, elsewhere n ne)

-- The same question with reconnection has the answer no: whenever `tunnel_reconnect` puts its new
-- tunnel, which is still in state OPENING, into the active set, there is an active tunnel that is
-- not in state OPEN.
pub reconnect_success-not-IsOpen :
    (n : ℕ) (link : Option ℕ) (w w' : World) (t : Tunnel)
    → w.store n ≡ some t
    → t.state ≡ opening
    → All (λ q. q ≢ n) w.active
    → reconnect_success n link w ≡ some w'
    → w'.active ≢ w.active
    → ¬ All (IsOpen w'.store) w'.active
unfolding reconnect_success
reconnect_success-not-IsOpen n link w w' t read new others e changed =
    let (t1, read1, e1) = bind-eq-some (w.store n) _ e in
    let same : t1 ≡ t = some-injective _ _ (sym read1 ∙ read) in
    let store : Store = update w.store n (some (record t1 { link = link })) in
    let ((in_active, active'), rep, e2) =
      bind-eq-some (tunnel_set_replace store w.active t1.url n) _ e1 in
    let ((in_cache, cache'), rep_cache, e3) =
      bind-eq-some (tunnel_set_replace store w.cache t1.url n) _ e2 in
    found_cases in_active in_cache n (record t1 { link = link })
      (record w { store = store; active = active'; cache = cache' }) w' w.active
      (ap (λ (v : Tunnel). v.state) same ∙ new) (ground arith)
      (tunnel_set_replace-Replaced store t1.url n w.active (in_active, active') rep) others e3
      changed
