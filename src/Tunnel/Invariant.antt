-- ===== src/Tunnel/Invariant.antt =====
-- What the operations of src/tunnel.c keep of the active set: its tunnels are open and distinct.
use Prim.Native.String.{String}
use reqrypt.Common.{
  Bool-cases, bind-eq-some, get_elem?, All, ℕ, zero, suc, ◌≤◌, ◌<◌, ◌≡◌, refl, ap, ◌≢◌, inl, inr,
  Bool, true, false, Option, none, some, List, [], ◌∷◌, ◌++◌, arith,
}
use native.Mathlib.Decide.{dec_lt}
use mathlib.Core.Path.{subst}
use mathlib.Core.Option.{some-injective}
use reqrypt.Tunnel.{
  State, closed, opening, opened, dead, closing, deleting, Tunnel, Store, update, World,
  tunnel_create, set_state, free_by_state, tunnel_free, activated_by_state, is_open_or_opening,
  start_opening, tunnel_add, deleted_by_state, delete_found, delete_cached, add_found,
  tunnel_delete, open_closed, is_closed, tunnel_set_lookup, tunnel_set_delete, tunnel_init_age,
}
use reqrypt.Tunnel.Sets.{
  Removal, HasUrl, Deleted, tunnel_set_delete-Deleted, Removal-All, All-append, Distinct,
  Removal-Distinct, Distinct-append,
}

abbrev pub IsOpen : Store → ℕ → Type 0
IsOpen store p = (t : Tunnel) × (store p ≡ some t) × (t.state ≡ opened)

-- Every active tunnel is live and open, no tunnel is active twice, and nothing is stored at the
-- addresses that are still to be handed out.
pub record Inv (w : World) : Type 0 where
  pub all_open : All (IsOpen w.store) w.active
  pub distinct : Distinct w.active
  pub unused : (p : ℕ) → w.fresh ≤ p → w.store p ≡ none

live_below : (w : World) (p : ℕ) (t : Tunnel) → Inv w → w.store p ≡ some t → p < w.fresh
live_below w p t inv read = elim (dec_lt p w.fresh) [
  | yes h ↦ h
  | no h ↦ absurd (ground (arith, inv.unused p))
]

-- A change at a pointer outside a list leaves the list open.
update-IsOpen :
    (store : Store) (p : ℕ) (x : Option Tunnel) (ps : List ℕ)
    → All (λ q. q ≢ p) ps
    → All (IsOpen store) ps
    → All (IsOpen (update store p x)) ps
update-IsOpen store p x [] n h = tt
update-IsOpen store p x (q ∷ ps) (n, ns) ((t, read, open_), h) =
    ((t, ground arith, open_), update-IsOpen store p x ps ns h)

-- A tunnel in any other state is not among the open ones.
not_among :
    (store : Store) (p : ℕ) (t : Tunnel) (ps : List ℕ)
    → store p ≡ some t
    → t.state ≢ opened
    → All (IsOpen store) ps
    → All (λ q. q ≢ p) ps
not_among store p t [] read other h = tt
not_among store p t (q ∷ ps) read other ((u, read_u, open_), h) =
    (λ e. other (ground (arith, ap store e)), not_among store p t ps read other h)

-- A world whose active set is as it was, and whose store differs at one pointer outside that set.
Inv-elsewhere :
    (w : World) (p : ℕ) (x : Option Tunnel) (w' : World)
    → Inv w
    → All (λ q. q ≢ p) w.active
    → w'.active ≡ w.active
    → w'.store ≡ update w.store p x
    → w.fresh ≤ w'.fresh
    → p < w'.fresh
    → Inv w'
Inv-elsewhere w p x w' inv n ea es ef below = record {
  all_open = rw (ea, es) (update-IsOpen w.store p x w.active n inv.all_open);
  distinct = rw ea inv.distinct;
  unused = λ q h. rw es (ground (arith, inv.unused q));
}

free-Inv :
    (s : State) (w : World) (p : ℕ) (t : Tunnel)
    → Inv w
    → p < w.fresh
    → All (λ q. q ≢ p) w.active
    → Inv (free_by_state s w p t)
unfolding free_by_state
free-Inv opening w p t inv b n = Inv-elsewhere w p _ _ inv n refl refl (omega arith) b
free-Inv deleting w p t inv b n = inv
free-Inv closed w p t inv b n = Inv-elsewhere w p none _ inv n refl refl (omega arith) b
free-Inv opened w p t inv b n = Inv-elsewhere w p none _ inv n refl refl (omega arith) b
free-Inv dead w p t inv b n = Inv-elsewhere w p none _ inv n refl refl (omega arith) b
free-Inv closing w p t inv b n = Inv-elsewhere w p none _ inv n refl refl (omega arith) b

deleted-Inv :
    (s : State) (w w' : World) (p : ℕ) (t : Tunnel)
    → Inv w
    → p < w.fresh
    → All (λ q. q ≢ p) w.active
    → deleted_by_state s w p t ≡ some w'
    → Inv w'
unfolding deleted_by_state
deleted-Inv opening w w' p t inv b n e =
    subst Inv (some-injective _ _ e) (Inv-elsewhere w p _ _ inv n refl refl (omega arith) b)
deleted-Inv closing w w' p t inv b n e = subst Inv (some-injective _ _ e) inv
deleted-Inv opened w w' p t inv b n e =
    subst Inv (some-injective _ _ e) (Inv-elsewhere w p _ _ inv n refl refl (omega arith) b)
deleted-Inv closed w w' p t inv b n e = absurd (cc)
deleted-Inv dead w w' p t inv b n e = absurd (cc)
deleted-Inv deleting w w' p t inv b n e = absurd (cc)

-- A tunnel whose URL no active tunnel has is not active.
other_url :
    (store : Store) (url : String) (p : ℕ) (ps : List ℕ)
    → HasUrl store url true p
    → All (HasUrl store url false) ps
    → All (λ q. q ≢ p) ps
other_url store url p [] h hs = tt
other_url store url p (q ∷ ps) h (k, ks) =
    (λ e. cc (ap store e, h.stored, k.stored, h.same, k.same), other_url store url p ps h ks)

removed_active :
    (w : World) (p : ℕ) (rest : List ℕ)
    → Removal w.active p rest
    → Inv w
    → Inv (record w { active = rest }) × All (λ q. q ≢ p) rest
removed_active w p rest r inv =
    let (_, open_) = Removal-All (IsOpen w.store) r inv.all_open in
    let (others, ds) = Removal-Distinct r inv.distinct in
    (record { all_open = open_; distinct = ds; unused = inv.unused }, others)

cached-Inv :
    (url : String) (found : Option ℕ) (rest : List ℕ) (w w' : World)
    → Inv w
    → All (HasUrl w.store url false) w.active
    → Deleted w.store url w.cache (found, rest)
    → delete_cached found rest w ≡ some w'
    → Inv w'
unfolding delete_cached tunnel_free
cached-Inv url none rest w w' inv others d e = subst Inv (some-injective _ _ e) inv
cached-Inv url (some p) rest w w' inv others (_, has) e =
    let (t, read, e1) = bind-eq-some (w.store p) _ e in
    subst Inv (some-injective _ _ e1) (
      free-Inv t.state (record w { cache = rest }) p t
        (record { all_open = inv.all_open; distinct = inv.distinct; unused = inv.unused })
        (live_below w p t inv read) (other_url w.store url p w.active has others))

found-Inv :
    (url : String) (found : Option ℕ) (rest : List ℕ) (w w' : World)
    → Inv w
    → Deleted w.store url w.active (found, rest)
    → delete_found found rest url w ≡ some w'
    → Inv w'
unfolding delete_found
found-Inv url none rest w w' inv (_, others) e =
    let ((found, cache'), del, e1) = bind-eq-some (tunnel_set_delete w.store w.cache url) _ e in
    cached-Inv url found cache' w w' inv others
      (tunnel_set_delete-Deleted w.store url w.cache (found, cache') del) e1
found-Inv url (some p) rest w w' inv (removal, has) e =
    let (t, read, e1) = bind-eq-some (w.store p) _ e in
    let (inv', others) = removed_active w p rest removal inv in
    deleted-Inv t.state (record w { active = rest }) w' p t inv' (live_below w p t inv read) others
      e1

pub removed-Inv : (url : String) (w w' : World) → Inv w → tunnel_delete url w ≡ some w' → Inv w'
unfolding tunnel_delete
removed-Inv url w w' inv e =
    let ((found, rest), del, e1) = bind-eq-some (tunnel_set_delete w.store w.active url) _ e in
    found-Inv url found rest w w' inv
      (tunnel_set_delete-Deleted w.store url w.active (found, rest) del) e1

-- Opening a tunnel that is not open leaves the active set alone.
opening-Inv :
    (w : World) (p : ℕ) (t : Tunnel)
    → Inv w
    → w.store p ≡ some t
    → t.state ≢ opened
    → Inv (start_opening w p t)
opening-Inv w p t inv read other =
    Inv-elsewhere w p _ _ inv (not_among w.store p t w.active read other inv.all_open) refl refl
      (omega arith) (live_below w p t inv read)

closed-ne-opened : (s : State) → is_closed s ≡ true → s ≢ opened
closed-ne-opened s h e = ground arith

idle-ne-opened : (s : State) → is_open_or_opening s ≡ false → s ≢ opened
idle-ne-opened s h e = ground arith

pub scan-Inv :
    (left : ℕ) (ps : List ℕ) (w w' : World) → Inv w → open_closed left ps w ≡ some w' → Inv w'
unfolding open_closed
scan-Inv zero ps w w' inv e = subst Inv (some-injective _ _ e) inv
scan-Inv (suc left) [] w w' inv e = subst Inv (some-injective _ _ e) inv
scan-Inv (suc left) (p ∷ ps) w w' inv e =
    let (t, read, e1) = bind-eq-some (w.store p) _ e in
    elim (Bool-cases (is_closed t.state)) [
      | inl c ↦
          scan-Inv left ps (start_opening w p t) w'
            (opening-Inv w p t inv read (closed-ne-opened t.state c)) (ground arith)
      | inr o ↦ scan-Inv (suc left) ps w w' inv (ground arith)
    ]

not_fresh : (w : World) (ps : List ℕ) → Inv w → All (IsOpen w.store) ps → All (λ q. q ≢ w.fresh) ps
not_fresh w [] inv h = tt
not_fresh w (q ∷ ps) inv ((t, read, _), h) =
    (λ e. absurd (omega (arith, live_below w q t inv read)), not_fresh w ps inv h)

found_add-Inv :
    (found : Option ℕ) (url : String) (w w' : World)
    → Inv w
    → add_found found url w ≡ some w'
    → Inv w'
unfolding add_found tunnel_create
found_add-Inv none url w w' inv e =
    let (p, w1) = tunnel_create url tunnel_init_age w in
    let (t, read, e1) = bind-eq-some (w1.store p) _ e in
    subst Inv (some-injective _ _ e1) (
      opening-Inv (record w1 { cache = w1.cache ++ (p ∷ []) }) p t
        (Inv-elsewhere w w.fresh _ _ inv (not_fresh w w.active inv inv.all_open) refl refl
          (omega arith) (omega arith))
        read (λ o. ground arith))
found_add-Inv (some i) url w w' inv e =
    let (p, read_p, e1) = bind-eq-some (get_elem? w.cache i) _ e in
    let (t, read, e2) = bind-eq-some (w.store p) _ e1 in
    elim (Bool-cases (is_open_or_opening t.state)) [
      | inl o ↦ subst Inv (ground arith) inv
      | inr n ↦
          subst Inv {x = start_opening w p t} (ground arith)
            (opening-Inv w p t inv read (idle-ne-opened t.state n))
    ]

pub added-Inv :
    (valid : Bool) (url : String) (w w' : World) → Inv w → tunnel_add valid url w ≡ some w' → Inv w'
unfolding tunnel_add
added-Inv false url w w' inv e = subst Inv (some-injective _ _ e) inv
added-Inv true url w w' inv e =
    let (found, look, e1) = bind-eq-some (tunnel_set_lookup w.store w.cache url) _ e in
    found_add-Inv found url w w' inv e1

pub activated-Inv :
    (s : State) (w w' : World) (p : ℕ) (t u : Tunnel) (result : Bool)
    → Inv w
    → w.store p ≡ some u
    → u.state ≡ s
    → activated_by_state s w p t result ≡ some w'
    → Inv w'
unfolding activated_by_state tunnel_free
activated-Inv deleting w w' p t u result inv read same e =
    let n = not_among w.store p u w.active read (λ o. ground arith) inv.all_open in
    let b = live_below w p u inv read in
    let (t', read', e1) = bind-eq-some ((set_state w p t opened).store p) _ e in
    subst Inv (some-injective _ _ e1) (
      free-Inv t'.state (set_state w p t opened) p t'
        (Inv-elsewhere w p _ _ inv n refl refl (omega arith) b) b n)
activated-Inv closing w w' p t u result inv read same e =
    let n = not_among w.store p u w.active read (λ o. ground arith) inv.all_open in
    subst Inv (some-injective _ _ e)
      (Inv-elsewhere w p _ _ inv n refl refl (omega arith) (live_below w p u inv read))
activated-Inv opening w w' p t u true inv read same e =
    let n = not_among w.store p u w.active read (λ o. ground arith) inv.all_open in
    let b = live_below w p u inv read in
    subst Inv (some-injective _ _ e) (record {
      all_open =
          All-append _ w.active p (update-IsOpen w.store p _ w.active n inv.all_open)
            (record t { state = opened; age = tunnel_init_age }, ground arith, refl);
      distinct = Distinct-append w.active p inv.distinct n;
      unused = λ q h. ground (arith, inv.unused q);
    })
activated-Inv opening w w' p t u false inv read same e =
    let n = not_among w.store p u w.active read (λ o. ground arith) inv.all_open in
    subst Inv (some-injective _ _ e)
      (Inv-elsewhere w p _ _ inv n refl refl (omega arith) (live_below w p u inv read))
activated-Inv closed w w' p t u result inv read same e = absurd (cc)
activated-Inv opened w w' p t u result inv read same e = absurd (cc)
activated-Inv dead w w' p t u result inv read same e = absurd (cc)
