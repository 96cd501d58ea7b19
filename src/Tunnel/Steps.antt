-- ===== src/Tunnel/Steps.antt =====
-- The operations of src/tunnel.c that run under its lock, as steps, without reconnection: under
-- these every active tunnel is open, which a comment in `tunnel_delete` asks.
use Prim.Native.String.{String}
use reqrypt.Common.{bind-eq-some, All, ℕ, ◌≡◌, refl, Bool, Option, none, some, List, [], ◌∷◌, ◌++◌}
use reqrypt.Tunnel.{World, tunnel_activate, tunnel_add, tunnel_delete, activate_round}
use reqrypt.Tunnel.Sets.{Distinct}
use reqrypt.Tunnel.Invariant.{IsOpen, Inv, removed-Inv, scan-Inv, added-Inv, activated-Inv}

-- `activated` is the end of a `tunnel_activate` thread, with any outcome of `cktp_open_tunnel`.
pub data Step (w w' : World) : Type 0 where
  added : (valid : Bool) (url : String) → tunnel_add valid url w ≡ some w' → Step w w'
  removed : (url : String) → tunnel_delete url w ≡ some w' → Step w w'
  scanned : activate_round w ≡ some w' → Step w w'
  activated :
      (p : ℕ) (xs ys : List ℕ) (link : Option ℕ) (result : Bool)
      → w.threads ≡ xs ++ (p ∷ ys)
      → tunnel_activate p link result (record w { threads = xs ++ ys }) ≡ some w'
      → Step w w'

pub data Reach (w : World) : World → Type 0 where
  start : Reach w w
  later : {u v : World} → Reach w u → Step u v → Reach w v

-- Each step keeps the invariant.
pub Step-Inv : {w w' : World} → Step w w' → Inv w → Inv w'
unfolding activate_round tunnel_activate
Step-Inv {w} {w'} (added valid url e) inv = added-Inv valid url w w' inv e
Step-Inv {w} {w'} (removed url e) inv = removed-Inv url w w' inv e
Step-Inv {w} {w'} (scanned e) inv = scan-Inv _ w.cache w w' inv e
Step-Inv {w} {w'} (activated p xs ys link result _ e) inv =
    let (u, read, e1) = bind-eq-some (w.store p) _ e in
    activated-Inv u.state (record w { threads = xs ++ ys }) w' p (record u { link = link }) u result
      (record { all_open = inv.all_open; distinct = inv.distinct; unused = inv.unused }) read refl
      e1

-- Before the first tunnel.
abbrev pub init : World
init = record {
  store = λ p. none;
  fresh = 0;
  next_id = 0;
  cache = [];
  active = [];
  ended = [];
  threads = [];
}

-- The question of the comment in `tunnel_delete`, without reconnection: in every state that adding,
-- deleting, activating and the activation manager can reach, in any order and with any outcome of
-- opening a link, every tunnel of the active set is live and in state OPEN, and none is there twice.
pub active-IsOpen : {w : World} → Reach init w → All (IsOpen w.store) w.active × Distinct w.active
active-IsOpen r = let inv = invariant r in (inv.all_open, inv.distinct)
  where
    invariant : {w : World} → Reach init w → Inv w
    invariant start = record { all_open = tt; distinct = tt; unused = λ p h. refl }
    invariant (later r st) = Step-Inv st (invariant r)
