-- ===== src/Tunnel/Examples.antt =====
-- Tunnels of src/tunnel.c: one is added, opened and replaced.
use reqrypt.Common.{
  get_or, All, ℕ, ◌≡◌, refl, ap, true, false, Option, none, some, List, [], ◌∷◌, arith,
}
use reqrypt.Tunnel.{
  State, closed, opening, opened, Tunnel, World, update, tunnel_add, tunnel_activate, tunnel_create,
  add_found, activated_by_state, tunnel_set_lookup, tunnel_set_replace, tunnel_free, free_by_state,
}
use reqrypt.Tunnel.Sets.{Distinct}
use reqrypt.Tunnel.Invariant.{IsOpen}
use reqrypt.Tunnel.Steps.{added, activated, start, later, active-IsOpen}
use reqrypt.Tunnel.Reconnect.{reconnect_found, reconnect_success, reconnect_success-not-IsOpen}

-- The tunnel at address 0 when it is new, opening, and open with a link.
abbrev tunnel_in : State → Option ℕ → ℕ → Tunnel
tunnel_in state link id = record {
  link = link;
  state = state;
  reconnect = false;
  id = id;
  age = 16;
  url = "a";
}

-- After the tunnel is added, after its thread has opened it, while it is being replaced by the
-- tunnel at address 1, and after that.
abbrev added_world : World
added_world = record {
  store =
      update (update (λ p. none) 0 (some (tunnel_in closed none 0))) 0
        (some (tunnel_in opening none 0));
  fresh = 1;
  next_id = 1;
  cache = 0 ∷ [];
  active = [];
  ended = [];
  threads = 0 ∷ [];
}

abbrev open_world : World
open_world = record added_world {
  store = update added_world.store 0 (some (tunnel_in opened (some 7) 0));
  active = 0 ∷ [];
  threads = [];
}

abbrev replacing_world : World
replacing_world = record open_world {
  store =
      update (update open_world.store 1 (some (tunnel_in closed none 1))) 1
        (some (tunnel_in opening none 1));
  fresh = 2;
  next_id = 2;
}

abbrev replaced_world : World
replaced_world = record replacing_world {
  store = update (update replacing_world.store 1 (some (tunnel_in opening (some 9) 1))) 0 none;
  cache = 1 ∷ [];
  active = 1 ∷ [];
  ended = some 7 ∷ [];
}

active-IsOpen_example : All (IsOpen open_world.store) open_world.active × Distinct open_world.active
unfolding tunnel_add add_found tunnel_create tunnel_activate activated_by_state tunnel_set_lookup
active-IsOpen_example = active-IsOpen {w = open_world} (
    later {u = added_world} (later start (added true "a" refl))
      (activated 0 [] [] (some 7) true refl refl))

reconnect_success-not-IsOpen_example : ¬ All (IsOpen replaced_world.store) replaced_world.active
unfolding reconnect_success reconnect_found tunnel_set_replace tunnel_free free_by_state
reconnect_success-not-IsOpen_example =
    reconnect_success-not-IsOpen 1 (some 9) replacing_world replaced_world
      (tunnel_in opening none 1) refl refl ((λ e. omega arith), tt) refl
      (λ e. let h : 1 ≡ 0 = ap (λ (l : List ℕ). get_or l 0 0) e in omega arith)
