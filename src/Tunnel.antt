-- ===== src/Tunnel.antt =====
-- src/tunnel.c: the tunnels of the client, the set of cached ones and the set of active ones. The
-- sets hold pointers, so that one tunnel is seen through both; a pointer is an address of a store.
-- `none` as the result of an operation is a freed or NULL pointer followed, or a `panic`.
pub mod Invariant
pub mod Sets
pub mod Steps
pub mod Reconnect
pub mod Examples
use text.Mathlib.Text.{◌==◌ as str_eq}
use Prim.Native.String.{String}
use reqrypt.Common.{
  ltb, leb, ◌==◌, if◌then◌else◌, ==_iff, Bool-cases, Option-cases, ◌>>=◌, bind-ne-none,
  bind-eq-some, if-ne-none, length, get_elem?, get_or, set, take, drop, replicate, All,
  length-append, length-set, length-take, length-drop, length-replicate, get_elem?-set_self,
  get_elem?-set_ne, get_elem?-eq-get_or, take-append-drop, take-append, drop-append, drop-drop,
  get_elem?-ne-none, drop-set_lt, drop-set_ge, get_elem?-drop, get_elem?-take,
  get_elem?-append_left, drop-take, take_all, drop-append_of_eq, u8, u16, u32, u64, sub64, IsByte,
  IsBytes, ntohs, htons, u8_at, u16_at, u32_at, bytes_at, put_u8, put_u16, get_elem?-IsByte,
  u16_at-lt, drop-IsBytes, take-IsBytes, append-IsBytes, ℕ, zero, suc, ◌+◌, ◌-◌, ◌*◌, ◌/◌, ◌%◌, ◌^◌,
  ◌≤◌, ◌<◌, min, bit_and, bit_or, bit_xor, ◌≡◌, refl, sym, ap, ◌∙◌, ◌≢◌, ◌↔◌, ◌⊎◌, inl, inr, Bool,
  true, false, not, ◌&&◌, ◌||◌, Option, none, some, List, [], ◌∷◌, ◌++◌, map, arith,
}

pub data State : Type 0 where
  closed opening opened dead closing deleting : State

-- `link` is the CKTP tunnel below, `none` for NULL.
pub record Tunnel : Type 0 where
  pub link : Option ℕ
  pub state : State
  pub reconnect : Bool
  pub id : ℕ
  pub age : ℕ
  pub url : String

abbrev pub tunnel_init_age : ℕ
tunnel_init_age = 16

abbrev pub Store : Type 0
Store = ℕ → Option Tunnel

abbrev pub update : Store → ℕ → Option Tunnel → Store
update store p t q = if p == q then t else store q

-- The global state. `ended` lists the links given to `cktp_close_tunnel`, latest first, and
-- `threads` the tunnels on which a thread runs `tunnel_activate`.
pub record World : Type 0 where
  pub store : Store
  pub fresh : ℕ
  pub next_id : ℕ
  pub cache : List ℕ
  pub active : List ℕ
  pub ended : List (Option ℕ)
  pub threads : List ℕ

-- `tunnel_set_lookup`: `some none` is the -1.
pub tunnel_set_lookup : Store → List ℕ → String → Option (Option ℕ)
tunnel_set_lookup store [] url = some none
tunnel_set_lookup store (p ∷ ps) url = do
  t ← store p
  rest ← tunnel_set_lookup store ps url
  some (if str_eq t.url url then some 0 else elim rest [ none ↦ none | some i ↦ some (suc i) ])

-- `tunnel_set_delete`: the tunnel removed and the set without it.
pub tunnel_set_delete : Store → List ℕ → String → Option (Option ℕ × List ℕ)
tunnel_set_delete store [] url = some (none, [])
tunnel_set_delete store (p ∷ ps) url = do
  t ← store p
  (found, rest) ← tunnel_set_delete store ps url
  some (if str_eq t.url url then (some p, ps) else (found, p ∷ rest))

-- `tunnel_set_replace`: the tunnel replaced and the set with `new` in its place.
pub tunnel_set_replace : Store → List ℕ → String → ℕ → Option (Option ℕ × List ℕ)
tunnel_set_replace store [] url new = some (none, [])
tunnel_set_replace store (p ∷ ps) url new = do
  t ← store p
  (found, rest) ← tunnel_set_replace store ps url new
  some (if str_eq t.url url then (some p, new ∷ ps) else (found, p ∷ rest))

-- `tunnel_create`: the id counter is a `uint16_t`.
pub tunnel_create : String → ℕ → World → ℕ × World
tunnel_create url age w = (
  w.fresh,
  record w {
    store = update w.store w.fresh (
        some (record {
          link = none;
          state = closed;
          reconnect = false;
          id = w.next_id;
          age = age;
          url = url;
        }));
    fresh = w.fresh + 1;
    next_id = u16 (w.next_id + 1);
  },
)

abbrev pub set_state : World → ℕ → Tunnel → State → World
set_state w p t s = record w { store = update w.store p (some (record t { state = s })) }

-- `cktp_close_tunnel(tunnel->tunnel)`, and the tunnel with what is then assigned to its fields.
abbrev pub end_link : World → ℕ → Tunnel → Option Tunnel → World
end_link w p t t' = record w { store = update w.store p t'; ended = t.link ∷ w.ended }

pub free_by_state : State → World → ℕ → Tunnel → World
free_by_state opening w p t = set_state w p t deleting
free_by_state deleting w p t = w
free_by_state closed w p t = end_link w p t none
free_by_state opened w p t = end_link w p t none
free_by_state dead w p t = end_link w p t none
free_by_state closing w p t = end_link w p t none

pub tunnel_free : ℕ → World → Option World
tunnel_free p w = do t ← w.store p; some (free_by_state t.state w p t)

-- The end of `tunnel_activate`, under the lock: `link` is what `tunnel_try_activate` left in
-- `tunnel->tunnel`, and `result` what it returned.
pub activated_by_state : State → World → ℕ → Tunnel → Bool → Option World
activated_by_state deleting w p t result = tunnel_free p (set_state w p t opened)
activated_by_state closing w p t result =
    some (end_link w p t (some (record t { state = closed; link = none })))
activated_by_state opening w p t true = some (record w {
  store = update w.store p (some (record t { state = opened; age = tunnel_init_age }));
  active = w.active ++ (p ∷ []);
})
activated_by_state opening w p t false =
    some (record w { store = update w.store p (some (record t { state = dead; age = t.age - 1 })) })
activated_by_state closed w p t result = none
activated_by_state opened w p t result = none
activated_by_state dead w p t result = none

-- `while (tunnel->state == TUNNEL_STATE_OPENING)` returns true at once in any other state.
pub tunnel_activate : ℕ → Option ℕ → Bool → World → Option World
tunnel_activate p link result w = do
  t ← w.store p
  activated_by_state t.state w p (record t { link = link }) result

abbrev pub is_open_or_opening : State → Bool
is_open_or_opening opened = true
is_open_or_opening opening = true
is_open_or_opening closed = false
is_open_or_opening dead = false
is_open_or_opening closing = false
is_open_or_opening deleting = false

-- `tunnel->state = TUNNEL_STATE_OPENING` and a thread for `tunnel_activate`.
abbrev pub start_opening : World → ℕ → Tunnel → World
start_opening w p t = record (set_state w p t opening) { threads = p ∷ w.threads }

-- Both cases of `tunnel_add`, by the index that `tunnel_set_lookup` found in the cache.
pub add_found : Option ℕ → String → World → Option World
add_found none url w =
    let (p, w') = tunnel_create url tunnel_init_age w in
    do t ← w'.store p; some (start_opening (record w' { cache = w'.cache ++ (p ∷ []) }) p t)
add_found (some i) url w = do
  p ← get_elem? w.cache i
  t ← w.store p
  some (if is_open_or_opening t.state then w else start_opening w p t)

-- `tunnel_add`, behind the check of the syntax of the URL, `valid`.
pub tunnel_add : Bool → String → World → Option World
tunnel_add false url w = some w
tunnel_add true url w = do found ← tunnel_set_lookup w.store w.cache url; add_found found url w

pub deleted_by_state : State → World → ℕ → Tunnel → Option World
deleted_by_state opening w p t = some (set_state w p t closing)
deleted_by_state closing w p t = some w
deleted_by_state opened w p t =
    some (end_link w p t (some (record t { link = none; state = closed })))
deleted_by_state closed w p t = none
deleted_by_state dead w p t = none
deleted_by_state deleting w p t = none

pub delete_cached : Option ℕ → List ℕ → World → Option World
delete_cached none cache' w = some w
delete_cached (some p) cache' w = tunnel_free p (record w { cache = cache' })

-- The cases of `tunnel_delete`, by what `tunnel_set_delete` removed from the active set.
pub delete_found : Option ℕ → List ℕ → String → World → Option World
delete_found none active' url w = do
  (in_cache, cache') ← tunnel_set_delete w.store w.cache url
  delete_cached in_cache cache' w
delete_found (some p) active' url w = do
  t ← w.store p
  deleted_by_state t.state (record w { active = active' }) p t

pub tunnel_delete : String → World → Option World
tunnel_delete url w = do
  (in_active, active') ← tunnel_set_delete w.store w.active url
  delete_found in_active active' url w

abbrev pub max_init_open : ℕ
max_init_open = 8

abbrev pub is_closed : State → Bool
is_closed closed = true
is_closed opening = false
is_closed opened = false
is_closed dead = false
is_closed closing = false
is_closed deleting = false

-- The loop of `tunnel_activate_manager` over the cache, with `max - j` tunnels left to open.
pub open_closed : ℕ → List ℕ → World → Option World
open_closed zero ps w = some w
open_closed (suc left) [] w = some w
open_closed (suc left) (p ∷ ps) w = do
  t ← w.store p
  let opens = open_closed left ps (start_opening w p t)
  let skips = open_closed (suc left) ps w
  if is_closed t.state then opens else skips

-- One round of `tunnel_activate_manager`; `max` is a `size_t`.
pub activate_round : World → Option World
activate_round w = open_closed (u64 (sub64 max_init_open (length w.active) + 1)) w.cache w
