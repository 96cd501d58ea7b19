-- ===== src/PacketTrack/Bucket.antt =====
-- The loop of `packet_track` in src/packet_track.c over one bucket.
use reqrypt.Common.{
  ltb, ◌==◌, if◌then◌else◌, Bool-cases, length, get_elem?, set, All, length-set, get_elem?-set_self,
  get_elem?-inside, u8, ℕ, zero, suc, ◌+◌, ◌-◌, ◌%◌, ◌^◌, ◌<◌, ◌≡◌, refl, ap, ◌≢◌, ◌⊎◌, inl, inr,
  Bool, true, false, some, List, [], ◌∷◌, arith,
}
use reqrypt.Common.Outcome.{ok}
use reqrypt.PacketTrack.{PacketNode, Slot, repeated, replaced, find_slot, update_bucket}

-- The first node of the bucket with the hash stands at `k`.
abbrev pub FirstAt : ℕ → List PacketNode → ℕ → Type 0
FirstAt hash [] k = ⊥
FirstAt hash (node ∷ nodes) zero = node.hash ≡ hash
FirstAt hash (node ∷ nodes) (suc k) = (node.hash ≢ hash) × FirstAt hash nodes k

-- What the loop over the bucket found.
abbrev Found : ℕ → List PacketNode → ℕ → ℕ → Slot → Type 0
Found hash nodes i j (repeated m) = (k : ℕ) × (m ≡ i + k) × FirstAt hash nodes k
Found hash nodes i j (replaced m) =
    All (λ node. node.hash ≢ hash) nodes × ((m ≡ j) ⊎ (m < i + length nodes))

Found-cons :
    (node : PacketNode) (nodes : List PacketNode) (i j j1 hash : ℕ) (slot : Slot)
    → (node.hash ≢ hash)
    → ((j1 ≡ i) ⊎ (j1 ≡ j))
    → Found hash nodes (i + 1) j1 slot
    → Found hash (node ∷ nodes) i j slot
Found-cons node nodes i j j1 hash (repeated m) miss from (k, e, h) = (suc k, omega arith, (miss, h))
Found-cons node nodes i j j1 hash (replaced m) miss from (a, inl e) =
    ((miss, a), elim from [ inl p ↦ inr (omega arith) | inr p ↦ inl (omega arith) ])
Found-cons node nodes i j j1 hash (replaced m) miss from (a, inr lt) =
    ((miss, a), inr (omega arith))

pick : (b : Bool) (i j : ℕ) → ((if b then i else j) ≡ i) ⊎ ((if b then i else j) ≡ j)
pick true i j = inl refl
pick false i j = inr refl

pub find_slot-Found :
    (nodes : List PacketNode) (i j hash seq : ℕ)
    → Found hash nodes i j (find_slot nodes i j hash seq)
unfolding find_slot
find_slot-Found [] i j hash seq = (tt, inl refl)
find_slot-Found (node ∷ nodes) i j hash seq = elim (Bool-cases (node.hash == hash)) [
  | inl hit ↦ rw hit (0, omega arith, ground arith)
  | inr miss ↦
      let newer = ltb 0 ((seq + 2 ^ 32 - node.seq) % 2 ^ 32) in
      let differs : node.hash ≢ hash = ground arith in
      rw miss (
        Found-cons node nodes i j (if newer then i else j) hash
          (find_slot nodes (i + 1) (if newer then i else j) hash seq) differs (pick newer i j)
          (find_slot-Found nodes (i + 1) (if newer then i else j) hash seq))
]

pub find_slot_first :
    (nodes : List PacketNode) (i j hash seq k : ℕ)
    → FirstAt hash nodes k
    → find_slot nodes i j hash seq ≡ repeated (i + k)
unfolding find_slot
find_slot_first [] i j hash seq k h = elim h [ ]
find_slot_first (node ∷ nodes) i j hash seq zero h =
    let hit : (node.hash == hash) ≡ true = ground arith in rw hit (ap repeated (omega arith))
find_slot_first (node ∷ nodes) i j hash seq (suc k) (miss, h) =
    let skip : (node.hash == hash) ≡ false = ground arith in
    rw
      (
        skip,
        find_slot_first nodes (i + 1) (if ltb 0 ((seq + 2 ^ 32 - node.seq) % 2 ^ 32) then i else j)
            hash seq k h,
      )
      (ap repeated (omega arith))

set-FirstAt :
    (nodes : List PacketNode) (hash k : ℕ) (new : PacketNode)
    → new.hash ≡ hash
    → FirstAt hash nodes k
    → FirstAt hash (set nodes k new) k
set-FirstAt [] hash k new e h = elim h [ ]
set-FirstAt (node ∷ nodes) hash zero new e h = e
set-FirstAt (node ∷ nodes) hash (suc k) new e (miss, h) = (miss, set-FirstAt nodes hash k new e h)

replace-FirstAt :
    (nodes : List PacketNode) (hash k : ℕ) (new : PacketNode)
    → new.hash ≡ hash
    → k < length nodes
    → All (λ node. node.hash ≢ hash) nodes
    → FirstAt hash (set nodes k new) k
replace-FirstAt [] hash k new e h a = absurd (omega arith)
replace-FirstAt (node ∷ nodes) hash zero new e h a = e
replace-FirstAt (node ∷ nodes) hash (suc k) new e h (miss, a) =
    (miss, replace-FirstAt nodes hash k new e (omega arith) a)

FirstAt-get_elem? :
    (nodes : List PacketNode) (hash k : ℕ)
    → FirstAt hash nodes k
    → (node : PacketNode) × (get_elem? nodes k ≡ some node) × (node.hash ≡ hash)
FirstAt-get_elem? [] hash k h = elim h [ ]
FirstAt-get_elem? (node ∷ nodes) hash zero h = (node, refl, h)
FirstAt-get_elem? (node ∷ nodes) hash (suc k) (_, h) = FirstAt-get_elem? nodes hash k h

-- The update leaves the node with the hash first, with the count that was reported.
pub record IsUpdated (hash r : ℕ) (bucket bucket1 : List PacketNode) (k : ℕ) : Type 0 where
  pub first : FirstAt hash bucket1 k
  pub counted : (node : PacketNode) × (get_elem? bucket1 k ≡ some node) × (node.rep ≡ r)
  pub same_length : length bucket1 ≡ length bucket

pub update_bucket-IsUpdated :
    (bucket : List PacketNode) (slot : Slot) (hash seq : ℕ)
    → 0 < length bucket
    → Found hash bucket 0 0 slot
    → (r : ℕ) × (bucket1 : List PacketNode) × (k : ℕ) × (update_bucket bucket slot hash seq
        ≡ ok (r, bucket1))
      × IsUpdated hash r bucket bucket1 k
unfolding update_bucket
update_bucket-IsUpdated bucket (repeated i) hash seq some_node (k, e, h) =
    let (node, read_node, same) = FirstAt-get_elem? bucket hash k h in
    let new : PacketNode = record { hash = node.hash; seq = seq; rep = u8 (node.rep + 1) } in
    let inside : k < length bucket = get_elem?-inside bucket k node read_node in
    let at : i ≡ k = omega arith in
    (
      u8 (node.rep + 1),
      set bucket k new,
      k,
      rw (at, read_node),
      record {
        first = set-FirstAt bucket hash k new same h;
        counted = (new, get_elem?-set_self bucket k new inside, refl);
        same_length = length-set bucket k new;
      },
    )
update_bucket-IsUpdated bucket (replaced j) hash seq some_node (a, from) =
    let new : PacketNode = record { hash = hash; seq = seq; rep = 0 } in
    let inside : j < length bucket = elim from [ inl e ↦ omega arith | inr lt ↦ omega arith ] in
    (
      0,
      set bucket j new,
      j,
      refl,
      record {
        first = replace-FirstAt bucket hash j new refl inside a;
        counted = (new, get_elem?-set_self bucket j new inside, refl);
        same_length = length-set bucket j new;
      },
    )
