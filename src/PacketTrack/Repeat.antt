-- ===== src/PacketTrack/Repeat.antt =====
-- What `packet_track` of src/packet_track.c reports, and what it keeps.
use mathlib.Core.Path.{subst}
use native.Mathlib.Nat.{mod-lt}
use reqrypt.Common.{
  ◌==◌, Bool-cases, length, get_elem?, set, length-set, get_elem?-set_self, get_elem?-set_ne,
  get_elem?-some, u8, ℕ, ◌+◌, ◌%◌, ◌≤◌, ◌<◌, ◌≡◌, sym, ap, ◌∙◌, ◌≢◌, inl, inr, some, List, arith,
}
use reqrypt.Common.Outcome.{ok}
use reqrypt.PacketTrack.{
  PacketNode, TrackState, repeated, find_slot, update_bucket, track_hash, packet_track, packet_hash,
  fold_hash32, fold_hash16, next_seq, max_seq, table_num_buckets, table_bucket_size,
}
use reqrypt.PacketTrack.Bucket.{FirstAt, find_slot-Found, find_slot_first, update_bucket-IsUpdated}

-- The table has its 512 buckets, none of them empty.
pub record IsTable (st : TrackState) : Type 0 where
  pub buckets : length st.packet_table ≡ table_num_buckets
  pub sized :
      (i : ℕ) (bucket : List PacketNode)
      → get_elem? st.packet_table i ≡ some bucket
      → length bucket ≡ table_bucket_size
  pub seq_fits : st.seq ≤ max_seq

-- The hash is in the bucket where `packet_track` looks for it, with the count `r`.
record IsTracked (st : TrackState) (hash64 r : ℕ) : Type 0 where
  bucket : List PacketNode
  stored :
      get_elem? st.packet_table (fold_hash16 (fold_hash32 hash64) % table_num_buckets) ≡ some bucket
  k : ℕ
  first : FirstAt (fold_hash32 hash64) bucket k
  counted : (node : PacketNode) × (get_elem? bucket k ≡ some node) × (node.rep ≡ r)

next_seq-le : (n : ℕ) → n ≤ max_seq → next_seq n ≤ max_seq
next_seq-le n h = ground arith

-- The state after the call, when the bucket of the hash becomes `bucket`.
abbrev stored_state : TrackState → ℕ → List PacketNode → TrackState
stored_state st hash64 bucket = record {
  packet_table = set st.packet_table (fold_hash16 (fold_hash32 hash64) % table_num_buckets) bucket;
  seq = next_seq st.seq;
}

stored_state-IsTable :
    (st : TrackState) (hash64 : ℕ) (bucket : List PacketNode)
    → IsTable st
    → length bucket ≡ table_bucket_size
    → IsTable (stored_state st hash64 bucket)
stored_state-IsTable st hash64 bucket t len =
    let index : ℕ = fold_hash16 (fold_hash32 hash64) % table_num_buckets in
    record {
      buckets = length-set st.packet_table index bucket ∙ t.buckets;
      sized = λ i b e. elim (Bool-cases (index == i)) [
        | inl same ↦
            let at : index ≡ i = ground arith in
            let inside : index < length st.packet_table =
              rw t.buckets (mod-lt (fold_hash16 (fold_hash32 hash64)) (omega arith)) in
            let e1 : get_elem? (set st.packet_table index bucket) i ≡ some bucket =
              subst (λ k. get_elem? (set st.packet_table index bucket) k ≡ some bucket) at
                (get_elem?-set_self st.packet_table index bucket inside) in
            let eq : bucket ≡ b = cc in subst (λ l. length l ≡ table_bucket_size) eq len
        | inr other ↦
            let differs : index ≢ i = ground arith in
            t.sized i b (sym (get_elem?-set_ne st.packet_table index i bucket differs) ∙ e)
      ];
      seq_fits = next_seq-le st.seq t.seq_fits;
    }

track_hash-IsTracked :
    (st : TrackState) (hash64 : ℕ)
    → IsTable st
    → (r : ℕ) × (st1 : TrackState) × (track_hash st hash64 ≡ ok (hash64, r, st1))
      × IsTable st1
      × IsTracked st1 hash64 r
unfolding track_hash
track_hash-IsTracked st hash64 t =
    let index : ℕ = fold_hash16 (fold_hash32 hash64) % table_num_buckets in
    let inside : index < length st.packet_table =
      rw t.buckets (mod-lt (fold_hash16 (fold_hash32 hash64)) (omega arith)) in
    let (bucket, stored) = get_elem?-some st.packet_table index inside in
    let len = t.sized index bucket stored in
    let (r, bucket1, k, updated, u) =
      update_bucket-IsUpdated bucket (find_slot bucket 0 0 (fold_hash32 hash64) (next_seq st.seq))
        (fold_hash32 hash64) (next_seq st.seq) (rw len (omega arith))
        (find_slot-Found bucket 0 0 (fold_hash32 hash64) (next_seq st.seq)) in
    (
      r,
      stored_state st hash64 bucket1,
      rw (stored, updated),
      stored_state-IsTable st hash64 bucket1 t (u.same_length ∙ len),
      record {
        bucket = bucket1;
        stored = get_elem?-set_self st.packet_table index bucket1 inside;
        k = k;
        first = u.first;
        counted = u.counted;
      },
    )

track_hash-again :
    (st : TrackState) (hash64 r : ℕ)
    → IsTracked st hash64 r
    → (st1 : TrackState) × (track_hash st hash64 ≡ ok (hash64, u8 (r + 1), st1))
unfolding track_hash update_bucket
track_hash-again st hash64 r t =
    let (node, read_node, rep) = t.counted in
    let new : PacketNode = record {
      hash = node.hash;
      seq = next_seq st.seq;
      rep = u8 (node.rep + 1);
    } in
    let found : find_slot t.bucket 0 0 (fold_hash32 hash64) (next_seq st.seq) ≡ repeated t.k =
      find_slot_first t.bucket 0 0 (fold_hash32 hash64) (next_seq st.seq) t.k t.first
      ∙ ap repeated (omega arith) in
    (stored_state st hash64 (set t.bucket t.k new), rw (t.stored, found, read_node, rep))

-- For a packet whose hash can be computed, and a table of 512 buckets of four nodes, tracking
-- succeeds and keeps the shape of the table; when the same packet is tracked again right after, the
-- call reports one repetition more, modulo 256.
pub packet_track-repeat :
    (st : TrackState) (packet : List ℕ) (hash64 : ℕ)
    → IsTable st
    → packet_hash packet ≡ ok hash64
    → (r : ℕ) × (st1 : TrackState) × (st2 : TrackState) × (packet_track st packet
        ≡ ok (hash64, r, st1))
      × IsTable st1
      × (packet_track st1 packet ≡ ok (hash64, u8 (r + 1), st2))
unfolding packet_track
packet_track-repeat st packet hash64 t hashed =
    let (r, st1, tracked, t1, at) = track_hash-IsTracked st hash64 t in
    let (st2, again) = track_hash-again st1 hash64 r at in
    (r, st1, st2, rw (hashed, tracked), t1, rw (hashed, again))
