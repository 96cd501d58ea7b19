-- ===== src/PacketTrack.antt =====
-- src/packet_track.c: how often a packet was seen. The two static variables of `packet_track` are a
-- state that it takes and returns.
pub mod Bucket
pub mod Repeat
pub mod Examples
use reqrypt.Common.{
  ltb, leb, ◌==◌, if◌then◌else◌, ==_iff, Bool-cases, Option-cases, bind-ne-none, bind-eq-some,
  if-ne-none, length, get_elem?, get_or, set, take, drop, replicate, All, length-append, length-set,
  length-take, length-drop, length-replicate, get_elem?-set_self, get_elem?-set_ne,
  get_elem?-eq-get_or, take-append-drop, take-append, drop-append, drop-drop, get_elem?-ne-none,
  drop-set_lt, drop-set_ge, get_elem?-drop, get_elem?-take, get_elem?-append_left, drop-take,
  take_all, drop-append_of_eq, get_elem?-some, get_elem?-append_right, append-assoc_cons,
  get_elem?-inside, get_elem?-replicate, u8, u16, u32, u64, sub64, IsByte, IsBytes, ntohs, htons,
  u8_at, u16_at, u32_at, bytes_at, put_u8, put_u16, get_elem?-IsByte, u16_at-lt, drop-IsBytes,
  take-IsBytes, append-IsBytes, ℕ, zero, suc, ◌+◌, ◌-◌, ◌*◌, ◌/◌, ◌%◌, ◌^◌, ◌≤◌, ◌<◌, min, bit_and,
  bit_or, bit_xor, ◌≡◌, refl, sym, ap, ◌∙◌, ◌≢◌, ◌↔◌, ◌⊎◌, inl, inr, Bool, true, false, not, ◌&&◌,
  ◌||◌, Option, none, some, List, [], ◌∷◌, ◌++◌, map, arith,
}
use reqrypt.Common.Outcome.{Outcome, ok, panicked, fault, read, ◌>>=◌}
use reqrypt.Packet.{Headers, packet_init}

abbrev pub table_num_buckets : ℕ
table_num_buckets = 512

abbrev pub table_bucket_size : ℕ
table_bucket_size = 4

abbrev pub max_seq : ℕ
max_seq = 16777215

-- `struct packet_node_s`: a hash of 32 bits, a sequence number of 24 and a count of 8.
pub record PacketNode : Type 0 where
  pub hash : ℕ
  pub seq : ℕ
  pub rep : ℕ

pub record TrackState : Type 0 where
  pub packet_table : List (List PacketNode)
  pub seq : ℕ

abbrev pub empty_state : TrackState
empty_state = record {
  packet_table =
      replicate table_num_buckets
        (replicate table_bucket_size (record { hash = 0; seq = 0; rep = 0 }));
  seq = 0;
}

abbrev pub fnv_64_prime : ℕ
fnv_64_prime = 1099511628211

-- The FNV hash of the bytes, from `hash` on.
unfoldable pub data_hash : List ℕ → ℕ → ℕ
data_hash [] hash = hash
data_hash (b ∷ bs) hash = data_hash bs (u64 (bit_xor hash b * fnv_64_prime))

abbrev pub hash_start : ℕ
hash_start = 8153212335987042888

-- The fields of the IP header that are hashed: the protocol and the two addresses.
abbrev pub ip_fields : List ℕ → ℕ → Outcome (List ℕ)
ip_fields packet ip = do
  protocol ← read (bytes_at packet (ip + 9) 1)
  addresses ← read (bytes_at packet (ip + 12) 8)
  ok (protocol ++ addresses)

-- The ports, the two sequence numbers and the byte of flags of a TCP header, or the ports of a UDP
-- header; `udp_header` is followed even when it is NULL.
abbrev pub transport_fields : List ℕ → Option ℕ → Option ℕ → Outcome (List ℕ)
transport_fields packet (some tcp) udp = do
  fields ← read (bytes_at packet tcp 12)
  flags ← read (bytes_at packet (tcp + 13) 1)
  ok (fields ++ flags)
transport_fields packet none (some udp) = read (bytes_at packet udp 4)
transport_fields packet none none = fault

abbrev pub data_fields : List ℕ → Option ℕ → ℕ → Outcome (List ℕ)
data_fields packet none data_size = if data_size == 0 then ok [] else fault
data_fields packet (some off) data_size = read (bytes_at packet off data_size)

-- The hash reads the fields one after the other.
unfoldable pub packet_hash : List ℕ → Outcome ℕ
unfolding data_hash
packet_hash packet = do
  headers ← packet_init packet true
  ip ← read headers.ip_header
  network ← ip_fields packet ip
  transport ← transport_fields packet headers.tcp_header headers.udp_header
  bytes ← data_fields packet headers.start headers.data_size
  ok (
      data_hash
        (headers.data_size % 256
          ∷ headers.data_size / 256 % 256
          ∷ (network ++ (transport ++ bytes)))
        hash_start)

-- The shifts are by `sizeof(uint32_t)` and `sizeof(uint16_t)`, that is by 4 bits and by 2.
unfoldable pub fold_hash32 : ℕ → ℕ
fold_hash32 hash64 = bit_xor (u32 hash64) (u32 (hash64 / 2 ^ 4))

unfoldable pub fold_hash16 : ℕ → ℕ
fold_hash16 hash32 = bit_xor (u16 hash32) (u16 (hash32 / 2 ^ 2))

-- How the loop over a bucket ends: at a node with the hash, or with a node to replace.
pub data Slot : Type 0 where
  repeated : ℕ → Slot
  replaced : ℕ → Slot

-- The loop from the node `i` on. `max_diff` stays 0.
unfoldable pub find_slot : List PacketNode → ℕ → ℕ → ℕ → ℕ → Slot
find_slot [] i j hash seq = replaced j
find_slot (node ∷ nodes) i j hash seq =
    let rest =
      find_slot nodes (i + 1) (if ltb 0 ((seq + 2 ^ 32 - node.seq) % 2 ^ 32) then i else j) hash
        seq in
    if node.hash == hash then repeated i else rest

-- The bucket after the loop, and the count reported.
unfoldable pub update_bucket : List PacketNode → Slot → ℕ → ℕ → Outcome (ℕ × List PacketNode)
update_bucket bucket (repeated i) hash seq = do
  node ← read (get_elem? bucket i)
  ok (
    u8 (node.rep + 1),
    set bucket i (record { hash = node.hash; seq = seq; rep = u8 (node.rep + 1) }),
  )
update_bucket bucket (replaced j) hash seq =
    ok (0, set bucket j (record { hash = hash; seq = seq; rep = 0 }))

abbrev pub next_seq : ℕ → ℕ
next_seq seq = if seq == max_seq then 0 else seq + 1

-- The hash, the count of repetitions and the state after the call, for a packet with the hash.
unfoldable pub track_hash : TrackState → ℕ → Outcome (ℕ × ℕ × TrackState)
unfolding find_slot update_bucket
track_hash st hash64 = do
  let index = fold_hash16 (fold_hash32 hash64) % table_num_buckets
  bucket ← read (get_elem? st.packet_table index)
  (repeat, updated) ←
      update_bucket bucket (find_slot bucket 0 0 (fold_hash32 hash64) (next_seq st.seq))
        (fold_hash32 hash64) (next_seq st.seq)
  ok (
    hash64,
    repeat,
    record { packet_table = set st.packet_table index updated; seq = next_seq st.seq },
  )

unfoldable pub packet_track : TrackState → List ℕ → Outcome (ℕ × ℕ × TrackState)
unfolding packet_hash track_hash
packet_track st packet = do hash64 ← packet_hash packet; track_hash st hash64
