-- ===== src/PacketDispatch/Dispatch.antt =====
-- `packet_dispatch` of src/packet_dispatch.c, around its fragment functions. `beyond` is the byte
-- behind a packet, `scratch` what the buffer holds where the data of a ghost packet is written,
-- `unset` what the fresh memory of the generator of random numbers holds, and `junk` the number
-- that is drawn for a checksum.
use reqrypt.Common.{
  ltb, leb, ◌==◌, if◌then◌else◌, drop, u16, u64, sub64, htons, u8_at, u32_at, bytes_at, put_u8,
  put_u16, ℕ, zero, suc, ◌+◌, ◌-◌, ◌*◌, ◌/◌, ◌%◌, Bool, true, false, not, ◌&&◌, Option, none, some,
  List, [], ◌∷◌, ◌++◌,
}
use reqrypt.Common.Outcome.{Outcome, ok, fault, panicked, read, ◌>>=◌}
use reqrypt.Config.{
  Config, split_none, split_partial, ghost_nat, ghost_always, frag_network, frag_transport,
}
use reqrypt.Packet.{Headers, packet_init, sizeof_ethhdr}
use reqrypt.Checksum.{tcp_checksum, udp_checksum}
use reqrypt.PacketDispatch.{
  Fragments, deref, write_check, ip_fragment, tcp_fragment, is_ipv4_local_address, split_hash,
}
use reqrypt.PacketProtocol.Table.{Proto, protocol_get_def, over_data}

-- The walk over the TCP options from `opts` on, at the option `i`: the packet with the size of
-- segments replaced, `none` where the fuel runs out.
unfoldable pub replace_mss : ℕ → List ℕ → ℕ → ℕ → ℕ → Outcome (Option (List ℕ))
replace_mss zero packet opts size i = ok none
replace_mss (suc fuel) packet opts size i = if leb size i then ok (some packet) else (do
  kind ← read (u8_at packet (opts + i))
  if kind == 0
      then ok (some packet)
      else if kind == 1
      then replace_mss fuel packet opts size (i + 1)
      else if kind == 2
      then ok (some (put_u16 packet (opts + 2) (htons 1280)))
      else (do
        len ← read (u8_at packet (opts + i + 1))
        replace_mss fuel packet opts size (u64 (u64 (i + sub64 len 1) + 1))))

-- Only a packet that opens a connection is changed.
unfoldable pub mangle_syn : ℕ → List ℕ → ℕ → Outcome (Option (List ℕ))
unfolding replace_mss
mangle_syn fuel packet tcp = do
  flags ← read (u8_at packet (tcp + 13))
  doff ← read (u8_at packet (tcp + 12))
  if flags / 2 % 2 == 1
      then replace_mss fuel packet (tcp + 20) (sub64 (doff / 16 * 4) 20) 0
      else ok (some packet)

-- Where the name from `start` to `stop` is cut.
unfoldable pub split_length : ℕ → ℕ → ℕ → ℕ → ℕ
split_length split start stop packet_hash =
    let range = sub64 stop start in
    let split_range = if ltb range 4 then 0 else range - 3 in
    if split == split_partial then start + 1 + split_hash packet_hash % (split_range + 1) else stop

-- Which of the two fragment functions is called.
unfoldable pub fragment : ℕ → Option ℕ → List ℕ → ℕ → Outcome Fragments
unfolding ip_fragment tcp_fragment
fragment how ip_header packet split_len =
    if how == frag_network
    then elim ip_header [
      | none ↦ tcp_fragment packet split_len
      | some i ↦ ip_fragment packet split_len
    ]
    else if how == frag_transport
    then tcp_fragment packet split_len
    else panicked

-- The packets that take the normal route, and the IP packets that are tunneled.
pub record Dispatched : Type 0 where
  pub allowed : List (List ℕ)
  pub tunneled : List (List ℕ)

-- The second fragment takes the normal route, the first one is tunneled.
unfoldable pub dispatch_fragments : Fragments → Dispatched
dispatch_fragments fragments = record {
  allowed = elim fragments.second [ none ↦ [] | some second ↦ second ∷ [] ];
  tunneled = drop sizeof_ethhdr fragments.first ∷ [];
}

unfoldable pub use_ghost : Config → List ℕ → Option ℕ → Outcome Bool
use_ghost config packet ip_header =
    if config.ghost == ghost_nat
    then (do
      ip ← deref ip_header
      saddr ← read (u32_at packet (ip + 12))
      ok (is_ipv4_local_address saddr))
    else ok (config.ghost == ghost_always)

-- The wrong checksum of a ghost packet; 0 has a meaning of its own in UDP.
unfoldable pub junk_checksum : Bool → ℕ → ℕ → ℕ
junk_checksum is_udp checksum junk =
    let other = if junk == checksum then u16 (checksum + 1) else junk in
    if other == 0 && is_udp then 65535 else other

-- The checksum that is stored at `field`, computed with 0 there.
unfoldable pub ghost_checksum : Config → Bool → List ℕ → ℕ → ℕ → Outcome (List ℕ)
unfolding junk_checksum
ghost_checksum config is_udp copy field junk = do
  let cleared : List ℕ = drop sizeof_ethhdr (put_u16 copy field 0)
  checksum ← read (if is_udp then udp_checksum cleared else tcp_checksum cleared)
  ok (
      put_u16 copy field
        (if config.ghost_check then checksum else junk_checksum is_udp checksum junk))

-- The ghost of a tunneled packet.
unfoldable pub ghost_packet :
    Config → Proto → List ℕ → ℕ → ℕ → ℕ → List ℕ → List ℕ → Outcome (List ℕ)
unfolding ghost_checksum write_check packet_init over_data
ghost_packet config proto scratch unset junk packet_hash packet tunneled = do
  t ← packet_init tunneled false
  eth ← read (bytes_at packet 0 sizeof_ethhdr)
  header ← read (bytes_at tunneled 0 t.header_size)
  room ← read (bytes_at scratch 0 t.data_size)
  ghost ← over_data (λ bytes. proto.generate bytes packet_hash unset) (header ++ room)
  let copy : List ℕ = eth ++ ghost
  h ← packet_init copy true
  ip ← deref h.ip_header
  checked ← elim h.tcp_header [
    | some tcp ↦ ghost_checksum config false copy (tcp + 16) junk
    | none ↦ (do udp ← deref h.udp_header; ghost_checksum config true copy (udp + 6) junk)
  ]
  write_check (if config.ghost_set_ttl then put_u8 checked (ip + 8) config.ghost_ttl else checked)

-- The ghosts go behind the other packets that take the normal route.
unfoldable pub add_ghosts :
    (List ℕ → Outcome (List ℕ)) → List (List ℕ) → List (List ℕ) → Outcome (List (List ℕ))
add_ghosts ghost allowed [] = ok allowed
add_ghosts ghost allowed (t ∷ tunneled) = do
  copy ← ghost t
  add_ghosts ghost (allowed ++ (copy ∷ [])) tunneled

-- The split: `none` where no URL is found.
unfoldable pub dispatch_split :
    Config → Proto → ℕ → Headers → List ℕ → ℕ → Outcome (Option Dispatched)
unfolding fragment split_length dispatch_fragments
dispatch_split config proto beyond h packet packet_hash = do
  ip ← deref h.ip_header
  url ← proto.find beyond (drop ip packet)
  elim url [
    | none ↦ ok none
    | some (start, stop) ↦ (do
      fragments ←
          fragment config.fragment h.ip_header packet
            (split_length config.split start stop packet_hash)
      ok (some (dispatch_fragments fragments)))
  ]

-- The whole function: `none` where the fuel for the TCP options runs out.
unfoldable pub packet_dispatch :
    Config → ℕ → List ℕ → ℕ → ℕ → ℕ → List ℕ → ℕ → Outcome (Option Dispatched)
unfolding mangle_syn dispatch_split use_ghost ghost_packet add_ghosts packet_init
packet_dispatch config beyond scratch unset junk fuel packet packet_hash = do
  h ← packet_init packet true
  mangled ← elim h.tcp_header [ none ↦ ok (some packet) | some tcp ↦ mangle_syn fuel packet tcp ]
  entry ←
      protocol_get_def (elim h.tcp_header [ none ↦ config.udp_proto | some tcp ↦ config.tcp_proto ])
  elim mangled [
    | none ↦ ok none
    | some packet' ↦ elim entry [
      | none ↦ fault
      | some proto ↦ (do
        let is_tcp : Bool = elim h.tcp_header [ none ↦ false | some tcp ↦ true ]
        split ←
            if is_tcp && not (config.split == split_none)
            then dispatch_split config proto beyond h packet' packet_hash
            else (do
              ip ← deref h.ip_header
              ok (some (record { allowed = []; tunneled = drop ip packet' ∷ [] })))
        elim split [
          | none ↦ ok (some (record { allowed = packet' ∷ []; tunneled = [] }))
          | some d ↦ (do
            ghosts ← use_ghost config packet' h.ip_header
            allowed ←
                if ghosts
                then add_ghosts (ghost_packet config proto scratch unset junk packet_hash packet')
                    d.allowed d.tunneled
                else ok d.allowed
            ok (some (record { allowed = allowed; tunneled = d.tunneled })))
        ])
    ]
  ]
