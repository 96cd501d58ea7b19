-- ===== src/PacketTrack/Examples.antt =====
-- A frame for `packet_track` of src/packet_track.c, in the first state.
use reqrypt.Common.{
  length, replicate, length-replicate, replicate-same, u8, ℕ, ◌+◌, ◌≡◌, refl, sym, ap, List, arith,
}
use reqrypt.Common.Outcome.{ok}
use reqrypt.Packet.{packet_init}
use reqrypt.PacketFilter.Examples.{udp_frame}
use reqrypt.PacketTrack.{
  TrackState, PacketNode, empty_state, packet_track, packet_hash, data_hash, table_num_buckets,
  table_bucket_size,
}
use reqrypt.PacketTrack.Repeat.{IsTable, packet_track-repeat}

abbrev frame_hash : ℕ
frame_hash = 3055931832366193733

empty_state-IsTable : IsTable empty_state
empty_state-IsTable = record {
  buckets =
      length-replicate {A = List PacketNode} table_num_buckets
        (replicate table_bucket_size (record { hash = 0; seq = 0; rep = 0 }));
  sized = λ i b e. ap length (sym (replicate-same table_num_buckets i _ b e));
  seq_fits = omega arith;
}

packet_track-repeat_example :
    (r : ℕ) × (st1 : TrackState) × (st2 : TrackState) × (packet_track empty_state udp_frame
      ≡ ok (frame_hash, r, st1))
    × IsTable st1
    × (packet_track st1 udp_frame ≡ ok (frame_hash, u8 (r + 1), st2))
unfolding packet_hash data_hash packet_init
packet_track-repeat_example =
    packet_track-repeat empty_state udp_frame frame_hash empty_state-IsTable refl
