-- ===== src/PacketDispatch/Network.antt =====
-- `ip_fragment` of src/packet_dispatch.c: the two IPv4 fragments make up the packet.
use reqrypt.Common.{
  leb, if◌then◌else◌, length, drop, ℕ, ◌+◌, ◌*◌, ◌/◌, ◌%◌, ◌≤◌, ◌<◌, ◌≡◌, refl, ◌∙◌, some, List,
  ◌++◌, arith,
}
use reqrypt.Common.Outcome.{ok}
use reqrypt.Packet.{packet_init}
use reqrypt.PacketDispatch.{Fragments, whole, ip_mf, ip_pieces, ip_fragment}
use reqrypt.PacketDispatch.Pieces.{IsTcpPacket, IsFragment, ip_pieces_lem, rounded, gt→leb}

module _ (ihl doff tot : ℕ) (packet : List ℕ) (w : IsTcpPacket ihl doff tot packet)
    (split : ℕ) where
  -- What `ip_fragment` does on a whole packet is one test.
  ip_fragment-eq : ip_fragment packet split ≡ (
      if leb tot (rounded (split + doff * 4) + ihl * 4)
      then ok (whole packet)
      else ip_pieces packet
          (ihl * 4)
          tot
          (rounded (split + doff * 4) + ihl * 4)
          (rounded (split + doff * 4)))
  unfolding ip_fragment packet_init
  ip_fragment-eq =
      let (b, read_b, value) = w.first in
      let (t, read_t, is_tot) = w.tot_len in
      let (o, read_o, is_doff) = w.data_offset in
      let (low, high) = w.ihl_range in
      let version : b / 16 ≡ 4 = omega arith in
      let words : b % 16 ≡ ihl = omega arith in
      rw
        (
          read_b, version, words, read_t, w.protocol, read_o, read_o, is_doff, read_b, words,
          read_t, is_tot,
        )
        refl

  -- A cut that leaves nothing for the second fragment sends the packet as it is.
  pub ip_fragment_whole :
      tot ≤ rounded (split + doff * 4) + ihl * 4 → ip_fragment packet split ≡ ok (whole packet)
  ip_fragment_whole h = ip_fragment-eq ∙ ground arith

  -- A whole IPv4 TCP packet, cut inside its data: `ip_fragment` makes two IPv4 fragments whose
  -- payloads are the payload of the packet, one after the other. The first has the More Fragments
  -- flag and offset 0, the second the offset at which it starts, in units of 8 bytes. Both have
  -- the packet's IP header but for length, offset and checksum, the right total length, and a
  -- header checksum that verifies. The first ends after the byte `split` of the TCP data.
  pub ip_fragment_splits :
      rounded (split + doff * 4) + ihl * 4 < tot
      → (r : Fragments) × (second : List ℕ) × (ip_fragment packet split ≡ ok r)
        × (r.second ≡ some second)
        × IsFragment packet ihl ip_mf r.first
        × IsFragment packet ihl (length (drop (14 + ihl * 4) r.first) / 8) second
        × (drop (14 + ihl * 4) r.first ++ drop (14 + ihl * 4) second ≡ drop (14 + ihl * 4) packet)
        × (length (drop (14 + ihl * 4) r.first) % 8 ≡ 0)
        × (doff * 4 + split < length (drop (14 + ihl * 4) r.first))
        × (r.used ≡ length r.first + length second)
  ip_fragment_splits h =
      let ds : ℕ = rounded (split + doff * 4) in
      let (r, second, runs, is_second, f, g, payload, size, used) =
        ip_pieces_lem ihl doff tot packet w (ds + ihl * 4) ds (omega arith) h (omega arith) in
      (
        r,
        second,
        ip_fragment-eq ∙ rw (gt→leb _ _ h) runs,
        is_second,
        f,
        rw size g,
        payload,
        rw size (omega arith),
        rw size (omega arith),
        used,
      )
