-- ===== src/PacketDispatch/Transport.antt =====
-- `tcp_fragment` of src/packet_dispatch.c when there is no data left to split.
use reqrypt.Common.{leb, sub64, ℕ, ◌+◌, ◌*◌, ◌/◌, ◌%◌, ◌≤◌, ◌≡◌, true, List, arith}
use reqrypt.Common.Outcome.{ok}
use reqrypt.Packet.{packet_init, sizeof_ethhdr}
use reqrypt.PacketDispatch.{whole, tcp_fragment}
use reqrypt.PacketDispatch.Pieces.{IsTcpPacket}

-- A whole IPv4 TCP packet whose data ends at or before the split is sent as it is.
pub tcp_fragment_whole :
    (ihl doff tot split : ℕ) (packet : List ℕ)
    → IsTcpPacket ihl doff tot packet
    → tot ≤ ihl * 4 + doff * 4 + split
    → tcp_fragment packet split ≡ ok (whole packet)
unfolding tcp_fragment packet_init
tcp_fragment_whole ihl doff tot split packet w h =
    let (b, read_b, is_b) = w.first in
    let (t, read_t, is_tot) = w.tot_len in
    let (o, read_o, is_doff) = w.data_offset in
    let (low, high) = w.ihl_range in
    let version : b / 16 ≡ 4 = omega arith in
    let words : b % 16 ≡ ihl = omega arith in
    let fits = w.headers in
    let small = w.small in
    let consumed : leb (sub64 (tot + sizeof_ethhdr) (sizeof_ethhdr + ihl * 4 + doff * 4)) split
        ≡ true =
      ground arith in
    rw (read_b, version, words, read_t, w.protocol, read_o, is_doff, is_tot, consumed)
