-- ===== src/PacketDispatch/Pieces.antt =====
-- The two copies that `ip_fragment` of src/packet_dispatch.c makes.
use reqrypt.Common.{
  leb, length, get_elem?, take, drop, length-append, length-take, length-drop, take-append-drop,
  drop-drop, get_elem?-drop, get_elem?-take, get_elem?-append_left, drop-take, take_all,
  drop-append_of_eq, u16, IsBytes, ntohs, htons, u8_at, u16_at, bytes_at, drop-IsBytes,
  take-IsBytes, append-IsBytes, ℕ, ◌+◌, ◌-◌, ◌*◌, ◌/◌, ◌%◌, ◌^◌, ◌≤◌, ◌<◌, ◌≡◌, refl, sym, ap, ◌∙◌,
  false, some, List, ◌++◌, arith,
}
use reqrypt.Common.Outcome.{ok}
use reqrypt.Checksum.{ip_checksum}
use reqrypt.Checksum.Header.{IsHeader}
use reqrypt.PacketDispatch.{Fragments, ip_mf, ip_pieces, write_check, set_tot_len, set_frag_off}
use reqrypt.PacketDispatch.Stamp.{
  stamp, drop-stamp, IsStamped, get_elem?-stamp, stamp_tot_len, stamp_frag_off, write_check_lem,
  IsHeader-fields, length-stamp,
}

-- A whole IPv4 packet with a TCP segment in an Ethernet frame: the IP header has `ihl` words, the
-- TCP header `doff` words.
pub record IsTcpPacket (ihl doff tot : ℕ) (packet : List ℕ) : Type 0 where
  pub bytes : IsBytes packet
  pub first : (b : ℕ) × (u8_at packet 14 ≡ some b) × (b ≡ 64 + ihl)
  pub tot_len : (t : ℕ) × (u16_at packet 16 ≡ some t) × (ntohs t ≡ tot)
  pub protocol : u8_at packet 23 ≡ some 6
  pub data_offset : (o : ℕ) × (u8_at packet (14 + ihl * 4 + 12) ≡ some o) × (o / 16 ≡ doff)
  pub ihl_range : (5 ≤ ihl) × (ihl < 16)
  pub doff_range : (5 ≤ doff) × (doff < 16)
  pub frame : length packet ≡ 14 + tot
  pub small : tot < 2 ^ 16
  pub headers : ihl * 4 + doff * 4 ≤ tot

-- One fragment: it has the header of the packet but for the stamped fields, its total length is
-- its length, its fragment offset field is `off`, and its header checksum is right.
pub record IsFragment (packet : List ℕ) (ihl off : ℕ) (f : List ℕ) : Type 0 where
  pub header : (j : ℕ) → j < 14 + ihl * 4 → ¬ IsStamped j → get_elem? f j ≡ get_elem? packet j
  pub tot_len : (t : ℕ) × (u16_at f 16 ≡ some t) × (14 + ntohs t ≡ length f)
  pub frag_off : u16_at f 20 ≡ some (htons off)
  pub check : ip_checksum (drop 14 f) ≡ some 0

-- Stamping a copy of the header with a payload behind it makes a fragment.
stamp-IsFragment :
    (packet p : List ℕ) (ihl len off : ℕ)
    → 5 ≤ ihl
    → ihl < 16
    → off < 2 ^ 16
    → len < 2 ^ 16
    → length p ≡ 14 + len
    → 14 + ihl * 4 ≤ length p
    → ((j : ℕ) → j < 14 + ihl * 4 → get_elem? p j ≡ get_elem? packet j)
    → IsHeader ihl (drop 14 p)
    → (c : ℕ) × (write_check (set_frag_off (set_tot_len p len) off) ≡ ok (stamp p len off c))
      × IsFragment packet ihl off (stamp p len off c)
stamp-IsFragment packet p ihl len off low high off_small small size long same h =
    let (c, written, zero_sum) =
      write_check_lem ihl (set_frag_off (set_tot_len p len) off) (IsHeader-fields ihl p len off h)
        high in
    (
      c,
      written,
      record {
        header = λ j below not_stamped. get_elem?-stamp p len off c j not_stamped ∙ same j below;
        tot_len = (
          htons (u16 len),
          stamp_tot_len p len off c (omega arith),
          rw length-stamp (omega arith),
        );
        frag_off =
            stamp_frag_off p len off c (omega arith) ∙ ap (λ (n : ℕ). some (htons n)) (omega arith);
        check = zero_sum;
      },
    )

copy-IsHeader :
    (ihl doff tot : ℕ) (packet p : List ℕ)
    → IsTcpPacket ihl doff tot packet
    → IsBytes p
    → 14 + ihl * 4 ≤ length p
    → get_elem? p 14 ≡ get_elem? packet 14
    → IsHeader ihl (drop 14 p)
copy-IsHeader ihl doff tot packet p w bytes long same =
    let (b, read_b, value) = w.first in
    let (low, high) = w.ihl_range in
    record {
      bytes = drop-IsBytes 14 p bytes;
      first = (b, get_elem?-drop 14 p 0 ∙ same ∙ read_b, omega arith);
      long = low;
      fits = omega (arith, length-drop 14 p);
    }

bytes_at-eq :
    (p : List ℕ) (off n : ℕ) → off + n ≤ length p → bytes_at p off n ≡ some (take n (drop off p))
bytes_at-eq p off n h = ground arith

module _ (ihl doff tot : ℕ) (packet : List ℕ) (w : IsTcpPacket ihl doff tot packet)
    (end data_split : ℕ) (ends : end ≡ ihl * 4 + data_split) (inside : end < tot)
    (aligned : data_split % 8 ≡ 0) where
  abbrev copy_1 : List ℕ
  copy_1 = take (end + 14) packet

  abbrev copy_2 : List ℕ
  copy_2 = take (14 + ihl * 4) packet ++ take (tot - end) (drop (end + 14) packet)

  length-copy_1 : length copy_1 ≡ end + 14
  length-copy_1 = omega (arith, length-take (end + 14) packet, w.frame)

  length-head_2 : length (take (14 + ihl * 4) packet) ≡ 14 + ihl * 4
  length-head_2 = omega (arith, length-take (14 + ihl * 4) packet, w.frame, w.headers)

  length-copy_2 : length copy_2 ≡ 14 + ihl * 4 + (tot - end)
  length-copy_2 = omega (
    arith,
    length-append (take (14 + ihl * 4) packet) (take (tot - end) (drop (end + 14) packet)),
    length-head_2,
    length-take (tot - end) (drop (end + 14) packet),
    length-drop (end + 14) packet,
    w.frame,
  )

  first-IsFragment :
      (c : ℕ) × (write_check (set_frag_off (set_tot_len copy_1 end) ip_mf)
        ≡ ok (stamp copy_1 end ip_mf c))
      × IsFragment packet ihl ip_mf (stamp copy_1 end ip_mf c)
  first-IsFragment =
      let (low, high) = w.ihl_range in
      let len = length-copy_1 in
      let small = w.small in
      stamp-IsFragment packet copy_1 ihl end ip_mf low high (omega arith) (omega arith)
        (omega arith) (omega arith) (λ j h. get_elem?-take (end + 14) packet j (omega arith))
        (copy-IsHeader ihl doff tot packet copy_1 w (take-IsBytes (end + 14) packet w.bytes)
          (omega arith) (get_elem?-take (end + 14) packet 14 (omega arith)))

  same_2 : (j : ℕ) → j < 14 + ihl * 4 → get_elem? copy_2 j ≡ get_elem? packet j
  same_2 j h =
      get_elem?-append_left (take (14 + ihl * 4) packet) _ j (rw length-head_2 h)
      ∙ get_elem?-take (14 + ihl * 4) packet j h

  second-IsFragment :
      (c : ℕ) × (write_check
          (set_frag_off (set_tot_len copy_2 (14 + ihl * 4 + (tot - end) - 14)) (data_split / 8))
        ≡ ok (stamp copy_2 (14 + ihl * 4 + (tot - end) - 14) (data_split / 8) c))
      × IsFragment packet ihl
          (data_split / 8)
          (stamp copy_2 (14 + ihl * 4 + (tot - end) - 14) (data_split / 8) c)
  second-IsFragment =
      let (low, high) = w.ihl_range in
      let len = length-copy_2 in
      let small = w.small in
      stamp-IsFragment packet copy_2 ihl (14 + ihl * 4 + (tot - end) - 14) (data_split / 8) low high
        (omega arith) (omega arith) (omega arith) (omega arith) same_2
        (copy-IsHeader ihl doff tot packet copy_2 w
          (append-IsBytes _ _ (take-IsBytes (14 + ihl * 4) packet w.bytes)
            (take-IsBytes (tot - end) _ (drop-IsBytes (end + 14) packet w.bytes)))
          (omega arith) (same_2 14 (omega arith)))

  payload_1 : drop (14 + ihl * 4) copy_1 ≡ take data_split (drop (14 + ihl * 4) packet)
  payload_1 = rw sum (drop-take (14 + ihl * 4) data_split packet)
    where
      sum : end + 14 ≡ 14 + ihl * 4 + data_split
      sum = omega arith

  payload_2 : drop (14 + ihl * 4) copy_2 ≡ drop data_split (drop (14 + ihl * 4) packet)
  payload_2 =
      drop-append_of_eq (14 + ihl * 4) (take (14 + ihl * 4) packet) rest length-head_2
      ∙ take_all (tot - end) (drop (end + 14) packet)
          (omega (arith, length-drop (end + 14) packet, w.frame))
      ∙ rw sum (sym (drop-drop (14 + ihl * 4) data_split packet))
    where
      rest : List ℕ
      rest = take (tot - end) (drop (end + 14) packet)

      sum : end + 14 ≡ 14 + ihl * 4 + data_split
      sum = omega arith

  -- The two pieces, once the cut is inside the packet and on a multiple of 8.
  pub ip_pieces_lem :
      (r : Fragments) × (second : List ℕ) × (ip_pieces packet (ihl * 4) tot end data_split ≡ ok r)
      × (r.second ≡ some second)
      × IsFragment packet ihl ip_mf r.first
      × IsFragment packet ihl (data_split / 8) second
      × (drop (14 + ihl * 4) r.first ++ drop (14 + ihl * 4) second ≡ drop (14 + ihl * 4) packet)
      × (length (drop (14 + ihl * 4) r.first) ≡ data_split)
      × (r.used ≡ length r.first + length second)
  unfolding ip_pieces
  ip_pieces_lem =
      let (c, written_1, f) = first-IsFragment in
      let (d, written_2, g) = second-IsFragment in
      (
        record {
          first = stamp copy_1 end ip_mf c;
          second = some (stamp copy_2 (14 + ihl * 4 + (tot - end) - 14) (data_split / 8) d);
          used = (end + 14) + (14 + ihl * 4 + (tot - end));
        },
        stamp copy_2 (14 + ihl * 4 + (tot - end) - 14) (data_split / 8) d,
        rw
            (
              bytes_at-eq packet 0 (end + 14) (omega (arith, w.frame)),
              written_1,
              bytes_at-eq packet 0 (14 + ihl * 4) (omega (arith, w.frame, w.headers)),
              bytes_at-eq packet (end + 14) (tot - end) (omega (arith, w.frame)),
              written_2,
            )
            refl,
        refl,
        f,
        g,
        rw
            (
              drop-stamp (14 + ihl * 4) copy_1 end ip_mf c (omega (arith, w.ihl_range)),
              drop-stamp (14 + ihl * 4) copy_2 (14 + ihl * 4 + (tot - end) - 14) (data_split / 8) d
                  (omega (arith, w.ihl_range)),
              payload_1,
              payload_2,
            )
            (take-append-drop data_split (drop (14 + ihl * 4) packet)),
        rw (drop-stamp (14 + ihl * 4) copy_1 end ip_mf c (omega (arith, w.ihl_range)))
            (omega (arith, length-drop (14 + ihl * 4) copy_1, length-copy_1)),
        rw (length-stamp copy_1, length-stamp copy_2) (omega (arith, length-copy_1, length-copy_2)),
      )

-- The rounding of the cut: up to the next multiple of 8 behind `n`, never `n` itself.
abbrev pub rounded : ℕ → ℕ
rounded n = n + (8 - n % 8)

pub gt→leb : (a b : ℕ) → b < a → leb a b ≡ false
gt→leb a b h = ground arith
