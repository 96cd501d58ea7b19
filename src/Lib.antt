-- ===== src/Lib.antt =====
-- A model of ReQrypt: the path of a captured packet (filter, headers, split, checksums,
-- repetition tracking), the protocols that are hidden, the tunnels that carry it and the parser of
-- their URLs, the messages between client and server, the padding encoding, the arithmetic on numbers
-- of many digits that the encodings use, the random numbers, and the quota with which the server
-- answers requests.
--
-- The client captures a packet, asks `packet_filter` whether it is to be hidden, finds its headers
-- with `packet_init`, counts its repetitions with `packet_track`, cuts it with `ip_fragment` in
-- `packet_dispatch`, and hands one part to a tunnel. Tunnels are opened and closed by threads under
-- one lock. An encoding such as `pad` wraps the messages of a tunnel; the server's encodings refuse
-- requests over a quota, whose counters are picked by the hash of cookie.h.
--
--   Common            shared: Boolean tests, lists as C arrays, machine words, outcomes of C code
--   Checksum          src/checksum.c; Rfc1071, Header and Transport hold the proofs
--   Config            src/config.h, the settings (`struct config_s`)
--   Packet            src/packet.c, `packet_init`
--   PacketFilter      src/packet_filter.c; Safety (reads), Admission (what is let through) and
--                     Handover (what `packet_init` makes of it)
--   PacketDispatch    src/packet_dispatch.c: `ip_fragment` (Stamp, Pieces and Network),
--                     `tcp_fragment` (Transport), local addresses (Address), `split_hash`,
--                     `packet_dispatch` around them (Dispatch and Cut)
--   PacketProtocol    src/packet_protocol.c, the protocols hidden in packets: Loops, States, Search and
--                     Url (the search for a URL), Writer, Generate and Length (the generators), Names
--                     and Found (their composition), Labels (DNS queries), Table
--   PacketTrack       src/packet_track.c; Bucket and Repeat
--   Pad               src/encodings/pad.c; Init, RoundTrip, Fill and Messages
--   Cookie            src/cookie.h, the keyed hash
--   Quota             src/quota.c; Count, Period and Sharing
--   Base64            src/base64.c, the digits and the encoder; Digits and Overread
--   CktpCommon        src/cktp_common.c, the checksum of CKTP messages; Crc
--   CktpServer        src/cktp_server.c, what the server does with a packet; Forward
--   CktpClient        src/cktp_client.c, the messages of the client; Transport (transport headers),
--                     Messages and Handshake, Echo and Ping, Reflect (their composition with the server)
--   CktpUrl           src/cktp_url.c, the parser of tunnel URLs; RoundTrip
--   ServerTable       src/server_table.c, the table of running servers; Entries
--   Random            src/random.c: Memory (draws), Carry and Block (the two generators)
--   Natural           src/encodings/natural.c, numbers of many digits: Set, Get, Rows and Mul, Bits,
--                     Compare, Range and Sub hold the proofs
--   Natural/Modexp    its shifts, remainder and power; Digit, Room, Right and Left (shifts), Step,
--                     Rounds and Remainder (`N_mod`), Congruence, Multiply and Power (`N_modexp`)
--   Tunnel            src/tunnel.c; Sets, Invariant, Steps and Reconnect
--   Examples          below most of them: the witnesses
--
-- A definition has the name of the C function it models, and a part of a long function has a name of
-- its own. A packet or a message is the list of its bytes, a pointer into it an offset, NULL `none`.
-- Integers are natural numbers with their wrap-around written out; the host is little-endian and its
-- pointers have 64 bits. A read outside a buffer, a NULL or freed pointer followed, a remainder by 0
-- and a `panic` are results (`none`, `fault`, `panicked`), so that a theorem can exclude them or find
-- them. Static variables, the heap of tunnels, the clock and the random numbers are arguments and
-- results. The operations of the tunnels that run under the lock are steps of a relation, in any
-- order. `tunnel_try_activate` enters by its result, of any value. Five loops have fuel: the shifts of
-- `word_bits` (64, the bits of a word) and the loop of `n_mod` (2129, one more than the bits of
-- the number that it halves in each round). The search for a URL and the generator of requests have the
-- size of the data as fuel, since each round of their outer loops reads or writes a byte. The walk over
-- the TCP options of a packet is given its fuel: for some packets no amount is enough.
--
-- Not modelled: input and output (capture, sockets, files, log, the web interface), the weights and
-- the choice among open tunnels, the encodings in the CKTP protocol and the opening of its tunnels, the
-- cryptographic encodings, the base64 decoder, and the platform code. The generator of random numbers
-- and the parser of URL parameters, which `pad` gets through a table of functions, the initialisation
-- of an encoding, which the URL parser calls, and the packets that come back over the network are
-- parameters.
pub mod Common
pub mod Checksum
pub mod Config
pub mod Cookie
pub mod Natural
pub mod Quota
pub mod Random
pub mod PacketProtocol
pub mod Packet
pub mod PacketFilter
pub mod PacketDispatch
pub mod PacketTrack
pub mod Pad
pub mod Base64
pub mod CktpCommon
pub mod CktpServer
pub mod CktpClient
pub mod CktpUrl
pub mod ServerTable
pub mod Tunnel
