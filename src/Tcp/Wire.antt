-- ===== src/Tcp/Wire.antt =====
-- lib/include/tcp/util.hpp and lib/include/tcp/packet.hpp: the TCP checksum, the bytes of a packet, and
-- the packet of an IP payload. Integers are stored with the least significant byte first, as on the
-- little-endian host; IP addresses and ports are in network byte order.
pub mod Roundtrip
use tns.Common.{
  ℕ, ◌+◌, ◌-◌, ◌*◌, ◌/◌, ◌%◌, ◌^◌, Bool, true, false, not, ◌||◌, List, [], ◌∷◌, ◌++◌, ltb, ◌==◌,
  if◌then◌else◌, length, get_or, take, drop, to_u16, to_u32,
}
use tns.Ip.Address.{hton16, hton32}
use tns.Ip.Rip.{store16, store32}
use tns.Ip.Datagram.{fold_carries, any_nonzero}
use tns.Tcp.Packet.{SessionTuple, Packet}

-- The loop of `inetChecksum`, which takes two bytes at a time, and its last byte if they are odd.
unfoldable pub sum_pairs : List ℕ → ℕ
sum_pairs [] = 0
sum_pairs (a ∷ []) = a
sum_pairs (a ∷ b ∷ bytes) = b * 256 + a + sum_pairs bytes

unfoldable pub inet_checksum : List ℕ → ℕ
unfolding sum_pairs fold_carries
inet_checksum bytes = fold_carries (to_u32 (sum_pairs bytes))

-- `sizeof(tcphdr)`
abbrev pub header_size : ℕ
header_size = 20

abbrev pub protocol_tcp : ℕ
protocol_tcp = 6

-- The pseudo header of `tcpChecksum`.
unfoldable pub pseudo_header : ℕ → ℕ → ℕ → List ℕ
unfolding store16 store32
pseudo_header src_ip dst_ip payload_size =
    store32 src_ip
    ++ (store32 dst_ip
        ++ (0 ∷ protocol_tcp ∷ store16 (hton16 (to_u16 (header_size + payload_size)))))

-- `tcpChecksum` of the bytes of a header, whose field `th_sum` is taken for 0.
unfoldable pub tcp_checksum : ℕ → ℕ → List ℕ → List ℕ → ℕ
unfolding pseudo_header inet_checksum
tcp_checksum src_ip dst_ip header payload =
    let without_sum = take 16 header ++ (0 ∷ 0 ∷ drop 18 header) in
    inet_checksum (pseudo_header src_ip dst_ip (length payload) ++ (without_sum ++ payload))

-- The bytes of the header that the constructor of `Packet` makes, with a checksum: `th_off` is 5.
unfoldable pub header_bytes : Packet → ℕ → List ℕ
unfolding store16 store32
header_bytes p sum =
    store16 p.src_port
    ++ (store16 p.dst_port
        ++ (store32 (hton32 p.seq_num)
            ++ (store32 (hton32 p.ack_num)
                ++ (5 * 16
                    ∷ p.flags
                    ∷ (store16 (hton16 p.wnd_size) ++ (store16 sum ++ store16 0))))))

-- The checksum that the constructor computes.
unfoldable pub packet_checksum : SessionTuple → Packet → ℕ
unfolding header_bytes tcp_checksum
packet_checksum session p =
    tcp_checksum session.local.addr session.remote.addr (header_bytes p 0) p.payload

unfoldable pub serialize : Packet → ℕ → List ℕ
unfolding header_bytes
serialize p sum = header_bytes p sum ++ p.payload

unfoldable pub word_at : List ℕ → ℕ → ℕ
word_at b i = get_or b i 0 + get_or b (i + 1) 0 * 256

unfoldable pub load_packet : List ℕ → List ℕ → Packet
unfolding word_at
load_packet b payload = record {
  src_port = word_at b 0;
  dst_port = word_at b 2;
  seq_num = hton32 (word_at b 4 + word_at b 6 * 2 ^ 16);
  ack_num = hton32 (word_at b 8 + word_at b 10 * 2 ^ 16);
  flags = get_or b 13 0;
  wnd_size = hton16 (word_at b 14);
  payload = payload;
}

pub data Parsed : Type 0 where
  too_short bad_offset has_options bad_checksum : Parsed
  packet : Packet → Parsed

unfoldable pub make_packet_from_payload : ℕ → ℕ → List ℕ → Parsed
unfolding tcp_checksum load_packet any_nonzero
make_packet_from_payload src_ip dst_ip b =
    let hdr_size = get_or b 12 0 / 16 * 4 in
    let options = take (hdr_size - header_size) (drop header_size b) in
    let payload = drop hdr_size b in
    if ltb (length b) header_size
    then too_short
    else if ltb hdr_size header_size || ltb (length b) hdr_size
    then bad_offset
    else if any_nonzero options
    then has_options
    else if not (word_at b 16 == tcp_checksum src_ip dst_ip (take header_size b) payload)
    then bad_checksum
    else packet (load_packet b payload)
