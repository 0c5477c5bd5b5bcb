-- ===== src/Tcp/Wire/Roundtrip.antt =====
-- A packet is read back from its bytes.
use tns.Common.{ℕ, ◌+◌, ◌^◌, ◌<◌, ◌≡◌, refl, List, ◌++◌, arith, get_or, length, take, drop, u16_mod}
use tns.Ip.Address.{hton16, hton16-hton16, hton32-hton32, hton32-lt}
use tns.Ip.Rip.{store16, store32}
use tns.Ip.Datagram.{fold_carries, any_nonzero}
use tns.Tcp.Packet.{SessionTuple, Packet}
use tns.Tcp.Wire.{
  inet_checksum, header_size, tcp_checksum, header_bytes, packet_checksum, serialize, word_at,
  load_packet, packet, make_packet_from_payload,
}

-- The fields of a packet fit their words.
pub record FitsWords (p : Packet) : Type 0 where
  pub src_port : p.src_port < u16_mod
  pub dst_port : p.dst_port < u16_mod
  pub seq_num : p.seq_num < 2 ^ 32
  pub ack_num : p.ack_num < 2 ^ 32
  pub wnd_size : p.wnd_size < u16_mod

tcp_checksum-lt :
    (src dst : ℕ) (header payload : List ℕ) → tcp_checksum src dst header payload < u16_mod
unfolding tcp_checksum inet_checksum fold_carries
tcp_checksum-lt src dst header payload = omega arith

hton16-lt : (x : ℕ) → x < u16_mod → hton16 x < u16_mod
unfolding hton16
hton16-lt x h = omega arith

-- The checksum does not read its own field, nor what lies behind the header.
tcp_checksum-own :
    (src dst sum : ℕ) (p : Packet) (rest payload : List ℕ)
    → tcp_checksum src dst (take header_size (header_bytes p sum ++ rest)) payload
      ≡ tcp_checksum src dst (header_bytes p 0) payload
unfolding tcp_checksum header_bytes store16 store32
tcp_checksum-own src dst sum p rest payload = refl

word_at-sum :
    (p : Packet) (sum : ℕ) (rest : List ℕ)
    → sum < u16_mod
    → word_at (header_bytes p sum ++ rest) 16 ≡ sum
unfolding word_at header_bytes store16 store32
word_at-sum p sum rest h = omega arith

load_packet-header :
    (p : Packet) (sum : ℕ) (rest payload : List ℕ)
    → FitsWords p
    → load_packet (header_bytes p sum ++ rest) payload ≡ record p { payload = payload }
unfolding load_packet word_at header_bytes store16 store32
load_packet-header p sum rest payload f =
    let seq = hton32-hton32 p.seq_num f.seq_num in
    let ack = hton32-hton32 p.ack_num f.ack_num in
    let wnd = hton16-hton16 p.wnd_size f.wnd_size in
    let seq_lt = hton32-lt p.seq_num f.seq_num in
    let ack_lt = hton32-lt p.ack_num f.ack_num in
    let wnd_lt = hton16-lt p.wnd_size f.wnd_size in
    (ground (arith, seq, ack, wnd, seq_lt, ack_lt, wnd_lt, f.src_port, f.dst_port))

-- What the reader tests of the bytes of a packet.
drop-header :
    (p : Packet) (sum : ℕ) (rest : List ℕ) → drop header_size (header_bytes p sum ++ rest) ≡ rest
unfolding header_bytes store16 store32
drop-header p sum rest = refl

offset-header :
    (p : Packet) (sum : ℕ) (rest : List ℕ) → get_or (header_bytes p sum ++ rest) 12 0 ≡ 80
unfolding header_bytes store16 store32
offset-header p sum rest = refl

length-header :
    (p : Packet) (sum : ℕ) (rest : List ℕ)
    → length (header_bytes p sum ++ rest) ≡ header_size + length rest
unfolding header_bytes store16 store32
length-header p sum rest = omega arith

-- The receiver of the bytes of a packet that the constructor makes finds the checksum right, and the
-- same ports, numbers, flags, window and payload.
pub make_packet_from_payload-serialize :
    (session : SessionTuple) (p : Packet)
    → FitsWords p
    → make_packet_from_payload session.local.addr session.remote.addr
        (serialize p (packet_checksum session p))
      ≡ packet p
unfolding make_packet_from_payload serialize packet_checksum any_nonzero
make_packet_from_payload-serialize session p f =
    let src = session.local.addr in
    let dst = session.remote.addr in
    let sum = tcp_checksum src dst (header_bytes p 0) p.payload in
    let own = tcp_checksum-own src dst sum p p.payload p.payload in
    let field =
      word_at-sum p sum p.payload (tcp_checksum-lt src dst (header_bytes p 0) p.payload) in
    let loaded = load_packet-header p sum p.payload p.payload f in
    (ground (
      arith,
      own,
      field,
      loaded,
      drop-header p sum p.payload,
      offset-header p sum p.payload,
      length-header p sum p.payload,
    ))
