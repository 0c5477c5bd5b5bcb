-- ===== src/Tcp/Packet.antt =====
-- lib/include/tcp/packet.hpp and session_tuple.hpp: a TCP packet as the fields of its header, in
-- host byte order, and its payload. The checksum belongs to the bytes on the wire.
use tns.Common.{ℕ, ◌+◌, ◌≡◌, ◌↔◌, Bool, true, ◌&&◌, List, [], length, arith, Eq}
use tns.Ip.Address.{Ipv4Address, same_address}

-- `SessionTuple`
pub record SessionTuple : Type 0 where
  pub local : Ipv4Address
  pub remote : Ipv4Address

unfoldable pub same_session : SessionTuple → SessionTuple → Bool
unfolding same_address
same_session a b = same_address a.local b.local && same_address a.remote b.remote

-- The flags of <netinet/tcp.h>: each is one bit.
abbrev pub th_fin : ℕ
th_fin = 0x01

abbrev pub th_syn : ℕ
th_syn = 0x02

abbrev pub th_ack : ℕ
th_ack = 0x10

abbrev pub ack_dont_care : ℕ
ack_dont_care = 0

pub record Packet : Type 0 where
  pub src_port : ℕ
  pub dst_port : ℕ
  pub seq_num : ℕ
  pub ack_num : ℕ
  pub flags : ℕ
  pub wnd_size : ℕ
  pub payload : List ℕ

-- The constructor that sends use.
unfoldable pub make_packet : SessionTuple → ℕ → ℕ → ℕ → ℕ → List ℕ → Packet
make_packet tuple flags seq ack wnd payload = record {
  src_port = tuple.local.port;
  dst_port = tuple.remote.port;
  seq_num = seq;
  ack_num = ack;
  flags = flags;
  wnd_size = wnd;
  payload = payload;
}

unfoldable pub make_syn_packet : SessionTuple → ℕ → ℕ → Packet
unfolding make_packet
make_syn_packet tuple seq wnd = make_packet tuple th_syn seq ack_dont_care wnd []

unfoldable pub make_syn_ack_packet : SessionTuple → ℕ → ℕ → ℕ → Packet
unfolding make_packet
make_syn_ack_packet tuple seq ack wnd = make_packet tuple (th_syn + th_ack) seq ack wnd []

unfoldable pub make_ack_packet : SessionTuple → ℕ → ℕ → ℕ → List ℕ → Packet
unfolding make_packet
make_ack_packet tuple seq ack wnd payload = make_packet tuple th_ack seq ack wnd payload

unfoldable pub make_fin_packet : SessionTuple → ℕ → ℕ → Packet
unfolding make_packet
make_fin_packet tuple seq wnd = make_packet tuple th_fin seq ack_dont_care wnd []

abbrev pub get_payload_size : Packet → ℕ
get_payload_size p = length p.payload

pub same_session_iff : (a b : SessionTuple) → (same_session a b ≡ true) ↔ (a ≡ b)
unfolding same_session same_address
same_session_iff a b = ground arith

-- The `std::hash` and `operator==` that key a map by session.
instance abbrev pub session_eq : Eq SessionTuple
session_eq = record { same = same_session; same_iff = same_session_iff }
