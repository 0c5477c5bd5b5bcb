-- ===== src/Tcp/Tests/Tables.antt =====
-- The theorems on the table of sockets, on listeners and on the bytes of packets, at concrete ones.
use tns.Common.{ℕ, ◌≡◌, ◌≤◌, length, refl, none, some, List, [], ◌∷◌, arith, emplace, find, modify}
use tns.Ip.Address.{Ipv4Address, hton16, hton32}
use tns.Ip.Rip.{store16, store32}
use tns.Ip.Datagram.{Datagram, fold_carries, any_nonzero}
use tns.Tcp.Packet.{SessionTuple, Packet, make_packet, make_syn_ack_packet}
use tns.Tcp.SocketError.{Outcome, value}
use tns.Tcp.States.{from_packet}
use tns.Tcp.Sockets.{NormalSocket, Effect}
use tns.Tcp.Sockets
use tns.Tcp.Connections.{
  make_active_socket, make_passive_socket, make_socket, passive_open, max_pending_socks,
}
use tns.Tcp.SendBuffer
use tns.Tcp.RecvBuffer
use tns.Tcp.Retransmission
use tns.Tcp.Listeners.{ListenSocket, make_listener, add_pending, push_and_notify, wait_and_pop}
use tns.Tcp.Listeners.Queue.{Keeps, start, pushes, pops, Run-Keeps}
use tns.Tcp.Stack.{
  normal, listener, TcpStack, iota, make_stack, get_next_socket_id, create_listen_socket,
  create_normal_socket, reap,
}
use tns.Tcp.Stack.Calls.{v_listen, v_close, close_listener, close_sockets}
use tns.Tcp.Stack.Packets.{
  Fresh, create_passive_connection, listener_handler, packet_handler, tcp_protocol_handler,
}
use tns.Tcp.Stack.Invariant.{session, port, IsValid, identity}
use tns.Tcp.Stack.Creation.{Creation, create_listen_socket-Creation, create_normal_socket-Creation}
use tns.Tcp.Stack.Reaping.{Purged, reap-Purged}
use tns.Tcp.Stack.Runs.{here, next, listens, gets_packet, closes, Run-IsValid}
use tns.Tcp.Wire.{
  serialize, packet_checksum, header_bytes, tcp_checksum, pseudo_header, inet_checksum, sum_pairs,
  word_at, load_packet, make_packet_from_payload, packet,
}
use tns.Tcp.Wire.Roundtrip.{FitsWords, make_packet_from_payload-serialize}

abbrev client : Ipv4Address
client = record { addr = 0x0100000a; port = 0x5000 }

abbrev server : Ipv4Address
server = record { addr = 0x0200000a; port = 0x901f }

abbrev client_tuple : SessionTuple
client_tuple = record { local = client; remote = server }

abbrev four : List ℕ
four = 0 ∷ 0 ∷ 0 ∷ 0 ∷ []

-- A SYN for port 8080.
abbrev syn : Packet
syn = record {
  src_port = 0x5000;
  dst_port = 0x901f;
  seq_num = 100;
  ack_num = 0;
  flags = 2;
  wnd_size = 4;
  payload = [];
}

syn-fits : FitsWords syn
syn-fits = record {
  src_port = omega arith;
  dst_port = omega arith;
  seq_num = omega arith;
  ack_num = omega arith;
  wnd_size = omega arith;
}

make_packet_from_payload-serialize_example :
    make_packet_from_payload 0x0100000a 0x0200000a
      (serialize syn (packet_checksum client_tuple syn))
    ≡ packet syn
make_packet_from_payload-serialize_example =
    make_packet_from_payload-serialize client_tuple syn syn-fits

-- A stack that listens on port 8080.
abbrev listening : TcpStack
listening = record {
  socket_table = (1, listener (make_listener 1 8080)) ∷ [];
  session_to_socket = [];
  port_to_listen_socket = (8080, 1) ∷ [];
  free_socket_ids = iota 2 127;
}

make_stack-listens : v_listen 8080 make_stack ≡ some (value 1, listening)
unfolding v_listen create_listen_socket get_next_socket_id make_stack iota emplace find
make_stack-listens = refl

create_listen_socket-Creation_example :
    (r : Outcome ℕ × TcpStack) × (create_listen_socket 8080 make_stack ≡ some r)
    × Creation make_stack (λ id. listener (make_listener id 8080)) (port 8080) r
create_listen_socket-Creation_example =
    create_listen_socket-Creation make_stack (Run-IsValid 4 make_stack here) 8080

abbrev make_client : ℕ → NormalSocket
make_client id = make_active_socket four four id client_tuple 100

make_client-identity : (id : ℕ) → identity (normal (make_client id)) ≡ (id, session client_tuple)
unfolding identity make_active_socket make_socket
make_client-identity id = refl

create_normal_socket-Creation_example :
    (r : Outcome ℕ × TcpStack) × (create_normal_socket client_tuple make_client make_stack ≡ some r)
    × Creation make_stack (λ id. normal (make_client id)) (session client_tuple) r
create_normal_socket-Creation_example =
    create_normal_socket-Creation make_stack (Run-IsValid 4 make_stack here) client_tuple
      make_client make_client-identity

-- The stack after the SYN.
abbrev fresh : Fresh
fresh = record { send_array = four; recv_array = four; isn = 200 }

abbrev syn_datagram : Datagram
syn_datagram = record {
  header = record {
    ihl = 5;
    version = 4;
    tos = 0;
    tot_len = 0x2800;
    id = 0;
    frag_off = 0;
    ttl = 15;
    protocol = 6;
    check = 0;
    saddr = 0x0100000a;
    daddr = 0x0200000a;
  };
  payload = serialize syn (packet_checksum client_tuple syn);
}

abbrev after_syn : TcpStack × List Effect
after_syn = elim (tcp_protocol_handler 4 fresh syn_datagram listening 5) [
  | none ↦ (make_stack, [])
  | some r ↦ r
]

listening-syn : tcp_protocol_handler 4 fresh syn_datagram listening 5 ≡ some after_syn
unfolding tcp_protocol_handler make_packet_from_payload serialize packet_checksum packet_handler
    tcp_checksum inet_checksum header_bytes store16 store32 hton16 hton32 pseudo_header sum_pairs
    fold_carries word_at load_packet any_nonzero from_packet find listener_handler make_listener
    create_passive_connection create_normal_socket get_next_socket_id iota emplace
    make_passive_socket make_socket passive_open Sockets.send_packet_queued Retransmission.enqueue
    SendBuffer.make RecvBuffer.make SendBuffer.write_and_send_one add_pending make_syn_ack_packet
    make_packet
listening-syn = refl

Run-IsValid_example : IsValid after_syn.0
Run-IsValid_example = Run-IsValid 4 after_syn.0 (
    next (next here (listens 8080 (value 1, listening) make_stack-listens))
      (gets_packet fresh syn_datagram 5 after_syn listening-syn))

-- A listener that has been closed is purged.
abbrev closed_listener : Outcome (Unit {0}) × TcpStack × List Effect
closed_listener = elim (v_close 4 1 listening 7) [ none ↦ (value tt, make_stack, []) | some r ↦ r ]

listening-closes : v_close 4 1 listening 7 ≡ some closed_listener
unfolding v_close close_listener close_sockets find modify make_listener
listening-closes = refl

closed-IsValid : IsValid closed_listener.1
closed-IsValid = Run-IsValid 4 closed_listener.1 (
    next (next here (listens 8080 (value 1, listening) make_stack-listens))
      (closes 1 7 closed_listener listening-closes))

reap-Purged_example : Purged 9 closed_listener.1 (reap 9 closed_listener.1)
reap-Purged_example = reap-Purged 9 closed_listener.1 closed-IsValid

-- A listener with one socket in its queue accepts it before the next.
abbrev waiting : ListenSocket
waiting = record (make_listener 1 8080) { accept_queue = 4 ∷ [] }

abbrev popped : ListenSocket
popped = record waiting { accept_queue = 5 ∷ [] }

waiting-pops : wait_and_pop (push_and_notify 5 waiting) ≡ (value 4, popped)
unfolding wait_and_pop push_and_notify make_listener
waiting-pops = refl

waiting-short : length waiting.pending ≤ max_pending_socks
unfolding make_listener
waiting-short = omega arith

Run-Keeps_example : Keeps waiting (5 ∷ []) (4 ∷ []) popped
Run-Keeps_example =
    Run-Keeps waiting popped (5 ∷ []) (4 ∷ []) waiting-short (pops 4 (pushes 5 start) waiting-pops)
