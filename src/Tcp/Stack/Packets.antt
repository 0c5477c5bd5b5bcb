-- ===== src/Tcp/Stack/Packets.antt =====
-- lib/include/tcp/tcp_stack.hpp and the last handler of lib/src/tcp/tcp_stack.cpp: connections opened
-- in the table of sockets, and packets given to the socket that they are for. What a new socket needs
-- from outside, its random initial number and the contents of its arrays, is in a `Fresh`.
use tns.Common.{ℕ, Bool, false, Option, none, some, List, [], ◌>>=◌, find, is_some, nat_eq, length}
use tns.Ip.Address.{Ipv4Address, hton16}
use tns.Ip.Datagram.{Datagram}
use tns.Tcp.Wire.{packet, make_packet_from_payload}
use tns.Tcp.Packet.{SessionTuple, Packet, session_eq}
use tns.Tcp.SocketError.{SocketError, Outcome, waits, value, error}
use tns.Tcp.States.{State, Event, get_syn, from_packet}
use tns.Tcp.Sockets.{NormalSocket, Effect}
use tns.Tcp.Handlers.{event_handler}
use tns.Tcp.Connections.{
  make_active_socket, make_passive_socket, active_open, finish_active_open, passive_open,
}
use tns.Tcp.Listeners.{ListenSocket, add_pending, remove_pending, push_and_notify}
use tns.Tcp.Stack.{normal, listener, TcpStack, create_normal_socket}
use tns.Tcp.Stack.Calls.{put_socket, settle}

pub record Fresh : Type 0 where
  pub send_array : List ℕ
  pub recv_array : List ℕ
  pub isn : ℕ

-- `createActiveConnection_` up to its wait: the id of the socket that waits.
unfoldable pub start_active_connection :
    ℕ → Fresh → SessionTuple → TcpStack → ℕ → Option (Outcome ℕ × TcpStack × List Effect)
start_active_connection cap f tuple t now = do
  let make = λ (id : ℕ). make_active_socket f.send_array f.recv_array id tuple f.isn
  r ← create_normal_socket tuple make t
  elim r.0 [
    | waits ↦ none
    | error e ↦ some (error e, r.1, [])
    | value id ↦ do
      s ← active_open cap (make id) now
      some (value id, put_socket id (normal s.0) r.1, s.1)
  ]

-- `vConnect` up to its wait: the port is that of `generatePortNumber_`.
unfoldable pub v_connect :
    ℕ → Fresh → ℕ → ℕ → Ipv4Address → TcpStack → ℕ → Option (Outcome ℕ × TcpStack × List Effect)
v_connect cap f addr port remote t now =
    let local : Ipv4Address = record { addr = addr; port = hton16 port } in
    start_active_connection cap f (record { local = local; remote = remote }) t now

-- The rest of it, for the socket of an id and the result that its wait ends with.
unfoldable pub finish_active_connection :
    ℕ → Option SocketError → TcpStack → Option (Outcome ℕ × TcpStack)
finish_active_connection id (some e) t = some (error e, t)
finish_active_connection id none t = elim (find id t.socket_table) [
  | some (normal s) ↦ do s' ← finish_active_open s; some (value id, put_socket id (normal s') t)
  | _ ↦ none
]

-- `createPassiveConnection_` for the listener `l`.
unfoldable pub create_passive_connection :
    ℕ
    → Fresh
    → ListenSocket
    → SessionTuple
    → ℕ
    → ℕ
    → TcpStack
    → ℕ
    → Option (Outcome ℕ × TcpStack × List Effect)
create_passive_connection cap f l tuple client_isn client_wnd t now = do
  let make =
      λ (id : ℕ). make_passive_socket f.send_array f.recv_array id tuple f.isn client_isn client_wnd
  r ← create_normal_socket tuple make t
  elim r.0 [
    | waits ↦ none
    | error e ↦ some (error e, r.1, [])
    | value id ↦ do
      s ← passive_open cap l.id (length l.pending) (make id) now
      let (added, l') = add_pending tuple id l
      let t' = put_socket l.id (listener l') (put_socket id (normal s.1) r.1)
      elim s.0 [ error e ↦ some (error e, t', s.2) | _ ↦ some (value id, t', s.2) ]
  ]

-- The handler of a listen socket: a SYN opens a connection, and any other event is ignored.
unfoldable pub listener_handler :
    ℕ → Fresh → ListenSocket → Event → TcpStack → ℕ → Option (TcpStack × List Effect)
listener_handler cap f l (get_syn session isn wnd) t now = elim l.state [
  | State.listen ↦ do r ← create_passive_connection cap f l session isn wnd t now; some (r.1, r.2)
  | _ ↦ some (t, [])
]
listener_handler cap f l e t now = some (t, [])

-- Whether the listener that a socket in SYN-RECEIVED came from has it in its list.
unfoldable pub is_pending : NormalSocket → TcpStack → Bool
is_pending s t = elim s.state [
  | State.syn_received l ↦ elim (find l t.socket_table) [
    | some (listener ls) ↦ is_some (remove_pending s.tuple ls).0
    | _ ↦ false
  ]
  | _ ↦ false
]

unfoldable pub push_accepted : Option ℕ → ℕ → TcpStack → Option TcpStack
push_accepted none id t = some t
push_accepted (some l) id t = elim (find l t.socket_table) [
  | some (listener ls) ↦ some (put_socket l (listener (push_and_notify id ls)) t)
  | _ ↦ none
]

-- The handler of a normal socket, and then what it does to the socket's listener.
unfoldable pub socket_handler :
    ℕ → ℕ → NormalSocket → Event → TcpStack → ℕ → Option (TcpStack × List Effect)
socket_handler cap id s e t now = do
  h ← event_handler cap s (is_pending s t) e now
  r ← settle id h.sock h.effects t
  t' ← push_accepted h.push_accepted id r.0
  some (t', r.1)

-- `tcpProtocolHandler` on a packet from `src` to `dst` whose checksum has been found right.
unfoldable pub packet_handler :
    ℕ → Fresh → ℕ → ℕ → Packet → TcpStack → ℕ → Option (TcpStack × List Effect)
packet_handler cap f src dst p t now =
    let session : SessionTuple = record {
      local = record { addr = dst; port = p.dst_port };
      remote = record { addr = src; port = p.src_port };
    } in
    elim (from_packet p session) [
      | none ↦ some (t, [])
      | some e ↦ elim (find session t.session_to_socket) [
        | some id ↦ elim (find id t.socket_table) [
          | some (normal s) ↦ socket_handler cap id s e t now
          | _ ↦ none
        ]
        | none ↦ elim (find (hton16 p.dst_port) t.port_to_listen_socket) [
          | none ↦ some (t, [])
          | some l ↦ elim (find l t.socket_table) [
            | some (listener ls) ↦ listener_handler cap f ls e t now
            | _ ↦ none
          ]
        ]
      ]
    ]

-- `tcpProtocolHandler`: a datagram whose payload is no packet is dropped.
unfoldable pub tcp_protocol_handler :
    ℕ → Fresh → Datagram → TcpStack → ℕ → Option (TcpStack × List Effect)
unfolding packet_handler
tcp_protocol_handler cap f d t now =
    elim (make_packet_from_payload d.header.saddr d.header.daddr d.payload) [
      | packet p ↦ packet_handler cap f d.header.saddr d.header.daddr p t now
      | _ ↦ some (t, [])
    ]
