-- ===== src/Tcp/Stack/Answering.antt =====
-- What the packets of a handshake do to the sockets that they are for, in the table.
use tns.Common.{
  ℕ, ◌≡◌, refl, true, false, none, some, List, [], ◌∷◌, ◌++◌, arith, ◌==◌, find, find-modify,
  nat_eq, is_some,
}
use tns.Ip.Address.{Ipv4Address, hton16}
use tns.Ip.Datagram.{IpHeader, Datagram}
use tns.Tcp.Packet.{SessionTuple, Packet, session_eq, same_session_iff}
use tns.Tcp.SocketError.{value}
use tns.Tcp.States.{State, Event, from_packet}
use tns.Tcp.Sockets.{NormalSocket, send_packet, wake_connect, forget_pending}
use tns.Tcp.Handlers.{event_handler}
use tns.Tcp.Listeners.{ListenSocket, remove_first, remove_pending, push_and_notify, wait_and_pop}
use tns.Tcp.Stack.{normal, listener, TcpStack}
use tns.Tcp.Stack.Calls.{put_socket, forget, settle, v_accept}
use tns.Tcp.Stack.Packets.{
  Fresh, is_pending, push_accepted, socket_handler, listener_handler, tcp_protocol_handler,
}
use tns.Tcp.Wire.{serialize, packet_checksum}
use tns.Tcp.Wire.Roundtrip.{FitsWords, make_packet_from_payload-serialize}

-- A packet of a session on its way, in an IP header with whatever other fields.
abbrev pub segment : IpHeader → SessionTuple → Packet → Datagram
segment h k p = record {
  header = record h { saddr = k.local.addr; daddr = k.remote.addr };
  payload = serialize p (packet_checksum k p);
}

-- The session of the receiver.
abbrev pub flipped : SessionTuple → SessionTuple
flipped k = record { local = k.remote; remote = k.local }

-- The packet is of the session `k` of its sender.
pub record IsOf (k : SessionTuple) (p : Packet) : Type 0 where
  pub fits : FitsWords p
  pub src : p.src_port ≡ k.local.port
  pub dst : p.dst_port ≡ k.remote.port

pub segment-socket_handler :
    (cap : ℕ) (f : Fresh) (h : IpHeader) (k : SessionTuple) (p : Packet) (e : Event) (t : TcpStack)
    (now id : ℕ) (s : NormalSocket)
    → IsOf k p
    → from_packet p (flipped k) ≡ some e
    → find (flipped k) t.session_to_socket ≡ some id
    → find id t.socket_table ≡ some (normal s)
    → tcp_protocol_handler cap f (segment h k p) t now ≡ socket_handler cap id s e t now
unfolding tcp_protocol_handler
segment-socket_handler cap f h k p e t now id s o is there held =
    ground (arith, make_packet_from_payload-serialize k p o.fits, o.src, o.dst, is, there, held)

pub segment-listener_handler :
    (cap : ℕ) (f : Fresh) (h : IpHeader) (k : SessionTuple) (p : Packet) (e : Event) (t : TcpStack)
    (now : ℕ) (l : ListenSocket)
    → IsOf k p
    → from_packet p (flipped k) ≡ some e
    → find (flipped k) t.session_to_socket ≡ none
    → find (hton16 k.remote.port) t.port_to_listen_socket ≡ some l.id
    → find l.id t.socket_table ≡ some (listener l)
    → tcp_protocol_handler cap f (segment h k p) t now ≡ listener_handler cap f l e t now
unfolding tcp_protocol_handler
segment-listener_handler cap f h k p e t now l o is fresh there held =
    ground
      (arith, make_packet_from_payload-serialize k p o.fits, o.src, o.dst, is, fresh, there, held)

-- The answer to a SYN+ACK is sent, and the connect is woken.
pub socket_handler-answers :
    (cap id : ℕ) (s s' : NormalSocket) (e : Event) (t : TcpStack) (now : ℕ) (p : Packet)
    (to : Ipv4Address)
    → s.state ≡ State.syn_sent
    → event_handler cap s false e now
      ≡ some (record {
        sock = s';
        effects = send_packet p to ∷ wake_connect none ∷ [];
        push_accepted = none;
      })
    → socket_handler cap id s e t now
      ≡ some (put_socket id (normal s') t, send_packet p to ∷ wake_connect none ∷ [])
unfolding socket_handler is_pending settle push_accepted
socket_handler-answers cap id s s' e t now p to state h =
    let quiet : is_pending s t ≡ false = ground (arith, state) in ground (arith, quiet, h)

remove_first-found :
    (k : SessionTuple) (id : ℕ) (xs : List (SessionTuple × ℕ))
    → is_some (remove_first k (xs ++ ((k, id) ∷ []))).0 ≡ true
unfolding remove_first
remove_first-found k id [] = rw ((same_session_iff k k).1 refl) refl
remove_first-found k id ((s, i) ∷ xs) = ground (arith, remove_first-found k id xs)

-- A listener whose first connection has been accepted.
pub record Accepts (t t' : TcpStack) (id l : ℕ) (s : NormalSocket) : Type 0 where
  pub socket : find id t'.socket_table ≡ some (normal s)
  pub accepted :
      (t2 : TcpStack) × (v_accept l t' ≡ some (value id, t2))
      × (find id t2.socket_table ≡ some (normal s))

-- The ACK of a SYN+ACK moves the socket from the pending list of its listener to its queue.
pub socket_handler-Accepts :
    (cap id : ℕ) (s s' : NormalSocket) (k : SessionTuple) (e : Event) (t : TcpStack) (now : ℕ)
    (l : ListenSocket) (xs : List (SessionTuple × ℕ))
    → s.state ≡ State.syn_received l.id
    → s.tuple ≡ k
    → find id t.socket_table ≡ some (normal s)
    → find l.id t.socket_table ≡ some (listener l)
    → l.pending ≡ xs ++ ((k, id) ∷ [])
    → l.accept_queue ≡ []
    → l.closed ≡ false
    → event_handler cap s true e now
      ≡ some (record { sock = s'; effects = forget_pending l.id k ∷ []; push_accepted = some l.id })
    → (t' : TcpStack) × (socket_handler cap id s e t now ≡ some (t', [])) × Accepts t t' id l.id s'
unfolding socket_handler is_pending settle push_accepted forget remove_pending push_and_notify
    v_accept wait_and_pop
socket_handler-Accepts cap id s s' k e t now l xs state tuple here there pending queue open_ h =
    let found = remove_first-found k id xs in
    let l1 = record l { pending = (remove_first k l.pending).1 } in
    let l2 = record l1 { accept_queue = l.accept_queue ++ (id ∷ []) } in
    let t1 = put_socket id (normal s') t in
    let t2 = put_socket l.id (listener l1) t1 in
    let t3 = put_socket l.id (listener l2) t2 in
    let apart : (l.id == id) ≡ false = ground (arith, here, there) in
    let is : is_pending s t ≡ true = ground (arith, state, tuple, there, pending, found) in
    let at1 = λ (j : ℕ). find-modify j id (λ _. normal s') t.socket_table in
    let at2 = λ (j : ℕ). find-modify j l.id (λ _. listener l1) t1.socket_table in
    let at3 = λ (j : ℕ). find-modify j l.id (λ _. listener l2) t2.socket_table in
    let f1 : find l.id t1.socket_table ≡ some (listener l) =
      ground (arith, at1 l.id, apart, there) in
    let f2 : find l.id t2.socket_table ≡ some (listener l1) = ground (arith, at2 l.id, f1) in
    let f3 : find l.id t3.socket_table ≡ some (listener l2) = ground (arith, at3 l.id, f2) in
    let g : find id t3.socket_table ≡ some (normal s') =
      ground (arith, at1 id, at2 id, at3 id, apart, here) in
    let l3 = record l2 { accept_queue = [] } in
    (
      t3,
      ground (arith, is, h, f1, f2),
      record {
        socket = g;
        accepted = (
          put_socket l.id (listener l3) t3,
          ground (arith, f3, queue, open_),
          ground (arith, find-modify id l.id (λ _. listener l3) t3.socket_table, apart, g),
        );
      },
    )
