-- ===== src/Tcp/Stack/Connecting.antt =====
-- A connection between two stacks: a connect to one that listens, its three packets on the wire, and
-- the accept.
use tns.Common.{
  ℕ, ◌+◌, ◌≡◌, ◌<◌, refl, ◌∙◌, false, Option, none, some, List, [], ◌∷◌, ◌++◌, arith, find,
  find-modify, nat_eq, length, ◌>>=◌, u16_mod, u32_mod,
}
use tns.Ip.Address.{Ipv4Address, hton16}
use tns.Ip.Datagram.{IpHeader, Datagram}
use tns.Tcp.Packet.{
  SessionTuple, Packet, session_eq, make_packet, make_syn_packet, make_syn_ack_packet,
  make_ack_packet,
}
use tns.Tcp.SocketError.{Outcome, value}
use tns.Tcp.States.{State, Event}
use tns.Tcp.Sockets.{NormalSocket, Effect, send_packet, wake_connect}
use tns.Tcp.Connections.{make_active_socket, make_passive_socket, max_pending_socks}
use tns.Tcp.Connections.Exchange.{IsOpen, Exchange}
use tns.Tcp.Connections.Handshake.{exchange}
use tns.Tcp.Listeners.{ListenSocket}
use tns.Tcp.Stack.{Socket, normal, listener, TcpStack}
use tns.Tcp.Stack.Calls.{put_socket, v_accept}
use tns.Tcp.Stack.Packets.{Fresh, v_connect, finish_active_connection, tcp_protocol_handler}
use tns.Tcp.Stack.Invariant.{session, IsValid, find_endpoint, same_endpoint_iff}
use tns.Tcp.Stack.Placing.{start_active_connection-Created, listener_handler-Pending}
use tns.Tcp.Stack.Answering.{
  segment, flipped, IsOf, segment-socket_handler, segment-listener_handler, socket_handler-answers,
  socket_handler-Accepts,
}

-- The datagram of the packet that comes first in a list of effects.
abbrev pub first_segment : IpHeader → SessionTuple → List Effect → Option Datagram
first_segment h k (send_packet p to ∷ es) = some (segment h k p)
first_segment h k _ = none

-- What a connect returns, the table of its host, what the accept returns, and the table of its host.
pub record Connected : Type 0 where
  pub connected : Outcome ℕ
  pub client : TcpStack
  pub accepted : Outcome ℕ
  pub server : TcpStack

-- `vConnect` at the stack `c` to a listener `l` of the stack `s`, and its `vAccept`, where every packet
-- arrives. A packet's IP header is `h`, with the addresses of the session.
unfoldable pub connect_accept :
    ℕ
    → Fresh
    → Fresh
    → IpHeader
    → ℕ
    → ℕ
    → Ipv4Address
    → ℕ
    → ℕ
    → TcpStack
    → TcpStack
    → Option Connected
connect_accept cap fc fs h addr port remote l now c s = do
  let k : SessionTuple = record {
    local = record { addr = addr; port = hton16 port };
    remote = remote;
  }
  r1 ← v_connect cap fc addr port remote c now
  d1 ← first_segment h k r1.2
  r2 ← tcp_protocol_handler cap fs d1 s now
  d2 ← first_segment h (flipped k) r2.1
  r3 ← tcp_protocol_handler cap fc d2 r1.1 now
  d3 ← first_segment h k r3.1
  elim r1.0 [
    | value id ↦ do
      r4 ← finish_active_connection id none r3.0
      r5 ← tcp_protocol_handler cap fs d3 r2.0 now
      r6 ← v_accept l r5.0
      some (record { connected = r4.0; client = r4.1; accepted = r6.0; server = r6.1 })
    | _ ↦ none
  ]

-- The sockets of an opened connection in the two tables.
pub record AreConnected (cap client_isn server_isn cid sid : ℕ) (done : Connected) : Type 0 where
  pub connected : done.connected ≡ value cid
  pub accepted : done.accepted ≡ value sid
  pub client :
      (x : NormalSocket) × (find cid done.client.socket_table ≡ some (normal x))
      × IsOpen client_isn server_isn cap x
  pub server :
      (x : NormalSocket) × (find sid done.server.socket_table ≡ some (normal x))
      × IsOpen server_isn client_isn cap x

find-put :
    (id : ℕ) (s : NormalSocket) (t : TcpStack) (x : Socket)
    → find id t.socket_table ≡ some x
    → find id (put_socket id (normal s) t).socket_table ≡ some (normal s)
find-put id s t x h = ground (arith, find-modify id id (λ _. normal s) t.socket_table)

module _ (cap : ℕ) (fc fs : Fresh) (h : IpHeader) (addr port : ℕ) (remote : Ipv4Address) (now : ℕ)
    (c s : TcpStack) (l : ListenSocket) (cid sid : ℕ) (cids sids : List ℕ) (some_room : 0 < cap)
    (small : cap < u16_mod) (client_fits : fc.isn + 1 < u32_mod)
    (server_fits : fs.isn + 1 < u32_mod) (port_fits : hton16 port < u16_mod)
    (remote_fits : remote.port < u16_mod) (pending : length l.pending < max_pending_socks) where
  abbrev k : SessionTuple
  k = record { local = record { addr = addr; port = hton16 port }; remote = remote }

  abbrev client : NormalSocket
  client = make_active_socket fc.send_array fc.recv_array cid k fc.isn

  abbrev server : NormalSocket
  server = make_passive_socket fs.send_array fs.recv_array sid (flipped k) fs.isn fc.isn cap

  abbrev syn : Packet
  syn = make_syn_packet k fc.isn cap

  abbrev syn_ack : Packet
  syn_ack = make_syn_ack_packet (flipped k) fs.isn (fc.isn + 1) cap

  abbrev ack : Packet
  ack = make_ack_packet k (fc.isn + 1) (fs.isn + 1) cap []

  syn-IsOf : IsOf k syn
  unfolding make_syn_packet make_packet
  syn-IsOf = record {
    fits = record {
      src_port = port_fits;
      dst_port = remote_fits;
      seq_num = omega arith;
      ack_num = omega arith;
      wnd_size = small;
    };
    src = refl;
    dst = refl;
  }

  syn_ack-IsOf : IsOf (flipped k) syn_ack
  unfolding make_syn_ack_packet make_packet
  syn_ack-IsOf = record {
    fits = record {
      src_port = remote_fits;
      dst_port = port_fits;
      seq_num = omega arith;
      ack_num = omega arith;
      wnd_size = small;
    };
    src = refl;
    dst = refl;
  }

  ack-IsOf : IsOf k ack
  unfolding make_ack_packet make_packet
  ack-IsOf = record {
    fits = record {
      src_port = port_fits;
      dst_port = remote_fits;
      seq_num = omega arith;
      ack_num = omega arith;
      wnd_size = small;
    };
    src = refl;
    dst = refl;
  }

  steps : Exchange cap l.id (length l.pending) fc.isn fs.isn now k (flipped k) client server
  steps =
      exchange cap l.id (length l.pending) fc.isn fs.isn now cid sid k (flipped k) fc.send_array
        fc.recv_array fs.send_array fs.recv_array some_room small client_fits server_fits pending

  -- The client's side of it: the connect, the SYN+ACK, and the end of the connect.
  client_connects :
      IsValid c
      → find k c.session_to_socket ≡ none
      → c.free_socket_ids ≡ cid ∷ cids
      → (c1 : TcpStack) × (c2 : TcpStack) × (c3 : TcpStack) × (v_connect cap fc addr port remote c
            now
          ≡ some (value cid, c1, send_packet syn remote ∷ []))
        × (tcp_protocol_handler cap fc (segment h (flipped k) syn_ack) c1 now
            ≡ some (c2, send_packet ack remote ∷ wake_connect none ∷ []))
        × (finish_active_connection cid none c2 ≡ some (value cid, c3))
        × ((x : NormalSocket) × (find cid c3.socket_table ≡ some (normal x))
            × IsOpen fc.isn fs.isn cap x)
  unfolding v_connect finish_active_connection
  client_connects valid fresh free =
      let e = steps in
      let event = Event.get_syn_ack fs.isn (fc.isn + 1) cap in
      let (c1, opens, made) =
        start_active_connection-Created cap fc k c now cid cids e.client1 _ valid fresh free
          e.opens in
      let own = (same_endpoint_iff (session k) (session k)).1 refl in
      let there : find k c1.session_to_socket ≡ some cid =
        unfold find_endpoint in ground (arith, made.endpoint (session k), own) in
      let held : find cid c1.socket_table ≡ some (normal e.client1) =
        ground (arith, made.socket cid) in
      let hears =
        segment-socket_handler cap fc h (flipped k) syn_ack event c1 now cid e.client1 syn_ack-IsOf
          (e.syn_ack_event k) there held in
      let answers =
        socket_handler-answers cap cid e.client1 e.client2 event c1 now ack remote e.opening
          e.handles in
      let c2 = put_socket cid (normal e.client2) c1 in
      let held2 = find-put cid e.client2 c1 _ held in
      (
        c1,
        c2,
        put_socket cid (normal e.client3) c2,
        opens,
        hears ∙ answers,
        ground (arith, held2, e.finishes),
        (e.client3, find-put cid e.client3 c2 _ held2, e.client_open),
      )

  -- The server's side of it: the SYN, the ACK, and the accept.
  server_accepts :
      IsValid s
      → find (flipped k) s.session_to_socket ≡ none
      → s.free_socket_ids ≡ sid ∷ sids
      → find l.id s.socket_table ≡ some (listener l)
      → find (hton16 remote.port) s.port_to_listen_socket ≡ some l.id
      → l.state ≡ State.listen
      → l.accept_queue ≡ []
      → l.closed ≡ false
      → (s1 : TcpStack) × (s2 : TcpStack) × (s3 : TcpStack) × (tcp_protocol_handler cap fs
            (segment h k syn)
            s
            now
          ≡ some (s1, send_packet syn_ack (flipped k).remote ∷ []))
        × (tcp_protocol_handler cap fs (segment h k ack) s1 now ≡ some (s2, []))
        × (v_accept l.id s2 ≡ some (value sid, s3))
        × ((x : NormalSocket) × (find sid s3.socket_table ≡ some (normal x))
            × IsOpen fs.isn fc.isn cap x)
  server_accepts valid fresh free there on_port listens empty is_open =
      let e = steps in
      let event = Event.get_ack (fc.isn + 1) (fs.isn + 1) cap [] in
      let hears =
        segment-listener_handler cap fs h k syn (Event.get_syn (flipped k) fc.isn cap) s now l
          syn-IsOf (e.syn_event (flipped k)) fresh on_port there in
      let (s1, answers, pend) =
        listener_handler-Pending cap fs l (flipped k) fc.isn cap s now sid sids e.server1 _ valid
          there listens pending fresh free e.answers in
      let hears2 =
        segment-socket_handler cap fs h k ack event s1 now sid e.server1 ack-IsOf
          (e.ack_event (flipped k)) pend.session pend.socket in
      let l' = record l { pending = l.pending ++ ((flipped k, sid) ∷ []) } in
      let (s2, takes, accepts) =
        socket_handler-Accepts cap sid e.server1 e.server2 (flipped k) event s1 now l' l.pending
          e.received e.tuple pend.socket pend.listens refl empty is_open e.accepts in
      let (s3, pops, held) = accepts.accepted in
      (s1, s2, s3, hears ∙ answers, hears2 ∙ takes, pops, (e.server2, held, e.server_open))

  -- A connect to a listener with an empty accept queue and fewer than the most pending connections, from
  -- one valid stack to another, where neither has a socket of the session and each has a free id, and
  -- where the three packets arrive as bytes in IP datagrams: the connect and the accept return the lowest
  -- free ids, and the sockets there are established, each with its SYN acknowledged and the other's
  -- number after its SYN as the next byte to receive.
  pub connect_accept-AreConnected :
      IsValid c
      → find k c.session_to_socket ≡ none
      → c.free_socket_ids ≡ cid ∷ cids
      → IsValid s
      → find (flipped k) s.session_to_socket ≡ none
      → s.free_socket_ids ≡ sid ∷ sids
      → find l.id s.socket_table ≡ some (listener l)
      → find (hton16 remote.port) s.port_to_listen_socket ≡ some l.id
      → l.state ≡ State.listen
      → l.accept_queue ≡ []
      → l.closed ≡ false
      → (done : Connected) × (connect_accept cap fc fs h addr port remote l.id now c s ≡ some done)
        × AreConnected cap fc.isn fs.isn cid sid done
  unfolding connect_accept
  connect_accept-AreConnected cv cf ci sv sf si there on_port listens empty is_open =
      let (c1, c2, c3, opens, answers, finishes, client_open) = client_connects cv cf ci in
      let (s1, s2, s3, hears, takes, pops, server_open) =
        server_accepts sv sf si there on_port listens empty is_open in
      (
        record { connected = value cid; client = c3; accepted = value sid; server = s3 },
        ground (arith, opens, hears, answers, finishes, takes, pops),
        record { connected = refl; accepted = refl; client = client_open; server = server_open },
      )
