-- ===== src/Tcp/Connections/Handshake.antt =====
-- The three-way handshake between two of these stacks.
use tns.Common.{
  ℕ, ◌+◌, ◌<◌, ◌≡◌, refl, true, false, Option, none, some, List, [], ◌∷◌, ◌>>=◌, u16_mod, u32_mod,
  arith,
}
use tns.Tcp.Packet.{
  SessionTuple, Packet, make_packet, make_syn_packet, make_syn_ack_packet, make_ack_packet,
}
use tns.Tcp.SocketError.{value}
use tns.Tcp.States.{State, Event, from_packet}
use tns.Tcp.Retransmission
use tns.Tcp.SendBuffer
use tns.Tcp.SendBuffer.{SendBuffer, write_and_send_one, probe_on_ack}
use tns.Tcp.RecvBuffer
use tns.Tcp.RecvBuffer.{RecvBuffer}
use tns.Tcp.Sockets.{
  NormalSocket, Effect, send_packet, wake_connect, forget_pending, send_packet_queued,
  send_packet_no_retransmit,
}
use tns.Tcp.Handlers.{
  visit_handler, event_handler, syn_sent_get_syn_ack, syn_received_get_ack, ack_sent, reply_ack,
}
use tns.Tcp.Connections.Exchange.{IsOpen, Exchange}
use tns.Tcp.Connections.{
  make_socket, make_active_socket, make_passive_socket, active_open, finish_active_open,
  passive_open,
}

-- The event of the packet that comes first in a list of effects.
abbrev pub first_event : List Effect → SessionTuple → Option Event
first_event (send_packet p to ∷ es) session = from_packet p session
first_event _ session = none

-- The socket that the listener makes of a SYN.
abbrev pub accept_syn : List ℕ → List ℕ → ℕ → SessionTuple → ℕ → Event → Option NormalSocket
accept_syn c d id tuple isn (Event.get_syn session client_isn client_wnd) =
    some (make_passive_socket c d id tuple isn client_isn client_wnd)
accept_syn c d id tuple isn _ = none

-- An active open from `client` to the listener `l`, whose host makes its socket by `accept`: the two
-- sockets when all three packets have arrived.
unfoldable pub handshake :
    (cap l n_pending now : ℕ)
    → NormalSocket
    → SessionTuple
    → (Event → Option NormalSocket)
    → Option (NormalSocket × NormalSocket)
handshake cap l n_pending now client server_tuple accept = do
  (c1, syn) ← active_open cap client now
  e1 ← first_event syn server_tuple
  server ← accept e1
  (o, s1, syn_ack) ← passive_open cap l n_pending server now
  e2 ← first_event syn_ack client.tuple
  c2 ← event_handler cap c1 false e2 now
  c3 ← finish_active_open c2.sock
  e3 ← first_event c2.effects server_tuple
  s2 ← event_handler cap s1 true e3 now
  some (c3, s2.sock)

module _ (cap l n_pending client_isn server_isn now : ℕ) (client_id server_id : ℕ)
    (client_tuple server_tuple : SessionTuple) (a b c d : List ℕ) (some_room : 0 < cap)
    (small : cap < u16_mod) (client_fits : client_isn + 1 < u32_mod)
    (server_fits : server_isn + 1 < u32_mod) (pending : n_pending < 64) where
  abbrev pub syn : Packet
  syn = make_syn_packet client_tuple client_isn cap

  abbrev pub syn_ack : Packet
  syn_ack = make_syn_ack_packet server_tuple server_isn (client_isn + 1) cap

  abbrev pub ack : Packet
  ack = make_ack_packet client_tuple (client_isn + 1) (server_isn + 1) cap []

  abbrev pub client : NormalSocket
  client = make_active_socket a b client_id client_tuple client_isn

  abbrev pub server : NormalSocket
  server = make_passive_socket c d server_id server_tuple server_isn client_isn cap

  -- A socket that has sent its SYN or SYN+ACK `p`, and is now in `st`.
  abbrev pub opened : NormalSocket → Packet → State → NormalSocket
  opened s p st = record s {
    state = st;
    send_buffer = record s.send_buffer {
      nxt = s.send_buffer.nxt + 1;
      nbw = s.send_buffer.nbw + 1;
      retransmit_queue = record {
        deque = record { packet = p; last_sent = now; counter = 0 } ∷ [];
        zwp_entry = none;
        rto = s.send_buffer.retransmit_queue.rto;
      };
    };
  }

  client_opens :
      active_open cap client now
      ≡ some (opened client syn State.syn_sent, send_packet syn client_tuple.remote ∷ [])
  unfolding active_open make_active_socket make_socket SendBuffer.make write_and_send_one
      send_packet_queued Retransmission.enqueue Retransmission.last_end RecvBuffer.make
      make_syn_packet make_packet
  client_opens = ground arith

  syn-event :
      (session : SessionTuple)
      → from_packet syn session ≡ some (Event.get_syn session client_isn cap)
  unfolding from_packet make_syn_packet make_packet
  syn-event session = ground arith

  server_opens :
      passive_open cap l n_pending server now
      ≡ some (
        value tt,
        opened server syn_ack (State.syn_received l),
        send_packet syn_ack server_tuple.remote ∷ [],
      )
  unfolding passive_open make_passive_socket make_socket SendBuffer.make write_and_send_one
      send_packet_queued Retransmission.enqueue Retransmission.last_end RecvBuffer.make
      make_syn_ack_packet make_packet
  server_opens = ground (arith, pending)

  syn_ack-event :
      (session : SessionTuple)
      → from_packet syn_ack session ≡ some (Event.get_syn_ack server_isn (client_isn + 1) cap)
  unfolding from_packet make_syn_ack_packet make_packet
  syn_ack-event session = ground arith

  -- The same socket once the peer, with the number `peer_isn`, has acknowledged that.
  abbrev pub answered : NormalSocket → ℕ → State → NormalSocket
  answered s peer_isn st = record s {
    state = st;
    send_buffer = record s.send_buffer {
      una = s.send_buffer.nxt;
      wnd = cap;
      retransmit_queue = Retransmission.on_ack s.send_buffer.retransmit_queue s.send_buffer.nxt now;
    };
    recv_buffer = record s.recv_buffer { nbr = peer_isn + 1; nxt = peer_isn + 1 };
  }

  client_handles :
      event_handler cap
        (opened client syn State.syn_sent)
        false
        (Event.get_syn_ack server_isn (client_isn + 1) cap)
        now
      ≡ some (record {
        sock = answered (opened client syn State.syn_sent) server_isn State.syn_sent;
        effects = send_packet ack client_tuple.remote ∷ wake_connect none ∷ [];
        push_accepted = none;
      })
  unfolding event_handler visit_handler syn_sent_get_syn_ack ack_sent reply_ack
      send_packet_no_retransmit SendBuffer.on_ack probe_on_ack RecvBuffer.set_pointers
      make_active_socket make_socket SendBuffer.make RecvBuffer.make make_ack_packet make_packet
  client_handles = ground arith

  client_finishes :
      finish_active_open (answered (opened client syn State.syn_sent) server_isn State.syn_sent)
      ≡ some (answered (opened client syn State.syn_sent) server_isn State.established)
  unfolding finish_active_open make_active_socket make_socket SendBuffer.make RecvBuffer.make
  client_finishes = ground arith

  client-IsOpen :
      IsOpen client_isn server_isn cap
        (answered (opened client syn State.syn_sent) server_isn State.established)
  unfolding make_active_socket make_socket SendBuffer.make RecvBuffer.make Retransmission.on_ack
      Retransmission.drop_acked Retransmission.drop_zwp make_syn_packet make_packet
  client-IsOpen = ground arith

  ack-event :
      (session : SessionTuple)
      → from_packet ack session ≡ some (Event.get_ack (client_isn + 1) (server_isn + 1) cap [])
  unfolding from_packet make_ack_packet make_packet
  ack-event session = ground arith

  server_handles :
      event_handler cap
        (opened server syn_ack (State.syn_received l))
        true
        (Event.get_ack (client_isn + 1) (server_isn + 1) cap [])
        now
      ≡ some (record {
        sock = answered (opened server syn_ack (State.syn_received l)) client_isn State.established;
        effects = forget_pending l server_tuple ∷ [];
        push_accepted = some l;
      })
  unfolding event_handler visit_handler syn_received_get_ack ack_sent SendBuffer.on_ack probe_on_ack
      make_passive_socket make_socket SendBuffer.make RecvBuffer.make
  server_handles = ground arith

  server-IsOpen :
      IsOpen server_isn client_isn cap
        (answered (opened server syn_ack (State.syn_received l)) client_isn State.established)
  unfolding make_passive_socket make_socket SendBuffer.make RecvBuffer.make Retransmission.on_ack
      Retransmission.drop_acked Retransmission.drop_zwp make_syn_ack_packet make_packet
  server-IsOpen = ground arith

  pub exchange :
      Exchange cap l n_pending client_isn server_isn now client_tuple server_tuple client server
  exchange = record {
    client1 = opened client syn State.syn_sent;
    client2 = answered (opened client syn State.syn_sent) server_isn State.syn_sent;
    client3 = answered (opened client syn State.syn_sent) server_isn State.established;
    server1 = opened server syn_ack (State.syn_received l);
    server2 = answered (opened server syn_ack (State.syn_received l)) client_isn State.established;
    opens = client_opens;
    opening = refl;
    syn_event = syn-event;
    answers = server_opens;
    received = refl;
    tuple = unfold make_passive_socket in refl;
    syn_ack_event = syn_ack-event;
    handles = client_handles;
    finishes = client_finishes;
    ack_event = ack-event;
    accepts = server_handles;
    client_open = client-IsOpen;
    server_open = server-IsOpen;
  }

  -- When its three packets arrive, an active open to a listener with a free pending slot leaves both
  -- sockets established, each with its SYN acknowledged and no longer queued, nothing in flight, the
  -- window of the other, and the other's number plus one as the next byte to receive. The buffers hold
  -- fewer than 2 ^ 16 bytes and neither initial number is the last.
  pub handshake-IsOpen :
      (c3 : NormalSocket) × (s2 : NormalSocket) × (handshake cap l n_pending now client server_tuple
          (accept_syn c d server_id server_tuple server_isn)
        ≡ some (c3, s2))
      × IsOpen client_isn server_isn cap c3
      × IsOpen server_isn client_isn cap s2
  unfolding handshake from_packet make_active_socket Retransmission.on_ack make_passive_socket
  handshake-IsOpen = (
    _,
    _,
    rw
        (
          client_opens,
          syn-event server_tuple,
          server_opens,
          syn_ack-event client_tuple,
          client_handles,
          client_finishes,
          ack-event server_tuple,
          server_handles,
        )
        refl,
    client-IsOpen,
    server-IsOpen,
  )
