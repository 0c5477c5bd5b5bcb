-- ===== src/Tcp/Connections/Exchange.antt =====
-- What the three packets of a handshake are, and what they leave.
use tns.Common.{ℕ, ◌+◌, ◌≡◌, true, false, none, some, [], ◌∷◌}
use tns.Tcp.Packet.{SessionTuple, make_syn_packet, make_syn_ack_packet, make_ack_packet}
use tns.Tcp.SocketError.{value}
use tns.Tcp.States.{State, Event, from_packet}
use tns.Tcp.Sockets.{NormalSocket, send_packet, wake_connect, forget_pending}
use tns.Tcp.Handlers.{event_handler}
use tns.Tcp.Connections.{active_open, finish_active_open, passive_open}

-- A socket whose own SYN, with the number `isn`, has been acknowledged, and that has got a SYN with
-- the number `peer_isn`.
pub record IsOpen (isn peer_isn peer_wnd : ℕ) (s : NormalSocket) : Type 0 where
  pub state : s.state ≡ State.established
  pub una : s.send_buffer.una ≡ isn + 1
  pub nxt : s.send_buffer.nxt ≡ isn + 1
  pub nbw : s.send_buffer.nbw ≡ isn + 1
  pub wnd : s.send_buffer.wnd ≡ peer_wnd
  pub queue : s.send_buffer.retransmit_queue.deque ≡ []
  pub nbr : s.recv_buffer.nbr ≡ peer_isn + 1
  pub rcv_nxt : s.recv_buffer.nxt ≡ peer_isn + 1

-- The steps of the handshake between `client` and `server`, and the packets in them.
pub record Exchange (cap l n_pending client_isn server_isn now : ℕ)
    (client_tuple server_tuple : SessionTuple) (client server : NormalSocket) : Type 0 where
  pub client1 : NormalSocket
  pub client2 : NormalSocket
  pub client3 : NormalSocket
  pub server1 : NormalSocket
  pub server2 : NormalSocket
  pub opens :
      active_open cap client now
      ≡ some (
        client1,
        send_packet (make_syn_packet client_tuple client_isn cap) client_tuple.remote ∷ [],
      )
  pub opening : client1.state ≡ State.syn_sent
  pub syn_event :
      (k : SessionTuple)
      → from_packet (make_syn_packet client_tuple client_isn cap) k
        ≡ some (Event.get_syn k client_isn cap)
  pub answers :
      passive_open cap l n_pending server now
      ≡ some (
        value tt,
        server1,
        send_packet
              (make_syn_ack_packet server_tuple server_isn (client_isn + 1) cap)
              server_tuple.remote
            ∷ [],
      )
  pub received : server1.state ≡ State.syn_received l
  pub tuple : server1.tuple ≡ server_tuple
  pub syn_ack_event :
      (k : SessionTuple)
      → from_packet (make_syn_ack_packet server_tuple server_isn (client_isn + 1) cap) k
        ≡ some (Event.get_syn_ack server_isn (client_isn + 1) cap)
  pub handles :
      event_handler cap client1 false (Event.get_syn_ack server_isn (client_isn + 1) cap) now
      ≡ some (record {
        sock = client2;
        effects =
            send_packet
              (make_ack_packet client_tuple (client_isn + 1) (server_isn + 1) cap [])
              client_tuple.remote
            ∷ wake_connect none
            ∷ [];
        push_accepted = none;
      })
  pub finishes : finish_active_open client2 ≡ some client3
  pub ack_event :
      (k : SessionTuple)
      → from_packet (make_ack_packet client_tuple (client_isn + 1) (server_isn + 1) cap []) k
        ≡ some (Event.get_ack (client_isn + 1) (server_isn + 1) cap [])
  pub accepts :
      event_handler cap server1 true (Event.get_ack (client_isn + 1) (server_isn + 1) cap []) now
      ≡ some (record {
        sock = server2;
        effects = forget_pending l server_tuple ∷ [];
        push_accepted = some l;
      })
  pub client_open : IsOpen client_isn server_isn cap client3
  pub server_open : IsOpen server_isn client_isn cap server2
