-- ===== src/Tcp/Connections/Closing.antt =====
-- What each side of a close does on its own: the calls, and the handlers of the FIN and its ACK.
use tns.Common.{ℕ, ◌+◌, ◌<◌, ◌≡◌, false, none, some, List, [], ◌∷◌, to_u16, u32_mod, arith}
use tns.Tcp.Packet.{SessionTuple, make_packet, make_fin_packet, make_ack_packet}
use tns.Tcp.SocketError.{value}
use tns.Tcp.States.{State, Event, from_packet}
use tns.Tcp.Retransmission
use tns.Tcp.SendBuffer
use tns.Tcp.SendBuffer.{SendBuffer, write_and_send_one, probe_on_ack, pause}
use tns.Tcp.RecvBuffer
use tns.Tcp.RecvBuffer.{RecvBuffer}
use tns.Tcp.Sockets
use tns.Tcp.Sockets.{
  NormalSocket, Effect, send_packet, v_close, close_as, send_fin, send_packet_queued,
  send_packet_no_retransmit,
}
use tns.Tcp.Handlers.{
  visit_handler, event_handler, established_get_fin, acknowledge_fin, fin_wait1_get_ack,
  fin_wait2_get_fin, last_ack_get_ack, ack_sent, reply_ack,
}

-- An established socket with nothing in flight or unsent, and no probe under way. Its next number to
-- send is `own`.
pub record IsIdle (own : ℕ) (s : NormalSocket) : Type 0 where
  pub una : s.send_buffer.una ≡ own
  pub nxt : s.send_buffer.nxt ≡ own
  pub nbw : s.send_buffer.nbw ≡ own
  pub queue : s.send_buffer.retransmit_queue.deque ≡ []
  pub no_probe : s.send_buffer.zwp_state ≡ pause

-- `s` after its FIN, in the state `to`.
abbrev pub finished : ℕ → State → NormalSocket → ℕ → NormalSocket
finished cap to s now = record s {
  state = to;
  send_buffer = record s.send_buffer {
    nxt = s.send_buffer.nxt + 1;
    nbw = s.send_buffer.nbw + 1;
    retransmit_queue = record s.send_buffer.retransmit_queue {
      deque =
          record {
            packet =
                make_fin_packet s.tuple s.send_buffer.nxt
                  (to_u16 (RecvBuffer.size_free cap s.recv_buffer));
            last_sent = now;
            counter = 0;
          }
          ∷ [];
    };
  };
}

abbrev pub fin_effects : ℕ → NormalSocket → List Effect
fin_effects cap s =
    send_packet
      (make_fin_packet s.tuple s.send_buffer.nxt (to_u16 (RecvBuffer.size_free cap s.recv_buffer)))
      s.tuple.remote
    ∷ []

pub close-active :
    (cap own now : ℕ) (s : NormalSocket)
    → IsIdle own s
    → own + 1 < u32_mod
    → s.state ≡ State.established
    → v_close cap s now ≡ some (value tt, finished cap State.fin_wait1 s now, fin_effects cap s)
unfolding v_close close_as send_fin write_and_send_one send_packet_queued Retransmission.enqueue
    Retransmission.last_end
close-active cap own now s i h st = ground (arith, i, st)

pub close-passive :
    (cap own now : ℕ) (s : NormalSocket)
    → IsIdle own s
    → own + 1 < u32_mod
    → s.state ≡ State.close_wait
    → v_close cap s now ≡ some (value tt, finished cap State.last_ack s now, fin_effects cap s)
unfolding v_close close_as send_fin write_and_send_one send_packet_queued Retransmission.enqueue
    Retransmission.last_end
close-passive cap own now s i h st = ground (arith, i, st)

pub fin-event :
    (t session : SessionTuple) (seq wnd : ℕ)
    → from_packet (make_fin_packet t seq wnd) session ≡ some (Event.get_fin seq wnd)
unfolding from_packet make_fin_packet make_packet
fin-event t session seq wnd = ground arith

pub ack-event :
    (t session : SessionTuple) (seq ack wnd : ℕ)
    → from_packet (make_ack_packet t seq ack wnd []) session ≡ some (Event.get_ack seq ack wnd [])
unfolding from_packet make_ack_packet make_packet
ack-event t session seq ack wnd = ground arith

-- `s` after the FIN of the peer, its number `peer`, in the state `to`.
abbrev pub told : NormalSocket → ℕ → NormalSocket
told s peer = record s { recv_buffer = record s.recv_buffer { nxt = peer + 1 } }

acknowledge_fin-in_order :
    (cap own peer wnd now : ℕ) (s : NormalSocket)
    → 0 < own
    → s.send_buffer.una ≡ own
    → s.send_buffer.nxt ≡ own
    → s.recv_buffer.nxt ≡ peer
    → peer + 1 < u32_mod
    → acknowledge_fin cap s peer wnd now ≡ (
      told s peer,
      send_packet
            (make_ack_packet s.tuple own
              (peer + 1)
              (to_u16 (RecvBuffer.size_free cap (told s peer).recv_buffer))
              [])
            s.tuple.remote
          ∷ [],
      peer + 1,
    )
unfolding acknowledge_fin ack_sent reply_ack send_packet_no_retransmit SendBuffer.on_ack
    RecvBuffer.on_ctrl
acknowledge_fin-in_order cap own peer wnd now s pos u n r h = ground (arith, u, n, r)

-- `s` after the ACK of its FIN, in the state `to`.
abbrev pub acknowledged : NormalSocket → State → ℕ → ℕ → NormalSocket
acknowledged s to wnd now = record s {
  state = to;
  send_buffer = record s.send_buffer {
    wnd = wnd;
    una = s.send_buffer.nxt;
    retransmit_queue = Retransmission.on_ack s.send_buffer.retransmit_queue s.send_buffer.nxt now;
  };
}

module _ (cap own peer wnd now : ℕ) (s : NormalSocket) where
  pub handle_fin-established :
      0 < own
      → s.send_buffer.una ≡ own
      → s.send_buffer.nxt ≡ own
      → s.recv_buffer.nxt ≡ peer
      → peer + 1 < u32_mod
      → s.state ≡ State.established
      → event_handler cap s false (Event.get_fin peer wnd) now
        ≡ some (record {
          sock = record (Sockets.shutdown_recv (told s peer)) { state = State.close_wait };
          effects =
              send_packet
                (make_ack_packet s.tuple own
                  (peer + 1)
                  (to_u16 (RecvBuffer.size_free cap (told s peer).recv_buffer))
                  [])
                s.tuple.remote
              ∷ [];
          push_accepted = none;
        })
  unfolding event_handler visit_handler established_get_fin
  handle_fin-established pos u n r h st =
      ground (arith, acknowledge_fin-in_order cap own peer wnd now s pos u n r h, st)

  pub handle_fin-fin_wait2 :
      0 < own
      → s.send_buffer.una ≡ own
      → s.send_buffer.nxt ≡ own
      → s.recv_buffer.nxt ≡ peer
      → peer + 1 < u32_mod
      → s.state ≡ State.fin_wait2
      → event_handler cap s false (Event.get_fin peer wnd) now
        ≡ some (record {
          sock = record (told s peer) { state = State.time_wait now };
          effects =
              send_packet
                (make_ack_packet s.tuple own
                  (peer + 1)
                  (to_u16 (RecvBuffer.size_free cap (told s peer).recv_buffer))
                  [])
                s.tuple.remote
              ∷ [];
          push_accepted = none;
        })
  unfolding event_handler visit_handler fin_wait2_get_fin
  handle_fin-fin_wait2 pos u n r h st =
      ground (arith, acknowledge_fin-in_order cap own peer wnd now s pos u n r h, st)

  pub handle_ack-fin_wait1 :
      s.send_buffer.una ≡ own
      → s.send_buffer.nxt ≡ own + 1
      → s.recv_buffer.nxt ≡ peer
      → s.send_buffer.zwp_state ≡ pause
      → s.state ≡ State.fin_wait1
      → event_handler cap s false (Event.get_ack peer (own + 1) wnd []) now
        ≡ some (record {
          sock = acknowledged s State.fin_wait2 wnd now;
          effects = [];
          push_accepted = none;
        })
  unfolding event_handler visit_handler fin_wait1_get_ack ack_sent SendBuffer.on_ack probe_on_ack
  handle_ack-fin_wait1 u n r z st = ground (arith, u, n, r, z, st)

  pub handle_ack-last_ack :
      s.send_buffer.una ≡ own
      → s.send_buffer.nxt ≡ own + 1
      → s.send_buffer.zwp_state ≡ pause
      → s.state ≡ State.last_ack
      → event_handler cap s false (Event.get_ack peer (own + 1) wnd []) now
        ≡ some (record {
          sock = record (Sockets.shutdown (acknowledged s State.last_ack wnd now)) {
            state = State.closed;
          };
          effects = [];
          push_accepted = none;
        })
  unfolding event_handler visit_handler last_ack_get_ack ack_sent SendBuffer.on_ack probe_on_ack
      Sockets.shutdown
  handle_ack-last_ack u n z st = ground (arith, u, n, z, st)
