-- ===== src/Tcp/Handlers/Identity.antt =====
-- No handler and no call of a socket changes its id or its session.
use tns.Common.{ℕ, ◌≡◌, Bool, some, List, arith}
use tns.Tcp.SocketError.{Outcome}
use tns.Tcp.States.{Event}
use tns.Tcp.Sockets.{NormalSocket, Effect, shutdown, shutdown_send, shutdown_recv}
use tns.Tcp.Sockets
use tns.Tcp.Connections.{active_open, finish_active_open, passive_open}
use tns.Tcp.Handlers.{
  Handled, ignored, ack_sent, syn_sent_get_syn_ack, syn_received_get_ack, receive_data,
  data_state_get_ack, established_get_syn_ack, acknowledge_fin, established_get_fin,
  closing_state_get_fin, fin_wait1_get_ack, fin_wait2_get_fin, last_ack_get_ack, visit_handler,
  event_handler,
}

pub record Same (s s' : NormalSocket) : Type 0 where
  pub id : s'.id ≡ s.id
  pub tuple : s'.tuple ≡ s.tuple

data_state-Same :
    (cap : ℕ) (s : NormalSocket) (seq ack wnd : ℕ) (payload : List ℕ) (now : ℕ) (h : Handled)
    → data_state_get_ack cap s seq ack wnd payload now ≡ some h
    → Same s h.sock
unfolding data_state_get_ack receive_data ack_sent
data_state-Same cap s seq ack wnd payload now h e = record {
  id = ground arith;
  tuple = ground arith;
}

fin_wait1-Same :
    (cap : ℕ) (s : NormalSocket) (seq ack wnd : ℕ) (payload : List ℕ) (now : ℕ) (h : Handled)
    → fin_wait1_get_ack cap s seq ack wnd payload now ≡ some h
    → Same s h.sock
unfolding fin_wait1_get_ack receive_data ack_sent
fin_wait1-Same cap s seq ack wnd payload now h e = record {
  id = ground arith;
  tuple = ground arith;
}

syn_sent-Same :
    (cap : ℕ) (s : NormalSocket) (isn ack wnd : ℕ) (now : ℕ) (h : Handled)
    → syn_sent_get_syn_ack cap s isn ack wnd now ≡ some h
    → Same s h.sock
unfolding syn_sent_get_syn_ack ack_sent
syn_sent-Same cap s isn ack wnd now h e = record { id = ground arith; tuple = ground arith }

syn_received-Same :
    (l : ℕ) (s : NormalSocket) (p : Bool) (seq ack wnd : ℕ) (now : ℕ) (h : Handled)
    → syn_received_get_ack l s p seq ack wnd now ≡ some h
    → Same s h.sock
unfolding syn_received_get_ack ack_sent
syn_received-Same l s p seq ack wnd now h e = record { id = ground arith; tuple = ground arith }

established_fin-Same :
    (cap : ℕ) (s : NormalSocket) (seq wnd : ℕ) (now : ℕ) (h : Handled)
    → established_get_fin cap s seq wnd now ≡ some h
    → Same s h.sock
unfolding established_get_fin shutdown_recv acknowledge_fin ack_sent
established_fin-Same cap s seq wnd now h e = record { id = ground arith; tuple = ground arith }

fin_wait2-Same :
    (cap : ℕ) (s : NormalSocket) (seq wnd : ℕ) (now : ℕ) (h : Handled)
    → fin_wait2_get_fin cap s seq wnd now ≡ some h
    → Same s h.sock
unfolding fin_wait2_get_fin acknowledge_fin ack_sent
fin_wait2-Same cap s seq wnd now h e = record { id = ground arith; tuple = ground arith }

closing_state-Same :
    (cap : ℕ) (s : NormalSocket) (seq wnd : ℕ) (now : ℕ) (h : Handled)
    → closing_state_get_fin cap s seq wnd now ≡ some h
    → Same s h.sock
unfolding closing_state_get_fin acknowledge_fin ack_sent
closing_state-Same cap s seq wnd now h e = record { id = ground arith; tuple = ground arith }

last_ack-Same :
    (s : NormalSocket) (ack wnd : ℕ) (now : ℕ) (h : Handled)
    → last_ack_get_ack s ack wnd now ≡ some h
    → Same s h.sock
unfolding last_ack_get_ack ack_sent shutdown shutdown_send shutdown_recv
last_ack-Same s ack wnd now h e = record { id = ground arith; tuple = ground arith }

established_syn-Same :
    (cap : ℕ) (s : NormalSocket) (ack wnd : ℕ) (now : ℕ) (h : Handled)
    → established_get_syn_ack cap s ack wnd now ≡ some h
    → Same s h.sock
unfolding established_get_syn_ack ack_sent
established_syn-Same cap s ack wnd now h e = record { id = ground arith; tuple = ground arith }

ignored-Same : (s : NormalSocket) (h : Handled) → ignored s ≡ some h → Same s h.sock
ignored-Same s h r = record { id = ground arith; tuple = ground arith }

pub event_handler-Same :
    (cap : ℕ) (s : NormalSocket) (p : Bool) (e : Event) (now : ℕ) (h : Handled)
    → event_handler cap s p e now ≡ some h
    → Same s h.sock
unfolding event_handler visit_handler
event_handler-Same cap s p e now h r = grind (
  arith, ignored-Same, established_syn-Same, last_ack-Same, closing_state-Same, fin_wait2-Same,
  established_fin-Same, syn_received-Same, syn_sent-Same, fin_wait1-Same, data_state-Same,
)

pub v_close-Same :
    (cap : ℕ) (s : NormalSocket) (now : ℕ) (o : Outcome (Unit {0})) (s' : NormalSocket)
    (effects : List Effect)
    → Sockets.v_close cap s now ≡ some (o, s', effects)
    → Same s s'
unfolding Sockets.v_close Sockets.close_as Sockets.send_fin Sockets.send_packet_queued shutdown
    shutdown_send shutdown_recv
v_close-Same cap s now o s' effects h = record { id = ground arith; tuple = ground arith }

pub v_abort-Same : (s : NormalSocket) → Same s (Sockets.v_abort s).1
unfolding Sockets.v_abort shutdown shutdown_send shutdown_recv
v_abort-Same s = record { id = ground arith; tuple = ground arith }

pub v_send-Same :
    (cap : ℕ) (s : NormalSocket) (bytes : List ℕ) (r : Outcome ℕ × NormalSocket)
    → Sockets.v_send cap s bytes ≡ some r
    → Same s r.1
unfolding Sockets.v_send
v_send-Same cap s bytes r h = record { id = ground arith; tuple = ground arith }

pub v_recv-Same :
    (cap : ℕ) (s : NormalSocket) (n : ℕ) (r : Outcome (List ℕ) × NormalSocket)
    → Sockets.v_recv cap s n ≡ some r
    → Same s r.1
unfolding Sockets.v_recv
v_recv-Same cap s n r h = record { id = ground arith; tuple = ground arith }

pub active_open-Same :
    (cap : ℕ) (s : NormalSocket) (now : ℕ) (r : NormalSocket × List Effect)
    → active_open cap s now ≡ some r
    → Same s r.0
unfolding active_open Sockets.send_packet_queued
active_open-Same cap s now r h = record { id = ground arith; tuple = ground arith }

pub finish_active_open-Same : (s s' : NormalSocket) → finish_active_open s ≡ some s' → Same s s'
unfolding finish_active_open
finish_active_open-Same s s' h = record { id = ground arith; tuple = ground arith }

pub passive_open-Same :
    (cap l n : ℕ) (s : NormalSocket) (now : ℕ) (r : Outcome (Unit {0}) × NormalSocket × List Effect)
    → passive_open cap l n s now ≡ some r
    → Same s r.1
unfolding passive_open Sockets.send_packet_queued
passive_open-Same cap l n s now r h = record { id = ground arith; tuple = ground arith }

pub sender_round-Same :
    (cap : ℕ) (s : NormalSocket) (room now : ℕ)
    (r : Outcome (Unit {0}) × NormalSocket × List Effect)
    → Sockets.sender_round cap s room now ≡ some r
    → Same s r.1
unfolding Sockets.sender_round Sockets.send_packet_queued
sender_round-Same cap s room now r h = record { id = ground arith; tuple = ground arith }

pub zwp_round-Same :
    (cap : ℕ) (s : NormalSocket) (timed_out : Bool) (now : ℕ)
    (r : Outcome (Unit {0}) × NormalSocket × List Effect)
    → Sockets.zwp_round cap s timed_out now ≡ some r
    → Same s r.1
unfolding Sockets.zwp_round Sockets.send_zwp_packet
zwp_round-Same cap s timed_out now r h = record { id = ground arith; tuple = ground arith }

pub retransmit-Same : (s : NormalSocket) (now : ℕ) → Same s (Sockets.retransmit s now).0
unfolding Sockets.retransmit Sockets.v_abort shutdown shutdown_send shutdown_recv
retransmit-Same s now = record { id = ground arith; tuple = ground arith }
