-- ===== src/Tcp/Handlers.antt =====
-- lib/src/tcp/tcp_stack.cpp: the handlers of packets, one for each `eventHandler_` of a normal socket,
-- and their choice by state and event. `none` is a failed assertion or an exception. The sleep of the
-- first handler, and what is printed, are left out.
pub mod Transitions
pub mod Identity
use tns.Common.{
  ℕ, ◌+◌, Bool, true, false, not, ◌||◌, Option, none, some, List, [], ◌∷◌, ◌++◌, ◌==◌,
  if◌then◌else◌, length, to_u16, add_u32,
}
use tns.Tcp.Packet.{SessionTuple, same_session, Packet, make_ack_packet}
use tns.Tcp.SocketError.{SocketError}
use tns.Tcp.States.{State, Event}
use tns.Tcp.SendBuffer
use tns.Tcp.RecvBuffer.{RecvBuffer, set_pointers, on_ctrl, on_recv, get_ack_wnd, size_free}
use tns.Tcp.Sockets.{
  NormalSocket, Effect, send_packet, wake_connect, forget_pending, shutdown_recv, shutdown,
  send_packet_no_retransmit,
}

-- `push_accepted l` is `acceptQ_.pushAndNotify(sock)` on the listener `l`.
pub record Handled : Type 0 where
  pub sock : NormalSocket
  pub effects : List Effect
  pub push_accepted : Option ℕ

abbrev pub ignored : NormalSocket → Option Handled
ignored s = some (record { sock = s; effects = []; push_accepted = none })

-- `sendBuffer_.onAck`: the pair that it returns, and the socket.
unfoldable pub ack_sent : NormalSocket → ℕ → ℕ → ℕ → (ℕ × ℕ) × NormalSocket
ack_sent s ack_num wnd_size now =
    let (pair, b) = SendBuffer.on_ack s.send_buffer ack_num wnd_size now in
    (pair, record s { send_buffer = b })

-- `sendPacketNoRetransmit_(makeAckPacket(...))`, or `sendPacket` to the same address.
unfoldable pub reply_ack : NormalSocket → ℕ → ℕ → ℕ → List Effect
unfolding send_packet_no_retransmit
reply_ack s seq ack wnd =
    send_packet_no_retransmit s (make_ack_packet s.tuple seq ack (to_u16 wnd) [])

unfoldable pub syn_sent_get_syn_ack : ℕ → NormalSocket → ℕ → ℕ → ℕ → ℕ → Option Handled
unfolding ack_sent reply_ack
syn_sent_get_syn_ack cap s server_isn ack_num server_wnd now =
    let (pair, s1) = ack_sent s ack_num server_wnd now in
    let (una, nxt) = pair in
    let ack = add_u32 server_isn 1 in
    let s2 = record s1 { recv_buffer = set_pointers s1.recv_buffer ack } in
    if not (una == nxt)
    then ignored s1
    else some (record {
      sock = s2;
      effects = reply_ack s2 nxt ack (size_free cap s2.recv_buffer) ++ (wake_connect none ∷ []);
      push_accepted = none;
    })

-- `is_pending` says whether the listener's pending connections have the socket.
unfoldable pub syn_received_get_ack : ℕ → NormalSocket → Bool → ℕ → ℕ → ℕ → ℕ → Option Handled
unfolding ack_sent
syn_received_get_ack l s is_pending seq_num ack_num wnd_size now =
    let (pair, s1) = ack_sent s ack_num wnd_size now in
    let (una, nxt) = pair in
    let b = s1.send_buffer in
    if not (seq_num == s.recv_buffer.nxt)
    then ignored s
    else if not (una == nxt)
    then ignored s1
    else if not (b.una == b.nxt) || not (b.nxt == b.nbw)
    then none
    else if not (s1.recv_buffer.nbr == s1.recv_buffer.nxt)
    then none
    else if is_pending
    then some (record {
      sock = record s1 { state = State.established };
      effects = forget_pending l s.tuple ∷ [];
      push_accepted = some l;
    })
    else none

-- `onRecv` on a payload that is not empty, and the acknowledgement.
unfoldable pub receive_data : ℕ → NormalSocket → ℕ → ℕ → List ℕ → Option Handled
unfolding reply_ack
receive_data cap s nxt seq_num payload = elim (on_recv cap s.recv_buffer seq_num payload) [
  | none ↦ none
  | some (pair, b) ↦
      let (ack, wnd) = pair in
      some (record {
        sock = record s { recv_buffer = b };
        effects = reply_ack s nxt ack wnd;
        push_accepted = none;
      })
]

-- ESTABLISHED, CLOSE-WAIT and FIN-WAIT-2 treat an ACK alike.
unfoldable pub data_state_get_ack : ℕ → NormalSocket → ℕ → ℕ → ℕ → List ℕ → ℕ → Option Handled
unfolding ack_sent receive_data
data_state_get_ack cap s seq_num ack_num wnd_size payload now =
    let (pair, s1) = ack_sent s ack_num wnd_size now in
    let (una, nxt) = pair in
    if length payload == 0 then ignored s1 else receive_data cap s1 nxt seq_num payload

unfoldable pub established_get_syn_ack : ℕ → NormalSocket → ℕ → ℕ → ℕ → Option Handled
unfolding ack_sent reply_ack
established_get_syn_ack cap s ack_num server_wnd now =
    let (pair, s1) = ack_sent s ack_num server_wnd now in
    let (una, nxt) = pair in
    let (ack, wnd) = get_ack_wnd cap s1.recv_buffer in
    some (record { sock = s1; effects = reply_ack s1 nxt ack wnd; push_accepted = none })

-- What every handler of a FIN begins with: the socket, its acknowledgement, and `ack`.
unfoldable pub acknowledge_fin : ℕ → NormalSocket → ℕ → ℕ → ℕ → NormalSocket × List Effect × ℕ
unfolding ack_sent reply_ack
acknowledge_fin cap s seq_num wnd_size now =
    let (pair, s1) = ack_sent s 0 wnd_size now in
    let (una, nxt) = pair in
    let (reply, b) = on_ctrl cap s1.recv_buffer seq_num in
    let (ack, wnd) = reply in (record s1 { recv_buffer = b }, reply_ack s1 nxt ack wnd, ack)

-- ESTABLISHED treats a FIN and a FIN+ACK alike.
unfoldable pub established_get_fin : ℕ → NormalSocket → ℕ → ℕ → ℕ → Option Handled
unfolding acknowledge_fin
established_get_fin cap s seq_num wnd_size now =
    let (s1, effects, ack) = acknowledge_fin cap s seq_num wnd_size now in
    let s2 =
      if ack == add_u32 seq_num 1
      then record (shutdown_recv s1) { state = State.close_wait }
      else s1 in
    some (record { sock = s2; effects = effects; push_accepted = none })

-- CLOSE-WAIT and TIME-WAIT treat a FIN alike.
unfoldable pub closing_state_get_fin : ℕ → NormalSocket → ℕ → ℕ → ℕ → Option Handled
unfolding acknowledge_fin
closing_state_get_fin cap s seq_num wnd_size now =
    let (s1, effects, ack) = acknowledge_fin cap s seq_num wnd_size now in
    some (record { sock = s1; effects = effects; push_accepted = none })

unfoldable pub fin_wait1_get_ack : ℕ → NormalSocket → ℕ → ℕ → ℕ → List ℕ → ℕ → Option Handled
unfolding ack_sent receive_data
fin_wait1_get_ack cap s seq_num ack_num wnd_size payload now =
    let (pair, s1) = ack_sent s ack_num wnd_size now in
    let (una, nxt) = pair in
    if not (length payload == 0)
    then receive_data cap s1 nxt seq_num payload
    else if not (seq_num == s1.recv_buffer.nxt)
    then ignored s1
    else if not (una == nxt)
    then ignored s1
    else ignored (record s1 { state = State.fin_wait2 })

unfoldable pub fin_wait2_get_fin : ℕ → NormalSocket → ℕ → ℕ → ℕ → Option Handled
unfolding acknowledge_fin
fin_wait2_get_fin cap s seq_num wnd_size now =
    let (s1, effects, ack) = acknowledge_fin cap s seq_num wnd_size now in
    let s2 = if ack == add_u32 seq_num 1 then record s1 { state = State.time_wait now } else s1 in
    some (record { sock = s2; effects = effects; push_accepted = none })

unfoldable pub last_ack_get_ack : NormalSocket → ℕ → ℕ → ℕ → Option Handled
unfolding ack_sent
last_ack_get_ack s ack_num wnd_size now =
    let (pair, s1) = ack_sent s ack_num wnd_size now in
    let (una, nxt) = pair in
    if not (una == nxt) then ignored s1 else ignored (record (shutdown s1) { state = State.closed })

-- The overload for a normal socket by the state and the event; all other pairs are ignored.
unfoldable pub visit_handler : ℕ → NormalSocket → Bool → State → Event → ℕ → Option Handled
visit_handler cap s is_pending state e now = elim state [
  | State.syn_sent ↦ elim e [
    | Event.get_syn_ack isn ack wnd ↦ syn_sent_get_syn_ack cap s isn ack wnd now
    | _ ↦ ignored s
  ]
  | State.syn_received l ↦ elim e [
    | Event.get_ack seq ack wnd payload ↦ syn_received_get_ack l s is_pending seq ack wnd now
    | _ ↦ ignored s
  ]
  | State.established ↦ elim e [
    | Event.get_ack seq ack wnd payload ↦ data_state_get_ack cap s seq ack wnd payload now
    | Event.get_syn_ack isn ack wnd ↦ established_get_syn_ack cap s ack wnd now
    | Event.get_fin seq wnd ↦ established_get_fin cap s seq wnd now
    | Event.get_fin_ack seq ack wnd ↦ established_get_fin cap s seq wnd now
    | _ ↦ ignored s
  ]
  | State.close_wait ↦ elim e [
    | Event.get_ack seq ack wnd payload ↦ data_state_get_ack cap s seq ack wnd payload now
    | Event.get_fin seq wnd ↦ closing_state_get_fin cap s seq wnd now
    | _ ↦ ignored s
  ]
  | State.last_ack ↦ elim e [
    | Event.get_ack seq ack wnd payload ↦ last_ack_get_ack s ack wnd now
    | _ ↦ ignored s
  ]
  | State.fin_wait1 ↦ elim e [
    | Event.get_ack seq ack wnd payload ↦ fin_wait1_get_ack cap s seq ack wnd payload now
    | _ ↦ ignored s
  ]
  | State.fin_wait2 ↦ elim e [
    | Event.get_fin seq wnd ↦ fin_wait2_get_fin cap s seq wnd now
    | Event.get_ack seq ack wnd payload ↦ data_state_get_ack cap s seq ack wnd payload now
    | _ ↦ ignored s
  ]
  | State.time_wait t ↦ elim e [
    | Event.get_fin seq wnd ↦ closing_state_get_fin cap s seq wnd now
    | _ ↦ ignored s
  ]
  | _ ↦ ignored s
]

-- `std::visit` on the state and the event.
unfoldable pub event_handler : ℕ → NormalSocket → Bool → Event → ℕ → Option Handled
unfolding visit_handler
event_handler cap s is_pending e now = visit_handler cap s is_pending s.state e now
