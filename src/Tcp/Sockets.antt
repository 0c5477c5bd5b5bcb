-- ===== src/Tcp/Sockets.antt =====
-- lib/include/tcp/sockets.hpp and lib/src/tcp/sockets.cpp. Both buffer sizes (constants.hpp makes
-- them 65535) are the parameter `cap`; times are in ns. What a call does outside its socket is in the
-- list of effects, in order. `none` is a failed assertion.
pub mod Probing
use tns.Common.{ℕ, Bool, false, Option, none, some, List, [], ◌∷◌, map, ◌==◌, if◌then◌else◌, to_u16}
use tns.Ip.Address.{Ipv4Address}
use tns.Tcp.Packet.{SessionTuple, Packet, make_fin_packet, make_ack_packet}
use tns.Tcp.SocketError.{SocketError, conn_not_exist, reset, nyi, Outcome, waits, value, error}
use tns.Tcp.States.{State}
use tns.Tcp.Retransmission
use tns.Tcp.SendBuffer.{
  SendBuffer, write_once, write_and_send_one, send_ready_data, get_wnd_end_exclusive, pause,
  countdown, wait_ack, zwp_pause, zwp_countdown, zwp_wait_ack,
}
use tns.Tcp.SendBuffer
use tns.Tcp.RecvBuffer.{RecvBuffer, read_at_most, size_to_read, get_ack_wnd}
use tns.Tcp.RecvBuffer

pub record NormalSocket : Type 0 where
  pub id : ℕ
  pub tuple : SessionTuple
  pub state : State
  pub send_buffer : SendBuffer
  pub recv_buffer : RecvBuffer
  -- `retransmitThread_` has not been stopped.
  pub retransmits : Bool

-- `wake_connect` is `SynAckResult::onSynAck` or `onError`; `forget_pending l s` is
-- `pendingSocks_.remove(s)` on the listener `l`.
pub data Effect : Type 0 where
  send_packet : Packet → Ipv4Address → Effect
  wake_connect : Option SocketError → Effect
  forget_pending : ℕ → SessionTuple → Effect

unfoldable pub shutdown_send : NormalSocket → NormalSocket
shutdown_send s = record s { retransmits = false; send_buffer = SendBuffer.shutdown s.send_buffer }

unfoldable pub shutdown_recv : NormalSocket → NormalSocket
shutdown_recv s = record s { recv_buffer = RecvBuffer.shutdown s.recv_buffer }

-- `shutdown_`
unfoldable pub shutdown : NormalSocket → NormalSocket
unfolding shutdown_send shutdown_recv
shutdown s = shutdown_recv (shutdown_send s)

unfoldable pub send_packet_no_retransmit : NormalSocket → Packet → List Effect
send_packet_no_retransmit s p = send_packet p s.tuple.remote ∷ []

-- `sendPacket_`
unfoldable pub send_packet_queued : NormalSocket → Packet → ℕ → Option (NormalSocket × List Effect)
send_packet_queued s p now = elim (Retransmission.enqueue s.send_buffer.retransmit_queue p now) [
  | none ↦ none
  | some q ↦ some (
    record s { send_buffer = record s.send_buffer { retransmit_queue = q } },
    send_packet p s.tuple.remote ∷ [],
  )
]

-- `sendZwpPacket_`
unfoldable pub send_zwp_packet : NormalSocket → Packet → ℕ → Option (NormalSocket × List Effect)
send_zwp_packet s p now = elim (Retransmission.enqueue_zwp s.send_buffer.retransmit_queue p now) [
  | none ↦ none
  | some q ↦ some (
    record s { send_buffer = record s.send_buffer { retransmit_queue = q } },
    send_packet p s.tuple.remote ∷ [],
  )
]

unfoldable pub send_fin : ℕ → NormalSocket → ℕ → Option (NormalSocket × List Effect)
unfolding send_packet_queued
send_fin cap s now =
    let s' = record s { send_buffer = write_and_send_one s.send_buffer } in
    let wnd = to_u16 (RecvBuffer.size_free cap s.recv_buffer) in
    send_packet_queued s' (make_fin_packet s.tuple s.send_buffer.nxt wnd) now

-- `closeAsActive_` and `closeAsPassive_` are the two values of `to`.
unfoldable pub close_as : ℕ → State → NormalSocket → ℕ → Option (NormalSocket × List Effect)
unfolding send_fin
close_as cap to s now = elim (send_fin cap s now) [
  | none ↦ none
  | some (s', effects) ↦ some (record s' { state = to }, effects)
]

-- One round of the loop of `write` where the state lets `vSend` through.
unfoldable pub v_send : ℕ → NormalSocket → List ℕ → Option (Outcome ℕ × NormalSocket)
v_send cap s bytes =
    let written : Option (Outcome ℕ × NormalSocket) = elim (write_once cap s.send_buffer bytes) [
      | none ↦ none
      | some (o, b) ↦ some (o, record s { send_buffer = b })
    ] in
    elim s.state [
      | State.syn_sent ↦ written
      | State.syn_received l ↦ written
      | State.established ↦ written
      | State.close_wait ↦ written
      | State.closed ↦ some (error conn_not_exist, s)
      | _ ↦ some (error SocketError.closing, s)
    ]

unfoldable pub v_recv : ℕ → NormalSocket → ℕ → Option (Outcome (List ℕ) × NormalSocket)
v_recv cap s n =
    let got : Option (Outcome (List ℕ) × NormalSocket) = elim (read_at_most cap s.recv_buffer n n) [
      | none ↦ none
      | some (o, b) ↦ some (o, record s { recv_buffer = b })
    ] in
    elim s.state [
      | State.syn_sent ↦ some (error nyi, s)
      | State.syn_received l ↦ some (error nyi, s)
      | State.established ↦ got
      | State.fin_wait1 ↦ got
      | State.fin_wait2 ↦ got
      | State.time_wait t ↦ got
      | State.close_wait ↦
          if size_to_read s.recv_buffer == 0 then some (error SocketError.closing, s) else got
      | State.closed ↦ some (error conn_not_exist, s)
      | _ ↦ some (error SocketError.closing, s)
    ]

unfoldable pub v_close :
    ℕ → NormalSocket → ℕ → Option (Outcome (Unit {0}) × NormalSocket × List Effect)
unfolding close_as shutdown
v_close cap s now =
    let active = close_as cap State.fin_wait1 s now in
    let passive = close_as cap State.last_ack s now in
    elim s.state [
      | State.syn_sent ↦ some (
        value tt,
        record (shutdown s) { state = State.closed },
        wake_connect (some SocketError.closing) ∷ [],
      )
      | State.syn_received l ↦ elim active [
        | none ↦ none
        | some (s', effects) ↦ some (value tt, s', forget_pending l s.tuple ∷ effects)
      ]
      | State.established ↦ elim active [
        | none ↦ none
        | some (s', effects) ↦ some (value tt, s', effects)
      ]
      | State.close_wait ↦ elim passive [
        | none ↦ none
        | some (s', effects) ↦ some (value tt, s', effects)
      ]
      | State.closed ↦ some (error conn_not_exist, s, [])
      | _ ↦ some (error SocketError.closing, s, [])
    ]

unfoldable pub v_abort : NormalSocket → Outcome (Unit {0}) × NormalSocket × List Effect
unfolding shutdown
v_abort s =
    let aborted = record (shutdown s) { state = State.closed } in
    elim s.state [
      | State.syn_sent ↦ (value tt, aborted, wake_connect (some reset) ∷ [])
      | State.syn_received l ↦ (value tt, aborted, forget_pending l s.tuple ∷ [])
      | State.closed ↦ (error conn_not_exist, s, [])
      | _ ↦ (value tt, aborted, [])
    ]

-- One round of the loop of `senderFunction_`, into a buffer of `room` bytes. `waits` and `error` are
-- those of `sendReadyData`. It is one step here; the program gives up the lock of the send buffer before
-- the packet is queued for retransmission.
unfoldable pub sender_round :
    ℕ → NormalSocket → ℕ → ℕ → Option (Outcome (Unit {0}) × NormalSocket × List Effect)
unfolding send_packet_queued
sender_round cap s room now = elim (send_ready_data cap s.send_buffer room) [
  | none ↦ none
  | some (o, b) ↦
      let s' = record s { send_buffer = b } in
      let (ack, wnd) = get_ack_wnd cap s.recv_buffer in
      elim o [
        | waits ↦ some (waits, s', [])
        | error e ↦ some (error e, s', [])
        | value (seq, bytes) ↦
            elim (send_packet_queued s' (make_ack_packet s.tuple seq ack (to_u16 wnd) bytes) now) [
              | none ↦ none
              | some (s2, effects) ↦ some (value tt, s2, effects)
            ]
      ]
]

-- A look at the loop of `zwpFunction_`, which is at its wait on `zwp_.state`; `timed_out` is the end of
-- the countdown. The lock on the send buffer is held from the probe byte to the packet.
unfoldable pub zwp_round :
    ℕ → NormalSocket → Bool → ℕ → Option (Outcome (Unit {0}) × NormalSocket × List Effect)
unfolding send_zwp_packet
zwp_round cap s timed_out now =
    let (paused, p) = zwp_pause s.send_buffer in
    let (counted, c) = zwp_countdown cap s.send_buffer timed_out in
    let s' = record s { send_buffer = c } in
    let (ack, wnd) = get_ack_wnd cap s.recv_buffer in
    elim s.send_buffer.zwp_state [
      | pause ↦ some (paused, record s { send_buffer = p }, [])
      | countdown ↦ elim counted [
        | waits ↦ some (waits, s', [])
        | error e ↦ some (error e, s', [])
        | value none ↦ some (value tt, s', [])
        | value (some (seq, byte)) ↦
            elim (send_zwp_packet s' (make_ack_packet s.tuple seq ack (to_u16 wnd) (byte ∷ []))
              now) [ none ↦ none | some (s2, effects) ↦ some (value tt, s2, effects) ]
      ]
      | wait_ack ↦ some (zwp_wait_ack s.send_buffer, s, [])
    ]

-- `retransmitFunction_`
unfoldable pub retransmit : NormalSocket → ℕ → NormalSocket × List Effect
unfolding v_abort
retransmit s now =
    let edge = get_wnd_end_exclusive s.send_buffer in
    let (expired, q) = Retransmission.get_expired_entries s.send_buffer.retransmit_queue edge now in
    let s' = record s { send_buffer = record s.send_buffer { retransmit_queue = q } } in
    elim expired [
      | some packets ↦ (s', map (λ p. send_packet p s.tuple.remote) packets)
      | none ↦ let (o, s2, effects) = v_abort s' in (s2, effects)
    ]
