-- ===== src/Tcp/Connections.antt =====
-- lib/include/tcp/tcp_stack.hpp: how a connection is opened, on the socket that `createNormalSocket_`
-- has made. The initial sequence number is random, and so an argument. `none` is a failed assertion.
pub mod Exchange
pub mod Handshake
pub mod Closing
pub mod Teardown
use tns.Common.{
  ℕ, ◌+◌, ◌-◌, ◌^◌, Bool, true, false, not, ◌||◌, Option, none, some, List, [], ◌∷◌, ◌==◌, ltb,
  if◌then◌else◌, to_u16, u32_mod, add_u32, length,
}
use tns.Tcp.Packet.{SessionTuple, Packet, make_syn_packet, make_syn_ack_packet}
use tns.Tcp.SocketError.{SocketError, Outcome, waits, value, error, no_resources}
use tns.Tcp.States.{State}
use tns.Tcp.SendBuffer.{SendBuffer, write_and_send_one}
use tns.Tcp.SendBuffer
use tns.Tcp.RecvBuffer.{get_ack_wnd}
use tns.Tcp.RecvBuffer
use tns.Tcp.Sockets.{NormalSocket, Effect, send_packet_queued}

-- The constructor of `NormalSocket`, with what the arrays hold at first.
unfoldable pub make_socket : List ℕ → List ℕ → ℕ → SessionTuple → ℕ → ℕ → ℕ → NormalSocket
make_socket send_array recv_array id tuple isn window_size rcv_nxt = record {
  id = id;
  tuple = tuple;
  state = State.closed;
  send_buffer = SendBuffer.make send_array isn window_size;
  recv_buffer = RecvBuffer.make recv_array rcv_nxt;
  retransmits = true;
}

-- The defaults of `createNormalSocket_`, for an active open.
unfoldable pub make_active_socket : List ℕ → List ℕ → ℕ → SessionTuple → ℕ → NormalSocket
unfolding make_socket
make_active_socket send_array recv_array id tuple isn =
    make_socket send_array recv_array id tuple isn (u32_mod - 1) 0

-- `createPassiveConnection_`'s socket: `client_isn` and `client_wnd` are those of the SYN.
unfoldable pub make_passive_socket : List ℕ → List ℕ → ℕ → SessionTuple → ℕ → ℕ → ℕ → NormalSocket
unfolding make_socket
make_passive_socket send_array recv_array id tuple isn client_isn client_wnd =
    make_socket send_array recv_array id tuple isn client_wnd (add_u32 client_isn 1)

-- `createActiveConnection_` up to its wait for the SYN+ACK.
unfoldable pub active_open : ℕ → NormalSocket → ℕ → Option (NormalSocket × List Effect)
active_open cap s now =
    let s1 = record s { send_buffer = write_and_send_one s.send_buffer } in
    let syn =
      make_syn_packet s.tuple s.send_buffer.nxt (to_u16 (RecvBuffer.size_free cap s.recv_buffer)) in
    elim (send_packet_queued s1 syn now) [
      | none ↦ none
      | some (s2, effects) ↦ some (record s2 { state = State.syn_sent }, effects)
    ]

-- The rest of it, once it is woken with no error.
unfoldable pub finish_active_open : NormalSocket → Option NormalSocket
finish_active_open s =
    let b = s.send_buffer in
    let established = some (record s { state = State.established }) in
    elim s.state [
      | State.syn_sent ↦
          if not (b.una == b.nxt) || not (b.nxt == b.nbw)
          then none
          else if not (s.recv_buffer.nbr == s.recv_buffer.nxt)
          then none
          else established
      | _ ↦ none
    ]

-- `PendingSocks::add`, of which only the number of pending connections counts here.
abbrev pub max_pending_socks : ℕ
max_pending_socks = 64

-- `createPassiveConnection_` from its socket on, for the listener `l`.
unfoldable pub passive_open :
    ℕ → ℕ → ℕ → NormalSocket → ℕ → Option (Outcome (Unit {0}) × NormalSocket × List Effect)
passive_open cap l n_pending s now =
    let (ack, wnd) = get_ack_wnd cap s.recv_buffer in
    let s1 = record s { send_buffer = write_and_send_one s.send_buffer } in
    let syn_ack = make_syn_ack_packet s.tuple s.send_buffer.nxt ack (to_u16 wnd) in
    elim (send_packet_queued s1 syn_ack now) [
      | none ↦ none
      | some (s2, effects) ↦
          if ltb n_pending max_pending_socks
          then some (value tt, record s2 { state = State.syn_received l }, effects)
          else some (error no_resources, s2, effects)
    ]
