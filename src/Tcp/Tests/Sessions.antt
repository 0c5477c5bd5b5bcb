-- ===== src/Tcp/Tests/Sessions.antt =====
-- The theorems on connections, and on runs of a send buffer, at concrete ones.
use tns.Common.{ℕ, ◌+◌, ◌≡◌, refl, true, false, none, some, List, [], ◌∷◌, arith, to_u16}
use tns.Ip.Address.{Ipv4Address}
use tns.Tcp.SocketError.{value, waits}
use tns.Tcp.Packet.{SessionTuple, make_ack_packet}
use tns.Tcp.States.{State, Event}
use tns.Tcp.Ring
use tns.Tcp.SendBuffer.{SendBuffer, write_once, send_ready_data, countdown, zwp_wait_ack, on_ack}
use tns.Tcp.SendBuffer
use tns.Tcp.SendBuffer.Invariant.{IsValid, make-IsValid}
use tns.Tcp.SendBuffer.Stream.{Sends}
use tns.Tcp.SendBuffer.Run.{Run, start, written_to, sent_from, Streams, Run-Streams}
use tns.Tcp.RecvBuffer
use tns.Tcp.RecvBuffer.{get_ack_wnd}
use tns.Tcp.Sockets.{NormalSocket, send_packet, zwp_round}
use tns.Tcp.Sockets.Probing.{IsAnswered, zwp_round-Probes}
use tns.Tcp.Sockets
use tns.Tcp.Handlers.{Handled, event_handler, visit_handler, last_ack_get_ack, ack_sent}
use tns.Tcp.Handlers.Transitions.{Transition, event_handler-Transition}
use tns.Tcp.Connections.{make_active_socket, make_passive_socket, make_socket}
use tns.Tcp.Connections.Closing.{IsIdle}
use tns.Tcp.Connections.Teardown.{teardown, teardown-closes}
use tns.Tcp.Connections.Handshake.{handshake, handshake-IsOpen, accept_syn}
use tns.Tcp.Connections.Exchange.{IsOpen}

abbrev here : Ipv4Address
here = record { addr = 0x0100000a; port = 0x5000 }

abbrev there : Ipv4Address
there = record { addr = 0x0200000a; port = 0x901f }

abbrev client_tuple : SessionTuple
client_tuple = record { local = here; remote = there }

abbrev server_tuple : SessionTuple
server_tuple = record { local = there; remote = here }

abbrev four : List ℕ
four = 0 ∷ 0 ∷ 0 ∷ 0 ∷ []

handshake-IsOpen_example :
    (c3 : NormalSocket) × (s2 : NormalSocket) × (handshake 4 1 0 5
        (make_active_socket four four 2 client_tuple 100)
        server_tuple
        (accept_syn four four 3 server_tuple 200)
      ≡ some (c3, s2))
    × IsOpen 100 200 4 c3
    × IsOpen 200 100 4 s2
handshake-IsOpen_example =
    handshake-IsOpen 4 1 0 100 200 5 2 3 client_tuple server_tuple four four four four (omega arith)
      (omega arith) (omega arith) (omega arith) (omega arith)

-- A socket in LAST-ACK whose peer acknowledges its FIN.
abbrev last : NormalSocket
last = record (make_passive_socket four four 3 server_tuple 200 100 4) { state = State.last_ack }

abbrev last_handled : Handled
last_handled = record {
  sock = record (Sockets.shutdown last) { state = State.closed };
  effects = [];
  push_accepted = none;
}

last-handled : event_handler 4 last false (Event.get_ack 101 200 4 []) 9 ≡ some last_handled
unfolding event_handler visit_handler last_ack_get_ack ack_sent SendBuffer.on_ack
    SendBuffer.probe_on_ack make_passive_socket make_socket SendBuffer.make RecvBuffer.make
    Sockets.shutdown
last-handled = refl

event_handler-Transition_example :
    Transition 9 State.last_ack (Event.get_ack 101 200 4 []) State.closed
event_handler-Transition_example =
    event_handler-Transition 4 last false (Event.get_ack 101 200 4 []) 9 last_handled last-handled

abbrev empty : SendBuffer
empty = SendBuffer.make four 100 3

empty-IsValid : IsValid 4 empty
empty-IsValid =
    (make-IsValid 4 100 3 four (omega arith) (omega arith) refl (omega arith) (omega arith)).0

abbrev bytes : List ℕ
bytes = 15 ∷ 16 ∷ []

abbrev loaded : SendBuffer
loaded = record empty { buf = 15 ∷ 16 ∷ 0 ∷ 0 ∷ []; nbw = 102 }

empty-write : write_once 4 empty bytes ≡ some (value 2, loaded)
unfolding write_once Ring.write Ring.write_wrapped Ring.copy_to SendBuffer.make
empty-write = refl

abbrev flying : SendBuffer
flying = record loaded { nxt = 102; wnd = 1 }

loaded-send : send_ready_data 4 loaded 10 ≡ some (value (100, bytes), flying)
unfolding send_ready_data Ring.read Ring.read_wrapped SendBuffer.make
loaded-send = refl

run : Run 4 empty bytes bytes flying
unfolding SendBuffer.make
run =
    sent_from bytes [] bytes 10 100 loaded flying
      (written_to [] [] bytes 2 empty loaded start (omega arith) empty-write) (omega arith)
      loaded-send

Run-Streams_example : Streams 4 empty bytes bytes flying
Run-Streams_example = Run-Streams 4 empty flying bytes bytes empty-IsValid run

-- Two sockets that have opened a connection.
abbrev first_socket : NormalSocket
first_socket = record (make_socket four four 2 client_tuple 101 4 201) { state = State.established }

abbrev second_socket : NormalSocket
second_socket = record (make_socket four four 3 server_tuple 201 4 101) {
  state = State.established;
}

first-IsIdle : IsIdle 101 first_socket
unfolding make_socket SendBuffer.make
first-IsIdle = record { una = refl; nxt = refl; nbw = refl; queue = refl; no_probe = refl }

second-IsIdle : IsIdle 201 second_socket
unfolding make_socket SendBuffer.make
second-IsIdle = record { una = refl; nxt = refl; nbw = refl; queue = refl; no_probe = refl }

teardown-closes_example :
    (c3 : NormalSocket) × (s3 : NormalSocket) × (teardown 4 9 first_socket second_socket
      ≡ some (c3, s3))
    × (c3.state ≡ State.time_wait 9)
    × (s3.state ≡ State.closed)
unfolding make_socket RecvBuffer.make
teardown-closes_example =
    teardown-closes 4 9 101 201 first_socket second_socket first-IsIdle second-IsIdle refl refl refl
      refl (omega arith) (omega arith) (omega arith) (omega arith)

-- A socket with two bytes to send into a closed window, counting down to a probe.
abbrev shut_out : NormalSocket
shut_out = record first_socket { send_buffer = record loaded { wnd = 0; zwp_state = countdown } }

shut_out-IsValid : IsValid 4 shut_out.send_buffer
unfolding make_socket SendBuffer.make
shut_out-IsValid = ground arith

zwp_round-Probes_example :
    let b = shut_out.send_buffer in
    let (ack, wnd) = get_ack_wnd 4 shut_out.recv_buffer in
    (byte : ℕ) × (s' : NormalSocket) × (zwp_round 4 shut_out true 9
      ≡ some (
        value tt,
        s',
        send_packet
              (make_ack_packet client_tuple b.nxt ack (to_u16 wnd) (byte ∷ []))
              client_tuple.remote
            ∷ [],
      ))
    × Sends 4 b 1 (byte ∷ []) s'.send_buffer
    × (zwp_wait_ack s'.send_buffer ≡ waits)
    × IsAnswered (b.nxt + 1) 3 (on_ack s'.send_buffer (b.nxt + 1) 3 10).1
unfolding make_socket SendBuffer.make
zwp_round-Probes_example =
    zwp_round-Probes 4 shut_out 9 3 10 shut_out-IsValid refl refl refl (omega arith) refl
      (omega arith)
