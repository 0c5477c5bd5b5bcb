-- ===== src/Tcp/Stack/Calls.antt =====
-- lib/include/tcp/tcp_stack.hpp: the calls of `TcpStack` by the id of a socket, and what it does with
-- a packet. A call that blocks is one look at its socket, as in the modules below. The effects are the
-- packets sent and the connects woken; what an effect does to a listener is done here.
use tns.Common.{
  ℕ, Bool, true, Option, none, some, List, [], ◌∷◌, ◌++◌, ◌>>=◌, find, modify, is_some, nat_eq, map,
}
use tns.Tcp.Packet.{SessionTuple, session_eq}
use tns.Tcp.SocketError.{Outcome, value, error, conn_not_exist, nyi}
use tns.Tcp.States.{State}
use tns.Tcp.Sockets.{NormalSocket, Effect, send_packet, wake_connect, forget_pending}
use tns.Tcp.Sockets
use tns.Tcp.Listeners.{ListenSocket, remove_pending, wait_and_pop}
use tns.Tcp.Stack.{Socket, normal, listener, TcpStack, create_listen_socket}

abbrev pub put_socket : ℕ → Socket → TcpStack → TcpStack
put_socket id s t = record t { socket_table = modify id (λ _. s) t.socket_table }

-- `pendingSocks_.remove` on the listener of an id, `false` being its `nullopt`; the reference is to a
-- listener that there is.
unfoldable pub forget : ℕ → SessionTuple → TcpStack → Option (Bool × TcpStack)
forget l sess t = elim (find l t.socket_table) [
  | some (listener s) ↦
      let (found, s') = remove_pending sess s in some (is_some found, put_socket l (listener s') t)
  | _ ↦ none
]

-- The effects on listeners are done, and those that leave the stack are passed on.
unfoldable pub perform : List Effect → TcpStack → Option (TcpStack × List Effect)
unfolding forget
perform [] t = some (t, [])
perform (forget_pending l sess ∷ effects) t = do r ← forget l sess t; perform effects r.1
perform (send_packet p to ∷ effects) t = do
  r ← perform effects t
  some (r.0, send_packet p to ∷ r.1)
perform (wake_connect e ∷ effects) t = do r ← perform effects t; some (r.0, wake_connect e ∷ r.1)

-- A socket after a call, put back with the effects of the call done.
unfoldable pub settle : ℕ → NormalSocket → List Effect → TcpStack → Option (TcpStack × List Effect)
unfolding perform
settle id s effects t = perform effects (put_socket id (normal s) t)

unfoldable pub v_listen : ℕ → TcpStack → Option (Outcome ℕ × TcpStack)
v_listen port t = create_listen_socket port t

-- `vAccept` on the listener of an id.
unfoldable pub v_accept : ℕ → TcpStack → Option (Outcome ℕ × TcpStack)
v_accept l t = elim (find l t.socket_table) [
  | some (listener s) ↦ let (o, s') = wait_and_pop s in some (o, put_socket l (listener s') t)
  | _ ↦ none
]

-- `vClose` of a normal socket that is held by its reference.
unfoldable pub close_socket : ℕ → ℕ → TcpStack → ℕ → Option (TcpStack × List Effect)
close_socket cap id t now = elim (find id t.socket_table) [
  | some (normal s) ↦ do r ← Sockets.v_close cap s now; settle id r.1 r.2 t
  | _ ↦ none
]

unfoldable pub close_sockets : ℕ → List ℕ → TcpStack → ℕ → Option (TcpStack × List Effect)
close_sockets cap [] t now = some (t, [])
close_sockets cap (id ∷ ids) t now = do
  r ← close_socket cap id t now
  rest ← close_sockets cap ids r.0 now
  some (rest.0, r.1 ++ rest.1)

-- `ListenSocket::vClose`: the pending connections are closed, and then those in the accept queue.
unfoldable pub close_listener :
    ℕ → ListenSocket → TcpStack → ℕ → Option (Outcome (Unit {0}) × TcpStack × List Effect)
close_listener cap l t now = elim l.state [
  | State.listen ↦ do
    let cleared = record l { pending = []; accept_queue = []; closed = true }
    let ids = map (λ (sess, id). id) l.pending ++ l.accept_queue
    r ← close_sockets cap ids (put_socket l.id (listener cleared) t) now
    let done = listener (record cleared { state = State.closed })
    some (value tt, put_socket l.id done r.0, r.1)
  | State.closed ↦ some (error conn_not_exist, t, [])
  | _ ↦ none
]

unfoldable pub v_send : ℕ → ℕ → List ℕ → TcpStack → Option (Outcome ℕ × TcpStack)
v_send cap id bytes t = elim (find id t.socket_table) [
  | none ↦ some (error conn_not_exist, t)
  | some (listener l) ↦ some (error nyi, t)
  | some (normal s) ↦ do r ← Sockets.v_send cap s bytes; some (r.0, put_socket id (normal r.1) t)
]

unfoldable pub v_recv : ℕ → ℕ → ℕ → TcpStack → Option (Outcome (List ℕ) × TcpStack)
v_recv cap id n t = elim (find id t.socket_table) [
  | none ↦ some (error conn_not_exist, t)
  | some (listener l) ↦ some (error nyi, t)
  | some (normal s) ↦ do r ← Sockets.v_recv cap s n; some (r.0, put_socket id (normal r.1) t)
]

unfoldable pub v_close : ℕ → ℕ → TcpStack → ℕ → Option (Outcome (Unit {0}) × TcpStack × List Effect)
v_close cap id t now = elim (find id t.socket_table) [
  | none ↦ some (error conn_not_exist, t, [])
  | some (listener l) ↦ close_listener cap l t now
  | some (normal s) ↦ do
    r ← Sockets.v_close cap s now
    done ← settle id r.1 r.2 t
    some (r.0, done.0, done.1)
]

unfoldable pub v_abort : ℕ → ℕ → TcpStack → ℕ → Option (Outcome (Unit {0}) × TcpStack × List Effect)
v_abort cap id t now = elim (find id t.socket_table) [
  | none ↦ some (error conn_not_exist, t, [])
  | some (listener l) ↦ close_listener cap l t now
  | some (normal s) ↦ do
    let r = Sockets.v_abort s
    done ← settle id r.1 r.2 t
    some (r.0, done.0, done.1)
]
