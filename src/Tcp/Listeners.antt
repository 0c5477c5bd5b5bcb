-- ===== src/Tcp/Listeners.antt =====
-- lib/include/tcp/sockets.hpp and lib/src/tcp/sockets.cpp: `ListenSocket`, its pending connections and
-- its accept queue. A `NormalSocketRef` is the id of the socket.
pub mod Queue
use tns.Common.{
  ℕ, Bool, true, false, Option, none, some, List, [], ◌∷◌, ◌++◌, ltb, if◌then◌else◌, length,
}
use tns.Tcp.Packet.{SessionTuple, same_session}
use tns.Tcp.SocketError.{SocketError, Outcome, waits, value, error}
use tns.Tcp.States.{State}
use tns.Tcp.Connections.{max_pending_socks}

-- `pendingSocks_.socks`, and `queue` and `closed` of `acceptQ_`.
pub record ListenSocket : Type 0 where
  pub id : ℕ
  pub port : ℕ
  pub state : State
  pub pending : List (SessionTuple × ℕ)
  pub accept_queue : List ℕ
  pub closed : Bool

-- The constructor of `ListenSocket`.
unfoldable pub make_listener : ℕ → ℕ → ListenSocket
make_listener id port = record {
  id = id;
  port = port;
  state = State.listen;
  pending = [];
  accept_queue = [];
  closed = false;
}

-- `PendingSocks::add`: `false` is its `nullopt`.
unfoldable pub add_pending : SessionTuple → ℕ → ListenSocket → Bool × ListenSocket
add_pending sess sock l =
    if ltb (length l.pending) max_pending_socks
    then (true, record l { pending = l.pending ++ ((sess, sock) ∷ []) })
    else (false, l)

unfoldable pub remove_first :
    SessionTuple → List (SessionTuple × ℕ) → Option ℕ × List (SessionTuple × ℕ)
remove_first sess [] = (none, [])
remove_first sess ((s, sock) ∷ socks) =
    let (found, rest) = remove_first sess socks in
    if same_session s sess then (some sock, socks) else (found, (s, sock) ∷ rest)

-- `PendingSocks::remove`
unfoldable pub remove_pending : SessionTuple → ListenSocket → Option ℕ × ListenSocket
unfolding remove_first
remove_pending sess l =
    let (found, rest) = remove_first sess l.pending in (found, record l { pending = rest })

-- `AcceptQueue::pushAndNotify`
unfoldable pub push_and_notify : ℕ → ListenSocket → ListenSocket
push_and_notify sock l = record l { accept_queue = l.accept_queue ++ (sock ∷ []) }

-- `AcceptQueue::waitAndPop`, which is `vAccept`: one look at the queue.
unfoldable pub wait_and_pop : ListenSocket → Outcome ℕ × ListenSocket
wait_and_pop l =
    let pop : Outcome ℕ × ListenSocket = elim l.accept_queue [
      | [] ↦ (waits, l)
      | sock ∷ socks ↦ (value sock, record l { accept_queue = socks })
    ] in
    if l.closed then (error SocketError.closing, l) else pop
