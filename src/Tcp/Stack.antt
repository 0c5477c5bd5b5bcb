-- ===== src/Tcp/Stack.antt =====
-- lib/include/tcp/tcp_stack.hpp: `TcpStack`, the table of sockets with its two indexes and the free
-- ids. `none` is a failed assertion, an exception, or the use of a socket that is no more.
pub mod Invariant
pub mod Changes
pub mod Creation
pub mod Reaping
pub mod Calls
pub mod Packets
pub mod Keeping
pub mod Closing
pub mod Opening
pub mod Dispatch
pub mod Runs
pub mod Placing
pub mod Answering
pub mod Connecting
use tns.Common.{
  ℕ, zero, suc, ◌+◌, ◌-◌, Bool, true, false, Option, none, some, List, [], ◌∷◌, ◌++◌, ◌==◌, ltb,
  if◌then◌else◌, ◌>>=◌, Map, find, emplace, erase, modify, is_some, u32_mod, map, nat_eq, ◌||◌,
}
use tns.Ip.Address.{hton16}
use tns.Tcp.Packet.{SessionTuple, Packet, session_eq}
use tns.Tcp.SocketError.{
  SocketError, Outcome, waits, value, error, conn_not_exist, duplicate_socket, no_resources, nyi,
}
use tns.Tcp.States.{State, is_expired}
use tns.Tcp.Sockets.{NormalSocket, Effect, send_packet, wake_connect, forget_pending}
use tns.Tcp.Sockets
use tns.Tcp.Connections.{make_socket, active_open}
use tns.Tcp.Listeners.{ListenSocket, make_listener, remove_pending, push_and_notify, wait_and_pop}

-- `Socket`, the variant of sockets.hpp.
pub data Socket : Type 0 where
  normal : NormalSocket → Socket
  listener : ListenSocket → Socket

-- A reference to a socket is its id. (One to a socket that has been purged is undefined in the program,
-- and here leads to the next socket of that id.)
pub record TcpStack : Type 0 where
  pub socket_table : Map ℕ Socket
  pub session_to_socket : Map SessionTuple ℕ
  pub port_to_listen_socket : Map ℕ ℕ
  pub free_socket_ids : List ℕ

abbrev pub max_socket_fd : ℕ
max_socket_fd = 128

unfoldable pub iota : ℕ → ℕ → List ℕ
iota from zero = []
iota from (suc n) = from ∷ iota (suc from) n

-- A new stack: the ids from 1 to `MAX_SOCKET_FD` are free.
unfoldable pub make_stack : TcpStack
make_stack = record {
  socket_table = [];
  session_to_socket = [];
  port_to_listen_socket = [];
  free_socket_ids = iota 1 max_socket_fd;
}

-- `std::set::insert`, the set being the list of its elements in order.
unfoldable pub insert_id : ℕ → List ℕ → List ℕ
insert_id id [] = id ∷ []
insert_id id (x ∷ xs) =
    let rest = insert_id id xs in
    if ltb id x then id ∷ x ∷ xs else if id == x then x ∷ xs else x ∷ rest

-- `freeSocketId_`
unfoldable pub free_socket_id : ℕ → TcpStack → TcpStack
free_socket_id id t = record t { free_socket_ids = insert_id id t.free_socket_ids }

-- `getNextSocketIdNoLock_`
unfoldable pub get_next_socket_id : TcpStack → Outcome ℕ × TcpStack
get_next_socket_id t = elim t.free_socket_ids [
  | [] ↦ (error no_resources, t)
  | id ∷ ids ↦ (value id, record t { free_socket_ids = ids })
]

-- The assertions are that `try_emplace` and `emplace` have found the keys new.
unfoldable pub create_listen_socket : ℕ → TcpStack → Option (Outcome ℕ × TcpStack)
create_listen_socket port t =
    let (next, t1) = get_next_socket_id t in
    let created : Option (Outcome ℕ × TcpStack) = elim next [
      | waits ↦ some (waits, t1)
      | error e ↦ some (error e, t1)
      | value id ↦
          if is_some (find id t1.socket_table) || is_some (find port t1.port_to_listen_socket)
          then none
          else some (
            value id,
            record t1 {
              socket_table = emplace id (listener (make_listener id port)) t1.socket_table;
              port_to_listen_socket = emplace port id t1.port_to_listen_socket;
            },
          )
    ] in
    if is_some (find port t.port_to_listen_socket)
    then some (error duplicate_socket, t)
    else created

-- `createNormalSocket_`, of the socket that its constructor makes of the id.
unfoldable pub create_normal_socket :
    SessionTuple → (ℕ → NormalSocket) → TcpStack → Option (Outcome ℕ × TcpStack)
create_normal_socket tuple make t =
    let (next, t1) = get_next_socket_id t in
    let created : Option (Outcome ℕ × TcpStack) = elim next [
      | waits ↦ some (waits, t1)
      | error e ↦ some (error e, t1)
      | value id ↦
          if is_some (find id t1.socket_table) || is_some (find tuple t1.session_to_socket)
          then none
          else some (
            value id,
            record t1 {
              socket_table = emplace id (normal (make id)) t1.socket_table;
              session_to_socket = emplace tuple id t1.session_to_socket;
            },
          )
    ] in
    if is_some (find tuple t.session_to_socket) then some (error duplicate_socket, t) else created

-- `reapable` of the reaper thread, and its test on a listen socket.
unfoldable pub is_reapable : ℕ → Socket → Bool
is_reapable now (normal s) = elim s.state [
  | State.closed ↦ true
  | State.time_wait began ↦ is_expired began now
  | _ ↦ false
]
is_reapable now (listener l) = elim l.state [ State.closed ↦ true | _ ↦ false ]

-- What the loop of the reaper does at the entry of an id.
unfoldable pub reap_socket : ℕ → ℕ → TcpStack → TcpStack
reap_socket now id t =
    let purged = record (free_socket_id id t) { socket_table = erase id t.socket_table } in
    elim (find id t.socket_table) [
      | none ↦ t
      | some (normal s) ↦
          if is_reapable now (normal s)
          then record purged { session_to_socket = erase s.tuple t.session_to_socket }
          else t
      | some (listener l) ↦
          if is_reapable now (listener l)
          then record purged { port_to_listen_socket = erase l.port t.port_to_listen_socket }
          else t
    ]

unfoldable pub reap_sockets : ℕ → List ℕ → TcpStack → TcpStack
reap_sockets now [] t = t
reap_sockets now (id ∷ ids) t = reap_sockets now ids (reap_socket now id t)

-- One period of `reaperThread_`: the ids are those of the table at first.
unfoldable pub reap : ℕ → TcpStack → TcpStack
reap now t = reap_sockets now (map (λ (id, s). id) t.socket_table) t
