-- ===== src/Tcp/Stack/Runs.antt =====
-- Every sequence of calls, packets, rounds of the sockets' threads and periods of the reaper keeps the
-- table valid.
use tns.Common.{
  ℕ, zero, suc, ◌+◌, ◌≡◌, ◌<◌, ◌&&◌, Bool, Option, some, List, arith, ltb, leb, find, nat_eq,
}
use tns.Ip.Address.{Ipv4Address}
use tns.Ip.Datagram.{Datagram}
use tns.Tcp.Packet.{session_eq}
use tns.Tcp.SocketError.{SocketError, Outcome}
use tns.Tcp.Sockets.{NormalSocket, Effect}
use tns.Tcp.Sockets
use tns.Tcp.Handlers.Identity.{sender_round-Same, zwp_round-Same, retransmit-Same}
use tns.Tcp.Stack.{normal, TcpStack, max_socket_fd, iota, make_stack, reap}
use tns.Tcp.Stack.Calls.{put_socket, settle, v_listen, v_accept, v_send, v_recv, v_close, v_abort}
use tns.Tcp.Stack.Packets.{Fresh, v_connect, finish_active_connection, tcp_protocol_handler}
use tns.Tcp.Stack.Invariant.{
  session, port, identity_at, find_endpoint, contains_id, Ascending, IsValid, OnSome,
}
use tns.Tcp.Stack.Keeping.{Keeps-IsValid, put-Same, settle-Keeps}
use tns.Tcp.Stack.Closing.{v_accept-Keeps, v_send-Keeps, v_recv-Keeps, v_close-Keeps, v_abort-Keeps}
use tns.Tcp.Stack.Opening.{
  create_listen_socket-IsValid, start_active_connection-IsValid, finish_active_connection-Keeps,
}
use tns.Tcp.Stack.Dispatch.{tcp_protocol_handler-IsValid}
use tns.Tcp.Stack.Reaping.{reap-Purged}

-- What can happen to the table. A socket that its threads work on is in it.
pub data Step (cap : ℕ) : TcpStack → TcpStack → Type 0 where
  listens :
      {t : TcpStack} (p : ℕ) (r : Outcome ℕ × TcpStack) → v_listen p t ≡ some r → Step cap t r.1
  accepts :
      {t : TcpStack} (l : ℕ) (r : Outcome ℕ × TcpStack) → v_accept l t ≡ some r → Step cap t r.1
  connects :
      {t : TcpStack} (f : Fresh) (addr p : ℕ) (remote : Ipv4Address) (now : ℕ)
      (r : Outcome ℕ × TcpStack × List Effect)
      → v_connect cap f addr p remote t now ≡ some r
      → Step cap t r.1
  is_connected :
      {t : TcpStack} (id : ℕ) (e : Option SocketError) (r : Outcome ℕ × TcpStack)
      → finish_active_connection id e t ≡ some r
      → Step cap t r.1
  sends :
      {t : TcpStack} (id : ℕ) (bytes : List ℕ) (r : Outcome ℕ × TcpStack)
      → v_send cap id bytes t ≡ some r
      → Step cap t r.1
  receives :
      {t : TcpStack} (id n : ℕ) (r : Outcome (List ℕ) × TcpStack)
      → v_recv cap id n t ≡ some r
      → Step cap t r.1
  closes :
      {t : TcpStack} (id now : ℕ) (r : Outcome (Unit {0}) × TcpStack × List Effect)
      → v_close cap id t now ≡ some r
      → Step cap t r.1
  aborts :
      {t : TcpStack} (id now : ℕ) (r : Outcome (Unit {0}) × TcpStack × List Effect)
      → v_abort cap id t now ≡ some r
      → Step cap t r.1
  gets_packet :
      {t : TcpStack} (f : Fresh) (d : Datagram) (now : ℕ) (r : TcpStack × List Effect)
      → tcp_protocol_handler cap f d t now ≡ some r
      → Step cap t r.0
  transmits :
      {t : TcpStack} (id : ℕ) (s : NormalSocket) (room now : ℕ)
      (r : Outcome (Unit {0}) × NormalSocket × List Effect)
      → find id t.socket_table ≡ some (normal s)
      → Sockets.sender_round cap s room now ≡ some r
      → Step cap t (put_socket id (normal r.1) t)
  probes :
      {t : TcpStack} (id : ℕ) (s : NormalSocket) (timed_out : Bool) (now : ℕ)
      (r : Outcome (Unit {0}) × NormalSocket × List Effect)
      → find id t.socket_table ≡ some (normal s)
      → Sockets.zwp_round cap s timed_out now ≡ some r
      → Step cap t (put_socket id (normal r.1) t)
  retransmits :
      {t : TcpStack} (id : ℕ) (s : NormalSocket) (now : ℕ) (r : TcpStack × List Effect)
      → find id t.socket_table ≡ some (normal s)
      → settle id (Sockets.retransmit s now).0 (Sockets.retransmit s now).1 t ≡ some r
      → Step cap t r.0
  reaps : {t : TcpStack} (now : ℕ) → Step cap t (reap now t)

pub data Run (cap : ℕ) : TcpStack → TcpStack → Type 0 where
  here : {t : TcpStack} → Run cap t t
  next : {t t1 t2 : TcpStack} → Run cap t t1 → Step cap t1 t2 → Run cap t t2

Step-IsValid : (cap : ℕ) (t t' : TcpStack) → Step cap t t' → IsValid t → IsValid t'
unfolding v_listen v_connect
Step-IsValid cap t _ (listens p r h) v = create_listen_socket-IsValid p t r v h
Step-IsValid cap t _ (accepts l r h) v = Keeps-IsValid t r.1 (v_accept-Keeps t v l r h) v
Step-IsValid cap t _ (connects f addr p remote now r h) v =
    start_active_connection-IsValid cap f _ t now r v h
Step-IsValid cap t _ (is_connected id e r h) v =
    Keeps-IsValid t r.1 (finish_active_connection-Keeps id e t r h) v
Step-IsValid cap t _ (sends id bytes r h) v =
    Keeps-IsValid t r.1 (v_send-Keeps t v cap id bytes r h) v
Step-IsValid cap t _ (receives id n r h) v = Keeps-IsValid t r.1 (v_recv-Keeps t v cap id n r h) v
Step-IsValid cap t _ (closes id now r h) v =
    Keeps-IsValid t r.1 (v_close-Keeps t v cap id now r h) v
Step-IsValid cap t _ (aborts id now r h) v =
    Keeps-IsValid t r.1 (v_abort-Keeps t v cap id now r h) v
Step-IsValid cap t _ (gets_packet f d now r h) v = tcp_protocol_handler-IsValid cap f d t now r v h
Step-IsValid cap t _ (transmits id s room now r there h) v =
    Keeps-IsValid t _ (put-Same id s r.1 t there (sender_round-Same cap s room now r h)) v
Step-IsValid cap t _ (probes id s timed_out now r there h) v =
    Keeps-IsValid t _ (put-Same id s r.1 t there (zwp_round-Same cap s timed_out now r h)) v
Step-IsValid cap t _ (retransmits id s now r there h) v =
    let (s', effects) = Sockets.retransmit s now in
    Keeps-IsValid t r.0 (settle-Keeps id s s' effects t r there (retransmit-Same s now) h) v
Step-IsValid cap t _ (reaps now) v = (reap-Purged now t v).valid

contains_id-iota :
    (id from n : ℕ) → contains_id id (iota from n) ≡ (leb from id && ltb id (from + n))
unfolding contains_id iota
contains_id-iota id from zero = ground arith
contains_id-iota id from (suc n) = ground (arith, contains_id-iota id (suc from) n)

iota-Ascending : (low from n : ℕ) → low < from → Ascending low (iota from n)
unfolding Ascending iota
iota-Ascending low from zero h = tt
iota-Ascending low from (suc n) h = (h, iota-Ascending from (suc from) n (omega arith))

make_stack-IsValid : IsValid make_stack
unfolding make_stack identity_at find_endpoint find
make_stack-IsValid = record {
  indexed = λ id. tt;
  located = λ e.
      elim e
        as (λ e.
          OnSome (λ id. identity_at make_stack id ≡ some (id, e)) (find_endpoint make_stack e)) [
            | session k ↦ tt
            | port p ↦ tt
          ];
  free = λ id. ground (arith, contains_id-iota id 1 max_socket_fd);
  ascending = iota-Ascending 0 1 max_socket_fd (omega arith);
}

-- However a new stack has been used, its table is valid: the socket of an id holds that id, and its
-- session or port leads back to it; a session or port leads to a socket that has it; and the free ids,
-- in ascending order, are exactly those from 1 to the maximum that no socket has.
pub Run-IsValid : (cap : ℕ) (t : TcpStack) → Run cap make_stack t → IsValid t
Run-IsValid cap _ here = make_stack-IsValid
Run-IsValid cap t (next {t1} run step) = Step-IsValid cap t1 t step (Run-IsValid cap t1 run)
