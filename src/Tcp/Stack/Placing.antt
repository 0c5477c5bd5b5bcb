-- ===== src/Tcp/Stack/Placing.antt =====
-- Where the sockets of a connection are in a table while it is opened.
use tns.Common.{
  ℕ, ◌≡◌, ◌≢◌, ◌<◌, refl, subst, ◌∙◌, true, false, none, some, List, [], ◌∷◌, ◌++◌, arith, ◌==◌,
  find, find-modify, nat_eq, length,
}
use tns.Tcp.Packet.{SessionTuple, session_eq}
use tns.Tcp.SocketError.{Outcome, value}
use tns.Tcp.States.{State, get_syn}
use tns.Tcp.Sockets.{NormalSocket, Effect}
use tns.Tcp.Connections.{
  make_socket, make_active_socket, make_passive_socket, active_open, passive_open,
  max_pending_socks,
}
use tns.Tcp.Listeners.{ListenSocket, add_pending}
use tns.Tcp.Handlers.Identity.{active_open-Same}
use tns.Tcp.Stack.{Socket, normal, listener, TcpStack, create_normal_socket}
use tns.Tcp.Stack.Calls.{put_socket}
use tns.Tcp.Stack.Packets.{
  Fresh, start_active_connection, create_passive_connection, listener_handler,
}
use tns.Tcp.Stack.Invariant.{Endpoint, session, identity, find_endpoint, same_endpoint_iff, IsValid}
use tns.Tcp.Stack.Keeping.{put_socket-Keeps, Keeps-IsValid}
use tns.Tcp.Stack.Creation.{
  Creation, duplicate, exhausted, created, Created, create_normal_socket-Creation, unused-find,
}

put-Created :
    (t t1 : TcpStack) (id : ℕ) (s s' : Socket) (e : Endpoint)
    → Created t t1 id s e
    → identity s' ≡ identity s
    → Created t (put_socket id s' t1) id s' e
unfolding find_endpoint
put-Created t t1 id s s' e c same =
    let here : find id t1.socket_table ≡ some s = ground (arith, c.socket id) in
    let k = put_socket-Keeps id s' s t1 here same in
    record {
      socket = λ j. ground (arith, c.socket j, find-modify j id (λ _. s') t1.socket_table);
      endpoint = λ d. k.endpoints d ∙ c.endpoint d;
      taken = c.taken;
      valid = Keeps-IsValid t1 (put_socket id s' t1) k c.valid;
    }

Creation-Created :
    (t : TcpStack) (make : ℕ → Socket) (e : Endpoint) (r : Outcome ℕ × TcpStack) (id : ℕ)
    (ids : List ℕ)
    → Creation t make e r
    → find_endpoint t e ≡ none
    → t.free_socket_ids ≡ id ∷ ids
    → (t' : TcpStack) × (r ≡ (value id, t')) × Created t t' id (make id) e
Creation-Created t make e _ id ids (duplicate i h) fresh free = absurd (ground arith)
Creation-Created t make e _ id ids (exhausted h f) fresh free = absurd (ground arith)
Creation-Created t make e _ id ids (created i t' h c) fresh free =
    let same : i ≡ id = ground (arith, c.taken, free) in
    (t', rw same, subst (λ j. Created t t' j (make j) e) same c)

-- With no socket of the session and a free id, `createNormalSocket_` succeeds.
creates :
    (t : TcpStack) (k : SessionTuple) (make : ℕ → NormalSocket) (id : ℕ) (ids : List ℕ)
    → IsValid t
    → ((i : ℕ) → identity (normal (make i)) ≡ (i, session k))
    → find k t.session_to_socket ≡ none
    → t.free_socket_ids ≡ id ∷ ids
    → (t' : TcpStack) × (create_normal_socket k make t ≡ some (value id, t'))
      × Created t t' id (normal (make id)) (session k)
unfolding find_endpoint
creates t k make id ids v own fresh free =
    let (r, e, c) = create_normal_socket-Creation t v k make own in
    let (t', same, made) =
      Creation-Created t (λ i. normal (make i)) (session k) r id ids c fresh free in
    (t', e ∙ rw same refl, made)

pub start_active_connection-Created :
    (cap : ℕ) (f : Fresh) (k : SessionTuple) (t : TcpStack) (now id : ℕ) (ids : List ℕ)
    (s : NormalSocket) (es : List Effect)
    → IsValid t
    → find k t.session_to_socket ≡ none
    → t.free_socket_ids ≡ id ∷ ids
    → active_open cap (make_active_socket f.send_array f.recv_array id k f.isn) now ≡ some (s, es)
    → (t' : TcpStack) × (start_active_connection cap f k t now ≡ some (value id, t', es))
      × Created t t' id (normal s) (session k)
unfolding start_active_connection identity make_active_socket make_socket
start_active_connection-Created cap f k t now id ids s es v fresh free opens =
    let make = λ (i : ℕ). make_active_socket f.send_array f.recv_array i k f.isn in
    let (t1, e, c) = creates t k make id ids v (λ i. refl) fresh free in
    let same = active_open-Same cap (make id) now (s, es) opens in
    (
      put_socket id (normal s) t1,
      rw (e, opens) refl,
      put-Created t t1 id (normal (make id)) (normal s) (session k) c ground (arith, same),
    )

-- A table in which a listener has got a pending connection.
pub record Pending (t t' : TcpStack) (id : ℕ) (s : NormalSocket) (k : SessionTuple)
    (l : ListenSocket) : Type 0 where
  pub socket : find id t'.socket_table ≡ some (normal s)
  pub listens :
      find l.id t'.socket_table
      ≡ some (listener (record l { pending = l.pending ++ ((k, id) ∷ []) }))
  pub others : (j : ℕ) → j ≢ id → j ≢ l.id → find j t'.socket_table ≡ find j t.socket_table
  pub session : find k t'.session_to_socket ≡ some id

pub listener_handler-Pending :
    (cap : ℕ) (f : Fresh) (l : ListenSocket) (k : SessionTuple) (isn wnd : ℕ) (t : TcpStack)
    (now id : ℕ) (ids : List ℕ) (s : NormalSocket) (es : List Effect)
    → IsValid t
    → find l.id t.socket_table ≡ some (listener l)
    → l.state ≡ State.listen
    → length l.pending < max_pending_socks
    → find k t.session_to_socket ≡ none
    → t.free_socket_ids ≡ id ∷ ids
    → passive_open cap l.id
        (length l.pending)
        (make_passive_socket f.send_array f.recv_array id k f.isn isn wnd)
        now
      ≡ some (value tt, s, es)
    → (t' : TcpStack) × (listener_handler cap f l (get_syn k isn wnd) t now ≡ some (t', es))
      × Pending t t' id s k l
unfolding listener_handler create_passive_connection identity make_passive_socket make_socket
    add_pending
listener_handler-Pending cap f l k isn wnd t now id ids s es v there listens room fresh free opens =
    let make = λ (i : ℕ). make_passive_socket f.send_array f.recv_array i k f.isn isn wnd in
    let (t1, e, c) = creates t k make id ids v (λ i. refl) fresh free in
    let l' = record l { pending = l.pending ++ ((k, id) ∷ []) } in
    let t2 = put_socket id (normal s) t1 in
    let added : add_pending k id l ≡ (true, l') = ground (arith, room) in
    let unused = unused-find t id ids v free in
    let apart : (l.id == id) ≡ false = ground (arith, there, unused) in
    let own = (same_endpoint_iff (session k) (session k)).1 refl in
    let at = λ (j : ℕ). find-modify j l.id (λ _. listener l') t2.socket_table in
    let at2 = λ (j : ℕ). find-modify j id (λ _. normal s) t1.socket_table in
    (
      put_socket l.id (listener l') t2,
      ground (arith, listens, e, opens, room),
      record {
        socket = ground (arith, at id, at2 id, c.socket id, apart);
        listens = ground (arith, at l.id, at2 l.id, c.socket l.id, apart, there);
        others = λ j p q. ground (arith, at j, at2 j, c.socket j, p, q);
        session = unfold find_endpoint in ground (arith, c.endpoint (session k), own);
      },
    )
