-- ===== src/Tcp/Stack/Opening.antt =====
-- Opening connections and taking packets keep a valid table valid.
use tns.Common.{
  ℕ, ◌≡◌, refl, sym, subst, ap, ◌∙◌, inl, inr, Option, none, some, List, arith, bind-some, find,
  nat_eq, Option-cases, length,
}
use tns.Tcp.Packet.{SessionTuple, session_eq}
use tns.Tcp.SocketError.{SocketError, Outcome, waits, value, error}
use tns.Tcp.Sockets.{NormalSocket, Effect}
use tns.Tcp.Handlers.Identity.{active_open-Same, finish_active_open-Same, passive_open-Same}
use tns.Tcp.Connections.{
  make_socket, make_active_socket, make_passive_socket, active_open, finish_active_open,
  passive_open,
}
use tns.Tcp.Listeners.{ListenSocket, add_pending}
use tns.Tcp.Stack.{Socket, normal, listener, TcpStack, create_listen_socket, create_normal_socket}
use tns.Tcp.Stack.Calls.{put_socket}
use tns.Tcp.Stack.Packets.{
  Fresh, start_active_connection, finish_active_connection, create_passive_connection,
}
use tns.Tcp.Stack.Invariant.{Endpoint, session, identity, identity_at, IsValid}
use tns.Tcp.Stack.Keeping.{Keeps, Keeps-refl, Keeps-trans, Keeps-IsValid, put-Keeps, put-Same}
use tns.Tcp.Stack.Creation.{
  Creation, duplicate, exhausted, created, create_listen_socket-Creation,
  create_normal_socket-Creation, unused-find,
}

-- A table after an attempt to create a socket.
Creation-IsValid :
    (t : TcpStack) (make : ℕ → Socket) (e : Endpoint) (r : Outcome ℕ × TcpStack)
    → IsValid t
    → Creation t make e r
    → IsValid r.1
Creation-IsValid t make e _ v (duplicate id h) = v
Creation-IsValid t make e _ v (exhausted h f) = v
Creation-IsValid t make e _ v (created id t' h c) = c.valid

pub create_listen_socket-IsValid :
    (p : ℕ) (t : TcpStack) (r : Outcome ℕ × TcpStack)
    → IsValid t
    → create_listen_socket p t ≡ some r
    → IsValid r.1
create_listen_socket-IsValid p t r v h =
    let (q, hq, c) = create_listen_socket-Creation t v p in
    let same : q ≡ r = ground arith in subst (λ r. IsValid r.1) same (Creation-IsValid t _ _ q v c)

-- The table is valid, what a successful creation returns is in it, and so is what was there before.
Finds : TcpStack → (ℕ → Socket) → Outcome ℕ × TcpStack → Type 0
Finds t make r =
    IsValid r.1
    × ((id : ℕ) → r.0 ≡ value id → find id r.1.socket_table ≡ some (make id))
    × ((id : ℕ) (x : ℕ × Endpoint) → identity_at t id ≡ some x → identity_at r.1 id ≡ some x)

Creation-Finds :
    (t : TcpStack) (make : ℕ → Socket) (e : Endpoint) (r : Outcome ℕ × TcpStack)
    → IsValid t
    → Creation t make e r
    → Finds t make r
unfolding Finds identity_at
Creation-Finds t make e _ v (duplicate id h) = (v, λ i e. absurd (ground arith), λ i x h. h)
Creation-Finds t make e _ v (exhausted h f) = (v, λ i e. absurd (ground arith), λ i x h. h)
Creation-Finds t make e _ v (created id t' h c) = (
  c.valid,
  λ i e. let same : id ≡ i = ground arith in ground (arith, c.socket i, same),
  λ i x there. ground (arith, c.socket i, unused-find t id t'.free_socket_ids v c.taken),
)

create_normal_socket-Finds :
    (k : SessionTuple) (make : ℕ → NormalSocket) (t : TcpStack) (r : Outcome ℕ × TcpStack)
    → ((id : ℕ) → identity (normal (make id)) ≡ (id, session k))
    → IsValid t
    → create_normal_socket k make t ≡ some r
    → Finds t (λ id. normal (make id)) r
create_normal_socket-Finds k make t r own v h =
    let (q, hq, c) = create_normal_socket-Creation t v k make own in
    let same : q ≡ r = ground arith in
    subst (Finds t (λ id. normal (make id))) same (Creation-Finds t _ _ q v c)

pub start_active_connection-IsValid :
    (cap : ℕ) (f : Fresh) (k : SessionTuple) (t : TcpStack) (now : ℕ)
    (r : Outcome ℕ × TcpStack × List Effect)
    → IsValid t
    → start_active_connection cap f k t now ≡ some r
    → IsValid r.1
unfolding start_active_connection identity make_active_socket make_socket Finds
start_active_connection-IsValid cap f k t now r v h =
    let make = λ (id : ℕ). make_active_socket f.send_array f.recv_array id k f.isn in
    elim (Option-cases (create_normal_socket k make t)) [
      | inl e ↦ absurd (ground arith)
      | inr (q, e) ↦
          let (valid, found, before) = create_normal_socket-Finds k make t q (λ id. refl) v e in
          elim q.0 as (λ o. q.0 ≡ o → IsValid r.1) [
            | waits ↦ λ o. absurd (ground arith)
            | error err ↦ λ o. subst IsValid (ground arith) valid
            | value id ↦ λ o.
                let done = λ (s : NormalSocket × List Effect).
                  some (value id, put_socket id (normal s.0) q.1, s.1) in
                let (s, hs, hr) = bind-some (active_open cap (make id) now) done r (ground arith) in
                let same = active_open-Same cap (make id) now s hs in
                subst IsValid (ground arith)
                  (Keeps-IsValid q.1 _ (put-Same id (make id) s.0 q.1 (found id o) same) valid)
          ]
            refl
    ]

pub finish_active_connection-Keeps :
    (id : ℕ) (e : Option SocketError) (t : TcpStack) (r : Outcome ℕ × TcpStack)
    → finish_active_connection id e t ≡ some r
    → Keeps t r.1
unfolding finish_active_connection
finish_active_connection-Keeps id (some e) t r h = subst (Keeps t) (ground arith) (Keeps-refl t)
finish_active_connection-Keeps id none t r h = elim (Option-cases (find id t.socket_table)) [
  | inl e ↦ absurd (ground arith)
  | inr (s, e) ↦ go s e
]
  where
    go : (s : Socket) → find id t.socket_table ≡ some s → Keeps t r.1
    go (listener l) e = absurd (ground arith)
    go (normal s) e =
        let done = λ (s' : NormalSocket). some (value id, put_socket id (normal s') t) in
        let (s', hs, hr) = bind-some (finish_active_open s) done r (ground arith) in
        subst (Keeps t) (ground arith) (put-Same id s s' t e (finish_active_open-Same s s' hs))

identity-add_pending :
    (k : SessionTuple) (id : ℕ) (l : ListenSocket)
    → identity (listener (add_pending k id l).1) ≡ identity (listener l)
unfolding identity add_pending
identity-add_pending k id l = ground arith

-- `l` is a listener of the table at first.
pub create_passive_connection-IsValid :
    (cap : ℕ) (f : Fresh) (l : ListenSocket) (k : SessionTuple) (isn wnd : ℕ) (t : TcpStack)
    (now : ℕ) (r : Outcome ℕ × TcpStack × List Effect)
    → IsValid t
    → identity_at t l.id ≡ some (identity (listener l))
    → create_passive_connection cap f l k isn wnd t now ≡ some r
    → IsValid r.1
unfolding create_passive_connection identity make_passive_socket make_socket Finds
create_passive_connection-IsValid cap f l k isn wnd t now r v there h =
    let make = λ (id : ℕ). make_passive_socket f.send_array f.recv_array id k f.isn isn wnd in
    elim (Option-cases (create_normal_socket k make t)) [
      | inl e ↦ absurd (ground arith)
      | inr (q, e) ↦
          let (valid, found, before) = create_normal_socket-Finds k make t q (λ id. refl) v e in
          elim q.0 as (λ o. q.0 ≡ o → IsValid r.1) [
            | waits ↦ λ o. absurd (ground arith)
            | error err ↦ λ o. subst IsValid (ground arith) valid
            | value id ↦ λ o.
                elim (Option-cases (passive_open cap l.id (length l.pending) (make id) now)) [
                  | inl failed ↦ absurd (ground arith)
                  | inr (s, hs) ↦
                      let t1 = put_socket id (normal s.1) q.1 in
                      let l' = (add_pending k id l).1 in
                      let same = passive_open-Same cap l.id (length l.pending) (make id) now s hs in
                      let k1 = put-Same id (make id) s.1 q.1 (found id o) same in
                      let here : identity_at t1 l.id ≡ some (identity (listener l')) =
                        k1.identities l.id
                        ∙ before l.id _ there
                        ∙ ap some (sym (identity-add_pending k id l)) in
                      let k2 = put-Keeps l.id (listener l') t1 here in
                      subst IsValid (ground arith)
                        (Keeps-IsValid q.1 _ (Keeps-trans q.1 t1 _ k1 k2) valid)
                ]
          ]
            refl
    ]
