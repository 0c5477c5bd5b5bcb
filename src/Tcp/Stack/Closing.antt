-- ===== src/Tcp/Stack/Closing.antt =====
-- The calls by id, and the closing of a listener, keep the identities in the table.
use tns.Common.{
  ℕ, ◌≡◌, refl, sym, subst, ◌∙◌, inl, inr, ◌⊎◌, true, some, List, [], ◌∷◌, ◌++◌, arith, ◌>>=◌,
  bind-some, find, nat_eq, Option-cases, map,
}
use tns.Tcp.SocketError.{Outcome}
use tns.Tcp.States.{State}
use tns.Tcp.Sockets.{NormalSocket, Effect}
use tns.Tcp.Sockets
use tns.Tcp.Handlers.Identity.{v_close-Same, v_abort-Same, v_send-Same, v_recv-Same}
use tns.Tcp.Listeners.{ListenSocket, wait_and_pop}
use tns.Tcp.Stack.{Socket, normal, listener, TcpStack}
use tns.Tcp.Stack.Calls.{
  put_socket, settle, v_accept, close_socket, close_sockets, close_listener, v_send, v_recv,
  v_close, v_abort,
}
use tns.Tcp.Stack.Invariant.{port, identity, identity_at, IsValid, indexed-some}
use tns.Tcp.Stack.Keeping.{
  Keeps, Keeps-refl, Keeps-trans, put_socket-Keeps, put-Keeps, put-Same, settle-Keeps,
}

close_socket-Keeps :
    (cap id : ℕ) (t : TcpStack) (now : ℕ) (r : TcpStack × List Effect)
    → close_socket cap id t now ≡ some r
    → Keeps t r.0
unfolding close_socket
close_socket-Keeps cap id t now r h = elim (Option-cases (find id t.socket_table)) [
  | inl e ↦ absurd (ground arith)
  | inr (s, e) ↦ go s e
]
  where
    go : (s : Socket) → find id t.socket_table ≡ some s → Keeps t r.0
    go (listener l) e = absurd (ground arith)
    go (normal s) e =
        let (q, hq, hr) =
          bind-some (Sockets.v_close cap s now) (λ q. settle id q.1 q.2 t) r (ground arith) in
        settle-Keeps id s q.1 q.2 t r e (v_close-Same cap s now q.0 q.1 q.2 hq) hr

close_sockets-Keeps :
    (cap : ℕ) (ids : List ℕ) (t : TcpStack) (now : ℕ) (r : TcpStack × List Effect)
    → close_sockets cap ids t now ≡ some r
    → Keeps t r.0
unfolding close_sockets
close_sockets-Keeps cap [] t now r h = subst (Keeps t) (ground arith) (Keeps-refl t)
close_sockets-Keeps cap (id ∷ ids) t now r h =
    let (q, hq, h1) =
      bind-some (close_socket cap id t now)
        (λ q. close_sockets cap ids q.0 now >>= (λ p. some (p.0, q.1 ++ p.1))) r h in
    let (p, hp, h2) =
      bind-some (close_sockets cap ids q.0 now) (λ p. some (p.0, q.1 ++ p.1)) r h1 in
    let rest = close_sockets-Keeps cap ids q.0 now p hp in
    subst (Keeps t) (ground arith)
      (Keeps-trans t q.0 p.0 (close_socket-Keeps cap id t now q hq) rest)

-- A change to a listener that is in the table under the id that it holds.
pub listener-Keeps :
    (l l' : ListenSocket) (t : TcpStack)
    → identity_at t l.id ≡ some (identity (listener l))
    → l'.id ≡ l.id
    → l'.port ≡ l.port
    → Keeps t (put_socket l.id (listener l') t)
unfolding identity
listener-Keeps l l' t h hi hp = put-Keeps l.id (listener l') t (ground (arith, h, hi, hp))

pub close_listener-Keeps :
    (cap : ℕ) (l : ListenSocket) (t : TcpStack) (now : ℕ)
    (r : Outcome (Unit {0}) × TcpStack × List Effect)
    → identity_at t l.id ≡ some (identity (listener l))
    → close_listener cap l t now ≡ some r
    → Keeps t r.1
unfolding close_listener identity
close_listener-Keeps cap l t now r there h =
    let cleared = record l { pending = []; accept_queue = []; closed = true } in
    let done = record cleared { state = State.closed } in
    let ids = map (λ (sess, id). id) l.pending ++ l.accept_queue in
    let t0 = put_socket l.id (listener cleared) t in
    let k0 : Keeps t t0 = listener-Keeps l cleared t there refl refl in
    elim (Option-cases (close_sockets cap ids t0 now)) [
      | inl e ↦ let same : r.1 ≡ t = (ground arith) in subst (Keeps t) (sym same) (Keeps-refl t)
      | inr (q, e) ↦
          let k1 = Keeps-trans t t0 q.0 k0 (close_sockets-Keeps cap ids t0 now q e) in
          let k2 =
            Keeps-trans t q.0 (put_socket l.id (listener done) q.0) k1
              (put-Keeps l.id (listener done) q.0 (k1.identities l.id ∙ there)) in
          let ends : (r.1 ≡ t) ⊎ (r.1 ≡ put_socket l.id (listener done) q.0) = (ground arith) in
          elim ends [
            | inl same ↦ subst (Keeps t) (sym same) (Keeps-refl t)
            | inr closed ↦ subst (Keeps t) (sym closed) k2
          ]
    ]

identity-wait_and_pop :
    (s : ListenSocket) → identity (listener (wait_and_pop s).1) ≡ identity (listener s)
unfolding identity wait_and_pop
identity-wait_and_pop s = ground arith

module _ (t : TcpStack) (v : IsValid t) where
  -- A listener that is found holds the id that it is found by.
  pub listener-own :
      (id : ℕ) (l : ListenSocket)
      → find id t.socket_table ≡ some (listener l)
      → (l.id ≡ id) × (identity_at t l.id ≡ some (identity (listener l)))
  unfolding identity_at identity
  listener-own id l h =
      let here : identity_at t id ≡ some (l.id, port l.port) = (rw h refl) in
      let own = (indexed-some t v id l.id (port l.port) here).0 in
      (own, (subst (λ i. identity_at t i ≡ some (l.id, port l.port)) (sym own) here))

  pub v_close-Keeps :
      (cap id now : ℕ) (r : Outcome (Unit {0}) × TcpStack × List Effect)
      → v_close cap id t now ≡ some r
      → Keeps t r.1
  unfolding v_close
  v_close-Keeps cap id now r h = elim (Option-cases (find id t.socket_table)) [
    | inl e ↦ subst (Keeps t) (ground arith) (Keeps-refl t)
    | inr (s, e) ↦ go s e
  ]
    where
      go : (s : Socket) → find id t.socket_table ≡ some s → Keeps t r.1
      go (listener l) e = close_listener-Keeps cap l t now r (listener-own id l e).1 (ground arith)
      go (normal s) e =
          let f = λ (q : Outcome (Unit {0}) × NormalSocket × List Effect).
            settle id q.1 q.2 t >>= (λ d. some (q.0, d.0, d.1)) in
          let (q, hq, h1) = bind-some (Sockets.v_close cap s now) f r (ground arith) in
          let (d, hd, h2) = bind-some (settle id q.1 q.2 t) (λ d. some (q.0, d.0, d.1)) r h1 in
          subst (Keeps t) (ground arith)
            (settle-Keeps id s q.1 q.2 t d e (v_close-Same cap s now q.0 q.1 q.2 hq) hd)

  pub v_abort-Keeps :
      (cap id now : ℕ) (r : Outcome (Unit {0}) × TcpStack × List Effect)
      → v_abort cap id t now ≡ some r
      → Keeps t r.1
  unfolding v_abort
  v_abort-Keeps cap id now r h = elim (Option-cases (find id t.socket_table)) [
    | inl e ↦ subst (Keeps t) (ground arith) (Keeps-refl t)
    | inr (s, e) ↦ go s e
  ]
    where
      go : (s : Socket) → find id t.socket_table ≡ some s → Keeps t r.1
      go (listener l) e = close_listener-Keeps cap l t now r (listener-own id l e).1 (ground arith)
      go (normal s) e =
          let q = Sockets.v_abort s in
          let (d, hd, h2) =
            bind-some (settle id q.1 q.2 t) (λ d. some (q.0, d.0, d.1)) r (ground arith) in
          subst (Keeps t) (ground arith) (settle-Keeps id s q.1 q.2 t d e (v_abort-Same s) hd)

  pub v_send-Keeps :
      (cap id : ℕ) (bytes : List ℕ) (r : Outcome ℕ × TcpStack)
      → v_send cap id bytes t ≡ some r
      → Keeps t r.1
  unfolding v_send
  v_send-Keeps cap id bytes r h = elim (Option-cases (find id t.socket_table)) [
    | inl e ↦ subst (Keeps t) (ground arith) (Keeps-refl t)
    | inr (s, e) ↦ go s e
  ]
    where
      go : (s : Socket) → find id t.socket_table ≡ some s → Keeps t r.1
      go (listener l) e = subst (Keeps t) (ground arith) (Keeps-refl t)
      go (normal s) e =
          let f = λ (q : Outcome ℕ × NormalSocket). some (q.0, put_socket id (normal q.1) t) in
          let (q, hq, h1) = bind-some (Sockets.v_send cap s bytes) f r (ground arith) in
          subst (Keeps t) (ground arith) (put-Same id s q.1 t e (v_send-Same cap s bytes q hq))

  pub v_recv-Keeps :
      (cap id n : ℕ) (r : Outcome (List ℕ) × TcpStack) → v_recv cap id n t ≡ some r → Keeps t r.1
  unfolding v_recv
  v_recv-Keeps cap id n r h = elim (Option-cases (find id t.socket_table)) [
    | inl e ↦ subst (Keeps t) (ground arith) (Keeps-refl t)
    | inr (s, e) ↦ go s e
  ]
    where
      go : (s : Socket) → find id t.socket_table ≡ some s → Keeps t r.1
      go (listener l) e = subst (Keeps t) (ground arith) (Keeps-refl t)
      go (normal s) e =
          let f =
            λ (q : Outcome (List ℕ) × NormalSocket). some (q.0, put_socket id (normal q.1) t) in
          let (q, hq, h1) = bind-some (Sockets.v_recv cap s n) f r (ground arith) in
          subst (Keeps t) (ground arith) (put-Same id s q.1 t e (v_recv-Same cap s n q hq))

  pub v_accept-Keeps : (l : ℕ) (r : Outcome ℕ × TcpStack) → v_accept l t ≡ some r → Keeps t r.1
  unfolding v_accept
  v_accept-Keeps l r h = elim (Option-cases (find l t.socket_table)) [
    | inl e ↦ absurd (ground arith)
    | inr (s, e) ↦ go s e
  ]
    where
      go : (s : Socket) → find l t.socket_table ≡ some s → Keeps t r.1
      go (normal s) e = absurd (ground arith)
      go (listener s) e = subst (Keeps t) (ground arith) (
          put_socket-Keeps l (listener (wait_and_pop s).1) (listener s) t e
            (identity-wait_and_pop s))
