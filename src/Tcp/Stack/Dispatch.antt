-- ===== src/Tcp/Stack/Dispatch.antt =====
-- A packet, whichever socket it goes to, keeps a valid table valid.
use tns.Common.{
  ℕ, ◌≡◌, refl, sym, subst, inl, inr, ◌⊎◌, Option, none, some, List, [], arith, ◌>>=◌, bind-some,
  find, nat_eq, Option-cases,
}
use tns.Ip.Address.{hton16}
use tns.Ip.Datagram.{Datagram}
use tns.Tcp.Wire.{
  packet, too_short, bad_offset, has_options, bad_checksum, make_packet_from_payload,
}
use tns.Tcp.Packet.{SessionTuple, Packet, session_eq}
use tns.Tcp.States.{Event, get_syn, from_packet}
use tns.Tcp.Sockets.{NormalSocket, Effect}
use tns.Tcp.Handlers.{event_handler}
use tns.Tcp.Handlers.Identity.{event_handler-Same}
use tns.Tcp.Listeners.{ListenSocket, push_and_notify}
use tns.Tcp.Stack.{Socket, normal, listener, TcpStack}
use tns.Tcp.Stack.Calls.{settle}
use tns.Tcp.Stack.Packets.{
  Fresh, create_passive_connection, listener_handler, is_pending, push_accepted, socket_handler,
  packet_handler, tcp_protocol_handler,
}
use tns.Tcp.Stack.Invariant.{identity, identity_at, IsValid}
use tns.Tcp.Stack.Keeping.{
  Keeps, Keeps-refl, Keeps-trans, Keeps-IsValid, put_socket-Keeps, settle-Keeps,
}
use tns.Tcp.Stack.Closing.{listener-own}
use tns.Tcp.Stack.Opening.{create_passive_connection-IsValid}

identity-push_and_notify :
    (id : ℕ) (l : ListenSocket) → identity (listener (push_and_notify id l)) ≡ identity (listener l)
unfolding identity push_and_notify
identity-push_and_notify id l = refl

push_accepted-Keeps :
    (a : Option ℕ) (id : ℕ) (t t' : TcpStack) → push_accepted a id t ≡ some t' → Keeps t t'
unfolding push_accepted
push_accepted-Keeps none id t t' h = subst (Keeps t) (ground arith) (Keeps-refl t)
push_accepted-Keeps (some l) id t t' h = elim (Option-cases (find l t.socket_table)) [
  | inl e ↦ absurd (ground arith)
  | inr (s, e) ↦ go s e
]
  where
    go : (s : Socket) → find l t.socket_table ≡ some s → Keeps t t'
    go (normal s) e = absurd (ground arith)
    go (listener s) e =
        let pushed = listener (push_and_notify id s) in
        subst (Keeps t) (ground arith)
          (put_socket-Keeps l pushed (listener s) t e (identity-push_and_notify id s))

socket_handler-Keeps :
    (cap id : ℕ) (s : NormalSocket) (e : Event) (t : TcpStack) (now : ℕ)
    (r : TcpStack × List Effect)
    → find id t.socket_table ≡ some (normal s)
    → socket_handler cap id s e t now ≡ some r
    → Keeps t r.0
unfolding socket_handler
socket_handler-Keeps cap id s e t now r there h =
    let p = is_pending s t in
    let last = λ (q : TcpStack × List Effect) (t' : TcpStack). some (t', q.1) in
    let (hd, hh, h1) =
      bind-some (event_handler cap s p e now)
        (λ hd.
          settle id hd.sock hd.effects t
          >>= (λ q. push_accepted hd.push_accepted id q.0 >>= last q))
        r h in
    let (q, hq, h2) =
      bind-some (settle id hd.sock hd.effects t)
        (λ q. push_accepted hd.push_accepted id q.0 >>= last q) r h1 in
    let (t', ht, h3) = bind-some (push_accepted hd.push_accepted id q.0) (last q) r h2 in
    let k1 =
      settle-Keeps id s hd.sock hd.effects t q there (event_handler-Same cap s p e now hd hh) hq in
    let k2 = push_accepted-Keeps hd.push_accepted id q.0 t' ht in
    subst (Keeps t) (ground arith) (Keeps-trans t q.0 t' k1 k2)

dropped-IsValid :
    (t : TcpStack) (r : TcpStack × List Effect) → IsValid t → some (t, []) ≡ some r → IsValid r.0
dropped-IsValid t r v h = subst IsValid (ground arith) v

listener_handler-IsValid :
    (cap : ℕ) (f : Fresh) (l : ListenSocket) (e : Event) (t : TcpStack) (now : ℕ)
    (r : TcpStack × List Effect)
    → IsValid t
    → identity_at t l.id ≡ some (identity (listener l))
    → listener_handler cap f l e t now ≡ some r
    → IsValid r.0
unfolding listener_handler
listener_handler-IsValid cap f l (get_syn k isn wnd) t now r v there h =
    elim (Option-cases (create_passive_connection cap f l k isn wnd t now)) [
      | inl e ↦ subst IsValid (ground arith) v
      | inr (q, e) ↦
          let valid = create_passive_connection-IsValid cap f l k isn wnd t now q v there e in
          let ends : (r.0 ≡ t) ⊎ (r.0 ≡ q.1) = ground arith in
          elim ends [
            | inl same ↦ subst IsValid (sym same) v
            | inr same ↦ subst IsValid (sym same) valid
          ]
    ]
listener_handler-IsValid cap f l Event.close t now r v there h = dropped-IsValid t r v h
listener_handler-IsValid cap f l (Event.get_syn_ack a b c) t now r v there h =
    dropped-IsValid t r v h
listener_handler-IsValid cap f l (Event.get_ack a b c d) t now r v there h = dropped-IsValid t r v h
listener_handler-IsValid cap f l (Event.get_fin a b) t now r v there h = dropped-IsValid t r v h
listener_handler-IsValid cap f l (Event.get_fin_ack a b c) t now r v there h =
    dropped-IsValid t r v h

packet_handler-IsValid :
    (cap : ℕ) (f : Fresh) (src dst : ℕ) (p : Packet) (t : TcpStack) (now : ℕ)
    (r : TcpStack × List Effect)
    → IsValid t
    → packet_handler cap f src dst p t now ≡ some r
    → IsValid r.0
unfolding packet_handler
packet_handler-IsValid cap f src dst p t now r v h =
    let k : SessionTuple = record {
      local = record { addr = dst; port = p.dst_port };
      remote = record { addr = src; port = p.src_port };
    } in
    elim (Option-cases (from_packet p k)) [
      | inl no_event ↦ dropped-IsValid t r v (ground arith)
      | inr (e, is_event) ↦ elim (Option-cases (find k t.session_to_socket)) [
        | inr (id, known) ↦ elim (Option-cases (find id t.socket_table)) [
          | inl gone ↦ absurd (ground arith)
          | inr (listener l, there) ↦ absurd (ground arith)
          | inr (normal s, there) ↦
              Keeps-IsValid t r.0 (socket_handler-Keeps cap id s e t now r there (ground arith)) v
        ]
        | inl unknown ↦ elim (Option-cases (find (hton16 p.dst_port) t.port_to_listen_socket)) [
          | inl no_listener ↦ dropped-IsValid t r v (ground arith)
          | inr (l, listens) ↦ elim (Option-cases (find l t.socket_table)) [
            | inl gone ↦ absurd (ground arith)
            | inr (normal s, there) ↦ absurd (ground arith)
            | inr (listener ls, there) ↦
                listener_handler-IsValid cap f ls e t now r v (listener-own t v l ls there).1
                  (ground arith)
          ]
        ]
      ]
    ]

pub tcp_protocol_handler-IsValid :
    (cap : ℕ) (f : Fresh) (d : Datagram) (t : TcpStack) (now : ℕ) (r : TcpStack × List Effect)
    → IsValid t
    → tcp_protocol_handler cap f d t now ≡ some r
    → IsValid r.0
unfolding tcp_protocol_handler
tcp_protocol_handler-IsValid cap f d t now r v h =
    elim (make_packet_from_payload d.header.saddr d.header.daddr d.payload)
        as (λ x.
          (elim x [
            | packet p ↦ packet_handler cap f d.header.saddr d.header.daddr p t now
            | _ ↦ some (t, [])
          ])
            ≡ some r
          → IsValid r.0) [
            | packet p ↦ packet_handler-IsValid cap f d.header.saddr d.header.daddr p t now r v
            | too_short ↦ dropped-IsValid t r v
            | bad_offset ↦ dropped-IsValid t r v
            | has_options ↦ dropped-IsValid t r v
            | bad_checksum ↦ dropped-IsValid t r v
          ]
      h
