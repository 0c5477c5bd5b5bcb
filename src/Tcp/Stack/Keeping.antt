-- ===== src/Tcp/Stack/Keeping.antt =====
-- The operations that neither create nor purge a socket keep its identity, and so a valid table valid.
use tns.Common.{
  ℕ, ◌≡◌, refl, subst, ◌∙◌, inl, inr, Bool, some, List, [], ◌∷◌, arith, bind-some, find,
  find-modify, nat_eq, Option-cases,
}
use tns.Tcp.Packet.{SessionTuple, session_eq}
use tns.Tcp.Sockets.{NormalSocket, Effect, send_packet, wake_connect, forget_pending}
use tns.Tcp.Handlers.Identity.{Same}
use tns.Tcp.Listeners.{remove_pending}
use tns.Tcp.Stack.{Socket, normal, listener, TcpStack}
use tns.Tcp.Stack.Calls.{put_socket, forget, perform, settle}
use tns.Tcp.Stack.Invariant.{Endpoint, identity, identity_at, find_endpoint, IsValid}
use tns.Tcp.Stack.Changes.{kept-IsValid}

pub record Keeps (t t' : TcpStack) : Type 0 where
  pub identities : (id : ℕ) → identity_at t' id ≡ identity_at t id
  pub endpoints : (e : Endpoint) → find_endpoint t' e ≡ find_endpoint t e
  pub free_ids : t'.free_socket_ids ≡ t.free_socket_ids

pub Keeps-IsValid : (t t' : TcpStack) → Keeps t t' → IsValid t → IsValid t'
Keeps-IsValid t t' k v = kept-IsValid t t' k.identities k.endpoints k.free_ids v

pub Keeps-refl : (t : TcpStack) → Keeps t t
Keeps-refl t = record { identities = λ id. refl; endpoints = λ e. refl; free_ids = refl }

pub Keeps-trans : (t t1 t2 : TcpStack) → Keeps t t1 → Keeps t1 t2 → Keeps t t2
Keeps-trans t t1 t2 k j = record {
  identities = λ id. j.identities id ∙ k.identities id;
  endpoints = λ e. j.endpoints e ∙ k.endpoints e;
  free_ids = j.free_ids ∙ k.free_ids;
}

find_endpoint-put :
    (id : ℕ) (s : Socket) (t : TcpStack) (e : Endpoint)
    → find_endpoint (put_socket id s t) e ≡ find_endpoint t e
unfolding find_endpoint
find_endpoint-put id s t e = ground arith

pub put_socket-Keeps :
    (id : ℕ) (s' s : Socket) (t : TcpStack)
    → find id t.socket_table ≡ some s
    → identity s' ≡ identity s
    → Keeps t (put_socket id s' t)
unfolding identity_at
put_socket-Keeps id s' s t h same = record {
  identities = λ j. (ground (arith, find-modify j id (λ _. s') t.socket_table));
  endpoints = find_endpoint-put id s' t;
  free_ids = refl;
}

pub put-Keeps :
    (id : ℕ) (s' : Socket) (t : TcpStack)
    → identity_at t id ≡ some (identity s')
    → Keeps t (put_socket id s' t)
unfolding identity_at
put-Keeps id s' t h = record {
  identities = λ j. ground (arith, find-modify j id (λ _. s') t.socket_table);
  endpoints = find_endpoint-put id s' t;
  free_ids = refl;
}

pub forget-Keeps :
    (l : ℕ) (sess : SessionTuple) (t : TcpStack) (r : Bool × TcpStack)
    → forget l sess t ≡ some r
    → Keeps t r.1
unfolding forget identity remove_pending
forget-Keeps l sess t r h = elim (Option-cases (find l t.socket_table)) [
  | inl none_there ↦ absurd (ground arith)
  | inr (s, there) ↦ go s there
]
  where
    go : (s : Socket) → find l t.socket_table ≡ some s → Keeps t r.1
    go (normal s) there = absurd (ground arith)
    go (listener s) there =
        subst (Keeps t) (ground arith)
          (put_socket-Keeps l (listener (remove_pending sess s).1) (listener s) t there refl)

pub perform-Keeps :
    (effects : List Effect) (t : TcpStack) (r : TcpStack × List Effect)
    → perform effects t ≡ some r
    → Keeps t r.0
unfolding perform
perform-Keeps [] t r h = subst (Keeps t) (ground arith) (Keeps-refl t)
perform-Keeps (forget_pending l sess ∷ effects) t r h =
    let (q, hq, hr) = bind-some (forget l sess t) (λ q. perform effects q.1) r h in
    Keeps-trans t q.1 r.0 (forget-Keeps l sess t q hq) (perform-Keeps effects q.1 r hr)
perform-Keeps (send_packet p to ∷ effects) t r h =
    let (q, hq, hr) = bind-some (perform effects t) (λ q. some (q.0, send_packet p to ∷ q.1)) r h in
    subst (Keeps t) (ground arith) (perform-Keeps effects t q hq)
perform-Keeps (wake_connect e ∷ effects) t r h =
    let (q, hq, hr) = bind-some (perform effects t) (λ q. some (q.0, wake_connect e ∷ q.1)) r h in
    subst (Keeps t) (ground arith) (perform-Keeps effects t q hq)

pub put-Same :
    (id : ℕ) (s s' : NormalSocket) (t : TcpStack)
    → find id t.socket_table ≡ some (normal s)
    → Same s s'
    → Keeps t (put_socket id (normal s') t)
unfolding identity
put-Same id s s' t h same =
    put_socket-Keeps id (normal s') (normal s) t h (ground (arith, same.id, same.tuple))

-- What a call of a normal socket leaves, once it is put back.
pub settle-Keeps :
    (id : ℕ) (s s' : NormalSocket) (effects : List Effect) (t : TcpStack)
    (r : TcpStack × List Effect)
    → find id t.socket_table ≡ some (normal s)
    → Same s s'
    → settle id s' effects t ≡ some r
    → Keeps t r.0
unfolding settle identity
settle-Keeps id s s' effects t r h same e =
    let t1 = put_socket id (normal s') t in
    Keeps-trans t t1 r.0
      (put_socket-Keeps id (normal s') (normal s) t h (ground (arith, same.id, same.tuple)))
      (perform-Keeps effects t1 r e)
