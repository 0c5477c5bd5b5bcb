-- ===== src/Tcp/Stack/Creation.antt =====
-- What `createListenSocket_` and `createNormalSocket_` do to a valid table.
use tns.Common.{
  ℕ, ◌≡◌, refl, sym, inl, inr, none, some, List, [], ◌∷◌, arith, ◌==◌, if◌then◌else◌, find, emplace,
  find-emplace, nat_eq, Option-cases, List-cases,
}
use tns.Tcp.Packet.{SessionTuple, session_eq}
use tns.Tcp.SocketError.{Outcome, value, error, duplicate_socket, no_resources}
use tns.Tcp.Sockets.{NormalSocket}
use tns.Tcp.Listeners.{make_listener}
use tns.Tcp.Stack.{
  Socket, normal, listener, TcpStack, create_listen_socket, create_normal_socket,
  get_next_socket_id,
}
use tns.Tcp.Stack.Invariant.{
  Endpoint, session, port, same_endpoint, endpoint_eq, identity, identity_at, find_endpoint,
  contains_id, IsValid,
}
use tns.Tcp.Stack.Changes.{added-IsValid}

-- The table `t'` is `t` with one more socket, which takes the lowest free id.
pub record Created (t t' : TcpStack) (id : ℕ) (s : Socket) (e : Endpoint) : Type 0 where
  pub socket :
      (j : ℕ) → find j t'.socket_table ≡ (if j == id then some s else find j t.socket_table)
  pub endpoint :
      (d : Endpoint)
      → find_endpoint t' d ≡ (if same_endpoint d e then some id else find_endpoint t d)
  pub taken : t.free_socket_ids ≡ id ∷ t'.free_socket_ids
  pub valid : IsValid t'

-- How an attempt to create a socket `make id` with an endpoint ends.
pub data Creation (t : TcpStack) (make : ℕ → Socket) (e : Endpoint)
    : Outcome ℕ × TcpStack → Type 0 where
  duplicate : (id : ℕ) → find_endpoint t e ≡ some id → Creation t make e (error duplicate_socket, t)
  exhausted :
      find_endpoint t e ≡ none → t.free_socket_ids ≡ [] → Creation t make e (error no_resources, t)
  created :
      (id : ℕ) (t' : TcpStack)
      → find_endpoint t e ≡ none
      → Created t t' id (make id) e
      → Creation t make e (value id, t')

-- The lowest free id is not in the table.
pub unused-find :
    (t : TcpStack) (id : ℕ) (ids : List ℕ)
    → IsValid t
    → t.free_socket_ids ≡ id ∷ ids
    → find id t.socket_table ≡ none
unfolding identity_at contains_id
unused-find t id ids v h = ground (arith, sym h, v.free id)

-- What remains to be shown of a new socket once the maps are known.
added-Created :
    (t t' : TcpStack) (id : ℕ) (s : Socket) (e : Endpoint)
    → IsValid t
    → identity s ≡ (id, e)
    → find_endpoint t e ≡ none
    → t.free_socket_ids ≡ id ∷ t'.free_socket_ids
    → ((j : ℕ) → find j t'.socket_table ≡ (if j == id then some s else find j t.socket_table))
    → ((d : Endpoint)
        → find_endpoint t' d ≡ (if same_endpoint d e then some id else find_endpoint t d))
    → Created t t' id s e
unfolding identity_at
added-Created t t' id s e v own fresh taken hs he = record {
  socket = hs;
  endpoint = he;
  taken = taken;
  valid =
      added-IsValid t t' id e t'.free_socket_ids taken fresh (λ j. ground (arith, hs j, own)) he
        refl v;
}

next-nil : (t : TcpStack) → t.free_socket_ids ≡ [] → get_next_socket_id t ≡ (error no_resources, t)
unfolding get_next_socket_id
next-nil t h = ground arith

next-cons :
    (t : TcpStack) (id : ℕ) (ids : List ℕ)
    → t.free_socket_ids ≡ id ∷ ids
    → get_next_socket_id t ≡ (value id, record t { free_socket_ids = ids })
unfolding get_next_socket_id
next-cons t id ids h = ground arith

-- The two tables that a creation ends with.
unfoldable with_listener : ℕ → ℕ → List ℕ → TcpStack → TcpStack
with_listener id p ids t = record t {
  socket_table = emplace id (listener (make_listener id p)) t.socket_table;
  port_to_listen_socket = emplace p id t.port_to_listen_socket;
  free_socket_ids = ids;
}

unfoldable with_normal : ℕ → NormalSocket → SessionTuple → List ℕ → TcpStack → TcpStack
with_normal id s k ids t = record t {
  socket_table = emplace id (normal s) t.socket_table;
  session_to_socket = emplace k id t.session_to_socket;
  free_socket_ids = ids;
}

find_endpoint-with_listener :
    (id p : ℕ) (ids : List ℕ) (t : TcpStack)
    → find_endpoint t (port p) ≡ none
    → (d : Endpoint)
    → find_endpoint (with_listener id p ids t) d
      ≡ (if same_endpoint d (port p) then some id else find_endpoint t d)
unfolding find_endpoint with_listener same_endpoint
find_endpoint-with_listener id p ids t h (session k) = refl
find_endpoint-with_listener id p ids t h (port q) = find-emplace q p id t.port_to_listen_socket h

find_endpoint-with_normal :
    (id : ℕ) (s : NormalSocket) (k : SessionTuple) (ids : List ℕ) (t : TcpStack)
    → find_endpoint t (session k) ≡ none
    → (d : Endpoint)
    → find_endpoint (with_normal id s k ids t) d
      ≡ (if same_endpoint d (session k) then some id else find_endpoint t d)
unfolding find_endpoint with_normal same_endpoint
find_endpoint-with_normal id s k ids t h (port q) = refl
find_endpoint-with_normal id s k ids t h (session q) = find-emplace q k id t.session_to_socket h

module _ (t : TcpStack) (v : IsValid t) where
  -- On a valid table `createListenSocket_` fails no assertion. With a listener on the port, or else with
  -- no free id, it returns that error and the table as it was; otherwise the socket takes the lowest free
  -- id and is found by it and by its port, all else is found as before, and the table is valid.
  pub create_listen_socket-Creation :
      (p : ℕ)
      → (r : Outcome ℕ × TcpStack) × (create_listen_socket p t ≡ some r)
        × Creation t (λ id. listener (make_listener id p)) (port p) r
  unfolding create_listen_socket find_endpoint identity make_listener with_listener
  create_listen_socket-Creation p = elim (Option-cases (find p t.port_to_listen_socket)) [
    | inr (i, found) ↦ ((error duplicate_socket, t), rw found refl, duplicate i found)
    | inl fresh ↦ elim (List-cases t.free_socket_ids) [
      | inl empty ↦
          ((error no_resources, t), ground (arith, next-nil t empty), exhausted fresh empty)
      | inr (id, ids, free) ↦
          let unused = unused-find t id ids v free in
          let sock = listener (make_listener id p) in
          let t' = with_listener id p ids t in
          (
            (value id, t'),
            ground (arith, next-cons t id ids free),
            created id t' fresh (
                added-Created t t' id sock (port p) v refl fresh free
                  (λ j. find-emplace j id sock t.socket_table unused)
                  (find_endpoint-with_listener id p ids t fresh)),
          )
    ]
  ]

  -- On a valid table `createNormalSocket_` fails no assertion. With a socket of the session, or else with
  -- no free id, it returns that error and the table as it was; otherwise the socket, which holds its id
  -- and session, takes the lowest free id and is found by it and by its session, all else is found as
  -- before, and the table is valid.
  pub create_normal_socket-Creation :
      (tuple : SessionTuple) (make : ℕ → NormalSocket)
      → ((id : ℕ) → identity (normal (make id)) ≡ (id, session tuple))
      → (r : Outcome ℕ × TcpStack) × (create_normal_socket tuple make t ≡ some r)
        × Creation t (λ id. normal (make id)) (session tuple) r
  unfolding create_normal_socket find_endpoint with_normal
  create_normal_socket-Creation k make own = elim (Option-cases (find k t.session_to_socket)) [
    | inr (i, found) ↦ ((error duplicate_socket, t), rw found refl, duplicate i found)
    | inl fresh ↦ elim (List-cases t.free_socket_ids) [
      | inl empty ↦
          ((error no_resources, t), ground (arith, next-nil t empty), exhausted fresh empty)
      | inr (id, ids, free) ↦
          let unused = unused-find t id ids v free in
          let sock = normal (make id) in
          let t' = with_normal id (make id) k ids t in
          (
            (value id, t'),
            ground (arith, next-cons t id ids free),
            created id t' fresh (
                added-Created t t' id sock (session k) v (own id) fresh free
                  (λ j. find-emplace j id sock t.socket_table unused)
                  (find_endpoint-with_normal id (make id) k ids t fresh)),
          )
    ]
  ]
