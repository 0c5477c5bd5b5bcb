-- ===== src/Tcp/Stack/Reaping.antt =====
-- One period of the reaper keeps the table valid and purges exactly the sockets that are done.
use tns.Common.{
  ℕ, ◌+◌, ◌<◌, ◌≡◌, ◌⊎◌, refl, sym, subst, inl, inr, true, false, Option, none, some, List, [], ◌∷◌,
  map, arith, ◌==◌, if◌then◌else◌, Map, find, erase, find-erase, nat_eq, is_some, Option-cases,
}
use native.Mathlib.Decide.{dec_lt}
use tns.Tcp.Packet.{session_eq}
use tns.Tcp.States.{State, is_expired}
use tns.Tcp.Sockets.{NormalSocket}
use tns.Tcp.Listeners.{ListenSocket}
use tns.Tcp.Stack.{
  Socket, normal, listener, TcpStack, is_reapable, reap_socket, reap_sockets, reap, free_socket_id,
  insert_id,
}
use tns.Tcp.Stack.Invariant.{
  Endpoint, session, port, same_endpoint, endpoint_eq, identity, identity_at, find_endpoint,
  contains_id, IsValid, indexed-some,
}
use tns.Tcp.Stack.Changes.{removed-IsValid}

-- What the reaper leaves of an entry of the table.
unfoldable kept : ℕ → Option Socket → Option Socket
kept now none = none
kept now (some s) = if is_reapable now s then none else some s

-- The step of the reaper for either kind of socket.
unfoldable without : ℕ → Socket → TcpStack → TcpStack
without id (normal s) t = record (free_socket_id id t) {
  socket_table = erase id t.socket_table;
  session_to_socket = erase s.tuple t.session_to_socket;
}
without id (listener l) t = record (free_socket_id id t) {
  socket_table = erase id t.socket_table;
  port_to_listen_socket = erase l.port t.port_to_listen_socket;
}

reap_socket-without :
    (now id : ℕ) (t : TcpStack) (s : Socket)
    → find id t.socket_table ≡ some s
    → reap_socket now id t ≡ (if is_reapable now s then without id s t else t)
unfolding reap_socket without
reap_socket-without now id t (normal s) h = rw (h, reap_socket) refl
reap_socket-without now id t (listener l) h = rw (h, reap_socket) refl

reap_socket-none :
    (now id : ℕ) (t : TcpStack) → find id t.socket_table ≡ none → reap_socket now id t ≡ t
unfolding reap_socket
reap_socket-none now id t h = rw (h, reap_socket) refl

free-without :
    (id : ℕ) (s : Socket) (t : TcpStack)
    → (without id s t).free_socket_ids ≡ insert_id id t.free_socket_ids
unfolding without free_socket_id
free-without id (normal s) t = refl
free-without id (listener l) t = refl

find_endpoint-without :
    (id : ℕ) (s : Socket) (t : TcpStack) (d : Endpoint)
    → find_endpoint (without id s t) d
      ≡ (if same_endpoint d (identity s).1 then none else find_endpoint t d)
unfolding find_endpoint without identity same_endpoint free_socket_id
find_endpoint-without id (normal s) t (session k) = find-erase k s.tuple t.session_to_socket
find_endpoint-without id (normal s) t (port p) = refl
find_endpoint-without id (listener l) t (session k) = refl
find_endpoint-without id (listener l) t (port p) = find-erase p l.port t.port_to_listen_socket

find-without :
    (id j : ℕ) (s : Socket) (t : TcpStack)
    → find j (without id s t).socket_table ≡ (if j == id then none else find j t.socket_table)
unfolding without
find-without id j (normal s) t = find-erase j id t.socket_table
find-without id j (listener l) t = find-erase j id t.socket_table

without-IsValid :
    (id : ℕ) (s : Socket) (t : TcpStack)
    → IsValid t
    → find id t.socket_table ≡ some s
    → IsValid (without id s t)
unfolding identity_at
without-IsValid id s t v h =
    let here : identity_at t id ≡ some ((identity s).0, (identity s).1) = rw h refl in
    let (own, low, high, found) = indexed-some t v id (identity s).0 (identity s).1 here in
    removed-IsValid t (without id s t) id (identity s).1 (ground (arith, here, own))
      (λ j. ground (arith, find-without id j s t)) (find_endpoint-without id s t)
      (free-without id s t) v

reap_socket-IsValid : (now id : ℕ) (t : TcpStack) → IsValid t → IsValid (reap_socket now id t)
reap_socket-IsValid now id t v = elim (Option-cases (find id t.socket_table)) [
  | inl h ↦ subst IsValid (sym (reap_socket-none now id t h)) v
  | inr (s, h) ↦
      subst IsValid (sym (reap_socket-without now id t s h))
        (elim (is_reapable now s) as (λ b. IsValid (if b then without id s t else t)) [
          | true ↦ without-IsValid id s t v h
          | false ↦ v
        ])
]

reap_sockets-IsValid :
    (now : ℕ) (ids : List ℕ) (t : TcpStack) → IsValid t → IsValid (reap_sockets now ids t)
unfolding reap_sockets
reap_sockets-IsValid now [] t v = v
reap_sockets-IsValid now (id ∷ ids) t v =
    reap_sockets-IsValid now ids (reap_socket now id t) (reap_socket-IsValid now id t v)

find-reap_socket :
    (now id j : ℕ) (t : TcpStack)
    → find j (reap_socket now id t).socket_table
      ≡ (if j == id then kept now (find j t.socket_table) else find j t.socket_table)
unfolding kept
find-reap_socket now id j t = elim (Option-cases (find id t.socket_table)) [
  | inl h ↦ ground (arith, reap_socket-none now id t h)
  | inr (s, h) ↦ ground (arith, reap_socket-without now id t s h, find-without id j s t)
]

kept-kept : (now : ℕ) (o : Option Socket) → kept now (kept now o) ≡ kept now o
unfolding kept
kept-kept now none = refl
kept-kept now (some s) = ground arith

find-reap_sockets :
    (now j : ℕ) (ids : List ℕ) (t : TcpStack)
    → find j (reap_sockets now ids t).socket_table
      ≡ (if contains_id j ids then kept now (find j t.socket_table) else find j t.socket_table)
unfolding reap_sockets contains_id
find-reap_sockets now j [] t = refl
find-reap_sockets now j (id ∷ ids) t = ground (
  arith,
  find-reap_sockets now j ids (reap_socket now id t),
  find-reap_socket now id j t,
  kept-kept now (find j t.socket_table),
)

find-keys : (j : ℕ) (m : Map ℕ Socket) → contains_id j (map (λ (id, s). id) m) ≡ is_some (find j m)
unfolding contains_id find
find-keys j [] = refl
find-keys j ((id, s) ∷ m) = ground (arith, find-keys j m)

-- A socket that is closed, or that has been in TIME-WAIT for more than 10 s.
abbrev pub IsDone : ℕ → Socket → Type 0
IsDone now (normal s) =
    (s.state ≡ State.closed)
    ⊎ ((began : ℕ) × (s.state ≡ State.time_wait began) × (began + 10_000_000_000 < now))
IsDone now (listener l) = l.state ≡ State.closed

-- The test of the reaper on the state of a socket.
is_reapable-state :
    (now : ℕ) (s : NormalSocket) (state : State)
    → ((is_reapable now (normal (record s { state = state })) ≡ true)
        × IsDone now (normal (record s { state = state })))
      ⊎ ((is_reapable now (normal (record s { state = state })) ≡ false)
          × (IsDone now (normal (record s { state = state })) → ⊥))
unfolding is_reapable is_expired
is_reapable-state now s State.closed = inl (refl, inl refl)
is_reapable-state now s (State.time_wait began) = elim (dec_lt (began + 10_000_000_000) now) [
  | yes late ↦ inl (ground (arith, late), inr (began, refl, late))
  | no early ↦ inr (
    ground (arith, early),
    λ d. elim d [ inl c ↦ ground (arith, c) | inr (b, e, late) ↦ ground (arith, e, late, early) ],
  )
]
is_reapable-state now s State.listen =
    inr (refl, λ d. elim d [ inl c ↦ ground (arith, c) | inr (b, e, late) ↦ ground (arith, e) ])
is_reapable-state now s State.syn_sent =
    inr (refl, λ d. elim d [ inl c ↦ ground (arith, c) | inr (b, e, late) ↦ ground (arith, e) ])
is_reapable-state now s State.established =
    inr (refl, λ d. elim d [ inl c ↦ ground (arith, c) | inr (b, e, late) ↦ ground (arith, e) ])
is_reapable-state now s State.fin_wait1 =
    inr (refl, λ d. elim d [ inl c ↦ ground (arith, c) | inr (b, e, late) ↦ ground (arith, e) ])
is_reapable-state now s State.fin_wait2 =
    inr (refl, λ d. elim d [ inl c ↦ ground (arith, c) | inr (b, e, late) ↦ ground (arith, e) ])
is_reapable-state now s State.close_wait =
    inr (refl, λ d. elim d [ inl c ↦ ground (arith, c) | inr (b, e, late) ↦ ground (arith, e) ])
is_reapable-state now s State.closing =
    inr (refl, λ d. elim d [ inl c ↦ ground (arith, c) | inr (b, e, late) ↦ ground (arith, e) ])
is_reapable-state now s State.last_ack =
    inr (refl, λ d. elim d [ inl c ↦ ground (arith, c) | inr (b, e, late) ↦ ground (arith, e) ])
is_reapable-state now s (State.syn_received l) =
    inr (refl, λ d. elim d [ inl c ↦ ground (arith, c) | inr (b, e, late) ↦ ground (arith, e) ])

is_reapable-listener :
    (now : ℕ) (l : ListenSocket) (state : State)
    → ((is_reapable now (listener (record l { state = state })) ≡ true) × (state ≡ State.closed))
      ⊎ ((is_reapable now (listener (record l { state = state })) ≡ false)
          × (state ≡ State.closed → ⊥))
unfolding is_reapable
is_reapable-listener now l State.closed = inl (refl, refl)
is_reapable-listener now l State.listen = inr (refl, λ c. ground (arith, c))
is_reapable-listener now l State.syn_sent = inr (refl, λ c. ground (arith, c))
is_reapable-listener now l State.established = inr (refl, λ c. ground (arith, c))
is_reapable-listener now l State.fin_wait1 = inr (refl, λ c. ground (arith, c))
is_reapable-listener now l State.fin_wait2 = inr (refl, λ c. ground (arith, c))
is_reapable-listener now l State.close_wait = inr (refl, λ c. ground (arith, c))
is_reapable-listener now l State.closing = inr (refl, λ c. ground (arith, c))
is_reapable-listener now l State.last_ack = inr (refl, λ c. ground (arith, c))
is_reapable-listener now l (State.syn_received k) = inr (refl, λ c. ground (arith, c))
is_reapable-listener now l (State.time_wait t) = inr (refl, λ c. ground (arith, c))

is_reapable-IsDone :
    (now : ℕ) (s : Socket)
    → ((is_reapable now s ≡ true) × IsDone now s)
      ⊎ ((is_reapable now s ≡ false) × (IsDone now s → ⊥))
is_reapable-IsDone now (normal s) = is_reapable-state now s s.state
is_reapable-IsDone now (listener l) = is_reapable-listener now l l.state

-- What is done is gone, all else is as it was, and nothing is new.
pub record Purged (now : ℕ) (t t' : TcpStack) : Type 0 where
  pub gone :
      (j : ℕ) (s : Socket)
      → find j t.socket_table ≡ some s
      → IsDone now s
      → find j t'.socket_table ≡ none
  pub stays :
      (j : ℕ) (s : Socket)
      → find j t.socket_table ≡ some s
      → (IsDone now s → ⊥)
      → find j t'.socket_table ≡ some s
  pub none_new : (j : ℕ) → find j t.socket_table ≡ none → find j t'.socket_table ≡ none
  pub valid : IsValid t'

-- One period of the reaper purges exactly the sockets that are closed, or that have been in TIME-WAIT
-- for more than 10 s, leaves the others as they were, and keeps a valid table valid.
pub reap-Purged : (now : ℕ) (t : TcpStack) → IsValid t → Purged now t (reap now t)
unfolding reap kept
reap-Purged now t v =
    let ids = map (λ (id, s). id) t.socket_table in
    let left : (j : ℕ) → find j (reap now t).socket_table ≡ kept now (find j t.socket_table) =
      λ j. ground (arith, find-reap_sockets now j ids t, find-keys j t.socket_table) in
    record {
      gone = λ j s h d. elim (is_reapable-IsDone now s) [
        | inl (r, k) ↦ ground (arith, left j, h, r)
        | inr (r, k) ↦ absurd (k d)
      ];
      stays = λ j s h d. elim (is_reapable-IsDone now s) [
        | inl (r, k) ↦ absurd (d k)
        | inr (r, k) ↦ ground (arith, left j, h, r)
      ];
      none_new = λ j h. ground (arith, left j, h);
      valid = reap_sockets-IsValid now ids t v;
    }
