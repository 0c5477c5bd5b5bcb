-- ===== src/Tcp/Stack/Invariant.antt =====
-- What keeps the table of sockets, its indexes and the free ids together, and how removing and adding
-- a socket changes them.
use tns.Common.{
  ℕ, ◌≤◌, ◌<◌, ◌≡◌, refl, subst, ◌↔◌, Bool, true, false, not, ◌&&◌, ◌||◌, Option, none, some, List,
  [], ◌∷◌, arith, ◌==◌, leb, find, Eq, nat_eq, is_some, map_option,
}
use tns.Tcp.Packet.{SessionTuple, same_session, same_session_iff, session_eq}
use tns.Tcp.Stack.{Socket, normal, listener, TcpStack, insert_id, max_socket_fd}

-- What a socket is found by: a session, or the port that it listens on.
pub data Endpoint : Type 0 where
  session : SessionTuple → Endpoint
  port : ℕ → Endpoint

unfoldable pub same_endpoint : Endpoint → Endpoint → Bool
same_endpoint (session a) (session b) = same_session a b
same_endpoint (port a) (port b) = a == b
same_endpoint (session a) (port b) = false
same_endpoint (port a) (session b) = false

pub same_endpoint_iff : (a b : Endpoint) → (same_endpoint a b ≡ true) ↔ (a ≡ b)
unfolding same_endpoint
same_endpoint_iff (session a) (session b) = ground (arith, same_session_iff a b)
same_endpoint_iff (port a) (port b) = ground arith
same_endpoint_iff (session a) (port b) = ground arith
same_endpoint_iff (port a) (session b) = ground arith

instance abbrev pub endpoint_eq : Eq Endpoint
endpoint_eq = record { same = same_endpoint; same_iff = same_endpoint_iff }

-- The id that a socket holds, and its endpoint.
unfoldable pub identity : Socket → ℕ × Endpoint
identity (normal s) = (s.id, session s.tuple)
identity (listener l) = (l.id, port l.port)

unfoldable pub identity_at : TcpStack → ℕ → Option (ℕ × Endpoint)
identity_at t id = map_option identity (find id t.socket_table)

unfoldable pub find_endpoint : TcpStack → Endpoint → Option ℕ
find_endpoint t (session k) = find k t.session_to_socket
find_endpoint t (port p) = find p t.port_to_listen_socket

unfoldable pub contains_id : ℕ → List ℕ → Bool
contains_id id [] = false
contains_id id (x ∷ xs) = id == x || contains_id id xs

unfoldable pub Ascending : ℕ → List ℕ → Type 0
Ascending low [] = Unit
Ascending low (x ∷ xs) = (low < x) × Ascending x xs

abbrev pub OnSome {ℓ κ} : {A : Type ℓ} → (A → Type κ) → Option A → Type κ
OnSome P none = Unit
OnSome P (some a) = P a

pub OnSome-some {ℓ κ} :
    {A : Type ℓ} (P : A → Type κ) (a : A) (o : Option A) → o ≡ some a → OnSome P o → P a
OnSome-some P a o h p = subst (OnSome P) h p

pub OnSome-intro {ℓ κ} :
    {A : Type ℓ} (P : A → Type κ) (o : Option A) → ((a : A) → o ≡ some a → P a) → OnSome P o
OnSome-intro P none f = tt
OnSome-intro P (some a) f = f a refl

-- The socket of an id holds that id, and its endpoint leads back to it; an endpoint leads to a socket
-- that has it; and the free ids, in order, are those up to the maximum that no socket has.
pub record IsValid (t : TcpStack) : Type 0 where
  pub indexed :
      (id : ℕ)
      → OnSome
          (λ (i, e). (i ≡ id) × (1 ≤ id) × (id ≤ max_socket_fd) × (find_endpoint t e ≡ some id))
          (identity_at t id)
  pub located : (e : Endpoint) → OnSome (λ id. identity_at t id ≡ some (id, e)) (find_endpoint t e)
  pub free :
      (id : ℕ)
      → contains_id id t.free_socket_ids
        ≡ (leb 1 id && leb id max_socket_fd && not (is_some (identity_at t id)))
  pub ascending : Ascending 0 t.free_socket_ids

pub contains_id-insert_id :
    (j id : ℕ) (xs : List ℕ) → contains_id j (insert_id id xs) ≡ (j == id || contains_id j xs)
unfolding contains_id insert_id
contains_id-insert_id j id [] = refl
contains_id-insert_id j id (x ∷ xs) = ground (arith, contains_id-insert_id j id xs)

pub insert_id-Ascending :
    (low id : ℕ) (xs : List ℕ) → low < id → Ascending low xs → Ascending low (insert_id id xs)
unfolding Ascending insert_id
insert_id-Ascending low id [] h a = (h, tt)
insert_id-Ascending low id (x ∷ xs) h (hx, a) = ground (arith, insert_id-Ascending x id xs)

pub Ascending-contains_id :
    (low id : ℕ) (xs : List ℕ) → Ascending low xs → id ≤ low → contains_id id xs ≡ false
unfolding Ascending contains_id
Ascending-contains_id low id [] a h = refl
Ascending-contains_id low id (x ∷ xs) (hx, a) h =
    ground (arith, Ascending-contains_id x id xs a (omega arith))

pub Ascending-weaken :
    (low high : ℕ) (xs : List ℕ) → low ≤ high → Ascending high xs → Ascending low xs
unfolding Ascending
Ascending-weaken low high [] h a = tt
Ascending-weaken low high (x ∷ xs) h (hx, a) = (omega arith, a)

module _ (t : TcpStack) (v : IsValid t) where
  pub indexed-some :
      (id i : ℕ) (e : Endpoint)
      → identity_at t id ≡ some (i, e)
      → (i ≡ id) × (1 ≤ id) × (id ≤ max_socket_fd) × (find_endpoint t e ≡ some id)
  indexed-some id i e h =
      OnSome-some
        (λ (i, e). (i ≡ id) × (1 ≤ id) × (id ≤ max_socket_fd) × (find_endpoint t e ≡ some id))
        (i, e) (identity_at t id) h (v.indexed id)

  pub located-some :
      (id : ℕ) (e : Endpoint) → find_endpoint t e ≡ some id → identity_at t id ≡ some (id, e)
  located-some id e h =
      OnSome-some (λ id. identity_at t id ≡ some (id, e)) id (find_endpoint t e) h (v.located e)
