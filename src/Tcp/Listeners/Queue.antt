-- ===== src/Tcp/Listeners/Queue.antt =====
-- The accept queue and the list of pending connections of a listener, over any sequence of uses.
use tns.Common.{ℕ, ◌≤◌, ◌≡◌, sym, subst, ap, ◌∙◌, List, [], ◌∷◌, ◌++◌, arith, length, length-append}
use mathlib.Core.List.{append_assoc, append-nil}
use tns.Tcp.Packet.{SessionTuple}
use tns.Tcp.SocketError.{value}
use tns.Tcp.Connections.{max_pending_socks}
use tns.Tcp.Listeners.{
  ListenSocket, add_pending, remove_first, remove_pending, push_and_notify, wait_and_pop,
}

-- A listener comes to be `l'`, where `pushed` have been put in its queue and `popped` taken out of it.
pub data Run (l : ListenSocket) : List ℕ → List ℕ → ListenSocket → Type 0 where
  start : Run l [] [] l
  pushes :
      {pushed popped : List ℕ} {l' : ListenSocket} (sock : ℕ)
      → Run l pushed popped l'
      → Run l (pushed ++ (sock ∷ [])) popped (push_and_notify sock l')
  pops :
      {pushed popped : List ℕ} {l1 l2 : ListenSocket} (sock : ℕ)
      → Run l pushed popped l1
      → wait_and_pop l1 ≡ (value sock, l2)
      → Run l pushed (popped ++ (sock ∷ [])) l2
  adds :
      {pushed popped : List ℕ} {l' : ListenSocket} (sess : SessionTuple) (sock : ℕ)
      → Run l pushed popped l'
      → Run l pushed popped (add_pending sess sock l').1
  removes :
      {pushed popped : List ℕ} {l' : ListenSocket} (sess : SessionTuple)
      → Run l pushed popped l'
      → Run l pushed popped (remove_pending sess l').1

-- The queue is first in, first out, and the list of pending connections within its limit.
pub record Keeps (l : ListenSocket) (pushed popped : List ℕ) (l' : ListenSocket) : Type 0 where
  pub in_order : popped ++ l'.accept_queue ≡ l.accept_queue ++ pushed
  pub within : length l'.pending ≤ max_pending_socks

length-remove_first :
    (sess : SessionTuple) (socks : List (SessionTuple × ℕ))
    → length (remove_first sess socks).1 ≤ length socks
unfolding remove_first
length-remove_first sess [] = omega arith
length-remove_first sess ((s, sock) ∷ socks) = ground (arith, length-remove_first sess socks)

popped-first :
    (l1 l2 : ListenSocket) (sock : ℕ)
    → wait_and_pop l1 ≡ (value sock, l2)
    → (l1.accept_queue ≡ sock ∷ l2.accept_queue) × (l2.pending ≡ l1.pending)
unfolding wait_and_pop
popped-first l1 l2 sock h = ground arith

add_pending-within :
    (sess : SessionTuple) (sock : ℕ) (l : ListenSocket)
    → length l.pending ≤ max_pending_socks
    → (length (add_pending sess sock l).1.pending ≤ max_pending_socks)
      × ((add_pending sess sock l).1.accept_queue ≡ l.accept_queue)
unfolding add_pending
add_pending-within sess sock l h = ground (arith, length-append l.pending ((sess, sock) ∷ []))

-- Whatever is done with a listener that is not closed, the sockets accepted are those that were in its
-- queue and those pushed, in the order in which they came, and at most 64 connections are pending.
pub Run-Keeps :
    (l l' : ListenSocket) (pushed popped : List ℕ)
    → length l.pending ≤ max_pending_socks
    → Run l pushed popped l'
    → Keeps l pushed popped l'
unfolding push_and_notify remove_pending
Run-Keeps l _ _ _ h start = record { in_order = sym (append-nil l.accept_queue); within = h }
Run-Keeps l _ _ _ h (pushes {pushed} {popped} {l'} sock run) =
    let k = Run-Keeps l l' pushed popped h run in
    record {
      in_order =
          sym (append_assoc popped l'.accept_queue (sock ∷ []))
          ∙ ap (λ q. q ++ (sock ∷ [])) k.in_order
          ∙ append_assoc l.accept_queue pushed (sock ∷ []);
      within = k.within;
    }
Run-Keeps l _ _ _ h (pops {pushed} {popped} {l1} {l2} sock run e) =
    let k = Run-Keeps l l1 pushed popped h run in
    let (first, same) = popped-first l1 l2 sock e in
    record {
      in_order =
          append_assoc popped (sock ∷ []) l2.accept_queue
          ∙ ap (λ q. popped ++ q) (sym first)
          ∙ k.in_order;
      within = subst (λ p. length p ≤ max_pending_socks) (sym same) k.within;
    }
Run-Keeps l _ _ _ h (adds {pushed} {popped} {l'} sess sock run) =
    let k = Run-Keeps l l' pushed popped h run in
    let (within, same) = add_pending-within sess sock l' k.within in
    record { in_order = ap (λ q. popped ++ q) same ∙ k.in_order; within = within }
Run-Keeps l _ _ _ h (removes {pushed} {popped} {l'} sess run) =
    let k = Run-Keeps l l' pushed popped h run in
    record {
      in_order = k.in_order;
      within = omega (arith, k.within, length-remove_first sess l'.pending);
    }
