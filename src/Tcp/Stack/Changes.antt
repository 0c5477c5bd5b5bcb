-- ===== src/Tcp/Stack/Changes.antt =====
-- A table whose sockets keep their identities stays valid, and so does one that loses a socket with
-- its endpoint and id, or gains one.
use tns.Common.{
  ℕ, ◌<◌, ◌≡◌, sym, subst, ◌∙◌, inl, inr, true, not, ◌&&◌, none, some, List, ◌∷◌, arith, ◌==◌, leb,
  if◌then◌else◌, nat_eq, is_some, Bool-cases,
}
use tns.Tcp.Stack.{TcpStack, insert_id, max_socket_fd}
use tns.Tcp.Stack.Invariant.{
  Endpoint, same_endpoint, same_endpoint_iff, endpoint_eq, identity_at, find_endpoint, contains_id,
  Ascending, OnSome-intro, IsValid, indexed-some, located-some, contains_id-insert_id,
  insert_id-Ascending, Ascending-contains_id, Ascending-weaken,
}

pub kept-IsValid :
    (t t' : TcpStack)
    → ((id : ℕ) → identity_at t' id ≡ identity_at t id)
    → ((e : Endpoint) → find_endpoint t' e ≡ find_endpoint t e)
    → t'.free_socket_ids ≡ t.free_socket_ids
    → IsValid t
    → IsValid t'
kept-IsValid t t' hi he hf v = record {
  indexed = λ id. OnSome-intro _ (identity_at t' id) (λ (i, e) h.
      let (own, low, high, found) = indexed-some t v id i e (sym (hi id) ∙ h) in
      (own, low, high, he e ∙ found));
  located = λ e.
      OnSome-intro _ (find_endpoint t' e) (λ id h. hi id ∙ located-some t v id e (sym (he e) ∙ h));
  free = λ id. (ground (arith, hf, hi id, v.free id));
  ascending = subst (Ascending 0) (sym hf) v.ascending;
}

module _ (t t' : TcpStack) (id : ℕ) (e : Endpoint) where
  pub removed-IsValid :
      identity_at t id ≡ some (id, e)
      → ((j : ℕ) → identity_at t' j ≡ (if j == id then none else identity_at t j))
      → ((d : Endpoint)
          → find_endpoint t' d ≡ (if same_endpoint d e then none else find_endpoint t d))
      → t'.free_socket_ids ≡ insert_id id t.free_socket_ids
      → IsValid t
      → IsValid t'
  removed-IsValid here hi he hf v =
      let (own, low, high, found) = indexed-some t v id id e here in
      record {
        indexed = λ j. OnSome-intro _ (identity_at t' j) (λ (i, d) h.
            let there : identity_at t j ≡ some (i, d) = ground (arith, hi j) in
            let (own_j, low_j, high_j, found_j) = indexed-some t v j i d there in
            (own_j, low_j, high_j, (ground (arith, hi j, he d, same_endpoint_iff d e))));
        located = λ d. OnSome-intro _ (find_endpoint t' d) (λ j h.
            let there = located-some t v j d (ground (arith, he d)) in
            ground (arith, hi j, he d, same_endpoint_iff d e));
        free =
            λ j. (ground (arith, hf, hi j, v.free j, contains_id-insert_id j id t.free_socket_ids));
        ascending = subst (Ascending 0) (sym hf) (insert_id-Ascending 0 id _ low v.ascending);
      }

  pub added-IsValid :
      (ids : List ℕ)
      → t.free_socket_ids ≡ id ∷ ids
      → find_endpoint t e ≡ none
      → ((j : ℕ) → identity_at t' j ≡ (if j == id then some (id, e) else identity_at t j))
      → ((d : Endpoint)
          → find_endpoint t' d ≡ (if same_endpoint d e then some id else find_endpoint t d))
      → t'.free_socket_ids ≡ ids
      → IsValid t
      → IsValid t'
  unfolding Ascending contains_id
  added-IsValid ids hid fresh hi he hf v =
      let (low, asc) : (0 < id) × Ascending id ids = subst (Ascending 0) hid v.ascending in
      let unused : (leb 1 id && leb id max_socket_fd && not (is_some (identity_at t id))) ≡ true =
        ground (arith, sym hid, v.free id) in
      record {
        indexed = λ j. OnSome-intro _ (identity_at t' j) (λ (i, d) h. elim (Bool-cases (j == id)) [
          | inl new ↦ ground (arith, hi j, he d, same_endpoint_iff d e, unused)
          | inr old ↦
              let (own, l, k, found) = indexed-some t v j i d (ground (arith, hi j)) in
              (own, l, k, (ground (arith, he d, same_endpoint_iff d e)))
        ]);
        located = λ d. OnSome-intro _ (find_endpoint t' d) (λ j h.
            elim (Bool-cases (same_endpoint d e)) [
              | inl new ↦ ground (arith, hi j, he d, same_endpoint_iff d e)
              | inr old ↦
                  let there = located-some t v j d (ground (arith, he d)) in
                  (ground (arith, hi j, unused))
            ]);
        free = λ j. (ground (arith, hid, hf, hi j, v.free j, Ascending-contains_id id j ids asc));
        ascending = subst (Ascending 0) (sym hf) (Ascending-weaken 0 id ids (omega arith) asc);
      }
