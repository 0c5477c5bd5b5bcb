-- ===== src/Tcp/Retransmission/Order.antt =====
-- The regular entries are in order of their sequence numbers, so an ACK removes a prefix.
use tns.Common.{
  ℕ, ◌≤◌, ◌<◌, ◌≡◌, refl, ap, sym, subst, Option, none, some, List, [], ◌∷◌, ◌++◌, arith, leb,
  if◌then◌else◌, Bool-cases, inl, inr, leb→le, leb→lt,
}
use tns.Tcp.Packet.{Packet}
use tns.Tcp.Retransmission.{
  Entry, RtoEstimator, RetransmissionQueue, get_end_exclusive, drop_acked, drop_zwp, on_ack,
  last_end, enqueue,
}

-- Each entry starts at or after the end of the one before it, the first at or after `lo`.
abbrev pub OrderedFrom : ℕ → List Entry → Type 0
OrderedFrom lo [] = Unit {0}
OrderedFrom lo (e ∷ es) = (lo ≤ e.packet.seq_num) × OrderedFrom (get_end_exclusive e) es

abbrev pub IsOrdered : RetransmissionQueue → Type 0
IsOrdered q = OrderedFrom 0 q.deque

-- The entries whose end lies beyond the acknowledgement, wherever they stand.
unfoldable pub unacked : List Entry → ℕ → List Entry
unacked [] ack = []
unacked (e ∷ es) ack = if leb (get_end_exclusive e) ack then unacked es ack else e ∷ unacked es ack

none≢ {ℓ} : {A : Type ℓ} {a : A} → none ≡ some a → ⊥
none≢ e = cc

OrderedFrom-weaken :
    (lo lo' : ℕ) (es : List Entry) → lo ≤ lo' → OrderedFrom lo' es → OrderedFrom lo es
OrderedFrom-weaken lo lo' [] h o = tt
OrderedFrom-weaken lo lo' (e ∷ es) h o = (omega arith, o.1)

unacked-all : (es : List Entry) (lo ack : ℕ) → OrderedFrom lo es → ack < lo → unacked es ack ≡ es
unfolding unacked
unacked-all [] lo ack o h = refl
unacked-all (e ∷ es) lo ack o h = ground (arith, unacked-all es (get_end_exclusive e) ack o.1)

drop_acked-unacked :
    (es : List Entry) (lo ack now : ℕ) (r : RtoEstimator)
    → OrderedFrom lo es
    → (drop_acked es ack now r).0 ≡ unacked es ack
unfolding drop_acked unacked
drop_acked-unacked [] lo ack now r o = refl
drop_acked-unacked (e ∷ es) lo ack now r o = elim (Bool-cases (leb (get_end_exclusive e) ack)) [
  | inl t ↦ rw t (drop_acked-unacked es (get_end_exclusive e) ack now _ o.1)
  | inr t ↦ rw t (
      ap (λ l. e ∷ l)
        (sym (unacked-all es (get_end_exclusive e) ack o.1 (leb→lt (get_end_exclusive e) ack t))))
]

OrderedFrom-unacked :
    (es : List Entry) (lo ack : ℕ) → OrderedFrom lo es → OrderedFrom lo (unacked es ack)
unfolding unacked
OrderedFrom-unacked [] lo ack o = tt
OrderedFrom-unacked (e ∷ es) lo ack o = elim (Bool-cases (leb (get_end_exclusive e) ack)) [
  | inl t ↦ rw t (
      OrderedFrom-weaken lo (get_end_exclusive e) (unacked es ack) (omega arith)
        (OrderedFrom-unacked es (get_end_exclusive e) ack o.1))
  | inr t ↦ rw t (o.0, OrderedFrom-unacked es (get_end_exclusive e) ack o.1)
]

last_end-ge :
    (e : Entry) (es : List Entry) (lo : ℕ) → OrderedFrom lo (e ∷ es) → lo ≤ last_end (e ∷ es)
unfolding last_end
last_end-ge e [] lo o = omega arith
last_end-ge e (f ∷ es) lo o = omega (arith, o.0, last_end-ge f es (get_end_exclusive e) o.1)

OrderedFrom-snoc :
    (es : List Entry) (lo : ℕ) (x : Entry)
    → OrderedFrom lo es
    → lo ≤ x.packet.seq_num
    → last_end es ≤ x.packet.seq_num
    → OrderedFrom lo (es ++ (x ∷ []))
unfolding last_end
OrderedFrom-snoc [] lo x o h k = (h, tt)
OrderedFrom-snoc (e ∷ []) lo x o h k = (o.0, (k, tt))
OrderedFrom-snoc (e ∷ f ∷ es) lo x o h k = (
  o.0,
  OrderedFrom-snoc (f ∷ es) (get_end_exclusive e) x o.1
      (omega (arith, k, last_end-ge f es (get_end_exclusive e) o.1)) k,
)

-- `enqueue` keeps the entries in order, where its assertion holds.
pub enqueue-IsOrdered :
    (q q' : RetransmissionQueue) (p : Packet) (now : ℕ)
    → IsOrdered q
    → enqueue q p now ≡ some q'
    → IsOrdered q'
unfolding enqueue
enqueue-IsOrdered q q' p now o e = elim (Bool-cases (leb (last_end q.deque) p.seq_num)) [
  | inl t ↦
      let r = rw t at e in
      let d : q.deque ++ (record { packet = p; last_sent = now; counter = 0 } ∷ []) ≡ q'.deque =
        cc in
      subst (OrderedFrom 0) d (OrderedFrom-snoc q.deque 0 _ o (omega arith) (leb→le _ _ t))
  | inr t ↦ absurd (none≢ (rw t at e))
]

-- The probe, as a list.
unfoldable pub listed : Option Entry → List Entry
listed none = []
listed (some e) = e ∷ []

drop_zwp-unacked : (o : Option Entry) (ack : ℕ) → listed (drop_zwp o ack) ≡ unacked (listed o) ack
unfolding listed drop_zwp unacked
drop_zwp-unacked none ack = refl
drop_zwp-unacked (some e) ack = ground arith

-- On a queue in order, `onAck` drops exactly the entries whose end is at or below the
-- acknowledgement, the probe included, keeps the others as they were, and the queue stays in order.
pub on_ack-unacked :
    (q : RetransmissionQueue) (ack now : ℕ)
    → IsOrdered q
    → ((on_ack q ack now).deque ≡ unacked q.deque ack)
      × (listed (on_ack q ack now).zwp_entry ≡ unacked (listed q.zwp_entry) ack)
      × IsOrdered (on_ack q ack now)
unfolding on_ack
on_ack-unacked q ack now o =
    let e = drop_acked-unacked q.deque 0 ack now q.rto o in
    (
      e,
      drop_zwp-unacked q.zwp_entry ack,
      subst (OrderedFrom 0) (sym e) (OrderedFrom-unacked q.deque 0 ack o),
    )
