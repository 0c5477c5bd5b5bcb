-- ===== src/Tcp/Retransmission/Timing.antt =====
-- The round-trip estimator, and how often an entry is sent again.
use tns.Common.{
  ℕ, ◌+◌, ◌-◌, ◌*◌, ◌/◌, ◌^◌, ◌≤◌, ◌≡◌, refl, Bool, true, false, Option, none, some, List, [], ◌∷◌,
  ◌++◌, arith, ltb, leb, if◌then◌else◌, Bool-cases, inl, inr, max, min, ◌&&◌, ◌||◌, All,
}
use mathlib.Core.Bool.{false≢true}
use tns.Tcp.Packet.{Packet}
use tns.Tcp.Retransmission.{
  Entry, RtoEstimator, RetransmissionQueue, get_end_exclusive, get_rtt, drop_acked, on_ack,
  add_rtt_sample, min_rto, max_rto, nanos_per_milli, retry_entries, retry_zwp, get_expired_entries,
  has_expired, has_expired_exponential, max_retransmissions,
}

abbrev pub RtoInRange : RtoEstimator → Type 0
RtoInRange r = (min_rto ≤ r.rto) × (r.rto ≤ max_rto)

-- A sample leaves the timeout between its limits, and the smoothed time between the old one and
-- the sample, rounded down.
pub add_rtt_sample-bounds :
    (r : RtoEstimator) (rtt : ℕ)
    → RtoInRange (add_rtt_sample r rtt)
      × (min r.srtt (rtt / nanos_per_milli) ≤ (add_rtt_sample r rtt).srtt)
      × ((add_rtt_sample r rtt).srtt ≤ max r.srtt (rtt / nanos_per_milli))
unfolding add_rtt_sample
add_rtt_sample-bounds r rtt = omega arith

drop_acked-RtoInRange :
    (es : List Entry) (ack now : ℕ) (r : RtoEstimator)
    → RtoInRange r
    → RtoInRange (drop_acked es ack now r).1
unfolding drop_acked
drop_acked-RtoInRange [] ack now r h = h
drop_acked-RtoInRange (e ∷ es) ack now r h = elim (Bool-cases (leb (get_end_exclusive e) ack)) [
  | inl t ↦ rw t (
      drop_acked-RtoInRange es ack now _
        (ground (arith, h, add_rtt_sample-bounds r (get_rtt e now))))
  | inr t ↦ rw t h
]

-- Acknowledgements keep the timeout between its limits.
pub on_ack-RtoInRange :
    (q : RetransmissionQueue) (ack now : ℕ) → RtoInRange q.rto → RtoInRange (on_ack q ack now).rto
unfolding on_ack
on_ack-RtoInRange q ack now h = drop_acked-RtoInRange q.deque ack now q.rto h

module _ (now rto edge : ℕ) where
  -- The entry has timed out and lies within the window of the peer.
  unfoldable pub is_due : Entry → Bool
  is_due e = ltb (rto * nanos_per_milli) (now - e.last_sent) && leb (get_end_exclusive e) edge

  -- Some entry is due that has been sent again as often as the limit allows.
  unfoldable pub exhausted : List Entry → Bool
  unfolding is_due
  exhausted [] = false
  exhausted (e ∷ es) = (is_due e && leb max_retransmissions e.counter) || exhausted es

  unfoldable pub due_packets : List Entry → List Packet
  unfolding is_due
  due_packets [] = []
  due_packets (e ∷ es) = if is_due e then e.packet ∷ due_packets es else due_packets es

  unfoldable pub counted : List Entry → List Entry
  unfolding is_due
  counted [] = []
  counted (e ∷ es) =
      (if is_due e then record e { counter = e.counter + 1; last_sent = now } else e) ∷ counted es

  retry_entries-due :
      (es : List Entry)
      → exhausted es ≡ false
      → retry_entries es now rto edge ≡ (true, counted es, due_packets es)
  unfolding retry_entries exhausted due_packets counted is_due has_expired
  retry_entries-due [] h = refl
  retry_entries-due (e ∷ es) h = ground (arith, retry_entries-due es)

  retry_entries-exhausted :
      (es : List Entry) → exhausted es ≡ true → (retry_entries es now rto edge).0 ≡ false
  unfolding retry_entries exhausted is_due has_expired
  retry_entries-exhausted [] h = absurd (false≢true h)
  retry_entries-exhausted (e ∷ es) h = ground (arith, retry_entries-exhausted es)

-- The timeout of the probe doubles each time that it is sent again.
unfoldable pub is_probe_due : ℕ → ℕ → Entry → Bool
is_probe_due now rto e = ltb (rto * nanos_per_milli * 2 ^ e.counter) (now - e.last_sent)

unfoldable pub due_probe : ℕ → ℕ → Option Entry → List Packet
unfolding is_probe_due
due_probe now rto none = []
due_probe now rto (some e) = if is_probe_due now rto e then e.packet ∷ [] else []

unfoldable pub counted_probe : ℕ → ℕ → Option Entry → Option Entry
unfolding is_probe_due
counted_probe now rto none = none
counted_probe now rto (some e) =
    some
      (if is_probe_due now rto e then record e { counter = e.counter + 1; last_sent = now } else e)

retry_zwp-due :
    (o : Option Entry) (now rto : ℕ)
    → retry_zwp o now rto ≡ (counted_probe now rto o, due_probe now rto o)
unfolding retry_zwp has_expired_exponential due_probe counted_probe
retry_zwp-due none now rto = refl
retry_zwp-due (some e) now rto = ground arith

-- Where a due entry has been sent again as often as the limit allows, `getExpiredEntries` gives up: it
-- returns the error and no entry, and leaves the probe as it was.
pub get_expired_entries-exhausted :
    (q : RetransmissionQueue) (edge now : ℕ)
    → exhausted now q.rto.rto edge q.deque ≡ true
    → ((get_expired_entries q edge now).0 ≡ none)
      × ((get_expired_entries q edge now).1.zwp_entry ≡ q.zwp_entry)
unfolding get_expired_entries
get_expired_entries-exhausted q edge now h =
    ground (arith, retry_entries-exhausted now q.rto.rto edge q.deque h)

-- Where no due entry has used up its retransmissions, `getExpiredEntries` returns exactly the packets
-- of the due entries, those timed out that lie within the edge of the peer's window, and a probe whose
-- timeout has passed, and counts and restamps exactly those entries.
pub get_expired_entries-due :
    (q : RetransmissionQueue) (edge now : ℕ)
    → exhausted now q.rto.rto edge q.deque ≡ false
    → get_expired_entries q edge now ≡ (
      some (due_packets now q.rto.rto edge q.deque ++ due_probe now q.rto.rto q.zwp_entry),
      record {
        deque = counted now q.rto.rto edge q.deque;
        zwp_entry = counted_probe now q.rto.rto q.zwp_entry;
        rto = q.rto;
      },
    )
unfolding get_expired_entries
get_expired_entries-due q edge now h =
    ground (
      arith,
      retry_entries-due now q.rto.rto edge q.deque h,
      retry_zwp-due q.zwp_entry now q.rto.rto,
    )

-- No entry has been sent again more often than the limit.
abbrev pub WithinLimit : List Entry → Type 0
WithinLimit = All (λ e. e.counter ≤ max_retransmissions)

retry_entries-WithinLimit :
    (es : List Entry) (now rto edge : ℕ)
    → WithinLimit es
    → (retry_entries es now rto edge).0 ≡ true
    → WithinLimit (retry_entries es now rto edge).1
unfolding retry_entries
retry_entries-WithinLimit [] now rto edge h k = tt
retry_entries-WithinLimit (e ∷ es) now rto edge h k =
    ground (arith, retry_entries-WithinLimit es now rto edge h.1)

-- A call that does not give up leaves every count within the limit.
pub get_expired_entries-WithinLimit :
    (q : RetransmissionQueue) (edge now : ℕ) (sent : List Packet)
    → WithinLimit q.deque
    → (get_expired_entries q edge now).0 ≡ some sent
    → WithinLimit (get_expired_entries q edge now).1.deque
unfolding get_expired_entries
get_expired_entries-WithinLimit q edge now sent h e =
    ground (arith, retry_entries-WithinLimit q.deque now q.rto.rto edge h)
