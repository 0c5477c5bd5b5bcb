-- ===== src/Tcp/Retransmission.antt =====
-- lib/include/tcp/retransmission_queue.hpp. A point in time is a number of nanoseconds on the
-- steady clock, and the present is an argument of each call. The milliseconds of the estimator are
-- exact: its factors 0.875, 0.125 and 1.5 are eighths and halves, and a duration cast truncates.
pub mod Order
pub mod Timing
use tns.Common.{
  ℕ, ◌+◌, ◌-◌, ◌*◌, ◌/◌, ◌^◌, min, max, Bool, true, false, ◌&&◌, ◌||◌, Option, none, some, List, [],
  ◌∷◌, ◌++◌, ltb, leb, ◌==◌, if◌then◌else◌,
}
use tns.Tcp.Packet.{Packet, get_payload_size}

abbrev pub max_retransmissions : ℕ
max_retransmissions = 5

-- `RtoEstimator`, in milliseconds.
pub record RtoEstimator : Type 0 where
  pub srtt : ℕ
  pub rto : ℕ

abbrev pub min_rto : ℕ
min_rto = 500

abbrev pub max_rto : ℕ
max_rto = 1000

abbrev pub initial_rto : RtoEstimator
initial_rto = record { srtt = 300; rto = 500 }

abbrev pub nanos_per_milli : ℕ
nanos_per_milli = 1_000_000

unfoldable pub add_rtt_sample : RtoEstimator → ℕ → RtoEstimator
add_rtt_sample r rtt =
    let srtt' = (7 * (r.srtt * nanos_per_milli) + rtt) / 8 / nanos_per_milli in
    record { srtt = srtt'; rto = min max_rto (max min_rto (3 * srtt' / 2)) }

pub record Entry : Type 0 where
  pub packet : Packet
  pub last_sent : ℕ
  pub counter : ℕ

abbrev pub get_end_exclusive : Entry → ℕ
get_end_exclusive e = e.packet.seq_num + get_payload_size e.packet

abbrev pub get_rtt : Entry → ℕ → ℕ
get_rtt e now = now - e.last_sent

abbrev pub has_not_resent : Entry → Bool
has_not_resent e = e.counter == 0

unfoldable pub has_expired : Entry → ℕ → ℕ → Bool
has_expired e now rto = ltb (rto * nanos_per_milli) (get_rtt e now)

unfoldable pub has_expired_exponential : Entry → ℕ → ℕ → Bool
has_expired_exponential e now rto = ltb (rto * nanos_per_milli * 2 ^ e.counter) (get_rtt e now)

pub record RetransmissionQueue : Type 0 where
  pub deque : List Entry
  pub zwp_entry : Option Entry
  pub rto : RtoEstimator

abbrev pub empty_queue : RetransmissionQueue
empty_queue = record { deque = []; zwp_entry = none; rto = initial_rto }

-- The loop over the entries before `upper_bound(deque_, ack, {}, &Entry::getEndExclusive)`, which
-- are dropped: the first end above `ack` stops it (`Order` shows that the ends are in order).
unfoldable pub drop_acked : List Entry → ℕ → ℕ → RtoEstimator → List Entry × RtoEstimator
drop_acked [] ack now r = ([], r)
drop_acked (e ∷ es) ack now r =
    let r' = if has_not_resent e then add_rtt_sample r (get_rtt e now) else r in
    let rest = drop_acked es ack now r' in
    if leb (get_end_exclusive e) ack then rest else (e ∷ es, r)

unfoldable pub drop_zwp : Option Entry → ℕ → Option Entry
drop_zwp none ack = none
drop_zwp (some e) ack = if leb (get_end_exclusive e) ack then none else some e

-- `onAck`
unfoldable pub on_ack : RetransmissionQueue → ℕ → ℕ → RetransmissionQueue
unfolding drop_acked drop_zwp
on_ack q ack now =
    let (deque', rto') = drop_acked q.deque ack now q.rto in
    record { deque = deque'; zwp_entry = drop_zwp q.zwp_entry ack; rto = rto' }

-- `deque_.back()`
unfoldable pub last_end : List Entry → ℕ
last_end [] = 0
last_end (e ∷ []) = get_end_exclusive e
last_end (e ∷ f ∷ es) = last_end (f ∷ es)

-- `enqueue`; `none` where the assertion on the order fails. Of an empty queue nothing is asserted,
-- and there `last_end` is 0.
unfoldable pub enqueue : RetransmissionQueue → Packet → ℕ → Option RetransmissionQueue
unfolding last_end
enqueue q p now =
    if leb (last_end q.deque) p.seq_num
    then some
        (record q { deque = q.deque ++ (record { packet = p; last_sent = now; counter = 0 } ∷ []) })
    else none

-- `enqueueZwp`; `none` where the assertion that there is no probe yet fails.
unfoldable pub enqueue_zwp : RetransmissionQueue → Packet → ℕ → Option RetransmissionQueue
enqueue_zwp q p now = elim q.zwp_entry [
  | none ↦
      some (record q { zwp_entry = some (record { packet = p; last_sent = now; counter = 0 }) })
  | some e ↦ none
]

-- The loop of `getExpiredEntries` over the regular entries: whether the limit on retransmissions was
-- passed, the entries afterwards, and the packets to send again.
unfoldable pub retry_entries : List Entry → ℕ → ℕ → ℕ → Bool × List Entry × List Packet
unfolding has_expired
retry_entries [] now rto edge = (true, [], [])
retry_entries (e ∷ es) now rto edge =
    let (ok, es', sent) = retry_entries es now rto edge in
    let again = record e { counter = e.counter + 1; last_sent = now } in
    if has_expired e now rto && leb (get_end_exclusive e) edge
    then (if leb (e.counter + 1) max_retransmissions
        then (ok, again ∷ es', e.packet ∷ sent)
        else (false, record e { counter = e.counter + 1 } ∷ es, []))
    else (ok, e ∷ es', sent)

unfoldable pub retry_zwp : Option Entry → ℕ → ℕ → Option Entry × List Packet
unfolding has_expired_exponential
retry_zwp none now rto = (none, [])
retry_zwp (some e) now rto =
    if has_expired_exponential e now rto
    then (some (record e { counter = e.counter + 1; last_sent = now }), e.packet ∷ [])
    else (some e, [])

-- `getExpiredEntries`: `none` for the error TIMEOUT, else the packets to send again, and the queue.
unfoldable pub get_expired_entries :
    RetransmissionQueue → ℕ → ℕ → Option (List Packet) × RetransmissionQueue
unfolding retry_entries retry_zwp
get_expired_entries q edge now =
    let (ok, deque', sent) = retry_entries q.deque now q.rto.rto edge in
    let (zwp', probe) = retry_zwp q.zwp_entry now q.rto.rto in
    if ok
    then (some (sent ++ probe), record q { deque = deque'; zwp_entry = zwp' })
    else (none, record q { deque = deque' })

-- `resetZwpCounter`
unfoldable pub reset_zwp_counter : RetransmissionQueue → RetransmissionQueue
reset_zwp_counter q = elim q.zwp_entry [
  | none ↦ q
  | some e ↦ record q { zwp_entry = some (record e { counter = 0 }) }
]
