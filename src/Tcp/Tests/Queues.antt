-- ===== src/Tcp/Tests/Queues.antt =====
-- The theorems on lib/include/tcp/retransmission_queue.hpp at queues of one and two packets.
use tns.Common.{ℕ, ◌≡◌, refl, none, some, [], ◌∷◌, ◌++◌, arith}
use tns.Tcp.Packet.{Packet, th_ack}
use tns.Tcp.Retransmission.{
  RetransmissionQueue, empty_queue, enqueue, on_ack, last_end, get_expired_entries, retry_entries,
  retry_zwp, has_expired,
}
use tns.Tcp.Retransmission.Order.{IsOrdered, on_ack-unacked, unacked, listed}
use tns.Tcp.Retransmission.Timing.{
  exhausted, is_due, due_packets, counted, due_probe, counted_probe, get_expired_entries-exhausted,
  get_expired_entries-due,
}

abbrev packet : ℕ → Packet
packet n = record {
  src_port = 1;
  dst_port = 2;
  seq_num = n;
  ack_num = 0;
  flags = th_ack;
  wnd_size = 9;
  payload = 7 ∷ 8 ∷ [];
}

abbrev one : RetransmissionQueue
one = record empty_queue { deque = record { packet = packet 100; last_sent = 0; counter = 0 } ∷ [] }

abbrev two : RetransmissionQueue
two = record empty_queue {
  deque =
      record { packet = packet 100; last_sent = 0; counter = 0 }
      ∷ record { packet = packet 102; last_sent = 5; counter = 0 }
      ∷ [];
}

one-IsOrdered : IsOrdered one
one-IsOrdered = ground arith

two-IsOrdered : IsOrdered two
two-IsOrdered = ground arith

enqueue-two : enqueue one (packet 102) 5 ≡ some two
unfolding enqueue last_end
enqueue-two = refl

-- With a probe as well.
abbrev probing : RetransmissionQueue
probing = record two {
  zwp_entry = some (record { packet = packet 104; last_sent = 6; counter = 1 });
}

probing-IsOrdered : IsOrdered probing
probing-IsOrdered = ground arith

on_ack-unacked_example :
    ((on_ack probing 106 9).deque ≡ unacked probing.deque 106)
    × (listed (on_ack probing 106 9).zwp_entry ≡ unacked (listed probing.zwp_entry) 106)
    × IsOrdered (on_ack probing 106 9)
on_ack-unacked_example = on_ack-unacked probing 106 9 probing-IsOrdered

-- Two seconds later.
abbrev later : ℕ
later = 2_000_000_000

get_expired_entries-due_example : get_expired_entries probing 200 later ≡ (
  some (due_packets later 500 200 probing.deque ++ due_probe later 500 probing.zwp_entry),
  record {
    deque = counted later 500 200 probing.deque;
    zwp_entry = counted_probe later 500 probing.zwp_entry;
    rto = probing.rto;
  },
)
unfolding exhausted is_due
get_expired_entries-due_example = get_expired_entries-due probing 200 later refl

-- The packet sent again as often as the limit allows.
abbrev worn : RetransmissionQueue
worn = record empty_queue {
  deque = record { packet = packet 100; last_sent = 0; counter = 5 } ∷ [];
}

get_expired_entries-exhausted_example :
    ((get_expired_entries worn 200 later).0 ≡ none)
    × ((get_expired_entries worn 200 later).1.zwp_entry ≡ none)
unfolding exhausted is_due
get_expired_entries-exhausted_example = get_expired_entries-exhausted worn 200 later refl

one-sent : (get_expired_entries one 200 later).0 ≡ some (packet 100 ∷ [])
unfolding get_expired_entries retry_entries retry_zwp has_expired
one-sent = refl
