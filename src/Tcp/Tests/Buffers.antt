-- ===== src/Tcp/Tests/Buffers.antt =====
-- The theorems on lib/include/tcp/buffers.hpp and intervals.hpp at buffers of four bytes.
use tns.Common.{
  ℕ, ◌+◌, ◌-◌, ◌≤◌, ◌<◌, ◌≡◌, ◌⊎◌, inl, refl, true, false, some, List, [], ◌∷◌, drop, arith, ◌↔◌,
}
use tns.Tcp.SocketError.{value}
use tns.Tcp.Intervals.{Interval, emplace_merge, merge_remove}
use tns.Tcp.Intervals
use tns.Tcp.Intervals.Absorb.{interval}
use tns.Tcp.Intervals.Spec.{IsSeparated, Covers}
use tns.Tcp.Intervals.Cover.{emplace_merge-Covers}
use tns.Tcp.Intervals.Discard.{merge_remove-Covers}
use tns.Tcp.Ring
use tns.Tcp.Ring.Contents.{read-write}
use tns.Tcp.RecvBuffer.{RecvBuffer, on_recv, read_at_most}
use tns.Tcp.RecvBuffer
use tns.Tcp.RecvBuffer.Reassembly.{Holds, IsSegment}
use tns.Tcp.RecvBuffer.Receive.{on_recv-Holds, on_recv-advances}
use tns.Tcp.RecvBuffer.Delivery.{
  Run, start, received, delivered, Run-delivers, make-Holds, stream_bytes,
}
use tns.Tcp.SendBuffer.{SendBuffer, write_once, send_ready_data, on_ack, size_free, size_can_send}
use tns.Tcp.SendBuffer
use tns.Tcp.States.{State}
use tns.Tcp.Sockets.{NormalSocket}
use tns.Tcp.Sockets
use tns.Nodes.Files.{receive_round, progress, goes_on}
use tns.Nodes.Receiving.{Gets, receive_round-Gets}
use tns.Tcp.SendBuffer.Invariant.{IsValid, Takes, write_once-Takes, held, not_sent, make-IsValid}
use tns.Tcp.SendBuffer.Stream.{Sends, send_ready_data-Sends, on_ack-keeps, write_once-one_free}

abbrev four : List ℕ
four = 0 ∷ 0 ∷ 0 ∷ 0 ∷ []

-- A stream whose byte at `n` is `n + 10`, and a buffer that waits for its byte 5.
abbrev stream : ℕ → ℕ
stream n = n + 10

abbrev fresh : RecvBuffer
fresh = record { buf = four; nbr = 5; nxt = 5; early_arrivals = []; stopped = false }

fresh-Holds : Holds 4 stream fresh
unfolding RecvBuffer.make
fresh-Holds = make-Holds 4 5 four stream (omega arith) refl (omega arith)

abbrev payload : List ℕ
payload = 15 ∷ 16 ∷ []

payload-IsSegment : IsSegment stream 5 payload
payload-IsSegment i h = ground (arith, h)

-- The buffer with the two bytes.
abbrev ready : RecvBuffer
ready = record {
  buf = 0 ∷ 15 ∷ 16 ∷ 0 ∷ [];
  nbr = 5;
  nxt = 7;
  early_arrivals = [];
  stopped = false;
}

on_recv-payload : on_recv 4 fresh 5 payload ≡ some ((7, 2), ready)
unfolding on_recv RecvBuffer.advance Intervals.make merge_remove Ring.write Ring.write_wrapped
    Ring.copy_to Intervals.less
on_recv-payload = refl

-- A gap: the byte that comes early is kept, and the one that fills the gap releases both.
on_recv-early :
    on_recv 4 fresh 6 (16 ∷ [])
    ≡ some (
      (5, 4),
      record {
        buf = 0 ∷ 0 ∷ 16 ∷ 0 ∷ [];
        nbr = 5;
        nxt = 5;
        early_arrivals = interval 6 7 ∷ [];
        stopped = false;
      },
    )
unfolding on_recv RecvBuffer.hold_early Intervals.make emplace_merge Ring.write Ring.write_wrapped
    Ring.copy_to Intervals.less
on_recv-early = refl

read-payload : read_at_most 4 ready 2 2 ≡ some (value payload, record ready { nbr = 7 })
unfolding read_at_most Ring.read Ring.read_wrapped
read-payload = refl

ready-Holds : Holds 4 stream ready
ready-Holds =
    let (ack, s', e, a, h) =
      on_recv-Holds 4 stream fresh 5 payload fresh-Holds payload-IsSegment (omega arith)
        (inl (omega arith)) (omega arith) in
    ground (arith, e, on_recv-payload, h)

on_recv-Holds_example :
    (ack : ℕ × ℕ) × (s' : RecvBuffer) × (on_recv 4 fresh 5 payload ≡ some (ack, s'))
    × (ack.0 ≡ s'.nxt)
    × Holds 4 stream s'
on_recv-Holds_example =
    on_recv-Holds 4 stream fresh 5 payload fresh-Holds payload-IsSegment (omega arith)
      (inl (omega arith)) (omega arith)

on_recv-advances_example :
    (ack : ℕ × ℕ) × (s' : RecvBuffer) × (on_recv 4 fresh 5 payload ≡ some (ack, s')) × (7 ≤ s'.nxt)
on_recv-advances_example =
    on_recv-advances 4 stream fresh payload fresh-Holds payload-IsSegment (omega arith)
      (omega arith) (omega arith)

run : Run 4 stream fresh payload (record ready { nbr = 7 })
run =
    delivered [] payload 2 2 ready (record ready { nbr = 7 })
      (received [] payload 5 (7, 2) fresh ready start payload-IsSegment (omega arith)
        (inl (omega arith)) (omega arith) on_recv-payload)
      (omega arith) (omega arith) (omega arith) read-payload

Run-delivers_example :
    (5 ≤ 7) × (payload ≡ stream_bytes stream 5 2) × Holds 4 stream (record ready { nbr = 7 })
Run-delivers_example =
    Run-delivers 4 stream fresh (record ready { nbr = 7 }) payload fresh-Holds run

abbrev two_sets : List Interval
two_sets = interval 10 12 ∷ interval 20 22 ∷ []

emplace_merge-Covers_example :
    (last : ℕ) × ((emplace_merge two_sets (interval 12 15)).0 ≡ some last)
    × IsSeparated 30 (emplace_merge two_sets (interval 12 15)).1
    × ((n : ℕ)
        → Covers (emplace_merge two_sets (interval 12 15)).1 n
          ↔ (Covers two_sets n ⊎ (12 ≤ n) × (n < 15)))
    × (15 ≤ last)
    × ((n : ℕ) → 12 ≤ n → n < last → Covers (emplace_merge two_sets (interval 12 15)).1 n)
    × (Covers (emplace_merge two_sets (interval 12 15)).1 last → ⊥)
emplace_merge-Covers_example =
    emplace_merge-Covers two_sets 12 15 30 (omega arith) ground arith (omega arith) (omega arith)

merge_remove-Covers_example :
    let r = merge_remove two_sets (interval 5 10) in
    (last : ℕ) × (r.0 ≡ some last)
    × IsSeparated 30 r.1
    × (10 ≤ last)
    × ((n : ℕ) → 5 ≤ n → n < last → Covers two_sets n ⊎ (n < 10))
    × (Covers two_sets last → ⊥)
    × ((n : ℕ) → 5 ≤ n → Covers r.1 n ↔ (Covers two_sets n × (last < n)))
    × ((n : ℕ) → Covers r.1 n → Covers two_sets n)
    × ((n m : ℕ) → Covers two_sets n → n ≤ m → m < 5 → Covers r.1 n ⊎ Covers two_sets m)
merge_remove-Covers_example =
    merge_remove-Covers two_sets 5 10 30 (omega arith) (ground arith) (omega arith) (omega arith)

read-write_example :
    (buf' : List ℕ) × (Ring.write 4 four payload 7 10 ≡ some (2, buf'))
    × (Ring.read 4 buf' 2 7 8 ≡ some (2, payload))
read-write_example =
    read-write 4 four payload 7 10 2 refl (omega arith) (omega arith) (omega arith) (omega arith)
      (omega arith)

-- A send buffer with number 100 first, three bytes of room in the peer's window, and nothing written.
abbrev empty : SendBuffer
empty = SendBuffer.make four 100 3

empty-IsValid : IsValid 4 empty
empty-IsValid =
    (make-IsValid 4 100 3 four (omega arith) (omega arith) refl (omega arith) (omega arith)).0

write_once-Takes_example :
    (s' : SendBuffer) × (write_once 4 empty payload ≡ some (value 2, s'))
    × Takes 4 empty payload 2 s'
unfolding SendBuffer.make
write_once-Takes_example =
    write_once-Takes 4 empty payload empty-IsValid refl (omega arith) (omega arith)

-- The same with two bytes in it.
abbrev loaded : SendBuffer
loaded = record empty { buf = 15 ∷ 16 ∷ 0 ∷ 0 ∷ []; nbw = 102 }

loaded-IsValid : IsValid 4 loaded
unfolding SendBuffer.make
loaded-IsValid = ground arith

send_ready_data-Sends_example :
    (bytes : List ℕ) × (s' : SendBuffer) × (send_ready_data 4 loaded 10
      ≡ some (value (100, bytes), s'))
    × Sends 4 loaded 2 bytes s'
unfolding SendBuffer.make
send_ready_data-Sends_example =
    send_ready_data-Sends 4 loaded 10 loaded-IsValid refl (omega arith) (omega arith)

-- The same with both bytes in flight.
abbrev flying : SendBuffer
flying = record loaded { nxt = 102; wnd = 1 }

flying-IsValid : IsValid 4 flying
unfolding SendBuffer.make
flying-IsValid = ground arith

on_ack-keeps_example :
    let (pair, s') = on_ack flying 101 3 0 in
    (pair ≡ (s'.una, s'.nxt))
    × (s'.nxt ≡ flying.nxt)
    × (s'.nbw ≡ flying.nbw)
    × (held 4 s' ≡ drop (s'.una - flying.una) (held 4 flying))
    × (not_sent 4 s' ≡ not_sent 4 flying)
    × IsValid 4 s'
on_ack-keeps_example = on_ack-keeps 4 flying 101 3 0 flying-IsValid (omega arith)

-- Three of four bytes held.
abbrev almost_full : SendBuffer
almost_full = record empty { buf = 15 ∷ 16 ∷ 17 ∷ 0 ∷ []; nbw = 103 }

almost_full-IsValid : IsValid 4 almost_full
unfolding SendBuffer.make
almost_full-IsValid = ground arith

write_once-one_free_example : write_once 4 almost_full payload ≡ some (value 0, almost_full)
unfolding SendBuffer.make
write_once-one_free_example =
    write_once-one_free 4 almost_full payload almost_full-IsValid refl (omega arith)

-- A file of which the two bytes are the first, received by an established socket.
abbrev receiver : RecvBuffer → NormalSocket
receiver b = record {
  id = 3;
  tuple = record {
    local = record { addr = 1; port = 80 };
    remote = record { addr = 2; port = 81 };
  };
  state = State.established;
  send_buffer = SendBuffer.make four 100 3;
  recv_buffer = b;
  retransmits = true;
}

receives :
    receive_round 4 10 (receiver ready) []
    ≡ some (goes_on payload, receiver (record ready { nbr = 7 }))
unfolding receive_round progress Sockets.v_recv read_at_most Ring.read Ring.read_wrapped
receives = refl

receive_round-Gets_example : Gets 4 10 stream ready [] payload (record ready { nbr = 7 })
receive_round-Gets_example =
    receive_round-Gets 4 10 stream (receiver ready) (receiver (record ready { nbr = 7 })) [] payload
      (omega arith) ready-Holds (omega arith) receives
