-- ===== src/Tcp/Tests/Transfers.antt =====
-- The theorem on transfers: two packets of a byte each, of which the second arrives first.
use tns.Common.{ℕ, ◌≡◌, refl, false, inl, inr, some, List, [], ◌∷◌, ◌++◌, arith}
use tns.Tcp.SocketError.{value}
use tns.Tcp.Ring
use tns.Tcp.Intervals.{merge_remove, emplace_merge}
use tns.Tcp.Intervals
use tns.Tcp.Intervals.Absorb.{interval}
use tns.Tcp.SendBuffer.{SendBuffer, write_once, send_ready_data}
use tns.Tcp.SendBuffer
use tns.Tcp.SendBuffer.Invariant.{IsValid, make-IsValid}
use tns.Tcp.SendBuffer.Run.{Run, start, written_to, sent_from}
use tns.Tcp.RecvBuffer.{RecvBuffer, on_recv, read_at_most}
use tns.Tcp.RecvBuffer
use tns.Tcp.Transfer.{IsEmitted}
use tns.Tcp.Transfer.Prefix.{Transfer, received, delivered, Transfer-delivers}
use tns.Tcp.Transfer.Prefix

abbrev four : List ℕ
four = 0 ∷ 0 ∷ 0 ∷ 0 ∷ []

abbrev bytes : List ℕ
bytes = 15 ∷ 16 ∷ []

abbrev empty : SendBuffer
empty = SendBuffer.make four 100 3

empty-IsValid : IsValid 4 empty
empty-IsValid =
    (make-IsValid 4 100 3 four (omega arith) (omega arith) refl (omega arith) (omega arith)).0

abbrev loaded : SendBuffer
loaded = record empty { buf = 15 ∷ 16 ∷ 0 ∷ 0 ∷ []; nbw = 102 }

abbrev one_sent : SendBuffer
one_sent = record loaded { nxt = 101; wnd = 2 }

abbrev both_sent : SendBuffer
both_sent = record loaded { nxt = 102; wnd = 1 }

empty-write : write_once 4 empty bytes ≡ some (value 2, loaded)
unfolding write_once Ring.write Ring.write_wrapped Ring.copy_to SendBuffer.make
empty-write = refl

first_send : send_ready_data 4 loaded 1 ≡ some (value (100, 15 ∷ []), one_sent)
unfolding send_ready_data Ring.read Ring.read_wrapped SendBuffer.make
first_send = refl

second_send : send_ready_data 4 one_sent 1 ≡ some (value (101, 16 ∷ []), both_sent)
unfolding send_ready_data Ring.read Ring.read_wrapped SendBuffer.make
second_send = refl

sends : Run 4 empty bytes bytes both_sent
unfolding SendBuffer.make
sends =
    sent_from bytes (15 ∷ []) (16 ∷ []) 1 101 one_sent both_sent
      (sent_from bytes [] (15 ∷ []) 1 100 loaded one_sent
        (written_to [] [] bytes 2 empty loaded start (omega arith) empty-write) (omega arith)
        first_send)
      (omega arith) second_send

abbrev waiting : RecvBuffer
waiting = RecvBuffer.make four 100

abbrev early : RecvBuffer
early = record {
  buf = 0 ∷ 16 ∷ 0 ∷ 0 ∷ [];
  nbr = 100;
  nxt = 100;
  early_arrivals = interval 101 102 ∷ [];
  stopped = false;
}

abbrev ready : RecvBuffer
ready = record early { buf = 15 ∷ 16 ∷ 0 ∷ 0 ∷ []; nxt = 102; early_arrivals = [] }

second_arrives : on_recv 4 waiting 101 (16 ∷ []) ≡ some ((100, 4), early)
unfolding on_recv RecvBuffer.make RecvBuffer.hold_early Intervals.make emplace_merge Ring.write
    Ring.write_wrapped Ring.copy_to Intervals.less
second_arrives = refl

first_arrives : on_recv 4 early 100 (15 ∷ []) ≡ some ((102, 3), ready)
unfolding on_recv RecvBuffer.advance Intervals.make merge_remove Ring.write Ring.write_wrapped
    Ring.copy_to Intervals.less
first_arrives = refl

reads : read_at_most 4 ready 2 2 ≡ some (value bytes, record ready { nbr = 102 })
unfolding read_at_most Ring.read Ring.read_wrapped
reads = refl

transfer : Transfer 4 (IsEmitted sends) waiting bytes (record ready { nbr = 102 })
unfolding IsEmitted RecvBuffer.make sends
transfer =
    delivered [] bytes 2 2 ready (record ready { nbr = 102 })
      (received [] (15 ∷ []) 100 (102, 3) early ready
        (received [] (16 ∷ []) 101 (100, 4) waiting early Prefix.start (inl (refl, refl))
          (inl (omega arith)) second_arrives)
        (inr (inl (refl, refl))) (inl (omega arith)) first_arrives)
      (omega arith) (omega arith) (omega arith) reads

Transfer-delivers_example : (rest : List ℕ) × (bytes ++ rest ≡ bytes)
unfolding SendBuffer.make
Transfer-delivers_example =
    Transfer-delivers 4 4 empty both_sent bytes bytes four bytes (record ready { nbr = 102 })
      empty-IsValid refl sends (omega arith) refl (omega arith) transfer
