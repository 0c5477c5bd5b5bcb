-- ===== src/Tcp/SendBuffer.antt =====
-- lib/include/tcp/buffers.hpp, `SendBuffer<N>`: `cap` is N. Each operation is what it does while it
-- holds the mutex; a wait on a condition variable is the outcome `waits`, after which the same call
-- is made again when another thread has changed the buffer.
pub mod Invariant
pub mod Stream
pub mod Probe
pub mod Run
use tns.Common.{
  ℕ, ◌+◌, ◌-◌, ◌%◌, ◌^◌, min, Bool, true, false, ◌&&◌, ◌||◌, Option, none, some, List, [], ◌∷◌, ltb,
  leb, ◌==◌, if◌then◌else◌, length, get_or, add_u32, sub_u32, to_u32, not,
}
use tns.Tcp.SocketError.{SocketError, closing, Outcome, waits, value, error}
use tns.Tcp.Ring
use tns.Tcp.Retransmission
use tns.Tcp.Retransmission.{RetransmissionQueue, empty_queue}

-- The `state` of `ZeroWindowProbing`.
pub data ZwpState : Type 0 where
  pause countdown wait_ack : ZwpState

pub record SendBuffer : Type 0 where
  pub buf : List ℕ
  pub una : ℕ
  pub nxt : ℕ
  pub nbw : ℕ
  pub wnd : ℕ
  pub stopped : Bool
  pub zwp_state : ZwpState
  pub zwp_seq : ℕ
  pub retransmit_queue : RetransmissionQueue

-- The constructor. What the array holds at first does not matter.
unfoldable pub make : List ℕ → ℕ → ℕ → SendBuffer
make buf init_seq_num window_size = record {
  buf = buf;
  una = init_seq_num;
  nxt = init_seq_num;
  nbw = init_seq_num;
  wnd = window_size;
  stopped = false;
  zwp_state = pause;
  zwp_seq = 0;
  retransmit_queue = empty_queue;
}

-- The differences are taken in `uint32_t`, the free size in `size_t`.
abbrev pub size_unacked : SendBuffer → ℕ
size_unacked s = sub_u32 s.nxt s.una

abbrev pub size_not_sent : SendBuffer → ℕ
size_not_sent s = sub_u32 s.nbw s.nxt

abbrev pub size_can_send : SendBuffer → ℕ
size_can_send s =
    if ltb (size_unacked s) s.wnd then min (s.wnd - size_unacked s) (size_not_sent s) else 0

abbrev pub size_free : ℕ → SendBuffer → ℕ
size_free cap s = (2 ^ 64 + cap - sub_u32 s.nbw s.una) % 2 ^ 64

-- One round of the loop of `write`: the number of bytes taken, and the buffer. `none` is a failed
-- assertion of `RingBuffer::write`.
unfoldable pub write_once : ℕ → SendBuffer → List ℕ → Option (Outcome ℕ × SendBuffer)
write_once cap s bytes =
    let store = Ring.write cap s.buf bytes s.nbw (s.nbw + size_free cap s - 1) in
    if s.stopped
    then some (error closing, s)
    else if size_free cap s == 0
    then some (waits, s)
    else elim store [
      | none ↦ none
      | some (n, buf') ↦ some (value n, record s { buf = buf'; nbw = add_u32 s.nbw n })
    ]

-- `switch (zwp_.state)` of `onAck`.
unfoldable pub probe_on_ack : SendBuffer → ℕ → ℕ → SendBuffer
probe_on_ack s ack_num wnd_size = elim s.zwp_state [
  | pause ↦ s
  | countdown ↦ s
  | wait_ack ↦
      if ltb s.zwp_seq ack_num
      then record s { zwp_state = pause }
      else if ltb 0 wnd_size
      then record s { retransmit_queue = Retransmission.reset_zwp_counter s.retransmit_queue }
      else s
]

-- `onAck`: the pair of `una_` and `nxt_` that it returns, and the buffer. `now` is the time.
unfoldable pub on_ack : SendBuffer → ℕ → ℕ → ℕ → (ℕ × ℕ) × SendBuffer
unfolding probe_on_ack
on_ack s ack_num wnd_size now =
    let s' =
      if leb s.una ack_num
      then probe_on_ack (record s { wnd = wnd_size }) ack_num wnd_size
      else s in
    if leb ack_num s.una || ltb s.nxt ack_num then ((s.una, s.nxt), s') else (
      (ack_num, s.nxt),
      record s' {
        una = ack_num;
        retransmit_queue = Retransmission.on_ack s'.retransmit_queue ack_num now;
      },
    )

-- `sendReadyData` into a buffer with room for `room` bytes: the sequence number and the bytes.
-- `none` is a failed assertion, of `RingBuffer::read` or on the number of bytes read. The last index is
-- a `size_t`, which wraps at 0.
unfoldable pub send_ready_data : ℕ → SendBuffer → ℕ → Option (Outcome (ℕ × List ℕ) × SendBuffer)
send_ready_data cap s room =
    let n = min (size_can_send s) room in
    let last = if s.nxt + n == 0 then 2 ^ 64 - 1 else s.nxt + n - 1 in
    let fetch = Ring.read cap s.buf room s.nxt last in
    if s.stopped
    then some (error closing, s)
    else if size_can_send s == 0
    then some (waits, s)
    else elim fetch [
      | none ↦ none
      | some (n_read, bytes) ↦
          if n_read == n
          then some
              (value (s.nxt, bytes), record s { wnd = sub_u32 s.wnd n; nxt = add_u32 s.nxt n })
          else none
    ]

unfoldable pub get_wnd_end_exclusive : SendBuffer → ℕ
get_wnd_end_exclusive s = add_u32 s.una s.wnd

-- `writeAndSendOne`
unfoldable pub write_and_send_one : SendBuffer → SendBuffer
write_and_send_one s = record s { nbw = add_u32 s.nbw 1; nxt = add_u32 s.nxt 1 }

unfoldable pub shutdown : SendBuffer → SendBuffer
shutdown s = record s { stopped = true }

-- `zwpGetProbeByte` up to its first wait, and from there on.
unfoldable pub zwp_pause : SendBuffer → Outcome (Unit {0}) × SendBuffer
zwp_pause s =
    let s' = record s { zwp_state = pause } in
    if s.stopped
    then (error closing, s')
    else if s.wnd == 0
    then (value tt, record s' { zwp_state = countdown })
    else (waits, s')

-- The wait of the countdown ends when the window opens or when it has timed out. The probe is the
-- sequence number and the byte; `none` is an empty view.
unfoldable pub zwp_countdown : ℕ → SendBuffer → Bool → Outcome (Option (ℕ × ℕ)) × SendBuffer
zwp_countdown cap s timed_out =
    if s.stopped
    then (error closing, s)
    else if ltb 0 s.wnd
    then (value none, record s { zwp_state = pause })
    else if not timed_out
    then (waits, s)
    else if size_not_sent s == 0
    then (value none, record s { zwp_state = pause })
    else (
      value (some (s.nxt, get_or s.buf (s.nxt % cap) 0)),
      record s { zwp_state = wait_ack; zwp_seq = s.nxt; nxt = add_u32 s.nxt 1 },
    )

unfoldable pub zwp_wait_ack : SendBuffer → Outcome (Unit {0})
zwp_wait_ack s =
    if s.stopped then error closing else elim s.zwp_state [ pause ↦ value tt | _ ↦ waits ]
