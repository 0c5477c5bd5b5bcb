-- ===== src/Tcp/RecvBuffer.antt =====
-- lib/include/tcp/buffers.hpp, `RecvBuffer<N>`: `cap` is N. Each operation is what it does while it
-- holds the mutex; a wait on the condition variable is the outcome `waits`. `none` is a failed
-- assertion or an exception of the interval set.
pub mod Reassembly
pub mod Receive
pub mod Delivery
use tns.Common.{
  ℕ, ◌+◌, ◌-◌, ◌%◌, ◌^◌, min, Bool, true, false, Option, none, some, List, [], ◌∷◌, ltb, leb, ◌==◌,
  if◌then◌else◌, length, drop, add_u32, sub_u32,
}
use tns.Tcp.SocketError.{SocketError, closing, Outcome, waits, value, error}
use tns.Tcp.Ring
use tns.Tcp.Intervals.{Interval, emplace_merge, merge_remove}
use tns.Tcp.Intervals

pub record RecvBuffer : Type 0 where
  pub buf : List ℕ
  pub nbr : ℕ
  pub nxt : ℕ
  pub early_arrivals : List Interval
  pub stopped : Bool

-- The constructor with an initial sequence number.
unfoldable pub make : List ℕ → ℕ → RecvBuffer
make buf init_recv_nxt = record {
  buf = buf;
  nbr = init_recv_nxt;
  nxt = init_recv_nxt;
  early_arrivals = [];
  stopped = false;
}

unfoldable pub set_pointers : RecvBuffer → ℕ → RecvBuffer
set_pointers s init_recv_nxt = record s { nbr = init_recv_nxt; nxt = init_recv_nxt }

unfoldable pub shutdown : RecvBuffer → RecvBuffer
shutdown s = record s { stopped = true }

abbrev pub size_to_read : RecvBuffer → ℕ
size_to_read s = sub_u32 s.nxt s.nbr

abbrev pub size_free : ℕ → RecvBuffer → ℕ
size_free cap s = (2 ^ 64 + cap - size_to_read s) % 2 ^ 64

-- `getAckWnd`
abbrev pub get_ack_wnd : ℕ → RecvBuffer → ℕ × ℕ
get_ack_wnd cap s = (s.nxt, size_free cap s)

-- `readAtMostNBytes(buff, n)` with room for `room` bytes in `buff`: the bytes read.
unfoldable pub read_at_most : ℕ → RecvBuffer → ℕ → ℕ → Option (Outcome (List ℕ) × RecvBuffer)
read_at_most cap s room n =
    let n' = min n (size_to_read s) in
    let fetch = Ring.read cap s.buf room s.nbr (s.nbr + n' - 1) in
    if n == 0
    then some (value [], s)
    else if s.stopped
    then some (error closing, s)
    else if size_to_read s == 0
    then some (waits, s)
    else elim fetch [
      | none ↦ none
      | some (n_read, bytes) ↦
          if n_read == n' then some (value bytes, record s { nbr = add_u32 s.nbr n' }) else none
    ]

-- `onCtrl`: the pair that it returns, and the buffer.
unfoldable pub on_ctrl : ℕ → RecvBuffer → ℕ → (ℕ × ℕ) × RecvBuffer
on_ctrl cap s seq_num =
    let s' = if seq_num == s.nxt then record s { nxt = add_u32 s.nxt 1 } else s in
    (get_ack_wnd cap s', s')

-- The branch of `onRecv` for a segment beyond `nxt_`, once its bytes are in the array.
unfoldable pub hold_early : ℕ → RecvBuffer → ℕ → ℕ → List ℕ → Option ((ℕ × ℕ) × RecvBuffer)
hold_early cap s seq_num n buf' =
    let s' = record s { buf = buf' } in
    if n == 0
    then some (get_ack_wnd cap s, s')
    else elim (Intervals.make seq_num (add_u32 seq_num n)) [
      | none ↦ none
      | some i ↦ elim (emplace_merge s.early_arrivals i).0 [
        | none ↦ none
        | some last ↦
            some (
              get_ack_wnd cap s,
              record s' { early_arrivals = (emplace_merge s.early_arrivals i).1 },
            )
      ]
    ]

-- The last branch of `onRecv`, once the new bytes are in the array.
unfoldable pub advance : ℕ → RecvBuffer → ℕ → ℕ → List ℕ → Option ((ℕ × ℕ) × RecvBuffer)
advance cap s seq_num n buf' =
    let s' = record s { buf = buf' } in
    if n == 0
    then some (get_ack_wnd cap s, s')
    else elim (Intervals.make seq_num (add_u32 seq_num n)) [
      | none ↦ none
      | some i ↦ elim (merge_remove s.early_arrivals i).0 [
        | none ↦ none
        | some last ↦ some (
          (last, (size_free cap s + 2 ^ 64 - n) % 2 ^ 64),
          record s' { nxt = last; early_arrivals = (merge_remove s.early_arrivals i).1 },
        )
      ]
    ]

-- `onRecv`: the pair that it returns, and the buffer.
unfoldable pub on_recv : ℕ → RecvBuffer → ℕ → List ℕ → Option ((ℕ × ℕ) × RecvBuffer)
unfolding hold_early advance
on_recv cap s seq_num payload =
    let last = s.nbr + cap - 1 in
    let offset = sub_u32 s.nxt seq_num in
    if length payload == 0
    then none
    else if ltb s.nxt seq_num
    then elim (Ring.write cap s.buf payload seq_num last) [
      | none ↦ none
      | some (n, buf') ↦ hold_early cap s seq_num n buf'
    ]
    else if leb (length payload) offset
    then some (get_ack_wnd cap s, s)
    else elim (Ring.write cap s.buf (drop offset payload) s.nxt last) [
      | none ↦ none
      | some (n, buf') ↦ advance cap s seq_num n buf'
    ]
