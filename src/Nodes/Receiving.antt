-- ===== src/Nodes/Receiving.antt =====
-- What the loop of `tcpRecvFile` receives.
use tns.Common.{
  ℕ, zero, suc, ◌+◌, ◌-◌, ◌≤◌, ◌<◌, ◌≡◌, refl, sym, ap, subst, ◌∙◌, inl, inr, Bool, Bool-cases,
  true, false, min, Option, some, none, List, [], ◌++◌, length, length-append, ◌==◌, bind-some,
  arith, u32_mod,
}
use mathlib.Core.List.{append-nil}
use native.Mathlib.Decide.{dec_lt}
use tns.Tcp.SocketError.{SocketError, Outcome, waits, value, error}
use tns.Tcp.States.{State}
use tns.Tcp.RecvBuffer.{RecvBuffer, read_at_most, size_to_read}
use tns.Tcp.RecvBuffer.Reassembly.{Holds}
use tns.Tcp.RecvBuffer.Delivery.{stream_bytes, read_at_most-running, read_at_most-delivers}
use tns.Tcp.Sockets.{NormalSocket}
use tns.Tcp.Sockets
use tns.Nodes.Files.{goes_on, progress, receive_round}

-- A call that returns no error has what it returns from the buffer.
unfoldable pub is_fine : {A : Type 0} → Outcome A → Bool
is_fine waits = true
is_fine (value a) = true
is_fine (error e) = false

from_read :
    (s s' : NormalSocket) (o : Outcome (List ℕ)) (r : Option (Outcome (List ℕ) × RecvBuffer))
    → (elim r as (λ x. Option (Outcome (List ℕ) × NormalSocket)) [
      | none ↦ none
      | some (x, b) ↦ some (x, record s { recv_buffer = b })
    ])
      ≡ some (o, s')
    → r ≡ some (o, s'.recv_buffer)
from_read s s' o none h = absurd (ground (arith, h))
from_read s s' o (some (x, b)) h = ground (arith, h)

v_recv-fine :
    (cap n : ℕ) (s s' : NormalSocket) (o : Outcome (List ℕ)) (state : State)
    → is_fine o ≡ true
    → Sockets.v_recv cap (record s { state = state }) n ≡ some (o, s')
    → read_at_most cap s.recv_buffer n n ≡ some (o, s'.recv_buffer)
unfolding Sockets.v_recv is_fine
v_recv-fine cap n s s' o State.listen fine h = absurd (ground (arith, fine, h))
v_recv-fine cap n s s' o State.syn_sent fine h = absurd (ground (arith, fine, h))
v_recv-fine cap n s s' o (State.syn_received l) fine h = absurd (ground (arith, fine, h))
v_recv-fine cap n s s' o State.closing fine h = absurd (ground (arith, fine, h))
v_recv-fine cap n s s' o State.last_ack fine h = absurd (ground (arith, fine, h))
v_recv-fine cap n s s' o State.closed fine h = absurd (ground (arith, fine, h))
v_recv-fine cap n s s' o State.established fine h =
    from_read (record s { state = State.established }) s' o (read_at_most cap s.recv_buffer n n) h
v_recv-fine cap n s s' o State.fin_wait1 fine h =
    from_read (record s { state = State.fin_wait1 }) s' o (read_at_most cap s.recv_buffer n n) h
v_recv-fine cap n s s' o State.fin_wait2 fine h =
    from_read (record s { state = State.fin_wait2 }) s' o (read_at_most cap s.recv_buffer n n) h
v_recv-fine cap n s s' o (State.time_wait t) fine h =
    from_read (record s { state = (State.time_wait t) }) s' o (read_at_most cap s.recv_buffer n n) h
v_recv-fine cap n s s' o State.close_wait fine h =
    elim (Bool-cases (size_to_read s.recv_buffer == 0)) [
      | inl t ↦ absurd (ground (arith, fine, h, t))
      | inr t ↦
          from_read (record s { state = State.close_wait }) s' o
            (read_at_most cap s.recv_buffer n n) (rw t at h)
    ]

length-stream_bytes : (stream : ℕ → ℕ) (at n : ℕ) → length (stream_bytes stream at n) ≡ n
length-stream_bytes stream at zero = refl
length-stream_bytes stream at (suc n) = ap suc (length-stream_bytes stream (at + 1) n)

read_at_most-waits :
    (cap n : ℕ) (b b' : RecvBuffer) → read_at_most cap b n n ≡ some (waits, b') → b ≡ b'
unfolding read_at_most
read_at_most-waits cap n b b' h = (ground (arith, h))

read_at_most-none :
    (cap : ℕ) (b b' : RecvBuffer) (bytes : List ℕ)
    → read_at_most cap b 0 0 ≡ some (value bytes, b')
    → ([] ≡ bytes) × (b ≡ b')
unfolding read_at_most
read_at_most-none cap b b' bytes h = (ground (arith, h))

-- A round that has got `bytes`, the next of the stream.
pub record Gets (cap max : ℕ) (stream : ℕ → ℕ) (b : RecvBuffer) (received more : List ℕ)
    (b' : RecvBuffer) : Type 0 where
  pub count : ℕ
  pub appended : more ≡ received ++ stream_bytes stream b.nbr count
  pub moved : b'.nbr ≡ b.nbr + count
  pub fits : length more ≤ max
  pub holds : Holds cap stream b'

Gets-nothing :
    (cap max : ℕ) (stream : ℕ → ℕ) (b : RecvBuffer) (received : List ℕ)
    → length received ≤ max
    → Holds cap stream b
    → Gets cap max stream b received received b
Gets-nothing cap max stream b received fits h = record {
  count = 0;
  appended = sym (append-nil received);
  moved = omega arith;
  fits = fits;
  holds = h;
}

Gets-value :
    (cap max : ℕ) (stream : ℕ → ℕ) (b b' : RecvBuffer) (received bytes : List ℕ)
    → length received ≤ max
    → Holds cap stream b
    → b.nxt + cap + 2 < u32_mod
    → read_at_most cap b (max - length received) (max - length received) ≡ some (value bytes, b')
    → Gets cap max stream b received (received ++ bytes) b'
Gets-value cap max stream b b' received bytes fits h no_wrap e =
    let n = max - length received in
    elim (dec_lt 0 n) [
      | no full ↦
          let none_left : n ≡ 0 = omega arith in
          let same = read_at_most-none cap b b' bytes (rw none_left at e) in
          subst (λ x. Gets cap max stream b received (received ++ bytes) x) same.1
            (subst (λ xs. Gets cap max stream b received xs b)
              (sym (append-nil received) ∙ ap (λ xs. received ++ xs) same.0)
              (Gets-nothing cap max stream b received fits h))
      | yes room ↦
          let (run, ready) = read_at_most-running cap b b' n n bytes room e in
          let k = min n (b.nxt - b.nbr) in
          let some_byte : b.nbr < b.nxt = omega (arith, h.no_wrap, h.within, h.nbr_nxt) in
          let (e', holds) =
            read_at_most-delivers cap stream b n n h run room (omega arith) some_byte no_wrap in
          let eq : (stream_bytes stream b.nbr k ≡ bytes) × (record b { nbr = b.nbr + k } ≡ b') =
            ground (arith, e, e') in
          let len = length-stream_bytes stream b.nbr k in
          let total = length-append received (stream_bytes stream b.nbr k) in
          subst (λ x. Gets cap max stream b received (received ++ bytes) x) eq.1
            (subst
              (λ xs. Gets cap max stream b received (received ++ xs) (record b { nbr = b.nbr + k }))
              eq.0
              (record {
                count = k;
                appended = refl;
                moved = refl;
                fits = (omega (arith, len, total));
                holds = holds;
              }))
    ]

error-ends :
    (received more : List ℕ) (e : SocketError) → progress received (error e) ≡ goes_on more → ⊥
unfolding progress
error-ends received more SocketError.closing p = ground (arith, p)
error-ends received more SocketError.timeout p = ground (arith, p)
error-ends received more SocketError.reset p = ground (arith, p)
error-ends received more SocketError.conn_not_exist p = ground (arith, p)
error-ends received more SocketError.duplicate_socket p = ground (arith, p)
error-ends received more SocketError.no_resources p = ground (arith, p)
error-ends received more SocketError.op_not_allowed p = ground (arith, p)
error-ends received more SocketError.nyi p = ground (arith, p)

Gets-progress :
    (cap max : ℕ) (stream : ℕ → ℕ) (s s' : NormalSocket) (received more : List ℕ)
    (o : Outcome (List ℕ))
    → length received ≤ max
    → Holds cap stream s.recv_buffer
    → s.recv_buffer.nxt + cap + 2 < u32_mod
    → Sockets.v_recv cap s (max - length received) ≡ some (o, s')
    → progress received o ≡ goes_on more
    → Gets cap max stream s.recv_buffer received more s'.recv_buffer
unfolding progress is_fine
Gets-progress cap max stream s s' received more waits fits h no_wrap e p =
    let n = max - length received in
    let same =
      read_at_most-waits cap n s.recv_buffer s'.recv_buffer
        (v_recv-fine cap n s s' waits s.state refl e) in
    subst (λ x. Gets cap max stream s.recv_buffer received more x) same
      (subst (λ xs. Gets cap max stream s.recv_buffer received xs s.recv_buffer) (ground (arith, p))
        (Gets-nothing cap max stream s.recv_buffer received fits h))
Gets-progress cap max stream s s' received more (value bytes) fits h no_wrap e p =
    let n = max - length received in
    subst (λ xs. Gets cap max stream s.recv_buffer received xs s'.recv_buffer) (ground (arith, p))
      (Gets-value cap max stream s.recv_buffer s'.recv_buffer received bytes fits h no_wrap
        (v_recv-fine cap n s s' (value bytes) s.state refl e))
Gets-progress cap max stream s s' received more (error x) fits h no_wrap e p =
    absurd (error-ends received more x p)

-- A round of the loop of tcpRecvFile that goes on has the next bytes of the stream behind those
-- received before, where the socket's buffer holds a part of the stream and the numbers do not wrap,
-- and never more than the `max` bytes that fit; the buffer still holds a part of the stream.
pub receive_round-Gets :
    (cap max : ℕ) (stream : ℕ → ℕ) (s s' : NormalSocket) (received more : List ℕ)
    → length received ≤ max
    → Holds cap stream s.recv_buffer
    → s.recv_buffer.nxt + cap + 2 < u32_mod
    → receive_round cap max s received ≡ some (goes_on more, s')
    → Gets cap max stream s.recv_buffer received more s'.recv_buffer
unfolding receive_round
receive_round-Gets cap max stream s s' received more fits h no_wrap e =
    let (r, p, q) =
      bind-some (Sockets.v_recv cap s (max - length received)) _ (goes_on more, s') e in
    Gets-progress cap max stream s s' received more r.0 fits h no_wrap (ground (arith, p, q))
      (ground (arith, q))
