-- ===== src/Tcp/SendBuffer/Run.antt =====
-- Runs of `write`, `sendReadyData`, `onAck` and zero window probing on one `SendBuffer`, in any order.
use tns.Common.{
  ℕ, ◌+◌, ◌-◌, ◌<◌, ◌≡◌, refl, sym, min, false, none, some, Bool, List, [], ◌∷◌, ◌++◌, length, take,
  arith, u32_mod, take-append-drop, length-append, length-take,
}
use mathlib.Core.List.{append_assoc, append-nil}
use native.Mathlib.Decide.{dec_lt}
use tns.Tcp.SocketError.{value}
use tns.Tcp.Ring.Windows.{length-window}
use tns.Tcp.SendBuffer.{
  SendBuffer, size_can_send, size_free, write_once, on_ack, send_ready_data, zwp_pause,
  zwp_countdown,
}
use tns.Tcp.SendBuffer.Invariant.{IsValid, held, not_sent, sizes, Takes, write_once-Takes}
use tns.Tcp.SendBuffer.Probe.{zwp_pause-Probed, zwp_countdown-Probed, zwp_countdown-Sends}
use tns.Tcp.SendBuffer.Stream.{
  Sends, Probed, send_ready_data-Sends, on_ack-Acks, write_once-one_free,
}

-- `Run cap s written sent s'`: from `s` to `s'`, `written` being the bytes that the calls of `write`
-- took, and `sent` those that the calls of `sendReadyData` and `zwpGetProbeByte` returned. Sequence numbers stay below 2 ^ 32.
pub data Run (cap : ℕ) (s : SendBuffer) : List ℕ → List ℕ → SendBuffer → Type 0 where
  start : Run cap s [] [] s
  written_to :
      (written sent bytes : List ℕ) (n : ℕ) (s1 s2 : SendBuffer)
      → Run cap s written sent s1
      → s1.nbw + length bytes < u32_mod
      → write_once cap s1 bytes ≡ some (value n, s2)
      → Run cap s (written ++ take n bytes) sent s2
  sent_from :
      (written sent bytes : List ℕ) (room seq : ℕ) (s1 s2 : SendBuffer)
      → Run cap s written sent s1
      → 0 < room
      → send_ready_data cap s1 room ≡ some (value (seq, bytes), s2)
      → Run cap s written (sent ++ bytes) s2
  acked :
      (written sent : List ℕ) (ack_num wnd_size now : ℕ) (s1 : SendBuffer)
      → Run cap s written sent s1
      → wnd_size < u32_mod
      → Run cap s written sent (on_ack s1 ack_num wnd_size now).1
  paused :
      (written sent : List ℕ) (s1 : SendBuffer)
      → Run cap s written sent s1
      → Run cap s written sent (zwp_pause s1).1
  counted_down :
      (written sent : List ℕ) (timed_out : Bool) (s1 s2 : SendBuffer)
      → Run cap s written sent s1
      → zwp_countdown cap s1 timed_out ≡ (value none, s2)
      → Run cap s written sent s2
  probed_from :
      (written sent : List ℕ) (timed_out : Bool) (seq byte : ℕ) (s1 s2 : SendBuffer)
      → Run cap s written sent s1
      → zwp_countdown cap s1 timed_out ≡ (value (some (seq, byte)), s2)
      → Run cap s written (sent ++ (byte ∷ [])) s2

write-running :
    (cap : ℕ) (s s' : SendBuffer) (bytes : List ℕ) (n : ℕ)
    → write_once cap s bytes ≡ some (value n, s')
    → (s.stopped ≡ false) × (0 < size_free cap s)
unfolding write_once
write-running cap s s' bytes n e = ground arith

Takes-none : (cap : ℕ) (s : SendBuffer) (bytes : List ℕ) → IsValid cap s → Takes cap s bytes 0 s
Takes-none cap s bytes v = record {
  count = omega arith;
  next = omega arith;
  una = refl;
  nxt = refl;
  wnd = refl;
  stopped = refl;
  holds = sym (append-nil (held cap s));
  waiting = sym (append-nil (not_sent cap s));
  valid = v;
}

write-Takes :
    (cap : ℕ) (s s' : SendBuffer) (bytes : List ℕ) (n : ℕ)
    → IsValid cap s
    → s.nbw + length bytes < u32_mod
    → write_once cap s bytes ≡ some (value n, s')
    → Takes cap s bytes n s'
write-Takes cap s s' bytes n v fits e =
    let (run, free) = write-running cap s s' bytes n e in
    elim (dec_lt 1 (size_free cap s)) [
      | yes more ↦
          let (s2, e2, w) = write_once-Takes cap s bytes v run fits more in
          let same : (min (size_free cap s) (length bytes) ≡ n) × (s2 ≡ s') =
            ground (arith, e, e2) in
          ground (arith, w, same)
      | no one ↦
          let sz = sizes cap s v in
          let e2 = write_once-one_free cap s bytes v run (omega arith) in
          let same : (0 ≡ n) × (s ≡ s') = ground (arith, e, e2) in
          ground (arith, Takes-none cap s bytes v, same)
    ]

send-running :
    (cap : ℕ) (s s' : SendBuffer) (room seq : ℕ) (bytes : List ℕ)
    → send_ready_data cap s room ≡ some (value (seq, bytes), s')
    → (s.stopped ≡ false) × (0 < size_can_send s)
unfolding send_ready_data
send-running cap s s' room seq bytes e = ground arith

pub send-Sends :
    (cap : ℕ) (s s' : SendBuffer) (room seq : ℕ) (bytes : List ℕ)
    → IsValid cap s
    → 0 < room
    → send_ready_data cap s room ≡ some (value (seq, bytes), s')
    → (seq ≡ s.nxt) × (length bytes ≡ s'.nxt - s.nxt) × Sends cap s (s'.nxt - s.nxt) bytes s'
send-Sends cap s s' room seq bytes v some_room e =
    let (run, can) = send-running cap s s' room seq bytes e in
    let (bytes2, s2, e2, w) = send_ready_data-Sends cap s room v run some_room can in
    let same : (s.nxt ≡ seq) × (bytes2 ≡ bytes) × (s2 ≡ s') = ground (arith, e, e2) in
    let n : min (size_can_send s) room ≡ s'.nxt - s.nxt = ground (arith, w, same) in
    (
      cc,
      ground (
        arith,
        w,
        same,
        n,
        length-take (s'.nxt - s.nxt) (not_sent cap s),
        length-window cap s.buf s.nxt (s.nbw - s.nxt),
      ),
      ground (arith, w, same, n),
    )

pub send-some :
    (cap : ℕ) (s s' : SendBuffer) (room seq : ℕ) (bytes : List ℕ)
    → IsValid cap s
    → 0 < room
    → send_ready_data cap s room ≡ some (value (seq, bytes), s')
    → 0 < length bytes
send-some cap s s' room seq bytes v some_room e =
    let (run, can) = send-running cap s s' room seq bytes e in
    let (bytes2, s2, e2, w) = send_ready_data-Sends cap s room v run some_room can in
    let same : (s.nxt ≡ seq) × (bytes2 ≡ bytes) × (s2 ≡ s') = ground (arith, e, e2) in
    let sz = sizes cap s v in
    let n : 0 < min (size_can_send s) room = omega arith in
    (ground (
      arith,
      w,
      same,
      n,
      length-take (min (size_can_send s) room) (not_sent cap s),
      length-window cap s.buf s.nxt (s.nbw - s.nxt),
    ))

-- The state of a run, in terms of its start.
pub record Streams (cap : ℕ) (s : SendBuffer) (written sent : List ℕ) (s' : SendBuffer)
    : Type 0 where
  pub fifo : not_sent cap s ++ written ≡ sent ++ not_sent cap s'
  pub next : s'.nxt ≡ s.nxt + length sent
  pub end : s'.nbw ≡ s.nbw + length written
  pub valid : IsValid cap s'

Streams-sent :
    (cap : ℕ) (s s1 s2 : SendBuffer) (written sent bytes : List ℕ) (n : ℕ)
    → Streams cap s written sent s1
    → length bytes ≡ n
    → Sends cap s1 n bytes s2
    → Streams cap s written (sent ++ bytes) s2
Streams-sent cap s s1 s2 written sent bytes n z len w = record {
  fifo = ground (
    arith,
    z,
    w,
    append_assoc sent bytes (not_sent cap s2),
    take-append-drop n (not_sent cap s1),
  );
  next = ground (arith, z, w, len, length-append sent bytes);
  end = ground (arith, z, w);
  valid = w.valid;
}

Streams-Probed :
    (cap : ℕ) (s s1 s2 : SendBuffer) (written sent : List ℕ)
    → Streams cap s written sent s1
    → Probed s1 s1.wnd s2
    → Streams cap s written sent s2
Streams-Probed cap s s1 s2 written sent z p = record {
  fifo = ground (arith, z, p);
  next = ground (arith, z, p);
  end = ground (arith, z, p);
  valid = let v = z.valid in ground (arith, v, p);
}

-- Over any run of writes, transmissions, zero window probes and ACKs from a valid buffer, the bytes waiting at first and
-- then those written are the bytes sent and then those still waiting: sent in order, once each. `nxt`
-- and `nbw` have moved by the numbers of bytes sent and written, and the buffer is valid.
pub Run-Streams :
    (cap : ℕ) (s s' : SendBuffer) (written sent : List ℕ)
    → IsValid cap s
    → Run cap s written sent s'
    → Streams cap s written sent s'
Run-Streams cap s _ _ _ v start = record {
  fifo = ground (arith, append-nil (not_sent cap s));
  next = ground arith;
  end = ground arith;
  valid = v;
}
Run-Streams cap s _ _ _ v (written_to written sent bytes n s1 s2 r fits e) =
    let z = Run-Streams cap s s1 written sent v r in
    let w = write-Takes cap s1 s2 bytes n z.valid fits e in
    record {
      fifo = ground (
        arith,
        z,
        w,
        append_assoc (not_sent cap s) written (take n bytes),
        append_assoc sent (not_sent cap s1) (take n bytes),
      );
      next = ground (arith, z, w);
      end = ground (arith, z, w, length-append written (take n bytes), length-take n bytes);
      valid = w.valid;
    }
Run-Streams cap s _ _ _ v (sent_from written sent bytes room seq s1 s2 r some_room e) =
    let z = Run-Streams cap s s1 written sent v r in
    let (at, len, w) = send-Sends cap s1 s2 room seq bytes z.valid some_room e in
    Streams-sent cap s s1 s2 written sent bytes (s2.nxt - s1.nxt) z len w
Run-Streams cap s _ _ _ v (acked written sent ack_num wnd_size now s1 r k) =
    let z = Run-Streams cap s s1 written sent v r in
    let w = (on_ack-Acks cap s1 ack_num wnd_size now z.valid k).1 in
    record {
      fifo = ground (arith, z, w);
      next = ground (arith, z, w);
      end = ground (arith, z, w);
      valid = w.valid;
    }
Run-Streams cap s _ _ _ v (paused written sent s1 r) =
    let z = Run-Streams cap s s1 written sent v r in
    Streams-Probed cap s s1 (zwp_pause s1).1 written sent z (zwp_pause-Probed s1)
Run-Streams cap s _ _ _ v (counted_down written sent timed_out s1 s2 r e) =
    let z = Run-Streams cap s s1 written sent v r in
    Streams-Probed cap s s1 s2 written sent z (zwp_countdown-Probed cap s1 s2 timed_out e)
Run-Streams cap s _ _ _ v (probed_from written sent timed_out seq byte s1 s2 r e) =
    let z = Run-Streams cap s s1 written sent v r in
    let (at, w) = zwp_countdown-Sends cap s1 s2 timed_out seq byte z.valid e in
    Streams-sent cap s s1 s2 written sent (byte ∷ []) 1 z refl w
