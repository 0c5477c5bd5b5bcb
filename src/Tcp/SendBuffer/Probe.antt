-- ===== src/Tcp/SendBuffer/Probe.antt =====
-- Zero window probing in `SendBuffer`: what the countdown sends, and what ends a probe.
use tns.Common.{
  ℕ, ◌+◌, ◌-◌, ◌≡◌, ◌<◌, true, false, Bool, none, some, [], ◌∷◌, arith, get_or, ◌%◌, sym, subst,
}
use tns.Tcp.SocketError.{value}
use tns.Tcp.Ring.Windows.{drop-window, window-add, take-window}
use tns.Tcp.SendBuffer.{SendBuffer, size_not_sent, zwp_pause, zwp_countdown}
use tns.Tcp.SendBuffer.Invariant.{IsValid, sizes}
use tns.Tcp.SendBuffer.Stream.{Sends, Probed}

probing :
    (cap : ℕ) (s s' : SendBuffer) (timed_out : Bool) (seq byte : ℕ)
    → zwp_countdown cap s timed_out ≡ (value (some (seq, byte)), s')
    → (s.stopped ≡ false) × (s.wnd ≡ 0) × (timed_out ≡ true) × (0 < size_not_sent s)
unfolding zwp_countdown
probing cap s s' timed_out seq byte e = ground arith

probe-Sends :
    (cap : ℕ) (s s' : SendBuffer)
    → IsValid cap s
    → s.nxt < s.nbw
    → s.wnd ≡ 0
    → s'.buf ≡ s.buf
    → s'.una ≡ s.una
    → s'.nxt ≡ s.nxt + 1
    → s'.nbw ≡ s.nbw
    → s'.wnd ≡ s.wnd
    → Sends cap s 1 (get_or s.buf (s.nxt % cap) 0 ∷ []) s'
probe-Sends cap s s' v some_left shut buf una nxt nbw wnd = record {
  count = omega arith;
  next = nxt;
  una = una;
  nbw = nbw;
  wnd = ground arith;
  sent = ground (arith, take-window cap s.buf s.nxt (s.nbw - s.nxt) 1 (omega arith));
  left = ground (arith, drop-window cap s.buf s.nxt (s.nbw - s.nxt) 1 (omega arith));
  holds = ground arith;
  flight = ground (arith, window-add cap s.buf s.una (s.nxt - s.una) 1);
  valid = ground arith;
}

-- What a probe sends is the next byte not sent.
pub zwp_countdown-Sends :
    (cap : ℕ) (s s' : SendBuffer) (timed_out : Bool) (seq byte : ℕ)
    → IsValid cap s
    → zwp_countdown cap s timed_out ≡ (value (some (seq, byte)), s')
    → (seq ≡ s.nxt) × Sends cap s 1 (byte ∷ []) s'
unfolding zwp_countdown
zwp_countdown-Sends cap s s' timed_out seq byte v e =
    let (run, shut, late, left) = probing cap s s' timed_out seq byte e in
    let sz = sizes cap s v in
    let same : (s.nxt ≡ seq)
        × (get_or s.buf (s.nxt % cap) 0 ≡ byte)
        × (s'.buf ≡ s.buf)
        × (s'.una ≡ s.una)
        × (s'.nxt ≡ s.nxt + 1)
        × (s'.nbw ≡ s.nbw)
        × (s'.wnd ≡ s.wnd) =
      ground (arith, run, shut, late, left, e, sz, v) in
    let (at, it, buf, una, nxt, nbw, wnd) = same in
    let sends = probe-Sends cap s s' v (omega arith) shut buf una nxt nbw wnd in
    (sym at, subst (λ b. Sends cap s 1 (b ∷ []) s') it sends)

pub zwp_pause-Probed : (s : SendBuffer) → Probed s s.wnd (zwp_pause s).1
unfolding zwp_pause
zwp_pause-Probed s = ground arith

pub zwp_countdown-Probed :
    (cap : ℕ) (s s' : SendBuffer) (timed_out : Bool)
    → zwp_countdown cap s timed_out ≡ (value none, s')
    → Probed s s.wnd s'
unfolding zwp_countdown
zwp_countdown-Probed cap s s' timed_out e = ground arith
