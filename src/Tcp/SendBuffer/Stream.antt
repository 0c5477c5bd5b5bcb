-- ===== src/Tcp/SendBuffer/Stream.antt =====
-- The rest of the operations of `SendBuffer`: what each branch returns and leaves, and the order of
-- the bytes that a run of operations sends.
use tns.Common.{
  ℕ, ◌+◌, ◌-◌, ◌≤◌, ◌<◌, ◌≡◌, refl, min, true, false, ◌||◌, some, List, ◌++◌, ltb, leb, take, drop,
  arith, u32_mod, Bool-cases, inl, inr, ◌⊎◌,
}
use tns.Tcp.SocketError.{value}
use tns.Tcp.Ring
use tns.Tcp.Ring.Windows.{window, drop-window, window-add, take-window}
use tns.Tcp.Ring.Access.{read-window}
use tns.Tcp.Retransmission
use tns.Tcp.SendBuffer.{
  SendBuffer, size_can_send, write_once, on_ack, probe_on_ack, send_ready_data,
}
use tns.Tcp.SendBuffer.Invariant.{IsValid, held, in_flight, not_sent, sizes}

-- With exactly one free byte, a buffer that is not stopped takes nothing: a round of `write` returns
-- 0 and changes nothing, so that the loop of `write` repeats it until an ACK frees more.
pub write_once-one_free :
    (cap : ℕ) (s : SendBuffer) (bytes : List ℕ)
    → IsValid cap s
    → s.stopped ≡ false
    → s.nbw + 1 ≡ s.una + cap
    → write_once cap s bytes ≡ some (value 0, s)
unfolding write_once Ring.write
write_once-one_free cap s bytes v run one = let sz = sizes cap s v in ground (arith, run)

can_send-le :
    (cap : ℕ) (s : SendBuffer)
    → IsValid cap s
    → (size_can_send s ≤ s.nbw - s.nxt) × (size_can_send s ≤ s.wnd)
can_send-le cap s v = let sz = sizes cap s v in ground arith

-- What a transmission of `n` bytes leaves.
pub record Sends (cap : ℕ) (s : SendBuffer) (n : ℕ) (bytes : List ℕ) (s' : SendBuffer)
    : Type 0 where
  pub count : n ≤ s.nbw - s.nxt
  pub next : s'.nxt ≡ s.nxt + n
  pub una : s'.una ≡ s.una
  pub nbw : s'.nbw ≡ s.nbw
  pub wnd : s'.wnd ≡ s.wnd - n
  pub sent : bytes ≡ take n (not_sent cap s)
  pub left : not_sent cap s' ≡ drop n (not_sent cap s)
  pub holds : held cap s' ≡ held cap s
  pub flight : in_flight cap s' ≡ in_flight cap s ++ bytes
  pub valid : IsValid cap s'

-- With a byte that can be sent and room for one, `sendReadyData` on a valid buffer that is not stopped
-- returns `nxt` and the next bytes not sent, as many as the window and the room allow. They move to
-- those in flight, `nxt` moves by their number and `wnd` shrinks by it, and the buffer stays valid.
pub send_ready_data-Sends :
    (cap : ℕ) (s : SendBuffer) (room : ℕ)
    → IsValid cap s
    → s.stopped ≡ false
    → 0 < room
    → 0 < size_can_send s
    → let n = min (size_can_send s) room in
      (bytes : List ℕ) × (s' : SendBuffer) × (send_ready_data cap s room
        ≡ some (value (s.nxt, bytes), s'))
      × Sends cap s n bytes s'
unfolding send_ready_data
send_ready_data-Sends cap s room v run some_room can =
    let n = min (size_can_send s) room in
    let sz = sizes cap s v in
    let le = can_send-le cap s v in
    let m : min (s.nxt + n - 1 + 1 - s.nxt) room ≡ n = omega arith in
    let fetch : Ring.read cap s.buf room s.nxt (s.nxt + n - 1)
        ≡ some (n, window cap s.buf s.nxt n) =
      rw m at
        (read-window cap s.buf room s.nxt (s.nxt + n - 1) v.size (omega arith) (omega arith)) in
    (
      window cap s.buf s.nxt n,
      record s { wnd = s.wnd - n; nxt = s.nxt + n },
      ground (arith, fetch, run),
      record {
        count = omega arith;
        next = refl;
        una = refl;
        nbw = refl;
        wnd = refl;
        sent = ground (arith, take-window cap s.buf s.nxt (s.nbw - s.nxt) n (omega arith));
        left = ground (arith, drop-window cap s.buf s.nxt (s.nbw - s.nxt) n (omega arith));
        holds = refl;
        flight = ground (arith, window-add cap s.buf s.una (s.nxt - s.una) n);
        valid = ground arith;
      },
    )

-- What an acknowledgement leaves, one that is in range moving `una` to it.
pub record Acks (cap : ℕ) (s : SendBuffer) (ack_num wnd_size : ℕ) (s' : SendBuffer) : Type 0 where
  pub una_in : s.una < ack_num → ack_num ≤ s.nxt → s'.una ≡ ack_num
  pub una_out : ack_num ≤ s.una ⊎ (s.nxt < ack_num) → s'.una ≡ s.una
  pub nxt : s'.nxt ≡ s.nxt
  pub nbw : s'.nbw ≡ s.nbw
  pub wnd_new : s.una ≤ ack_num → s'.wnd ≡ wnd_size
  pub wnd_old : ack_num < s.una → s'.wnd ≡ s.wnd
  pub stopped : s'.stopped ≡ s.stopped
  pub holds : held cap s' ≡ drop (s'.una - s.una) (held cap s)
  pub left : not_sent cap s' ≡ not_sent cap s
  pub valid : IsValid cap s'

-- `s'` has the bytes and pointers of `s`, and the window `w`.
pub record Probed (s : SendBuffer) (w : ℕ) (s' : SendBuffer) : Type 0 where
  pub buf : s'.buf ≡ s.buf
  pub una : s'.una ≡ s.una
  pub nxt : s'.nxt ≡ s.nxt
  pub nbw : s'.nbw ≡ s.nbw
  pub wnd : s'.wnd ≡ w
  pub stopped : s'.stopped ≡ s.stopped

probe_on_ack-Probed :
    (s : SendBuffer) (ack_num wnd_size : ℕ) → Probed s s.wnd (probe_on_ack s ack_num wnd_size)
unfolding probe_on_ack
probe_on_ack-Probed s ack_num wnd_size = ground arith

Probed-self : (s : SendBuffer) → Probed s s.wnd s
Probed-self s = ground arith

Probed-out :
    (cap : ℕ) (s : SendBuffer) (ack_num wnd_size w : ℕ) (s' : SendBuffer)
    → IsValid cap s
    → wnd_size < u32_mod
    → Probed s w s'
    → (s.una ≤ ack_num → w ≡ wnd_size)
    → (ack_num < s.una → w ≡ s.wnd)
    → ack_num ≤ s.una ⊎ (s.nxt < ack_num)
    → Acks cap s ack_num wnd_size s'
Probed-out cap s ack_num wnd_size w s' v k p new old out = record {
  una_in = ground arith;
  una_out = ground arith;
  nxt = p.nxt;
  nbw = p.nbw;
  wnd_new = ground arith;
  wnd_old = ground arith;
  stopped = p.stopped;
  holds = ground arith;
  left = ground arith;
  valid = ground arith;
}

Probed-in :
    (cap : ℕ) (s : SendBuffer) (ack_num wnd_size now : ℕ) (s' : SendBuffer)
    → IsValid cap s
    → wnd_size < u32_mod
    → Probed s wnd_size s'
    → s.una < ack_num
    → ack_num ≤ s.nxt
    → Acks cap s ack_num wnd_size (record s' {
      una = ack_num;
      retransmit_queue = Retransmission.on_ack s'.retransmit_queue ack_num now;
    })
Probed-in cap s ack_num wnd_size now s' v k p lo hi = record {
  una_in = ground arith;
  una_out = ground arith;
  nxt = p.nxt;
  nbw = p.nbw;
  wnd_new = ground arith;
  wnd_old = ground arith;
  stopped = p.stopped;
  holds =
      ground (arith, drop-window cap s.buf s.una (s.nbw - s.una) (ack_num - s.una) (omega arith));
  left = ground arith;
  valid = ground arith;
}

pub on_ack-Acks :
    (cap : ℕ) (s : SendBuffer) (ack_num wnd_size now : ℕ)
    → IsValid cap s
    → wnd_size < u32_mod
    → let (pair, s') = on_ack s ack_num wnd_size now in
      (pair ≡ (s'.una, s.nxt)) × Acks cap s ack_num wnd_size s'
unfolding on_ack
on_ack-Acks cap s ack_num wnd_size now v k =
    let s1 = record s { wnd = wnd_size } in
    let pr = probe_on_ack-Probed s1 ack_num wnd_size in
    elim (Bool-cases (leb s.una ack_num)) [
      | inl t ↦ elim (Bool-cases (leb ack_num s.una || ltb s.nxt ack_num)) [
        | inl u ↦
            rw (t, u)
              (
                ground (arith, pr),
                Probed-out cap s ack_num wnd_size wnd_size (probe_on_ack s1 ack_num wnd_size) v k
                    ground (arith, pr) (λ _. refl) ground arith ground arith,
              )
        | inr u ↦
            rw (t, u)
              (
                ground (arith, pr),
                Probed-in cap s ack_num wnd_size now (probe_on_ack s1 ack_num wnd_size) v k ground
                    (arith, pr) ground arith ground arith,
              )
      ]
      | inr t ↦
          let u : (leb ack_num s.una || ltb s.nxt ack_num) ≡ true = ground arith in
          rw (t, u)
            (
              refl,
              Probed-out cap s ack_num wnd_size s.wnd s v k (Probed-self s) ground arith (λ _. refl)
                  ground arith,
            )
    ]

-- `onAck` keeps a valid buffer valid, with `nxt`, `nbw` and the bytes not yet sent as they were; it
-- drops from the held bytes as many as `una` moves, and returns the new `una` with `nxt`.
pub on_ack-keeps :
    (cap : ℕ) (s : SendBuffer) (ack_num wnd_size now : ℕ)
    → IsValid cap s
    → wnd_size < u32_mod
    → let (pair, s') = on_ack s ack_num wnd_size now in
      (pair ≡ (s'.una, s'.nxt))
      × (s'.nxt ≡ s.nxt)
      × (s'.nbw ≡ s.nbw)
      × (held cap s' ≡ drop (s'.una - s.una) (held cap s))
      × (not_sent cap s' ≡ not_sent cap s)
      × IsValid cap s'
on_ack-keeps cap s ack_num wnd_size now v k =
    let (e, a) = on_ack-Acks cap s ack_num wnd_size now v k in
    (ground (arith, e, a.nxt), a.nxt, a.nbw, a.holds, a.left, a.valid)

-- An ACK of sent bytes moves `una` to its number and takes over its window.
pub on_ack-in_range :
    (cap : ℕ) (s : SendBuffer) (ack_num wnd_size now : ℕ)
    → IsValid cap s
    → wnd_size < u32_mod
    → s.una < ack_num
    → ack_num ≤ s.nxt
    → let (pair, s') = on_ack s ack_num wnd_size now in (s'.una ≡ ack_num) × (s'.wnd ≡ wnd_size)
on_ack-in_range cap s ack_num wnd_size now v k lo hi =
    let (e, a) = on_ack-Acks cap s ack_num wnd_size now v k in
    (a.una_in lo hi, a.wnd_new (omega arith))

-- An ACK with a number below `una`, such as the 0 that the handlers of a FIN pass, changes nothing, its
-- window included.
pub on_ack-old :
    (s : SendBuffer) (ack_num wnd_size now : ℕ)
    → ack_num < s.una
    → on_ack s ack_num wnd_size now ≡ ((s.una, s.nxt), s)
unfolding on_ack
on_ack-old s ack_num wnd_size now h = ground arith
