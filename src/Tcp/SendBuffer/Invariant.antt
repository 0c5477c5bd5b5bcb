-- ===== src/Tcp/SendBuffer/Invariant.antt =====
-- The pointers of `SendBuffer` stay in order and within one capacity of each other, and what each
-- operation does to the bytes between them.
use tns.Common.{
  ℕ, ◌+◌, ◌-◌, ◌≤◌, ◌<◌, ◌≡◌, refl, min, false, some, List, [], ◌++◌, length, take, arith, u32_mod,
}
use tns.Tcp.SocketError.{value}
use tns.Tcp.Ring
use tns.Tcp.Ring.Windows.{window}
use tns.Tcp.Ring.Access.{Wrote, write-Wrote}
use tns.Tcp.Ring.Contents.{window-Wrote_append}
use tns.Tcp.SendBuffer.{SendBuffer, size_unacked, size_not_sent, size_free, make, write_once}

-- `una <= nxt <= nbw <= una + N`, with no sequence number past the end of `uint32_t`.
pub record IsValid (cap : ℕ) (s : SendBuffer) : Type 0 where
  pub some_room : 0 < cap
  pub small : cap < u32_mod
  pub size : length s.buf ≡ cap
  pub una_nxt : s.una ≤ s.nxt
  pub nxt_nbw : s.nxt ≤ s.nbw
  pub within : s.nbw ≤ s.una + cap
  pub no_wrap : s.nbw < u32_mod
  pub window_fits : s.wnd < u32_mod

-- The bytes that are held: those in flight, then those not yet sent.
abbrev pub held : ℕ → SendBuffer → List ℕ
held cap s = window cap s.buf s.una (s.nbw - s.una)

abbrev pub in_flight : ℕ → SendBuffer → List ℕ
in_flight cap s = window cap s.buf s.una (s.nxt - s.una)

abbrev pub not_sent : ℕ → SendBuffer → List ℕ
not_sent cap s = window cap s.buf s.nxt (s.nbw - s.nxt)

pub sizes :
    (cap : ℕ) (s : SendBuffer)
    → IsValid cap s
    → (size_unacked s ≡ s.nxt - s.una)
      × (size_not_sent s ≡ s.nbw - s.nxt)
      × (size_free cap s ≡ cap - (s.nbw - s.una))
sizes cap s v = omega arith

pub make-IsValid :
    (cap isn wnd : ℕ) (buf : List ℕ)
    → 0 < cap
    → cap < u32_mod
    → length buf ≡ cap
    → isn < u32_mod
    → wnd < u32_mod
    → IsValid cap (make buf isn wnd) × (held cap (make buf isn wnd) ≡ [])
unfolding make
make-IsValid cap isn wnd buf p q r h k = ground arith

-- What a round of `write` leaves, when it stores `n` of the bytes.
pub record Takes (cap : ℕ) (s : SendBuffer) (bytes : List ℕ) (n : ℕ) (s' : SendBuffer)
    : Type 0 where
  pub count : n ≤ length bytes
  pub next : s'.nbw ≡ s.nbw + n
  pub una : s'.una ≡ s.una
  pub nxt : s'.nxt ≡ s.nxt
  pub wnd : s'.wnd ≡ s.wnd
  pub stopped : s'.stopped ≡ s.stopped
  pub holds : held cap s' ≡ held cap s ++ take n bytes
  pub waiting : not_sent cap s' ≡ not_sent cap s ++ take n bytes
  pub valid : IsValid cap s'

-- With more than one free byte, a round of `write` on a valid buffer that is not stopped takes as many
-- bytes as there are or fit, puts them behind those held, moves `nbw` by their number, changes none
-- of the other pointers and leaves the buffer valid.
pub write_once-Takes :
    (cap : ℕ) (s : SendBuffer) (bytes : List ℕ)
    → IsValid cap s
    → s.stopped ≡ false
    → s.nbw + length bytes < u32_mod
    → 1 < size_free cap s
    → let n = min (size_free cap s) (length bytes) in
      (s' : SendBuffer) × (write_once cap s bytes ≡ some (value n, s')) × Takes cap s bytes n s'
unfolding write_once
write_once-Takes cap s bytes v run fits free =
    let last = s.nbw + size_free cap s - 1 in
    let n = min (size_free cap s) (length bytes) in
    let sz = sizes cap s v in
    let (buf', e, w) = write-Wrote cap s.buf bytes s.nbw last v.size (omega arith) (omega arith) in
    let n' : min (last + 1 - s.nbw) (length bytes) ≡ n = omega arith in
    let e' : Ring.write cap s.buf bytes s.nbw last ≡ some (n, buf') = rw n' at e in
    let w' : Wrote cap s.buf bytes s.nbw n buf' = rw n' at w in
    (
      record s { buf = buf'; nbw = s.nbw + n },
      ground (arith, e', run),
      record {
        count = omega arith;
        next = refl;
        una = refl;
        nxt = refl;
        wnd = refl;
        stopped = refl;
        holds = ground (
          arith,
          window-Wrote_append cap s.buf bytes s.nbw n buf' s.una (s.nbw - s.una) (omega arith)
              (omega arith) (omega arith) w',
        );
        waiting = ground (
          arith,
          window-Wrote_append cap s.buf bytes s.nbw n buf' s.nxt (s.nbw - s.nxt) (omega arith)
              (omega arith) (omega arith) w',
        );
        valid = ground (arith, w'.size);
      },
    )
