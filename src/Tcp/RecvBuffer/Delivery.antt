-- ===== src/Tcp/RecvBuffer/Delivery.antt =====
-- What a reader of a `RecvBuffer` gets, over any sequence of segments and reads.
use tns.Common.{
  ℕ, zero, suc, ◌+◌, ◌-◌, ◌%◌, ◌≤◌, ◌<◌, ◌≡◌, ◌⊎◌, refl, ap, ap₂, subst, ◌∙◌, min, false, some,
  List, [], ◌∷◌, ◌++◌, length, get_or, arith, u32_mod,
}
use tns.Tcp.SocketError.{value}
use tns.Tcp.Ring
use tns.Tcp.Ring.Windows.{window}
use tns.Tcp.Ring.Access.{read-window}
use tns.Tcp.Intervals.{Interval}
use tns.Tcp.Intervals.Spec.{SeparatedFrom}
use tns.Tcp.RecvBuffer.{RecvBuffer, make, size_to_read, read_at_most, on_recv}
use tns.Tcp.RecvBuffer.Reassembly.{Holds, IsSegment}
use tns.Tcp.RecvBuffer.Receive.{on_recv-Receives}

-- The `n` bytes of the stream from the sequence number `at` on.
abbrev pub stream_bytes : (ℕ → ℕ) → ℕ → ℕ → List ℕ
stream_bytes stream at zero = []
stream_bytes stream at (suc n) = stream at ∷ stream_bytes stream (at + 1) n

stream_bytes-add :
    (stream : ℕ → ℕ) (at m n : ℕ)
    → stream_bytes stream at (m + n) ≡ stream_bytes stream at m ++ stream_bytes stream (at + m) n
stream_bytes-add stream at zero n = ground arith
stream_bytes-add stream at (suc m) n =
    let e : suc m + n ≡ suc (m + n) = omega arith in
    let f : at + 1 + m ≡ at + suc m = omega arith in
    rw e (
      ap (λ l. stream at ∷ l)
        (stream_bytes-add stream (at + 1) m n
          ∙ ap (λ k. stream_bytes stream (at + 1) m ++ stream_bytes stream k n) f))

window-stream :
    (cap : ℕ) (buf : List ℕ) (stream : ℕ → ℕ) (at n : ℕ)
    → ((p : ℕ) → at ≤ p → p < at + n → get_or buf (p % cap) 0 ≡ stream p)
    → window cap buf at n ≡ stream_bytes stream at n
window-stream cap buf stream at zero h = refl
window-stream cap buf stream at (suc n) h =
    ap₂ ◌∷◌ (h at (omega arith) (omega arith))
      (window-stream cap buf stream (at + 1) n (λ p lo hi. h p (omega arith) (omega arith)))

SeparatedFrom-mono :
    (lo hi hi' : ℕ) (l : List Interval) → hi ≤ hi' → SeparatedFrom lo hi l → SeparatedFrom lo hi' l
SeparatedFrom-mono lo hi hi' [] k sep = sep
SeparatedFrom-mono lo hi hi' (x ∷ xs) k sep =
    let (a, b, c, d) = sep in (a, b, omega arith, SeparatedFrom-mono (x.end + 1) hi hi' xs k d)

pub make-Holds :
    (cap isn : ℕ) (buf : List ℕ) (stream : ℕ → ℕ)
    → 0 < cap
    → length buf ≡ cap
    → isn + cap + 2 < u32_mod
    → Holds cap stream (make buf isn)
unfolding make
make-Holds cap isn buf stream a b c = record {
  some_room = a;
  size = b;
  nbr_nxt = omega arith;
  within = omega arith;
  no_wrap = c;
  separated = tt;
  beyond = λ n h. elim h [ ];
  ready = λ n lo hi. absurd (omega arith);
  early = λ n h. elim h [ ];
}

-- With data to read, a buffer that holds a part of the stream and is not stopped returns the next
-- bytes of the stream, `n` of them or as many as there are, and moves `nbr` past them.
pub read_at_most-delivers :
    (cap : ℕ) (stream : ℕ → ℕ) (s : RecvBuffer) (room n : ℕ)
    → Holds cap stream s
    → s.stopped ≡ false
    → 0 < n
    → n ≤ room
    → s.nbr < s.nxt
    → s.nxt + cap + 2 < u32_mod
    → let k = min n (s.nxt - s.nbr) in
      (read_at_most cap s room n
        ≡ some (value (stream_bytes stream s.nbr k), record s { nbr = s.nbr + k }))
      × Holds cap stream (record s { nbr = s.nbr + k })
unfolding read_at_most
read_at_most-delivers cap stream s room n h run some_n fits some_byte no_wrap =
    let k = min n (s.nxt - s.nbr) in
    let to_read : size_to_read s ≡ s.nxt - s.nbr = omega (arith, h.no_wrap, h.within) in
    let m : min (s.nbr + k - 1 + 1 - s.nbr) room ≡ k = omega arith in
    let fetch : Ring.read cap s.buf room s.nbr (s.nbr + k - 1)
        ≡ some (k, window cap s.buf s.nbr k) =
      rw m at (
        read-window cap s.buf room s.nbr (s.nbr + k - 1) h.size (omega arith)
          (omega (arith, h.within))) in
    let bytes = window-stream cap s.buf stream s.nbr k (λ p lo hi. h.ready p lo omega arith) in
    (
      ground (arith, to_read, fetch, bytes, run, no_wrap, h.within),
      record {
        some_room = h.some_room;
        size = h.size;
        nbr_nxt = omega arith;
        within = omega (arith, h.within);
        no_wrap = omega arith;
        separated =
            SeparatedFrom-mono 0 (s.nbr + cap) (s.nbr + k + cap) s.early_arrivals (omega arith)
              h.separated;
        beyond = h.beyond;
        ready = λ p lo hi. h.ready p omega arith hi;
        early = h.early;
      },
    )

-- `Run cap stream s bytes s'`: from `s` to `s'` by segments of the stream, in any order and as often
-- as they like, and by reads, which returned `bytes`. Sequence numbers stay below 2 ^ 32, and a
-- segment that begins before the next byte to read brings nothing new.
pub data Run (cap : ℕ) (stream : ℕ → ℕ) (s : RecvBuffer) : List ℕ → RecvBuffer → Type 0 where
  start : Run cap stream s [] s
  received :
      (bytes payload : List ℕ) (seq_num : ℕ) (ack : ℕ × ℕ) (s1 s2 : RecvBuffer)
      → Run cap stream s bytes s1
      → IsSegment stream seq_num payload
      → 0 < length payload
      → (s1.nbr ≤ seq_num) ⊎ (seq_num + length payload ≤ s1.nxt)
      → seq_num + length payload < u32_mod
      → on_recv cap s1 seq_num payload ≡ some (ack, s2)
      → Run cap stream s bytes s2
  delivered :
      (bytes more : List ℕ) (room n : ℕ) (s1 s2 : RecvBuffer)
      → Run cap stream s bytes s1
      → 0 < n
      → n ≤ room
      → s1.nxt + cap + 2 < u32_mod
      → read_at_most cap s1 room n ≡ some (value more, s2)
      → Run cap stream s (bytes ++ more) s2

pub read_at_most-running :
    (cap : ℕ) (s s' : RecvBuffer) (room n : ℕ) (bytes : List ℕ)
    → 0 < n
    → read_at_most cap s room n ≡ some (value bytes, s')
    → (s.stopped ≡ false) × (0 < size_to_read s)
unfolding read_at_most
read_at_most-running cap s s' room n bytes some_n e = ground arith

-- Whatever the order of the segments and reads of a run from a buffer that holds a part of the stream,
-- the bytes that the reads returned are those of the stream from the first `nbr` to the last one, in
-- order and once each, and the buffer still holds a part of the stream.
pub Run-delivers :
    (cap : ℕ) (stream : ℕ → ℕ) (s s' : RecvBuffer) (bytes : List ℕ)
    → Holds cap stream s
    → Run cap stream s bytes s'
    → (s.nbr ≤ s'.nbr) × (bytes ≡ stream_bytes stream s.nbr (s'.nbr - s.nbr)) × Holds cap stream s'
Run-delivers cap stream s _ _ h start = (omega arith, ground arith, h)
Run-delivers cap stream s _ _ h
      (received bytes payload seq_num ack s1 s2 r seg some_byte lo fits e) =
    let (le, same, h1) = Run-delivers cap stream s s1 bytes h r in
    let z = on_recv-Receives cap stream s1 seq_num payload h1 seg some_byte lo fits in
    let eq : z.s' ≡ s2 = ground (arith, z.result, e) in
    (
      ground (arith, z.reader, eq),
      ground (arith, z.reader, eq, same),
      subst (Holds cap stream) eq z.holds,
    )
Run-delivers cap stream s _ _ h (delivered bytes more room n s1 s2 r some_n fits no_wrap e) =
    let (le, same, h1) = Run-delivers cap stream s s1 bytes h r in
    let (run, ready) = read_at_most-running cap s1 s2 room n more some_n e in
    let k = min n (s1.nxt - s1.nbr) in
    let some_byte : s1.nbr < s1.nxt = omega (arith, h1.no_wrap, h1.within, h1.nbr_nxt) in
    let (e', h2) =
      read_at_most-delivers cap stream s1 room n h1 run some_n fits some_byte no_wrap in
    let eq : (stream_bytes stream s1.nbr k ≡ more) × (record s1 { nbr = s1.nbr + k } ≡ s2) =
      ground (arith, e, e') in
    let nbr : s2.nbr ≡ s1.nbr + k = ground (arith, eq) in
    let split = stream_bytes-add stream s.nbr (s1.nbr - s.nbr) k in
    let a : s.nbr + (s1.nbr - s.nbr) ≡ s1.nbr = omega arith in
    let b : s1.nbr - s.nbr + k ≡ s2.nbr - s.nbr = omega arith in
    (omega arith, ground (arith, same, eq, split, a, b), subst (Holds cap stream) eq.1 h2)
