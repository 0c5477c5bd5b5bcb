-- ===== src/Tcp/Transfer/Prefix.antt =====
-- What a reader gets is what was written at the other end, in order.
use tns.Common.{
  ℕ, zero, suc, ◌+◌, ◌-◌, ◌≤◌, ◌<◌, ◌≡◌, ◌⊎◌, refl, sym, ap, ap₂, ◌∙◌, some, List, [], ◌∷◌, ◌++◌,
  length, get_or, take, drop, take-append-drop, length-append, arith, u32_mod,
}
use mathlib.Core.List.{append_assoc}
use tns.Tcp.SocketError.{value}
use tns.Tcp.SendBuffer.{SendBuffer}
use tns.Tcp.SendBuffer.Invariant.{IsValid, not_sent}
use tns.Tcp.SendBuffer.Run.{Run, Run-Streams}
use tns.Tcp.RecvBuffer.{RecvBuffer, make, on_recv, read_at_most}
use tns.Tcp.RecvBuffer.Reassembly.{IsSegment}
use tns.Tcp.RecvBuffer.Delivery
use tns.Tcp.RecvBuffer.Delivery.{stream_bytes, make-Holds, Run-delivers}
use tns.Tcp.Transfer.{IsEmitted, emitted-Stands}

-- `Transfer cap P s bytes s'`: from `s` to `s'` by packets of `P`, in any order and as often as they
-- like, and by reads, which returned `bytes`. A packet that begins before the next byte to read brings
-- nothing new.
pub data Transfer (cap : ℕ) (P : ℕ → List ℕ → Type 0) (s : RecvBuffer)
    : List ℕ → RecvBuffer → Type 0 where
  start : Transfer cap P s [] s
  received :
      (bytes payload : List ℕ) (seq_num : ℕ) (ack : ℕ × ℕ) (s1 s2 : RecvBuffer)
      → Transfer cap P s bytes s1
      → P seq_num payload
      → (s1.nbr ≤ seq_num) ⊎ (seq_num + length payload ≤ s1.nxt)
      → on_recv cap s1 seq_num payload ≡ some (ack, s2)
      → Transfer cap P s bytes s2
  delivered :
      (bytes more : List ℕ) (room n : ℕ) (s1 s2 : RecvBuffer)
      → Transfer cap P s bytes s1
      → 0 < n
      → n ≤ room
      → s1.nxt + cap + 2 < u32_mod
      → read_at_most cap s1 room n ≡ some (value more, s2)
      → Transfer cap P s (bytes ++ more) s2

-- The bytes `xs` from `base` on, and `d` beyond their end.
abbrev padded : List ℕ → ℕ → ℕ → ℕ → ℕ
padded xs base d p = get_or xs (p - base) d

get_or-first :
    (payload after : List ℕ) (i d : ℕ)
    → i < length payload
    → get_or payload i 0 ≡ get_or (payload ++ after) i d
get_or-first [] after i d h = absurd (omega arith)
get_or-first (x ∷ xs) after zero d h = refl
get_or-first (x ∷ xs) after (suc i) d h = get_or-first xs after i d (omega arith)

get_or-inside :
    (before payload after : List ℕ) (i d : ℕ)
    → i < length payload
    → get_or payload i 0 ≡ get_or (before ++ (payload ++ after)) (length before + i) d
get_or-inside [] payload after i d h =
    let e : 0 + i ≡ i = omega arith in rw e (get_or-first payload after i d h)
get_or-inside (y ∷ ys) payload after i d h =
    let e : suc (length ys) + i ≡ suc (length ys + i) = omega arith in
    rw e (get_or-inside ys payload after i d h)

-- What has been sent is part of what has been written, with nothing waiting at first.
module _ (cap : ℕ) (s s' : SendBuffer) (written sent : List ℕ) (v : IsValid cap s)
    (fresh : s.nxt ≡ s.nbw) (r : Run cap s written sent s') where
  written_all : written ≡ sent ++ not_sent cap s'
  written_all =
      let z = Run-Streams cap s s' written sent v r in
      let none_left : s.nbw - s.nxt ≡ 0 = omega arith in ground (arith, z.fifo, none_left)

  emitted-IsSegment :
      (d seq : ℕ) (payload : List ℕ)
      → IsEmitted r seq payload
      → IsSegment (padded written s.nxt d) seq payload
  emitted-IsSegment d seq payload e i h =
      let z = emitted-Stands cap s s' written sent seq payload v r e in
      let at : seq + i - s.nxt ≡ length z.before + i = omega (arith, z.at) in
      let all : written ≡ z.before ++ (payload ++ (z.after ++ not_sent cap s')) =
        written_all
        ∙ ap (λ xs. xs ++ not_sent cap s') z.within
        ∙ append_assoc z.before (payload ++ z.after) (not_sent cap s')
        ∙ ap (λ xs. z.before ++ xs) (append_assoc payload z.after (not_sent cap s')) in
      rw (at, all) (get_or-inside z.before payload (z.after ++ not_sent cap s') i d h)

  emitted-fits :
      (seq : ℕ) (payload : List ℕ)
      → IsEmitted r seq payload
      → (0 < length payload) × (seq + length payload < u32_mod)
  emitted-fits seq payload e =
      let z = emitted-Stands cap s s' written sent seq payload v r e in
      let y = Run-Streams cap s s' written sent v r in
      let len : length sent ≡ length z.before + (length payload + length z.after) =
        ap length z.within
        ∙ length-append z.before (payload ++ z.after)
        ∙ ap (λ n. length z.before + n) (length-append payload z.after) in
      (z.some_byte, omega (arith, y.valid.nxt_nbw, y.valid.no_wrap, y.next, len, z.at))

  Transfer-Run :
      (rcap d : ℕ) (b b' : RecvBuffer) (bytes : List ℕ)
      → Transfer rcap (IsEmitted r) b bytes b'
      → Delivery.Run rcap (padded written s.nxt d) b bytes b'
  Transfer-Run rcap d b _ _ start = Delivery.start
  Transfer-Run rcap d b _ _ (received bytes payload seq ack b1 b2 t e lo h) =
      let (some_byte, fits) = emitted-fits seq payload e in
      Delivery.received bytes payload seq ack b1 b2 (Transfer-Run rcap d b b1 bytes t)
        (emitted-IsSegment d seq payload e) some_byte lo fits h
  Transfer-Run rcap d b _ _ (delivered bytes more room n b1 b2 t some_n fits no_wrap h) =
      Delivery.delivered bytes more room n b1 b2 (Transfer-Run rcap d b b1 bytes t) some_n fits
        no_wrap h

-- The first `k` elements, with `d` for those that are missing.
abbrev pad : ℕ → ℕ → List ℕ → List ℕ
pad d zero xs = []
pad d (suc k) [] = d ∷ pad d k []
pad d (suc k) (x ∷ xs) = x ∷ pad d k xs

stream_bytes-pad :
    (f : ℕ → ℕ) (at k d : ℕ) (xs : List ℕ)
    → ((i : ℕ) → i < k → f (at + i) ≡ get_or xs i d)
    → stream_bytes f at k ≡ pad d k xs
stream_bytes-pad f at zero d xs h = refl
stream_bytes-pad f at (suc k) d [] h =
    let e : at + 0 ≡ at = omega arith in
    ap₂ ◌∷◌ (ap f (sym e) ∙ h 0 (omega arith)) (
      stream_bytes-pad f (at + 1) k d []
        (λ i lt. let g : at + 1 + i ≡ at + suc i = omega arith in ap f g ∙ h (suc i) (omega arith)))
stream_bytes-pad f at (suc k) d (x ∷ xs) h =
    let e : at + 0 ≡ at = omega arith in
    ap₂ ◌∷◌ (ap f (sym e) ∙ h 0 (omega arith)) (
      stream_bytes-pad f (at + 1) k d xs
        (λ i lt. let g : at + 1 + i ≡ at + suc i = omega arith in ap f g ∙ h (suc i) (omega arith)))

-- If it makes no difference what is missing, nothing is.
pad-take : (k : ℕ) (xs : List ℕ) → pad 0 k xs ≡ pad 1 k xs → pad 0 k xs ≡ take k xs
pad-take zero xs h = refl
pad-take (suc k) [] h = absurd (ground (arith, h))
pad-take (suc k) (x ∷ xs) h = ap (λ ys. x ∷ ys) (pad-take k xs (ground (arith, h)))

-- The bytes read are the same, whatever the stream has beyond what was written: they are written ones.
stream_bytes-padded :
    (xs : List ℕ) (base k d : ℕ) → stream_bytes (padded xs base d) base k ≡ pad d k xs
stream_bytes-padded xs base k d =
    stream_bytes-pad (padded xs base d) base k d xs
      (λ i lt. let e : base + i - base ≡ i = omega arith in rw e refl)

-- Whatever the network loses, repeats or reorders of the packets that a run of a `SendBuffer` with
-- nothing waiting at first has sent, the bytes that the reads of the new `RecvBuffer` at the other end
-- return are the first of those written, in their order and once each. Sequence numbers stay below
-- 2 ^ 32, and a packet that begins before the next byte to read brings nothing new.
pub Transfer-delivers :
    (cap rcap : ℕ) (s s' : SendBuffer) (written sent : List ℕ) (buf : List ℕ) (bytes : List ℕ)
    (b : RecvBuffer)
    → IsValid cap s
    → s.nxt ≡ s.nbw
    → (r : Run cap s written sent s') → 0 < rcap
    → length buf ≡ rcap
    → s.nxt + rcap + 2 < u32_mod
    → Transfer rcap (IsEmitted r) (make buf s.nxt) bytes b
    → (rest : List ℕ) × (bytes ++ rest ≡ written)
unfolding make
Transfer-delivers cap rcap s s' written sent buf bytes b v fresh r some_room size fits t =
    let got = λ (d : ℕ).
      Run-delivers rcap (padded written s.nxt d) (make buf s.nxt) b bytes
        (make-Holds rcap s.nxt buf (padded written s.nxt d) some_room size fits)
        (Transfer-Run cap s s' written sent v fresh r rcap d (make buf s.nxt) b bytes t) in
    let k = b.nbr - s.nxt in
    let as_padded : (d : ℕ) → bytes ≡ pad d k written =
      λ d. (got d).1 ∙ stream_bytes-padded written s.nxt k d in
    let first : bytes ≡ take k written =
      as_padded 0 ∙ pad-take k written (sym (as_padded 0) ∙ as_padded 1) in
    (drop k written, rw first (take-append-drop k written))
