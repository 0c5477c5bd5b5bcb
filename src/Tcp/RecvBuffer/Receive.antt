-- ===== src/Tcp/RecvBuffer/Receive.antt =====
-- `onRecv` as a whole: every segment of the stream leaves a part of the stream in the buffer.
use tns.Common.{
  ℕ, ◌+◌, ◌-◌, ◌%◌, ◌^◌, ◌≤◌, ◌<◌, ◌≡◌, ◌⊎◌, inl, inr, refl, min, some, List, length, get_or, drop,
  arith, u32_mod, length-drop,
}
use native.Mathlib.Decide.{dec_lt}
use tns.Tcp.Intervals
use tns.Tcp.Intervals.{Interval, emplace_merge, merge_remove}
use tns.Tcp.Intervals.Absorb.{interval}
use tns.Tcp.Intervals.Spec.{IsSeparated, Covers}
use tns.Tcp.Intervals.Discard.{merge_remove-Covers}
use tns.Tcp.RecvBuffer.{RecvBuffer, size_free, get_ack_wnd, hold_early, advance, on_recv}
use tns.Tcp.Ring.Copy.{get_or-drop}
use tns.Tcp.RecvBuffer.Reassembly.{
  Holds, IsSegment, Wrote-stream, Stored, write-Stored, Receives, Holds-same, Covers-below,
  hold_early-Receives,
}

-- What `mergeRemove` returns is within the window.
last-inside :
    (l : List Interval) (seq_num e last hi : ℕ)
    → IsSeparated hi l
    → seq_num < e
    → e ≤ hi
    → ((n : ℕ) → seq_num ≤ n → n < last → Covers l n ⊎ (n < e))
    → last ≤ hi
last-inside l seq_num e last hi sep v k filled = elim (dec_lt e last) [
  | no near ↦ omega arith
  | yes far ↦
      let p : seq_num ≤ last - 1 = omega arith in
      let q : last - 1 < last = omega arith in
      elim (filled (last - 1) p q) [
        | inl c ↦ omega (arith, Covers-below 0 hi l (last - 1) sep c)
        | inr near ↦ omega arith
      ]
]

advance-Receives :
    (cap : ℕ) (stream : ℕ → ℕ) (s : RecvBuffer) (seq_num : ℕ) (payload : List ℕ)
    → let fresh = drop (s.nxt - seq_num) payload in
      Holds cap stream s
      → IsSegment stream s.nxt fresh
      → s.nbr ≤ seq_num
      → seq_num ≤ s.nxt
      → (st : Stored cap s fresh s.nxt)
      → Receives cap stream s seq_num payload (advance cap s seq_num st.n st.buf')
unfolding advance Intervals.make
advance-Receives cap stream s seq_num payload h seg lo hi st =
    let fresh = drop (s.nxt - seq_num) payload in
    let len = length-drop (s.nxt - seq_num) payload in
    let below = λ (n : ℕ) (c : Covers s.early_arrivals n).
      Covers-below 0 (s.nbr + cap) s.early_arrivals n h.separated c in
    elim (dec_lt 0 st.n) [
      | no nothing ↦ record {
        ack = get_ack_wnd cap s;
        s' = record s { buf = st.buf' };
        result = ground arith;
        holds =
            Holds-same cap stream s st.buf' h st.wrote.size
              (λ p lo hi q. ground (arith, st.same (omega arith), q)) below;
        acks = refl;
        reader = refl;
        progress = λ a k. ground (arith, st.full k, len);
        next = λ _. refl;
      }
      | yes more ↦
          let k : s.nxt + st.n ≤ s.nbr + cap = ground (arith, st.inside) in
          let fill =
            λ (p : ℕ) (lo : s.nbr ≤ p) (hi : p < s.nbr + cap)
                (q : ((s.nxt ≤ p) × (p < s.nxt + st.n)) ⊎ (get_or s.buf (p % cap) 0 ≡ stream p)).
              Wrote-stream cap s.buf fresh s.nxt st.n st.buf' stream p s.nbr h.some_room st.wrote
                seg st.count h.nbr_nxt k lo hi q in
          let v : seq_num < seq_num + st.n = omega arith in
          let fit : seq_num + st.n ≤ s.nbr + cap = omega arith in
          let r = merge_remove s.early_arrivals (interval seq_num (seq_num + st.n)) in
          let (last, e, sep, end_last, filled, bare, kept, sub, join) =
            merge_remove-Covers s.early_arrivals seq_num (seq_num + st.n) (s.nbr + cap) h.no_wrap
              h.separated v fit in
          let to : last ≤ s.nbr + cap =
            last-inside s.early_arrivals seq_num (seq_num + st.n) last (s.nbr + cap) h.separated v
              fit filled in
          record {
            ack = (last, (size_free cap s + 2 ^ 64 - st.n) % 2 ^ 64);
            s' = record s { buf = st.buf'; nxt = last; early_arrivals = r.1 };
            result = ground (arith, e);
            holds = record {
              some_room = h.some_room;
              size = st.wrote.size;
              nbr_nxt = omega (arith, end_last);
              within = to;
              no_wrap = h.no_wrap;
              separated = sep;
              beyond = λ n c. ground (arith, (kept n (omega (arith, h.beyond n (sub n c)))).0 c);
              ready = λ n from until. elim (dec_lt n s.nxt) [
                | yes old ↦ fill n from (omega (arith, h.within)) (inr (h.ready n from old))
                | no new ↦ elim (filled n (omega arith) until) [
                  | inl c ↦ fill n from (below n c) (inr (h.early n c))
                  | inr l ↦ fill n from (omega arith) (inl (omega arith, omega arith))
                ]
              ];
              early = λ n c.
                  let c' = sub n c in
                  fill n (omega (arith, h.beyond n c', h.nbr_nxt)) (below n c')
                    (inr (h.early n c'));
            };
            acks = refl;
            reader = refl;
            progress = λ a b. ground (arith, st.full b, len, end_last);
            next = λ a. absurd omega arith;
          }
    ]

pub on_recv-Receives :
    (cap : ℕ) (stream : ℕ → ℕ) (s : RecvBuffer) (seq_num : ℕ) (payload : List ℕ)
    → Holds cap stream s
    → IsSegment stream seq_num payload
    → 0 < length payload
    → (s.nbr ≤ seq_num) ⊎ (seq_num + length payload ≤ s.nxt)
    → seq_num + length payload < u32_mod
    → Receives cap stream s seq_num payload (on_recv cap s seq_num payload)
unfolding on_recv
on_recv-Receives cap stream s seq_num payload h seg some_byte lo fits =
    elim (dec_lt s.nxt seq_num) [
      | yes early ↦
          let st =
            write-Stored cap stream s payload seq_num h (omega (arith, h.nbr_nxt)) some_byte in
          let eq : on_recv cap s seq_num payload ≡ hold_early cap s seq_num st.n st.buf' =
            ground (arith, st.result) in
          rw eq (hold_early-Receives cap stream s seq_num payload h seg early fits st)
      | no in_order ↦ elim (dec_lt (s.nxt - seq_num) (length payload)) [
        | no old ↦
            let eq : on_recv cap s seq_num payload ≡ some (get_ack_wnd cap s, s) =
              ground (arith, h.no_wrap, h.within) in
            record {
              ack = get_ack_wnd cap s;
              s' = s;
              result = eq;
              holds = h;
              acks = refl;
              reader = refl;
              progress = λ a b. absurd (omega arith);
              next = λ a. absurd (omega arith);
            }
        | yes new ↦
            let fresh = drop (s.nxt - seq_num) payload in
            let len = length-drop (s.nxt - seq_num) payload in
            let st = write-Stored cap stream s fresh s.nxt h h.nbr_nxt (omega arith) in
            let eq : on_recv cap s seq_num payload ≡ advance cap s seq_num st.n st.buf' =
              ground (arith, st.result, h.no_wrap, h.within) in
            let seg' : IsSegment stream s.nxt fresh = λ i k. ground (
              arith,
              get_or-drop (s.nxt - seq_num) payload i,
              seg (s.nxt - seq_num + i) (omega arith),
            ) in
            rw eq
              (advance-Receives cap stream s seq_num payload h seg' (ground arith) (omega arith) st)
      ]
    ]

-- `onRecv` succeeds on a segment of the stream that is not empty and begins at or after the next byte
-- to read, or has nothing new. The buffer then still holds a part of the stream, and the ACK number
-- returned is its `nxt`.
pub on_recv-Holds :
    (cap : ℕ) (stream : ℕ → ℕ) (s : RecvBuffer) (seq_num : ℕ) (payload : List ℕ)
    → Holds cap stream s
    → IsSegment stream seq_num payload
    → 0 < length payload
    → (s.nbr ≤ seq_num) ⊎ (seq_num + length payload ≤ s.nxt)
    → seq_num + length payload < u32_mod
    → (ack : ℕ × ℕ) × (s' : RecvBuffer) × (on_recv cap s seq_num payload ≡ some (ack, s'))
      × (ack.0 ≡ s'.nxt)
      × Holds cap stream s'
on_recv-Holds cap stream s seq_num payload h seg some_byte lo fits =
    let z = on_recv-Receives cap stream s seq_num payload h seg some_byte lo fits in
    (z.ack, z.s', z.result, z.acks, z.holds)

-- On a segment that begins at `nxt`, with more than one byte of the window free, `onRecv` moves `nxt`
-- past all of its bytes that fit in the window.
pub on_recv-advances :
    (cap : ℕ) (stream : ℕ → ℕ) (s : RecvBuffer) (payload : List ℕ)
    → Holds cap stream s
    → IsSegment stream s.nxt payload
    → 0 < length payload
    → s.nxt + length payload < u32_mod
    → s.nxt + 1 < s.nbr + cap
    → (ack : ℕ × ℕ) × (s' : RecvBuffer) × (on_recv cap s s.nxt payload ≡ some (ack, s'))
      × (s.nxt + min (s.nbr + cap - s.nxt) (length payload) ≤ s'.nxt)
on_recv-advances cap stream s payload h seg some_byte fits room =
    let z = on_recv-Receives cap stream s s.nxt payload h seg some_byte (inl h.nbr_nxt) fits in
    (z.ack, z.s', z.result, z.progress refl room)
