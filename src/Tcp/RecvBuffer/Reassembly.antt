-- ===== src/Tcp/RecvBuffer/Reassembly.antt =====
-- The bytes that a `RecvBuffer` holds are those of the stream, in whatever order the segments come.
use tns.Common.{
  ℕ, ◌+◌, ◌-◌, ◌%◌, ◌≤◌, ◌<◌, ◌≡◌, ◌⊎◌, inl, inr, refl, min, Option, some, List, [], ◌∷◌, length,
  get_or, arith, u32_mod,
}
use native.Mathlib.Nat.{add-mod_right}
use native.Mathlib.Decide.{dec_lt}
use tns.Tcp.Ring
use tns.Tcp.Ring.Access.{Wrote, write-Wrote}
use tns.Tcp.Intervals
use tns.Tcp.Intervals.{Interval, emplace_merge, merge_remove}
use tns.Tcp.Intervals.Absorb.{interval}
use tns.Tcp.Intervals.Spec.{IsSeparated, SeparatedFrom, Covers}
use tns.Tcp.Intervals.Cover.{emplace_merge-Covers}
use tns.Tcp.RecvBuffer.{RecvBuffer, get_ack_wnd, hold_early}

-- `s` holds a part of the stream whose byte with sequence number `n` is `stream n`: all from `nbr`
-- to `nxt`, and beyond `nxt` those of the early arrivals.
pub record Holds (cap : ℕ) (stream : ℕ → ℕ) (s : RecvBuffer) : Type 0 where
  pub some_room : 0 < cap
  pub size : length s.buf ≡ cap
  pub nbr_nxt : s.nbr ≤ s.nxt
  pub within : s.nxt ≤ s.nbr + cap
  pub no_wrap : s.nbr + cap + 2 < u32_mod
  pub separated : IsSeparated (s.nbr + cap) s.early_arrivals
  pub beyond : (n : ℕ) → Covers s.early_arrivals n → s.nxt < n
  pub ready : (n : ℕ) → s.nbr ≤ n → n < s.nxt → get_or s.buf (n % cap) 0 ≡ stream n
  pub early : (n : ℕ) → Covers s.early_arrivals n → get_or s.buf (n % cap) 0 ≡ stream n

-- A segment of the stream.
abbrev pub IsSegment : (ℕ → ℕ) → ℕ → List ℕ → Type 0
IsSegment stream seq_num payload =
    (i : ℕ) → i < length payload → get_or payload i 0 ≡ stream (seq_num + i)

-- What a write of `n` bytes at `at` makes of each byte in the window.
pub Wrote-stream :
    (cap : ℕ) (buf bytes : List ℕ) (at n : ℕ) (buf' : List ℕ) (stream : ℕ → ℕ) (p nbr : ℕ)
    → 0 < cap
    → Wrote cap buf bytes at n buf'
    → IsSegment stream at bytes
    → n ≤ length bytes
    → nbr ≤ at
    → at + n ≤ nbr + cap
    → nbr ≤ p
    → p < nbr + cap
    → ((at ≤ p) × (p < at + n)) ⊎ (get_or buf (p % cap) 0 ≡ stream p)
    → get_or buf' (p % cap) 0 ≡ stream p
Wrote-stream cap buf bytes at n buf' stream p nbr h w seg le lo hi plo phi q = elim (dec_lt p at) [
  | yes below ↦
      let e : at + (p + cap - at) ≡ p + cap = omega arith in
      ground (arith, w.old (p + cap - at) (omega arith) (omega arith), e, add-mod_right p cap)
  | no above ↦
      let e : at + (p - at) ≡ p = omega arith in
      elim (dec_lt p (at + n)) [
        | yes inside ↦ ground (arith, w.new (p - at) (omega arith), e, seg (p - at) (omega arith))
        | no beyond ↦ ground (arith, w.old (p - at) (omega arith) (omega arith), e)
      ]
]

-- The write of `onRecv`, into what is left of the window.
pub record Stored (cap : ℕ) (s : RecvBuffer) (bytes : List ℕ) (at : ℕ) : Type 0 where
  pub n : ℕ
  pub buf' : List ℕ
  pub result : Ring.write cap s.buf bytes at (s.nbr + cap - 1) ≡ some (n, buf')
  pub count : n ≤ length bytes
  pub inside : at + n ≤ s.nbr + cap ⊎ (n ≡ 0)
  pub full : at + 1 < s.nbr + cap → n ≡ min (s.nbr + cap - at) (length bytes)
  pub wrote : Wrote cap s.buf bytes at n buf'
  pub same : n ≡ 0 → buf' ≡ s.buf

write-none :
    (cap : ℕ) (buf bytes : List ℕ) (at last : ℕ)
    → last ≤ at
    → Ring.write cap buf bytes at last ≡ some (0, buf)
unfolding Ring.write
write-none cap buf bytes at last h = ground arith

pub write-Stored :
    (cap : ℕ) (stream : ℕ → ℕ) (s : RecvBuffer) (bytes : List ℕ) (at : ℕ)
    → Holds cap stream s
    → s.nbr ≤ at
    → 0 < length bytes
    → Stored cap s bytes at
write-Stored cap stream s bytes at h lo more = elim (dec_lt at (s.nbr + cap - 1)) [
  | yes fits ↦
      let (buf', e, w) =
        write-Wrote cap s.buf bytes at (s.nbr + cap - 1) h.size fits (omega (arith, h.some_room)) in
      record {
        n = min (s.nbr + cap - 1 + 1 - at) (length bytes);
        buf' = buf';
        result = e;
        count = omega arith;
        inside = ground arith;
        full = λ _. ground (arith, h.some_room);
        wrote = w;
        same = λ k. absurd (omega arith);
      }
  | no full ↦ record {
    n = 0;
    buf' = s.buf;
    result = write-none cap s.buf bytes at (s.nbr + cap - 1) (omega arith);
    count = omega arith;
    inside = inr refl;
    full = λ k. absurd (omega arith);
    wrote = record { size = h.size; new = λ i k. absurd (omega arith); old = λ i k l. refl };
    same = λ k. refl;
  }
]

-- What `onRecv` returns and leaves.
pub record Receives (cap : ℕ) (stream : ℕ → ℕ) (s : RecvBuffer) (seq_num : ℕ) (payload : List ℕ)
    (o : Option ((ℕ × ℕ) × RecvBuffer)) : Type 0 where
  pub ack : ℕ × ℕ
  pub s' : RecvBuffer
  pub result : o ≡ some (ack, s')
  pub holds : Holds cap stream s'
  pub acks : ack.0 ≡ s'.nxt
  pub reader : s'.nbr ≡ s.nbr
  pub progress :
      seq_num ≡ s.nxt
      → s.nxt + 1 < s.nbr + cap
      → s.nxt + min (s.nbr + cap - s.nxt) (length payload) ≤ s'.nxt
  pub next : s.nxt < seq_num → s'.nxt ≡ s.nxt

pub Holds-same :
    (cap : ℕ) (stream : ℕ → ℕ) (s : RecvBuffer) (buf' : List ℕ)
    → Holds cap stream s
    → length buf' ≡ cap
    → ((p : ℕ)
        → s.nbr ≤ p
        → p < s.nbr + cap
        → get_or s.buf (p % cap) 0 ≡ stream p
        → get_or buf' (p % cap) 0 ≡ stream p)
    → ((n : ℕ) → Covers s.early_arrivals n → n < s.nbr + cap)
    → Holds cap stream (record s { buf = buf' })
Holds-same cap stream s buf' h size keep below = record {
  some_room = h.some_room;
  size = size;
  nbr_nxt = h.nbr_nxt;
  within = h.within;
  no_wrap = h.no_wrap;
  separated = h.separated;
  beyond = h.beyond;
  ready = λ n lo hi. keep n lo omega (arith, h.within) (h.ready n lo hi);
  early = λ n c. keep n omega (arith, h.beyond n c, h.nbr_nxt) (below n c) (h.early n c);
}

pub Covers-below :
    (lo hi : ℕ) (l : List Interval) (n : ℕ) → SeparatedFrom lo hi l → Covers l n → n < hi
Covers-below lo hi [] n sep c = elim c [ ]
Covers-below lo hi (x ∷ xs) n sep c =
    let (from, some_byte, to, rest) = sep in
    elim c [ inl here ↦ omega arith | inr there ↦ Covers-below (x.end + 1) hi xs n rest there ]

pub hold_early-Receives :
    (cap : ℕ) (stream : ℕ → ℕ) (s : RecvBuffer) (seq_num : ℕ) (payload : List ℕ)
    → Holds cap stream s
    → IsSegment stream seq_num payload
    → s.nxt < seq_num
    → seq_num + length payload < u32_mod
    → (st : Stored cap s payload seq_num)
    → Receives cap stream s seq_num payload (hold_early cap s seq_num st.n st.buf')
unfolding hold_early Intervals.make
hold_early-Receives cap stream s seq_num payload h seg early fits st =
    let below = λ (n : ℕ) (c : Covers s.early_arrivals n).
      Covers-below 0 (s.nbr + cap) s.early_arrivals n h.separated c in
    let fill =
      λ (p : ℕ) (lo : s.nbr ≤ p) (hi : p < s.nbr + cap) (l : s.nbr ≤ seq_num)
          (k : seq_num + st.n ≤ s.nbr + cap)
          (q : ((seq_num ≤ p) × (p < seq_num + st.n)) ⊎ (get_or s.buf (p % cap) 0 ≡ stream p)).
        Wrote-stream cap s.buf payload seq_num st.n st.buf' stream p s.nbr h.some_room st.wrote seg
          st.count l k lo hi q in
    elim (dec_lt 0 st.n) [
      | no nothing ↦ record {
        ack = get_ack_wnd cap s;
        s' = record s { buf = st.buf' };
        result = ground arith;
        holds =
            Holds-same cap stream s st.buf' h st.wrote.size
              (λ p lo hi q. ground (arith, st.same (omega arith), q)) below;
        acks = refl;
        reader = refl;
        progress = λ a. absurd omega arith;
        next = λ _. refl;
      }
      | yes more ↦
          let k : seq_num + st.n ≤ s.nbr + cap = ground (arith, st.inside) in
          let l : s.nbr ≤ seq_num = omega (arith, h.nbr_nxt) in
          let (last, e, sep, covers, rest, _, _) =
            emplace_merge-Covers s.early_arrivals seq_num (seq_num + st.n) (s.nbr + cap) h.no_wrap
              h.separated (omega arith) k in
          record {
            ack = get_ack_wnd cap s;
            s' = record s {
              buf = st.buf';
              early_arrivals =
                  (emplace_merge s.early_arrivals (interval seq_num (seq_num + st.n))).1;
            };
            result = ground (arith, e);
            holds = record {
              some_room = h.some_room;
              size = st.wrote.size;
              nbr_nxt = h.nbr_nxt;
              within = h.within;
              no_wrap = h.no_wrap;
              separated = sep;
              beyond =
                  λ n c. elim ((covers n).0 c) [ inl old ↦ h.beyond n old | inr new ↦ omega arith ];
              ready = λ n lo hi. fill n lo omega (arith, h.within) l k (inr (h.ready n lo hi));
              early = λ n c. elim ((covers n).0 c) [
                | inl old ↦
                    fill n omega (arith, h.beyond n old, h.nbr_nxt) (below n old) l k
                      (inr (h.early n old))
                | inr new ↦ fill n omega arith omega arith l k (inl new)
              ];
            };
            acks = refl;
            reader = refl;
            progress = λ a. absurd omega arith;
            next = λ _. refl;
          }
    ]
