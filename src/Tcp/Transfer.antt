-- ===== src/Tcp/Transfer.antt =====
-- lib/include/tcp/buffers.hpp: the `SendBuffer` of one end of a connection and the `RecvBuffer` of the
-- other, with a network in between that loses, repeats and reorders packets.
pub mod Prefix
use tns.Common.{
  ℕ, zero, suc, ◌+◌, ◌-◌, ◌≤◌, ◌<◌, ◌≡◌, ◌⊎◌, inl, inr, refl, sym, ap, subst, ◌∙◌, some, List, [],
  ◌∷◌, ◌++◌, length, get_or, take, drop, take-append-drop, length-append, arith, u32_mod,
}
use mathlib.Core.List.{append_assoc, append-nil}
use tns.Tcp.SocketError.{value}
use tns.Tcp.SendBuffer.{SendBuffer}
use tns.Tcp.SendBuffer.Invariant.{IsValid, not_sent}
use tns.Tcp.SendBuffer.Run.{
  Run, start, written_to, sent_from, acked, paused, counted_down, probed_from, Streams, Run-Streams,
  send-Sends, send-some,
}
use tns.Tcp.SendBuffer.Probe.{zwp_countdown-Sends}
use tns.Tcp.RecvBuffer.{RecvBuffer, make, on_recv, read_at_most}
use tns.Tcp.RecvBuffer.Reassembly.{Holds, IsSegment}
use tns.Tcp.RecvBuffer.Delivery
use tns.Tcp.RecvBuffer.Delivery.{stream_bytes, make-Holds, Run-delivers}

-- A packet of this number and payload has been sent in a run. A retransmission is the same packet.
unfoldable pub IsEmitted :
    {cap : ℕ} {s s' : SendBuffer} {written sent : List ℕ}
    → Run cap s written sent s'
    → ℕ
    → List ℕ
    → Type 0
IsEmitted start seq payload = ⊥
IsEmitted (written_to _ _ _ _ _ _ r _ _) seq payload = IsEmitted r seq payload
IsEmitted (sent_from _ _ bytes _ at _ _ r _ _) seq payload =
    ((at ≡ seq) × (bytes ≡ payload)) ⊎ IsEmitted r seq payload
IsEmitted (acked _ _ _ _ _ _ r _) seq payload = IsEmitted r seq payload
IsEmitted (paused _ _ _ r) seq payload = IsEmitted r seq payload
IsEmitted (counted_down _ _ _ _ _ r _) seq payload = IsEmitted r seq payload
IsEmitted (probed_from _ _ _ at byte _ _ r _) seq payload =
    ((at ≡ seq) × (byte ∷ [] ≡ payload)) ⊎ IsEmitted r seq payload

-- Where a packet's bytes stand among those sent.
record Stands (base : ℕ) (sent : List ℕ) (seq : ℕ) (payload : List ℕ) : Type 0 where
  before : List ℕ
  after : List ℕ
  within : sent ≡ before ++ (payload ++ after)
  at : seq ≡ base + length before
  some_byte : 0 < length payload

Stands-more :
    (base : ℕ) (sent more : List ℕ) (seq : ℕ) (payload : List ℕ)
    → Stands base sent seq payload
    → Stands base (sent ++ more) seq payload
Stands-more base sent more seq payload z = record {
  before = z.before;
  after = z.after ++ more;
  within =
      ap (λ xs. xs ++ more) z.within
      ∙ append_assoc z.before (payload ++ z.after) more
      ∙ ap (λ xs. z.before ++ xs) (append_assoc payload z.after more);
  at = z.at;
  some_byte = z.some_byte;
}

Stands-last :
    (base : ℕ) (sent : List ℕ) (seq : ℕ) (payload : List ℕ)
    → seq ≡ base + length sent
    → 0 < length payload
    → Stands base (sent ++ payload) seq payload
Stands-last base sent seq payload h k = record {
  before = sent;
  after = [];
  within = ap (λ xs. sent ++ xs) (sym (append-nil payload));
  at = h;
  some_byte = k;
}

emitted-Stands :
    (cap : ℕ) (s s' : SendBuffer) (written sent : List ℕ) (seq : ℕ) (payload : List ℕ)
    → IsValid cap s
    → (r : Run cap s written sent s') → IsEmitted r seq payload
    → Stands s.nxt sent seq payload
unfolding IsEmitted
emitted-Stands cap s _ _ _ seq payload v start e = absurd e
emitted-Stands cap s _ _ _ seq payload v (written_to w t bytes n s1 s2 r fits h) e =
    emitted-Stands cap s s1 w t seq payload v r e
emitted-Stands cap s _ _ _ seq payload v (sent_from w t bytes room at s1 s2 r some_room h) e =
    elim e [
      | inl (p, q) ↦
          let z = Run-Streams cap s s1 w t v r in
          let (a, len, sends) = send-Sends cap s1 s2 room at bytes z.valid some_room h in
          let some_byte = send-some cap s1 s2 room at bytes z.valid some_room h in
          subst (λ x. Stands s.nxt (t ++ bytes) seq x) q
            (Stands-last s.nxt t seq bytes (ground (arith, p, a, z.next)) some_byte)
      | inr k ↦
          Stands-more s.nxt t bytes seq payload (emitted-Stands cap s s1 w t seq payload v r k)
    ]
emitted-Stands cap s _ _ _ seq payload v (acked w t a b c s1 r h) e =
    emitted-Stands cap s s1 w t seq payload v r e
emitted-Stands cap s _ _ _ seq payload v (paused w t s1 r) e =
    emitted-Stands cap s s1 w t seq payload v r e
emitted-Stands cap s _ _ _ seq payload v (counted_down w t timed_out s1 s2 r h) e =
    emitted-Stands cap s s1 w t seq payload v r e
emitted-Stands cap s _ _ _ seq payload v (probed_from w t timed_out at byte s1 s2 r h) e = elim e [
  | inl (p, q) ↦
      let z = Run-Streams cap s s1 w t v r in
      let (a, sends) = zwp_countdown-Sends cap s1 s2 timed_out at byte z.valid h in
      subst (λ x. Stands s.nxt (t ++ byte ∷ []) seq x) q
        (Stands-last s.nxt t seq (byte ∷ []) (ground (arith, p, a, z.next)) (omega arith))
  | inr k ↦
      Stands-more s.nxt t (byte ∷ []) seq payload (emitted-Stands cap s s1 w t seq payload v r k)
]
