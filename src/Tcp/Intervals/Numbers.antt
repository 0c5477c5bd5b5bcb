-- ===== src/Tcp/Intervals/Numbers.antt =====
-- What `absorb` does to the numbers that a list of intervals stands for.
use tns.Common.{
  ℕ, ◌+◌, ◌≤◌, ◌<◌, ◌≡◌, ◌⊎◌, refl, List, [], ◌∷◌, arith, Bool-cases, max, inl, inr, ltb, ltb→lt,
  ltb→le, true, false, subst,
}
use tns.Tcp.Intervals.{Interval}
use tns.Tcp.Intervals.Spec.{SeparatedFrom, Covers, absorb}
use tns.Tcp.Intervals.Absorb.{absorb-SeparatedFrom, absorb-cons}

pub Covers-ge :
    (lo hi : ℕ) (s : List Interval) (n : ℕ) → SeparatedFrom lo hi s → Covers s n → lo ≤ n
Covers-ge lo hi [] n h c = absurd c
Covers-ge lo hi (x ∷ s) n h (inl c) = omega arith
Covers-ge lo hi (x ∷ s) n h (inr c) = omega (arith, Covers-ge (x.end + 1) hi s n h.3 c)

pub absorb-apart :
    (x : Interval) (s : List Interval) (e : ℕ) → e < x.begin → absorb (x ∷ s) e ≡ (e, x ∷ s)
unfolding absorb
absorb-apart x s e h = ground arith

absorb-nil : {e : ℕ} → absorb [] e ≡ (e, [])
unfolding absorb
absorb-nil = refl

-- Every number of the list is kept or lies below the new end.
pub absorb-kept :
    (s : List Interval) (lo hi e n : ℕ)
    → SeparatedFrom lo hi s
    → e ≤ hi
    → Covers s n
    → Covers (absorb s e).1 n ⊎ (n < (absorb s e).0)
absorb-kept [] lo hi e n h k c = absurd c
absorb-kept (x ∷ s) lo hi e n h k c = elim (Bool-cases (ltb e x.begin)) [
  | inl t ↦ rw (absorb-apart x s e (ltb→lt e x.begin t)) (inl c)
  | inr t ↦
      rw (absorb-cons x s e (ltb→le e x.begin t))
        (go (absorb-kept s (x.end + 1) hi (max e x.end) n h.3 (omega arith)) c)
]
  where
    go :
        (Covers s n → Covers (absorb s (max e x.end)).1 n ⊎ (n < (absorb s (max e x.end)).0))
        → Covers (x ∷ s) n
        → Covers (absorb s (max e x.end)).1 n ⊎ (n < (absorb s (max e x.end)).0)
    go ih (inl q) =
        inr (omega (arith, absorb-SeparatedFrom s (x.end + 1) hi (max e x.end) h.3 (omega arith)))
    go ih (inr q) = ih q

-- What is kept was there, and lies beyond the new end.
pub absorb-beyond :
    (s : List Interval) (lo hi e n : ℕ)
    → SeparatedFrom lo hi s
    → Covers (absorb s e).1 n
    → Covers s n × ((absorb s e).0 < n)
absorb-beyond [] lo hi e n h c = absurd (rw absorb-nil at c)
absorb-beyond (x ∷ s) lo hi e n h c = elim (Bool-cases (ltb e x.begin)) [
  | inl t ↦ stop t
  | inr t ↦ next (absorb-beyond s (x.end + 1) hi (max e x.end) n h.3) t
]
  where
    stop : ltb e x.begin ≡ true → Covers (x ∷ s) n × ((absorb (x ∷ s) e).0 < n)
    stop t =
        let p = absorb-apart x s e (ltb→lt e x.begin t) in
        let c' : Covers (x ∷ s) n = subst (λ r. Covers r.1 n) p c in
        (
          c',
          rw p (
              omega (
                arith,
                Covers-ge x.begin hi (x ∷ s) n (omega arith, h.1, h.2, h.3) c',
                ltb→lt e x.begin t,
              )),
        )

    next :
        (Covers (absorb s (max e x.end)).1 n → Covers s n × ((absorb s (max e x.end)).0 < n))
        → ltb e x.begin ≡ false
        → Covers (x ∷ s) n × ((absorb (x ∷ s) e).0 < n)
    next ih t =
        let p = absorb-cons x s e (ltb→le e x.begin t) in
        let r = ih (subst (λ r. Covers r.1 n) p c) in (inr r.0, rw p r.1)

-- What is filled in beyond `e` was covered.
pub absorb-filled :
    (s : List Interval) (lo hi e n : ℕ)
    → SeparatedFrom lo hi s
    → e ≤ n
    → n < (absorb s e).0
    → Covers s n
absorb-filled [] lo hi e n h k l = absurd (omega (arith, rw absorb-nil at l))
absorb-filled (x ∷ s) lo hi e n h k l = elim (Bool-cases (ltb e x.begin)) [
  | inl t ↦ absurd (omega (arith, rw (absorb-apart x s e (ltb→lt e x.begin t)) at l))
  | inr t ↦ elim (Bool-cases (ltb n x.end)) [
    | inl q ↦ inl (omega (arith, ltb→le e x.begin t), ltb→lt n x.end q)
    | inr q ↦ inr (
        absorb-filled s (x.end + 1) hi (max e x.end) n h.3 (omega (arith, ltb→le n x.end q))
          (rw (absorb-cons x s e (ltb→le e x.begin t)) at l))
  ]
]

pub SeparatedFrom-weaken :
    (lo lo' hi : ℕ) (s : List Interval) → lo ≤ lo' → SeparatedFrom lo' hi s → SeparatedFrom lo hi s
SeparatedFrom-weaken lo lo' hi [] h k = tt
SeparatedFrom-weaken lo lo' hi (x ∷ s) h k = (omega arith, k.1, k.2, k.3)
