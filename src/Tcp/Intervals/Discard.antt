-- ===== src/Tcp/Intervals/Discard.antt =====
-- What `mergeRemove` does to the numbers that the set stands for.
use tns.Common.{
  ℕ, ◌+◌, ◌≤◌, ◌<◌, ◌≡◌, ◌⊎◌, ◌↔◌, refl, some, List, [], ◌∷◌, arith, Bool-cases, u32_mod, inl, inr,
  ltb, ltb→lt, ltb→le,
}
use tns.Tcp.Intervals.{Interval, merge_remove}
use tns.Tcp.Intervals.Spec.{SeparatedFrom, IsSeparated, Covers, absorb, remove_with}
use tns.Tcp.Intervals.Absorb.{interval, absorb-SeparatedFrom}
use tns.Tcp.Intervals.Remove.{merge_remove-remove_with}
use tns.Tcp.Intervals.Numbers.{
  Covers-ge, absorb-kept, absorb-beyond, absorb-filled, absorb-apart, SeparatedFrom-weaken,
}

remove_with-near :
    (x : Interval) (xs : List Interval) (b e : ℕ)
    → x.end < b
    → let r = remove_with xs b e in remove_with (x ∷ xs) b e ≡ (r.0, x ∷ r.1)
unfolding remove_with
remove_with-near x xs b e h = ground arith

remove_with-meets :
    (x : Interval) (xs : List Interval) (b e : ℕ)
    → b ≤ x.end
    → remove_with (x ∷ xs) b e ≡ absorb (x ∷ xs) e
unfolding remove_with
remove_with-meets x xs b e h = ground arith

-- What `remove_with` promises of its result.
record Removes (s : List Interval) (lo hi b e : ℕ) (r : ℕ × List Interval) : Type 0 where
  separated : SeparatedFrom lo hi r.1
  last : e ≤ r.0
  within : (n : ℕ) → Covers r.1 n → Covers s n
  above : (n : ℕ) → b ≤ n → Covers r.1 n ↔ (Covers s n × (r.0 < n))
  filled : (n : ℕ) → b ≤ n → n < r.0 → Covers s n ⊎ (n < e)
  open_end : ¬ Covers s r.0
  joined : (n m : ℕ) → Covers s n → n ≤ m → m < b → Covers r.1 n ⊎ Covers s m

Removes-near :
    (x : Interval) (xs : List Interval) (lo hi b e : ℕ) (r : ℕ × List Interval)
    → SeparatedFrom lo hi (x ∷ xs)
    → b < e
    → x.end < b
    → Removes xs (x.end + 1) hi b e r
    → Removes (x ∷ xs) lo hi b e (r.0, x ∷ r.1)
Removes-near x xs lo hi b e r h v t u = record {
  separated = (h.0, h.1, h.2, u.separated);
  last = u.last;
  within = λ n. elim [ inl q ↦ inl q | inr q ↦ inr (u.within n q) ];
  above = λ n g. (
    elim [
      | inl q ↦ absurd (omega (arith, q))
      | inr q ↦ let w = (u.above n g).0 q in (inr w.0, w.1)
    ],
    λ w. elim w.0 [ inl q ↦ absurd (omega (arith, q)) | inr q ↦ inr ((u.above n g).1 (q, w.1)) ],
  );
  filled = λ n p q. elim (u.filled n p q) [ inl w ↦ inl (inr w) | inr w ↦ inr w ];
  open_end = elim [ inl q ↦ omega (arith, u.last) | inr q ↦ u.open_end q ];
  joined = λ n m q l g. elim q [
    | inl w ↦ inl (inl w)
    | inr w ↦ elim (u.joined n m w l g) [ inl z ↦ inl (inr z) | inr z ↦ inr (inr z) ]
  ];
}

Removes-touch :
    (x : Interval) (xs : List Interval) (lo hi b e : ℕ)
    → SeparatedFrom lo hi (x ∷ xs)
    → b < e
    → e ≤ hi
    → b ≤ x.end
    → Removes (x ∷ xs) lo hi b e (absorb (x ∷ xs) e)
Removes-touch x xs lo hi b e h v k t = record {
  separated = elim (Bool-cases (ltb e x.begin)) [
    | inl q ↦ rw (absorb-apart x xs e (ltb→lt e x.begin q)) h
    | inr q ↦
        SeparatedFrom-weaken _ _ hi (absorb s e).1 (omega (arith, bounds, ltb→le e x.begin q))
          bounds.2
  ];
  last = bounds.0;
  within = λ n q. (absorb-beyond s lo hi e n h q).0;
  above = λ n g. (
    λ q. absorb-beyond s lo hi e n h q,
    λ w. elim (absorb-kept s lo hi e n h k w.0) [
      | inl q ↦ q
      | inr q ↦ absurd (omega (arith, q, w.1))
    ],
  );
  filled = λ n p q. elim (Bool-cases (ltb n e)) [
    | inl w ↦ inr (ltb→lt n e w)
    | inr w ↦ inl (absorb-filled s lo hi e n h (ltb→le n e w) q)
  ];
  open_end = λ c. elim (absorb-kept s lo hi e _ h k c) [
    | inl q ↦ absurd (omega (arith, absorb-beyond s lo hi e _ h q))
    | inr q ↦ absurd (omega (arith, q))
  ];
  joined = λ n m q l g.
      inr
        (inl (omega (arith, Covers-ge x.begin hi s n (omega arith, h.1, h.2, h.3) q), omega arith));
}
  where
    s : List Interval
    s = x ∷ xs

    bounds :
        (e ≤ (absorb (x ∷ xs) e).0)
        × ((absorb (x ∷ xs) e).0 ≤ hi)
        × SeparatedFrom ((absorb (x ∷ xs) e).0 + 1) hi (absorb (x ∷ xs) e).1
    bounds = absorb-SeparatedFrom (x ∷ xs) lo hi e h k

remove_with-Removes :
    (s : List Interval) (lo hi b e : ℕ)
    → SeparatedFrom lo hi s
    → b < e
    → e ≤ hi
    → Removes s lo hi b e (remove_with s b e)
remove_with-Removes [] lo hi b e h v k =
    unfold remove_with in
    record {
      separated = tt;
      last = omega arith;
      within = λ n q. q;
      above = λ n g. (λ q. absurd q, λ w. w.0);
      filled = λ n p q. inr q;
      open_end = λ q. q;
      joined = λ n m q l g. absurd q;
    }
remove_with-Removes (x ∷ xs) lo hi b e h v k = elim (Bool-cases (ltb x.end b)) [
  | inl t ↦ rw (remove_with-near x xs b e (ltb→lt x.end b t)) (
      Removes-near x xs lo hi b e (remove_with xs b e) h v (ltb→lt x.end b t)
        (remove_with-Removes xs (x.end + 1) hi b e h.3 v k))
  | inr t ↦
      rw (remove_with-meets x xs b e (ltb→le x.end b t))
        (Removes-touch x xs lo hi b e h v k (ltb→le x.end b t))
]

-- `mergeRemove` returns the end of the run of numbers that starts with the interval and goes on
-- through the set, and keeps of the numbers at or after the interval's begin exactly those beyond
-- that end. Below the begin it only drops what is joined to it without a gap.
pub merge_remove-Covers :
    (s : List Interval) (b e hi : ℕ)
    → hi + 2 < u32_mod
    → IsSeparated hi s
    → b < e
    → e ≤ hi
    → let r = merge_remove s (interval b e) in
      (last : ℕ) × (r.0 ≡ some last)
      × IsSeparated hi r.1
      × (e ≤ last)
      × ((n : ℕ) → b ≤ n → n < last → Covers s n ⊎ (n < e))
      × (¬ Covers s last)
      × ((n : ℕ) → b ≤ n → Covers r.1 n ↔ (Covers s n × (last < n)))
      × ((n : ℕ) → Covers r.1 n → Covers s n)
      × ((n m : ℕ) → Covers s n → n ≤ m → m < b → Covers r.1 n ⊎ Covers s m)
merge_remove-Covers s b e hi fits sep v k =
    let u = remove_with-Removes s 0 hi b e sep v k in
    rw (merge_remove-remove_with s b e 0 hi fits sep v k) (
      (remove_with s b e).0,
      refl,
      u.separated,
      u.last,
      u.filled,
      u.open_end,
      u.above,
      u.within,
      u.joined,
    )
