-- ===== src/Tcp/Intervals/Cover.antt =====
-- What `emplaceMerge` does to the numbers that the set stands for.
use tns.Common.{
  ℕ, ◌+◌, ◌≤◌, ◌<◌, ◌≡◌, ◌⊎◌, ◌↔◌, refl, some, List, [], ◌∷◌, arith, Bool-cases, min, u32_mod, inl,
  inr, ltb, ltb→lt, ltb→le,
}
use tns.Tcp.Intervals.{Interval, emplace_merge}
use tns.Tcp.Intervals.Spec.{SeparatedFrom, IsSeparated, Covers, absorb, union_with}
use tns.Tcp.Intervals.Absorb.{interval, absorb-SeparatedFrom}
use tns.Tcp.Intervals.Union.{emplace_merge-union_with}
use tns.Tcp.Intervals.Numbers.{
  Covers-ge, absorb-kept, absorb-beyond, absorb-filled, SeparatedFrom-weaken,
}

union_with-near :
    (x : Interval) (xs : List Interval) (b e : ℕ)
    → x.end < b
    → let r = union_with xs b e in union_with (x ∷ xs) b e ≡ (r.0, x ∷ r.1)
unfolding union_with
union_with-near x xs b e h = ground arith

union_with-touch' :
    (x : Interval) (xs : List Interval) (b e : ℕ)
    → b ≤ x.end
    → let r = absorb (x ∷ xs) e in
      union_with (x ∷ xs) b e ≡ (r.0, interval (min b x.begin) r.0 ∷ r.1)
unfolding union_with
union_with-touch' x xs b e h = ground arith

-- What `union_with` promises of its result.
record Unites (s : List Interval) (lo hi b e : ℕ) (r : ℕ × List Interval) : Type 0 where
  separated : SeparatedFrom (min lo b) hi r.1
  covers : (n : ℕ) → Covers r.1 n ↔ (Covers s n ⊎ (b ≤ n) × (n < e))
  last : e ≤ r.0
  filled : (n : ℕ) → b ≤ n → n < r.0 → Covers r.1 n
  open_end : ¬ Covers r.1 r.0

Unites-near :
    (x : Interval) (xs : List Interval) (lo hi b e : ℕ) (r : ℕ × List Interval)
    → SeparatedFrom lo hi (x ∷ xs)
    → b < e
    → e ≤ hi
    → x.end < b
    → Unites xs (x.end + 1) hi b e r
    → Unites (x ∷ xs) lo hi b e (r.0, x ∷ r.1)
Unites-near x xs lo hi b e r h v k t u = record {
  separated = (omega arith, h.1, h.2, SeparatedFrom-weaken _ _ hi r.1 (omega arith) u.separated);
  covers = λ n. (
    elim [
      | inl q ↦ inl (inl q)
      | inr q ↦ elim ((u.covers n).0 q) [ inl p ↦ inl (inr p) | inr p ↦ inr p ]
    ],
    elim [
      | inl q ↦ elim q [ inl p ↦ inl p | inr p ↦ inr ((u.covers n).1 (inl p)) ]
      | inr q ↦ inr ((u.covers n).1 (inr q))
    ],
  );
  last = u.last;
  filled = λ n p q. inr (u.filled n p q);
  open_end = elim [ inl q ↦ omega (arith, u.last) | inr q ↦ u.open_end q ];
}

Unites-touch :
    (x : Interval) (xs : List Interval) (lo hi b e : ℕ)
    → SeparatedFrom lo hi (x ∷ xs)
    → b < e
    → e ≤ hi
    → b ≤ x.end
    → let r = absorb (x ∷ xs) e in
      Unites (x ∷ xs) lo hi b e (r.0, interval (min b x.begin) r.0 ∷ r.1)
Unites-touch x xs lo hi b e h v k t = record {
  separated = (omega arith, omega (arith, bounds), bounds.1, bounds.2);
  covers = λ n. (
    elim [
      | inl q ↦ elim (Bool-cases (ltb n e)) [
        | inl w ↦ elim (Bool-cases (ltb n b)) [
          | inl z ↦ inl (inl (omega (arith, q, ltb→lt n b z), omega (arith, ltb→lt n b z)))
          | inr z ↦ inr (ltb→le n b z, ltb→lt n e w)
        ]
        | inr w ↦ inl (absorb-filled s lo hi e n h (ltb→le n e w) q.1)
      ]
      | inr q ↦ inl (absorb-beyond s lo hi e n h q).0
    ],
    elim [
      | inl q ↦ elim (absorb-kept s lo hi e n h k q) [
        | inl w ↦ inr w
        | inr w ↦ inl (omega (arith, Covers-ge x.begin hi s n (omega arith, h.1, h.2, h.3) q), w)
      ]
      | inr q ↦ inl (omega (arith, q), omega (arith, bounds, q))
    ],
  );
  last = bounds.0;
  filled = λ n p q. inl (omega arith, q);
  open_end = elim [
    | inl q ↦ absurd (omega (arith, q))
    | inr q ↦ absurd (omega (arith, absorb-beyond s lo hi e _ h q))
  ];
}
  where
    s : List Interval
    s = x ∷ xs

    bounds :
        (e ≤ (absorb (x ∷ xs) e).0)
        × ((absorb (x ∷ xs) e).0 ≤ hi)
        × SeparatedFrom ((absorb (x ∷ xs) e).0 + 1) hi (absorb (x ∷ xs) e).1
    bounds = absorb-SeparatedFrom (x ∷ xs) lo hi e h k

union_with-Unites :
    (s : List Interval) (lo hi b e : ℕ)
    → SeparatedFrom lo hi s
    → b < e
    → e ≤ hi
    → Unites s lo hi b e (union_with s b e)
union_with-Unites [] lo hi b e h v k =
    unfold union_with in
    record {
      separated = (omega arith, v, k, tt);
      covers = λ n.
          (elim [ inl q ↦ inr q | inr q ↦ absurd q ], elim [ inl q ↦ absurd q | inr q ↦ inl q ]);
      last = omega arith;
      filled = λ n p q. inl (p, q);
      open_end = elim [ inl q ↦ absurd (omega arith) | inr q ↦ q ];
    }
union_with-Unites (x ∷ xs) lo hi b e h v k = elim (Bool-cases (ltb x.end b)) [
  | inl t ↦ rw (union_with-near x xs b e (ltb→lt x.end b t)) (
      Unites-near x xs lo hi b e (union_with xs b e) h v k (ltb→lt x.end b t)
        (union_with-Unites xs (x.end + 1) hi b e h.3 v k))
  | inr t ↦
      rw (union_with-touch' x xs b e (ltb→le x.end b t))
        (Unites-touch x xs lo hi b e h v k (ltb→le x.end b t))
]

-- `emplaceMerge` keeps the set separated, adds exactly the numbers of the new interval to it, and
-- returns the first number at or after the interval's end that the set does not hold.
pub emplace_merge-Covers :
    (s : List Interval) (b e hi : ℕ)
    → hi + 2 < u32_mod
    → IsSeparated hi s
    → b < e
    → e ≤ hi
    → (last : ℕ) × ((emplace_merge s (interval b e)).0 ≡ some last)
      × IsSeparated hi (emplace_merge s (interval b e)).1
      × ((n : ℕ) → Covers (emplace_merge s (interval b e)).1 n ↔ (Covers s n ⊎ (b ≤ n) × (n < e)))
      × (e ≤ last)
      × ((n : ℕ) → b ≤ n → n < last → Covers (emplace_merge s (interval b e)).1 n)
      × (¬ Covers (emplace_merge s (interval b e)).1 last)
emplace_merge-Covers s b e hi fits sep v k =
    let u = union_with-Unites s 0 hi b e sep v k in
    rw (emplace_merge-union_with s b e 0 hi fits sep v k) (
      (union_with s b e).0,
      refl,
      SeparatedFrom-weaken _ _ hi (union_with s b e).1 (omega arith) u.separated,
      u.covers,
      u.last,
      u.filled,
      u.open_end,
    )
