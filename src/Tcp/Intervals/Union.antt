-- ===== src/Tcp/Intervals/Union.antt =====
-- `emplaceMerge` of intervals.hpp against the one pass of `union_with`.
use tns.Common.{
  ℕ, ◌+◌, ◌≤◌, ◌<◌, ◌≡◌, ◌≢◌, refl, true, false, some, List, [], ◌∷◌, arith, length, Bool-cases,
  ◌==◌, ==→eq, ltb, ltb→le, min, max, u32_mod, inl, inr, u32_mod,
}
use tns.Tcp.Intervals.{
  Interval, make, less, Cursor, rev_append, to_list, lower_bound_from, lower_bound, emplace_at,
  emplace, merge_left, max_prev, erase, replace, merge_right, emplace_merge,
}
use tns.Tcp.Intervals.Spec.{SeparatedFrom, absorb, union_with}
use tns.Tcp.Intervals.Frame.{emplace_merge-extend}
use tns.Tcp.Intervals.Absorb.{
  upper, interval, less_asym, less_begin, less_begin', less_neither, Absorbed,
  lower_bound_from-Absorbed, absorb-SeparatedFrom, absorb-cons, absorb-stop, lower_bound-upper,
  emplace-front, Between-SeparatedFrom,
}

replace-front :
    (s : List Interval) (left right : Cursor) (b e hi : ℕ)
    → left.before ≡ []
    → b < e
    → e ≤ max_prev right e
    → SeparatedFrom (max_prev right e + 1) hi right.after
    → length right.before ≢ 1
    → replace s left right b e
      ≡ (some (max_prev right e), interval b (max_prev right e) ∷ right.after)
unfolding replace make erase rev_append
replace-front s left right b e hi l v m h k =
    ground (arith, emplace-front right.after (interval b (max_prev right e)) hi)

replace-same :
    (s rest : List Interval) (left : Cursor) (p : Interval) (bef : List Interval) (b e : ℕ)
    → left.before ≡ []
    → p.end ≤ e
    → length (lower_bound_from (p ∷ bef) rest (upper e)).before ≡ 1
    → Absorbed p bef rest e (lower_bound_from (p ∷ bef) rest (upper e))
    → (bef ≡ [] → s ≡ interval b e ∷ rest)
    → let r = absorb rest e in
      replace s left (lower_bound_from (p ∷ bef) rest (upper e)) b e
      ≡ (some r.0, interval b r.0 ∷ r.1)
unfolding replace max_prev
replace-same s rest left p [] b e l q one a whole = ground (arith, whole refl, a, a.same one)
replace-same s rest left p (y ∷ bef) b e l q one a whole = absurd (omega (arith, a.grows))

emplace_merge-center :
    (s : List Interval) (i : Interval) (center : Cursor)
    → emplace s i ≡ (center, true)
    → let m = merge_left center i.begin i.end in
      m.2 + 2 < u32_mod
      → emplace_merge s i
        ≡ replace (to_list center) m.0 (lower_bound (to_list center) (upper m.2)) m.1 m.2
unfolding emplace_merge merge_right make
emplace_merge-center s i center p fits = rw p (ground arith)

union_with-touch :
    (x : Interval) (xs : List Interval) (b e : ℕ)
    → b ≤ x.end
    → let r = absorb (x ∷ xs) e in
      union_with (x ∷ xs) b e ≡ (r.0, interval (min b x.begin) r.0 ∷ r.1)
unfolding union_with
union_with-touch x xs b e h = ground arith

-- Replacing from the front on, in a list whose first elements are all taken in.
replace-Absorbed :
    (s rest : List Interval) (left : Cursor) (p : Interval) (bef : List Interval) (b e lo hi : ℕ)
    → left.before ≡ []
    → b < e
    → e ≤ hi
    → hi + 2 < u32_mod
    → SeparatedFrom lo hi rest
    → p.end ≤ e
    → (bef ≡ [] → s ≡ interval b e ∷ rest)
    → let r = absorb rest e in
      replace s left (lower_bound_from (p ∷ bef) rest (upper e)) b e
      ≡ (some r.0, interval b r.0 ∷ r.1)
replace-Absorbed s rest left p bef b e lo hi l v k fits sep q whole =
    let right = lower_bound_from (p ∷ bef) rest (upper e) in
    let absorbed = lower_bound_from-Absorbed p bef rest lo hi e sep (inl q) (omega arith) in
    let bounds = absorb-SeparatedFrom rest lo hi e sep k in
    let same : max e p.end ≡ e = omega arith in
    elim (Bool-cases (length right.before == 1)) [
      | inl one ↦ replace-same s rest left p bef b e l q (==→eq _ 1 one) absorbed whole
      | inr more ↦ ground (arith, absorbed, bounds, replace-front s left right b e hi l v)
    ]

-- Nothing that begins after the new begin is less than the new interval.
emplace_from-stop :
    (bef xs : List Interval) (b e lo hi : ℕ)
    → SeparatedFrom lo hi xs
    → b < lo
    → emplace_at (lower_bound_from bef xs (interval b e)) (interval b e)
      ≡ (record { before = bef; after = interval b e ∷ xs }, true)
unfolding lower_bound_from emplace_at less
emplace_from-stop bef [] b e lo hi h k = refl
emplace_from-stop bef (x ∷ xs) b e lo hi h k = ground arith

emplace_merge-left :
    (x : Interval) (xs : List Interval) (b e lo hi : ℕ)
    → hi + 2 < u32_mod
    → SeparatedFrom lo hi (x ∷ xs)
    → b < e
    → e ≤ hi
    → b ≤ x.end
    → less x (interval b e) ≡ true
    → let r = union_with (x ∷ xs) b e in emplace_merge (x ∷ xs) (interval b e) ≡ (some r.0, r.1)
unfolding emplace lower_bound lower_bound_from to_list rev_append merge_left
emplace_merge-left x xs b e lo hi fits sep v k m l =
    let i = interval b e in
    let top = max e x.end in
    let whole : List Interval = x ∷ i ∷ xs in
    ground (
      arith,
      l,
      less_begin x b e l,
      emplace_from-stop (x ∷ []) xs b e (x.end + 1) hi sep.3 (omega arith),
      emplace_merge-center (x ∷ xs) i (record { before = x ∷ []; after = i ∷ xs }),
      lower_bound-upper [] (i ∷ xs) x top,
      lower_bound-upper (x ∷ []) xs i top,
      replace-Absorbed whole xs (record { before = []; after = whole }) i (x ∷ []) x.begin top
          (x.end + 1) hi,
      union_with-touch x xs b e m,
      absorb-cons x xs e,
    )

emplace_merge-right :
    (x : Interval) (xs : List Interval) (b e lo hi : ℕ)
    → hi + 2 < u32_mod
    → SeparatedFrom lo hi (x ∷ xs)
    → b < e
    → e ≤ hi
    → b ≤ x.end
    → less (interval b e) x ≡ true
    → let r = union_with (x ∷ xs) b e in emplace_merge (x ∷ xs) (interval b e) ≡ (some r.0, r.1)
unfolding emplace emplace_at lower_bound to_list rev_append merge_left
emplace_merge-right x xs b e lo hi fits sep v k m l =
    let i = interval b e in
    let whole : List Interval = i ∷ x ∷ xs in
    ground (
      arith,
      l,
      less_asym (interval b e) x l,
      less_begin' x b e l,
      emplace_merge-center (x ∷ xs) i (record { before = []; after = i ∷ x ∷ xs }),
      lower_bound-upper [] (x ∷ xs) i e,
      replace-Absorbed whole (x ∷ xs) (record { before = []; after = whole }) i [] b e lo hi refl v
          k fits sep (omega arith) (λ _. refl),
      union_with-touch x xs b e m,
    )

emplace_merge-empty :
    (b e : ℕ)
    → b < e
    → e + 2 < u32_mod
    → emplace_merge [] (interval b e) ≡ (some e, interval b e ∷ [])
unfolding emplace_merge emplace emplace_at lower_bound lower_bound_from to_list rev_append
    merge_left merge_right make replace less
emplace_merge-empty b e v fits = ground arith

-- The new interval is in the set already.
emplace_merge-present :
    (x : Interval) (xs : List Interval) (b e lo hi : ℕ)
    → SeparatedFrom lo hi (x ∷ xs)
    → b < e
    → less x (interval b e) ≡ false
    → less (interval b e) x ≡ false
    → let r = union_with (x ∷ xs) b e in emplace_merge (x ∷ xs) (interval b e) ≡ (some r.0, r.1)
unfolding emplace_merge emplace emplace_at lower_bound lower_bound_from
emplace_merge-present x xs b e lo hi sep v l r = ground (
  arith,
  l,
  r,
  less_neither x b e l r,
  union_with-touch x xs b e,
  absorb-cons x xs e,
  absorb-stop xs e (e + 1) hi,
)

pub emplace_merge-union_with :
    (s : List Interval) (b e lo hi : ℕ)
    → hi + 2 < u32_mod
    → SeparatedFrom lo hi s
    → b < e
    → e ≤ hi
    → let r = union_with s b e in emplace_merge s (interval b e) ≡ (some r.0, r.1)
unfolding union_with
emplace_merge-union_with [] b e lo hi fits sep v k = emplace_merge-empty b e v (omega arith)
emplace_merge-union_with (x ∷ xs) b e lo hi fits sep v k = elim (Bool-cases (ltb x.end b)) [
  | inl apart ↦ ground (
    arith,
    apart,
    emplace_merge-extend x xs (interval b e) hi fits
        (Between-SeparatedFrom (x.end + 1) hi xs sep.3),
    emplace_merge-union_with xs b e (x.end + 1) hi fits sep.3 v k,
  )
  | inr meets ↦ elim (Bool-cases (less x (interval b e))) [
    | inl l ↦ emplace_merge-left x xs b e lo hi fits sep v k (ltb→le x.end b meets) l
    | inr n ↦ elim (Bool-cases (less (interval b e) x)) [
      | inl r ↦ emplace_merge-right x xs b e lo hi fits sep v k (ltb→le x.end b meets) r
      | inr m ↦ emplace_merge-present x xs b e lo hi sep v n m
    ]
  ]
]
