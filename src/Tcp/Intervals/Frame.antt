-- ===== src/Tcp/Intervals/Frame.antt =====
-- `emplaceMerge` and `mergeRemove` leave an interval alone that lies wholly before the new one.
use tns.Common.{
  ℕ, ◌+◌, ◌≤◌, ◌<◌, ◌≡◌, refl, false, List, [], ◌∷◌, arith, add_u32, All, Bool-cases, ◌≢◌, u32_mod,
  inl, inr,
}
use tns.Tcp.Intervals.{
  Interval, make, less, Cursor, rev_append, to_list, lower_bound_from, lower_bound, emplace_at,
  emplace, merge_left, erase, emplace_merge, remove_right, merge_remove,
}
use tns.Tcp.Intervals.Positions.{
  extend, lower_bound-extend, emplace-extend, to_list-extend, merge_left-extend, max_prev-extend,
  erase-extend, less_before, merge_right-extend,
}

-- What the left merge needs to know of the interval it may take in.
pub record MergesLeft (lo hi b e : ℕ) (r : Cursor × ℕ × ℕ) : Type 0 where
  pub low : lo ≤ r.1
  pub order : r.1 < r.2
  pub high : r.2 ≤ hi

pub merge_left-MergesLeft :
    (lo hi : ℕ) (c : Cursor) (b e : ℕ)
    → All (λ y. (lo ≤ y.begin) × (y.begin < y.end) × (y.end ≤ hi)) c.before
    → lo ≤ b
    → b < e
    → e ≤ hi
    → MergesLeft lo hi b e (merge_left c b e)
unfolding merge_left
merge_left-MergesLeft lo hi c b e h p q r = go c.before c.after h
  where
    go :
        (bef aft : List Interval)
        → All (λ y. (lo ≤ y.begin) × (y.begin < y.end) × (y.end ≤ hi)) bef
        → MergesLeft lo hi b e (merge_left (record { before = bef; after = aft }) b e)
    go [] aft h = ground arith
    go (y ∷ bef) aft h = ground arith

pub All-lower_bound_from :
    (P : Interval → Type 0) (bef s : List Interval) (key : Interval)
    → All P bef
    → All P s
    → All P (lower_bound_from bef s key).before
unfolding lower_bound_from
All-lower_bound_from P bef [] key p q = p
All-lower_bound_from P bef (x ∷ s) key p q = elim (Bool-cases (less x key)) [
  | inl e ↦ rw e (All-lower_bound_from P (x ∷ bef) s key (q.0, p) q.1)
  | inr e ↦ rw e p
]

-- The intervals of a set that come at least at `lo`, are not empty and end by `hi`.
abbrev pub Between : ℕ → ℕ → List Interval → Type 0
Between lo hi = All (λ y. (lo ≤ y.begin) × (y.begin < y.end) × (y.end ≤ hi))

Between-lower_bound :
    (lo hi : ℕ) (s : List Interval) (i : Interval)
    → Between lo hi s
    → Between lo hi (lower_bound s i).before
unfolding lower_bound
Between-lower_bound lo hi s i h = All-lower_bound_from _ [] s i tt h

before-emplace :
    (s : List Interval) (i : Interval) → (emplace s i).0.before ≡ (lower_bound s i).before
unfolding emplace emplace_at
before-emplace s i = ground arith

pub emplace_merge-extend :
    (x : Interval) (s : List Interval) (i : Interval) (hi : ℕ)
    → hi + 2 < u32_mod
    → Between (x.end + 1) hi s
    → x.begin < x.end
    → x.end < i.begin
    → i.begin < i.end
    → i.end ≤ hi
    → let r = emplace_merge s i in emplace_merge (x ∷ s) i ≡ (r.0, x ∷ r.1)
unfolding emplace_merge
emplace_merge-extend x s i hi fits sep v h iv ih =
    let center = (emplace s i).0 in
    let m = merge_left center i.begin i.end in
    let between : Between (x.end + 1) hi center.before =
      rw (before-emplace s i) (Between-lower_bound (x.end + 1) hi s i sep) in
    let merges =
      merge_left-MergesLeft (x.end + 1) hi center i.begin i.end between (omega arith) iv ih in
    ground (
      arith,
      less_before x i,
      emplace-extend x s i,
      to_list-extend x center,
      merge_left-extend x center i.begin i.end,
      merges,
      merge_right-extend x (to_list center) m.0 m.1 m.2,
    )

before-lower_bound_from :
    (y : Interval) (bef s : List Interval) (key : Interval)
    → (lower_bound_from (y ∷ bef) s key).before ≢ []
unfolding lower_bound_from
before-lower_bound_from y bef [] key h = cc
before-lower_bound_from y bef (x ∷ s) key h =
    ground (arith, before-lower_bound_from x (y ∷ bef) s key)

not_less : (x i key : Interval) → i.begin < key.begin → less x key ≡ false → less x i ≡ false
unfolding less
not_less x i key h e = ground arith

-- If no element is less than the upper key, nothing is to be erased.
pub erase-start :
    (s : List Interval) (i key : Interval)
    → i.begin < key.begin
    → (lower_bound s key).before ≡ []
    → erase (merge_left (lower_bound s i) i.begin i.end).0 (lower_bound s key) ≡ s
unfolding erase merge_left lower_bound lower_bound_from rev_append
erase-start [] i key h l = refl
erase-start (x ∷ s) i key h l = elim (Bool-cases (less x key)) [
  | inl e ↦ absurd (before-lower_bound_from x [] s key (ground (arith, l, e)))
  | inr e ↦ rw (e, not_less x i key h e)
]

remove_right-extend :
    (x : Interval) (s : List Interval) (left right : Cursor) (e : ℕ)
    → x.end ≤ e
    → (right.before ≡ [] → erase left right ≡ s)
    → let r = remove_right s left right e in
      remove_right (x ∷ s) (extend x left) (extend x right) e ≡ (r.0, x ∷ r.1)
unfolding remove_right
remove_right-extend x s left right e h k = go right.before refl
  where
    go :
        (bef : List Interval)
        → right.before ≡ bef
        → let r = remove_right s left right e in
          remove_right (x ∷ s) (extend x left) (extend x right) e ≡ (r.0, x ∷ r.1)
    go [] p = ground (arith, k p, max_prev-extend x right e h, erase-extend x left right)
    go (y ∷ bef) p = ground (arith, max_prev-extend x right e h, erase-extend x left right)

pub merge_remove-extend :
    (x : Interval) (s : List Interval) (i : Interval) (hi : ℕ)
    → hi + 2 < u32_mod
    → Between (x.end + 1) hi s
    → x.begin < x.end
    → x.end < i.begin
    → i.begin < i.end
    → i.end ≤ hi
    → let r = merge_remove s i in merge_remove (x ∷ s) i ≡ (r.0, x ∷ r.1)
unfolding merge_remove make
merge_remove-extend x s i hi fits sep v h iv ih =
    let center = lower_bound s i in
    let m = merge_left center i.begin i.end in
    let merges =
      merge_left-MergesLeft (x.end + 1) hi center i.begin i.end
        (Between-lower_bound (x.end + 1) hi s i sep) (omega arith) iv ih in
    let key : Interval = record { begin = add_u32 m.2 1; end = add_u32 m.2 2 } in
    ground (
      arith,
      less_before x i,
      less_before x key,
      lower_bound-extend x s i,
      lower_bound-extend x s key,
      merge_left-extend x center i.begin i.end,
      merges,
      remove_right-extend x s m.0 (lower_bound s key) m.2,
      erase-start s i key,
    )
