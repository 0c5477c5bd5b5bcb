-- ===== src/Tcp/Intervals/Positions.antt =====
-- An interval that lies wholly before the new one is left alone by every step of intervals.hpp.
use tns.Common.{
  ℕ, ◌+◌, ◌≤◌, ◌<◌, ◌≡◌, refl, true, List, [], ◌∷◌, ◌++◌, arith, length-append, add_u32, Bool-cases,
  u32_mod, inl, inr,
}
use tns.Tcp.Intervals.{
  Interval, make, less, Cursor, rev_append, to_list, lower_bound_from, lower_bound, emplace_at,
  emplace, merge_left, max_prev, erase, replace, merge_right,
}

-- The cursor with one more element at the front of its list.
abbrev pub extend : Interval → Cursor → Cursor
extend x c = record { before = c.before ++ (x ∷ []); after = c.after }

pub rev_append-extend :
    (x : Interval) (bef aft : List Interval)
    → rev_append (bef ++ (x ∷ [])) aft ≡ x ∷ rev_append bef aft
unfolding rev_append
rev_append-extend x [] aft = refl
rev_append-extend x (y ∷ bef) aft = rev_append-extend x bef (y ∷ aft)

pub lower_bound_from-extend :
    (x : Interval) (bef s : List Interval) (key : Interval)
    → lower_bound_from (bef ++ (x ∷ [])) s key ≡ extend x (lower_bound_from bef s key)
unfolding lower_bound_from
lower_bound_from-extend x bef [] key = refl
lower_bound_from-extend x bef (y ∷ s) key = elim (Bool-cases (less y key)) [
  | inl e ↦ rw e (lower_bound_from-extend x (y ∷ bef) s key)
  | inr e ↦ rw e
]

pub lower_bound-extend :
    (x : Interval) (s : List Interval) (key : Interval)
    → less x key ≡ true
    → lower_bound (x ∷ s) key ≡ extend x (lower_bound s key)
unfolding lower_bound lower_bound_from
lower_bound-extend x s key h = rw h (lower_bound_from-extend x [] s key)

emplace_at-extend :
    (x : Interval) (c : Cursor) (i : Interval)
    → emplace_at (extend x c) i ≡ (extend x (emplace_at c i).0, (emplace_at c i).1)
unfolding emplace_at
emplace_at-extend x c i = ground arith

pub emplace-extend :
    (x : Interval) (s : List Interval) (i : Interval)
    → less x i ≡ true
    → emplace (x ∷ s) i ≡ (extend x (emplace s i).0, (emplace s i).1)
unfolding emplace
emplace-extend x s i h = rw (lower_bound-extend x s i h) (emplace_at-extend x (lower_bound s i) i)

pub to_list-extend : (x : Interval) (c : Cursor) → to_list (extend x c) ≡ x ∷ to_list c
unfolding to_list
to_list-extend x c = rev_append-extend x c.before c.after

pub merge_left-extend :
    (x : Interval) (c : Cursor) (b e : ℕ)
    → x.end < b
    → let (left, b', e') = merge_left c b e in merge_left (extend x c) b e ≡ (extend x left, b', e')
unfolding merge_left
merge_left-extend x c b e h = ground arith

pub max_prev-extend :
    (x : Interval) (right : Cursor) (e : ℕ)
    → x.end ≤ e
    → max_prev (extend x right) e ≡ max_prev right e
unfolding max_prev
max_prev-extend x right e h = ground arith

pub erase-extend :
    (x : Interval) (left right : Cursor) → erase (extend x left) right ≡ x ∷ erase left right
unfolding erase
erase-extend x left right = rev_append-extend x left.before right.after

pub less_before : (x y : Interval) → x.begin < y.begin → less x y ≡ true
unfolding less
less_before x y h = ground arith

pub replace-extend :
    (x : Interval) (s : List Interval) (left right : Cursor) (b e : ℕ)
    → x.end < b
    → x.begin < x.end
    → b < e
    → let r = replace s left right b e in
      replace (x ∷ s) (extend x left) (extend x right) b e ≡ (r.0, x ∷ r.1)
unfolding replace make
replace-extend x s left right b e h v be = ground (
  arith,
  max_prev-extend x right e,
  erase-extend x left right,
  length-append left.before (x ∷ []),
  length-append right.before (x ∷ []),
  emplace-extend x (erase left right) (record { begin = b; end = max_prev right e }),
  less_before x (record { begin = b; end = max_prev right e }),
  to_list-extend x (emplace (erase left right) (record { begin = b; end = max_prev right e })).0,
)

pub merge_right-extend :
    (x : Interval) (s : List Interval) (left : Cursor) (b e : ℕ)
    → x.end < b
    → x.begin < x.end
    → b < e
    → e + 2 < u32_mod
    → let r = merge_right s left b e in merge_right (x ∷ s) (extend x left) b e ≡ (r.0, x ∷ r.1)
unfolding merge_right make
merge_right-extend x s left b e h v be fits = ground (
  arith,
  lower_bound-extend x s (record { begin = add_u32 e 1; end = add_u32 e 2 }),
  less_before x (record { begin = add_u32 e 1; end = add_u32 e 2 }),
  replace-extend x s left (lower_bound s (record { begin = add_u32 e 1; end = add_u32 e 2 })) b e,
)
