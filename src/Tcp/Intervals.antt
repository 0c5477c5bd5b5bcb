-- ===== src/Tcp/Intervals.antt =====
-- lib/include/tcp/intervals.hpp: the set of early-arrival segments, at `T = uint32_t`.
-- A `std::set` is the list of its elements in order; an iterator is a cursor into that list.
pub mod Spec
mod Positions
pub mod Absorb
mod Frame
pub mod Union
pub mod Remove
mod Numbers
pub mod Cover
pub mod Discard
use tns.Common.{
  ℕ, ◌+◌, max, Bool, true, false, not, ◌&&◌, ◌||◌, Option, none, some, List, [], ◌∷◌, ltb, leb,
  ◌==◌, if◌then◌else◌, length, add_u32,
}

-- `RightOpenInterval<uint32_t>`, [begin, end).
pub record Interval : Type 0 where
  pub begin : ℕ
  pub end : ℕ

-- The constructor throws `std::invalid_argument` (`none`) on an empty interval.
unfoldable pub make : ℕ → ℕ → Option Interval
make b e = if leb e b then none else some (record { begin = b; end = e })

-- `operator<=>` is defaulted: lexicographic.
unfoldable pub less : Interval → Interval → Bool
less x y = ltb x.begin y.begin || (x.begin == y.begin && ltb x.end y.end)

-- An iterator: the elements before it, the nearest first, and those from it on.
pub record Cursor : Type 0 where
  pub before : List Interval
  pub after : List Interval

pub rev_append : List Interval → List Interval → List Interval
rev_append [] ys = ys
rev_append (x ∷ xs) ys = rev_append xs (x ∷ ys)

-- The whole set that a cursor points into.
pub to_list : Cursor → List Interval
unfolding rev_append
to_list c = rev_append c.before c.after

pub lower_bound_from : List Interval → List Interval → Interval → Cursor
lower_bound_from before [] key = record { before = before; after = [] }
lower_bound_from before (x ∷ xs) key =
    let rest = lower_bound_from (x ∷ before) xs key in
    if less x key then rest else record { before = before; after = x ∷ xs }

-- `std::set::lower_bound`: the first element that is not less than the key.
pub lower_bound : List Interval → Interval → Cursor
unfolding lower_bound_from
lower_bound s key = lower_bound_from [] s key

-- `std::set::emplace`: a cursor to the element, and whether it was inserted.
pub emplace_at : Cursor → Interval → Cursor × Bool
emplace_at c i = elim c.after [
  | [] ↦ (record { before = c.before; after = i ∷ [] }, true)
  | x ∷ xs ↦
      if less i x then (record { before = c.before; after = i ∷ x ∷ xs }, true) else (c, false)
]

pub emplace : List Interval → Interval → Cursor × Bool
unfolding emplace_at lower_bound
emplace s i = emplace_at (lower_bound s i) i

-- `if (left != begin()) if (ll = prev(left); ll->end >= begin) …`: `left`, `begin` and `end`.
pub merge_left : Cursor → ℕ → ℕ → Cursor × ℕ × ℕ
merge_left left b e = elim left.before [
  | [] ↦ (left, b, e)
  | ll ∷ rest ↦
      if leb b ll.end
      then (record { before = rest; after = ll ∷ left.after }, ll.begin, max e ll.end)
      else (left, b, e)
]

-- `std::max(end, std::prev(right)->end)`
pub max_prev : Cursor → ℕ → ℕ
max_prev right e = elim right.before [ [] ↦ e | x ∷ rest ↦ max e x.end ]

-- `erase(left, right)`
pub erase : Cursor → Cursor → List Interval
unfolding rev_append
erase left right = rev_append left.before right.after

-- The end of `emplaceMerge`, from `if (right != std::next(left))` on.
pub replace : List Interval → Cursor → Cursor → ℕ → ℕ → Option ℕ × List Interval
unfolding make emplace to_list max_prev erase
replace s left right b e =
    if length right.before == length left.before + 1
    then (some e, s)
    else elim (make b (max_prev right e)) [
      | none ↦ (none, erase left right)
      | some merged ↦ (some (max_prev right e), to_list (emplace (erase left right) merged).0)
    ]

-- The lookup of `right`, whose key may be refused by the constructor.
pub merge_right : List Interval → Cursor → ℕ → ℕ → Option ℕ × List Interval
unfolding make lower_bound replace
merge_right s left b e = elim (make (add_u32 e 1) (add_u32 e 2)) [
  | none ↦ (none, s)
  | some key ↦ replace s left (lower_bound s key) b e
]

-- The value returned (`none` if it throws) and the set afterwards.
unfoldable pub emplace_merge : List Interval → Interval → Option ℕ × List Interval
unfolding emplace to_list merge_left merge_right
emplace_merge s i =
    let (center, success) = emplace s i in
    let (left, b, e) = merge_left center i.begin i.end in
    if not success then (some i.end, s) else merge_right (to_list center) left b e

pub remove_right : List Interval → Cursor → Cursor → ℕ → Option ℕ × List Interval
unfolding max_prev erase
remove_right s left right e = elim right.before [
  | [] ↦ (some e, s)
  | x ∷ rest ↦ (some (max_prev right e), erase left right)
]

unfoldable pub merge_remove : List Interval → Interval → Option ℕ × List Interval
unfolding make lower_bound merge_left remove_right
merge_remove s i =
    let (left, b, e) = merge_left (lower_bound s i) i.begin i.end in
    elim (make (add_u32 e 1) (add_u32 e 2)) [
      | none ↦ (none, s)
      | some key ↦ remove_right s left (lower_bound s key) e
    ]
