-- ===== src/Tcp/Intervals/Spec.antt =====
-- What the interval set stands for: disjoint, non-adjacent intervals, and the numbers in them.
use tns.Common.{ℕ, ◌+◌, ◌≤◌, ◌<◌, min, max, ◌⊎◌, List, [], ◌∷◌, ltb, if◌then◌else◌}
use tns.Tcp.Intervals.{Interval}

-- In order, with a gap between neighbours, all ends at most `hi`, and the first begin at least `lo`.
abbrev pub SeparatedFrom : ℕ → ℕ → List Interval → Type 0
SeparatedFrom lo hi [] = Unit {0}
SeparatedFrom lo hi (x ∷ xs) =
    (lo ≤ x.begin) × (x.begin < x.end) × (x.end ≤ hi) × SeparatedFrom (x.end + 1) hi xs

abbrev pub IsSeparated : ℕ → List Interval → Type 0
IsSeparated hi s = SeparatedFrom 0 hi s

-- The number lies in one of the intervals.
abbrev pub Covers : List Interval → ℕ → Type 0
Covers [] n = ⊥
Covers (x ∷ xs) n = ((x.begin ≤ n) × (n < x.end)) ⊎ Covers xs n

-- Absorbs the leading intervals that begin at or before the end `e`.
unfoldable pub absorb : List Interval → ℕ → ℕ × List Interval
absorb [] e = (e, [])
absorb (x ∷ xs) e =
    let rest = absorb xs (max e x.end) in if ltb e x.begin then (e, x ∷ xs) else rest

-- The union with [b, e), by one pass over the list: the end of the merged interval, and the list.
unfoldable pub union_with : List Interval → ℕ → ℕ → ℕ × List Interval
unfolding absorb
union_with [] b e = (e, record { begin = b; end = e } ∷ [])
union_with (x ∷ xs) b e =
    let rest = union_with xs b e in
    let (last, kept) = absorb (x ∷ xs) e in
    if ltb x.end b
    then (rest.0, x ∷ rest.1)
    else (last, record { begin = min b x.begin; end = last } ∷ kept)

-- The same with the merged interval left out.
unfoldable pub remove_with : List Interval → ℕ → ℕ → ℕ × List Interval
unfolding absorb
remove_with [] b e = (e, [])
remove_with (x ∷ xs) b e =
    let rest = remove_with xs b e in if ltb x.end b then (rest.0, x ∷ rest.1) else absorb (x ∷ xs) e
