-- ===== src/Tcp/Intervals/Remove.antt =====
-- `mergeRemove` of intervals.hpp against the one pass of `remove_with`.
use tns.Common.{
  ℕ, ◌+◌, ◌≤◌, ◌<◌, ◌≡◌, ◌⊎◌, refl, true, false, some, List, [], ◌∷◌, arith, length, Bool-cases,
  ltb, ltb→le, max, u32_mod, inl, inr, u32_mod,
}
use tns.Tcp.Intervals.{
  Interval, make, less, Cursor, rev_append, lower_bound_from, lower_bound, merge_left, max_prev,
  erase, remove_right, merge_remove,
}
use tns.Tcp.Intervals.Spec.{SeparatedFrom, absorb, remove_with}
use tns.Tcp.Intervals.Frame.{merge_remove-extend}
use tns.Tcp.Intervals.Absorb.{
  upper, interval, less-upper, less_begin, lower_bound_from-Absorbed, absorb-cons,
  lower_bound-upper, Between-SeparatedFrom,
}

remove_right-ne :
    (s : List Interval) (left right : Cursor) (e : ℕ)
    → left.before ≡ []
    → 0 < length right.before
    → remove_right s left right e ≡ (some (max_prev right e), right.after)
unfolding remove_right erase rev_append
remove_right-ne s left right e l h = go right.before right.after h
  where
    go :
        (bef aft : List Interval)
        → 0 < length bef
        → let c : Cursor = record { before = bef; after = aft } in
          remove_right s left c e ≡ (some (max_prev c e), aft)
    go [] aft k = absurd (omega arith)
    go (y ∷ bef) aft k = ground (arith, l)

merge_remove-right :
    (s : List Interval) (i : Interval)
    → let m = merge_left (lower_bound s i) i.begin i.end in
      m.2 + 2 < u32_mod → merge_remove s i ≡ remove_right s m.0 (lower_bound s (upper m.2)) m.2
unfolding merge_remove make
merge_remove-right s i fits = ground arith

remove_with-touch :
    (x : Interval) (xs : List Interval) (b e : ℕ)
    → b ≤ x.end
    → remove_with (x ∷ xs) b e ≡ absorb (x ∷ xs) e
unfolding remove_with
remove_with-touch x xs b e h = ground arith

-- Erasing from the front on.
remove_right-Absorbed :
    (s rest : List Interval) (left : Cursor) (p : Interval) (e lo hi : ℕ)
    → left.before ≡ []
    → e + 2 < u32_mod
    → SeparatedFrom lo hi rest
    → (p.end ≤ e) ⊎ (p.end < lo)
    → let r = absorb rest (max e p.end) in
      remove_right s left (lower_bound_from (p ∷ []) rest (upper e)) e ≡ (some r.0, r.1)
remove_right-Absorbed s rest left p e lo hi l fits sep q = ground (
  arith,
  lower_bound_from-Absorbed p [] rest lo hi e sep q fits,
  remove_right-ne s left (lower_bound_from (p ∷ []) rest (upper e)) e l,
)

lower_bound_from-stop :
    (bef xs : List Interval) (b e lo hi : ℕ)
    → SeparatedFrom lo hi xs
    → b < lo
    → lower_bound_from bef xs (interval b e) ≡ record { before = bef; after = xs }
unfolding lower_bound_from less
lower_bound_from-stop bef [] b e lo hi h k = refl
lower_bound_from-stop bef (x ∷ xs) b e lo hi h k = ground arith

merge_remove-left :
    (x : Interval) (xs : List Interval) (b e lo hi : ℕ)
    → hi + 2 < u32_mod
    → SeparatedFrom lo hi (x ∷ xs)
    → b < e
    → e ≤ hi
    → b ≤ x.end
    → less x (interval b e) ≡ true
    → let r = remove_with (x ∷ xs) b e in merge_remove (x ∷ xs) (interval b e) ≡ (some r.0, r.1)
unfolding lower_bound lower_bound_from merge_left
merge_remove-left x xs b e lo hi fits sep v k m l =
    let top = max e x.end in
    ground (
      arith,
      l,
      less_begin x b e l,
      lower_bound_from-stop (x ∷ []) xs b e (x.end + 1) hi sep.3 (omega arith),
      merge_remove-right (x ∷ xs) (interval b e),
      lower_bound-upper [] xs x top,
      remove_right-Absorbed (x ∷ xs) xs (record { before = []; after = x ∷ xs }) x top (x.end + 1)
          hi,
      remove_with-touch x xs b e m,
      absorb-cons x xs e,
    )

merge_remove-first :
    (x : Interval) (xs : List Interval) (b e lo hi : ℕ)
    → hi + 2 < u32_mod
    → SeparatedFrom lo hi (x ∷ xs)
    → b < e
    → e ≤ hi
    → b ≤ x.end
    → less x (interval b e) ≡ false
    → let r = remove_with (x ∷ xs) b e in merge_remove (x ∷ xs) (interval b e) ≡ (some r.0, r.1)
unfolding lower_bound lower_bound_from merge_left remove_right absorb
merge_remove-first x xs b e lo hi fits sep v k m l =
    let s = x ∷ xs in
    elim (Bool-cases (less x (upper e))) [
      | inl t ↦ ground (
        arith,
        l,
        t,
        less-upper x e,
        merge_remove-right s (interval b e),
        lower_bound-upper [] xs x e,
        remove_right-Absorbed s xs (record { before = []; after = s }) x e (x.end + 1) hi,
        remove_with-touch x xs b e m,
      )
      | inr f ↦ ground (
        arith,
        l,
        f,
        less-upper x e,
        merge_remove-right s (interval b e),
        remove_with-touch x xs b e m,
      )
    ]

merge_remove-empty :
    (b e : ℕ) → b < e → e + 2 < u32_mod → merge_remove [] (interval b e) ≡ (some e, [])
unfolding merge_remove lower_bound lower_bound_from merge_left remove_right make
merge_remove-empty b e v fits = ground arith

pub merge_remove-remove_with :
    (s : List Interval) (b e lo hi : ℕ)
    → hi + 2 < u32_mod
    → SeparatedFrom lo hi s
    → b < e
    → e ≤ hi
    → let r = remove_with s b e in merge_remove s (interval b e) ≡ (some r.0, r.1)
unfolding remove_with
merge_remove-remove_with [] b e lo hi fits sep v k = merge_remove-empty b e v (omega arith)
merge_remove-remove_with (x ∷ xs) b e lo hi fits sep v k = elim (Bool-cases (ltb x.end b)) [
  | inl apart ↦ ground (
    arith,
    apart,
    merge_remove-extend x xs (interval b e) hi fits (Between-SeparatedFrom (x.end + 1) hi xs sep.3),
    merge_remove-remove_with xs b e (x.end + 1) hi fits sep.3 v k,
  )
  | inr meets ↦ elim (Bool-cases (less x (interval b e))) [
    | inl l ↦ merge_remove-left x xs b e lo hi fits sep v k (ltb→le x.end b meets) l
    | inr n ↦ merge_remove-first x xs b e lo hi fits sep v k (ltb→le x.end b meets) n
  ]
]
