-- ===== src/Tcp/Intervals/Absorb.antt =====
-- What the search for `right` finds, against `absorb`.
use tns.Common.{
  ℕ, suc, ◌+◌, ◌≤◌, ◌<◌, ◌≡◌, ◌⊎◌, refl, true, false, List, [], ◌∷◌, arith, length, add_u32,
  Bool-cases, max, u32_mod, inl, inr, u32_mod,
}
use tns.Tcp.Intervals.{
  Interval, less, Cursor, rev_append, to_list, lower_bound_from, lower_bound, emplace_at, emplace,
  max_prev,
}
use tns.Tcp.Intervals.Spec.{SeparatedFrom, absorb}
use tns.Tcp.Intervals.Frame.{Between}

-- The key with which the code looks for the first interval that begins after `e + 1`.
abbrev pub upper : ℕ → Interval
upper e = record { begin = add_u32 e 1; end = add_u32 e 2 }

abbrev pub interval : ℕ → ℕ → Interval
interval b e = record { begin = b; end = e }

pub less-upper :
    (x : Interval) (e : ℕ)
    → x.begin < x.end
    → e + 2 < u32_mod
    → (less x (upper e) ≡ true → x.begin ≤ e) × (less x (upper e) ≡ false → e < x.begin)
unfolding less
less-upper x e v fits = ground arith

pub less_asym : (x y : Interval) → less x y ≡ true → less y x ≡ false
unfolding less
less_asym x y h = ground arith

pub less_begin : (x : Interval) (b e : ℕ) → less x (interval b e) ≡ true → x.begin ≤ b
unfolding less
less_begin x b e h = ground arith

pub less_begin' : (x : Interval) (b e : ℕ) → less (interval b e) x ≡ true → b ≤ x.begin
unfolding less
less_begin' x b e h = ground arith

pub less_neither :
    (x : Interval) (b e : ℕ)
    → less x (interval b e) ≡ false
    → less (interval b e) x ≡ false
    → (x.begin ≡ b) × (x.end ≡ e)
unfolding less
less_neither x b e h k = ground arith

pub record Absorbed (p : Interval) (bef s : List Interval) (e : ℕ) (c : Cursor) : Type 0 where
  pub after : c.after ≡ (absorb s (max e p.end)).1
  pub last : max_prev c e ≡ (absorb s (max e p.end)).0
  pub grows : suc (length bef) ≤ length c.before
  pub same : length c.before ≡ suc (length bef) → c ≡ record { before = p ∷ bef; after = s }

pub lower_bound_from-Absorbed :
    (p : Interval) (bef s : List Interval) (lo hi e : ℕ)
    → SeparatedFrom lo hi s
    → (p.end ≤ e) ⊎ (p.end < lo)
    → e + 2 < u32_mod
    → Absorbed p bef s e (lower_bound_from (p ∷ bef) s (upper e))
unfolding lower_bound_from absorb max_prev
lower_bound_from-Absorbed p bef [] lo hi e h k fits = ground arith
lower_bound_from-Absorbed p bef (x ∷ s) lo hi e h k fits = elim (Bool-cases (less x (upper e))) [
  | inl t ↦ ground (
    arith,
    t,
    less-upper x e,
    lower_bound_from-Absorbed x (p ∷ bef) s (x.end + 1) hi e h.3 (inr (omega arith)) fits,
  )
  | inr f ↦ ground (arith, f, less-upper x e)
]

pub absorb-SeparatedFrom :
    (s : List Interval) (lo hi e : ℕ)
    → SeparatedFrom lo hi s
    → e ≤ hi
    → let r = absorb s e in (e ≤ r.0) × (r.0 ≤ hi) × SeparatedFrom (r.0 + 1) hi r.1
unfolding absorb
absorb-SeparatedFrom [] lo hi e h k = ground arith
absorb-SeparatedFrom (x ∷ s) lo hi e h k =
    ground (arith, absorb-SeparatedFrom s (x.end + 1) hi (max e x.end) h.3)

pub absorb-cons :
    (x : Interval) (xs : List Interval) (e : ℕ)
    → x.begin ≤ e
    → absorb (x ∷ xs) e ≡ absorb xs (max e x.end)
unfolding absorb
absorb-cons x xs e h = ground arith

pub absorb-stop :
    (s : List Interval) (e lo hi : ℕ) → SeparatedFrom lo hi s → e < lo → absorb s e ≡ (e, s)
unfolding absorb
absorb-stop [] e lo hi h k = refl
absorb-stop (x ∷ s) e lo hi h k = ground arith

pub lower_bound-upper :
    (bef s : List Interval) (x : Interval) (e : ℕ)
    → x.begin ≤ e
    → x.begin < x.end
    → e + 2 < u32_mod
    → lower_bound_from bef (x ∷ s) (upper e) ≡ lower_bound_from (x ∷ bef) s (upper e)
unfolding lower_bound_from less
lower_bound-upper bef s x e h v fits = ground arith

pub emplace-front :
    (s : List Interval) (m : Interval) (hi : ℕ)
    → m.begin < m.end
    → SeparatedFrom (m.end + 1) hi s
    → to_list (emplace s m).0 ≡ m ∷ s
unfolding emplace emplace_at lower_bound lower_bound_from to_list rev_append less
emplace-front [] m hi v h = refl
emplace-front (x ∷ s) m hi v h = ground arith

pub Between-mono :
    (lo lo' hi : ℕ) (s : List Interval) → lo ≤ lo' → Between lo' hi s → Between lo hi s
Between-mono lo lo' hi [] h b = tt
Between-mono lo lo' hi (x ∷ s) h b = ((omega arith, b.0.1, b.0.2), Between-mono lo lo' hi s h b.1)

pub Between-SeparatedFrom :
    (lo hi : ℕ) (s : List Interval) → SeparatedFrom lo hi s → Between lo hi s
Between-SeparatedFrom lo hi [] h = tt
Between-SeparatedFrom lo hi (x ∷ s) h = (
  (h.0, h.1, h.2),
  Between-mono lo (x.end + 1) hi s (omega arith) (Between-SeparatedFrom (x.end + 1) hi s h.3),
)
