-- ===== src/Tcp/Ring/Windows.antt =====
-- The bytes at consecutive absolute indices, and what a write does to them.
use native.Mathlib.Nat.{mod-eq_of_lt}
use tns.Common.{
  ℕ, zero, suc, ◌+◌, ◌-◌, ◌%◌, ◌≤◌, ◌<◌, ◌≡◌, refl, ap, ap₂, ◌∙◌, List, [], ◌∷◌, ◌++◌, arith,
  length, get_or, take, drop,
}
use tns.Tcp.Ring.{slice}
use tns.Tcp.Ring.Copy.{drop-cons}

module _ (cap : ℕ) (buf : List ℕ) where
  -- The `n` bytes from the absolute index `at` on.
  abbrev pub window : ℕ → ℕ → List ℕ
  window at zero = []
  window at (suc n) = get_or buf (at % cap) 0 ∷ window (at + 1) n

  pub length-window : (at n : ℕ) → length (window at n) ≡ n
  length-window at zero = refl
  length-window at (suc n) = ap suc (length-window (at + 1) n)

  pub window-add : (at m n : ℕ) → window at (m + n) ≡ window at m ++ window (at + m) n
  window-add at zero n = ground arith
  window-add at (suc m) n =
      let e : suc m + n ≡ suc (m + n) = omega arith in
      let f : at + 1 + m ≡ at + suc m = omega arith in
      rw e (
        ap (λ l. get_or buf (at % cap) 0 ∷ l)
          (window-add (at + 1) m n ∙ ap (λ k. window (at + 1) m ++ window k n) f))

  pub take-window : (at n m : ℕ) → m ≤ n → take m (window at n) ≡ window at m
  take-window at n zero h = refl
  take-window at zero (suc m) h = absurd (omega arith)
  take-window at (suc n) (suc m) h =
      ap (λ l. get_or buf (at % cap) 0 ∷ l) (take-window (at + 1) n m (omega arith))

  pub drop-window : (at n m : ℕ) → m ≤ n → drop m (window at n) ≡ window (at + m) (n - m)
  drop-window at n zero h = ground arith
  drop-window at zero (suc m) h = absurd (omega arith)
  drop-window at (suc n) (suc m) h = (ground (arith, drop-window (at + 1) n m))

  -- A slice inside the array is a window.
  pub slice-window : (i n : ℕ) → i + n ≤ cap → cap ≤ length buf → slice buf i n ≡ window i n
  slice-window i zero h k = refl
  slice-window i (suc n) h k =
      let e : i % cap ≡ i = mod-eq_of_lt (omega arith) in
      rw (drop-cons i buf (omega arith), e)
        (ap (λ l. get_or buf i 0 ∷ l) (slice-window (i + 1) n (omega arith) k))

-- Windows agree where the bytes do.
pub window-eq :
    (cap : ℕ) (buf buf' : List ℕ) (at at' n : ℕ)
    → ((i : ℕ) → i < n → get_or buf ((at + i) % cap) 0 ≡ get_or buf' ((at' + i) % cap) 0)
    → window cap buf at n ≡ window cap buf' at' n
window-eq cap buf buf' at at' zero h = refl
window-eq cap buf buf' at at' (suc n) h =
    ap₂ ◌∷◌ (ground (arith, h 0))
      (window-eq cap buf buf' (at + 1) (at' + 1) n (λ i k. (ground (arith, h (i + 1)))))
