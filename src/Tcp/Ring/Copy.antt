-- ===== src/Tcp/Ring/Copy.antt =====
-- What a copy into the array leaves at each index.
use tns.Common.{
  ℕ, zero, suc, ◌+◌, ◌≤◌, ◌<◌, ◌≡◌, ◌⊎◌, refl, List, [], ◌∷◌, arith, length, set, get_or, take,
  drop, length-set, get_or-set_self, get_or-set_ne,
}
use tns.Tcp.Ring.{copy_to}

pub length-copy_to : (buf : List ℕ) (i : ℕ) (xs : List ℕ) → length (copy_to buf i xs) ≡ length buf
unfolding copy_to
length-copy_to buf i [] = refl
length-copy_to buf i (x ∷ xs) =
    omega (arith, length-copy_to (set buf i x) (i + 1) xs, length-set buf i x)

-- An index in front of the copy or behind it keeps its byte.
pub get_or-copy_to_out :
    (buf : List ℕ) (i : ℕ) (xs : List ℕ) (j : ℕ)
    → (j < i) ⊎ (i + length xs ≤ j)
    → get_or (copy_to buf i xs) j 0 ≡ get_or buf j 0
unfolding copy_to
get_or-copy_to_out buf i [] j h = refl
get_or-copy_to_out buf i (x ∷ xs) j h =
    ground (arith, get_or-copy_to_out (set buf i x) (i + 1) xs j, get_or-set_ne buf i j x 0)

pub get_or-copy_to_in :
    (buf : List ℕ) (i : ℕ) (xs : List ℕ) (j : ℕ)
    → j < length xs
    → i + length xs ≤ length buf
    → get_or (copy_to buf i xs) (i + j) 0 ≡ get_or xs j 0
unfolding copy_to
get_or-copy_to_in buf i [] j h k = absurd (omega arith)
get_or-copy_to_in buf i (x ∷ xs) zero h k = ground (
  arith,
  get_or-copy_to_out (set buf i x) (i + 1) xs (i + 0),
  get_or-set_self buf i x 0,
  get_or-copy_to_out (set buf i x) (i + 1) xs i,
)
get_or-copy_to_in buf i (x ∷ xs) (suc j) h k =
    ground (arith, get_or-copy_to_in (set buf i x) (i + 1) xs j, length-set buf i x)

pub get_or-take : (n : ℕ) (xs : List ℕ) (j : ℕ) → j < n → get_or (take n xs) j 0 ≡ get_or xs j 0
get_or-take zero xs j h = absurd (omega arith)
get_or-take (suc n) [] j h = refl
get_or-take (suc n) (x ∷ xs) zero h = refl
get_or-take (suc n) (x ∷ xs) (suc j) h = get_or-take n xs j (omega arith)

pub get_or-drop : (n : ℕ) (xs : List ℕ) (j : ℕ) → get_or (drop n xs) j 0 ≡ get_or xs (n + j) 0
get_or-drop zero xs j = ground arith
get_or-drop (suc n) [] j = refl
get_or-drop (suc n) (x ∷ xs) j = ground (arith, get_or-drop n xs j)

pub drop-cons : (i : ℕ) (xs : List ℕ) → i < length xs → drop i xs ≡ get_or xs i 0 ∷ drop (i + 1) xs
drop-cons zero [] h = absurd (omega arith)
drop-cons zero (x ∷ xs) h = ground arith
drop-cons (suc i) [] h = absurd (omega arith)
drop-cons (suc i) (x ∷ xs) h =
    let e : suc i + 1 ≡ suc (i + 1) = omega arith in rw e (drop-cons i xs (omega arith))
