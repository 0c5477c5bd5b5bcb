-- ===== src/Common/Maps.antt =====
-- std::map and std::unordered_map as lists of entries, in no order that counts: each is found by its
-- key alone.
use Prim.Native.Nat.{ℕ}
use mathlib.Core.Path.{◌≡◌, refl}
use mathlib.Core.Logic.{◌≢◌, ◌↔◌, inl, inr}
use mathlib.Core.Bool.{Bool, true, false}
use mathlib.Core.Option.{Option, none, some}
use mathlib.Core.List.{List, [], ◌∷◌}
use tns.Common.Tests.{if◌then◌else◌, ==→eq, eq→==, ◌==◌, Bool-cases}
use native.Mathlib.Omega.{arith}

pub record Eq {ℓ} (K : Type ℓ) : Type ℓ where
  pub same : K → K → Bool
  pub same_iff : (a b : K) → (same a b ≡ true) ↔ (a ≡ b)

instance abbrev pub nat_eq : Eq ℕ
nat_eq = record { same = ◌==◌; same_iff = λ a b. (==→eq a b, eq→== a b) }

abbrev pub Map {ℓ κ} : Type ℓ → Type κ → Type (ℓ ⊔ κ)
Map K V = List (K × V)

abbrev pub is_some {ℓ} : {A : Type ℓ} → Option A → Bool
is_some none = false
is_some (some a) = true

abbrev pub map_option {ℓ κ} : {A : Type ℓ} {B : Type κ} → (A → B) → Option A → Option B
map_option f none = none
map_option f (some a) = some (f a)

module _ {ℓ} {K : Type ℓ} ⦃e : Eq K⦄ where
  pub same_refl : (k : K) → e.same k k ≡ true
  same_refl k = (e.same_iff k k).1 refl

  pub same-ne : (j k : K) → j ≢ k → e.same j k ≡ false
  same-ne j k h = elim (Bool-cases (e.same j k)) [
    | inl eq ↦ absurd (h ((e.same_iff j k).0 eq))
    | inr ne ↦ ne
  ]

module _ {ℓ κ} {K : Type ℓ} {V : Type κ} ⦃e : Eq K⦄ where
  unfoldable pub find : K → Map K V → Option V
  find k [] = none
  find k ((j, v) ∷ m) = if e.same k j then some v else find k m

  -- `try_emplace`: an entry of the key that is there stays.
  unfoldable pub emplace : K → V → Map K V → Map K V
  emplace k v m = if is_some (find k m) then m else (k, v) ∷ m

  unfoldable pub erase : K → Map K V → Map K V
  erase k [] = []
  erase k ((j, v) ∷ m) = let rest = erase k m in if e.same k j then rest else (j, v) ∷ rest

  -- A change of the value of a key through a reference to it.
  unfoldable pub modify : K → (V → V) → Map K V → Map K V
  modify k f [] = []
  modify k f ((j, v) ∷ m) = (j, (if e.same k j then f v else v)) ∷ modify k f m

  pub find-emplace :
      (j k : K) (v : V) (m : Map K V)
      → find k m ≡ none
      → find j (emplace k v m) ≡ (if e.same j k then some v else find j m)
  unfolding emplace find
  find-emplace j k v m h = rw h refl

  pub find-erase :
      (j k : K) (m : Map K V) → find j (erase k m) ≡ (if e.same j k then none else find j m)
  unfolding erase find
  find-erase j k [] = ground arith
  find-erase j k ((i, v) ∷ m) =
      ground (arith, find-erase j k m, e.same_iff j k, e.same_iff j i, e.same_iff k i)

  pub find-modify :
      (j k : K) (f : V → V) (m : Map K V)
      → find j (modify k f m) ≡ (if e.same j k then map_option f (find j m) else find j m)
  unfolding modify find
  find-modify j k f [] = ground arith
  find-modify j k f ((i, v) ∷ m) =
      ground (arith, find-modify j k f m, e.same_iff j k, e.same_iff j i, e.same_iff k i)
