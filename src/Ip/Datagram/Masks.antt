-- ===== src/Ip/Datagram/Masks.antt =====
-- The loop of `subnetMaskLength` ends for every mask, and gives back the length that a mask of
-- `parseCidr` was made of.
use native.Mathlib.Nat.{mul_assoc, mul_comm, mul-sub}
use tns.Common.{
  ℕ, zero, suc, ◌+◌, ◌-◌, ◌*◌, ◌≤◌, ◌<◌, ◌≡◌, refl, sym, ◌∙◌, ap, Bool, true, false, ◌&&◌, none,
  some, arith, to_u32, u32_mod, inl, inr, Bool-cases, ltb, ltb→lt, ltb→le, ◌==◌,
}
use tns.Ip.Datagram.{mask_length_loop, subnet_mask_length, mask_of_length}

-- A multiple of `p`, `2 * w` of which are 2 ^ 32, is one of `p * 2` after a shift.
shift-multiple :
    (q p w : ℕ)
    → p * (2 * w) ≡ u32_mod
    → q * p < u32_mod
    → (r : ℕ) × (to_u32 (q * p * 2) ≡ r * (p * 2)) × (r * (p * 2) < u32_mod)
shift-multiple q p w h lt =
    let twice : q * (p * 2) ≡ q * p * 2 = sym (mul_assoc q p 2) in
    let all : (p * 2) * w ≡ u32_mod = mul_assoc p 2 w ∙ h in
    elim (Bool-cases (ltb (q * p * 2) u32_mod)) [
      | inl small ↦
          let below = ltb→lt _ _ small in (q, omega (arith, twice), (omega (arith, twice)))
      | inr large ↦
          let above = ltb→le _ _ large in
          let less : (q - w) * (p * 2) ≡ q * (p * 2) - u32_mod =
            mul_comm (q - w) (p * 2)
            ∙ mul-sub (p * 2) q w
            ∙ ap (λ x. x - (p * 2) * w) (mul_comm (p * 2) q)
            ∙ ap (λ x. q * (p * 2) - x) all in
          (q - w, omega (arith, twice, less), (omega (arith, twice, less)))
    ]

power : ℕ → ℕ
power zero = 1
power (suc n) = 2 * power n

loop-ends :
    (rounds q p m len : ℕ)
    → p * power rounds ≡ u32_mod
    → m ≡ q * p
    → m < u32_mod
    → (n : ℕ) × (mask_length_loop rounds m len ≡ some n) × (n ≤ len + rounds)
unfolding mask_length_loop power
loop-ends rounds q p zero len h e lt = (len, refl, omega arith)
loop-ends zero q p (suc m) len h e lt =
    let p_eq : p ≡ u32_mod = omega arith in absurd (omega (arith, e, ap (λ (x : ℕ). q * x) p_eq))
loop-ends (suc rounds) q p (suc m) len h e lt =
    let (r, shifted, small) = shift-multiple q p (power rounds) h (omega (arith, e)) in
    let next : to_u32 (suc m * 2) ≡ r * (p * 2) = ap (λ x. to_u32 (x * 2)) e ∙ shifted in
    let (n, ends, short) =
      loop-ends rounds r (p * 2) (to_u32 (suc m * 2)) (len + 1) (mul_assoc p 2 (power rounds) ∙ h)
        next (omega arith) in
    (n, ends, (omega (arith, short)))

-- The loop ends for every mask within 32 rounds.
pub subnet_mask_length-ends :
    (mask : ℕ) → mask < u32_mod → (n : ℕ) × (subnet_mask_length mask ≡ some n) × (n ≤ 32)
unfolding subnet_mask_length power
subnet_mask_length-ends mask h = loop-ends 32 mask 1 mask 0 refl (omega arith) h

has_length : ℕ → Bool
has_length len = elim (subnet_mask_length (mask_of_length len)) [ none ↦ false | some n ↦ n == len ]

all_below : ℕ → (ℕ → Bool) → Bool
all_below zero p = true
all_below (suc n) p = p n && all_below n p

all_below-lt : (n : ℕ) (p : ℕ → Bool) (x : ℕ) → all_below n p ≡ true → x < n → p x ≡ true
unfolding all_below
all_below-lt zero p x h lt = absurd (omega arith)
all_below-lt (suc n) p x h lt = ground (arith, all_below-lt n p x)

has_length-table : all_below 33 has_length ≡ true
unfolding all_below has_length subnet_mask_length mask_of_length mask_length_loop
has_length-table = refl

-- The mask that is made of a length from 0 to 32 has that length.
pub subnet_mask_length-mask_of_length :
    (len : ℕ) → len ≤ 32 → subnet_mask_length (mask_of_length len) ≡ some len
unfolding has_length
subnet_mask_length-mask_of_length len h =
    let found = all_below-lt 33 has_length len has_length-table (omega arith) in
    (ground (arith, found))
