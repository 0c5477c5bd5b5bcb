-- ===== src/Common/Words.antt =====
-- Unsigned machine integers as native numbers: what wraps is written out.
use Prim.Native.Nat.{ℕ, ◌+◌, ◌-◌, ◌%◌, ◌^◌}

abbrev pub u16_mod : ℕ
u16_mod = 2 ^ 16

abbrev pub u32_mod : ℕ
u32_mod = 2 ^ 32

-- A conversion to `uint16_t` and to `uint32_t`.
abbrev pub to_u16 : ℕ → ℕ
to_u16 a = a % u16_mod

abbrev pub to_u32 : ℕ → ℕ
to_u32 a = a % u32_mod

-- `uint32_t` addition and subtraction. `-` on ℕ is truncated, so the modulus is added first.
abbrev pub add_u32 : ℕ → ℕ → ℕ
add_u32 a b = (a + b) % u32_mod

abbrev pub sub_u32 : ℕ → ℕ → ℕ
sub_u32 a b = (a + u32_mod - b) % u32_mod
