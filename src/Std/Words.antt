-- ===== src/Std/Words.antt =====
-- Unsigned machine integers as native numbers: wrap-around and saturation are written out.
use nbnet.Prelude.{ℕ, ◌+◌, ◌-◌, ◌*◌, ◌^◌, ◌%◌, ◌≤◌, ◌<◌, ◌≡◌, min, arith}

abbrev pub u32_mod : ℕ
u32_mod = 2 ^ 32

abbrev pub u64_mod : ℕ
u64_mod = 2 ^ 64

abbrev pub u64_max : ℕ
u64_max = 2 ^ 64 - 1

abbrev pub u128_max : ℕ
u128_max = 2 ^ 128 - 1

abbrev pub u256_mod : ℕ
u256_mod = 2 ^ 256

abbrev pub u256_max : ℕ
u256_max = 2 ^ 256 - 1

-- `saturating_add`, `saturating_mul` and `saturating_sub` of a type whose largest value is `top`.
unfoldable pub saturating_add : ℕ → ℕ → ℕ → ℕ
saturating_add top a b = min (a + b) top

unfoldable pub saturating_mul : ℕ → ℕ → ℕ → ℕ
saturating_mul top a b = min (a * b) top

unfoldable pub saturating_sub : ℕ → ℕ → ℕ
saturating_sub a b = a - b

pub saturating_add-le : (top a b : ℕ) → saturating_add top a b ≤ top
unfolding saturating_add
saturating_add-le top a b = omega arith

pub saturating_add_exact : (top a b : ℕ) → a + b ≤ top → saturating_add top a b ≡ a + b
unfolding saturating_add
saturating_add_exact top a b h = omega arith

-- `a + b` on `u64` in a build without overflow checks.
unfoldable pub wrapping_add : ℕ → ℕ → ℕ
wrapping_add a b = (a + b) % u64_mod

unfoldable pub wrapping_sub : ℕ → ℕ → ℕ
wrapping_sub a b = (a + (u64_mod - b)) % u64_mod

pub wrapping_add_exact : (a b : ℕ) → a + b < u64_mod → wrapping_add a b ≡ a + b
unfolding wrapping_add
wrapping_add_exact a b h = omega arith
