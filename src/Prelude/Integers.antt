-- ===== src/Prelude/Integers.antt =====
-- Go's signed numbers, as far as they are compared with lengths and small constants.
use Prim.Native.Nat.{ℕ}
use mathlib.Core.Bool.{Bool, true, false}
use mathlib.Core.Path.{◌≡◌}
use mathlib.Core.Logic.{◌↔◌}
use native.Mathlib.Omega.{arith}
use roblox_mcp_gateway.Prelude.Tests.{ltb, nat_beq}

-- `negsuc n` is -(n + 1).
pub data ℤ : Type 0 where
  pos negsuc : ℕ → ℤ

-- `0 < i`
abbrev pub is_positive : ℤ → Bool
is_positive (pos n) = ltb 0 n
is_positive (negsuc n) = false

-- `i == n`
abbrev pub is_nat : ℤ → ℕ → Bool
is_nat (pos m) n = nat_beq m n
is_nat (negsuc m) n = false

-- `i < n`
abbrev pub is_below : ℤ → ℕ → Bool
is_below (pos m) n = ltb m n
is_below (negsuc m) n = true

pub is_nat_iff : (i : ℤ) (n : ℕ) → (is_nat i n ≡ true) ↔ (i ≡ pos n)
is_nat_iff (pos m) n = ground arith
is_nat_iff (negsuc m) n = ground arith
