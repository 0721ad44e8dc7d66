-- ===== src/Prelude/Set.antt =====
-- Sets of keys as lists: Go maps of which only the key set is used.
use mathlib.Core.Path.{◌≡◌}
use mathlib.Core.Bool.{Bool, false, ◌||◌}
use mathlib.Core.List.{List, [], ◌∷◌}
use native.Mathlib.Omega.{arith}
use roblox_mcp_gateway.Prelude.Tests.{if◌then◌else◌}
use roblox_mcp_gateway.Prelude.Equality.{Comparable, ◌==◌}

module _ {ℓ} {K : Type ℓ} ⦃e : Comparable K⦄ where
  unfoldable pub contains : K → List K → Bool
  contains k [] = false
  contains k (x ∷ xs) = x == k || contains k xs

  unfoldable pub add : K → List K → List K
  add k xs = if contains k xs then xs else k ∷ xs

  unfoldable pub remove : K → List K → List K
  remove k [] = []
  remove k (x ∷ xs) = if x == k then remove k xs else x ∷ remove k xs

  pub contains-add : (k j : K) (xs : List K) → contains j (add k xs) ≡ (k == j || contains j xs)
  unfolding contains add
  contains-add k j xs = ground (arith, e.equals_iff k j)

  pub contains-remove :
      (k j : K) (xs : List K) → contains j (remove k xs) ≡ (if k == j then false else contains j xs)
  unfolding contains remove
  contains-remove k j [] = ground arith
  contains-remove k j (x ∷ xs) =
      ground (arith, e.equals_iff k j, e.equals_iff x k, e.equals_iff x j, contains-remove k j xs)
