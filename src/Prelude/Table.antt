-- ===== src/Prelude/Table.antt =====
-- Database tables as lists of rows: SELECT the first match, COUNT, and UPDATE every match.
use mathlib.Core.Path.{◌≡◌, refl}
use mathlib.Core.Bool.{Bool, true, false}
use mathlib.Core.Option.{Option, none, some}
use mathlib.Core.List.{List, [], ◌∷◌}
use Prim.Native.Nat.{ℕ, suc}
use native.Mathlib.Omega.{arith}
use roblox_mcp_gateway.Prelude.Tests.{if◌then◌else◌}

module _ {ℓ} {A : Type ℓ} where
  unfoldable pub select : (A → Bool) → List A → Option A
  select p [] = none
  select p (x ∷ xs) = if p x then some x else select p xs

  unfoldable pub count_where : (A → Bool) → List A → ℕ
  count_where p [] = 0
  count_where p (x ∷ xs) = if p x then suc (count_where p xs) else count_where p xs

  unfoldable pub update : (A → Bool) → (A → A) → List A → List A
  update p f [] = []
  update p f (x ∷ xs) = (if p x then f x else x) ∷ update p f xs

  -- A selected row meets the condition.
  pub select_holds : (p : A → Bool) (xs : List A) (x : A) → select p xs ≡ some x → p x ≡ true
  unfolding select
  select_holds p [] x h = cc
  select_holds p (y ∷ ys) x h = ground (arith, select_holds p ys x)

  -- A row is found where it was, as the update leaves it, if the update keeps the condition's value.
  pub select-update :
      (p q : A → Bool) (f : A → A) (xs : List A)
      → ((x : A) → p (f x) ≡ p x)
      → select p (update q f xs)
        ≡ (elim (select p xs) [ none ↦ none | some x ↦ some (if q x then f x else x) ])
  unfolding select update
  select-update p q f [] keep = refl
  select-update p q f (x ∷ xs) keep = ground (arith, select-update p q f xs keep, keep x)

  -- No row is found after an update that leaves none with the condition.
  pub select-cleared :
      (p q : A → Bool) (f : A → A) (xs : List A)
      → ((x : A) → p (if q x then f x else x) ≡ false)
      → select p (update q f xs) ≡ none
  unfolding select update
  select-cleared p q f [] clears = refl
  select-cleared p q f (x ∷ xs) clears = ground (arith, select-cleared p q f xs clears, clears x)
