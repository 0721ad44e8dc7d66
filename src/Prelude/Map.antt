-- ===== src/Prelude/Map.antt =====
-- Go maps as association lists: a write replaces in place or appends, a delete removes.
use mathlib.Core.Path.{◌≡◌, refl, subst}
use mathlib.Core.Option.{Option, none, some}
use mathlib.Core.List.{List, [], ◌∷◌}
use Prim.Native.Nat.{suc, ◌≤◌, ◌<◌}
use native.Mathlib.Omega.{arith}
use mathlib.Core.Logic.{inl, inr}
use roblox_mcp_gateway.Prelude.Tests.{if◌then◌else◌, Bool-cases}
use roblox_mcp_gateway.Prelude.Lists.{length, All}
use roblox_mcp_gateway.Prelude.Equality.{Comparable, ◌==◌}

module _ {ℓ κ} {K : Type ℓ} {V : Type κ} ⦃e : Comparable K⦄ where
  unfoldable pub lookup : K → List (K × V) → Option V
  lookup key [] = none
  lookup key ((first, value) ∷ rest) = if first == key then some value else lookup key rest

  unfoldable pub erase : K → List (K × V) → List (K × V)
  erase key [] = []
  erase key ((first, value) ∷ rest) =
      (let others = erase key rest in if first == key then others else (first, value) ∷ others)

  unfoldable pub insert : K → V → List (K × V) → List (K × V)
  insert key new [] = (key, new) ∷ []
  insert key new ((first, value) ∷ rest) =
      if first == key then (key, new) ∷ rest else (first, value) ∷ insert key new rest

  -- What a key maps to after a write, and after a removal.
  pub lookup-insert :
      (written key : K) (new : V) (m : List (K × V))
      → lookup key (insert written new m) ≡ (if written == key then some new else lookup key m)
  unfolding lookup insert
  lookup-insert written key new [] = refl
  lookup-insert written key new ((first, value) ∷ rest) = ground (
    arith,
    e.equals_iff first written,
    e.equals_iff first key,
    e.equals_iff written key,
    lookup-insert written key new rest,
  )

  pub lookup-erase :
      (removed key : K) (m : List (K × V))
      → lookup key (erase removed m) ≡ (if removed == key then none else lookup key m)
  unfolding lookup erase
  lookup-erase removed key [] = ground arith
  lookup-erase removed key ((first, value) ∷ rest) = ground (
    arith,
    e.equals_iff first removed,
    e.equals_iff first key,
    e.equals_iff removed key,
    lookup-erase removed key rest,
  )

  pub length-insert : (k : K) (v : V) (m : List (K × V)) → length (insert k v m) ≤ suc (length m)
  unfolding insert
  length-insert k v [] = omega arith
  length-insert k v ((i, w) ∷ m) = ground (arith, length-insert k v m)

  pub length-erase : (k : K) (m : List (K × V)) → length (erase k m) ≤ length m
  unfolding erase
  length-erase k [] = omega arith
  length-erase k ((i, w) ∷ m) = ground (arith, length-erase k m)

  pub length-erase_lt :
      (k : K) (v : V) (m : List (K × V)) → lookup k m ≡ some v → length (erase k m) < length m
  unfolding lookup erase
  length-erase_lt k v [] h = cc
  length-erase_lt k v ((i, w) ∷ m) h = ground (arith, length-erase_lt k v m, length-erase k m)

  -- Writing a key that is there replaces its value.
  pub length-insert_old :
      (k : K) (v w : V) (m : List (K × V)) → lookup k m ≡ some w → length (insert k v m) ≡ length m
  unfolding lookup insert
  length-insert_old k v w [] h = cc
  length-insert_old k v w ((i, u) ∷ m) h = ground (arith, length-insert_old k v w m)

  -- What holds of every entry holds of one that is found, and is kept by a write and a removal. A write
  -- may rename an entry to an equal key, so the property is one of the pair.
  pub All-lookup {μ} :
      (P : K × V → Type μ) (k : K) (v : V) (m : List (K × V))
      → All P m
      → lookup k m ≡ some v
      → P (k, v)
  unfolding lookup
  All-lookup P k v [] h found = absurd (ground (arith))
  All-lookup P k v ((i, w) ∷ m) h found = elim (Bool-cases (i == k)) [
    | inl same ↦
        let q : (i ≡ k) × (w ≡ v) = ((e.equals_iff i k).0 same, ground arith) in
        subst (λ x. P (k, x)) q.1 (subst (λ x. P (x, w)) q.0 h.0)
    | inr other ↦ All-lookup P k v m h.1 (ground arith)
  ]

  pub All-insert {μ} :
      (P : K × V → Type μ) (k : K) (v : V) (m : List (K × V))
      → All P m
      → P (k, v)
      → All P (insert k v m)
  unfolding insert
  All-insert P k v [] h p = (p, tt)
  All-insert P k v ((i, w) ∷ m) h p = elim (Bool-cases (i == k)) [
    | inl same ↦ rw same (p, h.1)
    | inr other ↦ rw other (h.0, All-insert P k v m h.1 p)
  ]

  pub All-erase {μ} : (P : K × V → Type μ) (k : K) (m : List (K × V)) → All P m → All P (erase k m)
  unfolding erase
  All-erase P k [] h = h
  All-erase P k ((i, w) ∷ m) h = elim (Bool-cases (i == k)) [
    | inl same ↦ rw same (All-erase P k m h.1)
    | inr other ↦ rw other (h.0, All-erase P k m h.1)
  ]
