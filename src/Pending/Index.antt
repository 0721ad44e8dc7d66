-- ===== src/Pending/Index.antt =====
-- The two indexes of internal/mcpgateway/pending.go: which ids stand under which key.
use roblox_mcp_gateway.Prelude.{
  String, ◌≡◌, refl, ◌≢◌, ◌⊎◌, inl, inr, Bool, true, false, ◌||◌, List, [], ◌∷◌, ◌==◌,
  string_comparable, if◌then◌else◌, arith, eq_iff, Option-cases, List-cases,
}
use roblox_mcp_gateway.Prelude.Map.{lookup, insert, erase, lookup-insert, lookup-erase}
use roblox_mcp_gateway.Prelude.Set.{contains, add, remove, contains-add, contains-remove}
use roblox_mcp_gateway.Pending.{Index, members, add_to, drop_from}

-- The id stands under the key.
unfoldable pub indexed : String → String → Index → Bool
indexed k id m = contains id (members k m)

members-insert :
    (k j : String) (s : List String) (m : Index)
    → members j (insert k s m) ≡ (if k == j then s else members j m)
unfolding members
members-insert k j s m = ground (arith, lookup-insert k j s m)

members-erase :
    (k j : String) (m : Index) → members j (erase k m) ≡ (if k == j then [] else members j m)
unfolding members
members-erase k j m = ground (arith, lookup-erase k j m)

pub indexed-add_to :
    (k j id i : String) (m : Index)
    → indexed j i (add_to k id m) ≡ (if k == j then id == i || indexed j i m else indexed j i m)
unfolding indexed add_to
indexed-add_to k j id i m = ground (
  arith,
  members-insert k j (add id (members k m)) m,
  contains-add id i (members k m),
  eq_iff k j,
)

members-drop_from :
    (k j id : String) (m : Index)
    → members j (drop_from k id m) ≡ (if k == j then remove id (members j m) else members j m)
unfolding members drop_from remove
members-drop_from k j id m = elim (Option-cases (lookup k m)) [
  | inl e ↦ rw (e, drop_from) (ground (arith, eq_iff k j))
  | inr (s, e) ↦ elim (List-cases (remove id s)) [
    | inl gone ↦ rw (e, gone, drop_from) (ground (arith, eq_iff k j, lookup-erase k j m))
    | inr (x, xs, left) ↦
        rw (e, left, drop_from) (ground (arith, eq_iff k j, lookup-insert k j (x ∷ xs) m))
  ]
]

pub indexed-drop_from :
    (k j id i : String) (m : Index)
    → indexed j i (drop_from k id m)
      ≡ (if k == j then (if id == i then false else indexed j i m) else indexed j i m)
unfolding indexed
indexed-drop_from k j id i m =
    ground (arith, members-drop_from k j id m, contains-remove id i (members j m))

pub indexed-erase :
    (k j i : String) (m : Index)
    → indexed j i (erase k m) ≡ (if k == j then false else indexed j i m)
unfolding indexed contains
indexed-erase k j i m = ground (arith, members-erase k j m)

pub indexed-nil : (k i : String) → indexed k i [] ≡ false
unfolding indexed members contains lookup
indexed-nil k i = refl

-- What is left after a removal stood there before, and is not the pair that was removed.
pub of_drop_from :
    (k j id i : String) (m : Index)
    → indexed j i (drop_from k id m) ≡ true
    → (indexed j i m ≡ true) × (k ≡ j → id ≢ i)
of_drop_from k j id i m h = ground (arith, indexed-drop_from k j id i m, eq_iff k j, eq_iff id i)

pub of_add_to :
    (k j id i : String) (m : Index)
    → indexed j i (add_to k id m) ≡ true
    → ((k ≡ j) × (id ≡ i)) ⊎ (indexed j i m ≡ true)
of_add_to k j id i m h = ground (arith, indexed-add_to k j id i m, eq_iff k j, eq_iff id i)

pub of_erase :
    (k j i : String) (m : Index) → indexed j i (erase k m) ≡ true → (indexed j i m ≡ true) × (k ≢ j)
of_erase k j i m h = ground (arith, indexed-erase k j i m, eq_iff k j)
