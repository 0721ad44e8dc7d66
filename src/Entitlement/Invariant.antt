-- ===== src/Entitlement/Invariant.antt =====
-- What every transaction of internal/mysqlstore/entitlement_store.go keeps: one trial for each user
-- and each Roblox subject, and no more bound devices than a license has slots.
use roblox_mcp_gateway.Prelude.{
  ℕ, ◌≤◌, String, ◌≡◌, refl, Bool, true, false, List, [], ◌∷◌, Option, none, some, Except, ok, err,
  nat_comparable, string_comparable, if◌then◌else◌, arith,
}
use roblox_mcp_gateway.Prelude.Table.{select, count_where, update}
use roblox_mcp_gateway.Entitlement.{Error, FirstDeviceBinding, License, Store, Outcome, commit}
use roblox_mcp_gateway.Entitlement.Devices.{Draw}
use roblox_mcp_gateway.Entitlement.Trial.{
  has_subject, of_user, bind_first_device, has_id, extend_trial,
}
use roblox_mcp_gateway.Entitlement.Licenses.{
  license_has_id, of_license, transfer_device, recover_identity, create_license, create_device,
  bind_device_slot, revoke_device,
}

-- A transaction with its arguments and draws.
pub data Op : Type 0 where
  bind_first : FirstDeviceBinding → Draw → ℕ → Op
  extend : String → String → ℕ → String → Op
  transfer : String → String → String → String → String → Op
  recover : String → String → String → String → ℕ → Op
  license : String → String → ℕ → String → Op
  device : String → String → String → Op
  slot : String → String → String → Op
  revoke : String → Op

unfoldable pub apply : (String → Option String) → Store → Op → Store
apply decode s (bind_first input draw now) = (bind_first_device decode s input draw now).1
apply decode s (extend actor id ends_at reason) = (extend_trial s actor id ends_at reason).1
apply decode s (transfer license_id old_id new_id reason id) =
    (transfer_device s license_id old_id new_id reason id).1
apply decode s (recover user_id reason evidence id now) =
    (recover_identity s user_id reason evidence id now).1
apply decode s (license user_id identity slots id) = (create_license s user_id identity slots id).1
apply decode s (device user_id id name) = (create_device s user_id id name).1
apply decode s (slot license_id device_id id) = (bind_device_slot s license_id device_id id).1
apply decode s (revoke id) = (revoke_device s id).1

abbrev pub run : (String → Option String) → Store → List Op → Store
run decode s [] = s
run decode s (o ∷ ops) = run decode (apply decode s o) ops

-- The slots of a license, 0 where there is none.
unfoldable pub slots_of : String → List License → ℕ
slots_of id ls = elim (select (license_has_id id) ls) [ none ↦ 0 | some l ↦ l.device_slots ]

-- At most one trial of each user and each subject, and at most the slots of each license bound.
pub record IsSound (s : Store) : Type 0 where
  pub one_trial : (user_id : String) → count_where (of_user user_id) s.trials ≤ 1
  pub one_id : (id : String) → count_where (has_id id) s.trials ≤ 1
  pub one_subject :
      (provider subject : String) → count_where (has_subject provider subject) s.identities ≤ 1
  pub within_slots : (id : String) → count_where (of_license id) s.bindings ≤ slots_of id s.licenses

-- An UPDATE that keeps a column keeps the number of rows with a value in it.
pub count_where-update {ℓ} :
    {A : Type ℓ} (p q : A → Bool) (f : A → A) (xs : List A)
    → ((x : A) → p (f x) ≡ p x)
    → count_where p (update q f xs) ≡ count_where p xs
unfolding count_where update
count_where-update p q f [] keep = refl
count_where-update p q f (x ∷ xs) keep = ground (arith, count_where-update p q f xs keep, keep x)

-- The tables of the invariant are as they were.
abbrev pub Same : Store → Store → Type 0
Same s t =
    (t.trials ≡ s.trials)
    × (t.identities ≡ s.identities)
    × (t.bindings ≡ s.bindings)
    × (t.licenses ≡ s.licenses)

pub Same-IsSound : (s t : Store) → Same s t → IsSound s → IsSound t
Same-IsSound s t (a, b, c, d) sound = record {
  one_trial = λ u. ground (arith, sound.one_trial u);
  one_id = λ i. ground (arith, sound.one_id i);
  one_subject = λ p x. ground (arith, sound.one_subject p x);
  within_slots = λ id. ground (arith, sound.within_slots id);
}

-- The outcome of a transaction is sound if its branches are.
pub if-IsSound :
    {A : Type 0} (b : Bool) (x y : Outcome A)
    → IsSound x.1
    → IsSound y.1
    → IsSound (if b then x else y).1
if-IsSound true x y p q = p
if-IsSound false x y p q = q

pub commit-IsSound :
    {A : Type 0} (s : Store) (m : Except Error (A × Store))
    → IsSound s
    → ((a : A) (t : Store) → m ≡ ok (a, t) → IsSound t)
    → IsSound (commit s m).1
commit-IsSound s (ok (a, t)) p q = q a t refl
commit-IsSound s (err e) p q = p
