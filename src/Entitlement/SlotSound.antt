-- ===== src/Entitlement/SlotSound.antt =====
-- The transactions on licenses and devices keep the bound devices within the slots.
use roblox_mcp_gateway.Prelude.{
  ℕ, ◌≤◌, String, ◌≡◌, refl, inl, inr, List, [], ◌∷◌, some, ◌==◌, nat_comparable, string_comparable,
  if◌then◌else◌, arith, eq_iff, Option-cases,
}
use roblox_mcp_gateway.Prelude.Table.{select, count_where, update, select_holds}
use roblox_mcp_gateway.Entitlement.{
  active, revoked, Binding, License, Store, nullable_string, ensure_user,
}
use roblox_mcp_gateway.Entitlement.Licenses.{
  license_has_id, of_license, holds_slot, move_to, transfer_slot, transfer_device, create_license,
  bind_slot, bind_device_slot, revoke_binding, revoke_device,
}
use roblox_mcp_gateway.Entitlement.Invariant.{slots_of, IsSound, Same-IsSound, count_where-update}

IsSound-slots :
    (s t : Store)
    → t.trials ≡ s.trials
    → t.identities ≡ s.identities
    → ((id : String) → count_where (of_license id) t.bindings ≤ slots_of id t.licenses)
    → IsSound s
    → IsSound t
IsSound-slots s t a b within sound = record {
  one_trial = λ u. ground (arith, sound.one_trial u);
  one_id = λ i. ground (arith, sound.one_id i);
  one_subject = λ p x. ground (arith, sound.one_subject p x);
  within_slots = within;
}

transfer_slot-within :
    (s : Store) (b : Binding) (new_id id : String)
    → count_where (of_license id) (update (λ x. x.id == b.id) (move_to new_id) s.bindings)
      ≡ count_where (of_license id) s.bindings
unfolding move_to of_license
transfer_slot-within s b new_id id =
    count_where-update (of_license id) (λ x. x.id == b.id) (move_to new_id) s.bindings (λ x. refl)

pub transfer-IsSound :
    (s : Store) (license_id old_id new_id reason transfer_id : String)
    → IsSound s
    → IsSound (transfer_device s license_id old_id new_id reason transfer_id).1
unfolding transfer_device transfer_slot
transfer-IsSound s license_id old_id new_id reason transfer_id sound =
    elim (Option-cases (select (license_has_id license_id) s.licenses)) [
      | inl e ↦ Same-IsSound s _ (ground arith) sound
      | inr (l, e) ↦ elim (Option-cases (select (holds_slot l.id old_id) s.bindings)) [
        | inl f ↦ Same-IsSound s _ (ground arith) sound
        | inr (b, f) ↦
            IsSound-slots s _ (ground arith) (ground arith)
              (λ id. ground (arith, sound.within_slots id, transfer_slot-within s b new_id id))
              sound
      ]
    ]

-- The license that an id finds, with its own id.
found-slots :
    (id : String) (ls : List License) (l : License)
    → select (license_has_id id) ls ≡ some l
    → (l.id ≡ id) × (slots_of id ls ≡ l.device_slots)
unfolding slots_of license_has_id
found-slots id ls l e =
    (ground (arith, select_holds (license_has_id id) ls l e, eq_iff l.id id), ground arith)

pub bind_slot-IsSound :
    (s : Store) (license_id device_id binding_id : String)
    → IsSound s
    → IsSound (bind_device_slot s license_id device_id binding_id).1
unfolding bind_device_slot bind_slot of_license count_where
bind_slot-IsSound s license_id device_id binding_id sound =
    elim (Option-cases (select (license_has_id license_id) s.licenses)) [
      | inl e ↦ Same-IsSound s _ (ground arith) sound
      | inr (l, e) ↦
          IsSound-slots s _ (ground arith) (ground arith)
            (λ id. ground (
              arith,
              sound.within_slots id,
              found-slots license_id s.licenses l e,
              eq_iff license_id id,
            ))
            sound
    ]

-- A license with a new id changes the slots of no other.
create-slots :
    (l : License) (id : String) (ls : List License)
    → slots_of id (l ∷ ls) ≡ (if l.id == id then l.device_slots else slots_of id ls)
unfolding slots_of license_has_id select
create-slots l id ls = ground arith

absent-slots :
    (id : String) (ls : List License) → count_where (license_has_id id) ls ≡ 0 → slots_of id ls ≡ 0
unfolding slots_of license_has_id select count_where
absent-slots id [] h = refl
absent-slots id (l ∷ ls) h = ground (arith, absent-slots id ls)

pub create_license-IsSound :
    (s : Store) (user_id identity : String) (slots : ℕ) (id : String)
    → IsSound s
    → IsSound (create_license s user_id identity slots id).1
unfolding create_license ensure_user
create_license-IsSound s user_id identity slots id sound =
    (let l : License = record {
      id = id;
      user_id = user_id;
      roblox_identity_id = nullable_string identity;
      device_slots = slots;
      status = active;
    } in
      IsSound-slots s _ (ground arith) (ground arith)
        (λ i. ground (
          arith,
          sound.within_slots i,
          create-slots l i s.licenses,
          absent-slots id s.licenses,
          eq_iff id i,
        ))
        sound)

revoke-license :
    (s : Store) (device_id id : String)
    → count_where
        (of_license id)
        (update (revoke_binding device_id) (λ b. record b { status = revoked }) s.bindings)
      ≡ count_where (of_license id) s.bindings
unfolding of_license
revoke-license s device_id id =
    count_where-update (of_license id) (revoke_binding device_id) _ s.bindings (λ b. refl)

pub revoke-IsSound : (s : Store) (id : String) → IsSound s → IsSound (revoke_device s id).1
unfolding revoke_device
revoke-IsSound s id sound = elim (Option-cases (select (λ d. d.id == id) s.devices)) [
  | inl e ↦ Same-IsSound s _ (ground arith) sound
  | inr (d, e) ↦
      IsSound-slots s _ (ground arith) (ground arith)
        (λ i. ground (arith, sound.within_slots i, revoke-license s id i)) sound
]
