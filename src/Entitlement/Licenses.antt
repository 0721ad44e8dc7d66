-- ===== src/Entitlement/Licenses.antt =====
-- Licenses, device slots and identity recovery: `TransferDevice`, `RecoverIdentity`, `CreateLicense`,
-- `CreateDevice`, `BindDeviceSlot` and `RevokeDevice` of internal/mysqlstore/entitlement_store.go, with
-- the guards of internal/entitlement/service.go.
use roblox_mcp_gateway.Prelude.{
  ℕ, suc, String, Bool, not, ◌&&◌, ◌||◌, List, [], ◌∷◌, none, some, Except, ok, err, ◌>>◌,
  reject_if, ◌==◌, nat_comparable, string_comparable, if◌then◌else◌, leb,
}
use roblox_mcp_gateway.Prelude.Set.{contains}
use roblox_mcp_gateway.Prelude.Table.{select, count_where, update}
use roblox_mcp_gateway.Entitlement.{
  Error, not_found, no_slot, binding_not_found, invalid_argument, constraint_violation, active,
  revoked, is_active, Binding, License, Device, Credential, WebSession, Store, Outcome, commit,
  is_null, nullable_string, ensure_user,
}

unfoldable pub license_has_id : String → License → Bool
license_has_id id l = l.id == id

unfoldable pub of_license : String → Binding → Bool
of_license license_id b = b.license_id == license_id

-- The active binding of a device, and the unique key uq_binding_license_device.
unfoldable pub on_slot : String → String → Binding → Bool
on_slot license_id device_id b = b.license_id == license_id && b.device_id == device_id

unfoldable pub holds_slot : String → String → Binding → Bool
unfolding on_slot
holds_slot license_id device_id b = on_slot license_id device_id b && is_active b.status

unfoldable pub move_to : String → Binding → Binding
move_to device_id b = record b { device_id = device_id }

unfoldable pub device_of : String → String → Device → Bool
device_of id user_id d = d.id == id && d.user_id == user_id

-- The body of `TransferDevice` from the locked license on.
unfoldable pub transfer_slot :
    Store → License → String → String → String → String → Except Error ((Unit {0}) × Store)
unfolding on_slot holds_slot move_to device_of
transfer_slot s license old_device_id new_device_id reason transfer_id =
    elim (select (holds_slot license.id old_device_id) s.bindings) [
      | none ↦ err binding_not_found
      | some b ↦
          (reject_if
              (not (old_device_id == new_device_id)
                && not (count_where (on_slot license.id new_device_id) s.bindings == 0))
              constraint_violation
            >> reject_if (count_where (device_of new_device_id b.user_id) s.devices == 0)
                constraint_violation
            >> ok (
              tt,
              record s {
                bindings = update (λ x. x.id == b.id) (move_to new_device_id) s.bindings;
                transfers =
                    record {
                      id = transfer_id;
                      user_id = license.user_id;
                      license_id = license.id;
                      old_device_id = old_device_id;
                      new_device_id = new_device_id;
                      reason = reason;
                    }
                    ∷ s.transfers;
              },
            ))
    ]

unfoldable pub transfer_device :
    Store → String → String → String → String → String → Outcome (Unit {0})
unfolding license_has_id transfer_slot
transfer_device s license_id old_device_id new_device_id reason transfer_id =
    if reason == "" || license_id == "" || old_device_id == "" || new_device_id == ""
    then (err invalid_argument, s)
    else elim (select (license_has_id license_id) s.licenses) [
      | none ↦ (err not_found, s)
      | some l ↦ commit s (transfer_slot s l old_device_id new_device_id reason transfer_id)
    ]

unfoldable pub live_credential : String → Credential → Bool
live_credential user_id c = c.user_id == user_id && is_null c.revoked_at

unfoldable pub live_session : String → WebSession → Bool
live_session user_id w = w.user_id == user_id && is_null w.revoked_at

unfoldable pub recover_identity : Store → String → String → String → String → ℕ → Outcome (Unit {0})
unfolding live_credential live_session
recover_identity s user_id reason evidence_ref case_id now =
    if reason == "" || evidence_ref == "" || user_id == ""
    then (err invalid_argument, s)
    else if not (contains user_id s.users)
    then (err not_found, s)
    else (
      ok tt,
      record s {
        credentials =
            update (live_credential user_id) (λ c. record c { revoked_at = some now })
              s.credentials;
        sessions =
            update (live_session user_id) (λ w. record w { revoked_at = some now }) s.sessions;
        recoveries =
            record { id = case_id; user_id = user_id; reason = reason; evidence_ref = evidence_ref }
            ∷ s.recoveries;
      },
    )

unfoldable pub create_license : Store → String → String → ℕ → String → Outcome License
unfolding license_has_id ensure_user
create_license s user_id roblox_identity_id device_slots license_id =
    if user_id == "" || device_slots == 0
    then (err invalid_argument, s)
    else if not (count_where (license_has_id license_id) s.licenses == 0)
    then (err constraint_violation, s)
    else (let l : License = record {
      id = license_id;
      user_id = user_id;
      roblox_identity_id = nullable_string roblox_identity_id;
      device_slots = device_slots;
      status = active;
    } in
        (ok l, record (ensure_user s user_id) { licenses = l ∷ s.licenses }))

unfoldable pub create_device : Store → String → String → String → Outcome (Unit {0})
unfolding ensure_user
create_device s user_id device_id name =
    if user_id == "" || device_id == ""
    then (err invalid_argument, s)
    else if not (count_where (λ d. d.id == device_id) s.devices == 0)
    then (err constraint_violation, s)
    else (
      ok tt,
      record (ensure_user s user_id) {
        devices =
            record {
              id = device_id;
              user_id = user_id;
              name = name;
              hostname = none;
              platform = none;
              bridge_version = none;
              fingerprint = none;
              status = active;
            }
            ∷ s.devices;
      },
    )

-- `MAX(slot_ordinal)`, 0 for no row.
unfoldable pub max_ordinal : String → List Binding → ℕ
unfolding of_license
max_ordinal license_id [] = 0
max_ordinal license_id (b ∷ bs) =
    (let rest = max_ordinal license_id bs in
      if of_license license_id b && leb rest b.slot_ordinal then b.slot_ordinal else rest)

-- The body of `BindDeviceSlot` from the locked license on.
unfoldable pub bind_slot : Store → License → String → String → Except Error (Binding × Store)
unfolding of_license on_slot device_of max_ordinal
bind_slot s license device_id binding_id =
    (let b : Binding = record {
      id = binding_id;
      user_id = license.user_id;
      license_id = license.id;
      device_id = device_id;
      slot_ordinal = suc (max_ordinal license.id s.bindings);
      status = active;
    } in
      reject_if (leb license.device_slots (count_where (of_license license.id) s.bindings)) no_slot
      >> reject_if (not (count_where (λ x. x.id == binding_id) s.bindings == 0))
          constraint_violation
      >> reject_if (not (count_where (on_slot license.id device_id) s.bindings == 0))
          constraint_violation
      >> reject_if (count_where (device_of device_id license.user_id) s.devices == 0)
          constraint_violation
      >> ok (b, record s { bindings = b ∷ s.bindings }))

unfoldable pub bind_device_slot : Store → String → String → String → Outcome Binding
unfolding license_has_id bind_slot
bind_device_slot s license_id device_id binding_id =
    if license_id == "" || device_id == ""
    then (err invalid_argument, s)
    else elim (select (license_has_id license_id) s.licenses) [
      | none ↦ (err not_found, s)
      | some l ↦ commit s (bind_slot s l device_id binding_id)
    ]

unfoldable pub revoke_binding : String → Binding → Bool
revoke_binding device_id b = b.device_id == device_id && is_active b.status

unfoldable pub revoke_device : Store → String → Outcome (Unit {0})
unfolding revoke_binding
revoke_device s device_id =
    if device_id == ""
    then (err invalid_argument, s)
    else elim (select (λ d. d.id == device_id) s.devices) [
      | none ↦ (err not_found, s)
      | some d ↦ (
        ok tt,
        record s {
          devices = update (λ x. x.id == device_id) (λ x. record x { status = revoked }) s.devices;
          bindings =
              update (revoke_binding device_id) (λ b. record b { status = revoked }) s.bindings;
        },
      )
    ]
