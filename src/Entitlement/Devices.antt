-- ===== src/Entitlement/Devices.antt =====
-- The device and credential rows that `BindFirstDevice` of internal/mysqlstore/entitlement_store.go writes.
use roblox_mcp_gateway.Prelude.{
  ℕ, String, Bool, false, not, ◌&&◌, ◌||◌, ◌∷◌, Option, none, some, Except, ok, ◌>>◌, reject_if,
  ◌==◌, nat_comparable, string_comparable, if◌then◌else◌,
}
use roblox_mcp_gateway.Prelude.Table.{count_where, update}
use roblox_mcp_gateway.Entitlement.{
  Error, device_already_used, constraint_violation, FirstDeviceBinding, active, Device, Credential,
  Store, is_null, nullable_string,
}

-- The ids that one binding draws.
pub record Draw : Type 0 where
  pub trial_id : String
  pub trial_identity_id : String
  pub credential_id : String

-- `CASE WHEN ? != '' THEN ? ELSE column END` and `COALESCE(?, column)`
abbrev pub or_column : String → Option String → Option String
or_column value column = if value == "" then column else some value

abbrev pub or_kept : Option String → Option String → Option String
or_kept none column = column
or_kept (some value) column = some value

abbrev pub same_fingerprint : Option String → Option String → Bool
same_fingerprint (some a) (some b) = a == b
same_fingerprint (some a) none = false
same_fingerprint none b = false

-- Another device holds the fingerprint: the unique key uq_devices_fingerprint.
unfoldable pub fingerprint_taken : Option String → String → Device → Bool
fingerprint_taken fingerprint id d = not (d.id == id) && same_fingerprint fingerprint d.fingerprint

-- A device of another account holds it.
unfoldable pub claimed_elsewhere : Option String → String → Device → Bool
claimed_elsewhere fingerprint user_id d =
    not (d.user_id == user_id) && same_fingerprint fingerprint d.fingerprint

unfoldable pub owned : String → String → Device → Bool
owned id user_id d = d.id == id && d.user_id == user_id

unfoldable pub with_metadata : FirstDeviceBinding → Option String → Device → Device
with_metadata input fingerprint d = record d {
  name = if input.name == "" then d.name else input.name;
  hostname = or_column input.hostname d.hostname;
  platform = or_column input.platform d.platform;
  bridge_version = or_column input.bridge_version d.bridge_version;
  fingerprint = or_kept fingerprint d.fingerprint;
}

unfoldable pub update_device : Store → FirstDeviceBinding → Option String → Except Error Store
unfolding fingerprint_taken owned with_metadata
update_device s input fingerprint =
    reject_if (not (count_where (fingerprint_taken fingerprint input.device_id) s.devices == 0))
      device_already_used
    >> ok (record s {
      devices =
          update (owned input.device_id input.user_id) (with_metadata input fingerprint) s.devices;
    })

unfoldable pub insert_device : Store → FirstDeviceBinding → Option String → Except Error Store
unfolding fingerprint_taken
insert_device s input fingerprint =
    reject_if (not (count_where (λ d. d.id == input.device_id) s.devices == 0)) constraint_violation
    >> reject_if (not (count_where (fingerprint_taken fingerprint input.device_id) s.devices == 0))
        device_already_used
    >> ok (record s {
      devices =
          record {
            id = input.device_id;
            user_id = input.user_id;
            name = if input.name == "" then input.device_id else input.name;
            hostname = nullable_string input.hostname;
            platform = nullable_string input.platform;
            bridge_version = nullable_string input.bridge_version;
            fingerprint = fingerprint;
            status = active;
          }
          ∷ s.devices;
    })

unfoldable pub insert_credential : Store → FirstDeviceBinding → Draw → Except Error Store
insert_credential s input draw =
    reject_if
      (not (
        count_where (λ c. c.id == draw.credential_id || c.digest == input.credential_digest)
          s.credentials
        == 0))
      constraint_violation
    >> ok (record s {
      credentials =
          record {
            id = draw.credential_id;
            user_id = input.user_id;
            device_id = input.device_id;
            digest = input.credential_digest;
            expires_at = none;
            revoked_at = none;
          }
          ∷ s.credentials;
    })

-- The live credentials of a device.
unfoldable pub live_on : String → String → Credential → Bool
live_on device_id user_id c =
    c.device_id == device_id && c.user_id == user_id && is_null c.revoked_at

unfoldable pub revoke_credential : ℕ → Credential → Credential
revoke_credential now c = record c { revoked_at = some now }

abbrev pub is_foreign : Option Device → String → Bool
is_foreign none user_id = false
is_foreign (some d) user_id = not (d.user_id == user_id)

unfoldable pub register_device :
    Store → Option Device → FirstDeviceBinding → Option String → Except Error Store
unfolding insert_device update_device
register_device s none input fingerprint = insert_device s input fingerprint
register_device s (some d) input fingerprint = update_device s input fingerprint
