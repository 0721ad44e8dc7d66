-- ===== src/Enrollment/Exchange.antt =====
-- `Exchange` of internal/device/enrollment.go: an approved pairing code becomes a device credential and the
-- user's trial, or the code's error. The service's own guards on the binding are those of the store.
use roblox_mcp_gateway.Prelude.{
  ℕ, String, Bool, true, false, not, Option, none, some, Except, ok, err, ◌==◌, string_comparable,
  if◌then◌else◌,
}
use roblox_mcp_gateway.Prelude.Map.{lookup, insert, erase}
use roblox_mcp_gateway.Entitlement
use roblox_mcp_gateway.Entitlement.{FirstDeviceBinding, Entitlement, Binding}
use roblox_mcp_gateway.Entitlement.Devices.{Draw}
use roblox_mcp_gateway.Entitlement.Trial.{bind_first_device}
use roblox_mcp_gateway.Enrollment
use roblox_mcp_gateway.Enrollment.{
  EnrollmentRecord, consume_enrollment_code, roblox_identity_provider,
}
use roblox_mcp_gateway.Enrollment.Pairing.{
  Error, not_found, expired, not_approved, owner_mismatch, generation_failed, code_error,
  bind_error, DeviceClaim, DeviceCredential, PendingEntry, Pairings, Outcome, live_entry, on_entry,
}

-- The switch on the store's error.
abbrev pub code_failure : Enrollment.Error → Error
code_failure Enrollment.code_expired = expired
code_failure Enrollment.code_not_found = not_found
code_failure e = code_error e

abbrev pub binding_of : DeviceClaim → EnrollmentRecord → String → FirstDeviceBinding
binding_of claim row credential_digest = record {
  user_id = row.user_id;
  provider = roblox_identity_provider;
  provider_subject = row.provider_subject;
  device_id = claim.device_id;
  name = claim.name;
  hostname = claim.hostname;
  platform = claim.platform;
  bridge_version = claim.bridge_version;
  fingerprint_hash = claim.fingerprint_hash;
  credential_digest = credential_digest;
}

-- `if entry, ok := e.pending[key]; ok { entry.status = "license_required" }`
unfoldable pub require_license : Pairings → String → Pairings
unfolding lookup insert
require_license e key = elim (lookup key e.pending) [
  | none ↦ e
  | some entry ↦ record e {
    pending = insert key (record entry { status = "license_required" }) e.pending;
  }
]

abbrev pub is_already_used : Entitlement.Error → Bool
is_already_used Entitlement.device_already_used = true
is_already_used _ = false

-- After the binder's answer.
unfoldable pub after_bind :
    Pairings
    → String
    → DeviceCredential
    → Except Entitlement.Error (Entitlement × Binding) × Entitlement.Store
    → Outcome DeviceCredential
unfolding require_license erase
after_bind e key credential (err x, s) =
    (err (bind_error x), if is_already_used x then require_license e key else e)
after_bind e key credential (ok bound, s) =
    (ok credential, record e { entitlements = s; pending = erase key e.pending })

module _ (decode : String → Option String) (key : String) (drawn : Option (String × String))
    (draw : Draw) (clock : ℕ) where
  -- From the owner check on; `drawn` is the new token and its keyed digest.
  unfoldable pub bind_device : Pairings → PendingEntry → EnrollmentRecord → Outcome DeviceCredential
  unfolding after_bind
  bind_device e entry row =
      if not (row.user_id == entry.approved_by) then (err owner_mismatch, e) else elim drawn [
        | none ↦ (err generation_failed, e)
        | some (token, credential_digest) ↦
            after_bind e key
              (record { token = token; device_id = entry.claim.device_id; user_id = row.user_id })
              (bind_first_device decode e.entitlements
                (binding_of entry.claim row credential_digest) draw clock)
      ]

  -- After the consumption of the code.
  unfoldable pub after_consume :
      Pairings
      → PendingEntry
      → Except Enrollment.Error EnrollmentRecord × Enrollment.Store
      → Outcome DeviceCredential
  unfolding bind_device
  after_consume e entry (err x, codes) = (err (code_failure x), e)
  after_consume e entry (ok row, codes) = bind_device (record e { codes = codes }) entry row

  unfoldable pub exchange_entry : ℕ → Pairings → PendingEntry → Outcome DeviceCredential
  unfolding after_consume
  exchange_entry now e entry =
      if not entry.approved
      then (err not_approved, e)
      else after_consume e entry (consume_enrollment_code e.codes key now)

unfoldable pub exchange :
    (String → Option String)
    → (String → String)
    → Pairings
    → String
    → ℕ
    → Option (String × String)
    → Draw
    → ℕ
    → Outcome DeviceCredential
unfolding live_entry on_entry exchange_entry
exchange decode digest_of e device_code now drawn draw clock =
    if device_code == ""
    then (err not_found, e)
    else on_entry (live_entry e (digest_of device_code) now)
        (exchange_entry decode (digest_of device_code) drawn draw clock now)
