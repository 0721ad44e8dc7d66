-- ===== src/Access.antt =====
-- Who is let in: the Bridge's credential check of internal/bridgehub/auth.go with its SQL look-ups, and
-- the connector's checks of internal/mcpgateway/auth.go. Both read through the interface `Lookups`, which
-- `sql_lookups` fills from the entitlement tables and the identities. A digest is an opaque text. A
-- binding's status stands for its `revoked_at` too, since the only statement that writes either writes
-- both. A nil context or database, a statement that fails and the audit rows are left out.
pub mod Bridge
pub mod Gateway
pub mod Admitted
pub mod Locked
mod Tests
use roblox_mcp_gateway.Prelude.{
  ℕ, String, Bool, true, false, not, ◌&&◌, ◌||◌, List, [], ◌∷◌, Option, none, some, Except, ok, err,
  ◌==◌, nat_comparable, string_comparable, if◌then◌else◌, ltb,
}
use roblox_mcp_gateway.Prelude.Table.{select, count_where}
use roblox_mcp_gateway.Entitlement
use roblox_mcp_gateway.Entitlement.{Status, is_active, Device, Credential, Binding, Decision}
use roblox_mcp_gateway.Entitlement.Trial.{authorize}

-- The sentinels of the store. `lookup_failed` is any other error of an implementation.
pub data StoreError : Type 0 where
  credential_not_found identity_not_found lookup_failed : StoreError

-- A time that is not set is 0.
pub record DeviceCredential : Type 0 where
  pub id : String
  pub user_id : String
  pub device_id : String
  pub digest : String
  pub expires_at : ℕ
  pub revoked_at : ℕ

pub record Identity : Type 0 where
  pub provider : String
  pub provider_subject : String

pub record Subject : Type 0 where
  pub user_id : String
  pub provider : String
  pub provider_subject : String

-- The reading half of the interface `Store` of bridgehub, and `entitlement.Service.Authorize`.
pub record Lookups : Type 0 where
  pub lookup_device_credential : String → Except StoreError DeviceCredential
  pub device_owned_and_active : String → String → Except StoreError Bool
  pub has_active_device_binding : String → String → Except StoreError Bool
  pub user_identity : String → Except StoreError Identity
  pub authorize : Subject → Except StoreError Decision

-- A row of user_identities.
pub record UserIdentity : Type 0 where
  pub user_id : String
  pub provider : String
  pub provider_subject : String
  pub status : Status

pub record Store : Type 0 where
  pub entitlements : Entitlement.Store
  pub identities : List UserIdentity

abbrev pub roblox_provider : String
roblox_provider = "roblox"

-- `if column.Valid { x = column.Time }`
abbrev pub time_of : Option ℕ → ℕ
time_of none = 0
time_of (some t) = t

unfoldable pub has_credential_digest : String → Credential → Bool
has_credential_digest digest c = c.digest == digest

unfoldable pub credential_of : Credential → DeviceCredential
credential_of c = record {
  id = c.id;
  user_id = c.user_id;
  device_id = c.device_id;
  digest = c.digest;
  expires_at = time_of c.expires_at;
  revoked_at = time_of c.revoked_at;
}

unfoldable pub lookup_device_credential : Store → String → Except StoreError DeviceCredential
unfolding has_credential_digest credential_of
lookup_device_credential s digest =
    elim (select (has_credential_digest digest) s.entitlements.credentials) [
      | none ↦ err credential_not_found
      | some c ↦ ok (credential_of c)
    ]

unfoldable pub is_owned_active : String → String → Device → Bool
is_owned_active user_id device_id d =
    d.id == device_id && d.user_id == user_id && is_active d.status

unfoldable pub is_bound_active : String → String → Binding → Bool
is_bound_active user_id device_id b =
    b.device_id == device_id && b.user_id == user_id && is_active b.status

-- `SELECT 1 ... WHERE`: whether there is a row.
abbrev pub exists {ℓ} : {A : Type ℓ} → Option A → Bool
exists none = false
exists (some a) = true

unfoldable pub device_owned_and_active : Store → String → String → Bool
unfolding is_owned_active
device_owned_and_active s user_id device_id =
    exists (select (is_owned_active user_id device_id) s.entitlements.devices)

unfoldable pub has_active_device_binding : Store → String → String → Bool
unfolding is_bound_active
has_active_device_binding s user_id device_id =
    exists (select (is_bound_active user_id device_id) s.entitlements.bindings)

unfoldable pub is_identity_of : String → UserIdentity → Bool
is_identity_of user_id i =
    i.user_id == user_id && i.provider == roblox_provider && is_active i.status

unfoldable pub user_identity : Store → String → Except StoreError Identity
unfolding is_identity_of
user_identity s user_id = elim (select (is_identity_of user_id) s.identities) [
  | none ↦ err identity_not_found
  | some i ↦ ok (record { provider = i.provider; provider_subject = i.provider_subject })
]

-- `SQLStore`, beside the entitlement store, at the time of the entitlement service's clock.
abbrev pub sql_lookups : Store → ℕ → Lookups
sql_lookups s now = record {
  lookup_device_credential = lookup_device_credential s;
  device_owned_and_active = λ user_id device_id. ok (device_owned_and_active s user_id device_id);
  has_active_device_binding =
      λ user_id device_id. ok (has_active_device_binding s user_id device_id);
  user_identity = user_identity s;
  authorize = λ subject. ok (authorize s.entitlements subject.user_id now);
}

-- The test that both checks share: a look-up that fails counts as a refusal.
abbrev pub refuses : Except StoreError Bool → Bool
refuses (ok passed) = not passed
refuses (err e) = true
