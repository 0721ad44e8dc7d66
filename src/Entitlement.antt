-- ===== src/Entitlement.antt =====
-- Trials, licenses and device slots: the types of internal/entitlement/model.go and the tables of
-- internal/mysqlstore/entitlement_store.go, as lists of rows. A transaction that returns an error
-- leaves the store as it was. A time is a number of nanoseconds since the zero time; ids that the store
-- draws at random are arguments. A nil context, a store that is not there, a statement that fails for
-- another reason than a broken key constraint and the audit rows are left out.
pub mod Devices
pub mod Trial
pub mod Licenses
pub mod Invariant
pub mod TrialSound
pub mod SlotSound
pub mod Sound
pub mod Window
pub mod Recovery
mod Tests
use roblox_mcp_gateway.Prelude.{
  ℕ, ◌*◌, String, Bool, true, false, not, ◌&&◌, ◌||◌, List, [], ◌∷◌, Option, none, some, Except, ok,
  err, ◌==◌, nat_comparable, string_comparable, if◌then◌else◌, ltb,
}
use roblox_mcp_gateway.Prelude.Set.{contains, add}

-- `TrialWindow`, 14 days.
abbrev pub trial_window : ℕ
trial_window = 14 * 24 * 3600 * 1000000000

-- The sentinels of model.go. `invalid_argument` is any plain error on an unusable argument,
-- `device_not_active` the plain error on a re-claimed device that is revoked, and
-- `constraint_violation` the failure of a statement on a key.
pub data Error : Type 0 where
  not_found trial_already_used device_already_used no_slot binding_not_found : Error
  invalid_extension device_owned_by_other : Error
  invalid_argument device_not_active constraint_violation : Error

pub record FirstDeviceBinding : Type 0 where
  pub user_id : String
  pub provider : String
  pub provider_subject : String
  pub device_id : String
  pub name : String
  pub hostname : String
  pub platform : String
  pub bridge_version : String
  pub fingerprint_hash : String
  pub credential_digest : String

pub data Action : Type 0 where
  enroll wss mcp dashboard download other_action : Action

pub data Status : Type 0 where
  active revoked : Status

abbrev pub is_active : Status → Bool
is_active active = true
is_active revoked = false

pub record Entitlement : Type 0 where
  pub id : String
  pub user_id : String
  pub started_at : ℕ
  pub ends_at : ℕ
  pub extension_reason : Option String
  pub extended_by : Option String

pub record Decision : Type 0 where
  pub is_permitted : Bool
  pub trial_active : Bool
  pub license_active : Bool
  pub entitlement : Option Entitlement

-- `Decision.Permits`
unfoldable pub permits : Decision → Action → Bool
permits d dashboard = true
permits d download = true
permits d enroll = d.is_permitted
permits d wss = d.is_permitted
permits d mcp = d.is_permitted
permits d other_action = false

pub record Binding : Type 0 where
  pub id : String
  pub user_id : String
  pub license_id : String
  pub device_id : String
  pub slot_ordinal : ℕ
  pub status : Status

pub record License : Type 0 where
  pub id : String
  pub user_id : String
  pub roblox_identity_id : Option String
  pub device_slots : ℕ
  pub status : Status

pub record Device : Type 0 where
  pub id : String
  pub user_id : String
  pub name : String
  pub hostname : Option String
  pub platform : Option String
  pub bridge_version : Option String
  pub fingerprint : Option String
  pub status : Status

pub record Credential : Type 0 where
  pub id : String
  pub user_id : String
  pub device_id : String
  pub digest : String
  pub expires_at : Option ℕ
  pub revoked_at : Option ℕ

pub record TrialIdentity : Type 0 where
  pub id : String
  pub trial_id : String
  pub user_id : String
  pub provider : String
  pub provider_subject : String

pub record WebSession : Type 0 where
  pub id : String
  pub user_id : String
  pub revoked_at : Option ℕ

pub record Transfer : Type 0 where
  pub id : String
  pub user_id : String
  pub license_id : String
  pub old_device_id : String
  pub new_device_id : String
  pub reason : String

pub record RecoveryCase : Type 0 where
  pub id : String
  pub user_id : String
  pub reason : String
  pub evidence_ref : String

pub record Store : Type 0 where
  pub users : List String
  pub trials : List Entitlement
  pub identities : List TrialIdentity
  pub devices : List Device
  pub credentials : List Credential
  pub licenses : List License
  pub bindings : List Binding
  pub sessions : List WebSession
  pub transfers : List Transfer
  pub recoveries : List RecoveryCase

abbrev pub Outcome : Type 0 → Type 0
Outcome A = Except Error A × Store

-- `defer tx.Rollback()` and the commit: the changes of a transaction that fails are dropped.
abbrev pub commit : {A : Type 0} → Store → Except Error (A × Store) → Outcome A
commit s (ok (a, t)) = (ok a, t)
commit s (err e) = (err e, s)

abbrev pub is_null : Option ℕ → Bool
is_null none = true
is_null (some t) = false

-- A nullable column: the empty text is stored as `NULL`.
abbrev pub nullable_string : String → Option String
nullable_string s = if s == "" then none else some s

-- `ensureUser`, on a nonempty id.
unfoldable pub ensure_user : Store → String → Store
ensure_user s user_id = record s { users = add user_id s.users }
