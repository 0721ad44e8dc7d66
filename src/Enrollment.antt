-- ===== src/Enrollment.antt =====
-- Device pairing codes: internal/mysqlstore/device_store.go. The tables device_enrollment_codes and
-- user_identities are lists of rows; a code's id and digest are unique. A time is a number of nanoseconds
-- since the zero time.
pub mod Once
pub mod Pairing
pub mod Exchange
pub mod Calls
pub mod Entries
pub mod Changes
pub mod Exchanged
pub mod Issued
mod Tests
use roblox_mcp_gateway.Prelude.{
  ℕ, String, Bool, true, false, not, ◌&&◌, ◌||◌, List, [], ◌∷◌, Option, none, some, Except, ok, err,
  ◌==◌, nat_comparable, string_comparable, if◌then◌else◌, ltb,
}
use roblox_mcp_gateway.Prelude.Table.{select, count_where, update}

-- `no_identity` is the plain error on an owner without Roblox identity.
pub data Error : Type 0 where
  code_not_found code_consumed code_expired no_identity constraint_violation : Error

-- `robloxIdentityProvider`
abbrev pub roblox_identity_provider : String
roblox_identity_provider = "roblox"

-- A row of device_enrollment_codes: `EnrollmentCode` and its consumption.
pub record EnrollmentCode : Type 0 where
  pub id : String
  pub user_id : String
  pub digest : String
  pub expires_at : ℕ
  pub consumed_at : Option ℕ

pub record Identity : Type 0 where
  pub id : String
  pub user_id : String
  pub provider : String
  pub provider_subject : String
  pub display_name : String

pub record EnrollmentRecord : Type 0 where
  pub id : String
  pub user_id : String
  pub identity_id : String
  pub provider_subject : String

pub record Store : Type 0 where
  pub codes : List EnrollmentCode
  pub identities : List Identity

abbrev pub Outcome : Type 0 → Type 0
Outcome A = Except Error A × Store

abbrev pub is_null : Option ℕ → Bool
is_null none = true
is_null (some t) = false

unfoldable pub has_digest : String → EnrollmentCode → Bool
has_digest digest c = c.digest == digest

unfoldable pub same_code : EnrollmentCode → EnrollmentCode → Bool
same_code new c = c.id == new.id || c.digest == new.digest

unfoldable pub insert_enrollment_code : Store → EnrollmentCode → Outcome (Unit {0})
unfolding same_code
insert_enrollment_code s code =
    if count_where (same_code code) s.codes == 0
    then (ok tt, record s { codes = record code { consumed_at = none } ∷ s.codes })
    else (err constraint_violation, s)

-- The condition of the SELECT on the code, and the JOIN's on the identity.
unfoldable pub redeemable : String → ℕ → EnrollmentCode → Bool
unfolding has_digest
redeemable digest now c = has_digest digest c && is_null c.consumed_at && ltb now c.expires_at

unfoldable pub identity_of : String → Identity → Bool
identity_of user_id i = i.user_id == user_id && i.provider == roblox_identity_provider

unfoldable pub marks : String → EnrollmentCode → Bool
marks id c = c.id == id && is_null c.consumed_at

unfoldable pub mark_consumed : ℕ → EnrollmentCode → EnrollmentCode
mark_consumed now c = record c { consumed_at = some now }

-- `classifyMissingCode`
unfoldable pub classify_missing_code : Store → String → ℕ → Error
unfolding has_digest
classify_missing_code s digest now = elim (select (has_digest digest) s.codes) [
  | none ↦ code_not_found
  | some c ↦
      (if not (is_null c.consumed_at)
        then code_consumed
        else if not (ltb now c.expires_at)
        then code_expired
        else no_identity)
]

unfoldable pub consume_enrollment_code : Store → String → ℕ → Outcome EnrollmentRecord
unfolding redeemable identity_of marks mark_consumed classify_missing_code
consume_enrollment_code s digest now = elim (select (redeemable digest now) s.codes) [
  | none ↦ (err (classify_missing_code s digest now), s)
  | some c ↦ elim (select (identity_of c.user_id) s.identities) [
    | none ↦ (err (classify_missing_code s digest now), s)
    | some i ↦ (
      ok (record {
        id = c.id;
        user_id = c.user_id;
        identity_id = i.id;
        provider_subject = i.provider_subject;
      }),
      record s { codes = update (marks c.id) (mark_consumed now) s.codes },
    )
  ]
]

-- `RobloxIdentity`, on a nonempty user id.
unfoldable pub roblox_identity : Store → String → Option Identity
unfolding identity_of
roblox_identity s user_id =
    if user_id == "" then none else select (identity_of user_id) s.identities
