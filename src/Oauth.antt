-- ===== src/Oauth.antt =====
-- The connector tokens: the types of internal/mcpoauth/model.go, and the transactions of
-- internal/mysqlstore/oauth_store.go over the tables of migrations/. A table is a list of rows; a
-- statement is the list operation that it denotes; a transaction that returns an error before its
-- commit leaves the store as it was. A time is a number of nanoseconds since the zero time, so
-- `IsZero` is the test against 0; `NULL` is `none`. Digests are compared as opaque texts. That a
-- statement fails for another reason than a broken key constraint (a lost connection) is left out.
pub mod SingleUse
pub mod Tokens
pub mod Validate
pub mod Grants
pub mod Clients
pub mod Registered
mod Tests
use roblox_mcp_gateway.Prelude.{
  ℕ, String, Bool, true, false, not, ◌&&◌, ◌||◌, List, [], ◌∷◌, Option, none, some, Except, ok, err,
  ◌==◌, nat_comparable, string_comparable, if◌then◌else◌, ltb,
}
use roblox_mcp_gateway.Prelude.Table.{select, count_where, update}

-- The sentinels of model.go; `invalid_argument` is any of the plain errors on an unusable argument.
pub data Error : Type 0 where
  code_not_found code_used code_expired code_binding : Error
  grant_not_found grant_revoked : Error
  token_not_found token_expired token_revoked token_reused : Error
  invalid_argument invalid_client constraint_violation : Error
  client_not_found session_consent_not_found : Error

pub record CodeBinding : Type 0 where
  pub client_id : String
  pub redirect_uri : String
  pub resource : String

pub record AuthorizationCode : Type 0 where
  pub id : String
  pub digest : String
  pub user_id : String
  pub client_id : String
  pub redirect_uri : String
  pub code_challenge : String
  pub scopes : List String
  pub device_id : String
  pub studio_session_id : String
  pub resource : String
  pub expires_at : ℕ
  pub consumed_at : Option ℕ
  pub created_at : ℕ

pub record Grant : Type 0 where
  pub id : String
  pub user_id : String
  pub client_id : String
  pub device_id : String
  pub studio_session_id : String
  pub scopes : List String
  pub resource : String
  pub revoked_at : Option ℕ
  pub created_at : ℕ

pub record AccessToken : Type 0 where
  pub id : String
  pub digest : String
  pub user_id : String
  pub grant_id : String
  pub expires_at : ℕ
  pub revoked_at : Option ℕ
  pub created_at : ℕ

pub record RefreshToken : Type 0 where
  pub id : String
  pub digest : String
  pub user_id : String
  pub grant_id : String
  pub family_id : String
  pub parent_id : String
  pub expires_at : ℕ
  pub used_at : Option ℕ
  pub revoked_at : Option ℕ
  pub created_at : ℕ

pub record Store : Type 0 where
  pub codes : List AuthorizationCode
  pub grants : List Grant
  pub access_tokens : List AccessToken
  pub refresh_tokens : List RefreshToken

abbrev pub is_null : Option ℕ → Bool
is_null none = true
is_null (some t) = false

-- `COALESCE(column, now)`
abbrev pub coalesce : Option ℕ → ℕ → Option ℕ
coalesce none now = some now
coalesce (some t) now = some t

-- `if x.IsZero() { x = now }`
abbrev pub or_now : ℕ → ℕ → ℕ
or_now t now = if t == 0 then now else t

-- The outcome of a transaction and the store after it.
abbrev pub Outcome : Type 0 → Type 0
Outcome A = Except Error A × Store

unfoldable pub code_has : String → AuthorizationCode → Bool
code_has digest code = code.digest == digest

-- The rows that the UPDATE of `ConsumeAuthorizationCode` marks.
unfoldable pub is_unconsumed : String → AuthorizationCode → Bool
is_unconsumed id code = code.id == id && is_null code.consumed_at

unfoldable pub mark_consumed : ℕ → AuthorizationCode → AuthorizationCode
mark_consumed now code = record code { consumed_at = some now }

unfoldable pub is_bound : CodeBinding → AuthorizationCode → Bool
is_bound binding code =
    binding.client_id == code.client_id
    && binding.redirect_uri == code.redirect_uri
    && binding.resource == code.resource

-- The checks of `ConsumeAuthorizationCode` on the locked row, and its UPDATE.
unfoldable pub consume_row : Store → AuthorizationCode → CodeBinding → ℕ → Outcome AuthorizationCode
unfolding is_unconsumed mark_consumed is_bound
consume_row s code binding now =
    if not (is_null code.consumed_at)
    then (err code_used, s)
    else if not (ltb now code.expires_at)
    then (err code_expired, s)
    else if not (is_bound binding code)
    then (err code_binding, s)
    else if not (count_where (is_unconsumed code.id) s.codes == 1)
    then (err code_used, s)
    else (
      ok (mark_consumed now code),
      record s { codes = update (is_unconsumed code.id) (mark_consumed now) s.codes },
    )

unfoldable pub consume_authorization_code :
    Store → String → CodeBinding → ℕ → Outcome AuthorizationCode
unfolding code_has consume_row
consume_authorization_code s digest binding now =
    if now == 0 then (err invalid_argument, s) else elim (select (code_has digest) s.codes) [
      | none ↦ (err code_not_found, s)
      | some code ↦ consume_row s code binding now
    ]

-- `oauthRevokeFamilyTx`, and the part of it that `RevokeGrant` shares.
unfoldable pub revoke_access : String → String → ℕ → List AccessToken → List AccessToken
revoke_access grant_id user_id now =
    update (λ a. a.grant_id == grant_id && a.user_id == user_id)
      (λ a. record a { revoked_at = coalesce a.revoked_at now })

unfoldable pub revoke_grants : String → String → ℕ → List Grant → List Grant
revoke_grants grant_id user_id now =
    update (λ g. g.id == grant_id && g.user_id == user_id)
      (λ g. record g { revoked_at = coalesce g.revoked_at now })

unfoldable pub revoke_family : Store → String → String → String → ℕ → Store
unfolding revoke_access revoke_grants
revoke_family s family_id grant_id user_id now = record s {
  grants = revoke_grants grant_id user_id now s.grants;
  access_tokens = revoke_access grant_id user_id now s.access_tokens;
  refresh_tokens =
      update (λ r. r.family_id == family_id && r.user_id == user_id)
        (λ r. record r { revoked_at = coalesce r.revoked_at now }) s.refresh_tokens;
}

unfoldable pub revoke_grant : Store → String → ℕ → Outcome (Unit {0})
unfolding revoke_access revoke_grants
revoke_grant s grant_id now =
    if grant_id == "" || now == 0
    then (err invalid_argument, s)
    else elim (select (λ g. g.id == grant_id) s.grants) [
      | none ↦ (err grant_not_found, s)
      | some g ↦ (
        ok tt,
        record s {
          grants = revoke_grants grant_id g.user_id now s.grants;
          access_tokens = revoke_access grant_id g.user_id now s.access_tokens;
          refresh_tokens =
              update (λ r. r.grant_id == grant_id && r.user_id == g.user_id)
                (λ r. record r { revoked_at = coalesce r.revoked_at now }) s.refresh_tokens;
        },
      )
    ]
