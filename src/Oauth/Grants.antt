-- ===== src/Oauth/Grants.antt =====
-- The approvals: `SaveGrant` and `SaveAuthorizationCode` of internal/mysqlstore/oauth_store.go. Whether the
-- rows that a row's foreign keys name are there is the argument `referred`.
pub mod Approved
pub mod Redeemed
mod Tests
use roblox_mcp_gateway.Prelude.{
  ℕ, String, Bool, true, false, not, ◌&&◌, ◌||◌, List, [], ◌∷◌, Option, none, some, Except, ok, err,
  ◌>>=◌, ◌>>◌, reject_if, ◌==◌, string_comparable, nat_comparable, if◌then◌else◌, ltb, len,
}
use roblox_mcp_gateway.Prelude.Table.{select, count_where, update}
use roblox_mcp_gateway.Oauth.{
  Error, invalid_argument, constraint_violation, grant_not_found, AuthorizationCode, Grant, Store,
  Outcome, or_now,
}
use roblox_mcp_gateway.Oauth.Validate.{
  Url, validate_scopes, validate_redirect_uri, validate_resource_url,
}

-- The unique key of oauth_grants, which is also the condition of `oauthSelectGrant`.
unfoldable pub is_for : String → String → String → Grant → Bool
is_for user_id client_id device_id g =
    g.user_id == user_id && g.client_id == client_id && g.device_id == device_id

unfoldable pub has_grant_id : String → Grant → Bool
has_grant_id id g = g.id == id

unfoldable pub select_grant : Store → String → String → String → Option Grant
unfolding is_for
select_grant s user_id client_id device_id = select (is_for user_id client_id device_id) s.grants

-- `ON DUPLICATE KEY UPDATE`
unfoldable pub renewed : Grant → Grant → Grant
renewed grant old = record old {
  scopes = grant.scopes;
  resource = grant.resource;
  studio_session_id = grant.studio_session_id;
  revoked_at = none;
}

unfoldable pub new_grant : Grant → ℕ → Grant
new_grant grant now = record grant { revoked_at = none; created_at = or_now grant.created_at now }

-- The INSERT: a row with the id, or else the row of the target, is updated in place of it.
unfoldable pub upsert_grant : Grant → ℕ → List Grant → List Grant
unfolding is_for has_grant_id renewed new_grant
upsert_grant grant now grants = elim (select (has_grant_id grant.id) grants) [
  | some g ↦ update (has_grant_id grant.id) (renewed grant) grants
  | none ↦ elim (select (is_for grant.user_id grant.client_id grant.device_id) grants) [
    | some g ↦ update (is_for grant.user_id grant.client_id grant.device_id) (renewed grant) grants
    | none ↦ new_grant grant now ∷ grants
  ]
]

-- The transaction, on the store after the INSERT.
unfoldable pub select_saved : Store → Store → Grant → Outcome Grant
unfolding select_grant
select_saved s t grant = elim (select_grant t grant.user_id grant.client_id grant.device_id) [
  | none ↦ (err grant_not_found, s)
  | some stored ↦ (ok stored, t)
]

module _ (parse : String → Option Url) where
  unfoldable pub validate_grant : Grant → Except Error (Unit {0})
  validate_grant grant = do
    reject_if (grant.id == "") invalid_argument
    reject_if (grant.user_id == "") invalid_argument
    reject_if (grant.client_id == "") invalid_argument
    reject_if (grant.device_id == "") invalid_argument
    validate_resource_url parse grant.resource
    validate_scopes grant.scopes

  unfoldable pub save_grant : (Grant → Bool) → Store → Grant → ℕ → Outcome Grant
  unfolding upsert_grant select_saved
  save_grant referred s grant now = elim (validate_grant grant) [
    | err e ↦ (err e, s)
    | ok u ↦
        if not (referred grant)
        then (err constraint_violation, s)
        else select_saved s (record s { grants = upsert_grant grant now s.grants }) grant
  ]

  unfoldable pub validate_code : AuthorizationCode → Except Error (Unit {0})
  validate_code code = do
    reject_if (code.id == "") invalid_argument
    reject_if (code.user_id == "") invalid_argument
    reject_if (code.client_id == "") invalid_argument
    reject_if (code.code_challenge == "") invalid_argument
    reject_if (ltb 128 (len code.code_challenge)) invalid_argument
    validate_redirect_uri parse code.redirect_uri
    validate_resource_url parse code.resource
    validate_scopes code.scopes
    reject_if (code.expires_at == 0) invalid_argument

  -- The INSERT of a code, whose id and digest are keys.
  unfoldable pub save_authorization_code :
      (AuthorizationCode → Bool) → Store → AuthorizationCode → ℕ → Outcome (Unit {0})
  save_authorization_code referred s code now = elim (validate_code code) [
    | err e ↦ (err e, s)
    | ok u ↦
        if not (referred code)
          || not (count_where (λ c. c.id == code.id || c.digest == code.digest) s.codes == 0)
        then (err constraint_violation, s)
        else (
          ok tt,
          record s {
            codes =
                record code { consumed_at = none; created_at = or_now code.created_at now }
                ∷ s.codes;
          },
        )
  ]
