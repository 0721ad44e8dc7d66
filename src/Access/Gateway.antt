-- ===== src/Access/Gateway.antt =====
-- The connector's authorization: `verify`, `reauthorize` and `entitle` of internal/mcpgateway/auth.go.
-- The audit rows of a denial are left out.
use roblox_mcp_gateway.Prelude.{
  ℕ, String, not, ◌&&◌, List, Except, ok, err, ◌==◌, string_comparable, if◌then◌else◌,
}
use roblox_mcp_gateway.Entitlement.{Decision, mcp, permits}
use roblox_mcp_gateway.Oauth
use roblox_mcp_gateway.Oauth.{AccessToken, Grant}
use roblox_mcp_gateway.Oauth.Tokens.{access_token_by_digest}
use roblox_mcp_gateway.Access.{Identity, Subject, Lookups, refuses}

-- `ErrInvalidToken` of the SDK, and `errTokenValidation`.
pub data VerifyError : Type 0 where
  invalid_token token_validation : VerifyError

pub record TokenInfo : Type 0 where
  pub scopes : List String
  pub expiration : ℕ
  pub user_id : String
  pub grant_id : String
  pub device_id : String
  pub studio_session_id : String
  pub token_digest : String

-- The two cases of the switch on the store's error.
abbrev pub verify_error : Oauth.Error → VerifyError
verify_error Oauth.token_not_found = invalid_token
verify_error Oauth.token_revoked = invalid_token
verify_error Oauth.token_expired = invalid_token
verify_error Oauth.grant_revoked = invalid_token
verify_error Oauth.grant_not_found = invalid_token
verify_error _ = token_validation

unfoldable pub verify_info :
    String → String → Except Oauth.Error (AccessToken × Grant) → Except VerifyError TokenInfo
verify_info resource digest (err e) = err (verify_error e)
verify_info resource digest (ok (token, grant)) =
    if not (grant.resource == resource)
    then err invalid_token
    else ok (record {
      scopes = grant.scopes;
      expiration = token.expires_at;
      user_id = grant.user_id;
      grant_id = grant.id;
      device_id = grant.device_id;
      studio_session_id = grant.studio_session_id;
      token_digest = digest;
    })

-- `verify`, on the digest of the presented token.
unfoldable pub verify : Oauth.Store → String → ℕ → String → Except VerifyError TokenInfo
unfolding verify_info
verify tokens resource now digest =
    verify_info resource digest (access_token_by_digest tokens digest now)

-- `errSessionInvalid`, by the check that fails.
pub data SessionInvalid : Type 0 where
  bad_token resource_binding bad_identity device_ownership bad_entitlement : SessionInvalid
  window_closed device_binding : SessionInvalid

-- `Principal`
abbrev pub Principal : Type 0
Principal = AccessToken × Grant

unfoldable pub subject_of : String → Identity → Subject
subject_of user_id identity = record {
  user_id = user_id;
  provider = identity.provider;
  provider_subject = identity.provider_subject;
}

module _ (lookups : Lookups) where
  -- From the entitlement decision on.
  unfoldable pub check_window : AccessToken → Grant → Decision → Except SessionInvalid Principal
  check_window token grant decision =
      if not (permits decision mcp)
      then err window_closed
      else if not decision.trial_active
          && refuses (lookups.has_active_device_binding grant.user_id grant.device_id)
      then err device_binding
      else ok (token, grant)

  -- From the device's ownership on.
  unfoldable pub check_device : AccessToken → Grant → Identity → Except SessionInvalid Principal
  unfolding check_window subject_of
  check_device token grant identity =
      if refuses (lookups.device_owned_and_active grant.user_id grant.device_id)
      then err device_ownership
      else elim (lookups.authorize (subject_of grant.user_id identity)) [
        | err e ↦ err bad_entitlement
        | ok decision ↦ check_window token grant decision
      ]

  -- From the resource on.
  unfoldable pub check_grant : String → AccessToken → Grant → Except SessionInvalid Principal
  unfolding check_device
  check_grant resource token grant =
      if not (grant.resource == resource)
      then err resource_binding
      else elim (lookups.user_identity grant.user_id) [
        | err e ↦ err bad_identity
        | ok identity ↦ check_device token grant identity
      ]

  unfoldable pub reauthorize : Oauth.Store → String → ℕ → String → Except SessionInvalid Principal
  unfolding check_grant
  reauthorize tokens resource now digest = elim (access_token_by_digest tokens digest now) [
    | err e ↦ err bad_token
    | ok (token, grant) ↦ check_grant resource token grant
  ]

  -- `entitle`: the window alone, before the rate limits.
  unfoldable pub entitle : String → Except SessionInvalid (Unit {0})
  unfolding subject_of
  entitle user_id = elim (lookups.user_identity user_id) [
    | err e ↦ err bad_identity
    | ok identity ↦ elim (lookups.authorize (subject_of user_id identity)) [
      | err e ↦ err bad_entitlement
      | ok decision ↦ if not (permits decision mcp) then err window_closed else ok tt
    ]
  ]
