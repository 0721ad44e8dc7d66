-- ===== src/Access/Bridge.antt =====
-- `AuthenticateDigest` of internal/bridgehub/auth.go, which a connection also runs again while it lives.
use roblox_mcp_gateway.Prelude.{
  ℕ, String, not, ◌&&◌, Except, ok, err, ◌==◌, nat_comparable, string_comparable, if◌then◌else◌,
  ltb,
}
use roblox_mcp_gateway.Entitlement.{Decision, wss, permits}
use roblox_mcp_gateway.Access.{DeviceCredential, Identity, Lookups, refuses}

-- The reasons that are wrapped into `ErrUnauthorized`.
pub data Unauthorized : Type 0 where
  not_accepted digest_mismatch credential_revoked credential_expired not_active_for_owner :
      Unauthorized
  no_identity entitlement_failed not_permitted no_binding : Unauthorized

-- `Device`, an authenticated connection.
pub record Authenticated : Type 0 where
  pub user_id : String
  pub device_id : String
  pub provider : String
  pub provider_subject : String
  pub credential_digest : String

module _ (lookups : Lookups) (digest : String) where
  -- From the entitlement decision on.
  unfoldable pub check_decision :
      DeviceCredential → Identity → Decision → Except Unauthorized Authenticated
  check_decision c identity decision =
      if not (permits decision wss)
      then err not_permitted
      else if not decision.trial_active
          && refuses (lookups.has_active_device_binding c.user_id c.device_id)
      then err no_binding
      else ok (record {
        user_id = c.user_id;
        device_id = c.device_id;
        provider = identity.provider;
        provider_subject = identity.provider_subject;
        credential_digest = digest;
      })

  -- From the owner's identity on.
  unfoldable pub check_identity : DeviceCredential → Except Unauthorized Authenticated
  unfolding check_decision
  check_identity c = elim (lookups.user_identity c.user_id) [
    | err e ↦ err no_identity
    | ok identity ↦
        elim (lookups.authorize (record {
          user_id = c.user_id;
          provider = identity.provider;
          provider_subject = identity.provider_subject;
        })) [ err e ↦ err entitlement_failed | ok decision ↦ check_decision c identity decision ]
  ]

  unfoldable pub check_credential : ℕ → DeviceCredential → Except Unauthorized Authenticated
  unfolding check_identity
  check_credential now c =
      if not (c.digest == digest)
      then err digest_mismatch
      else if not (c.revoked_at == 0)
      then err credential_revoked
      else if not (c.expires_at == 0) && not (ltb now c.expires_at)
      then err credential_expired
      else if refuses (lookups.device_owned_and_active c.user_id c.device_id)
      then err not_active_for_owner
      else check_identity c

  unfoldable pub authenticate_digest : ℕ → Except Unauthorized Authenticated
  unfolding check_credential
  authenticate_digest now = elim (lookups.lookup_device_credential digest) [
    | err e ↦ err not_accepted
    | ok c ↦ check_credential now c
  ]
