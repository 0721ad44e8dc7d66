-- ===== src/Access/Locked.antt =====
-- What an administrator's revocation and a recovery (internal/mysqlstore/entitlement_store.go) mean for
-- the checks of internal/bridgehub/auth.go and internal/mcpgateway/auth.go.
use roblox_mcp_gateway.Prelude.{
  ℕ, String, ◌≡◌, refl, ◌≢◌, false, some, ok, ◌==◌, inl, inr, nat_comparable, string_comparable,
  arith, eq_iff, Option-cases,
}
use roblox_mcp_gateway.Prelude.Table.{select, select-update, select-cleared}
use roblox_mcp_gateway.Entitlement.{revoked, Credential}
use roblox_mcp_gateway.Entitlement.Licenses.{revoke_device, recover_identity, live_credential}
use roblox_mcp_gateway.Oauth
use roblox_mcp_gateway.Access.{
  Store, has_credential_digest, is_owned_active, device_owned_and_active, sql_lookups,
}
use roblox_mcp_gateway.Access.Bridge.{Authenticated, authenticate_digest}
use roblox_mcp_gateway.Access.Gateway.{Principal, reauthorize}
use roblox_mcp_gateway.Access.Admitted.{authenticate_iff, reauthorize_iff}

-- The store after `RevokeDevice`, and after `RecoverIdentity`.
abbrev pub without_device : Store → String → Store
without_device s device_id = record s { entitlements = (revoke_device s.entitlements device_id).1 }

abbrev pub recovered : Store → String → String → String → String → ℕ → Store
recovered s user_id reason evidence_ref case_id now = record s {
  entitlements = (recover_identity s.entitlements user_id reason evidence_ref case_id now).1;
}

not_owned :
    (s : Store) (user_id device_id : String)
    → (revoke_device s.entitlements device_id).0 ≡ ok tt
    → device_owned_and_active (without_device s device_id) user_id device_id ≡ false
unfolding revoke_device device_owned_and_active is_owned_active
not_owned s user_id device_id h = ground (
  arith,
  select-cleared (is_owned_active user_id device_id) (λ d. d.id == device_id)
      (λ d. record d { status = revoked }) s.entitlements.devices (λ d. ground arith),
)

-- After `RevokeDevice` returns, no Bridge is let in as the device, and no connector's call goes through
-- whose grant is for it, whatever the credential and the token.
pub revoked_device-locked :
    (s : Store) (tokens : Oauth.Store) (clock now : ℕ)
    (resource digest token_digest device_id : String)
    → (revoke_device s.entitlements device_id).0 ≡ ok tt
    → ((a : Authenticated)
        → authenticate_digest (sql_lookups (without_device s device_id) clock) digest now ≡ ok a
        → a.device_id ≢ device_id)
      × ((p : Principal)
          → reauthorize
              (sql_lookups (without_device s device_id) clock)
              tokens
              resource
              now
              token_digest
            ≡ ok p
          → p.1.device_id ≢ device_id)
revoked_device-locked s tokens clock now resource digest token_digest device_id h = (
  λ a ok_a same.
      let (c, i, _, _, entitled, is) =
        (authenticate_iff (without_device s device_id) clock now digest a).0 ok_a in
      ground (arith, not_owned s c.user_id device_id h),
  λ p ok_p same.
      let (_, _, _, entitled) =
        (reauthorize_iff (without_device s device_id) tokens clock now resource token_digest p).0
          ok_p in
      ground (arith, not_owned s p.1.user_id device_id h),
)

-- After `RecoverIdentity` returns for a user, at a time that is not the zero time, no Bridge is let in
-- as that user, if no stored credential has the zero time as the time of its revocation.
pub recovered_user-locked :
    (s : Store) (user_id reason evidence_ref case_id : String) (at clock now : ℕ) (digest : String)
    (a : Authenticated)
    → at ≢ 0
    → ((c : Credential)
        → select (has_credential_digest digest) s.entitlements.credentials ≡ some c
        → c.revoked_at ≢ some 0)
    → (recover_identity s.entitlements user_id reason evidence_ref case_id at).0 ≡ ok tt
    → authenticate_digest
        (sql_lookups (recovered s user_id reason evidence_ref case_id at) clock)
        digest
        now
      ≡ ok a
    → a.user_id ≢ user_id
unfolding recover_identity live_credential has_credential_digest
recovered_user-locked s user_id reason evidence_ref case_id at clock now digest a timed set h ok_a
      same =
    let (c, i, (found, unrevoked, _), _, _, is) =
      (authenticate_iff (recovered s user_id reason evidence_ref case_id at) clock now digest a).0
        ok_a in
    elim (Option-cases (select (has_credential_digest digest) s.entitlements.credentials)) [
      | inl n ↦ ground (
        arith,
        select-update (has_credential_digest digest) (live_credential user_id)
            (λ x. record x { revoked_at = some at }) s.entitlements.credentials (λ x. refl),
      )
      | inr (old, e) ↦ ground (
        arith,
        set old,
        eq_iff old.user_id user_id,
        select-update (has_credential_digest digest) (live_credential user_id)
            (λ x. record x { revoked_at = some at }) s.entitlements.credentials (λ x. refl),
      )
    ]
