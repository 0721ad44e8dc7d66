-- ===== src/Access/Admitted.antt =====
-- When internal/bridgehub/auth.go lets a Bridge in, and when internal/mcpgateway/auth.go lets a
-- connector's call through: the same entitlement decides both.
use roblox_mcp_gateway.Prelude.{
  ℕ, ◌<◌, String, ◌≡◌, ◌↔◌, ◌⊎◌, inl, inr, true, some, ok, nat_comparable, string_comparable, arith,
  eq_iff, Option-cases, Except-cases,
}
use roblox_mcp_gateway.Prelude.Table.{select, count_where, select_holds}
use roblox_mcp_gateway.Entitlement.{Credential, permits}
use roblox_mcp_gateway.Entitlement.Trial.{of_user, is_licensed, trial_open, authorize}
use roblox_mcp_gateway.Oauth
use roblox_mcp_gateway.Oauth.Tokens.{access_token_by_digest}
use roblox_mcp_gateway.Access.{
  Store, Identity, time_of, has_credential_digest, credential_of, lookup_device_credential,
  device_owned_and_active, has_active_device_binding, user_identity, sql_lookups,
}
use roblox_mcp_gateway.Access.Bridge.{
  Authenticated, check_decision, check_identity, check_credential, authenticate_digest,
}
use roblox_mcp_gateway.Access.Gateway.{
  Principal, check_window, check_device, check_grant, reauthorize, subject_of,
}

-- The device is an active one of the user's, and the user has a running trial, or both an active
-- license and an active binding of the device. The binding may be one of another license, whose status
-- is not asked for.
abbrev pub IsEntitled : Store → ℕ → String → String → Type 0
IsEntitled s now user_id device_id =
    (device_owned_and_active s user_id device_id ≡ true)
    × ((trial_open (select (of_user user_id) s.entitlements.trials) now ≡ true)
        ⊎ ((0 < count_where (is_licensed user_id) s.entitlements.licenses)
            × (has_active_device_binding s user_id device_id ≡ true)))

abbrev pub HasIdentity : Store → String → Type 0
HasIdentity s user_id = (i : Identity) × (user_identity s user_id ≡ ok i)

-- What the credential of a digest has to be.
abbrev pub IsCredential : Store → ℕ → String → Credential → Type 0
IsCredential s now digest c =
    (select (has_credential_digest digest) s.entitlements.credentials ≡ some c)
    × (time_of c.revoked_at ≡ 0)
    × ((time_of c.expires_at ≡ 0) ⊎ (now < time_of c.expires_at))

has_digest :
    (s : Store) (digest : String) (c : Credential)
    → select (has_credential_digest digest) s.entitlements.credentials ≡ some c
    → c.digest ≡ digest
unfolding has_credential_digest
has_digest s digest c h = ground (
  arith,
  eq_iff c.digest digest,
  select_holds (has_credential_digest digest) s.entitlements.credentials c,
)

-- A Bridge is let in, as the user and the device of its credential, just when the credential is known,
-- not revoked and not expired, its owner has an active Roblox identity, and the device is an active one
-- of the owner's, who has a running trial, or both an active license and an active binding of the device,
-- be it to that license or to another.
pub authenticate_iff :
    (s : Store) (clock now : ℕ) (digest : String) (a : Authenticated)
    → (authenticate_digest (sql_lookups s clock) digest now ≡ ok a) ↔ (
        (c : Credential) × (i : Identity) × IsCredential s now digest c
        × (user_identity s c.user_id ≡ ok i)
        × IsEntitled s clock c.user_id c.device_id
        × (a ≡ record {
          user_id = c.user_id;
          device_id = c.device_id;
          provider = i.provider;
          provider_subject = i.provider_subject;
          credential_digest = digest;
        }))
unfolding authenticate_digest check_credential check_identity check_decision
    lookup_device_credential credential_of authorize permits
authenticate_iff s clock now digest a =
    elim (Option-cases (select (has_credential_digest digest) s.entitlements.credentials)) [
      | inl n ↦ ground arith
      | inr (c, e) ↦ elim (Except-cases (user_identity s c.user_id)) [
        | inr (x, n) ↦ ground arith
        | inl (i, f) ↦ ground (arith, eq_iff c.digest digest, has_digest s digest c e)
      ]
    ]

-- A connector's call goes through just when its access token is accepted, the grant is for this
-- resource, the grant's user has an active Roblox identity, and the grant's device is an active one of
-- the user's, who has a running trial, or both an active license and an active binding of the device, be
-- it to that license or to another.
pub reauthorize_iff :
    (s : Store) (tokens : Oauth.Store) (clock now : ℕ) (resource digest : String) (p : Principal)
    → (reauthorize (sql_lookups s clock) tokens resource now digest ≡ ok p) ↔ (
        (access_token_by_digest tokens digest now ≡ ok p)
        × (p.1.resource ≡ resource)
        × HasIdentity s p.1.user_id
        × IsEntitled s clock p.1.user_id p.1.device_id)
unfolding reauthorize check_grant check_device check_window authorize permits subject_of
reauthorize_iff s tokens clock now resource digest p =
    elim (Except-cases (access_token_by_digest tokens digest now)) [
      | inr (x, n) ↦ ground arith
      | inl ((token, grant), e) ↦ elim (Except-cases (user_identity s grant.user_id)) [
        | inr (x, n) ↦ (
          λ h. absurd (ground (arith, eq_iff grant.resource resource)),
          λ h. absurd (ground arith),
        )
        | inl (i, f) ↦ (
          λ h. (
            ground arith,
            ground (arith, eq_iff grant.resource resource),
            (i, ground (arith, eq_iff grant.resource resource)),
            ground (arith, eq_iff grant.resource resource),
          ),
          λ h. ground (arith, eq_iff grant.resource resource),
        )
      ]
    ]
