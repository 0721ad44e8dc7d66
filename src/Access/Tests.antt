-- ===== src/Access/Tests.antt =====
-- Runs of the two checks, and the theorems on them.
use roblox_mcp_gateway.Prelude.{
  ◌≡◌, refl, ◌≢◌, ◌↔◌, [], ◌∷◌, none, ok, err, string_comparable, nat_comparable, arith,
}
use roblox_mcp_gateway.Prelude.Table.{select, count_where, update}
use roblox_mcp_gateway.Prelude.Set.{contains}
use roblox_mcp_gateway.Entitlement.{active, Device, Credential, Entitlement, permits}
use roblox_mcp_gateway.Entitlement.Trial.{of_user, is_licensed, trial_open, authorize}
use roblox_mcp_gateway.Entitlement.Licenses.{
  revoke_device, revoke_binding, recover_identity, live_credential, live_session,
}
use roblox_mcp_gateway.Oauth
use roblox_mcp_gateway.Oauth.{AccessToken, Grant}
use roblox_mcp_gateway.Oauth.Tokens.{has_access, issued, check_access, access_token_by_digest}
use roblox_mcp_gateway.Access.{
  Store, Identity, has_credential_digest, credential_of, lookup_device_credential, is_owned_active,
  is_bound_active, device_owned_and_active, has_active_device_binding, is_identity_of,
  user_identity, sql_lookups,
}
use roblox_mcp_gateway.Access.Bridge.{
  Authenticated, credential_revoked, not_permitted, not_active_for_owner, check_decision,
  check_identity, check_credential, authenticate_digest,
}
use roblox_mcp_gateway.Access.Gateway.{
  Principal, window_closed, resource_binding, subject_of, check_window, check_device, check_grant,
  reauthorize, entitle,
}
use roblox_mcp_gateway.Access.Admitted.{
  IsEntitled, IsCredential, HasIdentity, authenticate_iff, reauthorize_iff,
}
use roblox_mcp_gateway.Access.Locked.{
  without_device, recovered, revoked_device-locked, recovered_user-locked,
}

abbrev trial : Entitlement
trial = record {
  id = "t1";
  user_id = "u1";
  started_at = 1000;
  ends_at = 9000;
  extension_reason = none;
  extended_by = none;
}

abbrev device : Device
device = record {
  id = "d1";
  user_id = "u1";
  name = "pc";
  hostname = none;
  platform = none;
  bridge_version = none;
  fingerprint = none;
  status = active;
}

abbrev credential : Credential
credential = record {
  id = "c1";
  user_id = "u1";
  device_id = "d1";
  digest = "k1";
  expires_at = none;
  revoked_at = none;
}

abbrev store : Store
store = record {
  entitlements = record {
    users = "u1" ∷ [];
    trials = trial ∷ [];
    identities = [];
    devices = device ∷ [];
    credentials = credential ∷ [];
    licenses = [];
    bindings = [];
    sessions = [];
    transfers = [];
    recoveries = [];
  };
  identities =
      record { user_id = "u1"; provider = "roblox"; provider_subject = "42"; status = active } ∷ [];
}

abbrev bridge : Authenticated
bridge = record {
  user_id = "u1";
  device_id = "d1";
  provider = "roblox";
  provider_subject = "42";
  credential_digest = "k1";
}

abbrev token : AccessToken
token = record {
  id = "a1";
  digest = "h1";
  user_id = "u1";
  grant_id = "g1";
  expires_at = 9000;
  revoked_at = none;
  created_at = 1000;
}

abbrev grant : Grant
grant = record {
  id = "g1";
  user_id = "u1";
  client_id = "x1";
  device_id = "d1";
  studio_session_id = "";
  scopes = "mcp:connect" ∷ [];
  resource = "https://g/mcp";
  revoked_at = none;
  created_at = 1000;
}

abbrev tokens : Oauth.Store
tokens = record { codes = []; grants = grant ∷ []; access_tokens = token ∷ []; refresh_tokens = [] }

machine : Unit {0}
unfolding authenticate_digest check_credential check_identity check_decision
    lookup_device_credential credential_of has_credential_digest is_owned_active is_bound_active
    device_owned_and_active has_active_device_binding is_identity_of user_identity authorize permits
    of_user is_licensed trial_open select count_where update access_token_by_digest has_access
    issued check_access reauthorize check_grant check_device check_window subject_of entitle
    revoke_device revoke_binding recover_identity live_credential live_session contains
machine = tt

-- In the trial, after it, and after the revocation of the device.
runs :
    (authenticate_digest (sql_lookups store 2000) "k1" 2000 ≡ ok bridge)
    × (authenticate_digest (sql_lookups store 9000) "k1" 9000 ≡ err not_permitted)
    × (authenticate_digest (sql_lookups (without_device store "d1") 2000) "k1" 2000
        ≡ err not_active_for_owner)
    × (authenticate_digest
          (sql_lookups (recovered store "u1" "lost" "case" "r1" 2000) 2500)
          "k1"
          2500
        ≡ err credential_revoked)
    × (reauthorize (sql_lookups store 2000) tokens "https://g/mcp" 2000 "h1" ≡ ok (token, grant))
    × (reauthorize (sql_lookups store 2000) tokens "https://g/other" 2000 "h1"
        ≡ err resource_binding)
    × (entitle (sql_lookups store 9000) "u1" ≡ err window_closed)
unfolding machine
runs = (refl, refl, refl, refl, refl, refl, refl)

authenticate_iff_example : (authenticate_digest (sql_lookups store 2000) "k1" 2000 ≡ ok bridge) ↔ (
    (c : Credential) × (i : Identity) × IsCredential store 2000 "k1" c
    × (user_identity store c.user_id ≡ ok i)
    × IsEntitled store 2000 c.user_id c.device_id
    × (bridge ≡ record {
      user_id = c.user_id;
      device_id = c.device_id;
      provider = i.provider;
      provider_subject = i.provider_subject;
      credential_digest = "k1";
    }))
authenticate_iff_example = authenticate_iff store 2000 2000 "k1" bridge

reauthorize_iff_example :
    (reauthorize (sql_lookups store 2000) tokens "https://g/mcp" 2000 "h1" ≡ ok (token, grant)) ↔ (
      (access_token_by_digest tokens "h1" 2000 ≡ ok (token, grant))
      × (grant.resource ≡ "https://g/mcp")
      × HasIdentity store "u1"
      × IsEntitled store 2000 "u1" "d1")
reauthorize_iff_example = reauthorize_iff store tokens 2000 2000 "https://g/mcp" "h1" (token, grant)

revoked_device-locked_example :
    ((a : Authenticated)
      → authenticate_digest (sql_lookups (without_device store "d1") 2000) "k1" 2000 ≡ ok a
      → a.device_id ≢ "d1")
    × ((p : Principal)
        → reauthorize
            (sql_lookups (without_device store "d1") 2000)
            tokens
            "https://g/mcp"
            2000
            "h1"
          ≡ ok p
        → p.1.device_id ≢ "d1")
unfolding machine
revoked_device-locked_example =
    revoked_device-locked store tokens 2000 2000 "https://g/mcp" "k1" "h1" "d1" refl

-- A second user, whose credential stays good.
abbrev shared : Store
shared = record store {
  entitlements = record store.entitlements {
    users = "u1" ∷ "u2" ∷ [];
    trials = trial ∷ record trial { id = "t2"; user_id = "u2" } ∷ [];
    devices = device ∷ record device { id = "d2"; user_id = "u2" } ∷ [];
    credentials =
        credential
        ∷ record credential { id = "c2"; user_id = "u2"; device_id = "d2"; digest = "k2" }
        ∷ [];
  };
  identities =
      record { user_id = "u2"; provider = "roblox"; provider_subject = "43"; status = active }
      ∷ store.identities;
}

abbrev other_bridge : Authenticated
other_bridge = record {
  user_id = "u2";
  device_id = "d2";
  provider = "roblox";
  provider_subject = "43";
  credential_digest = "k2";
}

recovered_user-locked_example : other_bridge.user_id ≢ "u1"
unfolding machine
recovered_user-locked_example =
    recovered_user-locked shared "u1" "lost" "case" "r1" 2000 2500 2500 "k2" other_bridge
      (λ e. omega arith) (λ c e. ground arith) refl refl
