-- ===== src/Oauth/Tests.antt =====
-- Runs of the token transactions, and the theorems on them at one store.
use roblox_mcp_gateway.Prelude.{◌≤◌, ◌<◌, String, ◌≡◌, refl, List, [], ◌∷◌, none, some, ok, err}
use roblox_mcp_gateway.Prelude.Table.{select, count_where, update}
use roblox_mcp_gateway.Oauth.{
  code_used, code_binding, token_revoked, CodeBinding, AuthorizationCode, Grant, AccessToken,
  RefreshToken, Store, code_has, is_unconsumed, mark_consumed, is_bound, consume_row,
  consume_authorization_code, revoke_access, revoke_grants, revoke_family, revoke_grant,
}
use roblox_mcp_gateway.Oauth.SingleUse.{found, consume-ok, Attempt, redeemed, single_use}
use roblox_mcp_gateway.Oauth.Tokens.{
  valid_token_pair, same_access, same_refresh, insert_tokens, issue_with, issue_tokens, has_refresh,
  is_unused, mark_used, child_access, child_refresh, rotate_with, rotate_row, rotate_refresh_token,
  has_access, issued, check_access, access_token_by_digest, revoke_access_token,
  revoke_refresh_token,
}
use roblox_mcp_gateway.Oauth.Tokens.Traces.{Op, rotate, apply, run, exchanges, exchanged}
use roblox_mcp_gateway.Oauth.Tokens.Revocation.{replay-final, revoke_grant-final}
use roblox_mcp_gateway.Oauth.Tokens.Rotation.{exchanged_once}

abbrev code_a : AuthorizationCode
code_a = record {
  id = "c1";
  digest = "dc";
  user_id = "u1";
  client_id = "app";
  redirect_uri = "http://127.0.0.1/cb";
  code_challenge = "ch";
  scopes = "studio" ∷ [];
  device_id = "d1";
  studio_session_id = "";
  resource = "r";
  expires_at = 100;
  consumed_at = none;
  created_at = 1;
}

abbrev binding_a : CodeBinding
binding_a = record { client_id = "app"; redirect_uri = "http://127.0.0.1/cb"; resource = "r" }

abbrev grant : String → String → Grant
grant id user_id = record {
  id = id;
  user_id = user_id;
  client_id = "app";
  device_id = "d1";
  studio_session_id = "";
  scopes = "studio" ∷ [];
  resource = "r";
  revoked_at = none;
  created_at = 1;
}

abbrev access : String → String → String → AccessToken
access id user_id grant_id = record {
  id = id;
  digest = id;
  user_id = user_id;
  grant_id = grant_id;
  expires_at = 100;
  revoked_at = none;
  created_at = 1;
}

abbrev refresh : String → String → String → RefreshToken
refresh id user_id grant_id = record {
  id = id;
  digest = id;
  user_id = user_id;
  grant_id = grant_id;
  family_id = "f1";
  parent_id = "";
  expires_at = 100;
  used_at = none;
  revoked_at = none;
  created_at = 1;
}

-- Two users, each with a grant and an access token; the first has a refresh token.
abbrev store : Store
store = record {
  codes = code_a ∷ [];
  grants = grant "g1" "u1" ∷ grant "g2" "u2" ∷ [];
  access_tokens = access "a1" "u1" "g1" ∷ access "a2" "u2" "g2" ∷ [];
  refresh_tokens = refresh "r1" "u1" "g1" ∷ [];
}

-- The store in which the first refresh token has been exchanged.
abbrev rotated : Store
rotated = record store {
  refresh_tokens = record (refresh "r1" "u1" "g1") { used_at = some 5 } ∷ [];
}

abbrev consumed : Store
consumed = record store { codes = record code_a { consumed_at = some 5 } ∷ [] }

consumes :
    (consume_authorization_code store "dc" binding_a 5
      ≡ (ok (record code_a { consumed_at = some 5 }), consumed))
    × (consume_authorization_code consumed "dc" binding_a 6 ≡ (err code_used, consumed))
    × (consume_authorization_code store "dc" (record binding_a { client_id = "other" }) 5
        ≡ (err code_binding, store))
unfolding consume_authorization_code consume_row code_has is_unconsumed mark_consumed is_bound
    select count_where update
consumes = (refl, refl, refl)

consume-ok_example :
    (old : AuthorizationCode) × (found store "dc" ≡ some old)
    × (old.consumed_at ≡ none)
    × (5 < old.expires_at)
    × (binding_a.client_id ≡ old.client_id)
    × (binding_a.redirect_uri ≡ old.redirect_uri)
    × (binding_a.resource ≡ old.resource)
    × (record code_a { consumed_at = some 5 } ≡ mark_consumed 5 old)
    × (found consumed "dc" ≡ some (mark_consumed 5 old))
consume-ok_example =
    consume-ok store consumed "dc" binding_a 5 (record code_a { consumed_at = some 5 }) consumes.0

abbrev attempts : List Attempt
attempts =
    record { digest = "dc"; binding = binding_a; now = 5 }
    ∷ record { digest = "dc"; binding = binding_a; now = 6 }
    ∷ []

redeems : redeemed "dc" store attempts ≡ 1
unfolding consume_authorization_code consume_row code_has is_unconsumed mark_consumed is_bound
    select count_where update
redeems = refl

single_use_example : redeemed "dc" store attempts ≤ 1
single_use_example = single_use "dc" store attempts

abbrev replayed : List Op
replayed =
    rotate "r1" (access "a3" "" "") (refresh "r2" "" "") 5
    ∷ rotate "r1" (access "a4" "" "") (refresh "r3" "" "") 6
    ∷ []

machine : Unit {0}
unfolding issue_tokens valid_token_pair same_access same_refresh insert_tokens issue_with
    has_refresh is_unused mark_used child_access child_refresh rotate_with rotate_row
    rotate_refresh_token has_access issued check_access access_token_by_digest revoke_access_token
    revoke_refresh_token revoke_access revoke_grants revoke_family revoke_grant apply exchanges
    select count_where update
machine = tt

-- The second exchange is refused, and it revokes the access token that the first one issued.
replays :
    (exchanged "r1" store replayed ≡ 1)
    × (access_token_by_digest (run store replayed) "a3" 7 ≡ err token_revoked)
unfolding machine
replays = (refl, refl)

replay-final_example :
    ¬ (((access "a2" "u2" "g2").grant_id ≡ "g1") × ((access "a2" "u2" "g2").user_id ≡ "u1"))
unfolding machine
replay-final_example =
    replay-final rotated "r1" (record (refresh "r1" "u1" "g1") { used_at = some 5 })
      (access "a3" "" "") (refresh "r2" "" "") 6 replayed "a2" 7 (access "a2" "u2" "g2")
      (grant "g2" "u2") refl refl refl refl

revoke_grant-final_example :
    ¬ (((access "a2" "u2" "g2").grant_id ≡ "g1") × ((access "a2" "u2" "g2").user_id ≡ "u1"))
unfolding machine
revoke_grant-final_example =
    revoke_grant-final store "g1" (grant "g1" "u1") 6 replayed "a2" 7 (access "a2" "u2" "g2")
      (grant "g2" "u2") refl refl refl

exchanged_once_example : exchanged "r1" store replayed ≤ 1
exchanged_once_example = exchanged_once "r1" store replayed
