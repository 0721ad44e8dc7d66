-- ===== src/Oauth/Grants/Tests.antt =====
-- Runs of the approvals, and the theorems on them.
use roblox_mcp_gateway.Prelude.{
  String, ◌≡◌, refl, true, false, [], ◌∷◌, Option, none, some, ok, err, ◌==◌, string_comparable,
  nat_comparable, if◌then◌else◌,
}
use roblox_mcp_gateway.Prelude.Set.{contains}
use roblox_mcp_gateway.Prelude.Table.{select, count_where, update}
use roblox_mcp_gateway.Oauth.{
  invalid_argument, invalid_client, AuthorizationCode, Grant, Store, consume_authorization_code,
  consume_row, code_has, is_bound, is_unconsumed, mark_consumed,
}
use roblox_mcp_gateway.Oauth.Validate.{
  Url, Client, runes_allowed, validate_scope_token, validate_distinct, validate_scopes,
  validate_https_url, validate_redirect_uri, validate_resource_url, validate_each_uri,
  validate_redirect_uris, validate_client,
}
use roblox_mcp_gateway.Oauth.Clients.{
  has_client_id, has_row_id, renamed, new_client, upsert_client, client_by_public_id, commit_client,
  register_client,
}
use roblox_mcp_gateway.Oauth.Grants.{
  is_for, has_grant_id, select_grant, renewed, new_grant, upsert_grant, validate_grant,
  select_saved, save_grant, validate_code, save_authorization_code,
}
use roblox_mcp_gateway.Oauth.Grants.Approved.{approved, is_key, save_grant-approves}

-- A parser for one URL.
abbrev parse : String → Option Url
parse raw =
    if raw == "https://g/mcp"
    then some (record {
      scheme = "https";
      is_abs = true;
      host = "g";
      has_user = false;
      raw_query = "";
      fragment = "";
      raw_fragment = "";
    })
    else none

abbrev grant : Grant
grant = record {
  id = "g2";
  user_id = "u1";
  client_id = "x1";
  device_id = "d1";
  studio_session_id = "";
  scopes = "studio:read" ∷ [];
  resource = "https://g/mcp";
  revoked_at = none;
  created_at = 0;
}

abbrev old : Grant
old = record grant { id = "g1"; scopes = []; revoked_at = some 50; created_at = 10 }

abbrev store : Store
store = record { codes = []; grants = old ∷ []; access_tokens = []; refresh_tokens = [] }

abbrev code : AuthorizationCode
code = record {
  id = "c1";
  digest = "h1";
  user_id = "u1";
  client_id = "x1";
  redirect_uri = "https://g/mcp";
  code_challenge = "challenge";
  scopes = "studio:read" ∷ [];
  device_id = "d1";
  studio_session_id = "";
  resource = "https://g/mcp";
  expires_at = 900;
  consumed_at = none;
  created_at = 0;
}

abbrev client : Client
client = record {
  id = "";
  client_id = "https://ai";
  client_name = "AI";
  redirect_uris = "https://g/mcp" ∷ [];
  created_at = 0;
}

machine : Unit {0}
unfolding contains select count_where update consume_authorization_code consume_row code_has
    is_bound is_unconsumed mark_consumed runes_allowed validate_scope_token validate_distinct
    validate_scopes validate_https_url validate_redirect_uri validate_resource_url validate_each_uri
    validate_redirect_uris validate_client has_client_id has_row_id renamed new_client upsert_client
    client_by_public_id commit_client register_client is_for has_grant_id select_grant renewed
    new_grant upsert_grant validate_grant select_saved save_grant validate_code
    save_authorization_code
machine = tt

-- A grant that was revoked is restored under its own id.
runs :
    ((save_grant parse (λ g. true) store grant 100).0
      ≡ ok (record old { scopes = "studio:read" ∷ []; revoked_at = none }))
    × ((save_grant parse (λ g. true) store (record grant { scopes = "a" ∷ "a" ∷ [] }) 100).0
        ≡ err invalid_argument)
    × ((save_grant parse (λ g. true) store (record grant { scopes = "a b" ∷ [] }) 100).0
        ≡ err invalid_argument)
    × ((register_client parse [] client "r1" 100).0
        ≡ ok (record client { id = "r1"; created_at = 100 }))
    × ((register_client parse [] (record client { redirect_uris = "ftp://g" ∷ [] }) "r1" 100).0
        ≡ err invalid_client)
unfolding machine
runs = (refl, refl, refl, refl, refl)

save_grant-approves_example :
    let before = select_grant store "u1" "x1" "d1" in
    let (result, t) = save_grant parse (λ g. true) store grant 100 in
    (result ≡ ok (approved before grant 100))
    × ((user_id client_id device_id : String)
        → select_grant t user_id client_id device_id ≡ (
            if is_key grant user_id client_id device_id
            then some (approved before grant 100)
            else select_grant store user_id client_id device_id))
unfolding machine
save_grant-approves_example = save_grant-approves parse (λ g. true) store grant 100 refl refl refl
