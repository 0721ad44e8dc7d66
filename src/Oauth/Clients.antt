-- ===== src/Oauth/Clients.antt =====
-- The connector clients and the remembered consents of internal/mysqlstore/oauth_store.go. A generated id
-- is the argument `candidate`.
use roblox_mcp_gateway.Prelude.{
  ℕ, String, Bool, ◌&&◌, List, ◌∷◌, Option, none, some, Except, ok, err, ◌==◌, string_comparable,
  if◌then◌else◌,
}
use roblox_mcp_gateway.Prelude.Table.{select, update}
use roblox_mcp_gateway.Oauth.{
  Error, invalid_argument, client_not_found, session_consent_not_found, or_now,
}
use roblox_mcp_gateway.Oauth.Validate.{Url, Client, validate_client}

pub record SessionConsent : Type 0 where
  pub web_session_id : String
  pub client_id : String
  pub grant_id : String
  pub requested_scopes : List String
  pub resource : String
  pub created_at : ℕ
  pub updated_at : ℕ

unfoldable pub has_client_id : String → Client → Bool
has_client_id client_id c = c.client_id == client_id

unfoldable pub has_row_id : String → Client → Bool
has_row_id id c = c.id == id

-- `ON DUPLICATE KEY UPDATE`
unfoldable pub renamed : Client → Client → Client
renamed client old = record old {
  client_name = client.client_name;
  redirect_uris = client.redirect_uris;
}

-- `if candidateID == "" { candidateID = identityUUID() }`, and the same for the time.
unfoldable pub new_client : Client → String → ℕ → Client
new_client client candidate now = record client {
  id = if client.id == "" then candidate else client.id;
  created_at = or_now client.created_at now;
}

unfoldable pub upsert_client : Client → List Client → List Client
unfolding has_client_id has_row_id renamed
upsert_client client clients = elim (select (has_row_id client.id) clients) [
  | some c ↦ update (has_row_id client.id) (renamed client) clients
  | none ↦ elim (select (has_client_id client.client_id) clients) [
    | some c ↦ update (has_client_id client.client_id) (renamed client) clients
    | none ↦ client ∷ clients
  ]
]

-- `oauthSelectClient`, which is also `ClientByPublicID`.
unfoldable pub client_by_public_id : List Client → String → Except Error Client
unfolding has_client_id
client_by_public_id clients client_id = elim (select (has_client_id client_id) clients) [
  | none ↦ err client_not_found
  | some c ↦ ok c
]

-- The commit, if the row is found again.
unfoldable pub commit_client :
    List Client → List Client → String → Except Error Client × List Client
unfolding client_by_public_id
commit_client before after client_id = elim (client_by_public_id after client_id) [
  | err e ↦ (err e, before)
  | ok c ↦ (ok c, after)
]

unfoldable pub register_client :
    (String → Option Url) → List Client → Client → String → ℕ → Except Error Client × List Client
unfolding upsert_client new_client commit_client
register_client parse clients client candidate now = elim (validate_client parse client) [
  | err e ↦ (err e, clients)
  | ok u ↦
      commit_client clients (upsert_client (new_client client candidate now) clients)
        client.client_id
]

unfoldable pub is_consent_of : String → String → SessionConsent → Bool
is_consent_of web_session_id client_id c =
    c.web_session_id == web_session_id && c.client_id == client_id

unfoldable pub session_consent : List SessionConsent → String → String → Except Error SessionConsent
unfolding is_consent_of
session_consent consents web_session_id client_id =
    if web_session_id == ""
    then err invalid_argument
    else if client_id == ""
    then err invalid_argument
    else elim (select (is_consent_of web_session_id client_id) consents) [
      | none ↦ err session_consent_not_found
      | some c ↦ ok c
    ]
