-- ===== src/Oauth/Registered.antt =====
-- What `RegisterClient` of internal/mysqlstore/oauth_store.go keeps of a client that registers again.
use roblox_mcp_gateway.Prelude.{
  ℕ, String, ◌≡◌, refl, inl, inr, List, Option, none, some, ok, string_comparable, arith, eq_self,
  Option-cases,
}
use roblox_mcp_gateway.Prelude.Table.{select, select-update, select_holds}
use roblox_mcp_gateway.Oauth.Validate.{Url, Client, validate_client}
use roblox_mcp_gateway.Oauth.Clients.{
  has_client_id, has_row_id, renamed, new_client, upsert_client, client_by_public_id, commit_client,
  register_client,
}

-- What a registration makes of the client that is stored under its public id.
abbrev pub registered : Option Client → Client → Client
registered none client = client
registered (some old) client = renamed client old

-- With valid arguments and an unused row id, a registration returns the client that is found under its
-- public id afterwards: a new one, or the old one with its row id and its time of registration and with
-- the new name and redirect URIs.
pub register_client-registered :
    (parse : String → Option Url) (clients : List Client) (client : Client) (candidate : String)
    (now : ℕ)
    → validate_client parse client ≡ ok tt
    → select (has_row_id (new_client client candidate now).id) clients ≡ none
    → let (result, after) = register_client parse clients client candidate now in
      (result
        ≡ ok (
            registered
              (select (has_client_id client.client_id) clients)
              (new_client client candidate now)))
      × (client_by_public_id after client.client_id ≡ result)
unfolding register_client commit_client select upsert_client client_by_public_id new_client renamed
    has_client_id
register_client-registered parse clients client candidate now valid unused =
    elim (Option-cases (select (has_client_id client.client_id) clients)) [
      | inl n ↦ (ground (arith, eq_self client.client_id), ground (arith, eq_self client.client_id))
      | inr (old, e) ↦ (
        ground (
          arith,
          select-update (has_client_id client.client_id) (has_client_id client.client_id)
              (renamed (new_client client candidate now)) clients (λ x. refl),
          select_holds (has_client_id client.client_id) clients old e,
        ),
        ground (
          arith,
          select-update (has_client_id client.client_id) (has_client_id client.client_id)
              (renamed (new_client client candidate now)) clients (λ x. refl),
          select_holds (has_client_id client.client_id) clients old e,
        ),
      )
    ]
