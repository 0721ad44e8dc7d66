-- ===== src/Oauth/Validate.antt =====
-- The checks of internal/mcpoauth/model.go on clients, scopes and URLs. net/url's parser is the argument
-- `parse`; a text's runes are its characters.
use Prim.Native.Char.{code}
use roblox_mcp_gateway.Prelude.{
  ℕ, String, Bool, true, false, not, ◌&&◌, ◌||◌, List, [], ◌∷◌, Option, none, some, Except, ok, err,
  ◌>>◌, reject_if, ◌==◌, string_comparable, nat_comparable, if◌then◌else◌, ltb, leb, len,
}
use roblox_mcp_gateway.Prelude.Set.{contains}
use roblox_mcp_gateway.Oauth.{Error, invalid_argument, invalid_client}

-- What the code reads of a `url.URL`.
pub record Url : Type 0 where
  pub scheme : String
  pub is_abs : Bool
  pub host : String
  pub has_user : Bool
  pub raw_query : String
  pub fragment : String
  pub raw_fragment : String

pub record Client : Type 0 where
  pub id : String
  pub client_id : String
  pub client_name : String
  pub redirect_uris : List String
  pub created_at : ℕ

-- A rune that a scope token must not have.
abbrev pub is_refused_rune : ℕ → Bool
is_refused_rune r = r == 34 || r == 92 || leb r 32 || leb 127 r

unfoldable pub runes_allowed : String → Bool
runes_allowed String.[] = true
runes_allowed (String.◌∷◌ c s) = if is_refused_rune (code c) then false else runes_allowed s

unfoldable pub validate_scope_token : String → Bool
unfolding runes_allowed
validate_scope_token scope = not (scope == "" || ltb 255 (len scope)) && runes_allowed scope

-- The loop of `ValidateScopes`, over the scopes seen.
unfoldable pub validate_distinct : List String → List String → Except Error (Unit {0})
unfolding validate_scope_token contains
validate_distinct seen [] = ok tt
validate_distinct seen (scope ∷ scopes) =
    (let rest = validate_distinct (scope ∷ seen) scopes in
      if not (validate_scope_token scope)
      then err invalid_argument
      else if contains scope seen
      then err invalid_argument
      else rest)

unfoldable pub validate_scopes : List String → Except Error (Unit {0})
unfolding validate_distinct
validate_scopes [] = err invalid_argument
validate_scopes (scope ∷ scopes) = validate_distinct [] (scope ∷ scopes)

module _ (parse : String → Option Url) where
  unfoldable pub validate_https_url : String → ℕ → Bool → Except Error (Unit {0})
  validate_https_url raw max_length allow_query =
      if raw == "" || ltb max_length (len raw) then err invalid_argument else elim (parse raw) [
        | none ↦ err invalid_argument
        | some url ↦ do
          reject_if (not (url.scheme == "https") || not url.is_abs || url.host == "")
              invalid_argument
          reject_if url.has_user invalid_argument
          reject_if (not allow_query && not (url.raw_query == "")) invalid_argument
          reject_if (not (url.fragment == "") || not (url.raw_fragment == "")) invalid_argument
      ]

  unfoldable pub validate_redirect_uri : String → Except Error (Unit {0})
  unfolding validate_https_url
  validate_redirect_uri uri = validate_https_url uri 2048 true

  unfoldable pub validate_resource_url : String → Except Error (Unit {0})
  unfolding validate_https_url
  validate_resource_url resource = validate_https_url resource 2048 false

  -- The loop of `ValidateRedirectURIs`.
  unfoldable pub validate_each_uri : List String → Except Error (Unit {0})
  unfolding validate_redirect_uri
  validate_each_uri [] = ok tt
  validate_each_uri (uri ∷ uris) =
      (let rest = validate_each_uri uris in
        elim (validate_redirect_uri uri) [ err e ↦ err invalid_client | ok u ↦ rest ])

  unfoldable pub validate_redirect_uris : List String → Except Error (Unit {0})
  unfolding validate_each_uri
  validate_redirect_uris [] = err invalid_client
  validate_redirect_uris (uri ∷ uris) = validate_each_uri (uri ∷ uris)

  unfoldable pub validate_client : Client → Except Error (Unit {0})
  unfolding validate_redirect_uris
  validate_client client = do
    reject_if (client.client_id == "") invalid_client
    reject_if (ltb 255 (len client.client_id)) invalid_client
    reject_if (ltb 255 (len client.client_name)) invalid_client
    validate_redirect_uris client.redirect_uris
