-- ===== src/Oauth/Tokens/Traces.antt =====
-- Sequences of the token transactions of internal/mysqlstore/oauth_store.go.
use roblox_mcp_gateway.Prelude.{
  ℕ, suc, String, Bool, false, List, [], ◌∷◌, ok, err, ◌==◌, nat_comparable, string_comparable,
  if◌then◌else◌,
}
use roblox_mcp_gateway.Oauth.{AccessToken, RefreshToken, Store, revoke_grant}
use roblox_mcp_gateway.Oauth.Tokens.{
  issue_tokens, rotate_refresh_token, revoke_access_token, revoke_refresh_token,
}

-- A transaction with its arguments; the server takes them one after the other.
pub data Op : Type 0 where
  issue : AccessToken → RefreshToken → ℕ → Op
  rotate : String → AccessToken → RefreshToken → ℕ → Op
  revoke_by_grant : String → ℕ → Op
  revoke_by_access : String → ℕ → Op
  revoke_by_refresh : String → ℕ → Op

unfoldable pub apply : Store → Op → Store
apply s (issue a r now) = (issue_tokens s a r now).1
apply s (rotate digest a r now) = (rotate_refresh_token s digest a r now).1
apply s (revoke_by_grant id now) = (revoke_grant s id now).1
apply s (revoke_by_access digest now) = revoke_access_token s digest now
apply s (revoke_by_refresh digest now) = (revoke_refresh_token s digest now).1

abbrev pub run : Store → List Op → Store
run s [] = s
run s (o ∷ ops) = run (apply s o) ops

-- Whether an operation exchanges the refresh token with a digest for new tokens.
unfoldable pub exchanges : String → Store → Op → Bool
exchanges d s (issue a r now) = false
exchanges d s (rotate digest a r now) = elim (rotate_refresh_token s digest a r now).0 [
  | ok pair ↦ digest == d
  | err e ↦ false
]
exchanges d s (revoke_by_grant id now) = false
exchanges d s (revoke_by_access digest now) = false
exchanges d s (revoke_by_refresh digest now) = false

-- How often the refresh token with a digest is exchanged.
abbrev pub exchanged : String → Store → List Op → ℕ
exchanged d s [] = 0
exchanged d s (o ∷ ops) =
    (let more = exchanged d (apply s o) ops in if exchanges d s o then suc more else more)
