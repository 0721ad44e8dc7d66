-- ===== src/Oauth/Tokens.antt =====
-- Issue, rotation, validation and revocation of connector tokens in internal/mysqlstore/oauth_store.go.
pub mod Traces
pub mod Revocation
pub mod Rotation
use roblox_mcp_gateway.Prelude.{
  ℕ, String, Bool, true, false, not, ◌&&◌, ◌||◌, List, [], ◌∷◌, Option, none, some, Except, ok, err,
  ◌==◌, nat_comparable, string_comparable, if◌then◌else◌, ltb,
}
use roblox_mcp_gateway.Prelude.Table.{select, count_where, update}
use roblox_mcp_gateway.Oauth.{
  Error, grant_revoked, token_not_found, token_expired, token_revoked, token_reused,
  invalid_argument, constraint_violation, Grant, AccessToken, RefreshToken, Store, Outcome, is_null,
  coalesce, or_now, revoke_family,
}

-- `oauthValidateTokenPair`
unfoldable pub valid_token_pair : AccessToken → RefreshToken → Bool
valid_token_pair access refresh =
    not (access.id == "" || refresh.id == "")
    && not (access.user_id == "" || refresh.user_id == "")
    && access.user_id == refresh.user_id
    && not (access.grant_id == "" || refresh.grant_id == "")
    && access.grant_id == refresh.grant_id
    && not (access.expires_at == 0 || refresh.expires_at == 0)

-- A row that holds the primary key or the digest of another.
unfoldable pub same_access : AccessToken → AccessToken → Bool
same_access access a = a.id == access.id || a.digest == access.digest

unfoldable pub same_refresh : RefreshToken → RefreshToken → Bool
same_refresh refresh r = r.id == refresh.id || r.digest == refresh.digest

-- The two INSERTs: `none` when a primary key or a digest is already taken, or when the grant or the
-- parent token that a row names is not there for its user.
unfoldable pub insert_tokens : Store → AccessToken → RefreshToken → Option Store
insert_tokens s access refresh =
    if count_where (same_access access) s.access_tokens == 0
      && count_where (same_refresh refresh) s.refresh_tokens == 0
      && not
          (count_where (λ g. g.id == access.grant_id && g.user_id == access.user_id) s.grants == 0)
      && not (
          count_where (λ g. g.id == refresh.grant_id && g.user_id == refresh.user_id) s.grants == 0)
      && (refresh.parent_id == ""
          || not (
              count_where (λ r. r.id == refresh.parent_id && r.user_id == refresh.user_id)
                s.refresh_tokens
              == 0))
    then some (record s {
      access_tokens = record access { revoked_at = none } ∷ s.access_tokens;
      refresh_tokens = record refresh { used_at = none; revoked_at = none } ∷ s.refresh_tokens;
    })
    else none

unfoldable pub issue_with : Store → Option Store → Outcome (Unit {0})
issue_with s none = (err constraint_violation, s)
issue_with s (some t) = (ok tt, t)

unfoldable pub issue_tokens : Store → AccessToken → RefreshToken → ℕ → Outcome (Unit {0})
unfolding valid_token_pair insert_tokens issue_with
issue_tokens s access refresh now =
    if not (valid_token_pair access refresh)
    then (err invalid_argument, s)
    else issue_with s (
        insert_tokens s (record access { created_at = or_now access.created_at now })
          (record refresh {
            family_id = if refresh.family_id == "" then refresh.id else refresh.family_id;
            created_at = or_now refresh.created_at now;
          }))

unfoldable pub has_refresh : String → RefreshToken → Bool
has_refresh digest r = r.digest == digest

-- The rows that the UPDATE of `RotateRefreshToken` marks.
unfoldable pub is_unused : RefreshToken → RefreshToken → Bool
is_unused parent r = r.id == parent.id && r.user_id == parent.user_id && is_null r.used_at

unfoldable pub mark_used : ℕ → RefreshToken → RefreshToken
mark_used now r = record r { used_at = some now }

-- The replacements, as bound to the token that they rotate from.
unfoldable pub child_access : RefreshToken → AccessToken → ℕ → AccessToken
child_access parent access now = record access {
  user_id = parent.user_id;
  grant_id = parent.grant_id;
  created_at = or_now access.created_at now;
}

unfoldable pub child_refresh : RefreshToken → RefreshToken → ℕ → RefreshToken
child_refresh parent refresh now = record refresh {
  user_id = parent.user_id;
  grant_id = parent.grant_id;
  family_id = parent.family_id;
  parent_id = parent.id;
  created_at = or_now refresh.created_at now;
}

unfoldable pub rotate_with :
    Store → AccessToken → RefreshToken → Option Store → Outcome (AccessToken × RefreshToken)
rotate_with s access refresh none = (err constraint_violation, s)
rotate_with s access refresh (some t) = (ok (access, refresh), t)

-- The body of `RotateRefreshToken` from the locked row on. A rotated or revoked token revokes its
-- family, its grant and the grant's access tokens, and that is committed before the error is returned.
unfoldable pub rotate_row :
    Store → RefreshToken → AccessToken → RefreshToken → ℕ → Outcome (AccessToken × RefreshToken)
unfolding is_unused mark_used child_access child_refresh insert_tokens rotate_with
rotate_row s parent access refresh now =
    if not (is_null parent.used_at) || not (is_null parent.revoked_at)
    then (
      err (if is_null parent.used_at then token_revoked else token_reused),
      revoke_family s parent.family_id parent.grant_id parent.user_id now,
    )
    else if not (ltb now parent.expires_at)
    then (err token_expired, s)
    else if not (count_where (is_unused parent) s.refresh_tokens == 1)
    then (err token_reused, s)
    else (let a = child_access parent access now in
        let r = child_refresh parent refresh now in
        rotate_with s a r (
          insert_tokens
            (record s {
              refresh_tokens = update (is_unused parent) (mark_used now) s.refresh_tokens;
            })
            a r))

unfoldable pub rotate_refresh_token :
    Store → String → AccessToken → RefreshToken → ℕ → Outcome (AccessToken × RefreshToken)
unfolding has_refresh
rotate_refresh_token s digest access refresh now =
    if (access.id == "" || refresh.id == "")
      || (access.expires_at == 0 || refresh.expires_at == 0)
      || now == 0
    then (err invalid_argument, s)
    else elim (select (has_refresh digest) s.refresh_tokens) [
      | none ↦ (err token_not_found, s)
      | some parent ↦ rotate_row s parent access refresh now
    ]

unfoldable pub has_access : String → AccessToken → Bool
has_access digest a = a.digest == digest

-- The grant that the JOIN of `AccessTokenByDigest` finds.
unfoldable pub issued : AccessToken → Grant → Bool
issued a g = g.id == a.grant_id && g.user_id == a.user_id

unfoldable pub check_access : AccessToken → Grant → ℕ → Except Error (AccessToken × Grant)
check_access a g now =
    if not (is_null a.revoked_at)
    then err token_revoked
    else if not (ltb now a.expires_at)
    then err token_expired
    else if not (is_null g.revoked_at)
    then err grant_revoked
    else ok (a, g)

unfoldable pub access_token_by_digest : Store → String → ℕ → Except Error (AccessToken × Grant)
unfolding has_access issued check_access
access_token_by_digest s digest now =
    if now == 0 then err invalid_argument else elim (select (has_access digest) s.access_tokens) [
      | none ↦ err token_not_found
      | some a ↦ elim (select (issued a) s.grants) [
        | none ↦ err token_not_found
        | some g ↦ check_access a g now
      ]
    ]

unfoldable pub revoke_access_token : Store → String → ℕ → Store
unfolding has_access
revoke_access_token s digest now = record s {
  access_tokens =
      update (has_access digest) (λ a. record a { revoked_at = coalesce a.revoked_at now })
        s.access_tokens;
}

-- Unknown tokens are revoked silently.
unfoldable pub revoke_refresh_token : Store → String → ℕ → Outcome (Unit {0})
unfolding has_refresh
revoke_refresh_token s digest now =
    if now == 0
    then (err invalid_argument, s)
    else elim (select (has_refresh digest) s.refresh_tokens) [
      | none ↦ (ok tt, s)
      | some r ↦ (ok tt, revoke_family s r.family_id r.grant_id r.user_id now)
    ]
