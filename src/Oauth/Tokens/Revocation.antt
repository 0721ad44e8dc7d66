-- ===== src/Oauth/Tokens/Revocation.antt =====
-- Revocation lasts: none of the token operations of internal/mysqlstore/oauth_store.go restores a grant.
-- A new consent of the user (`SaveGrant`) does, and is not one of them.
use roblox_mcp_gateway.Prelude.{
  ℕ, ◌≤◌, String, ◌≡◌, refl, inl, inr, Bool, false, ◌&&◌, ◌||◌, List, [], ◌∷◌, none, some, ok, ◌==◌,
  nat_comparable, string_comparable, arith, eq_iff, Option-cases,
}
use roblox_mcp_gateway.Prelude.Table.{select, count_where, update}
use roblox_mcp_gateway.Oauth.{
  Grant, AccessToken, RefreshToken, Store, is_null, revoke_grants, revoke_family, revoke_grant,
}
use roblox_mcp_gateway.Oauth.Tokens.{
  insert_tokens, issue_with, issue_tokens, has_refresh, rotate_with, rotate_row,
  rotate_refresh_token, has_access, issued, check_access, access_token_by_digest,
  revoke_access_token, revoke_refresh_token,
}
use roblox_mcp_gateway.Oauth.Tokens.Traces.{
  Op, issue, rotate, revoke_by_grant, revoke_by_access, revoke_by_refresh, apply, run,
}

-- A grant that is not revoked.
unfoldable pub is_live : String → String → Grant → Bool
is_live id user_id g = g.id == id && g.user_id == user_id && is_null g.revoked_at

live : String → String → List Grant → ℕ
live id user_id gs = count_where (is_live id user_id) gs

revoke_grants-live_le :
    (id user_id i u : String) (now : ℕ) (gs : List Grant)
    → live id user_id (revoke_grants i u now gs) ≤ live id user_id gs
unfolding live is_live revoke_grants count_where update
revoke_grants-live_le id user_id i u now [] = omega arith
revoke_grants-live_le id user_id i u now (g ∷ gs) =
    ground (arith, revoke_grants-live_le id user_id i u now gs)

revoke_grants-live :
    (id user_id : String) (now : ℕ) (gs : List Grant)
    → live id user_id (revoke_grants id user_id now gs) ≡ 0
unfolding live is_live revoke_grants count_where update
revoke_grants-live id user_id now [] = refl
revoke_grants-live id user_id now (g ∷ gs) = ground (arith, revoke_grants-live id user_id now gs)

live-select :
    (id user_id : String) (a : AccessToken) (g : Grant) (gs : List Grant)
    → select (issued a) gs ≡ some g
    → g.revoked_at ≡ none
    → a.grant_id ≡ id
    → a.user_id ≡ user_id
    → 1 ≤ live id user_id gs
unfolding live is_live issued count_where select
live-select id user_id a g [] h r i u = ground arith
live-select id user_id a g (x ∷ gs) h r i u = ground (
  arith,
  live-select id user_id a g gs,
  eq_iff x.id a.grant_id,
  eq_iff x.user_id a.user_id,
  eq_iff x.id id,
  eq_iff x.user_id user_id,
)

-- No operation makes a revoked grant live.
apply-live :
    (id user_id : String) (s : Store) (o : Op)
    → live id user_id (apply s o).grants ≤ live id user_id s.grants
unfolding apply issue_tokens insert_tokens issue_with rotate_refresh_token rotate_row rotate_with
    revoke_family revoke_grant revoke_access_token revoke_refresh_token
apply-live id user_id s (issue a r now) = ground arith
apply-live id user_id s (rotate digest a r now) =
    elim (Option-cases (select (has_refresh digest) s.refresh_tokens)) [
      | inl e ↦ ground arith
      | inr (parent, e) ↦
          ground
            (arith, revoke_grants-live_le id user_id parent.grant_id parent.user_id now s.grants)
    ]
apply-live id user_id s (revoke_by_grant i now) =
    elim (Option-cases (select (λ g. g.id == i) s.grants)) [
      | inl e ↦ ground arith
      | inr (g, e) ↦ ground (arith, revoke_grants-live_le id user_id i g.user_id now s.grants)
    ]
apply-live id user_id s (revoke_by_access digest now) = omega arith
apply-live id user_id s (revoke_by_refresh digest now) =
    elim (Option-cases (select (has_refresh digest) s.refresh_tokens)) [
      | inl e ↦ ground arith
      | inr (r, e) ↦
          ground (arith, revoke_grants-live_le id user_id r.grant_id r.user_id now s.grants)
    ]

run-live :
    (id user_id : String) (s : Store) (ops : List Op)
    → live id user_id (run s ops).grants ≤ live id user_id s.grants
run-live id user_id s [] = omega arith
run-live id user_id s (o ∷ ops) =
    omega (arith, run-live id user_id (apply s o) ops, apply-live id user_id s o)

-- An access token is accepted only under a grant that is live.
accepted-live :
    (s : Store) (digest : String) (now : ℕ) (a : AccessToken) (g : Grant)
    → access_token_by_digest s digest now ≡ ok (a, g)
    → 1 ≤ live a.grant_id a.user_id s.grants
unfolding access_token_by_digest check_access
accepted-live s digest now a g h =
    elim (Option-cases (select (has_access digest) s.access_tokens)) [
      | inl e ↦ ground arith
      | inr (b, e) ↦ (elim (Option-cases (select (issued b) s.grants)) [
        | inl f ↦ ground arith
        | inr (k, f) ↦ ground (arith, live-select a.grant_id a.user_id b k s.grants)
      ])
    ]

-- After a rotated or revoked refresh token is presented again, with usable arguments, no access token
-- of its grant is accepted any more, whatever issues, rotations and revocations follow.
pub replay-final :
    (s : Store) (digest : String) (parent : RefreshToken) (access : AccessToken)
    (refresh : RefreshToken) (now : ℕ) (ops : List Op) (other : String) (later : ℕ)
    (a : AccessToken) (g : Grant)
    → select (has_refresh digest) s.refresh_tokens ≡ some parent
    → (is_null parent.used_at && is_null parent.revoked_at) ≡ false
    → ((access.id == "" || refresh.id == "")
        || (access.expires_at == 0 || refresh.expires_at == 0)
        || now == 0)
      ≡ false
    → access_token_by_digest (run (apply s (rotate digest access refresh now)) ops) other later
      ≡ ok (a, g)
    → ¬ ((a.grant_id ≡ parent.grant_id) × (a.user_id ≡ parent.user_id))
unfolding apply rotate_refresh_token rotate_row revoke_family
replay-final s digest parent access refresh now ops other later a g found spent valid accepted
      (i, u) =
    (let t = (rotate_refresh_token s digest access refresh now).1 in
      ground (
        arith,
        accepted-live (run t ops) other later a g accepted,
        run-live a.grant_id a.user_id t ops,
        revoke_grants-live parent.grant_id parent.user_id now s.grants,
      ))

-- After `RevokeGrant` of a stored grant at a nonzero time, no access token of that grant is accepted
-- any more, whatever issues, rotations and revocations follow.
pub revoke_grant-final :
    (s : Store) (id : String) (owner : Grant) (now : ℕ) (ops : List Op) (digest : String)
    (later : ℕ) (a : AccessToken) (g : Grant)
    → select (λ x. x.id == id) s.grants ≡ some owner
    → (id == "" || now == 0) ≡ false
    → access_token_by_digest (run (apply s (revoke_by_grant id now)) ops) digest later ≡ ok (a, g)
    → ¬ ((a.grant_id ≡ id) × (a.user_id ≡ owner.user_id))
unfolding apply revoke_grant
revoke_grant-final s id owner now ops digest later a g found valid accepted (i, u) =
    (let t = (revoke_grant s id now).1 in
      ground (
        arith,
        accepted-live (run t ops) digest later a g accepted,
        run-live a.grant_id a.user_id t ops,
        revoke_grants-live id owner.user_id now s.grants,
      ))
