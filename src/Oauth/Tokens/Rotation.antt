-- ===== src/Oauth/Tokens/Rotation.antt =====
-- A refresh token of internal/mysqlstore/oauth_store.go is exchanged at most once.
use roblox_mcp_gateway.Prelude.{
  ℕ, ◌≤◌, String, ◌≡◌, refl, inl, inr, Bool, true, false, not, ◌&&◌, List, [], ◌∷◌, Option, none,
  some, ok, err, ◌==◌, nat_comparable, string_comparable, if◌then◌else◌, arith, eq_iff,
  Option-cases, Bool-cases, eq_self,
}
use roblox_mcp_gateway.Prelude.Table.{select, count_where, update, select-update}
use roblox_mcp_gateway.Oauth.{
  AccessToken, RefreshToken, Store, Outcome, is_null, coalesce, or_now, revoke_family, revoke_grant,
}
use roblox_mcp_gateway.Oauth.Tokens.{
  same_refresh, insert_tokens, issue_with, issue_tokens, has_refresh, is_unused, mark_used,
  child_access, child_refresh, rotate_with, rotate_row, rotate_refresh_token, revoke_access_token,
  revoke_refresh_token,
}
use roblox_mcp_gateway.Oauth.Tokens.Traces.{
  Op, issue, rotate, revoke_by_grant, revoke_by_access, revoke_by_refresh, apply, exchanges,
  exchanged,
}

-- The refresh token that a digest finds, and whether it is stored and used.
refresh_of : String → List RefreshToken → Option RefreshToken
refresh_of d rs = select (has_refresh d) rs

spent : String → List RefreshToken → Bool
unfolding refresh_of
spent d rs = elim (refresh_of d rs) [ none ↦ false | some r ↦ not (is_null r.used_at) ]

-- An UPDATE that keeps digests and uses keeps a spent token spent.
spent-update :
    (d : String) (q : RefreshToken → Bool) (f : RefreshToken → RefreshToken)
    (rs : List RefreshToken)
    → ((r : RefreshToken) → (f r).digest ≡ r.digest)
    → ((r : RefreshToken) → is_null r.used_at ≡ false → is_null (f r).used_at ≡ false)
    → spent d rs ≡ true
    → spent d (update q f rs) ≡ true
unfolding spent refresh_of has_refresh select update
spent-update d q f [] same uses h = h
spent-update d q f (r ∷ rs) same uses h =
    ground (arith, spent-update d q f rs same uses, same r, uses r)

-- A row that an INSERT admits has another digest than the rows that are there.
spent-clash :
    (d : String) (x : RefreshToken) (rs : List RefreshToken)
    → spent d rs ≡ true
    → x.digest ≡ d
    → 1 ≤ count_where (same_refresh x) rs
unfolding spent refresh_of has_refresh select count_where same_refresh
spent-clash d x [] h e = ground arith
spent-clash d x (r ∷ rs) h e =
    ground (arith, spent-clash d x rs, eq_iff r.digest d, eq_iff r.digest x.digest)

spent-insert :
    (d : String) (s t : Store) (a : AccessToken) (r : RefreshToken)
    → insert_tokens s a r ≡ some t
    → spent d s.refresh_tokens ≡ true
    → spent d t.refresh_tokens ≡ true
unfolding insert_tokens spent refresh_of has_refresh select
spent-insert d s t a r e h = ground (arith, spent-clash d r s.refresh_tokens, eq_iff r.digest d)

spent-revoke :
    (d : String) (s : Store) (family_id grant_id user_id : String) (now : ℕ)
    → spent d s.refresh_tokens ≡ true
    → spent d (revoke_family s family_id grant_id user_id now).refresh_tokens ≡ true
unfolding revoke_family
spent-revoke d s family_id grant_id user_id now h =
    spent-update d _ _ s.refresh_tokens (λ r. refl) (λ r u. u) h

spent-issue :
    (d : String) (s : Store) (a : AccessToken) (r : RefreshToken)
    → spent d s.refresh_tokens ≡ true
    → spent d (issue_with s (insert_tokens s a r)).1.refresh_tokens ≡ true
unfolding issue_with
spent-issue d s a r h = elim (Option-cases (insert_tokens s a r)) [
  | inl e ↦ ground arith
  | inr (t, e) ↦ ground (arith, spent-insert d s t a r e h)
]

-- The store that the replacement tokens are inserted into.
marked : Store → RefreshToken → ℕ → Store
marked s parent now = record s {
  refresh_tokens = update (is_unused parent) (mark_used now) s.refresh_tokens;
}

spent-marked :
    (d : String) (s : Store) (parent : RefreshToken) (now : ℕ)
    → spent d s.refresh_tokens ≡ true
    → spent d (marked s parent now).refresh_tokens ≡ true
unfolding marked mark_used
spent-marked d s parent now h =
    spent-update d (is_unused parent) (mark_used now) s.refresh_tokens (λ r. refl) (λ r u. refl) h

-- The presented token is spent by the UPDATE.
marked-spent :
    (d : String) (s : Store) (parent : RefreshToken) (now : ℕ)
    → select (has_refresh d) s.refresh_tokens ≡ some parent
    → spent d (marked s parent now).refresh_tokens ≡ true
unfolding marked spent refresh_of mark_used is_unused has_refresh
marked-spent d s parent now e = ground (
  arith,
  select-update (has_refresh d) (is_unused parent) (mark_used now) s.refresh_tokens (λ r. refl),
  eq_self parent.id,
  eq_self parent.user_id,
)

spent-rotate_row :
    (d : String) (s : Store) (parent : RefreshToken) (a : AccessToken) (r : RefreshToken) (now : ℕ)
    → spent d s.refresh_tokens ≡ true
    → spent d (rotate_row s parent a r now).1.refresh_tokens ≡ true
unfolding rotate_row rotate_with marked
spent-rotate_row d s parent a r now h =
    (let m = marked s parent now in
      let x = child_access parent a now in
      let y = child_refresh parent r now in
      elim (Option-cases (insert_tokens m x y)) [
        | inl e ↦
            ground (arith, spent-revoke d s parent.family_id parent.grant_id parent.user_id now h)
        | inr (t, e) ↦ ground (
          arith,
          spent-revoke d s parent.family_id parent.grant_id parent.user_id now h,
          spent-insert d m t x y e,
          spent-marked d s parent now h,
        )
      ])

-- Whether a rotation succeeded.
abbrev succeeds : Outcome (AccessToken × RefreshToken) → Bool
succeeds (ok pair, t) = true
succeeds (err e, t) = false

rotate_row-succeeds :
    (s : Store) (parent : RefreshToken) (a : AccessToken) (r : RefreshToken) (now : ℕ)
    → succeeds (rotate_row s parent a r now) ≡ true
    → is_null parent.used_at ≡ true
unfolding rotate_row
rotate_row-succeeds s parent a r now h = ground arith

-- A rotation that succeeds leaves the presented token spent.
rotate_row-spends :
    (d : String) (s : Store) (parent : RefreshToken) (a : AccessToken) (r : RefreshToken) (now : ℕ)
    → select (has_refresh d) s.refresh_tokens ≡ some parent
    → succeeds (rotate_row s parent a r now) ≡ true
    → spent d (rotate_row s parent a r now).1.refresh_tokens ≡ true
unfolding rotate_row rotate_with marked
rotate_row-spends d s parent a r now f h =
    (let m = marked s parent now in
      let x = child_access parent a now in
      let y = child_refresh parent r now in
      elim (Option-cases (insert_tokens m x y)) [
        | inl e ↦ ground arith
        | inr (t, e) ↦ ground (arith, spent-insert d m t x y e, marked-spent d s parent now f)
      ])

spent-is_null :
    (d : String) (s : Store) (parent : RefreshToken)
    → spent d s.refresh_tokens ≡ true
    → select (has_refresh d) s.refresh_tokens ≡ some parent
    → is_null parent.used_at ≡ false
unfolding spent refresh_of
spent-is_null d s parent h f = ground arith

apply-spent :
    (d : String) (s : Store) (o : Op)
    → spent d s.refresh_tokens ≡ true
    → (spent d (apply s o).refresh_tokens ≡ true) × (exchanges d s o ≡ false)
unfolding apply exchanges issue_tokens rotate_refresh_token revoke_grant revoke_access_token
    revoke_refresh_token
apply-spent d s (issue a r now) h = ground (
  arith,
  spent-issue d s (record a { created_at = or_now a.created_at now })
      (record r {
        family_id = if r.family_id == "" then r.id else r.family_id;
        created_at = or_now r.created_at now;
      })
      h,
)
apply-spent d s (rotate digest a r now) h =
    elim (Option-cases (select (has_refresh digest) s.refresh_tokens)) [
      | inl e ↦ ground arith
      | inr (parent, e) ↦ ground (
        arith,
        spent-rotate_row d s parent a r now h,
        rotate_row-succeeds s parent a r now,
        spent-is_null d s parent h,
        eq_iff digest d,
      )
    ]
apply-spent d s (revoke_by_grant i now) h = elim (Option-cases (select (λ g. g.id == i) s.grants)) [
  | inl e ↦ ground arith
  | inr (g, e) ↦ ground (
    arith,
    spent-update d (λ r. r.grant_id == i && r.user_id == g.user_id)
        (λ r. record r { revoked_at = coalesce r.revoked_at now }) s.refresh_tokens (λ r. refl)
        (λ r u. u) h,
  )
]
apply-spent d s (revoke_by_access digest now) h = (h, refl)
apply-spent d s (revoke_by_refresh digest now) h =
    elim (Option-cases (select (has_refresh digest) s.refresh_tokens)) [
      | inl e ↦ ground arith
      | inr (r, e) ↦ ground (arith, spent-revoke d s r.family_id r.grant_id r.user_id now h)
    ]

exchange-spent :
    (d : String) (s : Store) (o : Op)
    → exchanges d s o ≡ true
    → spent d (apply s o).refresh_tokens ≡ true
unfolding apply exchanges rotate_refresh_token
exchange-spent d s (issue a r now) h = cc
exchange-spent d s (rotate digest a r now) h =
    elim (Option-cases (select (has_refresh digest) s.refresh_tokens)) [
      | inl e ↦ ground arith
      | inr (parent, e) ↦ ground (arith, rotate_row-spends d s parent a r now, eq_iff digest d)
    ]
exchange-spent d s (revoke_by_grant i now) h = cc
exchange-spent d s (revoke_by_access digest now) h = cc
exchange-spent d s (revoke_by_refresh digest now) h = cc

spent-exchanged :
    (d : String) (s : Store) (ops : List Op)
    → spent d s.refresh_tokens ≡ true
    → exchanged d s ops ≡ 0
spent-exchanged d s [] h = refl
spent-exchanged d s (o ∷ ops) h =
    ground (arith, apply-spent d s o h, spent-exchanged d (apply s o) ops (apply-spent d s o h).0)

-- Over any sequence of token operations, a refresh token is exchanged at most once.
pub exchanged_once : (d : String) (s : Store) (ops : List Op) → exchanged d s ops ≤ 1
exchanged_once d s [] = omega arith
exchanged_once d s (o ∷ ops) = elim (Bool-cases (exchanges d s o)) [
  | inl e ↦ ground (arith, spent-exchanged d (apply s o) ops (exchange-spent d s o e))
  | inr e ↦ ground (arith, exchanged_once d (apply s o) ops)
]
