-- ===== src/Oauth/Grants/Approved.antt =====
-- `SaveGrant` of internal/mysqlstore/oauth_store.go as an update of a partial map: the grants by user,
-- client and device, whatever the order and the ids of the rows.
use roblox_mcp_gateway.Prelude.{
  ℕ, String, ◌≡◌, refl, inl, inr, Bool, true, ◌&&◌, List, ◌∷◌, Option, none, some, ok, ◌==◌,
  string_comparable, nat_comparable, if◌then◌else◌, arith, eq_iff, eq_self, Option-cases,
}
use roblox_mcp_gateway.Prelude.Table.{select, update, select_holds, select-update}
use roblox_mcp_gateway.Oauth.{Grant, Store, or_now}
use roblox_mcp_gateway.Oauth.Validate.{Url}
use roblox_mcp_gateway.Oauth.Grants.{
  is_for, has_grant_id, select_grant, renewed, new_grant, upsert_grant, validate_grant,
  select_saved, save_grant,
}

-- What an approval makes of the grant that the map has for its key.
abbrev pub approved : Option Grant → Grant → ℕ → Grant
approved none grant now = record grant {
  revoked_at = none;
  created_at = or_now grant.created_at now;
}
approved (some old) grant now = record old {
  scopes = grant.scopes;
  resource = grant.resource;
  studio_session_id = grant.studio_session_id;
  revoked_at = none;
}

eq_comm : (a b : String) → (a == b) ≡ (b == a)
eq_comm a b = ground (arith, eq_iff a b, eq_iff b a)

-- The grant's key is this one.
abbrev pub is_key : Grant → String → String → String → Bool
is_key grant user_id client_id device_id =
    grant.user_id == user_id && grant.client_id == client_id && grant.device_id == device_id

module _ (grant : Grant) (now : ℕ) (user_id client_id device_id : String) where
  -- A row that the map finds under a key is under the grant's key just when the keys are the same.
  found-key :
      (g : Grant)
      → is_for user_id client_id device_id g ≡ true
      → is_for grant.user_id grant.client_id grant.device_id g
        ≡ is_key grant user_id client_id device_id
  unfolding is_for
  found-key g h =
      let e : (g.user_id ≡ user_id) × (g.client_id ≡ client_id) × (g.device_id ≡ device_id) =
        ground (
          arith,
          eq_iff g.user_id user_id,
          eq_iff g.client_id client_id,
          eq_iff g.device_id device_id,
        ) in
      rw
        (
          e.0,
          e.1,
          e.2,
          eq_comm grant.user_id user_id,
          eq_comm grant.client_id client_id,
          eq_comm grant.device_id device_id,
        )
        refl

  select-kept :
      (grants : List Grant)
      → select
          (is_for user_id client_id device_id)
          (update (is_for grant.user_id grant.client_id grant.device_id) (renewed grant) grants)
        ≡ (elim (select (is_for user_id client_id device_id) grants) [
          | none ↦ none
          | some old ↦ some (
              if is_for grant.user_id grant.client_id grant.device_id old
              then renewed grant old
              else old)
        ])
  unfolding is_for renewed
  select-kept grants =
      select-update (is_for user_id client_id device_id)
        (is_for grant.user_id grant.client_id grant.device_id) (renewed grant) grants (λ x. refl)

  select-renewed :
      (grants : List Grant)
      → select
          (is_for user_id client_id device_id)
          (update (is_for grant.user_id grant.client_id grant.device_id) (renewed grant) grants)
        ≡ (elim (select (is_for user_id client_id device_id) grants) [
          | none ↦ none
          | some old ↦
              some (if is_key grant user_id client_id device_id then renewed grant old else old)
        ])
  select-renewed grants = elim (Option-cases (select (is_for user_id client_id device_id) grants)) [
    | inl n ↦ ground (arith, select-kept grants)
    | inr (g, e) ↦ ground (
      arith,
      select-kept grants,
      found-key g (select_holds (is_for user_id client_id device_id) grants g e),
    )
  ]

  same-key :
      (grants : List Grant)
      → is_key grant user_id client_id device_id ≡ true
      → select (is_for user_id client_id device_id) grants
        ≡ select (is_for grant.user_id grant.client_id grant.device_id) grants
  same-key grants h =
      let e : (grant.user_id ≡ user_id)
          × (grant.client_id ≡ client_id)
          × (grant.device_id ≡ device_id) =
        ground (
          arith,
          eq_iff grant.user_id user_id,
          eq_iff grant.client_id client_id,
          eq_iff grant.device_id device_id,
        ) in
      rw (e.0, e.1, e.2) refl

  select-new :
      (grants : List Grant)
      → select (is_for user_id client_id device_id) (new_grant grant now ∷ grants) ≡ (
          if is_key grant user_id client_id device_id
          then some (new_grant grant now)
          else select (is_for user_id client_id device_id) grants)
  unfolding select is_for new_grant
  select-new grants = refl

  upsert-view :
      (grants : List Grant)
      → select (has_grant_id grant.id) grants ≡ none
      → select (is_for user_id client_id device_id) (upsert_grant grant now grants) ≡ (
          if is_key grant user_id client_id device_id
          then some (
              approved
                (select (is_for grant.user_id grant.client_id grant.device_id) grants)
                grant
                now)
          else select (is_for user_id client_id device_id) grants)
  unfolding upsert_grant renewed new_grant
  upsert-view grants unused =
      elim (Option-cases (select (is_for grant.user_id grant.client_id grant.device_id) grants)) [
        | inl n ↦ ground (arith, select-new grants)
        | inr (old, e) ↦ ground (arith, select-renewed grants, same-key grants)
      ]

-- An approval is an update of the map from user, client and device to grants: with valid arguments and
-- an unused id, it returns what it makes of the grant that the map has for its key, a new grant or the
-- old one renewed and no longer revoked; the map then has that for the key, and is the same elsewhere.
pub save_grant-approves :
    (parse : String → Option Url) (referred : Grant → Bool) (s : Store) (grant : Grant) (now : ℕ)
    → validate_grant parse grant ≡ ok tt
    → referred grant ≡ true
    → select (has_grant_id grant.id) s.grants ≡ none
    → let old = select_grant s grant.user_id grant.client_id grant.device_id in
      let (result, t) = save_grant parse referred s grant now in
      (result ≡ ok (approved old grant now))
      × ((user_id client_id device_id : String)
          → select_grant t user_id client_id device_id ≡ (
              if is_key grant user_id client_id device_id
              then some (approved old grant now)
              else select_grant s user_id client_id device_id))
unfolding save_grant select_saved select_grant
save_grant-approves parse referred s grant now valid known unused =
    let g : List Grant = upsert_grant grant now s.grants in
    let view = λ (user_id client_id device_id : String).
      upsert-view grant now user_id client_id device_id s.grants unused in
    let own : select (is_for grant.user_id grant.client_id grant.device_id) g
        ≡ some (
            approved (select (is_for grant.user_id grant.client_id grant.device_id) s.grants) grant
              now) =
      ground (
        arith,
        view grant.user_id grant.client_id grant.device_id,
        eq_self grant.user_id,
        eq_self grant.client_id,
        eq_self grant.device_id,
      ) in
    (ground arith, λ user_id client_id device_id. ground (arith, view user_id client_id device_id))
