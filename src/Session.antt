-- ===== src/Session.antt =====
-- Browser sessions: internal/session/service.go over internal/mysqlstore/session_store.go. The table
-- web_sessions is a list of rows whose id and token digest are unique. A token's digest is a function
-- of the token, and the tokens and ids that the service draws at random are arguments. A time is a
-- number of nanoseconds since the zero time. A nil context and a store that is not there are left out.
pub mod Revoked
pub mod Final
mod Tests
use roblox_mcp_gateway.Prelude.{
  ℕ, ◌+◌, String, Bool, true, false, not, ◌&&◌, ◌||◌, List, [], ◌∷◌, Option, none, some, Except, ok,
  err, ◌==◌, nat_comparable, string_comparable, if◌then◌else◌, ltb,
}
use roblox_mcp_gateway.Prelude.Table.{select, count_where, update}

pub data Error : Type 0 where
  not_found expired revoked invalid : Error
  bad_config empty_user_id constraint_violation : Error

pub record Session : Type 0 where
  pub id : String
  pub user_id : String
  pub created_at : ℕ
  pub last_seen_at : ℕ
  pub expires_at : ℕ
  pub revoked_at : Option ℕ

-- A row of web_sessions: the session and the digest of its token.
pub record Row : Type 0 where
  pub session : Session
  pub digest : String

abbrev pub Store : Type 0
Store = List Row

abbrev pub Outcome : Type 0 → Type 0
Outcome A = Except Error A × Store

abbrev pub is_null : Option ℕ → Bool
is_null none = true
is_null (some t) = false

unfoldable pub has_digest : String → Row → Bool
has_digest digest row = row.digest == digest

-- The INSERT: `none` when the id or the digest is taken.
unfoldable pub same_row : Row → Row → Bool
same_row new row = row.session.id == new.session.id || row.digest == new.digest

unfoldable pub insert_row : Store → Session → String → Option Store
unfolding same_row
insert_row s session digest =
    (let row : Row = record { session = session; digest = digest } in
      if count_where (same_row row) s == 0 then some (row ∷ s) else none)

-- `revoked_at IS NULL AND expires_at > now`
unfoldable pub is_active : ℕ → Row → Bool
is_active now row = is_null row.session.revoked_at && ltb now row.session.expires_at

unfoldable pub touch : ℕ → Row → Row
touch now row = record row { session = record row.session { last_seen_at = now } }

unfoldable pub touched_by : String → ℕ → Row → Bool
unfolding is_active
touched_by id now row = row.session.id == id && is_active now row

unfoldable pub validate_and_touch : Store → String → ℕ → Outcome Session
unfolding has_digest touch touched_by
validate_and_touch s digest now = elim (select (has_digest digest) s) [
  | none ↦ (err not_found, s)
  | some row ↦
      (if not (is_null row.session.revoked_at)
        then (err revoked, s)
        else if not (ltb now row.session.expires_at)
        then (err expired, s)
        else (
          ok (record row.session { last_seen_at = now }),
          update (touched_by row.session.id now) (touch now) s,
        ))
]

unfoldable pub mark_revoked : ℕ → Row → Row
mark_revoked now row = record row { session = record row.session { revoked_at = some now } }

unfoldable pub rotated_by : String → ℕ → Row → Bool
unfolding is_active has_digest
rotated_by digest now row = has_digest digest row && is_active now row

unfoldable pub insert_or : Store → Option Store → Outcome (Unit {0})
insert_or s none = (err constraint_violation, s)
insert_or s (some t) = (ok tt, t)

-- `SessionStore.Rotate`
unfoldable pub rotate_row : Store → String → Session → String → ℕ → Outcome (Unit {0})
unfolding rotated_by mark_revoked insert_row insert_or
rotate_row s old_digest next next_digest now =
    if not (count_where (rotated_by old_digest now) s == 1)
    then (err revoked, s)
    else insert_or s (
        insert_row (update (rotated_by old_digest now) (mark_revoked now) s)
          (record next { revoked_at = none }) next_digest)

-- `COALESCE(revoked_at, now)`
unfoldable pub coalesce_revoked : ℕ → Row → Row
coalesce_revoked now row = record row {
  session = record row.session {
    revoked_at = elim row.session.revoked_at [ none ↦ some now | some t ↦ some t ];
  };
}

-- `SessionStore.Revoke` and `SessionStore.RevokeAll`
unfoldable pub revoke : Store → String → ℕ → Store
revoke s id now = update (λ row. row.session.id == id) (coalesce_revoked now) s

unfoldable pub of_user : String → Row → Bool
of_user user_id row = row.session.user_id == user_id && is_null row.session.revoked_at

unfoldable pub revoke_rows : Store → String → ℕ → Store
revoke_rows s user_id now = update (of_user user_id) (coalesce_revoked now) s

-- The service's settings, and what it draws at random for a session.
pub record Service : Type 0 where
  pub digest_of : String → String
  pub has_pepper : Bool
  pub lifetime : ℕ

pub record Draw : Type 0 where
  pub token : String
  pub id : String

unfoldable pub valid_config : Service → Bool
valid_config v = v.has_pepper && ltb 0 v.lifetime

unfoldable pub new_session : Service → Draw → String → ℕ → Session
new_session v draw user_id now = record {
  id = draw.id;
  user_id = user_id;
  created_at = now;
  last_seen_at = now;
  expires_at = now + v.lifetime;
  revoked_at = none;
}

unfoldable pub answer : {A : Type 0} → A → Outcome (Unit {0}) → Outcome A
answer a (ok u, t) = (ok a, t)
answer a (err e, t) = (err e, t)

unfoldable pub create : Service → Store → Draw → String → ℕ → Outcome (String × Session)
unfolding valid_config new_session answer
create v s draw user_id now =
    if not (valid_config v)
    then (err bad_config, s)
    else if user_id == ""
    then (err empty_user_id, s)
    else (let next = new_session v draw user_id now in
        answer (draw.token, next) (insert_or s (insert_row s next (v.digest_of draw.token))))

unfoldable pub validate : Service → Store → String → ℕ → Outcome Session
unfolding valid_config
validate v s plain now =
    if not (valid_config v)
    then (err bad_config, s)
    else if plain == ""
    then (err invalid, s)
    else validate_and_touch s (v.digest_of plain) now

-- The second half of `Rotate`, on the session that the first half found.
unfoldable pub rotate_from :
    Service → Draw → String → ℕ → Outcome Session → Outcome (String × Session)
unfolding new_session answer
rotate_from v draw plain now (err e, t) = (err e, t)
rotate_from v draw plain now (ok old, t) =
    (let next = new_session v draw old.user_id now in
      answer (draw.token, next)
        (rotate_row t (v.digest_of plain) next (v.digest_of draw.token) now))

unfoldable pub rotate : Service → Store → Draw → String → ℕ → Outcome (String × Session)
unfolding valid_config rotate_from
rotate v s draw plain now =
    if not (valid_config v)
    then (err bad_config, s)
    else if plain == ""
    then (err invalid, s)
    else rotate_from v draw plain now (validate_and_touch s (v.digest_of plain) now)

unfoldable pub revoke_all : Service → Store → String → ℕ → Outcome (Unit {0})
unfolding valid_config
revoke_all v s user_id now =
    if not (valid_config v)
    then (err bad_config, s)
    else if user_id == ""
    then (err empty_user_id, s)
    else (ok tt, revoke_rows s user_id now)
