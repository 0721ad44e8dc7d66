-- ===== src/Session/Final.antt =====
-- What a session token is good for after it is issued, rotated or revoked (internal/session/service.go).
use roblox_mcp_gateway.Prelude.{
  ℕ, ◌+◌, String, ◌≡◌, refl, ◌≢◌, inl, inr, true, List, none, some, ok, err, nat_comparable,
  string_comparable, if◌then◌else◌, ltb, arith, eq_iff, Option-cases, eq_self,
}
use roblox_mcp_gateway.Prelude.Table.{select, update, select-update, select_holds}
use roblox_mcp_gateway.Session.{
  expired, Session, Row, Store, Outcome, has_digest, insert_row, is_active, touch, touched_by,
  validate_and_touch, mark_revoked, coalesce_revoked, of_user, rotated_by, insert_or, rotate_row,
  revoke_rows, Service, Draw, new_session, answer, create, validate, rotate_from, rotate,
  revoke_all,
}
use roblox_mcp_gateway.Session.Revoked.{Op, run, dead, dead-insert, run-dead, dead-invalid}

-- A validation that succeeds found an active row, which it leaves in place.
touched-active :
    (s : Store) (d : String) (now : ℕ) (x : Session)
    → (validate_and_touch s d now).0 ≡ ok x
    → (row : Row) × (select (has_digest d) (validate_and_touch s d now).1 ≡ some row)
      × (is_active now row ≡ true)
unfolding validate_and_touch touch touched_by is_active has_digest
touched-active s d now x e = elim (Option-cases (select (has_digest d) s)) [
  | inl m ↦ ground arith
  | inr (row, m) ↦ (
    touch now row,
    ground (
      arith,
      select-update (has_digest d) (touched_by row.session.id now) (touch now) s (λ r. refl),
      eq_self row.session.id,
    ),
    ground arith,
  )
]

marked-dead :
    (s : Store) (d : String) (row : Row) (now : ℕ)
    → select (has_digest d) s ≡ some row
    → is_active now row ≡ true
    → dead d (update (rotated_by d now) (mark_revoked now) s) ≡ true
unfolding dead rotated_by mark_revoked
marked-dead s d row now e a = ground (
  arith,
  select-update (has_digest d) (rotated_by d now) (mark_revoked now) s (λ r. refl),
  select_holds (has_digest d) s row e,
)

-- An active row is marked by a rotation that succeeds.
rotate_row-dead :
    (s : Store) (d : String) (row : Row) (next : Session) (digest : String) (now : ℕ)
    → select (has_digest d) s ≡ some row
    → is_active now row ≡ true
    → (rotate_row s d next digest now).0 ≡ ok tt
    → dead d (rotate_row s d next digest now).1 ≡ true
unfolding rotate_row insert_or
rotate_row-dead s d row next digest now e a h =
    (let m = update (rotated_by d now) (mark_revoked now) s in
      let n = record next { revoked_at = none } in
      elim (Option-cases (insert_row m n digest)) [
        | inl f ↦ ground arith
        | inr (t, f) ↦ ground (arith, dead-insert d m t n digest f (marked-dead s d row now e a))
      ])

rotate_from-dead :
    (v : Service) (draw : Draw) (plain : String) (now : ℕ) (o : Outcome Session)
    (p : String × Session)
    → ((x : Session)
        → o.0 ≡ ok x
        → (row : Row) × (select (has_digest (v.digest_of plain)) o.1 ≡ some row)
          × (is_active now row ≡ true))
    → (rotate_from v draw plain now o).0 ≡ ok p
    → dead (v.digest_of plain) (rotate_from v draw plain now o).1 ≡ true
unfolding rotate_from answer
rotate_from-dead v draw plain now (err e, t) p active h = ground arith
rotate_from-dead v draw plain now (ok old, t) p active h =
    (let (row, at, live) = active old refl in
      let next = new_session v draw old.user_id now in
      ground (
        arith,
        rotate_row-dead t (v.digest_of plain) row next (v.digest_of draw.token) now at live,
      ))

-- After a token was rotated, it is never valid again, whatever sequence of session calls follows.
pub rotate-final :
    (v : Service) (s : Store) (draw : Draw) (plain : String) (now : ℕ) (p : String × Session)
    (ops : List Op) (later : ℕ) (x : Session)
    → (rotate v s draw plain now).0 ≡ ok p
    → (validate v (run v (rotate v s draw plain now).1 ops) plain later).0 ≢ ok x
unfolding rotate
rotate-final v s draw plain now p ops later x h =
    (let t = (rotate v s draw plain now).1 in
      dead-invalid v (run v t ops) plain later x (
        run-dead v (v.digest_of plain) t ops (
          ground (
            arith,
            rotate_from-dead v draw plain now (validate_and_touch s (v.digest_of plain) now) p
                (touched-active s (v.digest_of plain) now),
          ))))

-- After all sessions of a user were revoked, no token that was issued to the user before is valid
-- again, whatever sequence of session calls follows.
pub revoke_all-final :
    (v : Service) (s : Store) (user_id : String) (now : ℕ) (plain : String) (row : Row)
    (ops : List Op) (later : ℕ) (x : Session)
    → (revoke_all v s user_id now).0 ≡ ok tt
    → select (has_digest (v.digest_of plain)) s ≡ some row
    → row.session.user_id ≡ user_id
    → (validate v (run v (revoke_all v s user_id now).1 ops) plain later).0 ≢ ok x
unfolding revoke_all revoke_rows of_user coalesce_revoked dead
revoke_all-final v s user_id now plain row ops later x h e u =
    (let t = (revoke_all v s user_id now).1 in
      dead-invalid v (run v t ops) plain later x (
        run-dead v (v.digest_of plain) t ops (
          ground (
            arith,
            select-update (has_digest (v.digest_of plain)) (of_user user_id) (coalesce_revoked now)
                s (λ r. refl),
            eq_iff row.session.user_id user_id,
          ))))

-- A new token validates as its user's session until the session's lifetime has passed, and not from then on.
pub create-validate :
    (v : Service) (s : Store) (draw : Draw) (user_id : String) (now : ℕ) (p : String × Session)
    (later : ℕ)
    → (create v s draw user_id now).0 ≡ ok p
    → p.0 ≢ ""
    → (validate v (create v s draw user_id now).1 p.0 later).0 ≡ (
        if ltb later (now + v.lifetime)
        then ok (record p.1 { last_seen_at = later })
        else err expired)
unfolding create validate validate_and_touch insert_or insert_row answer new_session has_digest
    select
create-validate v s draw user_id now p later h n =
    ground (arith, eq_self (v.digest_of draw.token), eq_iff p.0 "")
