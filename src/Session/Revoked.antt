-- ===== src/Session/Revoked.antt =====
-- Revocation of browser sessions is final (internal/session/service.go, internal/mysqlstore/session_store.go).
use roblox_mcp_gateway.Prelude.{
  ℕ, ◌≤◌, String, ◌≡◌, refl, ◌≢◌, inl, inr, Bool, true, false, not, List, [], ◌∷◌, none, some, ok,
  err, nat_comparable, string_comparable, arith, eq_iff, Option-cases,
}
use roblox_mcp_gateway.Prelude.Table.{select, count_where, update}
use roblox_mcp_gateway.Session.{
  Session, Row, Store, Outcome, is_null, has_digest, same_row, insert_row, touch, touched_by,
  validate_and_touch, mark_revoked, coalesce_revoked, of_user, rotated_by, insert_or, rotate_row,
  revoke, revoke_rows, Service, Draw, new_session, answer, create, validate, rotate_from, rotate,
  revoke_all,
}

-- A call of the service or, for `revoke_id`, of the store, with what it draws and its time.
pub data Op : Type 0 where
  create_for : Draw → String → ℕ → Op
  validate_token : String → ℕ → Op
  rotate_token : Draw → String → ℕ → Op
  revoke_id : String → ℕ → Op
  revoke_user : String → ℕ → Op

unfoldable pub apply : Service → Store → Op → Store
apply v s (create_for draw user_id now) = (create v s draw user_id now).1
apply v s (validate_token plain now) = (validate v s plain now).1
apply v s (rotate_token draw plain now) = (rotate v s draw plain now).1
apply v s (revoke_id id now) = revoke s id now
apply v s (revoke_user user_id now) = (revoke_all v s user_id now).1

abbrev pub run : Service → Store → List Op → Store
run v s [] = s
run v s (o ∷ ops) = run v (apply v s o) ops

-- The row of a digest is there and revoked.
unfoldable pub dead : String → Store → Bool
unfolding has_digest
dead d s = elim (select (has_digest d) s) [
  | none ↦ false
  | some row ↦ not (is_null row.session.revoked_at)
]

dead-update :
    (d : String) (q : Row → Bool) (f : Row → Row) (s : Store)
    → ((r : Row) → (f r).digest ≡ r.digest)
    → ((r : Row) → is_null r.session.revoked_at ≡ false → is_null (f r).session.revoked_at ≡ false)
    → dead d s ≡ true
    → dead d (update q f s) ≡ true
unfolding dead has_digest select update
dead-update d q f [] same keeps h = h
dead-update d q f (r ∷ s) same keeps h =
    ground (arith, dead-update d q f s same keeps, same r, keeps r)

dead-clash :
    (d : String) (x : Row) (s : Store)
    → dead d s ≡ true
    → x.digest ≡ d
    → 1 ≤ count_where (same_row x) s
unfolding dead has_digest select count_where same_row
dead-clash d x [] h e = ground arith
dead-clash d x (r ∷ s) h e =
    ground (arith, dead-clash d x s, eq_iff r.digest d, eq_iff r.digest x.digest)

pub dead-insert :
    (d : String) (s t : Store) (session : Session) (digest : String)
    → insert_row s session digest ≡ some t
    → dead d s ≡ true
    → dead d t ≡ true
unfolding insert_row dead has_digest select
dead-insert d s t session digest e h =
    ground
      (arith, dead-clash d (record { session = session; digest = digest }) s h, eq_iff digest d)

dead-insert_or :
    (d : String) (s : Store) (session : Session) (digest : String)
    → dead d s ≡ true
    → dead d (insert_or s (insert_row s session digest)).1 ≡ true
unfolding insert_or
dead-insert_or d s session digest h = elim (Option-cases (insert_row s session digest)) [
  | inl e ↦ ground arith
  | inr (t, e) ↦ ground (arith, dead-insert d s t session digest e h)
]

dead-validate :
    (d : String) (s : Store) (digest : String) (now : ℕ)
    → dead d s ≡ true
    → dead d (validate_and_touch s digest now).1 ≡ true
unfolding validate_and_touch touch
dead-validate d s digest now h = elim (Option-cases (select (has_digest digest) s)) [
  | inl e ↦ ground arith
  | inr (row, e) ↦
      ground (
        arith,
        dead-update d (touched_by row.session.id now) (touch now) s (λ r. refl) (λ r u. u) h,
      )
]

pub dead-mark :
    (d : String) (q : Row → Bool) (now : ℕ) (s : Store)
    → dead d s ≡ true
    → dead d (update q (mark_revoked now) s) ≡ true
unfolding mark_revoked
dead-mark d q now s h = dead-update d q (mark_revoked now) s (λ r. refl) (λ r u. refl) h

dead-coalesce :
    (d : String) (q : Row → Bool) (now : ℕ) (s : Store)
    → dead d s ≡ true
    → dead d (update q (coalesce_revoked now) s) ≡ true
unfolding coalesce_revoked
dead-coalesce d q now s h =
    dead-update d q (coalesce_revoked now) s (λ r. refl) (λ r u. ground arith) h

dead-rotate_row :
    (d : String) (s : Store) (old : String) (next : Session) (digest : String) (now : ℕ)
    → dead d s ≡ true
    → dead d (rotate_row s old next digest now).1 ≡ true
unfolding rotate_row insert_or
dead-rotate_row d s old next digest now h =
    (let m = update (rotated_by old now) (mark_revoked now) s in
      let n = record next { revoked_at = none } in
      elim (Option-cases (insert_row m n digest)) [
        | inl e ↦ ground arith
        | inr (t, e) ↦
            ground (arith, dead-insert d m t n digest e, dead-mark d (rotated_by old now) now s h)
      ])

dead-rotate_from :
    (v : Service) (d : String) (draw : Draw) (plain : String) (now : ℕ) (o : Outcome Session)
    → dead d o.1 ≡ true
    → dead d (rotate_from v draw plain now o).1 ≡ true
unfolding rotate_from answer
dead-rotate_from v d draw plain now (err e, t) h = h
dead-rotate_from v d draw plain now (ok old, t) h = ground (
  arith,
  dead-rotate_row d t (v.digest_of plain) (new_session v draw old.user_id now)
      (v.digest_of draw.token) now h,
)

-- No call revives a revoked session.
apply-dead :
    (v : Service) (d : String) (s : Store) (o : Op) → dead d s ≡ true → dead d (apply v s o) ≡ true
unfolding apply create answer validate rotate revoke revoke_all revoke_rows
apply-dead v d s (create_for draw user_id now) h =
    ground (arith, dead-insert_or d s (new_session v draw user_id now) (v.digest_of draw.token) h)
apply-dead v d s (validate_token plain now) h =
    ground (arith, dead-validate d s (v.digest_of plain) now h)
apply-dead v d s (rotate_token draw plain now) h = ground (
  arith,
  dead-rotate_from v d draw plain now (validate_and_touch s (v.digest_of plain) now),
  dead-validate d s (v.digest_of plain) now h,
)
apply-dead v d s (revoke_id id now) h = dead-coalesce d _ now s h
apply-dead v d s (revoke_user user_id now) h =
    ground (arith, dead-coalesce d (of_user user_id) now s h)

pub run-dead :
    (v : Service) (d : String) (s : Store) (ops : List Op)
    → dead d s ≡ true
    → dead d (run v s ops) ≡ true
run-dead v d s [] h = h
run-dead v d s (o ∷ ops) h = run-dead v d (apply v s o) ops (apply-dead v d s o h)

pub dead-invalid :
    (v : Service) (s : Store) (plain : String) (now : ℕ) (x : Session)
    → dead (v.digest_of plain) s ≡ true
    → (validate v s plain now).0 ≢ ok x
unfolding dead validate validate_and_touch
dead-invalid v s plain now x h e = elim (Option-cases (select (has_digest (v.digest_of plain)) s)) [
  | inl m ↦ ground arith
  | inr (row, m) ↦ ground arith
]
