-- ===== src/Session/Tests.antt =====
-- Runs of the session service, and the theorems on them.
use roblox_mcp_gateway.Prelude.{
  ◌≡◌, refl, ◌≢◌, true, List, [], ◌∷◌, none, ok, err, eq_iff, arith, if◌then◌else◌, ltb,
}
use roblox_mcp_gateway.Prelude.Table.{select, count_where, update}
use roblox_mcp_gateway.Session.{
  expired, revoked, Session, Store, has_digest, same_row, insert_row, is_active, touch, touched_by,
  validate_and_touch, mark_revoked, coalesce_revoked, of_user, rotated_by, insert_or, rotate_row,
  revoke, revoke_rows, Service, Draw, valid_config, new_session, answer, create, validate,
  rotate_from, rotate, revoke_all,
}
use roblox_mcp_gateway.Session.Revoked.{Op, rotate_token, create_for, apply, run}
use roblox_mcp_gateway.Session.Final.{rotate-final, revoke_all-final, create-validate}

abbrev service : Service
service = record { digest_of = λ s. s; has_pepper = true; lifetime = 50 }

abbrev first : Session
first = record {
  id = "i1";
  user_id = "u1";
  created_at = 1;
  last_seen_at = 1;
  expires_at = 51;
  revoked_at = none;
}

abbrev second : Session
second = record {
  id = "i2";
  user_id = "u1";
  created_at = 5;
  last_seen_at = 5;
  expires_at = 55;
  revoked_at = none;
}

abbrev stored : Store
stored = record { session = first; digest = "t1" } ∷ []

abbrev draw_two : Draw
draw_two = record { token = "t2"; id = "i2" }

-- Calls that try the old token and create another session.
abbrev later_calls : List Op
later_calls =
    rotate_token (record { token = "t3"; id = "i3" }) "t1" 6
    ∷ create_for (record { token = "t1"; id = "i4" }) "u1" 7
    ∷ []

machine : Unit {0}
unfolding has_digest same_row insert_row is_active touch touched_by validate_and_touch mark_revoked
    coalesce_revoked of_user rotated_by insert_or rotate_row revoke revoke_rows valid_config
    new_session answer create validate rotate_from rotate revoke_all apply select count_where update
machine = tt

rotates :
    ((rotate service stored draw_two "t1" 5).0 ≡ ok ("t2", second))
    × ((validate service (rotate service stored draw_two "t1" 5).1 "t1" 6).0 ≡ err revoked)
    × ((validate service (rotate service stored draw_two "t1" 5).1 "t2" 6).0
        ≡ ok (record second { last_seen_at = 6 }))
unfolding machine
rotates = (refl, refl, refl)

rotate-final_example :
    (validate service (run service (rotate service stored draw_two "t1" 5).1 later_calls) "t1" 9).0
    ≢ ok first
unfolding machine
rotate-final_example =
    rotate-final service stored draw_two "t1" 5 ("t2", second) later_calls 9 first refl

revoke_all-final_example :
    (validate service (run service (revoke_all service stored "u1" 5).1 later_calls) "t1" 9).0
    ≢ ok first
unfolding machine
revoke_all-final_example =
    revoke_all-final service stored "u1" 5 "t1" (record { session = first; digest = "t1" })
      later_calls 9 first refl refl refl

create-validate_example :
    (validate service (create service [] (record { token = "t1"; id = "i1" }) "u1" 1).1 "t1" 60).0
    ≡ (if ltb 60 51 then ok (record first { last_seen_at = 60 }) else err expired)
unfolding machine
create-validate_example =
    create-validate service [] (record { token = "t1"; id = "i1" }) "u1" 1 ("t1", first) 60 refl
      (λ e. ground (arith, eq_iff "t1" ""))
