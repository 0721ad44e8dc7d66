-- ===== src/Entitlement/Tests.antt =====
-- Runs of the entitlement transactions, and the theorems on them.
use roblox_mcp_gateway.Prelude.{
  ◌+◌, String, ◌≡◌, refl, true, List, [], ◌∷◌, Option, none, some, err, nat_comparable,
  string_comparable, ltb, arith,
}
use roblox_mcp_gateway.Prelude.Table.{select, count_where, update}
use roblox_mcp_gateway.Entitlement.{
  no_slot, trial_already_used, trial_window, FirstDeviceBinding, active, Entitlement, Store,
  ensure_user, mcp, dashboard, permits,
}
use roblox_mcp_gateway.Entitlement.Devices.{
  Draw, fingerprint_taken, claimed_elsewhere, owned, with_metadata, update_device, insert_device,
  insert_credential, live_on, revoke_credential, register_device,
}
use roblox_mcp_gateway.Entitlement.Trial.{
  reclaim, new_trial, insert_trial, has_subject, insert_trial_identity, start_trial, of_user,
  bind_with, lacks_field, bind_decoded, bind_first_device, is_licensed, trial_open, authorize,
  has_id, extended, extend_trial,
}
use roblox_mcp_gateway.Entitlement.Licenses.{
  license_has_id, of_license, on_slot, holds_slot, move_to, device_of, transfer_slot,
  transfer_device, live_credential, live_session, recover_identity, create_license, create_device,
  max_ordinal, bind_slot, bind_device_slot, revoke_binding, revoke_device,
}
use roblox_mcp_gateway.Entitlement.Invariant.{
  Op, bind_first, extend, license, slot, revoke, apply, run, IsSound, slots_of,
}
use roblox_mcp_gateway.Entitlement.Sound.{run-IsSound}
use roblox_mcp_gateway.Entitlement.Window.{IsLater, trial_of, run-IsLater, bind_first-permits}
use roblox_mcp_gateway.Entitlement.Recovery.{IsReclaimed, recover-revokes, reclaim-credential}
use roblox_mcp_gateway.Prelude.Set.{contains, add}

abbrev empty : Store
empty = record {
  users = [];
  trials = [];
  identities = [];
  devices = [];
  credentials = [];
  licenses = [];
  bindings = [];
  sessions = [];
  transfers = [];
  recoveries = [];
}

abbrev input_a : FirstDeviceBinding
input_a = record {
  user_id = "u1";
  provider = "roblox";
  provider_subject = "77";
  device_id = "d1";
  name = "";
  hostname = "host";
  platform = "windows";
  bridge_version = "";
  fingerprint_hash = "ff";
  credential_digest = "k1";
}

abbrev input_b : FirstDeviceBinding
input_b = record input_a { credential_digest = "k2" }

abbrev other_user : FirstDeviceBinding
other_user = record input_a {
  user_id = "u2";
  device_id = "d2";
  fingerprint_hash = "";
  credential_digest = "k3";
}

abbrev draw_a : Draw
draw_a = record { trial_id = "t1"; trial_identity_id = "i1"; credential_id = "c1" }

abbrev draw_b : Draw
draw_b = record { trial_id = "t2"; trial_identity_id = "i2"; credential_id = "c2" }

abbrev decode : String → Option String
decode s = some s

abbrev bound : Store
bound = (bind_first_device decode empty input_a draw_a 1000).1

abbrev trial_a : Entitlement
trial_a = record {
  id = "t1";
  user_id = "u1";
  started_at = 1000;
  ends_at = 1000 + trial_window;
  extension_reason = none;
  extended_by = none;
}

abbrev history : List Op
history =
    bind_first input_a draw_a 1000
    ∷ bind_first input_b draw_b 2000
    ∷ bind_first other_user draw_b 2000
    ∷ license "u1" "" 1 "l1"
    ∷ slot "l1" "d1" "b1"
    ∷ extend "admin" "t1" (2000 + trial_window) "support"
    ∷ revoke "d1"
    ∷ []

machine : Unit {0}
unfolding permits fingerprint_taken claimed_elsewhere owned with_metadata update_device
    insert_device insert_credential live_on revoke_credential reclaim new_trial insert_trial
    has_subject insert_trial_identity register_device start_trial of_user bind_with lacks_field
    bind_decoded bind_first_device is_licensed trial_open authorize has_id extended extend_trial
    license_has_id of_license on_slot holds_slot move_to device_of transfer_slot transfer_device
    live_credential live_session recover_identity create_license create_device max_ordinal bind_slot
    bind_device_slot revoke_binding revoke_device ensure_user apply slots_of contains add select
    count_where update
machine = tt

-- The second user of the same subject gets no trial; the second slot of a license with one is refused.
refusals :
    ((bind_first_device decode bound other_user draw_b 2000).0 ≡ err trial_already_used)
    × ((bind_device_slot (run decode empty history) "l1" "d1" "b2").0 ≡ err no_slot)
unfolding machine
refusals = (refl, refl)

IsSound-empty : IsSound empty
unfolding machine
IsSound-empty = record {
  one_trial = λ u. omega arith;
  one_id = λ i. omega arith;
  one_subject = λ p x. omega arith;
  within_slots = λ i. omega arith;
}

run-IsSound_example : IsSound (run decode empty history)
run-IsSound_example = run-IsSound decode empty history IsSound-empty

run-IsLater_example : IsLater trial_a (trial_of "u1" (run decode bound history))
unfolding machine
run-IsLater_example =
    run-IsLater decode bound history "u1" trial_a
      (run-IsSound decode empty (bind_first input_a draw_a 1000 ∷ []) IsSound-empty) refl

bind_first-permits_example :
    (permits (authorize bound "u1" 2000) mcp ≡ ltb 2000 (1000 + trial_window))
    × (permits (authorize bound "u1" 2000) dashboard ≡ true)
unfolding machine
bind_first-permits_example =
    bind_first-permits decode empty input_a draw_a 1000 2000
      (
        trial_a,
        record {
          id = "";
          user_id = "u1";
          license_id = "";
          device_id = "d1";
          slot_ordinal = 0;
          status = active;
        },
      )
      refl refl refl

recover-revokes_example :
    let t = (recover_identity bound "u1" "lost" "case" "r1" 3000).1 in
    (count_where (live_credential "u1") t.credentials ≡ 0)
    × (count_where (live_session "u1") t.sessions ≡ 0)
    × (t.trials ≡ bound.trials)
unfolding machine
recover-revokes_example = recover-revokes bound "u1" "lost" "case" "r1" 3000 refl

reclaim-credential_example :
    IsReclaimed bound input_b (bind_first_device decode bound input_b draw_b 2000).1
unfolding machine
reclaim-credential_example =
    reclaim-credential decode bound input_b trial_a draw_b 2000
      (
        trial_a,
        record {
          id = "";
          user_id = "u1";
          license_id = "";
          device_id = "d1";
          slot_ordinal = 0;
          status = active;
        },
      )
      refl refl
