-- ===== src/Enrollment/Tests.antt =====
-- Runs of the pairing codes' store, and the theorem on one.
use roblox_mcp_gateway.Prelude.{◌≤◌, ◌≡◌, refl, List, [], ◌∷◌, Any, none, some, ok, err, arith}
use roblox_mcp_gateway.Prelude.Map
use roblox_mcp_gateway.Prelude.Map.{lookup, erase}
use roblox_mcp_gateway.Prelude.Set.{contains, add}
use roblox_mcp_gateway.Entitlement.Devices.{Draw}
use roblox_mcp_gateway.Entitlement.Trial.{bind_with, bind_first_device}
use roblox_mcp_gateway.Enrollment.Pairing.{
  DeviceClaim, DeviceCredential, Pairings, not_approved, not_found, begin_pairing, validate_claim,
  every_rune, add_pending, evict_expired, live_entry, lookup_pairing, mark_approved, approve_entry,
  on_entry, approve,
}
use roblox_mcp_gateway.Enrollment.Exchange.{
  require_license, after_bind, bind_device, after_consume, exchange_entry, exchange,
}
use roblox_mcp_gateway.Enrollment.Calls
use roblox_mcp_gateway.Enrollment.Calls.{Call, begins, approves, exchanges, Codec}
use roblox_mcp_gateway.Enrollment.Exchanged.{IsIssued}
use roblox_mcp_gateway.Enrollment.Issued.{IsApproval, IsIssued-approved}
use roblox_mcp_gateway.Prelude.Table.{select, count_where, update}
use roblox_mcp_gateway.Enrollment.{
  Store, has_digest, same_code, insert_enrollment_code, redeemable, identity_of, marks,
  mark_consumed, classify_missing_code, consume_enrollment_code,
}
use roblox_mcp_gateway.Enrollment.Once.{
  Op, insert, consume, apply, redeems, redeemed, consumed_once,
}

abbrev empty : Store
empty = record {
  codes = [];
  identities =
      record {
        id = "i1";
        user_id = "u1";
        provider = "roblox";
        provider_subject = "77";
        display_name = "Ada";
      }
      ∷ [];
}

abbrev ops : List Op
ops =
    insert (record { id = "c1"; user_id = "u1"; digest = "d"; expires_at = 50; consumed_at = none })
    ∷ consume "d" 60
    ∷ consume "d" 40
    ∷ consume "d" 41
    ∷ []

one_redemption : redeemed "d" empty ops ≡ 1
unfolding apply redeems has_digest same_code insert_enrollment_code redeemable identity_of marks
    mark_consumed classify_missing_code consume_enrollment_code select count_where update
one_redemption = refl

consumed_once_example : redeemed "d" empty ops ≤ 1
unfolding count_where
consumed_once_example = consumed_once "d" empty ops (omega arith)

-- A Bridge is paired: its claim, the approval, and the exchange.
abbrev codec : Codec
codec = record { decode = λ f. some f; trim_space = λ s. s; digest_of = λ s. s }

abbrev claim : DeviceClaim
claim = record {
  device_id = "dev-1";
  name = "pc";
  hostname = "host";
  platform = "windows";
  bridge_version = "1.0";
  fingerprint_hash = "00112233445566778899aabbccddeeff00112233445566778899aabbccddeeff";
}

abbrev start : Pairings
start = record {
  pending_ttl = 600;
  code_ttl = 600;
  max_pending = 10;
  pending = [];
  codes = empty;
  entitlements = record {
    users = "u1" ∷ [];
    trials = [];
    identities = [];
    devices = [];
    credentials = [];
    licenses = [];
    bindings = [];
    sessions = [];
    transfers = [];
    recoveries = [];
  };
}

abbrev calls : List Call
calls = approves "u1" "p1" 20 (some "c1") ∷ begins claim 10 (some "p1") ∷ []

abbrev new_rows : Draw
new_rows = record { trial_id = "t1"; trial_identity_id = "i1"; credential_id = "k1" }

abbrev credential : DeviceCredential
credential = record { token = "secret"; device_id = "dev-1"; user_id = "u1" }

machine : Unit {0}
unfolding Calls.apply Calls.run begin_pairing validate_claim every_rune add_pending evict_expired
    live_entry lookup_pairing mark_approved approve_entry on_entry approve require_license
    after_bind bind_device after_consume exchange_entry exchange insert_enrollment_code same_code
    redeemable identity_of marks has_digest mark_consumed classify_missing_code
    consume_enrollment_code select count_where update contains add lookup Map.insert erase bind_with
    bind_first_device
machine = tt

-- Before the approval, after it, and a second time.
pairing :
    let before = Calls.run codec start (begins claim 10 (some "p1") ∷ []) in
    let after = Calls.run codec start calls in
    let done =
      Calls.run codec start (exchanges "p1" 30 (some ("secret", "kd")) new_rows 30 ∷ calls) in
    ((exchange codec.decode codec.digest_of before "p1" 30 (some ("secret", "kd")) new_rows 30).0
      ≡ err not_approved)
    × ((exchange codec.decode codec.digest_of after "p1" 30 (some ("secret", "kd")) new_rows 30).0
        ≡ ok credential)
    × ((exchange codec.decode codec.digest_of done "p1" 31 (some ("secret", "kd")) new_rows 31).0
        ≡ err not_found)
unfolding machine
pairing = (refl, refl, refl)

IsIssued-approved_example :
    Any (IsApproval codec "p1" "u1") calls
    × IsIssued
        (Calls.run codec start calls)
        "p1"
        30
        credential
        (exchange codec.decode codec.digest_of
          (Calls.run codec start calls)
          "p1"
          30
          (some ("secret", "kd"))
          new_rows
          30).1
unfolding machine
IsIssued-approved_example =
    IsIssued-approved codec start calls "p1" 30 (some ("secret", "kd")) new_rows 30 credential refl
      refl
