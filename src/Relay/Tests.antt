-- ===== src/Relay/Tests.antt =====
-- Runs of the relay and of the tool policy, and their theorems at them.
use roblox_mcp_gateway.Prelude.{
  ℕ, String, ◌≡◌, refl, ◌↔◌, true, false, [], ◌∷◌, Option, none, some, Except, ok, err, ◌==◌,
  string_comparable, nat_comparable, if◌then◌else◌, pos, length,
}
use roblox_mcp_gateway.Prelude.Map.{lookup, insert, erase}
use roblox_mcp_gateway.Prelude.Set.{contains, add, remove}
use roblox_mcp_gateway.Pending
use roblox_mcp_gateway.Pending.{new_pending, failure, deadline_exceeded}
use roblox_mcp_gateway.Pending.Schedule
use roblox_mcp_gateway.Protocol
use roblox_mcp_gateway.Hub
use roblox_mcp_gateway.Hub.{Registry}
use roblox_mcp_gateway.Oauth.{AccessToken, Grant}
use roblox_mcp_gateway.Routing
use roblox_mcp_gateway.Access.Gateway.{SessionInvalid, Principal}
use roblox_mcp_gateway.Relay.{
  device_gone, ambiguous_target, invalid_response, deadline, Relay, snapshot, apply_status,
  online_studios, resolve_target, handle_envelope,
}
use roblox_mcp_gateway.Relay.Policy.{official_tool_scopes, tool_scope, scope_allowed, is_refused}
use roblox_mcp_gateway.Relay.Call.{
  Codec, encode_envelope, Started, idle, ahead, give_up, give_up_watched, after_send,
  deliver_request, send_registered, register_request, prepare_request, start_call,
}
use roblox_mcp_gateway.Relay.Finish.{
  received, same_id, validate_relay_response, send_cancel, finish_failed, finish_call,
}
use roblox_mcp_gateway.Relay.Tools.{scope_denied_error, method_call_tool, begin_tool_call}
use roblox_mcp_gateway.Relay.Target.{Means, resolve_target_iff}
use roblox_mcp_gateway.Relay.Abandoned.{Abandons, start_call-Abandons}
use roblox_mcp_gateway.Relay.Answered.{IsAnswer, finish_call_iff}
use roblox_mcp_gateway.Relay.Delivered.{IsDelivered}
use roblox_mcp_gateway.Relay.Denied.{IsAllowed, denied_iff, admitted-IsDelivered}

-- A codec that writes an id for the whole text.
abbrev codec : Codec
codec = record {
  Value = String;
  comparable = string_comparable;
  encode_request = λ q. some q.id;
  decode_response = λ text. some (record { id = text; result = "{}"; error = "" });
  decode_value = λ text. if text == "" then none else some text;
  format_int = λ n. if n == 1 then "1" else "2";
  json = record {
    marshal_fields = λ f. some f.gateway_request_id;
    compact = λ text. some text;
    first_value = λ text. none;
    decode_fields = λ text. none;
    valid = λ payload. true;
    trim_space = λ payload. payload;
  };
  limits = record { max_payload_bytes = pos 100 };
}

abbrev hub : Registry
hub = record {
  conns = ("d1", 0) ∷ [];
  heap = (0, record { queue = []; capacity = 1; closed = none }) ∷ [];
}

abbrev relay : Relay
relay = record {
  registry = hub;
  pending = new_pending 4;
  ids = 0;
  statuses = ("d1", record { ready = true; studio_count = pos 1 }) ∷ [];
}

abbrev grant : Grant
grant = record {
  id = "g1";
  user_id = "u1";
  client_id = "x1";
  device_id = "d1";
  studio_session_id = "";
  scopes = "studio:read" ∷ [];
  resource = "https://g/mcp";
  revoked_at = none;
  created_at = 1000;
}

abbrev elsewhere : Grant
elsewhere = record grant { device_id = "d2" }

abbrev token : AccessToken
token = record {
  id = "a1";
  digest = "h1";
  user_id = "u1";
  grant_id = "g1";
  expires_at = 9000;
  revoked_at = none;
  created_at = 1000;
}

abbrev bytes : ℕ → Option String
bytes i = some "01"

abbrev call : Started
call = record {
  gateway_id = "gw_01";
  channel = 0;
  request_id = "1";
  target = record { device_id = "d1"; studio_id = "" };
}

machine : Unit {0}
unfolding snapshot apply_status online_studios resolve_target handle_envelope lookup insert erase
    contains add remove Routing.resolve Routing.sole Routing.named Routing.on_device
    Routing.find_studio new_pending Pending.register Pending.record_entry Pending.members
    Pending.add_to Pending.drop_from Pending.fresh_id_from Pending.fresh_id Pending.leave_device
    Pending.rebind Pending.associate Pending.remove_entry Pending.complete Pending.deliver
    Pending.resolve Hub.get Hub.send Hub.enqueue_at Hub.enqueue Hub.close_locked tool_scope
    official_tool_scopes scope_allowed is_refused give_up give_up_watched after_send deliver_request
    send_registered register_request prepare_request start_call same_id validate_relay_response
    send_cancel finish_failed finish_call begin_tool_call encode_envelope Protocol.fields_of
    Protocol.marshal_json Protocol.marshal Protocol.marshal_within Protocol.validate_limits
    Protocol.validate_envelope Protocol.validate_fields Protocol.require_payload
    Protocol.require_correlation Protocol.encode
machine = tt

targets :
    (resolve_target relay grant ≡ ok (record { device_id = "d1"; studio_id = "" }))
    × (resolve_target relay elsewhere ≡ err device_gone)
    × (resolve_target
          (apply_status relay "d1" (some (record { ready = true; studio_count = pos 3 })))
          grant
        ≡ err ambiguous_target)
unfolding machine
targets = (refl, refl, refl)

started : (start_call codec relay "s1" grant "tools/call" "{}" 5000 bytes idle).0 ≡ ok call
unfolding machine
started = refl

-- The device's queue is full: the call gives up, and nothing of it is pending.
abbrev crowded : Relay
crowded = record relay {
  registry = record hub {
    heap = (0, record { queue = "m" ∷ []; capacity = 1; closed = none }) ∷ [];
  };
}

gives_up :
    let x = start_call codec crowded "s1" grant "tools/call" "{}" 5000 bytes idle in
    (x.0 ≡ err device_gone) × (x.1.pending.entries ≡ []) × (length x.1.pending.sent ≡ 1)
unfolding machine
gives_up = (refl, refl, refl)

finishes :
    ((finish_call codec relay call (received (record { payload = "1"; cause = none }))).0 ≡ ok "1")
    × ((finish_call codec relay call (received (record { payload = "2"; cause = none }))).0
        ≡ err invalid_response)
    × ((finish_call codec relay call (received (failure deadline_exceeded))).0 ≡ err deadline)
unfolding machine
finishes = (refl, refl, refl)

-- A grant with the connect scope may call a tool whose own scope it lacks.
tools :
    (tool_scope "script_read" ≡ "studio:read")
    × (is_refused ("studio:read" ∷ []) (tool_scope "script_read") ≡ false)
    × (is_refused ("studio:read" ∷ []) (tool_scope "multi_edit") ≡ true)
    × (is_refused ("mcp:connect" ∷ []) (tool_scope "multi_edit") ≡ false)
unfolding machine
tools = (refl, refl, refl, refl)

resolve_target_iff_example :
    (resolve_target relay grant ≡ ok (record { device_id = "d1"; studio_id = "" }))
    ↔ Means relay grant (ok (record { device_id = "d1"; studio_id = "" }))
resolve_target_iff_example =
    resolve_target_iff relay grant (ok (record { device_id = "d1"; studio_id = "" }))

start_call-Abandons_example :
    Abandons crowded "d1" ahead
      (start_call codec crowded "s1" grant "tools/call" "{}" 5000 bytes ahead).1
unfolding machine Schedule.run Schedule.start
start_call-Abandons_example =
    start_call-Abandons 4 [] codec crowded "s1" grant "tools/call" "{}" 5000 bytes ahead device_gone
      refl refl

finish_call_iff_example :
    ((finish_call codec relay call (received (record { payload = "1"; cause = none }))).0 ≡ ok "1")
    ↔ ((received (record { payload = "1"; cause = none })
          ≡ received (record { payload = "1"; cause = none }))
        × IsAnswer codec "1" "1")
finish_call_iff_example =
    finish_call_iff codec relay call (received (record { payload = "1"; cause = none })) "1"

abbrev auth : Except SessionInvalid Principal
auth = ok (token, grant)

admitted-IsDelivered_example :
    (p : Principal) × (auth ≡ ok p)
    × IsAllowed p.1.scopes "script_read"
    × IsDelivered codec relay "s1" p.1 method_call_tool "{}" 5000 call
        (begin_tool_call codec relay "s1" 5000 bytes idle "script_read" auth "{}").1
unfolding machine
admitted-IsDelivered_example =
    admitted-IsDelivered codec relay "s1" 5000 bytes idle "script_read" "{}" auth call refl

denied_iff_example :
    ((begin_tool_call codec relay "s1" 5000 bytes idle "multi_edit" auth "{}").0
      ≡ err scope_denied_error)
    ↔ ((p : Principal) × (auth ≡ ok p)
        × (¬ IsAllowed p.1.scopes "multi_edit")
        × ((begin_tool_call codec relay "s1" 5000 bytes idle "multi_edit" auth "{}").1 ≡ relay))
denied_iff_example = denied_iff codec relay "s1" 5000 bytes idle "multi_edit" "{}" auth
