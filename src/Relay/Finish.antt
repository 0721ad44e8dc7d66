-- ===== src/Relay/Finish.antt =====
-- The end of `CallDetailed` of internal/mcpgateway/relay.go: the check of the response, the
-- classification of what ended the wait, and the cancellation that is pushed to the device.
use roblox_mcp_gateway.Prelude.{
  String, Bool, true, false, not, ◌&&◌, none, some, Except, ok, err, ◌>>◌, reject_if, ◌==◌,
  string_comparable, nat_comparable, if◌then◌else◌, pos, len,
}
use roblox_mcp_gateway.Protocol.{version, type_cancel, Envelope}
use roblox_mcp_gateway.Pending
use roblox_mcp_gateway.Pending.{Pending, Result, failure}
use roblox_mcp_gateway.Hub
use roblox_mcp_gateway.Hub.{Registry}
use roblox_mcp_gateway.Relay.{Error, deadline, invalid_response, cancelled, device_failed, Relay}
use roblox_mcp_gateway.Relay.Call.{Codec, encode_envelope, Started, Outcome}

abbrev pub cancel_envelope : String → String → Envelope
cancel_envelope device_id gateway_id = record {
  version = pos version;
  type = type_cancel;
  gateway_request_id = gateway_id;
  device_id = device_id;
  studio_id = "";
  deadline = 0;
  payload = "";
}

-- What ends the wait: the result on the call's channel, or the caller's own context.
pub data Ending : Type 0 where
  received : Result → Ending
  caller_done : Ending

-- `classifyResult`
abbrev pub classify_result : Pending.Error → Error
classify_result Pending.deadline_exceeded = deadline
classify_result Pending.cancelled = cancelled
classify_result Pending.device_failed = device_failed
classify_result _ = invalid_response

abbrev pub is_bounded : Pending.Error → Bool
is_bounded Pending.deadline_exceeded = true
is_bounded Pending.cancelled = true
is_bounded _ = false

module _ (codec : Codec) where
  -- `validateRelayResponse`
  unfoldable pub same_id : String → String → Except Error (Unit {0})
  same_id request_id response_id = elim (codec.decode_value request_id) [
    | none ↦ err invalid_response
    | some want ↦ elim (codec.decode_value response_id) [
      | none ↦ err invalid_response
      | some got ↦ reject_if (not (codec.comparable.equals want got)) invalid_response
    ]
  ]

  unfoldable pub validate_relay_response : String → String → Except Error (Unit {0})
  unfolding same_id
  validate_relay_response payload request_id = elim (codec.decode_response payload) [
    | none ↦ err invalid_response
    | some response ↦ do
      same_id request_id response.id
      reject_if (len response.result == 0 && len response.error == 0) invalid_response
  ]

  unfoldable pub send_cancel : Relay → String → String → Relay
  send_cancel r device_id gateway_id = record r {
    registry =
        (Hub.send (encode_envelope codec) r.registry device_id
          (cancel_envelope device_id gateway_id)).1;
  }

  unfoldable pub finish_failed : Relay → Started → Pending.Error → Outcome String
  unfolding send_cancel
  finish_failed r call cause = (
    err (classify_result cause),
    if is_bounded cause then send_cancel r call.target.device_id call.gateway_id else r,
  )

  unfoldable pub finish_call : Relay → Started → Ending → Outcome String
  unfolding finish_failed validate_relay_response send_cancel
  finish_call r call caller_done =
      (err cancelled, send_cancel r call.target.device_id call.gateway_id)
  finish_call r call (received result) = elim result.cause [
    | some cause ↦ finish_failed r call cause
    | none ↦ (validate_relay_response result.payload call.request_id >> ok result.payload, r)
  ]
