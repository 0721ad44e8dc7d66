-- ===== src/Relay/Answered.antt =====
-- Which responses a call of internal/mcpgateway/relay.go passes on, and when its device is told to stop.
use roblox_mcp_gateway.Prelude.{
  String, ◌≡◌, ◌≢◌, ◌↔◌, ◌⊎◌, inl, inr, none, some, ok, ◌==◌, nat_comparable, string_comparable,
  arith, Option-cases, len, then_iff, reject_if, ◌&&◌,
}
use roblox_mcp_gateway.Relay.{Relay, invalid_response}
use roblox_mcp_gateway.Relay.Call.{Codec, Started, JsonRpcResponse}
use roblox_mcp_gateway.Relay.Finish.{
  Ending, received, caller_done, same_id, validate_relay_response, finish_failed, finish_call,
}

-- The payload is the JSON of a response with this request's id, and with a result or an error.
abbrev pub IsAnswer : Codec → String → String → Type 0
IsAnswer codec payload request_id =
    (response : JsonRpcResponse) × (codec.decode_response payload ≡ some response)
    × ((id : codec.Value) × (codec.decode_value request_id ≡ some id)
        × (codec.decode_value response.id ≡ some id))
    × ((len response.result ≢ 0) ⊎ (len response.error ≢ 0))

module _ (codec : Codec) where
  same_id_iff :
      (request_id response_id : String)
      → (same_id codec request_id response_id ≡ ok tt) ↔ (
          (id : codec.Value) × (codec.decode_value request_id ≡ some id)
          × (codec.decode_value response_id ≡ some id))
  unfolding same_id
  same_id_iff request_id response_id = elim (Option-cases (codec.decode_value request_id)) [
    | inl n ↦ ground arith
    | inr (want, w) ↦ elim (Option-cases (codec.decode_value response_id)) [
      | inl n ↦ ground arith
      | inr (got, g) ↦ ground (arith, codec.comparable.equals_iff want got)
    ]
  ]

  IsAnswer-iff :
      (payload request_id : String)
      → (validate_relay_response codec payload request_id ≡ ok tt)
        ↔ IsAnswer codec payload request_id
  unfolding validate_relay_response
  IsAnswer-iff payload request_id = elim (Option-cases (codec.decode_response payload)) [
    | inl n ↦ ground arith
    | inr (response, n) ↦ ground (
      arith,
      same_id_iff request_id response.id,
      then_iff (same_id codec request_id response.id)
          (reject_if (len response.result == 0 && len response.error == 0) invalid_response) tt,
    )
  ]

  -- A waiting call returns a payload just when the payload is the result on its channel, and is JSON
  -- with the request's own id and with a result or an error; it may state any version or none, and the
  -- error may be any JSON value.
  pub finish_call_iff :
      (r : Relay) (call : Started) (ending : Ending) (payload : String)
      → ((finish_call codec r call ending).0 ≡ ok payload) ↔ (
          (ending ≡ received (record { payload = payload; cause = none }))
          × IsAnswer codec payload call.request_id)
  unfolding finish_call finish_failed
  finish_call_iff r call caller_done payload = ground arith
  finish_call_iff r call (received result) payload =
      ground (arith, IsAnswer-iff result.payload call.request_id)
