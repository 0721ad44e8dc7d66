-- ===== src/Protocol.antt =====
-- The messages between the gateway and a Bridge: pkg/bridgeproto/message.go and validate.go. What
-- encoding/json and bytes do is the record `Json`. A deadline is a number of nanoseconds, 0 the zero
-- time; the pointer to one in `envelopeJSON` is an option.
pub mod RoundTrip
mod Tests
use roblox_mcp_gateway.Prelude.{
  ℕ, if◌then◌else◌, String, Bool, true, false, not, ◌&&◌, ◌||◌, Option, none, some, Except, ok, err,
  ◌>>=◌, ◌>>◌, reject_if, ◌==◌, string_comparable, nat_comparable, len, ℤ, pos, negsuc, is_positive,
  is_nat, is_below,
}

abbrev pub version : ℕ
version = 1

pub data MessageType : Type 0 where
  type_hello type_heartbeat type_status type_request type_response : MessageType
  type_notification type_cancel type_error : MessageType
  type_other : String → MessageType

pub record Envelope : Type 0 where
  pub version : ℤ
  pub type : MessageType
  pub gateway_request_id : String
  pub device_id : String
  pub studio_id : String
  pub deadline : ℕ
  pub payload : String

-- `envelopeJSON`
pub record EnvelopeJson : Type 0 where
  pub version : ℤ
  pub type : MessageType
  pub gateway_request_id : String
  pub device_id : String
  pub studio_id : String
  pub deadline : Option ℕ
  pub payload : String

pub record Limits : Type 0 where
  pub max_payload_bytes : ℤ

pub data Error : Type 0 where
  bad_limits unsupported_version unsupported_type device_required correlation_required : Error
  payload_required payload_not_json encode_failed limit_exceeded decode_failed : Error
  multiple_values trailing_data : Error

-- What a JSON decoder finds after the first value.
pub data Rest : Type 0 where
  end_of_input another_value malformed : Rest

-- encoding/json, and bytes.TrimSpace. `marshal_fields` is `json.Marshal` of the struct; `compact` is what
-- `json.Marshal` does with the output of a `MarshalJSON`; `first_value` is the text of the first value
-- that a decoder hands to an `UnmarshalJSON`, and what follows it; `decode_fields` is a decoder that
-- refuses unknown fields, on the struct.
pub record Json : Type 0 where
  pub marshal_fields : EnvelopeJson → Option String
  pub compact : String → Option String
  pub first_value : String → Option (String × Rest)
  pub decode_fields : String → Option (EnvelopeJson × Rest)
  pub valid : String → Bool
  pub trim_space : String → String

unfoldable pub validate_limits : Limits → Except Error (Unit {0})
validate_limits limits = reject_if (not (is_positive limits.max_payload_bytes)) bad_limits

-- `MessageType.valid`
abbrev pub is_supported : MessageType → Bool
is_supported (type_other name) = false
is_supported _ = true

unfoldable pub require_correlation : Envelope → Except Error (Unit {0})
require_correlation e = reject_if (e.gateway_request_id == "") correlation_required

unfoldable pub require_end_of_json : Rest → Except Error (Unit {0})
require_end_of_json end_of_input = ok tt
require_end_of_json another_value = err multiple_values
require_end_of_json malformed = err trailing_data

-- The struct that `Envelope.MarshalJSON` writes: the zero time is left out.
unfoldable pub fields_of : Envelope → EnvelopeJson
fields_of e = record {
  version = e.version;
  type = e.type;
  gateway_request_id = e.gateway_request_id;
  device_id = e.device_id;
  studio_id = e.studio_id;
  deadline = if not (e.deadline == 0) then some e.deadline else none;
  payload = e.payload;
}

-- `Decode` wraps whatever error the decoder returns.
abbrev pub or_decode_failed : Except Error Envelope → Except Error Envelope
or_decode_failed (ok e) = ok e
or_decode_failed (err x) = err decode_failed

abbrev pub deadline_of : Option ℕ → ℕ
deadline_of none = 0
deadline_of (some t) = t

-- The envelope that `Envelope.UnmarshalJSON` makes of the struct.
unfoldable pub envelope_of : EnvelopeJson → Envelope
envelope_of decoded = record {
  version = decoded.version;
  type = decoded.type;
  gateway_request_id = decoded.gateway_request_id;
  device_id = decoded.device_id;
  studio_id = decoded.studio_id;
  deadline = deadline_of decoded.deadline;
  payload = decoded.payload;
}

module _ (json : Json) where
  -- `Envelope.MarshalJSON`
  unfoldable pub marshal_json : Envelope → Option String
  unfolding fields_of
  marshal_json e = json.marshal_fields (fields_of e)

  -- `json.Marshal` of an envelope.
  unfoldable pub marshal : Envelope → Option String
  unfolding marshal_json
  marshal e = elim (marshal_json e) [ none ↦ none | some text ↦ json.compact text ]

  -- `Envelope.UnmarshalJSON`
  unfoldable pub unmarshal_json : String → Except Error Envelope
  unfolding envelope_of require_end_of_json
  unmarshal_json text = elim (json.decode_fields text) [
    | none ↦ err decode_failed
    | some (decoded, rest) ↦ require_end_of_json rest >> ok (envelope_of decoded)
  ]

  unfoldable pub require_payload : Envelope → Except Error (Unit {0})
  require_payload e = do
    reject_if (len e.payload == 0 || json.trim_space e.payload == "null") payload_required
    reject_if (not (json.valid e.payload)) payload_not_json

  -- The switch on the type.
  unfoldable pub validate_fields : Envelope → MessageType → Except Error (Unit {0})
  unfolding require_payload require_correlation
  validate_fields e type_hello = require_payload e
  validate_fields e type_status = require_payload e
  validate_fields e type_notification = require_payload e
  validate_fields e type_request = require_correlation e >> require_payload e
  validate_fields e type_response = require_correlation e >> require_payload e
  validate_fields e type_error = require_correlation e >> require_payload e
  validate_fields e type_cancel = require_correlation e
  validate_fields e type_heartbeat = ok tt
  validate_fields e (type_other name) = err unsupported_type

  unfoldable pub validate_envelope : Envelope → Except Error (Unit {0})
  unfolding validate_fields
  validate_envelope e = do
    reject_if (not (is_nat e.version version)) unsupported_version
    reject_if (not (is_supported e.type)) unsupported_type
    reject_if (e.device_id == "") device_required
    validate_fields e e.type

  -- `json.Marshal` and the test of the encoded length.
  unfoldable pub marshal_within : Envelope → Limits → Except Error String
  unfolding marshal
  marshal_within e limits = elim (marshal e) [
    | none ↦ err encode_failed
    | some bytes ↦ do
      reject_if (is_below limits.max_payload_bytes (len bytes)) limit_exceeded
      ok bytes
  ]

  unfoldable pub encode : Envelope → Limits → Except Error String
  unfolding validate_limits validate_envelope marshal_within
  encode e limits = do validate_limits limits; validate_envelope e; marshal_within e limits

  unfoldable pub decode_value : String → Except Error Envelope
  unfolding require_end_of_json validate_envelope unmarshal_json
  decode_value bytes = elim (json.first_value bytes) [
    | none ↦ err decode_failed
    | some (text, rest) ↦ do
      e ← or_decode_failed (unmarshal_json text)
      require_end_of_json rest
      validate_envelope e
      ok e
  ]

  unfoldable pub decode : String → Limits → Except Error Envelope
  unfolding validate_limits decode_value
  decode bytes limits = do
    validate_limits limits
    reject_if (is_below limits.max_payload_bytes (len bytes)) limit_exceeded
    decode_value bytes
