-- ===== src/Protocol/Tests.antt =====
-- Runs of the Bridge protocol's `Encode` and `Decode` on a toy JSON, and the theorems on them.
use roblox_mcp_gateway.Prelude.{
  ◌≡◌, refl, eq_iff, ◌↔◌, if◌then◌else◌, ◌==◌, string_comparable, none, some, ok, err, pos, arith,
}
use roblox_mcp_gateway.Protocol.{
  type_hello, type_cancel, Envelope, Limits, Json, end_of_input, encode, decode, payload_required,
  limit_exceeded, validate_limits, validate_envelope, validate_fields, marshal_within, decode_value,
  require_correlation, require_payload, require_end_of_json, correlation_required, fields_of,
  envelope_of, marshal_json, marshal, unmarshal_json,
}
use roblox_mcp_gateway.Protocol.RoundTrip.{
  decode_iff, decode-encode, IsWithin, IsWellFormed, Reads, IsReadBack,
}

abbrev hello : Envelope
hello = record {
  version = pos 1;
  type = type_hello;
  gateway_request_id = "";
  device_id = "d1";
  studio_id = "";
  deadline = 0;
  payload = "{}";
}

-- A codec for one envelope: its text is a number.
abbrev json : Json
json = record {
  marshal_fields = λ f. if f.payload == "{}" then some " 17" else none;
  compact = λ text. some "17";
  first_value = λ text. if text == "17" then some (text, end_of_input) else none;
  decode_fields = λ text. some (
    record {
      version = pos 1;
      type = type_hello;
      gateway_request_id = "";
      device_id = "d1";
      studio_id = "";
      deadline = none;
      payload = "{}";
    },
    end_of_input,
  );
  valid = λ p. p == "{}";
  trim_space = λ p. p;
}

abbrev limits : Limits
limits = record { max_payload_bytes = pos 100 }

machine : Unit {0}
unfolding encode decode validate_limits validate_envelope validate_fields marshal_within
    decode_value require_correlation require_payload require_end_of_json fields_of envelope_of
    marshal_json marshal unmarshal_json
machine = tt

runs :
    (encode json hello limits ≡ ok "17")
    × (decode json "17" limits ≡ ok hello)
    × (encode json (record hello { payload = "null" }) limits ≡ err payload_required)
    × (encode json (record hello { type = type_cancel }) limits ≡ err correlation_required)
    × (decode json "17" (record { max_payload_bytes = pos 1 }) ≡ err limit_exceeded)
unfolding machine
runs = (refl, refl, refl, refl, refl)

decode_iff_example :
    (decode json "17" limits ≡ ok hello)
    ↔ (IsWithin "17" limits × Reads json "17" hello × IsWellFormed json hello)
decode_iff_example = decode_iff json "17" limits hello

reads : IsReadBack json (λ p. p) (fields_of hello)
unfolding machine
reads text bytes h k = ground (arith, eq_iff bytes "17")

decode-encode_example : decode json "17" limits ≡ ok hello
unfolding machine
decode-encode_example =
    decode-encode json (λ p. p) hello limits "17" reads (λ h. (refl, λ e. omega arith)) (λ h n. n)
      refl
