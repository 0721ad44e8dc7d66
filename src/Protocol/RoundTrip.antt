-- ===== src/Protocol/RoundTrip.antt =====
-- What pkg/bridgeproto's `Encode` and `Decode` promise each other, and what an accepted message has.
use roblox_mcp_gateway.Prelude.{
  String, ◌∙◌, ◌≡◌, ◌≢◌, ◌↔◌, refl, true, some, ok, inl, inr, ◌<◌, ◌≤◌, pos, len, arith, eq_iff,
  Option-cases, Except-cases, then_iff, is_nat_iff, reject_if, string_comparable, nat_comparable,
  is_below, ◌>>◌,
}
use roblox_mcp_gateway.Protocol.{
  MessageType, type_hello, type_heartbeat, type_status, type_request, type_response,
  type_notification, type_cancel, type_error, type_other, Envelope, Limits, Json, end_of_input,
  validate_limits, version, is_supported, require_correlation, require_payload, validate_fields,
  validate_envelope, marshal_within, encode, decode_value, decode, require_end_of_json,
  limit_exceeded, EnvelopeJson, fields_of, envelope_of, marshal_json, marshal, unmarshal_json,
}

abbrev pub CarriesPayload : Json → Envelope → Type 0
CarriesPayload json e =
    (len e.payload ≢ 0) × (json.trim_space e.payload ≢ "null") × (json.valid e.payload ≡ true)

-- What a message of each type has to carry.
abbrev pub CarriesFields : Json → Envelope → MessageType → Type 0
CarriesFields json e type_hello = CarriesPayload json e
CarriesFields json e type_status = CarriesPayload json e
CarriesFields json e type_notification = CarriesPayload json e
CarriesFields json e type_request = (e.gateway_request_id ≢ "") × CarriesPayload json e
CarriesFields json e type_response = (e.gateway_request_id ≢ "") × CarriesPayload json e
CarriesFields json e type_error = (e.gateway_request_id ≢ "") × CarriesPayload json e
CarriesFields json e type_cancel = e.gateway_request_id ≢ ""
CarriesFields json e type_heartbeat = Unit
CarriesFields json e (type_other name) = ⊥

abbrev pub IsWellFormed : Json → Envelope → Type 0
IsWellFormed json e = (e.version ≡ pos version) × (e.device_id ≢ "") × CarriesFields json e e.type

-- The bytes are within the limit, which is positive.
abbrev pub IsWithin : String → Limits → Type 0
IsWithin bytes limits = (m : _) × (limits.max_payload_bytes ≡ pos m) × (0 < m) × (len bytes ≤ m)

module _ (json : Json) where
  payload_iff : (e : Envelope) → (require_payload json e ≡ ok tt) ↔ CarriesPayload json e
  unfolding require_payload
  payload_iff e = ground (arith, eq_iff (json.trim_space e.payload) "null")

  correlation_iff : (e : Envelope) → (require_correlation e ≡ ok tt) ↔ (e.gateway_request_id ≢ "")
  unfolding require_correlation
  correlation_iff e = ground (arith, eq_iff e.gateway_request_id "")

  both_iff :
      (e : Envelope)
      → ((require_correlation e >> require_payload json e) ≡ ok tt)
        ↔ ((e.gateway_request_id ≢ "") × CarriesPayload json e)
  both_iff e = ground (
    arith,
    then_iff (require_correlation e) (require_payload json e) tt,
    correlation_iff e,
    payload_iff e,
  )

  fields_iff :
      (e : Envelope) (t : MessageType) → (validate_fields json e t ≡ ok tt) ↔ CarriesFields json e t
  unfolding validate_fields
  fields_iff e type_hello = payload_iff e
  fields_iff e type_status = payload_iff e
  fields_iff e type_notification = payload_iff e
  fields_iff e type_request = both_iff e
  fields_iff e type_response = both_iff e
  fields_iff e type_error = both_iff e
  fields_iff e type_cancel = correlation_iff e
  fields_iff e type_heartbeat = ground arith
  fields_iff e (type_other name) = ground arith

  supported : (e : Envelope) (t : MessageType) → CarriesFields json e t → is_supported t ≡ true
  supported e type_hello h = refl
  supported e type_status h = refl
  supported e type_notification h = refl
  supported e type_request h = refl
  supported e type_response h = refl
  supported e type_error h = refl
  supported e type_cancel h = refl
  supported e type_heartbeat h = refl
  supported e (type_other name) h = absurd h

  envelope_iff : (e : Envelope) → (validate_envelope json e ≡ ok tt) ↔ IsWellFormed json e
  unfolding validate_envelope
  envelope_iff e = ground (
    arith,
    is_nat_iff e.version version,
    eq_iff e.device_id "",
    fields_iff e e.type,
    supported e e.type,
  )

  IsWithin-iff :
      (bytes : String) (limits : Limits)
      → ((validate_limits limits
            >> reject_if (is_below limits.max_payload_bytes (len bytes)) limit_exceeded)
          ≡ ok tt)
        ↔ IsWithin bytes limits
  unfolding validate_limits
  IsWithin-iff bytes limits = ground arith

  -- `Encode` gives the JSON text just for a well-formed envelope whose text is within the limit.
  pub encode_iff :
      (e : Envelope) (limits : Limits) (bytes : String)
      → (encode json e limits ≡ ok bytes)
        ↔ ((marshal json e ≡ some bytes) × IsWithin bytes limits × IsWellFormed json e)
  unfolding encode marshal_within validate_limits
  encode_iff e limits bytes = ground (
    arith,
    then_iff (validate_envelope json e) (marshal_within json e limits) bytes,
    envelope_iff e,
    IsWithin-iff bytes limits,
  )

  -- The bytes are the JSON text of the envelope, with nothing after it.
  abbrev pub Reads : String → Envelope → Type 0
  Reads bytes e =
      (text : String) × (json.first_value bytes ≡ some (text, end_of_input))
      × (unmarshal_json json text ≡ ok e)

  decode_value_iff :
      (bytes : String) (e : Envelope)
      → (decode_value json bytes ≡ ok e) ↔ (Reads bytes e × IsWellFormed json e)
  unfolding decode_value require_end_of_json
  decode_value_iff bytes e = elim (Option-cases (json.first_value bytes)) [
    | inl n ↦ ground arith
    | inr ((text, rest), found) ↦ elim (Except-cases (unmarshal_json json text)) [
      | inr (x, n) ↦ ground arith
      | inl (f, n) ↦ ground (
        arith,
        envelope_iff f,
        then_iff (validate_envelope json f) (ok f) e,
        then_iff (require_end_of_json rest) (validate_envelope json f >> ok f) e,
      )
    ]
  ]

  -- `Decode` gives an envelope just for a text within the limit that is the JSON of it and nothing
  -- more, if the envelope is well-formed: version 1, a known type, a device, and the correlation id
  -- and the payload that its type asks for.
  pub decode_iff :
      (bytes : String) (limits : Limits) (e : Envelope)
      → (decode json bytes limits ≡ ok e)
        ↔ (IsWithin bytes limits × Reads bytes e × IsWellFormed json e)
  unfolding decode validate_limits
  decode_iff bytes limits e = ground (arith, decode_value_iff bytes e, IsWithin-iff bytes limits)

  -- A change of the payload that keeps what a payload has to be keeps what a message has to carry.
  CarriesFields-mono :
      (e f : Envelope) (t : MessageType)
      → e.gateway_request_id ≡ f.gateway_request_id
      → (CarriesPayload json e → CarriesPayload json f)
      → CarriesFields json e t
      → CarriesFields json f t
  CarriesFields-mono e f type_hello same keep h = keep h
  CarriesFields-mono e f type_status same keep h = keep h
  CarriesFields-mono e f type_notification same keep h = keep h
  CarriesFields-mono e f type_request same keep h = (λ g. h.0 (same ∙ g), keep h.1)
  CarriesFields-mono e f type_response same keep h = (λ g. h.0 (same ∙ g), keep h.1)
  CarriesFields-mono e f type_error same keep h = (λ g. h.0 (same ∙ g), keep h.1)
  CarriesFields-mono e f type_cancel same keep h = λ g. h (same ∙ g)
  CarriesFields-mono e f type_heartbeat same keep h = h
  CarriesFields-mono e f (type_other name) same keep h = h

-- What encoding/json makes of the text that it has written for the struct: the same struct, its payload
-- rewritten, and nothing after it; the struct's own text is the first value of the compacted one.
abbrev pub IsReadBack : Json → (String → String) → EnvelopeJson → Type 0
IsReadBack json rewrite f =
    (text bytes : String)
    → json.marshal_fields f ≡ some text
    → json.compact text ≡ some bytes
    → (json.first_value bytes ≡ some (bytes, end_of_input))
      × (json.decode_fields bytes ≡ some (record f { payload = rewrite f.payload }, end_of_input))

-- The two conversions are inverse, the zero deadline included.
envelope_of-fields_of :
    (e : Envelope) (payload : String)
    → envelope_of (record (fields_of e) { payload = payload }) ≡ record e { payload = payload }
unfolding envelope_of fields_of
envelope_of-fields_of e payload = ground arith

module _ (json : Json) (rewrite : String → String) (e : Envelope) where
  marshal-Reads :
      (bytes : String)
      → IsReadBack json rewrite (fields_of e)
      → marshal json e ≡ some bytes
      → Reads json bytes (record e { payload = rewrite e.payload })
  unfolding marshal marshal_json unmarshal_json require_end_of_json
  marshal-Reads bytes reads h = elim (Option-cases (json.marshal_fields (fields_of e))) [
    | inl n ↦ absurd (ground arith)
    | inr (text, n) ↦
        let (value, decoded) = reads text bytes n (ground arith) in
        (bytes, value, ground (arith, envelope_of-fields_of e (rewrite e.payload)))
  ]

-- What `Encode` writes, `Decode` reads back under the same limit: the same envelope, with its payload as
-- `rewrite` leaves it. Of encoding/json it is assumed that the text it writes for the struct of
-- `MarshalJSON` is read as that struct, its payload rewritten, with nothing after it; and that the
-- payload, if valid, is still valid and nonempty when rewritten, and is rewritten to null only if it was
-- null.
pub decode-encode :
    (json : Json) (rewrite : String → String) (e : Envelope) (limits : Limits) (bytes : String)
    → IsReadBack json rewrite (fields_of e)
    → (json.valid e.payload ≡ true
        → (json.valid (rewrite e.payload) ≡ true) × (len (rewrite e.payload) ≢ 0))
    → (json.valid e.payload ≡ true
        → json.trim_space e.payload ≢ "null"
        → json.trim_space (rewrite e.payload) ≢ "null")
    → encode json e limits ≡ ok bytes
    → decode json bytes limits ≡ ok (record e { payload = rewrite e.payload })
decode-encode json rewrite e limits bytes reads keeps apart h =
    let (written, within, formed) = (encode_iff json e limits bytes).0 h in
    let e' : Envelope = record e { payload = rewrite e.payload } in
    let kept : CarriesPayload json e → CarriesPayload json e' =
      λ c. ((keeps c.2).1, apart c.2 c.1, (keeps c.2).0) in
    (decode_iff json bytes limits e').1 (
      within,
      marshal-Reads json rewrite e bytes reads written,
      (formed.0, formed.1, CarriesFields-mono json e e' e.type refl kept formed.2),
    )
