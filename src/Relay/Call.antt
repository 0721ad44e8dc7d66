-- ===== src/Relay/Call.antt =====
-- `CallDetailed` of internal/mcpgateway/relay.go up to the delivery of the request. The rest of it, from
-- the event that ends the wait, is Relay.Finish; what happens in between are steps of other calls, and
-- of the call's own goroutine that watches the connection (`watch`). Up to the delivery no step of
-- another call comes between; what the goroutine does before the call has given up is the argument
-- `Watcher`, as a whole call of `FailDevice` before or after the call's own `Resolve`.
use roblox_mcp_gateway.Prelude.{
  ℕ, ◌+◌, ◌%◌, ◌^◌, String, Option, none, some, Except, ok, err, ◌==◌, string_comparable,
  nat_comparable, Comparable, Bool, true, false, if◌then◌else◌, pos,
}
use roblox_mcp_gateway.Prelude.Map.{lookup}
use roblox_mcp_gateway.Protocol
use roblox_mcp_gateway.Protocol.{version, type_request, Envelope, Limits, Json}
use roblox_mcp_gateway.Pending
use roblox_mcp_gateway.Pending.{Pending, Result, failure}
use roblox_mcp_gateway.Hub
use roblox_mcp_gateway.Hub.{Registry}
use roblox_mcp_gateway.Oauth.{Grant}
use roblox_mcp_gateway.Routing.{ResolvedTarget}
use roblox_mcp_gateway.Relay.{
  Error, device_gone, busy, invalid_response, invalid_request, Relay, resolve_target,
}

-- `jsonrpcRequest`, whose version is always 2.0. An absent `params` is the empty text.
pub record JsonRpcRequest : Type 0 where
  pub id : String
  pub method : String
  pub params : String

-- The fields of a response, each as its raw text, empty if absent.
pub record JsonRpcResponse : Type 0 where
  pub id : String
  pub result : String
  pub error : String

-- encoding/json on these types, and on values of type `any`, which reflect.DeepEqual compares;
-- strconv.FormatInt on a 64-bit pattern; and, for the envelopes, the parameter of Protocol with the
-- hub's limit.
pub record Codec : Type 1 where
  pub Value : Type 0
  pub comparable : Comparable Value
  pub encode_request : JsonRpcRequest → Option String
  pub decode_response : String → Option JsonRpcResponse
  pub decode_value : String → Option Value
  pub format_int : ℕ → String
  pub json : Json
  pub limits : Limits

-- `bridgeproto.Encode` of `enqueue`.
unfoldable pub encode_envelope : Codec → Envelope → Option String
encode_envelope codec e = elim (Protocol.encode codec.json e codec.limits) [
  | ok text ↦ some text
  | err x ↦ none
]

-- The trace of a call, which is waiting on its channel for the response to `request_id`.
pub record Started : Type 0 where
  pub gateway_id : String
  pub channel : ℕ
  pub request_id : String
  pub target : ResolvedTarget

abbrev pub Outcome : Type 0 → Type 0
Outcome A = Except Error A × Relay

-- `ErrTooManyPending` is a busy server, any other failure of `Register` an invalid response.
abbrev pub register_error : Pending.Error → Error
register_error Pending.too_many_pending = busy
register_error _ = invalid_response

abbrev pub gone : Result
gone = failure (Pending.other "mcpgateway: target device is offline")

abbrev pub invalid : Result
invalid = failure (Pending.other "mcpgateway: invalid relay response")

-- A call that gives up resolves its own request first.
unfoldable pub give_up : {A : Type 0} → Relay → String → Result → Error → Outcome A
give_up r gateway_id result e =
    (err e, record r { pending = (Pending.resolve r.pending gateway_id result).0 })

-- `conn.Done()` is closed.
unfoldable pub is_done : Registry → ℕ → Bool
is_done registry conn = elim (lookup conn registry.heap) [
  | none ↦ false
  | some c ↦ elim c.closed [ none ↦ false | some reason ↦ true ]
]

-- The goroutine that `CallDetailed` starts, when it runs: it acts only on a closed connection.
unfoldable pub watch : Relay → ℕ → String → Relay
unfolding is_done
watch r conn device_id =
    if is_done r.registry conn
    then record r { pending = Pending.fail_device r.pending device_id (some Pending.device_failed) }
    else r

-- When the goroutine runs in a call whose delivery fails: not before the call has ended it, or before
-- or after the call's own `Resolve`.
pub data Watcher : Type 0 where
  idle ahead behind : Watcher

unfoldable pub give_up_watched :
    {A : Type 0} → Watcher → Relay → ℕ → String → String → Result → Error → Outcome A
unfolding give_up watch
give_up_watched idle r conn device_id gateway_id result e = give_up r gateway_id result e
give_up_watched ahead r conn device_id gateway_id result e =
    give_up (watch r conn device_id) gateway_id result e
give_up_watched behind r conn device_id gateway_id result e =
    let (failed, s) = give_up r gateway_id result e in (failed, watch s conn device_id)

abbrev pub request_envelope : ResolvedTarget → String → ℕ → String → Envelope
request_envelope target gateway_id expiry payload = record {
  version = pos version;
  type = type_request;
  gateway_request_id = gateway_id;
  device_id = target.device_id;
  studio_id = target.studio_id;
  deadline = expiry;
  payload = payload;
}

module _ (codec : Codec) where
  -- After `registry.Send`.
  unfoldable pub after_send :
      Watcher → Relay → ℕ → Started → Except Hub.Error (Unit {0}) × Registry → Outcome Started
  unfolding give_up_watched
  after_send watcher r conn call (ok done, registry) = (ok call, record r { registry = registry })
  after_send watcher r conn call (err e, registry) =
      give_up_watched watcher (record r { registry = registry }) conn call.target.device_id
        call.gateway_id gone device_gone

  -- The look-up of the live connection and the delivery.
  unfoldable pub deliver_request : Relay → Started → ℕ → String → Watcher → Outcome Started
  unfolding give_up after_send
  deliver_request r call expiry payload watcher = elim (Hub.get r.registry call.target.device_id) [
    | none ↦ give_up r call.gateway_id gone device_gone
    | some conn ↦ after_send watcher r conn call (
        Hub.send (encode_envelope codec) r.registry call.target.device_id
          (request_envelope call.target call.gateway_id expiry payload))
  ]

  -- From the association on.
  unfoldable pub send_registered : Relay → Started → ℕ → String → Watcher → Outcome Started
  unfolding give_up deliver_request
  send_registered r call expiry payload watcher =
      elim (Pending.associate r.pending call.gateway_id call.target.device_id) [
        | err e ↦ give_up r call.gateway_id invalid invalid_response
        | ok p ↦ deliver_request (record r { pending = p }) call expiry payload watcher
      ]

  -- From `pending.Register` on.
  unfoldable pub register_request :
      Relay
      → String
      → ResolvedTarget
      → String
      → ℕ
      → String
      → (ℕ → Option String)
      → Watcher
      → Outcome Started
  unfolding send_registered
  register_request r session_id target request_id expiry payload random watcher =
      elim (Pending.register r.pending session_id request_id random) [
        | err e ↦ (err (register_error e), r)
        | ok (gateway_id, channel, p) ↦
            send_registered (record r { pending = p })
              (record {
                gateway_id = gateway_id;
                channel = channel;
                request_id = request_id;
                target = target;
              })
              expiry payload watcher
      ]

  -- `nextRequestID`, and the encoding of the request.
  unfoldable pub prepare_request :
      Relay
      → String
      → ResolvedTarget
      → String
      → String
      → ℕ
      → (ℕ → Option String)
      → Watcher
      → Outcome Started
  unfolding register_request
  prepare_request r session_id target method params expiry random watcher =
      let next = (r.ids + 1) % 2 ^ 64 in
      let request_id = codec.format_int next in
      elim (codec.encode_request (record { id = request_id; method = method; params = params })) [
        | none ↦ (err invalid_response, record r { ids = next })
        | some payload ↦
            register_request (record r { ids = next }) session_id target request_id expiry payload
              random watcher
      ]

  unfoldable pub start_call :
      Relay → String → Grant → String → String → ℕ → (ℕ → Option String) → Watcher → Outcome Started
  unfolding prepare_request
  start_call r session_id grant method params expiry random watcher =
      if session_id == "" then (err invalid_request, r) else elim (resolve_target r grant) [
        | err e ↦ (err e, r)
        | ok target ↦ prepare_request r session_id target method params expiry random watcher
      ]
