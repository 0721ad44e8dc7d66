-- ===== src/Relay/Delivered.antt =====
-- What a call of internal/mcpgateway/relay.go has done once its request is delivered.
use roblox_mcp_gateway.Prelude.{
  ℕ, ◌+◌, ◌%◌, ◌^◌, String, ◌≡◌, inl, inr, [], ◌∷◌, ◌++◌, Option, none, some, Except, ok, ◌==◌,
  string_comparable, nat_comparable, if◌then◌else◌, arith, Option-cases, Except-cases, ap,
}
use roblox_mcp_gateway.Prelude.Map.{lookup}
use roblox_mcp_gateway.Protocol.{Envelope}
use roblox_mcp_gateway.Pending
use roblox_mcp_gateway.Pending.{Pending, Entry}
use roblox_mcp_gateway.Pending.Fresh.{registered-associated}
use roblox_mcp_gateway.Hub
use roblox_mcp_gateway.Hub.{Registry, Connection}
use roblox_mcp_gateway.Hub.Delivery.{send-ok}
use roblox_mcp_gateway.Oauth.{Grant}
use roblox_mcp_gateway.Routing.{ResolvedTarget}
use roblox_mcp_gateway.Relay.{Relay, resolve_target}
use roblox_mcp_gateway.Relay.Target.{IsServing, resolve_target_iff}
use roblox_mcp_gateway.Relay.Call.{
  Codec, encode_envelope, Started, Outcome, request_envelope, Watcher, give_up, after_send,
  deliver_request, send_registered, register_request, prepare_request, start_call,
}

module _ (codec : Codec) (r : Relay) (call : Started) (expiry : ℕ) (payload : String) where
  -- `registry.Send` of the request.
  abbrev pub delivery : Except Hub.Error (Unit {0}) × Registry
  delivery =
      Hub.send (encode_envelope codec) r.registry call.target.device_id
        (request_envelope call.target call.gateway_id expiry payload)

  module _ (watcher : Watcher) where
    deliver_request-ok :
        (done : Started)
        → (deliver_request codec r call expiry payload watcher).0 ≡ ok done
        → (done ≡ call)
          × (delivery.0 ≡ ok tt)
          × ((deliver_request codec r call expiry payload watcher).1
              ≡ record r { registry = delivery.1 })
    unfolding deliver_request after_send give_up
    deliver_request-ok done h = elim (Option-cases (Hub.get r.registry call.target.device_id)) [
      | inl n ↦ ground arith
      | inr (id, g) ↦ elim (Except-cases delivery.0) [
        | inl (u, e) ↦ ground arith
        | inr (e, f) ↦ ground arith
      ]
    ]

    send_registered-ok :
        (done : Started)
        → (send_registered codec r call expiry payload watcher).0 ≡ ok done
        → (q : Pending) × (Pending.associate r.pending call.gateway_id call.target.device_id ≡ ok q)
          × (done ≡ call)
          × (delivery.0 ≡ ok tt)
          × ((send_registered codec r call expiry payload watcher).1
              ≡ record r { pending = q; registry = delivery.1 })
    unfolding send_registered give_up
    send_registered-ok done h = ground arith

-- What `CallDetailed` has gone through when it starts to wait.
pub record Trail (codec : Codec) (r : Relay) (session_id : String) (grant : Grant)
    (method params : String) (expiry : ℕ) (random : ℕ → Option String) (call : Started)
    (after : Relay) : Type 0 where
  pub payload : String
  pub registered : Pending
  pub associated : Pending
  pub resolves : resolve_target r grant ≡ ok call.target
  pub names : call.request_id ≡ codec.format_int ((r.ids + 1) % 2 ^ 64)
  pub encodes :
      codec.encode_request (record { id = call.request_id; method = method; params = params })
      ≡ some payload
  pub registers :
      Pending.register r.pending session_id call.request_id random
      ≡ ok (call.gateway_id, call.channel, registered)
  pub associates :
      Pending.associate registered call.gateway_id call.target.device_id ≡ ok associated
  pub delivers : (delivery codec r call expiry payload).0 ≡ ok tt
  pub pending_is : after.pending ≡ associated
  pub registry_is : after.registry ≡ (delivery codec r call expiry payload).1

module _ (codec : Codec) (r : Relay) (session_id : String) (expiry : ℕ) (random : ℕ → Option String)
    (watcher : Watcher) where
  register_request-ok :
      (target : ResolvedTarget) (request_id payload : String) (call : Started)
      → (register_request codec r session_id target request_id expiry payload random watcher).0
        ≡ ok call
      → (p : Pending) × (q : Pending) × (Pending.register r.pending session_id request_id random
          ≡ ok (call.gateway_id, call.channel, p))
        × (Pending.associate p call.gateway_id call.target.device_id ≡ ok q)
        × (call.target ≡ target)
        × (call.request_id ≡ request_id)
        × ((delivery codec r call expiry payload).0 ≡ ok tt)
        × ((register_request codec r session_id target request_id expiry payload random watcher).1
            ≡ record r { pending = q; registry = (delivery codec r call expiry payload).1 })
  unfolding register_request
  register_request-ok target request_id payload call h =
      elim (Except-cases (Pending.register r.pending session_id request_id random)) [
        | inr (e, f) ↦ ground arith
        | inl ((gateway_id, channel, p), f) ↦
            let made : Started = record {
              gateway_id = gateway_id;
              channel = channel;
              request_id = request_id;
              target = target;
            } in
            let (q, a, same, sent, after) =
              send_registered-ok codec (record r { pending = p }) made expiry payload watcher call
                (ground arith) in
            (
              p,
              q,
              ground arith,
              ground arith,
              ap (λ c. c.target) same,
              ap (λ c. c.request_id) same,
              ground arith,
              ground arith,
            )
      ]

module _ (codec : Codec) (r : Relay) (session_id : String) (grant : Grant) (method params : String)
    (expiry : ℕ) (random : ℕ → Option String) (watcher : Watcher) where
  start_call-Trail :
      (call : Started)
      → (start_call codec r session_id grant method params expiry random watcher).0 ≡ ok call
      → Trail codec r session_id grant method params expiry random call
          (start_call codec r session_id grant method params expiry random watcher).1
  unfolding start_call prepare_request
  start_call-Trail call h =
      elim (Option-cases (
        codec.encode_request (record {
          id = codec.format_int ((r.ids + 1) % 2 ^ 64);
          method = method;
          params = params;
        }))) [
          | inl n ↦ ground arith
          | inr (payload, e) ↦ elim (Except-cases (resolve_target r grant)) [
            | inr (x, f) ↦ ground arith
            | inl (target, f) ↦
                let id : String = codec.format_int ((r.ids + 1) % 2 ^ 64) in
                let r' : Relay = record r { ids = (r.ids + 1) % 2 ^ 64 } in
                let rest : Outcome Started =
                  register_request codec r' session_id target id expiry payload random watcher in
                let same : start_call codec r session_id grant method params expiry random watcher
                    ≡ rest =
                  ground (arith) in
                let (p, q, registers, associates, goes, names, sent, after) =
                  register_request-ok codec r' session_id expiry random watcher target id payload
                    call (ground arith) in
                record {
                  payload = payload;
                  registered = p;
                  associated = q;
                  resolves = ground arith;
                  names = names;
                  encodes = ground arith;
                  registers = ground arith;
                  associates = associates;
                  delivers = sent;
                  pending_is = rw same (ap (λ x. x.pending) after);
                  registry_is = rw same (ap (λ x. x.registry) after);
                }
          ]
        ]

-- What the connector's request is, for the grant's device and Studio.
abbrev pub IsDelivered :
    Codec → Relay → String → Grant → String → String → ℕ → Started → Relay → Type 0
IsDelivered codec r session_id grant method params expiry call after =
    IsServing r grant
    × (call.target.device_id ≡ grant.device_id)
    × (call.target.studio_id ≡ grant.studio_session_id)
    × (lookup call.gateway_id after.pending.entries
        ≡ some (record {
          gateway_id = call.gateway_id;
          session_id = session_id;
          device_id = grant.device_id;
          original_id = call.request_id;
          channel = call.channel;
        }))
    × ((payload : String) × (message : String) × (id : ℕ) × (c : Connection) × (codec.encode_request
            (record { id = call.request_id; method = method; params = params })
          ≡ some payload)
        × (encode_envelope codec (request_envelope call.target call.gateway_id expiry payload)
            ≡ some message)
        × (Hub.get r.registry grant.device_id ≡ some id)
        × (lookup id r.registry.heap ≡ some c)
        × (c.closed ≡ none)
        × ((other : ℕ)
            → lookup other after.registry.heap ≡ (
                if id == other
                then some (record c { queue = c.queue ++ (message ∷ []) })
                else lookup other r.registry.heap)))

-- When a call starts to wait, the grant's device is serving; the request is pending under the call's
-- session and that device, with the call's own id and channel; and the envelope of exactly this request,
-- for the grant's device and Studio, is the last message of the device's open connection.
pub start_call-IsDelivered :
    (codec : Codec) (r : Relay) (session_id : String) (grant : Grant) (method params : String)
    (expiry : ℕ) (random : ℕ → Option String) (watcher : Watcher) (call : Started)
    → (start_call codec r session_id grant method params expiry random watcher).0 ≡ ok call
    → IsDelivered codec r session_id grant method params expiry call
        (start_call codec r session_id grant method params expiry random watcher).1
start_call-IsDelivered codec r session_id grant method params expiry random watcher call h =
    let t = start_call-Trail codec r session_id grant method params expiry random watcher call h in
    let (serving, device, studio, _) = (resolve_target_iff r grant (ok call.target)).0 t.resolves in
    let e : Envelope = request_envelope call.target call.gateway_id expiry t.payload in
    let (id, c, message, found, stored, text, is_open, _, queued, _) =
      send-ok (encode_envelope codec) r.registry call.target.device_id e t.delivers in
    (
      serving,
      device,
      studio,
      rw (t.pending_is, ← device)
          (registered-associated r.pending t.registered t.associated session_id call.request_id
            call.gateway_id call.target.device_id call.channel random t.registers t.associates),
      (
        t.payload,
        message,
        id,
        c,
        t.encodes,
        text,
        ground arith,
        stored,
        is_open,
        rw t.registry_is (queued),
      ),
    )
