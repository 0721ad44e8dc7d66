-- ===== src/Relay/Abandoned.antt =====
-- A call of internal/mcpgateway/relay.go that fails before it waits, and the goroutine that it has
-- started to watch the connection.
use roblox_mcp_gateway.Prelude.{
  ℕ, ◌+◌, ◌%◌, ◌^◌, String, ◌≡◌, ◌≢◌, ◌⊎◌, refl, subst, inl, inr, Bool, true, [], List, Option,
  some, ok, err, ◌==◌, string_comparable, arith, Option-cases, Except-cases, Bool-cases,
}
use roblox_mcp_gateway.Prelude.Map.{lookup}
use roblox_mcp_gateway.Pending
use roblox_mcp_gateway.Pending.{Pending, Result, resolve, fail_device}
use roblox_mcp_gateway.Pending.Schedule.{System, Event, run, start}
use roblox_mcp_gateway.Pending.Once.{Good, start-Good, run-Good}
use roblox_mcp_gateway.Pending.Fresh.{given_up, associated-given_up}
use roblox_mcp_gateway.Pending.Failed.{Spares, failed-given_up, given_up-failed}
use roblox_mcp_gateway.Hub
use roblox_mcp_gateway.Oauth.{Grant}
use roblox_mcp_gateway.Routing.{ResolvedTarget}
use roblox_mcp_gateway.Relay.{Error, device_gone, Relay, resolve_target}
use roblox_mcp_gateway.Relay.Target.{resolve_target_iff}
use roblox_mcp_gateway.Relay.Call.{
  Codec, encode_envelope, Started, Watcher, idle, ahead, behind, is_done, watch, give_up,
  give_up_watched, after_send, deliver_request, send_registered, register_request, prepare_request,
  start_call, gone, invalid, request_envelope,
}

abbrev lost : Option Pending.Error
lost = some Pending.device_failed

-- The ways in which the pending requests change when a request to the device is given up.
abbrev GivesUp : Watcher → Bool → Pending → String → String → Result → Pending → Type 0
GivesUp watcher done p device gateway_id result q =
    (q ≡ (resolve p gateway_id result).0)
    ⊎ ((watcher ≢ idle)
        × (done ≡ true)
        × ((q ≡ (resolve (fail_device p device lost) gateway_id result).0)
            ⊎ (q ≡ fail_device (resolve p gateway_id result).0 device lost)))

idle-ahead : ahead ≢ idle
idle-ahead h = absurd (ground arith)

idle-behind : behind ≢ idle
idle-behind h = absurd (ground arith)

give_up_watched-GivesUp :
    (A : Type 0) (watcher : Watcher) (r : Relay) (conn : ℕ) (device gateway_id : String)
    (result : Result) (e : Error)
    → let after = (give_up_watched {A = A} watcher r conn device gateway_id result e).1 in
      (after.registry ≡ r.registry)
      × GivesUp watcher (is_done r.registry conn) r.pending device gateway_id result after.pending
unfolding give_up_watched give_up watch
give_up_watched-GivesUp A idle r conn device gateway_id result e = (refl, inl refl)
give_up_watched-GivesUp A ahead r conn device gateway_id result e =
    elim (Bool-cases (is_done r.registry conn)) [
      | inl done ↦ rw done (refl, inr (idle-ahead, refl, inl refl))
      | inr live ↦ rw live (refl, inl refl)
    ]
give_up_watched-GivesUp A behind r conn device gateway_id result e =
    elim (Bool-cases (is_done r.registry conn)) [
      | inl done ↦ rw done (refl, inr (idle-behind, refl, inr refl))
      | inr live ↦ rw live (refl, inl refl)
    ]

-- The device's connection is closed.
abbrev pub IsCut : Relay → String → Relay → Type 0
IsCut r device after =
    (conn : ℕ) × (Hub.get r.registry device ≡ some conn) × (is_done after.registry conn ≡ true)

-- What a call that fails before it waits does to the pending requests: nothing; or, if the goroutine
-- that watches the device's connection finds it closed, exactly those of other devices are left.
abbrev pub Abandons : Relay → String → Watcher → Relay → Type 0
Abandons r device watcher after =
    ((j : String) → lookup j after.pending.entries ≡ lookup j r.pending.entries)
    ⊎ ((watcher ≢ idle) × IsCut r device after × Spares device r.pending after.pending)

module _ (codec : Codec) (expiry : ℕ) (watcher : Watcher) where
  deliver_request-err :
      (r : Relay) (call : Started) (payload : String) (e : Error)
      → let after = (deliver_request codec r call expiry payload watcher).1 in
        let p = r.pending in
        let device = call.target.device_id in
        let id = call.gateway_id in
        (deliver_request codec r call expiry payload watcher).0 ≡ err e
        → (after.pending ≡ (resolve p id gone).0)
          ⊎ ((watcher ≢ idle)
              × IsCut r device after
              × ((after.pending ≡ (resolve (fail_device p device lost) id gone).0)
                  ⊎ (after.pending ≡ fail_device (resolve p id gone).0 device lost)))
  unfolding deliver_request after_send give_up
  deliver_request-err r call payload e h =
      elim (Option-cases (Hub.get r.registry call.target.device_id)) [
        | inl n ↦ inl (ground arith)
        | inr (conn, g) ↦
            let sent =
              Hub.send (encode_envelope codec) r.registry call.target.device_id
                (request_envelope call.target call.gateway_id expiry payload) in
            elim (Except-cases sent.0) [
              | inl (u, s) ↦ absurd (ground arith)
              | inr (f, s) ↦ ground (
                arith,
                give_up_watched-GivesUp Started watcher (record r { registry = sent.1 }) conn
                    call.target.device_id call.gateway_id gone device_gone,
              )
            ]
      ]

  module _ (r : Relay) (random : ℕ → Option String)
      (good : Good (record { pending = r.pending; jobs = [] })) where
    register_request-err :
        (session_id : String) (target : ResolvedTarget) (request_id payload : String) (e : Error)
        → (register_request codec r session_id target request_id expiry payload random watcher).0
          ≡ err e
        → Abandons r target.device_id watcher
            (register_request codec r session_id target request_id expiry payload random watcher).1
    unfolding register_request send_registered give_up
    register_request-err session_id target request_id payload e h =
        elim (Except-cases (Pending.register r.pending session_id request_id random)) [
          | inr (f, n) ↦ inl (λ j. ground arith)
          | inl ((gateway_id, channel, p), n) ↦
              elim (Except-cases (Pending.associate p gateway_id target.device_id)) [
                | inr (f, m) ↦ inl (λ j. ground (
                  arith,
                  given_up r.pending p session_id request_id gateway_id j channel random invalid n,
                ))
                | inl (q, m) ↦
                    let made : Started = record {
                      gateway_id = gateway_id;
                      channel = channel;
                      request_id = request_id;
                      target = target;
                    } in
                    let s : System = record { pending = r.pending; jobs = [] } in
                    let x =
                      deliver_request codec (record r { pending = q }) made expiry payload
                        watcher in
                    let same : register_request codec r session_id target request_id expiry payload
                          random watcher
                        ≡ x =
                      ground arith in
                    rw same
                      (elim (deliver_request-err (record r { pending = q }) made payload e
                        (ground arith)) [
                          | inl only ↦ inl (λ j. ground (
                            arith,
                            associated-given_up r.pending p q session_id request_id gateway_id
                                target.device_id j channel random gone n m,
                          ))
                          | inr (awake, cut, inl first) ↦ inr (
                            awake,
                            cut,
                            rw first (
                                failed-given_up s good refl session_id request_id gateway_id
                                  target.device_id channel random p q n m gone lost),
                          )
                          | inr (awake, cut, inr last) ↦ inr (
                            awake,
                            cut,
                            rw last (
                                given_up-failed s good refl session_id request_id gateway_id
                                  target.device_id channel random p q n m gone lost),
                          )
                        ])
              ]
        ]

-- A call that returns an error before it waits, in a reachable state in which no `CancelSession` and no
-- `FailDevice` is half way through, has left the pending requests as they were: what it had registered,
-- it has completed itself. The one exception is that the device's connection is closed by then and the
-- call's goroutine has seen that: it has completed the requests of that device, and only those.
pub start_call-Abandons :
    (m : ℕ) (es : List Event) (codec : Codec) (r : Relay) (session_id : String) (grant : Grant)
    (method params : String) (expiry : ℕ) (random : ℕ → Option String) (watcher : Watcher)
    (e : Error)
    → run (start m) es ≡ record { pending = r.pending; jobs = [] }
    → (start_call codec r session_id grant method params expiry random watcher).0 ≡ err e
    → Abandons r grant.device_id watcher
        (start_call codec r session_id grant method params expiry random watcher).1
unfolding start_call prepare_request
start_call-Abandons m es codec r session_id grant method params expiry random watcher e reached h =
    let next = (r.ids + 1) % 2 ^ 64 in
    let id : String = codec.format_int next in
    let good : Good (record { pending = r.pending; jobs = [] }) =
      subst Good reached (run-Good (start m) es (start-Good m)) in
    elim (Except-cases (resolve_target r grant)) [
      | inr (x, f) ↦ inl (λ j. ground arith)
      | inl (target, f) ↦
          elim (Option-cases
            (codec.encode_request (record { id = id; method = method; params = params }))) [
              | inl n ↦ inl (λ j. ground arith)
              | inr (payload, n) ↦ elim (Bool-cases (session_id == "")) [
                | inl nobody ↦ inl (λ j. ground arith)
                | inr somebody ↦
                    let x =
                      register_request codec (record r { ids = next }) session_id target id expiry
                        payload random watcher in
                    let same : start_call codec r session_id grant method params expiry random
                          watcher
                        ≡ x =
                      ground arith in
                    let (_, device, _, _) = (resolve_target_iff r grant (ok target)).0 f in
                    rw (same, ← device)
                      (register_request-err codec expiry watcher (record r { ids = next }) random
                        good session_id target id payload e (ground arith))
              ]
            ]
    ]
