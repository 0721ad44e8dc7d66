-- ===== src/Relay/Denied.antt =====
-- Which tools the handlers of internal/mcpgateway/server.go let a grant call.
use roblox_mcp_gateway.Prelude.{
  ℕ, String, ◌≡◌, ◌≢◌, ◌↔◌, ◌⊎◌, refl, inl, inr, true, false, List, [], ◌∷◌, Any, Option, Except,
  ok, err, string_comparable, arith, eq_iff, Bool-cases,
}
use roblox_mcp_gateway.Access.Gateway.{SessionInvalid, Principal}
use roblox_mcp_gateway.Relay.{
  Error, device_gone, studio_unavailable, ambiguous_target, deadline, busy, invalid_response,
  cancelled, device_failed, invalid_request, Relay,
}
use roblox_mcp_gateway.Relay.Policy.{scope_connect, tool_scope, scope_allowed, is_refused}
use roblox_mcp_gateway.Relay.Call.{Codec, Started, Watcher, start_call}
use roblox_mcp_gateway.Relay.Delivered.{IsDelivered, start_call-IsDelivered}
use roblox_mcp_gateway.Relay.Tools.{
  JsonRpcError, scope_denied_error, relay_error, method_call_tool, begin_tool_call, or_relay_error,
}

abbrev pub Holds : List String → String → Type 0
Holds granted scope = Any (λ s. s ≡ scope) granted

-- The grant has the connect scope, or the scope that the table maps the tool to.
abbrev pub IsAllowed : List String → String → Type 0
IsAllowed granted name = Holds granted scope_connect ⊎ Holds granted (tool_scope name)

scope_allowed_iff :
    (granted : List String) (scope : String)
    → (scope_allowed granted scope ≡ true) ↔ Holds granted scope
unfolding scope_allowed
scope_allowed_iff [] scope = ground arith
scope_allowed_iff (s ∷ granted) scope =
    ground (arith, eq_iff s scope, scope_allowed_iff granted scope)

is_refused_iff :
    (granted : List String) (name : String)
    → (is_refused granted (tool_scope name) ≡ false) ↔ IsAllowed granted name
unfolding is_refused
is_refused_iff granted name =
    ground
      (arith, scope_allowed_iff granted scope_connect, scope_allowed_iff granted (tool_scope name))

-- No failure of the relay is answered like a missing scope.
relay_error-other : (e : Error) → relay_error e ≢ scope_denied_error
unfolding relay_error
relay_error-other e h =
    elim e as (λ e. relay_error e ≡ scope_denied_error → ⊥) [
      | deadline ↦ λ k. ground arith
      | cancelled ↦ λ k. ground arith
      | ambiguous_target ↦ λ k. ground arith
      | studio_unavailable ↦ λ k. ground arith
      | device_failed ↦ λ k. ground arith
      | device_gone ↦ λ k. ground arith
      | busy ↦ λ k. ground arith
      | invalid_request ↦ λ k. ground arith
      | invalid_response ↦ λ k. ground arith
    ]
      h

or_relay_error-ok :
    {A : Type 0} (x : Except Error A × Relay) (a : A)
    → (or_relay_error x).0 ≡ ok a
    → (x.0 ≡ ok a) × ((or_relay_error x).1 ≡ x.1)
or_relay_error-ok (ok b, r) a h = ground arith
or_relay_error-ok (err e, r) a h = ground arith

or_relay_error-other :
    {A : Type 0} (x : Except Error A × Relay) → (or_relay_error x).0 ≢ err scope_denied_error
or_relay_error-other (ok b, r) h = absurd (ground arith)
or_relay_error-other (err e, r) h = relay_error-other e (ground arith)

module _ (codec : Codec) (r : Relay) (session_id : String) (expiry : ℕ) (random : ℕ → Option String)
    (watcher : Watcher) (name params : String) where
  -- The handler of a tool, on the outcome of the re-authorization.
  abbrev begun : Except SessionInvalid Principal → Except JsonRpcError Started × Relay
  begun auth = begin_tool_call codec r session_id expiry random watcher name auth params

  -- A tool call that reaches the wait has an authorized session, whose grant has the tool's scope or the
  -- connect scope, and its request is pending and delivered to the device and the Studio of that grant.
  pub admitted-IsDelivered :
      (auth : Except SessionInvalid Principal) (call : Started)
      → (begun auth).0 ≡ ok call
      → (p : Principal) × (auth ≡ ok p)
        × IsAllowed p.1.scopes name
        × IsDelivered codec r session_id p.1 method_call_tool params expiry call (begun auth).1
  unfolding begin_tool_call
  admitted-IsDelivered (err x) call h = absurd (ground arith)
  admitted-IsDelivered (ok p) call h = elim (Bool-cases (is_refused p.1.scopes (tool_scope name))) [
    | inl e ↦ absurd (ground arith)
    | inr e ↦
        let x = start_call codec r session_id p.1 method_call_tool params expiry random watcher in
        let h' : (or_relay_error x).0 ≡ ok call = ground arith in
        let (done, same) = or_relay_error-ok x call h' in
        (
          p,
          refl,
          (is_refused_iff p.1.scopes name).0 e,
          rw (e, same)
              (start_call-IsDelivered codec r session_id p.1 method_call_tool params expiry random
                watcher call done),
        )
  ]

  -- A tool call is answered as one of insufficient scope just when its session is authorized and the
  -- grant has neither the tool's scope nor the connect scope; the relay is then as it was.
  pub denied_iff :
      (auth : Except SessionInvalid Principal)
      → ((begun auth).0 ≡ err scope_denied_error)
        ↔ ((p : Principal) × (auth ≡ ok p) × (¬ IsAllowed p.1.scopes name) × ((begun auth).1 ≡ r))
  unfolding begin_tool_call
  denied_iff (err x) = (λ h. absurd (ground arith), λ h. absurd (ground arith))
  denied_iff (ok p) = elim (Bool-cases (is_refused p.1.scopes (tool_scope name))) [
    | inl e ↦ (
      λ h. (
        p,
        refl,
        λ allowed. ground (arith, (is_refused_iff p.1.scopes name).1 allowed),
        ground arith,
      ),
      λ h. ground arith,
    )
    | inr e ↦ (
      λ h. absurd (
          or_relay_error-other
            (start_call codec r session_id p.1 method_call_tool params expiry random watcher)
            (ground arith)),
      λ (q, same, refused, kept).
          absurd (refused (ground (arith, (is_refused_iff p.1.scopes name).0 e))),
    )
  ]
