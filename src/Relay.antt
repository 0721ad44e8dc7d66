-- ===== src/Relay.antt =====
-- The relay between connectors and Bridges: internal/mcpgateway/relay.go over the pending registry, the
-- Bridge connections and the routing policy. encoding/json is the record `Codec`; the random bytes of
-- the gateway ids are arguments. The metrics and the persistence of Studio sessions are left out.
pub mod Policy
pub mod Call
pub mod Finish
pub mod Tools
pub mod Target
pub mod Delivered
pub mod Abandoned
pub mod Answered
pub mod Denied
mod Tests
use roblox_mcp_gateway.Prelude.{
  ℕ, String, Bool, true, false, not, ◌&&◌, ◌||◌, List, [], ◌∷◌, Option, none, some, Except, ok, err,
  ◌==◌, string_comparable, if◌then◌else◌, ℤ, pos, negsuc, is_nat,
}
use roblox_mcp_gateway.Prelude.Map.{lookup, insert}
use roblox_mcp_gateway.Protocol.{MessageType, type_response, type_status, Envelope}
use roblox_mcp_gateway.Pending
use roblox_mcp_gateway.Pending.{Pending}
use roblox_mcp_gateway.Hub.{Registry}
use roblox_mcp_gateway.Oauth.{Grant}
use roblox_mcp_gateway.Routing
use roblox_mcp_gateway.Routing.{ResolvedTarget}

-- The sentinels of relay.go, and those of errors.go that a call returns.
pub data Error : Type 0 where
  device_gone studio_unavailable ambiguous_target deadline busy invalid_response : Error
  cancelled device_failed invalid_request : Error

pub record DeviceSnapshot : Type 0 where
  pub ready : Bool
  pub studio_count : ℤ

-- `ids` is the counter of the JSON-RPC ids, a 64-bit number.
pub record Relay : Type 0 where
  pub registry : Registry
  pub pending : Pending
  pub ids : ℕ
  pub statuses : List (String × DeviceSnapshot)

-- A missing key reads as the zero value.
unfoldable pub snapshot : Relay → String → DeviceSnapshot
unfolding lookup
snapshot r device_id = elim (lookup device_id r.statuses) [
  | none ↦ record { ready = false; studio_count = pos 0 }
  | some s ↦ s
]

-- `applyStatus`, on the fields `mcp_ready` and `studio_count` of the payload, `none` if it has no such.
unfoldable pub apply_status : Relay → String → Option DeviceSnapshot → Relay
unfolding insert
apply_status r device_id none = record r {
  statuses = insert device_id (record { ready = false; studio_count = pos 0 }) r.statuses;
}
apply_status r device_id (some s) = record r { statuses = insert device_id s r.statuses }

-- The Studios that the snapshot stands for.
unfoldable pub online_studios : Grant → DeviceSnapshot → List Routing.Studio
online_studios grant s =
    if not (grant.studio_session_id == "")
    then record { studio_id = grant.studio_session_id; device_id = grant.device_id } ∷ []
    else if is_nat s.studio_count 1
    then record { studio_id = ""; device_id = grant.device_id } ∷ []
    else record { studio_id = "studio-candidate-a"; device_id = grant.device_id }
      ∷ record { studio_id = "studio-candidate-b"; device_id = grant.device_id }
      ∷ []

-- The switch on the error of `routing.Resolve`.
abbrev pub target_error : Routing.Error → Error
target_error Routing.ambiguous_studio = ambiguous_target
target_error Routing.studio_offline = studio_unavailable
target_error Routing.device_offline = device_gone
target_error Routing.cross_device_studio = device_gone
target_error Routing.studio_not_allowed = device_gone

abbrev pub or_target_error : Except Routing.Error ResolvedTarget → Except Error ResolvedTarget
or_target_error (ok t) = ok t
or_target_error (err e) = err (target_error e)

unfoldable pub resolve_target : Relay → Grant → Except Error ResolvedTarget
unfolding snapshot online_studios
resolve_target r grant =
    let s = snapshot r grant.device_id in
    if grant.device_id == ""
    then err device_gone
    else if not s.ready || is_nat s.studio_count 0
    then err device_gone
    else or_target_error (
        Routing.resolve
          (record { device_id = grant.device_id; studio_id = grant.studio_session_id })
          (record { studio_id = "" }) (online_studios grant s))

-- `HandleEnvelope`, with the decoding of a status payload as argument. A late or a second response
-- finds no request and is dropped.
unfoldable pub handle_envelope :
    (String → Option DeviceSnapshot) → Relay → String → Envelope → Relay
unfolding apply_status
handle_envelope decode_status r device_id env = elim env.type [
  | type_response ↦ record r {
    pending =
        (Pending.resolve r.pending env.gateway_request_id
          (record { payload = env.payload; cause = none })).0;
  }
  | type_status ↦ apply_status r device_id (decode_status env.payload)
  | _ ↦ r
]
