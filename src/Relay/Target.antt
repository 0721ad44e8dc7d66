-- ===== src/Relay/Target.antt =====
-- Where internal/mcpgateway/relay.go's `resolveTarget` sends a grant's request, with the policy of
-- internal/routing that it calls.
use roblox_mcp_gateway.Prelude.{
  ◌≡◌, ◌≢◌, ◌↔◌, ◌⊎◌, true, not, ◌||◌, ◌&&◌, ◌==◌, string_comparable, if◌then◌else◌, Except, ok,
  err, pos, is_nat, is_nat_iff, arith, eq_iff, eq_self,
}
use roblox_mcp_gateway.Oauth.{Grant}
use roblox_mcp_gateway.Routing
use roblox_mcp_gateway.Routing.{ResolvedTarget}
use roblox_mcp_gateway.Relay.{
  Error, device_gone, ambiguous_target, DeviceSnapshot, Relay, snapshot, online_studios,
  or_target_error, resolve_target,
}

-- The device's last status has its Studio MCP ready with some Studio open.
abbrev pub IsServing : Relay → Grant → Type 0
IsServing r grant =
    (grant.device_id ≢ "")
    × ((snapshot r grant.device_id).ready ≡ true)
    × ((snapshot r grant.device_id).studio_count ≢ pos 0)

-- The meaning of each outcome.
abbrev pub Means : Relay → Grant → Except Error ResolvedTarget → Type 0
Means r grant (ok t) =
    IsServing r grant
    × (t.device_id ≡ grant.device_id)
    × (t.studio_id ≡ grant.studio_session_id)
    × ((grant.studio_session_id ≢ "") ⊎ ((snapshot r grant.device_id).studio_count ≡ pos 1))
Means r grant (err e) =
    ((e ≡ ambiguous_target)
      × IsServing r grant
      × (grant.studio_session_id ≡ "")
      × ((snapshot r grant.device_id).studio_count ≢ pos 1))
    ⊎ ((e ≡ device_gone) × (¬ IsServing r grant))

-- The policy, on the Studios that stand for the snapshot.
resolved :
    (grant : Grant) (s : DeviceSnapshot)
    → grant.device_id ≢ ""
    → or_target_error (
        Routing.resolve
          (record { device_id = grant.device_id; studio_id = grant.studio_session_id })
          (record { studio_id = "" })
          (online_studios grant s))
      ≡ (if grant.studio_session_id == "" && not (is_nat s.studio_count 1)
          then err ambiguous_target
          else ok (record { device_id = grant.device_id; studio_id = grant.studio_session_id }))
unfolding online_studios Routing.resolve Routing.named Routing.sole Routing.on_device
    Routing.find_studio
resolved grant s h = ground (
  arith,
  eq_iff grant.device_id "",
  eq_iff grant.studio_session_id "",
  eq_self grant.device_id,
  eq_self grant.studio_session_id,
)

decided :
    (r : Relay) (grant : Grant)
    → resolve_target r grant ≡ (
        if grant.device_id == ""
          || not (snapshot r grant.device_id).ready
          || is_nat (snapshot r grant.device_id).studio_count 0
        then err device_gone
        else if grant.studio_session_id == ""
            && not (is_nat (snapshot r grant.device_id).studio_count 1)
        then err ambiguous_target
        else ok (record { device_id = grant.device_id; studio_id = grant.studio_session_id }))
unfolding resolve_target
decided r grant =
    ground (arith, resolved grant (snapshot r grant.device_id), eq_iff grant.device_id "")

-- A request goes to the grant's own device, and to the Studio that the grant is bound to or, unbound,
-- to the only open one; it is ambiguous just when the device serves, the grant is unbound and the
-- number of open Studios is not one; otherwise the device is gone. There is no other outcome.
pub resolve_target_iff :
    (r : Relay) (grant : Grant) (x : Except Error ResolvedTarget)
    → (resolve_target r grant ≡ x) ↔ Means r grant x
resolve_target_iff r grant (ok t) = ground (
  arith,
  decided r grant,
  eq_iff grant.device_id "",
  eq_iff grant.studio_session_id "",
  is_nat_iff (snapshot r grant.device_id).studio_count 0,
  is_nat_iff (snapshot r grant.device_id).studio_count 1,
)
resolve_target_iff r grant (err e) = ground (
  arith,
  decided r grant,
  eq_iff grant.device_id "",
  eq_iff grant.studio_session_id "",
  is_nat_iff (snapshot r grant.device_id).studio_count 0,
  is_nat_iff (snapshot r grant.device_id).studio_count 1,
)
