-- ===== src/Entitlement/Sound.antt =====
-- Every sequence of the transactions of internal/mysqlstore/entitlement_store.go keeps the store sound.
use roblox_mcp_gateway.Prelude.{
  String, List, [], ◌∷◌, Option, nat_comparable, string_comparable, arith,
}
use roblox_mcp_gateway.Entitlement.{Store, ensure_user}
use roblox_mcp_gateway.Entitlement.Licenses.{recover_identity, create_device}
use roblox_mcp_gateway.Entitlement.Invariant.{
  Op, bind_first, extend, transfer, recover, license, device, slot, revoke, apply, run, IsSound,
  Same-IsSound,
}
use roblox_mcp_gateway.Entitlement.TrialSound.{bind_first-IsSound, extend-IsSound}
use roblox_mcp_gateway.Entitlement.SlotSound.{
  transfer-IsSound, bind_slot-IsSound, create_license-IsSound, revoke-IsSound,
}

pub apply-IsSound :
    (decode : String → Option String) (s : Store) (o : Op) → IsSound s → IsSound (apply decode s o)
unfolding apply recover_identity create_device ensure_user
apply-IsSound decode s (bind_first input draw now) sound =
    bind_first-IsSound decode s input draw now sound
apply-IsSound decode s (extend actor id ends_at reason) sound =
    extend-IsSound s actor id ends_at reason sound
apply-IsSound decode s (transfer license_id old_id new_id reason id) sound =
    transfer-IsSound s license_id old_id new_id reason id sound
apply-IsSound decode s (recover user_id reason evidence id now) sound =
    Same-IsSound s _ (ground arith) sound
apply-IsSound decode s (license user_id identity slots id) sound =
    create_license-IsSound s user_id identity slots id sound
apply-IsSound decode s (device user_id id name) sound = Same-IsSound s _ (ground arith) sound
apply-IsSound decode s (slot license_id device_id id) sound =
    bind_slot-IsSound s license_id device_id id sound
apply-IsSound decode s (revoke id) sound = revoke-IsSound s id sound

-- From a store that is sound, every sequence of transactions leads to stores in which each user and
-- each Roblox subject has had at most one trial, and no more devices are bound to a license than it has
-- slots, bindings of revoked devices included.
pub run-IsSound :
    (decode : String → Option String) (s : Store) (ops : List Op)
    → IsSound s
    → IsSound (run decode s ops)
run-IsSound decode s [] sound = sound
run-IsSound decode s (o ∷ ops) sound =
    run-IsSound decode (apply decode s o) ops (apply-IsSound decode s o sound)
