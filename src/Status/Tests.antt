-- ===== src/Status/Tests.antt =====
-- A run of the lifecycle machine, and the theorems on it.
use roblox_mcp_gateway.Prelude.{◌≡◌, refl, true, false, List, [], ◌∷◌}
use roblox_mcp_gateway.Status.{
  connecting, mcp_starting, studio_detecting, connected, fatal, Readiness, new_machine,
  is_studio_detecting, allowed_transition, transition, mark_ready,
}
use roblox_mcp_gateway.Status.Reach.{
  Call, move, ready, attempt, run, is_connecting, is_mcp_starting, saw, is_ready_call, any_call,
  connected-stages, fatal-final,
}

abbrev both : Readiness
both = record { gateway = true; mcp = true }

abbrev startup : List Call
startup =
    move connecting
    ∷ move mcp_starting
    ∷ move studio_detecting
    ∷ ready (record both { mcp = false })
    ∷ move connected
    ∷ ready both
    ∷ []

reaches : run new_machine startup ≡ connected
unfolding attempt transition mark_ready allowed_transition
reaches = refl

connected-stages_example :
    (saw is_connecting new_machine startup ≡ true)
    × (saw is_mcp_starting new_machine startup ≡ true)
    × (saw is_studio_detecting new_machine startup ≡ true)
    × (any_call is_ready_call startup ≡ true)
unfolding attempt transition mark_ready allowed_transition
connected-stages_example = connected-stages startup refl

fatal-final_example : run fatal startup ≡ fatal
fatal-final_example = fatal-final startup
