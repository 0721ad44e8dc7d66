-- ===== src/Routing/Tests.antt =====
-- Runs of internal/routing's `Resolve`, and the policy's theorem at one of them.
use roblox_mcp_gateway.Prelude.{◌≡◌, refl, ◌↔◌, List, [], ◌∷◌, ok, err}
use roblox_mcp_gateway.Routing.{
  ambiguous_studio, cross_device_studio, studio_not_allowed, GrantTarget, RequestTarget, Studio,
  resolve,
}
use roblox_mcp_gateway.Routing.Laws.{Means, resolve_iff}

abbrev bound : GrantTarget
bound = record { device_id = "d1"; studio_id = "s1" }

abbrev unbound : GrantTarget
unbound = record { device_id = "d1"; studio_id = "" }

abbrev any : RequestTarget
any = record { studio_id = "" }

abbrev snapshot : List Studio
snapshot =
    record { studio_id = "s1"; device_id = "d1" }
    ∷ record { studio_id = "s2"; device_id = "d1" }
    ∷ record { studio_id = "s3"; device_id = "d2" }
    ∷ []

resolves :
    (resolve bound any snapshot ≡ ok (record { device_id = "d1"; studio_id = "s1" }))
    × (resolve unbound any snapshot ≡ err ambiguous_studio)
    × (resolve unbound (record { studio_id = "s3" }) snapshot ≡ err cross_device_studio)
    × (resolve bound (record { studio_id = "s2" }) snapshot ≡ err studio_not_allowed)
unfolding resolve
resolves = (refl, refl, refl, refl)

resolve_iff_example :
    (resolve bound any snapshot ≡ ok (record { device_id = "d1"; studio_id = "s1" }))
    ↔ Means bound any snapshot (ok (record { device_id = "d1"; studio_id = "s1" }))
resolve_iff_example =
    resolve_iff bound any snapshot (ok (record { device_id = "d1"; studio_id = "s1" }))
