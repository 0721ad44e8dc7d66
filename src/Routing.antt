-- ===== src/Routing.antt =====
-- internal/routing/resolver.go: the pure targeting policy. The sentinel errors are the constructors
-- of `Error`; the identifiers that the source wraps into the message are left out.
pub mod Laws
mod Tests
use roblox_mcp_gateway.Prelude.{
  ℕ, String, Bool, true, false, not, ◌&&◌, List, [], ◌∷◌, Option, none, some, Except, ok, err, ◌==◌,
  string_comparable, if◌then◌else◌,
}

pub data Error : Type 0 where
  device_offline ambiguous_studio cross_device_studio studio_not_allowed studio_offline : Error

pub record GrantTarget : Type 0 where
  pub device_id : String
  pub studio_id : String

pub record RequestTarget : Type 0 where
  pub studio_id : String

pub record Studio : Type 0 where
  pub studio_id : String
  pub device_id : String

pub record ResolvedTarget : Type 0 where
  pub device_id : String
  pub studio_id : String

-- The loop that keeps the Studios of one device.
unfoldable pub on_device : String → List Studio → List Studio
on_device d [] = []
on_device d (s ∷ online) = if s.device_id == d then s ∷ on_device d online else on_device d online

unfoldable pub find_studio : List Studio → String → Option Studio
find_studio [] id = none
find_studio (s ∷ studios) id = if s.studio_id == id then some s else find_studio studios id

-- The `switch` on the number of candidates.
unfoldable pub sole : String → List Studio → Except Error ResolvedTarget
sole d [] = err device_offline
sole d (s ∷ []) = ok (record { device_id = d; studio_id = s.studio_id })
sole d (s ∷ t ∷ rest) = err ambiguous_studio

-- The branch for a named Studio: on the device, elsewhere, or not online.
unfoldable pub named : String → List Studio → String → Except Error ResolvedTarget
named d online want = elim (find_studio (on_device d online) want) [
  | some s ↦ ok (record { device_id = d; studio_id = want })
  | none ↦ elim (find_studio online want) [
    | some s ↦ err cross_device_studio
    | none ↦ err studio_offline
  ]
]

unfoldable pub resolve : GrantTarget → RequestTarget → List Studio → Except Error ResolvedTarget
unfolding sole named on_device find_studio
resolve grant request online =
    let want = if request.studio_id == "" then grant.studio_id else request.studio_id in
    if grant.device_id == ""
    then err device_offline
    else if not (want == "")
    then (if not (request.studio_id == "")
          && not (grant.studio_id == "")
          && not (request.studio_id == grant.studio_id)
        then err studio_not_allowed
        else named grant.device_id online want)
    else sole grant.device_id (on_device grant.device_id online)
