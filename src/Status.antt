-- ===== src/Status.antt =====
-- The Bridge's lifecycle: internal/statusui/state.go. A machine is its state; the nil machine is left out.
pub mod Reach
mod Tests
use roblox_mcp_gateway.Prelude.{
  Bool, true, false, not, ◌&&◌, ◌||◌, String, Except, ok, err, if◌then◌else◌,
}

pub data State : Type 0 where
  initializing enrollment_required authenticating connecting mcp_starting studio_detecting : State
  connected reconnecting degraded fatal : State
  unknown : String → State

-- The refusals of `Transition` and `MarkReady`, in the order in which they are tested.
pub data Error : Type 0 where
  needs_readiness unknown_state illegal_transition wrong_state not_ready : Error

pub record Readiness : Type 0 where
  pub gateway : Bool
  pub mcp : Bool

abbrev pub new_machine : State
new_machine = initializing

abbrev pub known_state : State → Bool
known_state (unknown name) = false
known_state initializing = true
known_state enrollment_required = true
known_state authenticating = true
known_state connecting = true
known_state mcp_starting = true
known_state studio_detecting = true
known_state connected = true
known_state reconnecting = true
known_state degraded = true
known_state fatal = true

abbrev pub is_fatal : State → Bool
is_fatal fatal = true
is_fatal _ = false

abbrev pub is_connected : State → Bool
is_connected connected = true
is_connected _ = false

-- The switch of `allowedTransition`, on the state that is left and on the one that is entered.
abbrev pub follows : State → State → Bool
follows initializing enrollment_required = true
follows initializing authenticating = true
follows initializing connecting = true
follows enrollment_required authenticating = true
follows authenticating connecting = true
follows connecting mcp_starting = true
follows connecting reconnecting = true
follows connecting degraded = true
follows mcp_starting studio_detecting = true
follows mcp_starting reconnecting = true
follows mcp_starting degraded = true
follows studio_detecting reconnecting = true
follows studio_detecting degraded = true
follows connected reconnecting = true
follows connected degraded = true
follows reconnecting connecting = true
follows reconnecting degraded = true
follows degraded reconnecting = true
follows degraded connecting = true
follows _ _ = false

unfoldable pub allowed_transition : State → State → Bool
allowed_transition from to = if is_fatal to then not (is_fatal from) else follows from to

unfoldable pub transition : State → State → Except Error State
unfolding allowed_transition
transition m to =
    if is_connected to
    then err needs_readiness
    else if not (known_state to)
    then err unknown_state
    else if not (allowed_transition m to)
    then err illegal_transition
    else ok to

abbrev pub is_studio_detecting : State → Bool
is_studio_detecting studio_detecting = true
is_studio_detecting _ = false

unfoldable pub mark_ready : State → Readiness → Except Error State
mark_ready m r =
    if not (is_studio_detecting m)
    then err wrong_state
    else if not r.gateway || not r.mcp
    then err not_ready
    else ok connected
