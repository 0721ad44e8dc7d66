-- ===== src/Status/Reach.antt =====
-- What a Bridge has been through when it reports that it is connected (internal/statusui/state.go).
use roblox_mcp_gateway.Prelude.{
  Bool, true, false, ◌&&◌, ◌||◌, ◌≡◌, refl, List, [], ◌∷◌, Except, ok, err, arith,
}
use roblox_mcp_gateway.Status.{
  State, Error, connecting, mcp_starting, studio_detecting, fatal, Readiness, new_machine,
  is_connected, is_studio_detecting, follows, allowed_transition, transition, mark_ready,
}

-- A call of the machine.
pub data Call : Type 0 where
  move : State → Call
  ready : Readiness → Call

unfoldable pub attempt : State → Call → Except Error State
attempt m (move to) = transition m to
attempt m (ready r) = mark_ready m r

-- A call that is refused leaves the state.
abbrev pub settle : State → Except Error State → State
settle m (ok n) = n
settle m (err e) = m

abbrev pub step : State → Call → State
step m c = settle m (attempt m c)

abbrev pub run : State → List Call → State
run m [] = m
run m (c ∷ calls) = run (step m c) calls

abbrev pub is_connecting : State → Bool
is_connecting connecting = true
is_connecting _ = false

abbrev pub is_mcp_starting : State → Bool
is_mcp_starting mcp_starting = true
is_mcp_starting _ = false

-- A state of a run, the first one and the last one included, has a property.
abbrev pub saw : (State → Bool) → State → List Call → Bool
saw p m [] = p m
saw p m (c ∷ calls) = p m || saw p (step m c) calls

-- A stage that is entered only from another has the other before it.
saw-before :
    (p q : State → Bool)
    → ((m : State) (c : Call) → p (step m c) ≡ true → (p m || q m) ≡ true)
    → (m : State) (calls : List Call) → saw p m calls ≡ true
    → (p m || saw q m calls) ≡ true
saw-before p q back m [] h = ground arith
saw-before p q back m (c ∷ calls) h = ground (arith, saw-before p q back (step m c) calls, back m c)

run-saw :
    (p : State → Bool) (m : State) (calls : List Call)
    → p (run m calls) ≡ true
    → saw p m calls ≡ true
run-saw p m [] h = h
run-saw p m (c ∷ calls) h = ground (arith, run-saw p (step m c) calls)

connected-back :
    (m : State) (c : Call)
    → is_connected (step m c) ≡ true
    → (is_connected m || is_studio_detecting m) ≡ true
unfolding attempt transition mark_ready
connected-back m (move to) h = ground arith
connected-back m (ready r) h = ground arith

-- The stages that `allowedTransition` asks for.
follows-studio : (m : State) → follows m studio_detecting ≡ true → is_mcp_starting m ≡ true
follows-studio mcp_starting h = refl
follows-studio m h = cc

follows-mcp : (m : State) → follows m mcp_starting ≡ true → is_connecting m ≡ true
follows-mcp connecting h = refl
follows-mcp m h = cc

studio-back :
    (m : State) (c : Call)
    → is_studio_detecting (step m c) ≡ true
    → (is_studio_detecting m || is_mcp_starting m) ≡ true
unfolding attempt transition mark_ready allowed_transition
studio-back m (move studio_detecting) h = ground (arith, follows-studio m)
studio-back m (move to) h = ground arith
studio-back m (ready r) h = ground arith

mcp-back :
    (m : State) (c : Call)
    → is_mcp_starting (step m c) ≡ true
    → (is_mcp_starting m || is_connecting m) ≡ true
unfolding attempt transition mark_ready allowed_transition
mcp-back m (move mcp_starting) h = ground (arith, follows-mcp m)
mcp-back m (move to) h = ground arith
mcp-back m (ready r) h = ground arith

fatal-step : (c : Call) → step fatal c ≡ fatal
unfolding attempt transition mark_ready allowed_transition
fatal-step (move to) = ground arith
fatal-step (ready r) = refl

-- A call that reports both dependencies as ready.
abbrev pub is_ready_call : Call → Bool
is_ready_call (move to) = false
is_ready_call (ready r) = r.gateway && r.mcp

abbrev pub any_call : (Call → Bool) → List Call → Bool
any_call p [] = false
any_call p (c ∷ calls) = p c || any_call p calls

connected-ready :
    (m : State) (c : Call)
    → is_connected (step m c) ≡ true
    → (is_connected m || is_ready_call c) ≡ true
unfolding attempt transition mark_ready
connected-ready m (move to) h = ground arith
connected-ready m (ready r) h = ground arith

run-ready :
    (m : State) (calls : List Call)
    → is_connected (run m calls) ≡ true
    → (is_connected m || any_call is_ready_call calls) ≡ true
run-ready m [] h = ground arith
run-ready m (c ∷ calls) h = ground (arith, run-ready (step m c) calls, connected-ready m c)

-- A machine that any sequence of calls has brought from its start to `connected` has been connecting, has
-- started the MCP and has detected Studio, and a call reported both gateway and MCP as ready.
pub connected-stages :
    (calls : List Call)
    → is_connected (run new_machine calls) ≡ true
    → (saw is_connecting new_machine calls ≡ true)
      × (saw is_mcp_starting new_machine calls ≡ true)
      × (saw is_studio_detecting new_machine calls ≡ true)
      × (any_call is_ready_call calls ≡ true)
connected-stages calls h = ground (
  arith,
  run-saw is_connected new_machine calls h,
  saw-before is_connected is_studio_detecting connected-back new_machine calls,
  saw-before is_studio_detecting is_mcp_starting studio-back new_machine calls,
  saw-before is_mcp_starting is_connecting mcp-back new_machine calls,
  run-ready new_machine calls h,
)

-- No sequence of calls leaves the fatal state.
pub fatal-final : (calls : List Call) → run fatal calls ≡ fatal
fatal-final [] = refl
fatal-final (c ∷ calls) = ground (arith, fatal-step c, fatal-final calls)
