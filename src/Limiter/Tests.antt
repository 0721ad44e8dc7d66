-- ===== src/Limiter/Tests.antt =====
-- Runs of the MCP limiter, and the theorems on them.
use roblox_mcp_gateway.Prelude.{ℕ, suc, ◌≤◌, String, ◌≡◌, refl, List, [], ◌∷◌}
use roblox_mcp_gateway.Prelude.Map.{lookup, insert, erase}
use roblox_mcp_gateway.Prelude.Set.{contains}
use roblox_mcp_gateway.Limiter.{
  Config, Limiter, new_limiter, sweep, swept, count_request, allow_at, allow, in_flight, acquire,
  give_back, release,
}
use roblox_mcp_gateway.Limiter.Rate.{granted, granted-within}
use roblox_mcp_gateway.Limiter.Slots.{
  Op, request, take, give, apply, run, slots-within, acquire-release,
}

abbrev config : Config
config = record { requests = 2; window = 10; max_in_flight = 1; max_keys = 5 }

abbrev fresh : Limiter
fresh = record {
  config = config;
  rate = [];
  inflight = [];
  last_sweep = 0;
  last_observed = 0;
  next_release = 0;
  released = [];
}

abbrev calls : List (String × ℕ)
calls = ("a", 21) ∷ ("a", 22) ∷ ("a", 23) ∷ ("b", 24) ∷ ("a", 31) ∷ ("a", 29) ∷ ("a", 32) ∷ []

machine : Unit {0}
unfolding new_limiter sweep swept count_request allow_at allow in_flight acquire give_back release
    apply lookup insert erase contains
machine = tt

-- The third request of the window is refused, and the one whose time is before the last.
grants :
    (granted "a" 2 fresh calls ≡ 2)
    × (granted "a" 3 fresh calls ≡ 2)
    × (granted "b" 2 fresh calls ≡ 1)
unfolding machine
grants = (refl, refl, refl)

granted-within_example : granted "a" 2 fresh calls ≤ 2
unfolding machine
granted-within_example = granted-within config fresh "a" 2 calls refl

abbrev ops : List Op
ops = take "a" ∷ take "a" ∷ request "a" 21 ∷ give 0 "a" ∷ take "a" ∷ give 0 "a" ∷ []

one_in_flight : in_flight (run fresh ops).inflight "a" ≡ 1
unfolding machine
one_in_flight = refl

slots-within_example : in_flight (run fresh ops).inflight "a" ≤ 1
unfolding machine
slots-within_example = slots-within config fresh ops "a" refl

acquire-release_example :
    let t = (acquire fresh "a").1 in
    (in_flight t.inflight "a" ≡ suc (in_flight fresh.inflight "a"))
    × (in_flight (release t 0 "a").inflight "a" ≡ in_flight fresh.inflight "a")
    × (release (release t 0 "a") 0 "a" ≡ release t 0 "a")
unfolding machine
acquire-release_example = acquire-release fresh "a" 0 "a" refl refl
