-- ===== src/Hub/Tests.antt =====
-- Runs of the registry, and the theorems on them.
use roblox_mcp_gateway.Prelude.{
  ℕ, ◌<◌, String, ◌≡◌, refl, List, [], ◌∷◌, ◌++◌, Option, none, some, err, arith, length,
  if◌then◌else◌, ◌==◌, string_comparable, nat_comparable,
}
use roblox_mcp_gateway.Prelude.Map.{lookup, insert, erase}
use roblox_mcp_gateway.Hub.{
  slow_consumer, Connection, Registry, close_locked, enqueue, modify, write_one, register, get,
  enqueue_at, send, disconnect, close_each, close_all, remove_if_current,
}
use roblox_mcp_gateway.Hub.Delivery.{send-ok, replaced-stays}
use roblox_mcp_gateway.Hub.Closed.{
  Op, send_to, close_every, clean_up, write, apply, run, IsClosed, IsClosed-final,
}

abbrev open_connection : Connection
open_connection = record { queue = "a" ∷ []; capacity = 2; closed = none }

abbrev hub : Registry
hub = record { conns = ("d1", 0) ∷ []; heap = (0, open_connection) ∷ (1, open_connection) ∷ [] }

abbrev encode : String → Option String
encode s = some s

machine : Unit {0}
unfolding close_locked enqueue modify write_one register get enqueue_at send disconnect close_each
    close_all remove_if_current apply lookup insert erase
machine = tt

full : (send encode (send encode hub "d1" "b").1 "d1" "c").0 ≡ err slow_consumer
unfolding machine
full = refl

send-ok_example :
    (id : ℕ) × (c : Connection) × (message : String) × (get hub "d1" ≡ some id)
    × (lookup id hub.heap ≡ some c)
    × (encode "b" ≡ some message)
    × (c.closed ≡ none)
    × (length c.queue < c.capacity)
    × ((other : ℕ)
        → lookup other (send encode hub "d1" "b").1.heap ≡ (
            if id == other
            then some (record c { queue = c.queue ++ (message ∷ []) })
            else lookup other hub.heap))
    × ((send encode hub "d1" "b").1.conns ≡ hub.conns)
unfolding machine
send-ok_example = send-ok encode hub "d1" "b" refl

replaced-stays_example : get (remove_if_current (register hub "d1" 1).1 "d1" 0) "d1" ≡ some 1
unfolding machine
replaced-stays_example = replaced-stays hub "d1" "d1" 0 1 refl (λ e. omega arith)

abbrev ops : List Op
ops = send_to "d1" "c" ∷ write 0 ∷ close_every "shutdown" ∷ clean_up "d1" 0 ∷ []

IsClosed-final_example :
    IsClosed "revoked" 1 (lookup 0 (run encode (disconnect hub "d1" "revoked") ops).heap)
unfolding machine
IsClosed-final_example =
    IsClosed-final encode 0 "revoked" 1 (disconnect hub "d1" "revoked") ops (refl, omega arith)
