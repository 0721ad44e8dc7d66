-- ===== src/Hub.antt =====
-- The live Bridge connections: internal/bridgehub/registry.go, and the queue and the teardown of a
-- connection in internal/bridgehub/connection.go. A pointer to a connection is its number in the table
-- of all connections, which stands for the heap. The encoding of an envelope is the argument `encode`
-- of `send`, none when it fails. A done context is left out; a full queue is one that has as many
-- messages as its capacity, since the writer takes them out one by one.
pub mod Delivery
pub mod Closed
mod Tests
use roblox_mcp_gateway.Prelude.{
  ℕ, String, Bool, true, false, not, ◌&&◌, ◌||◌, List, [], ◌∷◌, ◌++◌, Option, none, some, Except,
  ok, err, ◌==◌, nat_comparable, string_comparable, if◌then◌else◌, ltb, length,
}
use roblox_mcp_gateway.Prelude.Map.{lookup, insert, erase}

pub data Error : Type 0 where
  device_offline connection_closed slow_consumer encode_failed : Error

-- A connection: its writer's queue, the queue's capacity, and the reason of its teardown.
pub record Connection : Type 0 where
  pub queue : List String
  pub capacity : ℕ
  pub closed : Option String

pub record Registry : Type 0 where
  pub conns : List (String × ℕ)
  pub heap : List (ℕ × Connection)

abbrev pub new_registry : List (ℕ × Connection) → Registry
new_registry heap = record { conns = []; heap = heap }

abbrev pub reason_slow_consumer : String
reason_slow_consumer = "slow consumer"

-- `closeLocked`: the first reason stays.
unfoldable pub close_locked : Connection → String → Connection
close_locked c reason = elim c.closed [ none ↦ record c { closed = some reason } | some r ↦ c ]

-- `enqueue`, on an encoded message.
unfoldable pub enqueue : Connection → String → Except Error (Unit {0}) × Connection
unfolding close_locked
enqueue c message = elim c.closed [
  | some reason ↦ (err connection_closed, c)
  | none ↦
      (if ltb (length c.queue) c.capacity
        then (ok tt, record c { queue = c.queue ++ (message ∷ []) })
        else (err slow_consumer, close_locked c reason_slow_consumer))
]

-- A write through the pointer.
unfoldable pub modify :
    ℕ → (Connection → Connection) → List (ℕ × Connection) → List (ℕ × Connection)
modify id f heap = elim (lookup id heap) [ none ↦ heap | some c ↦ insert id (f c) heap ]

-- `writeLoop` takes the oldest message.
abbrev pub without_first : List String → List String
without_first [] = []
without_first (m ∷ ms) = ms

unfoldable pub write_one : Registry → ℕ → Registry
unfolding modify
write_one r id = record r {
  heap = modify id (λ c. record c { queue = without_first c.queue }) r.heap;
}

-- The replaced connection, if any, and the registry with the new one.
unfoldable pub register : Registry → String → ℕ → Option ℕ × Registry
register r device_id conn =
    (lookup device_id r.conns, record r { conns = insert device_id conn r.conns })

unfoldable pub get : Registry → String → Option ℕ
get r device_id = lookup device_id r.conns

unfoldable pub enqueue_at :
    Registry → ℕ → Option Connection → String → Except Error (Unit {0}) × Registry
unfolding enqueue
enqueue_at r id none message = (err device_offline, r)
enqueue_at r id (some c) message =
    (let (result, d) = enqueue c message in (result, record r { heap = insert id d r.heap }))

unfoldable pub send :
    {E : Type 0} → (E → Option String) → Registry → String → E → Except Error (Unit {0}) × Registry
unfolding get enqueue_at
send encode r device_id envelope = elim (get r device_id) [
  | none ↦ (err device_offline, r)
  | some id ↦ elim (encode envelope) [
    | none ↦ (err encode_failed, r)
    | some message ↦ enqueue_at r id (lookup id r.heap) message
  ]
]

unfoldable pub disconnect : Registry → String → String → Registry
unfolding modify close_locked
disconnect r device_id reason = elim (lookup device_id r.conns) [
  | none ↦ r
  | some id ↦ record r {
    conns = erase device_id r.conns;
    heap = modify id (λ c. close_locked c reason) r.heap;
  }
]

unfoldable pub close_each :
    List (String × ℕ) → String → List (ℕ × Connection) → List (ℕ × Connection)
unfolding modify close_locked
close_each [] reason heap = heap
close_each ((device_id, id) ∷ conns) reason heap =
    close_each conns reason (modify id (λ c. close_locked c reason) heap)

unfoldable pub close_all : Registry → String → Registry
unfolding close_each
close_all r reason = record r { heap = close_each r.conns reason r.heap }

unfoldable pub remove_if_current : Registry → String → ℕ → Registry
remove_if_current r device_id conn = elim (lookup device_id r.conns) [
  | none ↦ r
  | some current ↦ if current == conn then record r { conns = erase device_id r.conns } else r
]
