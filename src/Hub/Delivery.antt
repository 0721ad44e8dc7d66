-- ===== src/Hub/Delivery.antt =====
-- Delivery and replacement of Bridge connections (internal/bridgehub/registry.go, internal/bridgehub/connection.go).
use roblox_mcp_gateway.Prelude.{
  ℕ, ◌<◌, String, ◌≡◌, ◌≢◌, inl, inr, [], ◌∷◌, ◌++◌, Option, none, some, ok, ◌==◌, nat_comparable,
  string_comparable, if◌then◌else◌, length, arith, eq_iff, eq_self, Option-cases,
}
use roblox_mcp_gateway.Prelude.Map.{lookup, lookup-insert}
use roblox_mcp_gateway.Hub.{
  Connection, Registry, enqueue, register, get, enqueue_at, send, remove_if_current,
}

-- The connection that a device is served by.
abbrev pub live : Registry → String → Option Connection
live r device_id = elim (get r device_id) [ none ↦ none | some id ↦ lookup id r.heap ]

-- A message that is sent is at the end of the queue of the device's connection, which was open and had
-- room; no other connection and no registration changes.
pub send-ok :
    {E : Type 0} (encode : E → Option String) (r : Registry) (device_id : String) (envelope : E)
    → (send encode r device_id envelope).0 ≡ ok tt
    → (id : ℕ) × (c : Connection) × (message : String) × (get r device_id ≡ some id)
      × (lookup id r.heap ≡ some c)
      × (encode envelope ≡ some message)
      × (c.closed ≡ none)
      × (length c.queue < c.capacity)
      × ((other : ℕ)
          → lookup other (send encode r device_id envelope).1.heap ≡ (
              if id == other
              then some (record c { queue = c.queue ++ (message ∷ []) })
              else lookup other r.heap))
      × ((send encode r device_id envelope).1.conns ≡ r.conns)
unfolding send enqueue_at enqueue
send-ok encode r device_id envelope h = elim (Option-cases (get r device_id)) [
  | inl e ↦ ground arith
  | inr (id, e) ↦ elim (Option-cases (encode envelope)) [
    | inl n ↦ ground arith
    | inr (message, n) ↦ elim (Option-cases (lookup id r.heap)) [
      | inl m ↦ ground arith
      | inr (c, m) ↦ (
        id,
        c,
        message,
        e,
        m,
        n,
        ground arith,
        ground arith,
        λ other.
            ground (
              arith,
              lookup-insert id other (record c { queue = c.queue ++ (message ∷ []) }) r.heap,
            ),
        ground arith,
      )
    ]
  ]
]

-- When a device's connection was replaced by another one, the clean-up of the replaced connection leaves
-- the new one registered, and every other device's.
pub replaced-stays :
    (r : Registry) (device_id other : String) (old new : ℕ)
    → (register r device_id new).0 ≡ some old
    → old ≢ new
    → get (remove_if_current (register r device_id new).1 device_id old) other
      ≡ (if device_id == other then some new else get r other)
unfolding register remove_if_current get
replaced-stays r device_id other old new h n = ground (
  arith,
  lookup-insert device_id other new r.conns,
  lookup-insert device_id device_id new r.conns,
  eq_self device_id,
  eq_iff device_id other,
)
