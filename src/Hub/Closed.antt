-- ===== src/Hub/Closed.antt =====
-- A closed Bridge connection stays closed and takes no more messages (internal/bridgehub/connection.go).
use roblox_mcp_gateway.Prelude.{
  ℕ, ◌≤◌, String, ◌≡◌, inl, inr, List, [], ◌∷◌, Option, none, some, nat_comparable,
  string_comparable, length, arith, Option-cases,
}
use roblox_mcp_gateway.Prelude.Map.{lookup, lookup-insert}
use roblox_mcp_gateway.Hub.{
  Connection, Registry, close_locked, enqueue, without_first, modify, write_one, register, get,
  enqueue_at, send, disconnect, close_each, close_all, remove_if_current,
}

-- A step of the hub: a call of the registry, or a write of a connection's writer.
pub data Op : Type 0 where
  register_device : String → ℕ → Op
  send_to : String → String → Op
  disconnect_device : String → String → Op
  close_every : String → Op
  clean_up : String → ℕ → Op
  write : ℕ → Op

unfoldable pub apply : (String → Option String) → Registry → Op → Registry
apply encode r (register_device device_id id) = (register r device_id id).1
apply encode r (send_to device_id envelope) = (send encode r device_id envelope).1
apply encode r (disconnect_device device_id reason) = disconnect r device_id reason
apply encode r (close_every reason) = close_all r reason
apply encode r (clean_up device_id id) = remove_if_current r device_id id
apply encode r (write id) = write_one r id

abbrev pub run : (String → Option String) → Registry → List Op → Registry
run encode r [] = r
run encode r (o ∷ ops) = run encode (apply encode r o) ops

-- The connection is closed for the reason, and its queue has at most so many messages.
abbrev pub IsClosed : String → ℕ → Option Connection → Type 0
IsClosed reason n none = ⊥
IsClosed reason n (some c) = (c.closed ≡ some reason) × (length c.queue ≤ n)

write-shorter : (ms : List String) → length (without_first ms) ≤ length ms
write-shorter [] = omega arith
write-shorter (m ∷ ms) = omega arith

close-IsClosed :
    (id j : ℕ) (why reason : String) (n : ℕ) (heap : List (ℕ × Connection))
    → IsClosed reason n (lookup id heap)
    → IsClosed reason n (lookup id (modify j (λ c. close_locked c why) heap))
unfolding modify close_locked
close-IsClosed id j why reason n heap h = elim (Option-cases (lookup j heap)) [
  | inl e ↦ ground arith
  | inr (c, e) ↦ elim (Option-cases (lookup id heap)) [
    | inl f ↦ ground arith
    | inr (d, f) ↦ ground (arith, lookup-insert j id (close_locked c why) heap)
  ]
]

close_each-IsClosed :
    (id : ℕ) (why reason : String) (n : ℕ) (conns : List (String × ℕ))
    (heap : List (ℕ × Connection))
    → IsClosed reason n (lookup id heap)
    → IsClosed reason n (lookup id (close_each conns why heap))
unfolding close_each
close_each-IsClosed id why reason n [] heap h = h
close_each-IsClosed id why reason n ((device_id, j) ∷ conns) heap h =
    close_each-IsClosed id why reason n conns (modify j (λ c. close_locked c why) heap)
      (close-IsClosed id j why reason n heap h)

write-IsClosed :
    (id j : ℕ) (reason : String) (n : ℕ) (r : Registry)
    → IsClosed reason n (lookup id r.heap)
    → IsClosed reason n (lookup id (write_one r j).heap)
unfolding write_one modify
write-IsClosed id j reason n r h = elim (Option-cases (lookup j r.heap)) [
  | inl e ↦ ground arith
  | inr (c, e) ↦ elim (Option-cases (lookup id r.heap)) [
    | inl f ↦ ground arith
    | inr (d, f) ↦ ground (
      arith,
      lookup-insert j id (record c { queue = without_first c.queue }) r.heap,
      write-shorter c.queue,
    )
  ]
]

send-IsClosed :
    (encode : String → Option String) (id : ℕ) (device_id envelope reason : String) (n : ℕ)
    (r : Registry)
    → IsClosed reason n (lookup id r.heap)
    → IsClosed reason n (lookup id (send encode r device_id envelope).1.heap)
unfolding send enqueue_at enqueue close_locked
send-IsClosed encode id device_id envelope reason n r h = elim (Option-cases (get r device_id)) [
  | inl e ↦ ground arith
  | inr (j, e) ↦ elim (Option-cases (encode envelope)) [
    | inl m ↦ ground arith
    | inr (message, m) ↦ elim (Option-cases (lookup j r.heap)) [
      | inl k ↦ ground arith
      | inr (c, k) ↦ elim (Option-cases (lookup id r.heap)) [
        | inl f ↦ ground arith
        | inr (d, f) ↦ ground (arith, lookup-insert j id (enqueue c message).1 r.heap)
      ]
    ]
  ]
]

apply-IsClosed :
    (encode : String → Option String) (id : ℕ) (reason : String) (n : ℕ) (r : Registry) (o : Op)
    → IsClosed reason n (lookup id r.heap)
    → IsClosed reason n (lookup id (apply encode r o).heap)
unfolding apply register disconnect close_all remove_if_current
apply-IsClosed encode id reason n r (register_device device_id j) h = h
apply-IsClosed encode id reason n r (send_to device_id envelope) h =
    send-IsClosed encode id device_id envelope reason n r h
apply-IsClosed encode id reason n r (disconnect_device device_id why) h =
    elim (Option-cases (lookup device_id r.conns)) [
      | inl e ↦ ground arith
      | inr (j, e) ↦ ground (arith, close-IsClosed id j why reason n r.heap h)
    ]
apply-IsClosed encode id reason n r (close_every why) h =
    close_each-IsClosed id why reason n r.conns r.heap h
apply-IsClosed encode id reason n r (clean_up device_id j) h =
    elim (Option-cases (lookup device_id r.conns)) [
      | inl e ↦ ground arith
      | inr (k, e) ↦ ground arith
    ]
apply-IsClosed encode id reason n r (write j) h = write-IsClosed id j reason n r h

-- A connection that is closed stays closed for its first reason over any sequence of registry calls and
-- writes, and its queue never grows again.
pub IsClosed-final :
    (encode : String → Option String) (id : ℕ) (reason : String) (n : ℕ) (r : Registry)
    (ops : List Op)
    → IsClosed reason n (lookup id r.heap)
    → IsClosed reason n (lookup id (run encode r ops).heap)
IsClosed-final encode id reason n r [] h = h
IsClosed-final encode id reason n r (o ∷ ops) h =
    IsClosed-final encode id reason n (apply encode r o) ops
      (apply-IsClosed encode id reason n r o h)
