-- ===== src/Pending/Fresh.antt =====
-- The life of one request of internal/mcpgateway/pending.go: registered, associated, and given up.
use roblox_mcp_gateway.Prelude.{
  ℕ, String, ◌≡◌, Option-cases, inl, inr, none, some, Option, ok, ◌==◌, string_comparable,
  if◌then◌else◌, arith, eq_iff, eq_self,
}
use roblox_mcp_gateway.Prelude.Map.{lookup, lookup-insert, lookup-erase}
use roblox_mcp_gateway.Pending.{
  Entry, Result, Pending, record_entry, rebind, register, associate, deliver, complete, resolve,
  remove_entry,
}
use roblox_mcp_gateway.Pending.Register.{register_lem, fresh_id-unused}
use roblox_mcp_gateway.Pending.Associate.{associate_lem}

abbrev new_entry : Pending → String → String → String → Entry
new_entry p gateway_id session request_id = record {
  gateway_id = gateway_id;
  session_id = session;
  device_id = "";
  original_id = request_id;
  channel = p.next_channel;
}

pub lookup-register :
    (p q : Pending) (session request_id gateway_id j : String) (channel : ℕ)
    (random : ℕ → Option String)
    → register p session request_id random ≡ ok (gateway_id, channel, q)
    → lookup j q.entries ≡ (
        if gateway_id == j
        then some (new_entry p gateway_id session request_id)
        else lookup j p.entries)
unfolding record_entry
lookup-register p q session request_id gateway_id j channel random h =
    let (_, _, _, _, _, same) = register_lem p session request_id random gateway_id channel q h in
    ground (arith, lookup-insert gateway_id j (new_entry p gateway_id session request_id) p.entries)

-- A request that was registered and associated is pending, under its session and its device.
pub registered-associated :
    (p q : Pending) (a : Pending) (session request_id gateway_id device : String) (channel : ℕ)
    (random : ℕ → Option String)
    → register p session request_id random ≡ ok (gateway_id, channel, q)
    → associate q gateway_id device ≡ ok a
    → lookup gateway_id a.entries
      ≡ some (record {
        gateway_id = gateway_id;
        session_id = session;
        device_id = device;
        original_id = request_id;
        channel = channel;
      })
unfolding rebind
registered-associated p q a session request_id gateway_id device channel random h k =
    let (_, _, _, _, numbered, same) =
      register_lem p session request_id random gateway_id channel q h in
    let (e, live, _, bound) = associate_lem q gateway_id device a k in
    ground (
      arith,
      eq_self gateway_id,
      lookup-register p q session request_id gateway_id gateway_id channel random h,
      lookup-insert gateway_id gateway_id (record e { device_id = device }) q.entries,
    )

lookup-resolve :
    (p : Pending) (id j : String) (result : Result)
    → ((e : Entry) → lookup id p.entries ≡ some e → e.gateway_id ≡ id)
    → lookup j (resolve p id result).0.entries ≡ (if id == j then none else lookup j p.entries)
unfolding resolve deliver complete remove_entry
lookup-resolve p id j result named = elim (Option-cases (lookup id p.entries)) [
  | inl n ↦ ground (arith, eq_iff id j)
  | inr (e, live) ↦ ground (arith, lookup-erase e.gateway_id j p.entries, named e live)
]

-- A request that is registered and then given up leaves the pending requests as they were.
pub given_up :
    (p q : Pending) (session request_id gateway_id j : String) (channel : ℕ)
    (random : ℕ → Option String) (result : Result)
    → register p session request_id random ≡ ok (gateway_id, channel, q)
    → lookup j (resolve q gateway_id result).0.entries ≡ lookup j p.entries
given_up p q session request_id gateway_id j channel random result h =
    let (chosen, _, _, _, _, _) = register_lem p session request_id random gateway_id channel q h in
    ground (
      arith,
      eq_iff gateway_id j,
      fresh_id-unused random p.entries gateway_id chosen,
      lookup-resolve q gateway_id j result (λ e live. ground (
        arith,
        eq_self gateway_id,
        lookup-register p q session request_id gateway_id gateway_id channel random h,
      )),
      lookup-register p q session request_id gateway_id j channel random h,
    )

-- So it does if it was associated in between.
pub associated-given_up :
    (p q a : Pending) (session request_id gateway_id device j : String) (channel : ℕ)
    (random : ℕ → Option String) (result : Result)
    → register p session request_id random ≡ ok (gateway_id, channel, q)
    → associate q gateway_id device ≡ ok a
    → lookup j (resolve a gateway_id result).0.entries ≡ lookup j p.entries
unfolding rebind
associated-given_up p q a session request_id gateway_id device j channel random result h k =
    let (chosen, _, _, _, _, _) = register_lem p session request_id random gateway_id channel q h in
    let (e, live, _, bound) = associate_lem q gateway_id device a k in
    ground (
      arith,
      eq_iff gateway_id j,
      fresh_id-unused random p.entries gateway_id chosen,
      lookup-resolve a gateway_id j result (λ f there. ground (
        arith,
        registered-associated p q a session request_id gateway_id device channel random h k,
      )),
      lookup-register p q session request_id gateway_id j channel random h,
      lookup-insert gateway_id j (record e { device_id = device }) q.entries,
    )
