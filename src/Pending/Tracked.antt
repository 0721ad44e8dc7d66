-- ===== src/Pending/Tracked.antt =====
-- No pending request is lost from the indexes of internal/mcpgateway/pending.go: it is found by its
-- session and by its device, or a running `CancelSession` or `FailDevice` still has it to complete.
use roblox_mcp_gateway.Prelude.{
  ℕ, String, ◌≡◌, ◌≢◌, ◌⊎◌, inl, inr, true, none, string_comparable, arith, eq_iff, Option-cases,
}
use roblox_mcp_gateway.Prelude.Map.{lookup, lookup-insert}
use roblox_mcp_gateway.Pending.{
  Result, Entry, Pending, record_entry, rebind, leave_device, new_pending, complete, deliver,
  take_session, take_device,
}
use roblox_mcp_gateway.Pending.Index.{indexed, indexed-add_to, indexed-drop_from, indexed-erase}
use roblox_mcp_gateway.Pending.Invariant.{IsLive, Inv, IsLive-after}

-- `Q` holds of the ids that running calls still have.
pub record Tracked (Q : String → Type 0) (p : Pending) : Type 0 where
  pub by_session :
      (id : String) (e : Entry) → IsLive p id e → (indexed e.session_id id p.sessions ≡ true) ⊎ Q id
  pub by_device :
      (id : String) (e : Entry)
      → IsLive p id e
      → e.device_id ≢ ""
      → (indexed e.device_id id p.devices ≡ true) ⊎ Q id

module _ (Q : String → Type 0) (p : Pending) (t : Tracked Q p) where
  pub record_entry-Tracked :
      (id session original : String)
      → lookup id p.entries ≡ none
      → Tracked Q (record_entry p id session original)
  unfolding record_entry
  record_entry-Tracked id session original unused =
      let entry : Entry = record {
        gateway_id = id;
        session_id = session;
        device_id = "";
        original_id = original;
        channel = p.next_channel;
      } in
      record {
        by_session = λ j f h. ground (
          arith,
          lookup-insert id j entry p.entries,
          eq_iff id j,
          eq_iff session f.session_id,
          indexed-add_to session f.session_id id j p.sessions,
          t.by_session j f,
        );
        by_device = λ j f h n.
            ground (arith, lookup-insert id j entry p.entries, eq_iff id j, t.by_device j f);
      }

  pub rebind-Tracked :
      (id device : String) (e : Entry) → Inv p → IsLive p id e → Tracked Q (rebind p id device e)
  unfolding rebind leave_device
  rebind-Tracked id device e v live = record {
    by_session = λ j f h. ground (
      arith,
      lookup-insert id j (record e { device_id = device }) p.entries,
      eq_iff id j,
      t.by_session j f,
      t.by_session id e,
    );
    by_device = λ j f h n. ground (
      arith,
      lookup-insert id j (record e { device_id = device }) p.entries,
      eq_iff id j,
      t.by_device j f,
      t.by_device id e,
      indexed-add_to device f.device_id id j (leave_device id device e p.devices),
      indexed-drop_from e.device_id f.device_id id j p.devices,
      eq_iff e.device_id "",
      eq_iff e.device_id device,
      eq_iff device f.device_id,
      eq_iff e.device_id f.device_id,
    );
  }

  pub take_session-Tracked :
      (session : String)
      → Tracked (λ id. (indexed session id p.sessions ≡ true) ⊎ Q id) (take_session p session).1
  unfolding take_session
  take_session-Tracked session = record {
    by_session = λ j f h. ground (
      arith,
      indexed-erase session f.session_id j p.sessions,
      t.by_session j f,
      eq_iff session f.session_id,
    );
    by_device = λ j f h n. ground (arith, t.by_device j f h n);
  }

  pub take_device-Tracked :
      (device : String)
      → Tracked (λ id. (indexed device id p.devices ≡ true) ⊎ Q id) (take_device p device).1
  unfolding take_device
  take_device-Tracked device = record {
    by_session = λ j f h. ground (arith, t.by_session j f h);
    by_device = λ j f h n. ground (
      arith,
      indexed-erase device f.device_id j p.devices,
      t.by_device j f h n,
      eq_iff device f.device_id,
    );
  }

-- A delivery completes one id, so no running call needs to have it any more.
module _ (Q R : String → Type 0) (p : Pending) (id : String) (r : Result)
    (sub : (j : String) → Q j → R j ⊎ (j ≡ id)) (v : Inv p) (t : Tracked Q p) where
  completed-Tracked : (e : Entry) → IsLive p id e → Tracked R (complete p e r)
  unfolding complete
  completed-Tracked e live = record {
    by_session = λ j f h.
        let (was, other) = IsLive-after p v id e live r j f h in
        ground (
          arith,
          t.by_session j f was,
          sub j,
          v.keyed id e live,
          eq_iff id j,
          indexed-drop_from e.session_id f.session_id e.gateway_id j p.sessions,
        );
    by_device = λ j f h n.
        let (was, other) = IsLive-after p v id e live r j f h in
        ground (
          arith,
          t.by_device j f was n,
          sub j,
          v.keyed id e live,
          eq_iff id j,
          indexed-drop_from e.device_id f.device_id e.gateway_id j p.devices,
        );
  }

-- A delivery completes one id, so no running call needs to have it any more.
pub deliver-Tracked :
    (Q R : String → Type 0) (p : Pending) (id : String) (r : Result)
    → ((j : String) → Q j → R j ⊎ (j ≡ id))
    → Inv p
    → Tracked Q p
    → Tracked R (deliver p id r).0
unfolding deliver
deliver-Tracked Q R p id r sub v t = elim (Option-cases (lookup id p.entries)) [
  | inl gone ↦
      rw (gone, deliver)
        (record {
          by_session = λ j f h. ground (arith, t.by_session j f h, sub j);
          by_device = λ j f h n. ground (arith, t.by_device j f h n, sub j);
        })
  | inr (e, live) ↦ rw (live, deliver) (completed-Tracked Q R p id r sub v t e live)
]

pub Tracked-mono :
    (Q R : String → Type 0) (p : Pending) → ((j : String) → Q j → R j) → Tracked Q p → Tracked R p
Tracked-mono Q R p sub t = record {
  by_session = λ j f h. ground (arith, t.by_session j f h, sub j);
  by_device = λ j f h n. ground (arith, t.by_device j f h n, sub j);
}

pub new_pending-Tracked : (Q : String → Type 0) (m : ℕ) → Tracked Q (new_pending m)
unfolding new_pending lookup
new_pending-Tracked Q m = record { by_session = λ j f h. cc; by_device = λ j f h n. cc }
