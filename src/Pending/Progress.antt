-- ===== src/Pending/Progress.antt =====
-- Every request of internal/mcpgateway/pending.go gets its result: the deadline's timer, which Go fires
-- for each entry, completes whatever is still pending.
use roblox_mcp_gateway.Prelude.{
  ℕ, ◌≤◌, String, ◌≡◌, refl, ◌⊎◌, ◌==◌, eq_iff, Bool-cases, inl, inr, List, [], ◌∷◌, Option, Except,
  ok, err, string_comparable, arith, Option-cases, Except-cases,
}
use roblox_mcp_gateway.Prelude.Map.{lookup, lookup-insert, lookup-erase}
use roblox_mcp_gateway.Pending.Fresh.{lookup-register}
use roblox_mcp_gateway.Pending.{
  Error, deadline_exceeded, Result, Entry, Pending, record_entry, rebind, register, associate,
  deliver, complete, remove_entry, take_session, take_device, failure,
}
use roblox_mcp_gateway.Pending.Schedule.{
  Job, System, Event, registers, associates, responds, expires, cancels, fails, continues,
  after_register, after_associate, begin, continue, step, run, start,
}
use roblox_mcp_gateway.Pending.Invariant.{sends, IsLive, Inv}
use roblox_mcp_gateway.Pending.Register.{register_lem, fresh_id-unused}
use roblox_mcp_gateway.Pending.Associate.{associate_lem}
use roblox_mcp_gateway.Pending.Once.{Good, continue-Turns, start-Good, step-Good, run-Good}

deliver-sends :
    (c : ℕ) (p : Pending) (id : String) (r : Result)
    → sends c p.sent ≤ sends c (deliver p id r).0.sent
unfolding deliver complete remove_entry sends
deliver-sends c p id r = elim (Option-cases (lookup id p.entries)) [
  | inl n ↦ ground arith
  | inr (e, live) ↦ ground arith
]

continue-sends :
    (c n : ℕ) (jobs : List Job) (p : Pending) → sends c p.sent ≤ sends c (continue p n jobs).0.sent
continue-sends c n jobs p = elim (continue-Turns p n jobs) [
  | inl (same, _) ↦ ground arith
  | inr (id, r, same, _) ↦ ground (arith, deliver-sends c p id r)
]

-- A send is never taken back.
step-sends :
    (c : ℕ) (s : System) (e : Event) → sends c s.pending.sent ≤ sends c (step s e).pending.sent
unfolding step after_register after_associate begin record_entry rebind take_session take_device
step-sends c s (registers session original random) =
    elim (Except-cases (register s.pending session original random)) [
      | inr (x, n) ↦ ground arith
      | inl ((id, channel, q), e) ↦
          ground (arith, register_lem s.pending session original random id channel q e)
    ]
step-sends c s (associates id device) = elim (Except-cases (associate s.pending id device)) [
  | inr (x, n) ↦ ground arith
  | inl (q, e) ↦ ground (arith, associate_lem s.pending id device q e)
]
step-sends c s (responds id result) = deliver-sends c s.pending id result
step-sends c s (expires id) = deliver-sends c s.pending id (failure deadline_exceeded)
step-sends c s (cancels session) = omega arith
step-sends c s (fails device cause) = omega arith
step-sends c s (continues n) = continue-sends c n s.jobs s.pending

run-sends :
    (c : ℕ) (s : System) (es : List Event)
    → sends c s.pending.sent ≤ sends c (run s es).pending.sent
unfolding run
run-sends c s [] = omega arith
run-sends c s (e ∷ es) = omega (arith, step-sends c s e, run-sends c (step s e) es)

-- The request still waits on the channel, or the channel has had a send.
abbrev Held : ℕ → String → Pending → Type 0
Held c id p = ((e : Entry) × IsLive p id e × (e.channel ≡ c)) ⊎ (1 ≤ sends c p.sent)

deliver-Held :
    (c : ℕ) (id j : String) (p : Pending) (r : Result)
    → Inv p
    → Held c id p
    → Held c id (deliver p j r).0
unfolding deliver complete remove_entry sends
deliver-Held c id j p r v (inr h) = inr (omega (arith, deliver-sends c p j r))
deliver-Held c id j p r v (inl (e, live, same)) = elim (Option-cases (lookup j p.entries)) [
  | inl n ↦ inl (e, ground arith, same)
  | inr (f, other) ↦ elim (Bool-cases (j == id)) [
    | inl eq ↦ inr (ground (arith, eq_iff j id))
    | inr ne ↦
        inl (e, ground (arith, lookup-erase f.gateway_id id p.entries, v.keyed j f other), same)
  ]
]

register-Held :
    (c : ℕ) (id : String) (s : System) (session original : String) (random : ℕ → Option String)
    (x : Except Error (String × ℕ × Pending))
    → register s.pending session original random ≡ x
    → Held c id s.pending
    → Held c id (after_register s x).pending
unfolding after_register record_entry
register-Held c id s session original random (err x) r h = h
register-Held c id s session original random (ok (j, channel, q)) r (inr h) =
    inr (ground (arith, register_lem s.pending session original random j channel q r))
register-Held c id s session original random (ok (j, channel, q)) r (inl (e, live, same)) =
    let chosen = (register_lem s.pending session original random j channel q r).0 in
    inl (
      e,
      ground (
        arith,
        eq_iff j id,
        fresh_id-unused random s.pending.entries j chosen,
        lookup-register s.pending q session original j id channel random r,
      ),
      same,
    )

associate-Held :
    (c : ℕ) (id : String) (s : System) (j device : String) (x : Except Error Pending)
    → associate s.pending j device ≡ x
    → Held c id s.pending
    → Held c id (after_associate s x).pending
unfolding after_associate rebind
associate-Held c id s j device (err x) a h = h
associate-Held c id s j device (ok q) a (inr h) =
    inr (ground (arith, associate_lem s.pending j device q a))
associate-Held c id s j device (ok q) a (inl (e, live, same)) =
    let (f, other, _, is) = associate_lem s.pending j device q a in
    elim (Bool-cases (j == id)) [
      | inl eq ↦ inl (
        record f { device_id = device },
        ground (
          arith,
          eq_iff j id,
          lookup-insert j id (record f { device_id = device }) s.pending.entries,
        ),
        ground (arith, eq_iff j id),
      )
      | inr ne ↦ inl (
        e,
        ground (arith, lookup-insert j id (record f { device_id = device }) s.pending.entries),
        same,
      )
    ]

step-Held :
    (c : ℕ) (id : String) (s : System) (e : Event)
    → Inv s.pending
    → Held c id s.pending
    → Held c id (step s e).pending
unfolding step after_register after_associate begin record_entry rebind take_session take_device
step-Held c id s (registers session original random) v h =
    register-Held c id s session original random _ refl h
step-Held c id s (associates j device) v h = associate-Held c id s j device _ refl h
step-Held c id s (responds j result) v h = deliver-Held c id j s.pending result v h
step-Held c id s (expires j) v h = deliver-Held c id j s.pending (failure deadline_exceeded) v h
step-Held c id s (cancels session) v h = h
step-Held c id s (fails device cause) v h = h
step-Held c id s (continues n) v h = elim (continue-Turns s.pending n s.jobs) [
  | inl (same, _) ↦ rw same h
  | inr (j, r, same, _) ↦ rw same (deliver-Held c id j s.pending r v h)
]

run-Held :
    (c : ℕ) (id : String) (s : System) (es : List Event)
    → Good s
    → Held c id s.pending
    → Held c id (run s es).pending
unfolding run
run-Held c id s [] g h = h
run-Held c id s (e ∷ es) g h =
    run-Held c id (step s e) es (step-Good s e g) (step-Held c id s e g.inv h)

-- The timer ends the wait.
expires-sends :
    (c : ℕ) (id : String) (s : System)
    → Held c id s.pending
    → 1 ≤ sends c (step s (expires id)).pending.sent
unfolding step deliver complete remove_entry sends
expires-sends c id s (inr h) =
    omega (arith, deliver-sends c s.pending id (failure deadline_exceeded))
expires-sends c id s (inl (e, live, same)) = ground arith

-- A request that is pending at some moment has got exactly one result at every moment after its timer
-- has fired, whatever happens in between and afterwards.
pub expires-answers :
    (m : ℕ) (es between after : List Event) (id : String) (e : Entry)
    → IsLive (run (start m) es).pending id e
    → sends e.channel (run (step (run (run (start m) es) between) (expires id)) after).pending.sent
      ≡ 1
expires-answers m es between after id e live =
    let g = run-Good (start m) es (start-Good m) in
    let s = run (run (start m) es) between in
    let g' = run-Good (run (start m) es) between g in
    let held = run-Held e.channel id (run (start m) es) between g (inl (e, live, refl)) in
    let h = expires-sends e.channel id s held in
    let t = step s (expires id) in
    let once = (run-Good t after (step-Good s (expires id) g')).inv.once e.channel in
    omega (arith, h, once, run-sends e.channel t after)
