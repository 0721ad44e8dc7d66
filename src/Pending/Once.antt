-- ===== src/Pending/Once.antt =====
-- Exactly-once completion of forwarded requests, over all interleavings of the critical sections of
-- internal/mcpgateway/pending.go.
use roblox_mcp_gateway.Prelude.{
  ℕ, zero, suc, ◌≤◌, ◌<◌, String, ◌≡◌, refl, sym, subst, ap, ◌∙◌, ◌≢◌, ◌⊎◌, inl, inr, true, List,
  [], ◌∷◌, Any, Option, Except, ok, err, string_comparable, arith, eq_iff, length,
}
use roblox_mcp_gateway.Prelude.Set.{contains}
use roblox_mcp_gateway.Pending.{
  Error, deadline_exceeded, cancelled, Result, Entry, Pending, new_pending, record_entry, rebind,
  register, associate, deliver, complete, remove_entry, take_session, take_device, failure,
  cause_or,
}
use roblox_mcp_gateway.Pending.Index.{indexed}
use roblox_mcp_gateway.Pending.Schedule.{
  Job, System, Event, registers, associates, responds, expires, cancels, fails, continues,
  after_register, after_associate, begin, continue, step, run, start,
}
use roblox_mcp_gateway.Pending.Invariant.{sends, IsLive, Inv, new_pending-Inv, deliver-Inv}
use roblox_mcp_gateway.Pending.Register.{register-Inv, register_lem, fresh_id-unused}
use roblox_mcp_gateway.Pending.Associate.{
  associate-Inv, associate_lem, take_session-Inv, take_device-Inv,
}
use roblox_mcp_gateway.Pending.Tracked.{
  Tracked, record_entry-Tracked, rebind-Tracked, take_session-Tracked, take_device-Tracked,
  deliver-Tracked, Tracked-mono, new_pending-Tracked,
}

-- A running call still has this id to complete.
abbrev pub InJobs : List Job → String → Type 0
InJobs jobs id = Any (λ j. contains id j.ids ≡ true) jobs

pub record Good (s : System) : Type 0 where
  pub inv : Inv s.pending
  pub tracked : Tracked (InJobs s.jobs) s.pending

pub start-Good : (m : ℕ) → Good (start m)
unfolding start
start-Good m = record { inv = new_pending-Inv m; tracked = new_pending-Tracked (InJobs []) m }

-- A turn of a running call returns it, or completes one of its ids.
abbrev pub Turns : Pending → List Job → Pending × List Job → Type 0
Turns p jobs (q, ks) =
    ((q ≡ p) × ((i : String) → InJobs jobs i → InJobs ks i))
    ⊎ ((id : String) × (r : Result) × (q ≡ (deliver p id r).0)
        × ((i : String) → InJobs jobs i → InJobs ks i ⊎ (i ≡ id)))

head_turn :
    (p : Pending) (r : Result) (ids : List String) (js : List Job)
    → Turns p
        (record { ids = ids; result = r } ∷ js)
        (continue p zero (record { ids = ids; result = r } ∷ js))
unfolding continue contains
head_turn p r [] js = inl (refl, λ i h. ground arith)
head_turn p r (id ∷ ids) js = inr (id, r, refl, λ i h. ground (arith, eq_iff id i))

pub continue-Turns : (p : Pending) (n : ℕ) (jobs : List Job) → Turns p jobs (continue p n jobs)
unfolding continue
continue-Turns p n [] = inl (refl, λ i h. h)
continue-Turns p zero (j ∷ js) = head_turn p j.result j.ids js
continue-Turns p (suc n) (j ∷ js) = elim (continue-Turns p n js) [
  | inl (same, kept) ↦ inl (same, λ i h. ground (arith, kept i))
  | inr (id, r, same, kept) ↦ inr (id, r, same, λ i h. ground (arith, kept i))
]

continue-Good :
    (n : ℕ) (jobs : List Job) (p : Pending)
    → Inv p
    → Tracked (InJobs jobs) p
    → Inv (continue p n jobs).0 × Tracked (InJobs (continue p n jobs).1) (continue p n jobs).0
continue-Good n jobs p v t = elim (continue-Turns p n jobs) [
  | inl (same, kept) ↦
      rw same (v, Tracked-mono (InJobs jobs) (InJobs (continue p n jobs).1) p kept t)
  | inr (id, r, same, kept) ↦ rw same (
    deliver-Inv p id r v,
    deliver-Tracked (InJobs jobs) (InJobs (continue p n jobs).1) p id r kept v t,
  )
]

respond-Good :
    (s : System) (id : String) (r : Result)
    → Good s
    → Good (record s { pending = (deliver s.pending id r).0 })
respond-Good s id r g = record {
  inv = deliver-Inv s.pending id r g.inv;
  tracked =
      deliver-Tracked (InJobs s.jobs) (InJobs s.jobs) s.pending id r (λ j h. inl h) g.inv g.tracked;
}

register-Good :
    (s : System) (session original : String) (random : ℕ → Option String)
    (x : Except Error (String × ℕ × Pending))
    → register s.pending session original random ≡ x
    → Good s
    → Good (after_register s x)
unfolding after_register
register-Good s session original random (err e) h g = g
register-Good s session original random (ok (id, c, q)) h g =
    let (chosen, _, _, _, _, same) = register_lem s.pending session original random id c q h in
    record {
      inv = register-Inv s.pending session original random id c q g.inv h;
      tracked = subst (Tracked (InJobs s.jobs)) (sym same) (
          record_entry-Tracked (InJobs s.jobs) s.pending g.tracked id session original
            (fresh_id-unused random s.pending.entries id chosen));
    }

associate-Good :
    (s : System) (id device : String) (x : Except Error Pending)
    → associate s.pending id device ≡ x
    → Good s
    → Good (after_associate s x)
unfolding after_associate
associate-Good s id device (err e) h g = g
associate-Good s id device (ok q) h g =
    let (e, live, _, same) = associate_lem s.pending id device q h in
    record {
      inv = associate-Inv s.pending id device q g.inv h;
      tracked =
          subst (Tracked (InJobs s.jobs)) (sym same)
            (rebind-Tracked (InJobs s.jobs) s.pending g.tracked id device e g.inv live);
    }

cancel-Good :
    (s : System) (session : String) (r : Result)
    → Good s
    → Good (begin s (take_session s.pending session) r)
unfolding begin take_session indexed
cancel-Good s session r g = record {
  inv = take_session-Inv s.pending session g.inv;
  tracked = take_session-Tracked (InJobs s.jobs) s.pending g.tracked session;
}

fail-Good :
    (s : System) (device : String) (r : Result)
    → Good s
    → Good (begin s (take_device s.pending device) r)
unfolding begin take_device indexed
fail-Good s device r g = record {
  inv = take_device-Inv s.pending device g.inv;
  tracked = take_device-Tracked (InJobs s.jobs) s.pending g.tracked device;
}

-- Every critical section keeps the invariant.
pub step-Good : (s : System) (e : Event) → Good s → Good (step s e)
unfolding step
step-Good s (registers session original random) g = register-Good s session original random _ refl g
step-Good s (associates id device) g = associate-Good s id device _ refl g
step-Good s (responds id result) g = respond-Good s id result g
step-Good s (expires id) g = respond-Good s id (failure deadline_exceeded) g
step-Good s (cancels session) g = cancel-Good s session (failure cancelled) g
step-Good s (fails device cause) g = fail-Good s device (failure (cause_or cause)) g
step-Good s (continues n) g =
    let (v, t) = continue-Good n s.jobs s.pending g.inv g.tracked in record { inv = v; tracked = t }

pub run-Good : (s : System) (es : List Event) → Good s → Good (run s es)
unfolding run
run-Good s [] g = g
run-Good s (e ∷ es) g = run-Good (step s e) es (step-Good s e g)

-- A channel is settled if it has had exactly one send and no pending request waits on it, or it has had
-- none and exactly one pending request waits on it.
abbrev pub IsSettled : Pending → ℕ → Type 0
IsSettled p c =
    ((sends c p.sent ≡ 1) × ((id : String) (e : Entry) → IsLive p id e → e.channel ≢ c))
    ⊎ ((sends c p.sent ≡ 0)
        × ((id : String) × (e : Entry) × IsLive p id e
            × (e.channel ≡ c)
            × ((j : String) (f : Entry) → IsLive p j f → f.channel ≡ c → j ≡ id)))

-- After any interleaving, every result channel that was handed out is settled: either it has had
-- exactly one send, and no pending request waits on it, or it has had none, and exactly one pending
-- request waits on it.
pub exactly_once :
    (m : ℕ) (es : List Event) (c : ℕ)
    → c < (run (start m) es).pending.next_channel
    → IsSettled (run (start m) es).pending c
exactly_once m es c h =
    let v = (run-Good (start m) es (start-Good m)).inv in
    elim (v.accounted c h) [
      | inl done ↦ inl (done, λ id e live same. ground (arith, v.waiting id e live))
      | inr (id, e, live, same) ↦ inr (
        ground (arith, v.waiting id e live),
        (id, e, live, same, λ j f other q. v.distinct j id f e other live (ground arith)),
      )
    ]

-- The indexes and the running calls together know every pending request, and nothing else.
abbrev pub IsIndexed : System → Type 0
IsIndexed s =
    ((id : String) (e : Entry)
      → IsLive s.pending id e
      → ((indexed e.session_id id s.pending.sessions ≡ true) ⊎ InJobs s.jobs id)
        × (e.device_id ≢ "" → (indexed e.device_id id s.pending.devices ≡ true) ⊎ InJobs s.jobs id))
    × ((k id : String)
        → indexed k id s.pending.sessions ≡ true
        → (e : Entry) × IsLive s.pending id e × (e.session_id ≡ k))
    × ((k id : String)
        → indexed k id s.pending.devices ≡ true
        → (e : Entry) × IsLive s.pending id e × (e.device_id ≡ k) × (k ≢ ""))

-- After any interleaving, a pending request is found by its session, and by its device once it has one,
-- unless a running `CancelSession` or `FailDevice` still has it to complete; and what the two indexes
-- hold is pending, under the session and the device that the request has.
pub run-IsIndexed : (m : ℕ) (es : List Event) → IsIndexed (run (start m) es)
run-IsIndexed m es =
    let g = run-Good (start m) es (start-Good m) in
    (
      λ id e live. (g.tracked.by_session id e live, g.tracked.by_device id e live),
      g.inv.in_session,
      g.inv.in_device,
    )

deliver-max :
    (p : Pending) (id : String) (r : Result) → (deliver p id r).0.max_entries ≡ p.max_entries
unfolding deliver complete remove_entry
deliver-max p id r = ground arith

continue-max :
    (n : ℕ) (jobs : List Job) (p : Pending) → (continue p n jobs).0.max_entries ≡ p.max_entries
continue-max n jobs p = elim (continue-Turns p n jobs) [
  | inl (same, _) ↦ ap (λ q. q.max_entries) same
  | inr (id, r, same, _) ↦ ap (λ q. q.max_entries) same ∙ deliver-max p id r
]

step-max : (s : System) (e : Event) → (step s e).pending.max_entries ≡ s.pending.max_entries
unfolding step after_register after_associate begin register associate record_entry rebind
    take_session take_device
step-max s (registers session original random) = ground arith
step-max s (associates id device) = ground arith
step-max s (responds id result) = deliver-max s.pending id result
step-max s (expires id) = deliver-max s.pending id (failure deadline_exceeded)
step-max s (cancels session) = refl
step-max s (fails device cause) = refl
step-max s (continues n) = continue-max n s.jobs s.pending

run-max : (s : System) (es : List Event) → (run s es).pending.max_entries ≡ s.pending.max_entries
unfolding run
run-max s [] = refl
run-max s (e ∷ es) = run-max (step s e) es ∙ step-max s e

-- After any interleaving, a bounded registry holds at most its maximum of requests.
pub capacity : (m : ℕ) (es : List Event) → 0 < m → length (run (start m) es).pending.entries ≤ m
unfolding start new_pending
capacity m es h =
    omega (arith, (run-Good (start m) es (start-Good m)).inv.bounded, run-max (start m) es)
