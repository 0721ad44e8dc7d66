-- ===== src/Pending/Cancel.antt =====
-- What a whole call of `CancelSession` or `FailDevice` of internal/mcpgateway/pending.go does, when no
-- other such call is half way through.
use roblox_mcp_gateway.Prelude.{
  ℕ, ◌≡◌, refl, sym, subst, ◌∙◌, ◌≢◌, inl, inr, ◌↔◌, String, true, false, List, [], ◌∷◌, Option,
  none, some, ◌==◌, nat_beq, if◌then◌else◌, string_comparable, arith, eq_iff, Option-cases,
  Bool-cases,
}
use roblox_mcp_gateway.Prelude.Map.{lookup, erase}
use roblox_mcp_gateway.Prelude.Set.{contains}
use roblox_mcp_gateway.Pending.{
  Error, cancelled, Result, Entry, Pending, deliver, complete, remove_entry, deliver_all,
  take_session, take_device, cancel_session, fail_device, failure, cause_or, members,
}
use roblox_mcp_gateway.Pending.Index.{indexed}
use roblox_mcp_gateway.Pending.Schedule.{Event, System, run, start}
use roblox_mcp_gateway.Pending.Invariant.{IsLive, Inv, deliver-Inv, IsLive-after, IsLive-before}
use roblox_mcp_gateway.Pending.Associate.{take_session-Inv, take_device-Inv}
use roblox_mcp_gateway.Pending.Tracked.{Tracked}
use roblox_mcp_gateway.Pending.Once.{InJobs, Good, run-Good, start-Good}

-- What the waiter on a channel reads.
unfoldable pub received : ℕ → List (ℕ × Result) → Option Result
received c [] = none
received c ((d, r) ∷ log) = if nat_beq d c then some r else received c log

IsLive-deliver :
    (p : Pending) (id : String) (r : Result) (j : String) (f : Entry)
    → Inv p
    → IsLive (deliver p id r).0 j f ↔ (IsLive p j f × (j ≢ id))
unfolding deliver
IsLive-deliver p id r j f v = elim (Option-cases (lookup id p.entries)) [
  | inl gone ↦ rw (gone, deliver) (λ h. (h, λ q. ground (arith)), λ h. h.0)
  | inr (e, live) ↦
      rw (live, deliver)
        (λ h. IsLive-after p v id e live r j f h, λ h. IsLive-before p v id e live r j f h.0 h.1)
]

-- A whole loop of deliveries completes exactly the ids given.
IsLive-deliver_all :
    (p : Pending) (ids : List String) (r : Result) (j : String) (f : Entry)
    → Inv p
    → IsLive (deliver_all p ids r) j f ↔ (IsLive p j f × (contains j ids ≡ false))
unfolding deliver_all contains
IsLive-deliver_all p [] r j f v = (λ h. (h, refl), λ h. h.0)
IsLive-deliver_all p (id ∷ ids) r j f v =
    let rest = IsLive-deliver_all (deliver p id r).0 ids r j f (deliver-Inv p id r v) in
    let head = IsLive-deliver p id r j f v in ground (arith, rest, head, eq_iff id j)

received-deliver :
    (p : Pending) (id : String) (r : Result) (e : Entry)
    → IsLive p id e
    → received e.channel (deliver p id r).0.sent ≡ some r
unfolding deliver complete received
received-deliver p id r e live = rw (live, deliver) (ground arith)

deliver_keeps :
    (p : Pending) (id : String) (r : Result) (c : ℕ)
    → received c p.sent ≡ some r
    → received c (deliver p id r).0.sent ≡ some r
unfolding deliver complete remove_entry received
deliver_keeps p id r c h = ground arith

deliver_all_keeps :
    (p : Pending) (ids : List String) (r : Result) (c : ℕ)
    → received c p.sent ≡ some r
    → received c (deliver_all p ids r).sent ≡ some r
unfolding deliver_all
deliver_all_keeps p [] r c h = h
deliver_all_keeps p (id ∷ ids) r c h =
    deliver_all_keeps (deliver p id r).0 ids r c (deliver_keeps p id r c h)

received-deliver_all :
    (p : Pending) (ids : List String) (r : Result) (j : String) (e : Entry)
    → Inv p
    → IsLive p j e
    → contains j ids ≡ true
    → received e.channel (deliver_all p ids r).sent ≡ some r
unfolding deliver_all contains
received-deliver_all p [] r j e v live h = cc
received-deliver_all p (id ∷ ids) r j e v live h = elim (Bool-cases (id == j)) [
  | inl same ↦
      deliver_all_keeps (deliver p id r).0 ids r e.channel
        (received-deliver p id r e (subst (λ i. IsLive p i e) (sym ((eq_iff id j).0 same)) live))
  | inr other ↦
      received-deliver_all (deliver p id r).0 ids r j e (deliver-Inv p id r v)
        ((IsLive-deliver p id r j e v).1 (live, λ q. ground (arith, eq_iff id j))) (ground arith)
]

-- What completing the requests that `P` holds of, with one result, does.
abbrev pub Completes : (Entry → Type 0) → Result → Pending → Pending → Type 0
Completes P r p q =
    ((j : String) (f : Entry) → IsLive q j f ↔ (IsLive p j f × ¬ P f))
    × ((j : String) (f : Entry) → IsLive p j f → P f → received f.channel q.sent ≡ some r)

-- A loop over a set that holds just the ids of such requests, after the set was taken out.
completes :
    (P : Entry → Type 0) (r : Result) (p q : Pending) (ids : List String)
    → Inv q
    → ((j : String) (f : Entry) → IsLive q j f ↔ IsLive p j f)
    → ((j : String) (f : Entry) → IsLive p j f → (contains j ids ≡ true) ↔ P f)
    → Completes P r p (deliver_all q ids r)
completes P r p q ids v same holds = (
  λ j f. (
    λ h.
        let (l, out) = (IsLive-deliver_all q ids r j f v).0 h in
        let l' = (same j f).0 l in (l', λ y. ground (arith, (holds j f l').1 y)),
    λ h. (IsLive-deliver_all q ids r j f v).1 (
      (same j f).1 h.0,
      elim (Bool-cases (contains j ids)) [
        | inl out ↦ absurd (h.1 ((holds j f h.0).0 out))
        | inr out ↦ out
      ],
    ),
  ),
  λ j f l y. received-deliver_all q ids r j f v ((same j f).1 l) ((holds j f l).1 y),
)

session_holds :
    (p : Pending) (session : String)
    → Inv p
    → Tracked (InJobs []) p
    → (j : String) (f : Entry) → IsLive p j f
    → (indexed session j p.sessions ≡ true) ↔ (f.session_id ≡ session)
session_holds p session v t j f l = (
  λ h. ground (arith, v.in_session session j h),
  λ e. subst (λ k. indexed k j p.sessions ≡ true) e (ground (arith, t.by_session j f l)),
)

device_holds :
    (p : Pending) (device : String)
    → device ≢ ""
    → Inv p
    → Tracked (InJobs []) p
    → (j : String) (f : Entry) → IsLive p j f
    → (indexed device j p.devices ≡ true) ↔ (f.device_id ≡ device)
device_holds p device named v t j f l = (
  λ h. ground (arith, v.in_device device j h),
  λ e.
      subst (λ k. indexed k j p.devices ≡ true) e
        (ground (arith, t.by_device j f l (λ q. named (sym e ∙ q)))),
)

-- In any reachable state in which no other such call is half way through, `CancelSession` completes
-- exactly the pending requests of its session, each with the cancellation result, and leaves every
-- other request pending as it was.
pub cancel_session-Completes :
    (m : ℕ) (es : List Event) (session : String)
    → (run (start m) es).jobs ≡ []
    → let p = (run (start m) es).pending in
      Completes (λ f. f.session_id ≡ session) (failure cancelled) p (cancel_session p session)
unfolding cancel_session take_session indexed
cancel_session-Completes m es session idle =
    let g = run-Good (start m) es (start-Good m) in
    let p = (run (start m) es).pending in
    completes _ _ p (record p { sessions = erase session p.sessions }) (members session p.sessions)
      (take_session-Inv p session g.inv) (λ j f. (λ h. h, λ h. h))
      (session_holds p session g.inv (subst (λ js. Tracked (InJobs js) p) idle g.tracked))

-- `FailDevice`, in a state with the invariant.
pub Good-fail_device :
    (s : System) (device : String) (cause : Option Error)
    → Good s
    → device ≢ ""
    → s.jobs ≡ []
    → Completes
        (λ f. f.device_id ≡ device)
        (failure (cause_or cause))
        s.pending
        (fail_device s.pending device cause)
unfolding fail_device take_device indexed
Good-fail_device s device cause g named idle =
    let p = s.pending in
    completes _ _ p (record p { devices = erase device p.devices }) (members device p.devices)
      (take_device-Inv p device g.inv) (λ j f. (λ h. h, λ h. h))
      (device_holds p device named g.inv (subst (λ js. Tracked (InJobs js) p) idle g.tracked))

-- In any reachable state in which no other such call is half way through, `FailDevice` completes
-- exactly the pending requests forwarded to its device, each with the given cause, or with
-- `ErrDeviceFailed` if there is none, and leaves every other request pending as it was.
pub fail_device-Completes :
    (m : ℕ) (es : List Event) (device : String) (cause : Option Error)
    → device ≢ ""
    → (run (start m) es).jobs ≡ []
    → let p = (run (start m) es).pending in
      Completes
        (λ f. f.device_id ≡ device)
        (failure (cause_or cause))
        p
        (fail_device p device cause)
fail_device-Completes m es device cause named idle =
    Good-fail_device (run (start m) es) device cause (run-Good (start m) es (start-Good m)) named
      idle
