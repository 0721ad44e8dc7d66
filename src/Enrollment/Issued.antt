-- ===== src/Enrollment/Issued.antt =====
-- Whom a device credential of internal/device/enrollment.go is issued to, over any sequence of its calls.
use roblox_mcp_gateway.Prelude.{
  ℕ, String, ◌≡◌, ◌≢◌, refl, sym, subst, inl, inr, true, List, [], ◌∷◌, All, Any, Option, ok, ◌==◌,
  string_comparable, arith, eq_iff, Bool-cases,
}
use roblox_mcp_gateway.Prelude.Map.{All-lookup}
use roblox_mcp_gateway.Entitlement.Devices.{Draw}
use roblox_mcp_gateway.Enrollment.Pairing.{DeviceCredential, PendingEntry, Pairings, approve}
use roblox_mcp_gateway.Enrollment.Exchange.{exchange}
use roblox_mcp_gateway.Enrollment.Calls.{
  Call, begins, looks, approves, exchanges, Codec, apply, run,
}
use roblox_mcp_gateway.Enrollment.Entries.{All-mono, Touches-All, approve_by, deny}
use roblox_mcp_gateway.Enrollment.Changes.{
  looks-Touches, approves-Touches, exchanges-Touches, begins-All,
}
use roblox_mcp_gateway.Enrollment.Exchanged.{IsIssued, exchange-IsIssued}

-- The call is an approval of the code with this digest by this user.
abbrev pub IsApproval : Codec → String → String → Call → Type 0
IsApproval c key user_id (approves user user_code now drawn) =
    (user ≡ user_id) × (user ≢ "") × (c.digest_of user_code ≡ key)
IsApproval c key user_id (begins claim now drawn) = ⊥
IsApproval c key user_id (looks user_code now) = ⊥
IsApproval c key user_id (exchanges device_code now drawn draw clock) = ⊥

-- An approved entry was approved, by its approver.
abbrev WasApproved : Codec → List Call → String × PendingEntry → Type 0
WasApproved c ops (key, entry) =
    entry.approved ≡ true → Any (IsApproval c key entry.approved_by) ops

approve-nobody :
    (c : Codec) (e : Pairings) (user_id user_code : String) (now : ℕ) (drawn : Option String)
    → (user_id == "") ≡ true
    → (apply c e (approves user_id user_code now drawn)).pending ≡ e.pending
unfolding apply approve
approve-nobody c e user_id user_code now drawn h = ground arith

apply-WasApproved :
    (c : Codec) (e : Pairings) (op : Call) (ops : List Call)
    → All (WasApproved c ops) e.pending
    → All (WasApproved c (op ∷ ops)) (apply c e op).pending
apply-WasApproved c e op ops h =
    elim op as (λ op. All (WasApproved c (op ∷ ops)) (apply c e op).pending) [
      | begins claim now drawn ↦
          let P : String × PendingEntry → Type 0 = WasApproved c (begins claim now drawn ∷ ops) in
          begins-All c e P claim now drawn (λ key entry fresh approved. absurd (ground arith))
            (older (begins claim now drawn))
      | looks user_code now ↦
          let P : String × PendingEntry → Type 0 = WasApproved c (looks user_code now ∷ ops) in
          Touches-All P (c.digest_of user_code) (λ x. x) e (apply c e (looks user_code now))
            (looks-Touches c e user_code now) (λ entry p. p) (older (looks user_code now))
      | exchanges device_code now drawn draw clock ↦
          let P : String × PendingEntry → Type 0 =
            WasApproved c (exchanges device_code now drawn draw clock ∷ ops) in
          Touches-All P (c.digest_of device_code) deny e
            (apply c e (exchanges device_code now drawn draw clock))
            (exchanges-Touches c e device_code now drawn draw clock) (λ entry p. p)
            (older (exchanges device_code now drawn draw clock))
      | approves user_id user_code now drawn ↦ elim (Bool-cases (user_id == "")) [
        | inl nobody ↦
            let P : String × PendingEntry → Type 0 =
              WasApproved c (approves user_id user_code now drawn ∷ ops) in
            subst (All P) (sym (approve-nobody c e user_id user_code now drawn nobody))
              (older (approves user_id user_code now drawn))
        | inr named ↦
            let P : String × PendingEntry → Type 0 =
              WasApproved c (approves user_id user_code now drawn ∷ ops) in
            let somebody : user_id ≢ "" = ground (arith, eq_iff user_id "") in
            Touches-All P (c.digest_of user_code) (approve_by user_id) e
              (apply c e (approves user_id user_code now drawn))
              (approves-Touches c e user_id user_code now drawn somebody)
              (λ entry p approved. inl (refl, somebody, refl))
              (older (approves user_id user_code now drawn))
      ]
    ]
  where
    older : (op : Call) → All (WasApproved c (op ∷ ops)) e.pending
    older op =
        All-mono (WasApproved c ops) (WasApproved c (op ∷ ops)) e.pending
          (λ x p approved. inr (p approved)) h

run-WasApproved :
    (c : Codec) (e : Pairings) (ops : List Call)
    → e.pending ≡ []
    → All (WasApproved c ops) (run c e ops).pending
unfolding run
run-WasApproved c e [] empty = rw (empty, All) tt
run-WasApproved c e (op ∷ ops) empty =
    apply-WasApproved c (run c e ops) op ops (run-WasApproved c e ops empty)

-- After any sequence of calls since the start, with no pending code, a device credential is issued
-- only for a code that was approved by a call of the credential's user; the code is pending and not
-- expired, its row in the store is that user's and could be consumed, the device is the one that the
-- Bridge claimed; afterwards the code is no longer pending, and the store of codes is the one that the
-- consumption leaves, in which no row of its id is unconsumed.
pub IsIssued-approved :
    (c : Codec) (e : Pairings) (ops : List Call) (device_code : String) (now : ℕ)
    (drawn : Option (String × String)) (draw : Draw) (clock : ℕ) (credential : DeviceCredential)
    → e.pending ≡ []
    → (exchange c.decode c.digest_of (run c e ops) device_code now drawn draw clock).0
      ≡ ok credential
    → Any (IsApproval c (c.digest_of device_code) credential.user_id) ops
      × IsIssued
          (run c e ops)
          (c.digest_of device_code)
          now
          credential
          (exchange c.decode c.digest_of (run c e ops) device_code now drawn draw clock).1
IsIssued-approved c e ops device_code now drawn draw clock credential empty h =
    let issued = exchange-IsIssued c (run c e ops) device_code now drawn draw clock credential h in
    let (entry, row, found, _, approved, _, _, owner, _, _, _, _) = issued in
    (
      rw owner (
          All-lookup (WasApproved c ops) (c.digest_of device_code) entry (run c e ops).pending
            (run-WasApproved c e ops empty) found approved),
      issued,
    )
