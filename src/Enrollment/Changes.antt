-- ===== src/Enrollment/Changes.antt =====
-- Each call of internal/device/enrollment.go, by what it does to the pending entries.
use roblox_mcp_gateway.Prelude.{
  ℕ, ◌+◌, String, ◌≡◌, ◌≢◌, refl, sym, subst, inl, inr, false, All, Option, none, some, Except, ok,
  err, ◌==◌, string_comparable, leb, length, arith, Option-cases, Except-cases, Bool-cases,
}
use roblox_mcp_gateway.Prelude.Map.{lookup, insert, All-insert}
use roblox_mcp_gateway.Entitlement
use roblox_mcp_gateway.Entitlement.Devices.{Draw}
use roblox_mcp_gateway.Enrollment
use roblox_mcp_gateway.Enrollment.{EnrollmentRecord, consume_enrollment_code}
use roblox_mcp_gateway.Enrollment.Pairing.{
  DeviceClaim, DeviceCredential, PendingEntry, Pairings, evict_expired, add_pending, begin_pairing,
  validate_claim, live_entry, lookup_pairing, mark_approved, approve_entry, approve,
}
use roblox_mcp_gateway.Enrollment.Exchange.{
  is_already_used, require_license, after_bind, bind_device, after_consume, exchange_entry,
  exchange,
}
use roblox_mcp_gateway.Enrollment.Calls.{begins, looks, approves, exchanges, Codec, apply}
use roblox_mcp_gateway.Enrollment.Entries.{Touches, approve_by, deny, All-evict, on_entry-Touches}

mark_approved-Touches :
    (e : Pairings) (key user_id : String) (entry : PendingEntry)
    (x : Except Enrollment.Error (Unit {0}) × Enrollment.Store)
    → lookup key e.pending ≡ some entry
    → Touches key (approve_by user_id) e (mark_approved e key entry user_id x).1
unfolding mark_approved
mark_approved-Touches e key user_id entry (err x, codes) f = inl refl
mark_approved-Touches e key user_id entry (ok u, codes) f = inr (inr (entry, f, refl))

approve_entry-Touches :
    (e : Pairings) (key user_id : String) (entry : PendingEntry) (now : ℕ) (drawn : Option String)
    → lookup key e.pending ≡ some entry
    → Touches key (approve_by user_id) e (approve_entry e key entry user_id now drawn).1
unfolding approve_entry
approve_entry-Touches e key user_id entry now none f = ground arith
approve_entry-Touches e key user_id entry now (some id) f = elim (Bool-cases entry.approved) [
  | inl done ↦ inl (ground arith)
  | inr open_ ↦ rw open_ (mark_approved-Touches e key user_id entry _ f)
]

after_bind-Touches :
    (e : Pairings) (key : String) (credential : DeviceCredential) (entry : PendingEntry)
    (x : Except Entitlement.Error (Entitlement.Entitlement × Entitlement.Binding)
      × Entitlement.Store)
    → lookup key e.pending ≡ some entry
    → Touches key deny e (after_bind e key credential x).1
unfolding after_bind require_license
after_bind-Touches e key credential entry (ok b, s) f = inr (inl refl)
after_bind-Touches e key credential entry (err x, s) f = elim (Bool-cases (is_already_used x)) [
  | inl used ↦ inr (inr (entry, f, ground arith))
  | inr other ↦ rw other (inl refl)
]

bind_device-Touches :
    (decode : String → Option String) (key : String) (drawn : Option (String × String))
    (draw : Draw) (clock : ℕ) (e : Pairings) (entry : PendingEntry) (row : EnrollmentRecord)
    → lookup key e.pending ≡ some entry
    → Touches key deny e (bind_device decode key drawn draw clock e entry row).1
unfolding bind_device
bind_device-Touches decode key drawn draw clock e entry row f =
    elim (Bool-cases (row.user_id == entry.approved_by)) [
      | inr other ↦ inl (ground arith)
      | inl owner ↦ elim (Option-cases drawn) [
        | inl n ↦ inl (ground arith)
        | inr ((token, digest), d) ↦ rw (owner, d) (after_bind-Touches e key _ entry _ f)
      ]
    ]

after_consume-Touches :
    (decode : String → Option String) (key : String) (drawn : Option (String × String))
    (draw : Draw) (clock : ℕ) (e : Pairings) (entry : PendingEntry)
    (x : Except Enrollment.Error EnrollmentRecord × Enrollment.Store)
    → lookup key e.pending ≡ some entry
    → Touches key deny e (after_consume decode key drawn draw clock e entry x).1
unfolding after_consume
after_consume-Touches decode key drawn draw clock e entry (err x, codes) f = inl refl
after_consume-Touches decode key drawn draw clock e entry (ok row, codes) f =
    bind_device-Touches decode key drawn draw clock (record e { codes = codes }) entry row f

exchange_entry-Touches :
    (decode : String → Option String) (key : String) (drawn : Option (String × String))
    (draw : Draw) (clock now : ℕ) (e : Pairings) (entry : PendingEntry)
    → lookup key e.pending ≡ some entry
    → Touches key deny e (exchange_entry decode key drawn draw clock now e entry).1
unfolding exchange_entry
exchange_entry-Touches decode key drawn draw clock now e entry f =
    elim (Bool-cases entry.approved) [
      | inr pending ↦ inl (ground arith)
      | inl done ↦ rw done (after_consume-Touches decode key drawn draw clock e entry _ f)
    ]

abbrev pub fresh_entry : Pairings → DeviceClaim → ℕ → PendingEntry
fresh_entry e claim now = record {
  claim = claim;
  status = "pending";
  approved = false;
  approved_by = "";
  expires_at = now + e.pending_ttl;
}

add_pending-All :
    (P : String × PendingEntry → Type 0) (e : Pairings) (claim : DeviceClaim) (now : ℕ)
    (key : String)
    → ((entry : PendingEntry) → entry.approved ≡ false → P (key, entry))
    → All P e.pending
    → All P (add_pending e claim now key).1.pending
unfolding add_pending
add_pending-All P e claim now key fresh h =
    elim (Bool-cases (leb e.max_pending (length (evict_expired now e.pending)))) [
      | inl full ↦
          let q : (add_pending e claim now key).1.pending ≡ evict_expired now e.pending =
            ground arith in
          subst (All P) (sym q) (All-evict P now e.pending h)
      | inr room ↦
          let q : (add_pending e claim now key).1.pending
              ≡ insert key (fresh_entry e claim now) (evict_expired now e.pending) =
            ground arith in
          subst (All P) (sym q) (
            All-insert P key (fresh_entry e claim now) (evict_expired now e.pending)
              (All-evict P now e.pending h) (fresh (fresh_entry e claim now) refl))
    ]

module _ (c : Codec) (e : Pairings) where
  pub looks-Touches :
      (user_code : String) (now : ℕ)
      → Touches (c.digest_of user_code) (λ x. x) e (apply c e (looks user_code now))
  unfolding apply lookup_pairing live_entry
  looks-Touches user_code now = elim (Option-cases (lookup (c.digest_of user_code) e.pending)) [
    | inl n ↦ ground arith
    | inr (entry, f) ↦ ground arith
  ]

  pub approves-Touches :
      (user_id user_code : String) (now : ℕ) (drawn : Option String)
      → user_id ≢ ""
      → Touches
          (c.digest_of user_code)
          (approve_by user_id)
          e
          (apply c e (approves user_id user_code now drawn))
  unfolding apply approve
  approves-Touches user_id user_code now drawn named = ground (
    arith,
    on_entry-Touches e (c.digest_of user_code) (approve_by user_id) now
        (λ f entry. approve_entry f (c.digest_of user_code) entry user_id now drawn)
        (λ entry f. approve_entry-Touches e (c.digest_of user_code) user_id entry now drawn f),
  )

  pub exchanges-Touches :
      (device_code : String) (now : ℕ) (drawn : Option (String × String)) (draw : Draw) (clock : ℕ)
      → Touches
          (c.digest_of device_code)
          deny
          e
          (apply c e (exchanges device_code now drawn draw clock))
  unfolding apply exchange
  exchanges-Touches device_code now drawn draw clock = ground (
    arith,
    on_entry-Touches e (c.digest_of device_code) deny now
        (exchange_entry c.decode (c.digest_of device_code) drawn draw clock now)
        (exchange_entry-Touches c.decode (c.digest_of device_code) drawn draw clock now e),
  )

  pub begins-All :
      (P : String × PendingEntry → Type 0) (claim : DeviceClaim) (now : ℕ) (drawn : Option String)
      → ((key : String) (entry : PendingEntry) → entry.approved ≡ false → P (key, entry))
      → All P e.pending
      → All P (apply c e (begins claim now drawn)).pending
  unfolding apply begin_pairing add_pending
  begins-All P claim now none fresh h = elim (Except-cases (validate_claim c.trim_space claim)) [
    | inr (x, f) ↦ rw (f, All) h
    | inl (u, f) ↦ rw (f, All) h
  ]
  begins-All P claim now (some key) fresh h =
      elim (Except-cases (validate_claim c.trim_space claim)) [
        | inr (x, f) ↦ rw (f, All) h
        | inl (u, f) ↦ rw (f, All) (add_pending-All P e claim now key (fresh key) h)
      ]
