-- ===== src/Enrollment/Exchanged.antt =====
-- What a successful `Exchange` of internal/device/enrollment.go rests on.
use roblox_mcp_gateway.Prelude.{
  ℕ, ◌<◌, String, ◌≡◌, refl, ap, ◌∙◌, inl, inr, true, List, Option, none, some, Except, ok, err,
  ◌==◌, string_comparable, arith, eq_iff, eq_self, Option-cases, Bool-cases,
}
use roblox_mcp_gateway.Prelude.Map.{lookup, erase, lookup-erase}
use roblox_mcp_gateway.Entitlement
use roblox_mcp_gateway.Entitlement.Devices.{Draw}
use roblox_mcp_gateway.Entitlement.Trial.{bind_first_device}
use roblox_mcp_gateway.Enrollment
use roblox_mcp_gateway.Prelude.Table.{select, select-cleared}
use roblox_mcp_gateway.Enrollment.{
  EnrollmentCode, EnrollmentRecord, is_null, redeemable, identity_of, marks, mark_consumed,
  consume_enrollment_code,
}
use roblox_mcp_gateway.Enrollment.Pairing.{
  DeviceCredential, PendingEntry, Pairings, Outcome, on_entry,
}
use roblox_mcp_gateway.Enrollment.Exchange.{
  binding_of, after_bind, bind_device, after_consume, exchange_entry, exchange,
}
use roblox_mcp_gateway.Enrollment.Calls.{Codec}
use roblox_mcp_gateway.Enrollment.Entries.{live_entry-cases}

-- What an exchange that succeeds rests on.
abbrev pub IsIssued : Pairings → String → ℕ → DeviceCredential → Pairings → Type 0
IsIssued e key now credential after =
    (entry : PendingEntry) × (row : EnrollmentRecord) × (lookup key e.pending ≡ some entry)
    × (now < entry.expires_at)
    × (entry.approved ≡ true)
    × ((consume_enrollment_code e.codes key now).0 ≡ ok row)
    × (row.user_id ≡ entry.approved_by)
    × (credential.user_id ≡ entry.approved_by)
    × (credential.device_id ≡ entry.claim.device_id)
    × (lookup key after.pending ≡ none)
    × (after.codes ≡ (consume_enrollment_code e.codes key now).1)
    × (select (marks row.id) after.codes.codes ≡ none)

erased : (key : String) (m : List (String × PendingEntry)) → lookup key (erase key m) ≡ none
erased key m = ground (arith, lookup-erase key key m, eq_self key)

-- After a consumption no row with the returned id is left unconsumed.
consumed-marked :
    (s : Enrollment.Store) (key : String) (now : ℕ) (row : EnrollmentRecord)
    → (consume_enrollment_code s key now).0 ≡ ok row
    → select (marks row.id) (consume_enrollment_code s key now).1.codes ≡ none
unfolding consume_enrollment_code marks mark_consumed
consumed-marked s key now row h = elim (Option-cases (select (redeemable key now) s.codes)) [
  | inl n ↦ absurd (ground arith)
  | inr (c, e) ↦ elim (Option-cases (select (identity_of c.user_id) s.identities)) [
    | inl n ↦ absurd (ground arith)
    | inr (i, n) ↦ ground (
      arith,
      select-cleared (marks c.id) (marks c.id) (mark_consumed now) s.codes (λ x. ground arith),
    )
  ]
]

-- What the parts of a successful exchange give.
after_bind-ok :
    (e : Pairings) (key : String) (made credential : DeviceCredential)
    (x : Except Entitlement.Error (Entitlement.Entitlement × Entitlement.Binding)
      × Entitlement.Store)
    → (after_bind e key made x).0 ≡ ok credential
    → (credential ≡ made)
      × ((after_bind e key made x).1.pending ≡ erase key e.pending)
      × ((after_bind e key made x).1.codes ≡ e.codes)
unfolding after_bind
after_bind-ok e key made credential (err x, s) h = absurd (ground arith)
after_bind-ok e key made credential (ok b, s) h = (ground arith, refl, refl)

module _ (c : Codec) (key : String) (drawn : Option (String × String)) (draw : Draw) (clock : ℕ)
    (credential : DeviceCredential) (entry : PendingEntry) where
  abbrev IsFor : EnrollmentRecord → Pairings → Enrollment.Store → Pairings → Type 0
  IsFor row e codes after =
      (row.user_id ≡ entry.approved_by)
      × (credential.user_id ≡ entry.approved_by)
      × (credential.device_id ≡ entry.claim.device_id)
      × (after.pending ≡ erase key e.pending)
      × (after.codes ≡ codes)

  bind_device-ok :
      (e : Pairings) (row : EnrollmentRecord)
      → (bind_device c.decode key drawn draw clock e entry row).0 ≡ ok credential
      → IsFor row e e.codes (bind_device c.decode key drawn draw clock e entry row).1
  unfolding bind_device
  bind_device-ok e row h = elim (Bool-cases (row.user_id == entry.approved_by)) [
    | inr other ↦ absurd (ground arith)
    | inl owner ↦ elim (Option-cases drawn) [
      | inl n ↦ absurd (ground arith)
      | inr ((token, digest), d) ↦
          let made : DeviceCredential = record {
            token = token;
            device_id = entry.claim.device_id;
            user_id = row.user_id;
          } in
          let x =
            bind_first_device c.decode e.entitlements (binding_of entry.claim row digest) draw
              clock in
          let same : (row.user_id ≡ entry.approved_by) =
            (eq_iff row.user_id entry.approved_by).0 owner in
          let (is, gone, kept) = after_bind-ok e key made credential x (ground arith) in
          (same, ground arith, ground arith, ground arith, ground arith)
    ]
  ]

  after_consume-ok :
      (e : Pairings) (x : Except Enrollment.Error EnrollmentRecord × Enrollment.Store)
      → (after_consume c.decode key drawn draw clock e entry x).0 ≡ ok credential
      → (row : EnrollmentRecord) × (x.0 ≡ ok row)
        × IsFor row e x.1 (after_consume c.decode key drawn draw clock e entry x).1
  unfolding after_consume
  after_consume-ok e (err x, codes) h = absurd (ground arith)
  after_consume-ok e (ok row, codes) h =
      (row, refl, bind_device-ok (record e { codes = codes }) row h)

  exchange_entry-ok :
      (now : ℕ) (e : Pairings)
      → (exchange_entry c.decode key drawn draw clock now e entry).0 ≡ ok credential
      → (row : EnrollmentRecord) × (entry.approved ≡ true)
        × ((consume_enrollment_code e.codes key now).0 ≡ ok row)
        × IsFor row e
            (consume_enrollment_code e.codes key now).1
            (exchange_entry c.decode key drawn draw clock now e entry).1
  unfolding exchange_entry
  exchange_entry-ok now e h = elim (Bool-cases entry.approved) [
    | inr waiting ↦ absurd (ground arith)
    | inl done ↦
        let x = consume_enrollment_code e.codes key now in
        let t : Outcome DeviceCredential = after_consume c.decode key drawn draw clock e entry x in
        let same : exchange_entry c.decode key drawn draw clock now e entry ≡ t = ground arith in
        let (row, f, (owner, user, device, gone, kept)) = after_consume-ok e x (ground arith) in
        (
          row,
          done,
          f,
          (
            owner,
            user,
            device,
            ap (λ (o : Outcome DeviceCredential). o.1.pending) same ∙ gone,
            ap (λ (o : Outcome DeviceCredential). o.1.codes) same ∙ kept,
          ),
        )
  ]

pub exchange-IsIssued :
    (c : Codec) (e : Pairings) (device_code : String) (now : ℕ) (drawn : Option (String × String))
    (draw : Draw) (clock : ℕ) (credential : DeviceCredential)
    → (exchange c.decode c.digest_of e device_code now drawn draw clock).0 ≡ ok credential
    → IsIssued e
        (c.digest_of device_code)
        now
        credential
        (exchange c.decode c.digest_of e device_code now drawn draw clock).1
unfolding exchange on_entry
exchange-IsIssued c e device_code now drawn draw clock credential h =
    let key : String = c.digest_of device_code in
    elim (live_entry-cases e key now) [
      | inl (x, q) ↦ absurd (ground arith)
      | inr (inl (x, q)) ↦ absurd (ground arith)
      | inr (inr (entry, found, live, q)) ↦
          let same : exchange c.decode c.digest_of e device_code now drawn draw clock
              ≡ exchange_entry c.decode key drawn draw clock now e entry =
            ground arith in
          let (row, approved, consumed, (owner, user, device, gone, kept)) =
            exchange_entry-ok c key drawn draw clock credential entry now e (ground arith) in
          (
            entry,
            row,
            found,
            live,
            approved,
            consumed,
            owner,
            user,
            device,
            ground (arith, erased key e.pending),
            ground arith,
            ground (arith, consumed-marked e.codes key now row),
          )
    ]
