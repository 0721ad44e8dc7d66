-- ===== src/Entitlement/Recovery.antt =====
-- What identity recovery and a re-claim leave of the credentials (internal/mysqlstore/entitlement_store.go).
use roblox_mcp_gateway.Prelude.{
  ℕ, String, ◌≡◌, refl, inl, inr, Except, err, Bool-cases, ◌==◌, Bool, true, false, List, [], ◌∷◌,
  Option, none, some, ok, nat_comparable, string_comparable, arith, eq_iff, eq_self,
}
use roblox_mcp_gateway.Prelude.Table.{select, count_where, update}
use roblox_mcp_gateway.Entitlement.{
  FirstDeviceBinding, is_active, Entitlement, Binding, Device, Credential, Store, Error, commit,
  ensure_user,
}
use roblox_mcp_gateway.Entitlement.Devices.{
  Draw, update_device, insert_credential, live_on, revoke_credential,
}
use roblox_mcp_gateway.Entitlement.Trial.{
  reclaim, of_user, bind_with, bind_decoded, bind_first_device, lacks_field,
}
use roblox_mcp_gateway.Entitlement.Licenses.{live_credential, live_session, recover_identity}

-- An UPDATE of the rows that meet a condition, to rows that do not, leaves none.
count_where-cleared {ℓ} :
    {A : Type ℓ} (p : A → Bool) (f : A → A) (xs : List A)
    → ((x : A) → p (f x) ≡ false)
    → count_where p (update p f xs) ≡ 0
unfolding count_where update
count_where-cleared p f [] clears = refl
count_where-cleared p f (x ∷ xs) clears =
    ground (arith, count_where-cleared p f xs clears, clears x)

-- A recovery that succeeds revokes every credential and session of the user, and no trial changes.
pub recover-revokes :
    (s : Store) (user_id reason evidence_ref case_id : String) (now : ℕ)
    → (recover_identity s user_id reason evidence_ref case_id now).0 ≡ ok tt
    → let t = (recover_identity s user_id reason evidence_ref case_id now).1 in
      (count_where (live_credential user_id) t.credentials ≡ 0)
      × (count_where (live_session user_id) t.sessions ≡ 0)
      × (t.trials ≡ s.trials)
unfolding recover_identity live_credential live_session
recover-revokes s user_id reason evidence_ref case_id now h = ground (
  arith,
  count_where-cleared (live_credential user_id) (λ c. record c { revoked_at = some now })
      s.credentials (λ c. ground arith),
  count_where-cleared (live_session user_id) (λ w. record w { revoked_at = some now }) s.sessions
      (λ w. ground arith),
)

abbrev pub HasDigest : String → Option Credential → Type 0
HasDigest digest none = ⊥
HasDigest digest (some c) = c.digest ≡ digest

abbrev pub IsOwn : String → Option Device → Type 0
IsOwn user_id none = ⊥
IsOwn user_id (some d) = (d.user_id ≡ user_id) × (is_active d.status ≡ true)

-- The part of the re-claim, on the row that was read.
reclaim-ok :
    (s w : Store) (trial : Entitlement) (device : Option Device) (input : FirstDeviceBinding)
    (fingerprint : Option String) (draw : Draw) (now : ℕ) (x : Entitlement × Binding)
    → reclaim s trial device input fingerprint draw now ≡ ok (x, w)
    → (count_where (live_on input.device_id input.user_id) w.credentials ≡ 1)
      × HasDigest input.credential_digest
          (select (live_on input.device_id input.user_id) w.credentials)
      × IsOwn input.user_id device
      × (w.trials ≡ s.trials)
unfolding reclaim update_device insert_credential live_on revoke_credential count_where select
reclaim-ok s w trial none input fingerprint draw now x h = ground arith
reclaim-ok s w trial (some d) input fingerprint draw now x h = ground (
  arith,
  count_where-cleared (live_on input.device_id input.user_id) (revoke_credential now) s.credentials
      (λ c. ground arith),
  eq_iff d.user_id input.user_id,
  eq_self input.device_id,
  eq_self input.user_id,
)

module _ (s : Store) (input : FirstDeviceBinding) where
  -- What a re-claim of the input's device, in the store with the device's row, has come to in `t`.
  abbrev pub IsReclaimed : Store → Type 0
  IsReclaimed t =
      (count_where (live_on input.device_id input.user_id) t.credentials ≡ 1)
      × HasDigest input.credential_digest
          (select (live_on input.device_id input.user_id) t.credentials)
      × IsOwn input.user_id (select (λ d. d.id == input.device_id) s.devices)
      × (t.trials ≡ s.trials)

  bind_with-ok :
      (trial : Entitlement) (fingerprint : Option String) (draw : Draw) (now : ℕ)
      (x : Entitlement × Binding) (w : Store)
      → select (of_user input.user_id) s.trials ≡ some trial
      → bind_with s input fingerprint draw now ≡ ok (x, w)
      → IsReclaimed w
  unfolding bind_with ensure_user
  bind_with-ok trial fingerprint draw now x w has h =
      let t = ensure_user s input.user_id in
      let device = select (λ d. d.id == input.device_id) t.devices in
      ground (arith, reclaim-ok t w trial device input fingerprint draw now x)

  commit-ok :
      (r : Except Error ((Entitlement × Binding) × Store)) (x : Entitlement × Binding)
      → (commit s r).0 ≡ ok x
      → r ≡ ok (x, (commit s r).1)
  commit-ok (ok (y, t)) x h = ground arith
  commit-ok (err e) x h = absurd (ground arith)

  bind_decoded-ok :
      (trial : Entitlement) (decoded : Option String) (draw : Draw) (now : ℕ)
      (x : Entitlement × Binding)
      → select (of_user input.user_id) s.trials ≡ some trial
      → (bind_decoded s input decoded draw now).0 ≡ ok x
      → IsReclaimed (bind_decoded s input decoded draw now).1
  unfolding bind_decoded
  bind_decoded-ok trial none draw now x has h = absurd (ground arith)
  bind_decoded-ok trial (some f) draw now x has h =
      let r = bind_with s input (some f) draw now in
      bind_with-ok trial (some f) draw now x (commit s r).1 has (commit-ok r x h)

-- When a user who has a trial binds a device again with success, the device of the input is stored as an
-- active one of that user's; it then has exactly one live credential, the new one, and no trial changes.
pub reclaim-credential :
    (decode : String → Option String) (s : Store) (input : FirstDeviceBinding) (trial : Entitlement)
    (draw : Draw) (now : ℕ) (x : Entitlement × Binding)
    → select (of_user input.user_id) s.trials ≡ some trial
    → (bind_first_device decode s input draw now).0 ≡ ok x
    → IsReclaimed s input (bind_first_device decode s input draw now).1
unfolding bind_first_device
reclaim-credential decode s input trial draw now x has h =
    let r = bind_with s input none draw now in
    elim (Bool-cases (lacks_field input)) [
      | inl lacking ↦ absurd (ground arith)
      | inr whole ↦ elim (Bool-cases (input.fingerprint_hash == "")) [
        | inl without ↦
            rw (whole, without)
              (bind_with-ok s input trial none draw now x (commit s r).1 has
                (commit-ok s input r x (rw (whole, without) at h)))
        | inr given ↦
            rw (whole, given)
              (bind_decoded-ok s input trial (decode input.fingerprint_hash) draw now x has
                (rw (whole, given) at h))
      ]
    ]
