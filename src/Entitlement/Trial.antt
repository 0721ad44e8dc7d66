-- ===== src/Entitlement/Trial.antt =====
-- The one-time trial: `BindFirstDevice`, `Authorize` and `ExtendTrial` of
-- internal/mysqlstore/entitlement_store.go, with the guards of internal/entitlement/service.go. The
-- decoding of a fingerprint from its 64 hexadecimal digits is the argument `decode`, `none` for a text
-- that is not one.
use roblox_mcp_gateway.Prelude.{
  ℕ, ◌+◌, String, Bool, false, not, ◌&&◌, ◌||◌, ◌∷◌, Option, none, some, Except, ok, err, ◌>>=◌,
  ◌>>◌, reject_if, ◌==◌, nat_comparable, string_comparable, if◌then◌else◌, ltb,
}
use roblox_mcp_gateway.Prelude.Table.{select, count_where, update}
use roblox_mcp_gateway.Entitlement.{
  Error, not_found, trial_already_used, device_already_used, invalid_extension,
  device_owned_by_other, invalid_argument, device_not_active, trial_window, FirstDeviceBinding,
  active, is_active, Entitlement, Decision, Binding, License, Device, TrialIdentity, Store, Outcome,
  commit, nullable_string, ensure_user,
}
use roblox_mcp_gateway.Entitlement.Devices.{
  Draw, claimed_elsewhere, update_device, insert_credential, live_on, revoke_credential, is_foreign,
  register_device,
}

-- The re-claim of a device by a user who has a trial.
unfoldable pub reclaim :
    Store
    → Entitlement
    → Option Device
    → FirstDeviceBinding
    → Option String
    → Draw
    → ℕ
    → Except Error ((Entitlement × Binding) × Store)
unfolding update_device insert_credential live_on revoke_credential
reclaim s trial none input fingerprint draw now = err trial_already_used
reclaim s trial (some d) input fingerprint draw now =
    reject_if (not (d.user_id == input.user_id)) device_owned_by_other
    >> reject_if (not (is_active d.status)) device_not_active
    >> update_device s input fingerprint
    >>= λ t.
        insert_credential
          (record t {
            credentials =
                update (live_on input.device_id input.user_id) (revoke_credential now)
                  t.credentials;
          })
          input draw
        >>= λ u. ok (
          (
            record trial { extension_reason = none; extended_by = none },
            record {
              id = "";
              user_id = input.user_id;
              license_id = "";
              device_id = input.device_id;
              slot_ordinal = 0;
              status = d.status;
            },
          ),
          u,
        )

unfoldable pub new_trial : FirstDeviceBinding → Draw → ℕ → Entitlement
new_trial input draw now = record {
  id = draw.trial_id;
  user_id = input.user_id;
  started_at = now;
  ends_at = now + trial_window;
  extension_reason = none;
  extended_by = none;
}

unfoldable pub insert_trial : Store → FirstDeviceBinding → Draw → ℕ → Except Error Store
unfolding new_trial
insert_trial s input draw now =
    reject_if
      (not (count_where (λ e. e.id == draw.trial_id || e.user_id == input.user_id) s.trials == 0))
      trial_already_used
    >> ok (record s { trials = new_trial input draw now ∷ s.trials })

-- The historical identity of a Roblox subject.
unfoldable pub has_subject : String → String → TrialIdentity → Bool
has_subject provider subject i = i.provider == provider && i.provider_subject == subject

unfoldable pub insert_trial_identity : Store → FirstDeviceBinding → Draw → Except Error Store
unfolding has_subject
insert_trial_identity s input draw =
    reject_if (not (count_where (λ i. i.id == draw.trial_identity_id) s.identities == 0))
      trial_already_used
    >> reject_if
        (not (count_where (has_subject input.provider input.provider_subject) s.identities == 0))
        trial_already_used
    >> ok (record s {
      identities =
          record {
            id = draw.trial_identity_id;
            trial_id = draw.trial_id;
            user_id = input.user_id;
            provider = input.provider;
            provider_subject = input.provider_subject;
          }
          ∷ s.identities;
    })

-- The fresh path: trial, identity, device and credential.
unfoldable pub start_trial :
    Store
    → Option Device
    → FirstDeviceBinding
    → Option String
    → Draw
    → ℕ
    → Except Error ((Entitlement × Binding) × Store)
unfolding new_trial insert_trial insert_trial_identity register_device insert_credential
start_trial s device input fingerprint draw now =
    reject_if (is_foreign device input.user_id) device_owned_by_other
    >> insert_trial s input draw now
    >>= λ t. insert_trial_identity t input draw >>= λ u.
        register_device u device input fingerprint >>= λ v. insert_credential v input draw >>= λ w.
        ok (
          (
            new_trial input draw now,
            record {
              id = "";
              user_id = input.user_id;
              license_id = "";
              device_id = input.device_id;
              slot_ordinal = 0;
              status = active;
            },
          ),
          w,
        )

unfoldable pub of_user : String → Entitlement → Bool
of_user user_id e = e.user_id == user_id

-- The body from the fingerprint's value on.
unfoldable pub bind_with :
    Store
    → FirstDeviceBinding
    → Option String
    → Draw
    → ℕ
    → Except Error ((Entitlement × Binding) × Store)
unfolding claimed_elsewhere reclaim start_trial of_user ensure_user
bind_with s input fingerprint draw now =
    (let t = ensure_user s input.user_id in
      let device = select (λ d. d.id == input.device_id) t.devices in
      if not (count_where (claimed_elsewhere fingerprint input.user_id) t.devices == 0)
      then err device_already_used
      else elim (select (of_user input.user_id) t.trials) [
        | some trial ↦ reclaim t trial device input fingerprint draw now
        | none ↦ start_trial t device input fingerprint draw now
      ])

unfoldable pub lacks_field : FirstDeviceBinding → Bool
lacks_field input =
    (input.user_id == ""
      || input.provider == ""
      || input.provider_subject == ""
      || input.device_id == "")
    || input.credential_digest == ""

unfoldable pub bind_decoded :
    Store → FirstDeviceBinding → Option String → Draw → ℕ → Outcome (Entitlement × Binding)
bind_decoded s input none draw now = (err invalid_argument, s)
bind_decoded s input (some fingerprint) draw now =
    commit s (bind_with s input (some fingerprint) draw now)

unfoldable pub bind_first_device :
    (String → Option String)
    → Store
    → FirstDeviceBinding
    → Draw
    → ℕ
    → Outcome (Entitlement × Binding)
unfolding lacks_field bind_decoded
bind_first_device decode s input draw now =
    if lacks_field input
    then (err invalid_argument, s)
    else if input.fingerprint_hash == ""
    then commit s (bind_with s input none draw now)
    else bind_decoded s input (decode input.fingerprint_hash) draw now

unfoldable pub is_licensed : String → License → Bool
is_licensed user_id l = l.user_id == user_id && is_active l.status

unfoldable pub trial_open : Option Entitlement → ℕ → Bool
trial_open none now = false
trial_open (some e) now = ltb now e.ends_at

unfoldable pub authorize : Store → String → ℕ → Decision
unfolding of_user trial_open is_licensed
authorize s user_id now =
    (let trial = select (of_user user_id) s.trials in
      let trial_active = trial_open trial now in
      let license_active = ltb 0 (count_where (is_licensed user_id) s.licenses) in
      record {
        is_permitted = trial_active || license_active;
        trial_active = trial_active;
        license_active = license_active;
        entitlement = trial;
      })

unfoldable pub has_id : String → Entitlement → Bool
has_id id e = e.id == id

unfoldable pub extended : ℕ → String → String → Entitlement → Entitlement
extended ends_at reason actor e = record e {
  ends_at = ends_at;
  extension_reason = nullable_string reason;
  extended_by = nullable_string actor;
}

unfoldable pub extend_trial : Store → String → String → ℕ → String → Outcome (Unit {0})
unfolding has_id extended
extend_trial s actor id new_ends_at reason =
    if reason == "" || id == "" || new_ends_at == 0
    then (err invalid_argument, s)
    else elim (select (has_id id) s.trials) [
      | none ↦ (err not_found, s)
      | some e ↦
          (if not (ltb e.ends_at new_ends_at) then (err invalid_extension, s) else (
            ok tt,
            record s { trials = update (has_id id) (extended new_ends_at reason actor) s.trials },
          ))
    ]
