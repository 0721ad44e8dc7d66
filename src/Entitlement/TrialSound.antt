-- ===== src/Entitlement/TrialSound.antt =====
-- `BindFirstDevice` and `ExtendTrial` keep one trial for each user and each Roblox subject.
use roblox_mcp_gateway.Prelude.{
  ℕ, ◌≤◌, String, ◌≡◌, refl, inl, inr, ◌||◌, List, [], ◌∷◌, Option, none, some, ok, err, ◌==◌,
  nat_comparable, string_comparable, if◌then◌else◌, arith, eq_iff, Option-cases, Except-cases,
}
use roblox_mcp_gateway.Prelude.Table.{select, count_where, update}
use roblox_mcp_gateway.Entitlement.{
  invalid_argument, FirstDeviceBinding, Entitlement, Binding, Device, Store, commit, ensure_user,
}
use roblox_mcp_gateway.Entitlement.Devices.{
  Draw, update_device, insert_device, insert_credential, live_on, revoke_credential,
  register_device,
}
use roblox_mcp_gateway.Entitlement.Trial.{
  reclaim, new_trial, insert_trial, has_subject, insert_trial_identity, start_trial, of_user,
  bind_with, lacks_field, bind_decoded, bind_first_device, has_id, extended, extend_trial,
}
use roblox_mcp_gateway.Entitlement.Invariant.{
  IsSound, Same, Same-IsSound, if-IsSound, commit-IsSound, count_where-update,
}

pub update_device-Same :
    (s t : Store) (input : FirstDeviceBinding) (f : Option String)
    → update_device s input f ≡ ok t
    → Same s t
unfolding update_device
update_device-Same s t input f h = ground arith

insert_device-Same :
    (s t : Store) (input : FirstDeviceBinding) (f : Option String)
    → insert_device s input f ≡ ok t
    → Same s t
unfolding insert_device
insert_device-Same s t input f h = ground arith

pub insert_credential-Same :
    (s t : Store) (input : FirstDeviceBinding) (draw : Draw)
    → insert_credential s input draw ≡ ok t
    → Same s t
unfolding insert_credential
insert_credential-Same s t input draw h = ground arith

pub register_device-Same :
    (s t : Store) (d : Option Device) (input : FirstDeviceBinding) (f : Option String)
    → register_device s d input f ≡ ok t
    → Same s t
unfolding register_device
register_device-Same s t none input f h = insert_device-Same s t input f h
register_device-Same s t (some d) input f h = update_device-Same s t input f h

count_user_le :
    (u id : String) (es : List Entitlement)
    → count_where (of_user u) es ≤ count_where (λ e. e.id == id || e.user_id == u) es
unfolding count_where of_user
count_user_le u id [] = omega arith
count_user_le u id (e ∷ es) = ground (arith, count_user_le u id es)

count_id_le :
    (u id : String) (es : List Entitlement)
    → count_where (has_id id) es ≤ count_where (λ e. e.id == id || e.user_id == u) es
unfolding count_where has_id
count_id_le u id [] = omega arith
count_id_le u id (e ∷ es) = ground (arith, count_id_le u id es)

insert_trial-IsSound :
    (s t : Store) (input : FirstDeviceBinding) (draw : Draw) (now : ℕ)
    → insert_trial s input draw now ≡ ok t
    → IsSound s
    → IsSound t
unfolding insert_trial new_trial of_user has_id count_where
insert_trial-IsSound s t input draw now h sound = record {
  one_trial = λ u. ground (
    arith,
    sound.one_trial u,
    count_user_le input.user_id draw.trial_id s.trials,
    eq_iff input.user_id u,
  );
  one_id = λ i. ground (
    arith,
    sound.one_id i,
    count_id_le input.user_id draw.trial_id s.trials,
    eq_iff draw.trial_id i,
  );
  one_subject = λ p x. ground (arith, sound.one_subject p x);
  within_slots = λ id. ground (arith, sound.within_slots id);
}

insert_trial_identity-IsSound :
    (s t : Store) (input : FirstDeviceBinding) (draw : Draw)
    → insert_trial_identity s input draw ≡ ok t
    → IsSound s
    → IsSound t
unfolding insert_trial_identity has_subject count_where
insert_trial_identity-IsSound s t input draw h sound = record {
  one_trial = λ u. ground (arith, sound.one_trial u);
  one_id = λ i. ground (arith, sound.one_id i);
  one_subject = λ p x.
      ground
        (arith, sound.one_subject p x, eq_iff input.provider p, eq_iff input.provider_subject x);
  within_slots = λ id. ground (arith, sound.within_slots id);
}

start_trial-IsSound :
    (s w : Store) (d : Option Device) (input : FirstDeviceBinding) (f : Option String) (draw : Draw)
    (now : ℕ) (x : Entitlement × Binding)
    → start_trial s d input f draw now ≡ ok (x, w)
    → IsSound s
    → IsSound w
unfolding start_trial
start_trial-IsSound s w d input f draw now x h sound =
    elim (Except-cases (insert_trial s input draw now)) [
      | inr (e, m) ↦ ground arith
      | inl (t, m) ↦ elim (Except-cases (insert_trial_identity t input draw)) [
        | inr (e, n) ↦ ground arith
        | inl (u, n) ↦ elim (Except-cases (register_device u d input f)) [
          | inr (e, o) ↦ ground arith
          | inl (v, o) ↦
              (let u-sound =
                  insert_trial_identity-IsSound t u input draw n
                    (insert_trial-IsSound s t input draw now m sound) in
                let v-sound = Same-IsSound u v (register_device-Same u v d input f o) u-sound in
                Same-IsSound v w (insert_credential-Same v w input draw (ground arith)) v-sound)
        ]
      ]
    ]

pub reclaim-Same :
    (s w : Store) (trial : Entitlement) (d : Option Device) (input : FirstDeviceBinding)
    (f : Option String) (draw : Draw) (now : ℕ) (x : Entitlement × Binding)
    → reclaim s trial d input f draw now ≡ ok (x, w)
    → Same s w
unfolding reclaim
reclaim-Same s w trial none input f draw now x h = ground arith
reclaim-Same s w trial (some d) input f draw now x h =
    elim (Except-cases (update_device s input f)) [
      | inr (e, m) ↦ ground arith
      | inl (t, m) ↦
          (let cs =
              update (live_on input.device_id input.user_id) (revoke_credential now)
                t.credentials in
            ground (
              arith,
              update_device-Same s t input f m,
              insert_credential-Same (record t { credentials = cs }) w input draw,
            ))
    ]

bind_with-IsSound :
    (s w : Store) (input : FirstDeviceBinding) (f : Option String) (draw : Draw) (now : ℕ)
    (x : Entitlement × Binding)
    → bind_with s input f draw now ≡ ok (x, w)
    → IsSound s
    → IsSound w
unfolding bind_with ensure_user
bind_with-IsSound s w input f draw now x h sound =
    (let t = ensure_user s input.user_id in
      let d = select (λ d. d.id == input.device_id) t.devices in
      elim (Option-cases (select (of_user input.user_id) t.trials)) [
        | inl e ↦
            start_trial-IsSound t w d input f draw now x (ground arith)
              (Same-IsSound s t (refl, refl, refl, refl) sound)
        | inr (trial, e) ↦
            Same-IsSound t w (reclaim-Same t w trial d input f draw now x (ground arith))
              (Same-IsSound s t (refl, refl, refl, refl) sound)
      ])

bind_decoded-IsSound :
    (s : Store) (input : FirstDeviceBinding) (f : Option String) (draw : Draw) (now : ℕ)
    → IsSound s
    → IsSound (bind_decoded s input f draw now).1
unfolding bind_decoded
bind_decoded-IsSound s input none draw now sound = sound
bind_decoded-IsSound s input (some f) draw now sound =
    commit-IsSound s (bind_with s input (some f) draw now) sound
      (λ x t h. bind_with-IsSound s t input (some f) draw now x h sound)

pub bind_first-IsSound :
    (decode : String → Option String) (s : Store) (input : FirstDeviceBinding) (draw : Draw)
    (now : ℕ)
    → IsSound s
    → IsSound (bind_first_device decode s input draw now).1
unfolding bind_first_device
bind_first-IsSound decode s input draw now sound =
    (let plain = commit s (bind_with s input none draw now) in
      let decoded = bind_decoded s input (decode input.fingerprint_hash) draw now in
      if-IsSound (lacks_field input) (err invalid_argument, s)
        (if input.fingerprint_hash == "" then plain else decoded) sound
        (if-IsSound (input.fingerprint_hash == "") plain decoded
          (commit-IsSound s (bind_with s input none draw now) sound
            (λ x t h. bind_with-IsSound s t input none draw now x h sound))
          (bind_decoded-IsSound s input (decode input.fingerprint_hash) draw now sound)))

extend-user :
    (s : Store) (actor id u : String) (ends_at : ℕ) (reason : String)
    → count_where (of_user u) (update (has_id id) (extended ends_at reason actor) s.trials)
      ≡ count_where (of_user u) s.trials
unfolding extended of_user
extend-user s actor id u ends_at reason =
    count_where-update (of_user u) (has_id id) (extended ends_at reason actor) s.trials (λ e. refl)

extend-id :
    (s : Store) (actor id i : String) (ends_at : ℕ) (reason : String)
    → count_where (has_id i) (update (has_id id) (extended ends_at reason actor) s.trials)
      ≡ count_where (has_id i) s.trials
unfolding extended has_id
extend-id s actor id i ends_at reason =
    count_where-update (has_id i) (has_id id) (extended ends_at reason actor) s.trials (λ e. refl)

pub extend-IsSound :
    (s : Store) (actor id : String) (ends_at : ℕ) (reason : String)
    → IsSound s
    → IsSound (extend_trial s actor id ends_at reason).1
unfolding extend_trial
extend-IsSound s actor id ends_at reason sound = elim (Option-cases (select (has_id id) s.trials)) [
  | inl e ↦ Same-IsSound s _ (ground arith) sound
  | inr (e, h) ↦ record {
    one_trial = λ u. ground (arith, sound.one_trial u, extend-user s actor id u ends_at reason);
    one_id = λ i. ground (arith, sound.one_id i, extend-id s actor id i ends_at reason);
    one_subject = λ p x. ground (arith, sound.one_subject p x);
    within_slots = λ i. ground (arith, sound.within_slots i);
  }
]
