-- ===== src/Entitlement/Window.antt =====
-- The trial window: what `BindFirstDevice`, `Authorize` and `ExtendTrial` make of it.
use roblox_mcp_gateway.Prelude.{
  ℕ, ◌+◌, ◌≤◌, String, ◌≡◌, refl, inl, inr, Bool, true, List, [], ◌∷◌, Option, none, some, ok, err,
  ◌==◌, nat_comparable, string_comparable, ltb, arith, eq_iff, Option-cases, Except-cases, eq_self,
}
use roblox_mcp_gateway.Prelude.Table.{select, count_where, select-update}
use roblox_mcp_gateway.Entitlement.{
  Error, trial_window, FirstDeviceBinding, Entitlement, Binding, Device, Store, commit, ensure_user,
  mcp, dashboard, permits,
}
use roblox_mcp_gateway.Entitlement.Devices.{Draw, register_device}
use roblox_mcp_gateway.Entitlement.Trial.{
  new_trial, insert_trial, insert_trial_identity, start_trial, of_user, bind_with, bind_decoded,
  bind_first_device, is_licensed, trial_open, authorize, has_id, extended, extend_trial,
}
use roblox_mcp_gateway.Entitlement.Licenses.{
  license_has_id, holds_slot, transfer_slot, transfer_device, recover_identity, create_license,
  create_device, bind_slot, bind_device_slot, revoke_device,
}
use roblox_mcp_gateway.Entitlement.Invariant.{
  Op, bind_first, extend, transfer, recover, license, device, slot, revoke, apply, run, IsSound,
}
use roblox_mcp_gateway.Entitlement.TrialSound.{
  insert_credential-Same, register_device-Same, reclaim-Same,
}
use roblox_mcp_gateway.Entitlement.Sound.{apply-IsSound}

-- The trial of a user.
abbrev pub trial_of : String → Store → Option Entitlement
trial_of u s = select (of_user u) s.trials

-- The fresh path adds the new trial and no license.
start_trial-trials :
    (s w : Store) (d : Option Device) (input : FirstDeviceBinding) (f : Option String) (draw : Draw)
    (now : ℕ) (x : Entitlement × Binding)
    → start_trial s d input f draw now ≡ ok (x, w)
    → (w.trials ≡ new_trial input draw now ∷ s.trials) × (w.licenses ≡ s.licenses)
unfolding start_trial insert_trial insert_trial_identity
start_trial-trials s w d input f draw now x h =
    elim (Except-cases (insert_trial s input draw now)) [
      | inr (e, m) ↦ ground arith
      | inl (t, m) ↦ elim (Except-cases (insert_trial_identity t input draw)) [
        | inr (e, n) ↦ ground arith
        | inl (u, n) ↦ elim (Except-cases (register_device u d input f)) [
          | inr (e, o) ↦ ground arith
          | inl (v, o) ↦
              ground
                (arith, register_device-Same u v d input f o, insert_credential-Same v w input draw)
        ]
      ]
    ]

-- What a binding that succeeds leaves of the trials and the licenses.
bind_with-trials :
    (s w : Store) (input : FirstDeviceBinding) (f : Option String) (draw : Draw) (now : ℕ)
    (x : Entitlement × Binding)
    → bind_with s input f draw now ≡ ok (x, w)
    → (w.licenses ≡ s.licenses)
      × (w.trials ≡ (elim (trial_of input.user_id s) [
        | none ↦ new_trial input draw now ∷ s.trials
        | some e ↦ s.trials
      ]))
unfolding bind_with ensure_user
bind_with-trials s w input f draw now x h =
    (let t = ensure_user s input.user_id in
      let d = select (λ d. d.id == input.device_id) t.devices in
      elim (Option-cases (trial_of input.user_id s)) [
        | inl e ↦ ground (arith, start_trial-trials t w d input f draw now x)
        | inr (trial, e) ↦ ground (arith, reclaim-Same t w trial d input f draw now x)
      ])

-- A binding that succeeds adds at most the user's first trial.
commit-ok :
    (s : Store) (input : FirstDeviceBinding) (f : Option String) (draw : Draw) (now : ℕ)
    (x : Entitlement × Binding)
    → (commit s (bind_with s input f draw now)).0 ≡ ok x
    → ((commit s (bind_with s input f draw now)).1.licenses ≡ s.licenses)
      × ((commit s (bind_with s input f draw now)).1.trials ≡ (elim (trial_of input.user_id s) [
        | none ↦ new_trial input draw now ∷ s.trials
        | some e ↦ s.trials
      ]))
commit-ok s input f draw now x h = elim (Except-cases (bind_with s input f draw now)) [
  | inl ((y, t), m) ↦ ground (arith, bind_with-trials s t input f draw now y m)
  | inr (e, m) ↦ ground arith
]

commit-err :
    (s : Store) (input : FirstDeviceBinding) (f : Option String) (draw : Draw) (now : ℕ) (e : Error)
    → (commit s (bind_with s input f draw now)).0 ≡ err e
    → (commit s (bind_with s input f draw now)).1 ≡ s
commit-err s input f draw now e h = elim (Except-cases (bind_with s input f draw now)) [
  | inl ((y, t), m) ↦ ground arith
  | inr (e, m) ↦ ground arith
]

bind_first-ok :
    (decode : String → Option String) (s : Store) (input : FirstDeviceBinding) (draw : Draw)
    (now : ℕ) (x : Entitlement × Binding)
    → (bind_first_device decode s input draw now).0 ≡ ok x
    → ((bind_first_device decode s input draw now).1.licenses ≡ s.licenses)
      × ((bind_first_device decode s input draw now).1.trials ≡ (elim (trial_of input.user_id s) [
        | none ↦ new_trial input draw now ∷ s.trials
        | some e ↦ s.trials
      ]))
unfolding bind_first_device bind_decoded
bind_first-ok decode s input draw now x h = elim (Option-cases (decode input.fingerprint_hash)) [
  | inl e ↦ ground (arith, commit-ok s input none draw now x)
  | inr (f, e) ↦
      ground (arith, commit-ok s input none draw now x, commit-ok s input (some f) draw now x)
]

bind_first-err :
    (decode : String → Option String) (s : Store) (input : FirstDeviceBinding) (draw : Draw)
    (now : ℕ) (e : Error)
    → (bind_first_device decode s input draw now).0 ≡ err e
    → (bind_first_device decode s input draw now).1 ≡ s
unfolding bind_first_device bind_decoded
bind_first-err decode s input draw now x h = elim (Option-cases (decode input.fingerprint_hash)) [
  | inl e ↦ ground (arith, commit-err s input none draw now x)
  | inr (f, e) ↦
      ground (arith, commit-err s input none draw now x, commit-err s input (some f) draw now x)
]

-- A user without trial and active license who binds a first device at a time may use MCP from then until
-- exactly 14 days later, and the dashboard always.
pub bind_first-permits :
    (decode : String → Option String) (s : Store) (input : FirstDeviceBinding) (draw : Draw)
    (now later : ℕ) (x : Entitlement × Binding)
    → trial_of input.user_id s ≡ none
    → count_where (is_licensed input.user_id) s.licenses ≡ 0
    → (bind_first_device decode s input draw now).0 ≡ ok x
    → (permits (authorize (bind_first_device decode s input draw now).1 input.user_id later) mcp
        ≡ ltb later (now + trial_window))
      × (permits
            (authorize (bind_first_device decode s input draw now).1 input.user_id later)
            dashboard
          ≡ true)
unfolding permits authorize trial_open new_trial of_user select
bind_first-permits decode s input draw now later x fresh unlicensed h =
    ground (arith, bind_first-ok decode s input draw now x h, eq_self input.user_id)

-- A trial keeps its id and its start, and its end never comes nearer.
abbrev pub IsLater : Entitlement → Option Entitlement → Type 0
IsLater e none = ⊥
IsLater e (some f) = (f.id ≡ e.id) × (f.started_at ≡ e.started_at) × (e.ends_at ≤ f.ends_at)

selected-counted :
    (p q : Entitlement → Bool) (es : List Entitlement) (b : Entitlement)
    → select q es ≡ some b
    → p b ≡ true
    → 1 ≤ count_where p es
unfolding count_where select
selected-counted p q [] b k t = ground arith
selected-counted p q (e ∷ es) b k t = ground (arith, selected-counted p q es b)

-- Two rows are one if a key that at most one row has finds the first, and the second has it.
unique :
    (p q : Entitlement → Bool) (es : List Entitlement) (a b : Entitlement)
    → count_where p es ≤ 1
    → select p es ≡ some a
    → select q es ≡ some b
    → p b ≡ true
    → a ≡ b
unfolding count_where select
unique p q [] a b c h k t = ground arith
unique p q (e ∷ es) a b c h k t = ground (arith, unique p q es a b, selected-counted p q es b)

bind_first-IsLater :
    (decode : String → Option String) (s : Store) (input : FirstDeviceBinding) (draw : Draw)
    (now : ℕ) (u : String) (e : Entitlement)
    → trial_of u s ≡ some e
    → trial_of u (bind_first_device decode s input draw now).1 ≡ some e
unfolding of_user select new_trial
bind_first-IsLater decode s input draw now u e h =
    elim (Except-cases (bind_first_device decode s input draw now).0) [
      | inl (x, m) ↦ elim (Option-cases (trial_of input.user_id s)) [
        | inl n ↦ ground (arith, bind_first-ok decode s input draw now x m, eq_iff input.user_id u)
        | inr (f, n) ↦ ground (arith, bind_first-ok decode s input draw now x m)
      ]
      | inr (x, m) ↦ ground (arith, bind_first-err decode s input draw now x m)
    ]

extend-IsLater :
    (s : Store) (actor id : String) (ends_at : ℕ) (reason u : String) (e : Entitlement)
    → IsSound s
    → trial_of u s ≡ some e
    → IsLater e (trial_of u (extend_trial s actor id ends_at reason).1)
unfolding extend_trial extended of_user
extend-IsLater s actor id ends_at reason u e sound h =
    elim (Option-cases (select (has_id id) s.trials)) [
      | inl n ↦ ground arith
      | inr (f, n) ↦ ground (
        arith,
        select-update (of_user u) (has_id id) (extended ends_at reason actor) s.trials (λ x. refl),
        unique (has_id id) (of_user u) s.trials f e (sound.one_id id) n h,
      )
    ]

apply-IsLater :
    (decode : String → Option String) (s : Store) (o : Op) (u : String) (e : Entitlement)
    → IsSound s
    → trial_of u s ≡ some e
    → IsLater e (trial_of u (apply decode s o))
unfolding apply transfer_device transfer_slot recover_identity create_license create_device
    bind_device_slot bind_slot revoke_device ensure_user
apply-IsLater decode s (bind_first input draw now) u e sound h =
    ground (arith, bind_first-IsLater decode s input draw now u e h)
apply-IsLater decode s (extend actor id ends_at reason) u e sound h =
    extend-IsLater s actor id ends_at reason u e sound h
apply-IsLater decode s (transfer license_id old_id new_id reason id) u e sound h =
    elim (Option-cases (select (license_has_id license_id) s.licenses)) [
      | inl m ↦ ground arith
      | inr (l, m) ↦ elim (Option-cases (select (holds_slot l.id old_id) s.bindings)) [
        | inl n ↦ ground arith
        | inr (b, n) ↦ ground arith
      ]
    ]
apply-IsLater decode s (recover user_id reason evidence id now) u e sound h = ground arith
apply-IsLater decode s (license user_id identity slots id) u e sound h = ground arith
apply-IsLater decode s (device user_id id name) u e sound h = ground arith
apply-IsLater decode s (slot license_id device_id id) u e sound h =
    elim (Option-cases (select (license_has_id license_id) s.licenses)) [
      | inl m ↦ ground arith
      | inr (l, m) ↦ ground arith
    ]
apply-IsLater decode s (revoke id) u e sound h =
    elim (Option-cases (select (λ d. d.id == id) s.devices)) [
      | inl m ↦ ground arith
      | inr (d, m) ↦ ground arith
    ]

-- In a sound store, a user's trial is never dropped or restarted by any sequence of transactions: its
-- id and start stay, and its end never comes nearer.
pub run-IsLater :
    (decode : String → Option String) (s : Store) (ops : List Op) (u : String) (e : Entitlement)
    → IsSound s
    → trial_of u s ≡ some e
    → IsLater e (trial_of u (run decode s ops))
run-IsLater decode s [] u e sound h = ground arith
run-IsLater decode s (o ∷ ops) u e sound h = elim (Option-cases (trial_of u (apply decode s o))) [
  | inl m ↦ ground (arith, apply-IsLater decode s o u e sound h)
  | inr (f, m) ↦
      (let rest =
          run-IsLater decode (apply decode s o) ops u f (apply-IsSound decode s o sound) m in
        elim (Option-cases (trial_of u (run decode s (o ∷ ops)))) [
          | inl n ↦ ground arith
          | inr (g, n) ↦ ground (arith, apply-IsLater decode s o u e sound h)
        ])
]
