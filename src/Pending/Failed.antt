-- ===== src/Pending/Failed.antt =====
-- A request that is forwarded and given up while `FailDevice` of internal/mcpgateway/pending.go runs for
-- its device: what is left of the other requests.
use roblox_mcp_gateway.Prelude.{
  ℕ, String, ◌≡◌, ◌∙◌, ◌≢◌, ◌↔◌, sym, subst, inl, inr, [], Option, none, some, ok,
  string_comparable, arith, eq_iff, Option-cases,
}
use roblox_mcp_gateway.Prelude.Map.{lookup, lookup-insert}
use roblox_mcp_gateway.Pending.{
  Error, Entry, Result, Pending, rebind, register, associate, deliver, resolve, fail_device,
}
use roblox_mcp_gateway.Pending.Register.{register_lem, fresh_id-unused}
use roblox_mcp_gateway.Pending.Associate.{associate_lem}
use roblox_mcp_gateway.Pending.Fresh.{lookup-register, registered-associated, associated-given_up}
use roblox_mcp_gateway.Pending.Schedule.{
  System, registers, associates, responds, after_register, after_associate, step,
}
use roblox_mcp_gateway.Pending.Invariant.{IsLive}
use roblox_mcp_gateway.Pending.Once.{Good, step-Good}
use roblox_mcp_gateway.Pending.Cancel.{Good-fail_device}

-- Exactly the requests of other devices are left.
abbrev pub Spares : String → Pending → Pending → Type 0
Spares device p q =
    (j : String) (f : Entry) → IsLive q j f ↔ (IsLive p j f × (f.device_id ≢ device))

resolve-gone :
    (p : Pending) (id : String) (result : Result)
    → lookup id p.entries ≡ none
    → (resolve p id result).0 ≡ p
unfolding resolve deliver
resolve-gone p id result h = ground arith

module _ (s : System) (g : Good s) (quiet : s.jobs ≡ [])
    (session request_id gateway_id device : String) (channel : ℕ) (random : ℕ → Option String)
    (p q : Pending)
    (registered : register s.pending session request_id random ≡ ok (gateway_id, channel, p))
    (associated : associate p gateway_id device ≡ ok q) where
  forwarded-Good : Good (record s { pending = q })
  unfolding step after_register after_associate
  forwarded-Good =
      let a = step-Good s (registers session request_id random) g in
      let b =
        step-Good (step s (registers session request_id random)) (associates gateway_id device) a in
      subst Good (ground arith) b

  named : device ≢ ""
  unfolding associate
  named h = absurd (ground (arith, eq_iff device ""))

  own : (f : Entry) → IsLive q gateway_id f → f.device_id ≡ device
  own f live = ground (
    arith,
    registered-associated s.pending p q session request_id gateway_id device channel random
        registered associated,
  )

  others : (j : String) → gateway_id ≢ j → lookup j q.entries ≡ lookup j s.pending.entries
  unfolding rebind
  others j other =
      let (e, live, _, bound) = associate_lem p gateway_id device q associated in
      ground (
        arith,
        eq_iff gateway_id j,
        lookup-register s.pending p session request_id gateway_id j channel random registered,
        lookup-insert gateway_id j (record e { device_id = device }) p.entries,
      )

  unused : lookup gateway_id s.pending.entries ≡ none
  unused =
      let (chosen, _, _, _, _, _) =
        register_lem s.pending session request_id random gateway_id channel p registered in
      fresh_id-unused random s.pending.entries gateway_id chosen

  module _ (result : Result) (cause : Option Error) where
    given_up-same :
        (j : String) → lookup j (resolve q gateway_id result).0.entries ≡ lookup j s.pending.entries
    given_up-same j =
        associated-given_up s.pending p q session request_id gateway_id device j channel random
          result registered associated

    -- `FailDevice` runs before the request is given up.
    pub failed-given_up :
        Spares device s.pending (resolve (fail_device q device cause) gateway_id result).0
    failed-given_up j f =
        let x = fail_device q device cause in
        let left =
          (Good-fail_device (record s { pending = q }) device cause forwarded-Good named quiet).0 in
        let gone : lookup gateway_id x.entries ≡ none =
          elim (Option-cases (lookup gateway_id x.entries)) [
            | inl n ↦ n
            | inr (e, live) ↦
                let (l, apart) = (left gateway_id e).0 live in absurd (apart (own e l))
          ] in
        let apart : lookup j x.entries ≡ some f → gateway_id ≢ j = λ h k. ground arith in
        let back : lookup j s.pending.entries ≡ some f → gateway_id ≢ j =
          λ h k. ground (arith, unused) in
        rw (resolve-gone x gateway_id result gone) (
          λ h. let (l, other) = (left j f).0 h in (sym (others j (apart h)) ∙ l, other),
          λ h. (left j f).1 (others j (back h.0) ∙ h.0, h.1),
        )

    -- `FailDevice` runs after the request was given up.
    pub given_up-failed :
        Spares device s.pending (fail_device (resolve q gateway_id result).0 device cause)
    unfolding resolve step
    given_up-failed j f =
        let x = (resolve q gateway_id result).0 in
        let good : Good (record s { pending = x }) =
          step-Good (record s { pending = q }) (responds gateway_id result) forwarded-Good in
        let left = (Good-fail_device (record s { pending = x }) device cause good named quiet).0 in
        (
          λ h. let (l, other) = (left j f).0 h in (sym (given_up-same j) ∙ l, other),
          λ h. (left j f).1 (given_up-same j ∙ h.0, h.1),
        )
