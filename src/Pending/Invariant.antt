-- ===== src/Pending/Invariant.antt =====
-- What holds of the registry of internal/mcpgateway/pending.go between any two critical sections.
use roblox_mcp_gateway.Prelude.{
  ℕ, suc, ◌≤◌, ◌<◌, String, ◌≡◌, refl, sym, ◌≢◌, ◌⊎◌, inl, inr, Bool, true, false, List, [], ◌∷◌,
  some, ◌==◌, nat_beq, string_comparable, if◌then◌else◌, arith, eq_iff, Option-cases, Bool-cases,
  length,
}
use roblox_mcp_gateway.Prelude.Map.{lookup, lookup-erase, length-erase}
use roblox_mcp_gateway.Pending.{Result, Entry, Pending, new_pending, complete, deliver}
use roblox_mcp_gateway.Pending.Index.{indexed, indexed-nil, of_drop_from}

-- How often a channel was sent to.
unfoldable pub sends : ℕ → List (ℕ × Result) → ℕ
sends c [] = 0
sends c ((d, r) ∷ log) = if nat_beq d c then suc (sends c log) else sends c log

-- The id is pending with this entry.
abbrev pub IsLive : Pending → String → Entry → Type 0
IsLive p id e = lookup id p.entries ≡ some e

pub record Inv (p : Pending) : Type 0 where
  pub keyed : (id : String) (e : Entry) → IsLive p id e → e.gateway_id ≡ id
  pub in_session :
      (s id : String)
      → indexed s id p.sessions ≡ true
      → (e : Entry) × IsLive p id e × (e.session_id ≡ s)
  pub in_device :
      (d id : String)
      → indexed d id p.devices ≡ true
      → (e : Entry) × IsLive p id e × (e.device_id ≡ d) × (d ≢ "")
  pub allocated : (id : String) (e : Entry) → IsLive p id e → e.channel < p.next_channel
  pub distinct :
      (i j : String) (e f : Entry) → IsLive p i e → IsLive p j f → e.channel ≡ f.channel → i ≡ j
  pub waiting : (id : String) (e : Entry) → IsLive p id e → sends e.channel p.sent ≡ 0
  pub once : (c : ℕ) → sends c p.sent ≤ 1
  pub fresh : (c : ℕ) → p.next_channel ≤ c → sends c p.sent ≡ 0
  pub accounted :
      (c : ℕ)
      → c < p.next_channel
      → (sends c p.sent ≡ 1) ⊎ ((id : String) × (e : Entry) × IsLive p id e × (e.channel ≡ c))
  pub bounded : 0 < p.max_entries → length p.entries ≤ p.max_entries

pub true-ne-false : {b : Bool} → b ≡ false → b ≡ true → ⊥
true-ne-false p q = cc

pub new_pending-Inv : (m : ℕ) → Inv (new_pending m)
unfolding new_pending lookup sends
new_pending-Inv m = record {
  keyed = λ id e h. cc;
  in_session = λ s id h. absurd (true-ne-false (indexed-nil s id) h);
  in_device = λ d id h. absurd (true-ne-false (indexed-nil d id) h);
  allocated = λ id e h. cc;
  distinct = λ i j e f h k q. cc;
  waiting = λ id e h. cc;
  once = λ c. omega arith;
  fresh = λ c h. refl;
  accounted = λ c h. absurd (omega arith);
  bounded = λ h. omega arith;
}

-- A delivery to a pending request.
module _ (p : Pending) (v : Inv p) (id : String) (e : Entry) (live : IsLive p id e)
    (r : Result) where
  pub IsLive-after :
      (j : String) (f : Entry) → IsLive (complete p e r) j f → IsLive p j f × (j ≢ id)
  unfolding complete
  IsLive-after j f h =
      ground (arith, lookup-erase e.gateway_id j p.entries, v.keyed id e, eq_iff e.gateway_id j)

  pub IsLive-before : (j : String) (f : Entry) → IsLive p j f → j ≢ id → IsLive (complete p e r) j f
  unfolding complete
  IsLive-before j f h n =
      ground (arith, lookup-erase e.gateway_id j p.entries, v.keyed id e, eq_iff e.gateway_id j)

  sends_after :
      (c : ℕ)
      → sends c (complete p e r).sent
        ≡ (if nat_beq e.channel c then suc (sends c p.sent) else sends c p.sent)
  unfolding complete sends
  sends_after c = refl

  session_after :
      (s j : String)
      → indexed s j (complete p e r).sessions ≡ true
      → (f : Entry) × IsLive (complete p e r) j f × (f.session_id ≡ s)
  unfolding complete
  session_after s j h =
      let (was, apart) = of_drop_from e.session_id s e.gateway_id j p.sessions h in
      let (f, l, same) = v.in_session s j was in
      (f, IsLive-before j f l (λ q. apart (ground (arith)) (cc (v.keyed id e live))), same)

  device_kept :
      (d j : String)
      → indexed d j (complete p e r).devices ≡ true
      → (indexed d j p.devices ≡ true) × (e.device_id ≡ d → e.device_id ≢ "" → id ≢ j)
  unfolding complete
  device_kept d j h = ground (
    arith,
    of_drop_from e.device_id d e.gateway_id j p.devices,
    v.keyed id e,
    eq_iff e.device_id "",
  )

  device_after :
      (d j : String)
      → indexed d j (complete p e r).devices ≡ true
      → (f : Entry) × IsLive (complete p e r) j f × (f.device_id ≡ d) × (d ≢ "")
  device_after d j h =
      let (was, apart) = device_kept d j h in
      let (f, l, same, named) = v.in_device d j was in
      (f, IsLive-before j f l (λ q. apart (ground arith) (ground arith) (sym q)), same, named)

  accounted_after :
      (c : ℕ)
      → c < p.next_channel
      → (sends c (complete p e r).sent ≡ 1)
        ⊎ ((j : String) × (f : Entry) × IsLive (complete p e r) j f × (f.channel ≡ c))
  accounted_after c h = elim (v.accounted c h) [
    | inl done ↦ inl (ground (arith, sends_after c, v.waiting id e))
    | inr (j, f, l, same) ↦ elim (Bool-cases (j == id)) [
      | inl here ↦ inl (ground (arith, sends_after c, v.waiting id e, eq_iff j id))
      | inr away ↦ inr (j, f, IsLive-before j f l (λ q. ground (arith, eq_iff j id)), same)
    ]
  ]

  completed-Inv : Inv (complete p e r)
  unfolding complete
  completed-Inv = record {
    keyed = λ j f h. v.keyed j f (IsLive-after j f h).0;
    in_session = session_after;
    in_device = device_after;
    allocated = λ j f h. v.allocated j f (IsLive-after j f h).0;
    distinct = λ i j f g h k q. v.distinct i j f g (IsLive-after i f h).0 (IsLive-after j g k).0 q;
    waiting = λ j f h.
        ground
          (arith, sends_after f.channel, IsLive-after j f h, v.waiting j f, v.distinct j id f e);
    once = λ c. ground (arith, sends_after c, v.once c, v.waiting id e);
    fresh = λ c h. ground (arith, sends_after c, v.fresh c, v.allocated id e);
    accounted = accounted_after;
    bounded = λ h. omega (arith, v.bounded h, length-erase e.gateway_id p.entries);
  }

-- A delivery, to a pending request or to none, keeps the invariant.
pub deliver-Inv : (p : Pending) (id : String) (r : Result) → Inv p → Inv (deliver p id r).0
unfolding deliver
deliver-Inv p id r v = elim (Option-cases (lookup id p.entries)) [
  | inl e ↦ rw (e, deliver) v
  | inr (e, live) ↦ rw (live, deliver) (completed-Inv p v id e live r)
]
