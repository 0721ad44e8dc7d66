-- ===== src/Pending/Associate.antt =====
-- `Associate` of internal/mcpgateway/pending.go keeps the registry's invariant, and so does taking a
-- whole set out of an index.
use roblox_mcp_gateway.Prelude.{
  ℕ, ◌<◌, String, ◌≡◌, sym, subst, ◌≢◌, ◌⊎◌, inl, inr, true, ok, ◌==◌, string_comparable, arith,
  eq_iff, Option-cases, Bool-cases,
}
use roblox_mcp_gateway.Prelude.Map.{lookup, lookup-insert, length-insert_old}
use roblox_mcp_gateway.Pending.{
  Entry, Pending, associate, rebind, leave_device, take_session, take_device,
}
use roblox_mcp_gateway.Pending.Index.{of_drop_from, of_add_to, of_erase, indexed}
use roblox_mcp_gateway.Pending.Invariant.{sends, IsLive, Inv}

module _ (p : Pending) (v : Inv p) (id device : String) (e : Entry) (live : IsLive p id e)
    (named : device ≢ "") where
  moved : Entry
  moved = record e { device_id = device }

  associated : Pending
  associated = rebind p id device e

  IsLive-cases :
      (j : String) (f : Entry)
      → IsLive associated j f
      → ((j ≡ id) × (f ≡ moved)) ⊎ (IsLive p j f × (j ≢ id))
  unfolding associated rebind moved
  IsLive-cases j f h = ground (arith, lookup-insert id j moved p.entries, eq_iff id j)

  IsLive-new : IsLive associated id moved
  unfolding associated rebind moved
  IsLive-new = ground (arith, lookup-insert id id moved p.entries, eq_iff id id)

  IsLive-kept : (j : String) (f : Entry) → IsLive p j f → j ≢ id → IsLive associated j f
  unfolding associated rebind moved
  IsLive-kept j f h n = ground (arith, lookup-insert id j moved p.entries, eq_iff id j)

  session_associated :
      (s j : String)
      → indexed s j p.sessions ≡ true
      → (f : Entry) × IsLive associated j f × (f.session_id ≡ s)
  unfolding moved
  session_associated s j h =
      let (f, l, same) = v.in_session s j h in
      elim (Bool-cases (j == id)) [
        | inl here ↦ (
          moved,
          subst (λ i. IsLive associated i moved) (sym ((eq_iff j id).0 here)) IsLive-new,
          ground (arith, eq_iff j id),
        )
        | inr away ↦ (f, IsLive-kept j f l (λ q. ground (arith, eq_iff j id)), same)
      ]

  left_device :
      (d j : String)
      → indexed d j (leave_device id device e p.devices) ≡ true
      → (indexed d j p.devices ≡ true) × ((j ≢ id) ⊎ (e.device_id ≡ device) ⊎ (e.device_id ≢ d))
  unfolding leave_device
  left_device d j h = ground (
    arith,
    eq_iff e.device_id device,
    eq_iff e.device_id "",
    of_drop_from e.device_id d id j p.devices,
    v.in_device d j,
  )

  device_associated :
      (d j : String)
      → indexed d j associated.devices ≡ true
      → (f : Entry) × IsLive associated j f × (f.device_id ≡ d) × (d ≢ "")
  unfolding associated rebind moved
  device_associated d j h = elim (of_add_to device d id j (leave_device id device e p.devices) h) [
    | inl (a, b) ↦
        (moved, subst (λ i. IsLive associated i moved) b IsLive-new, a, λ q. named (ground arith))
    | inr old ↦
        let (was, apart) = left_device d j old in
        let (f, l, same, full) = v.in_device d j was in
        elim (Bool-cases (j == id)) [
          | inl here ↦ (
            moved,
            subst (λ i. IsLive associated i moved) (sym ((eq_iff j id).0 here)) IsLive-new,
            ground (arith, eq_iff j id),
            full,
          )
          | inr away ↦ (f, IsLive-kept j f l (λ q. ground (arith, eq_iff j id)), same, full)
        ]
  ]

  accounted_associated :
      (c : ℕ)
      → c < p.next_channel
      → (sends c p.sent ≡ 1)
        ⊎ ((j : String) × (f : Entry) × IsLive associated j f × (f.channel ≡ c))
  unfolding moved
  accounted_associated c h = elim (v.accounted c h) [
    | inl done ↦ inl done
    | inr (j, f, l, same) ↦ elim (Bool-cases (j == id)) [
      | inl here ↦ inr (id, moved, IsLive-new, ground (arith, eq_iff j id))
      | inr away ↦ inr (j, f, IsLive-kept j f l (λ q. ground (arith, eq_iff j id)), same)
    ]
  ]

  associated-Inv : Inv (rebind p id device e)
  unfolding associated rebind moved
  associated-Inv = record {
    keyed = λ j f h. ground (arith, IsLive-cases j f h, v.keyed j f, v.keyed id e);
    in_session = session_associated;
    in_device = device_associated;
    allocated = λ j f h. ground (arith, IsLive-cases j f h, v.allocated j f, v.allocated id e);
    distinct = λ i j f g h k q. ground (
      arith,
      IsLive-cases i f h,
      IsLive-cases j g k,
      v.distinct i j f g,
      v.distinct i id f e,
      v.distinct id j e g,
    );
    waiting = λ j f h. ground (arith, IsLive-cases j f h, v.waiting j f, v.waiting id e);
    once = v.once;
    fresh = v.fresh;
    accounted = accounted_associated;
    bounded = λ h. omega (arith, v.bounded h, length-insert_old id moved e p.entries live);
  }

-- What a successful `Associate` has checked, and what it does.
pub associate_lem :
    (p : Pending) (id device : String) (q : Pending)
    → associate p id device ≡ ok q
    → (e : Entry) × IsLive p id e × (device ≢ "") × (q ≡ rebind p id device e)
unfolding associate
associate_lem p id device q h = elim (Option-cases (lookup id p.entries)) [
  | inl e ↦ ground arith
  | inr (e, live) ↦ (e, live, ground (arith, eq_iff device ""), ground arith)
]

-- `Associate` keeps the invariant.
pub associate-Inv :
    (p : Pending) (id device : String) (q : Pending) → Inv p → associate p id device ≡ ok q → Inv q
associate-Inv p id device q v h =
    let (e, live, named, same) = associate_lem p id device q h in
    subst Inv (sym same) (associated-Inv p v id device e live named)

-- `CancelSession` and `FailDevice` take a set out of an index.
pub take_session-Inv : (p : Pending) (session : String) → Inv p → Inv (take_session p session).1
unfolding take_session
take_session-Inv p session v = record {
  keyed = v.keyed;
  in_session = λ s j h. v.in_session s j (of_erase session s j p.sessions h).0;
  in_device = v.in_device;
  allocated = v.allocated;
  distinct = v.distinct;
  waiting = v.waiting;
  once = v.once;
  fresh = v.fresh;
  accounted = v.accounted;
  bounded = v.bounded;
}

pub take_device-Inv : (p : Pending) (device : String) → Inv p → Inv (take_device p device).1
unfolding take_device
take_device-Inv p device v = record {
  keyed = v.keyed;
  in_session = v.in_session;
  in_device = λ d j h. v.in_device d j (of_erase device d j p.devices h).0;
  allocated = v.allocated;
  distinct = v.distinct;
  waiting = v.waiting;
  once = v.once;
  fresh = v.fresh;
  accounted = v.accounted;
  bounded = v.bounded;
}
