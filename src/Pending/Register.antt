-- ===== src/Pending/Register.antt =====
-- `Register`, `Associate` and the removal of a whole set keep the registry's invariant.
use roblox_mcp_gateway.Prelude.{
  ℕ, zero, suc, ◌<◌, String, ◌≡◌, sym, subst, ◌≢◌, ◌⊎◌, inl, inr, true, ◌&&◌, ◌||◌, List, Option,
  none, ok, bind-eq-ok, reject_if, ◌==◌, nat_beq, string_comparable, arith, eq_iff, Bool-cases,
  length, ltb, leb,
}
use roblox_mcp_gateway.Prelude.Map.{lookup, lookup-insert, length-insert}
use roblox_mcp_gateway.Pending.{
  invalid_request, too_many_pending, Entry, Pending, max_attempts, fresh_id, fresh_id_from,
  record_entry, register,
}
use roblox_mcp_gateway.Pending.Index.{of_add_to, indexed}
use roblox_mcp_gateway.Pending.Invariant.{sends, IsLive, Inv}

-- An id that `freshIDLocked` returns is not in use.
fresh_id_from-unused :
    (random : ℕ → Option String) (entries : List (String × Entry)) (left attempt : ℕ) (id : String)
    → fresh_id_from random entries left attempt ≡ ok id
    → lookup id entries ≡ none
unfolding fresh_id_from
fresh_id_from-unused random entries zero attempt id h = cc
fresh_id_from-unused random entries (suc left) attempt id h =
    ground (arith, fresh_id_from-unused random entries left (suc attempt) id)

pub fresh_id-unused :
    (random : ℕ → Option String) (entries : List (String × Entry)) (id : String)
    → fresh_id random entries ≡ ok id
    → lookup id entries ≡ none
unfolding fresh_id
fresh_id-unused random entries id h = fresh_id_from-unused random entries max_attempts 0 id h

module _ (p : Pending) (v : Inv p) (id session original : String)
    (unused : lookup id p.entries ≡ none)
    (room : 0 < p.max_entries → length p.entries < p.max_entries) where
  recorded : Pending
  recorded = record_entry p id session original

  entry : Entry
  entry = record {
    gateway_id = id;
    session_id = session;
    device_id = "";
    original_id = original;
    channel = p.next_channel;
  }

  IsLive-cases :
      (j : String) (f : Entry)
      → IsLive recorded j f
      → ((j ≡ id) × (f ≡ entry)) ⊎ (IsLive p j f × (j ≢ id))
  unfolding recorded record_entry entry
  IsLive-cases j f h = ground (arith, lookup-insert id j entry p.entries, eq_iff id j)

  IsLive-new : IsLive recorded id entry
  unfolding recorded record_entry entry
  IsLive-new = ground (arith, lookup-insert id id entry p.entries, eq_iff id id)

  IsLive-kept : (j : String) (f : Entry) → IsLive p j f → IsLive recorded j f
  unfolding recorded record_entry entry
  IsLive-kept j f h = ground (arith, lookup-insert id j entry p.entries, eq_iff id j)

  session_recorded :
      (s j : String)
      → indexed s j recorded.sessions ≡ true
      → (f : Entry) × IsLive recorded j f × (f.session_id ≡ s)
  unfolding recorded record_entry entry
  session_recorded s j h = elim (of_add_to session s id j p.sessions h) [
    | inl (a, b) ↦ (entry, subst (λ i. IsLive recorded i entry) b IsLive-new, a)
    | inr old ↦ let (f, l, same) = v.in_session s j old in (f, IsLive-kept j f l, same)
  ]

  device_recorded :
      (d j : String)
      → indexed d j recorded.devices ≡ true
      → (f : Entry) × IsLive recorded j f × (f.device_id ≡ d) × (d ≢ "")
  device_recorded d j h =
      let (f, l, same, named) = v.in_device d j (unfold recorded record_entry in h) in
      (f, IsLive-kept j f l, same, named)

  distinct_recorded :
      (i j : String) (e f : Entry)
      → IsLive recorded i e
      → IsLive recorded j f
      → e.channel ≡ f.channel
      → i ≡ j
  unfolding entry
  distinct_recorded i j e f h k q = ground (
    arith,
    IsLive-cases i e h,
    IsLive-cases j f k,
    v.distinct i j e f,
    v.allocated i e,
    v.allocated j f,
  )

  accounted_recorded :
      (c : ℕ)
      → c < suc p.next_channel
      → (sends c p.sent ≡ 1) ⊎ ((j : String) × (f : Entry) × IsLive recorded j f × (f.channel ≡ c))
  unfolding entry
  accounted_recorded c h = elim (Bool-cases (nat_beq c p.next_channel)) [
    | inl now ↦ inr (id, entry, IsLive-new, ground arith)
    | inr before ↦ elim (v.accounted c (ground arith)) [
      | inl done ↦ inl done
      | inr (j, f, l, same) ↦ inr (j, f, IsLive-kept j f l, same)
    ]
  ]

  pub recorded-Inv : Inv (record_entry p id session original)
  unfolding recorded record_entry entry
  recorded-Inv = record {
    keyed = λ j f h. ground (arith, IsLive-cases j f h, v.keyed j f);
    in_session = session_recorded;
    in_device = device_recorded;
    allocated = λ j f h. ground (arith, IsLive-cases j f h, v.allocated j f);
    distinct = distinct_recorded;
    waiting = λ j f h. ground (arith, IsLive-cases j f h, v.waiting j f, v.fresh p.next_channel);
    once = v.once;
    fresh = λ c h. v.fresh c (omega arith);
    accounted = accounted_recorded;
    bounded = λ h. omega (arith, room h, length-insert id entry p.entries);
  }

-- What a successful `Register` has checked, and what it does.
pub register_lem :
    (p : Pending) (session original : String) (random : ℕ → Option String) (id : String) (c : ℕ)
    (q : Pending)
    → register p session original random ≡ ok (id, c, q)
    → (fresh_id random p.entries ≡ ok id)
      × (0 < p.max_entries → length p.entries < p.max_entries)
      × (session ≢ "")
      × (original ≢ "")
      × (c ≡ p.next_channel)
      × (q ≡ record_entry p id session original)
unfolding register
register_lem p session original random id c q h =
    let (_, valid, h1) =
      bind-eq-ok (reject_if (session == "" || original == "") invalid_request) _ h in
    let (_, space, h2) =
      bind-eq-ok
        (reject_if (ltb 0 p.max_entries && leb p.max_entries (length p.entries)) too_many_pending) _
        h1 in
    let (i, chosen, h3) = bind-eq-ok (fresh_id random p.entries) _ h2 in
    (
      ground arith,
      ground arith,
      ground (arith, eq_iff session ""),
      ground (arith, eq_iff original ""),
      ground arith,
      ground arith,
    )

-- `Register` keeps the invariant.
pub register-Inv :
    (p : Pending) (session original : String) (random : ℕ → Option String) (id : String) (c : ℕ)
    (q : Pending)
    → Inv p
    → register p session original random ≡ ok (id, c, q)
    → Inv q
register-Inv p session original random id c q v h =
    let (chosen, room, _, _, _, same) = register_lem p session original random id c q h in
    subst Inv (sym same)
      (recorded-Inv p v id session original (fresh_id-unused random p.entries id chosen) room)
