-- ===== src/Oauth/SingleUse.antt =====
-- An authorization code of internal/mysqlstore/oauth_store.go is consumed at most once.
use roblox_mcp_gateway.Prelude.{
  ℕ, suc, ◌≤◌, ◌<◌, String, ◌≡◌, refl, inl, inr, Bool, true, false, not, ◌&&◌, List, [], ◌∷◌,
  Option, none, some, Except, ok, err, ◌==◌, nat_comparable, string_comparable, if◌then◌else◌,
  arith, eq_iff, Option-cases, Bool-cases, eq_self,
}
use roblox_mcp_gateway.Prelude.Table.{select, update, select-update}
use roblox_mcp_gateway.Oauth.{
  Error, CodeBinding, AuthorizationCode, Store, is_null, code_has, is_unconsumed, mark_consumed,
  is_bound, consume_row, consume_authorization_code,
}

-- The code that a digest finds.
abbrev pub found : Store → String → Option AuthorizationCode
found s digest = select (code_has digest) s.codes

-- After the UPDATE for one code, the code of a digest is the one from before, or that one marked.
found-update :
    (s : Store) (digest id : String) (now : ℕ)
    → select (code_has digest) (update (is_unconsumed id) (mark_consumed now) s.codes)
      ≡ (elim (found s digest) [
        | none ↦ none
        | some c ↦ some (if is_unconsumed id c then mark_consumed now c else c)
      ])
unfolding code_has mark_consumed
found-update s digest id now =
    select-update (code_has digest) (is_unconsumed id) (mark_consumed now) s.codes (λ c. refl)

-- A consumption succeeds only for a code that is stored, unused, unexpired and bound to the same
-- client, redirect URI and resource; it returns that code marked with the time, and the store holds
-- the marked code from then on.
pub consume-ok :
    (s t : Store) (digest : String) (binding : CodeBinding) (now : ℕ) (c : AuthorizationCode)
    → consume_authorization_code s digest binding now ≡ (ok c, t)
    → (old : AuthorizationCode) × (found s digest ≡ some old)
      × (old.consumed_at ≡ none)
      × (now < old.expires_at)
      × (binding.client_id ≡ old.client_id)
      × (binding.redirect_uri ≡ old.redirect_uri)
      × (binding.resource ≡ old.resource)
      × (c ≡ mark_consumed now old)
      × (found t digest ≡ some (mark_consumed now old))
unfolding consume_authorization_code consume_row is_unconsumed is_bound
consume-ok s t digest binding now c h = elim (Option-cases (found s digest)) [
  | inl e ↦ ground arith
  | inr (old, e) ↦ (
    old,
    e,
    ground arith,
    ground arith,
    ground (arith, eq_iff binding.client_id old.client_id),
    ground (arith, eq_iff binding.redirect_uri old.redirect_uri),
    ground (arith, eq_iff binding.resource old.resource),
    ground arith,
    ground (arith, found-update s digest old.id now, eq_self old.id),
  )
]

-- A consumption that fails leaves the store as it was.
pub consume-err :
    (s t : Store) (digest : String) (binding : CodeBinding) (now : ℕ) (e : Error)
    → consume_authorization_code s digest binding now ≡ (err e, t)
    → t ≡ s
unfolding consume_authorization_code consume_row
consume-err s t digest binding now e h = elim (Option-cases (found s digest)) [
  | inl m ↦ ground arith
  | inr (old, m) ↦ ground arith
]

-- A redemption as the token endpoint attempts it.
pub record Attempt : Type 0 where
  pub digest : String
  pub binding : CodeBinding
  pub now : ℕ

abbrev succeeds {ℓ} : {A : Type ℓ} → Except Error A → Bool
succeeds (ok a) = true
succeeds (err e) = false

-- How many of a sequence of attempts redeem the code with a digest.
abbrev pub redeemed : String → Store → List Attempt → ℕ
redeemed digest s [] = 0
redeemed digest s (a ∷ rest) =
    (let (result, t) = consume_authorization_code s a.digest a.binding a.now in
      let more = redeemed digest t rest in
      if succeeds result && a.digest == digest then suc more else more)

-- The code of the digest is stored and marked.
abbrev spent : String → Store → Bool
spent digest s = elim (found s digest) [ none ↦ false | some c ↦ not (is_null c.consumed_at) ]

-- A marked code stays marked, whatever is consumed, and is not redeemed.
consume-spent :
    (digest : String) (s : Store) (a : Attempt)
    → spent digest s ≡ true
    → (spent digest (consume_authorization_code s a.digest a.binding a.now).1 ≡ true)
      × ((succeeds (consume_authorization_code s a.digest a.binding a.now).0 && a.digest == digest)
          ≡ false)
unfolding consume_authorization_code consume_row mark_consumed
consume-spent digest s a h = elim (Option-cases (found s a.digest)) [
  | inl e ↦ ground arith
  | inr (old, e) ↦ (elim (Option-cases (found s digest)) [
    | inl m ↦ ground arith
    | inr (c, m) ↦ ground (arith, found-update s digest old.id a.now, eq_iff a.digest digest)
  ])
]

-- A redemption marks the code.
redemption-spent :
    (digest : String) (s : Store) (a : Attempt)
    → (succeeds (consume_authorization_code s a.digest a.binding a.now).0 && a.digest == digest)
      ≡ true
    → spent digest (consume_authorization_code s a.digest a.binding a.now).1 ≡ true
unfolding consume_authorization_code consume_row mark_consumed is_unconsumed
redemption-spent digest s a h = elim (Option-cases (found s a.digest)) [
  | inl e ↦ ground arith
  | inr (old, e) ↦
      ground (arith, found-update s digest old.id a.now, eq_iff a.digest digest, eq_self old.id)
]

spent-redeemed :
    (digest : String) (s : Store) (attempts : List Attempt)
    → spent digest s ≡ true
    → redeemed digest s attempts ≡ 0
spent-redeemed digest s [] h = refl
spent-redeemed digest s (a ∷ rest) h =
    (let t = (consume_authorization_code s a.digest a.binding a.now).1 in
      ground (
        arith,
        consume-spent digest s a h,
        spent-redeemed digest t rest (consume-spent digest s a h).0,
      ))

-- Over any sequence of redemption attempts, of this code and of others, with any bindings and times,
-- an authorization code is redeemed at most once.
pub single_use :
    (digest : String) (s : Store) (attempts : List Attempt) → redeemed digest s attempts ≤ 1
single_use digest s [] = omega arith
single_use digest s (a ∷ rest) =
    (let (result, t) = consume_authorization_code s a.digest a.binding a.now in
      elim (Bool-cases (succeeds result && a.digest == digest)) [
        | inl e ↦ ground (arith, spent-redeemed digest t rest (redemption-spent digest s a e))
        | inr e ↦ ground (arith, single_use digest t rest)
      ])
