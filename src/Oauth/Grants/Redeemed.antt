-- ===== src/Oauth/Grants/Redeemed.antt =====
-- A code from `SaveAuthorizationCode` to `ConsumeAuthorizationCode` (internal/mysqlstore/oauth_store.go).
use roblox_mcp_gateway.Prelude.{
  ℕ, ◌<◌, String, ◌≡◌, ◌≢◌, inl, inr, Bool, true, ◌&&◌, ◌||◌, List, [], ◌∷◌, Option, none, ok, ◌==◌,
  string_comparable, nat_comparable, arith, eq_self, Except-cases,
}
use roblox_mcp_gateway.Prelude.Table.{select, count_where}
use roblox_mcp_gateway.Oauth.{
  CodeBinding, AuthorizationCode, Store, or_now, is_null, consume_authorization_code, consume_row,
  code_has, is_bound, is_unconsumed, mark_consumed,
}
use roblox_mcp_gateway.Oauth.Validate.{Url}
use roblox_mcp_gateway.Oauth.Grants.{validate_code, save_authorization_code}

count_where-narrow {ℓ} :
    {A : Type ℓ} (p q : A → Bool) (xs : List A)
    → ((x : A) → q x ≡ true → p x ≡ true)
    → count_where p xs ≡ 0
    → count_where q xs ≡ 0
unfolding count_where
count_where-narrow p q [] sub h = h
count_where-narrow p q (x ∷ xs) sub h = ground (arith, count_where-narrow p q xs sub, sub x)

-- The row that is stored, and the binding that redeems it.
abbrev pub stored : AuthorizationCode → ℕ → AuthorizationCode
stored code now = record code { consumed_at = none; created_at = or_now code.created_at now }

abbrev pub own_binding : AuthorizationCode → CodeBinding
own_binding code = record {
  client_id = code.client_id;
  redirect_uri = code.redirect_uri;
  resource = code.resource;
}

-- A code that was saved is redeemed by its digest, with its own client, redirect URI and resource, at any
-- time before it expires but the zero time; the redemption returns what was saved, marked as used.
pub save-consume :
    (parse : String → Option Url) (referred : AuthorizationCode → Bool) (s : Store)
    (code : AuthorizationCode) (now at : ℕ)
    → (save_authorization_code parse referred s code now).0 ≡ ok tt
    → at ≢ 0
    → at < code.expires_at
    → (consume_authorization_code
        (save_authorization_code parse referred s code now).1
        code.digest
        (own_binding code)
        at).0
      ≡ ok (mark_consumed at (stored code now))
unfolding save_authorization_code consume_authorization_code consume_row code_has is_bound
    is_unconsumed select count_where
save-consume parse referred s code now at saved timed fresh =
    elim (Except-cases (validate_code parse code)) [
      | inr (e, f) ↦ ground arith
      | inl (u, f) ↦ ground (
        arith,
        eq_self code.digest,
        eq_self code.id,
        eq_self code.client_id,
        eq_self code.redirect_uri,
        eq_self code.resource,
        count_where-narrow (λ c. c.id == code.id || c.digest == code.digest)
            (λ c. c.id == code.id && is_null c.consumed_at) s.codes (λ c h. ground arith),
      )
    ]
