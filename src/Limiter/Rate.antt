-- ===== src/Limiter/Rate.antt =====
-- No key is allowed more requests in a window than its budget (`Allow` of internal/httpserver/ratelimit.go).
use roblox_mcp_gateway.Prelude.{
  ℕ, suc, ◌+◌, ◌-◌, ◌/◌, ◌≤◌, ◌<◌, String, ◌≡◌, refl, ◌⊎◌, inl, inr, Bool, true, ◌&&◌, List, [],
  ◌∷◌, none, some, ◌==◌, nat_comparable, string_comparable, if◌then◌else◌, ltb, leb, arith, eq_iff,
  Option-cases, Bool-cases, le-div_iff_mul-le, div-mul-le_self,
}
use roblox_mcp_gateway.Prelude.Map.{lookup, lookup-insert, lookup-erase}
use roblox_mcp_gateway.Limiter.{
  Config, Bucket, Limiter, new_limiter, sweep, swept, count_request, allow_at, allow,
}

-- How many of a sequence of requests, each a key and a time, are allowed for a key in one window.
abbrev pub granted : String → ℕ → Limiter → List (String × ℕ) → ℕ
granted key index l [] = 0
granted key index l ((k, now) ∷ calls) =
    (let (is_allowed, t) = allow l k now in
      let more = granted key index t calls in
      if is_allowed && k == key && (now / l.config.window) == index then suc more else more)

-- The window of the last accepted time.
current : Limiter → ℕ
current l = l.last_observed / l.config.window

-- What is left of the key's budget for the window.
left : String → ℕ → Limiter → ℕ
left key index l = if ltb index (current l) then 0 else elim (lookup key l.rate) [
  | none ↦ l.config.requests
  | some b ↦ if b.window == index then l.config.requests - b.count else l.config.requests
]

-- The key's bucket is of no later window than the last accepted time.
fits : String → Limiter → Bool
fits key l = elim (lookup key l.rate) [ none ↦ true | some b ↦ leb b.window (current l) ]

div_mono : (a b k : ℕ) → 0 < k → a ≤ b → a / k ≤ b / k
div_mono a b k p h = (le-div_iff_mul-le p).1 (omega (arith, div-mul-le_self a k))

lookup-sweep :
    (key : String) (now : ℕ) (rate : List (String × Bucket))
    → lookup key (sweep now rate) ≡ (elim (lookup key rate) [
      | none ↦ none
      | some b ↦ if ltb (suc b.window) now then none else some b
    ])
unfolding lookup sweep
lookup-sweep key now [] = refl
lookup-sweep key now ((k, b) ∷ rate) =
    ground (arith, lookup-sweep key now rate, lookup-erase k key (sweep now rate), eq_iff k key)

swept-step :
    (key : String) (index : ℕ) (l : Limiter) (now : ℕ)
    → 0 < l.config.window
    → l.last_observed ≤ now
    → fits key l ≡ true
    → (fits key (swept l now (now / l.config.window)) ≡ true)
      × (left key index (swept l now (now / l.config.window)) ≤ left key index l)
unfolding fits left current swept
swept-step key index l now p h f = elim (Option-cases (lookup key l.rate)) [
  | inl e ↦ ground (
    arith,
    lookup-sweep key (now / l.config.window) l.rate,
    div_mono l.last_observed now l.config.window p h,
  )
  | inr (b, e) ↦ ground (
    arith,
    lookup-sweep key (now / l.config.window) l.rate,
    div_mono l.last_observed now l.config.window p h,
  )
]

swept-current :
    (l : Limiter) (now : ℕ) → now / l.config.window ≡ current (swept l now (now / l.config.window))
unfolding current swept
swept-current l now = ground arith

-- Counting a request in the key's bucket, or in an empty one where there is none, takes it off what is left.
count_request-step :
    (key : String) (index : ℕ) (l : Limiter) (k : String) (b : Bucket) (now : ℕ)
    → fits key l ≡ true
    → now ≡ current l
    → (lookup k l.rate ≡ some b) ⊎ ((lookup k l.rate ≡ none) × (b.count ≡ 0))
    → (fits key (count_request l k b now).1 ≡ true)
      × (left key index (count_request l k b now).1
            + (if (count_request l k b now).0 && k == key && now == index then 1 else 0)
          ≤ left key index l)
unfolding fits left current count_request
count_request-step key index l k b now f c at =
    (let count = suc (if b.window == now then b.count else 0) in
      elim (Option-cases (lookup key l.rate)) [
        | inl e ↦ ground (
          arith,
          lookup-insert k key (record { window = now; count = count }) l.rate,
          eq_iff k key,
        )
        | inr (d, e) ↦ ground (
          arith,
          lookup-insert k key (record { window = now; count = count }) l.rate,
          eq_iff k key,
        )
      ])

allow_at-step :
    (key : String) (index : ℕ) (l : Limiter) (k : String) (now : ℕ)
    → fits key l ≡ true
    → now ≡ current l
    → (fits key (allow_at l k now).1 ≡ true)
      × (left key index (allow_at l k now).1
            + (if (allow_at l k now).0 && k == key && now == index then 1 else 0)
          ≤ left key index l)
unfolding allow_at
allow_at-step key index l k now f c = elim (Option-cases (lookup k l.rate)) [
  | inl e ↦ ground (
    arith,
    count_request-step key index l k (record { window = 0; count = 0 }) now f c (inr (e, refl)),
  )
  | inr (b, e) ↦ ground (arith, count_request-step key index l k b now f c (inl e))
]

allow-step :
    (key : String) (index : ℕ) (l : Limiter) (k : String) (now : ℕ)
    → 0 < l.config.window
    → fits key l ≡ true
    → (fits key (allow l k now).1 ≡ true)
      × (left key index (allow l k now).1
            + (if (allow l k now).0 && k == key && (now / l.config.window) == index then 1 else 0)
          ≤ left key index l)
unfolding allow
allow-step key index l k now p f = elim (Bool-cases (ltb now l.last_observed)) [
  | inl e ↦ ground arith
  | inr e ↦
      (let t = swept l now (now / l.config.window) in
        ground (
          arith,
          swept-step key index l now p (ground arith) f,
          swept-current l now,
          allow_at-step key index t k (now / l.config.window),
        ))
]

allow-config : (l : Limiter) (k : String) (now : ℕ) → (allow l k now).1.config ≡ l.config
unfolding allow swept allow_at count_request
allow-config l k now = elim (Option-cases (lookup k (swept l now (now / l.config.window)).rate)) [
  | inl e ↦ ground arith
  | inr (b, e) ↦ ground arith
]

granted-left :
    (key : String) (index : ℕ) (l : Limiter) (calls : List (String × ℕ))
    → 0 < l.config.window
    → fits key l ≡ true
    → granted key index l calls ≤ left key index l
granted-left key index l [] p f = omega arith
granted-left key index l ((k, now) ∷ calls) p f = ground (
  arith,
  allow-step key index l k now p f,
  allow-config l k now,
  granted-left key index (allow l k now).1 calls,
)

-- Over any sequence of requests at any times, a limiter from `NewMCPLimiter` allows a key at most
-- `Requests` requests in one window, sweeps and clock regressions included.
pub granted-within :
    (c : Config) (l : Limiter) (key : String) (index : ℕ) (calls : List (String × ℕ))
    → new_limiter c ≡ some l
    → granted key index l calls ≤ c.requests
unfolding new_limiter left fits current lookup
granted-within c l key index calls h = ground (arith, granted-left key index l calls)
