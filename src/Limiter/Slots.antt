-- ===== src/Limiter/Slots.antt =====
-- Concurrent slots of internal/httpserver/ratelimit.go: `Acquire` and the release function it returns.
use roblox_mcp_gateway.Prelude.{
  ℕ, suc, ◌-◌, ◌/◌, ◌≤◌, String, ◌≡◌, inl, inr, false, List, [], ◌∷◌, some, ◌==◌, nat_comparable,
  string_comparable, if◌then◌else◌, arith, eq_iff, Option-cases, eq_self,
}
use roblox_mcp_gateway.Prelude.Map.{lookup, insert, lookup-insert, lookup-erase}
use roblox_mcp_gateway.Prelude.Set.{contains}
use roblox_mcp_gateway.Limiter.{
  Config, Limiter, new_limiter, swept, count_request, allow_at, allow, in_flight, acquire,
  give_back, release,
}

-- A call of the limiter: of `Allow`, of `Acquire`, or of a release function.
pub data Op : Type 0 where
  request : String → ℕ → Op
  take : String → Op
  give : ℕ → String → Op

unfoldable pub apply : Limiter → Op → Limiter
apply l (request key now) = (allow l key now).1
apply l (take key) = (acquire l key).1
apply l (give id key) = release l id key

abbrev pub run : Limiter → List Op → Limiter
run l [] = l
run l (o ∷ ops) = run (apply l o) ops

give_back-in_flight :
    (m : List (String × ℕ)) (k j : String)
    → in_flight (give_back m k) j ≡ (if k == j then in_flight m j - 1 else in_flight m j)
unfolding give_back in_flight
give_back-in_flight m k j =
    ground (arith, lookup-insert k j (in_flight m k - 1) m, lookup-erase k j m, eq_iff k j)

take-in_flight :
    (m : List (String × ℕ)) (k j : String)
    → in_flight (insert k (suc (in_flight m k)) m) j
      ≡ (if k == j then suc (in_flight m j) else in_flight m j)
unfolding in_flight
take-in_flight m k j = ground (arith, lookup-insert k j (suc (in_flight m k)) m, eq_iff k j)

-- `Allow` leaves the slots as they are.
allow-inflight :
    (l : Limiter) (k : String) (now : ℕ)
    → ((allow l k now).1.inflight ≡ l.inflight) × ((allow l k now).1.config ≡ l.config)
unfolding allow swept allow_at count_request
allow-inflight l k now = elim (Option-cases (lookup k (swept l now (now / l.config.window)).rate)) [
  | inl e ↦ ground arith
  | inr (b, e) ↦ ground arith
]

apply-within :
    (l : Limiter) (o : Op) (key : String)
    → in_flight l.inflight key ≤ l.config.max_in_flight
    → (in_flight (apply l o).inflight key ≤ l.config.max_in_flight)
      × ((apply l o).config ≡ l.config)
unfolding apply acquire release
apply-within l (request k now) key h = ground (arith, allow-inflight l k now)
apply-within l (take k) key h = ground (arith, take-in_flight l.inflight k key, eq_iff k key)
apply-within l (give id k) key h = ground (arith, give_back-in_flight l.inflight k key)

run-within :
    (l : Limiter) (ops : List Op) (key : String)
    → in_flight l.inflight key ≤ l.config.max_in_flight
    → in_flight (run l ops).inflight key ≤ l.config.max_in_flight
run-within l [] key h = h
run-within l (o ∷ ops) key h =
    ground (arith, apply-within l o key h, run-within (apply l o) ops key)

-- Over any sequence of requests, acquisitions and releases, a limiter from `NewMCPLimiter` never has more
-- slots of a key in flight than `MaxInFlight`.
pub slots-within :
    (c : Config) (l : Limiter) (ops : List Op) (key : String)
    → new_limiter c ≡ some l
    → in_flight (run l ops).inflight key ≤ c.max_in_flight
unfolding new_limiter in_flight lookup
slots-within c l ops key h = ground (arith, run-within l ops key)

-- An acquisition that succeeds takes one slot of its key; its release gives the slot back, and leaves
-- every key's slots as before the acquisition; a second call of the release changes nothing. The number
-- of the acquisition is one that was not released.
pub acquire-release :
    (l : Limiter) (key : String) (id : ℕ) (other : String)
    → (acquire l key).0 ≡ some id
    → contains id l.released ≡ false
    → let t = (acquire l key).1 in
      (in_flight t.inflight key ≡ suc (in_flight l.inflight key))
      × (in_flight (release t id key).inflight other ≡ in_flight l.inflight other)
      × (release (release t id key) id key ≡ release t id key)
unfolding acquire release contains
acquire-release l key id other h fresh =
    (let m = insert key (suc (in_flight l.inflight key)) l.inflight in
      ground (
        arith,
        take-in_flight l.inflight key key,
        take-in_flight l.inflight key other,
        give_back-in_flight m key other,
        eq_iff key other,
        eq_self key,
      ))
