-- ===== src/Limiter.antt =====
-- The MCP limiter of internal/httpserver/ratelimit.go. A Go map is an association list. A time is a
-- number of nanoseconds since the Unix epoch, and the zero time counts as 0; `int64` does not overflow
-- before the year 2262. The closure that `Acquire` returns is the number of the acquisition, and its
-- `sync.Once` the set of the numbers that were released. A nil limiter is left out.
pub mod Rate
pub mod Slots
mod Tests
use roblox_mcp_gateway.Prelude.{
  ℕ, suc, ◌+◌, ◌-◌, ◌/◌, String, Bool, true, false, not, ◌&&◌, ◌||◌, List, [], ◌∷◌, Option, none,
  some, ◌==◌, nat_comparable, string_comparable, if◌then◌else◌, ltb, leb, length,
}
use roblox_mcp_gateway.Prelude.Map.{lookup, insert, erase}
use roblox_mcp_gateway.Prelude.Set.{contains}

-- `MCPLimiterConfig`, without its clock.
pub record Config : Type 0 where
  pub requests : ℕ
  pub window : ℕ
  pub max_in_flight : ℕ
  pub max_keys : ℕ

abbrev pub default_max_keys : ℕ
default_max_keys = 4096

pub record Bucket : Type 0 where
  pub window : ℕ
  pub count : ℕ

pub record Limiter : Type 0 where
  pub config : Config
  pub rate : List (String × Bucket)
  pub inflight : List (String × ℕ)
  pub last_sweep : ℕ
  pub last_observed : ℕ
  pub next_release : ℕ
  pub released : List ℕ

unfoldable pub new_limiter : Config → Option Limiter
new_limiter c =
    if c.requests == 0 || c.window == 0 || c.max_in_flight == 0
    then none
    else some (record {
      config = record c { max_keys = if c.max_keys == 0 then default_max_keys else c.max_keys };
      rate = [];
      inflight = [];
      last_sweep = 0;
      last_observed = 0;
      next_release = 0;
      released = [];
    })

-- `sweepLocked`: buckets at least one full window old are deleted.
unfoldable pub sweep : ℕ → List (String × Bucket) → List (String × Bucket)
sweep current [] = []
sweep current ((key, bucket) ∷ rate) =
    (let rest = sweep current rate in
      if ltb (suc bucket.window) current then erase key rest else (key, bucket) ∷ rest)

unfoldable pub swept : Limiter → ℕ → ℕ → Limiter
unfolding sweep
swept l now index =
    if ltb l.last_sweep index
    then record l { last_observed = now; rate = sweep index l.rate; last_sweep = index }
    else record l { last_observed = now }

-- One request counted in a bucket, and whether it is within the budget.
unfoldable pub count_request : Limiter → String → Bucket → ℕ → Bool × Limiter
count_request l key bucket index =
    (let count = suc (if bucket.window == index then bucket.count else 0) in
      (
        leb count l.config.requests,
        record l { rate = insert key (record { window = index; count = count }) l.rate },
      ))

-- The tail of `Allow`, from the look-up of the bucket on.
unfoldable pub allow_at : Limiter → String → ℕ → Bool × Limiter
unfolding count_request
allow_at l key index = elim (lookup key l.rate) [
  | some bucket ↦ count_request l key bucket index
  | none ↦
      (if leb l.config.max_keys (length l.rate + length l.inflight)
        then (false, l)
        else count_request l key (record { window = 0; count = 0 }) index)
]

unfoldable pub allow : Limiter → String → ℕ → Bool × Limiter
unfolding swept allow_at
allow l key now =
    if ltb now l.last_observed
    then (false, l)
    else allow_at (swept l now (now / l.config.window)) key (now / l.config.window)

-- `InFlight`, 0 for a key that is not there.
unfoldable pub in_flight : List (String × ℕ) → String → ℕ
in_flight m key = elim (lookup key m) [ none ↦ 0 | some n ↦ n ]

abbrev pub is_tracked : Option Bucket → Bool
is_tracked none = false
is_tracked (some b) = true

unfoldable pub acquire : Limiter → String → Option ℕ × Limiter
unfolding in_flight
acquire l key =
    if leb l.config.max_in_flight (in_flight l.inflight key)
    then (none, l)
    else if not (is_tracked (lookup key l.rate))
        && leb l.config.max_keys (length l.rate + length l.inflight)
    then (none, l)
    else (
      some l.next_release,
      record l {
        inflight = insert key (suc (in_flight l.inflight key)) l.inflight;
        next_release = suc l.next_release;
      },
    )

-- The body of the release function under its `once`.
unfoldable pub give_back : List (String × ℕ) → String → List (String × ℕ)
unfolding in_flight
give_back m key = (let n = in_flight m key in if leb n 1 then erase key m else insert key (n - 1) m)

unfoldable pub release : Limiter → ℕ → String → Limiter
unfolding give_back
release l id key =
    if contains id l.released
    then l
    else record l { inflight = give_back l.inflight key; released = id ∷ l.released }
