-- ===== src/Enrollment/Calls.antt =====
-- The calls of internal/device/enrollment.go as steps, and their sequences.
use roblox_mcp_gateway.Prelude.{ℕ, String, List, [], ◌∷◌, Option, string_comparable}
use roblox_mcp_gateway.Entitlement.Devices.{Draw}
use roblox_mcp_gateway.Enrollment.Pairing.{
  DeviceClaim, Pairings, begin_pairing, lookup_pairing, approve,
}
use roblox_mcp_gateway.Enrollment.Exchange.{exchange}

pub data Call : Type 0 where
  begins : DeviceClaim → ℕ → Option String → Call
  looks : String → ℕ → Call
  approves : (user_id user_code : String) → ℕ → Option String → Call
  exchanges : String → ℕ → Option (String × String) → Draw → ℕ → Call

-- What `bind_first_device`, `validateClaim` and `credential.Digest` take from other packages.
pub record Codec : Type 0 where
  pub decode : String → Option String
  pub trim_space : String → String
  pub digest_of : String → String

unfoldable pub apply : Codec → Pairings → Call → Pairings
apply c e (begins claim now drawn) = (begin_pairing c.trim_space e claim now drawn).1
apply c e (looks user_code now) = (lookup_pairing c.digest_of e user_code now).1
apply c e (approves user_id user_code now drawn) =
    (approve c.digest_of e user_id user_code now drawn).1
apply c e (exchanges device_code now drawn draw clock) =
    (exchange c.decode c.digest_of e device_code now drawn draw clock).1

-- The calls, newest first.
unfoldable pub run : Codec → Pairings → List Call → Pairings
run c e [] = e
run c e (op ∷ earlier) = apply c (run c e earlier) op
