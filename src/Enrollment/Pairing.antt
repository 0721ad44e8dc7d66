-- ===== src/Enrollment/Pairing.antt =====
-- The pairing of a Bridge: `Enrollment` of internal/device/enrollment.go, over the pairing codes of
-- internal/mysqlstore/device_store.go and the trial of internal/mysqlstore/entitlement_store.go. A code is
-- known by its keyed digest, `digest_of`; what is drawn at random is an argument, none if that fails.
-- `Exchange` holds the lock for its two ends only; it is one step here.
use Prim.Native.Char.{code}
use roblox_mcp_gateway.Prelude.{
  ℕ, ◌+◌, String, Bool, true, false, not, ◌&&◌, ◌||◌, List, [], ◌∷◌, Option, none, some, Except, ok,
  err, ◌>>◌, reject_if, ◌==◌, string_comparable, nat_comparable, if◌then◌else◌, ltb, leb, length,
  len,
}
use roblox_mcp_gateway.Prelude.Map.{lookup, insert, erase}
use roblox_mcp_gateway.Entitlement
use roblox_mcp_gateway.Enrollment
use roblox_mcp_gateway.Enrollment.{
  EnrollmentRecord, insert_enrollment_code, consume_enrollment_code, roblox_identity_provider,
}

-- The sentinels of enrollment.go; `owner_mismatch` and `generation_failed` are its plain errors, and the
-- errors of the stores are passed on.
pub data Error : Type 0 where
  invalid_claim approval_owner_required not_found expired not_approved too_many_pending : Error
  owner_mismatch generation_failed : Error
  code_error : Enrollment.Error → Error
  bind_error : Entitlement.Error → Error

pub record DeviceClaim : Type 0 where
  pub device_id : String
  pub name : String
  pub hostname : String
  pub platform : String
  pub bridge_version : String
  pub fingerprint_hash : String

pub record DeviceCredential : Type 0 where
  pub token : String
  pub device_id : String
  pub user_id : String

pub record PendingEntry : Type 0 where
  pub claim : DeviceClaim
  pub status : String
  pub approved : Bool
  pub approved_by : String
  pub expires_at : ℕ

pub record Pairings : Type 0 where
  pub pending_ttl : ℕ
  pub code_ttl : ℕ
  pub max_pending : ℕ
  pub pending : List (String × PendingEntry)
  pub codes : Enrollment.Store
  pub entitlements : Entitlement.Store

abbrev pub Outcome : Type 0 → Type 0
Outcome A = Except Error A × Pairings

-- `isClaimChar`, on the number of a rune.
abbrev pub is_claim_char : ℕ → Bool
is_claim_char r =
    (leb 97 r && leb r 122)
    || (leb 65 r && leb r 90)
    || (leb 48 r && leb r 57)
    || (r == 45 || r == 95 || r == 46)

abbrev pub is_hex_char : ℕ → Bool
is_hex_char r = (leb 48 r && leb r 57) || (leb 97 r && leb r 102) || (leb 65 r && leb r 70)

-- The loops over the runes of a text.
unfoldable pub every_rune : (ℕ → Bool) → String → Bool
every_rune p String.[] = true
every_rune p (String.◌∷◌ c s) = if p (code c) then every_rune p s else false

unfoldable pub validate_claim : (String → String) → DeviceClaim → Except Error (Unit {0})
unfolding every_rune
validate_claim trim_space claim = do
  reject_if (trim_space claim.device_id == "" || ltb 64 (len (trim_space claim.device_id)))
      invalid_claim
  reject_if (not (every_rune is_claim_char (trim_space claim.device_id))) invalid_claim
  reject_if
      (ltb 255 (len claim.hostname)
        || ltb 255 (len claim.name)
        || ltb 64 (len claim.platform)
        || ltb 64 (len claim.bridge_version))
      invalid_claim
  reject_if (not (len claim.fingerprint_hash == 64)) invalid_claim
  reject_if (not (every_rune is_hex_char claim.fingerprint_hash)) invalid_claim

unfoldable pub evict_expired : ℕ → List (String × PendingEntry) → List (String × PendingEntry)
evict_expired now [] = []
evict_expired now ((key, entry) ∷ pending) =
    (let rest = evict_expired now pending in
      if not (ltb now entry.expires_at) then rest else (key, entry) ∷ rest)

-- `Begin` once the code is drawn.
unfoldable pub add_pending : Pairings → DeviceClaim → ℕ → String → Outcome (Unit {0})
unfolding evict_expired insert
add_pending e claim now key =
    (let kept = evict_expired now e.pending in
      if leb e.max_pending (length kept)
      then (err too_many_pending, record e { pending = kept })
      else (
        ok tt,
        record e {
          pending =
              insert key
                (record {
                  claim = claim;
                  status = "pending";
                  approved = false;
                  approved_by = "";
                  expires_at = now + e.pending_ttl;
                })
                kept;
        },
      ))

-- The claim, and the digest of the code that `credential.Generate` draws.
unfoldable pub begin_pairing :
    (String → String) → Pairings → DeviceClaim → ℕ → Option String → Outcome (Unit {0})
unfolding add_pending
begin_pairing trim_space e claim now drawn = elim (validate_claim trim_space claim) [
  | err x ↦ (err x, e)
  | ok u ↦ elim drawn [ none ↦ (err generation_failed, e) | some key ↦ add_pending e claim now key ]
]

-- The entry of a code, as `Lookup`, `Approve` and `Exchange` read it: an expired one is deleted.
unfoldable pub live_entry : Pairings → String → ℕ → Outcome PendingEntry
unfolding lookup erase
live_entry e key now = elim (lookup key e.pending) [
  | none ↦ (err not_found, e)
  | some entry ↦
      if not (ltb now entry.expires_at)
      then (err expired, record e { pending = erase key e.pending })
      else (ok entry, e)
]

-- `Lookup`, which shows the entry.
unfoldable pub lookup_pairing : (String → String) → Pairings → String → ℕ → Outcome PendingEntry
unfolding live_entry
lookup_pairing digest_of e user_code now =
    if user_code == "" then (err not_found, e) else live_entry e (digest_of user_code) now

-- `Approve` after the store's answer.
unfoldable pub mark_approved :
    Pairings
    → String
    → PendingEntry
    → String
    → Except Enrollment.Error (Unit {0}) × Enrollment.Store
    → Outcome (Unit {0})
unfolding insert
mark_approved e key entry user_id (err x, codes) = (err (code_error x), e)
mark_approved e key entry user_id (ok u, codes) = (
  ok tt,
  record e {
    codes = codes;
    pending =
        insert key (record entry { approved = true; status = "approved"; approved_by = user_id })
          e.pending;
  },
)

-- `Approve` on the live entry, with the id that is drawn for the code's row.
unfoldable pub approve_entry :
    Pairings → String → PendingEntry → String → ℕ → Option String → Outcome (Unit {0})
unfolding mark_approved
approve_entry e key entry user_id now drawn =
    if entry.approved then (err not_found, e) else elim drawn [
      | none ↦ (err generation_failed, e)
      | some id ↦ mark_approved e key entry user_id (
          insert_enrollment_code e.codes (record {
            id = id;
            user_id = user_id;
            digest = key;
            expires_at = now + e.code_ttl;
            consumed_at = none;
          }))
    ]

unfoldable pub on_entry :
    {A : Type 0} → Outcome PendingEntry → (Pairings → PendingEntry → Outcome A) → Outcome A
on_entry (err x, e) k = (err x, e)
on_entry (ok entry, e) k = k e entry

unfoldable pub approve :
    (String → String) → Pairings → String → String → ℕ → Option String → Outcome (Unit {0})
unfolding live_entry on_entry approve_entry
approve digest_of e user_id user_code now drawn =
    if user_id == ""
    then (err approval_owner_required, e)
    else if user_code == ""
    then (err not_found, e)
    else on_entry (live_entry e (digest_of user_code) now)
        (λ f entry. approve_entry f (digest_of user_code) entry user_id now drawn)
