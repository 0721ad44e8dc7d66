-- ===== src/Pending.antt =====
-- internal/mcpgateway/pending.go: the registry that correlates forwarded requests with responses.
-- A result channel is a number, allocated in order; `sent` is the log of sends, newest first. The
-- deadline timer of an entry is the event that delivers `deadline_exceeded` (Pending.Schedule): it may
-- come at any time. A bound of zero, or below, means unbounded. The inner maps of the two indexes are
-- read only for their gateway ids, which are the keys, so an index maps a key to a set of ids.
pub mod Index
pub mod Schedule
pub mod Invariant
pub mod Register
pub mod Associate
pub mod Fresh
pub mod Tracked
pub mod Once
pub mod Progress
pub mod Cancel
pub mod Failed
mod Tests
use roblox_mcp_gateway.Prelude.{
  ℕ, zero, suc, String, Bool, true, false, not, ◌&&◌, ◌||◌, List, [], ◌∷◌, Option, none, some,
  Except, ok, err, ◌>>=◌, ◌>>◌, reject_if, ◌==◌, string_comparable, if◌then◌else◌, ltb, leb, length,
}
use Prim.Native.String
use roblox_mcp_gateway.Prelude.Map.{lookup, insert, erase}
use roblox_mcp_gateway.Prelude.Set.{contains, add, remove}

-- errors.go, and the failures of id generation. `other` is a cause that a caller passes in.
pub data Error : Type 0 where
  unknown_correlation too_many_pending invalid_request deadline_exceeded cancelled device_failed :
      Error
  id_generation_failed : Error
  other : String → Error

pub record Result : Type 0 where
  pub payload : String
  pub cause : Option Error

pub record Entry : Type 0 where
  pub gateway_id : String
  pub session_id : String
  pub device_id : String
  pub original_id : String
  pub channel : ℕ

abbrev pub Index : Type 0
Index = List (String × List String)

pub record Pending : Type 0 where
  pub max_entries : ℕ
  pub entries : List (String × Entry)
  pub sessions : Index
  pub devices : Index
  pub next_channel : ℕ
  pub sent : List (ℕ × Result)

unfoldable pub new_pending : ℕ → Pending
new_pending m = record {
  max_entries = m;
  entries = [];
  sessions = [];
  devices = [];
  next_channel = 0;
  sent = [];
}

-- The set under a key; a missing key reads as the nil map.
unfoldable pub members : String → Index → List String
members k m = elim (lookup k m) [ none ↦ [] | some s ↦ s ]

-- `set, ok := m[k]; if !ok { make }; set[id] = entry`
unfoldable pub add_to : String → String → Index → Index
unfolding members
add_to k id m = insert k (add id (members k m)) m

-- Removes the id from the set under the key, and an emptied set from the index.
unfoldable pub drop_from : String → String → Index → Index
drop_from k id m = elim (lookup k m) [
  | none ↦ m
  | some s ↦ elim (remove id s) [ [] ↦ erase k m | x ∷ xs ↦ insert k (x ∷ xs) m ]
]

-- The loop of `freshIDLocked`: `random i` is the hex text of the bytes that attempt `i` reads.
unfoldable pub fresh_id_from :
    (ℕ → Option String) → List (String × Entry) → ℕ → ℕ → Except Error String
fresh_id_from random entries zero attempt = err id_generation_failed
fresh_id_from random entries (suc left) attempt =
    let rest = fresh_id_from random entries left (suc attempt) in
    elim (random attempt) [
      | none ↦ err id_generation_failed
      | some hex ↦ elim (lookup (String.◌++◌ "gw_" hex) entries) [
        | none ↦ ok (String.◌++◌ "gw_" hex)
        | some e ↦ rest
      ]
    ]

abbrev pub max_attempts : ℕ
max_attempts = 8

unfoldable pub fresh_id : (ℕ → Option String) → List (String × Entry) → Except Error String
unfolding fresh_id_from
fresh_id random entries = fresh_id_from random entries max_attempts 0

-- `Register` once an id is chosen.
unfoldable pub record_entry : Pending → String → String → String → Pending
unfolding add_to
record_entry p id session original = record p {
  entries =
      insert id
        (record {
          gateway_id = id;
          session_id = session;
          device_id = "";
          original_id = original;
          channel = p.next_channel;
        })
        p.entries;
  sessions = add_to session id p.sessions;
  next_channel = suc p.next_channel;
}

-- The gateway id, the channel to wait on, and the registry after.
unfoldable pub register :
    Pending → String → String → (ℕ → Option String) → Except Error (String × ℕ × Pending)
unfolding record_entry
register p session original random = do
  reject_if (session == "" || original == "") invalid_request
  reject_if (ltb 0 p.max_entries && leb p.max_entries (length p.entries)) too_many_pending
  id ← fresh_id random p.entries
  ok (id, p.next_channel, record_entry p id session original)

-- The part of `Associate` that takes the entry out of its former device's set.
unfoldable pub leave_device : String → String → Entry → Index → Index
unfolding drop_from
leave_device id device e m =
    if not (e.device_id == device) && not (e.device_id == "") then drop_from e.device_id id m else m

-- `Associate` once the entry is found.
unfoldable pub rebind : Pending → String → String → Entry → Pending
unfolding leave_device add_to
rebind p id device e = record p {
  entries = insert id (record e { device_id = device }) p.entries;
  devices = add_to device id (leave_device id device e p.devices);
}

unfoldable pub associate : Pending → String → String → Except Error Pending
associate p id device = elim (id == "" || device == "") [
  | true ↦ err invalid_request
  | false ↦ elim (lookup id p.entries) [
    | none ↦ err unknown_correlation
    | some e ↦ ok (rebind p id device e)
  ]
]

-- `removeLocked`
unfoldable pub remove_entry : Pending → Entry → Pending
unfolding drop_from
remove_entry p e = record p {
  entries = erase e.gateway_id p.entries;
  sessions = drop_from e.session_id e.gateway_id p.sessions;
  devices = if e.device_id == "" then p.devices else drop_from e.device_id e.gateway_id p.devices;
}

-- Removal, and the send on the entry's channel.
unfoldable pub complete : Pending → Entry → Result → Pending
unfolding remove_entry
complete p e result = record (remove_entry p e) { sent = (e.channel, result) ∷ p.sent }

-- False when the request already completed.
unfoldable pub deliver : Pending → String → Result → Pending × Bool
deliver p id result = elim (lookup id p.entries) [
  | none ↦ (p, false)
  | some e ↦ (complete p e result, true)
]

unfoldable pub resolve : Pending → String → Result → Pending × Option Error
unfolding deliver
resolve p id result =
    let (q, done) = deliver p id result in (q, if done then none else some unknown_correlation)

abbrev pub failure : Error → Result
failure e = record { payload = ""; cause = some e }

pub deliver_all : Pending → List String → Result → Pending
unfolding deliver
deliver_all p [] result = p
deliver_all p (id ∷ ids) result = deliver_all (deliver p id result).0 ids result

-- The two halves of `CancelSession` and `FailDevice`: the set is taken out under the lock, and its
-- requests are completed one by one without it.
pub take_session : Pending → String → List String × Pending
unfolding members
take_session p session =
    (members session p.sessions, record p { sessions = erase session p.sessions })

pub take_device : Pending → String → List String × Pending
unfolding members
take_device p device = (members device p.devices, record p { devices = erase device p.devices })

pub cancel_session : Pending → String → Pending
unfolding take_session deliver_all
cancel_session p session =
    let (ids, q) = take_session p session in deliver_all q ids (failure cancelled)

abbrev pub cause_or : Option Error → Error
cause_or none = device_failed
cause_or (some e) = e

pub fail_device : Pending → String → Option Error → Pending
unfolding take_device deliver_all
fail_device p device cause =
    let (ids, q) = take_device p device in deliver_all q ids (failure (cause_or cause))
