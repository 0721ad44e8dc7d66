-- ===== src/Pending/Schedule.antt =====
-- Interleavings of internal/mcpgateway/pending.go: each event is one critical section. A call of
-- `CancelSession` or `FailDevice` is an event that takes the set out and leaves a job; the job's
-- deliveries come later, one event each, between any others. A Go map is ranged over in any order,
-- which the choice of ids in `take_*` fixes to the order of the set.
use roblox_mcp_gateway.Prelude.{ℕ, zero, suc, String, List, [], ◌∷◌, Option, Except, ok, err}
use roblox_mcp_gateway.Pending.{
  Error, deadline_exceeded, cancelled, Result, Pending, new_pending, register, associate, deliver,
  failure, take_session, take_device, cause_or,
}

-- The ids that a call still has to complete, and what it completes them with.
pub record Job : Type 0 where
  pub ids : List String
  pub result : Result

pub record System : Type 0 where
  pub pending : Pending
  pub jobs : List Job

pub data Event : Type 0 where
  registers : (session original : String) → (random : ℕ → Option String) → Event
  associates : (id device : String) → Event
  responds : (id : String) → Result → Event
  expires : (id : String) → Event
  cancels : (session : String) → Event
  fails : (device : String) → Option Error → Event
  continues : (job : ℕ) → Event

unfoldable pub after_register : System → Except Error (String × ℕ × Pending) → System
after_register s (ok (id, channel, q)) = record s { pending = q }
after_register s (err e) = s

unfoldable pub after_associate : System → Except Error Pending → System
after_associate s (ok q) = record s { pending = q }
after_associate s (err e) = s

-- A call that has taken the set out starts its loop.
unfoldable pub begin : System → List String × Pending → Result → System
begin s (ids, q) result = record s {
  pending = q;
  jobs = record { ids = ids; result = result } ∷ s.jobs;
}

-- The next delivery of the n-th job; a job with no id left has returned.
unfoldable pub continue : Pending → ℕ → List Job → Pending × List Job
continue p n [] = (p, [])
continue p zero (j ∷ js) = elim j.ids [
  | [] ↦ (p, js)
  | id ∷ ids ↦ ((deliver p id j.result).0, record j { ids = ids } ∷ js)
]
continue p (suc n) (j ∷ js) = let (q, ks) = continue p n js in (q, j ∷ ks)

unfoldable pub step : System → Event → System
step s (registers session original random) =
    after_register s (register s.pending session original random)
step s (associates id device) = after_associate s (associate s.pending id device)
step s (responds id result) = record s { pending = (deliver s.pending id result).0 }
step s (expires id) = record s { pending = (deliver s.pending id (failure deadline_exceeded)).0 }
step s (cancels session) = begin s (take_session s.pending session) (failure cancelled)
step s (fails device cause) = begin s (take_device s.pending device) (failure (cause_or cause))
step s (continues n) =
    let (q, jobs) = continue s.pending n s.jobs in record s { pending = q; jobs = jobs }

unfoldable pub run : System → List Event → System
run s [] = s
run s (e ∷ es) = run (step s e) es

unfoldable pub start : ℕ → System
start m = record { pending = new_pending m; jobs = [] }
