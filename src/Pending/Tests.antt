-- ===== src/Pending/Tests.antt =====
-- Runs of the registry of internal/mcpgateway/pending.go, and its theorems at one schedule: two
-- requests of two sessions, forwarded to one device; the first session is cancelled half way.
use roblox_mcp_gateway.Prelude.{
  ℕ, ◌≤◌, ◌≡◌, refl, String, List, [], ◌∷◌, Option, none, some, arith, eq_iff, length,
}
use roblox_mcp_gateway.Prelude.Map.{lookup, insert, erase}
use roblox_mcp_gateway.Prelude.Set.{contains, add, remove}
use roblox_mcp_gateway.Pending.{
  device_failed, cancelled, failure, members, add_to, drop_from, fresh_id, record_entry, register,
  leave_device, rebind, associate, remove_entry, complete, deliver, deliver_all, take_session,
  take_device, cancel_session, fail_device, new_pending,
}
use roblox_mcp_gateway.Pending.Schedule.{
  Event, registers, associates, expires, cancels, continues, after_register, after_associate, begin,
  continue, step, run, start,
}
use roblox_mcp_gateway.Pending.Invariant.{sends}
use roblox_mcp_gateway.Pending.Once.{IsSettled, exactly_once, IsIndexed, run-IsIndexed, capacity}
use roblox_mcp_gateway.Pending.Progress.{expires-answers}
use roblox_mcp_gateway.Pending.Cancel.{
  received, Completes, cancel_session-Completes, fail_device-Completes,
}

machine : Unit {0}
unfolding run step start new_pending after_register after_associate begin continue register
    associate rebind leave_device record_entry fresh_id deliver complete remove_entry take_session
    take_device members add_to drop_from lookup insert erase contains add remove
machine = tt

abbrev one : ℕ → Option String
one i = some "01"

abbrev two : ℕ → Option String
two i = some "02"

abbrev history : List Event
history =
    registers "s1" "1" one
    ∷ associates "gw_01" "d1"
    ∷ registers "s2" "1" two
    ∷ associates "gw_02" "d1"
    ∷ []

abbrev cancelling : List Event
cancelling =
    registers "s1" "1" one
    ∷ registers "s2" "1" two
    ∷ cancels "s1"
    ∷ expires "gw_01"
    ∷ continues 0
    ∷ []

two_pending : length (run (start 2) history).pending.entries ≡ 2
unfolding machine
two_pending = refl

one_send : sends 0 (run (start 2) cancelling).pending.sent ≡ 1
unfolding machine sends
one_send = refl

both_failed :
    let p = (run (start 2) history).pending in
    let q = fail_device p "d1" none in
    (length q.entries ≡ 0) × (received 1 q.sent ≡ some (failure device_failed))
unfolding machine received fail_device deliver_all
both_failed = (refl, refl)

exactly_once_example : IsSettled (run (start 2) cancelling).pending 0
unfolding machine
exactly_once_example = exactly_once 2 cancelling 0 (omega arith)

run-IsIndexed_example : IsIndexed (run (start 2) cancelling)
run-IsIndexed_example = run-IsIndexed 2 cancelling

capacity_example : length (run (start 2) history).pending.entries ≤ 2
capacity_example = capacity 2 history (omega arith)

cancel_session-Completes_example :
    let p = (run (start 2) history).pending in
    Completes (λ f. f.session_id ≡ "s1") (failure cancelled) p (cancel_session p "s1")
unfolding machine
cancel_session-Completes_example = cancel_session-Completes 2 history "s1" refl

fail_device-Completes_example :
    let p = (run (start 2) history).pending in
    Completes (λ f. f.device_id ≡ "d1") (failure device_failed) p (fail_device p "d1" none)
unfolding machine
fail_device-Completes_example =
    fail_device-Completes 2 history "d1" none (λ e. ground (arith, eq_iff "d1" "")) refl

expires-answers_example :
    sends 1 (run (step (run (run (start 2) history) cancelling) (expires "gw_02")) []).pending.sent
    ≡ 1
unfolding machine
expires-answers_example =
    expires-answers 2 history cancelling [] "gw_02"
      (record {
        gateway_id = "gw_02";
        session_id = "s2";
        device_id = "d1";
        original_id = "1";
        channel = 1;
      })
      refl
