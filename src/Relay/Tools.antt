-- ===== src/Relay/Tools.antt =====
-- A tool call: the handler that `newSessionServer` of internal/mcpgateway/server.go registers for each tool
-- of the official catalogue, up to the delivery of the request and from the end of the wait, with the
-- errors and helpers of tools.go. What encoding/json does with the reply is the record `Replies`; the
-- parameters are the text of `marshalParams`, empty if there is none. The usage and audit rows of a
-- completed call are left out, since no failure of theirs changes the answer.
use roblox_mcp_gateway.Prelude.{
  ℕ, String, Option, none, some, Except, ok, err, ◌>>=◌, ◌==◌, nat_comparable, if◌then◌else◌, ℤ,
  negsuc, len,
}
use roblox_mcp_gateway.Access.{Lookups}
use roblox_mcp_gateway.Access.Gateway.{SessionInvalid, Principal, reauthorize}
use roblox_mcp_gateway.Oauth
use roblox_mcp_gateway.Relay.{
  Error, device_gone, studio_unavailable, ambiguous_target, deadline, busy, invalid_response,
  cancelled, device_failed, invalid_request, Relay,
}
use roblox_mcp_gateway.Relay.Policy.{tool_scope, is_refused}
use roblox_mcp_gateway.Relay.Call.{Codec, Started, Watcher, start_call}
use roblox_mcp_gateway.Relay.Finish.{Ending, finish_call}

-- `jsonrpc.Error`; `data` is the raw text.
pub record JsonRpcError : Type 0 where
  pub code : ℤ
  pub message : String
  pub detail : String

abbrev pub fixed : ℤ → String → JsonRpcError
fixed code message = record { code = code; message = message; detail = "" }

-- `codeScopeDenied` and the seven after it.
abbrev pub code_scope_denied : ℤ
code_scope_denied = negsuc 31999

abbrev pub code_reauth_required : ℤ
code_reauth_required = negsuc 32000

abbrev pub code_target_unavailable : ℤ
code_target_unavailable = negsuc 32001

abbrev pub code_timeout : ℤ
code_timeout = negsuc 32002

abbrev pub code_cancelled : ℤ
code_cancelled = negsuc 32003

abbrev pub code_busy : ℤ
code_busy = negsuc 32004

abbrev pub code_invalid_params : ℤ
code_invalid_params = negsuc 32601

abbrev pub code_internal_error : ℤ
code_internal_error = negsuc 32602

abbrev pub scope_denied_error : JsonRpcError
scope_denied_error = fixed code_scope_denied "insufficient scope"

abbrev pub session_denied_error : JsonRpcError
session_denied_error = fixed code_reauth_required "session authorization failed; reconnect"

abbrev pub invalid_params_error : JsonRpcError
invalid_params_error = fixed code_invalid_params "invalid request parameters"

abbrev pub sanitized_internal_error : JsonRpcError
sanitized_internal_error = fixed code_internal_error "internal error"

unfoldable pub relay_error : Error → JsonRpcError
relay_error deadline = fixed code_timeout "request timed out"
relay_error cancelled = fixed code_cancelled "request cancelled"
relay_error ambiguous_target =
    fixed code_target_unavailable "multiple Studios are online; bind a target"
relay_error studio_unavailable = fixed code_target_unavailable "target Studio is offline"
relay_error device_failed = fixed code_target_unavailable "target device connection lost"
relay_error device_gone = fixed code_target_unavailable "target device is unavailable"
relay_error busy = fixed code_busy "server busy, retry later"
relay_error invalid_request = invalid_params_error
relay_error invalid_response = sanitized_internal_error

-- The fields of a device's reply: the raw result, empty if absent, and the error.
pub record Reply : Type 0 where
  pub result : String
  pub error : Option JsonRpcError

pub record Replies : Type 0 where
  pub decode_reply : String → Option Reply
  pub decode_call_result : String → Option String

abbrev pub method_call_tool : String
method_call_tool = "tools/call"

-- `return nil, relayError(err)`
abbrev pub or_relay_error : {A : Type 0} → Except Error A × Relay → Except JsonRpcError A × Relay
or_relay_error (ok a, r) = (ok a, r)
or_relay_error (err e, r) = (err (relay_error e), r)

module _ (codec : Codec) (r : Relay) (session_id : String) (expiry : ℕ) (random : ℕ → Option String)
    (watcher : Watcher) where
  -- After `reauthorize`; `name` is the registered tool's.
  unfoldable pub begin_tool_call :
      String → Except SessionInvalid Principal → String → Except JsonRpcError Started × Relay
  begin_tool_call name (err e) params = (err session_denied_error, r)
  begin_tool_call name (ok principal) params =
      if is_refused principal.1.scopes (tool_scope name)
      then (err scope_denied_error, r)
      else or_relay_error
          (start_call codec r session_id principal.1 method_call_tool params expiry random watcher)

  -- The handler up to the wait, with the re-authorization of the session's token.
  unfoldable pub handle_tool_call :
      String
      → Lookups
      → Oauth.Store
      → String
      → ℕ
      → String
      → String
      → Except JsonRpcError Started × Relay
  unfolding begin_tool_call
  handle_tool_call name lookups tokens resource now digest params =
      begin_tool_call name (reauthorize lookups tokens resource now digest) params

-- `parseRelayResponse`
unfoldable pub parse_relay_response : Replies → String → Except JsonRpcError String
parse_relay_response replies payload = elim (replies.decode_reply payload) [
  | none ↦ err sanitized_internal_error
  | some reply ↦ elim reply.error [
    | some e ↦ err e
    | none ↦ if len reply.result == 0 then err sanitized_internal_error else ok reply.result
  ]
]

abbrev pub or_internal_error : Option String → Except JsonRpcError String
or_internal_error none = err sanitized_internal_error
or_internal_error (some result) = ok result

-- The handler from the end of the wait.
unfoldable pub answer_tool_call :
    Codec → Replies → Relay → Started → Ending → Except JsonRpcError String
unfolding parse_relay_response
answer_tool_call codec replies r call ending = do
  payload ← (or_relay_error (finish_call codec r call ending)).0
  result ← parse_relay_response replies payload
  or_internal_error (replies.decode_call_result result)
