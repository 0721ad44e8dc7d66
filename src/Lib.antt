-- ===== src/Lib.antt =====
-- Verification library of the Roblox MCP gateway.
--
-- The gateway connects AI connectors (over HTTP and OAuth) with a Bridge program on the user's
-- machine (over a WebSocket), which talks to the MCP server of Roblox Studio. A request is admitted by
-- the rate limiter, authenticated by its access token, routed to a Studio of the grant's device,
-- forwarded to the device's connection, and correlated with its response. Browser sessions, device
-- pairing, trials and licenses decide who may do that.
--
-- The files, and the code that they are about:
--   Prelude: Boolean tests, results, equality, and Go maps, sets and SQL tables as lists.
--   Pending: internal/mcpgateway/pending.go and errors.go. `register`, `associate`, `resolve`,
--     `cancel_session` and `fail_device` are the methods of the same names; Pending/Schedule runs them
--     as events, each one lock region of a call, so that every interleaving is a list of events.
--   Protocol: pkg/bridgeproto. `encode` and `decode` are `Encode` and `Decode`, `fields_of` and
--     `envelope_of` the conversions of `MarshalJSON` and `UnmarshalJSON`.
--   Relay (Call, Finish, Policy, Tools): internal/mcpgateway/relay.go, with the tools of server.go, tools.go
--     and policy.go. `start_call` is `CallDetailed` up to its wait and `finish_call` the rest; `watch` is
--     the goroutine that it starts. `handle_tool_call` and `answer_tool_call` are the same halves of
--     the handler that `newSessionServer` registers for each tool.
--   Access (Bridge, Gateway): internal/bridgehub/auth.go and internal/mcpgateway/auth.go.
--     `authenticate_digest` and `reauthorize` read the tables through `sql_lookups`.
--   Routing: internal/routing/resolver.go. `resolve` is `Resolve`.
--   Oauth (Tokens, Grants, Clients, Validate): the transactions of internal/mysqlstore/oauth_store.go,
--     with the types and the checks of internal/mcpoauth/model.go.
--   Session: internal/session/service.go over internal/mysqlstore/session_store.go.
--   Entitlement (Devices, Trial, Licenses): internal/mysqlstore/entitlement_store.go, with the types of
--     internal/entitlement/model.go and the guards of internal/entitlement/service.go.
--   Enrollment (Pairing, Exchange): internal/device/enrollment.go over internal/mysqlstore/device_store.go.
--   Limiter: `MCPLimiter` of internal/httpserver/ratelimit.go.
--   Hub: internal/bridgehub/registry.go, and the queue and teardown of connection.go beside it.
--   Status: internal/statusui/state.go.
--
-- A store is a record of tables, a table a list of rows, and a statement the list operation that it
-- denotes; a transaction that fails leaves the store as it was. Calls that the code serializes, by a
-- mutex or by row locks, are steps of a sequence. Times are native numbers of nanoseconds; random ids and
-- digests are arguments. The only fuel is that of `fresh_id_from`, which is the eight attempts that
-- the code makes itself; every other recursion is structural.
--
-- Not modelled: the HTTP, WebSocket, process and file I/O, JSON and HMAC, which belong to Go's libraries
-- or to the operating system (JSON is a parameter where a decision depends on it); the failure of a
-- database statement for another reason than a broken key; audit, usage and connection rows; the
-- token-bucket limiter, whose arithmetic is in floats; the admission limits of the MCP server; the OAuth
-- provider's pages, the Roblox login, the Bridge application, and the web frontend. The lasting
-- revocations of Oauth/Tokens/Revocation are over issues, rotations and revocations: a new approval by
-- `SaveGrant` restores the grant of its user, client and device.
--
-- A call is taken without another call's step from its registration to its delivery; what the goroutine
-- that watches the connection does in that time is an argument, a whole `FailDevice` before or after the
-- call's own `Resolve`. Cut up between them, `FailDevice` differs only in the result that the call's own
-- channel holds, which nobody reads any more. `sessionMiddleware`, `handleToolsList`, `handleToolsCall`,
-- `filterTools` and `RequiredScope` of internal/mcpgateway are left out: nothing that runs calls them.
pub mod Access
pub mod Enrollment
pub mod Entitlement
pub mod Hub
pub mod Limiter
pub mod Oauth
pub mod Pending
pub mod Prelude
pub mod Protocol
pub mod Relay
pub mod Routing
pub mod Session
pub mod Status
