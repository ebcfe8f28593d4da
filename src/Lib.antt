-- ===== src/Lib.antt =====
-- The Veridex x402 payment protocol on Stellar: how the facilitator verifies and settles `upto`
-- payments, which signer it uses and how it talks to the network, and how the gateway sells requests
-- to an upstream for payments that the facilitator settles.
--
-- A settlement request passes the rate limit (facilitator-service/src/rate-limit.ts), leases a
-- signer from the scheduler (settle-scheduler.ts), and is settled by the payment scheme
-- (stellar/upto-scheme.ts) inside the retry (retry.ts); the scheme reads and submits through the
-- RPC coordinator (rpc-coordinator.ts), and the pool of channel accounts (channel/pool.ts) hands out
-- source accounts. Paths are below facilitator-service/src unless they say otherwise.
--
-- Common: tests, lists, equality and integers as JavaScript has them, and `Check`, a run of checks
--   with early returns and exceptions.
-- Scheduler: settle-scheduler.ts. `acquire`, `release`, `quarantine`, `recover_signer` and
--   `process_queue` are `acquire`, the two functions of a lease, `recoverSigner` and `processQueue`;
--   a history is a list of `Event`s, so every interleaving of callers and timers is one.
--   `process_queue` runs on fuel, the number of waiters, which each turn lowers.
-- Upto: stellar/upto-scheme.ts. `Upto.Verify.verify` is `_verify`, cut at its numbered steps, and
--   `Upto.Settle.settle` is `settle`, cut where it submits.
-- Retry: retry.ts. `with_ledger_skew_retry` recurses on the attempts that are left.
-- Rpc: rpc-coordinator.ts. `handle` is `handle`; the network may answer each call differently.
-- Channel: channel/pool.ts and channel/types.ts, with events for callers, timers and monitoring;
--   `Channel.Initialize` is its initialization.
-- RateLimit: rate-limit.ts. `rate_limit` is the middleware, `get_client_ip` is `getClientIp`.
-- Liveness: bazaar-service/src/telemetry/circuit-breaker.ts, and the statement of
--   `pruneOfflineNodes` in telemetry/tracker.ts beside it, which decides what is searched.
--
-- Gateway: gateway-service/src. `Gateway.State` is the state that requests share and `settleOnce`
--   of app.ts, and `Gateway.Handler` its `handleProtectedRequest`, one function for each stretch
--   that reads or writes the shared state: a request is resumed from its `Phase`, and a list of
--   `Happening`s is any interleaving of requests and returning settlements. Awaits that touch the
--   request alone are not steps of their own, a write to the store and its resumption are one step,
--   and so is forwarding; what a request awaits returns or throws. `Gateway.Handler.Alone` runs one
--   request on fuel, the number of steps. `Gateway.Forward` is `forwardSettledRequest`,
--   `Gateway.Body` is `readBoundedBody`, `Gateway.Refusal` is `requestRefusal` with its middleware,
--   `Gateway.Network` the test of addresses in config.ts, and `Gateway.Store` is store.ts, its two
--   stores with the same calls; `JSON` is a codec whose text of a value is one line that parses as
--   the value, and what the file system does in a call is part of the call.
--
-- Catalog: bazaar-service/src/catalog/ingestion.ts, bazaar-service/src/p2p/catalog-delta.ts and
--   bazaar-service/src/db/schema.sql. `Catalog` has the table and its upsert,
--   `Catalog.Ingestion` the calls `ingest` and `revalidateStale`, `Catalog.Arbitration` the call
--   `applyCatalogDelta`, each one transaction, `Catalog.Extension` the rules of
--   `validateExtension`, and `Catalog.Deltas` which deltas are valid and which of two wins. What the
--   live check and the settlement check answer is part of a call (`Catalog.Calls`).
--
-- Search: bazaar-service/src/search/cursor.ts and the paging of `list` in search/engine.ts. The
--   rows that match, in the query's order, are a parameter, so the pages of one walk are taken from
--   one state of the catalog with one order of its equal times.
--
-- Code that the source only calls is a parameter: the Stellar SDK is the record `Upto.Sdk`, the RPC
-- server `Upto.Rpc` and `Upto.Settle.Ledger`, the providers `Rpc.Network`. No law is assumed of it.
-- Times are natural numbers of milliseconds. A `bigint` is an integer, a `number` that may be NaN an
-- `Option ℤ`.
--
-- Not modelled: HTTP servers and start-up, logging and metrics, the transactions that create and
-- refill channel accounts, the text of messages, the `exact` scheme of the package @x402/stellar,
-- the gateway's headers, portal and configuration schema, the bazaar's ranking and
-- filters of a search, its fingerprints, peer network and telemetry, the SDKs, the user interfaces and the contracts.
pub mod Catalog
pub mod Channel
pub mod Common
pub mod Gateway
pub mod Liveness
pub mod RateLimit
pub mod Retry
pub mod Rpc
pub mod Scheduler
pub mod Search
pub mod Upto
