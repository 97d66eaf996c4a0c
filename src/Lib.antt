-- ===== src/Lib.antt =====
-- Evidra protocol: a read side for fact-resolution contracts on GenLayer.
--
-- The contracts (contracts/) hold policies, templates, requests, resolutions and facts. A service
-- (apps/api) reads them over JSON-RPC, keeps a projection of them in PostgreSQL (packages/db) and serves
-- it over HTTP; a web client (apps/web) shows it and submits writes through the user's wallet. All RPC
-- reads go through one queue (packages/protocol).
--
--   * Protocol/Errors is packages/protocol/src/errors.ts: a thrown value becomes a NormalizedError, by
--     its text, its attributes and regular expressions, which Protocol/Regex runs by backtracking. A
--     thrown value without a JSON text, such as undefined, is left out.
--   * Protocol/Scheduler is packages/protocol/src/scheduler.ts. The record Scheduler has the fields of
--     RpcScheduler, the time at which the timer of the pump is due, the executes in progress as Runs with
--     the phase that each waits in, and the promises that were settled. `step` is what the event loop
--     can do next (a call of schedule, a restored cooldown, the timer, a reply, the end of a delay, a
--     finally) at a time of the clock; an event that cannot happen changes nothing. A theorem on
--     `reached o es` is about the scheduler made with options o after any sequence es of such events.
--   * Protocol/Types is packages/protocol/src/types.ts, the records that the contracts return.
--   * Db is packages/db/src/repository.ts. A table is a list of rows, and Db/Table has the statements
--     (insert or update on conflict, update where, order by). Times are numbers. Db/Facts is listFacts
--     with its filters, its batch of resolutions and its Maps; Db/Pages has the other pages and counts.
--     The order that PostgreSQL makes of the feed of activity is a parameter.
--   * Db/Migrate is packages/db/src/migrate.ts, with the statements of a file as a parameter and a record
--     of the calls that fail in a run.
--   * Api/Indexer is apps/api/src/indexer.ts. One pass of syncOnce is an action over the indexer's fields
--     and the database that can throw at each chain read and each database call: the chain is a record
--     of the answers to all its reads, and a list of faults says which database calls fail. What was
--     written before an error stays written.
--   * Protocol/Values, Protocol/Constants and Protocol/Client are packages/protocol/src/serialization.ts,
--     constants.ts and client.ts: the conversions of JavaScript values, the frozen addresses, the record
--     decoders (Protocol/Client/Decode) and verifyDeployment over the answers of its reads.
--     Protocol/Client/Queries has the methods of the four contract clients, each with the checks of its
--     inputs, the call that it reads and the decoder of its answer, and Protocol/Client/InFlight is
--     rawRead: a step is a read, the end of a job or a cleanup, in any order.
--   * Protocol/Json is packages/protocol/src/serialization.ts and pagination.ts: JSON-safe values, and the
--     pages and manifests that are parsed, with JSON.parse as a parameter. Protocol/Methods is methods.ts.
--   * Scripts/Certification and Scripts/ReadCertification are scripts/phase1-read-certification.ts and
--     scripts/read-certification.mjs, for any answers of the chain.
--   * Api/Health is apps/api/src/health.ts. A run has a start and an end, and between them other events
--     can happen; the end of a run that is not under way changes nothing.
--   * Api/App and Api/Routes are apps/api/src/app.ts: the answer of the readiness route, the answers to
--     errors, a fact that is read from the chain; the parameters, envelopes and routes over the
--     repository.
--   * Web/Writes is apps/web/src/lib/writes.ts over a browser with its storage, which can refuse to work,
--     the writes that the wallet sent, and the progress that was reported. The answers of the wallet and
--     the SDK are a record, with what other calls and tabs make of the storage during each await.
--   * Web/Validation and Web/Wizard are apps/web/src/lib/validation.ts and the wizard of
--     apps/web/src/app/app/create/page.tsx: the checks of sources, templates and steps, the moves and the
--     guards of submit, with the parser of URLs as a parameter.
--   * Config is packages/config/src/config.ts and what apps/api/src/server.ts hands on to the scheduler.
--
-- Text is a list of character codes. Numbers are natural numbers, since ids, counts, versions and
-- times are never negative here; JavaScript's numbers are taken as exact.
--
-- Fuel: the digits of a number n are made with n + 1 steps, each of which divides by ten. The loop of
-- readEventDelta runs on current - previous rounds, and each round that goes on moves
-- the offset by one at least, since an empty page ends the loop. `range` runs on the number of records
-- that it may still return. All other loops are recursion on a list.
--
-- Random numbers of the backoff are a fraction num / den, the clock is the time of the event or of the
-- call. The contracts, the RPC transport, PostgreSQL and the browser are not modelled: they are the
-- arguments named above.
--
-- Also not modelled: the pool and the rest of the start of the server, the texts, labels and React views of
-- the web client with its effects, what the wizard does after a write, the messages for errors of the
-- service, the transport over genlayer-js, and the plugins, log lines and constant routes of the HTTP
-- service.
pub mod Api
pub mod Base
pub mod Config
pub mod Db
pub mod Protocol
pub mod Scripts
pub mod Web
