-- ===== src/Lib.antt =====
-- A verification library for OpenLogToolServer, the server with which radio operators keep the
-- logs of a net together. Clients send batches of operations on the logs of a Session; the server
-- applies each under optimistic concurrency, numbers it as an event of the Session, and publishes
-- the event. Clients that were away catch up from the event log; a live draft, the entry that is
-- being typed, is shared field by field under leases.
--
-- The parts and their files:
--   Base          texts as UTF-16 code units, parsed JSON, SQL statements over lists of rows,
--                 association lists, errors. Base/Runtime holds what the language's library
--                 computes from tables or by cryptography; it is a parameter of what uses it.
--   Validation    src/utils/validation.ts and the checks of single values in src/collaboration/access.ts
--                 and src/api/collaboration-sync-v1.ts; validateTimestamp is Validation/Timestamp, and
--                 Validation/Timestamp/Calendar says what it accepts.
--   LiveDraft     src/collaboration/live-draft.ts. LiveDraft/Locks is LiveDraftLockManager: `acquire`,
--                 `renew`, `release`, `consume`, `assert_lease`, `list` and the three that clear.
--                 Its maps share lock objects, so they hold addresses of a store.
--   Collaboration src/collaboration/access.ts (`require_membership`), src/collaboration/events.ts
--                 (`append_session_event`, `read_events_after`), src/collaboration/idempotency.ts
--                 (`compute_request_hash`, `read_stored_response`, `store_response`),
--                 src/collaboration/realtime.ts (Collaboration/Realtime, the hub of connections), and
--                 the rows of the tables that they share (Collaboration/Rows).
--   Sync          src/api/collaboration-sync-v1.ts. Sync/Value is canonicalLogValue and
--                 canonicalLogPatch, Sync/Parse parseOperations, Sync/Logs mutateLog, Sync/Sessions
--                 mutateSession (its live draft is Sync/Drafts), Sync/Batch the transaction of one
--                 operation, Sync/Route the route of the batches, Sync/CatchUp the event feed,
--                 Sync/Tickets the tickets for the live feed, Sync/Access their access check.
--   DraftRoutes   src/api/live-draft-v1.ts and src/collaboration/live-draft-history-preview.ts.
--                 DraftRoutes/Parse reads the bodies, DraftRoutes/Store the tables, DraftRoutes/Steps
--                 is what the handlers share, DraftRoutes/Previews the LiveDraftHistoryPreviewManager;
--                 the handlers are in Locking, Previewing, Selecting, Patching, Committing,
--                 Discarding and Ending.
--   Retention     src/api/session-event-retention-v1.ts: `execute_retention_plan`; Retention/Policies is
--                 parsePolicy. Whether the text of an event's time is in the form that
--                 toISOString gives is a parameter.
--   Middleware    src/middleware/rate-limit.ts: `handle` is the handler of createMemoryRateLimiter.
--   Tests         a small database and runs on it.
--
-- State is passed explicitly: `Database` is the list of rows of each table, `World` adds the lock
-- manager, which no transaction takes back, and `Served` the events that have been published. `Room`
-- is what the live draft routes share, and Base/Run the monad that their handlers are written in. A run
-- ends in an `Outcome`: `done` with a value, or `raised` with an AppError (its status and code) or
-- another exception, both with the state that was written. Loops are structural, so no fuel is
-- used. Times are milliseconds; clocks, random identifiers and tickets are arguments.
--
-- Not modelled: messages and details of errors, HTTP and WebSocket transport, foreign keys and the
-- parts of the schema that no modelled code reads, and the rest of the server (the routes for
-- Sessions and members, accounts, public shares, snapshots, administration, metrics).
pub mod Base
pub mod Validation
pub mod LiveDraft
pub mod Collaboration
pub mod Sync
pub mod DraftRoutes
pub mod Retention
pub mod Middleware
pub mod Tests
