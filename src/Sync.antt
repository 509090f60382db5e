-- ===== src/Sync.antt =====
-- api/collaboration-sync-v1.ts: the mutation batches of a Session, its event feed and its tickets.
pub mod Value
pub mod Operation
pub mod Parse
pub mod Logs
pub mod Drafts
pub mod Sessions
pub mod Access
pub mod Batch
pub mod Route
pub mod CatchUp
pub mod Tickets
