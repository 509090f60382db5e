-- ===== src/Collaboration.antt =====
-- collaboration/: the tables that the collaboration code shares, and its access checks, events and
-- stored responses.
pub mod Drafts
pub mod Rows
pub mod Access
pub mod Events
pub mod Idempotency
pub mod Realtime
