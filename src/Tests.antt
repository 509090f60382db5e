-- ===== src/Tests.antt =====
-- The theorems at concrete inputs.
mod Data
mod Drafts
mod Collaborations
mod Operations
mod Batches
mod Limits
mod Hub
mod Rooms
mod Retentions
