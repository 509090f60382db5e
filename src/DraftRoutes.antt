-- ===== src/DraftRoutes.antt =====
-- api/live-draft-v1.ts: the routes of the live draft that the members of a Session share.
pub mod Names
pub mod Parse
pub mod Previews
pub mod Room
pub mod Store
pub mod Steps
pub mod Locking
pub mod Previewing
pub mod Selecting
pub mod Patching
pub mod Committing
pub mod Discarding
pub mod Ending
pub mod Extends
pub mod Reach
