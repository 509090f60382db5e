-- ===== src/DraftRoutes/Room.antt =====
-- What the live draft routes share: the database, the two managers that live in memory, and what the
-- hub has been given.
use open_log_tool_server.Base.{ℕ, Text, Bool, List, [], ◌∷◌, ◌++◌, Option}
use open_log_tool_server.Base.Outcome.{Outcome, done, raised}
use open_log_tool_server.Base.Run.{Run}
use open_log_tool_server.LiveDraft.{Field}
use open_log_tool_server.LiveDraft.Locks.{Locks, StoredLock}
use open_log_tool_server.Collaboration.Drafts.{DraftDto}
use open_log_tool_server.Collaboration.Rows.{LogDto, Event, Database}
use open_log_tool_server.DraftRoutes.Previews.{Preview, Previews}

-- An entry of `historyReuse`.
pub record Reuse : Type 0 where
  pub preview_id : Text
  pub candidate_id : Text
  pub affected_fields : List Field

-- The control message `liveDraft.updated`. A property that a route leaves out is `none`.
pub record DraftUpdated : Type 0 where
  pub session_id : Text
  pub occurred_at : ℕ
  pub actor_user_id : Text
  pub actor_username : Text
  pub device_id : Text
  pub client_seq : Option ℕ
  pub updated_fields : List Field
  pub released_leases : List (Field × Text)
  pub draft : DraftDto
  pub locks : Option (List StoredLock)
  pub history_preview : Option (Option Preview)
  pub history_reuse : Option Reuse

-- `liveDraft.committed`.
pub record DraftCommitted : Type 0 where
  pub session_id : Text
  pub occurred_at : ℕ
  pub committed_by_user_id : Text
  pub committed_by_name : Text
  pub device_id : Text
  pub committed_draft_id : Text
  pub record_dto : LogDto
  pub next_draft : DraftDto
  pub current_ordinal : ℕ
  pub total_records : ℕ

-- `liveDraft.cleared`.
pub record DraftCleared : Type 0 where
  pub session_id : Text
  pub occurred_at : ℕ
  pub discarded_by_user_id : Text
  pub discarded_by_username : Text
  pub device_id : Text
  pub discarded_draft_id : Text
  pub next_draft : DraftDto

-- The messages that the routes pass to `publishControl`; the first two are `liveDraft.lockChanged`.
pub data Control : Type 0 where
  lock_taken : Text → ℕ → Bool → StoredLock → Control
  lock_released : Text → ℕ → Field → Text → Control
  draft_updated : DraftUpdated → Control
  draft_committed : DraftCommitted → Control
  draft_cleared : DraftCleared → Control

pub record Room : Type 0 where
  pub database : Database
  pub locks : Locks
  pub previews : Previews
  pub published : List Event
  pub controls : List Control

-- What one request draws from its surroundings: the n-th reading of the clock and the n-th
-- `randomUUID()` in the order in which the route's code stands.
pub record Draws : Type 0 where
  pub at : ℕ → ℕ
  pub uuid : ℕ → Text

abbrev pub to_database : {A : Type 0} → Room → Outcome Database A → Outcome Room A
to_database s (done a db) = done a (record s { database = db })
to_database s (raised fault db) = raised fault (record s { database = db })

unfoldable pub on_database : {A : Type 0} → (Database → Outcome Database A) → Run Room A
on_database run s = to_database s (run s.database)

abbrev pub to_locks : {A : Type 0} → Room → Outcome Locks A → Outcome Room A
to_locks s (done a locks) = done a (record s { locks = locks })
to_locks s (raised fault locks) = raised fault (record s { locks = locks })

unfoldable pub on_locks : {A : Type 0} → (Locks → Outcome Locks A) → Run Room A
on_locks run s = to_locks s (run s.locks)

-- A call of the lock manager that does not throw.
unfoldable pub with_locks : {A : Type 0} → (Locks → A × Locks) → Run Room A
with_locks call s = let (a, locks) = call s.locks in done a (record s { locks = locks })

unfoldable pub with_previews : {A : Type 0} → (Previews → A × Previews) → Run Room A
with_previews call s =
    let (a, previews) = call s.previews in done a (record s { previews = previews })

-- `hub.publishControl` and `hub.publish`.
unfoldable pub publish_control : Control → Run Room (Unit {0})
publish_control control s = done tt (record s { controls = s.controls ++ control ∷ [] })

unfoldable pub publish_event : Event → Run Room (Unit {0})
publish_event event s = done tt (record s { published = s.published ++ event ∷ [] })

abbrev pub rolled_back : {A : Type 0} → Room → Outcome Room A → Outcome Room A
rolled_back s (done a s') = done a s'
rolled_back s (raised fault s') = raised fault (record s' { database = s.database })

-- `db.transaction(…)()`: an exception takes back what was written to the database. The managers are
-- no part of it.
unfoldable pub transaction : {A : Type 0} → Run Room A → Run Room A
transaction run s = rolled_back s (run s)
