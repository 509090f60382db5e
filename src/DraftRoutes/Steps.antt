-- ===== src/DraftRoutes/Steps.antt =====
-- What the handlers of api/live-draft-v1.ts share: the envelope of a draft, its reset, the check for
-- locks of others, and the control message of a preview.
pub mod Databases
pub mod Reset
use open_log_tool_server.Base.{
  ℕ, ◌+◌, Text, Bool, false, not, ◌&&◌, ◌||◌, List, [], ◌∷◌, Option, none, some, text_eq, ◌==◌,
  if◌then◌else◌, any, is_some,
}
use open_log_tool_server.Base.Table.{modify, delete, changes}
use open_log_tool_server.Base.Outcome.{
  Result, ok, err, app_error, internal, live_draft_version_conflict, live_draft_busy, Outcome, done,
  raised,
}
use open_log_tool_server.Base.Run.{Run, ◌>>=◌, ◌>>◌, return, throw, reading, read, write, when}
use open_log_tool_server.LiveDraft.{callsign, field_key}
use open_log_tool_server.LiveDraft.Locks.{StoredLock, list}
use open_log_tool_server.Collaboration.Drafts.{Draft, DraftDto}
use open_log_tool_server.Collaboration.Rows.{SessionRow, LogDto, Database}
use open_log_tool_server.Collaboration.Access.{has_id}
use open_log_tool_server.Sync.Operation.{log_dto}
use open_log_tool_server.Sync.Logs.{is_active}
use open_log_tool_server.Sync.Drafts.{draft_of, state_of, empty_fields}
use open_log_tool_server.DraftRoutes.Previews.{Preview, current_preview, clear_preview}
use open_log_tool_server.DraftRoutes.Room.{
  Room, Draws, draft_updated, with_locks, with_previews, on_database, publish_control,
}
use open_log_tool_server.DraftRoutes.Store.{
  LiveDraftRow, read_draft, draft_dto, username, previous_log, count_logs, json_of_revisions,
  empty_field_revisions,
}

-- A read or a check of the database.
abbrev pub querying : {A : Type 0} → (Database → Result A) → Run Room A
querying query = reading (λ (s : Room). query s.database)

-- An UPDATE, INSERT or DELETE that cannot fail.
abbrev pub updating : (Database → Database) → Run Room (Unit {0})
updating update = write (λ (s : Room). record s { database = update s.database })

-- What `draftEnvelope` returns.
pub record Envelope : Type 0 where
  pub draft : DraftDto
  pub locks : List StoredLock
  pub current_ordinal : ℕ
  pub total_records : ℕ
  pub previous_record : Option LogDto
  pub history_preview : Option Preview

abbrev pub same_text : Text → Option Text → Bool
same_text text none = false
same_text text (some other) = text_eq text other

-- The publisher still holds the lock of the callsign.
abbrev pub lease_is_current : List StoredLock → Preview → Bool
lease_is_current locks preview =
    any
      (λ (lock : StoredLock).
        field_key.beq lock.field callsign
        && text_eq lock.user_id preview.actor_user_id
        && text_eq lock.device_id preview.device_id)
      locks

unfoldable pub preview_matches : Draft → List StoredLock → Preview → Bool
preview_matches draft locks preview =
    text_eq preview.draft_id draft.draft_id
    && same_text preview.callsign draft.fields.callsign
    && lease_is_current locks preview

-- The preview that is shown. One that no longer matches is cleared.
unfoldable pub shown_preview :
    Draws → Text → Draft → List StoredLock → Option Preview → Run Room (Option Preview)
shown_preview draws session draft locks none = return none
shown_preview draws session draft locks (some preview) =
    if preview_matches draft locks preview then return (some preview) else (do
      _ ← with_previews (clear_preview (draws.at 3) session (some preview.preview_id))
      return none)

abbrev pub option_map : {A B : Type 0} → (A → B) → Option A → Option B
option_map f none = none
option_map f (some a) = some (f a)

unfoldable pub draft_envelope : Draws → Text → Run Room Envelope
draft_envelope draws session = do
  count ← read (λ (s : Room). count_logs s.database session)
  previous ← read (λ (s : Room). previous_log s.database session)
  draft ← querying (λ db. read_draft db session)
  locks ← with_locks (list (draws.at 1) session)
  stored ← with_previews (current_preview (draws.at 2) session)
  preview ← shown_preview draws session draft.draft locks stored
  dto ← reading (λ (s : Room). draft_dto draft)
  return (record {
    draft = dto;
    locks = locks;
    current_ordinal = count + 1;
    total_records = count;
    previous_record = option_map log_dto previous;
    history_preview = preview;
  })

-- The optional argument of `resetDraft`.
pub record CommitInput : Type 0 where
  pub committed_sync_id : Text
  pub committed_at : ℕ

-- `input ? … : …`.
abbrev pub if_committed : {A : Type 0} → Option CommitInput → (CommitInput → A) → A → A
if_committed none f other = other
if_committed (some input) f other = f input

-- The SET clause of `resetDraft`; `current` is the row that was read.
abbrev pub reset_row : Text → Text → ℕ → Option CommitInput → Draft → Draft → Draft
reset_row draft_id actor now input current row = record row {
  draft_id = draft_id;
  version = row.version + 1;
  fields = record empty_fields { controller = current.fields.controller };
  field_revisions = some (json_of_revisions empty_field_revisions);
  last_updated_by = some actor;
  created_at = now;
  last_updated_at = now;
  last_committed_draft_id =
      if_committed input (λ _. some current.draft_id) current.last_committed_draft_id;
  last_committed_version =
      if_committed input (λ _. some current.version) current.last_committed_version;
  last_committed_by = if_committed input (λ _. some actor) current.last_committed_by;
  last_committed_at = if_committed input (λ _. some now) current.last_committed_at;
  last_committed_sync_id =
      if_committed input (λ i. some i.committed_sync_id) current.last_committed_sync_id;
}

-- WHERE session_id = ? AND version = ?
abbrev pub at_version : Text → ℕ → Draft → Bool
at_version session version draft = draft_of session draft && draft.version == version

-- The UPDATE of the draft at the version that was read, and `if (changes !== 1) throw`.
unfoldable pub update_draft : (Draft → Draft) → Draft → Database → Outcome Database (Unit {0})
update_draft f current db =
    let updated : Database = record db {
      drafts = modify (at_version current.session_id current.version) f db.drafts;
    } in
    if changes (at_version current.session_id current.version) db.drafts == 1
    then done tt updated
    else raised (app_error 409 live_draft_version_conflict) updated

-- `draft_id` is a unique column.
unfoldable pub check_draft_id : Text → Text → Database → Result (Unit {0})
check_draft_id session draft_id db =
    if any (λ (row : Draft). not (draft_of session row) && text_eq row.draft_id draft_id) db.drafts
    then err internal
    else ok tt

-- `input?.committedAt ?? new Date()`.
abbrev pub reset_time : ℕ → Option CommitInput → ℕ
reset_time now none = now
reset_time now (some input) = input.committed_at

unfoldable pub reset_draft : ℕ → Text → Draft → Text → Option CommitInput → Run Room LiveDraftRow
reset_draft now draft_id current actor input = do
  querying (check_draft_id current.session_id draft_id)
  on_database (update_draft (reset_row draft_id actor (reset_time now input) input current) current)
  updating
      (λ db. record db { device_states = delete (state_of current.session_id) db.device_states })
  querying (λ db. read_draft db current.session_id)

abbrev pub is_foreign : Text → Text → StoredLock → Bool
is_foreign user device lock = not (text_eq lock.user_id user) || not (text_eq lock.device_id device)

-- The details of the error are those of the draft.
unfoldable pub busy : Text → Run Room (Unit {0})
busy session = do
  current ← querying (λ db. read_draft db session)
  _ ← reading (λ (s : Room). draft_dto current)
  throw 409 live_draft_busy

unfoldable pub assert_no_foreign_locks : ℕ → Text → Text → Text → Run Room (Unit {0})
assert_no_foreign_locks now session user device = do
  locks ← with_locks (list now session)
  when (any (is_foreign user device) locks) (busy session)

-- UPDATE sessions SET updated_at = ? WHERE id = ? AND status = 'active' AND deleted_at IS NULL
unfoldable pub touch_session : Text → ℕ → Database → Database
touch_session session now db = record db {
  sessions =
      modify
        (λ (row : SessionRow).
          has_id session row && is_active row.status && not (is_some row.deleted_at))
        (λ row. record row { updated_at = now }) db.sessions;
}

-- `publishHistoryPreviewControl`, with the times at which it reads the clock.
unfoldable pub publish_history_preview_control :
    ℕ → ℕ → Text → Text → Text → Option Preview → Run Room (Unit {0})
publish_history_preview_control occurred_at locks_now session user device preview = do
  draft ← querying (λ db. read_draft db session)
  name ← querying (λ db. username db user)
  dto ← reading (λ (s : Room). draft_dto draft)
  locks ← with_locks (list locks_now session)
  publish_control (
      draft_updated (record {
        session_id = session;
        occurred_at = occurred_at;
        actor_user_id = user;
        actor_username = name;
        device_id = device;
        client_seq = none;
        updated_fields = [];
        released_leases = [];
        draft = dto;
        locks = some locks;
        history_preview = some preview;
        history_reuse = none;
      }))
