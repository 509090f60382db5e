-- ===== src/DraftRoutes/Committing.antt =====
-- POST /:sessionId/live-draft/commit and DELETE /:sessionId/live-draft.
pub mod Effect
pub mod Fate
pub mod Repeat
use open_log_tool_server.Base.{
  ℕ, ◌+◌, Text, Bool, true, false, not, ◌&&◌, [], ◌∷◌, ◌++◌, Option, none, some, ◌==◌,
  if◌then◌else◌, is_some,
}
use open_log_tool_server.Base.Outcome.{
  Result, ok, err, internal, live_draft_already_committed, live_draft_version_conflict,
  live_draft_incomplete, log_already_exists,
}
use open_log_tool_server.Base.Run.{Run, ◌>>=◌, ◌>>◌, return, throw, read, demand, when}
use open_log_tool_server.LiveDraft.Locks.{clear_session}
use open_log_tool_server.Collaboration.Drafts.{DraftFields, Draft, DraftDto}
use open_log_tool_server.Collaboration.Rows.{
  LogValue, LogRow, log_created, log, log_payload, Event, CommitBody, StoredBody, commit_body,
  StoredMutation,
}
use open_log_tool_server.Collaboration.Events.{append_session_event}
use open_log_tool_server.Collaboration.Idempotency.{read_stored_response, store_response}
use open_log_tool_server.Sync.Operation.{log_dto}
use open_log_tool_server.Sync.Logs.{read_log}
use open_log_tool_server.DraftRoutes.Previews.{clear_preview}
use open_log_tool_server.DraftRoutes.Room.{
  Room, Draws, draft_committed, with_locks, with_previews, on_database, publish_event,
  publish_control, transaction,
}
use open_log_tool_server.DraftRoutes.Store.{
  LiveDraftRow, require_draft_access, ensure_draft, read_draft, draft_dto, username, count_logs,
  is_filled,
}
use open_log_tool_server.DraftRoutes.Steps.{
  querying, updating, assert_no_foreign_locks, reset_draft,
}
use open_log_tool_server.DraftRoutes.Locking.{checking}
use open_log_tool_server.DraftRoutes.Selecting.{stored_row}

-- The request of a commit or of a discard, once it is parsed; a discard has no `syncId`.
pub record CommitRequest : Type 0 where
  pub session_id : Text
  pub device_id : Text
  pub expected_draft_version : ℕ
  pub sync_id : Text
  pub mutation_id : Text
  pub request_hash : Text

-- What the transaction of a commit returns.
pub record Commit : Type 0 where
  pub status : ℕ
  pub body : StoredBody
  pub event : Option Event
  pub replayed : Bool

-- 409 with the current draft in the details.
unfoldable pub version_conflict : LiveDraftRow → Run Room (Unit {0})
version_conflict current = do
  _ ← checking (draft_dto current)
  throw 409 live_draft_version_conflict

abbrev pub same_version : ℕ → Option ℕ → Bool
same_version version none = false
same_version version (some other) = other == version

-- The name of the member who committed, if there is one, is in the details.
unfoldable pub already_committed : Option Text → Run Room (Unit {0})
already_committed (some (c ∷ s)) = do
  _ ← querying (λ db. username db (c ∷ s))
  throw 409 live_draft_already_committed
already_committed _ = throw 409 live_draft_already_committed

-- The version of the draft is not the one that the client has seen. `Number(null)` is 0, which no
-- request expects.
unfoldable pub wrong_version : LiveDraftRow → ℕ → Run Room (Unit {0})
wrong_version current expected =
    if same_version expected current.draft.last_committed_version
    then already_committed current.draft.last_committed_by
    else version_conflict current

abbrev pub is_complete : DraftFields → Bool
is_complete fields =
    is_filled fields.time && is_filled fields.controller && is_filled fields.callsign

abbrev pub text_or_empty : Option Text → Text
text_or_empty none = []
text_or_empty (some text) = text

-- The columns of a draft that is complete.
abbrev pub value_of : DraftFields → LogValue
value_of fields = record {
  time = text_or_empty fields.time;
  controller = text_or_empty fields.controller;
  callsign = text_or_empty fields.callsign;
  rst_sent = fields.rst_sent;
  rst_rcvd = fields.rst_rcvd;
  qth = fields.qth;
  device = fields.device;
  power = fields.power;
  antenna = fields.antenna;
  height = fields.height;
  remarks = fields.remarks;
}

abbrev pub committed_log : Text → CommitRequest → ℕ → DraftFields → LogRow
committed_log user request now fields = record {
  sync_id = request.sync_id;
  session_id = request.session_id;
  version = 1;
  value = value_of fields;
  created_by = some user;
  updated_by = some user;
  created_at = now;
  updated_at = now;
  deleted_at = none;
  deleted_by = none;
  source_device_id = some request.device_id;
}

abbrev pub found_log : Option LogRow → Result LogRow
found_log none = err internal
found_log (some row) = ok row

abbrev pub commit_response : Draft → LogRow → Event → DraftDto → ℕ → StoredBody
commit_response current row event dto total = commit_body (record {
  record_dto = log_dto row;
  event = event;
  committed_draft_id = current.draft_id;
  next_draft = dto;
  committed_ordinal = total;
  current_ordinal = total + 1;
  total_records = total;
})

abbrev pub committed_result : StoredBody → Event → Commit
committed_result body event = record {
  status = 201;
  body = body;
  event = some event;
  replayed = false;
}

module _ (draws : Draws) (user : Text) (request : CommitRequest) where
  abbrev pub append_created : ℕ → LogRow → Run Room Event
  append_created now row = on_database (
      append_session_event (record {
        event_id = draws.uuid 1;
        session_id = request.session_id;
        type = log_created;
        entity_type = log;
        entity_id = request.sync_id;
        entity_version = 1;
        mutation_id = some request.mutation_id;
        actor_user_id = user;
        actor_device_id = some request.device_id;
        payload = log_payload (log_dto row);
        occurred_at = now;
      }))

  -- The writes of a commit whose checks have passed.
  unfoldable pub write_commit : LiveDraftRow → Run Room Commit
  write_commit current = do
    let now = draws.at 2
    updating (λ db. record db {
      logs = db.logs ++ committed_log user request now current.draft.fields ∷ [];
    })
    row ← querying (λ db. found_log (read_log db request.session_id request.sync_id))
    event ← append_created now row
    fresh ←
        reset_draft now (draws.uuid 2) current.draft user
          (some (record { committed_sync_id = request.sync_id; committed_at = now }))
    total ← read (λ (s : Room). count_logs s.database request.session_id)
    dto ← checking (draft_dto fresh)
    let body = commit_response current.draft row event dto total
    on_database (
        store_response (
          stored_row request.mutation_id request.session_id user request.device_id
            request.request_hash 201 body (draws.at 3)))
    return (committed_result body event)

  -- The transaction for a request that has no stored response.
  unfoldable pub commit_new : Run Room Commit
  commit_new = do
    updating (ensure_draft request.session_id (draws.uuid 0) (draws.at 0))
    current ← querying (λ db. read_draft db request.session_id)
    assert_no_foreign_locks (draws.at 1) request.session_id user request.device_id
    when (not (current.draft.version == request.expected_draft_version))
        (wrong_version current request.expected_draft_version)
    demand (is_complete current.draft.fields) 409 live_draft_incomplete
    existing ← read (λ (s : Room). read_log s.database request.session_id request.sync_id)
    demand (not (is_some existing)) 409 log_already_exists
    write_commit current

  -- The answer to a request that was stored.
  abbrev pub stored_commit : StoredMutation → Commit
  stored_commit row = record {
    status = row.status_code;
    body = row.response;
    event = none;
    replayed = true;
  }

  unfoldable pub or_stored : Run Room Commit → Option StoredMutation → Run Room Commit
  or_stored run none = run
  or_stored run (some row) = return (stored_commit row)

  -- What the transactions of both routes start with.
  unfoldable pub once : Run Room Commit → Run Room Commit
  once run = transaction (do
    _ ← querying (λ db. require_draft_access db request.session_id user true)
    stored ← querying (λ db. read_stored_response db request.mutation_id user request.request_hash)
    or_stored run stored)

  unfoldable pub commit_transaction : Run Room Commit
  commit_transaction = once commit_new

  -- The managers of a draft that has ended.
  unfoldable pub clear_managers : Run Room (Unit {0})
  clear_managers = do
    _ ← with_locks (clear_session (draws.at 4) request.session_id)
    _ ← with_previews (clear_preview (draws.at 5) request.session_id none)
    return tt

  abbrev committed_message : CommitBody → Event → Run Room (Unit {0})
  committed_message body event = publish_control (
      draft_committed (record {
        session_id = request.session_id;
        occurred_at = event.occurred_at;
        committed_by_user_id = event.actor_user_id;
        committed_by_name = event.actor_display_name;
        device_id = request.device_id;
        committed_draft_id = body.committed_draft_id;
        record_dto = body.record_dto;
        next_draft = body.next_draft;
        current_ordinal = body.current_ordinal;
        total_records = body.total_records;
      }))

  -- What follows a commit that is not a replay, whose body is of this route: `hub.publish` and the
  -- control message.
  unfoldable pub after_commit : StoredBody → Option Event → Run Room (Unit {0})
  after_commit (commit_body body) (some event) = do
    clear_managers
    publish_event event
    committed_message body event
  after_commit _ _ = clear_managers

  unfoldable pub run_commit : Run Room Commit
  run_commit = do
    committed ← commit_transaction
    when (not committed.replayed) (after_commit committed.body committed.event)
    return committed
