-- ===== src/DraftRoutes/Discarding.antt =====
-- DELETE /:sessionId/live-draft.
pub mod Fate
use open_log_tool_server.Base.{ℕ, ◌+◌, Text, false, not, ◌&&◌, ◌∷◌, ◌++◌, none, ◌==◌, if◌then◌else◌}
use open_log_tool_server.Base.Run.{Run, ◌>>=◌, ◌>>◌, return, read, when}
use open_log_tool_server.Collaboration.Drafts.{Draft, DraftDto}
use open_log_tool_server.Collaboration.Rows.{StoredBody, discard_body}
use open_log_tool_server.Collaboration.Idempotency.{store_response}
use open_log_tool_server.DraftRoutes.Room.{Room, Draws, draft_cleared, on_database, publish_control}
use open_log_tool_server.DraftRoutes.Store.{
  ensure_draft, read_draft, draft_dto, username, count_logs,
}
use open_log_tool_server.DraftRoutes.Steps.{
  querying, updating, assert_no_foreign_locks, reset_draft, touch_session,
}
use open_log_tool_server.DraftRoutes.Locking.{checking}
use open_log_tool_server.DraftRoutes.Selecting.{stored_row}
use open_log_tool_server.DraftRoutes.Committing.{
  CommitRequest, Commit, once, version_conflict, clear_managers,
}

abbrev pub discard_response : Draft → DraftDto → ℕ → StoredBody
discard_response current dto total = discard_body (record {
  discarded_draft_id = current.draft_id;
  next_draft = dto;
  current_ordinal = total + 1;
  total_records = total;
})

abbrev pub discarded_result : StoredBody → Commit
discarded_result body = record { status = 200; body = body; event = none; replayed = false }

module _ (draws : Draws) (user : Text) (request : CommitRequest) where
  unfoldable pub discard_new : Run Room Commit
  discard_new = do
    updating (ensure_draft request.session_id (draws.uuid 0) (draws.at 0))
    current ← querying (λ db. read_draft db request.session_id)
    assert_no_foreign_locks (draws.at 1) request.session_id user request.device_id
    when (not (current.draft.version == request.expected_draft_version)) (version_conflict current)
    fresh ← reset_draft (draws.at 2) (draws.uuid 2) current.draft user none
    updating (touch_session request.session_id (draws.at 3))
    total ← read (λ (s : Room). count_logs s.database request.session_id)
    dto ← checking (draft_dto fresh)
    let body = discard_response current.draft dto total
    on_database (
        store_response (
          stored_row request.mutation_id request.session_id user request.device_id
            request.request_hash 200 body (draws.at 6)))
    return (discarded_result body)

  unfoldable pub discard_transaction : Run Room Commit
  discard_transaction = once draws user request discard_new

  -- What follows a discard that is not a replay.
  unfoldable pub after_discard : StoredBody → Run Room (Unit {0})
  after_discard (discard_body body) = do
    clear_managers draws user request
    name ← querying (λ db. username db user)
    publish_control (
        draft_cleared (record {
          session_id = request.session_id;
          occurred_at = draws.at 7;
          discarded_by_user_id = user;
          discarded_by_username = name;
          device_id = request.device_id;
          discarded_draft_id = body.discarded_draft_id;
          next_draft = body.next_draft;
        }))
  after_discard _ = clear_managers draws user request

  unfoldable pub run_discard : Run Room Commit
  run_discard = do
    discarded ← discard_transaction
    when (not discarded.replayed) (after_discard discarded.body)
    return discarded
