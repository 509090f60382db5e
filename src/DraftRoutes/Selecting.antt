-- ===== src/DraftRoutes/Selecting.antt =====
-- POST /:sessionId/live-draft/history-preview/:previewId/select.
use open_log_tool_server.Base.{
  ℕ, ◌+◌, Text, Bool, true, false, not, List, [], ◌∷◌, ◌++◌, map, Option, none, some, codes,
  text_eq, if◌then◌else◌, any, is_some,
}
use open_log_tool_server.Base.Json.{Json, Fields, get, object}
use open_log_tool_server.Base.Table.{select, select_all}
use open_log_tool_server.Base.Runtime.{Runtime}
use open_log_tool_server.Base.Outcome.{
  Result, ok, err, app_error, internal, live_draft_history_candidate_not_found,
}
use open_log_tool_server.Base.Run.{Run, ◌>>=◌, ◌>>◌, return, when}
use open_log_tool_server.LiveDraft.{Field, callsign, field_key}
use open_log_tool_server.LiveDraft.Locks.{StoredLock, assert_lease, list, clear_fields}
use open_log_tool_server.Validation.{uuid_field, normalize_stable_id}
use open_log_tool_server.Collaboration.Drafts.{DraftFields, Draft, Revisions, DraftDto}
use open_log_tool_server.Collaboration.Rows.{SelectBody, StoredBody, select_body, StoredMutation}
use open_log_tool_server.Collaboration.Idempotency.{
  require_idempotency_key, compute_request_hash, read_stored_response, store_response,
}
use open_log_tool_server.DraftRoutes.Names.{reuse_fields, set_column}
use open_log_tool_server.DraftRoutes.Parse.{Candidate}
use open_log_tool_server.DraftRoutes.Previews.{Preview, current_preview, clear_preview}
use open_log_tool_server.DraftRoutes.Room.{
  Room, Draws, draft_updated, lock_released, on_locks, with_locks, with_previews, on_database,
  publish_control, transaction,
}
use open_log_tool_server.DraftRoutes.Store.{
  LiveDraftRow, require_draft_access, ensure_draft, read_draft, draft_dto, username, revisions,
  json_of_revisions,
}
use open_log_tool_server.DraftRoutes.Steps.{querying, updating, update_draft, touch_session}
use open_log_tool_server.DraftRoutes.Locking.{read_session_param, read_body, checking}
use open_log_tool_server.DraftRoutes.Previewing.{lease_of, own_preview, stale, still_matches}

abbrev pub affects : List Field → Field → Bool
affects fields field = any (λ f. field_key.beq f field) fields

-- The fields that a candidate has a value for.
abbrev pub affected_fields : Candidate → List Field
affected_fields candidate = select_all (λ field. is_some (candidate.value field)) reuse_fields

-- `for (const field of fields) fieldRevisions[field] += 1`.
unfoldable pub advance : List Field → Revisions → Revisions
advance [] revisions = revisions
advance (field ∷ rest) revisions =
    advance rest
      (λ other. if field_key.beq field other then revisions other + 1 else revisions other)

-- The columns that a candidate sets.
unfoldable pub set_columns : List Field → (Field → Option Text) → DraftFields → DraftFields
set_columns [] value fields = fields
set_columns (field ∷ rest) value fields =
    set_columns rest value (set_column field (value field) fields)

-- The SET clause that the updates of a draft share.
abbrev pub revised : Text → ℕ → Revisions → DraftFields → Draft → Draft
revised user now revisions fields draft = record draft {
  fields = fields;
  field_revisions = some (json_of_revisions revisions);
  version = draft.version + 1;
  last_updated_by = some user;
  last_updated_at = now;
}

-- The SET clause of a choice.
unfoldable pub selected_row : Text → ℕ → Revisions → Candidate → Draft → Draft
selected_row user now revisions candidate draft =
    revised user now revisions
      (set_columns (affected_fields candidate) candidate.value draft.fields) draft

abbrev pub found_candidate : Option Candidate → Result Candidate
found_candidate none = err (app_error 404 live_draft_history_candidate_not_found)
found_candidate (some candidate) = ok candidate

abbrev pub released_of : StoredLock → Field × Text
released_of lock = (lock.field, lock.lease_id)

-- What the transaction returns.
pub record Selected : Type 0 where
  pub status : ℕ
  pub body : StoredBody
  pub replayed : Bool
  pub released_locks : List StoredLock

-- The request, once it is parsed.
pub record SelectRequest : Type 0 where
  pub session_id : Text
  pub preview_id : Text
  pub device_id : Text
  pub lease_id : Text
  pub candidate_id : Text
  pub mutation_id : Text
  pub request_hash : Text

-- A stored response is cast to the one of this route. Its `updatedFields` is read; a body without
-- it is a TypeError.
abbrev pub select_body_of : StoredBody → Result SelectBody
select_body_of (select_body body) = ok body
select_body_of _ = err internal

abbrev pub stored_row : Text → Text → Text → Text → Text → ℕ → StoredBody → ℕ → StoredMutation
stored_row mutation_id session user device request_hash status body now = record {
  mutation_id = mutation_id;
  session_id = some session;
  user_id = user;
  device_id = some device;
  request_hash = request_hash;
  status_code = status;
  response = body;
  created_at = now;
}

-- The messages for the locks that are released.
unfoldable pub publish_released : Text → ℕ → List (Field × Text) → Run Room (Unit {0})
publish_released session now [] = return tt
publish_released session now ((field, lease) ∷ rest) = do
  publish_control (lock_released session now field lease)
  publish_released session now rest

module _ (draws : Draws) (user : Text) where
  -- The candidate that is chosen: the preview is this device's, and the device holds the lock.
  unfoldable pub choose : SelectRequest → Run Room (Preview × Candidate)
  choose request = do
    stored ← with_previews (current_preview (draws.at 1) request.session_id)
    preview ← checking (own_preview request.preview_id user request.device_id stored)
    _ ← on_locks (
        assert_lease (draws.at 2)
          (lease_of request.session_id user request.device_id callsign request.lease_id))
    candidate ← checking (
        found_candidate (
          select (λ (c : Candidate). text_eq c.candidate_id request.candidate_id)
            preview.candidates))
    return (preview, candidate)

  -- The writes to the draft, and the draft as it is then.
  unfoldable pub write_selection : SelectRequest → Candidate → LiveDraftRow → Run Room DraftDto
  write_selection request candidate current = do
    before ← checking (revisions current.draft)
    on_database (
        update_draft
          (selected_row user (draws.at 3) (advance (affected_fields candidate) before) candidate)
          current.draft)
    updating (touch_session request.session_id (draws.at 3))
    after ← querying (λ db. read_draft db request.session_id)
    checking (draft_dto after)

  -- The response, which is stored.
  unfoldable pub answer_selection : SelectRequest → List Field → DraftDto → Run Room Selected
  answer_selection request fields dto = do
    locks ← with_locks (list (draws.at 4) request.session_id)
    let released = select_all (λ (lock : StoredLock). affects fields lock.field) locks
    let body = select_body (record {
      draft = dto;
      updated_fields = fields;
      released_leases = map released_of released;
      locks = select_all (λ (lock : StoredLock). not (affects fields lock.field)) locks;
      preview_id = request.preview_id;
      candidate_id = request.candidate_id;
    })
    on_database (
        store_response (
          stored_row request.mutation_id request.session_id user request.device_id
            request.request_hash 200 body (draws.at 5)))
    return (record { status = 200; body = body; replayed = false; released_locks = released })

  -- The transaction for a request that has no stored response.
  unfoldable pub select_new : SelectRequest → Run Room Selected
  select_new request = do
    updating (ensure_draft request.session_id (draws.uuid 0) (draws.at 0))
    (preview, candidate) ← choose request
    current ← querying (λ db. read_draft db request.session_id)
    when (not (still_matches current.draft preview.draft_id preview.callsign)) (stale current)
    dto ← write_selection request candidate current
    answer_selection request (affected_fields candidate) dto

  -- `readStoredResponse`, and the response that is there.
  unfoldable pub select_stored : SelectRequest → Option StoredMutation → Run Room Selected
  select_stored request none = select_new request
  select_stored request (some row) = return (record {
    status = row.status_code;
    body = row.response;
    replayed = true;
    released_locks = [];
  })

  unfoldable pub select_transaction : SelectRequest → Run Room Selected
  select_transaction request = transaction (do
    _ ← querying (λ db. require_draft_access db request.session_id user true)
    stored ← querying (λ db. read_stored_response db request.mutation_id user request.request_hash)
    select_stored request stored)

  -- What follows a choice that was made.
  unfoldable pub after_select : SelectRequest → Selected → SelectBody → Run Room (Unit {0})
  after_select request selected body = do
    _ ← with_locks (clear_fields (draws.at 6) request.session_id body.updated_fields)
    _ ← with_previews (clear_preview (draws.at 7) request.session_id (some request.preview_id))
    publish_released request.session_id (draws.at 8) (map released_of selected.released_locks)
    name ← querying (λ db. username db user)
    publish_control (
        draft_updated (record {
          session_id = request.session_id;
          occurred_at = draws.at 8;
          actor_user_id = user;
          actor_username = name;
          device_id = request.device_id;
          client_seq = none;
          updated_fields = body.updated_fields;
          released_leases = body.released_leases;
          draft = body.draft;
          locks = some body.locks;
          history_preview = some none;
          history_reuse = some (record {
            preview_id = body.preview_id;
            candidate_id = body.candidate_id;
            affected_fields = body.updated_fields;
          });
        }))

  abbrev select_path : Text → Text → Text
  select_path session preview =
      codes "/api/v1/sessions/"
      ++ session
      ++ codes "/live-draft/history-preview/"
      ++ preview
      ++ codes "/select"

  unfoldable pub select_candidate :
      Runtime → Fields → Option Json → Option Json → Option Text → Json → Run Room Selected
  select_candidate runtime query session_param preview_param key body = do
    session ← checking (read_session_param query session_param)
    preview ← checking (normalize_stable_id preview_param)
    fields ← checking (read_body ("deviceId" ∷ "leaseId" ∷ "candidateId" ∷ []) body)
    device ← checking (uuid_field fields "deviceId")
    lease ← checking (normalize_stable_id (get "leaseId" fields))
    candidate ← checking (normalize_stable_id (get "candidateId" fields))
    mutation ← checking (require_idempotency_key key)
    let request : SelectRequest = record {
      session_id = session;
      preview_id = preview;
      device_id = device;
      lease_id = lease;
      candidate_id = candidate;
      mutation_id = mutation;
      request_hash =
          compute_request_hash runtime (codes "POST") (select_path session preview) (object fields);
    }
    selected ← select_transaction request
    chosen ← checking (select_body_of selected.body)
    when (not selected.replayed) (after_select request selected chosen)
    return selected
