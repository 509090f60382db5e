-- ===== src/DraftRoutes/Previewing.antt =====
-- The routes of the history preview: PUT and DELETE /:sessionId/live-draft/history-preview, and the
-- choice of one of its candidates.
use open_log_tool_server.Base.{
  Text, String, Bool, true, not, ◌&&◌, List, [], ◌∷◌, Option, none, some, text_eq, if◌then◌else◌,
}
use open_log_tool_server.Base.Json.{Json, Fields, get}
use open_log_tool_server.Base.Runtime.{Runtime}
use open_log_tool_server.Base.Outcome.{
  Result, ok, err, app_error, live_draft_history_preview_stale,
  live_draft_history_preview_not_owned,
}
use open_log_tool_server.Base.Outcome.{◌>>=◌ as bind}
use open_log_tool_server.Base.Run.{Run, ◌>>=◌, ◌>>◌, return, throw, when}
use open_log_tool_server.LiveDraft.{Field, callsign}
use open_log_tool_server.LiveDraft.Locks.{StoredLock, Input, assert_lease, list}
use open_log_tool_server.Validation.{uuid_field, normalize_stable_id}
use open_log_tool_server.Collaboration.Drafts.{Draft, DraftDto}
use open_log_tool_server.DraftRoutes.Parse.{
  Candidate, canonical_field_value, required_text, parse_history_candidates,
}
use open_log_tool_server.DraftRoutes.Previews.{
  Preview, current_preview, publish_preview, clear_preview,
}
use open_log_tool_server.DraftRoutes.Room.{Room, Draws, on_locks, with_locks, with_previews}
use open_log_tool_server.DraftRoutes.Store.{
  LiveDraftRow, require_draft_access, ensure_draft, read_draft, draft_dto, username,
}
use open_log_tool_server.DraftRoutes.Steps.{
  querying, updating, same_text, publish_history_preview_control,
}
use open_log_tool_server.DraftRoutes.Locking.{read_session_param, read_body, checking}

-- The lease that a call presents for one field.
abbrev pub lease_of : Text → Text → Text → Field → Text → Input
lease_of session user device field lease = record {
  session_id = session;
  field = field;
  lease_id = lease;
  user_id = user;
  username = [];
  device_id = device;
}

-- 409 with the current draft in the details.
unfoldable pub stale : LiveDraftRow → Run Room (Unit {0})
stale current = do _ ← checking (draft_dto current); throw 409 live_draft_history_preview_stale

-- The preview with this identifier, of this user and device.
unfoldable pub own_preview : Text → Text → Text → Option Preview → Result Preview
own_preview id user device none = err (app_error 409 live_draft_history_preview_stale)
own_preview id user device (some preview) =
    if not (text_eq preview.preview_id id)
    then err (app_error 409 live_draft_history_preview_stale)
    else if not (text_eq preview.actor_user_id user && text_eq preview.device_id device)
    then err (app_error 403 live_draft_history_preview_not_owned)
    else ok preview

-- What `put` responds with.
pub record Shown : Type 0 where
  pub history_preview : Preview
  pub draft : DraftDto
  pub locks : List StoredLock

abbrev pub preview_keys : List String
preview_keys = "deviceId" ∷ "leaseId" ∷ "draftId" ∷ "callsign" ∷ "candidates" ∷ []

-- The request of `put`, once it is parsed.
pub record PutRequest : Type 0 where
  pub session_id : Text
  pub device_id : Text
  pub lease_id : Text
  pub draft_id : Text
  pub callsign : Text
  pub candidates : List Candidate

unfoldable pub read_put : Runtime → Fields → Option Json → Json → Result PutRequest
read_put runtime query session_param body = bind (read_session_param query session_param) λ session.
    bind (read_body preview_keys body) λ fields. bind (uuid_field fields "deviceId") λ device.
      bind (normalize_stable_id (get "leaseId" fields)) λ lease.
        bind (normalize_stable_id (get "draftId" fields)) λ draft_id.
          bind (canonical_field_value runtime callsign (get "callsign" fields)) λ sign.
            bind (required_text sign) λ call_sign.
              bind (parse_history_candidates runtime (get "candidates" fields)) λ candidates.
                ok (record {
                  session_id = session;
                  device_id = device;
                  lease_id = lease;
                  draft_id = draft_id;
                  callsign = call_sign;
                  candidates = candidates;
                })

-- The draft is the one that the preview was made for, and has its callsign.
abbrev pub still_matches : Draft → Text → Text → Bool
still_matches draft draft_id call_sign =
    text_eq draft.draft_id draft_id && same_text call_sign draft.fields.callsign

module _ (draws : Draws) (user : Text) where
  -- The new preview is stored and published.
  unfoldable pub show_preview : PutRequest → LiveDraftRow → Run Room Shown
  show_preview request current = do
    name ← querying (λ db. username db user)
    preview ← with_previews (
        publish_preview (draws.at 2) (draws.uuid 1) (record {
          session_id = request.session_id;
          draft_id = request.draft_id;
          device_id = request.device_id;
          callsign = request.callsign;
          actor_user_id = user;
          actor_username = name;
          candidates = request.candidates;
        }))
    publish_history_preview_control (draws.at 3) (draws.at 4) request.session_id user
        request.device_id (some preview)
    dto ← checking (draft_dto current)
    locks ← with_locks (list (draws.at 5) request.session_id)
    return (record { history_preview = preview; draft = dto; locks = locks })

  unfoldable pub run_put : PutRequest → Run Room Shown
  run_put request = do
    _ ← querying (λ db. require_draft_access db request.session_id user true)
    updating (ensure_draft request.session_id (draws.uuid 0) (draws.at 0))
    _ ← on_locks (
        assert_lease (draws.at 1)
          (lease_of request.session_id user request.device_id callsign request.lease_id))
    current ← querying (λ db. read_draft db request.session_id)
    when (not (still_matches current.draft request.draft_id request.callsign)) (stale current)
    show_preview request current

module _ (runtime : Runtime) (draws : Draws) (user : Text) (query : Fields)
    (session_param : Option Json) where
  unfoldable pub put_history_preview : Json → Run Room Shown
  put_history_preview body = do
    request ← checking (read_put runtime query session_param body)
    run_put draws user request

module _ (draws : Draws) (user : Text) (query : Fields) (session_param : Option Json) where
  unfoldable pub delete_history_preview : Json → Run Room (Unit {0})
  delete_history_preview body = do
    session ← checking (read_session_param query session_param)
    fields ← checking (read_body ("deviceId" ∷ "previewId" ∷ []) body)
    device ← checking (uuid_field fields "deviceId")
    id ← checking (normalize_stable_id (get "previewId" fields))
    _ ← querying (λ db. require_draft_access db session user true)
    stored ← with_previews (current_preview (draws.at 0) session)
    _ ← checking (own_preview id user device stored)
    _ ← with_previews (clear_preview (draws.at 1) session (some id))
    publish_history_preview_control (draws.at 2) (draws.at 3) session user device none
