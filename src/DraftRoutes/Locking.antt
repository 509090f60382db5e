-- ===== src/DraftRoutes/Locking.antt =====
-- The routes that read the live draft and that lock its fields: GET /:sessionId/live-draft, and
-- POST and DELETE under /:sessionId/live-draft/locks.
use open_log_tool_server.Base.{
  Text, String, Bool, true, false, ◌&&◌, List, [], ◌∷◌, Option, none, some, text_eq,
}
use open_log_tool_server.Base.Json.{Json, Fields, get}
use open_log_tool_server.Base.Outcome.{Result, ok}
use open_log_tool_server.Base.Outcome.{◌>>=◌ as bind, ◌>>◌ as next}
use open_log_tool_server.Base.Run.{Run, ◌>>=◌, ◌>>◌, return, reading, when}
use open_log_tool_server.LiveDraft.{callsign, field_key}
use open_log_tool_server.LiveDraft.Locks.{StoredLock, Input, acquire, renew, release}
use open_log_tool_server.Validation.{
  require_json_object, reject_unknown_keys, uuid_field, normalize_stable_id,
}
use open_log_tool_server.Collaboration.Drafts.{DraftDto}
use open_log_tool_server.DraftRoutes.Parse.{require_field}
use open_log_tool_server.DraftRoutes.Previews.{Preview, current_preview, clear_preview}
use open_log_tool_server.DraftRoutes.Room.{
  Room, Draws, lock_taken, lock_released, on_locks, with_previews, publish_control, transaction,
}
use open_log_tool_server.DraftRoutes.Store.{
  require_draft_access, ensure_draft, read_draft, draft_dto, username,
}
use open_log_tool_server.DraftRoutes.Steps.{
  Envelope, draft_envelope, querying, updating, publish_history_preview_control,
}

-- The checks that every route of the draft starts with.
unfoldable pub read_session_param : Fields → Option Json → Result Text
read_session_param query session_param =
    next (reject_unknown_keys query []) (normalize_stable_id session_param)

-- A body with these keys only.
unfoldable pub read_body : List String → Json → Result Fields
read_body keys body =
    bind (require_json_object body) λ fields. next (reject_unknown_keys fields keys) (ok fields)

abbrev pub checking : {A : Type 0} → Result A → Run Room A
checking check = reading (λ _. check)

-- What the routes on one lease read of their request.
unfoldable pub read_lease_request :
    Fields → Option Json → Option Json → Json → Result (Text × Text × Text)
read_lease_request query session_param lease_param body =
    bind (read_session_param query session_param) λ session.
      bind (normalize_stable_id lease_param) λ lease.
        bind (read_body ("deviceId" ∷ []) body)
          λ fields. bind (uuid_field fields "deviceId") λ device. ok (session, lease, device)

-- What `acquire` responds with.
pub record Acquired : Type 0 where
  pub lock : StoredLock
  pub draft : DraftDto

module _ (draws : Draws) (user : Text) (query : Fields) (session_param : Option Json) where
  unfoldable pub get_live_draft : Run Room Envelope
  get_live_draft = do
    session ← checking (read_session_param query session_param)
    transaction (do
      _ ← querying (λ db. require_draft_access db session user false)
      updating (ensure_draft session (draws.uuid 0) (draws.at 0))
      draft_envelope draws session)

  unfoldable pub post_lock : Json → Run Room Acquired
  post_lock body = do
    session ← checking (read_session_param query session_param)
    fields ← checking (read_body ("field" ∷ "deviceId" ∷ []) body)
    field ← checking (require_field (get "field" fields))
    device ← checking (uuid_field fields "deviceId")
    _ ← querying (λ db. require_draft_access db session user true)
    updating (ensure_draft session (draws.uuid 0) (draws.at 0))
    name ← querying (λ db. username db user)
    (lock, reused) ← on_locks (
        acquire (draws.at 1) (draws.uuid 1) (record {
          session_id = session;
          field = field;
          lease_id = [];
          user_id = user;
          username = name;
          device_id = device;
        }))
    publish_control (lock_taken session (draws.at 2) reused lock)
    row ← querying (λ db. read_draft db session)
    dto ← checking (draft_dto row)
    return (record { lock = lock; draft = dto })

  abbrev lease_input : Text → Text → Text → Input
  lease_input session lease device = record {
    session_id = session;
    field = callsign;
    lease_id = lease;
    user_id = user;
    username = [];
    device_id = device;
  }

  unfoldable pub renew_lock : Option Json → Json → Run Room StoredLock
  renew_lock lease_param body = do
    (session, lease, device) ← checking (read_lease_request query session_param lease_param body)
    _ ← querying (λ db. require_draft_access db session user true)
    lock ← on_locks (renew (draws.at 0) (lease_input session lease device))
    publish_control (lock_taken session (draws.at 1) true lock)
    return lock

  -- The preview was published under the lock that is released.
  abbrev published_under : StoredLock → Preview → Bool
  published_under lock preview =
      text_eq preview.actor_user_id lock.user_id && text_eq preview.device_id lock.device_id

  -- What a release of the callsign does to the preview.
  unfoldable pub drop_own_preview : Text → Text → StoredLock → Option Preview → Run Room (Unit {0})
  drop_own_preview session device lock none = return tt
  drop_own_preview session device lock (some preview) = when (published_under lock preview) (do
    _ ← with_previews (clear_preview (draws.at 3) session (some preview.preview_id))
    publish_history_preview_control (draws.at 4) (draws.at 5) session user device none)

  unfoldable pub release_lock : Option Json → Json → Run Room (Unit {0})
  release_lock lease_param body = do
    (session, lease, device) ← checking (read_lease_request query session_param lease_param body)
    _ ← querying (λ db. require_draft_access db session user true)
    lock ← on_locks (release (draws.at 0) (lease_input session lease device))
    publish_control (lock_released session (draws.at 1) lock.field lock.lease_id)
    when (field_key.beq lock.field callsign) (do
      preview ← with_previews (current_preview (draws.at 2) session)
      drop_own_preview session device lock preview)
