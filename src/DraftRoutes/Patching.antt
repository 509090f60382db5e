-- ===== src/DraftRoutes/Patching.antt =====
-- PATCH /:sessionId/live-draft.
pub mod Cells
pub mod Effect
use open_log_tool_server.Base.{
  ℕ, ◌+◌, Text, Bool, true, false, not, ◌&&◌, List, [], ◌∷◌, ◌++◌, map, Option, none, some, codes,
  text_eq, ◌==◌, if◌then◌else◌, is_some,
}
use open_log_tool_server.Base.Json.{Json, Fields, get, object, string, field, end}
use open_log_tool_server.Base.Table.{select, modify}
use open_log_tool_server.Base.Runtime.{Runtime}
use open_log_tool_server.Base.Outcome.{
  Result, ok, live_draft_client_seq_reused, live_draft_client_seq_gap, live_draft_field_conflict,
}
use open_log_tool_server.Base.Outcome.{◌>>=◌ as bind}
use open_log_tool_server.Base.Run.{Run, ◌>>=◌, ◌>>◌, return, throw, when}
use open_log_tool_server.LiveDraft.{Field, callsign}
use open_log_tool_server.LiveDraft.Locks.{assert_lease, consume}
use open_log_tool_server.Validation.{uuid_field}
use open_log_tool_server.Collaboration.Drafts.{DraftFields, Draft, DeviceState, Revisions, DraftDto}
use open_log_tool_server.Collaboration.Rows.{Database}
use open_log_tool_server.Collaboration.Idempotency.{compute_request_hash}
use open_log_tool_server.DraftRoutes.Names.{set_column, at_field}
use open_log_tool_server.DraftRoutes.Parse.{Update, parse_updates, positive_integer, has_preference}
use open_log_tool_server.DraftRoutes.Previews.{clear_preview}
use open_log_tool_server.DraftRoutes.Room.{
  Room, Draws, draft_updated, on_locks, with_locks, with_previews, on_database, publish_control,
  transaction,
}
use open_log_tool_server.DraftRoutes.Store.{
  LiveDraftRow, require_draft_access, ensure_draft, read_draft, draft_dto, username, revisions,
}
use open_log_tool_server.DraftRoutes.Steps.{querying, updating, update_draft, touch_session}
use open_log_tool_server.DraftRoutes.Locking.{read_session_param, read_body, checking}
use open_log_tool_server.DraftRoutes.Previewing.{lease_of}
use open_log_tool_server.DraftRoutes.Selecting.{affects, revised, publish_released}

-- CONSUME_LEASES_PREFERENCE.
abbrev pub consume_leases_preference : Text
consume_leases_preference = codes "openlogtool-consume-live-draft-leases"

-- The request, once it is parsed.
pub record PatchRequest : Type 0 where
  pub session_id : Text
  pub device_id : Text
  pub client_seq : ℕ
  pub updates : List Update
  pub consume_leases : Bool
  pub request_hash : Text

abbrev pub updated_fields : List Update → List Field
updated_fields updates = map (λ (u : Update). u.field) updates

abbrev pub released_leases : PatchRequest → List (Field × Text)
released_leases request =
    if request.consume_leases
    then map (λ (u : Update). (u.field, u.lease_id)) request.updates
    else []

-- The response.
pub record Patched : Type 0 where
  pub draft : DraftDto
  pub applied_client_seq : ℕ
  pub updated_fields : List Field
  pub released_leases : List (Field × Text)
  pub replayed : Bool

abbrev pub is_device : Text → Text → Text → DeviceState → Bool
is_device session user device row =
    text_eq row.session_id session && text_eq row.user_id user && text_eq row.device_id device

-- INSERT … ON CONFLICT (session_id, user_id, device_id) DO UPDATE
unfoldable pub upsert_device_state : DeviceState → Database → Database
upsert_device_state new db =
    let same = is_device new.session_id new.user_id new.device_id in
    record db {
      device_states =
          if is_some (select same db.device_states)
          then modify same (λ _. new) db.device_states
          else db.device_states ++ new ∷ [];
    }

-- The columns that the updates set.
unfoldable pub set_updates : List Update → DraftFields → DraftFields
set_updates [] fields = fields
set_updates (update ∷ rest) fields = set_updates rest (set_column update.field update.value fields)

-- The SET clause of an update.
unfoldable pub patched_row : Text → ℕ → Revisions → List Update → Draft → Draft
patched_row user now revisions updates draft =
    revised user now revisions (set_updates updates draft.fields) draft

abbrev pub patched_body : PatchRequest → DraftDto → Bool → Patched
patched_body request draft replayed = record {
  draft = draft;
  applied_client_seq = request.client_seq;
  updated_fields = updated_fields request.updates;
  released_leases = released_leases request;
  replayed = replayed;
}

-- 409 with the current draft in the details.
unfoldable pub field_conflict : LiveDraftRow → Run Room (Unit {0})
field_conflict current = do _ ← checking (draft_dto current); throw 409 live_draft_field_conflict

module _ (draws : Draws) (user : Text) (request : PatchRequest) where
  -- The loop over the updates, which checks the lease and the revision of each and counts its
  -- revision up. `n` is the number of the update.
  unfoldable pub check_updates : LiveDraftRow → ℕ → List Update → Revisions → Run Room Revisions
  check_updates current n [] revisions = return revisions
  check_updates current n (update ∷ rest) revisions = do
    _ ← on_locks (
        assert_lease (draws.at (10 + n))
          (lease_of request.session_id user request.device_id update.field update.lease_id))
    when (not (revisions update.field == update.expected_revision)) (field_conflict current)
    check_updates current (n + 1) rest
        (at_field update.field (revisions update.field + 1) revisions)

  -- The transaction from the reading of the revisions on.
  unfoldable pub apply_updates : LiveDraftRow → Run Room Patched
  apply_updates current = do
    before ← checking (revisions current.draft)
    after ← check_updates current 0 request.updates before
    on_database (update_draft (patched_row user (draws.at 1) after request.updates) current.draft)
    updating (touch_session request.session_id (draws.at 1))
    row ← querying (λ db. read_draft db request.session_id)
    dto ← checking (draft_dto row)
    updating (
        upsert_device_state (record {
          session_id = request.session_id;
          user_id = user;
          device_id = request.device_id;
          last_client_seq = request.client_seq;
          request_hash = request.request_hash;
          updated_at = draws.at 1;
        }))
    return (patched_body request dto false)

  -- An update that the device has sent before.
  unfoldable pub confirm_update : LiveDraftRow → DeviceState → Run Room Patched
  confirm_update current state =
      if text_eq state.request_hash request.request_hash
      then (do dto ← checking (draft_dto current); return (patched_body request dto true))
      else throw 409 live_draft_client_seq_reused

  -- What the last number that the device has sent decides.
  unfoldable pub after_state : LiveDraftRow → Option DeviceState → Run Room Patched
  after_state current none = apply_updates current
  after_state current (some state) =
      if state.last_client_seq == request.client_seq
      then confirm_update current state
      else if request.client_seq == state.last_client_seq + 1
      then apply_updates current
      else throw 409 live_draft_client_seq_gap

  unfoldable pub patch_transaction : Run Room Patched
  patch_transaction = transaction (do
    _ ← querying (λ db. require_draft_access db request.session_id user true)
    updating (ensure_draft request.session_id (draws.uuid 0) (draws.at 0))
    current ← querying (λ db. read_draft db request.session_id)
    state ←
        querying
          (λ db. ok (select (is_device request.session_id user request.device_id) db.device_states))
    after_state current state)

  unfoldable pub consume_each : List Update → Run Room (Unit {0})
  consume_each [] = return tt
  consume_each (update ∷ rest) = do
    _ ←
        with_locks (
          consume (lease_of request.session_id user request.device_id update.field update.lease_id))
    consume_each rest

  abbrev pub clears_preview : Bool
  clears_preview = affects (updated_fields request.updates) callsign

  abbrev clear_any : Run Room (Unit {0})
  clear_any = do _ ← with_previews (clear_preview (draws.at 2) request.session_id none); return tt

  -- What follows an update that was made.
  unfoldable pub after_patch : Patched → Run Room (Unit {0})
  after_patch result = do
    when request.consume_leases (consume_each request.updates)
    when clears_preview clear_any
    name ← querying (λ db. username db user)
    publish_control (
        draft_updated (record {
          session_id = request.session_id;
          occurred_at = draws.at 3;
          actor_user_id = user;
          actor_username = name;
          device_id = request.device_id;
          client_seq = some request.client_seq;
          updated_fields = result.updated_fields;
          released_leases = result.released_leases;
          draft = result.draft;
          locks = none;
          history_preview = if clears_preview then some none else none;
          history_reuse = none;
        }))
    publish_released request.session_id (draws.at 3) result.released_leases

  unfoldable pub run_patch : Run Room Patched
  run_patch = do
    result ← patch_transaction
    when (not result.replayed) (after_patch result)
    return result

-- What the request hash is computed from.
abbrev hashed : Bool → Fields → Json
hashed true body =
    object
      (field "preference" (string consume_leases_preference) (field "request" (object body) end))
hashed false body = object body

unfoldable pub read_patch :
    Runtime → Fields → Option Json → Option Text → Json → Result PatchRequest
read_patch runtime query session_param prefer body =
    bind (read_session_param query session_param) λ session.
      bind (read_body ("deviceId" ∷ "clientSeq" ∷ "updates" ∷ []) body) λ fields.
        bind (uuid_field fields "deviceId") λ device.
          bind (positive_integer (get "clientSeq" fields)) λ client_seq.
            bind (parse_updates runtime (get "updates" fields)) λ updates.
              let consumes = has_preference prefer consume_leases_preference in
              ok (record {
                session_id = session;
                device_id = device;
                client_seq = client_seq;
                updates = updates;
                consume_leases = consumes;
                request_hash =
                    compute_request_hash runtime (codes "PATCH")
                      (codes "/api/v1/sessions/" ++ session ++ codes "/live-draft")
                      (hashed consumes fields);
              })

unfoldable pub patch_live_draft :
    Runtime → Draws → Text → Fields → Option Json → Option Text → Json → Run Room Patched
patch_live_draft runtime draws user query session_param prefer body = do
  request ← checking (read_patch runtime query session_param prefer body)
  run_patch draws user request
