-- ===== src/DraftRoutes/Ending.antt =====
-- The two routes that end a draft, from the request on: POST /:sessionId/live-draft/commit and
-- DELETE /:sessionId/live-draft.
use open_log_tool_server.Base.{Text, [], ◌∷◌, ◌++◌, Option, codes}
use open_log_tool_server.Base.Json.{Json, Fields, get, object}
use open_log_tool_server.Base.Runtime.{Runtime}
use open_log_tool_server.Base.Outcome.{Result, ok}
use open_log_tool_server.Base.Outcome.{◌>>=◌ as bind}
use open_log_tool_server.Base.Run.{Run, ◌>>=◌}
use open_log_tool_server.Validation.{uuid_field, normalize_stable_id}
use open_log_tool_server.Collaboration.Idempotency.{require_idempotency_key, compute_request_hash}
use open_log_tool_server.DraftRoutes.Parse.{positive_integer}
use open_log_tool_server.DraftRoutes.Room.{Room, Draws}
use open_log_tool_server.DraftRoutes.Locking.{read_session_param, read_body, checking}
use open_log_tool_server.DraftRoutes.Committing.{CommitRequest, Commit, run_commit}
use open_log_tool_server.DraftRoutes.Discarding.{run_discard}

abbrev draft_path : Text → Text
draft_path session = codes "/api/v1/sessions/" ++ session ++ codes "/live-draft"

module _ (runtime : Runtime) (query : Fields) (session_param : Option Json) (key : Option Text)
    (body : Json) where
  unfoldable pub read_commit : Result CommitRequest
  read_commit = bind (read_session_param query session_param) λ session.
      bind (read_body ("deviceId" ∷ "expectedDraftVersion" ∷ "syncId" ∷ []) body) λ fields.
        bind (uuid_field fields "deviceId") λ device.
          bind (positive_integer (get "expectedDraftVersion" fields)) λ version.
            bind (normalize_stable_id (get "syncId" fields)) λ sync_id.
              bind (require_idempotency_key key) λ mutation. ok (record {
                session_id = session;
                device_id = device;
                expected_draft_version = version;
                sync_id = sync_id;
                mutation_id = mutation;
                request_hash =
                    compute_request_hash runtime (codes "POST")
                      (draft_path session ++ codes "/commit") (object fields);
              })

  unfoldable pub read_discard : Result CommitRequest
  read_discard = bind (read_session_param query session_param) λ session.
      bind (read_body ("deviceId" ∷ "expectedDraftVersion" ∷ []) body) λ fields.
        bind (uuid_field fields "deviceId") λ device.
          bind (positive_integer (get "expectedDraftVersion" fields)) λ version.
            bind (require_idempotency_key key) λ mutation. ok (record {
              session_id = session;
              device_id = device;
              expected_draft_version = version;
              sync_id = [];
              mutation_id = mutation;
              request_hash =
                  compute_request_hash runtime (codes "DELETE") (draft_path session)
                    (object fields);
            })

  unfoldable pub commit_live_draft : Draws → Text → Run Room Commit
  commit_live_draft draws user = do request ← checking read_commit; run_commit draws user request

  unfoldable pub discard_live_draft : Draws → Text → Run Room Commit
  discard_live_draft draws user = do request ← checking read_discard; run_discard draws user request
