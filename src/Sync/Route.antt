-- ===== src/Sync/Route.antt =====
-- POST /:sessionId/mutations: the loop over the operations of a batch, and the whole route.
use open_log_tool_server.Base.{
  ℕ, ◌+◌, Text, Bool, true, false, List, [], ◌∷◌, ◌++◌, Option, none, some, leb, if◌then◌else◌,
}
use open_log_tool_server.Base.Json.{Json}
use open_log_tool_server.Base.Runtime.{Runtime}
use open_log_tool_server.Base.Outcome.{
  Result, ok, payload_too_large, ◌>>=◌, ◌>>◌, require, Outcome, done, raised, attempt,
}
use open_log_tool_server.Validation.{
  require_json_object, reject_unknown_keys, uuid_field, normalize_stable_id,
}
use open_log_tool_server.LiveDraft.Locks
use open_log_tool_server.Collaboration.Rows.{
  SessionRow, EventType, session_closed, session_deleted, Event, StoredBody, Database,
}
use open_log_tool_server.Collaboration.Access.{find_session}
use open_log_tool_server.Sync.Operation.{Operation}
use open_log_tool_server.Sync.Parse.{parse_operations}
use open_log_tool_server.Sync.Sessions.{World}
use open_log_tool_server.Sync.Access.{read_session_access_including_deleted}
use open_log_tool_server.Sync.Batch.{Request, Draws, Committed, run_operation}

-- The world, and the events that the hub has been given.
pub record Served : Type 0 where
  pub world : World
  pub published : List Event

abbrev pub ends_draft : EventType → Bool
ends_draft session_closed = true
ends_draft session_deleted = true
ends_draft _ = false

-- After a commit: publish, and drop the locks of a Session that has ended.
unfoldable pub after_commit : Request → Draws → Option Event → Served → Served
after_commit request draws none s = s
after_commit request draws (some event) s =
    let cleared = (Locks.clear_session draws.clear_now request.session_id s.world.locks).1 in
    record {
      world = if ends_draft event.type then record (s.world) { locks = cleared } else s.world;
      published = s.published ++ event ∷ [];
    }

abbrev pub and_result :
    StoredBody → Outcome Served (List StoredBody) → Outcome Served (List StoredBody)
and_result r (done rs s) = done (r ∷ rs) s
and_result r (raised fault s) = raised fault s

-- The rest of the loop after one transaction; `rest` is the loop over the other operations.
unfoldable pub go_on :
    Request
    → Draws
    → Served
    → (Served → Outcome Served (List StoredBody))
    → Outcome World Committed
    → Outcome Served (List StoredBody)
go_on request draws s rest (raised fault w) = raised fault (record s { world = w })
go_on request draws s rest (done c w) =
    and_result c.result (rest (after_commit request draws c.event (record s { world = w })))

module _ (runtime : Runtime) (request : Request) where
  -- The loop over the operations; `draws n` is what the n-th of them draws.
  unfoldable pub run_operations :
      (ℕ → Draws) → ℕ → List Operation → Served → Outcome Served (List StoredBody)
  run_operations draws n [] s = done [] s
  run_operations draws n (op ∷ ops) s =
      go_on request (draws n) s (run_operations draws (n + 1) ops)
        (run_operation runtime request op (draws n) s.world)

-- The response of the route: `headSeq` and the results.
pub record Response : Type 0 where
  pub head_seq : ℕ
  pub results : List StoredBody

abbrev pub head_seq_of : Option SessionRow → ℕ
head_seq_of none = 0
head_seq_of (some row) = row.event_seq

abbrev pub respond : Text → Outcome Served (List StoredBody) → Outcome Served Response
respond id (done results s) =
    done (record { head_seq = head_seq_of (find_session s.world.database id); results = results }) s
respond id (raised fault s) = raised fault s

-- The checks of the body before the first operation.
unfoldable pub read_batch :
    Runtime → Text → Option Json → Json → Database → Result (Request × List Operation)
read_batch runtime user_id session_param body db = do
  session_id ← normalize_stable_id session_param
  fields ← require_json_object body
  reject_unknown_keys fields ("protocolVersion" ∷ "deviceId" ∷ "operations" ∷ [])
  require (leb (runtime.byte_length (runtime.stringify body)) 1048576) 413 payload_too_large
  device_id ← uuid_field fields "deviceId"
  operations ← parse_operations runtime fields
  _ ← read_session_access_including_deleted db session_id user_id
  ok (record { session_id = session_id; user_id = user_id; device_id = device_id }, operations)

-- The route, for an authenticated user that the rate limiter has let through.
unfoldable pub post_mutations :
    Runtime → (ℕ → Draws) → Text → Option Json → Json → Served → Outcome Served Response
post_mutations runtime draws user_id session_param body s =
    attempt (read_batch runtime user_id session_param body s.world.database) s
      (λ (request, operations).
        respond request.session_id (run_operations runtime request draws 0 operations s))
