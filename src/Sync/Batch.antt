-- ===== src/Sync/Batch.antt =====
-- POST /:sessionId/mutations: one operation of a batch, in a transaction of its own.
pub mod Replay
pub mod Transaction
pub mod Published
pub mod History
use open_log_tool_server.Base.{
  ℕ, ◌+◌, Text, String, Bool, true, false, not, ◌&&◌, ◌||◌, List, [], ◌∷◌, ◌++◌, Option, none, some,
  codes, ltb, leb, if◌then◌else◌, is_some,
}
use open_log_tool_server.Base.Json.{Json, natural, string, object, Fields, end, field}
use open_log_tool_server.Base.Runtime.{Runtime}
use open_log_tool_server.Base.Outcome.{
  Result, ok, err, Fault, app_error, internal, Code, not_found, membership_revoked, forbidden,
  mutation_id_reused, payload_too_large, ◌>>=◌, ◌>>◌, require, Outcome, done, raised, attempt,
}
use open_log_tool_server.Validation.{
  require_json_object, reject_unknown_keys, uuid_field, normalize_stable_id,
}
use open_log_tool_server.LiveDraft.Locks
use open_log_tool_server.Collaboration.Rows.{
  Role, owner, Status, initializing, SessionRow, MembershipRow, EventType, session_closed,
  session_deleted, EntityType, session, log, Event, StoredBody, rejected, mutation_body,
  StoredMutation, Database,
}
use open_log_tool_server.Collaboration.Access.{
  same_role, find_session, find_membership_including_removed, require_membership,
}
use open_log_tool_server.Collaboration.Idempotency.{
  compute_request_hash, read_stored_response, store_response,
}
use open_log_tool_server.Sync.Operation.{Operation, Call, Mutated}
use open_log_tool_server.Sync.Parse.{parse_operations}
use open_log_tool_server.Sync.Logs.{mutate_log}
use open_log_tool_server.Sync.Sessions.{World, SessionOptions, mutate_session, is_initializing}
use open_log_tool_server.Sync.Access.{access_found, read_session_access_including_deleted}

-- What a batch has of its request.
pub record Request : Type 0 where
  pub session_id : Text
  pub user_id : Text
  pub device_id : Text

-- What one operation draws from its surroundings.
pub record Draws : Type 0 where
  pub now : ℕ
  pub event_id : Text
  pub draft_id : Text
  pub locks_now : ℕ
  pub stored_at : ℕ
  pub clear_now : ℕ

abbrev pub call_of : Request → Draws → Call
call_of request draws = record {
  user_id = request.user_id;
  device_id = request.device_id;
  now = draws.now;
  event_id = draws.event_id;
  draft_id = draws.draft_id;
  locks_now = draws.locks_now;
  stored_at = draws.stored_at;
}

-- What a transaction returns. A stored response is cast to a MutationResult, whatever it is.
pub record Committed : Type 0 where
  pub result : StoredBody
  pub event : Option Event
  pub replayed : Bool

-- `db.transaction`: an exception takes back what was written. The lock manager is no part of it.
abbrev pub transaction : {A : Type 0} → World → Outcome World A → Outcome World A
transaction w (done a w') = done a w'
transaction w (raised fault w') = raised fault (record w' { database = w.database })

abbrev pub in_world : {A : Type 0} → World → Outcome Database A → Outcome World A
in_world w (done a db) = done a (record w { database = db })
in_world w (raised fault db) = raised fault (record w { database = db })

abbrev pub ordinary : SessionOptions
ordinary = record { administrative = false; discard_live_draft = false }

module _ (runtime : Runtime) (request : Request) (op : Operation) where
  -- The `computeRequestHash` of one operation; the fields stand in the order of their keys.
  unfoldable pub request_hash : Text
  request_hash =
      compute_request_hash runtime (codes "MUTATION")
        (codes "/api/v1/sessions/" ++ request.session_id)
        (object (
          field "protocolVersion" (natural 1)
            (field "deviceId" (string request.device_id) (field "operation" (object op.raw) end))))

  abbrev pub stored_of : Draws → StoredBody → StoredMutation
  stored_of draws result = record {
    mutation_id = op.mutation_id;
    session_id = some request.session_id;
    user_id = request.user_id;
    device_id = some request.device_id;
    request_hash = request_hash;
    status_code = 200;
    response = result;
    created_at = draws.stored_at;
  }

  abbrev pub stored_then :
      StoredBody → Option Event → World → Outcome Database (Unit {0}) → Outcome World Committed
  stored_then result event w (done _ db) =
      done (record { result = result; event = event; replayed = false })
        (record w { database = db })
  stored_then result event w (raised fault db) = raised fault (record w { database = db })

  -- `storeResponse`, and what the transaction returns.
  unfoldable pub commit : Draws → StoredBody → Option Event → World → Outcome World Committed
  commit draws result event w =
      stored_then result event w (store_response (stored_of draws result) w.database)

  -- `mutateLog` or `mutateSession`, by the type of the entity.
  unfoldable pub mutate_entity :
      Draws → World → SessionRow → Role → EntityType → Outcome World Mutated
  mutate_entity draws w row role log =
      in_world w (mutate_log runtime row op (call_of request draws) role false w.database)
  mutate_entity draws w row role session =
      mutate_session row op (call_of request draws) ordinary role w

  unfoldable pub mutate : Draws → World → Outcome World Mutated
  mutate draws w =
      attempt (require_membership w.database request.session_id request.user_id none) w
        (λ (row, membership). mutate_entity draws w row membership.role op.entity_type)

  -- An AppError below 500 becomes the operation's result; anything else is thrown again.
  abbrev pub caught : Draws → Outcome World Mutated → Outcome World Committed
  caught draws (done m w) = commit draws (mutation_body m.result) m.event w
  caught draws (raised (app_error status code) w) =
      if leb 500 status
      then raised (app_error status code) w
      else commit draws (mutation_body (rejected op.mutation_id code)) none w
  caught draws (raised internal w) = raised internal w

  unfoldable pub mutate_and_store : Draws → World → Outcome World Committed
  mutate_and_store draws w = caught draws (mutate draws w)

  -- An operation that has no stored response. Session metadata is for the owner.
  unfoldable pub run_typed : Draws → World → EntityType → Outcome World Committed
  run_typed draws w log = mutate_and_store draws w
  run_typed draws w session =
      attempt (read_session_access_including_deleted w.database request.session_id request.user_id)
        w
        (λ access.
          if same_role access.1.role owner
          then mutate_and_store draws w
          else commit draws (mutation_body (rejected op.mutation_id forbidden)) none w)

  unfoldable pub run_new : Draws → World → Outcome World Committed
  run_new draws w = run_typed draws w op.entity_type

  abbrev pub answered : Draws → World → Result (Option StoredMutation) → Outcome World Committed
  answered draws w (ok none) = run_new draws w
  answered draws w (ok (some stored)) =
      done (record { result = stored.response; event = none; replayed = true }) w
  answered draws w (err (app_error status mutation_id_reused)) =
      done
        (record {
          result = mutation_body (rejected op.mutation_id mutation_id_reused);
          event = none;
          replayed = false;
        })
        w
  answered draws w (err fault) = raised fault w

  -- The body of one transaction.
  unfoldable pub run_operation : Draws → World → Outcome World Committed
  run_operation draws w = transaction w (
      answered draws w
        (read_stored_response w.database op.mutation_id request.user_id request_hash))
