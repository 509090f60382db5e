-- ===== src/Sync/Operation.antt =====
-- One operation of a batch, the checks that its handlers share, and their result.
use open_log_tool_server.Base.{
  ℕ, Text, String, Bool, not, ◌||◌, List, Option, some, codes, text_eq, is_some,
}
use open_log_tool_server.Base.Json.{Fields, get}
use open_log_tool_server.Base.Outcome.{
  Result, validation_failed, ◌>>◌, require, Outcome, and_then, done,
}
use open_log_tool_server.Validation.{includes}
use open_log_tool_server.Collaboration.Rows.{
  LogRow, LogDto, SessionRow, SessionDto, EventType, EntityType, Payload, Event, MutationResult,
  accepted, Database,
}
use open_log_tool_server.Collaboration.Events.{append_session_event}

-- MutationOperation.
pub record Operation : Type 0 where
  pub raw : Fields
  pub mutation_id : Text
  pub entity_type : EntityType
  pub entity_id : Text
  pub operation : Text
  pub base_version : ℕ

-- Who sends an operation, and what its handler draws from its surroundings: the time, the
-- identifiers of `randomUUID()`, the time that the lock manager reads and the time at which the
-- response is stored.
pub record Call : Type 0 where
  pub user_id : Text
  pub device_id : Text
  pub now : ℕ
  pub event_id : Text
  pub draft_id : Text
  pub locks_now : ℕ
  pub stored_at : ℕ

abbrev pub is_op : Operation → String → Bool
is_op op name = text_eq op.operation (codes name)

-- What `mutateLog` and `mutateSession` return.
pub record Mutated : Type 0 where
  pub result : MutationResult
  pub event : Option Event

abbrev pub log_dto : LogRow → LogDto
log_dto row = record {
  sync_id = row.sync_id;
  session_id = row.session_id;
  version = row.version;
  value = row.value;
  created_by = row.created_by;
  updated_by = row.updated_by;
  created_at = row.created_at;
  updated_at = row.updated_at;
  deleted_at = row.deleted_at;
}

abbrev pub session_event_dto : SessionRow → SessionDto
session_event_dto row = record {
  session_id = row.id;
  title = row.title;
  status = row.status;
  version = row.version;
  created_at = row.created_at;
  updated_at = row.updated_at;
  closed_at = row.closed_at;
  deleted_at = row.deleted_at;
}

-- `assertOnlyPayload` looks at one field.
abbrev payload_allowed : Fields → List String → String → Bool
payload_allowed raw allowed field = not (is_some (get field raw)) || includes allowed field

unfoldable pub assert_only_payload : Operation → List String → Result (Unit {0})
assert_only_payload op allowed = do
  require (payload_allowed op.raw allowed "value") 422 validation_failed
  require (payload_allowed op.raw allowed "patch") 422 validation_failed
  require (payload_allowed op.raw allowed "confirm") 422 validation_failed

abbrev pub accepted_result : Operation → Event → Mutated
accepted_result op event = record { result = accepted op.mutation_id event; event = some event }

-- `accepted`: the event of an operation, and the result that carries it.
unfoldable pub accept :
    Operation
    → Call
    → Text
    → EventType
    → EntityType
    → ℕ
    → Payload
    → Database
    → Outcome Database Mutated
accept op call session_id type entity_type version payload db =
    and_then
      (append_session_event
        (record {
          event_id = call.event_id;
          session_id = session_id;
          type = type;
          entity_type = entity_type;
          entity_id = op.entity_id;
          entity_version = version;
          mutation_id = some op.mutation_id;
          actor_user_id = call.user_id;
          actor_device_id = some call.device_id;
          payload = payload;
          occurred_at = call.now;
        })
        db)
      (λ event db'. done (accepted_result op event) db')
