-- ===== src/Sync/Parse.antt =====
-- `parseOperations`: the operations of a batch.
pub mod Distinct
use open_log_tool_server.Base.{
  ℕ, Text, String, Bool, true, false, not, ◌&&◌, ◌||◌, List, [], ◌∷◌, Option, none, some, codes,
  text_eq, leb, ◌==◌, if◌then◌else◌, is_some, length, any,
}
use open_log_tool_server.Base.Json.{Json, natural, array, Fields, get, to_list}
use open_log_tool_server.Base.Runtime.{Runtime}
use open_log_tool_server.Base.Outcome.{
  Result, ok, err, app_error, validation_failed, ◌>>=◌, ◌>>◌, require,
}
use open_log_tool_server.Validation.{
  require_json_object, reject_unknown_keys, uuid_field, require_string, between,
  normalize_stable_id, non_negative_integer,
}
use open_log_tool_server.Validation.Timestamp.{validate_timestamp}
use open_log_tool_server.Collaboration.Rows.{EntityType, session, log}
use open_log_tool_server.Sync.Operation.{Operation}

-- OPERATION_KEYS.
abbrev pub operation_keys : List String
operation_keys =
    "mutationId" ∷ "entityType" ∷ "entityId" ∷ "operation" ∷ "baseVersion" ∷ "value" ∷ "patch"
    ∷ "confirm" ∷ "observedSeq" ∷ "queuedAt" ∷ []

unfoldable pub entity_type_of : Text → Result EntityType
entity_type_of s =
    if text_eq s (codes "log")
    then ok log
    else if text_eq s (codes "session")
    then ok session
    else err (app_error 422 validation_failed)

abbrev pub same_type : EntityType → EntityType → Bool
same_type session session = true
same_type log log = true
same_type _ _ = false

-- Two operations that name one entity.
abbrev pub same_entity : Operation → Operation → Bool
same_entity a b = same_type a.entity_type b.entity_type && text_eq a.entity_id b.entity_id

abbrev pub same_mutation : Operation → Operation → Bool
same_mutation a b = text_eq a.mutation_id b.mutation_id

unfoldable pub check_observed_seq : Option Json → Result (Unit {0})
check_observed_seq none = ok tt
check_observed_seq (some value) = non_negative_integer (some value) >>= λ _. ok tt

unfoldable pub check_queued_at : Runtime → Fields → Option Json → Result (Unit {0})
check_queued_at runtime value none = ok tt
check_queued_at runtime value (some _) = require_string value "queuedAt" (between 1 64) >>= λ text.
    validate_timestamp runtime text >>= λ _. ok tt

-- One item. The operations parsed so far stand for the two sets, which hold their keys.
unfoldable pub parse_operation : Runtime → List Operation → Json → Result Operation
parse_operation runtime seen raw = do
  value ← require_json_object raw
  reject_unknown_keys value operation_keys
  mutation_id ← uuid_field value "mutationId"
  require (not (any (λ (o : Operation). text_eq mutation_id o.mutation_id) seen)) 422
      validation_failed
  type_text ← require_string value "entityType" (between 3 7)
  entity_type ← entity_type_of type_text
  entity_id ← normalize_stable_id (get "entityId" value)
  require
      (not (
        any
          (λ (o : Operation). same_type entity_type o.entity_type && text_eq entity_id o.entity_id)
          seen))
      422 validation_failed
  operation ← require_string value "operation" (between 3 16)
  base_version ← non_negative_integer (get "baseVersion" value)
  check_observed_seq (get "observedSeq" value)
  check_queued_at runtime value (get "queuedAt" value)
  ok (record {
    raw = value;
    mutation_id = mutation_id;
    entity_type = entity_type;
    entity_id = entity_id;
    operation = operation;
    base_version = base_version;
  })

unfoldable pub parse_all : Runtime → List Operation → List Json → Result (List Operation)
parse_all runtime seen [] = ok []
parse_all runtime seen (raw ∷ rest) = parse_operation runtime seen raw >>= λ op.
    parse_all runtime (op ∷ seen) rest >>= λ ops. ok (op ∷ ops)

abbrev pub is_one : Option Json → Bool
is_one (some (natural n)) = n == 1
is_one _ = false

abbrev pub items_of : Option Json → Result (List Json)
items_of (some (array items)) = ok (to_list items)
items_of _ = err (app_error 422 validation_failed)

unfoldable pub parse_operations : Runtime → Fields → Result (List Operation)
parse_operations runtime body = do
  require (is_one (get "protocolVersion" body)) 422 validation_failed
  items ← items_of (get "operations" body)
  require (leb 1 (length items) && leb (length items) 100) 422 validation_failed
  parse_all runtime [] items
