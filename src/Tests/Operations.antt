-- ===== src/Tests/Operations.antt =====
-- The theorems on single operations at concrete inputs.
use open_log_tool_server.Base.{
  ◌≤◌, length, false, [], ◌∷◌, none, some, codes, text_eq, ◌≡◌, refl, trim, trim_start, is_space,
}
use open_log_tool_server.Base.Json.{Json, natural, string, object, end, field, get}
use open_log_tool_server.Base.Table.{select}
use open_log_tool_server.Base.Outcome.{ok, done, attempt}
use open_log_tool_server.Validation.{
  require_json_object, reject_unknown_keys, require_string, optional_string, optional_uuid,
  uuid_field, fits, to_lower, non_negative_integer, is_stable_id, normalize_stable_id,
}
use open_log_tool_server.Collaboration.Rows.{owner}
use open_log_tool_server.Collaboration.Access.{
  find_session, find_membership_including_removed, check_membership, require_membership,
}
use open_log_tool_server.Sync.Operation.{Operation, assert_only_payload}
use open_log_tool_server.Sync.Parse.{
  same_mutation, same_entity, entity_type_of, parse_operation, parse_all, parse_operations,
  check_observed_seq, check_queued_at,
}
use open_log_tool_server.Sync.Parse.Distinct.{Distinct, parse_operations-Distinct}
use open_log_tool_server.Sync.Logs.{mutate_log}
use open_log_tool_server.Sync.Logs.Fate.{Fate}
use open_log_tool_server.Sync.Logs.Mutate.{mutate_log-Fate}
use open_log_tool_server.Sync.Sessions.{
  World, mutate_session, session_delete, delete_session, deleted_change,
}
use open_log_tool_server.Sync.Sessions.Fate.{SessionFate, mutate_session-Fate}
use open_log_tool_server.Sync.Sessions.Purge.{Purged, session_delete-Purged}
use open_log_tool_server.Sync.Batch.{ordinary}
use open_log_tool_server.Sync.CatchUp.{check_cursor}
use open_log_tool_server.Sync.Tickets.{
  TicketCall, TicketRequest, response_of, read_ticket_request, check_ticket, write_ticket,
  post_ws_ticket,
}
use open_log_tool_server.Sync.Tickets.Issue.{Issued, post_ws_ticket-Issued}
use open_log_tool_server.LiveDraft.Locks.{empty}
use open_log_tool_server.Tests.Data.{
  runtime, running, finished, ann, db, database_of, world, call, deletion, batch_fields, on_session,
  mutation_text,
}

mutate_log-Fate_example :
    Fate (codes "s1") deletion db (mutate_log runtime running deletion call owner false db)
mutate_log-Fate_example = mutate_log-Fate runtime running deletion call db owner false

abbrev closing : Operation
closing = on_session "close" end

is_there : find_session db (codes "s1") ≡ some running
unfolding find_session select text_eq
is_there = refl

mutate_session-Fate_example :
    SessionFate running closing world (mutate_session running closing call ordinary owner world)
mutate_session-Fate_example =
    mutate_session-Fate running closing call ordinary world is_there refl owner

abbrev removing : Operation
removing = on_session "delete" end

abbrev ended : World
ended = record { database = database_of finished; locks = empty }

abbrev left : World
left = record ended { database = delete_session finished removing call ordinary ended.database }

removed :
    session_delete finished removing call ordinary ended
    ≡ done (deleted_change finished removing call ordinary ended.database) left
unfolding session_delete attempt assert_only_payload get
removed = refl

session_delete-Purged_example :
    Purged finished ended.database
      (deleted_change finished removing call ordinary ended.database)
      left.database
session_delete-Purged_example =
    session_delete-Purged finished removing call ordinary ended
      (deleted_change finished removing call ordinary ended.database) left removed

parsed : parse_operations runtime batch_fields ≡ ok (deletion ∷ [])
unfolding parse_operations parse_all parse_operation entity_type_of check_observed_seq
    check_queued_at get require_json_object reject_unknown_keys require_string optional_string
    optional_uuid uuid_field fits to_lower non_negative_integer is_stable_id normalize_stable_id
    text_eq trim trim_start is_space
parsed = refl

parse_operations-Distinct_example :
    (1 ≤ length (deletion ∷ []))
    × (length (deletion ∷ []) ≤ 100)
    × Distinct same_mutation (deletion ∷ [])
    × Distinct same_entity (deletion ∷ [])
parse_operations-Distinct_example =
    parse_operations-Distinct runtime batch_fields (deletion ∷ []) parsed

abbrev ticket_call : TicketCall
ticket_call = record {
  user_id = codes "ann";
  auth_session_id = none;
  expires_at_epoch_seconds = 900;
  now = 100000000;
  ticket = codes "secret";
  ticket_id = codes "t1";
}

abbrev asked : TicketRequest
asked = record { session_id = codes "s1"; device_id = mutation_text; after_seq = 0 }

abbrev ticket_body : Json
ticket_body = object (field "deviceId" (string mutation_text) (field "afterSeq" (natural 0) end))

issued :
    post_ws_ticket runtime ticket_call (some (string (codes "s1"))) ticket_body db
    ≡ done (response_of ticket_call asked ann) (write_ticket runtime ticket_call asked ann db)
unfolding post_ws_ticket attempt read_ticket_request check_ticket check_cursor require_membership
    check_membership find_session find_membership_including_removed select get require_json_object
    reject_unknown_keys require_string optional_string optional_uuid uuid_field fits to_lower
    non_negative_integer is_stable_id normalize_stable_id text_eq trim trim_start is_space
issued = refl

post_ws_ticket-Issued_example :
    Issued runtime ticket_call db
      (response_of ticket_call asked ann)
      (write_ticket runtime ticket_call asked ann db)
post_ws_ticket-Issued_example =
    post_ws_ticket-Issued runtime ticket_call (some (string (codes "s1"))) ticket_body db
      (response_of ticket_call asked ann) (write_ticket runtime ticket_call asked ann db) issued
