-- ===== src/Tests/Batches.antt =====
-- The theorems on batches and pages at concrete inputs.
use open_log_tool_server.Base.{
  ℕ, ◌≤◌, Text, true, [], ◌∷◌, none, some, codes, text_eq, ◌≡◌, refl, trim, trim_start, is_space,
}
use open_log_tool_server.Base.Json.{string, object, get}
use open_log_tool_server.Base.Table.{select, modify, changes}
use open_log_tool_server.Base.Outcome.{ok, done, state, attempt, Outcome}
use open_log_tool_server.Validation.{is_stable_id, normalize_stable_id}
use open_log_tool_server.Collaboration.Rows.{rejected, mutation_body}
use open_log_tool_server.Base.Outcome.{not_found}
use open_log_tool_server.Collaboration.Access.{
  find_session, find_membership_including_removed, check_membership, require_membership,
}
use open_log_tool_server.Collaboration.Events.{
  allocate_seq, insert_event, insert_with_seq, append_session_event, read_events_after,
}
use open_log_tool_server.Collaboration.Events.Gapless.{IsGapless, append-IsGapless}
use open_log_tool_server.Collaboration.Idempotency.{read_stored_response, store_response}
use open_log_tool_server.Sync.Operation.{assert_only_payload, accept}
use open_log_tool_server.Sync.Logs.{
  check_open, assert_log_writable, read_log, accept_written, write_log, log_change, log_delete,
  log_existing, mutate_log,
}
use open_log_tool_server.Sync.Sessions.{World}
use open_log_tool_server.Sync.Batch.{
  Committed, request_hash, commit, mutate_entity, mutate, mutate_and_store, run_typed, run_new,
  run_operation,
}
use open_log_tool_server.Sync.Route.{Served, post_mutations}
use open_log_tool_server.Sync.Access.{read_session_access_including_deleted}
use open_log_tool_server.Sync.Batch.History.{Sent, after_all, after_all-repeated}
use open_log_tool_server.Sync.Batch.Replay.{run_operation-repeated}
use open_log_tool_server.Sync.Batch.Transaction.{Transacts, run_operation-Transacts}
use open_log_tool_server.Sync.Batch.Published.{Serves, served, post_mutations-Serves}
use open_log_tool_server.Sync.CatchUp.{
  Page, page_of, parse_query_integer, check_cursor, read_page, get_events,
}
use open_log_tool_server.Sync.CatchUp.Pages.{Follows, get_events-Follows}
use open_log_tool_server.Tests.Data.{
  runtime, running, db, db-IsGapless, world, request, draws, deletion, batch_fields, input,
  appended, value_or,
}

abbrev begin : Served
begin = record { world = world; published = [] }

post_mutations-Serves_example : Serves begin (
    served (
      post_mutations runtime draws
        (codes "ann")
        (some (string (codes "s1")))
        (object batch_fields)
        begin))
post_mutations-Serves_example =
    post_mutations-Serves runtime draws (codes "ann") (some (string (codes "s1")))
      (object batch_fields) begin

run_operation-Transacts_example :
    Transacts runtime request deletion world
      (run_operation runtime request deletion (draws 0) world)
run_operation-Transacts_example = run_operation-Transacts runtime request deletion (draws 0) world

abbrev first_run : Outcome World Committed
first_run = run_operation runtime request deletion (draws 0) world

abbrev committed : Committed
committed =
    value_or
      (record { result = mutation_body (rejected [] not_found); event = none; replayed = true })
      first_run

ran : first_run ≡ done committed (state first_run)
unfolding run_operation run_new run_typed mutate_and_store mutate mutate_entity commit
    store_response read_stored_response request_hash attempt require_membership check_membership
    find_session find_membership_including_removed select modify changes text_eq mutate_log
    assert_log_writable check_open read_log log_existing log_change log_delete assert_only_payload
    write_log accept_written accept append_session_event insert_with_seq insert_event allocate_seq
    get
ran = refl

run_operation-repeated_example :
    (again : Committed) × (run_operation runtime request deletion (draws 7) (state first_run)
      ≡ done again (state first_run))
    × (again.result ≡ committed.result)
    × (again.event ≡ none)
run_operation-repeated_example =
    run_operation-repeated runtime request deletion (draws 0) (draws 7) world (state first_run)
      (state first_run) committed ran refl

grown : IsGapless (state appended)
unfolding append_session_event insert_with_seq insert_event allocate_seq find_session select modify
    changes text_eq
grown = append-IsGapless input db _ (state appended) db-IsGapless refl

abbrev page : Page
page =
    page_of 0 (record running { event_seq = 1; updated_at = 100 })
      (read_events_after (state appended) (codes "s1") 0 (some 500))

read : get_events (state appended) (codes "ann") (some (string (codes "s1"))) none none ≡ ok page
unfolding get_events read_page parse_query_integer check_cursor
    read_session_access_including_deleted find_session find_membership_including_removed
    append_session_event insert_with_seq insert_event allocate_seq select modify changes text_eq
    normalize_stable_id is_stable_id trim trim_start is_space
read = refl

get_events-Follows_example :
    (id : Text) × (after : ℕ) × (limit : ℕ) × Follows (state appended) id after limit page
    × (1 ≤ limit)
    × (limit ≤ 500)
get_events-Follows_example =
    get_events-Follows (state appended) (codes "ann") (some (string (codes "s1"))) none none page
      grown read

-- The same batch, sent again by the same client.
abbrev resent : Sent
resent = record {
  draws = draws;
  user_id = codes "ann";
  session_param = some (string (codes "s1"));
  body = object batch_fields;
}

abbrev later_on : Served
later_on = record { world = state first_run; published = [] }

after_all-repeated_example :
    (again : Committed) × (run_operation runtime request deletion
        (draws 7)
        (after_all runtime (resent ∷ []) later_on).world
      ≡ done again (after_all runtime (resent ∷ []) later_on).world)
    × (again.result ≡ committed.result)
    × (again.event ≡ none)
after_all-repeated_example =
    after_all-repeated runtime request deletion (draws 0) (draws 7) world committed (resent ∷ [])
      later_on ran
