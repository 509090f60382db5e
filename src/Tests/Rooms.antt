-- ===== src/Tests/Rooms.antt =====
-- The theorems on the live draft routes at concrete inputs.
use open_log_tool_server.Base.{
  ◌+◌, ◌≤◌, Text, true, false, [], ◌∷◌, ◌++◌, none, some, codes, text_eq, ◌≡◌, refl, arith, ℕ, trim,
  trim_start, is_space,
}
use open_log_tool_server.Base.Dict.{lookup, put, erase}
use open_log_tool_server.Base.Json.{
  natural, string, array, object, nil, cons, Fields, end, field, get,
}
use open_log_tool_server.Base.Lists.{All}
use open_log_tool_server.Base.Table.{select, select_all, modify, changes, delete}
use open_log_tool_server.Base.Outcome.{Outcome, ok, done, state, not_found, raised}
use open_log_tool_server.Base.Run.{continue, reading, demand, when}
use open_log_tool_server.LiveDraft.{callsign}
use open_log_tool_server.LiveDraft.Locks.{
  empty, acquire, acquire_pruned, get_field, get_lease, store, prune, filter_locks, stored_where,
  remove_all, assert_lease, remove, list, sort_by_field, insert_by_field,
}
use open_log_tool_server.Validation.{
  max_safe_integer, require_json_object, reject_unknown_keys, non_negative_integer,
  normalize_stable_id, uuid_field, optional_uuid, optional_string, require_string, fits, to_lower,
  is_stable_id,
}
use open_log_tool_server.Collaboration.Drafts.{Draft, Revisions}
use open_log_tool_server.Collaboration.Rows.{mutation_body, rejected}
use open_log_tool_server.Collaboration.Access.{
  find_session, find_membership_including_removed, check_membership, require_membership,
}
use open_log_tool_server.Collaboration.Events.{
  allocate_seq, insert_event, insert_with_seq, append_session_event,
}
use open_log_tool_server.Collaboration.Idempotency.{
  read_stored_response, store_response, require_idempotency_key, compute_request_hash,
}
use open_log_tool_server.Sync.Logs.{read_log}
use open_log_tool_server.DraftRoutes.Parse.{
  Update, parse_updates, parse_each, parse_update, live_draft_field, canonical_field_value,
  positive_integer,
}
use open_log_tool_server.DraftRoutes.Parse.Accepted.{DistinctFields, parse_updates-DistinctFields}
use open_log_tool_server.DraftRoutes.Previews.{
  PreviewInput, preview_of, current_preview, publish_preview,
}
use open_log_tool_server.DraftRoutes.Previews.Shown.{current_preview-publish}
use open_log_tool_server.DraftRoutes.Room.{
  Room, Draws, on_database, on_locks, with_locks, transaction, publish_event, publish_control,
  with_previews,
}
use open_log_tool_server.DraftRoutes.Store.{
  json_of_revisions, revisions, read_revisions, revision_at, require_draft_access,
  check_draft_access, ensure_draft, read_draft, draft_dto, count_logs,
}
use open_log_tool_server.DraftRoutes.Store.Stored.{revisions-json_of_revisions}
use open_log_tool_server.DraftRoutes.Steps.{
  update_draft, touch_session, reset_draft, check_draft_id, assert_no_foreign_locks,
}
use open_log_tool_server.DraftRoutes.Patching.{
  PatchRequest, Patched, patch_transaction, apply_updates, after_state, check_updates, set_updates,
  patched_row, upsert_device_state,
}
use open_log_tool_server.DraftRoutes.Patching.Effect.{Updated, patch_transaction-Updated}
use open_log_tool_server.DraftRoutes.Committing.{
  CommitRequest, Commit, once, or_stored, write_commit, commit_new, commit_transaction, run_commit,
  after_commit, clear_managers,
}
use open_log_tool_server.DraftRoutes.Discarding.{discard_transaction}
use open_log_tool_server.DraftRoutes.Committing.Fate.{Fate, commit_transaction-Fate}
use open_log_tool_server.DraftRoutes.Committing.Repeat.{commit_transaction-repeated}
use open_log_tool_server.DraftRoutes.Discarding.Fate.{DiscardFate, discard_transaction-DiscardFate}
use open_log_tool_server.DraftRoutes.Extends.{Extends}
use open_log_tool_server.DraftRoutes.Reach.{Requests, none_yet, then_one, commits, Requests-Extends}
use open_log_tool_server.DraftRoutes.Ending.{commit_live_draft, read_commit}
use open_log_tool_server.Sync.Drafts.{empty_fields}
use open_log_tool_server.DraftRoutes.Locking.{read_session_param, read_body}
use open_log_tool_server.Tests.Data.{runtime, running, ann, db, mutation_text, value_or}
use open_log_tool_server.Tests.Drafts.{locked}

abbrev counted : Revisions
counted f = 4

abbrev draft : Draft
draft = record {
  session_id = codes "s1";
  draft_id = codes "d1";
  version = 5;
  fields = record empty_fields {
    time = some (codes "12:00");
    controller = some (codes "A");
    callsign = some (codes "B");
  };
  field_revisions = some (json_of_revisions counted);
  last_updated_by = none;
  created_at = 10;
  last_updated_at = 10;
  last_committed_draft_id = none;
  last_committed_version = none;
  last_committed_by = none;
  last_committed_at = none;
  last_committed_sync_id = none;
}

-- The callsign is locked by the user's own device.
abbrev room : Room
room = record {
  database = record db { drafts = draft ∷ []; device_states = [] };
  locks = locked;
  previews = [];
  published = [];
  controls = [];
}

abbrev draws : Draws
draws = record { at = λ n. 100 + n; uuid = λ n. codes "u" ++ (48 + n) ∷ [] }

revisions-json_of_revisions_example : revisions draft ≡ ok counted
revisions-json_of_revisions_example =
    revisions-json_of_revisions draft counted refl (λ f. omega arith)

abbrev preview_input : PreviewInput
preview_input = record {
  session_id = codes "s1";
  draft_id = codes "d1";
  device_id = codes "d";
  callsign = codes "B";
  actor_user_id = codes "ann";
  actor_username = codes "Ann";
  candidates = [];
}

current_preview-publish_example :
    ((current_preview 300 (codes "s1") (publish_preview 100 (codes "p") preview_input []).1).0
      ≡ some (preview_of 100 (codes "p") preview_input))
    × ((other : Text)
        → ¬ (codes "s1" ≡ other)
        → (current_preview 300 other (publish_preview 100 (codes "p") preview_input []).1).0
          ≡ (current_preview 300 other []).0)
current_preview-publish_example = current_preview-publish 100 300 (codes "p") preview_input []

abbrev update_json : Fields
update_json = field "field" (string (codes "callsign")) (
    field "value" (string (codes "B2"))
      (field "expectedRevision" (natural 4) (field "leaseId" (string (codes "l1")) end)))

abbrev update : Update
update = record {
  field = callsign;
  value = some (codes "B2");
  expected_revision = 4;
  lease_id = codes "l1";
}

parsed : parse_updates runtime (some (array (cons (object update_json) nil))) ≡ ok (update ∷ [])
unfolding parse_updates parse_each parse_update require_json_object reject_unknown_keys
    live_draft_field get text_eq canonical_field_value non_negative_integer normalize_stable_id
parsed = refl

parse_updates-DistinctFields_example :
    (1 ≤ 1)
    × (1 ≤ 11)
    × DistinctFields (update ∷ [])
    × All (λ (u : Update). u.expected_revision ≤ max_safe_integer) (update ∷ [])
parse_updates-DistinctFields_example =
    parse_updates-DistinctFields runtime (some (array (cons (object update_json) nil)))
      (update ∷ []) parsed

abbrev patch : PatchRequest
patch = record {
  session_id = codes "s1";
  device_id = codes "d";
  client_seq = 1;
  updates = update ∷ [];
  consume_leases = false;
  request_hash = codes "h";
}

abbrev patched : Outcome Room Patched
patched = patch_transaction draws (codes "ann") patch room

abbrev dummy : Patched
dummy = record {
  draft = record {
    draft_id = [];
    session_id = [];
    version = 0;
    fields = empty_fields;
    field_revisions = counted;
    last_updated_by = none;
    created_at = 0;
    last_updated_at = 0;
  };
  applied_client_seq = 0;
  updated_fields = [];
  released_leases = [];
  replayed = true;
}

patch_ran : patched ≡ done (value_or dummy patched) (state patched)
unfolding patch_transaction after_state apply_updates check_updates assert_lease patched_row
    set_updates upsert_device_state transaction continue reading require_draft_access
    require_membership find_session select text_eq find_membership_including_removed
    check_membership check_draft_access read_draft ensure_draft revisions erase lookup put get when
    changes modify select_all update_draft on_database on_locks touch_session draft_dto
    json_of_revisions read_revisions revision_at filter_locks get_lease get_field prune remove
    remove_all stored_where acquire acquire_pruned store empty
patch_ran = refl

patch_new : (value_or dummy patched).replayed ≡ false
unfolding patch_transaction after_state apply_updates check_updates assert_lease patched_row
    set_updates upsert_device_state transaction continue reading require_draft_access
    require_membership find_session select text_eq find_membership_including_removed
    check_membership check_draft_access read_draft ensure_draft revisions erase lookup put get when
    changes modify select_all update_draft on_database on_locks touch_session draft_dto
    json_of_revisions read_revisions revision_at filter_locks get_lease get_field prune remove
    remove_all stored_where acquire acquire_pruned store empty
patch_new = refl

patch_transaction-Updated_example :
    Updated patch
      (ensure_draft (codes "s1") (draws.uuid 0) 100 room.database)
      (state patched).database
      (value_or dummy patched)
patch_transaction-Updated_example =
    patch_transaction-Updated draws (codes "ann") patch room (state patched)
      (value_or dummy patched) patch_ran patch_new

abbrev commit : CommitRequest
commit = record {
  session_id = codes "s1";
  device_id = codes "d";
  expected_draft_version = 5;
  sync_id = codes "log2";
  mutation_id = codes "m2";
  request_hash = codes "h";
}

commit_transaction-Fate_example :
    Fate draws (codes "ann") commit room (commit_transaction draws (codes "ann") commit room)
commit_transaction-Fate_example = commit_transaction-Fate draws (codes "ann") commit room

discard_transaction-DiscardFate_example :
    DiscardFate draws
      (codes "ann")
      commit
      room
      (discard_transaction draws (codes "ann") commit room)
discard_transaction-DiscardFate_example =
    discard_transaction-DiscardFate draws (codes "ann") commit room

abbrev committed : Outcome Room Commit
committed = commit_transaction draws (codes "ann") commit room

abbrev no_commit : Commit
no_commit = record {
  status = 0;
  body = mutation_body (rejected [] not_found);
  event = none;
  replayed = true;
}

commit_ran : committed ≡ done (value_or no_commit committed) (state committed)
unfolding commit_transaction once or_stored commit_new write_commit read_stored_response
    store_response assert_no_foreign_locks with_locks list sort_by_field insert_by_field demand
    read_log append_session_event allocate_seq insert_with_seq insert_event reset_draft
    check_draft_id delete count_logs transaction continue reading require_draft_access
    require_membership find_session select text_eq find_membership_including_removed
    check_membership check_draft_access read_draft ensure_draft revisions erase lookup put get when
    changes modify select_all update_draft on_database on_locks touch_session draft_dto
    json_of_revisions read_revisions revision_at filter_locks get_lease get_field prune remove
    remove_all stored_where acquire acquire_pruned store empty
commit_ran = refl

may_write :
    require_draft_access (state committed).database (codes "s1") (codes "ann") true
    ≡ ok (record running { event_seq = 1; updated_at = 102 }, ann)
unfolding commit_transaction once or_stored commit_new write_commit read_stored_response
    store_response assert_no_foreign_locks with_locks list sort_by_field insert_by_field demand
    read_log append_session_event allocate_seq insert_with_seq insert_event reset_draft
    check_draft_id delete count_logs transaction continue reading require_draft_access
    require_membership find_session select text_eq find_membership_including_removed
    check_membership check_draft_access read_draft ensure_draft revisions erase lookup put get when
    changes modify select_all update_draft on_database on_locks touch_session draft_dto
    json_of_revisions read_revisions revision_at filter_locks get_lease get_field prune remove
    remove_all stored_where acquire acquire_pruned store empty
may_write = refl

commit_transaction-repeated_example :
    commit_transaction draws (codes "ann") commit (state committed)
    ≡ done
        (record {
          status = (value_or no_commit committed).status;
          body = (value_or no_commit committed).body;
          event = none;
          replayed = true;
        })
        (state committed)
commit_transaction-repeated_example =
    commit_transaction-repeated draws draws (codes "ann") commit room (state committed)
      (state committed) (value_or no_commit committed)
      (record running { event_seq = 1; updated_at = 102 }, ann) commit_ran may_write refl

-- Nobody holds a lock, and a commit comes with what it needs.
abbrev free_room : Room
free_room = record room { locks = empty }

abbrev commit_json : Fields
commit_json =
    field "deviceId" (string mutation_text)
      (field "expectedDraftVersion" (natural 5) (field "syncId" (string (codes "log2")) end))

abbrev by_route : Outcome Room Commit
by_route =
    commit_live_draft runtime end (some (string (codes "s1"))) (some mutation_text)
      (object commit_json) draws (codes "ann") free_room

abbrev status_of : Outcome Room Commit → ℕ
status_of (done c s) = c.status
status_of (raised fault s) = 0

by_route_commits : status_of by_route ≡ 201
unfolding commit_live_draft read_commit read_session_param read_body positive_integer uuid_field
    optional_uuid optional_string require_string fits to_lower require_json_object
    reject_unknown_keys normalize_stable_id is_stable_id trim trim_start is_space
    require_idempotency_key compute_request_hash run_commit after_commit clear_managers
    commit_transaction once or_stored commit_new write_commit read_stored_response store_response
    assert_no_foreign_locks with_locks list sort_by_field insert_by_field demand read_log
    append_session_event allocate_seq insert_with_seq insert_event reset_draft check_draft_id delete
    count_logs transaction continue reading require_draft_access require_membership find_session
    select text_eq find_membership_including_removed check_membership check_draft_access read_draft
    ensure_draft revisions erase lookup put get when changes modify select_all update_draft
    on_database on_locks touch_session draft_dto json_of_revisions read_revisions revision_at
    filter_locks get_lease get_field prune remove remove_all stored_where acquire acquire_pruned
    store empty with_previews publish_event publish_control
by_route_commits = refl

requests : Requests free_room (state by_route)
requests = then_one none_yet (
    commits runtime draws (codes "ann") end (some (string (codes "s1"))) (some mutation_text)
      (object commit_json))

Requests-Extends_example : Extends free_room.database (state by_route).database
Requests-Extends_example = Requests-Extends requests
