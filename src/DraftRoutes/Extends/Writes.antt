-- ===== src/DraftRoutes/Extends/Writes.antt =====
-- The routes of the live draft that write the draft, by the rules of Extends.
use open_log_tool_server.Base.{ℕ, ◌+◌, Text, List, [], ◌∷◌, Option, none, some}
use open_log_tool_server.Base.Json.{Json, Fields}
use open_log_tool_server.Base.Runtime.{Runtime}
use open_log_tool_server.Base.Run.{Run}
use open_log_tool_server.LiveDraft.{Field}
use open_log_tool_server.Collaboration.Drafts.{Draft, Revisions, DeviceState}
use open_log_tool_server.Collaboration.Rows.{
  StoredBody, mutation_body, commit_body, discard_body, select_body, SelectBody, Event,
  StoredMutation,
}
use open_log_tool_server.DraftRoutes.Parse.{Update}
use open_log_tool_server.DraftRoutes.Room.{Room, Draws}
use open_log_tool_server.DraftRoutes.Store.{LiveDraftRow}
use open_log_tool_server.DraftRoutes.Steps.{CommitInput, reset_draft, busy, assert_no_foreign_locks}
use open_log_tool_server.DraftRoutes.Selecting.{
  SelectRequest, Selected, select_candidate, after_select, publish_released,
}
use open_log_tool_server.DraftRoutes.Patching.{
  PatchRequest, Patched, check_updates, apply_updates, confirm_update, after_state,
  patch_transaction, consume_each, after_patch, run_patch, patch_live_draft, field_conflict,
}
use open_log_tool_server.DraftRoutes.Committing.{
  CommitRequest, Commit, version_conflict, already_committed, wrong_version, write_commit,
  commit_new, once, or_stored, commit_transaction, clear_managers, after_commit, run_commit,
}
use open_log_tool_server.DraftRoutes.Discarding.{
  discard_new, discard_transaction, after_discard, run_discard,
}
use open_log_tool_server.DraftRoutes.Ending.{commit_live_draft, discard_live_draft}
use open_log_tool_server.DraftRoutes.Extends.{
  Within, Within-bind, Within-then, Within-when, Within-on_locks, Within-with_locks,
  Within-publish_control,
}
use open_log_tool_server.DraftRoutes.Extends.Routes.{statements, select_transaction-Within}

publish_released-Within :
    (session : Text) (now : ℕ) (released : List (Field × Text))
    → Within (publish_released session now released)
unfolding publish_released
publish_released-Within session now [] = search statements
publish_released-Within session now ((field, lease) ∷ rest) =
    Within-then _ _ (Within-publish_control _) (publish_released-Within session now rest)

reset_draft-Within :
    (now : ℕ) (draft_id : Text) (current : Draft) (actor : Text) (input : Option CommitInput)
    → Within (reset_draft now draft_id current actor input)
unfolding reset_draft
reset_draft-Within now draft_id current actor input = search statements depth 20

busy-Within : (session : Text) → Within (busy session)
unfolding busy
busy-Within session = search statements depth 20

no_foreign_locks-Within :
    (now : ℕ) (session user device : Text)
    → Within (assert_no_foreign_locks now session user device)
unfolding assert_no_foreign_locks
no_foreign_locks-Within now session user device = search (statements, busy-Within)

version_conflict-Within : (current : LiveDraftRow) → Within (version_conflict current)
unfolding version_conflict
version_conflict-Within current = search statements

already_committed-Within : (by : Option Text) → Within (already_committed by)
unfolding already_committed
already_committed-Within none = search statements
already_committed-Within (some []) = search statements
already_committed-Within (some (c ∷ s)) = search statements

wrong_version-Within :
    (current : LiveDraftRow) (expected : ℕ) → Within (wrong_version current expected)
unfolding wrong_version
wrong_version-Within current expected =
    search (statements, version_conflict-Within, already_committed-Within)

field_conflict-Within : (current : LiveDraftRow) → Within (field_conflict current)
unfolding field_conflict
field_conflict-Within current = search statements

module _ (draws : Draws) (user : Text) where
  after_select-Within :
      (request : SelectRequest) (selected : Selected) (body : SelectBody)
      → Within (after_select draws user request selected body)
  unfolding after_select
  after_select-Within request selected body = search (statements, publish_released-Within) depth 20

  pub select_candidate-Within :
      (runtime : Runtime) (query : Fields) (session_param preview_param : Option Json)
      (key : Option Text) (body : Json)
      → Within (select_candidate draws user runtime query session_param preview_param key body)
  unfolding select_candidate
  select_candidate-Within runtime query session_param preview_param key body =
      search (statements, select_transaction-Within, after_select-Within) depth 40

module _ (draws : Draws) (user : Text) (request : PatchRequest) where
  check_updates-Within :
      (current : LiveDraftRow) (n : ℕ) (updates : List Update) (revs : Revisions)
      → Within (check_updates draws user request current n updates revs)
  unfolding check_updates
  check_updates-Within current n [] revs = search statements
  check_updates-Within current n (update ∷ rest) revs = Within-bind _ _ (Within-on_locks _) λ _.
      Within-then _ _ (Within-when _ _ (field_conflict-Within current))
        (check_updates-Within current (n + 1) rest _)

  apply_updates-Within :
      (current : LiveDraftRow) → Within (apply_updates draws user request current)
  unfolding apply_updates
  apply_updates-Within current = search (statements, check_updates-Within) depth 40

  confirm_update-Within :
      (current : LiveDraftRow) (state : DeviceState)
      → Within (confirm_update draws user request current state)
  unfolding confirm_update
  confirm_update-Within current state = search statements

  after_state-Within :
      (current : LiveDraftRow) (state : Option DeviceState)
      → Within (after_state draws user request current state)
  unfolding after_state
  after_state-Within current none = apply_updates-Within current
  after_state-Within current (some state) =
      search (statements, apply_updates-Within, confirm_update-Within)

  patch_transaction-Within : Within (patch_transaction draws user request)
  unfolding patch_transaction
  patch_transaction-Within = search (statements, after_state-Within) depth 20

  consume_each-Within : (updates : List Update) → Within (consume_each draws user request updates)
  unfolding consume_each
  consume_each-Within [] = search statements
  consume_each-Within (update ∷ rest) =
      Within-bind _ _ (Within-with_locks _) (λ _. consume_each-Within rest)

  after_patch-Within : (result : Patched) → Within (after_patch draws user request result)
  unfolding after_patch
  after_patch-Within result =
      search (statements, consume_each-Within, publish_released-Within) depth 20

  run_patch-Within : Within (run_patch draws user request)
  unfolding run_patch
  run_patch-Within = search (statements, patch_transaction-Within, after_patch-Within)

pub patch_live_draft-Within :
    (runtime : Runtime) (draws : Draws) (user : Text) (query : Fields) (session_param : Option Json)
    (prefer : Option Text) (body : Json)
    → Within (patch_live_draft runtime draws user query session_param prefer body)
unfolding patch_live_draft
patch_live_draft-Within runtime draws user query session_param prefer body =
    search (statements, run_patch-Within)

module _ (draws : Draws) (user : Text) (request : CommitRequest) where
  write_commit-Within : (current : LiveDraftRow) → Within (write_commit draws user request current)
  unfolding write_commit
  write_commit-Within current = search (statements, reset_draft-Within) depth 40

  commit_new-Within : Within (commit_new draws user request)
  unfolding commit_new
  commit_new-Within =
      search (statements, no_foreign_locks-Within, wrong_version-Within, write_commit-Within) depth
        40

  discard_new-Within : Within (discard_new draws user request)
  unfolding discard_new
  discard_new-Within =
      search (statements, no_foreign_locks-Within, version_conflict-Within, reset_draft-Within)
        depth 40

  or_stored-Within :
      (run : Run Room Commit) (stored : Option StoredMutation)
      → Within run
      → Within (or_stored draws user request run stored)
  unfolding or_stored
  or_stored-Within run none w = w
  or_stored-Within run (some row) w = search statements

  once-Within : (run : Run Room Commit) → Within run → Within (once draws user request run)
  unfolding once
  once-Within run w = search (statements, or_stored-Within) depth 20

  clear_managers-Within : Within (clear_managers draws user request)
  unfolding clear_managers
  clear_managers-Within = search statements

  after_commit-Within :
      (body : StoredBody) (event : Option Event)
      → Within (after_commit draws user request body event)
  unfolding after_commit
  after_commit-Within (commit_body body) (some event) =
      search (statements, clear_managers-Within) depth 20
  after_commit-Within (commit_body body) none = clear_managers-Within
  after_commit-Within (mutation_body body) event = clear_managers-Within
  after_commit-Within (discard_body body) event = clear_managers-Within
  after_commit-Within (select_body body) event = clear_managers-Within

  run_commit-Within : Within (run_commit draws user request)
  unfolding run_commit commit_transaction
  run_commit-Within =
      search (statements, once-Within, commit_new-Within, after_commit-Within) depth 20

  after_discard-Within : (body : StoredBody) → Within (after_discard draws user request body)
  unfolding after_discard
  after_discard-Within (discard_body body) = search (statements, clear_managers-Within) depth 20
  after_discard-Within (commit_body body) = clear_managers-Within
  after_discard-Within (mutation_body body) = clear_managers-Within
  after_discard-Within (select_body body) = clear_managers-Within

  run_discard-Within : Within (run_discard draws user request)
  unfolding run_discard discard_transaction
  run_discard-Within =
      search (statements, once-Within, discard_new-Within, after_discard-Within) depth 20

module _ (runtime : Runtime) (query : Fields) (session_param : Option Json) (key : Option Text)
    (body : Json) (draws : Draws) (user : Text) where
  pub commit_live_draft-Within :
      Within (commit_live_draft runtime query session_param key body draws user)
  unfolding commit_live_draft
  commit_live_draft-Within = search (statements, run_commit-Within)

  pub discard_live_draft-Within :
      Within (discard_live_draft runtime query session_param key body draws user)
  unfolding discard_live_draft
  discard_live_draft-Within = search (statements, run_discard-Within)
