-- ===== src/DraftRoutes/Extends/Routes.antt =====
-- Each route of the live draft, by the rules of Extends.
use open_log_tool_server.Base.{ℕ, Text, List, Option, none, some}
use open_log_tool_server.Base.Json.{Json, Fields}
use open_log_tool_server.Base.Runtime.{Runtime}
use open_log_tool_server.LiveDraft.{Field}
use open_log_tool_server.LiveDraft.Locks.{StoredLock}
use open_log_tool_server.Collaboration.Drafts.{Draft, DraftDto}
use open_log_tool_server.Collaboration.Rows.{StoredMutation}
use open_log_tool_server.DraftRoutes.Parse.{Candidate}
use open_log_tool_server.DraftRoutes.Previews.{Preview}
use open_log_tool_server.DraftRoutes.Room.{Draws}
use open_log_tool_server.DraftRoutes.Store.{LiveDraftRow}
use open_log_tool_server.DraftRoutes.Steps.{
  draft_envelope, shown_preview, publish_history_preview_control,
}
use open_log_tool_server.DraftRoutes.Locking.{
  get_live_draft, post_lock, renew_lock, release_lock, drop_own_preview,
}
use open_log_tool_server.DraftRoutes.Previewing.{
  PutRequest, show_preview, run_put, put_history_preview, delete_history_preview, stale,
}
use open_log_tool_server.DraftRoutes.Selecting.{
  SelectRequest, choose, write_selection, answer_selection, select_new, select_stored,
  select_transaction,
}
use open_log_tool_server.DraftRoutes.Extends.Statements.{
  ensure_draft-Extends, update_selected-Extends, update_patched-Extends, update_reset-Extends,
  touch_session-Extends, upsert_device_state-Extends, clear_states-Extends, insert_log-Extends,
  store_response-Extends, append-Extends,
}
use open_log_tool_server.DraftRoutes.Extends.{
  Within, Within-bind, Within-then, Within-return, Within-throw, Within-read, Within-reading,
  Within-demand, Within-when, Within-if, Within-on_locks, Within-with_locks, Within-with_previews,
  Within-publish_control, Within-publish_event, Within-updating, Within-on_database,
  Within-transaction,
}

pub ruleset statements = (
  Within-bind, Within-then, Within-return, Within-throw, Within-read, Within-reading, Within-demand,
  Within-when, Within-if, Within-on_locks, Within-with_locks, Within-with_previews,
  Within-publish_control, Within-publish_event, Within-transaction, Within-updating,
  Within-on_database, ensure_draft-Extends, touch_session-Extends, upsert_device_state-Extends,
  clear_states-Extends, insert_log-Extends, store_response-Extends, append-Extends,
  update_selected-Extends, update_patched-Extends, update_reset-Extends,
)

shown_preview-Within :
    (draws : Draws) (session : Text) (draft : Draft) (locks : List StoredLock)
    (stored : Option Preview)
    → Within (shown_preview draws session draft locks stored)
unfolding shown_preview
shown_preview-Within draws session draft locks none = search statements
shown_preview-Within draws session draft locks (some preview) = search statements

draft_envelope-Within : (draws : Draws) (session : Text) → Within (draft_envelope draws session)
unfolding draft_envelope
draft_envelope-Within draws session = search (statements, shown_preview-Within) depth 20

history_control-Within :
    (occurred_at locks_now : ℕ) (session user device : Text) (preview : Option Preview)
    → Within (publish_history_preview_control occurred_at locks_now session user device preview)
unfolding publish_history_preview_control
history_control-Within occurred_at locks_now session user device preview =
    search statements depth 20

module _ (draws : Draws) (user : Text) (query : Fields) (session_param : Option Json) where
  pub get_live_draft-Within : Within (get_live_draft draws user query session_param)
  unfolding get_live_draft
  get_live_draft-Within = search (statements, draft_envelope-Within) depth 20

  pub post_lock-Within : (body : Json) → Within (post_lock draws user query session_param body)
  unfolding post_lock
  post_lock-Within body = search statements depth 30

  pub renew_lock-Within :
      (lease_param : Option Json) (body : Json)
      → Within (renew_lock draws user query session_param lease_param body)
  unfolding renew_lock
  renew_lock-Within lease_param body = search statements depth 20

  drop_own_preview-Within :
      (session device : Text) (lock : StoredLock) (preview : Option Preview)
      → Within (drop_own_preview draws user query session_param session device lock preview)
  unfolding drop_own_preview
  drop_own_preview-Within session device lock none = search statements
  drop_own_preview-Within session device lock (some preview) =
      search (statements, history_control-Within) depth 20

  pub release_lock-Within :
      (lease_param : Option Json) (body : Json)
      → Within (release_lock draws user query session_param lease_param body)
  unfolding release_lock
  release_lock-Within lease_param body = search (statements, drop_own_preview-Within) depth 20

pub stale-Within : (current : LiveDraftRow) → Within (stale current)
unfolding stale
stale-Within current = search statements depth 20

module _ (draws : Draws) (user : Text) where
  show_preview-Within :
      (request : PutRequest) (current : LiveDraftRow)
      → Within (show_preview draws user request current)
  unfolding show_preview
  show_preview-Within request current = search (statements, history_control-Within) depth 30

  run_put-Within : (request : PutRequest) → Within (run_put draws user request)
  unfolding run_put
  run_put-Within request = search (statements, stale-Within, show_preview-Within) depth 30

  pub put_history_preview-Within :
      (runtime : Runtime) (query : Fields) (session_param : Option Json) (body : Json)
      → Within (put_history_preview runtime draws user query session_param body)
  unfolding put_history_preview
  put_history_preview-Within runtime query session_param body = search (statements, run_put-Within)

  pub delete_history_preview-Within :
      (query : Fields) (session_param : Option Json) (body : Json)
      → Within (delete_history_preview draws user query session_param body)
  unfolding delete_history_preview
  delete_history_preview-Within query session_param body =
      search (statements, history_control-Within) depth 30

  choose-Within : (request : SelectRequest) → Within (choose draws user request)
  unfolding choose
  choose-Within request = search statements depth 20

  write_selection-Within :
      (request : SelectRequest) (candidate : Candidate) (current : LiveDraftRow)
      → Within (write_selection draws user request candidate current)
  unfolding write_selection
  write_selection-Within request candidate current = search statements depth 30

  answer_selection-Within :
      (request : SelectRequest) (fields : List Field) (dto : DraftDto)
      → Within (answer_selection draws user request fields dto)
  unfolding answer_selection
  answer_selection-Within request fields dto = search statements depth 20

  select_new-Within : (request : SelectRequest) → Within (select_new draws user request)
  unfolding select_new
  select_new-Within request =
      search
        (statements, stale-Within, choose-Within, write_selection-Within, answer_selection-Within)
        depth 30

  select_stored-Within :
      (request : SelectRequest) (stored : Option StoredMutation)
      → Within (select_stored draws user request stored)
  unfolding select_stored
  select_stored-Within request none = select_new-Within request
  select_stored-Within request (some row) = search statements

  pub select_transaction-Within :
      (request : SelectRequest) → Within (select_transaction draws user request)
  unfolding select_transaction
  select_transaction-Within request = search (statements, select_stored-Within) depth 20
