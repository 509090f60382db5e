-- ===== src/Sync/Drafts.antt =====
-- The live draft of a Session: `liveDraftHasActualContent` of collaboration/live-draft.ts, and what
-- `mutateSession` does to the draft of a Session that it closes or deletes.
use open_log_tool_server.Base.{
  ℕ, ◌+◌, Text, Bool, false, not, ◌&&◌, ◌||◌, Option, none, some, codes, text_eq, ◌==◌,
  if◌then◌else◌, is_some,
}
use open_log_tool_server.Base.Table.{select, delete, changes}
use open_log_tool_server.Base.Outcome.{app_error, live_draft_discard_failed, Outcome, done, raised}
use open_log_tool_server.Collaboration.Drafts.{Draft, DraftFields, DeviceState}
use open_log_tool_server.Collaboration.Rows.{LiveDraftCleared, Database}
use open_log_tool_server.Sync.Operation.{Call}

-- `liveDraftHasActualContent` on one row.
abbrev pub not_default : Option Text → Bool
not_default none = false
not_default (some text) = not (text_eq text (codes "59"))

unfoldable pub has_content : DraftFields → Bool
has_content fields =
    is_some fields.callsign
    || is_some fields.qth
    || is_some fields.device
    || is_some fields.power
    || is_some fields.antenna
    || is_some fields.height
    || is_some fields.remarks
    || not_default fields.rst_sent
    || not_default fields.rst_rcvd

abbrev pub draft_of : Text → Draft → Bool
draft_of id draft = text_eq draft.session_id id

unfoldable pub live_draft_has_actual_content : Database → Text → Bool
live_draft_has_actual_content db id =
    is_some (select (λ draft. draft_of id draft && has_content draft.fields) db.drafts)

abbrev pub empty_fields : DraftFields
empty_fields = record {
  time = none;
  controller = none;
  callsign = none;
  rst_sent = some (codes "59");
  rst_rcvd = some (codes "59");
  qth = none;
  device = none;
  power = none;
  antenna = none;
  height = none;
  remarks = none;
}

abbrev pub state_of : Text → DeviceState → Bool
state_of id row = text_eq row.session_id id

-- DELETE of the Session's draft and of the device states of its members.
unfoldable pub delete_drafts : Text → Database → Database
delete_drafts id db = record db {
  device_states = delete (state_of id) db.device_states;
  drafts = delete (draft_of id) db.drafts;
}

abbrev pub cleared_of : Text → Call → Draft → ℕ → LiveDraftCleared
cleared_of id call draft states = record {
  discarded_draft_id = draft.draft_id;
  discarded_draft_version = draft.version;
  discarded_device_state_count = states;
  next_draft_id = call.draft_id;
  next_session_id = id;
  next_version = draft.version + 1;
  next_fields = empty_fields;
  next_created_at = call.now;
  next_last_updated_at = call.now;
}

-- `a != b ` of the driver's count and the one row that is expected.
unfoldable pub discard_draft : Text → Call → Database → Outcome Database (Option LiveDraftCleared)
discard_draft id call db = elim (select (draft_of id) db.drafts) [
  | none ↦ done none (delete_drafts id db)
  | some draft ↦
      if changes (draft_of id) db.drafts == 1
      then done (some (cleared_of id call draft (changes (state_of id) db.device_states)))
          (delete_drafts id db)
      else raised (app_error 500 live_draft_discard_failed) (delete_drafts id db)
]
