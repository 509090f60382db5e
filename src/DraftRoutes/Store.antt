-- ===== src/DraftRoutes/Store.antt =====
-- The tables of the live draft: the functions of api/live-draft-v1.ts that stand before its router.
pub mod Stored
use open_log_tool_server.Base.{
  ℕ, ◌+◌, Text, Bool, true, false, not, ◌&&◌, ◌||◌, List, [], ◌∷◌, ◌++◌, Option, none, some,
  text_eq, leb, ◌==◌, if◌then◌else◌, length, any, is_some,
}
use open_log_tool_server.Base.Json.{Json, natural, object, Fields, end, field, get}
use open_log_tool_server.Base.Table.{select, select_all}
use open_log_tool_server.Base.Outcome.{
  Result, ok, err, app_error, not_found, session_not_active, session_closed, live_draft_missing,
  live_draft_corrupt, token_invalid, ◌>>=◌, ◌>>◌, require,
}
use open_log_tool_server.LiveDraft.{Field}
use open_log_tool_server.Validation.{max_safe_integer}
use open_log_tool_server.Collaboration.Drafts.{Draft, Revisions, DraftUser, DraftDto}
use open_log_tool_server.Collaboration.Rows.{
  Role, owner, editor, SessionRow, MembershipRow, UserRow, LogRow, Database,
}
use open_log_tool_server.Collaboration.Access.{same_role, require_membership}
use open_log_tool_server.Collaboration.Events.{user_has_id}
use open_log_tool_server.Sync.Logs.{is_active, is_closed}
use open_log_tool_server.Sync.Sessions.{is_initializing}
use open_log_tool_server.Sync.Drafts.{draft_of, empty_fields}
use open_log_tool_server.DraftRoutes.Names.{field_name, live_draft_fields, at_field}

-- The checks of `requireDraftAccess` on the rows that `requireMembership` returns.
unfoldable pub check_draft_access :
    Bool → SessionRow × MembershipRow → Result (SessionRow × MembershipRow)
check_draft_access writable (row, membership) = do
  require (not (is_initializing row.status && not (same_role membership.role owner))) 404 not_found
  require (not (is_initializing row.status)) 409 session_not_active
  require (not (writable && not (is_active row.status))) 409
      (if is_closed row.status then session_closed else session_not_active)
  ok (row, membership)

abbrev pub writers : Bool → Option (List Role)
writers writable = if writable then some (owner ∷ editor ∷ []) else none

unfoldable pub require_draft_access :
    Database → Text → Text → Bool → Result (SessionRow × MembershipRow)
require_draft_access db session user writable = do
  access ← require_membership db session user (writers writable)
  check_draft_access writable access

-- WHERE session_id = ? AND deleted_at IS NULL
abbrev pub live_log_of : Text → LogRow → Bool
live_log_of session row = text_eq row.session_id session && not (is_some row.deleted_at)

-- ORDER BY id DESC LIMIT 1: a log's `id` grows with each insertion.
unfoldable pub last : {A : Type 0} → List A → Option A
last [] = none
last (x ∷ []) = some x
last (x ∷ y ∷ rest) = last (y ∷ rest)

unfoldable pub previous_log : Database → Text → Option LogRow
unfolding last
previous_log db session = last (select_all (live_log_of session) db.logs)

unfoldable pub count_logs : Database → Text → ℕ
count_logs db session = length (select_all (live_log_of session) db.logs)

abbrev pub revision_fields : Revisions → List Field → Fields
revision_fields revisions [] = end
revision_fields revisions (f ∷ rest) =
    field (field_name f) (natural (revisions f)) (revision_fields revisions rest)

-- `JSON.stringify` of field revisions, as the value that it encodes.
unfoldable pub json_of_revisions : Revisions → Json
json_of_revisions revisions = object (revision_fields revisions live_draft_fields)

-- EMPTY_FIELD_REVISIONS.
abbrev pub empty_field_revisions : Revisions
empty_field_revisions f = 0

abbrev pub controller_of : Option LogRow → Option Text
controller_of none = none
controller_of (some row) = some row.value.controller

abbrev pub new_draft : Text → Text → ℕ → Option Text → Draft
new_draft session draft_id now controller = record {
  session_id = session;
  draft_id = draft_id;
  version = 1;
  fields = record empty_fields { controller = controller };
  field_revisions = some (json_of_revisions empty_field_revisions);
  last_updated_by = none;
  created_at = now;
  last_updated_at = now;
  last_committed_draft_id = none;
  last_committed_version = none;
  last_committed_by = none;
  last_committed_at = none;
  last_committed_sync_id = none;
}

-- `draft_id` is a unique column.
abbrev pub draft_id_taken : Text → Database → Bool
draft_id_taken draft_id db = any (λ (draft : Draft). text_eq draft.draft_id draft_id) db.drafts

-- The INSERT OR IGNORE of `ensureDraft`.
unfoldable pub insert_draft : Draft → Database → Database
insert_draft draft db =
    if draft_id_taken draft.draft_id db then db else record db { drafts = db.drafts ++ draft ∷ [] }

unfoldable pub ensure_draft : Text → Text → ℕ → Database → Database
unfolding previous_log
ensure_draft session draft_id now db =
    if is_some (select (draft_of session) db.drafts)
    then db
    else insert_draft (new_draft session draft_id now (controller_of (previous_log db session))) db

-- LiveDraftRow: the columns of the draft, and the name that the LEFT JOIN adds.
pub record LiveDraftRow : Type 0 where
  pub draft : Draft
  pub last_updated_username : Option Text

abbrev pub joined_username : Option Text → List UserRow → Option Text
joined_username none users = none
joined_username (some id) users = elim (select (user_has_id id) users) [
  | none ↦ none
  | some user ↦ some user.username
]

unfoldable pub read_draft : Database → Text → Result LiveDraftRow
read_draft db session = elim (select (draft_of session) db.drafts) [
  | none ↦ err (app_error 500 live_draft_missing)
  | some draft ↦ ok (record {
    draft = draft;
    last_updated_username = joined_username draft.last_updated_by db.users;
  })
]

unfoldable pub revision_at : Option Json → Result ℕ
revision_at (some (natural n)) =
    if leb n max_safe_integer then ok n else err (app_error 500 live_draft_corrupt)
revision_at _ = err (app_error 500 live_draft_corrupt)

-- The loop over LIVE_DRAFT_FIELDS.
unfoldable pub read_revisions : Fields → List Field → Result Revisions
read_revisions parsed [] = ok empty_field_revisions
read_revisions parsed (f ∷ rest) = do
  revision ← revision_at (get (field_name f) parsed)
  revisions ← read_revisions parsed rest
  ok (at_field f revision revisions)

unfoldable pub revisions : Draft → Result Revisions
revisions draft = elim (draft.field_revisions) [
  | some (object parsed) ↦ read_revisions parsed live_draft_fields
  | _ ↦ err (app_error 500 live_draft_corrupt)
]

-- A text that is not null and not empty.
abbrev pub is_filled : Option Text → Bool
is_filled none = false
is_filled (some []) = false
is_filled (some (c ∷ s)) = true

abbrev pub dto_user : LiveDraftRow → Option Text → Option DraftUser
dto_user row none = none
dto_user row (some []) = none
dto_user row (some (c ∷ s)) =
    some (record { user_id = c ∷ s; username = row.last_updated_username })

abbrev pub dto_of : LiveDraftRow → Revisions → DraftDto
dto_of row revisions = record {
  draft_id = row.draft.draft_id;
  session_id = row.draft.session_id;
  version = row.draft.version;
  fields = row.draft.fields;
  field_revisions = revisions;
  last_updated_by = dto_user row row.draft.last_updated_by;
  created_at = row.draft.created_at;
  last_updated_at = row.draft.last_updated_at;
}

unfoldable pub draft_dto : LiveDraftRow → Result DraftDto
draft_dto row = do revisions ← revisions row.draft; ok (dto_of row revisions)

unfoldable pub username : Database → Text → Result Text
username db user = elim (select (user_has_id user) db.users) [
  | none ↦ err (app_error 401 token_invalid)
  | some row ↦ ok row.username
]
