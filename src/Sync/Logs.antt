-- ===== src/Sync/Logs.antt =====
-- `mutateLog`: create, update, delete and restore a log under optimistic concurrency.
pub mod Fate
pub mod Mutate
use open_log_tool_server.Base.{
  ℕ, ◌+◌, Text, String, Bool, true, false, not, ◌&&◌, ◌||◌, List, [], ◌∷◌, ◌++◌, Option, none, some,
  codes, text_eq, ◌==◌, if◌then◌else◌, is_some,
}
use open_log_tool_server.Base.Json.{Json, boolean, Fields, get}
use open_log_tool_server.Base.Table.{select, modify}
use open_log_tool_server.Base.Runtime.{Runtime}
use open_log_tool_server.Base.Outcome.{
  Result, ok, err, app_error, internal, validation_failed, forbidden, not_found, session_closed,
  session_not_active, ◌>>=◌, ◌>>◌, require, Outcome, done, raised, attempt, and_then,
}
use open_log_tool_server.Collaboration.Rows.{
  Role, owner, editor, viewer, Status, initializing, active, closed, SessionRow, LogValue, LogRow,
  EventType, log_created, log_updated, log_deleted, log_restored, log, log_payload, log_conflict,
  Database,
}
use open_log_tool_server.Collaboration.Access.{same_role}
use open_log_tool_server.Sync.Value.{canonical_log_value, canonical_log_patch, apply_patch}
use open_log_tool_server.Sync.Operation.{
  Operation, Call, Mutated, is_op, log_dto, assert_only_payload, accept,
}

abbrev pub is_active : Status → Bool
is_active active = true
is_active _ = false

abbrev pub is_closed : Status → Bool
is_closed closed = true
is_closed _ = false

-- The checks of a Session's status that logs and titles share. `administrative` is the option.
unfoldable pub check_open : Status → Bool → Result (Unit {0})
check_open status administrative = do
  require (not (is_closed status && not administrative)) 409 session_closed
  require (is_active status || (administrative && is_closed status)) 409 session_not_active

unfoldable pub assert_log_writable : SessionRow → Role → Bool → Result (Unit {0})
unfolding check_open
assert_log_writable session role administrative = do
  require (not (same_role role viewer)) 403 forbidden
  check_open session.status administrative

abbrev pub is_log : Text → Text → LogRow → Bool
is_log session sync row = text_eq row.session_id session && text_eq row.sync_id sync

unfoldable pub read_log : Database → Text → Text → Option LogRow
read_log db session sync = select (is_log session sync) db.logs

-- `readLog(…)!` after a write, and the event of what is there.
unfoldable pub accept_written :
    Operation → Call → Text → EventType → Database → Outcome Database Mutated
accept_written op call session_id type db = elim (read_log db session_id op.entity_id) [
  | none ↦ raised internal db
  | some row ↦ accept op call session_id type log row.version (log_payload (log_dto row)) db
]

abbrev pub conflict_with : Operation → LogRow → Mutated
conflict_with op current = record {
  result = log_conflict op.mutation_id current.version (log_dto current);
  event = none;
}

abbrev pub new_row : SessionRow → Operation → Call → LogValue → LogRow
new_row session op call value = record {
  sync_id = op.entity_id;
  session_id = session.id;
  version = 1;
  value = value;
  created_by = some call.user_id;
  updated_by = some call.user_id;
  created_at = call.now;
  updated_at = call.now;
  deleted_at = none;
  deleted_by = none;
  source_device_id = some call.device_id;
}

-- The columns that each update of a log writes besides those of its own.
abbrev pub touched : Call → LogRow → LogRow
touched call row = record row {
  version = row.version + 1;
  updated_at = call.now;
  updated_by = some call.user_id;
  source_device_id = some call.device_id;
}

-- WHERE session_id = ? AND sync_id = ? AND version = ? AND deleted_at IS (NOT) NULL
abbrev pub is_version : Text → Text → ℕ → Bool → LogRow → Bool
is_version session sync version deleted row =
    is_log session sync row
    && row.version == version
    && (if deleted then is_some row.deleted_at else not (is_some row.deleted_at))

unfoldable pub write_log :
    SessionRow → Operation → LogRow → Bool → (LogRow → LogRow) → Database → Database
write_log session op current deleted f db = record db {
  logs = modify (is_version session.id op.entity_id current.version deleted) f db.logs;
}

module _ (runtime : Runtime) (session : SessionRow) (op : Operation) (call : Call) where
  unfoldable pub log_create : Option LogRow → Database → Outcome Database Mutated
  log_create current db =
      attempt
        (do
          assert_only_payload op ("value" ∷ [])
          require (op.base_version == 0) 422 validation_failed
          canonical_log_value runtime (get "value" op.raw) session.id op.entity_id)
        db
        (λ value. elim current [
          | some row ↦ done (conflict_with op row) db
          | none ↦
              accept_written op call session.id log_created
                (record db { logs = db.logs ++ new_row session op call value ∷ [] })
        ])

  unfoldable pub log_update : LogRow → Database → Outcome Database Mutated
  log_update current db = attempt (assert_only_payload op ("patch" ∷ [])) db (λ _.
      if is_some current.deleted_at
      then done (conflict_with op current) db
      else attempt (canonical_log_patch runtime (get "patch" op.raw)) db (λ patch.
        accept_written op call session.id log_updated (
          write_log session op current false
            (λ row. touched call (record row { value = apply_patch patch row.value })) db)))

  unfoldable pub log_delete : LogRow → Database → Outcome Database Mutated
  log_delete current db = attempt (assert_only_payload op []) db (λ _.
      if is_some current.deleted_at
      then done (conflict_with op current) db
      else accept_written op call session.id log_deleted (
          write_log session op current false
            (λ row.
              touched call
                (record row { deleted_at = some call.now; deleted_by = some call.user_id }))
            db))

  -- `operation.raw.confirm`: absent, `true`, or an error.
  abbrev confirmed_of : Option Json → Result Bool
  confirmed_of none = ok false
  confirmed_of (some (boolean true)) = ok true
  confirmed_of (some _) = err (app_error 422 validation_failed)

  -- The value that a restore writes: the one that is sent, or the row's own.
  unfoldable pub restored_value : LogRow → Result LogValue
  restored_value current = do
    confirmed ← confirmed_of (get "confirm" op.raw)
    require (if is_some (get "value" op.raw) then not confirmed else confirmed) 422
        validation_failed
    if is_some (get "value" op.raw)
        then canonical_log_value runtime (get "value" op.raw) session.id op.entity_id
        else ok current.value

  unfoldable pub log_restore : LogRow → Database → Outcome Database Mutated
  log_restore current db = attempt (assert_only_payload op ("value" ∷ "confirm" ∷ [])) db (λ _.
      if is_some current.deleted_at
      then attempt (restored_value current) db (λ value.
        accept_written op call session.id log_restored (
          write_log session op current true
            (λ row.
              touched call (record row { value = value; deleted_at = none; deleted_by = none }))
            db))
      else done (conflict_with op current) db)

  -- The operations on a log that is there and has the version that the client has seen.
  unfoldable pub log_change : LogRow → Database → Outcome Database Mutated
  log_change current db =
      if is_op op "update"
      then log_update current db
      else if is_op op "delete"
      then log_delete current db
      else if is_op op "restore"
      then log_restore current db
      else raised (app_error 422 validation_failed) db

  unfoldable pub log_existing : Option LogRow → Database → Outcome Database Mutated
  log_existing none db = raised (app_error 404 not_found) db
  log_existing (some current) db =
      if op.base_version == current.version
      then log_change current db
      else done (conflict_with op current) db

  abbrev is_log_operation : Bool
  is_log_operation =
      is_op op "create" || is_op op "update" || is_op op "delete" || is_op op "restore"

  unfoldable pub mutate_log : Role → Bool → Database → Outcome Database Mutated
  mutate_log role administrative db =
      attempt
        (do
          assert_log_writable session role administrative
          require is_log_operation 422 validation_failed)
        db
        (λ _.
          let current = read_log db session.id op.entity_id in
          if is_op op "create" then log_create current db else log_existing current db)
