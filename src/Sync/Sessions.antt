-- ===== src/Sync/Sessions.antt =====
-- `mutateSession`: rename, close, reopen and delete a Session. Closing looks at the lock manager of
-- the live draft, so the state is the database and that manager.
pub mod Branches
pub mod Purge
pub mod Fate
pub mod Move
use open_log_tool_server.Base.{
  ℕ, ◌+◌, Text, String, Bool, true, false, not, ◌&&◌, ◌||◌, List, [], ◌∷◌, ◌++◌, Option, none, some,
  codes, text_eq, ◌==◌, if◌then◌else◌, is_some, any, length,
}
use open_log_tool_server.Base.Json.{Json, Fields, get}
use open_log_tool_server.Base.Table.{select, modify, delete, changes}
use open_log_tool_server.Base.Outcome.{
  Result, ok, err, app_error, internal, validation_failed, forbidden, session_closed,
  session_not_active, invalid_session_state, session_must_be_closed, live_draft_not_empty,
  live_draft_busy, live_draft_discard_failed, ◌>>=◌, ◌>>◌, require, Outcome, done, raised, attempt,
}
use open_log_tool_server.Validation.{reject_unknown_keys, require_string, between}
use open_log_tool_server.LiveDraft.Locks
use open_log_tool_server.LiveDraft.Locks.{Locks}
use open_log_tool_server.Collaboration.Drafts.{Draft, DraftFields, DeviceState}
use open_log_tool_server.Collaboration.Rows.{
  Role, owner, Status, initializing, active, closed, SessionRow, MembershipRow, Invite, WsTicket,
  PublicShare, PublicWsTicket, LiveDraftCleared, Audit, EventType, session_updated,
  session_closed as closed_event, session_reopened, session_deleted, session, session_payload,
  session_conflict, Event, Database,
}
use open_log_tool_server.Collaboration.Access.{same_role, has_id, find_session}
use open_log_tool_server.Sync.Value.{object_of}
use open_log_tool_server.Sync.Operation.{
  Operation, Call, Mutated, is_op, session_event_dto, assert_only_payload, accept,
}
use open_log_tool_server.Sync.Logs.{is_active, is_closed, check_open}
use open_log_tool_server.Sync.Drafts.{
  not_default, has_content, draft_of, live_draft_has_actual_content, empty_fields, state_of,
  delete_drafts, cleared_of, discard_draft,
}

-- The database, and the lock manager that lives in memory.
pub record World : Type 0 where
  pub database : Database
  pub locks : Locks

-- The options of `mutateSession`; `now` is an argument of the call.
pub record SessionOptions : Type 0 where
  pub administrative : Bool
  pub discard_live_draft : Bool

-- What a change of a Session hands to the event and the audit.
pub record SessionChange : Type 0 where
  pub type : EventType
  pub cleared : Option LiveDraftCleared
  pub invites : ℕ
  pub ws_tickets : ℕ
  pub public_shares : ℕ
  pub public_ws_tickets : ℕ

abbrev pub plain_change : EventType → SessionChange
plain_change type = record {
  type = type;
  cleared = none;
  invites = 0;
  ws_tickets = 0;
  public_shares = 0;
  public_ws_tickets = 0;
}

-- WHERE id = ? AND version = ? AND deleted_at IS NULL, with a condition on the status.
abbrev pub is_session_version : Text → ℕ → (Status → Bool) → SessionRow → Bool
is_session_version id version allowed row =
    has_id id row && row.version == version && allowed row.status && not (is_some row.deleted_at)

unfoldable pub write_session :
    SessionRow → (Status → Bool) → (SessionRow → SessionRow) → Database → Database
write_session row allowed f db = record db {
  sessions = modify (is_session_version row.id row.version allowed) f db.sessions;
}

abbrev pub bumped : Call → SessionRow → SessionRow
bumped call row = record row { version = row.version + 1; updated_at = call.now }

-- The new title of a patch.
unfoldable pub title_of : Operation → Result Text
title_of op = do
  patch ← object_of (get "patch" op.raw)
  reject_unknown_keys patch ("title" ∷ [])
  require (is_some (get "title" patch)) 422 validation_failed
  require_string patch "title" (between 1 200)

abbrev pub is_initializing : Status → Bool
is_initializing initializing = true
is_initializing _ = false

abbrev pub is_deletion : EventType → Bool
is_deletion session_deleted = true
is_deletion _ = false

module _ (row : SessionRow) (op : Operation) (call : Call) (options : SessionOptions) where
  unfoldable pub session_update : World → Outcome World SessionChange
  session_update w =
      attempt
        (do
          assert_only_payload op ("patch" ∷ [])
          check_open row.status options.administrative
          title_of op)
        w
        (λ title. done (plain_change session_updated) (record w {
          database =
              write_session row (λ status. is_active status || is_closed status)
                (λ r. bumped call (record r { title = title })) w.database;
        }))

  abbrev discards : Bool
  discards = options.administrative && options.discard_live_draft

  abbrev closing : SessionRow → SessionRow
  closing r =
      bumped call
        (record r { status = closed; closed_at = some call.now; closed_by = some call.user_id })

  abbrev close_now : Option LiveDraftCleared → World → Outcome World SessionChange
  close_now cleared w =
      done (record (plain_change closed_event) { cleared = cleared })
        (record w { database = write_session row is_active closing w.database })

  -- Closing when the draft is to be discarded.
  unfoldable pub close_discarding : World → Outcome World SessionChange
  close_discarding w = elim (discard_draft row.id call w.database) [
    | raised fault db ↦ raised fault (record w { database = db })
    | done cleared db ↦ close_now cleared (record w { database = db })
  ]

  -- Closing when the draft has to be empty, and its fields unlocked.
  unfoldable pub close_checked : World → Outcome World SessionChange
  close_checked w =
      let (held, pruned) = Locks.list call.locks_now row.id w.locks in
      if live_draft_has_actual_content w.database row.id
      then raised (app_error 409 live_draft_not_empty) w
      else if length held == 0
      then close_now none (record w { locks = pruned })
      else raised (app_error 409 live_draft_busy) (record w { locks = pruned })

  unfoldable pub session_close : World → Outcome World SessionChange
  session_close w =
      attempt
        (do
          assert_only_payload op []
          require (not (is_closed row.status)) 409 session_closed
          require (is_active row.status) 409 session_not_active)
        w (λ _. if discards then close_discarding w else close_checked w)

  unfoldable pub session_reopen : World → Outcome World SessionChange
  session_reopen w =
      attempt
        (do assert_only_payload op []; require (is_closed row.status) 409 invalid_session_state) w
        (λ _. done (plain_change session_reopened) (record w {
          database =
              write_session row is_closed
                (λ r.
                  bumped call (record r { status = active; closed_at = none; closed_by = none }))
                w.database;
        }))

  abbrev pub open_invite : Invite → Bool
  open_invite invite = text_eq invite.session_id row.id && not (is_some invite.revoked_at)

  abbrev pub open_share : PublicShare → Bool
  open_share share = text_eq share.session_id row.id && not (is_some share.revoked_at)

  abbrev pub ticket_of : WsTicket → Bool
  ticket_of ticket = text_eq ticket.session_id row.id

  -- public_share_id IN (SELECT id FROM public_shares WHERE session_id = ?)
  abbrev pub public_ticket_of : Database → PublicWsTicket → Bool
  public_ticket_of db ticket =
      any
        (λ (share : PublicShare).
          text_eq share.id ticket.public_share_id && text_eq share.session_id row.id)
        db.public_shares

  abbrev pub deleted_change : Database → SessionChange
  deleted_change db = record {
    type = session_deleted;
    cleared = none;
    invites = changes open_invite db.invites;
    ws_tickets = changes ticket_of db.ws_tickets;
    public_shares = changes open_share db.public_shares;
    public_ws_tickets = changes (public_ticket_of db) db.public_ws_tickets;
  }

  -- The writes of a deletion.
  unfoldable pub delete_session : Database → Database
  delete_session db =
      let marked =
        write_session row (λ _. true) (λ r. bumped call (record r { deleted_at = some call.now }))
          db in
      delete_drafts row.id (record marked {
        invites =
            modify open_invite
              (λ i. record i { revoked_at = some call.now; revoked_by = some call.user_id })
              db.invites;
        ws_tickets = delete ticket_of db.ws_tickets;
        public_ws_tickets = delete (public_ticket_of db) db.public_ws_tickets;
        public_shares =
            modify open_share
              (λ s. record s { revoked_at = some call.now; revoked_by = some call.user_id })
              db.public_shares;
      })

  unfoldable pub session_delete : World → Outcome World SessionChange
  session_delete w =
      attempt
        (do
          assert_only_payload op []
          require (not (is_active row.status)) 409 session_must_be_closed
          require (is_closed row.status || is_initializing row.status) 409 invalid_session_state)
        w
        (λ _. done (deleted_change w.database) (record w { database = delete_session w.database }))

  -- The branches of `mutateSession` after its first checks.
  unfoldable pub change_session : World → Outcome World SessionChange
  change_session w =
      if is_op op "update"
      then session_update w
      else if is_op op "close"
      then session_close w
      else if is_op op "reopen"
      then session_reopen w
      else if is_op op "delete"
      then session_delete w
      else raised (app_error 422 validation_failed) w

  abbrev audit_of : SessionRow → Event → SessionChange → Audit
  audit_of updated event change = record {
    session_id = row.id;
    actor_user_id = call.user_id;
    mutation_id = op.mutation_id;
    occurred_at = call.now;
    before_status = row.status;
    before_version = row.version;
    before_event_seq = row.event_seq;
    after_status = updated.status;
    after_version = updated.version;
    after_event_seq = event.seq;
    deleted_at = updated.deleted_at;
    revoked_invite_count = change.invites;
    revoked_ws_ticket_count = change.ws_tickets;
    revoked_public_share_count = change.public_shares;
    revoked_public_ws_ticket_count = change.public_ws_tickets;
  }

  -- `appendCollaborationAudit` for a deletion.
  abbrev audited : SessionRow → SessionChange → Option Event → Database → Database
  audited updated change none db = db
  audited updated change (some event) db =
      if is_deletion change.type
      then record db { audits = db.audits ++ audit_of updated event change ∷ [] }
      else db

  abbrev finished :
      SessionRow → SessionChange → World → Outcome Database Mutated → Outcome World Mutated
  finished updated change w (done m db) =
      done m (record w { database = audited updated change m.event db })
  finished updated change w (raised fault db) = raised fault (record w { database = db })

  -- The event of a change, and the audit of a deletion.
  unfoldable pub finish_session : SessionChange → World → Outcome World Mutated
  finish_session change w = elim (find_session w.database row.id) [
    | none ↦ raised internal w
    | some updated ↦ finished updated change w (
        accept op call row.id change.type session updated.version
          (session_payload (session_event_dto updated) change.cleared) w.database)
  ]

  abbrev session_conflicted : Mutated
  session_conflicted = record {
    result = session_conflict op.mutation_id row.version (session_event_dto row);
    event = none;
  }

  abbrev is_session_operation : Bool
  is_session_operation =
      is_op op "update" || is_op op "close" || is_op op "reopen" || is_op op "delete"

  abbrev changed_then_finished : Outcome World SessionChange → Outcome World Mutated
  changed_then_finished (done change w) = finish_session change w
  changed_then_finished (raised fault w) = raised fault w

  unfoldable pub mutate_session : Role → World → Outcome World Mutated
  mutate_session role w =
      attempt
        (do
          require (same_role role owner) 403 forbidden
          require (text_eq op.entity_id row.id) 422 validation_failed
          require is_session_operation 422 validation_failed)
        w
        (λ _.
          if op.base_version == row.version
          then changed_then_finished (change_session w)
          else done session_conflicted w)
