-- ===== src/Collaboration/Rows.antt =====
-- The rows of the database that the modelled code reads or writes. A column that holds an ISO time
-- is the number of its milliseconds; `none` is NULL. A stored JSON text is the value it encodes.
use open_log_tool_server.Base.{ℕ, Text, List, Option}
use open_log_tool_server.Base.Outcome.{Code}
use open_log_tool_server.LiveDraft.{Field}
use open_log_tool_server.LiveDraft.Locks.{StoredLock}
use open_log_tool_server.Collaboration.Drafts.{DraftFields, Draft, DeviceState, DraftDto}

-- SessionRole.
pub data Role : Type 0 where
  owner editor viewer : Role

-- sessions.status.
pub data Status : Type 0 where
  initializing active closed : Status

pub record SessionRow : Type 0 where
  pub id : Text
  pub title : Text
  pub status : Status
  pub owner_user_id : Text
  pub version : ℕ
  pub event_seq : ℕ
  pub min_retained_seq : ℕ
  pub created_at : ℕ
  pub updated_at : ℕ
  pub closed_at : Option ℕ
  pub closed_by : Option Text
  pub deleted_at : Option ℕ

pub record MembershipRow : Type 0 where
  pub id : Text
  pub session_id : Text
  pub user_id : Text
  pub role : Role
  pub version : ℕ
  pub created_at : ℕ
  pub updated_at : ℕ
  pub removed_at : Option ℕ

pub record UserRow : Type 0 where
  pub id : Text
  pub username : Text

-- CanonicalLogValue, which are also eleven columns of `logs`.
pub record LogValue : Type 0 where
  pub time : Text
  pub controller : Text
  pub callsign : Text
  pub rst_sent : Option Text
  pub rst_rcvd : Option Text
  pub qth : Option Text
  pub device : Option Text
  pub power : Option Text
  pub antenna : Option Text
  pub height : Option Text
  pub remarks : Option Text

-- A row of `logs`; LogRow, with the columns that the updates write besides.
pub record LogRow : Type 0 where
  pub sync_id : Text
  pub session_id : Text
  pub version : ℕ
  pub value : LogValue
  pub created_by : Option Text
  pub updated_by : Option Text
  pub created_at : ℕ
  pub updated_at : ℕ
  pub deleted_at : Option ℕ
  pub deleted_by : Option Text
  pub source_device_id : Option Text

-- What `logDto` returns.
pub record LogDto : Type 0 where
  pub sync_id : Text
  pub session_id : Text
  pub version : ℕ
  pub value : LogValue
  pub created_by : Option Text
  pub updated_by : Option Text
  pub created_at : ℕ
  pub updated_at : ℕ
  pub deleted_at : Option ℕ

-- What `sessionEventDto` returns.
pub record SessionDto : Type 0 where
  pub session_id : Text
  pub title : Text
  pub status : Status
  pub version : ℕ
  pub created_at : ℕ
  pub updated_at : ℕ
  pub closed_at : Option ℕ
  pub deleted_at : Option ℕ

-- LiveDraftClearedProjection. The revisions of the next draft's fields are all 0, and the user who
-- last updated it is null.
pub record LiveDraftCleared : Type 0 where
  pub discarded_draft_id : Text
  pub discarded_draft_version : ℕ
  pub discarded_device_state_count : ℕ
  pub next_draft_id : Text
  pub next_session_id : Text
  pub next_version : ℕ
  pub next_fields : DraftFields
  pub next_created_at : ℕ
  pub next_last_updated_at : ℕ

-- CollaborationEventType.
pub data EventType : Type 0 where
  session_activated session_updated session_closed session_reopened session_deleted : EventType
  log_created log_updated log_deleted log_restored : EventType

pub data EntityType : Type 0 where
  session log : EntityType

pub data Payload : Type 0 where
  log_payload : LogDto → Payload
  session_payload : SessionDto → Option LiveDraftCleared → Payload

-- CollaborationEvent, which is also a row of `session_events`.
pub record Event : Type 0 where
  pub event_id : Text
  pub session_id : Text
  pub seq : ℕ
  pub type : EventType
  pub entity_type : EntityType
  pub entity_id : Text
  pub entity_version : ℕ
  pub mutation_id : Option Text
  pub actor_user_id : Text
  pub actor_device_id : Option Text
  pub actor_display_name : Text
  pub occurred_at : ℕ
  pub payload : Payload

pub record Invite : Type 0 where
  pub session_id : Text
  pub revoked_at : Option ℕ
  pub revoked_by : Option Text

pub record WsTicket : Type 0 where
  pub id : Text
  pub token_hash : Text
  pub session_id : Text
  pub user_id : Text
  pub issued_role : Role
  pub issued_membership_version : ℕ
  pub device_id : Text
  pub auth_session_id : Option Text
  pub access_expires_at : ℕ
  pub after_seq : ℕ
  pub created_at : ℕ
  pub expires_at : ℕ
  pub consumed_at : Option ℕ

pub record PublicShare : Type 0 where
  pub id : Text
  pub session_id : Text
  pub revoked_at : Option ℕ
  pub revoked_by : Option Text

pub record PublicWsTicket : Type 0 where
  pub public_share_id : Text

-- The record that `appendCollaborationAudit` is given for a deleted Session.
pub record Audit : Type 0 where
  pub session_id : Text
  pub actor_user_id : Text
  pub mutation_id : Text
  pub occurred_at : ℕ
  pub before_status : Status
  pub before_version : ℕ
  pub before_event_seq : ℕ
  pub after_status : Status
  pub after_version : ℕ
  pub after_event_seq : ℕ
  pub deleted_at : Option ℕ
  pub revoked_invite_count : ℕ
  pub revoked_ws_ticket_count : ℕ
  pub revoked_public_share_count : ℕ
  pub revoked_public_ws_ticket_count : ℕ

-- MutationResult.
pub data MutationResult : Type 0 where
  accepted : Text → Event → MutationResult
  log_conflict : Text → ℕ → LogDto → MutationResult
  session_conflict : Text → ℕ → SessionDto → MutationResult
  rejected : Text → Code → MutationResult

-- The response of a commit of the live draft.
pub record CommitBody : Type 0 where
  pub record_dto : LogDto
  pub event : Event
  pub committed_draft_id : Text
  pub next_draft : DraftDto
  pub committed_ordinal : ℕ
  pub current_ordinal : ℕ
  pub total_records : ℕ

-- The response of a discard of the live draft.
pub record DiscardBody : Type 0 where
  pub discarded_draft_id : Text
  pub next_draft : DraftDto
  pub current_ordinal : ℕ
  pub total_records : ℕ

-- The response of the choice of a candidate of the history.
pub record SelectBody : Type 0 where
  pub draft : DraftDto
  pub updated_fields : List Field
  pub released_leases : List (Field × Text)
  pub locks : List StoredLock
  pub preview_id : Text
  pub candidate_id : Text

-- A stored response, which the routes share one table for.
pub data StoredBody : Type 0 where
  mutation_body : MutationResult → StoredBody
  commit_body : CommitBody → StoredBody
  discard_body : DiscardBody → StoredBody
  select_body : SelectBody → StoredBody

-- A row of `processed_mutations`.
pub record StoredMutation : Type 0 where
  pub mutation_id : Text
  pub session_id : Option Text
  pub user_id : Text
  pub device_id : Option Text
  pub request_hash : Text
  pub status_code : ℕ
  pub response : StoredBody
  pub created_at : ℕ

pub record Database : Type 0 where
  pub sessions : List SessionRow
  pub members : List MembershipRow
  pub users : List UserRow
  pub logs : List LogRow
  pub events : List Event
  pub processed : List StoredMutation
  pub invites : List Invite
  pub ws_tickets : List WsTicket
  pub public_shares : List PublicShare
  pub public_ws_tickets : List PublicWsTicket
  pub drafts : List Draft
  pub device_states : List DeviceState
  pub audits : List Audit
