-- ===== src/Collaboration/Drafts.antt =====
-- The tables of the live drafts, and what the routes return of a draft.
use open_log_tool_server.Base.{ℕ, Text, Option}
use open_log_tool_server.Base.Json.{Json}
use open_log_tool_server.LiveDraft.{Field}

-- The fields of a live draft; `none` is null.
pub record DraftFields : Type 0 where
  pub time : Option Text
  pub controller : Option Text
  pub callsign : Option Text
  pub rst_sent : Option Text
  pub rst_rcvd : Option Text
  pub qth : Option Text
  pub device : Option Text
  pub power : Option Text
  pub antenna : Option Text
  pub height : Option Text
  pub remarks : Option Text

-- A row of `session_live_drafts`, the LiveDraftRow. `field_revisions` is what `JSON.parse` makes of
-- the stored text, and `none` where that throws.
pub record Draft : Type 0 where
  pub session_id : Text
  pub draft_id : Text
  pub version : ℕ
  pub fields : DraftFields
  pub field_revisions : Option Json
  pub last_updated_by : Option Text
  pub created_at : ℕ
  pub last_updated_at : ℕ
  pub last_committed_draft_id : Option Text
  pub last_committed_version : Option ℕ
  pub last_committed_by : Option Text
  pub last_committed_at : Option ℕ
  pub last_committed_sync_id : Option Text

-- A row of `live_draft_device_state`. Its response is written and never read.
pub record DeviceState : Type 0 where
  pub session_id : Text
  pub user_id : Text
  pub device_id : Text
  pub last_client_seq : ℕ
  pub request_hash : Text
  pub updated_at : ℕ

-- Record<LiveDraftField, number>.
abbrev pub Revisions : Type 0
Revisions = Field → ℕ

pub record DraftUser : Type 0 where
  pub user_id : Text
  pub username : Option Text

-- What `draftDto` returns.
pub record DraftDto : Type 0 where
  pub draft_id : Text
  pub session_id : Text
  pub version : ℕ
  pub fields : DraftFields
  pub field_revisions : Revisions
  pub last_updated_by : Option DraftUser
  pub created_at : ℕ
  pub last_updated_at : ℕ
