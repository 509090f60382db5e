-- ===== src/Tests/Data.antt =====
-- A small database, its users and its requests.
use open_log_tool_server.Base.{
  ℕ, ◌+◌, Text, String, true, [], ◌∷◌, none, some, codes, ◌≡◌, refl, inl, inr, Bool-cases, arith,
}
use open_log_tool_server.Base.Json.{natural, string, array, object, nil, cons, Fields, end, field}
use open_log_tool_server.Base.Runtime.{Runtime}
use open_log_tool_server.Base.Table.{select, select_all}
use open_log_tool_server.Base.Outcome.{Outcome, done, raised}
use open_log_tool_server.LiveDraft.Locks.{empty}
use open_log_tool_server.Collaboration.Rows.{
  owner, active, closed, SessionRow, MembershipRow, LogRow, Event, log, log_deleted, log_payload,
  session, WsTicket, Database,
}
use open_log_tool_server.Collaboration.Access.{has_id, find_session}
use open_log_tool_server.Collaboration.Events.{EventInput, append_session_event}
use open_log_tool_server.Collaboration.Events.Gapless.{IsGapless}
use open_log_tool_server.Sync.Operation.{Operation, Call, log_dto}
use open_log_tool_server.Sync.Sessions.{World}
use open_log_tool_server.Sync.Batch.{Request, Draws}

abbrev pub runtime : Runtime
runtime = record {
  to_upper_case = λ s. s;
  parses_as_date = λ s. true;
  stringify = λ j. [];
  byte_length = λ s. 0;
  sha256_hex = λ s. codes "digest";
  locale_le = λ a b. true;
}

abbrev pub running : SessionRow
running = record {
  id = codes "s1";
  title = codes "Net";
  status = active;
  owner_user_id = codes "ann";
  version = 1;
  event_seq = 0;
  min_retained_seq = 0;
  created_at = 10;
  updated_at = 10;
  closed_at = none;
  closed_by = none;
  deleted_at = none;
}

abbrev pub finished : SessionRow
finished = record running { status = closed; closed_at = some 20; closed_by = some (codes "ann") }

abbrev pub ann : MembershipRow
ann = record {
  id = codes "m1";
  session_id = codes "s1";
  user_id = codes "ann";
  role = owner;
  version = 1;
  created_at = 10;
  updated_at = 10;
  removed_at = none;
}

abbrev pub contact : LogRow
contact = record {
  sync_id = codes "log1";
  session_id = codes "s1";
  version = 3;
  value = record {
    time = codes "12:00";
    controller = codes "A";
    callsign = codes "B";
    rst_sent = none;
    rst_rcvd = none;
    qth = none;
    device = none;
    power = none;
    antenna = none;
    height = none;
    remarks = none;
  };
  created_by = none;
  updated_by = none;
  created_at = 10;
  updated_at = 10;
  deleted_at = none;
  deleted_by = none;
  source_device_id = none;
}

abbrev pub ticket : WsTicket
ticket = record {
  id = codes "t0";
  token_hash = codes "old";
  session_id = codes "s1";
  user_id = codes "ann";
  issued_role = owner;
  issued_membership_version = 1;
  device_id = codes "d";
  auth_session_id = none;
  access_expires_at = 1000;
  after_seq = 0;
  created_at = 0;
  expires_at = 60000;
  consumed_at = none;
}

abbrev pub database_of : SessionRow → Database
database_of row = record {
  sessions = row ∷ [];
  members = ann ∷ [];
  users = record { id = codes "ann"; username = codes "Ann" } ∷ [];
  logs = contact ∷ [];
  events = [];
  processed = [];
  invites = record { session_id = codes "s1"; revoked_at = none; revoked_by = none } ∷ [];
  ws_tickets = ticket ∷ [];
  public_shares =
      record { id = codes "p"; session_id = codes "s1"; revoked_at = none; revoked_by = none } ∷ [];
  public_ws_tickets = record { public_share_id = codes "p" } ∷ [];
  drafts = [];
  device_states =
      record {
        session_id = codes "s1";
        user_id = codes "ann";
        device_id = codes "d";
        last_client_seq = 4;
        request_hash = codes "h";
        updated_at = 10;
      }
      ∷ [];
  audits = [];
}

abbrev pub db : Database
db = database_of running

abbrev pub world : World
world = record { database = db; locks = empty }

abbrev pub request : Request
request = record { session_id = codes "s1"; user_id = codes "ann"; device_id = codes "d" }

abbrev pub draws : ℕ → Draws
draws n = record {
  now = 100 + n;
  event_id = codes "e1";
  draft_id = codes "draft";
  locks_now = 100;
  stored_at = 101;
  clear_now = 102;
}

abbrev pub mutation_text : Text
mutation_text = codes "11111111-1111-4111-8111-111111111111"

abbrev pub deletion_fields : Fields
deletion_fields = field "mutationId" (string mutation_text) (
    field "entityType" (string (codes "log")) (
      field "entityId" (string (codes "log1"))
        (field "operation" (string (codes "delete")) (field "baseVersion" (natural 3) end))))

-- The deletion of the one log.
abbrev pub deletion : Operation
deletion = record {
  raw = deletion_fields;
  mutation_id = mutation_text;
  entity_type = log;
  entity_id = codes "log1";
  operation = codes "delete";
  base_version = 3;
}

abbrev pub batch_fields : Fields
batch_fields = field "protocolVersion" (natural 1) (
    field "deviceId" (string mutation_text)
      (field "operations" (array (cons (object deletion_fields) nil)) end))

-- The renaming and the end of the Session.
abbrev pub on_session : String → Fields → Operation
on_session name raw = record {
  raw = raw;
  mutation_id = mutation_text;
  entity_type = session;
  entity_id = codes "s1";
  operation = codes name;
  base_version = 1;
}

abbrev pub call : Call
call = record {
  user_id = codes "ann";
  device_id = codes "d";
  now = 100;
  event_id = codes "e1";
  draft_id = codes "draft";
  locks_now = 100;
  stored_at = 101;
}

abbrev pub input : EventInput
input = record {
  event_id = codes "e1";
  session_id = codes "s1";
  type = log_deleted;
  entity_type = log;
  entity_id = codes "log1";
  entity_version = 4;
  mutation_id = some mutation_text;
  actor_user_id = codes "ann";
  actor_device_id = none;
  payload = log_payload (log_dto contact);
  occurred_at = 100;
}

abbrev pub value_or : {S A : Type 0} → A → Outcome S A → A
value_or a (done b s) = b
value_or a (raised fault s) = a

abbrev pub appended : Outcome Database Event
appended = append_session_event input db

only_session : (id : Text) (row : SessionRow) → find_session db id ≡ some row → row ≡ running
unfolding find_session select
only_session id row h = elim (Bool-cases (has_id id running)) [
  | inl own ↦ cc (rw own at h)
  | inr other ↦ cc (rw other at h)
]

pub db-IsGapless : IsGapless db
unfolding select_all
db-IsGapless = record {
  bounded = λ id row found. rw (only_session id row found) (omega arith);
  counted = λ id row found. rw (only_session id row found) refl;
}
