-- ===== src/Sync/Tickets.antt =====
-- POST /:sessionId/ws-ticket: the tickets that open the live feed.
pub mod Issue
use open_log_tool_server.Base.{
  ℕ, ◌+◌, ◌-◌, ◌*◌, Text, Bool, true, false, not, ◌&&◌, ◌||◌, List, [], ◌∷◌, ◌++◌, Option, none,
  some, ltb, if◌then◌else◌, is_some,
}
use open_log_tool_server.Base.Json.{Json, get}
use open_log_tool_server.Base.Table.{delete}
use open_log_tool_server.Base.Runtime.{Runtime}
use open_log_tool_server.Base.Outcome.{
  Result, ok, err, not_found, ◌>>=◌, ◌>>◌, require, Outcome, done, attempt,
}
use open_log_tool_server.Validation.{
  require_json_object, reject_unknown_keys, uuid_field, non_negative_integer, normalize_stable_id,
}
use open_log_tool_server.Collaboration.Rows.{
  Role, owner, SessionRow, MembershipRow, WsTicket, Database,
}
use open_log_tool_server.Collaboration.Access.{same_role, require_membership}
use open_log_tool_server.Sync.Sessions.{is_initializing}
use open_log_tool_server.Sync.CatchUp.{check_cursor}

-- The access token of the request, and what the route draws: `now` is in milliseconds, and the
-- ticket is 32 random bytes in base64url.
pub record TicketCall : Type 0 where
  pub user_id : Text
  pub auth_session_id : Option Text
  pub expires_at_epoch_seconds : ℕ
  pub now : ℕ
  pub ticket : Text
  pub ticket_id : Text

pub record TicketRequest : Type 0 where
  pub session_id : Text
  pub device_id : Text
  pub after_seq : ℕ

unfoldable pub read_ticket_request : Option Json → Json → Result TicketRequest
read_ticket_request session_param body = do
  id ← normalize_stable_id session_param
  fields ← require_json_object body
  reject_unknown_keys fields ("deviceId" ∷ "afterSeq" ∷ [])
  device_id ← uuid_field fields "deviceId"
  after ← non_negative_integer (get "afterSeq" fields)
  ok (record { session_id = id; device_id = device_id; after_seq = after })

-- The checks of the transaction.
unfoldable pub check_ticket : Database → Text → TicketRequest → Result (SessionRow × MembershipRow)
check_ticket db user request = do
  access ← require_membership db request.session_id user none
  require (not (is_initializing access.0.status && not (same_role access.1.role owner))) 404
      not_found
  check_cursor request.after_seq access.0
  ok access

abbrev pub consumed_before : ℕ → Option ℕ → Bool
consumed_before limit none = false
consumed_before limit (some at) = ltb at limit

-- Tickets that a day has passed since they ran out or were used. The subtraction is on dates after
-- the first day of the epoch.
abbrev pub outdated : ℕ → WsTicket → Bool
outdated now ticket =
    ltb ticket.expires_at (now - 86400000) || consumed_before (now - 86400000) ticket.consumed_at

abbrev pub new_ticket : Runtime → TicketCall → TicketRequest → MembershipRow → WsTicket
new_ticket runtime call request membership = record {
  id = call.ticket_id;
  token_hash = runtime.sha256_hex call.ticket;
  session_id = request.session_id;
  user_id = call.user_id;
  issued_role = membership.role;
  issued_membership_version = membership.version;
  device_id = request.device_id;
  auth_session_id = call.auth_session_id;
  access_expires_at = call.expires_at_epoch_seconds * 1000;
  after_seq = request.after_seq;
  created_at = call.now;
  expires_at = call.now + 60000;
  consumed_at = none;
}

-- The response of the route.
pub record TicketResponse : Type 0 where
  pub ticket : Text
  pub expires_at : ℕ
  pub session_id : Text
  pub role : Role
  pub membership_version : ℕ
  pub after_seq : ℕ

abbrev pub response_of : TicketCall → TicketRequest → MembershipRow → TicketResponse
response_of call request membership = record {
  ticket = call.ticket;
  expires_at = call.now + 60000;
  session_id = request.session_id;
  role = membership.role;
  membership_version = membership.version;
  after_seq = request.after_seq;
}

unfoldable pub write_ticket :
    Runtime → TicketCall → TicketRequest → MembershipRow → Database → Database
write_ticket runtime call request membership db = record db {
  ws_tickets =
      delete (outdated call.now) db.ws_tickets ++ new_ticket runtime call request membership ∷ [];
}

unfoldable pub post_ws_ticket :
    Runtime → TicketCall → Option Json → Json → Database → Outcome Database TicketResponse
post_ws_ticket runtime call session_param body db =
    attempt
      (do
        request ← read_ticket_request session_param body
        access ← check_ticket db call.user_id request
        ok (request, access.1))
      db
      (λ (issue : TicketRequest × MembershipRow).
        done (response_of call issue.0 issue.1) (write_ticket runtime call issue.0 issue.1 db))
