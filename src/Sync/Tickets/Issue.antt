-- ===== src/Sync/Tickets/Issue.antt =====
-- For whom a ticket is issued, and what issuing one writes.
use open_log_tool_server.Base.{
  ◌+◌, ◌*◌, ◌≤◌, Bool, true, false, not, ◌&&◌, List, Option, none, some, ◌≡◌, refl, ap, ◌∙◌, arith,
}
use open_log_tool_server.Base.Json.{Json}
use open_log_tool_server.Base.Table.{
  select, delete, select-snoc_apart, select-delete, select-snoc_new,
}
use open_log_tool_server.Base.Runtime.{Runtime}
use open_log_tool_server.Base.Outcome.{
  Result, ok, err, require, >>=-eq-ok, require-eq-ok, Outcome, done, attempt,
}
use open_log_tool_server.Collaboration.Rows.{owner, SessionRow, MembershipRow, WsTicket, Database}
use open_log_tool_server.Collaboration.Access.{same_role, require_membership}
use open_log_tool_server.Collaboration.Access.Member.{Member, require_membership-Member}
use open_log_tool_server.Sync.Sessions.{is_initializing}
use open_log_tool_server.Sync.CatchUp.{check_cursor}
use open_log_tool_server.Sync.CatchUp.Pages.{check_cursor-bounds}
use open_log_tool_server.Sync.Tickets.{
  TicketCall, TicketRequest, TicketResponse, read_ticket_request, check_ticket, outdated,
  new_ticket, response_of, write_ticket, post_ws_ticket,
}

-- A ticket has been issued: to a member of a Session that is not deleted, with the member's present
-- role and version, for a cursor within the log, and the table holds it and the tickets before it
-- that are not out of date.
pub record Issued (runtime : Runtime) (call : TicketCall) (db : Database)
    (response : TicketResponse) (db' : Database) : Type 0 where
  pub request : TicketRequest
  pub row : SessionRow
  pub membership : MembershipRow
  pub member : Member db request.session_id call.user_id none row membership
  pub started : (is_initializing row.status && not (same_role membership.role owner)) ≡ false
  pub kept : row.min_retained_seq ≤ response.after_seq
  pub reached : response.after_seq ≤ row.event_seq
  pub role : response.role ≡ membership.role
  pub version : response.membership_version ≡ membership.version
  pub only_tickets : (tickets : List WsTicket) × (db' ≡ record db { ws_tickets = tickets })
  pub ticket : WsTicket
  pub ticket_is : ticket ≡ record {
    id = call.ticket_id;
    token_hash = runtime.sha256_hex response.ticket;
    session_id = request.session_id;
    user_id = call.user_id;
    issued_role = membership.role;
    issued_membership_version = membership.version;
    device_id = request.device_id;
    auth_session_id = call.auth_session_id;
    access_expires_at = call.expires_at_epoch_seconds * 1000;
    after_seq = response.after_seq;
    created_at = call.now;
    expires_at = call.now + 60000;
    consumed_at = none;
  }
  pub stored :
      (p : WsTicket → Bool)
      → ((t : WsTicket) → p t ≡ true → outdated call.now t ≡ false)
      → select p db.ws_tickets ≡ none
      → p ticket ≡ true
      → select p db'.ws_tickets ≡ some ticket
  pub others :
      (p : WsTicket → Bool)
      → ((t : WsTicket) → p t ≡ true → outdated call.now t ≡ false)
      → p ticket ≡ false
      → select p db'.ws_tickets ≡ select p db.ws_tickets

not-true : (b : Bool) → not b ≡ true → b ≡ false
not-true true h = ground arith
not-true false h = refl

attempt-done :
    {S A B : Type 0} (r : Result A) (s : S) (k : A → Outcome S B) (b : B) (s' : S)
    → attempt r s k ≡ done b s'
    → (a : A) × (r ≡ ok a) × (k a ≡ done b s')
unfolding attempt
attempt-done (ok a) s k b s' h = (a, refl, h)
attempt-done (err fault) s k b s' h = cc

done-value : {S A : Type 0} {a b : A} {s t : S} → done a s ≡ done b t → a ≡ b
done-value h = cc

done-state : {S A : Type 0} {a b : A} {s t : S} → done a s ≡ done b t → s ≡ t
done-state h = cc

check_ticket-Issued :
    (runtime : Runtime) (call : TicketCall) (request : TicketRequest) (db : Database)
    (access : SessionRow × MembershipRow)
    → check_ticket db call.user_id request ≡ ok access
    → Issued runtime call db
        (response_of call request access.1)
        (write_ticket runtime call request access.1 db)
unfolding check_ticket write_ticket
check_ticket-Issued runtime call request db access h =
    let (found, allowed, h1) =
      >>=-eq-ok (require_membership db request.session_id call.user_id none) _ h in
    let (_, started, h2) =
      >>=-eq-ok
        (require (not (is_initializing found.0.status && not (same_role found.1.role owner))) _ _) _
        h1 in
    let (_, cursor, h3) = >>=-eq-ok (check_cursor request.after_seq found.0) _ h2 in
    let is : found ≡ access = cc h3 in
    let (low, high) = check_cursor-bounds request.after_seq found.0 cursor in
    rw (← is) (record {
      request = request;
      row = found.0;
      membership = found.1;
      member =
          require_membership-Member db request.session_id call.user_id none found.0 found.1 allowed;
      started = not-true _ (require-eq-ok _ _ _ started);
      kept = low;
      reached = high;
      role = refl;
      version = refl;
      only_tickets = (_, refl);
      ticket = new_ticket runtime call request found.1;
      ticket_is = refl;
      stored = λ p current absent own.
          select-snoc_new p (delete (outdated call.now) db.ws_tickets) _
            (select-delete p (outdated call.now) db.ws_tickets current ∙ absent) own;
      others = λ p current other.
          select-snoc_apart p (delete (outdated call.now) db.ws_tickets) _ other
          ∙ select-delete p (outdated call.now) db.ws_tickets current;
    })

-- A ticket is issued only to a member of a Session that is not deleted, with the present role
-- and version of the membership and a cursor within the log, and it is stored beside the tickets
-- that are not out of date, with no other table changed.
pub post_ws_ticket-Issued :
    (runtime : Runtime) (call : TicketCall) (session_param : Option Json) (body : Json)
    (db : Database) (response : TicketResponse) (db' : Database)
    → post_ws_ticket runtime call session_param body db ≡ done response db'
    → Issued runtime call db response db'
unfolding post_ws_ticket
post_ws_ticket-Issued runtime call session_param body db response db' h =
    let (issue, checked, same) = attempt-done _ db _ response db' h in
    let (request, _, h1) = >>=-eq-ok (read_ticket_request session_param body) _ checked in
    let (access, allowed, h2) = >>=-eq-ok (check_ticket db call.user_id request) _ h1 in
    let e : (request, access.1) ≡ issue = cc h2 in
    let answer : response_of call request access.1 ≡ response =
      ap (λ (i : TicketRequest × MembershipRow). response_of call i.0 i.1) e ∙ done-value same in
    let after : write_ticket runtime call request access.1 db ≡ db' =
      ap (λ (i : TicketRequest × MembershipRow). write_ticket runtime call i.0 i.1 db) e
      ∙ done-state same in
    rw (← answer, ← after) (check_ticket-Issued runtime call request db access allowed)
