-- ===== src/Sync/Sessions/Purge.antt =====
-- What is left of a Session's access once it has been deleted.
use open_log_tool_server.Base.{
  ◌+◌, Bool, true, false, not, ◌&&◌, none, is_some, text_eq, text_eq_iff, text_eq-false, All,
  All-map, length, ◌≡◌, ◌≢◌, refl, sym, ◌∙◌, inl, inr, Bool-cases, arith,
}
use open_log_tool_server.Base.Counts.{
  length-delete, changes-modify_marked, select_all-delete_apart, select_all-modify_apart,
  All-unselected, All-unmet,
}
use open_log_tool_server.Base.Table.{
  select, select_all, changes, select-delete_self, select-delete_all, select-modify_self,
  any-modify,
}
use open_log_tool_server.Base.Outcome.{Outcome, done, Result, ok, err, attempt}
use open_log_tool_server.Collaboration.Rows.{
  SessionRow, session_deleted, Invite, WsTicket, PublicShare, PublicWsTicket, Database,
}
use open_log_tool_server.Collaboration.Drafts.{Draft, DeviceState}
use open_log_tool_server.Sync.Operation.{Operation, Call}
use open_log_tool_server.Sync.Sessions.{
  World, SessionOptions, SessionChange, open_invite, open_share, ticket_of, public_ticket_of,
  deleted_change, write_session, delete_session, session_delete,
}
use open_log_tool_server.Sync.Drafts.{draft_of, state_of, delete_drafts}

abbrev pub revoked_invite : Invite → Bool
revoked_invite invite = is_some invite.revoked_at

abbrev pub revoked_share : PublicShare → Bool
revoked_share share = is_some share.revoked_at

-- A Session that has been deleted, with what the change reports of it.
pub record Purged (row : SessionRow) (db : Database) (c : SessionChange) (db' : Database)
    : Type 0 where
  pub invites :
      All (λ (i : Invite). i.session_id ≡ row.id → is_some i.revoked_at ≡ true) db'.invites
  pub ws_tickets : All (λ (t : WsTicket). t.session_id ≢ row.id) db'.ws_tickets
  pub public_shares :
      All
        (λ (s : PublicShare). s.session_id ≡ row.id → is_some s.revoked_at ≡ true)
        db'.public_shares
  pub public_ws_tickets :
      All
        (λ (t : PublicWsTicket).
          All
            (λ (s : PublicShare). s.id ≡ t.public_share_id → s.session_id ≢ row.id)
            db'.public_shares)
        db'.public_ws_tickets
  pub drafts : All (λ (d : Draft). d.session_id ≢ row.id) db'.drafts
  pub device_states : All (λ (d : DeviceState). d.session_id ≢ row.id) db'.device_states
  pub type_is : c.type ≡ session_deleted
  -- As many as have been closed.
  pub closed_invites :
      changes revoked_invite db'.invites ≡ changes revoked_invite db.invites + c.invites
  pub closed_shares :
      changes revoked_share db'.public_shares
      ≡ changes revoked_share db.public_shares + c.public_shares
  pub gone_tickets : length db'.ws_tickets + c.ws_tickets ≡ length db.ws_tickets
  pub gone_public_tickets :
      length db'.public_ws_tickets + c.public_ws_tickets ≡ length db.public_ws_tickets
  -- What is not of this Session is as it was.
  pub other_invites :
      select_all (λ (i : Invite). not (text_eq i.session_id row.id)) db'.invites
      ≡ select_all (λ (i : Invite). not (text_eq i.session_id row.id)) db.invites
  pub other_shares :
      select_all (λ (s : PublicShare). not (text_eq s.session_id row.id)) db'.public_shares
      ≡ select_all (λ (s : PublicShare). not (text_eq s.session_id row.id)) db.public_shares
  pub other_tickets :
      select_all (λ (t : WsTicket). not (text_eq t.session_id row.id)) db'.ws_tickets
      ≡ select_all (λ (t : WsTicket). not (text_eq t.session_id row.id)) db.ws_tickets

module _ (row : SessionRow) (op : Operation) (call : Call) (options : SessionOptions) where
  -- No invite and no share of the Session is open, and no ticket, draft or device state is left.
  record Cleared (db : Database) : Type 0 where
    invites : select (open_invite row op call options) db.invites ≡ none
    ws_tickets : select (ticket_of row op call options) db.ws_tickets ≡ none
    public_shares : select (open_share row op call options) db.public_shares ≡ none
    public_ws_tickets : select (public_ticket_of row op call options db) db.public_ws_tickets ≡ none
    drafts : select (draft_of row.id) db.drafts ≡ none
    device_states : select (state_of row.id) db.device_states ≡ none

  delete_session-Cleared : (db : Database) → Cleared (delete_session row op call options db)
  unfolding delete_session delete_drafts write_session
  delete_session-Cleared db = record {
    invites = select-modify_self (open_invite row op call options) _ db.invites (λ i.
        elim (Bool-cases (text_eq i.session_id row.id)) [
          | inl own ↦ rw own refl
          | inr other ↦ rw other refl
        ]);
    ws_tickets = select-delete_self (ticket_of row op call options) db.ws_tickets;
    public_shares = select-modify_self (open_share row op call options) _ db.public_shares (λ i.
        elim (Bool-cases (text_eq i.session_id row.id)) [
          | inl own ↦ rw own refl
          | inr other ↦ rw other refl
        ]);
    public_ws_tickets =
        select-delete_all _ (public_ticket_of row op call options db) db.public_ws_tickets
          (λ ticket h.
            sym (any-modify _ (open_share row op call options) _ db.public_shares (λ share. refl))
            ∙ h);
    drafts = select-delete_self (draft_of row.id) db.drafts;
    device_states = select-delete_self (state_of row.id) db.device_states;
  }

  attempt-done :
      {A : Type 0} (r : Result A) (w : World) (k : A → Outcome World SessionChange)
      (c : SessionChange) (w' : World)
      → attempt r w k ≡ done c w'
      → (a : A) × (k a ≡ done c w')
  unfolding attempt
  attempt-done (ok a) w k c w' h = (a, h)
  attempt-done (err fault) w k c w' h = cc

  share_apart :
      (ticket : PublicWsTicket) (share : PublicShare)
      → (text_eq share.id ticket.public_share_id && text_eq share.session_id row.id) ≡ false
      → share.id ≡ ticket.public_share_id
      → share.session_id ≢ row.id
  share_apart ticket share h same own =
      ground
        (arith, text_eq_iff share.id ticket.public_share_id, text_eq_iff share.session_id row.id)

  delete_session-Purged :
      (db : Database)
      → Purged row db
          (deleted_change row op call options db)
          (delete_session row op call options db)
  unfolding delete_session delete_drafts write_session
  delete_session-Purged db =
      let cleared = delete_session-Cleared db in
      let db' = delete_session row op call options db in
      record {
        invites =
            All-map db'.invites (λ i h own. ground (arith, text_eq_iff i.session_id row.id))
              (All-unselected _ db'.invites cleared.invites);
        ws_tickets =
            All-map db'.ws_tickets (λ t h. text_eq-false t.session_id row.id h)
              (All-unselected _ db'.ws_tickets cleared.ws_tickets);
        public_shares =
            All-map db'.public_shares (λ s h own. ground (arith, text_eq_iff s.session_id row.id))
              (All-unselected _ db'.public_shares cleared.public_shares);
        public_ws_tickets =
            All-map db'.public_ws_tickets
              (λ t h.
                All-map db'.public_shares (λ s. share_apart t s)
                  (All-unmet _ db'.public_shares (
                    any-modify _ (open_share row op call options) _ db.public_shares (λ share. refl)
                    ∙ h)))
              (All-unselected (public_ticket_of row op call options db) db'.public_ws_tickets (
                select-delete_self (public_ticket_of row op call options db) db.public_ws_tickets));
        drafts =
            All-map db'.drafts (λ d h. text_eq-false d.session_id row.id h)
              (All-unselected _ db'.drafts cleared.drafts);
        device_states =
            All-map db'.device_states (λ d h. text_eq-false d.session_id row.id h)
              (All-unselected _ db'.device_states cleared.device_states);
        type_is = refl;
        closed_invites =
            changes-modify_marked revoked_invite (open_invite row op call options) _ db.invites
              (λ y h. ground arith) (λ y. refl);
        closed_shares =
            changes-modify_marked revoked_share (open_share row op call options) _ db.public_shares
              (λ y h. ground arith) (λ y. refl);
        gone_tickets = length-delete (ticket_of row op call options) db.ws_tickets;
        gone_public_tickets =
            length-delete (public_ticket_of row op call options db) db.public_ws_tickets;
        other_invites =
            select_all-modify_apart _ (open_invite row op call options) _ db.invites (λ y. refl)
              (λ y h. ground arith);
        other_shares =
            select_all-modify_apart _ (open_share row op call options) _ db.public_shares
              (λ y. refl) (λ y h. ground arith);
        other_tickets =
            select_all-delete_apart _ (ticket_of row op call options) db.ws_tickets
              (λ y h. ground arith);
      }

  -- When the deletion of a Session returns, each invite and public share of it is revoked, and
  -- no ticket for it or for a share of it, no draft and no device state of it is left; the
  -- change reports as many invites and shares as have become revoked and as many tickets as have
  -- gone; and invites, public shares and tickets of other Sessions, but for tickets of shares,
  -- are as they were.
  pub session_delete-Purged :
      (w : World) (c : SessionChange) (w' : World)
      → session_delete row op call options w ≡ done c w'
      → Purged row w.database c w'.database
  unfolding session_delete
  session_delete-Purged w c w' h =
      let (_, same) = attempt-done _ w _ c w' h in
      let after : record w { database = delete_session row op call options w.database } ≡ w' =
        cc same in
      let change : deleted_change row op call options w.database ≡ c = cc same in
      rw (← after, ← change) (delete_session-Purged w.database)
