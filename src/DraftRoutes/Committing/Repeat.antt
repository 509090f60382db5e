-- ===== src/DraftRoutes/Committing/Repeat.antt =====
-- A client that sends a commit of the live draft again.
use open_log_tool_server.Base.{
  ℕ, Text, true, none, some, text_eq_refl, ◌≡◌, refl, sym, ap, ◌∙◌, inl, inr,
}
use open_log_tool_server.Base.Table.{select}
use open_log_tool_server.Base.Outcome.{ok, done}
use open_log_tool_server.Base.Run.{Run, continue-reading_ok}
use open_log_tool_server.Collaboration.Rows.{
  SessionRow, MembershipRow, StoredMutation, StoredBody, Database,
}
use open_log_tool_server.Collaboration.Idempotency.{answers, same_request, read_stored_response}
use open_log_tool_server.DraftRoutes.Room.{Room, Draws, transaction, rolled_back}
use open_log_tool_server.DraftRoutes.Store.{require_draft_access}
use open_log_tool_server.DraftRoutes.Committing.{
  CommitRequest, Commit, stored_commit, or_stored, once, commit_new, commit_transaction,
}
use open_log_tool_server.DraftRoutes.Committing.Fate.{once-cases, commit_new-Commits}

-- The row that answers a request holds this response.
record Answers (user : Text) (request : CommitRequest) (status : ℕ) (body : StoredBody)
    (db : Database) : Type 0 where
  pub row : StoredMutation
  pub stored : select (answers request.mutation_id) db.processed ≡ some row
  pub same : same_request user request.request_hash row ≡ true
  pub code : row.status_code ≡ status
  pub response : row.response ≡ body

read_stored_response-stored :
    (db : Database) (mutation_id user request_hash : Text) (row : StoredMutation)
    → select (answers mutation_id) db.processed ≡ some row
    → same_request user request_hash row ≡ true
    → read_stored_response db mutation_id user request_hash ≡ ok (some row)
unfolding read_stored_response
read_stored_response-stored db mutation_id user request_hash row stored same =
    rw (stored, read_stored_response) (rw same refl)

module _ (draws : Draws) (user : Text) (request : CommitRequest) where
  once-stored :
      (run : Run Room Commit) (s : Room) (access : SessionRow × MembershipRow)
      (row : StoredMutation)
      → require_draft_access s.database request.session_id user true ≡ ok access
      → select (answers request.mutation_id) s.database.processed ≡ some row
      → same_request user request.request_hash row ≡ true
      → once draws user request run s ≡ done (stored_commit draws user request row) s
  unfolding once transaction or_stored
  once-stored run s access row allowed stored same = ap (rolled_back s) (
      continue-reading_ok
        (λ (r : Room). require_draft_access r.database request.session_id user true) _ s access
        allowed
      ∙ continue-reading_ok
          (λ (r : Room).
            read_stored_response r.database request.mutation_id user request.request_hash)
          (or_stored draws user request run) s (some row)
          (read_stored_response-stored s.database request.mutation_id user request.request_hash row
            stored same))

  commit_transaction-Answers :
      (s s1 : Room) (c : Commit)
      → commit_transaction draws user request s ≡ done c s1
      → Answers user request c.status c.body s1.database
  unfolding commit_transaction
  commit_transaction-Answers s s1 c h =
      let (access, allowed, way) =
        once-cases draws user request (commit_new draws user request) s s1 c h in
      elim way [
        | inl r ↦ record {
          row = r.row;
          stored =
              ap (λ (t : Room). select (answers request.mutation_id) t.database.processed)
                r.untouched
              ∙ r.stored;
          same = r.same;
          code = ap (λ (x : Commit). x.status) (sym r.answer);
          response = ap (λ (x : Commit). x.body) (sym r.answer);
        }
        | inr (new, ran) ↦
            let (row, at, body, status, mine, hash) =
              (commit_new-Commits draws user request s s1 c ran).writes.stored in
            record {
              row = row;
              stored = at;
              same =
                  rw (mine, hash) (rw (text_eq_refl user, text_eq_refl request.request_hash) refl);
              code = status;
              response = body;
            }
      ]

-- Once a commit has returned, the same request of the same user, sent again in any later state
-- in which the user may still write and the stored response is kept, returns the same status and
-- body as a replay and changes nothing, whatever has become of the draft.
pub commit_transaction-repeated :
    (draws later : Draws) (user : Text) (request : CommitRequest) (s s1 s2 : Room) (c : Commit)
    (access : SessionRow × MembershipRow)
    → commit_transaction draws user request s ≡ done c s1
    → require_draft_access s2.database request.session_id user true ≡ ok access
    → select (answers request.mutation_id) s2.database.processed
      ≡ select (answers request.mutation_id) s1.database.processed
    → commit_transaction later user request s2
      ≡ done (record { status = c.status; body = c.body; event = none; replayed = true }) s2
unfolding commit_transaction
commit_transaction-repeated draws later user request s s1 s2 c access h allowed kept =
    let a = commit_transaction-Answers draws user request s s1 c h in
    once-stored later user request (commit_new later user request) s2 access a.row allowed
      (kept ∙ a.stored) a.same
    ∙ ap
        (λ (r : ℕ × StoredBody).
          done (record { status = r.0; body = r.1; event = none; replayed = true }) s2)
        (rw (a.code, a.response) refl)
