-- ===== src/DraftRoutes/Discarding/Fate.antt =====
-- The ends of the transaction of DELETE /:sessionId/live-draft.
use open_log_tool_server.Base.{
  ℕ, Text, true, false, not, none, some, text_eq, text_eq_refl, ◌==◌, any, All, ◌≢◌, sym, ◌≡◌, ◌⊎◌,
  refl, ap, subst, ◌∙◌, inl, inr,
}
use open_log_tool_server.Base.Table.{select, select-snoc_new}
use open_log_tool_server.Base.Outcome.{ok, Outcome, done, raised}
use open_log_tool_server.Base.Run.{
  continue, continue-eq-done, continue-reading, continue-when, done-injective, Outcome-cases,
}
use open_log_tool_server.LiveDraft.Locks.{list}
use open_log_tool_server.Collaboration.Drafts.{Draft, DeviceState, DraftDto}
use open_log_tool_server.Collaboration.Rows.{SessionRow, MembershipRow, StoredBody, Database}
use open_log_tool_server.Collaboration.Idempotency.{answers, store_response}
use open_log_tool_server.Sync.Drafts.{draft_of}
use open_log_tool_server.DraftRoutes.Room.{Room, Draws}
use open_log_tool_server.DraftRoutes.Store.{
  require_draft_access, ensure_draft, read_draft, draft_dto, count_logs,
}
use open_log_tool_server.DraftRoutes.Steps.{
  is_foreign, assert_no_foreign_locks, reset_draft, touch_session,
}
use open_log_tool_server.DraftRoutes.Steps.Databases.{continue-on_database, read_draft-eq-ok}
use open_log_tool_server.DraftRoutes.Steps.Reset.{
  assert_no_foreign_locks-eq-done, reset_draft-Resets, StartedAnew, LastCommit,
  reset_row-StartedAnew,
}
use open_log_tool_server.DraftRoutes.Selecting.{stored_row}
use open_log_tool_server.DraftRoutes.Committing.{CommitRequest, Commit, version_conflict, once}
use open_log_tool_server.DraftRoutes.Discarding.{
  discard_response, discarded_result, discard_new, discard_transaction,
}
use open_log_tool_server.DraftRoutes.Committing.Effect.{store_response-eq-done}
use open_log_tool_server.DraftRoutes.Committing.Fate.{
  Repeats, once-cases, once-raised, version_conflict-throws, not-false, ==-true,
}

module _ (draws : Draws) (user : Text) (request : CommitRequest) where
  -- A discard that is made: `db` is the database in which the draft was read.
  pub record Discards (s : Room) (db : Database) (c : Commit) (db' : Database) : Type 0 where
    pub current : Draft
    pub found : select (draft_of request.session_id) db.drafts ≡ some current
    pub seen : current.version ≡ request.expected_draft_version
    pub alone :
        any (is_foreign user request.device_id) (list (draws.at 1) request.session_id s.locks).0
        ≡ false
    pub next : Draft
    pub reset : StartedAnew (draws.uuid 2) user (draws.at 2) current next
    pub last_commit :
        LastCommit next current.last_committed_draft_id current.last_committed_version
          current.last_committed_by current.last_committed_at current.last_committed_sync_id
    pub written : select (draft_of request.session_id) db'.drafts ≡ some next
    pub states : All (λ (d : DeviceState). d.session_id ≢ request.session_id) db'.device_states
    pub others :
        (other : Text)
        → text_eq request.session_id other ≡ false
        → select (draft_of other) db'.drafts ≡ select (draft_of other) db.drafts
    pub rest : (db'.logs ≡ db.logs) × (db'.events ≡ db.events)
    pub answer :
        (dto : DraftDto) × (total : ℕ) × (c ≡ discarded_result (discard_response current dto total))
        × (select (answers request.mutation_id) db'.processed
            ≡ some (
                stored_row request.mutation_id request.session_id user request.device_id
                  request.request_hash 200 c.body
                  (draws.at 6)))

  discard_new-Discards :
      (s s' : Room) (c : Commit)
      → discard_new draws user request s ≡ done c s'
      → Discards s
          (ensure_draft request.session_id (draws.uuid 0) (draws.at 0) s.database)
          c
          s'.database
  unfolding discard_new continue touch_session
  discard_new-Discards s s' c h =
      let s1 : Room = record s {
        database = ensure_draft request.session_id (draws.uuid 0) (draws.at 0) s.database;
      } in
      let (current, reads, h1) =
        continue-reading _ s1 (λ (r : Room). read_draft r.database request.session_id) h in
      let (found, own) = read_draft-eq-ok s1.database request.session_id current reads in
      let (_, s2, checks, h2) =
        continue-eq-done
          (assert_no_foreign_locks (draws.at 1) request.session_id user request.device_id s1) _
          h1 in
      let (alone, kept) =
        assert_no_foreign_locks-eq-done (draws.at 1) request.session_id user request.device_id s1 s2
          checks in
      let (right, h3) =
        continue-when _ s2 (not (current.draft.version == request.expected_draft_version))
          (version_conflict current) (version_conflict-throws current s2) h2 in
      let (fresh, s3, ran, h4) =
        continue-eq-done (reset_draft (draws.at 2) (draws.uuid 2) current.draft user none s2) _
          h3 in
      let found2 : select (draft_of current.draft.session_id) s2.database.drafts
          ≡ some current.draft =
        ap (λ (d : Database). select (draft_of current.draft.session_id) d.drafts) kept
        ∙ ap (λ id. select (draft_of id) s1.database.drafts) own
        ∙ found in
      let (next_is, resets) =
        reset_draft-Resets (draws.at 2) (draws.uuid 2) current.draft user none s2 s3 fresh found2
          ran in
      let s4 : Room = record s3 {
        database = touch_session request.session_id (draws.at 3) s3.database;
      } in
      let (dto, shows, h5) = continue-reading _ s4 (λ _. draft_dto fresh) h4 in
      let body : StoredBody =
        discard_response current.draft dto (count_logs s4.database request.session_id) in
      let (_, db5, stores, h6) = continue-on_database _ s4 (store_response _) h5 in
      let (unused, db5_is) = store_response-eq-done _ s4.database db5 stores in
      let (is, left) = done-injective h6 in
      let stored_at : select (answers request.mutation_id) db5.processed
          ≡ some (
              stored_row request.mutation_id request.session_id user request.device_id
                request.request_hash 200 body (draws.at 6)) =
        ap (λ (d : Database). select (answers request.mutation_id) d.processed) db5_is
        ∙ select-snoc_new (answers request.mutation_id) s4.database.processed _ unused
            (text_eq_refl request.mutation_id) in
      let made : Discards s s1.database (discarded_result body) db5 = record {
        current = current.draft;
        found = found;
        seen = ==-true _ _ (not-false _ right);
        alone = alone;
        next = fresh.draft;
        reset =
            reset_row-StartedAnew (draws.uuid 2) user (draws.at 2) none current.draft fresh.draft
              next_is;
        last_commit = rw next_is (refl, refl, refl, refl, refl);
        written =
            ap (λ (d : Database). select (draft_of request.session_id) d.drafts) db5_is
            ∙ subst (λ id. select (draft_of id) s3.database.drafts ≡ some fresh.draft) own
                resets.written;
        states =
            subst (λ (d : Database). All (λ x. x.session_id ≢ request.session_id) d.device_states)
              (sym db5_is)
              (subst (λ id. All (λ (x : DeviceState). x.session_id ≢ id) s3.database.device_states)
                own resets.states);
        others = λ other apart.
            ap (λ (d : Database). select (draft_of other) d.drafts) db5_is
            ∙ resets.others other (ap (λ id. text_eq id other) own ∙ apart)
            ∙ ap (λ (d : Database). select (draft_of other) d.drafts) kept;
        rest = (
          ap (λ (d : Database). d.logs) db5_is
              ∙ resets.keeps.logs
              ∙ ap (λ (d : Database). d.logs) kept,
          ap (λ (d : Database). d.events) db5_is
              ∙ resets.keeps.events
              ∙ ap (λ (d : Database). d.events) kept,
        );
        answer = (dto, count_logs s4.database request.session_id, refl, stored_at);
      } in
      subst (λ r. Discards s s1.database r s'.database) is
        (subst (λ (t : Room). Discards s s1.database (discarded_result body) t.database) left made)

  -- How the transaction of a discard can end.
  unfoldable pub DiscardFate : Room → Outcome Room Commit → Type 0
  DiscardFate s (raised fault s') = s'.database ≡ s.database
  DiscardFate s (done c s') =
      Repeats draws user request s c s'
      ⊎ ((access : SessionRow × MembershipRow) × (require_draft_access s.database request.session_id
              user true
            ≡ ok access)
          × Discards s (ensure_draft request.session_id (draws.uuid 0) (draws.at 0) s.database) c
              s'.database)

  -- The transaction of a discard ends in one of three ways. It throws, and the database is as it
  -- was. Or the same user has sent the same request before, and gets the stored response, and
  -- nothing changes. Or the user may write, no other user or device holds a lock of the draft
  -- and the draft has the version that the client expects; then the draft starts anew, under a
  -- new identifier and the next version, with its controller alone and the two reports 59, each
  -- revision at 0, and the columns on the last commit as they were; no state of a device is left
  -- for the Session; no log and no event is written, no draft of another Session either, and the
  -- response is stored.
  pub discard_transaction-DiscardFate :
      (s : Room) → DiscardFate s (discard_transaction draws user request s)
  unfolding discard_transaction
  discard_transaction-DiscardFate s =
      elim (Outcome-cases (once draws user request (discard_new draws user request) s)) [
        | inl (c, s', h) ↦ rw h (
            unfold DiscardFate in
            let (access, allowed, way) =
              once-cases draws user request (discard_new draws user request) s s' c h in
            elim way [
              | inl repeats ↦ inl repeats
              | inr (new, ran) ↦ inr (access, allowed, discard_new-Discards s s' c ran)
            ])
        | inr (fault, s', h) ↦ rw h (
            unfold DiscardFate in
            once-raised draws user request (discard_new draws user request) s s' h)
      ]
