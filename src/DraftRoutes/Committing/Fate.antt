-- ===== src/DraftRoutes/Committing/Fate.antt =====
-- The three ends of the transaction of POST /:sessionId/live-draft/commit.
use open_log_tool_server.Base.{
  ℕ, Text, Bool, true, false, not, [], ◌∷◌, Option, none, some, ◌==◌, any, is_some, ◌≡◌, ◌⊎◌, refl,
  sym, ap, subst, ◌∙◌, inl, inr, Bool-cases, Option-cases, arith,
}
use open_log_tool_server.Base.Table.{select}
use open_log_tool_server.Base.Outcome.{ok, Fault, Outcome, done, raised}
use open_log_tool_server.Base.Run.{
  Run, continue, continue-eq-done, continue-reading, continue-when, continue-demand,
  continue-throws, done-injective, returned, Outcome-cases,
}
use open_log_tool_server.LiveDraft.Locks.{list}
use open_log_tool_server.Collaboration.Drafts.{Draft}
use open_log_tool_server.Collaboration.Rows.{SessionRow, MembershipRow, StoredMutation, Database}
use open_log_tool_server.Collaboration.Idempotency.{answers, same_request, read_stored_response}
use open_log_tool_server.Sync.Drafts.{draft_of}
use open_log_tool_server.Sync.Logs.{read_log}
use open_log_tool_server.DraftRoutes.Room.{Room, Draws}
use open_log_tool_server.DraftRoutes.Store.{
  LiveDraftRow, require_draft_access, ensure_draft, read_draft,
}
use open_log_tool_server.DraftRoutes.Steps.{is_foreign, assert_no_foreign_locks}
use open_log_tool_server.DraftRoutes.Steps.Databases.{
  read_draft-eq-ok, transaction-eq-done, transaction-raised,
}
use open_log_tool_server.DraftRoutes.Steps.Reset.{assert_no_foreign_locks-eq-done}
use open_log_tool_server.DraftRoutes.Committing.{
  CommitRequest, Commit, is_complete, stored_commit, or_stored, once, commit_new,
  commit_transaction, wrong_version, version_conflict, already_committed, same_version,
}
use open_log_tool_server.DraftRoutes.Committing.Effect.{Written, write_commit-Written}

read_stored_response-eq-ok :
    (db : Database) (mutation_id user request_hash : Text) (stored : Option StoredMutation)
    → read_stored_response db mutation_id user request_hash ≡ ok stored
    → (select (answers mutation_id) db.processed ≡ stored)
      × ((row : StoredMutation) → stored ≡ some row → same_request user request_hash row ≡ true)
unfolding read_stored_response
read_stored_response-eq-ok db mutation_id user request_hash stored h =
    elim (Option-cases (select (answers mutation_id) db.processed)) [
      | inl new ↦
          let is : none ≡ stored = cc (rw (new, read_stored_response) at h) in
          (new ∙ is, λ row at. cc (is, at))
      | inr (old, at) ↦ elim (Bool-cases (same_request user request_hash old)) [
        | inl same ↦
            let is : some old ≡ stored = cc (rw (at, same, read_stored_response) at h) in
            (
              at ∙ is,
              λ row stored_is.
                  let one : old ≡ row = cc (is, stored_is) in
                  subst (λ r. same_request user request_hash r ≡ true) one same,
            )
        | inr other ↦ cc (rw (at, other, read_stored_response) at h)
      ]
    ]

pub version_conflict-throws :
    (current : LiveDraftRow) (s : Room) → returned (version_conflict current s) ≡ false
unfolding version_conflict
version_conflict-throws current s = continue-throws _ _ (λ dto s1. refl)

already_committed-throws : (by : Option Text) (s : Room) → returned (already_committed by s) ≡ false
unfolding already_committed
already_committed-throws none s = refl
already_committed-throws (some []) s = refl
already_committed-throws (some (c ∷ rest)) s = continue-throws _ _ (λ name s1. refl)

wrong_version-throws :
    (current : LiveDraftRow) (expected : ℕ) (s : Room)
    → returned (wrong_version current expected s) ≡ false
unfolding wrong_version
wrong_version-throws current expected s =
    elim (Bool-cases (same_version expected current.draft.last_committed_version)) [
      | inl committed ↦ rw committed (already_committed-throws current.draft.last_committed_by s)
      | inr other ↦ rw other (version_conflict-throws current s)
    ]

is_some-none : {A : Type 0} (o : Option A) → is_some o ≡ false → o ≡ none
is_some-none none h = refl
is_some-none (some a) h = cc h

not-true : (b : Bool) → not b ≡ true → b ≡ false
not-true true h = cc h
not-true false h = refl

pub not-false : (b : Bool) → not b ≡ false → b ≡ true
not-false true h = refl
not-false false h = cc h

pub ==-true : (a b : ℕ) → (a == b) ≡ true → a ≡ b
==-true a b h = ground arith

module _ (draws : Draws) (user : Text) (request : CommitRequest) where
  -- The answer to a request that has been stored.
  pub record Repeats (s : Room) (c : Commit) (s' : Room) : Type 0 where
    pub row : StoredMutation
    pub stored : select (answers request.mutation_id) s.database.processed ≡ some row
    pub same : same_request user request.request_hash row ≡ true
    pub answer : c ≡ stored_commit draws user request row
    pub untouched : s' ≡ s

  pub once-cases :
      (run : Run Room Commit) (s s' : Room) (c : Commit)
      → once draws user request run s ≡ done c s'
      → (access : SessionRow × MembershipRow) × (require_draft_access s.database request.session_id
            user true
          ≡ ok access)
        × (Repeats s c s'
            ⊎ ((select (answers request.mutation_id) s.database.processed ≡ none)
                × (run s ≡ done c s')))
  unfolding once or_stored
  once-cases run s s' c h =
      let (access, allowed, h1) =
        continue-reading _ s
          (λ (r : Room). require_draft_access r.database request.session_id user true)
          (transaction-eq-done _ s h) in
      let (stored, reads, h2) =
        continue-reading _ s
          (λ (r : Room).
            read_stored_response r.database request.mutation_id user request.request_hash)
          h1 in
      let (is, same) =
        read_stored_response-eq-ok s.database request.mutation_id user request.request_hash stored
          reads in
      (
        access,
        allowed,
        elim (Option-cases stored) [
          | inl new ↦ inr (is ∙ new, rw new at h2)
          | inr (row, old) ↦
              let (answer, left) = done-injective (rw old at h2) in
              inl (record {
                row = row;
                stored = is ∙ old;
                same = same row old;
                answer = sym answer;
                untouched = sym left;
              })
        ],
      )

  pub once-raised :
      (run : Run Room Commit) (s s' : Room) {fault : Fault}
      → once draws user request run s ≡ raised fault s'
      → s'.database ≡ s.database
  unfolding once
  once-raised run s s' h = transaction-raised _ s h

  -- A commit that is made: `db` is the database in which the draft was read.
  pub record Commits (s : Room) (db : Database) (c : Commit) (s' : Room) : Type 0 where
    pub current : Draft
    pub found : select (draft_of request.session_id) db.drafts ≡ some current
    pub seen : current.version ≡ request.expected_draft_version
    pub complete : is_complete current.fields ≡ true
    pub alone :
        any (is_foreign user request.device_id) (list (draws.at 1) request.session_id s.locks).0
        ≡ false
    pub unused : read_log db request.session_id request.sync_id ≡ none
    pub writes : Written draws user request current db s'.database c

  pub commit_new-Commits :
      (s s' : Room) (c : Commit)
      → commit_new draws user request s ≡ done c s'
      → Commits s (ensure_draft request.session_id (draws.uuid 0) (draws.at 0) s.database) c s'
  unfolding commit_new continue
  commit_new-Commits s s' c h =
      let s1 : Room = record s {
        database = ensure_draft request.session_id (draws.uuid 0) (draws.at 0) s.database;
      } in
      let (current, reads, h1) =
        continue-reading _ s1 (λ (r : Room). read_draft r.database request.session_id) h in
      let (found, own) = read_draft-eq-ok s1.database request.session_id current reads in
      let (_, s2, checks, h2) =
        continue-eq-done
          (assert_no_foreign_locks (draws.at 1) request.session_id user request.device_id s1) _
          h1 in
      let (alone, kept) =
        assert_no_foreign_locks-eq-done (draws.at 1) request.session_id user request.device_id s1 s2
          checks in
      let (right, h3) =
        continue-when _ s2 (not (current.draft.version == request.expected_draft_version))
          (wrong_version current request.expected_draft_version)
          (wrong_version-throws current request.expected_draft_version s2) h2 in
      let (complete, h4) = continue-demand _ s2 (is_complete current.draft.fields) _ _ h3 in
      let (free, h5) =
        continue-demand _ s2
          (not (is_some (read_log s2.database request.session_id request.sync_id))) _ _ h4 in
      let unused : read_log s2.database request.session_id request.sync_id ≡ none =
        is_some-none _ (not-true _ free) in
      let written =
        write_commit-Written draws user request current s2 s' c
          (ap (λ (d : Database). select (draft_of request.session_id) d.drafts) kept ∙ found) own
          unused h5 in
      record {
        current = current.draft;
        found = found;
        seen = ==-true _ _ (not-false _ right);
        complete = complete;
        alone = alone;
        unused =
            ap (λ (d : Database). read_log d request.session_id request.sync_id) (sym kept)
            ∙ unused;
        writes = subst (λ d. Written draws user request current.draft d s'.database c) kept written;
      }

  -- How the transaction of a commit can end.
  unfoldable pub Fate : Room → Outcome Room Commit → Type 0
  Fate s (raised fault s') = s'.database ≡ s.database
  Fate s (done c s') =
      Repeats s c s'
      ⊎ ((access : SessionRow × MembershipRow) × (require_draft_access s.database request.session_id
              user true
            ≡ ok access)
          × Commits s (ensure_draft request.session_id (draws.uuid 0) (draws.at 0) s.database) c s')

  -- The transaction of a commit ends in one of three ways. It throws, and the database is as it
  -- was. Or the same user has sent the same request before, and gets the stored response, and
  -- nothing changes. Or the user may write, no other user or device holds a lock of the draft,
  -- the draft has the version that the client expects and the three fields that a log needs, and
  -- no log has the identifier; then the log with the draft's values and an event that carries it
  -- are added, logs free of gaps stay so, the draft starts anew, under a new identifier and the
  -- next version, with its controller alone and the two reports 59, each revision at 0, and this
  -- commit as the last one, no state of a device is left for the Session, and the response is
  -- stored.
  pub commit_transaction-Fate : (s : Room) → Fate s (commit_transaction draws user request s)
  unfolding commit_transaction
  commit_transaction-Fate s =
      elim (Outcome-cases (once draws user request (commit_new draws user request) s)) [
        | inl (c, s', h) ↦ rw h (
            unfold Fate in
            let (access, allowed, way) = once-cases (commit_new draws user request) s s' c h in
            elim way [
              | inl repeats ↦ inl repeats
              | inr (new, ran) ↦ inr (access, allowed, commit_new-Commits s s' c ran)
            ])
        | inr (fault, s', h) ↦
            rw h (unfold Fate in once-raised (commit_new draws user request) s s' h)
      ]
