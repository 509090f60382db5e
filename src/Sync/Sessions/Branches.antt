-- ===== src/Sync/Sessions/Branches.antt =====
-- The branches of `mutateSession`: what each writes before its event, and when it writes nothing.
use open_log_tool_server.Base.{
  ◌<◌, Bool, true, false, not, ◌||◌, [], ◌∷◌, none, some, ◌==◌, ◌≡◌, ◌≢◌, inl, inr, refl, arith,
  Bool-cases, Option-cases, length,
}
use open_log_tool_server.Base.Table.{select, changes}
use open_log_tool_server.Base.Outcome.{
  Outcome, done, raised, app_error, internal, Result, ok, err, attempt, require, >>=-eq-ok,
  require-eq-ok,
}
use open_log_tool_server.LiveDraft.Locks
use open_log_tool_server.Collaboration.Rows.{
  Status, initializing, active, closed, SessionRow, session_updated, session_closed,
  session_reopened, session_deleted, Database,
}
use open_log_tool_server.Collaboration.Access.{find_session}
use open_log_tool_server.Sync.Operation.{Operation, Call, is_op, assert_only_payload}
use open_log_tool_server.Sync.Logs.{is_active, is_closed, check_open}
use open_log_tool_server.Sync.Sessions.{
  World, SessionOptions, SessionChange, write_session, session_update, close_discarding,
  close_checked, session_close, session_reopen, delete_session, session_delete, change_session,
  discards, closing,
}
use open_log_tool_server.Sync.Drafts.{
  discard_draft, delete_drafts, draft_of, live_draft_has_actual_content,
}
use open_log_tool_server.Sync.Sessions.Move.{Changed, write-Changed}

-- A change that returns has moved the Session. One that throws an AppError below 500, which the
-- caller records as a rejection and commits, has written nothing.
unfoldable pub Stepped : SessionRow → World → Outcome World SessionChange → Type 0
Stepped row w (done change w') = Changed row w.database change.type w'.database
Stepped row w (raised (app_error status code) w') = status < 500 → w'.database ≡ w.database
Stepped row w (raised internal w') = Unit

attempt-Stepped :
    {A : Type 0} (row : SessionRow) (w : World) (r : Result A) (k : A → Outcome World SessionChange)
    → ((a : A) → r ≡ ok a → Stepped row w (k a))
    → Stepped row w (attempt r w k)
unfolding Stepped attempt
attempt-Stepped row w (ok a) k h = h a refl
attempt-Stepped row w (err (app_error status code)) k h = λ _. refl
attempt-Stepped row w (err internal) k h = tt

is_active-eq : (s : Status) → is_active s ≡ true → s ≡ active
is_active-eq initializing h = ground arith
is_active-eq active h = refl
is_active-eq closed h = ground arith

is_closed-eq : (s : Status) → is_closed s ≡ true → s ≡ closed
is_closed-eq initializing h = ground arith
is_closed-eq active h = ground arith
is_closed-eq closed h = refl

not_active : (s : Status) → is_active s ≡ false → s ≢ active
not_active initializing h e = cc
not_active active h e = ground arith
not_active closed h e = cc

-- An update is for a Session that has left its first state.
check_open-eq :
    (s : Status) (administrative : Bool)
    → check_open s administrative ≡ ok tt
    → (s ≢ initializing) × ((is_active s || is_closed s) ≡ true)
unfolding check_open
check_open-eq initializing true h = ground arith
check_open-eq initializing false h = ground arith
check_open-eq active administrative h = (λ e. cc, refl)
check_open-eq closed administrative h = (λ e. cc, refl)

module _ (row : SessionRow) (op : Operation) (call : Call) (options : SessionOptions) (w : World)
    (found : find_session w.database row.id ≡ some row) (kept : row.deleted_at ≡ none) where
  session_update-Stepped : Stepped row w (session_update row op call options w)
  unfolding session_update
  session_update-Stepped = attempt-Stepped row w _ _ λ title checked.
      let (_, _, rest) = >>=-eq-ok (assert_only_payload op ("patch" ∷ [])) _ checked in
      let (_, writable, _) = >>=-eq-ok (check_open row.status options.administrative) _ rest in
      let (started, allowed) = check_open-eq row.status options.administrative writable in
      unfold Stepped write_session in
      write-Changed row w.database found kept _ _ (λ r. refl) (λ r. refl) (λ r. refl)
        session_updated _ allowed refl (started, refl, kept) refl refl refl refl

  session_reopen-Stepped : Stepped row w (session_reopen row op call options w)
  unfolding session_reopen
  session_reopen-Stepped = attempt-Stepped row w _ _ λ _ checked.
      let (_, _, rest) = >>=-eq-ok (assert_only_payload op []) _ checked in
      let allowed = require-eq-ok (is_closed row.status) _ _ rest in
      unfold Stepped write_session in
      write-Changed row w.database found kept _ _ (λ r. refl) (λ r. refl) (λ r. refl)
        session_reopened _ allowed refl (is_closed-eq row.status allowed, refl, kept) refl refl refl
        refl

  session_delete-Stepped : Stepped row w (session_delete row op call options w)
  unfolding session_delete
  session_delete-Stepped = attempt-Stepped row w _ _ λ _ checked.
      let (_, _, rest) = >>=-eq-ok (assert_only_payload op []) _ checked in
      let (_, left, _) = >>=-eq-ok (require (not (is_active row.status)) _ _) _ rest in
      let stopped : is_active row.status ≡ false =
        ground (arith, require-eq-ok (not (is_active row.status)) _ _ left) in
      unfold Stepped delete_session delete_drafts write_session in
      write-Changed row w.database found kept _ _ (λ r. refl) (λ r. refl) (λ r. refl)
        session_deleted _ refl refl (not_active row.status stopped, refl, refl) refl refl refl refl

  module _ (running : is_active row.status ≡ true) where
    close_now-Changed :
        (db : Database)
        → db.sessions ≡ w.database.sessions
        → db.logs ≡ w.database.logs
        → db.events ≡ w.database.events
        → db.processed ≡ w.database.processed
        → Changed row w.database session_closed
            (write_session row is_active (closing row op call options) db)
    close_now-Changed db sessions logs events processed =
        unfold write_session in
        write-Changed row w.database found kept is_active (closing row op call options) (λ r. refl)
          (λ r. refl) (λ r. refl) session_closed _ running refl
          (is_active-eq row.status running, refl, kept) (rw sessions refl) logs events processed

    close_discarding-Stepped : Stepped row w (close_discarding row op call options w)
    unfolding close_discarding discard_draft delete_drafts
    close_discarding-Stepped = elim (Option-cases (select (draft_of row.id) w.database.drafts)) [
      | inl absent ↦
          rw (absent, close_discarding, discard_draft)
            (unfold Stepped in close_now-Changed _ refl refl refl refl)
      | inr (draft, at) ↦
          rw (at, close_discarding, discard_draft)
            (elim (Bool-cases (changes (draft_of row.id) w.database.drafts == 1)) [
              | inl one ↦ rw one (unfold Stepped in close_now-Changed _ refl refl refl refl)
              | inr more ↦ rw more (unfold Stepped in λ (small : 500 < 500). absurd (omega arith))
            ])
    ]

    close_checked-Stepped : Stepped row w (close_checked row op call options w)
    unfolding close_checked
    close_checked-Stepped =
        let held = (Locks.list call.locks_now row.id w.locks).0 in
        elim (Bool-cases (live_draft_has_actual_content w.database row.id)) [
          | inl filled ↦ rw filled (unfold Stepped in λ _. refl)
          | inr blank ↦ rw blank (elim (Bool-cases (length held == 0)) [
            | inl free ↦
                rw free (unfold Stepped in close_now-Changed w.database refl refl refl refl)
            | inr busy ↦ rw busy (unfold Stepped in λ _. refl)
          ])
        ]

  session_close-Stepped : Stepped row w (session_close row op call options w)
  unfolding session_close
  session_close-Stepped = attempt-Stepped row w _ _ λ _ checked.
      let (_, _, rest) = >>=-eq-ok (assert_only_payload op []) _ checked in
      let (_, _, rest') = >>=-eq-ok (require (not (is_closed row.status)) _ _) _ rest in
      let running = require-eq-ok (is_active row.status) _ _ rest' in
      elim (Bool-cases (discards row op call options)) [
        | inl discarded ↦ rw discarded (close_discarding-Stepped running)
        | inr checks ↦ rw checks (close_checked-Stepped running)
      ]

  pub change_session-Stepped : Stepped row w (change_session row op call options w)
  unfolding change_session
  change_session-Stepped = elim (Bool-cases (is_op op "update")) [
    | inl update ↦ rw update session_update-Stepped
    | inr other ↦ rw other (elim (Bool-cases (is_op op "close")) [
      | inl close ↦ rw close session_close-Stepped
      | inr other' ↦ rw other' (elim (Bool-cases (is_op op "reopen")) [
        | inl reopen ↦ rw reopen session_reopen-Stepped
        | inr other'' ↦ rw other'' (elim (Bool-cases (is_op op "delete")) [
          | inl remove ↦ rw remove session_delete-Stepped
          | inr unknown ↦ rw unknown (unfold Stepped in λ _. refl)
        ])
      ])
    ])
  ]
