-- ===== src/Sync/Logs/Mutate.antt =====
-- `mutateLog` as a whole: what it may write, and when.
use open_log_tool_server.Base.{
  Text, Bool, true, false, [], ◌∷◌, ◌++◌, Option, none, some, ◌==◌, ==_iff, is_some, ◌≡◌, inl, inr,
  refl, arith, Bool-cases,
}
use open_log_tool_server.Base.Runtime.{Runtime}
use open_log_tool_server.Base.Outcome.{Outcome, done, app_error, internal, Result, ok, err, attempt}
use open_log_tool_server.Collaboration.Rows.{
  Role, SessionRow, LogRow, log_created, log_updated, log_deleted, log_restored, Database,
}
use open_log_tool_server.Sync.Operation.{Operation, Call, Mutated, is_op}
use open_log_tool_server.Sync.Logs.{
  read_log, accept_written, conflict_with, new_row, log_create, log_update, log_delete, log_restore,
  log_change, log_existing, mutate_log,
}
use open_log_tool_server.Sync.Logs.Fate.{Fate, accept_written-Fate, write_log-Wrote, create-Wrote}

-- A check that fails does so before anything is written.
attempt-Fate :
    {A : Type 0} (session : Text) (op : Operation) (db : Database) (r : Result A)
    (k : A → Outcome Database Mutated)
    → ((a : A) → r ≡ ok a → Fate session op db (k a))
    → Fate session op db (attempt r db k)
unfolding Fate attempt
attempt-Fate session op db (ok a) k h = h a refl
attempt-Fate session op db (err (app_error status code)) k h = refl
attempt-Fate session op db (err internal) k h = tt

module _ (runtime : Runtime) (session : SessionRow) (op : Operation) (call : Call)
    (db : Database) where
  conflict-Fate :
      (current : LogRow)
      → read_log db session.id op.entity_id ≡ some current
      → Fate session.id op db (done (conflict_with op current) db)
  unfolding Fate
  conflict-Fate current at =
      inl (record { unchanged = refl; current = current; read = at; result = refl })

  created-Fate :
      (row : LogRow) (current : Option LogRow)
      → read_log db session.id op.entity_id ≡ current
      → op.base_version ≡ 0
      → row.session_id ≡ session.id
      → row.sync_id ≡ op.entity_id
      → row.version ≡ 1
      → Fate session.id op db (elim current [
        | some old ↦ done (conflict_with op old) db
        | none ↦
            accept_written op call session.id log_created (record db { logs = db.logs ++ row ∷ [] })
      ])
  created-Fate row (some old) at base same_session same_sync first = conflict-Fate old at
  created-Fate row none at base same_session same_sync first =
      accept_written-Fate session.id op call log_created db _
        (create-Wrote session op row db at base same_session same_sync first)

  log_create-Fate :
      (current : Option LogRow)
      → read_log db session.id op.entity_id ≡ current
      → Fate session.id op db (log_create runtime session op call current db)
  unfolding log_create
  log_create-Fate current at = attempt-Fate session.id op db _ _ λ value checked.
      created-Fate (new_row session op call value) current at (ground arith) refl refl refl

  module _ (current : LogRow) (at : read_log db session.id op.entity_id ≡ some current)
      (base : op.base_version ≡ current.version) where
    log_update-Fate : Fate session.id op db (log_update runtime session op call current db)
    unfolding log_update
    log_update-Fate = attempt-Fate session.id op db _ _ λ _ _.
        elim (Bool-cases (is_some current.deleted_at)) [
          | inl gone ↦ rw gone (conflict-Fate current at)
          | inr kept ↦ rw kept (
              attempt-Fate session.id op db _ _ λ patch _.
                accept_written-Fate session.id op call log_updated db _ (
                  write_log-Wrote session op current false _ db at base kept (λ y. refl) (λ y. refl)
                    refl))
        ]

    log_delete-Fate : Fate session.id op db (log_delete runtime session op call current db)
    unfolding log_delete
    log_delete-Fate = attempt-Fate session.id op db _ _ λ _ _.
        elim (Bool-cases (is_some current.deleted_at)) [
          | inl gone ↦ rw gone (conflict-Fate current at)
          | inr kept ↦ rw kept (
              accept_written-Fate session.id op call log_deleted db _ (
                write_log-Wrote session op current false _ db at base kept (λ y. refl) (λ y. refl)
                  refl))
        ]

    log_restore-Fate : Fate session.id op db (log_restore runtime session op call current db)
    unfolding log_restore
    log_restore-Fate = attempt-Fate session.id op db _ _ λ _ _.
        elim (Bool-cases (is_some current.deleted_at)) [
          | inl gone ↦ rw gone (
              attempt-Fate session.id op db _ _ λ value _.
                accept_written-Fate session.id op call log_restored db _ (
                  write_log-Wrote session op current true _ db at base gone (λ y. refl) (λ y. refl)
                    refl))
          | inr kept ↦ rw kept (conflict-Fate current at)
        ]

    log_change-Fate : Fate session.id op db (log_change runtime session op call current db)
    unfolding log_change
    log_change-Fate = elim (Bool-cases (is_op op "update")) [
      | inl update ↦ rw update log_update-Fate
      | inr other ↦ rw other (elim (Bool-cases (is_op op "delete")) [
        | inl remove ↦ rw remove log_delete-Fate
        | inr other' ↦ rw other' (elim (Bool-cases (is_op op "restore")) [
          | inl restore ↦ rw restore log_restore-Fate
          | inr unknown ↦ rw unknown (unfold Fate in refl)
        ])
      ])
    ]

  log_existing-Fate :
      (current : Option LogRow)
      → read_log db session.id op.entity_id ≡ current
      → Fate session.id op db (log_existing runtime session op call current db)
  unfolding log_existing
  log_existing-Fate none at = unfold Fate in refl
  log_existing-Fate (some current) at = elim (Bool-cases (op.base_version == current.version)) [
    | inl same ↦
        rw same (log_change-Fate current at ((==_iff op.base_version current.version).0 same))
    | inr stale ↦ rw stale (conflict-Fate current at)
  ]

  -- An operation on a log either throws, and an AppError leaves nothing written; or reports a
  -- conflict with the log that is there and leaves nothing written; or was based on the version
  -- that is there (0 for no log), and writes the next version of this one log, under the next
  -- number of its Session.
  pub mutate_log-Fate :
      (role : Role) (administrative : Bool)
      → Fate session.id op db (mutate_log runtime session op call role administrative db)
  unfolding mutate_log
  mutate_log-Fate role administrative = attempt-Fate session.id op db _ _ λ _ _.
      elim (Bool-cases (is_op op "create")) [
        | inl create ↦ rw create (log_create-Fate (read_log db session.id op.entity_id) refl)
        | inr other ↦ rw other (log_existing-Fate (read_log db session.id op.entity_id) refl)
      ]
