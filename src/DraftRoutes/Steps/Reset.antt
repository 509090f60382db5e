-- ===== src/DraftRoutes/Steps/Reset.antt =====
-- What `resetDraft` and `assertNoForeignLocks` do.
use open_log_tool_server.Base.{
  ℕ, ◌+◌, Text, codes, false, Option, none, some, text_eq, text_eq-false, any, List, All, All-map,
  subst, ◌≢◌, ◌≡◌, refl, sym, ap, ◌∙◌, arith,
}
use open_log_tool_server.Base.Table.{select, modify, delete, select-delete_self}
use open_log_tool_server.Base.Counts.{All-unselected}
use open_log_tool_server.Base.Outcome.{ok, done}
use open_log_tool_server.Base.Run.{
  continue, continue-reading, continue-throws, reading-eq-done, returned, when-eq-done,
}
use open_log_tool_server.LiveDraft.Locks.{list}
use open_log_tool_server.Collaboration.Drafts.{Draft, DeviceState}
use open_log_tool_server.Collaboration.Rows.{Database}
use open_log_tool_server.Sync.Drafts.{draft_of, state_of}
use open_log_tool_server.DraftRoutes.Room.{Room, with_locks}
use open_log_tool_server.DraftRoutes.Store.{LiveDraftRow, read_draft, revisions}
use open_log_tool_server.DraftRoutes.Store.Stored.{revisions-json_of_revisions}
use open_log_tool_server.DraftRoutes.Steps.{
  CommitInput, reset_row, reset_time, reset_draft, update_draft, at_version, is_foreign, busy,
  assert_no_foreign_locks, check_draft_id,
}
use open_log_tool_server.DraftRoutes.Steps.Databases.{
  continue-on_database, read_draft-eq-ok, update_draft-eq-done, select-updated,
  select-updated_other,
}

pub some-injective : {A : Type 0} {a b : A} → some a ≡ some b → a ≡ b
some-injective h = cc h

-- The tables that a reset does not write are as they were.
pub record Keeps (db db' : Database) : Type 0 where
  pub sessions : db'.sessions ≡ db.sessions
  pub events : db'.events ≡ db.events
  pub logs : db'.logs ≡ db.logs
  pub processed : db'.processed ≡ db.processed

pub record Resets (session : Text) (current next : Draft) (db db' : Database) : Type 0 where
  pub written : select (draft_of session) db'.drafts ≡ some next
  pub others :
      (other : Text)
      → text_eq session other ≡ false
      → select (draft_of other) db'.drafts ≡ select (draft_of other) db.drafts
  pub states : All (λ (d : DeviceState). d.session_id ≢ session) db'.device_states
  pub keeps : Keeps db db'

-- A draft that starts anew in the place of another: the next version under a new identifier, with
-- the controller alone and the reports '59', and each revision at 0.
pub record StartedAnew (draft_id actor : Text) (now : ℕ) (current next : Draft) : Type 0 where
  pub session : next.session_id ≡ current.session_id
  pub identifier : next.draft_id ≡ draft_id
  pub version : next.version ≡ current.version + 1
  pub fields : next.fields ≡ record {
    time = none;
    controller = current.fields.controller;
    callsign = none;
    rst_sent = some (codes "59");
    rst_rcvd = some (codes "59");
    qth = none;
    device = none;
    power = none;
    antenna = none;
    height = none;
    remarks = none;
  }
  pub revisions_are : revisions next ≡ ok (λ field. 0)
  pub by : next.last_updated_by ≡ some actor
  pub at : (next.created_at ≡ now) × (next.last_updated_at ≡ now)

-- The five columns on the last commit.
abbrev pub LastCommit :
    Draft → Option Text → Option ℕ → Option Text → Option ℕ → Option Text → Type 0
LastCommit draft draft_id version by at sync_id =
    (draft.last_committed_draft_id ≡ draft_id)
    × (draft.last_committed_version ≡ version)
    × (draft.last_committed_by ≡ by)
    × (draft.last_committed_at ≡ at)
    × (draft.last_committed_sync_id ≡ sync_id)

pub reset_row-StartedAnew :
    (draft_id actor : Text) (now : ℕ) (input : Option CommitInput) (current next : Draft)
    → next ≡ reset_row draft_id actor now input current current
    → StartedAnew draft_id actor now current next
reset_row-StartedAnew draft_id actor now input current next e = rw e (record {
  session = refl;
  identifier = refl;
  version = refl;
  fields = refl;
  revisions_are =
      revisions-json_of_revisions (reset_row draft_id actor now input current current) (λ field. 0)
        refl (λ field. omega arith);
  by = refl;
  at = (refl, refl);
})

no_states :
    (session : Text) (states : List DeviceState)
    → All (λ (d : DeviceState). d.session_id ≢ session) (delete (state_of session) states)
no_states session states =
    let kept = delete (state_of session) states in
    All-map kept (λ d h. text_eq-false d.session_id session h)
      (All-unselected (state_of session) kept (select-delete_self (state_of session) states))

module _ (now : ℕ) (draft_id : Text) (current : Draft) (actor : Text)
    (input : Option CommitInput) where
  -- A reset that returns has put the next draft in the place of the current one.
  pub reset_draft-Resets :
      (s s' : Room) (row : LiveDraftRow)
      → select (draft_of current.session_id) s.database.drafts ≡ some current
      → reset_draft now draft_id current actor input s ≡ done row s'
      → (row.draft ≡ reset_row draft_id actor (reset_time now input) input current current)
        × Resets current.session_id current row.draft s.database s'.database
  unfolding reset_draft continue
  reset_draft-Resets s s' row found h =
      let f : Draft → Draft = reset_row draft_id actor (reset_time now input) input current in
      let (_, _, h1) =
        continue-reading _ s (λ (r : Room). check_draft_id current.session_id draft_id r.database)
          h in
      let (_, db2, ran, h2) = continue-on_database _ s (update_draft f current) h1 in
      let (reads, same) =
        reading-eq-done (λ (r : Room). read_draft r.database current.session_id) _ h2 in
      let db2_is = update_draft-eq-done f current s.database db2 ran in
      let drafts_are : db2.drafts
          ≡ modify (at_version current.session_id current.version) f s.database.drafts =
        ap (λ (d : Database). d.drafts) db2_is in
      let (written, _) = read_draft-eq-ok _ current.session_id row reads in
      let updated : select (draft_of current.session_id) db2.drafts ≡ some (f current) =
        ap (select (draft_of current.session_id)) drafts_are
        ∙ select-updated f current s.database.drafts current.session_id (λ d. refl) refl found in
      let same_db = ap (λ (r : Room). r.database) same in
      (
        some-injective (sym written ∙ updated),
        record {
          written =
              ap (λ (d : Database). select (draft_of current.session_id) d.drafts) same_db
              ∙ written;
          others = λ other apart.
              ap (λ (d : Database). select (draft_of other) d.drafts) same_db
              ∙ ap (select (draft_of other)) drafts_are
              ∙ select-updated_other f current s.database.drafts current.session_id (λ d. refl) refl
                  other apart;
          states =
              subst (λ (d : Database). All (λ x. x.session_id ≢ current.session_id) d.device_states)
                (sym same_db) (no_states current.session_id db2.device_states);
          keeps = record {
            sessions =
                ap (λ (d : Database). d.sessions) same_db
                ∙ ap (λ (d : Database). d.sessions) db2_is;
            events =
                ap (λ (d : Database). d.events) same_db ∙ ap (λ (d : Database). d.events) db2_is;
            logs = ap (λ (d : Database). d.logs) same_db ∙ ap (λ (d : Database). d.logs) db2_is;
            processed =
                ap (λ (d : Database). d.processed) same_db
                ∙ ap (λ (d : Database). d.processed) db2_is;
          };
        },
      )

busy-throws : (session : Text) (s : Room) → returned (busy session s) ≡ false
unfolding busy
busy-throws session s = continue-throws _ _ (λ row s1. continue-throws _ _ (λ dto s2. refl))

-- A check that returns has found no lock of another user or device, and writes no row.
pub assert_no_foreign_locks-eq-done :
    (now : ℕ) (session user device : Text) (s s' : Room) {u : Unit {0}}
    → assert_no_foreign_locks now session user device s ≡ done u s'
    → (any (is_foreign user device) (list now session s.locks).0 ≡ false)
      × (s'.database ≡ s.database)
unfolding assert_no_foreign_locks with_locks continue
assert_no_foreign_locks-eq-done now session user device s s' h =
    let s1 : Room = record s { locks = (list now session s.locks).1 } in
    let (alone, same) =
      when-eq-done (any (is_foreign user device) (list now session s.locks).0) (busy session) s1
        (busy-throws session s1) h in
    (alone, ap (λ (r : Room). r.database) same)
