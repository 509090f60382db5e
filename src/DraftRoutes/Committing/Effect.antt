-- ===== src/DraftRoutes/Committing/Effect.antt =====
-- What POST /:sessionId/live-draft/commit writes.
use open_log_tool_server.Base.{
  Text, false, [], ◌∷◌, ◌++◌, none, some, text_eq, text_eq_refl, All, ◌≢◌, ◌≡◌, refl, sym, ap,
  subst, ◌∙◌, inl, inr, Option-cases,
}
use open_log_tool_server.Base.Table.{select, select-snoc_new}
use open_log_tool_server.Base.Outcome.{ok, done}
use open_log_tool_server.Base.Run.{continue, continue-eq-done, continue-reading, done-injective}
use open_log_tool_server.Collaboration.Drafts.{Draft, DeviceState}
use open_log_tool_server.Collaboration.Rows.{
  LogRow, log_payload, Event, StoredBody, StoredMutation, Database,
}
use open_log_tool_server.Collaboration.Access.{find_session}
use open_log_tool_server.Collaboration.Events.{EventInput, allocate_seq, append_session_event}
use open_log_tool_server.Collaboration.Events.Append.{Appended, append-Appended}
use open_log_tool_server.Collaboration.Events.Gapless.{IsGapless, append-IsGapless}
use open_log_tool_server.Collaboration.Idempotency.{answers, store_response}
use open_log_tool_server.Sync.Operation.{log_dto}
use open_log_tool_server.Sync.Logs.{is_log, read_log}
use open_log_tool_server.Sync.Drafts.{draft_of}
use open_log_tool_server.DraftRoutes.Room.{Room, Draws}
use open_log_tool_server.DraftRoutes.Store.{LiveDraftRow, draft_dto, count_logs}
use open_log_tool_server.DraftRoutes.Steps.{CommitInput, reset_draft}
use open_log_tool_server.DraftRoutes.Steps.Databases.{continue-on_database}
use open_log_tool_server.DraftRoutes.Steps.Reset.{
  reset_draft-Resets, StartedAnew, LastCommit, reset_row-StartedAnew,
}
use open_log_tool_server.DraftRoutes.Selecting.{stored_row}
use open_log_tool_server.DraftRoutes.Committing.{
  CommitRequest, Commit, text_or_empty, committed_log, found_log, write_commit, commit_response,
  committed_result,
}

pub ok-injective : {A : Type 0} {a b : A} → ok a ≡ ok b → a ≡ b
ok-injective h = cc h

-- A response that is stored was not there before, and is found afterwards.
pub store_response-eq-done :
    (row : StoredMutation) (db db' : Database) {u : Unit {0}}
    → store_response row db ≡ done u db'
    → (select (answers row.mutation_id) db.processed ≡ none)
      × (db' ≡ record db { processed = db.processed ++ row ∷ [] })
unfolding store_response
store_response-eq-done row db db' h =
    elim (Option-cases (select (answers row.mutation_id) db.processed)) [
      | inl new ↦ (new, cc (rw (new, store_response) at h))
      | inr (old, at) ↦ cc (rw (at, store_response) at h)
    ]

-- A log that the commit has inserted is the one that it reads back.
read_log-inserted :
    (row : LogRow) (db : Database)
    → read_log db row.session_id row.sync_id ≡ none
    → read_log (record db { logs = db.logs ++ row ∷ [] }) row.session_id row.sync_id ≡ some row
unfolding read_log
read_log-inserted row db absent =
    select-snoc_new (is_log row.session_id row.sync_id) db.logs row absent
      (rw (text_eq_refl row.session_id, text_eq_refl row.sync_id) refl)

-- The writes of a commit, from the database in which the draft was read.
pub record Written (draws : Draws) (user : Text) (request : CommitRequest) (current : Draft)
    (db db' : Database) (c : Commit) : Type 0 where
  pub log : LogRow
  pub log_is : log ≡ record {
    sync_id = request.sync_id;
    session_id = request.session_id;
    version = 1;
    value = record {
      time = text_or_empty current.fields.time;
      controller = text_or_empty current.fields.controller;
      callsign = text_or_empty current.fields.callsign;
      rst_sent = current.fields.rst_sent;
      rst_rcvd = current.fields.rst_rcvd;
      qth = current.fields.qth;
      device = current.fields.device;
      power = current.fields.power;
      antenna = current.fields.antenna;
      height = current.fields.height;
      remarks = current.fields.remarks;
    };
    created_by = some user;
    updated_by = some user;
    created_at = draws.at 2;
    updated_at = draws.at 2;
    deleted_at = none;
    deleted_by = none;
    source_device_id = some request.device_id;
  }
  pub logs : db'.logs ≡ db.logs ++ log ∷ []
  pub event : Event
  pub events : db'.events ≡ db.events ++ event ∷ []
  pub payload : event.payload ≡ log_payload (log_dto log)
  pub gapless : IsGapless db → IsGapless db'
  pub next : Draft
  pub reset : StartedAnew (draws.uuid 2) user (draws.at 2) current next
  pub last_commit :
      LastCommit next
        (some current.draft_id)
        (some current.version)
        (some user)
        (some (draws.at 2))
        (some request.sync_id)
  pub written : select (draft_of request.session_id) db'.drafts ≡ some next
  pub states : All (λ (d : DeviceState). d.session_id ≢ request.session_id) db'.device_states
  pub others :
      (other : Text)
      → text_eq request.session_id other ≡ false
      → select (draft_of other) db'.drafts ≡ select (draft_of other) db.drafts
  pub published : (c.event ≡ some event) × (c.replayed ≡ false)
  pub stored :
      (row : StoredMutation) × (select (answers request.mutation_id) db'.processed ≡ some row)
      × (row.response ≡ c.body)
      × (row.status_code ≡ c.status)
      × (row.user_id ≡ user)
      × (row.request_hash ≡ request.request_hash)

IsGapless-kept :
    (db db' : Database)
    → db'.sessions ≡ db.sessions
    → db'.events ≡ db.events
    → IsGapless db
    → IsGapless db'
unfolding find_session
IsGapless-kept db db' sessions events v = record {
  bounded = λ id row found. v.bounded id row (rw sessions at found);
  counted = λ id row found. rw events (v.counted id row (rw sessions at found));
}

-- The tables that an append does not write.
Appended-drafts :
    {input : EventInput} {db db' : Database} {event : Event}
    → Appended input db event db'
    → (db'.drafts ≡ db.drafts)
      × (db'.logs ≡ db.logs)
      × (db'.processed ≡ db.processed)
      × (db'.events ≡ db.events ++ event ∷ [])
unfolding allocate_seq
Appended-drafts a = (
  ap (λ (d : Database). d.drafts) a.state_is,
  ap (λ (d : Database). d.logs) a.state_is,
  ap (λ (d : Database). d.processed) a.state_is,
  ap (λ (d : Database). d.events) a.state_is,
)

module _ (draws : Draws) (user : Text) (request : CommitRequest) where
  pub write_commit-Written :
      (current : LiveDraftRow) (s s' : Room) (c : Commit)
      → select (draft_of request.session_id) s.database.drafts ≡ some current.draft
      → current.draft.session_id ≡ request.session_id
      → read_log s.database request.session_id request.sync_id ≡ none
      → write_commit draws user request current s ≡ done c s'
      → Written draws user request current.draft s.database s'.database c
  unfolding write_commit continue
  write_commit-Written current s s' c found own absent h =
      let new : LogRow = committed_log user request (draws.at 2) current.draft.fields in
      let s1 : Room = record s {
        database = record (s.database) { logs = s.database.logs ++ new ∷ [] };
      } in
      let (row, finds, h1) =
        continue-reading _ s1
          (λ (r : Room). found_log (read_log r.database request.session_id request.sync_id)) h in
      let same_row : new ≡ row =
        ok-injective (sym (ap found_log (read_log-inserted new s.database absent)) ∙ finds) in
      let (event, db2, ran, h2) = continue-on_database _ s1 (append_session_event _) h1 in
      let a = append-Appended _ s1.database event db2 ran in
      let (drafts2, logs2, processed2, events2) = Appended-drafts a in
      let input : CommitInput = record {
        committed_sync_id = request.sync_id;
        committed_at = draws.at 2;
      } in
      let (fresh, s3, ran_reset, h3) =
        continue-eq-done
          (reset_draft (draws.at 2) (draws.uuid 2) current.draft user (some input)
            (record s1 { database = db2 }))
          _ h2 in
      let found2 : select (draft_of current.draft.session_id) db2.drafts ≡ some current.draft =
        ap (select (draft_of current.draft.session_id)) drafts2
        ∙ ap (λ id. select (draft_of id) s.database.drafts) own
        ∙ found in
      let (next_is, resets) =
        reset_draft-Resets (draws.at 2) (draws.uuid 2) current.draft user (some input)
          (record s1 { database = db2 }) s3 fresh found2 ran_reset in
      let k = resets.keeps in
      let (dto, shows, h4) = continue-reading _ s3 (λ _. draft_dto fresh) h3 in
      let (_, db4, stores, h5) = continue-on_database _ s3 (store_response _) h4 in
      let (unused, db4_is) = store_response-eq-done _ s3.database db4 stores in
      let total = count_logs s3.database request.session_id in
      let body : StoredBody = commit_response current.draft row event dto total in
      let (is, left) = done-injective h5 in
      let stored_at : select (answers request.mutation_id) db4.processed
          ≡ some (
              stored_row request.mutation_id request.session_id user request.device_id
                request.request_hash 201 body (draws.at 3)) =
        ap (λ (d : Database). select (answers request.mutation_id) d.processed) db4_is
        ∙ select-snoc_new (answers request.mutation_id) s3.database.processed _ unused
            (text_eq_refl request.mutation_id) in
      let made : Written draws user request current.draft s.database db4
          (committed_result body event) =
        record {
          log = new;
          log_is = refl;
          logs = ap (λ (d : Database). d.logs) db4_is ∙ k.logs ∙ logs2;
          event = event;
          events = ap (λ (d : Database). d.events) db4_is ∙ k.events ∙ events2;
          payload =
              ap (λ (e : Event). e.payload) a.event_is
              ∙ ap (λ (r : LogRow). log_payload (log_dto r)) (sym same_row);
          gapless = λ v.
              IsGapless-kept db2 db4 (ap (λ (d : Database). d.sessions) db4_is ∙ k.sessions)
                (ap (λ (d : Database). d.events) db4_is ∙ k.events)
                (append-IsGapless _ s1.database event db2
                  (IsGapless-kept s.database s1.database refl refl v) ran);
          next = fresh.draft;
          reset =
              reset_row-StartedAnew (draws.uuid 2) user (draws.at 2) (some input) current.draft
                fresh.draft next_is;
          last_commit = rw next_is (refl, refl, refl, refl, refl);
          written =
              ap (λ (d : Database). select (draft_of request.session_id) d.drafts) db4_is
              ∙ subst (λ id. select (draft_of id) s3.database.drafts ≡ some fresh.draft) own
                  resets.written;
          states =
              subst (λ (d : Database). All (λ x. x.session_id ≢ request.session_id) d.device_states)
                (sym db4_is)
                (subst
                  (λ id. All (λ (x : DeviceState). x.session_id ≢ id) s3.database.device_states) own
                  resets.states);
          others = λ other apart.
              ap (λ (d : Database). select (draft_of other) d.drafts) db4_is
              ∙ resets.others other (ap (λ id. text_eq id other) own ∙ apart)
              ∙ ap (select (draft_of other)) drafts2;
          published = (refl, refl);
          stored = (_, stored_at, refl, refl, refl, refl);
        } in
      subst (λ r. Written draws user request current.draft s.database s'.database r) is
        (subst
          (λ (t : Room).
            Written draws user request current.draft s.database t.database
              (committed_result body event))
          left made)
