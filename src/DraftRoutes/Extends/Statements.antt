-- ===== src/DraftRoutes/Extends/Statements.antt =====
-- The statements that the handlers of the live draft send to the database, by the rules of Extends.
use open_log_tool_server.Base.{
  ℕ, ◌≤◌, Text, List, [], ◌∷◌, ◌++◌, Option, text_eq, ◌==◌, if◌then◌else◌, is_some, ◌≡◌, refl, sym,
  ap, ◌∙◌, inl, inr, Bool-cases, Option-cases, arith,
}
use open_log_tool_server.Base.Table.{
  select, modify, delete, changes, select-modify, select-append_some,
}
use open_log_tool_server.Base.Outcome.{state}
use open_log_tool_server.Collaboration.Drafts.{Draft, DeviceState, Revisions}
use open_log_tool_server.Collaboration.Rows.{LogRow, Event, StoredMutation, Database}
use open_log_tool_server.Collaboration.Access.{has_id, find_session}
use open_log_tool_server.Collaboration.Events.{
  EventInput, append_session_event, allocate_seq, insert_with_seq, insert_event, event_of,
  user_has_id, clashes,
}
use open_log_tool_server.Collaboration.Idempotency.{answers, store_response}
use open_log_tool_server.Sync.Drafts.{draft_of, state_of}
use open_log_tool_server.DraftRoutes.Store.{
  ensure_draft, insert_draft, draft_id_taken, new_draft, controller_of, previous_log,
}
use open_log_tool_server.DraftRoutes.Steps.{
  at_version, update_draft, touch_session, CommitInput, reset_row,
}
use open_log_tool_server.DraftRoutes.Patching.{upsert_device_state, patched_row}
use open_log_tool_server.DraftRoutes.Parse.{Update, Candidate}
use open_log_tool_server.DraftRoutes.Selecting.{selected_row}
use open_log_tool_server.DraftRoutes.Extends.{Extends, Extends-refl, Extends-trans}
use mathlib.Core.List.{append-nil}

-- Other tables have been written.
elsewhere :
    (db db' : Database)
    → db'.drafts ≡ db.drafts
    → db'.events ≡ db.events
    → db'.logs ≡ db.logs
    → db'.processed ≡ db.processed
    → Extends db db'
elsewhere db db' d e l p = record {
  drafts = λ session x found. (x, rw d found, omega arith);
  events = ([], e ∙ sym (append-nil db.events));
  logs = ([], l ∙ sym (append-nil db.logs));
  stored = λ id row found. rw p found;
}

pub touch_session-Extends :
    (session : Text) (now : ℕ) (db : Database) → Extends db (touch_session session now db)
unfolding touch_session
touch_session-Extends session now db = elsewhere db _ refl refl refl refl

pub upsert_device_state-Extends :
    (new : DeviceState) (db : Database) → Extends db (upsert_device_state new db)
unfolding upsert_device_state
upsert_device_state-Extends new db = elsewhere db _ refl refl refl refl

pub clear_states-Extends :
    (session : Text) (db : Database)
    → Extends db (record db { device_states = delete (state_of session) db.device_states })
clear_states-Extends session db = elsewhere db _ refl refl refl refl

pub insert_log-Extends :
    (row : LogRow) (db : Database) → Extends db (record db { logs = db.logs ++ row ∷ [] })
insert_log-Extends row db = record {
  drafts = λ session d found. (d, found, omega arith);
  events = ([], sym (append-nil db.events));
  logs = (row ∷ [], refl);
  stored = λ id old found. found;
}

insert_draft-Extends : (draft : Draft) (db : Database) → Extends db (insert_draft draft db)
unfolding insert_draft
insert_draft-Extends draft db = elim (Bool-cases (draft_id_taken draft.draft_id db)) [
  | inl taken ↦ rw (taken, insert_draft) (Extends-refl db)
  | inr free ↦
      rw (free, insert_draft)
        (record {
          drafts = λ session d found. (
            d,
            select-append_some (draft_of session) db.drafts (draft ∷ []) d found,
            omega arith,
          );
          events = ([], sym (append-nil db.events));
          logs = ([], sym (append-nil db.logs));
          stored = λ id old at. at;
        })
]

pub ensure_draft-Extends :
    (session draft_id : Text) (now : ℕ) (db : Database)
    → Extends db (ensure_draft session draft_id now db)
unfolding ensure_draft
ensure_draft-Extends session draft_id now db =
    elim (Bool-cases (is_some (select (draft_of session) db.drafts))) [
      | inl there ↦ rw there (Extends-refl db)
      | inr missing ↦ rw missing (
          insert_draft-Extends
            (new_draft session draft_id now (controller_of (previous_log db session))) db)
    ]

module _ (f : Draft → Draft) (current : Draft)
    (keep : (d : Draft) → (f d).session_id ≡ d.session_id)
    (grow : (d : Draft) → d.version ≤ (f d).version) where
  modified-Extends :
      (db : Database)
      → Extends db (record db {
        drafts = modify (at_version current.session_id current.version) f db.drafts;
      })
  modified-Extends db = record {
    drafts = λ session d found.
        let q = at_version current.session_id current.version in
        (
          if q d then f d else d,
          select-modify (draft_of session) q f db.drafts d
              (λ y. ap (λ id. text_eq id session) (keep y)) found,
          elim (Bool-cases (q d)) [ inl hit ↦ rw hit (grow d) | inr miss ↦ rw miss (omega arith) ],
        );
    events = ([], sym (append-nil db.events));
    logs = ([], sym (append-nil db.logs));
    stored = λ id old at. at;
  }

  update_draft-Extends : (db : Database) → Extends db (state (update_draft f current db))
  unfolding update_draft
  update_draft-Extends db =
      elim (Bool-cases (changes (at_version current.session_id current.version) db.drafts == 1)) [
        | inl one ↦ rw one (modified-Extends db)
        | inr other ↦ rw other (modified-Extends db)
      ]

pub update_selected-Extends :
    (user : Text) (now : ℕ) (revs : Revisions) (candidate : Candidate) (current : Draft)
    (db : Database)
    → Extends db (state (update_draft (selected_row user now revs candidate) current db))
unfolding selected_row
update_selected-Extends user now revs candidate current db =
    update_draft-Extends _ current (λ d. refl) (λ d. omega arith) db

pub update_patched-Extends :
    (user : Text) (now : ℕ) (revs : Revisions) (updates : List Update) (current : Draft)
    (db : Database)
    → Extends db (state (update_draft (patched_row user now revs updates) current db))
unfolding patched_row
update_patched-Extends user now revs updates current db =
    update_draft-Extends _ current (λ d. refl) (λ d. omega arith) db

pub update_reset-Extends :
    (draft_id actor : Text) (now : ℕ) (input : Option CommitInput) (current : Draft) (db : Database)
    → Extends db (state (update_draft (reset_row draft_id actor now input current) current db))
update_reset-Extends draft_id actor now input current db =
    update_draft-Extends _ current (λ d. refl) (λ d. omega arith) db

pub store_response-Extends :
    (row : StoredMutation) (db : Database) → Extends db (state (store_response row db))
unfolding store_response
store_response-Extends row db =
    elim (Bool-cases (is_some (select (answers row.mutation_id) db.processed))) [
      | inl old ↦ rw old (Extends-refl db)
      | inr new ↦ rw new (record {
        drafts = λ session d found. (d, found, omega arith);
        events = ([], sym (append-nil db.events));
        logs = ([], sym (append-nil db.logs));
        stored = λ id other at. select-append_some (answers id) db.processed (row ∷ []) other at;
      })
    ]

insert_event-Extends : (event : Event) (db : Database) → Extends db (state (insert_event event db))
unfolding insert_event
insert_event-Extends event db = elim (Bool-cases (is_some (select (clashes event) db.events))) [
  | inl clash ↦ rw clash (Extends-refl db)
  | inr free ↦ rw free (record {
    drafts = λ session d found. (d, found, omega arith);
    events = (event ∷ [], refl);
    logs = ([], sym (append-nil db.logs));
    stored = λ id other at. at;
  })
]

insert_with_seq-Extends :
    (input : EventInput) (db : Database) → Extends db (state (insert_with_seq input db))
unfolding insert_with_seq
insert_with_seq-Extends input db = elim (Option-cases (find_session db input.session_id)) [
  | inl missing ↦ rw (missing, insert_with_seq) (Extends-refl db)
  | inr (row, found) ↦ elim (Option-cases (select (user_has_id input.actor_user_id) db.users)) [
    | inl unknown ↦ rw (found, unknown, insert_with_seq) (Extends-refl db)
    | inr (actor, known) ↦
        rw (found, known, insert_with_seq)
          (insert_event-Extends (event_of input row.event_seq actor.username) db)
  ]
]

allocate_seq-Extends :
    (session : Text) (now : ℕ) (db : Database) → Extends db (allocate_seq session now db)
unfolding allocate_seq
allocate_seq-Extends session now db = elsewhere db _ refl refl refl refl

pub append-Extends :
    (input : EventInput) (db : Database) → Extends db (state (append_session_event input db))
unfolding append_session_event
append-Extends input db =
    let allocated = allocate_seq-Extends input.session_id input.occurred_at db in
    elim (Bool-cases (changes (has_id input.session_id) db.sessions == 1)) [
      | inl one ↦ rw one (
          Extends-trans allocated
            (insert_with_seq-Extends input (allocate_seq input.session_id input.occurred_at db)))
      | inr other ↦ rw other allocated
    ]
