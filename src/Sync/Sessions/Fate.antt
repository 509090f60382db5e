-- ===== src/Sync/Sessions/Fate.antt =====
-- `mutateSession` as a whole: what it may write, and when.
use open_log_tool_server.Base.{
  ℕ, ◌+◌, ◌<◌, Text, true, List, [], ◌∷◌, ◌++◌, none, some, ◌==◌, ==_iff, text_eq_iff, ◌≡◌, ◌≢◌,
  ◌⊎◌, inl, inr, refl, sym, ap, ◌∙◌, arith, Bool-cases,
}
use open_log_tool_server.Base.Table.{select-modify_apart}
use open_log_tool_server.Base.Outcome.{
  Outcome, done, raised, Fault, app_error, internal, Result, ok, err, attempt, and_then,
}
use open_log_tool_server.Collaboration.Rows.{
  Role, SessionRow, Audit, Event, EventType, session_activated, session_updated, session_closed,
  session_reopened, session_deleted, log_created, log_updated, log_deleted, log_restored,
  session_conflict, Database,
}
use open_log_tool_server.Collaboration.Access.{has_id, find_session}
use open_log_tool_server.Collaboration.Events.{
  EventInput, next_seq, allocate_seq, append_session_event,
}
use open_log_tool_server.Collaboration.Events.Append.{append-Appended, find_session-allocate_seq}
use open_log_tool_server.Collaboration.Events.Gapless.{IsGapless, append-IsGapless}
use open_log_tool_server.Sync.Operation.{
  Operation, Call, Mutated, session_event_dto, accept, accepted_result,
}
use open_log_tool_server.Sync.Logs.Fate.{append-internal, append-logs}
use open_log_tool_server.Sync.Sessions.{
  World, SessionOptions, SessionChange, finish_session, change_session, changed_then_finished,
  audited, is_deletion, finished, mutate_session,
}
use open_log_tool_server.Sync.Sessions.Move.{Move, Changed}
use open_log_tool_server.Sync.Sessions.Branches.{Stepped, change_session-Stepped}

-- An accepted operation: the Session has made a legal move to its next version, the event says so
-- under its next number, and neither another Session nor any log has changed.
pub record Moved (row : SessionRow) (op : Operation) (db : Database) (m : Mutated) (db' : Database)
    : Type 0 where
  pub based : op.base_version ≡ row.version
  pub event : Event
  pub result : m ≡ accepted_result op event
  pub after : SessionRow
  pub found : find_session db' row.id ≡ some after
  pub version : after.version ≡ row.version + 1
  pub event_seq : after.event_seq ≡ row.event_seq + 1
  pub seq : event.seq ≡ after.event_seq
  pub move : Move event.type row after
  pub events : db'.events ≡ db.events ++ event ∷ []
  pub others : (id : Text) → id ≢ row.id → find_session db' id ≡ find_session db id
  pub logs : db'.logs ≡ db.logs
  pub gapless : IsGapless db → IsGapless db'
  pub processed : db'.processed ≡ db.processed

-- A conflict: nothing has changed, and the client is told what is there.
pub record Refused (row : SessionRow) (op : Operation) (w : World) (m : Mutated) (w' : World)
    : Type 0 where
  pub stale : op.base_version ≢ row.version
  pub unchanged : w' ≡ w
  pub result : m ≡ record {
    result = session_conflict op.mutation_id row.version (session_event_dto row);
    event = none;
  }

unfoldable pub SessionFate : SessionRow → Operation → World → Outcome World Mutated → Type 0
SessionFate row op w (done m w') = Refused row op w m w' ⊎ Moved row op w.database m w'.database
SessionFate row op w (raised (app_error status code) w') = status < 500 → w'.database ≡ w.database
SessionFate row op w (raised internal w') = Unit

attempt-SessionFate :
    {A : Type 0} (row : SessionRow) (op : Operation) (w : World) (r : Result A)
    (k : A → Outcome World Mutated)
    → ((a : A) → r ≡ ok a → SessionFate row op w (k a))
    → SessionFate row op w (attempt r w k)
unfolding SessionFate attempt
attempt-SessionFate row op w (ok a) k h = h a refl
attempt-SessionFate row op w (err (app_error status code)) k h = λ _. refl
attempt-SessionFate row op w (err internal) k h = tt

-- The event's own write of the Session is no move.
Move-next_seq :
    (type : EventType) (row after : SessionRow) (now : ℕ)
    → Move type row after
    → Move type row (next_seq now after)
Move-next_seq session_activated row after now m = m
Move-next_seq session_updated row after now m = m
Move-next_seq session_closed row after now m = m
Move-next_seq session_reopened row after now m = m
Move-next_seq session_deleted row after now m = m
Move-next_seq log_created row after now m = m
Move-next_seq log_updated row after now m = m
Move-next_seq log_deleted row after now m = m
Move-next_seq log_restored row after now m = m

find_session-allocated_apart :
    (id other : Text) (now : ℕ) (db : Database)
    → other ≢ id
    → find_session (allocate_seq id now db) other ≡ find_session db other
unfolding find_session allocate_seq
find_session-allocated_apart id other now db apart =
    select-modify_apart (has_id other) (has_id id) (next_seq now) db.sessions (λ y. refl)
      (λ y own. ground (arith, text_eq_iff y.id id, text_eq_iff y.id other))

find_session-sessions :
    (db db' : Database) (id : Text)
    → db'.sessions ≡ db.sessions
    → find_session db' id ≡ find_session db id
unfolding find_session
find_session-sessions db db' id same = rw same

-- The event after the change of the Session.
append-Moved :
    (row : SessionRow) (op : Operation) (db db1 : Database) (type : EventType) (input : EventInput)
    (event : Event) (db' : Database)
    → op.base_version ≡ row.version
    → input.session_id ≡ row.id
    → input.type ≡ type
    → Changed row db type db1
    → append_session_event input db1 ≡ done event db'
    → Moved row op db (accepted_result op event) db'
append-Moved row op db db1 type input event db' based same_id same_type c h =
    let a = append-Appended input db1 event db' h in
    let sessions : db'.sessions ≡ (allocate_seq input.session_id input.occurred_at db1).sessions =
      ap (λ d. d.sessions) a.state_is in
    let same_row : a.row ≡ c.after = cc (a.found, c.found, ap (find_session db1) same_id) in
    let read : (id : Text)
        → find_session db' id
          ≡ find_session (allocate_seq input.session_id input.occurred_at db1) id =
      λ id.
        find_session-sessions (allocate_seq input.session_id input.occurred_at db1) db' id
          sessions in
    let own : has_id input.session_id c.after ≡ true =
      (text_eq_iff c.after.id input.session_id).1 (c.same_id ∙ sym same_id) in
    record {
      based = based;
      event = event;
      result = refl;
      after = next_seq input.occurred_at c.after;
      found =
          read row.id
          ∙ find_session-allocate_seq input.session_id row.id input.occurred_at db1 c.after c.found
          ∙ rw own;
      version = c.version;
      event_seq = ap (λ n. n + 1) c.event_seq;
      seq = ap (λ e. e.seq) a.event_is ∙ ap (λ (r : SessionRow). r.event_seq + 1) same_row;
      move =
          rw (ap (λ e. e.type) a.event_is ∙ same_type)
            (Move-next_seq type row c.after input.occurred_at c.move);
      events =
          unfold allocate_seq in
          ap (λ d. d.events) a.state_is ∙ ap (λ events. events ++ event ∷ []) c.events;
      others = λ id other.
          read id
          ∙ find_session-allocated_apart input.session_id id input.occurred_at db1
              (λ e. other (e ∙ same_id))
          ∙ c.others id other;
      logs = append-logs input db1 db' event h ∙ c.logs;
      gapless = λ v. append-IsGapless input db1 event db' (c.gapless v) h;
      processed = unfold allocate_seq in ap (λ d. d.processed) a.state_is ∙ c.processed;
    }

-- An audit is seen by no other table.
Moved-audits :
    (row : SessionRow) (op : Operation) (db : Database) (m : Mutated) (db' : Database)
    (audits : List Audit)
    → Moved row op db m db'
    → Moved row op db m (record db' { audits = audits })
unfolding find_session
Moved-audits row op db m db' audits v = record {
  based = v.based;
  event = v.event;
  result = v.result;
  after = v.after;
  found = v.found;
  version = v.version;
  event_seq = v.event_seq;
  seq = v.seq;
  move = v.move;
  events = v.events;
  others = v.others;
  logs = v.logs;
  gapless =
      λ g. let after = v.gapless g in record { bounded = after.bounded; counted = after.counted };
  processed = v.processed;
}

module _ (row : SessionRow) (op : Operation) (call : Call) (options : SessionOptions) where
  audited-Moved :
      (change : SessionChange) (db db' : Database) (updated : SessionRow) (event : Event)
      → Moved row op db (accepted_result op event) db'
      → Moved row op db
          (accepted_result op event)
          (audited row op call options updated change (some event) db')
  audited-Moved change db db' updated event m = elim (Bool-cases (is_deletion change.type)) [
    | inl deletion ↦ rw deletion (Moved-audits row op db _ db' _ m)
    | inr other ↦ rw other m
  ]

  finished-Fate :
      (change : SessionChange) (w w1 : World) (updated : SessionRow) (o : Outcome Database Event)
      → ((event : Event) (db' : Database)
          → o ≡ done event db'
          → Moved row op w.database (accepted_result op event) db')
      → ((fault : Fault) (db' : Database) → o ≡ raised fault db' → fault ≡ internal)
      → SessionFate row op w (
          finished row op call options updated change w1
            (and_then o (λ event db'. done (accepted_result op event) db')))
  unfolding SessionFate
  finished-Fate change w w1 updated (done event db') moved plain =
      inr (audited-Moved change w.database db' updated event (moved event db' refl))
  finished-Fate change w w1 updated (raised internal db') moved plain = tt
  finished-Fate change w w1 updated (raised (app_error status code) db') moved plain =
      cc (plain (app_error status code) db' refl)

  finish-Fate :
      (change : SessionChange) (w w1 : World)
      → op.base_version ≡ row.version
      → Changed row w.database change.type w1.database
      → SessionFate row op w (finish_session row op call options change w1)
  unfolding finish_session accept
  finish-Fate change w w1 based c =
      rw (c.found, finish_session)
        (finished-Fate change w w1 c.after _
          (λ event db' h.
            append-Moved row op w.database w1.database change.type _ event db' based refl refl c h)
          (λ fault db' h. append-internal _ w1.database db' fault h))

  module _ (w : World) (found : find_session w.database row.id ≡ some row)
      (kept : row.deleted_at ≡ none) where
    changed_then_finished-Fate :
        (o : Outcome World SessionChange)
        → op.base_version ≡ row.version
        → Stepped row w o
        → SessionFate row op w (changed_then_finished row op call options o)
    unfolding Stepped SessionFate
    changed_then_finished-Fate (done change w1) based s = finish-Fate change w w1 based s
    changed_then_finished-Fate (raised (app_error status code) w1) based s = s
    changed_then_finished-Fate (raised internal w1) based s = tt

    -- An operation on a Session that is found and not deleted either throws, and an AppError
    -- below 500 leaves the database as it was; or is refused because its version is not the
    -- present one, with nothing changed; or makes a move of the state machine of Sessions to the
    -- next version, with one event, and changes no other Session and no log.
    pub mutate_session-Fate :
        (role : Role) → SessionFate row op w (mutate_session row op call options role w)
    unfolding mutate_session
    mutate_session-Fate role = attempt-SessionFate row op w _ _ λ _ _.
        elim (Bool-cases (op.base_version == row.version)) [
          | inl same ↦
              let based = (==_iff op.base_version row.version).0 same in
              rw same (
                changed_then_finished-Fate (change_session row op call options w) based
                  (change_session-Stepped row op call options w found kept))
          | inr stale ↦
              let differs : op.base_version ≢ row.version =
                λ e. ground (arith, ==_iff op.base_version row.version) in
              rw stale (
                unfold SessionFate in
                inl (record { stale = differs; unchanged = refl; result = refl }))
        ]
