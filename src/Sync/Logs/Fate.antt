-- ===== src/Sync/Logs/Fate.antt =====
-- What an operation on a log can come to.
use open_log_tool_server.Base.{
  ◌+◌, Text, Bool, true, false, List, [], ◌∷◌, ◌++◌, Option, none, some, text_eq_iff, is_some, ◌≡◌,
  ◌⊎◌, inl, inr, refl, sym, ap, ◌∙◌, arith, Bool-cases,
}
use open_log_tool_server.Base.Table.{
  select, select-modify, select-holds, select-modify_apart, select-snoc_apart, select-snoc_new,
}
use open_log_tool_server.Base.Outcome.{Outcome, done, raised, Fault, app_error, internal, and_then}
use open_log_tool_server.Collaboration.Rows.{
  SessionRow, LogRow, EventType, Event, log_payload, Database,
}
use open_log_tool_server.Collaboration.Access.{has_id, find_session}
use open_log_tool_server.Collaboration.Events.{
  EventInput, allocate_seq, append_session_event, insert_with_seq, insert_event,
}
use open_log_tool_server.Collaboration.Events.Append.{append-Appended}
use open_log_tool_server.Collaboration.Events.Gapless.{IsGapless, append-IsGapless}
use open_log_tool_server.Sync.Operation.{Operation, Call, Mutated, log_dto, accept, accepted_result}
use open_log_tool_server.Sync.Logs.{
  is_log, read_log, accept_written, conflict_with, is_version, write_log,
}

-- The version that the client has seen is the one that is there; 0 stands for no log.
abbrev pub Based : Operation → Option LogRow → Type 0
Based op none = op.base_version ≡ 0
Based op (some old) = old.version ≡ op.base_version

-- An accepted operation: the log is at the next version, the event says so under the next number
-- of the Session, and no other log has changed.
pub record Written (session : Text) (op : Operation) (db : Database) (m : Mutated) (db' : Database)
    : Type 0 where
  pub based : Based op (read_log db session op.entity_id)
  pub event : Event
  pub result : m ≡ accepted_result op event
  pub row : LogRow
  pub read : read_log db' session op.entity_id ≡ some row
  pub version : row.version ≡ op.base_version + 1
  pub event_version : event.entity_version ≡ row.version
  pub event_payload : event.payload ≡ log_payload (log_dto row)
  pub before : SessionRow
  pub found : find_session db session ≡ some before
  pub event_seq : event.seq ≡ before.event_seq + 1
  pub event_log : db'.events ≡ db.events ++ event ∷ []
  pub frame :
      (session' sync' : Text)
      → ¬ ((session' ≡ session) × (sync' ≡ op.entity_id))
      → read_log db' session' sync' ≡ read_log db session' sync'
  pub gapless : IsGapless db → IsGapless db'
  pub processed : db'.processed ≡ db.processed

-- A conflict: nothing has changed, and the client is told what is there.
pub record Conflicted (session : Text) (op : Operation) (db : Database) (m : Mutated)
    (db' : Database) : Type 0 where
  pub unchanged : db' ≡ db
  pub current : LogRow
  pub read : read_log db session op.entity_id ≡ some current
  pub result : m ≡ conflict_with op current

unfoldable pub Fate : Text → Operation → Database → Outcome Database Mutated → Type 0
Fate session op db (done m db') = Conflicted session op db m db' ⊎ Written session op db m db'
Fate session op db (raised (app_error status code) db') = db' ≡ db
Fate session op db (raised internal db') = Unit

pub append-internal :
    (input : EventInput) (db db' : Database) (fault : Fault)
    → append_session_event input db ≡ raised fault db'
    → fault ≡ internal
unfolding append_session_event insert_with_seq insert_event
append-internal input db db' fault h = ground arith

pub append-logs :
    (input : EventInput) (db db' : Database) (event : Event)
    → append_session_event input db ≡ done event db'
    → db'.logs ≡ db.logs
append-logs input db db' event h =
    unfold allocate_seq in ap (λ d. d.logs) (append-Appended input db event db' h).state_is

-- The statement that a write to the logs has been made before the event is appended.
pub record Wrote (session : Text) (op : Operation) (db db1 : Database) : Type 0 where
  pub row : LogRow
  pub based : Based op (read_log db session op.entity_id)
  pub read : read_log db1 session op.entity_id ≡ some row
  pub version : row.version ≡ op.base_version + 1
  pub only_logs : (logs : List LogRow) × (db1 ≡ record db { logs = logs })
  pub frame :
      (session' sync' : Text)
      → ¬ ((session' ≡ session) × (sync' ≡ op.entity_id))
      → read_log db1 session' sync' ≡ read_log db session' sync'

IsGapless-logs :
    (db : Database) (logs : List LogRow) → IsGapless db → IsGapless (record db { logs = logs })
unfolding find_session
IsGapless-logs db logs v = record { bounded = v.bounded; counted = v.counted }

append-Written :
    (session : Text) (op : Operation) (call : Call) (type : EventType) (db db1 db' : Database)
    (event : Event) (input : EventInput)
    → (w : Wrote session op db db1) → input.session_id ≡ session
    → input.entity_version ≡ w.row.version
    → input.payload ≡ log_payload (log_dto w.row)
    → append_session_event input db1 ≡ done event db'
    → Written session op db (accepted_result op event) db'
append-Written session op call type db db1 db' event input w same ver payload h =
    let a = append-Appended input db1 event db' h in
    let (logs, only) = w.only_logs in
    let same_logs = append-logs input db1 db' event h in
    record {
      based = w.based;
      event = event;
      result = refl;
      row = w.row;
      read = unfold read_log in rw same_logs w.read;
      version = w.version;
      event_version = ap (λ e. e.entity_version) a.event_is ∙ ver;
      event_payload = ap (λ e. e.payload) a.event_is ∙ payload;
      before = a.row;
      found =
          unfold find_session in
          ap (λ id. find_session db id) (sym same)
          ∙ ap (λ rows. select (has_id input.session_id) rows) (sym (ap (λ d. d.sessions) only))
          ∙ a.found;
      event_seq = ap (λ e. e.seq) a.event_is;
      event_log =
          unfold allocate_seq in
          ap (λ d. d.events) a.state_is
          ∙ ap (λ events. events ++ event ∷ []) (ap (λ d. d.events) only);
      frame =
          λ session' sync' other. unfold read_log in rw same_logs (w.frame session' sync' other);
      gapless = λ v. append-IsGapless input db1 event db' (rw only (IsGapless-logs db logs v)) h;
      processed =
          unfold allocate_seq in ap (λ d. d.processed) a.state_is ∙ ap (λ d. d.processed) only;
    }

accept-Fate :
    (session : Text) (op : Operation) (db : Database) (o : Outcome Database Event)
    → ((event : Event) (db' : Database)
        → o ≡ done event db'
        → Written session op db (accepted_result op event) db')
    → ((fault : Fault) (db' : Database) → o ≡ raised fault db' → fault ≡ internal)
    → Fate session op db (and_then o (λ event db'. done (accepted_result op event) db'))
unfolding Fate
accept-Fate session op db (done event db') written plain = inr (written event db' refl)
accept-Fate session op db (raised internal db') written plain = tt
accept-Fate session op db (raised (app_error status code) db') written plain =
    cc (plain (app_error status code) db' refl)

-- After the write, the event is appended or the run ends in a plain exception.
pub accept_written-Fate :
    (session : Text) (op : Operation) (call : Call) (type : EventType) (db db1 : Database)
    → Wrote session op db db1
    → Fate session op db (accept_written op call session type db1)
unfolding accept_written accept
accept_written-Fate session op call type db db1 w =
    rw (w.read, accept_written)
      (accept-Fate session op db _
        (λ event db' h. append-Written session op call type db db1 db' event _ w refl refl refl h)
        (λ fault db' h. append-internal _ db1 db' fault h))

is_log-apart :
    (s t s' t' : Text) (row : LogRow)
    → ¬ ((s' ≡ s) × (t' ≡ t))
    → is_log s t row ≡ true
    → is_log s' t' row ≡ false
is_log-apart s t s' t' row other h = elim (Bool-cases (is_log s' t' row)) [
  | inl both ↦
      let same : (s' ≡ s) × (t' ≡ t) = ground (
        arith,
        text_eq_iff row.session_id s,
        text_eq_iff row.session_id s',
        text_eq_iff row.sync_id t,
        text_eq_iff row.sync_id t',
      ) in
      absurd (other same)
  | inr left ↦ left
]

is_version-current :
    (session sync : Text) (current : LogRow) (deleted : Bool)
    → is_log session sync current ≡ true
    → is_some current.deleted_at ≡ deleted
    → is_version session sync current.version deleted current ≡ true
is_version-current session sync current true h e = ground arith
is_version-current session sync current false h e = ground arith

-- The two writes that an operation can make: to a log that is there, or of a new one.
pub write_log-Wrote :
    (session : SessionRow) (op : Operation) (current : LogRow) (deleted : Bool)
    (f : LogRow → LogRow) (db : Database)
    → read_log db session.id op.entity_id ≡ some current
    → op.base_version ≡ current.version
    → is_some current.deleted_at ≡ deleted
    → ((y : LogRow) → (f y).session_id ≡ y.session_id)
    → ((y : LogRow) → (f y).sync_id ≡ y.sync_id)
    → (f current).version ≡ current.version + 1
    → Wrote session.id op db (write_log session op current deleted f db)
unfolding write_log
write_log-Wrote session op current deleted f db at base del keep_session keep_sync next =
    let q = is_version session.id op.entity_id current.version deleted in
    let keep : (s t : Text) (y : LogRow) → is_log s t (f y) ≡ is_log s t y =
      λ s t y. rw (keep_session y, keep_sync y) in
    let at' : select (is_log session.id op.entity_id) db.logs ≡ some current =
      unfold read_log in at in
    let hit : q current ≡ true =
      is_version-current session.id op.entity_id current deleted
        (select-holds (is_log session.id op.entity_id) db.logs current at') del in
    record {
      row = f current;
      based = rw at (sym base);
      read =
          unfold read_log in
          select-modify (is_log session.id op.entity_id) q f db.logs current
            (keep session.id op.entity_id) at'
          ∙ rw hit;
      version = rw base next;
      only_logs = (_, refl);
      frame = λ session' sync' other.
          unfold read_log in
          select-modify_apart (is_log session' sync') q f db.logs (keep session' sync') (λ y picked.
            is_log-apart session.id op.entity_id session' sync' y other (ground arith));
    }

mine :
    (session : SessionRow) (op : Operation) (row : LogRow)
    → row.session_id ≡ session.id
    → row.sync_id ≡ op.entity_id
    → is_log session.id op.entity_id row ≡ true
mine session op row same_session same_sync =
    ground (arith, text_eq_iff row.session_id session.id, text_eq_iff row.sync_id op.entity_id)

pub create-Wrote :
    (session : SessionRow) (op : Operation) (row : LogRow) (db : Database)
    → read_log db session.id op.entity_id ≡ none
    → op.base_version ≡ 0
    → row.session_id ≡ session.id
    → row.sync_id ≡ op.entity_id
    → row.version ≡ 1
    → Wrote session.id op db (record db { logs = db.logs ++ row ∷ [] })
create-Wrote session op row db at base same_session same_sync first = record {
  row = row;
  based = rw at base;
  read =
      unfold read_log in
      select-snoc_new (is_log session.id op.entity_id) db.logs row at
        (mine session op row same_session same_sync);
  version = first ∙ rw base;
  only_logs = (_, refl);
  frame = λ session' sync' other.
      unfold read_log in
      select-snoc_apart (is_log session' sync') db.logs row (
        is_log-apart session.id op.entity_id session' sync' row other
          (mine session op row same_session same_sync));
}
