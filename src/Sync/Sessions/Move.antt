-- ===== src/Sync/Sessions/Move.antt =====
-- The states of a Session, and the moves that `mutateSession` makes between them.
use open_log_tool_server.Base.{
  ◌+◌, Text, Bool, true, List, none, some, text_eq_iff, ==_iff, if◌then◌else◌, is_some, ◌≡◌, ◌≢◌,
  inl, inr, refl, sym, ◌∙◌, arith, Bool-cases, Option-cases,
}
use open_log_tool_server.Base.Table.{
  select, modify, select-modify, select-modify-none, select-modify_apart,
}
use open_log_tool_server.Collaboration.Rows.{
  Status, initializing, active, closed, SessionRow, EventType, session_updated, session_closed,
  session_reopened, session_deleted, Database,
}
use open_log_tool_server.Collaboration.Access.{has_id, find_session}
use open_log_tool_server.Collaboration.Events.Gapless.{IsGapless}
use open_log_tool_server.Sync.Sessions.{is_session_version}

-- The state machine of a Session that is not deleted. A deletion keeps the status.
abbrev pub Move : EventType → SessionRow → SessionRow → Type 0
Move session_updated row after =
    (row.status ≢ initializing) × (after.status ≡ row.status) × (after.deleted_at ≡ none)
Move session_closed row after =
    (row.status ≡ active) × (after.status ≡ closed) × (after.deleted_at ≡ none)
Move session_reopened row after =
    (row.status ≡ closed) × (after.status ≡ active) × (after.deleted_at ≡ none)
Move session_deleted row after =
    (row.status ≢ active) × (after.status ≡ row.status) × (is_some after.deleted_at ≡ true)
Move _ row after = ⊥

-- What a change has written before its event: this Session moved to its next version, and no
-- other Session, log or event is touched.
pub record Changed (row : SessionRow) (db : Database) (type : EventType) (db' : Database)
    : Type 0 where
  pub after : SessionRow
  pub found : find_session db' row.id ≡ some after
  pub same_id : after.id ≡ row.id
  pub version : after.version ≡ row.version + 1
  pub event_seq : after.event_seq ≡ row.event_seq
  pub move : Move type row after
  pub others : (id : Text) → id ≢ row.id → find_session db' id ≡ find_session db id
  pub logs : db'.logs ≡ db.logs
  pub events : db'.events ≡ db.events
  pub gapless : IsGapless db → IsGapless db'
  pub processed : db'.processed ≡ db.processed

module _ (row : SessionRow) (db : Database) (found : find_session db row.id ≡ some row)
    (kept : row.deleted_at ≡ none) where
  is_session_version-holds :
      (allowed : Status → Bool)
      → allowed row.status ≡ true
      → is_session_version row.id row.version allowed row ≡ true
  is_session_version-holds allowed h =
      let same_id = (text_eq_iff row.id row.id).1 refl in
      let same_version = (==_iff row.version row.version).1 refl in
      rw (same_id, same_version, h, kept)

  module _ (allowed : Status → Bool) (f : SessionRow → SessionRow)
      (same_id : (r : SessionRow) → (f r).id ≡ r.id)
      (same_seq : (r : SessionRow) → (f r).event_seq ≡ r.event_seq)
      (same_min : (r : SessionRow) → (f r).min_retained_seq ≡ r.min_retained_seq) where
    abbrev rows : List SessionRow
    rows = modify (is_session_version row.id row.version allowed) f db.sessions

    has_id-written : (id : Text) (r : SessionRow) → has_id id (f r) ≡ has_id id r
    has_id-written id r = rw (same_id r)

    -- A Session after the write is one before it, with the same counters.
    find_session-written :
        (db' : Database) (id : Text) (after : SessionRow)
        → db'.sessions ≡ rows
        → find_session db' id ≡ some after
        → (before : SessionRow) × (find_session db id ≡ some before)
          × (after.event_seq ≡ before.event_seq)
          × (after.min_retained_seq ≡ before.min_retained_seq)
    unfolding find_session
    find_session-written db' id after sessions h =
        let q = is_session_version row.id row.version allowed in
        let h' : select (has_id id) rows ≡ some after = rw sessions at h in
        elim (Option-cases (select (has_id id) db.sessions)) [
          | inl absent ↦
              cc (select-modify-none (has_id id) q f db.sessions (has_id-written id) absent)
          | inr (before, at) ↦
              let e = select-modify (has_id id) q f db.sessions before (has_id-written id) at in
              let is : some (if q before then f before else before) ≡ some after = sym e ∙ h' in
              elim (Bool-cases (q before)) [
                | inl hit ↦
                    let same : f before ≡ after = cc (rw hit at is) in
                    (before, at, cc (same_seq before), cc (same_min before))
                | inr missed ↦
                    let same : before ≡ after = cc (rw missed at is) in (before, at, cc, cc)
              ]
        ]

    modified-IsGapless :
        (db' : Database)
        → db'.sessions ≡ rows
        → db'.events ≡ db.events
        → IsGapless db
        → IsGapless db'
    modified-IsGapless db' sessions events v = record {
      bounded = λ id after at.
          let (before, at', seq, min) = find_session-written db' id after sessions at in
          let le = v.bounded id before at' in rw (seq, min) le;
      counted = λ id after at.
          let (before, at', seq, min) = find_session-written db' id after sessions at in
          rw (seq, min, events) (v.counted id before at');
    }

    pub write-Changed :
        (type : EventType) (db' : Database)
        → allowed row.status ≡ true
        → (f row).version ≡ row.version + 1
        → Move type row (f row)
        → db'.sessions ≡ rows
        → db'.logs ≡ db.logs
        → db'.events ≡ db.events
        → db'.processed ≡ db.processed
        → Changed row db type db'
    unfolding find_session
    write-Changed type db' may next move sessions logs events processed =
        let q = is_session_version row.id row.version allowed in
        let hit : q row ≡ true = is_session_version-holds allowed may in
        record {
          after = f row;
          found = rw sessions (
              select-modify (has_id row.id) q f db.sessions row (has_id-written row.id) found
              ∙ rw hit);
          same_id = same_id row;
          version = next;
          event_seq = same_seq row;
          move = move;
          others = λ id other. rw sessions (
              select-modify_apart (has_id id) q f db.sessions (has_id-written id)
                (λ y picked. ground (arith, text_eq_iff y.id id, text_eq_iff y.id row.id)));
          logs = logs;
          events = events;
          gapless = modified-IsGapless db' sessions events;
          processed = processed;
        }
