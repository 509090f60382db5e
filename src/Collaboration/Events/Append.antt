-- ===== src/Collaboration/Events/Append.antt =====
-- What `appendSessionEvent` does to the database when it returns.
use open_log_tool_server.Base.{
  ℕ, ◌+◌, Text, true, false, All, All-map, text_eq_iff, ◌≢◌, [], ◌∷◌, ◌++◌, none, some,
  if◌then◌else◌, ◌≡◌, refl, sym, ◌∙◌, inl, inr, Option-cases, arith,
}
use open_log_tool_server.Base.Table.{
  select, changes, select-holds, changes-select, select-modify, select-modify-none,
  select-modify_apart,
}
use open_log_tool_server.Base.Counts.{All-unselected}
use open_log_tool_server.Base.Outcome.{done}
use open_log_tool_server.Collaboration.Rows.{SessionRow, UserRow, Event, Database}
use open_log_tool_server.Collaboration.Access.{has_id, find_session}
use open_log_tool_server.Collaboration.Events.{
  EventInput, event_of, next_seq, allocate_seq, clashes, insert_event, insert_with_seq,
  append_session_event, user_has_id,
}

-- After the allocation the Session's counter is one more, and other Sessions are as they were.
pub find_session-allocate_seq :
    (session id : Text) (now : ℕ) (db : Database) (row : SessionRow)
    → find_session db id ≡ some row
    → find_session (allocate_seq session now db) id
      ≡ some (if has_id session row then next_seq now row else row)
unfolding find_session allocate_seq
find_session-allocate_seq session id now db row h =
    select-modify (has_id id) (has_id session) (next_seq now) db.sessions row (λ y. refl) h

pub find_session-allocate_seq-none :
    (session id : Text) (now : ℕ) (db : Database)
    → find_session db id ≡ none
    → find_session (allocate_seq session now db) id ≡ none
unfolding find_session allocate_seq
find_session-allocate_seq-none session id now db h =
    select-modify-none (has_id id) (has_id session) (next_seq now) db.sessions (λ y. refl) h

find_session-allocate_seq_other :
    (input : EventInput) (db : Database) (id : Text)
    → id ≢ input.session_id
    → find_session (allocate_seq input.session_id input.occurred_at db) id ≡ find_session db id
unfolding find_session allocate_seq
find_session-allocate_seq_other input db id apart =
    select-modify_apart (has_id id) (has_id input.session_id) (next_seq input.occurred_at)
      db.sessions (λ y. refl)
      (λ y own. ground (arith, text_eq_iff y.id id, text_eq_iff y.id input.session_id))

-- The state that an append that returns leaves: one more event at the end of the log, and the
-- counter of its Session one up.
pub record Appended (input : EventInput) (db : Database) (event : Event) (db' : Database)
    : Type 0 where
  pub row : SessionRow
  pub found : find_session db input.session_id ≡ some row
  pub actor : UserRow
  pub known : select (user_has_id input.actor_user_id) db.users ≡ some actor
  pub event_is : event ≡ record {
    event_id = input.event_id;
    session_id = input.session_id;
    seq = row.event_seq + 1;
    type = input.type;
    entity_type = input.entity_type;
    entity_id = input.entity_id;
    entity_version = input.entity_version;
    mutation_id = input.mutation_id;
    actor_user_id = input.actor_user_id;
    actor_device_id = input.actor_device_id;
    actor_display_name = actor.username;
    occurred_at = input.occurred_at;
    payload = input.payload;
  }
  pub unused : All (λ (old : Event). old.event_id ≢ event.event_id) db.events
  pub counter :
      find_session db' input.session_id
      ≡ some (record row { event_seq = row.event_seq + 1; updated_at = input.occurred_at })
  pub others : (id : Text) → id ≢ input.session_id → find_session db' id ≡ find_session db id
  pub rest : db' ≡ record db { sessions = db'.sessions; events = db.events ++ event ∷ [] }
  pub state_is : db' ≡ record (allocate_seq input.session_id input.occurred_at db) {
    events = db.events ++ event ∷ [];
  }

insert_event-done :
    (event e : Event) (db db' : Database)
    → insert_event event db ≡ done e db'
    → (event ≡ e)
      × (select (clashes event) db.events ≡ none)
      × (db' ≡ record db { events = db.events ++ event ∷ [] })
unfolding insert_event
insert_event-done event e db db' h = elim (Option-cases (select (clashes event) db.events)) [
  | inl free ↦ let h' = rw (free, insert_event) at h in (cc, free, cc)
  | inr (old, clash) ↦ cc (rw (clash, insert_event) at h)
]

insert_with_seq-done :
    (input : EventInput) (e : Event) (db db' : Database) (row : SessionRow)
    → find_session db input.session_id ≡ some row
    → insert_with_seq input db ≡ done e db'
    → (actor : UserRow) × (select (user_has_id input.actor_user_id) db.users ≡ some actor)
      × (e ≡ event_of input row.event_seq actor.username)
      × (select (clashes e) db.events ≡ none)
      × (db' ≡ record db { events = db.events ++ e ∷ [] })
unfolding insert_with_seq
insert_with_seq-done input e db db' row found h =
    elim (Option-cases (select (user_has_id input.actor_user_id) db.users)) [
      | inl unknown ↦ cc (rw (found, unknown, insert_with_seq) at h)
      | inr (actor, known) ↦
          let h' = rw (found, known, insert_with_seq) at h in
          let (same, free, after) =
            insert_event-done (event_of input row.event_seq actor.username) e db db' h' in
          (actor, known, sym same, rw (← same) free, rw (← same) after)
    ]

new_id : (event old : Event) → clashes event old ≡ false → old.event_id ≢ event.event_id
new_id event old apart same = ground (arith, text_eq_iff old.event_id event.event_id)

find_session-has_id :
    (db : Database) (id : Text) (row : SessionRow)
    → find_session db id ≡ some row
    → has_id id row ≡ true
unfolding find_session
find_session-has_id db id row h = select-holds (has_id id) db.sessions row h

-- An append that returns has found the Session and the actor, adds one event at the end, with
-- the values of the input, the Session's next number, the actor's name and an identifier that no
-- event had; the Session's counter goes up by one and its time becomes the event's; no other
-- Session and no other table changes.
pub append-Appended :
    (input : EventInput) (db : Database) (event : Event) (db' : Database)
    → append_session_event input db ≡ done event db'
    → Appended input db event db'
unfolding append_session_event
append-Appended input db event db' h = elim (Option-cases (find_session db input.session_id)) [
  | inl absent ↦
      let unchanged : changes (has_id input.session_id) db.sessions ≡ 0 =
        changes-select (has_id input.session_id) db.sessions (unfold find_session in absent) in
      cc (rw unchanged at h)
  | inr (row, found) ↦
      let h' : insert_with_seq input (allocate_seq input.session_id input.occurred_at db)
          ≡ done event db' =
        ground arith in
      let allocated : find_session (allocate_seq input.session_id input.occurred_at db)
            input.session_id
          ≡ some (next_seq input.occurred_at row) =
        find_session-allocate_seq input.session_id input.session_id input.occurred_at db row found
        ∙ rw (find_session-has_id db input.session_id row found) in
      let (actor, known, event_is, free, state_is) =
        insert_with_seq-done input event (allocate_seq input.session_id input.occurred_at db) db'
          (next_seq input.occurred_at row) allocated h' in
      let other_session = find_session-allocate_seq_other input db in
      record {
        row = row;
        found = found;
        actor = actor;
        known = unfold allocate_seq in known;
        event_is = event_is;
        unused =
            All-map db.events (λ old apart. new_id event old apart)
              (All-unselected (clashes event) db.events (unfold allocate_seq in free));
        counter = unfold find_session in rw state_is (unfold find_session in allocated);
        others = λ id apart.
            unfold find_session in rw state_is (unfold find_session in other_session id apart);
        rest = unfold allocate_seq in rw state_is refl;
        state_is = unfold allocate_seq in state_is;
      }
]
