-- ===== src/Collaboration/Events.antt =====
-- collaboration/events.ts. The identifier of `randomUUID()` and the time are arguments.
pub mod Append
pub mod Gapless
pub mod Read
use open_log_tool_server.Base.{
  ℕ, ◌+◌, Text, Bool, true, false, not, ◌&&◌, List, [], ◌∷◌, ◌++◌, Option, none, some, text_eq, leb,
  ltb, ◌==◌, if◌then◌else◌, take, is_some,
}
use open_log_tool_server.Base.Table.{select, select_all, modify, changes}
use open_log_tool_server.Base.Outcome.{Outcome, done, raised, internal}
use open_log_tool_server.Collaboration.Rows.{
  SessionRow, UserRow, EventType, EntityType, Payload, Event, Database,
}
use open_log_tool_server.Collaboration.Access.{has_id, find_session}

-- The argument of `appendSessionEvent`, with the identifier that it draws.
pub record EventInput : Type 0 where
  pub event_id : Text
  pub session_id : Text
  pub type : EventType
  pub entity_type : EntityType
  pub entity_id : Text
  pub entity_version : ℕ
  pub mutation_id : Option Text
  pub actor_user_id : Text
  pub actor_device_id : Option Text
  pub payload : Payload
  pub occurred_at : ℕ

abbrev pub next_seq : ℕ → SessionRow → SessionRow
next_seq now row = record row { event_seq = row.event_seq + 1; updated_at = now }

-- UPDATE sessions SET event_seq = event_seq + 1, updated_at = ? WHERE id = ?
unfoldable pub allocate_seq : Text → ℕ → Database → Database
allocate_seq session now db = record db {
  sessions = modify (has_id session) (next_seq now) db.sessions;
}

abbrev pub user_has_id : Text → UserRow → Bool
user_has_id id row = text_eq row.id id

abbrev pub event_of : EventInput → ℕ → Text → Event
event_of input seq name = record {
  event_id = input.event_id;
  session_id = input.session_id;
  seq = seq;
  type = input.type;
  entity_type = input.entity_type;
  entity_id = input.entity_id;
  entity_version = input.entity_version;
  mutation_id = input.mutation_id;
  actor_user_id = input.actor_user_id;
  actor_device_id = input.actor_device_id;
  actor_display_name = name;
  occurred_at = input.occurred_at;
  payload = input.payload;
}

abbrev same_mutation : Option Text → Option Text → Bool
same_mutation (some a) (some b) = text_eq a b
same_mutation _ _ = false

-- The unique keys of `session_events`: id, (session_id, seq), and mutation_id where it is not NULL.
abbrev pub clashes : Event → Event → Bool
clashes event row = not (
    not (text_eq row.event_id event.event_id)
    && not (text_eq row.session_id event.session_id && row.seq == event.seq)
    && not (same_mutation row.mutation_id event.mutation_id))

unfoldable pub insert_event : Event → Database → Outcome Database Event
insert_event event db =
    if is_some (select (clashes event) db.events)
    then raised internal db
    else done event (record db { events = db.events ++ event ∷ [] })

-- The steps of `appendSessionEvent` after the sequence number is allocated. Its errors are plain
-- exceptions.
unfoldable pub insert_with_seq : EventInput → Database → Outcome Database Event
insert_with_seq input db = elim (find_session db input.session_id) [
  | none ↦ raised internal db
  | some row ↦ elim (select (user_has_id input.actor_user_id) db.users) [
    | none ↦ raised internal db
    | some actor ↦ insert_event (event_of input row.event_seq actor.username) db
  ]
]

unfoldable pub append_session_event : EventInput → Database → Outcome Database Event
append_session_event input db =
    let allocated = allocate_seq input.session_id input.occurred_at db in
    if changes (has_id input.session_id) db.sessions == 1
    then insert_with_seq input allocated
    else raised internal allocated

abbrev pub of_session_after : Text → ℕ → Event → Bool
of_session_after session after event = text_eq event.session_id session && ltb after event.seq

-- ORDER BY seq.
unfoldable pub insert_by_seq : Event → List Event → List Event
insert_by_seq event [] = event ∷ []
insert_by_seq event (x ∷ xs) =
    let later = x ∷ insert_by_seq event xs in if leb event.seq x.seq then event ∷ x ∷ xs else later

unfoldable pub sort_by_seq : List Event → List Event
unfolding insert_by_seq
sort_by_seq [] = []
sort_by_seq (x ∷ xs) = insert_by_seq x (sort_by_seq xs)

abbrev limited : Option ℕ → List Event → List Event
limited none events = events
limited (some limit) events = take limit events

unfoldable pub read_events_after : Database → Text → ℕ → Option ℕ → List Event
read_events_after db session after limit =
    limited limit (sort_by_seq (select_all (of_session_after session after) db.events))
