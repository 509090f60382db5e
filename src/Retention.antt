-- ===== src/Retention.antt =====
-- api/session-event-retention-v1.ts: `retentionCutoff` and `executeRetentionPlan`. Whether the text
-- of an event's time has the form that `toISOString` gives is a parameter.
pub mod Range
pub mod Pruned
pub mod Kept
pub mod Plan
pub mod Distinct
pub mod Present
pub mod Returns
pub mod Total
pub mod Policies
pub mod Preview
use Prim.Native.Nat.{min}
use open_log_tool_server.Base.{
  ℕ, ◌+◌, ◌-◌, ◌*◌, Text, Bool, true, false, not, ◌&&◌, List, [], ◌∷◌, Option, none, some, map,
  text_eq, leb, ltb, ◌==◌, if◌then◌else◌, is_some, take, length,
}
use open_log_tool_server.Base.Table.{select, select_all, modify, delete, changes}
use open_log_tool_server.Base.Outcome.{event_retention_integrity_failed, Outcome, done}
use open_log_tool_server.Base.Run.{Run, ◌>>=◌, ◌>>◌, return, read, write, demand, when, continue}
use open_log_tool_server.Collaboration.Rows.{SessionRow, Event, Database}
use open_log_tool_server.Collaboration.Events.{sort_by_seq}

-- RetentionPolicy.
pub record Policy : Type 0 where
  pub retention_days : ℕ
  pub minimum_events : ℕ
  pub max_sessions : ℕ
  pub max_events : ℕ

-- RetentionPlanResult.
pub record PlanResult : Type 0 where
  pub scanned_session_count : ℕ
  pub affected_session_count : ℕ
  pub event_count : ℕ
  pub has_more : Bool

-- CandidateSessionRow.
pub record Candidate : Type 0 where
  pub id : Text
  pub event_seq : ℕ
  pub min_retained_seq : ℕ
  pub first_event_seq : Option ℕ

-- The database and the variables of the loop.
pub record Progress : Type 0 where
  pub database : Database
  pub remaining : ℕ
  pub affected : ℕ
  pub event_count : ℕ
  pub has_more : Bool

abbrev pub ms_per_day : ℕ
ms_per_day = 86400000

-- A time before 1970 stops at 0: no event is older than either.
unfoldable pub retention_cutoff : ℕ → ℕ → ℕ
retention_cutoff evaluated_at days = evaluated_at - days * ms_per_day

-- ORDER BY s.id.
unfoldable pub text_leb : Text → Text → Bool
text_leb [] ys = true
text_leb (x ∷ xs) [] = false
text_leb (x ∷ xs) (y ∷ ys) = let rest = text_leb xs ys in if x == y then rest else ltb x y

unfoldable pub insert_by_id : Candidate → List Candidate → List Candidate
insert_by_id c [] = c ∷ []
insert_by_id c (x ∷ xs) =
    let later = x ∷ insert_by_id c xs in if text_leb c.id x.id then c ∷ x ∷ xs else later

unfoldable pub sort_by_id : List Candidate → List Candidate
unfolding insert_by_id
sort_by_id [] = []
sort_by_id (x ∷ xs) = insert_by_id x (sort_by_id xs)

abbrev pub is_event : Text → ℕ → Event → Bool
is_event session seq event = text_eq event.session_id session && event.seq == seq

-- seq > ? AND seq <= ?
abbrev pub in_range : Text → ℕ → ℕ → Event → Bool
in_range session after last event =
    text_eq event.session_id session && (ltb after event.seq && leb event.seq last)

abbrev pub first : List Event → Option Event
first [] = none
first (x ∷ xs) = some x

-- ORDER BY seq LIMIT 1.
unfoldable pub first_by_seq : (Event → Bool) → List Event → Option Event
first_by_seq p events = first (sort_by_seq (select_all p events))

-- WHERE id = ? AND min_retained_seq = ? AND event_seq = ?
abbrev pub is_cursor : Candidate → SessionRow → Bool
is_cursor c row =
    text_eq row.id c.id
    && (row.min_retained_seq == c.min_retained_seq && row.event_seq == c.event_seq)

abbrev pub with_bound : ℕ → SessionRow → SessionRow
with_bound bound row = record row { min_retained_seq = bound }

abbrev pub first_seq : Option Event → Option ℕ
first_seq none = none
first_seq (some event) = some event.seq

abbrev pub on_progress : (Database → Database) → Run Progress (Unit {0})
on_progress f = write (λ s. record s { database = f s.database })

abbrev pub integrity : Bool → Run Progress (Unit {0})
integrity holds = demand holds 500 event_retention_integrity_failed

abbrev pub candidate : Database → SessionRow → Candidate
candidate db row = record {
  id = row.id;
  event_seq = row.event_seq;
  min_retained_seq = row.min_retained_seq;
  first_event_seq = first_seq (select (is_event row.id (row.min_retained_seq + 1)) db.events);
}

-- The UPDATE and the DELETE of a Session's row and events.
unfoldable pub write_prune : Candidate → ℕ → Run Progress (Unit {0})
write_prune c target = do
  advanced ← read (λ (s : Progress). changes (is_cursor c) s.database.sessions)
  on_progress (λ db. record db { sessions = modify (is_cursor c) (with_bound target) db.sessions })
  integrity (advanced == 1)
  deleted ←
      read (λ (s : Progress). changes (in_range c.id c.min_retained_seq target) s.database.events)
  on_progress
      (λ db. record db { events = delete (in_range c.id c.min_retained_seq target) db.events })
  integrity (deleted == target - c.min_retained_seq)

abbrev pub counted : ℕ → Progress → Progress
counted n s = record s {
  affected = s.affected + 1;
  event_count = s.event_count + n;
  remaining = s.remaining - n;
}

abbrev pub more : Progress → Progress
more s = record s { has_more = true }

abbrev pub target_of : Option Event → ℕ → ℕ
target_of none budget_bound = budget_bound
target_of (some event) budget_bound = event.seq - 1

abbrev pub plan_result : ℕ → Progress → PlanResult
plan_result scanned s = record {
  scanned_session_count = scanned;
  affected_session_count = s.affected;
  event_count = s.event_count;
  has_more = s.has_more;
}

module _ (is_canonical : Event → Bool) (cutoff : ℕ) where
  abbrev pub provably_old : Event → Bool
  provably_old event = is_canonical event && ltb event.occurred_at cutoff

  abbrev pub old_or_missing : Option Event → Bool
  old_or_missing none = true
  old_or_missing (some event) = provably_old event

  abbrev pub is_old : Option Event → Bool
  is_old none = false
  is_old (some event) = provably_old event

  abbrev pub unsafe_in : Text → ℕ → ℕ → Event → Bool
  unsafe_in session after last event = in_range session after last event && not (provably_old event)

  -- What comes right after the budget.
  unfoldable pub look_ahead : Candidate → ℕ → Run Progress (Unit {0})
  look_ahead c bound = do
    next ← read (λ (s : Progress). select (is_event c.id (bound + 1)) s.database.events)
    integrity (is_some next)
    when (is_old next) (write more)

module _ (is_canonical : Event → Bool) (cutoff : ℕ) (policy : Policy) where
  abbrev pub is_candidate : Database → SessionRow → Bool
  is_candidate db row =
      ltb (row.min_retained_seq + policy.minimum_events) row.event_seq
      && old_or_missing is_canonical cutoff
          (select (is_event row.id (row.min_retained_seq + 1)) db.events)

  unfoldable pub candidates : Database → List Candidate
  candidates db =
      take (policy.max_sessions + 1)
        (sort_by_id (map (candidate db) (select_all (is_candidate db) db.sessions)))

  abbrev pub start : Database → Progress
  start db = record {
    database = db;
    remaining = policy.max_events;
    affected = 0;
    event_count = 0;
    has_more = ltb policy.max_sessions (length (candidates db));
  }

module _ (is_canonical : Event → Bool) (cutoff : ℕ) (policy : Policy) (apply : Bool) where
  unfoldable pub advance : Candidate → ℕ → ℕ → Option Event → ℕ → Run Progress (Unit {0})
  advance c count_bound budget_bound first_unsafe target = do
    actual ←
        read (λ (s : Progress). changes (in_range c.id c.min_retained_seq target) s.database.events)
    integrity (actual == target - c.min_retained_seq)
    when apply (write_prune c target)
    write (counted (target - c.min_retained_seq))
    when (not (is_some first_unsafe) && ltb budget_bound count_bound)
        (look_ahead is_canonical cutoff c budget_bound)

  unfoldable pub prune_up_to : Candidate → ℕ → Run Progress (Unit {0})
  prune_up_to c count_bound = do
    budget_bound ← read (λ (s : Progress). min count_bound (c.min_retained_seq + s.remaining))
    first_unsafe ← read (λ (s : Progress).
        first_by_seq (unsafe_in is_canonical cutoff c.id c.min_retained_seq budget_bound)
          s.database.events)
    let target = target_of first_unsafe budget_bound
    when (ltb c.min_retained_seq target) (advance c count_bound budget_bound first_unsafe target)

  -- The body of the loop.
  unfoldable pub prune_session : Candidate → Run Progress (Unit {0})
  prune_session c = do
    integrity (is_some c.first_event_seq)
    let count_bound = c.event_seq - policy.minimum_events
    when (ltb c.min_retained_seq count_bound) (prune_up_to c count_bound)

  unfoldable pub prune_each : List Candidate → Run Progress (Unit {0})
  prune_each [] = return tt
  prune_each (c ∷ cs) =
      let rest = prune_each cs in
      do
        remaining ← read (λ (s : Progress). s.remaining)
        if remaining == 0 then write more else (prune_session c >> rest)

  unfoldable pub execute_retention_plan : Database → Outcome Progress PlanResult
  execute_retention_plan db =
      let selected = take policy.max_sessions (candidates is_canonical cutoff policy db) in
      continue (prune_each selected (start is_canonical cutoff policy db))
        (λ finished s. done (plan_result (length selected) s) s)
