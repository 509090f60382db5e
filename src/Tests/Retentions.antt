-- ===== src/Tests/Retentions.antt =====
-- The theorems on the retention of events at concrete inputs.
use open_log_tool_server.Base.{
  ℕ, Text, Bool, true, false, [], ◌∷◌, some, codes, text_eq, text_eq_iff, ◌≡◌, refl, inl, inr,
  Bool-cases, arith,
}
use open_log_tool_server.Base.Json.{natural, end, field, get}
use open_log_tool_server.Base.Table.{select, select_all, modify, delete, changes}
use open_log_tool_server.Base.Outcome.{ok, done}
use open_log_tool_server.Base.Run.{demand, when, continue}
use open_log_tool_server.Validation.{reject_unknown_keys}
use open_log_tool_server.Collaboration.Rows.{SessionRow, Event, Database}
use open_log_tool_server.Collaboration.Access.{has_id, find_session}
use open_log_tool_server.Collaboration.Events.{event_of, insert_by_seq, sort_by_seq}
use open_log_tool_server.Collaboration.Events.Gapless.{IsGapless}
use open_log_tool_server.Retention.{
  Policy, PlanResult, Progress, insert_by_id, sort_by_id, text_leb, first_by_seq, candidates,
  write_prune, look_ahead, advance, prune_up_to, prune_session, prune_each, execute_retention_plan,
}
use open_log_tool_server.Retention.Pruned.{IsKeyed}
use open_log_tool_server.Retention.Plan.{Retained, execute_retention_plan-Retained}
use open_log_tool_server.Retention.Total.{execute_retention_plan-returns}
use open_log_tool_server.Retention.Preview.{previewed, execute_retention_plan-previewed}
use open_log_tool_server.Retention.Policies.{
  body, parsed, within, bounded_integer, parse_policy, IsModest, parse_policy-IsModest,
}
use open_log_tool_server.Tests.Data.{running, db, input}

abbrev event_at : ℕ → ℕ → Event
event_at seq at = record (event_of input seq (codes "Ann")) { occurred_at = at }

abbrev busy : SessionRow
busy = record running { event_seq = 3 }

-- Two events that are older than 100, and one that is not.
abbrev full : Database
full = record db {
  sessions = busy ∷ [];
  events = event_at 1 10 ∷ event_at 2 20 ∷ event_at 3 300 ∷ [];
}

-- One event is to be kept, and one may be deleted.
abbrev strict : Policy
strict = record { retention_days = 30; minimum_events = 1; max_sessions = 1; max_events = 1 }

abbrev canonical : Event → Bool
canonical event = true

abbrev one_pruned : Progress
one_pruned = record {
  database = record full {
    sessions = record busy { min_retained_seq = 1 } ∷ [];
    events = event_at 2 20 ∷ event_at 3 300 ∷ [];
  };
  remaining = 0;
  affected = 1;
  event_count = 1;
  has_more = true;
}

abbrev one_deleted : PlanResult
one_deleted = record {
  scanned_session_count = 1;
  affected_session_count = 1;
  event_count = 1;
  has_more = true;
}

pruned_one : execute_retention_plan canonical 100 strict true full ≡ done one_deleted one_pruned
unfolding execute_retention_plan prune_each prune_session prune_up_to advance look_ahead write_prune
    candidates first_by_seq sort_by_id insert_by_id text_leb sort_by_seq insert_by_seq demand when
    continue select select_all modify delete changes text_eq
pruned_one = refl

execute_retention_plan-Retained_example :
    Retained canonical 100 strict true full one_deleted one_pruned.database
execute_retention_plan-Retained_example =
    execute_retention_plan-Retained canonical 100 strict true full one_deleted one_pruned pruned_one

full-IsKeyed : IsKeyed full
unfolding changes
full-IsKeyed id = ground arith

busy_only :
    (id : Text) (row : SessionRow)
    → find_session full id ≡ some row
    → (codes "s1" ≡ id) × (row ≡ busy)
unfolding find_session select
busy_only id row h = elim (Bool-cases (has_id id busy)) [
  | inl own ↦ ((text_eq_iff (codes "s1") id).0 own, cc (rw own at h))
  | inr other ↦ cc (rw other at h)
]

full-IsGapless : IsGapless full
unfolding select_all text_eq
full-IsGapless = record {
  bounded = λ id row found. let (own, is) = busy_only id row found in rw is (omega arith);
  counted = λ id row found. let (own, is) = busy_only id row found in rw (is, ← own) refl;
}

execute_retention_plan-returns_example :
    (result : PlanResult) × (s : Progress) × (execute_retention_plan canonical 100 strict true full
      ≡ done result s)
execute_retention_plan-returns_example =
    execute_retention_plan-returns canonical 100 strict true full full-IsKeyed full-IsGapless

abbrev monthly : Policy
monthly = record {
  retention_days = 31;
  minimum_events = 10000;
  max_sessions = 5;
  max_events = 25000;
}

parsed_monthly :
    parse_policy (field "retentionDays" (natural 31) (field "maxSessions" (natural 5) end)) body
    ≡ ok monthly
unfolding parse_policy bounded_integer parsed within reject_unknown_keys get
parsed_monthly = refl

parse_policy-IsModest_example : IsModest monthly
parse_policy-IsModest_example =
    parse_policy-IsModest (field "retentionDays" (natural 31) (field "maxSessions" (natural 5) end))
      body monthly parsed_monthly

execute_retention_plan-previewed_example :
    execute_retention_plan canonical 100 strict false full
    ≡ done one_deleted (previewed full one_pruned)
execute_retention_plan-previewed_example =
    execute_retention_plan-previewed canonical 100 strict full one_deleted one_pruned full-IsKeyed
      pruned_one
