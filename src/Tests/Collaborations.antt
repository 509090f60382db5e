-- ===== src/Tests/Collaborations.antt =====
-- The theorems on access, events and the checks of values at concrete inputs.
use open_log_tool_server.Base.{
  ◌-◌, ◌≤◌, All, [], inl, Text, true, none, some, codes, text_eq, ◌≡◌, refl, arith, trim,
  trim_start, is_space, length,
}
use open_log_tool_server.Base.Json.{string}
use open_log_tool_server.Base.Table.{select, modify, changes}
use open_log_tool_server.Base.Outcome.{ok, done, state}
use open_log_tool_server.Validation.{is_stable_id, normalize_stable_id}
use open_log_tool_server.Validation.Ids.{StartsWell, IsIdChar, normalize_stable_id-stable}
use open_log_tool_server.Validation.Timestamp.{validate_timestamp}
use open_log_tool_server.Validation.Timestamp.Written.{Moment, utc}
use open_log_tool_server.Validation.Timestamp.Calendar.{validate_timestamp_iff}
use open_log_tool_server.Collaboration.Rows.{Event, Database}
use open_log_tool_server.Collaboration.Access.{
  find_session, find_membership_including_removed, check_membership, require_membership,
}
use open_log_tool_server.Collaboration.Access.Member.{Member, require_membership-Member}
use open_log_tool_server.Collaboration.Events.{
  event_of, allocate_seq, insert_event, insert_with_seq, append_session_event, read_events_after,
}
use open_log_tool_server.Collaboration.Events.Append.{Appended, append-Appended}
use open_log_tool_server.Collaboration.Events.Gapless.{IsGapless, append-IsGapless, seqs, count_up}
use open_log_tool_server.Collaboration.Events.Read.{seqs-read_events_after, limited_to}
use open_log_tool_server.Tests.Data.{runtime, running, ann, db, db-IsGapless, input, appended}

abbrev pub first_event : Event
first_event = event_of input 1 (codes "Ann")

abbrev after_event : Database
after_event = state appended

ran : append_session_event input db ≡ done first_event after_event
unfolding append_session_event insert_with_seq insert_event allocate_seq find_session select modify
    changes text_eq
ran = refl

append-IsGapless_example : IsGapless after_event
append-IsGapless_example = append-IsGapless input db first_event after_event db-IsGapless ran

append-Appended_example : Appended input db first_event after_event
append-Appended_example = append-Appended input db first_event after_event ran

grown : IsGapless after_event
grown = append-IsGapless input db first_event after_event db-IsGapless ran

found :
    find_session after_event (codes "s1")
    ≡ some (record running { event_seq = 1; updated_at = 100 })
unfolding append_session_event insert_with_seq insert_event allocate_seq find_session select modify
    changes text_eq
found = refl

seqs-read_events_after_example :
    seqs (read_events_after after_event (codes "s1") 0 (some 5))
    ≡ count_up 0 (limited_to (some 5) (1 - 0))
seqs-read_events_after_example =
    seqs-read_events_after after_event (codes "s1") 0 (some 5) _ grown found (omega arith)
      (omega arith)

admitted : require_membership db (codes "s1") (codes "ann") none ≡ ok (running, ann)
unfolding require_membership check_membership find_session find_membership_including_removed select
    text_eq
admitted = refl

require_membership-Member_example : Member db (codes "s1") (codes "ann") none running ann
require_membership-Member_example =
    require_membership-Member db (codes "s1") (codes "ann") none running ann admitted

abbrev leap_day : Text
leap_day = codes "2024-02-29T23:59:59Z"

abbrev leap_moment : Moment
leap_moment = record {
  year = 2024;
  month = 2;
  day = 29;
  hour = 23;
  minute = 59;
  second = 59;
  fraction = [];
  zone = utc;
}

validate_timestamp_iff_example : validate_timestamp runtime leap_day ≡ ok leap_day
validate_timestamp_iff_example = (validate_timestamp_iff runtime leap_day leap_day).1 (
  refl,
  (
    leap_moment,
    omega arith,
    refl,
    record {
      month = omega arith;
      day = omega arith;
      short_month = λ short. omega arith;
      february = λ second. omega arith;
      leap_day = λ second last. (inl ((506, refl), λ q is. omega (arith, is)), omega arith);
      clock = omega arith;
      shift = omega arith;
    },
    refl,
  ),
)

accepted_id : normalize_stable_id (some (string (codes " log-1 "))) ≡ ok (codes "log-1")
unfolding normalize_stable_id is_stable_id trim trim_start is_space
accepted_id = refl

normalize_stable_id-stable_example :
    (is_stable_id (codes "log-1") ≡ true)
    × StartsWell (codes "log-1")
    × All IsIdChar (codes "log-1")
    × (1 ≤ length (codes "log-1"))
    × (length (codes "log-1") ≤ 128)
normalize_stable_id-stable_example =
    normalize_stable_id-stable (some (string (codes " log-1 "))) (codes "log-1") accepted_id
