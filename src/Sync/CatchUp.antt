-- ===== src/Sync/CatchUp.antt =====
-- GET /:sessionId/events: the pages of a Session's event log.
pub mod Pages
use open_log_tool_server.Base.{
  ℕ, ◌+◌, ◌*◌, ◌-◌, Text, String, Bool, true, false, not, ◌&&◌, ◌||◌, List, [], ◌∷◌, Option, none,
  some, leb, ltb, if◌then◌else◌, all, length,
}
use open_log_tool_server.Base.Json.{Json, string}
use open_log_tool_server.Base.Outcome.{
  Result, ok, err, app_error, validation_failed, cursor_expired, ◌>>=◌, ◌>>◌, require,
}
use open_log_tool_server.Validation.{normalize_stable_id, is_digit, max_safe_integer}
use open_log_tool_server.Collaboration.Rows.{SessionRow, Event, Database}
use open_log_tool_server.Collaboration.Events.{read_events_after}
use open_log_tool_server.Sync.Access.{read_session_access_including_deleted}

-- `Number` of a text of decimal digits, which is exact up to the largest safe integer.
abbrev pub digits_value : ℕ → Text → ℕ
digits_value acc [] = acc
digits_value acc (c ∷ s) = digits_value (acc * 10 + (c - b'0')) s

-- `/^\d+$/`.
abbrev pub is_decimal : Text → Bool
is_decimal [] = false
is_decimal (c ∷ s) = all is_digit (c ∷ s)

abbrev pub below_maximum : Option ℕ → ℕ → Bool
below_maximum none n = true
below_maximum (some m) n = leb n m

unfoldable pub parse_query_integer : Option Json → ℕ → ℕ → Option ℕ → Result ℕ
parse_query_integer none fallback minimum maximum = ok fallback
parse_query_integer (some (string s)) fallback minimum maximum = do
  require (is_decimal s) 422 validation_failed
  require
      (leb (digits_value 0 s) max_safe_integer
        && leb minimum (digits_value 0 s)
        && below_maximum maximum (digits_value 0 s))
      422 validation_failed
  ok (digits_value 0 s)
parse_query_integer _ fallback minimum maximum = err (app_error 422 validation_failed)

pub record Page : Type 0 where
  pub after_seq : ℕ
  pub to_seq : ℕ
  pub head_seq : ℕ
  pub min_available_seq : ℕ
  pub has_more : Bool
  pub events : List Event

-- `events[events.length - 1].seq`, or the cursor if there is no event.
abbrev pub last_seq : ℕ → List Event → ℕ
last_seq after [] = after
last_seq after (event ∷ events) = last_seq event.seq events

abbrev pub page_of : ℕ → SessionRow → List Event → Page
page_of after row events = record {
  after_seq = after;
  to_seq = last_seq after events;
  head_seq = row.event_seq;
  min_available_seq = row.min_retained_seq;
  has_more = ltb (last_seq after events) row.event_seq;
  events = events;
}

-- The checks of a cursor, which the tickets for the live feed share.
unfoldable pub check_cursor : ℕ → SessionRow → Result (Unit {0})
check_cursor after row = do
  require (not (ltb after row.min_retained_seq)) 410 cursor_expired
  require (not (ltb row.event_seq after)) 422 validation_failed

-- The transaction of the route.
unfoldable pub read_page : Database → Text → Text → ℕ → ℕ → Result Page
read_page db id user after limit = do
  access ← read_session_access_including_deleted db id user
  check_cursor after access.0
  ok (page_of after access.0 (read_events_after db id after (some limit)))

-- The route: its session parameter, and the `afterSeq` and `limit` of its query.
unfoldable pub get_events : Database → Text → Option Json → Option Json → Option Json → Result Page
get_events db user session_param after_param limit_param = do
  id ← normalize_stable_id session_param
  after ← parse_query_integer after_param 0 0 none
  limit ← parse_query_integer limit_param 500 1 (some 500)
  read_page db id user after limit
