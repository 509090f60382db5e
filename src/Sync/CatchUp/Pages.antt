-- ===== src/Sync/CatchUp/Pages.antt =====
-- What the pages of the event log hold.
use Prim.Native.Nat.{min}
use open_log_tool_server.Base.{
  ℕ, zero, suc, ◌+◌, ◌-◌, ◌≤◌, Text, not, ◌&&◌, List, [], ◌∷◌, Option, none, some, leb, ltb, ◌≡◌,
  refl, sym, ap, ◌∙◌, arith, is_some,
}
use open_log_tool_server.Base.Json.{
  Json, null, boolean, natural, other_number, string, array, object,
}
use open_log_tool_server.Base.Outcome.{ok, require, >>=-eq-ok, require-eq-ok}
use open_log_tool_server.Validation.{normalize_stable_id, max_safe_integer}
use open_log_tool_server.Collaboration.Rows.{owner, SessionRow, MembershipRow, Event, Database}
use open_log_tool_server.Collaboration.Access.{
  same_role, find_session, find_membership_including_removed,
}
use open_log_tool_server.Collaboration.Events.{read_events_after}
use open_log_tool_server.Collaboration.Events.Gapless.{IsGapless, seqs, count_up}
use open_log_tool_server.Collaboration.Events.Read.{seqs-read_events_after}
use open_log_tool_server.Sync.Sessions.{is_initializing}
use open_log_tool_server.Sync.Access.{read_session_access_including_deleted, access_found}
use open_log_tool_server.Sync.CatchUp.{
  parse_query_integer, Page, last_seq, page_of, check_cursor, read_page, below_maximum, get_events,
  is_decimal, digits_value,
}

last_seq-count_up :
    (m n : ℕ) (events : List Event) → seqs events ≡ count_up m n → last_seq m events ≡ m + n
last_seq-count_up m zero [] h = omega arith
last_seq-count_up m zero (e ∷ es) h = ground arith
last_seq-count_up m (suc n) [] h = ground arith
last_seq-count_up m (suc n) (e ∷ es) h =
    let first : e.seq ≡ m + 1 = ground arith in
    let rest : seqs es ≡ count_up (m + 1) n = ground arith in
    rw first (last_seq-count_up (m + 1) n es rest ∙ omega arith)

access_found-found :
    (s : Option SessionRow) (m : Option MembershipRow) (row : SessionRow)
    (membership : MembershipRow)
    → access_found s m ≡ ok (row, membership)
    → s ≡ some row
access_found-found none m row membership h = cc
access_found-found (some s) none row membership h = cc
access_found-found (some s) (some m) row membership h =
    let (_, _, h1) = >>=-eq-ok (require (not (is_some m.removed_at)) _ _) _ h in
    let (_, _, h2) =
      >>=-eq-ok
        (require
          (not (
            is_initializing s.status && not (is_some s.deleted_at) && not (same_role m.role owner)))
          _ _)
        _ h1 in
    cc h2

pub read_access-found :
    (db : Database) (id user : Text) (row : SessionRow) (membership : MembershipRow)
    → read_session_access_including_deleted db id user ≡ ok (row, membership)
    → find_session db id ≡ some row
unfolding read_session_access_including_deleted
read_access-found db id user row membership h =
    access_found-found (find_session db id) (find_membership_including_removed db id user) row
      membership h

-- A cursor that passes its checks lies within what is kept of the log.
pub check_cursor-bounds :
    (after : ℕ) (row : SessionRow)
    → check_cursor after row ≡ ok tt
    → (row.min_retained_seq ≤ after) × (after ≤ row.event_seq)
unfolding check_cursor
check_cursor-bounds after row h =
    let (_, low, high) = >>=-eq-ok (require (not (ltb after row.min_retained_seq)) _ _) _ h in
    let l = require-eq-ok (not (ltb after row.min_retained_seq)) _ _ low in
    let u = require-eq-ok (not (ltb row.event_seq after)) _ _ high in
    (ground (arith, l), ground (arith, u))

-- A page holds the numbers that follow its cursor, each once and in order, as many as the limit
-- allows, up to the head, and says truly whether there are more.
pub record Follows (db : Database) (id : Text) (after limit : ℕ) (page : Page) : Type 0 where
  pub row : SessionRow
  pub found : find_session db id ≡ some row
  pub head : page.head_seq ≡ row.event_seq
  pub cursor : page.after_seq ≡ after
  pub kept : row.min_retained_seq ≤ after
  pub inside : page.to_seq ≤ page.head_seq
  pub reached : page.to_seq ≡ after + min limit (page.head_seq - after)
  pub numbers : seqs page.events ≡ count_up after (page.to_seq - after)
  pub more : page.has_more ≡ ltb page.to_seq page.head_seq

pub read_page-Follows :
    (db : Database) (id user : Text) (after limit : ℕ) (page : Page)
    → IsGapless db
    → read_page db id user after limit ≡ ok page
    → Follows db id after limit page
unfolding read_page
read_page-Follows db id user after limit page v h =
    let (access, allowed, h1) = >>=-eq-ok (read_session_access_including_deleted db id user) _ h in
    let (_, cursor, h2) = >>=-eq-ok (check_cursor after access.0) _ h1 in
    let row = access.0 in
    let found = read_access-found db id user access.0 access.1 allowed in
    let (low, high) = check_cursor-bounds after access.0 cursor in
    let events = read_events_after db id after (some limit) in
    let n = min limit (access.0.event_seq - after) in
    let numbers : seqs events ≡ count_up after n =
      seqs-read_events_after db id after (some limit) access.0 v found low high in
    let last : last_seq after events ≡ after + n = last_seq-count_up after n events numbers in
    let is : page_of after access.0 events ≡ page = cc h2 in
    let count : after + n - after ≡ n = omega arith in
    rw (← is) (record {
      row = access.0;
      found = found;
      head = refl;
      cursor = refl;
      kept = low;
      inside = rw last (omega (arith, high));
      reached = last;
      numbers = numbers ∙ ap (count_up after) (sym (rw last count));
      more = refl;
    })

-- A number of the query is the one given there or the default, within its range.
parse_query_integer-bounds :
    (raw : Option Json) (fallback minimum maximum n : ℕ)
    → parse_query_integer raw fallback minimum (some maximum) ≡ ok n
    → minimum ≤ fallback
    → fallback ≤ maximum
    → (minimum ≤ n) × (n ≤ maximum)
unfolding parse_query_integer
parse_query_integer-bounds none fallback minimum maximum n h low high =
    let is : fallback ≡ n = cc in (rw (← is) low, rw (← is) high)
parse_query_integer-bounds (some (string s)) fallback minimum maximum n h low high =
    let (_, _, h1) = >>=-eq-ok (require (is_decimal s) _ _) _ h in
    let (_, fits, h2) =
      >>=-eq-ok
        (require
          (leb (digits_value 0 s) max_safe_integer
            && leb minimum (digits_value 0 s)
            && below_maximum (some maximum) (digits_value 0 s))
          _ _)
        _ h1 in
    let holds = require-eq-ok _ _ _ fits in
    let is : digits_value 0 s ≡ n = cc h2 in
    rw (← is) (ground (arith, holds), ground (arith, holds))
parse_query_integer-bounds (some null) fallback minimum maximum n h low high = cc
parse_query_integer-bounds (some (boolean b)) fallback minimum maximum n h low high = cc
parse_query_integer-bounds (some (natural k)) fallback minimum maximum n h low high = cc
parse_query_integer-bounds (some (other_number k)) fallback minimum maximum n h low high = cc
parse_query_integer-bounds (some (array items)) fallback minimum maximum n h low high = cc
parse_query_integer-bounds (some (object fields)) fallback minimum maximum n h low high = cc

-- Over a log without gaps, a page that GET /:sessionId/events returns holds the numbers that
-- follow its cursor, each once and in order, as many as a limit from 1 to 500 allows, up to the
-- head, and says truly whether there are more.
pub get_events-Follows :
    (db : Database) (user : Text) (session_param after_param limit_param : Option Json)
    (page : Page)
    → IsGapless db
    → get_events db user session_param after_param limit_param ≡ ok page
    → (id : Text) × (after : ℕ) × (limit : ℕ) × Follows db id after limit page
      × (1 ≤ limit)
      × (limit ≤ 500)
unfolding get_events
get_events-Follows db user session_param after_param limit_param page v h =
    let (id, _, h1) = >>=-eq-ok (normalize_stable_id session_param) _ h in
    let (after, _, h2) = >>=-eq-ok (parse_query_integer after_param 0 0 none) _ h1 in
    let (limit, sized, h3) = >>=-eq-ok (parse_query_integer limit_param 500 1 (some 500)) _ h2 in
    let (low, high) =
      parse_query_integer-bounds limit_param 500 1 500 limit sized (omega arith) (omega arith) in
    (id, after, limit, read_page-Follows db id user after limit page v h3, low, high)
