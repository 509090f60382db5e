-- ===== src/Retention/Policies.antt =====
-- api/session-event-retention-v1.ts: `boundedInteger` and `parsePolicy`.
use open_log_tool_server.Base.{
  ℕ, ◌≤◌, Text, String, Bool, false, not, ◌&&◌, List, [], ◌∷◌, Option, none, some, all, leb, ◌==◌,
  if◌then◌else◌, ◌≡◌, refl, arith,
}
use open_log_tool_server.Base.Json.{Json, natural, string, Fields, get}
use open_log_tool_server.Base.Outcome.{
  Result, ok, err, app_error, validation_failed, ◌>>=◌, ◌>>◌, require, >>=-eq-ok, require-eq-ok,
}
use open_log_tool_server.Validation.{is_digit, max_safe_integer, reject_unknown_keys}
use open_log_tool_server.Sync.CatchUp.{digits_value}
use open_log_tool_server.Retention.{Policy}

-- The parameter `source`.
pub data Source : Type 0 where
  query body : Source

-- /^(0|[1-9]\d*)$/
unfoldable pub is_plain_decimal : Text → Bool
is_plain_decimal [] = false
is_plain_decimal (c ∷ []) = is_digit c
is_plain_decimal (c ∷ d ∷ s) = is_digit c && not (c == b'0') && all is_digit (d ∷ s)

-- The conversion, which is exact up to the largest safe integer. `none` is NaN, or a number that is
-- no integer or is negative, which is refused too.
unfoldable pub parsed : Source → Json → Option ℕ
parsed query (string text) = if is_plain_decimal text then some (digits_value 0 text) else none
parsed body (natural n) = if leb n max_safe_integer then some n else none
parsed _ _ = none

unfoldable pub within : ℕ → ℕ → Option ℕ → Result ℕ
within minimum maximum (some n) = do
  require (leb n max_safe_integer && leb minimum n && leb n maximum) 422 validation_failed
  ok n
within minimum maximum none = err (app_error 422 validation_failed)

unfoldable pub bounded_integer : Option Json → ℕ → ℕ → ℕ → Source → Result ℕ
bounded_integer none fallback minimum maximum source = ok fallback
bounded_integer (some value) fallback minimum maximum source =
    within minimum maximum (parsed source value)

abbrev pub policy_keys : List String
policy_keys = "retentionDays" ∷ "minimumEventsPerSession" ∷ "maxSessions" ∷ []

unfoldable pub parse_policy : Fields → Source → Result Policy
parse_policy input source = do
  reject_unknown_keys input policy_keys
  days ← bounded_integer (get "retentionDays" input) 180 30 3650 source
  minimum ← bounded_integer (get "minimumEventsPerSession" input) 10000 1000 1000000 source
  sessions ← bounded_integer (get "maxSessions" input) 100 1 100 source
  ok (record {
    retention_days = days;
    minimum_events = minimum;
    max_sessions = sessions;
    max_events = 25000;
  })

within-between :
    (minimum maximum : ℕ) (o : Option ℕ) (n : ℕ)
    → within minimum maximum o ≡ ok n
    → (minimum ≤ n) × (n ≤ maximum)
unfolding within
within-between minimum maximum none n h = cc
within-between minimum maximum (some m) n h =
    let test = leb m max_safe_integer && leb minimum m && leb m maximum in
    let (_, passed, last) = >>=-eq-ok (require test 422 validation_failed) (λ checked. ok m) h in
    let holds = require-eq-ok test 422 validation_failed passed in
    let same : m ≡ n = cc last in (ground (arith, holds, same), ground (arith, holds, same))

bounded_integer-between :
    (value : Option Json) (fallback minimum maximum : ℕ) (source : Source) (n : ℕ)
    → minimum ≤ fallback
    → fallback ≤ maximum
    → bounded_integer value fallback minimum maximum source ≡ ok n
    → (minimum ≤ n) × (n ≤ maximum)
unfolding bounded_integer
bounded_integer-between none fallback minimum maximum source n low high h =
    let same : fallback ≡ n = cc h in (omega (arith, low, same), omega (arith, high, same))
bounded_integer-between (some value) fallback minimum maximum source n low high h =
    within-between minimum maximum (parsed source value) n h

-- What a policy that is run keeps to.
pub record IsModest (policy : Policy) : Type 0 where
  pub days : (30 ≤ policy.retention_days) × (policy.retention_days ≤ 3650)
  pub minimum : (1000 ≤ policy.minimum_events) × (policy.minimum_events ≤ 1000000)
  pub sessions : (1 ≤ policy.max_sessions) × (policy.max_sessions ≤ 100)
  pub events : policy.max_events ≡ 25000

-- A policy that parsePolicy accepts, from a query or from a body, keeps events for 30 to 3650
-- days, leaves from 1000 to 1000000 events of each Session, and looks at 1 to 100 Sessions and
-- at most 25000 events.
pub parse_policy-IsModest :
    (input : Fields) (source : Source) (policy : Policy)
    → parse_policy input source ≡ ok policy
    → IsModest policy
unfolding parse_policy
parse_policy-IsModest input source policy h =
    let (_, known, h1) = >>=-eq-ok (reject_unknown_keys input policy_keys) _ h in
    let (days, d, h2) = >>=-eq-ok (bounded_integer _ _ _ _ _) _ h1 in
    let (minimum, m, h3) = >>=-eq-ok (bounded_integer _ _ _ _ _) _ h2 in
    let (sessions, s, h4) = >>=-eq-ok (bounded_integer _ _ _ _ _) _ h3 in
    let same : record {
      retention_days = days;
      minimum_events = minimum;
      max_sessions = sessions;
      max_events = 25000;
    }
        ≡ policy =
      cc h4 in
    rw (← same) (record {
      days = bounded_integer-between _ 180 30 3650 source days (omega arith) (omega arith) d;
      minimum =
          bounded_integer-between _ 10000 1000 1000000 source minimum (omega arith) (omega arith) m;
      sessions = bounded_integer-between _ 100 1 100 source sessions (omega arith) (omega arith) s;
      events = refl;
    })
