-- ===== src/Validation/Timestamp.antt =====
-- `validateTimestamp` of api/collaboration-sync-v1.ts.
pub mod Written
pub mod Match
pub mod Calendar
use open_log_tool_server.Base.{
  ℕ, ◌+◌, ◌*◌, Text, Bool, true, not, ◌&&◌, ◌||◌, ◌≤◌, ◌≡◌, inl, inr, Option-cases, arith, [], ◌∷◌,
  Option, none, some, leb, ◌==◌, if◌then◌else◌,
}
use open_log_tool_server.Base.Runtime.{Runtime}
use open_log_tool_server.Base.Outcome.{Result, ok, err, app_error, validation_failed}
use Prim.Native.Nat.{◌%◌, ◌-◌}

abbrev digit_char : ℕ → Bool
digit_char c = leb b'0' c && leb c b'9'

-- The groups that the regular expression captures, as numbers.
pub record Stamp : Type 0 where
  pub year : ℕ
  pub month : ℕ
  pub day : ℕ
  pub hour : ℕ
  pub minute : ℕ
  pub second : ℕ
  pub offset_hour : ℕ
  pub offset_minute : ℕ

-- `\d{2}`: its number, and the rest of the text.
unfoldable pub two_digits : Text → Option (ℕ × Text)
two_digits (a ∷ b ∷ rest) =
    if digit_char a && digit_char b then some ((a - b'0') * 10 + (b - b'0'), rest) else none
two_digits _ = none

abbrev literal : ℕ → Text → Option Text
literal c [] = none
literal c (d ∷ rest) = if c == d then some rest else none

infixl 5 ◌>>=◌
abbrev ◌>>=◌ : {A B : Type 0} → Option A → (A → Option B) → Option B
none >>= k = none
some a >>= k = k a

-- `\d*`, the longest match.
unfoldable pub skip_digits : Text → Text
skip_digits [] = []
skip_digits (c ∷ s) = if digit_char c then skip_digits s else c ∷ s

-- `(?:\.\d+)?`. A dot with no digit after it is left, and then fits nothing.
unfoldable pub skip_fraction : Text → Text
unfolding skip_digits
skip_fraction (dot ∷ c ∷ s) = if dot == b'.' && digit_char c then skip_digits s else dot ∷ c ∷ s
skip_fraction s = s

abbrev at_end : ℕ → ℕ × Text → Option (ℕ × ℕ)
at_end h (m, []) = some (h, m)
at_end h (m, _ ∷ _) = none

-- `([+-])(\d{2}):(\d{2})$`, after the sign.
unfoldable pub offset : Text → Option (ℕ × ℕ)
unfolding two_digits
offset s = do
  (h, colon) ← two_digits s
  rest ← literal b':' colon
  minutes ← two_digits rest
  at_end h minutes

-- `(?:Z|([+-])(\d{2}):(\d{2}))$`.
unfoldable pub zone : Text → Option (ℕ × ℕ)
unfolding offset
zone [] = none
zone (c ∷ []) = if c == b'Z' then some (0, 0) else none
zone (c ∷ s) = if c == b'+' || c == b'-' then offset s else none

-- The regular expression of `validateTimestamp`.
unfoldable pub match_timestamp : Text → Option Stamp
unfolding two_digits skip_fraction zone
match_timestamp text = do
  (century, s) ← two_digits text
  (year, s) ← two_digits s
  s ← literal b'-' s
  (month, s) ← two_digits s
  s ← literal b'-' s
  (day, s) ← two_digits s
  s ← literal b'T' s
  (hour, s) ← two_digits s
  s ← literal b':' s
  (minute, s) ← two_digits s
  s ← literal b':' s
  (second, s) ← two_digits s
  (offset_hour, offset_minute) ← zone (skip_fraction s)
  some (record {
    year = century * 100 + year;
    month = month;
    day = day;
    hour = hour;
    minute = minute;
    second = second;
    offset_hour = offset_hour;
    offset_minute = offset_minute;
  })

-- `Date.UTC` reads the years 0 to 99 as 1900 to 1999.
unfoldable pub utc_year : ℕ → ℕ
utc_year y = if leb y 99 then 1900 + y else y

unfoldable pub is_leap : ℕ → Bool
is_leap y = (y % 4 == 0 && not (y % 100 == 0)) || y % 400 == 0

-- `new Date(Date.UTC(year, month, 0)).getUTCDate()`, for a month from 1 to 12.
unfoldable pub days_in_month : ℕ → ℕ → ℕ
unfolding utc_year is_leap
days_in_month y m =
    if m == 2
    then (if is_leap (utc_year y) then 29 else 28)
    else if m == 4 || m == 6 || m == 9 || m == 11
    then 30
    else 31

unfoldable pub in_calendar : Stamp → Bool
unfolding days_in_month
in_calendar t =
    leb 1 t.day
    && leb t.day (if leb 1 t.month && leb t.month 12 then days_in_month t.year t.month else 0)
    && leb t.hour 23
    && leb t.minute 59
    && leb t.second 59
    && leb t.offset_hour 23
    && leb t.offset_minute 59

module _ (runtime : Runtime) where
  unfoldable pub validate_timestamp : Text → Result Text
  unfolding match_timestamp in_calendar
  validate_timestamp value = elim (match_timestamp value) [
    | none ↦ err (app_error 422 validation_failed)
    | some stamp ↦
        if in_calendar stamp && runtime.parses_as_date value
        then ok value
        else err (app_error 422 validation_failed)
  ]
