-- ===== src/Validation/Timestamp/Calendar.antt =====
-- The moments that `validateTimestamp` accepts, by the rules of the calendar.
use Prim.Native.Nat.{◌/◌, ◌%◌}
use open_log_tool_server.Base.{
  ℕ, ◌*◌, ◌≤◌, Text, Bool, true, false, some, leb, ◌≡◌, ◌≢◌, ◌⊎◌, ◌↔◌, refl, ap, ◌∙◌, inl, inr,
  Bool-cases, Option-cases, arith,
}
use open_log_tool_server.Base.Runtime.{Runtime}
use open_log_tool_server.Base.Outcome.{ok}
use open_log_tool_server.Validation.Timestamp.{
  match_timestamp, utc_year, is_leap, days_in_month, in_calendar, validate_timestamp,
}
use open_log_tool_server.Validation.Timestamp.Written.{Moment, write, offset_of, HasForm, stamp_of}
use open_log_tool_server.Validation.Timestamp.Match.{match_timestamp-write, match_timestamp-eq-some}

abbrev pub Multiple : ℕ → ℕ → Type 0
Multiple k n = (q : ℕ) × (n ≡ k * q)

-- A leap year of the Gregorian calendar.
abbrev pub IsLeapYear : ℕ → Type 0
IsLeapYear y = (Multiple 4 y × ((q : ℕ) → y ≢ 100 * q)) ⊎ Multiple 400 y

-- A day of the calendar, a time of day, and an offset of less than a day. The 29 February of the
-- year 0 is left out.
pub record IsMoment (x : Moment) : Type 0 where
  pub month : (1 ≤ x.month) × (x.month ≤ 12)
  pub day : (1 ≤ x.day) × (x.day ≤ 31)
  pub short_month : (x.month ≡ 4) ⊎ ((x.month ≡ 6) ⊎ ((x.month ≡ 9) ⊎ (x.month ≡ 11))) → x.day ≤ 30
  pub february : x.month ≡ 2 → x.day ≤ 29
  pub leap_day : x.month ≡ 2 → x.day ≡ 29 → IsLeapYear x.year × (1 ≤ x.year)
  pub clock : (x.hour ≤ 23) × (x.minute ≤ 59) × (x.second ≤ 59)
  pub shift : ((offset_of x.zone).0 ≤ 23) × ((offset_of x.zone).1 ≤ 59)

-- The code's test, as remainders.
Remainders : ℕ → Type 0
Remainders n = ((n % 4 ≡ 0) × (n % 100 ≢ 0)) ⊎ (n % 400 ≡ 0)

is_leap-Remainders : (n : ℕ) → (is_leap n ≡ true) ↔ Remainders n
unfolding is_leap Remainders
is_leap-Remainders n = ground arith

Remainders-IsLeapYear : (y : ℕ) → Remainders (utc_year y) → IsLeapYear y × (1 ≤ y)
unfolding Remainders utc_year
Remainders-IsLeapYear y h = elim (Bool-cases (leb y 99)) [
  | inl early ↦
      let le : y ≤ 99 = ground arith in
      elim (rw early at h) [
        | inl (four, common) ↦ (
          inl ((y / 4, omega (arith, four)), λ q is. omega (arith, is, common, le)),
          omega (arith, common),
        )
        | inr all ↦ let no : ⊥ = omega (arith, all, le) in elim no [ ]
      ]
  | inr late ↦
      let gt : 100 ≤ y = ground arith in
      elim (rw late at h) [
        | inl (four, common) ↦ (
          inl ((y / 4, omega (arith, four)), λ q is. omega (arith, is, common)),
          omega (arith, gt),
        )
        | inr all ↦ (inr (y / 400, omega (arith, all)), omega (arith, gt))
      ]
]

IsLeapYear-Remainders : (y : ℕ) → IsLeapYear y → 1 ≤ y → Remainders (utc_year y)
unfolding Remainders utc_year
IsLeapYear-Remainders y (inl ((q, four), common)) pos =
    let apart : y ≢ 100 * (y / 100) = common (y / 100) in
    elim (Bool-cases (leb y 99)) [
      | inl early ↦ rw early (inl (omega (arith, four), λ e. omega (arith, e, apart, pos)))
      | inr late ↦ rw late (inl (omega (arith, four), λ e. omega (arith, e, apart)))
    ]
IsLeapYear-Remainders y (inr (q, is)) pos = elim (Bool-cases (leb y 99)) [
  | inl early ↦
      let le : y ≤ 99 = ground arith in let no : ⊥ = omega (arith, is, le, pos) in elim no [ ]
  | inr late ↦ rw late (inr (omega (arith, is)))
]

in_calendar-IsMoment : (x : Moment) → in_calendar (stamp_of x) ≡ true → IsMoment x
unfolding in_calendar days_in_month
in_calendar-IsMoment x h = record {
  month = ground arith;
  day = ground arith;
  short_month = λ short. ground (arith, short);
  february = λ second. ground (arith, second);
  leap_day = λ second last.
      let leap : is_leap (utc_year x.year) ≡ true = ground (arith, second, last) in
      Remainders-IsLeapYear x.year ((is_leap-Remainders (utc_year x.year)).0 leap);
  clock = ground arith;
  shift = ground arith;
}

no_both : {b : Bool} → b ≡ true → b ≡ false → ⊥
no_both h k = ground arith

leap_when_last :
    (x : Moment) → IsMoment x → x.month ≡ 2 → x.day ≡ 29 → is_leap (utc_year x.year) ≡ true
leap_when_last x v second last =
    let (leap, pos) = v.leap_day second last in
    (is_leap-Remainders (utc_year x.year)).1 (IsLeapYear-Remainders x.year leap pos)

day-days_in_month : (x : Moment) → IsMoment x → x.day ≤ days_in_month x.year x.month
unfolding days_in_month
day-days_in_month x v =
    let day = v.day in
    let february = v.february in
    let short = v.short_month in
    let leap = leap_when_last x v in
    elim (Bool-cases (is_leap (utc_year x.year))) [
      | inl every_4 ↦ rw every_4 (ground (arith, day, february, short))
      | inr common ↦
          let last : x.month ≡ 2 → x.day ≢ 29 = λ second is. no_both (leap second is) common in
          rw common (ground (arith, day, february, short, last))
    ]

IsMoment-in_calendar : (x : Moment) → IsMoment x → in_calendar (stamp_of x) ≡ true
unfolding in_calendar
IsMoment-in_calendar x v =
    let month = v.month in
    let day = v.day in
    let fits = day-days_in_month x v in
    let clock = v.clock in let shift = v.shift in ground (arith, month, day, fits, clock, shift)

-- ValidateTimestamp returns just the texts that Date.parse reads and that are what is written of
-- a moment, with a year of four digits, any fraction of digits, and Z or an offset, where the
-- moment is a day of the Gregorian calendar, leap years included, at a time of day and an offset
-- that are in range, but not 29 February of the year 0; and it returns such a text as it was.
pub validate_timestamp_iff :
    (runtime : Runtime) (value t : Text)
    → (validate_timestamp runtime value ≡ ok t) ↔ (
        (t ≡ value)
        × ((x : Moment) × HasForm x
            × (value ≡ write x)
            × IsMoment x
            × (runtime.parses_as_date value ≡ true)))
unfolding validate_timestamp
validate_timestamp_iff runtime value t = (
  λ h. elim (Option-cases (match_timestamp value)) [
    | inl e ↦ cc (rw (e, validate_timestamp) at h)
    | inr (stamp, e) ↦
        let passed : in_calendar stamp ≡ true = ground arith in
        let parses : runtime.parses_as_date value ≡ true = ground arith in
        let same : t ≡ value = ground arith in
        let (x, form, is, numbers) = match_timestamp-eq-some value stamp e in
        (same, (x, form, is, in_calendar-IsMoment x (rw numbers at passed), parses))
  ],
  λ (same, (x, form, is, moment, parses)).
      let at : match_timestamp value ≡ some (stamp_of x) =
        ap match_timestamp is ∙ match_timestamp-write x form in
      rw (at, validate_timestamp) (rw (IsMoment-in_calendar x moment, parses, same) refl),
)
