-- ===== src/Validation/Timestamp/Written.antt =====
-- The texts that the regular expression of `validateTimestamp` fits: how a moment is written.
use Prim.Native.Nat.{◌/◌, ◌%◌}
use open_log_tool_server.Base.{
  ℕ, ◌+◌, ◌-◌, ◌*◌, ◌≤◌, Text, true, false, [], ◌∷◌, ◌++◌, Option, none, some, All, ◌==◌, ◌≡◌, refl,
  ap, inl, inr, Bool-cases, arith,
}
use open_log_tool_server.Validation.Timestamp.{
  Stamp, digit_char, ◌>>=◌, literal, two_digits, skip_digits, skip_fraction,
}

pub data Zone : Type 0 where
  utc : Zone
  ahead behind : ℕ → ℕ → Zone

-- A time of a day with its offset from UTC; `fraction` is the digits after the point.
pub record Moment : Type 0 where
  pub year : ℕ
  pub month : ℕ
  pub day : ℕ
  pub hour : ℕ
  pub minute : ℕ
  pub second : ℕ
  pub fraction : Text
  pub zone : Zone

abbrev pub two : ℕ → Text → Text
two n rest = (b'0' + n / 10) ∷ (b'0' + n % 10) ∷ rest

abbrev pub write_zone : Zone → Text
write_zone utc = b'Z' ∷ []
write_zone (ahead h m) = b'+' ∷ two h (b':' ∷ two m [])
write_zone (behind h m) = b'-' ∷ two h (b':' ∷ two m [])

abbrev pub write_fraction : Text → Text → Text
write_fraction [] rest = rest
write_fraction (d ∷ ds) rest = b'.' ∷ d ∷ (ds ++ rest)

-- `2024-02-29T23:59:59.5+01:00`
abbrev pub write : Moment → Text
write x = two (x.year / 100) (
    two (x.year % 100) (
      b'-'
      ∷ two x.month (
          b'-'
          ∷ two x.day (
              b'T'
              ∷ two x.hour (
                  b':'
                  ∷ two x.minute
                      (b':' ∷ two x.second (write_fraction x.fraction (write_zone x.zone))))))))

abbrev pub offset_of : Zone → ℕ × ℕ
offset_of utc = (0, 0)
offset_of (ahead h m) = (h, m)
offset_of (behind h m) = (h, m)

-- Numbers of two digits, a year of four, and a fraction of digits.
pub record HasForm (x : Moment) : Type 0 where
  pub year : x.year ≤ 9999
  pub date : (x.month ≤ 99) × (x.day ≤ 99)
  pub clock : (x.hour ≤ 99) × (x.minute ≤ 99) × (x.second ≤ 99)
  pub fraction : All (λ d. digit_char d ≡ true) x.fraction
  pub zone : ((offset_of x.zone).0 ≤ 99) × ((offset_of x.zone).1 ≤ 99)

abbrev pub stamp_of : Moment → Stamp
stamp_of x = record {
  year = x.year;
  month = x.month;
  day = x.day;
  hour = x.hour;
  minute = x.minute;
  second = x.second;
  offset_hour = (offset_of x.zone).0;
  offset_minute = (offset_of x.zone).1;
}

pub two_digits-two : (n : ℕ) (rest : Text) → n ≤ 99 → two_digits (two n rest) ≡ some (n, rest)
unfolding two_digits
two_digits-two n rest le =
    let first : digit_char (b'0' + n / 10) ≡ true = ground arith in
    let last : digit_char (b'0' + n % 10) ≡ true = ground arith in
    let value : (b'0' + n / 10 - b'0') * 10 + (b'0' + n % 10 - b'0') ≡ n = omega arith in
    rw (first, last, value) refl

pub two_digits-eq-some :
    (s : Text) (n : ℕ) (rest : Text) → two_digits s ≡ some (n, rest) → (n ≤ 99) × (s ≡ two n rest)
unfolding two_digits
two_digits-eq-some [] n rest h = cc
two_digits-eq-some (a ∷ []) n rest h = cc
two_digits-eq-some (a ∷ b ∷ r) n rest h =
    let value : (a - b'0') * 10 + (b - b'0') ≡ n = ground arith in
    let same : r ≡ rest = ground arith in
    let digits : (b'0' ≤ a) × (a ≤ b'9') × (b'0' ≤ b) × (b ≤ b'9') = ground arith in
    let first : a ≡ b'0' + n / 10 = omega (arith, value, digits) in
    let last : b ≡ b'0' + n % 10 = omega (arith, value, digits) in
    (omega (arith, value, digits), cc)

pub literal-eq-some : (c : ℕ) (s rest : Text) → literal c s ≡ some rest → s ≡ c ∷ rest
literal-eq-some c [] rest h = cc
literal-eq-some c (d ∷ s) rest h = ground arith

pub >>=-eq-some :
    {A B : Type 0} (first : Option A) (next : A → Option B) {b : B}
    → first >>= next ≡ some b
    → (a : A) × (first ≡ some a) × (next a ≡ some b)
>>=-eq-some none next h = cc
>>=-eq-some (some a) next h = (a, refl, h)

skip_digits-append :
    (ds : Text) (c : ℕ) (rest : Text)
    → All (λ d. digit_char d ≡ true) ds
    → digit_char c ≡ false
    → skip_digits (ds ++ c ∷ rest) ≡ c ∷ rest
unfolding skip_digits
skip_digits-append [] c rest all other = rw other refl
skip_digits-append (d ∷ ds) c rest (digit, all) other =
    rw digit (skip_digits-append ds c rest all other)

skip_digits-eq :
    (s rest : Text)
    → skip_digits s ≡ rest
    → (ds : Text) × All (λ d. digit_char d ≡ true) ds × (s ≡ ds ++ rest)
unfolding skip_digits
skip_digits-eq [] rest h = ([], tt, h)
skip_digits-eq (c ∷ s) rest h = elim (Bool-cases (digit_char c)) [
  | inl digit ↦
      let (ds, all, same) = skip_digits-eq s rest (rw digit at h) in
      (c ∷ ds, (digit, all), ap (◌∷◌ c) same)
  | inr other ↦ ([], tt, rw other at h)
]

pub skip_fraction-eq :
    (s rest : Text)
    → skip_fraction s ≡ rest
    → (ds : Text) × All (λ d. digit_char d ≡ true) ds × (s ≡ write_fraction ds rest)
unfolding skip_fraction
skip_fraction-eq [] rest h = ([], tt, h)
skip_fraction-eq (dot ∷ []) rest h = ([], tt, h)
skip_fraction-eq (dot ∷ c ∷ s) rest h = elim (Bool-cases (dot == b'.')) [
  | inl point ↦ elim (Bool-cases (digit_char c)) [
    | inl digit ↦
        let (ds, all, same) = skip_digits-eq s rest (rw (point, digit) at h) in
        let is : dot ≡ b'.' = ground arith in (c ∷ ds, (digit, all), cc)
    | inr other ↦ ([], tt, rw (point, other) at h)
  ]
  | inr other ↦ ([], tt, rw other at h)
]

pub skip_fraction-write :
    (ds : Text) (z : Zone)
    → All (λ d. digit_char d ≡ true) ds
    → skip_fraction (write_fraction ds (write_zone z)) ≡ write_zone z
unfolding skip_fraction
skip_fraction-write [] utc all = refl
skip_fraction-write [] (ahead h m) all = refl
skip_fraction-write [] (behind h m) all = refl
skip_fraction-write (d ∷ ds) utc (digit, all) = rw digit (skip_digits-append ds b'Z' [] all refl)
skip_fraction-write (d ∷ ds) (ahead h m) (digit, all) =
    rw digit (skip_digits-append ds b'+' (two h (b':' ∷ two m [])) all refl)
skip_fraction-write (d ∷ ds) (behind h m) (digit, all) =
    rw digit (skip_digits-append ds b'-' (two h (b':' ∷ two m [])) all refl)
