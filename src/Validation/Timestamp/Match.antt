-- ===== src/Validation/Timestamp/Match.antt =====
-- The regular expression of `validateTimestamp` fits what is written of a moment, and nothing else.
use Prim.Native.Nat.{◌/◌, ◌%◌}
use open_log_tool_server.Base.{
  ℕ, ◌+◌, ◌*◌, ◌≤◌, Text, true, [], ◌∷◌, Option, some, ◌==◌, ◌≡◌, refl, sym, ap, ◌∙◌, inl, inr,
  Bool-cases, All, arith,
}
use open_log_tool_server.Validation.Timestamp.{
  Stamp, digit_char, ◌>>=◌, literal, at_end, two_digits, skip_fraction, offset, zone,
  match_timestamp,
}
use open_log_tool_server.Validation.Timestamp.Written.{
  Zone, utc, ahead, behind, Moment, two, write_zone, write_fraction, write, offset_of, HasForm,
  stamp_of, two_digits-two, two_digits-eq-some, literal-eq-some, >>=-eq-some, skip_fraction-eq,
  skip_fraction-write,
}

-- Two digits, and the rest of the text; they come first in the text that is written.
abbrev Shift : Text → ℕ × ℕ → Type 0
Shift s (h, m) = (h ≤ 99) × (m ≤ 99) × (s ≡ two h (b':' ∷ two m []))

offset-two : (h m : ℕ) → h ≤ 99 → m ≤ 99 → offset (two h (b':' ∷ two m [])) ≡ some (h, m)
unfolding offset
offset-two h m h_le m_le =
    rw (two_digits-two h (b':' ∷ two m []) h_le, two_digits-two m [] m_le) refl

at_end-eq-some :
    (h m : ℕ) (rest : Text) (o : ℕ × ℕ) → at_end h (m, rest) ≡ some o → (rest ≡ []) × (o ≡ (h, m))
at_end-eq-some h m [] o e = (refl, cc e)
at_end-eq-some h m (c ∷ rest) o e = cc e

offset-eq-some : (s : Text) (o : ℕ × ℕ) → offset s ≡ some o → Shift s o
unfolding offset
offset-eq-some s o e =
    let ((h, colon), first, e1) = >>=-eq-some (two_digits s) _ e in
    let (rest, sep, e2) = >>=-eq-some (literal b':' colon) _ e1 in
    let ((m, left), last, e3) = >>=-eq-some (two_digits rest) _ e2 in
    let (none_left, is) = at_end-eq-some h m left o e3 in
    let (h_le, s_is) = two_digits-eq-some s h colon first in
    let colon_is = literal-eq-some b':' colon rest sep in
    let (m_le, rest_is) = two_digits-eq-some rest m left last in
    rw is
      (h_le, m_le, s_is ∙ ap (two h) (colon_is ∙ ap (◌∷◌ b':') (rest_is ∙ ap (two m) none_left)))

zone-write :
    (z : Zone)
    → (offset_of z).0 ≤ 99
    → (offset_of z).1 ≤ 99
    → zone (write_zone z) ≡ some (offset_of z)
unfolding zone
zone-write utc h m = refl
zone-write (ahead h m) h_le m_le = offset-two h m h_le m_le
zone-write (behind h m) h_le m_le = offset-two h m h_le m_le

abbrev Zoned : Text → ℕ × ℕ → Type 0
Zoned s o = (z : Zone) × (s ≡ write_zone z) × (offset_of z ≡ o) × (o.0 ≤ 99) × (o.1 ≤ 99)

zone-eq-some : (s : Text) (o : ℕ × ℕ) → zone s ≡ some o → Zoned s o
unfolding zone
zone-eq-some [] o e = cc e
zone-eq-some (c ∷ []) o e = elim (Bool-cases (c == b'Z')) [
  | inl zulu ↦
      let is : (0, 0) ≡ o = cc (rw zulu at e) in
      let letter : c ≡ b'Z' = ground arith in
      rw (← is) (utc, ap (λ x. x ∷ []) letter, refl, omega arith, omega arith)
  | inr other ↦ cc (rw other at e)
]
zone-eq-some (c ∷ d ∷ s) o e = elim (Bool-cases (c == b'+')) [
  | inl plus ↦
      let (h_le, m_le, is) = offset-eq-some (d ∷ s) o (rw plus at e) in
      let sign : c ≡ b'+' = ground arith in
      (ahead o.0 o.1, ap (λ x. x ∷ d ∷ s) sign ∙ ap (◌∷◌ b'+') is, refl, h_le, m_le)
  | inr other ↦ elim (Bool-cases (c == b'-')) [
    | inl minus ↦
        let (h_le, m_le, is) = offset-eq-some (d ∷ s) o (rw (other, minus) at e) in
        let sign : c ≡ b'-' = ground arith in
        (behind o.0 o.1, ap (λ x. x ∷ d ∷ s) sign ∙ ap (◌∷◌ b'-') is, refl, h_le, m_le)
    | inr neither ↦ cc (rw (other, neither) at e)
  ]
]

-- What is written of a moment is read back.
pub match_timestamp-write : (x : Moment) → HasForm x → match_timestamp (write x) ≡ some (stamp_of x)
unfolding match_timestamp
match_timestamp-write x f =
    let century : x.year / 100 ≤ 99 = let y = f.year in omega (arith, y) in
    let year : x.year % 100 ≤ 99 = omega arith in
    let whole : x.year / 100 * 100 + x.year % 100 ≡ x.year = omega arith in
    let (month, day) = f.date in
    let (hour, minute, second) = f.clock in
    let (h_le, m_le) = f.zone in
    rw
      (
        two_digits-two (x.year / 100) _ century,
        two_digits-two (x.year % 100) _ year,
        two_digits-two x.month _ month,
        two_digits-two x.day _ day,
        two_digits-two x.hour _ hour,
        two_digits-two x.minute _ minute,
        two_digits-two x.second _ second,
        skip_fraction-write x.fraction x.zone f.fraction,
        zone-write x.zone h_le m_le,
        whole,
      )
      refl

year_century : (c y : ℕ) → y ≤ 99 → (c * 100 + y) / 100 ≡ c
year_century c y le = omega arith

year_of_century : (c y : ℕ) → y ≤ 99 → (c * 100 + y) % 100 ≡ y
year_of_century c y le = omega arith

year_bound : (c y : ℕ) → c ≤ 99 → y ≤ 99 → c * 100 + y ≤ 9999
year_bound c y c_le y_le = omega arith

some-injective : {A : Type 0} {a b : A} → some a ≡ some b → a ≡ b
some-injective h = cc h

-- What the groups are of a text that fits.
record Groups (text : Text) (t : Stamp) : Type 0 where
  century : ℕ
  year : ℕ
  month : ℕ
  day : ℕ
  hour : ℕ
  minute : ℕ
  second : ℕ
  fraction : Text
  zone : Zone
  digits : (century ≤ 99) × (year ≤ 99)
  date : (month ≤ 99) × (day ≤ 99)
  clock : (hour ≤ 99) × (minute ≤ 99) × (second ≤ 99)
  fraction_digits : All (λ d. digit_char d ≡ true) fraction
  shift : ((offset_of zone).0 ≤ 99) × ((offset_of zone).1 ≤ 99)
  text_is :
      text
      ≡ two century (
          two year (
            b'-'
            ∷ two month (
                b'-'
                ∷ two day (
                    b'T'
                    ∷ two hour (
                        b':'
                        ∷ two minute
                            (b':' ∷ two second (write_fraction fraction (write_zone zone))))))))
  stamp_is : t ≡ record {
    year = century * 100 + year;
    month = month;
    day = day;
    hour = hour;
    minute = minute;
    second = second;
    offset_hour = (offset_of zone).0;
    offset_minute = (offset_of zone).1;
  }

-- A step of the regular expression that has fitted, with what it leaves as variables.
module _ {B C : Type 0} (b : B) where
  digits_then :
      (s : Text) (next : ℕ × Text → Option B)
      → two_digits s >>= next ≡ some b
      → ((n : ℕ) (rest : Text) → n ≤ 99 → s ≡ two n rest → next (n, rest) ≡ some b → C)
      → C
  digits_then s next h k =
      let (found, at, h1) = >>=-eq-some (two_digits s) next h in
      let (le, is) = two_digits-eq-some s found.0 found.1 at in k found.0 found.1 le is h1

  literal_then :
      (c : ℕ) (s : Text) (next : Text → Option B)
      → literal c s >>= next ≡ some b
      → ((rest : Text) → s ≡ c ∷ rest → next rest ≡ some b → C)
      → C
  literal_then c s next h k =
      let (rest, at, h1) = >>=-eq-some (literal c s) next h in
      k rest (literal-eq-some c s rest at) h1

  zone_then :
      (s : Text) (next : ℕ × ℕ → Option B)
      → zone (skip_fraction s) >>= next ≡ some b
      → ((fraction : Text) (z : Zone)
          → All (λ d. digit_char d ≡ true) fraction
          → ((offset_of z).0 ≤ 99) × ((offset_of z).1 ≤ 99)
          → s ≡ write_fraction fraction (write_zone z)
          → next (offset_of z) ≡ some b
          → C)
      → C
  zone_then s next h k =
      let (o, at, h1) = >>=-eq-some (zone (skip_fraction s)) next h in
      let (fraction, digits, is) = skip_fraction-eq s (skip_fraction s) refl in
      let (z, zone_is, offset_is, h_le, m_le) = zone-eq-some (skip_fraction s) o at in
      k fraction z digits (rw offset_is (h_le, m_le)) (is ∙ ap (write_fraction fraction) zone_is)
        (ap next offset_is ∙ h1)

match_timestamp-Groups : (text : Text) (t : Stamp) → match_timestamp text ≡ some t → Groups text t
unfolding match_timestamp
match_timestamp-Groups text t h = digits_then t text _ h λ century s1 c_le text_is h1.
    digits_then t s1 _ h1 λ year s2 y_le s1_is h2. literal_then t b'-' s2 _ h2 λ s3 s2_is h3.
      digits_then t s3 _ h3 λ month s4 m_le s3_is h4. literal_then t b'-' s4 _ h4 λ s5 s4_is h5.
        digits_then t s5 _ h5 λ day s6 d_le s5_is h6. literal_then t b'T' s6 _ h6 λ s7 s6_is h7.
          digits_then t s7 _ h7 λ hour s8 hour_le s7_is h8.
            literal_then t b':' s8 _ h8 λ s9 s8_is h9.
              digits_then t s9 _ h9 λ minute s10 minute_le s9_is h10.
                literal_then t b':' s10 _ h10 λ s11 s10_is h11.
                  digits_then t s11 _ h11 λ second s12 second_le s11_is h12.
                    zone_then t s12 _ h12 λ fraction z digits shift s12_is h13. record {
                      century = century;
                      year = year;
                      month = month;
                      day = day;
                      hour = hour;
                      minute = minute;
                      second = second;
                      fraction = fraction;
                      zone = z;
                      digits = (c_le, y_le);
                      date = (m_le, d_le);
                      clock = (hour_le, minute_le, second_le);
                      fraction_digits = digits;
                      shift = shift;
                      text_is =
                          rw
                            (
                              text_is, s1_is, s2_is, s3_is, s4_is, s5_is, s6_is, s7_is, s8_is,
                              s9_is, s10_is, s11_is, s12_is,
                            )
                            refl;
                      stamp_is = sym (some-injective h13);
                    }

-- A text that fits is what is written of a moment, and the groups are its numbers.
pub match_timestamp-eq-some :
    (text : Text) (t : Stamp)
    → match_timestamp text ≡ some t
    → (x : Moment) × HasForm x × (text ≡ write x) × (t ≡ stamp_of x)
match_timestamp-eq-some text t h =
    let g = match_timestamp-Groups text t h in
    let (c_le, y_le) = g.digits in
    let rest : Text =
      b'-'
      ∷ two g.month (
          b'-'
          ∷ two g.day (
              b'T'
              ∷ two g.hour (
                  b':'
                  ∷ two g.minute
                      (b':' ∷ two g.second (write_fraction g.fraction (write_zone g.zone)))))) in
    let whole = g.century * 100 + g.year in
    (
      record {
        year = whole;
        month = g.month;
        day = g.day;
        hour = g.hour;
        minute = g.minute;
        second = g.second;
        fraction = g.fraction;
        zone = g.zone;
      },
      record {
        year = year_bound g.century g.year c_le y_le;
        date = g.date;
        clock = g.clock;
        fraction = g.fraction_digits;
        zone = g.shift;
      },
      g.text_is
          ∙ ap (λ c. two c (two g.year rest)) (sym (year_century g.century g.year y_le))
          ∙ ap (λ y. two (whole / 100) (two y rest)) (sym (year_of_century g.century g.year y_le)),
      g.stamp_is,
    )
