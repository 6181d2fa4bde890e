-- ===== src/Date/Laws.antt =====
-- The loops against the rules of the Gregorian calendar.
use deprecat_os.Prelude.{
  ℕ, zero, suc, ◌+◌, ◌-◌, ◌*◌, ◌/◌, ◌%◌, ◌^◌, ◌≤◌, ◌<◌, ◌≡◌, refl, ap, Bool, Bool-cases, Option,
  some, write, ltb, leb, if◌then◌else◌, arith, inl, inr,
}
use deprecat_os.Date.{
  Date, is_leap_year, days_in_year, year_loop, month_loop, months_of, epoch_to_date,
}

-- The days from 1970 to the first of January of a year, by the rule of the leap years.
abbrev pub days_before_year : ℕ → ℕ
days_before_year y = 365 * (y - 1970) + ((y - 1) / 4 - (y - 1) / 100 + (y - 1) / 400) - 477

-- The days of a year before the first of a month.
abbrev pub days_before_month : Bool → ℕ → ℕ
days_before_month leap month =
    (367 * month - 362) / 12 - (if leb month 2 then 0 else if leap then 1 else 2)

next_year : (y : ℕ) → 1970 ≤ y → days_before_year (y + 1) ≡ days_before_year y + days_in_year y
unfolding days_in_year is_leap_year
next_year y h = ground arith

entry_lem :
    (leap : Bool) (m : ℕ)
    → 0 < m
    → m < 13
    → days_before_month leap (m + 1) ≡ days_before_month leap m + months_of leap (m - 1)
unfolding months_of write
entry_lem leap m p h = ground arith

record MonthDay (leap : Bool) (D : ℕ) (o : Option (ℕ × ℕ)) : Type 0 where
  month : ℕ
  day : ℕ
  result : o ≡ some (month, day)
  month_pos : 0 < month
  month_lt : month < 13
  day_lt : day < months_of leap (month - 1)
  sum : D ≡ days_before_month leap month + day

month_lem :
    (leap : Bool) (D : ℕ)
    → D < days_before_month leap 13
    → (f m d : ℕ) → 0 < m
    → m + f ≡ 13
    → D ≡ days_before_month leap m + d
    → MonthDay leap D (month_loop (months_of leap) f m d)
unfolding month_loop
month_lem leap D hD zero m d p e s =
    let end : m ≡ 13 = omega arith in absurd (omega (arith, s, hD, ap (days_before_month leap) end))
month_lem leap D hD (suc f) m d p e s = elim (Bool-cases (leb (months_of leap (m - 1)) d)) [
  | inl y ↦
      rw (month_loop, y)
        (let le : months_of leap (m - 1) ≤ d = ground arith in
          let step = entry_lem leap m p (omega arith) in
          month_lem leap D hD f (m + 1) (d - months_of leap (m - 1)) (omega arith) (omega arith)
            (omega arith))
  | inr n ↦
      rw (month_loop, n)
        (record {
          month = m;
          day = d;
          result = refl;
          month_pos = p;
          month_lt = omega arith;
          day_lt = ground arith;
          sum = s;
        })
]

record YearDay (D : ℕ) (o : Option (ℕ × ℕ)) : Type 0 where
  year : ℕ
  day : ℕ
  result : o ≡ some (year, day)
  year_ge : 1970 ≤ year
  day_lt : day < days_in_year year
  sum : D ≡ days_before_year year + day

days_pos : (y : ℕ) → 365 ≤ days_in_year y
unfolding days_in_year
days_pos y = ground arith

year_lem :
    (D : ℕ) (f y d : ℕ)
    → d < f
    → 1970 ≤ y
    → y + d < 2 ^ 64
    → D ≡ days_before_year y + d
    → YearDay D (year_loop f y d)
unfolding year_loop
year_lem D zero y d h g b s = absurd (omega arith)
year_lem D (suc f) y d h g b s = elim (Bool-cases (ltb d (days_in_year y))) [
  | inl l ↦
      rw (year_loop, l)
        (record { year = y; day = d; result = refl; year_ge = g; day_lt = ground arith; sum = s })
  | inr n ↦
      let le : days_in_year y ≤ d = ground arith in
      let pos = days_pos y in
      let step = next_year y g in
      let wrap : (y + 1) % 2 ^ 64 ≡ y + 1 = omega arith in
      rw (year_loop, n, wrap)
        (year_lem D f (y + 1) (d - days_in_year y) (omega arith) (omega arith) (omega arith)
          (omega arith))
]

-- The milliseconds from 1970 to a date.
abbrev pub epoch_of : Date → ℕ
epoch_of t =
    let days =
      days_before_year t.year + days_before_month (is_leap_year t.year) t.month + (t.day - 1) in
    (((days * 24 + t.hour) * 60 + t.minute) * 60 + t.second) * 1000 + t.millisecond

-- A date of the calendar.
pub record IsDate (t : Date) : Type 0 where
  pub from_1970 : 1970 ≤ t.year
  pub month_pos : 0 < t.month
  pub month_lt : t.month < 13
  pub day_pos : 0 < t.day
  pub day_le : t.day ≤ months_of (is_leap_year t.year) (t.month - 1)
  pub hour_lt : t.hour < 24
  pub minute_lt : t.minute < 60
  pub second_lt : t.second < 60
  pub millisecond_lt : t.millisecond < 1000

in_year :
    (year day : ℕ)
    → day < days_in_year year
    → MonthDay (is_leap_year year) day (month_loop (months_of (is_leap_year year)) 12 1 day)
unfolding days_in_year
in_year year day h =
    month_lem (is_leap_year year) day (ground arith) 12 1 day (omega arith) (omega arith)
      (omega arith)

module _ (epoch : ℕ) where
  finish :
      (y : YearDay
        (epoch / 1000 / 60 / 60 / 24)
        (year_loop (suc (epoch / 1000 / 60 / 60 / 24)) 1970 (epoch / 1000 / 60 / 60 / 24)))
      → MonthDay
          (is_leap_year y.year)
          y.day
          (month_loop (months_of (is_leap_year y.year)) 12 1 y.day)
      → (t : Date) × (epoch_to_date epoch ≡ some t) × IsDate t × (epoch_of t ≡ epoch)
  unfolding epoch_to_date
  finish y m =
      let t : Date = record {
        year = y.year;
        month = m.month;
        day = m.day + 1;
        hour = epoch / 1000 / 60 / 60 % 24;
        minute = epoch / 1000 / 60 % 60;
        second = epoch / 1000 % 60;
        millisecond = epoch % 1000;
      } in
      let runs : epoch_to_date epoch ≡ some t = rw (epoch_to_date, y.result, m.result) in
      let valid : IsDate t = record {
        from_1970 = y.year_ge;
        month_pos = m.month_pos;
        month_lt = m.month_lt;
        day_pos = omega arith;
        day_le = omega (arith, m.day_lt);
        hour_lt = omega arith;
        minute_lt = omega arith;
        second_lt = omega arith;
        millisecond_lt = omega arith;
      } in
      (t, runs, valid, omega (arith, y.sum, m.sum))

  -- For every 64-bit time `epoch_to_date` ends with a date of the Gregorian calendar from 1970 on,
  -- day and month within their ranges, and the milliseconds from 1970 to that date are the time.
  pub epoch_to_date_lem :
      epoch < 2 ^ 64 → (t : Date) × (epoch_to_date epoch ≡ some t) × IsDate t × (epoch_of t ≡ epoch)
  epoch_to_date_lem h =
      let days = epoch / 1000 / 60 / 60 / 24 in
      let y =
        year_lem days (suc days) 1970 days (omega arith) (omega arith) (omega arith)
          (omega arith) in
      finish y (in_year y.year y.day y.day_lt)
