-- ===== src/Date.antt =====
-- etc/lib/epochToDate/epochToDate.c: a time in milliseconds from 1970 as a date.
pub mod Laws
mod Tests
use deprecat_os.Prelude.{
  ℕ, zero, suc, ◌+◌, ◌-◌, ◌*◌, ◌/◌, ◌%◌, ◌^◌, Bool, true, false, ◌&&◌, ◌||◌, not, Option, none,
  some, List, [], ◌∷◌, get_or, write, ◌==◌, ltb, leb, if◌then◌else◌,
}
use mathlib.Core.Option

-- `days_per_month`, which is the same before and after a call; it is not read past its end.
abbrev month_days : List ℕ
month_days = 31 ∷ 28 ∷ 31 ∷ 30 ∷ 31 ∷ 30 ∷ 31 ∷ 31 ∷ 30 ∷ 31 ∷ 30 ∷ 31 ∷ []

abbrev pub days_per_month : ℕ → ℕ
days_per_month i = get_or month_days i 0

unfoldable pub is_leap_year : ℕ → Bool
is_leap_year year = year % 4 == 0 && (not (year % 100 == 0) || year % 400 == 0)

unfoldable pub days_in_year : ℕ → ℕ
days_in_year year = if is_leap_year year then 366 else 365

-- The outputs.
pub record Date : Type 0 where
  pub year : ℕ
  pub month : ℕ
  pub day : ℕ
  pub hour : ℕ
  pub minute : ℕ
  pub second : ℕ
  pub millisecond : ℕ

-- The loop over the years, on fuel: the year, and the days left in it.
unfoldable pub year_loop : ℕ → ℕ → ℕ → Option (ℕ × ℕ)
year_loop zero year day_of_epoch = none
year_loop (suc fuel) year day_of_epoch = elim (ltb day_of_epoch (days_in_year year)) [
  | true ↦ some (year, day_of_epoch)
  | false ↦ year_loop fuel ((year + 1) % 2 ^ 64) (day_of_epoch - days_in_year year)
]

-- The loop over the months, on fuel.
unfoldable pub month_loop : (ℕ → ℕ) → ℕ → ℕ → ℕ → Option (ℕ × ℕ)
month_loop table zero month day_of_epoch = none
month_loop table (suc fuel) month day_of_epoch = elim (leb (table (month - 1)) day_of_epoch) [
  | true ↦ month_loop table fuel (month + 1) (day_of_epoch - table (month - 1))
  | false ↦ some (month, day_of_epoch)
]

-- The table with February of a leap year, as it is during the loop.
unfoldable pub months_of : Bool → ℕ → ℕ
months_of leap = if leap then write days_per_month 1 (days_per_month 1 + 1) else days_per_month

unfoldable pub epoch_to_date : ℕ → Option Date
epoch_to_date epoch =
    let seconds = epoch / 1000 in
    let minutes = seconds / 60 in
    let hours = minutes / 60 in
    elim (year_loop (suc (hours / 24)) 1970 (hours / 24)) [
      | none ↦ none
      | some (year, day_of_year) ↦
          elim (month_loop (months_of (is_leap_year year)) 12 1 day_of_year) [
            | none ↦ none
            | some (month, day_of_month) ↦ some (record {
              year = year;
              month = month;
              day = day_of_month + 1;
              hour = hours % 24;
              minute = minutes % 60;
              second = seconds % 60;
              millisecond = epoch % 1000;
            })
          ]
    ]
