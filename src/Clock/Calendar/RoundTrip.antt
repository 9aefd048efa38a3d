-- ===== src/Clock/Calendar/RoundTrip.antt =====
-- kernel/systime.c: from a date to its count of days and back, from 1980 to 2099.
use fdkernel.Common.{ℕ, ◌+◌, ◌-◌, ◌^◌, ◌≤◌, ◌<◌, ◌≡◌, true, false, arith, ltb, some, ap}
use fdkernel.Clock.Calendar.{
  Date, entry, is_leap_year_monthdays, days_from_year_month_day, year_fuel, date_of_days,
}
use fdkernel.Clock.Calendar.Years.{days_before, year_length_bounds, year_loop_lem, year_loop_total}
use fdkernel.Clock.Calendar.Months.{in_month, year-Checked}

-- A day of the calendar from 1980 to 2099.
abbrev pub IsDate : Date → Type 0
IsDate d =
    (1980 ≤ d.year)
    × (d.year < 2100)
    × (1 ≤ d.month)
    × (d.month ≤ 12)
    × (1 ≤ d.monthday)
    × (d.monthday + entry (is_leap_year_monthdays d.year) (d.month - 1)
        ≤ entry (is_leap_year_monthdays d.year) d.month)

-- The sum of `DaysFromYearMonthDay` does not wrap.
pub days_from_lem :
    (d : Date)
    → IsDate d
    → days_from_year_month_day d.year d.month d.monthday + 1
      ≡ days_before d.year + entry (is_leap_year_monthdays d.year) (d.month - 1) + d.monthday
unfolding days_from_year_month_day
days_from_lem d v =
    let short = (year-Checked d.year).2 d.month (omega arith) in
    let bounds = year_length_bounds d.year in
    let recent : ltb d.year 1980 ≡ false = ground arith in rw recent (omega arith)

-- `DosGetDate` recovers every date from 1 January 1980 to 31 December 2099 from the count of days
-- that `DaysFromYearMonthDay` gives for it.
pub date_of_days-days_from :
    (d : Date)
    → IsDate d
    → date_of_days (days_from_year_month_day d.year d.month d.monthday) ≡ some d
date_of_days-days_from d v =
    let short = (year-Checked d.year).2 d.month (omega arith) in
    let bounds = year_length_bounds d.year in
    let sum = days_from_lem d v in
    let r = entry (is_leap_year_monthdays d.year) (d.month - 1) + d.monthday - 1 in
    let years =
      year_loop_lem year_fuel (d.year - 1980) 1980 d.year r
        (days_from_year_month_day d.year d.month d.monthday) (omega arith) (omega arith)
        (omega arith) (omega arith) (omega arith) (omega arith) in
    let inside : in_month (is_leap_year_monthdays d.year) d.month r ≡ true = ground arith in
    let months = (year-Checked d.year).0 r d.month (omega arith) (omega arith) inside in
    unfold date_of_days in
    rw (years, months) (ap (λ (n : ℕ). some (record d { monthday = n })) (omega arith))

-- `DosGetDate` is total on the 65536 values of the day counter, it yields a month and a day of
-- that month, and up to 31 December 2099 `DaysFromYearMonthDay` of its answer is the counter.
pub date_of_days_total :
    (c : ℕ)
    → c < 2 ^ 16
    → (d : Date) × (date_of_days c ≡ some d)
      × (1980 ≤ d.year)
      × (1 ≤ d.month)
      × (d.month ≤ 12)
      × (1 ≤ d.monthday)
      × (d.monthday + entry (is_leap_year_monthdays d.year) (d.month - 1)
          ≤ entry (is_leap_year_monthdays d.year) d.month)
      × (c < 43830 → IsDate d × (days_from_year_month_day d.year d.month d.monthday ≡ c))
date_of_days_total c h =
    let (z, r, years, from, short, same, size) =
      year_loop_total year_fuel 1980 c (omega arith) (omega arith) (omega arith) in
    let (month, months, inside) = (year-Checked z).1 r short in
    let base = entry (is_leap_year_monthdays z) (month - 1) in
    let d : Date = record { year = z; month = month; monthday = r - base + 1 } in
    let facts : (1 ≤ month)
        × (month ≤ 12)
        × (base ≤ r)
        × (r < entry (is_leap_year_monthdays z) month) =
      ground arith in
    (
      d,
      unfold date_of_days in rw (years, months),
      from,
      facts.0,
      facts.1,
      omega arith,
      omega arith,
      λ early.
          let near : z < 2101 = omega arith in
          let at = same near in
          let valid : IsDate d = (from, omega arith, facts.0, facts.1, omega arith, omega arith) in
          (valid, omega (arith, days_from_lem d valid, year_length_bounds z)),
    )
